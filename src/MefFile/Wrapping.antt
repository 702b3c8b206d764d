-- ===== src/MefFile/Wrapping.antt =====
-- The conversion of an index to `int` by `access`.
use ele_fits.Prelude.{
  ◌∙◌, ◌≡◌, refl, ap, ◌≢◌, arith, ◌<◌, ℕ, suc, false, some, length, get_elem?, ok, fail,
  undefined_behaviour, ◌+◌,
}
use ele_fits.Prelude.Int.{to_int, ℤ, to_int-wraps, ◌==ℤ◌, pos, ◌+ℤ◌}
use ele_fits.Prelude.Methods.{lift, ◌>>=◌, ◌>>◌}
use ele_fits.MefFile.Access.{
  HduType, image_hdu, binary_tbl, ascii_tbl, Cfitsio, goto_index, current_type, known, IsStandard,
}
use ele_fits.MefFile.{
  Target, MefFile, on_stream, hdu_count, slot_at, cast_handle, fill_slot, resolve, access,
}
use ele_fits.MefFile.NullHandle.{lt-length}
use ele_fits.MefFile.Consistent.{Placed-length, IsConsistent}
use ele_fits.MefFile.Accessing.{current_type-at, get_elem?-none, pos_next}

past : (j : ℕ) → suc (4294967296 + j) ≡ 4294967296 + suc j
past j = omega arith

module _ (c : Cfitsio) where
  open c use {Stream, Data, types, current, move}

  too_far :
      (j k n : ℕ) → k < n → n < 2147483648 → (pos (suc (4294967296 + j)) ==ℤ pos (suc k)) ≡ false
  too_far j k n h few = ground arith

  -- The type of an HDU that the library knows.
  abbrev pub IsKnown : HduType → Type 0
  IsKnown t = t ≢ ascii_tbl

  after_known :
      (t : HduType) (target : Target) (i : ℤ) (m : MefFile c)
      → IsKnown t
      → slot_at c i m ≡ (fail undefined_behaviour, m)
      → (lift (known c (some t)) >>= λ type. slot_at c i >>= λ (slot, found).
            fill_slot c type i slot found >> cast_handle c target slot)
          m
        ≡ (fail undefined_behaviour, m)
  after_known ascii_tbl target i m other missing = absurd (other refl)
  after_known image_hdu target i m other missing = rw missing refl
  after_known binary_tbl target i m other missing = rw missing refl

  beyond :
      (j : ℕ) (m : MefFile c)
      → length m.hdus < 2147483648
      → slot_at c (pos (4294967296 + j)) m ≡ (fail undefined_behaviour, m)
  unfolding slot_at
  beyond j m few = rw (get_elem?-none m.hdus (4294967296 + j) (omega (arith, few)), slot_at) refl

  wrapped_move :
      (j : ℕ) (s : Stream)
      → IsStandard c
      → j < length (types s)
      → (s' : Stream) × (goto_index c (pos (4294967296 + j) +ℤ pos 1) s ≡ (ok tt, s'))
        × (types s' ≡ types s)
        × (current s' ≡ pos (suc j))
  unfolding goto_index
  wrapped_move j s law inside =
      let (s', moved, same, at) = law.moved s j (omega arith) in
      let (k, there, now) = law.inside s in
      let wraps : to_int (pos (suc (4294967296 + j))) ≡ pos (suc j) =
        ap (λ n. to_int (pos n)) (past j) ∙ to_int-wraps (suc j) (omega (arith, law.few s)) in
      (
        s',
        rw (pos_next (4294967296 + j), now, too_far j k (length (types s)) there (law.few s))
            (rw (wraps, moved) refl),
        same,
        at,
      )

  resolve_pos : (j : ℕ) (n : ℤ) → resolve c (pos j) n ≡ pos j
  resolve_pos j n = ground arith

  -- The index of an HDU plus 2^32 is converted to that of the HDU: `access` moves there without a
  -- throw, and reads past the end of the vector of handles. This is for an image or a binary table.
  pub access-wraps :
      (target : Target) (j : ℕ) (t : HduType) (m : MefFile c)
      → IsStandard c
      → IsConsistent c m
      → get_elem? (types m.stream) j ≡ some t
      → IsKnown t
      → (access c target (pos (4294967296 + j)) m).0 ≡ fail undefined_behaviour
  unfolding access on_stream current_type hdu_count
  access-wraps target j t m law v typed other =
      let inside = lt-length (types m.stream) j t typed in
      let (s', moved, same, at) = wrapped_move j m.stream law inside in
      let after : MefFile c = record m { stream = s' } in
      let typed' : get_elem? (types s') j ≡ some t = rw same typed in
      let few : length m.hdus < 2147483648 =
        omega (arith, law.few m.stream, Placed-length 0 m.hdus (types m.stream) v) in
      rw
        (
          resolve_pos (4294967296 + j) (pos (length m.hdus)),
          moved,
          ap (λ r. r.0) (current_type-at c s' j t at typed'),
        )
        (ap (λ r. r.0)
          (after_known t target (pos (4294967296 + j)) after other (beyond j after few)))
