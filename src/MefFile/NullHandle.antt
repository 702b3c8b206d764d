-- ===== src/MefFile/NullHandle.antt =====
-- The handle of an HDU that was not accessed, when another is removed.
use ele_fits.Prelude.{
  ◌≡◌, refl, ◌∙◌, sym, ap, arith, ◌<◌, get_elem?-some, ℕ, zero, suc, false, Option, none, some,
  List, [], ◌∷◌, length, get_elem?, fail, undefined_behaviour,
}
use ele_fits.Prelude.Int.{pos, ◌==ℤ◌}
use ele_fits.Hdu.{Hdu}
use ele_fits.MefFile.Access.{Cfitsio, goto_index, remove_hdu, IsStandard, erase}
use ele_fits.MefFile.{MefFile, on_stream}
use ele_fits.MefFile.Consistent.{Placed-length, IsConsistent}
use ele_fits.MefFile.Accessing.{after_move, reached, pos_next}
use ele_fits.MefFile.Removal.{shift_handles, shift_from, erase_handle, remove_extension, remove}

shift_handles-null :
    (hs : List (Option Hdu)) (j : ℕ)
    → get_elem? hs j ≡ some none
    → shift_handles hs ≡ fail undefined_behaviour
unfolding shift_handles
shift_handles-null [] j e = cc
shift_handles-null (none ∷ hs) j e = refl
shift_handles-null (some h ∷ hs) zero e = cc
shift_handles-null (some h ∷ hs) (suc j) e = rw (shift_handles-null hs j e) refl

shift_from-null :
    (hs : List (Option Hdu)) (i j : ℕ)
    → i < j
    → get_elem? hs j ≡ some none
    → shift_from i (erase hs i) ≡ fail undefined_behaviour
unfolding shift_from
shift_from-null [] i j h e = cc
shift_from-null (x ∷ hs) i zero h e = absurd (omega arith)
shift_from-null (x ∷ hs) zero (suc j) h e = shift_handles-null hs j e
shift_from-null (x ∷ hs) (suc i) (suc j) h e = rw (shift_from-null hs i j (omega arith) e) refl

pub lt-length {ℓ} :
    {A : Type ℓ} (xs : List A) (j : ℕ) (a : A) → get_elem? xs j ≡ some a → j < length xs
lt-length [] j a e = cc
lt-length (x ∷ xs) zero a e = omega arith
lt-length (x ∷ xs) (suc j) a e = omega (arith, lt-length xs j a e)

not_primary : (i : ℕ) → (pos (suc i) ==ℤ pos 0) ≡ false
not_primary i = ground arith

module _ (c : Cfitsio) where
  open c use {Stream, Data, types, delete}

  erase_handle-null :
      (i j : ℕ) (m : MefFile c)
      → i < j
      → get_elem? m.hdus j ≡ some none
      → erase_handle c (pos i) m ≡ (fail undefined_behaviour, m)
  unfolding erase_handle
  erase_handle-null i j m h null =
      let before : i < length m.hdus = omega (arith, lt-length m.hdus j none null) in
      let (x, at) = get_elem?-some m.hdus i before in
      rw (at, erase_handle) (rw (shift_from-null m.hdus i j h null) refl)

  remove_extension-null :
      (i j : ℕ) (m : MefFile c) (s : Stream)
      → IsStandard c
      → suc i < length (types m.stream)
      → suc i < j
      → get_elem? m.hdus j ≡ some none
      → delete (after_move c (pos (suc i)) m).stream ≡ some s
      → remove_extension c (pos (suc i)) m ≡ (fail undefined_behaviour, record m { stream = s })
  unfolding remove_extension remove_hdu on_stream
  remove_extension-null i j m s law inside h null deleted =
      let (s', moved, same, at) = reached c m.stream (suc i) law (omega arith) in
      let here' : delete s' ≡ some s =
        rw (sym (ap (λ r. r.1) (ap (λ k. goto_index c k m.stream) (pos_next (suc i)) ∙ moved)))
          deleted in
      rw (pos_next (suc i))
        (rw moved (rw here' (erase_handle-null (suc i) j (record m { stream = s }) h null)))

  -- Removing an HDU other than the primary reads a null pointer, once CFITSIO has deleted the HDU,
  -- if a later HDU of the file was neither accessed nor appended.
  pub remove-null :
      (copied : Data) (i j : ℕ) (m : MefFile c) (s : Stream)
      → IsStandard c
      → IsConsistent c m
      → suc i < j
      → get_elem? m.hdus j ≡ some none
      → delete (after_move c (pos (suc i)) m).stream ≡ some s
      → remove c copied (pos (suc i)) m ≡ (fail undefined_behaviour, record m { stream = s })
  unfolding remove
  remove-null copied i j m s law v h null deleted =
      let inside : suc i < length (types m.stream) =
        rw (← Placed-length 0 m.hdus (types m.stream) v)
          (omega (arith, lt-length m.hdus j none null)) in
      rw (not_primary i) (remove_extension-null i j m s law inside h null deleted)
