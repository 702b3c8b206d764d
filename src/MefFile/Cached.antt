-- ===== src/MefFile/Cached.antt =====
-- What `access` returns, by the index, the type of the HDU and the handle that is there.
use ele_fits.Prelude.{
  ◌≡◌, refl, ◌∙◌, sym, ap, ◌≢◌, arith, ◌<◌, inl, inr, Bool-cases, get_elem?-some, ◌⊎◌, ℕ, zero, suc,
  true, Option, none, some, List, [], ◌∷◌, length, get_elem?, set, Outcome, ok, fail, fits_error,
}
use ele_fits.Prelude.Int.{ℤ, to_int, to_int-small, pos, negsuc, ◌+ℤ◌, ◌-ℤ◌, ◌≤ℤ◌, ◌<ℤ◌}
use ele_fits.Prelude.Methods.{Method, lift, and_then, ◌>>=◌, ◌>>◌}
use ele_fits.Hdu.{Hdu, make_hdu}
use ele_fits.MefFile.Access.{
  HduType, image_hdu, binary_tbl, ascii_tbl, Cfitsio, current_type, known, IsStandard,
}
use ele_fits.MefFile.{
  Target, handler_of, is_target, Action, MefFile, on_stream, on_handle, each_action, notify,
  hdu_count, slot_at, cast_handle, resolve, fill_slot, access,
}
use ele_fits.MefFile.Consistent.{Placed-length, Placed-get, IsConsistent}
use ele_fits.MefFile.Keeping.{Keeps, AllTame, handle_at-some}
use ele_fits.MefFile.Accessing.{
  access-IsKeepingFor, after_move, moved-Keeps, current_after, current_type-at,
}
use ele_fits.MefFile.Removing.{unreached}

get_elem?-set_self {ℓ} :
    {A : Type ℓ} (xs : List A) (i : ℕ) (old v : A)
    → get_elem? xs i ≡ some old
    → get_elem? (set xs i v) i ≡ some v
get_elem?-set_self [] i old v e = cc
get_elem?-set_self (x ∷ xs) zero old v e = refl
get_elem?-set_self (x ∷ xs) (suc i) old v e = get_elem?-set_self xs i old v e

same_type : {t t' : HduType} → ◌≡◌ {A = Option HduType} (some t) (some t') → t ≡ t'
same_type e = cc

module _ (c : Cfitsio) where
  open c use {Stream, Data, types, current}

  -- The index of an HDU, from the start or from the end.
  abbrev pub Resolves : MefFile c → ℤ → ℕ → Type 0
  Resolves m index j = (resolve c index (hdu_count c m) ≡ pos j) × (j < length (types m.stream))

  -- The first steps of `access` for an HDU that the file has.
  access-typed :
      (target : Target) (index : ℤ) (j : ℕ) (t : HduType) (m : MefFile c)
      → IsStandard c
      → Resolves m index j
      → get_elem? (types m.stream) j ≡ some t
      → IsConsistent c m
      → access c target index m
        ≡ (lift (known c (some t)) >>= λ type. slot_at c (pos j) >>= λ (slot, found).
              fill_slot c type (pos j) slot found >> cast_handle c target slot)
            (after_move c (pos j) m)
  unfolding access on_stream current_type
  access-typed target index j t m law (at, inside) typed v =
      let after = current_after c m.stream j law inside in
      let moved = moved-Keeps c m (pos j) law v in
      let typed' : get_elem? (types (after_move c (pos j) m).stream) j ≡ some t =
        rw (moved.same_types) typed in
      let read = current_type-at c (after_move c (pos j) m).stream j t after.1 typed' in
      rw at (rw (after.0) (rw (ap (λ r. r.0) read) refl))

  at_slot :
      (m : MefFile c) (j : ℕ) (o : Option Hdu)
      → get_elem? m.hdus j ≡ some o
      → slot_at c (pos j) m ≡ (ok (j, o), m)
  unfolding slot_at
  at_slot m j o e = rw (e, slot_at) refl

  -- A handle that is there is only cast.
  filled_slot :
      (target : Target) (j : ℕ) (t : HduType) (h : Hdu) (m : MefFile c)
      → get_elem? m.hdus j ≡ some (some h)
      → is_target target h.handler ≡ true
      → (slot_at c (pos j) >>= λ (slot, found).
            fill_slot c t (pos j) slot found >> cast_handle c target slot)
          m
        ≡ (ok j, m)
  unfolding fill_slot cast_handle
  filled_slot target j t h m found cast =
      rw (at_slot m j (some h) found) (rw (handle_at-some c m j h found) (rw cast refl))

  -- The handle of an HDU that was accessed or appended before is returned by `access` as it is, by
  -- each index of the HDU: no handle is changed and no action is called. This is for an image or a
  -- binary table, and a class to which the handle can be cast.
  pub access-known :
      (target : Target) (index : ℤ) (j : ℕ) (t : HduType) (h : Hdu) (m : MefFile c)
      → IsStandard c
      → IsConsistent c m
      → Resolves m index j
      → get_elem? (types m.stream) j ≡ some t
      → t ≢ ascii_tbl
      → get_elem? m.hdus j ≡ some (some h)
      → is_target target h.handler ≡ true
      → access c target index m ≡ (ok j, after_move c (pos j) m)
  access-known target index j ascii_tbl h m law v r typed other found cast = absurd (other refl)
  access-known target index j image_hdu h m law v r typed other found cast =
      access-typed target index j image_hdu m law r typed v
      ∙ filled_slot target j image_hdu h (after_move c (pos j) m) found cast
  access-known target index j binary_tbl h m law v r typed other found cast =
      access-typed target index j binary_tbl m law r typed v
      ∙ filled_slot target j binary_tbl h (after_move c (pos j) m) found cast

  -- `access` throws `FitsError` on an HDU that is an ASCII table, and changes no handle.
  pub access-ascii :
      (target : Target) (index : ℤ) (j : ℕ) (m : MefFile c)
      → IsStandard c
      → IsConsistent c m
      → Resolves m index j
      → get_elem? (types m.stream) j ≡ some ascii_tbl
      → access c target index m ≡ (fail fits_error, after_move c (pos j) m)
  access-ascii target index j m law v r typed =
      access-typed target index j ascii_tbl m law r typed v

  outside :
      (index : ℤ) (n j : ℕ)
      → ((index <ℤ (pos 0 -ℤ pos n)) ⊎ (pos n ≤ℤ index))
      → j < n
      → resolve c index (pos n) +ℤ pos 1 ≢ pos (suc j)
  unfolding ◌+ℤ◌ ◌-ℤ◌
  outside (pos i) n j out h e = ground arith
  outside (negsuc i) n j out h e = ground arith

  -- The index of an HDU after the others, counted from 1, is an `int`.
  abbrev pub IsInt : ℤ → Type 0
  IsInt index = (negsuc 2147483647 ≤ℤ index) × (index <ℤ pos 2147483647)

  next-IsInt :
      (index : ℤ) (n : ℕ)
      → IsInt index
      → ((index <ℤ (pos 0 -ℤ pos n)) ⊎ (pos n ≤ℤ index))
      → to_int (resolve c index (pos n) +ℤ pos 1) ≡ resolve c index (pos n) +ℤ pos 1
  unfolding ◌+ℤ◌ ◌-ℤ◌
  next-IsInt (pos i) n small out = to_int-small _ (ground arith) (ground arith)
  next-IsInt (negsuc i) n small out = to_int-small _ (ground arith) (ground arith)

  -- For an index from -2^31 to 2^31 - 2, `access` throws `FitsError` and changes nothing if the index
  -- is less than minus the number of HDUs, or not less than it.
  pub access-outside :
      (target : Target) (index : ℤ) (m : MefFile c)
      → IsStandard c
      → IsConsistent c m
      → IsInt index
      → ((index <ℤ (pos 0 -ℤ hdu_count c m)) ⊎ (hdu_count c m ≤ℤ index))
      → access c target index m ≡ (fail fits_error, m)
  unfolding access on_stream hdu_count
  access-outside target index m law v small out =
      rw
        (unreached c m.stream (resolve c index (hdu_count c m) +ℤ pos 1) law
          (next-IsInt index (length m.hdus) small out)
          (λ j h.
            outside index (length m.hdus) j out (rw (Placed-length 0 m.hdus (types m.stream) v) h)))
        refl

  -- A place has a handle.
  abbrev HasHandle : ℕ → MefFile c → Type 0
  HasHandle j m = (h : Hdu) × (get_elem? m.hdus j ≡ some (some h))

  on_handle-HasHandle :
      (j : ℕ) (f : Method (Hdu × Stream) (Unit {0})) (m : MefFile c)
      → HasHandle j m
      → HasHandle j (on_handle c j f m).1
  unfolding on_handle
  on_handle-HasHandle j f m (h, at) =
      rw (handle_at-some c m j h at) (_, get_elem?-set_self m.hdus j (some h) _ at)

  rest-HasHandle :
      (j : ℕ) (r : Outcome (Unit {0}) × MefFile c) (g : Method (MefFile c) (Unit {0}))
      → HasHandle j r.1
      → ((m : MefFile c) → HasHandle j m → HasHandle j (g m).1)
      → HasHandle j (and_then (λ _. g) r).1
  rest-HasHandle j (fail e, m) g h k = h
  rest-HasHandle j (ok done, m) g h k = k m h

  each_action-HasHandle :
      (event : Action c → Method (Hdu × Stream) (Unit {0})) (j : ℕ) (as' : List (Action c))
      (m : MefFile c)
      → HasHandle j m
      → HasHandle j (each_action c event j as' m).1
  unfolding each_action
  each_action-HasHandle event j [] m h = h
  each_action-HasHandle event j (a ∷ rest) m h =
      rest-HasHandle j (on_handle c j (event a) m) (each_action c event j rest)
        (on_handle-HasHandle j (event a) m h) (each_action-HasHandle event j rest)

  fill_slot-HasHandle :
      (t : HduType) (j : ℕ) (o : Option Hdu) (m : MefFile c)
      → t ≢ ascii_tbl
      → get_elem? m.hdus j ≡ some o
      → HasHandle j (fill_slot c t (pos j) j o m).1
  unfolding fill_slot make_hdu notify
  fill_slot-HasHandle t j (some h) m other at = (h, at)
  fill_slot-HasHandle ascii_tbl j none m other at = absurd (other refl)
  fill_slot-HasHandle image_hdu j none m other at =
      each_action-HasHandle (λ a. a.accessed) j m.actions _
        (_, get_elem?-set_self m.hdus j none _ at)
  fill_slot-HasHandle binary_tbl j none m other at =
      each_action-HasHandle (λ a. a.accessed) j m.actions _
        (_, get_elem?-set_self m.hdus j none _ at)

  cast_handle-stays :
      (target : Target) (j : ℕ) (r : Outcome (Unit {0}) × MefFile c)
      → HasHandle j r.1
      → HasHandle j (and_then (λ _. cast_handle c target j) r).1
  unfolding cast_handle
  cast_handle-stays target j (fail e, m) h = h
  cast_handle-stays target j (ok done, m) (h, at) =
      rw (handle_at-some c m j h at) (elim (Bool-cases (is_target target h.handler)) [
        | inl e ↦ rw e (h, at)
        | inr e ↦ rw e (h, at)
      ])

  slot_at-HasHandle :
      (target : Target) (j : ℕ) (t : HduType) (m : MefFile c)
      → t ≢ ascii_tbl
      → j < length m.hdus
      → HasHandle j
          ((slot_at c (pos j) >>= λ (slot, found).
              fill_slot c t (pos j) slot found >> cast_handle c target slot)
            m).1
  slot_at-HasHandle target j t m other inside =
      let (o, at) = get_elem?-some m.hdus j inside in
      rw (at_slot m j o at) (
        cast_handle-stays target j (fill_slot c t (pos j) j o m)
          (fill_slot-HasHandle t j o m other at))

  access-HasHandle :
      (target : Target) (index : ℤ) (j : ℕ) (t : HduType) (m : MefFile c)
      → IsStandard c
      → IsConsistent c m
      → Resolves m index j
      → get_elem? (types m.stream) j ≡ some t
      → t ≢ ascii_tbl
      → HasHandle j (access c target index m).1
  access-HasHandle target index j ascii_tbl m law v r typed other = absurd (other refl)
  access-HasHandle target index j image_hdu m law v r typed other =
      rw (access-typed target index j image_hdu m law r typed v) (
        slot_at-HasHandle target j image_hdu (after_move c (pos j) m) other
          (rw (Placed-length 0 m.hdus (types m.stream) v) (r.1)))
  access-HasHandle target index j binary_tbl m law v r typed other =
      rw (access-typed target index j binary_tbl m law r typed v) (
        slot_at-HasHandle target j binary_tbl (after_move c (pos j) m) other
          (rw (Placed-length 0 m.hdus (types m.stream) v) (r.1)))

  same_count : (m m' : MefFile c) → Keeps c m m' → IsConsistent c m → hdu_count c m' ≡ hdu_count c m
  unfolding hdu_count
  same_count m m' k v = ap pos (
      Placed-length 0 m'.hdus (types m'.stream) k.placed
      ∙ ap length k.same_types
      ∙ sym (Placed-length 0 m.hdus (types m.stream) v))

  -- After `access`, even one in which an action threw, `access` with the same index returns the
  -- handle of the HDU: no action is called and no handle is changed. This is for an image or a
  -- binary table, the class that its type is given or `Hdu`, and actions that change neither the
  -- index of a handle, nor its class, nor the types of HDUs.
  pub access-access :
      (target : Target) (index : ℤ) (j : ℕ) (t : HduType) (m : MefFile c)
      → IsStandard c
      → IsConsistent c m
      → AllTame c (λ a. a.accessed) m.actions
      → Resolves m index j
      → get_elem? (types m.stream) j ≡ some t
      → t ≢ ascii_tbl
      → is_target target (handler_of t) ≡ true
      → let m' = (access c target index m).1 in
        access c target index m' ≡ (ok j, after_move c (pos j) m')
  access-access target index j t m law v tame r typed other cast =
      let m' = (access c target index m).1 in
      let kept = access-IsKeepingFor c target index m.actions law tame m refl v in
      let (h, at) = access-HasHandle target index j t m law v r typed other in
      let (t', typed', placed, classed) =
        Placed-get 0 j m'.hdus (types m'.stream) h kept.placed at in
      let typed'' : get_elem? (types m'.stream) j ≡ some t = rw (kept.same_types) typed in
      access-known target index j t h m' law kept.placed
        (rw (same_count m m' kept v) (r.0), rw (kept.same_types) (r.1)) typed'' other at
        (rw (classed ∙ ap handler_of (same_type (sym typed' ∙ typed''))) cast)
