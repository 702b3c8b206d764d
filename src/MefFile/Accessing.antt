-- ===== src/MefFile/Accessing.antt =====
-- The handle that `access` returns.
use ele_fits.Prelude.{
  ◌≡◌, refl, sym, ap, ◌≢◌, arith, ◌≤◌, ◌<◌, inl, inr, Bool-cases, ltb, ltb→lt, get_elem?-some, ◌⊎◌,
  ℕ, zero, suc, ◌+◌, false, Option, none, some, List, [], ◌∷◌, length, get_elem?, set, Outcome, ok,
  fail, undefined_behaviour,
}
use ele_fits.Prelude.Int.{ℤ, pos, negsuc, to_int-pos, ◌+ℤ◌, ◌==ℤ◌, ==ℤ_iff}
use ele_fits.Prelude.Methods.{Method, lift, and_then, ◌>>=◌, ◌>>◌}
use ele_fits.Hdu.{Hdu, make_hdu}
use ele_fits.MefFile.Access.{
  HduType, image_hdu, binary_tbl, ascii_tbl, Cfitsio, goto_index, current_type, known, type_at,
  IsStandard,
}
use ele_fits.MefFile.{
  Target, handler_of, Action, MefFile, on_stream, notify, hdu_count, slot_at, cast_handle, resolve,
  fill_slot, access,
}
use ele_fits.MefFile.Consistent.{Placed-length, Placed-set, IsConsistent}
use ele_fits.MefFile.Keeping.{
  goto_index-IsKeeping, Keeps, Keeps-refl, Keeps-trans, IsKeeping, IsKeepingFor, AllTame,
  notify-IsKeepingFor, cast_handle-IsKeeping,
}

pos_suc : (n : ℕ) → pos n +ℤ pos 1 ≡ pos (suc (0 + n))
unfolding ◌+ℤ◌
pos_suc n = ground arith

pub get_elem?-none {ℓ} : {A : Type ℓ} (xs : List A) (i : ℕ) → length xs ≤ i → get_elem? xs i ≡ none
get_elem?-none [] i h = refl
get_elem?-none (x ∷ xs) zero h = absurd (omega arith)
get_elem?-none (x ∷ xs) (suc i) h = get_elem?-none xs i (omega arith)

pub le_of_ltb : (a b : ℕ) → ltb a b ≡ false → b ≤ a
le_of_ltb a b h = ground arith

pub pos_next : (n : ℕ) → pos n +ℤ pos 1 ≡ pos (suc n)
unfolding ◌+ℤ◌
pos_next n = ground arith

pub slot_in : (o : Option (Option Hdu)) → (o ≡ none) ⊎ ((found : Option Hdu) × (o ≡ some found))
slot_in none = inl refl
slot_in (some found) = inr (found, refl)

module _ (c : Cfitsio) where
  open c use {Stream, Data, types, current, move, create, write, delete}

  -- An HDU of the file is made the current one.
  pub reached :
      (s : Stream) (i : ℕ)
      → IsStandard c
      → suc i ≤ length (types s)
      → (s' : Stream) × (goto_index c (pos (suc i)) s ≡ (ok tt, s'))
        × (types s' ≡ types s)
        × (current s' ≡ pos (suc i))
  unfolding goto_index
  reached s i law h = elim (Bool-cases (pos (suc i) ==ℤ current s)) [
    | inl e ↦ (s, rw e refl, refl, sym ((==ℤ_iff (pos (suc i)) (current s)).0 e))
    | inr e ↦
        (let (s', moved, same, at) = law.moved s i h in
          let small = to_int-pos (suc i) (omega (arith, law.few s)) in
          (s', rw (e, small, moved) refl, same, at))
  ]

  pub current_type-at :
      (s : Stream) (i : ℕ) (t : HduType)
      → current s ≡ pos (suc i)
      → get_elem? (types s) i ≡ some t
      → current_type c s ≡ (known c (some t), s)
  unfolding current_type
  current_type-at s i t at typed = rw (at, type_at) (rw typed refl)

  -- A new handle in the place of an HDU.
  filled-Keeps :
      (m : MefFile c) (t : HduType) (i : ℕ) (h : Hdu)
      → AllTame c (λ a. a.accessed) m.actions
      → IsConsistent c m
      → get_elem? (types m.stream) i ≡ some t
      → h.cfitsio_index ≡ pos (suc (0 + i))
      → h.handler ≡ handler_of t
      → Keeps c m (notify c (λ a. a.accessed) i (record m { hdus = set m.hdus i (some h) })).1
  filled-Keeps m t i h tame v typed at classed =
      let filled : MefFile c = record m { hdus = set m.hdus i (some h) } in
      let placed = Placed-set 0 i m.hdus (types m.stream) h t v typed at classed in
      Keeps-trans c m filled _ (record { same_types = refl; same_actions = refl; placed = placed })
        (notify-IsKeepingFor c (λ a. a.accessed) i m.actions tame filled refl placed)

  fill_slot-Keeps :
      (m : MefFile c) (t : HduType) (i : ℕ)
      → AllTame c (λ a. a.accessed) m.actions
      → IsConsistent c m
      → get_elem? (types m.stream) i ≡ some t
      → t ≢ ascii_tbl
      → Keeps c m (fill_slot c t (pos i) i none m).1
  unfolding fill_slot make_hdu
  fill_slot-Keeps m ascii_tbl i tame v typed other = absurd (other refl)
  fill_slot-Keeps m image_hdu i tame v typed other =
      filled-Keeps m image_hdu i _ tame v typed (pos_suc i) refl
  fill_slot-Keeps m binary_tbl i tame v typed other =
      filled-Keeps m binary_tbl i _ tame v typed (pos_suc i) refl

  -- What `access` does after the move to the HDU.
  abbrev at_index : Target → ℤ → Method (MefFile c) ℕ
  at_index target i = do
    type ← on_stream c (current_type c)
    (slot, found) ← slot_at c i
    fill_slot c type i slot found
    cast_handle c target slot

  -- The type that is read, as a value.
  after_type : Target → ℤ → Outcome HduType → Method (MefFile c) ℕ
  after_type target i o = do
    type ← lift o
    (slot, found) ← slot_at c i
    fill_slot c type i slot found
    cast_handle c target slot

  then-Keeps :
      {A B : Type 0} (m : MefFile c) (r : Outcome A × MefFile c) (g : A → Method (MefFile c) B)
      → Keeps c m r.1
      → ((a : A) → IsKeeping c (g a))
      → Keeps c m (and_then g r).1
  then-Keeps m (fail e, m') g k kg = k
  then-Keeps m (ok a, m') g k kg = Keeps-trans c m m' (g a m').1 k (kg a m' (k.placed))

  slot_at-negsuc : (i : ℕ) (m : MefFile c) → slot_at c (negsuc i) m ≡ (fail undefined_behaviour, m)
  unfolding slot_at
  slot_at-negsuc i m = refl

  slot_at-pos :
      (i : ℕ) (m : MefFile c)
      → length m.hdus ≤ i
      → slot_at c (pos i) m ≡ (fail undefined_behaviour, m)
  unfolding slot_at
  slot_at-pos i m h = rw (get_elem?-none m.hdus i h, slot_at) refl

  -- No place of the list has the index.
  missing-Keeps :
      (target : Target) (i : ℤ) (o : Outcome HduType) (m : MefFile c)
      → IsConsistent c m
      → slot_at c i m ≡ (fail undefined_behaviour, m)
      → Keeps c m (after_type target i o m).1
  unfolding after_type
  missing-Keeps target i (fail e) m v none_at = Keeps-refl c m v
  missing-Keeps target i (ok t) m v none_at = rw none_at (Keeps-refl c m v)

  fill_slot-IsKeeping_here :
      (m : MefFile c) (t : HduType) (i : ℕ) (found : Option Hdu)
      → AllTame c (λ a. a.accessed) m.actions
      → IsConsistent c m
      → get_elem? (types m.stream) i ≡ some t
      → t ≢ ascii_tbl
      → Keeps c m (fill_slot c t (pos i) i found m).1
  unfolding fill_slot
  fill_slot-IsKeeping_here m t i (some h) tame v typed other = Keeps-refl c m v
  fill_slot-IsKeeping_here m t i none tame v typed other = fill_slot-Keeps m t i tame v typed other

  typed-Keeps :
      (target : Target) (i : ℕ) (t : HduType) (m : MefFile c)
      → AllTame c (λ a. a.accessed) m.actions
      → IsConsistent c m
      → get_elem? (types m.stream) i ≡ some t
      → t ≢ ascii_tbl
      → Keeps c m (after_type target (pos i) (ok t) m).1
  unfolding after_type slot_at
  typed-Keeps target i t m tame v typed other = elim (slot_in (get_elem? m.hdus i)) [
    | inl e ↦ rw e (Keeps-refl c m v)
    | inr (found, e) ↦ rw e (
        then-Keeps m (fill_slot c t (pos i) i found m) (λ _. cast_handle c target i)
          (fill_slot-IsKeeping_here m t i found tame v typed other)
          (λ _. cast_handle-IsKeeping c target i))
  ]

  found-Keeps :
      (target : Target) (i : ℕ) (t : HduType) (m : MefFile c)
      → AllTame c (λ a. a.accessed) m.actions
      → IsConsistent c m
      → get_elem? (types m.stream) i ≡ some t
      → Keeps c m (after_type target (pos i) (known c (some t)) m).1
  unfolding after_type
  found-Keeps target i ascii_tbl m tame v typed = Keeps-refl c m v
  found-Keeps target i image_hdu m tame v typed =
      typed-Keeps target i image_hdu m tame v typed (λ e. cc)
  found-Keeps target i binary_tbl m tame v typed =
      typed-Keeps target i binary_tbl m tame v typed (λ e. cc)

  pub current_after :
      (s : Stream) (j : ℕ)
      → IsStandard c
      → j < length (types s)
      → (goto_index c (pos j +ℤ pos 1) s).0 ≡ ok tt
        × (current (goto_index c (pos j +ℤ pos 1) s).1 ≡ pos (suc j))
  current_after s j law h =
      let (s', moved, same, at) = reached s j law (omega arith) in
      rw (pos_next j) (rw moved (refl, at))

  -- The file after the move to the HDU of an index.
  abbrev pub after_move : ℤ → MefFile c → MefFile c
  after_move i m = record m { stream = (goto_index c (i +ℤ pos 1) m.stream).1 }

  pub moved-Keeps :
      (m : MefFile c) (i : ℤ) → IsStandard c → IsConsistent c m → Keeps c m (after_move i m)
  unfolding on_stream
  moved-Keeps m i law v = goto_index-IsKeeping c (i +ℤ pos 1) law m v

  in_file-Keeps :
      (target : Target) (i : ℤ) (m : MefFile c)
      → IsStandard c
      → AllTame c (λ a. a.accessed) m.actions
      → IsConsistent c m
      → Keeps c
          (after_move i m)
          (after_type target i (current_type c (after_move i m).stream).0 (after_move i m)).1
  in_file-Keeps target (negsuc j) m law tame v =
      missing-Keeps target (negsuc j) _ (after_move (negsuc j) m)
        (moved-Keeps m (negsuc j) law v).placed (slot_at-negsuc j _)
  in_file-Keeps target (pos j) m law tame v =
      let moved = moved-Keeps m (pos j) law v in
      elim (Bool-cases (ltb j (length m.hdus))) [
        | inl e ↦
            (let inside : j < length (types m.stream) =
                rw (← Placed-length 0 m.hdus (types m.stream) v) (ltb→lt j (length m.hdus) e) in
              let (t, typed) = get_elem?-some (types m.stream) j inside in
              let typed' : get_elem? (types (after_move (pos j) m).stream) j ≡ some t =
                rw (moved.same_types) typed in
              rw
                (ap (λ r. r.0)
                  (current_type-at (after_move (pos j) m).stream j t
                    (current_after m.stream j law inside).1 typed'))
                (found-Keeps target j t (after_move (pos j) m) tame moved.placed typed'))
        | inr e ↦
            missing-Keeps target (pos j) _ (after_move (pos j) m) moved.placed
              (slot_at-pos j (after_move (pos j) m) (le_of_ltb j (length m.hdus) e))
      ]

  after_goto :
      {A : Type 0} (m m' : MefFile c) (r : Outcome (Unit {0})) (g : Method (MefFile c) A)
      → Keeps c m m'
      → Keeps c m' (g m').1
      → Keeps c m (and_then (λ _. g) (r, m')).1
  after_goto m m' (fail e) g k k' = k
  after_goto m m' (ok done) g k k' = Keeps-trans c m m' (g m').1 k k'

  -- `access` keeps the handles at their places.
  pub access-IsKeepingFor :
      (target : Target) (index : ℤ) (actions : List (Action c))
      → IsStandard c
      → AllTame c (λ a. a.accessed) actions
      → IsKeepingFor c actions (access c target index)
  unfolding access on_stream current_type after_type
  access-IsKeepingFor target index actions law tame m same v =
      let i = resolve c index (hdu_count c m) in
      after_goto m (after_move i m) (goto_index c (i +ℤ pos 1) m.stream).0 (at_index target i)
        (moved-Keeps m i law v) (in_file-Keeps target i m law (rw same tame) v)
