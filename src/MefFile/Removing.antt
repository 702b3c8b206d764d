-- ===== src/MefFile/Removing.antt =====
-- The handles after an HDU is removed.
use ele_fits.Prelude.{
  ◌≡◌, refl, subst, ◌∙◌, ap, ◌≢◌, arith, ◌≤◌, ◌<◌, inl, inr, Bool-cases, ltb, ltb→lt, ◌⊎◌, ℕ, zero,
  suc, false, Option, none, some, List, [], ◌∷◌, length, get_elem?, Outcome, ok, fail, fits_error,
  undefined_behaviour,
}
use ele_fits.Prelude.Int.{ℤ, to_int, pos, negsuc, ◌+ℤ◌, ◌-ℤ◌, ◌==ℤ◌, ==ℤ_iff}
use ele_fits.Prelude.Methods.{and_then, ◌>>◌}
use ele_fits.Hdu.{Hdu}
use ele_fits.MefFile.Access.{
  HduType, Cfitsio, goto_index, remove_hdu, call, called, IsStandard, erase,
}
use ele_fits.MefFile.{
  image_target, handler_of, Action, MefFile, on_stream, access, touch_handle, write_handle,
}
use ele_fits.MefFile.Consistent.{Placed, Placed-length, IsConsistent}
use ele_fits.MefFile.Keeping.{
  goto_index-types, IsKeepingFor, AllTame, bind-IsKeeping, bind-IsKeepingFor, weaken-IsKeepingFor,
  touch_handle-IsKeeping, write_handle-IsKeeping,
}
use ele_fits.MefFile.Accessing.{
  reached, access-IsKeepingFor, slot_in, pos_next, le_of_ltb, get_elem?-none,
}
use ele_fits.MefFile.Removal.{
  cons_outcome, with_hdus, shift_handles, shift_from, erase_handle, remove_extension,
  assign_primary, remove,
}

fallen :
    (h : Hdu) (i : ℕ) → h.cfitsio_index ≡ pos (suc (suc i)) → h.cfitsio_index -ℤ pos 1 ≡ pos (suc i)
unfolding ◌-ℤ◌
fallen h i e = ground arith

-- The handles stand at their places, or a null pointer was read.
abbrev Lands : ℕ → List HduType → Outcome (List (Option Hdu)) → Type 0
Lands i ts (ok hs) = Placed i hs ts
Lands i ts (fail e) = e ≡ undefined_behaviour

cons_null :
    (i : ℕ) (t : HduType) (ts : List HduType) (o : Outcome (List (Option Hdu)))
    → Lands (suc i) ts o
    → Lands i (t ∷ ts) (cons_outcome none o)
cons_null i t ts (fail e) h = h
cons_null i t ts (ok hs) h = h

cons_handle :
    (i : ℕ) (t : HduType) (ts : List HduType) (g : Hdu) (o : Outcome (List (Option Hdu)))
    → g.cfitsio_index ≡ pos (suc i)
    → g.handler ≡ handler_of t
    → Lands (suc i) ts o
    → Lands i (t ∷ ts) (cons_outcome (some g) o)
cons_handle i t ts g (fail e) at classed h = h
cons_handle i t ts g (ok hs) at classed h = (at, classed, h)

-- The handles after the removed one, whose index falls by one.
shift_handles-Lands :
    (i : ℕ) (hs : List (Option Hdu)) (ts : List HduType)
    → Placed (suc i) hs ts
    → Lands i ts (shift_handles hs)
unfolding shift_handles
shift_handles-Lands i [] [] p = tt
shift_handles-Lands i [] (t ∷ ts) p = absurd p
shift_handles-Lands i (none ∷ hs) ts p = refl
shift_handles-Lands i (some h ∷ hs) [] p = absurd p
shift_handles-Lands i (some h ∷ hs) (t ∷ ts) p =
    cons_handle i t ts _ (shift_handles hs) (fallen h i (p.0)) (p.1)
      (shift_handles-Lands (suc i) hs ts p.2)

shift_from-Lands :
    (i j : ℕ) (hs : List (Option Hdu)) (ts : List HduType)
    → Placed i hs ts
    → Lands i (erase ts j) (shift_from j (erase hs j))
unfolding shift_from shift_handles
shift_from-Lands i zero [] [] p = tt
shift_from-Lands i (suc j) [] [] p = tt
shift_from-Lands i j [] (t ∷ ts) p = absurd p
shift_from-Lands i j (none ∷ hs) [] p = absurd p
shift_from-Lands i j (some h ∷ hs) [] p = absurd p
shift_from-Lands i zero (none ∷ hs) (t ∷ ts) p = shift_handles-Lands i hs ts p
shift_from-Lands i zero (some h ∷ hs) (t ∷ ts) p = shift_handles-Lands i hs ts p.2
shift_from-Lands i (suc j) (none ∷ hs) (t ∷ ts) p =
    cons_null i t (erase ts j) (shift_from j (erase hs j)) (shift_from-Lands (suc i) j hs ts p)
shift_from-Lands i (suc j) (some h ∷ hs) (t ∷ ts) p =
    cons_handle i t (erase ts j) h (shift_from j (erase hs j)) (p.0) (p.1)
      (shift_from-Lands (suc i) j hs ts p.2)

not_zero : (i : ℤ) → i ≡ pos 0 → (i ==ℤ pos 0) ≡ false → ⊥
not_zero i e h = ground arith

not_before : (i j : ℕ) → negsuc i +ℤ pos 1 ≢ pos (suc j)
unfolding ◌+ℤ◌
not_before i j e = ground arith

not_after : (i j n : ℕ) → j < n → n ≤ suc i → ◌≢◌ {A = ℤ} (pos (suc (suc i))) (pos (suc j))
not_after i j n h k e = ground arith

module _ (c : Cfitsio) where
  open c use {Stream, Data, types, current, move, create, write, delete}

  -- How a method ended: the handles are at their places and the actions are the same, or the call
  -- was undefined.
  abbrev pub IsSafe : {A : Type 0} → List (Action c) → Outcome A × MefFile c → Type 0
  IsSafe actions (r, m) =
      (IsConsistent c m × (m.actions ≡ actions))
      ⊎ (◌≡◌ {A = Outcome _} r (fail undefined_behaviour))

  -- A move to an index that no HDU has.
  pub unreached :
      (s : Stream) (i : ℤ)
      → IsStandard c
      → to_int i ≡ i
      → ((j : ℕ) → j < length (types s) → i ≢ pos (suc j))
      → goto_index c i s ≡ (fail fits_error, s)
  unfolding goto_index
  unreached s i law small out =
      let (j, h, at) = law.inside s in
      elim (Bool-cases (i ==ℤ current s)) [
        | inl e ↦ absurd (out j h ((==ℤ_iff i (current s)).0 e ∙ at))
        | inr e ↦ rw (e, small, law.refused s i out) refl
      ]

  with_hdus-IsSafe :
      (m : MefFile c) (o : Outcome (List (Option Hdu)))
      → Lands 0 (types m.stream) o
      → IsSafe m.actions (with_hdus c o m)
  with_hdus-IsSafe m (ok hs) h = inl (h, refl)
  with_hdus-IsSafe m (fail e) h = inr (ap fail h)

  erase_handle-IsSafe :
      (m : MefFile c) (i : ℕ) (ts : List HduType)
      → Placed 0 m.hdus ts
      → types m.stream ≡ erase ts i
      → IsSafe m.actions (erase_handle c (pos i) m)
  unfolding erase_handle
  erase_handle-IsSafe m i ts p e = elim (slot_in (get_elem? m.hdus i)) [
    | inl missing ↦ rw (missing, erase_handle) (inr refl)
    | inr (h, found) ↦
        rw (found, erase_handle)
          (with_hdus-IsSafe m (shift_from i (erase m.hdus i))
            (rw e (shift_from-Lands 0 i m.hdus ts p)))
  ]

  -- Once the HDU is the current one, it is deleted with its handle.
  deleted-IsSafe :
      (i : ℕ) (m : MefFile c) (o : Option Stream)
      → IsConsistent c m
      → ((s : Stream) → o ≡ some s → types s ≡ erase (types m.stream) i)
      → IsSafe m.actions ((on_stream c (called c o) >> erase_handle c (pos i)) m)
  unfolding on_stream
  deleted-IsSafe i m none v h = inl (v, refl)
  deleted-IsSafe i m (some s) v h =
      erase_handle-IsSafe (record m { stream = s }) i (types m.stream) v (h s refl)

  extension-IsSafe :
      (i : ℕ) (m : MefFile c)
      → IsStandard c
      → IsConsistent c m
      → suc i < length (types m.stream)
      → IsSafe m.actions (remove_extension c (pos (suc i)) m)
  unfolding remove_extension remove_hdu on_stream
  extension-IsSafe i m law v h =
      let (s', moved, same, at) = reached c m.stream (suc i) law (omega arith) in
      rw (pos_next (suc i)) (
        rw moved (
          deleted-IsSafe (suc i) (record m { stream = s' }) (delete s') (rw same v)
            (λ s e. law.delete_types s' s i at e)))

  -- No handle is erased for an index that has none.
  abbrev NoHandle : ℤ → List (Option Hdu) → Type 0
  NoHandle index hs =
      (m : MefFile c) → m.hdus ≡ hs → erase_handle c index m ≡ (fail undefined_behaviour, m)

  missing_deleted-IsSafe :
      (index : ℤ) (m : MefFile c) (s : Stream) (o : Option Stream)
      → IsConsistent c m
      → types s ≡ types m.stream
      → NoHandle index m.hdus
      → IsSafe m.actions
          ((on_stream c (called c o) >> erase_handle c index) (record m { stream = s }))
  unfolding on_stream
  missing_deleted-IsSafe index m s none v same gone = inl (rw same v, refl)
  missing_deleted-IsSafe index m s (some s') v same gone =
      rw (gone (record m { stream = s' }) refl) (inr refl)

  -- The end of `remove_extension`, after the move.
  abbrev after_goto : ℤ → Outcome (Unit {0}) × Stream → MefFile c → Outcome (Unit {0}) × MefFile c
  after_goto index r = on_stream c (λ s. and_then (λ _. call c delete) r) >> erase_handle c index

  missing_reached-IsSafe :
      (index : ℤ) (m : MefFile c) (r : Outcome (Unit {0}) × Stream)
      → IsConsistent c m
      → types r.1 ≡ types m.stream
      → NoHandle index m.hdus
      → IsSafe m.actions (after_goto index r m)
  unfolding on_stream
  missing_reached-IsSafe index m (fail e, s) v same gone = inl (rw same v, refl)
  missing_reached-IsSafe index m (ok done, s) v same gone =
      missing_deleted-IsSafe index m s (delete s) v same gone

  missing-IsSafe :
      (index : ℤ) (m : MefFile c)
      → IsStandard c
      → IsConsistent c m
      → NoHandle index m.hdus
      → IsSafe m.actions (remove_extension c index m)
  unfolding remove_extension remove_hdu on_stream
  missing-IsSafe index m law v gone =
      missing_reached-IsSafe index m (goto_index c (index +ℤ pos 1) m.stream) v
        (goto_index-types c (index +ℤ pos 1) law m.stream) gone

  erase_handle-negsuc : (i : ℕ) (hs : List (Option Hdu)) → NoHandle (negsuc i) hs
  unfolding erase_handle
  erase_handle-negsuc i hs m e = refl

  erase_handle-pos : (i : ℕ) (hs : List (Option Hdu)) → length hs ≤ i → NoHandle (pos i) hs
  unfolding erase_handle
  erase_handle-pos i hs h m e = rw (get_elem?-none m.hdus i (rw e h), erase_handle) refl

  remove_extension-IsSafe :
      (index : ℤ) (m : MefFile c)
      → IsStandard c
      → IsConsistent c m
      → index ≢ pos 0
      → IsSafe m.actions (remove_extension c index m)
  remove_extension-IsSafe (negsuc i) m law v other =
      missing-IsSafe (negsuc i) m law v (erase_handle-negsuc i m.hdus)
  remove_extension-IsSafe (pos zero) m law v other = absurd (other refl)
  remove_extension-IsSafe (pos (suc i)) m law v other =
      elim (Bool-cases (ltb (suc i) (length m.hdus))) [
        | inl e ↦
            extension-IsSafe i m law v
              (rw (← Placed-length 0 m.hdus (types m.stream) v) (ltb→lt (suc i) (length m.hdus) e))
        | inr e ↦
            missing-IsSafe (pos (suc i)) m law v
              (erase_handle-pos (suc i) m.hdus (le_of_ltb (suc i) (length m.hdus) e))
      ]

  module _ (law : IsStandard c) (actions : List (Action c))
      (tame : AllTame c (λ a. a.accessed) actions) where
    assign_primary-IsKeepingFor : (copied : Data) → IsKeepingFor c actions (assign_primary c copied)
    unfolding assign_primary
    assign_primary-IsKeepingFor copied =
        bind-IsKeepingFor c actions (access c image_target (pos 1)) _
          (access-IsKeepingFor c image_target (pos 1) actions law tame)
          (λ other.
            bind-IsKeepingFor c actions (access c image_target (pos 0)) _
              (access-IsKeepingFor c image_target (pos 0) actions law tame)
              (λ first.
                weaken-IsKeepingFor c actions (touch_handle c other >> write_handle c first copied)
                  (bind-IsKeeping c (touch_handle c other) (λ _. write_handle c first copied)
                    (touch_handle-IsKeeping c other law)
                    (λ _. write_handle-IsKeeping c first copied law))))

    assigned-IsSafe :
        (r : Outcome (Unit {0})) (m : MefFile c)
        → IsConsistent c m
        → m.actions ≡ actions
        → IsSafe actions (and_then (λ _. remove_extension c (pos 1)) (r, m))
    assigned-IsSafe (fail e) m v same = inl (v, same)
    assigned-IsSafe (ok done) m v same =
        subst (λ as'. IsSafe as' (remove_extension c (pos 1) m)) same
          (remove_extension-IsSafe (pos 1) m law v (λ e. cc))

    -- `remove`, for each index, keeps the handles of a file at their places, or reads a null pointer.
    pub remove-IsSafe :
        (copied : Data) (index : ℤ) (m : MefFile c)
        → IsConsistent c m
        → m.actions ≡ actions
        → IsSafe actions (remove c copied index m)
    unfolding remove
    remove-IsSafe copied index m v same = elim (Bool-cases (index ==ℤ pos 0)) [
      | inl e ↦ rw e (
          let kept = assign_primary-IsKeepingFor copied m same v in
          assigned-IsSafe (assign_primary c copied m).0 (assign_primary c copied m).1 kept.placed
            (kept.same_actions ∙ same))
      | inr e ↦ rw e (
          subst (λ as'. IsSafe as' (remove_extension c index m)) same
            (remove_extension-IsSafe index m law v (λ z. not_zero index z e)))
    ]
