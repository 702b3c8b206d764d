-- ===== src/HduIterator/Selection.antt =====
-- The loop visits the HDUs that match, each once and in order.
use ele_fits.Prelude.{
  ℕ, zero, suc, ◌+◌, ◌<◌, ◌≡◌, refl, sym, ap, ◌∙◌, Bool, true, false, Option, none, some, List, [],
  ◌∷◌, ◌++◌, length, length-append, get_elem?, set, if◌then◌else◌, arith, Outcome, ok, fail,
  undefined_behaviour,
}
use ele_fits.Prelude.Int.{ℤ, pos, ◌+ℤ◌, ◌-ℤ◌, ◌==ℤ◌, leb_ℤ, int_laws}
use ele_fits.HduFilter.{HduFilter}
use ele_fits.Hdu.{Hdu, Contents, matches}
use ele_fits.HduIterator.{
  HduIterator, handle_at, with_handle, and_then, next_hdu, make_iterator, visit_hdus,
  visit_selector,
}

module _ (goto_index : ℤ → Outcome (Unit {0})) (contents : ℤ → Contents) (filter : HduFilter) where
  -- `matches` on each handle: the answers, and the handles after the calls.
  abbrev pub Answer : List Hdu → List Bool → List Hdu → Type 0
  Answer [] [] [] = Unit
  Answer (h ∷ hdus) (answer ∷ answers) (h' ∷ after) =
      (matches goto_index contents filter h ≡ ok (answer, h')) × Answer hdus answers after
  Answer _ _ _ = ⊥

-- The indices of the answers that are true, from index `i` on.
abbrev pub selected : ℕ → List Bool → List ℤ
selected i [] = []
selected i (true ∷ answers) = pos i ∷ selected (suc i) answers
selected i (false ∷ answers) = selected (suc i) answers

module _ {A : Type 0} where
  get_elem?-append :
      (xs : List A) (y : A) (ys : List A) → get_elem? (xs ++ (y ∷ ys)) (length xs) ≡ some y
  get_elem?-append [] y ys = refl
  get_elem?-append (x ∷ xs) y ys = get_elem?-append xs y ys

  set-append :
      (xs : List A) (y z : A) (ys : List A)
      → set (xs ++ (y ∷ ys)) (length xs) z ≡ (xs ++ (z ∷ [])) ++ ys
  set-append [] y z ys = refl
  set-append (x ∷ xs) y z ys = ap (λ rest. x ∷ rest) (set-append xs y z ys)

  length-snoc : (xs : List A) (y : A) → length (xs ++ (y ∷ [])) ≡ suc (length xs)
  length-snoc [] y = refl
  length-snoc (x ∷ xs) y = ap suc (length-snoc xs y)

module _ (goto_index : ℤ → Outcome (Unit {0})) (contents : ℤ → Contents) (filter : HduFilter) where
  -- The state before the move to index `length before`.
  abbrev at : List Hdu → HduIterator
  at before = record { index = pos (length before) -ℤ pos 1; filter = filter }

  at_index : (n : ℕ) → pos n -ℤ pos 1 +ℤ pos 1 ≡ pos n
  at_index n = omega int_laws

  no_more :
      (fuel : ℕ) (before : List Hdu)
      → next_hdu goto_index contents (suc fuel) (before ++ []) (at before)
        ≡ ok (some (before ++ [], record { index = pos (length (before ++ [])); filter = filter }))
  unfolding next_hdu
  no_more fuel before =
      rw (at_index (length before), all_tried (length before) (length (before ++ [])) (same before))
    where
      same : (xs : List Hdu) → length (xs ++ []) ≡ length xs
      same xs = length-append xs [] ∙ none_added (length xs)
        where
          none_added : (n : ℕ) → n + 0 ≡ n
          none_added n = omega arith

      all_tried : (n m : ℕ) → m ≡ n → leb_ℤ (pos m) (pos n) ≡ true
      all_tried n m e = ground arith

  here :
      (before : List Hdu) (h : Hdu) (rest : List Hdu)
      → handle_at (before ++ (h ∷ rest)) (pos (length before)) ≡ ok h
  unfolding handle_at
  here before h rest =
      ap (λ o. elim o [ none ↦ fail undefined_behaviour | some h ↦ ok h ])
        (get_elem?-append before h rest)

  changed :
      (before : List Hdu) (h h' : Hdu) (rest : List Hdu)
      → with_handle (before ++ (h ∷ rest)) (pos (length before)) h' ≡ (before ++ (h' ∷ [])) ++ rest
  unfolding with_handle
  changed before h h' rest = set-append before h h' rest

  one_more :
      (fuel : ℕ) (before : List Hdu) (h h' : Hdu) (rest : List Hdu) (answer : Bool)
      → matches goto_index contents filter h ≡ ok (answer, h')
      → next_hdu goto_index contents (suc fuel) (before ++ (h ∷ rest)) (at before) ≡ (
          if answer
          then ok (
              some (
                (before ++ (h' ∷ [])) ++ rest,
                record { index = pos (length before); filter = filter },
              ))
          else next_hdu goto_index contents fuel
              ((before ++ (h' ∷ [])) ++ rest)
              (record { index = pos (length before); filter = filter }))
  unfolding next_hdu
  one_more fuel before h h' rest answer e =
      rw (at_index (length before), some_left, here before h rest, e, changed before h h' rest)
    where
      some_left : leb_ℤ (pos (length (before ++ (h ∷ rest)))) (pos (length before)) ≡ false
      some_left = ground (arith, length-append before (h ∷ rest))

  -- The two statements of a round, from the move before it.
  visits_from : ℕ → ℕ → ℕ → List Hdu → HduIterator → Outcome (Option (List Hdu × List ℤ))
  visits_from move fuel limit hdus it =
      and_then (next_hdu goto_index contents move hdus it)
        (λ (hdus', it'). visit_hdus goto_index contents fuel limit hdus' it')

  and_then_assoc :
      {A B C : Type 0} (m : Outcome (Option A)) (k : A → Outcome (Option B))
      (later : B → Outcome (Option C))
      → and_then m (λ a. and_then (k a) later) ≡ and_then (and_then m k) later
  and_then_assoc (fail e) k later = refl
  and_then_assoc (ok none) k later = refl
  and_then_assoc (ok (some a)) k later = refl

  visit_round :
      (fuel limit : ℕ) (hdus : List Hdu) (it : HduIterator)
      → (it.index ==ℤ pos (length hdus)) ≡ false
      → visit_hdus goto_index contents (suc fuel) limit hdus it
        ≡ and_then
            (visits_from limit fuel limit hdus it)
            (λ (after, indices). ok (some (after, it.index ∷ indices)))
  unfolding visit_hdus visits_from
  visit_round fuel limit hdus it e =
      rw e (and_then_assoc (next_hdu goto_index contents limit hdus it) _ _)

  -- The move after the one to `x`.
  next_at :
      (before : List Hdu) (x' : Hdu)
      → at (before ++ (x' ∷ [])) ≡ record { index = pos (length before); filter = filter }
  next_at before x' =
      ap (λ (i : ℤ). record { index = i; filter = filter })
        (ap (λ (n : ℕ). pos n -ℤ pos 1) (length-snoc before x') ∙ back (length before))
    where
      back : (n : ℕ) → pos (suc n) -ℤ pos 1 ≡ pos n
      back n = omega int_laws

  abbrev visited : List Hdu → List ℤ → Outcome (Option (List Hdu × List ℤ))
  visited hdus indices = ok (some (hdus, indices))

  regrouped :
      (before after : List Hdu) (x' : Hdu) (answers : List Bool)
      → visited ((before ++ (x' ∷ [])) ++ after) (selected (length (before ++ (x' ∷ []))) answers)
        ≡ visited (before ++ (x' ∷ after)) (selected (suc (length before)) answers)
  regrouped before after x' answers =
      cc (joined before, ap (λ (n : ℕ). selected n answers) (length-snoc before x'))
    where
      joined : (before : List Hdu) → (before ++ (x' ∷ [])) ++ after ≡ before ++ (x' ∷ after)
      joined [] = refl
      joined (y ∷ ys) = ap (λ rest. y ∷ rest) (joined ys)

  none_left :
      (move fuel limit : ℕ) (before : List Hdu)
      → visits_from (suc move) (suc fuel) limit (before ++ []) (at before)
        ≡ visited (before ++ []) []
  unfolding visits_from visit_hdus
  none_left move fuel limit before = rw (no_more move before, same_index (length (before ++ [])))
    where
      same_index : (n : ℕ) → (pos n ==ℤ pos n) ≡ true
      same_index n = ground arith

  module _ (move fuel limit : ℕ) (before hdus : List Hdu) (x x' : Hdu) (answers : List Bool)
      (after : List Hdu) where
    found :
        matches goto_index contents filter x ≡ ok (true, x')
        → visits_from limit fuel limit ((before ++ (x' ∷ [])) ++ hdus) (at (before ++ (x' ∷ [])))
          ≡ visited
              ((before ++ (x' ∷ [])) ++ after)
              (selected (length (before ++ (x' ∷ []))) answers)
        → visits_from (suc move) (suc fuel) limit (before ++ (x ∷ hdus)) (at before)
          ≡ visited
              (before ++ (x' ∷ after))
              (pos (length before) ∷ selected (suc (length before)) answers)
    unfolding visits_from
    found e rest = rw (one_more move before x x' hdus true e) (
        visit_round fuel limit ((before ++ (x' ∷ [])) ++ hdus)
          (record { index = pos (length before); filter = filter }) not_end
        ∙ ap
            (λ o. and_then o (λ (after, indices). ok (some (after, pos (length before) ∷ indices))))
            (ap (λ it. visits_from limit fuel limit ((before ++ (x' ∷ [])) ++ hdus) it)
                (sym (next_at before x'))
              ∙ rest
              ∙ regrouped before after x' answers))
      where
        not_end : (pos (length before) ==ℤ pos (length ((before ++ (x' ∷ [])) ++ hdus))) ≡ false
        not_end = ground (arith, length-append (before ++ (x' ∷ [])) hdus, length-snoc before x')

    skipped :
        matches goto_index contents filter x ≡ ok (false, x')
        → visits_from move
            (suc fuel)
            limit
            ((before ++ (x' ∷ [])) ++ hdus)
            (at (before ++ (x' ∷ [])))
          ≡ visited
              ((before ++ (x' ∷ [])) ++ after)
              (selected (length (before ++ (x' ∷ []))) answers)
        → visits_from (suc move) (suc fuel) limit (before ++ (x ∷ hdus)) (at before)
          ≡ visited (before ++ (x' ∷ after)) (selected (suc (length before)) answers)
    unfolding visits_from
    skipped e rest = rw (one_more move before x x' hdus false e) (
        ap (λ it. visits_from move (suc fuel) limit ((before ++ (x' ∷ [])) ++ hdus) it)
          (sym (next_at before x'))
        ∙ rest
        ∙ regrouped before after x' answers)

  visits_from-selected :
      (move fuel limit : ℕ) (before hdus : List Hdu) (answers : List Bool) (after : List Hdu)
      → Answer goto_index contents filter hdus answers after
      → length hdus < move
      → length hdus < fuel
      → length hdus < limit
      → visits_from move fuel limit (before ++ hdus) (at before)
        ≡ ok (some (before ++ after, selected (length before) answers))
  visits_from-selected zero fuel limit before hdus answers after h m f l = absurd (omega arith)
  visits_from-selected move zero limit before hdus answers after h m f l = absurd (omega arith)
  visits_from-selected (suc move) (suc fuel) limit before [] [] (x' ∷ after) h m f l = elim h [ ]
  visits_from-selected (suc move) (suc fuel) limit before [] (_ ∷ answers) after h m f l =
      elim h [ ]
  visits_from-selected (suc move) (suc fuel) limit before (x ∷ hdus) [] after h m f l = elim h [ ]
  visits_from-selected (suc move) (suc fuel) limit before (x ∷ hdus) (false ∷ answers) [] h m f l =
      elim h [ ]
  visits_from-selected (suc move) (suc fuel) limit before (x ∷ hdus) (true ∷ answers) [] h m f l =
      elim h [ ]
  visits_from-selected (suc move) (suc fuel) limit before [] [] [] h m f l =
      none_left move fuel limit before
  visits_from-selected (suc move) (suc fuel) limit before (x ∷ hdus) (true ∷ answers) (x' ∷ after) h
        m f l =
      found move fuel limit before hdus x x' answers after h.0 (
        visits_from-selected limit fuel limit (before ++ (x' ∷ [])) hdus answers after h.1
          (omega arith) (omega arith) (omega arith))
  visits_from-selected (suc move) (suc fuel) limit before (x ∷ hdus) (false ∷ answers) (x' ∷ after)
        h m f l =
      skipped move fuel limit before hdus x x' answers after h.0 (
        visits_from-selected move (suc fuel) limit (before ++ (x' ∷ [])) hdus answers after h.1
          (omega arith) (omega arith) (omega arith))

  -- For handles on each of which `matches` returns, and fuel for one round more than the HDUs, the
  -- loop over a selector ends. It visits the HDUs for which the answer is true, by increasing
  -- index, each once; and `matches` is called once on each HDU of the file.
  pub visit_selector-selected :
      (fuel limit : ℕ) (hdus : List Hdu) (answers : List Bool) (after : List Hdu)
      → Answer goto_index contents filter hdus answers after
      → length hdus < fuel
      → length hdus < limit
      → visit_selector goto_index contents fuel limit hdus filter
        ≡ ok (some (after, selected 0 answers))
  unfolding visit_selector make_iterator visits_from
  visit_selector-selected fuel limit hdus answers after h f l =
      visits_from-selected limit fuel limit [] hdus answers after h l f l
