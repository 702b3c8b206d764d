-- ===== src/Screener/Visit.antt =====
-- `for (const auto& p : region)` visits each position of the region once, by increasing rank.
use ele_fits.Prelude.{
  ℕ, zero, suc, ◌+◌, ◌<◌, ◌≡◌, refl, sym, ap, ◌∙◌, subst, ◌≢◌, ◌⊎◌, inl, inr, Option, some, List,
  [], ◌∷◌, length, get_elem?, arith, Outcome, ok, Bool-cases,
}
use ele_fits.Prelude.Int.{pos, +ℤ_parts}
use ele_fits.Position.{Position, position_eq}
use ele_fits.Position.Laws.{position_eq_iff, position-cases}
use ele_fits.Region.{Region}
use ele_fits.Screener.{
  Screener, start, begin, end, bump, iterator_next, advance, visit, visit_region,
}
use ele_fits.Screener.Rank.{InBox, rank, bumped}
use ele_fits.Screener.Order.{rank-front, rank-back, rank-lt-total, rank_inj}
use ele_fits.Screener.Moves.{
  IsScreening, IsProper, screened, region_total, start-IsScreening, advance-IsScreening,
}

-- Positions of the box, with the ranks from `k` on.
abbrev pub Ranked : Position → Position → ℕ → List Position → Type 0
Ranked f b k [] = Unit
Ranked f b k (p ∷ ps) = InBox f b p × (rank f b p ≡ k) × Ranked f b (suc k) ps

pub Ranked-get_elem? :
    (f b : Position) (k : ℕ) (ps : List Position) (i : ℕ) (q : Position)
    → Ranked f b k ps
    → get_elem? ps i ≡ some q
    → InBox f b q × (rank f b q ≡ k + i)
Ranked-get_elem? f b k [] i q r e = cc
Ranked-get_elem? f b k (p ∷ ps) zero q r e =
    subst (λ p. InBox f b p × (rank f b p ≡ k + 0)) (some_inj e) (r.0, omega (arith, r.1))
  where
    some_inj : {x y : Position} → some x ≡ some y → x ≡ y
    some_inj h = cc
Ranked-get_elem? f b k (p ∷ ps) (suc i) q r e =
    let (inside, ranked) = Ranked-get_elem? f b (suc k) ps i q r.2 e in (inside, omega arith)

-- A position past the back in the first axis is in no box that ends there.
not-InBox-bumped : (f b : Position) → b ≢ [] → InBox f b (bumped b) → ⊥
not-InBox-bumped f [] ne h = ne refl
not-InBox-bumped [] (c ∷ cs) ne h = h
not-InBox-bumped (f ∷ fs) (c ∷ cs) ne h = omega (arith, +ℤ_parts c (pos 1))

get_elem?-Ranked :
    (f b : Position) (k : ℕ) (ps : List Position) (q : Position)
    → Ranked f b k ps
    → InBox f b q
    → (i : ℕ) → rank f b q ≡ k + i
    → i < length ps
    → get_elem? ps i ≡ some q
get_elem?-Ranked f b k [] q r h i e lt = absurd (omega arith)
get_elem?-Ranked f b k (p ∷ ps) q r h zero e lt = ap some (rank_inj f b p q r.0 h (omega arith))
get_elem?-Ranked f b k (p ∷ ps) q r h (suc i) e lt =
    get_elem?-Ranked f b (suc k) ps q r.2 h i (omega arith) (omega arith)

visit_past :
    (fuel : ℕ) (it : Screener) (past : Position)
    → 0 < fuel
    → it.current ≡ past
    → visit fuel it past ≡ ok (some [])
unfolding visit
visit_past zero it past h e = elim h [ ]
visit_past (suc fuel) it past h e = rw ((position_eq_iff it.current past).1 e)

visit_round :
    (fuel : ℕ) (it it' : Screener) (past : Position) {ps : List Position}
    → it.current ≢ past
    → iterator_next it ≡ ok it'
    → visit fuel it' past ≡ ok (some ps)
    → visit (suc fuel) it past ≡ ok (some (it.current ∷ ps))
unfolding visit
visit_round fuel it it' past ne e rest = elim (Bool-cases (position_eq it.current past)) [
  | inl same ↦ absurd (ne ((position_eq_iff it.current past).0 same))
  | inr other ↦ rw (other, e, rest)
]

iterator_next_inside : (s : Screener) → s.current ≢ s.region.back → iterator_next s ≡ advance s
unfolding iterator_next
iterator_next_inside s ne = elim (Bool-cases (position_eq s.current s.region.back)) [
  | inl same ↦ absurd (ne ((position_eq_iff s.current s.region.back).0 same))
  | inr other ↦ rw other
]

bump-bumped : (p : Position) → p ≢ [] → bump p ≡ ok (bumped p)
unfolding bump
bump-bumped [] ne = absurd (ne refl)
bump-bumped (c ∷ cs) ne = refl

iterator_next_back :
    (s : Screener)
    → s.current ≡ s.region.back
    → s.current ≢ []
    → iterator_next s ≡ ok (record s { current = bumped s.current })
unfolding iterator_next
iterator_next_back s e ne =
    rw ((position_eq_iff s.current s.region.back).1 e, bump-bumped s.current ne)

module _ (r : Region) (nonempty : r.back ≢ []) where
  abbrev rank_in : Position → ℕ
  rank_in p = rank r.front r.back p

  -- What the loop returns from the position of rank `k`.
  abbrev Visits : ℕ → Outcome (Option (List Position)) → Type 0
  Visits k outcome =
      (ps : List Position) × (outcome ≡ ok (some ps))
      × (k + length ps ≡ region_total r)
      × Ranked r.front r.back k ps

  module _ (s : Screener) (v : IsScreening s) (same : s.region ≡ r) where
    inside_region : InBox r.front r.back s.current
    inside_region = subst (λ (x : Region). InBox x.front x.back s.current) same v.inside

    not_past : s.current ≢ bumped r.back
    not_past e =
        not-InBox-bumped r.front r.back nonempty (subst (InBox r.front r.back) e inside_region)

    last_visit :
        (fuel : ℕ)
        → s.current ≡ r.back
        → region_total r < suc fuel + rank_in s.current
        → Visits (rank_in s.current) (visit (suc fuel) s (bumped r.back))
    last_visit fuel at_back enough = (
      s.current ∷ [],
      visit_round fuel s (record s { current = bumped s.current }) (bumped r.back) not_past
          (iterator_next_back s (at_back ∙ sym (ap (λ (x : Region). x.back) same))
            (λ e. nonempty (sym at_back ∙ e)))
          (visit_past fuel (record s { current = bumped s.current }) (bumped r.back)
            (omega (arith, rank-lt-total r.front r.back s.current inside_region))
            (ap bumped at_back)),
      size,
      (inside_region, refl, tt),
    )
      where
        size : rank_in s.current + 1 ≡ region_total r
        size = omega (
          arith,
          subst (λ p. suc (rank_in p) ≡ region_total r) (sym at_back)
              (rank-back r.front r.back (subst (InBox r.front r.back) at_back inside_region)),
        )

  visit_from :
      (fuel : ℕ) (s : Screener)
      → IsScreening s
      → s.region ≡ r
      → (s.current ≡ r.back) ⊎ (s.current ≢ r.back)
      → region_total r < fuel + rank_in s.current
      → Visits (rank_in s.current) (visit fuel s (bumped r.back))
  visit_from zero s v same at_back enough =
      absurd (omega (arith, rank-lt-total r.front r.back s.current (inside_region s v same)))
  visit_from (suc fuel) s v same (inl at_back) enough = last_visit s v same fuel at_back enough
  visit_from (suc fuel) s v same (inr ne) enough =
      let (s', runs, v', region', fronts', ranked) =
        advance-IsScreening s v (λ e. ne (e ∙ ap (λ (x : Region). x.back) same)) in
      let up =
        (subst
          (λ (x : Region). rank x.front x.back s'.current ≡ suc (rank x.front x.back s.current))
          same
          (subst (λ (x : Region). rank x.front x.back s'.current ≡ suc (screened s)) region'
            ranked)) in
      let (ps, visited, counted, all_ranked) =
        visit_from fuel s' v' (region' ∙ same) (position-cases s'.current r.back) (omega arith) in
      (
        s.current ∷ ps,
        visit_round fuel s s' (bumped r.back) (not_past s v same)
            (iterator_next_inside s (λ e. ne (e ∙ ap (λ (x : Region). x.back) same)) ∙ runs)
            visited,
        omega arith,
        (inside_region s v same, refl, subst (λ k. Ranked r.front r.back k ps) up all_ranked),
      )

-- On a region of at least one axis whose bounds are in order, with fuel for one round more than
-- its positions, the loop ends. It visits as many positions as the region has: the positions in
-- the region of ranks 0, 1, ..., first axis fastest. Each position of the region is visited in the
-- round that its rank tells.
pub visit_region-Ranked :
    (fuel : ℕ) (r : Region)
    → IsProper r
    → r.back ≢ []
    → region_total r < fuel
    → (ps : List Position) × (visit_region fuel r ≡ ok (some ps))
      × (length ps ≡ region_total r)
      × Ranked r.front r.back 0 ps
      × ((q : Position) → InBox r.front r.back q → get_elem? ps (rank r.front r.back q) ≡ some q)
unfolding visit_region begin end start
visit_region-Ranked fuel r proper ne enough =
    let first = start-IsScreening r [] proper tt in
    let at_front = rank-front r.front r.back in
    let (ps, visited, counted, all_ranked) =
      visit_from r ne fuel (start r []) first refl (position-cases r.front r.back)
        (omega (arith, at_front)) in
    (
      ps,
      rw (bump-bumped r.back ne) visited,
      omega (arith, at_front),
      subst (λ k. Ranked r.front r.back k ps) at_front all_ranked,
      λ q h.
          get_elem?-Ranked r.front r.back (rank r.front r.back r.front) ps q all_ranked h
            (rank r.front r.back q) (omega (arith, at_front))
            (omega (arith, at_front, rank-lt-total r.front r.back q h)),
    )
