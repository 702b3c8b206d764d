-- ===== src/Screener/Moves.antt =====
-- `RegionScreener::next` counts through the positions of its region, modulo their number, and its
-- followers make the same moves.
use ele_fits.Prelude.{
  ℕ, zero, suc, ◌+◌, ◌%◌, ◌<◌, ◌≡◌, refl, sym, ap, ◌∙◌, ◌≢◌, inl, inr, List, [], ◌∷◌, length, arith,
  Outcome, ok, ◌>>=◌, Bool-cases,
}
use native.Mathlib.Nat.{mod_self, mod-eq_of_lt, mod-add-mod}
use ele_fits.Prelude.{subst}
use ele_fits.Position.{Position, position_eq}
use ele_fits.Position.Laws.{position_eq_iff}
use ele_fits.Region.{Region}
use ele_fits.Screener.{Screener, start, reset, bump_all, follow_all, advance, next}
use ele_fits.Screener.Rank.{
  InBox, rank, total, Displaced, bumped, bumped-Displaced, Advance, Advance-inside,
}
use ele_fits.Screener.Order.{InBox-front, rank-front, rank-back, rank-lt-total}

abbrev pub AllDisplaced : Position → Position → List Position → List Position → Type 0
AllDisplaced f p [] [] = Unit
AllDisplaced f p (r ∷ fronts) (o ∷ followers) =
    Displaced f p r o × AllDisplaced f p fronts followers
AllDisplaced f p _ _ = ⊥

-- The current position lies in the region, and each follower is displaced as it is.
pub record IsScreening (s : Screener) : Type 0 where
  pub inside : InBox s.region.front s.region.back s.current
  pub led : AllDisplaced s.region.front s.current s.fronts s.followers

abbrev pub screened : Screener → ℕ
screened s = rank s.region.front s.region.back s.current

abbrev pub region_total : Region → ℕ
region_total r = total r.front r.back

-- The bounds are in order, so that the region has a pixel.
abbrev pub IsProper : Region → Type 0
IsProper r = InBox r.front r.back r.back

pub Displaced-self : (f r : Position) → length r ≡ length f → Displaced f f r r
Displaced-self [] [] h = tt
Displaced-self [] (x ∷ r) h = absurd (omega arith)
Displaced-self (y ∷ f) [] h = absurd (omega arith)
Displaced-self (y ∷ f) (x ∷ r) h = (omega arith, Displaced-self f r (omega arith))

-- All positions have `n` coordinates.
abbrev pub AllOfDimension : ℕ → List Position → Type 0
AllOfDimension n [] = Unit
AllOfDimension n (p ∷ rest) = (length p ≡ n) × AllOfDimension n rest

AllDisplaced-self :
    (f : Position) (ps : List Position) → AllOfDimension (length f) ps → AllDisplaced f f ps ps
AllDisplaced-self f [] h = tt
AllDisplaced-self f (p ∷ ps) h = (Displaced-self f p h.0, AllDisplaced-self f ps h.1)

pub start-IsScreening :
    (r : Region) (followers : List Position)
    → IsProper r
    → AllOfDimension (length r.front) followers
    → IsScreening (start r followers)
unfolding start
start-IsScreening r followers proper sizes = record {
  inside = InBox-front r.front r.back r.back proper;
  led = AllDisplaced-self r.front followers sizes;
}

-- The fronts of displaced followers have the dimension of the region.
AllDisplaced-fronts :
    (f p : Position) (fronts followers : List Position)
    → AllDisplaced f p fronts followers
    → AllDisplaced f f fronts fronts
AllDisplaced-fronts f p [] [] d = tt
AllDisplaced-fronts f p [] (o ∷ os) d = absurd d
AllDisplaced-fronts f p (r ∷ rs) [] d = absurd d
AllDisplaced-fronts f p (r ∷ rs) (o ∷ os) d =
    (Displaced-front f p r o d.0, AllDisplaced-fronts f p rs os d.1)
  where
    Displaced-front : (f p r o : Position) → Displaced f p r o → Displaced f f r r
    Displaced-front [] [] [] [] d = tt
    Displaced-front [] [] [] (o ∷ os) d = absurd d
    Displaced-front [] [] (r ∷ rs) o d = absurd d
    Displaced-front [] (c ∷ p) r o d = absurd d
    Displaced-front (f ∷ fs) [] r o d = absurd d
    Displaced-front (f ∷ fs) (c ∷ p) [] o d = absurd d
    Displaced-front (f ∷ fs) (c ∷ p) (r ∷ rs) [] d = absurd d
    Displaced-front (f ∷ fs) (c ∷ p) (r ∷ rs) (o ∷ os) d =
        (omega arith, Displaced-front fs p rs os d.1)

abbrev all_bumped : List Position → List Position
all_bumped [] = []
all_bumped (p ∷ ps) = bumped p ∷ all_bumped ps

followers_lead :
    (f b p : Position) (a : Advance f b p) (fronts followers : List Position)
    → AllDisplaced f p fronts followers
    → (bump_all followers ≡ ok (all_bumped followers))
      × ((moved : List Position) × (follow_all a.axes fronts (all_bumped followers) ≡ ok moved)
          × AllDisplaced f a.moved fronts moved)
unfolding bump_all follow_all
followers_lead f b p a [] [] d = (refl, ([], refl, tt))
followers_lead f b p a [] (o ∷ os) d = absurd d
followers_lead f b p a (r ∷ rs) [] d = absurd d
followers_lead f b p a (r ∷ rs) (o ∷ os) d =
    let (step, near) = bumped-Displaced f p r o a.has_axis d.0 in
    let (o', follows, away) = a.leads r (bumped o) near in
    let (steps, (os', all_follow, all_away)) = followers_lead f b p a rs os d.1 in
    (rw (step, steps), (o' ∷ os', rw (follows, all_follow), (away, all_away)))

-- The move short of the back.
pub advance-IsScreening :
    (s : Screener)
    → IsScreening s
    → s.current ≢ s.region.back
    → (s' : Screener) × (advance s ≡ ok s')
      × IsScreening s'
      × (s'.region ≡ s.region)
      × (s'.fronts ≡ s.fronts)
      × (screened s' ≡ suc (screened s))
unfolding advance
advance-IsScreening s v ne =
    let a = Advance-inside s.region.front s.region.back s.current v.inside ne in
    let (steps, (moved, follows, led)) =
      followers_lead s.region.front s.region.back s.current a s.fronts s.followers v.led in
    (
      record s { current = a.moved; followers = moved },
      rw (a.bump_is, steps, a.carry_is, follows),
      record { inside = a.inside; led = led },
      refl,
      refl,
      a.ranked,
    )

-- At the back `next` starts again; elsewhere it moves on.
abbrev pub Follows : Screener → Screener → Type 0
Follows s s' =
    IsScreening s'
    × (s'.region ≡ s.region)
    × (s'.fronts ≡ s.fronts)
    × (screened s' ≡ (screened s + 1) % region_total s.region)

reset-Follows : (s : Screener) → IsScreening s → s.current ≡ s.region.back → Follows s (reset s)
unfolding reset
reset-Follows s v at_back = (
  record {
    inside = InBox-front s.region.front s.region.back s.current v.inside;
    led = AllDisplaced-fronts s.region.front s.current s.fronts s.followers v.led;
  },
  refl,
  refl,
  wrap (screened s) (region_total s.region)
      (subst (λ c. suc (rank s.region.front s.region.back c) ≡ region_total s.region) (sym at_back)
        (rank-back s.region.front s.region.back proper))
      (rank-front s.region.front s.region.back),
)
  where
    proper : InBox s.region.front s.region.back s.region.back
    proper = subst (InBox s.region.front s.region.back) at_back v.inside

    wrap : (k t : ℕ) {z : ℕ} → suc k ≡ t → z ≡ 0 → z ≡ (k + 1) % t
    wrap k t h e = e ∙ sym (mod_self t) ∙ ap (λ (m : ℕ). m % t) (omega arith)

-- On a screener whose current position lies in the region and whose followers are displaced as it
-- is, `next` is defined and keeps that so, with the region and the fronts. The rank of the
-- current position in the region, first axis fastest, goes up by one modulo the number of
-- positions.
pub next-Follows :
    (s : Screener) → IsScreening s → (s' : Screener) × (next s ≡ ok s') × Follows s s'
unfolding next
next-Follows s v = elim (Bool-cases (position_eq s.current s.region.back)) [
  | inl e ↦ (reset s, rw e, reset-Follows s v ((position_eq_iff s.current s.region.back).0 e))
  | inr e ↦
      let ne : s.current ≢ s.region.back =
        λ same. cc (e, (position_eq_iff s.current s.region.back).1 same) in
      let (s', runs, v', same_region, same_fronts, ranked) = advance-IsScreening s v ne in
      let room = rank-lt-total s'.region.front s'.region.back s'.current v'.inside in
      (
        s',
        rw e runs,
        (
          v',
          same_region,
          same_fronts,
          in_range ranked (subst (λ r. screened s' < region_total r) same_region room),
        ),
      )
]
  where
    in_range : {k z t : ℕ} → z ≡ suc k → z < t → z ≡ (k + 1) % t
    in_range {k} {z} {t} e h = sym (mod-eq_of_lt h) ∙ ap (λ (m : ℕ). m % t) (omega arith)

-- `k` calls of `next`.
pub next_times : ℕ → Screener → Outcome Screener
next_times zero s = ok s
next_times (suc k) s = do s' ← next s; next_times k s'

-- After `k` calls of `next` on a screener in its region, the rank is `k` more, modulo the number
-- of positions; the region, the fronts and the displacements are kept.
pub next_times-screened :
    (k : ℕ) (s : Screener)
    → IsScreening s
    → (s' : Screener) × (next_times k s ≡ ok s')
      × IsScreening s'
      × (s'.region ≡ s.region)
      × (s'.fronts ≡ s.fronts)
      × (screened s' ≡ (screened s + k) % region_total s.region)
unfolding next_times
next_times-screened zero s v = (
  s,
  refl,
  v,
  refl,
  refl,
  none_made (screened s) (rank-lt-total s.region.front s.region.back s.current v.inside),
)
  where
    none_made : (n : ℕ) {t : ℕ} → n < t → n ≡ (n + 0) % t
    none_made n {t} h = sym (mod-eq_of_lt h) ∙ ap (λ (m : ℕ). m % t) (omega arith)
next_times-screened (suc k) s v =
    let (s', runs, (v', same_region, same_fronts, ranked)) = next-Follows s v in
    let (s2, more, v2, region2, fronts2, ranked2) = next_times-screened k s' v' in
    (
      s2,
      rw runs more,
      v2,
      region2 ∙ same_region,
      fronts2 ∙ same_fronts,
      subst (λ r. screened s2 ≡ (screened s' + k) % region_total r) same_region ranked2
          ∙ ap (λ (m : ℕ). (m + k) % region_total s.region) ranked
          ∙ mod-add-mod (screened s + 1) (region_total s.region) k
          ∙ ap (λ (m : ℕ). m % region_total s.region) (regroup (screened s)),
    )
  where
    regroup : (n : ℕ) → n + 1 + k ≡ n + suc k
    regroup n = omega arith
