-- ===== src/Screener/Rank.antt =====
-- The rank of a position in a box, first axis fastest, and the move by one.
use ele_fits.Prelude.{
  ℕ, suc, ◌+◌, ◌-◌, ◌*◌, ◌<◌, ◌≡◌, refl, ap, ◌≢◌, inl, inr, Bool, true, false, List, [], ◌∷◌,
  length, replicate, arith, ok, Bool-cases,
}
use ele_fits.Prelude.Int.{
  ℤ, pos, pos_part, neg_part, ◌+ℤ◌, ◌≤ℤ◌, ltb_ℤ, +ℤ_parts, eq_of_parts, ltb_ℤ→lt, ltb_ℤ→le,
  le→ltb_ℤ,
}
use ele_fits.Position.{Position}
use ele_fits.Screener.{bump, carry, follow}

-- `c - f` where `f` is not above `c`.
abbrev pub dist : ℤ → ℤ → ℕ
dist f c = (pos_part c + neg_part f) - (pos_part f + neg_part c)

abbrev pub InBox : Position → Position → Position → Type 0
InBox [] [] [] = Unit
InBox (f ∷ fs) (b ∷ bs) (c ∷ cs) = ((f ≤ℤ c) × (c ≤ℤ b)) × InBox fs bs cs
InBox _ _ _ = ⊥

abbrev pub rank : Position → Position → Position → ℕ
rank (f ∷ fs) (b ∷ bs) (c ∷ cs) = dist f c + (dist f b + 1) * rank fs bs cs
rank _ _ _ = 0

-- The number of positions of the box.
abbrev pub total : Position → Position → ℕ
total (f ∷ fs) (b ∷ bs) = (dist f b + 1) * total fs bs
total _ _ = 1

carry_inside : (f b p : Position) → InBox f b p → carry f b p ≡ ok (replicate (length p) false, p)
unfolding carry
carry_inside [] [] [] h = refl
carry_inside [] [] (c ∷ cs) h = absurd h
carry_inside [] (b ∷ bs) p h = absurd h
carry_inside (f ∷ fs) [] p h = absurd h
carry_inside (f ∷ fs) (b ∷ bs) [] h = absurd h
carry_inside (f ∷ fs) (b ∷ bs) (c ∷ cs) h = rw (le→ltb_ℤ b c h.0.1, carry_inside fs bs cs h.1)

-- `o - r` is `c - f`.
abbrev pub SameMove : ℤ → ℤ → ℤ → ℤ → Type 0
SameMove f c r o =
    pos_part o + neg_part r + (pos_part f + neg_part c)
    ≡ neg_part o + pos_part r + (neg_part f + pos_part c)

-- The follower `o` stands from its front `r` as `c` does from `f`.
abbrev pub Displaced : Position → Position → Position → Position → Type 0
Displaced [] [] [] [] = Unit
Displaced (f ∷ fs) (c ∷ cs) (r ∷ rs) (o ∷ os) = SameMove f c r o × Displaced fs cs rs os
Displaced _ _ _ _ = ⊥

abbrev pub bumped : Position → Position
bumped [] = []
bumped (c ∷ cs) = (c +ℤ pos 1) ∷ cs

-- A follower that is displaced as `p` is displaced as `moved` after the moves of `axes`.
abbrev pub Leads : Position → Position → List Bool → Position → Type 0
Leads f p axes moved =
    (fr fo : Position)
    → Displaced f p fr fo
    → (fo' : Position) × (follow axes fr fo ≡ ok fo') × Displaced f moved fr fo'

follow_kept :
    (f p fr fo : Position) → Displaced f p fr fo → follow (replicate (length p) false) fr fo ≡ ok fo
unfolding follow
follow_kept [] [] [] [] d = refl
follow_kept [] [] [] (o ∷ os) d = absurd d
follow_kept [] [] (r ∷ rs) fo d = absurd d
follow_kept [] (c ∷ cs) fr fo d = absurd d
follow_kept (f ∷ fs) [] fr fo d = absurd d
follow_kept (f ∷ fs) (c ∷ cs) [] fo d = absurd d
follow_kept (f ∷ fs) (c ∷ cs) (r ∷ rs) [] d = absurd d
follow_kept (f ∷ fs) (c ∷ cs) (r ∷ rs) (o ∷ os) d = rw (follow_kept fs cs rs os d.1)

pub bumped-Displaced :
    (f p fr fo : Position)
    → p ≢ []
    → Displaced f p fr fo
    → (bump fo ≡ ok (bumped fo)) × Displaced f (bumped p) fr (bumped fo)
unfolding bump
bumped-Displaced f [] fr fo ne d = absurd (ne refl)
bumped-Displaced [] (c ∷ cs) fr fo ne d = absurd d
bumped-Displaced (f ∷ fs) (c ∷ cs) [] fo ne d = absurd d
bumped-Displaced (f ∷ fs) (c ∷ cs) (r ∷ rs) [] ne d = absurd d
bumped-Displaced (f ∷ fs) (c ∷ cs) (r ∷ rs) (o ∷ os) ne d =
    (refl, (omega (arith, +ℤ_parts c (pos 1), +ℤ_parts o (pos 1)), d.1))

-- One move from `p`: what the first increment and the loop over the axes give.
pub record Advance (f b p : Position) : Type 0 where
  pub axes : List Bool
  pub moved : Position
  pub has_axis : p ≢ []
  pub bump_is : bump p ≡ ok (bumped p)
  pub carry_is : carry f b (bumped p) ≡ ok (axes, moved)
  pub inside : InBox f b moved
  pub ranked : rank f b moved ≡ suc (rank f b p)
  pub leads : Leads f (bumped p) axes moved

wrapped-Leads :
    (f b c : ℤ) (fs bs cs : Position) (a : Advance fs bs cs)
    → Leads (f ∷ fs) ((c +ℤ pos 1) ∷ cs) (true ∷ a.axes) (f ∷ a.moved)
unfolding follow
wrapped-Leads f b c fs bs cs a [] fo d = absurd d
wrapped-Leads f b c fs bs cs a (r ∷ rs) [] d = absurd d
wrapped-Leads f b c fs bs cs a (r ∷ rs) (o ∷ os) d =
    let (step, near) = bumped-Displaced fs cs rs os a.has_axis d.1 in
    let (os', follows, away) = a.leads rs (bumped os) near in
    (r ∷ os', rw (step, follows), (omega arith, away))

Advance-wrapped :
    (f b c : ℤ) (fs bs cs : Position)
    → (f ≤ℤ c) × (c ≤ℤ b)
    → ltb_ℤ b (c +ℤ pos 1) ≡ true
    → Advance fs bs cs
    → Advance (f ∷ fs) (b ∷ bs) (c ∷ cs)
unfolding bump carry
Advance-wrapped f b c fs bs cs h e a = record {
  axes = true ∷ a.axes;
  moved = f ∷ a.moved;
  has_axis = λ nil. cc;
  bump_is = refl;
  carry_is = rw (e, a.bump_is, a.carry_is);
  inside = (omega arith, a.inside);
  ranked = omega (arith, +ℤ_parts c (pos 1), ap (λ (t : ℕ). (dist f b + 1) * t) a.ranked, top);
  leads = wrapped-Leads f b c fs bs cs a;
}
  where
    top : pos_part b + neg_part (c +ℤ pos 1) < pos_part (c +ℤ pos 1) + neg_part b
    top = ltb_ℤ→lt b (c +ℤ pos 1) e

kept-Leads :
    (f c : ℤ) (fs cs : Position)
    → Leads (f ∷ fs) (c ∷ cs) (false ∷ replicate (length cs) false) (c ∷ cs)
unfolding follow
kept-Leads f c fs cs [] fo d = absurd d
kept-Leads f c fs cs (r ∷ rs) [] d = absurd d
kept-Leads f c fs cs (r ∷ rs) (o ∷ os) d = (o ∷ os, rw (follow_kept fs cs rs os d.1), d)

Advance-kept :
    (f b c : ℤ) (fs bs cs : Position)
    → (f ≤ℤ c) × (c ≤ℤ b)
    → ltb_ℤ b (c +ℤ pos 1) ≡ false
    → InBox fs bs cs
    → Advance (f ∷ fs) (b ∷ bs) (c ∷ cs)
unfolding bump carry
Advance-kept f b c fs bs cs h e rest = record {
  axes = false ∷ replicate (length cs) false;
  moved = (c +ℤ pos 1) ∷ cs;
  has_axis = λ nil. cc;
  bump_is = refl;
  carry_is = rw (e, carry_inside fs bs cs rest);
  inside = ((omega (arith, +ℤ_parts c (pos 1)), below), rest);
  ranked = omega (arith, +ℤ_parts c (pos 1));
  leads = kept-Leads f (c +ℤ pos 1) fs cs;
}
  where
    below : c +ℤ pos 1 ≤ℤ b
    below = ltb_ℤ→le b (c +ℤ pos 1) e

-- From a position of the box that is not its back, the move is defined, stays in the box and adds
-- one to the rank.
pub Advance-inside : (f b p : Position) → InBox f b p → p ≢ b → Advance f b p
Advance-inside [] [] [] h ne = absurd (ne refl)
Advance-inside [] [] (c ∷ cs) h ne = absurd h
Advance-inside [] (b ∷ bs) p h ne = absurd h
Advance-inside (f ∷ fs) [] p h ne = absurd h
Advance-inside (f ∷ fs) (b ∷ bs) [] h ne = absurd h
Advance-inside (f ∷ fs) (b ∷ bs) (c ∷ cs) (h, rest) ne = elim (Bool-cases (ltb_ℤ b (c +ℤ pos 1))) [
  | inl e ↦
      let at_back =
        eq_of_parts c b (omega (arith, +ℤ_parts c (pos 1), ltb_ℤ→lt b (c +ℤ pos 1) e)) in
      Advance-wrapped f b c fs bs cs h e
        (Advance-inside fs bs cs rest (λ same. ne (cc (at_back, same))))
  | inr e ↦ Advance-kept f b c fs bs cs h e rest
]
