-- ===== src/ImageIo/Lines.antt =====
-- The lines of a box along the first axis, and the lines of another box that are displaced from
-- them.
use ele_fits.Prelude.{ℕ, ◌+◌, ◌*◌, ◌≡◌, refl, [], ◌∷◌, arith}
use ele_fits.Prelude.Int.{ℤ, pos, ◌+ℤ◌, ◌≤ℤ◌, +ℤ_parts, eq_of_parts}
use ele_fits.Position.{Position}
use ele_fits.Screener.Rank.{dist, InBox, rank, Displaced, SameMove}

SameMove-unique : (f c r o o' : ℤ) → SameMove f c r o → SameMove f c r o' → o ≡ o'
SameMove-unique f c r o o' d d' = eq_of_parts o o' (omega (arith, d, d'))

-- One position is displaced as another.
pub Displaced-unique : (f c r o o' : Position) → Displaced f c r o → Displaced f c r o' → o ≡ o'
Displaced-unique [] [] [] [] [] d d' = refl
Displaced-unique [] [] [] [] (o' ∷ os') d d' = absurd d'
Displaced-unique [] [] [] (o ∷ os) o' d d' = absurd d
Displaced-unique [] [] (r ∷ rs) o o' d d' = absurd d
Displaced-unique [] (c ∷ cs) r o o' d d' = absurd d
Displaced-unique (f ∷ fs) [] r o o' d d' = absurd d
Displaced-unique (f ∷ fs) (c ∷ cs) [] o o' d d' = absurd d
Displaced-unique (f ∷ fs) (c ∷ cs) (r ∷ rs) [] o' d d' = absurd d
Displaced-unique (f ∷ fs) (c ∷ cs) (r ∷ rs) (o ∷ os) [] d d' = absurd d'
Displaced-unique (f ∷ fs) (c ∷ cs) (r ∷ rs) (o ∷ os) (o' ∷ os') d d' =
    let first = SameMove-unique f c r o o' d.0 d'.0 in
    let rest = Displaced-unique fs cs rs os os' d.1 d'.1 in cc (first, rest)

-- The displaced positions of one position are displaced back.
pub Displaced-source : (f c c' r o : Position) → Displaced f c r o → Displaced f c' r o → c ≡ c'
Displaced-source [] [] [] [] [] d d' = refl
Displaced-source [] [] [] [] (o ∷ os) d d' = absurd d
Displaced-source [] [] [] (r ∷ rs) o d d' = absurd d
Displaced-source [] [] (c' ∷ cs') r o d d' = absurd d'
Displaced-source [] (c ∷ cs) c' r o d d' = absurd d
Displaced-source (f ∷ fs) [] c' r o d d' = absurd d
Displaced-source (f ∷ fs) (c ∷ cs) [] r o d d' = absurd d'
Displaced-source (f ∷ fs) (c ∷ cs) (c' ∷ cs') [] o d d' = absurd d
Displaced-source (f ∷ fs) (c ∷ cs) (c' ∷ cs') (r ∷ rs) [] d d' = absurd d
Displaced-source (f ∷ fs) (c ∷ cs) (c' ∷ cs') (r ∷ rs) (o ∷ os) d d' =
    let first = eq_of_parts c c' (omega (arith, d.0, d'.0)) in
    let rest = Displaced-source fs cs cs' rs os d.1 d'.1 in cc (first, rest)

-- A position that is displaced from the same front is the same.
pub Displaced-same : (f c o : Position) → Displaced f c f o → o ≡ c
Displaced-same [] [] [] d = refl
Displaced-same [] [] (o ∷ os) d = absurd d
Displaced-same [] (c ∷ cs) o d = absurd d
Displaced-same (f ∷ fs) [] o d = absurd d
Displaced-same (f ∷ fs) (c ∷ cs) [] d = absurd d
Displaced-same (f ∷ fs) (c ∷ cs) (o ∷ os) d =
    let first = eq_of_parts o c (omega (arith, d.0)) in
    let rest = Displaced-same fs cs os d.1 in cc (first, rest)

-- A position displaced as a position of a box is in the displaced box.
pub Displaced-InBox :
    (f b c g h o : Position) → InBox f b c → Displaced f b g h → Displaced f c g o → InBox g h o
Displaced-InBox [] [] [] [] [] [] i d e = tt
Displaced-InBox [] [] [] [] [] (o ∷ os) i d e = absurd e
Displaced-InBox [] [] [] [] (h ∷ hs) o i d e = absurd d
Displaced-InBox [] [] [] (g ∷ gs) h o i d e = absurd d
Displaced-InBox [] [] (c ∷ cs) g h o i d e = absurd i
Displaced-InBox [] (b ∷ bs) c g h o i d e = absurd i
Displaced-InBox (f ∷ fs) [] c g h o i d e = absurd i
Displaced-InBox (f ∷ fs) (b ∷ bs) [] g h o i d e = absurd i
Displaced-InBox (f ∷ fs) (b ∷ bs) (c ∷ cs) [] h o i d e = absurd d
Displaced-InBox (f ∷ fs) (b ∷ bs) (c ∷ cs) (g ∷ gs) [] o i d e = absurd d
Displaced-InBox (f ∷ fs) (b ∷ bs) (c ∷ cs) (g ∷ gs) (h ∷ hs) [] i d e = absurd e
Displaced-InBox (f ∷ fs) (b ∷ bs) (c ∷ cs) (g ∷ gs) (h ∷ hs) (o ∷ os) i d e = (
  (omega (arith, i.0.0, i.0.1, d.0, e.0), omega (arith, i.0.0, i.0.1, d.0, e.0)),
  Displaced-InBox fs bs cs gs hs os i.1 d.1 e.1,
)

-- A box in another one.
pub InBox-InBox : (z w g h o : Position) → InBox z w g → InBox z w h → InBox g h o → InBox z w o
InBox-InBox [] [] [] [] [] i j k = tt
InBox-InBox [] [] [] [] (o ∷ os) i j k = absurd k
InBox-InBox [] [] [] (h ∷ hs) o i j k = absurd j
InBox-InBox [] [] (g ∷ gs) h o i j k = absurd i
InBox-InBox [] (w ∷ ws) g h o i j k = absurd (not_inside g i)
  where
    not_inside : (g : Position) → InBox [] (w ∷ ws) g → ⊥
    not_inside [] i = i
    not_inside (g ∷ gs) i = i
InBox-InBox (z ∷ zs) [] g h o i j k = absurd i
InBox-InBox (z ∷ zs) (w ∷ ws) [] h o i j k = absurd i
InBox-InBox (z ∷ zs) (w ∷ ws) (g ∷ gs) [] o i j k = absurd j
InBox-InBox (z ∷ zs) (w ∷ ws) (g ∷ gs) (h ∷ hs) [] i j k = absurd k
InBox-InBox (z ∷ zs) (w ∷ ws) (g ∷ gs) (h ∷ hs) (o ∷ os) i j k = (
  (omega (arith, i.0, j.0, k.0), omega (arith, i.0, j.0, k.0)),
  InBox-InBox zs ws gs hs os i.1 j.1 k.1,
)

-- The position of a line, `j` pixels from its start.
abbrev pub along : ℤ → ℕ → Position → Position
along c j cs = (c +ℤ pos j) ∷ cs

-- The rank grows by one along a line.
pub rank-along :
    (z w c : ℤ) (zs ws cs : Position) (j : ℕ)
    → z ≤ℤ c
    → rank (z ∷ zs) (w ∷ ws) (along c j cs) ≡ dist z c + (dist z w + 1) * rank zs ws cs + j
rank-along z w c zs ws cs j h = omega (arith, +ℤ_parts c (pos j), h)

pub along-dist : (c x : ℤ) → c ≤ℤ x → c +ℤ pos (dist c x) ≡ x
along-dist c x h = eq_of_parts _ _ (omega (arith, +ℤ_parts c (pos (dist c x)), h))
