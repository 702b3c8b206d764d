-- ===== src/Raster/Access.antt =====
-- Reading a pixel with the check of the bounds, and the loop over the domain.
use ele_fits.Prelude.{
  ℕ, suc, ◌+◌, ◌≡◌, refl, sym, ap, ◌∙◌, subst, ◌≢◌, ◌⊎◌, inl, inr, ◌||◌, some, List, [], ◌∷◌, map,
  length, replicate, get_elem?, if◌then◌else◌, arith, ok, fail, out_of_bounds_error, ◌>>=◌,
  Bool-cases,
}
use ele_fits.Prelude.Int.{
  ℤ, pos, ◌+ℤ◌, ◌-ℤ◌, ◌≤ℤ◌, ◌<ℤ◌, ltb_ℤ, int_laws, +ℤ_parts, -ℤ_parts, ltb_ℤ→lt, ltb_ℤ→le,
}
use ele_fits.Position.{Position, shape_size, origin, subtract_scalar}
use ele_fits.Position.Laws.{add-eq, zip_with}
use ele_fits.Region.{from_shape}
use ele_fits.Screener.{visit_region}
use ele_fits.Screener.Rank.{InBox}
use ele_fits.Screener.Visit.{Ranked-get_elem?, visit_region-Ranked}
use ele_fits.Raster.{Raster, index_at, check_bounds, bound_position, at, domain}
use ele_fits.Raster.Index.{InShape, zeros, lasts, InShape-InBox, InBox-InShape}
use ele_fits.Raster.Unchecked.{index_at-rank, shape_size-total, IsFull, CellAt, get-CellAt}

-- Each coordinate is from minus its length to its length.
abbrev pub InBounds : Position → Position → Type 0
InBounds [] [] = Unit
InBounds (s ∷ ss) (p ∷ ps) = ((pos 0 ≤ℤ p +ℤ s) × (p <ℤ s)) × InBounds ss ps
InBounds _ _ = ⊥

-- The position with each negative coordinate counted from the end of its axis.
abbrev pub from_end : Position → Position → Position
from_end (s ∷ ss) (p ∷ ps) = (if ltb_ℤ p (pos 0) then p +ℤ s else p) ∷ from_end ss ps
from_end _ _ = []

pub InBounds-InShape : (s p : Position) → InBounds s p → InShape s (from_end s p)
InBounds-InShape [] [] h = tt
InBounds-InShape [] (p ∷ ps) h = absurd h
InBounds-InShape (s ∷ ss) [] h = absurd h
InBounds-InShape (s ∷ ss) (p ∷ ps) (h, rest) = (
  elim (Bool-cases (ltb_ℤ p (pos 0))) [
    | inl e ↦ rw e (h.0, omega (arith, +ℤ_parts p s, ltb_ℤ→lt p (pos 0) e))
    | inr e ↦ rw e (ltb_ℤ→le p (pos 0) e, h.1)
  ],
  InBounds-InShape ss ps rest,
)

-- The two outcomes of the check of one coordinate.
check_bounds-cases :
    (s p : ℤ)
    → ((check_bounds p (pos 0 -ℤ s) (s -ℤ pos 1) ≡ ok tt) × ((pos 0 ≤ℤ p +ℤ s) × (p <ℤ s)))
      ⊎ ((check_bounds p (pos 0 -ℤ s) (s -ℤ pos 1) ≡ fail out_of_bounds_error)
          × ((pos 0 ≤ℤ p +ℤ s) × (p <ℤ s) → ⊥))
unfolding check_bounds
check_bounds-cases s p = elim (Bool-cases (ltb_ℤ p (pos 0 -ℤ s) || ltb_ℤ (s -ℤ pos 1) p)) [
  | inl e ↦ inr (rw e, λ h. ground (arith, -ℤ_parts (pos 0) s, -ℤ_parts s (pos 1), +ℤ_parts p s))
  | inr e ↦ inl (rw e, ground (arith, -ℤ_parts (pos 0) s, -ℤ_parts s (pos 1), +ℤ_parts p s))
]

bound_position-cases :
    (s p : Position)
    → length p ≡ length s
    → ((bound_position s p ≡ ok (from_end s p)) × InBounds s p)
      ⊎ ((bound_position s p ≡ fail out_of_bounds_error) × (InBounds s p → ⊥))
unfolding bound_position
bound_position-cases [] [] h = inl (refl, tt)
bound_position-cases [] (p ∷ ps) h = absurd (omega arith)
bound_position-cases (s ∷ ss) [] h = absurd (omega arith)
bound_position-cases (s ∷ ss) (p ∷ ps) h = elim (check_bounds-cases s p) [
  | inr (e, out) ↦ inr (rw e, λ inside. out inside.0)
  | inl (e, inside) ↦ elim (bound_position-cases ss ps (omega arith)) [
    | inl (e', inside') ↦ inl (rw (e, e'), (inside, inside'))
    | inr (e', out) ↦ inr (rw (e, e'), λ inside'. out inside'.1)
  ]
]

lasts_nonempty : (s : Position) → s ≢ [] → lasts s ≢ []
lasts_nonempty [] ne e = ne refl
lasts_nonempty (x ∷ s) ne e = cc

InBox-back : (f b p : Position) → InBox f b p → InBox f b b
InBox-back [] [] [] h = h
InBox-back [] [] (c ∷ p) h = absurd h
InBox-back [] (b ∷ bs) p h = absurd h
InBox-back (f ∷ fs) [] p h = absurd h
InBox-back (f ∷ fs) (b ∷ bs) [] h = absurd h
InBox-back (f ∷ fs) (b ∷ bs) (c ∷ p) (h, rest) = (omega arith, InBox-back fs bs p rest)

module _ {A : Type 0} where
  -- For a raster with a cell for each position and a position of its dimension, `at` has one of two
  -- outcomes. Where each coordinate is from minus its length to its length, it returns the cell of
  -- the position with each negative coordinate counted from the end of its axis: the cell at its
  -- rank in the domain, first axis fastest. Where some coordinate is not, it throws
  -- `OutOfBoundsError`.
  pub at-CellAt :
      (r : Raster A) (p : Position)
      → IsFull r
      → length p ≡ length r.lengths
      → (InBounds r.lengths p × ((a : A) × (at r p ≡ ok a) × CellAt r (from_end r.lengths p) a))
        ⊎ (¬ InBounds r.lengths p × (at r p ≡ fail out_of_bounds_error))
  unfolding at
  at-CellAt r p full sizes = elim (bound_position-cases r.lengths p sizes) [
    | inl (e, inside) ↦
        let (a, got, cell) =
          get-CellAt r (from_end r.lengths p) full (InBounds-InShape r.lengths p inside) in
        inl (inside, (a, rw e got, cell))
    | inr (e, out) ↦ inr (out, rw e)
  ]

  -- A raster of static dimension has as many lengths.
  abbrev pub IsStatic : Raster A → Type 0
  IsStatic r = r.dim ≡ pos (length r.lengths)

  pub domain-zeros :
      (r : Raster A)
      → IsStatic r
      → domain r ≡ ok (record { front = zeros r.lengths; back = lasts r.lengths })
  unfolding domain from_shape origin subtract_scalar
  domain-zeros r static =
      rw
        (
          static,
          no_sign (length r.lengths),
          origin_zeros r.lengths,
          add-eq (zeros r.lengths) (map (λ l. l -ℤ pos 1) r.lengths) (sizes r.lengths),
        )
        (ap (λ b. ok (record { front = zeros r.lengths; back = b })) (backs r.lengths))
    where
      sizes : (s : Position) → length (zeros s) ≡ length (map (λ l. l -ℤ pos 1) s)
      sizes [] = refl
      sizes (x ∷ s) = ap suc (sizes s)

      origin_zeros : (s : Position) → replicate (length s) (pos 0) ≡ zeros s
      origin_zeros [] = refl
      origin_zeros (x ∷ s) = ap (λ p. pos 0 ∷ p) (origin_zeros s)

      no_sign : (n : ℕ) → n + 0 ≡ n
      no_sign n = omega arith

      zero_plus : (z : ℤ) → pos 0 +ℤ z ≡ z
      zero_plus z = omega int_laws

      backs :
          (s : Position) → zip_with (λ l r. l +ℤ r) (zeros s) (map (λ l. l -ℤ pos 1) s) ≡ lasts s
      backs [] = refl
      backs (x ∷ s) = cc (zero_plus (x -ℤ pos 1), backs s)

  -- For a raster of static dimension with an axis and a pixel, and fuel for one round more than its
  -- pixels, the loop `for (const auto& p : raster.domain())` ends after `shapeSize(shape())`
  -- rounds, and `index` of the position of each round is the number of the round, from 0.
  pub domain-visit_region :
      (fuel : ℕ) (r : Raster A) (p : Position)
      → IsStatic r
      → r.lengths ≢ []
      → InShape r.lengths p
      → shape_size r.lengths <ℤ pos fuel
      → (ps : List Position) × ((do region ← domain r; visit_region fuel region) ≡ ok (some ps))
        × (shape_size r.lengths ≡ pos (length ps))
        × ((i : ℕ) (q : Position)
            → get_elem? ps i ≡ some q
            → index_at r.dim r.lengths q ≡ ok (pos i))
  domain-visit_region fuel r p static ne h enough =
      let size = shape_size-total r.lengths p h ne in
      let inside = InShape-InBox r.lengths p h in
      let (ps, visited, counted, ranked, found) =
        visit_region-Ranked fuel (record { front = zeros r.lengths; back = lasts r.lengths })
          (InBox-back (zeros r.lengths) (lasts r.lengths) p inside) (lasts_nonempty r.lengths ne)
          (omega (arith, subst (λ z. z <ℤ pos fuel) size enough)) in
      (
        ps,
        rw (domain-zeros r static) visited,
        size ∙ ap pos (sym counted),
        λ i q e.
            let (within, rank_is) =
              Ranked-get_elem? (zeros r.lengths) (lasts r.lengths) 0 ps i q ranked e in
            index_at-rank r.dim r.lengths q (InBox-InShape r.lengths q within)
            ∙ ap (λ k. ok (pos k)) (omega (arith, rank_is)),
      )
