-- ===== src/Raster/Index.antt =====
-- The index of a pixel: the two recursions agree, and the index is the rank of the position in the
-- domain, first axis fastest.
use ele_fits.Prelude.{
  ℕ, zero, suc, ◌+◌, ◌*◌, ◌≡◌, refl, sym, ap, ◌∙◌, Option, none, some, [], ◌∷◌, length, get_elem?,
  arith, ok, fail, ◌>>=◌, ◌==◌, ==_iff, Bool-cases, inl, inr, if◌then◌else◌,
}
use ele_fits.Prelude.Int.{
  ℤ, pos, ◌+ℤ◌, ◌-ℤ◌, ◌*ℤ◌, ◌≤ℤ◌, ◌<ℤ◌, *ℤ-pos, +ℤ_parts, -ℤ_parts, eq_of_parts,
}
use ele_fits.Position.{Position}
use ele_fits.Prelude.{fits_error}
use ele_fits.Screener.Rank.{dist, InBox, rank}
use ele_fits.Raster.{or_undefined, index_static, index_loop, index_dynamic}

-- The rounds above the first axis are those of the shape without it.
index_loop_cons :
    (s p : ℤ) (ss ps : Position) (left : ℕ) (res : ℤ)
    → index_loop (s ∷ ss) (p ∷ ps) (suc left) res
      ≡ (do inner ← index_loop ss ps left res; ok (p +ℤ s *ℤ inner))
unfolding index_loop
index_loop_cons s p ss ps zero res = refl
index_loop_cons s p ss ps (suc left) res =
    step (λ r. index_loop_cons s p ss ps left r) (get_elem? ps left) (get_elem? ss left)
  where
    step :
        ((r : ℤ)
          → index_loop (s ∷ ss) (p ∷ ps) (suc left) r
            ≡ (do inner ← index_loop ss ps left r; ok (p +ℤ s *ℤ inner)))
        → (at : Option ℤ) (along : Option ℤ)
        → (do
          p' ← or_undefined at
          s' ← or_undefined along
          index_loop (s ∷ ss) (p ∷ ps) (suc left) (p' +ℤ s' *ℤ res))
          ≡ (do
            inner ← (do
              p' ← or_undefined at
              s' ← or_undefined along
              index_loop ss ps left (p' +ℤ s' *ℤ res))
            ok (p +ℤ s *ℤ inner))
    step ih none along = refl
    step ih (some p') none = refl
    step ih (some p') (some s') = ih (p' +ℤ s' *ℤ res)

last_axis : (s p : ℤ) → p +ℤ s *ℤ pos 0 ≡ p
unfolding ◌*ℤ◌ ◌+ℤ◌
last_axis s p = ground arith

index_loop-static :
    (shape position : Position)
    → length position ≡ length shape
    → index_loop shape position (length shape) (pos 0) ≡ ok (index_static shape position)
unfolding index_static
index_loop-static [] [] h = unfold index_loop in refl
index_loop-static [] (p ∷ ps) h = absurd (omega arith)
index_loop-static (s ∷ ss) [] h = absurd (omega arith)
index_loop-static (s ∷ []) (p ∷ []) h = unfold index_loop in ap ok (last_axis s p)
index_loop-static (s ∷ []) (p ∷ q ∷ ps) h = absurd (omega arith)
index_loop-static (s ∷ t ∷ ss) (p ∷ []) h = absurd (omega arith)
index_loop-static (s ∷ t ∷ ss) (p ∷ q ∷ ps) h =
    index_loop_cons s p (t ∷ ss) (q ∷ ps) (suc (length ss)) (pos 0)
    ∙ ap (λ r. do inner ← r; ok (p +ℤ s *ℤ inner))
        (index_loop-static (t ∷ ss) (q ∷ ps) (omega arith))

-- For a position of the dimension of the shape, the loop of variable dimension returns what the
-- static recursion does; for a position of another dimension it throws `FitsError`.
pub index_dynamic-static :
    (shape position : Position)
    → index_dynamic shape position ≡ (
        if length position == length shape
        then ok (index_static shape position)
        else fail fits_error)
unfolding index_dynamic
index_dynamic-static shape position = elim (Bool-cases (length position == length shape)) [
  | inl e ↦ rw e (index_loop-static shape position ((==_iff (length position) (length shape)).0 e))
  | inr e ↦ rw e
]

-- Each coordinate is from 0 to its length.
abbrev pub InShape : Position → Position → Type 0
InShape [] [] = Unit
InShape (s ∷ ss) (p ∷ ps) = ((pos 0 ≤ℤ p) × (p <ℤ s)) × InShape ss ps
InShape _ _ = ⊥

abbrev pub zeros : Position → Position
zeros [] = []
zeros (s ∷ ss) = pos 0 ∷ zeros ss

-- The back of the domain of a shape.
abbrev pub lasts : Position → Position
lasts [] = []
lasts (s ∷ ss) = (s -ℤ pos 1) ∷ lasts ss

pub InShape-InBox : (shape p : Position) → InShape shape p → InBox (zeros shape) (lasts shape) p
InShape-InBox [] [] h = tt
InShape-InBox [] (p ∷ ps) h = h
InShape-InBox (s ∷ ss) [] h = h
InShape-InBox (s ∷ ss) (p ∷ ps) (h, rest) =
    ((h.0, omega (arith, -ℤ_parts s (pos 1))), InShape-InBox ss ps rest)

pub InBox-InShape : (shape p : Position) → InBox (zeros shape) (lasts shape) p → InShape shape p
InBox-InShape [] [] h = tt
InBox-InShape [] (p ∷ ps) h = h
InBox-InShape (s ∷ ss) [] h = h
InBox-InShape (s ∷ ss) (p ∷ ps) (h, rest) =
    ((h.0, omega (arith, -ℤ_parts s (pos 1))), InBox-InShape ss ps rest)

pub width : (s : ℤ) → pos 0 <ℤ s → s ≡ pos (dist (pos 0) (s -ℤ pos 1) + 1)
width s h = eq_of_parts s (pos (dist (pos 0) (s -ℤ pos 1) + 1)) (omega (arith, -ℤ_parts s (pos 1)))

place : (p : ℤ) → pos 0 ≤ℤ p → p ≡ pos (dist (pos 0) p)
place p h = eq_of_parts p (pos (dist (pos 0) p)) (omega arith)

+ℤ-pos : (a b : ℕ) → pos a +ℤ pos b ≡ pos (a + b)
+ℤ-pos a b = eq_of_parts (pos a +ℤ pos b) (pos (a + b)) (omega (arith, +ℤ_parts (pos a) (pos b)))

index_step :
    (s p : ℤ) (r : ℕ)
    → pos 0 ≤ℤ p
    → p <ℤ s
    → p +ℤ s *ℤ pos r ≡ pos (dist (pos 0) p + (dist (pos 0) (s -ℤ pos 1) + 1) * r)
index_step s p r lo hi =
    ap (λ (t : ℤ). p +ℤ t *ℤ pos r) (width s (omega arith))
    ∙ ap (λ (t : ℤ). p +ℤ t) (*ℤ-pos (dist (pos 0) (s -ℤ pos 1) + 1) r)
    ∙ ap (λ (t : ℤ). t +ℤ pos ((dist (pos 0) (s -ℤ pos 1) + 1) * r)) (place p lo)
    ∙ +ℤ-pos _ _

-- The index of a position of the domain is its rank in the domain, first axis fastest.
pub index_static-rank :
    (shape p : Position)
    → InShape shape p
    → index_static shape p ≡ pos (rank (zeros shape) (lasts shape) p)
unfolding index_static
index_static-rank [] [] h = refl
index_static-rank [] (p ∷ ps) h = absurd h
index_static-rank (s ∷ ss) [] h = absurd h
index_static-rank (s ∷ []) (p ∷ []) (h, rest) = sym (last_axis s p) ∙ index_step s p 0 h.0 h.1
index_static-rank (s ∷ []) (p ∷ q ∷ ps) h = absurd h.1
index_static-rank (s ∷ t ∷ ss) (p ∷ []) h = absurd h.1
index_static-rank (s ∷ t ∷ ss) (p ∷ q ∷ ps) (h, rest) =
    ap (λ (z : ℤ). p +ℤ s *ℤ z) (index_static-rank (t ∷ ss) (q ∷ ps) rest)
    ∙ index_step s p (rank (zeros (t ∷ ss)) (lasts (t ∷ ss)) (q ∷ ps)) h.0 h.1
