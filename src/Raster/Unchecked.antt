-- ===== src/Raster/Unchecked.antt =====
-- Reading a pixel without the check of the bounds.
use ele_fits.Prelude.{
  ℕ, suc, ◌+◌, ◌*◌, ◌<◌, ◌≡◌, refl, ap, ◌∙◌, ◌≢◌, inl, inr, false, some, [], ◌∷◌, length, get_elem?,
  get_elem?-some, arith, ok, ◌==◌, ==_iff, Bool-cases,
}
use ele_fits.Prelude.Int.{ℤ, pos, negsuc, ◌-ℤ◌, ◌*ℤ◌, ◌==ℤ◌, *ℤ-pos}
use ele_fits.Position.{Position, shape_size, accumulate_product}
use ele_fits.Screener.Rank.{dist, rank, total}
use ele_fits.Screener.Order.{rank-lt-total}
use ele_fits.Raster.{Raster, index_at, index_static, read_cell, get}
use ele_fits.Raster.Index.{
  InShape, zeros, lasts, width, InShape-InBox, index_dynamic-static, index_static-rank,
}

pub InShape-length : (s p : Position) → InShape s p → length p ≡ length s
InShape-length [] [] h = refl
InShape-length [] (p ∷ ps) h = absurd h
InShape-length (s ∷ ss) [] h = absurd h
InShape-length (s ∷ ss) (p ∷ ps) h = ap suc (InShape-length ss ps h.1)

-- For a position of the dimension of the shape, static and variable dimension have one index.
pub index_at-static :
    (dim : ℤ) (s p : Position) → length p ≡ length s → index_at dim s p ≡ ok (index_static s p)
unfolding index_at
index_at-static dim s p e = elim (Bool-cases (dim ==ℤ negsuc 0)) [
  | inl variable ↦ rw (variable, index_dynamic-static s p, (==_iff (length p) (length s)).1 e)
  | inr static ↦ rw static
]

pub index_at-rank :
    (dim : ℤ) (s p : Position)
    → InShape s p
    → index_at dim s p ≡ ok (pos (rank (zeros s) (lasts s) p))
index_at-rank dim s p h =
    index_at-static dim s p (InShape-length s p h) ∙ ap ok (index_static-rank s p h)

accumulate_product-total :
    (acc : ℕ) (s p : Position)
    → InShape s p
    → accumulate_product (pos acc) s ≡ pos (acc * total (zeros s) (lasts s))
unfolding accumulate_product
accumulate_product-total acc [] [] h = ap pos (omega arith)
accumulate_product-total acc [] (p ∷ ps) h = absurd h
accumulate_product-total acc (s ∷ ss) [] h = absurd h
accumulate_product-total acc (s ∷ ss) (p ∷ ps) (h, rest) =
    ap (λ (z : ℤ). accumulate_product (pos acc *ℤ z) ss) (width s (omega arith))
    ∙ ap (λ (z : ℤ). accumulate_product z ss) (*ℤ-pos acc (dist (pos 0) (s -ℤ pos 1) + 1))
    ∙ accumulate_product-total (acc * (dist (pos 0) (s -ℤ pos 1) + 1)) ss ps rest
    ∙ ap pos (regroup acc (dist (pos 0) (s -ℤ pos 1) + 1) (total (zeros ss) (lasts ss)))
  where
    regroup : (a w t : ℕ) → (a * w) * t ≡ a * (w * t)
    regroup a w t = grind arith

pub shape_size-total :
    (s p : Position) → InShape s p → s ≢ [] → shape_size s ≡ pos (total (zeros s) (lasts s))
unfolding shape_size
shape_size-total [] p h ne = absurd (ne refl)
shape_size-total (s ∷ ss) p h ne =
    rw size (accumulate_product-total 1 (s ∷ ss) p h ∙ ap pos (omega arith))
  where
    size : (suc (length ss) == 0) ≡ false
    size = ground arith

module _ {A : Type 0} where
  -- A raster of at least one axis with a cell for each position, as the constructors make it.
  pub record IsFull (r : Raster A) : Type 0 where
    pub axes : r.lengths ≢ []
    pub cells_size : pos (length r.cells) ≡ shape_size r.lengths

  -- The cell of a position of the domain.
  abbrev pub CellAt : Raster A → Position → A → Type 0
  CellAt r p a = get_elem? r.cells (rank (zeros r.lengths) (lasts r.lengths) p) ≡ some a

  pub get-CellAt :
      (r : Raster A) (p : Position)
      → IsFull r
      → InShape r.lengths p
      → (a : A) × (get r p ≡ ok a) × CellAt r p a
  unfolding get read_cell
  get-CellAt r p full h =
      let room =
        rank-lt-total (zeros r.lengths) (lasts r.lengths) p (InShape-InBox r.lengths p h) in
      let (a, e) =
        get_elem?-some r.cells (rank (zeros r.lengths) (lasts r.lengths) p)
          (in_cells (full.cells_size ∙ shape_size-total r.lengths p h full.axes) room) in
      (a, rw (index_at-rank r.dim r.lengths p h, e), e)
    where
      in_cells : {n t k : ℕ} → pos n ≡ pos t → k < t → k < n
      in_cells {n} {t} {k} e h = omega (arith, pos_inj e)
        where
          pos_inj : pos n ≡ pos t → n ≡ t
          pos_inj e = cc
