-- ===== src/Raster/Tests.antt =====
-- Runs on a raster of 2 by 3 pixels, and the theorems on it.
use ele_fits.Prelude.{
  ℕ, ◌≡◌, refl, ◌⊎◌, some, List, [], ◌∷◌, length, get_elem?, ok, fail, fits_error,
  out_of_bounds_error, undefined_behaviour, ◌>>=◌, arith,
}
use ele_fits.Prelude.Int.{pos, negsuc, ◌-ℤ◌, ◌+ℤ◌, ◌*ℤ◌}
use ele_fits.Position.{Position, shape_size, add, origin, subtract_scalar}
use ele_fits.Region.{Region, from_shape}
use ele_fits.Screener.{visit_region}
use ele_fits.Screener.Rank.{rank}
use ele_fits.Raster.{Raster, View, index_static, index_at, at, slice, section, domain}
use ele_fits.Raster.Index.{zeros, lasts, index_static-rank}
use ele_fits.Raster.Unchecked.{CellAt, IsFull}
use ele_fits.Raster.Access.{InBounds, from_end, at-CellAt, domain-visit_region}
use ele_fits.Raster.Slice.{ShowsFrom, slice-ShowsFrom, section-undefined}

abbrev lengths : Position
lengths = pos 2 ∷ pos 3 ∷ []

abbrev raster : Raster ℕ
raster = record { dim = pos 2; lengths = lengths; cells = 10 ∷ 11 ∷ 12 ∷ 13 ∷ 14 ∷ 15 ∷ [] }

-- The same pixels with a variable dimension.
abbrev variable_raster : Raster ℕ
variable_raster = record raster { dim = negsuc 0 }

abbrev last_column : Position
last_column = negsuc 0 ∷ pos 1 ∷ []

-- The middle row.
abbrev row : Region
row = record { front = pos 0 ∷ pos 1 ∷ []; back = pos 1 ∷ pos 1 ∷ [] }

abbrev row_view : View
row_view = record { dim = pos 1; lengths = pos 2 ∷ []; offset = pos 2 }

read_back : at raster last_column ≡ ok 13
unfolding at ◌-ℤ◌ ◌+ℤ◌ ◌*ℤ◌
read_back = refl

read_variable : at variable_raster last_column ≡ ok 13
unfolding at ◌-ℤ◌ ◌+ℤ◌ ◌*ℤ◌
read_variable = refl

read_outside : at raster (pos 2 ∷ pos 0 ∷ []) ≡ fail out_of_bounds_error
unfolding at ◌-ℤ◌
read_outside = refl

row_sliced : slice (pos 1) raster row ≡ ok row_view
unfolding slice ◌+ℤ◌ ◌-ℤ◌ ◌*ℤ◌
row_sliced = refl

row_section : section raster (pos 1) ≡ ok row_view
unfolding section from_shape add origin subtract_scalar ◌-ℤ◌ ◌+ℤ◌ ◌*ℤ◌
row_section = refl

-- A column is not contiguous.
column_not_sliced :
    slice (pos 1) raster (record { front = pos 0 ∷ pos 0 ∷ []; back = pos 0 ∷ pos 2 ∷ [] })
    ≡ fail fits_error
unfolding slice
column_not_sliced = refl

raster-IsFull : IsFull raster
unfolding shape_size ◌*ℤ◌
raster-IsFull = record { axes = λ e. cc; cells_size = refl }

index_static-rank_example :
    index_static lengths (pos 1 ∷ pos 2 ∷ [])
    ≡ pos (rank (zeros lengths) (lasts lengths) (pos 1 ∷ pos 2 ∷ []))
index_static-rank_example =
    index_static-rank lengths (pos 1 ∷ pos 2 ∷ [])
      ((omega arith, omega arith), ((omega arith, omega arith), tt))

at-CellAt_example :
    (InBounds lengths last_column
      × ((a : ℕ) × (at raster last_column ≡ ok a) × CellAt raster (from_end lengths last_column) a))
    ⊎ (¬ InBounds lengths last_column × (at raster last_column ≡ fail out_of_bounds_error))
at-CellAt_example = at-CellAt raster last_column raster-IsFull refl

domain-visit_region_example :
    (ps : List Position) × ((do region ← domain raster; visit_region 7 region) ≡ ok (some ps))
    × (shape_size lengths ≡ pos (length ps))
    × ((i : ℕ) (q : Position) → get_elem? ps i ≡ some q → index_at (pos 2) lengths q ≡ ok (pos i))
unfolding shape_size ◌*ℤ◌
domain-visit_region_example =
    domain-visit_region 7 raster (pos 1 ∷ pos 2 ∷ []) refl (λ e. cc)
      ((omega arith, omega arith), ((omega arith, omega arith), tt)) (omega arith)

slice-ShowsFrom_example : (length row_view.lengths ≡ 1) × ShowsFrom raster row row_view
slice-ShowsFrom_example = slice-ShowsFrom 0 raster row row_view refl row_sliced

section-undefined_example : section variable_raster (pos 1) ≡ fail undefined_behaviour
section-undefined_example = section-undefined variable_raster (pos 1) refl
