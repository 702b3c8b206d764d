-- ===== src/Raster.antt =====
-- `Raster` and its views of EleFitsData/EleFitsData/Raster.h, impl/Raster.hpp and Subraster.h, and
-- `OutOfBoundsError::may_throw` of EleFitsData/src/lib/FitsError.cpp.
pub mod Index
pub mod Unchecked
pub mod Access
pub mod SliceIndex
pub mod Slice
mod Tests
use package.ele_fits.Prelude.{
  ℕ, zero, suc, ◌-◌, ◌==◌, Bool, true, false, not, ◌&&◌, ◌||◌, Option, none, some, List, [], ◌∷◌,
  length, get_elem?, set, drop, ltb, if◌then◌else◌, Outcome, ok, fail, fits_error,
  out_of_bounds_error, undefined_behaviour, ◌>>=◌, ◌>>◌,
}
use package.ele_fits.Prelude.Int.{ℤ, pos, negsuc, pos_part, ◌+ℤ◌, ◌-ℤ◌, ◌*ℤ◌, ◌==ℤ◌, ltb_ℤ}
use package.ele_fits.Position.{Position, origin, add, shape_size}
use package.ele_fits.Region.{Region, from_shape, shape, size}

-- `Raster<T, N>`: `dim` is the template parameter `N`, -1 for variable dimension.
pub record Raster (A : Type 0) : Type 0 where
  pub dim : ℤ
  pub lengths : Position
  pub cells : List A

-- `PtrRaster`: a shape and the place of its first pixel in the cells of another raster.
pub record View : Type 0 where
  pub dim : ℤ
  pub lengths : Position
  pub offset : ℤ

-- The static recursion, at axis `N - 1 - I`. The lists have `N` elements, at least one: `N = 0` has
-- no instance.
unfoldable pub index_static : Position → Position → ℤ
index_static (s ∷ []) (p ∷ []) = p
index_static (s ∷ ss) (p ∷ ps) = p +ℤ s *ℤ index_static ss ps
index_static _ _ = pos 0

abbrev pub or_undefined {ℓ} : {A : Type ℓ} → Option A → Outcome A
or_undefined none = fail undefined_behaviour
or_undefined (some a) = ok a

-- The loop for variable dimension with `left` rounds to go, which reads the axis `left - 1`.
unfoldable pub index_loop : Position → Position → ℕ → ℤ → Outcome ℤ
index_loop shape position zero res = ok res
index_loop shape position (suc left) res = do
  p ← or_undefined (get_elem? position left)
  s ← or_undefined (get_elem? shape left)
  index_loop shape position left (p +ℤ s *ℤ res)

unfoldable pub index_dynamic : Position → Position → Outcome ℤ
unfolding index_loop
index_dynamic shape position =
    if not (length position == length shape)
    then fail fits_error
    else index_loop shape position (length shape) (pos 0)

-- `Raster::index`, by `N`.
unfoldable pub index_at : ℤ → Position → Position → Outcome ℤ
unfolding index_static index_dynamic
index_at dim shape position =
    if dim ==ℤ negsuc 0 then index_dynamic shape position else ok (index_static shape position)

-- `*(data() + index)`
unfoldable pub read_cell {ℓ} : {A : Type ℓ} → List A → ℤ → Outcome A
read_cell cells (pos i) = or_undefined (get_elem? cells i)
read_cell cells (negsuc i) = fail undefined_behaviour

-- `OutOfBoundsError::may_throw`
unfoldable pub check_bounds : ℤ → ℤ → ℤ → Outcome (Unit {0})
check_bounds value lo hi =
    if ltb_ℤ value lo || ltb_ℤ hi value then fail out_of_bounds_error else ok tt

-- The loop of `at` over the axes of the shape.
unfoldable pub bound_position : Position → Position → Outcome Position
unfolding check_bounds
bound_position [] position = ok position
bound_position (s ∷ ss) [] = fail undefined_behaviour
bound_position (s ∷ ss) (p ∷ ps) = do
  check_bounds p (pos 0 -ℤ s) (s -ℤ pos 1)
  rest ← bound_position ss ps
  ok ((if ltb_ℤ p (pos 0) then p +ℤ s else p) ∷ rest)

module _ {A : Type 0} where
  unfoldable pub domain : Raster A → Outcome Region
  domain r = from_shape (origin r.dim) r.lengths

  unfoldable pub dimension : Raster A → ℕ
  dimension r = length r.lengths

  -- `operator[](pos)`
  unfoldable pub get : Raster A → Position → Outcome A
  unfolding index_at read_cell
  get r position = do i ← index_at r.dim r.lengths position; read_cell r.cells i

  unfoldable pub at : Raster A → Position → Outcome A
  unfolding bound_position get
  at r position = do bounded ← bound_position r.lengths position; get r bounded

  -- `operator[](pos)` of the view, as a read of the cells of the raster that it points into.
  unfoldable pub view_get : Raster A → View → Position → Outcome A
  unfolding index_at read_cell
  view_get parent v position = do
    i ← index_at v.dim v.lengths position
    read_cell parent.cells (v.offset +ℤ i)

  -- `Subraster::operator[]`
  unfoldable pub subraster_get : Raster A → Region → Position → Outcome A
  unfolding get
  subraster_get parent region position = do place ← add position region.front; get parent place

-- The first loop of `isContiguous<M>`, with `M - 1` rounds. The front and the back of a region
-- have one dimension.
unfoldable pub full_axes : ℕ → Position → Position → Position → Outcome Bool
full_axes zero front back shape = ok true
full_axes (suc left) (f ∷ fs) (b ∷ bs) (s ∷ ss) =
    let rest = full_axes left fs bs ss in
    if not (f ==ℤ pos 0) || not (b ==ℤ (s -ℤ pos 1)) then ok false else rest
full_axes (suc left) front back shape = fail undefined_behaviour

-- The second loop, from axis `M` on.
unfoldable pub flat_axes : ℕ → Position → Position → Outcome Bool
flat_axes zero front back = ok true
flat_axes (suc left) (f ∷ fs) (b ∷ bs) =
    let rest = flat_axes left fs bs in if not (b ==ℤ f) then ok false else rest
flat_axes (suc left) front back = fail undefined_behaviour

-- For a negative `M` the second loop starts before the first axis.
unfoldable pub is_contiguous : ℤ → Position → Region → Outcome Bool
unfolding full_axes flat_axes
is_contiguous (negsuc n) shape region = fail undefined_behaviour
is_contiguous (pos m) shape region = do
  full ← full_axes (m - 1) region.front region.back shape
  if full then flat_axes (length shape - m) (drop m region.front) (drop m region.back) else ok false

-- The loop of `slice<M>` that fills the reduced shape.
unfoldable pub reduced_shape : ℕ → Position → Position → Outcome Position
reduced_shape zero front back = ok []
reduced_shape (suc left) (f ∷ fs) (b ∷ bs) = do
  rest ← reduced_shape left fs bs
  ok ((b -ℤ f +ℤ pos 1) ∷ rest)
reduced_shape (suc left) front back = fail undefined_behaviour

-- `region.front[last] = front; region.back[last] = back;`
unfoldable pub replace_last : ℕ → ℤ → ℤ → Region → Outcome Region
replace_last n front back region =
    if ltb (n - 1) (length region.front) && ltb (n - 1) (length region.back) && ltb 0 n
    then ok (record { front = set region.front (n - 1) front; back = set region.back (n - 1) back })
    else fail undefined_behaviour

module _ {A : Type 0} where
  unfoldable pub slice : ℤ → Raster A → Region → Outcome View
  unfolding is_contiguous reduced_shape index_at
  slice m r region = do
    contiguous ← is_contiguous m r.lengths region
    if contiguous
        then (do
          reduced ← reduced_shape (pos_part m) region.front region.back
          offset ← index_at r.dim r.lengths region.front
          ok (record { dim = m; lengths = reduced; offset = offset }))
        else fail fits_error

  -- `section(front, back)` and `section(index)`
  unfoldable pub section_range : Raster A → ℤ → ℤ → Outcome View
  unfolding domain replace_last slice
  section_range r front back = do
    whole ← domain r
    region ← replace_last (length r.lengths) front back whole
    slice r.dim r region

  unfoldable pub section : Raster A → ℤ → Outcome View
  unfolding domain replace_last slice
  section r i = do
    whole ← domain r
    region ← replace_last (length r.lengths) i i whole
    slice (if r.dim ==ℤ negsuc 0 then negsuc 0 else r.dim -ℤ pos 1) r region
