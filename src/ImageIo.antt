-- ===== src/ImageIo.antt =====
-- Reading and writing regions of an image in a file: `ImageIo` of
-- EleCfitsioWrapper/EleCfitsioWrapper/impl/ImageWrapper.hpp.
pub mod Cells
pub mod Lines
pub mod Progress
pub mod Sizes
pub mod Steps
pub mod Reading
pub mod Whole
pub mod Framed
pub mod Transfer
pub mod Corners
mod Tests
use package.ele_fits.Prelude.{
  ℕ, zero, suc, Option, none, some, List, [], ◌∷◌, length, set, ltb, if◌then◌else◌, Outcome, ok,
  fail, fits_error, undefined_behaviour,
}
use package.ele_fits.Prelude
use package.ele_fits.Prelude.Int.{ℤ, pos, pos_part, ◌+ℤ◌, ◌-ℤ◌}
use package.ele_fits.Prelude.Methods.{Method, pure, gets, modify, lift, ◌>>=◌, ◌>>◌}
use package.ele_fits.Position.{Position, add, add_scalar, extend}
use package.ele_fits.Region.{Region, shift, shape, size, from_shape}
use package.ele_fits.Screener.{Screener, start, next}
use package.ele_fits.Raster.{Raster, index_at, read_cell}

-- CFITSIO writes the pixels of a line from a cell on.
unfoldable pub write_cells {ℓ} : {A : Type ℓ} → List A → ℕ → List A → Outcome (List A)
write_cells cells i [] = ok cells
write_cells cells i (a ∷ line) =
    let rest = write_cells (set cells i a) (suc i) line in
    if ltb i (length cells) then rest else fail undefined_behaviour

-- `region.shape()[0]`
unfoldable pub line_length : Region → Outcome ℤ
unfolding shape
line_length region =
    Prelude.◌>>=◌ (shape region) (λ s. elim s [ [] ↦ fail undefined_behaviour | w ∷ rest ↦ ok w ])

-- `region.back[0] = region.front[0]`
unfoldable pub flatten : Region → Outcome Region
flatten region = elim region.front [
  | [] ↦ fail undefined_behaviour
  | f ∷ fs ↦ elim region.back [
    | [] ↦ fail undefined_behaviour
    | b ∷ bs ↦ ok (record region { back = f ∷ bs })
  ]
]

-- `p[0] += n`
unfoldable pub stretch : ℤ → Position → Outcome Position
stretch n [] = fail undefined_behaviour
stretch n (c ∷ cs) = ok ((c +ℤ n) ∷ cs)

abbrev pub may_throw {ℓ} : {A : Type ℓ} → Option A → Outcome A
may_throw none = fail fits_error
may_throw (some a) = ok a

-- `followers()[0]` and `followers()[1]`
unfoldable pub two_followers : Screener → Outcome (Position × Position)
two_followers s = elim s.followers [
  | [] ↦ fail undefined_behaviour
  | p ∷ rest ↦ elim rest [ [] ↦ fail undefined_behaviour | q ∷ more ↦ ok (p, q) ]
]

-- `read_subset` is what `fits_read_subset` reads between two 1-based corners, with steps of 1, and
-- `none` where its status is not 0. The state is the parent raster of the destination.
module _ {A : Type 0} (read_subset : Position → Position → Option (List A)) where
  -- The call for one line.
  unfoldable pub read_line : Position → Position → Position → Method (Raster A) (Unit {0})
  unfolding index_at read_cell write_cells
  read_line src_front src_back dst_front = do
    r ← gets (λ r. r)
    i ← lift (index_at r.dim r.lengths dst_front)
    first ← lift (read_cell r.cells i)
    line ← lift (may_throw (read_subset src_front src_back))
    cells ← lift (write_cells r.cells (pos_part i) line)
    modify (λ r. record r { cells = cells })

  -- The loop, with `left` rounds to go.
  unfoldable pub read_lines :
      ℕ → Screener → Position → Position → Position → Method (Raster A) (Unit {0})
  unfolding read_line next two_followers
  read_lines zero src_screener src_front src_back dst_front = pure tt
  read_lines (suc left) src_screener src_front src_back dst_front = do
    read_line src_front src_back dst_front
    s ← lift (next src_screener)
    (back, target) ← lift (two_followers s)
    read_lines left s s.current back target

  -- `read_region_to` a sub-raster of the parent.
  unfoldable pub read_region_to : Region → Region → Method (Raster A) (Unit {0})
  unfolding shift flatten size stretch line_length start read_lines
  read_region_to region destination = do
    src_region ← lift (flatten (shift region (pos 1)))
    src_count ← lift (size src_region)
    width ← lift (line_length region)
    src_back ← lift (stretch (width -ℤ pos 1) src_region.front)
    read_lines (pos_part src_count) (start src_region (src_back ∷ destination.front ∷ []))
        src_region.front src_back destination.front

  -- `ImageRaster::read_region_to_subraster`, once the handle is touched.
  unfoldable pub read_region_to_subraster : Position → Region → Method (Raster A) (Unit {0})
  unfolding shape from_shape read_region_to
  read_region_to_subraster front_position destination = do
    extent ← lift (shape destination)
    region ← lift (from_shape front_position extent)
    read_region_to region destination

-- The 1-based corners that `write_region` gives to CFITSIO for a raster of some shape.
unfoldable pub write_corners : Position → Position → Outcome Region
unfolding extend add add_scalar
write_corners raster_shape destination = Prelude.◌>>=◌ (extend raster_shape destination) (λ extent.
    Prelude.◌>>=◌ (add destination extent)
      (λ back. ok (record { front = add_scalar destination (pos 1); back = back })))
