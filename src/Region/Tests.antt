-- ===== src/Region/Tests.antt =====
-- The theorems on regions at a region of two axes.
use ele_fits.Prelude.{◌≡◌, refl, [], ◌∷◌, ok}
use ele_fits.Prelude.Int.{pos, negsuc, ◌+ℤ◌, ◌-ℤ◌, ◌*ℤ◌}
use ele_fits.Position.{Position, add, subtract_scalar, subtract, shape_size, add_scalar, opposite}
use ele_fits.Region.{Region, from_shape, shape, size, opposite_region}
use ele_fits.Region.Shape.{from_shape-shape}

abbrev corner : Position
corner = pos 2 ∷ pos 3 ∷ []

abbrev lengths : Position
lengths = pos 4 ∷ pos 5 ∷ []

abbrev box : Region
box = record { front = corner; back = pos 5 ∷ pos 7 ∷ [] }

made_box : from_shape corner lengths ≡ ok box
unfolding from_shape add subtract_scalar ◌+ℤ◌ ◌-ℤ◌
made_box = refl

size-box : size box ≡ ok (pos 20)
unfolding size subtract shape_size add_scalar ◌*ℤ◌ ◌+ℤ◌ ◌-ℤ◌
size-box = refl

box_opposite :
    opposite_region box
    ≡ record { front = negsuc 1 ∷ negsuc 2 ∷ []; back = negsuc 4 ∷ negsuc 6 ∷ [] }
unfolding opposite_region opposite ◌-ℤ◌
box_opposite = refl

from_shape-shape_example :
    (r : Region) × (from_shape corner lengths ≡ ok r) × (r.front ≡ corner) × (shape r ≡ ok lengths)
from_shape-shape_example = from_shape-shape corner lengths refl
