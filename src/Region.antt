-- ===== src/Region.antt =====
-- `Region<N>` of EleFitsData/EleFitsData/Region.h: a box by its front and back positions, both
-- inclusive.
pub mod Shape
mod Tests
use package.ele_fits.Prelude.{ℕ, Bool, not, ◌&&◌, ◌||◌, List, [], ◌∷◌, length, Outcome, ok, ◌>>=◌}
use package.ele_fits.Prelude.Int.{ℤ, pos}
use package.ele_fits.Position.{
  Position, origin, max, position_eq, add, subtract, add_scalar, subtract_scalar, opposite,
  shape_size,
}

pub record Region : Type 0 where
  pub front : Position
  pub back : Position

unfoldable pub from_shape : Position → Position → Outcome Region
from_shape front_position shape = do
  back ← add front_position (subtract_scalar shape (pos 1))
  ok (record { front = front_position; back = back })

unfoldable pub whole : ℤ → Region
whole n = record { front = origin n; back = max n }

unfoldable pub shape : Region → Outcome Position
shape r = do extent ← subtract r.back r.front; ok (add_scalar extent (pos 1))

unfoldable pub dimension : Region → ℕ
dimension r = length r.front

unfoldable pub size : Region → Outcome ℤ
unfolding shape
size r = do s ← shape r; ok (shape_size s)

unfoldable pub region_eq : Region → Region → Bool
region_eq lhs rhs = position_eq lhs.front rhs.front && position_eq lhs.back rhs.back

unfoldable pub region_ne : Region → Region → Bool
region_ne lhs rhs = not (position_eq lhs.front rhs.front) || not (position_eq lhs.back rhs.back)

-- operator+= and operator+ with a position
unfoldable pub add_position : Region → Position → Outcome Region
add_position lhs rhs = do
  front ← add lhs.front rhs
  back ← add lhs.back rhs
  ok (record { front = front; back = back })

-- operator-= and operator- with a position
unfoldable pub subtract_position : Region → Position → Outcome Region
subtract_position lhs rhs = do
  front ← subtract lhs.front rhs
  back ← subtract lhs.back rhs
  ok (record { front = front; back = back })

-- operator+= and operator+ with a scalar
unfoldable pub shift : Region → ℤ → Region
shift lhs rhs = record { front = add_scalar lhs.front rhs; back = add_scalar lhs.back rhs }

-- operator-= and operator- with a scalar
unfoldable pub shift_back : Region → ℤ → Region
shift_back lhs rhs = record {
  front = subtract_scalar lhs.front rhs;
  back = subtract_scalar lhs.back rhs;
}

-- ++r and --r
unfoldable pub pre_increment : Region → Region
unfolding shift
pre_increment lhs = shift lhs (pos 1)

unfoldable pub pre_decrement : Region → Region
unfolding shift_back
pre_decrement lhs = shift_back lhs (pos 1)

-- r++ and r--: the region after the call, and the result.
unfoldable pub post_increment : Region → Region × Region
unfolding pre_increment
post_increment lhs = (pre_increment lhs, lhs)

unfoldable pub post_decrement : Region → Region × Region
unfolding pre_decrement
post_decrement lhs = (pre_decrement lhs, lhs)

-- - r
unfoldable pub opposite_region : Region → Region
opposite_region rhs = record { front = opposite rhs.front; back = opposite rhs.back }
