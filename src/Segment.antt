-- ===== src/Segment.antt =====
-- `Segment` of EleFitsData/EleFitsData/Segment.h: an interval of rows by its front and back, both
-- inclusive. A negative bound is a marker that is resolved later.
use package.ele_fits.Prelude.{Bool, not, ◌&&◌, ◌||◌}
use package.ele_fits.Prelude.Int.{ℤ, pos, negsuc, ◌+ℤ◌, ◌-ℤ◌, ◌==ℤ◌}

pub record Segment : Type 0 where
  pub front : ℤ
  pub back : ℤ

unfoldable pub from_size : ℤ → ℤ → Segment
from_size front size = record { front = front; back = front +ℤ size -ℤ pos 1 }

abbrev pub whole_segment : Segment
whole_segment = record { front = pos 0; back = negsuc 0 }

unfoldable pub segment_size : Segment → ℤ
segment_size s = s.back -ℤ s.front +ℤ pos 1

unfoldable pub segment_eq : Segment → Segment → Bool
segment_eq lhs rhs = (lhs.front ==ℤ rhs.front) && (lhs.back ==ℤ rhs.back)

unfoldable pub segment_ne : Segment → Segment → Bool
segment_ne lhs rhs = not (lhs.front ==ℤ rhs.front) || not (lhs.back ==ℤ rhs.back)

-- operator+= and operator+
unfoldable pub shift_segment : Segment → ℤ → Segment
shift_segment lhs rhs = record { front = lhs.front +ℤ rhs; back = lhs.back +ℤ rhs }

-- operator-= and operator-
unfoldable pub shift_segment_back : Segment → ℤ → Segment
shift_segment_back lhs rhs = record { front = lhs.front -ℤ rhs; back = lhs.back -ℤ rhs }

-- ++s and --s
unfoldable pub increment_segment : Segment → Segment
unfolding shift_segment
increment_segment lhs = shift_segment lhs (pos 1)

unfoldable pub decrement_segment : Segment → Segment
unfolding shift_segment_back
decrement_segment lhs = shift_segment_back lhs (pos 1)

-- s++ and s--: the segment after the call, and the result.
unfoldable pub post_increment_segment : Segment → Segment × Segment
unfolding increment_segment
post_increment_segment lhs = (increment_segment lhs, lhs)

unfoldable pub post_decrement_segment : Segment → Segment × Segment
unfolding decrement_segment
post_decrement_segment lhs = (decrement_segment lhs, lhs)

-- - s
unfoldable pub opposite_segment : Segment → Segment
opposite_segment rhs = record { front = pos 0 -ℤ rhs.front; back = pos 0 -ℤ rhs.back }
