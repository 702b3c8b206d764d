-- ===== src/Position.antt =====
-- `Position<N>` of EleFitsData/EleFitsData/Position.h and impl/Position.hpp, with the operators that
-- it takes from EleFitsData/EleFitsData/impl/VectorArithmetic.hpp at `T = long`.
pub mod Laws
use package.ele_fits.Prelude.{
  ℕ, zero, suc, ◌+◌, ◌*◌, Bool, true, false, not, ◌&&◌, List, [], ◌∷◌, map, length, replicate, take,
  leb, ◌==◌, if◌then◌else◌, Outcome, ok, fail, undefined_behaviour, ◌>>=◌,
}
use package.ele_fits.Prelude.Int.{ℤ, pos, negsuc, pos_part, neg_part, ◌+ℤ◌, ◌-ℤ◌, ◌*ℤ◌, ◌==ℤ◌}

-- The coordinates. `N` is a parameter of the functions that read it; the length of the list is `N`
-- where `N` is not negative, and any number where `N` is -1.
abbrev pub Position : Type 0
Position = List ℤ

-- `std::abs` of a template parameter.
abbrev pub abs : ℤ → ℕ
abs n = pos_part n + neg_part n

unfoldable pub origin : ℤ → Position
origin n = replicate (abs n) (pos 0)

unfoldable pub one : ℤ → Position
one n = replicate (abs n) (pos 1)

unfoldable pub max : ℤ → Position
max n = replicate (abs n) (negsuc 0)

unfoldable pub is_zero : Position → Bool
is_zero [] = true
is_zero (i ∷ rest) = let later = is_zero rest in if not (i ==ℤ pos 0) then false else later

unfoldable pub is_max : Position → Bool
is_max [] = true
is_max (i ∷ rest) = let later = is_max rest in if not (i ==ℤ negsuc 0) then false else later

-- `operator==` of `ContiguousContainerMixin`.
unfoldable pub position_eq : Position → Position → Bool
position_eq [] [] = true
position_eq (x ∷ xs) (y ∷ ys) = (x ==ℤ y) && position_eq xs ys
position_eq _ _ = false

-- `slice<M>()` reads past the end of a shorter position.
unfoldable pub slice : ℕ → Position → Outcome Position
slice m p = if leb m (length p) then ok (take m p) else fail undefined_behaviour

-- `extend(padding)` writes past the end of a shorter padding.
unfoldable pub extend : Position → Position → Outcome Position
extend [] padding = ok padding
extend (x ∷ xs) [] = fail undefined_behaviour
extend (x ∷ xs) (d ∷ padding) = do rest ← extend xs padding; ok (x ∷ rest)

-- `std::transform` of two containers: one step for each element of the first.
unfoldable pub transform_pair : (ℤ → ℤ → ℤ) → Position → Position → Outcome Position
transform_pair op [] rhs = ok []
transform_pair op (l ∷ ls) [] = fail undefined_behaviour
transform_pair op (l ∷ ls) (r ∷ rs) = do rest ← transform_pair op ls rs; ok (op l r ∷ rest)

-- V += U and V + U
unfoldable pub add : Position → Position → Outcome Position
unfolding transform_pair
add lhs rhs = transform_pair (λ l r. l +ℤ r) lhs rhs

-- V -= U and V - U
unfoldable pub subtract : Position → Position → Outcome Position
unfolding transform_pair
subtract lhs rhs = transform_pair (λ l r. l -ℤ r) lhs rhs

-- V += a and V + a
unfoldable pub add_scalar : Position → ℤ → Position
add_scalar lhs a = map (λ l. l +ℤ a) lhs

-- V -= a and V - a
unfoldable pub subtract_scalar : Position → ℤ → Position
subtract_scalar lhs a = map (λ l. l -ℤ a) lhs

-- V *= a and V * a
unfoldable pub multiply_scalar : Position → ℤ → Position
multiply_scalar lhs a = map (λ l. l *ℤ a) lhs

-- - V
unfoldable pub opposite : Position → Position
opposite v = map (λ r. pos 0 -ℤ r) v

-- ++V and --V
unfoldable pub increment : Position → Position
increment v = map (λ r. r +ℤ pos 1) v

unfoldable pub decrement : Position → Position
decrement v = map (λ r. r -ℤ pos 1) v

unfoldable pub accumulate_product : ℤ → Position → ℤ
accumulate_product acc [] = acc
accumulate_product acc (s ∷ rest) = accumulate_product (acc *ℤ s) rest

-- `shapeSize`
unfoldable pub shape_size : Position → ℤ
unfolding accumulate_product
shape_size shape = if length shape == 0 then pos 0 else accumulate_product (pos 1) shape
