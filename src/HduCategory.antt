-- ===== src/HduCategory.antt =====
-- The class `HduCategory` of EleFitsData/EleFitsData/HduCategory.h and
-- EleFitsData/src/lib/HduCategory.cpp: an HDU category as a sequence of trinary flags.
pub mod Meaning
pub mod Lattice
pub mod Join
pub mod Types
mod Tests
pub mod Constants
use package.ele_fits.Prelude.{
  ℕ, zero, suc, Bool, true, false, not, ◌&&◌, Option, none, some, List, [], ◌∷◌, map, replicate,
  set, get_elem?, if◌then◌else◌, Failure, incompatible_trits, undefined_behaviour, Outcome, ok,
  fail, ◌>>=◌,
}

pub data Trit : Type 0 where
  unconstrained first second : Trit

pub data TritPosition : Type 0 where
  primary_ext metadata_data image_bintable int_float_image : TritPosition
  raw_compressed_image untouched_touched existed_created read_edited trit_count : TritPosition

-- `static_cast<int>` of a position.
abbrev pub position_index : TritPosition → ℕ
position_index primary_ext = 0
position_index metadata_data = 1
position_index image_bintable = 2
position_index int_float_image = 3
position_index raw_compressed_image = 4
position_index untouched_touched = 5
position_index existed_created = 6
position_index read_edited = 7
position_index trit_count = 8

-- The object is its only member, `m_mask`.
abbrev pub HduCategory : Type 0
HduCategory = List Trit

unfoldable pub unconstrained_category : HduCategory
unconstrained_category = replicate (position_index trit_count) unconstrained

unfoldable pub flag_category : TritPosition → Trit → HduCategory
unfolding unconstrained_category
flag_category position value = set unconstrained_category (position_index position) value

abbrev pub trit_eq : Trit → Trit → Bool
trit_eq unconstrained unconstrained = true
trit_eq first first = true
trit_eq second second = true
trit_eq _ _ = false

-- `operator==` of `std::vector<Trit>`.
unfoldable pub category_eq : HduCategory → HduCategory → Bool
category_eq [] [] = true
category_eq (x ∷ xs) (y ∷ ys) = trit_eq x y && category_eq xs ys
category_eq _ _ = false

pub category_ne : HduCategory → HduCategory → Bool
unfolding category_eq
category_ne lhs rhs = not (category_eq lhs rhs)

pub toggle_flag : Trit → Trit
toggle_flag first = second
toggle_flag second = first
toggle_flag unconstrained = unconstrained

pub restrict_flag : Trit → Trit → Outcome Trit
restrict_flag lhs rhs =
    if trit_eq lhs rhs
    then ok lhs
    else if trit_eq lhs unconstrained
    then ok rhs
    else if trit_eq rhs unconstrained
    then ok lhs
    else fail incompatible_trits

pub extend_flag : Trit → Trit → Outcome Trit
extend_flag lhs rhs = ok (if trit_eq lhs rhs then lhs else unconstrained)

pub overwrite_flag : Trit → Trit → Outcome Trit
overwrite_flag lhs rhs = ok (if trit_eq rhs unconstrained then lhs else rhs)

pub transform : (Trit → Trit) → HduCategory → HduCategory
transform op mask = map op mask

-- The object after a call that writes it in place, and the exception that the call left by.
abbrev pub InPlace : Type 0 → Type 0
InPlace A = A × Option Failure

-- `op` may throw: the flags before that position are written then. A `rhs` that is too short is
-- read past its end.
pub transform_with : (Trit → Trit → Outcome Trit) → HduCategory → HduCategory → InPlace HduCategory
transform_with op [] rhs = ([], none)
transform_with op (l ∷ ls) [] = (l ∷ ls, some undefined_behaviour)
transform_with op (l ∷ ls) (r ∷ rs) =
    let rest = transform_with op ls rs in
    elim (op l r) [ ok t ↦ (t ∷ rest.0, rest.1) | fail e ↦ (l ∷ ls, some e) ]

-- The value of `HduCategory res(*this); res op= rhs; return res;`.
abbrev pub finish {ℓ} : {A : Type ℓ} → A × Option Failure → Outcome A
finish (a, none) = ok a
finish (a, some e) = fail e

unfoldable pub toggle : HduCategory → HduCategory
unfolding transform toggle_flag
toggle c = transform toggle_flag c

pub restrict_assign : HduCategory → HduCategory → InPlace HduCategory
unfolding transform_with restrict_flag
restrict_assign lhs rhs = transform_with restrict_flag lhs rhs

unfoldable pub restrict : HduCategory → HduCategory → Outcome HduCategory
unfolding restrict_assign
restrict lhs rhs = finish (restrict_assign lhs rhs)

pub extend_assign : HduCategory → HduCategory → InPlace HduCategory
unfolding transform_with extend_flag
extend_assign lhs rhs = transform_with extend_flag lhs rhs

pub extend : HduCategory → HduCategory → Outcome HduCategory
unfolding extend_assign
extend lhs rhs = finish (extend_assign lhs rhs)

pub overwrite_assign : HduCategory → HduCategory → InPlace HduCategory
unfolding transform_with overwrite_flag
overwrite_assign lhs rhs = transform_with overwrite_flag lhs rhs

pub overwrite : HduCategory → HduCategory → Outcome HduCategory
unfolding overwrite_assign
overwrite lhs rhs = finish (overwrite_assign lhs rhs)

-- The handler catches `IncompatibleTrits` and nothing else.
abbrev pub catch_incompatible : Outcome Bool → Outcome Bool
catch_incompatible (fail incompatible_trits) = ok false
catch_incompatible outcome = outcome

unfoldable pub is_instance : HduCategory → HduCategory → Outcome Bool
unfolding restrict category_eq
is_instance c model = catch_incompatible (do both ← restrict c model; ok (category_eq both c))
