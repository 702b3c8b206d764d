-- ===== src/HduFilter.antt =====
-- The class `HduFilter` of EleFitsData/EleFitsData/HduCategory.h and
-- EleFitsData/src/lib/HduCategory.cpp: lists of accepted and of rejected categories.
pub mod Accepts
pub mod Operators
mod Tests
use package.ele_fits.Prelude.{
  Bool, true, false, Option, none, some, List, [], ◌∷◌, ◌++◌, Outcome, ok, fail, ◌>>=◌,
  if◌then◌else◌,
}
use package.ele_fits.HduCategory.{HduCategory, InPlace, finish, restrict_assign, is_instance}

pub record HduFilter : Type 0 where
  pub accept : List HduCategory
  pub reject : List HduCategory

pub of_category : HduCategory → HduFilter
of_category c = record { accept = c ∷ []; reject = [] }

-- `operator+=` and `operator+`
pub add_accept : HduFilter → HduCategory → HduFilter
add_accept f c = record f { accept = f.accept ++ (c ∷ []) }

-- `operator-=` and `operator-`
pub add_reject : HduFilter → HduCategory → HduFilter
add_reject f c = record f { reject = f.reject ++ (c ∷ []) }

-- Unary `operator-`
pub negate : HduFilter → HduFilter
negate f = record { accept = f.reject; reject = f.accept }

-- The free operators on two categories, and on one.
pub accept_both : HduCategory → HduCategory → HduFilter
accept_both lhs rhs = record { accept = lhs ∷ rhs ∷ []; reject = [] }

pub accept_but : HduCategory → HduCategory → HduFilter
accept_but lhs rhs = record { accept = lhs ∷ []; reject = rhs ∷ [] }

pub accept_only : HduCategory → HduFilter
accept_only rhs = record { accept = rhs ∷ []; reject = [] }

pub reject_only : HduCategory → HduFilter
reject_only rhs = record { accept = []; reject = rhs ∷ [] }

-- The list after `first &= constraint`, and after the rounds that follow if that did not throw.
abbrev pub after_first :
    InPlace HduCategory → List HduCategory → InPlace (List HduCategory) → InPlace (List HduCategory)
after_first (a, some e) old rest = (a ∷ old, some e)
after_first (a, none) old (new, outcome) = (a ∷ new, outcome)

-- The loop of `operator*=` and `operator/=`: `a &= constraint` for each `a`, until one throws.
pub restrict_all : HduCategory → List HduCategory → InPlace (List HduCategory)
restrict_all constraint [] = ([], none)
restrict_all constraint (a ∷ rest) =
    after_first (restrict_assign a constraint) rest (restrict_all constraint rest)

-- `operator*=`
pub constrain_accept_assign : HduFilter → HduCategory → InPlace HduFilter
unfolding restrict_all
constrain_accept_assign f c =
    let (new, outcome) = restrict_all c f.accept in (record f { accept = new }, outcome)

-- `operator*`
pub constrain_accept : HduFilter → HduCategory → Outcome HduFilter
unfolding constrain_accept_assign
constrain_accept f c = finish (constrain_accept_assign f c)

-- `operator/=`
pub constrain_reject_assign : HduFilter → HduCategory → InPlace HduFilter
unfolding restrict_all
constrain_reject_assign f c =
    let (new, outcome) = restrict_all c f.reject in (record f { reject = new }, outcome)

-- `operator/`
pub constrain_reject : HduFilter → HduCategory → Outcome HduFilter
unfolding constrain_reject_assign
constrain_reject f c = finish (constrain_reject_assign f c)

-- A loop of `accepts`: whether `input` is an instance of some category of the list.
pub any_instance : HduCategory → List HduCategory → Outcome Bool
unfolding is_instance
any_instance input [] = ok false
any_instance input (c ∷ rest) =
    let later = any_instance input rest in
    do found ← is_instance input c; if found then ok true else later

abbrev pub is_empty : List HduCategory → Bool
is_empty [] = true
is_empty (c ∷ rest) = false

unfoldable pub accepts : HduFilter → HduCategory → Outcome Bool
unfolding any_instance
accepts f input = do
  rejected ← any_instance input f.reject
  if rejected then ok false else if is_empty f.accept then ok true else any_instance input f.accept
