-- ===== src/Keyword/Belonging.antt =====
-- A keyword belongs to categories.
use ele_fits.Prelude.{
  ◌≡◌, refl, Bool, true, false, not, ◌&&◌, ◌||◌, List, [], ◌∷◌, ◌++◌, length, if◌then◌else◌, arith,
  Outcome, fail, undefined_behaviour,
}
use ele_fits.Keyword.{
  Text, codes, text_eq, KeywordCategory, mandatory, reserved, comment, user, all_categories,
  either_category, both_categories, is_some, by_category, mandatories, reserveds, comments,
  matches_one_of, in_selected, in_none, belongs_categories, filter_categories,
}

-- Two categories of one width share a bit with a third exactly when one of them does.
is_some-either :
    (a b key : KeywordCategory)
    → length a ≡ length b
    → is_some (both_categories (either_category a b) key)
      ≡ (is_some (both_categories a key) || is_some (both_categories b key))
unfolding is_some both_categories either_category
is_some-either [] [] key h = refl
is_some-either [] (y ∷ b) key h = absurd (omega arith)
is_some-either (x ∷ a) [] key h = absurd (omega arith)
is_some-either (x ∷ a) (y ∷ b) [] h = refl
is_some-either (x ∷ a) (y ∷ b) (k ∷ key) h =
    rw (is_some-either a b key (omega arith)) (by_bits x y k _ _)
  where
    by_bits :
        (x y k p q : Bool) → (((x || y) && k) || (p || q)) ≡ (((x && k) || p) || ((y && k) || q))
    by_bits x y k p q = ground arith

in_selected-either :
    (keyword : Text) (a b : KeywordCategory) (standards : List (KeywordCategory × List Text))
    → length a ≡ length b
    → in_selected keyword (either_category a b) standards
      ≡ (in_selected keyword a standards || in_selected keyword b standards)
unfolding in_selected
in_selected-either keyword a b [] h = refl
in_selected-either keyword a b ((key, refs) ∷ rest) h =
    rw (is_some-either a b key h, in_selected-either keyword a b rest h)
      (by_test (is_some (both_categories a key)) (is_some (both_categories b key))
        (matches_one_of keyword refs) _ _)
  where
    by_test :
        (s t m p q : Bool)
        → (if s || t then (if m then true else p || q) else p || q) ≡ (
            (if s then (if m then true else p) else p)
            || (if t then (if m then true else q) else q))
    by_test true true true p q = refl
    by_test true true false p q = refl
    by_test true false true p q = refl
    by_test true false false p q = refl
    by_test false true true true q = refl
    by_test false true true false q = refl
    by_test false true false p q = refl
    by_test false false m p q = refl

-- Categories of one width: a keyword belongs to `a | b` exactly when it belongs to `a` or to `b`.
pub belongs_categories-either :
    (keyword : Text) (a b : KeywordCategory)
    → length a ≡ length b
    → belongs_categories keyword (either_category a b)
      ≡ (belongs_categories keyword a || belongs_categories keyword b)
unfolding belongs_categories
belongs_categories-either keyword a b h =
    rw (in_selected-either keyword a b by_category h, is_some-either a b user h)
      (by_test (text_eq keyword (codes "CONTINUE")) (in_selected keyword a by_category)
        (in_selected keyword b by_category) (is_some (both_categories a user))
        (is_some (both_categories b user)) (in_none keyword by_category))
  where
    by_test :
        (c p q s t n : Bool)
        → (if c then false else if p || q then true else if s || t then n else false) ≡ (
            (if c then false else if p then true else if s then n else false)
            || (if c then false else if q then true else if t then n else false))
    by_test c p q s t n = ground arith

abbrev pub standard : KeywordCategory
standard = either_category (either_category mandatory reserved) comment

-- A keyword belongs to `User` exactly when it is not CONTINUE and belongs to none of the standard
-- categories.
pub belongs_categories-user :
    (keyword : Text)
    → belongs_categories keyword user
      ≡ (not (text_eq keyword (codes "CONTINUE")) && not (belongs_categories keyword standard))
unfolding belongs_categories either_category
belongs_categories-user keyword =
    by_test (text_eq keyword (codes "CONTINUE")) (matches_one_of keyword mandatories)
      (matches_one_of keyword reserveds) (matches_one_of keyword comments)
  where
    by_test :
        (c p q r : Bool)
        → (if c then false else if p then false else if q then false else if r then false else true)
          ≡ (not c
              && not (
                  if c
                  then false
                  else if (if p then true else if q then true else if r then true else false)
                  then true
                  else false))
    by_test c p q r = ground arith

-- Every keyword but CONTINUE belongs to `All`.
pub belongs_categories-all :
    (keyword : Text)
    → belongs_categories keyword all_categories ≡ not (text_eq keyword (codes "CONTINUE"))
unfolding belongs_categories all_categories
belongs_categories-all keyword =
    by_test (text_eq keyword (codes "CONTINUE")) (matches_one_of keyword mandatories)
      (matches_one_of keyword reserveds) (matches_one_of keyword comments)
  where
    by_test :
        (c p q r : Bool)
        → (if c
            then false
            else if (if p then true else if q then true else if r then true else false)
            then true
            else if p
            then false
            else if q
            then false
            else if r
            then false
            else true)
          ≡ not c
    by_test c p q r = ground arith

-- `filterCategories` writes past the end of its result whenever a keyword of the list belongs to
-- the categories.
pub filter_categories-undefined :
    (before after : List Text) (k : Text) (categories : KeywordCategory)
    → belongs_categories k categories ≡ true
    → filter_categories (before ++ (k ∷ after)) categories ≡ fail undefined_behaviour
unfolding filter_categories
filter_categories-undefined [] after k categories h = rw h
filter_categories-undefined (b ∷ before) after k categories h =
    rw (filter_categories-undefined before after k categories h)
      (either_way (belongs_categories b categories))
  where
    either_way :
        (t : Bool)
        → (if t then fail undefined_behaviour else fail undefined_behaviour)
          ≡ (let failed : Outcome (List Text) = fail undefined_behaviour in failed)
    either_way true = refl
    either_way false = refl
