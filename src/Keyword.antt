-- ===== src/Keyword.antt =====
-- `KeywordCategory` of EleFitsData/EleFitsData/KeywordCategory.h and
-- EleFitsData/src/lib/KeywordCategory.cpp: which keywords of a header are mandatory, reserved,
-- comments or the user's.
pub mod Matching
pub mod Belonging
mod Tests
use package.ele_fits.Prelude.{
  ℕ, zero, suc, ◌-◌, ◌/◌, ◌%◌, Bool, true, false, not, ◌&&◌, ◌||◌, List, [], ◌∷◌, map, length, take,
  drop, leb, ◌==◌, if◌then◌else◌, Outcome, ok, fail, undefined_behaviour,
}
use Prim.Native.Char.{code}
use Prim.Native.String.{String}

-- A text by its codes, ASCII throughout.
abbrev pub Text : Type 0
Text = List ℕ

abbrev pub codes : String → Text
codes String.[] = []
codes (String.◌∷◌ c s) = code c ∷ codes s

abbrev pub text_eq : Text → Text → Bool
text_eq [] [] = true
text_eq (x ∷ xs) (y ∷ ys) = (x == y) && text_eq xs ys
text_eq _ _ = false

-- `m_category`, an `int` by its 32 bits, the lowest first.
abbrev pub KeywordCategory : Type 0
KeywordCategory = List Bool

abbrev pub bits : ℕ → ℕ → KeywordCategory
bits zero n = []
bits (suc width) n = (n % 2 == 1) ∷ bits width (n / 2)

-- `KeywordCategory(int)`
abbrev pub of_int : ℕ → KeywordCategory
of_int n = bits 32 n

unfoldable pub complement : KeywordCategory → KeywordCategory
complement c = map not c

abbrev pub mandatory : KeywordCategory
mandatory = of_int 1

abbrev pub reserved : KeywordCategory
reserved = of_int 2

abbrev pub comment : KeywordCategory
comment = of_int 4

abbrev pub user : KeywordCategory
user = of_int 8

abbrev pub no_category : KeywordCategory
no_category = of_int 0

unfoldable pub all_categories : KeywordCategory
unfolding complement
all_categories = complement no_category

-- operator|= and operator|
unfoldable pub either_category : KeywordCategory → KeywordCategory → KeywordCategory
either_category (a ∷ lhs) (b ∷ rhs) = (a || b) ∷ either_category lhs rhs
either_category _ _ = []

-- operator&= and operator&
unfoldable pub both_categories : KeywordCategory → KeywordCategory → KeywordCategory
both_categories (a ∷ lhs) (b ∷ rhs) = (a && b) ∷ both_categories lhs rhs
both_categories _ _ = []

-- `operator bool`
unfoldable pub is_some : KeywordCategory → Bool
is_some [] = false
is_some (bit ∷ rest) = bit || is_some rest

abbrev pub mandatories : List Text
mandatories = map codes (
    "SIMPLE" ∷ "BITPIX" ∷ "NAXIS" ∷ "NAXISn" ∷ "END" ∷ "XTENSION" ∷ "PCOUNT" ∷ "GCOUNT" ∷ "EXTEND"
    ∷ [])

abbrev pub reserveds : List Text
reserveds = map codes (
    "AUTHOR" ∷ "BLANK" ∷ "BLOCKED" ∷ "BSCALE" ∷ "BUNIT" ∷ "BZERO" ∷ "CDELTn" ∷ "CROTAn" ∷ "CRPIXn"
    ∷ "CRVALn" ∷ "CTYPEn" ∷ "DATAMAX" ∷ "DATAMIN" ∷ "DATE" ∷ "DATE-OBS" ∷ "EPOCH" ∷ "EQUINOX"
    ∷ "EXTLEVEL" ∷ "EXTNAME" ∷ "EXTVER" ∷ "GROUPS" ∷ "INSTRUME" ∷ "OBJECT" ∷ "OBSERVER" ∷ "ORIGIN"
    ∷ "PSCALn" ∷ "PTYPEn" ∷ "PZEROn" ∷ "REFERENC" ∷ "TBCOLn" ∷ "TDIMn" ∷ "TDISPn" ∷ "TELESCOP"
    ∷ "TFIELDS" ∷ "TFORMn" ∷ "THEAP" ∷ "TNULLn" ∷ "TSCALn" ∷ "TTYPEn" ∷ "TUNITn" ∷ "TZEROn" ∷ [])

abbrev pub comments : List Text
comments = map codes ("COMMENT" ∷ "HISTORY" ∷ [])

-- `byCategory`, in the order of the keys of the map.
abbrev pub by_category : List (KeywordCategory × List Text)
by_category = (mandatory, mandatories) ∷ (reserved, reserveds) ∷ (comment, comments) ∷ []

abbrev pub is_digit : ℕ → Bool
is_digit c = leb 48 c && leb c 57

unfoldable pub all_digits : Text → Bool
all_digits [] = true
all_digits (c ∷ cs) = let rest = all_digits cs in if not (is_digit c) then false else rest

-- `split` is the length of `ref` less one, the largest `size_t` for an empty `ref`.
unfoldable pub matches_indexed : Text → Text → Bool
unfolding all_digits
matches_indexed test [] = false
matches_indexed test (r ∷ ref) =
    let split = length (r ∷ ref) - 1 in
    let name = take split test in
    let index = drop split test in
    if leb (length test) split
    then false
    else if not (text_eq name (take split (r ∷ ref)))
    then false
    else if length index == 0
    then false
    else all_digits index

unfoldable pub matches : Text → Text → Bool
unfolding matches_indexed
matches test ref = if text_eq test ref then true else matches_indexed test ref

unfoldable pub matches_one_of : Text → List Text → Bool
unfolding matches
matches_one_of keyword [] = false
matches_one_of keyword (ref ∷ refs) = matches keyword ref || matches_one_of keyword refs

-- The first loop of `belongsCategories`, over the selected standard categories.
unfoldable pub in_selected : Text → KeywordCategory → List (KeywordCategory × List Text) → Bool
unfolding both_categories is_some matches_one_of
in_selected keyword categories [] = false
in_selected keyword categories ((key, refs) ∷ rest) =
    let later = in_selected keyword categories rest in
    if is_some (both_categories categories key)
    then (if matches_one_of keyword refs then true else later)
    else later

-- The second loop: no standard category matches.
unfoldable pub in_none : Text → List (KeywordCategory × List Text) → Bool
unfolding matches_one_of
in_none keyword [] = true
in_none keyword ((key, refs) ∷ rest) =
    let later = in_none keyword rest in if matches_one_of keyword refs then false else later

unfoldable pub belongs_categories : Text → KeywordCategory → Bool
unfolding in_selected in_none
belongs_categories keyword categories =
    if text_eq keyword (codes "CONTINUE")
    then false
    else if in_selected keyword categories by_category
    then true
    else if is_some (both_categories categories user)
    then in_none keyword by_category
    else false

-- `copy_if` into an empty vector: the first copy is a write past its end.
unfoldable pub filter_categories : List Text → KeywordCategory → Outcome (List Text)
unfolding belongs_categories
filter_categories [] categories = ok []
filter_categories (k ∷ ks) categories =
    let rest = filter_categories ks categories in
    if belongs_categories k categories then fail undefined_behaviour else rest
