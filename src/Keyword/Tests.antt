-- ===== src/Keyword/Tests.antt =====
-- Keywords, and the theorems on them.
use ele_fits.Prelude.{◌≡◌, refl, ◌↔◌, ◌⊎◌, true}
use ele_fits.Keyword.{
  Text, codes, mandatory, reserved, user, either_category, belongs_categories, matches,
}
use ele_fits.Keyword.Matching.{Indexed, matches_iff}

abbrev naxis2 : Text
naxis2 = codes "NAXIS2"

abbrev my_key : Text
my_key = codes "MYKEY"

belongs_categories-naxis2 : belongs_categories naxis2 mandatory ≡ true
unfolding belongs_categories
belongs_categories-naxis2 = refl

belongs_categories-my_key : belongs_categories my_key (either_category reserved user) ≡ true
unfolding belongs_categories either_category
belongs_categories-my_key = refl

-- The last character of a reference need not be an n.
belongs_categories-dat1 : belongs_categories (codes "DAT1") reserved ≡ true
unfolding belongs_categories
belongs_categories-dat1 = refl

matches_iff_example :
    (matches naxis2 (codes "NAXISn") ≡ true)
    ↔ ((naxis2 ≡ codes "NAXISn") ⊎ Indexed naxis2 (codes "NAXISn"))
matches_iff_example = matches_iff naxis2 (codes "NAXISn")
