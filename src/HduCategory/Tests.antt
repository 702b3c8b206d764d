-- ===== src/HduCategory/Tests.antt =====
-- Runs of the category operators, and their theorems at concrete masks.
use ele_fits.Prelude.{◌≡◌, refl, ◌↔◌, [], ◌∷◌, true, ok, fail, incompatible_trits, Bool}
use ele_fits.HduCategory.{
  HduCategory, unconstrained, first, second, restrict, extend, toggle, is_instance,
}
use ele_fits.HduCategory.Meaning.{Included}
use ele_fits.HduCategory.Lattice.{Meets, restrict-Meets, is_instance-Included}
use ele_fits.HduCategory.Join.{extend-least}
use ele_fits.HduCategory.Constants.{image, image_ext, float_primary, raw_image, created}

abbrev raw_image_mask : HduCategory
raw_image_mask =
    unconstrained ∷ unconstrained ∷ first ∷ unconstrained ∷ first ∷ unconstrained ∷ unconstrained
    ∷ unconstrained ∷ []

abbrev image_ext_mask : HduCategory
image_ext_mask =
    second ∷ unconstrained ∷ first ∷ unconstrained ∷ unconstrained ∷ unconstrained ∷ unconstrained
    ∷ unconstrained ∷ []

abbrev float_primary_mask : HduCategory
float_primary_mask =
    first ∷ unconstrained ∷ first ∷ second ∷ unconstrained ∷ unconstrained ∷ unconstrained
    ∷ unconstrained ∷ []

raw_image_test : raw_image ≡ ok raw_image_mask
unfolding raw_image
raw_image_test = refl

image_ext_test : image_ext ≡ ok image_ext_mask
unfolding image_ext
image_ext_test = refl

float_primary_test : float_primary ≡ ok float_primary_mask
unfolding float_primary
float_primary_test = refl

created_test :
    created
    ≡ ok (
        unconstrained ∷ unconstrained ∷ unconstrained ∷ unconstrained ∷ unconstrained
        ∷ unconstrained ∷ second ∷ second ∷ [])
unfolding created
created_test = refl

-- The formula `ImageExt & ~FloatPrimary` of the class documentation throws.
documented_formula : restrict image_ext_mask (toggle float_primary_mask) ≡ fail incompatible_trits
unfolding restrict toggle
documented_formula = refl

raw_image_is_image : is_instance raw_image_mask image ≡ ok true
unfolding is_instance image
raw_image_is_image = refl

restrict-Meets_example :
    Meets raw_image_mask image_ext_mask (restrict raw_image_mask image_ext_mask)
restrict-Meets_example = restrict-Meets raw_image_mask image_ext_mask refl

is_instance-Included_example :
    (answer : Bool) × (is_instance image_ext_mask raw_image_mask ≡ ok answer)
    × ((answer ≡ true) ↔ Included image_ext_mask raw_image_mask)
is_instance-Included_example = is_instance-Included image_ext_mask raw_image_mask refl

extend-least_example :
    (m : HduCategory) × (extend raw_image_mask image_ext_mask ≡ ok m)
    × Included raw_image_mask m
    × Included image_ext_mask m
    × ((c : HduCategory) → Included raw_image_mask c → Included image_ext_mask c → Included m c)
extend-least_example = extend-least raw_image_mask image_ext_mask refl
