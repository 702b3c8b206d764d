-- ===== src/HduFilter/Tests.antt =====
-- Runs of the filters, and their theorems at concrete filters.
use ele_fits.Prelude.{◌≡◌, refl, ◌↔◌, [], ◌∷◌, true, false, ok}
use ele_fits.HduCategory.{HduCategory, unconstrained, first, second}
use ele_fits.HduCategory.Meaning.{Included}
use ele_fits.HduFilter.{HduFilter, add_reject, accepts, constrain_accept}
use ele_fits.HduFilter.Accepts.{Passes, Decides, accepts-Passes}
use ele_fits.HduFilter.Operators.{ConstrainedBy, constrain_accept-ConstrainedBy, add_reject-Passes}

abbrev ext_mask : HduCategory
ext_mask = second ∷ unconstrained ∷ []

abbrev data_mask : HduCategory
data_mask = unconstrained ∷ second ∷ []

abbrev data_ext_mask : HduCategory
data_ext_mask = second ∷ second ∷ []

abbrev ext_but_data : HduFilter
ext_but_data = record { accept = ext_mask ∷ []; reject = data_mask ∷ [] }

abbrev not_data : HduFilter
not_data = record { accept = []; reject = data_mask ∷ [] }

rejects_data_ext : accepts ext_but_data data_ext_mask ≡ ok false
unfolding accepts
rejects_data_ext = refl

accepts_metadata_ext : accepts ext_but_data (second ∷ first ∷ []) ≡ ok true
unfolding accepts
accepts_metadata_ext = refl

-- A constraint on a filter with no accepted category is dropped.
constraint_dropped : constrain_accept not_data ext_mask ≡ ok not_data
unfolding constrain_accept
constraint_dropped = refl

accepts-Passes_example :
    Decides (accepts ext_but_data data_ext_mask) (Passes ext_but_data data_ext_mask)
accepts-Passes_example =
    accepts-Passes ext_but_data data_ext_mask
      (record { accept_sizes = (refl, tt); reject_sizes = (refl, tt) })

constrain_accept-ConstrainedBy_example :
    ConstrainedBy ext_but_data data_mask (constrain_accept ext_but_data data_mask)
constrain_accept-ConstrainedBy_example =
    constrain_accept-ConstrainedBy ext_but_data data_mask (refl, tt)

add_reject-Passes_example :
    Passes (add_reject ext_but_data ext_mask) data_ext_mask
    ↔ (Passes ext_but_data data_ext_mask × ¬ Included data_ext_mask ext_mask)
add_reject-Passes_example = add_reject-Passes ext_but_data ext_mask data_ext_mask
