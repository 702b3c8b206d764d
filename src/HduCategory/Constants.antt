-- ===== src/HduCategory/Constants.antt =====
-- The predefined categories, and the functions that return them: the static members of
-- `HduCategory`, `type` and `forClass`. A member whose initialiser could throw is an outcome.
use ele_fits.Prelude.{Outcome, ok, ◌>>=◌, none, some, fail, undefined_behaviour, get_elem?}
use ele_fits.HduCategory.{
  HduCategory, unconstrained, first, second, primary_ext, metadata_data, image_bintable,
  int_float_image, raw_compressed_image, untouched_touched, existed_created, read_edited,
  position_index, unconstrained_category, flag_category, toggle, restrict,
}

unfoldable pub any : HduCategory
unfolding unconstrained_category
any = unconstrained_category

unfoldable pub image : HduCategory
unfolding flag_category
image = flag_category image_bintable first

unfoldable pub primary : Outcome HduCategory
unfolding image restrict
primary = restrict image (flag_category primary_ext first)

unfoldable pub metadata : HduCategory
unfolding flag_category
metadata = flag_category metadata_data first

unfoldable pub int_image : Outcome HduCategory
unfolding image restrict
int_image = restrict image (flag_category int_float_image first)

unfoldable pub raw_image : Outcome HduCategory
unfolding image restrict
raw_image = restrict image (flag_category raw_compressed_image first)

unfoldable pub ext : HduCategory
unfolding flag_category
ext = flag_category primary_ext second

-- The static member `Data`.
unfoldable pub data_hdu : HduCategory
unfolding metadata toggle
data_hdu = toggle metadata

unfoldable pub bintable : Outcome HduCategory
unfolding image ext toggle restrict
bintable = restrict ext (toggle image)

unfoldable pub float_image : Outcome HduCategory
unfolding image restrict
float_image = restrict image (flag_category int_float_image second)

unfoldable pub compressed_image_ext : Outcome HduCategory
unfolding image restrict
compressed_image_ext = restrict image (flag_category raw_compressed_image second)

unfoldable pub metadata_primary : Outcome HduCategory
unfolding metadata primary
metadata_primary = do p ← primary; restrict metadata p

unfoldable pub data_primary : Outcome HduCategory
unfolding data_hdu primary
data_primary = do p ← primary; restrict data_hdu p

unfoldable pub int_primary : Outcome HduCategory
unfolding int_image primary
int_primary = do i ← int_image; p ← primary; restrict i p

unfoldable pub float_primary : Outcome HduCategory
unfolding float_image primary
float_primary = do i ← float_image; p ← primary; restrict i p

unfoldable pub image_ext : Outcome HduCategory
unfolding image ext restrict
image_ext = restrict image ext

unfoldable pub metadata_ext : Outcome HduCategory
unfolding metadata ext restrict
metadata_ext = restrict metadata ext

unfoldable pub data_ext : Outcome HduCategory
unfolding data_hdu ext restrict
data_ext = restrict data_hdu ext

unfoldable pub int_image_ext : Outcome HduCategory
unfolding int_image ext
int_image_ext = do i ← int_image; restrict i ext

unfoldable pub float_image_ext : Outcome HduCategory
unfolding float_image ext
float_image_ext = do i ← float_image; restrict i ext

unfoldable pub untouched : HduCategory
unfolding flag_category
untouched = flag_category untouched_touched first

unfoldable pub touched : HduCategory
unfolding untouched toggle
touched = toggle untouched

unfoldable pub existed : HduCategory
unfolding flag_category
existed = flag_category existed_created first

unfoldable pub only_read : Outcome HduCategory
unfolding touched restrict
only_read = restrict touched (flag_category read_edited first)

unfoldable pub edited : HduCategory
unfolding flag_category
edited = flag_category read_edited second

unfoldable pub created : Outcome HduCategory
unfolding existed edited toggle restrict
created = restrict (toggle existed) edited

-- The classes that `forClass` is specialised for.
pub data HandlerClass : Type 0 where
  hdu_class header_class image_hdu_class image_raster_class : HandlerClass
  bintable_hdu_class bintable_columns_class : HandlerClass

unfoldable pub for_class : HandlerClass → Outcome HduCategory
unfolding any image bintable
for_class hdu_class = ok any
for_class header_class = ok any
for_class image_hdu_class = ok image
for_class image_raster_class = ok image
for_class bintable_hdu_class = bintable
for_class bintable_columns_class = bintable

-- The member function `type`; a mask that is too short is read past its end.
unfoldable pub type_of : HduCategory → Outcome HduCategory
unfolding image bintable unconstrained_category
type_of c = elim (get_elem? c (position_index image_bintable)) [
  | none ↦ fail undefined_behaviour
  | some first ↦ ok image
  | some second ↦ bintable
  | some unconstrained ↦ ok unconstrained_category
]
