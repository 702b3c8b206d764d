-- ===== src/Hdu.antt =====
-- The handles of HDUs: `Hdu` (EleFits/EleFits/Hdu.h, EleFits/src/lib/Hdu.cpp), and what `ImageHdu`
-- and `BintableHdu` (EleFits/src/lib/ImageHdu.cpp, BintableHdu.cpp) and `ImageRaster`
-- (EleFits/EleFits/impl/ImageRaster.hpp, EleFits/src/lib/ImageRaster.cpp) add to their state.
pub mod Life
pub mod Flags
pub mod Reports
mod Tests
use package.ele_fits.Prelude.{
  Bool, true, false, ◌||◌, if◌then◌else◌, Outcome, ok, fail, ◌>>=◌, ◌>>◌,
}
use package.ele_fits.Prelude.Int.{ℤ, pos, ◌+ℤ◌, ◌==ℤ◌}
use package.ele_fits.Position.{Position, shape_size}
use package.ele_fits.HduCategory.{HduCategory, category_eq, restrict}
use package.ele_fits.HduCategory.Constants.{
  image, bintable, primary, ext, metadata, data_hdu, float_image, int_image, compressed_image_ext,
  raw_image, untouched, touched, edited,
}
use package.ele_fits.HduFilter.{HduFilter, accepts}

-- The class of the handle, which selects the override of `category`.
pub data Handler : Type 0 where
  plain_handler image_handler bintable_handler : Handler

pub record Hdu : Type 0 where
  pub handler : Handler
  pub cfitsio_index : ℤ
  pub type : HduCategory
  pub status : HduCategory

-- What CFITSIO reads in the current HDU.
pub record Contents : Type 0 where
  pub dimensions : Position
  pub floating : Bool
  pub compressed : Bool
  pub column_count : ℤ
  pub row_count : ℤ

-- The type that the constructor of each class passes on.
unfoldable pub handler_type : Handler → Outcome HduCategory
unfolding image bintable
handler_type plain_handler = ok image
handler_type image_handler = ok image
handler_type bintable_handler = bintable

-- The constructors, with a 0-based index.
unfoldable pub make_hdu : Handler → ℤ → HduCategory → Outcome Hdu
unfolding handler_type
make_hdu handler index status = do
  type ← handler_type handler
  ok (record { handler = handler; cfitsio_index = index +ℤ pos 1; type = type; status = status })

-- The flag of the place in the file.
unfoldable pub add_place : Bool → HduCategory → Outcome HduCategory
unfolding primary ext restrict
add_place is_primary c = if is_primary then (do p ← primary; restrict c p) else restrict c ext

unfoldable pub add_emptiness : Bool → HduCategory → Outcome HduCategory
unfolding metadata data_hdu restrict
add_emptiness is_empty c = if is_empty then restrict c metadata else restrict c data_hdu

unfoldable pub add_pixels : Bool → HduCategory → Outcome HduCategory
unfolding float_image int_image restrict
add_pixels is_floating c =
    if is_floating then (do f ← float_image; restrict c f) else (do i ← int_image; restrict c i)

unfoldable pub add_compression : Bool → HduCategory → Outcome HduCategory
unfolding compressed_image_ext raw_image restrict
add_compression is_compressed c =
    if is_compressed
    then (do z ← compressed_image_ext; restrict c z)
    else (do r ← raw_image; restrict c r)

-- `goto_index` makes an HDU of the file the current one, or throws.
module _ (goto_index : ℤ → Outcome (Unit {0})) where
  unfoldable pub touch : Hdu → Outcome Hdu
  unfolding category_eq untouched touched
  touch h = do
    goto_index h.cfitsio_index
    ok (if category_eq h.status untouched then record h { status = touched } else h)

  unfoldable pub edit : Hdu → Outcome Hdu
  unfolding touch restrict edited
  edit h = do h' ← touch h; status ← restrict h'.status edited; ok (record h' { status = status })

  -- `Hdu::category`: the category, and the handle after the call.
  unfoldable pub plain_category : Hdu → Outcome (HduCategory × Hdu)
  unfolding touch restrict add_place
  plain_category h = do
    h' ← touch h
    c ← restrict h'.type h'.status
    placed ← add_place (h'.cfitsio_index ==ℤ pos 1) c
    ok (placed, h')

-- `contents` is what is read in the HDU of an index.
module _ (goto_index : ℤ → Outcome (Unit {0})) (contents : ℤ → Contents) where
  -- `ImageHdu::read_size`, by `ImageRaster::read_shape`, which calls `m_edit`.
  unfoldable pub read_size : Hdu → Outcome (ℤ × Hdu)
  unfolding edit
  read_size h = do
    h' ← edit goto_index h
    ok (shape_size (contents h'.cfitsio_index).dimensions, h')

  unfoldable pub image_category : Hdu → Outcome (HduCategory × Hdu)
  unfolding plain_category read_size touch add_emptiness add_pixels add_compression
  image_category h = do
    (c, h1) ← plain_category goto_index h
    (n, h2) ← read_size h1
    sized ← add_emptiness (n ==ℤ pos 0) c
    h3 ← touch goto_index h2
    typed ← add_pixels (contents h3.cfitsio_index).floating sized
    complete ← add_compression (contents h3.cfitsio_index).compressed typed
    ok (complete, h3)

  unfoldable pub bintable_category : Hdu → Outcome (HduCategory × Hdu)
  unfolding plain_category touch add_emptiness
  bintable_category h = do
    (c, h1) ← plain_category goto_index h
    h2 ← touch goto_index h1
    let no_column = (contents h2.cfitsio_index).column_count ==ℤ pos 0
    h3 ← (if no_column then ok h2 else touch goto_index h2)
    complete ← add_emptiness (no_column || ((contents h3.cfitsio_index).row_count ==ℤ pos 0)) c
    ok (complete, h3)

  unfoldable pub category : Hdu → Outcome (HduCategory × Hdu)
  unfolding plain_category image_category bintable_category
  category h = elim h.handler [
    | plain_handler ↦ plain_category goto_index h
    | image_handler ↦ image_category h
    | bintable_handler ↦ bintable_category h
  ]

  -- `Hdu::matches`
  unfoldable pub matches : HduFilter → Hdu → Outcome (Bool × Hdu)
  unfolding category accepts
  matches filter h = do (c, h') ← category h; answer ← accepts filter c; ok (answer, h')
