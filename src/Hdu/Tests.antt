-- ===== src/Hdu/Tests.antt =====
-- Handles of a file of two HDUs, and the theorems on them.
use ele_fits.Position.{shape_size}
use ele_fits.Prelude.{
  ◌≡◌, refl, inl, true, false, [], ◌∷◌, if◌then◌else◌, Outcome, ok, fail, fits_error,
}
use ele_fits.Prelude.Int.{ℤ, pos, ◌==ℤ◌, ◌*ℤ◌}
use ele_fits.HduCategory.{unconstrained, first, second}
use ele_fits.Hdu.{image_handler, Hdu, Contents, handler_type, category}
use ele_fits.Hdu.Life.{is_untouched, is_edited, mask, IsLive}
use ele_fits.Hdu.Reports.{Reports, category-Reports}

-- A file of an image and a binary table.
abbrev two_hdus : ℤ → Outcome (Unit {0})
two_hdus i = if i ==ℤ pos 1 then ok tt else if i ==ℤ pos 2 then ok tt else fail fits_error

abbrev contents : ℤ → Contents
contents i = record {
  dimensions = pos 4 ∷ pos 3 ∷ [];
  floating = true;
  compressed = false;
  column_count = pos 2;
  row_count = pos 5;
}

abbrev new_image : Hdu
new_image = record {
  handler = image_handler;
  cfitsio_index = pos 1;
  type =
      unconstrained ∷ unconstrained ∷ first ∷ unconstrained ∷ unconstrained ∷ unconstrained
      ∷ unconstrained ∷ unconstrained ∷ [];
  status = mask is_untouched;
}

abbrev read_image : Hdu
read_image = record new_image { status = mask is_edited }

-- The category of an image that was only opened, and then again.
category-new_image :
    category two_hdus contents new_image
    ≡ ok (
      first ∷ second ∷ first ∷ second ∷ first ∷ second ∷ unconstrained ∷ unconstrained ∷ [],
      read_image,
    )
unfolding category shape_size ◌*ℤ◌
category-new_image = refl

category-read_image :
    category two_hdus contents read_image
    ≡ ok
        (first ∷ second ∷ first ∷ second ∷ first ∷ second ∷ unconstrained ∷ second ∷ [], read_image)
unfolding category shape_size ◌*ℤ◌
category-read_image = refl

new_image-IsLive : IsLive two_hdus is_untouched new_image
new_image-IsLive = record { status_is = refl; in_file = refl }

category-Reports_example : Reports two_hdus contents is_untouched new_image
unfolding handler_type
category-Reports_example =
    category-Reports two_hdus contents is_untouched new_image new_image-IsLive refl (inl (λ e. cc))
