-- ===== src/HduIterator/Tests.antt =====
-- A loop over a file of an image and a binary table, and the theorem on it.
use ele_fits.Position.{shape_size}
use ele_fits.Prelude.{◌≡◌, refl, true, false, some, [], ◌∷◌, Outcome, ok, arith}
use ele_fits.Prelude.Int.{ℤ, pos}
use ele_fits.HduCategory.{HduCategory, unconstrained, first, second}
use ele_fits.HduFilter.{HduFilter}
use ele_fits.Hdu.{image_handler, bintable_handler, Hdu, Contents, matches}
use ele_fits.HduIterator.{visit_selector}
use ele_fits.HduIterator.Selection.{selected, visit_selector-selected}

abbrev every_index : ℤ → Outcome (Unit {0})
every_index i = ok tt

abbrev contents : ℤ → Contents
contents i = record {
  dimensions = [];
  floating = true;
  compressed = false;
  column_count = pos 2;
  row_count = pos 5;
}

abbrev u : HduCategory → HduCategory
u c = unconstrained ∷ c

-- The status of a handle that was only opened, touched, or edited.
abbrev opened : HduCategory
opened = u (u (u (u (u (first ∷ u (u []))))))

abbrev read : HduCategory
read = u (u (u (u (u (second ∷ u (u []))))))

abbrev written : HduCategory
written = u (u (u (u (u (second ∷ u (second ∷ []))))))

abbrev image_with : HduCategory → Hdu
image_with status = record {
  handler = image_handler;
  cfitsio_index = pos 1;
  type = u (u (first ∷ u (u (u (u (u []))))));
  status = status;
}

abbrev table_with : HduCategory → Hdu
table_with status = record {
  handler = bintable_handler;
  cfitsio_index = pos 2;
  type = second ∷ u (second ∷ u (u (u (u (u [])))));
  status = status;
}

-- The extensions.
abbrev extensions : HduFilter
extensions = record { accept = (second ∷ u (u (u (u (u (u (u []))))))) ∷ []; reject = [] }

visit_selector-selected_example :
    visit_selector every_index contents 3 3 (image_with opened ∷ table_with opened ∷ []) extensions
    ≡ ok (some (image_with written ∷ table_with read ∷ [], selected 0 (false ∷ true ∷ [])))
unfolding matches shape_size
visit_selector-selected_example =
    visit_selector-selected every_index contents extensions 3 3
      (image_with opened ∷ table_with opened ∷ []) (false ∷ true ∷ [])
      (image_with written ∷ table_with read ∷ []) (refl, (refl, tt)) (omega arith) (omega arith)
