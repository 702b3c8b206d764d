-- ===== src/ImageIo/Transfer.antt =====
-- What `read_region_to` leaves in the destination.
use ele_fits.Prelude.{ℕ, ◌≡◌, refl, ◌∙◌, Option, List, [], ◌∷◌, map}
use ele_fits.Prelude.Int.{ℤ, pos}
use ele_fits.Position.{Position, add_scalar}
use ele_fits.Region.{Region}
use ele_fits.Screener.Rank.{InBox, Displaced}
use ele_fits.Screener.Moves.{IsProper}
use ele_fits.Raster.{Raster}
use ele_fits.Raster.Index.{zeros, lasts, InBox-InShape}
use ele_fits.Raster.Unchecked.{IsFull, shape_size-total}
use ele_fits.ImageIo.Whole.{ReadsImage, Transfers}
use ele_fits.ImageIo.Framed.{frame-Transfers}

-- A region in the file and one in a raster, both inside, of one shape.
pub record IsTransfer {A : Type 0} (image : Position) (region destination : Region) (r : Raster A)
    : Type 0 where
  pub proper : IsProper region
  pub same_shape : Displaced region.front region.back destination.front destination.back
  pub front_in_raster : InBox (zeros r.lengths) (lasts r.lengths) destination.front
  pub back_in_raster : InBox (zeros r.lengths) (lasts r.lengths) destination.back
  pub front_in_image : InBox (map (λ s. pos 1) image) image (add_scalar region.front (pos 1))
  pub back_in_image : InBox (map (λ s. pos 1) image) image (add_scalar region.back (pos 1))

module _ {A : Type 0} (read_subset : Position → Position → Option (List A)) (image : Position)
    (pixel : Position → A) (reads : ReadsImage read_subset image pixel) where
  by_axes :
      (rf rb df db lengths : Position) (dim : ℤ) (cells : List A)
      → let region : Region = record { front = rf; back = rb } in
        let destination : Region = record { front = df; back = db } in
        let r : Raster A = record { dim = dim; lengths = lengths; cells = cells } in
        IsFull r
        → IsTransfer image region destination r
        → (cells' : List A) × Transfers read_subset pixel region destination r cells'
  by_axes [] rb [] db [] dim cells full v = absurd (full.axes refl)
  by_axes [] rb [] db (l ∷ ls) dim cells full v = absurd v.front_in_raster
  by_axes [] [] (g ∷ gs) db lengths dim cells full v = absurd v.same_shape
  by_axes [] (b ∷ bs) (g ∷ gs) db lengths dim cells full v = absurd v.same_shape
  by_axes (f ∷ fs) [] df db lengths dim cells full v = absurd v.proper
  by_axes (f ∷ fs) (b ∷ bs) [] db lengths dim cells full v = absurd v.same_shape
  by_axes (f ∷ fs) (b ∷ bs) (g ∷ gs) [] lengths dim cells full v = absurd v.same_shape
  by_axes (f ∷ fs) (b ∷ bs) (g ∷ gs) (h ∷ hs) [] dim cells full v = absurd (full.axes refl)
  by_axes (f ∷ fs) (b ∷ bs) (g ∷ gs) (h ∷ hs) (l ∷ ls) dim cells full v =
      frame-Transfers read_subset pixel l f b g h ls fs bs gs hs v.proper v.same_shape
        v.front_in_raster v.back_in_raster image reads v.front_in_image v.back_in_image
        (record { dim = dim; lengths = l ∷ ls; cells = cells }) refl
        (pos_inj (
          full.cells_size
          ∙ shape_size-total (l ∷ ls) (g ∷ gs) (InBox-InShape (l ∷ ls) (g ∷ gs) v.front_in_raster)
              full.axes))
    where
      pos_inj : {m n : ℕ} → pos m ≡ pos n → m ≡ n
      pos_inj e = cc

  -- Where CFITSIO reads the lines of an image, and the region is in the image and as large as the
  -- destination, which is in a raster of at least one axis with a cell for each position:
  -- `read_region_to` returns, each position of the destination has the pixel of the image that is
  -- as far from the front of the region, and the other cells are kept.
  pub read_region_to-Transfers :
      (region destination : Region) (r : Raster A)
      → IsFull r
      → IsTransfer image region destination r
      → (cells : List A) × Transfers read_subset pixel region destination r cells
  read_region_to-Transfers region destination r full v =
      by_axes region.front region.back destination.front destination.back r.lengths r.dim r.cells
        (record { axes = full.axes; cells_size = full.cells_size })
        (record {
          proper = v.proper;
          same_shape = v.same_shape;
          front_in_raster = v.front_in_raster;
          back_in_raster = v.back_in_raster;
          front_in_image = v.front_in_image;
          back_in_image = v.back_in_image;
        })
