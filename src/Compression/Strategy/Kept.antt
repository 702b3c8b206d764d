-- ===== src/Compression/Strategy/Kept.antt =====
-- The compression that is requested when an image is not to be compressed.
use ele_fits.Prelude.{
  ◌≡◌, refl, Bool, true, false, Option, none, List, [], ◌∷◌, if◌then◌else◌, Outcome, ok,
}
use ele_fits.Compression.{Compression, auto_compression}
use ele_fits.Compression.Strategy.{
  Image, is_excluded, compression_for, CompressionAction, compress, compress_ints, compress_floats,
  compress_auto, selected, uncompressed, apply, compress_image,
}

-- `CompressAuto` chooses a compression for the image.
abbrev pub Chooses : Image → CompressionAction → Type 0
Chooses image (compress_auto type) =
    (c : Compression) × (auto_compression image.type type image.shape ≡ ok c)
Chooses image a = Unit

abbrev pub AllChoose : Image → List CompressionAction → Type 0
AllChoose image [] = Unit
AllChoose image (a ∷ actions) = Chooses image a × AllChoose image actions

compression_for-excluded :
    (c : Compression) (image : Image) → is_excluded image ≡ true → compression_for c image ≡ ok none
unfolding compression_for
compression_for-excluded c image h = rw h refl

either_none :
    (b : Bool) (x y : Outcome (Option Compression))
    → x ≡ ok none
    → y ≡ ok none
    → (if b then x else y) ≡ ok none
either_none true x y h k = h
either_none false x y h k = k

selected-excluded :
    (a : CompressionAction) (image : Image)
    → is_excluded image ≡ true
    → Chooses image a
    → selected a image ≡ ok none
unfolding selected
selected-excluded (compress c) image h k = compression_for-excluded c image h
selected-excluded (compress_ints c) image h k =
    either_none image.type.floating (ok none) (compression_for c image) refl
      (compression_for-excluded c image h)
selected-excluded (compress_floats c) image h k =
    either_none image.type.floating (compression_for c image) (ok none)
      (compression_for-excluded c image h) refl
selected-excluded (compress_auto type) image h (c, e) = rw e (compression_for-excluded c image h)

module _ (accepts : Compression → Bool)
    (left : Compression → Option Compression → Option Compression) where
  apply-excluded :
      (a : CompressionAction) (image : Image) (before : Option Compression)
      → is_excluded image ≡ true
      → Chooses image a
      → apply accepts left a image before ≡ (ok false, before)
  unfolding apply
  apply-excluded a image before h k = rw (selected-excluded a image h k) refl

  -- On an image of integers of 64 bits, or of at most one block of data, the strategy of any actions
  -- compresses nothing, but it leaves the compression that was requested before: it does not request
  -- no compression. This is where each automatic action can choose.
  pub compress_image-excluded :
      (actions : List CompressionAction) (image : Image) (before : Option Compression)
      → is_excluded image ≡ true
      → AllChoose image actions
      → compress_image accepts left actions image before ≡ (ok false, before)
  unfolding compress_image
  compress_image-excluded [] image before h k =
      rw (apply-excluded (compress uncompressed) image before h tt) refl
  compress_image-excluded (a ∷ actions) image before h k =
      rw (apply-excluded a image before h k.0) (compress_image-excluded actions image before h k.1)
