-- ===== src/Compression/Strategy.antt =====
-- The choice of a compression by the strategy of a file: `Strategy::compress`
-- (EleFits/EleFits/Strategy.h) and the actions of EleFits/EleFits/CompressionStrategy.h.
pub mod Kept
pub mod Suited
use package.ele_fits.Prelude.{
  ℕ, zero, suc, ◌-◌, ◌*◌, ◌%◌, ◌^◌, Bool, true, false, not, ◌&&◌, ◌||◌, Option, none, some, List,
  [], ◌∷◌, leb, ltb, ◌==◌, if◌then◌else◌, Outcome, ok, fail, fits_error, undefined_behaviour,
}
use package.ele_fits.Prelude
use package.ele_fits.Prelude.Int.{ℤ, pos, negsuc, leb_ℤ, ltb_ℤ, to_size}
use package.ele_fits.Prelude.Methods.{Method, pure, throw, lift, ◌>>=◌, ◌>>◌}
use package.ele_fits.Position.{Position, shape_size}
use package.ele_fits.Compression.{
  disabled, no_pixel, Algorithm, no_compression, gzip, shuffled_gzip, rice, hcompress, plio,
  Compression, CompressionType, PixelType, is_lossless, is_too_small, auto_compression,
}

-- An `ImageHdu::Initializer<T>`; `pixels` is `none` for a null pointer.
pub record Image : Type 0 where
  pub type : PixelType
  pub shape : Position
  pub pixels : Option (List ℤ)

-- `shapeSize(init.shape) * sizeof(T)`
unfoldable pub data_size : Image → ℕ
unfolding shape_size
data_size image = (to_size (shape_size image.shape) * image.type.bytes) % 18446744073709551616

-- The first tests of `Compress::compression`
unfoldable pub is_excluded : Image → Bool
unfolding data_size
is_excluded image =
    (not image.type.floating && (image.type.bytes == 8)) || leb (data_size image) 2880

abbrev pub max_from : ℤ → List ℤ → ℤ
max_from m [] = m
max_from m (x ∷ xs) = max_from (if ltb_ℤ m x then x else m) xs

-- `*std::max_element`
unfoldable pub max_element : List ℤ → Outcome ℤ
max_element [] = fail undefined_behaviour
max_element (x ∷ xs) = ok (max_from x xs)

-- The test of the pixels by `can_compress` with `Plio`: the largest one is below 2^24.
unfoldable pub has_24_bits : Option (List ℤ) → Outcome Bool
unfolding max_element
has_24_bits none = ok false
has_24_bits (some pixels) =
    Prelude.◌>>=◌ (max_element pixels) (λ m. ok (not (leb_ℤ (pos 16777216) m)))

-- `can_compress` with `Plio`: integers of more than 16 bits have their pixels tested.
unfoldable pub can_plio : Image → Outcome Bool
unfolding has_24_bits
can_plio image =
    if image.type.floating || ltb 4 image.type.bytes
    then ok false
    else if ltb 2 image.type.bytes
    then has_24_bits image.pixels
    else ok true

unfoldable pub can_compress : Compression → Image → Outcome Bool
unfolding can_plio is_lossless is_too_small
can_compress c image = elim c.algorithm [
  | no_compression ↦ ok true
  | gzip ↦ ok true
  | shuffled_gzip ↦ ok true
  | rice ↦ ok (not image.type.floating || not (is_lossless c))
  | hcompress ↦
      Prelude.◌>>=◌ (is_too_small image.shape)
        (λ small. ok (if small then false else not image.type.floating || not (is_lossless c)))
  | plio ↦ can_plio image
]

-- `Compress::compression`
unfoldable pub compression_for : Compression → Image → Outcome (Option Compression)
unfolding is_excluded can_compress
compression_for c image =
    if is_excluded image
    then ok none
    else Prelude.◌>>=◌ (can_compress c image) (λ can. ok (if can then some c else none))

-- The compression actions: `Compress`, `CompressInts`, `CompressFloats` and `CompressAuto`.
pub data CompressionAction : Type 0 where
  compress compress_ints compress_floats : Compression → CompressionAction
  compress_auto : CompressionType → CompressionAction

-- The algorithm that `apply` gives to CFITSIO, if any.
unfoldable pub selected : CompressionAction → Image → Outcome (Option Compression)
unfolding compression_for auto_compression
selected (compress c) image = compression_for c image
selected (compress_ints c) image = if image.type.floating then ok none else compression_for c image
selected (compress_floats c) image =
    if image.type.floating then compression_for c image else ok none
selected (compress_auto type) image =
    Prelude.◌>>=◌ (auto_compression image.type type image.shape) (λ c. compression_for c image)

-- What `NoCompression()` makes.
abbrev pub uncompressed : Compression
uncompressed = record {
  algorithm = no_compression;
  tiling = [];
  quantization = record { level = disabled; dithering = no_pixel };
  scaling = disabled;
}

-- The compression that CFITSIO is told.
unfoldable pub requested : Compression → Option Compression
requested c = elim c.algorithm [ no_compression ↦ none | _ ↦ some c ]

-- The state is the compression that is requested of CFITSIO for the images to come, `none` for no
-- compression. `accepts` tells whether CFITSIO sets a compression, and `left` what is requested once
-- it has refused one, since it may have set its algorithm before it refuses its tiling.
module _ (accepts : Compression → Bool)
    (left : Compression → Option Compression → Option Compression) where
  -- `ImageCompression::compress`
  unfoldable pub request : Compression → Method (Option Compression) (Unit {0})
  unfolding requested
  request c before = if accepts c then (ok tt, requested c) else (fail fits_error, left c before)

  abbrev pub request_selected : Option Compression → Method (Option Compression) Bool
  request_selected none = pure false
  request_selected (some c) = request c >> pure true

  -- `Compress::apply` and the others
  unfoldable pub apply : CompressionAction → Image → Method (Option Compression) Bool
  unfolding selected request
  apply a image = do c ← lift (selected a image); request_selected c

  -- `Strategy::compress`
  unfoldable pub compress_image : List CompressionAction → Image → Method (Option Compression) Bool
  unfolding apply
  compress_image [] image = apply (compress uncompressed) image >>= λ _. pure false
  compress_image (a ∷ actions) image =
      let rest = compress_image actions image in
      apply a image >>= λ done. if done then pure true else rest
