-- ===== src/Compression/Tests.antt =====
-- Runs of the choice of a compression, and instances of its theorems.
use ele_fits.Compression.Strategy.{
  requested, Image, compress, compress_floats, compress_image, is_excluded,
}
use ele_fits.Compression.Strategy.Kept.{compress_image-excluded}
use ele_fits.Compression.Strategy.Suited.{IsFor, compress_image-IsFor}
use ele_fits.Prelude.{
  ◌≡◌, refl, Bool, true, false, Option, none, some, [], ◌∷◌, ok, fail, undefined_behaviour,
  fits_error, arith,
}
use ele_fits.Prelude.Int.{pos, ◌*ℤ◌}
use ele_fits.Position.{Position, shape_size}
use ele_fits.Compression.{
  disabled, rms_fraction, no_pixel, every_pixel, set_dithering, Algorithm, shuffled_gzip, rice,
  hcompress, plio, Compression, is_lossless, lossless, lossless_ints, lossy, PixelType, auto_tiling,
  auto_compression, whole_tile, rowwise,
}
use ele_fits.Compression.Choice.{auto_compression-is_lossless}
use ele_fits.Compression.Supported.{IsSupported, auto_compression-IsSupported}

abbrev float32 : PixelType
float32 = record { floating = true; bytes = 4 }

abbrev int16 : PixelType
int16 = record { floating = false; bytes = 2 }

abbrev mask : PixelType
mask = record { floating = false; bytes = 1 }

abbrev square : Position
square = pos 100 ∷ pos 100 ∷ []

undithered :
    set_dithering (record { level = disabled; dithering = no_pixel }) every_pixel ≡ fail fits_error
unfolding set_dithering
undithered = refl

mask_is_plio :
    auto_compression mask lossy square
    ≡ ok (record {
      algorithm = plio;
      tiling = whole_tile;
      quantization = record { level = disabled; dithering = no_pixel };
      scaling = disabled;
    })
unfolding auto_compression ◌*ℤ◌
mask_is_plio = refl

int16_is_hcompress :
    auto_compression int16 lossy square
    ≡ ok (record {
      algorithm = hcompress;
      tiling = rowwise 16;
      quantization = record { level = rms_fraction 1 4; dithering = every_pixel };
      scaling = rms_fraction 5 2;
    })
unfolding auto_compression ◌*ℤ◌
int16_is_hcompress = refl

float32_is_gzip :
    auto_compression float32 lossless square
    ≡ ok (record {
      algorithm = shuffled_gzip;
      tiling = whole_tile;
      quantization = record { level = disabled; dithering = no_pixel };
      scaling = disabled;
    })
unfolding auto_compression ◌*ℤ◌
float32_is_gzip = refl

one_axis_is_refused : auto_compression int16 lossless (pos 100 ∷ []) ≡ fail undefined_behaviour
unfolding auto_compression ◌*ℤ◌
one_axis_is_refused = refl

auto_compression_example :
    (c : Compression) × (auto_compression int16 lossless_ints square ≡ ok c)
    × (is_lossless c ≡ true)
auto_compression_example =
    auto_compression-is_lossless int16 lossless_ints 100 (pos 100) [] (omega arith, omega arith)
      refl

lossy_choice_example :
    (c : Compression) × (auto_compression int16 lossy square ≡ ok c) × IsSupported c
lossy_choice_example =
    auto_compression-IsSupported int16 lossy 100 (pos 100) [] (omega arith, omega arith)

abbrev wide_mask : Image
wide_mask = record {
  type = record { floating = false; bytes = 4 };
  shape = pos 40 ∷ pos 40 ∷ [];
  pixels = some (pos 1 ∷ pos 16777216 ∷ []);
}

abbrev tiled : Algorithm → Compression
tiled a = record {
  algorithm = a;
  tiling = whole_tile;
  quantization = record { level = disabled; dithering = no_pixel };
  scaling = disabled;
}

abbrev any_compression : Compression → Bool
any_compression c = true

abbrev unchanged : Compression → Option Compression → Option Compression
unchanged c before = before

-- The pixels are too large for Plio.
compress_image-IsFor_example :
    (c : Compression) × (◌≡◌ {A = Option Compression} (some (tiled hcompress)) (requested c))
    × IsFor wide_mask c
unfolding compress_image ◌*ℤ◌
compress_image-IsFor_example =
    compress_image-IsFor any_compression unchanged
      (compress (tiled plio) ∷ compress_floats (tiled rice) ∷ compress (tiled hcompress) ∷ [])
      wide_mask none (some (tiled hcompress)) refl

-- A small image after one that was compressed.
abbrev small_image : Image
small_image = record wide_mask { shape = pos 20 ∷ pos 20 ∷ [] }

compress_image-excluded_example :
    compress_image any_compression unchanged
      (compress (tiled rice) ∷ [])
      small_image
      (some (tiled rice))
    ≡ (ok false, some (tiled rice))
unfolding is_excluded ◌*ℤ◌
compress_image-excluded_example =
    compress_image-excluded any_compression unchanged (compress (tiled rice) ∷ []) small_image
      (some (tiled rice)) refl (tt, tt)

-- Rows of 2^64 bytes: the size of a row is zero.
long_row :
    auto_tiling (record { floating = false; bytes = 8 }) (pos 2305843009213693952 ∷ pos 1 ∷ [])
    ≡ fail undefined_behaviour
unfolding auto_tiling ◌*ℤ◌ shape_size
long_row = refl
