-- ===== src/Compression.antt =====
-- Compression of images: `Quantization` (EleFitsData/EleFitsData/impl/Quantization.hpp), the
-- algorithms (EleFitsData/EleFitsData/Compression.h, impl/Compression.hpp) and the choice of
-- `CompressAuto` (EleFits/EleFits/impl/CompressionStrategy.hpp).
pub mod Choice
pub mod Supported
pub mod Tiles
pub mod Strategy
mod Tests
use package.ele_fits.Prelude.{
  ℕ, zero, suc, ◌*◌, ◌/◌, ◌%◌, Bool, true, false, not, ◌&&◌, ◌||◌, Option, none, some, List, [],
  ◌∷◌, length, leb, ◌==◌, if◌then◌else◌, Outcome, ok, fail, fits_error, undefined_behaviour, ◌>>=◌,
  ◌>>◌,
}
use package.ele_fits.Prelude.Int.{
  ℤ, pos, negsuc, pos_part, ◌+ℤ◌, ◌-ℤ◌, ◌*ℤ◌, leb_ℤ, ltb_ℤ, to_size, to_long,
}
use package.ele_fits.Position.{Position, shape_size}
use package.ele_fits.Raster.{check_bounds}

-- A `Scaling`: zero, or a fraction of the tile RMS.
pub data Level : Type 0 where
  disabled : Level
  rms_fraction : ℕ → ℕ → Level

pub data Dithering : Type 0 where
  no_pixel non_zero_pixel every_pixel : Dithering

pub record Quantization : Type 0 where
  pub level : Level
  pub dithering : Dithering

abbrev pub is_enabled : Level → Bool
is_enabled disabled = false
is_enabled (rms_fraction n d) = true

abbrev pub is_dithered : Dithering → Bool
is_dithered no_pixel = false
is_dithered d = true

abbrev pub is_non_zero : Dithering → Bool
is_non_zero non_zero_pixel = true
is_non_zero d = false

-- `q.dithering(method)`
unfoldable pub set_dithering : Quantization → Dithering → Outcome Quantization
set_dithering q method =
    if not (is_enabled q.level) && is_dithered method
    then fail fits_error
    else ok (record q { dithering = method })

-- `Quantization(level)`
unfoldable pub make_quantization : Level → Outcome Quantization
unfolding set_dithering
make_quantization level =
    set_dithering (record { level = level; dithering = no_pixel })
      (if is_enabled level then every_pixel else no_pixel)

pub data Algorithm : Type 0 where
  no_compression gzip shuffled_gzip rice hcompress plio : Algorithm

-- A `Compression` of some class; `scaling` is a member of `HCompress` only.
pub record Compression : Type 0 where
  pub algorithm : Algorithm
  pub tiling : Position
  pub quantization : Quantization
  pub scaling : Level

-- The constructors: `HCompress` sets its quantization by the member function that refuses the
-- dithering of non-zero pixels.
unfoldable pub make_compression : Algorithm → Position → Quantization → Level → Outcome Compression
unfolding check_bounds
make_compression algorithm tiling q scaling = do
  check_bounds (pos (length tiling)) (pos 0) (pos 6)
  let made : Compression = record {
    algorithm = algorithm;
    tiling = tiling;
    quantization = q;
    scaling = scaling;
  }
  elim algorithm [
    | hcompress ↦ if is_non_zero q.dithering then fail fits_error else ok made
    | _ ↦ ok made
  ]

-- `is_lossless`, with its override in `HCompress`.
unfoldable pub is_lossless : Compression → Bool
is_lossless c = elim c.algorithm [
  | hcompress ↦ if is_enabled c.scaling then false else not (is_enabled c.quantization.level)
  | _ ↦ not (is_enabled c.quantization.level)
]

pub data CompressionType : Type 0 where
  lossless lossless_ints lossy : CompressionType

abbrev pub is_lossless_type : CompressionType → Bool
is_lossless_type lossless = true
is_lossless_type t = false

abbrev pub is_lossy : CompressionType → Bool
is_lossy lossy = true
is_lossy t = false

-- The pixel type `T`: floating point or integral, and `sizeof(T)`.
pub record PixelType : Type 0 where
  pub floating : Bool
  pub bytes : ℕ

abbrev pub whole_tile : Position
whole_tile = negsuc 0 ∷ []

abbrev pub rowwise : ℕ → Position
rowwise rows = negsuc 0 ∷ pos rows ∷ []

-- `CompressAuto::quantization`
unfoldable pub auto_quantization : PixelType → CompressionType → Outcome Quantization
unfolding make_quantization set_dithering
auto_quantization t type =
    if not t.floating
    then (if not (is_lossy type)
        then make_quantization disabled
        else (do q ← make_quantization (rms_fraction 1 4); set_dithering q non_zero_pixel))
    else if is_lossless_type type
    then make_quantization disabled
    else make_quantization (rms_fraction 1 16)

-- `1024 * 1024 / row_size`
unfoldable pub rows_in_tile : ℤ → Outcome ℤ
rows_in_tile (pos zero) = fail undefined_behaviour
rows_in_tile (pos (suc n)) = ok (pos (1048576 / suc n))
rows_in_tile (negsuc n) = ok (pos 0 -ℤ pos (1048576 / suc n))

-- `long(row_width * sizeof(T))`, a product of `std::size_t`
unfoldable pub row_size : PixelType → ℤ → ℤ
row_size t row_width = to_long ((to_size row_width * t.bytes) % 18446744073709551616)

-- `CompressAuto::tiling`
unfoldable pub auto_tiling : PixelType → Position → Outcome Position
unfolding rows_in_tile row_size
auto_tiling t shape = if leb_ℤ (shape_size shape) (pos 1048576) then ok whole_tile else elim shape [
  | [] ↦ fail undefined_behaviour
  | row_width ∷ rest ↦ (do
    n ← rows_in_tile (row_size t row_width)
    ok (row_width ∷ (n +ℤ pos 1) ∷ []))
]

-- The loop of `hcompress_tiling` over the row counts that it tries.
unfoldable pub acceptable_rows : ℕ → List ℕ → ℕ
acceptable_rows height [] = 17
acceptable_rows height (rows ∷ rest) =
    let later = acceptable_rows height rest in
    if (height % rows == 0) || leb 4 (height % rows) then rows else later

abbrev pub candidates : List ℕ
candidates = 16 ∷ 24 ∷ 20 ∷ 30 ∷ 28 ∷ 26 ∷ 22 ∷ 18 ∷ 14 ∷ []

-- `CompressAuto::hcompress_tiling`
unfoldable pub hcompress_tiling : Position → Outcome Position
unfolding acceptable_rows
hcompress_tiling (w ∷ h ∷ rest) =
    if leb_ℤ h (pos 30)
    then ok whole_tile
    else ok (rowwise (acceptable_rows (pos_part h) candidates))
hcompress_tiling _ = fail undefined_behaviour

-- `CompressAuto::hcompress_scaling`
unfoldable pub hcompress_scaling : PixelType → CompressionType → Level
hcompress_scaling t type =
    if not t.floating
    then (if not (is_lossy type) then disabled else rms_fraction 5 2)
    else if is_lossless_type type
    then disabled
    else rms_fraction 5 2

-- The actions that `CompressAuto` tries, `none` for a null pointer.
unfoldable pub auto_plio : PixelType → Position → Outcome (Option Compression)
unfolding auto_tiling make_compression make_quantization
auto_plio t shape = if not (not t.floating && (t.bytes == 1)) then ok none else (do
  tiling ← auto_tiling t shape
  q ← make_quantization disabled
  c ← make_compression plio tiling q disabled
  ok (some c))

-- The test of the shape: the second length is read for a size of 2 or more and a first length of 4
-- or more.
unfoldable pub is_too_small : Position → Outcome Bool
unfolding shape_size
is_too_small shape = if ltb_ℤ (shape_size shape) (pos 2) then ok true else elim shape [
  | [] ↦ fail undefined_behaviour
  | w ∷ rest ↦
      (if ltb_ℤ w (pos 4)
        then ok true
        else elim rest [ [] ↦ fail undefined_behaviour | h ∷ further ↦ ok (ltb_ℤ h (pos 4)) ])
]

unfoldable pub auto_hcompress :
    PixelType → CompressionType → Position → Outcome (Option Compression)
unfolding is_too_small auto_quantization set_dithering hcompress_tiling hcompress_scaling
    make_compression
auto_hcompress t type shape = if t.floating && is_lossless_type type then ok none else (do
  too_small ← is_too_small shape
  if too_small then ok none else (do
    q ← auto_quantization t type
    q' ← (if is_non_zero q.dithering then set_dithering q every_pixel else ok q)
    tiling ← hcompress_tiling shape
    c ← make_compression hcompress tiling q' (hcompress_scaling t type)
    ok (some c)))

unfoldable pub auto_rice : PixelType → CompressionType → Position → Outcome (Option Compression)
unfolding auto_tiling auto_quantization make_compression
auto_rice t type shape = if t.floating && is_lossless_type type then ok none else (do
  tiling ← auto_tiling t shape
  q ← auto_quantization t type
  c ← make_compression rice tiling q disabled
  ok (some c))

unfoldable pub auto_gzip : PixelType → CompressionType → Position → Outcome Compression
unfolding auto_tiling auto_quantization make_compression
auto_gzip t type shape = do
  tiling ← auto_tiling t shape
  q ← auto_quantization t type
  make_compression shuffled_gzip tiling q disabled

abbrev pub or_next : Outcome (Option Compression) → Outcome Compression → Outcome Compression
or_next (fail e) later = fail e
or_next (ok none) later = later
or_next (ok (some c)) later = ok c

-- `CompressAuto::apply`, up to the call of the chosen action.
unfoldable pub auto_compression : PixelType → CompressionType → Position → Outcome Compression
unfolding auto_plio auto_hcompress auto_rice auto_gzip
auto_compression t type shape = or_next (auto_plio t shape) (
    or_next (auto_hcompress t type shape)
      (or_next (auto_rice t type shape) (auto_gzip t type shape)))
