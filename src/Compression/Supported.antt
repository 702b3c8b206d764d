-- ===== src/Compression/Supported.antt =====
-- The choice of `CompressAuto` for every type of compression, lossy ones included.
use ele_fits.Prelude.{
  ℕ, ◌≡◌, ◌≢◌, refl, ◌⊎◌, inl, inr, false, not, ◌&&◌, Option, none, some, ◌∷◌, length, ◌==◌,
  if◌then◌else◌, Bool-cases, Outcome, ok,
}
use ele_fits.Prelude.Int.{ℤ, pos}
use ele_fits.Position.{Position}
use ele_fits.Raster.{check_bounds}
use ele_fits.Compression.{
  Level, disabled, rms_fraction, Dithering, no_pixel, non_zero_pixel, every_pixel, Quantization,
  Algorithm, no_compression, gzip, shuffled_gzip, rice, hcompress, plio, Compression,
  CompressionType, lossless, lossless_ints, lossy, PixelType, is_lossless_type, is_non_zero,
  set_dithering, make_compression, make_quantization, auto_quantization, hcompress_scaling,
  auto_plio, auto_hcompress, auto_rice, auto_gzip, or_next, auto_compression,
}
use ele_fits.Compression.Choice.{
  IsRow, in_range, IsTiling, auto_tiling-IsTiling, hcompress_tiling-IsTiling, is_too_small-decides,
}

-- HCompress does not dither non-zero pixels only.
abbrev pub IsSupported : Compression → Type 0
IsSupported c = (is_non_zero c.quantization.dithering ≡ false) ⊎ (c.algorithm ≢ hcompress)

abbrev disabled_quantization : Quantization
disabled_quantization = record { level = disabled; dithering = no_pixel }

abbrev dithered : ℕ → Dithering → Quantization
dithered n method = record { level = rms_fraction 1 n; dithering = method }

abbrev chosen : Algorithm → Position → Quantization → Level → Compression
chosen a tiles q scaling = record {
  algorithm = a;
  tiling = tiles;
  quantization = q;
  scaling = scaling;
}

plio≢hcompress : plio ≢ hcompress
plio≢hcompress e = cc

rice≢hcompress : rice ≢ hcompress
rice≢hcompress e = cc

gzip≢hcompress : shuffled_gzip ≢ hcompress
gzip≢hcompress e = cc

make_compression-other :
    (a : Algorithm) (tiles : Position) (q : Quantization) (scaling : Level)
    → IsTiling tiles
    → a ≢ hcompress
    → make_compression a tiles q scaling ≡ ok (chosen a tiles q scaling)
unfolding make_compression check_bounds
make_compression-other no_compression tiles q scaling few other =
    rw (in_range (length tiles) few) refl
make_compression-other gzip tiles q scaling few other = rw (in_range (length tiles) few) refl
make_compression-other shuffled_gzip tiles q scaling few other =
    rw (in_range (length tiles) few) refl
make_compression-other rice tiles q scaling few other = rw (in_range (length tiles) few) refl
make_compression-other hcompress tiles q scaling few other = absurd (other refl)
make_compression-other plio tiles q scaling few other = rw (in_range (length tiles) few) refl

make_compression-hcompress :
    (tiles : Position) (q : Quantization) (scaling : Level)
    → IsTiling tiles
    → is_non_zero q.dithering ≡ false
    → make_compression hcompress tiles q scaling ≡ ok (chosen hcompress tiles q scaling)
unfolding make_compression check_bounds
make_compression-hcompress tiles q scaling few other =
    rw (in_range (length tiles) few) (rw other refl)

-- The quantization that `CompressAuto` makes, and the one that it gives to HCompress.
auto_quantization-returns :
    (t : PixelType) (type : CompressionType)
    → (q q' : Quantization) × (auto_quantization t type ≡ ok q)
      × ((if is_non_zero q.dithering then set_dithering q every_pixel else ok q) ≡ ok q')
      × (is_non_zero q'.dithering ≡ false)
unfolding auto_quantization
auto_quantization-returns t lossless = elim (Bool-cases t.floating) [
  | inl e ↦ (disabled_quantization, disabled_quantization, rw e refl, refl, refl)
  | inr e ↦ (disabled_quantization, disabled_quantization, rw e refl, refl, refl)
]
auto_quantization-returns t lossless_ints = elim (Bool-cases t.floating) [
  | inl e ↦ (dithered 16 every_pixel, dithered 16 every_pixel, rw e refl, refl, refl)
  | inr e ↦ (disabled_quantization, disabled_quantization, rw e refl, refl, refl)
]
auto_quantization-returns t lossy = elim (Bool-cases t.floating) [
  | inl e ↦ (dithered 16 every_pixel, dithered 16 every_pixel, rw e refl, refl, refl)
  | inr e ↦ (dithered 4 non_zero_pixel, dithered 4 every_pixel, rw e refl, refl, refl)
]

-- A choice that is refused, or supported.
abbrev Tries : Outcome (Option Compression) → Type 0
Tries choice = (choice ≡ ok none) ⊎ ((c : Compression) × (choice ≡ ok (some c)) × IsSupported c)

module _ (t : PixelType) (width : ℕ) (row : IsRow width t.bytes) where
  auto_plio-Tries : (rest : Position) → Tries (auto_plio t (pos width ∷ rest))
  unfolding auto_plio make_quantization set_dithering
  auto_plio-Tries rest =
      let (tiles, tiled, few) = auto_tiling-IsTiling t width rest row in
      let built =
        make_compression-other plio tiles disabled_quantization disabled few plio≢hcompress in
      elim (Bool-cases (not t.floating && (t.bytes == 1))) [
        | inl e ↦ inr (
          chosen plio tiles disabled_quantization disabled,
          rw (e, tiled, built) refl,
          inr plio≢hcompress,
        )
        | inr e ↦ inl (rw e refl)
      ]

  module _ (type : CompressionType) where
    auto_rice-Tries : (rest : Position) → Tries (auto_rice t type (pos width ∷ rest))
    unfolding auto_rice
    auto_rice-Tries rest =
        let (tiles, tiled, few) = auto_tiling-IsTiling t width rest row in
        let (q, q', made_q, _, _) = auto_quantization-returns t type in
        let built = make_compression-other rice tiles q disabled few rice≢hcompress in
        elim (Bool-cases (t.floating && is_lossless_type type)) [
          | inl e ↦ inl (rw e refl)
          | inr e ↦
              inr (
                chosen rice tiles q disabled,
                rw (e, tiled, made_q, built) refl,
                inr rice≢hcompress,
              )
        ]

    auto_gzip-Tries :
        (rest : Position)
        → (c : Compression) × (auto_gzip t type (pos width ∷ rest) ≡ ok c) × IsSupported c
    unfolding auto_gzip
    auto_gzip-Tries rest =
        let (tiles, tiled, few) = auto_tiling-IsTiling t width rest row in
        let (q, q', made_q, _, _) = auto_quantization-returns t type in
        let built = make_compression-other shuffled_gzip tiles q disabled few gzip≢hcompress in
        (chosen shuffled_gzip tiles q disabled, rw (tiled, made_q, built) refl, inr gzip≢hcompress)

    auto_hcompress-Tries :
        (w h : ℤ) (rest : Position) → Tries (auto_hcompress t type (w ∷ h ∷ rest))
    unfolding auto_hcompress
    auto_hcompress-Tries w h rest =
        let (tiles, tiled, few) = hcompress_tiling-IsTiling w h rest in
        let (q, q', made_q, dithered_q, supported) = auto_quantization-returns t type in
        let scaling = hcompress_scaling t type in
        let built = make_compression-hcompress tiles q' scaling few supported in
        elim (Bool-cases (t.floating && is_lossless_type type)) [
          | inl e ↦ inl (rw e refl)
          | inr e ↦ (elim (is_too_small-decides w h rest) [
            | inl small ↦ inl (rw (e, small) refl)
            | inr large ↦ inr (
              chosen hcompress tiles q' scaling,
              rw (e, large, made_q) (rw dithered_q (rw (tiled, built) refl)),
              inl supported,
            )
          ])
        ]

or_next-IsSupported :
    (first : Outcome (Option Compression)) (later : Outcome Compression)
    → Tries first
    → ((c : Compression) × (later ≡ ok c) × IsSupported c)
    → (c : Compression) × (or_next first later ≡ ok c) × IsSupported c
or_next-IsSupported first later (inl refused) h = rw refused h
or_next-IsSupported first later (inr (c, found, supported)) h = (c, rw found refl, supported)

-- For every type of compression and every image of two or more axes whose rows take at least one byte and less than 2^64,
-- `CompressAuto` chooses a compression and no constructor throws; if HCompress is chosen, the
-- dithering is not that of non-zero pixels, which it does not support.
pub auto_compression-IsSupported :
    (t : PixelType) (type : CompressionType) (width : ℕ) (h : ℤ) (rest : Position)
    → IsRow width t.bytes
    → (c : Compression) × (auto_compression t type (pos width ∷ h ∷ rest) ≡ ok c) × IsSupported c
unfolding auto_compression
auto_compression-IsSupported t type width h rest row =
    or_next-IsSupported _ _ (auto_plio-Tries t width row (h ∷ rest)) (
      or_next-IsSupported _ _ (auto_hcompress-Tries t width row type (pos width) h rest) (
        or_next-IsSupported _ _ (auto_rice-Tries t width row type (h ∷ rest))
          (auto_gzip-Tries t width row type (h ∷ rest))))
