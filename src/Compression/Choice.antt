-- ===== src/Compression/Choice.antt =====
-- The choice of `CompressAuto`.
use ele_fits.Prelude.{
  ℕ, zero, suc, ◌+◌, ◌*◌, ◌%◌, ◌≤◌, ◌<◌, ◌≢◌, ◌≡◌, refl, ◌⊎◌, inl, inr, true, false, not, ◌&&◌,
  ◌||◌, Option, none, some, [], ◌∷◌, length, ltb, ◌==◌, arith, Bool-cases, Outcome, ok, fail,
  undefined_behaviour,
}
use ele_fits.Prelude.Int.{ℤ, pos, negsuc, to_long, pos_part, ◌+ℤ◌, ◌*ℤ◌, leb_ℤ, ltb_ℤ, le→ltb_ℤ}
use ele_fits.Position.{Position, shape_size, accumulate_product}
use ele_fits.Raster.{check_bounds}
use ele_fits.Compression.{
  disabled, Quantization, no_pixel, Algorithm, no_compression, gzip, shuffled_gzip, rice, hcompress,
  plio, Compression, CompressionType, lossless, lossless_ints, lossy, PixelType, is_lossless_type,
  set_dithering, make_compression, is_lossless, make_quantization, auto_quantization, auto_tiling,
  rows_in_tile, row_size, hcompress_tiling, hcompress_scaling, acceptable_rows, whole_tile, rowwise,
  candidates, is_too_small, auto_plio, auto_hcompress, auto_rice, auto_gzip, or_next,
  auto_compression,
}

-- The pixels are to be kept exactly.
abbrev pub IsExact : PixelType → CompressionType → Type 0
IsExact t lossless = Unit
IsExact t lossless_ints = t.floating ≡ false
IsExact t lossy = ⊥

abbrev exact : Quantization
exact = record { level = disabled; dithering = no_pixel }

exact_quantization :
    (t : PixelType) (type : CompressionType)
    → IsExact t type
    → (auto_quantization t type ≡ ok exact) × (hcompress_scaling t type ≡ disabled)
unfolding auto_quantization hcompress_scaling
exact_quantization t lossless h = elim (Bool-cases t.floating) [
  | inl e ↦ rw e (refl, refl)
  | inr e ↦ rw e (refl, refl)
]
exact_quantization t lossless_ints h = rw h (refl, refl)
exact_quantization t lossy h = absurd h

-- A tiling of at most two axes.
abbrev pub IsTiling : Position → Type 0
IsTiling tiles = length tiles ≤ 2

pub in_range : (n : ℕ) → n ≤ 2 → (ltb (n + 0) 0 || ltb 6 (n + 0)) ≡ false
in_range n h = ground arith

abbrev made : Algorithm → Position → Compression
made a tiles = record { algorithm = a; tiling = tiles; quantization = exact; scaling = disabled }

make_compression-exact :
    (a : Algorithm) (tiles : Position)
    → IsTiling tiles
    → (c : Compression) × (make_compression a tiles exact disabled ≡ ok c) × (is_lossless c ≡ true)
unfolding make_compression is_lossless check_bounds
make_compression-exact no_compression tiles h =
    (made no_compression tiles, rw (in_range (length tiles) h) refl, refl)
make_compression-exact gzip tiles h = (made gzip tiles, rw (in_range (length tiles) h) refl, refl)
make_compression-exact shuffled_gzip tiles h =
    (made shuffled_gzip tiles, rw (in_range (length tiles) h) refl, refl)
make_compression-exact rice tiles h = (made rice tiles, rw (in_range (length tiles) h) refl, refl)
make_compression-exact hcompress tiles h =
    (made hcompress tiles, rw (in_range (length tiles) h) refl, refl)
make_compression-exact plio tiles h = (made plio tiles, rw (in_range (length tiles) h) refl, refl)

rows_in_tile-returns : (z : ℤ) → z ≢ pos 0 → (rows : ℤ) × (rows_in_tile z ≡ ok rows)
unfolding rows_in_tile
rows_in_tile-returns (pos zero) other = absurd (other refl)
rows_in_tile-returns (pos (suc n)) other = (_, refl)
rows_in_tile-returns (negsuc n) other = (_, refl)

-- A row takes at least one byte, and its bytes are counted by `std::size_t`.
abbrev pub IsRow : ℕ → ℕ → Type 0
IsRow width bytes = (1 ≤ width * bytes) × (width * bytes < 18446744073709551616)

mod_small : (n : ℕ) → n < 18446744073709551616 → n % 18446744073709551616 ≡ n
mod_small n h = omega arith

le_times_suc : (width b : ℕ) → width ≤ width * suc b
le_times_suc width b = grind arith

row_bytes :
    (width bytes : ℕ)
    → IsRow width bytes
    → ((width % 18446744073709551616) * bytes) % 18446744073709551616 ≡ width * bytes
row_bytes width zero (some_bytes, few) = absurd (omega arith)
row_bytes width (suc b) (some_bytes, few) =
    let narrow : width % 18446744073709551616 ≡ width =
      mod_small width (omega (arith, le_times_suc width b)) in
    rw narrow (mod_small (width * suc b) few)

to_long-not_zero : (n : ℕ) → 1 ≤ n → to_long n ≢ pos 0
to_long-not_zero n h e = ground arith

row_size-not_zero :
    (t : PixelType) (width : ℕ) → IsRow width t.bytes → row_size t (pos width) ≢ pos 0
unfolding row_size
row_size-not_zero t width row = rw (row_bytes width t.bytes row) (to_long-not_zero _ row.0)

-- The tiling of an image whose rows take at least one byte and less than 2^64.
pub auto_tiling-IsTiling :
    (t : PixelType) (width : ℕ) (rest : Position)
    → IsRow width t.bytes
    → (tiles : Position) × (auto_tiling t (pos width ∷ rest) ≡ ok tiles) × IsTiling tiles
unfolding auto_tiling
auto_tiling-IsTiling t width rest row =
    let rows = rows_in_tile-returns (row_size t (pos width)) (row_size-not_zero t width row) in
    elim (Bool-cases (leb_ℤ (shape_size (pos width ∷ rest)) (pos 1048576))) [
      | inl e ↦ (whole_tile, rw e refl, omega arith)
      | inr e ↦ (pos width ∷ (rows.0 +ℤ pos 1) ∷ [], rw (e, rows.1) refl, omega arith)
    ]

pub hcompress_tiling-IsTiling :
    (w h : ℤ) (rest : Position)
    → (tiles : Position) × (hcompress_tiling (w ∷ h ∷ rest) ≡ ok tiles) × IsTiling tiles
unfolding hcompress_tiling
hcompress_tiling-IsTiling w h rest = elim (Bool-cases (leb_ℤ h (pos 30))) [
  | inl e ↦ (whole_tile, rw e refl, omega arith)
  | inr e ↦ (rowwise (acceptable_rows (pos_part h) candidates), rw e refl, omega arith)
]

pub is_too_small-decides :
    (w h : ℤ) (rest : Position)
    → (is_too_small (w ∷ h ∷ rest) ≡ ok true) ⊎ (is_too_small (w ∷ h ∷ rest) ≡ ok false)
unfolding is_too_small
is_too_small-decides w h rest = elim (Bool-cases (ltb_ℤ (shape_size (w ∷ h ∷ rest)) (pos 2))) [
  | inl e ↦ inl (rw e refl)
  | inr e ↦ (elim (Bool-cases (ltb_ℤ w (pos 4))) [
    | inl e' ↦ inl (rw (e, e') refl)
    | inr e' ↦ (elim (Bool-cases (ltb_ℤ h (pos 4))) [
      | inl e'' ↦ inl (rw (e, e', e'') refl)
      | inr e'' ↦ inr (rw (e, e', e'') refl)
    ])
  ])
]

-- A choice that is refused, or that loses nothing.
abbrev KeepsAll : Outcome (Option Compression) → Type 0
KeepsAll choice =
    (choice ≡ ok none) ⊎ ((c : Compression) × (choice ≡ ok (some c)) × (is_lossless c ≡ true))

module _ (t : PixelType) (width : ℕ) (row : IsRow width t.bytes) where
  auto_plio-KeepsAll : (rest : Position) → KeepsAll (auto_plio t (pos width ∷ rest))
  unfolding auto_plio make_quantization set_dithering
  auto_plio-KeepsAll rest =
      let (tiles, tiled, few) = auto_tiling-IsTiling t width rest row in
      let (c, built, kept) = make_compression-exact plio tiles few in
      elim (Bool-cases (not t.floating && (t.bytes == 1))) [
        | inl e ↦ inr (c, rw (e, tiled, built) refl, kept)
        | inr e ↦ inl (rw e refl)
      ]

  module _ (type : CompressionType) (is_exact : IsExact t type) where
    auto_rice-KeepsAll : (rest : Position) → KeepsAll (auto_rice t type (pos width ∷ rest))
    unfolding auto_rice
    auto_rice-KeepsAll rest =
        let (tiles, tiled, few) = auto_tiling-IsTiling t width rest row in
        let (c, built, kept) = make_compression-exact rice tiles few in
        elim (Bool-cases (t.floating && is_lossless_type type)) [
          | inl e ↦ inl (rw e refl)
          | inr e ↦ inr (c, rw (e, tiled, (exact_quantization t type is_exact).0, built) refl, kept)
        ]

    auto_gzip-lossless :
        (rest : Position)
        → (c : Compression) × (auto_gzip t type (pos width ∷ rest) ≡ ok c) × (is_lossless c ≡ true)
    unfolding auto_gzip
    auto_gzip-lossless rest =
        let (tiles, tiled, few) = auto_tiling-IsTiling t width rest row in
        let (c, built, kept) = make_compression-exact shuffled_gzip tiles few in
        (c, rw (tiled, (exact_quantization t type is_exact).0, built) refl, kept)

    auto_hcompress-KeepsAll :
        (w h : ℤ) (rest : Position) → KeepsAll (auto_hcompress t type (w ∷ h ∷ rest))
    unfolding auto_hcompress is_too_small
    auto_hcompress-KeepsAll w h rest =
        let (tiles, tiled, few) = hcompress_tiling-IsTiling w h rest in
        let (c, built, kept) = make_compression-exact hcompress tiles few in
        let (q, s) = exact_quantization t type is_exact in
        elim (Bool-cases (t.floating && is_lossless_type type)) [
          | inl e ↦ inl (rw e refl)
          | inr e ↦ (elim (is_too_small-decides w h rest) [
            | inl small ↦ inl (rw (e, small) refl)
            | inr large ↦ inr (c, rw (e, large, q, s, tiled, built) refl, kept)
          ])
        ]

or_next-lossless :
    (first : Outcome (Option Compression)) (later : Outcome Compression)
    → KeepsAll first
    → ((c : Compression) × (later ≡ ok c) × (is_lossless c ≡ true))
    → (c : Compression) × (or_next first later ≡ ok c) × (is_lossless c ≡ true)
or_next-lossless first later (inl refused) h = rw refused h
or_next-lossless first later (inr (c, chosen, kept)) h = (c, rw chosen refl, kept)

-- With a type of compression that is to keep the pixels, `CompressAuto` chooses a compression for
-- every image of two or more axes whose rows take at least one byte and less than 2^64, and the chosen one is lossless.
pub auto_compression-is_lossless :
    (t : PixelType) (type : CompressionType) (width : ℕ) (h : ℤ) (rest : Position)
    → IsRow width t.bytes
    → IsExact t type
    → (c : Compression) × (auto_compression t type (pos width ∷ h ∷ rest) ≡ ok c)
      × (is_lossless c ≡ true)
unfolding auto_compression
auto_compression-is_lossless t type width h rest row exactly =
    or_next-lossless _ _ (auto_plio-KeepsAll t width row (h ∷ rest)) (
      or_next-lossless _ _ (auto_hcompress-KeepsAll t width row type exactly (pos width) h rest) (
        or_next-lossless _ _ (auto_rice-KeepsAll t width row type exactly (h ∷ rest))
          (auto_gzip-lossless t width row type exactly (h ∷ rest))))

one_axis_size : (n : ℕ) → shape_size (pos n ∷ []) ≡ pos n
unfolding shape_size accumulate_product ◌*ℤ◌
one_axis_size n = ground arith

-- On an image of one axis of at least four pixels, `CompressAuto` reads a second length, which the
-- shape does not have, unless a floating point type is to be kept without loss.
pub auto_hcompress-one_axis :
    (t : PixelType) (type : CompressionType) (n : ℕ)
    → 4 ≤ n
    → (t.floating && is_lossless_type type) ≡ false
    → auto_hcompress t type (pos n ∷ []) ≡ fail undefined_behaviour
unfolding auto_hcompress is_too_small
auto_hcompress-one_axis t type n long e =
    rw
      (
        e,
        one_axis_size n,
        le→ltb_ℤ (pos n) (pos 2) (omega arith),
        le→ltb_ℤ (pos n) (pos 4) (omega arith),
      )
      refl
