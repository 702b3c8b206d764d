-- ===== src/Compression/Strategy/Suited.antt =====
-- The compressions that are requested, and the images that they are requested for.
use ele_fits.Prelude.{
  ℕ, ◌*◌, ◌%◌, ◌≤◌, ◌<◌, ◌≡◌, ◌≢◌, refl, sym, ap, ◌∙◌, subst, ◌⊎◌, inl, inr, Bool, true, false, not,
  ◌&&◌, ◌||◌, Bool-cases, Option, none, some, List, [], ◌∷◌, ltb, leb, if◌then◌else◌, Outcome, ok,
  fail, undefined_behaviour, >>=-ok, arith,
}
use ele_fits.Prelude
use ele_fits.Prelude.Int.{ℤ, pos, to_size, ltb_ℤ, ◌<ℤ◌, ◌≤ℤ◌}
use ele_fits.Prelude.Methods.{Method, pure, and_then}
use ele_fits.Position.{Position, shape_size}
use ele_fits.Compression.{
  Algorithm, no_compression, gzip, shuffled_gzip, rice, hcompress, plio, Compression, is_lossless,
  is_too_small, auto_compression,
}
use ele_fits.Compression.Strategy.{
  Image, is_excluded, max_from, max_element, has_24_bits, can_plio, can_compress, compression_for,
  CompressionAction, compress, compress_ints, compress_floats, compress_auto, selected,
  uncompressed, requested, request, request_selected, apply, data_size, compress_image,
}

abbrev pub AllBelow : ℤ → List ℤ → Type 0
AllBelow limit [] = Unit
AllBelow limit (x ∷ xs) = (x <ℤ limit) × AllBelow limit xs

-- The pixels are integers, or may be changed.
abbrev IsLossyOrInts : Compression → Image → Type 0
IsLossyOrInts c image = (image.type.floating ≡ false) ⊎ (is_lossless c ≡ false)

abbrev pub IsSuited : Algorithm → Compression → Image → Type 0
IsSuited no_compression c image = Unit
IsSuited gzip c image = Unit
IsSuited shuffled_gzip c image = Unit
IsSuited rice c image = IsLossyOrInts c image
IsSuited hcompress c image =
    IsLossyOrInts c image
    × (w : ℤ) × (h : ℤ) × (rest : Position) × (image.shape ≡ w ∷ h ∷ rest)
    × (pos 4 ≤ℤ w)
    × (pos 4 ≤ℤ h)
IsSuited plio c image =
    (image.type.floating ≡ false)
    × (image.type.bytes ≤ 4)
    × ((image.type.bytes ≤ 2)
        ⊎ ((pixels : List ℤ) × (image.pixels ≡ some pixels) × AllBelow (pos 16777216) pixels))

max_from-bound :
    (m limit : ℤ) (xs : List ℤ) → max_from m xs <ℤ limit → (m <ℤ limit) × AllBelow limit xs
max_from-bound m limit [] h = (h, tt)
max_from-bound m limit (x ∷ xs) h =
    let (bound, rest) = max_from-bound (if ltb_ℤ m x then x else m) limit xs h in
    (ground arith, (ground arith, rest))

ok_true : {b : Bool} → ok b ≡ ok true → b ≡ true
ok_true e = cc

either_lossy :
    (c : Compression) (image : Image)
    → (not image.type.floating || not (is_lossless c)) ≡ true
    → IsLossyOrInts c image
either_lossy c image h = ground arith

either_false : (b : Bool) {x : Outcome Bool} → (if b then ok true else x) ≡ ok false → x ≡ ok false
either_false true e = cc
either_false false e = e

either_true :
    (b : Bool) {x : Outcome Bool}
    → (if b then ok false else x) ≡ ok true
    → (b ≡ false) × (x ≡ ok true)
either_true true e = cc
either_true false e = (refl, e)

large_enough :
    (shape : Position)
    → is_too_small shape ≡ ok false
    → (w : ℤ) × (h : ℤ) × (rest : Position) × (shape ≡ w ∷ h ∷ rest) × (pos 4 ≤ℤ w) × (pos 4 ≤ℤ h)
unfolding is_too_small
large_enough [] e = absurd (no_shape (either_false (ltb_ℤ (shape_size []) (pos 2)) e))
  where
    no_shape : ◌≡◌ {A = Outcome Bool} (fail undefined_behaviour) (ok false) → ⊥
    no_shape e = cc
large_enough (w ∷ []) e = absurd (
    one_axis
      (either_false (ltb_ℤ w (pos 4)) (either_false (ltb_ℤ (shape_size (w ∷ [])) (pos 2)) e)))
  where
    one_axis : ◌≡◌ {A = Outcome Bool} (fail undefined_behaviour) (ok false) → ⊥
    one_axis e = cc
large_enough (w ∷ h ∷ rest) e = (w, h, rest, refl, ground arith, ground arith)

has_24_bits-AllBelow :
    (pixels : Option (List ℤ))
    → has_24_bits pixels ≡ ok true
    → (xs : List ℤ) × (pixels ≡ some xs) × AllBelow (pos 16777216) xs
unfolding has_24_bits max_element
has_24_bits-AllBelow none e = absurd (refused e)
  where
    refused : ◌≡◌ {A = Outcome Bool} (ok false) (ok true) → ⊥
    refused e = cc
has_24_bits-AllBelow (some []) e = absurd (nothing e)
  where
    nothing : ◌≡◌ {A = Outcome Bool} (fail undefined_behaviour) (ok true) → ⊥
    nothing e = cc
has_24_bits-AllBelow (some (x ∷ xs)) e =
    let below = ok_true e in
    let (first, rest) = max_from-bound x (pos 16777216) xs (ground arith) in
    (x ∷ xs, refl, (first, rest))

can_plio-IsSuited :
    (c : Compression) (image : Image) → can_plio image ≡ ok true → IsSuited plio c image
unfolding can_plio
can_plio-IsSuited c image e =
    let (ints, rest) = either_true (image.type.floating || ltb 4 image.type.bytes) e in
    (
      ground arith,
      ground arith,
      elim (Bool-cases (ltb 2 image.type.bytes)) [
        | inl wide ↦ inr (has_24_bits-AllBelow image.pixels (sym (rw wide refl) ∙ rest))
        | inr narrow ↦ inl (ground arith)
      ],
    )

sized :
    (o : Outcome Bool) (b : Bool)
    → Prelude.◌>>=◌ o (λ small. ok (if small then false else b)) ≡ ok true
    → (o ≡ ok false) × (b ≡ true)
sized (fail reason) b e = cc
sized (ok true) b e = cc
sized (ok false) b e = (refl, ok_true e)

can_compress-IsSuited :
    (c : Compression) (image : Image) (a : Algorithm)
    → c.algorithm ≡ a
    → can_compress c image ≡ ok true
    → IsSuited a c image
unfolding can_compress
can_compress-IsSuited c image no_compression e h = tt
can_compress-IsSuited c image gzip e h = tt
can_compress-IsSuited c image shuffled_gzip e h = tt
can_compress-IsSuited c image rice e h = either_lossy c image (ok_true (sym (rw e refl) ∙ h))
can_compress-IsSuited c image plio e h = can_plio-IsSuited c image (sym (rw e refl) ∙ h)
can_compress-IsSuited c image hcompress e h =
    let (large, kept) =
      sized (is_too_small image.shape) (not image.type.floating || not (is_lossless c))
        (sym (rw e refl) ∙ h) in
    let (w, height, rest, is_shape, wide, tall) = large_enough image.shape large in
    (either_lossy c image kept, w, height, rest, is_shape, wide, tall)

-- What is selected for an image: its pixels are not integers of 8 bytes, and take more than 2880
-- bytes, as `std::size_t` counts them.
abbrev pub IsFor : Image → Compression → Type 0
IsFor image c =
    ((image.type.floating ≡ true) ⊎ (image.type.bytes ≢ 8))
    × (2880 < (to_size (shape_size image.shape) * image.type.bytes) % 18446744073709551616)
    × IsSuited c.algorithm c image

not_excluded :
    (image : Image)
    → is_excluded image ≡ false
    → ((image.type.floating ≡ true) ⊎ (image.type.bytes ≢ 8))
      × (2880 < (to_size (shape_size image.shape) * image.type.bytes) % 18446744073709551616)
unfolding is_excluded data_size
not_excluded image e = (
  elim (Bool-cases image.type.floating) [ inl f ↦ inl f | inr f ↦ inr (λ h. ground arith) ],
  ground arith,
)

SelectsSuited : Image → Outcome (Option Compression) → Type 0
SelectsSuited image o = (c : Compression) → o ≡ ok (some c) → IsFor image c

some_compression : {c c' : Compression} → ok (some c) ≡ ok (some c') → c ≡ c'
some_compression e = cc

nothing_selected : (image : Image) → SelectsSuited image (ok none)
unfolding SelectsSuited
nothing_selected image c e = cc

chosen_if :
    (c : Compression) (image : Image) (o : Outcome Bool)
    → can_compress c image ≡ o
    → is_excluded image ≡ false
    → SelectsSuited image (Prelude.◌>>=◌ o (λ can. ok (if can then some c else none)))
unfolding SelectsSuited
chosen_if c image (fail reason) e h c' s = cc
chosen_if c image (ok false) e h c' s = cc
chosen_if c image (ok true) e h c' s = subst (IsFor image) (some_compression s) (
  (not_excluded image h).0,
  (not_excluded image h).1,
  can_compress-IsSuited c image c.algorithm refl e,
)

compression_for-SelectsSuited :
    (c : Compression) (image : Image) → SelectsSuited image (compression_for c image)
unfolding compression_for
compression_for-SelectsSuited c image = elim (Bool-cases (is_excluded image)) [
  | inl h ↦ rw h (nothing_selected image)
  | inr h ↦ rw h (chosen_if c image (can_compress c image) refl h)
]

either-SelectsSuited :
    (image : Image) (b : Bool) (x y : Outcome (Option Compression))
    → SelectsSuited image x
    → SelectsSuited image y
    → SelectsSuited image (if b then x else y)
either-SelectsSuited image true x y h k = h
either-SelectsSuited image false x y h k = k

after_choice :
    (image : Image) (o : Outcome Compression)
    → SelectsSuited image (Prelude.◌>>=◌ o (λ c. compression_for c image))
unfolding SelectsSuited
after_choice image (fail reason) c e = cc
after_choice image (ok chosen) c e = compression_for-SelectsSuited chosen image c e

selected-SelectsSuited :
    (a : CompressionAction) (image : Image) → SelectsSuited image (selected a image)
unfolding selected
selected-SelectsSuited (compress c) image = compression_for-SelectsSuited c image
selected-SelectsSuited (compress_ints c) image =
    either-SelectsSuited image image.type.floating (ok none) (compression_for c image)
      (nothing_selected image) (compression_for-SelectsSuited c image)
selected-SelectsSuited (compress_floats c) image =
    either-SelectsSuited image image.type.floating (compression_for c image) (ok none)
      (compression_for-SelectsSuited c image) (nothing_selected image)
selected-SelectsSuited (compress_auto type) image =
    after_choice image (auto_compression image.type type image.shape)

module _ (accepts : Compression → Bool)
    (left : Compression → Option Compression → Option Compression) where
  -- The compression that is requested suits the image.
  Requests : Image → Outcome Bool × Option Compression → Type 0
  Requests image (ok true, after) = (c : Compression) × (after ≡ requested c) × IsFor image c
  Requests image (ok false, after) = Unit
  Requests image (fail reason, after) = Unit

  after_selection :
      (image : Image) (before : Option Compression) (o : Outcome (Option Compression))
      (rest : Method (Option Compression) Bool)
      → SelectsSuited image o
      → ((s : Option Compression) → Requests image (rest s))
      → Requests image (
          and_then
            (λ done. if done then pure true else rest)
            (and_then (request_selected accepts left) (o, before)))
  unfolding Requests SelectsSuited request
  after_selection image before (fail reason) rest suited later = tt
  after_selection image before (ok none) rest suited later = later before
  after_selection image before (ok (some c)) rest suited later = elim (Bool-cases (accepts c)) [
    | inl e ↦ rw e (c, refl, suited c refl)
    | inr e ↦ rw e tt
  ]

  told_false :
      (image : Image) (r : Outcome Bool × Option Compression)
      → Requests image (and_then (λ _. pure false) r)
  unfolding Requests
  told_false image (fail reason, after) = tt
  told_false image (ok done, after) = tt

  compress_image-Requests :
      (actions : List CompressionAction) (image : Image) (before : Option Compression)
      → Requests image (compress_image accepts left actions image before)
  unfolding compress_image
  compress_image-Requests [] image before =
      told_false image (apply accepts left (compress uncompressed) image before)
  compress_image-Requests (a ∷ actions) image before =
      after_selection image before (selected a image) (compress_image accepts left actions image)
        (selected-SelectsSuited a image) (λ s. compress_image-Requests actions image s)

  -- Where the strategy tells that it compresses an image, an algorithm is requested that is for the
  -- image; that of `Compress<NoCompression>` requests no compression. The pixels are not integers of
  -- 64 bits, and take more than 2880 bytes. Rice and HCompress have integers, or a compression that
  -- is not lossless; HCompress has two axes of at least 4 pixels; Plio has integers of at most 16
  -- bits, or of at most 32 bits and below 2^24, negative ones included.
  pub compress_image-IsFor :
      (actions : List CompressionAction) (image : Image) (before after : Option Compression)
      → compress_image accepts left actions image before ≡ (ok true, after)
      → (c : Compression) × (after ≡ requested c) × IsFor image c
  unfolding Requests
  compress_image-IsFor actions image before after e =
      subst (Requests image) e (compress_image-Requests actions image before)
