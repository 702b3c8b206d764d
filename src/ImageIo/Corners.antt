-- ===== src/ImageIo/Corners.antt =====
-- The corners that `write_region` gives to CFITSIO.
use ele_fits.Prelude.{
  suc, ◌≤◌, ◌≡◌, refl, sym, ap, ◌∙◌, [], ◌∷◌, ◌++◌, length, drop, map, arith, ok,
}
use ele_fits.Prelude.Int.{ℤ, pos, ◌+ℤ◌, ◌-ℤ◌, +ℤ_parts, -ℤ_parts, eq_of_parts}
use ele_fits.Position.{Position, extend, add_scalar}
use ele_fits.Position.Laws.{zip_with, add-eq, subtract-eq, length-zip_with}
use ele_fits.Region.{Region, shape}
use ele_fits.ImageIo.{write_corners}

-- The lengths of the raster, then the coordinates of the destination on the other axes.
abbrev pub padded : Position → Position → Position
padded s d = s ++ drop (length s) d

extend-padded : (s d : Position) → length s ≤ length d → extend s d ≡ ok (padded s d)
unfolding extend
extend-padded [] d h = refl
extend-padded (x ∷ s) [] h = absurd (omega arith)
extend-padded (x ∷ s) (y ∷ d) h = rw (extend-padded s d (omega arith)) refl

length-padded : (s d : Position) → length s ≤ length d → length (padded s d) ≡ length d
length-padded [] d h = refl
length-padded (x ∷ s) [] h = absurd (omega arith)
length-padded (x ∷ s) (y ∷ d) h = ap suc (length-padded s d (omega arith))

between : (d e : ℤ) → d +ℤ e -ℤ (d +ℤ pos 1) +ℤ pos 1 ≡ e
between d e = eq_of_parts (d +ℤ e -ℤ (d +ℤ pos 1) +ℤ pos 1) e (
    omega (
      arith,
      +ℤ_parts d e,
      +ℤ_parts d (pos 1),
      -ℤ_parts (d +ℤ e) (d +ℤ pos 1),
      +ℤ_parts (d +ℤ e -ℤ (d +ℤ pos 1)) (pos 1),
    ))

extent_back :
    (d e : Position)
    → length e ≡ length d
    → map
        (λ l. l +ℤ pos 1)
        (zip_with (λ l r. l -ℤ r) (zip_with (λ l r. l +ℤ r) d e) (map (λ l. l +ℤ pos 1) d))
      ≡ e
extent_back [] [] h = refl
extent_back [] (y ∷ e) h = absurd (omega arith)
extent_back (x ∷ d) [] h = absurd (omega arith)
extent_back (x ∷ d) (y ∷ e) h = cc (between x y, extent_back d e (omega arith))

length-add_scalar : (d : Position) → length (map (λ l. l +ℤ pos 1) d) ≡ length d
length-add_scalar [] = refl
length-add_scalar (x ∷ d) = ap suc (length-add_scalar d)

-- For a raster of at most the dimension of the image, the corners of `write_region` start at the
-- destination, counted from 1. They span the lengths of the raster on its own axes, and on each
-- further axis as many pixels as the coordinate of the destination tells.
pub write_corners-shape :
    (s d : Position)
    → length s ≤ length d
    → (corners : Region) × (write_corners s d ≡ ok corners)
      × (corners.front ≡ add_scalar d (pos 1))
      × (shape corners ≡ ok (padded s d))
unfolding write_corners shape add_scalar
write_corners-shape s d h =
    let size : length (padded s d) ≡ length d = length-padded s d h in
    (
      record { front = map (λ l. l +ℤ pos 1) d; back = zip_with (λ l r. l +ℤ r) d (padded s d) },
      rw (extend-padded s d h, add-eq d (padded s d) (sym size)) refl,
      refl,
      rw
          (subtract-eq (zip_with (λ l r. l +ℤ r) d (padded s d)) (map (λ l. l +ℤ pos 1) d)
            (length-zip_with _ d (padded s d) (sym size) ∙ sym (length-add_scalar d)))
          (ap ok (extent_back d (padded s d) size)),
    )
