-- ===== src/ImageIo/Tests.antt =====
-- A region of an image of 3 by 3 pixels, read into a raster of 3 by 3 pixels.
use ele_fits.Prelude.{
  ℕ, zero, suc, ◌+◌, ◌*◌, ◌<◌, ◌≡◌, refl, ap, ◌∙◌, Option, none, some, List, [], ◌∷◌, length,
  get_elem?, arith, ok,
}
use ele_fits.Prelude.Int.{ℤ, pos, pos_part, ◌+ℤ◌, ◌-ℤ◌, ◌*ℤ◌, +ℤ_parts, eq_of_parts}
use ele_fits.Position.{Position, add_scalar, shape_size, subtract, position_eq}
use ele_fits.Region.{Region, shape}
use ele_fits.Screener.Rank.{dist}
use ele_fits.Raster.{Raster}
use ele_fits.ImageIo.{read_region_to, write_corners}
use ele_fits.ImageIo.Lines.{along}
use ele_fits.ImageIo.Corners.{write_corners-shape}
use ele_fits.ImageIo.Whole.{ReadsImage, Transfers}
use ele_fits.ImageIo.Transfer.{read_region_to-Transfers}

abbrev image : Position
image = pos 3 ∷ pos 3 ∷ []

-- The pixel at `x` and `y`, counted from 1, is 10 y + x.
abbrev pixel : Position → ℕ
pixel (x ∷ y ∷ []) = 10 * pos_part y + pos_part x
pixel _ = 0

abbrev line_from : ℤ → Position → ℕ → List ℕ
line_from c cs zero = []
line_from c cs (suc n) = pixel (c ∷ cs) ∷ line_from (c +ℤ pos 1) cs n

abbrev read_subset : Position → Position → Option (List ℕ)
read_subset (c ∷ cs) (e ∷ es) = some (line_from c cs (suc (dist c e)))
read_subset _ _ = none

length-line_from : (c : ℤ) (cs : Position) (n : ℕ) → length (line_from c cs n) ≡ n
length-line_from c cs zero = refl
length-line_from c cs (suc n) = ap suc (length-line_from (c +ℤ pos 1) cs n)

line_from-along :
    (c : ℤ) (cs : Position) (n j : ℕ)
    → j < n
    → get_elem? (line_from c cs n) j ≡ some (pixel (along c j cs))
line_from-along c cs zero j h = absurd (omega arith)
line_from-along c cs (suc n) zero h =
    ap (λ (z : ℤ). some (pixel (z ∷ cs)))
      (eq_of_parts c (c +ℤ pos 0) (omega (arith, +ℤ_parts c (pos 0))))
line_from-along c cs (suc n) (suc j) h =
    line_from-along (c +ℤ pos 1) cs n j (omega arith)
    ∙ ap (λ (z : ℤ). some (pixel (z ∷ cs)))
        (eq_of_parts (c +ℤ pos 1 +ℤ pos j) (c +ℤ pos (suc j)) (
          omega
            (arith, +ℤ_parts c (pos 1), +ℤ_parts (c +ℤ pos 1) (pos j), +ℤ_parts c (pos (suc j)))))

dist-along : (c : ℤ) (n : ℕ) → dist c (c +ℤ pos n) ≡ n
dist-along c n = omega (arith, +ℤ_parts c (pos n))

image-ReadsImage : ReadsImage read_subset image pixel
image-ReadsImage = record {
  reads_line = λ c n cs start end. (
    line_from c cs (suc n),
    ap (λ (m : ℕ). some (line_from c cs (suc m))) (dist-along c n),
    length-line_from c cs (suc n),
    λ j h. line_from-along c cs (suc n) j (omega (arith, h)),
  );
}

abbrev empty_raster : Raster ℕ
empty_raster = record {
  dim = pos 2;
  lengths = image;
  cells = 0 ∷ 0 ∷ 0 ∷ 0 ∷ 0 ∷ 0 ∷ 0 ∷ 0 ∷ 0 ∷ [];
}

abbrev source : Region
source = record { front = pos 1 ∷ pos 0 ∷ []; back = pos 2 ∷ pos 1 ∷ [] }

abbrev corner : Region
corner = record { front = pos 0 ∷ pos 1 ∷ []; back = pos 1 ∷ pos 2 ∷ [] }

corner_read :
    read_region_to read_subset source corner empty_raster
    ≡ (ok tt, record empty_raster { cells = 0 ∷ 0 ∷ 0 ∷ 12 ∷ 13 ∷ 0 ∷ 22 ∷ 23 ∷ 0 ∷ [] })
unfolding read_region_to add_scalar subtract shape_size ◌*ℤ◌ ◌+ℤ◌ ◌-ℤ◌ position_eq
corner_read = refl

read_region_to-Transfers_example :
    (cells : List ℕ) × Transfers read_subset pixel source corner empty_raster cells
unfolding add_scalar shape_size ◌*ℤ◌ ◌+ℤ◌ ◌-ℤ◌
read_region_to-Transfers_example =
    read_region_to-Transfers read_subset image pixel image-ReadsImage source corner empty_raster
      (record { axes = λ e. cc; cells_size = refl })
      (record {
        proper = ((omega arith, omega arith), ((omega arith, omega arith), tt));
        same_shape = (refl, (refl, tt));
        front_in_raster = ((omega arith, omega arith), ((omega arith, omega arith), tt));
        back_in_raster = ((omega arith, omega arith), ((omega arith, omega arith), tt));
        front_in_image = ((omega arith, omega arith), ((omega arith, omega arith), tt));
        back_in_image = ((omega arith, omega arith), ((omega arith, omega arith), tt));
      })

-- A plane of 2 by 2 pixels, written to the third plane of a cube.
write_corners-shape_example :
    (corners : Region) × (write_corners (pos 2 ∷ pos 2 ∷ []) (pos 0 ∷ pos 0 ∷ pos 2 ∷ [])
      ≡ ok corners)
    × (corners.front ≡ add_scalar (pos 0 ∷ pos 0 ∷ pos 2 ∷ []) (pos 1))
    × (shape corners ≡ ok (pos 2 ∷ pos 2 ∷ pos 2 ∷ []))
write_corners-shape_example =
    write_corners-shape (pos 2 ∷ pos 2 ∷ []) (pos 0 ∷ pos 0 ∷ pos 2 ∷ []) (omega arith)
