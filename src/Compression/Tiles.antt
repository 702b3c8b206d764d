-- ===== src/Compression/Tiles.antt =====
-- The tiles that `CompressAuto::hcompress_tiling` chooses.
use ele_fits.Prelude.{
  ℕ, ◌≤◌, ◌<◌, ◌%◌, ◌≡◌, refl, ◌↔◌, ◌⊎◌, inl, inr, true, false, ◌||◌, List, [], ◌∷◌, leb, ◌==◌,
  arith, Bool-cases, ok,
}
use ele_fits.Prelude.Int.{ℤ, pos, leb_ℤ}
use mathlib.Core.List.{Memᴰ}
use ele_fits.Position.{Position}
use ele_fits.Compression.{hcompress_tiling, acceptable_rows, rowwise, candidates}

gt→leb_ℤ : (height : ℕ) → 30 < height → leb_ℤ (pos height) (pos 30) ≡ false
gt→leb_ℤ height tall = ground arith

-- A tile height that divides the image, or leaves at least four rows to the last tile.
abbrev IsAcceptable : ℕ → ℕ → Type 0
IsAcceptable height rows = (height % rows ≡ 0) ⊎ (4 ≤ height % rows)

is_acceptable :
    (height rows : ℕ)
    → IsAcceptable height rows ↔ (((height % rows == 0) || leb 4 (height % rows)) ≡ true)
is_acceptable height rows = ground arith

abbrev pub IsFound : ℕ → List ℕ → ℕ → Type 0
IsFound height tried rows = Memᴰ rows tried × IsAcceptable height rows

abbrev pub AllLeaveFew : ℕ → List ℕ → Type 0
AllLeaveFew height [] = Unit
AllLeaveFew height (rows ∷ rest) = (¬ IsAcceptable height rows) × AllLeaveFew height rest

acceptable_rows-IsFound :
    (height : ℕ) (tried : List ℕ)
    → IsFound height tried (acceptable_rows height tried)
      ⊎ ((acceptable_rows height tried ≡ 17) × AllLeaveFew height tried)
unfolding acceptable_rows
acceptable_rows-IsFound height [] = inr (refl, tt)
acceptable_rows-IsFound height (first ∷ rest) =
    elim (Bool-cases ((height % first == 0) || leb 4 (height % first))) [
      | inl e ↦ inl (rw e (Memᴰ.head refl, (is_acceptable height first).1 e))
      | inr e ↦ (elim (acceptable_rows-IsFound height rest) [
        | inl (m, fits) ↦ inl (rw e (Memᴰ.tail m, fits))
        | inr (last, few) ↦
            inr
              (rw e (last, ((λ fits. let found = (is_acceptable height first).0 fits in cc), few)))
      ])
    ]

-- An image of more than 30 rows is given tiles of whole rows by `hcompress_tiling`. The row count
-- of a tile is one of those tried, and the last tile is then full or has at least four rows; or it
-- is 17, when each row count tried leaves one to three rows to the last tile.
pub hcompress_tiling-rows :
    (w : ℤ) (height : ℕ) (rest : Position)
    → 30 < height
    → (rows : ℕ) × (hcompress_tiling (w ∷ pos height ∷ rest) ≡ ok (rowwise rows))
      × (IsFound height candidates rows ⊎ ((rows ≡ 17) × AllLeaveFew height candidates))
unfolding hcompress_tiling
hcompress_tiling-rows w height rest tall = (
  acceptable_rows height candidates,
  rw (gt→leb_ℤ height tall) refl,
  acceptable_rows-IsFound height candidates,
)
