-- ===== src/Columns/Tests.antt =====
-- Runs of the loop over chunks, and its theorem at seven rows by chunks of three.
use ele_fits.Prelude.{◌≡◌, refl, some, List, [], ◌∷◌, arith, ok, fail, fits_error}
use ele_fits.Prelude.Int.{ℤ, pos, negsuc, ◌-ℤ◌, +ℤ_parts, ◌+ℤ◌}
use ele_fits.FileMem.{FileMemSegments, rows_of_memory, resolve_rows}
use ele_fits.Columns.{columns_row_count, segment_seq}
use ele_fits.Columns.Chunks.{Tiles, segment_seq-Tiles}

-- All rows of the columns, from row 10 of the file.
abbrev from_ten : FileMemSegments
from_ten = record {
  file = record { front = pos 10; back = negsuc 1 };
  memory = record { front = pos 0; back = negsuc 0 };
}

abbrev seven_rows : FileMemSegments
seven_rows = record {
  file = record { front = pos 10; back = pos 16 };
  memory = record { front = pos 0; back = pos 6 };
}

abbrev mapping : ℤ → ℤ → ℤ → ℤ → FileMemSegments
mapping f fb m mb = record {
  file = record { front = f; back = fb };
  memory = record { front = m; back = mb };
}

from_ten_made : rows_of_memory (pos 10) (record { front = pos 0; back = negsuc 0 }) ≡ from_ten
unfolding rows_of_memory
from_ten_made = refl

columns_row_count-differ : columns_row_count (pos 7 ∷ pos 6 ∷ []) ≡ fail fits_error
unfolding columns_row_count
columns_row_count-differ = refl

segment_seq-from_ten :
    segment_seq 9 (λ k. pos 12) (pos 3) from_ten (pos 7 ∷ pos 7 ∷ [])
    ≡ ok (
        some (
          mapping (pos 10) (pos 12) (pos 0) (pos 2)
          ∷ mapping (pos 13) (pos 15) (pos 3) (pos 5)
          ∷ mapping (pos 16) (pos 16) (pos 6) (pos 6)
          ∷ []))
unfolding segment_seq ◌-ℤ◌ ◌+ℤ◌
segment_seq-from_ten = refl

segment_seq-Tiles_example :
    (calls : List FileMemSegments) × (segment_seq 9
        (λ k. pos 12)
        (pos 3)
        from_ten
        (pos 7 ∷ pos 7 ∷ [])
      ≡ ok (some calls))
    × Tiles (pos 3) (pos 10 -ℤ pos 0) (pos 6) (pos 0) calls
unfolding columns_row_count resolve_rows ◌-ℤ◌ ◌+ℤ◌
segment_seq-Tiles_example =
    segment_seq-Tiles 8 (λ k. pos 12) (pos 3) (pos 7) from_ten seven_rows (pos 7 ∷ pos 7 ∷ []) refl
      (omega arith) (omega arith) refl (omega arith) (omega arith)
      (omega (arith, +ℤ_parts (pos 0) (pos 8)))
