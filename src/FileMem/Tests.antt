-- ===== src/FileMem/Tests.antt =====
-- Mappings of rows and of a 2D box, and the theorems on them.
use ele_fits.Prelude.{◌≡◌, refl, ◌≢◌, inl, [], ◌∷◌, ok, arith}
use ele_fits.Prelude.Int.{pos, negsuc, ◌+ℤ◌, ◌-ℤ◌}
use ele_fits.Position.{Position}
use ele_fits.Region.{Region}
use ele_fits.Segment.{Segment, segment_size}
use ele_fits.FileMem.{FileMemRegions, rows_of_file, rows_of_memory, resolve_rows, box_of_file}
use ele_fits.FileMem.Rows.{back_in, resolve_rows-rows_of_file, resolve_rows-append}
use ele_fits.FileMem.Mapping.{Resolves}
use ele_fits.FileMem.Boxes.{box_of_file-Resolves}

-- From row 3 of the file on.
abbrev tail_rows : Segment
tail_rows = record { front = pos 3; back = negsuc 0 }

abbrev two_rows : Segment
two_rows = record { front = pos 4; back = pos 5 }

abbrev all_rows : Segment
all_rows = record { front = pos 0; back = negsuc 0 }

-- Five rows read into a column of many rows.
resolve_rows-tail : resolve_rows (rows_of_file tail_rows (pos 10)) (pos 7) (pos 99) ≡ record {
  file = record { front = pos 3; back = pos 7 };
  memory = record { front = pos 10; back = pos 14 };
}
unfolding resolve_rows rows_of_file ◌-ℤ◌ ◌+ℤ◌
resolve_rows-tail = refl

-- Two rows appended after row 7 of the file.
resolve_rows-lost_back :
    (resolve_rows (rows_of_memory (negsuc 0) two_rows) (pos 7) (pos 99)).file
    ≡ record { front = pos 8; back = pos 0 }
unfolding resolve_rows rows_of_memory ◌-ℤ◌ ◌+ℤ◌
resolve_rows-lost_back = refl

abbrev open_box : Region
open_box = record { front = pos 1 ∷ pos 2 ∷ []; back = negsuc 0 ∷ pos 5 ∷ [] }

abbrev corner : Position
corner = pos 0 ∷ pos 0 ∷ []

abbrev last_pixel : Position
last_pixel = pos 9 ∷ pos 9 ∷ []

resolve_rows-rows_of_file_example :
    resolve_rows (rows_of_file tail_rows (pos 10)) (pos 7) (pos 99) ≡ record {
      file = record { front = pos 3; back = back_in (pos 7) tail_rows };
      memory = record { front = pos 10; back = pos 10 +ℤ (back_in (pos 7) tail_rows -ℤ pos 3) };
    }
resolve_rows-rows_of_file_example =
    resolve_rows-rows_of_file tail_rows (pos 10) (pos 7) (pos 99) (omega arith, inl refl)
      (omega arith) (omega arith)

resolve_rows-append_example :
    segment_size (resolve_rows (rows_of_memory (negsuc 0) two_rows) (pos 7) (pos 99)).file
    ≢ segment_size two_rows
resolve_rows-append_example =
    resolve_rows-append two_rows (pos 7) (pos 99) (omega arith) (omega arith) (omega arith)

box_of_file-Resolves_example :
    (m : FileMemRegions) × (box_of_file (pos 2) open_box corner ≡ ok m)
    × (m.file.front ≡ open_box.front)
    × (m.memory.front ≡ corner)
    × Resolves m last_pixel last_pixel
box_of_file-Resolves_example =
    box_of_file-Resolves open_box corner last_pixel last_pixel
      (record { front_dimension = refl; back_dimension = refl }) refl refl
