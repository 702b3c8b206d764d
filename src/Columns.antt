-- ===== src/Columns.antt =====
-- The loops over row segments of `BintableColumns` (EleFits/EleFits/BintableColumns.h,
-- impl/BintableColumns.hpp), which read or write several columns by chunks of rows.
pub mod Chunks
mod Tests
use package.ele_fits.Prelude.{
  ℕ, zero, suc, Bool, not, Option, none, some, List, [], ◌∷◌, if◌then◌else◌, Outcome, ok, fail,
  fits_error, ◌>>=◌,
}
use mathlib.Core.Option
use package.ele_fits.Prelude.Int.{ℤ, pos, negsuc, ◌-ℤ◌, ◌==ℤ◌, ltb_ℤ}
use package.ele_fits.Segment.{Segment, from_size, shift_segment}
use package.ele_fits.FileMem.{FileMemSegments, rows_of_memory, resolve_rows}

-- The loop of `columns_row_count` over the row counts of the columns.
unfoldable pub count_rows : ℤ → List ℤ → Outcome ℤ
count_rows rows [] = ok rows
count_rows rows (c_rows ∷ rest) =
    let first = count_rows c_rows rest in
    let later = count_rows rows rest in
    if rows ==ℤ negsuc 0 then first else if not (c_rows ==ℤ rows) then fail fits_error else later

unfoldable pub columns_row_count : List ℤ → Outcome ℤ
unfolding count_rows
columns_row_count columns = count_rows (negsuc 0) columns

-- `table_back` is the last row of the table, which a write may move, by the rounds to go;
-- `column_back` is the last row of the columns, `last` that of the part that is read or written.
module _ (table_back : ℕ → ℤ) (column_back last buffer_size : ℤ) where
  -- The loop of `read_segment_seq_to` and `write_segment_seq`: the mappings of the rounds, as the
  -- call for each of the columns resolves them. `none` where the fuel runs out.
  unfoldable pub chunks : ℕ → Segment → Segment → Option (List FileMemSegments)
  unfolding shift_segment rows_of_memory resolve_rows
  chunks zero file mem = none
  chunks (suc fuel) file mem =
      let clipped = if ltb_ℤ last mem.back then record mem { back = last } else mem in
      let rest = chunks fuel (shift_segment file buffer_size) (shift_segment clipped buffer_size) in
      let call = resolve_rows (rows_of_memory file.front clipped) (table_back fuel) column_back in
      if ltb_ℤ last mem.front then some [] else Option.map (λ calls. call ∷ calls) rest

-- `read_segment_seq_to` and `write_segment_seq`, on columns given by their row counts and for a
-- buffer of `buffer_size` rows.
unfoldable pub segment_seq :
    ℕ → (ℕ → ℤ) → ℤ → FileMemSegments → List ℤ → Outcome (Option (List FileMemSegments))
unfolding columns_row_count resolve_rows from_size chunks
segment_seq fuel table_back buffer_size rows columns = do
  row_count ← columns_row_count columns
  let resolved = resolve_rows rows (table_back fuel) (row_count -ℤ pos 1)
  ok (
      chunks table_back (row_count -ℤ pos 1) resolved.memory.back buffer_size fuel
        (from_size resolved.file.front buffer_size) (from_size resolved.memory.front buffer_size))
