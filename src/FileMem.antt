-- ===== src/FileMem.antt =====
-- `FileMemSegments` (EleFits/EleFits/FileMemSegments.h, EleFits/src/lib/FileMemSegments.cpp) and
-- `FileMemRegions` (EleFits/EleFits/FileMemRegions.h): the part of the file and the part of the
-- memory that a read or a write of columns or of an image goes between.
pub mod Rows
pub mod Mapping
pub mod Boxes
mod Tests
use package.ele_fits.Prelude.{
  List, [], ◌∷◌, if◌then◌else◌, Outcome, ok, fail, undefined_behaviour, ◌>>=◌,
}
use package.ele_fits.Prelude.Int.{ℤ, pos, negsuc, ◌+ℤ◌, ◌-ℤ◌, ◌==ℤ◌}
use package.ele_fits.Position.{Position, origin, is_max, subtract}
use package.ele_fits.Region.{Region, from_shape, shape}
use package.ele_fits.Segment.{Segment, from_size, segment_size}

pub record FileMemSegments : Type 0 where
  pub file : Segment
  pub memory : Segment

-- `FileMemSegments(fileSegment, memoryIndex)`. A back of -2 is to be computed by `resolve`.
unfoldable pub rows_of_file : Segment → ℤ → FileMemSegments
unfolding from_size segment_size
rows_of_file segment index =
    let memory = from_size index (segment_size segment) in
    record {
      file = segment;
      memory = if segment.back ==ℤ negsuc 0 then record memory { back = negsuc 1 } else memory;
    }

-- `FileMemSegments(fileIndex, memorySegment)`
unfoldable pub rows_of_memory : ℤ → Segment → FileMemSegments
unfolding from_size segment_size
rows_of_memory index segment =
    let file = from_size index (segment_size segment) in
    record {
      file = if segment.back ==ℤ negsuc 0 then record file { back = negsuc 1 } else file;
      memory = segment;
    }

unfoldable pub rows_size : FileMemSegments → ℤ
rows_size s = segment_size s.file

-- The three statements of `resolve`.
unfoldable pub resolve_file : ℤ → FileMemSegments → FileMemSegments
resolve_file file_back s =
    if s.file.front ==ℤ negsuc 0
    then record s { file = record s.file { front = file_back +ℤ pos 1 } }
    else if s.file.back ==ℤ negsuc 0
    then record s { file = record s.file { back = file_back } }
    else s

unfoldable pub resolve_memory : ℤ → FileMemSegments → FileMemSegments
resolve_memory memory_back s =
    if s.memory.back ==ℤ negsuc 0
    then record s { memory = record s.memory { back = memory_back } }
    else s

unfoldable pub resolve_sizes : FileMemSegments → FileMemSegments
unfolding segment_size
resolve_sizes s =
    if s.file.back ==ℤ negsuc 1
    then record s { file = record s.file { back = s.file.front +ℤ segment_size s.memory -ℤ pos 1 } }
    else if s.memory.back ==ℤ negsuc 1
    then record s {
      memory = record s.memory { back = s.memory.front +ℤ segment_size s.file -ℤ pos 1 };
    }
    else s

unfoldable pub resolve_rows : FileMemSegments → ℤ → ℤ → FileMemSegments
unfolding resolve_file resolve_memory resolve_sizes
resolve_rows s file_back memory_back =
    resolve_sizes (resolve_memory memory_back (resolve_file file_back s))

unfoldable pub rows_to_memory : FileMemSegments → ℤ
rows_to_memory s = s.memory.front -ℤ s.file.front

unfoldable pub rows_to_file : FileMemSegments → ℤ
rows_to_file s = s.file.front -ℤ s.memory.front

pub record FileMemRegions : Type 0 where
  pub file : Region
  pub memory : Region

-- `FileMemRegions<n>(fileRegion, memoryPosition)`
unfoldable pub box_of_file : ℤ → Region → Position → Outcome FileMemRegions
box_of_file n region position = do
  s ← shape region
  memory ← from_shape position s
  ok (record {
    file = region;
    memory = if is_max region.back then record memory { back = origin n } else memory;
  })

-- `FileMemRegions<n>(filePosition, memoryRegion)`
unfoldable pub box_of_memory : ℤ → Position → Region → Outcome FileMemRegions
box_of_memory n position region = do
  s ← shape region
  file ← from_shape position s
  ok (record {
    file = if is_max region.back then record file { back = origin n } else file;
    memory = region;
  })

unfoldable pub box_to_memory : FileMemRegions → Outcome Position
box_to_memory r = subtract r.memory.front r.file.front

unfoldable pub box_to_file : FileMemRegions → Outcome Position
box_to_file r = subtract r.file.front r.memory.front

-- One round of the loop of `resolve`: the backs of the file and of the memory on one axis.
unfoldable pub resolve_axis : ℤ → ℤ → ℤ → ℤ → ℤ → ℤ × ℤ
resolve_axis f m file_back memory_back move =
    if f ==ℤ negsuc 0
    then (file_back, file_back +ℤ move)
    else if m ==ℤ negsuc 0
    then (memory_back -ℤ move, memory_back)
    else (f, m)

unfoldable pub resolve_axes :
    Position → Position → Position → Position → Position → Outcome (Position × Position)
unfolding resolve_axis
resolve_axes [] ms fbs mbs moves = ok ([], ms)
resolve_axes (f ∷ fs) (m ∷ ms) (fb ∷ fbs) (mb ∷ mbs) (move ∷ moves) = do
  (fs', ms') ← resolve_axes fs ms fbs mbs moves
  let back = resolve_axis f m fb mb move
  ok (back.0 ∷ fs', back.1 ∷ ms')
resolve_axes _ _ _ _ _ = fail undefined_behaviour

unfoldable pub resolve_box : FileMemRegions → Position → Position → Outcome FileMemRegions
unfolding box_to_memory resolve_axes
resolve_box r file_back memory_back = do
  moves ← box_to_memory r
  (fs, ms) ← resolve_axes r.file.back r.memory.back file_back memory_back moves
  ok (record { file = record r.file { back = fs }; memory = record r.memory { back = ms } })
