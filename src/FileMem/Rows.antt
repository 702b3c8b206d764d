-- ===== src/FileMem/Rows.antt =====
-- Rows.
use ele_fits.Prelude.{
  ◌≡◌, sym, ◌∙◌, ap, ◌≢◌, ◌⊎◌, inl, inr, false, if◌then◌else◌, arith, Bool-cases,
}
use ele_fits.Prelude.Int.{
  ℤ, pos, negsuc, pos_part, neg_part, ◌+ℤ◌, ◌-ℤ◌, ◌==ℤ◌, ◌≤ℤ◌, ==ℤ_iff, int_laws, +ℤ_parts,
  -ℤ_parts,
}
use ele_fits.Segment.{Segment, segment_size}
use ele_fits.FileMem.{rows_of_file, rows_of_memory, resolve_rows}

-- A segment of rows from `front` on: to a known row, or to the last, which a back of -1 marks.
abbrev pub IsRows : Segment → Type 0
IsRows s = (pos 0 ≤ℤ s.front) × ((s.back ≡ negsuc 0) ⊎ (s.front ≤ℤ s.back))

-- The back of a segment where the last row is `last`.
abbrev pub back_in : ℤ → Segment → ℤ
back_in last s = if s.back ==ℤ negsuc 0 then last else s.back

not_eq : (a b : ℤ) → (a ≡ b → ⊥) → (a ==ℤ b) ≡ false
not_eq a b ne = elim (Bool-cases (a ==ℤ b)) [ inl e ↦ absurd (ne ((==ℤ_iff a b).0 e)) | inr e ↦ e ]

-- A bound that is not a marker.
abbrev IsBound : ℤ → Type 0
IsBound a = ((a ==ℤ negsuc 0) ≡ false) × ((a ==ℤ negsuc 1) ≡ false)

bound : (a : ℤ) → pos 0 ≤ℤ a → IsBound a
bound a h = (ground arith, ground arith)

extended_back : (i f b : ℤ) → i +ℤ (b -ℤ f +ℤ pos 1) -ℤ pos 1 ≡ i +ℤ (b -ℤ f)
extended_back i f b = omega int_laws

-- For a segment of rows of the file and a row of the memory, and the last rows of both, `resolve`
-- keeps the fronts; it puts the last row of the file for a back of -1; and the memory has as many
-- rows as the file.
pub resolve_rows-rows_of_file :
    (s : Segment) (i file_back memory_back : ℤ)
    → IsRows s
    → pos 0 ≤ℤ i
    → negsuc 0 ≤ℤ file_back
    → resolve_rows (rows_of_file s i) file_back memory_back ≡ record {
      file = record { front = s.front; back = back_in file_back s };
      memory = record { front = i; back = i +ℤ (back_in file_back s -ℤ s.front) };
    }
unfolding resolve_rows rows_of_file segment_size
resolve_rows-rows_of_file s i file_back memory_back (h, inl unknown) k l =
    rw (unknown, (bound s.front h).0, no_marker file_back l)
      (ap
        (λ b. record {
          file = record { front = s.front; back = file_back };
          memory = record { front = i; back = b };
        })
        (extended_back i s.front file_back))
  where
    no_marker : (a : ℤ) → negsuc 0 ≤ℤ a → (a ==ℤ negsuc 1) ≡ false
    no_marker a h = ground arith
resolve_rows-rows_of_file s i file_back memory_back (h, inr known) k l =
    let (no_last, no_size) = bound s.back (omega arith) in
    let (has_back, has_size) =
      bound (i +ℤ (s.back -ℤ s.front))
        (omega (arith, -ℤ_parts s.back s.front, +ℤ_parts i (s.back -ℤ s.front))) in
    rw (extended_back i s.front s.back, no_last, (bound s.front h).0, has_back, no_size, has_size)

-- Where `resolve` puts the rows that start at `i` of the file, or that it appends for an `i` of -1.
abbrev pub front_in : ℤ → ℤ → ℤ
front_in last i = if i ==ℤ negsuc 0 then last +ℤ pos 1 else i

-- For a segment of rows of the memory, and a row of the file or, with an open segment, -1 to append
-- rows, and the last rows of both, `resolve` puts the row after the last of the file for an index
-- of -1, and the last row of the memory for a back of -1; and the file has as many rows as the
-- memory.
pub resolve_rows-rows_of_memory :
    (s : Segment) (i file_back memory_back : ℤ)
    → IsRows s
    → (pos 0 ≤ℤ i) ⊎ ((i ≡ negsuc 0) × (s.back ≡ negsuc 0))
    → negsuc 0 ≤ℤ memory_back
    → resolve_rows (rows_of_memory i s) file_back memory_back ≡ record {
      file = record {
        front = front_in file_back i;
        back = front_in file_back i +ℤ (back_in memory_back s -ℤ s.front);
      };
      memory = record { front = s.front; back = back_in memory_back s };
    }
unfolding resolve_rows rows_of_memory segment_size
resolve_rows-rows_of_memory s i file_back memory_back (h, inl unknown) (inl k) l =
    rw (unknown, (bound i k).0)
      (ap
        (λ b. record {
          file = record { front = i; back = b };
          memory = record { front = s.front; back = memory_back };
        })
        (extended_back i s.front memory_back))
resolve_rows-rows_of_memory s i file_back memory_back (h, inl unknown) (inr (at_end, also)) l =
    rw (at_end, unknown)
      (ap
        (λ b. record {
          file = record { front = file_back +ℤ pos 1; back = b };
          memory = record { front = s.front; back = memory_back };
        })
        (extended_back (file_back +ℤ pos 1) s.front memory_back))
resolve_rows-rows_of_memory s i file_back memory_back (h, inr known) (inl k) l =
    let (no_last, no_size) = bound s.back (omega arith) in
    let (has_back, has_size) =
      bound (i +ℤ (s.back -ℤ s.front))
        (omega (arith, -ℤ_parts s.back s.front, +ℤ_parts i (s.back -ℤ s.front))) in
    rw
      (extended_back i s.front s.back, no_last, (bound i k).0, has_back, no_last, has_size, no_size)
resolve_rows-rows_of_memory s i file_back memory_back (h, inr known) (inr (at_end, also)) l =
    absurd (omega (arith, ap pos_part also, ap neg_part also))

appended :
    (s : Segment) (file_back memory_back : ℤ)
    → pos 0 ≤ℤ s.front
    → s.front ≤ℤ s.back
    → (resolve_rows (rows_of_memory (negsuc 0) s) file_back memory_back).file
      ≡ record { front = file_back +ℤ pos 1; back = negsuc 0 +ℤ (s.back -ℤ s.front) }
unfolding resolve_rows rows_of_memory segment_size
appended s file_back memory_back h k =
    let (no_last, no_size) = bound s.back (omega arith) in
    rw (
      extended_back (negsuc 0) s.front s.back,
      no_last,
      no_last,
      has_size (s.back -ℤ s.front) (omega (arith, -ℤ_parts s.back s.front)),
      no_size,
    )
  where
    has_size : (a : ℤ) → pos 0 ≤ℤ a → ((negsuc 0 +ℤ a) ==ℤ negsuc 1) ≡ false
    has_size a h = ground (arith, +ℤ_parts (negsuc 0) a)

-- With an index of -1 to append rows of known bounds, `resolve` does not compute the back of the
-- file: after it the file has another number of rows than the memory.
pub resolve_rows-append :
    (s : Segment) (file_back memory_back : ℤ)
    → pos 0 ≤ℤ s.front
    → s.front ≤ℤ s.back
    → negsuc 0 ≤ℤ file_back
    → segment_size (resolve_rows (rows_of_memory (negsuc 0) s) file_back memory_back).file
      ≢ segment_size s
unfolding segment_size
resolve_rows-append s file_back memory_back h k l e =
    differ s.front s.back file_back l
      (sym (ap segment_size (appended s file_back memory_back h k)) ∙ e)
  where
    differ :
        (f b last : ℤ)
        → negsuc 0 ≤ℤ last
        → negsuc 0 +ℤ (b -ℤ f) -ℤ (last +ℤ pos 1) +ℤ pos 1 ≢ b -ℤ f +ℤ pos 1
    differ f b last l e = omega (int_laws, ap pos_part e, ap neg_part e)
