-- ===== src/Columns/Chunks.antt =====
-- The chunks cover the rows.
use ele_fits.Prelude.{
  ℕ, zero, suc, ◌≡◌, refl, sym, ap, ◌∙◌, subst, inl, inr, false, Option, some, List, [], ◌∷◌, arith,
  Bool-cases, Outcome, ok,
}
use ele_fits.Prelude.Int.{
  ℤ, pos, negsuc, pos_part, neg_part, ◌+ℤ◌, ◌-ℤ◌, ◌==ℤ◌, ◌≤ℤ◌, ◌<ℤ◌, ltb_ℤ, int_laws, +ℤ_parts,
  -ℤ_parts, ltb_ℤ→lt, ltb_ℤ→le, lt→ltb_ℤ, le→ltb_ℤ,
}
use ele_fits.Segment.{from_size, shift_segment}
use ele_fits.FileMem.{FileMemSegments, rows_of_memory, resolve_rows}
use ele_fits.FileMem.Rows.{resolve_rows-rows_of_memory}
use ele_fits.Columns.{chunks, segment_seq, columns_row_count}

-- The calls go from row `next` of the memory to row `last`, without gap or overlap, by at most
-- `buffer_size` rows, and `shift` rows further in the file.
abbrev pub Tiles : ℤ → ℤ → ℤ → ℤ → List FileMemSegments → Type 0
Tiles buffer_size shift last next [] = last <ℤ next
Tiles buffer_size shift last next (call ∷ calls) =
    (call.memory.front ≡ next)
    × (next ≤ℤ call.memory.back)
    × (call.memory.back ≤ℤ last)
    × (call.memory.back <ℤ next +ℤ buffer_size)
    × (call.file.front ≡ next +ℤ shift)
    × (call.file.back ≡ call.memory.back +ℤ shift)
    × Tiles buffer_size shift last (call.memory.back +ℤ pos 1) calls

-- The call for known bounds.
known_call :
    (f m b table_back column_back : ℤ)
    → pos 0 ≤ℤ f
    → pos 0 ≤ℤ m
    → m ≤ℤ b
    → negsuc 0 ≤ℤ column_back
    → resolve_rows (rows_of_memory f (record { front = m; back = b })) table_back column_back
      ≡ record {
        file = record { front = f; back = f +ℤ (b -ℤ m) };
        memory = record { front = m; back = b };
      }
known_call f m b table_back column_back h k l last =
    resolve_rows-rows_of_memory (record { front = m; back = b }) f table_back column_back (k, inr l)
      (inl h) last
    ∙ rw (no_marker f h, no_marker b (omega arith))
  where
    no_marker : (a : ℤ) → pos 0 ≤ℤ a → (a ==ℤ negsuc 0) ≡ false
    no_marker a h = ground arith

module _ (table_back : ℕ → ℤ) (column_back last buffer_size : ℤ) where
  loop : ℕ → ℤ → ℤ → ℤ → ℤ → Option (List FileMemSegments)
  loop fuel f fb m mb =
      chunks table_back column_back last buffer_size fuel (record { front = f; back = fb })
        (record { front = m; back = mb })

  no_chunk : (fuel : ℕ) (f fb m mb : ℤ) → last <ℤ m → loop (suc fuel) f fb m mb ≡ some []
  unfolding loop chunks
  no_chunk fuel f fb m mb h = rw (lt→ltb_ℤ last m h)

  -- A round, by whether its rows are cut at the last one.
  cut_chunk :
      (fuel : ℕ) (f fb m mb : ℤ) {calls : List FileMemSegments}
      → m ≤ℤ last
      → last <ℤ mb
      → loop fuel (f +ℤ buffer_size) (fb +ℤ buffer_size) (m +ℤ buffer_size) (last +ℤ buffer_size)
        ≡ some calls
      → loop (suc fuel) f fb m mb
        ≡ some (
            resolve_rows
              (rows_of_memory f (record { front = m; back = last }))
              (table_back fuel)
              column_back
            ∷ calls)
  unfolding loop chunks shift_segment
  cut_chunk fuel f fb m mb h k e = rw (le→ltb_ℤ last m h, lt→ltb_ℤ last mb k, e)

  whole_chunk :
      (fuel : ℕ) (f fb m mb : ℤ) {calls : List FileMemSegments}
      → m ≤ℤ last
      → mb ≤ℤ last
      → loop fuel (f +ℤ buffer_size) (fb +ℤ buffer_size) (m +ℤ buffer_size) (mb +ℤ buffer_size)
        ≡ some calls
      → loop (suc fuel) f fb m mb
        ≡ some (
            resolve_rows
              (rows_of_memory f (record { front = m; back = mb }))
              (table_back fuel)
              column_back
            ∷ calls)
  unfolding loop chunks shift_segment
  whole_chunk fuel f fb m mb h k e = rw (le→ltb_ℤ last m h, le→ltb_ℤ last mb k, e)

  -- What the loop returns from `next` on.
  abbrev Covers : ℤ → ℤ → Option (List FileMemSegments) → Type 0
  Covers shift next outcome =
      (calls : List FileMemSegments) × (outcome ≡ some calls)
      × Tiles buffer_size shift last next calls

  call-Tiles :
      (table shift f m back : ℤ) (calls : List FileMemSegments)
      → negsuc 0 ≤ℤ column_back
      → pos 0 ≤ℤ m
      → pos 0 ≤ℤ f
      → f ≡ m +ℤ shift
      → m ≤ℤ back
      → back ≤ℤ last
      → back <ℤ m +ℤ buffer_size
      → Tiles buffer_size shift last (back +ℤ pos 1) calls
      → Tiles buffer_size shift last m (
          resolve_rows (rows_of_memory f (record { front = m; back = back })) table column_back
          ∷ calls)
  call-Tiles table shift f m back calls c n k e up down short rest =
      rw (known_call f m back table column_back k n up c)
        (refl, up, down, short, e, moved f m back shift e, rest)
    where
      moved : (f m back shift : ℤ) → f ≡ m +ℤ shift → f +ℤ (back -ℤ m) ≡ back +ℤ shift
      moved f m back shift e = ap (λ (x : ℤ). x +ℤ (back -ℤ m)) e ∙ regroup m back shift
        where
          regroup : (m back shift : ℤ) → m +ℤ shift +ℤ (back -ℤ m) ≡ back +ℤ shift
          regroup m back shift = omega int_laws

  loop-Covers :
      (fuel : ℕ) (shift f fb m mb : ℤ)
      → pos 0 <ℤ buffer_size
      → negsuc 0 ≤ℤ column_back
      → pos 0 ≤ℤ m
      → pos 0 ≤ℤ f
      → mb ≡ m +ℤ buffer_size -ℤ pos 1
      → f ≡ m +ℤ shift
      → last <ℤ m +ℤ pos fuel
      → Covers shift m (loop (suc fuel) f fb m mb)
  loop-Covers zero shift f fb m mb b c n k e1 e2 enough = (
    [],
    no_chunk zero f fb m mb (omega (arith, +ℤ_parts m (pos 0))),
    omega (arith, +ℤ_parts m (pos 0)),
  )
  loop-Covers (suc fuel) shift f fb m mb b c n k e1 e2 enough = elim (Bool-cases (ltb_ℤ last m)) [
    | inl past ↦ ([], no_chunk (suc fuel) f fb m mb (ltb_ℤ→lt last m past), ltb_ℤ→lt last m past)
    | inr more ↦ elim (Bool-cases (ltb_ℤ last mb)) [
      | inl cut ↦
          let some_left = ltb_ℤ→le last m more in
          let last_cut = ltb_ℤ→lt last mb cut in
          let short : last <ℤ m +ℤ buffer_size = bounded last_cut e1 in
          (
            _,
            cut_chunk (suc fuel) f fb m mb some_left last_cut (
                no_chunk fuel (f +ℤ buffer_size) (fb +ℤ buffer_size) (m +ℤ buffer_size)
                  (last +ℤ buffer_size) short),
            call-Tiles (table_back (suc fuel)) shift f m last [] c n k e2 some_left (omega arith)
                short (omega (arith, +ℤ_parts last (pos 1))),
          )
      | inr fit ↦
          let some_left = ltb_ℤ→le last m more in
          let whole = ltb_ℤ→le last mb fit in
          let (calls, runs, tiles) =
            loop-Covers fuel shift (f +ℤ buffer_size) (fb +ℤ buffer_size) (m +ℤ buffer_size)
              (mb +ℤ buffer_size) b c (omega (arith, +ℤ_parts m buffer_size))
              (omega (arith, +ℤ_parts f buffer_size)) (next_back e1) (next_front e2)
              (fewer enough) in
          (
            _,
            whole_chunk (suc fuel) f fb m mb some_left whole runs,
            call-Tiles (table_back (suc fuel)) shift f m mb calls c n k e2 (upwards e1) whole
                (below e1) (subst (λ x. Tiles buffer_size shift last x calls) (after e1) tiles),
          )
    ]
  ]
    where
      bounded : last <ℤ mb → mb ≡ m +ℤ buffer_size -ℤ pos 1 → last <ℤ m +ℤ buffer_size
      bounded h e = omega (arith, ap pos_part e, ap neg_part e, -ℤ_parts (m +ℤ buffer_size) (pos 1))

      next_back :
          mb ≡ m +ℤ buffer_size -ℤ pos 1
          → mb +ℤ buffer_size ≡ m +ℤ buffer_size +ℤ buffer_size -ℤ pos 1
      next_back e = ap (λ (x : ℤ). x +ℤ buffer_size) e ∙ regroup (m +ℤ buffer_size) buffer_size
        where
          regroup : (x y : ℤ) → x -ℤ pos 1 +ℤ y ≡ x +ℤ y -ℤ pos 1
          regroup x y = omega int_laws

      next_front : f ≡ m +ℤ shift → f +ℤ buffer_size ≡ m +ℤ buffer_size +ℤ shift
      next_front e = ap (λ (x : ℤ). x +ℤ buffer_size) e ∙ regroup m shift buffer_size
        where
          regroup : (x y z : ℤ) → x +ℤ y +ℤ z ≡ x +ℤ z +ℤ y
          regroup x y z = omega int_laws

      fewer : last <ℤ m +ℤ pos (suc fuel) → last <ℤ m +ℤ buffer_size +ℤ pos fuel
      fewer h = omega (
        arith,
        +ℤ_parts m (pos (suc fuel)),
        +ℤ_parts (m +ℤ buffer_size) (pos fuel),
        +ℤ_parts m buffer_size,
      )

      upwards : mb ≡ m +ℤ buffer_size -ℤ pos 1 → m ≤ℤ mb
      upwards e = omega (
        arith,
        ap pos_part e,
        ap neg_part e,
        -ℤ_parts (m +ℤ buffer_size) (pos 1),
        +ℤ_parts m buffer_size,
      )

      below : mb ≡ m +ℤ buffer_size -ℤ pos 1 → mb <ℤ m +ℤ buffer_size
      below e = omega (arith, ap pos_part e, ap neg_part e, -ℤ_parts (m +ℤ buffer_size) (pos 1))

      after : mb ≡ m +ℤ buffer_size -ℤ pos 1 → m +ℤ buffer_size ≡ mb +ℤ pos 1
      after e = sym (ap (λ (x : ℤ). x +ℤ pos 1) e ∙ regroup (m +ℤ buffer_size))
        where
          regroup : (x : ℤ) → x -ℤ pos 1 +ℤ pos 1 ≡ x
          regroup x = omega int_laws

-- What is left of the call after the rows are counted and the mapping is resolved.
abbrev loop_from : ℕ → (ℕ → ℤ) → ℤ → ℤ → FileMemSegments → Outcome (Option (List FileMemSegments))
loop_from fuel table_back buffer_size row_count r = ok (
    chunks table_back (row_count -ℤ pos 1) r.memory.back buffer_size fuel
      (from_size r.file.front buffer_size) (from_size r.memory.front buffer_size))

segment_seq-counted :
    (fuel : ℕ) (table_back : ℕ → ℤ) (buffer_size row_count : ℤ) (rows : FileMemSegments)
    (columns : List ℤ)
    → columns_row_count columns ≡ ok row_count
    → segment_seq fuel table_back buffer_size rows columns
      ≡ loop_from fuel table_back buffer_size row_count
          (resolve_rows rows (table_back fuel) (row_count -ℤ pos 1))
unfolding segment_seq
segment_seq-counted fuel table_back buffer_size row_count rows columns same = rw same

-- For columns that have a common number of rows, a buffer of at least one row, and fuel for one
-- round more than the rows of the resolved mapping, whose fronts are not negative, the loop of
-- `read_segment_seq_to` and `write_segment_seq` ends. Its calls cover the rows of the mapping, in
-- order, each row once, by at most the size of the buffer; and each row of the memory goes with the
-- row of the file as far from the front.
pub segment_seq-Tiles :
    (fuel : ℕ) (table_back : ℕ → ℤ) (buffer_size row_count : ℤ) (rows resolved : FileMemSegments)
    (columns : List ℤ)
    → columns_row_count columns ≡ ok row_count
    → pos 0 ≤ℤ row_count
    → pos 0 <ℤ buffer_size
    → resolve_rows rows (table_back (suc fuel)) (row_count -ℤ pos 1) ≡ resolved
    → pos 0 ≤ℤ resolved.memory.front
    → pos 0 ≤ℤ resolved.file.front
    → resolved.memory.back <ℤ resolved.memory.front +ℤ pos fuel
    → (calls : List FileMemSegments) × (segment_seq (suc fuel) table_back buffer_size rows columns
        ≡ ok (some calls))
      × Tiles buffer_size
          (resolved.file.front -ℤ resolved.memory.front)
          resolved.memory.back
          resolved.memory.front
          calls
unfolding loop from_size
segment_seq-Tiles fuel table_back buffer_size row_count rows resolved columns same n b e m f
      enough =
    let (calls, runs, tiles) =
      loop-Covers table_back (row_count -ℤ pos 1) resolved.memory.back buffer_size fuel
        (resolved.file.front -ℤ resolved.memory.front) resolved.file.front
        (resolved.file.front +ℤ buffer_size -ℤ pos 1) resolved.memory.front
        (resolved.memory.front +ℤ buffer_size -ℤ pos 1) b (at_least row_count n) m f refl
        (back_again resolved.file.front resolved.memory.front) enough in
    (
      calls,
      segment_seq-counted (suc fuel) table_back buffer_size row_count rows columns same
          ∙ ap (λ (r : FileMemSegments). loop_from (suc fuel) table_back buffer_size row_count r) e
          ∙ ap ok runs,
      tiles,
    )
  where
    at_least : (n : ℤ) → pos 0 ≤ℤ n → negsuc 0 ≤ℤ n -ℤ pos 1
    at_least n h = omega (arith, -ℤ_parts n (pos 1))

    back_again : (f m : ℤ) → f ≡ m +ℤ (f -ℤ m)
    back_again f m = omega int_laws
