-- ===== src/ImageIo/Reading.antt =====
-- The loop of `read_region_to` over the lines of a region.
use ele_fits.Prelude.{
  ℕ, zero, suc, ◌+◌, ◌≤◌, ◌≡◌, refl, sym, ap, ◌∙◌, subst, Option, some, List, ◌∷◌, length,
  get_elem?-some, arith, ok,
}
use native.Mathlib.Nat.{mod-eq_of_lt}
use ele_fits.Prelude.Int.{pos, ◌-ℤ◌, +ℤ_parts}
use ele_fits.Position.{Position}
use ele_fits.Screener.{Screener, next}
use ele_fits.Screener.Rank.{InBox, total}
use ele_fits.Screener.Order.{rank-lt-total}
use ele_fits.Raster.{Raster, index_at, read_cell}
use ele_fits.Raster.Index.{zeros, lasts, InBox-InShape}
use ele_fits.Raster.Unchecked.{index_at-rank}
use ele_fits.ImageIo.{read_line, read_lines, two_followers}
use ele_fits.ImageIo.Cells.{Overwrites, write_cells-Overwrites}
use ele_fits.ImageIo.Lines.{along, rank-along}
use ele_fits.ImageIo.Progress.{
  Frame, IsFrame, IsLine, IsLine-room, line_cell, line_rank, line_end, first, final, Shows, Done,
  Done-suc,
}
use ele_fits.ImageIo.Steps.{At, Screens, next-Screens}

module _ {A : Type 0} (read_subset : Position → Position → Option (List A)) where
  -- One round.
  read_lines-round :
      (left : ℕ) (s s' : Screener) (src_front src_back dst_front p q : Position) (r r' : Raster A)
      → read_line read_subset src_front src_back dst_front r ≡ (ok tt, r')
      → next s ≡ ok s'
      → two_followers s' ≡ ok (p, q)
      → read_lines read_subset (suc left) s src_front src_back dst_front r
        ≡ read_lines read_subset left s' s'.current p q r'
  unfolding read_lines
  read_lines-round left s s' src_front src_back dst_front p q r r' reads moves two =
      rw (reads, moves, two) refl

module _ {A : Type 0} (read_subset : Position → Position → Option (List A)) (t : Frame) where
  open t use {length_0, front_0, back_0, target_0, last_0, lengths, front, back, target, last}

  -- The parent raster has the lengths of the frame and a cell for each position.
  pub record Fits (r : Raster A) : Type 0 where
    pub lengths_are : r.lengths ≡ length_0 ∷ lengths
    pub all_cells : length r.cells ≡ total (first t) (final t)

  line_room :
      (cs os : Position)
      → IsFrame t
      → IsLine t cs os
      → line_cell t os + suc (line_end t) ≤ total (first t) (final t)
  line_room cs os v line =
      let inside : InBox (first t) (final t) (along target_0 (line_end t) os) = (
        (
          omega (arith, v.target_inside.0, +ℤ_parts target_0 (pos (line_end t))),
          omega (
            arith,
            v.ordered.0,
            v.same_shape.0,
            v.target_inside.0,
            v.last_inside.0,
            +ℤ_parts target_0 (pos (line_end t)),
          ),
        ),
        IsLine-room t cs os v line,
      ) in
      omega (
        arith,
        rank-lt-total (first t) (final t) (along target_0 (line_end t) os) inside,
        rank-along (pos 0) (length_0 -ℤ pos 1) target_0 (zeros lengths) (lasts lengths) os
            (line_end t) (v.target_inside.0.0),
      )

  line_index :
      (r : Raster A) (cs os : Position)
      → IsFrame t
      → IsLine t cs os
      → Fits r
      → index_at r.dim r.lengths (target_0 ∷ os) ≡ ok (pos (line_cell t os))
  line_index r cs os v line fits =
      subst (λ l. index_at r.dim l (target_0 ∷ os) ≡ ok (pos (line_cell t os)))
        (sym fits.lengths_are)
        (index_at-rank r.dim (length_0 ∷ lengths) (target_0 ∷ os) (
          InBox-InShape (length_0 ∷ lengths) (target_0 ∷ os)
            (v.target_inside.0, IsLine-room t cs os v line)))

  module _ (pixel : Position → A) where
    -- What is read of a line of the region.
    abbrev pub IsRead : Type 0
    IsRead =
        (cs : Position)
        → InBox front back cs
        → (line : List A) × (read_subset (front_0 ∷ cs) (along front_0 (line_end t) cs) ≡ some line)
          × Shows t pixel cs line

    read_line-Overwrites :
        (r : Raster A) (cs os : Position)
        → IsFrame t
        → IsRead
        → IsLine t cs os
        → Fits r
        → (line : List A) × (cells : List A) × (read_line read_subset
              (front_0 ∷ cs)
              (along front_0 (line_end t) cs)
              (target_0 ∷ os)
              r
            ≡ (ok tt, record r { cells = cells }))
          × Shows t pixel cs line
          × Overwrites r.cells (line_cell t os) line cells
    unfolding read_line read_cell
    read_line-Overwrites r cs os v is_read is_line fits =
        let (line, was_read, shows) = is_read cs is_line.inside in
        let room = line_room cs os v is_line in
        let (cells, wrote, o) =
          write_cells-Overwrites r.cells (line_cell t os) line
            (omega (arith, shows.line_size, fits.all_cells, room)) in
        let (a, there) =
          get_elem?-some r.cells (line_cell t os) (omega (arith, fits.all_cells, room)) in
        (line, cells, rw (line_index r cs os v is_line fits, there, was_read, wrote) refl, shows, o)

    -- A line more is read.
    read_line-Done :
        (old r : Raster A) (cs os : Position)
        → IsFrame t
        → IsRead
        → IsLine t cs os
        → Fits r
        → Done t pixel (line_rank t cs) old.cells r.cells
        → (cells : List A) × (read_line read_subset
              (front_0 ∷ cs)
              (along front_0 (line_end t) cs)
              (target_0 ∷ os)
              r
            ≡ (ok tt, record r { cells = cells }))
          × Done t pixel (suc (line_rank t cs)) old.cells cells
          × Fits (record r { cells = cells })
    read_line-Done old r cs os v is_read is_line fits d =
        let (line, cells, runs, shows, o) = read_line-Overwrites r cs os v is_read is_line fits in
        (
          cells,
          runs,
          Done-suc t pixel (line_rank t cs) old.cells r.cells cells line cs os v is_line refl shows
              o d,
          record { lengths_are = fits.lengths_are; all_cells = o.written_size ∙ fits.all_cells },
        )

    two_followers-At :
        (s : Screener) (cs os : Position)
        → At t s cs os
        → two_followers s ≡ ok (along front_0 (line_end t) cs, target_0 ∷ os)
    unfolding two_followers
    two_followers-At s cs os at = rw at.followers_are refl

    -- The rounds from a line on, up to the last line.
    pub read_lines-Done :
        (left : ℕ) (old r : Raster A) (s : Screener) (cs os : Position)
        → IsFrame t
        → IsRead
        → Screens t s
        → At t s cs os
        → line_rank t cs + suc left ≡ total front back
        → Fits r
        → Done t pixel (line_rank t cs) old.cells r.cells
        → (cells : List A) × (read_lines read_subset
              (suc left)
              s
              (front_0 ∷ cs)
              (along front_0 (line_end t) cs)
              (target_0 ∷ os)
              r
            ≡ (ok tt, record r { cells = cells }))
          × Done t pixel (total front back) old.cells cells
    unfolding read_lines
    read_lines-Done zero old r s cs os v is_read w at count fits d =
        let (cells, runs, d', fits') = read_line-Done old r cs os v is_read at.is_line fits d in
        let (s', moves, w', cs', os', at', ranked) = next-Screens t s cs os w at in
        (
          cells,
          read_lines-round read_subset zero s s' (front_0 ∷ cs) (along front_0 (line_end t) cs)
              (target_0 ∷ os) (along front_0 (line_end t) cs') (target_0 ∷ os') r
              (record r { cells = cells }) runs moves (two_followers-At s' cs' os' at'),
          subst (λ n. Done t pixel n old.cells cells) (omega (arith, count)) d',
        )
    read_lines-Done (suc left) old r s cs os v is_read w at count fits d =
        let (cells, runs, d', fits') = read_line-Done old r cs os v is_read at.is_line fits d in
        let (s', moves, w', cs', os', at', ranked) = next-Screens t s cs os w at in
        let up : line_rank t cs' ≡ suc (line_rank t cs) =
          ranked ∙ mod-eq_of_lt (omega (arith, count)) ∙ omega arith in
        let (cells', ends, done) =
          read_lines-Done left old (record r { cells = cells }) s' cs' os' v is_read w' at'
            (omega (arith, count, up)) fits'
            (subst (λ n. Done t pixel n old.cells cells) (sym up) d') in
        (
          cells',
          read_lines-round read_subset (suc left) s s' (front_0 ∷ cs)
                (along front_0 (line_end t) cs) (target_0 ∷ os) (along front_0 (line_end t) cs')
                (target_0 ∷ os') r (record r { cells = cells }) runs moves
                (two_followers-At s' cs' os' at')
              ∙ ap
                  (λ p.
                    read_lines read_subset (suc left) s' p (along front_0 (line_end t) cs')
                      (target_0 ∷ os') (record r { cells = cells }))
                  at'.current_is
              ∙ ends,
          done,
        )
