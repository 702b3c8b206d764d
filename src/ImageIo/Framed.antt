-- ===== src/ImageIo/Framed.antt =====
-- `read_region_to` between a region and a destination that are given by their axes.
use ele_fits.Prelude.{
  ℕ, ◌+◌, ◌≤◌, ◌≡◌, refl, sym, ap, ◌∙◌, subst, ◌≢◌, Option, some, List, [], ◌∷◌, map, length,
  get_elem?, arith, ok,
}
use ele_fits.Prelude.Int.{ℤ, pos, ◌+ℤ◌, ◌-ℤ◌, +ℤ_parts, -ℤ_parts, eq_of_parts}
use ele_fits.Position.{Position, add_scalar}
use ele_fits.Region.{Region, shift}
use ele_fits.Screener.{start}
use ele_fits.Screener.Rank.{dist, InBox, rank, total, Displaced}
use ele_fits.Screener.Order.{rank-lt-total, rank_inj}
use ele_fits.Raster.{Raster}
use ele_fits.Raster.Index.{zeros, lasts}
use ele_fits.ImageIo.{read_lines, read_region_to, line_length, flatten, stretch}
use ele_fits.ImageIo.Lines.{along, rank-along, Displaced-InBox, InBox-InBox}
use ele_fits.ImageIo.Sizes.{shape-extent, size-total, InBox-add_scalar, Displaced-add_scalar}
use ele_fits.ImageIo.Progress.{Frame, IsFrame, IsLine, line_cell, line_end, Done}
use ele_fits.ImageIo.Steps.{starts, starts-total, line_fronts}
use ele_fits.ImageIo.Reading.{IsRead}
use ele_fits.ImageIo.Whole.{ReadsImage, Transfers, frame_of, all_lines}

module _ {A : Type 0} (read_subset : Position → Position → Option (List A)) (pixel : Position → A)
    (l f b g h : ℤ) (ls fs bs gs hs : Position) (proper : InBox (f ∷ fs) (b ∷ bs) (b ∷ bs))
    (same_shape : Displaced (f ∷ fs) (b ∷ bs) (g ∷ gs) (h ∷ hs))
    (front_inside : InBox (zeros (l ∷ ls)) (lasts (l ∷ ls)) (g ∷ gs))
    (back_inside : InBox (zeros (l ∷ ls)) (lasts (l ∷ ls)) (h ∷ hs)) where
  abbrev frame : Frame
  frame = frame_of l ls f fs b bs g gs h hs

  frame-IsFrame : IsFrame frame
  unfolding add_scalar
  frame-IsFrame = record {
    ordered = InBox-add_scalar (f ∷ fs) (b ∷ bs) (b ∷ bs) proper;
    same_shape = Displaced-add_scalar (f ∷ fs) (b ∷ bs) (g ∷ gs) (h ∷ hs) same_shape;
    target_inside = front_inside;
    last_inside = back_inside;
  }

  line_end-dist : line_end frame ≡ dist f b
  line_end-dist = omega (arith, +ℤ_parts f (pos 1), +ℤ_parts b (pos 1))

  abbrev region : Region
  region = record { front = f ∷ fs; back = b ∷ bs }

  abbrev destination : Region
  destination = record { front = g ∷ gs; back = h ∷ hs }

  read_region_to-lines :
      (r : Raster A)
      → read_region_to read_subset region destination r
        ≡ read_lines read_subset
            (total frame.front frame.back)
            (start (starts frame) (line_fronts frame))
            (frame.front_0 ∷ frame.front)
            (along (frame.front_0) (line_end frame) frame.front)
            (g ∷ gs)
            r
  unfolding read_region_to flatten line_length stretch shift add_scalar
  read_region_to-lines r =
      rw
        (
          shape-extent (f ∷ fs) (b ∷ bs) proper,
          size-total (f +ℤ pos 1) (f +ℤ pos 1) (add_scalar fs (pos 1)) (add_scalar bs (pos 1))
                ((omega arith, omega arith), frame-IsFrame.ordered.1)
              ∙ ap (λ n. ok (pos n)) (starts-total frame),
          width_is,
        )
        refl
    where
      width_is : b -ℤ f +ℤ pos 1 -ℤ pos 1 ≡ pos (line_end frame)
      width_is = eq_of_parts _ _ (
          omega (
            arith,
            line_end-dist,
            proper.0,
            -ℤ_parts b f,
            +ℤ_parts (b -ℤ f) (pos 1),
            -ℤ_parts (b -ℤ f +ℤ pos 1) (pos 1),
          ))

  module _ (image : Position) (reads : ReadsImage read_subset image pixel)
      (front_in_image : InBox (map (λ s. pos 1) image) image (add_scalar (f ∷ fs) (pos 1)))
      (back_in_image : InBox (map (λ s. pos 1) image) image (add_scalar (b ∷ bs) (pos 1))) where
    in_image :
        (x : ℤ) (cs : Position)
        → InBox
            ((f +ℤ pos 1) ∷ add_scalar fs (pos 1))
            ((b +ℤ pos 1) ∷ add_scalar bs (pos 1))
            (x ∷ cs)
        → InBox (map (λ s. pos 1) image) image (x ∷ cs)
    unfolding add_scalar
    in_image x cs h =
        InBox-InBox (map (λ s. pos 1) image) image (add_scalar (f ∷ fs) (pos 1))
          (add_scalar (b ∷ bs) (pos 1)) (x ∷ cs) front_in_image back_in_image h

    frame-IsRead : IsRead read_subset frame pixel
    frame-IsRead cs h =
        let (line, e, size, pixels) =
          reads.reads_line (f +ℤ pos 1) (line_end frame) cs
            (in_image (f +ℤ pos 1) cs ((omega arith, omega (arith, frame-IsFrame.ordered.0)), h))
            (in_image (f +ℤ pos 1 +ℤ pos (line_end frame)) cs (
              (
                omega (arith, +ℤ_parts (f +ℤ pos 1) (pos (line_end frame))),
                omega
                    (arith, +ℤ_parts (f +ℤ pos 1) (pos (line_end frame)), frame-IsFrame.ordered.0),
              ),
              h,
            )) in
        (line, e, record { line_size = size; line_pixel = pixels })

    -- A position of the destination and its source, by the line and the place in it.
    shown :
        (cells old : List A) (x y : ℤ) (p o : Position)
        → Done frame pixel (total frame.front frame.back) old cells
        → InBox (f ∷ fs) (b ∷ bs) (x ∷ p)
        → Displaced (f ∷ fs) (x ∷ p) (g ∷ gs) (y ∷ o)
        → get_elem? cells (rank (zeros (l ∷ ls)) (lasts (l ∷ ls)) (y ∷ o))
          ≡ some (pixel (add_scalar (x ∷ p) (pos 1)))
    unfolding add_scalar
    shown cells old x y p o d h e =
        let inside = InBox-add_scalar fs bs p h.1 in
        let line : IsLine frame (add_scalar p (pos 1)) o = record {
          inside = inside;
          displaced = Displaced-add_scalar fs p gs o e.1;
        } in
        let at_pixel : f +ℤ pos 1 +ℤ pos (dist f x) ≡ x +ℤ pos 1 =
          eq_of_parts (f +ℤ pos 1 +ℤ pos (dist f x)) (x +ℤ pos 1) (
            omega (
              arith,
              h.0,
              +ℤ_parts f (pos 1),
              +ℤ_parts x (pos 1),
              +ℤ_parts (f +ℤ pos 1) (pos (dist f x)),
            )) in
        let at_cell : line_cell frame o + dist f x
            ≡ rank (zeros (l ∷ ls)) (lasts (l ∷ ls)) (y ∷ o) =
          omega (arith, h.0, e.0, front_inside.0) in
        ap (get_elem? cells) (sym at_cell)
        ∙ d.read (add_scalar p (pos 1)) o (dist f x) line
            (rank-lt-total frame.front frame.back (add_scalar p (pos 1)) inside)
            (omega (arith, h.0, line_end-dist))
        ∙ ap (λ c. some (pixel (c ∷ add_scalar p (pos 1)))) at_pixel

    shown_all :
        (cells old : List A) (p o : Position)
        → Done frame pixel (total frame.front frame.back) old cells
        → InBox (f ∷ fs) (b ∷ bs) p
        → Displaced (f ∷ fs) p (g ∷ gs) o
        → get_elem? cells (rank (zeros (l ∷ ls)) (lasts (l ∷ ls)) o)
          ≡ some (pixel (add_scalar p (pos 1)))
    shown_all cells old [] o d h e = absurd h
    shown_all cells old (x ∷ p) [] d h e = absurd e
    shown_all cells old (x ∷ p) (y ∷ o) d h e = shown cells old x y p o d h e

    -- A cell of a line is in the destination.
    unread :
        (q cs os : Position) (j : ℕ)
        → InBox (zeros (l ∷ ls)) (lasts (l ∷ ls)) q
        → ¬ InBox (g ∷ gs) (h ∷ hs) q
        → IsLine frame cs os
        → j ≤ line_end frame
        → rank (zeros (l ∷ ls)) (lasts (l ∷ ls)) q ≢ line_cell frame os + j
    unread q cs os j inside out line le e =
        let os_inside =
          Displaced-InBox frame.front frame.back cs gs hs os line.inside
            (frame-IsFrame.same_shape.1) line.displaced in
        let along_inside : InBox (g ∷ gs) (h ∷ hs) (along g j os) = (
          (
            omega (arith, +ℤ_parts g (pos j)),
            omega (arith, +ℤ_parts g (pos j), le, line_end-dist, same_shape.0, proper.0),
          ),
          os_inside,
        ) in
        let same : q ≡ along g j os =
          rank_inj (zeros (l ∷ ls)) (lasts (l ∷ ls)) q (along g j os) inside
            (InBox-InBox (zeros (l ∷ ls)) (lasts (l ∷ ls)) (g ∷ gs) (h ∷ hs) (along g j os)
              front_inside back_inside along_inside)
            (e
              ∙ sym (
                  rank-along (pos 0) (l -ℤ pos 1) g (zeros ls) (lasts ls) os j front_inside.0.0)) in
        out (subst (InBox (g ∷ gs) (h ∷ hs)) (sym same) along_inside)

    pub frame-Transfers :
        (r : Raster A)
        → r.lengths ≡ l ∷ ls
        → length r.cells ≡ total (zeros (l ∷ ls)) (lasts (l ∷ ls))
        → (cells : List A) × Transfers read_subset pixel region destination r cells
    frame-Transfers r lengths_are all =
        let (cells, runs, d) =
          all_lines read_subset frame pixel r frame-IsFrame frame-IsRead
            (record { lengths_are = lengths_are; all_cells = all }) in
        (
          cells,
          record {
            ends = read_region_to-lines r ∙ runs;
            shows = λ p o h e.
                subst
                  (λ s.
                    get_elem? cells (rank (zeros s) (lasts s) o)
                    ≡ some (pixel (add_scalar p (pos 1))))
                  (sym lengths_are) (shown_all cells r.cells p o d h e);
            keeps = λ q.
                subst
                  (λ s.
                    InBox (zeros s) (lasts s) q
                    → ¬ InBox destination.front destination.back q
                    → get_elem? cells (rank (zeros s) (lasts s) q)
                      ≡ get_elem? r.cells (rank (zeros s) (lasts s) q))
                  (sym lengths_are)
                  (λ inside out.
                    d.kept (rank (zeros (l ∷ ls)) (lasts (l ∷ ls)) q)
                      (λ cs os j line lt le. unread q cs os j inside out line le));
          },
        )
