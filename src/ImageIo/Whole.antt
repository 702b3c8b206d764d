-- ===== src/ImageIo/Whole.antt =====
-- All lines of a region, and what is to be left in the destination.
use ele_fits.Prelude.{
  ℕ, suc, ◌-◌, ◌≤◌, ◌≡◌, refl, sym, ap, subst, Option, some, List, ◌∷◌, map, length, get_elem?,
  arith, ok,
}
use ele_fits.Prelude.Int.{ℤ, pos, ◌+ℤ◌}
use ele_fits.Position.{Position, add_scalar}
use ele_fits.Region.{Region}
use ele_fits.Screener.{start}
use ele_fits.Screener.Rank.{InBox, rank, total, Displaced}
use ele_fits.Screener.Order.{InBox-front, rank-front, rank-lt-total}
use ele_fits.Screener.Moves.{start-IsScreening, Displaced-self}
use ele_fits.Raster.{Raster}
use ele_fits.Raster.Index.{zeros, lasts}
use ele_fits.Raster.Unchecked.{CellAt}
use ele_fits.ImageIo.{read_lines, read_region_to}
use ele_fits.ImageIo.Lines.{along}
use ele_fits.ImageIo.Sizes.{Displaced-length}
use ele_fits.ImageIo.Progress.{Frame, IsFrame, IsLine, line_rank, line_end, Done}
use ele_fits.ImageIo.Steps.{starts, line_fronts, At, Screens}
use ele_fits.ImageIo.Reading.{Fits, IsRead, read_lines-Done}

-- `fits_read_subset` on an image of some shape, along the first axis between two 1-based corners:
-- it reads the pixels from one to the other.
pub record ReadsImage {A : Type 0} (read_subset : Position → Position → Option (List A))
    (image : Position) (pixel : Position → A) : Type 0 where
  pub reads_line :
      (c : ℤ) (n : ℕ) (cs : Position)
      → InBox (map (λ s. pos 1) image) image (c ∷ cs)
      → InBox (map (λ s. pos 1) image) image (along c n cs)
      → (line : List A) × (read_subset (c ∷ cs) (along c n cs) ≡ some line)
        × (length line ≡ suc n)
        × ((j : ℕ) → j ≤ n → get_elem? line j ≡ some (pixel (along c j cs)))

module _ {A : Type 0} (read_subset : Position → Position → Option (List A)) (t : Frame) where
  open t use {length_0, front_0, back_0, target_0, last_0, lengths, front, back, target, last}

  nothing-Done : (pixel : Position → A) (cells : List A) → Done t pixel 0 cells cells
  nothing-Done pixel cells = record {
    same_size = refl;
    read = λ cs os j line lt le. absurd (omega (arith, lt));
    kept = λ i away. refl;
  }

  -- The loop from the first line on.
  pub all_lines :
      (pixel : Position → A) (r : Raster A)
      → IsFrame t
      → IsRead read_subset t pixel
      → Fits read_subset t r
      → (cells : List A) × (read_lines read_subset
            (total front back)
            (start (starts t) (line_fronts t))
            (front_0 ∷ front)
            (along front_0 (line_end t) front)
            (target_0 ∷ target)
            r
          ≡ (ok tt, record r { cells = cells }))
        × Done t pixel (total front back) r.cells cells
  unfolding start
  all_lines pixel r v is_read fits =
      let proper : InBox front back front = InBox-front front back back (v.ordered.1) in
      let size : length target ≡ length front =
        Displaced-length front back target last (v.same_shape.1) in
      let screens : Screens t (start (starts t) (line_fronts t)) = record {
        screening =
            start-IsScreening (starts t) (line_fronts t) ((omega arith, omega arith), v.ordered.1)
              (refl, (ap suc size, tt));
        same_region = refl;
        same_fronts = refl;
      } in
      let line : IsLine t front target = record {
        inside = proper;
        displaced = Displaced-self front target size;
      } in
      let at : At t (start (starts t) (line_fronts t)) front target = record {
        current_is = refl;
        followers_are = refl;
        is_line = line;
      } in
      let at_first : line_rank t front ≡ 0 = rank-front front back in
      let some_lines : total front back ≡ suc (total front back - 1) =
        omega (arith, rank-lt-total front back front proper) in
      subst
        (λ n.
          (cells : List A) × (read_lines read_subset n (start (starts t) (line_fronts t))
              (front_0 ∷ front) (along front_0 (line_end t) front) (target_0 ∷ target) r
            ≡ (ok tt, record r { cells = cells }))
          × Done t pixel (total front back) r.cells cells)
        (sym some_lines)
        (read_lines-Done read_subset t pixel (total front back - 1) r r
          (start (starts t) (line_fronts t)) front target v is_read screens at
          (omega (arith, at_first, some_lines)) fits
          (subst (λ k. Done t pixel k r.cells r.cells) (sym at_first) (nothing-Done pixel r.cells)))

-- The call ends and the destination has, at each of its positions, the pixel of the image at the
-- position of the region that is as far from the front, while the other cells are kept.
pub record Transfers {A : Type 0} (read_subset : Position → Position → Option (List A))
    (pixel : Position → A) (region destination : Region) (r : Raster A) (cells : List A)
    : Type 0 where
  pub ends : read_region_to read_subset region destination r ≡ (ok tt, record r { cells = cells })
  pub shows :
      (p o : Position)
      → InBox region.front region.back p
      → Displaced region.front p destination.front o
      → CellAt (record r { cells = cells }) o (pixel (add_scalar p (pos 1)))
  pub keeps :
      (q : Position)
      → InBox (zeros r.lengths) (lasts r.lengths) q
      → ¬ InBox destination.front destination.back q
      → get_elem? cells (rank (zeros r.lengths) (lasts r.lengths) q)
        ≡ get_elem? r.cells (rank (zeros r.lengths) (lasts r.lengths) q)

-- The frame of a region of a file and one of a raster.
abbrev pub frame_of :
    ℤ → Position → ℤ → Position → ℤ → Position → ℤ → Position → ℤ → Position → Frame
frame_of l ls f fs b bs g gs h hs = record {
  length_0 = l;
  front_0 = f +ℤ pos 1;
  back_0 = b +ℤ pos 1;
  target_0 = g;
  last_0 = h;
  lengths = ls;
  front = add_scalar fs (pos 1);
  back = add_scalar bs (pos 1);
  target = gs;
  last = hs;
}
