-- ===== src/ImageIo/Progress.antt =====
-- What the lines that are read so far have left in the cells of the destination.
use ele_fits.Prelude.{
  ℕ, suc, ◌+◌, ◌-◌, ◌≤◌, ◌<◌, ◌≡◌, sym, ap, ◌∙◌, subst, ◌≢◌, ◌⊎◌, inl, inr, List, ◌∷◌, length,
  get_elem?, some, ltb, ltb→lt, Bool-cases, arith,
}
use ele_fits.Prelude.Int.{ℤ, pos, ◌-ℤ◌}
use ele_fits.Position.{Position}
use ele_fits.Screener.Rank.{dist, InBox, rank, Displaced}
use ele_fits.Screener.Order.{rank_inj}
use ele_fits.Raster.Index.{zeros, lasts}
use ele_fits.ImageIo.Cells.{Overwrites, lines_apart}
use ele_fits.ImageIo.Lines.{Displaced-unique, Displaced-source, Displaced-InBox, InBox-InBox, along}

-- The region from `front` to `back` in the file and the one from `target` to `last` in the parent
-- raster, of one shape.
pub record Frame : Type 0 where
  pub length_0 : ℤ
  pub front_0 : ℤ
  pub back_0 : ℤ
  pub target_0 : ℤ
  pub last_0 : ℤ
  pub lengths : Position
  pub front : Position
  pub back : Position
  pub target : Position
  pub last : Position

module _ (t : Frame) where
  open t use {length_0, front_0, back_0, target_0, last_0, lengths, front, back, target, last}

  abbrev pub first : Position
  first = zeros (length_0 ∷ lengths)

  abbrev pub final : Position
  final = lasts (length_0 ∷ lengths)

  pub record IsFrame : Type 0 where
    pub ordered : InBox (front_0 ∷ front) (back_0 ∷ back) (back_0 ∷ back)
    pub same_shape : Displaced (front_0 ∷ front) (back_0 ∷ back) (target_0 ∷ target) (last_0 ∷ last)
    pub target_inside : InBox first final (target_0 ∷ target)
    pub last_inside : InBox first final (last_0 ∷ last)

  -- The cell of the start of a line.
  abbrev pub line_cell : Position → ℕ
  line_cell os = rank first final (target_0 ∷ os)

  -- The line of `cs` in the file goes to that of `os`.
  pub record IsLine (cs os : Position) : Type 0 where
    pub inside : InBox front back cs
    pub displaced : Displaced front cs target os

  abbrev pub line_rank : Position → ℕ
  line_rank cs = rank front back cs

  -- The last pixel of a line.
  abbrev pub line_end : ℕ
  line_end = dist front_0 back_0

  pub IsLine-room :
      (cs os : Position) → IsFrame → IsLine cs os → InBox (zeros lengths) (lasts lengths) os
  IsLine-room cs os v line =
      InBox-InBox (zeros lengths) (lasts lengths) target last os (v.target_inside.1)
        (v.last_inside.1)
        (Displaced-InBox front back cs target last os line.inside (v.same_shape.1) line.displaced)

  row_room : IsFrame → dist (pos 0) target_0 + line_end < dist (pos 0) (length_0 -ℤ pos 1) + 1
  row_room v = omega (arith, v.ordered.0, v.same_shape.0, v.target_inside.0, v.last_inside.0)

  -- The cells of a line end before those of another, or start after them.
  IsLine-apart :
      (cs os cs' os' : Position) (j : ℕ)
      → IsFrame
      → IsLine cs os
      → IsLine cs' os'
      → line_rank cs ≢ line_rank cs'
      → j ≤ line_end
      → (line_cell os + j < line_cell os') ⊎ (line_cell os' + suc line_end ≤ line_cell os + j)
  IsLine-apart cs os cs' os' j v line line' ne le =
      lines_apart (dist (pos 0) (length_0 -ℤ pos 1) + 1) (dist (pos 0) target_0) line_end
        (rank (zeros lengths) (lasts lengths) os) (rank (zeros lengths) (lasts lengths) os') j
        (row_room v) (λ e. ne (ap line_rank (one_source e))) le
    where
      one_source :
          rank (zeros lengths) (lasts lengths) os ≡ rank (zeros lengths) (lasts lengths) os'
          → cs ≡ cs'
      one_source e =
          let same =
            rank_inj (zeros lengths) (lasts lengths) os os' (IsLine-room cs os v line)
              (IsLine-room cs' os' v line') e in
          Displaced-source front cs cs' target os'
            (subst (Displaced front cs target) same line.displaced) line'.displaced

  module _ {A : Type 0} (pixel : Position → A) where
    -- The pixels of a line of the file.
    pub record Shows (cs : Position) (line : List A) : Type 0 where
      pub line_size : length line ≡ suc line_end
      pub line_pixel : (j : ℕ) → j ≤ line_end → get_elem? line j ≡ some (pixel (along front_0 j cs))

    -- The lines of ranks below `k` are read, and the other cells as they were.
    pub record Done (k : ℕ) (old cells : List A) : Type 0 where
      pub same_size : length cells ≡ length old
      pub read :
          (cs os : Position) (j : ℕ)
          → IsLine cs os
          → line_rank cs < k
          → j ≤ line_end
          → get_elem? cells (line_cell os + j) ≡ some (pixel (along front_0 j cs))
      pub kept :
          (i : ℕ)
          → ((cs os : Position) (j : ℕ)
              → IsLine cs os
              → line_rank cs < k
              → j ≤ line_end
              → i ≢ line_cell os + j)
          → get_elem? cells i ≡ get_elem? old i

    below : (r k : ℕ) → r < suc k → (r < k) ⊎ (r ≡ k)
    below r k h = elim (Bool-cases (ltb r k)) [
      | inl e ↦ inl (ltb→lt r k e)
      | inr e ↦ inr (ground arith)
    ]

    outside_line :
        (i s : ℕ) → ((j : ℕ) → j ≤ line_end → i ≢ s + j) → (i < s) ⊎ (s + suc line_end ≤ i)
    outside_line i s away = elim (Bool-cases (ltb i s)) [
      | inl e ↦ inl (ltb→lt i s e)
      | inr e ↦ (elim (Bool-cases (ltb line_end (i - s))) [
        | inl e' ↦ inr (ground arith)
        | inr e' ↦ absurd (away (i - s) (ground arith) (ground arith))
      ])
    ]

    pub Done-suc :
        (k : ℕ) (old cells cells' line : List A) (cs os : Position)
        → IsFrame
        → IsLine cs os
        → line_rank cs ≡ k
        → Shows cs line
        → Overwrites cells (line_cell os) line cells'
        → Done k old cells
        → Done (suc k) old cells'
    Done-suc k old cells cells' line cs os v is_line at shows o d = record {
      same_size = o.written_size ∙ d.same_size;
      read = λ cs' os' j is_line' lt le. elim (below (line_rank cs') k lt) [
        | inl earlier ↦
            o.outside (line_cell os' + j) (
              subst
                (λ n. (line_cell os' + j < line_cell os) ⊎ (line_cell os + n ≤ line_cell os' + j))
                (sym shows.line_size)
                (IsLine-apart cs' os' cs os j v is_line' is_line
                  (λ e. omega (arith, e, at, earlier)) le))
            ∙ d.read cs' os' j is_line' earlier le
        | inr now ↦ this_line cs' os' j is_line' (now ∙ sym at) le
      ];
      kept = λ i away.
          o.outside i (
            subst (λ n. (i < line_cell os) ⊎ (line_cell os + n ≤ i)) (sym shows.line_size)
              (outside_line i (line_cell os) (λ j le. away cs os j is_line (omega (arith, at)) le)))
          ∙ d.kept i (λ cs' os' j is_line' lt le. away cs' os' j is_line' (omega (arith, lt)) le);
    }
      where
        this_line :
            (cs' os' : Position) (j : ℕ)
            → IsLine cs' os'
            → line_rank cs' ≡ line_rank cs
            → j ≤ line_end
            → get_elem? cells' (line_cell os' + j) ≡ some (pixel (along front_0 j cs'))
        this_line cs' os' j is_line' e le =
            let same = rank_inj front back cs' cs is_line'.inside is_line.inside e in
            let same_target =
              Displaced-unique front cs' target os' os is_line'.displaced
                (subst (λ c. Displaced front c target os) (sym same) is_line.displaced) in
            ap (λ p. get_elem? cells' (line_cell p + j)) same_target
            ∙ o.inside j (omega (arith, shows.line_size, le))
            ∙ shows.line_pixel j le
            ∙ ap (λ c. some (pixel (along front_0 j c))) (sym same)
