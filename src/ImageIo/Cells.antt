-- ===== src/ImageIo/Cells.antt =====
-- What CFITSIO writes into the cells of a raster, and where the lines of a box stand in them.
use ele_fits.Prelude.{
  ℕ, zero, suc, ◌+◌, ◌*◌, ◌≤◌, ◌<◌, ◌≡◌, refl, ap, ◌∙◌, ◌≢◌, ◌⊎◌, inl, inr, List, [], ◌∷◌, length,
  get_elem?, set, length-set, ltb, true, some, arith, ok,
}
use ele_fits.ImageIo.{write_cells}

lt→ltb : (i n : ℕ) → i < n → ltb i n ≡ true
lt→ltb i n h = ground arith

module _ {A : Type 0} where
  get_elem?-set : (xs : List A) (i : ℕ) (v : A) → i < length xs → get_elem? (set xs i v) i ≡ some v
  get_elem?-set [] i v h = absurd (omega arith)
  get_elem?-set (x ∷ xs) zero v h = refl
  get_elem?-set (x ∷ xs) (suc i) v h = get_elem?-set xs i v (omega arith)

  get_elem?-set_other :
      (xs : List A) (i j : ℕ) (v : A) → i ≢ j → get_elem? (set xs i v) j ≡ get_elem? xs j
  get_elem?-set_other [] i j v h = refl
  get_elem?-set_other (x ∷ xs) zero zero v h = absurd (h refl)
  get_elem?-set_other (x ∷ xs) zero (suc j) v h = refl
  get_elem?-set_other (x ∷ xs) (suc i) zero v h = refl
  get_elem?-set_other (x ∷ xs) (suc i) (suc j) v h =
      get_elem?-set_other xs i j v (λ e. h (ap suc e))

  -- The cells after a line was written from cell `i` on.
  pub record Overwrites (cells : List A) (i : ℕ) (line cells' : List A) : Type 0 where
    pub written_size : length cells' ≡ length cells
    pub inside : (j : ℕ) → j < length line → get_elem? cells' (i + j) ≡ get_elem? line j
    pub outside : (k : ℕ) → (k < i) ⊎ (i + length line ≤ k) → get_elem? cells' k ≡ get_elem? cells k

  pub write_cells-Overwrites :
      (cells : List A) (i : ℕ) (line : List A)
      → i + length line ≤ length cells
      → (cells' : List A) × (write_cells cells i line ≡ ok cells') × Overwrites cells i line cells'
  unfolding write_cells
  write_cells-Overwrites cells i [] h = (
    cells,
    refl,
    record {
      written_size = refl;
      inside = λ j k. absurd (omega (arith, k));
      outside = λ k o. refl;
    },
  )
  write_cells-Overwrites cells i (a ∷ line) h =
      let (cells', wrote, o) =
        write_cells-Overwrites (set cells i a) (suc i) line
          (rw (length-set cells i a) (omega (arith, h))) in
      (
        cells',
        rw (lt→ltb i (length cells) (omega (arith, h))) wrote,
        record {
          written_size = o.written_size ∙ length-set cells i a;
          inside = at_index cells' o;
          outside = λ k away.
              o.outside k
                (elim away [ inl b ↦ inl (omega (arith, b)) | inr b ↦ inr (omega (arith, b)) ])
              ∙ get_elem?-set_other cells i k a
                  (λ e. elim away [ inl b ↦ omega (arith, b, e) | inr b ↦ omega (arith, b, e) ]);
        },
      )
    where
      at_index :
          (cells' : List A)
          → Overwrites (set cells i a) (suc i) line cells'
          → (j : ℕ) → j < suc (length line)
          → get_elem? cells' (i + j) ≡ get_elem? (a ∷ line) j
      at_index cells' o zero k =
          o.outside (i + 0) (inl (omega arith))
          ∙ ap (get_elem? (set cells i a)) (plus_zero i)
          ∙ get_elem?-set cells i a (omega (arith, h))
        where
          plus_zero : (n : ℕ) → n + 0 ≡ n
          plus_zero n = omega arith
      at_index cells' o (suc j) k =
          ap (get_elem? cells') (shift_suc i j) ∙ o.inside j (omega (arith, k))
        where
          shift_suc : (n j : ℕ) → n + suc j ≡ suc n + j
          shift_suc n j = omega arith

-- Two lines of at most `w` cells, in rows of `w` cells.
row_gap : (w r s : ℕ) → r < s → w * r + w ≤ w * s
row_gap w r s h = grind arith

pub lines_apart :
    (w d n r s j : ℕ)
    → d + n < w
    → r ≢ s
    → j ≤ n
    → (d + w * r + j < d + w * s) ⊎ (d + w * s + suc n ≤ d + w * r + j)
lines_apart w d n r s j h ne le = elim (order r s ne) [
  | inl lt ↦ inl (omega (arith, row_gap w r s lt))
  | inr lt ↦ inr (omega (arith, row_gap w s r lt))
]
  where
    order : (r s : ℕ) → r ≢ s → (r < s) ⊎ (s < r)
    order zero zero ne = absurd (ne refl)
    order zero (suc s) ne = inl (omega arith)
    order (suc r) zero ne = inr (omega arith)
    order (suc r) (suc s) ne = elim (order r s (λ e. ne (ap suc e))) [
      | inl lt ↦ inl (omega (arith, lt))
      | inr lt ↦ inr (omega (arith, lt))
    ]
