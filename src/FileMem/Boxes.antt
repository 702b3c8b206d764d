-- ===== src/FileMem/Boxes.antt =====
-- Regions of images.
use ele_fits.Prelude.{
  ℕ, ◌+◌, ◌≡◌, refl, sym, ap, ◌∙◌, inl, inr, true, false, [], ◌∷◌, map, length, length-map,
  length-replicate, if◌then◌else◌, arith, Bool-cases, ok, ◌>>=◌, >>=-ok,
}
use ele_fits.Prelude.Int.{pos, negsuc, ◌+ℤ◌, ◌-ℤ◌, ◌==ℤ◌, ==ℤ_iff, int_laws}
use ele_fits.Position.{Position, origin, is_max, add_scalar, subtract_scalar}
use ele_fits.Position.Laws.{zip_with, length-zip_with, add-eq, subtract-eq}
use ele_fits.Region.{Region, from_shape, shape}
use ele_fits.Region.Shape.{HasDimension}
use ele_fits.FileMem.{FileMemRegions, box_of_file, box_of_memory}
use ele_fits.FileMem.Mapping.{Resolvable, Resolves, IsMapping-Resolves}

-- The back that `fromShape` gives to a box at `p` of the shape of the box from `f` to `b`.
abbrev back_at : Position → Position → Position → Position
back_at f b p =
    zip_with (λ l r. l +ℤ r) p
      (map (λ l. l -ℤ pos 1) (map (λ l. l +ℤ pos 1) (zip_with (λ l r. l -ℤ r) b f)))

made-Resolvable :
    (f b p : Position)
    → length f ≡ length p
    → length b ≡ length p
    → Resolvable f b p (back_at f b p)
made-Resolvable [] [] [] h k = tt
made-Resolvable [] [] (z ∷ p) h k = absurd (omega arith)
made-Resolvable [] (y ∷ b) [] h k = absurd (omega arith)
made-Resolvable [] (y ∷ b) (z ∷ p) h k = absurd (omega arith)
made-Resolvable (x ∷ f) [] [] h k = absurd (omega arith)
made-Resolvable (x ∷ f) [] (z ∷ p) h k = absurd (omega arith)
made-Resolvable (x ∷ f) (y ∷ b) [] h k = absurd (omega arith)
made-Resolvable (x ∷ f) (y ∷ b) (z ∷ p) h k =
    (inr (inr same), made-Resolvable f b p (omega arith) (omega arith))
  where
    same : z +ℤ (y -ℤ x +ℤ pos 1 -ℤ pos 1) -ℤ z ≡ y -ℤ x
    same = omega int_laws

-- A back of -1 on each axis can be resolved, whatever the other back.
max-Resolvable :
    (f b p z : Position)
    → is_max b ≡ true
    → length f ≡ length p
    → length b ≡ length p
    → length z ≡ length p
    → Resolvable f b p z
unfolding is_max
max-Resolvable [] [] [] [] e h k l = tt
max-Resolvable f b [] (w ∷ z) e h k l = absurd (omega arith)
max-Resolvable f b (c ∷ p) [] e h k l = absurd (omega arith)
max-Resolvable (x ∷ f) b [] z e h k l = absurd (omega arith)
max-Resolvable f (y ∷ b) [] z e h k l = absurd (omega arith)
max-Resolvable [] b (c ∷ p) z e h k l = absurd (omega arith)
max-Resolvable (x ∷ f) [] (c ∷ p) z e h k l = absurd (omega arith)
max-Resolvable (x ∷ f) (y ∷ b) (c ∷ p) (w ∷ z) e h k l = elim (Bool-cases (y ==ℤ negsuc 0)) [
  | inl same ↦ (
    inl ((==ℤ_iff y (negsuc 0)).0 same),
    max-Resolvable f b p z (rw same at e) (omega arith) (omega arith) (omega arith),
  )
  | inr other ↦ absurd (no_max (rw other at e))
]
  where
    no_max : false ≡ true → ⊥
    no_max e = cc

Resolvable-swap : (ff fb mf mb : Position) → Resolvable ff fb mf mb → Resolvable mf mb ff fb
Resolvable-swap [] [] [] [] h = h
Resolvable-swap [] [] [] (w ∷ mb) h = absurd h
Resolvable-swap [] [] (z ∷ mf) mb h = absurd h
Resolvable-swap [] (y ∷ fb) mf mb h = absurd h
Resolvable-swap (x ∷ ff) [] mf mb h = absurd h
Resolvable-swap (x ∷ ff) (y ∷ fb) [] mb h = absurd h
Resolvable-swap (x ∷ ff) (y ∷ fb) (z ∷ mf) [] h = absurd h
Resolvable-swap (x ∷ ff) (y ∷ fb) (z ∷ mf) (w ∷ mb) (inl e, rest) =
    (inr (inl e), Resolvable-swap ff fb mf mb rest)
Resolvable-swap (x ∷ ff) (y ∷ fb) (z ∷ mf) (w ∷ mb) (inr (inl e), rest) =
    (inl e, Resolvable-swap ff fb mf mb rest)
Resolvable-swap (x ∷ ff) (y ∷ fb) (z ∷ mf) (w ∷ mb) (inr (inr e), rest) =
    (inr (inr (sym e)), Resolvable-swap ff fb mf mb rest)

-- The other box as the constructors leave it, and that it can be resolved.
module _ (r : Region) (p : Position) (v : HasDimension (length p) r) where
  abbrev other_box : Region
  other_box =
      if is_max r.back
      then record { front = p; back = origin (pos (length p)) }
      else record { front = p; back = back_at r.front r.back p }

  shape_then_box :
      (do s ← shape r; from_shape p s) ≡ ok (record { front = p; back = back_at r.front r.back p })
  unfolding shape from_shape add_scalar subtract_scalar
  shape_then_box =
      let extent =
        length-zip_with (λ l r. l -ℤ r) r.back r.front (v.back_dimension ∙ sym v.front_dimension) in
      rw (
        subtract-eq r.back r.front (v.back_dimension ∙ sym v.front_dimension),
        add-eq p _ (
            sym (
              length-map _ (map (λ l. l +ℤ pos 1) (zip_with (λ l r. l -ℤ r) r.back r.front))
              ∙ length-map _ (zip_with (λ l r. l -ℤ r) r.back r.front)
              ∙ extent
              ∙ v.back_dimension)),
      )

  other-Resolvable : Resolvable r.front r.back other_box.front other_box.back
  unfolding origin
  other-Resolvable = elim (Bool-cases (is_max r.back)) [
    | inl e ↦ rw e (
        max-Resolvable r.front r.back p _ e v.front_dimension v.back_dimension
          (length-replicate (length p + 0) (pos 0) ∙ no_sign (length p)))
    | inr e ↦ rw e (made-Resolvable r.front r.back p v.front_dimension v.back_dimension)
  ]
    where
      no_sign : (n : ℕ) → n + 0 ≡ n
      no_sign n = omega arith

front_of_other :
    (r : Region) (p : Position) (v : HasDimension (length p) r) → (other_box r p v).front ≡ p
front_of_other r p v = elim (Bool-cases (is_max r.back)) [ inl e ↦ rw e | inr e ↦ rw e ]

-- For a region and a position of dimension n, the constructor from a region of the file and a
-- position of the memory returns. The mapping starts at the front of the region and at the
-- position, and `resolve`, with backs of dimension n, returns: it keeps the fronts and gives both
-- regions one shape.
pub box_of_file-Resolves :
    (r : Region) (p file_back memory_back : Position)
    → HasDimension (length p) r
    → length file_back ≡ length p
    → length memory_back ≡ length p
    → (m : FileMemRegions) × (box_of_file (pos (length p)) r p ≡ ok m)
      × (m.file.front ≡ r.front)
      × (m.memory.front ≡ p)
      × Resolves m file_back memory_back
unfolding box_of_file
box_of_file-Resolves r p file_back memory_back v k l =
    let (s, placed, sized) = >>=-ok (shape r) (λ s. from_shape p s) (shape_then_box r p v) in
    (
      record { file = r; memory = other_box r p v },
      rw (sized, placed),
      refl,
      front_of_other r p v,
      IsMapping-Resolves (length p) (record { file = r; memory = other_box r p v }) file_back
          memory_back
          (record {
            file_dimension = v.front_dimension;
            memory_dimension = ap length (front_of_other r p v);
            resolvable = other-Resolvable r p v;
          })
          k l,
    )

-- For a position and a region of dimension n, the constructor from a position of the file and a
-- region of the memory returns. The mapping starts at the position and at the front of the region,
-- and `resolve`, with backs of dimension n, returns: it keeps the fronts and gives both regions one
-- shape.
pub box_of_memory-Resolves :
    (p : Position) (r : Region) (file_back memory_back : Position)
    → HasDimension (length p) r
    → length file_back ≡ length p
    → length memory_back ≡ length p
    → (m : FileMemRegions) × (box_of_memory (pos (length p)) p r ≡ ok m)
      × (m.file.front ≡ p)
      × (m.memory.front ≡ r.front)
      × Resolves m file_back memory_back
unfolding box_of_memory
box_of_memory-Resolves p r file_back memory_back v k l =
    let (s, placed, sized) = >>=-ok (shape r) (λ s. from_shape p s) (shape_then_box r p v) in
    (
      record { file = other_box r p v; memory = r },
      rw (sized, placed),
      front_of_other r p v,
      refl,
      IsMapping-Resolves (length p) (record { file = other_box r p v; memory = r }) file_back
          memory_back
          (record {
            file_dimension = ap length (front_of_other r p v);
            memory_dimension = v.front_dimension;
            resolvable = Resolvable-swap r.front r.back _ _ (other-Resolvable r p v);
          })
          k l,
    )
