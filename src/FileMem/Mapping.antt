-- ===== src/FileMem/Mapping.antt =====
-- The resolution of a pair of boxes, axis by axis.
use ele_fits.Prelude.{
  ℕ, suc, ◌≡◌, refl, sym, ap, ◌∙◌, ◌⊎◌, inl, inr, false, [], ◌∷◌, length, arith, Bool-cases,
  Outcome, ok,
}
use ele_fits.Prelude.Int.{ℤ, negsuc, ◌+ℤ◌, ◌-ℤ◌, ◌==ℤ◌, ==ℤ_iff, int_laws}
use ele_fits.Position.{Position}
use ele_fits.Position.Laws.{zip_with, subtract-eq}
use ele_fits.Region.{shape}
use ele_fits.FileMem.{FileMemRegions, box_to_memory, resolve_axis, resolve_axes, resolve_box}

-- On each axis a back is -1, or the file and the memory have one length.
abbrev pub Resolvable : Position → Position → Position → Position → Type 0
Resolvable [] [] [] [] = Unit
Resolvable (ff ∷ ffs) (fb ∷ fbs) (mf ∷ mfs) (mb ∷ mbs) =
    ((fb ≡ negsuc 0) ⊎ ((mb ≡ negsuc 0) ⊎ (mb -ℤ mf ≡ fb -ℤ ff))) × Resolvable ffs fbs mfs mbs
Resolvable _ _ _ _ = ⊥

-- The extents of both boxes, where the loop returns.
abbrev SameExtents : Position → Position → Outcome (Position × Position) → Type 0
SameExtents ffs mfs outcome =
    (fs : Position) × (ms : Position) × (outcome ≡ ok (fs, ms))
    × (length fs ≡ length ffs)
    × (length ms ≡ length mfs)
    × (zip_with (λ l r. l -ℤ r) fs ffs ≡ zip_with (λ l r. l -ℤ r) ms mfs)

one_axis :
    (ff fb mf mb file memory : ℤ)
    → (fb ≡ negsuc 0) ⊎ ((mb ≡ negsuc 0) ⊎ (mb -ℤ mf ≡ fb -ℤ ff))
    → (resolve_axis fb mb file memory (mf -ℤ ff)).0 -ℤ ff
      ≡ (resolve_axis fb mb file memory (mf -ℤ ff)).1 -ℤ mf
unfolding resolve_axis
one_axis ff fb mf mb file memory h = elim (Bool-cases (fb ==ℤ negsuc 0)) [
  | inl e ↦ rw e (moved file ff mf)
  | inr e ↦ elim (Bool-cases (mb ==ℤ negsuc 0)) [
    | inl e' ↦ rw (e, e') (moved_back memory ff mf)
    | inr e' ↦ rw (e, e') (given h e e')
  ]
]
  where
    moved : (x a b : ℤ) → x -ℤ a ≡ x +ℤ (b -ℤ a) -ℤ b
    moved x a b = omega int_laws

    moved_back : (x a b : ℤ) → x -ℤ (b -ℤ a) -ℤ a ≡ x -ℤ b
    moved_back x a b = omega int_laws

    given :
        (fb ≡ negsuc 0) ⊎ ((mb ≡ negsuc 0) ⊎ (mb -ℤ mf ≡ fb -ℤ ff))
        → (fb ==ℤ negsuc 0) ≡ false
        → (mb ==ℤ negsuc 0) ≡ false
        → fb -ℤ ff ≡ mb -ℤ mf
    given (inl same) e e' = cc (e, (==ℤ_iff fb (negsuc 0)).1 same)
    given (inr (inl same)) e e' = cc (e', (==ℤ_iff mb (negsuc 0)).1 same)
    given (inr (inr same)) e e' = sym same

resolve_axes-SameExtents :
    (ffs fbs mfs mbs files memories : Position)
    → Resolvable ffs fbs mfs mbs
    → length files ≡ length ffs
    → length memories ≡ length ffs
    → SameExtents ffs mfs (resolve_axes fbs mbs files memories (zip_with (λ l r. l -ℤ r) mfs ffs))
unfolding resolve_axes
resolve_axes-SameExtents [] [] [] [] files memories h k l = ([], [], refl, refl, refl, refl)
resolve_axes-SameExtents [] [] [] (mb ∷ mbs) files memories h k l = absurd h
resolve_axes-SameExtents [] [] (mf ∷ mfs) mbs files memories h k l = absurd h
resolve_axes-SameExtents [] (fb ∷ fbs) mfs mbs files memories h k l = absurd h
resolve_axes-SameExtents (ff ∷ ffs) [] mfs mbs files memories h k l = absurd h
resolve_axes-SameExtents (ff ∷ ffs) (fb ∷ fbs) [] mbs files memories h k l = absurd h
resolve_axes-SameExtents (ff ∷ ffs) (fb ∷ fbs) (mf ∷ mfs) [] files memories h k l = absurd h
resolve_axes-SameExtents (ff ∷ ffs) (fb ∷ fbs) (mf ∷ mfs) (mb ∷ mbs) [] memories h k l =
    absurd (omega arith)
resolve_axes-SameExtents (ff ∷ ffs) (fb ∷ fbs) (mf ∷ mfs) (mb ∷ mbs) (file ∷ files) [] h k l =
    absurd (omega arith)
resolve_axes-SameExtents (ff ∷ ffs) (fb ∷ fbs) (mf ∷ mfs) (mb ∷ mbs) (file ∷ files)
      (memory ∷ memories) (h, rest) k l =
    let (fs, ms, runs, f_size, m_size, extents) =
      resolve_axes-SameExtents ffs fbs mfs mbs files memories rest (omega arith) (omega arith) in
    let back = resolve_axis fb mb file memory (mf -ℤ ff) in
    (
      back.0 ∷ fs,
      back.1 ∷ ms,
      rw runs,
      ap suc f_size,
      ap suc m_size,
      cc (one_axis ff fb mf mb file memory h, extents),
    )

-- The two boxes have one dimension, and each axis can be resolved.
pub record IsMapping (n : ℕ) (r : FileMemRegions) : Type 0 where
  pub file_dimension : length r.file.front ≡ n
  pub memory_dimension : length r.memory.front ≡ n
  pub resolvable : Resolvable r.file.front r.file.back r.memory.front r.memory.back

-- Where both constructors lead: `resolve` returns, keeps the fronts and gives the boxes one shape.
abbrev pub Resolves : FileMemRegions → Position → Position → Type 0
Resolves r file_back memory_back =
    (r' : FileMemRegions) × (resolve_box r file_back memory_back ≡ ok r')
    × (r'.file.front ≡ r.file.front)
    × (r'.memory.front ≡ r.memory.front)
    × (shape r'.file ≡ shape r'.memory)

pub IsMapping-Resolves :
    (n : ℕ) (r : FileMemRegions) (file_back memory_back : Position)
    → IsMapping n r
    → length file_back ≡ n
    → length memory_back ≡ n
    → Resolves r file_back memory_back
unfolding resolve_box box_to_memory shape
IsMapping-Resolves n r file_back memory_back v k l =
    let (fs, ms, runs, f_size, m_size, extents) =
      resolve_axes-SameExtents r.file.front r.file.back r.memory.front r.memory.back file_back
        memory_back v.resolvable (k ∙ sym v.file_dimension) (l ∙ sym v.file_dimension) in
    (
      record { file = record r.file { back = fs }; memory = record r.memory { back = ms } },
      rw (
        subtract-eq r.memory.front r.file.front (v.memory_dimension ∙ sym v.file_dimension),
        runs,
      ),
      refl,
      refl,
      rw (subtract-eq fs r.file.front f_size, subtract-eq ms r.memory.front m_size, extents),
    )
