-- ===== src/Raster/SliceIndex.antt =====
-- The index of a pixel in a slice, and in the raster it is a slice of.
use ele_fits.Prelude.{
  ℕ, zero, suc, ◌+◌, ◌*◌, ◌≡◌, refl, sym, ap, ◌∙◌, subst, inl, inr, true, false, not, ◌||◌, [], ◌∷◌,
  length, arith, ok, >>=-ok, Bool-cases,
}
use ele_fits.Prelude.Int.{
  ℤ, pos, pos_part, neg_part, ◌+ℤ◌, ◌-ℤ◌, ◌*ℤ◌, ◌==ℤ◌, ==ℤ_iff, int_laws, +ℤ_parts, eq_of_parts,
}
use ele_fits.Position.{Position}
use ele_fits.Raster.{index_static, full_axes, reduced_shape}

*ℤ_parts :
    (a b : ℤ)
    → pos_part (a *ℤ b) + (pos_part a * neg_part b + neg_part a * pos_part b)
      ≡ neg_part (a *ℤ b) + (pos_part a * pos_part b + neg_part a * neg_part b)
unfolding ◌*ℤ◌
*ℤ_parts a b = ground arith

distributed :
    (ps ns px nx pa na pb nb : ℕ)
    → px + na + nb ≡ nx + pa + pb
    → ps * px + ns * nx + (ps * na + ns * pa) + (ps * nb + ns * pb)
      ≡ ps * nx + ns * px + (ps * pa + ns * na) + (ps * pb + ns * nb)
distributed ps ns px nx pa na pb nb h =
    grind (arith, ap (λ (t : ℕ). ps * t) h, ap (λ (t : ℕ). ns * t) h)

*ℤ-+ℤ : (s a b : ℤ) → s *ℤ (a +ℤ b) ≡ s *ℤ a +ℤ s *ℤ b
*ℤ-+ℤ s a b = eq_of_parts (s *ℤ (a +ℤ b)) (s *ℤ a +ℤ s *ℤ b) (
    omega (
      arith,
      *ℤ_parts s (a +ℤ b),
      *ℤ_parts s a,
      *ℤ_parts s b,
      +ℤ_parts (s *ℤ a) (s *ℤ b),
      distributed (pos_part s) (neg_part s) (pos_part (a +ℤ b)) (neg_part (a +ℤ b)) (pos_part a)
          (neg_part a) (pos_part b) (neg_part b) (+ℤ_parts a b),
    ))

full_axes-inversion :
    (m : ℕ) (f b s : ℤ) (fs bs ss : Position)
    → full_axes (suc m) (f ∷ fs) (b ∷ bs) (s ∷ ss) ≡ ok true
    → (f ≡ pos 0) × (b ≡ s -ℤ pos 1) × (full_axes m fs bs ss ≡ ok true)
unfolding full_axes
full_axes-inversion m f b s fs bs ss h =
    elim (Bool-cases (not (f ==ℤ pos 0) || not (b ==ℤ (s -ℤ pos 1)))) [
      | inl e ↦ absurd (no_jump (rw e at h))
      | inr e ↦ (
        (==ℤ_iff f (pos 0)).0 (ground (arith, e)),
        (==ℤ_iff b (s -ℤ pos 1)).0 (ground (arith, e)),
        rw e at h,
      )
    ]
  where
    no_jump : ok false ≡ ok true → ⊥
    no_jump h = cc

pub reduced_shape-inversion :
    (k : ℕ) (f b : ℤ) (fs bs : Position) {red : Position}
    → reduced_shape (suc k) (f ∷ fs) (b ∷ bs) ≡ ok red
    → (rest : Position) × (reduced_shape k fs bs ≡ ok rest) × (red ≡ (b -ℤ f +ℤ pos 1) ∷ rest)
unfolding reduced_shape
reduced_shape-inversion k f b fs bs h =
    let (rest, e, runs) =
      >>=-ok (reduced_shape k fs bs) (λ rest. ok ((b -ℤ f +ℤ pos 1) ∷ rest)) h in
    (rest, runs, cc)

-- `front` moved by the coordinates of `q` along its first axes.
abbrev pub moved : Position → Position → Position
moved (f ∷ fs) (x ∷ q) = (f +ℤ x) ∷ moved fs q
moved fs [] = fs
moved [] (x ∷ q) = []

pub length-moved : (f q : Position) → length (moved f q) ≡ length f
length-moved [] [] = refl
length-moved [] (x ∷ q) = refl
length-moved (f ∷ fs) [] = refl
length-moved (f ∷ fs) (x ∷ q) = ap suc (length-moved fs q)

first_axis :
    (f s x : ℤ) (fs ss : Position)
    → length fs ≡ length ss
    → index_static (s ∷ ss) (f ∷ fs) +ℤ x ≡ index_static (s ∷ ss) ((f +ℤ x) ∷ fs)
unfolding index_static
first_axis f s x [] [] h = refl
first_axis f s x [] (t ∷ ss) h = absurd (omega arith)
first_axis f s x (g ∷ fs) [] h = absurd (omega arith)
first_axis f s x (g ∷ fs) (t ∷ ss) h = swap f (s *ℤ index_static (t ∷ ss) (g ∷ fs)) x
  where
    swap : (a b c : ℤ) → a +ℤ b +ℤ c ≡ a +ℤ c +ℤ b
    swap a b c = omega int_laws

next_axis :
    (s x i j i' : ℤ)
    → i +ℤ j ≡ i'
    → pos 0 +ℤ s *ℤ i +ℤ (x +ℤ (s -ℤ pos 1 -ℤ pos 0 +ℤ pos 1) *ℤ j) ≡ pos 0 +ℤ x +ℤ s *ℤ i'
next_axis s x i j i' e =
    ap (λ (w : ℤ). pos 0 +ℤ s *ℤ i +ℤ (x +ℤ w *ℤ j)) (width_is s)
    ∙ regroup x (s *ℤ i) (s *ℤ j)
    ∙ ap (λ (z : ℤ). pos 0 +ℤ x +ℤ z) (sym (*ℤ-+ℤ s i j) ∙ ap (λ (z : ℤ). s *ℤ z) e)
  where
    width_is : (s : ℤ) → s -ℤ pos 1 -ℤ pos 0 +ℤ pos 1 ≡ s
    width_is s = omega int_laws

    regroup : (x a b : ℤ) → pos 0 +ℤ a +ℤ (x +ℤ b) ≡ pos 0 +ℤ x +ℤ (a +ℤ b)
    regroup x a b = omega int_laws

-- What the view's index adds to the index of the front.
pub slice_index :
    (m : ℕ) (f b s q red : Position)
    → full_axes m f b s ≡ ok true
    → reduced_shape (suc m) f b ≡ ok red
    → length f ≡ length s
    → length q ≡ suc m
    → index_static s f +ℤ index_static red q ≡ index_static s (moved f q)
unfolding index_static reduced_shape
slice_index m f b s [] red full h sizes k = absurd (omega arith)
slice_index m [] b s (x ∷ q) red full h sizes k = cc
slice_index m (f ∷ fs) [] s (x ∷ q) red full h sizes k = cc
slice_index m (f ∷ fs) (b ∷ bs) [] (x ∷ q) red full h sizes k = absurd (omega arith)
slice_index zero (f ∷ fs) (b ∷ bs) (s ∷ ss) (x ∷ y ∷ q) red full h sizes k = absurd (omega arith)
slice_index zero (f ∷ fs) (b ∷ bs) (s ∷ ss) (x ∷ []) red full h sizes k =
    let red_is : red ≡ (b -ℤ f +ℤ pos 1) ∷ [] = cc in
    rw red_is (first_axis f s x fs ss (omega arith))
slice_index (suc m) (f ∷ fs) (b ∷ bs) (s ∷ ss) (x ∷ []) red full h sizes k = absurd (omega arith)
slice_index (suc m) (f ∷ []) (b ∷ bs) (s ∷ ss) (x ∷ y ∷ q) red full h sizes k = cc
slice_index (suc m) (f ∷ g ∷ fs) (b ∷ []) (s ∷ ss) (x ∷ y ∷ q) red full h sizes k = cc
slice_index (suc m) (f ∷ g ∷ fs) (b ∷ c ∷ bs) (s ∷ []) (x ∷ y ∷ q) red full h sizes k =
    absurd (omega arith)
slice_index (suc m) (f ∷ g ∷ fs) (b ∷ c ∷ bs) (s ∷ t ∷ ss) (x ∷ y ∷ q) red full h sizes k =
    let (f_is, b_is, full') = full_axes-inversion m f b s (g ∷ fs) (c ∷ bs) (t ∷ ss) full in
    let (rest, runs, red_is) = reduced_shape-inversion (suc m) f b (g ∷ fs) (c ∷ bs) h in
    let (rest', runs', rest_is) = reduced_shape-inversion m g c fs bs runs in
    let ih =
      slice_index m (g ∷ fs) (c ∷ bs) (t ∷ ss) (y ∷ q) rest full' runs (omega arith)
        (omega arith) in
    rw (red_is, rest_is, b_is, f_is)
      (next_axis s x _ _ _ (
        subst
          (λ z.
            index_static (t ∷ ss) (g ∷ fs) +ℤ index_static z (y ∷ q)
            ≡ index_static (t ∷ ss) ((g +ℤ y) ∷ moved fs q))
          rest_is ih))
