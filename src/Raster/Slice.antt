-- ===== src/Raster/Slice.antt =====
-- Slices and sections: a view has the pixels of its region.
use ele_fits.Prelude.{
  ℕ, zero, suc, ◌-◌, ◌≡◌, refl, ap, ◌∙◌, subst, Bool, true, false, [], ◌∷◌, length, ltb,
  if◌then◌else◌, arith, Outcome, ok, fail, fits_error, undefined_behaviour, ◌>>=◌,
}
use ele_fits.Prelude.Int.{ℤ, pos, negsuc, ◌+ℤ◌}
use ele_fits.Position.{Position, origin, add, subtract_scalar}
use ele_fits.Region.{Region, from_shape}
use ele_fits.Raster.{
  Raster, View, index_at, index_static, get, view_get, read_cell, full_axes, is_contiguous,
  reduced_shape, replace_last, slice, section, domain,
}
use ele_fits.Raster.Unchecked.{index_at-static}
use ele_fits.Raster.SliceIndex.{reduced_shape-inversion, moved, length-moved, slice_index}

length-reduced_shape :
    (k : ℕ) (f b : Position) {red : Position} → reduced_shape k f b ≡ ok red → length red ≡ k
unfolding reduced_shape
length-reduced_shape zero f b h = cc
length-reduced_shape (suc k) [] b h = cc
length-reduced_shape (suc k) (f ∷ fs) [] h = cc
length-reduced_shape (suc k) (f ∷ fs) (b ∷ bs) h =
    let (rest, runs, red_is) = reduced_shape-inversion k f b fs bs h in
    ap length red_is ∙ ap suc (length-reduced_shape k fs bs runs)

is_contiguous-full :
    (m : ℕ) (s : Position) (region : Region)
    → is_contiguous (pos (suc m)) s region ≡ ok true
    → full_axes m region.front region.back s ≡ ok true
unfolding is_contiguous
is_contiguous-full m s region h =
    subst (λ k. full_axes k region.front region.back s ≡ ok true) (one_less m)
      (both (full_axes (suc m - 1) region.front region.back s) _ h)
  where
    one_less : (m : ℕ) → suc m - 1 ≡ m
    one_less m = omega arith

    both :
        (outcome m : Outcome Bool)
        → (do full ← outcome; if full then m else ok false) ≡ ok true
        → outcome ≡ ok true
    both (ok true) m h = refl
    both (ok false) m h = cc
    both (fail e) m h = cc

-- What `slice` has computed where it returns.
slice-inversion :
    (contiguous : Outcome Bool) (reduced : Outcome Position) (offset : Outcome ℤ) (m : ℤ) (v : View)
    → (do
      c ← contiguous
      if c
          then (do
            red ← reduced
            off ← offset
            ok (record { dim = m; lengths = red; offset = off }))
          else fail fits_error)
      ≡ ok v
    → (contiguous ≡ ok true) × (reduced ≡ ok v.lengths) × (offset ≡ ok v.offset)
slice-inversion (ok true) (ok red) (ok off) m v h =
    (refl, cc (ap_ok (λ v. v.lengths) h), cc (ap_ok (λ v. v.offset) h))
  where
    ap_ok : {B : Type 0} (f : View → B) {x y : View} → ok x ≡ ok y → f x ≡ f y
    ap_ok f h = ap f (ok_inj h)
      where
        ok_inj : {x y : View} → ok x ≡ ok y → x ≡ y
        ok_inj h = cc
slice-inversion (ok true) (ok red) (fail e) m v h = cc
slice-inversion (ok true) (fail e) offset m v h = cc
slice-inversion (ok false) reduced offset m v h = cc
slice-inversion (fail e) reduced offset m v h = cc

-- The one axis of the domain of a raster of variable dimension.
replaced_undefined :
    (s : Position) (i : ℤ) (k : Region → Outcome View)
    → ((region : Region) → k region ≡ fail undefined_behaviour)
    → (do whole ← from_shape (pos 0 ∷ []) s; region ← replace_last (length s) i i whole; k region)
      ≡ fail undefined_behaviour
unfolding from_shape add subtract_scalar replace_last
replaced_undefined [] i k h = refl
replaced_undefined (s ∷ []) i k h = h _
replaced_undefined (s ∷ t ∷ ss) i k h = rw (past_the_end (length ss))
  where
    past_the_end : (n : ℕ) → ltb (suc (suc n) - 1) 1 ≡ false
    past_the_end n = ground arith

module _ {A : Type 0} where
  -- What the views of `slice` show: the pixels of the raster from the front of the region on.
  abbrev pub ShowsFrom : Raster A → Region → View → Type 0
  ShowsFrom r region v =
      (q : Position) → length q ≡ length v.lengths → view_get r v q ≡ get r (moved region.front q)

  -- Where `slice<M>` returns a view of a region of the dimension of the raster, M at least 1, the
  -- view has M axes, and its pixel at `q` is the pixel of the raster at the front of the region
  -- moved by `q` along its first M axes.
  pub slice-ShowsFrom :
      (m : ℕ) (r : Raster A) (region : Region) (v : View)
      → length region.front ≡ length r.lengths
      → slice (pos (suc m)) r region ≡ ok v
      → (length v.lengths ≡ suc m) × ShowsFrom r region v
  unfolding slice view_get get
  slice-ShowsFrom m r region v sizes h =
      let (contiguous, reduced, placed) =
        slice-inversion (is_contiguous (pos (suc m)) r.lengths region)
          (reduced_shape (suc m) region.front region.back) (index_at r.dim r.lengths region.front)
          (pos (suc m)) v h in
      let axes = length-reduced_shape (suc m) region.front region.back reduced in
      (
        axes,
        λ q k.
            rw
              (
                index_at-static v.dim v.lengths q k,
                index_at-static r.dim r.lengths (moved region.front q)
                    (length-moved region.front q ∙ sizes),
              )
              (ap (λ i. read_cell r.cells i)
                (ap (λ (o : ℤ). o +ℤ index_static v.lengths q) (offset_is placed)
                  ∙ slice_index m region.front region.back r.lengths q v.lengths
                      (is_contiguous-full m r.lengths region contiguous) reduced sizes (k ∙ axes))),
      )
    where
      offset_is :
          index_at r.dim r.lengths region.front ≡ ok v.offset
          → v.offset ≡ index_static r.lengths region.front
      offset_is placed = cc (index_at-static r.dim r.lengths region.front sizes)

  -- `section(index)` of a raster of variable dimension always writes or reads out of bounds: its
  -- `domain()` has one axis, whatever the shape, and `slice<-1>` starts its loop at axis -1.
  pub section-undefined :
      (r : Raster A) (i : ℤ) → r.dim ≡ negsuc 0 → section r i ≡ fail undefined_behaviour
  unfolding section domain origin slice is_contiguous
  section-undefined r i variable =
      rw variable
        (replaced_undefined r.lengths i (λ region. slice (negsuc 0) r region) (λ region. refl))
