-- ===== src/ImageIo/Sizes.antt =====
-- The numbers that `read_region_to` computes from a region.
use ele_fits.Prelude.{ℕ, suc, ◌+◌, ◌*◌, ◌≡◌, refl, ap, ◌∙◌, [], ◌∷◌, length, arith, ok}
use ele_fits.Prelude.Int.{ℤ, pos, ◌+ℤ◌, ◌-ℤ◌, +ℤ_parts, -ℤ_parts}
use ele_fits.Position.{Position, add_scalar}
use ele_fits.Position.Laws.{zip_with, subtract-eq}
use ele_fits.Region.{shape, size}
use ele_fits.Screener.Rank.{dist, InBox, total, Displaced}
use ele_fits.Raster.Index.{InShape, zeros, lasts}
use ele_fits.Raster.Unchecked.{shape_size-total}

-- The lengths of a box.
abbrev pub extent : Position → Position → Position
extent f b = add_scalar (zip_with (λ l r. l -ℤ r) b f) (pos 1)

pub InBox-lengths : (f b p : Position) → InBox f b p → length b ≡ length f
InBox-lengths [] [] [] h = refl
InBox-lengths [] [] (c ∷ p) h = absurd h
InBox-lengths [] (b ∷ bs) [] h = absurd h
InBox-lengths [] (b ∷ bs) (c ∷ p) h = absurd h
InBox-lengths (f ∷ fs) [] p h = absurd h
InBox-lengths (f ∷ fs) (b ∷ bs) [] h = absurd h
InBox-lengths (f ∷ fs) (b ∷ bs) (c ∷ p) h = ap suc (InBox-lengths fs bs p h.1)

pub shape-extent :
    (f b : Position) → InBox f b b → shape (record { front = f; back = b }) ≡ ok (extent f b)
unfolding shape
shape-extent f b h = rw (subtract-eq b f (InBox-lengths f b b h)) refl

extent-InShape : (f b : Position) → InBox f b b → InShape (extent f b) (zeros (extent f b))
unfolding add_scalar
extent-InShape [] [] h = tt
extent-InShape [] (b ∷ bs) h = absurd h
extent-InShape (f ∷ fs) [] h = absurd h
extent-InShape (f ∷ fs) (b ∷ bs) (h, rest) = (
  (omega arith, omega (arith, h, -ℤ_parts b f, +ℤ_parts (b -ℤ f) (pos 1))),
  extent-InShape fs bs rest,
)

extent-total :
    (f b : Position) → InBox f b b → total (zeros (extent f b)) (lasts (extent f b)) ≡ total f b
unfolding add_scalar
extent-total [] [] h = refl
extent-total [] (b ∷ bs) h = absurd h
extent-total (f ∷ fs) [] h = absurd h
extent-total (f ∷ fs) (b ∷ bs) (h, rest) =
    rw (extent-total fs bs rest) (ap (λ (n : ℕ). (n + 1) * total fs bs) same)
  where
    same : dist (pos 0) (b -ℤ f +ℤ pos 1 -ℤ pos 1) ≡ dist f b
    same =
        omega
          (arith, h, -ℤ_parts b f, +ℤ_parts (b -ℤ f) (pos 1), -ℤ_parts (b -ℤ f +ℤ pos 1) (pos 1))

-- The size of a region of at least one axis whose bounds are in order.
pub size-total :
    (f b : ℤ) (fs bs : Position)
    → InBox (f ∷ fs) (b ∷ bs) (b ∷ bs)
    → size (record { front = f ∷ fs; back = b ∷ bs }) ≡ ok (pos (total (f ∷ fs) (b ∷ bs)))
unfolding size add_scalar
size-total f b fs bs h = rw (shape-extent (f ∷ fs) (b ∷ bs) h) (
    ap ok (
      shape_size-total (extent (f ∷ fs) (b ∷ bs)) (zeros (extent (f ∷ fs) (b ∷ bs)))
        (extent-InShape (f ∷ fs) (b ∷ bs) h) (λ e. cc)
      ∙ ap pos (extent-total (f ∷ fs) (b ∷ bs) h)))

-- Moved by one, as CFITSIO counts from 1.
pub InBox-add_scalar :
    (f b p : Position)
    → InBox f b p
    → InBox (add_scalar f (pos 1)) (add_scalar b (pos 1)) (add_scalar p (pos 1))
unfolding add_scalar
InBox-add_scalar [] [] [] h = tt
InBox-add_scalar [] [] (c ∷ p) h = absurd h
InBox-add_scalar [] (b ∷ bs) [] h = absurd h
InBox-add_scalar [] (b ∷ bs) (c ∷ p) h = absurd h
InBox-add_scalar (f ∷ fs) [] p h = absurd h
InBox-add_scalar (f ∷ fs) (b ∷ bs) [] h = absurd h
InBox-add_scalar (f ∷ fs) (b ∷ bs) (c ∷ p) (h, rest) = (
  (
    omega (arith, h, +ℤ_parts f (pos 1), +ℤ_parts c (pos 1)),
    omega (arith, h, +ℤ_parts b (pos 1), +ℤ_parts c (pos 1)),
  ),
  InBox-add_scalar fs bs p rest,
)

pub Displaced-add_scalar :
    (f c r o : Position)
    → Displaced f c r o
    → Displaced (add_scalar f (pos 1)) (add_scalar c (pos 1)) r o
unfolding add_scalar
Displaced-add_scalar [] [] [] [] d = tt
Displaced-add_scalar [] [] [] (o ∷ os) d = absurd d
Displaced-add_scalar [] [] (r ∷ rs) o d = absurd d
Displaced-add_scalar [] (c ∷ cs) r o d = absurd d
Displaced-add_scalar (f ∷ fs) [] r o d = absurd d
Displaced-add_scalar (f ∷ fs) (c ∷ cs) [] o d = absurd d
Displaced-add_scalar (f ∷ fs) (c ∷ cs) (r ∷ rs) [] d = absurd d
Displaced-add_scalar (f ∷ fs) (c ∷ cs) (r ∷ rs) (o ∷ os) d = (
  omega (arith, d.0, +ℤ_parts f (pos 1), +ℤ_parts c (pos 1)),
  Displaced-add_scalar fs cs rs os d.1,
)

pub Displaced-length : (f c r o : Position) → Displaced f c r o → length r ≡ length f
Displaced-length [] [] [] [] d = refl
Displaced-length [] [] [] (o ∷ os) d = absurd d
Displaced-length [] [] (r ∷ rs) o d = absurd d
Displaced-length [] (c ∷ cs) r o d = absurd d
Displaced-length (f ∷ fs) [] r o d = absurd d
Displaced-length (f ∷ fs) (c ∷ cs) [] o d = absurd d
Displaced-length (f ∷ fs) (c ∷ cs) (r ∷ rs) [] d = absurd d
Displaced-length (f ∷ fs) (c ∷ cs) (r ∷ rs) (o ∷ os) d = ap suc (Displaced-length fs cs rs os d.1)
