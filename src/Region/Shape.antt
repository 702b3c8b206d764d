-- ===== src/Region/Shape.antt =====
-- A region and its shape.
use ele_fits.Prelude.{ℕ, ◌≡◌, refl, sym, ap, ◌∙◌, [], ◌∷◌, map, length, length-map, arith, ok}
use ele_fits.Prelude.Int.{pos, ◌+ℤ◌, ◌-ℤ◌, int_laws}
use ele_fits.Position.{Position, add_scalar, subtract_scalar}
use ele_fits.Position.Laws.{zip_with, length-zip_with, add-eq, subtract-eq}
use ele_fits.Region.{Region, from_shape, shape, add_position}

last_then_extent :
    (f s : Position)
    → length f ≡ length s
    → map
        (λ l. l +ℤ pos 1)
        (zip_with (λ l r. l -ℤ r) (zip_with (λ l r. l +ℤ r) f (map (λ l. l -ℤ pos 1) s)) f)
      ≡ s
last_then_extent [] [] h = refl
last_then_extent [] (y ∷ s) h = absurd (omega arith)
last_then_extent (x ∷ f) [] h = absurd (omega arith)
last_then_extent (x ∷ f) (y ∷ s) h = cc (head, last_then_extent f s (omega arith))
  where
    head : x +ℤ (y -ℤ pos 1) -ℤ x +ℤ pos 1 ≡ y
    head = omega int_laws

-- `fromShape(front, shape)` is defined between positions of one dimension. The region that it
-- makes starts at `front`, and its `shape()` is `shape`.
pub from_shape-shape :
    (f s : Position)
    → length f ≡ length s
    → (r : Region) × (from_shape f s ≡ ok r) × (r.front ≡ f) × (shape r ≡ ok s)
unfolding from_shape shape subtract_scalar add_scalar
from_shape-shape f s h = (
  record { front = f; back = zip_with (λ l r. l +ℤ r) f (map (λ l. l -ℤ pos 1) s) },
  rw (add-eq f (map (λ l. l -ℤ pos 1) s) (h ∙ sym (length-map _ s))),
  refl,
  rw (subtract-eq (zip_with (λ l r. l +ℤ r) f (map (λ l. l -ℤ pos 1) s)) f sizes)
      (ap ok (last_then_extent f s h)),
)
  where
    sizes : length (zip_with (λ l r. l +ℤ r) f (map (λ l. l -ℤ pos 1) s)) ≡ length f
    sizes = length-zip_with _ f (map (λ l. l -ℤ pos 1) s) (h ∙ sym (length-map _ s))

pub record HasDimension (n : ℕ) (r : Region) : Type 0 where
  pub front_dimension : length r.front ≡ n
  pub back_dimension : length r.back ≡ n

translated_extent :
    (f b p : Position)
    → length f ≡ length p
    → length b ≡ length p
    → zip_with (λ l r. l -ℤ r) (zip_with (λ l r. l +ℤ r) b p) (zip_with (λ l r. l +ℤ r) f p)
      ≡ zip_with (λ l r. l -ℤ r) b f
translated_extent [] [] [] h k = refl
translated_extent [] [] (z ∷ p) h k = absurd (omega arith)
translated_extent [] (y ∷ b) [] h k = absurd (omega arith)
translated_extent [] (y ∷ b) (z ∷ p) h k = absurd (omega arith)
translated_extent (x ∷ f) [] [] h k = absurd (omega arith)
translated_extent (x ∷ f) [] (z ∷ p) h k = absurd (omega arith)
translated_extent (x ∷ f) (y ∷ b) [] h k = absurd (omega arith)
translated_extent (x ∷ f) (y ∷ b) (z ∷ p) h k =
    cc (head, translated_extent f b p (omega arith) (omega arith))
  where
    head : (y +ℤ z) -ℤ (x +ℤ z) ≡ y -ℤ x
    head = omega int_laws

-- `region + position` is defined between a region and a position of one dimension, and keeps the
-- shape of the region.
pub add_position-shape :
    (r : Region) (p : Position)
    → HasDimension (length p) r
    → (moved : Region) × (add_position r p ≡ ok moved)
      × HasDimension (length p) moved
      × (shape moved ≡ shape r)
unfolding add_position shape
add_position-shape r p d = (
  record { front = zip_with (λ l r. l +ℤ r) r.front p; back = zip_with (λ l r. l +ℤ r) r.back p },
  rw (add-eq r.front p d.front_dimension, add-eq r.back p d.back_dimension),
  record {
    front_dimension = front_size ∙ d.front_dimension;
    back_dimension = back_size ∙ d.back_dimension;
  },
  rw (
    subtract-eq (zip_with (λ l r. l +ℤ r) r.back p) (zip_with (λ l r. l +ℤ r) r.front p) sizes,
    subtract-eq r.back r.front (d.back_dimension ∙ sym d.front_dimension),
    translated_extent r.front r.back p d.front_dimension d.back_dimension,
  ),
)
  where
    front_size : length (zip_with (λ l r. l +ℤ r) r.front p) ≡ length r.front
    front_size = length-zip_with _ r.front p d.front_dimension

    back_size : length (zip_with (λ l r. l +ℤ r) r.back p) ≡ length r.back
    back_size = length-zip_with _ r.back p d.back_dimension

    sizes : length (zip_with (λ l r. l +ℤ r) r.back p) ≡ length (zip_with (λ l r. l +ℤ r) r.front p)
    sizes = back_size ∙ d.back_dimension ∙ sym (front_size ∙ d.front_dimension)
