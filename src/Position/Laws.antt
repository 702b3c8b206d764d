-- ===== src/Position/Laws.antt =====
-- The laws of position arithmetic, for positions of one dimension.
use ele_fits.Prelude.{
  suc, ◌≤◌, ◌≡◌, refl, ap, [], ◌∷◌, length, arith, true, ◌↔◌, ◌⊎◌, ◌≢◌, inl, inr, Bool-cases, ok,
}
use ele_fits.Prelude.Int.{ℤ, ◌+ℤ◌, ◌-ℤ◌, ==ℤ_iff}
use ele_fits.Position.{Position, position_eq, transform_pair, add, subtract}

abbrev pub zip_with : (ℤ → ℤ → ℤ) → Position → Position → Position
zip_with op (l ∷ ls) (r ∷ rs) = op l r ∷ zip_with op ls rs
zip_with op _ _ = []

pub transform_pair-zip_with :
    (op : ℤ → ℤ → ℤ) (ls rs : Position)
    → length ls ≤ length rs
    → transform_pair op ls rs ≡ ok (zip_with op ls rs)
unfolding transform_pair
transform_pair-zip_with op [] [] h = refl
transform_pair-zip_with op [] (r ∷ rs) h = refl
transform_pair-zip_with op (l ∷ ls) [] h = absurd (omega arith)
transform_pair-zip_with op (l ∷ ls) (r ∷ rs) h = rw (transform_pair-zip_with op ls rs (omega arith))

pub length-zip_with :
    (op : ℤ → ℤ → ℤ) (ls rs : Position)
    → length ls ≡ length rs
    → length (zip_with op ls rs) ≡ length ls
length-zip_with op [] rs h = refl
length-zip_with op (l ∷ ls) [] h = absurd (omega arith)
length-zip_with op (l ∷ ls) (r ∷ rs) h = ap suc (length-zip_with op ls rs (omega arith))

pub add-eq :
    (ls rs : Position) → length ls ≡ length rs → add ls rs ≡ ok (zip_with (λ l r. l +ℤ r) ls rs)
unfolding add
add-eq ls rs h = transform_pair-zip_with _ ls rs (omega arith)

pub subtract-eq :
    (ls rs : Position)
    → length ls ≡ length rs
    → subtract ls rs ≡ ok (zip_with (λ l r. l -ℤ r) ls rs)
unfolding subtract
subtract-eq ls rs h = transform_pair-zip_with _ ls rs (omega arith)

pub position_eq_iff : (p q : Position) → (position_eq p q ≡ true) ↔ (p ≡ q)
unfolding position_eq
position_eq_iff [] [] = (λ e. refl, λ e. refl)
position_eq_iff [] (y ∷ ys) = (λ e. cc, λ e. cc)
position_eq_iff (x ∷ xs) [] = (λ e. cc, λ e. cc)
position_eq_iff (x ∷ xs) (y ∷ ys) = ground (arith, ==ℤ_iff x y, position_eq_iff xs ys)

pub position-cases : (p q : Position) → (p ≡ q) ⊎ (p ≢ q)
position-cases p q = elim (Bool-cases (position_eq p q)) [
  | inl e ↦ inl ((position_eq_iff p q).0 e)
  | inr e ↦ inr (λ same. cc (e, (position_eq_iff p q).1 same))
]
