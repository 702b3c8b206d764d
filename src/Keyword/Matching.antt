-- ===== src/Keyword/Matching.antt =====
-- A keyword matches a reference.
use ele_fits.Prelude.{
  ℕ, suc, ◌-◌, ◌≤◌, ◌≡◌, refl, ◌↔◌, ◌⊎◌, inl, inr, Bool, true, false, not, ◌&&◌, [], ◌∷◌, length,
  leb, ◌==◌, if◌then◌else◌, arith, Bool-cases, ==_iff,
}
use ele_fits.Keyword.{Text, text_eq, is_digit, all_digits, matches_indexed, matches}

pub text_eq_iff : (s t : Text) → (text_eq s t ≡ true) ↔ (s ≡ t)
text_eq_iff [] [] = (λ e. refl, λ e. refl)
text_eq_iff [] (y ∷ ys) = (λ e. cc, λ e. cc)
text_eq_iff (x ∷ xs) [] = (λ e. cc, λ e. cc)
text_eq_iff (x ∷ xs) (y ∷ ys) = ground (arith, ==_iff x y, text_eq_iff xs ys)

-- Decimal digits, at least one.
abbrev pub Digits : Text → Type 0
Digits [] = Unit
Digits (c ∷ cs) = ((48 ≤ c) × (c ≤ 57)) × Digits cs

-- The reference without its last character, whatever it is, then one digit or more.
abbrev pub Indexed : Text → Text → Type 0
Indexed [] ref = ⊥
Indexed (t ∷ ts) [] = ⊥
Indexed (t ∷ ts) (r ∷ []) = Digits (t ∷ ts)
Indexed (t ∷ ts) (r ∷ q ∷ ref) = (t ≡ r) × Indexed ts (q ∷ ref)

all_digits_iff : (cs : Text) → (all_digits cs ≡ true) ↔ Digits cs
unfolding all_digits
all_digits_iff [] = (λ e. tt, λ e. refl)
all_digits_iff (c ∷ cs) = (
  λ e. elim (Bool-cases (is_digit c)) [
    | inl good ↦ (digit c good, (all_digits_iff cs).0 (rw good at e))
    | inr bad ↦ absurd (falsehood (rw bad at e))
  ],
  λ h. rw (tested c h.0) ((all_digits_iff cs).1 h.1),
)
  where
    falsehood : false ≡ true → ⊥
    falsehood e = cc

    digit : (c : ℕ) → is_digit c ≡ true → (48 ≤ c) × (c ≤ 57)
    digit c e = (ground (arith, e), ground (arith, e))

    tested : (c : ℕ) → (48 ≤ c) × (c ≤ 57) → is_digit c ≡ true
    tested c h = ground arith

one_less : (n : ℕ) → suc n - 1 ≡ n
one_less n = omega arith

matches_indexed_cons :
    (t r q : ℕ) (ts ref : Text)
    → matches_indexed (t ∷ ts) (r ∷ q ∷ ref) ≡ ((t == r) && matches_indexed ts (q ∷ ref))
unfolding matches_indexed
matches_indexed_cons t r q ts ref =
    rw (one_less (suc (length ref)), one_less (length ref), leb_suc (length ts) (length ref))
      (by_first (t == r) (leb (length ts) (length ref)) _ _)
  where
    leb_suc : (a b : ℕ) → leb (suc a) (suc b) ≡ leb a b
    leb_suc a b = ground arith

    by_first :
        (same short name rest : Bool)
        → (if short then false else if not (same && name) then false else rest)
          ≡ (same && (if short then false else if not name then false else rest))
    by_first true short name rest = refl
    by_first false true name rest = refl
    by_first false false name rest = refl

matches_indexed_last :
    (t r : ℕ) (ts : Text) → matches_indexed (t ∷ ts) (r ∷ []) ≡ all_digits (t ∷ ts)
unfolding matches_indexed
matches_indexed_last t r ts = rw (long (length ts), some_digit (length ts))
  where
    long : (n : ℕ) → leb (suc n) 0 ≡ false
    long n = ground arith

    some_digit : (n : ℕ) → (suc n == 0) ≡ false
    some_digit n = ground arith

matches_indexed_nil : (ref : Text) → matches_indexed [] ref ≡ false
unfolding matches_indexed
matches_indexed_nil [] = refl
matches_indexed_nil (r ∷ ref) = rw (short (suc (length ref) - 1))
  where
    short : (n : ℕ) → leb 0 n ≡ true
    short n = ground arith

matches_indexed_iff : (test ref : Text) → (matches_indexed test ref ≡ true) ↔ Indexed test ref
matches_indexed_iff [] ref = (λ e. cc (e, matches_indexed_nil ref), λ h. absurd h)
matches_indexed_iff (t ∷ ts) [] = unfold matches_indexed in (λ e. cc, λ h. absurd h)
matches_indexed_iff (t ∷ ts) (r ∷ []) = rw (matches_indexed_last t r ts) (all_digits_iff (t ∷ ts))
matches_indexed_iff (t ∷ ts) (r ∷ q ∷ ref) =
    rw (matches_indexed_cons t r q ts ref)
      (both (t == r) (matches_indexed ts (q ∷ ref)) (==_iff t r) (matches_indexed_iff ts (q ∷ ref)))
  where
    both :
        {P Q : Type 0} (a b : Bool) → (a ≡ true) ↔ P → (b ≡ true) ↔ Q → ((a && b) ≡ true) ↔ (P × Q)
    both true true h k = (λ e. (h.0 refl, k.0 refl), λ e. refl)
    both true false h k = (λ e. cc, λ (p, q). k.1 q)
    both false b h k = (λ e. cc, λ (p, q). h.1 p)

-- A keyword matches a reference exactly when it is the reference, or it is the reference with its
-- last character, whichever this is, replaced by one decimal digit or more.
pub matches_iff : (test ref : Text) → (matches test ref ≡ true) ↔ ((test ≡ ref) ⊎ Indexed test ref)
unfolding matches
matches_iff test ref = elim (Bool-cases (text_eq test ref)) [
  | inl e ↦ rw e (λ h. inl ((text_eq_iff test ref).0 e), λ h. refl)
  | inr e ↦ rw e (
    λ h. inr ((matches_indexed_iff test ref).0 h),
    elim [
      | inl same ↦ absurd (clash ((text_eq_iff test ref).1 same) e)
      | inr indexed ↦ (matches_indexed_iff test ref).1 indexed
    ],
  )
]
  where
    clash : {b : Bool} → b ≡ true → b ≡ false → ⊥
    clash h k = cc
