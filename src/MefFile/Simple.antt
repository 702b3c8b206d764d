-- ===== src/MefFile/Simple.antt =====
-- A CFITSIO on a list of types.
use ele_fits.Prelude.{
  ◌≡◌, refl, ◌∙◌, sym, ap, ◌≢◌, arith, ◌≤◌, ◌<◌, inl, inr, Bool-cases, leb, ltb, ltb→lt, ℕ, zero,
  suc, false, Option, none, some, List, [], ◌∷◌, ◌++◌, length, if◌then◌else◌,
}
use ele_fits.Prelude.Int.{ℤ, pos, negsuc}
use ele_fits.MefFile.Access.{HduType, image_hdu, Cfitsio, IsStandard, erase}
use ele_fits.Hdu.{Contents}

-- The extensions after an image as primary, which are at most 1000, and the 0-based current index.
pub record Types : Type 0 where
  pub extensions : List HduType
  pub at : ℕ

abbrev clip : List HduType → List HduType
clip xs = if leb (length xs) 1000 then xs else []

abbrev all_types : Types → List HduType
all_types s = image_hdu ∷ clip s.extensions

abbrev extended : HduType → Types → Types
extended k s = record { extensions = s.extensions ++ (k ∷ []); at = length (all_types s) }

abbrev place : Types → ℕ
place s = if ltb s.at (length (all_types s)) then s.at else 0

abbrev move_to : ℤ → Types → Option Types
move_to (pos (suc i)) s = if ltb i (length (all_types s)) then some (record s { at = i }) else none
move_to _ s = none

abbrev without : Types → ℕ → Types
without s zero = s
without s (suc i) = record { extensions = erase s.extensions i; at = 0 }

abbrev blank : Contents
blank = record {
  dimensions = [];
  floating = false;
  compressed = false;
  column_count = pos 0;
  row_count = pos 0;
}

abbrev pub simple : Cfitsio
simple = record {
  Stream = Types;
  Data = Unit {0};
  types = all_types;
  current = λ s. pos (suc (place s));
  contents = λ s i. blank;
  move = move_to;
  create = λ k d s. if ltb (length s.extensions) 1000 then some (extended k s) else none;
  write = λ d s. some s;
  delete = λ s. some (without s (place s));
}

move_to-types : (i : ℤ) (s s' : Types) → move_to i s ≡ some s' → all_types s' ≡ all_types s
move_to-types (pos zero) s s' e = cc
move_to-types (pos (suc i)) s s' e = ground arith
move_to-types (negsuc i) s s' e = cc

move_to-refused :
    (s : Types) (i : ℤ)
    → ((j : ℕ) → j < length (all_types s) → i ≢ pos (suc j))
    → move_to i s ≡ none
move_to-refused s (pos zero) out = refl
move_to-refused s (negsuc i) out = refl
move_to-refused s (pos (suc i)) out = elim (Bool-cases (ltb i (length (all_types s)))) [
  | inl e ↦ absurd (out i (ltb→lt i (length (all_types s)) e) refl)
  | inr e ↦ rw e refl
]

move_to-moved :
    (s : Types) (i : ℕ)
    → suc i ≤ length (all_types s)
    → (s' : Types) × (move_to (pos (suc i)) s ≡ some s')
      × (all_types s' ≡ all_types s)
      × (◌≡◌ {A = ℤ} (pos (suc (place s'))) (pos (suc i)))
move_to-moved s i h = (record s { at = i }, ground arith, refl, ground arith)

some_types : {s s' : Types} → ◌≡◌ {A = Option Types} (some s) (some s') → s ≡ s'
some_types e = cc

clip-short : (xs : List HduType) → length xs ≤ 1000 → clip xs ≡ xs
clip-short xs h = ground arith

length-clip : (xs : List HduType) → length (clip xs) ≤ 1000
length-clip xs = elim (Bool-cases (leb (length xs) 1000)) [
  | inl e ↦ rw e (ground arith)
  | inr e ↦ rw e (omega arith)
]

length-snoc : (xs : List HduType) (k : HduType) → length (xs ++ (k ∷ [])) ≡ suc (length xs)
length-snoc [] k = refl
length-snoc (x ∷ xs) k = ap suc (length-snoc xs k)

length-erase : (xs : List HduType) (i : ℕ) → length (erase xs i) ≤ length xs
length-erase [] i = omega arith
length-erase (x ∷ xs) zero = omega arith
length-erase (x ∷ xs) (suc i) = omega (arith, length-erase xs i)

short_of_at : (s : Types) (i : ℕ) → place s ≡ suc i → length s.extensions ≤ 1000
short_of_at s i e = elim (Bool-cases (leb (length s.extensions) 1000)) [
  | inl short ↦ ground arith
  | inr long ↦ absurd (none_other (sym (rw long refl) ∙ e))
]
  where
    none_other : (if ltb s.at 1 then s.at else 0) ≡ suc i → ⊥
    none_other h = ground arith

pub created :
    (k : HduType) (s s' : Types)
    → (if ltb (length s.extensions) 1000 then some (extended k s) else none) ≡ some s'
    → all_types s' ≡ all_types s ++ (k ∷ [])
created k s s' e = elim (Bool-cases (ltb (length s.extensions) 1000)) [
  | inl short ↦
      let few = ltb→lt (length s.extensions) 1000 short in
      let same = some_types {s = extended k s} (sym (rw short refl) ∙ e) in
      ap all_types (sym same)
      ∙ ap (λ xs. image_hdu ∷ xs)
          (clip-short (s.extensions ++ (k ∷ [])) (omega (arith, length-snoc s.extensions k, few))
            ∙ ap (λ xs. xs ++ (k ∷ [])) (sym (clip-short s.extensions (omega (arith, few)))))
  | inr long ↦ absurd (refused (sym (rw long refl) ∙ e))
]
  where
    refused : ◌≡◌ {A = Option Types} none (some s') → ⊥
    refused h = cc

place_inside : (s : Types) → place s < length (all_types s)
place_inside s = ground arith

without-place :
    (s s' : Types) (i : ℕ)
    → ◌≡◌ {A = ℤ} (pos (suc (place s))) (pos (suc (suc i)))
    → ◌≡◌ {A = Option Types} (some (without s (place s))) (some s')
    → all_types s' ≡ erase (all_types s) (suc i)
without-place s s' i at e =
    let placed : place s ≡ suc i = ground arith in
    let same : s' ≡ without s (suc i) = sym (some_types e) ∙ ap (without s) placed in
    let short = short_of_at s i placed in
    ap all_types same
    ∙ ap (λ xs. image_hdu ∷ xs)
        (clip-short (erase s.extensions i) (omega (arith, short, length-erase s.extensions i))
          ∙ ap (λ xs. erase xs i) (sym (clip-short s.extensions short)))

pub simple-IsStandard : IsStandard simple
simple-IsStandard = record {
  few = λ s. omega (arith, length-clip s.extensions);
  moved = move_to-moved;
  refused = move_to-refused;
  inside = λ s. (place s, place_inside s, refl);
  move_types = move_to-types;
  write_types = λ d s s' e. ap all_types (sym (some_types e));
  create_types = λ k d s s' e. created k s s' e;
  delete_types = without-place;
}
