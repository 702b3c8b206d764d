-- ===== src/Header/Cards.antt =====
-- The cards of a header as a list of keywords and values, which the calls of CFITSIO change.
use ele_fits.Prelude.{
  ◌≡◌, refl, sym, ap, ◌∙◌, ◌≢◌, ◌↔◌, inl, inr, Bool, true, false, ◌||◌, Bool-cases, Option, none,
  some, List, [], ◌∷◌, ◌++◌, if◌then◌else◌, arith,
}
use ele_fits.Keyword.{Text, text_eq}

pub text_eq_iff : (a b : Text) → (text_eq a b ≡ true) ↔ (a ≡ b)
text_eq_iff [] [] = (λ e. refl, λ e. refl)
text_eq_iff [] (y ∷ b) = (λ e. cc, λ e. cc)
text_eq_iff (x ∷ a) [] = (λ e. cc, λ e. cc)
text_eq_iff (x ∷ a) (y ∷ b) = ground (arith, text_eq_iff a b)

pub text_eq_refl : (a : Text) → text_eq a a ≡ true
text_eq_refl a = (text_eq_iff a a).1 refl

pub text_eq_sym : (a b : Text) → text_eq a b ≡ text_eq b a
text_eq_sym [] [] = refl
text_eq_sym [] (y ∷ b) = refl
text_eq_sym (x ∷ a) [] = refl
text_eq_sym (x ∷ a) (y ∷ b) = ground (arith, text_eq_sym a b)

-- Two keywords that are equal to a third are equal.
apart : (k k' k1 : Text) → text_eq k k' ≡ false → text_eq k1 k ≡ true → text_eq k1 k' ≡ false
apart k k' k1 h e = ap (λ t. text_eq t k') ((text_eq_iff k1 k).0 e) ∙ h

module _ {V : Type 0} where
  abbrev pub has_card : Text → List (Text × V) → Bool
  has_card k [] = false
  has_card k ((k', v) ∷ cs) = if text_eq k' k then true else has_card k cs

  abbrev pub lookup : Text → List (Text × V) → Option V
  lookup k [] = none
  lookup k ((k', v) ∷ cs) = if text_eq k' k then some v else lookup k cs

  -- The first card of the keyword has another value, or is left out.
  abbrev pub replace : Text → V → List (Text × V) → List (Text × V)
  replace k v [] = []
  replace k v ((k', v') ∷ cs) = if text_eq k' k then (k', v) ∷ cs else (k', v') ∷ replace k v cs

  abbrev pub without : Text → List (Text × V) → List (Text × V)
  without k [] = []
  without k ((k', v) ∷ cs) = if text_eq k' k then cs else (k', v) ∷ without k cs

  abbrev pub put : Text → V → List (Text × V) → List (Text × V)
  put k v cs = if has_card k cs then replace k v cs else cs ++ ((k, v) ∷ [])

  -- No keyword has two cards.
  abbrev pub IsUnique : List (Text × V) → Type 0
  IsUnique [] = Unit
  IsUnique ((k, v) ∷ cs) = (has_card k cs ≡ false) × IsUnique cs

  pub absent :
      (k k' : Text) (v' : V) (cs : List (Text × V))
      → has_card k ((k', v') ∷ cs) ≡ false
      → (text_eq k' k ≡ false) × (has_card k cs ≡ false)
  absent k k' v' cs h = elim (Bool-cases (text_eq k' k)) [
    | inl e ↦ absurd (true≢false (sym (rw e refl) ∙ h))
    | inr e ↦ (e, sym (rw e refl) ∙ h)
  ]
    where
      true≢false : true ≢ false
      true≢false e = cc

  pub has_card-append :
      (k k' : Text) (v : V) (cs : List (Text × V))
      → has_card k (cs ++ ((k', v) ∷ [])) ≡ (has_card k cs || text_eq k' k)
  has_card-append k k' v [] = ground arith
  has_card-append k k' v ((k1, v1) ∷ cs) = ground (arith, has_card-append k k' v cs)

  pub IsUnique-append :
      (k : Text) (v : V) (cs : List (Text × V))
      → IsUnique cs
      → has_card k cs ≡ false
      → IsUnique (cs ++ ((k, v) ∷ []))
  IsUnique-append k v [] u h = (refl, tt)
  IsUnique-append k v ((k', v') ∷ cs) u h =
      let (other, rest) = absent k k' v' cs h in
      (
        has_card-append k' k v cs ∙ rw (u.0, text_eq_sym k k', other) refl,
        IsUnique-append k v cs u.1 rest,
      )

  pub has_card-replace :
      (k k' : Text) (v : V) (cs : List (Text × V)) → has_card k' (replace k v cs) ≡ has_card k' cs
  has_card-replace k k' v [] = refl
  has_card-replace k k' v ((k1, v1) ∷ cs) = ground (arith, has_card-replace k k' v cs)

  pub IsUnique-replace :
      (k : Text) (v : V) (cs : List (Text × V)) → IsUnique cs → IsUnique (replace k v cs)
  IsUnique-replace k v [] u = tt
  IsUnique-replace k v ((k1, v1) ∷ cs) u = elim (Bool-cases (text_eq k1 k)) [
    | inl e ↦ rw e (u.0, u.1)
    | inr e ↦ rw e (has_card-replace k k1 v cs ∙ u.0, IsUnique-replace k v cs u.1)
  ]

  -- Without its only card, a keyword has none.
  pub has_card-without :
      (k : Text) (cs : List (Text × V)) → IsUnique cs → has_card k (without k cs) ≡ false
  has_card-without k [] u = refl
  has_card-without k ((k1, v1) ∷ cs) u = elim (Bool-cases (text_eq k1 k)) [
    | inl e ↦ rw e (ap (λ t. has_card t cs) (sym ((text_eq_iff k1 k).0 e)) ∙ u.0)
    | inr e ↦ rw e (rw e (has_card-without k cs u.1))
  ]

  without-absent :
      (k k' : Text) (cs : List (Text × V))
      → has_card k' cs ≡ false
      → has_card k' (without k cs) ≡ false
  without-absent k k' [] h = refl
  without-absent k k' ((k1, v1) ∷ cs) h =
      let (other, rest) = absent k' k1 v1 cs h in
      elim (Bool-cases (text_eq k1 k)) [
        | inl e ↦ rw e rest
        | inr e ↦ rw e (rw other (without-absent k k' cs rest))
      ]

  pub IsUnique-without : (k : Text) (cs : List (Text × V)) → IsUnique cs → IsUnique (without k cs)
  IsUnique-without k [] u = tt
  IsUnique-without k ((k1, v1) ∷ cs) u = elim (Bool-cases (text_eq k1 k)) [
    | inl e ↦ rw e u.1
    | inr e ↦ rw e (without-absent k k1 cs u.0, IsUnique-without k cs u.1)
  ]

  pub lookup-append :
      (k : Text) (v : V) (cs : List (Text × V))
      → has_card k cs ≡ false
      → lookup k (cs ++ ((k, v) ∷ [])) ≡ some v
  lookup-append k v [] h = rw (text_eq_refl k) refl
  lookup-append k v ((k1, v1) ∷ cs) h =
      let (other, rest) = absent k k1 v1 cs h in rw other (lookup-append k v cs rest)

  pub lookup-append_other :
      (k k' : Text) (v : V) (cs : List (Text × V))
      → text_eq k k' ≡ false
      → lookup k' (cs ++ ((k, v) ∷ [])) ≡ lookup k' cs
  lookup-append_other k k' v [] h = rw h refl
  lookup-append_other k k' v ((k1, v1) ∷ cs) h = elim (Bool-cases (text_eq k1 k')) [
    | inl e ↦ rw e refl
    | inr e ↦ rw e (lookup-append_other k k' v cs h)
  ]

  pub lookup-replace :
      (k : Text) (v : V) (cs : List (Text × V))
      → has_card k cs ≡ true
      → lookup k (replace k v cs) ≡ some v
  lookup-replace k v [] h = cc
  lookup-replace k v ((k1, v1) ∷ cs) h = elim (Bool-cases (text_eq k1 k)) [
    | inl e ↦ rw e (rw e refl)
    | inr e ↦ rw e (rw e (lookup-replace k v cs (sym (rw e refl) ∙ h)))
  ]

  pub lookup-replace_other :
      (k k' : Text) (v : V) (cs : List (Text × V))
      → text_eq k k' ≡ false
      → lookup k' (replace k v cs) ≡ lookup k' cs
  lookup-replace_other k k' v [] h = refl
  lookup-replace_other k k' v ((k1, v1) ∷ cs) h = elim (Bool-cases (text_eq k1 k)) [
    | inl e ↦ rw e (rw (apart k k' k1 h e) refl)
    | inr e ↦
        rw e (ap (λ r. if text_eq k1 k' then some v1 else r) (lookup-replace_other k k' v cs h))
  ]

  pub lookup-without_other :
      (k k' : Text) (cs : List (Text × V))
      → text_eq k k' ≡ false
      → lookup k' (without k cs) ≡ lookup k' cs
  lookup-without_other k k' [] h = refl
  lookup-without_other k k' ((k1, v1) ∷ cs) h = elim (Bool-cases (text_eq k1 k)) [
    | inl e ↦ rw e (rw (apart k k' k1 h e) refl)
    | inr e ↦ rw e (ap (λ r. if text_eq k1 k' then some v1 else r) (lookup-without_other k k' cs h))
  ]
