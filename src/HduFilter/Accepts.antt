-- ===== src/HduFilter/Accepts.antt =====
-- What `accepts` decides.
use ele_fits.Prelude.{
  ℕ, ◌≡◌, refl, ◌↔◌, ◌⊎◌, inl, inr, Bool, true, false, List, [], ◌∷◌, length, arith, Outcome, ok,
  ◌>>=◌, if◌then◌else◌,
}
use ele_fits.HduCategory.{HduCategory, is_instance}
use ele_fits.HduCategory.Meaning.{Included}
use ele_fits.HduCategory.Lattice.{is_instance-Included}
use ele_fits.HduFilter.{HduFilter, is_empty, any_instance, accepts}

abbrev pub SomeIncluded : HduCategory → List HduCategory → Type 0
SomeIncluded input [] = ⊥
SomeIncluded input (c ∷ rest) = Included input c ⊎ SomeIncluded input rest

-- All masks have `n` flags.
abbrev pub AllOfSize : ℕ → List HduCategory → Type 0
AllOfSize n [] = Unit
AllOfSize n (c ∷ rest) = (n ≡ length c) × AllOfSize n rest

pub record IsValid (n : ℕ) (f : HduFilter) : Type 0 where
  pub accept_sizes : AllOfSize n f.accept
  pub reject_sizes : AllOfSize n f.reject

-- The rule of the filter: an instance of no rejected category, and of an accepted one unless
-- there is none.
pub record Passes (f : HduFilter) (input : HduCategory) : Type 0 where
  pub not_rejected : ¬ SomeIncluded input f.reject
  pub accepted : (f.accept ≡ []) ⊎ SomeIncluded input f.accept

-- `r` returns, and answers `P`.
abbrev pub Decides : Outcome Bool → Type 0 → Type 0
Decides r P = (answer : Bool) × (r ≡ ok answer) × ((answer ≡ true) ↔ P)

Decides-or :
    {P Q : Type 0} (r s : Outcome Bool)
    → Decides r P
    → Decides s Q
    → Decides (do found ← r; if found then ok true else s) (P ⊎ Q)
Decides-or r s (true, e, p) d = (true, rw e, ((λ _. inl (p.0 refl)), λ _. refl))
Decides-or r s (false, e, p) (b, e', q) = (
  b,
  rw e e',
  (λ h. inr (q.0 h), λ u. elim u [ inl x ↦ absurd (ground (arith, p.1 x)) | inr y ↦ q.1 y ]),
)

pub any_instance-Decides :
    (input : HduCategory) (l : List HduCategory)
    → AllOfSize (length input) l
    → Decides (any_instance input l) (SomeIncluded input l)
unfolding any_instance
any_instance-Decides input [] sizes = (false, refl, (λ e. cc, λ h. absurd h))
any_instance-Decides input (c ∷ rest) sizes =
    Decides-or (is_instance input c) (any_instance input rest)
      (is_instance-Included input c sizes.0) (any_instance-Decides input rest sizes.1)

Decides-unless :
    {P Q R : Type 0} (r s : Outcome Bool)
    → Decides r P
    → Decides s Q
    → R ↔ (¬ P × Q)
    → Decides (do found ← r; if found then ok false else s) R
Decides-unless r s (true, e, p) d spec =
    (false, rw e, (λ h. cc, λ h. absurd ((spec.0 h).0 (p.0 refl))))
Decides-unless r s (false, e, p) (b, e', q) spec =
    (b, rw e e', (λ h. spec.1 ((λ x. cc (p.1 x)), q.0 h), λ h. q.1 (spec.0 h).1))

Decides-accept :
    (input : HduCategory) (l : List HduCategory)
    → Decides (any_instance input l) (SomeIncluded input l)
    → Decides
        (if is_empty l then ok true else any_instance input l)
        ((l ≡ []) ⊎ SomeIncluded input l)
Decides-accept input [] d = (true, refl, (λ h. inl refl, λ h. refl))
Decides-accept input (c ∷ rest) (b, e, p) =
    (b, e, (λ h. inr (p.0 h), λ u. elim u [ inl x ↦ cc | inr y ↦ p.1 y ]))

-- `accepts` always returns, and answers true exactly when the input is an instance of no rejected
-- category, and of an accepted category unless the list of these is empty.
pub accepts-Passes :
    (f : HduFilter) (input : HduCategory)
    → IsValid (length input) f
    → Decides (accepts f input) (Passes f input)
unfolding accepts
accepts-Passes f input v =
    Decides-unless (any_instance input f.reject) _
      (any_instance-Decides input f.reject v.reject_sizes)
      (Decides-accept input f.accept (any_instance-Decides input f.accept v.accept_sizes))
      (λ h. (h.not_rejected, h.accepted), λ h. record { not_rejected = h.0; accepted = h.1 })
