-- ===== src/HduFilter/Operators.antt =====
-- What the operators that build a filter do to the HDUs that it accepts.
use ele_fits.Prelude.{
  ◌≡◌, refl, ◌↔◌, ◌⊎◌, inl, inr, ◌≢◌, none, some, List, [], ◌∷◌, ◌++◌, length, Outcome, ok, fail,
  fits_error, out_of_bounds_error, incompatible_trits, undefined_behaviour, bad_cast,
  keyword_exists_error, keyword_not_found_error, sym,
}
use ele_fits.HduCategory.{HduCategory, InPlace, finish, restrict_assign}
use ele_fits.HduCategory.Meaning.{Included, Point, Satisfies, some_point, some_point-Satisfies}
use ele_fits.HduCategory.Lattice.{Meets, restrict_assign-Meets}
use ele_fits.HduFilter.{HduFilter, add_reject, after_first, restrict_all, constrain_accept}
use ele_fits.HduFilter.Accepts.{SomeIncluded, AllOfSize, Passes}

SomeIncluded-append :
    (input : HduCategory) (l : List HduCategory) (c : HduCategory)
    → SomeIncluded input (l ++ (c ∷ [])) ↔ (SomeIncluded input l ⊎ Included input c)
SomeIncluded-append input [] c = (
  λ u. elim u [ inl x ↦ inr x | inr y ↦ absurd y ],
  λ u. elim u [ inl x ↦ absurd x | inr y ↦ inl y ],
)
SomeIncluded-append input (d ∷ l) c =
    let rest = SomeIncluded-append input l c in
    (
      λ u. elim u [
        | inl x ↦ inl (inl x)
        | inr y ↦ elim (rest.0 y) [ inl a ↦ inl (inr a) | inr b ↦ inr b ]
      ],
      λ u. elim u [
        | inl w ↦ elim w [ inl x ↦ inl x | inr y ↦ inr (rest.1 (inl y)) ]
        | inr z ↦ inr (rest.1 (inr z))
      ],
    )

-- `f - c` accepts what `f` accepts, less the instances of `c`.
pub add_reject-Passes :
    (f : HduFilter) (c input : HduCategory)
    → Passes (add_reject f c) input ↔ (Passes f input × ¬ Included input c)
unfolding add_reject
add_reject-Passes f c input =
    let both = SomeIncluded-append input f.reject c in
    (
      λ h. (
        record { not_rejected = λ r. h.not_rejected (both.1 (inl r)); accepted = h.accepted },
        λ i. h.not_rejected (both.1 (inr i)),
      ),
      λ h. record {
        not_rejected = λ r. elim (both.0 r) [ inl a ↦ h.0.not_rejected a | inr b ↦ h.1 b ];
        accepted = h.0.accepted;
      },
    )

-- What the loop of `*=` leaves when no round throws: each category met with the constraint.
SomeIncluded-restrict_step :
    (input c a m : HduCategory) (old new : List HduCategory)
    → Meets a c (ok m)
    → SomeIncluded input new ↔ (SomeIncluded input old × Included input c)
    → SomeIncluded input (m ∷ new) ↔ (SomeIncluded input (a ∷ old) × Included input c)
SomeIncluded-restrict_step input c a m old new meets ih = (
  λ u. elim u [
    | inl i ↦ (inl (λ p s. ((meets p).0 (i p s)).0), λ p s. ((meets p).0 (i p s)).1)
    | inr y ↦ (inr (ih.0 y).0, (ih.0 y).1)
  ],
  λ (u, i). elim u [ inl x ↦ inl (λ p s. (meets p).1 (x p s, i p s)) | inr y ↦ inr (ih.1 (y, i)) ],
)

-- The sets of two categories have no point in common.
abbrev pub Disjoint : HduCategory → HduCategory → Type 0
Disjoint a c = (p : Point) → Satisfies p a → Satisfies p c → ⊥

abbrev pub SomeDisjoint : HduCategory → List HduCategory → Type 0
SomeDisjoint c [] = ⊥
SomeDisjoint c (a ∷ rest) = Disjoint a c ⊎ SomeDisjoint c rest

-- What constraining the list `old` by `c` may end with.
abbrev pub Constrains : HduCategory → List HduCategory → Outcome (List HduCategory) → Type 0
Constrains c old (ok new) =
    ¬ SomeDisjoint c old
    × ((input : HduCategory) → SomeIncluded input new ↔ (SomeIncluded input old × Included input c))
    × ((new ≡ []) ↔ (old ≡ []))
Constrains c old (fail incompatible_trits) = SomeDisjoint c old
Constrains c old (fail other) = ⊥

not-Disjoint : (a c m : HduCategory) → Meets a c (ok m) → ¬ Disjoint a c
not-Disjoint a c m meets apart =
    let both = (meets (some_point m)).0 (some_point-Satisfies m) in
    apart (some_point m) both.0 both.1

Constrains-step :
    (c a : HduCategory) (old : List HduCategory) (one : InPlace HduCategory)
    (rest : InPlace (List HduCategory))
    → Meets a c (finish one)
    → Constrains c old (finish rest)
    → Constrains c (a ∷ old) (finish (after_first one old rest))
Constrains-step c a old (m, none) (new, none) meets ih = (
  λ u. elim u [ inl x ↦ not-Disjoint a c m meets x | inr y ↦ ih.0 y ],
  λ input. SomeIncluded-restrict_step input c a m old new meets (ih.1 input),
  (λ e. cc, λ e. cc),
)
Constrains-step c a old (m, none) (new, some incompatible_trits) meets ih = inr ih
Constrains-step c a old (m, none) (new, some fits_error) meets ih = ih
Constrains-step c a old (m, none) (new, some out_of_bounds_error) meets ih = ih
Constrains-step c a old (m, none) (new, some undefined_behaviour) meets ih = ih
Constrains-step c a old (m, none) (new, some bad_cast) meets ih = ih
Constrains-step c a old (m, none) (new, some keyword_exists_error) meets ih = ih
Constrains-step c a old (m, none) (new, some keyword_not_found_error) meets ih = ih
Constrains-step c a old (m, some incompatible_trits) rest meets ih = inl meets
Constrains-step c a old (m, some fits_error) rest meets ih = meets
Constrains-step c a old (m, some out_of_bounds_error) rest meets ih = meets
Constrains-step c a old (m, some undefined_behaviour) rest meets ih = meets
Constrains-step c a old (m, some bad_cast) rest meets ih = meets
Constrains-step c a old (m, some keyword_exists_error) rest meets ih = meets
Constrains-step c a old (m, some keyword_not_found_error) rest meets ih = meets

restrict_all-Constrains :
    (c : HduCategory) (old : List HduCategory)
    → AllOfSize (length c) old
    → Constrains c old (finish (restrict_all c old))
unfolding restrict_all
restrict_all-Constrains c [] sizes =
    ((λ x. x), (λ input. (λ x. absurd x, λ x. absurd x.0)), (λ e. refl, λ e. refl))
restrict_all-Constrains c (a ∷ old) sizes =
    Constrains-step c a old (restrict_assign a c) (restrict_all c old)
      (restrict_assign-Meets a c (sym sizes.0)) (restrict_all-Constrains c old sizes.1)

-- The rule of `f * c`, for each outcome of the loop.
abbrev pub ConstrainedBy : HduFilter → HduCategory → Outcome HduFilter → Type 0
ConstrainedBy f c (ok g) =
    (input : HduCategory)
    → (f.accept ≡ [] → Passes g input ↔ Passes f input)
      × (f.accept ≢ [] → Passes g input ↔ (Passes f input × Included input c))
ConstrainedBy f c (fail incompatible_trits) = SomeDisjoint c f.accept
ConstrainedBy f c (fail other) = ⊥

constrained-Passes :
    (f : HduFilter) (c input : HduCategory) (new : List HduCategory)
    → Constrains c f.accept (ok new)
    → (f.accept ≡ [] → Passes (record f { accept = new }) input ↔ Passes f input)
      × (f.accept ≢ []
          → Passes (record f { accept = new }) input ↔ (Passes f input × Included input c))
constrained-Passes f c input new (apart, members, empty) = (
  (λ e. (
    λ h. record { not_rejected = h.not_rejected; accepted = inl e },
    λ h. record { not_rejected = h.not_rejected; accepted = inl (empty.1 e) },
  )),
  (λ ne. (
    λ h. elim h.accepted [
      | inl e ↦ absurd (ne (empty.0 e))
      | inr s ↦ (
        record { not_rejected = h.not_rejected; accepted = inr ((members input).0 s).0 },
        ((members input).0 s).1,
      )
    ],
    λ (h, i). elim h.accepted [
      | inl e ↦ absurd (ne e)
      | inr s ↦ record { not_rejected = h.not_rejected; accepted = inr ((members input).1 (s, i)) }
    ],
  )),
)

ConstrainedBy-of :
    (f : HduFilter) (c : HduCategory) (loop : InPlace (List HduCategory))
    → Constrains c f.accept (finish loop)
    → ConstrainedBy f c (finish {A = HduFilter} (record f { accept = loop.0 }, loop.1))
ConstrainedBy-of f c (new, none) h = λ input. constrained-Passes f c input new h
ConstrainedBy-of f c (new, some incompatible_trits) h = h
ConstrainedBy-of f c (new, some fits_error) h = h
ConstrainedBy-of f c (new, some out_of_bounds_error) h = h
ConstrainedBy-of f c (new, some undefined_behaviour) h = h
ConstrainedBy-of f c (new, some bad_cast) h = h
ConstrainedBy-of f c (new, some keyword_exists_error) h = h
ConstrainedBy-of f c (new, some keyword_not_found_error) h = h

-- `f * c` throws `IncompatibleTrits` if an accepted category has no point in common with `c`.
-- Otherwise it returns: with an accepted category in `f`, the new filter accepts what `f` accepts
-- among the instances of `c`; with none, it accepts all that `f` accepts, whatever `c` is.
pub constrain_accept-ConstrainedBy :
    (f : HduFilter) (c : HduCategory)
    → AllOfSize (length c) f.accept
    → ConstrainedBy f c (constrain_accept f c)
unfolding constrain_accept
constrain_accept-ConstrainedBy f c sizes =
    ConstrainedBy-of f c (restrict_all c f.accept) (restrict_all-Constrains c f.accept sizes)
