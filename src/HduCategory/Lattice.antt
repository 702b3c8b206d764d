-- ===== src/HduCategory/Lattice.antt =====
-- What `operator&` and `isInstance` mean for the sets of points.
use ele_fits.Prelude.{
  ◌≡◌, refl, ◌↔◌, ◌⊎◌, inl, inr, Bool, true, false, none, some, [], ◌∷◌, length, arith, fits_error,
  out_of_bounds_error, undefined_behaviour, bad_cast, keyword_exists_error, keyword_not_found_error,
  incompatible_trits, Outcome, ok, fail, ◌>>=◌, subst, sym, ◌∙◌, ◌≢◌, length-map,
}
use ele_fits.HduCategory.{
  HduCategory, InPlace, Trit, unconstrained, first, second, category_eq, trit_eq, restrict_flag,
  finish, restrict_assign, restrict, is_instance, catch_incompatible, toggle, transform,
  toggle_flag,
}
use ele_fits.HduCategory.Meaning.{
  Point, Fits, Satisfies, Included, some_option, some_point, some_option-Fits, some_point-Satisfies,
}

-- `r` is the intersection of the sets of `a` and `b`, or `IncompatibleTrits` as it is empty.
abbrev pub Meets : HduCategory → HduCategory → Outcome HduCategory → Type 0
Meets a b (ok m) = (p : Point) → Satisfies p m ↔ (Satisfies p a × Satisfies p b)
Meets a b (fail incompatible_trits) = (p : Point) → Satisfies p a → Satisfies p b → ⊥
Meets a b (fail other) = ⊥

abbrev MeetsFlag : Trit → Trit → Outcome Trit → Type 0
MeetsFlag x y (ok t) = (b : Bool) → Fits b t ↔ (Fits b x × Fits b y)
MeetsFlag x y (fail incompatible_trits) = (b : Bool) → Fits b x → Fits b y → ⊥
MeetsFlag x y (fail other) = ⊥

first-second : (b : Bool) → Fits b first → Fits b second → ⊥
first-second true h k = k
first-second false h k = h

restrict_flag-MeetsFlag : (x y : Trit) → MeetsFlag x y (restrict_flag x y)
unfolding restrict_flag
restrict_flag-MeetsFlag unconstrained unconstrained = λ b. (λ h. (tt, tt), λ h. tt)
restrict_flag-MeetsFlag unconstrained first = λ b. (λ h. (tt, h), λ h. h.1)
restrict_flag-MeetsFlag unconstrained second = λ b. (λ h. (tt, h), λ h. h.1)
restrict_flag-MeetsFlag first unconstrained = λ b. (λ h. (h, tt), λ h. h.0)
restrict_flag-MeetsFlag first first = λ b. (λ h. (h, h), λ h. h.0)
restrict_flag-MeetsFlag first second = first-second
restrict_flag-MeetsFlag second unconstrained = λ b. (λ h. (h, tt), λ h. h.0)
restrict_flag-MeetsFlag second second = λ b. (λ h. (h, h), λ h. h.0)
restrict_flag-MeetsFlag second first = λ b h k. first-second b k h

module _ (x y : Trit) (xs ys : HduCategory) where
  Meets-cons :
      (t : Trit) (m : HduCategory)
      → MeetsFlag x y (ok t)
      → Meets xs ys (ok m)
      → Meets (x ∷ xs) (y ∷ ys) (ok (t ∷ m))
  Meets-cons t m f r [] = (λ h. absurd h, λ h. absurd h.0)
  Meets-cons t m f r (b ∷ p) = (
    λ (fit, rest).
        let both = (f b).0 fit in let all = (r p).0 rest in ((both.0, all.0), (both.1, all.1)),
    λ (left, right). ((f b).1 (left.0, right.0), (r p).1 (left.1, right.1)),
  )

  disjoint_tails :
      Meets xs ys (fail incompatible_trits) → Meets (x ∷ xs) (y ∷ ys) (fail incompatible_trits)
  disjoint_tails r [] h k = h
  disjoint_tails r (b ∷ p) h k = r p h.1 k.1

  disjoint_heads :
      MeetsFlag x y (fail incompatible_trits) → Meets (x ∷ xs) (y ∷ ys) (fail incompatible_trits)
  disjoint_heads f [] h k = h
  disjoint_heads f (b ∷ p) h k = f b h.0 k.0

  Meets-step :
      (flag : Outcome Trit) (rest : InPlace HduCategory)
      → MeetsFlag x y flag
      → Meets xs ys (finish rest)
      → Meets
          (x ∷ xs)
          (y ∷ ys)
          (finish (elim flag [ ok t ↦ (t ∷ rest.0, rest.1) | fail e ↦ (x ∷ xs, some e) ]))
  Meets-step (ok t) (m, none) f r = Meets-cons t m f r
  Meets-step (ok t) (m, some incompatible_trits) f r = disjoint_tails r
  Meets-step (ok t) (m, some fits_error) f r = r
  Meets-step (ok t) (m, some out_of_bounds_error) f r = r
  Meets-step (ok t) (m, some undefined_behaviour) f r = r
  Meets-step (ok t) (m, some bad_cast) f r = r
  Meets-step (ok t) (m, some keyword_exists_error) f r = r
  Meets-step (ok t) (m, some keyword_not_found_error) f r = r
  Meets-step (fail incompatible_trits) rest f r = disjoint_heads f
  Meets-step (fail fits_error) rest f r = f
  Meets-step (fail out_of_bounds_error) rest f r = f
  Meets-step (fail undefined_behaviour) rest f r = f
  Meets-step (fail bad_cast) rest f r = f
  Meets-step (fail keyword_exists_error) rest f r = f
  Meets-step (fail keyword_not_found_error) rest f r = f

Meets-nil : Meets [] [] (ok [])
Meets-nil [] = (λ h. (h, h), λ h. h.0)
Meets-nil (b ∷ p) = (λ h. (h, h), λ h. h.0)

-- `a & b` is the category of the points of both, and it throws `IncompatibleTrits` exactly when
-- there is none; no other failure is possible between masks of one length.
pub restrict-Meets : (a b : HduCategory) → length a ≡ length b → Meets a b (restrict a b)
unfolding restrict
restrict-Meets [] [] h = Meets-nil
restrict-Meets [] (y ∷ ys) h = absurd (omega arith)
restrict-Meets (x ∷ xs) [] h = absurd (omega arith)
restrict-Meets (x ∷ xs) (y ∷ ys) h =
    Meets-step x y xs ys (restrict_flag x y) (restrict_assign xs ys) (restrict_flag-MeetsFlag x y)
      (restrict-Meets xs ys (omega arith))

pub restrict_assign-Meets :
    (a b : HduCategory) → length a ≡ length b → Meets a b (finish (restrict_assign a b))
unfolding restrict
restrict_assign-Meets a b h = restrict-Meets a b h

trit_eq_iff : (x y : Trit) → (trit_eq x y ≡ true) ↔ (x ≡ y)
trit_eq_iff x y = ground arith

pub category_eq_iff : (a b : HduCategory) → (category_eq a b ≡ true) ↔ (a ≡ b)
unfolding category_eq
category_eq_iff [] [] = (λ e. refl, λ e. refl)
category_eq_iff [] (y ∷ ys) = (λ e. cc, λ e. cc)
category_eq_iff (x ∷ xs) [] = (λ e. cc, λ e. cc)
category_eq_iff (x ∷ xs) (y ∷ ys) = ground (arith, trit_eq_iff x y, category_eq_iff xs ys)

-- Sets of points that are included both ways belong to one category.
Fits-ext :
    (x y : Trit) → ((b : Bool) → Fits b x → Fits b y) → ((b : Bool) → Fits b y → Fits b x) → x ≡ y
Fits-ext unconstrained unconstrained f g = refl
Fits-ext unconstrained first f g = absurd (f false tt)
Fits-ext unconstrained second f g = absurd (f true tt)
Fits-ext first unconstrained f g = absurd (g false tt)
Fits-ext first first f g = refl
Fits-ext first second f g = absurd (f true tt)
Fits-ext second unconstrained f g = absurd (g true tt)
Fits-ext second first f g = absurd (f false tt)
Fits-ext second second f g = refl

heads_eq :
    (x y : Trit) (xs ys : HduCategory)
    → Included (x ∷ xs) (y ∷ ys)
    → Included (y ∷ ys) (x ∷ xs)
    → x ≡ y
heads_eq x y xs ys f g =
    Fits-ext x y (λ b h. (f (b ∷ some_point xs) (h, some_point-Satisfies xs)).0)
      (λ b h. (g (b ∷ some_point ys) (h, some_point-Satisfies ys)).0)

Included-tail : (x y : Trit) (xs ys : HduCategory) → Included (x ∷ xs) (y ∷ ys) → Included xs ys
Included-tail x y xs ys f p h = (f (some_option x ∷ p) (some_option-Fits x, h)).1

pub Included-antisymm : (a b : HduCategory) → Included a b → Included b a → a ≡ b
Included-antisymm [] [] f g = refl
Included-antisymm [] (y ∷ ys) f g = absurd (f [] tt)
Included-antisymm (x ∷ xs) [] f g = absurd (g [] tt)
Included-antisymm (x ∷ xs) (y ∷ ys) f g = cc (
  heads_eq x y xs ys f g,
  Included-antisymm xs ys (Included-tail x y xs ys f) (Included-tail y x ys xs g),
)

-- What `isInstance` answers, for each outcome of `&`.
instance_of_meet :
    (c model : HduCategory) (r : Outcome HduCategory)
    → Meets c model r
    → (answer : Bool) × (catch_incompatible (do both ← r; ok (category_eq both c)) ≡ ok answer)
      × ((answer ≡ true) ↔ Included c model)
instance_of_meet c model (ok m) meets = (category_eq m c, refl, (yes_if, only_if))
  where
    yes_if : category_eq m c ≡ true → Included c model
    yes_if e p h = ((meets p).0 (subst (Satisfies p) (sym ((category_eq_iff m c).0 e)) h)).1

    only_if : Included c model → category_eq m c ≡ true
    only_if inside =
        (category_eq_iff m c).1
          (Included-antisymm m c (λ p h. ((meets p).0 h).0) (λ p h. (meets p).1 (h, inside p h)))
instance_of_meet c model (fail incompatible_trits) meets = (
  false,
  refl,
  (
    λ e. cc,
    λ inside. absurd (
        meets (some_point c) (some_point-Satisfies c)
          (inside (some_point c) (some_point-Satisfies c))),
  ),
)
instance_of_meet c model (fail fits_error) meets = absurd meets
instance_of_meet c model (fail out_of_bounds_error) meets = absurd meets
instance_of_meet c model (fail undefined_behaviour) meets = absurd meets
instance_of_meet c model (fail bad_cast) meets = absurd meets
instance_of_meet c model (fail keyword_exists_error) meets = absurd meets
instance_of_meet c model (fail keyword_not_found_error) meets = absurd meets

-- `isInstance` decides the inclusion of the sets of points: it always returns, and answers true
-- exactly when every HDU of the category belongs to the model.
pub is_instance-Included :
    (c model : HduCategory)
    → length c ≡ length model
    → (answer : Bool) × (is_instance c model ≡ ok answer) × ((answer ≡ true) ↔ Included c model)
unfolding is_instance
is_instance-Included c model h =
    instance_of_meet c model (restrict c model) (restrict-Meets c model h)

-- Some flag has one constrained value in both.
abbrev pub SharesFlag : HduCategory → HduCategory → Type 0
SharesFlag (x ∷ xs) (y ∷ ys) = ((x ≡ y) × (x ≢ unconstrained)) ⊎ SharesFlag xs ys
SharesFlag _ _ = ⊥

Fits-toggle_ne : (v : Bool) (x : Trit) → x ≢ unconstrained → Fits v x → Fits v (toggle_flag x) → ⊥
unfolding toggle_flag
Fits-toggle_ne v unconstrained ne f g = ne refl
Fits-toggle_ne v first ne f g = first-second v f g
Fits-toggle_ne v second ne f g = first-second v g f

toggle_apart :
    (a b : HduCategory) → SharesFlag a b → (p : Point) → Satisfies p a → Satisfies p (toggle b) → ⊥
unfolding toggle
toggle_apart [] b shared p f g = absurd shared
toggle_apart (x ∷ xs) [] shared p f g = absurd shared
toggle_apart (x ∷ xs) (y ∷ ys) shared [] f g = f
toggle_apart (x ∷ xs) (y ∷ ys) (inl s) (v ∷ p) f g =
    Fits-toggle_ne v x s.1 f.0 (subst (λ t. Fits v (toggle_flag t)) (sym s.0) g.0)
toggle_apart (x ∷ xs) (y ∷ ys) (inr s) (v ∷ p) f g = toggle_apart xs ys s p f.1 g.1

fails_if_apart :
    (a b : HduCategory) (r : Outcome HduCategory)
    → ((p : Point) → Satisfies p a → Satisfies p b → ⊥)
    → Meets a b r
    → r ≡ fail incompatible_trits
fails_if_apart a b (ok m) apart meets =
    let both = (meets (some_point m)).0 (some_point-Satisfies m) in
    absurd (apart (some_point m) both.0 both.1)
fails_if_apart a b (fail incompatible_trits) apart meets = refl
fails_if_apart a b (fail fits_error) apart meets = absurd meets
fails_if_apart a b (fail out_of_bounds_error) apart meets = absurd meets
fails_if_apart a b (fail undefined_behaviour) apart meets = absurd meets
fails_if_apart a b (fail bad_cast) apart meets = absurd meets
fails_if_apart a b (fail keyword_exists_error) apart meets = absurd meets
fails_if_apart a b (fail keyword_not_found_error) apart meets = absurd meets

length-toggle : (c : HduCategory) → length (toggle c) ≡ length c
unfolding toggle transform
length-toggle c = length-map toggle_flag c

-- `a & ~b` throws as soon as `a` and `b` constrain one flag alike, whatever their other flags:
-- `~b` flips each flag of `b`, and is not the complement of its set.
pub restrict-toggle :
    (a b : HduCategory)
    → length a ≡ length b
    → SharesFlag a b
    → restrict a (toggle b) ≡ fail incompatible_trits
restrict-toggle a b h shared =
    fails_if_apart a (toggle b) _ (toggle_apart a b shared)
      (restrict-Meets a (toggle b) (h ∙ sym (length-toggle b)))
