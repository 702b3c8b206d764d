-- ===== src/HduCategory/Types.antt =====
-- What `type` says of a category.
use ele_fits.Prelude.{◌≡◌, refl, ◌↔◌, ok, [], ◌∷◌, length, arith, Bool, true, false}
use ele_fits.HduCategory.{HduCategory, Trit, unconstrained, first, second}
use ele_fits.HduCategory.Meaning.{
  Fits, Included, some_option, some_option-Fits, some_point, some_point-Satisfies,
}
use ele_fits.HduCategory.Constants.{image, bintable, type_of}

-- Each flag that the model constrains has the same value in the category.
abbrev FlagWithin : Trit → Trit → Type 0
FlagWithin x unconstrained = Unit
FlagWithin x first = x ≡ first
FlagWithin x second = x ≡ second

abbrev Within : HduCategory → HduCategory → Type 0
Within [] [] = Unit
Within (x ∷ c) (y ∷ m) = FlagWithin x y × Within c m
Within _ _ = ⊥

Fits-FlagWithin : (x y : Trit) → FlagWithin x y → (v : Bool) → Fits v x → Fits v y
Fits-FlagWithin x unconstrained w v h = tt
Fits-FlagWithin first first w v h = h
Fits-FlagWithin second second w v h = h
Fits-FlagWithin first second w v h = cc
Fits-FlagWithin second first w v h = cc
Fits-FlagWithin unconstrained first w v h = cc
Fits-FlagWithin unconstrained second w v h = cc

FlagWithin-Fits : (x y : Trit) → ((v : Bool) → Fits v x → Fits v y) → FlagWithin x y
FlagWithin-Fits x unconstrained f = tt
FlagWithin-Fits first first f = refl
FlagWithin-Fits second second f = refl
FlagWithin-Fits first second f = absurd (f true tt)
FlagWithin-Fits second first f = absurd (f false tt)
FlagWithin-Fits unconstrained first f = absurd (f false tt)
FlagWithin-Fits unconstrained second f = absurd (f true tt)

Within-Included : (c m : HduCategory) → Within c m → Included c m
Within-Included [] [] w p s = s
Within-Included [] (y ∷ m) w p s = absurd w
Within-Included (x ∷ c) [] w p s = absurd w
Within-Included (x ∷ c) (y ∷ m) w [] s = s
Within-Included (x ∷ c) (y ∷ m) w (v ∷ p) s =
    (Fits-FlagWithin x y w.0 v s.0, Within-Included c m w.1 p s.1)

Included-Within : (c m : HduCategory) → Included c m → Within c m
Included-Within [] [] f = tt
Included-Within [] (y ∷ m) f = f [] tt
Included-Within (x ∷ c) [] f = f (some_point (x ∷ c)) (some_point-Satisfies (x ∷ c))
Included-Within (x ∷ c) (y ∷ m) f = (
  FlagWithin-Fits x y (λ v h. (f (v ∷ some_point c) (h, some_point-Satisfies c)).0),
  Included-Within c m (λ p h. (f (some_option x ∷ p) (some_option-Fits x, h)).1),
)

-- Whether the first flag but two is constrained.
abbrev bintable_mask : HduCategory
bintable_mask =
    second ∷ unconstrained ∷ second ∷ unconstrained ∷ unconstrained ∷ unconstrained ∷ unconstrained
    ∷ unconstrained ∷ []

bintable_lem : bintable ≡ ok bintable_mask
unfolding bintable
bintable_lem = refl

type_of-Within :
    (c : HduCategory)
    → length c ≡ 8
    → (t : HduCategory) × (type_of c ≡ ok t)
      × ((t ≡ image) ↔ Within c image)
      × (Within c bintable_mask → t ≡ bintable_mask)
unfolding type_of image bintable
type_of-Within (c1 ∷ c2 ∷ first ∷ c4 ∷ c5 ∷ c6 ∷ c7 ∷ c8 ∷ []) n =
    (image, refl, ((λ h. ground arith), λ h. refl), λ h. ground arith)
type_of-Within (c1 ∷ c2 ∷ second ∷ c4 ∷ c5 ∷ c6 ∷ c7 ∷ c8 ∷ []) n =
    (bintable_mask, refl, ((λ h. cc), λ h. ground arith), λ h. refl)
type_of-Within (c1 ∷ c2 ∷ unconstrained ∷ c4 ∷ c5 ∷ c6 ∷ c7 ∷ c8 ∷ []) n =
    (_, refl, ((λ h. cc), λ h. ground arith), λ h. ground arith)
type_of-Within c n = absurd (omega arith)

-- On a mask of eight flags `type` always returns. It returns `Image` exactly for the instances of
-- `Image`, and `Bintable` for each instance of `Bintable`.
pub type_of-Included :
    (c : HduCategory)
    → length c ≡ 8
    → (t : HduCategory) × (b : HduCategory) × (type_of c ≡ ok t)
      × (bintable ≡ ok b)
      × ((t ≡ image) ↔ Included c image)
      × (Included c b → t ≡ b)
type_of-Included c n =
    let (t, e, at_image, at_bintable) = type_of-Within c n in
    (
      t,
      bintable_mask,
      e,
      bintable_lem,
      ((λ h. Within-Included c image (at_image.0 h), λ h. at_image.1 (Included-Within c image h))),
      λ h. at_bintable (Included-Within c bintable_mask h),
    )
