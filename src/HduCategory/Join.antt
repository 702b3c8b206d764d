-- ===== src/HduCategory/Join.antt =====
-- What `operator|`, `operator<<` and `operator~` mean for the sets of points.
use ele_fits.Prelude.{
  ◌≡◌, refl, ap, ◌↔◌, Bool, true, false, not, none, [], ◌∷◌, map, length, arith, ok,
}
use ele_fits.HduCategory.{
  HduCategory, Trit, unconstrained, first, second, toggle_flag, toggle, extend_assign, extend,
  overwrite_assign, overwrite, finish,
}
use ele_fits.HduCategory.Meaning.{
  Point, Fits, Satisfies, Included, some_option, some_point, some_option-Fits, some_point-Satisfies,
}

abbrev join_flag : Trit → Trit → Trit
join_flag unconstrained y = unconstrained
join_flag first first = first
join_flag first _ = unconstrained
join_flag second second = second
join_flag second _ = unconstrained

abbrev join : HduCategory → HduCategory → HduCategory
join (x ∷ xs) (y ∷ ys) = join_flag x y ∷ join xs ys
join _ _ = []

extend_assign-join :
    (a b : HduCategory) → length a ≡ length b → extend_assign a b ≡ (join a b, none)
unfolding extend_assign
extend_assign-join [] [] h = refl
extend_assign-join [] (y ∷ ys) h = absurd (omega arith)
extend_assign-join (x ∷ xs) [] h = absurd (omega arith)
extend_assign-join (x ∷ xs) (y ∷ ys) h = ground (arith, extend_assign-join xs ys)

pub extend-join : (a b : HduCategory) → length a ≡ length b → extend a b ≡ ok (join a b)
unfolding extend
extend-join a b h = ap finish (extend_assign-join a b h)

Fits-join_left : (x y : Trit) (b : Bool) → Fits b x → Fits b (join_flag x y)
Fits-join_left unconstrained y b h = h
Fits-join_left first first b h = h
Fits-join_left first unconstrained b h = tt
Fits-join_left first second b h = tt
Fits-join_left second second b h = h
Fits-join_left second unconstrained b h = tt
Fits-join_left second first b h = tt

Fits-join_right : (x y : Trit) (b : Bool) → Fits b y → Fits b (join_flag x y)
Fits-join_right unconstrained y b h = tt
Fits-join_right first first b h = h
Fits-join_right first unconstrained b h = tt
Fits-join_right first second b h = tt
Fits-join_right second second b h = h
Fits-join_right second unconstrained b h = tt
Fits-join_right second first b h = tt

Fits-join_least :
    (x y z : Trit)
    → ((b : Bool) → Fits b x → Fits b z)
    → ((b : Bool) → Fits b y → Fits b z)
    → (b : Bool) → Fits b (join_flag x y)
    → Fits b z
Fits-join_least unconstrained y z f g b h = f b tt
Fits-join_least first first z f g b h = f b h
Fits-join_least first unconstrained z f g b h = g b tt
Fits-join_least first second z f g true h = f true tt
Fits-join_least first second z f g false h = g false tt
Fits-join_least second second z f g b h = f b h
Fits-join_least second unconstrained z f g b h = g b tt
Fits-join_least second first z f g true h = g true tt
Fits-join_least second first z f g false h = f false tt

Included-join_left : (a b : HduCategory) → length a ≡ length b → Included a (join a b)
Included-join_left [] b h [] s = s
Included-join_left [] b h (v ∷ p) s = absurd s
Included-join_left (x ∷ xs) [] h p s = absurd (omega arith)
Included-join_left (x ∷ xs) (y ∷ ys) h [] s = absurd s
Included-join_left (x ∷ xs) (y ∷ ys) h (v ∷ p) s =
    (Fits-join_left x y v s.0, Included-join_left xs ys (omega arith) p s.1)

Included-join_right : (a b : HduCategory) → length a ≡ length b → Included b (join a b)
Included-join_right [] [] h p s = s
Included-join_right [] (y ∷ ys) h p s = absurd (omega arith)
Included-join_right (x ∷ xs) [] h p s = absurd (omega arith)
Included-join_right (x ∷ xs) (y ∷ ys) h [] s = absurd s
Included-join_right (x ∷ xs) (y ∷ ys) h (v ∷ p) s =
    (Fits-join_right x y v s.0, Included-join_right xs ys (omega arith) p s.1)

Included-head :
    (x z : Trit) (xs zs : HduCategory)
    → Included (x ∷ xs) (z ∷ zs)
    → (b : Bool) → Fits b x
    → Fits b z
Included-head x z xs zs f b h = (f (b ∷ some_point xs) (h, some_point-Satisfies xs)).0

Included-tail : (x z : Trit) (xs zs : HduCategory) → Included (x ∷ xs) (z ∷ zs) → Included xs zs
Included-tail x z xs zs f p h = (f (some_option x ∷ p) (some_option-Fits x, h)).1

join-Included :
    (a b c : HduCategory)
    → length a ≡ length b
    → Included a c
    → Included b c
    → Included (join a b) c
join-Included [] b c h f g p s = f p s
join-Included (x ∷ xs) [] c h f g p s = absurd (omega arith)
join-Included (x ∷ xs) (y ∷ ys) [] h f g p s =
    absurd (f (some_point (x ∷ xs)) (some_point-Satisfies (x ∷ xs)))
join-Included (x ∷ xs) (y ∷ ys) (z ∷ zs) h f g [] s = absurd s
join-Included (x ∷ xs) (y ∷ ys) (z ∷ zs) h f g (v ∷ p) s = (
  Fits-join_least x y z (Included-head x z xs zs f) (Included-head y z ys zs g) v s.0,
  join-Included xs ys zs (omega arith) (Included-tail x z xs zs f) (Included-tail y z ys zs g) p
      s.1,
)

-- `a | b` always returns. It is the least category that contains both: it contains each of them,
-- and lies in every category that does.
pub extend-least :
    (a b : HduCategory)
    → length a ≡ length b
    → (m : HduCategory) × (extend a b ≡ ok m)
      × Included a m
      × Included b m
      × ((c : HduCategory) → Included a c → Included b c → Included m c)
extend-least a b h = (
  join a b,
  extend-join a b h,
  Included-join_left a b h,
  Included-join_right a b h,
  λ c f g. join-Included a b c h f g,
)

-- The points of `a << b`: they fit `b`, and `a` at the flags that `b` leaves unconstrained.
abbrev pub FitsOver : Bool → Trit → Trit → Type 0
FitsOver v x unconstrained = Fits v x
FitsOver v x first = Fits v first
FitsOver v x second = Fits v second

abbrev pub SatisfiesOver : Point → HduCategory → HduCategory → Type 0
SatisfiesOver [] [] [] = Unit
SatisfiesOver (v ∷ p) (x ∷ a) (y ∷ b) = FitsOver v x y × SatisfiesOver p a b
SatisfiesOver _ _ _ = ⊥

abbrev over_flag : Trit → Trit → Trit
over_flag x unconstrained = x
over_flag x first = first
over_flag x second = second

abbrev over : HduCategory → HduCategory → HduCategory
over (x ∷ xs) (y ∷ ys) = over_flag x y ∷ over xs ys
over _ _ = []

overwrite_assign-over :
    (a b : HduCategory) → length a ≡ length b → overwrite_assign a b ≡ (over a b, none)
unfolding overwrite_assign
overwrite_assign-over [] [] h = refl
overwrite_assign-over [] (y ∷ ys) h = absurd (omega arith)
overwrite_assign-over (x ∷ xs) [] h = absurd (omega arith)
overwrite_assign-over (x ∷ xs) (y ∷ ys) h = ground (arith, overwrite_assign-over xs ys)

Fits-over : (v : Bool) (x y : Trit) → Fits v (over_flag x y) ↔ FitsOver v x y
Fits-over v x unconstrained = (λ h. h, λ h. h)
Fits-over v x first = (λ h. h, λ h. h)
Fits-over v x second = (λ h. h, λ h. h)

Satisfies-over :
    (p : Point) (a b : HduCategory)
    → length a ≡ length b
    → Satisfies p (over a b) ↔ SatisfiesOver p a b
Satisfies-over [] [] [] h = (λ s. s, λ s. s)
Satisfies-over (v ∷ p) [] [] h = (λ s. s, λ s. s)
Satisfies-over p [] (y ∷ ys) h = absurd (omega arith)
Satisfies-over p (x ∷ xs) [] h = absurd (omega arith)
Satisfies-over [] (x ∷ xs) (y ∷ ys) h = (λ s. s, λ s. s)
Satisfies-over (v ∷ p) (x ∷ xs) (y ∷ ys) h =
    let head = Fits-over v x y in
    let tail = Satisfies-over p xs ys (omega arith) in
    (λ (s, t). (head.0 s, tail.0 t), λ (s, t). (head.1 s, tail.1 t))

-- `a << b` always returns the category of the points that fit `b`, and fit `a` at each flag that
-- `b` leaves unconstrained.
pub overwrite-SatisfiesOver :
    (a b : HduCategory)
    → length a ≡ length b
    → (m : HduCategory) × (overwrite a b ≡ ok m)
      × ((p : Point) → Satisfies p m ↔ SatisfiesOver p a b)
unfolding overwrite
overwrite-SatisfiesOver a b h =
    (over a b, ap finish (overwrite_assign-over a b h), λ p. Satisfies-over p a b h)

Fits-toggle : (v : Bool) (x : Trit) → Fits v x ↔ Fits (not v) (toggle_flag x)
unfolding toggle_flag
Fits-toggle v unconstrained = (λ h. h, λ h. h)
Fits-toggle true first = (λ h. h, λ h. h)
Fits-toggle false first = (λ h. h, λ h. h)
Fits-toggle true second = (λ h. h, λ h. h)
Fits-toggle false second = (λ h. h, λ h. h)

-- `~c` is the category of the points with every option flipped.
pub toggle-Satisfies :
    (p : Point) (c : HduCategory) → Satisfies p c ↔ Satisfies (map not p) (toggle c)
unfolding toggle
toggle-Satisfies [] [] = (λ h. h, λ h. h)
toggle-Satisfies [] (x ∷ xs) = (λ h. h, λ h. h)
toggle-Satisfies (v ∷ p) [] = (λ h. h, λ h. h)
toggle-Satisfies (v ∷ p) (x ∷ xs) =
    let head = Fits-toggle v x in
    let tail = toggle-Satisfies p xs in
    (λ (s, t). (head.0 s, tail.0 t), λ (s, t). (head.1 s, tail.1 t))

pub toggle-toggle : (c : HduCategory) → toggle (toggle c) ≡ c
unfolding toggle
toggle-toggle [] = refl
toggle-toggle (unconstrained ∷ c) = ap (λ r. unconstrained ∷ r) (toggle-toggle c)
toggle-toggle (first ∷ c) = ap (λ r. first ∷ r) (toggle-toggle c)
toggle-toggle (second ∷ c) = ap (λ r. second ∷ r) (toggle-toggle c)
