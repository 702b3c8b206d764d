-- ===== src/Hdu/Flags.antt =====
-- The flags that the classes of handles put together, for each status.
use ele_fits.Prelude.{◌≡◌, refl, Bool, true, false, ◌&&◌, [], ◌∷◌, Outcome, ok, fail, ◌>>=◌, &&_iff}
use ele_fits.HduCategory.{HduCategory, unconstrained, second, restrict, is_instance}
use ele_fits.HduCategory.Constants.{untouched, existed, only_read, edited}
use ele_fits.Hdu.{add_place, add_emptiness, add_pixels, add_compression}
use ele_fits.Hdu.Life.{Status, is_untouched, is_touched, is_edited, is_created, mask, after_touch}

-- A category of none of the kinds `Untouched`, `Existed` and `OnlyRead`.
abbrev is_false : Outcome Bool → Bool
is_false (ok false) = true
is_false _ = false

abbrev pub none_of_them : Outcome HduCategory → Bool
none_of_them (ok c) =
    is_false (is_instance c untouched)
    && (is_false (is_instance c existed) && is_false (do o ← only_read; is_instance c o))
none_of_them (fail e) = false

-- A test of a Boolean, at both of them.
abbrev pub on_both : (Bool → Bool) → Bool
on_both test = test true && test false

pub on_both_sound : (test : Bool → Bool) → on_both test ≡ true → (b : Bool) → test b ≡ true
on_both_sound test h true = ((&&_iff (test true) (test false)).0 h).0
on_both_sound test h false = ((&&_iff (test true) (test false)).0 h).1

-- The flags that each class puts together.
abbrev pub plain_flags : HduCategory → Status → Bool → Outcome HduCategory
plain_flags type s is_primary = do c ← restrict type (mask (after_touch s)); add_place is_primary c

abbrev pub image_flags : HduCategory → Status → Bool → Bool → Bool → Bool → Outcome HduCategory
image_flags type s is_primary is_empty is_floating is_compressed = do
  c ← plain_flags type s is_primary
  sized ← add_emptiness is_empty c
  typed ← add_pixels is_floating sized
  add_compression is_compressed typed

abbrev pub bintable_flags : HduCategory → Status → Bool → Outcome HduCategory
bintable_flags type s is_empty = do c ← plain_flags type s false; add_emptiness is_empty c

abbrev pub image_type : HduCategory
image_type = ele_fits.HduCategory.Constants.image

pub plain_flags-on_both :
    (s : Status) → on_both (λ p. none_of_them (plain_flags image_type s p)) ≡ true
unfolding restrict add_place is_instance untouched existed only_read
    ele_fits.HduCategory.Constants.image
plain_flags-on_both is_untouched = refl
plain_flags-on_both is_touched = refl
plain_flags-on_both is_edited = refl
plain_flags-on_both is_created = refl

pub image_flags-on_both :
    (s : Status)
    → on_both (λ p.
      on_both (λ e. on_both (λ f. on_both (λ z. none_of_them (image_flags image_type s p e f z)))))
      ≡ true
unfolding restrict add_place add_emptiness add_pixels add_compression is_instance untouched existed
    only_read ele_fits.HduCategory.Constants.image
image_flags-on_both is_untouched = refl
image_flags-on_both is_touched = refl
image_flags-on_both is_edited = refl
image_flags-on_both is_created = refl

abbrev pub bintable_type : HduCategory
bintable_type =
    second ∷ unconstrained ∷ second ∷ unconstrained ∷ unconstrained ∷ unconstrained ∷ unconstrained
    ∷ unconstrained ∷ []

pub bintable_flags-on_both :
    (s : Status) → on_both (λ e. none_of_them (bintable_flags bintable_type s e)) ≡ true
unfolding restrict add_place add_emptiness is_instance untouched existed only_read
bintable_flags-on_both is_untouched = refl
bintable_flags-on_both is_touched = refl
bintable_flags-on_both is_edited = refl
bintable_flags-on_both is_created = refl

-- A category that is an instance of neither `Untouched`, `Existed` nor `OnlyRead`.
pub record IsNeither (c : HduCategory) : Type 0 where
  pub not_untouched : is_instance c untouched ≡ ok false
  pub not_existed : is_instance c existed ≡ ok false
  pub not_only_read : (do model ← only_read; is_instance c model) ≡ ok false

is_false-eq : (o : Outcome Bool) → is_false o ≡ true → o ≡ ok false
is_false-eq (ok true) h = cc
is_false-eq (ok false) h = refl
is_false-eq (fail e) h = cc

pub returned :
    (o : Outcome HduCategory) → none_of_them o ≡ true → (c : HduCategory) × IsNeither c × (o ≡ ok c)
returned (fail e) h = cc
returned (ok c) h =
    let (a, rest) = (&&_iff (is_false (is_instance c untouched)) _).0 h in
    let (b, d) = (&&_iff (is_false (is_instance c existed)) _).0 rest in
    (
      c,
      record {
        not_untouched = is_false-eq (is_instance c untouched) a;
        not_existed = is_false-eq (is_instance c existed) b;
        not_only_read = is_false-eq (do model ← only_read; is_instance c model) d;
      },
      refl,
    )
