-- ===== src/MefFile/Matching.antt =====
-- The question for the category of a handle leaves its index and its class.
use ele_fits.Prelude.{
  ◌≡◌, refl, Bool, true, false, ◌||◌, Outcome, ok, fail, ◌>>=◌, if◌then◌else◌, arith,
}
use ele_fits.Prelude.Int.{ℤ, pos, ◌==ℤ◌}
use ele_fits.HduCategory.{restrict}
use ele_fits.HduFilter.{HduFilter, accepts}
use ele_fits.Hdu.{
  Hdu, Contents, plain_handler, image_handler, bintable_handler, touch, edit, plain_category,
  image_category, bintable_category, read_size, category, matches, add_place, add_emptiness,
  add_pixels, add_compression,
}

abbrev pub IsSame : Hdu → Hdu → Type 0
IsSame h h' = (h'.cfitsio_index ≡ h.cfitsio_index) × (h'.handler ≡ h.handler)

-- A call that returns a handle, or a value and a handle, returns one of the same index and class.
abbrev pub Returns : Hdu → Outcome Hdu → Type 0
Returns h (ok h') = IsSame h h'
Returns h (fail e) = Unit

abbrev pub ReturnsWith : {A : Type 0} → Hdu → Outcome (A × Hdu) → Type 0
ReturnsWith h (ok (a, h')) = IsSame h h'
ReturnsWith h (fail e) = Unit

after_handle :
    {A : Type 0} (h : Hdu) (o : Outcome Hdu) (k : Hdu → Outcome (A × Hdu))
    → Returns h o
    → ((h' : Hdu) → IsSame h h' → ReturnsWith h (k h'))
    → ReturnsWith h (o >>= k)
after_handle h (ok h') k r f = f h' r
after_handle h (fail e) k r f = tt

after_pair :
    {A B : Type 0} (h : Hdu) (o : Outcome (B × Hdu)) (k : B × Hdu → Outcome (A × Hdu))
    → ReturnsWith h o
    → ((b : B) (h' : Hdu) → IsSame h h' → ReturnsWith h (k (b, h')))
    → ReturnsWith h (o >>= k)
after_pair h (ok (b, h')) k r f = f b h' r
after_pair h (fail e) k r f = tt

after_value :
    {A B : Type 0} (h : Hdu) (o : Outcome B) (k : B → Outcome (A × Hdu))
    → ((b : B) → ReturnsWith h (k b))
    → ReturnsWith h (o >>= k)
after_value h (ok b) k f = f b
after_value h (fail e) k f = tt

pub touch-Returns : (go : ℤ → Outcome (Unit {0})) (h g : Hdu) → IsSame h g → Returns h (touch go g)
unfolding touch
touch-Returns go h g same = ground arith

pub edit-Returns : (go : ℤ → Outcome (Unit {0})) (h g : Hdu) → IsSame h g → Returns h (edit go g)
unfolding edit
edit-Returns go h g same = ground arith

plain_category-ReturnsWith :
    (go : ℤ → Outcome (Unit {0})) (h : Hdu) → ReturnsWith h (plain_category go h)
unfolding plain_category
plain_category-ReturnsWith go h =
    after_handle h (touch go h) _ (touch-Returns go h h (refl, refl)) (λ h' same.
      after_value h (restrict h'.type h'.status) _
        (λ b. after_value h (add_place (h'.cfitsio_index ==ℤ pos 1) b) _ (λ b'. same)))

module _ (go : ℤ → Outcome (Unit {0})) (contents : ℤ → Contents) where
  read_size-ReturnsWith : (h g : Hdu) → IsSame h g → ReturnsWith h (read_size go contents g)
  unfolding read_size
  read_size-ReturnsWith h g same =
      after_handle h (edit go g) _ (edit-Returns go h g same) (λ h' s. s)

  image_category-ReturnsWith : (h : Hdu) → ReturnsWith h (image_category go contents h)
  unfolding image_category
  image_category-ReturnsWith h =
      after_pair h (plain_category go h) _ (plain_category-ReturnsWith go h) (λ c h1 s1.
        after_pair h (read_size go contents h1) _ (read_size-ReturnsWith h h1 s1) (λ n h2 s2.
          after_value h (add_emptiness (n ==ℤ pos 0) c) _ (λ sized.
            after_handle h (touch go h2) _ (touch-Returns go h h2 s2) (λ h3 s3.
              after_value h (add_pixels (contents h3.cfitsio_index).floating sized) _ (λ typed.
                after_value h (add_compression (contents h3.cfitsio_index).compressed typed) _
                  (λ complete. s3))))))

  row_count-Returns :
      (h g : Hdu) (b : Bool) → IsSame h g → Returns h (if b then ok g else touch go g)
  row_count-Returns h g true same = same
  row_count-Returns h g false same = touch-Returns go h g same

  bintable_category-ReturnsWith : (h : Hdu) → ReturnsWith h (bintable_category go contents h)
  unfolding bintable_category
  bintable_category-ReturnsWith h =
      after_pair h (plain_category go h) _ (plain_category-ReturnsWith go h) (λ c h1 s1.
        after_handle h (touch go h1) _ (touch-Returns go h h1 s1) (λ h2 s2.
          let no_column = (contents h2.cfitsio_index).column_count ==ℤ pos 0 in
          after_handle h (if no_column then ok h2 else touch go h2) _
            (row_count-Returns h h2 no_column s2)
            (λ h3 s3.
              after_value h
                (add_emptiness (no_column || ((contents h3.cfitsio_index).row_count ==ℤ pos 0)) c) _
                (λ complete. s3))))

  category-ReturnsWith : (h : Hdu) → ReturnsWith h (category go contents h)
  unfolding category
  category-ReturnsWith h =
      elim h.handler
        as (λ k. ReturnsWith h (elim k [
          | plain_handler ↦ plain_category go h
          | image_handler ↦ image_category go contents h
          | bintable_handler ↦ bintable_category go contents h
        ])) [
          | plain_handler ↦ plain_category-ReturnsWith go h
          | image_handler ↦ image_category-ReturnsWith h
          | bintable_handler ↦ bintable_category-ReturnsWith h
        ]

  pub matches-ReturnsWith :
      (filter : HduFilter) (h : Hdu) → ReturnsWith h (matches go contents filter h)
  unfolding matches
  matches-ReturnsWith filter h =
      after_pair h (category go contents h) _ (category-ReturnsWith h)
        (λ c h' same. after_value h (accepts filter c) _ (λ answer. same))
