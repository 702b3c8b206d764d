-- ===== src/Hdu/Reports.antt =====
-- What `category` returns on a handle, and the status that it leaves.
use ele_fits.Prelude.{
  subst, ◌≡◌, refl, sym, ap, ◌∙◌, ◌⊎◌, inl, inr, ◌≢◌, Bool, true, false, ◌||◌, if◌then◌else◌,
  Outcome, ok, >>=-ok, Bool-cases,
}
use ele_fits.Prelude.Int.{ℤ, pos, ◌==ℤ◌, ==ℤ_iff}
use ele_fits.Position.{shape_size}
use ele_fits.HduCategory.{HduCategory, restrict}
use ele_fits.Hdu.{
  Handler, plain_handler, image_handler, bintable_handler, Hdu, Contents, handler_type,
  add_emptiness, add_pixels, touch, edit, category,
}
use ele_fits.Hdu.Life.{
  Status, is_untouched, is_touched, is_edited, is_created, mask, after_touch, after_edit, IsLive,
  touch-after, edit-after,
}
use ele_fits.Hdu.Flags.{
  image_type, bintable_type, plain_flags, image_flags, bintable_flags, none_of_them, on_both,
  on_both_sound, IsNeither, returned, plain_flags-on_both, image_flags-on_both,
  bintable_flags-on_both,
}

-- The status that a call of `category` leaves.
abbrev pub after_category : Handler → Status → Status
after_category image_handler s = after_edit s
after_category plain_handler s = after_touch s
after_category bintable_handler s = after_touch s

image_flags-good :
    (s : Status) (p e f z : Bool) → none_of_them (image_flags image_type s p e f z) ≡ true
image_flags-good s p e f z =
    on_both_sound (λ z. none_of_them (image_flags image_type s p e f z))
      (on_both_sound (λ f. on_both (λ z. none_of_them (image_flags image_type s p e f z)))
        (on_both_sound
          (λ e. on_both (λ f. on_both (λ z. none_of_them (image_flags image_type s p e f z))))
          (on_both_sound
            (λ p.
              on_both (λ e.
                on_both (λ f. on_both (λ z. none_of_them (image_flags image_type s p e f z)))))
            (image_flags-on_both s) p)
          e)
        f)
      z

by_handler : {A : Type 0} → Handler → A → A → A → A
by_handler k a b c = elim k [ plain_handler ↦ a | image_handler ↦ b | bintable_handler ↦ c ]

select_plain : {A : Type 0} (k : Handler) (a b c : A) → k ≡ plain_handler → by_handler k a b c ≡ a
unfolding by_handler
select_plain k a b c e =
    ap (λ k. elim k [ plain_handler ↦ a | image_handler ↦ b | bintable_handler ↦ c ]) e

select_image : {A : Type 0} (k : Handler) (a b c : A) → k ≡ image_handler → by_handler k a b c ≡ b
unfolding by_handler
select_image k a b c e =
    ap (λ k. elim k [ plain_handler ↦ a | image_handler ↦ b | bintable_handler ↦ c ]) e

select_bintable :
    {A : Type 0} (k : Handler) (a b c : A) → k ≡ bintable_handler → by_handler k a b c ≡ c
unfolding by_handler
select_bintable k a b c e =
    ap (λ k. elim k [ plain_handler ↦ a | image_handler ↦ b | bintable_handler ↦ c ]) e

module _ (goto_index : ℤ → Outcome (Unit {0})) (contents : ℤ → Contents) where
  -- The outcome of `category` on a handle of status `s`.
  abbrev pub Reports : Status → Hdu → Type 0
  Reports s h =
      (c : HduCategory) × IsNeither c
      × (category goto_index contents h
          ≡ ok (c, record h { status = mask (after_category h.handler s) }))

  module _ (s : Status) (h : Hdu) (v : IsLive goto_index s h) where
    -- The handle after the first `touch`, and after `read_size`.
    abbrev touched_handle : Hdu
    touched_handle = record h { status = mask (after_touch s) }

    abbrev edited_handle : Hdu
    edited_handle = record h { status = mask (after_edit s) }

    touched-IsLive : IsLive goto_index (after_touch s) touched_handle
    touched-IsLive = record { status_is = refl; in_file = v.in_file }

    edited-IsLive : IsLive goto_index (after_edit s) edited_handle
    edited-IsLive = record { status_is = refl; in_file = v.in_file }

    again : touch goto_index touched_handle ≡ ok touched_handle
    again =
        touch-after goto_index (after_touch s) touched_handle touched-IsLive
        ∙ ap (λ m. ok (record h { status = m })) (twice s)
      where
        twice : (s : Status) → mask (after_touch (after_touch s)) ≡ mask (after_touch s)
        twice is_untouched = refl
        twice is_touched = refl
        twice is_edited = refl
        twice is_created = refl

    then_edited : edit goto_index touched_handle ≡ ok edited_handle
    then_edited =
        edit-after goto_index (after_touch s) touched_handle touched-IsLive
        ∙ ap (λ m. ok (record h { status = m })) (twice s)
      where
        twice : (s : Status) → mask (after_edit (after_touch s)) ≡ mask (after_edit s)
        twice is_untouched = refl
        twice is_touched = refl
        twice is_edited = refl
        twice is_created = refl

    stays_edited : touch goto_index edited_handle ≡ ok edited_handle
    stays_edited =
        touch-after goto_index (after_edit s) edited_handle edited-IsLive
        ∙ ap (λ m. ok (record h { status = m })) (twice s)
      where
        twice : (s : Status) → mask (after_touch (after_edit s)) ≡ mask (after_edit s)
        twice is_untouched = refl
        twice is_touched = refl
        twice is_edited = refl
        twice is_created = refl

    image-Reports : h.handler ≡ image_handler → h.type ≡ image_type → Reports s h
    unfolding category by_handler
    image-Reports e type_is =
        let p = h.cfitsio_index ==ℤ pos 1 in
        let n = shape_size (contents h.cfitsio_index).dimensions ==ℤ pos 0 in
        let f = (contents h.cfitsio_index).floating in
        let z = (contents h.cfitsio_index).compressed in
        let (c, neither, flags) =
          returned (image_flags image_type s p n f z) (image_flags-good s p n f z) in
        let flags' = subst (λ t. image_flags t s p n f z ≡ ok c) (sym type_is) flags in
        let (c1, rest1, placed) = >>=-ok (plain_flags h.type s p) _ flags' in
        let (c0, place, typed) = >>=-ok (restrict h.type (mask (after_touch s))) _ placed in
        let (c2, rest2, sized) = >>=-ok (add_emptiness n c1) _ rest1 in
        let (c3, rest3, pixels) = >>=-ok (add_pixels f c2) _ rest2 in
        (
          c,
          neither,
          select_image h.handler _ _ _ e
              ∙ rw
                  (
                    touch-after goto_index s h v,
                    typed,
                    place,
                    then_edited,
                    sized,
                    stays_edited,
                    pixels,
                    rest3,
                  )
                  (ap (λ k. ok (c, record h { status = mask (after_category k s) })) (sym e)),
        )

    plain-Reports : h.handler ≡ plain_handler → h.type ≡ image_type → Reports s h
    unfolding category by_handler
    plain-Reports e type_is =
        let p = h.cfitsio_index ==ℤ pos 1 in
        let (c, neither, flags) = returned (plain_flags image_type s p) (
          on_both_sound (λ p. none_of_them (plain_flags image_type s p)) (plain_flags-on_both s)
            p) in
        let flags' = subst (λ t. plain_flags t s p ≡ ok c) (sym type_is) flags in
        let (c0, place, typed) = >>=-ok (restrict h.type (mask (after_touch s))) _ flags' in
        (
          c,
          neither,
          select_plain h.handler _ _ _ e
              ∙ rw (touch-after goto_index s h v, typed, place)
                  (ap (λ k. ok (c, record h { status = mask (after_category k s) })) (sym e)),
        )

    bintable-Reports :
        h.handler ≡ bintable_handler
        → h.type ≡ bintable_type
        → (h.cfitsio_index ==ℤ pos 1) ≡ false
        → Reports s h
    unfolding category by_handler
    bintable-Reports e type_is not_first =
        let no_column = (contents h.cfitsio_index).column_count ==ℤ pos 0 in
        let n = no_column || ((contents h.cfitsio_index).row_count ==ℤ pos 0) in
        let (c, neither, flags) = returned (bintable_flags bintable_type s n) (
          on_both_sound (λ n. none_of_them (bintable_flags bintable_type s n))
            (bintable_flags-on_both s) n) in
        let flags' = subst (λ t. bintable_flags t s n ≡ ok c) (sym type_is) flags in
        let (c1, rest1, placed) = >>=-ok (plain_flags h.type s false) _ flags' in
        let (c0, place, typed) = >>=-ok (restrict h.type (mask (after_touch s))) _ placed in
        (
          c,
          neither,
          select_bintable h.handler _ _ _ e
              ∙ rw (touch-after goto_index s h v, typed, not_first, place, again)
                  (rw (again, either_way no_column, rest1)
                    (ap (λ k. ok (c, record h { status = mask (after_category k s) })) (sym e))),
        )
      where
        either_way :
            (t : Bool) → (if t then ok touched_handle else ok touched_handle) ≡ ok touched_handle
        either_way true = refl
        either_way false = refl

handler-cases : (k : Handler) → (k ≡ plain_handler) ⊎ ((k ≡ image_handler) ⊎ (k ≡ bintable_handler))
handler-cases plain_handler = inl refl
handler-cases image_handler = inr (inl refl)
handler-cases bintable_handler = inr (inr refl)

plain_type :
    (k : Handler) (t : HduCategory) → k ≡ plain_handler → handler_type k ≡ ok t → t ≡ image_type
unfolding handler_type
plain_type plain_handler t e h = cc
plain_type image_handler t e h = cc
plain_type bintable_handler t e h = cc

image_type_is :
    (k : Handler) (t : HduCategory) → k ≡ image_handler → handler_type k ≡ ok t → t ≡ image_type
unfolding handler_type
image_type_is plain_handler t e h = cc
image_type_is image_handler t e h = cc
image_type_is bintable_handler t e h = cc

bintable_type_is :
    (k : Handler) (t : HduCategory)
    → k ≡ bintable_handler
    → handler_type k ≡ ok t
    → t ≡ bintable_type
unfolding handler_type
bintable_type_is plain_handler t e h = cc
bintable_type_is image_handler t e h = cc
bintable_type_is bintable_handler t e h = cc (table, h)
  where
    table : handler_type bintable_handler ≡ ok bintable_type
    table = refl

module _ (goto_index : ℤ → Outcome (Unit {0})) (contents : ℤ → Contents) where
  -- Where the file has the HDU of a handle, whose type is that of its class and whose status is
  -- that of a new or used handle, and a binary table is not the first HDU, `category` returns. The
  -- category is an instance neither of `Untouched`, nor of `Existed`, nor of `OnlyRead`. The call
  -- leaves an image with the status of an edited HDU, and another handle with that of a touched
  -- one.
  pub category-Reports :
      (s : Status) (h : Hdu)
      → IsLive goto_index s h
      → handler_type h.handler ≡ ok h.type
      → (h.handler ≢ bintable_handler) ⊎ (h.cfitsio_index ≢ pos 1)
      → Reports goto_index contents s h
  category-Reports s h v typed placed = elim (handler-cases h.handler) [
    | inl e ↦ plain-Reports goto_index contents s h v e (plain_type h.handler h.type e typed)
    | inr (inl e) ↦
        image-Reports goto_index contents s h v e (image_type_is h.handler h.type e typed)
    | inr (inr e) ↦
        bintable-Reports goto_index contents s h v e (bintable_type_is h.handler h.type e typed)
          (later placed e)
  ]
    where
      later :
          (h.handler ≢ bintable_handler) ⊎ (h.cfitsio_index ≢ pos 1)
          → h.handler ≡ bintable_handler
          → (h.cfitsio_index ==ℤ pos 1) ≡ false
      later (inl ne) e = absurd (ne e)
      later (inr ne) e = elim (Bool-cases (h.cfitsio_index ==ℤ pos 1)) [
        | inl same ↦ absurd (ne ((==ℤ_iff h.cfitsio_index (pos 1)).0 same))
        | inr other ↦ other
      ]
