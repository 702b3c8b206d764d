-- ===== src/Hdu/Life.antt =====
-- The states of a handle: a status is one of four, and no call throws `IncompatibleTrits` for it.
use ele_fits.Prelude.{◌≡◌, refl, [], ◌∷◌, Outcome, ok}
use ele_fits.Prelude.Int.{ℤ}
use ele_fits.HduCategory.{HduCategory, unconstrained, first, second}
use ele_fits.HduCategory.Constants.{untouched, created}
use ele_fits.Hdu.{Hdu, touch, edit}

-- The status flags of a handle, in the order untouched, touched, edited after it was touched, and
-- created.
pub data Status : Type 0 where
  is_untouched is_touched is_edited is_created : Status

abbrev pub mask : Status → HduCategory
mask is_untouched =
    unconstrained ∷ unconstrained ∷ unconstrained ∷ unconstrained ∷ unconstrained ∷ first
    ∷ unconstrained ∷ unconstrained ∷ []
mask is_touched =
    unconstrained ∷ unconstrained ∷ unconstrained ∷ unconstrained ∷ unconstrained ∷ second
    ∷ unconstrained ∷ unconstrained ∷ []
mask is_edited =
    unconstrained ∷ unconstrained ∷ unconstrained ∷ unconstrained ∷ unconstrained ∷ second
    ∷ unconstrained ∷ second ∷ []
mask is_created =
    unconstrained ∷ unconstrained ∷ unconstrained ∷ unconstrained ∷ unconstrained ∷ unconstrained
    ∷ second ∷ second ∷ []

abbrev pub after_touch : Status → Status
after_touch is_untouched = is_touched
after_touch s = s

abbrev pub after_edit : Status → Status
after_edit is_created = is_created
after_edit _ = is_edited

-- The values that `MefFile` gives to new handles.
initial_masks : (untouched ≡ mask is_untouched) × (created ≡ ok (mask is_created))
unfolding untouched created
initial_masks = (refl, refl)

module _ (goto_index : ℤ → Outcome (Unit {0})) where
  -- A handle of some status whose HDU is in the file.
  pub record IsLive (s : Status) (h : Hdu) : Type 0 where
    pub status_is : h.status ≡ mask s
    pub in_file : goto_index h.cfitsio_index ≡ ok tt

  pub touch-after :
      (s : Status) (h : Hdu)
      → IsLive s h
      → touch goto_index h ≡ ok (record h { status = mask (after_touch s) })
  unfolding touch
  touch-after is_untouched h v = rw (v.in_file, v.status_is)
  touch-after is_touched h v = rw (v.in_file, v.status_is)
  touch-after is_edited h v = rw (v.in_file, v.status_is)
  touch-after is_created h v = rw (v.in_file, v.status_is)

  -- Where the file has the HDU of a handle whose status is that of a new or used handle, `edit`
  -- returns, without `IncompatibleTrits`. It leaves the handle with the status of an edited HDU, or
  -- of a created one if it was.
  pub edit-after :
      (s : Status) (h : Hdu)
      → IsLive s h
      → edit goto_index h ≡ ok (record h { status = mask (after_edit s) })
  unfolding edit
  edit-after is_untouched h v = rw (touch-after is_untouched h v)
  edit-after is_touched h v = rw (touch-after is_touched h v)
  edit-after is_edited h v = rw (touch-after is_edited h v)
  edit-after is_created h v = rw (touch-after is_created h v)
