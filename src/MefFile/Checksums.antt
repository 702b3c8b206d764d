-- ===== src/MefFile/Checksums.antt =====
-- The actions `VerifyChecksums` and `CiteEleFits` of EleFits/EleFits/Action.h, with the checksums of
-- EleFits/src/lib/Hdu.cpp and EleFitsData/EleFitsData/FitsError.h.
pub mod Tame
use package.ele_fits.Prelude.{
  Bool, true, false, not, ◌&&◌, ◌||◌, Option, none, some, if◌then◌else◌, Outcome, ok, fail,
  fits_error,
}
use package.ele_fits.Prelude.Int.{ℤ, pos, ◌-ℤ◌, ◌==ℤ◌}
use package.ele_fits.Prelude.Methods.{Method, pure, throw, ◌>>=◌, ◌>>◌}
use package.ele_fits.HduCategory.Constants.{edited}
use package.ele_fits.HduFilter.{of_category}
use package.ele_fits.Hdu.{Hdu, touch, edit, matches}
use package.ele_fits.MefFile.Access.{Cfitsio, goto_index, called}
use package.ele_fits.MefFile.{Action, reach}

-- `ChecksumError::Status`
pub data ChecksumStatus : Type 0 where
  incorrect missing correct : ChecksumStatus

pub data UpdateChecksums : Type 0 where
  no_update outdated edited_hdu any_hdu : UpdateChecksums

abbrev pub is_incorrect : ChecksumStatus → Bool
is_incorrect incorrect = true
is_incorrect s = false

abbrev pub is_correct : ChecksumStatus → Bool
is_correct correct = true
is_correct s = false

-- `ChecksumError::may_throw`, with the exception as a value, by its two members.
unfoldable pub checksum_error :
    ChecksumStatus → ChecksumStatus → Option (ChecksumStatus × ChecksumStatus)
checksum_error hdu unit =
    if not (is_correct hdu) || not (is_correct unit) then some (hdu, unit) else none

-- What CFITSIO does with the current HDU: the two statuses of `fits_verify_chksum`, whether a keyword
-- is there, and what it writes.
pub record ChecksumCalls (c : Cfitsio) : Type 1 where
  pub verify : c.Stream → ChecksumStatus × ChecksumStatus
  pub has_checksum : c.Stream → Outcome Bool
  pub has_datasum : c.Stream → Outcome Bool
  pub write_checksums : c.Stream → Option c.Stream
  pub write_history : c.Stream → Option c.Stream

module _ (c : Cfitsio) where
  open c use {Stream, contents}

  -- The calls of a handle that move to its HDU.
  abbrev pub arrive : Outcome Hdu → Method (Hdu × Stream) (Unit {0})
  arrive (fail e) p = (fail e, p)
  arrive (ok h) (old, s) = let (r, s') = goto_index c h.cfitsio_index s in (r, (h, s'))

  unfoldable pub touch_hdu : Method (Hdu × Stream) (Unit {0})
  unfolding touch goto_index
  touch_hdu (h, s) = arrive (touch (reach c s) h) (h, s)

  unfoldable pub edit_hdu : Method (Hdu × Stream) (Unit {0})
  unfolding edit goto_index
  edit_hdu (h, s) = arrive (edit (reach c s) h) (h, s)

  abbrev pub arrive_with : Outcome (Bool × Hdu) → Method (Hdu × Stream) Bool
  arrive_with (fail e) p = (fail e, p)
  arrive_with (ok (b, h)) p = (arrive (ok h) >> pure b) p

  module _ (k : ChecksumCalls c) where
    open k use {verify, has_checksum, has_datasum, write_checksums, write_history}

    -- `Hdu::verify_checksums`
    unfoldable pub verify_checksums :
        Method (Hdu × Stream) (Option (ChecksumStatus × ChecksumStatus))
    unfolding touch_hdu checksum_error
    verify_checksums =
        touch_hdu >> λ p. let (hdu, unit) = verify p.1 in (ok (checksum_error hdu unit), p)

    abbrev pub changes : (Stream → Option Stream) → Method (Hdu × Stream) (Unit {0})
    changes f (h, s) = let (r, s') = called c (f s) s in (r, (h, s'))

    -- `Hdu::update_checksums`
    unfoldable pub update_checksums : Method (Hdu × Stream) (Unit {0})
    unfolding edit_hdu
    update_checksums = edit_hdu >> changes write_checksums

    -- `VerifyChecksums::edited`
    unfoldable pub is_edited : Method (Hdu × Stream) Bool
    unfolding matches edited goto_index
    is_edited (h, s) = arrive_with (matches (reach c s) (contents s) (of_category edited) h) (h, s)

    -- `VerifyChecksums::has_checksums`
    unfoldable pub has_checksums : Method (Hdu × Stream) Bool
    unfolding touch_hdu
    has_checksums = do
      touch_hdu
      first ← (λ p. (has_checksum p.1, p))
      if first then pure true else (touch_hdu >> λ p. (has_datasum p.1, p))

    -- `VerifyChecksums::accessed`
    unfoldable pub verify_accessed : Method (Hdu × Stream) (Unit {0})
    unfolding verify_checksums
    verify_accessed = verify_checksums >>= λ e. elim e [
      | none ↦ pure tt
      | some (hdu, unit) ↦
          (if is_incorrect hdu || is_incorrect unit then throw fits_error else pure tt)
    ]

    abbrev pub update_if : Bool → Method (Hdu × Stream) (Unit {0})
    update_if b = if b then update_checksums else pure tt

    -- `VerifyChecksums::closing`
    unfoldable pub verify_closing : UpdateChecksums → Method (Hdu × Stream) (Unit {0})
    unfolding is_edited has_checksums update_checksums
    verify_closing no_update = pure tt
    verify_closing outdated = do
      e ← is_edited
      b ← (if e then has_checksums else pure false)
      update_if b
    verify_closing edited_hdu = do e ← is_edited; update_if e
    verify_closing any_hdu = do
      e ← is_edited
      b ← (if e then pure true else (has_checksums >>= λ b. pure (not b)))
      update_if b

    unfoldable pub verify_action : UpdateChecksums → Action c
    unfolding verify_accessed verify_closing
    verify_action mode = record {
      opened = pure tt;
      accessed = verify_accessed;
      created = pure tt;
      closing = verify_closing mode;
    }

    -- `CiteEleFits::closing`
    unfoldable pub cite_closing : Method (Hdu × Stream) (Unit {0})
    unfolding edit_hdu
    cite_closing p =
        (if (p.0.cfitsio_index -ℤ pos 1) ==ℤ pos 0
            then (edit_hdu >> changes write_history)
            else pure tt)
          p
