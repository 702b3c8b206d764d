-- ===== src/MefFile/Closing.antt =====
-- The loop over the HDUs of a file that has an ASCII table.
use ele_fits.Prelude.{◌≡◌, ◌⊎◌, ◌<◌, ℕ, Outcome, Failure, fail, fits_error}
use ele_fits.Prelude.Methods.{Method}
use ele_fits.Hdu.{Hdu}
use ele_fits.MefFile.Access.{Cfitsio}
use ele_fits.MefFile.{Action, MefFile}
use ele_fits.HduFilter.{HduFilter}
use ele_fits.MefFile.Loops.{visit_hdu}

module _ (c : Cfitsio) where
  open c use {Stream, Data, types, contents}

  -- The loop ends by `FitsError`, or as the visit of an HDU before an index fails.
  abbrev pub EndsAt :
      (Action c → Method (Hdu × Stream) (Unit {0})) → ℕ → Outcome (Unit {0}) → Type 0
  EndsAt event j o =
      (o ≡ fail fits_error)
      ⊎ ((i : ℕ) × (m : MefFile c) × (e : Failure) × (i < j)
          × ((visit_hdu c event i m).0 ≡ fail e)
          × (o ≡ fail e))
