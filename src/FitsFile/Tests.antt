-- ===== src/FitsFile/Tests.antt =====
-- Runs of a file, and instances of its theorems.
use ele_fits.Prelude.{◌≤◌, ℕ, ◌≡◌, refl, true, Option, some, List, [], ◌∷◌, ok}
use ele_fits.Prelude.Methods.{◌>>◌}
use ele_fits.FitsFile.Access.{
  Filename, Log, FitsFile, edit, create, overwrite, temporary, read_write, Cfitsio, open_call,
  create_call, primary_call, close_call, delete_call,
}
use ele_fits.FitsFile.{close_fits, reopen, make_fits, Operation, closing, reopening, run}
use ele_fits.FitsFile.Balance.{no_file, IsBalanced, CreatesPrimary, make_fits-IsBalanced}
use ele_fits.FitsFile.Erasing.{erasures, make_fits-erasures, may_erase}
use ele_fits.FitsFile.Reopening.{close_fits-reopen}

-- A file system where every call returns, and a new file has no HDU.
abbrev has_hdu : Log → Option ℕ
has_hdu ((create_call name, true) ∷ log) = some 0
has_hdu log = some 1

abbrev willing : Cfitsio
willing = record {
  succeeds = λ log k. true;
  exists = λ log name. true;
  hdu_count = has_hdu;
  is_writable = λ log. true;
}

abbrev name : Filename
name = b'a' ∷ []

abbrev fresh : FitsFile
fresh = record {
  opened = true;
  filename = name;
  permission = create;
  log = (primary_call, true) ∷ (create_call name, true) ∷ [];
}

created : make_fits willing name create no_file ≡ (ok tt, fresh)
unfolding make_fits
created = refl

deleted :
    (close_fits willing (make_fits willing name temporary no_file).1).1.log
    ≡ (delete_call, true) ∷ (primary_call, true) ∷ (create_call name, true) ∷ []
unfolding close_fits make_fits
deleted = refl

willing-CreatesPrimary : CreatesPrimary willing
willing-CreatesPrimary = record {
  empty = λ log name. refl;
  writable = λ log name. refl;
  filled = λ log name. refl;
}

abbrev life : List Operation
life = closing ∷ reopening ∷ closing ∷ []

make_fits-IsBalanced_example :
    IsBalanced (run willing life (make_fits willing name create no_file).1)
make_fits-IsBalanced_example = make_fits-IsBalanced willing name create life willing-CreatesPrimary

make_fits-erasures_example :
    erasures (run willing life (make_fits willing name overwrite no_file).1).log
    ≤ may_erase overwrite
make_fits-erasures_example = make_fits-erasures willing name overwrite life refl

close_fits-reopen_example : (close_fits willing >> reopen willing) fresh ≡ (
  ok tt,
  record {
    opened = true;
    filename = name;
    permission = edit;
    log = (open_call name read_write, true) ∷ (close_call, true) ∷ fresh.log;
  },
)
close_fits-reopen_example =
    close_fits-reopen willing fresh refl (λ e. cc)
      (record { closes = refl; found = refl; opens = refl })
