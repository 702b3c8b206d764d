-- ===== src/FitsFile/Erasing.antt =====
-- No file is overwritten but by the constructor, if it is to.
use ele_fits.Prelude.{ℕ, ◌+◌, ◌≤◌, ◌≡◌, refl, ◌∙◌, Bool, true, false, List, [], ◌∷◌, ◌==◌, arith}
use ele_fits.FitsFile.Access.{
  Filename, Call, Log, FitsFile, FileMode, overwrite, Cfitsio, create_call,
}
use ele_fits.FitsFile.{
  open_fits, close_fits, close_remove, reopen, make_fits, Operation, closing, removing, reopening,
  operate, run,
}
use ele_fits.FitsFile.Balance.{no_file}

-- CFITSIO overwrites a file that it creates by a name with a leading `!`.
abbrev is_erasing : Call → Bool
is_erasing (create_call (x ∷ name)) = x == b'!'
is_erasing k = false

abbrev count : Bool → ℕ
count true = 1
count false = 0

abbrev pub erasures : Log → ℕ
erasures [] = 0
erasures ((k, done) ∷ log) = count (is_erasing k) + erasures log

-- A name that does not start by the mark.
abbrev pub IsPlain : Filename → Type 0
IsPlain [] = Unit
IsPlain (x ∷ name) = (x == b'!') ≡ false

abbrev pub may_erase : FileMode → ℕ
may_erase overwrite = 1
may_erase permission = 0

plain_call : (name : Filename) → IsPlain name → is_erasing (create_call name) ≡ false
plain_call [] h = refl
plain_call (x ∷ name) h = h

module _ (c : Cfitsio) where
  open_fits-erasures :
      (name : Filename) (permission : FileMode) (f : FitsFile)
      → IsPlain name
      → erasures (open_fits c name permission f).1.log ≤ may_erase permission + erasures f.log
  unfolding open_fits
  open_fits-erasures name permission f h = ground (arith, plain_call name h)

  -- The name is kept, and no call overwrites a file.
  abbrev Keeps : FitsFile → FitsFile → Type 0
  Keeps f f' = (f'.filename ≡ f.filename) × (erasures f'.log ≡ erasures f.log)

  close_fits-Keeps : (f : FitsFile) → Keeps f (close_fits c f).1
  unfolding close_fits
  close_fits-Keeps f = ground arith

  close_remove-Keeps : (f : FitsFile) → Keeps f (close_remove c f).1
  unfolding close_remove
  close_remove-Keeps f = ground arith

  reopen-Keeps : (f : FitsFile) → IsPlain f.filename → Keeps f (reopen c f).1
  unfolding reopen
  reopen-Keeps f h = ground (arith, plain_call f.filename h)

  operate-Keeps : (o : Operation) (f : FitsFile) → IsPlain f.filename → Keeps f (operate c o f)
  unfolding operate
  operate-Keeps closing f h = close_fits-Keeps f
  operate-Keeps removing f h = close_remove-Keeps f
  operate-Keeps reopening f h = reopen-Keeps f h

  run-erasures :
      (os : List Operation) (f : FitsFile)
      → IsPlain f.filename
      → erasures (run c os f).log ≡ erasures f.log
  unfolding run
  run-erasures [] f h = refl
  run-erasures (o ∷ os) f h =
      let kept = operate-Keeps o f h in run-erasures os (operate c o f) (rw (kept.0) h) ∙ kept.1

  open_fits-filename :
      (name : Filename) (permission : FileMode) (f : FitsFile)
      → f.filename ≡ name
      → (open_fits c name permission f).1.filename ≡ name
  unfolding open_fits
  open_fits-filename name permission f h = ground arith

  -- With a name that does not start by `!`, the constructor and any closing, removing and
  -- reopening after it overwrite no existing file, whatever CFITSIO answers and wherever they
  -- throw; with `FileMode::Overwrite` they may do so once.
  pub make_fits-erasures :
      (name : Filename) (permission : FileMode) (os : List Operation)
      → IsPlain name
      → erasures (run c os (make_fits c name permission no_file).1).log ≤ may_erase permission
  unfolding make_fits
  make_fits-erasures name permission os h =
      let started : FitsFile = record {
        opened = false;
        filename = name;
        permission = permission;
        log = [];
      } in
      let named = open_fits-filename name permission started refl in
      rw (run-erasures os (open_fits c name permission started).1 (rw named h))
        (omega (arith, open_fits-erasures name permission started h))
