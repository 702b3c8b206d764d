-- ===== src/FitsFile/Balance.antt =====
-- Every file that is opened is closed once.
use ele_fits.Prelude.{
  ℕ, suc, ◌+◌, ◌≡◌, refl, inl, inr, Bool, true, false, some, List, [], ◌∷◌, Outcome, ok, fail,
  arith, Bool-cases,
}
use ele_fits.FitsFile.Access.{
  Filename, Log, FitsFile, FileMode, read, edit, create, write, overwrite, temporary, read_only,
  read_write, create_only, over_write, Cfitsio, open_file, create_open, open_call, create_call,
  primary_call, close_call, delete_call, cfitsio_name, OpenPolicy, CreatePolicy,
}
use ele_fits.FitsFile.{
  open_mode, open_fits, close_fits, close_remove, reopen, make_fits, Operation, closing, removing,
  reopening, operate, run,
}

-- The files that CFITSIO has opened or created, and those that it has closed.
abbrev pub opens : Log → ℕ
opens [] = 0
opens ((open_call name policy, true) ∷ log) = suc (opens log)
opens ((create_call name, true) ∷ log) = suc (opens log)
opens (_ ∷ log) = opens log

abbrev pub closes : Log → ℕ
closes [] = 0
closes ((close_call, true) ∷ log) = suc (closes log)
closes ((delete_call, done) ∷ log) = suc (closes log)
closes (_ ∷ log) = closes log

abbrev count : Bool → ℕ
count true = 1
count false = 0

abbrev pub IsBalanced : FitsFile → Type 0
IsBalanced f = opens f.log ≡ closes f.log + count f.opened

-- Before the constructor.
abbrev pub no_file : FitsFile
no_file = record { opened = false; filename = []; permission = read; log = [] }

-- A file that CFITSIO has created has no HDU, can be written, and gets an empty primary.
pub record CreatesPrimary (c : Cfitsio) : Type 0 where
  pub empty : (log : Log) (name : Filename) → c.hdu_count ((create_call name, true) ∷ log) ≡ some 0
  pub writable :
      (log : Log) (name : Filename) → c.is_writable ((create_call name, true) ∷ log) ≡ true
  pub filled :
      (log : Log) (name : Filename)
      → c.succeeds ((create_call name, true) ∷ log) primary_call ≡ true

module _ (c : Cfitsio) where
  -- What a method that opens a file does: the file is opened and no other call is counted, or the
  -- call throws and none is.
  abbrev Opens : FitsFile → Outcome (Unit {0}) × FitsFile → Type 0
  Opens f (ok done, f') =
      (opens f'.log ≡ suc (opens f.log)) × (closes f'.log ≡ closes f.log) × (f'.opened ≡ f.opened)
  Opens f (fail reason, f') =
      (opens f'.log ≡ opens f.log) × (closes f'.log ≡ closes f.log) × (f'.opened ≡ f.opened)

  open_file-Opens :
      (name : Filename) (policy : OpenPolicy) (f : FitsFile) → Opens f (open_file c name policy f)
  unfolding open_file
  open_file-Opens name policy f = ground arith

  create_open-Opens :
      (name : Filename) (policy : CreatePolicy) (f : FitsFile)
      → CreatesPrimary c
      → Opens f (create_open c name policy f)
  unfolding create_open
  create_open-Opens name policy f h =
      let made = cfitsio_name c name policy in
      ground (arith, h.empty f.log made, h.writable f.log made, h.filled f.log made)

  open_mode-Opens :
      (name : Filename) (permission : FileMode) (f : FitsFile)
      → CreatesPrimary c
      → Opens f (open_mode c name permission f)
  unfolding open_mode
  open_mode-Opens name read f h = open_file-Opens name read_only f
  open_mode-Opens name edit f h = open_file-Opens name read_write f
  open_mode-Opens name create f h = create_open-Opens name create_only f h
  open_mode-Opens name overwrite f h = create_open-Opens name over_write f h
  open_mode-Opens name temporary f h = create_open-Opens name create_only f h
  open_mode-Opens name write f h = elim (Bool-cases (c.exists f.log name)) [
    | inl e ↦ rw e (open_file-Opens name read_write f)
    | inr e ↦ rw e (create_open-Opens name create_only f h)
  ]

  open_fits-IsBalanced :
      (name : Filename) (permission : FileMode) (f : FitsFile)
      → CreatesPrimary c
      → IsBalanced f
      → IsBalanced (open_fits c name permission f).1
  unfolding open_fits
  open_fits-IsBalanced name permission f h b =
      let made : Opens f (open_mode c name permission f) = open_mode-Opens name permission f h in
      ground (arith, made)

  reopen-IsBalanced : (f : FitsFile) → CreatesPrimary c → IsBalanced f → IsBalanced (reopen c f).1
  unfolding reopen
  reopen-IsBalanced f h b = ground (
    arith,
    open_fits-IsBalanced f.filename edit f,
    open_fits-IsBalanced f.filename f.permission f,
  )

  close_fits-IsBalanced : (f : FitsFile) → IsBalanced f → IsBalanced (close_fits c f).1
  unfolding close_fits
  close_fits-IsBalanced f h = ground arith

  close_remove-IsBalanced : (f : FitsFile) → IsBalanced f → IsBalanced (close_remove c f).1
  unfolding close_remove
  close_remove-IsBalanced f h = ground arith

  operate-IsBalanced :
      (o : Operation) (f : FitsFile) → CreatesPrimary c → IsBalanced f → IsBalanced (operate c o f)
  unfolding operate
  operate-IsBalanced closing f h b = close_fits-IsBalanced f b
  operate-IsBalanced removing f h b = close_remove-IsBalanced f b
  operate-IsBalanced reopening f h b = reopen-IsBalanced f h b

  run-IsBalanced :
      (os : List Operation) (f : FitsFile)
      → CreatesPrimary c
      → IsBalanced f
      → IsBalanced (run c os f)
  unfolding run
  run-IsBalanced [] f h b = b
  run-IsBalanced (o ∷ os) f h b = run-IsBalanced os (operate c o f) h (operate-IsBalanced o f h b)

  -- From the constructor on, whatever it throws, and through any closing, removing and reopening
  -- whose exceptions are caught, CFITSIO has opened or created as many files as it has closed or
  -- was asked to delete, and one more exactly while the object has a file. This is if CFITSIO gives
  -- each file that it creates an empty primary.
  pub make_fits-IsBalanced :
      (name : Filename) (permission : FileMode) (os : List Operation)
      → CreatesPrimary c
      → IsBalanced (run c os (make_fits c name permission no_file).1)
  unfolding make_fits
  make_fits-IsBalanced name permission os h = run-IsBalanced os _ h (
      open_fits-IsBalanced name permission
        (record { opened = false; filename = name; permission = permission; log = [] }) h refl)
