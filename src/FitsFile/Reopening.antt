-- ===== src/FitsFile/Reopening.antt =====
-- A file that is closed can be opened again.
use ele_fits.Prelude.{◌≢◌, ◌≡◌, true, ◌∷◌, ok, fail, fits_error, arith}
use ele_fits.Prelude.Methods.{◌>>◌}
use ele_fits.FitsFile.Access.{
  Filename, Log, FitsFile, FileMode, read, edit, create, overwrite, temporary, read_only,
  read_write, Cfitsio, open_call, close_call, OpenPolicy,
}
use ele_fits.FitsFile.{open_fits, close_fits, reopen}

abbrev pub reopened : FileMode → FileMode
reopened create = edit
reopened overwrite = edit
reopened permission = permission

abbrev pub policy : FileMode → OpenPolicy
policy read = read_only
policy permission = read_write

module _ (c : Cfitsio) where
  -- The calls of `close` and `reopen`.
  abbrev pub closed : FitsFile → Log
  closed f = (close_call, true) ∷ f.log

  -- CFITSIO closes the file, and then finds and opens it.
  pub record IsAvailable (f : FitsFile) : Type 0 where
    pub closes : c.succeeds f.log close_call ≡ true
    pub found : c.exists (closed f) f.filename ≡ true
    pub opens : c.succeeds (closed f) (open_call f.filename (policy f.permission)) ≡ true

  -- A file that is open, other than a temporary one, can be closed and opened again if CFITSIO
  -- does its part: both calls return, and the object has the same file, by a call that opens and
  -- does not create it, to be edited if it was created before, else by the same permission.
  pub close_fits-reopen :
      (f : FitsFile)
      → f.opened ≡ true
      → f.permission ≢ temporary
      → IsAvailable f
      → (close_fits c >> reopen c) f ≡ (
        ok tt,
        record {
          opened = true;
          filename = f.filename;
          permission = reopened f.permission;
          log = (open_call f.filename (policy f.permission), true) ∷ closed f;
        },
      )
  unfolding close_fits reopen
  close_fits-reopen f o p h = ground arith

  -- While the object has a file, `open` throws `FitsError` and makes no call; `reopen` and the
  -- methods that close do nothing when it has none or has one. A temporary file, which is closed
  -- by deleting it, cannot be opened again.
  pub open_fits-opened :
      (name : Filename) (permission : FileMode) (f : FitsFile)
      → f.opened ≡ true
      → (open_fits c name permission f ≡ (fail fits_error, f)) × (reopen c f ≡ (ok tt, f))
  unfolding open_fits reopen
  open_fits-opened name permission f o = ground arith
