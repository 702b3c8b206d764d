-- ===== src/FitsFile.antt =====
-- `FitsFile` (EleFits/EleFits/FitsFile.h, EleFits/src/lib/FitsFile.cpp): a file that is opened,
-- closed and opened again, over `FileAccess` (EleCfitsioWrapper/src/lib/FileWrapper.cpp).
pub mod Access
pub mod Erasing
pub mod Balance
pub mod Reopening
mod Tests
use package.ele_fits.Prelude.{Bool, true, false, List, [], ◌∷◌, if◌then◌else◌, fits_error}
use package.ele_fits.Prelude.Methods.{Method, pure, throw, gets, modify, ◌>>=◌, ◌>>◌}
use package.ele_fits.FitsFile.Access.{
  Filename, Call, FitsFile, FileMode, read, edit, create, write, overwrite, temporary, read_only,
  read_write, create_only, over_write, Cfitsio, open_file, create_open, close_file, close_delete,
}

module _ (c : Cfitsio) where
  -- The `switch` of `open_impl`.
  unfoldable pub open_mode : Filename → FileMode → Method FitsFile (Unit {0})
  unfolding open_file create_open
  open_mode name read = open_file c name read_only
  open_mode name write = do
    exists ← gets (λ f. c.exists f.log name)
    if exists then open_file c name read_write else create_open c name create_only
  open_mode name edit = open_file c name read_write
  open_mode name create = create_open c name create_only
  open_mode name overwrite = create_open c name over_write
  open_mode name temporary = create_open c name create_only

  -- `FitsFile::open`
  unfoldable pub open_fits : Filename → FileMode → Method FitsFile (Unit {0})
  unfolding open_mode
  open_fits name permission = do
    opened ← gets (λ f. f.opened)
    if opened then throw fits_error else (do
      open_mode name permission
      modify (λ f. record f { opened = true; filename = name; permission = permission }))

  unfoldable pub close_remove : Method FitsFile (Unit {0})
  unfolding close_delete
  close_remove = do opened ← gets (λ f. f.opened); if opened then close_delete c else pure tt

  -- `FitsFile::close`, which the destructor calls too.
  unfoldable pub close_fits : Method FitsFile (Unit {0})
  unfolding close_remove close_file
  close_fits = do
    f ← gets (λ f. f)
    elim f.opened [
      | false ↦ pure tt
      | true ↦ (elim f.permission [ temporary ↦ close_remove | _ ↦ close_file c ])
    ]

  unfoldable pub reopen : Method FitsFile (Unit {0})
  unfolding open_fits
  reopen = do
    f ← gets (λ f. f)
    elim f.opened [
      | true ↦ pure tt
      | false ↦ (elim f.permission [
        | create ↦ open_fits f.filename edit
        | overwrite ↦ open_fits f.filename edit
        | temporary ↦ throw fits_error
        | other ↦ open_fits f.filename other
      ])
    ]

  -- The constructor, on a log of earlier calls.
  unfoldable pub make_fits : Filename → FileMode → Method FitsFile (Unit {0})
  unfolding open_fits
  make_fits name permission = do
    modify (λ f. record f { opened = false; filename = name; permission = permission })
    open_fits name permission

-- `handover_to_cfitsio`, without the pointer that it returns.
unfoldable pub hand_over : FitsFile → FitsFile
hand_over f = record f { opened = false }

-- The public operations that call CFITSIO; a caller may catch what they throw.
pub data Operation : Type 0 where
  closing removing reopening : Operation

module _ (c : Cfitsio) where
  unfoldable pub operate : Operation → FitsFile → FitsFile
  unfolding close_fits close_remove reopen
  operate closing f = (close_fits c f).1
  operate removing f = (close_remove c f).1
  operate reopening f = (reopen c f).1

  unfoldable pub run : List Operation → FitsFile → FitsFile
  unfolding operate
  run [] f = f
  run (o ∷ rest) f = run rest (operate o f)
