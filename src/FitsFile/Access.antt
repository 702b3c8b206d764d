-- ===== src/FitsFile/Access.antt =====
-- The calls of CFITSIO that open, create, close and delete a file: `FileAccess` of
-- EleCfitsioWrapper/src/lib/FileWrapper.cpp, and the object that they act on.
use ele_fits.Prelude.{
  ℕ, Bool, false, Option, none, some, List, ◌∷◌, if◌then◌else◌, ok, fail, fits_error, ltb,
}
use ele_fits.Prelude.Methods.{Method, pure, throw, gets, modify, ◌>>=◌, ◌>>◌}

-- The character codes of a name.
abbrev pub Filename : Type 0
Filename = List ℕ

pub data FileMode : Type 0 where
  read edit create write overwrite temporary : FileMode

pub data OpenPolicy : Type 0 where
  read_only read_write : OpenPolicy

pub data CreatePolicy : Type 0 where
  create_only over_write : CreatePolicy

-- `fits_open_file`, `fits_create_file` with the name as CFITSIO reads it, `fits_create_img` for an
-- empty primary, `fits_close_file` and `fits_delete_file`.
pub data Call : Type 0 where
  open_call : Filename → OpenPolicy → Call
  create_call : Filename → Call
  primary_call : Call
  close_call : Call
  delete_call : Call

-- The calls made, the latest first, each with whether its status was 0.
abbrev pub Log : Type 0
Log = List (Call × Bool)

-- What CFITSIO and the file system answer after some calls: whether a call has status 0, whether
-- a file can be read, how many HDUs the open file has (`none` for a status other than 0), and
-- whether it is open for writing.
pub record Cfitsio : Type 0 where
  pub succeeds : Log → Call → Bool
  pub exists : Log → Filename → Bool
  pub hdu_count : Log → Option ℕ
  pub is_writable : Log → Bool

-- `opened` tells whether `m_fptr` is not null.
pub record FitsFile : Type 0 where
  pub opened : Bool
  pub filename : Filename
  pub permission : FileMode
  pub log : Log

module _ (c : Cfitsio) where
  -- A call, and `CfitsioError::may_throw` on its status.
  unfoldable pub call : Call → Method FitsFile (Unit {0})
  call k f =
      let done = c.succeeds f.log k in
      (if done then ok tt else fail fits_error, record f { log = (k, done) ∷ f.log })

  unfoldable pub may_throw_readonly : Method FitsFile (Unit {0})
  may_throw_readonly = do
    writable ← gets (λ f. c.is_writable f.log)
    if writable then pure tt else throw fits_error

  -- `HduAccess::count`
  unfoldable pub count_hdus : Method FitsFile ℕ
  count_hdus = do
    count ← gets (λ f. c.hdu_count f.log)
    elim count [ none ↦ throw fits_error | some n ↦ pure n ]

  -- `HduAccess::init_primary`
  unfoldable pub init_primary : Method FitsFile (Unit {0})
  unfolding call may_throw_readonly count_hdus
  init_primary = do
    count ← count_hdus
    if ltb 0 count then pure tt else (do may_throw_readonly; call primary_call)

  abbrev pub cfitsio_name : Filename → CreatePolicy → Filename
  cfitsio_name name create_only = name
  cfitsio_name name over_write = b'!' ∷ name

  unfoldable pub create_open : Filename → CreatePolicy → Method FitsFile (Unit {0})
  unfolding call init_primary
  create_open name policy = do call (create_call (cfitsio_name name policy)); init_primary

  unfoldable pub open_file : Filename → OpenPolicy → Method FitsFile (Unit {0})
  unfolding call
  open_file name policy = call (open_call name policy)

  unfoldable pub close_file : Method FitsFile (Unit {0})
  unfolding call
  close_file = do
    opened ← gets (λ f. f.opened)
    if opened then (do call close_call; modify (λ f. record f { opened = false })) else pure tt

  -- The pointer is set to null before the status is tested.
  unfoldable pub close_delete : Method FitsFile (Unit {0})
  unfolding call may_throw_readonly
  close_delete = do
    opened ← gets (λ f. f.opened)
    if opened
        then (do may_throw_readonly; modify (λ f. record f { opened = false }); call delete_call)
        else pure tt
