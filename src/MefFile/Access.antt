-- ===== src/MefFile/Access.antt =====
-- The calls of CFITSIO on the HDUs of an open file: `HduAccess` of
-- EleCfitsioWrapper/src/lib/HduWrapper.cpp.
use ele_fits.Prelude.{
  ℕ, zero, suc, ◌≤◌, ◌<◌, ◌≡◌, ◌≢◌, Option, none, some, List, [], ◌∷◌, ◌++◌, length, get_elem?,
  if◌then◌else◌, Outcome, ok, fail, fits_error,
}
use ele_fits.Prelude.Int.{ℤ, pos, to_int, ◌==ℤ◌}
use ele_fits.Prelude.Methods.{Method, ◌>>◌}
use ele_fits.Hdu.{Contents}

-- The types of HDUs that CFITSIO tells.
pub data HduType : Type 0 where
  image_hdu binary_tbl ascii_tbl : HduType

-- What CFITSIO does with an open file, as the library uses it. `none` is a status other than 0.
pub record Cfitsio : Type 1 where
  pub Stream : Type 0
  pub Data : Type 0
  pub types : Stream → List HduType
  pub current : Stream → ℤ
  pub contents : Stream → ℤ → Contents
  pub move : ℤ → Stream → Option Stream
  pub create : HduType → Data → Stream → Option Stream
  pub write : Data → Stream → Option Stream
  pub delete : Stream → Option Stream

-- The list without the element of an index.
abbrev pub erase {ℓ} : {A : Type ℓ} → List A → ℕ → List A
erase [] i = []
erase (x ∷ xs) zero = xs
erase (x ∷ xs) (suc i) = x ∷ erase xs i

module _ (c : Cfitsio) where
  open c use {Stream, Data, types, current, move, create, write, delete}

  -- A call that changes the stream, and `CfitsioError::may_throw`.
  abbrev pub called : Option Stream → Method Stream (Unit {0})
  called none s = (fail fits_error, s)
  called (some s') s = (ok tt, s')

  abbrev pub call : (Stream → Option Stream) → Method Stream (Unit {0})
  call f s = called (f s) s

  -- `goto_index`, with a 1-based index, which is converted to `int`.
  unfoldable pub goto_index : ℤ → Method Stream (Unit {0})
  unfolding to_int
  goto_index i s = if i ==ℤ current s then (ok tt, s) else call (move (to_int i)) s

  -- The type of the current HDU, by `fits_get_hdu_type`.
  abbrev pub type_at : Stream → ℤ → Option HduType
  type_at s (pos (suc i)) = get_elem? (types s) i
  type_at s _ = none

  -- `current_type`: the category of an ASCII table is refused.
  abbrev pub known : Option HduType → Outcome HduType
  known (some image_hdu) = ok image_hdu
  known (some binary_tbl) = ok binary_tbl
  known _ = fail fits_error

  unfoldable pub current_type : Method Stream HduType
  current_type s = (known (type_at s (current s)), s)

  -- `HduAccess::remove`
  unfoldable pub remove_hdu : ℤ → Method Stream (Unit {0})
  unfolding goto_index
  remove_hdu i = goto_index i >> call delete

  -- What the library relies on: the number of HDUs is an `int`, moves go to the HDUs of the file and to no other, one of them is
  -- the current one, HDUs are created at the end, and the current one is deleted if it is not the
  -- primary.
  pub record IsStandard : Type 0 where
    pub few : (s : Stream) → length (types s) < 2147483648
    pub moved :
        (s : Stream) (i : ℕ)
        → suc i ≤ length (types s)
        → (s' : Stream) × (move (pos (suc i)) s ≡ some s')
          × (types s' ≡ types s)
          × (current s' ≡ pos (suc i))
    pub refused :
        (s : Stream) (i : ℤ) → ((j : ℕ) → j < length (types s) → i ≢ pos (suc j)) → move i s ≡ none
    pub inside : (s : Stream) → (j : ℕ) × (j < length (types s)) × (current s ≡ pos (suc j))
    pub move_types : (i : ℤ) (s s' : Stream) → move i s ≡ some s' → types s' ≡ types s
    pub write_types : (d : Data) (s s' : Stream) → write d s ≡ some s' → types s' ≡ types s
    pub create_types :
        (k : HduType) (d : Data) (s s' : Stream)
        → create k d s ≡ some s'
        → types s' ≡ types s ++ (k ∷ [])
    pub delete_types :
        (s s' : Stream) (i : ℕ)
        → current s ≡ pos (suc (suc i))
        → delete s ≡ some s'
        → types s' ≡ erase (types s) (suc i)
