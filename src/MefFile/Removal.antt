-- ===== src/MefFile/Removal.antt =====
-- `MefFile::remove`
use ele_fits.Prelude.{
  ℕ, zero, suc, Option, none, some, List, [], ◌∷◌, get_elem?, if◌then◌else◌, Outcome, ok, fail,
  undefined_behaviour,
}
use ele_fits.Prelude.Int.{ℤ, pos, negsuc, ◌+ℤ◌, ◌-ℤ◌, ◌==ℤ◌}
use ele_fits.Prelude.Methods.{Method, ◌>>=◌, ◌>>◌}
use ele_fits.Hdu.{Hdu}
use ele_fits.MefFile.Access.{Cfitsio, remove_hdu, erase}
use ele_fits.MefFile.{image_target, MefFile, on_stream, access, touch_handle, write_handle}

abbrev pub cons_outcome : Option Hdu → Outcome (List (Option Hdu)) → Outcome (List (Option Hdu))
cons_outcome h (fail e) = fail e
cons_outcome h (ok rest) = ok (h ∷ rest)

-- `--((*it)->m_cfitsio_index)` for each handle; a null pointer is not to be read.
unfoldable pub shift_handles : List (Option Hdu) → Outcome (List (Option Hdu))
shift_handles [] = ok []
shift_handles (none ∷ hs) = fail undefined_behaviour
shift_handles (some h ∷ hs) =
    cons_outcome (some (record h { cfitsio_index = h.cfitsio_index -ℤ pos 1 })) (shift_handles hs)

-- The loop from an index on.
unfoldable pub shift_from : ℕ → List (Option Hdu) → Outcome (List (Option Hdu))
unfolding shift_handles
shift_from zero hs = shift_handles hs
shift_from (suc i) [] = ok []
shift_from (suc i) (h ∷ hs) = cons_outcome h (shift_from i hs)

module _ (c : Cfitsio) where
  open c use {Stream, Data, types, contents, create, write}

  abbrev pub with_hdus : Outcome (List (Option Hdu)) → Method (MefFile c) (Unit {0})
  with_hdus (fail e) m = (fail e, m)
  with_hdus (ok hs) m = (ok tt, record m { hdus = hs })

  -- `m_hdus.erase(m_hdus.begin() + index)` and the loop after it.
  unfoldable pub erase_handle : ℤ → Method (MefFile c) (Unit {0})
  unfolding shift_from
  erase_handle (negsuc i) m = (fail undefined_behaviour, m)
  erase_handle (pos i) m = elim (get_elem? m.hdus i) [
    | none ↦ (fail undefined_behaviour, m)
    | some h ↦ with_hdus (shift_from i (erase m.hdus i)) m
  ]

  -- `remove(index)` for an index other than 0.
  unfoldable pub remove_extension : ℤ → Method (MefFile c) (Unit {0})
  unfolding on_stream remove_hdu erase_handle
  remove_extension index = do on_stream c (remove_hdu c (index +ℤ pos 1)); erase_handle index

  -- `primary() = access<ImageHdu>(1)` edits the primary by what it reads in the other image;
  -- `copied` is what CFITSIO writes then.
  unfoldable pub assign_primary : Data → Method (MefFile c) (Unit {0})
  unfolding access touch_handle write_handle
  assign_primary copied = do
    other ← access c image_target (pos 1)
    first ← access c image_target (pos 0)
    touch_handle c other
    write_handle c first copied

  unfoldable pub remove : Data → ℤ → Method (MefFile c) (Unit {0})
  unfolding assign_primary remove_extension
  remove copied index =
      if index ==ℤ pos 0
      then (do assign_primary copied; remove_extension (pos 1))
      else remove_extension index
