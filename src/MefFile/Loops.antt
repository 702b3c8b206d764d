-- ===== src/MefFile/Loops.antt =====
-- The loops over the HDUs of a file, `for (const auto& hdu : *this)`, that call the actions when the
-- file is opened and before it is closed.
use ele_fits.Prelude.{ℕ, zero, suc, Bool, length, if◌then◌else◌}
use ele_fits.Prelude.Int.{pos}
use ele_fits.Prelude.Methods.{Method, pure, gets, lift, ◌>>=◌, ◌>>◌}
use ele_fits.Hdu.{Hdu, matches}
use ele_fits.MefFile.Access.{Cfitsio, goto_index}
use ele_fits.MefFile.{
  any_hdu, Action, MefFile, on_stream, handle_at, put_handle, notify, access, reach,
}
use ele_fits.HduCategory.Constants.{any}
use ele_fits.HduFilter.{HduFilter, of_category}

module _ (c : Cfitsio) where
  open c use {Stream, contents}

  -- `Hdu::matches` of the handle of an index.
  unfoldable pub match_handle : HduFilter → ℕ → Method (MefFile c) Bool
  unfolding handle_at on_stream goto_index matches
  match_handle filter i = do
    h ← handle_at c i
    s ← gets (λ m. m.stream)
    (answer, h') ← lift (matches (reach c s) (contents s) filter h)
    put_handle c i h'
    on_stream c (goto_index c h'.cfitsio_index)
    pure answer

  -- The filter of `begin` and `end`
  abbrev pub any_filter : HduFilter
  any_filter = of_category any

  -- One round: the handle is looked for by the iterator, and then passed to the actions.
  unfoldable pub visit_hdu :
      (Action c → Method (Hdu × Stream) (Unit {0})) → ℕ → Method (MefFile c) (Unit {0})
  unfolding access match_handle notify
  visit_hdu event i = do
    slot ← access c any_hdu (pos i)
    answer ← match_handle any_filter slot
    if answer then notify c event slot else pure tt

  unfoldable pub visit_from :
      (Action c → Method (Hdu × Stream) (Unit {0})) → ℕ → ℕ → Method (MefFile c) (Unit {0})
  unfolding visit_hdu
  visit_from event zero i = pure tt
  visit_from event (suc rounds) i = visit_hdu event i >> visit_from event rounds (suc i)

  unfoldable pub each_hdu :
      (Action c → Method (Hdu × Stream) (Unit {0})) → Method (MefFile c) (Unit {0})
  unfolding visit_from
  each_hdu event = do count ← gets (λ m. length m.hdus); visit_from event count 0
