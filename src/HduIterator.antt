-- ===== src/HduIterator.antt =====
-- `HduIterator` and `HduSelector` of EleFits/EleFits/HduIterator.h, impl/HduIterator.hpp and
-- EleFits/src/lib/HduIterator.cpp: the HDUs of a file that match a filter, one after the other.
pub mod Selection
mod Tests
use package.ele_fits.Prelude.{
  ℕ, zero, suc, Bool, Option, none, some, List, [], ◌∷◌, length, get_elem?, set, if◌then◌else◌,
  Outcome, ok, fail, undefined_behaviour, ◌>>=◌,
}
use package.ele_fits.Prelude.Int.{ℤ, pos, negsuc, ◌+ℤ◌, ◌-ℤ◌, ◌==ℤ◌, leb_ℤ}
use package.ele_fits.HduFilter.{HduFilter}
use package.ele_fits.Hdu.{Hdu, Contents, matches}

-- The members `m_index` and `m_filter`. The file is passed along, as the list of its handles.
pub record HduIterator : Type 0 where
  pub index : ℤ
  pub filter : HduFilter

-- `m_f[i]` for a handle that the file has.
unfoldable pub handle_at : List Hdu → ℤ → Outcome Hdu
handle_at hdus (pos i) = elim (get_elem? hdus i) [ none ↦ fail undefined_behaviour | some h ↦ ok h ]
handle_at hdus (negsuc i) = fail undefined_behaviour

-- The file after a call that changed the handle of an index.
unfoldable pub with_handle : List Hdu → ℤ → Hdu → List Hdu
with_handle hdus (pos i) h = set hdus i h
with_handle hdus (negsuc i) h = hdus

-- What follows a loop that may have run out of fuel.
abbrev pub and_then :
    {A B : Type 0} → Outcome (Option A) → (A → Outcome (Option B)) → Outcome (Option B)
and_then (fail e) later = fail e
and_then (ok none) later = ok none
and_then (ok (some a)) later = later a

module _ (goto_index : ℤ → Outcome (Unit {0})) (contents : ℤ → Contents) where
  -- The loop of `next`, or `none` where the fuel runs out.
  unfoldable pub next_hdu : ℕ → List Hdu → HduIterator → Outcome (Option (List Hdu × HduIterator))
  unfolding handle_at with_handle
  next_hdu zero hdus it = ok none
  next_hdu (suc fuel) hdus it =
      let i = it.index +ℤ pos 1 in
      let try = (do
        h ← handle_at hdus i
        (answer, h') ← matches goto_index contents it.filter h
        let after = with_handle hdus i h'
        let moved : HduIterator = record it { index = i }
        let later = next_hdu fuel after moved
        if answer then ok (some (after, moved)) else later) in
      if leb_ℤ (pos (length hdus)) i
      then ok (some (hdus, record it { index = pos (length hdus) }))
      else try

  -- The constructor, with the first move.
  unfoldable pub make_iterator :
      ℕ → List Hdu → ℤ → HduFilter → Outcome (Option (List Hdu × HduIterator))
  unfolding next_hdu
  make_iterator fuel hdus index filter =
      next_hdu fuel hdus (record { index = index -ℤ pos 1; filter = filter })

  -- A range-based for loop, from an iterator: the file after it and the indices that it visits.
  -- `limit` is the fuel of each move. The end iterator has the count of HDUs for index.
  unfoldable pub visit_hdus : ℕ → ℕ → List Hdu → HduIterator → Outcome (Option (List Hdu × List ℤ))
  unfolding next_hdu
  visit_hdus zero limit hdus it = ok none
  visit_hdus (suc fuel) limit hdus it =
      let moved = and_then (next_hdu limit hdus it) (λ (hdus', it').
        and_then (visit_hdus fuel limit hdus' it')
          (λ (after, indices). ok (some (after, it.index ∷ indices)))) in
      if it.index ==ℤ pos (length hdus) then ok (some (hdus, [])) else moved

  -- `for (const auto& hdu : f.filter(...))`: from `begin(selector)` to `end(selector)`.
  unfoldable pub visit_selector :
      ℕ → ℕ → List Hdu → HduFilter → Outcome (Option (List Hdu × List ℤ))
  unfolding make_iterator visit_hdus
  visit_selector fuel limit hdus filter =
      and_then (make_iterator limit hdus (pos 0) filter)
        (λ (hdus', it). visit_hdus fuel limit hdus' it)
