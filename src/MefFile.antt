-- ===== src/MefFile.antt =====
-- `MefFile` (EleFits/EleFits/MefFile.h, impl/MefFile.hpp, EleFits/src/lib/MefFile.cpp) with its
-- `Strategy` (EleFits/EleFits/Strategy.h): the handles of the HDUs of a file, made when they are
-- first asked for.
pub mod Access
pub mod Append
pub mod Removal
pub mod Loops
pub mod Consistent
pub mod Keeping
pub mod Appending
pub mod Accessing
pub mod Removing
pub mod Runs
pub mod Cached
pub mod Copying
pub mod Wrapping
pub mod NullHandle
pub mod Matching
pub mod Closing
pub mod Checksums
pub mod Simple
mod Tests
use package.ele_fits.Prelude.{
  ℕ, zero, suc, ◌+◌, Bool, true, false, ◌&&◌, ◌||◌, Option, none, some, List, [], ◌∷◌, ◌++◌, length,
  get_elem?, set, if◌then◌else◌, Outcome, ok, fail, fits_error, bad_cast, undefined_behaviour,
}
use package.ele_fits.Prelude.Int.{ℤ, pos, negsuc, ◌+ℤ◌, ◌-ℤ◌, ◌==ℤ◌, ltb_ℤ}
use package.ele_fits.Prelude.Methods.{Method, pure, throw, gets, modify, lift, ◌>>=◌, ◌>>◌}
use package.ele_fits.HduCategory.{HduCategory, category_eq}
use package.ele_fits.HduCategory.Constants.{untouched, created}
use package.ele_fits.Hdu.{
  Hdu, Handler, plain_handler, image_handler, bintable_handler, make_hdu, touch, edit,
}
use package.ele_fits.MefFile.Access.{
  HduType, image_hdu, binary_tbl, ascii_tbl, Cfitsio, goto_index, current_type, remove_hdu, call,
  erase,
}

-- The class that a caller asks for.
pub data Target : Type 0 where
  any_hdu image_target bintable_target : Target

abbrev pub handler_of : HduType → Handler
handler_of image_hdu = image_handler
handler_of binary_tbl = bintable_handler
handler_of ascii_tbl = plain_handler

-- The `dynamic_cast` of `Hdu::as`
abbrev pub is_target : Target → Handler → Bool
is_target any_hdu h = true
is_target image_target image_handler = true
is_target bintable_target bintable_handler = true
is_target _ _ = false

module _ (c : Cfitsio) where
  open c use {Stream, Data, types, contents, create, write}

  -- An `Action`: what it does with a handle, through which it calls CFITSIO.
  pub record Action : Type 0 where
    pub opened : Method (Hdu × Stream) (Unit {0})
    pub accessed : Method (Hdu × Stream) (Unit {0})
    pub created : Method (Hdu × Stream) (Unit {0})
    pub closing : Method (Hdu × Stream) (Unit {0})

  -- `m_hdus`, with `none` for a null pointer, the actions of `m_strategy`, and the file behind
  -- `m_fptr`.
  pub record MefFile : Type 0 where
    pub hdus : List (Option Hdu)
    pub actions : List Action
    pub stream : Stream

  -- A call on the file.
  unfoldable pub on_stream : {A : Type 0} → Method Stream A → Method MefFile A
  on_stream method m = let (r, s) = method m.stream in (r, record m { stream = s })

  -- `*m_hdus[i]`
  unfoldable pub handle_at : ℕ → Method MefFile Hdu
  handle_at i m = elim (get_elem? m.hdus i) [
    | some (some h) ↦ (ok h, m)
    | _ ↦ (fail undefined_behaviour, m)
  ]

  abbrev pub put_handle : ℕ → Hdu → Method MefFile (Unit {0})
  put_handle i h = modify (λ m. record m { hdus = set m.hdus i (some h) })

  -- What an action does with the handle of an index.
  unfoldable pub on_handle : ℕ → Method (Hdu × Stream) (Unit {0}) → Method MefFile (Unit {0})
  unfolding handle_at
  on_handle i method = do
    h ← handle_at i
    m ← gets (λ m. m)
    let (r, (h', s)) = method (h, m.stream)
    put_handle i h'
    modify (λ m. record m { stream = s })
    lift r

  -- The loop of `Strategy::opened`, `accessed`, `created` and `closing`.
  unfoldable pub each_action :
      (Action → Method (Hdu × Stream) (Unit {0})) → ℕ → List Action → Method MefFile (Unit {0})
  unfolding on_handle
  each_action event i [] = pure tt
  each_action event i (a ∷ rest) = on_handle i (event a) >> each_action event i rest

  unfoldable pub notify :
      (Action → Method (Hdu × Stream) (Unit {0})) → ℕ → Method MefFile (Unit {0})
  unfolding each_action
  notify event i = do actions ← gets (λ m. m.actions); each_action event i actions

  -- `Strategy::append` to the strategy of the file, for actions.
  unfoldable pub add_actions : List Action → MefFile → MefFile
  add_actions more m = record m { actions = m.actions ++ more }

  unfoldable pub hdu_count : MefFile → ℤ
  hdu_count m = pos (length m.hdus)

  -- `m_hdus[index]` of `access`
  unfoldable pub slot_at : ℤ → Method MefFile (ℕ × Option Hdu)
  slot_at (pos i) m = elim (get_elem? m.hdus i) [
    | none ↦ (fail undefined_behaviour, m)
    | some h ↦ (ok (i, h), m)
  ]
  slot_at (negsuc i) m = (fail undefined_behaviour, m)

  -- `ptr->as<T>()`, by the index of the handle.
  unfoldable pub cast_handle : Target → ℕ → Method MefFile ℕ
  unfolding handle_at
  cast_handle target i = do
    h ← handle_at i
    if is_target target h.handler then pure i else throw bad_cast

  -- The index that counts from the end if it is negative.
  abbrev pub resolve : ℤ → ℤ → ℤ
  resolve index count = if ltb_ℤ index (pos 0) then index +ℤ count else index

  -- A null pointer is replaced by a new handle, on which the actions are called.
  unfoldable pub fill_slot : HduType → ℤ → ℕ → Option Hdu → Method MefFile (Unit {0})
  unfolding notify make_hdu
  fill_slot type i slot (some h) = pure tt
  fill_slot type i slot none = do
    h ← lift (make_hdu (handler_of type) i untouched)
    put_handle slot h
    notify (λ a. a.accessed) slot

  -- `access(index)`: the 0-based index of the handle that is returned.
  unfoldable pub access : Target → ℤ → Method MefFile ℕ
  unfolding on_stream goto_index current_type slot_at fill_slot cast_handle hdu_count
  access target index = do
    count ← gets hdu_count
    let i = resolve index count
    on_stream (goto_index c (i +ℤ pos 1))
    type ← on_stream (current_type c)
    (slot, found) ← slot_at i
    fill_slot type i slot found
    cast_handle target slot

  -- `goto_index` where only its outcome is read.
  abbrev pub reach : Stream → ℤ → Outcome (Unit {0})
  reach s i = (goto_index c i s).0

  -- `Hdu::touch` and `Hdu::edit` of the handle of an index.
  unfoldable pub touch_handle : ℕ → Method MefFile (Unit {0})
  unfolding handle_at on_stream goto_index touch
  touch_handle i = do
    h ← handle_at i
    s ← gets (λ m. m.stream)
    h' ← lift (touch (reach s) h)
    put_handle i h'
    on_stream (goto_index c h'.cfitsio_index)

  unfoldable pub edit_handle : ℕ → Method MefFile (Unit {0})
  unfolding handle_at on_stream goto_index edit
  edit_handle i = do
    h ← handle_at i
    s ← gets (λ m. m.stream)
    h' ← lift (edit (reach s) h)
    put_handle i h'
    on_stream (goto_index c h'.cfitsio_index)

  -- `write_seq` of records or columns and `write` of pixels: the handle is edited, then CFITSIO
  -- writes.
  unfoldable pub write_handle : ℕ → Data → Method MefFile (Unit {0})
  unfolding edit_handle on_stream
  write_handle i d = edit_handle i >> on_stream (call c (write d))
