-- ===== src/MefFile/Append.antt =====
-- The methods of `MefFile` that append an HDU.
use ele_fits.Prelude.{ℕ, Option, none, some, [], ◌∷◌, ◌++◌, length, fits_error}
use ele_fits.Prelude.Int.{pos}
use ele_fits.Prelude.Methods.{Method, pure, throw, gets, modify, lift, ◌>>=◌, ◌>>◌}
use ele_fits.HduCategory.Constants.{created}
use ele_fits.Hdu.{make_hdu}
use ele_fits.MefFile.Access.{HduType, image_hdu, binary_tbl, Cfitsio, call}
use ele_fits.MefFile.{
  Target, image_target, bintable_target, handler_of, MefFile, on_stream, notify, cast_handle,
  write_handle, access,
}

module _ (c : Cfitsio) where
  open c use {Stream, Data, types, contents, create, write}

  -- `m_hdus.push_back` of a new handle with the status of a created HDU.
  unfoldable pub push_created : HduType → Method (MefFile c) ℕ
  unfolding make_hdu created
  push_created type = do
    index ← gets (λ m. length m.hdus)
    status ← lift created
    h ← lift (make_hdu (handler_of type) (pos index) status)
    modify (λ m. record m { hdus = m.hdus ++ (some h ∷ []) })
    pure index

  -- The end of the methods that append: the handle, its class, the actions and the records.
  unfoldable pub finish_created : HduType → Target → Data → Method (MefFile c) ℕ
  unfolding push_created cast_handle notify write_handle
  finish_created type target records = do
    index ← push_created type
    slot ← cast_handle c target index
    notify c (λ a. a.created) slot
    write_handle c slot records
    pure slot

  -- The methods that append take what CFITSIO is to write: what `init_image` or `init_bintable`
  -- writes, the records, and the data.
  unfoldable pub append_image_header : Data → Data → Method (MefFile c) ℕ
  unfolding on_stream finish_created
  append_image_header header records = do
    on_stream c (call c (create image_hdu header))
    finish_created image_hdu image_target records

  unfoldable pub append_bintable_header : Data → Data → Method (MefFile c) ℕ
  unfolding on_stream finish_created
  append_bintable_header header records = do
    on_stream c (call c (create binary_tbl header))
    finish_created binary_tbl bintable_target records

  -- `compression` is what the strategy sets before the image is created.
  unfoldable pub append_image : Data → Data → Data → Data → Method (MefFile c) ℕ
  unfolding on_stream finish_created write_handle
  append_image compression header records pixels = do
    on_stream c (call c (write compression))
    on_stream c (call c (create image_hdu header))
    slot ← finish_created image_hdu image_target records
    write_handle c slot pixels
    pure slot

  -- `fill` is `none` for an empty shape.
  unfoldable pub append_null_image : Data → Data → Data → Option Data → Method (MefFile c) ℕ
  unfolding on_stream finish_created write_handle
  append_null_image compression header records fill = do
    on_stream c (call c (write compression))
    on_stream c (call c (create image_hdu header))
    slot ← finish_created image_hdu image_target records
    (elim fill [ none ↦ pure tt | some pixels ↦ write_handle c slot pixels ])
    pure slot

  unfoldable pub append_bintable : Data → Data → Data → Method (MefFile c) ℕ
  unfolding append_bintable_header write_handle
  append_bintable header records columns = do
    slot ← append_bintable_header header records
    write_handle c slot columns
    pure slot

  -- `rows` and `nulls` are the calls `fits_insert_rows` and `fits_write_nullrows`, whose status is
  -- tested after both.
  unfoldable pub append_null_bintable : Data → Data → Data → Method (MefFile c) ℕ
  unfolding append_bintable_header on_stream
  append_null_bintable header records rows = do
    slot ← append_bintable_header header records
    on_stream c (call c (write rows))
    pure slot

  -- `append_bintable(name, records, columns)` for a sequence of columns: `assign_bintable` creates
  -- the HDU with its data.
  unfoldable pub append_columns : Data → Data → Method (MefFile c) ℕ
  unfolding on_stream finish_created
  append_columns table records = do
    on_stream c (call c (create binary_tbl table))
    finish_created binary_tbl bintable_target records

  -- What `append(hdu)` does with an HDU of another file: it copies a table or an image verbatim,
  -- appends an image that it reads, for the pixel type that it finds, if any, or gets an exception
  -- from the other file.
  pub data Copy : Type 0 where
    copy_bintable copy_image : Data → Copy
    image_again : Data → Data → Data → Data → Copy
    no_pixel_type : Copy
    refused : Copy

  unfoldable pub copy_hdu : Copy → Method (MefFile c) (Unit {0})
  unfolding on_stream push_created append_image
  copy_hdu (copy_bintable d) = do
    on_stream c (call c (create binary_tbl d))
    index ← push_created binary_tbl
    pure tt
  copy_hdu (copy_image d) = do
    on_stream c (call c (create image_hdu d))
    index ← push_created image_hdu
    pure tt
  copy_hdu (image_again compression header records pixels) = do
    slot ← append_image compression header records pixels
    pure tt
  copy_hdu no_pixel_type = pure tt
  copy_hdu refused = throw fits_error

  -- `append(hdu)`
  unfoldable pub append_copy : Target → Copy → Method (MefFile c) ℕ
  unfolding copy_hdu access notify
  append_copy target copy = do
    index ← gets (λ m. length m.hdus)
    copy_hdu copy
    slot ← access c target (pos index)
    notify c (λ a. a.accessed) slot
    pure slot
