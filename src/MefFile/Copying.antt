-- ===== src/MefFile/Copying.antt =====
-- `append` of a copy of an HDU, and of a sequence of columns.
use ele_fits.Prelude.{◌≡◌, ◌∙◌, List, [], ◌∷◌, ◌++◌, length, Outcome, ok, fail}
use ele_fits.Prelude.Int.{pos}
use ele_fits.Prelude.Methods.{Method, pure, and_then, ◌>>=◌}
use ele_fits.MefFile.Access.{HduType, image_hdu, binary_tbl, Cfitsio, IsStandard}
use ele_fits.MefFile.{Target, bintable_target, Action, MefFile, notify, access}
use ele_fits.MefFile.Consistent.{Placed, IsConsistent}
use ele_fits.MefFile.Append.{
  push_created, finish_created, append_image, append_columns, Copy, copy_bintable, copy_image,
  image_again, no_pixel_type, refused, copy_hdu, append_copy,
}
use ele_fits.MefFile.Keeping.{
  IsKeepingFor, bind-IsKeepingFor, weaken-IsKeepingFor, pure-IsKeeping, AllTame,
  notify-IsKeepingFor,
}
use ele_fits.MefFile.Accessing.{access-IsKeepingFor}
use ele_fits.MefFile.Appending.{
  IsCreated, push_created-IsConsistent, create_case, finish_created-IsConsistent,
  append_image-IsSound,
}

module _ (c : Cfitsio) (law : IsStandard c) (actions : List (Action c))
    (tame : AllTame c (λ a. a.accessed) actions) (tame' : AllTame c (λ a. a.created) actions) where
  open c use {Stream, Data, types, create}

  abbrev IsSound : MefFile c → Type 0
  IsSound m = IsConsistent c m × (m.actions ≡ actions)

  -- The result of a method is left out.
  ended-IsSound :
      {A : Type 0} (r : Outcome A × MefFile c) → IsSound r.1 → IsSound (and_then (λ _. pure tt) r).1
  ended-IsSound (fail e, m) v = v
  ended-IsSound (ok a, m) v = v

  pushed-IsSound :
      (type : HduType) (m : MefFile c) (ts : List HduType)
      → IsCreated c type
      → m.actions ≡ actions
      → Placed 0 m.hdus ts
      → types m.stream ≡ ts ++ (type ∷ [])
      → IsSound ((push_created c type >>= λ _. pure tt) m).1
  pushed-IsSound type m ts d same p e =
      let (v, kept) = push_created-IsConsistent c type m ts d p e in
      ended-IsSound (push_created c type m) (v, kept ∙ same)

  copy_hdu-IsSound : (copy : Copy c) (m : MefFile c) → IsSound m → IsSound (copy_hdu c copy m).1
  unfolding copy_hdu
  copy_hdu-IsSound (copy_bintable d) m v =
      create_case c law actions tame' binary_tbl d (push_created c binary_tbl >>= λ _. pure tt) m
        (create binary_tbl d m.stream) v.1 v.0 (law.create_types binary_tbl d m.stream)
        (λ m' ts same p e. pushed-IsSound binary_tbl m' ts tt same p e)
  copy_hdu-IsSound (copy_image d) m v =
      create_case c law actions tame' image_hdu d (push_created c image_hdu >>= λ _. pure tt) m
        (create image_hdu d m.stream) v.1 v.0 (law.create_types image_hdu d m.stream)
        (λ m' ts same p e. pushed-IsSound image_hdu m' ts tt same p e)
  copy_hdu-IsSound (image_again z h r p) m v =
      ended-IsSound (append_image c z h r p m)
        (append_image-IsSound c law actions tame' m v z h r p)
  copy_hdu-IsSound no_pixel_type m v = v
  copy_hdu-IsSound refused m v = v

  kept-IsSound :
      {A : Type 0} (r : Outcome (Unit {0}) × MefFile c) (g : Method (MefFile c) A)
      → IsSound r.1
      → IsKeepingFor c actions g
      → IsSound (and_then (λ _. g) r).1
  kept-IsSound (fail e, m) g v kg = v
  kept-IsSound (ok done, m) g v kg =
      let kept = kg m v.1 v.0 in (kept.placed, kept.same_actions ∙ v.1)

  -- A copy keeps the handles at their places.
  pub append_copy-IsSound :
      (target : Target) (copy : Copy c) (m : MefFile c)
      → IsSound m
      → IsSound (append_copy c target copy m).1
  unfolding append_copy
  append_copy-IsSound target copy m v =
      let index = length m.hdus in
      kept-IsSound (copy_hdu c copy m) _ (copy_hdu-IsSound copy m v) (
        bind-IsKeepingFor c actions (access c target (pos index)) _
          (access-IsKeepingFor c target (pos index) actions law tame)
          (λ slot.
            bind-IsKeepingFor c actions (notify c (λ a. a.accessed) slot) _
              (notify-IsKeepingFor c (λ a. a.accessed) slot actions tame)
              (λ _. weaken-IsKeepingFor c actions (pure slot) (pure-IsKeeping c slot))))

  pub append_columns-IsSound :
      (table records : Data) (m : MefFile c)
      → IsSound m
      → IsSound (append_columns c table records m).1
  unfolding append_columns
  append_columns-IsSound table records m v =
      create_case c law actions tame' binary_tbl table
        (finish_created c binary_tbl bintable_target records) m (create binary_tbl table m.stream)
        v.1 v.0 (law.create_types binary_tbl table m.stream)
        (λ m' ts same p e.
          finish_created-IsConsistent c law actions tame' binary_tbl bintable_target records m' ts
            tt same p e)
