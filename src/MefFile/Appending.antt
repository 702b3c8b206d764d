-- ===== src/MefFile/Appending.antt =====
-- The methods that append an HDU keep the handles of the file at their places.
use ele_fits.Prelude.{
  ◌≡◌, refl, ◌∙◌, arith, ℕ, suc, ◌+◌, Option, none, some, List, [], ◌∷◌, ◌++◌, length, Outcome, ok,
  fail,
}
use ele_fits.Prelude.Int.{pos, ◌+ℤ◌}
use ele_fits.Prelude.Methods.{Method, pure, and_then, ◌>>=◌, ◌>>◌}
use ele_fits.HduCategory.Constants.{created}
use ele_fits.Hdu.{make_hdu}
use ele_fits.MefFile.Access.{
  HduType, image_hdu, binary_tbl, ascii_tbl, Cfitsio, call, called, IsStandard,
}
use ele_fits.MefFile.{
  Target, image_target, bintable_target, Action, MefFile, on_stream, notify, cast_handle,
  write_handle,
}
use ele_fits.MefFile.Consistent.{Placed, Placed-append, IsConsistent}
use ele_fits.MefFile.Append.{
  push_created, finish_created, append_image_header, append_bintable_header, append_image,
  append_null_image, append_bintable, append_null_bintable,
}
use ele_fits.MefFile.Keeping.{
  IsKeepingFor, bind-IsKeeping, bind-IsKeepingFor, weaken-IsKeepingFor, pure-IsKeeping, AllTame,
  notify-IsKeepingFor, write_handle-IsKeeping, cast_handle-IsKeeping, write-IsKeeping,
}

pos_suc : (n : ℕ) → pos n +ℤ pos 1 ≡ pos (suc (0 + n))
unfolding ◌+ℤ◌
pos_suc n = ground arith

module _ (c : Cfitsio) where
  open c use {Stream, Data, types, current, move, create, write, delete}

  -- The types that `create` is called for.
  abbrev pub IsCreated : HduType → Type 0
  IsCreated ascii_tbl = ⊥
  IsCreated type = Unit

  pub push_created-IsConsistent :
      (type : HduType) (m : MefFile c) (ts : List HduType)
      → IsCreated type
      → Placed 0 m.hdus ts
      → types m.stream ≡ ts ++ (type ∷ [])
      → IsConsistent c (push_created c type m).1 × ((push_created c type m).1.actions ≡ m.actions)
  unfolding push_created make_hdu created
  push_created-IsConsistent image_hdu m ts d p e =
      (rw e (Placed-append 0 m.hdus ts _ image_hdu p (pos_suc (length m.hdus)) refl), refl)
  push_created-IsConsistent binary_tbl m ts d p e =
      (rw e (Placed-append 0 m.hdus ts _ binary_tbl p (pos_suc (length m.hdus)) refl), refl)
  push_created-IsConsistent ascii_tbl m ts d p e = absurd d

  -- A method that is followed by ones that keep the handles at their places.
  then-IsConsistent :
      {A B : Type 0} (actions : List (Action c)) (r : Outcome A × MefFile c)
      (g : A → Method (MefFile c) B)
      → IsConsistent c r.1
      → r.1.actions ≡ actions
      → ((a : A) → IsKeepingFor c actions (g a))
      → IsConsistent c (and_then g r).1 × ((and_then g r).1.actions ≡ actions)
  then-IsConsistent actions (fail e, m) g v same kg = (v, same)
  then-IsConsistent actions (ok a, m) g v same kg =
      let kept = kg a m same v in (kept.placed, kept.same_actions ∙ same)

  module _ (law : IsStandard c) (actions : List (Action c))
      (tame : AllTame c (λ a. a.created) actions) where
    pub finish_created-IsConsistent :
        (type : HduType) (target : Target) (records : Data) (m : MefFile c) (ts : List HduType)
        → IsCreated type
        → m.actions ≡ actions
        → Placed 0 m.hdus ts
        → types m.stream ≡ ts ++ (type ∷ [])
        → IsConsistent c (finish_created c type target records m).1
          × ((finish_created c type target records m).1.actions ≡ actions)
    unfolding finish_created
    finish_created-IsConsistent type target records m ts d same p e =
        let pushed = push_created-IsConsistent type m ts d p e in
        then-IsConsistent actions (push_created c type m) _ pushed.0 (pushed.1 ∙ same) (λ index.
          bind-IsKeepingFor c actions (cast_handle c target index) _
            (weaken-IsKeepingFor c actions (cast_handle c target index)
              (cast_handle-IsKeeping c target index))
            (λ slot.
              bind-IsKeepingFor c actions (notify c (λ a. a.created) slot) _
                (notify-IsKeepingFor c (λ a. a.created) slot actions tame)
                (λ _.
                  bind-IsKeepingFor c actions (write_handle c slot records) _
                    (weaken-IsKeepingFor c actions (write_handle c slot records)
                      (write_handle-IsKeeping c slot records law))
                    (λ _. weaken-IsKeepingFor c actions (pure slot) (pure-IsKeeping c slot)))))

    pub create_case :
        {A : Type 0} (type : HduType) (d : Data) (rest : Method (MefFile c) A) (m : MefFile c)
        (o : Option Stream)
        → m.actions ≡ actions
        → IsConsistent c m
        → ((s : Stream) → o ≡ some s → types s ≡ types m.stream ++ (type ∷ []))
        → ((m' : MefFile c) (ts : List HduType)
            → m'.actions ≡ actions
            → Placed 0 m'.hdus ts
            → types m'.stream ≡ ts ++ (type ∷ [])
            → IsConsistent c (rest m').1 × ((rest m').1.actions ≡ actions))
        → IsConsistent c ((on_stream c (called c o) >> rest) m).1
          × (((on_stream c (called c o) >> rest) m).1.actions ≡ actions)
    unfolding on_stream
    create_case type d rest m none same v law' k = (v, same)
    create_case type d rest m (some s) same v law' k =
        k (record m { stream = s }) (types m.stream) same v (law' s refl)

    -- A handle is written and returned.
    written-IsKeepingFor :
        (slot : ℕ) (d : Data) → IsKeepingFor c actions (write_handle c slot d >> pure slot)
    written-IsKeepingFor slot d =
        bind-IsKeepingFor c actions (write_handle c slot d) (λ _. pure slot)
          (weaken-IsKeepingFor c actions (write_handle c slot d)
            (write_handle-IsKeeping c slot d law))
          (λ _. weaken-IsKeepingFor c actions (pure slot) (pure-IsKeeping c slot))

    -- The file keeps its actions, and its handles are at their places.
    abbrev pub IsSound : MefFile c → Type 0
    IsSound m = IsConsistent c m × (m.actions ≡ actions)

    bind-IsSound :
        {A B : Type 0} (r : Outcome A × MefFile c) (g : A → Method (MefFile c) B)
        → IsSound r.1
        → ((a : A) (m : MefFile c) → IsSound m → IsSound (g a m).1)
        → IsSound (and_then g r).1
    bind-IsSound (fail e, m) g v h = v
    bind-IsSound (ok a, m) g v h = h a m v

    module _ (m : MefFile c) (v : IsConsistent c m) (same : m.actions ≡ actions) where
      pub append_image_header-IsSound :
          (header records : Data) → IsSound (append_image_header c header records m).1
      unfolding append_image_header
      append_image_header-IsSound header records =
          create_case image_hdu header (finish_created c image_hdu image_target records) m
            (create image_hdu header m.stream) same v (law.create_types image_hdu header m.stream)
            (λ m' ts same' p e.
              finish_created-IsConsistent image_hdu image_target records m' ts tt same' p e)

      pub append_bintable_header-IsSound :
          (header records : Data) → IsSound (append_bintable_header c header records m).1
      unfolding append_bintable_header
      append_bintable_header-IsSound header records =
          create_case binary_tbl header (finish_created c binary_tbl bintable_target records) m
            (create binary_tbl header m.stream) same v (law.create_types binary_tbl header m.stream)
            (λ m' ts same' p e.
              finish_created-IsConsistent binary_tbl bintable_target records m' ts tt same' p e)

      pub append_bintable-IsSound :
          (header records columns : Data) → IsSound (append_bintable c header records columns m).1
      unfolding append_bintable
      append_bintable-IsSound header records columns =
          let made = append_bintable_header-IsSound header records in
          then-IsConsistent actions (append_bintable_header c header records m)
            (λ slot. write_handle c slot columns >> pure slot) made.0 made.1
            (λ slot. written-IsKeepingFor slot columns)

      pub append_null_bintable-IsSound :
          (header records rows : Data) → IsSound (append_null_bintable c header records rows m).1
      unfolding append_null_bintable
      append_null_bintable-IsSound header records rows =
          let made = append_bintable_header-IsSound header records in
          then-IsConsistent actions (append_bintable_header c header records m)
            (λ slot. on_stream c (call c (write rows)) >> pure slot) made.0 made.1
            (λ slot.
              bind-IsKeepingFor c actions (on_stream c (call c (write rows))) (λ _. pure slot)
                (weaken-IsKeepingFor c actions (on_stream c (call c (write rows)))
                  (write-IsKeeping c rows law))
                (λ _. weaken-IsKeepingFor c actions (pure slot) (pure-IsKeeping c slot)))

    -- An image is created after its compression is set, and then filled.
    filled_image :
        (compression header records : Data) (fill : ℕ → Method (MefFile c) ℕ) (m : MefFile c)
        → IsSound m
        → ((slot : ℕ) → IsKeepingFor c actions (fill slot))
        → IsSound
            ((on_stream c (call c (write compression))
                >> (on_stream c (call c (create image_hdu header))
                    >> (finish_created c image_hdu image_target records >>= fill)))
              m).1
    unfolding on_stream
    filled_image compression header records fill m v kf =
        let kept = write-IsKeeping c compression law m (v.0) in
        bind-IsSound (on_stream c (call c (write compression)) m) _
          (kept.placed, kept.same_actions ∙ v.1)
          (λ _ m' v'.
            create_case image_hdu header (finish_created c image_hdu image_target records >>= fill)
              m' (create image_hdu header m'.stream) (v'.1) (v'.0)
              (law.create_types image_hdu header m'.stream)
              (λ m'' ts same' p e.
                let made =
                  finish_created-IsConsistent image_hdu image_target records m'' ts tt same' p e in
                then-IsConsistent actions (finish_created c image_hdu image_target records m'') fill
                  made.0 made.1 kf))

    module _ (m : MefFile c) (v : IsSound m) where
      pub append_image-IsSound :
          (compression header records pixels : Data)
          → IsSound (append_image c compression header records pixels m).1
      unfolding append_image
      append_image-IsSound compression header records pixels =
          filled_image compression header records (λ slot. write_handle c slot pixels >> pure slot)
            m v (λ slot. written-IsKeepingFor slot pixels)

      pub append_null_image-IsSound :
          (compression header records : Data) (fill : Option Data)
          → IsSound (append_null_image c compression header records fill m).1
      unfolding append_null_image
      append_null_image-IsSound compression header records none =
          filled_image compression header records (λ slot. pure tt >> pure slot) m v
            (λ slot. weaken-IsKeepingFor c actions (pure tt >> pure slot) (
              bind-IsKeeping c (pure tt) (λ _. pure slot) (pure-IsKeeping c tt)
                (λ _. pure-IsKeeping c slot)))
      append_null_image-IsSound compression header records (some pixels) =
          filled_image compression header records (λ slot. write_handle c slot pixels >> pure slot)
            m v (λ slot. written-IsKeepingFor slot pixels)
