-- ===== src/MefFile/Runs.antt =====
-- The files that the methods lead to.
use ele_fits.Prelude.{◌≡◌, ◌≢◌, ℕ, Option, List, fail, undefined_behaviour}
use ele_fits.Prelude.Int.{ℤ}
use ele_fits.Prelude.Methods.{Method, pure, ◌>>=◌}
use ele_fits.MefFile.Access.{Cfitsio, IsStandard}
use ele_fits.MefFile.{Target, Action, MefFile, access}
use ele_fits.MefFile.Consistent.{IsConsistent}
use ele_fits.MefFile.Append.{
  append_image_header, append_bintable_header, append_image, append_null_image, append_bintable,
  append_null_bintable, append_columns, Copy, append_copy,
}
use ele_fits.MefFile.Removal.{remove}
use ele_fits.MefFile.Keeping.{AllTame}

module _ (c : Cfitsio) where
  open c use {Stream, Data, types}

  -- The methods that change the list of handles, with what CFITSIO is to write.
  pub data Operation : Type 0 where
    accessing : Target → ℤ → Operation
    appending_image_header : Data → Data → Operation
    appending_bintable_header : Data → Data → Operation
    appending_image : Data → Data → Data → Data → Operation
    appending_null_image : Data → Data → Data → Option Data → Operation
    appending_bintable : Data → Data → Data → Operation
    appending_null_bintable : Data → Data → Data → Operation
    appending_columns : Data → Data → Operation
    appending_copy : Target → Copy c → Operation
    removing : Data → ℤ → Operation

  -- Without the handle that is returned.
  abbrev pub discard : Method (MefFile c) ℕ → Method (MefFile c) (Unit {0})
  discard f = f >>= λ _. pure tt

  unfoldable pub operate : Operation → Method (MefFile c) (Unit {0})
  unfolding access append_image_header append_bintable_header append_image append_null_image
      append_bintable append_null_bintable append_columns append_copy remove
  operate (accessing target i) = discard (access c target i)
  operate (appending_image_header h r) = discard (append_image_header c h r)
  operate (appending_bintable_header h r) = discard (append_bintable_header c h r)
  operate (appending_image z h r p) = discard (append_image c z h r p)
  operate (appending_null_image z h r p) = discard (append_null_image c z h r p)
  operate (appending_bintable h r d) = discard (append_bintable c h r d)
  operate (appending_null_bintable h r d) = discard (append_null_bintable c h r d)
  operate (appending_columns t r) = discard (append_columns c t r)
  operate (appending_copy target copy) = discard (append_copy c target copy)
  operate (removing d i) = remove c d i

  -- A call of a method that returns or throws; the caller may catch what it throws.
  pub data Step : MefFile c → MefFile c → Type 0 where
    call_of :
        (o : Operation) (m : MefFile c)
        → (operate o m).0 ≢ fail undefined_behaviour
        → Step m (operate o m).1

  pub data Reach (start : MefFile c) : MefFile c → Type 0 where
    here : Reach start start
    next : {m m' : MefFile c} → Reach start m → Step m m' → Reach start m'

  module _ (law : IsStandard c) (actions : List (Action c))
      (tame : AllTame c (λ a. a.accessed) actions)
      (tame' : AllTame c (λ a. a.created) actions) where
    -- The actions are the same and the handles at their places.
    abbrev IsSound : MefFile c → Type 0
    IsSound m = IsConsistent c m × (m.actions ≡ actions)
