-- ===== src/MefFile/Keeping.antt =====
-- The methods of a file leave its handles at their places.
use ele_fits.Prelude.{
  ◌≡◌, refl, ◌∙◌, arith, inl, inr, Bool-cases, ◌⊎◌, ℕ, Option, none, some, List, [], ◌∷◌, get_elem?,
  set, Outcome, ok, fail, undefined_behaviour,
}
use ele_fits.Prelude.Int.{ℤ, to_int, ◌==ℤ◌}
use ele_fits.Prelude.Methods.{Method, pure, lift, and_then, ◌>>=◌, ◌>>◌}
use ele_fits.Hdu.{Hdu, touch, edit}
use ele_fits.MefFile.Access.{Cfitsio, goto_index, call, called, IsStandard}
use ele_fits.MefFile.{
  Target, is_target, Action, MefFile, on_stream, handle_at, put_handle, on_handle, each_action,
  notify, cast_handle, reach, touch_handle, edit_handle, write_handle,
}
use ele_fits.MefFile.Consistent.{Placed-get, Placed-set, IsConsistent}

pub nested_cases :
    (o : Option (Option Hdu)) → ((h : Hdu) × (o ≡ some (some h))) ⊎ ((o ≡ none) ⊎ (o ≡ some none))
nested_cases none = inr (inl refl)
nested_cases (some none) = inr (inr refl)
nested_cases (some (some h)) = inl (h, refl)

module _ (c : Cfitsio) where
  open c use {Stream, Data, types, current, move, create, write, delete}

  -- The types of the HDUs are those of another file object, and the handles at their places.
  pub record Keeps (m m' : MefFile c) : Type 0 where
    pub same_types : types m'.stream ≡ types m.stream
    pub same_actions : m'.actions ≡ m.actions
    pub placed : IsConsistent c m'

  pub Keeps-refl : (m : MefFile c) → IsConsistent c m → Keeps m m
  Keeps-refl m v = record { same_types = refl; same_actions = refl; placed = v }

  pub Keeps-trans : (m m' m'' : MefFile c) → Keeps m m' → Keeps m' m'' → Keeps m m''
  Keeps-trans m m' m'' k k' = record {
    same_types = k'.same_types ∙ k.same_types;
    same_actions = k'.same_actions ∙ k.same_actions;
    placed = k'.placed;
  }

  -- A method that keeps the handles at their places.
  abbrev pub IsKeeping : {A : Type 0} → Method (MefFile c) A → Type 0
  IsKeeping f = (m : MefFile c) → IsConsistent c m → Keeps m (f m).1

  pub pure-IsKeeping : {A : Type 0} (a : A) → IsKeeping (pure a)
  pure-IsKeeping a m v = Keeps-refl m v

  pub lift-IsKeeping : {A : Type 0} (o : Outcome A) → IsKeeping (lift o)
  lift-IsKeeping o m v = Keeps-refl m v

  bind_case :
      {A B : Type 0} (r : Outcome A × MefFile c) (g : A → Method (MefFile c) B) (m : MefFile c)
      → Keeps m r.1
      → ((a : A) → IsKeeping (g a))
      → Keeps m (and_then g r).1
  bind_case (fail e, m') g m k kg = k
  bind_case (ok a, m') g m k kg = Keeps-trans m m' (g a m').1 k (kg a m' k.placed)

  pub bind-IsKeeping :
      {A B : Type 0} (f : Method (MefFile c) A) (g : A → Method (MefFile c) B)
      → IsKeeping f
      → ((a : A) → IsKeeping (g a))
      → IsKeeping (f >>= g)
  bind-IsKeeping f g kf kg m v = bind_case (f m) g m (kf m v) kg

  pub on_stream-IsKeeping :
      {A : Type 0} (f : Method Stream A)
      → ((s : Stream) → types (f s).1 ≡ types s)
      → IsKeeping (on_stream c f)
  unfolding on_stream
  on_stream-IsKeeping f h m v = record {
    same_types = h m.stream;
    same_actions = refl;
    placed = rw (h m.stream) v;
  }

  -- What an action does leaves the index and the class of the handle, and the types of the HDUs.
  pub record IsTame (f : Method (Hdu × Stream) (Unit {0})) : Type 0 where
    pub index : (h : Hdu) (s : Stream) → (f (h, s)).1.0.cfitsio_index ≡ h.cfitsio_index
    pub handler : (h : Hdu) (s : Stream) → (f (h, s)).1.0.handler ≡ h.handler
    pub same_types : (h : Hdu) (s : Stream) → types (f (h, s)).1.1 ≡ types s

  -- The file with another handle in a place and another stream.
  pub replaced-Keeps :
      (m : MefFile c) (i : ℕ) (h h' : Hdu) (s : Stream)
      → IsConsistent c m
      → get_elem? m.hdus i ≡ some (some h)
      → h'.cfitsio_index ≡ h.cfitsio_index
      → h'.handler ≡ h.handler
      → types s ≡ types m.stream
      → Keeps m (record m { hdus = set m.hdus i (some h'); stream = s })
  replaced-Keeps m i h h' s v at e k t =
      let (type, typed, placed, classed) = Placed-get 0 i m.hdus (types m.stream) h v at in
      record {
        same_types = t;
        same_actions = refl;
        placed =
            rw t
              (Placed-set 0 i m.hdus (types m.stream) h' type v typed (e ∙ placed) (k ∙ classed));
      }

  pub handle_at-some :
      (m : MefFile c) (i : ℕ) (h : Hdu)
      → get_elem? m.hdus i ≡ some (some h)
      → handle_at c i m ≡ (ok h, m)
  unfolding handle_at
  handle_at-some m i h e = rw (e, handle_at) refl

  pub slot_cases :
      (m : MefFile c) (i : ℕ)
      → ((h : Hdu) × (get_elem? m.hdus i ≡ some (some h)))
        ⊎ (handle_at c i m ≡ (fail undefined_behaviour, m))
  unfolding handle_at
  slot_cases m i = elim (nested_cases (get_elem? m.hdus i)) [
    | inl (h, e) ↦ inl (h, e)
    | inr (inl e) ↦ inr (rw (e, handle_at) refl)
    | inr (inr e) ↦ inr (rw (e, handle_at) refl)
  ]

  on_handle-IsKeeping :
      (i : ℕ) (f : Method (Hdu × Stream) (Unit {0})) → IsTame f → IsKeeping (on_handle c i f)
  unfolding on_handle
  on_handle-IsKeeping i f tame m v = elim (slot_cases m i) [
    | inl (h, at) ↦ rw (handle_at-some m i h at) (
        replaced-Keeps m i h (f (h, m.stream)).1.0 (f (h, m.stream)).1.1 v at
          (tame.index h m.stream) (tame.handler h m.stream) (tame.same_types h m.stream))
    | inr e ↦ rw e (Keeps-refl m v)
  ]

  abbrev pub AllTame : (Action c → Method (Hdu × Stream) (Unit {0})) → List (Action c) → Type 0
  AllTame event [] = Unit
  AllTame event (a ∷ rest) = IsTame (event a) × AllTame event rest

  each_action-IsKeeping :
      (event : Action c → Method (Hdu × Stream) (Unit {0})) (i : ℕ) (as' : List (Action c))
      → AllTame event as'
      → IsKeeping (each_action c event i as')
  unfolding each_action
  each_action-IsKeeping event i [] tame = pure-IsKeeping tt
  each_action-IsKeeping event i (a ∷ rest) tame =
      bind-IsKeeping (on_handle c i (event a)) (λ _. each_action c event i rest)
        (on_handle-IsKeeping i (event a) tame.0) (λ _. each_action-IsKeeping event i rest tame.1)

  -- A method that keeps the handles at their places, on a file with given actions.
  abbrev pub IsKeepingFor : {A : Type 0} → List (Action c) → Method (MefFile c) A → Type 0
  IsKeepingFor actions f =
      (m : MefFile c) → m.actions ≡ actions → IsConsistent c m → Keeps m (f m).1

  pub notify-IsKeepingFor :
      (event : Action c → Method (Hdu × Stream) (Unit {0})) (i : ℕ) (actions : List (Action c))
      → AllTame event actions
      → IsKeepingFor actions (notify c event i)
  unfolding notify
  notify-IsKeepingFor event i actions tame m e v =
      each_action-IsKeeping event i m.actions (rw e tame) m v

  pub call_case :
      (o : Option Stream) (s : Stream)
      → ((s' : Stream) → o ≡ some s' → types s' ≡ types s)
      → types (called c o s).1 ≡ types s
  call_case none s h = refl
  call_case (some s') s h = h s' refl

  pub goto_index-types :
      (i : ℤ) → IsStandard c → (s : Stream) → types (goto_index c i s).1 ≡ types s
  unfolding goto_index
  goto_index-types i law s = elim (Bool-cases (i ==ℤ current s)) [
    | inl e ↦ rw e refl
    | inr e ↦ rw e (call_case (move (to_int i) s) s (law.move_types (to_int i) s))
  ]

  pub goto_index-IsKeeping : (i : ℤ) → IsStandard c → IsKeeping (on_stream c (goto_index c i))
  goto_index-IsKeeping i law = on_stream-IsKeeping (goto_index c i) (goto_index-types i law)

  pub write-IsKeeping : (d : Data) → IsStandard c → IsKeeping (on_stream c (call c (write d)))
  write-IsKeeping d law =
      on_stream-IsKeeping (call c (write d)) (λ s. call_case (write d s) s (law.write_types d s))

  touch-index :
      (go : ℤ → Outcome (Unit {0})) (h h' : Hdu)
      → touch go h ≡ ok h'
      → (h'.cfitsio_index ≡ h.cfitsio_index) × (h'.handler ≡ h.handler)
  unfolding touch
  touch-index go h h' e = ground arith

  edit-index :
      (go : ℤ → Outcome (Unit {0})) (h h' : Hdu)
      → edit go h ≡ ok h'
      → (h'.cfitsio_index ≡ h.cfitsio_index) × (h'.handler ≡ h.handler)
  unfolding edit
  edit-index go h h' e = ground arith

  -- The end of `touch_handle` and `edit_handle`.
  handled-Keeps :
      (m : MefFile c) (i : ℕ) (h : Hdu) (o : Outcome Hdu)
      → IsStandard c
      → IsConsistent c m
      → get_elem? m.hdus i ≡ some (some h)
      → ((h' : Hdu) → o ≡ ok h' → (h'.cfitsio_index ≡ h.cfitsio_index) × (h'.handler ≡ h.handler))
      → Keeps m
          ((lift o >>= λ h'. put_handle c i h' >> on_stream c (goto_index c h'.cfitsio_index)) m).1
  handled-Keeps m i h (fail e) law v at same = Keeps-refl m v
  handled-Keeps m i h (ok h') law v at same =
      let kept = replaced-Keeps m i h h' m.stream v at (same h' refl).0 (same h' refl).1 refl in
      let changed : MefFile c = record m { hdus = set m.hdus i (some h') } in
      Keeps-trans m changed _ kept (goto_index-IsKeeping h'.cfitsio_index law changed kept.placed)

  pub touch_handle-IsKeeping : (i : ℕ) → IsStandard c → IsKeeping (touch_handle c i)
  unfolding touch_handle
  touch_handle-IsKeeping i law m v = elim (slot_cases m i) [
    | inl (h, at) ↦ rw (handle_at-some m i h at) (
        handled-Keeps m i h (touch (reach c m.stream) h) law v at
          (touch-index (reach c m.stream) h))
    | inr e ↦ rw e (Keeps-refl m v)
  ]

  edit_handle-IsKeeping : (i : ℕ) → IsStandard c → IsKeeping (edit_handle c i)
  unfolding edit_handle
  edit_handle-IsKeeping i law m v = elim (slot_cases m i) [
    | inl (h, at) ↦
        rw (handle_at-some m i h at) (
          handled-Keeps m i h (edit (reach c m.stream) h) law v at
            (edit-index (reach c m.stream) h))
    | inr e ↦ rw e (Keeps-refl m v)
  ]

  pub write_handle-IsKeeping : (i : ℕ) (d : Data) → IsStandard c → IsKeeping (write_handle c i d)
  unfolding write_handle
  write_handle-IsKeeping i d law =
      bind-IsKeeping (edit_handle c i) (λ _. on_stream c (call c (write d)))
        (edit_handle-IsKeeping i law) (λ _. write-IsKeeping d law)

  pub cast_handle-IsKeeping : (target : Target) (i : ℕ) → IsKeeping (cast_handle c target i)
  unfolding cast_handle
  cast_handle-IsKeeping target i m v = elim (slot_cases m i) [
    | inl (h, at) ↦ rw (handle_at-some m i h at) (elim (Bool-cases (is_target target h.handler)) [
      | inl e ↦ rw e (Keeps-refl m v)
      | inr e ↦ rw e (Keeps-refl m v)
    ])
    | inr e ↦ rw e (Keeps-refl m v)
  ]

  bind_case_for :
      {A B : Type 0} (actions : List (Action c)) (r : Outcome A × MefFile c)
      (g : A → Method (MefFile c) B) (m : MefFile c)
      → m.actions ≡ actions
      → Keeps m r.1
      → ((a : A) → IsKeepingFor actions (g a))
      → Keeps m (and_then g r).1
  bind_case_for actions (fail e, m') g m same k kg = k
  bind_case_for actions (ok a, m') g m same k kg =
      Keeps-trans m m' (g a m').1 k (kg a m' (k.same_actions ∙ same) k.placed)

  pub bind-IsKeepingFor :
      {A B : Type 0} (actions : List (Action c)) (f : Method (MefFile c) A)
      (g : A → Method (MefFile c) B)
      → IsKeepingFor actions f
      → ((a : A) → IsKeepingFor actions (g a))
      → IsKeepingFor actions (f >>= g)
  bind-IsKeepingFor actions f g kf kg m same v =
      bind_case_for actions (f m) g m same (kf m same v) kg

  pub weaken-IsKeepingFor :
      {A : Type 0} (actions : List (Action c)) (f : Method (MefFile c) A)
      → IsKeeping f
      → IsKeepingFor actions f
  weaken-IsKeepingFor actions f k m same v = k m v
