-- ===== src/Header/Writing.antt =====
-- What CFITSIO is relied on to do with the cards, and what `update_record` does then.
use ele_fits.Prelude.{
  ◌≡◌, refl, sym, ap, ◌∙◌, subst, inl, inr, Bool, true, false, ◌||◌, Bool-cases, some, List, [],
  ◌∷◌, ◌++◌, if◌then◌else◌, ok, arith,
}
use ele_fits.Keyword.{Text, text_eq, codes}
use ele_fits.Header.{HeaderCalls, Card, Record, raw_comment, update_record}
use ele_fits.Header.Cards.{
  has_card, lookup, replace, without, put, IsUnique, IsUnique-append, IsUnique-replace,
  IsUnique-without, has_card-append, has_card-without, lookup-append, lookup-append_other,
  lookup-replace, lookup-replace_other, lookup-without_other,
}

-- The keyword that `fits_write_key_longwarn` writes if it is missing.
abbrev pub longstrn : Text
longstrn = codes "LONGSTRN"

-- The cards with that of LONGSTRN.
abbrev pub warned : {V : Type 0} → V → List (Text × V) → List (Text × V)
warned v cs = if has_card longstrn cs then cs else cs ++ ((longstrn, v) ∷ [])

pub IsUnique-warned :
    {V : Type 0} (v : V) (cs : List (Text × V)) → IsUnique cs → IsUnique (warned v cs)
IsUnique-warned v cs u = elim (Bool-cases (has_card longstrn cs)) [
  | inl e ↦ rw e u
  | inr e ↦ rw e (IsUnique-append longstrn v cs u e)
]

or_false : (b : Bool) → (b || false) ≡ b
or_false b = ground arith

pub has_card-warned :
    {V : Type 0} (k : Text) (v : V) (cs : List (Text × V))
    → text_eq longstrn k ≡ false
    → has_card k (warned v cs) ≡ has_card k cs
has_card-warned k v cs other = elim (Bool-cases (has_card longstrn cs)) [
  | inl e ↦ rw e refl
  | inr e ↦ rw e (has_card-append k longstrn v cs ∙ rw other (or_false (has_card k cs)))
]

pub lookup-warned :
    {V : Type 0} (k : Text) (v : V) (cs : List (Text × V))
    → text_eq longstrn k ≡ false
    → lookup k (warned v cs) ≡ lookup k cs
lookup-warned k v cs other = elim (Bool-cases (has_card longstrn cs)) [
  | inl e ↦ rw e refl
  | inr e ↦ rw e (lookup-append_other longstrn k v cs other)
]

module _ (c : HeaderCalls) where
  open c use {
    Stream, Value, is_long, touch, edit, find, read_card, write_warning, write_key, update_key,
    delete_key,
  }

  -- The cards of the current HDU, other than COMMENT, HISTORY and CONTINUE, by their keywords and
  -- what CFITSIO reads of them; what it stores of a value and a comment, and of its warning.
  pub record Model : Type 0 where
    pub cards : Stream → List (Text × Card Value)
    pub stored : Value → Text → Card Value
    pub warning : Card Value

  abbrev pub stored_record : Model → Record c → Card Value
  stored_record model r = model.stored r.value (raw_comment r.unit r.comment)

  -- What the calls do with the cards, if they do it. The two functions of the handle that lead to
  -- the HDU leave the cards, whether they return or throw.
  pub record IsStandard (model : Model) : Type 0 where
    pub touches : (s : Stream) → model.cards (touch s).1 ≡ model.cards s
    pub edits : (s : Stream) → model.cards (edit s).1 ≡ model.cards s
    pub finds :
        (k : Text) (s : Stream) (b : Bool) → find k s ≡ some b → has_card k (model.cards s) ≡ b
    pub warns :
        (s s' : Stream)
        → write_warning s ≡ some s'
        → model.cards s' ≡ warned model.warning (model.cards s)
    pub writes :
        (k : Text) (v : Value) (t : Text) (s s' : Stream)
        → write_key k v t s ≡ some s'
        → model.cards s' ≡ model.cards s ++ ((k, model.stored v t) ∷ [])
    pub updates :
        (k : Text) (v : Value) (t : Text) (s s' : Stream)
        → update_key k v t s ≡ some s'
        → model.cards s' ≡ put k (model.stored v t) (model.cards s)
    pub deletes :
        (k : Text) (s s' : Stream)
        → delete_key k s ≡ some s'
        → model.cards s' ≡ without k (model.cards s)

  -- The calls refuse nothing, as with a file that can be edited.
  pub record IsWritable (model : Model) : Type 0 where
    pub can_touch : (s : Stream) → (s' : Stream) × (touch s ≡ (ok tt, s'))
    pub can_edit : (s : Stream) → (s' : Stream) × (edit s ≡ (ok tt, s'))
    pub can_find : (k : Text) (s : Stream) → (b : Bool) × (find k s ≡ some b)
    pub can_read : (k : Text) (s : Stream) → read_card k s ≡ lookup k (model.cards s)
    pub can_warn : (s : Stream) → (s' : Stream) × (write_warning s ≡ some s')
    pub can_write :
        (k : Text) (v : Value) (t : Text) (s : Stream)
        → (s' : Stream) × (write_key k v t s ≡ some s')
    pub can_update :
        (k : Text) (v : Value) (t : Text) (s : Stream)
        → (s' : Stream) × (update_key k v t s ≡ some s')
    pub can_delete :
        (k : Text) (s : Stream)
        → has_card k (model.cards s) ≡ true
        → (s' : Stream) × (delete_key k s ≡ some s')

  module _ (model : Model) where
    open model use {cards, warning}

    -- The record is there, and no other is changed but LONGSTRN.
    pub record Puts (r : Record c) (s s' : Stream) : Type 0 where
      pub still_unique : IsUnique (cards s')
      pub there : lookup r.keyword (cards s') ≡ some (stored_record model r)
      pub others :
          (k : Text)
          → text_eq r.keyword k ≡ false
          → text_eq longstrn k ≡ false
          → lookup k (cards s') ≡ lookup k (cards s)

    appended-Puts :
        (r : Record c) (s s' : Stream) (cs : List (Text × Card Value))
        → IsUnique cs
        → has_card r.keyword cs ≡ false
        → ((k : Text)
            → text_eq r.keyword k ≡ false
            → text_eq longstrn k ≡ false
            → lookup k cs ≡ lookup k (cards s))
        → cards s' ≡ cs ++ ((r.keyword, stored_record model r) ∷ [])
        → Puts r s s'
    appended-Puts r s s' cs u absent same e =
        let card = stored_record model r in
        record {
          still_unique = subst IsUnique (sym e) (IsUnique-append r.keyword card cs u absent);
          there = ap (lookup r.keyword) e ∙ lookup-append r.keyword card cs absent;
          others = λ k other far.
              ap (lookup k) e ∙ lookup-append_other r.keyword k card cs other ∙ same k other far;
        }

    replaced-Puts :
        (r : Record c) (s s' : Stream)
        → IsUnique (cards s)
        → has_card r.keyword (cards s) ≡ true
        → cards s' ≡ replace r.keyword (stored_record model r) (cards s)
        → Puts r s s'
    replaced-Puts r s s' u present e =
        let card = stored_record model r in
        record {
          still_unique = subst IsUnique (sym e) (IsUnique-replace r.keyword card (cards s) u);
          there = ap (lookup r.keyword) e ∙ lookup-replace r.keyword card (cards s) present;
          others = λ k other far.
              ap (lookup k) e ∙ lookup-replace_other r.keyword k card (cards s) other;
        }

    module _ (law : IsStandard model) (open_file : IsWritable model) where
      short_text :
          (r : Record c) (s : Stream)
          → is_long r.value ≡ false
          → IsUnique (cards s)
          → (s' : Stream) × (update_record c r s ≡ (ok tt, s')) × Puts r s s'
      unfolding update_record
      short_text r s short u =
          let text = raw_comment r.unit r.comment in
          let (s', e) = open_file.can_update r.keyword r.value text s in
          let put_is = law.updates r.keyword r.value text s s' e in
          (
            s',
            rw (short, e) refl,
            elim (Bool-cases (has_card r.keyword (cards s))) [
              | inl h ↦ replaced-Puts r s s' u h (put_is ∙ rw h refl)
              | inr h ↦
                  appended-Puts r s s' (cards s) u h (λ k other far. refl) (put_is ∙ rw h refl)
            ],
          )

      -- The cards after the warning and the record.
      long_cards :
          (r : Record c) (s s1 s' : Stream)
          → write_warning s ≡ some s1
          → write_key r.keyword r.value (raw_comment r.unit r.comment) s1 ≡ some s'
          → cards s' ≡ warned warning (cards s) ++ ((r.keyword, stored_record model r) ∷ [])
      long_cards r s s1 s' e1 e =
          law.writes r.keyword r.value (raw_comment r.unit r.comment) s1 s' e
          ∙ ap (λ cs. cs ++ ((r.keyword, stored_record model r) ∷ [])) (law.warns s s1 e1)

      -- The cards that the rest of the update leaves: those of `s0` were changed to those of `s`.
      written-Puts :
          (r : Record c) (s0 s s' : Stream)
          → text_eq longstrn r.keyword ≡ false
          → IsUnique (cards s)
          → has_card r.keyword (cards s) ≡ false
          → ((k : Text) → text_eq r.keyword k ≡ false → lookup k (cards s) ≡ lookup k (cards s0))
          → cards s' ≡ warned warning (cards s) ++ ((r.keyword, stored_record model r) ∷ [])
          → Puts r s0 s'
      written-Puts r s0 s s' plain u absent same e =
          appended-Puts r s0 s' (warned warning (cards s)) (IsUnique-warned warning (cards s) u)
            (has_card-warned r.keyword warning (cards s) plain ∙ absent)
            (λ k other far. lookup-warned k warning (cards s) far ∙ same k other) e

      long_text :
          (r : Record c) (s : Stream)
          → text_eq longstrn r.keyword ≡ false
          → is_long r.value ≡ true
          → IsUnique (cards s)
          → (s' : Stream) × (update_record c r s ≡ (ok tt, s')) × Puts r s s'
      unfolding update_record
      long_text r s plain long u =
          let (b, found) = open_file.can_find r.keyword s in
          let text = raw_comment r.unit r.comment in
          let has_is = law.finds r.keyword s b found in
          elim (Bool-cases b) [
            | inl h ↦
                let (s1, e1) = open_file.can_delete r.keyword s (has_is ∙ h) in
                let (s2, e2) = open_file.can_warn s1 in
                let (s', e) = open_file.can_write r.keyword r.value text s2 in
                let gone = law.deletes r.keyword s s1 e1 in
                (
                  s',
                  rw (long, found, h, e1, e2, e) refl,
                  written-Puts r s s1 s' plain
                      (subst IsUnique (sym gone) (IsUnique-without r.keyword (cards s) u))
                      (ap (has_card r.keyword) gone ∙ has_card-without r.keyword (cards s) u)
                      (λ k other.
                        ap (lookup k) gone ∙ lookup-without_other r.keyword k (cards s) other)
                      (long_cards r s1 s2 s' e2 e),
                )
            | inr h ↦
                let (s2, e2) = open_file.can_warn s in
                let (s', e) = open_file.can_write r.keyword r.value text s2 in
                (
                  s',
                  rw (long, found, h, e2, e) refl,
                  written-Puts r s s s' plain u (has_is ∙ h) (λ k other. refl)
                      (long_cards r s s2 s' e2 e),
                )
          ]

      -- An update returns, and puts the record.
      pub update_record-Puts :
          (r : Record c) (s : Stream)
          → text_eq longstrn r.keyword ≡ false
          → IsUnique (cards s)
          → (s' : Stream) × (update_record c r s ≡ (ok tt, s')) × Puts r s s'
      update_record-Puts r s plain u = elim (Bool-cases (is_long r.value)) [
        | inl e ↦ long_text r s plain e u
        | inr e ↦ short_text r s e u
      ]
