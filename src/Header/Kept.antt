-- ===== src/Header/Kept.antt =====
-- The writes of a record that keep the keywords of a header different.
use ele_fits.Prelude.{
  ◌≡◌, refl, sym, ap, ◌∙◌, subst, ◌≢◌, inl, inr, Bool, true, false, Bool-cases, Option, none, some,
  List, if◌then◌else◌, Outcome, ok, fail, keyword_exists_error, keyword_not_found_error,
}
use ele_fits.Prelude.Methods.{Method, pure, throw, and_then, ◌>>◌}
use ele_fits.Keyword.{Text, text_eq}
use ele_fits.Header.{
  HeaderCalls, Card, Record, RecordMode, raw_comment, has, has_keyword, told, create_or_update,
  create_unique, create_new, update_existing, remove_record, write_record, update_record, changed,
  throw_if_exists, throw_if_missing, write_as,
}
use ele_fits.Header.Cards.{
  has_card, put, IsUnique, IsUnique-append, IsUnique-replace, IsUnique-without, has_card-without,
}
use ele_fits.Header.Writing.{longstrn, IsUnique-warned, has_card-warned, Model, IsStandard}

module _ (c : HeaderCalls) where
  open c use {
    Stream, Value, is_long, touch, edit, find, write_warning, write_key, update_key, delete_key,
  }

  -- The records do not have the keyword LONGSTRN.
  abbrev pub IsPlain : Record c → Type 0
  IsPlain r = text_eq longstrn r.keyword ≡ false

  module _ (model : Model c) (law : IsStandard c model) where
    open model use {cards, stored, warning}

    abbrev pub KeepsUnique : Method Stream (Unit {0}) → Type 0
    KeepsUnique f = (s : Stream) → IsUnique (cards s) → IsUnique (cards (f s).1)

    pub then-KeepsUnique :
        (f g : Method Stream (Unit {0})) → KeepsUnique f → KeepsUnique g → KeepsUnique (f >> g)
    then-KeepsUnique f g keeps keeps' s u = after (f s) (keeps s u)
      where
        after :
            (r : Outcome (Unit {0}) × Stream)
            → IsUnique (cards r.1)
            → IsUnique (cards (and_then (λ _. g) r).1)
        after (ok tt, s') u' = keeps' s' u'
        after (fail e, s') u' = u'

    changed-IsUnique :
        (o : Option Stream) (s : Stream)
        → IsUnique (cards s)
        → ((s' : Stream) → o ≡ some s' → IsUnique (cards s'))
        → IsUnique (cards (changed c o s).1)
    changed-IsUnique none s u h = u
    changed-IsUnique (some s') s u h = h s' refl

    pub edit-KeepsUnique : KeepsUnique edit
    edit-KeepsUnique s u = subst IsUnique (sym (law.edits s)) u

    key-IsUnique :
        (k : Text) (v : Value) (t : Text) (s : Stream)
        → has_card k (cards s) ≡ false
        → IsUnique (cards s)
        → IsUnique (cards (changed c (write_key k v t s) s).1)
    key-IsUnique k v t s h u = changed-IsUnique (write_key k v t s) s u (λ s' e.
        subst IsUnique (sym (law.writes k v t s s' e))
          (IsUnique-append k (stored v t) (cards s) u h))

    -- The write after the warning, if CFITSIO does it.
    warned_key-IsUnique :
        (r : Record c) (t : Text) (s : Stream) (o : Option Stream)
        → write_warning s ≡ o
        → IsPlain r
        → has_card r.keyword (cards s) ≡ false
        → IsUnique (cards s)
        → IsUnique (
            cards
              (and_then
                (λ _ s'. changed c (write_key r.keyword r.value t s') s')
                (changed c o s)).1)
    warned_key-IsUnique r t s none e plain h u = u
    warned_key-IsUnique r t s (some s') e plain h u =
        let more = law.warns s s' e in
        key-IsUnique r.keyword r.value t s'
          (ap (has_card r.keyword) more ∙ has_card-warned r.keyword warning (cards s) plain ∙ h)
          (subst IsUnique (sym more) (IsUnique-warned warning (cards s) u))

    write_record-IsUnique :
        (r : Record c) (s : Stream)
        → IsPlain r
        → has_card r.keyword (cards s) ≡ false
        → IsUnique (cards s)
        → IsUnique (cards (write_record c r s).1)
    unfolding write_record
    write_record-IsUnique r s plain h u =
        let text = raw_comment r.unit r.comment in
        elim (Bool-cases (is_long r.value)) [
          | inl e ↦ rw e (warned_key-IsUnique r text s (write_warning s) refl plain h u)
          | inr e ↦ rw e (key-IsUnique r.keyword r.value text s h u)
        ]

    put-IsUnique :
        (k : Text) (v : Card Value) (cs : List (Text × Card Value))
        → IsUnique cs
        → IsUnique (put k v cs)
    put-IsUnique k v cs u = elim (Bool-cases (has_card k cs)) [
      | inl h ↦ rw h (IsUnique-replace k v cs u)
      | inr h ↦ rw h (IsUnique-append k v cs u h)
    ]

    -- A card that is removed, if CFITSIO does it, and then written.
    rewritten :
        (r : Record c) (s : Stream) (o : Option Stream)
        → delete_key r.keyword s ≡ o
        → IsPlain r
        → IsUnique (cards s)
        → IsUnique (cards (and_then (λ _. write_record c r) (changed c o s)).1)
    rewritten r s none e plain u = u
    rewritten r s (some s') e plain u =
        let gone = law.deletes r.keyword s s' e in
        write_record-IsUnique r s' plain
          (ap (has_card r.keyword) gone ∙ has_card-without r.keyword (cards s) u)
          (subst IsUnique (sym gone) (IsUnique-without r.keyword (cards s) u))

    either_way :
        (b : Bool) (f g : Method Stream (Unit {0})) (s : Stream)
        → IsUnique (cards (f s).1)
        → IsUnique (cards (g s).1)
        → IsUnique (cards ((if b then f else g) s).1)
    either_way true f g s h k = h
    either_way false f g s h k = k

    -- The end of an update by a long text, after the question for its keyword.
    updated_long :
        (r : Record c) (s : Stream) (o : Option Bool)
        → find r.keyword s ≡ o
        → IsPlain r
        → IsUnique (cards s)
        → IsUnique (
            cards
              (and_then
                (λ exists.
                  (if exists then remove_record c r.keyword else pure tt) >> write_record c r)
                (told c o s)).1)
    unfolding remove_record
    updated_long r s none e plain u = u
    updated_long r s (some true) e plain u = rewritten r s (delete_key r.keyword s) refl plain u
    updated_long r s (some false) e plain u =
        write_record-IsUnique r s plain (law.finds r.keyword s false e) u

    update_record-KeepsUnique : (r : Record c) → IsPlain r → KeepsUnique (update_record c r)
    unfolding update_record has_keyword
    update_record-KeepsUnique r plain s u =
        let text = raw_comment r.unit r.comment in
        either_way (is_long r.value) _ _ s (updated_long r s (find r.keyword s) refl plain u) (
          changed-IsUnique (update_key r.keyword r.value text s) s u (λ s' e.
            subst IsUnique (sym (law.updates r.keyword r.value text s s' e))
              (put-IsUnique r.keyword (stored r.value text) (cards s) u)))

    -- `throw_if_exists` returns on a missing keyword only.
    found_then_write :
        (r : Record c) (s : Stream) (o : Option Bool)
        → find r.keyword s ≡ o
        → IsPlain r
        → IsUnique (cards s)
        → IsUnique (
            cards
              (and_then
                (λ _. write_record c r)
                (and_then
                  (λ exists. if exists then throw keyword_exists_error else pure tt)
                  (told c o s))).1)
    found_then_write r s none e plain u = u
    found_then_write r s (some true) e plain u = u
    found_then_write r s (some false) e plain u =
        write_record-IsUnique r s plain (law.finds r.keyword s false e) u

    exists_then_write :
        (r : Record c) → IsPlain r → KeepsUnique (throw_if_exists c r.keyword >> write_record c r)
    unfolding throw_if_exists has has_keyword
    exists_then_write r plain s u = after (touch s) (subst IsUnique (sym (law.touches s)) u)
      where
        after :
            (t : Outcome (Unit {0}) × Stream)
            → IsUnique (cards t.1)
            → IsUnique (
                cards
                  (and_then
                    (λ _. write_record c r)
                    (and_then
                      (λ exists. if exists then throw keyword_exists_error else pure tt)
                      (and_then (λ _. has_keyword c r.keyword) t))).1)
        after (fail e, s') u' = u'
        after (ok tt, s') u' = found_then_write r s' (find r.keyword s') refl plain u'

    asked :
        (o : Option Bool) (s : Stream)
        → IsUnique (cards s)
        → IsUnique (
            cards
              (and_then
                (λ exists. if exists then pure tt else throw keyword_not_found_error)
                (told c o s)).1)
    asked none s u = u
    asked (some true) s u = u
    asked (some false) s u = u

    pub throw_if_missing-KeepsUnique : (k : Text) → KeepsUnique (throw_if_missing c k)
    unfolding throw_if_missing has has_keyword
    throw_if_missing-KeepsUnique k s u = after (touch s) (subst IsUnique (sym (law.touches s)) u)
      where
        after :
            (t : Outcome (Unit {0}) × Stream)
            → IsUnique (cards t.1)
            → IsUnique (
                cards
                  (and_then
                    (λ exists. if exists then pure tt else throw keyword_not_found_error)
                    (and_then (λ _. has_keyword c k) t)).1)
        after (fail e, s') u' = u'
        after (ok tt, s') u' = asked (find k s') s' u'

    pub remove_record-KeepsUnique : (k : Text) → KeepsUnique (remove_record c k)
    unfolding remove_record
    remove_record-KeepsUnique k s u =
        changed-IsUnique (delete_key k s) s u
          (λ s' e. subst IsUnique (sym (law.deletes k s s' e)) (IsUnique-without k (cards s) u))

    pub write_as-KeepsUnique :
        (mode : RecordMode) (r : Record c)
        → mode ≢ create_new
        → IsPlain r
        → KeepsUnique (write_as c mode r)
    unfolding write_as
    write_as-KeepsUnique create_unique r ne plain = exists_then_write r plain
    write_as-KeepsUnique create_new r ne plain = absurd (ne refl)
    write_as-KeepsUnique update_existing r ne plain =
        then-KeepsUnique (throw_if_missing c r.keyword) (update_record c r)
          (throw_if_missing-KeepsUnique r.keyword) (update_record-KeepsUnique r plain)
    write_as-KeepsUnique create_or_update r ne plain = update_record-KeepsUnique r plain
