-- ===== src/Header/Unique.antt =====
-- The methods that keep the keywords of a header different.
use ele_fits.Prelude.{◌≢◌, Bool, true, false, List, [], ◌∷◌, if◌then◌else◌}
use ele_fits.Prelude.Methods.{Method, pure, ◌>>◌}
use ele_fits.Keyword.{Text}
use ele_fits.Header.{
  HeaderCalls, Record, RecordMode, create_or_update, create_new, remove_record, throw_if_missing,
  write_as, write, write_each, write_seq, write_listed, write_seq_in, lists, remove,
}
use ele_fits.Header.Cards.{IsUnique}
use ele_fits.Header.Writing.{Model, IsStandard}
use ele_fits.Header.Kept.{
  IsPlain, KeepsUnique, then-KeepsUnique, edit-KeepsUnique, throw_if_missing-KeepsUnique,
  remove_record-KeepsUnique, write_as-KeepsUnique,
}

module _ (c : HeaderCalls) where
  open c use {
    Stream, Value, is_long, touch, edit, find, write_warning, write_key, update_key, delete_key,
  }

  -- The methods that change records.
  pub data Change : Type 0 where
    writing : RecordMode → Record c → Change
    writing_seq : RecordMode → List (Record c) → Change
    writing_seq_in : RecordMode → List Text → List (Record c) → Change
    removing : Text → Change

  unfoldable pub change : Change → Method Stream (Unit {0})
  unfolding write write_seq write_seq_in remove
  change (writing mode r) = write c mode r
  change (writing_seq mode rs) = write_seq c mode rs
  change (writing_seq_in mode keywords rs) = write_seq_in c mode keywords rs
  change (removing k) = remove c k

  abbrev pub mode_of : Change → RecordMode
  mode_of (writing mode r) = mode
  mode_of (writing_seq mode rs) = mode
  mode_of (writing_seq_in mode keywords rs) = mode
  mode_of (removing k) = create_or_update

  abbrev pub AllPlain : List (Record c) → Type 0
  AllPlain [] = Unit
  AllPlain (r ∷ rs) = IsPlain c r × AllPlain rs

  abbrev pub IsPlainChange : Change → Type 0
  IsPlainChange (writing mode r) = IsPlain c r
  IsPlainChange (writing_seq mode rs) = AllPlain rs
  IsPlainChange (writing_seq_in mode keywords rs) = AllPlain rs
  IsPlainChange (removing k) = Unit

  module _ (model : Model c) (law : IsStandard c model) where
    open model use {cards}

    write_each-KeepsUnique :
        (mode : RecordMode) (rs : List (Record c))
        → mode ≢ create_new
        → AllPlain rs
        → KeepsUnique c model law (write_each c mode rs)
    unfolding write_each
    write_each-KeepsUnique mode [] ne plain s u = u
    write_each-KeepsUnique mode (r ∷ rs) ne plain s u =
        then-KeepsUnique c model law (write_as c mode r) (write_each c mode rs)
          (write_as-KeepsUnique c model law mode r ne plain.0)
          (write_each-KeepsUnique mode rs ne plain.1) s u

    listed :
        (b : Bool) (mode : RecordMode) (r : Record c)
        → mode ≢ create_new
        → IsPlain c r
        → KeepsUnique c model law (if b then write_as c mode r else pure tt)
    listed true mode r ne plain s u = write_as-KeepsUnique c model law mode r ne plain s u
    listed false mode r ne plain s u = u

    write_listed-KeepsUnique :
        (mode : RecordMode) (keywords : List Text) (rs : List (Record c))
        → mode ≢ create_new
        → AllPlain rs
        → KeepsUnique c model law (write_listed c mode keywords rs)
    unfolding write_listed
    write_listed-KeepsUnique mode keywords [] ne plain s u = u
    write_listed-KeepsUnique mode keywords (r ∷ rs) ne plain s u =
        then-KeepsUnique c model law
          (if lists keywords r.keyword then write_as c mode r else pure tt)
          (write_listed c mode keywords rs) (listed (lists keywords r.keyword) mode r ne plain.0)
          (write_listed-KeepsUnique mode keywords rs ne plain.1) s u

    -- From a header where no keyword has two cards, COMMENT, HISTORY and CONTINUE aside, every write of
    -- one or several records, other than with `CreateNew`, and every removal leads to such a header,
    -- whether it returns or throws, and whatever move to the HDU, question or change CFITSIO refuses.
    -- This is for records other than LONGSTRN, which CFITSIO writes itself before a long text.
    pub change-IsUnique :
        (d : Change) (s : Stream)
        → mode_of d ≢ create_new
        → IsPlainChange d
        → IsUnique (cards s)
        → IsUnique (cards (change d s).1)
    unfolding change write write_seq write_seq_in remove
    change-IsUnique (writing mode r) s ne plain u =
        then-KeepsUnique c model law edit (write_as c mode r) (edit-KeepsUnique c model law)
          (write_as-KeepsUnique c model law mode r ne plain) s u
    change-IsUnique (writing_seq mode rs) s ne plain u =
        then-KeepsUnique c model law edit (write_each c mode rs) (edit-KeepsUnique c model law)
          (write_each-KeepsUnique mode rs ne plain) s u
    change-IsUnique (writing_seq_in mode keywords rs) s ne plain u =
        then-KeepsUnique c model law edit (write_listed c mode keywords rs)
          (edit-KeepsUnique c model law) (write_listed-KeepsUnique mode keywords rs ne plain) s u
    change-IsUnique (removing k) s ne plain u =
        then-KeepsUnique c model law edit (throw_if_missing c k >> remove_record c k)
          (edit-KeepsUnique c model law)
          (then-KeepsUnique c model law (throw_if_missing c k) (remove_record c k)
            (throw_if_missing-KeepsUnique c model law k) (remove_record-KeepsUnique c model law k))
          s u
