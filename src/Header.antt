-- ===== src/Header.antt =====
-- `Header` (EleFits/EleFits/Header.h, impl/Header.hpp, EleFits/src/lib/Header.cpp) over the records
-- of EleCfitsioWrapper/src/lib/HeaderWrapper.cpp.
pub mod Cards
pub mod Writing
pub mod Kept
pub mod Unique
pub mod Reading
pub mod IntTypes
pub mod Comments
mod Tests
use package.ele_fits.Prelude.{
  ℕ, zero, suc, ◌&&◌, ◌==◌, length, drop, Bool, true, false, Option, none, some, List, [], ◌∷◌,
  ◌++◌, if◌then◌else◌, Outcome, ok, fail, fits_error, keyword_exists_error, keyword_not_found_error,
}
use package.ele_fits.Prelude.Methods.{Method, pure, throw, ◌>>=◌, ◌>>◌}
use package.ele_fits.Keyword.{Text, text_eq}

-- What CFITSIO reads of a card: the length of a text, if it is one, the value, the unit and the
-- comment.
pub record Card (Value : Type 0) : Type 0 where
  pub size : Option ℕ
  pub value : Value
  pub unit : Text
  pub comment : Text

-- The unit in brackets, and a space.
abbrev pub brackets : Text → Text
brackets unit = 91 ∷ (unit ++ (93 ∷ 32 ∷ []))

-- `Record::raw_comment`
unfoldable pub raw_comment : Text → Text → Text
raw_comment [] comment = comment
raw_comment (u ∷ unit) comment = brackets (u ∷ unit) ++ comment

abbrev pub starts_with : Text → Text → Bool
starts_with [] text = true
starts_with (m ∷ ms) [] = false
starts_with (m ∷ ms) (x ∷ xs) = (m == x) && starts_with ms xs

-- `comment.erase(pos, match.length())` where `find` finds the match.
abbrev pub erase_first : Text → Text → Text
erase_first match [] = []
erase_first match (x ∷ xs) =
    let rest = erase_first match xs in
    if starts_with match (x ∷ xs) then drop (length match) (x ∷ xs) else x ∷ rest

-- The end of `parse_record`: the comment without the unit.
unfoldable pub separate : Text → Text → Text
separate [] comment = if text_eq comment [] then [] else comment
separate (u ∷ unit) comment =
    if text_eq comment (u ∷ unit) then [] else erase_first (brackets (u ∷ unit)) comment

abbrev pub is_empty_text : Option ℕ → Bool
is_empty_text (some zero) = true
is_empty_text size = false

-- What the header calls: the functions that touch and edit the HDU, and those of CFITSIO on the
-- current HDU. `none` is a status other than 0, or than that of a missing keyword for `find`.
pub record HeaderCalls : Type 1 where
  pub Stream : Type 0
  pub Value : Type 0
  pub empty_text : Value
  pub is_long : Value → Bool
  pub touch : Method Stream (Unit {0})
  pub edit : Method Stream (Unit {0})
  pub find : Text → Stream → Option Bool
  pub read_card : Text → Stream → Option (Card Value)
  pub write_warning : Stream → Option Stream
  pub write_key : Text → Value → Text → Stream → Option Stream
  pub update_key : Text → Value → Text → Stream → Option Stream
  pub delete_key : Text → Stream → Option Stream

pub data RecordMode : Type 0 where
  create_or_update create_unique create_new update_existing : RecordMode

-- `std::find` in a vector of keywords
abbrev pub lists : List Text → Text → Bool
lists [] keyword = false
lists (k ∷ ks) keyword = if text_eq k keyword then true else lists ks keyword

module _ (c : HeaderCalls) where
  open c use {
    Stream, Value, empty_text, is_long, touch, edit, find, read_card, write_warning, write_key,
    update_key, delete_key,
  }

  pub record Record : Type 0 where
    pub keyword : Text
    pub value : Value
    pub unit : Text
    pub comment : Text

  abbrev pub changed : Option Stream → Method Stream (Unit {0})
  changed none s = (fail fits_error, s)
  changed (some s') s = (ok tt, s')

  abbrev pub told : {A : Type 0} → Option A → Method Stream A
  told none s = (fail fits_error, s)
  told (some a) s = (ok a, s)

  -- `HeaderIo::has_keyword`, `parse_record`, `write_record` and `remove_record`
  unfoldable pub has_keyword : Text → Method Stream Bool
  has_keyword k s = told (find k s) s

  -- The record of a card: an empty text has neither unit nor comment.
  unfoldable pub parsed : Text → Card Value → Record
  unfolding separate
  parsed k card =
      if is_empty_text card.size
      then record { keyword = k; value = empty_text; unit = []; comment = [] }
      else record {
        keyword = k;
        value = card.value;
        unit = card.unit;
        comment = separate card.unit card.comment;
      }

  abbrev pub built : Text → Option (Card Value) → Method Stream Record
  built k none s = (fail fits_error, s)
  built k (some card) s = (ok (parsed k card), s)

  unfoldable pub parse_record : Text → Method Stream Record
  unfolding parsed
  parse_record k s = built k (read_card k s) s

  -- Before a long text `fits_write_key_longwarn` writes the keyword LONGSTRN, once.
  unfoldable pub write_record : Record → Method Stream (Unit {0})
  unfolding raw_comment
  write_record r =
      (if is_long r.value then (λ s. changed (write_warning s) s) else pure tt)
      >> (λ s. changed (write_key r.keyword r.value (raw_comment r.unit r.comment) s) s)

  unfoldable pub remove_record : Text → Method Stream (Unit {0})
  remove_record k s = changed (delete_key k s) s

  -- `HeaderIo::update_record`: a long text is removed and written again.
  unfoldable pub update_record : Record → Method Stream (Unit {0})
  unfolding has_keyword remove_record write_record raw_comment
  update_record r =
      if is_long r.value
      then (do
        exists ← has_keyword r.keyword
        (if exists then remove_record r.keyword else pure tt)
        write_record r)
      else (λ s. changed (update_key r.keyword r.value (raw_comment r.unit r.comment) s) s)

  unfoldable pub has : Text → Method Stream Bool
  unfolding has_keyword
  has k = touch >> has_keyword k

  -- `KeywordExistsError::may_throw` and `KeywordNotFoundError::may_throw`
  unfoldable pub throw_if_exists : Text → Method Stream (Unit {0})
  unfolding has
  throw_if_exists k = do exists ← has k; if exists then throw keyword_exists_error else pure tt

  unfoldable pub throw_if_missing : Text → Method Stream (Unit {0})
  unfolding has
  throw_if_missing k = do exists ← has k; if exists then pure tt else throw keyword_not_found_error

  -- `RecordWriterImpl<Mode>::write`
  unfoldable pub write_as : RecordMode → Record → Method Stream (Unit {0})
  unfolding throw_if_exists throw_if_missing write_record update_record
  write_as create_unique r = throw_if_exists r.keyword >> write_record r
  write_as create_new r = write_record r
  write_as update_existing r = throw_if_missing r.keyword >> update_record r
  write_as create_or_update r = update_record r

  unfoldable pub write : RecordMode → Record → Method Stream (Unit {0})
  unfolding write_as
  write mode r = edit >> write_as mode r

  unfoldable pub write_each : RecordMode → List Record → Method Stream (Unit {0})
  unfolding write_as
  write_each mode [] = pure tt
  write_each mode (r ∷ rs) = write_as mode r >> write_each mode rs

  unfoldable pub write_seq : RecordMode → List Record → Method Stream (Unit {0})
  unfolding write_each
  write_seq mode rs = edit >> write_each mode rs

  -- The loop of `write_seq_in`
  unfoldable pub write_listed : RecordMode → List Text → List Record → Method Stream (Unit {0})
  unfolding write_as
  write_listed mode keywords [] = pure tt
  write_listed mode keywords (r ∷ rs) =
      (if lists keywords r.keyword then write_as mode r else pure tt)
      >> write_listed mode keywords rs

  unfoldable pub write_seq_in : RecordMode → List Text → List Record → Method Stream (Unit {0})
  unfolding write_listed
  write_seq_in mode keywords rs = edit >> write_listed mode keywords rs

  unfoldable pub remove : Text → Method Stream (Unit {0})
  unfolding throw_if_missing remove_record
  remove k = edit >> (throw_if_missing k >> remove_record k)

  unfoldable pub parse : Text → Method Stream Record
  unfolding parse_record
  parse k = touch >> parse_record k

  unfoldable pub parse_or : Record → Method Stream Record
  unfolding has parse
  parse_or fallback = do
    exists ← has fallback.keyword
    if exists then parse fallback.keyword else pure fallback

  unfoldable pub parse_each : List Text → Method Stream (List Record)
  unfolding parse_record
  parse_each [] = pure []
  parse_each (k ∷ ks) = do r ← parse_record k; rs ← parse_each ks; pure (r ∷ rs)

  unfoldable pub parse_seq : List Text → Method Stream (List Record)
  unfolding parse_each
  parse_seq ks = touch >> parse_each ks

  unfoldable pub parse_seq_or : List Record → Method Stream (List Record)
  unfolding parse_or
  parse_seq_or [] = pure []
  parse_seq_or (f ∷ fs) = do r ← parse_or f; rs ← parse_seq_or fs; pure (r ∷ rs)
