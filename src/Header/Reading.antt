-- ===== src/Header/Reading.antt =====
-- Records that are written and read back.
use ele_fits.Prelude.{◌≡◌, refl, false, some, List, [], ◌∷◌, map}
use ele_fits.Keyword.{Text, text_eq}
use ele_fits.Header.{HeaderCalls, Card, Record, raw_comment, is_empty_text, parsed}
use ele_fits.Header.Cards.{lookup, IsUnique}
use ele_fits.Header.Comments.{separate-raw_comment}
use ele_fits.Header.Writing.{longstrn, Model, stored_record, IsStandard, IsWritable}

module _ (c : HeaderCalls) where
  open c use {Stream, Value}

  abbrev pub keywords : List (Record c) → List Text
  keywords rs = map (λ (r : Record c). r.keyword) rs

  -- No record has the keyword; no two records have one keyword.
  abbrev pub IsOther : Text → List (Record c) → Type 0
  IsOther k [] = Unit
  IsOther k (r ∷ rs) = (text_eq r.keyword k ≡ false) × IsOther k rs

  abbrev pub IsDistinct : List (Record c) → Type 0
  IsDistinct [] = Unit
  IsDistinct (r ∷ rs) = IsOther r.keyword rs × IsDistinct rs

  -- No record has the keyword LONGSTRN.
  abbrev pub AllPlain : List (Record c) → Type 0
  AllPlain rs = IsOther longstrn rs

  module _ (model : Model c) where
    open model use {cards, stored}

    -- Each record is in the header.
    abbrev pub AllThere : List (Record c) → List (Text × Card Value) → Type 0
    AllThere [] cs = Unit
    AllThere (r ∷ rs) cs = (lookup r.keyword cs ≡ some (stored_record c model r)) × AllThere rs cs

    -- What is parsed of the card that CFITSIO stores of a record.
    abbrev pub read_back : Record c → Record c
    read_back r = parsed c r.keyword (stored r.value (raw_comment r.unit r.comment))

    module _ (law : IsStandard c model) (open_file : IsWritable c model) where
      -- All records are there, and no other is changed but LONGSTRN.
      pub record PutsAll (rs : List (Record c)) (s s' : Stream) : Type 0 where
        pub still_unique : IsUnique (cards s')
        pub all_there : AllThere rs (cards s')
        pub others :
            (k : Text)
            → IsOther k rs
            → text_eq longstrn k ≡ false
            → lookup k (cards s') ≡ lookup k (cards s)

      -- Where CFITSIO reads back the value, the unit and the raw comment of a record, and no empty
      -- text, the record is parsed as it was written.
      pub read_back-same :
          (r : Record c)
          → is_empty_text (stored_record c model r).size ≡ false
          → (stored_record c model r).value ≡ r.value
          → (stored_record c model r).unit ≡ r.unit
          → (stored_record c model r).comment ≡ raw_comment r.unit r.comment
          → read_back r ≡ r
      unfolding parsed
      read_back-same r full value unit comment =
          rw (full, value, unit, comment, separate-raw_comment r.unit r.comment) refl
