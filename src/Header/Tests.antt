-- ===== src/Header/Tests.antt =====
-- Headers as lists of cards, and instances of the theorems.
use ele_fits.Prelude.{
  ℕ, ◌≡◌, refl, true, Bool, Option, none, some, List, [], ◌∷◌, ◌++◌, ltb, ok, fail,
  keyword_exists_error, arith,
}
use ele_fits.Prelude.Int.{negsuc, ◌≤ℤ◌}
use ele_fits.Prelude.Methods.{pure}
use ele_fits.Keyword.{Text}
use ele_fits.Header.{HeaderCalls, Card, Record, create_unique, create_or_update, write_seq}
use ele_fits.Header.Cards.{has_card, lookup, without, put, IsUnique}
use ele_fits.Header.Writing.{longstrn, warned, Model, IsStandard}
use ele_fits.Header.Unique.{writing_seq, change, change-IsUnique}
use ele_fits.Header.IntTypes.{int_type, is_signed, highest, Holds, IntType, int_type-Holds}

abbrev Cards : Type 0
Cards = List (Text × Card ℕ)

-- The card of a value and a raw comment, without a unit.
abbrev card : ℕ → Text → Card ℕ
card v t = record { size = none; value = v; unit = []; comment = t }

abbrev warning_card : Card ℕ
warning_card = card 0 []

-- Values above 100 stand for long texts.
abbrev listed_calls : HeaderCalls
listed_calls = record {
  Stream = Cards;
  Value = ℕ;
  empty_text = 0;
  is_long = λ v. ltb 100 v;
  touch = pure tt;
  edit = pure tt;
  find = λ k s. some (has_card k s);
  read_card = λ k s. lookup k s;
  write_warning = λ s. some (warned warning_card s);
  write_key = λ k v t s. some (s ++ ((k, card v t) ∷ []));
  update_key = λ k v t s. some (put k (card v t) s);
  delete_key = λ k s. some (without k s);
}

abbrev listed : Model listed_calls
listed = record { cards = λ s. s; stored = card; warning = warning_card }

some_cards : {s s' : Cards} → ◌≡◌ {A = Option Cards} (some s) (some s') → s' ≡ s
some_cards e = cc

some_answer : {b b' : Bool} → ◌≡◌ {A = Option Bool} (some b) (some b') → b ≡ b'
some_answer e = cc

listed-IsStandard : IsStandard listed_calls listed
listed-IsStandard = record {
  touches = λ s. refl;
  edits = λ s. refl;
  finds = λ k s b e. some_answer e;
  warns = λ s s' e. some_cards e;
  writes = λ k v t s s' e. some_cards e;
  updates = λ k v t s s' e. some_cards e;
  deletes = λ k s s' e. some_cards e;
}

abbrev key : ℕ → Text
key n = n ∷ []

abbrev made : ℕ → ℕ → Record listed_calls
made k v = record { keyword = key k; value = v; unit = []; comment = [] }

abbrev old_header : Cards
old_header = (key 1, card 10 []) ∷ (key 2, card 20 []) ∷ (key 3, card 30 []) ∷ []

-- A value that is replaced, a long text, and a new keyword.
abbrev records : List (Record listed_calls)
records = made 1 11 ∷ made 2 200 ∷ made 4 40 ∷ []

written : write_seq listed_calls create_or_update records old_header ≡ (
  ok tt,
  (key 1, card 11 [])
      ∷ (key 3, card 30 [])
      ∷ (longstrn, warning_card)
      ∷ (key 2, card 200 [])
      ∷ (key 4, card 40 [])
      ∷ [],
)
unfolding write_seq
written = refl

-- The records before the one that exists are written.
half_written :
    write_seq listed_calls create_unique (made 5 50 ∷ made 3 31 ∷ []) old_header
    ≡ (fail keyword_exists_error, old_header ++ ((key 5, card 50 []) ∷ []))
unfolding write_seq
half_written = refl

change-IsUnique_example :
    IsUnique (change listed_calls (writing_seq create_unique records) old_header).1
change-IsUnique_example =
    change-IsUnique listed_calls listed listed-IsStandard (writing_seq create_unique records)
      old_header (λ e. cc) (refl, (refl, (refl, tt))) (refl, (refl, (refl, tt)))

int_type-Holds_example :
    Holds (int_type true (negsuc 199)) (negsuc 199)
    × (is_signed (int_type true (negsuc 199)) ≡ true)
    × ((t : IntType)
        → is_signed t ≡ true
        → Holds t (negsuc 199)
        → highest (int_type true (negsuc 199)) ≤ℤ highest t)
int_type-Holds_example = int_type-Holds true (negsuc 199) (omega arith, omega arith)

-- Of two cards of a keyword, a long text replaces the first by a card at the end, so that the other
-- is read then.
abbrev twice : Cards
twice = (key 1, card 10 []) ∷ (key 1, card 11 []) ∷ []

stale_value :
    write_seq listed_calls create_or_update (made 1 200 ∷ []) twice
    ≡ (ok tt, (key 1, card 11 []) ∷ (longstrn, warning_card) ∷ (key 1, card 200 []) ∷ [])
unfolding write_seq
stale_value = refl
