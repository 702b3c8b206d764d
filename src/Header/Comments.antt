-- ===== src/Header/Comments.antt =====
-- Units and comments of the records of EleFitsData/EleFitsData/impl/Record.hpp and
-- EleCfitsioWrapper/EleCfitsioWrapper/impl/HeaderWrapper.hpp.
use ele_fits.Prelude.{
  ◌≡◌, refl, ap, ◌≢◌, inl, inr, arith, true, false, Bool-cases, ℕ, [], ◌∷◌, ◌++◌, length,
  length-append, drop,
}
use ele_fits.Keyword.{Text, text_eq}
use ele_fits.Header.{brackets, raw_comment, starts_with, erase_first, separate}
use ele_fits.Header.Cards.{text_eq_iff}

starts_with-append : (match rest : Text) → starts_with match (match ++ rest) ≡ true
starts_with-append [] rest = refl
starts_with-append (m ∷ match) rest = ground (arith, starts_with-append match rest)

drop-append : (match rest : Text) → drop (length match) (match ++ rest) ≡ rest
drop-append [] rest = refl
drop-append (m ∷ match) rest = drop-append match rest

erase_first-append :
    (m : ℕ) (match rest : Text) → erase_first (m ∷ match) ((m ∷ match) ++ rest) ≡ rest
erase_first-append m match rest =
    rw (starts_with-append (m ∷ match) rest) (drop-append (m ∷ match) rest)

longer : (unit comment : Text) → text_eq (brackets unit ++ comment) unit ≡ false
longer unit comment = elim (Bool-cases (text_eq (brackets unit ++ comment) unit)) [
  | inl e ↦ absurd (too_long (ap length ((text_eq_iff (brackets unit ++ comment) unit).0 e)))
  | inr e ↦ e
]
  where
    too_long : length (brackets unit ++ comment) ≢ length unit
    too_long h =
        omega (arith, h, length-append (brackets unit) comment, length-append unit (93 ∷ 32 ∷ []))

pub separate-raw_comment :
    (unit comment : Text) → separate unit (raw_comment unit comment) ≡ comment
unfolding separate raw_comment
separate-raw_comment [] [] = refl
separate-raw_comment [] (x ∷ comment) = refl
separate-raw_comment (u ∷ unit) comment =
    rw (longer (u ∷ unit) comment) (erase_first-append 91 ((u ∷ unit) ++ (93 ∷ 32 ∷ [])) comment)
