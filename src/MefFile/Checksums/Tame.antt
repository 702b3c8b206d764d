-- ===== src/MefFile/Checksums/Tame.antt =====
-- The actions of the library change neither the index of a handle, nor its class, nor the types of
-- HDUs.
use ele_fits.Prelude.{
  ◌≡◌, refl, ◌∙◌, inl, inr, Bool, true, false, not, ◌||◌, Bool-cases, Option, none, some,
  if◌then◌else◌, Outcome, ok, fail, fits_error,
}
use ele_fits.Prelude.Int.{ℤ, to_int, pos, ◌-ℤ◌, ◌==ℤ◌}
use ele_fits.Prelude.Methods.{Method, pure, throw, and_then, ◌>>=◌, ◌>>◌}
use ele_fits.HduCategory.Constants.{edited}
use ele_fits.HduFilter.{of_category}
use ele_fits.Hdu.{Hdu, touch, edit, matches}
use ele_fits.MefFile.Access.{Cfitsio, goto_index, IsStandard}
use ele_fits.MefFile.{reach}
use ele_fits.MefFile.Keeping.{IsTame, call_case}
use ele_fits.MefFile.Matching.{
  IsSame, Returns, ReturnsWith, touch-Returns, edit-Returns, matches-ReturnsWith,
}
use ele_fits.MefFile.Checksums.{
  ChecksumStatus, is_incorrect, UpdateChecksums, no_update, outdated, edited_hdu, any_hdu,
  ChecksumCalls, arrive, touch_hdu, edit_hdu, arrive_with, verify_checksums, changes,
  update_checksums, is_edited, has_checksums, verify_accessed, update_if, verify_closing,
  cite_closing,
}

module _ (c : Cfitsio) (law : IsStandard c) where
  open c use {Stream, types, current, move, contents}

  -- The handle has the same index and class, and the HDUs the same types.
  abbrev Stays : Hdu × Stream → Hdu × Stream → Type 0
  Stays p q = IsSame p.0 q.0 × (types q.1 ≡ types p.1)

  abbrev IsCalm : {A : Type 0} → Method (Hdu × Stream) A → Type 0
  IsCalm f = (p : Hdu × Stream) → Stays p (f p).1

  pure-IsCalm : {A : Type 0} (a : A) → IsCalm (pure a)
  pure-IsCalm a p = ((refl, refl), refl)

  bind-IsCalm :
      {A B : Type 0} (f : Method (Hdu × Stream) A) (g : A → Method (Hdu × Stream) B)
      → IsCalm f
      → ((a : A) → IsCalm (g a))
      → IsCalm (f >>= g)
  bind-IsCalm {A = A} {B = B} f g calm calm' p = after (f p) (calm p)
    where
      after : (r : Outcome A × (Hdu × Stream)) → Stays p r.1 → Stays p (and_then g r).1
      after (fail e, q) h = h
      after (ok a, q) h = let h' = calm' a q in ((h'.0.0 ∙ h.0.0, h'.0.1 ∙ h.0.1), h'.1 ∙ h.1)

  goto_types : (i : ℤ) (s : Stream) → types (goto_index c i s).1 ≡ types s
  unfolding goto_index
  goto_types i s = elim (Bool-cases (i ==ℤ current s)) [
    | inl e ↦ rw e refl
    | inr e ↦ rw e (call_case c (move (to_int i) s) s (law.move_types (to_int i) s))
  ]

  arrive-Stays :
      (o : Outcome Hdu) (h : Hdu) (s : Stream) → Returns h o → Stays (h, s) (arrive c o (h, s)).1
  arrive-Stays (fail e) h s r = ((refl, refl), refl)
  arrive-Stays (ok h') h s r = (r, goto_types h'.cfitsio_index s)

  touch_hdu-IsCalm : IsCalm (touch_hdu c)
  unfolding touch_hdu
  touch_hdu-IsCalm (h, s) =
      arrive-Stays (touch (reach c s) h) h s (touch-Returns (reach c s) h h (refl, refl))

  edit_hdu-IsCalm : IsCalm (edit_hdu c)
  unfolding edit_hdu
  edit_hdu-IsCalm (h, s) =
      arrive-Stays (edit (reach c s) h) h s (edit-Returns (reach c s) h h (refl, refl))

  arrive_with-Stays :
      (o : Outcome (Bool × Hdu)) (h : Hdu) (s : Stream)
      → ReturnsWith h o
      → Stays (h, s) (arrive_with c o (h, s)).1
  arrive_with-Stays (fail e) h s r = ((refl, refl), refl)
  arrive_with-Stays (ok (b, h')) h s r =
      answered (goto_index c h'.cfitsio_index s) (goto_types h'.cfitsio_index s)
    where
      answered :
          (q : Outcome (Unit {0}) × Stream)
          → types q.1 ≡ types s
          → Stays (h, s) (and_then (λ _. pure b) (q.0, (h', q.1))).1
      answered (fail e, s') same = (r, same)
      answered (ok tt, s') same = (r, same)

  module _ (k : ChecksumCalls c) where
    open k use {verify, has_checksum, has_datasum, write_checksums, write_history}

    -- CFITSIO writes keywords, and no HDU has another type then.
    pub record KeepsTypes : Type 0 where
      pub checksums_types : (s s' : Stream) → write_checksums s ≡ some s' → types s' ≡ types s
      pub history_types : (s s' : Stream) → write_history s ≡ some s' → types s' ≡ types s

    changes-IsCalm :
        (f : Stream → Option Stream)
        → ((s s' : Stream) → f s ≡ some s' → types s' ≡ types s)
        → IsCalm (changes c k f)
    changes-IsCalm f keeps (h, s) = ((refl, refl), call_case c (f s) s (keeps s))

    is_edited-IsCalm : IsCalm (is_edited c k)
    unfolding is_edited
    is_edited-IsCalm (h, s) =
        arrive_with-Stays (matches (reach c s) (contents s) (of_category edited) h) h s
          (matches-ReturnsWith (reach c s) (contents s) (of_category edited) h)

    has_checksums-IsCalm : IsCalm (has_checksums c k)
    unfolding has_checksums
    has_checksums-IsCalm = bind-IsCalm (touch_hdu c) _ touch_hdu-IsCalm (λ _.
        bind-IsCalm (λ p. (has_checksum p.1, p)) _ (λ p. ((refl, refl), refl))
          (λ first. rest first))
      where
        rest :
            (first : Bool)
            → IsCalm (if first then pure true else (touch_hdu c >> λ p. (has_datasum p.1, p)))
        rest true = pure-IsCalm true
        rest false = bind-IsCalm (touch_hdu c) _ touch_hdu-IsCalm (λ _ p. ((refl, refl), refl))

    verify_checksums-IsCalm : IsCalm (verify_checksums c k)
    unfolding verify_checksums
    verify_checksums-IsCalm =
        bind-IsCalm (touch_hdu c) _ touch_hdu-IsCalm (λ _ p. ((refl, refl), refl))

    reported-IsCalm : (b : Bool) → IsCalm {A = Unit} (if b then throw fits_error else pure tt)
    reported-IsCalm true p = ((refl, refl), refl)
    reported-IsCalm false p = ((refl, refl), refl)

    verify_accessed-IsCalm : IsCalm (verify_accessed c k)
    unfolding verify_accessed
    verify_accessed-IsCalm =
        bind-IsCalm (verify_checksums c k) _ verify_checksums-IsCalm (λ e. caught e)
      where
        caught :
            (e : Option (ChecksumStatus × ChecksumStatus))
            → IsCalm (elim e [
              | none ↦ pure tt
              | some (hdu, unit) ↦
                  (if is_incorrect hdu || is_incorrect unit then throw fits_error else pure tt)
            ])
        caught none = pure-IsCalm tt
        caught (some (hdu, unit)) = reported-IsCalm (is_incorrect hdu || is_incorrect unit)

    module _ (keeps : KeepsTypes) where
      update_if-IsCalm : (b : Bool) → IsCalm (update_if c k b)
      unfolding update_checksums
      update_if-IsCalm true =
          bind-IsCalm (edit_hdu c) _ edit_hdu-IsCalm
            (λ _. changes-IsCalm write_checksums keeps.checksums_types)
      update_if-IsCalm false = pure-IsCalm tt

      verify_closing-IsCalm : (mode : UpdateChecksums) → IsCalm (verify_closing c k mode)
      unfolding verify_closing
      verify_closing-IsCalm no_update = pure-IsCalm tt
      verify_closing-IsCalm outdated = bind-IsCalm (is_edited c k) _ is_edited-IsCalm (λ e.
          bind-IsCalm (if e then has_checksums c k else pure false) _ (asked e) update_if-IsCalm)
        where
          asked : (e : Bool) → IsCalm (if e then has_checksums c k else pure false)
          asked true = has_checksums-IsCalm
          asked false = pure-IsCalm false
      verify_closing-IsCalm edited_hdu =
          bind-IsCalm (is_edited c k) _ is_edited-IsCalm update_if-IsCalm
      verify_closing-IsCalm any_hdu = bind-IsCalm (is_edited c k) _ is_edited-IsCalm (λ e.
          bind-IsCalm (if e then pure true else (has_checksums c k >>= λ b. pure (not b))) _
            (asked e) update_if-IsCalm)
        where
          asked :
              (e : Bool)
              → IsCalm (if e then pure true else (has_checksums c k >>= λ b. pure (not b)))
          asked true = pure-IsCalm true
          asked false =
              bind-IsCalm (has_checksums c k) _ has_checksums-IsCalm (λ b. pure-IsCalm (not b))

      cite_closing-IsCalm : IsCalm (cite_closing c k)
      unfolding cite_closing
      cite_closing-IsCalm (h, s) = elim (Bool-cases ((h.cfitsio_index -ℤ pos 1) ==ℤ pos 0)) [
        | inl e ↦ rw e (
            bind-IsCalm (edit_hdu c) (λ _. changes c k write_history) edit_hdu-IsCalm
              (λ _. changes-IsCalm write_history keeps.history_types) (h, s))
        | inr e ↦ rw e ((refl, refl), refl)
      ]

      tame : (f : Method (Hdu × Stream) (Unit {0})) → IsCalm f → IsTame c f
      tame f calm = record {
        index = λ h s. (calm (h, s)).0.0;
        handler = λ h s. (calm (h, s)).0.1;
        same_types = λ h s. (calm (h, s)).1;
      }

      -- None of the calls of `VerifyChecksums`, in any mode of update, and of `CiteEleFits` changes the
      -- index or the class of the handle, or the type of any HDU, whether it returns or throws, if
      -- CFITSIO moves as it documents and writes of checksums and history keep the types.
      pub actions-IsTame :
          (mode : UpdateChecksums)
          → IsTame c (verify_accessed c k)
            × IsTame c (verify_closing c k mode)
            × IsTame c (cite_closing c k)
      actions-IsTame mode = (
        tame (verify_accessed c k) verify_accessed-IsCalm,
        tame (verify_closing c k mode) (verify_closing-IsCalm mode),
        tame (cite_closing c k) cite_closing-IsCalm,
      )
