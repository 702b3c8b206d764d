-- ===== src/MefFile/Tests.antt =====
-- Instances of the theorems of `MefFile`.
use ele_fits.Prelude.{
  ◌≡◌, refl, arith, inr, Bool, true, false, none, some, List, [], ◌∷◌, map, Outcome, ok, fail,
  fits_error, undefined_behaviour,
}
use ele_fits.Prelude.Int.{pos, negsuc, ◌+ℤ◌}
use ele_fits.MefFile.Access.{HduType, image_hdu, binary_tbl, ascii_tbl, goto_index}
use ele_fits.MefFile.{any_hdu, bintable_target, Action, MefFile, hdu_count, access}
use ele_fits.MefFile.Removal.{remove}
use ele_fits.MefFile.Keeping.{IsTame}
use ele_fits.MefFile.Runs.{appending_image_header, operate}
use ele_fits.MefFile.Accessing.{after_move}
use ele_fits.MefFile.Checksums.{correct, missing, ChecksumCalls}
use ele_fits.MefFile.Wrapping.{access-wraps}
use ele_fits.MefFile.Cached.{access-access, access-outside}
use ele_fits.MefFile.NullHandle.{remove-null}
use ele_fits.MefFile.Simple.{simple, simple-IsStandard}

-- An action that refuses every HDU when it is accessed.
abbrev refusing : Action simple
refusing = record {
  opened = λ p. (ok tt, p);
  accessed = λ p. (fail fits_error, p);
  created = λ p. (ok tt, p);
  closing = λ p. (ok tt, p);
}

refusing-IsTame : IsTame simple refusing.accessed
refusing-IsTame = record { index = λ h s. refl; handler = λ h s. refl; same_types = λ h s. refl }

abbrev closed_file : List HduType → List (Action simple) → MefFile simple
closed_file extensions actions = record {
  hdus = none ∷ map (λ t. none) extensions;
  actions = actions;
  stream = record { extensions = extensions; at = 0 };
}

abbrev survey : MefFile simple
survey = closed_file (binary_tbl ∷ image_hdu ∷ []) (refusing ∷ [])

abbrev with_ascii : MefFile simple
with_ascii = closed_file (binary_tbl ∷ ascii_tbl ∷ []) []

abbrev unread : MefFile simple
unread = closed_file (binary_tbl ∷ image_hdu ∷ []) []

refused_first : (access simple bintable_target (negsuc 1) survey).0 ≡ fail fits_error
unfolding access ◌+ℤ◌
refused_first = refl

access-access_example :
    let m' = (access simple bintable_target (negsuc 1) survey).1 in
    access simple bintable_target (negsuc 1) m' ≡ (ok 1, after_move simple (pos 1) m')
unfolding ◌+ℤ◌ hdu_count
access-access_example =
    access-access simple bintable_target (negsuc 1) 1 binary_tbl survey simple-IsStandard tt
      (refusing-IsTame, tt) (refl, omega arith) refl (λ e. cc) refl

access-outside_example : access simple any_hdu (pos 3) survey ≡ (fail fits_error, survey)
unfolding hdu_count
access-outside_example =
    access-outside simple any_hdu (pos 3) survey simple-IsStandard tt (omega arith, omega arith)
      (inr (omega arith))

remove-null_example : remove simple tt (pos 1) unread ≡ (
  fail undefined_behaviour,
  record unread { stream = record { extensions = image_hdu ∷ []; at = 0 } },
)
unfolding goto_index ◌+ℤ◌
remove-null_example =
    remove-null simple tt 0 2 unread (record { extensions = image_hdu ∷ []; at = 0 })
      simple-IsStandard tt (omega arith) refl refl

-- An image is appended to the file, and the HDU of index 2 is accessed.
abbrev grown : MefFile simple
grown = (operate simple (appending_image_header tt tt) survey).1

is_undefined : Outcome (Unit {0}) → Bool
is_undefined (fail undefined_behaviour) = true
is_undefined _ = false

-- The HDUs have no checksums, and writes of keywords leave the types.
abbrev unsigned : ChecksumCalls simple
unsigned = record {
  verify = λ s. (missing, correct);
  has_checksum = λ s. ok false;
  has_datasum = λ s. ok true;
  write_checksums = λ s. some s;
  write_history = λ s. some s;
}

access-wraps_example : (access simple any_hdu (pos 4294967297) survey).0 ≡ fail undefined_behaviour
access-wraps_example =
    access-wraps simple any_hdu 1 binary_tbl survey simple-IsStandard tt refl (λ e. cc)
