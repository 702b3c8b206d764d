-- ===== src/MefFile/Consistent.antt =====
-- The handles of a file stand at their places: lists of them, and the types of the HDUs.
use ele_fits.Prelude.{
  ◌≡◌, refl, ◌∙◌, sym, ap, arith, ℕ, zero, suc, ◌+◌, Option, none, some, List, [], ◌∷◌, ◌++◌,
  length, get_elem?, set,
}
use ele_fits.Prelude.Int.{pos}
use ele_fits.Hdu.{Hdu}
use ele_fits.MefFile.Access.{HduType, Cfitsio}
use ele_fits.MefFile.{handler_of, MefFile}

-- From index `i` on, the file has one handle or null pointer for each HDU, and the handle has the
-- index of the HDU and the class for its type.
abbrev pub Placed : ℕ → List (Option Hdu) → List HduType → Type 0
Placed i [] [] = Unit
Placed i (none ∷ hs) (t ∷ ts) = Placed (suc i) hs ts
Placed i (some h ∷ hs) (t ∷ ts) =
    (h.cfitsio_index ≡ pos (suc i)) × (h.handler ≡ handler_of t) × Placed (suc i) hs ts
Placed _ _ _ = ⊥

next_index : (i j : ℕ) → pos (suc (suc i + j)) ≡ pos (suc (i + suc j))
next_index i j = ap pos (omega arith)

first_index : (i : ℕ) → pos (suc (i + 0)) ≡ pos (suc i)
first_index i = ap pos (omega arith)

some_inj : {t t' : HduType} → ◌≡◌ {A = Option HduType} (some t') (some t) → t' ≡ t
some_inj e = cc

pub Placed-length :
    (i : ℕ) (hs : List (Option Hdu)) (ts : List HduType) → Placed i hs ts → length hs ≡ length ts
Placed-length i [] [] p = refl
Placed-length i [] (t ∷ ts) p = absurd p
Placed-length i (none ∷ hs) (t ∷ ts) p = ap suc (Placed-length (suc i) hs ts p)
Placed-length i (some h ∷ hs) (t ∷ ts) p = ap suc (Placed-length (suc i) hs ts p.2)
Placed-length i (none ∷ hs) [] p = absurd p
Placed-length i (some h ∷ hs) [] p = absurd p

-- A handle in the list.
pub Placed-get :
    (i j : ℕ) (hs : List (Option Hdu)) (ts : List HduType) (h : Hdu)
    → Placed i hs ts
    → get_elem? hs j ≡ some (some h)
    → (t : HduType) × (get_elem? ts j ≡ some t)
      × (h.cfitsio_index ≡ pos (suc (i + j)))
      × (h.handler ≡ handler_of t)
Placed-get i j [] ts h p e = cc
Placed-get i j (none ∷ hs) [] h p e = absurd p
Placed-get i j (some g ∷ hs) [] h p e = absurd p
Placed-get i zero (none ∷ hs) (t ∷ ts) h p e = cc
Placed-get i zero (some g ∷ hs) (t ∷ ts) h p e = (t, refl, ground arith, ground arith)
Placed-get i (suc j) (none ∷ hs) (t ∷ ts) h p e =
    let (t', at, placed, classed) = Placed-get (suc i) j hs ts h p e in
    (t', at, placed ∙ next_index i j, classed)
Placed-get i (suc j) (some g ∷ hs) (t ∷ ts) h p e =
    let (t', at, placed, classed) = Placed-get (suc i) j hs ts h p.2 e in
    (t', at, placed ∙ next_index i j, classed)

pub Placed-set :
    (i j : ℕ) (hs : List (Option Hdu)) (ts : List HduType) (h : Hdu) (t : HduType)
    → Placed i hs ts
    → get_elem? ts j ≡ some t
    → h.cfitsio_index ≡ pos (suc (i + j))
    → h.handler ≡ handler_of t
    → Placed i (set hs j (some h)) ts
Placed-set i j [] ts h t p at placed classed = p
Placed-set i j (none ∷ hs) [] h t p at placed classed = absurd p
Placed-set i j (some g ∷ hs) [] h t p at placed classed = absurd p
Placed-set i zero (none ∷ hs) (t' ∷ ts) h t p at placed classed =
    (placed ∙ first_index i, classed ∙ ap handler_of (sym (some_inj at)), p)
Placed-set i zero (some g ∷ hs) (t' ∷ ts) h t p at placed classed =
    (placed ∙ first_index i, classed ∙ ap handler_of (sym (some_inj at)), p.2)
Placed-set i (suc j) (none ∷ hs) (t' ∷ ts) h t p at placed classed =
    Placed-set (suc i) j hs ts h t p at (placed ∙ sym (next_index i j)) classed
Placed-set i (suc j) (some g ∷ hs) (t' ∷ ts) h t p at placed classed =
    (p.0, p.1, Placed-set (suc i) j hs ts h t p.2 at (placed ∙ sym (next_index i j)) classed)

pub Placed-append :
    (i : ℕ) (hs : List (Option Hdu)) (ts : List HduType) (h : Hdu) (t : HduType)
    → Placed i hs ts
    → h.cfitsio_index ≡ pos (suc (i + length hs))
    → h.handler ≡ handler_of t
    → Placed i (hs ++ (some h ∷ [])) (ts ++ (t ∷ []))
Placed-append i [] [] h t p placed classed = (placed ∙ first_index i, classed, tt)
Placed-append i [] (t' ∷ ts) h t p placed classed = absurd p
Placed-append i (none ∷ hs) [] h t p placed classed = absurd p
Placed-append i (some g ∷ hs) [] h t p placed classed = absurd p
Placed-append i (none ∷ hs) (t' ∷ ts) h t p placed classed =
    Placed-append (suc i) hs ts h t p (placed ∙ sym (next_index i (length hs))) classed
Placed-append i (some g ∷ hs) (t' ∷ ts) h t p placed classed = (
  p.0,
  p.1,
  Placed-append (suc i) hs ts h t p.2 (placed ∙ sym (next_index i (length hs))) classed,
)

module _ (c : Cfitsio) where
  -- The handles of a file stand at their places.
  abbrev pub IsConsistent : MefFile c → Type 0
  IsConsistent m = Placed 0 m.hdus (c.types m.stream)
