-- ===== src/HduCategory/Meaning.antt =====
-- An HDU as a point: it takes one of the two options of each flag. A category stands for the
-- set of the points that agree with its constrained flags.
use ele_fits.Prelude.{Bool, true, false, List, [], ◌∷◌}
use ele_fits.HduCategory.{HduCategory, Trit, unconstrained, first, second}

abbrev pub Point : Type 0
Point = List Bool

abbrev pub Fits : Bool → Trit → Type 0
Fits b unconstrained = Unit
Fits true first = Unit
Fits true second = ⊥
Fits false first = ⊥
Fits false second = Unit

abbrev pub Satisfies : Point → HduCategory → Type 0
Satisfies [] [] = Unit
Satisfies (b ∷ p) (t ∷ c) = Fits b t × Satisfies p c
Satisfies _ _ = ⊥

-- Every point of `c` is a point of `model`.
abbrev pub Included : HduCategory → HduCategory → Type 0
Included c model = (p : Point) → Satisfies p c → Satisfies p model

abbrev pub some_option : Trit → Bool
some_option second = false
some_option first = true
some_option unconstrained = true

abbrev pub some_point : HduCategory → Point
some_point [] = []
some_point (t ∷ c) = some_option t ∷ some_point c

pub some_option-Fits : (t : Trit) → Fits (some_option t) t
some_option-Fits second = tt
some_option-Fits first = tt
some_option-Fits unconstrained = tt

pub some_point-Satisfies : (c : HduCategory) → Satisfies (some_point c) c
some_point-Satisfies [] = tt
some_point-Satisfies (t ∷ c) = (some_option-Fits t, some_point-Satisfies c)
