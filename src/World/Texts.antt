-- ===== src/World/Texts.antt =====
-- What the services do with the texts that they compare.
use corporate_lawyers_backen.Prelude.{
  ℕ, ◌+◌, ◌-◌, Bool, true, false, [], ◌∷◌, ◌&&◌, ◌==◌, leb, if◌then◌else◌, map,
}
use corporate_lawyers_backen.World.Rows.{Text}

-- `===` on two texts
abbrev pub text_eq : Text → Text → Bool
text_eq [] [] = true
text_eq [] (d ∷ ds) = false
text_eq (c ∷ cs) [] = false
text_eq (c ∷ cs) (d ∷ ds) = c == d && text_eq cs ds

-- A text that is not empty is true in a condition.
abbrev pub is_filled : Text → Bool
is_filled [] = false
is_filled (c ∷ cs) = true

abbrev pub lower_unit : ℕ → ℕ
lower_unit c = if leb 65 c && leb c 90 then c + 32 else c

-- `toLowerCase()`, on an address of ASCII characters
abbrev pub lower : Text → Text
lower = map lower_unit

abbrev pub upper_unit : ℕ → ℕ
upper_unit c = if leb 97 c && leb c 122 then c - 32 else c

-- `toUpperCase()`, on ASCII characters
abbrev pub upper : Text → Text
upper = map upper_unit
