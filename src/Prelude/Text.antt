-- ===== src/Prelude/Text.antt =====
-- Texts: Python's str as the native String, len(text) as its number of characters, and f-strings
-- as the concatenation of their parts.
use Prim.Native.Nat.{ℕ, ◌/◌, max}
use Prim.Native.String
use Prim.Native.String.{String}
use mathlib.Core.Bool.{Bool, true, false}
use mathlib.Core.Option.{Option, none, some}
use mathlib.Core.List.{List, [], ◌∷◌}
pub use text.Mathlib.Text.{◌==◌ as str_eq}
pub use text.Mathlib.TextEquality.{eq_iff}
pub use text.Mathlib.TextPositions.{eq_refl}

-- `len(text)`
abbrev pub len : String → ℕ
len s = String.count s

-- An f-string.
abbrev pub cat : List String → String
cat [] = ""
cat (s ∷ ss) = String.◌++◌ s (cat ss)

-- `sep.join(parts)`
abbrev pub join : String → List String → String
join sep [] = ""
join sep (s ∷ []) = s
join sep (s ∷ t ∷ rest) = String.◌++◌ s (String.◌++◌ sep (join sep (t ∷ rest)))

-- A string as a condition: the empty text is false.
abbrev pub truthy : String → Bool
truthy String.[] = false
truthy (String.◌∷◌ c s) = true

-- `text or ""` of a nullable column.
abbrev pub or_empty : Option String → String
or_empty none = ""
or_empty (some s) = s

-- `max(1, len(text) // 4)`
abbrev pub estimate_tokens : String → ℕ
estimate_tokens s = max 1 (len s / 4)

-- `a == b` of two nullable texts.
abbrev pub opt_eq : Option String → Option String → Bool
opt_eq none none = true
opt_eq (some a) (some b) = str_eq a b
opt_eq _ _ = false
