-- ===== src/Pipeline/Roles.antt =====
-- message_pipeline.py: the role, the priority and the recipient of a message.
use Prim.Native.Char.{code}
use context_broker.Prelude.{
  ℕ, Bool, true, false, ◌&&◌, ◌||◌, Option, none, some, List, [], ◌∷◌, String, leb, ◌==◌,
  if◌then◌else◌, str_eq, truthy, any,
}

-- The code points of a text.
abbrev pub codes : String → List ℕ
codes String.[] = []
codes (String.◌∷◌ c s) = code c ∷ codes s

begins_with : List ℕ → List ℕ → Bool
begins_with [] text = true
begins_with (c ∷ cs) [] = false
begins_with (c ∷ cs) (d ∷ ds) = c == d && begins_with cs ds

-- An unanchored alternative: a match at some position of the text.
contains_at : (List ℕ → Bool) → List ℕ → Bool
contains_at matches [] = matches []
contains_at matches (c ∷ cs) = matches (c ∷ cs) || contains_at matches cs

-- `\d+\]`, for the decimal digits of ASCII; `seen` says that a digit was read.
digits_then_bracket : Bool → List ℕ → Bool
digits_then_bracket seen [] = false
digits_then_bracket seen (c ∷ cs) =
    let rest = digits_then_bracket true cs in
    if leb b'0' c && leb c b'9' then rest else (seen && c == b']')

-- `\[Errno \d+\]` at the beginning of the text.
errno_here : List ℕ → Bool
unfolding begins_with digits_then_bracket
errno_here (c₀ ∷ c₁ ∷ c₂ ∷ c₃ ∷ c₄ ∷ c₅ ∷ c₆ ∷ rest) =
    begins_with (codes "[Errno ") (c₀ ∷ c₁ ∷ c₂ ∷ c₃ ∷ c₄ ∷ c₅ ∷ c₆ ∷ [])
    && digits_then_bracket false rest
errno_here _ = false

-- The alternatives of the pattern that are anchored at the beginning.
abbrev pub error_prefixes : List String
error_prefixes =
    "Error writing " ∷ "Error reading " ∷ "Error listing " ∷ "Error updating " ∷ "Error executing "
    ∷ "File not found: " ∷ "Directory not found: " ∷ "Access denied: " ∷ "Search error: "
    ∷ "Query error: " ∷ "Invalid regex: " ∷ "Cannot reach " ∷ "System prompt not found: " ∷ []

-- `_TOOL_ERROR_PATTERN.search(content)`
unfoldable pub tool_error_pattern : String → Bool
unfolding begins_with contains_at errno_here
tool_error_pattern content =
    any (λ p. begins_with (codes p) (codes content)) error_prefixes
    || contains_at (begins_with (codes "Traceback (most recent call last)")) (codes content)
    || contains_at errno_here (codes content)

abbrev pub is_speaker : String → Bool
is_speaker role = str_eq role "user" || str_eq role "assistant"

unfoldable pub detect_tool_error_role : Option String → String → String
unfolding tool_error_pattern
detect_tool_error_role none role = role
detect_tool_error_role (some content) role =
    if truthy content && is_speaker role && tool_error_pattern content then "tool" else role

-- `_ROLE_PRIORITY.get(role, 2)`
unfoldable pub role_priority : String → ℕ
role_priority role =
    if str_eq role "user"
    then 1
    else if str_eq role "assistant"
    then 2
    else if str_eq role "system"
    then 3
    else if str_eq role "tool"
    then 4
    else 2

-- The recipient that a role stands for where none is given.
default_recipient : String → String
default_recipient role =
    if str_eq role "assistant"
    then "user"
    else if str_eq role "user"
    then "assistant"
    else if str_eq role "system"
    then "all"
    else if str_eq role "tool"
    then "assistant"
    else "all"

unfoldable pub resolve_recipient : Option String → String → String
unfolding default_recipient
resolve_recipient none role = default_recipient role
resolve_recipient (some given) role = if truthy given then given else default_recipient role
