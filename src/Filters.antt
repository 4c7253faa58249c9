-- ===== src/Filters.antt =====
-- The WHERE clauses that the flows put together for the filters that are given: a condition gets the
-- next number for its placeholder, and its value goes to the arguments.
pub mod Alignment
use context_broker.Prelude.{
  ℕ, zero, suc, ◌+◌, ◌-◌, Bool, Option, none, some, List, [], ◌∷◌, String, if◌then◌else◌, truthy,
}

-- An argument of a query, as the driver gets it.
pub data Arg : Type 0 where
  text : String → Arg
  uuid : ℕ → Arg
  time : ℕ → Arg
  number : ℕ → Arg

-- A condition of the clause, with the number after its $; or one without a placeholder.
pub data Condition : Type 0 where
  numbered : String → ℕ → Condition
  literal : String → Condition

-- A filter of the source: a condition that is added where its value is there, or always.
pub data Filter : Type 0 where
  optional : String → Option Arg → Filter
  always : String → Filter

-- The conditions, the arguments and the next number, from a first number on.
unfoldable pub build_filters : ℕ → List Filter → List Condition × List Arg × ℕ
build_filters idx [] = ([], [], idx)
build_filters idx (optional condition none ∷ filters) = build_filters idx filters
build_filters idx (optional condition (some value) ∷ filters) =
    let (conditions, args, end) = build_filters (idx + 1) filters in
    (numbered condition idx ∷ conditions, value ∷ args, end)
build_filters idx (always condition ∷ filters) =
    let (conditions, args, end) = build_filters idx filters in
    (literal condition ∷ conditions, args, end)

-- `if state.get(key):`
abbrev pub when_given : (String → Arg) → Option String → Option Arg
when_given arg none = none
when_given arg (some value) = if truthy value then some (arg value) else none
