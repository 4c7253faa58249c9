-- ===== src/Filters/Alignment.antt =====
-- What the database makes of the placeholders.
use context_broker.Prelude.{
  ℕ, zero, suc, ◌+◌, ◌≡◌, refl, sym, ap, ap₂, ◌∙◌, Option, none, some, List, [], ◌∷◌, ◌++◌,
  append_assoc, append-nil, String, arith, length, length-append, map,
}
use context_broker.Filters.{
  Arg, Condition, numbered, literal, Filter, optional, always, build_filters,
}

-- The argument with a number, from 1 on.
abbrev pub get_arg : ℕ → List Arg → Option Arg
get_arg n [] = none
get_arg zero (a ∷ args) = none
get_arg (suc zero) (a ∷ args) = some a
get_arg (suc (suc n)) (a ∷ args) = get_arg (suc n) args

-- A condition with the value that its placeholder stands for.
pub data Bound : Type 0 where
  comparing : String → Option Arg → Bound
  stating : String → Bound

abbrev pub bind_condition : List Arg → Condition → Bound
bind_condition args (numbered condition n) = comparing condition (get_arg n args)
bind_condition args (literal condition) = stating condition

-- What the filters ask for: each one that is given, with its own value.
abbrev pub asked : List Filter → List Bound
asked [] = []
asked (optional condition none ∷ filters) = asked filters
asked (optional condition (some value) ∷ filters) = comparing condition (some value) ∷ asked filters
asked (always condition ∷ filters) = stating condition ∷ asked filters

get_arg-append :
    (base rest : List Arg) (a : Arg) → get_arg (suc (length base)) (base ++ a ∷ rest) ≡ some a
get_arg-append [] rest a = refl
get_arg-append (b ∷ base) rest a = get_arg-append base rest a

-- Where the number of the first placeholder follows the arguments that are there before, the
-- conditions stand for the filters that are given, also with more arguments at the end, and the next
-- number follows all arguments but these.
pub build_filters-asked :
    (base later : List Arg) (idx : ℕ) (filters : List Filter)
    → idx ≡ suc (length base)
    → let (conditions, args, end) = build_filters idx filters in
      (map (bind_condition (base ++ args ++ later)) conditions ≡ asked filters)
      × (end ≡ suc (length (base ++ args)))
unfolding build_filters
build_filters-asked base later idx [] e = (refl, omega (arith, e, ap length (append-nil base)))
build_filters-asked base later idx (optional condition none ∷ filters) e =
    build_filters-asked base later idx filters e
build_filters-asked base later idx (optional condition (some value) ∷ filters) e =
    let rest = (build_filters (idx + 1) filters).1 in
    let (same, end) =
      build_filters-asked (base ++ value ∷ []) later (idx + 1) filters
        (omega (arith, e, length-append base (value ∷ []))) in
    (
      ap₂ (λ b l. b ∷ l)
          (ap (comparing condition) (
            ap₂ get_arg e (append_assoc base (value ∷ rest) later)
            ∙ get_arg-append base (rest ++ later) value))
          (ap (λ l. map (bind_condition (l ++ later)) (build_filters (idx + 1) filters).0)
              (sym (append_assoc base (value ∷ []) rest))
            ∙ same),
      end ∙ ap (λ l. suc (length l)) (append_assoc base (value ∷ []) rest),
    )
build_filters-asked base later idx (always condition ∷ filters) e =
    let (same, end) = build_filters-asked base later idx filters e in
    (ap (λ l. stating condition ∷ l) same, end)

-- The arguments after those of the filters have the next numbers.
pub get_arg_later :
    (base args before after : List Arg) (a : Arg) (end : ℕ)
    → end ≡ suc (length (base ++ args))
    → get_arg (end + length before) (base ++ args ++ (before ++ a ∷ after)) ≡ some a
get_arg_later base args before after a end e =
    ap₂ get_arg (omega (arith, e, length-append (base ++ args) before))
      (sym (append_assoc (base ++ args) before (a ∷ after)))
    ∙ get_arg-append (base ++ args ++ before) after a
