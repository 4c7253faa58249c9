-- ===== src/Retrieval/Budget.antt =====
-- The context that a retrieval assembles, and the token budget.
use context_broker.Prelude.{
  ℕ, ◌+◌, ◌-◌, ◌≤◌, ◌<◌, ◌≡◌, ◌∙◌, refl, sym, ap, inl, inr, true, false, Option, none, some, List,
  [], ◌∷◌, ◌++◌, arith, ltb, if◌then◌else◌, Bool-cases, is_some, map, reverse, total, total-append,
  All, All-reverse, reverse-cons, reverse-append, reverse-reverse, append-nil, append_assoc, max,
  estimate_tokens, head?, get_last?, head?-reverse,
}
use context_broker.Floats.{Floats}
use context_broker.Store.{Message, Db, type_error, Outcome, returned, raised}
use context_broker.Retrieval.State.{RetrievalState, RetrievalExternal, ContextMessage}
use context_broker.Retrieval.Context.{
  fit_recent, content_tokens, context_tokens, context_message, remaining_for, summary_messages,
  with_context, ret_assemble_context,
}

-- The loop kept a first part of the messages that it was given, newest first, within the limit.
abbrev pub Fits : ℕ → ℕ → List Message → List Message → Type 0
Fits limit used kept ns =
    (live rest : List Message) × (ns ≡ live ++ rest)
    × (fit_recent (some limit) used kept ns ≡ some (reverse live ++ kept))
    × (used + total content_tokens live ≤ limit)

pub fit_recent-Fits :
    (limit used : ℕ) (kept ns : List Message)
    → used ≤ limit
    → All (λ m. is_some m.content ≡ true) ns
    → Fits limit used kept ns
unfolding fit_recent
fit_recent-Fits limit used kept [] h c = ([], [], refl, refl, omega arith)
fit_recent-Fits limit used kept (m ∷ ns) h c =
    rw c.0 (elim (Bool-cases (ltb limit (used + content_tokens m))) [
      | inl over ↦ ([], m ∷ ns, refl, rw over refl, omega arith)
      | inr fits ↦
          longer fits (
            fit_recent-Fits limit (used + content_tokens m) (m ∷ kept) ns (ground (arith, fits))
              c.1)
    ])
  where
    longer :
        ltb limit (used + content_tokens m) ≡ false
        → Fits limit (used + content_tokens m) (m ∷ kept) ns
        → (live rest : List Message) × (m ∷ ns ≡ live ++ rest)
          × ((if ltb limit (used + content_tokens m)
                then some kept
                else fit_recent (some limit) (used + content_tokens m) (m ∷ kept) ns)
              ≡ some (reverse live ++ kept))
          × (used + total content_tokens live ≤ limit)
    longer fits (live, rest, e, k, b) =
        (m ∷ live, rest, ap (λ l. m ∷ l) e, rw (fits, reverse-cons, append_assoc) k, omega arith)

context_tokens-map :
    (ms : List Message) → context_tokens (map context_message ms) ≡ total content_tokens ms
context_tokens-map [] = refl
context_tokens-map (m ∷ ms) = omega (arith, context_tokens-map ms)

content_tokens-reverse :
    (ms : List Message) → total content_tokens (reverse ms) ≡ total content_tokens ms
content_tokens-reverse [] = refl
content_tokens-reverse (m ∷ ms) =
    rw reverse-cons
      (omega (arith, total-append content_tokens (reverse ms) (m ∷ []), content_tokens-reverse ms))

pub kept_last :
    (ms live rest : List Message)
    → reverse ms ≡ live ++ rest
    → ms ≡ reverse rest ++ (reverse live ++ [])
kept_last ms live rest e =
    sym (reverse-reverse ms)
    ∙ ap reverse e
    ∙ reverse-append live rest
    ∙ ap (λ l. reverse rest ++ l) (sym (append-nil (reverse live)))

pub context_bound :
    (budget : ℕ) (front : List ContextMessage) (live : List Message)
    → 0 + total content_tokens live ≤ budget - context_tokens front
    → context_tokens (front ++ map context_message (reverse live ++ []))
      ≤ max budget (context_tokens front)
context_bound budget front live h = rw (append-nil (reverse live)) (
    omega (
      arith,
      h,
      context_tokens-map (reverse live),
      content_tokens-reverse live,
      total-append (λ m. estimate_tokens m.content) front (map context_message (reverse live)),
    ))

-- The outcome is a context: the summaries' messages, then a last part of the recent messages in their
-- order; and it takes no more tokens than the budget, or than the summaries' messages alone.
abbrev pub IsAssembled : {F : Type 0} → RetrievalState F → Outcome (RetrievalState F) × Db → Type 0
IsAssembled s (returned t, db) =
    let front = summary_messages s.tier3_summary s.tier2_summaries in
    (older kept : List Message) × (s.recent_messages ≡ older ++ kept)
    × (t.context_messages ≡ some (front ++ map context_message kept))
    × (context_tokens (front ++ map context_message kept)
        ≤ max s.max_token_budget (context_tokens front))
IsAssembled s (raised e, db) = ⊥

module _ (f : Floats) (ext : RetrievalExternal (f.Float)) where
  open f use {Float}

  -- With a positive budget and recent messages that all have a content, `ret_assemble_context`
  -- returns a context: the messages of the two upper tiers, then a last part of the recent messages in
  -- their order. Together they are estimated at no more tokens than the budget, or than the upper
  -- tiers alone where these exceed it.
  pub ret_assemble_context-IsAssembled :
      (s : RetrievalState Float) (db : Db)
      → 0 < s.max_token_budget
      → All (λ m. is_some m.content ≡ true) s.recent_messages
      → IsAssembled s (ret_assemble_context f ext s db)
  unfolding ret_assemble_context with_context
  ret_assemble_context-IsAssembled s db pos c =
      let front = summary_messages s.tier3_summary s.tier2_summaries in
      let budget = s.max_token_budget in
      let (live, rest, e, k, b) =
        fit_recent-Fits (budget - context_tokens front) 0 [] (reverse s.recent_messages)
          (omega arith) (All-reverse _ s.recent_messages c) in
      let limited : remaining_for budget (context_tokens front)
          ≡ some (budget - context_tokens front) =
        ground arith in
      rw limited (
        rw k (
          reverse rest,
          reverse live ++ [],
          kept_last s.recent_messages live rest e,
          refl,
          context_bound budget front live b,
        ))

  fit_recent_null :
      (remaining : Option ℕ) (m : Message) (ns : List Message)
      → head? ns ≡ some m
      → m.content ≡ none
      → fit_recent remaining 0 [] ns ≡ none
  unfolding fit_recent
  fit_recent_null remaining m [] h e = absurd (cc (h))
  fit_recent_null remaining m (n ∷ ns) h e =
      let same : n ≡ m = cc (h) in
      let null : n.content ≡ none = ap (λ x. x.content) same ∙ e in rw null refl

  -- Where the newest of the recent messages has no content, as a call of a tool has, the assembly of
  -- the context raises a TypeError, and the database stays as it is.
  ret_assemble_context_null :
      (s : RetrievalState Float) (db : Db) (m : Message)
      → get_last? s.recent_messages ≡ some m
      → m.content ≡ none
      → ret_assemble_context f ext s db ≡ (raised type_error, db)
  unfolding ret_assemble_context with_context
  ret_assemble_context_null s db m newest null =
      let front = summary_messages s.tier3_summary s.tier2_summaries in
      rw
        (fit_recent_null (remaining_for s.max_token_budget (context_tokens front)) m
          (reverse s.recent_messages) (head?-reverse s.recent_messages ∙ newest) null)
        refl
