-- ===== src/Enriched/Laws.antt =====
-- What the enriched retrieval gives, and how it differs from that of the standard tiers.
use context_broker.Prelude.{
  ℕ, zero, suc, ◌+◌, ◌-◌, ◌*◌, ◌≤◌, ◌<◌, ◌≡◌, ◌⊎◌, refl, ap, inl, inr, true, Option, none, some,
  List, [], ◌∷◌, ◌++◌, String, arith, Bool-cases, is_some, map, reverse, total-append, All,
  All-reverse, max, len, truthy, or_empty, estimate_tokens,
}
use Prim.Native.String
use text.Mathlib.TextLemmas.{length-append, length-cons}
use context_broker.Floats.{Floats}
use context_broker.Store.{Message, Db, Outcome, returned, raised, overflow_error}
use context_broker.Retrieval.State.{RetrievalState, RetrievalExternal, ContextMessage}
use context_broker.Retrieval.Context.{
  context_tokens, context_message, remaining_for, summary_messages, with_context,
}
use context_broker.Retrieval.Budget.{fit_recent-Fits, kept_last, context_bound}
use context_broker.Enriched.Graph.{
  EnrichedState, CallerModel, LlmReply, text_prefix, domain_message, domain_part, with_kept,
  with_domain, ke_assemble_context,
}

len-text_prefix : (n : ℕ) (s : String) → len (text_prefix n s) ≤ n
len-text_prefix zero s = omega arith
len-text_prefix (suc n) String.[] = omega arith
len-text_prefix (suc n) (String.◌∷◌ c s) =
    omega (arith, length-cons c (text_prefix n s), len-text_prefix n s)

-- Nothing, or one message with a first part of the domain context.
abbrev pub IsDomain : Option String → List ContextMessage → Type 0
IsDomain text messages =
    (messages ≡ []) ⊎ ((n : ℕ) × (messages ≡ domain_message (text_prefix n (or_empty text)) ∷ []))

domain_tokens :
    (left : ℕ) (t : String)
    → context_tokens (domain_message (text_prefix (left * 4) t) ∷ []) ≤ left + 4
domain_tokens left t =
    let prefix = text_prefix (left * 4) t in
    omega (
      arith,
      len-text_prefix (left * 4) t,
      length-append "[Domain knowledge]\n" (String.◌++◌ prefix ""),
      length-append prefix "",
    )

domain_part-le :
    (domain : Option String) (left : ℕ)
    → (messages : List ContextMessage) × (domain_part domain (some left) ≡ some messages)
      × IsDomain domain messages
      × ((messages ≡ []) ⊎ ((0 < left) × (context_tokens messages ≤ left + 4)))
unfolding domain_part
domain_part-le domain left = elim (Bool-cases (truthy (or_empty domain))) [
  | inr absent ↦ ([], rw absent refl, inl refl, inl refl)
  | inl there ↦ nonempty left there
]
  where
    nonempty :
        (left : ℕ)
        → truthy (or_empty domain) ≡ true
        → (messages : List ContextMessage) × (domain_part domain (some left) ≡ some messages)
          × IsDomain domain messages
          × ((messages ≡ []) ⊎ ((0 < left) × (context_tokens messages ≤ left + 4)))
    nonempty zero there = ([], rw there refl, inl refl, inl refl)
    nonempty (suc n) there =
        elim (Bool-cases (truthy (text_prefix (suc n * 4) (or_empty domain)))) [
          | inr nothing ↦ ([], rw (there, nothing) refl, inl refl, inl refl)
          | inl some_text ↦ (
            domain_message (text_prefix (suc n * 4) (or_empty domain)) ∷ [],
            rw (there, some_text) refl,
            inr (suc n * 4, refl),
            inr (omega arith, domain_tokens (suc n) (or_empty domain)),
          )
        ]

-- The outcome is a context: the messages of the two upper tiers, then nothing or one message of the
-- domain context, then a last part of the recent messages in their order; and it takes at most four
-- tokens more than the budget, or than the upper tiers alone.
abbrev pub IsEnriched : {F : Type 0} → EnrichedState F → Outcome (EnrichedState F) × Db → Type 0
IsEnriched s (returned t, db) =
    let front = summary_messages s.base.tier3_summary s.base.tier2_summaries in
    (domain : List ContextMessage) × (older kept : List Message) × IsDomain s.domain_context domain
    × (s.base.recent_messages ≡ older ++ kept)
    × (t.base.context_messages ≡ some ((front ++ domain) ++ map context_message kept))
    × (context_tokens ((front ++ domain) ++ map context_message kept)
        ≤ max s.base.max_token_budget (context_tokens front) + 4)
IsEnriched s (raised e, db) = ⊥

front_bound :
    (budget : ℕ) (front domain : List ContextMessage)
    → ((domain ≡ [])
        ⊎ ((0 < budget - context_tokens front)
            × (context_tokens domain ≤ budget - context_tokens front + 4)))
    → context_tokens (front ++ domain) ≤ max budget (context_tokens front) + 4
front_bound budget front domain h =
    let sum = total-append (λ m. estimate_tokens m.content) front domain in
    elim h [
      | inl nothing ↦ omega (arith, sum, ap context_tokens nothing)
      | inr (room, small) ↦ omega (arith, sum, room, small)
    ]

module _ (f : Floats) (ext : RetrievalExternal (f.Float)) (strip : String → String)
    (llm : CallerModel → String → LlmReply) where
  open f use {Float}

  with_domain-IsEnriched :
      (s : EnrichedState Float) (db : Db) (domain : List ContextMessage)
      → 0 < s.base.max_token_budget
      → All (λ m. is_some m.content ≡ true) s.base.recent_messages
      → IsDomain s.domain_context domain
      → context_tokens (summary_messages s.base.tier3_summary s.base.tier2_summaries ++ domain)
        ≤ max s.base.max_token_budget
            (context_tokens (summary_messages s.base.tier3_summary s.base.tier2_summaries))
          + 4
      → IsEnriched s (
          with_domain f ext strip llm s
            (summary_messages s.base.tier3_summary s.base.tier2_summaries)
            (some domain)
            db)
  unfolding with_domain with_kept
  with_domain-IsEnriched s db domain pos c shape small =
      let front = summary_messages s.base.tier3_summary s.base.tier2_summaries in
      let budget = s.base.max_token_budget in
      let (live, rest, e, k, b) =
        fit_recent-Fits (budget - context_tokens (front ++ domain)) 0 []
          (reverse s.base.recent_messages) (omega arith) (All-reverse _ s.base.recent_messages c) in
      let limited : remaining_for budget (context_tokens (front ++ domain))
          ≡ some (budget - context_tokens (front ++ domain)) =
        ground arith in
      rw limited (
        rw k (
          domain,
          reverse rest,
          reverse live ++ [],
          shape,
          kept_last s.base.recent_messages live rest e,
          refl,
          omega (arith, small, context_bound budget (front ++ domain) live b),
        ))

  -- With a positive budget and recent messages that all have a content, `ke_assemble_context` returns a
  -- context: the messages of the two upper tiers, then nothing or one message with a first part of the
  -- domain context, then a last part of the recent messages in their order. Together they are
  -- estimated at no more than four tokens over the budget, or over the upper tiers alone.
  pub ke_assemble_context-IsEnriched :
      (s : EnrichedState Float) (db : Db)
      → 0 < s.base.max_token_budget
      → All (λ m. is_some m.content ≡ true) s.base.recent_messages
      → IsEnriched s (ke_assemble_context f ext strip llm s db)
  unfolding ke_assemble_context
  ke_assemble_context-IsEnriched s db pos c =
      let front = summary_messages s.base.tier3_summary s.base.tier2_summaries in
      let budget = s.base.max_token_budget in
      let (domain, e, shape, small) =
        domain_part-le s.domain_context (budget - context_tokens front) in
      let limited : remaining_for budget (context_tokens front)
          ≡ some (budget - context_tokens front) =
        ground arith in
      rw (limited, e)
        (with_domain-IsEnriched s db domain pos c shape (front_bound budget front domain small))

  -- With a budget of zero, as int() leaves it of the smallest windows, and a domain context that is not
  -- empty, `ke_assemble_context` raises an OverflowError, and the database stays as it is.
  ke_assemble_context_overflow :
      (s : EnrichedState Float) (db : Db)
      → s.base.max_token_budget ≡ 0
      → truthy (or_empty s.domain_context) ≡ true
      → ke_assemble_context f ext strip llm s db ≡ (raised overflow_error, db)
  unfolding ke_assemble_context domain_part with_domain
  ke_assemble_context_overflow s db zero_budget there = rw (zero_budget, there) refl

  -- The part that the two graphs share, of a result.
  abbrev pub shared :
      Outcome (EnrichedState Float) × Db → Outcome (Option (List ContextMessage)) × Db
  shared (returned t, db) = (returned t.base.context_messages, db)
  shared (raised e, db) = (raised e, db)

  abbrev pub messages_of_context :
      Outcome (RetrievalState Float) × Db → Outcome (Option (List ContextMessage)) × Db
  messages_of_context (returned t, db) = (returned t.context_messages, db)
  messages_of_context (raised e, db) = (raised e, db)

  with_kept-shared :
      (s : EnrichedState Float) (front : List ContextMessage) (kept : Option (List Message))
      (db : Db)
      → shared (with_kept f ext strip llm s front kept db)
        ≡ messages_of_context (with_context f ext s.base front kept db)
  unfolding with_kept with_context
  with_kept-shared s front none db = refl
  with_kept-shared s front (some kept) db = refl
