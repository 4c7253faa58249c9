-- ===== src/Search/Queries.antt =====
-- search_flow.py, the queries of `search_conversations_db` and `hybrid_search_messages`.
use context_broker.Prelude.{
  ℕ, ◌+◌, ◌*◌, Option, none, some, List, [], ◌∷◌, ◌++◌, String, truthy, cat, if◌then◌else◌,
}
use context_broker.Filters.{
  Arg, text, uuid, time, number, Condition, Filter, optional, always, build_filters, when_given,
}
use context_broker.Workers.Embedding.{Vector, vec_str}

-- The two dates, or the error of one that cannot be read; a time without a zone is one of UTC.
pub data Dates : Type 0 where
  invalid_date : Dates
  dates : Option ℕ → Option ℕ → Dates

abbrev pub with_until : (String → Option ℕ) → Option ℕ → Option String → Dates
with_until fromisoformat since none = dates since none
with_until fromisoformat since (some s) = elim (fromisoformat s) [
  | none ↦ invalid_date
  | some t ↦ dates since (some t)
]

unfoldable pub parse_dates : (String → Option ℕ) → Option String → Option String → Dates
parse_dates fromisoformat none until = with_until fromisoformat none until
parse_dates fromisoformat (some s) until = elim (fromisoformat s) [
  | none ↦ invalid_date
  | some t ↦ with_until fromisoformat (some t) until
]

abbrev pub at_time : Option ℕ → Option Arg
at_time none = none
at_time (some t) = some (time t)

pub record ConversationSearch : Type 0 where
  pub limit : ℕ
  pub offset : ℕ
  pub flow_id : Option String
  pub user_id : Option String
  pub sender : Option String

-- `_build_conv_filters`, with the prefix of the columns. The text of a condition is that in front of
-- its placeholder; the bracket or the cast behind it is left out.
abbrev pub conversation_filters : String → ConversationSearch → Option ℕ → Option ℕ → List Filter
conversation_filters prefix r since until =
    optional (cat (prefix ∷ "flow_id =" ∷ [])) (when_given text r.flow_id)
    ∷ optional (cat (prefix ∷ "user_id =" ∷ [])) (when_given text r.user_id)
    ∷ optional
        (cat (
          "EXISTS (SELECT 1 FROM conversation_messages sm WHERE sm.conversation_id = " ∷ prefix
          ∷ "id AND sm.sender =" ∷ []))
        (when_given text r.sender)
    ∷ optional (cat (prefix ∷ "created_at >=" ∷ [])) (at_time since)
    ∷ optional (cat (prefix ∷ "created_at <=" ∷ [])) (at_time until)
    ∷ []

-- The query by the vector has $1 to $3 before the filters, the other $1 and $2.
unfoldable pub conversation_args : ConversationSearch → Option Vector → List Arg
conversation_args r none = number r.limit ∷ number r.offset ∷ []
conversation_args r (some v) = text (vec_str v) ∷ number r.limit ∷ number r.offset ∷ []

abbrev pub first_filter : Option Vector → ℕ
first_filter none = 3
first_filter (some v) = 4

abbrev pub column_prefix : Option Vector → String
column_prefix none = ""
column_prefix (some v) = "c."

-- The conditions of the filters, and all arguments.
unfoldable pub search_conversations :
    ConversationSearch → Option ℕ → Option ℕ → Option Vector → List Condition × List Arg
unfolding conversation_args
search_conversations r since until embedding =
    let (conditions, args, idx) =
      build_filters (first_filter embedding)
        (conversation_filters (column_prefix embedding) r since until) in
    (conditions, conversation_args r embedding ++ args)

pub record MessageSearch : Type 0 where
  pub query : String
  pub sender : Option String
  pub role : Option String
  pub limit : ℕ
  pub rrf_k : ℕ
  pub candidate_limit : ℕ

-- `if not filter_role: filter_role = "user"`
abbrev pub searched_role : Option String → String
searched_role none = "user"
searched_role (some role) = if truthy role then role else "user"

abbrev pub in_conversation_id : Option ℕ → Option Arg
in_conversation_id none = none
in_conversation_id (some id) = some (uuid id)

-- `_build_extra_filters`; the shortest length that is searched is part of the text.
abbrev pub message_filters : MessageSearch → Option ℕ → Option ℕ → Option ℕ → List Filter
message_filters r conversation since until =
    optional "conversation_id =" (in_conversation_id conversation)
    ∷ optional "sender =" (when_given text r.sender)
    ∷ optional "role =" (some (text (searched_role r.role)))
    ∷ always "length(content) > 50"
    ∷ optional "created_at >=" (at_time since)
    ∷ optional "created_at <=" (at_time until)
    ∷ []

-- The numbers of the last placeholders of the hybrid query.
pub record HybridQuery : Type 0 where
  pub conditions : List Condition
  pub candidate_limit_idx : ℕ
  pub rrf_k_idx : ℕ
  pub result_limit_idx : ℕ
  pub args : List Arg

unfoldable pub hybrid_query : MessageSearch → Option ℕ → Option ℕ → Option ℕ → Vector → HybridQuery
hybrid_query r conversation since until v =
    let (conditions, args, idx) = build_filters 3 (message_filters r conversation since until) in
    record {
      conditions = conditions;
      candidate_limit_idx = idx;
      rrf_k_idx = idx + 1;
      result_limit_idx = idx + 2;
      args =
          (text (vec_str v) ∷ text r.query ∷ [])
          ++ args
          ++ number r.candidate_limit ∷ number r.rrf_k ∷ number (r.limit * 5) ∷ [];
    }

-- Without a vector: the conditions, the number of the placeholder of LIMIT, and the arguments.
unfoldable pub text_query :
    MessageSearch → Option ℕ → Option ℕ → Option ℕ → List Condition × ℕ × List Arg
text_query r conversation since until =
    let (conditions, args, idx) = build_filters 2 (message_filters r conversation since until) in
    (conditions, idx, (text r.query ∷ []) ++ args ++ number (r.limit * 5) ∷ [])
