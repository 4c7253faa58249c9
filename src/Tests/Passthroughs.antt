-- ===== src/Tests/Passthroughs.antt =====
-- Runs of the graphs of passthrough.py, with numbers that are written with one stroke for each.
use context_broker.Prelude.{
  ℕ, zero, suc, ◌≡◌, refl, ap, true, false, Option, none, some, String, len, truthy,
}
use context_broker.Passthrough.Assembly.{PassthroughExternal, invoke_passthrough}
use context_broker.Passthrough.Retrieval.{PassthroughRetrieval, pt_initial_retrieval}
use context_broker.Locks.{stable_lock_id}
use context_broker.Passthrough.Laws.{ReadsInts, Ends, invoke_passthrough-Ends}
use context_broker.Tests.Budgets.{decimals}
use context_broker.Tests.Messages.{parse_id, show_id, one_message}
use context_broker.Tests.Assemblies.{settings}

unfoldable pub strokes : ℕ → String
strokes zero = String.◌∷◌ "|" String.[]
strokes (suc n) = String.◌∷◌ "|" (strokes n)

abbrev pub count_chars : String → ℕ
count_chars String.[] = 0
count_chars (String.◌∷◌ c s) = suc (count_chars s)

unfoldable pub read_strokes : String → Option ℕ
read_strokes String.[] = none
read_strokes (String.◌∷◌ c s) = some (count_chars s)

count_chars-strokes : (n : ℕ) → count_chars (strokes n) ≡ suc n
unfolding strokes
count_chars-strokes zero = refl
count_chars-strokes (suc n) = ap suc (count_chars-strokes n)

abbrev pub outside : PassthroughExternal
outside = record {
  parse_uuid = parse_id;
  digest = len;
  show_int = strokes;
  read_int = read_strokes;
  finalize_failure = none;
  bad_uuid = "badly formed hexadecimal UUID string";
  unlock_fails = false;
}

pub read_strokes-strokes : (n : ℕ) → read_strokes (strokes n) ≡ some n
unfolding strokes read_strokes
read_strokes-strokes zero = refl
read_strokes-strokes (suc n) = ap some (count_chars-strokes n)

pub outside_reads : ReadsInts outside
unfolding strokes
outside_reads = record { read-show = read_strokes-strokes; show_truthy = visible }
  where
    visible : (n : ℕ) → truthy (strokes n) ≡ true
    visible zero = refl
    visible (suc n) = refl

invoke_passthrough-Ends_example :
    Ends outside
      (stable_lock_id outside.digest "7")
      "7"
      one_message
      (invoke_passthrough outside "7" "1" one_message)
invoke_passthrough-Ends_example =
    invoke_passthrough-Ends outside "7" "1" one_message outside_reads refl

-- The state of a retrieval after the window was loaded.
abbrev loaded : PassthroughRetrieval ℕ
loaded = record (pt_initial_retrieval decimals parse_id show_id "7" settings) {
  conversation_id = "1";
  max_token_budget = 100;
}
