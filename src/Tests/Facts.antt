-- ===== src/Tests/Facts.antt =====
-- Facts with a store that counts its calls.
use context_broker.Prelude.{
  ℕ, ◌+◌, ◌≡◌, refl, false, ◌&&◌, none, some, [], ◌∷◌, String, inr, if◌then◌else◌, find?, length,
  str_eq,
}
use context_broker.Quality.Wrapper.{
  Meta, Quality, QualityExternal, added_dict, no_relations, has_target, record_feedback,
  write_metadata,
}
use context_broker.Quality.Expiry.{Found, cleanup_expired, usefulness_of}
use context_broker.Quality.Laws.{record_feedback_again, for_target}
use context_broker.Quality.Kept.{cleanup_expired-kept, record_feedback-counted}
use context_broker.Quality.Dispatch.{
  ExtractedFact, DispatchExternal, write_relations, write_relations_first,
}
use context_broker.Tests.Messages.{parse_id, show_id}

abbrev same : String → String
same s = s

abbrev store : QualityExternal ℕ
store = record {
  parse_uuid = parse_id;
  md5 = same;
  sha256 = same;
  show = show_id;
  strip = same;
  re_search = λ pattern text. false;
  min_fact_length = 10;
  patterns = [];
  cleanup_interval = 3600;
  mem0_add = λ content user skip n. (added_dict (some "f1" ∷ []) no_relations, n + 1);
  feedback_fails = false;
  mem0_delete = λ id n. (false, n);
}

abbrev outer : DispatchExternal
outer = record {
  upper = same;
  strptime = λ text format. none;
  relative = λ text. none;
  dump_context = λ key id. id;
  extraction_model = "a model";
}

abbrev described : Meta ℕ
described = record {
  target_type = "relation";
  target_id = "r1";
  durability = 1;
  confidence = 1;
  source_type = "observation";
  original_utterance = "The shop is open until noon.";
  extraction_model = "a model";
  expires_at = some 5;
  user_id = "ada";
  conversation_id = 1;
  content_hash = some "hash";
}

abbrev a_fact : Meta ℕ
a_fact = record described { target_type = "fact"; target_id = "f1" }

abbrev blank : Quality ℕ ℕ
blank = record { metadata = []; events = []; mem0 = 0; now = 60; monotonic = 0; last_cleanup = 0 }

abbrev dated : Quality ℕ ℕ
dated = record blank { metadata = a_fact ∷ described ∷ [] }

abbrev a_relation : Found
a_relation = record { id = some "r1"; text = "shop -- open until -- noon" }

write_relations_first_example :
    write_relations described (some 1) ("r1" ∷ "r2" ∷ "r3" ∷ []) blank
    ≡ write_metadata (for_target "r1" described) (some 1) blank
write_relations_first_example =
    write_relations_first described 1 "r1" ("r2" ∷ "r3" ∷ []) blank refl refl refl

record_feedback_again_example :
    let t = (record_feedback store "fact" "f1" "used" "ada" none blank).1 in
    let t' = record t { now = blank.now + 3 } in
    (length t.events ≡ length blank.events + 1)
    × (record_feedback store "relation" "f1" "used" "ada" none t' ≡ (false, t'))
unfolding record_feedback
record_feedback_again_example =
    record_feedback_again store "fact" "relation" "f1" "used" "ada" none none blank (blank.now + 3)
      refl refl

cleanup_expired-kept_example :
    find? (has_target "fact" "f1") (cleanup_expired store dated).1.metadata
    ≡ find? (has_target "fact" "f1") dated.metadata
cleanup_expired-kept_example = cleanup_expired-kept store "fact" "f1" dated (inr (refl, λ n. refl))

record_feedback-counted_example :
    let t = (record_feedback store "fact" "f1" "used" "ada" none dated).1 in
    (usefulness_of "fact" "f1" t.events).total_events
    ≡ (usefulness_of "fact" "f1" dated.events).total_events
      + (if str_eq "fact" "fact" && str_eq "f1" "f1" then 1 else 0)
unfolding record_feedback
record_feedback-counted_example =
    record_feedback-counted store "fact" "f1" "used" "ada" none dated refl "fact" "f1"

abbrev extracted : ExtractedFact ℕ
extracted = record {
  relationship = some "SUPERSEDES";
  content = "The shop is open until one.";
  user_id = some "ada";
  original_utterance = "It is open until one now.";
  expires_at = none;
  durability = some 1;
  confidence = some 1;
  source_type = none;
  related_fact_id = some "f1";
}
