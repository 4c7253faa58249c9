-- ===== src/Tests/Conversations.antt =====
-- Requests on a conversation with one message and one window.
use context_broker.Prelude.{
  ℕ, ◌≡◌, ◌⊎◌, refl, true, false, none, some, List, [], ◌∷◌, String, ◌==◌, arith,
}
use context_broker.Store.{Conversation, returned, raised, foreign_key_violation, pure, ◌>>◌}
use context_broker.Store.Query.{messages_of}
use context_broker.Config.{BuildTypeError}
use context_broker.Conversations.Create.{CreateInput}
use context_broker.Conversations.Windows.{WindowInput, SearchInput}
use context_broker.Conversations.History.{history, load_conversation_and_messages}
use context_broker.Conversations.Chronology.{last_messages, load_conversation_and_messages_lem}
use context_broker.Conversations.Context.{ContextInput, ContextGraphs}
use context_broker.Conversations.References.{bind-KeepsReferences}
use context_broker.Passthrough.Assembly.{invoke_passthrough}
use context_broker.Passthrough.References.{invoke_passthrough-KeepsReferences}
use context_broker.Tests.Passthroughs.{outside, outside_reads}
use context_broker.Conversations.Integrity.{IsReferential}
use context_broker.Conversations.GetContext.{GraphsKeepReferences}
use context_broker.Conversations.Requests.{
  Request, creating, storing, getting_context, renaming, deleting, creating_window, serve_all,
  serve_all-IsReferential,
}
use context_broker.Conversations.Deletion.{IsGone, IsKept, delete_conversation-IsGone}
use context_broker.Conversations.Admin.{changed, is_one_row, is_referred, delete_conversation}
use context_broker.Tests.Budgets.{decimals, models, provider, fixed}
use context_broker.Tests.Messages.{parse_id, show_id, dump, no_conflict, input_of, one_message}
use context_broker.Tests.Assemblies.{settings, three_messages}

abbrev conversation : Conversation
conversation = record {
  id = 1;
  title = none;
  flow_id = none;
  user_id = none;
  created_at = 4;
  total_messages = 1;
  estimated_token_count = 2;
  updated_at = 5;
}

load_conversation_and_messages_lem_example :
    load_conversation_and_messages parse_id "1" (some 2) three_messages ≡ (
      returned
          (history conversation (last_messages (some 2) (messages_of 1 three_messages.messages))),
      three_messages,
    )
load_conversation_and_messages_lem_example =
    load_conversation_and_messages_lem parse_id "1" (some 2) 1 0 conversation three_messages refl
      refl (omega arith, (omega arith, (omega arith, tt)))

abbrev named : String → CreateInput
named title = record {
  conversation_id = some "7";
  title = some title;
  flow_id = none;
  user_id = none;
}

abbrev describe : BuildTypeError ℕ → String
describe e = "bad build type"

abbrev window_input : WindowInput ℕ
window_input = record {
  conversation_id = "1";
  participant_id = "bob";
  build_type = "standard-tiered";
  max_tokens_override = some 4096;
  config = settings;
  provider = provider;
  settings = fixed;
}

-- The assembly of passthrough.py, and a retrieval that writes nothing.
abbrev graphs : ContextGraphs ℕ ℕ
graphs = record {
  assemble = λ build_type config w c. invoke_passthrough outside w c >> pure tt;
  retrieve = λ input w db. (returned 5, db);
  prompt_fails = false;
}

graphs_keep : GraphsKeepReferences show_id graphs
graphs_keep = record {
  assembling = λ build_type config w c db pair h.
      bind-KeepsReferences (invoke_passthrough outside (show_id w) (show_id c)) (λ s. pure tt)
        (invoke_passthrough-KeepsReferences outside (show_id w) (show_id c) outside_reads refl)
        (λ s db h. h) db h;
  retrieving = λ input w db h. h;
}

abbrev context_input : ContextInput ℕ
context_input = record {
  build_type = "standard-tiered";
  budget = 5000;
  conversation_id = some "1";
  config = settings;
  user_prompt = some "hello again";
  model = none;
  domain_context = none;
}

one_message-IsReferential : IsReferential one_message
one_message-IsReferential = record { messages = (refl, tt); windows = (refl, tt); summaries = tt }

abbrev requests : List (Request ℕ)
requests =
    creating (named "second")
    ∷ creating_window window_input
    ∷ getting_context context_input
    ∷ storing no_conflict (input_of "hi")
    ∷ renaming "1" "first"
    ∷ deleting "1"
    ∷ []

serve_all-IsReferential_example :
    IsReferential
      (serve_all decimals parse_id show_id dump describe models graphs requests one_message)
serve_all-IsReferential_example =
    serve_all-IsReferential decimals parse_id show_id dump describe models graphs graphs_keep
      requests one_message one_message-IsReferential

delete_conversation-IsGone_example :
    let (r, db') = delete_conversation parse_id "1" one_message in
    ((is_referred 1 one_message ≡ true) × (r ≡ raised foreign_key_violation) × (db' ≡ one_message))
    ⊎ ((is_referred 1 one_message ≡ false)
        × (r ≡ returned (changed (is_one_row 1 one_message.conversations)))
        × IsGone 1 db'
        × ((k : ℕ) → (k == 1) ≡ false → IsKept k one_message db'))
delete_conversation-IsGone_example =
    delete_conversation-IsGone parse_id "1" 1 one_message refl one_message-IsReferential

abbrev search : SearchInput
search = record {
  context_window_id = none;
  conversation_id = some "1";
  participant_id = some "ann";
  build_type = none;
  limit = 200;
}
