-- ===== src/Tests/Imperators.antt =====
-- The Imperator on its first start and after a restart, with a file that holds the id itself.
use context_broker.Prelude.{ℕ, zero, suc, ◌≡◌, refl, true, false, none, some, [], truthy}
use context_broker.Store.{Db}
use context_broker.Imperator.{StateFiles, id_text, Manager, resume, initialize, restart}
use context_broker.Imperator.Resume.{ReadsBack, EndsReady, initialize-IsReady, initialize_again}
use context_broker.Tests.Messages.{one_message}
use context_broker.Tests.Passthroughs.{strokes, read_strokes, read_strokes-strokes}

abbrev files : StateFiles
files = record {
  parse_uuid = read_strokes;
  show_uuid = strokes;
  dumps = λ text. text;
  loads = λ text. id_text text;
  read_fails = false;
  write_fails = false;
}

files_read_back : ReadsBack files
unfolding strokes
files_read_back = record {
  loads-dumps = λ text. refl;
  parse-show = read_strokes-strokes;
  show_truthy = visible;
  reads = refl;
  writes = refl;
}
  where
    visible : (n : ℕ) → truthy (strokes n) ≡ true
    visible zero = refl
    visible (suc n) = refl

abbrev first_start : Manager
first_start = record { db = one_message; file = none; conversation_id = none }

-- All conversations are deleted while the process runs.
abbrev emptied : Db
emptied = record one_message { conversations = []; messages = []; windows = [] }

-- The first start makes a conversation and writes its id.
abbrev started : Manager
started = resume files none first_start

first_started : initialize files first_start ≡ some started
unfolding initialize
first_started = refl

initialize-IsReady_example : EndsReady files first_start.file emptied (initialize files first_start)
initialize-IsReady_example = initialize-IsReady files first_start emptied

initialize_again_example : initialize files (restart started) ≡ some started
initialize_again_example = initialize_again files files_read_back first_start started first_started
