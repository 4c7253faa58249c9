-- ===== src/Imperator/Resume.antt =====
-- The Imperator's conversation over deletions and restarts.
use context_broker.Prelude.{
  ℕ, ◌≡◌, ◌⊎◌, subst, refl, sym, ap, ◌∙◌, true, false, inl, inr, Option, none, some, String, Bool,
  Bool-cases, truthy, if◌then◌else◌,
}
use context_broker.Store.{Db}
use context_broker.Tiers.{get_or}
use context_broker.Conversations.Create.{has_conversation}
use context_broker.Conversations.Reuse.{insert_conversation-has}
use context_broker.Imperator.{
  StateFiles, Loaded, no_json, no_object, no_id, id_text, other_id, StateRead, read,
  attribute_error, after_read, Manager, read_id, read_state_file, write_state_file,
  create_imperator_conversation, resume, initialize, check_conversation, get_conversation_id,
  restart,
}

-- JSON and ids are read back as they were written, and reading and writing succeed.
pub record ReadsBack (ext : StateFiles) : Type 0 where
  pub loads-dumps : (text : String) → ext.loads (ext.dumps text) ≡ id_text text
  pub parse-show : (id : ℕ) → ext.parse_uuid (ext.show_uuid id) ≡ some id
  pub show_truthy : (id : ℕ) → truthy (ext.show_uuid id) ≡ true
  pub reads : ext.read_fails ≡ false
  pub writes : ext.write_fails ≡ false

-- A manager with a conversation that is there.
abbrev pub IsReady : Manager → Type 0
IsReady m = (id : ℕ) × (m.conversation_id ≡ some id) × (has_conversation id m.db ≡ true)

module _ (ext : StateFiles) where
  create-IsReady : (m : Manager) → IsReady (create_imperator_conversation ext m)
  unfolding create_imperator_conversation
  create-IsReady m = (m.db.next_id, refl, insert_conversation-has m.db.next_id _ _ _ m.db)

  resume-IsReady : (o : Option ℕ) (m : Manager) → IsReady (resume ext o m)
  unfolding resume
  resume-IsReady none m = create-IsReady m
  resume-IsReady (some id) m = elim (Bool-cases (has_conversation id m.db)) [
    | inl there ↦ rw there (id, refl, there)
    | inr gone ↦ rw gone (create-IsReady m)
  ]

  check-IsReady :
      (o : Option ℕ) (id : ℕ) (m : Manager)
      → m.conversation_id ≡ o
      → o ≡ some id
      → IsReady (check_conversation ext o m)
  unfolding check_conversation
  check-IsReady none id m e f = absurd (cc f)
  check-IsReady (some k) id m e f = elim (Bool-cases (has_conversation k m.db)) [
    | inl there ↦ rw there (k, e, there)
    | inr gone ↦ rw gone (create-IsReady m)
  ]

  -- A file that can be read and holds JSON that is no object, or an id that is no text.
  abbrev pub IsMisshapen : Option String → Type 0
  IsMisshapen none = ⊥
  IsMisshapen (some text) =
      (ext.read_fails ≡ false) × ((ext.loads text ≡ no_object) ⊎ (ext.loads text ≡ other_id))

  -- The manager is ready, and after any change of the tables `get_conversation_id` returns the id
  -- of a conversation that is there; or the file is misshapen.
  abbrev pub EndsReady : Option String → Db → Option Manager → Type 0
  EndsReady file later none = IsMisshapen file
  EndsReady file later (some m) =
      IsReady m
      × (let (o, n) = get_conversation_id ext (record m { db = later }) in
          (n.conversation_id ≡ o) × IsReady n)

  resume-EndsReady :
      (file : Option String) (o : Option ℕ) (m : Manager) (later : Db)
      → EndsReady file later (some (resume ext o m))
  unfolding get_conversation_id
  resume-EndsReady file o m later =
      let ready = resume-IsReady o m in
      let m' = record (resume ext o m) { db = later } in
      (ready, (refl, check-IsReady m'.conversation_id ready.0 m' refl ready.1))

  loaded-EndsReady :
      (text : String) (l : Loaded) (m : Manager) (later : Db)
      → ext.read_fails ≡ false
      → ext.loads text ≡ l
      → EndsReady (some text) later (after_read ext (read_id ext l) m)
  unfolding read_id
  loaded-EndsReady text no_json m later r e = resume-EndsReady (some text) none m later
  loaded-EndsReady text no_object m later r e = (r, inl e)
  loaded-EndsReady text no_id m later r e = resume-EndsReady (some text) none m later
  loaded-EndsReady text (id_text id) m later r e = resume-EndsReady (some text) _ m later
  loaded-EndsReady text other_id m later r e = (r, inr e)

  file-EndsReady :
      (file : Option String) (m : Manager) (later : Db)
      → EndsReady file later (after_read ext (read_state_file ext file) m)
  unfolding read_state_file
  file-EndsReady none m later = resume-EndsReady none none m later
  file-EndsReady (some text) m later =
      let ends : Bool → Type 0 = λ b.
        EndsReady (some text) later
          (after_read ext (if b then read none else read_id ext (ext.loads text)) m) in
      elim (Bool-cases ext.read_fails) [
        | inl fails ↦ subst ends (sym fails) (resume-EndsReady (some text) none m later)
        | inr reads ↦
            subst ends (sym reads) (loaded-EndsReady text (ext.loads text) m later reads refl)
      ]

  -- `initialize` raises only where the file can be read and holds JSON that is no object or an id
  -- that is no text. Else, whatever the file holds and whether it can be read and written, the
  -- manager has a conversation that is there after it; and when the tables change in any way in
  -- between, `get_conversation_id` returns the id of a conversation that is there.
  pub initialize-IsReady : (m : Manager) (later : Db) → EndsReady m.file later (initialize ext m)
  unfolding initialize
  initialize-IsReady m later = file-EndsReady m.file m later

  module _ (laws : ReadsBack ext) where
    read-write :
        (id : ℕ) (file : Option String)
        → read_state_file ext (write_state_file ext id file) ≡ read (some id)
    unfolding read_state_file write_state_file read_id
    read-write id file = rw (laws.writes) (
        rw (laws.reads) (
          rw (laws.loads-dumps (ext.show_uuid id))
            (rw (laws.show_truthy id) (ap (λ o. read o) (laws.parse-show id)))))

    -- What the file says after the start is the manager's conversation.
    resume-file :
        (o : Option ℕ) (m : Manager)
        → read_state_file ext m.file ≡ read o
        → read_state_file ext (resume ext o m).file ≡ read (resume ext o m).conversation_id
    unfolding resume create_imperator_conversation
    resume-file none m e = read-write m.db.next_id m.file
    resume-file (some id) m e = elim (Bool-cases (has_conversation id m.db)) [
      | inl there ↦ rw there e
      | inr gone ↦ rw gone (read-write m.db.next_id m.file)
    ]

    resume_again :
        (o : Option ℕ) (m : Manager)
        → read_state_file ext m.file ≡ read o
        → initialize ext (restart (resume ext o m)) ≡ some (resume ext o m)
    unfolding initialize
    resume_again o m reads =
        let m' = resume ext o m in
        let (id, e, there) = resume-IsReady o m in
        ap (λ r. after_read ext r (restart m')) (resume-file o m reads ∙ ap (λ o. read o) e)
        ∙ ap
            (λ b. some (
              if b
              then record m' { conversation_id = some id }
              else create_imperator_conversation ext (restart m')))
            there
        ∙ ap (λ o. some (record m' { conversation_id = o })) (sym e)

    read_again :
        (r : StateRead) (m m' : Manager)
        → read_state_file ext m.file ≡ r
        → after_read ext r m ≡ some m'
        → initialize ext (restart m') ≡ some m'
    read_again attribute_error m m' reads e = absurd (cc e)
    read_again (read o) m m' reads e =
        subst (λ n. initialize ext (restart n) ≡ some n) (ap (λ r. get_or r m') e)
          (resume_again o m reads)

    -- A restart resumes the conversation: where ids and JSON are read back as they were written and
    -- the file can be read and written, and `initialize` ended with a state, `initialize` in a new
    -- process, with the database and the file that the one before left, comes to the same state, and
    -- writes nothing.
    pub initialize_again :
        (m m' : Manager) → initialize ext m ≡ some m' → initialize ext (restart m') ≡ some m'
    unfolding initialize
    initialize_again m m' e = read_again (read_state_file ext m.file) m m' refl e
