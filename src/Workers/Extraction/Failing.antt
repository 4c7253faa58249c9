-- ===== src/Workers/Extraction/Failing.antt =====
-- Conversations whose extraction keeps failing, in `_extraction_worker`.
use context_broker.Prelude.{
  ℕ, zero, suc, subst, sym, ◌+◌, ◌≤◌, ◌≡◌, refl, ap, ◌∙◌, true, false, ◌&&◌, inl, inr, ◌⊎◌, some,
  List, [], ◌∷◌, String, arith, ◌==◌, ==_iff, leb, Bool-cases, keep, update_where,
}
use context_broker.Dict.{put, get-put}
use context_broker.Store.{Message, Db}
use context_broker.Locks.{is_held, hold, try_advisory_lock, advisory_unlock}
use context_broker.Workers.Extraction.{
  is_unextracted, mark_extracted, ExtractionResult, with_error, late, ExtractionWorker, next,
  max_conv_retries, failures_of, count_failure, unlock, give_up, extraction_lock, after_extraction,
  extract_locked, extract_if_locked, extract_conversation, extract_each, unextracted_conversations,
  conversations_of, add_new, extraction_step, extraction_loop, worker_of,
}
use context_broker.Workers.Extraction.Retries.{erase_first}

-- Where the messages of one conversation at most are not extracted, marking it leaves none.
abbrev IsOnly : ℕ → List Message → Type 0
IsOnly id ms = (unextracted_conversations ms ≡ []) ⊎ (unextracted_conversations ms ≡ (id ∷ []))

add_new-IsOnly :
    (i id : ℕ) (ids : List ℕ)
    → (add_new i ids ≡ []) ⊎ (add_new i ids ≡ (id ∷ []))
    → ((i == id) ≡ true) × ((ids ≡ []) ⊎ (ids ≡ (id ∷ [])))
add_new-IsOnly i id [] h = ground (arith, h)
add_new-IsOnly i id (j ∷ ids) h = ground (arith, h)

abbrev marked : ℕ → List Message → List Message
marked id ms =
    update_where (λ m. m.conversation_id == id && is_unextracted m)
      (λ m. record m { memory_extracted = some true }) ms

unextracted_conversations-new :
    (m : Message) (ms : List Message)
    → is_unextracted m ≡ true
    → unextracted_conversations (m ∷ ms) ≡ add_new m.conversation_id (unextracted_conversations ms)
unfolding unextracted_conversations
unextracted_conversations-new m ms new = rw new refl

unextracted_conversations-old :
    (m : Message) (ms : List Message)
    → is_unextracted m ≡ false
    → unextracted_conversations (m ∷ ms) ≡ unextracted_conversations ms
unfolding unextracted_conversations
unextracted_conversations-old m ms old = rw old refl

-- The list that an equation puts in place of another.
only_by :
    (id : ℕ) (xs ys : List ℕ)
    → xs ≡ ys
    → (xs ≡ []) ⊎ (xs ≡ (id ∷ []))
    → (ys ≡ []) ⊎ (ys ≡ (id ∷ []))
only_by id xs ys e h = subst (λ l. (l ≡ []) ⊎ (l ≡ (id ∷ []))) e h

keep-marked : (id : ℕ) (ms : List Message) → IsOnly id ms → keep is_unextracted (marked id ms) ≡ []
keep-marked id [] only = refl
keep-marked id (m ∷ ms) only = elim (Bool-cases (is_unextracted m)) [
  | inl new ↦
      let (same, rest) = add_new-IsOnly m.conversation_id id (unextracted_conversations ms) (
        only_by id (unextracted_conversations (m ∷ ms))
          (add_new m.conversation_id (unextracted_conversations ms))
          (unextracted_conversations-new m ms new) only) in
      rw same (rw new (keep-marked id ms rest))
  | inr old ↦
      let rest =
        only_by id (unextracted_conversations (m ∷ ms)) (unextracted_conversations ms)
          (unextracted_conversations-old m ms old) only in
      ground (arith, old, keep-marked id ms rest)
]

mark_clean :
    (id : ℕ) (s : Db)
    → IsOnly id s.messages
    → unextracted_conversations (mark_extracted id s).messages ≡ []
unfolding unextracted_conversations
mark_clean id s only = ap conversations_of (keep-marked id s.messages only)

failures_of-put :
    (id n : ℕ) (db : Db) (d : List (ℕ × ℕ))
    → failures_of id (record { db = db; conv_failures = put ◌==◌ id n d }) ≡ n
failures_of-put id n db d = rw (get-put ◌==◌ ==_iff id id n d) (ground arith)

module _ (digest : String → ℕ) (show_uuid : ℕ → String) (run : ℕ → Db → ExtractionResult × Db)
    (id : ℕ) where
  -- Each run of the flow on the conversation ends with an error or too late, and changes nothing.
  abbrev pub IsFailing : Type 0
  IsFailing = (db : Db) → (run id db ≡ (with_error, db)) ⊎ (run id db ≡ (late, db))

  abbrev key : ℕ
  key = extraction_lock digest show_uuid (some run) id

  -- The worker after a run that failed.
  abbrev failed_once : ExtractionWorker → ExtractionWorker
  failed_once s =
      unlock key (count_failure id (record s { db = record s.db { locks = hold key s.db.locks } }))

  failing_run :
      (s : ExtractionWorker)
      → IsFailing
      → failures_of id s ≤ 2
      → is_held key s.db.locks ≡ false
      → extract_conversation digest show_uuid (some run) id s ≡ next (failed_once s)
  unfolding extract_conversation extract_if_locked extract_locked after_extraction try_advisory_lock
  failing_run s fails few free =
      let below : leb max_conv_retries (failures_of id s) ≡ false = ground (arith, few) in
      elim (fails (record s.db { locks = hold key s.db.locks })) [
        | inl e ↦ rw below (rw free (rw e refl))
        | inr e ↦ rw below (rw free (rw e refl))
      ]

  last_run :
      (s : ExtractionWorker)
      → failures_of id s ≡ 3
      → extract_conversation digest show_uuid (some run) id s ≡ next (give_up id s)
  unfolding extract_conversation
  last_run s e = rw e refl

  given_up_run :
      (s : ExtractionWorker)
      → 4 ≤ failures_of id s
      → extract_conversation digest show_uuid (some run) id s ≡ next s
  unfolding extract_conversation
  given_up_run s many =
      let over : leb max_conv_retries (failures_of id s) ≡ true = ground (arith, many) in
      let more : (failures_of id s == max_conv_retries) ≡ false = ground (arith, many) in
      rw over (rw more refl)

  loop-next :
      (n : ℕ) (s s' : ExtractionWorker)
      → worker_of (extraction_step digest show_uuid (some run) s) ≡ s'
      → extraction_loop digest show_uuid (some run) (suc n) s
        ≡ extraction_loop digest show_uuid (some run) n s'
  unfolding extraction_loop
  loop-next n s s' e = ap (extraction_loop digest show_uuid (some run) n) e

  step_only :
      (s s' : ExtractionWorker)
      → unextracted_conversations s.db.messages ≡ (id ∷ [])
      → extract_conversation digest show_uuid (some run) id s ≡ next s'
      → worker_of (extraction_step digest show_uuid (some run) s) ≡ s'
  unfolding extraction_step extract_each
  step_only s s' only e = rw only (rw e refl)

  loop_idle :
      (n : ℕ) (s : ExtractionWorker)
      → unextracted_conversations s.db.messages ≡ []
      → extraction_loop digest show_uuid (some run) n s ≡ s
  unfolding extraction_loop extraction_step extract_each
  loop_idle zero s none_left = refl
  loop_idle (suc n) s none_left = rw none_left (loop_idle n s none_left)

  failed_once-failures :
      (s : ExtractionWorker) → failures_of id (failed_once s) ≡ failures_of id s + 1
  failed_once-failures s =
      failures_of-put id (failures_of id s + 1) (failed_once s).db s.conv_failures

  failed_once-locks : (s : ExtractionWorker) → (failed_once s).db.locks ≡ s.db.locks
  unfolding advisory_unlock
  failed_once-locks s = erase_first digest show_uuid key (hold key s.db.locks) s.db.locks refl

  failed_once-messages : (s : ExtractionWorker) → (failed_once s).db.messages ≡ s.db.messages
  unfolding advisory_unlock
  failed_once-messages s = refl

  -- How a worker stands that gave the conversation up: no message is left to extract, and the
  -- conversation is passed over for ever, whatever messages it has later.
  abbrev pub GaveUp : ExtractionWorker → ExtractionWorker → Type 0
  GaveUp s t =
      (unextracted_conversations t.db.messages ≡ [])
      × ((db : Db)
          → extract_conversation digest show_uuid (some run) id (record t { db = db })
            ≡ next (record t { db = db }))
      × (t.db.locks ≡ s.db.locks)

  give_up-GaveUp :
      (s : ExtractionWorker)
      → unextracted_conversations s.db.messages ≡ (id ∷ [])
      → GaveUp s (give_up id s)
  give_up-GaveUp s only = (
    mark_clean id s.db (inr only),
    (λ db.
        let four = failures_of-put id 4 db s.conv_failures in
        given_up_run (record (give_up id s) { db = db }) (omega (arith, four))),
    refl,
  )

  extraction_loop-GaveUp_last :
      (n : ℕ) (s : ExtractionWorker)
      → unextracted_conversations s.db.messages ≡ (id ∷ [])
      → failures_of id s ≡ 3
      → GaveUp s (extraction_loop digest show_uuid (some run) (suc n) s)
  extraction_loop-GaveUp_last n s only e =
      let done = give_up-GaveUp s only in
      let ran = loop-next n s (give_up id s) (step_only s (give_up id s) only (last_run s e)) in
      subst (GaveUp s) (sym (ran ∙ loop_idle n (give_up id s) done.0)) done

  -- The retries are bounded. Where exactly one conversation has messages that are not extracted, its
  -- lock is free, it failed three times at most, and each run of the flow for it ends with an error
  -- or too late and leaves the database as it is: after four rounds of the worker, less the failures
  -- that it has, or any number more, no message is left to extract, the worker passes the
  -- conversation over whatever the database holds then, and the locks are those of before.
  pub extraction_loop-GaveUp :
      (n : ℕ) (s : ExtractionWorker)
      → IsFailing
      → unextracted_conversations s.db.messages ≡ (id ∷ [])
      → failures_of id s ≤ 3
      → is_held key s.db.locks ≡ false
      → 4 ≤ failures_of id s + n
      → GaveUp s (extraction_loop digest show_uuid (some run) n s)
  unfolding extraction_loop
  extraction_loop-GaveUp zero s fails only few free enough = absurd (omega (arith, few, enough))
  extraction_loop-GaveUp (suc n) s fails only few free enough =
      elim (Bool-cases (failures_of id s == 3)) [
        | inl three ↦ extraction_loop-GaveUp_last n s only ((==_iff (failures_of id s) 3).0 three)
        | inr under ↦
            let le : failures_of id s ≤ 2 = ground (arith, few, under) in
            let s' = failed_once s in
            let one_more = failed_once-failures s in
            let locks = failed_once-locks s in
            let (clean, over, same) =
              extraction_loop-GaveUp n s' fails
                (ap unextracted_conversations (failed_once-messages s) ∙ only)
                (omega (arith, one_more, le)) (ap (is_held key) locks ∙ free)
                (omega (arith, one_more, enough)) in
            subst (GaveUp s)
              (sym (loop-next n s s' (step_only s s' only (failing_run s fails le free))))
              (clean, over, same ∙ locks)
      ]
