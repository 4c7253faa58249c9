-- ===== src/Assembly/Guard.antt =====
-- The loop of `compact_tier1` over the answers of the LLM: its budget guard and the rows that it
-- writes.
use context_broker.Prelude.{
  ℕ, ◌+◌, ◌≤◌, ◌<◌, ◌≡◌, ◌∙◌, refl, ap, inl, inr, Bool, true, false, ◌&&◌, Option, none, some, List,
  [], ◌∷◌, ◌++◌, String, arith, Bool-cases, any, total, total-append, append_assoc, estimate_tokens,
  All, All-append,
}
use context_broker.Store.{LockTable, Message, Summary, Db}
use context_broker.Assembly.Compact.{
  Scope, Progress, Round, stop, go, is_over, try_insert, rival_insert, summarize_round,
  insert_summaries, first_seq, last_seq, has_range, add_summary, summary_row, is_taken, extract,
}

any-append_true :
    (q : Summary → Bool) (rs : List Summary) (r : Summary)
    → q r ≡ true
    → any q (rs ++ r ∷ []) ≡ true
any-append_true q [] r h = rw h refl
any-append_true q (x ∷ rs) r h = ground (arith, any-append_true q rs r h)

has_range_self :
    (scope : Scope) (chunk : List Message) (text : String) (db : Db)
    → has_range scope.window 2 (first_seq chunk) (last_seq chunk) (summary_row scope chunk text db)
      ≡ true
unfolding summary_row
has_range_self scope chunk text db = ground arith

-- A round ends the loop, changes nothing, finds that another assembler was faster, or writes a row
-- for its summary, which fits under the budget.
data RoundEffect (scope : Scope) (budget : ℕ) (chunk : List Message) (p : Progress) (db : Db)
    (r : Round) : Type 0 where
  stopped : r ≡ stop → RoundEffect scope budget chunk p db r
  skipped : r ≡ go p db → RoundEffect scope budget chunk p db r
  outrun :
      (text : String)
      → is_taken scope chunk db ≡ false
      → r ≡ go p (add_summary (summary_row scope chunk text db) db)
      → RoundEffect scope budget chunk p db r
  wrote :
      (text : String) (p' : Progress)
      → is_taken scope chunk db ≡ false
      → is_over budget p text ≡ false
      → p'.new_summaries ≡ p.new_summaries ++ text ∷ []
      → p'.cumulative_summary_tokens ≡ p.cumulative_summary_tokens + estimate_tokens text
      → r ≡ go p' (add_summary (summary_row scope chunk text db) db)
      → RoundEffect scope budget chunk p db r

insert-Effect :
    (scope : Scope) (budget : ℕ) (rival : Option String) (chunk : List Message) (text : String)
    (p : Progress) (db : Db)
    → is_over budget p text ≡ false
    → RoundEffect scope budget chunk p db
        (try_insert scope chunk text p (rival_insert rival scope chunk db))
unfolding try_insert rival_insert
insert-Effect scope budget none chunk text p db fits = elim (Bool-cases (is_taken scope chunk db)) [
  | inl taken ↦ skipped (rw taken refl)
  | inr free ↦ wrote text written free fits refl refl (rw free refl)
]
  where
    written : Progress
    written = record {
      new_summaries = p.new_summaries ++ text ∷ [];
      cumulative_summary_tokens = p.cumulative_summary_tokens + estimate_tokens text;
      extractions =
          p.extractions ++ extract scope chunk (add_summary (summary_row scope chunk text db) db);
    }
insert-Effect scope budget (some other) chunk text p db fits =
    elim (Bool-cases (is_taken scope chunk db)) [
      | inl taken ↦ skipped (rw taken (rw taken refl))
      | inr free ↦ outrun other free (
          rw free (
            rw
              (any-append_true _ db.summaries (summary_row scope chunk other db)
                (has_range_self scope chunk other db))
              refl))
    ]

summarize_round-Effect :
    (scope : Scope) (budget : ℕ) (rival : Option String) (chunk : List Message)
    (answer : Option String) (p : Progress) (db : Db)
    → RoundEffect scope budget chunk p db (summarize_round scope budget rival chunk answer p db)
unfolding summarize_round
summarize_round-Effect scope budget rival chunk none p db = skipped refl
summarize_round-Effect scope budget rival chunk (some text) p db =
    elim (Bool-cases (is_over budget p text)) [
      | inl over ↦ stopped (rw over refl)
      | inr fits ↦ rw fits (elim (Bool-cases (any (active_range) db.summaries)) [
        | inl there ↦ skipped (rw there refl)
        | inr new ↦ rw new (insert-Effect scope budget rival chunk text p db fits)
      ])
    ]
  where
    active_range : Summary → Bool
    active_range r = has_range scope.window 2 (first_seq chunk) (last_seq chunk) r && r.is_active

-- The key of the unique index of `r` is that of `q`.
abbrev pub same_range : Summary → Summary → Bool
same_range r q = has_range r.context_window_id r.tier r.summarizes_from_seq r.summarizes_to_seq q

-- The unique index holds: no two rows have one key.
abbrev pub IsUnique : List Summary → Type 0
IsUnique [] = Unit
IsUnique (r ∷ rs) = All (λ q. same_range r q ≡ false) rs × IsUnique rs

same_range_comm : (r q : Summary) → same_range q r ≡ false → same_range r q ≡ false
same_range_comm r q h = ground arith

IsUnique-append :
    (rs : List Summary) (x : Summary)
    → IsUnique rs
    → any (same_range x) rs ≡ false
    → IsUnique (rs ++ x ∷ [])
IsUnique-append [] x u h = (tt, tt)
IsUnique-append (r ∷ rs) x u h = elim (Bool-cases (same_range x r)) [
  | inl same ↦ cc (h, same)
  | inr other ↦
      let h' : any (same_range x) rs ≡ false = rw other at h in
      (
        All-append (λ q. same_range r q ≡ false) rs (x ∷ []) u.0 (same_range_comm r x other, tt),
        IsUnique-append rs x u.1 h',
      )
]

-- A row that a call for this window writes.
abbrev pub IsChunkRow : Scope → Summary → Type 0
IsChunkRow scope r = (r.context_window_id ≡ scope.window) × (r.tier ≡ 2) × (r.is_active ≡ true)

-- What the loop keeps, from the rows `start` at which it began.
pub record IsSound (scope : Scope) (budget : ℕ) (start : List Summary) (p : Progress) (db : Db)
    : Type 0 where
  pub summed : total estimate_tokens p.new_summaries ≡ p.cumulative_summary_tokens
  pub within : 0 < budget → p.cumulative_summary_tokens ≤ budget
  pub unique : IsUnique db.summaries
  pub added : List Summary
  pub rows : db.summaries ≡ start ++ added
  pub kinds : All (IsChunkRow scope) added

add_row-IsSound :
    (scope : Scope) (budget : ℕ) (start : List Summary) (p : Progress) (db : Db)
    (chunk : List Message) (text : String)
    → is_taken scope chunk db ≡ false
    → IsSound scope budget start p db
    → IsSound scope budget start p (add_summary (summary_row scope chunk text db) db)
add_row-IsSound scope budget start p db chunk text free h =
    let row = summary_row scope chunk text db in
    record {
      summed = h.summed;
      within = h.within;
      unique = IsUnique-append db.summaries row h.unique (unfold summary_row in free);
      added = h.added ++ row ∷ [];
      rows = ap (λ l. l ++ row ∷ []) h.rows ∙ append_assoc start h.added (row ∷ []);
      kinds =
          All-append (IsChunkRow scope) h.added (row ∷ []) h.kinds
            (unfold summary_row in ((refl, refl, refl), tt));
    }

wrote-IsSound :
    (scope : Scope) (budget : ℕ) (start : List Summary) (p p' : Progress) (db : Db) (text : String)
    → is_over budget p text ≡ false
    → p'.new_summaries ≡ p.new_summaries ++ text ∷ []
    → p'.cumulative_summary_tokens ≡ p.cumulative_summary_tokens + estimate_tokens text
    → IsSound scope budget start p db
    → IsSound scope budget start p' db
wrote-IsSound scope budget start p p' db text fits e c h = record {
  summed =
      ap (total estimate_tokens) e
      ∙ omega (arith, total-append estimate_tokens p.new_summaries (text ∷ []), h.summed, c);
  within = λ pos. rw c (ground (arith, fits, pos));
  unique = h.unique;
  added = h.added;
  rows = h.rows;
  kinds = h.kinds;
}

-- The loop after one round: `next` stands for the rounds that follow.
abbrev after_round : Round → Progress → Db → (Progress → Db → Progress × Db) → Progress × Db
after_round stop p db next = (p, db)
after_round (go p' db') p db next = next p' db'

after_round-IsSound :
    (scope : Scope) (budget : ℕ) (start : List Summary) (chunk : List Message) (p : Progress)
    (db : Db) (r : Round) (next : Progress → Db → Progress × Db)
    → RoundEffect scope budget chunk p db r
    → IsSound scope budget start p db
    → ((q : Progress) (d : Db)
        → IsSound scope budget start q d
        → IsSound scope budget start (next q d).0 (next q d).1)
    → IsSound scope budget start (after_round r p db next).0 (after_round r p db next).1
after_round-IsSound scope budget start chunk p db r next (stopped e) h ih = rw e h
after_round-IsSound scope budget start chunk p db r next (skipped e) h ih = rw e (ih p db h)
after_round-IsSound scope budget start chunk p db r next (outrun text free e) h ih =
    rw e (ih p _ (add_row-IsSound scope budget start p db chunk text free h))
after_round-IsSound scope budget start chunk p db r next (wrote text p' free fits s c e) h ih =
    rw e (
      ih p' _ (
        wrote-IsSound scope budget start p p' _ text fits s c
          (add_row-IsSound scope budget start p db chunk text free h)))

round_step :
    (rivals : ℕ → Option String) (scope : Scope) (budget i : ℕ) (chunk : List Message)
    (answer : Option String) (rest : List (List Message × Option String)) (p : Progress) (db : Db)
    → insert_summaries rivals scope budget i ((chunk, answer) ∷ rest) p db
      ≡ after_round
          (summarize_round scope budget (rivals i) chunk answer p db)
          p
          db
          (insert_summaries rivals scope budget (i + 1) rest)
unfolding insert_summaries
round_step rivals scope budget i chunk answer rest p db =
    by_round (summarize_round scope budget (rivals i) chunk answer p db)
  where
    by_round :
        (r : Round)
        → ◌≡◌ {A = Progress × Db}
            (elim r [
              | stop ↦ (p, db)
              | go p' db' ↦ insert_summaries rivals scope budget (i + 1) rest p' db'
            ])
            (after_round r p db (insert_summaries rivals scope budget (i + 1) rest))
    by_round stop = refl
    by_round (go p' db') = refl

-- The loop of `compact_tier1`, whatever the answers of the LLM and the other assemblers: the texts
-- that it returns fit together into the budget, if there is one; it only appends rows, all of them
-- active ones of tier 2 for its own window; and it keeps the unique index.
pub insert_summaries-IsSound :
    (rivals : ℕ → Option String) (scope : Scope) (budget i : ℕ)
    (results : List (List Message × Option String)) (start : List Summary) (p : Progress) (db : Db)
    → IsSound scope budget start p db
    → let r = insert_summaries rivals scope budget i results p db in
      IsSound scope budget start r.0 r.1
insert_summaries-IsSound rivals scope budget i [] start p db h = unfold insert_summaries in h
insert_summaries-IsSound rivals scope budget i ((chunk, answer) ∷ rest) start p db h =
    rw (round_step rivals scope budget i chunk answer rest p db) (
      after_round-IsSound scope budget start chunk p db _ _
        (summarize_round-Effect scope budget (rivals i) chunk answer p db) h
        (λ q d. insert_summaries-IsSound rivals scope budget (i + 1) rest start q d))

after_round-locks :
    (scope : Scope) (budget : ℕ) (held : LockTable) (chunk : List Message) (p : Progress) (db : Db)
    (r : Round) (next : Progress → Db → Progress × Db)
    → RoundEffect scope budget chunk p db r
    → db.locks ≡ held
    → ((q : Progress) (d : Db) → d.locks ≡ held → (next q d).1.locks ≡ held)
    → (after_round r p db next).1.locks ≡ held
after_round-locks scope budget held chunk p db r next (stopped e) h ih = rw e h
after_round-locks scope budget held chunk p db r next (skipped e) h ih = rw e (ih p db h)
after_round-locks scope budget held chunk p db r next (outrun text free e) h ih = rw e (ih p _ h)
after_round-locks scope budget held chunk p db r next (wrote text p' free fits s c e) h ih =
    rw e (ih p' _ h)

-- The loop touches no lock.
pub locks-insert_summaries :
    (rivals : ℕ → Option String) (scope : Scope) (budget i : ℕ)
    (results : List (List Message × Option String)) (held : LockTable) (p : Progress) (db : Db)
    → db.locks ≡ held
    → (insert_summaries rivals scope budget i results p db).1.locks ≡ held
locks-insert_summaries rivals scope budget i [] held p db h = unfold insert_summaries in h
locks-insert_summaries rivals scope budget i ((chunk, answer) ∷ rest) held p db h =
    rw (round_step rivals scope budget i chunk answer rest p db) (
      after_round-locks scope budget held chunk p db _ _
        (summarize_round-Effect scope budget (rivals i) chunk answer p db) h
        (λ q d. locks-insert_summaries rivals scope budget (i + 1) rest held q d))
