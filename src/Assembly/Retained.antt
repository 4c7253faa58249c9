-- ===== src/Assembly/Retained.antt =====
-- Which chunks of tier 2 a full compaction consolidates.
use context_broker.Prelude.{
  ℕ, ◌-◌, ◌<◌, ◌≡◌, sym, inl, inr, List, [], ◌++◌, arith, ltb, length, drop, Bool-cases, append-nil,
  take-append-drop, length-take, length-drop,
}
use context_broker.Store.{Summary}
use context_broker.Assembly.Archive.{consolidated}

-- With more active chunks than tier2_min_chunks, a full compaction consolidates the oldest ones, at
-- least one, and keeps exactly the newest tier2_min_chunks - 1, or none where that is not positive.
consolidated_lem :
    (min_chunks : ℕ) (active : List Summary)
    → min_chunks < length active
    → let oldest = consolidated (min_chunks - 1) active in
      (newest : List Summary) × (active ≡ oldest ++ newest)
      × (length newest ≡ min_chunks - 1)
      × (0 < length oldest)
unfolding consolidated
consolidated_lem min_chunks active more = elim (Bool-cases (ltb 0 (min_chunks - 1))) [
  | inl keeps ↦
      let n = length active - (min_chunks - 1) in
      rw keeps (
        drop n active,
        sym (take-append-drop n active),
        omega (arith, length-drop n active, more),
        omega (arith, length-take n active, more),
      )
  | inr keeps_none ↦
      rw keeps_none ([], sym (append-nil active), ground (arith, keeps_none), omega (arith, more))
]
