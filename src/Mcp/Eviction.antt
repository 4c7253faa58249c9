-- ===== src/Mcp/Eviction.antt =====
-- What the eviction of the sessions does to their number, their replies and the counter.
use context_broker.Prelude.{
  ℕ, ◌+◌, ◌≤◌, ◌≡◌, refl, ap, ◌⊎◌, inl, inr, Bool, not, List, [], ◌∷◌, ◌++◌, arith, ltb, length,
  keep, All, Bool-cases,
}
use context_broker.Prelude.Int.{ℤ, pos, pos_part, neg_part, ◌-ℤ◌, ◌≤ℤ◌, ltb_ℤ, -ℤ_parts}
use context_broker.Mcp.Sessions.{
  Session, Server, Limits, qsize, queued, is_outdated, evict_stale, evict_over, evict_pressure,
  evict_stale_sessions,
}

-- A counter goes from one value to another as the number of replies does.
abbrev pub Tracks : ℤ → ℕ → ℤ → ℕ → Type 0
Tracks n q n' q' = pos_part n' + neg_part n + q ≡ neg_part n' + pos_part n + q'

queued_split :
    (p : Session → Bool) (ss : List Session)
    → queued (keep p ss) + queued (keep (λ x. not (p x)) ss) ≡ queued ss
queued_split p [] = refl
queued_split p (s ∷ ss) = ground (arith, queued_split p ss)

evict_stale-Tracks :
    (ttl now : ℕ) (s : Server)
    → let t = evict_stale ttl now s in
      Tracks s.total_queued (queued s.sessions) t.total_queued (queued t.sessions)
unfolding evict_stale
evict_stale-Tracks ttl now s = omega (
  arith,
  queued_split (is_outdated ttl now) s.sessions,
  -ℤ_parts s.total_queued (pos (queued (keep (is_outdated ttl now) s.sessions))),
)

-- The loop ends with as many sessions as there may be, and the counter follows.
evict_over_lem :
    (max : ℕ) (ss gone : List Session) (n : ℤ)
    → let r = evict_over max ss gone n in (length r.0 ≤ max) × Tracks n (queued ss) r.2 (queued r.0)
unfolding evict_over
evict_over_lem max [] gone n = (omega arith, omega arith)
evict_over_lem max (s ∷ ss) gone n =
    ground (
      arith,
      evict_over_lem max ss (gone ++ s ∷ []) (n -ℤ pos (qsize s)),
      -ℤ_parts n (pos (qsize s)),
    )

-- The loop ends with a counter within the cap, or without sessions, and the counter follows.
evict_pressure_lem :
    (cap : ℕ) (ss gone : List Session) (n : ℤ)
    → let r = evict_pressure cap ss gone n in
      ((r.2 ≤ℤ pos cap) ⊎ (r.0 ≡ []))
      × (length r.0 ≤ length ss)
      × Tracks n (queued ss) r.2 (queued r.0)
unfolding evict_pressure
evict_pressure_lem cap [] gone n = (inr refl, omega arith, omega arith)
evict_pressure_lem cap (s ∷ ss) gone n = elim (Bool-cases (ltb_ℤ (pos cap) n)) [
  | inl more ↦
      let (a, b, c) = evict_pressure_lem cap ss (gone ++ s ∷ []) (n -ℤ pos (qsize s)) in
      rw more (a, omega arith, omega (arith, c, -ℤ_parts n (pos (qsize s))))
  | inr within ↦ rw within (inl (ground arith), omega arith, omega arith)
]

module _ {κ} (P : Session → Type κ) where
  All-evict_over :
      (max : ℕ) (ss gone : List Session) (n : ℤ) → All P ss → All P (evict_over max ss gone n).0
  unfolding evict_over
  All-evict_over max [] gone n h = tt
  All-evict_over max (s ∷ ss) gone n h = elim (Bool-cases (ltb max (length (s ∷ ss)))) [
    | inl more ↦ rw more (All-evict_over max ss (gone ++ s ∷ []) (n -ℤ pos (qsize s)) h.1)
    | inr fits ↦ rw fits h
  ]

  All-evict_pressure :
      (cap : ℕ) (ss gone : List Session) (n : ℤ) → All P ss → All P (evict_pressure cap ss gone n).0
  unfolding evict_pressure
  All-evict_pressure cap [] gone n h = tt
  All-evict_pressure cap (s ∷ ss) gone n h = elim (Bool-cases (ltb_ℤ (pos cap) n)) [
    | inl more ↦ rw more (All-evict_pressure cap ss (gone ++ s ∷ []) (n -ℤ pos (qsize s)) h.1)
    | inr within ↦ rw within h
  ]

  -- What holds for the sessions that are younger than the TTL holds for those that stay.
  pub All-evict_stale_sessions :
      (l : Limits) (now : ℕ) (s : Server)
      → All P (keep (λ x. not (is_outdated l.session_ttl now x)) s.sessions)
      → All P (evict_stale_sessions l now s).sessions
  unfolding evict_stale_sessions evict_stale
  All-evict_stale_sessions l now s h =
      All-evict_pressure l.max_total_queued _ _ _ (All-evict_over l.max_sessions _ _ _ h)

pub evict_stale_sessions-Tracks :
    (l : Limits) (now : ℕ) (s : Server)
    → let t = evict_stale_sessions l now s in
      Tracks s.total_queued (queued s.sessions) t.total_queued (queued t.sessions)
unfolding evict_stale_sessions
evict_stale_sessions-Tracks l now s =
    let fresh = evict_stale l.session_ttl now s in
    let r = evict_over l.max_sessions fresh.sessions fresh.orphans fresh.total_queued in
    omega (
      arith,
      evict_stale-Tracks l.session_ttl now s,
      (evict_over_lem l.max_sessions fresh.sessions fresh.orphans fresh.total_queued).1,
      (evict_pressure_lem l.max_total_queued r.0 r.1 r.2).2,
    )

-- The sessions that stay are as many as there may be, and the counter is within its cap, if it was
-- not above the number of replies.
pub evict_stale_sessions-le :
    (l : Limits) (now : ℕ) (s : Server)
    → s.total_queued ≤ℤ pos (queued s.sessions)
    → let t = evict_stale_sessions l now s in
      (length t.sessions ≤ l.max_sessions) × (t.total_queued ≤ℤ pos l.max_total_queued)
unfolding evict_stale_sessions
evict_stale_sessions-le l now s h =
    let fresh = evict_stale l.session_ttl now s in
    let r = evict_over l.max_sessions fresh.sessions fresh.orphans fresh.total_queued in
    let (few, follows) =
      evict_over_lem l.max_sessions fresh.sessions fresh.orphans fresh.total_queued in
    let (ended, shorter, then_follows) = evict_pressure_lem l.max_total_queued r.0 r.1 r.2 in
    let first = evict_stale-Tracks l.session_ttl now s in
    (
      omega arith,
      elim ended [ inl within ↦ within | inr none_left ↦ omega (arith, ap queued none_left) ],
    )
