-- ===== src/Tiers/Ceiling.antt =====
-- The deadband of tier_scaling.py: the ceiling of tier 1 and the point at which compaction is due.
use context_broker.Prelude.{ℕ, ◌+◌, ◌≤◌, ◌≡◌, true, some, arith, lt→ltb, ltb→lt}
use context_broker.Floats.{Floats, FloatLaws}
use context_broker.Tiers.{
  DeadbandConfig, share, shares, calculate_tier1_ceiling, should_trigger_compaction,
}

module _ (f : Floats) where
  open f use {Float}

  -- The ceiling is never below the floor; above the floor, it is what the two upper tiers leave of
  -- the share of the budget that may be used: ceiling, tier 2 and tier 3 fit into that share.
  ceiling_bounds :
      (budget n : ℕ) (db : DeadbandConfig Float)
      → let c = calculate_tier1_ceiling f budget db (some n) in
        let tier2 = shares f budget db.tier2_chunk_pct n in
        let tier3 = share f budget db.tier3_pct in
        let floor = share f budget db.tier1_floor_pct in
        (floor ≤ c)
        × (tier2 + tier3 + floor ≤ share f budget db.effective_utilization
            → tier2 + tier3 + c ≡ share f budget db.effective_utilization)
  unfolding calculate_tier1_ceiling
  ceiling_bounds budget n db = (omega arith, λ h. omega arith)

  -- If compaction is due with n chunks in tier 2, it is due with any larger number m of them, where
  -- the floats round monotonically.
  should_trigger_compaction_mono :
      (laws : FloatLaws f) (tokens budget n m : ℕ) (db : DeadbandConfig Float)
      → n ≤ m
      → should_trigger_compaction f tokens budget db (some n) ≡ true
      → should_trigger_compaction f tokens budget db (some m) ≡ true
  unfolding should_trigger_compaction
  should_trigger_compaction_mono laws tokens budget n m db h t =
      let mono = laws.share_mono budget n m db.tier2_chunk_pct h in
      lt→ltb _ tokens (omega (arith, mono, ltb→lt _ tokens t))
