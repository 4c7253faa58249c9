-- ===== src/Budget.antt =====
-- app/budget.py: the standard budget buckets and the snapping of a requested budget to one.
pub mod Snap
use context_broker.Prelude.{ℕ, List, [], ◌∷◌, leb, if◌then◌else◌}

abbrev pub budget_buckets : List ℕ
budget_buckets =
    4096 ∷ 8192 ∷ 16384 ∷ 32768 ∷ 65536 ∷ 131072 ∷ 204800 ∷ 262144 ∷ 524288 ∷ 1048576 ∷ 2097152 ∷ []

-- The loop over the buckets; the last one is returned where none is large enough.
pub snap_from : List ℕ → ℕ → ℕ → ℕ
snap_from [] requested largest = largest
snap_from (bucket ∷ buckets) requested largest =
    if leb requested bucket then bucket else snap_from buckets requested bucket

unfoldable pub snap_budget : ℕ → ℕ
unfolding snap_from
snap_budget requested = snap_from budget_buckets requested 0
