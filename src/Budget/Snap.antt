-- ===== src/Budget/Snap.antt =====
-- The bucket that app/budget.py chooses.
use context_broker.Prelude.{
  ℕ, ◌≤◌, ◌<◌, ◌≡◌, refl, ◌⊎◌, Bool, true, false, List, [], ◌∷◌, All, arith, leb, leb→lt,
  if◌then◌else◌,
}
use context_broker.Budget.{budget_buckets, snap_from, snap_budget}

-- `x` is one of the list's members.
abbrev pub In : ℕ → List ℕ → Type 0
In x [] = ⊥
In x (y ∷ ys) = (x ≡ y) ⊎ In x ys

-- Every bucket that could hold the request is at least the chosen one.
abbrev pub IsLeast : ℕ → ℕ → List ℕ → Type 0
IsLeast s requested = All (λ b. requested ≤ b → s ≤ b)

IsAscending : ℕ → List ℕ → Type 0
IsAscending low [] = Unit
IsAscending low (b ∷ bs) = (low < b) × IsAscending b bs

IsAscending-IsLeast : (s r : ℕ) (bs : List ℕ) → IsAscending s bs → IsLeast s r bs
unfolding IsAscending
IsAscending-IsLeast s r [] h = tt
IsAscending-IsLeast s r (b ∷ bs) h =
    (λ _. omega arith, IsAscending-IsLeast s r bs (weaken s b bs h.0 h.1))
  where
    weaken : (s b : ℕ) (bs : List ℕ) → s < b → IsAscending b bs → IsAscending s bs
    weaken s b [] p q = tt
    weaken s b (c ∷ cs) p q = (omega arith, q.1)

snap_from-IsLeast :
    (bs : List ℕ) (low r d : ℕ) → IsAscending low bs → IsLeast (snap_from bs r d) r bs
unfolding snap_from IsAscending
snap_from-IsLeast [] low r d h = tt
snap_from-IsLeast (b ∷ bs) low r d h = branch (leb r b) refl (snap_from-IsLeast bs b r b h.1)
  where
    branch :
        (t : Bool)
        → leb r b ≡ t
        → IsLeast (snap_from bs r b) r bs
        → IsLeast (if t then b else snap_from bs r b) r (b ∷ bs)
    branch true fits ih = (λ _. omega arith, IsAscending-IsLeast b r bs h.1)
    branch false over ih = (λ p. absurd (omega (arith, leb→lt r b over)), ih)

le-snap_from : (bs : List ℕ) (r d : ℕ) → IsAscending d bs → d ≤ snap_from bs r d
unfolding snap_from IsAscending
le-snap_from [] r d h = omega arith
le-snap_from (b ∷ bs) r d h = ground (arith, le-snap_from bs r b h.1)

snap_from_mono :
    (bs : List ℕ) (a b d : ℕ) → IsAscending d bs → a ≤ b → snap_from bs a d ≤ snap_from bs b d
unfolding snap_from IsAscending
snap_from_mono [] a b d h p = omega arith
snap_from_mono (x ∷ bs) a b d h p =
    ground (arith, le-snap_from bs b x h.1, snap_from_mono bs a b x h.1 p)

-- A request that some bucket can hold is snapped to a bucket that holds it, and to the least such
-- bucket: every bucket that holds the request is at least as large.
pub snap_budget-IsLeast :
    (requested : ℕ)
    → requested ≤ 2097152
    → (requested ≤ snap_budget requested)
      × In (snap_budget requested) budget_buckets
      × IsLeast (snap_budget requested) requested budget_buckets
unfolding snap_budget IsAscending
snap_budget-IsLeast r h =
    (ground arith, ground arith, snap_from-IsLeast budget_buckets 0 r 0 (omega arith))

-- A request beyond all buckets is cut to the largest bucket.
snap_budget_over : (requested : ℕ) → 2097152 < requested → snap_budget requested ≡ 2097152
unfolding snap_budget
snap_budget_over r h = ground arith

-- A larger request never gets a smaller bucket.
snap_budget_mono : (a b : ℕ) → a ≤ b → snap_budget a ≤ snap_budget b
unfolding snap_budget IsAscending
snap_budget_mono a b = snap_from_mono budget_buckets a b 0 (omega arith)
