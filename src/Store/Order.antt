-- ===== src/Store/Order.antt =====
-- Rows in the order of their sequence numbers, and what ORDER BY sequence_number DESC makes of them.
use context_broker.Prelude.{
  ℕ, suc, ◌+◌, ◌≤◌, ◌<◌, max, ◌≡◌, refl, ◌∙◌, ap, sym, List, [], ◌∷◌, ◌++◌, All, All-reverse,
  reverse-cons, insert_by, sort_by, length, reverse, arith,
}
use context_broker.Store.{Message}
use context_broker.Store.Query.{newer, messages_of, newest_first, max_sequence}

-- Strictly ascending sequence numbers, all of them above `low`.
abbrev pub IsChronological : ℕ → List Message → Type 0
IsChronological low [] = Unit
IsChronological low (m ∷ ms) = (low < m.sequence_number) × IsChronological m.sequence_number ms

-- The sequence numbers k + 1, k + 2, … without a gap.
abbrev pub IsNumbered : ℕ → List Message → Type 0
IsNumbered k [] = Unit
IsNumbered k (m ∷ ms) = (m.sequence_number ≡ suc k) × IsNumbered (suc k) ms

pub IsNumbered-IsChronological :
    (k : ℕ) (ms : List Message) → IsNumbered k ms → IsChronological k ms
IsNumbered-IsChronological k [] h = tt
IsNumbered-IsChronological k (m ∷ ms) h =
    (omega arith, rw h.0 (IsNumbered-IsChronological (suc k) ms h.1))

IsChronological-weaken :
    (a b : ℕ) (ms : List Message) → a ≤ b → IsChronological b ms → IsChronological a ms
IsChronological-weaken a b [] p h = tt
IsChronological-weaken a b (m ∷ ms) p h = (omega arith, h.1)

pub IsChronological-All :
    (low : ℕ) (ms : List Message) → IsChronological low ms → All (λ m. low < m.sequence_number) ms
IsChronological-All low [] h = tt
IsChronological-All low (m ∷ ms) h = (
  h.0,
  IsChronological-All low ms (IsChronological-weaken low m.sequence_number ms (omega arith) h.1),
)

-- A row that is older than all the others goes to the end.
insert_oldest :
    (m : Message) (ms : List Message)
    → All (λ n. m.sequence_number < n.sequence_number) ms
    → insert_by newer m ms ≡ ms ++ m ∷ []
insert_oldest m [] h = refl
insert_oldest m (n ∷ ms) h = ground (arith, insert_oldest m ms h.1)

sort_by-newer :
    (low : ℕ) (ms : List Message) → IsChronological low ms → sort_by newer ms ≡ reverse ms
sort_by-newer low [] h = refl
sort_by-newer low (m ∷ ms) h =
    let ih = sort_by-newer m.sequence_number ms h.1 in
    ap (insert_by newer m) ih
    ∙ insert_oldest m (reverse ms) (All-reverse _ ms (IsChronological-All m.sequence_number ms h.1))
    ∙ sym (reverse-cons m ms)

-- The rows of a conversation that are stored in order come back newest first.
pub newest_first_lem :
    (c low : ℕ) (ms : List Message)
    → IsChronological low (messages_of c ms)
    → newest_first c ms ≡ reverse (messages_of c ms)
unfolding newest_first
newest_first_lem c low ms h = sort_by-newer low (messages_of c ms) h

max_sequence_lem :
    (k : ℕ) (ms : List Message) → IsNumbered k ms → max k (max_sequence ms) ≡ k + length ms
max_sequence_lem k [] h = omega arith
max_sequence_lem k (m ∷ ms) h = omega (arith, max_sequence_lem (suc k) ms h.1)

-- In a conversation numbered from 1 the next number is one more than the number of rows.
pub max_sequence-length : (ms : List Message) → IsNumbered 0 ms → max_sequence ms ≡ length ms
max_sequence-length ms h = omega (arith, max_sequence_lem 0 ms h)

pub IsNumbered-append :
    (k : ℕ) (ms : List Message) (m : Message)
    → IsNumbered k ms
    → m.sequence_number ≡ suc (k + length ms)
    → IsNumbered k (ms ++ m ∷ [])
IsNumbered-append k [] m h e = (omega arith, tt)
IsNumbered-append k (n ∷ ms) m h e = (h.0, IsNumbered-append (suc k) ms m h.1 (omega arith))
