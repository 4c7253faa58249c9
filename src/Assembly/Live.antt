-- ===== src/Assembly/Live.antt =====
-- The split of the messages in standard_tiered.py: tier 1, the older messages and the chunks.
use context_broker.Prelude.{
  ℕ, zero, suc, ◌+◌, ◌≤◌, ◌<◌, ◌≡◌, refl, sym, ap, ◌∙◌, inl, inr, true, false, some, List, [], ◌∷◌,
  ◌++◌, subst, arith, leb, ltb, leb→le, leb→lt, lt→ltb, ltb→lt, All-map, ap₂, Bool-cases, All,
  All-append_split, total, total-append, keep, keep-append, keep-All, keep_none, reverse,
  reverse-cons, reverse-append, reverse-reverse, append_assoc, append-nil, get_last?,
  get_last?-cons, flatten, length, drop, take-append-drop, length-take, length-drop,
}
use context_broker.Store.{Message, Summary}
use context_broker.Store.Query.{message_tokens}
use context_broker.Store.Order.{IsChronological, IsChronological-All}
use context_broker.Assembly.Partition.{
  Partition, fill_tier1, start_seq, chunks_of, unsummarized, with_older, partition, max_to_seq,
}

abbrev pub tokens : List Message → ℕ
tokens = total message_tokens

-- The first message that was left out would have gone over the ceiling.
abbrev pub Stops : ℕ → ℕ → List Message → Type 0
Stops ceiling used [] = Unit
Stops ceiling used (m ∷ ms) = ceiling < used + message_tokens m

-- The loop keeps a first part of the messages that it is given, newest first.
abbrev Filled : ℕ → ℕ → List Message → List Message → Type 0
Filled ceiling used kept ns =
    (live rest : List Message) × (ns ≡ live ++ rest)
    × (fill_tier1 ceiling used kept ns ≡ reverse live ++ kept)
    × (used + tokens live ≤ ceiling)
    × Stops ceiling (used + tokens live) rest

fill_tier1_lem :
    (ceiling used : ℕ) (kept ns : List Message) → used ≤ ceiling → Filled ceiling used kept ns
unfolding fill_tier1
fill_tier1_lem ceiling used kept [] h = ([], [], refl, refl, omega arith, tt)
fill_tier1_lem ceiling used kept (m ∷ ns) h =
    elim (Bool-cases (leb (used + message_tokens m) ceiling)) [
      | inl fits ↦
          longer fits
            (fill_tier1_lem ceiling (used + message_tokens m) (m ∷ kept) ns (leb→le _ _ fits))
      | inr over ↦ ([], m ∷ ns, refl, rw over refl, omega arith, omega (arith, leb→lt _ _ over))
    ]
  where
    longer :
        leb (used + message_tokens m) ceiling ≡ true
        → Filled ceiling (used + message_tokens m) (m ∷ kept) ns
        → Filled ceiling used kept (m ∷ ns)
    longer fits (live, rest, e, k, b, s) = (
      m ∷ live,
      rest,
      ap (λ l. m ∷ l) e,
      rw (fits, reverse-cons, append_assoc) k,
      omega arith,
      let assoc : used + message_tokens m + tokens live ≡ used + tokens (m ∷ live) = omega arith in
          subst (λ u. Stops ceiling u rest) assoc s,
    )

-- The messages are those that were left out, then tier 1; tier 1 fits under the ceiling, and with the
-- newest message that was left out it would not.
abbrev pub IsSplit : ℕ → List Message → List Message → List Message → Type 0
IsSplit ceiling messages older tier1 =
    (messages ≡ older ++ tier1)
    × (tokens tier1 ≤ ceiling)
    × Stops ceiling (tokens tier1) (reverse older)

tokens-reverse : (ms : List Message) → tokens (reverse ms) ≡ tokens ms
tokens-reverse [] = refl
tokens-reverse (m ∷ ms) =
    rw reverse-cons
      (omega (arith, total-append message_tokens (reverse ms) (m ∷ []), tokens-reverse ms))

pub fill_tier1-IsSplit :
    (ceiling : ℕ) (messages : List Message)
    → (older : List Message) × IsSplit ceiling messages older
        (fill_tier1 ceiling 0 [] (reverse messages))
fill_tier1-IsSplit ceiling messages =
    let (live, rest, e, k, b, s) = fill_tier1_lem ceiling 0 [] (reverse messages) (omega arith) in
    let k' : fill_tier1 ceiling 0 [] (reverse messages) ≡ reverse live =
      k ∙ append-nil (reverse live) in
    let t : tokens (reverse live) ≡ 0 + tokens live = omega (arith, tokens-reverse live) in
    (
      reverse rest,
      (
        sym (reverse-reverse messages)
            ∙ ap reverse e
            ∙ reverse-append live rest
            ∙ ap (λ l. reverse rest ++ l) (sym k'),
        rw k' (omega (arith, t)),
        rw (k', reverse-reverse, t) s,
      ),
    )

below_first :
    (low : ℕ) (older : List Message) (m : Message) (ms : List Message)
    → IsChronological low (older ++ m ∷ ms)
    → All (λ x. ltb x.sequence_number m.sequence_number ≡ true) older
below_first low [] m ms c = tt
below_first low (x ∷ older) m ms c =
    let above =
      All-append_split (λ y. x.sequence_number < y.sequence_number) older (m ∷ ms)
        (IsChronological-All x.sequence_number (older ++ m ∷ ms) c.1) in
    (
      lt→ltb x.sequence_number m.sequence_number above.1.0,
      below_first x.sequence_number older m ms c.1,
    )

not_below_first :
    (low : ℕ) (older : List Message) (m : Message) (ms : List Message)
    → IsChronological low (older ++ m ∷ ms)
    → All (λ x. ltb x.sequence_number m.sequence_number ≡ false) (m ∷ ms)
not_below_first low [] m ms c = (
  ground arith,
  All-map (λ x. m.sequence_number < x.sequence_number) _ ms (λ x h. ground arith)
      (IsChronological-All m.sequence_number ms c.1),
)
not_below_first low (x ∷ older) m ms c = not_below_first x.sequence_number older m ms c.1

below_last :
    (low : ℕ) (ms : List Message) (z : Message)
    → IsChronological low ms
    → get_last? ms ≡ some z
    → All (λ x. ltb x.sequence_number (z.sequence_number + 1) ≡ true) ms
below_last low [] z c e = tt
below_last low (x ∷ []) z c e = (ground arith, tt)
below_last low (x ∷ y ∷ ms) z c e =
    let ih = below_last x.sequence_number (y ∷ ms) z c.1 e in
    (
      lt→ltb x.sequence_number (z.sequence_number + 1)
          (omega (arith, ltb→lt y.sequence_number (z.sequence_number + 1) ih.0)),
      ih,
    )

keep-start_empty :
    (low : ℕ) (ms : List Message)
    → IsChronological low ms
    → keep (λ m. ltb m.sequence_number (start_seq ms [])) ms ≡ ms
unfolding start_seq
keep-start_empty low [] c = refl
keep-start_empty low (x ∷ xs) c =
    let (z, e) = get_last?-cons x xs in
    let start : start_seq (x ∷ xs) [] ≡ z.sequence_number + 1 = rw (e, start_seq) refl in
    subst (λ n. keep (λ m. ltb m.sequence_number n) (x ∷ xs) ≡ x ∷ xs) (sym start)
      (keep-All (λ m. ltb m.sequence_number (z.sequence_number + 1)) (x ∷ xs)
        (below_last low (x ∷ xs) z c e))

-- In chronological order the messages before the start of tier 1 are those that were left out.
keep-start_seq :
    (low : ℕ) (older tier1 : List Message)
    → IsChronological low (older ++ tier1)
    → keep (λ m. ltb m.sequence_number (start_seq (older ++ tier1) tier1)) (older ++ tier1) ≡ older
unfolding start_seq
keep-start_seq low older (m ∷ ms) c =
    let p = λ (x : Message). ltb x.sequence_number m.sequence_number in
    keep-append p older (m ∷ ms)
    ∙ ap₂ (λ a b. a ++ b) (keep-All p older (below_first low older m ms c))
        (keep_none p (m ∷ ms) (not_below_first low older m ms c))
    ∙ append-nil older
keep-start_seq low older [] c =
    let e = append-nil older in rw e (keep-start_empty low older (rw e at c))

keep-start_of :
    (low : ℕ) (messages older tier1 : List Message)
    → messages ≡ older ++ tier1
    → IsChronological low messages
    → keep (λ m. ltb m.sequence_number (start_seq messages tier1)) messages ≡ older
keep-start_of low messages older tier1 e c = rw e (keep-start_seq low older tier1 (rw e at c))

-- The chunks put together are the list that was cut.
flatten-chunks_of {ℓ} :
    {A : Type ℓ} (fuel size : ℕ) (xs : List A)
    → 0 < size
    → length xs ≤ fuel
    → flatten (chunks_of fuel size xs) ≡ xs
unfolding chunks_of flatten
flatten-chunks_of zero size [] h b = refl
flatten-chunks_of zero size (x ∷ xs) h b = absurd (omega arith)
flatten-chunks_of (suc fuel) size [] h b = refl
flatten-chunks_of (suc fuel) size (x ∷ xs) h b =
    rw
      (flatten-chunks_of fuel size (drop size (x ∷ xs)) h
        (omega (arith, length-drop size (x ∷ xs))))
      (take-append-drop size (x ∷ xs))

-- No chunk is empty or larger than the size.
chunks_of-All {ℓ} :
    {A : Type ℓ} (fuel size : ℕ) (xs : List A)
    → 0 < size
    → All (λ c. (0 < length c) × (length c ≤ size)) (chunks_of fuel size xs)
unfolding chunks_of
chunks_of-All zero size xs h = tt
chunks_of-All (suc fuel) size [] h = tt
chunks_of-All (suc fuel) size (x ∷ xs) h =
    (omega (arith, length-take size (x ∷ xs)), chunks_of-All fuel size (drop size (x ∷ xs)) h)

-- What the partition is for a given split.
abbrev IsComplete : ℕ → ℕ → List Summary → List Message → Partition → Type 0
IsComplete ceiling size tier2 messages p =
    IsSplit ceiling messages p.older_messages p.tier1_messages
    × (flatten p.chunks ≡ unsummarized (max_to_seq tier2) p.older_messages)
    × All (λ c. (0 < length c) × (length c ≤ size)) p.chunks

with_older-IsComplete :
    (ceiling size most : ℕ) (tier2 : List Summary) (messages tier1 older : List Message)
    → 0 < size
    → IsSplit ceiling messages older tier1
    → IsComplete ceiling size tier2 messages (with_older size most tier2 tier1 older)
unfolding with_older flatten
with_older-IsComplete ceiling size most tier2 messages tier1 [] h s = (s, refl, tt)
with_older-IsComplete ceiling size most tier2 messages tier1 (m ∷ ms) h s =
    let pending = unsummarized (max_to_seq tier2) (m ∷ ms) in
    (
      s,
      flatten-chunks_of (length pending) size pending h (omega arith),
      chunks_of-All (length pending) size pending h,
    )

-- For messages in chronological order: the messages are the older ones followed by tier 1, in this
-- order; tier 1 fits under the ceiling and would not with one more message; and the chunks, each of
-- at least one and at most `chunk_size` messages, hold exactly the older messages with a
-- sequence number above the largest at which an active summary of tier 2 ends, in their order.
pub partition_complete :
    (ceiling chunk_size max_chunks low : ℕ) (tier2 : List Summary) (messages : List Message)
    → 0 < chunk_size
    → IsChronological low messages
    → let p = partition ceiling chunk_size max_chunks tier2 messages in
      IsSplit ceiling messages p.older_messages p.tier1_messages
      × (flatten p.chunks ≡ unsummarized (max_to_seq tier2) p.older_messages)
      × All (λ c. (0 < length c) × (length c ≤ chunk_size)) p.chunks
unfolding partition
partition_complete ceiling size most low tier2 messages h c =
    let (older, split) = fill_tier1-IsSplit ceiling messages in
    rw (keep-start_of low messages older _ split.0 c)
      (with_older-IsComplete ceiling size most tier2 messages _ older h split)
