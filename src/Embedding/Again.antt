-- ===== src/Embedding/Again.antt =====
-- What the embedding of a message leaves to a later run, which finds its rows with the vector.
use context_broker.Prelude.{
  ℕ, zero, suc, ◌≡◌, refl, sym, ap, ◌∙◌, inl, inr, Bool-cases, Option, some, Option-cases, List, [],
  ◌∷◌, ◌++◌, cat, join, String, if◌then◌else◌, map, reverse, reverse-cons, take, keep, insert_by,
  sort_by, ◌==◌, ltb, arith,
}
use context_broker.Store.{Message, Db, returned}
use context_broker.Store.Query.{newer}
use context_broker.Workers.Embedding.{set_embedding}
use context_broker.Tiers.{get_or}
use context_broker.Config.{Config, get_tuning, lookup}
use context_broker.Embedding.{
  find_message, is_prior, fetch_prior, prior_line, contextual, embed_text,
}

keep-set_embedding :
    (c n id : ℕ) (t : String) (ms : List Message)
    → keep (is_prior c n) (set_embedding id t ms) ≡ set_embedding id t (keep (is_prior c n) ms)
keep-set_embedding c n id t [] = refl
keep-set_embedding c n id t (m ∷ ms) = ground (arith, keep-set_embedding c n id t ms)

insert-set_embedding :
    (id : ℕ) (t : String) (m : Message) (ms : List Message)
    → insert_by newer
        (if m.id == id then record m { embedding = some t } else m)
        (set_embedding id t ms)
      ≡ set_embedding id t (insert_by newer m ms)
insert-set_embedding id t m [] = refl
insert-set_embedding id t m (x ∷ ms) = ground (arith, insert-set_embedding id t m ms)

sort-set_embedding :
    (id : ℕ) (t : String) (ms : List Message)
    → sort_by newer (set_embedding id t ms) ≡ set_embedding id t (sort_by newer ms)
sort-set_embedding id t [] = refl
sort-set_embedding id t (m ∷ ms) =
    ap (insert_by newer _) (sort-set_embedding id t ms)
    ∙ insert-set_embedding id t m (sort_by newer ms)

take-set_embedding :
    (k id : ℕ) (t : String) (ms : List Message)
    → take k (set_embedding id t ms) ≡ set_embedding id t (take k ms)
take-set_embedding zero id t ms = refl
take-set_embedding (suc k) id t [] = refl
take-set_embedding (suc k) id t (m ∷ ms) = rw (take-set_embedding k id t ms) refl

fetch_prior-set_embedding :
    (c n k id : ℕ) (t : String) (ms : List Message)
    → fetch_prior c n k (set_embedding id t ms) ≡ set_embedding id t (fetch_prior c n k ms)
unfolding fetch_prior
fetch_prior-set_embedding c n k id t ms =
    ap (λ r. take k (sort_by newer r)) (keep-set_embedding c n id t ms)
    ∙ ap (take k) (sort-set_embedding id t (keep (is_prior c n) ms))
    ∙ take-set_embedding k id t (sort_by newer (keep (is_prior c n) ms))

set_embedding_append :
    (id : ℕ) (t : String) (xs ys : List Message)
    → set_embedding id t (xs ++ ys) ≡ set_embedding id t xs ++ set_embedding id t ys
set_embedding_append id t [] ys = refl
set_embedding_append id t (x ∷ xs) ys = rw (set_embedding_append id t xs ys) refl

reverse-set_embedding :
    (id : ℕ) (t : String) (ms : List Message)
    → reverse (set_embedding id t ms) ≡ set_embedding id t (reverse ms)
reverse-set_embedding id t [] = refl
reverse-set_embedding id t (m ∷ ms) =
    let m' = if m.id == id then record m { embedding = some t } else m in
    reverse-cons m' (set_embedding id t ms)
    ∙ ap (λ r. r ++ m' ∷ []) (reverse-set_embedding id t ms)
    ∙ sym (set_embedding_append id t (reverse ms) (m ∷ []))
    ∙ ap (set_embedding id t) (sym (reverse-cons m ms))

map-set_embedding :
    (n id : ℕ) (t : String) (ms : List Message)
    → map (prior_line n) (set_embedding id t ms) ≡ map (prior_line n) ms
map-set_embedding n id t [] = refl
map-set_embedding n id t (m ∷ ms) = elim (Bool-cases (m.id == id)) [
  | inl same ↦ rw (same, map-set_embedding n id t ms) refl
  | inr other ↦ rw (other, map-set_embedding n id t ms) refl
]

contextual-set_embedding :
    (n id : ℕ) (t content : String) (ms : List Message)
    → contextual n content (set_embedding id t ms) ≡ contextual n content ms
contextual-set_embedding n id t content [] = refl
contextual-set_embedding n id t content (m ∷ ms) =
    ap (λ lines. cat ("[Context]\n" ∷ join "\n" lines ∷ "\n[Current]\n" ∷ content ∷ []))
      (ap (map (prior_line n)) (reverse-set_embedding id t (m ∷ ms))
        ∙ map-set_embedding n id t (reverse (m ∷ ms)))

pub set_embedding_again :
    (id : ℕ) (t : String) (ms : List Message)
    → set_embedding id t (set_embedding id t ms) ≡ set_embedding id t ms
set_embedding_again id t [] = refl
set_embedding_again id t (m ∷ ms) = ground (arith, set_embedding_again id t ms)

pub find-set_embedding :
    (id : ℕ) (t : String) (m : Message) (ms : List Message)
    → find_message id ms ≡ some m
    → find_message id (set_embedding id t ms) ≡ some (record m { embedding = some t })
find-set_embedding id t m [] h = absurd (cc h)
find-set_embedding id t m (x ∷ ms) h = ground (arith, find-set_embedding id t m ms, h)

module _ {F : Type 0} (parse_uuid : String → Option ℕ) where
  pub embed_text-reads :
      (config : Config F) (embeddings : List (String × ℕ)) (conv : String) (m : Message)
      (content : String) (db : Db)
      → (embed_text parse_uuid config embeddings conv m content db).1 ≡ db
  unfolding embed_text
  embed_text-reads config embeddings conv m content db =
      let size = get_or (lookup "context_window_size" embeddings) 3 in
      elim (Bool-cases (ltb 0 size)) [
        | inr none_asked ↦ rw none_asked refl
        | inl asked ↦ elim (Option-cases (parse_uuid conv)) [
          | inl unread ↦ rw (asked, unread) refl
          | inr (c, read) ↦ rw (asked, read) refl
        ]
      ]

  pub embed_text_again :
      (config : Config F) (embeddings : List (String × ℕ)) (conv : String) (m : Message)
      (content : String) (id : ℕ) (t : String) (db : Db)
      → (embed_text parse_uuid config embeddings conv
          (record m { embedding = some t })
          content
          (record db { messages = set_embedding id t db.messages })).0
        ≡ (embed_text parse_uuid config embeddings conv m content db).0
  unfolding embed_text
  embed_text_again config embeddings conv m content id t db =
      let size = get_or (lookup "context_window_size" embeddings) 3 in
      let chars = get_tuning config "content_truncation_chars" 500 in
      elim (Bool-cases (ltb 0 size)) [
        | inr none_asked ↦ rw none_asked refl
        | inl asked ↦ elim (Option-cases (parse_uuid conv)) [
          | inl unread ↦ rw (asked, unread) refl
          | inr (c, read) ↦
              rw (asked, read)
                (ap (λ text. returned text)
                  (ap (contextual chars content)
                      (fetch_prior-set_embedding c m.sequence_number size id t db.messages)
                    ∙ contextual-set_embedding chars id t content
                        (fetch_prior c m.sequence_number size db.messages)))
        ]
      ]
