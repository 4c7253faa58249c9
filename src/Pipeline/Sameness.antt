-- ===== src/Pipeline/Sameness.antt =====
-- What the test of message_pipeline.py for a repeated message means.
use context_broker.Prelude.{
  ◌≡◌, refl, ap, inl, inr, Bool, true, false, ◌&&◌, Option, none, some, String, arith, Bool-cases,
  is_some, str_eq, opt_eq, eq_refl, eq_iff,
}
use context_broker.Store.{Message}
use context_broker.Pipeline.Ingest.{is_repeat}

-- The row has this sender, and both contents are the same text.
abbrev pub IsSame : Message → String → Option String → Type 0
IsSame m sender content =
    (m.sender ≡ sender) × (text : String) × (m.content ≡ some text) × (content ≡ some text)

same-is_repeat :
    (m : Message) (sender text : String) (content : Option String)
    → m.sender ≡ sender
    → m.content ≡ some text
    → content ≡ some text
    → is_repeat (some m) sender content ≡ true
same-is_repeat m sender text content s c d = rw (s, c, d, eq_refl sender, eq_refl text) refl

and_true : (a b : Bool) → (a && b) ≡ true → (a ≡ true) × (b ≡ true)
and_true a b h = (ground (arith, h), ground (arith, h))

same_text :
    (o p : Option String)
    → opt_eq o p ≡ true
    → is_some p ≡ true
    → (text : String) × (o ≡ some text) × (p ≡ some text)
same_text none none e h = absurd (cc h)
same_text none (some b) e h = absurd (cc e)
same_text (some a) none e h = absurd (cc h)
same_text (some a) (some b) e h = (b, ap (λ t. some t) ((eq_iff a b).0 e), refl)

pub is_repeat-IsSame :
    (m : Message) (sender : String) (content : Option String)
    → is_repeat (some m) sender content ≡ true
    → IsSame m sender content
is_repeat-IsSame m sender content h =
    let outer = and_true (str_eq m.sender sender && opt_eq m.content content) (is_some content) h in
    let inner = and_true (str_eq m.sender sender) (opt_eq m.content content) outer.0 in
    let (text, first, second) = same_text m.content content inner.1 outer.1 in
    ((eq_iff m.sender sender).0 inner.0, text, first, second)

pub not-IsSame :
    (m : Message) (sender : String) (content : Option String)
    → is_repeat (some m) sender content ≡ false
    → ¬ IsSame m sender content
not-IsSame m sender content h (same, text, c, d) =
    cc (h, same-is_repeat m sender text content same c d)

pub is_repeat-other :
    (m : Message) (sender : String) (content : Option String)
    → ¬ IsSame m sender content
    → is_repeat (some m) sender content ≡ false
is_repeat-other m sender content h = elim (Bool-cases (is_repeat (some m) sender content)) [
  | inl same ↦ absurd (h (is_repeat-IsSame m sender content same))
  | inr other ↦ other
]
