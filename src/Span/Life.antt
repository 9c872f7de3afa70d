-- ===== src/Span/Life.antt =====
-- The records that one span of sap.go publishes, in their order.
use sap.Base.{
  ℕ, ◌≤◌, ◌<◌, ◌≡◌, ◌≢◌, String, none, some, List, [], ◌∷◌, ◌++◌, Bool, true, false, ite, if_pos,
  if_neg, str_dec, arith,
}
use sap.Message.{Record, Kind, not_set, span_started, span_updated, span_ended, span_event}
use sap.Message.Started
use sap.Message.Started.{SpanStarted}
use sap.Message.Updated
use sap.Message.Updated.{SpanUpdated}
use sap.Message.Ended
use sap.Message.Ended.{SpanEnded}
use sap.Message.Events
use sap.Message.Events.{SpanEvent}
use sap.Span.{Span, Runtime}

-- No two of the first `n` IDs are equal.
abbrev pub Unique : (ℕ → String) → ℕ → Type 0
Unique id n = (j k : ℕ) → j < n → k < n → id j ≡ id k → j ≡ k

module _ {T : Type 0} where
  -- The ID of the span that a record is about.
  abbrev pub span_id_of : Kind T → String
  span_id_of not_set = ""
  span_id_of (span_started m) = Started.get_span_id (some m)
  span_id_of (span_updated m) = Updated.get_span_id (some m)
  span_id_of (span_ended m) = Ended.get_span_id (some m)
  span_id_of (span_event m) = Events.get_span_id (some m)

  -- What was published about a span, with the hubs.
  abbrev pub of_span : String → List (ℕ × Record T) → List (ℕ × Kind T)
  of_span s [] = []
  of_span s ((h, r) ∷ rs) =
      ite (str_dec (span_id_of r.kind) s) ((h, r.kind) ∷ of_span s rs) (of_span s rs)

  -- One start, then updates and events in any order, then one end if the span has ended, all on
  -- the hub `h`.
  pub data Life (h : ℕ) : Bool → List (ℕ × Kind T) → Type 0 where
    started : (m : SpanStarted T) → Life h false ((h, span_started m) ∷ [])
    updated :
        (m : SpanUpdated T) {ks : List (ℕ × Kind T)}
        → Life h false ks
        → Life h false (ks ++ (h, span_updated m) ∷ [])
    noted :
        (m : SpanEvent T) {ks : List (ℕ × Kind T)}
        → Life h false ks
        → Life h false (ks ++ (h, span_event m) ∷ [])
    ended :
        (m : SpanEnded T) {ks : List (ℕ × Kind T)}
        → Life h false ks
        → Life h true (ks ++ (h, span_ended m) ∷ [])

  pub of_span-own :
      (s : String) (h : ℕ) (r : Record T) (rs : List (ℕ × Record T))
      → span_id_of r.kind ≡ s
      → of_span s (rs ++ (h, r) ∷ []) ≡ of_span s rs ++ (h, r.kind) ∷ []
  of_span-own s h r [] e = if_pos (str_dec (span_id_of r.kind) s) e _ _
  of_span-own s h r ((g, q) ∷ rs) e = ground (arith, of_span-own s h r rs e)

  pub of_span-other :
      (s : String) (h : ℕ) (r : Record T) (rs : List (ℕ × Record T))
      → span_id_of r.kind ≢ s
      → of_span s (rs ++ (h, r) ∷ []) ≡ of_span s rs
  of_span-other s h r [] n = if_neg (str_dec (span_id_of r.kind) s) n _ _
  of_span-other s h r ((g, q) ∷ rs) n = ground (arith, of_span-other s h r rs n)

  -- Every span that has a hub has its life in what was published. Its ID is one of the IDs read, no
  -- two spans share one, and nothing was published about an ID that is yet to be read.
  pub record Lives (id : ℕ → String) (bound : ℕ) (rt : Runtime T) : Type 0 where
    pub fresh : (a : ℕ) → rt.next ≤ a → rt.spans a ≡ none
    pub life :
        (a : ℕ) (s : Span) (h : ℕ)
        → rt.spans a ≡ some s
        → s.hub ≡ some h
        → Life h s.ended (of_span s.span_id rt.published)
    pub named :
        (a : ℕ) (s : Span) (h : ℕ)
        → rt.spans a ≡ some s
        → s.hub ≡ some h
        → (k : ℕ) × (k < rt.ids_read) × (s.span_id ≡ id k)
    pub single :
        (a b : ℕ) (s t : Span) (h g : ℕ)
        → rt.spans a ≡ some s
        → rt.spans b ≡ some t
        → s.hub ≡ some h
        → t.hub ≡ some g
        → s.span_id ≡ t.span_id
        → a ≡ b
    pub unread : (k : ℕ) → rt.ids_read ≤ k → k < bound → of_span (id k) rt.published ≡ []
