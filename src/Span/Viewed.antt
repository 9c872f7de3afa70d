-- ===== src/Span/Viewed.antt =====
-- A start of sap.go and what a viewer's store of state/state.go makes of the record that it publishes.
use sap.Base.{
  ℕ, ◌<◌, ◌+◌, ◌≡◌, refl, sym, ap, ◌∙◌, ◌≢◌, String, Option, none, some, List, [], ◌∷◌, ◌++◌, false,
  str_dec,
}
use sap.Base.Text.{ite_ind}
use sap.Base.Lists.{Split}
use sap.Base.Maps.{insert}
use sap.Message.{Record}
use sap.Message.Attributes.{Attribute, or_empty}
use sap.Message.Proto.{Proto, Time}
use sap.Message.Started.{SpanStarted, get_trace_id, get_span_id, get_parent_span_id, get_name}
use sap.Attr.{clone_attributes}
use sap.Span.{Span, Runtime, Context, from_context, string_or_nil, tick}
use sap.Span.Records.{now, started_record}
use sap.Span.Methods.{start}
use sap.Span.Child.{start-ChildOf}
use sap.State.Tree.{SpanFields, span, Spans, nil, fields_all}
use sap.State.Store.{Store, find}
use sap.State.Invariant.{Inv}
use sap.State.Lookup.{StandsIn}
use sap.State.Apply.{apply, apply_started, new_span}
use sap.State.Apply.Start.{Outcome, nameless, duplicate, orphan, root, child, apply_started-Outcome}

or_empty-string_or_nil : (value : String) → or_empty (string_or_nil value) ≡ value
unfolding or_empty string_or_nil
or_empty-string_or_nil value =
    ite_ind (λ o. or_empty o ≡ value) (str_dec value "") (λ e. sym e) (λ _. refl)

-- A span with the ID `id` that the store `s'` shows one level below the span with the ID
-- `parent_id` of the store `s`, as its only new span.
pub record ShownUnder (parent_id id trace_id name : String) (s s' : Store) : Type 0 where
  pub fields : SpanFields
  pub parent : SpanFields
  pub siblings : Spans
  pub depth : ℕ
  pub found : find s parent_id ≡ (span parent siblings, depth)
  pub stands : StandsIn (span fields nil) (depth + 1) 0 s'.roots
  pub added : Split (fields_all s'.roots) (fields ∷ []) (fields_all s.roots)
  pub entered : s'.by_id ≡ insert id fields.addr s.by_id
  pub has_id : fields.span_id ≡ id
  pub has_trace_id : fields.trace_id ≡ trace_id
  pub has_parent_id : fields.parent_span_id ≡ parent_id
  pub has_name : fields.name ≡ name
  pub is_open : fields.ended ≡ false

-- The outcome of a start record whose ID is new and whose parent is tracked.
Outcome-child :
    {s : Store} {n : SpanFields} {s' : Store} (parent_id id trace_id name : String)
    → n.span_id ≡ id
    → n.trace_id ≡ trace_id
    → n.parent_span_id ≡ parent_id
    → n.name ≡ name
    → n.ended ≡ false
    → id ≢ ""
    → s.by_id id ≡ none
    → s.by_id parent_id ≢ none
    → Outcome s n s'
    → ShownUnder parent_id id trace_id name s s'
Outcome-child {s} parent_id id trace_id name i t q m o f u k (nameless e _) = absurd (f (sym i ∙ e))
Outcome-child {s} parent_id id trace_id name i t q m o f u k (duplicate e _) =
    absurd (e (ap s.by_id i ∙ u))
Outcome-child {s} parent_id id trace_id name i t q m o f u k (orphan _ e _ _) =
    absurd (k (ap s.by_id (sym q) ∙ e))
Outcome-child {s} parent_id id trace_id name i t q m o f u k (root _ _ e _ _ _) =
    absurd (k (ap s.by_id (sym q) ∙ e))
Outcome-child {s} {n} parent_id id trace_id name i t q m o f u k (child _ _ g us d e st sp b) =
    record {
      fields = n;
      parent = g;
      siblings = us;
      depth = d;
      found = ap (find s) (sym q) ∙ e;
      stands = st;
      added = sp;
      entered = b ∙ ap (λ x. insert x n.addr s.by_id) i;
      has_id = i;
      has_trace_id = t;
      has_parent_id = q;
      has_name = m;
      is_open = o;
    }

module _ (p : Proto) (clock : ℕ → Time) where
  apply_started-ShownUnder :
      {s : Store} (m : SpanStarted p.Timestamp) (parent_id id trace_id name : String)
      → get_span_id (some m) ≡ id
      → get_trace_id (some m) ≡ trace_id
      → get_parent_span_id (some m) ≡ parent_id
      → get_name (some m) ≡ name
      → Inv s
      → id ≢ ""
      → s.by_id id ≡ none
      → s.by_id parent_id ≢ none
      → ShownUnder parent_id id trace_id name s (apply_started p (some m) s)
  unfolding new_span
  apply_started-ShownUnder {s} m parent_id id trace_id name i t q o v f u k =
      Outcome-child {n = new_span p s.next_addr m} parent_id id trace_id name i t q o refl f u k
        (apply_started-Outcome p m v)

  -- The record of a start brings its span into a store that tracks the parent.
  apply-started_record :
      {s : Store} (t : Span) (name : String) (attrs : List (Option Attribute))
      (rt : Runtime p.Timestamp) (parent_id id trace_id : String)
      → t.span_id ≡ id
      → t.trace_id ≡ trace_id
      → t.parent_id ≡ parent_id
      → Inv s
      → id ≢ ""
      → s.by_id id ≡ none
      → s.by_id parent_id ≢ none
      → ShownUnder parent_id id trace_id name s
          (apply p (some (started_record p clock t name attrs rt)) s)
  unfolding apply started_record sap.Message.build sap.Message.which_kind
      sap.Message.get_span_started get_span_id get_trace_id get_parent_span_id get_name or_empty
  apply-started_record t name attrs rt parent_id id trace_id i e q v f u k =
      apply_started-ShownUnder
        (record {
          trace_id = some t.trace_id;
          span_id = some t.span_id;
          parent_span_id = string_or_nil t.parent_id;
          name = some name;
          started_at = some (now p clock (tick rt));
          attributes = clone_attributes p attrs;
        })
        parent_id id trace_id name i e (or_empty-string_or_nil t.parent_id ∙ q) refl v f u k

  -- `Start` with a context whose span `s` is in the runtime and has a hub and a trace publishes one
  -- record on that hub. A well-formed store that tracks the ID of `s` and not the new ID, which is
  -- not empty, finds `s` at some depth before it applies that record, and has the new span one level
  -- deeper afterwards, under its ID, open, with the trace of `s`, the ID of `s` as its parent ID and
  -- the name given; no other span is added.
  pub start-ShownUnder :
      (id : ℕ → String) (ctx : Context) (name : String) (attrs : List (Option Attribute))
      (rt : Runtime p.Timestamp) (a : ℕ) (s : Span) (h : ℕ) (store : Store)
      → from_context ctx ≡ some a
      → rt.spans a ≡ some s
      → a < rt.next
      → s.hub ≡ some h
      → s.trace_id ≢ ""
      → Inv store
      → id rt.ids_read ≢ ""
      → store.by_id (id rt.ids_read) ≡ none
      → store.by_id s.span_id ≢ none
      → (r : Record p.Timestamp) × ((start p id clock ctx name attrs rt).2.published
          ≡ rt.published ++ (h, r) ∷ [])
        × ShownUnder s.span_id (id rt.ids_read) s.trace_id name store (apply p (some r) store)
  start-ShownUnder id ctx name attrs rt a s h store e q l eh n v f u k =
      let made = start-ChildOf p id clock ctx name attrs rt a s h e q l eh n in
      (
        started_record p clock made.0 name attrs made.1,
        made.11,
        apply-started_record made.0 name attrs made.1 s.span_id (id rt.ids_read) s.trace_id made.7
            made.8 made.9 v f u k,
      )
