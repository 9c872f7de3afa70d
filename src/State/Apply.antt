-- ===== src/State/Apply.antt =====
-- `Apply` of state/state.go and the handlers of the four kinds of record. A handler that reads
-- through an address which no object has leaves the store as it is, where the source cannot come.
pub mod Frozen
pub mod Untimed
pub mod Start
pub mod Named
pub mod Attributes
pub mod Twice
use sap.Base.{
  ℕ, suc, ◌++◌, String, Option, none, some, List, [], ◌∷◌, Bool, true, false, ite, str_dec,
}
use sap.Base.Int.{if◌then◌else◌}
use sap.Base.Maps.{insert}
use sap.Message.{
  Record, KindCase, not_set_case, span_started_case, span_updated_case, span_ended_case,
  span_event_case, which_kind, get_span_started, get_span_updated, get_span_ended, get_span_event,
}
use sap.Message.Attributes.{Attribute, get_key}
use sap.Message.Started
use sap.Message.Started.{SpanStarted}
use sap.Message.Updated
use sap.Message.Updated.{SpanUpdated}
use sap.Message.Ended
use sap.Message.Ended.{SpanEnded, TerminalType}
use sap.Message.Events
use sap.Message.Events.{SpanEvent}
use sap.Message.Proto.{Proto, Time, zero_time}
use sap.State.Tree.{
  EventState, SpanFields, span, nil, cons, append, read_in, write_in, add_child_in,
}
use sap.State.Store.{Store}

-- `s.byID[spanID] = span` for the object just allocated.
unfoldable pub track : SpanFields → Store → Store
track f s = record s { by_id = insert f.span_id f.addr s.by_id; next_addr = suc s.next_addr }

unfoldable pub add_root : SpanFields → Store → Store
unfolding track
add_root f s = record (track f s) { roots = append s.roots (cons (span f nil) nil) }

unfoldable pub add_under : ℕ → SpanFields → Store → Store
unfolding track
add_under a f s = record (track f s) { roots = add_child_in a (span f nil) s.roots }

-- The rest of `applyStarted`, by the result of `s.byID[parentID]`.
unfoldable pub attach : Option ℕ → SpanFields → Store → Store
unfolding add_root add_under
attach (some parent) f s = add_under parent f s
attach none f s =
    ite (str_dec f.parent_span_id "") (add_root f s)
      (if s.allow_unknown_parents then add_root f s else s)

-- `span, ok := s.byID[id]; if !ok || span.Ended { return }`, then a write to the span.
unfoldable pub update_open : String → (SpanFields → SpanFields) → Store → Store
update_open id g s = elim (s.by_id id) [
  | none ↦ s
  | some a ↦ elim (read_in a s.roots) [
    | none ↦ s
    | some f ↦ if f.ended then s else record s { roots = write_in a g s.roots }
  ]
]

module _ (p : Proto) where
  -- `cloneAttributes`; a slice of no attributes is the empty list here and there.
  unfoldable pub clone_attributes : List (Option Attribute) → List (Option Attribute)
  clone_attributes [] = []
  clone_attributes (none ∷ attrs) = clone_attributes attrs
  clone_attributes (some a ∷ attrs) = some (p.clone_of a) ∷ clone_attributes attrs

  -- `timeValue`: its argument is an interface that holds a `*Timestamp`. The test `ts == nil`
  -- fails for an interface that holds a nil pointer, so `AsTime` is called on every path.
  unfoldable pub time_value : Option p.Timestamp → Time
  time_value ts = p.as_time ts

  -- `&SpanState{…}`; the other fields are zero values.
  unfoldable pub new_span : ℕ → SpanStarted p.Timestamp → SpanFields
  unfolding time_value clone_attributes
  new_span addr m = record {
    addr = addr;
    trace_id = Started.get_trace_id (some m);
    span_id = Started.get_span_id (some m);
    parent_span_id = Started.get_parent_span_id (some m);
    name = Started.get_name (some m);
    started_at = time_value (Started.get_started_at (some m));
    ended_at = zero_time;
    attributes = clone_attributes (Started.get_attributes (some m));
    events = [];
    ended = false;
    terminal_type = TerminalType.unspecified;
    error_message = "";
  }

  unfoldable pub apply_started : Option (SpanStarted p.Timestamp) → Store → Store
  unfolding attach new_span
  apply_started none s = s
  apply_started (some m) s =
      let f = new_span s.next_addr m in
      ite (str_dec f.span_id "") s
        (elim (s.by_id f.span_id) [ some _ ↦ s | none ↦ attach (s.by_id f.parent_span_id) f s ])

  -- The inner loop of `applyUpdated`: the first attribute with the key is replaced, or the new one
  -- is appended.
  unfoldable pub set_attribute : Attribute → List (Option Attribute) → List (Option Attribute)
  set_attribute a [] = some (p.clone_of a) ∷ []
  set_attribute a (none ∷ attrs) = none ∷ set_attribute a attrs
  set_attribute a (some b ∷ attrs) =
      ite (str_dec (get_key (some b)) (get_key (some a))) (some (p.clone_of a) ∷ attrs)
        (some b ∷ set_attribute a attrs)

  -- The outer loop: a nil attribute or one with no key is passed over.
  unfoldable pub merge_attributes :
      List (Option Attribute) → List (Option Attribute) → List (Option Attribute)
  unfolding set_attribute
  merge_attributes [] attrs = attrs
  merge_attributes (none ∷ incoming) attrs = merge_attributes incoming attrs
  merge_attributes (some a ∷ incoming) attrs =
      merge_attributes incoming (ite (str_dec (get_key (some a)) "") attrs (set_attribute a attrs))

  unfoldable pub with_attributes : Option (SpanUpdated p.Timestamp) → SpanFields → SpanFields
  unfolding merge_attributes
  with_attributes m f = record f {
    attributes = merge_attributes (Updated.get_attributes m) f.attributes;
  }

  unfoldable pub apply_updated : Option (SpanUpdated p.Timestamp) → Store → Store
  unfolding update_open with_attributes
  apply_updated none s = s
  apply_updated (some m) s = update_open (Updated.get_span_id (some m)) (with_attributes (some m)) s

  unfoldable pub with_end : Option (SpanEnded p.Timestamp) → SpanFields → SpanFields
  unfolding time_value
  with_end m f = record f {
    ended = true;
    ended_at = time_value (Ended.get_ended_at m);
    terminal_type = Ended.get_terminal_type m;
    error_message = Ended.get_error_message m;
  }

  unfoldable pub apply_ended : Option (SpanEnded p.Timestamp) → Store → Store
  unfolding update_open with_end
  apply_ended none s = s
  apply_ended (some m) s = update_open (Ended.get_span_id (some m)) (with_end (some m)) s

  unfoldable pub new_event : Option (SpanEvent p.Timestamp) → EventState
  unfolding time_value clone_attributes
  new_event m = record {
    name = Events.get_name m;
    at = time_value (Events.get_event_at m);
    attributes = clone_attributes (Events.get_attributes m);
    severity = Events.get_severity m;
  }

  unfoldable pub with_event : Option (SpanEvent p.Timestamp) → SpanFields → SpanFields
  unfolding new_event
  with_event m f = record f { events = f.events ++ some (new_event m) ∷ [] }

  unfoldable pub apply_event : Option (SpanEvent p.Timestamp) → Store → Store
  unfolding update_open with_event
  apply_event none s = s
  apply_event (some m) s = update_open (Events.get_span_id (some m)) (with_event (some m)) s

  apply_kind : KindCase → Option (Record p.Timestamp) → Store → Store
  unfolding apply_started apply_updated apply_ended apply_event
  apply_kind span_started_case r s = apply_started (get_span_started r) s
  apply_kind span_updated_case r s = apply_updated (get_span_updated r) s
  apply_kind span_ended_case r s = apply_ended (get_span_ended r) s
  apply_kind span_event_case r s = apply_event (get_span_event r) s
  apply_kind not_set_case r s = s

  unfoldable pub apply : Option (Record p.Timestamp) → Store → Store
  unfolding apply_kind
  apply none s = s
  apply (some r) s = apply_kind (which_kind (some r)) (some r) s
