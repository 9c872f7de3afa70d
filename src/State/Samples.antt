-- ===== src/State/Samples.antt =====
-- Records and a store for tests, and what opens the operations of the store.
use sap.Base.{ℕ, String, Option, none, some, List, [], ◌∷◌, false, str_dec, ℕ_discrete}
use mathlib.Core.Option
use sap.Base.Int.{pos}
use sap.Message.{Kind, span_started, span_updated, span_ended, span_event, Record}
use sap.Message.Attributes.{Attribute}
use sap.Message.Started.{SpanStarted}
use sap.Message.Updated.{SpanUpdated}
use sap.Message.Ended.{SpanEnded, TerminalType}
use sap.Message.Events.{SpanEvent, Severity}
use sap.Message.Proto.{Time, plain}
use sap.State.Tree.{
  EventState, SpanFields, SpanState, null, span, Spans, nil, cons, count, fields_all, take_spans,
  drop_spans,
}
use sap.State.Store.{
  Store, new_store, new_store_with_options, find, has_open_spans, clear_open_spans, limit_roots,
  mark_open_spans_stale,
}
use sap.State.History.{Call, applies, marks, run}
use sap.State.Apply.{apply, apply_started, new_span, new_event, merge_attributes}

abbrev pub attribute : String → String → Option Attribute
attribute k v = some (record { key = some k; value = some v; display_hints = [] })

abbrev pub start : String → Option String → ℕ → Record Time
start id parent at = record {
  emitted_at = none;
  kind = span_started (record {
    trace_id = some "trace-1";
    span_id = some id;
    parent_span_id = parent;
    name = some id;
    started_at = some (pos at);
    attributes = attribute "goal" "ship" ∷ [];
  });
}

abbrev pub update : String → String → String → Record Time
update id k v = record {
  emitted_at = none;
  kind =
      span_updated
        (record { trace_id = some "trace-1"; span_id = some id; attributes = attribute k v ∷ [] });
}

abbrev pub finish : String → ℕ → Record Time
finish id at = record {
  emitted_at = none;
  kind = span_ended (record {
    trace_id = some "trace-1";
    span_id = some id;
    ended_at = some (pos at);
    terminal_type = some TerminalType.complete;
    error_message = none;
  });
}

abbrev pub happen : String → String → Option ℕ → Record Time
happen id name at = record {
  emitted_at = none;
  kind = span_event (record {
    trace_id = some "trace-1";
    span_id = some id;
    name = some name;
    event_at = Option.map pos at;
    attributes = [];
    severity = none;
  });
}

-- A root with a child that is still open, and a second root.
abbrev pub history : List (Call plain)
history =
    applies (some (start "root" none 10))
    ∷ applies (some (start "child" (some "root") 11))
    ∷ applies (some (update "root" "goal" "ship now"))
    ∷ applies (some (happen "root" "warn" (some 12)))
    ∷ applies (some (finish "root" 13))
    ∷ applies (some (happen "root" "ignored" (some 14)))
    ∷ marks (pos 15)
    ∷ applies (some (start "second" none 16))
    ∷ applies (some (start "orphan" (some "missing") 17))
    ∷ []

abbrev pub sample : Store
sample = run plain history (new_store_with_options false)

-- Opens the store's operations for a test by evaluation.
unfoldable pub evaluation : Unit {0}
unfolding sap.Message.which_kind sap.Message.get_span_started sap.Message.get_span_updated
    sap.Message.get_span_ended sap.Message.get_span_event sap.Message.Attributes.get_key
    sap.Message.Attributes.or_empty sap.Message.Started.get_span_id
    sap.Message.Started.get_parent_span_id sap.Message.Started.get_trace_id
    sap.Message.Started.get_name sap.Message.Started.get_started_at
    sap.Message.Started.get_attributes sap.Message.Updated.get_span_id
    sap.Message.Updated.get_attributes sap.Message.Ended.get_span_id sap.Message.Ended.get_ended_at
    sap.Message.Ended.get_terminal_type sap.Message.Ended.type_or_default
    sap.Message.Ended.get_error_message sap.Message.Events.get_span_id sap.Message.Events.get_name
    sap.Message.Events.get_event_at sap.Message.Events.get_attributes
    sap.Message.Events.get_severity sap.Message.Events.severity_or_default sap.State.Apply.apply
    sap.State.Apply.apply_started sap.State.Apply.apply_updated sap.State.Apply.apply_ended
    sap.State.Apply.apply_event sap.State.Apply.attach sap.State.Apply.add_root
    sap.State.Apply.add_under sap.State.Apply.track sap.State.Apply.update_open
    sap.State.Apply.new_span sap.State.Apply.new_event sap.State.Apply.time_value
    sap.State.Apply.clone_attributes sap.State.Apply.set_attribute sap.State.Apply.merge_attributes
    sap.State.Apply.with_attributes sap.State.Apply.with_end sap.State.Apply.with_event
    sap.State.Store.clear sap.State.Store.clear_open_spans sap.State.Store.clear_open_roots
    sap.State.Store.delete_span sap.State.Store.delete_children sap.State.Store.keep_closed_children
    sap.State.Store.keep_if sap.State.Store.limit_roots sap.State.Store.limit_to
    sap.State.Store.untrack sap.State.Store.find sap.State.Store.has_open_spans
    sap.State.Store.mark_open_spans_stale sap.State.Store.new_store_with_options
    sap.State.Tree.append sap.State.Tree.count sap.State.Tree.take_spans sap.State.Tree.drop_spans
    sap.State.Tree.fields sap.State.Tree.find_span sap.State.Tree.first_found
    sap.State.Tree.first_some sap.State.Tree.has_open_span sap.State.Tree.mark_children
    sap.State.Tree.mark_one sap.State.Tree.read sap.State.Tree.write sap.State.Tree.add_child run
    str_dec ℕ_discrete
evaluation = tt
