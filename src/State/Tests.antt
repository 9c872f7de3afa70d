-- ===== src/State/Tests.antt =====
-- A small trace in a store, the functions run on it, and the theorems applied to it.
use mathlib.Core.List.{Perm, map}
use Prim.Native.Nat.{Ordering, min}
use sap.Base.{ℕ, zero, suc, ◌≡◌, refl, ◌↔◌, String, Option, none, some, List, [], ◌∷◌, true, false}
use sap.Base.Int.{pos, ◌<ℤ◌}
use sap.Base.Lists.{In, here, there, Distinct, length}
use sap.Message.{Kind, span_started, span_updated, span_ended, span_event, Record}
use sap.Message.Attributes.{Attribute}
use sap.Message.Started.{SpanStarted}
use sap.Message.Ended.{SpanEnded, TerminalType}
use sap.Message.Events.{SpanEvent, Severity}
use sap.Message.Proto.{is_zero, Time, plain, plain-IsProto, unix_epoch}
use sap.State.Tree.{
  EventState, SpanFields, SpanState, null, span, Spans, nil, cons, count, fields_all, take_spans,
  drop_spans,
}
use sap.State.Store.{
  new_store_with_options, find, has_open_spans, clear_open_spans, limit_roots,
  mark_open_spans_stale,
}
use sap.State.Invariant.{Inv}
use sap.State.History.{clears, clears_open, limits, run, run-new_store-Inv}
use sap.State.Lookup.{FindSpec, find-FindSpec}
use sap.State.Apply.{apply, apply_started, new_span, new_event, merge_attributes}
use sap.State.Apply.Start.{Outcome, apply_started-Outcome}
use sap.State.Apply.Twice.{apply_started-twice}
use sap.State.Apply.Named.{revised, effect, apply-revised}
use sap.State.Apply.Frozen.{apply-frozen}
use sap.State.Apply.Attributes.{
  attr_of, last_of, keys, add_keys, attr_of-merge_attributes, keys-merge_attributes,
}
use sap.State.Apply.Untimed.{new_event-untimed}
use sap.State.Open.{HasOpen, ClosedPathIn, has_open_spans_iff, clear_open_spans_iff}
use sap.State.Limit.{surplus, Gone, Kept, limit_roots-newest, limit_roots-entries}
use sap.State.Marks.{mark_of, mark_open_spans_stale-mark_of}
use sap.State.Timeline.{TimelineItem, compare_items, timeline_items}
use sap.State.Timeline.Order.{InOrder, place, number, contents, timeline_items-InOrder}
use sap.State.Samples.{attribute, update, finish, history, sample, evaluation}

ids_of : SpanState × ℕ → Option String × ℕ
ids_of (null, d) = (none, d)
ids_of (span f ts, d) = (some f.span_id, d)

finds_child : ids_of (find sample "child") ≡ (some "child", 1)
unfolding evaluation ids_of
finds_child = refl

-- The unknown parent, and the event after the end.
finds_no_orphan : ids_of (find sample "orphan") ≡ (none, 0)
unfolding evaluation ids_of
finds_no_orphan = refl

counts_roots : count sample.roots ≡ 2
unfolding evaluation
counts_roots = refl

events_of : List SpanFields → List ℕ
events_of [] = []
events_of (f ∷ fs) = length f.events ∷ events_of fs

keeps_one_event : events_of (fields_all sample.roots) ≡ 1 ∷ 0 ∷ 0 ∷ []
unfolding evaluation events_of
keeps_one_event = refl

is_open_then_cleared :
    (has_open_spans sample ≡ true)
    × (has_open_spans (clear_open_spans sample) ≡ false)
    × (count (clear_open_spans sample).roots ≡ 1)
unfolding evaluation
is_open_then_cleared = (refl, refl, refl)

marks_open_child :
    (sample.stale_open_at "child" ≡ some (pos 15))
    × (sample.stale_open_at "root" ≡ none)
    × (sample.stale_open_at "second" ≡ none)
unfolding evaluation
marks_open_child = (refl, refl, refl)

abbrev blank : SpanFields
blank = record {
  addr = 0;
  trace_id = "";
  span_id = "";
  parent_span_id = "";
  name = "";
  started_at = pos 0;
  ended_at = pos 0;
  attributes = [];
  events = [];
  ended = false;
  terminal_type = TerminalType.unspecified;
  error_message = "";
}

abbrev nth : ℕ → List SpanFields → SpanFields
nth n [] = blank
nth zero (f ∷ fs) = f
nth (suc n) (f ∷ fs) = nth n fs

-- The ended root of the sample, and its open child.
abbrev root_span : SpanFields
root_span = nth 0 (fields_all sample.roots)

abbrev child_span : SpanFields
child_span = nth 1 (fields_all sample.roots)

root_span-In : In root_span (fields_all sample.roots)
unfolding evaluation
root_span-In = here root_span refl

child_span-In : In child_span (fields_all sample.roots)
unfolding evaluation
child_span-In = there root_span (here child_span refl)

sample-Inv : Inv sample
sample-Inv = run-new_store-Inv plain false history

run-new_store-Inv_example :
    Inv (run plain (clears_open ∷ limits (pos 1) ∷ clears ∷ []) (new_store_with_options true))
run-new_store-Inv_example =
    run-new_store-Inv plain true (clears_open ∷ limits (pos 1) ∷ clears ∷ [])

find-FindSpec_example : FindSpec "child" sample (find sample "child")
find-FindSpec_example = find-FindSpec {s = sample} "child" sample-Inv

abbrev late_start : SpanStarted Time
late_start = record {
  trace_id = some "trace-1";
  span_id = some "grandchild";
  parent_span_id = some "child";
  name = none;
  started_at = none;
  attributes = [];
}

apply_started-Outcome_example :
    Outcome sample
      (new_span plain sample.next_addr late_start)
      (apply_started plain (some late_start) sample)
apply_started-Outcome_example = apply_started-Outcome {s = sample} plain late_start sample-Inv

apply_started-twice_example :
    apply_started plain (some late_start) (apply_started plain (some late_start) sample)
    ≡ apply_started plain (some late_start) sample
apply_started-twice_example = apply_started-twice plain late_start sample

apply-revised_example :
    fields_all (apply plain (some (finish "child" 20)) sample).roots
    ≡ map (revised "child" (effect plain (finish "child" 20).kind)) (fields_all sample.roots)
unfolding sap.Message.Ended.get_span_id sap.Message.Attributes.or_empty
apply-revised_example = apply-revised {s = sample} sample-Inv plain (finish "child" 20) (λ e. e)

root_span-ended : root_span.ended ≡ true
unfolding evaluation
root_span-ended = refl

apply-frozen_example :
    In root_span (fields_all (apply plain (some (update "root" "goal" "late")) sample).roots)
apply-frozen_example =
    apply-frozen {s = sample} sample-Inv root_span root_span-In plain
      (some (update "root" "goal" "late")) root_span-ended

abbrev two_goals : List (Option Attribute)
two_goals = attribute "goal" "first" ∷ none ∷ attribute "" "x" ∷ attribute "goal" "last" ∷ []

attr_of-merge_attributes_example :
    attr_of "goal" (merge_attributes plain two_goals (attribute "kind" "web" ∷ []))
    ≡ last_of "goal" two_goals (attr_of "goal" (attribute "kind" "web" ∷ []))
attr_of-merge_attributes_example =
    attr_of-merge_attributes plain plain-IsProto "goal" two_goals (attribute "kind" "web" ∷ [])

keys-merge_attributes_example :
    (keys (merge_attributes plain two_goals []) ≡ add_keys two_goals (keys []))
    × (Distinct (keys []) → Distinct (keys (merge_attributes plain two_goals [])))
keys-merge_attributes_example = keys-merge_attributes plain plain-IsProto two_goals []

has_open_spans_iff_example : (has_open_spans sample ≡ true) ↔ HasOpen (fields_all sample.roots)
has_open_spans_iff_example = has_open_spans_iff sample

clear_open_spans_iff_example :
    In root_span (fields_all (clear_open_spans sample).roots) ↔ ClosedPathIn root_span sample.roots
clear_open_spans_iff_example = clear_open_spans_iff sample root_span

limit_roots-newest_example :
    ((limit_roots (pos 1) sample).roots ≡ drop_spans (surplus (pos 1) sample) sample.roots)
    × (count (limit_roots (pos 1) sample).roots ≡ min (count sample.roots) 1)
limit_roots-newest_example = limit_roots-newest (pos 1) sample

limit_roots-entries_example :
    (In child_span (fields_all (take_spans (surplus (pos 1) sample) sample.roots))
      → Gone (limit_roots (pos 1) sample) child_span)
    × (In child_span (fields_all (drop_spans (surplus (pos 1) sample) sample.roots))
        → Kept sample (limit_roots (pos 1) sample) child_span)
limit_roots-entries_example = limit_roots-entries {s = sample} sample-Inv child_span (pos 1)

mark_open_spans_stale-mark_of_example :
    (mark_open_spans_stale sample (pos 30)).stale_open_at child_span.span_id
    ≡ mark_of (sample.stale_open_at child_span.span_id) child_span.ended (pos 30)
mark_open_spans_stale-mark_of_example =
    mark_open_spans_stale-mark_of {s = sample} sample-Inv child_span child_span-In (pos 30)

-- An event without a time, one with a time, and a child between them.
abbrev event_at : String → ℕ → Option EventState
event_at name t =
    some (record { name = name; at = pos t; attributes = []; severity = Severity.info })

abbrev busy : SpanFields
busy = record blank {
  events = event_at "untimed" 0 ∷ none ∷ event_at "late" 9 ∷ event_at "early" 3 ∷ [];
}

abbrev busy_children : Spans
busy_children = cons (span (record blank { started_at = pos 5; span_id = "c" }) nil) (cons null nil)

indices : List TimelineItem → List ℕ
indices [] = []
indices (x ∷ xs) = x.index ∷ indices xs

sorts_busy : indices (timeline_items (span busy busy_children)) ≡ 2 ∷ 3 ∷ 1 ∷ 0 ∷ []
unfolding indices timeline_items
sorts_busy = refl

timeline_items-InOrder_example :
    InOrder (timeline_items (span busy busy_children))
    × Perm
        (map place (timeline_items (span busy busy_children)))
        (number 0 (contents (span busy busy_children)))
timeline_items-InOrder_example = timeline_items-InOrder (span busy busy_children)

abbrev untimed : SpanEvent Time
untimed = record {
  trace_id = none;
  span_id = some "root";
  name = some "no time";
  event_at = none;
  attributes = [];
  severity = none;
}

new_event-untimed_example :
    let e = new_event plain (some untimed) in
    (is_zero e.at ≡ false)
    × ((x y : TimelineItem) → x.at ≡ e.at → unix_epoch <ℤ y.at → compare_items x y ≡ Ordering.lt)
new_event-untimed_example = new_event-untimed plain plain-IsProto untimed refl
