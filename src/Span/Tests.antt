-- ===== src/Span/Tests.antt =====
-- Spans of sap.go on a concrete history.
use sap.Base.{
  ℕ, zero, suc, ◌≡◌, refl, ap, ◌≢◌, String, Option, none, some, List, [], ◌∷◌, ◌++◌, map, true,
  false, str_dec, ℕ_discrete, arith,
}
use Prim.Native.String as Text
use Prim.Native.String.{count}
use text.Mathlib.TextLemmas.{length-append}
use sap.Base.Lists.{length}
use sap.Base.Text.{ne_of_test}
use sap.Base.Int.{pos}
use sap.Message.{Record, Kind, span_started, span_updated, span_ended, span_event}
use sap.Message.Attributes.{Attribute}
use sap.Message.Events.{Severity}
use sap.Message.Proto.{Time, plain}
use sap.Span.{
  Span, span_value, Runtime, Context, EventOption, recording, with_timestamp, with_severity,
  with_attributes,
}
use sap.Span.Methods.{start, complete, error, add_event, set_attributes}
use sap.Span.Life.{Life, Unique, of_span}
use sap.Span.History.{
  Call, hub_starts, starts, sets, adds, completes, fails, start_runtime, run, run-Life,
}
use sap.Span.Child.{ChildOf, start-ChildOf}
use sap.Span.Viewed.{ShownUnder, start-ShownUnder}
use sap.State.Store.{Store, new_store_with_options}
use sap.State.Apply.{apply}
use sap.State.History.{applies, run-new_store-Inv}
use sap.Span.Silent.{Publishes, recording-Publishes}

-- IDs as numbers in unary.
abbrev unary : ℕ → String
unary zero = "x"
unary (suc n) = Text.◌++◌ "x" (unary n)

count-unary : (n : ℕ) → count (unary n) ≡ suc n
count-unary zero = refl
count-unary (suc n) = omega (arith, length-append "x" (unary n), count-unary n)

unary-Unique : (n : ℕ) → Unique unary n
unary-Unique n j k _ _ e = omega (arith, count-unary j, count-unary k, ap count e)

abbrev seconds : ℕ → Time
seconds n = pos n

-- The root span is at address 0, its child at 1; address 2 is an inert span.
abbrev history : List Call
history =
    hub_starts [] (some 7) "root" []
    ∷ starts (span_value 0 ∷ []) "child" []
    ∷ starts [] "inert" []
    ∷ sets (some 0) (some (record { key = some "k"; value = some "v"; display_hints = [] }) ∷ [])
    ∷ adds (some 1) "event" (none ∷ with_severity Severity.warn ∷ [])
    ∷ completes (some 1)
    ∷ adds (some 1) "late" []
    ∷ sets (some 2) (none ∷ [])
    ∷ fails (some 0) (some "boom")
    ∷ completes (some 0)
    ∷ []

abbrev after : Runtime Time
after = run plain unary seconds history start_runtime

-- Opens the operations for a test by evaluation.
evaluation : Unit {0}
unfolding run sap.Span.History.step start sap.Span.Methods.start_with_hub sap.Span.Methods.new_span
    sap.Span.Methods.inherit sap.Span.hub_of sap.Span.read_span sap.Span.from_context
    sap.Span.hub_from_context sap.Span.context_with_span sap.Span.context_with_hub sap.Span.bind_hub
    sap.Span.alloc sap.Span.put_span sap.Span.publish_to sap.Span.tick sap.Span.on_hub
    sap.Span.configure with_severity with_timestamp sap.Span.severity_or_nil sap.Span.string_or_nil
    sap.Span.Records.started_record sap.Span.Records.updated_record sap.Span.Records.event_record
    sap.Span.Records.ended_record sap.Span.Records.now sap.Attr.clone_attributes sap.Message.build
    set_attributes sap.Span.Methods.publish_update add_event sap.Span.Methods.publish_event
    sap.Span.Methods.event_time sap.Span.Methods.end_span sap.Span.Methods.publish_end complete
    error recording sap.Span.recording_of sap.Message.Started.get_span_id
    sap.Message.Updated.get_span_id sap.Message.Ended.get_span_id sap.Message.Events.get_span_id
    sap.Message.Attributes.or_empty str_dec ℕ_discrete
evaluation = tt

kind_names : List (ℕ × Kind Time) → List String
kind_names [] = []
kind_names ((h, span_started m) ∷ ks) = "started" ∷ kind_names ks
kind_names ((h, span_updated m) ∷ ks) = "updated" ∷ kind_names ks
kind_names ((h, span_event m) ∷ ks) = "event" ∷ kind_names ks
kind_names ((h, span_ended m) ∷ ks) = "ended" ∷ kind_names ks
kind_names ((h, Kind.not_set) ∷ ks) = "none" ∷ kind_names ks

root_life : kind_names (of_span "x" after.published) ≡ "started" ∷ "updated" ∷ "ended" ∷ []
unfolding evaluation kind_names
root_life = refl

child_life : kind_names (of_span "xxx" after.published) ≡ "started" ∷ "event" ∷ "ended" ∷ []
unfolding evaluation kind_names
child_life = refl

published_in_all : length after.published ≡ 6
unfolding evaluation
published_in_all = refl

abbrev root : Span
root = record { hub = some 7; trace_id = "xx"; span_id = "x"; parent_id = ""; ended = true }

run-Life_example : Life 7 true (of_span "x" after.published)
unfolding evaluation
run-Life_example =
    run-Life plain unary seconds history (unary-Unique after.ids_read) 0 root 7 refl refl

abbrev begun : Runtime Time
begun = run plain unary seconds (hub_starts [] (some 7) "root" [] ∷ []) start_runtime

abbrev open_root : Span
open_root = record { hub = some 7; trace_id = "xx"; span_id = "x"; parent_id = ""; ended = false }

start-ChildOf_example :
    ChildOf plain unary seconds 0 open_root 7 "child" [] begun
      (start plain unary seconds (span_value 0 ∷ []) "child" [] begun)
unfolding evaluation
start-ChildOf_example =
    start-ChildOf plain unary seconds (span_value 0 ∷ []) "child" [] begun 0 open_root 7 refl refl
      (omega arith) refl filled
  where
    filled : open_root.trace_id ≢ ""
    filled = ne_of_test open_root.trace_id "" refl

-- The store of a viewer that has applied the records published so far.
abbrev viewed : Store
viewed =
    sap.State.History.run plain (map (λ x. applies (some x.1)) begun.published)
      (new_store_with_options false)

start-ShownUnder_example :
    (r : Record Time) × ((start plain unary seconds
        (span_value 0 ∷ [])
        "child"
        []
        begun).2.published
      ≡ begun.published ++ (7, r) ∷ [])
    × ShownUnder "x" "xxx" "xx" "child" viewed (apply plain (some r) viewed)
unfolding evaluation sap.State.Samples.evaluation
start-ShownUnder_example =
    start-ShownUnder plain seconds unary (span_value 0 ∷ []) "child" [] begun 0 open_root 7 viewed
      refl refl (omega arith) refl (ne_of_test "xx" "" refl)
      (run-new_store-Inv plain false (map (λ x. applies (some x.1)) begun.published))
      (ne_of_test "xxx" "" refl) refl tracked
  where
    tracked : ◌≢◌ {A = Option ℕ} (some 0) none
    tracked e = cc e

recording-Publishes_example :
    ((x : Option Attribute) (xs : List (Option Attribute))
      → Publishes 1 begun (set_attributes plain seconds (some 0) (x ∷ xs) begun))
    × ((name : String) (opts : List EventOption)
        → Publishes 1 begun (add_event plain seconds (some 0) name opts begun))
    × Publishes 1 begun (complete plain seconds (some 0) begun)
    × ((err : Option String) → Publishes 1 begun (error plain seconds (some 0) err begun))
unfolding evaluation
recording-Publishes_example = recording-Publishes plain seconds begun (some 0)
