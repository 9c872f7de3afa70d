-- ===== src/Span/Methods.antt =====
-- The methods of sap.go that start, change and end spans. `id n` and `clock n` are the results of the
-- n-th call of `newID`, which reads crypto/rand, and of `time.Now`.
use sap.Base.{ℕ, suc, ◌+◌, String, Option, none, some, List, [], ◌∷◌, true, false, ite, str_dec}
use sap.Base.Int.{if◌then◌else◌}
use sap.Message.Attributes.{Attribute}
use sap.Message.Ended.{TerminalType}
use sap.Message.Proto.{Proto, Time, is_zero}
use sap.Span.{
  Span, Runtime, Context, EventConfig, EventOption, configure, zero_config, from_context,
  hub_from_context, context_with_span, bind_hub, hub_of, read_span, put_span, alloc, publish_to,
  tick, on_hub,
}
use sap.Span.Records.{started_record, updated_record, event_record, ended_record}

module _ {T : Type 0} (id : ℕ → String) where
  -- The trace ID, the parent ID and how often `newID` is called for a span whose parent is given. The
  -- first call is for its own ID.
  unfoldable pub inherit : Option Span → Runtime T → String × String × ℕ
  inherit none rt = (id (suc rt.ids_read), "", 2)
  inherit (some parent) rt =
      ite (str_dec parent.trace_id "") (id (suc rt.ids_read), "", 2)
        (parent.trace_id, parent.span_id, 1)

  unfoldable pub new_span : ℕ → Option Span → Runtime T → Span × Runtime T
  unfolding inherit alloc
  new_span h parent rt =
      let (trace, parent_id, used) = inherit parent rt in
      let s : Span = record {
        hub = some h;
        trace_id = trace;
        span_id = id rt.ids_read;
        parent_id = parent_id;
        ended = false;
      } in
      (s, alloc s (record rt { ids_read = rt.ids_read + used }))

module _ {T : Type 0} (clock : ℕ → Time) where
  -- The time of an event: the one that an option gives, or the clock's.
  unfoldable pub event_time : Time → Runtime T → Time × Runtime T
  unfolding tick
  event_time at rt = if is_zero at then (clock rt.clock_read, tick rt) else (at, rt)

module _ (p : Proto) (id : ℕ → String) (clock : ℕ → Time) where
  -- The new context, the address of the span and the runtime after it.
  unfoldable pub start_with_hub :
      Context
      → Option ℕ
      → String
      → List (Option Attribute)
      → Runtime p.Timestamp
      → Context × ℕ × Runtime p.Timestamp
  unfolding new_span started_record publish_to tick read_span from_context bind_hub hub_from_context
      context_with_span alloc
  start_with_hub ctx none name attrs rt = (
    context_with_span ctx rt.next,
    rt.next,
    alloc (record { hub = none; trace_id = ""; span_id = ""; parent_id = ""; ended = false }) rt,
  )
  start_with_hub ctx (some h) name attrs rt =
      let (s, rt') = new_span id h (read_span (from_context ctx) rt) rt in
      (
        context_with_span (bind_hub ctx h (hub_from_context ctx)) rt.next,
        rt.next,
        publish_to h (started_record p clock s name attrs rt') (tick (tick rt')),
      )

  -- The package-level `Start`; `Hub.Start` is `start_with_hub`.
  unfoldable pub start :
      Context
      → String
      → List (Option Attribute)
      → Runtime p.Timestamp
      → Context × ℕ × Runtime p.Timestamp
  unfolding start_with_hub hub_of read_span from_context hub_from_context
  start ctx name attrs rt =
      start_with_hub ctx (hub_of (hub_from_context ctx) (read_span (from_context ctx) rt)) name
        attrs rt

module _ (p : Proto) (clock : ℕ → Time) where
  -- `SetAttributes` on a span of a hub.
  unfoldable pub publish_update :
      ℕ → Span → List (Option Attribute) → Runtime p.Timestamp → Runtime p.Timestamp
  unfolding updated_record publish_to tick
  publish_update h s [] rt = rt
  publish_update h s (a ∷ attrs) rt =
      if s.ended then rt else publish_to h (updated_record p clock s (a ∷ attrs) rt) (tick rt)

  unfoldable pub set_attributes :
      Option ℕ → List (Option Attribute) → Runtime p.Timestamp → Runtime p.Timestamp
  unfolding on_hub publish_update
  set_attributes a attrs rt = on_hub a (λ _ h s rt. publish_update h s attrs rt) rt

  unfoldable pub publish_event :
      ℕ → Span → String → EventConfig → Runtime p.Timestamp → Runtime p.Timestamp
  unfolding event_time event_record publish_to tick
  publish_event h s name cfg rt =
      let (at, rt') = event_time clock cfg.at rt in
      if s.ended then rt' else publish_to h (event_record p clock s name at cfg rt') (tick rt')

  -- `AddEvent`
  unfoldable pub add_event :
      Option ℕ → String → List EventOption → Runtime p.Timestamp → Runtime p.Timestamp
  unfolding on_hub publish_event configure
  add_event a name opts rt =
      on_hub a (λ _ h s rt. publish_event h s name (configure opts zero_config) rt) rt

  unfoldable pub publish_end :
      ℕ → ℕ → Span → TerminalType → String → Runtime p.Timestamp → Runtime p.Timestamp
  unfolding ended_record publish_to tick put_span
  publish_end a h s type message rt =
      if s.ended
      then rt
      else publish_to h (ended_record p clock s type message rt)
          (tick (tick (record rt { spans = put_span a (record s { ended = true }) rt.spans })))

  -- `end`
  unfoldable pub end_span :
      Option ℕ → TerminalType → String → Runtime p.Timestamp → Runtime p.Timestamp
  unfolding on_hub publish_end
  end_span a type message rt = on_hub a (λ a h s rt. publish_end a h s type message rt) rt

  unfoldable pub complete : Option ℕ → Runtime p.Timestamp → Runtime p.Timestamp
  unfolding end_span
  complete a rt = end_span a TerminalType.complete "" rt

  -- `Error`; an error is its text.
  unfoldable pub error : Option ℕ → Option String → Runtime p.Timestamp → Runtime p.Timestamp
  unfolding end_span
  error a none rt = end_span a TerminalType.error "" rt
  error a (some text) rt = end_span a TerminalType.error text rt
