-- ===== src/Span.antt =====
-- sap.go: spans, contexts and the records that a program publishes by them. A `*Span` is an address,
-- a `*Hub` too, and nil is none. Each method is one step.
pub mod Records
pub mod Methods
pub mod Life
pub mod Changes
pub mod Births
pub mod Steps
pub mod History
pub mod Child
pub mod Viewed
pub mod Silent
mod Tests
use sap.Base.{
  ℕ, suc, ◌≡◌, String, Option, none, some, List, [], ◌∷◌, ◌++◌, ◌+◌, Bool, true, false, ite,
  str_dec, ℕ_discrete,
}
use sap.Base.Int.{if◌then◌else◌, pos}
use sap.Message.{Record}
use sap.Message.Attributes.{Attribute}
use sap.Message.Started.{SpanStarted}
use sap.Message.Updated.{SpanUpdated}
use sap.Message.Ended.{SpanEnded, TerminalType}
use sap.Message.Events.{SpanEvent, Severity}
use sap.Message.Proto.{Proto, Time, zero_time, is_zero}
use sap.Attr.{clone_attributes}
use sap.State.Timeline.{}

pub record Span : Type 0 where
  pub hub : Option ℕ
  pub trace_id : String
  pub span_id : String
  pub parent_id : String
  pub ended : Bool

-- `context.Context`: the values bound in it, the last one first.
pub data Binding : Type 0 where
  span_value : ℕ → Binding
  hub_value : Option ℕ → Binding

abbrev pub Context : Type 0
Context = List Binding

-- `FromContext`
unfoldable pub from_context : Context → Option ℕ
from_context [] = none
from_context (span_value a ∷ ctx) = some a
from_context (hub_value h ∷ ctx) = from_context ctx

-- `HubFromContext`
unfoldable pub hub_from_context : Context → Option ℕ
hub_from_context [] = none
hub_from_context (span_value a ∷ ctx) = hub_from_context ctx
hub_from_context (hub_value h ∷ ctx) = h

-- `ContextWithHub`
unfoldable pub context_with_hub : Context → Option ℕ → Context
context_with_hub ctx h = hub_value h ∷ ctx

unfoldable pub context_with_span : Context → ℕ → Context
context_with_span ctx a = span_value a ∷ ctx

unfoldable pub string_or_nil : String → Option String
string_or_nil value = ite (str_dec value "") none (some value)

pub record EventConfig : Type 0 where
  pub at : Time
  pub attrs : List (Option Attribute)
  pub severity : Severity

-- `var cfg eventConfig`
abbrev pub zero_config : EventConfig
zero_config = record { at = zero_time; attrs = []; severity = Severity.unspecified }

-- A nil option is none.
abbrev pub EventOption : Type 0
EventOption = Option (EventConfig → EventConfig)

unfoldable pub with_timestamp : Time → EventOption
with_timestamp at = some (λ cfg. record cfg { at = at })

unfoldable pub with_attributes : List (Option Attribute) → EventOption
with_attributes attrs = some (λ cfg. record cfg { attrs = cfg.attrs ++ attrs })

unfoldable pub with_severity : Severity → EventOption
with_severity severity = some (λ cfg. record cfg { severity = severity })

unfoldable pub configure : List EventOption → EventConfig → EventConfig
configure [] cfg = cfg
configure (none ∷ opts) cfg = configure opts cfg
configure (some opt ∷ opts) cfg = configure opts (opt cfg)

unfoldable pub severity_or_nil : Severity → Option Severity
severity_or_nil Severity.unspecified = none
severity_or_nil s = some s

-- The heap of spans, the next address, how often `newID` and the clock were read, and the calls of
-- `Publish`, the last one last, with the hub of each.
pub record Runtime (T : Type 0) : Type 0 where
  pub spans : ℕ → Option Span
  pub next : ℕ
  pub ids_read : ℕ
  pub clock_read : ℕ
  pub published : List (ℕ × Record T)

unfoldable pub put_span : ℕ → Span → (ℕ → Option Span) → ℕ → Option Span
put_span a s m b = ite (ℕ_discrete b a) (some s) (m b)

unfoldable pub hub_of : Option ℕ → Option Span → Option ℕ
hub_of h none = h
hub_of h (some parent) = elim parent.hub [ none ↦ h | some g ↦ some g ]

unfoldable pub recording_of : Option Span → Bool
recording_of none = false
recording_of (some s) = elim s.hub [ none ↦ false | some h ↦ if s.ended then false else true ]

unfoldable pub bind_hub : Context → ℕ → Option ℕ → Context
unfolding context_with_hub
bind_hub ctx h none = context_with_hub ctx (some h)
bind_hub ctx h (some g) = ite (ℕ_discrete g h) ctx (context_with_hub ctx (some h))

module _ {T : Type 0} where
  -- `s == nil` or the span at the address.
  unfoldable pub read_span : Option ℕ → Runtime T → Option Span
  read_span none rt = none
  read_span (some a) rt = rt.spans a

  -- `&Span{…}`
  unfoldable pub alloc : Span → Runtime T → Runtime T
  unfolding put_span
  alloc s rt = record rt { spans = put_span rt.next s rt.spans; next = suc rt.next }

  unfoldable pub publish_to : ℕ → Record T → Runtime T → Runtime T
  publish_to h r rt = record rt { published = rt.published ++ (h, r) ∷ [] }

  -- `timestamppb.Now()` and `time.Now()` read the clock.
  unfoldable pub tick : Runtime T → Runtime T
  tick rt = record rt { clock_read = suc rt.clock_read }

  -- `Recording`
  unfoldable pub recording : Option ℕ → Runtime T → Bool
  unfolding recording_of read_span
  recording a rt = recording_of (read_span a rt)

  -- A method does nothing on a nil span or on one without a hub.
  unfoldable pub on_hub : Option ℕ → (ℕ → ℕ → Span → Runtime T → Runtime T) → Runtime T → Runtime T
  on_hub none act rt = rt
  on_hub (some a) act rt = elim (rt.spans a) [
    | none ↦ rt
    | some s ↦ elim s.hub [ none ↦ rt | some h ↦ act a h s rt ]
  ]
