-- ===== src/Message/Events.antt =====
-- SpanEvent of gen/sap/v1/record.pb.go and its accessors; those that read accept a nil receiver.
use sap.Base.{Bool, false, Option, none, some, String, List, []}
use sap.Base.Int.{ℤ}
use sap.Message.Attributes.{Attribute, or_empty, is_some}

-- An open enumeration: `other` is any number that the schema does not name.
pub data Severity : Type 0 where
  unspecified info warn error : Severity
  other : ℤ → Severity

pub record SpanEvent (T : Type 0) : Type 0 where
  pub trace_id : Option String
  pub span_id : Option String
  pub name : Option String
  pub event_at : Option T
  pub attributes : List (Option Attribute)
  pub severity : Option Severity

unfoldable pub severity_or_default : Option Severity → Severity
severity_or_default none = info
severity_or_default (some s) = s

module _ {T : Type 0} where
  unfoldable pub get_trace_id : Option (SpanEvent T) → String
  unfolding or_empty
  get_trace_id none = ""
  get_trace_id (some m) = or_empty m.trace_id

  unfoldable pub get_span_id : Option (SpanEvent T) → String
  unfolding or_empty
  get_span_id none = ""
  get_span_id (some m) = or_empty m.span_id

  unfoldable pub get_name : Option (SpanEvent T) → String
  unfolding or_empty
  get_name none = ""
  get_name (some m) = or_empty m.name

  unfoldable pub get_event_at : Option (SpanEvent T) → Option T
  get_event_at none = none
  get_event_at (some m) = m.event_at

  unfoldable pub get_attributes : Option (SpanEvent T) → List (Option Attribute)
  get_attributes none = []
  get_attributes (some m) = m.attributes

  -- The schema's default is `info`.
  unfoldable pub get_severity : Option (SpanEvent T) → Severity
  unfolding severity_or_default
  get_severity none = info
  get_severity (some m) = severity_or_default m.severity

-- Presence: a field that is set, tested and cleared.
module _ {T : Type 0} where
  unfoldable pub set_trace_id : String → SpanEvent T → SpanEvent T
  set_trace_id v m = record m { trace_id = some v }

  unfoldable pub has_trace_id : Option (SpanEvent T) → Bool
  unfolding is_some
  has_trace_id none = false
  has_trace_id (some m) = is_some m.trace_id

  unfoldable pub clear_trace_id : SpanEvent T → SpanEvent T
  clear_trace_id m = record m { trace_id = none }

  unfoldable pub set_span_id : String → SpanEvent T → SpanEvent T
  set_span_id v m = record m { span_id = some v }

  unfoldable pub has_span_id : Option (SpanEvent T) → Bool
  unfolding is_some
  has_span_id none = false
  has_span_id (some m) = is_some m.span_id

  unfoldable pub clear_span_id : SpanEvent T → SpanEvent T
  clear_span_id m = record m { span_id = none }

  unfoldable pub set_name : String → SpanEvent T → SpanEvent T
  set_name v m = record m { name = some v }

  unfoldable pub has_name : Option (SpanEvent T) → Bool
  unfolding is_some
  has_name none = false
  has_name (some m) = is_some m.name

  unfoldable pub clear_name : SpanEvent T → SpanEvent T
  clear_name m = record m { name = none }

  unfoldable pub set_event_at : Option T → SpanEvent T → SpanEvent T
  set_event_at v m = record m { event_at = v }

  unfoldable pub has_event_at : Option (SpanEvent T) → Bool
  unfolding is_some
  has_event_at none = false
  has_event_at (some m) = is_some m.event_at

  unfoldable pub clear_event_at : SpanEvent T → SpanEvent T
  clear_event_at m = record m { event_at = none }

  unfoldable pub set_attributes : List (Option Attribute) → SpanEvent T → SpanEvent T
  set_attributes v m = record m { attributes = v }

  unfoldable pub set_severity : Severity → SpanEvent T → SpanEvent T
  set_severity v m = record m { severity = some v }

  unfoldable pub has_severity : Option (SpanEvent T) → Bool
  unfolding is_some
  has_severity none = false
  has_severity (some m) = is_some m.severity

  unfoldable pub clear_severity : SpanEvent T → SpanEvent T
  clear_severity m = record m { severity = none }
