-- ===== src/Message/Started.antt =====
-- SpanStarted of gen/sap/v1/record.pb.go and its accessors; those that read accept a nil receiver.
use sap.Base.{Bool, false, Option, none, some, String, List, []}
use sap.Message.Attributes.{Attribute, or_empty, is_some}

pub record SpanStarted (T : Type 0) : Type 0 where
  pub trace_id : Option String
  pub span_id : Option String
  pub parent_span_id : Option String
  pub name : Option String
  pub started_at : Option T
  pub attributes : List (Option Attribute)

module _ {T : Type 0} where
  unfoldable pub get_trace_id : Option (SpanStarted T) → String
  unfolding or_empty
  get_trace_id none = ""
  get_trace_id (some m) = or_empty m.trace_id

  unfoldable pub get_span_id : Option (SpanStarted T) → String
  unfolding or_empty
  get_span_id none = ""
  get_span_id (some m) = or_empty m.span_id

  unfoldable pub get_parent_span_id : Option (SpanStarted T) → String
  unfolding or_empty
  get_parent_span_id none = ""
  get_parent_span_id (some m) = or_empty m.parent_span_id

  unfoldable pub get_name : Option (SpanStarted T) → String
  unfolding or_empty
  get_name none = ""
  get_name (some m) = or_empty m.name

  unfoldable pub get_started_at : Option (SpanStarted T) → Option T
  get_started_at none = none
  get_started_at (some m) = m.started_at

  unfoldable pub get_attributes : Option (SpanStarted T) → List (Option Attribute)
  get_attributes none = []
  get_attributes (some m) = m.attributes

-- Presence: a field that is set, tested and cleared.
module _ {T : Type 0} where
  unfoldable pub set_trace_id : String → SpanStarted T → SpanStarted T
  set_trace_id v m = record m { trace_id = some v }

  unfoldable pub has_trace_id : Option (SpanStarted T) → Bool
  unfolding is_some
  has_trace_id none = false
  has_trace_id (some m) = is_some m.trace_id

  unfoldable pub clear_trace_id : SpanStarted T → SpanStarted T
  clear_trace_id m = record m { trace_id = none }

  unfoldable pub set_span_id : String → SpanStarted T → SpanStarted T
  set_span_id v m = record m { span_id = some v }

  unfoldable pub has_span_id : Option (SpanStarted T) → Bool
  unfolding is_some
  has_span_id none = false
  has_span_id (some m) = is_some m.span_id

  unfoldable pub clear_span_id : SpanStarted T → SpanStarted T
  clear_span_id m = record m { span_id = none }

  unfoldable pub set_parent_span_id : String → SpanStarted T → SpanStarted T
  set_parent_span_id v m = record m { parent_span_id = some v }

  unfoldable pub has_parent_span_id : Option (SpanStarted T) → Bool
  unfolding is_some
  has_parent_span_id none = false
  has_parent_span_id (some m) = is_some m.parent_span_id

  unfoldable pub clear_parent_span_id : SpanStarted T → SpanStarted T
  clear_parent_span_id m = record m { parent_span_id = none }

  unfoldable pub set_name : String → SpanStarted T → SpanStarted T
  set_name v m = record m { name = some v }

  unfoldable pub has_name : Option (SpanStarted T) → Bool
  unfolding is_some
  has_name none = false
  has_name (some m) = is_some m.name

  unfoldable pub clear_name : SpanStarted T → SpanStarted T
  clear_name m = record m { name = none }

  unfoldable pub set_started_at : Option T → SpanStarted T → SpanStarted T
  set_started_at v m = record m { started_at = v }

  unfoldable pub has_started_at : Option (SpanStarted T) → Bool
  unfolding is_some
  has_started_at none = false
  has_started_at (some m) = is_some m.started_at

  unfoldable pub clear_started_at : SpanStarted T → SpanStarted T
  clear_started_at m = record m { started_at = none }

  unfoldable pub set_attributes : List (Option Attribute) → SpanStarted T → SpanStarted T
  set_attributes v m = record m { attributes = v }
