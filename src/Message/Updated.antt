-- ===== src/Message/Updated.antt =====
-- SpanUpdated of gen/sap/v1/record.pb.go and its accessors; those that read accept a nil receiver.
use sap.Base.{Bool, false, Option, none, some, String, List, []}
use sap.Message.Attributes.{Attribute, or_empty, is_some}

pub record SpanUpdated (T : Type 0) : Type 0 where
  pub trace_id : Option String
  pub span_id : Option String
  pub attributes : List (Option Attribute)

module _ {T : Type 0} where
  unfoldable pub get_trace_id : Option (SpanUpdated T) → String
  unfolding or_empty
  get_trace_id none = ""
  get_trace_id (some m) = or_empty m.trace_id

  unfoldable pub get_span_id : Option (SpanUpdated T) → String
  unfolding or_empty
  get_span_id none = ""
  get_span_id (some m) = or_empty m.span_id

  unfoldable pub get_attributes : Option (SpanUpdated T) → List (Option Attribute)
  get_attributes none = []
  get_attributes (some m) = m.attributes

-- Presence: a field that is set, tested and cleared.
module _ {T : Type 0} where
  unfoldable pub set_trace_id : String → SpanUpdated T → SpanUpdated T
  set_trace_id v m = record m { trace_id = some v }

  unfoldable pub has_trace_id : Option (SpanUpdated T) → Bool
  unfolding is_some
  has_trace_id none = false
  has_trace_id (some m) = is_some m.trace_id

  unfoldable pub clear_trace_id : SpanUpdated T → SpanUpdated T
  clear_trace_id m = record m { trace_id = none }

  unfoldable pub set_span_id : String → SpanUpdated T → SpanUpdated T
  set_span_id v m = record m { span_id = some v }

  unfoldable pub has_span_id : Option (SpanUpdated T) → Bool
  unfolding is_some
  has_span_id none = false
  has_span_id (some m) = is_some m.span_id

  unfoldable pub clear_span_id : SpanUpdated T → SpanUpdated T
  clear_span_id m = record m { span_id = none }

  unfoldable pub set_attributes : List (Option Attribute) → SpanUpdated T → SpanUpdated T
  set_attributes v m = record m { attributes = v }
