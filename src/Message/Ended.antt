-- ===== src/Message/Ended.antt =====
-- SpanEnded of gen/sap/v1/record.pb.go and its accessors; those that read accept a nil receiver.
use sap.Base.{Bool, false, Option, none, some, String}
use sap.Base.Int.{ℤ}
use sap.Message.Attributes.{or_empty, is_some}

-- An open enumeration: `other` is any number that the schema does not name.
pub data TerminalType : Type 0 where
  unspecified complete error : TerminalType
  other : ℤ → TerminalType

pub record SpanEnded (T : Type 0) : Type 0 where
  pub trace_id : Option String
  pub span_id : Option String
  pub ended_at : Option T
  pub terminal_type : Option TerminalType
  pub error_message : Option String

unfoldable pub type_or_default : Option TerminalType → TerminalType
type_or_default none = unspecified
type_or_default (some t) = t

module _ {T : Type 0} where
  unfoldable pub get_trace_id : Option (SpanEnded T) → String
  unfolding or_empty
  get_trace_id none = ""
  get_trace_id (some m) = or_empty m.trace_id

  unfoldable pub get_span_id : Option (SpanEnded T) → String
  unfolding or_empty
  get_span_id none = ""
  get_span_id (some m) = or_empty m.span_id

  unfoldable pub get_ended_at : Option (SpanEnded T) → Option T
  get_ended_at none = none
  get_ended_at (some m) = m.ended_at

  unfoldable pub get_terminal_type : Option (SpanEnded T) → TerminalType
  unfolding type_or_default
  get_terminal_type none = unspecified
  get_terminal_type (some m) = type_or_default m.terminal_type

  unfoldable pub get_error_message : Option (SpanEnded T) → String
  unfolding or_empty
  get_error_message none = ""
  get_error_message (some m) = or_empty m.error_message

-- Presence: a field that is set, tested and cleared.
module _ {T : Type 0} where
  unfoldable pub set_trace_id : String → SpanEnded T → SpanEnded T
  set_trace_id v m = record m { trace_id = some v }

  unfoldable pub has_trace_id : Option (SpanEnded T) → Bool
  unfolding is_some
  has_trace_id none = false
  has_trace_id (some m) = is_some m.trace_id

  unfoldable pub clear_trace_id : SpanEnded T → SpanEnded T
  clear_trace_id m = record m { trace_id = none }

  unfoldable pub set_span_id : String → SpanEnded T → SpanEnded T
  set_span_id v m = record m { span_id = some v }

  unfoldable pub has_span_id : Option (SpanEnded T) → Bool
  unfolding is_some
  has_span_id none = false
  has_span_id (some m) = is_some m.span_id

  unfoldable pub clear_span_id : SpanEnded T → SpanEnded T
  clear_span_id m = record m { span_id = none }

  unfoldable pub set_ended_at : Option T → SpanEnded T → SpanEnded T
  set_ended_at v m = record m { ended_at = v }

  unfoldable pub has_ended_at : Option (SpanEnded T) → Bool
  unfolding is_some
  has_ended_at none = false
  has_ended_at (some m) = is_some m.ended_at

  unfoldable pub clear_ended_at : SpanEnded T → SpanEnded T
  clear_ended_at m = record m { ended_at = none }

  unfoldable pub set_terminal_type : TerminalType → SpanEnded T → SpanEnded T
  set_terminal_type v m = record m { terminal_type = some v }

  unfoldable pub has_terminal_type : Option (SpanEnded T) → Bool
  unfolding is_some
  has_terminal_type none = false
  has_terminal_type (some m) = is_some m.terminal_type

  unfoldable pub clear_terminal_type : SpanEnded T → SpanEnded T
  clear_terminal_type m = record m { terminal_type = none }

  unfoldable pub set_error_message : String → SpanEnded T → SpanEnded T
  set_error_message v m = record m { error_message = some v }

  unfoldable pub has_error_message : Option (SpanEnded T) → Bool
  unfolding is_some
  has_error_message none = false
  has_error_message (some m) = is_some m.error_message

  unfoldable pub clear_error_message : SpanEnded T → SpanEnded T
  clear_error_message m = record m { error_message = none }
