-- ===== src/Message.antt =====
-- The record messages of gen/sap/v1/record.pb.go. A pointer that may be nil is an `Option`; the
-- presence bits of fields are the constructor of the `Option`.
-- `T` is the type of google.protobuf.Timestamp, which the repository does not define.
pub mod Attributes
pub mod Started
pub mod Updated
pub mod Ended
pub mod Events
pub mod Proto
use sap.Base.{Option, none, some, Bool, true, false}
use Attributes.{is_some}
use Started.{SpanStarted}
use Updated.{SpanUpdated}
use Ended.{SpanEnded}
use Events.{SpanEvent}

-- The oneof `kind`. The setters and the builder store no nil message in it.
pub data Kind (T : Type 0) : Type 0 where
  not_set : Kind T
  span_started : SpanStarted T → Kind T
  span_updated : SpanUpdated T → Kind T
  span_ended : SpanEnded T → Kind T
  span_event : SpanEvent T → Kind T

pub record Record (T : Type 0) : Type 0 where
  pub emitted_at : Option T
  pub kind : Kind T

pub data KindCase : Type 0 where
  not_set_case span_started_case span_updated_case span_ended_case span_event_case : KindCase

module _ {T : Type 0} where
  case_of : Kind T → KindCase
  case_of not_set = not_set_case
  case_of (span_started m) = span_started_case
  case_of (span_updated m) = span_updated_case
  case_of (span_ended m) = span_ended_case
  case_of (span_event m) = span_event_case

  unfoldable pub which_kind : Option (Record T) → KindCase
  unfolding case_of
  which_kind none = not_set_case
  which_kind (some r) = case_of r.kind

  started_of : Kind T → Option (SpanStarted T)
  started_of (span_started m) = some m
  started_of _ = none

  unfoldable pub get_span_started : Option (Record T) → Option (SpanStarted T)
  unfolding started_of
  get_span_started none = none
  get_span_started (some r) = started_of r.kind

  updated_of : Kind T → Option (SpanUpdated T)
  updated_of (span_updated m) = some m
  updated_of _ = none

  unfoldable pub get_span_updated : Option (Record T) → Option (SpanUpdated T)
  unfolding updated_of
  get_span_updated none = none
  get_span_updated (some r) = updated_of r.kind

  ended_of : Kind T → Option (SpanEnded T)
  ended_of (span_ended m) = some m
  ended_of _ = none

  unfoldable pub get_span_ended : Option (Record T) → Option (SpanEnded T)
  unfolding ended_of
  get_span_ended none = none
  get_span_ended (some r) = ended_of r.kind

  event_of : Kind T → Option (SpanEvent T)
  event_of (span_event m) = some m
  event_of _ = none

  unfoldable pub get_span_event : Option (Record T) → Option (SpanEvent T)
  unfolding event_of
  get_span_event none = none
  get_span_event (some r) = event_of r.kind

-- `Record_builder`: a field of the oneof that is set later in `Build` wins.
pub record RecordBuilder (T : Type 0) : Type 0 where
  pub emitted_at : Option T
  pub started : Option (SpanStarted T)
  pub updated : Option (SpanUpdated T)
  pub ended : Option (SpanEnded T)
  pub event : Option (SpanEvent T)

or_keep {ℓ κ} : {A : Type ℓ} {B : Type κ} → Option A → (A → B) → B → B
or_keep none f b = b
or_keep (some a) f b = f a

unfoldable pub build : {T : Type 0} → RecordBuilder T → Record T
unfolding or_keep
build b = record {
  emitted_at = b.emitted_at;
  kind = or_keep b.event span_event (
      or_keep b.ended span_ended
        (or_keep b.updated span_updated (or_keep b.started span_started not_set)));
}

-- The setters, tests and clears of Record. To set a member of the oneof to nil clears the oneof.
module _ {T : Type 0} where
  unfoldable pub get_emitted_at : Option (Record T) → Option T
  get_emitted_at none = none
  get_emitted_at (some r) = r.emitted_at

  unfoldable pub set_emitted_at : Option T → Record T → Record T
  set_emitted_at v r = record r { emitted_at = v }

  unfoldable pub set_span_started : Option (SpanStarted T) → Record T → Record T
  set_span_started none r = record r { kind = not_set }
  set_span_started (some v) r = record r { kind = span_started v }

  unfoldable pub set_span_updated : Option (SpanUpdated T) → Record T → Record T
  set_span_updated none r = record r { kind = not_set }
  set_span_updated (some v) r = record r { kind = span_updated v }

  unfoldable pub set_span_ended : Option (SpanEnded T) → Record T → Record T
  set_span_ended none r = record r { kind = not_set }
  set_span_ended (some v) r = record r { kind = span_ended v }

  unfoldable pub set_span_event : Option (SpanEvent T) → Record T → Record T
  set_span_event none r = record r { kind = not_set }
  set_span_event (some v) r = record r { kind = span_event v }

  unfoldable pub has_emitted_at : Option (Record T) → Bool
  unfolding is_some
  has_emitted_at none = false
  has_emitted_at (some r) = is_some r.emitted_at

  is_set : Kind T → Bool
  is_set not_set = false
  is_set _ = true

  unfoldable pub has_kind : Option (Record T) → Bool
  unfolding is_set
  has_kind none = false
  has_kind (some r) = is_set r.kind

  unfoldable pub has_span_started : Option (Record T) → Bool
  unfolding is_some get_span_started
  has_span_started r = is_some (get_span_started r)

  unfoldable pub has_span_updated : Option (Record T) → Bool
  unfolding is_some get_span_updated
  has_span_updated r = is_some (get_span_updated r)

  unfoldable pub has_span_ended : Option (Record T) → Bool
  unfolding is_some get_span_ended
  has_span_ended r = is_some (get_span_ended r)

  unfoldable pub has_span_event : Option (Record T) → Bool
  unfolding is_some get_span_event
  has_span_event r = is_some (get_span_event r)

  unfoldable pub clear_emitted_at : Record T → Record T
  clear_emitted_at r = record r { emitted_at = none }

  unfoldable pub clear_kind : Record T → Record T
  clear_kind r = record r { kind = not_set }

  clear_if : Bool → Record T → Record T
  clear_if true r = record r { kind = not_set }
  clear_if false r = r

  unfoldable pub clear_span_started : Record T → Record T
  unfolding clear_if has_span_started
  clear_span_started r = clear_if (has_span_started (some r)) r

  unfoldable pub clear_span_updated : Record T → Record T
  unfolding clear_if has_span_updated
  clear_span_updated r = clear_if (has_span_updated (some r)) r

  unfoldable pub clear_span_ended : Record T → Record T
  unfolding clear_if has_span_ended
  clear_span_ended r = clear_if (has_span_ended (some r)) r

  unfoldable pub clear_span_event : Record T → Record T
  unfolding clear_if has_span_event
  clear_span_event r = clear_if (has_span_event (some r)) r
