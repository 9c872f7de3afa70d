-- ===== src/State/Apply/Untimed.antt =====
-- A message without a timestamp: `timeValue` never sees a nil interface.
use Prim.Native.Nat.{Ordering}
use sap.Base.{◌≡◌, ap, ◌∙◌, none, some, false, arith}
use sap.Base.Int.{◌<ℤ◌}
use sap.Message.Proto.{is_zero, Proto, IsProto, unix_epoch}
use sap.Message.Events.{SpanEvent}
use sap.State.Timeline.{TimelineItem, compare_items}
use sap.State.Apply.{new_event}

epoch-first :
    (x y : TimelineItem) → x.at ≡ unix_epoch → unix_epoch <ℤ y.at → compare_items x y ≡ Ordering.lt
unfolding compare_items
epoch-first x y e h = ground arith

-- An event record without a time does not yield an event without a time: the event is dated
-- 1970-01-01, which `IsZero` does not recognise, so that a timeline puts it before every entry
-- after that date and not behind the entries that have a time.
pub new_event-untimed :
    (p : Proto) (l : IsProto p) (m : SpanEvent p.Timestamp)
    → m.event_at ≡ none
    → let e = new_event p (some m) in
      (is_zero e.at ≡ false)
      × ((x y : TimelineItem) → x.at ≡ e.at → unix_epoch <ℤ y.at → compare_items x y ≡ Ordering.lt)
unfolding new_event sap.Message.Events.get_event_at
new_event-untimed p l m none_given =
    let dated : p.as_time m.event_at ≡ unix_epoch = ap p.as_time none_given ∙ l.as_time-nil in
    (ap is_zero dated, λ x y e h. epoch-first x y (e ∙ dated) h)
