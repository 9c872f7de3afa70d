-- ===== src/Web/View.antt =====
-- viewer/sap-web/render.go: what is shown of a span, an event and a connection. A nil span is null.
use Prim.Native.String.{String, ◌++◌}
use sap.Base.{
  ℕ, zero, suc, ◌*◌, ◌%◌, Option, none, some, List, [], ◌∷◌, Bool, true, false, ite, str_dec,
}
use sap.Base.Int.{ℤ, pos, pos_part, ltb, ltb_ℤ, sub_ℤ, if◌then◌else◌}
use sap.Base.Decimal.{decimal_ℤ, duration_string, millisecond, second}
use sap.Base.Time.{wrap, times, sub_time, unix_milli, round}
use sap.Base.Maps.{Map}
use sap.Message.Proto.{Time, is_zero, unix_epoch}
use sap.State.Tree.{SpanFields, SpanState, null, span}
use sap.State.Timeline.{TimelineItem}

-- Parts of a text that `fmt.Sprintf` or `+` puts together.
abbrev pub join : List String → String
join [] = ""
join (s ∷ ss) = s ++ join ss

unfoldable pub span_hue : ℕ → ℕ
span_hue depth = hue (depth % 6)
  where
    hue : ℕ → ℕ
    hue zero = 310
    hue (suc zero) = 265
    hue (suc (suc zero)) = 25
    hue (suc (suc (suc zero))) = 48
    hue (suc (suc (suc (suc zero)))) = 136
    hue _ = 195

-- `_, stale := staleOpenSpanIDs[span.SpanID]`
unfoldable pub is_stale : SpanFields → Map Time → Bool
is_stale f stale = elim (stale f.span_id) [ none ↦ false | some _ ↦ true ]

-- The classes that templ makes of the stylesheet; `no_class` is the empty one.
pub data ToneClass : Type 0 where
  no_class status_error status_ok : ToneClass

unfoldable pub status_tone_class : SpanState → Map Time → ToneClass
unfolding is_stale
status_tone_class null stale = no_class
status_tone_class (span f ts) stale =
    if f.ended
    then ite (str_dec f.error_message "") status_ok status_error
    else (if is_stale f stale then status_error else no_class)

unfoldable pub status_icon : SpanState → Map Time → String
unfolding is_stale
status_icon null stale = ""
status_icon (span f ts) stale =
    if f.ended
    then ite (str_dec f.error_message "") "✓" "✕"
    else (if is_stale f stale then "✕" else "")

unfoldable pub status_text : SpanState → Map Time → String
unfolding is_stale
status_text null stale = "unknown"
status_text (span f ts) stale =
    if f.ended
    then ite (str_dec f.error_message "") "complete" "error"
    else (if is_stale f stale then "stale" else "running")

unfoldable pub has_timer : SpanState → Bool
has_timer null = false
has_timer (span f ts) = if is_zero f.started_at then false else true

unfoldable pub timer_start_ms : SpanState → ℤ
timer_start_ms null = pos 0
timer_start_ms (span f ts) =
    if is_zero f.started_at then pos 0 else unix_milli unix_epoch f.started_at

unfoldable pub stale_ms : Option Time → ℤ
stale_ms none = pos 0
stale_ms (some at) = unix_milli unix_epoch at

unfoldable pub timer_end_ms : SpanState → Map Time → ℤ
unfolding stale_ms
timer_end_ms null stale = pos 0
timer_end_ms (span f ts) stale =
    if (if f.ended then (if is_zero f.ended_at then false else true) else false)
    then unix_milli unix_epoch f.ended_at
    else stale_ms (stale f.span_id)

unfoldable pub timer_x_data : SpanState → Map Time → String
unfolding timer_start_ms timer_end_ms decimal_ℤ
timer_x_data s stale =
    join (
      "sapTimer("
      ∷ decimal_ℤ (timer_start_ms s)
      ∷ ","
      ∷ decimal_ℤ (timer_end_ms s stale)
      ∷ ")"
      ∷ [])

-- The negative part is cut before a duration is rounded.
unfoldable pub format_duration : ℤ → String
unfolding round duration_string
format_duration d =
    let n = pos_part d in
    if ltb n second
    then duration_string (pos (round n (10 * millisecond)))
    else (if ltb n (60 * second)
        then duration_string (pos (round n (100 * millisecond)))
        else duration_string (pos (round n second)))

unfoldable pub running_time : SpanState → Time → String
unfolding format_duration sub_time
running_time null now = ""
running_time (span f ts) now = format_duration (sub_time now f.started_at)

unfoldable pub timing_view : SpanState → Time → Map Time → String
unfolding has_timer timer_start_ms timer_end_ms format_duration running_time
timing_view s now stale =
    if has_timer s
    then (let end_ms = timer_end_ms s stale in
        if ltb_ℤ (pos 0) end_ms
        then format_duration (wrap (times (wrap (sub_ℤ end_ms (timer_start_ms s))) millisecond))
        else running_time s now)
    else ""

unfoldable pub timeline_offset : SpanState → TimelineItem → String
unfolding format_duration sub_time
timeline_offset null item = ""
timeline_offset (span f ts) item =
    if (if is_zero f.started_at then true else is_zero item.at)
    then ""
    else "+" ++ format_duration (sub_time item.at f.started_at)
