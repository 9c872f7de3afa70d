-- ===== src/Tui/Render.antt =====
-- viewer/sap-tui/render.go: the parts of a drawn span, an event and the footer. The styles of lipgloss,
-- the timer of bubbles and the highlighting by chroma are an interface.
use Prim.Native.Char.{code}
use Prim.Native.Nat.{max}
use Prim.Native.String as Text
use Prim.Native.String.{◌++◌}
use sap.Base.{
  ℕ, zero, suc, ◌-◌, ◌*◌, ◌/◌, ◌%◌, String, Option, none, some, List, [], ◌∷◌, Bool, true, false,
  ite, str_dec,
}
use sap.Base.Int.{ℤ, pos, pos_part, ◌==◌, if◌then◌else◌}
use sap.Base.Decimal.{decimal, millisecond}
use sap.Base.Time.{sub_time}
use sap.Base.Maps.{Map}
use sap.Message.Attributes.{Attribute, get_key, get_value, get_display_hints}
use sap.Message.Events.{Severity}
use sap.Message.Proto.{Time, is_zero}
use sap.Sse.{State, no_state, connecting, connected, retrying, disconnected}
use sap.State.Tree.{EventState, SpanFields}
use sap.Web.View.{format_duration, is_stale}
use sap.Web.Labels.{has_hint, code_hint}

-- The styles of render.go that take no more than a text.
pub data Style : Type 0 where
  footer_key footer_desc footer_separator dim label ok err run warn : Style

-- The styles, `title` and `box` with the colour of a depth.
pub record Pen : Type 0 where
  pub header : ℤ → String → String
  pub paint : Style → String → String
  pub title : String → String → String
  -- `NewStyle().Width(n).Render(…)`, and the box around a span with its width
  pub wrap : ℕ → String → String
  pub box : String → ℕ → String → String
  -- `lipgloss.Width` and `lipgloss.JoinVertical` from the left
  pub cells : String → ℕ
  pub stack : List String → String
  -- `timer.NewWithInterval(d, time.Millisecond).View()` and `highlightCode`
  pub timer : ℕ → String
  pub highlight : String → String → String

-- What changes from one painting to the next.
pub record Moment : Type 0 where
  pub spin : String
  pub now : Time
  pub stale : Map Time

-- `strings.Repeat` and `strings.Join`
unfoldable pub repeat : String → ℕ → String
repeat s zero = ""
repeat s (suc n) = s ++ repeat s n

unfoldable pub join : String → List String → String
join sep [] = ""
join sep (s ∷ []) = s
join sep (s ∷ s' ∷ ss) = s ++ (sep ++ join sep (s' ∷ ss))

unfoldable pub colour : ℕ → String
colour depth = at (depth % 6)
  where
    at : ℕ → String
    at zero = "213"
    at (suc zero) = "141"
    at (suc (suc zero)) = "117"
    at (suc (suc (suc zero))) = "220"
    at (suc (suc (suc (suc zero)))) = "78"
    at _ = "209"

-- The prefix in front of each line: at the start, and after each line feed.
unfoldable pub indent_rest : String → String → String
indent_rest prefix Text.[] = Text.[]
indent_rest prefix (Text.◌∷◌ c s) =
    let rest = indent_rest prefix s in
    if code c == 10 then Text.◌∷◌ c (prefix ++ rest) else Text.◌∷◌ c rest

unfoldable pub indent_lines : String → String → String
unfolding indent_rest
indent_lines value prefix = ite (str_dec value "") "" (prefix ++ indent_rest prefix value)

-- `codeLanguage` of highlight.go, whose second loop returns the empty text like what follows it.
unfoldable pub code_language : List String → String
unfolding code_hint
code_language hints = elim (code_hint hints) [ some language ↦ language | none ↦ "" ]

-- `statusView`
unfoldable pub status_view : Pen → SpanFields → String → Map Time → String
unfolding is_stale
status_view pen f spin stale =
    if f.ended
    then ite (str_dec f.error_message "") (pen.paint Style.ok "✓") (pen.paint Style.err "✕")
    else (if is_stale f stale then pen.paint Style.err "✕" else spin)

unfoldable pub span_timer_view : Pen → ℤ → String
span_timer_view pen d = pen.timer (pos_part d / millisecond * millisecond)

-- The end of the time that is shown: the mark of a stale span, or now.
unfoldable pub until : Option Time → Time → Time
until none now = now
until (some at) now = at

unfoldable pub timing_view : Pen → SpanFields → Time → Map Time → String
unfolding span_timer_view until sub_time
timing_view pen f now stale =
    if is_zero f.started_at
    then ""
    else (if (if f.ended then (if is_zero f.ended_at then false else true) else false)
        then span_timer_view pen (sub_time f.ended_at f.started_at)
        else span_timer_view pen (sub_time (until (stale f.span_id) now) f.started_at))

unfoldable pub event_offset : Time → Time → String
unfolding format_duration sub_time
event_offset started_at event_at =
    if (if is_zero started_at then true else is_zero event_at)
    then ""
    else "+" ++ format_duration (sub_time event_at started_at)

unfoldable pub render_attribute : Pen → ℕ → Attribute → String
unfolding code_language has_hint
render_attribute pen width a =
    let name = get_key (some a) in
    let hints = get_display_hints (some a) in
    let language = code_language hints in
    if ite (str_dec language "") (has_hint hints "code") true
    then pen.paint Style.label (name ++ ":")
      ++ ("\n" ++ pen.highlight language (get_value (some a)))
    else pen.wrap width (pen.paint Style.label (name ++ ": ") ++ get_value (some a))

unfoldable pub attribute_parts : Pen → ℕ → List (Option Attribute) → List String
unfolding render_attribute
attribute_parts pen width [] = []
attribute_parts pen width (none ∷ attrs) = attribute_parts pen width attrs
attribute_parts pen width (some a ∷ attrs) =
    render_attribute pen width a ∷ attribute_parts pen width attrs

unfoldable pub render_attributes : Pen → List (Option Attribute) → ℕ → String
unfolding attribute_parts join
render_attributes pen attrs width = join "\n" (attribute_parts pen width attrs)

-- The mark and the name of an event, by its severity.
unfoldable pub event_head : Pen → Severity → String → String
event_head pen Severity.warn name = pen.paint Style.warn "* " ++ pen.paint Style.warn name
event_head pen Severity.error name = pen.paint Style.err "* " ++ pen.paint Style.err name
event_head pen Severity.unspecified name = pen.paint Style.dim "* " ++ name
event_head pen Severity.info name = pen.paint Style.dim "* " ++ name
event_head pen (Severity.other n) name = pen.paint Style.dim "* " ++ name

-- A left and a right text with at least one space between them.
unfoldable pub spread : Pen → ℕ → String → String → String
unfolding repeat
spread pen width left right =
    left ++ (repeat " " (max 1 (width - pen.cells left - pen.cells right)) ++ right)

unfoldable pub render_event : Pen → ℕ → Time → EventState → String
unfolding event_head event_offset spread render_attributes indent_lines join
render_event pen width started_at e =
    let left = event_head pen e.severity e.name in
    let offset = event_offset started_at e.at in
    let header =
      ite (str_dec offset "") left (spread pen width left (pen.paint Style.dim offset)) in
    let attrs = render_attributes pen e.attributes (max 1 (width - 2)) in
    join "\n" (pen.wrap width header ∷ ite (str_dec attrs "") [] (indent_lines attrs "  " ∷ []))

unfoldable pub event_parts : Pen → ℕ → Time → List EventState → List String
unfolding render_event
event_parts pen width started_at [] = []
event_parts pen width started_at (e ∷ es) =
    render_event pen width started_at e ∷ event_parts pen width started_at es

unfoldable pub render_events : Pen → List EventState → ℕ → Time → String
unfolding event_parts join
render_events pen events width started_at = join "\n" (event_parts pen width started_at events)

unfoldable pub render_error : Pen → String → ℕ → String
render_error pen message width = pen.wrap width (pen.paint Style.err "error: " ++ message)

-- The dot of a connection; `retry` is the view of the retry timer.
unfoldable pub connection_status : Pen → State → String → String
connection_status pen connected retry = pen.paint Style.ok "●"
connection_status pen connecting retry = pen.paint Style.run "●"
connection_status pen retrying retry =
    pen.paint Style.run "●" ++ (" " ++ pen.paint Style.footer_desc retry)
connection_status pen disconnected retry = pen.paint Style.dim "●"
connection_status pen no_state retry = pen.paint Style.dim "●"

unfoldable pub footer_item : Pen → String → String → String
footer_item pen name desc =
    pen.paint Style.footer_key name ++ (" " ++ pen.paint Style.footer_desc desc)

unfoldable pub footer_left : Pen → ℕ → State → String → Bool → String
unfolding footer_item connection_status decimal
footer_left pen roots state retry paused =
    let separator = pen.paint Style.footer_separator " · " in
    let left =
      footer_item pen "roots" (decimal roots) ++ (separator ++ connection_status pen state retry) in
    if paused then left ++ (separator ++ pen.paint Style.run "paused") else left

unfoldable pub render_footer : Pen → ℕ → ℕ → State → String → Bool → String → String
unfolding footer_left spread
render_footer pen width roots state retry paused help =
    spread pen width (footer_left pen roots state retry paused) help

unfoldable pub render_header : Pen → ℕ → String
render_header pen width = pen.header (pos width) " sap · live monitor "

-- `View`: the header, the content and the footer of a model that has a size.
unfoldable pub view : Pen → Bool → ℕ → ℕ → State → String → Bool → String → String → String
unfolding render_header render_footer
view pen ready width roots state retry paused help content =
    if ready
    then pen.stack (
        render_header pen width
        ∷ content
        ∷ render_footer pen width roots state retry paused help
        ∷ [])
    else ""
