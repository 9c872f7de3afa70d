-- ===== src/Web/Labels.antt =====
-- viewer/sap-web/render.go: display hints and the labels of a connection.
use Prim.Native.String.{String, len, slice, ◌++◌}
use text.Mathlib.Text.{starts_with}
use sap.Base.{Option, none, some, List, [], ◌∷◌, Bool, true, false, ite, str_dec}
use sap.Base.Int.{pos, pos_part, leb, if◌then◌else◌}
use sap.Base.Decimal.{decimal, duration_string, second}
use sap.Base.Time.{sub_time, round}
use sap.Message.Attributes.{Attribute, get_display_hints}
use sap.Message.Proto.{Time, is_zero}
use sap.Sse.{State, no_state, connecting, connected, retrying, disconnected, ConnectionState}

unfoldable pub has_hint : List String → String → Bool
has_hint [] want = false
has_hint (hint ∷ hints) want = ite (str_dec hint want) true (has_hint hints want)

-- The first loop of `codeLanguage`.
unfoldable pub code_hint : List String → Option String
code_hint [] = none
code_hint (hint ∷ hints) =
    if starts_with hint "code:" then some (slice hint (len "code:") (len hint)) else code_hint hints

unfoldable pub code_language : List String → String
unfolding code_hint has_hint
code_language hints = elim (code_hint hints) [
  | some lang ↦ lang
  | none ↦ if has_hint hints "code" then "text" else ""
]

unfoldable pub attr_is_badge : Option Attribute → Bool
unfolding has_hint get_display_hints
attr_is_badge none = false
attr_is_badge (some a) = has_hint (get_display_hints (some a)) "badge"

unfoldable pub attr_is_code : Option Attribute → Bool
unfolding has_hint get_display_hints code_language
attr_is_code none = false
attr_is_code (some a) =
    let hints = get_display_hints (some a) in
    ite (str_dec (code_language hints) "") (has_hint hints "code") true

pub data DotClass : Type 0 where
  dot_connected dot_connecting dot_retrying dot_disconnected : DotClass

unfoldable pub connection_dot_class : ConnectionState → DotClass
connection_dot_class conn = dot conn.state
  where
    dot : State → DotClass
    dot connected = dot_connected
    dot connecting = dot_connecting
    dot retrying = dot_retrying
    dot disconnected = dot_disconnected
    dot no_state = dot_disconnected

unfoldable pub state_label : State → String
state_label no_state = "disconnected"
state_label connecting = "connecting"
state_label connected = "connected"
state_label retrying = "retrying"
state_label disconnected = "disconnected"

unfoldable pub connection_label : ConnectionState → String
unfolding state_label
connection_label conn = state_label conn.state

unfoldable pub retry_detail : ConnectionState → Time → String
unfolding duration_string round sub_time
retry_detail conn now =
    ite (str_dec conn.err "")
      (if is_zero conn.retry_at
        then ""
        else "retry in "
          ++ duration_string (pos (round (pos_part (sub_time conn.retry_at now)) second)))
      conn.err

unfoldable pub detail_of : State → ConnectionState → Time → String
unfolding retry_detail decimal
detail_of connecting conn now =
    if leb 1 conn.attempt then "attempt " ++ decimal conn.attempt else ""
detail_of retrying conn now = retry_detail conn now
detail_of connected conn now = ""
detail_of disconnected conn now = ""
detail_of no_state conn now = ""

unfoldable pub connection_detail : ConnectionState → Time → String
unfolding detail_of
connection_detail conn now = detail_of conn.state conn now

unfoldable pub pause_button_label : Bool → String
pause_button_label true = "Resume"
pause_button_label false = "Pause"
