-- ===== src/Web/Keys.antt =====
-- viewer/sap-web/render.go: the keys of spans and events and the identifiers of elements.
use Prim.Native.Char.{Char, code}
use Prim.Native.String as Text
use Prim.Native.String.{String, len, slice, ◌++◌}
use sap.Base.{ℕ, Option, none, some, [], ◌∷◌, Bool, true, false, ite, str_dec}
use sap.Base.Int.{leb, ◌==◌, if◌then◌else◌}
use sap.Base.Decimal.{decimal, decimal_ℤ}
use sap.Base.Time.{unix_nano}
use sap.Message.Attributes.{Attribute, get_key}
use sap.Message.Proto.{unix_epoch}
use sap.State.Tree.{EventState, SpanState, null, span}
use sap.State.Timeline.{TimelineItem}
use sap.Web.View.{join}
use sap.Web.View.{span_hue}

unfoldable pub span_card_key : SpanState → String
unfolding decimal_ℤ unix_nano
span_card_key null = ""
span_card_key (span f ts) =
    ite (str_dec f.span_id "")
      (join (
        "span:"
        ∷ f.trace_id
        ∷ ":"
        ∷ f.name
        ∷ ":"
        ∷ decimal_ℤ (unix_nano unix_epoch f.started_at)
        ∷ []))
      ("span:" ++ f.span_id)

-- A letter, a digit, a dash or an underscore.
unfoldable pub is_ident_char : Char → Bool
is_ident_char c = is_ident (code c)
  where
    between : ℕ → ℕ → ℕ → Bool
    between a n b = if leb a n then leb n b else false

    is_ident : ℕ → Bool
    is_ident n =
        if between b'a' n b'z'
        then true
        else (if between b'A' n b'Z'
            then true
            else (if between b'0' n b'9' then true else (if n == b'-' then true else n == b'_')))

-- What is written for a character of a key.
unfoldable pub ident_char : Char → Char
unfolding is_ident_char
ident_char c = if is_ident_char c then c else "-"

unfoldable pub ident_chars : String → String
unfolding ident_char
ident_chars Text.[] = Text.[]
ident_chars (Text.◌∷◌ c s) = Text.◌∷◌ (ident_char c) (ident_chars s)

unfoldable pub safe_css_ident : String → String → String
unfolding ident_chars
safe_css_ident value fallback = ite (str_dec value "") fallback ("sap-" ++ ident_chars value)

unfoldable pub span_dom_id : SpanState → String
unfolding safe_css_ident span_card_key
span_dom_id s = safe_css_ident (span_card_key s) "sap-span-unknown"

unfoldable pub span_summary_dom_id : SpanState → String
unfolding safe_css_ident span_card_key
span_summary_dom_id s = safe_css_ident ("summary:" ++ span_card_key s) "sap-span-summary-unknown"

unfoldable pub span_attributes_dom_id : SpanState → String
unfolding safe_css_ident span_card_key
span_attributes_dom_id s = safe_css_ident ("attrs:" ++ span_card_key s) "sap-span-attrs-unknown"

unfoldable pub span_timeline_dom_id : SpanState → String
unfolding safe_css_ident span_card_key
span_timeline_dom_id s = safe_css_ident ("timeline:" ++ span_card_key s) "sap-span-timeline-unknown"

unfoldable pub timeline_list_dom_id : SpanState → String
unfolding safe_css_ident span_card_key
timeline_list_dom_id s =
    safe_css_ident ("timeline-list:" ++ span_card_key s) "sap-span-timeline-list-unknown"

unfoldable pub attr_dom_id : String → Option Attribute → ℕ → String
unfolding safe_css_ident decimal get_key
attr_dom_id owner attr index =
    safe_css_ident (join ("attr:" ∷ owner ∷ ":" ∷ get_key attr ∷ ":" ∷ decimal index ∷ []))
      "sap-attr-unknown"

unfoldable pub event_dom_id : String → String
unfolding safe_css_ident
event_dom_id key = safe_css_ident key "sap-event-unknown"

unfoldable pub span_style : ℕ → String
unfolding span_hue decimal
span_style depth = "--span-hue:" ++ decimal (span_hue depth)

unfoldable pub parent_id : SpanState → String
parent_id null = ""
parent_id (span f ts) = f.span_id

unfoldable pub event_name : Option EventState → String
event_name none = ""
event_name (some e) = e.name

unfoldable pub event_card_key : SpanState → TimelineItem → String
unfolding parent_id event_name decimal_ℤ decimal unix_nano
event_card_key parent item = join (
    "event:"
    ∷ parent_id parent
    ∷ ":"
    ∷ decimal_ℤ (unix_nano unix_epoch item.at)
    ∷ ":"
    ∷ decimal item.index
    ∷ ":"
    ∷ event_name item.event
    ∷ [])

-- The first eight bytes; a character that they would cut is left out.
unfoldable pub short_id : String → String
short_id id = if leb (len id) 8 then id else slice id 0 8
