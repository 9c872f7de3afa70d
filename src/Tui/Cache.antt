-- ===== src/Tui/Cache.antt =====
-- `renderRoots`, `renderSpan` and the cache of drawn spans of viewer/sap-tui/render.go. A nil cache is
-- none. The recursion is on fuel, which the height of a tree bounds; none also stands for the panic
-- of a nil span.
use Prim.Native.Nat.{max}
use Prim.Native.String as Text
use sap.Base.{
  ℕ, zero, suc, ◌+◌, ◌-◌, String, Option, none, some, List, [], ◌∷◌, ◌++◌, Bool, true, false, ite,
  str_dec, ℕ_discrete,
}
use sap.Base.Int.{if◌then◌else◌}
use sap.Base.Text.{and_then}
use sap.State.Tree.{EventState, SpanFields, SpanState, null, span, Spans, nil, cons}
use sap.State.Timeline.{TimelineItem, timeline_items}
use sap.Tui.Render.{
  Style, Pen, Moment, repeat, join, colour, status_view, timing_view, spread, render_attributes,
  render_events, render_error,
}

-- `map[spanRenderCacheKey]string`, with the three fields of a key.
abbrev pub Cache : Type 0
Cache = String → ℕ → ℕ → Option String

abbrev pub empty_cache : Cache
empty_cache id depth width = none

abbrev pub put_text : String → ℕ → ℕ → String → Cache → Cache
put_text id depth width text c i d w =
    ite (str_dec i id)
      (ite (ℕ_discrete d depth) (ite (ℕ_discrete w width) (some text) (c i d w)) (c i d w))
      (c i d w)

-- `isClosedSpanTree`
unfoldable mutual
  pub closed_tree : SpanState → Bool
  closed_tree null = false
  closed_tree (span f ts) = if f.ended then closed_trees ts else false

  pub closed_trees : Spans → Bool
  closed_trees nil = true
  closed_trees (cons t ts) = if closed_tree t then closed_trees ts else false

unfoldable pub inner_width : ℕ → ℕ
inner_width width = max 24 (width - 4)

unfoldable pub rule : Pen → ℕ → String
unfolding repeat
rule pen inner = pen.paint Style.dim (repeat "─" inner)

-- What stands right in the header: the time, if there is one, and the status.
unfoldable pub header_right : Pen → SpanFields → Moment → String
unfolding timing_view status_view
header_right pen f m =
    let timing = timing_view pen f m.now m.stale in
    let status = status_view pen f m.spin m.stale in
    ite (str_dec timing "") status (Text.◌++◌ (pen.paint Style.dim timing) (Text.◌++◌ " " status))

-- The error and the attributes, if there are any, each under a rule.
unfoldable pub error_and_attributes : Pen → SpanFields → ℕ → List String
unfolding rule render_error render_attributes
error_and_attributes pen f inner =
    let attrs = render_attributes pen f.attributes inner in
    ite (str_dec f.error_message "") []
      (rule pen inner ∷ render_error pen f.error_message inner ∷ [])
    ++ ite (str_dec attrs "") [] (rule pen inner ∷ attrs ∷ [])

-- The header, the error and the attributes.
unfoldable pub own_parts : Pen → SpanFields → ℕ → ℕ → Moment → List String
unfolding spread header_right colour error_and_attributes
own_parts pen f depth inner m =
    spread pen inner (pen.title (colour depth) f.name) (header_right pen f m)
    ∷ error_and_attributes pen f inner

unfoldable pub flush_events : Pen → SpanFields → ℕ → List EventState → List String
unfolding rule render_events
flush_events pen f inner [] = []
flush_events pen f inner (e ∷ group) =
    rule pen inner ∷ render_events pen (e ∷ group) inner f.started_at ∷ []

unfoldable pub boxed : Pen → ℕ → ℕ → List String → String
unfolding colour join
boxed pen depth width parts = pen.box (colour depth) (width - 2) (join "\n" parts)

-- What the cache has for a span: nothing unless its tree is closed.
unfoldable pub cached : Bool → String → ℕ → ℕ → Option Cache → Option String
cached closed id depth width none = none
cached closed id depth width (some c) = if closed then c id depth width else none

unfoldable pub remember : Bool → String → ℕ → ℕ → String → Option Cache → Option Cache
remember closed id depth width text none = none
remember closed id depth width text (some c) =
    if closed then some (put_text id depth width text c) else some c

-- One turn of the loop over the timeline: an event goes to the group; before a child the group is
-- flushed. `drawn` is `renderSpan` for the child, and `rest` what follows.
unfoldable pub take_item :
    Pen
    → SpanFields
    → ℕ
    → Option EventState
    → (Option Cache → Option (String × Option Cache))
    → (List EventState → Option Cache → Option (List String × Option Cache))
    → List EventState
    → Option Cache
    → Option (List String × Option Cache)
unfolding flush_events
take_item pen f inner (some e) drawn rest group c = rest (group ++ e ∷ []) c
take_item pen f inner none drawn rest group c =
    and_then (drawn c)
      (λ x. and_then (rest [] x.1) (λ y. some (flush_events pen f inner group ++ x.0 ∷ y.0, y.1)))

unfoldable pub render_items :
    Pen
    → SpanFields
    → ℕ
    → (SpanState → Option Cache → Option (String × Option Cache))
    → List TimelineItem
    → List EventState
    → Option Cache
    → Option (List String × Option Cache)
unfolding flush_events take_item
render_items pen f inner draw [] group c = some (flush_events pen f inner group, c)
render_items pen f inner draw (item ∷ items) group c =
    take_item pen f inner item.event (draw item.child) (render_items pen f inner draw items) group c

-- `renderSpan` after the look into the cache.
unfoldable pub draw_span :
    Pen
    → Moment
    → ℕ
    → ℕ
    → SpanFields
    → Spans
    → (SpanState → Option Cache → Option (String × Option Cache))
    → Option Cache
    → Option (String × Option Cache)
unfolding closed_tree remember render_items own_parts boxed inner_width timeline_items
draw_span pen m depth width f ts draw c =
    let inner = inner_width width in
    and_then (render_items pen f inner draw (timeline_items (span f ts)) [] c) (λ x.
      let text = boxed pen depth width (own_parts pen f depth inner m ++ x.0) in
      some (text, remember (closed_tree (span f ts)) f.span_id depth width text x.1))

unfoldable pub render_span :
    ℕ → Pen → Moment → ℕ → ℕ → SpanState → Option Cache → Option (String × Option Cache)
unfolding closed_tree cached draw_span inner_width
render_span zero pen m depth width t c = none
render_span (suc n) pen m depth width null c = none
render_span (suc n) pen m depth width (span f ts) c =
    elim (cached (closed_tree (span f ts)) f.span_id depth width c) [
      | some text ↦ some (text, c)
      | none ↦
          draw_span pen m depth width f ts (render_span n pen m (depth + 1) (inner_width width)) c
    ]

-- The drawn roots, in order.
unfoldable pub render_roots :
    ℕ → Pen → Moment → ℕ → Spans → Option Cache → Option (List String × Option Cache)
unfolding render_span
render_roots n pen m width nil c = some ([], c)
render_roots n pen m width (cons t ts) c =
    and_then (render_span n pen m 0 width t c)
      (λ x. and_then (render_roots n pen m width ts x.1) (λ y. some (x.0 ∷ y.0, y.1)))

-- `renderRoots`: a line feed between the roots.
unfoldable pub paint_roots :
    ℕ → Pen → Moment → ℕ → Spans → Option Cache → Option (String × Option Cache)
unfolding render_roots join
paint_roots n pen m width ts c =
    and_then (render_roots n pen m width ts c) (λ x. some (join "\n" x.0, x.1))
