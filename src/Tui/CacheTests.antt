-- ===== src/Tui/CacheTests.antt =====
-- The drawing of viewer/sap-tui/render.go and its cache on concrete spans.
use Prim.Native.String as Text
use sap.Base.{
  ℕ, ◌≡◌, ◌≢◌, refl, sym, ap, subst, ◌∙◌, ◌⊎◌, inl, inr, String, Option, none, some, List, [], ◌∷◌,
  Bool, true, false, str_dec, ℕ_discrete,
}
use sap.Base.Int.{pos}
use sap.Base.Text.{ne_of_test}
use sap.Base.Maps.{empty}
use sap.Message.Ended.{TerminalType}
use sap.Message.Events.{Severity}
use sap.Message.Proto.{plain}
use sap.State.Tree.{SpanFields, SpanState, null, span, Spans, nil, cons}
use sap.State.Store.{Store, new_store}
use sap.State.History.{applies, run}
use sap.State.Samples.{start, finish, evaluation}
use sap.Tui.Render.{
  Style, Pen, Moment, repeat, join, colour, indent_lines, indent_rest, status_view, span_timer_view,
  until, timing_view, render_attribute, attribute_parts, render_attributes, event_head, spread,
  render_event, event_parts, render_events, event_offset, render_error,
}
use sap.Tui.Cache.{
  Cache, empty_cache, closed_tree, cached, draw_span, inner_width, render_items, flush_events,
  take_item, remember, boxed, own_parts, error_and_attributes, header_right, rule, render_span,
  render_roots, paint_roots,
}
use sap.Tui.Children.{AllTrees, Within, Returns, render_span-Returns}
use sap.Tui.Settled.{Settled}
use sap.Tui.Coherent.{Coherent, empty_cache-Coherent, paint_roots-cached}

-- Styles that leave a text as it is, but for a short rule.
paint_plain : Style → String → String
paint_plain Style.dim s = "-"
paint_plain style s = s

abbrev pen : Pen
pen = record {
  header = λ n s. s;
  paint = paint_plain;
  title = λ c s. s;
  wrap = λ n s. s;
  box = λ c n s. Text.◌++◌ "[" (Text.◌++◌ s "]");
  cells = λ s. 100;
  stack = λ ss. "";
  timer = λ n. "";
  highlight = λ lang s. s;
}

abbrev moment : Moment
moment = record { spin = "*"; now = pos 50; stale = empty }

evaluates : Unit {0}
unfolding evaluation repeat join colour indent_lines indent_rest status_view span_timer_view until
    timing_view render_attribute attribute_parts render_attributes event_head spread render_event
    event_parts render_events event_offset render_error closed_tree cached draw_span inner_width
    render_items flush_events take_item remember boxed own_parts error_and_attributes header_right
    rule render_span render_roots paint_roots sap.State.Timeline.timeline_items
    sap.State.Timeline.entries sap.State.Timeline.sort_stable sap.State.Timeline.put_item
    sap.State.Timeline.is_less sap.State.Timeline.compare_items sap.State.Timeline.add_events
    sap.State.Timeline.add_children sap.Tui.Render.code_language sap.Web.Labels.code_hint
    sap.Web.Labels.has_hint sap.Web.View.is_stale sap.Base.Time.sub_time paint_plain
evaluates = tt

indents : indent_lines "a\nb" "  " ≡ "  a\n  b"
unfolding indent_lines indent_rest str_dec
indents = refl

-- A root that has ended, and the same store after a child has started and ended under it.
abbrev early : Store
early =
    run plain (applies (some (start "root" none 10)) ∷ applies (some (finish "root" 20)) ∷ [])
      new_store

abbrev late : Store
late =
    run plain
      (applies (some (start "child" (some "root") 30)) ∷ applies (some (finish "child" 40)) ∷ [])
      early

cache_of : Option (String × Option Cache) → Option Cache
cache_of none = none
cache_of (some x) = x.1

text_of : Option (String × Option Cache) → String
text_of none = ""
text_of (some x) = x.0

-- A cache that is filled before a child starts hides the child: the key has not changed.
shows_no_child :
    (text_of (paint_roots 3 pen moment 60 late.roots none)
      ≡ "[root ✓\n-\ngoal: ship\n[child ✓\n-\ngoal: ship]]")
    × (text_of (
          paint_roots 3 pen moment 60 late.roots
            (cache_of (paint_roots 3 pen moment 60 early.roots (some empty_cache))))
        ≡ "[root ✓\n-\ngoal: ship]")
unfolding evaluates cache_of text_of new_store sap.Message.Attributes.get_display_hints
    sap.Message.Attributes.get_value
shows_no_child = (refl, refl)

abbrev fields_of : String → ℕ → SpanFields
fields_of id at = record {
  addr = at;
  trace_id = "trace-1";
  span_id = id;
  parent_span_id = "";
  name = id;
  started_at = pos 10;
  ended_at = pos 20;
  attributes = [];
  events =
      some (record { name = "e"; at = pos 11; attributes = []; severity = Severity.warn }) ∷ [];
  ended = true;
  terminal_type = TerminalType.complete;
  error_message = "";
}

abbrev leaf : SpanState
leaf = span (fields_of "leaf" 1) nil

abbrev root : SpanState
root = span (fields_of "root" 0) (cons leaf nil)

-- The known spans are these two.
abbrev Known : SpanState → Type 0
Known t = (t ≡ root) ⊎ (t ≡ leaf)

id_of : SpanState → String
id_of null = ""
id_of (span f ts) = f.span_id

differ : ¬ (◌≡◌ {A = String} "root" "leaf")
differ = ne_of_test "root" "leaf" refl

Known-unique :
    (f g : SpanFields) (ts us : Spans)
    → Known (span f ts)
    → Known (span g us)
    → f.span_id ≡ g.span_id
    → span f ts ≡ span g us
unfolding id_of
Known-unique f g ts us (inl p) (inl q) e = p ∙ sym q
Known-unique f g ts us (inr p) (inr q) e = p ∙ sym q
Known-unique f g ts us (inl p) (inr q) e = absurd (differ (sym (ap id_of p) ∙ e ∙ ap id_of q))
Known-unique f g ts us (inr p) (inl q) e = absurd (differ (sym (ap id_of q) ∙ sym e ∙ ap id_of p))

KnownBelow : SpanState → Type 0
KnownBelow null = Unit
KnownBelow (span f ts) = AllTrees Known ts

Known-children : (f : SpanFields) (ts : Spans) → Known (span f ts) → AllTrees Known ts
unfolding KnownBelow
Known-children f ts (inl p) = subst KnownBelow (sym p) (inr refl, tt)
Known-children f ts (inr p) = subst KnownBelow (sym p) tt

Known-Settled : (t : SpanState) → Known t → closed_tree t ≡ true → Settled t
unfolding Settled
Known-Settled t (inl p) c = subst Settled (sym p) (refl, refl, ((refl, refl, tt), tt))
Known-Settled t (inr p) c = subst Settled (sym p) (refl, refl, tt)

paint_roots-cached_example :
    (text : String) × (c' : Cache) × (paint_roots 2 pen moment 60 (cons root nil) none
      ≡ some (text, none))
    × (paint_roots 2 pen moment 60 (cons root nil) (some empty_cache) ≡ some (text, some c'))
    × Coherent pen Known c'
unfolding Within
paint_roots-cached_example =
    paint_roots-cached pen Known Known-unique Known-children Known-Settled 2 moment 60
      (cons root nil) empty_cache (inl refl, tt) ((tt, tt), tt) (empty_cache-Coherent pen Known)

render_span-Returns_example : Returns (render_span 2 pen moment 0 60 root (some empty_cache))
unfolding Within
render_span-Returns_example = render_span-Returns 2 pen moment 0 60 root (some empty_cache) (tt, tt)
