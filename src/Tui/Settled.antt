-- ===== src/Tui/Settled.antt =====
-- A closed tree of spans of viewer/sap-tui/render.go is drawn the same at every moment.
use sap.Base.{
  ℕ, zero, suc, ◌+◌, ◌≡◌, refl, sym, ap, ◌∙◌, Option, none, some, List, [], ◌∷◌, ◌++◌, String, true,
  false, arith, ite, str_dec,
}
use mathlib.Core.Option.{some-injective, some-ne-none}
use sap.Base.Text.{and_then, and_then-some}
use sap.Base.Lists.{All}
use sap.Message.Proto.{Time, is_zero}
use sap.Base.Maps.{Map}
use sap.State.Tree.{EventState, SpanFields, SpanState, null, span, Spans, nil, cons}
use sap.State.Timeline.{TimelineItem, timeline_items}
use Prim.Native.String as Text
use sap.Tui.Render.{Style, spread, colour, Pen, Moment, status_view, timing_view}
use sap.Tui.Cache.{
  Cache, cached, draw_span, inner_width, render_items, render_span, take_item, header_right,
  own_parts, error_and_attributes, remember, boxed,
}
use sap.Tui.Children.{AllTrees, OnChild, timeline-OnChild}

-- Every span of the tree has ended, at a time that is not the zero time.
unfoldable mutual
  pub Settled : SpanState → Type 0
  Settled null = ⊥
  Settled (span f ts) = (f.ended ≡ true) × (is_zero f.ended_at ≡ false) × AllSettled ts

  pub AllSettled : Spans → Type 0
  AllSettled nil = Unit
  AllSettled (cons t ts) = Settled t × AllSettled ts

AllSettled-AllTrees : (ts : Spans) → AllSettled ts → AllTrees Settled ts
unfolding AllSettled
AllSettled-AllTrees nil v = tt
AllSettled-AllTrees (cons t ts) v = (v.0, AllSettled-AllTrees ts v.1)

module _ (pen : Pen) (f : SpanFields) (e : f.ended ≡ true) (z : is_zero f.ended_at ≡ false) where
  status_view-settled :
      (s s' : String) (stale stale' : Map Time)
      → status_view pen f s stale ≡ status_view pen f s' stale'
  unfolding status_view
  status_view-settled s s' stale stale' = ground (arith, e)

  timing_view-settled :
      (now now' : Time) (stale stale' : Map Time)
      → timing_view pen f now stale ≡ timing_view pen f now' stale'
  unfolding timing_view
  timing_view-settled now now' stale stale' = ground (arith, e, z)

  header_right-settled : (m m' : Moment) → header_right pen f m ≡ header_right pen f m'
  unfolding header_right
  header_right-settled m m' =
      let status = status_view-settled m.spin m'.spin m.stale m'.stale in
      let timing = timing_view-settled m.now m'.now m.stale m'.stale in
      ap
        (λ (x : String × String).
          ite (str_dec x.0 "") x.1 (Text.◌++◌ (pen.paint Style.dim x.0) (Text.◌++◌ " " x.1)))
        (λ i. (timing i, status i))

  own_parts-settled :
      (depth inner : ℕ) (m m' : Moment)
      → own_parts pen f depth inner m ≡ own_parts pen f depth inner m'
  unfolding own_parts
  own_parts-settled depth inner m m' =
      ap
        (λ x.
          spread pen inner (pen.title (colour depth) f.name) x ∷ error_and_attributes pen f inner)
        (header_right-settled m m')

-- Two calls without a cache give the same, and no cache, if both return.
abbrev pub Agree : {A : Type 0} → Option (A × Option Cache) → Option (A × Option Cache) → Type 0
Agree {A} o o' = (r r' : A × Option Cache) → o ≡ some r → o' ≡ some r' → (r ≡ r') × (r.1 ≡ none)

and_then-Agree :
    {A B : Type 0} (o o' : Option (A × Option Cache))
    (g g' : A × Option Cache → Option (B × Option Cache))
    → Agree o o'
    → ((a : A) → Agree (g (a, none)) (g' (a, none)))
    → Agree (and_then o g) (and_then o' g')
and_then-Agree {A} o o' g g' h k r r' e e' =
    let (x, ex, er) = and_then-some o g r e in
    let (x', ex', er') = and_then-some o' g' r' e' in
    let (p, q) = h x x' ex ex' in
    let to_none : x ≡ (x.0, none) = ap (λ (c : Option Cache). (x.0, c)) q in
    k x.0 r r' (sym (ap g to_none) ∙ er) (sym (ap g' (sym p ∙ to_none)) ∙ er')

-- A result that is given without a cache.
given-Agree : {A : Type 0} (a a' : A) → a ≡ a' → Agree (some (a, none)) (some (a', none))
given-Agree a a' p r r' e e' = (
  sym (some-injective (a, none) r e) ∙ ap (λ x. (x, none)) p ∙ some-injective (a', none) r' e',
  sym (ap (λ x. x.1) (some-injective (a, none) r e)),
)

take_item-Agree :
    (pen : Pen) (f : SpanFields) (inner : ℕ) (event : Option EventState)
    (drawn drawn' : Option Cache → Option (String × Option Cache))
    (rest rest' : List EventState → Option Cache → Option (List String × Option Cache))
    → (event ≡ none → Agree (drawn none) (drawn' none))
    → ((group : List EventState) → Agree (rest group none) (rest' group none))
    → (group : List EventState)
    → Agree
        (take_item pen f inner event drawn rest group none)
        (take_item pen f inner event drawn' rest' group none)
unfolding take_item
take_item-Agree pen f inner (some e) drawn drawn' rest rest' h k group = k (group ++ e ∷ [])
take_item-Agree pen f inner none drawn drawn' rest rest' h k group =
    and_then-Agree (drawn none) (drawn' none) _ _ (h refl) (λ text.
      and_then-Agree (rest [] none) (rest' [] none) _ _ (k []) (λ parts. given-Agree _ _ refl))

render_items-Agree :
    (P : SpanState → Type 0) (pen : Pen) (f : SpanFields) (inner : ℕ)
    (draw draw' : SpanState → Option Cache → Option (String × Option Cache))
    → ((t : SpanState) → P t → Agree (draw t none) (draw' t none))
    → (items : List TimelineItem) → All (OnChild P) items
    → (group : List EventState)
    → Agree
        (render_items pen f inner draw items group none)
        (render_items pen f inner draw' items group none)
unfolding render_items
render_items-Agree P pen f inner draw draw' h [] v group = given-Agree _ _ refl
render_items-Agree P pen f inner draw draw' h (item ∷ items) v group =
    take_item-Agree pen f inner item.event (draw item.child) (draw' item.child)
      (render_items pen f inner draw items) (render_items pen f inner draw' items)
      (λ q. h item.child (v.0 q)) (render_items-Agree P pen f inner draw draw' h items v.1) group

-- Whatever the fuels and the moments are, a settled tree that is drawn without a cache is drawn the
-- same.
pub render_span-Agree :
    (n n' : ℕ) (pen : Pen) (m m' : Moment) (depth width : ℕ) (t : SpanState)
    → Settled t
    → Agree (render_span n pen m depth width t none) (render_span n' pen m' depth width t none)
unfolding render_span Settled draw_span cached remember
render_span-Agree zero n' pen m m' depth width t v = λ r r' e e'. absurd (some-ne-none r (sym e))
render_span-Agree (suc n) zero pen m m' depth width t v =
    λ r r' e e'. absurd (some-ne-none r' (sym e'))
render_span-Agree (suc n) (suc n') pen m m' depth width null v = elim v [ ]
render_span-Agree (suc n) (suc n') pen m m' depth width (span f ts) v =
    let inner = inner_width width in
    and_then-Agree _ _ _ _
      (render_items-Agree Settled pen f inner (render_span n pen m (depth + 1) inner)
        (render_span n' pen m' (depth + 1) inner)
        (λ t s. render_span-Agree n n' pen m m' (depth + 1) inner t s) (timeline_items (span f ts))
        (timeline-OnChild Settled f ts (AllSettled-AllTrees ts v.2)) [])
      (λ parts. given-Agree _ _ (
        ap (λ own. boxed pen depth width (own ++ parts))
          (own_parts-settled pen f v.0 v.1 depth inner m m')))
