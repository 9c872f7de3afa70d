-- ===== src/Tui/Children.antt =====
-- The children that a timeline holds, and that the drawing of viewer/sap-tui/render.go ends.
use mathlib.Core.Option.{some-ne-none}
use sap.Base.{
  ℕ, zero, suc, ◌+◌, ◌≡◌, refl, ap, ◌∙◌, Option, none, some, List, [], ◌∷◌, ◌++◌, String,
}
use sap.Base.Text.{and_then, Option-ind}
use sap.Base.Lists.{All}
use sap.State.Tree.{EventState, SpanFields, SpanState, null, span, Spans, nil, cons}
use sap.State.Timeline.{TimelineItem, add_events, add_children, entries, timeline_items}
use sap.State.Timeline.Order.{All-sort_stable}
use sap.Tui.Render.{Pen, Moment}
use sap.Tui.Cache.{
  Cache, closed_tree, cached, draw_span, inner_width, render_items, render_span, render_roots,
  take_item,
}

abbrev pub AllTrees {ℓ} : (SpanState → Type ℓ) → Spans → Type ℓ
AllTrees P nil = Unit
AllTrees P (cons t ts) = P t × AllTrees P ts

-- An item that stands for a child has a child with a property.
abbrev pub OnChild {ℓ} : (SpanState → Type ℓ) → TimelineItem → Type ℓ
OnChild P item = item.event ≡ none → P item.child

module _ {ℓ} (P : SpanState → Type ℓ) where
  All-snoc :
      (xs : List TimelineItem) (x : TimelineItem)
      → All (OnChild P) xs
      → OnChild P x
      → All (OnChild P) (xs ++ x ∷ [])
  All-snoc [] x v h = (h, tt)
  All-snoc (y ∷ xs) x v h = (v.0, All-snoc xs x v.1 h)

  add_events-OnChild :
      (es : List (Option EventState)) (items : List TimelineItem)
      → All (OnChild P) items
      → All (OnChild P) (add_events es items)
  unfolding add_events
  add_events-OnChild [] items v = v
  add_events-OnChild (none ∷ es) items v = add_events-OnChild es items v
  add_events-OnChild (some e ∷ es) items v =
      add_events-OnChild es _ (All-snoc items _ v (λ q. absurd (some-ne-none e q)))

  add_children-OnChild :
      (ts : Spans) (items : List TimelineItem)
      → AllTrees P ts
      → All (OnChild P) items
      → All (OnChild P) (add_children ts items)
  unfolding add_children
  add_children-OnChild nil items h v = v
  add_children-OnChild (cons null ts) items h v = add_children-OnChild ts items h.1 v
  add_children-OnChild (cons (span f us) ts) items h v =
      add_children-OnChild ts _ h.1 (All-snoc items _ v (λ _. h.0))

  -- What holds of the children holds of those in the timeline.
  pub timeline-OnChild :
      (f : SpanFields) (ts : Spans) → AllTrees P ts → All (OnChild P) (timeline_items (span f ts))
  unfolding timeline_items entries
  timeline-OnChild f ts h =
      All-sort_stable (OnChild P) _
        (add_children-OnChild ts _ h (add_events-OnChild f.events [] tt))

-- A tree without nil spans, of at most this height.
unfoldable mutual
  pub Within : ℕ → SpanState → Type 0
  Within n null = ⊥
  Within zero (span f ts) = ⊥
  Within (suc n) (span f ts) = AllWithin n ts

  pub AllWithin : ℕ → Spans → Type 0
  AllWithin n nil = Unit
  AllWithin n (cons t ts) = Within n t × AllWithin n ts

-- A call that returns.
abbrev pub Returns {ℓ} : {A : Type ℓ} → Option A → Type ℓ
Returns {A = A} o = (a : A) × (o ≡ some a)

-- The next step returns if the first one does.
and_then-Returns :
    {A B : Type 0} (o : Option A) (g : A → Option B)
    → Returns o
    → ((a : A) → Returns (g a))
    → Returns (and_then o g)
and_then-Returns o g (a, e) h = let (b, e') = h a in (b, ap (λ x. and_then x g) e ∙ e')

take_item-Returns :
    (pen : Pen) (f : SpanFields) (inner : ℕ) (event : Option EventState)
    (drawn : Option Cache → Option (String × Option Cache))
    (rest : List EventState → Option Cache → Option (List String × Option Cache))
    → (event ≡ none → (c : Option Cache) → Returns (drawn c))
    → ((group : List EventState) (c : Option Cache) → Returns (rest group c))
    → (group : List EventState) (c : Option Cache)
    → Returns (take_item pen f inner event drawn rest group c)
unfolding take_item
take_item-Returns pen f inner (some e) drawn rest h r group c = r (group ++ e ∷ []) c
take_item-Returns pen f inner none drawn rest h r group c =
    and_then-Returns (drawn c) _ (h refl c)
      (λ x. and_then-Returns (rest [] x.1) _ (r [] x.1) (λ y. (_, refl)))

render_items-Returns :
    (P : SpanState → Type 0) (pen : Pen) (f : SpanFields) (inner : ℕ)
    (draw : SpanState → Option Cache → Option (String × Option Cache))
    → ((t : SpanState) (c : Option Cache) → P t → Returns (draw t c))
    → (items : List TimelineItem) → All (OnChild P) items
    → (group : List EventState) (c : Option Cache)
    → Returns (render_items pen f inner draw items group c)
unfolding render_items
render_items-Returns P pen f inner draw h [] v group c = (_, refl)
render_items-Returns P pen f inner draw h (item ∷ items) v group c =
    take_item-Returns pen f inner item.event (draw item.child) (render_items pen f inner draw items)
      (λ q c. h item.child c (v.0 q)) (render_items-Returns P pen f inner draw h items v.1) group c

AllWithin-AllTrees : (n : ℕ) (ts : Spans) → AllWithin n ts → AllTrees (Within n) ts
unfolding AllWithin
AllWithin-AllTrees n nil v = tt
AllWithin-AllTrees n (cons t ts) v = (v.0, AllWithin-AllTrees n ts v.1)

-- With fuel that bounds the height of a tree without nil spans, `renderSpan` returns a text, with
-- any cache, at any depth and width.
pub render_span-Returns :
    (n : ℕ) (pen : Pen) (m : Moment) (depth width : ℕ) (t : SpanState) (c : Option Cache)
    → Within n t
    → Returns (render_span n pen m depth width t c)
unfolding render_span Within draw_span
render_span-Returns zero pen m depth width (span f ts) c v = elim v [ ]
render_span-Returns zero pen m depth width null c v = elim v [ ]
render_span-Returns (suc n) pen m depth width null c v = elim v [ ]
render_span-Returns (suc n) pen m depth width (span f ts) c v =
    Option-ind Returns (cached (closed_tree (span f ts)) f.span_id depth width c)
      (λ _.
        and_then-Returns _ _
          (render_items-Returns (Within n) pen f (inner_width width)
            (render_span n pen m (depth + 1) (inner_width width))
            (λ t c h. render_span-Returns n pen m (depth + 1) (inner_width width) t c h)
            (timeline_items (span f ts))
            (timeline-OnChild (Within n) f ts (AllWithin-AllTrees n ts v)) [] c)
          (λ x. (_, refl)))
      (λ text _. (_, refl))

-- With fuel that bounds the height of every root, `renderRoots` returns a text.
pub render_roots-Returns :
    (n : ℕ) (pen : Pen) (m : Moment) (width : ℕ) (ts : Spans) (c : Option Cache)
    → AllWithin n ts
    → Returns (render_roots n pen m width ts c)
unfolding render_roots AllWithin
render_roots-Returns n pen m width nil c v = (_, refl)
render_roots-Returns n pen m width (cons t ts) c v =
    and_then-Returns _ _ (render_span-Returns n pen m 0 width t c v.0)
      (λ x. and_then-Returns _ _ (render_roots-Returns n pen m width ts x.1 v.1) (λ y. (_, refl)))
