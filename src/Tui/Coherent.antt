-- ===== src/Tui/Coherent.antt =====
-- The cache of drawn spans of viewer/sap-tui/render.go: while the closed trees do not change, a
-- painting with it shows what one without it shows.
use sap.Base.{
  ℕ, zero, suc, ◌+◌, ◌≡◌, refl, sym, ap, ◌∙◌, ◌⊎◌, inl, inr, Option, none, some, List, [], ◌∷◌,
  ◌++◌, String, Bool, true, false, arith, str_dec, ℕ_discrete,
}
use mathlib.Core.Option.{some-injective, some-ne-none}
use sap.Base.Text.{and_then, and_then-some, Option-ind, if_ind}
use sap.Base.Lists.{All}
use sap.State.Tree.{EventState, SpanFields, SpanState, null, span, Spans, nil, cons}
use sap.State.Timeline.{TimelineItem, timeline_items}
use sap.Tui.Render.{Pen, Moment, join}
use sap.Tui.Cache.{
  Cache, empty_cache, put_text, closed_tree, cached, draw_span, inner_width, render_items,
  render_span, take_item, remember, boxed, own_parts, render_roots, paint_roots,
}
use sap.Tui.Children.{AllTrees, OnChild, timeline-OnChild, AllWithin, render_roots-Returns}
use sap.Tui.Settled.{Settled, render_span-Agree}

cached-hit :
    (closed : Bool) (id : String) (depth width : ℕ) (c : Cache) (text : String)
    → cached closed id depth width (some c) ≡ some text
    → (closed ≡ true) × (c id depth width ≡ some text)
unfolding cached
cached-hit true id depth width c text e = (refl, e)
cached-hit false id depth width c text e = absurd (some-ne-none text (sym e))

-- A text that is found is the new one, under its key, or was there.
put_text-cases :
    (id : String) (depth width : ℕ) (text : String) (c : Cache) (i : String) (d w : ℕ)
    (text' : String)
    → put_text id depth width text c i d w ≡ some text'
    → ((i ≡ id) × (d ≡ depth) × (w ≡ width) × (text' ≡ text)) ⊎ (c i d w ≡ some text')
put_text-cases id depth width text c i d w text' e = elim (str_dec i id) [
  | no n ↦ inr (ground (arith, e, n))
  | yes p ↦ elim (ℕ_discrete d depth) [
    | no n ↦ inr (ground (arith, e, p, n))
    | yes q ↦ elim (ℕ_discrete w width) [
      | no n ↦ inr (ground (arith, e, p, q, n))
      | yes r ↦ inl (p, q, r, some-injective text' text (ground (arith, e, p, q, r)))
    ]
  ]
]

-- A span that is drawn without a cache, by what its timeline gives.
drawn-from :
    (pen : Pen) (m : Moment) (depth width : ℕ) (f : SpanFields) (ts : Spans)
    (draw : SpanState → Option Cache → Option (String × Option Cache)) (parts : List String)
    → render_items pen f (inner_width width) draw (timeline_items (span f ts)) [] none
      ≡ some (parts, none)
    → draw_span pen m depth width f ts draw none
      ≡ some (boxed pen depth width (own_parts pen f depth (inner_width width) m ++ parts), none)
unfolding draw_span remember
drawn-from pen m depth width f ts draw parts e =
    ap
      (λ o. and_then o (λ x. some (
        boxed pen depth width (own_parts pen f depth (inner_width width) m ++ x.0),
        remember (closed_tree (span f ts)) f.span_id depth width
            (boxed pen depth width (own_parts pen f depth (inner_width width) m ++ x.0)) x.1,
      )))
      e

module _ (pen : Pen) (Known : SpanState → Type 0) where
  -- What the cache holds for a key is what every painting without a cache draws for a known settled
  -- span with that ID.
  abbrev pub Coherent : Cache → Type 0
  Coherent c =
      (id : String) (depth width : ℕ) (text : String)
      → c id depth width ≡ some text
      → (f : SpanFields) (ts : Spans) → Known (span f ts)
      → Settled (span f ts)
      → f.span_id ≡ id
      → (n : ℕ) (m : Moment) (r : String × Option Cache)
      → render_span n pen m depth width (span f ts) none ≡ some r
      → r.0 ≡ text

  -- A call with a coherent cache gives what the call without one gives, and a coherent cache.
  abbrev pub Follows : {A : Type 0} → Option (A × Option Cache) → Option (A × Option Cache) → Type 0
  Follows {A} o p =
      (r : A × Option Cache)
      → o ≡ some r
      → (c : Cache) × (p ≡ some (r.0, some c)) × Coherent c × (r.1 ≡ none)

  given-Follows :
      {A : Type 0} (a : A) (c : Cache) → Coherent c → Follows (some (a, none)) (some (a, some c))
  given-Follows a c h r e = (
    c,
    ap (λ x. some (x, some c)) (ap (λ x. x.0) (some-injective (a, none) r e)),
    h,
    sym (ap (λ x. x.1) (some-injective (a, none) r e)),
  )

  and_then-Follows :
      {A B : Type 0} (o p : Option (A × Option Cache))
      (g : A × Option Cache → Option (B × Option Cache))
      → Follows o p
      → ((a : A) (c : Cache)
          → o ≡ some (a, none)
          → Coherent c
          → Follows (g (a, none)) (g (a, some c)))
      → Follows (and_then o g) (and_then p g)
  and_then-Follows {A} o p g h k r e =
      let (x, ex, er) = and_then-some o g r e in
      let (c, ep, hc, q) = h x ex in
      let to_none : x ≡ (x.0, none) = ap (λ (y : Option Cache). (x.0, y)) q in
      let (c', e', hc', q') = k x.0 c (ex ∙ ap some to_none) hc r (sym (ap g to_none) ∙ er) in
      (c', ap (λ y. and_then y g) ep ∙ e', hc', q')

  take_item-Follows :
      (f : SpanFields) (inner : ℕ) (event : Option EventState)
      (drawn : Option Cache → Option (String × Option Cache))
      (rest : List EventState → Option Cache → Option (List String × Option Cache))
      → (event ≡ none → (c : Cache) → Coherent c → Follows (drawn none) (drawn (some c)))
      → ((group : List EventState) (c : Cache)
          → Coherent c
          → Follows (rest group none) (rest group (some c)))
      → (group : List EventState) (c : Cache) → Coherent c
      → Follows
          (take_item pen f inner event drawn rest group none)
          (take_item pen f inner event drawn rest group (some c))
  unfolding take_item
  take_item-Follows f inner (some e) drawn rest h k group c v = k (group ++ e ∷ []) c v
  take_item-Follows f inner none drawn rest h k group c v =
      and_then-Follows (drawn none) (drawn (some c)) _ (h refl c v) (λ text c' _ v'.
        and_then-Follows (rest [] none) (rest [] (some c')) _ (k [] c' v')
          (λ parts c'' _ v''. given-Follows _ c'' v''))

  render_items-Follows :
      (f : SpanFields) (inner : ℕ)
      (draw : SpanState → Option Cache → Option (String × Option Cache))
      → ((t : SpanState)
          → Known t
          → (c : Cache) → Coherent c
          → Follows (draw t none) (draw t (some c)))
      → (items : List TimelineItem) → All (OnChild Known) items
      → (group : List EventState) (c : Cache) → Coherent c
      → Follows
          (render_items pen f inner draw items group none)
          (render_items pen f inner draw items group (some c))
  unfolding render_items
  render_items-Follows f inner draw h [] v group c k = given-Follows _ c k
  render_items-Follows f inner draw h (item ∷ items) v group c k =
      take_item-Follows f inner item.event (draw item.child) (render_items pen f inner draw items)
        (λ q. h item.child (v.0 q)) (render_items-Follows f inner draw h items v.1) group c k

  module _
      (unique : (f g : SpanFields) (ts us : Spans)
        → Known (span f ts)
        → Known (span g us)
        → f.span_id ≡ g.span_id
        → span f ts ≡ span g us) where
    -- A settled span that was drawn without a cache may be put into it.
    put_text-Coherent :
        (f : SpanFields) (ts : Spans) (depth width n : ℕ) (m : Moment) (text : String) (c : Cache)
        → Known (span f ts)
        → Settled (span f ts)
        → render_span n pen m depth width (span f ts) none ≡ some (text, none)
        → Coherent c
        → Coherent (put_text f.span_id depth width text c)
    put_text-Coherent f ts depth width n m text c kn s e h id d w text' q g us kn' s' same n' m' r
          e' =
        elim (put_text-cases f.span_id depth width text c id d w text' q) [
          | inr old ↦ h id d w text' old g us kn' s' same n' m' r e'
          | inl (p, pd, pw, pt) ↦
              let t : span g us ≡ span f ts = unique g f us ts kn' kn (same ∙ p) in
              let drawn : render_span n' pen m' depth width (span f ts) none ≡ some r =
                sym (
                  ap (λ (k : SpanState × ℕ × ℕ). render_span n' pen m' k.1 k.2 k.0 none)
                    (λ i. (t i, pd i, pw i)))
                ∙ e' in
              ap (λ x. x.0)
                (render_span-Agree n' n pen m' m depth width (span f ts) s r (text, none) drawn e).0
              ∙ sym pt
        ]

    module _ (children : (f : SpanFields) (ts : Spans) → Known (span f ts) → AllTrees Known ts)
        (settled : (t : SpanState) → Known t → closed_tree t ≡ true → Settled t) where
      remember-Follows :
          (f : SpanFields) (ts : Spans) (depth width n : ℕ) (m : Moment) (text : String) (c : Cache)
          → Known (span f ts)
          → render_span n pen m depth width (span f ts) none ≡ some (text, none)
          → Coherent c
          → Follows
              (some (text, none))
              (some (text, remember (closed_tree (span f ts)) f.span_id depth width text (some c)))
      unfolding remember
      remember-Follows f ts depth width n m text c k e h =
          if_ind (λ (x : Option Cache). Follows (some (text, none)) (some (text, x)))
            (closed_tree (span f ts))
            (λ q.
              given-Follows text (put_text f.span_id depth width text c)
                (put_text-Coherent f ts depth width n m text c k (settled (span f ts) k q) e h))
            (λ _. given-Follows text c h)

      pub render_span-Follows :
          (n : ℕ) (m : Moment) (depth width : ℕ) (t : SpanState)
          → Known t
          → (c : Cache) → Coherent c
          → Follows
              (render_span n pen m depth width t none)
              (render_span n pen m depth width t (some c))
      unfolding render_span draw_span remember cached
      render_span-Follows zero m depth width t k c h = λ r e. absurd (some-ne-none r (sym e))
      render_span-Follows (suc n) m depth width null k c h = λ r e. absurd (some-ne-none r (sym e))
      render_span-Follows (suc n) m depth width (span f ts) k c h =
          let inner = inner_width width in
          let draw = render_span n pen m (depth + 1) inner in
          let plain = render_span (suc n) pen m depth width (span f ts) none in
          Option-ind (Follows plain)
            (cached (closed_tree (span f ts)) f.span_id depth width (some c))
            (λ _.
              and_then-Follows _ _ _
                (render_items-Follows f inner draw
                  (λ t. render_span-Follows n m (depth + 1) inner t) (timeline_items (span f ts))
                  (timeline-OnChild Known f ts (children f ts k)) [] c h)
                (λ parts c' e h'.
                  remember-Follows f ts depth width (suc n) m
                    (boxed pen depth width (own_parts pen f depth inner m ++ parts)) c' k
                    (drawn-from pen m depth width f ts draw parts e) h'))
            (λ text q r e.
              let (closed, found) =
                cached-hit (closed_tree (span f ts)) f.span_id depth width c text q in
              let s = settled (span f ts) k closed in
              let same = h f.span_id depth width text found f ts k s refl (suc n) m r e in
              (
                c,
                ap (λ x. some (x, some c)) (sym same),
                h,
                (render_span-Agree (suc n) (suc n) pen m m depth width (span f ts) s r r e e).1,
              ))

      render_roots-Follows :
          (n : ℕ) (m : Moment) (width : ℕ) (ts : Spans)
          → AllTrees Known ts
          → (c : Cache) → Coherent c
          → Follows (render_roots n pen m width ts none) (render_roots n pen m width ts (some c))
      unfolding render_roots
      render_roots-Follows n m width nil k c h = given-Follows [] c h
      render_roots-Follows n m width (cons t ts) k c h =
          and_then-Follows _ _ _ (render_span-Follows n m 0 width t k.0 c h) (λ text c' _ h'.
            and_then-Follows _ _ _ (render_roots-Follows n m width ts k.1 c' h')
              (λ texts c'' _ h''. given-Follows _ c'' h''))

      -- Let the IDs of the known spans be unique, their children be known, and the spans of a closed
      -- tree have an end time. With fuel for the height of the roots, a painting of known roots with
      -- a coherent cache returns the text of a painting without one, and leaves a coherent cache,
      -- which holds at every later moment while the known spans are the same.
      pub paint_roots-cached :
          (n : ℕ) (m : Moment) (width : ℕ) (ts : Spans) (c : Cache)
          → AllTrees Known ts
          → AllWithin n ts
          → Coherent c
          → (text : String) × (c' : Cache) × (paint_roots n pen m width ts none ≡ some (text, none))
            × (paint_roots n pen m width ts (some c) ≡ some (text, some c'))
            × Coherent c'
      unfolding paint_roots
      paint_roots-cached n m width ts c k w h =
          let (x, e) = render_roots-Returns n pen m width ts none w in
          let (c', e', h', q) = render_roots-Follows n m width ts k c h x e in
          (
            join "\n" x.0,
            c',
            ap (λ o. and_then o (λ y. some (join "\n" y.0, y.1))) e
                ∙ ap (λ y. some (join "\n" x.0, y)) q,
            ap (λ o. and_then o (λ y. some (join "\n" y.0, y.1))) e',
            h',
          )

-- An empty cache is coherent.
pub empty_cache-Coherent : (pen : Pen) (Known : SpanState → Type 0) → Coherent pen Known empty_cache
empty_cache-Coherent pen Known id depth width text e = absurd (some-ne-none text (sym e))
