-- ===== src/Web/Patches.antt =====
-- `recordPatchSnapshotLocked` of viewer/sap-web/server.go: what an append patch adds to a timeline.
use sap.Base.{
  ℕ, suc, ◌+◌, ◌≡◌, refl, sym, ap, subst, ◌⊎◌, inl, inr, Option, none, some, List, [], ◌∷◌, ◌++◌,
  arith, String, str_dec,
}
use sap.Base.Int.{leb}
use sap.Base.Text.{if_ind, ite_ind}
use mathlib.Core.Option.{some-injective, some-ne-none}
use sap.Base.Lists.{In, In-eq, here, there, length, length-append, In-append_left, In-append_right}
use sap.Message.Proto.{Time}
use sap.Base.Maps.{Map}
use sap.State.Tree.{EventState, SpanFields, SpanState, null, span, Spans, nil, cons}
use sap.State.Timeline.{
  TimelineItem, add_events, add_children, is_less, compare_items, put_item, sort_stable, entries,
  timeline_items,
}
use sap.Web.Server.{
  Rendered, Templates, child_in, child_span_by_id, last_event, append_child, patch_under,
  append_event, patch_event,
}

put_item-here : (x : TimelineItem) (ys : List TimelineItem) → In x (put_item x ys)
unfolding put_item
put_item-here x [] = here x refl
put_item-here x (y ∷ ys) =
    if_ind (In x) (is_less (compare_items y x)) (λ _. there y (put_item-here x ys))
      (λ _. here x refl)

put_item-there : (z x : TimelineItem) (ys : List TimelineItem) → In z ys → In z (put_item x ys)
unfolding put_item
put_item-there z x [] i = there x i
put_item-there z x (y ∷ ys) (here _ e) =
    if_ind (In z) (is_less (compare_items y x)) (λ _. here y e) (λ _. there x (here y e))
put_item-there z x (y ∷ ys) (there _ i) =
    if_ind (In z) (is_less (compare_items y x)) (λ _. there y (put_item-there z x ys i))
      (λ _. there x (there y i))

-- The sort keeps every entry.
sort_stable-In : (z : TimelineItem) (xs : List TimelineItem) → In z xs → In z (sort_stable xs)
unfolding sort_stable
sort_stable-In z [] i = elim i [ ]
sort_stable-In z (x ∷ xs) (here _ e) =
    subst (λ y. In y (put_item x (sort_stable xs))) (sym e) (put_item-here x (sort_stable xs))
sort_stable-In z (x ∷ xs) (there _ i) = put_item-there z x (sort_stable xs) (sort_stable-In z xs i)

-- No pointer of the slice is nil.
abbrev pub NoNil : List (Option EventState) → Type 0
NoNil [] = Unit
NoNil (none ∷ es) = ⊥
NoNil (some e ∷ es) = NoNil es

abbrev pub NoNull : Spans → Type 0
NoNull nil = Unit
NoNull (cons null ts) = ⊥
NoNull (cons (span f us) ts) = NoNull ts

abbrev event_item : ℕ → EventState → TimelineItem
event_item i e = record { at = e.at; event = some e; child = null; index = i }

abbrev child_item : ℕ → SpanFields → Spans → TimelineItem
child_item i f ts = record { at = f.started_at; event = none; child = span f ts; index = i }

add_events-kept :
    (z : TimelineItem) (es : List (Option EventState)) (items : List TimelineItem)
    → In z items
    → In z (add_events es items)
unfolding add_events
add_events-kept z [] items i = i
add_events-kept z (none ∷ es) items i = add_events-kept z es items i
add_events-kept z (some e ∷ es) items i = add_events-kept z es _ (In-append_left z _ i)

add_children-kept :
    (z : TimelineItem) (ts : Spans) (items : List TimelineItem)
    → In z items
    → In z (add_children ts items)
unfolding add_children
add_children-kept z nil items i = i
add_children-kept z (cons null ts) items i = add_children-kept z ts items i
add_children-kept z (cons (span f us) ts) items i = add_children-kept z ts _ (In-append_left z _ i)

length-add_events :
    (es : List (Option EventState)) (items : List TimelineItem)
    → NoNil es
    → length (add_events es items) ≡ length es + length items
unfolding add_events
length-add_events [] items n = omega arith
length-add_events (none ∷ es) items n = elim n [ ]
length-add_events (some e ∷ es) items n = omega (
  arith,
  length-add_events es (items ++ event_item (length items) e ∷ []) n,
  length-append items (event_item (length items) e ∷ []),
)

-- The last event is an entry, with its index.
last_event-In :
    (es : List (Option EventState)) (items : List TimelineItem) (i : ℕ) (e : EventState)
    → NoNil es
    → last_event es (length items) ≡ some (i, e)
    → In (event_item i e) (add_events es items)
unfolding last_event add_events
last_event-In [] items i e n h = absurd (some-ne-none (i, e) (sym h))
last_event-In (none ∷ es) items i e n h = elim n [ ]
last_event-In (some e' ∷ none ∷ es) items i e n h = elim n [ ]
last_event-In (some e' ∷ []) items i e n h =
    In-eq
      (ap (λ (x : ℕ × EventState). event_item x.0 x.1) (some-injective (length items, e') (i, e) h))
      (In-append_right _ items (here _ refl))
last_event-In (some e' ∷ some e'' ∷ es) items i e n h =
    let items' = items ++ event_item (length items) e' ∷ [] in
    let l : suc (length items) ≡ length items' =
      omega (arith, length-append items (event_item (length items) e' ∷ [])) in
    last_event-In (some e'' ∷ es) items' i e n
      (subst (λ m. last_event (some e'' ∷ es) m ≡ some (i, e)) l h)

-- What was found, at its index after `k` other entries.
abbrev ChildAt : ℕ → List TimelineItem → SpanState × ℕ → Type 0
ChildAt k items (null, i) = Unit
ChildAt k items (span f us, i) = In (child_item (k + i) f us) items

child_in-ChildAt :
    (ts : Spans) (items : List TimelineItem) (id : String) (j : ℕ)
    → NoNull ts
    → (k : ℕ) → k + j ≡ length items
    → ChildAt k (add_children ts items) (child_in ts id j)
unfolding child_in add_children
child_in-ChildAt nil items id j n k e = tt
child_in-ChildAt (cons null ts) items id j n k e = elim n [ ]
child_in-ChildAt (cons (span g vs) ts) items id j n k e =
    ite_ind (ChildAt k (add_children ts (items ++ child_item (length items) g vs ∷ [])))
      (str_dec g.span_id id)
      (λ _.
        add_children-kept (child_item (k + j) g vs) ts _
          (In-append_right _ items (here _ (ap (λ m. child_item m g vs) e))))
      (λ _.
        child_in-ChildAt ts _ id (suc j) n k
          (omega (arith, e, length-append items (child_item (length items) g vs ∷ []))))

module _ (t : Templates) (f : SpanFields) (ts : Spans) (depth : ℕ) (now : Time)
    (stale : Map Time) where
  -- The whole timeline of the span, or one of its entries.
  abbrev pub OnTimeline : Option Rendered → Type 0
  OnTimeline o =
      (o ≡ some (t.span_timeline_patch (span f ts) depth now stale))
      ⊎ ((item : TimelineItem) × In item (timeline_items (span f ts))
          × (o ≡ some (t.timeline_append_patch (span f ts) item depth now stale)))

  append_child-OnTimeline :
      (c : SpanState × ℕ)
      → ChildAt (length f.events) (entries f ts) c
      → OnTimeline (some (append_child t f ts c depth now stale))
  unfolding append_child timeline_items
  append_child-OnTimeline (null, i) h = inl refl
  append_child-OnTimeline (span g us, i) h =
      inr (child_item (length f.events + i) g us, sort_stable-In _ _ h, refl)

  append_event-OnTimeline :
      (c : Option (ℕ × EventState))
      → ((i : ℕ) (e : EventState) → c ≡ some (i, e) → In (event_item i e) (entries f ts))
      → OnTimeline (some (append_event t f ts c depth now stale))
  unfolding append_event timeline_items
  append_event-OnTimeline none h = inl refl
  append_event-OnTimeline (some (i, e)) h =
      inr (event_item i e, sort_stable-In _ _ (h i e refl), refl)

  -- For a span with no nil event and no nil child, the patch of a start below it and that of an event
  -- draw its whole timeline, or append exactly one entry of it, with the time, the content and the
  -- index that it has in the timeline.
  pub patches-OnTimeline :
      (id : String)
      → NoNil f.events
      → NoNull ts
      → OnTimeline (patch_under t (span f ts, depth) id now stale)
        × OnTimeline (patch_event t (span f ts, depth) now stale)
  unfolding patch_under patch_event entries child_span_by_id
  patches-OnTimeline id n m = (
    if_ind (λ x. OnTimeline (some x)) (leb (length (timeline_items (span f ts))) 1) (λ _. inl refl)
        (λ _. append_child-OnTimeline (child_in ts id 0) (
          child_in-ChildAt ts (add_events f.events []) id 0 m (length f.events)
            (omega (arith, length-add_events f.events [] n)))),
    if_ind (λ x. OnTimeline (some x)) (leb (length (timeline_items (span f ts))) 1) (λ _. inl refl)
        (λ _. append_event-OnTimeline (last_event f.events 0) (λ i e h.
          add_children-kept (event_item i e) ts (add_events f.events [])
            (last_event-In f.events [] i e n h))),
  )
