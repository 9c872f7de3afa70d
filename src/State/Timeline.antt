-- ===== src/State/Timeline.antt =====
-- state/timeline.go. `slices.SortStableFunc` of the standard library is a stable sort: here an
-- insertion sort that puts an item before the later ones that do not compare as less.
pub mod Order
use sap.Base.{ℕ, suc, ◌+◌, Option, none, some, List, [], ◌∷◌, ◌++◌, Bool, true, false}
use Prim.Native.Nat.{compare, Ordering}
use sap.Base.Int.{ℤ, pos, negsuc, pos_part, neg_part, ◌==◌, if◌then◌else◌}
use sap.Base.Lists.{length}
use sap.Message.Proto.{is_zero, Time}
use sap.State.Tree.{EventState, SpanFields, SpanState, null, span, Spans, nil, cons}

pub record TimelineItem : Type 0 where
  pub at : Time
  pub index : ℕ
  pub event : Option EventState
  pub child : SpanState

-- `Time.IsZero` and `Time.Compare`.
abbrev pub compare_time : Time → Time → Ordering
compare_time a b = compare (pos_part a + neg_part b) (pos_part b + neg_part a)

unfoldable pub add_events : List (Option EventState) → List TimelineItem → List TimelineItem
add_events [] items = items
add_events (none ∷ es) items = add_events es items
add_events (some e ∷ es) items =
    add_events es
      (items ++ record { at = e.at; index = length items; event = some e; child = null } ∷ [])

unfoldable pub add_children : Spans → List TimelineItem → List TimelineItem
add_children nil items = items
add_children (cons null ts) items = add_children ts items
add_children (cons (span f us) ts) items = add_children ts (
    items
    ++ record { at = f.started_at; index = length items; event = none; child = span f us } ∷ [])

-- The comparison function that the source passes to the sort.
unfoldable pub compare_items : TimelineItem → TimelineItem → Ordering
compare_items left right =
    if is_zero left.at
    then (if is_zero right.at then compare left.index right.index else Ordering.gt)
    else (if is_zero right.at then Ordering.lt else compare_time left.at right.at)

unfoldable pub is_less : Ordering → Bool
is_less Ordering.lt = true
is_less Ordering.eq = false
is_less Ordering.gt = false

-- Where an item goes among those that came after it.
unfoldable pub put_item : TimelineItem → List TimelineItem → List TimelineItem
unfolding is_less compare_items
put_item x [] = x ∷ []
put_item x (y ∷ ys) = if is_less (compare_items y x) then y ∷ put_item x ys else x ∷ y ∷ ys

unfoldable pub sort_stable : List TimelineItem → List TimelineItem
unfolding put_item
sort_stable [] = []
sort_stable (x ∷ xs) = put_item x (sort_stable xs)

-- The entries before they are sorted: the events that are not nil, then the children.
unfoldable pub entries : SpanFields → Spans → List TimelineItem
unfolding add_events add_children
entries f ts = add_children ts (add_events f.events [])

unfoldable pub timeline_items : SpanState → List TimelineItem
unfolding entries sort_stable
timeline_items null = []
timeline_items (span f ts) = sort_stable (entries f ts)
