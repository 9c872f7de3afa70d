-- ===== src/State/Timeline/Order.antt =====
-- The order of a timeline and its entries.
use mathlib.Core.List.{Perm, map, append-nil}
use mathlib.Core.List.Perm
use sap.Base.{
  ℕ, suc, ◌+◌, ◌<◌, ◌≡◌, refl, sym, ap, ◌∙◌, subst, ◌⊎◌, Option, none, some, List, [], ◌∷◌, ◌++◌,
  Bool, true, false, arith,
}
use sap.Base.Int.{◌<ℤ◌}
use sap.Base.Text.{if_ind}
use sap.Base.Lists.{All, length}
use sap.Message.Proto.{is_zero, Time}
use sap.State.Tree.{EventState, SpanFields, SpanState, null, span, Spans, nil, cons}
use sap.State.Timeline.{
  TimelineItem, add_events, add_children, compare_items, is_less, put_item, sort_stable, entries,
  timeline_items,
}

-- `x` stands before `y`: an entry with a time before one without, then by time, then by index.
abbrev pub BeforeBy : Bool → Bool → TimelineItem → TimelineItem → Type 0
BeforeBy false true x y = Unit
BeforeBy true false x y = ⊥
BeforeBy true true x y = x.index < y.index
BeforeBy false false x y = (x.at <ℤ y.at) ⊎ ((x.at ≡ y.at) × (x.index < y.index))

abbrev pub Before : TimelineItem → TimelineItem → Type 0
Before x y = BeforeBy (is_zero x.at) (is_zero y.at) x y

-- Each entry stands before all that follow it.
abbrev pub InOrder : List TimelineItem → Type 0
InOrder [] = Unit
InOrder (x ∷ xs) = All (Before x) xs × InOrder xs

Before-trans : (x y z : TimelineItem) → Before x y → Before y z → Before x z
Before-trans x y z p q = ground arith

less-Before :
    (x y : TimelineItem) → x.index < y.index → is_less (compare_items y x) ≡ true → Before y x
unfolding is_less compare_items
less-Before x y h e = ground arith

not_less-Before :
    (x y : TimelineItem) → x.index < y.index → is_less (compare_items y x) ≡ false → Before x y
unfolding is_less compare_items
not_less-Before x y h e = ground arith

module _ {ℓ} (P : TimelineItem → Type ℓ) where
  All-put_item :
      (x : TimelineItem) (ys : List TimelineItem) → P x → All P ys → All P (put_item x ys)
  unfolding put_item
  All-put_item x [] px ps = (px, tt)
  All-put_item x (y ∷ ys) px ps =
      if_ind (All P) (is_less (compare_items y x)) (λ _. (ps.0, All-put_item x ys px ps.1))
        (λ _. (px, ps))

  pub All-sort_stable : (xs : List TimelineItem) → All P xs → All P (sort_stable xs)
  unfolding sort_stable
  All-sort_stable [] ps = tt
  All-sort_stable (x ∷ xs) ps = All-put_item x (sort_stable xs) ps.0 (All-sort_stable xs ps.1)

All-Before :
    (x y : TimelineItem) (zs : List TimelineItem)
    → Before x y
    → All (Before y) zs
    → All (Before x) zs
All-Before x y [] b hs = tt
All-Before x y (z ∷ zs) b hs = (Before-trans x y z b hs.0, All-Before x y zs b hs.1)

-- An item that came before all others goes to its place among them.
put_item-InOrder :
    (x : TimelineItem) (ys : List TimelineItem)
    → All (λ y. x.index < y.index) ys
    → InOrder ys
    → InOrder (put_item x ys)
unfolding put_item
put_item-InOrder x [] h o = (tt, tt)
put_item-InOrder x (y ∷ ys) h o =
    if_ind InOrder (is_less (compare_items y x))
      (λ e.
        (All-put_item (Before y) x ys (less-Before x y h.0 e) o.0, put_item-InOrder x ys h.1 o.1))
      (λ e. let b = not_less-Before x y h.0 e in ((b, All-Before x y ys b o.0), o))

-- The entries are numbered one after the other.
abbrev Numbered : ℕ → List TimelineItem → Type 0
Numbered k [] = Unit
Numbered k (x ∷ xs) = (x.index ≡ k) × Numbered (suc k) xs

Numbered-above :
    (j k : ℕ) (xs : List TimelineItem) → j < k → Numbered k xs → All (λ y. j < y.index) xs
Numbered-above j k [] h n = tt
Numbered-above j k (x ∷ xs) h n =
    (omega (arith, n.0), Numbered-above j (suc k) xs (omega arith) n.1)

Numbered-snoc :
    (k : ℕ) (xs : List TimelineItem) (x : TimelineItem)
    → Numbered k xs
    → x.index ≡ k + length xs
    → Numbered k (xs ++ x ∷ [])
Numbered-snoc k [] x n e = (omega arith, tt)
Numbered-snoc k (y ∷ ys) x n e = (n.0, Numbered-snoc (suc k) ys x n.1 (omega arith))

sort_stable-InOrder : (k : ℕ) (xs : List TimelineItem) → Numbered k xs → InOrder (sort_stable xs)
unfolding sort_stable
sort_stable-InOrder k [] n = tt
sort_stable-InOrder k (x ∷ xs) n =
    put_item-InOrder x (sort_stable xs)
      (All-sort_stable (λ y. x.index < y.index) xs
        (Numbered-above x.index (suc k) xs (omega (arith, n.0)) n.1))
      (sort_stable-InOrder (suc k) xs n.1)

add_events-Numbered :
    (es : List (Option EventState)) (items : List TimelineItem)
    → Numbered 0 items
    → Numbered 0 (add_events es items)
unfolding add_events
add_events-Numbered [] items n = n
add_events-Numbered (none ∷ es) items n = add_events-Numbered es items n
add_events-Numbered (some e ∷ es) items n =
    add_events-Numbered es _ (Numbered-snoc 0 items _ n (omega arith))

add_children-Numbered :
    (ts : Spans) (items : List TimelineItem) → Numbered 0 items → Numbered 0 (add_children ts items)
unfolding add_children
add_children-Numbered nil items n = n
add_children-Numbered (cons null ts) items n = add_children-Numbered ts items n
add_children-Numbered (cons (span f us) ts) items n =
    add_children-Numbered ts _ (Numbered-snoc 0 items _ n (omega arith))

put_item-perm : (x : TimelineItem) (ys : List TimelineItem) → Perm (put_item x ys) (x ∷ ys)
unfolding put_item
put_item-perm x [] = Perm.refl _
put_item-perm x (y ∷ ys) =
    if_ind (λ zs. Perm zs (x ∷ y ∷ ys)) (is_less (compare_items y x))
      (λ _. Perm.trans (Perm.cons y (put_item-perm x ys)) (Perm.swap x y ys)) (λ _. Perm.refl _)

sort_stable-perm : (xs : List TimelineItem) → Perm (sort_stable xs) xs
unfolding sort_stable
sort_stable-perm [] = Perm.refl []
sort_stable-perm (x ∷ xs) =
    Perm.trans (put_item-perm x (sort_stable xs)) (Perm.cons x (sort_stable-perm xs))

-- What an entry shows: its time, and its event or its span.
abbrev pub content : TimelineItem → Time × Option EventState × SpanState
content x = (x.at, x.event, x.child)

-- The entries that a span ought to have: its events and its children, nil pointers apart.
pub event_contents : List (Option EventState) → List (Time × Option EventState × SpanState)
event_contents [] = []
event_contents (none ∷ es) = event_contents es
event_contents (some e ∷ es) = (e.at, some e, null) ∷ event_contents es

pub child_contents : Spans → List (Time × Option EventState × SpanState)
child_contents nil = []
child_contents (cons null ts) = child_contents ts
child_contents (cons (span f us) ts) = (f.started_at, none, span f us) ∷ child_contents ts

content-snoc :
    (xs : List TimelineItem) (x : TimelineItem) (cs : List (Time × Option EventState × SpanState))
    → map content (xs ++ x ∷ []) ++ cs ≡ map content xs ++ content x ∷ cs
content-snoc [] x cs = refl
content-snoc (y ∷ ys) x cs = ap (◌∷◌ (content y)) (content-snoc ys x cs)

content-add_events :
    (es : List (Option EventState)) (items : List TimelineItem)
    → map content (add_events es items) ≡ map content items ++ event_contents es
unfolding add_events event_contents
content-add_events [] items = sym (append-nil _)
content-add_events (none ∷ es) items = content-add_events es items
content-add_events (some e ∷ es) items =
    content-add_events es _ ∙ content-snoc items _ (event_contents es)

content-add_children :
    (ts : Spans) (items : List TimelineItem)
    → map content (add_children ts items) ≡ map content items ++ child_contents ts
unfolding add_children child_contents
content-add_children nil items = sym (append-nil _)
content-add_children (cons null ts) items = content-add_children ts items
content-add_children (cons (span f us) ts) items =
    content-add_children ts _ ∙ content-snoc items _ (child_contents ts)

-- Consecutive numbers from `k`.
abbrev pub number :
    ℕ
    → List (Time × Option EventState × SpanState)
    → List (ℕ × (Time × Option EventState × SpanState))
number k [] = []
number k (c ∷ cs) = (k, c) ∷ number (suc k) cs

-- An entry with the number that says when it was put in.
abbrev pub place : TimelineItem → ℕ × (Time × Option EventState × SpanState)
place x = (x.index, content x)

-- What a span has for its timeline: its events, then its children, nil pointers apart.
abbrev pub contents : SpanState → List (Time × Option EventState × SpanState)
contents null = []
contents (span f ts) = event_contents f.events ++ child_contents ts

place-number :
    (k : ℕ) (xs : List TimelineItem) → Numbered k xs → map place xs ≡ number k (map content xs)
place-number k [] n = refl
place-number k (x ∷ xs) n =
    ap (λ i. (i, content x) ∷ map place xs) n.0
    ∙ ap (λ ys. (k, content x) ∷ ys) (place-number (suc k) xs n.1)

entries-contents : (f : SpanFields) (ts : Spans) → map content (entries f ts) ≡ contents (span f ts)
unfolding entries
entries-contents f ts =
    content-add_children ts _ ∙ ap (λ es. es ++ child_contents ts) (content-add_events f.events [])

entries-Numbered : (f : SpanFields) (ts : Spans) → Numbered 0 (entries f ts)
unfolding entries
entries-Numbered f ts = add_children-Numbered ts _ (add_events-Numbered f.events [] tt)

-- The entries of a timeline are numbered: the events of the span that are not nil from 0 in their
-- order, and then its children that are not nil in theirs. The timeline has exactly these entries,
-- and is in strict order: entries with a time before those without one; those with a time by that
-- time; entries at the same time, and entries without one, by their numbers.
pub timeline_items-InOrder :
    (t : SpanState)
    → InOrder (timeline_items t) × Perm (map place (timeline_items t)) (number 0 (contents t))
unfolding timeline_items
timeline_items-InOrder null = (tt, Perm.refl [])
timeline_items-InOrder (span f ts) = (
  sort_stable-InOrder 0 _ (entries-Numbered f ts),
  subst (Perm (map place (sort_stable (entries f ts))))
      (place-number 0 _ (entries-Numbered f ts) ∙ ap (number 0) (entries-contents f ts))
      (Perm.map place (sort_stable-perm (entries f ts))),
)
