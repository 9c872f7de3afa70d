-- ===== src/State/Open.antt =====
-- `HasOpenSpans` and `ClearOpenSpans`: which spans are open, and which survive.
use sap.Base.{
  ◌≤◌, ◌≡◌, refl, sym, ap, ◌∙◌, subst, ◌↔◌, ◌⊎◌, inl, inr, List, ◌∷◌, Bool, true, false, arith,
}
use sap.Base.Int.{if◌then◌else◌}
use sap.Base.Text.{Bool-cases}
use sap.Base.Lists.{In, here, there, In-append, In-append_left, In-append_right}
use sap.State.Tree.{
  SpanFields, SpanState, null, span, Spans, nil, cons, count, fields, fields_all, has_open_span,
  has_open_child,
}
use sap.State.Store.{Store, has_open_spans, clear_open_spans, clear_open_roots, keep_if}
use sap.State.Store.Delete.{is_closed, pruned, pruned_all, clear_open_roots-drop_ids}

-- Some object of the list is open.
abbrev pub HasOpen : List SpanFields → Type 0
HasOpen fs = (f : SpanFields) × In f fs × (f.ended ≡ false)

mutual
  unfolding has_open_span fields

  has_open_span-HasOpen : (t : SpanState) → has_open_span t ≡ true → HasOpen (fields t)
  has_open_span-HasOpen null e = absurd (cc e)
  has_open_span-HasOpen (span f ts) e = elim (Bool-cases f.ended) [
    | inl c ↦ let (g, i, o) = has_open_child-HasOpen ts (ground arith) in (g, there f i, o)
    | inr o ↦ (f, here f refl, o)
  ]

  has_open_child-HasOpen : (ts : Spans) → has_open_child ts ≡ true → HasOpen (fields_all ts)
  has_open_child-HasOpen nil e = absurd (cc e)
  has_open_child-HasOpen (cons t ts) e = elim (Bool-cases (has_open_span t)) [
    | inl h ↦
        let (g, i, o) = has_open_span-HasOpen t h in (g, In-append_left g (fields_all ts) i, o)
    | inr h ↦
        let (g, i, o) = has_open_child-HasOpen ts (ground arith) in
        (g, In-append_right g (fields t) i, o)
  ]

mutual
  unfolding has_open_span fields

  HasOpen-has_open_span :
      (t : SpanState) (f : SpanFields) → In f (fields t) → f.ended ≡ false → has_open_span t ≡ true
  HasOpen-has_open_span null f i o = elim i [ ]
  HasOpen-has_open_span (span g ts) f (here _ e) o = ground arith
  HasOpen-has_open_span (span g ts) f (there _ i) o =
      ground (arith, HasOpen-has_open_child ts f i o)

  HasOpen-has_open_child :
      (ts : Spans) (f : SpanFields)
      → In f (fields_all ts)
      → f.ended ≡ false
      → has_open_child ts ≡ true
  HasOpen-has_open_child nil f i o = elim i [ ]
  HasOpen-has_open_child (cons t ts) f i o = elim (In-append f (fields t) i) [
    | inl j ↦ ground (arith, HasOpen-has_open_span t f j o)
    | inr j ↦ ground (arith, HasOpen-has_open_child ts f j o)
  ]

-- `HasOpenSpans` is true exactly when some span of the tree, at any depth and below ended spans
-- too, has not ended.
pub has_open_spans_iff : (s : Store) → (has_open_spans s ≡ true) ↔ HasOpen (fields_all s.roots)
unfolding has_open_spans
has_open_spans_iff s =
    (has_open_child-HasOpen s.roots, λ (f, i, o). HasOpen-has_open_child s.roots f i o)

-- The object `f` stands in the tree, and it and all spans above it have ended.
mutual
  pub data ClosedPath (f : SpanFields) : SpanState → Type 0 where
    itself : {g : SpanFields} (ts : Spans) → g.ended ≡ true → f ≡ g → ClosedPath f (span g ts)
    under :
        (g : SpanFields) {ts : Spans}
        → g.ended ≡ true
        → ClosedPathIn f ts
        → ClosedPath f (span g ts)

  pub data ClosedPathIn (f : SpanFields) : Spans → Type 0 where
    in_first : {t : SpanState} (ts : Spans) → ClosedPath f t → ClosedPathIn f (cons t ts)
    in_rest : (t : SpanState) {ts : Spans} → ClosedPathIn f ts → ClosedPathIn f (cons t ts)

keep_if-In :
    (f : SpanFields) (t : SpanState) (b : Bool) (ts : Spans)
    → In f (fields_all (keep_if t b ts))
    → ((b ≡ true) × In f (fields t)) ⊎ In f (fields_all ts)
unfolding keep_if fields
keep_if-In f t true ts i = elim (In-append f (fields t) i) [ inl j ↦ inl (refl, j) | inr j ↦ inr j ]
keep_if-In f t false ts i = inr i

In-keep_if :
    (f : SpanFields) (t : SpanState) (b : Bool) (ts : Spans)
    → ((b ≡ true) × In f (fields t)) ⊎ In f (fields_all ts)
    → In f (fields_all (keep_if t b ts))
unfolding keep_if fields
In-keep_if f t true ts (inl (_, i)) = In-append_left f (fields_all ts) i
In-keep_if f t true ts (inr i) = In-append_right f (fields t) i
In-keep_if f t false ts (inl (e, _)) = absurd (cc e)
In-keep_if f t false ts (inr i) = i

closed_case :
    (f g : SpanFields) (ts : Spans)
    → g.ended ≡ true
    → (In f (fields_all (pruned_all ts)) → ClosedPathIn f ts)
    → In f (g ∷ fields_all (pruned_all ts))
    → ClosedPath f (span g ts)
closed_case f g ts c h (here _ e) = itself ts c e
closed_case f g ts c h (there _ i) = under g c (h i)

mutual
  unfolding pruned fields

  pruned-ClosedPath :
      (f : SpanFields) (t : SpanState)
      → is_closed t ≡ true
      → In f (fields (pruned t))
      → ClosedPath f t
  pruned-ClosedPath f null c i = absurd (cc c)
  pruned-ClosedPath f (span g ts) c i =
      closed_case f g ts c (pruned_all-ClosedPath f ts)
        (subst (λ b. In f (fields (if b then span g (pruned_all ts) else span g ts))) c i)

  pruned_all-ClosedPath :
      (f : SpanFields) (ts : Spans) → In f (fields_all (pruned_all ts)) → ClosedPathIn f ts
  pruned_all-ClosedPath f nil i = elim i [ ]
  pruned_all-ClosedPath f (cons t ts) i =
      elim (keep_if-In f (pruned t) (is_closed t) (pruned_all ts) i) [
        | inl (c, j) ↦ in_first ts (pruned-ClosedPath f t c j)
        | inr j ↦ in_rest t (pruned_all-ClosedPath f ts j)
      ]

In-pruned :
    (f g : SpanFields) (ts : Spans)
    → g.ended ≡ true
    → In f (g ∷ fields_all (pruned_all ts))
    → In f (fields (pruned (span g ts)))
unfolding pruned fields
In-pruned f g ts c i =
    subst (λ b. In f (fields (if b then span g (pruned_all ts) else span g ts))) (sym c) i

mutual
  unfolding pruned fields

  ClosedPath-pruned :
      {f : SpanFields} {t : SpanState}
      → ClosedPath f t
      → (is_closed t ≡ true) × In f (fields (pruned t))
  ClosedPath-pruned {f} (itself {g} ts c e) = (c, In-pruned f g ts c (here g e))
  ClosedPath-pruned {f} (under g {ts} c q) =
      (c, In-pruned f g ts c (there g (ClosedPathIn-pruned q)))

  ClosedPathIn-pruned :
      {f : SpanFields} {ts : Spans} → ClosedPathIn f ts → In f (fields_all (pruned_all ts))
  ClosedPathIn-pruned {f} (in_first {t} ts q) =
      In-keep_if f (pruned t) (is_closed t) (pruned_all ts) (inl (ClosedPath-pruned q))
  ClosedPathIn-pruned {f} (in_rest t {ts} q) =
      In-keep_if f (pruned t) (is_closed t) (pruned_all ts) (inr (ClosedPathIn-pruned q))

roots-clear_open :
    (ts : Spans) (s : Store) → s.roots ≡ ts → (clear_open_roots ts s).roots ≡ pruned_all ts
unfolding clear_open_roots pruned
roots-clear_open nil s e = e
roots-clear_open (cons t ts) s e = ap (λ r. r.roots) (clear_open_roots-drop_ids t ts s)

-- `ClearOpenSpans` keeps exactly the spans that have ended and stand below ended spans only: an
-- open span leaves with everything below it. The spans that stay keep all their fields.
pub clear_open_spans_iff :
    (s : Store) (f : SpanFields)
    → In f (fields_all (clear_open_spans s).roots) ↔ ClosedPathIn f s.roots
unfolding clear_open_spans
clear_open_spans_iff s f = (
  λ i.
      pruned_all-ClosedPath f s.roots
        (subst (λ ts. In f (fields_all ts)) (roots-clear_open s.roots s refl) i),
  λ q.
      subst (λ ts. In f (fields_all ts)) (sym (roots-clear_open s.roots s refl))
        (ClosedPathIn-pruned q),
)

mutual
  ClosedPath-ended : {f : SpanFields} {t : SpanState} → ClosedPath f t → f.ended ≡ true
  ClosedPath-ended (itself ts c e) = ap (λ g. g.ended) e ∙ c
  ClosedPath-ended (under g c q) = ClosedPathIn-ended q

  ClosedPathIn-ended : {f : SpanFields} {ts : Spans} → ClosedPathIn f ts → f.ended ≡ true
  ClosedPathIn-ended (in_first ts q) = ClosedPath-ended q
  ClosedPathIn-ended (in_rest t q) = ClosedPathIn-ended q

-- After `ClearOpenSpans` no span is open.
has_open_spans-clear_open_spans : (s : Store) → has_open_spans (clear_open_spans s) ≡ false
has_open_spans-clear_open_spans s = elim (Bool-cases (has_open_spans (clear_open_spans s))) [
  | inr e ↦ e
  | inl e ↦
      let (f, i, o) = (has_open_spans_iff (clear_open_spans s)).0 e in
      let c : f.ended ≡ true = ClosedPathIn-ended ((clear_open_spans_iff s f).0 i) in
      absurd (cc (sym c ∙ o))
]

count-pruned_all : (ts : Spans) → count (pruned_all ts) ≤ count ts
unfolding count pruned_all keep_if
count-pruned_all nil = omega arith
count-pruned_all (cons t ts) = ground (arith, count-pruned_all ts)

-- The call adds no root.
pub count-clear_open_spans : (s : Store) → count (clear_open_spans s).roots ≤ count s.roots
unfolding clear_open_spans
count-clear_open_spans s =
    subst (λ ts. count ts ≤ count s.roots) (sym (roots-clear_open s.roots s refl))
      (count-pruned_all s.roots)
