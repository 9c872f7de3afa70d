-- ===== src/State/Lookup.antt =====
-- `FindSpan` against `byID`: what it finds, where that stands, and when it finds nothing.
use sap.Base.{
  ℕ, ◌+◌, ◌≡◌, refl, sym, ap, ◌∙◌, subst, inl, inr, String, none, some, List, ◌∷◌, str_dec,
}
use mathlib.Core.List.{map-append}
use sap.Base.Text.{Option-cases, ite_ind}
use sap.Base.Lists.{
  In, here, there, In-append, In-append_left, In-append_right, In-map, In-map_inv, In-eq,
}
use sap.State.Tree.{
  SpanFields, SpanState, null, span, Spans, nil, cons, fields, fields_all, find_span, find_children,
  first_found,
}
use sap.State.Index.{ids}
use sap.State.Store.{Store, find}
use sap.State.Invariant.{Inv}

-- The pointer `u` stands in the tree, `d` levels below the place `e` levels below the root.
mutual
  pub data Stands (u : SpanState) (d : ℕ) : ℕ → SpanState → Type 0 where
    at_top :
        {f : SpanFields} {ts : Spans} {e : ℕ} → u ≡ span f ts → d ≡ e → Stands u d e (span f ts)
    below :
        (f : SpanFields) {ts : Spans} {e : ℕ} → StandsIn u d (e + 1) ts → Stands u d e (span f ts)

  pub data StandsIn (u : SpanState) (d : ℕ) : ℕ → Spans → Type 0 where
    first : {t : SpanState} (ts : Spans) {e : ℕ} → Stands u d e t → StandsIn u d e (cons t ts)
    later : (t : SpanState) {ts : Spans} {e : ℕ} → StandsIn u d e ts → StandsIn u d e (cons t ts)

-- The result of a search: a span with the ID and its place, or nothing and no such span.
abbrev pub Found : String → ℕ → Spans → SpanState × ℕ → Type 0
Found id e ts (null, d) = (d ≡ 0) × (¬ In id (ids (fields_all ts)))
Found id e ts (span f us, d) = (f.span_id ≡ id) × StandsIn (span f us) d e ts

abbrev FoundAt : String → ℕ → SpanState → SpanState × ℕ → Type 0
FoundAt id e t (null, d) = (d ≡ 0) × (¬ In id (ids (fields t)))
FoundAt id e t (span f us, d) = (f.span_id ≡ id) × Stands (span f us) d e t

In-ids-tail : (id x : String) (xs : List String) → ¬ (x ≡ id) → In id (x ∷ xs) → In id xs
In-ids-tail id x xs n (here _ e) = absurd (n (sym e))
In-ids-tail id x xs n (there _ i) = i

Found-below :
    (id : String) (e : ℕ) (f : SpanFields) (ts : Spans) (r : SpanState × ℕ)
    → ¬ (f.span_id ≡ id)
    → Found id (e + 1) ts r
    → FoundAt id e (span f ts) r
unfolding fields
Found-below id e f ts (null, d) n (z, h) = (z, λ i. h (In-ids-tail id f.span_id _ n i))
Found-below id e f ts (span g us, d) n (q, s) = (q, below f s)

Found-cons :
    (id : String) (e : ℕ) (t : SpanState) (ts : Spans) (r r' : SpanState × ℕ)
    → FoundAt id e t r
    → Found id e ts r'
    → Found id e (cons t ts) (first_found r r')
unfolding fields first_found
Found-cons id e t ts (span g us, d) r' (q, s) h = (q, first ts s)
Found-cons id e t ts (null, d) (span g us, d') h (q, s) = (q, later t s)
Found-cons id e t ts (null, d) (null, d') (_, h) (z, h') = (
  z,
  λ i.
      elim (In-append id (ids (fields t))
        (subst (In id) (map-append _ (fields t) (fields_all ts)) i)) [ inl j ↦ h j | inr j ↦ h' j ],
)

mutual
  unfolding find_span fields

  find_span-Found : (id : String) (e : ℕ) (t : SpanState) → FoundAt id e t (find_span t id e)
  find_span-Found id e null = (refl, λ i. elim i [ ])
  find_span-Found id e (span f ts) =
      ite_ind (FoundAt id e (span f ts)) (str_dec f.span_id id) (λ q. (q, at_top refl refl))
        (λ n. Found-below id e f ts _ n (find_children-Found id (e + 1) ts))

  find_children-Found : (id : String) (e : ℕ) (ts : Spans) → Found id e ts (find_children ts id e)
  find_children-Found id e nil = (refl, λ i. elim i [ ])
  find_children-Found id e (cons t ts) =
      Found-cons id e t ts (find_span t id e) (find_children ts id e) (find_span-Found id e t)
        (find_children-Found id e ts)

fields_or : SpanFields → SpanState → SpanFields
fields_or f null = f
fields_or f (span g us) = g

fields_head :
    (f : SpanFields) (us : Spans) (g : SpanFields) (ts : Spans) → span f us ≡ span g ts → f ≡ g
unfolding fields_or
fields_head f us g ts e = ap (fields_or f) e

mutual
  unfolding fields

  Stands-In :
      {u : SpanState} {d e : ℕ} {t : SpanState}
      → Stands u d e t
      → (f : SpanFields) (us : Spans) → u ≡ span f us
      → In f (fields t)
  Stands-In (at_top {f = g} {ts} q _) f us r = here g (fields_head f us g ts (sym r ∙ q))
  Stands-In (below g s) f us r = there g (StandsIn-In s f us r)

  StandsIn-In :
      {u : SpanState} {d e : ℕ} {ts : Spans}
      → StandsIn u d e ts
      → (f : SpanFields) (us : Spans) → u ≡ span f us
      → In f (fields_all ts)
  StandsIn-In (first ts s) f us r = In-append_left f (fields_all ts) (Stands-In s f us r)
  StandsIn-In (later t s) f us r = In-append_right f (fields t) (StandsIn-In s f us r)

-- What `FindSpan` promises of its result.
abbrev pub FindSpec : String → Store → SpanState × ℕ → Type 0
FindSpec id s (null, d) = (s.by_id id ≡ none) × (d ≡ 0)
FindSpec id s (span f us, d) =
    (f.span_id ≡ id) × (s.by_id id ≡ some f.addr) × StandsIn (span f us) d 0 s.roots

untracked :
    {s : Store} (id : String) → Inv s → ¬ In id (ids (fields_all s.roots)) → s.by_id id ≡ none
untracked {s} id v h = elim (Option-cases (s.by_id id)) [
  | inl e ↦ e
  | inr (a, e) ↦
      let (f, i, q, _) = v.indexed.sound id a e in
      absurd (h (In-eq q (In-map (λ g. g.span_id) f i)))
]

Found-FindSpec :
    {s : Store} (id : String) (r : SpanState × ℕ) → Inv s → Found id 0 s.roots r → FindSpec id s r
Found-FindSpec id (null, d) v (z, h) = (untracked id v h, z)
Found-FindSpec {s} id (span f us, d) v (q, st) =
    (q, ap s.by_id (sym q) ∙ v.indexed.complete f (StandsIn-In st f us refl), st)

-- In a well-formed store `FindSpan` agrees with `byID`: for a tracked ID it returns the very object
-- that `byID` points to, with its true depth below its root, and for any other ID, the empty one
-- included, it returns nil and depth 0.
pub find-FindSpec : {s : Store} (id : String) → Inv s → FindSpec id s (find s id)
unfolding find find_children
find-FindSpec {s} id v =
    ite_ind (FindSpec id s) (str_dec id "") (λ e. (no_empty e, refl))
      (λ _. Found-FindSpec id (find_children s.roots id 0) v (find_children-Found id 0 s.roots))
  where
    no_empty : id ≡ "" → s.by_id id ≡ none
    no_empty e = untracked id v λ i.
        let (f, j, q) = In-map_inv (λ g. g.span_id) id (fields_all s.roots) i in
        v.indexed.named f j (sym q ∙ e)
