-- ===== src/State/Tree/Nodes.antt =====
-- What the writes to a tree do to the list of its objects.
use sap.Base.{
  ℕ, zero, suc, ◌≡◌, refl, sym, ap, ◌∙◌, ◌⊎◌, inl, inr, some, List, [], ◌∷◌, ◌++◌, map, ite, if_pos,
  if_neg, ℕ_discrete,
}
use mathlib.Core.Path.{ap₂, subst}
use mathlib.Core.List.{append_assoc, map-append}
use mathlib.Core.Option.{some-injective}
use sap.Base.Text.{Option-cases}
use sap.Base.Lists.{
  In, here, there, Distinct, Split, done, right, Split-all_right, Split-append, Split-swap,
  Split-snoc, Split-parts, Split-disjoint, Split-Distinct, In-map, In-map_inv, In-eq, In-append,
  In-append_left, In-append_right, In-unique,
}
use sap.State.Tree.{
  SpanFields, SpanState, null, span, Spans, nil, cons, append, take_spans, drop_spans, fields,
  fields_all, first_some, read, read_in, write, write_in, add_child, add_child_in,
}

abbrev pub addrs : List SpanFields → List ℕ
addrs = map (λ f. f.addr)

pub fields-append : (ts us : Spans) → fields_all (append ts us) ≡ fields_all ts ++ fields_all us
unfolding fields append
fields-append nil us = refl
fields-append (cons t ts) us = rw (fields-append ts us, append_assoc)

pub fields-snoc :
    (ts : Spans) (n : SpanFields)
    → Split (fields_all (append ts (cons (span n nil) nil))) (n ∷ []) (fields_all ts)
unfolding fields
fields-snoc ts n = rw (fields-append ts (cons (span n nil) nil)) (Split-snoc (fields_all ts) n)

-- The objects of a slice are those before a cut and those behind it.
pub fields-cut :
    (n : ℕ) (ts : Spans)
    → Split (fields_all ts) (fields_all (drop_spans n ts)) (fields_all (take_spans n ts))
unfolding fields take_spans drop_spans
fields-cut zero ts = Split-swap (Split-all_right _)
fields-cut (suc n) nil = done
fields-cut (suc n) (cons t ts) = Split-append (Split-all_right (fields t)) (fields-cut n ts)

-- The effect of a write at an address on one object.
abbrev pub written : ℕ → (SpanFields → SpanFields) → SpanFields → SpanFields
written a g f = ite (ℕ_discrete f.addr a) (g f) f

mutual
  unfolding fields write

  fields-write :
      (a : ℕ) (g : SpanFields → SpanFields) (t : SpanState)
      → fields (write a g t) ≡ map (written a g) (fields t)
  fields-write a g null = refl
  fields-write a g (span f ts) = ap (◌∷◌ (written a g f)) (fields-write_in a g ts)

  fields-write_in :
      (a : ℕ) (g : SpanFields → SpanFields) (ts : Spans)
      → fields_all (write_in a g ts) ≡ map (written a g) (fields_all ts)
  fields-write_in a g nil = refl
  fields-write_in a g (cons t ts) = rw (fields-write a g t, fields-write_in a g ts, map-append) refl

pub fields-write_all :
    (a : ℕ) (g : SpanFields → SpanFields) (ts : Spans)
    → fields_all (write_in a g ts) ≡ map (written a g) (fields_all ts)
fields-write_all a g ts = fields-write_in a g ts

In-addrs_left :
    (a : ℕ) (t : SpanState) (ts : Spans)
    → In a (addrs (fields t))
    → In a (addrs (fields_all (cons t ts)))
unfolding fields
In-addrs_left a t ts i =
    let (f, j, e) = In-map_inv (λ f. f.addr) a (fields t) i in
    In-eq (sym e) (In-map (λ f. f.addr) f (In-append_left f (fields_all ts) j))

In-addrs_right :
    (a : ℕ) (t : SpanState) (ts : Spans)
    → In a (addrs (fields_all ts))
    → In a (addrs (fields_all (cons t ts)))
unfolding fields
In-addrs_right a t ts i =
    let (f, j, e) = In-map_inv (λ f. f.addr) a (fields_all ts) i in
    In-eq (sym e) (In-map (λ f. f.addr) f (In-append_right f (fields t) j))

In-addrs :
    (a : ℕ) (t : SpanState) (ts : Spans)
    → In a (addrs (fields_all (cons t ts)))
    → In a (addrs (fields t)) ⊎ In a (addrs (fields_all ts))
unfolding fields
In-addrs a t ts i =
    let (f, j, e) = In-map_inv (λ f. f.addr) a (fields t ++ fields_all ts) i in
    elim (In-append f (fields t) j) [
      | inl l ↦ inl (In-eq (sym e) (In-map (λ f. f.addr) f l))
      | inr r ↦ inr (In-eq (sym e) (In-map (λ f. f.addr) f r))
    ]

Distinct-left :
    (t : SpanState) (ts : Spans)
    → Distinct (addrs (fields_all (cons t ts)))
    → Distinct (addrs (fields t))
unfolding fields
Distinct-left t ts d = Split-Distinct (λ f. f.addr) (Split-parts (fields t) (fields_all ts)) d

Distinct-right :
    (t : SpanState) (ts : Spans)
    → Distinct (addrs (fields_all (cons t ts)))
    → Distinct (addrs (fields_all ts))
unfolding fields
Distinct-right t ts d =
    Split-Distinct (λ f. f.addr) (Split-swap (Split-parts (fields t) (fields_all ts))) d

addrs-disjoint :
    (a : ℕ) (t : SpanState) (ts : Spans)
    → Distinct (addrs (fields_all (cons t ts)))
    → In a (addrs (fields t))
    → In a (addrs (fields_all ts))
    → ⊥
unfolding fields
addrs-disjoint a t ts d i j =
    let (f, k, e) = In-map_inv (λ f. f.addr) a (fields t) i in
    let (g, l, q) = In-map_inv (λ f. f.addr) a (fields_all ts) j in
    Split-disjoint (λ f. f.addr) f g (Split-parts (fields t) (fields_all ts)) d k l (sym e ∙ q)

In-tail : {a b : ℕ} {xs : List ℕ} → ¬ (b ≡ a) → In a (b ∷ xs) → In a xs
In-tail h (here _ e) = absurd (h (sym e))
In-tail h (there _ i) = i

mutual
  unfolding fields add_child

  add_child-absent :
      (a : ℕ) (u : SpanState) (t : SpanState) → ¬ In a (addrs (fields t)) → add_child a u t ≡ t
  add_child-absent a u null h = refl
  add_child-absent a u (span f ts) h = ap (span f) (
      if_neg (ℕ_discrete f.addr a) (λ e. h (here f.addr (sym e))) _ _
      ∙ add_child_in-absent a u ts (λ i. h (there f.addr i)))

  add_child_in-absent :
      (a : ℕ) (u : SpanState) (ts : Spans)
      → ¬ In a (addrs (fields_all ts))
      → add_child_in a u ts ≡ ts
  add_child_in-absent a u nil h = refl
  add_child_in-absent a u (cons t ts) h =
      ap₂ cons (add_child-absent a u t (λ i. h (In-addrs_left a t ts i)))
        (add_child_in-absent a u ts (λ i. h (In-addrs_right a t ts i)))

mutual
  unfolding fields add_child

  add_child-Split :
      (a : ℕ) (n : SpanFields) (t : SpanState)
      → In a (addrs (fields t))
      → Distinct (addrs (fields t))
      → Split (fields (add_child a (span n nil) t)) (n ∷ []) (fields t)
  add_child-Split a n null i d = elim i [ ]
  add_child-Split a n (span f ts) i d = elim (ℕ_discrete f.addr a) [
    | yes e ↦
        subst (λ us. Split (f ∷ fields_all us) (n ∷ []) (f ∷ fields_all ts))
          (sym (
            if_pos (ℕ_discrete f.addr a) e _ _
            ∙ ap (λ us. append us (cons (span n nil) nil))
                (add_child_in-absent a (span n nil) ts (λ j. d.0 (In-eq (sym e) j)))))
          (right f (fields-snoc ts n))
    | no q ↦
        subst (λ us. Split (f ∷ fields_all us) (n ∷ []) (f ∷ fields_all ts))
          (sym (if_neg (ℕ_discrete f.addr a) q _ _))
          (right f (add_child_in-Split a n ts (In-tail q i) d.1))
  ]

  add_child_in-Split :
      (a : ℕ) (n : SpanFields) (ts : Spans)
      → In a (addrs (fields_all ts))
      → Distinct (addrs (fields_all ts))
      → Split (fields_all (add_child_in a (span n nil) ts)) (n ∷ []) (fields_all ts)
  add_child_in-Split a n nil i d = elim i [ ]
  add_child_in-Split a n (cons t ts) i d = elim (In-addrs a t ts i) [
    | inl j ↦ rw (add_child_in-absent a (span n nil) ts (λ k. addrs-disjoint a t ts d j k)) (
        Split-append (add_child-Split a n t j (Distinct-left t ts d))
          (Split-all_right (fields_all ts)))
    | inr k ↦ rw (add_child-absent a (span n nil) t (λ j. addrs-disjoint a t ts d j k)) (
        Split-append (Split-all_right (fields t))
          (add_child_in-Split a n ts k (Distinct-right t ts d)))
  ]

-- A new span under a parent in the tree is one more object.
pub fields-add_child :
    (a : ℕ) (n : SpanFields) (ts : Spans)
    → In a (addrs (fields_all ts))
    → Distinct (addrs (fields_all ts))
    → Split (fields_all (add_child_in a (span n nil) ts)) (n ∷ []) (fields_all ts)
fields-add_child a n ts i d = add_child_in-Split a n ts i d

-- A read through an address that no object has gives nothing.
mutual
  unfolding fields read

  read-In :
      (a : ℕ) (t : SpanState) (f : SpanFields) → read a t ≡ some f → In f (fields t) × (f.addr ≡ a)
  read-In a null f e = absurd (cc e)
  read-In a (span g ts) f e = elim (ℕ_discrete g.addr a) [
    | yes q ↦
        let r : some g ≡ some f = sym (if_pos (ℕ_discrete g.addr a) q _ _) ∙ e in
        (here g (some-injective f g (sym r)), ap (λ h. h.addr) (some-injective f g (sym r)) ∙ q)
    | no q ↦
        let (i, at) = read_in-In a ts f (sym (if_neg (ℕ_discrete g.addr a) q _ _) ∙ e) in
        (there g i, at)
  ]

  pub read_in-In :
      (a : ℕ) (ts : Spans) (f : SpanFields)
      → read_in a ts ≡ some f
      → In f (fields_all ts) × (f.addr ≡ a)
  read_in-In a nil f e = absurd (cc e)
  read_in-In a (cons t ts) f e = elim (Option-cases (read a t)) [
    | inl miss ↦
        let (i, at) = read_in-In a ts f (rw (miss, read) at e) in
        (In-append_right f (fields t) i, at)
    | inr (g, hit) ↦
        let (i, at) = read-In a t f (hit ∙ (rw (hit, read) at e)) in
        (In-append_left f (fields_all ts) i, at)
  ]

mutual
  unfolding fields read

  read-total :
      (f : SpanFields) (t : SpanState)
      → In f (fields t)
      → (g : SpanFields) × (read f.addr t ≡ some g)
  read-total f null i = elim i [ ]
  read-total f (span h ts) (here _ e) =
      (h, if_pos (ℕ_discrete h.addr f.addr) (ap (λ k. k.addr) (sym e)) _ _)
  read-total f (span h ts) (there _ i) = elim (ℕ_discrete h.addr f.addr) [
    | yes q ↦ (h, if_pos (ℕ_discrete h.addr f.addr) q _ _)
    | no n ↦ let (g, e) = read_in-total f ts i in (g, if_neg (ℕ_discrete h.addr f.addr) n _ _ ∙ e)
  ]

  read_in-total :
      (f : SpanFields) (ts : Spans)
      → In f (fields_all ts)
      → (g : SpanFields) × (read_in f.addr ts ≡ some g)
  read_in-total f nil i = elim i [ ]
  read_in-total f (cons t ts) i = elim (In-append f (fields t) i) [
    | inl j ↦ let (g, e) = read-total f t j in (g, ap (λ o. first_some o (read_in f.addr ts)) e)
    | inr j ↦ elim (Option-cases (read f.addr t)) [
      | inl e ↦
          let (g, q) = read_in-total f ts j in (g, ap (λ o. first_some o (read_in f.addr ts)) e ∙ q)
      | inr (g, e) ↦ (g, ap (λ o. first_some o (read_in f.addr ts)) e)
    ]
  ]

-- A read through the address of an object gives that object.
pub read_in_self :
    (f : SpanFields) (ts : Spans)
    → In f (fields_all ts)
    → Distinct (addrs (fields_all ts))
    → read_in f.addr ts ≡ some f
read_in_self f ts i d =
    let (g, e) = read_in-total f ts i in
    let (j, q) = read_in-In f.addr ts g e in
    e ∙ ap some (In-unique (λ h. h.addr) g f (fields_all ts) d j i q)
