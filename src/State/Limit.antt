-- ===== src/State/Limit.antt =====
-- `LimitRoots`: which roots stay, and what is forgotten with the others.
use sap.Base.{
  ℕ, zero, suc, ◌-◌, ◌≡◌, refl, sym, ap, ◌∙◌, subst, inl, inr, none, some, arith, true, List,
  String,
}
use Prim.Native.Nat.{min}
use sap.Base.Int.{ℤ, pos, pos_part, leb, leb_ℤ}
use sap.Base.Text.{Bool-cases, if_ind}
use sap.Base.Lists.{In, In-map, In-left, Split-disjoint, In-map_inv, In-right, Split, not-In-nil}
use sap.Base.Maps.{delete_all-hit, delete_all-miss}
use sap.State.Tree.{fields, SpanFields, Spans, nil, cons, count, take_spans, drop_spans, fields_all}
use sap.State.Tree.Nodes.{fields-cut}
use sap.State.Index.{ids, Indexed-ids}
use sap.State.Store.{Store, limit_roots, limit_to, clear}
use sap.State.Store.Delete.{drop_ids, delete_children-drop_ids}
use sap.State.Invariant.{Inv}

count-drop_spans : (n : ℕ) (ts : Spans) → count (drop_spans n ts) ≡ count ts - n
unfolding count drop_spans
count-drop_spans zero ts = omega arith
count-drop_spans (suc n) nil = omega arith
count-drop_spans (suc n) (cons t ts) = omega (arith, count-drop_spans n ts)

drop_spans-all : (ts : Spans) → drop_spans (count ts) ts ≡ nil
unfolding count drop_spans
drop_spans-all nil = refl
drop_spans-all (cons t ts) = drop_spans-all ts

take_spans-all : (ts : Spans) → take_spans (count ts) ts ≡ ts
unfolding count take_spans
take_spans-all nil = refl
take_spans-all (cons t ts) = ap (cons t) (take_spans-all ts)

-- The roots that are too many, by their number.
abbrev pub surplus : ℤ → Store → ℕ
surplus limit s = count s.roots - pos_part limit

drop_spans-sub_zero : (ts : Spans) → drop_spans (count ts - 0) ts ≡ nil
drop_spans-sub_zero ts = let e : count ts - 0 ≡ count ts = omega arith in rw e (drop_spans-all ts)

-- A positive limit, as one deletion of the surplus roots.
limited : ℕ → Store → Store
limited k s = record (drop_ids (ids (fields_all (take_spans k s.roots))) s) {
  roots = drop_spans k s.roots;
}

limit_to-limited : (n : ℕ) (s : Store) → limit_to n s ≡ limited (count s.roots - n) s
unfolding limit_to limited take_spans drop_spans fields_all
limit_to-limited n s = elim (Bool-cases (leb (count s.roots) n)) [
  | inl few ↦
      let none_over : 0 ≡ count s.roots - n = ground arith in
      rw few (subst (λ k. s ≡ limited k s) none_over (limited-zero s))
  | inr many ↦
      let k = count s.roots - n in
      rw many (
        ap (λ (r : Store). record r { roots = drop_spans k s.roots })
          (delete_children-drop_ids (take_spans k s.roots) s))
]
  where
    limited-zero : (s : Store) → s ≡ limited 0 s
    limited-zero s = refl

not_positive : (limit : ℤ) → leb_ℤ limit (pos 0) ≡ true → pos_part limit ≡ 0
not_positive limit e = ground arith

-- Both ways of `LimitRoots`.
limit_cases {ℓ} :
    (P : Store → Type ℓ) (limit : ℤ) (s : Store)
    → (pos_part limit ≡ 0 → P (clear s))
    → P (limited (surplus limit s) s)
    → P (limit_roots limit s)
unfolding limit_roots
limit_cases P limit s none_kept some_kept =
    if_ind P (leb_ℤ limit (pos 0)) (λ e. none_kept (not_positive limit e))
      (λ _. subst P (sym (limit_to-limited (pos_part limit) s)) some_kept)

roots-limit :
    (limit : ℤ) (s : Store) → (limit_roots limit s).roots ≡ drop_spans (surplus limit s) s.roots
unfolding clear limited
roots-limit limit s =
    limit_cases (λ r. r.roots ≡ drop_spans (surplus limit s) s.roots) limit s
      (λ e. rw e (sym (drop_spans-sub_zero s.roots))) refl

-- The newest roots stay, `limit` of them if there are so many, in their order; with a limit of 0
-- or less none stays.
pub limit_roots-newest :
    (limit : ℤ) (s : Store)
    → ((limit_roots limit s).roots ≡ drop_spans (surplus limit s) s.roots)
      × (count (limit_roots limit s).roots ≡ min (count s.roots) (pos_part limit))
limit_roots-newest limit s =
    let e = roots-limit limit s in
    (e, rw e (omega (arith, count-drop_spans (surplus limit s) s.roots)))

-- The entries of an object that leaves, and of one that stays.
abbrev pub Gone : Store → SpanFields → Type 0
Gone s f = (s.by_id f.span_id ≡ none) × (s.stale_open_at f.span_id ≡ none)

abbrev pub Kept : Store → Store → SpanFields → Type 0
Kept s s' f =
    (s'.by_id f.span_id ≡ some f.addr) × (s'.stale_open_at f.span_id ≡ s.stale_open_at f.span_id)

module _ {s : Store} (v : Inv s) (f : SpanFields) where
  limited-entries :
      (k : ℕ)
      → (In f (fields_all (take_spans k s.roots)) → Gone (limited k s) f)
        × (In f (fields_all (drop_spans k s.roots)) → Kept s (limited k s) f)
  unfolding limited
  limited-entries k = (
    λ i. (
      delete_all-hit out f.span_id s.by_id (gone i),
      delete_all-hit out f.span_id s.stale_open_at (gone i),
    ),
    λ i. (
      delete_all-miss out f.span_id s.by_id (stays i) ∙ v.indexed.complete f (In-left f cut i),
      delete_all-miss out f.span_id s.stale_open_at (stays i),
    ),
  )
    where
      out : List String
      out = ids (fields_all (take_spans k s.roots))

      cut :
          Split
            (fields_all s.roots)
            (fields_all (drop_spans k s.roots))
            (fields_all (take_spans k s.roots))
      cut = fields-cut k s.roots

      gone : In f (fields_all (take_spans k s.roots)) → In f.span_id out
      gone i = In-map (λ g. g.span_id) f i

      stays : In f (fields_all (drop_spans k s.roots)) → ¬ In f.span_id out
      stays i h =
          let (g, j, e) =
            In-map_inv (λ g. g.span_id) f.span_id (fields_all (take_spans k s.roots)) h in
          Split-disjoint (λ g. g.addr) f g cut v.indexed.distinct i j
            (Indexed-ids v.indexed f g (In-left f cut i) (In-right g cut j) e)

  all-Gone :
      (k : ℕ)
      → drop_spans k s.roots ≡ nil
      → (In f (fields_all (take_spans k s.roots)) → Gone (clear s) f)
        × (In f (fields_all (drop_spans k s.roots)) → Kept s (clear s) f)
  unfolding clear fields
  all-Gone k e =
      (λ i. (refl, refl), λ i. absurd (not-In-nil f (subst (λ ts. In f (fields_all ts)) e i)))

  -- In a well-formed store, a span below a root that leaves is forgotten with its stale mark, and
  -- a span below a root that stays is tracked as before, with its mark if it had one.
  pub limit_roots-entries :
      (limit : ℤ)
      → (In f (fields_all (take_spans (surplus limit s) s.roots)) → Gone (limit_roots limit s) f)
        × (In f (fields_all (drop_spans (surplus limit s) s.roots))
            → Kept s (limit_roots limit s) f)
  limit_roots-entries limit =
      let k = surplus limit s in
      limit_cases
        (λ r.
          (In f (fields_all (take_spans k s.roots)) → Gone r f)
          × (In f (fields_all (drop_spans k s.roots)) → Kept s r f))
        limit s
        (λ e.
          all-Gone k
            (ap (λ n. drop_spans (count s.roots - n) s.roots) e ∙ drop_spans-sub_zero s.roots))
        (limited-entries k)
