-- ===== src/Attr/Dedupe.antt =====
-- What dedupeStrings of attr.go keeps.
use sap.Base.{
  String, ◌≡◌, refl, sym, ap, ◌∙◌, ◌≢◌, ◌↔◌, inl, inr, none, some, List, [], ◌∷◌, ◌++◌, ite,
  str_dec, arith,
}
use mathlib.Core.List.{append_assoc, append-nil}
use sap.Base.Lists.{In, here, there, In-uncons, Distinct}
use sap.Base.Remove.{remove, In-remove, remove-In, remove-Distinct}
use sap.Base.Maps.{Map, empty, insert}
use sap.Base.Text.{ite_ind, Option-cases}
use sap.Attr.{keep_new, dedupe_loop, dedupe_strings}

-- The first occurrence of each value but the empty one, described from the end of the list.
abbrev pub firsts : List String → List String
firsts [] = []
firsts (v ∷ vs) = ite (str_dec v "") (firsts vs) (v ∷ remove str_dec v (firsts vs))

-- The values that a set does not hold.
abbrev unseen : Map (Unit {0}) → List String → List String
unseen seen [] = []
unseen seen (x ∷ xs) = elim (seen x) [ some _ ↦ unseen seen xs | none ↦ x ∷ unseen seen xs ]

unseen-empty : (xs : List String) → unseen empty xs ≡ xs
unseen-empty [] = refl
unseen-empty (x ∷ xs) = ap (◌∷◌ x) (unseen-empty xs)

unseen-insert :
    (seen : Map (Unit {0})) (v : String) (xs : List String)
    → unseen (insert v tt seen) xs ≡ unseen seen (remove str_dec v xs)
unseen-insert seen v [] = refl
unseen-insert seen v (x ∷ xs) = ground (arith, unseen-insert seen v xs)

unseen-remove :
    (seen : Map (Unit {0})) (v : String) (u : Unit {0}) (xs : List String)
    → seen v ≡ some u
    → unseen seen (remove str_dec v xs) ≡ unseen seen xs
unseen-remove seen v u [] e = refl
unseen-remove seen v u (x ∷ xs) e = ground (arith, e, unseen-remove seen v u xs e)

dedupe_loop-unseen :
    (vs : List String) (seen : Map (Unit {0})) (res : List String)
    → (dedupe_loop vs (seen, res)).1 ≡ res ++ unseen seen (firsts vs)
unfolding dedupe_loop keep_new
dedupe_loop-unseen [] seen res = sym (append-nil res)
dedupe_loop-unseen (v ∷ vs) seen res = elim (str_dec v "") [
  | yes e ↦ ground (arith, dedupe_loop-unseen vs seen res)
  | no n ↦ elim (Option-cases (seen v)) [
    | inl q ↦ ground (
      arith,
      dedupe_loop-unseen vs (insert v tt seen) (res ++ v ∷ []),
      unseen-insert seen v (firsts vs),
      append_assoc res (v ∷ []) (unseen (insert v tt seen) (firsts vs)),
    )
    | inr (u, q) ↦
        ground (arith, dedupe_loop-unseen vs seen res, unseen-remove seen v u (firsts vs) q)
  ]
]

-- The display hints that an attribute keeps are the first occurrences of the hints given, in their
-- order and without the empty ones.
pub dedupe_strings-firsts : (vs : List String) → dedupe_strings vs ≡ firsts vs
unfolding dedupe_strings
dedupe_strings-firsts vs = dedupe_loop-unseen vs empty [] ∙ unseen-empty (firsts vs)

firsts-Distinct : (vs : List String) → Distinct (firsts vs)
firsts-Distinct [] = tt
firsts-Distinct (v ∷ vs) =
    ite_ind Distinct (str_dec v "") (λ _. firsts-Distinct vs)
      (λ n. (
        λ i. (remove-In str_dec v v (firsts vs) i).1 refl,
        remove-Distinct str_dec v (firsts vs) (firsts-Distinct vs),
      ))

In-firsts : (k : String) (vs : List String) → In k vs → k ≢ "" → In k (firsts vs)
In-firsts k [] i n = elim i [ ]
In-firsts k (v ∷ vs) (here _ e) n =
    ite_ind (In k) (str_dec v "") (λ q. absurd (n (e ∙ q))) (λ _. here v e)
In-firsts k (v ∷ vs) (there _ i) n =
    ite_ind (In k) (str_dec v "") (λ _. In-firsts k vs i n)
      (λ _. elim (str_dec k v) [
        | yes e ↦ here v e
        | no m ↦ there v (In-remove str_dec k v (firsts vs) (In-firsts k vs i n) m)
      ])

firsts-In : (k : String) (vs : List String) → In k (firsts vs) → In k vs × (k ≢ "")
firsts-In k [] i = elim i [ ]
firsts-In k (v ∷ vs) h =
    ite_ind (λ ys. In k ys → In k (v ∷ vs) × (k ≢ "")) (str_dec v "")
      (λ _ i. (there v (firsts-In k vs i).0, (firsts-In k vs i).1))
      (λ n i. elim (In-uncons i) [
        | inl e ↦ (here v e, λ q. n (sym e ∙ q))
        | inr j ↦
            (let (l, _) = remove-In str_dec k v (firsts vs) j in
              (there v (firsts-In k vs l).0, (firsts-In k vs l).1))
      ])
      h

-- No display hint is kept twice, and the hints kept are those given but the empty one.
dedupe_strings-Distinct :
    (vs : List String)
    → Distinct (dedupe_strings vs)
      × ((k : String) → In k (dedupe_strings vs) ↔ (In k vs × (k ≢ "")))
dedupe_strings-Distinct vs =
    rw (dedupe_strings-firsts vs)
      (firsts-Distinct vs, λ k. (firsts-In k vs, λ (i, n). In-firsts k vs i n))
