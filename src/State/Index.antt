-- ===== src/State/Index.antt =====
-- The agreement of `byID` with the objects in the tree, and what keeps it.
use sap.Base.{
  ℕ, suc, ◌<◌, ◌≡◌, refl, sym, ap, ◌∙◌, ◌≢◌, ◌⊎◌, inl, inr, String, none, some, List, [], ◌∷◌, map,
  arith, if_pos, if_neg, str_dec,
}
use sap.Base.Lists.{
  In, here, there, Distinct, Split, In-map, In-map_inv, In-eq, In-left, In-right, In-Split,
  Split-Distinct, Split-disjoint, Distinct-insert,
}
use sap.Base.Remove.{In_dec}
use sap.Base.Maps.{Map, insert, delete_all, delete_all-hit, delete_all-miss}
use sap.State.Tree.{SpanFields}

abbrev pub addrs : List SpanFields → List ℕ
addrs = map (λ f. f.addr)

abbrev pub ids : List SpanFields → List String
ids = map (λ f. f.span_id)

-- The map `by` holds exactly the objects `fs`, each under its ID and by its address.
pub record Indexed (fs : List SpanFields) (by : Map ℕ) (next : ℕ) : Type 0 where
  pub complete : (f : SpanFields) → In f fs → by f.span_id ≡ some f.addr
  pub sound :
      (id : String) (a : ℕ)
      → by id ≡ some a
      → (f : SpanFields) × In f fs × (f.span_id ≡ id) × (f.addr ≡ a)
  pub distinct : Distinct (addrs fs)
  pub fresh : (f : SpanFields) → In f fs → f.addr < next
  pub named : (f : SpanFields) → In f fs → f.span_id ≢ ""

module _ {fs : List SpanFields} {by : Map ℕ} {next : ℕ} (ix : Indexed fs by next) where
  -- No two objects have one ID.
  pub Indexed-ids : (f g : SpanFields) → In f fs → In g fs → f.span_id ≡ g.span_id → f.addr ≡ g.addr
  Indexed-ids f g i j e = some_addr (sym (ix.complete f i) ∙ ap by e ∙ ix.complete g j)
    where
      some_addr : some f.addr ≡ some g.addr → f.addr ≡ g.addr
      some_addr q = ground arith

  next-not-In : ¬ In next (addrs fs)
  next-not-In h =
      let (f, i, e) = In-map_inv (λ f. f.addr) next fs h in
      let lt : f.addr < next = ix.fresh f i in omega arith

  -- A new object under an ID that is not tracked.
  pub Indexed-insert :
      (n : SpanFields) {fs' : List SpanFields}
      → Split fs' (n ∷ []) fs
      → n.addr ≡ next
      → by n.span_id ≡ none
      → n.span_id ≢ ""
      → Indexed fs' (insert n.span_id n.addr by) (suc next)
  Indexed-insert n {fs'} s at new_id name = record {
    complete = λ f i. complete' f (In-Split f s i);
    sound = sound';
    distinct = Distinct-insert (λ f. f.addr) s ix.distinct (λ h. next-not-In (In-eq at h));
    fresh = λ f i. fresh' f (In-Split f s i);
    named = λ f i. named' f (In-Split f s i);
  }
    where
      complete' :
          (f : SpanFields)
          → In f (n ∷ []) ⊎ In f fs
          → insert n.span_id n.addr by f.span_id ≡ some f.addr
      complete' f (inl (here _ e)) = rw e (if_pos (str_dec n.span_id n.span_id) refl _ _)
      complete' f (inl (there _ i)) = elim i [ ]
      complete' f (inr i) = let old : by f.span_id ≡ some f.addr = ix.complete f i in ground arith

      sound' :
          (id : String) (a : ℕ)
          → insert n.span_id n.addr by id ≡ some a
          → (f : SpanFields) × In f fs' × (f.span_id ≡ id) × (f.addr ≡ a)
      sound' id a e = elim (str_dec id n.span_id) [
        | yes q ↦ (n, In-left n s (here n refl), sym q, ground arith)
        | no q ↦
            let (f, i, e₁, e₂) = ix.sound id a (sym (if_neg (str_dec id n.span_id) q _ _) ∙ e) in
            (f, In-right f s i, e₁, e₂)
      ]

      fresh' : (f : SpanFields) → In f (n ∷ []) ⊎ In f fs → f.addr < suc next
      fresh' f (inl (here _ e)) = rw e (omega arith)
      fresh' f (inl (there _ i)) = elim i [ ]
      fresh' f (inr i) = let lt : f.addr < next = ix.fresh f i in omega arith

      named' : (f : SpanFields) → In f (n ∷ []) ⊎ In f fs → f.span_id ≢ ""
      named' f (inl (here _ e)) = λ q. name (sym (ap (λ g. g.span_id) e) ∙ q)
      named' f (inl (there _ i)) = elim i [ ]
      named' f (inr i) = ix.named f i

  -- Some objects leave, with their entries.
  pub Indexed-remove :
      {kept dropped : List SpanFields}
      → Split fs kept dropped
      → Indexed kept (delete_all (ids dropped) by) next
  Indexed-remove {kept} {dropped} s = record {
    complete = λ f i.
        delete_all-miss (ids dropped) f.span_id by (apart f i) ∙ ix.complete f (In-left f s i);
    sound = sound';
    distinct = Split-Distinct (λ f. f.addr) s ix.distinct;
    fresh = λ f i. ix.fresh f (In-left f s i);
    named = λ f i. ix.named f (In-left f s i);
  }
    where
      apart : (f : SpanFields) → In f kept → ¬ In f.span_id (ids dropped)
      apart f i h =
          let (g, j, e) = In-map_inv (λ g. g.span_id) f.span_id dropped h in
          Split-disjoint (λ f. f.addr) f g s ix.distinct i j
            (Indexed-ids f g (In-left f s i) (In-right g s j) e)

      still :
          (id : String) (f : SpanFields)
          → ¬ In id (ids dropped)
          → f.span_id ≡ id
          → In f kept ⊎ In f dropped
          → In f kept
      still id f h e (inl i) = i
      still id f h e (inr j) = absurd (h (In-eq e (In-map (λ g. g.span_id) f j)))

      sound' :
          (id : String) (a : ℕ)
          → delete_all (ids dropped) by id ≡ some a
          → (f : SpanFields) × In f kept × (f.span_id ≡ id) × (f.addr ≡ a)
      sound' id a e = elim (In_dec str_dec id (ids dropped)) [
        | yes h ↦ absurd (cc (delete_all-hit (ids dropped) id by h))
        | no h ↦
            let (f, i, e₁, e₂) = ix.sound id a (sym (delete_all-miss (ids dropped) id by h) ∙ e) in
            (f, still id f h e₁ (In-Split f s i), e₁, e₂)
      ]

  -- Objects are written, their IDs and addresses are not.
  pub Indexed-map :
      (g : SpanFields → SpanFields)
      → ((f : SpanFields) → (g f).addr ≡ f.addr)
      → ((f : SpanFields) → (g f).span_id ≡ f.span_id)
      → Indexed (map g fs) by next
  Indexed-map g same_addr same_id = record {
    complete = λ f i.
        let (h, j, e) = In-map_inv g f fs i in rw (e, same_id h, same_addr h) (ix.complete h j);
    sound = λ id a e.
        let (f, i, e₁, e₂) = ix.sound id a e in
        (g f, In-map g f i, same_id f ∙ e₁, same_addr f ∙ e₂);
    distinct = rw (addrs-map g same_addr fs) ix.distinct;
    fresh = λ f i. let (h, j, e) = In-map_inv g f fs i in rw (e, same_addr h) (ix.fresh h j);
    named = λ f i. let (h, j, e) = In-map_inv g f fs i in rw (e, same_id h) (ix.named h j);
  }
    where
      addrs-map :
          (g : SpanFields → SpanFields)
          → ((f : SpanFields) → (g f).addr ≡ f.addr)
          → (xs : List SpanFields) → addrs (map g xs) ≡ addrs xs
      addrs-map g e [] = refl
      addrs-map g e (x ∷ xs) = rw (e x, addrs-map g e xs)

pub Indexed-nil : (next : ℕ) → Indexed [] (λ _. none) next
Indexed-nil next = record {
  complete = λ f i. elim i [ ];
  sound = λ id a e. absurd (cc e);
  distinct = tt;
  fresh = λ f i. elim i [ ];
  named = λ f i. elim i [ ];
}
