-- ===== src/State/Apply/Attributes.antt =====
-- The merge of `applyUpdated`, seen as an update of a map from keys to attributes.
use sap.Base.{
  ◌≡◌, refl, sym, ap, ◌∙◌, String, Option, none, some, List, [], ◌∷◌, ◌++◌, arith, ite, if_pos,
  if_neg, str_dec, map, subst,
}
use sap.Base.Text.{ite_ind}
use sap.Base.Lists.{In, here, there, not-In-nil, not-In-cons, Distinct, Distinct-insert, Split-snoc}
use sap.Base.Remove.{In_dec}
use sap.Message.Attributes.{Attribute, get_key}
use sap.Message.Proto.{Proto, IsProto}
use sap.State.Apply.{set_attribute, merge_attributes}

-- The first attribute with a key.
pub attr_of : String → List (Option Attribute) → Option Attribute
attr_of k [] = none
attr_of k (none ∷ attrs) = attr_of k attrs
attr_of k (some a ∷ attrs) = ite (str_dec (get_key (some a)) k) (some a) (attr_of k attrs)

-- The last one with a key among the incoming ones, nil and empty keys apart.
pub last_of : String → List (Option Attribute) → Option Attribute → Option Attribute
last_of k [] old = old
last_of k (none ∷ attrs) old = last_of k attrs old
last_of k (some a ∷ attrs) old =
    last_of k attrs
      (ite (str_dec (get_key (some a)) "") old (ite (str_dec (get_key (some a)) k) (some a) old))

-- The keys in their order.
pub keys : List (Option Attribute) → List String
keys [] = []
keys (none ∷ attrs) = keys attrs
keys (some a ∷ attrs) = get_key (some a) ∷ keys attrs

module _ (p : Proto) (l : IsProto p) where
  attr_of-set_attribute :
      (k : String) (a : Attribute) (attrs : List (Option Attribute))
      → attr_of k (set_attribute p a attrs)
        ≡ ite (str_dec (get_key (some a)) k) (some a) (attr_of k attrs)
  unfolding attr_of set_attribute
  attr_of-set_attribute k a [] = rw (l.clone_of-eq a) refl
  attr_of-set_attribute k a (none ∷ attrs) = attr_of-set_attribute k a attrs
  attr_of-set_attribute k a (some b ∷ attrs) =
      ground (arith, l.clone_of-eq a, attr_of-set_attribute k a attrs)

  -- After an update each key has the attribute that came last with it, if one came, and otherwise
  -- the attribute that it had. Nil attributes and empty keys in the update change nothing.
  pub attr_of-merge_attributes :
      (k : String) (incoming attrs : List (Option Attribute))
      → attr_of k (merge_attributes p incoming attrs) ≡ last_of k incoming (attr_of k attrs)
  unfolding merge_attributes last_of
  attr_of-merge_attributes k [] attrs = refl
  attr_of-merge_attributes k (none ∷ incoming) attrs = attr_of-merge_attributes k incoming attrs
  attr_of-merge_attributes k (some a ∷ incoming) attrs =
      attr_of-merge_attributes k incoming _ ∙ ap (last_of k incoming) one
    where
      one :
          attr_of k (ite (str_dec (get_key (some a)) "") attrs (set_attribute p a attrs))
          ≡ ite
              (str_dec (get_key (some a)) "")
              (attr_of k attrs)
              (ite (str_dec (get_key (some a)) k) (some a) (attr_of k attrs))
      one = ground (arith, attr_of-set_attribute k a attrs)

-- A key that is new goes to the end.
pub add_key : String → List String → List String
add_key k ks = ite (In_dec str_dec k ks) ks (ks ++ k ∷ [])

pub add_keys : List (Option Attribute) → List String → List String
add_keys [] ks = ks
add_keys (none ∷ incoming) ks = add_keys incoming ks
add_keys (some a ∷ incoming) ks =
    add_keys incoming (ite (str_dec (get_key (some a)) "") ks (add_key (get_key (some a)) ks))

add_key-old : (k : String) (ks : List String) → In k ks → add_key k ks ≡ ks
unfolding add_key
add_key-old k ks i = if_pos (In_dec str_dec k ks) i _ _

add_key-new : (k : String) (ks : List String) → ¬ In k ks → add_key k ks ≡ ks ++ k ∷ []
unfolding add_key
add_key-new k ks n = if_neg (In_dec str_dec k ks) n _ _

add_key-cons : (k j : String) (ks : List String) → ¬ (j ≡ k) → j ∷ add_key k ks ≡ add_key k (j ∷ ks)
add_key-cons k j ks n = elim (In_dec str_dec k ks) [
  | yes i ↦ ap (◌∷◌ j) (add_key-old k ks i) ∙ sym (add_key-old k (j ∷ ks) (there j i))
  | no m ↦
      ap (◌∷◌ j) (add_key-new k ks m)
      ∙ sym (add_key-new k (j ∷ ks) (not-In-cons k j ks (λ e. n (sym e)) m))
]

add_key-Distinct : (k : String) (ks : List String) → Distinct ks → Distinct (add_key k ks)
add_key-Distinct k ks d = elim (In_dec str_dec k ks) [
  | yes i ↦ subst Distinct (sym (add_key-old k ks i)) d
  | no m ↦ subst Distinct (sym (add_key-new k ks m)) (
      subst Distinct (map-id' (ks ++ k ∷ [])) (
        Distinct-insert (λ x. x) (Split-snoc ks k) (subst Distinct (sym (map-id' ks)) d)
          (λ i. m (subst (In k) (map-id' ks) i))))
]
  where
    map-id' : (xs : List String) → map (λ x. x) xs ≡ xs
    map-id' [] = refl
    map-id' (x ∷ xs) = ap (◌∷◌ x) (map-id' xs)

add_keys-Distinct :
    (incoming : List (Option Attribute)) (ks : List String)
    → Distinct ks
    → Distinct (add_keys incoming ks)
unfolding add_keys
add_keys-Distinct [] ks d = d
add_keys-Distinct (none ∷ incoming) ks d = add_keys-Distinct incoming ks d
add_keys-Distinct (some a ∷ incoming) ks d = add_keys-Distinct incoming _ (
    ite_ind Distinct (str_dec (get_key (some a)) "") (λ _. d)
      (λ _. add_key-Distinct (get_key (some a)) ks d))

module _ (p : Proto) (l : IsProto p) where
  keys-set_attribute :
      (a : Attribute) (attrs : List (Option Attribute))
      → keys (set_attribute p a attrs) ≡ add_key (get_key (some a)) (keys attrs)
  unfolding keys set_attribute
  keys-set_attribute a [] =
      ap (λ c. get_key (some c) ∷ []) (l.clone_of-eq a)
      ∙ sym (add_key-new (get_key (some a)) [] (not-In-nil (get_key (some a))))
  keys-set_attribute a (none ∷ attrs) = keys-set_attribute a attrs
  keys-set_attribute a (some b ∷ attrs) = elim (str_dec (get_key (some b)) (get_key (some a))) [
    | yes e ↦
        ap keys (if_pos (str_dec (get_key (some b)) (get_key (some a))) e _ _)
        ∙ ap (λ c. get_key (some c) ∷ keys attrs) (l.clone_of-eq a)
        ∙ ap (λ k. k ∷ keys attrs) (sym e)
        ∙ sym (
            add_key-old (get_key (some a)) (get_key (some b) ∷ keys attrs)
              (here (get_key (some b)) (sym e)))
    | no n ↦
        ap keys (if_neg (str_dec (get_key (some b)) (get_key (some a))) n _ _)
        ∙ ap (◌∷◌ (get_key (some b))) (keys-set_attribute a attrs)
        ∙ add_key-cons (get_key (some a)) (get_key (some b)) (keys attrs) n
  ]

  keys-merge_add :
      (incoming attrs : List (Option Attribute))
      → keys (merge_attributes p incoming attrs) ≡ add_keys incoming (keys attrs)
  unfolding merge_attributes add_keys
  keys-merge_add [] attrs = refl
  keys-merge_add (none ∷ incoming) attrs = keys-merge_add incoming attrs
  keys-merge_add (some a ∷ incoming) attrs = keys-merge_add incoming _ ∙ ap (add_keys incoming) one
    where
      one :
          keys (ite (str_dec (get_key (some a)) "") attrs (set_attribute p a attrs))
          ≡ ite
              (str_dec (get_key (some a)) "")
              (keys attrs)
              (add_key (get_key (some a)) (keys attrs))
      one = ground (arith, keys-set_attribute a attrs)

  -- An update keeps the attributes in their order and puts new keys behind them, in the order in
  -- which they first came; if no key stood twice before, none does afterwards.
  pub keys-merge_attributes :
      (incoming attrs : List (Option Attribute))
      → (keys (merge_attributes p incoming attrs) ≡ add_keys incoming (keys attrs))
        × (Distinct (keys attrs) → Distinct (keys (merge_attributes p incoming attrs)))
  keys-merge_attributes incoming attrs = (
    keys-merge_add incoming attrs,
    λ d.
        subst Distinct (sym (keys-merge_add incoming attrs))
          (add_keys-Distinct incoming (keys attrs) d),
  )
