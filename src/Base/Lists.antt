-- ===== src/Base/Lists.antt =====
-- Lists measured by native numbers, membership by recursion, and interleavings.
use Prim.Native.Nat.{ℕ, zero, suc, ◌+◌, ◌-◌}
use mathlib.Core.Path.{◌≡◌, refl, ap, ap₂, sym, ◌∙◌}
use mathlib.Core.Logic.{◌≢◌, ◌⊎◌, inl, inr}
use mathlib.Core.List.{List, [], ◌∷◌, ◌++◌, map}
use native.Mathlib.Omega.{arith}

-- `a` stands in the list; the derivation says where.
pub data In {ℓ} {A : Type ℓ} (a : A) : List A → Type ℓ where
  here : (x : A) {xs : List A} → a ≡ x → In a (x ∷ xs)
  there : (x : A) {xs : List A} → In a xs → In a (x ∷ xs)

module _ {ℓ} {A : Type ℓ} where
  pub not-In-nil : (a : A) → ¬ In a []
  not-In-nil a h = elim h [ ]

  pub In-eq : {a b : A} {xs : List A} → a ≡ b → In a xs → In b xs
  In-eq p (here x e) = here x (sym p ∙ e)
  In-eq p (there x i) = there x (In-eq p i)

  pub not-In-cons : (a x : A) (xs : List A) → ¬ (a ≡ x) → ¬ In a xs → ¬ In a (x ∷ xs)
  not-In-cons a x xs n m (here _ e) = n e
  not-In-cons a x xs n m (there _ i) = m i

  pub In-uncons : {a x : A} {xs : List A} → In a (x ∷ xs) → (a ≡ x) ⊎ In a xs
  In-uncons (here _ e) = inl e
  In-uncons (there _ i) = inr i

  abbrev pub length : List A → ℕ
  length [] = 0
  length (x ∷ xs) = suc (length xs)

  abbrev pub take : ℕ → List A → List A
  take zero xs = []
  take (suc n) [] = []
  take (suc n) (x ∷ xs) = x ∷ take n xs

  abbrev pub drop : ℕ → List A → List A
  drop zero xs = xs
  drop (suc n) [] = []
  drop (suc n) (x ∷ xs) = drop n xs

  pub length-append : (xs ys : List A) → length (xs ++ ys) ≡ length xs + length ys
  length-append [] ys = omega arith
  length-append (x ∷ xs) ys = omega (arith, length-append xs ys)

  pub length-drop : (n : ℕ) (xs : List A) → length (drop n xs) ≡ length xs - n
  length-drop zero xs = omega arith
  length-drop (suc n) [] = omega arith
  length-drop (suc n) (x ∷ xs) = omega (arith, length-drop n xs)

  -- Every entry has a property.
  abbrev pub All {κ} : (A → Type κ) → List A → Type κ
  All P [] = Unit
  All P (x ∷ xs) = P x × All P xs

  -- No entry stands twice.
  abbrev pub Distinct : List A → Type ℓ
  Distinct [] = Unit
  Distinct (x ∷ xs) = (¬ In x xs) × Distinct xs

  pub In-append_left : (a : A) {xs : List A} (ys : List A) → In a xs → In a (xs ++ ys)
  In-append_left a ys (here x e) = here x e
  In-append_left a ys (there x h) = there x (In-append_left a ys h)

  pub In-append_right : (a : A) (xs : List A) {ys : List A} → In a ys → In a (xs ++ ys)
  In-append_right a [] h = h
  In-append_right a (x ∷ xs) h = there x (In-append_right a xs h)

  pub In-append : (a : A) (xs : List A) {ys : List A} → In a (xs ++ ys) → In a xs ⊎ In a ys
  In-append a [] h = inr h
  In-append a (x ∷ xs) (here _ e) = inl (here x e)
  In-append a (x ∷ xs) (there _ h) = elim (In-append a xs h) [
    | inl l ↦ inl (there x l)
    | inr r ↦ inr r
  ]

-- `Split zs xs ys`: the list `zs` is made of `xs` and `ys`, each in its order.
pub data Split {ℓ} {A : Type ℓ} : List A → List A → List A → Type ℓ where
  done : Split [] [] []
  left : (x : A) {zs xs ys : List A} → Split zs xs ys → Split (x ∷ zs) (x ∷ xs) ys
  right : (y : A) {zs xs ys : List A} → Split zs xs ys → Split (y ∷ zs) xs (y ∷ ys)

module _ {ℓ} {A : Type ℓ} where
  pub Split-all_left : (xs : List A) → Split xs xs []
  Split-all_left [] = done
  Split-all_left (x ∷ xs) = left x (Split-all_left xs)

  pub Split-all_right : (ys : List A) → Split ys [] ys
  Split-all_right [] = done
  Split-all_right (y ∷ ys) = right y (Split-all_right ys)

  pub Split-parts : (xs ys : List A) → Split (xs ++ ys) xs ys
  Split-parts [] ys = Split-all_right ys
  Split-parts (x ∷ xs) ys = left x (Split-parts xs ys)

  -- One more element at the end.
  pub Split-snoc : (xs : List A) (n : A) → Split (xs ++ n ∷ []) (n ∷ []) xs
  Split-snoc [] n = left n done
  Split-snoc (x ∷ xs) n = right x (Split-snoc xs n)

  pub Split-append :
      {zs xs ys zs' xs' ys' : List A}
      → Split zs xs ys
      → Split zs' xs' ys'
      → Split (zs ++ zs') (xs ++ xs') (ys ++ ys')
  Split-append done s' = s'
  Split-append (left x s) s' = left x (Split-append s s')
  Split-append (right y s) s' = right y (Split-append s s')

  pub Split-swap : {zs xs ys : List A} → Split zs xs ys → Split zs ys xs
  Split-swap done = done
  Split-swap (left x s) = right x (Split-swap s)
  Split-swap (right y s) = left y (Split-swap s)

  pub In-left : {zs xs ys : List A} (a : A) → Split zs xs ys → In a xs → In a zs
  In-left a done h = h
  In-left a (left x s) (here _ e) = here x e
  In-left a (left x s) (there _ h) = there x (In-left a s h)
  In-left a (right y s) h = there y (In-left a s h)

  pub In-Split : {zs xs ys : List A} (a : A) → Split zs xs ys → In a zs → In a xs ⊎ In a ys
  In-Split a done h = inl h
  In-Split a (left x s) (here _ e) = inl (here x e)
  In-Split a (left x s) (there _ h) = elim (In-Split a s h) [
    | inl l ↦ inl (there x l)
    | inr r ↦ inr r
  ]
  In-Split a (right y s) (here _ e) = inr (here y e)
  In-Split a (right y s) (there _ h) = elim (In-Split a s h) [
    | inl l ↦ inl l
    | inr r ↦ inr (there y r)
  ]

  pub In-right : {zs xs ys : List A} (a : A) → Split zs xs ys → In a ys → In a zs
  In-right a s h = In-left a (Split-swap s) h

  pub Split-nil : {zs ys : List A} → Split zs [] ys → zs ≡ ys
  Split-nil done = refl
  Split-nil (right y s) = ap (◌∷◌ y) (Split-nil s)

  pub length-Split : {zs xs ys : List A} → Split zs xs ys → length zs ≡ length xs + length ys
  length-Split done = omega arith
  length-Split (left x s) = omega (arith, length-Split s)
  length-Split (right y s) = omega (arith, length-Split s)

module _ {ℓ κ} {A : Type ℓ} {B : Type κ} (f : A → B) where
  pub map-Split : {zs xs ys : List A} → Split zs xs ys → Split (map f zs) (map f xs) (map f ys)
  map-Split done = done
  map-Split (left x s) = left (f x) (map-Split s)
  map-Split (right y s) = right (f y) (map-Split s)

  pub In-map : (a : A) {xs : List A} → In a xs → In (f a) (map f xs)
  In-map a (here x e) = here (f x) (ap f e)
  In-map a (there x h) = there (f x) (In-map a h)

  pub In-map_inv : (b : B) (xs : List A) → In b (map f xs) → (a : A) × In a xs × (b ≡ f a)
  In-map_inv b [] h = elim h [ ]
  In-map_inv b (x ∷ xs) (here _ e) = (x, here x refl, e)
  In-map_inv b (x ∷ xs) (there _ h) = let (a, i, e) = In-map_inv b xs h in (a, there x i, e)

module _ {ℓ κ} {A : Type ℓ} {B : Type κ} (f : A → B) where
  -- The parts of a list with distinct keys share no key, and have distinct keys themselves.
  pub Split-disjoint :
      {zs xs ys : List A} (a b : A)
      → Split zs xs ys
      → Distinct (map f zs)
      → In a xs
      → In b ys
      → f a ≢ f b
  Split-disjoint a b done d i j e = not-In-nil a i
  Split-disjoint a b (left x s) d (here _ p) j e =
      d.0 (In-eq (sym e ∙ ap f p) (In-map f b (In-right b s j)))
  Split-disjoint a b (left x s) d (there _ i) j e = Split-disjoint a b s d.1 i j e
  Split-disjoint a b (right y s) d i (here _ p) e =
      d.0 (In-eq (e ∙ ap f p) (In-map f a (In-left a s i)))
  Split-disjoint a b (right y s) d i (there _ j) e = Split-disjoint a b s d.1 i j e

  pub Split-Distinct :
      {zs xs ys : List A} → Split zs xs ys → Distinct (map f zs) → Distinct (map f xs)
  Split-Distinct done d = d
  Split-Distinct (left x s) d = (λ h. d.0 (In-left (f x) (map-Split f s) h), Split-Distinct s d.1)
  Split-Distinct (right y s) d = Split-Distinct s d.1

  -- A new key put anywhere into a list keeps the keys distinct.
  pub Distinct-insert :
      {zs xs : List A} {n : A}
      → Split zs (n ∷ []) xs
      → Distinct (map f xs)
      → ¬ In (f n) (map f xs)
      → Distinct (map f zs)
  Distinct-insert {n} (left _ s) d h = rw (Split-nil s) (h, d)
  Distinct-insert {n} (right y {zs} {ys} s) d h = (
    λ i. insert_other (In-Split (f y) (map-Split f s) i),
    Distinct-insert s d.1 (λ i. h (there _ i)),
  )
    where
      insert_other : In (f y) (f n ∷ []) ⊎ In (f y) (map f ys) → ⊥
      insert_other (inl (here _ e)) = h (here _ (sym e))
      insert_other (inl (there _ i)) = elim i [ ]
      insert_other (inr i) = d.0 i

  -- Two elements with one key are the same element.
  pub In-unique :
      (a b : A) (xs : List A) → Distinct (map f xs) → In a xs → In b xs → f a ≡ f b → a ≡ b
  In-unique a b [] d i j e = elim i [ ]
  In-unique a b (x ∷ xs) d (here _ p) (here _ q) e = p ∙ sym q
  In-unique a b (x ∷ xs) d (here _ p) (there _ j) e =
      absurd (d.0 (In-eq (sym e ∙ ap f p) (In-map f b j)))
  In-unique a b (x ∷ xs) d (there _ i) (here _ q) e =
      absurd (d.0 (In-eq (e ∙ ap f q) (In-map f a i)))
  In-unique a b (x ∷ xs) d (there _ i) (there _ j) e = In-unique a b xs d.1 i j e

module _ {ℓ κ} {A : Type ℓ} {B : Type κ} where
  -- Two functions that agree on the elements of a list.
  pub map-cong_In :
      (f g : A → B) (xs : List A) → ((a : A) → In a xs → f a ≡ g a) → map f xs ≡ map g xs
  map-cong_In f g [] h = refl
  map-cong_In f g (x ∷ xs) h =
      ap₂ ◌∷◌ (h x (here x refl)) (map-cong_In f g xs (λ a i. h a (there x i)))

module _ {ℓ} {A : Type ℓ} where
  pub map-id_In : (f : A → A) (xs : List A) → ((a : A) → In a xs → f a ≡ a) → map f xs ≡ xs
  map-id_In f [] h = refl
  map-id_In f (x ∷ xs) h = ap₂ ◌∷◌ (h x (here x refl)) (map-id_In f xs (λ a i. h a (there x i)))
