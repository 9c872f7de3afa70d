-- ===== src/Base/Remove.antt =====
-- Membership in a list and removal of an element, over a type with decidable equality.
use mathlib.Core.Path.{◌≡◌, sym, ◌∙◌}
use mathlib.Core.Logic.{◌≢◌, inl, inr, ite}
use mathlib.Core.List.{List, [], ◌∷◌}
use sap.Base.Lists.{In, here, there, In-uncons, not-In-nil, not-In-cons, Distinct}
use sap.Base.Text.{ite_ind}

module _ {ℓ} {A : Type ℓ} (dec : (a b : A) → Dec (a ≡ b)) where
  pub In_dec : (a : A) (xs : List A) → Dec (In a xs)
  In_dec a [] = no (not-In-nil a)
  In_dec a (x ∷ xs) = elim (dec a x) [
    | yes e ↦ yes (here x e)
    | no n ↦ elim (In_dec a xs) [ yes i ↦ yes (there x i) | no m ↦ no (not-In-cons a x xs n m) ]
  ]

  -- Every occurrence of `v` is left out.
  abbrev pub remove : A → List A → List A
  remove v [] = []
  remove v (x ∷ xs) = ite (dec x v) (remove v xs) (x ∷ remove v xs)

  pub In-remove : (k v : A) (xs : List A) → In k xs → k ≢ v → In k (remove v xs)
  In-remove k v [] i n = elim i [ ]
  In-remove k v (x ∷ xs) (here _ e) n =
      ite_ind (In k) (dec x v) (λ q. absurd (n (e ∙ q))) (λ _. here x e)
  In-remove k v (x ∷ xs) (there _ i) n =
      ite_ind (In k) (dec x v) (λ q. In-remove k v xs i n) (λ _. there x (In-remove k v xs i n))

  pub remove-In : (k v : A) (xs : List A) → In k (remove v xs) → In k xs × (k ≢ v)
  remove-In k v [] i = elim i [ ]
  remove-In k v (x ∷ xs) h =
      ite_ind (λ ys. In k ys → In k (x ∷ xs) × (k ≢ v)) (dec x v)
        (λ q i. (there x (remove-In k v xs i).0, (remove-In k v xs i).1))
        (λ n i. elim (In-uncons i) [
          | inl e ↦ (here x e, λ q. n (sym e ∙ q))
          | inr j ↦ (there x (remove-In k v xs j).0, (remove-In k v xs j).1)
        ])
        h

  pub remove-Distinct : (v : A) (xs : List A) → Distinct xs → Distinct (remove v xs)
  remove-Distinct v [] d = tt
  remove-Distinct v (x ∷ xs) d =
      ite_ind Distinct (dec x v) (λ q. remove-Distinct v xs d.1)
        (λ n. (λ i. d.0 (remove-In x v xs i).0, remove-Distinct v xs d.1))
