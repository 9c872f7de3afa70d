-- ===== src/Base/Maps.antt =====
-- Maps keyed by texts, as functions: `m[k]`, `m[k] = v` and `delete(m, k)` of the source.
use Prim.Native.String.{String}
use mathlib.Core.Path.{◌≡◌, refl, ◌∙◌}
use mathlib.Core.Logic.{ite, if_pos, if_neg}
use mathlib.Core.List.{List, [], ◌∷◌, ◌++◌}
use mathlib.Core.Option.{Option, none, some}
use native.Mathlib.Omega.{arith}
use sap.Base.Text.{str_dec}
use sap.Base.Lists.{In, here, there}

abbrev pub Map {ℓ} : Type ℓ → Type ℓ
Map A = String → Option A

module _ {ℓ} {A : Type ℓ} where
  abbrev pub empty : Map A
  empty k = none

  abbrev pub insert : String → A → Map A → Map A
  insert k v m j = ite (str_dec j k) (some v) (m j)

  abbrev pub delete : String → Map A → Map A
  delete k m j = ite (str_dec j k) none (m j)

-- Deletion of several keys.
abbrev pub delete_all {ℓ} : {A : Type ℓ} → List String → Map A → Map A
delete_all [] m = m
delete_all (k ∷ ks) m = delete_all ks (delete k m)

module _ {ℓ} {A : Type ℓ} where
  pub delete_all-append :
      (ks js : List String) (m : Map A) → delete_all (ks ++ js) m ≡ delete_all js (delete_all ks m)
  delete_all-append [] js m = refl
  delete_all-append (k ∷ ks) js m = delete_all-append ks js (delete k m)

  delete_all-none :
      (ks : List String) (k : String) (m : Map A) → m k ≡ none → delete_all ks m k ≡ none
  delete_all-none [] k m e = e
  delete_all-none (j ∷ ks) k m e = delete_all-none ks k (delete j m) (ground (arith, e))

  pub delete_all-hit :
      (ks : List String) (k : String) (m : Map A) → In k ks → delete_all ks m k ≡ none
  delete_all-hit [] k m i = elim i [ ]
  delete_all-hit (j ∷ ks) k m (here _ e) =
      delete_all-none ks k (delete j m) (if_pos (str_dec k j) e _ _)
  delete_all-hit (j ∷ ks) k m (there _ i) = delete_all-hit ks k (delete j m) i

  pub delete_all-miss :
      (ks : List String) (k : String) (m : Map A) → ¬ In k ks → delete_all ks m k ≡ m k
  delete_all-miss [] k m h = refl
  delete_all-miss (j ∷ ks) k m h =
      delete_all-miss ks k (delete j m) (λ i. h (there j i))
      ∙ if_neg (str_dec k j) (λ e. h (here j e)) _ _
