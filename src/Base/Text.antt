-- ===== src/Base/Text.antt =====
-- Equality of texts as a decision, and the case splits that keep their equation.
use Prim.Native.String.{String}
use mathlib.Core.Path.{◌≡◌, refl, sym, subst}
use mathlib.Core.Logic.{◌⊎◌, inl, inr, ite, if_pos, if_neg}
use mathlib.Core.Bool.{Bool, true, false}
use mathlib.Core.Option.{Option, none, some, some-ne-none}
use native.Mathlib.Omega.{arith}
use text.Mathlib.Text.{◌==◌}
use sap.Base.Int.{if◌then◌else◌}
use text.Mathlib.TextEquality.{eq_iff}

pub Bool-cases : (b : Bool) → (b ≡ true) ⊎ (b ≡ false)
Bool-cases true = inl refl
Bool-cases false = inr refl

pub Option-cases {ℓ} : {A : Type ℓ} (o : Option A) → (o ≡ none) ⊎ ((a : A) × (o ≡ some a))
Option-cases none = inl refl
Option-cases (some a) = inr (a, refl)

pub ne_of_test : (s t : String) → (s == t) ≡ false → ¬ (s ≡ t)
ne_of_test s t h e = ground (arith, eq_iff s t)

-- `s == t` in the source.
unfoldable pub str_dec : (s t : String) → Dec (s ≡ t)
unfolding Bool-cases
str_dec s t = elim (Bool-cases (s == t)) [
  | inl e ↦ yes ((eq_iff s t).0 e)
  | inr e ↦ no (ne_of_test s t e)
]

-- A property of both branches holds of the choice.
pub ite_ind {ℓ κ μ} :
    {Q : Type ℓ} {A : Type κ} (P : A → Type μ) (d : Dec Q) {x y : A}
    → (Q → P x)
    → (¬ Q → P y)
    → P (ite d x y)
ite_ind P (yes q) {x} {y} hx hy = subst P (sym (if_pos (yes q) q x y)) (hx q)
ite_ind P (no n) {x} {y} hx hy = subst P (sym (if_neg (no n) n x y)) (hy n)

pub if_ind {κ μ} :
    {A : Type κ} (P : A → Type μ) (b : Bool) {x y : A}
    → (b ≡ true → P x)
    → (b ≡ false → P y)
    → P (if b then x else y)
if_ind P true hx hy = hx refl
if_ind P false hx hy = hy refl

pub Option-ind {ℓ κ μ} :
    {A : Type ℓ} {B : Type κ} (P : B → Type μ) (o : Option A) {x : B} {f : A → B}
    → (o ≡ none → P x)
    → ((a : A) → o ≡ some a → P (f a))
    → P (elim o [ none ↦ x | some a ↦ f a ])
Option-ind P none hx hf = hx refl
Option-ind P (some a) hx hf = hf a refl

-- A result that the next step needs.
abbrev pub and_then {ℓ κ} : {A : Type ℓ} {B : Type κ} → Option A → (A → Option B) → Option B
and_then none f = none
and_then (some a) f = f a

pub and_then-some {ℓ κ} :
    {A : Type ℓ} {B : Type κ} (o : Option A) (f : A → Option B) (b : B)
    → and_then o f ≡ some b
    → (a : A) × (o ≡ some a) × (f a ≡ some b)
and_then-some none f b e = absurd (some-ne-none b (sym e))
and_then-some (some a) f b e = (a, refl, e)
