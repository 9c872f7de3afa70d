-- ===== src/Hub/Invariant.antt =====
-- The invariant of a hub and its channels, and the loops of hub.go over the subscribers.
use sap.Base.{
  ℕ, ◌≤◌, ◌<◌, ◌≡◌, refl, sym, ap, ◌∙◌, ◌≢◌, ◌⊎◌, inl, inr, Option, none, some, List, [], ◌∷◌, true,
  false, if_pos, if_neg, ℕ_discrete, arith,
}
use mathlib.Core.Option.{some-injective, some-ne-none}
use sap.Base.Lists.{In, here, there, In-eq, length, Distinct}
use sap.Base.Remove.{In_dec}
use sap.Hub.{Chan, Hub, World, put, for_each}

module _ {ℓ} {R : Type ℓ} where
  -- An address with a channel that is not closed.
  abbrev pub Open : (ℕ → Option (Chan R)) → ℕ → Type ℓ
  Open m a = (c : Chan R) × (m a ≡ some c) × (c.closed ≡ false)

  -- A hub that is not nil; its subscribers are exactly the open channels, each once; a closed hub
  -- has none; every queue is within its capacity, which is not zero.
  pub record Inv (w : World R) : Type ℓ where
    pub hub : Hub
    pub at_hub : w.hub ≡ some hub
    pub distinct : Distinct hub.subs
    pub shut : hub.closed ≡ true → hub.subs ≡ []
    pub sub-Open : (a : ℕ) → In a hub.subs → Open w.chans a
    pub Open-sub : (a : ℕ) → Open w.chans a → In a hub.subs
    pub fresh : (a : ℕ) → w.next ≤ a → w.chans a ≡ none
    pub bounded :
        (a : ℕ) (c : Chan R) → w.chans a ≡ some c → (length c.queue ≤ c.capacity) × (0 < c.capacity)

  pub put-hit : (a : ℕ) (c : Chan R) (m : ℕ → Option (Chan R)) → put a c m a ≡ some c
  put-hit a c m = if_pos (ℕ_discrete a a) refl _ _

  pub put-miss : (a b : ℕ) (c : Chan R) (m : ℕ → Option (Chan R)) → b ≢ a → put a c m b ≡ m b
  put-miss a b c m n = if_neg (ℕ_discrete b a) n _ _

  -- The channels at `subs` are changed by `g`, the others are as they were.
  pub record Each (g : Chan R → Chan R) (subs : List ℕ) (m m' : ℕ → Option (Chan R)) : Type ℓ where
    pub inside : (a : ℕ) (c : Chan R) → In a subs → m a ≡ some c → m' a ≡ some (g c)
    pub outside : (a : ℕ) → ¬ In a subs → m' a ≡ m a

  module _ (g : Chan R → Chan R) (act : ℕ → (ℕ → Option (Chan R)) → Option (ℕ → Option (Chan R)))
      (act-Open : (a : ℕ) (c : Chan R) (m : ℕ → Option (Chan R))
        → m a ≡ some c
        → c.closed ≡ false
        → act a m ≡ some (put a (g c) m)) where
    -- A loop over open channels, each once, does not panic.
    pub for_each-Each :
        (subs : List ℕ) (m : ℕ → Option (Chan R))
        → Distinct subs
        → ((a : ℕ) → In a subs → Open m a)
        → (m' : ℕ → Option (Chan R)) × (for_each act subs m ≡ some m') × Each g subs m m'
    unfolding for_each
    for_each-Each [] m d o =
        (m, refl, record { inside = λ a c i e. elim i [ ]; outside = λ a n. refl })
    for_each-Each (a ∷ subs) m d o =
        let (c, e, q) = o a (here a refl) in
        let (m', e', h) = for_each-Each subs (put a (g c) m) d.1 (λ b i.
          let (cb, eb, qb) = o b (there a i) in
          (cb, put-miss a b (g c) m (λ p. d.0 (In-eq p i)) ∙ eb, qb)) in
        (
          m',
          first e q e',
          record {
            inside = λ b cb i eb. inside_cons b cb i eb e h;
            outside =
                λ b n. h.outside b (λ i. n (there a i)) ∙ put-miss a b (g c) m (λ p. n (here a p));
          },
        )
      where
        first :
            {c : Chan R} {m' : ℕ → Option (Chan R)}
            → m a ≡ some c
            → c.closed ≡ false
            → for_each act subs (put a (g c) m) ≡ some m'
            → for_each act (a ∷ subs) m ≡ some m'
        first e q e' = ground (arith, act-Open a _ m e q, e')

        inside_cons :
            {c : Chan R} {m' : ℕ → Option (Chan R)} (b : ℕ) (cb : Chan R)
            → In b (a ∷ subs)
            → m b ≡ some cb
            → m a ≡ some c
            → Each g subs (put a (g c) m) m'
            → m' b ≡ some (g cb)
        inside_cons {c} b cb (here _ p) eb e h =
            h.outside b (λ i. d.0 (In-eq p i))
            ∙ if_pos (ℕ_discrete b a) p _ _
            ∙ ap (λ x. some (g x)) (some-injective c cb (sym e ∙ ap m (sym p) ∙ eb))
        inside_cons {c} b cb (there _ i) eb e h =
            h.inside b cb i (put-miss a b (g c) m (λ p. d.0 (In-eq p i)) ∙ eb)

module _ {ℓ} {R : Type ℓ} {g : Chan R → Chan R} {subs : List ℕ} {m m' : ℕ → Option (Chan R)} where
  -- What a channel was before the loop.
  pub Each-source :
      ((a : ℕ) → In a subs → Open m a)
      → Each g subs m m'
      → (a : ℕ) (c' : Chan R) → m' a ≡ some c'
      → (c : Chan R) × (m a ≡ some c) × ((In a subs × (c' ≡ g c)) ⊎ ((¬ In a subs) × (c' ≡ c)))
  Each-source o h a c' e = elim (In_dec ℕ_discrete a subs) [
    | yes i ↦
        (let (c, p, _) = o a i in
          (c, p, inl (i, some-injective c' (g c) (sym e ∙ h.inside a c i p))))
    | no n ↦ (c', sym (h.outside a n) ∙ e, inr (n, refl))
  ]

  pub Each-fresh :
      ((a : ℕ) → In a subs → Open m a) → Each g subs m m' → (a : ℕ) → m a ≡ none → m' a ≡ none
  Each-fresh o h a e = h.outside a (λ i. let (c, p, _) = o a i in some-ne-none c (sym p ∙ e)) ∙ e
