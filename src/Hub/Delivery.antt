-- ===== src/Hub/Delivery.antt =====
-- What the subscribers of hub.go receive.
use sap.Base.{
  ℕ, zero, suc, ◌+◌, ◌≤◌, ◌≡◌, refl, sym, ap, subst, ◌∙◌, inl, inr, map, Option, none, some, List,
  [], ◌∷◌, ◌++◌, true, false, arith,
}
use mathlib.Core.List.{append_assoc, append-nil}
use sap.Base.Lists.{length, take}
use mathlib.Core.Option.{some-injective}
use sap.Base.Text.{if_ind, Bool-cases}
use sap.Base.Int.{ℤ, pos, pos_part, leb_ℤ, if◌then◌else◌, ltb}
use sap.Hub.{
  make_chan, subscribe, subscribe_in, Cancel, Chan, World, put, deliver, publish, publish_in, close,
  close_in, receive, receive_from, Received, item, end, wait,
}
use sap.Hub.Invariant.{Inv, put-hit, Open}
use sap.Hub.Calls.{true_or_false, subscribe-Inv}
use sap.Hub.Safe.{publish-Changes, publish-Inv, deliver-closed, close-Changes, shut_chan}

module _ {ℓ} {R : Type ℓ} where
  unfoldable pub publish_all : List R → World R → Option (World R)
  publish_all [] w = some w
  publish_all (r ∷ rs) w = elim (publish r w) [ none ↦ none | some w' ↦ publish_all rs w' ]

  pub take-all : (n : ℕ) (xs : List R) → length xs ≤ n → take n xs ≡ xs
  take-all zero [] l = refl
  take-all zero (x ∷ xs) l = absurd (omega (arith, l))
  take-all (suc n) [] l = refl
  take-all (suc n) (x ∷ xs) l = ap (◌∷◌ x) (take-all n xs (omega (arith, l)))

  -- A full queue stays as it is, whatever else is put at its end.
  take-full : (n : ℕ) (xs ys : List R) → length xs ≡ n → take n (xs ++ ys) ≡ xs
  take-full zero [] ys l = refl
  take-full zero (x ∷ xs) ys l = absurd (omega (arith, l))
  take-full (suc n) [] ys l = absurd (omega (arith, l))
  take-full (suc n) (x ∷ xs) ys l = ap (◌∷◌ x) (take-full n xs ys (omega (arith, l)))

  deliver-take :
      (r : R) (rs : List R) (c : Chan R)
      → length c.queue ≤ c.capacity
      → take (deliver r c).capacity ((deliver r c).queue ++ rs)
        ≡ take c.capacity (c.queue ++ r ∷ rs)
  unfolding deliver
  deliver-take r rs c l =
      if_ind (λ (x : Chan R). take x.capacity (x.queue ++ rs) ≡ take c.capacity (c.queue ++ r ∷ rs))
        (ltb (length c.queue) c.capacity)
        (λ _. ap (take c.capacity) (append_assoc c.queue (r ∷ []) rs))
        (λ q.
          take-full c.capacity c.queue rs (ground (arith, q, l))
          ∙ sym (take-full c.capacity c.queue (r ∷ rs) (ground (arith, q, l))))

  pub deliver-queue :
      (r : R) (qs : List R) (c : Chan R)
      → record (deliver r c) { queue = qs } ≡ record c { queue = qs }
  unfolding deliver
  deliver-queue r qs c =
      if_ind (λ (x : Chan R). record x { queue = qs } ≡ record c { queue = qs })
        (ltb (length c.queue) c.capacity) (λ _. refl) (λ _. refl)

  publish-one :
      (r : R) (w : World R) (a : ℕ) (c : Chan R)
      → Inv w
      → w.chans a ≡ some c
      → c.closed ≡ false
      → (w' : World R) × (publish r w ≡ some w') × Inv w' × (w'.chans a ≡ some (deliver r c))
  publish-one r w a c v p q =
      let (w', e, h, _, _) = publish-Changes r w v in
      let (w'', e', v') = publish-Inv r w v in
      (
        w',
        e,
        subst Inv (some-injective w'' w' (sym e' ∙ e)) v',
        h.inside a c (v.Open-sub a (c, p, q)) p,
      )

  -- A subscriber whose channel is open and that receives nothing while `rs` are published has them in
  -- its queue in their order, behind what the queue held, as far as its buffer goes; the rest is
  -- dropped. Publishing does not wait or panic.
  pub publish_all-queue :
      (rs : List R) (w : World R) (a : ℕ) (c : Chan R)
      → Inv w
      → w.chans a ≡ some c
      → c.closed ≡ false
      → (w' : World R) × (publish_all rs w ≡ some w')
        × Inv w'
        × (w'.chans a ≡ some (record c { queue = take c.capacity (c.queue ++ rs) }))
  unfolding publish_all
  publish_all-queue [] w a c v p q = (
    w,
    refl,
    v,
    p
        ∙ ap (λ q. some (record c { queue = q }))
            (sym (
              ap (take c.capacity) (append-nil c.queue)
              ∙ take-all c.capacity c.queue (v.bounded a c p).0)),
  )
  publish_all-queue (r ∷ rs) w a c v p q =
      let (w₁, e₁, v₁, p₁) = publish-one r w a c v p q in
      let (w₂, e₂, v₂, p₂) =
        publish_all-queue rs w₁ a (deliver r c) v₁ p₁ (deliver-closed r c ∙ q) in
      (
        w₂,
        ap (λ o. elim o [ none ↦ none | some w' ↦ publish_all rs w' ]) e₁ ∙ e₂,
        v₂,
        p₂
            ∙ ap some (
                ap (λ z. record (deliver r c) { queue = z })
                  (deliver-take r rs c (v.bounded a c p).0)
                ∙ deliver-queue r (take c.capacity (c.queue ++ r ∷ rs)) c),
      )

  -- After `Close` every channel is closed and keeps its queue, and the hub publishes nothing more: a
  -- second `Close` and any `Publish` change nothing.
  pub close-ends :
      (w : World R)
      → Inv w
      → (w' : World R) × (close w ≡ some w')
        × ((a : ℕ) (c : Chan R) → w.chans a ≡ some c → w'.chans a ≡ some (shut_chan c))
        × (close w' ≡ some w')
        × ((r : R) → publish r w' ≡ some w')
  unfolding close close_in publish publish_in
  close-ends w v =
      let (w', e, h, eh, _) = close-Changes w v in
      (
        w',
        e,
        λ a c p. elim (Bool-cases c.closed) [
          | inl q ↦ h.outside a (λ i. still a c p q (v.sub-Open a i)) ∙ p ∙ ap some (shut_again c q)
          | inr q ↦ h.inside a c (v.Open-sub a (c, p, q)) p
        ],
        subst (λ o. close_in o w' ≡ some w') (sym eh) refl,
        λ r. subst (λ o. publish_in r o w' ≡ some w') (sym eh) refl,
      )
    where
      still : (a : ℕ) (c : Chan R) → w.chans a ≡ some c → c.closed ≡ true → Open w.chans a → ⊥
      still a c p q (c', p', q') =
          true_or_false (sym q ∙ ap (λ x. x.closed) (some-injective c c' (sym p ∙ p')) ∙ q')

      shut_again : (c : Chan R) → c.closed ≡ true → c ≡ shut_chan c
      shut_again c q i = record c { closed = q i }

  -- The results of `n` receives.
  unfoldable pub receive_n : ℕ → ℕ → World R → World R × List (Received R)
  receive_n zero a w = (w, [])
  receive_n (suc n) a w =
      let (w', x) = receive a w in let (w'', xs) = receive_n n a w' in (w'', x ∷ xs)

  abbrev pub ends : ℕ → List (Received R)
  ends zero = []
  ends (suc n) = end ∷ ends n

  receive-one :
      (a : ℕ) (w : World R) (c : Chan R)
      → w.chans a ≡ some c
      → receive a w ≡ receive_from a c c.queue w
  unfolding receive
  receive-one a w c p =
      subst
        (λ o.
          elim o [ none ↦ (w, wait) | some c' ↦ receive_from a c' c'.queue w ]
          ≡ receive_from a c c.queue w)
        (sym p) refl

  next :
      (n a : ℕ) (w : World R) {w' : World R} {x : Received R}
      → receive a w ≡ (w', x)
      → (receive_n (suc n) a w).1 ≡ x ∷ (receive_n n a w').1
  unfolding receive_n
  next n a w e = ap (λ (y : World R × Received R). y.1 ∷ (receive_n n a y.0).1) e

  at_count : {m n : ℕ} (a : ℕ) (w : World R) → m ≡ n → (receive_n m a w).1 ≡ (receive_n n a w).1
  at_count a w e = ap (λ n. (receive_n n a w).1) e

  receive_n-closed :
      (qs : List R) (k : ℕ) (a : ℕ) (w : World R) (c : Chan R)
      → w.chans a ≡ some c
      → c.closed ≡ true
      → c.queue ≡ qs
      → (receive_n (length qs + k) a w).1 ≡ map item qs ++ ends k
  unfolding receive_n receive_from
  receive_n-closed [] zero a w c p q e =
      at_count {m = length {A = R} [] + 0} {n = 0} a w (omega arith)
  receive_n-closed [] (suc k) a w c p q e =
      at_count {m = length {A = R} [] + suc k} {n = suc k} a w (omega arith)
      ∙ next k a w (
          receive-one a w c p
          ∙ ap (λ qs. receive_from a c qs w) e
          ∙ ap (λ b. (w, if b then end else wait)) q)
      ∙ ap (◌∷◌ end) (
          at_count {m = k} {n = length {A = R} [] + k} a w (omega arith)
          ∙ receive_n-closed [] k a w c p q e)
  receive_n-closed (r ∷ qs) k a w c p q e =
      at_count {m = length (r ∷ qs) + k} {n = suc (length qs + k)} a w (omega arith)
      ∙ next (length qs + k) a w (receive-one a w c p ∙ ap (λ qs. receive_from a c qs w) e)
      ∙ ap (◌∷◌ (item r)) (
          receive_n-closed qs k a (record w { chans = put a (record c { queue = qs }) w.chans })
            (record c { queue = qs }) (put-hit a (record c { queue = qs }) w.chans) q refl)

  -- The records that a subscriber with an argument `buffer` gets when it receives late.
  abbrev pub kept : ℤ → List R → List R
  kept buffer rs = take (if leb_ℤ buffer (pos 0) then 256 else pos_part buffer) rs

  subscribe-new :
      (buffer : ℤ) (w : World R) (v : Inv w)
      → v.hub.closed ≡ false
      → (subscribe buffer w).0.chans (subscribe buffer w).1 ≡ some (make_chan buffer false)
  unfolding subscribe subscribe_in
  subscribe-new buffer w v q =
      subst (λ o. New (subscribe_in buffer o w)) (sym v.at_hub)
        (if_ind New v.hub.closed (λ q'. absurd (true_or_false (sym q' ∙ q)))
          (λ _. put-hit w.next (make_chan buffer false) w.chans))
    where
      New : World R × ℕ × Cancel → Type ℓ
      New (w', a, _) = w'.chans a ≡ some (make_chan buffer false)

  -- A subscriber of an open hub that receives only after `rs` were published and the hub was closed
  -- gets the first of them, as many as its buffer holds (256 where the argument of `Subscribe` is
  -- not positive), each once and in order; then every receive says that the channel is closed.
  pub subscribe-publish-close-receive :
      (buffer : ℤ) (rs : List R) (k : ℕ) (w : World R) (v : Inv w)
      → v.hub.closed ≡ false
      → let (w₁, a, _) = subscribe buffer w in
        (w₂ : World R) × (w₃ : World R) × (publish_all rs w₁ ≡ some w₂)
        × (close w₂ ≡ some w₃)
        × ((receive_n (length (kept buffer rs) + k) a w₃).1 ≡ map item (kept buffer rs) ++ ends k)
  unfolding make_chan
  subscribe-publish-close-receive buffer rs k w v q =
      let (w₁, a, _) = subscribe buffer w in
      let (w₂, e₂, v₂, p₂) =
        publish_all-queue rs w₁ a (make_chan buffer false) (subscribe-Inv buffer w v)
          (subscribe-new buffer w v q) refl in
      let (w₃, e₃, keep, _, _) = close-ends w₂ v₂ in
      (w₂, w₃, e₂, e₃, receive_n-closed (kept buffer rs) k a w₃ _ (keep a _ p₂) refl refl)
