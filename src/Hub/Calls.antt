-- ===== src/Hub/Calls.antt =====
-- Subscribe of hub.go, its cancel function and a receive, on a hub that satisfies the invariant.
use sap.Base.{
  ℕ, suc, ◌≤◌, ◌≡◌, refl, sym, ap, subst, ◌∙◌, ◌≢◌, ◌⊎◌, inl, inr, Option, none, some, List, [],
  ◌∷◌, Bool, true, false, if_pos, if_neg, ℕ_discrete, arith,
}
use mathlib.Core.Option.{some-injective, some-ne-none}
use sap.Base.Lists.{In, here, there, In-uncons, length}
use sap.Base.Remove.{remove, In-remove, remove-In, remove-Distinct}
use sap.Base.Int.{ℤ, pos, negsuc}
use sap.Base.Text.{if_ind, Option-ind}
use sap.Hub.{
  Chan, World, Cancel, no_op, cancels, put, make_chan, add_chan, subscribe, subscribe_in, is_sub,
  cancel, cancel_in, receive, receive_from, Received,
}
use sap.Hub.Invariant.{Open, Inv, put-miss}
use sap.Hub.Safe.{Bounded, shut_chan, close_chan-Open}

pub true_or_false : true ≡ false → ⊥
true_or_false e = cc e

pub is_sub-In : (a : ℕ) (bs : List ℕ) → is_sub a bs ≡ true → In a bs
unfolding is_sub
is_sub-In a [] e = absurd (true_or_false (sym e))
is_sub-In a (b ∷ bs) e = elim (ℕ_discrete a b) [
  | yes q ↦ here b q
  | no n ↦ there b (is_sub-In a bs (sym (if_neg (ℕ_discrete a b) n _ _) ∙ e))
]

module _ {ℓ} {R : Type ℓ} where
  pub put-cases :
      (a b : ℕ) (c c' : Chan R) (m : ℕ → Option (Chan R))
      → put a c m b ≡ some c'
      → ((b ≡ a) × (c' ≡ c)) ⊎ ((b ≢ a) × (m b ≡ some c'))
  put-cases a b c c' m e = elim (ℕ_discrete b a) [
    | yes q ↦ inl (q, some-injective c' c (sym e ∙ if_pos (ℕ_discrete b a) q _ _))
    | no n ↦ inr (n, sym (put-miss a b c m n) ∙ e)
  ]

  make_chan-Bounded :
      (c : Chan R) (buffer : ℤ) (closed : Bool) → c ≡ make_chan buffer closed → Bounded c
  unfolding make_chan
  make_chan-Bounded c (pos n) closed e = subst Bounded (sym e) (ground arith)
  make_chan-Bounded c (negsuc n) closed e = subst Bounded (sym e) (ground arith)

  -- A channel at the next address, which the hub has as a subscriber if the channel is open.
  module _ (w : World R) (v : Inv w) (c : Chan R) (b : Bounded c) where
    not_next : (a : ℕ) (c' : Chan R) → w.chans a ≡ some c' → a ≢ w.next
    not_next a c' p e = some-ne-none c' (sym p ∙ v.fresh a (subst (λ n. n ≤ a) e (omega arith)))

    add-fresh : (a : ℕ) → suc w.next ≤ a → put w.next c w.chans a ≡ none
    add-fresh a l =
        put-miss w.next a c w.chans (λ e. ground (arith, e, l)) ∙ v.fresh a (omega (arith, l))

    add-Bounded : (a : ℕ) (c' : Chan R) → put w.next c w.chans a ≡ some c' → Bounded c'
    add-Bounded a c' e = elim (put-cases w.next a c c' w.chans e) [
      | inl (_, q) ↦ subst Bounded (sym q) b
      | inr (_, p) ↦ v.bounded a c' p
    ]

    add-Open : (a : ℕ) → Open w.chans a → Open (put w.next c w.chans) a
    add-Open a (c', p, q) = (c', put-miss w.next a c w.chans (not_next a c' p) ∙ p, q)

    add_closed-Inv : c.closed ≡ true → Inv (add_chan c w)
    unfolding add_chan
    add_closed-Inv q = record {
      hub = v.hub;
      at_hub = v.at_hub;
      distinct = v.distinct;
      shut = v.shut;
      sub-Open = λ a i. add-Open a (v.sub-Open a i);
      Open-sub = λ a (c', p', q'). elim (put-cases w.next a c c' w.chans p') [
        | inl (_, e) ↦ absurd (true_or_false (sym q ∙ sym (ap (λ x. x.closed) e) ∙ q'))
        | inr (_, p) ↦ v.Open-sub a (c', p, q')
      ];
      fresh = add-fresh;
      bounded = add-Bounded;
    }

    add_sub-Inv :
        c.closed ≡ false
        → v.hub.closed ≡ false
        → Inv (record (add_chan c w) { hub = some (record v.hub { subs = w.next ∷ v.hub.subs }) })
    unfolding add_chan
    add_sub-Inv q qh = record {
      hub = record v.hub { subs = w.next ∷ v.hub.subs };
      at_hub = refl;
      distinct =
          (λ i. let (c', p, _) = v.sub-Open w.next i in not_next w.next c' p refl, v.distinct);
      shut = λ e. absurd (true_or_false (sym e ∙ qh));
      sub-Open = λ a i. elim (In-uncons i) [
        | inl e ↦ (c, if_pos (ℕ_discrete a w.next) e _ _, q)
        | inr j ↦ add-Open a (v.sub-Open a j)
      ];
      Open-sub = λ a (c', p', q'). elim (put-cases w.next a c c' w.chans p') [
        | inl (e, _) ↦ here w.next e
        | inr (_, p) ↦ there w.next (v.Open-sub a (c', p, q'))
      ];
      fresh = add-fresh;
      bounded = add-Bounded;
    }

  pub subscribe-Inv : (buffer : ℤ) (w : World R) → Inv w → Inv (subscribe buffer w).0
  unfolding subscribe subscribe_in make_chan
  subscribe-Inv buffer w v =
      subst (λ o. Inv (subscribe_in buffer o w).0) (sym v.at_hub)
        (if_ind (λ (x : World R × ℕ × Cancel). Inv x.0) v.hub.closed
          (λ q.
            add_closed-Inv w v (make_chan buffer true)
              (make_chan-Bounded (make_chan buffer true) buffer true refl) refl)
          (λ q.
            add_sub-Inv w v (make_chan buffer false)
              (make_chan-Bounded (make_chan buffer false) buffer false refl) refl q))

  -- A call ends in a world with the invariant.
  abbrev pub Runs : Option (World R) → Type ℓ
  Runs o = (w' : World R) × (o ≡ some w') × Inv w'

  module _ (w : World R) (v : Inv w) (a : ℕ) (c : Chan R) (p : w.chans a ≡ some c) where
    -- An open channel that the hub gives up and closes.
    drop_sub-Inv :
        c.closed ≡ false
        → Inv (record w {
          chans = put a (shut_chan c) w.chans;
          hub = some (record v.hub { subs = remove ℕ_discrete a v.hub.subs });
        })
    drop_sub-Inv q = record {
      hub = record v.hub { subs = remove ℕ_discrete a v.hub.subs };
      at_hub = refl;
      distinct = remove-Distinct ℕ_discrete a v.hub.subs v.distinct;
      shut = λ e. ap (remove ℕ_discrete a) (v.shut e);
      sub-Open = λ b i.
          let (j, n) = remove-In ℕ_discrete b a v.hub.subs i in
          let (c', p', q') = v.sub-Open b j in (c', put-miss a b (shut_chan c) w.chans n ∙ p', q');
      Open-sub = λ b (c', p', q'). elim (put-cases a b (shut_chan c) c' w.chans p') [
        | inl (_, e) ↦ absurd (true_or_false (sym (ap (λ x. x.closed) e) ∙ q'))
        | inr (n, p'') ↦ In-remove ℕ_discrete b a v.hub.subs (v.Open-sub b (c', p'', q')) n
      ];
      fresh = λ b l. put-miss a b (shut_chan c) w.chans (not_a b l) ∙ v.fresh b l;
      bounded = λ b c' e. elim (put-cases a b (shut_chan c) c' w.chans e) [
        | inl (_, q') ↦ subst Bounded (sym q') (v.bounded a c p)
        | inr (_, p') ↦ v.bounded b c' p'
      ];
    }
      where
        not_a : (b : ℕ) → w.next ≤ b → b ≢ a
        not_a b l e = some-ne-none c (sym p ∙ ap w.chans (sym e) ∙ v.fresh b l)

    -- A channel with another queue.
    pub set_queue-Inv :
        (rs : List R)
        → length rs ≤ c.capacity
        → Inv (record w { chans = put a (record c { queue = rs }) w.chans })
    set_queue-Inv rs h = record {
      hub = v.hub;
      at_hub = v.at_hub;
      distinct = v.distinct;
      shut = v.shut;
      sub-Open = λ b i. elim (ℕ_discrete b a) [
        | yes e ↦ (
          record c { queue = rs },
          if_pos (ℕ_discrete b a) e _ _,
          (let (c', p', q') = v.sub-Open b i in
              ap (λ x. x.closed) (some-injective c c' (sym p ∙ ap w.chans (sym e) ∙ p')) ∙ q'),
        )
        | no n ↦ (let (c', p', q') = v.sub-Open b i in (c', put-miss a b _ w.chans n ∙ p', q'))
      ];
      Open-sub = λ b (c', p', q'). elim (put-cases a b (record c { queue = rs }) c' w.chans p') [
        | inl (e, e') ↦ v.Open-sub b (c, ap w.chans e ∙ p, sym (ap (λ x. x.closed) e') ∙ q')
        | inr (n, p'') ↦ v.Open-sub b (c', p'', q')
      ];
      fresh = λ b l. put-miss a b _ w.chans (not_a b l) ∙ v.fresh b l;
      bounded = λ b c' e. elim (put-cases a b (record c { queue = rs }) c' w.chans e) [
        | inl (_, q') ↦ subst Bounded (sym q') (h, (v.bounded a c p).1)
        | inr (_, p') ↦ v.bounded b c' p'
      ];
    }
      where
        not_a : (b : ℕ) → w.next ≤ b → b ≢ a
        not_a b l e = some-ne-none c (sym p ∙ ap w.chans (sym e) ∙ v.fresh b l)

  pub cancel-Inv : (k : Cancel) (w : World R) → Inv w → Runs (cancel k w)
  unfolding cancel cancel_in
  cancel-Inv no_op w v = (w, refl, v)
  cancel-Inv (cancels a) w v =
      subst (λ o. Runs (cancel_in a o w)) (sym v.at_hub)
        (if_ind Runs (is_sub a v.hub.subs)
          (λ q.
            let (c, p, o) = v.sub-Open a (is_sub-In a v.hub.subs q) in
            subst
              (λ (m : Option (ℕ → Option (Chan R))). Runs (elim m [
                | none ↦ none
                | some m ↦ some (record w {
                  chans = m;
                  hub = some (record v.hub { subs = remove ℕ_discrete a v.hub.subs });
                })
              ]))
              (sym (close_chan-Open a c w.chans p o)) (_, refl, drop_sub-Inv w v a c p o))
          (λ q. (w, refl, v)))

  pub receive-Inv : (a : ℕ) (w : World R) → Inv w → Inv (receive a w).0
  unfolding receive receive_from
  receive-Inv a w v =
      Option-ind (λ (x : World R × Received R). Inv x.0) (w.chans a) (λ _. v)
        (λ c p. from c c.queue p refl)
    where
      from :
          (c : Chan R) (rs : List R)
          → w.chans a ≡ some c
          → c.queue ≡ rs
          → Inv (receive_from a c rs w).0
      from c [] p e = v
      from c (r ∷ rs) p e =
          set_queue-Inv w v a c p rs (omega (arith, ap length e, (v.bounded a c p).0))
