-- ===== src/Hub/Concurrent/Turns.antt =====
-- Calls of Publish of hub.go that are under way at once: no turn panics.
use sap.Base.{
  ℕ, zero, suc, ◌≤◌, ◌≡◌, refl, sym, ap, subst, ◌∙◌, Option, none, some, List, [], ◌∷◌, if_pos,
  ℕ_discrete,
}
use mathlib.Core.Option.{some-injective}
use sap.Base.Lists.{In, here, there, All, length}
use sap.Base.Text.{and_then, if_ind, Option-ind}
use sap.Hub.{Chan, Hub, World, Received, new_hub, put, deliver, receive, receive_from}
use sap.Hub.Invariant.{Open, Inv, put-miss}
use sap.Hub.Safe.{deliver-Bounded, deliver-closed, try_send-Open, close-Inv}
use sap.Hub.Calls.{set_queue-Inv, subscribe-Inv, cancel-Inv, receive-Inv, Runs}
use sap.Hub.Delivery.{deliver-queue}
use sap.Hub.History.{new_hub-Inv}
use sap.Hub.Concurrent.{
  Shared, Turn, enters, goes_on, subscribes, stops, closes, receives, enter, go_on, exclusive, turn,
  turns,
}

module _ {ℓ} {R : Type ℓ} where
  -- The channels that a call of Publish has before it are open.
  abbrev pub Before : (ℕ → Option (Chan R)) → R × List ℕ → Type ℓ
  Before m p = (a : ℕ) → In a p.1 → Open m a

  pub record Safe (s : Shared R) : Type ℓ where
    pub inv : Inv s.world
    pub before : All (Before s.world.chans) s.publishing

  -- Open channels that stay open.
  abbrev Keeps : (ℕ → Option (Chan R)) → (ℕ → Option (Chan R)) → Type ℓ
  Keeps m m' = (a : ℕ) → Open m a → Open m' a

  Before-Keeps :
      (m m' : ℕ → Option (Chan R)) (ps : List (R × List ℕ))
      → Keeps m m'
      → All (Before m) ps
      → All (Before m') ps
  Before-Keeps m m' [] h v = tt
  Before-Keeps m m' (p ∷ ps) h v = (λ a i. h a (v.0 a i), Before-Keeps m m' ps h v.1)

  put-Keeps :
      (a : ℕ) (c c' : Chan R) (m : ℕ → Option (Chan R))
      → m a ≡ some c
      → c'.closed ≡ c.closed
      → Keeps m (put a c' m)
  put-Keeps a c c' m e q b (x, p, o) = elim (ℕ_discrete b a) [
    | yes i ↦ (
      c',
      if_pos (ℕ_discrete b a) i _ _,
      q ∙ ap (λ y. y.closed) (some-injective c x (sym e ∙ ap m (sym i) ∙ p)) ∙ o,
    )
    | no n ↦ (x, put-miss a b c' m n ∙ p, o)
  ]

  -- A turn of a call under way: it does not panic, and leaves the invariant.
  abbrev Goes : World R → Option (List (R × List ℕ) × (ℕ → Option (Chan R))) → Type ℓ
  Goes w o =
      (ps : List (R × List ℕ)) × (m : ℕ → Option (Chan R)) × (o ≡ some (ps, m))
      × Inv (record w { chans = m })
      × All (Before m) ps
      × Keeps w.chans m

  deliver-Inv :
      (r : R) (a : ℕ) (c : Chan R) (w : World R)
      → Inv w
      → w.chans a ≡ some c
      → Inv (record w { chans = put a (deliver r c) w.chans })
  deliver-Inv r a c w v p =
      subst (λ (x : Chan R). Inv (record w { chans = put a x w.chans }))
        (sym (deliver-queue r (deliver r c).queue c))
        (set_queue-Inv w v a c p (deliver r c).queue (
          subst (λ n. length (deliver r c).queue ≤ n) (ap (λ x. x.capacity) (deliver-queue r [] c))
            (deliver-Bounded r c (v.bounded a c p)).0))

  go_on-Goes :
      (n : ℕ) (ps : List (R × List ℕ)) (w : World R)
      → Inv w
      → All (Before w.chans) ps
      → Goes w (go_on n ps w.chans)
  unfolding go_on
  go_on-Goes n [] w v b = ([], w.chans, refl, v, tt, λ a o. o)
  go_on-Goes zero ((r, []) ∷ ps) w v b = (ps, w.chans, refl, v, b.1, λ a o. o)
  go_on-Goes zero ((r, a ∷ todo) ∷ ps) w v b =
      let (c, p, q) = b.0 a (here a refl) in
      let kept = put-Keeps a c (deliver r c) w.chans p (deliver-closed r c) in
      (
        (r, todo) ∷ ps,
        put a (deliver r c) w.chans,
        ap (λ o. and_then o (λ m'. some ((r, todo) ∷ ps, m'))) (try_send-Open r a c w.chans p q),
        deliver-Inv r a c w v p,
        (
          λ d i. kept d (b.0 d (there a i)),
          Before-Keeps w.chans (put a (deliver r c) w.chans) ps kept b.1,
        ),
        kept,
      )
  go_on-Goes (suc n) (p ∷ ps) w v b =
      let (ps', m, e, v', b', kept) = go_on-Goes n ps w v b.1 in
      (
        p ∷ ps',
        m,
        ap (λ o. and_then o (λ x. some (p ∷ x.0, x.1))) e,
        v',
        (λ d i. kept d (b.0 d i), b'),
        kept,
      )

  -- A turn that does not panic and leaves the invariant.
  abbrev pub Holds : Option (Shared R) → Type ℓ
  Holds o = (s' : Shared R) × (o ≡ some s') × Safe s'

  exclusive-Holds :
      (ps : List (R × List ℕ)) (o : Option (World R)) (s : Shared R)
      → s.publishing ≡ ps
      → Safe s
      → Runs o
      → Holds (exclusive ps o s)
  unfolding exclusive
  exclusive-Holds [] o s e v (w, eo, vw) = (
    record s { world = w },
    ap (λ x. and_then x (λ w. some (record s { world = w }))) eo,
    record { inv = vw; before = subst (All (Before w.chans)) (sym e) tt },
  )
  exclusive-Holds (p ∷ ps) o s e v h = (s, refl, v)

  enter-Safe :
      (r : R) (o : Option Hub) (s : Shared R) → s.world.hub ≡ o → Safe s → Safe (enter r o s)
  unfolding enter
  enter-Safe r none s e v = v
  enter-Safe r (some h) s e v =
      if_ind Safe h.closed (λ _. v)
        (λ _. record {
          inv = v.inv;
          before = (
            λ a i. v.inv.sub-Open a (
                subst (λ (g : Hub). In a g.subs) (some-injective h v.inv.hub (sym e ∙ v.inv.at_hub))
                  i),
            v.before,
          );
        })

  receive-Keeps : (a : ℕ) (w : World R) → Keeps w.chans (receive a w).0.chans
  unfolding receive receive_from
  receive-Keeps a w =
      Option-ind (λ (x : World R × Received R). Keeps w.chans x.0.chans) (w.chans a) (λ _ b o. o)
        (λ c p. from c c.queue p)
    where
      from :
          (c : Chan R) (q : List R)
          → w.chans a ≡ some c
          → Keeps w.chans (receive_from a c q w).0.chans
      from c [] p = λ b o. o
      from c (x ∷ q) p = put-Keeps a c (record c { queue = q }) w.chans p refl

  turn-Holds : (x : Turn R) (s : Shared R) → Safe s → Holds (turn x s)
  unfolding turn
  turn-Holds (enters r) s v = (_, refl, enter-Safe r s.world.hub s refl v)
  turn-Holds (goes_on n) s v =
      let (ps, m, e, v', b, _) = go_on-Goes n s.publishing s.world v.inv v.before in
      (
        record s { publishing = ps; world = record s.world { chans = m } },
        ap
            (λ o.
              and_then o
                (λ x. some (record s { publishing = x.0; world = record s.world { chans = x.1 } })))
            e,
        record { inv = v'; before = b },
      )
  turn-Holds (subscribes buffer) s v =
      exclusive-Holds s.publishing _ s refl v (_, refl, subscribe-Inv buffer s.world v.inv)
  turn-Holds (stops k) s v = exclusive-Holds s.publishing _ s refl v (cancel-Inv k s.world v.inv)
  turn-Holds closes s v = exclusive-Holds s.publishing _ s refl v (close-Inv s.world v.inv)
  turn-Holds (receives a) s v = (
    _,
    refl,
    record {
      inv = receive-Inv a s.world v.inv;
      before =
          Before-Keeps s.world.chans (receive a s.world).0.chans s.publishing
            (receive-Keeps a s.world) v.before;
    },
  )

  turns-Holds : (xs : List (Turn R)) (s : Shared R) → Safe s → Holds (turns xs s)
  unfolding turns
  turns-Holds [] s v = (s, refl, v)
  turns-Holds (x ∷ xs) s v =
      let (s', e, v') = turn-Holds x s v in
      let (s'', e', v'') = turns-Holds xs s' v' in
      (s'', ap (λ o. and_then o (turns xs)) e ∙ e', v'')

  -- However the sends of any number of calls of Publish, the receives, and the calls that take the
  -- lock for themselves come, no turn on a new hub panics: a channel that a call of Publish has yet
  -- to send to is open. At every moment the subscribers are exactly the open channels, each once, and
  -- no queue is longer than its buffer.
  pub turns-Safe :
      (xs : List (Turn R))
      → (s : Shared R) × (turns xs (record { world = new_hub; publishing = [] }) ≡ some s) × Safe s
  turns-Safe xs =
      turns-Holds xs (record { world = new_hub; publishing = [] })
        (record { inv = new_hub-Inv; before = tt })
