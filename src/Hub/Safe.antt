-- ===== src/Hub/Safe.antt =====
-- The methods of hub.go that publish and close, on a hub that satisfies the invariant.
use sap.Base.{
  ℕ, ◌≤◌, ◌<◌, ◌≡◌, refl, sym, ap, subst, ◌∙◌, inl, inr, Option, none, some, List, [], ◌∷◌, true,
  false, arith,
}
use sap.Base.Lists.{In, not-In-nil, length, length-append}
use sap.Base.Text.{if_ind}
use sap.Hub.{
  Chan, Hub, World, put, deliver, try_send, close_chan, publish, publish_in, close, close_in,
}
use sap.Hub.Invariant.{Inv, Each, for_each-Each, Each-source, Each-fresh}

abbrev pub closed_hub : Hub
closed_hub = record { subs = []; closed = true }

abbrev pub Bounded {ℓ} : {R : Type ℓ} → Chan R → Type 0
Bounded c = (length c.queue ≤ c.capacity) × (0 < c.capacity)

module _ {ℓ} {R : Type ℓ} where
  pub try_send-Open :
      (r : R) (a : ℕ) (c : Chan R) (m : ℕ → Option (Chan R))
      → m a ≡ some c
      → c.closed ≡ false
      → try_send r a m ≡ some (put a (deliver r c) m)
  unfolding try_send
  try_send-Open r a c m e q = ground (arith, e, q)

  abbrev pub shut_chan : Chan R → Chan R
  shut_chan c = record c { closed = true }

  pub close_chan-Open :
      (a : ℕ) (c : Chan R) (m : ℕ → Option (Chan R))
      → m a ≡ some c
      → c.closed ≡ false
      → close_chan a m ≡ some (put a (shut_chan c) m)
  unfolding close_chan
  close_chan-Open a c m e q = ground (arith, e, q)

  -- What a call does to each channel, to the hub and to the next address.
  abbrev pub Changes : (Chan R → Chan R) → List ℕ → World R → Option Hub → Option (World R) → Type ℓ
  Changes g subs w h o =
      (w' : World R) × (o ≡ some w')
      × Each g subs w.chans w'.chans
      × (w'.hub ≡ h)
      × (w'.next ≡ w.next)

  -- A closed hub has no subscriber, so that a loop over them changes nothing.
  Each-none :
      (g : Chan R → Chan R) (subs : List ℕ) (m : ℕ → Option (Chan R)) → subs ≡ [] → Each g subs m m
  Each-none g subs m e = record {
    inside = λ a c i _. absurd (not-In-nil a (subst (In a) e i));
    outside = λ a _. refl;
  }

  -- `Publish` on a hub with the invariant does not panic and delivers to each subscriber of the hub,
  -- in whatever order the subscribers stand; no other channel, and no part of the hub, changes.
  pub publish-Changes :
      (r : R) (w : World R) (v : Inv w) → Changes (deliver r) v.hub.subs w w.hub (publish r w)
  unfolding publish publish_in
  publish-Changes r w v =
      subst (λ o. C (publish_in r o w)) (sym v.at_hub)
        (if_ind C v.hub.closed
          (λ q. (w, refl, Each-none (deliver r) v.hub.subs w.chans (v.shut q), refl, refl))
          (λ q.
            let (m, e, h) =
              for_each-Each (deliver r) (try_send r) (try_send-Open r) v.hub.subs w.chans v.distinct
                v.sub-Open in
            subst (λ o. C (elim o [ none ↦ none | some m ↦ some (record w { chans = m }) ])) (sym e)
              (record w { chans = m }, refl, h, refl, refl)))
    where
      C : Option (World R) → Type ℓ
      C o = Changes (deliver r) v.hub.subs w w.hub o

  pub close-Changes :
      (w : World R) (v : Inv w) → Changes shut_chan v.hub.subs w (some closed_hub) (close w)
  unfolding close close_in
  close-Changes w v =
      subst (λ o. C (close_in o w)) (sym v.at_hub)
        (if_ind C v.hub.closed
          (λ q. (
            w,
            refl,
            Each-none shut_chan v.hub.subs w.chans (v.shut q),
            v.at_hub ∙ ap some (Hub-eq v.hub (v.shut q) q),
            refl,
          ))
          (λ q.
            let (m, e, h) =
              for_each-Each shut_chan close_chan close_chan-Open v.hub.subs w.chans v.distinct
                v.sub-Open in
            subst
              (λ o. C (elim o [
                | none ↦ none
                | some m ↦
                    some (record w { chans = m; hub = some (record { subs = []; closed = true }) })
              ]))
              (sym e) (record w { chans = m; hub = some closed_hub }, refl, h, refl, refl)))
    where
      C : Option (World R) → Type ℓ
      C o = Changes shut_chan v.hub.subs w (some closed_hub) o

      Hub-eq : (h : Hub) → h.subs ≡ [] → h.closed ≡ true → h ≡ closed_hub
      Hub-eq h e q i = record { subs = e i; closed = q i }

  pub deliver-closed : (r : R) (c : Chan R) → (deliver r c).closed ≡ c.closed
  unfolding deliver
  deliver-closed r c = ground arith

  pub deliver-Bounded : (r : R) (c : Chan R) → Bounded c → Bounded (deliver r c)
  unfolding deliver
  deliver-Bounded r c h = ground (arith, h, length-append c.queue (r ∷ []))

  Each-Bounded :
      {g : Chan R → Chan R} {w : World R} (w' : World R) (v : Inv w)
      → ((c : Chan R) → Bounded c → Bounded (g c))
      → Each g v.hub.subs w.chans w'.chans
      → (a : ℕ) (c' : Chan R) → w'.chans a ≡ some c'
      → Bounded c'
  Each-Bounded w' v hg h a c' p' =
      let (c, p, d) = Each-source v.sub-Open h a c' p' in
      elim d [
        | inl (i, e) ↦ subst Bounded (sym e) (hg c (v.bounded a c p))
        | inr (n, e) ↦ subst Bounded (sym e) (v.bounded a c p)
      ]

  pub publish-Inv :
      (r : R) (w : World R) → Inv w → (w' : World R) × (publish r w ≡ some w') × Inv w'
  publish-Inv r w v =
      let (w', e, h, eh, en) = publish-Changes r w v in
      (
        w',
        e,
        record {
          hub = v.hub;
          at_hub = eh ∙ v.at_hub;
          distinct = v.distinct;
          shut = v.shut;
          sub-Open = λ a i.
              let (c, p, q) = v.sub-Open a i in
              (deliver r c, h.inside a c i p, deliver-closed r c ∙ q);
          Open-sub = λ a (c', p', q').
              let (c, p, d) = Each-source v.sub-Open h a c' p' in
              elim d [
                | inl (i, _) ↦ i
                | inr (n, e') ↦ v.Open-sub a (c, p, sym (ap (λ x. x.closed) e') ∙ q')
              ];
          fresh = λ a l. Each-fresh v.sub-Open h a (v.fresh a (subst (λ n. n ≤ a) en l));
          bounded = Each-Bounded w' v (deliver-Bounded r) h;
        },
      )

  pub close-Inv : (w : World R) → Inv w → (w' : World R) × (close w ≡ some w') × Inv w'
  close-Inv w v =
      let (w', e, h, eh, en) = close-Changes w v in
      (
        w',
        e,
        record {
          hub = closed_hub;
          at_hub = eh;
          distinct = tt;
          shut = λ _. refl;
          sub-Open = λ a i. absurd (not-In-nil a i);
          Open-sub = λ a (c', p', q').
              let (c, p, d) = Each-source v.sub-Open h a c' p' in
              absurd (elim d [
                | inl (i, e') ↦ not_both (sym (ap (λ x. x.closed) e') ∙ q')
                | inr (n, e') ↦ n (v.Open-sub a (c, p, sym (ap (λ x. x.closed) e') ∙ q'))
              ]);
          fresh = λ a l. Each-fresh v.sub-Open h a (v.fresh a (subst (λ n. n ≤ a) en l));
          bounded = Each-Bounded w' v (λ c b. b) h;
        },
      )
    where
      not_both : true ≡ false → ⊥
      not_both q = cc q
