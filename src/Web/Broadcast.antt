-- ===== src/Web/Broadcast.antt =====
-- `broadcastLocked` of viewer/sap-web/server.go: it does not panic, and every subscriber gets the
-- snapshot.
use sap.Base.{ℕ, ◌≡◌, sym, ap, subst, ◌∙◌, inl, inr, Option, none, some}
use sap.Base.Lists.{In}
use mathlib.Core.Option.{some-injective}
use sap.Hub.{Chan}
use sap.Hub.Invariant.{Each, for_each-Each, Each-source, Each-fresh}
use sap.Hub.Safe.{Bounded}
use sap.Web.Server.{Templates, Snapshot, Server, status_of}
use sap.Web.Session.{offer, offer_to, broadcast_locked}
use sap.Web.Invariant.{
  last, Channels, Stored, Inv, offer-closed, offer_to-Open, offer-Bounded, offer-last,
}

-- A call ends in a server with the invariant.
abbrev pub Runs : Templates → Option Server → Type 0
Runs t o = (s' : Server) × (o ≡ some s') × Inv t s'

-- Every subscriber has been offered the snapshot, no other channel has changed, and nothing else of
-- the server.
abbrev pub Broadcast : Snapshot → Server → Option (Server × Snapshot) → Type 0
Broadcast snap s o =
    (m : ℕ → Option (Chan Snapshot)) × (o ≡ some (record s { chans = m }, snap))
    × Each (offer snap) s.subscribers s.chans m

module _ (snap : Snapshot) (s : Server) (v : Channels s) where
  -- On a server whose subscribers are exactly its open channels, a broadcast neither panics nor
  -- waits: each subscriber is offered the snapshot once, and nothing else changes.
  pub broadcast_locked-Broadcast : Broadcast snap s (broadcast_locked snap s)
  unfolding broadcast_locked
  broadcast_locked-Broadcast =
      let (m, e, h) =
        for_each-Each (offer snap) (offer_to snap) (offer_to-Open snap) s.subscribers s.chans
          v.distinct v.sub-Open in
      (
        m,
        ap
            (λ (o : Option (ℕ → Option (Chan Snapshot))). elim o [
              | none ↦ none
              | some m ↦ some (record s { chans = m }, snap)
            ])
            e,
        h,
      )

  module _ (m : ℕ → Option (Chan Snapshot)) (h : Each (offer snap) s.subscribers s.chans m) where
    offered-Channels : Channels (record s { chans = m })
    offered-Channels = record {
      distinct = v.distinct;
      sub-Open = λ a i.
          let (c, p, q) = v.sub-Open a i in
          (offer snap c, h.inside a c i p, offer-closed snap c ∙ q);
      Open-sub = λ a (c', p', q').
          let (c, p, d) = Each-source v.sub-Open h a c' p' in
          elim d [
            | inl (i, _) ↦ i
            | inr (n, e') ↦ v.Open-sub a (c, p, sym (ap (λ x. x.closed) e') ∙ q')
          ];
      fresh = λ a l. Each-fresh v.sub-Open h a (v.fresh a l);
      bounded = λ a c' p'.
          let (c, p, d) = Each-source v.sub-Open h a c' p' in
          elim d [
            | inl (_, e) ↦ subst Bounded (sym e) (offer-Bounded snap c (v.bounded a c p))
            | inr (_, e) ↦ subst Bounded (sym e) (v.bounded a c p)
          ];
    }

    -- The newest item of every subscriber is the snapshot.
    pub offered-last :
        (a : ℕ) (c : Chan Snapshot) → In a s.subscribers → m a ≡ some c → last c.queue ≡ some snap
    offered-last a c' i p' =
        let (c, p, _) = v.sub-Open a i in
        subst (λ (x : Chan Snapshot). last x.queue ≡ some snap)
          (some-injective (offer snap c) c' (sym (h.inside a c i p) ∙ p'))
          (offer-last snap c (v.bounded a c p))

  -- After a broadcast of a snapshot with the current status line the invariant holds.
  pub broadcast_locked-Inv :
      (t : Templates)
      → Stored s
      → snap.status_html ≡ status_of t s
      → (s' : Server) × (broadcast_locked snap s ≡ some (s', snap)) × Inv t s'
  unfolding status_of
  broadcast_locked-Inv t st e =
      let (m, b, h) = broadcast_locked-Broadcast in
      (
        record s { chans = m },
        b,
        record {
          channels = offered-Channels m h;
          stored = record { store-Inv = st.store-Inv; positive = st.positive; few = st.few };
          current = λ a c i p r l.
              ap (λ x. x.status_html) (some-injective r snap (sym l ∙ offered-last m h a c i p))
              ∙ e;
        },
      )
