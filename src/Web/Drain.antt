-- ===== src/Web/Drain.antt =====
-- A stream of viewer/sap-web/server.go that receives what waits for it.
use sap.Base.{
  ℕ, zero, suc, ◌≡◌, refl, sym, ap, subst, ◌∙◌, Option, none, some, List, [], ◌∷◌, ◌++◌, Bool, true,
  false, not, map,
}
use mathlib.Core.Option.{some-injective, some-ne-none}
use sap.Base.Int.{ℤ, if◌then◌else◌}
use sap.Base.Lists.{In, length}
use sap.Hub.{Chan, Received, item, wait, put}
use sap.Hub.Invariant.{put-hit}
use sap.Message.{Record}
use sap.Message.Proto.{Proto, Time}
use sap.Web.Server.{Templates, Snapshot, Server, new_server, status_of, root_ids}
use sap.Web.Session.{
  receive, receive_from, broadcast_locked, take_record, change_snapshot, apply_record,
}
use sap.Web.Invariant.{last, Channels, Inv}
use sap.Web.Broadcast.{broadcast_locked-Broadcast, offered-last}
use sap.Web.Announced.{
  with_state, Announced, set_connection_state-Announced, toggle_paused-Announced,
  clear_all-Announced,
}
use sap.Web.History.{
  Call, subscribes, unsubscribes, receives, applies, connects, toggles, clears, step, run,
  server_of, same-Channels, step-Runs, run-Runs, new_server-Inv,
}

unfoldable pub receive_n : ℕ → ℕ → Server → Server × List (Received Snapshot)
unfolding receive
receive_n zero a s = (s, [])
receive_n (suc n) a s =
    let (s', x) = receive a s in let (s'', xs) = receive_n n a s' in (s'', x ∷ xs)

receive-some :
    (a : ℕ) (c : Chan Snapshot) (s : Server)
    → s.chans a ≡ some c
    → receive a s ≡ receive_from a c c.queue s
unfolding receive
receive-some a c s e =
    ap
      (λ (o : Option (Chan Snapshot)). elim o [
        | none ↦ (s, wait)
        | some c ↦ receive_from a c c.queue s
      ])
      e

-- A receive, and the receives after it.
receive_n-step :
    (n a : ℕ) (s s' : Server) (x : Received Snapshot)
    → receive a s ≡ (s', x)
    → (receive_n (suc n) a s).1 ≡ x ∷ (receive_n n a s').1
unfolding receive_n
receive_n-step n a s s' x e = ap (λ (y : Server × Received Snapshot). y.1 ∷ (receive_n n a y.0).1) e

receive_n-queue :
    (q : List Snapshot) (a : ℕ) (c : Chan Snapshot) (s : Server)
    → s.chans a ≡ some c
    → c.queue ≡ q
    → c.closed ≡ false
    → (receive_n (suc (length q)) a s).1 ≡ map item q ++ wait ∷ []
unfolding receive_from receive_n
receive_n-queue [] a c s p e o = receive_n-step 0 a s s wait (
    receive-some a c s p
    ∙ ap (λ q. receive_from a c q s) e
    ∙ ap (λ (b : Bool). (s, if b then Received.end else wait)) o)
receive_n-queue (x ∷ q) a c s p e o =
    let c' : Chan Snapshot = record c { queue = q } in
    let s' : Server = record s { chans = put a c' s.chans } in
    receive_n-step (suc (length q)) a s s' (item x)
      (receive-some a c s p ∙ ap (λ q. receive_from a c q s) e)
    ∙ ap (λ xs. item x ∷ xs) (receive_n-queue q a c' s' (put-hit a c' s.chans) refl o)

-- A queue with a newest item is older items and that one.
last-split :
    (q : List Snapshot) (r : Snapshot)
    → last q ≡ some r
    → (older : List Snapshot) × (q ≡ older ++ r ∷ [])
last-split [] r e = absurd (some-ne-none r (sym e))
last-split (x ∷ []) r e = ([], ap (λ y. y ∷ []) (some-injective x r e))
last-split (x ∷ y ∷ ys) r e =
    let (older, q) = last-split (y ∷ ys) r e in (x ∷ older, ap (λ zs. x ∷ zs) q)

map-item-snoc :
    (older : List Snapshot) (r : Snapshot)
    → map item (older ++ r ∷ []) ++ wait ∷ [] ≡ map item older ++ item r ∷ wait ∷ []
map-item-snoc [] r = refl
map-item-snoc (x ∷ xs) r = ap (λ ys. item x ∷ ys) (map-item-snoc xs r)

else_branch : (b : Bool) (x y : Option Server) → not b ≡ true → (if b then x else y) ≡ y
else_branch true x y n = absurd (cc n)
else_branch false x y n = refl

-- Something waits for every subscriber.
abbrev Heard : Server → Type 0
Heard s =
    (a : ℕ) (c : Chan Snapshot)
    → In a s.subscribers
    → s.chans a ≡ some c
    → (r : Snapshot) × (last c.queue ≡ some r)

broadcast_locked-Heard :
    (snap : Snapshot) (s s' : Server)
    → Channels s
    → server_of (broadcast_locked snap s) ≡ some s'
    → Heard s'
broadcast_locked-Heard snap s s' v e =
    let (m, b, h) = broadcast_locked-Broadcast snap s v in
    subst Heard (some-injective (record s { chans = m }) s' (sym (ap server_of b) ∙ e))
      (λ a c i p. (snap, offered-last snap s v m h a c i p))

Announced-Heard :
    (t : Templates) (s s' : Server) (o : Option (Server × Snapshot))
    → Inv t s
    → Announced s o
    → server_of o ≡ some s'
    → Heard s'
Announced-Heard t s s' o v (snap, store, conn, paused, q) e =
    broadcast_locked-Heard snap (with_state store conn paused s) s'
      (same-Channels t v store conn paused) (ap server_of (sym q) ∙ e)

module _ (t : Templates) (p : Proto) where
  -- The calls that tell the subscribers of a change: a record that comes while the view is not
  -- paused, a state of the connection, a pause or its end, and a clear.
  abbrev pub announces : Call p → Server → Bool
  announces (applies none now) s = false
  announces (applies (some r) now) s = not s.paused
  announces (connects conn now) s = true
  announces (toggles now) s = true
  announces (clears now) s = true
  announces (subscribes now) s = false
  announces (unsubscribes a) s = false
  announces (receives a) s = false

  apply_record-Heard :
      (r : Record p.Timestamp) (now : Time) (s s' : Server)
      → Inv t s
      → not s.paused ≡ true
      → apply_record t p (some r) now s ≡ some s'
      → Heard s'
  unfolding apply_record take_record
  apply_record-Heard r now s s' v n e =
      broadcast_locked-Heard (change_snapshot t p (root_ids s.store.roots) (some r) now taken) taken
        s' (same-Channels t v taken.store s.conn s.paused)
        (sym (else_branch s.paused (some s) _ n) ∙ e)
    where
      taken : Server
      taken = take_record t p (some r) s

  step-Heard :
      (c : Call p) (s s' : Server)
      → Inv t s
      → announces c s ≡ true
      → step t p c s ≡ some s'
      → Heard s'
  unfolding step
  step-Heard (applies none now) s s' v n e = absurd (cc n)
  step-Heard (applies (some r) now) s s' v n e = apply_record-Heard r now s s' v n e
  step-Heard (connects conn now) s s' v n e =
      Announced-Heard t s s' _ v (set_connection_state-Announced t now s conn) e
  step-Heard (toggles now) s s' v n e =
      Announced-Heard t s s' _ v (toggle_paused-Announced t now s) e
  step-Heard (clears now) s s' v n e = Announced-Heard t s s' _ v (clear_all-Announced t now s) e
  step-Heard (subscribes now) s s' v n e = absurd (cc n)
  step-Heard (unsubscribes a) s s' v n e = absurd (cc n)
  step-Heard (receives a) s s' v n e = absurd (cc n)

  -- After any calls of the methods of a new server and receives, and then a call that tells the
  -- subscribers of a change: a subscriber that receives as often as it has items waiting gets at
  -- least one, then has to wait, and the last that it got has the status line of the server as it is.
  pub receive_n-current :
      (max_roots : ℤ) (allow : Bool) (cs : List (Call p)) (c : Call p) (s s' : Server) (a : ℕ)
      (ch : Chan Snapshot)
      → run t p cs (new_server max_roots allow) ≡ some s
      → announces c s ≡ true
      → step t p c s ≡ some s'
      → In a s'.subscribers
      → s'.chans a ≡ some ch
      → (older : List Snapshot) × (newest : Snapshot) × ((receive_n (suc (length ch.queue)) a s').1
          ≡ map item older ++ item newest ∷ wait ∷ [])
        × (newest.status_html ≡ status_of t s')
  receive_n-current max_roots allow cs c s s' a ch e n q i h =
      let (s₁, e₁, v₁) =
        run-Runs t p cs (new_server max_roots allow) (new_server-Inv t p max_roots allow) in
      let v : Inv t s = subst (Inv t) (some-injective s₁ s (sym e₁ ∙ e)) v₁ in
      let (s₂, e₂, v₂) = step-Runs t p c s v in
      let v' : Inv t s' = subst (Inv t) (some-injective s₂ s' (sym e₂ ∙ q)) v₂ in
      let (r, l) = step-Heard c s s' v n q a ch i h in
      let (older, o) = last-split ch.queue r l in
      let (c', p', o') = v'.channels.sub-Open a i in
      (
        older,
        r,
        receive_n-queue ch.queue a ch s' h refl (
              subst (λ (x : Chan Snapshot). x.closed ≡ false) (some-injective c' ch (sym p' ∙ h))
                o')
            ∙ ap (λ q. map item q ++ wait ∷ []) o
            ∙ map-item-snoc older r,
        v'.current a ch i h r l,
      )
