-- ===== src/Web/Limit.antt =====
-- The limit of roots of viewer/sap-web/server.go: `newServer` sets it, and no method changes it.
use sap.Base.{ℕ, zero, suc, ◌≡◌, refl, sym, subst, Option, none, some, List, [], ◌∷◌, Bool, arith}
use sap.Base.Int.{ℤ, pos, negsuc, pos_part}
use sap.Base.Text.{if_ind, Option-ind}
use sap.Hub.{Chan, Received, for_each, is_sub, close_chan}
use sap.Message.{Record}
use sap.Message.Proto.{Proto, Time}
use sap.Web.Server.{Templates, Snapshot, Server, new_server, root_ids}
use sap.Web.Session.{
  offer_to, broadcast_locked, unsubscribe, receive, receive_from, take_record, change_snapshot,
  apply_record,
}
use sap.Web.Announced.{with_state, Announced}

-- The number of roots that a viewer started with this flag keeps.
abbrev pub root_limit : ℤ → ℕ
root_limit (pos zero) = 50
root_limit (pos (suc n)) = suc n
root_limit (negsuc n) = 50

pub new_server-root_limit :
    (max_roots : ℤ) (allow : Bool)
    → pos_part (new_server max_roots allow).max_roots ≡ root_limit max_roots
unfolding new_server
new_server-root_limit (pos zero) allow = refl
new_server-root_limit (pos (suc n)) allow = ground arith
new_server-root_limit (negsuc n) allow = ground arith

-- A server, if there is one, has this limit.
abbrev pub Limited : ℤ → Option Server → Type 0
Limited m none = Unit
Limited m (some s) = s.max_roots ≡ m

abbrev LimitedWith : ℤ → Option (Server × Snapshot) → Type 0
LimitedWith m none = Unit
LimitedWith m (some (s, snap)) = s.max_roots ≡ m

forget_snapshot :
    (m : ℤ) (o : Option (Server × Snapshot))
    → LimitedWith m o
    → Limited m (elim o [ none ↦ none | some (s, snap) ↦ some s ])
forget_snapshot m none l = tt
forget_snapshot m (some (s, snap)) l = l

broadcast_locked-LimitedWith :
    (snap : Snapshot) (s : Server) → LimitedWith s.max_roots (broadcast_locked snap s)
unfolding broadcast_locked
broadcast_locked-LimitedWith snap s =
    Option-ind (LimitedWith s.max_roots) (for_each (offer_to snap) s.subscribers s.chans) (λ _. tt)
      (λ m _. refl)

receive_from-max_roots :
    (a : ℕ) (c : Chan Snapshot) (q : List Snapshot) (s : Server)
    → (receive_from a c q s).0.max_roots ≡ s.max_roots
unfolding receive_from
receive_from-max_roots a c [] s = refl
receive_from-max_roots a c (r ∷ rs) s = refl

pub receive-max_roots : (a : ℕ) (s : Server) → (receive a s).0.max_roots ≡ s.max_roots
unfolding receive
receive-max_roots a s =
    Option-ind (λ (x : Server × Received Snapshot). x.0.max_roots ≡ s.max_roots) (s.chans a)
      (λ _. refl) (λ c _. receive_from-max_roots a c c.queue s)

pub unsubscribe-Limited : (a : ℕ) (s : Server) → Limited s.max_roots (unsubscribe a s)
unfolding unsubscribe
unsubscribe-Limited a s =
    if_ind (Limited s.max_roots) (is_sub a s.subscribers)
      (λ _. Option-ind (Limited s.max_roots) (close_chan a s.chans) (λ _. tt) (λ m _. refl))
      (λ _. refl)

-- A method that broadcasts, without the snapshot.
pub Announced-Limited :
    (s : Server) (o : Option (Server × Snapshot))
    → Announced s o
    → Limited s.max_roots (elim o [ none ↦ none | some (s, snap) ↦ some s ])
Announced-Limited s o (snap, store, conn, paused, e) = forget_snapshot s.max_roots o (
    subst (LimitedWith s.max_roots) (sym e)
      (broadcast_locked-LimitedWith snap (with_state store conn paused s)))

pub apply_record-Limited :
    (t : Templates) (p : Proto) (r : Option (Record p.Timestamp)) (now : Time) (s : Server)
    → Limited s.max_roots (apply_record t p r now s)
unfolding apply_record take_record
apply_record-Limited t p none now s = refl
apply_record-Limited t p (some r) now s =
    if_ind (Limited s.max_roots) s.paused (λ _. refl)
      (λ _.
        let s' = take_record t p (some r) s in
        let snap = change_snapshot t p (root_ids s.store.roots) (some r) now s' in
        forget_snapshot s.max_roots (broadcast_locked snap s')
          (broadcast_locked-LimitedWith snap s'))
