-- ===== src/Web/History.antt =====
-- The methods of viewer/sap-web/server.go in any order, with the receives of streams between them.
use sap.Base.{
  ℕ, ◌≤◌, ◌≡◌, refl, sym, ap, ◌∙◌, subst, Option, none, some, List, [], ◌∷◌, Bool, String, true,
  false, arith,
}
use mathlib.Core.Option.{some-ne-none}
use sap.Base.Int.{ℤ, pos_part}
use sap.Base.Text.{if_ind}
use sap.Message.{Record}
use sap.Message.Proto.{Proto, Time}
use sap.State.Tree.{count}
use sap.State.Store.{Store, clear, clear_open_spans, limit_roots, mark_open_spans_stale}
use sap.State.Apply.{apply}
use sap.State.Limit.{limit_roots-newest}
use sap.State.Invariant as StoreInvariant
use sap.State.Open.{count-clear_open_spans}
use sap.Sse.{State, no_state, connecting, connected, retrying, disconnected, ConnectionState}
use sap.Web.Server.{
  Templates, Rendered, Snapshot, Server, new_server, status_of, snapshot_locked,
  patch_snapshot_locked, status_snapshot_locked, root_ids, same_strings,
}
use sap.Web.Session.{
  unsubscribe, receive, subscribe, patch_or_all, announce_state, set_connection_state, flip_paused,
  toggle_paused, clear_all, take_record, change_snapshot, apply_record, broadcast_locked,
}
use sap.Web.Announced.{set_connection_state-Announced, toggle_paused-Announced, clear_all-Announced}
use sap.Web.Limit.{
  root_limit, new_server-root_limit, Limited, Announced-Limited, unsubscribe-Limited,
  receive-max_roots, apply_record-Limited,
}
use sap.Web.Invariant.{Channels, Stored, Inv}
use sap.Web.Broadcast.{Runs, broadcast_locked-Inv}
use sap.Web.Subscribers.{subscribe-Inv, unsubscribe-Runs, receive-Inv}
use sap.Base.Lists.{not-In-nil}

-- A method that broadcasts, as a step of the server.
abbrev pub server_of : Option (Server × Snapshot) → Option Server
server_of o = elim o [ none ↦ none | some (s, snap) ↦ some s ]

module _ (t : Templates) where
  -- A full snapshot, a patch and a status snapshot carry the current status line.
  snapshot-status :
      (now : Time) (s : Server) → (snapshot_locked t now s).status_html ≡ status_of t s
  unfolding snapshot_locked
  snapshot-status now s = refl

  patch-status :
      (r : Option Rendered) (now : Time) (s : Server)
      → (patch_or_all t r now s).status_html ≡ status_of t s
  unfolding patch_or_all patch_snapshot_locked snapshot_locked
  patch-status none now s = refl
  patch-status (some r) now s = refl

  broadcast-Runs :
      (s : Server) (snap : Snapshot)
      → Channels s
      → Stored s
      → snap.status_html ≡ status_of t s
      → Runs t (server_of (broadcast_locked snap s))
  broadcast-Runs s snap v st e =
      let (s', b, i) = broadcast_locked-Inv snap s v t st e in (s', ap server_of b, i)

  module _ {s : Server} (v : Inv t s) where
    pub same-Channels :
        (store : Store) (conn : ConnectionState) (paused : Bool)
        → Channels (record s { store = store; conn = conn; paused = paused })
    same-Channels store conn paused = record {
      distinct = v.channels.distinct;
      sub-Open = v.channels.sub-Open;
      Open-sub = v.channels.Open-sub;
      fresh = v.channels.fresh;
      bounded = v.channels.bounded;
    }

    -- Another store that is well formed and not above the limit.
    as-Stored :
        (store : Store) (conn : ConnectionState) (paused : Bool)
        → StoreInvariant.Inv store
        → count store.roots ≤ pos_part s.max_roots
        → Stored (record s { store = store; conn = conn; paused = paused })
    as-Stored store conn paused i l = record {
      store-Inv = i;
      positive = v.stored.positive;
      few = l;
    }

    same-Stored :
        (conn : ConnectionState) (paused : Bool)
        → Stored (record s { conn = conn; paused = paused })
    same-Stored conn paused = as-Stored s.store conn paused v.stored.store-Inv v.stored.few

    marked-Stored :
        (conn : ConnectionState) (now : Time)
        → Stored (record s { conn = conn; store = mark_open_spans_stale s.store now })
    unfolding mark_open_spans_stale
    marked-Stored conn now =
        as-Stored (mark_open_spans_stale s.store now) conn s.paused
          (StoreInvariant.mark_open_spans_stale-Inv now v.stored.store-Inv) v.stored.few

    announce_state-Runs :
        (conn : ConnectionState) (state : State) (now : Time)
        → Runs t (server_of (announce_state t state now (record s { conn = conn })))
    unfolding announce_state status_snapshot_locked
    announce_state-Runs conn connected now =
        let conn' : ConnectionState = record conn { err = "" } in
        broadcast-Runs (record s { conn = conn' }) _ (same-Channels s.store conn' s.paused)
          (same-Stored conn' s.paused) refl
    announce_state-Runs conn retrying now =
        let s' : Server = record s { conn = conn; store = mark_open_spans_stale s.store now } in
        broadcast-Runs s' (snapshot_locked t now s') (same-Channels s'.store conn s.paused)
          (marked-Stored conn now) (snapshot-status now s')
    announce_state-Runs conn disconnected now =
        let s' : Server = record s { conn = conn; store = mark_open_spans_stale s.store now } in
        broadcast-Runs s' (snapshot_locked t now s') (same-Channels s'.store conn s.paused)
          (marked-Stored conn now) (snapshot-status now s')
    announce_state-Runs conn connecting now =
        broadcast-Runs (record s { conn = conn }) _ (same-Channels s.store conn s.paused)
          (same-Stored conn s.paused) refl
    announce_state-Runs conn no_state now =
        broadcast-Runs (record s { conn = conn }) _ (same-Channels s.store conn s.paused)
          (same-Stored conn s.paused) refl

    set_connection_state-Runs :
        (conn : ConnectionState) (now : Time)
        → Runs t (server_of (set_connection_state t conn now s))
    unfolding set_connection_state
    set_connection_state-Runs conn now = announce_state-Runs conn conn.state now

    clear_all-Runs : (now : Time) → Runs t (server_of (clear_all t now s))
    unfolding clear_all clear count
    clear_all-Runs now =
        let s' : Server = record s { store = clear s.store } in
        broadcast-Runs s' (snapshot_locked t now s') (same-Channels (clear s.store) s.conn s.paused)
          (as-Stored (clear s.store) s.conn s.paused (StoreInvariant.clear-Inv v.stored.store-Inv)
            (omega arith))
          (snapshot-status now s')

    flipped-Runs :
        (now : Time) (b : Bool)
        → Runs t (
            server_of
              (broadcast_locked (snapshot_locked t now (flip_paused t b s)) (flip_paused t b s)))
    unfolding flip_paused
    flipped-Runs now true =
        let s' : Server = record s { paused = false } in
        broadcast-Runs s' (snapshot_locked t now s') (same-Channels s.store s.conn false)
          (same-Stored s.conn false) (snapshot-status now s')
    flipped-Runs now false =
        let s' : Server = record s { paused = true; store = clear_open_spans s.store } in
        broadcast-Runs s' (snapshot_locked t now s') (same-Channels s'.store s.conn true)
          (as-Stored s'.store s.conn true (StoreInvariant.clear_open_spans-Inv v.stored.store-Inv)
            (omega (arith, count-clear_open_spans s.store, v.stored.few)))
          (snapshot-status now s')

    toggle_paused-Runs : (now : Time) → Runs t (server_of (toggle_paused t now s))
    unfolding toggle_paused
    toggle_paused-Runs now = flipped-Runs now s.paused

    module _ (p : Proto) where
      change-status :
          (before : List String) (r : Option (Record p.Timestamp)) (now : Time) (s' : Server)
          → (change_snapshot t p before r now s').status_html ≡ status_of t s'
      unfolding change_snapshot
      change-status before r now s' =
          if_ind (λ (x : Snapshot). x.status_html ≡ status_of t s')
            (same_strings before (root_ids s'.store.roots)) (λ _. patch-status _ now s')
            (λ _. snapshot-status now s')

      limited : (store : Store) → count (limit_roots s.max_roots store).roots ≤ pos_part s.max_roots
      limited store = omega (arith, (limit_roots-newest s.max_roots store).1)

      apply_record-Runs :
          (r : Option (Record p.Timestamp)) (now : Time) → Runs t (apply_record t p r now s)
      unfolding apply_record take_record
      apply_record-Runs none now = (s, refl, v)
      apply_record-Runs (some r) now =
          if_ind (Runs t) s.paused (λ _. (s, refl, v))
            (λ _.
              let st = limit_roots s.max_roots (apply p (some r) s.store) in
              let s' : Server = record s { store = st } in
              broadcast-Runs s' (change_snapshot t p (root_ids s.store.roots) (some r) now s')
                (same-Channels st s.conn s.paused)
                (as-Stored st s.conn s.paused
                  (StoreInvariant.limit_roots-Inv s.max_roots
                    (StoreInvariant.apply-Inv p (some r) v.stored.store-Inv))
                  (limited (apply p (some r) s.store)))
                (change-status (root_ids s.store.roots) (some r) now s'))

-- A call of a method, each at its time, or a receive by a stream.
pub data Call (p : Proto) : Type 0 where
  subscribes : Time → Call p
  unsubscribes receives : ℕ → Call p
  applies : Option (Record p.Timestamp) → Time → Call p
  connects : ConnectionState → Time → Call p
  toggles clears : Time → Call p

module _ (t : Templates) (p : Proto) where
  unfoldable pub step : Call p → Server → Option Server
  step (subscribes now) s = some (subscribe t now s).0
  step (unsubscribes a) s = unsubscribe a s
  step (receives a) s = some (receive a s).0
  step (applies r now) s = apply_record t p r now s
  step (connects conn now) s = server_of (set_connection_state t conn now s)
  step (toggles now) s = server_of (toggle_paused t now s)
  step (clears now) s = server_of (clear_all t now s)

  unfoldable pub run : List (Call p) → Server → Option Server
  unfolding step
  run [] s = some s
  run (c ∷ cs) s = elim (step c s) [ none ↦ none | some s' ↦ run cs s' ]

  pub step-Runs : (c : Call p) (s : Server) → Inv t s → Runs t (step c s)
  unfolding step
  step-Runs (subscribes now) s v = (_, refl, subscribe-Inv t s v now)
  step-Runs (unsubscribes a) s v = unsubscribe-Runs t s v a
  step-Runs (receives a) s v = (_, refl, receive-Inv t s v a)
  step-Runs (applies r now) s v = apply_record-Runs t v p r now
  step-Runs (connects conn now) s v = set_connection_state-Runs t v conn now
  step-Runs (toggles now) s v = toggle_paused-Runs t v now
  step-Runs (clears now) s v = clear_all-Runs t v now

  pub run-Runs : (cs : List (Call p)) (s : Server) → Inv t s → Runs t (run cs s)
  unfolding run
  run-Runs [] s v = (s, refl, v)
  run-Runs (c ∷ cs) s v =
      let (s', e, v') = step-Runs c s v in
      subst (λ o. Runs t (elim o [ none ↦ none | some s' ↦ run cs s' ])) (sym e) (run-Runs cs s' v')

  pub new_server-Inv : (max_roots : ℤ) (allow : Bool) → Inv t (new_server max_roots allow)
  unfolding new_server count
  new_server-Inv max_roots allow = record {
    channels = record {
      distinct = tt;
      sub-Open = λ a i. absurd (not-In-nil a i);
      Open-sub = λ a (c, p, _). absurd (some-ne-none c (sym p));
      fresh = λ _ _. refl;
      bounded = λ a c p. absurd (some-ne-none c (sym p));
    };
    stored = record {
      store-Inv = StoreInvariant.new_store-Inv allow;
      positive = ground arith;
      few = omega arith;
    };
    current = λ a c i. absurd (not-In-nil a i);
  }

  step-Limited : (c : Call p) (s : Server) → Limited s.max_roots (step c s)
  unfolding step subscribe
  step-Limited (subscribes now) s = refl
  step-Limited (unsubscribes a) s = unsubscribe-Limited a s
  step-Limited (receives a) s = receive-max_roots a s
  step-Limited (applies r now) s = apply_record-Limited t p r now s
  step-Limited (connects conn now) s =
      Announced-Limited s _ (set_connection_state-Announced t now s conn)
  step-Limited (toggles now) s = Announced-Limited s _ (toggle_paused-Announced t now s)
  step-Limited (clears now) s = Announced-Limited s _ (clear_all-Announced t now s)

  continue-Limited :
      (m : ℤ) (cs : List (Call p)) (o : Option Server)
      → Limited m o
      → ((s : Server) → Limited s.max_roots (run cs s))
      → Limited m (elim o [ none ↦ none | some s ↦ run cs s ])
  continue-Limited m cs none l h = tt
  continue-Limited m cs (some s) l h = subst (λ n. Limited n (run cs s)) l (h s)

  run-Limited : (cs : List (Call p)) (s : Server) → Limited s.max_roots (run cs s)
  unfolding run
  run-Limited [] s = refl
  run-Limited (c ∷ cs) s =
      continue-Limited s.max_roots cs (step c s) (step-Limited c s) (run-Limited cs)

  -- No sequence of the methods of a new server and of receives panics, whatever the components
  -- draw. After it the subscribers are exactly the channels that are open, each once, no queue is
  -- longer than its buffer; the store is well formed and has at most as many roots as `newServer` was
  -- given, or 50 if that is 0 or less; and a subscriber that drains a queue that is not empty ends
  -- with the status line of the server as it is.
  pub run-new_server :
      (max_roots : ℤ) (allow : Bool) (cs : List (Call p))
      → (s : Server) × (run cs (new_server max_roots allow) ≡ some s)
        × Inv t s
        × (count s.store.roots ≤ root_limit max_roots)
  run-new_server max_roots allow cs =
      let (s, e, v) = run-Runs cs (new_server max_roots allow) (new_server-Inv max_roots allow) in
      let kept : s.max_roots ≡ (new_server max_roots allow).max_roots =
        subst (Limited (new_server max_roots allow).max_roots) e
          (run-Limited cs (new_server max_roots allow)) in
      (
        s,
        e,
        v,
        subst (λ n. count s.store.roots ≤ n)
            (ap pos_part kept ∙ new_server-root_limit max_roots allow) v.stored.few,
      )
