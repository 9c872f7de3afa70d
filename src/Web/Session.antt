-- ===== src/Web/Session.antt =====
-- viewer/sap-web/server.go: the broadcast to the subscribers and the methods that hold the lock.
use sap.Base.{ℕ, suc, Option, none, some, List, [], ◌∷◌, Bool, true, false, ℕ_discrete, String}
use sap.Base.Lists.{length, drop}
use sap.Base.Int.{ltb, if◌then◌else◌}
use sap.Base.Remove.{remove}
use sap.Hub.{Chan, Received, wait, put, deliver, for_each, close_chan, is_sub}
use sap.Message.{Record}
use sap.Message.Proto.{Proto, Time}
use sap.State.Store.{clear, clear_open_spans, limit_roots, mark_open_spans_stale}
use sap.State.Apply.{apply}
use sap.Sse.{State, no_state, connecting, connected, retrying, disconnected, ConnectionState}
use sap.Web.Server.{
  Rendered, Templates, Snapshot, Server, root_ids, same_strings, record_span_id, record_patch,
  snapshot_locked, patch_snapshot_locked, status_snapshot_locked,
}

-- The body of the loop of `broadcastLocked`, for one channel: a full one loses its oldest item.
unfoldable pub offer : Snapshot → Chan Snapshot → Chan Snapshot
unfolding deliver
offer snap c =
    if ltb (length c.queue) c.capacity
    then deliver snap c
    else deliver snap (record c { queue = drop 1 c.queue })

unfoldable pub offer_to :
    Snapshot → ℕ → (ℕ → Option (Chan Snapshot)) → Option (ℕ → Option (Chan Snapshot))
unfolding offer
offer_to snap a m = elim (m a) [
  | none ↦ none
  | some c ↦ if c.closed then none else some (put a (offer snap c) m)
]

unfoldable pub broadcast_locked : Snapshot → Server → Option (Server × Snapshot)
unfolding offer_to for_each
broadcast_locked snap s = elim (for_each (offer_to snap) s.subscribers s.chans) [
  | none ↦ none
  | some m ↦ some (record s { chans = m }, snap)
]

-- The function that `subscribe` returns, for the channel at `a`.
unfoldable pub unsubscribe : ℕ → Server → Option Server
unfolding is_sub close_chan
unsubscribe a s =
    if is_sub a s.subscribers
    then elim (close_chan a s.chans) [
      | none ↦ none
      | some m ↦ some (record s { chans = m; subscribers = remove ℕ_discrete a s.subscribers })
    ]
    else some s

unfoldable pub receive_from :
    ℕ → Chan Snapshot → List Snapshot → Server → Server × Received Snapshot
receive_from a c [] s = (s, if c.closed then Received.end else wait)
receive_from a c (r ∷ rs) s =
    (record s { chans = put a (record c { queue = rs }) s.chans }, Received.item r)

-- A receive by the handler of a stream, from the channel that `subscribe` gave it.
unfoldable pub receive : ℕ → Server → Server × Received Snapshot
unfolding receive_from
receive a s = elim (s.chans a) [ none ↦ (s, wait) | some c ↦ receive_from a c c.queue s ]

module _ (t : Templates) where
  -- A new channel with a buffer of 8 that holds the first snapshot.
  unfoldable pub subscribe : Time → Server → Server × ℕ
  unfolding snapshot_locked
  subscribe now s = (
    record s {
      chans =
          put s.next (record { capacity = 8; queue = snapshot_locked t now s ∷ []; closed = false })
            s.chans;
      next = suc s.next;
      subscribers = s.next ∷ s.subscribers;
    },
    s.next,
  )

  unfoldable pub patch_or_all : Option Rendered → Time → Server → Snapshot
  unfolding snapshot_locked patch_snapshot_locked
  patch_or_all none now s = snapshot_locked t now s
  patch_or_all (some drawn) now s = patch_snapshot_locked t drawn s

  -- The state and the time of `setConnectionState`, for a state that is stored already.
  unfoldable pub announce_state : State → Time → Server → Option (Server × Snapshot)
  unfolding broadcast_locked snapshot_locked status_snapshot_locked
  announce_state connected now s =
      let s' : Server = record s { conn = record s.conn { err = "" } } in
      broadcast_locked (status_snapshot_locked t s') s'
  announce_state retrying now s =
      let s' : Server = record s { store = mark_open_spans_stale s.store now } in
      broadcast_locked (snapshot_locked t now s') s'
  announce_state disconnected now s =
      let s' : Server = record s { store = mark_open_spans_stale s.store now } in
      broadcast_locked (snapshot_locked t now s') s'
  announce_state connecting now s = broadcast_locked (status_snapshot_locked t s) s
  announce_state no_state now s = broadcast_locked (status_snapshot_locked t s) s

  unfoldable pub set_connection_state : ConnectionState → Time → Server → Option (Server × Snapshot)
  unfolding announce_state
  set_connection_state conn now s = announce_state conn.state now (record s { conn = conn })

  unfoldable pub flip_paused : Bool → Server → Server
  flip_paused false s = record s { paused = true; store = clear_open_spans s.store }
  flip_paused true s = record s { paused = false }

  unfoldable pub toggle_paused : Time → Server → Option (Server × Snapshot)
  unfolding flip_paused broadcast_locked snapshot_locked
  toggle_paused now s =
      let s' = flip_paused s.paused s in broadcast_locked (snapshot_locked t now s') s'

  -- `clear` of the viewer
  unfoldable pub clear_all : Time → Server → Option (Server × Snapshot)
  unfolding broadcast_locked snapshot_locked
  clear_all now s =
      let s' : Server = record s { store = clear s.store } in
      broadcast_locked (snapshot_locked t now s') s'

  module _ (p : Proto) where
    -- The store after the record, with the roots limited.
    unfoldable pub take_record : Option (Record p.Timestamp) → Server → Server
    take_record r s = record s { store = limit_roots s.max_roots (apply p r s.store) }

    unfoldable pub change_snapshot :
        List String → Option (Record p.Timestamp) → Time → Server → Snapshot
    unfolding patch_or_all snapshot_locked record_patch record_span_id root_ids same_strings
    change_snapshot before r now s =
        if same_strings before (root_ids s.store.roots)
        then patch_or_all (record_patch t r (record_span_id r) now s.store) now s
        else snapshot_locked t now s

    unfoldable pub apply_record : Option (Record p.Timestamp) → Time → Server → Option Server
    unfolding take_record change_snapshot broadcast_locked root_ids
    apply_record none now s = some s
    apply_record (some r) now s =
        if s.paused
        then some s
        else (let s' = take_record (some r) s in
            elim (broadcast_locked (change_snapshot (root_ids s.store.roots) (some r) now s') s') [
              | none ↦ none
              | some (s'', _) ↦ some s''
            ])
