-- ===== src/Web/Announced.antt =====
-- The methods of viewer/sap-web/server.go that broadcast: each changes the store, the connection or
-- the pause and broadcasts one snapshot.
use sap.Base.{◌≡◌, refl}
use sap.Message.Proto.{Time}
use sap.State.Store.{Store, clear, clear_open_spans, mark_open_spans_stale}
use sap.Sse.{State, no_state, connecting, connected, retrying, disconnected, ConnectionState}
use sap.Base.{Option, Bool, true, false}
use sap.Web.Server.{Templates, Snapshot, Server, snapshot_locked}
use sap.Web.Session.{
  announce_state, set_connection_state, flip_paused, toggle_paused, clear_all, broadcast_locked,
}

abbrev pub with_state : Store → ConnectionState → Bool → Server → Server
with_state store conn paused s = record s { store = store; conn = conn; paused = paused }

-- A broadcast after a change of these fields.
abbrev pub Announced : Server → Option (Server × Snapshot) → Type 0
Announced s o =
    (snap : Snapshot) × (store : Store) × (conn : ConnectionState) × (paused : Bool) × (o
      ≡ broadcast_locked snap (with_state store conn paused s))

module _ (t : Templates) (now : Time) (s : Server) where
  full-Announced :
      (store : Store) (conn : ConnectionState) (paused : Bool)
      → Announced s (
          broadcast_locked
            (snapshot_locked t now (with_state store conn paused s))
            (with_state store conn paused s))
  full-Announced store conn paused = (_, store, conn, paused, refl)

  announce_state-Announced :
      (conn : ConnectionState) (state : State)
      → Announced s (announce_state t state now (record s { conn = conn }))
  unfolding announce_state
  announce_state-Announced conn connected = (_, s.store, record conn { err = "" }, s.paused, refl)
  announce_state-Announced conn retrying =
      full-Announced (mark_open_spans_stale s.store now) conn s.paused
  announce_state-Announced conn disconnected =
      full-Announced (mark_open_spans_stale s.store now) conn s.paused
  announce_state-Announced conn connecting = (_, s.store, conn, s.paused, refl)
  announce_state-Announced conn no_state = (_, s.store, conn, s.paused, refl)

  pub set_connection_state-Announced :
      (conn : ConnectionState) → Announced s (set_connection_state t conn now s)
  unfolding set_connection_state
  set_connection_state-Announced conn = announce_state-Announced conn conn.state

  pub clear_all-Announced : Announced s (clear_all t now s)
  unfolding clear_all
  clear_all-Announced = full-Announced (clear s.store) s.conn s.paused

  flipped-Announced :
      (b : Bool)
      → Announced s
          (broadcast_locked (snapshot_locked t now (flip_paused t b s)) (flip_paused t b s))
  unfolding flip_paused
  flipped-Announced true = full-Announced s.store s.conn false
  flipped-Announced false = full-Announced (clear_open_spans s.store) s.conn true

  pub toggle_paused-Announced : Announced s (toggle_paused t now s)
  unfolding toggle_paused
  toggle_paused-Announced = flipped-Announced s.paused
