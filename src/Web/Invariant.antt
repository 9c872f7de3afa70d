-- ===== src/Web/Invariant.antt =====
-- The invariant of the viewer's server: its channels, its store, and what the newest snapshot of each
-- subscriber shows.
use sap.Base.{
  ℕ, ◌≤◌, ◌≡◌, refl, ap, ◌∙◌, Option, none, some, List, [], ◌∷◌, ◌++◌, false, arith, String,
}
use sap.Base.Lists.{In, length, length-append, length-drop, drop, Distinct}
use sap.Base.Int.{pos, pos_part, leb_ℤ, ltb, if◌then◌else◌}
use sap.Hub.{Chan, put, deliver}
use sap.Hub.Invariant.{Open}
use sap.Hub.Safe.{Bounded}
use sap.State.Tree.{count}
use sap.State.Invariant as StoreInvariant
use sap.Web.Server.{Templates, Snapshot, Server, status_of}
use sap.Web.Session.{offer, offer_to}

abbrev pub last : List Snapshot → Option Snapshot
last [] = none
last (x ∷ []) = some x
last (x ∷ y ∷ ys) = last (y ∷ ys)

-- The newest item of a queue, if there is one, has this status line.
abbrev pub Shows : String → List Snapshot → Type 0
Shows status q = (r : Snapshot) → last q ≡ some r → r.status_html ≡ status

-- The subscribers are exactly the open channels, each once; every queue is within its capacity.
pub record Channels (s : Server) : Type 0 where
  pub distinct : Distinct s.subscribers
  pub sub-Open : (a : ℕ) → In a s.subscribers → Open s.chans a
  pub Open-sub : (a : ℕ) → Open s.chans a → In a s.subscribers
  pub fresh : (a : ℕ) → s.next ≤ a → s.chans a ≡ none
  pub bounded : (a : ℕ) (c : Chan Snapshot) → s.chans a ≡ some c → Bounded c

abbrev pub Current : Templates → Server → Type 0
Current t s =
    (a : ℕ) (c : Chan Snapshot)
    → In a s.subscribers
    → s.chans a ≡ some c
    → Shows (status_of t s) c.queue

-- A store that is well formed and has at most `max_roots` roots, a positive number.
pub record Stored (s : Server) : Type 0 where
  pub store-Inv : StoreInvariant.Inv s.store
  pub positive : leb_ℤ s.max_roots (pos 0) ≡ false
  pub few : count s.store.roots ≤ pos_part s.max_roots

pub record Inv (t : Templates) (s : Server) : Type 0 where
  pub channels : Channels s
  pub stored : Stored s
  pub current : Current t s

pub offer_to-Open :
    (snap : Snapshot) (a : ℕ) (c : Chan Snapshot) (m : ℕ → Option (Chan Snapshot))
    → m a ≡ some c
    → c.closed ≡ false
    → offer_to snap a m ≡ some (put a (offer snap c) m)
unfolding offer_to
offer_to-Open snap a c m e q = ground (arith, e, q)

pub offer-closed : (snap : Snapshot) (c : Chan Snapshot) → (offer snap c).closed ≡ c.closed
unfolding offer deliver
offer-closed snap c = ground arith

-- An item that is offered stands last; a full queue has lost its oldest item for it.
pub offer-queue :
    (snap : Snapshot) (c : Chan Snapshot)
    → Bounded c
    → (offer snap c).queue
      ≡ (if ltb (length c.queue) c.capacity then c.queue else drop 1 c.queue) ++ snap ∷ []
unfolding offer deliver
offer-queue snap c b = ground (arith, b, length-drop 1 c.queue)

last-append : (q : List Snapshot) (snap : Snapshot) → last (q ++ snap ∷ []) ≡ some snap
last-append [] snap = refl
last-append (x ∷ []) snap = refl
last-append (x ∷ y ∷ ys) snap = last-append (y ∷ ys) snap

pub offer-last :
    (snap : Snapshot) (c : Chan Snapshot) → Bounded c → last (offer snap c).queue ≡ some snap
offer-last snap c b =
    ap last (offer-queue snap c b)
    ∙ last-append (if ltb (length c.queue) c.capacity then c.queue else drop 1 c.queue) snap

pub offer-Bounded : (snap : Snapshot) (c : Chan Snapshot) → Bounded c → Bounded (offer snap c)
unfolding offer deliver
offer-Bounded snap c b = ground (
  arith,
  b,
  length-drop 1 c.queue,
  length-append c.queue (snap ∷ []),
  length-append (drop 1 c.queue) (snap ∷ []),
)
