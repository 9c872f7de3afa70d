-- ===== src/Hub.antt =====
-- Hub of hub.go: fan-out of records to buffered channels. Every method is one step.
-- A call returns none where the program panics: a send on a closed channel, a close of one, or a
-- use of a channel that was not made.
pub mod Invariant
pub mod Safe
pub mod Calls
pub mod History
pub mod Delivery
pub mod Concurrent
mod Tests
use sap.Base.{
  ℕ, zero, suc, ◌+◌, ◌≡◌, Option, none, some, List, [], ◌∷◌, ◌++◌, Bool, true, false, ite,
  ℕ_discrete,
}
use sap.Base.Lists.{length}
use sap.Base.Remove.{remove}
use sap.Base.Int.{ℤ, pos, pos_part, ltb, leb_ℤ, if◌then◌else◌}

-- A Go channel with a buffer.
pub record Chan {ℓ} (R : Type ℓ) : Type ℓ where
  pub capacity : ℕ
  pub queue : List R
  pub closed : Bool

pub record Hub : Type 0 where
  pub subs : List ℕ
  pub closed : Bool

-- The channels by address, the next address, and the hub that a `*Hub` points to, none for nil.
pub record World {ℓ} (R : Type ℓ) : Type ℓ where
  pub chans : ℕ → Option (Chan R)
  pub next : ℕ
  pub hub : Option Hub

-- The cancel function that `Subscribe` returns.
pub data Cancel : Type 0 where
  no_op : Cancel
  cancels : ℕ → Cancel

-- `record, ok := <-ch` by a subscriber: a record, the end of a closed channel, or a wait.
pub data Received {ℓ} (R : Type ℓ) : Type ℓ where
  item : R → Received R
  end wait : Received R

module _ {ℓ} {R : Type ℓ} where
  abbrev pub put : ℕ → Chan R → (ℕ → Option (Chan R)) → ℕ → Option (Chan R)
  put a c m b = ite (ℕ_discrete b a) (some c) (m b)

  -- `NewHub`
  unfoldable pub new_hub : World R
  new_hub = record {
    chans = λ _. none;
    next = 0;
    hub = some (record { subs = []; closed = false });
  }

  -- `select { case ch <- record: default: }` on an open channel.
  unfoldable pub deliver : R → Chan R → Chan R
  deliver r c =
      if ltb (length c.queue) c.capacity then record c { queue = c.queue ++ r ∷ [] } else c

  unfoldable pub try_send : R → ℕ → (ℕ → Option (Chan R)) → Option (ℕ → Option (Chan R))
  unfolding deliver
  try_send r a m = elim (m a) [
    | none ↦ none
    | some c ↦ if c.closed then none else some (put a (deliver r c) m)
  ]

  -- `for ch := range h.subs`, in the order in which the list stands.
  unfoldable pub for_each :
      (ℕ → (ℕ → Option (Chan R)) → Option (ℕ → Option (Chan R)))
      → List ℕ
      → (ℕ → Option (Chan R))
      → Option (ℕ → Option (Chan R))
  for_each act [] m = some m
  for_each act (a ∷ subs) m = elim (act a m) [ none ↦ none | some m' ↦ for_each act subs m' ]

  unfoldable pub close_chan : ℕ → (ℕ → Option (Chan R)) → Option (ℕ → Option (Chan R))
  close_chan a m = elim (m a) [
    | none ↦ none
    | some c ↦ if c.closed then none else some (put a (record c { closed = true }) m)
  ]

  unfoldable pub make_chan : ℤ → Bool → Chan R
  make_chan buffer closed = record {
    capacity = if leb_ℤ buffer (pos 0) then 256 else pos_part buffer;
    queue = [];
    closed = closed;
  }

  unfoldable pub add_chan : Chan R → World R → World R
  add_chan c w = record w { chans = put w.next c w.chans; next = suc w.next }

  unfoldable pub subscribe_in : ℤ → Option Hub → World R → World R × ℕ × Cancel
  unfolding make_chan add_chan
  subscribe_in buffer none w = (add_chan (make_chan buffer true) w, w.next, no_op)
  subscribe_in buffer (some h) w =
      if h.closed then (add_chan (make_chan buffer true) w, w.next, no_op) else (
        record (add_chan (make_chan buffer false) w) {
          hub = some (record h { subs = w.next ∷ h.subs });
        },
        w.next,
        cancels w.next,
      )

  -- `Subscribe` returns the channel and the cancel function.
  unfoldable pub subscribe : ℤ → World R → World R × ℕ × Cancel
  unfolding subscribe_in
  subscribe buffer w = subscribe_in buffer w.hub w

  unfoldable pub publish_in : R → Option Hub → World R → Option (World R)
  unfolding for_each try_send
  publish_in r none w = some w
  publish_in r (some h) w =
      if h.closed then some w else elim (for_each (try_send r) h.subs w.chans) [
        | none ↦ none
        | some m ↦ some (record w { chans = m })
      ]

  unfoldable pub publish : R → World R → Option (World R)
  unfolding publish_in
  publish r w = publish_in r w.hub w

  unfoldable pub close_in : Option Hub → World R → Option (World R)
  unfolding for_each close_chan
  close_in none w = some w
  close_in (some h) w = if h.closed then some w else elim (for_each close_chan h.subs w.chans) [
    | none ↦ none
    | some m ↦ some (record w { chans = m; hub = some (record { subs = []; closed = true }) })
  ]

  -- `Close`
  unfoldable pub close : World R → Option (World R)
  unfolding close_in
  close w = close_in w.hub w

-- `_, ok := h.subs[ch]` and `delete(h.subs, ch)`.
unfoldable pub is_sub : ℕ → List ℕ → Bool
is_sub a [] = false
is_sub a (b ∷ bs) = ite (ℕ_discrete a b) true (is_sub a bs)

module _ {ℓ} {R : Type ℓ} where
  unfoldable pub cancel_in : ℕ → Option Hub → World R → Option (World R)
  unfolding close_chan is_sub
  cancel_in a none w = none
  cancel_in a (some h) w =
      if is_sub a h.subs
      then elim (close_chan a w.chans) [
        | none ↦ none
        | some m ↦
            some
              (record w { chans = m; hub = some (record h { subs = remove ℕ_discrete a h.subs }) })
      ]
      else some w

  -- A call of the cancel function.
  unfoldable pub cancel : Cancel → World R → Option (World R)
  unfolding cancel_in
  cancel no_op w = some w
  cancel (cancels a) w = cancel_in a w.hub w

  unfoldable pub receive_from : ℕ → Chan R → List R → World R → World R × Received R
  receive_from a c [] w = (w, if c.closed then end else wait)
  receive_from a c (r ∷ rs) w =
      (record w { chans = put a (record c { queue = rs }) w.chans }, item r)

  -- A receive from the channel at an address.
  unfoldable pub receive : ℕ → World R → World R × Received R
  unfolding receive_from
  receive a w = elim (w.chans a) [ none ↦ (w, wait) | some c ↦ receive_from a c c.queue w ]
