-- ===== src/Hub/Concurrent.antt =====
-- Publish of hub.go holds a read lock only: several calls may be under way, and their sends and the
-- receives of subscribers come in any order. Subscribe, a cancel function and Close take the lock
-- for themselves and wait until no call of Publish is under way.
pub mod Turns
use sap.Base.{
  ℕ, zero, suc, ◌≤◌, ◌≡◌, refl, sym, ap, subst, ◌∙◌, Option, none, some, List, [], ◌∷◌, Bool, true,
  false, if_pos, ℕ_discrete,
}
use mathlib.Core.Option.{some-injective}
use sap.Base.Lists.{In, here, there, All, length}
use sap.Base.Text.{and_then, if_ind, Option-ind}
use sap.Base.Int.{ℤ, if◌then◌else◌}
use sap.Hub.{
  Chan, Hub, World, Cancel, Received, new_hub, put, deliver, try_send, subscribe, cancel, close,
  receive, receive_from,
}
use sap.Hub.Invariant.{Open, Inv, put-miss}
use sap.Hub.Safe.{Bounded, deliver-Bounded, deliver-closed, try_send-Open, close-Inv}
use sap.Hub.Calls.{set_queue-Inv, subscribe-Inv, cancel-Inv, receive-Inv, Runs}
use sap.Hub.Delivery.{deliver-queue}
use sap.Hub.History.{new_hub-Inv}

-- The hub with its channels, and the calls of Publish under way, each with its record and the
-- channels that it has not come to.
pub record Shared {ℓ} (R : Type ℓ) : Type ℓ where
  pub world : World R
  pub publishing : List (R × List ℕ)

-- The next turn is that of a new call of Publish, or of one under way, by its place in the list, or
-- of another call or a receive.
pub data Turn {ℓ} (R : Type ℓ) : Type ℓ where
  enters : R → Turn R
  goes_on : ℕ → Turn R
  subscribes : ℤ → Turn R
  stops : Cancel → Turn R
  closes : Turn R
  receives : ℕ → Turn R

module _ {ℓ} {R : Type ℓ} where
  unfoldable pub enter : R → Option Hub → Shared R → Shared R
  enter r none s = s
  enter r (some h) s = if h.closed then s else record s { publishing = (r, h.subs) ∷ s.publishing }

  -- A call under way sends to its next channel, or returns after the last one.
  unfoldable pub go_on :
      ℕ
      → List (R × List ℕ)
      → (ℕ → Option (Chan R))
      → Option (List (R × List ℕ) × (ℕ → Option (Chan R)))
  unfolding try_send
  go_on n [] m = some ([], m)
  go_on zero ((r, []) ∷ ps) m = some (ps, m)
  go_on zero ((r, a ∷ todo) ∷ ps) m = and_then (try_send r a m) (λ m'. some ((r, todo) ∷ ps, m'))
  go_on (suc n) (p ∷ ps) m = and_then (go_on n ps m) (λ x. some (p ∷ x.0, x.1))

  -- A call that needs the lock for itself changes nothing while it waits.
  unfoldable pub exclusive : List (R × List ℕ) → Option (World R) → Shared R → Option (Shared R)
  exclusive [] o s = and_then o (λ w. some (record s { world = w }))
  exclusive (p ∷ ps) o s = some s

  unfoldable pub turn : Turn R → Shared R → Option (Shared R)
  unfolding enter go_on exclusive
  turn (enters r) s = some (enter r s.world.hub s)
  turn (goes_on n) s =
      and_then (go_on n s.publishing s.world.chans)
        (λ x. some (record s { publishing = x.0; world = record s.world { chans = x.1 } }))
  turn (subscribes buffer) s = exclusive s.publishing (some (subscribe buffer s.world).0) s
  turn (stops k) s = exclusive s.publishing (cancel k s.world) s
  turn closes s = exclusive s.publishing (close s.world) s
  turn (receives a) s = some (record s { world = (receive a s.world).0 })

  unfoldable pub turns : List (Turn R) → Shared R → Option (Shared R)
  unfolding turn
  turns [] s = some s
  turns (x ∷ xs) s = and_then (turn x s) (turns xs)
