-- ===== src/Hub/History.antt =====
-- Histories of calls on a hub of hub.go, with the receives of subscribers between them.
use sap.Base.{ℕ, ◌≡◌, refl, sym, subst, Option, none, some, List, [], ◌∷◌, false}
use mathlib.Core.Option.{some-ne-none}
use sap.Base.Lists.{not-In-nil}
use sap.Base.Int.{ℤ}
use sap.Hub.{World, Cancel, new_hub, subscribe, cancel, publish, close, receive}
use sap.Hub.Invariant.{Inv}
use sap.Hub.Safe.{publish-Inv, close-Inv}
use sap.Hub.Calls.{Runs, subscribe-Inv, cancel-Inv, receive-Inv}

pub data Call {ℓ} (R : Type ℓ) : Type ℓ where
  subscribes : ℤ → Call R
  stops : Cancel → Call R
  publishes : R → Call R
  closes : Call R
  receives : ℕ → Call R

module _ {ℓ} {R : Type ℓ} where
  unfoldable pub step : Call R → World R → Option (World R)
  step (subscribes buffer) w = some (subscribe buffer w).0
  step (stops k) w = cancel k w
  step (publishes r) w = publish r w
  step closes w = close w
  step (receives a) w = some (receive a w).0

  unfoldable pub run : List (Call R) → World R → Option (World R)
  unfolding step
  run [] w = some w
  run (c ∷ cs) w = elim (step c w) [ none ↦ none | some w' ↦ run cs w' ]

  pub new_hub-Inv : Inv (new_hub {R = R})
  unfolding new_hub
  new_hub-Inv = record {
    hub = record { subs = []; closed = false };
    at_hub = refl;
    distinct = tt;
    shut = λ _. refl;
    sub-Open = λ a i. absurd (not-In-nil a i);
    Open-sub = λ a (c, p, _). absurd (some-ne-none c (sym p));
    fresh = λ _ _. refl;
    bounded = λ a c p. absurd (some-ne-none c (sym p));
  }

  step-Inv : (c : Call R) (w : World R) → Inv w → Runs (step c w)
  unfolding step
  step-Inv (subscribes buffer) w v = (_, refl, subscribe-Inv buffer w v)
  step-Inv (stops k) w v = cancel-Inv k w v
  step-Inv (publishes r) w v = publish-Inv r w v
  step-Inv closes w v = close-Inv w v
  step-Inv (receives a) w v = (_, refl, receive-Inv a w v)

  pub run-Inv : (cs : List (Call R)) (w : World R) → Inv w → Runs (run cs w)
  unfolding run
  run-Inv [] w v = (w, refl, v)
  run-Inv (c ∷ cs) w v =
      let (w', e, v') = step-Inv c w v in
      subst (λ o. Runs (elim o [ none ↦ none | some w' ↦ run cs w' ])) (sym e) (run-Inv cs w' v')

  -- No sequence of calls and receives on a new hub panics, by a send on a closed channel or a second
  -- close of one; after it the subscribers of the hub are exactly the channels that are open, each
  -- once, a closed hub has none, and no queue is longer than its buffer.
  pub run-new_hub : (cs : List (Call R)) → (w : World R) × (run cs new_hub ≡ some w) × Inv w
  run-new_hub cs = run-Inv cs new_hub new_hub-Inv
