-- ===== src/Hub/Tests.antt =====
-- The hub of hub.go on concrete calls.
use sap.Base.{ℕ, ◌≡◌, refl, sym, ap, String, Option, none, some, List, [], ◌∷◌, false, ℕ_discrete}
use mathlib.Core.Option.{some-injective}
use sap.Base.Int.{pos, negsuc}
use sap.Hub.{
  Chan, World, cancels, Received, item, end, new_hub, make_chan, add_chan, subscribe, subscribe_in,
  publish, publish_in, close, close_in, cancel, cancel_in, receive, receive_from, deliver, try_send,
  for_each, close_chan, is_sub,
}
use sap.Hub.Invariant.{Inv}
use sap.Hub.Safe.{shut_chan}
use sap.Hub.Calls.{subscribe-Inv}
use sap.Hub.History.{
  Call, subscribes, stops, publishes, closes, receives, step, run, run-new_hub, new_hub-Inv,
}
use sap.Hub.Concurrent.{Shared, Turn, enters, goes_on, enter, go_on, exclusive, turn, turns}
use sap.Hub.Concurrent.Turns.{Safe, turns-Safe}
use sap.Hub.Delivery.{
  publish_all, receive_n, publish_all-queue, close-ends, subscribe-publish-close-receive,
}

-- Opens the operations for a test by evaluation.
evaluation : Unit {0}
unfolding new_hub make_chan add_chan subscribe subscribe_in publish publish_in close close_in cancel
    cancel_in receive receive_from deliver try_send for_each close_chan is_sub step run publish_all
    receive_n ℕ_discrete
evaluation = tt

-- A hub with a subscriber whose buffer holds two records.
abbrev one : World String
one = (subscribe (pos 2) new_hub).0

one-Inv : Inv one
one-Inv = subscribe-Inv (pos 2) new_hub new_hub-Inv

one-opened : one-Inv.hub.closed ≡ false
unfolding evaluation
one-opened =
    ap (λ h. h.closed)
      (some-injective one-Inv.hub (record { subs = 0 ∷ []; closed = false }) (sym one-Inv.at_hub))

-- Three records for two subscribers, of which the first stops, then a close and a late subscriber.
abbrev calls : List (Call String)
calls =
    subscribes (pos 2)
    ∷ subscribes (negsuc 0)
    ∷ publishes "a"
    ∷ publishes "b"
    ∷ publishes "c"
    ∷ receives 0
    ∷ stops (cancels 0)
    ∷ stops (cancels 0)
    ∷ publishes "d"
    ∷ closes
    ∷ closes
    ∷ subscribes (pos 1)
    ∷ publishes "e"
    ∷ []

results : ℕ → Option (World String) → List (Received String)
results a none = []
results a (some w) = (receive_n 5 a w).1

-- The record "c" did not fit, and "a" was received before.
stopped_gets : results 0 (run calls new_hub) ≡ item "b" ∷ end ∷ end ∷ end ∷ end ∷ []
unfolding evaluation results
stopped_gets = refl

other_gets : results 1 (run calls new_hub) ≡ item "a" ∷ item "b" ∷ item "c" ∷ item "d" ∷ end ∷ []
unfolding evaluation results
other_gets = refl

late_gets : results 2 (run calls new_hub) ≡ end ∷ end ∷ end ∷ end ∷ end ∷ []
unfolding evaluation results
late_gets = refl

-- A nil hub.
abbrev nil_hub : World String
nil_hub = record { chans = λ _. none; next = 0; hub = none }

nil_publishes : publish "a" nil_hub ≡ some nil_hub
unfolding evaluation
nil_publishes = refl

nil_subscribes : results 0 (some (subscribe (pos 1) nil_hub).0) ≡ end ∷ end ∷ end ∷ end ∷ end ∷ []
unfolding evaluation results
nil_subscribes = refl

run-new_hub_example : (w : World String) × (run calls new_hub ≡ some w) × Inv w
run-new_hub_example = run-new_hub calls

publish_all-queue_example :
    (w' : World String) × (publish_all ("a" ∷ "b" ∷ "c" ∷ []) one ≡ some w')
    × Inv w'
    × (w'.chans 0 ≡ some (record { capacity = 2; queue = "a" ∷ "b" ∷ []; closed = false }))
unfolding evaluation
publish_all-queue_example =
    publish_all-queue ("a" ∷ "b" ∷ "c" ∷ []) one 0 (make_chan (pos 2) false) one-Inv refl refl

close-ends_example :
    (w' : World String) × (close one ≡ some w')
    × ((a : ℕ) (c : Chan String) → one.chans a ≡ some c → w'.chans a ≡ some (shut_chan c))
    × (close w' ≡ some w')
    × ((r : String) → publish r w' ≡ some w')
close-ends_example = close-ends one one-Inv

subscribe-publish-close-receive_example :
    let (w₁, a, _) = subscribe (pos 2) one in
    (w₂ : World String) × (w₃ : World String) × (publish_all ("a" ∷ "b" ∷ "c" ∷ []) w₁ ≡ some w₂)
    × (close w₂ ≡ some w₃)
    × ((receive_n 4 a w₃).1 ≡ item "a" ∷ item "b" ∷ end ∷ end ∷ [])
subscribe-publish-close-receive_example =
    subscribe-publish-close-receive (pos 2) ("a" ∷ "b" ∷ "c" ∷ []) 2 one one-Inv one-opened

-- Two calls of Publish under way at once; a Close in between waits.
abbrev interleaved : List (Turn String)
interleaved =
    Turn.subscribes (pos 2)
    ∷ Turn.subscribes (pos 1)
    ∷ enters "a"
    ∷ enters "b"
    ∷ goes_on 0
    ∷ Turn.closes
    ∷ goes_on 1
    ∷ goes_on 1
    ∷ goes_on 0
    ∷ goes_on 0
    ∷ goes_on 0
    ∷ Turn.receives 0
    ∷ []

queue_at : ℕ → Option (Shared String) → List String
queue_at a none = []
queue_at a (some s) = elim (s.world.chans a) [ none ↦ [] | some c ↦ c.queue ]

interleaves :
    (queue_at 0 (turns interleaved (record { world = new_hub; publishing = [] })) ≡ "b" ∷ [])
    × (queue_at 1 (turns interleaved (record { world = new_hub; publishing = [] })) ≡ "b" ∷ [])
unfolding evaluation turns turn enter go_on exclusive queue_at
interleaves = (refl, refl)

turns-Safe_example :
    (s : Shared String) × (turns interleaved (record { world = new_hub; publishing = [] }) ≡ some s)
    × Safe s
turns-Safe_example = turns-Safe interleaved
