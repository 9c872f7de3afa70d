-- ===== src/Sse/Tests.antt =====
-- The client of transport/sapsse/client.go on concrete answers.
use sap.Base.{
  ◌≡◌, refl, sym, ap, String, Option, none, some, List, [], ◌∷◌, true, false, map, arith, ite,
  str_dec,
}
use sap.Base.Int.{pos}
use sap.Sse.{
  State, connecting, connected, retrying, disconnected, Emit, state_sent, record_sent, at_state,
  Turn, done, tries, failed, body, read_lines, emit_decoded, stream_once, stream,
}
use mathlib.Core.Option.{some-injective}
use sap.Base.Http.{Reply, text_of}
use sap.Base.Lines.{has_code}
use sap.Hub.{World, new_hub, close}
use sap.Hub.History.{new_hub-Inv}
use sap.Hub.Delivery.{publish_all, receive_n}
use sap.Sse.Handler.{open_stream, selected, serve}
use sap.Sse.Frames.{All, response_of}
use sap.Sse.Delivery.{publish-serve-stream_once}
use sap.Sse.Trace.{Session, stream-Session}

-- A payload stands for its record, but for one text that is no record.
parse : String → Option String
parse payload = ite (str_dec payload "{") none (some payload)

abbrev lines : List String
lines = ": connected" ∷ "" ∷ "data: r1" ∷ "" ∷ "data: {" ∷ ": ping" ∷ "event: x" ∷ "data: r2" ∷ []

reads_records : read_lines parse false lines ≡ record_sent "r1" ∷ record_sent "r2" ∷ []
unfolding read_lines emit_decoded parse str_dec
reads_records = refl

abbrev turns : List Turn
turns =
    tries (failed "refused") false (pos 2) false
    ∷ tries (body lines none) false (pos 5) false
    ∷ done
    ∷ []

streams :
    stream parse turns 0
    ≡ state_sent (at_state connecting 1)
      ∷ state_sent (record { state = retrying; attempt = 1; err = "refused"; retry_at = pos 2 })
      ∷ state_sent (at_state connecting 2)
      ∷ state_sent (at_state connected 2)
      ∷ record_sent "r1"
      ∷ record_sent "r2"
      ∷ state_sent
          (record { state = retrying; attempt = 2; err = "stream closed"; retry_at = pos 5 })
      ∷ state_sent (at_state disconnected 0)
      ∷ []
unfolding stream stream_once read_lines emit_decoded parse str_dec at_state sap.Sse.scan_error
streams = refl

stream-Session_example : Session parse turns 0 (stream parse turns 0)
stream-Session_example = stream-Session parse turns 0

-- A handler and its client, over a hub that two records are published on.
abbrev reply : Reply
reply = record { flusher = true; headers = []; status = none; wire = []; room = 3 }

abbrev two : List String
two = "{}" ∷ "{\"a\":1}" ∷ []

two_sendable : All (λ r. some r) (λ p. some p) two
unfolding has_code
two_sendable = (
  record {
    payload = "{}";
    marshalled = refl;
    one_line = refl;
    no_return = refl;
    fits = omega arith;
    read_back = refl;
  },
  (
    record {
      payload = "{\"a\":1}";
      marshalled = refl;
      one_line = refl;
      no_return = refl;
      fits = omega arith;
      read_back = refl;
    },
    tt,
  ),
)

new_hub-opened : (new_hub-Inv {R = String}).hub.closed ≡ false
unfolding new_hub
new_hub-opened =
    let v = new_hub-Inv {R = String} in
    ap (λ h. h.closed) (some-injective v.hub (record { subs = []; closed = false }) (sym v.at_hub))

publish-serve-stream_once_example :
    let (w₁, a, _) = open_stream (new_hub {R = String}) in
    (w₂ : World String) × (w₃ : World String) × (publish_all two w₁ ≡ some w₂)
    × (close w₂ ≡ some w₃)
    × (stream_once
          (λ p. some p)
          1
          (response_of
            (λ r. some r)
            (λ p. some p)
            (text_of (serve (λ r. some r) (selected (receive_n 3 a w₃).1) reply).wire))
        ≡ (state_sent (at_state connected 1) ∷ map record_sent two, "stream closed"))
publish-serve-stream_once_example =
    publish-serve-stream_once (λ r. some r) (λ p. some p) 1 two reply new_hub new_hub-Inv
      new_hub-opened two_sendable (omega arith) refl refl (omega arith)
