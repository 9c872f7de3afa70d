-- ===== src/Sse.antt =====
-- transport/sapsse/client.go and event.go: the client of a stream of records. What HTTP, the scanner
-- of lines and the context answer is given; `unmarshal` is protojson.Unmarshal of a payload.
-- `streamOnce` never returns nil, so that what `Stream` does after a nil error is left out.
pub mod Trace
pub mod Handler
pub mod Frames
pub mod Delivery
mod Tests
use Prim.Native.String as Text
use Prim.Native.String.{String, len, slice}
use text.Mathlib.Text.{starts_with}
use sap.Base.{ℕ, suc, Option, none, some, List, [], ◌∷◌, ◌++◌, map, Bool, true, false}
use sap.Base.Int.{if◌then◌else◌}
use sap.Message.Proto.{Time, zero_time}

-- The texts of the constants, and the empty one of a connection that has not begun.
pub data State : Type 0 where
  no_state connecting connected retrying disconnected : State

pub record ConnectionState : Type 0 where
  pub state : State
  pub attempt : ℕ
  pub err : String
  pub retry_at : Time

-- What is sent on the two channels, in order.
pub data Emit (R : Type 0) : Type 0 where
  state_sent : ConnectionState → Emit R
  record_sent : R → Emit R

unfoldable pub at_state : State → ℕ → ConnectionState
at_state s attempt = record { state = s; attempt = attempt; err = ""; retry_at = zero_time }

-- The answer to a request: an error before a response, a response with another status than 200, or
-- the lines of a body and the error that the scanner ends with.
pub data Response : Type 0 where
  failed : String → Response
  refused : String → Response
  body : List String → Option String → Response

-- One turn of the loop of `Stream`. The context is done before the request, or the request has an
-- answer; then the context may be done, or may become done while the client waits to retry.
pub data Turn : Type 0 where
  done : Turn
  tries : Response → Bool → Time → Bool → Turn

module _ {R : Type 0} (unmarshal : String → Option R) where
  unfoldable pub emit_decoded : Option R → List (Emit R) → List (Emit R)
  emit_decoded none es = es
  emit_decoded (some r) es = record_sent r ∷ es

  -- The loop over the lines; the flag is `statesent`.
  unfoldable pub read_lines : Bool → List String → List (Emit R)
  unfolding emit_decoded
  read_lines sent [] = []
  read_lines sent (line ∷ lines) =
      if (if starts_with line ":" then (if sent then false else true) else false)
      then read_lines true lines
      else (if starts_with line "data: "
          then emit_decoded (unmarshal (slice line (len "data: ") (len line)))
              (read_lines sent lines)
          else read_lines sent lines)

  unfoldable pub scan_error : Option String → String
  scan_error none = "stream closed"
  scan_error (some e) = e

  -- `streamOnce`: what it sends, and the error that it returns, which is never nil.
  unfoldable pub stream_once : ℕ → Response → List (Emit R) × String
  unfolding read_lines scan_error at_state
  stream_once attempt (failed e) = ([], e)
  stream_once attempt (refused status) = ([], Text.◌++◌ "unexpected status: " status)
  stream_once attempt (body lines e) =
      (state_sent (at_state connected attempt) ∷ read_lines false lines, scan_error e)

  -- `Stream`, for as many turns as are given; the number is that of the attempts made.
  unfoldable pub stream : List Turn → ℕ → List (Emit R)
  unfolding stream_once at_state
  stream [] attempt = []
  stream (done ∷ turns) attempt = state_sent (at_state disconnected 0) ∷ []
  stream (tries response gone retry_at stops ∷ turns) attempt =
      let rest = stream turns (suc attempt) in
      let (sent, e) = stream_once (suc attempt) response in
      state_sent (at_state connecting (suc attempt))
      ∷ (sent
          ++ (if gone
              then state_sent (at_state disconnected 0) ∷ []
              else state_sent
                  (record { state = retrying; attempt = suc attempt; err = e; retry_at = retry_at })
                ∷ (if stops then state_sent (at_state disconnected 0) ∷ [] else rest)))
