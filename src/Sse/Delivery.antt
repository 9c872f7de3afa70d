-- ===== src/Sse/Delivery.antt =====
-- A hub of hub.go, the handler of transport/sapsse/sse.go and the client of transport/sapsse/client.go.
use sap.Base.{
  ℕ, zero, suc, ◌+◌, ◌≤◌, ◌<◌, ◌≡◌, refl, sym, ap, subst, ◌∙◌, Option, some, List, [], ◌∷◌, ◌++◌,
  true, false, String, map,
}
use sap.Base.Lists.{length}
use sap.Base.Int.{pos}
use sap.Base.Http.{Reply, text_of}
use sap.Hub.{World, Received, item, close}
use sap.Hub.Invariant.{Inv}
use sap.Hub.Delivery.{publish_all, receive_n, ends, take-all, subscribe-publish-close-receive}
use sap.Sse.{state_sent, record_sent, at_state, connected, stream_once}
use sap.Sse.Handler.{open_stream, selected, serve}
use sap.Sse.Frames.{records_of, All, response_of, serve-stream_once}

module _ {R : Type 0} where
  records_of-selected : (rs : List R) (k : ℕ) → records_of (selected (map item rs ++ ends k)) ≡ rs
  unfolding records_of selected
  records_of-selected [] zero = refl
  records_of-selected [] (suc k) = refl
  records_of-selected (r ∷ rs) k = ap (◌∷◌ r) (records_of-selected rs k)

module _ {R : Type 0} (marshal : R → Option String) (unmarshal : String → Option R) where
  -- A handler that has subscribed to an open hub and receives after `rs` were published, at most 1024
  -- of them, and the hub was closed: if every payload is one line that fits in the client's buffer
  -- and can be read back, and the connection takes the greeting and a write for each, the client
  -- connects, gets exactly these records in order, and ends with `stream closed`.
  pub publish-serve-stream_once :
      (attempt : ℕ) (rs : List R) (reply : Reply) (w : World R) (v : Inv w)
      → v.hub.closed ≡ false
      → All marshal unmarshal rs
      → length rs ≤ 1024
      → reply.flusher ≡ true
      → reply.wire ≡ []
      → length rs < reply.room
      → let (w₁, a, _) = open_stream w in
        (w₂ : World R) × (w₃ : World R) × (publish_all rs w₁ ≡ some w₂)
        × (close w₂ ≡ some w₃)
        × (stream_once unmarshal attempt (
              response_of marshal unmarshal
                (text_of (serve marshal (selected (receive_n (length rs + 1) a w₃).1) reply).wire))
            ≡ (state_sent (at_state connected attempt) ∷ map record_sent rs, "stream closed"))
  unfolding open_stream
  publish-serve-stream_once attempt rs reply w v q s few f e l =
      let (w₂, w₃, e₂, e₃, got) = subscribe-publish-close-receive (pos 1024) rs 1 w v q in
      let cases = selected (map item rs ++ ends 1) in
      let all = records_of-selected rs 1 in
      (
        w₂,
        w₃,
        e₂,
        e₃,
        ap
              (λ (xs : List (Received R)).
                stream_once unmarshal attempt (
                  response_of marshal unmarshal (text_of (serve marshal (selected xs) reply).wire)))
              (subst
                (λ xs. (receive_n (length xs + 1) (open_stream w).1 w₃).1 ≡ map item xs ++ ends 1)
                (take-all 1024 rs few) got)
            ∙ serve-stream_once marshal unmarshal attempt cases reply
                (subst (All marshal unmarshal) (sym all) s) f e
                (subst (λ xs. length xs < reply.room) (sym all) l)
            ∙ ap
                (λ xs.
                  (state_sent (at_state connected attempt) ∷ map record_sent xs, "stream closed"))
                all,
      )
