-- ===== src/Sse/Trace.antt =====
-- What Stream of transport/sapsse/client.go sends on its channels.
use Prim.Native.String as Text
use Prim.Native.String.{len, slice, count}
use text.Mathlib.Text.{starts_with}
use text.Mathlib.TextEquality.{starts_with_iff}
use text.Mathlib.TextLemmas.{append_inj, append_assoc}
use sap.Base.{
  ℕ, suc, ◌≡◌, refl, sym, ◌∙◌, subst, inl, inr, String, Option, none, some, List, [], ◌∷◌, ◌++◌,
  map, Bool, true, false, arith,
}
use sap.Base.Int.{if◌then◌else◌}
use sap.Base.Text.{Bool-cases, ne_of_test}
use sap.Message.Proto.{Time}
use sap.Sse.{
  connecting, connected, retrying, disconnected, Emit, state_sent, record_sent, at_state, Response,
  failed, refused, body, Turn, done, tries, read_lines, emit_decoded, scan_error, stream_once,
  stream,
}

-- A comment line carries no data.
pub comment_line : (line : String) → starts_with line ":" ≡ true → starts_with line "data: " ≡ false
comment_line line e = elim (Bool-cases (starts_with line "data: ")) [
  | inr f ↦ f
  | inl d ↦ absurd (
      let (u, p) = (starts_with_iff line ":").0 e in
      let (v, q) = (starts_with_iff line "data: ").0 d in
      ne_of_test ":" "d" refl
        (append_inj {s₁ = ":"} {s₂ = "d"} {t₁ = u} {t₂ = Text.◌++◌ "ata: " v}
          (p ∙ sym q ∙ append_assoc "d" "ata: " v) refl).0)
]

module _ {R : Type 0} (unmarshal : String → Option R) where
  decoded_cons : Option R → List R → List R
  decoded_cons none rs = rs
  decoded_cons (some r) rs = r ∷ rs

  -- The records of the data lines that can be decoded.
  unfoldable pub decoded : List String → List R
  unfolding decoded_cons
  decoded [] = []
  decoded (line ∷ lines) =
      if starts_with line "data: "
      then decoded_cons (unmarshal (slice line (len "data: ") (len line))) (decoded lines)
      else decoded lines

  emit-decoded :
      (o : Option R) (rs : List R)
      → emit_decoded unmarshal o (map record_sent rs) ≡ map record_sent (decoded_cons o rs)
  unfolding emit_decoded decoded_cons
  emit-decoded none rs = refl
  emit-decoded (some r) rs = refl

  read_lines-decoded :
      (sent : Bool) (lines : List String)
      → read_lines unmarshal sent lines ≡ map record_sent (decoded lines)
  unfolding read_lines decoded
  read_lines-decoded sent [] = refl
  read_lines-decoded sent (line ∷ lines) = elim (Bool-cases (starts_with line ":")) [
    | inl e ↦ ground (
      arith,
      e,
      comment_line line e,
      read_lines-decoded true lines,
      read_lines-decoded sent lines,
    )
    | inr e ↦ ground (
      arith,
      e,
      read_lines-decoded sent lines,
      emit-decoded (unmarshal (slice line (len "data: ") (len line))) (decoded lines),
    )
  ]

  -- What the attempt number `n` sends after it says that it connects.
  pub data Sent (n : ℕ) : Response → List (Emit R) → Type 0 where
    no_response : (e : String) → Sent n (failed e) []
    bad_status : (status : String) → Sent n (refused status) []
    opened :
        (lines : List String) (e : Option String)
        → Sent n
            (body lines e)
            (state_sent (at_state connected n) ∷ map record_sent (decoded lines))

  -- Why an attempt ended: the error of the request, the status, or what ended the body.
  pub data Cause : Response → String → Type 0 where
    no_answer : (e : String) → Cause (failed e) e
    wrong_status :
        (status : String) → Cause (refused status) (Text.◌++◌ "unexpected status: " status)
    closed : (lines : List String) → Cause (body lines none) "stream closed"
    broken : (lines : List String) (e : String) → Cause (body lines (some e)) e

  -- The traffic of a client that has made `n` attempts, in turns that are given. It ends where the
  -- context is done. A turn with an answer is the next attempt: what it sends is that of the answer;
  -- it ends with a stop if the context is done, or else with a retry that gives the number of the
  -- attempt, the cause and the time of the next; after a retry the client stops if the context is
  -- done while it waits, or goes on with the turns that remain.
  mutual
    pub data Session : List Turn → ℕ → List (Emit R) → Type 0 where
      pending : (n : ℕ) → Session [] n []
      stopped :
          (turns : List Turn) (n : ℕ)
          → Session (done ∷ turns) n (state_sent (at_state disconnected 0) ∷ [])
      attempts :
          (response : Response) (gone : Bool) (at : Time) (stops : Bool) (turns : List Turn) (n : ℕ)
          {sent es : List (Emit R)}
          → Sent (suc n) response sent
          → After response gone at stops turns (suc n) es
          → Session
              (tries response gone at stops ∷ turns)
              n
              (state_sent (at_state connecting (suc n)) ∷ (sent ++ es))

    pub data After : Response → Bool → Time → Bool → List Turn → ℕ → List (Emit R) → Type 0 where
      cancelled :
          (response : Response) (at : Time) (stops : Bool) (turns : List Turn) (n : ℕ)
          → After response true at stops turns n (state_sent (at_state disconnected 0) ∷ [])
      gives_up :
          (response : Response) (at : Time) (turns : List Turn) (n : ℕ) (e : String)
          → Cause response e
          → After response false at true turns n (
              state_sent (record { state = retrying; attempt = n; err = e; retry_at = at })
              ∷ state_sent (at_state disconnected 0)
              ∷ [])
      retries :
          (response : Response) (at : Time) (turns : List Turn) (n : ℕ) (e : String)
          {es : List (Emit R)}
          → Cause response e
          → Session turns n es
          → After response false at false turns n
              (state_sent (record { state = retrying; attempt = n; err = e; retry_at = at }) ∷ es)

  stream_once-Sent :
      (n : ℕ) (response : Response) → Sent n response (stream_once unmarshal n response).0
  unfolding stream_once
  stream_once-Sent n (failed e) = no_response e
  stream_once-Sent n (refused status) = bad_status status
  stream_once-Sent n (body lines e) =
      subst (λ es. Sent n (body lines e) (state_sent (at_state connected n) ∷ es))
        (sym (read_lines-decoded false lines)) (opened lines e)

  stream_once-Cause :
      (n : ℕ) (response : Response) → Cause response (stream_once unmarshal n response).1
  unfolding stream_once scan_error
  stream_once-Cause n (failed e) = no_answer e
  stream_once-Cause n (refused status) = wrong_status status
  stream_once-Cause n (body lines none) = closed lines
  stream_once-Cause n (body lines (some e)) = broken lines e

  -- What follows the answer of an attempt, given the traffic of the turns that remain.
  ends_turn :
      (response : Response) (gone : Bool) (at : Time) (stops : Bool) (turns : List Turn) (n : ℕ)
      (e : String) {es : List (Emit R)}
      → Cause response e
      → Session turns n es
      → After response gone at stops turns n (
          if gone
          then state_sent (at_state disconnected 0) ∷ []
          else state_sent (record { state = retrying; attempt = n; err = e; retry_at = at })
            ∷ (if stops then state_sent (at_state disconnected 0) ∷ [] else es))
  ends_turn response true at stops turns n e c s = cancelled response at stops turns n
  ends_turn response false at true turns n e c s = gives_up response at turns n e c
  ends_turn response false at false turns n e c s = retries response at turns n e c s

  -- Whatever the server and the context do in the turns given, the loop of `Stream` after `n` attempts
  -- sends what a life of the connection with these turns sends. The next attempts are numbered from
  -- n + 1 without a gap. An attempt whose answer has a body sends `connected` and then exactly the
  -- records of the body's data lines that can be decoded, in order; one with another answer sends
  -- nothing. It ends with a retry that gives its number, the cause and the time of the next attempt,
  -- or with a stop, and after `disconnected` nothing is sent.
  pub stream-Session : (turns : List Turn) (n : ℕ) → Session turns n (stream unmarshal turns n)
  unfolding stream
  stream-Session [] n = pending n
  stream-Session (done ∷ turns) n = stopped turns n
  stream-Session (tries response gone at stops ∷ turns) n =
      attempts response gone at stops turns n (stream_once-Sent (suc n) response) (
        ends_turn response gone at stops turns (suc n) _ (stream_once-Cause (suc n) response)
          (stream-Session turns (suc n)))
