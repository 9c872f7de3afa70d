-- ===== src/Sse/Frames.antt =====
-- From the handler of transport/sapsse/sse.go to the client of transport/sapsse/client.go.
use Prim.Native.String.{◌++◌, len, slice}
use text.Mathlib.Text.{starts_with}
use text.Mathlib.TextEquality.{starts_with_iff}
use text.Mathlib.TextPositions.{slice-append_right, len-append}
use sap.Base.Text.{Bool-cases, if_ind}
use sap.Hub.Calls.{true_or_false}
use sap.Sse.Trace.{comment_line}
use text.Mathlib.TextLemmas.{append_assoc, append-nil, nil-append}
use sap.Base.{
  ℕ, ◌≤◌, ◌<◌, ◌≡◌, refl, sym, ap, subst, ◌∙◌, inl, inr, Option, none, some, List, [], ◌∷◌, Bool,
  true, false, String, map, arith,
}
use sap.Base.Lists.{length}
use sap.Base.Http.{Reply, flush_now, text_of, write-ok, written, set_header}
use sap.Base.Lines.{
  has_code, has_code-append, split_lines, split_lines-line, scan_lines, fit, fit-line,
}
use sap.Sse.{
  state_sent, record_sent, at_state, connected, Response, body, read_lines, scan_error, stream_once,
}
use sap.Sse.Handler.{
  Selected, gone, received, closed, stream_headers, after_write, send_frame, serve_loop, serve,
}

-- `maxFrameBytes`
abbrev pub max_frame_bytes : ℕ
max_frame_bytes = 10485760

-- A line and an empty line.
split_lines-frame :
    (l rest : String)
    → has_code 10 l ≡ false
    → split_lines ((l ++ "\n\n") ++ rest) ≡ l ∷ "" ∷ split_lines rest
unfolding has_code
split_lines-frame l rest e =
    ap split_lines (append_assoc l "\n\n" rest ∙ ap (λ t. l ++ t) (append_assoc "\n" "\n" rest))
    ∙ split_lines-line l ("\n" ++ rest) e
    ∙ ap (λ ls. l ∷ ls)
        (ap split_lines (sym (nil-append ("\n" ++ rest))) ∙ split_lines-line "" rest refl)

fit-frame :
    (l : String) (ls : List String)
    → len l < max_frame_bytes
    → has_code 13 l ≡ false
    → fit max_frame_bytes ls ≡ (ls, none)
    → fit max_frame_bytes (l ∷ "" ∷ ls) ≡ (l ∷ "" ∷ ls, none)
unfolding has_code
fit-frame l ls b e h =
    fit-line max_frame_bytes l ("" ∷ ls) b e
    ∙ ap (λ (x : List String × Option String). (l ∷ x.0, x.1))
        (fit-line max_frame_bytes "" ls (omega arith) refl
          ∙ ap (λ (x : List String × Option String). ("" ∷ x.0, x.1)) h)

data_line : (p : String) → starts_with ("data: " ++ p) "data: " ≡ true
data_line p = (starts_with_iff ("data: " ++ p) "data: ").1 (p, refl)

not_comment : (p : String) → starts_with ("data: " ++ p) ":" ≡ false
not_comment p = elim (Bool-cases (starts_with ("data: " ++ p) ":")) [
  | inl e ↦ absurd (true_or_false (sym (data_line p) ∙ comment_line ("data: " ++ p) e))
  | inr e ↦ e
]

payload_of : (p : String) → slice ("data: " ++ p) (len "data: ") (len ("data: " ++ p)) ≡ p
payload_of p =
    ap (slice ("data: " ++ p) (len "data: ")) (len-append "data: " p)
    ∙ slice-append_right "data: " p

module _ {R : Type 0} where
  -- The records that are received before the handler ends.
  unfoldable pub records_of : List (Selected R) → List R
  records_of [] = []
  records_of (gone ∷ cases) = []
  records_of (closed ∷ cases) = []
  records_of (received r ∷ cases) = r ∷ records_of cases

module _ {R : Type 0} (marshal : R → Option String) (unmarshal : String → Option R) where
  -- A record whose payload is one line that a client can scan and read back.
  pub record Sendable (r : R) : Type 0 where
    pub payload : String
    pub marshalled : marshal r ≡ some payload
    pub one_line : has_code 10 payload ≡ false
    pub no_return : has_code 13 payload ≡ false
    pub fits : len ("data: " ++ payload) < max_frame_bytes
    pub read_back : unmarshal payload ≡ some r

  abbrev pub All : List R → Type 0
  All [] = Unit
  All (r ∷ rs) = Sendable r × All rs

  frames : (rs : List R) → All rs → String
  frames [] v = ""
  frames (r ∷ rs) v = ("data: " ++ (v.0.payload ++ "\n\n")) ++ frames rs v.1

  serve_loop-text :
      (cases : List (Selected R)) (w : Reply) (v : All (records_of cases))
      → length (records_of cases) ≤ w.room
      → text_of (serve_loop marshal cases w).wire ≡ text_of w.wire ++ frames (records_of cases) v
  unfolding serve_loop records_of frames after_write flush_now
  serve_loop-text [] w v l = sym (append-nil (text_of w.wire))
  serve_loop-text (gone ∷ cases) w v l = sym (append-nil (text_of w.wire))
  serve_loop-text (closed ∷ cases) w v l = sym (append-nil (text_of w.wire))
  serve_loop-text (received r ∷ cases) w v l =
      let frame = "data: " ++ (v.0.payload ++ "\n\n") in
      let rest = frames (records_of cases) v.1 in
      let all = text_of w.wire ++ (frame ++ rest) in
      subst (λ o. text_of (send_frame o (serve_loop marshal cases) w).wire ≡ all)
        (sym v.0.marshalled)
        (subst (λ x. text_of (after_write x (serve_loop marshal cases)).wire ≡ all)
          (sym (write-ok frame w (omega (arith, l))))
          (serve_loop-text cases _ v.1 (omega (arith, l))
            ∙ ap (λ t. t ++ rest) (written w.wire frame)
            ∙ append_assoc (text_of w.wire) frame rest))

  -- The lines of the frames.
  lines_of : (rs : List R) → All rs → List String
  lines_of [] v = []
  lines_of (r ∷ rs) v = ("data: " ++ v.0.payload) ∷ "" ∷ lines_of rs v.1

  frames-lines : (rs : List R) (v : All rs) → split_lines (frames rs v) ≡ lines_of rs v
  unfolding frames lines_of split_lines has_code
  frames-lines [] v = refl
  frames-lines (r ∷ rs) v =
      let p = v.0.payload in
      ap (λ t. split_lines (t ++ frames rs v.1)) (sym (append_assoc "data: " p "\n\n"))
      ∙ split_lines-frame ("data: " ++ p) (frames rs v.1)
          (has_code-append 10 "data: " p refl v.0.one_line)
      ∙ ap (λ ls. ("data: " ++ p) ∷ "" ∷ ls) (frames-lines rs v.1)

  lines_of-fit :
      (rs : List R) (v : All rs) → fit max_frame_bytes (lines_of rs v) ≡ (lines_of rs v, none)
  unfolding lines_of fit has_code
  lines_of-fit [] v = refl
  lines_of-fit (r ∷ rs) v =
      fit-frame ("data: " ++ v.0.payload) (lines_of rs v.1) v.0.fits
        (has_code-append 13 "data: " v.0.payload refl v.0.no_return) (lines_of-fit rs v.1)

  read_lines-sent :
      (sent : Bool) (rs : List R) (v : All rs)
      → read_lines unmarshal sent (lines_of rs v) ≡ map record_sent rs
  unfolding read_lines lines_of
  read_lines-sent sent [] v = refl
  read_lines-sent sent (r ∷ rs) v =
      let line = "data: " ++ v.0.payload in
      ground (
        arith,
        data_line v.0.payload,
        not_comment v.0.payload,
        payload_of v.0.payload,
        v.0.read_back,
        read_lines-sent sent rs v.1,
      )

  -- The answer that a client gets whose connection has read a text: the lines that its scanner finds.
  abbrev pub response_of : String → Response
  response_of text = let (lines, e) = scan_lines max_frame_bytes text in body lines e

  -- The text of a new response with room for the greeting and one frame for each record.
  serve-text :
      (cases : List (Selected R)) (w : Reply) (v : All (records_of cases))
      → w.flusher ≡ true
      → w.wire ≡ []
      → length (records_of cases) < w.room
      → text_of (serve marshal cases w).wire ≡ ": connected\n\n" ++ frames (records_of cases) v
  unfolding serve stream_headers after_write flush_now set_header text_of
  serve-text cases w v f e l =
      let w' = stream_headers w in
      let greeting : String = ": connected\n\n" in
      let all = greeting ++ frames (records_of cases) v in
      if_ind (λ (x : Reply). text_of x.wire ≡ all) w.flusher
        (λ _.
          subst (λ x. text_of (after_write x (serve_loop marshal cases)).wire ≡ all)
            (sym (write-ok greeting w' (omega (arith, l))))
            (serve_loop-text cases _ v (omega (arith, l))
              ∙ ap (λ t. t ++ frames (records_of cases) v)
                  (written w.wire greeting
                    ∙ ap (λ ws. text_of ws ++ greeting) e
                    ∙ nil-append greeting)))
        (λ q. absurd (true_or_false (sym f ∙ q)))

  served-lines :
      (rs : List R) (v : All rs)
      → scan_lines max_frame_bytes (": connected\n\n" ++ frames rs v)
        ≡ (": connected" ∷ "" ∷ lines_of rs v, none)
  unfolding scan_lines has_code
  served-lines rs v =
      ap (fit max_frame_bytes) (
        split_lines-frame ": connected" (frames rs v) refl
        ∙ ap (λ ls. ": connected" ∷ "" ∷ ls) (frames-lines rs v))
      ∙ fit-frame ": connected" (lines_of rs v) (omega arith) refl (lines_of-fit rs v)

  -- A record that is received while the connection is open reaches a client that reads all of the
  -- response.
  pub serve-stream_once :
      (attempt : ℕ) (cases : List (Selected R)) (w : Reply)
      → All (records_of cases)
      → w.flusher ≡ true
      → w.wire ≡ []
      → length (records_of cases) < w.room
      → stream_once unmarshal attempt (response_of (text_of (serve marshal cases w).wire)) ≡ (
        state_sent (at_state connected attempt) ∷ map record_sent (records_of cases),
        "stream closed",
      )
  unfolding stream_once scan_error read_lines
  serve-stream_once attempt cases w v f e l =
      ap (λ t. stream_once unmarshal attempt (response_of t)) (serve-text cases w v f e l)
      ∙ ap (λ (x : List String × Option String). stream_once unmarshal attempt (body x.0 x.1))
          (served-lines (records_of cases) v)
      ∙ ap (λ es. (state_sent (at_state connected attempt) ∷ es, "stream closed"))
          (greeted ∙ read_lines-sent true (records_of cases) v)
    where
      greeted :
          read_lines unmarshal false (": connected" ∷ "" ∷ lines_of (records_of cases) v)
          ≡ read_lines unmarshal true (lines_of (records_of cases) v)
      greeted = refl
