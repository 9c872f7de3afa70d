-- ===== src/Sse/Handler.antt =====
-- transport/sapsse/sse.go: the handler that streams the records of a hub.
use Prim.Native.String.{◌++◌}
use sap.Base.{ℕ, Option, none, some, List, [], ◌∷◌, Bool, true, false, String}
use sap.Base.Int.{pos, if◌then◌else◌}
use sap.Base.Http.{Reply, set_header, write, flush_now, http_error}
use sap.Hub.{World, Cancel, Received, item, end, wait, subscribe}

-- A case of the `select`: the request is done, or a receive.
pub data Selected (R : Type 0) : Type 0 where
  gone : Selected R
  received : R → Selected R
  closed : Selected R

unfoldable pub stream_headers : Reply → Reply
unfolding set_header
stream_headers w = set_header "X-Accel-Buffering" "no" (
    set_header "Connection" "keep-alive"
      (set_header "Cache-Control" "no-cache" (set_header "Content-Type" "text/event-stream" w)))

-- What follows a write: a flush and the rest, or the end of the handler if the write failed.
unfoldable pub after_write : Reply × Bool → (Reply → Reply) → Reply
unfolding flush_now
after_write (w, true) rest = rest (flush_now w)
after_write (w, false) rest = w

-- The payload of a record as a frame; a record that cannot be marshalled is passed over.
unfoldable pub send_frame : Option String → (Reply → Reply) → Reply → Reply
unfolding write after_write
send_frame none rest w = rest w
send_frame (some payload) rest w = after_write (write ("data: " ++ (payload ++ "\n\n")) w) rest

module _ {R : Type 0} (marshal : R → Option String) where
  -- The cases that are selected, in order. The handler waits where they end.
  unfoldable pub serve_loop : List (Selected R) → Reply → Reply
  unfolding send_frame
  serve_loop [] w = w
  serve_loop (gone ∷ cases) w = w
  serve_loop (closed ∷ cases) w = w
  serve_loop (received r ∷ cases) w = send_frame (marshal r) (serve_loop cases) w

  -- The function that `NewHandler` returns, after it has subscribed.
  unfoldable pub serve : List (Selected R) → Reply → Reply
  unfolding serve_loop stream_headers http_error
  serve cases w =
      if w.flusher
      then after_write (write ": connected\n\n" (stream_headers w)) (serve_loop cases)
      else http_error "streaming unsupported by responseWriter" 500 w

module _ {R : Type 0} where
  -- A request subscribes with a buffer of 1024 records.
  unfoldable pub open_stream : World R → World R × ℕ × Cancel
  unfolding subscribe
  open_stream w = subscribe (pos 1024) w

  -- What the handler selects where its channel is always ready; a receive that waits selects nothing.
  unfoldable pub selected : List (Received R) → List (Selected R)
  selected [] = []
  selected (item r ∷ rs) = received r ∷ selected rs
  selected (end ∷ rs) = closed ∷ selected rs
  selected (wait ∷ rs) = selected rs
