-- ===== src/Web/Stream.antt =====
-- The HTTP handlers of viewer/sap-web/server.go.
use Prim.Native.String.{◌++◌}
use sap.Base.{ℕ, Option, none, some, List, [], ◌∷◌, Bool, true, false, String, ite, str_dec}
use sap.Base.Http.{Reply, set_header, write, then_write, http_error}
use sap.Base.Lines.{scan_lines}
use sap.Base.Int.{if◌then◌else◌}
use sap.Message.Proto.{Time}
use sap.Sse.Handler.{Selected, gone, received, closed, stream_headers, after_write}
use sap.Web.Server.{Rendered, html, failed, Templates, Snapshot, Server, snapshot_locked}
use sap.Web.Session.{toggle_paused, clear_all}

-- The limit of the scanner of `writeSSE`.
abbrev pub max_line_bytes : ℕ
max_line_bytes = 4194304

unfoldable pub write_lines : List String → Reply → Reply × Bool
unfolding then_write write
write_lines [] w = (w, true)
write_lines (l ∷ ls) w = then_write (write ("data: " ++ (l ++ "\n")) w) (write_lines ls)

-- What follows the lines: the error of the scanner, or an empty line.
unfoldable pub finish : Option String → Reply → Reply × Bool
unfolding write
finish (some err) w = (w, false)
finish none w = write "\n" w

unfoldable pub write_data : String → Reply → Reply × Bool
unfolding write_lines finish scan_lines
write_data text w =
    let (lines, err) = scan_lines max_line_bytes text in
    ite (str_dec text "") (write "data:\n\n" w) (then_write (write_lines lines w) (finish err))

-- `writeSSE`, with true where it returns no error.
unfoldable pub write_sse : String → String → Reply → Reply × Bool
unfolding write_data
write_sse event text w = then_write (write ("event: " ++ (event ++ "\n")) w) (write_data text)

unfoldable pub write_part : String → String → Reply → Reply × Bool
unfolding write_sse
write_part event text w = ite (str_dec text "") (w, true) (write_sse event text w)

unfoldable pub write_snapshot : Snapshot → Reply → Reply × Bool
unfolding write_part
write_snapshot snap w = then_write (write_part "roots" snap.roots_html w) (λ w'.
    then_write (write_part "patch" snap.patch_html w') (write_part "status" snap.status_html))

unfoldable pub stream_loop : List (Selected Snapshot) → Reply → Reply
unfolding write_snapshot after_write
stream_loop [] w = w
stream_loop (gone ∷ cases) w = w
stream_loop (closed ∷ cases) w = w
stream_loop (received snap ∷ cases) w = after_write (write_snapshot snap w) (stream_loop cases)

-- A request with a method, where a handler takes only another one.
unfoldable pub not_allowed : String → Reply → Reply
unfolding set_header http_error
not_allowed allowed w = http_error "method not allowed" 405 (set_header "Allow" allowed w)

-- `handleStream`, for the cases that it selects after it has subscribed.
unfoldable pub handle_stream : String → List (Selected Snapshot) → Reply → Reply
unfolding not_allowed stream_headers after_write write stream_loop http_error
handle_stream method cases w =
    ite (str_dec method "GET")
      (if w.flusher
        then after_write (write ": connected\n\n" (stream_headers w)) (stream_loop cases)
        else http_error "streaming unsupported by responseWriter" 500 w)
      (not_allowed "GET" w)

-- The answer with a status line, and the server after the call.
unfoldable pub answer_status : Option (Server × Snapshot) → Reply → Option (Server × Reply)
unfolding set_header write
answer_status none w = none
answer_status (some (s, snap)) w =
    some (s, (write snap.status_html (set_header "Content-Type" "text/html; charset=utf-8" w)).0)

unfoldable pub answer_page : Rendered → Reply → Reply
unfolding write http_error
answer_page (html text) w = (write text w).0
answer_page (failed err) w = http_error err 500 w

module _ (t : Templates) where
  unfoldable pub handle_pause : String → Time → Server → Reply → Option (Server × Reply)
  unfolding not_allowed answer_status toggle_paused
  handle_pause method now s w =
      ite (str_dec method "POST") (answer_status (toggle_paused t now s) w)
        (some (s, not_allowed "POST" w))

  unfoldable pub handle_clear : String → Time → Server → Reply → Option (Server × Reply)
  unfolding not_allowed answer_status clear_all
  handle_clear method now s w =
      ite (str_dec method "POST") (answer_status (clear_all t now s) w)
        (some (s, not_allowed "POST" w))

  unfoldable pub handle_home : String → String → Time → Server → Reply → Reply
  unfolding not_allowed http_error answer_page snapshot_locked
  handle_home path method now s w =
      ite (str_dec path "/")
        (ite (str_dec method "GET") (answer_page (t.page (snapshot_locked t now s)) w)
          (not_allowed "GET" w))
        (http_error "404 page not found" 404 w)
