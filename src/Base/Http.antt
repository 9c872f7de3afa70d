-- ===== src/Base/Http.antt =====
-- What the handlers use of a `http.ResponseWriter`: the headers that are set, the status, and what is
-- written, in order. `room` is the number of writes that the connection takes before they fail.
use Prim.Native.String as Text
use Prim.Native.String.{String}
use mathlib.Core.Bool.{Bool, true, false}
use mathlib.Core.List.{List, [], ◌∷◌, ◌++◌}
use mathlib.Core.Option.{Option, some}
use Prim.Native.Nat.{ℕ, zero, suc, ◌-◌, ◌<◌}
use mathlib.Core.Path.{◌≡◌, sym, ap, ◌∙◌}
use native.Mathlib.Omega.{arith}
use text.Mathlib.TextLemmas.{append_assoc, append-nil, nil-append}

pub data Wire : Type 0 where
  chunk : String → Wire
  flush : Wire

pub record Reply : Type 0 where
  pub flusher : Bool
  pub headers : List (String × String)
  pub status : Option ℕ
  pub wire : List Wire
  pub room : ℕ

-- `w.Header().Set`
unfoldable pub set_header : String → String → Reply → Reply
set_header key value w = record w { headers = (key, value) ∷ w.headers }

unfoldable pub write_at : String → ℕ → Reply → Reply × Bool
write_at s zero w = (w, false)
write_at s (suc n) w = (record w { wire = w.wire ++ chunk s ∷ []; room = n }, true)

-- `fmt.Fprint` or `w.Write`, with true where it returns no error.
unfoldable pub write : String → Reply → Reply × Bool
unfolding write_at
write s w = write_at s w.room w

-- `flusher.Flush()`
unfoldable pub flush_now : Reply → Reply
flush_now w = record w { wire = w.wire ++ flush ∷ [] }

-- `http.Error`: the text and a newline, with the status.
unfoldable pub http_error : String → ℕ → Reply → Reply
unfolding set_header write
http_error message status w =
    (write (Text.◌++◌ message "\n")
      (record (set_header "X-Content-Type-Options" "nosniff"
        (set_header "Content-Type" "text/plain; charset=utf-8" w)) { status = some status })).0

-- A write, and what comes after it if it does not fail.
unfoldable pub then_write : Reply × Bool → (Reply → Reply × Bool) → Reply × Bool
then_write (w, true) f = f w
then_write (w, false) f = (w, false)

-- The text that the other side reads.
unfoldable pub text_of : List Wire → String
text_of [] = ""
text_of (chunk s ∷ ws) = Text.◌++◌ s (text_of ws)
text_of (flush ∷ ws) = text_of ws

write_at-ok :
    (s : String) (n : ℕ) (w : Reply)
    → 0 < n
    → write_at s n w ≡ (record w { wire = w.wire ++ chunk s ∷ []; room = n - 1 }, true)
unfolding write_at
write_at-ok s zero w l = absurd (omega (arith, l))
write_at-ok s (suc n) w l =
    let e : n ≡ suc n - 1 = omega arith in
    ap (λ k. (record w { wire = w.wire ++ chunk s ∷ []; room = k }, true)) e

-- A write while the connection takes one.
pub write-ok :
    (s : String) (w : Reply)
    → 0 < w.room
    → write s w ≡ (record w { wire = w.wire ++ chunk s ∷ []; room = w.room - 1 }, true)
unfolding write
write-ok s w = write_at-ok s w.room w

pub text_of-append : (ws vs : List Wire) → text_of (ws ++ vs) ≡ Text.◌++◌ (text_of ws) (text_of vs)
unfolding text_of
text_of-append [] vs = sym (nil-append (text_of vs))
text_of-append (chunk s ∷ ws) vs =
    ap (Text.◌++◌ s) (text_of-append ws vs) ∙ sym (append_assoc s (text_of ws) (text_of vs))
text_of-append (flush ∷ ws) vs = text_of-append ws vs

-- What is read after a write and a flush.
pub written :
    (ws : List Wire) (s : String)
    → text_of ((ws ++ chunk s ∷ []) ++ flush ∷ []) ≡ Text.◌++◌ (text_of ws) s
unfolding text_of
written ws s =
    text_of-append (ws ++ chunk s ∷ []) (flush ∷ [])
    ∙ append-nil (text_of (ws ++ chunk s ∷ []))
    ∙ text_of-append ws (chunk s ∷ [])
    ∙ ap (Text.◌++◌ (text_of ws)) (append-nil s)
