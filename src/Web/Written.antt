-- ===== src/Web/Written.antt =====
-- What `writeSSE` of viewer/sap-web/server.go writes, as an EventSource reads it.
use Prim.Native.String as Text
use Prim.Native.String.{◌++◌, len}
use text.Mathlib.TextLemmas.{append_assoc, append-nil, nil-append}
use mathlib.Core.List.{append-nil as list_append-nil, append_assoc as list_append_assoc}
use sap.Base.{
  ℕ, suc, ◌+◌, ◌-◌, ◌≤◌, ◌<◌, ◌≡◌, refl, sym, ap, subst, ◌∙◌, Option, none, some, List, [], ◌∷◌,
  Bool, true, false, String, ite, str_dec, arith, map,
}
use sap.Base.Text.{ite_ind}
use sap.Base.Lists.{All, length}
use sap.Base.Http.{chunk, Reply, write, write-ok, then_write, text_of, text_of-append}
use sap.Base.Lines.{
  push, prepend, prepend-append, has_code, split_lines, split_lines-line, has_code-append,
  scan_lines, Clean, split_lines-Clean, fit-Clean,
}
use sap.Base.Lines.Join.{join_lines, chomp, push-split, join_lines-split_lines}
use sap.Web.Stream.{max_line_bytes, write_lines, finish, write_data, write_sse}
use sap.Web.EventSource.{cut, strip_space, absorb, dispatch, read_events, events_of}

read-data :
    (l : String) (lines : List String) (event : String) (ds : List String)
    → read_events (("data: " ++ l) ∷ lines) (event, ds)
      ≡ read_events lines (event, sap.Base.◌++◌ ds (l ∷ []))
unfolding read_events absorb cut strip_space prepend
read-data l lines event ds =
    ap (λ x. read_events (x ∷ lines) (event, ds)) (prepend-append "data: " l)

read-event :
    (l : String) (lines : List String) (event : String) (ds : List String)
    → read_events (("event: " ++ l) ∷ lines) (event, ds) ≡ read_events lines (l, ds)
unfolding read_events absorb cut strip_space prepend
read-event l lines event ds =
    ap (λ x. read_events (x ∷ lines) (event, ds)) (prepend-append "event: " l)

data_lines : List String → List String
data_lines ls = map (λ l. "data: " ++ l) ls

lines_text : List String → String
lines_text [] = ""
lines_text (l ∷ ls) = ("data: " ++ (l ++ "\n")) ++ lines_text ls

-- A call that writes a text in some writes and does not fail.
abbrev Wrote : Reply → String → ℕ → Reply × Bool → Type 0
Wrote w s n x =
    (w' : Reply) × (x ≡ (w', true))
    × (text_of w'.wire ≡ text_of w.wire ++ s)
    × (w'.room ≡ w.room - n)

write-Wrote : (s : String) (w : Reply) → 0 < w.room → Wrote w s 1 (write s w)
unfolding text_of
write-Wrote s w l = (
  _,
  write-ok s w l,
  text_of-append w.wire (chunk s ∷ []) ∙ ap (λ t. text_of w.wire ++ t) (append-nil s),
  refl,
)

then-Wrote :
    (w : Reply) (s s' : String) (n m : ℕ) (x : Reply × Bool) (f : Reply → Reply × Bool)
    → Wrote w s n x
    → ((w' : Reply) → w'.room ≡ w.room - n → Wrote w' s' m (f w'))
    → Wrote w (s ++ s') (n + m) (then_write x f)
unfolding then_write
then-Wrote w s s' n m x f (w', e, t, r) g =
    let (w'', e', t', r') = g w' r in
    (
      w'',
      ap (λ y. then_write y f) e ∙ e',
      t' ∙ ap (λ y. y ++ s') t ∙ append_assoc (text_of w.wire) s s',
      omega (arith, r, r'),
    )

write_lines-Wrote :
    (ls : List String) (w : Reply)
    → length ls ≤ w.room
    → Wrote w (lines_text ls) (length ls) (write_lines ls w)
unfolding write_lines lines_text
write_lines-Wrote [] w l = (w, refl, sym (append-nil (text_of w.wire)), omega arith)
write_lines-Wrote (x ∷ ls) w l =
    subst
      (λ n.
        Wrote w (("data: " ++ (x ++ "\n")) ++ lines_text ls) n
          (then_write (write ("data: " ++ (x ++ "\n")) w) (write_lines ls)))
      (omega arith)
      (then-Wrote w ("data: " ++ (x ++ "\n")) (lines_text ls) 1 (length ls) _ _
        (write-Wrote _ w (omega (arith, l)))
        (λ w' r. write_lines-Wrote ls w' (omega (arith, l, r))))

lines_text-split :
    (n : ℕ) (ls : List String)
    → All (Clean n) ls
    → split_lines (lines_text ls ++ "\n") ≡ sap.Base.◌++◌ (data_lines ls) ("" ∷ [])
unfolding lines_text data_lines split_lines has_code
lines_text-split n [] v = ap split_lines (nil-append "\n")
lines_text-split n (l ∷ ls) v =
    ap split_lines (regroup l (lines_text ls))
    ∙ split_lines-line ("data: " ++ l) (lines_text ls ++ "\n")
        (has_code-append 10 "data: " l refl v.0.0)
    ∙ ap (λ x. ("data: " ++ l) ∷ x) (lines_text-split n ls v.1)
  where
    regroup :
        (l t : String)
        → (("data: " ++ (l ++ "\n")) ++ t) ++ "\n" ≡ ("data: " ++ l) ++ ("\n" ++ (t ++ "\n"))
    regroup l t =
        ap (λ x. (x ++ t) ++ "\n") (sym (append_assoc "data: " l "\n"))
        ∙ append_assoc (("data: " ++ l) ++ "\n") t "\n"
        ∙ append_assoc ("data: " ++ l) "\n" (t ++ "\n")

read-data_lines :
    (ls : List String) (event : String) (d : String) (ds : List String)
    → read_events (sap.Base.◌++◌ (data_lines ls) ("" ∷ [])) (event, d ∷ ds)
      ≡ (event, join_lines (d ∷ sap.Base.◌++◌ ds ls)) ∷ []
unfolding read_events data_lines dispatch
read-data_lines [] event d ds =
    ap (λ x. (event, join_lines (d ∷ x)) ∷ []) (sym (list_append-nil ds))
read-data_lines (l ∷ ls) event d ds =
    read-data l _ event (d ∷ ds)
    ∙ read-data_lines ls event d (sap.Base.◌++◌ ds (l ∷ []))
    ∙ ap (λ x. (event, join_lines (d ∷ x)) ∷ []) (list_append_assoc ds (l ∷ []) ls)

-- A call that writes the data lines of a text and the end of the event.
abbrev WroteData : String → Reply → Reply × Bool → Type 0
WroteData text w x =
    (s : String) × (n : ℕ) × Wrote w s n x
    × ((event : String) → read_events (split_lines s) (event, []) ≡ (event, chomp text) ∷ [])

not_empty-read :
    (text : String)
    → has_code 13 text ≡ false
    → ¬ (text ≡ "")
    → (event : String)
    → read_events (split_lines (lines_text (split_lines text) ++ "\n")) (event, [])
      ≡ (event, chomp text) ∷ []
unfolding data_lines
not_empty-read Text.[] e n event = absurd (n refl)
not_empty-read (Text.◌∷◌ c s) e n event =
    let text = Text.◌∷◌ c s in
    let (d, ls, q) = push-split c s in
    ap (λ x. read_events x (event, []))
      (lines_text-split (len text) (split_lines text) (split_lines-Clean text e))
    ∙ ap (λ x. read_events (sap.Base.◌++◌ (data_lines x) ("" ∷ [])) (event, [])) q
    ∙ read-data d _ event []
    ∙ read-data_lines ls event d []
    ∙ ap (λ x. (event, join_lines x) ∷ []) (sym q)
    ∙ ap (λ x. (event, x) ∷ []) (join_lines-split_lines text)

empty-read :
    (text : String)
    → text ≡ ""
    → (event : String)
    → read_events (split_lines "data:\n\n") (event, []) ≡ (event, chomp text) ∷ []
unfolding split_lines push read_events absorb cut strip_space dispatch join_lines chomp
empty-read text q event =
    subst (λ x. read_events (split_lines "data:\n\n") (event, []) ≡ (event, chomp x) ∷ []) (sym q)
      refl

write_data-WroteData :
    (text : String) (w : Reply)
    → has_code 13 text ≡ false
    → len text < max_line_bytes
    → length (split_lines text) < w.room
    → WroteData text w (write_data text w)
unfolding write_data scan_lines finish
write_data-WroteData text w e h r =
    let ls = split_lines text in
    subst
      (λ (x : List String × Option String).
        WroteData text w (
          ite (str_dec text "") (write "data:\n\n" w)
            (then_write (write_lines x.0 w) (finish x.1))))
      (sym (fit-Clean max_line_bytes (len text) ls h (split_lines-Clean text e)))
      (ite_ind (WroteData text w) (str_dec text "")
        (λ q. (
          "data:\n\n",
          1,
          write-Wrote "data:\n\n" w (omega (arith, r)),
          λ event. empty-read text q event,
        ))
        (λ n. (
          lines_text ls ++ "\n",
          length ls + 1,
          then-Wrote w (lines_text ls) "\n" (length ls) 1 (write_lines ls w) (finish none)
              (write_lines-Wrote ls w (omega (arith, r)))
              (λ w' r'. write-Wrote "\n" w' (omega (arith, r, r'))),
          not_empty-read text e n,
        )))

-- `writeSSE`, for a text without carriage returns that is shorter than the scanner's limit, on a
-- connection that takes a write for the name, for each line and for the end: it returns no error, and
-- an EventSource reads exactly one event, with the name and the text, less one line end at the end.
pub write_sse-events_of :
    (event text : String) (w : Reply)
    → has_code 10 event ≡ false
    → has_code 13 text ≡ false
    → len text < max_line_bytes
    → 2 + length (split_lines text) ≤ w.room
    → w.wire ≡ []
    → (w' : Reply) × (write_sse event text w ≡ (w', true))
      × (events_of (text_of w'.wire) ≡ (event, chomp text) ∷ [])
unfolding write_sse events_of has_code text_of then_write
write_sse-events_of event text w e f h r z =
    let name = "event: " ++ (event ++ "\n") in
    let (w₁, e₁, t₁, r₁) = write-Wrote name w (omega (arith, r)) in
    let (s, n, (w₂, e₂, t₂, _), reads) = write_data-WroteData text w₁ f h (omega (arith, r, r₁)) in
    (
      w₂,
      ap (λ y. then_write y (write_data text)) e₁ ∙ e₂,
      ap events_of (t₂ ∙ ap (λ y. y ++ s) (t₁ ∙ ap (λ ws. text_of ws ++ name) z ∙ nil-append name))
          ∙ ap (λ y. events_of (y ++ s)) (sym (append_assoc "event: " event "\n"))
          ∙ ap events_of (append_assoc ("event: " ++ event) "\n" s)
          ∙ ap (λ x. read_events x ("", []))
              (split_lines-line ("event: " ++ event) s (has_code-append 10 "event: " event refl e))
          ∙ read-event event (split_lines s) "" []
          ∙ reads event,
    )
