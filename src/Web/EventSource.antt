-- ===== src/Web/EventSource.antt =====
-- What an EventSource makes of a stream: the lines of a text, as events of a name and data. It is an
-- independent description of what `writeSSE` is to write.
use Prim.Native.Char.{code}
use Prim.Native.String as Text
use sap.Base.{Option, none, some, List, [], ◌∷◌, ◌++◌, String}
use sap.Base.Int.{◌==◌, if◌then◌else◌}
use sap.Base.Lines.{split_lines}
use sap.Base.Lines.Join.{join_lines}

-- The text after a prefix.
unfoldable pub cut : String → String → Option String
cut Text.[] s = some s
cut (Text.◌∷◌ c p) Text.[] = none
cut (Text.◌∷◌ c p) (Text.◌∷◌ d s) = if code c == code d then cut p s else none

-- One space in front of a value is not part of it.
unfoldable pub strip_space : String → String
strip_space Text.[] = Text.[]
strip_space (Text.◌∷◌ c s) = if code c == 32 then s else Text.◌∷◌ c s

-- The name and the data lines of the event that is read.
unfoldable pub absorb : String → String × List String → String × List String
unfolding cut strip_space
absorb line (event, lines) = elim (cut "event:" line) [
  | some name ↦ (strip_space name, lines)
  | none ↦ elim (cut "data:" line) [
    | some text ↦ (event, lines ++ strip_space text ∷ [])
    | none ↦ (event, lines)
  ]
]

-- An empty line ends an event; one without data is dropped.
unfoldable pub dispatch : String × List String → List (String × String) → List (String × String)
unfolding join_lines
dispatch (event, []) rest = rest
dispatch (event, l ∷ ls) rest = (event, join_lines (l ∷ ls)) ∷ rest

unfoldable pub read_events : List String → String × List String → List (String × String)
unfolding absorb dispatch
read_events [] st = []
read_events (Text.[] ∷ lines) st = dispatch st (read_events lines ("", []))
read_events (Text.◌∷◌ c s ∷ lines) st = read_events lines (absorb (Text.◌∷◌ c s) st)

-- The events of a text.
unfoldable pub events_of : String → List (String × String)
unfolding read_events split_lines
events_of text = read_events (split_lines text) ("", [])
