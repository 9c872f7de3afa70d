-- ===== src/Base/Lines.antt =====
-- Text as lines: `bufio.ScanLines` and the limit of a `bufio.Scanner`.
pub mod Join
use Prim.Native.Char.{Char, code, len_utf8}
use Prim.Native.String as Text
use Prim.Native.String.{String, ◌++◌, len}
use Prim.Native.String.len
use sap.Base.Lists.{All}
use sap.Base.Text.{if_ind}
use text.Mathlib.TextLemmas.{append_assoc, cons-append, nil-append}
use mathlib.Core.Path.{◌≡◌, refl, sym, ap, ◌∙◌, subst}
use mathlib.Core.Bool.{Bool, true, false}
use mathlib.Core.List.{List, [], ◌∷◌}
use mathlib.Core.Option.{Option, none, some}
use Prim.Native.Nat.{ℕ, ◌+◌, ◌<◌, ◌≤◌}
use native.Mathlib.Omega.{arith}
use sap.Base.Int.{◌==◌, ltb, if◌then◌else◌}

-- A character before the first line.
unfoldable pub push : Char → List String → List String
push c [] = Text.◌∷◌ c Text.[] ∷ []
push c (l ∷ ls) = Text.◌∷◌ c l ∷ ls

-- The lines without their ends; the text after the last end is a line if it is not empty.
unfoldable pub split_lines : String → List String
unfolding push
split_lines Text.[] = []
split_lines (Text.◌∷◌ c s) =
    if code c == 10 then Text.[] ∷ split_lines s else push c (split_lines s)

-- A carriage return at the end of a line is dropped.
unfoldable pub drop_cr : String → String
drop_cr Text.[] = Text.[]
drop_cr (Text.◌∷◌ c Text.[]) = if code c == 13 then Text.[] else Text.◌∷◌ c Text.[]
drop_cr (Text.◌∷◌ c (Text.◌∷◌ d s)) = Text.◌∷◌ c (drop_cr (Text.◌∷◌ d s))

-- The lines up to the first one that does not fit in the buffer, and the error that it makes; the
-- buffer is measured in bytes, and a line needs one more for its end.
unfoldable pub fit : ℕ → List String → List String × Option String
unfolding drop_cr
fit limit [] = ([], none)
fit limit (l ∷ ls) =
    let rest = fit limit ls in
    if ltb (len l) limit
    then (drop_cr l ∷ rest.0, rest.1)
    else ([], some "bufio.Scanner: token too long")

unfoldable pub scan_lines : ℕ → String → List String × Option String
unfolding fit split_lines
scan_lines limit text = fit limit (split_lines text)

unfoldable pub has_code : ℕ → String → Bool
has_code n Text.[] = false
has_code n (Text.◌∷◌ c s) = if code c == n then true else has_code n s

-- A text of one character before another text.
pub char-append : (c : Char) (s : String) → Text.◌∷◌ c Text.[] ++ s ≡ Text.◌∷◌ c s
char-append c s = cons-append c Text.[] s ∙ ap (Text.◌∷◌ c) (nil-append s)

-- A text in front of another one, by its characters.
unfoldable pub prepend : String → String → String
prepend Text.[] l = l
prepend (Text.◌∷◌ c p) l = Text.◌∷◌ c (prepend p l)

pub prepend-append : (p l : String) → p ++ l ≡ prepend p l
unfolding prepend
prepend-append Text.[] l = nil-append l
prepend-append (Text.◌∷◌ c p) l = cons-append c p l ∙ ap (Text.◌∷◌ c) (prepend-append p l)

pub split_lines-line :
    (l rest : String)
    → has_code 10 l ≡ false
    → split_lines (l ++ ("\n" ++ rest)) ≡ l ∷ split_lines rest
unfolding split_lines has_code push
split_lines-line Text.[] rest e = ap split_lines (nil-append ("\n" ++ rest) ∙ char-append "\n" rest)
split_lines-line (Text.◌∷◌ c l) rest e =
    ap split_lines (cons-append c l ("\n" ++ rest)) ∙ ground (arith, e, split_lines-line l rest)

pub has_code-append :
    (n : ℕ) (s t : String)
    → has_code n s ≡ false
    → has_code n t ≡ false
    → has_code n (s ++ t) ≡ false
unfolding has_code
has_code-append n Text.[] t e e' = ap (has_code n) (nil-append t) ∙ e'
has_code-append n (Text.◌∷◌ c s) t e e' =
    ap (has_code n) (cons-append c s t) ∙ ground (arith, e, e', has_code-append n s t)

-- A line without a carriage return is not changed.
pub drop_cr-none : (s : String) → has_code 13 s ≡ false → drop_cr s ≡ s
unfolding drop_cr has_code
drop_cr-none Text.[] e = refl
drop_cr-none (Text.◌∷◌ c Text.[]) e = ground (arith, e)
drop_cr-none (Text.◌∷◌ c (Text.◌∷◌ d s)) e =
    ap (Text.◌∷◌ c) (drop_cr-none (Text.◌∷◌ d s) (ground (arith, e)))

-- A line that fits is scanned.
pub fit-line :
    (limit : ℕ) (l : String) (ls : List String)
    → len l < limit
    → has_code 13 l ≡ false
    → fit limit (l ∷ ls) ≡ (l ∷ (fit limit ls).0, (fit limit ls).1)
unfolding fit
fit-line limit l ls b e = ground (arith, b, drop_cr-none l e)

-- A line of a text: it has no end in it, and no return if the text has none, and it is not longer.
abbrev pub Clean : ℕ → String → Type 0
Clean n l = (has_code 10 l ≡ false) × (has_code 13 l ≡ false) × (len l ≤ n)

Clean-weaken : (m n : ℕ) (ls : List String) → m ≤ n → All (Clean m) ls → All (Clean n) ls
Clean-weaken m n [] h v = tt
Clean-weaken m n (l ∷ ls) h v = ((v.0.0, v.0.1, omega (arith, h, v.0.2)), Clean-weaken m n ls h v.1)

push-Clean :
    (c : Char) (n : ℕ) (ls : List String)
    → (code c == 10) ≡ false
    → (code c == 13) ≡ false
    → All (Clean n) ls
    → All (Clean (len_utf8 c + n)) (push c ls)
unfolding push has_code
push-Clean c n [] e e' v =
    ((ground (arith, e), ground (arith, e'), omega (arith, len.cons c Text.[], len.nil)), tt)
push-Clean c n (l ∷ ls) e e' v = (
  (ground (arith, e, v.0.0), ground (arith, e', v.0.1), omega (arith, len.cons c l, v.0.2)),
  Clean-weaken n (len_utf8 c + n) ls (omega arith) v.1,
)

pub split_lines-Clean : (s : String) → has_code 13 s ≡ false → All (Clean (len s)) (split_lines s)
unfolding split_lines has_code
split_lines-Clean Text.[] e = tt
split_lines-Clean (Text.◌∷◌ c s) e =
    let v = split_lines-Clean s (ground (arith, e)) in
    let longer : len s ≤ len (Text.◌∷◌ c s) = omega (arith, len.cons c s) in
    if_ind (All (Clean (len (Text.◌∷◌ c s)))) (code c == 10)
      (λ _. (
        (refl, refl, omega (arith, len.nil)),
        Clean-weaken (len s) (len (Text.◌∷◌ c s)) (split_lines s) longer v,
      ))
      (λ q.
        subst (λ m. All (Clean m) (push c (split_lines s))) (sym (len.cons c s))
          (push-Clean c (len s) (split_lines s) q (ground (arith, e)) v))

pub fit-Clean :
    (limit n : ℕ) (ls : List String) → n < limit → All (Clean n) ls → fit limit ls ≡ (ls, none)
unfolding fit
fit-Clean limit n [] h v = refl
fit-Clean limit n (l ∷ ls) h v =
    fit-line limit l ls (omega (arith, h, v.0.2)) v.0.1
    ∙ ap (λ (x : List String × Option String). (l ∷ x.0, x.1)) (fit-Clean limit n ls h v.1)
