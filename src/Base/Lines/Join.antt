-- ===== src/Base/Lines/Join.antt =====
-- Lines that are put together again.
use Prim.Native.Char.{Char, code}
use Prim.Native.String as Text
use Prim.Native.String.{String, ◌++◌}
use text.Mathlib.TextLemmas.{cons-append, nil-append}
use text.Mathlib.TextEquality.{Char-path}
use mathlib.Core.Path.{◌≡◌, refl, sym, ap, ◌∙◌}
use mathlib.Core.Bool.{true}
use mathlib.Core.List.{List, [], ◌∷◌}
use native.Mathlib.Omega.{arith}
use sap.Base.Int.{◌==◌, if◌then◌else◌}
use sap.Base.Text.{if_ind}
use sap.Base.Lines.{push, split_lines, char-append}

unfoldable pub join_lines : List String → String
join_lines [] = ""
join_lines (l ∷ []) = l
join_lines (l ∷ l' ∷ ls) = l ++ ("\n" ++ join_lines (l' ∷ ls))

-- A text without a line end at its end.
unfoldable pub chomp : String → String
chomp Text.[] = Text.[]
chomp (Text.◌∷◌ c Text.[]) = if code c == 10 then Text.[] else Text.◌∷◌ c Text.[]
chomp (Text.◌∷◌ c (Text.◌∷◌ d s)) = Text.◌∷◌ c (chomp (Text.◌∷◌ d s))

join_lines-push :
    (c : Char) (l : String) (ls : List String)
    → join_lines (Text.◌∷◌ c l ∷ ls) ≡ Text.◌∷◌ c (join_lines (l ∷ ls))
unfolding join_lines
join_lines-push c l [] = refl
join_lines-push c l (l' ∷ ls) = cons-append c l ("\n" ++ join_lines (l' ∷ ls))

pub push-split :
    (c : Char) (s : String)
    → (l : String) × (ls : List String) × (split_lines (Text.◌∷◌ c s) ≡ l ∷ ls)
unfolding split_lines push
push-split c s =
    if_ind (λ (x : List String). (l : String) × (ls : List String) × (x ≡ l ∷ ls)) (code c == 10)
      (λ _. (Text.[], split_lines s, refl)) (λ _. pushed (split_lines s))
  where
    pushed : (ls : List String) → (l : String) × (ls' : List String) × (push c ls ≡ l ∷ ls')
    pushed [] = (Text.◌∷◌ c Text.[], [], refl)
    pushed (l ∷ ls) = (Text.◌∷◌ c l, ls, refl)

-- The lines of a text, put together again.
pub join_lines-split_lines : (s : String) → join_lines (split_lines s) ≡ chomp s
unfolding split_lines push join_lines chomp
join_lines-split_lines Text.[] = refl
join_lines-split_lines (Text.◌∷◌ c Text.[]) =
    if_ind (λ (x : List String). join_lines x ≡ chomp (Text.◌∷◌ c Text.[])) (code c == 10)
      (λ q. ground (arith, q)) (λ q. ground (arith, q))
join_lines-split_lines (Text.◌∷◌ c (Text.◌∷◌ d s)) =
    let (l, ls, e) = push-split d s in
    let h : join_lines (l ∷ ls) ≡ chomp (Text.◌∷◌ d s) =
      ap join_lines (sym e) ∙ join_lines-split_lines (Text.◌∷◌ d s) in
    if_ind (λ (x : List String). join_lines x ≡ Text.◌∷◌ c (chomp (Text.◌∷◌ d s))) (code c == 10)
      (λ q.
        ap (λ x. join_lines (Text.[] ∷ x)) e
        ∙ nil-append ("\n" ++ join_lines (l ∷ ls))
        ∙ char-append "\n" (join_lines (l ∷ ls))
        ∙ ap (λ x. Text.◌∷◌ x (join_lines (l ∷ ls))) (sym (Char-path c "\n" (is_newline q)))
        ∙ ap (Text.◌∷◌ c) h)
      (λ q. ap (λ x. join_lines (push c x)) e ∙ join_lines-push c l ls ∙ ap (Text.◌∷◌ c) h)
  where
    is_newline : code c == 10 ≡ true → code c ≡ 10
    is_newline q = ground (arith, q)
