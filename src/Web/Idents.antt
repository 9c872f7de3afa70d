-- ===== src/Web/Idents.antt =====
-- The identifiers of elements that viewer/sap-web/render.go makes of keys.
use Prim.Native.Char.{Char, code}
use Prim.Native.String as Text
use Prim.Native.String.{◌++◌}
use text.Mathlib.TextLemmas.{append_cancel_left, append_assoc, cons-append, nil-append, cons≢nil}
use sap.Base.{
  ℕ, ◌≤◌, ◌⊎◌, ◌≡◌, refl, sym, ap, ◌∙◌, Option, Bool, true, false, String, str_dec, if_neg, arith,
}
use sap.Base.Int.{if◌then◌else◌}
use sap.Base.Text.{if_ind, ite_ind}
use sap.Base.Lines.{prepend, prepend-append}
use sap.Message.Attributes.{Attribute}
use sap.State.Tree.{SpanFields, SpanState, span, Spans}
use sap.Web.Keys.{
  is_ident_char, ident_char, ident_chars, safe_css_ident, span_card_key, span_dom_id,
  span_summary_dom_id, span_attributes_dom_id, span_timeline_dom_id, timeline_list_dom_id,
  attr_dom_id, event_dom_id,
}

-- Only characters that the source keeps.
unfoldable pub all_ident : String → Bool
unfolding is_ident_char
all_ident Text.[] = true
all_ident (Text.◌∷◌ c s) = if is_ident_char c then all_ident s else false

all_ident-append :
    (s t : String) → all_ident s ≡ true → all_ident t ≡ true → all_ident (s ++ t) ≡ true
unfolding all_ident
all_ident-append Text.[] t e e' = ap all_ident (nil-append t) ∙ e'
all_ident-append (Text.◌∷◌ c s) t e e' =
    ap all_ident (cons-append c s t) ∙ ground (arith, e, e', all_ident-append s t)

ident_char-is_ident_char : (c : Char) → is_ident_char (ident_char c) ≡ true
unfolding ident_char all_ident
ident_char-is_ident_char c =
    if_ind (λ x. is_ident_char x ≡ true) (is_ident_char c) (λ q. q) (λ _. refl)

all_ident-ident_chars : (s : String) → all_ident (ident_chars s) ≡ true
unfolding ident_chars all_ident
all_ident-ident_chars Text.[] = refl
all_ident-ident_chars (Text.◌∷◌ c s) =
    ground (arith, ident_char-is_ident_char c, all_ident-ident_chars s)

ident_char-same : (c : Char) → is_ident_char c ≡ true → ident_char c ≡ c
unfolding ident_char
ident_char-same c e = ground (arith, e)

first_ident : (b : Bool) (r : Bool) → (if b then r else false) ≡ true → (b ≡ true) × (r ≡ true)
first_ident b r e = ground (arith, e)

ident_chars-same : (s : String) → all_ident s ≡ true → ident_chars s ≡ s
unfolding ident_chars all_ident
ident_chars-same Text.[] e = refl
ident_chars-same (Text.◌∷◌ c s) e =
    let (q, r) = first_ident (is_ident_char c) (all_ident s) e in
    ap (λ d. Text.◌∷◌ d (ident_chars s)) (ident_char-same c q)
    ∙ ap (Text.◌∷◌ c) (ident_chars-same s r)

pub safe_css_ident-all_ident :
    (value fallback : String)
    → all_ident fallback ≡ true
    → all_ident (safe_css_ident value fallback) ≡ true
unfolding safe_css_ident all_ident
safe_css_ident-all_ident value fallback e =
    ite_ind (λ x. all_ident x ≡ true) (str_dec value "") (λ _. e)
      (λ _. all_ident-append "sap-" (ident_chars value) refl (all_ident-ident_chars value))

-- A letter of the Latin alphabet, a digit, a dash or an underscore, by its code.
abbrev pub Plain : ℕ → Type 0
Plain n =
    ((97 ≤ n) × (n ≤ 122)) ⊎ ((65 ≤ n) × (n ≤ 90)) ⊎ ((48 ≤ n) × (n ≤ 57)) ⊎ (n ≡ 45) ⊎ (n ≡ 95)

-- Every character of a text is one of those.
abbrev pub AllPlain : String → Type 0
AllPlain Text.[] = Unit
AllPlain (Text.◌∷◌ c s) = Plain (code c) × AllPlain s

is_ident_char-Plain : (c : Char) → is_ident_char c ≡ true → Plain (code c)
unfolding is_ident_char
is_ident_char-Plain c e = ground (arith, e)

all_ident-AllPlain : (s : String) → all_ident s ≡ true → AllPlain s
unfolding all_ident
all_ident-AllPlain Text.[] e = tt
all_ident-AllPlain (Text.◌∷◌ c s) e =
    let (q, r) = first_ident (is_ident_char c) (all_ident s) e in
    (is_ident_char-Plain c q, all_ident-AllPlain s r)

safe_css_ident-AllPlain :
    (value fallback : String) → all_ident fallback ≡ true → AllPlain (safe_css_ident value fallback)
safe_css_ident-AllPlain value fallback e =
    all_ident-AllPlain _ (safe_css_ident-all_ident value fallback e)

-- Whatever the IDs, names and keys are, every identifier of an element consists of letters of the
-- Latin alphabet, digits, dashes and underscores, so that it closes no attribute and is one selector.
pub dom_ids-AllPlain :
    (s : SpanState) (key : String) (a : Option Attribute) (index : ℕ)
    → AllPlain (span_dom_id s)
      × AllPlain (span_summary_dom_id s)
      × AllPlain (span_attributes_dom_id s)
      × AllPlain (span_timeline_dom_id s)
      × AllPlain (timeline_list_dom_id s)
      × AllPlain (attr_dom_id key a index)
      × AllPlain (event_dom_id key)
unfolding span_dom_id span_summary_dom_id span_attributes_dom_id span_timeline_dom_id
    timeline_list_dom_id attr_dom_id event_dom_id all_ident
dom_ids-AllPlain s key a index = (
  safe_css_ident-AllPlain _ _ refl,
  safe_css_ident-AllPlain _ _ refl,
  safe_css_ident-AllPlain _ _ refl,
  safe_css_ident-AllPlain _ _ refl,
  safe_css_ident-AllPlain _ _ refl,
  safe_css_ident-AllPlain _ _ refl,
  safe_css_ident-AllPlain _ _ refl,
)

span_dom_id-plain :
    (f : SpanFields) (ts : Spans)
    → ¬ (f.span_id ≡ "")
    → all_ident f.span_id ≡ true
    → span_dom_id (span f ts) ≡ "sap-span-" ++ f.span_id
unfolding span_dom_id safe_css_ident span_card_key ident_chars ident_char all_ident prepend
span_dom_id-plain f ts n e =
    let id = f.span_id in
    ap (λ k. safe_css_ident k "sap-span-unknown") (if_neg (str_dec id "") n _ _)
    ∙ if_neg (str_dec ("span:" ++ id) "") (λ h. cons≢nil (sym (cons-append "s" "pan:" id) ∙ h)) _ _
    ∙ ap (λ x. "sap-" ++ ident_chars x) (prepend-append "span:" id)
    ∙ ap (λ x. "sap-" ++ prepend "span-" x) (ident_chars-same id e)
    ∙ ap (λ x. "sap-" ++ x) (sym (prepend-append "span-" id))
    ∙ sym (append_assoc "sap-" "span-" id)

-- Two spans whose IDs are not empty and consist of such characters, as the IDs of sap.go do, have
-- the same identifier only if they have the same ID.
pub span_dom_id-injective :
    (f g : SpanFields) (ts us : Spans)
    → ¬ (f.span_id ≡ "")
    → ¬ (g.span_id ≡ "")
    → all_ident f.span_id ≡ true
    → all_ident g.span_id ≡ true
    → span_dom_id (span f ts) ≡ span_dom_id (span g us)
    → f.span_id ≡ g.span_id
span_dom_id-injective f g ts us n n' e e' h =
    append_cancel_left "sap-span-" f.span_id g.span_id
      (sym (span_dom_id-plain f ts n e) ∙ h ∙ span_dom_id-plain g us n' e')
