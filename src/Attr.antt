-- ===== src/Attr.antt =====
-- attr.go: the constructors of attributes, and the helpers that copy and clean their lists.
pub mod Dedupe
mod Tests
use sap.Base.{String, Option, none, some, List, [], ◌∷◌, ◌++◌, Bool, true, false, ite, str_dec}
use sap.Base.Int.{ℤ}
use sap.Base.Decimal.{decimal_ℤ, duration_string}
use sap.Base.Maps.{Map, empty, insert}
use sap.Message.Attributes.{Attribute}
use sap.Message.Proto.{Proto}

-- One turn of the loop of `dedupeStrings`: the set `seen` and the slice `result`.
unfoldable pub keep_new : String → Map (Unit {0}) × List String → Map (Unit {0}) × List String
keep_new value (seen, result) =
    ite (str_dec value "") (seen, result)
      (elim (seen value) [
        | some _ ↦ (seen, result)
        | none ↦ (insert value tt seen, result ++ value ∷ [])
      ])

unfoldable pub dedupe_loop :
    List String → Map (Unit {0}) × List String → Map (Unit {0}) × List String
unfolding keep_new
dedupe_loop [] st = st
dedupe_loop (value ∷ values) st = dedupe_loop values (keep_new value st)

-- The source returns nil early for no values, which is the empty slice here.
unfoldable pub dedupe_strings : List String → List String
unfolding dedupe_loop
dedupe_strings values = (dedupe_loop values (empty, [])).1

-- `String`
unfoldable pub string : String → String → List String → Attribute
unfolding dedupe_strings
string key value hints = record {
  key = some key;
  value = some value;
  display_hints = dedupe_strings hints;
}

-- `strconv.FormatBool`
unfoldable pub format_bool : Bool → String
format_bool true = "true"
format_bool false = "false"

-- `Bool`
unfoldable pub bool : String → Bool → List String → Attribute
unfolding string format_bool
bool key value hints = string key (format_bool value) hints

-- `Int`, `Int64` and `Duration`, for a value in range.
unfoldable pub int : String → ℤ → List String → Attribute
unfolding string decimal_ℤ
int key value hints = string key (decimal_ℤ value) hints

unfoldable pub int64 : String → ℤ → List String → Attribute
unfolding string decimal_ℤ
int64 key value hints = string key (decimal_ℤ value) hints

unfoldable pub duration : String → ℤ → List String → Attribute
unfolding string duration_string
duration key value hints = string key (duration_string value) hints

-- `Float64`, where `format` is `strconv.FormatFloat(…, 'g', -1, 64)`.
unfoldable pub float64 : {F : Type 0} → (F → String) → String → F → List String → Attribute
unfolding string
float64 format key value hints = string key (format value) hints

-- `cloneAttributes`
unfoldable pub clone_attributes : Proto → List (Option Attribute) → List (Option Attribute)
clone_attributes p [] = []
clone_attributes p (none ∷ attrs) = clone_attributes p attrs
clone_attributes p (some a ∷ attrs) = some (p.clone_of a) ∷ clone_attributes p attrs
