-- ===== src/Message/Attributes.antt =====
-- Attribute of gen/sap/v1/record.pb.go and its accessors; those that read accept a nil receiver.
use sap.Base.{Bool, true, false, Option, none, some, String, List, []}

-- A string field that is not set reads as the empty text.
unfoldable pub or_empty : Option String → String
or_empty none = ""
or_empty (some s) = s

unfoldable pub is_some {ℓ} : {A : Type ℓ} → Option A → Bool
is_some none = false
is_some (some a) = true

pub record Attribute : Type 0 where
  pub key : Option String
  pub value : Option String
  pub display_hints : List String

unfoldable pub get_key : Option Attribute → String
unfolding or_empty
get_key none = ""
get_key (some m) = or_empty m.key

unfoldable pub get_value : Option Attribute → String
unfolding or_empty
get_value none = ""
get_value (some m) = or_empty m.value

unfoldable pub get_display_hints : Option Attribute → List String
get_display_hints none = []
get_display_hints (some m) = m.display_hints

-- Presence: a field that is set, tested and cleared.
unfoldable pub set_key : String → Attribute → Attribute
set_key v m = record m { key = some v }

unfoldable pub has_key : Option Attribute → Bool
unfolding is_some
has_key none = false
has_key (some m) = is_some m.key

unfoldable pub clear_key : Attribute → Attribute
clear_key m = record m { key = none }

unfoldable pub set_value : String → Attribute → Attribute
set_value v m = record m { value = some v }

unfoldable pub has_value : Option Attribute → Bool
unfolding is_some
has_value none = false
has_value (some m) = is_some m.value

unfoldable pub clear_value : Attribute → Attribute
clear_value m = record m { value = none }

unfoldable pub set_display_hints : List String → Attribute → Attribute
set_display_hints v m = record m { display_hints = v }
