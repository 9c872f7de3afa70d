-- ===== src/Attr/Tests.antt =====
-- Display hints of attr.go on concrete lists.
use sap.Base.{String, ◌≡◌, refl, ◌↔◌, ◌≢◌, List, [], ◌∷◌, true, str_dec}
use sap.Message.Attributes.{get_value, get_display_hints}
use sap.Base.{some}
use sap.Base.Int.{pos, negsuc}
use sap.Base.Decimal.{decimal_ℤ, duration_string}
use sap.Attr.{dedupe_strings, dedupe_loop, string, bool, format_bool, int, int64, duration}
use sap.Attr.Dedupe.{firsts, dedupe_strings-firsts}

abbrev hints : List String
hints = "code" ∷ "" ∷ "path" ∷ "code" ∷ "go" ∷ "path" ∷ []

deduped : dedupe_strings hints ≡ "code" ∷ "path" ∷ "go" ∷ []
unfolding dedupe_strings str_dec
deduped = refl

built : get_display_hints (some (bool "ok" true hints)) ≡ "code" ∷ "path" ∷ "go" ∷ []
unfolding dedupe_strings str_dec string bool get_display_hints
built = refl

built_value : get_value (some (bool "ok" true hints)) ≡ "true"
unfolding string bool get_value format_bool
built_value = refl

dedupe_strings-firsts_example : dedupe_strings hints ≡ firsts hints
dedupe_strings-firsts_example = dedupe_strings-firsts hints

formats_numbers :
    ((int "n" (negsuc 41) []).value ≡ some "-42")
    × ((int64 "n" (pos 1024) []).value ≡ some "1024")
    × ((duration "d" (pos 1500000) []).value ≡ some "1.5ms")
unfolding int int64 duration string dedupe_strings dedupe_loop decimal_ℤ duration_string
    sap.Base.Decimal.decimal sap.Base.Decimal.decimal_from sap.Base.Decimal.digit
    sap.Base.Decimal.duration_of sap.Base.Decimal.short_duration sap.Base.Decimal.long_duration
    sap.Base.Decimal.with_fraction sap.Base.Decimal.fraction_digits
formats_numbers = (refl, refl, refl)
