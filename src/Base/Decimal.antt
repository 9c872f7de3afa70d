-- ===== src/Base/Decimal.antt =====
-- Numbers as text: `strconv.Itoa`, `%d` and `Duration.String` of the standard library.
use Prim.Native.Nat.{ℕ, zero, suc, ◌*◌, ◌/◌, ◌%◌, ◌^◌}
use Prim.Native.String.{String, ◌++◌}
use mathlib.Core.Bool.{Bool, true, false}
use sap.Base.Int.{ℤ, pos, negsuc, ltb, leb, ◌==◌, if◌then◌else◌}

-- The digit for a number below ten.
unfoldable pub digit : ℕ → String
digit zero = "0"
digit (suc zero) = "1"
digit (suc (suc zero)) = "2"
digit (suc (suc (suc zero))) = "3"
digit (suc (suc (suc (suc zero)))) = "4"
digit (suc (suc (suc (suc (suc zero))))) = "5"
digit (suc (suc (suc (suc (suc (suc zero)))))) = "6"
digit (suc (suc (suc (suc (suc (suc (suc zero))))))) = "7"
digit (suc (suc (suc (suc (suc (suc (suc (suc zero)))))))) = "8"
digit _ = "9"

-- With more fuel than the number has digits.
unfoldable pub decimal_from : ℕ → ℕ → String
unfolding digit
decimal_from zero n = ""
decimal_from (suc fuel) n = elim (ltb n 10) [
  | true ↦ digit n
  | false ↦ decimal_from fuel (n / 10) ++ digit (n % 10)
]

unfoldable pub decimal : ℕ → String
unfolding decimal_from
decimal n = decimal_from (suc n) n

unfoldable pub decimal_ℤ : ℤ → String
unfolding decimal
decimal_ℤ (pos n) = decimal n
decimal_ℤ (negsuc n) = "-" ++ decimal (suc n)

-- The last digits of a fraction: the number with `width` digits after a point, less the zeros at
-- its end, and nothing where all are zero.
unfoldable pub fraction_digits : ℕ → ℕ → Bool → String → String
unfolding digit
fraction_digits zero v printed text = if printed then "." ++ text else text
fraction_digits (suc width) v printed text =
    let shown : Bool = if printed then true else (if v % 10 == 0 then false else true) in
    fraction_digits width (v / 10) shown (if shown then digit (v % 10) ++ text else text)

unfoldable pub with_fraction : ℕ → ℕ → String
unfolding fraction_digits decimal
with_fraction v width = decimal (v / 10 ^ width) ++ fraction_digits width v false ""

abbrev pub microsecond : ℕ
microsecond = 1000

abbrev pub millisecond : ℕ
millisecond = 1_000_000

abbrev pub second : ℕ
second = 1_000_000_000

-- From a second on, hours and minutes stand before the seconds where they are not zero.
unfoldable pub long_duration : ℕ → String
unfolding with_fraction decimal
long_duration u =
    let minutes = u / (60 * second) in
    let seconds = with_fraction (u % (60 * second)) 9 ++ "s" in
    if leb 60 minutes
    then decimal (minutes / 60) ++ ("h" ++ (decimal (minutes % 60) ++ ("m" ++ seconds)))
    else (if leb 1 minutes then decimal minutes ++ ("m" ++ seconds) else seconds)

unfoldable pub short_duration : ℕ → String
unfolding with_fraction decimal
short_duration u =
    if u == 0
    then "0s"
    else (if ltb u microsecond
        then decimal u ++ "ns"
        else (if ltb u millisecond then with_fraction u 3 ++ "µs" else with_fraction u 6 ++ "ms"))

unfoldable pub duration_of : ℕ → String
unfolding long_duration short_duration
duration_of u = if ltb u second then short_duration u else long_duration u

-- `Duration.String`, of a number of nanoseconds.
unfoldable pub duration_string : ℤ → String
unfolding duration_of
duration_string (pos n) = duration_of n
duration_string (negsuc n) = "-" ++ duration_of (suc n)
