-- ===== src/Prelude/Text.antt =====
-- Python's `str` as the native text: `strip`, `endswith` and the decimal digits of an integer.
use Prim.Native.Nat.{ℕ, zero, suc, ◌+◌, ◌-◌, ◌*◌, ◌/◌, ◌%◌}
use Prim.Native.Char.{Char, code}
use Prim.Native.String.{String, ◌++◌}
use mathlib.Core.List.{List, [], ◌∷◌}
use mathlib.Core.Option
use mathlib.Core.Option.{Option, none, some}
use mathlib.Core.Bool.{Bool, true, false, ◌||◌, ◌&&◌}
use edgewatch_telemetry.Prelude.Tests.{ltb, leb, ◌==◌, str_eq, if◌then◌else◌}
use edgewatch_telemetry.Prelude.Int.{ℤ, pos, negsuc, negate}

-- `c.isspace()`
unfoldable pub is_space : ℕ → Bool
is_space c =
    (leb 9 c && leb c 13)
    || (leb 28 c && leb c 32)
    || c == 0x85
    || c == 0xa0
    || c == 0x1680
    || (leb 0x2000 c && leb c 0x200a)
    || c == 0x2028
    || c == 0x2029
    || c == 0x202f
    || c == 0x205f
    || c == 0x3000

-- `s.lstrip()`
unfoldable pub strip_left : String → String
unfolding is_space
strip_left String.[] = ""
strip_left (String.◌∷◌ c s) =
    let rest = strip_left s in if is_space (code c) then rest else String.◌∷◌ c s

-- `s.rstrip()`
unfoldable pub strip_right : String → String
unfolding is_space
strip_right String.[] = ""
strip_right (String.◌∷◌ c s) =
    let rest = strip_right s in
    if str_eq rest "" && is_space (code c) then "" else String.◌∷◌ c rest

-- `s.strip()`
unfoldable pub strip : String → String
unfolding strip_left strip_right
strip s = strip_right (strip_left s)

-- `s.endswith(suffix)`
unfoldable pub ends_with : String → String → Bool
ends_with String.[] suffix = str_eq suffix ""
ends_with (String.◌∷◌ c s) suffix =
    let rest = ends_with s suffix in if str_eq (String.◌∷◌ c s) suffix then true else rest

-- `s or default`
abbrev pub or_default : String → String → String
or_default s default = if str_eq s "" then default else s

digit : ℕ → String
digit zero = "0"
digit (suc zero) = "1"
digit (suc (suc zero)) = "2"
digit (suc (suc (suc zero))) = "3"
digit (suc (suc (suc (suc zero)))) = "4"
digit (suc (suc (suc (suc (suc zero))))) = "5"
digit (suc (suc (suc (suc (suc (suc zero)))))) = "6"
digit (suc (suc (suc (suc (suc (suc (suc zero))))))) = "7"
digit (suc (suc (suc (suc (suc (suc (suc (suc zero)))))))) = "8"
digit _ = "9"

-- A number has at most as many digits as it is large, plus one.
digits_from : ℕ → ℕ → String
unfolding digit
digits_from zero n = ""
digits_from (suc fuel) n =
    let rest = digits_from fuel (n / 10) in if ltb n 10 then digit n else rest ++ digit (n % 10)

-- `str(n)`
unfoldable pub show : ℤ → String
unfolding digits_from
show (pos n) = digits_from (n + 1) n
show (negsuc n) = "-" ++ digits_from (suc n + 1) (suc n)

-- the pieces of `c` and what follows it, from the pieces of what follows it
abbrev split_char : Bool → Char → List String → List String
split_char true c pieces = "" ∷ pieces
split_char false c [] = String.◌∷◌ c "" ∷ []
split_char false c (piece ∷ pieces) = String.◌∷◌ c piece ∷ pieces

-- `s.split(c)` at each separator, whose code is `sep`
unfoldable pub split : ℕ → String → List String
split sep String.[] = "" ∷ []
split sep (String.◌∷◌ c s) = split_char (code c == sep) c (split sep s)

-- The decimal digits of an `int` literal, single underscores between digits allowed. Python also
-- takes the digits of other scripts; those are refused here.
digits_value : Bool → ℕ → String → Option ℕ
digits_value after_digit acc String.[] = if after_digit then some acc else none
digits_value after_digit acc (String.◌∷◌ c s) =
    let more = digits_value true (acc * 10 + (code c - b'0')) s in
    let gap = digits_value false acc s in
    if leb b'0' (code c) && leb (code c) b'9'
    then more
    else if code c == b'_' && after_digit
    then gap
    else none

signed_value : String → Option ℤ
unfolding digits_value
signed_value String.[] = none
signed_value (String.◌∷◌ c s) =
    if code c == b'-'
    then Option.map negate (digits_value false 0 s)
    else if code c == b'+'
    then Option.map pos (digits_value false 0 s)
    else Option.map pos (digits_value false 0 (String.◌∷◌ c s))

-- `int(s)`, and `none` for its ValueError
unfoldable pub parse_int : String → Option ℤ
unfolding signed_value strip
parse_int s = signed_value (strip s)

-- `s <= t`, by code points, as SQLite orders texts too
unfoldable pub leb_text : String → String → Bool
leb_text String.[] t = true
leb_text (String.◌∷◌ c s) String.[] = false
leb_text (String.◌∷◌ c s) (String.◌∷◌ d t) =
    let rest = leb_text s t in if code c == code d then rest else ltb (code c) (code d)

-- `sorted(set(values))` with one text more
unfoldable pub insert_text : String → List String → List String
unfolding leb_text
insert_text value [] = value ∷ []
insert_text value (x ∷ xs) =
    let rest = insert_text value xs in
    if str_eq value x then x ∷ xs else if leb_text value x then value ∷ x ∷ xs else x ∷ rest

-- `sorted(set(values))`
unfoldable pub sorted_texts : List String → List String
unfolding insert_text
sorted_texts [] = []
sorted_texts (value ∷ values) = insert_text value (sorted_texts values)
