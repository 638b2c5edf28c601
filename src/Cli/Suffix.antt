-- ===== src/Cli/Suffix.antt =====
-- `parse_bandwidth` and `parse_byte_size` of src/bin/main.rs. `none` is an error.
use rperf3_rs.Base.{
  ℕ, ◌+◌, ◌-◌, ◌*◌, ◌^◌, List, [], ◌∷◌, Option, none, some, Bool, ◌&&◌, ◌||◌, if◌then◌else◌, leb,
  ltb, ◌==◌, mul64,
}
use rperf3_rs.Base.Try.{◌>>=◌}

-- Unicode's White_Space, which `trim` removes
unfoldable pub is_white : ℕ → Bool
is_white c =
    (leb 9 c && leb c 13)
    || (c == 32)
    || (c == 133)
    || (c == 160)
    || (c == 5760)
    || (leb 8192 c && leb c 8202)
    || (c == 8232)
    || (c == 8233)
    || (c == 8239)
    || (c == 8287)
    || (c == 12288)

unfoldable pub trim_start : List ℕ → List ℕ
trim_start [] = []
trim_start (c ∷ cs) = let rest = trim_start cs in if is_white c then rest else c ∷ cs

-- A character before a text without white space at its end.
unfoldable pub cons_unless_white : ℕ → List ℕ → List ℕ
cons_unless_white c [] = if is_white c then [] else c ∷ []
cons_unless_white c (d ∷ ds) = c ∷ d ∷ ds

unfoldable pub trim_end : List ℕ → List ℕ
trim_end [] = []
trim_end (c ∷ cs) = cons_unless_white c (trim_end cs)

-- `str::trim`
unfoldable pub trim : List ℕ → List ℕ
trim s = trim_end (trim_start s)

unfoldable pub is_digit : ℕ → Bool
is_digit c = leb 48 c && leb c 57

-- The digits after a value, `none` where a character is no digit or the value leaves the 64 bits.
unfoldable pub parse_digits : ℕ → List ℕ → Option ℕ
parse_digits acc [] = some acc
parse_digits acc (c ∷ cs) =
    let value = acc * 10 + (c - 48) in
    let rest = parse_digits value cs in
    if is_digit c then (if ltb value (2 ^ 64) then rest else none) else none

-- `str::parse::<u64>`: a plus sign may stand before the digits, of which there is at least one
unfoldable pub parse_u64 : List ℕ → Option ℕ
parse_u64 [] = none
parse_u64 (c ∷ []) = if is_digit c then some (c - 48) else none
parse_u64 (c ∷ d ∷ ds) = if c == 43 then parse_digits 0 (d ∷ ds) else parse_digits 0 (c ∷ d ∷ ds)

-- The text without its last character, and that character.
unfoldable pub split_last : ℕ → List ℕ → List ℕ × ℕ
split_last c [] = ([], c)
split_last c (d ∷ ds) = let (front, last) = split_last d ds in (c ∷ front, last)

-- The multipliers of G, M and K.
pub record Units : Type 0 where
  pub giga : ℕ
  pub mega : ℕ
  pub kilo : ℕ

abbrev pub bandwidth_units : Units
bandwidth_units = record { giga = 1000000000; mega = 1000000; kilo = 1000 }

abbrev pub byte_units : Units
byte_units = record { giga = 1073741824; mega = 1048576; kilo = 1024 }

-- The number's text and the multiplier, of a text that is not empty.
unfoldable pub split_suffix : Units → ℕ → List ℕ → List ℕ × ℕ
split_suffix u c cs =
    let (front, last) = split_last c cs in
    if (last == 71) || (last == 103)
    then (front, u.giga)
    else if (last == 77) || (last == 109)
    then (front, u.mega)
    else if (last == 75) || (last == 107)
    then (front, u.kilo)
    else (c ∷ cs, 1)

-- What both functions do once the text is trimmed.
unfoldable pub parse_trimmed : Units → List ℕ → Option ℕ
parse_trimmed u [] = none
parse_trimmed u (c ∷ cs) =
    let (number_str, multiplier) = split_suffix u c cs in
    do number ← parse_u64 number_str; some (mul64 number multiplier)

unfoldable pub parse_bandwidth : List ℕ → Option ℕ
parse_bandwidth s = parse_trimmed bandwidth_units (trim s)

unfoldable pub parse_byte_size : List ℕ → Option ℕ
parse_byte_size s = parse_trimmed byte_units (trim s)
