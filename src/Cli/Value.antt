-- ===== src/Cli/Value.antt =====
-- What the suffix parser of src/bin/main.rs accepts, and its value.
use rperf3_rs.Base.{
  ℕ, ◌+◌, ◌-◌, ◌*◌, ◌<◌, ◌≤◌, ◌≡◌, ◌^◌, refl, ap, List, [], ◌∷◌, ◌++◌, some, true, false, All,
  arith, mul64, ◌==◌,
}
use rperf3_rs.Cli.Suffix.{
  is_white, trim_start, trim_end, cons_unless_white, trim, is_digit, parse_digits, parse_u64,
  split_last, split_suffix, parse_trimmed, parse_bandwidth, parse_byte_size, Units, bandwidth_units,
  byte_units,
}

abbrev pub IsWhite : ℕ → Type 0
IsWhite c = is_white c ≡ true

abbrev pub IsDigit : ℕ → Type 0
IsDigit c = (48 ≤ c) × (c ≤ 57)

-- The number that digits spell after a value.
abbrev pub value : ℕ → List ℕ → ℕ
value acc [] = acc
value acc (c ∷ cs) = value (acc * 10 + (c - 48)) cs

value_ge : (acc : ℕ) (cs : List ℕ) → acc ≤ value acc cs
value_ge acc [] = omega arith
value_ge acc (c ∷ cs) = omega (arith, value_ge (acc * 10 + (c - 48)) cs)

parse_digits-value :
    (acc : ℕ) (cs : List ℕ)
    → All IsDigit cs
    → value acc cs < 2 ^ 64
    → parse_digits acc cs ≡ some (value acc cs)
unfolding parse_digits is_digit
parse_digits-value acc [] d h = refl
parse_digits-value acc (c ∷ cs) d h =
    let r = parse_digits-value (acc * 10 + (c - 48)) cs d.1 h in
    let l = value_ge (acc * 10 + (c - 48)) cs in ground arith

-- Digits parse to their number if it fits.
parse_u64-value :
    (c : ℕ) (cs : List ℕ)
    → All IsDigit (c ∷ cs)
    → value 0 (c ∷ cs) < 2 ^ 64
    → parse_u64 (c ∷ cs) ≡ some (value 0 (c ∷ cs))
unfolding parse_u64 is_digit
parse_u64-value c [] d h = ground arith
parse_u64-value c (x ∷ xs) d h =
    let r = parse_digits-value 0 (c ∷ x ∷ xs) d h in
    let e : (c == 43) ≡ false = ground arith in rw (e, r)

trim_start-white :
    (ws : List ℕ) (c : ℕ) (cs : List ℕ)
    → All IsWhite ws
    → is_white c ≡ false
    → trim_start (ws ++ (c ∷ cs)) ≡ c ∷ cs
unfolding trim_start
trim_start-white [] c cs w n = rw n
trim_start-white (x ∷ ws) c cs w n = rw (w.0) (trim_start-white ws c cs w.1 n)

trim_end-IsWhite : (ws : List ℕ) → All IsWhite ws → trim_end ws ≡ []
unfolding trim_end cons_unless_white
trim_end-IsWhite [] w = refl
trim_end-IsWhite (x ∷ ws) w = rw (trim_end-IsWhite ws w.1, w.0)

trim_end-white :
    (ds : List ℕ) (c : ℕ) (ws : List ℕ)
    → All IsWhite ws
    → is_white c ≡ false
    → trim_end (ds ++ (c ∷ ws)) ≡ ds ++ (c ∷ [])
unfolding trim_end cons_unless_white
trim_end-white [] c ws w n = rw (trim_end-IsWhite ws w, n)
trim_end-white (d ∷ []) c ws w n = rw (trim_end-IsWhite ws w, n)
trim_end-white (d ∷ e ∷ ds) c ws w n = ap (cons_unless_white d) (trim_end-white (e ∷ ds) c ws w n)

-- The letters of the units.
pub data Letter : Type 0 where
  upper_g lower_g upper_m lower_m upper_k lower_k : Letter

abbrev pub code_of : Letter → ℕ
code_of upper_g = 71
code_of lower_g = 103
code_of upper_m = 77
code_of lower_m = 109
code_of upper_k = 75
code_of lower_k = 107

abbrev pub unit_of : Units → Letter → ℕ
unit_of u upper_g = u.giga
unit_of u lower_g = u.giga
unit_of u upper_m = u.mega
unit_of u lower_m = u.mega
unit_of u upper_k = u.kilo
unit_of u lower_k = u.kilo

split_last-append : (c x : ℕ) (cs : List ℕ) → split_last c (cs ++ (x ∷ [])) ≡ (c ∷ cs, x)
unfolding split_last
split_last-append c x [] = refl
split_last-append c x (d ∷ ds) = rw (split_last-append d x ds)

split_last-IsDigit : (c : ℕ) (cs : List ℕ) → All IsDigit (c ∷ cs) → IsDigit (split_last c cs).1
unfolding split_last
split_last-IsDigit c [] d = d.0
split_last-IsDigit c (x ∷ xs) d = split_last-IsDigit x xs d.1

split_suffix-letter :
    (u : Units) (c : ℕ) (cs : List ℕ) (l : Letter)
    → split_suffix u c (cs ++ (code_of l ∷ [])) ≡ (c ∷ cs, unit_of u l)
unfolding split_suffix
split_suffix-letter u c cs upper_g = rw (split_last-append c 71 cs)
split_suffix-letter u c cs lower_g = rw (split_last-append c 103 cs)
split_suffix-letter u c cs upper_m = rw (split_last-append c 77 cs)
split_suffix-letter u c cs lower_m = rw (split_last-append c 109 cs)
split_suffix-letter u c cs upper_k = rw (split_last-append c 75 cs)
split_suffix-letter u c cs lower_k = rw (split_last-append c 107 cs)

letter-not_white : (l : Letter) → is_white (code_of l) ≡ false
unfolding is_white
letter-not_white upper_g = refl
letter-not_white lower_g = refl
letter-not_white upper_m = refl
letter-not_white lower_m = refl
letter-not_white upper_k = refl
letter-not_white lower_k = refl

digit-not_white : (c : ℕ) → IsDigit c → is_white c ≡ false
unfolding is_white
digit-not_white c d = ground arith

-- A number and a letter, with white space around them.
abbrev pub spaced : List ℕ → ℕ → List ℕ → Letter → List ℕ → List ℕ
spaced before c cs l after = before ++ (c ∷ cs ++ (code_of l ∷ after))

module _ (before : List ℕ) (c : ℕ) (cs : List ℕ) (l : Letter) (after : List ℕ)
    (w : All IsWhite before) (x : All IsWhite after) (d : All IsDigit (c ∷ cs))
    (h : value 0 (c ∷ cs) < 2 ^ 64) where
  trimmed : trim (spaced before c cs l after) ≡ c ∷ cs ++ (code_of l ∷ [])
  unfolding trim
  trimmed =
      rw (trim_start-white before c (cs ++ (code_of l ∷ after)) w (digit-not_white c d.0))
        (trim_end-white (c ∷ cs) (code_of l) after x (letter-not_white l))

  parsed :
      (u : Units)
      → parse_trimmed u (c ∷ cs ++ (code_of l ∷ [])) ≡ some (mul64 (value 0 (c ∷ cs)) (unit_of u l))
  unfolding parse_trimmed
  parsed u = rw (split_suffix-letter u c cs l, parse_u64-value c cs d h)

  -- Digits and a unit's letter, in white space or not, parse to the number times the unit, in bits
  -- by powers of 1000 and in bytes by powers of 1024, if the number and both products are below 2^64.
  pub parse-spaced :
      value 0 (c ∷ cs) * unit_of bandwidth_units l < 2 ^ 64
      → value 0 (c ∷ cs) * unit_of byte_units l < 2 ^ 64
      → (parse_bandwidth (spaced before c cs l after)
          ≡ some (value 0 (c ∷ cs) * unit_of bandwidth_units l))
        × (parse_byte_size (spaced before c cs l after)
            ≡ some (value 0 (c ∷ cs) * unit_of byte_units l))
  unfolding parse_bandwidth parse_byte_size
  parse-spaced j k = (
    rw (trimmed, parsed bandwidth_units) (ap some (omega arith)),
    rw (trimmed, parsed byte_units) (ap some (omega arith)),
  )
