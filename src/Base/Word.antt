-- ===== src/Base/Word.antt =====
-- Machine integers as native numbers: the sums, products and casts that wrap, and the big-endian
-- bytes of `to_be_bytes` and `from_be_bytes`.
use Prim.Native.Nat.{ℕ, ◌+◌, ◌-◌, ◌*◌, ◌/◌, ◌%◌, ◌^◌, ◌<◌}
use mathlib.Core.Path.{◌≡◌, refl, ap}
use mathlib.Core.List.{List, [], ◌∷◌, ◌++◌}
use mathlib.Core.Option.{Option, none, some}
use native.Mathlib.Omega.{arith}
use rperf3_rs.Base.Lists.{All, length}

abbrev pub u16_mod : ℕ
u16_mod = 2 ^ 16

abbrev pub u32_mod : ℕ
u32_mod = 2 ^ 32

abbrev pub u64_mod : ℕ
u64_mod = 2 ^ 64

-- `u64::MAX`
abbrev pub u64_max : ℕ
u64_max = 2 ^ 64 - 1

-- `+` and `*` on u64 and usize (64 bits), and `fetch_add`; `+` on u32.
abbrev pub add64 : ℕ → ℕ → ℕ
add64 a b = (a + b) % 2 ^ 64

abbrev pub mul64 : ℕ → ℕ → ℕ
mul64 a b = (a * b) % 2 ^ 64

abbrev pub add32 : ℕ → ℕ → ℕ
add32 a b = (a + b) % 2 ^ 32

-- `as u32`, `as u64`
abbrev pub as_u32 : ℕ → ℕ
as_u32 a = a % 2 ^ 32

abbrev pub as_u64 : ℕ → ℕ
as_u64 a = a % 2 ^ 64

abbrev pub u32_to_be : ℕ → List ℕ
u32_to_be x = x / 2 ^ 24 % 256 ∷ x / 2 ^ 16 % 256 ∷ x / 2 ^ 8 % 256 ∷ x % 256 ∷ []

-- `none` is the failed `try_into` of a slice that has not four bytes.
abbrev pub u32_from_be : List ℕ → Option ℕ
u32_from_be (a ∷ b ∷ c ∷ d ∷ []) = some (a * 2 ^ 24 + b * 2 ^ 16 + c * 2 ^ 8 + d)
u32_from_be _ = none

abbrev pub u64_to_be : ℕ → List ℕ
u64_to_be x = u32_to_be (x / 2 ^ 32) ++ u32_to_be x

abbrev pub u64_from_be : List ℕ → Option ℕ
u64_from_be (a ∷ b ∷ c ∷ d ∷ e ∷ f ∷ g ∷ h ∷ []) =
    some (
      (a * 2 ^ 24 + b * 2 ^ 16 + c * 2 ^ 8 + d) * 2 ^ 32
      + (e * 2 ^ 24 + f * 2 ^ 16 + g * 2 ^ 8 + h))
u64_from_be _ = none

abbrev pub IsByte : ℕ → Type 0
IsByte b = b < 256

pub u32_from_be-u32_to_be : (x : ℕ) → x < 2 ^ 32 → u32_from_be (u32_to_be x) ≡ some x
u32_from_be-u32_to_be x h = ap some (omega arith)

pub u64_from_be-u64_to_be : (x : ℕ) → x < 2 ^ 64 → u64_from_be (u64_to_be x) ≡ some x
u64_from_be-u64_to_be x h = ap some (omega arith)

pub u32_to_be-IsByte : (x : ℕ) → All IsByte (u32_to_be x)
u32_to_be-IsByte x = omega arith

-- Four bytes are the bytes of the number that they spell.
pub u32_to_be-u32_from_be :
    (bs : List ℕ) (x : ℕ) → All IsByte bs → u32_from_be bs ≡ some x → u32_to_be x ≡ bs
u32_to_be-u32_from_be (a ∷ b ∷ c ∷ d ∷ []) x h e = ground arith
u32_to_be-u32_from_be bs x h e = cc

pub u64_to_be-u64_from_be :
    (bs : List ℕ) (x : ℕ) → All IsByte bs → u64_from_be bs ≡ some x → u64_to_be x ≡ bs
u64_to_be-u64_from_be (a ∷ b ∷ c ∷ d ∷ e ∷ f ∷ g ∷ h ∷ []) x p q = ground arith
u64_to_be-u64_from_be bs x p q = cc

pub u32_from_be-some : (bs : List ℕ) → length bs ≡ 4 → (x : ℕ) × (u32_from_be bs ≡ some x)
u32_from_be-some (a ∷ b ∷ c ∷ d ∷ []) h = (a * 2 ^ 24 + b * 2 ^ 16 + c * 2 ^ 8 + d, refl)
u32_from_be-some [] h = absurd (omega arith)
u32_from_be-some (a ∷ []) h = absurd (omega arith)
u32_from_be-some (a ∷ b ∷ []) h = absurd (omega arith)
u32_from_be-some (a ∷ b ∷ c ∷ []) h = absurd (omega arith)
u32_from_be-some (a ∷ b ∷ c ∷ d ∷ e ∷ r) h = absurd (omega arith)

pub u64_from_be-some : (bs : List ℕ) → length bs ≡ 8 → (x : ℕ) × (u64_from_be bs ≡ some x)
u64_from_be-some (a ∷ b ∷ c ∷ d ∷ e ∷ f ∷ g ∷ i ∷ []) h = (
  (a * 2 ^ 24 + b * 2 ^ 16 + c * 2 ^ 8 + d) * 2 ^ 32 + (e * 2 ^ 24 + f * 2 ^ 16 + g * 2 ^ 8 + i),
  refl,
)
u64_from_be-some [] h = absurd (omega arith)
u64_from_be-some (a ∷ []) h = absurd (omega arith)
u64_from_be-some (a ∷ b ∷ []) h = absurd (omega arith)
u64_from_be-some (a ∷ b ∷ c ∷ []) h = absurd (omega arith)
u64_from_be-some (a ∷ b ∷ c ∷ d ∷ []) h = absurd (omega arith)
u64_from_be-some (a ∷ b ∷ c ∷ d ∷ e ∷ []) h = absurd (omega arith)
u64_from_be-some (a ∷ b ∷ c ∷ d ∷ e ∷ f ∷ []) h = absurd (omega arith)
u64_from_be-some (a ∷ b ∷ c ∷ d ∷ e ∷ f ∷ g ∷ []) h = absurd (omega arith)
u64_from_be-some (a ∷ b ∷ c ∷ d ∷ e ∷ f ∷ g ∷ i ∷ j ∷ r) h = absurd (omega arith)
