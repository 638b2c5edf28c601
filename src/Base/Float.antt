-- ===== src/Base/Float.antt =====
-- `f64` as an interface: the code only passes such values through the operations named here.
use Prim.Native.Nat.{ℕ, ◌+◌, ◌-◌, ◌*◌, ◌/◌, ◌^◌}
use mathlib.Core.Bool.{Bool}
use rperf3_rs.Base.Tests.{ltb, leb, ◌==◌}

pub record Float : Type 1 where
  pub F : Type 0
  -- `n as f64`, and the literals that are whole numbers
  pub of_u64 : ℕ → F
  -- `decimal m k` is the literal m / 10 ^ k
  pub decimal : ℕ → ℕ → F
  -- `Duration::as_secs_f64` of a number of nanoseconds
  pub as_secs : ℕ → F
  pub add : F → F → F
  pub sub : F → F → F
  pub mul : F → F → F
  pub div : F → F → F
  pub lt : F → F → Bool
  -- `b >= a` is `le a b`
  pub le : F → F → Bool
  pub eq : F → F → Bool
  pub abs : F → F
  -- `x as u64`
  pub to_u64 : F → ℕ

-- Whole numbers, for runs of the code.
abbrev pub whole_float : Float
whole_float = record {
  F = ℕ;
  of_u64 = λ n. n;
  decimal = λ m k. m / 10 ^ k;
  as_secs = λ n. n / 10 ^ 9;
  add = λ a b. a + b;
  sub = λ a b. a - b;
  mul = λ a b. a * b;
  div = λ a b. a / b;
  lt = ltb;
  le = leb;
  eq = ◌==◌;
  abs = λ n. n;
  to_u64 = λ n. n;
}
