-- ===== src/Base/Text.antt =====
-- Texts: the native strings, their characters' numbers, and equality as a test.
use Prim.Native.Nat.{ℕ, ◌-◌, Ordering}
use Prim.Native.Char.{code}
use Prim.Native.String
use mathlib.Core.Bool.{Bool, true, false, ◌&&◌}
use mathlib.Core.List.{List, [], ◌∷◌}
use rperf3_rs.Base.Tests.{leb, ◌==◌, if◌then◌else◌}
pub use Prim.Native.String.{String}

abbrev pub codes : String → List ℕ
codes String.[] = []
codes (String.◌∷◌ c s) = code c ∷ codes s

abbrev pub eq_codes : List ℕ → List ℕ → Bool
eq_codes [] [] = true
eq_codes (c ∷ cs) (d ∷ ds) = (c == d) && eq_codes cs ds
eq_codes _ _ = false

-- `==` on texts
abbrev pub eq_text : String → String → Bool
eq_text s t = elim (String.compare s t) [ Ordering.eq ↦ true | _ ↦ false ]

abbrev pub to_upper_ascii : ℕ → ℕ
to_upper_ascii c = if leb 97 c && leb c 122 then c - 32 else c
