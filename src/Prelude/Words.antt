-- ===== src/Prelude/Words.antt =====
-- Machine words as native numbers. The checked operations return `none` where Rust's do.
use Prim.Native.Nat.{ℕ, zero, suc, ◌+◌, ◌-◌, ◌/◌, ◌%◌, ◌^◌}
use mathlib.Core.Path.{◌≡◌, refl, ap}
use mathlib.Core.List.{List, [], ◌∷◌}
use mathlib.Core.Option.{Option, none, some}
use asseto_solana_programs.Prelude.Tests.{ltb, leb, if◌then◌else◌}
use asseto_solana_programs.Prelude.Lists.{length}

abbrev pub u64_mod : ℕ
u64_mod = 2 ^ 64

abbrev pub u128_mod : ℕ
u128_mod = 2 ^ 128

-- `u64::checked_add`, `checked_sub`
abbrev pub checked_add : ℕ → ℕ → Option ℕ
checked_add a b = if ltb (a + b) u64_mod then some (a + b) else none

abbrev pub checked_sub : ℕ → ℕ → Option ℕ
checked_sub a b = if leb b a then some (a - b) else none

-- `saturating_sub` stops at 0, as `-` on ℕ does.
abbrev pub saturating_sub : ℕ → ℕ → ℕ
saturating_sub a b = a - b

abbrev pub Bytes : Type 0
Bytes = List ℕ

-- `to_le_bytes`: the low `n` base-256 digits, least significant first.
abbrev pub le_bytes : ℕ → ℕ → Bytes
le_bytes zero x = []
le_bytes (suc n) x = (x % 256) ∷ le_bytes n (x / 256)

pub length-le_bytes : (n x : ℕ) → length (le_bytes n x) ≡ n
length-le_bytes zero x = refl
length-le_bytes (suc n) x = ap suc (length-le_bytes n (x / 256))
