-- ===== src/Prelude/Maps.antt =====
-- Accounts by address: a function, and its change at one address.
use mathlib.Core.Path.{◌≡◌}
use Prim.Native.Nat.{ℕ}
use native.Mathlib.Omega.{arith}
use mathlib.Core.Logic.{◌≢◌}
use asseto_solana_programs.Prelude.Tests.{◌==◌, if◌then◌else◌}

module _ {ℓ} {V : Type ℓ} where
  abbrev pub update : (ℕ → V) → ℕ → V → ℕ → V
  update f k v j = if k == j then v else f j

  pub update_self : (f : ℕ → V) (k : ℕ) (v : V) → update f k v k ≡ v
  update_self f k v = ground arith

  pub update_ne : (f : ℕ → V) (k j : ℕ) (v : V) → j ≢ k → update f k v j ≡ f j
  update_ne f k j v h = ground arith
