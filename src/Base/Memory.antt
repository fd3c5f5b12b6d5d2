-- ===== src/Base/Memory.antt =====
-- Memory as a function from addresses, or from the names of objects, to what is stored there.
use Prim.Native.Nat.{ℕ}
use mathlib.Core.Path.{◌≡◌}
use mathlib.Core.Logic.{◌≢◌}
use native.Mathlib.Omega.{arith}
use kappara.Base.Tests.{◌==◌, if◌then◌else◌}

module _ {ℓ} {A : Type ℓ} where
  abbrev pub write : (ℕ → A) → ℕ → A → ℕ → A
  write m a v b = if a == b then v else m b

  pub write_self : (m : ℕ → A) (a : ℕ) (v : A) → write m a v a ≡ v
  write_self m a v = ground arith

  pub write_ne : (m : ℕ → A) (a : ℕ) (v : A) (b : ℕ) → a ≢ b → write m a v b ≡ m b
  write_ne m a v b h = ground arith
