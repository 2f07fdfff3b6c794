-- ===== src/Prelude/Update.antt =====
-- A memory or a table as a function, changed at one place.
use Prim.Native.Nat.{ℕ}
use mathlib.Core.Path.{◌≡◌}
use mathlib.Core.Logic.{◌≢◌}
use native.Mathlib.Omega.{arith}
use ev.Prelude.Tests.{◌==◌, if◌then◌else◌}

unfoldable pub upd {ℓ} : {A : Type ℓ} → (ℕ → A) → ℕ → A → ℕ → A
upd f b v i = if i == b then v else f i

module _ {ℓ} {A : Type ℓ} (f : ℕ → A) where
  pub upd_self : (b : ℕ) (v : A) → upd f b v b ≡ v
  unfolding upd
  upd_self b v = ground arith

  pub upd_ne : (b : ℕ) (v : A) (i : ℕ) → i ≢ b → upd f b v i ≡ f i
  unfolding upd
  upd_ne b v i ne = ground arith
