-- ===== src/Common/Rows.antt =====
-- Rows of the same size one after the other.
use Prim.Native.Nat.{ℕ, zero, suc, ◌+◌, ◌*◌, ◌<◌, ◌≤◌}
use mathlib.Core.Path.{◌≡◌}
use mathlib.Core.Logic.{inl, inr}
use native.Mathlib.Omega.{arith}
use unicens2_driver.Common.Tests.{ltb, Bool-cases}

-- The first byte of a later frame stands behind the last of an earlier one.
pub frames_apart : (s : ℕ) {j k : ℕ} → j < k → j * s + s ≤ k * s
frames_apart s {j = j} {k = zero} h = absurd (omega (arith, h))
frames_apart s {j = j} {k = suc k} h = elim (Bool-cases (ltb j k)) [
  | inl e ↦ omega (arith, frames_apart s {j = j} {k = k} (ground arith))
  | inr e ↦ let d : j ≡ k = ground arith in rw d (omega arith)
]
