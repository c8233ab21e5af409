-- ===== src/Common/Memory.antt =====
-- The memory of a buffer as bytes by address, and the functions of the kernel's string library that
-- move them.
use Prim.Native.Nat.{ℕ, ◌+◌, ◌-◌, ◌<◌, ◌≤◌}
use mathlib.Core.Path.{◌≡◌}
use mathlib.Core.Bool.{◌&&◌}
use native.Mathlib.Omega.{arith}
use unicens2_driver.Common.Tests.{ltb, leb, if◌then◌else◌}

abbrev pub ByteMemory : Type 0
ByteMemory = ℕ → ℕ

-- `memmove(dest, src, n)` inside one memory: the source is read before anything is written.
unfoldable pub memmove : ℕ → ℕ → ℕ → ByteMemory → ByteMemory
memmove dest src n m a = if leb dest a && ltb a (dest + n) then m (src + (a - dest)) else m a

pub memmove-in :
    (dest src n : ℕ) (m : ByteMemory) (i : ℕ)
    → i < n
    → memmove dest src n m (dest + i) ≡ m (src + i)
unfolding memmove
memmove-in dest src n m i h = ground arith

pub memmove-below :
    (dest src n : ℕ) (m : ByteMemory) (a : ℕ) → a < dest → memmove dest src n m a ≡ m a
unfolding memmove
memmove-below dest src n m a h = ground arith

pub memmove-above :
    (dest src n : ℕ) (m : ByteMemory) (a : ℕ) → dest + n ≤ a → memmove dest src n m a ≡ m a
unfolding memmove
memmove-above dest src n m a h = ground arith

-- `memcpy` from one memory into another.
unfoldable pub memcpy : ByteMemory → ℕ → ByteMemory → ℕ → ℕ → ByteMemory
memcpy dest d src s n a = if leb d a && ltb a (d + n) then src (s + (a - d)) else dest a
