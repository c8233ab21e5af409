-- ===== src/Sound/Swap.antt =====
-- aim-sound/sound.c, the copies that reverse the bytes of each sample. Words stand in memory with the
-- low byte first; the destination and the source are different memories, with an offset for each.
pub mod Loops
pub mod Samples
use unicens2_driver.Common.{ℕ, zero, suc, ◌+◌, ◌-◌, ◌*◌, ◌/◌, ◌%◌, ◌^◌, ◌==◌, if◌then◌else◌}
use unicens2_driver.Common.Memory.{ByteMemory}

-- `swap16`, with its shifts and masks as powers of 2.
abbrev pub swap16 : ℕ → ℕ
swap16 v = v * 2 ^ 8 / 2 ^ 8 % 2 ^ 8 * 2 ^ 8 + v / 2 ^ 8 % 2 ^ 8

abbrev pub swap32 : ℕ → ℕ
swap32 v =
    v * 2 ^ 24 % 2 ^ 32 / 2 ^ 24 % 2 ^ 8 * 2 ^ 24
    + v * 2 ^ 8 % 2 ^ 32 / 2 ^ 16 % 2 ^ 8 * 2 ^ 16
    + v / 2 ^ 8 / 2 ^ 8 % 2 ^ 8 * 2 ^ 8
    + v / 2 ^ 24 % 2 ^ 8

abbrev pub load16 : ByteMemory → ℕ → ℕ
load16 m a = m a + m (a + 1) * 2 ^ 8

abbrev pub load32 : ByteMemory → ℕ → ℕ
load32 m a = m a + m (a + 1) * 2 ^ 8 + m (a + 2) * 2 ^ 16 + m (a + 3) * 2 ^ 24

abbrev pub store8 : ℕ → ℕ → ByteMemory → ByteMemory
store8 a v m b = if b == a then v else m b

abbrev pub store16 : ℕ → ℕ → ByteMemory → ByteMemory
store16 a v m = store8 (a + 1) (v / 2 ^ 8 % 2 ^ 8) (store8 a (v % 2 ^ 8) m)

abbrev pub store32 : ℕ → ℕ → ByteMemory → ByteMemory
store32 a v m = store8 (a + 3) (v / 2 ^ 24 % 2 ^ 8) (
    store8 (a + 2) (v / 2 ^ 16 % 2 ^ 8)
      (store8 (a + 1) (v / 2 ^ 8 % 2 ^ 8) (store8 a (v % 2 ^ 8) m)))

-- The bodies of the three loops, for the sample `i`.
abbrev pub swap_one16 : ℕ → ByteMemory → ℕ → ℕ → ByteMemory → ByteMemory
swap_one16 d src s i dest = store16 (d + i * 2) (swap16 (load16 src (s + i * 2))) dest

abbrev pub swap_one24 : ℕ → ByteMemory → ℕ → ℕ → ByteMemory → ByteMemory
swap_one24 d src s i dest =
    store8 (d + i * 3 + 2) (src (s + i * 3))
      (store8 (d + i * 3 + 1) (src (s + i * 3 + 1)) (store8 (d + i * 3) (src (s + i * 3 + 2)) dest))

abbrev pub swap_one32 : ℕ → ByteMemory → ℕ → ℕ → ByteMemory → ByteMemory
swap_one32 d src s i dest = store32 (d + i * 4) (swap32 (load32 src (s + i * 4))) dest

-- `n` rounds of a loop from `i` on.
unfoldable pub rounds : (ℕ → ByteMemory → ByteMemory) → ℕ → ℕ → ByteMemory → ByteMemory
rounds body zero i m = m
rounds body (suc n) i m = rounds body n (suc i) (body i m)

unfoldable pub swap_copy16 : ByteMemory → ℕ → ByteMemory → ℕ → ℕ → ByteMemory
swap_copy16 dest d src s bytes = rounds (swap_one16 d src s) (bytes / 2) 0 dest

-- The rounds of `while (i < bytes - 2) { ... i += 3; }`, where `bytes - 2` wraps around.
abbrev pub rounds24 : ℕ → ℕ
rounds24 bytes = ((bytes + 2 ^ 32 - 2) % 2 ^ 32 + 2) / 3

unfoldable pub swap_copy24 : ByteMemory → ℕ → ByteMemory → ℕ → ℕ → ByteMemory
swap_copy24 dest d src s bytes = rounds (swap_one24 d src s) (rounds24 bytes) 0 dest

unfoldable pub swap_copy32 : ByteMemory → ℕ → ByteMemory → ℕ → ℕ → ByteMemory
swap_copy32 dest d src s bytes = rounds (swap_one32 d src s) (bytes / 4) 0 dest
