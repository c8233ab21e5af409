-- ===== src/Sound/Copy.antt =====
-- aim-sound/sound.c, the eight copy functions and `copy_data`. Of the two memories that a copy function
-- gets, one is `dma_area`, the ring buffer of ALSA, and one starts at `virt_address`.
pub mod Samples
pub mod Chunks
pub mod Ring
pub mod Stream
use unicens2_driver.Common.{
  ℕ, ◌+◌, ◌-◌, ◌*◌, ◌/◌, ◌%◌, ◌^◌, Bool, true, false, Option, none, some, ltb, leb, ◌==◌,
  if◌then◌else◌,
}
use unicens2_driver.Common.Memory.{ByteMemory, memcpy}
use unicens2_driver.Core.Types.{Config, ch_rx}
use unicens2_driver.Sound.{
  CopyFn, alsa_to_most_memcpy, alsa_to_most_copy16, alsa_to_most_copy24, alsa_to_most_copy32,
  most_to_alsa_memcpy, most_to_alsa_copy16, most_to_alsa_copy24, most_to_alsa_copy32, SoundChannel,
  Runtime, SoundMbo,
}
use unicens2_driver.Sound.Swap.{swap_copy16, swap_copy24, swap_copy32}

-- What a copy function calls, by the sides of the copy.
abbrev pub copy_bytes : CopyFn → ByteMemory → ℕ → ByteMemory → ℕ → ℕ → ByteMemory
copy_bytes alsa_to_most_memcpy = memcpy
copy_bytes alsa_to_most_copy16 = swap_copy16
copy_bytes alsa_to_most_copy24 = swap_copy24
copy_bytes alsa_to_most_copy32 = swap_copy32
copy_bytes most_to_alsa_memcpy = memcpy
copy_bytes most_to_alsa_copy16 = swap_copy16
copy_bytes most_to_alsa_copy24 = swap_copy24
copy_bytes most_to_alsa_copy32 = swap_copy32

abbrev pub is_to_most : CopyFn → Bool
is_to_most alsa_to_most_memcpy = true
is_to_most alsa_to_most_copy16 = true
is_to_most alsa_to_most_copy24 = true
is_to_most alsa_to_most_copy32 = true
is_to_most most_to_alsa_memcpy = false
is_to_most most_to_alsa_copy16 = false
is_to_most most_to_alsa_copy24 = false
is_to_most most_to_alsa_copy32 = false

-- `copy_fn(alsa + a, most + b, bytes)`: both memories after it.
abbrev pub call_copy_fn : CopyFn → ℕ → ℕ → ℕ → ByteMemory × ByteMemory → ByteMemory × ByteMemory
call_copy_fn fn a b bytes (alsa, most) =
    if is_to_most fn
    then (alsa, copy_bytes fn most b alsa a bytes)
    else (copy_bytes fn alsa a most b bytes, most)

-- Arithmetic on `unsigned int`.
abbrev pub u32 : ℕ → ℕ
u32 n = n % 2 ^ 32

abbrev pub minus32 : ℕ → ℕ → ℕ
minus32 a b = u32 (a + (2 ^ 32 - b))

abbrev pub min : ℕ → ℕ → ℕ
min a b = if ltb a b then a else b

-- The frames of a buffer.
abbrev pub frames_of : SoundChannel → SoundMbo → ℕ
frames_of ch m =
    if ch.cfg.direction % 2 == ch_rx
    then m.processed_length / ch.cfg.subbuffer_size
    else m.buffer_length / ch.cfg.subbuffer_size

-- The frames at the end of the ring buffer.
abbrev pub first_part : SoundChannel → Runtime → ℕ → ℕ
first_part ch rt frames = min (minus32 rt.buffer_size ch.buffer_pos) frames

-- The two copies.
unfoldable pub copy_frames :
    CopyFn → ℕ → ℕ → ℕ → ℕ → ByteMemory × ByteMemory → ByteMemory × ByteMemory
copy_frames fn frame_bytes buffer_pos fr0 frames ms =
    let ns = call_copy_fn fn (u32 (buffer_pos * frame_bytes)) 0 (u32 (fr0 * frame_bytes)) ms in
    if ltb fr0 frames
    then call_copy_fn fn 0 (u32 (fr0 * frame_bytes)) (u32 (minus32 frames fr0 * frame_bytes)) ns
    else ns

-- The counters after the copy, and whether a period has elapsed.
unfoldable pub advance : ℕ → SoundChannel → Runtime → Bool × SoundChannel
advance frames ch rt =
    let b = u32 (ch.buffer_pos + frames) in
    let p = u32 (ch.period_pos + frames) in
    let c = record ch { buffer_pos = if leb rt.buffer_size b then b - rt.buffer_size else b } in
    if leb rt.period_size p
    then (true, record c { period_pos = p - rt.period_size })
    else (false, record c { period_pos = p })

-- The result, the channel, the ring buffer and the buffer of the core.
unfoldable pub copy_with :
    CopyFn → SoundChannel → Runtime → SoundMbo → Bool × SoundChannel × Runtime × SoundMbo
copy_with fn ch rt m =
    let frames = frames_of ch m in
    let fr0 = first_part ch rt frames in
    let (alsa, most) =
      copy_frames fn ch.cfg.subbuffer_size ch.buffer_pos fr0 frames (rt.dma_area, m.memory) in
    let (elapsed, c) = advance frames ch rt in
    (elapsed, c, record rt { dma_area = alsa }, record m { memory = most })

-- `none` is a call through the null pointer.
unfoldable pub copy_data :
    SoundChannel → Runtime → SoundMbo → Option (Bool × SoundChannel × Runtime × SoundMbo)
copy_data ch rt m = elim ch.copy_fn [ none ↦ none | some fn ↦ some (copy_with fn ch rt m) ]
