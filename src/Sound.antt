-- ===== src/Sound.antt =====
-- aim-sound/sound.c, the module that gives the audio channels to ALSA: the data types, and the way of
-- the frames between the ring buffer of ALSA and the buffers of the core.
pub mod Swap
pub mod Copy
pub mod Pcm
pub mod Periods
pub mod Card
mod Tests
use unicens2_driver.Common.{
  ℕ, suc, ◌+◌, ◌-◌, ◌*◌, ◌/◌, ◌%◌, ◌^◌, Bool, true, false, Option, none, some, ltb, leb, ◌==◌,
  if◌then◌else◌,
}
use unicens2_driver.Common.Int.{ℤ, pos}
use unicens2_driver.Common.Memory.{ByteMemory}
use unicens2_driver.Core.Types.{Config, ch_rx, ch_tx}

-- What `copy_fn` points to.
pub data CopyFn : Type 0 where
  alsa_to_most_memcpy alsa_to_most_copy16 alsa_to_most_copy24 alsa_to_most_copy32 : CopyFn
  most_to_alsa_memcpy most_to_alsa_copy16 most_to_alsa_copy24 most_to_alsa_copy32 : CopyFn

-- `struct snd_pcm_runtime`, as far as the code uses it: sizes in frames, and the ring buffer.
pub record Runtime : Type 0 where
  pub buffer_size : ℕ
  pub period_size : ℕ
  pub dma_area : ByteMemory

-- `struct channel`; its interface and its card are named by numbers.
pub record SoundChannel : Type 0 where
  pub iface : ℕ
  pub id : ℕ
  pub card : ℕ
  pub cfg : Config
  pub period_pos : ℕ
  pub buffer_pos : ℕ
  pub is_stream_running : Bool
  pub has_playback_task : Bool
  pub copy_fn : Option CopyFn

-- The fields of `struct mbo` that the code uses; `memory` is what stands from `virt_address` on.
pub record SoundMbo : Type 0 where
  pub ifp : ℕ
  pub hdm_channel_id : ℕ
  pub buffer_length : ℕ
  pub processed_length : ℕ
  pub memory : ByteMemory
