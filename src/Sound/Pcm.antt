-- ===== src/Sound/Pcm.antt =====
-- aim-sound/sound.c, the callbacks of a PCM substream. What ALSA and the kernel decide is an argument:
-- the width and the byte order of a format, the memory, the thread, and what the core returns.
pub mod Formats
use unicens2_driver.Common.{
  ℕ, ◌+◌, ◌*◌, ◌%◌, ◌^◌, Bool, true, false, not, ◌&&◌, ◌||◌, Option, none, some, List, [], ◌∷◌,
  ◌==◌, ltb, if◌then◌else◌,
}
use unicens2_driver.Common.Int.{ℤ, pos, negsuc, ◌==ℤ◌}
use unicens2_driver.Core.Types.{Config, einval, eio, ch_tx}
use unicens2_driver.Core.Text.{Text, text, str_eq}
use unicens2_driver.Sound.{
  CopyFn, alsa_to_most_memcpy, alsa_to_most_copy16, alsa_to_most_copy24, alsa_to_most_copy32,
  most_to_alsa_memcpy, most_to_alsa_copy16, most_to_alsa_copy24, most_to_alsa_copy32, SoundChannel,
}

-- The formats of ALSA that the code names.
pub data Format : Type 0 where
  s8 s16_le s16_be s24_3le s24_3be s32_le s32_be : Format

-- `struct snd_pcm_hardware`, without the flags that never change.
pub record PcmHardware : Type 0 where
  pub rate_min : ℕ
  pub rate_max : ℕ
  pub buffer_bytes_max : ℕ
  pub period_bytes_min : ℕ
  pub period_bytes_max : ℕ
  pub periods_min : ℕ
  pub periods_max : ℕ
  pub channels_min : ℕ
  pub channels_max : ℕ
  pub formats : List Format

-- The assignments before the first test.
abbrev pub common_params : PcmHardware → Config → PcmHardware
common_params hw cfg = record hw {
  rate_min = 48000;
  rate_max = 48000;
  buffer_bytes_max = cfg.num_buffers * cfg.buffer_size;
  period_bytes_min = cfg.buffer_size;
  period_bytes_max = cfg.buffer_size;
  periods_min = 1;
  periods_max = cfg.num_buffers;
}

-- One branch: the format is for frames of `size` bytes.
abbrev pub set_format : ℕ → ℕ → List Format → PcmHardware → Config → ℤ × PcmHardware
set_format size channels formats hw cfg =
    if not (cfg.subbuffer_size == size)
    then (einval, hw)
    else (pos 0, record hw { channels_min = channels; channels_max = channels; formats = formats })

unfoldable pub audio_set_hw_params : PcmHardware → Text → Config → ℤ × PcmHardware
audio_set_hw_params old pcm_format cfg =
    let hw = common_params old cfg in
    if str_eq pcm_format (text "1x8")
    then set_format 1 1 (s8 ∷ []) hw cfg
    else if str_eq pcm_format (text "2x16")
    then set_format 4 2 (s16_le ∷ s16_be ∷ []) hw cfg
    else if str_eq pcm_format (text "2x24")
    then set_format 6 2 (s24_3le ∷ s24_3be ∷ []) hw cfg
    else if str_eq pcm_format (text "2x32")
    then set_format 8 2 (s32_le ∷ s32_be ∷ []) hw cfg
    else if str_eq pcm_format (text "6x16")
    then set_format 12 6 (s16_le ∷ s16_be ∷ []) hw cfg
    else (eio, hw)

-- The copy function for a direction, a byte order and a width in bits.
unfoldable pub select_copy_fn : Bool → Bool → ℤ → Option CopyFn
select_copy_fn to_most is_big width =
    if is_big || (width ==ℤ pos 8)
    then some (if to_most then alsa_to_most_memcpy else most_to_alsa_memcpy)
    else if width ==ℤ pos 16
    then some (if to_most then alsa_to_most_copy16 else most_to_alsa_copy16)
    else if width ==ℤ pos 24
    then some (if to_most then alsa_to_most_copy24 else most_to_alsa_copy24)
    else if width ==ℤ pos 32
    then some (if to_most then alsa_to_most_copy32 else most_to_alsa_copy32)
    else none

module _ (snd_pcm_format_physical_width : Format → ℤ)
    (snd_pcm_format_big_endian : Format → Bool) where
  unfoldable pub pcm_prepare : Format → SoundChannel → ℤ × SoundChannel
  pcm_prepare format ch =
      let width = snd_pcm_format_physical_width format in
      let is_big = snd_pcm_format_big_endian format in
      elim (select_copy_fn (ch.cfg.direction == ch_tx) is_big width) [
        | none ↦ (einval, record ch { copy_fn = none })
        | some fn ↦ (pos 0, record ch { copy_fn = some fn; period_pos = 0; buffer_pos = 0 })
      ]

-- The commands of `pcm_trigger`.
pub data Trigger : Type 0 where
  start_stream stop_stream other_command : Trigger

abbrev pub pcm_trigger : Trigger → SoundChannel → ℤ × SoundChannel
pcm_trigger start_stream ch = (pos 0, record ch { is_stream_running = true })
pcm_trigger stop_stream ch = (pos 0, record ch { is_stream_running = false })
pcm_trigger other_command ch = (einval, ch)

abbrev pub ebusy : ℤ
ebusy = negsuc 15

-- `thread` is 0 or the error of `kthread_run`, `started` what `most_start_channel` returns. The last
-- part of the result is whether the channel is started for this substream.
unfoldable pub pcm_open : ℤ → ℤ → SoundChannel → ℤ × SoundChannel × Bool
pcm_open thread started ch =
    if (ch.cfg.direction == ch_tx) && not (thread ==ℤ pos 0)
    then (thread, ch, false)
    else let has_task = if ch.cfg.direction == ch_tx then true else ch.has_playback_task in
      if not (started ==ℤ pos 0)
      then (
        ebusy,
        record ch { has_playback_task = if ch.cfg.direction == ch_tx then false else has_task },
        false,
      )
      else (pos 0, record ch { has_playback_task = has_task }, true)

unfoldable pub pcm_close : SoundChannel → ℤ × SoundChannel × Bool
pcm_close ch = (
  pos 0,
  record ch {
    has_playback_task = if ch.cfg.direction == ch_tx then false else ch.has_playback_task;
  },
  false,
)

-- `allocated` is what `snd_pcm_lib_alloc_vmalloc_buffer` returns.
abbrev pub pcm_hw_params : ℤ → ℕ → PcmHardware → ℤ
pcm_hw_params allocated channels hw =
    if ltb hw.channels_max channels || ltb channels hw.channels_min then einval else allocated
