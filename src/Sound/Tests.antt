-- ===== src/Sound/Tests.antt =====
-- The theorems on aim-sound/sound.c at channels of 24-bit stereo.
use unicens2_driver.Common.{
  ℕ, ◌+◌, ◌-◌, ◌*◌, ◌%◌, ◌≤◌, ◌≡◌, refl, arith, Bool, true, false, some, [], ◌∷◌, ◌==◌, inl,
}
use unicens2_driver.Common.Int.{pos}
use unicens2_driver.Common.Memory.{ByteMemory}
use unicens2_driver.Core.Types.{Config, ch_rx, ch_tx, ch_sync}
use unicens2_driver.Core.Text.{text}
use unicens2_driver.Sound.{
  CopyFn, SoundChannel, Runtime, SoundMbo, most_to_alsa_copy24, alsa_to_most_copy24,
}
use unicens2_driver.Sound.Swap.{swap_copy24}
use unicens2_driver.Sound.Copy.{copy_data, is_to_most}
use unicens2_driver.Sound.Copy.Samples.{width, copy24_overruns}
use unicens2_driver.Sound.Copy.Ring.{slot}
use unicens2_driver.Sound.Copy.Stream.{capture-slots, playback-slots}
use unicens2_driver.Sound.Pcm.{
  PcmHardware, s24_3le, s24_3be, audio_set_hw_params, pcm_prepare, common_params,
}
use unicens2_driver.Sound.Pcm.Formats.{format_width, is_big_format, prepare-Whole}
use unicens2_driver.Sound.Card.{no_hardware, Answers, Cards}
use unicens2_driver.Sound.Card.Links.{probe, disconnect, calls, IsOrderly, IsOrderly-calls}

abbrev cfg24 : Config
cfg24 = record {
  direction = ch_rx;
  data_type = ch_sync;
  num_buffers = 8;
  buffer_size = 12;
  extra_len = 0;
  subbuffer_size = 6;
  packets_per_xact = 2;
}

abbrev capture : SoundChannel
capture = record {
  iface = 1;
  id = 5;
  card = 0;
  cfg = cfg24;
  period_pos = 1;
  buffer_pos = 3;
  is_stream_running = true;
  has_playback_task = false;
  copy_fn = some most_to_alsa_copy24;
}

abbrev playback : SoundChannel
playback = record capture {
  cfg = record cfg24 { direction = ch_tx };
  copy_fn = some alsa_to_most_copy24;
}

abbrev bytes : ByteMemory
bytes = λ a. a % 256

abbrev ring : Runtime
ring = record { buffer_size = 4; period_size = 2; dma_area = bytes }

abbrev mbo : SoundMbo
mbo = record {
  ifp = 1;
  hdm_channel_id = 5;
  buffer_length = 12;
  processed_length = 12;
  memory = bytes;
}

capture-slots_example :
    (r : Bool × SoundChannel × Runtime × SoundMbo) × (copy_data capture ring mbo ≡ some r)
    × (r.2.dma_area (slot 4 3 1 * (2 * 3) + 1 * 3 + 2) ≡ bytes (1 * (2 * 3) + 1 * 3 + (3 - 1 - 2)))
capture-slots_example =
    capture-slots most_to_alsa_copy24 2 1 1 2 capture ring mbo refl refl refl (λ a. omega arith)
      (omega arith) (omega arith) (omega arith) (omega arith) (omega arith) (omega arith)
      (omega arith)

playback-slots_example :
    (r : Bool × SoundChannel × Runtime × SoundMbo) × (copy_data playback ring mbo ≡ some r)
    × (r.3.memory (1 * (2 * 3) + 1 * 3 + 2) ≡ bytes (slot 4 3 1 * (2 * 3) + 1 * 3 + (3 - 1 - 2)))
playback-slots_example =
    playback-slots alsa_to_most_copy24 2 1 1 2 playback ring mbo refl refl refl (λ a. omega arith)
      (omega arith) (omega arith) (omega arith) (omega arith) (omega arith) (omega arith)
      (omega arith)

abbrev prepared : SoundChannel
prepared = record capture { period_pos = 0; buffer_pos = 0 }

abbrev hardware24 : PcmHardware
hardware24 = record (common_params no_hardware cfg24) {
  channels_min = 2;
  channels_max = 2;
  formats = s24_3le ∷ s24_3be ∷ [];
}

offers24 : audio_set_hw_params no_hardware (text "2x24") cfg24 ≡ (pos 0, hardware24)
unfolding audio_set_hw_params
offers24 = refl

prepare-Whole_example :
    (fn : CopyFn) × (c : ℕ) × (pcm_prepare (λ f. pos (format_width f)) is_big_format s24_3le capture
      ≡ (pos 0, record capture { copy_fn = some fn; period_pos = 0; buffer_pos = 0 }))
    × (is_to_most fn ≡ (ch_rx == ch_tx))
    × (6 ≡ c * width fn)
    × (1 ≤ c)
prepare-Whole_example =
    prepare-Whole no_hardware hardware24 (text "2x24") s24_3le capture (λ f. pos (format_width f))
      is_big_format refl refl offers24 (inl refl)

copy24_overruns_example :
    swap_copy24 bytes 0 bytes 0 0 (0 + 1000 * 3 + 1) ≡ bytes (0 + 1000 * 3 + (2 - 1))
copy24_overruns_example =
    copy24_overruns bytes 0 bytes 0 0 1000 1 (omega arith) (omega arith) (omega arith)

abbrev answers : Answers
answers = record { card_new = pos 0; card = 7; pcm_new = pos 0; registered = pos 0 }

abbrev empty : Cards
empty = record { dev_list = []; created = []; freed = [] }

IsOrderly-calls_example : IsOrderly (
    calls
      (probe answers (some 1) 5 cfg24 (some (text "mic.2x24"))
        ∷ probe answers (some 1) 5 cfg24 (some (text "mic.2x24"))
        ∷ probe answers (some 1) 6 cfg24 (some (text "mic.2x16"))
        ∷ disconnect 1 5
        ∷ [])
      empty)
IsOrderly-calls_example =
    IsOrderly-calls
      (probe answers (some 1) 5 cfg24 (some (text "mic.2x24"))
        ∷ probe answers (some 1) 5 cfg24 (some (text "mic.2x24"))
        ∷ probe answers (some 1) 6 cfg24 (some (text "mic.2x16"))
        ∷ disconnect 1 5
        ∷ [])
      empty (λ i c. omega arith, λ c. omega arith)
