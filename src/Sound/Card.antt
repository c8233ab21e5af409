-- ===== src/Sound/Card.antt =====
-- aim-sound/sound.c, the callbacks that the core calls: `audio_probe_channel`,
-- `audio_disconnect_channel` and the two completions, with the list of the linked channels. The cards
-- of ALSA are named by numbers, and what ALSA returns is an argument.
pub mod Links
pub mod Completions
use unicens2_driver.Common.{
  ℕ, zero, Bool, true, false, not, ◌&&◌, ◌||◌, Option, none, some, List, [], ◌∷◌, ◌++◌, ◌==◌,
  if◌then◌else◌,
}
use unicens2_driver.Common.Int.{ℤ, pos, negsuc, ◌==ℤ◌, leb_ℤ}
use unicens2_driver.Core.Types.{Config, einval, eio, ch_sync}
use unicens2_driver.Core.Text.{Text, strsep}
use unicens2_driver.Sound.{SoundChannel, Runtime}
use unicens2_driver.Sound.Pcm.{PcmHardware, audio_set_hw_params}

-- A linked channel, with its hardware description and the runtime of its substream.
pub record Linked : Type 0 where
  pub channel : SoundChannel
  pub pcm_hardware : PcmHardware
  pub runtime : Runtime

-- `dev_list`, with the cards that `snd_card_new` made and those given to `snd_card_free`.
pub record Cards : Type 0 where
  pub dev_list : List Linked
  pub created : List ℕ
  pub freed : List ℕ

abbrev pub is_channel : ℕ → ℕ → Linked → Bool
is_channel iface id l = (l.channel.iface == iface) && (l.channel.id == id)

abbrev pub get_channel : ℕ → ℕ → List Linked → Option Linked
get_channel iface id [] = none
get_channel iface id (l ∷ ls) = if is_channel iface id l then some l else get_channel iface id ls

-- `list_del` of what `get_channel` found.
abbrev pub drop_channel : ℕ → ℕ → List Linked → List Linked
drop_channel iface id [] = []
drop_channel iface id (l ∷ ls) = if is_channel iface id l then ls else l ∷ drop_channel iface id ls

abbrev pub is_dot : ℕ → Bool
is_dot x = x == 46

abbrev pub is_dot_or_newline : ℕ → Bool
is_dot_or_newline x = (x == 46) || (x == 10)

-- The name and the format, or `none` for -EIO.
abbrev pub split_arg_list : Option Text → Option (Text × Text)
split_arg_list buf =
    let (card_name, rest) = strsep is_dot buf in
    let (pcm_format, end) = strsep is_dot_or_newline rest in
    elim card_name [
      | none ↦ none
      | some name ↦ elim pcm_format [ none ↦ none | some format ↦ some (name, format) ]
    ]

-- `channel` in the zeroed memory of the card.
abbrev pub new_sound_channel : ℕ → ℕ → ℕ → Config → SoundChannel
new_sound_channel iface id card cfg = record {
  iface = iface;
  id = id;
  card = card;
  cfg = cfg;
  period_pos = 0;
  buffer_pos = 0;
  is_stream_running = false;
  has_playback_task = false;
  copy_fn = none;
}

abbrev pub no_hardware : PcmHardware
no_hardware = record {
  rate_min = 0;
  rate_max = 0;
  buffer_bytes_max = 0;
  period_bytes_min = 0;
  period_bytes_max = 0;
  periods_min = 0;
  periods_max = 0;
  channels_min = 0;
  channels_max = 0;
  formats = [];
}

abbrev pub no_runtime : Runtime
no_runtime = record { buffer_size = 0; period_size = 0; dma_area = λ a. 0 }

abbrev pub new_link : ℕ → ℕ → ℕ → Config → PcmHardware → Linked
new_link iface id card cfg hw = record {
  channel = new_sound_channel iface id card cfg;
  pcm_hardware = hw;
  runtime = no_runtime;
}

-- What ALSA answers: `snd_card_new` with the card that it made, `snd_pcm_new`, `snd_card_register`.
pub record Answers : Type 0 where
  pub card_new : ℤ
  pub card : ℕ
  pub pcm_new : ℤ
  pub registered : ℤ

abbrev pub is_negative : ℤ → Bool
is_negative z = leb_ℤ z (negsuc zero)

-- `err_free_card`.
abbrev pub free_card : ℤ → ℕ → Cards → ℤ × Cards
free_card ret card s = (ret, record s { freed = s.freed ++ card ∷ [] })

-- From the success of `snd_card_new` on.
unfoldable pub fill_card : Answers → ℕ → ℕ → Config → Text → Cards → ℤ × Cards
fill_card a iface id cfg format s =
    let (ret, hw) = audio_set_hw_params no_hardware format cfg in
    if not (ret ==ℤ pos 0)
    then free_card ret a.card s
    else if is_negative a.pcm_new
    then free_card a.pcm_new a.card s
    else if is_negative a.registered
    then free_card a.registered a.card s
    else (pos 0, record s { dev_list = s.dev_list ++ new_link iface id a.card cfg hw ∷ [] })

unfoldable pub audio_probe_channel :
    Answers → Option ℕ → ℕ → Config → Option Text → Cards → ℤ × Cards
audio_probe_channel a none id cfg arg_list s = (einval, s)
audio_probe_channel a (some iface) id cfg arg_list s =
    if not (cfg.data_type == ch_sync) then (einval, s) else elim (get_channel iface id s.dev_list) [
      | some l ↦ (einval, s)
      | none ↦ elim (split_arg_list arg_list) [
        | none ↦ (eio, s)
        | some (name, format) ↦
            if is_negative a.card_new
            then (a.card_new, s)
            else fill_card a iface id cfg format (record s { created = s.created ++ a.card ∷ [] })
      ]
    ]

unfoldable pub audio_disconnect_channel : ℕ → ℕ → Cards → ℤ × Cards
audio_disconnect_channel iface id s = elim (get_channel iface id s.dev_list) [
  | none ↦ (einval, s)
  | some l ↦ (
    pos 0,
    record s {
      dev_list = drop_channel iface id s.dev_list;
      freed = s.freed ++ l.channel.card ∷ [];
    },
  )
]

-- The loop of `audio_exit`.
unfoldable pub audio_exit : List Linked → Cards → Cards
audio_exit [] s = s
audio_exit (l ∷ ls) s =
    audio_exit ls (record s { dev_list = ls; freed = s.freed ++ l.channel.card ∷ [] })
