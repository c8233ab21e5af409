-- ===== src/Sound/Card/Completions.antt =====
-- aim-sound/sound.c, `audio_rx_completion`, `audio_tx_completion` and a round of `playback_thread`.
use unicens2_driver.Common.{
  ℕ, ◌≡◌, refl, arith, ap, Bool, true, false, not, ◌||◌, Option, none, some, List, [], ◌∷◌, ltb,
  if◌then◌else◌, inl, inr, Bool-cases, Option-cases,
}
use unicens2_driver.Common.Int.{ℤ, pos, ◌==ℤ◌}
use unicens2_driver.Core.Types.{einval}
use unicens2_driver.Sound.{SoundChannel, Runtime, SoundMbo}
use unicens2_driver.Sound.Copy.{copy_data}
use unicens2_driver.Sound.Card.{Linked, Cards, is_channel, get_channel}

-- What the code writes through the pointer that `get_channel` found.
abbrev pub set_channel : ℕ → ℕ → Linked → List Linked → List Linked
set_channel iface id l [] = []
set_channel iface id l (x ∷ xs) =
    if is_channel iface id x then l ∷ xs else x ∷ set_channel iface id l xs

-- The result of a completion, the channels, whether the buffer went back by `most_put_mbo`, and whether
-- `snd_pcm_period_elapsed` was called.
pub record RxResult : Type 0 where
  pub ret : ℤ
  pub cards : Cards
  pub is_put : Bool
  pub has_elapsed : Bool

-- `none` is a call through the null pointer in `copy_data`.
unfoldable pub audio_rx_completion : SoundMbo → Cards → Option RxResult
audio_rx_completion m s = elim (get_channel m.ifp m.hdm_channel_id s.dev_list) [
  | none ↦ some (record { ret = einval; cards = s; is_put = false; has_elapsed = false })
  | some l ↦
      if not l.channel.is_stream_running
      then some (record { ret = pos 0; cards = s; is_put = true; has_elapsed = false })
      else elim (copy_data l.channel l.runtime m) [
        | none ↦ none
        | some (elapsed, c, r, n) ↦ some (record {
          ret = pos 0;
          cards = record s {
            dev_list =
                set_channel m.ifp m.hdm_channel_id (record l { channel = c; runtime = r })
                  s.dev_list;
          };
          is_put = true;
          has_elapsed = elapsed;
        })
      ]
]

-- The result, and whether the playback thread of the channel was woken.
abbrev pub audio_tx_completion : ℕ → ℕ → Cards → ℤ × Bool
audio_tx_completion iface id s = elim (get_channel iface id s.dev_list) [
  | none ↦ (einval, false)
  | some l ↦ (pos 0, true)
]

-- `memset(mbo->virt_address, 0, mbo->buffer_length)`.
abbrev pub silence : SoundMbo → SoundMbo
silence m = record m { memory = λ a. if ltb a m.buffer_length then 0 else m.memory a }

-- A round of `playback_thread` with the buffer of `most_get_mbo`: whether a period has elapsed, the
-- channel and the ring buffer, and the buffer given to `most_submit_mbo`.
unfoldable pub playback_round :
    SoundMbo → SoundChannel → Runtime → Option (Bool × SoundChannel × Runtime × SoundMbo)
playback_round m ch rt =
    if ch.is_stream_running then copy_data ch rt m else some (false, ch, rt, silence m)

abbrev pub has_copy_fn : SoundChannel → Bool
has_copy_fn ch = elim ch.copy_fn [ none ↦ false | some fn ↦ true ]

-- Every channel whose stream runs was prepared.
abbrev pub ArePrepared : List Linked → Type 0
ArePrepared [] = Unit {0}
ArePrepared (l ∷ ls) =
    ((not l.channel.is_stream_running || has_copy_fn l.channel) ≡ true) × ArePrepared ls

prepared_found :
    (iface id : ℕ) (l : Linked) (ls : List Linked)
    → ArePrepared ls
    → get_channel iface id ls ≡ some l
    → (not l.channel.is_stream_running || has_copy_fn l.channel) ≡ true
prepared_found iface id l [] h e = absurd (ground (arith, e))
prepared_found iface id l (x ∷ xs) h e = elim (Bool-cases (is_channel iface id x)) [
  | inl d ↦ let q : x ≡ l = ap (λ o. elim o [ none ↦ x | some y ↦ y ]) (rw d at e) in rw q at h.0
  | inr d ↦ prepared_found iface id l xs h.1 (rw d at e)
]

-- A completion that ends: the buffer goes back exactly when it returns 0, and it reports a period only
-- then.
abbrev pub Returns : Option RxResult → Type 0
Returns none = ⊥
Returns (some r) = (r.is_put ≡ (r.ret ==ℤ pos 0)) × ((r.is_put || not r.has_elapsed) ≡ true)

-- When every channel whose stream runs was prepared, `audio_rx_completion` does not call a null
-- pointer; it gives the buffer back to the core exactly when it returns 0, and leaves it to the core
-- otherwise, without a period reported.
pub rx_completion-Returns :
    (m : SoundMbo) (s : Cards) → ArePrepared s.dev_list → Returns (audio_rx_completion m s)
unfolding audio_rx_completion copy_data
rx_completion-Returns m s h = elim (Option-cases (get_channel m.ifp m.hdm_channel_id s.dev_list)) [
  | inl e ↦ simp (e, Returns, audio_rx_completion) (refl, refl)
  | inr (l, e) ↦ elim (Bool-cases l.channel.is_stream_running) [
    | inr f ↦ simp (e, f, Returns, audio_rx_completion) (refl, refl)
    | inl f ↦ elim (Option-cases l.channel.copy_fn) [
      | inl g ↦
          absurd
            (ground (arith, g, simp f at (prepared_found m.ifp m.hdm_channel_id l s.dev_list h e)))
      | inr (fn, g) ↦ simp (e, f, g, Returns, audio_rx_completion, copy_data) (refl, refl)
    ]
  ]
]
