-- ===== src/Sound/Periods.antt =====
-- aim-sound/sound.c, `copy_data` over a sequence of buffers: the position that `pcm_pointer` reports,
-- and the periods that are reported as elapsed.
use unicens2_driver.Common.{
  ℕ, suc, ◌+◌, ◌*◌, ◌≤◌, ◌<◌, ◌≡◌, if◌then◌else◌, Option, none, some, Bool, List, [], ◌∷◌,
}
use unicens2_driver.Sound.{SoundChannel, Runtime, SoundMbo}
use unicens2_driver.Sound.Copy.{frames_of, copy_data}

-- `pcm_pointer`.
abbrev pub pcm_pointer : SoundChannel → ℕ
pcm_pointer ch = ch.buffer_pos

-- The buffers one after the other: the number of elapsed periods, the channel and the ring buffer.
unfoldable pub transfers :
    List SoundMbo → SoundChannel → Runtime → Option (ℕ × SoundChannel × Runtime)
transfers [] ch rt = some (0, ch, rt)
transfers (m ∷ ms) ch rt = elim (copy_data ch rt m) [
  | none ↦ none
  | some (elapsed, c, r, n) ↦ elim (transfers ms c r) [
    | none ↦ none
    | some (k, d, q) ↦ some (if elapsed then suc k else k, d, q)
  ]
]

abbrev pub total_frames : SoundChannel → List SoundMbo → ℕ
total_frames ch [] = 0
total_frames ch (m ∷ ms) = frames_of ch m + total_frames ch ms

-- No buffer holds more frames than a period or the ring buffer.
abbrev pub Fitting : SoundChannel → Runtime → List SoundMbo → Type 0
Fitting ch rt [] = Unit {0}
Fitting ch rt (m ∷ ms) =
    (frames_of ch m ≤ rt.period_size) × (frames_of ch m ≤ rt.buffer_size) × Fitting ch rt ms

-- What `advance` does to the two positions, `b` and `q` after it.
abbrev Moves : ℕ → ℕ → ℕ → ℕ → Bool → ℕ → ℕ → ℕ → Type 0
Moves n period p0 q0 elapsed frames b q =
    (laps : ℕ) × (p0 + frames ≡ laps * n + b)
    × (b < n)
    × (q0 + frames ≡ (if elapsed then period else 0) + q)
    × (q < period)

-- What is true of a sequence of buffers.
abbrev Moved : SoundChannel → Runtime → ℕ → ℕ × SoundChannel × Runtime → Type 0
Moved ch rt total r =
    ((laps : ℕ) × (ch.buffer_pos + total ≡ laps * rt.buffer_size + r.1.buffer_pos)
      × (r.1.buffer_pos < rt.buffer_size))
    × (ch.period_pos + total ≡ r.0 * rt.period_size + r.1.period_pos)
    × (r.1.period_pos < rt.period_size)

-- A sequence that ends, with a property of its result.
abbrev pub Ends :
    (ℕ × SoundChannel × Runtime → Type 0) → Option (ℕ × SoundChannel × Runtime) → Type 0
Ends P none = ⊥
Ends P (some r) = P r
