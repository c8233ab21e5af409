-- ===== src/Sound/Pcm/Formats.antt =====
-- aim-sound/sound.c, the formats that `audio_set_hw_params` offers to ALSA, and what `pcm_prepare`
-- makes of the one that the application takes.
use unicens2_driver.Common.{
  ℕ, ◌*◌, ◌≤◌, ◌≡◌, refl, sym, ◌⊎◌, arith, Bool, true, false, some, List, [], ◌∷◌, ◌==◌,
  if◌then◌else◌, inl, inr, Bool-cases,
}
use mathlib.Core.Path.{subst}
use unicens2_driver.Common.Int.{ℤ, pos}
use unicens2_driver.Core.Types.{Config, eio, ch_tx}
use unicens2_driver.Core.Text.{Text, text, str_eq}
use unicens2_driver.Sound.{
  CopyFn, alsa_to_most_memcpy, alsa_to_most_copy16, alsa_to_most_copy24, alsa_to_most_copy32,
  most_to_alsa_memcpy, most_to_alsa_copy16, most_to_alsa_copy24, most_to_alsa_copy32, SoundChannel,
}
use unicens2_driver.Sound.Copy.{is_to_most}
use unicens2_driver.Sound.Copy.Samples.{width}
use unicens2_driver.Sound.Pcm.{
  Format, s8, s16_le, s16_be, s24_3le, s24_3be, s32_le, s32_be, PcmHardware, common_params,
  set_format, audio_set_hw_params, select_copy_fn, pcm_prepare,
}

-- What ALSA documents of its formats.
abbrev pub format_width : Format → ℕ
format_width s8 = 8
format_width s16_le = 16
format_width s16_be = 16
format_width s24_3le = 24
format_width s24_3be = 24
format_width s32_le = 32
format_width s32_be = 32

abbrev pub is_big_format : Format → Bool
is_big_format s8 = false
is_big_format s16_le = false
is_big_format s16_be = true
is_big_format s24_3le = false
is_big_format s24_3be = true
is_big_format s32_le = false
is_big_format s32_be = true

abbrev pub Offers : List Format → Format → Type 0
Offers [] f = ⊥
Offers (g ∷ gs) f = (f ≡ g) ⊎ Offers gs f

-- A frame of `size` bytes is a whole number of the samples of the copy function for a format.
abbrev pub Whole : ℕ → Bool → Format → Type 0
Whole size tx f =
    (fn : CopyFn) × (c : ℕ) × (select_copy_fn tx (is_big_format f) (pos (format_width f)) ≡ some fn)
    × (is_to_most fn ≡ tx)
    × (size ≡ c * width fn)
    × (1 ≤ c)

-- The bytes that the copy function for a format takes together.
abbrev sample_width : Format → ℕ
sample_width s8 = 1
sample_width s16_le = 2
sample_width s16_be = 1
sample_width s24_3le = 3
sample_width s24_3be = 1
sample_width s32_le = 4
sample_width s32_be = 1

select_copy_fn_lem :
    (tx : Bool) (f : Format)
    → (fn : CopyFn) × (select_copy_fn tx (is_big_format f) (pos (format_width f)) ≡ some fn)
      × (is_to_most fn ≡ tx)
      × (width fn ≡ sample_width f)
unfolding select_copy_fn
select_copy_fn_lem true s8 = (alsa_to_most_memcpy, refl, refl, refl)
select_copy_fn_lem true s16_le = (alsa_to_most_copy16, refl, refl, refl)
select_copy_fn_lem true s16_be = (alsa_to_most_memcpy, refl, refl, refl)
select_copy_fn_lem true s24_3le = (alsa_to_most_copy24, refl, refl, refl)
select_copy_fn_lem true s24_3be = (alsa_to_most_memcpy, refl, refl, refl)
select_copy_fn_lem true s32_le = (alsa_to_most_copy32, refl, refl, refl)
select_copy_fn_lem true s32_be = (alsa_to_most_memcpy, refl, refl, refl)
select_copy_fn_lem false s8 = (most_to_alsa_memcpy, refl, refl, refl)
select_copy_fn_lem false s16_le = (most_to_alsa_copy16, refl, refl, refl)
select_copy_fn_lem false s16_be = (most_to_alsa_memcpy, refl, refl, refl)
select_copy_fn_lem false s24_3le = (most_to_alsa_copy24, refl, refl, refl)
select_copy_fn_lem false s24_3be = (most_to_alsa_memcpy, refl, refl, refl)
select_copy_fn_lem false s32_le = (most_to_alsa_copy32, refl, refl, refl)
select_copy_fn_lem false s32_be = (most_to_alsa_memcpy, refl, refl, refl)

samples-Whole :
    (size c : ℕ) (tx : Bool) (f : Format) → size ≡ c * sample_width f → 1 ≤ c → Whole size tx f
samples-Whole size c tx f e h =
    let (fn, x, y, z) = select_copy_fn_lem tx f in (fn, c, x, y, rw z e, h)

two-Whole :
    (size c d : ℕ) (g h : Format)
    → size ≡ c * sample_width g
    → 1 ≤ c
    → size ≡ d * sample_width h
    → 1 ≤ d
    → (tx : Bool) (f : Format) → Offers (g ∷ h ∷ []) f
    → Whole size tx f
two-Whole size c d g h x l y m tx f (inl e) = rw e (samples-Whole size c tx g x l)
two-Whole size c d g h x l y m tx f (inr (inl e)) = rw e (samples-Whole size d tx h y m)
two-Whole size c d g h x l y m tx f (inr (inr e)) = absurd e

one-Whole : (tx : Bool) (f : Format) → Offers (s8 ∷ []) f → Whole 1 tx f
one-Whole tx f (inl e) = rw e (samples-Whole 1 1 tx s8 (omega arith) (omega arith))
one-Whole tx f (inr e) = absurd e

-- When a configuration is accepted, every format that it offers is for whole samples.
abbrev AllWhole : Config → ℤ × PcmHardware → Type 0
AllWhole cfg r =
    r.0 ≡ pos 0 → (tx : Bool) (f : Format) → Offers r.1.formats f → Whole cfg.subbuffer_size tx f

set_format-AllWhole :
    (size channels : ℕ) (formats : List Format) (hw : PcmHardware) (cfg : Config)
    → ((tx : Bool) (f : Format) → Offers formats f → Whole size tx f)
    → AllWhole cfg (set_format size channels formats hw cfg)
set_format-AllWhole size channels formats hw cfg k =
    elim (Bool-cases (cfg.subbuffer_size == size)) [
      | inl e ↦
          let d : cfg.subbuffer_size ≡ size = ground arith in
          simp e (λ z tx f o. subst (λ n. Whole n tx f) (sym d) (k tx f o))
      | inr e ↦ simp e (λ z. absurd (ground arith))
    ]

if-AllWhole :
    (cfg : Config) (b : Bool) (x y : ℤ × PcmHardware)
    → AllWhole cfg x
    → AllWhole cfg y
    → AllWhole cfg (if b then x else y)
if-AllWhole cfg true x y h k = h
if-AllWhole cfg false x y h k = k

hw_params-AllWhole :
    (hw : PcmHardware) (t : Text) (cfg : Config) → AllWhole cfg (audio_set_hw_params hw t cfg)
unfolding audio_set_hw_params
hw_params-AllWhole old t cfg =
    let hw = common_params old cfg in
    let m8 = set_format 1 1 (s8 ∷ []) hw cfg in
    let m16 = set_format 4 2 (s16_le ∷ s16_be ∷ []) hw cfg in
    let m24 = set_format 6 2 (s24_3le ∷ s24_3be ∷ []) hw cfg in
    let m32 = set_format 8 2 (s32_le ∷ s32_be ∷ []) hw cfg in
    let m6 = set_format 12 6 (s16_le ∷ s16_be ∷ []) hw cfg in
    let r6 = if str_eq t (text "6x16") then m6 else (eio, hw) in
    let r32 = if str_eq t (text "2x32") then m32 else r6 in
    let r24 = if str_eq t (text "2x24") then m24 else r32 in
    let r16 = if str_eq t (text "2x16") then m16 else r24 in
    if-AllWhole cfg (str_eq t (text "1x8")) m8 r16
      (set_format-AllWhole 1 1 (s8 ∷ []) hw cfg one-Whole)
      (if-AllWhole cfg (str_eq t (text "2x16")) m16 r24
        (set_format-AllWhole 4 2 (s16_le ∷ s16_be ∷ []) hw cfg
          (two-Whole 4 2 4 s16_le s16_be refl (omega arith) refl (omega arith)))
        (if-AllWhole cfg (str_eq t (text "2x24")) m24 r32
          (set_format-AllWhole 6 2 (s24_3le ∷ s24_3be ∷ []) hw cfg
            (two-Whole 6 2 6 s24_3le s24_3be refl (omega arith) refl (omega arith)))
          (if-AllWhole cfg (str_eq t (text "2x32")) m32 r6
            (set_format-AllWhole 8 2 (s32_le ∷ s32_be ∷ []) hw cfg
              (two-Whole 8 2 8 s32_le s32_be refl (omega arith) refl (omega arith)))
            (if-AllWhole cfg (str_eq t (text "6x16")) m6 (eio, hw)
              (set_format-AllWhole 12 6 (s16_le ∷ s16_be ∷ []) hw cfg
                (two-Whole 12 6 12 s16_le s16_be refl (omega arith) refl (omega arith)))
              (λ z. absurd (ground arith))))))

-- When a link's format is accepted, `pcm_prepare` succeeds with any of the formats that are offered to
-- ALSA and selects a copy function for the direction of the channel, and a frame of the channel is a
-- whole number of the samples that the function copies. What ALSA documents of its formats is assumed.
pub prepare-Whole :
    (hw new : PcmHardware) (t : Text) (f : Format) (ch : SoundChannel) (physical_width : Format → ℤ)
    (big_endian : Format → Bool)
    → physical_width f ≡ pos (format_width f)
    → big_endian f ≡ is_big_format f
    → audio_set_hw_params hw t ch.cfg ≡ (pos 0, new)
    → Offers new.formats f
    → (fn : CopyFn) × (c : ℕ) × (pcm_prepare physical_width big_endian f ch
        ≡ (pos 0, record ch { copy_fn = some fn; period_pos = 0; buffer_pos = 0 }))
      × (is_to_most fn ≡ (ch.cfg.direction == ch_tx))
      × (ch.cfg.subbuffer_size ≡ c * width fn)
      × (1 ≤ c)
unfolding pcm_prepare
prepare-Whole hw new t f ch phys big x y e o =
    let w : AllWhole ch.cfg (pos 0, new) =
      subst (AllWhole ch.cfg) e (hw_params-AllWhole hw t ch.cfg) in
    let (fn, c, p, q, r, l) = w refl (ch.cfg.direction == ch_tx) f o in
    (fn, c, simp (x, y, p, pcm_prepare) refl, q, r, l)
