-- ===== src/Sound/Card/Links.antt =====
-- aim-sound/sound.c, the list of linked channels and the cards over any order of calls.
use unicens2_driver.Common.{
  ℕ, ◌+◌, ◌≤◌, ◌≡◌, refl, sym, ◌∙◌, ap, arith, not, ◌&&◌, Option, none, some, List, [], ◌∷◌, ◌++◌,
  ◌==◌, if◌then◌else◌, inl, inr, Bool-cases, Option-cases,
}
use unicens2_driver.Common.Int.{pos, ◌==ℤ◌}
use unicens2_driver.Core.Types.{Config, ch_sync}
use unicens2_driver.Core.Text.{Text}
use unicens2_driver.Sound.Pcm.{PcmHardware, audio_set_hw_params}
use unicens2_driver.Sound.Card.{
  Linked, Cards, Answers, is_channel, get_channel, drop_channel, split_arg_list, new_link,
  no_hardware, is_negative, fill_card, audio_probe_channel, audio_disconnect_channel, audio_exit,
}

-- A call of the core.
pub data CardCall : Type 0 where
  probe : Answers → Option ℕ → ℕ → Config → Option Text → CardCall
  disconnect : ℕ → ℕ → CardCall

abbrev pub calls : List CardCall → Cards → Cards
calls [] s = s
calls (probe a iface id cfg arg ∷ cs) s = calls cs (audio_probe_channel a iface id cfg arg s).1
calls (disconnect iface id ∷ cs) s = calls cs (audio_disconnect_channel iface id s).1

abbrev pub links : ℕ → ℕ → List Linked → ℕ
links iface id [] = 0
links iface id (l ∷ ls) = (if is_channel iface id l then 1 else 0) + links iface id ls

abbrev pub times : ℕ → List ℕ → ℕ
times c [] = 0
times c (x ∷ xs) = (if x == c then 1 else 0) + times c xs

abbrev pub carded : ℕ → List Linked → ℕ
carded c [] = 0
carded c (l ∷ ls) = (if l.channel.card == c then 1 else 0) + carded c ls

-- A channel is linked at most once, and a card that was made is that of a linked channel or was freed.
abbrev pub IsOrderly : Cards → Type 0
IsOrderly s =
    ((iface id : ℕ) → links iface id s.dev_list ≤ 1)
    × ((c : ℕ) → times c s.created ≡ carded c s.dev_list + times c s.freed)

links-append : (i c : ℕ) (xs ys : List Linked) → links i c (xs ++ ys) ≡ links i c xs + links i c ys
links-append i c [] ys = omega arith
links-append i c (x ∷ xs) ys = omega (arith, links-append i c xs ys)

times-append : (c : ℕ) (xs ys : List ℕ) → times c (xs ++ ys) ≡ times c xs + times c ys
times-append c [] ys = omega arith
times-append c (x ∷ xs) ys = omega (arith, times-append c xs ys)

carded-append : (c : ℕ) (xs ys : List Linked) → carded c (xs ++ ys) ≡ carded c xs + carded c ys
carded-append c [] ys = omega arith
carded-append c (x ∷ xs) ys = omega (arith, carded-append c xs ys)

none-links : (i c : ℕ) (ls : List Linked) → get_channel i c ls ≡ none → links i c ls ≡ 0
none-links i c [] e = refl
none-links i c (l ∷ ls) e = elim (Bool-cases (is_channel i c l)) [
  | inl d ↦ absurd (ground (arith, e, d))
  | inr d ↦ rw d (omega (arith, none-links i c ls (rw d at e)))
]

dropped-links : (i c j d : ℕ) (ls : List Linked) → links j d (drop_channel i c ls) ≤ links j d ls
dropped-links i c j d [] = omega arith
dropped-links i c j d (l ∷ ls) = elim (Bool-cases (is_channel i c l)) [
  | inl e ↦ rw e (omega arith)
  | inr e ↦ rw e (omega (arith, dropped-links i c j d ls))
]

dropped-carded :
    (i c k : ℕ) (l : Linked) (ls : List Linked)
    → get_channel i c ls ≡ some l
    → carded k ls ≡ (if l.channel.card == k then 1 else 0) + carded k (drop_channel i c ls)
dropped-carded i c k l [] e = absurd (ground (arith, e))
dropped-carded i c k l (x ∷ ls) e = elim (Bool-cases (is_channel i c x)) [
  | inl d ↦ let q : x ≡ l = ap (λ o. elim o [ none ↦ x | some y ↦ y ]) (rw d at e) in rw (d, q) refl
  | inr d ↦ rw d (omega (arith, dropped-carded i c k l ls (rw d at e)))
]

-- What `fill_card` and `audio_probe_channel` keep.
fill-IsOrderly :
    (a : Answers) (iface id : ℕ) (cfg : Config) (format : Text) (s : Cards)
    → IsOrderly s
    → links iface id s.dev_list ≡ 0
    → IsOrderly
        (fill_card a iface id cfg format (record s { created = s.created ++ a.card ∷ [] })).1
unfolding fill_card
fill-IsOrderly a iface id cfg format s (u, v) z =
    let (ret, hw) = audio_set_hw_params no_hardware format cfg in
    let freed = not_linked s (u, v) in
    elim (Bool-cases (not (ret ==ℤ pos 0))) [
      | inl e ↦ simp (e, fill_card) freed
      | inr e ↦ elim (Bool-cases (is_negative a.pcm_new)) [
        | inl f ↦ simp (e, f, fill_card) freed
        | inr f ↦ elim (Bool-cases (is_negative a.registered)) [
          | inl g ↦ simp (e, f, g, fill_card) freed
          | inr g ↦ simp (e, f, g, fill_card) (linked hw)
        ]
      ]
    ]
  where
    not_linked :
        (s : Cards)
        → IsOrderly s
        → IsOrderly
            (record s { created = s.created ++ a.card ∷ []; freed = s.freed ++ a.card ∷ [] })
    not_linked s (u, v) = (
      u,
      λ c. omega (
        arith,
        v c,
        times-append c s.created (a.card ∷ []),
        times-append c s.freed (a.card ∷ []),
      ),
    )

    linked :
        (hw : PcmHardware)
        → IsOrderly (record s {
          created = s.created ++ a.card ∷ [];
          dev_list = s.dev_list ++ new_link iface id a.card cfg hw ∷ [];
        })
    linked hw =
        let x = new_link iface id a.card cfg hw in
        (
          λ j d. rw (links-append j d s.dev_list (x ∷ [])) (one_more j d),
          λ c. omega (
            arith,
            v c,
            times-append c s.created (a.card ∷ []),
            carded-append c s.dev_list (x ∷ []),
          ),
        )
      where
        one_more :
            (j d : ℕ)
            → links j d s.dev_list + ((if (iface == j) && (id == d) then 1 else 0) + 0) ≤ 1
        one_more j d = elim (Bool-cases ((iface == j) && (id == d))) [
          | inr e ↦ rw e (omega (arith, u j d))
          | inl e ↦
              let p : iface ≡ j = ground arith in
              let q : id ≡ d = ground arith in rw e (omega (arith, rw (p, q) at z))
        ]

probe-IsOrderly :
    (a : Answers) (iface : Option ℕ) (id : ℕ) (cfg : Config) (arg : Option Text) (s : Cards)
    → IsOrderly s
    → IsOrderly (audio_probe_channel a iface id cfg arg s).1
unfolding audio_probe_channel
probe-IsOrderly a none id cfg arg s h = h
probe-IsOrderly a (some iface) id cfg arg s h = elim (Bool-cases (not (cfg.data_type == ch_sync))) [
  | inl e ↦ simp (e, audio_probe_channel) h
  | inr e ↦ elim (Option-cases (get_channel iface id s.dev_list)) [
    | inr (l, f) ↦ simp (e, f, audio_probe_channel) h
    | inl f ↦ elim (Option-cases (split_arg_list arg)) [
      | inl g ↦ simp (e, f, g, audio_probe_channel) h
      | inr ((name, format), g) ↦ elim (Bool-cases (is_negative a.card_new)) [
        | inl k ↦ simp (e, f, g, k, audio_probe_channel) h
        | inr k ↦
            simp (e, f, g, k, audio_probe_channel)
              (fill-IsOrderly a iface id cfg format s h (none-links iface id s.dev_list f))
      ]
    ]
  ]
]

disconnect-IsOrderly :
    (iface id : ℕ) (s : Cards) → IsOrderly s → IsOrderly (audio_disconnect_channel iface id s).1
unfolding audio_disconnect_channel
disconnect-IsOrderly iface id s (u, v) = elim (Option-cases (get_channel iface id s.dev_list)) [
  | inl e ↦ simp (e, audio_disconnect_channel) (u, v)
  | inr (l, e) ↦
      simp (e, audio_disconnect_channel)
        (
          λ j d. omega (arith, u j d, dropped-links iface id j d s.dev_list),
          λ c. omega (
            arith,
            v c,
            dropped-carded iface id c l s.dev_list e,
            times-append c s.freed (l.channel.card ∷ []),
          ),
        )
]

-- In every order of links and disconnections, whatever ALSA answers, a channel of an interface is
-- linked at most once, and every card that was made belongs to a linked channel or was freed, exactly
-- once for each time that it was made.
pub IsOrderly-calls : (cs : List CardCall) (s : Cards) → IsOrderly s → IsOrderly (calls cs s)
IsOrderly-calls [] s h = h
IsOrderly-calls (probe a iface id cfg arg ∷ cs) s h =
    IsOrderly-calls cs (audio_probe_channel a iface id cfg arg s).1
      (probe-IsOrderly a iface id cfg arg s h)
IsOrderly-calls (disconnect iface id ∷ cs) s h =
    IsOrderly-calls cs (audio_disconnect_channel iface id s).1 (disconnect-IsOrderly iface id s h)

exit_frees :
    (k : ℕ) (ls : List Linked) (s : Cards)
    → s.dev_list ≡ ls
    → ((audio_exit ls s).dev_list ≡ [])
      × (times k (audio_exit ls s).freed ≡ carded k ls + times k s.freed)
unfolding audio_exit
exit_frees k [] s e = (e, omega arith)
exit_frees k (l ∷ ls) s e =
    let t = record s { dev_list = ls; freed = s.freed ++ l.channel.card ∷ [] } in
    let (x, y) = exit_frees k ls t refl in
    (x, omega (arith, y, times-append k s.freed (l.channel.card ∷ [])))

-- When the module is unloaded after any calls of the core, each card that was made has been freed, once
-- for each time that it was made.
pub exit-calls :
    (k : ℕ) (cs : List CardCall) (s : Cards)
    → IsOrderly s
    → let t = calls cs s in times k (audio_exit t.dev_list t).freed ≡ times k t.created
exit-calls k cs s h =
    let t = calls cs s in
    let (u, v) = IsOrderly-calls cs s h in (exit_frees k t.dev_list t refl).1 ∙ sym (v k)
