-- ===== src/Cdev/Links/Counts.antt =====
-- aim-cdev/cdev.c, the linked channels over any order of calls: nothing is lost and nothing given back twice.
use unicens2_driver.Common.{
  ℕ, ◌+◌, ◌≤◌, ◌≡◌, refl, ap, arith, none, some, List, [], ◌∷◌, ◌++◌, ◌==◌, if◌then◌else◌, inl, inr,
  Bool-cases,
}
use unicens2_driver.Cdev.{CdevChannel}
use unicens2_driver.Cdev.Links.{
  CdevLink, CdevLinks, is_linked_as, get_channel, del_channel, find_minor, del_minor, with_minor,
}

-- A sum over a list of channels.
abbrev pub total : (CdevLink → ℕ) → List CdevLink → ℕ
total w [] = 0
total w (c ∷ cs) = w c + total w cs

abbrev pub has_minor : ℕ → CdevLink → ℕ
has_minor k c = if c.minor == k then 1 else 0

abbrev pub is_at : ℕ → ℕ → CdevLink → ℕ
is_at iface id c = if is_linked_as iface id c then 1 else 0

abbrev pub one : CdevLink → ℕ
one c = 1

abbrev pub times : ℕ → List ℕ → ℕ
times k [] = 0
times k (n ∷ ns) = (if n == k then 1 else 0) + times k ns

-- What the module took from the kernel was given back, or belongs to one channel that is on the list or
-- still open; and an interface has a channel on the list at most once.
abbrev pub IsAccounted : CdevLinks → Type 0
IsAccounted s =
    ((k : ℕ)
      → times k s.minors_got
        ≡ times k s.minors_removed
          + total (has_minor k) s.channel_list
          + total (has_minor k) s.left_open)
    × (s.kzallocs ≡ s.kfrees + total one s.channel_list + total one s.left_open)
    × (s.kfifo_allocs ≡ s.kfifo_frees + total one s.channel_list + total one s.left_open)
    × ((iface id : ℕ) → total (is_at iface id) s.channel_list ≤ 1)

pub total-append :
    (w : CdevLink → ℕ) (cs : List CdevLink) (c : CdevLink)
    → total w (cs ++ c ∷ []) ≡ total w cs + w c
total-append w [] c = omega arith
total-append w (x ∷ cs) c = omega (arith, total-append w cs c)

-- Taking out the channel that was found takes away its part.
pub total-del_channel :
    (w : CdevLink → ℕ) (iface id : ℕ) (cs : List CdevLink) (c : CdevLink)
    → get_channel iface id cs ≡ some c
    → total w cs ≡ w c + total w (del_channel iface id cs)
total-del_channel w iface id [] c e = absurd (ground (arith, e))
total-del_channel w iface id (x ∷ cs) c e = elim (Bool-cases (is_linked_as iface id x)) [
  | inl d ↦ rw d (ap (λ o. elim o [ none ↦ w x | some y ↦ w y ] + total w cs) (rw d at e))
  | inr d ↦ rw d (omega (arith, total-del_channel w iface id cs c (rw d at e)))
]

pub total-del_minor :
    (w : CdevLink → ℕ) (n : ℕ) (cs : List CdevLink) (c : CdevLink)
    → find_minor n cs ≡ some c
    → total w cs ≡ w c + total w (del_minor n cs)
total-del_minor w n [] c e = absurd (ground (arith, e))
total-del_minor w n (x ∷ cs) c e = elim (Bool-cases (x.minor == n)) [
  | inl d ↦ rw d (ap (λ o. elim o [ none ↦ w x | some y ↦ w y ] + total w cs) (rw d at e))
  | inr d ↦ rw d (omega (arith, total-del_minor w n cs c (rw d at e)))
]

-- A sum that does not look at the state of the channels stays in a call for one of them.
pub total-with_minor :
    (w : CdevLink → ℕ) (n : ℕ) (f : CdevChannel → CdevChannel) (cs : List CdevLink)
    → ((c : CdevLink) (d : CdevChannel) → w (record c { channel = d }) ≡ w c)
    → total w (with_minor n f cs) ≡ total w cs
total-with_minor w n f [] h = refl
total-with_minor w n f (c ∷ cs) h = elim (Bool-cases (c.minor == n)) [
  | inl d ↦ rw d (omega (arith, h c (f c.channel)))
  | inr d ↦ rw d (omega (arith, total-with_minor w n f cs h))
]

pub absent :
    (iface id : ℕ) (cs : List CdevLink)
    → get_channel iface id cs ≡ none
    → total (is_at iface id) cs ≡ 0
absent iface id [] e = refl
absent iface id (c ∷ cs) e = elim (Bool-cases (is_linked_as iface id c)) [
  | inl d ↦ absurd (ground (arith, e, d))
  | inr d ↦ rw d (omega (arith, absent iface id cs (rw d at e)))
]
