-- ===== src/Cdev/Life/Calls.antt =====
-- aim-cdev/cdev.c, the calls of user space and of the core for one channel, in any order.
use unicens2_driver.Common.{
  ℕ, ◌+◌, ◌-◌, ◌≡◌, refl, sym, ◌∙◌, Bool, true, false, not, ◌||◌, ◌⊎◌, Option, none, some, List, [],
  ◌∷◌, ◌==◌, leb, if◌then◌else◌, length, inl, inr, Bool-cases, arith,
}
use mathlib.Core.Path.{subst}
use unicens2_driver.Common.Int.{ℤ, pos}
use unicens2_driver.Core.Types.{eagain}
use unicens2_driver.Cdev.{
  CdevMbo, CdevChannel, WriteRound, gave, nothing, Wake, woken, interrupted, gone, Waited, ready,
  ended, waiting, with_first, after_wake, write_wait, write_size, is_packet, write_mbo, aim_write,
  Arrival, came, none_came, read_wait, read_mbo, aim_read, min, minus64, aim_open, aim_close,
  aim_disconnect_channel, aim_rx_completion,
}
use unicens2_driver.Cdev.Life.{
  Life, IsLive, open-IsLive, close-IsLive, disconnect-IsLive, receive-IsLive,
}

opened-Life :
    (b : Bool) (d : CdevChannel) → d.destroyed ≡ 0 → (b ≡ true) ⊎ (d.fifo ≡ []) → Life b true d
opened-Life true d z o = z
opened-Life false d z (inr f) = (z, f)
opened-Life false d z (inl e) = absurd (ground (arith, e))

-- An open channel is live if it was not destroyed, and is linked or holds no buffer.
opened-IsLive :
    (d : CdevChannel)
    → d.access_ref ≡ true
    → d.destroyed ≡ 0
    → (d.has_dev ≡ true) ⊎ (d.fifo ≡ [])
    → IsLive d
opened-IsLive d a z o = subst (λ r. Life d.has_dev r d) (sym a) (opened-Life d.has_dev d z o)

kept : (d : CdevChannel) → d.access_ref ≡ true → IsLive d → d.destroyed ≡ 0
kept d a h = go d.has_dev (subst (λ r. Life d.has_dev r d) a h)
  where
    go : (b : Bool) → Life b true d → d.destroyed ≡ 0
    go true v = v
    go false v = v.0

-- The channel when a waiting loop ends with a buffer, and otherwise.
abbrev StaysLive : Waited → Type 0
StaysLive (ready m ms d) = (d.has_dev ≡ true) × (d.access_ref ≡ true) × (d.destroyed ≡ 0)
StaysLive (ended e d) = IsLive d
StaysLive (waiting d) = IsLive d

first-StaysLive :
    (fs : List CdevMbo) (c : CdevChannel) (o : Waited)
    → c.fifo ≡ fs
    → c.has_dev ≡ true
    → c.access_ref ≡ true
    → c.destroyed ≡ 0
    → (c.fifo ≡ [] → StaysLive o)
    → StaysLive (with_first fs c o)
first-StaysLive [] c o e d a z k = k e
first-StaysLive (m ∷ ms) c o e d a z k = (d, a, z)

-- A wait without a buffer, where what comes next stays live.
wake-StaysLive :
    (nonblock : Bool) (w : Wake) (c : CdevChannel) (again left : Waited)
    → IsLive c
    → StaysLive again
    → StaysLive left
    → StaysLive (if nonblock then ended eagain c else after_wake w c again left)
wake-StaysLive true w c x y h p q = h
wake-StaysLive false woken c x y h p q = p
wake-StaysLive false interrupted c x y h p q = h
wake-StaysLive false gone c x y h p q = q

write_wait-StaysLive :
    (nonblock : Bool) (rs : List WriteRound) (c : CdevChannel)
    → c.access_ref ≡ true
    → IsLive c
    → StaysLive (write_wait nonblock rs c)
unfolding write_wait
write_wait-StaysLive nonblock [] c a h = elim (Bool-cases c.has_dev) [
  | inr e ↦ simp (e, write_wait) (subst (λ b. Life b c.access_ref c) e h)
  | inl e ↦
      simp (e, write_wait) (first-StaysLive c.fifo c (waiting c) refl e a (kept c a h) (λ f. h))
]
write_wait-StaysLive nonblock (gave id ∷ rs) c a h = elim (Bool-cases c.has_dev) [
  | inr e ↦ simp (e, write_wait) (subst (λ b. Life b c.access_ref c) e h)
  | inl e ↦
      simp (e, write_wait)
        (first-StaysLive c.fifo c (ready (record { id = id; bytes = [] }) [] c) refl e a
          (kept c a h) (λ f. (e, a, kept c a h)))
]
write_wait-StaysLive nonblock (nothing w ∷ rs) c a h = elim (Bool-cases c.has_dev) [
  | inr e ↦ simp (e, write_wait) (subst (λ b. Life b c.access_ref c) e h)
  | inl e ↦
      let z = kept c a h in
      let d = record c { has_dev = false } in
      simp (e, write_wait)
        (first-StaysLive c.fifo c
          (if nonblock
            then ended eagain c
            else after_wake w c (write_wait nonblock rs c) (write_wait nonblock rs d))
          refl e a z
          (λ f.
            wake-StaysLive nonblock w c (write_wait nonblock rs c) (write_wait nonblock rs d) h
              (write_wait-StaysLive nonblock rs c a h)
              (write_wait-StaysLive nonblock rs d a (opened-IsLive d a z (inr f)))))
]

write_mbo-IsLive :
    (left : ℕ) (buf : List ℕ) (m : CdevMbo) (ms : List CdevMbo) (d : CdevChannel)
    → d.has_dev ≡ true
    → d.access_ref ≡ true
    → d.destroyed ≡ 0
    → IsLive (write_mbo left buf m ms d).1
unfolding write_mbo
write_mbo-IsLive left buf m ms d e a z =
    let n = write_size buf d - left in
    elim (Bool-cases (left == write_size buf d)) [
      | inl x ↦ simp (x, e, a, write_mbo) z
      | inr x ↦ elim (Bool-cases (leb d.cfg.buffer_size (d.mbo_offs + n) || is_packet d.cfg)) [
        | inl y ↦ simp (x, y, e, a, write_mbo) z
        | inr y ↦ simp (x, y, e, a, write_mbo) z
      ]
    ]

write-IsLive :
    (nonblock : Bool) (left : ℕ) (rounds : List WriteRound) (buf : List ℕ) (c : CdevChannel)
    → c.access_ref ≡ true
    → IsLive c
    → IsLive (aim_write nonblock left rounds buf c).1
unfolding aim_write
write-IsLive nonblock left rounds buf c a h =
    go (write_wait nonblock rounds c) (write_wait-StaysLive nonblock rounds c a h)
  where
    go :
        (o : Waited)
        → StaysLive o
        → let (ret, d) : Option ℤ × CdevChannel = elim o [
          | waiting d ↦ (none, d)
          | ended e d ↦ (some e, d)
          | ready m ms d ↦ let (ret, e) = write_mbo left buf m ms d in (some ret, e)
        ] in
          IsLive d
    go (waiting d) k = k
    go (ended e d) k = k
    go (ready m ms d) (e, r, z) = write_mbo-IsLive left buf m ms d e r z

received_open :
    (m : CdevMbo) (c : CdevChannel) → (aim_rx_completion m c).1.access_ref ≡ c.access_ref
unfolding aim_rx_completion
received_open m c = elim (Bool-cases (not c.access_ref || not c.has_dev)) [
  | inl x ↦ simp (x, aim_rx_completion) refl
  | inr x ↦ simp (x, aim_rx_completion) refl
]

read_wait-StaysLive :
    (nonblock : Bool) (rs : List Arrival) (c : CdevChannel)
    → c.access_ref ≡ true
    → IsLive c
    → StaysLive (read_wait nonblock rs c)
unfolding read_wait
read_wait-StaysLive nonblock [] c a h = elim (Bool-cases c.has_dev) [
  | inr e ↦ simp (e, read_wait) (subst (λ b. Life b c.access_ref c) e h)
  | inl e ↦
      simp (e, read_wait) (first-StaysLive c.fifo c (waiting c) refl e a (kept c a h) (λ f. h))
]
read_wait-StaysLive nonblock (came m ∷ rs) c a h =
    read_wait-StaysLive nonblock rs (aim_rx_completion m c).1 (received_open m c ∙ a)
      (receive-IsLive m c h)
read_wait-StaysLive nonblock (none_came w ∷ rs) c a h = elim (Bool-cases c.has_dev) [
  | inr e ↦ simp (e, read_wait) (subst (λ b. Life b c.access_ref c) e h)
  | inl e ↦
      let z = kept c a h in
      let d = record c { has_dev = false } in
      simp (e, read_wait)
        (first-StaysLive c.fifo c
          (if nonblock
            then ended eagain c
            else after_wake w c (read_wait nonblock rs c) (read_wait nonblock rs d))
          refl e a z
          (λ f.
            wake-StaysLive nonblock w c (read_wait nonblock rs c) (read_wait nonblock rs d) h
              (read_wait-StaysLive nonblock rs c a h)
              (read_wait-StaysLive nonblock rs d a (opened-IsLive d a z (inr f)))))
]

read_mbo-IsLive :
    (not_copied count : ℕ) (m : CdevMbo) (ms : List CdevMbo) (d : CdevChannel)
    → d.has_dev ≡ true
    → d.access_ref ≡ true
    → d.destroyed ≡ 0
    → IsLive (read_mbo not_copied count m ms d).2
unfolding read_mbo
read_mbo-IsLive not_copied count m ms d e a z =
    let n = min count (minus64 (length m.bytes) d.mbo_offs) - not_copied in
    elim (Bool-cases (leb (length m.bytes) (d.mbo_offs + n))) [
      | inl x ↦ simp (x, e, a, read_mbo) z
      | inr x ↦ simp (x, e, a, read_mbo) z
    ]

read-IsLive :
    (nonblock : Bool) (not_copied : ℕ) (rs : List Arrival) (count : ℕ) (c : CdevChannel)
    → c.access_ref ≡ true
    → IsLive c
    → IsLive (aim_read nonblock not_copied rs count c).2
unfolding aim_read
read-IsLive nonblock not_copied rs count c a h =
    go (read_wait nonblock rs c) (read_wait-StaysLive nonblock rs c a h)
  where
    go :
        (o : Waited)
        → StaysLive o
        → let (ret, given, d) : Option ℤ × List ℕ × CdevChannel = elim o [
          | waiting d ↦ (none, [], d)
          | ended e d ↦ (some e, [], d)
          | ready m ms d ↦
              let (n, given, e) = read_mbo not_copied count m ms d in (some (pos n), given, e)
        ] in
          IsLive d
    go (waiting d) k = k
    go (ended e d) k = k
    go (ready m ms d) (e, r, z) = read_mbo-IsLive not_copied count m ms d e r z

-- One call for a channel that was not destroyed: user space writes, reads and closes what it opened, and the
-- core disconnects a channel that is linked.
pub data CdevCall : CdevChannel → CdevChannel → Type 0 where
  opens :
      (accmode : ℕ) (started : ℤ) (c : CdevChannel)
      → c.destroyed ≡ 0
      → CdevCall c (aim_open accmode started c).1
  closes : (c : CdevChannel) → c.access_ref ≡ true → CdevCall c (aim_close c).1
  disconnects : (c : CdevChannel) → c.has_dev ≡ true → CdevCall c (aim_disconnect_channel c).1
  receives :
      (m : CdevMbo) (c : CdevChannel) → c.destroyed ≡ 0 → CdevCall c (aim_rx_completion m c).1
  writes :
      (nonblock : Bool) (left : ℕ) (rounds : List WriteRound) (buf : List ℕ) (c : CdevChannel)
      → c.access_ref ≡ true
      → CdevCall c (aim_write nonblock left rounds buf c).1
  reads :
      (nonblock : Bool) (not_copied : ℕ) (arrivals : List Arrival) (count : ℕ) (c : CdevChannel)
      → c.access_ref ≡ true
      → CdevCall c (aim_read nonblock not_copied arrivals count c).2

-- Calls one after the other.
pub data CdevCalls : CdevChannel → CdevChannel → Type 0 where
  none_made : (c : CdevChannel) → CdevCalls c c
  then_call : {a b c : CdevChannel} → CdevCalls a b → CdevCall b c → CdevCalls a c

call-IsLive : {b c : CdevChannel} → CdevCall b c → IsLive b → IsLive c
call-IsLive (opens accmode started c d) h = open-IsLive accmode started c h
call-IsLive (closes c a) h = close-IsLive c a h
call-IsLive (disconnects c d) h = disconnect-IsLive c d h
call-IsLive (receives m c d) h = receive-IsLive m c h
call-IsLive (writes nonblock left rounds buf c a) h = write-IsLive nonblock left rounds buf c a h
call-IsLive (reads nonblock not_copied arrivals count c a) h =
    read-IsLive nonblock not_copied arrivals count c a h

-- Over any calls that open, close, write, read and disconnect a channel or receive buffers, from a live
-- channel on, the channel is destroyed exactly once, when it is neither linked nor open, and a channel
-- that is not both holds no buffer.
pub calls-IsLive : {a b : CdevChannel} → CdevCalls a b → IsLive a → IsLive b
calls-IsLive (none_made c) h = h
calls-IsLive (then_call cs s) h = call-IsLive s (calls-IsLive cs h)
