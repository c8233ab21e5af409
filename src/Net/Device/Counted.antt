-- ===== src/Net/Device/Counted.antt =====
-- aim-network/networking.c, the counter of the device and its registration, over any order of calls.
use unicens2_driver.Common.{
  ℕ, suc, ◌+◌, ◌-◌, ◌≤◌, ◌≡◌, refl, sym, ◌∙◌, arith, Bool, true, false, not, ◌&&◌, Option, none,
  some, List, ◌==◌, if◌then◌else◌, inl, inr, Bool-cases, length,
}
use mathlib.Core.Path.{subst}
use unicens2_driver.Common.Int.{ℤ, pos}
use unicens2_driver.Core.Types.{Config, ch_async, ch_tx}
use unicens2_driver.Net.{rx_mamac, rx_mep}
use unicens2_driver.Net.Device.{
  NetDevChannel, NetDev, hold, put_net_dev_context, new_device, side, set_side, link_channel,
  add_device, find_or_add, aim_probe_channel, put_again, unregister, unlink_channel,
  aim_disconnect_channel, while_held, aim_resume_tx_channel, deliver, receive_packet, receive,
  aim_rx_data,
}

abbrev pub one_if_linked : NetDevChannel → ℕ
one_if_linked c = if c.linked then 1 else 0

-- The counter is the number of linked channels, and the device is registered when both are linked.
abbrev pub IsCounted : Option NetDev → Type 0
IsCounted none = Unit {0}
IsCounted (some nd) =
    (nd.kref ≡ one_if_linked nd.rx + one_if_linked nd.tx)
    × (1 ≤ nd.kref)
    × (nd.is_registered ≡ (nd.rx.linked && nd.tx.linked))

-- The same, for a device that one call holds.
abbrev pub IsHeld : NetDev → Type 0
IsHeld nd =
    (nd.kref ≡ suc (one_if_linked nd.rx + one_if_linked nd.tx))
    × (nd.is_registered ≡ (nd.rx.linked && nd.tx.linked))

put-IsCounted : (nd : NetDev) → IsHeld nd → IsCounted (put_net_dev_context nd)
put-IsCounted nd (h, l) = elim (Bool-cases (nd.kref - 1 == 0)) [
  | inl e ↦ simp e tt
  | inr e ↦ simp e (ground (arith, h), ground (arith, e), l)
]

link-IsCounted :
    (registered is_tx : Bool) (idx : ℕ) (nd : NetDev)
    → IsHeld nd
    → IsCounted (link_channel registered is_tx idx nd).1
unfolding link_channel
link-IsCounted registered true idx nd (h, l) = elim (Bool-cases nd.tx.linked) [
  | inl e ↦ simp (e, link_channel) (put-IsCounted nd (h, l))
  | inr e ↦ elim (Bool-cases nd.rx.linked) [
    | inr f ↦
        simp (e, f, link_channel)
          (ground (arith, h, e, f), ground (arith, h), ground (l, e, f, arith))
    | inl f ↦ elim (Bool-cases registered) [
      | inl r ↦
          simp (e, f, r, link_channel)
            (ground (arith, h, e, f), ground (arith, h), ground (f, arith))
      | inr r ↦
          let n = set_side true (record { linked = false; ch_id = idx }) nd in
          simp (e, f, r, link_channel)
            (put-IsCounted n (ground (arith, h, e, f), ground (arith, l, e, f)))
    ]
  ]
]
link-IsCounted registered false idx nd (h, l) = elim (Bool-cases nd.rx.linked) [
  | inl e ↦ simp (e, link_channel) (put-IsCounted nd (h, l))
  | inr e ↦ elim (Bool-cases nd.tx.linked) [
    | inr f ↦
        simp (e, f, link_channel)
          (ground (arith, h, e, f), ground (arith, h), ground (l, e, f, arith))
    | inl f ↦ elim (Bool-cases registered) [
      | inl r ↦
          simp (e, f, r, link_channel)
            (ground (arith, h, e, f), ground (arith, h), ground (f, arith))
      | inr r ↦
          let n = set_side false (record { linked = false; ch_id = idx }) nd in
          simp (e, f, r, link_channel)
            (put-IsCounted n (ground (arith, h, e, f), ground (arith, l, e, f)))
    ]
  ]
]

-- A call that does not use a device after it was freed, and leaves it counted.
abbrev pub IsSafe : Option (ℤ × Option NetDev) → Type 0
IsSafe none = ⊥
IsSafe (some r) = IsCounted r.1

put_again-IsSafe :
    (n : NetDev)
    → n.kref ≡ suc (suc (one_if_linked n.rx + one_if_linked n.tx))
    → n.is_registered ≡ (n.rx.linked && n.tx.linked)
    → IsSafe (put_again (put_net_dev_context n))
put_again-IsSafe n h l =
    let z : (n.kref - 1 == 0) ≡ false = ground (arith, h) in
    let p : put_net_dev_context n ≡ some (record n { kref = n.kref - 1 }) = rw z refl in
    subst (λ o. IsSafe (put_again o)) (sym p)
      (put-IsCounted (record n { kref = n.kref - 1 }) (omega (arith, h), l))

unregister_lem :
    (nd : NetDev)
    → nd.is_registered ≡ (nd.rx.linked && nd.tx.linked)
    → ((unregister nd).kref ≡ nd.kref)
      × ((unregister nd).rx ≡ nd.rx)
      × ((unregister nd).tx ≡ nd.tx)
      × ((unregister nd).is_registered ≡ false)
unregister_lem nd l = elim (Bool-cases (nd.rx.linked && nd.tx.linked)) [
  | inl e ↦ simp e (refl, refl, refl, refl)
  | inr e ↦ simp e (refl, refl, refl, l ∙ e)
]

unlink-IsSafe :
    (is_tx : Bool) (nd : NetDev)
    → IsHeld nd
    → (side is_tx nd).linked ≡ true
    → IsSafe (unlink_channel is_tx nd)
unfolding unlink_channel
unlink-IsSafe true nd (h, l) e =
    let (x, y, z, w) = unregister_lem nd l in
    let n = set_side true (record nd.tx { linked = false }) (unregister nd) in
    put_again-IsSafe n (rw y (ground (arith, h, e, x))) (rw y (ground (arith, w)))
unlink-IsSafe false nd (h, l) e =
    let (x, y, z, w) = unregister_lem nd l in
    let n = set_side false (record nd.rx { linked = false }) (unregister nd) in
    put_again-IsSafe n (rw z (ground (arith, h, e, x))) w

hold-IsHeld : (nd : NetDev) → IsCounted (some nd) → IsHeld (hold nd)
hold-IsHeld nd (h, l, k) = (omega (arith, h), k)

pub disconnect-IsSafe :
    (idx : ℕ) (s : Option NetDev) → IsCounted s → IsSafe (aim_disconnect_channel idx s)
unfolding aim_disconnect_channel
disconnect-IsSafe idx none h = tt
disconnect-IsSafe idx (some nd) h =
    let k = hold-IsHeld nd h in
    elim (Bool-cases (nd.rx.linked && (idx == nd.rx.ch_id))) [
      | inl e ↦
          simp (e, aim_disconnect_channel) (unlink-IsSafe false (hold nd) k (ground (arith, e)))
      | inr e ↦ elim (Bool-cases (nd.tx.linked && (idx == nd.tx.ch_id))) [
        | inl f ↦
            simp (e, f, aim_disconnect_channel) (unlink-IsSafe true (hold nd) k (ground (arith, f)))
        | inr f ↦ simp (e, f, IsSafe, aim_disconnect_channel) (put-IsCounted (hold nd) k)
      ]
    ]

add_device-IsCounted :
    (registered is_tx : Bool) (idx : ℕ) (a : Option (List ℕ)) (s : Option NetDev)
    → IsCounted s
    → IsCounted (add_device registered is_tx idx a s).1
unfolding add_device
add_device-IsCounted registered is_tx idx none s h = h
add_device-IsCounted registered is_tx idx (some addr) none h =
    link-IsCounted registered is_tx idx (new_device addr) (omega arith, refl)
add_device-IsCounted registered is_tx idx (some addr) (some nd) h =
    link-IsCounted registered is_tx idx (hold nd) (hold-IsHeld nd h)

find_or_add-IsCounted :
    (raced registered is_tx : Bool) (idx : ℕ) (a : Option (List ℕ)) (s : Option NetDev)
    → IsCounted s
    → IsCounted (find_or_add raced registered is_tx idx a s).1
unfolding find_or_add
find_or_add-IsCounted true registered is_tx idx a s h =
    add_device-IsCounted registered is_tx idx a s h
find_or_add-IsCounted false registered is_tx idx a none h =
    add_device-IsCounted registered is_tx idx a none h
find_or_add-IsCounted false registered is_tx idx a (some nd) h =
    link-IsCounted registered is_tx idx (hold nd) (hold-IsHeld nd h)

pub probe-IsCounted :
    (raced : Bool) (a : Option (List ℕ)) (registered : Bool) (cfg : Config) (idx : ℕ)
    (s : Option NetDev)
    → IsCounted s
    → IsCounted (aim_probe_channel raced a registered cfg idx s).1
unfolding aim_probe_channel
probe-IsCounted raced a registered cfg idx s h =
    elim (Bool-cases (not (cfg.data_type == ch_async))) [
      | inl e ↦ simp (e, aim_probe_channel) h
      | inr e ↦
          simp (e, aim_probe_channel)
            (find_or_add-IsCounted raced registered (cfg.direction == ch_tx) idx a s h)
    ]

-- Something done while the device is held, which keeps its counter, its channels and its registration.
abbrev pub Keeps : NetDev → NetDev → Type 0
Keeps d nd =
    (d.kref ≡ nd.kref) × (d.rx ≡ nd.rx) × (d.tx ≡ nd.tx) × (d.is_registered ≡ nd.is_registered)

pub while_held-IsCounted :
    (body : NetDev → ℤ × NetDev) (nd : NetDev)
    → Keeps (body (hold nd)).1 (hold nd)
    → IsCounted (some nd)
    → IsCounted (while_held body nd).1
while_held-IsCounted body nd (x, y, z, w) h =
    let (k, l) = hold-IsHeld nd h in
    put-IsCounted (body (hold nd)).1 (rw (x, y, z) k, rw (w, y, z) l)

pub resume-IsCounted :
    (idx : ℕ) (s : Option NetDev) → IsCounted s → IsCounted (aim_resume_tx_channel idx s).1
unfolding aim_resume_tx_channel
resume-IsCounted idx none h = tt
resume-IsCounted idx (some nd) h =
    while_held-IsCounted
      (λ d. (pos 0, if d.tx.ch_id == idx then record d { is_queue_stopped = false } else d)) nd
      (elim (Bool-cases (nd.tx.ch_id == idx)) [
        | inl e ↦ simp e (refl, refl, refl, refl)
        | inr e ↦ simp e (refl, refl, refl, refl)
      ])
      h

deliver-Keeps : (taken : Bool) (n : ℕ) (d : NetDev) → Keeps (deliver taken n d) d
deliver-Keeps true n d = (refl, refl, refl, refl)
deliver-Keeps false n d = (refl, refl, refl, refl)

packet-Keeps :
    (allocated taken : Bool) (t : ℕ → ℕ) (o : Option (List ℕ)) (d : NetDev)
    → Keeps (receive_packet allocated taken t o d).1 d
packet-Keeps allocated taken t none d = (refl, refl, refl, refl)
packet-Keeps false taken t (some skb) d = (refl, refl, refl, refl)
packet-Keeps true taken t (some skb) d = deliver-Keeps taken (t (length skb)) d

receive-Keeps :
    (allocated taken : Bool) (t : ℕ → ℕ) (buf : List ℕ) (idx : ℕ) (d : NetDev)
    → Keeps (receive allocated taken t buf idx d).1 d
receive-Keeps allocated taken t buf idx d = elim (Bool-cases (d.rx.ch_id == idx)) [
  | inl e ↦ simp e (
      packet-Keeps allocated taken t
        (if d.is_mamac then rx_mamac d.dev_addr buf (length buf) else rx_mep buf (length buf)) d)
  | inr e ↦ simp e (refl, refl, refl, refl)
]

pub rx_data-IsCounted :
    (allocated taken : Bool) (t : ℕ → ℕ) (buf : List ℕ) (idx : ℕ) (s : Option NetDev)
    → IsCounted s
    → IsCounted (aim_rx_data allocated taken t buf idx s).1
unfolding aim_rx_data
rx_data-IsCounted allocated taken t buf idx none h = tt
rx_data-IsCounted allocated taken t buf idx (some nd) h =
    while_held-IsCounted (receive allocated taken t buf idx) nd
      (receive-Keeps allocated taken t buf idx (hold nd)) h
