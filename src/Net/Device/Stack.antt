-- ===== src/Net/Device/Stack.antt =====
-- aim-network/networking.c, the calls of the network stack, and `on_netinfo`.
use unicens2_driver.Common.{
  ℕ, suc, ◌+◌, ◌≡◌, refl, Bool, true, false, not, ◌&&◌, ◌||◌, Option, none, some, List, [], ◌∷◌,
  ◌++◌, ◌==◌, if◌then◌else◌, length, ◌⊎◌, inl, inr, Bool-cases,
}
use unicens2_driver.Common.Int.{ℤ, pos, negsuc, ◌==ℤ◌}
use unicens2_driver.Net.{NetMbo, byte, skb_to_mamac, skb_to_mep}
use unicens2_driver.Net.Device.{NetDev, while_held}

-- `err` is what `eth_mac_addr` returns; without an error it has set the address.
unfoldable pub most_nd_set_mac_address : ℤ → List ℕ → NetDev → ℤ × NetDev
most_nd_set_mac_address err addr nd =
    let is_mamac =
      (byte addr 0 == 0) && (byte addr 1 == 0) && (byte addr 2 == 0) && (byte addr 3 == 0) in
    if not (err ==ℤ pos 0) then (err, nd) else (
      pos 0,
      record nd { dev_addr = addr; is_mamac = is_mamac; mtu = if is_mamac then 1008 else 1500 },
    )

-- What the core was asked for.
pub data Request : Type 0 where
  start_channel stop_channel : ℕ → Request
  request_netinfo : Bool → Request

-- `rx_started` and `tx_started` are what `most_start_channel` returns, `valid` is
-- `is_valid_ether_addr`, `has_netinfo` whether the interface has `request_netinfo`; `none` is the
-- `BUG_ON`.
unfoldable pub most_nd_open :
    Bool → ℤ → ℤ → (List ℕ → Bool) → NetDev → Option (ℤ × NetDev × List Request)
most_nd_open has_netinfo rx_started tx_started valid nd =
    let rx = start_channel nd.rx.ch_id in
    let tx = start_channel nd.tx.ch_id in
    if not nd.tx.linked || not nd.rx.linked
    then none
    else if not (rx_started ==ℤ pos 0)
    then some (negsuc 15, nd, rx ∷ [])
    else if not (tx_started ==ℤ pos 0)
    then some (negsuc 15, nd, rx ∷ tx ∷ stop_channel nd.rx.ch_id ∷ [])
    else some (
      pos 0,
      record nd {
        has_carrier = false;
        is_dormant = not (valid nd.dev_addr);
        is_queue_stopped = false;
      },
      rx ∷ tx ∷ (if has_netinfo then request_netinfo true ∷ [] else []),
    )

unfoldable pub most_nd_stop : Bool → NetDev → ℤ × NetDev × List Request
most_nd_stop has_netinfo nd = (
  pos 0,
  record nd { is_queue_stopped = true },
  (if has_netinfo then request_netinfo false ∷ [] else [])
      ++ stop_channel nd.rx.ch_id ∷ stop_channel nd.tx.ch_id ∷ [],
)

-- What happened to the packet of `most_nd_start_xmit`: no buffer was there, it was dropped and the
-- buffer given back, or the buffer was submitted.
pub data Sent : Type 0 where
  no_mbo dropped : Sent
  submitted : NetMbo → Sent

-- With a buffer. `NETDEV_TX_OK` in any case.
abbrev pub send_skb : List ℕ → ℤ × NetMbo → NetDev → NetDev × Sent
send_skb skb (ret, mbo) nd =
    if not (ret ==ℤ pos 0) then (record nd { tx_dropped = suc nd.tx_dropped }, dropped) else (
      record nd { tx_packets = suc nd.tx_packets; tx_bytes = nd.tx_bytes + length skb },
      submitted mbo,
    )

-- Whether the result is `NETDEV_TX_OK`, the device, and the packet.
unfoldable pub most_nd_start_xmit : Option NetMbo → List ℕ → NetDev → Bool × NetDev × Sent
most_nd_start_xmit none skb nd =
    (false, record nd { is_queue_stopped = true; tx_fifo_errors = suc nd.tx_fifo_errors }, no_mbo)
most_nd_start_xmit (some mbo) skb nd =
    let (d, sent) =
      send_skb skb (if nd.is_mamac then skb_to_mamac skb mbo else skb_to_mep skb mbo) nd in
    (true, d, sent)

-- With the device held.
abbrev pub set_netinfo : (List ℕ → Bool) → ℕ → Option (List ℕ) → NetDev → ℤ × NetDev
set_netinfo valid link_stat none d = (pos 0, record d { has_carrier = not (link_stat == 0) })
set_netinfo valid link_stat (some m) d =
    let e = record d { has_carrier = not (link_stat == 0) } in
    (
      pos 0,
      if valid m && not (valid d.dev_addr)
          then record e { dev_addr = m; is_dormant = false }
          else e,
    )

unfoldable pub on_netinfo : (List ℕ → Bool) → ℕ → Option (List ℕ) → Option NetDev → Option NetDev
on_netinfo valid link_stat mac none = none
on_netinfo valid link_stat mac (some nd) = (while_held (set_netinfo valid link_stat mac) nd).1

-- What the counters say, by what happened to the packet. `format` is the packet in the device's format.
abbrev pub Counts : List ℕ → NetDev → ℤ × NetMbo → Bool × NetDev × Sent → Type 0
Counts skb nd format (ok, d, no_mbo) =
    (ok ≡ false)
    × (d.is_queue_stopped ≡ true)
    × (d.tx_fifo_errors ≡ suc nd.tx_fifo_errors)
    × (d.tx_packets ≡ nd.tx_packets)
    × (d.tx_dropped ≡ nd.tx_dropped)
Counts skb nd format (ok, d, dropped) =
    (ok ≡ true)
    × ((format.0 ==ℤ pos 0) ≡ false)
    × (d.tx_dropped ≡ suc nd.tx_dropped)
    × (d.tx_packets ≡ nd.tx_packets)
    × (d.tx_bytes ≡ nd.tx_bytes)
    × (d.tx_fifo_errors ≡ nd.tx_fifo_errors)
Counts skb nd format (ok, d, submitted mbo) =
    (ok ≡ true)
    × ((format.0 ==ℤ pos 0) ≡ true)
    × (mbo ≡ format.1)
    × (d.tx_packets ≡ suc nd.tx_packets)
    × (d.tx_bytes ≡ nd.tx_bytes + length skb)
    × (d.tx_dropped ≡ nd.tx_dropped)
    × (d.tx_fifo_errors ≡ nd.tx_fifo_errors)

send_skb-Counts :
    (skb : List ℕ) (r : ℤ × NetMbo) (nd : NetDev)
    → let (d, sent) = send_skb skb r nd in Counts skb nd r (true, d, sent)
send_skb-Counts skb (ret, mbo) nd = elim (Bool-cases (ret ==ℤ pos 0)) [
  | inl e ↦ simp e (refl, refl, refl, refl, refl, refl, refl)
  | inr e ↦ simp e (refl, refl, refl, refl, refl, refl)
]

-- `most_nd_start_xmit` counts each packet once: without a buffer as a FIFO error, with the queue stopped
-- and the packet left to the stack; when the packet cannot be written as dropped, with the buffer given
-- back; and else as sent, with its length, and the buffer submitted is the packet in the format of the
-- device.
pub xmit-Counts :
    (mbo : NetMbo) (o : Option NetMbo) (skb : List ℕ) (nd : NetDev)
    → (o ≡ none) ⊎ (o ≡ some mbo)
    → Counts skb nd
        (if nd.is_mamac then skb_to_mamac skb mbo else skb_to_mep skb mbo)
        (most_nd_start_xmit o skb nd)
unfolding most_nd_start_xmit
xmit-Counts mbo o skb nd (inl e) = rw e (refl, refl, refl, refl, refl)
xmit-Counts mbo o skb nd (inr e) =
    rw e (send_skb-Counts skb (if nd.is_mamac then skb_to_mamac skb mbo else skb_to_mep skb mbo) nd)
