-- ===== src/Net/Device.antt =====
-- aim-network/networking.c, the network device of an interface: `struct net_dev_context` with what the
-- code sets in `struct net_device`. `net_devices` holds at most one device for an interface, and each call
-- is for one interface, so that the list is modelled as the device of that interface, if it has one. What
-- the network stack and the core return is an argument.
pub mod Counted
pub mod Stack
pub mod Calls
use unicens2_driver.Common.{
  ℕ, suc, ◌+◌, ◌-◌, Bool, true, false, not, ◌&&◌, ◌||◌, Option, none, some, List, [], ◌∷◌, ◌==◌,
  if◌then◌else◌, length,
}
use unicens2_driver.Common.Int.{ℤ, pos}
use unicens2_driver.Core.Types.{Config, einval, eio, enomem, ch_async, ch_tx}
use unicens2_driver.Net.{NetMbo, skb_to_mamac, skb_to_mep, rx_mamac, rx_mep}

-- `struct net_dev_channel`.
pub record NetDevChannel : Type 0 where
  pub linked : Bool
  pub ch_id : ℕ

-- `is_registered` is whether `register_netdev` succeeded without an `unregister_netdev` after it.
pub record NetDev : Type 0 where
  pub rx : NetDevChannel
  pub tx : NetDevChannel
  pub kref : ℕ
  pub is_registered : Bool
  pub is_mamac : Bool
  pub dev_addr : List ℕ
  pub mtu : ℕ
  pub has_carrier : Bool
  pub is_dormant : Bool
  pub is_queue_stopped : Bool
  pub rx_packets : ℕ
  pub rx_bytes : ℕ
  pub rx_dropped : ℕ
  pub tx_packets : ℕ
  pub tx_bytes : ℕ
  pub tx_dropped : ℕ
  pub tx_fifo_errors : ℕ

-- `kref_get`.
abbrev pub hold : NetDev → NetDev
hold nd = record nd { kref = suc nd.kref }

-- `put_net_dev_context`: `none` when the last reference went and the device was freed.
abbrev pub put_net_dev_context : NetDev → Option NetDev
put_net_dev_context nd = if nd.kref - 1 == 0 then none else some (record nd { kref = nd.kref - 1 })

abbrev pub new_device : List ℕ → NetDev
new_device addr = record {
  rx = record { linked = false; ch_id = 0 };
  tx = record { linked = false; ch_id = 0 };
  kref = 1;
  is_registered = false;
  is_mamac = false;
  dev_addr = addr;
  mtu = 1500;
  has_carrier = true;
  is_dormant = false;
  is_queue_stopped = false;
  rx_packets = 0;
  rx_bytes = 0;
  rx_dropped = 0;
  tx_packets = 0;
  tx_bytes = 0;
  tx_dropped = 0;
  tx_fifo_errors = 0;
}

-- `ch`, and a write through it.
abbrev pub side : Bool → NetDev → NetDevChannel
side is_tx nd = if is_tx then nd.tx else nd.rx

abbrev pub set_side : Bool → NetDevChannel → NetDev → NetDev
set_side true ch nd = record nd { tx = ch }
set_side false ch nd = record nd { rx = ch }

-- From the label `ok` of `aim_probe_channel` on, with the result and the device that is left.
unfoldable pub link_channel : Bool → Bool → ℕ → NetDev → ℤ × Option NetDev
link_channel registered is_tx idx nd =
    let linked = set_side is_tx (record { linked = true; ch_id = idx }) nd in
    let unlinked = set_side is_tx (record { linked = false; ch_id = idx }) nd in
    if (side is_tx nd).linked
    then (einval, put_net_dev_context nd)
    else if linked.tx.linked && linked.rx.linked
    then if registered
      then (pos 0, some (record linked { is_registered = true }))
      else (einval, put_net_dev_context unlinked)
    else (pos 0, some linked)

-- When the first search finds nothing: `alloc_netdev`, which gives `none` or a device with an address,
-- and the second search, where the device that another call added meanwhile is taken.
unfoldable pub add_device : Bool → Bool → ℕ → Option (List ℕ) → Option NetDev → ℤ × Option NetDev
add_device registered is_tx idx none s = (enomem, s)
add_device registered is_tx idx (some addr) none =
    link_channel registered is_tx idx (new_device addr)
add_device registered is_tx idx (some addr) (some nd) = link_channel registered is_tx idx (hold nd)

-- `raced` is whether another call adds the device between the two searches.
unfoldable pub find_or_add :
    Bool → Bool → Bool → ℕ → Option (List ℕ) → Option NetDev → ℤ × Option NetDev
find_or_add true registered is_tx idx allocated s = add_device registered is_tx idx allocated s
find_or_add false registered is_tx idx allocated none =
    add_device registered is_tx idx allocated none
find_or_add false registered is_tx idx allocated (some nd) =
    link_channel registered is_tx idx (hold nd)

unfoldable pub aim_probe_channel :
    Bool → Option (List ℕ) → Bool → Config → ℕ → Option NetDev → ℤ × Option NetDev
aim_probe_channel raced allocated registered ccfg idx s =
    if not (ccfg.data_type == ch_async)
    then (einval, s)
    else find_or_add raced registered (ccfg.direction == ch_tx) idx allocated s

-- The two calls of `put_net_dev_context` at the end; `none` is a use of the device after it was freed.
abbrev pub put_again : Option NetDev → Option (ℤ × Option NetDev)
put_again none = none
put_again (some nd) = some (pos 0, put_net_dev_context nd)

-- `unregister_netdev`, where the code calls it.
abbrev pub unregister : NetDev → NetDev
unregister nd = if nd.rx.linked && nd.tx.linked then record nd { is_registered = false } else nd

unfoldable pub unlink_channel : Bool → NetDev → Option (ℤ × Option NetDev)
unlink_channel is_tx nd =
    let ch = record (side is_tx nd) { linked = false } in
    put_again (put_net_dev_context (set_side is_tx ch (unregister nd)))

unfoldable pub aim_disconnect_channel : ℕ → Option NetDev → Option (ℤ × Option NetDev)
aim_disconnect_channel idx none = some (einval, none)
aim_disconnect_channel idx (some nd) =
    if nd.rx.linked && (idx == nd.rx.ch_id)
    then unlink_channel false (hold nd)
    else if nd.tx.linked && (idx == nd.tx.ch_id)
    then unlink_channel true (hold nd)
    else some (einval, put_net_dev_context (hold nd))

-- `get_net_dev_context`, something that does not touch the counter, and `put_net_dev_context`.
abbrev pub while_held : (NetDev → ℤ × NetDev) → NetDev → ℤ × Option NetDev
while_held body nd = let (ret, d) = body (hold nd) in (ret, put_net_dev_context d)

unfoldable pub aim_resume_tx_channel : ℕ → Option NetDev → ℤ × Option NetDev
aim_resume_tx_channel idx none = (pos 0, none)
aim_resume_tx_channel idx (some nd) =
    while_held
      (λ d. (pos 0, if d.tx.ch_id == idx then record d { is_queue_stopped = false } else d)) nd

-- The packet goes to `netif_rx`.
abbrev pub deliver : Bool → ℕ → NetDev → NetDev
deliver taken len d =
    if taken
    then record d { rx_packets = suc d.rx_packets; rx_bytes = d.rx_bytes + len }
    else record d { rx_dropped = suc d.rx_dropped }

-- With the packet as a socket buffer, or refused. `allocated` is whether `dev_alloc_skb` gives memory,
-- `taken` whether `netif_rx` takes the packet; the length that is counted is the one after
-- `eth_type_trans`.
abbrev pub receive_packet : Bool → Bool → (ℕ → ℕ) → Option (List ℕ) → NetDev → ℤ × NetDev
receive_packet allocated taken eth_type_trans none d = (eio, d)
receive_packet false taken eth_type_trans (some skb) d =
    (pos 0, record d { rx_dropped = suc d.rx_dropped })
receive_packet true taken eth_type_trans (some skb) d =
    (pos 0, deliver taken (eth_type_trans (length skb)) d)

abbrev pub receive : Bool → Bool → (ℕ → ℕ) → List ℕ → ℕ → NetDev → ℤ × NetDev
receive allocated taken eth_type_trans buf idx d =
    if not (d.rx.ch_id == idx)
    then (eio, d)
    else receive_packet allocated taken eth_type_trans
        (if d.is_mamac then rx_mamac d.dev_addr buf (length buf) else rx_mep buf (length buf)) d

-- `buf` are the `processed_length` bytes of the buffer; it goes back by `most_put_mbo` when the result
-- is 0.
unfoldable pub aim_rx_data : Bool → Bool → (ℕ → ℕ) → List ℕ → ℕ → Option NetDev → ℤ × Option NetDev
aim_rx_data allocated taken eth_type_trans buf idx none = (eio, none)
aim_rx_data allocated taken eth_type_trans buf idx (some nd) =
    while_held (receive allocated taken eth_type_trans buf idx) nd
