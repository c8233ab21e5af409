-- ===== src/Net/Frames.antt =====
-- aim-network/networking.c, what arrives of a packet that is sent, in both formats.
use unicens2_driver.Common.{
  ℕ, zero, suc, ◌+◌, ◌-◌, ◌*◌, ◌/◌, ◌%◌, ◌^◌, ◌≤◌, ◌<◌, ◌≡◌, refl, arith, true, false, some, List,
  [], ◌∷◌, ◌++◌, ◌==◌, ltb, length,
}
use unicens2_driver.Common.Int.{pos}
use unicens2_driver.Net.{
  high_byte, u32, bytes_from, byte, or_telid, NetMbo, dest_hi, dest_lo, skb_to_mamac, skb_to_mep,
  rx_mamac, rx_mep,
}

-- A packet that is not empty and fits the buffer is sent with `skb_to_mep`, with its length less 2 in
-- the first two bytes, and `aim_rx_data` makes the same packet of it in the mode for MEP.
pub mep-trip :
    (skb : List ℕ) (mbo : NetMbo)
    → 1 ≤ length skb
    → length skb + 8 ≤ mbo.buffer_length
    → mbo.buffer_length < 2 ^ 16
    → let (ret, out) = skb_to_mep skb mbo in
      (ret ≡ pos 0)
      × (out.buffer_length ≡ length out.bytes)
      × (byte out.bytes 0 * 256 + byte out.bytes 1 + 2 ≡ out.buffer_length)
      × (rx_mep out.bytes out.buffer_length ≡ some skb)
unfolding skb_to_mep rx_mep
mep-trip skb mbo h l b =
    let n = length skb in
    let a : u32 (n + 8) ≡ n + 8 = omega (arith, l, b) in
    let c : ltb mbo.buffer_length (n + 8) ≡ false = ground (arith, l) in
    let d : ltb 8 (n + 8) ≡ true = ground (arith, h) in
    simp (a, c, d, skb_to_mep, rx_mep) (refl, omega arith, omega (arith, l, b), refl)

length-bytes_from : (n : ℕ) (xs : List ℕ) → length (bytes_from n xs) ≡ length xs - n
length-bytes_from zero xs = omega arith
length-bytes_from (suc n) [] = omega arith
length-bytes_from (suc n) (x ∷ xs) = omega (arith, length-bytes_from n xs)

telid_kept : (p : ℕ) → p < 4096 → (or_telid (high_byte p) / 16 % 16 == 10) ≡ true
telid_kept p h =
    let a : high_byte p < 16 = omega (arith, h) in
    let b : high_byte p / 32 % 2 ≡ 0 = omega (arith, a) in
    let c : high_byte p / 128 % 2 ≡ 0 = omega (arith, a) in rw (b, c) (ground (arith, a))

-- An Ethernet packet whose payload has 1 to 4095 bytes and fits the buffer is sent with `skb_to_mamac`, with
-- its length less 2 in the first two bytes. What `aim_rx_data` makes of the same bytes in the mode for MAMAC
-- has the receiver's address as destination, four zero bytes and the 16 bits of the destination that
-- was sent as source, and the packet's type and payload.
pub mamac-trip :
    (skb dev_addr : List ℕ) (mbo : NetMbo)
    → 14 < length skb
    → length skb < 4110
    → length skb + 2 ≤ mbo.buffer_length
    → let (ret, out) = skb_to_mamac skb mbo in
      (ret ≡ pos 0)
      × (out.buffer_length ≡ length out.bytes)
      × (byte out.bytes 0 * 256 + byte out.bytes 1 + 2 ≡ out.buffer_length)
      × (rx_mamac dev_addr out.bytes out.buffer_length
          ≡ some (
              dev_addr
              ++ 0
                ∷ 0
                ∷ 0
                ∷ 0
                ∷ dest_hi skb
                ∷ dest_lo skb
                ∷ byte skb 12
                ∷ byte skb 13
                ∷ bytes_from 14 skb))
unfolding skb_to_mamac rx_mamac
mamac-trip skb dev_addr mbo h l f =
    let n = length skb in
    let a : u32 (n + (2 ^ 32 - 14)) ≡ n - 14 = omega (arith, l, h) in
    let b : u32 (n - 14 + 16) ≡ n + 2 = omega (arith, l, h) in
    let c : ltb mbo.buffer_length (n + 2) ≡ false = ground (arith, f) in
    let d : ltb n 14 ≡ false = ground (arith, h) in
    let e : ltb 16 (n + 2) ≡ true = ground (arith, h) in
    let t : (or_telid (high_byte (n - 14)) / 16 % 16 == 10) ≡ true =
      telid_kept (n - 14) (omega (arith, l)) in
    simp (a, b, c, d, e, t, skb_to_mamac, rx_mamac)
      (refl, omega (arith, h, length-bytes_from 14 skb), omega (arith, h, l), refl)
