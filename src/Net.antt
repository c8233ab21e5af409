-- ===== src/Net.antt =====
-- aim-network/networking.c, the module that gives the packet channels to the network stack: the packets
-- between a socket buffer and a buffer of the core. Both are lists of bytes.
pub mod Frames
pub mod Device
mod Tests
use unicens2_driver.Common.{
  ℕ, zero, suc, ◌+◌, ◌-◌, ◌*◌, ◌/◌, ◌%◌, ◌^◌, Bool, true, false, not, ◌&&◌, ◌||◌, Option, none,
  some, List, [], ◌∷◌, ◌++◌, ◌==◌, ltb, if◌then◌else◌, length, get_or,
}
use unicens2_driver.Common.Int.{ℤ, pos}
use unicens2_driver.Core.Types.{einval}

-- `HB` and `LB`.
abbrev pub high_byte : ℕ → ℕ
high_byte v = v % 2 ^ 16 / 2 ^ 8

abbrev pub low_byte : ℕ → ℕ
low_byte v = v % 2 ^ 8

abbrev pub u32 : ℕ → ℕ
u32 n = n % 2 ^ 32

abbrev pub bytes_from : ℕ → List ℕ → List ℕ
bytes_from zero xs = xs
bytes_from (suc n) [] = []
bytes_from (suc n) (x ∷ xs) = bytes_from n xs

abbrev pub byte : List ℕ → ℕ → ℕ
byte xs i = get_or xs i 0

abbrev pub eth_hlen : ℕ
eth_hlen = 14

abbrev pub mep_hdr_len : ℕ
mep_hdr_len = 8

abbrev pub mdp_hdr_len : ℕ
mdp_hdr_len = 16

-- `PMS_TELID_UNSEGM_MAMAC << 4 | x` for a byte `x`: bits 5 and 7 are set.
abbrev pub or_telid : ℕ → ℕ
or_telid x = x + (if x / 32 % 2 == 0 then 32 else 0) + (if x / 128 % 2 == 0 then 128 else 0)

-- The fields of `struct mbo` that the code uses; `bytes` are those from `virt_address` on that were written.
pub record NetMbo : Type 0 where
  pub buffer_length : ℕ
  pub bytes : List ℕ

-- The 16 bytes before the payload, for the destination `d0 d1` and the type `t0 t1`.
abbrev pub mdp_header : ℕ → ℕ → ℕ → ℕ → ℕ → ℕ → List ℕ
mdp_header mdp_len payload_len d0 d1 t0 t1 =
    high_byte (mdp_len - 2)
    ∷ low_byte (mdp_len - 2)
    ∷ 5
    ∷ 12
    ∷ 0
    ∷ d0
    ∷ d1
    ∷ 0
    ∷ high_byte (payload_len + 6)
    ∷ low_byte (payload_len + 6)
    ∷ t0
    ∷ t1
    ∷ 0
    ∷ 0
    ∷ or_telid (high_byte payload_len)
    ∷ low_byte payload_len
    ∷ []

abbrev pub is_broadcast : List ℕ → Bool
is_broadcast skb = (byte skb 4 == 255) && (byte skb 5 == 255)

-- `dest_addr[0]` and `dest_addr[1]`.
abbrev pub dest_hi : List ℕ → ℕ
dest_hi skb = if is_broadcast skb then 3 else byte skb 4

abbrev pub dest_lo : List ℕ → ℕ
dest_lo skb = if is_broadcast skb then 255 else byte skb 5

unfoldable pub skb_to_mamac : List ℕ → NetMbo → ℤ × NetMbo
skb_to_mamac skb mbo =
    let payload_len = u32 (length skb + (2 ^ 32 - eth_hlen)) in
    let mdp_len = u32 (payload_len + mdp_hdr_len) in
    if ltb mbo.buffer_length mdp_len
    then (einval, mbo)
    else if ltb (length skb) eth_hlen
    then (einval, mbo)
    else (
      pos 0,
      record {
        buffer_length = mdp_len;
        bytes =
            mdp_header mdp_len payload_len (dest_hi skb) (dest_lo skb) (byte skb 12) (byte skb 13)
            ++ bytes_from eth_hlen skb;
      },
    )

-- The 8 bytes before the packet.
abbrev pub mep_header : ℕ → List ℕ
mep_header mep_len =
    high_byte (mep_len - 2) ∷ low_byte (mep_len - 2) ∷ 5 ∷ 36 ∷ 240 ∷ 0 ∷ 0 ∷ 0 ∷ []

unfoldable pub skb_to_mep : List ℕ → NetMbo → ℤ × NetMbo
skb_to_mep skb mbo =
    let mep_len = u32 (length skb + mep_hdr_len) in
    if ltb mbo.buffer_length mep_len
    then (einval, mbo)
    else (pos 0, record { buffer_length = mep_len; bytes = mep_header mep_len ++ skb })

-- `PMS_IS_MEP` and `PMS_IS_MAMAC`.
abbrev pub is_mep : List ℕ → ℕ → Bool
is_mep buf len = ltb mep_hdr_len len && (byte buf 3 / 8 % 8 == 4)

abbrev pub is_mamac : List ℕ → ℕ → Bool
is_mamac buf len = ltb mdp_hdr_len len && (byte buf 3 / 8 % 8 == 1) && (byte buf 14 / 16 % 16 == 10)

-- The socket buffer that `aim_rx_data` makes of the first `len` bytes of a buffer, in the two modes;
-- `none` is a packet that it refuses.
unfoldable pub rx_mamac : List ℕ → List ℕ → ℕ → Option (List ℕ)
rx_mamac dev_addr buf len =
    if not (is_mamac buf len)
    then none
    else some (
        dev_addr
        ++ 0
          ∷ 0
          ∷ 0
          ∷ 0
          ∷ byte buf 5
          ∷ byte buf 6
          ∷ byte buf 10
          ∷ byte buf 11
          ∷ bytes_from mdp_hdr_len buf)

unfoldable pub rx_mep : List ℕ → ℕ → Option (List ℕ)
rx_mep buf len = if not (is_mep buf len) then none else some (bytes_from mep_hdr_len buf)
