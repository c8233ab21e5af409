-- ===== src/Net/Tests.antt =====
-- The theorems on aim-network/networking.c at small packets.
use unicens2_driver.Common.{
  ℕ, ◌+◌, ◌*◌, ◌≡◌, arith, true, false, none, some, List, [], ◌∷◌, ◌++◌, length,
}
use unicens2_driver.Common.Int.{pos}
use unicens2_driver.Core.Types.{Config, ch_rx, ch_tx, ch_async}
use unicens2_driver.Net.{
  NetMbo, byte, bytes_from, dest_hi, dest_lo, skb_to_mamac, skb_to_mep, rx_mamac, rx_mep,
}
use unicens2_driver.Net.Frames.{mep-trip, mamac-trip}
use unicens2_driver.Net.Device.Calls.{
  probe_call, disconnect_call, net_calls, EndsCounted, IsCounted-calls,
}

abbrev packet : List ℕ
packet = 1 ∷ 2 ∷ 3 ∷ 4 ∷ 5 ∷ 6 ∷ 7 ∷ 8 ∷ 9 ∷ 10 ∷ 11 ∷ 12 ∷ 8 ∷ 0 ∷ 69 ∷ 70 ∷ []

abbrev mbo : NetMbo
mbo = record { buffer_length = 1024; bytes = [] }

mep-trip_example :
    let (ret, out) = skb_to_mep packet mbo in
    (ret ≡ pos 0)
    × (out.buffer_length ≡ length out.bytes)
    × (byte out.bytes 0 * 256 + byte out.bytes 1 + 2 ≡ out.buffer_length)
    × (rx_mep out.bytes out.buffer_length ≡ some packet)
mep-trip_example = mep-trip packet mbo (omega arith) (omega arith) (omega arith)

abbrev address : List ℕ
address = 0 ∷ 0 ∷ 0 ∷ 0 ∷ 1 ∷ 16 ∷ []

mamac-trip_example :
    let (ret, out) = skb_to_mamac packet mbo in
    (ret ≡ pos 0)
    × (out.buffer_length ≡ length out.bytes)
    × (byte out.bytes 0 * 256 + byte out.bytes 1 + 2 ≡ out.buffer_length)
    × (rx_mamac address out.bytes out.buffer_length
        ≡ some (
            address
            ++ 0
              ∷ 0
              ∷ 0
              ∷ 0
              ∷ dest_hi packet
              ∷ dest_lo packet
              ∷ byte packet 12
              ∷ byte packet 13
              ∷ bytes_from 14 packet))
mamac-trip_example = mamac-trip packet address mbo (omega arith) (omega arith) (omega arith)

abbrev rx_config : Config
rx_config = record {
  direction = ch_rx;
  data_type = ch_async;
  num_buffers = 8;
  buffer_size = 1024;
  extra_len = 0;
  subbuffer_size = 0;
  packets_per_xact = 0;
}

abbrev tx_config : Config
tx_config = record rx_config { direction = ch_tx }

IsCounted-calls_example : EndsCounted (
    net_calls
      (probe_call false (some address) true rx_config 2
        ∷ probe_call false (some address) true tx_config 3
        ∷ disconnect_call 2
        ∷ disconnect_call 3
        ∷ [])
      none)
IsCounted-calls_example =
    IsCounted-calls
      (probe_call false (some address) true rx_config 2
        ∷ probe_call false (some address) true tx_config 3
        ∷ disconnect_call 2
        ∷ disconnect_call 3
        ∷ [])
      none tt
