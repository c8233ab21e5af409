-- ===== src/Dim/Irq/Tests.antt =====
-- The interrupt at two channels.
use unicens2_driver.Common.{◌≡◌, true, false, ◌==◌, none, some, List, [], ◌∷◌, arith}
use unicens2_driver.Dim.Types.{DimChannel}
use unicens2_driver.Dim.Irq.{Port, busy, done, Hardware, irq_loop, dim_service_ahb_int_irq}
use unicens2_driver.Dim.Irq.Ends.{AreServed, AreCounted, irq_returns, one_channel}

abbrev channel : DimChannel
channel = record {
  state = record { request_counter = 0; service_counter = 0; idx1 = 0; idx2 = 1; level = 2 };
  addr = 4;
  dbr_addr = 0;
  dbr_size = 0;
  packet_length = 188;
  bytes_per_frame = 0;
  done_sw_buffers_number = 0;
}

-- Three buffers, of which the hardware ends one while the interrupt runs.
abbrev ports : List Port
ports =
    record { ch = channel; slot0 = busy; slot1 = done }
    ∷ record { ch = channel; slot0 = busy; slot1 = busy }
    ∷ []

abbrev hardware : Hardware
hardware left n = (left == 3, false)

irq_returns_example :
    (qs : List Port) × (dim_service_ahb_int_irq hardware true (some ports) ≡ some (some qs))
    × AreServed qs
    × AreCounted ports qs
irq_returns_example = irq_returns hardware ports (omega arith, (omega arith, tt))

one_channel_example :
    irq_loop hardware 2 (record { ch = channel; slot0 = done; slot1 = done } ∷ []) ≡ none
one_channel_example = one_channel hardware channel (omega arith)
