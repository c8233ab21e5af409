-- ===== src/Dim/Init/Tests.antt =====
-- The theorems on initialisation at an empty memory.
use unicens2_driver.Common.{◌^◌, ◌≡◌, true, false, some, [], ◌∷◌, refl}
use unicens2_driver.Dim.Types.{DimChannel, no_error, channel_address}
use unicens2_driver.Dim.Sizes.{check_channel_address, check_packet_length}
use unicens2_driver.Dim.Channel.{isoc_init, state_init}
use unicens2_driver.Dim.Memory.{
  zero_word, or_word, mask_of, dbr_size, alloc_dbr, dbr_get_mask_size, try_word,
}
use unicens2_driver.Dim.Memory.Alloc.{bit}
use unicens2_driver.Dim.Init.{
  Lld, Result, configure_channel, dim_init_isoc, dim_init_async, dim_destroy_channel,
}
use unicens2_driver.Dim.Init.Destroy.{Inits, isoc, init-destroy, async_refused}

abbrev blank : DimChannel
blank = record {
  state = record { request_counter = 0; service_counter = 0; idx1 = 0; idx2 = 0; level = 0 };
  addr = 9;
  dbr_addr = 0;
  dbr_size = 0;
  packet_length = 0;
  bytes_per_frame = 0;
  done_sw_buffers_number = 0;
}

abbrev fresh : Lld
fresh = record {
  dim_is_initialized = true;
  atx_dbr = record { ch_addr = 0; rpc = 0; wpc = 0; rest_size = 0; sz_queue = [] };
  fcnt = 5;
  dbr_map = record { map0 = zero_word; map1 = zero_word };
  mien = 0;
}

-- An isochronous channel of 188 bytes asks for three blocks.
abbrev result : Result
result = record {
  ret = no_error;
  ch = record blank { addr = 2; dbr_size = 564; packet_length = 188 };
  g = record fresh { dbr_map = record { map0 = or_word zero_word (mask_of 3); map1 = zero_word } };
  calls = configure_channel 2 3 true 0 564 188 ∷ [];
}

result-Inits : Inits fresh result
unfolding dim_init_isoc isoc_init state_init check_channel_address check_packet_length alloc_dbr
    dbr_get_mask_size try_word
result-Inits = isoc blank true 4 188 refl

init-destroy_example :
    let t = dim_destroy_channel result.g result.ch in
    (t.ret ≡ no_error) × (t.ch.dbr_addr ≡ dbr_size) × (bit t.g.dbr_map 1 ≡ false)
init-destroy_example = init-destroy {g = fresh} 1 result-Inits refl refl

async_refused_example :
    (r : Result) × (dim_init_async 0 fresh blank true 3 1024 ≡ some r)
    × (r.ret ≡ channel_address)
    × (r.g.atx_dbr.ch_addr ≡ 9)
    × (r.g.mien ≡ 2 ^ 20)
unfolding check_channel_address
async_refused_example = async_refused 0 fresh blank 3 1024 refl refl refl
