-- ===== src/Cdev.antt =====
-- aim-cdev/cdev.c, the module that gives a channel to user space as a character device: one linked
-- channel, from its link to its end. What the core and the copies from and to user space return is an
-- argument.
pub mod Bytes
pub mod Write
pub mod Read
pub mod Life
pub mod Links
mod Tests
use unicens2_driver.Common.{
  ℕ, zero, suc, ◌+◌, ◌-◌, ◌/◌, ◌%◌, ◌^◌, Bool, true, false, not, ◌&&◌, ◌||◌, Option, none, some,
  List, [], ◌∷◌, ◌++◌, ◌==◌, ltb, leb, if◌then◌else◌, length,
}
use unicens2_driver.Common.Int.{ℤ, pos, negsuc, ◌==ℤ◌}
use unicens2_driver.Core.Types.{Config, eagain, enodev, ch_rx, ch_tx, ch_control, ch_async}
use unicens2_driver.Core.Text.{take}

abbrev pub eacces : ℤ
eacces = negsuc 12

abbrev pub ebusy : ℤ
ebusy = negsuc 15

abbrev pub efault : ℤ
efault = negsuc 13

abbrev pub erestartsys : ℤ
erestartsys = negsuc 511

-- A buffer; `bytes` are those from `virt_address` on that hold data: what was written so far, or the
-- `processed_length` bytes that were received.
pub record CdevMbo : Type 0 where
  pub id : ℕ
  pub bytes : List ℕ

-- `struct aim_channel`; `has_dev` is whether `dev` is set. Other fields record the buffers that
-- `aim_rx_completion` took, those given to `most_submit_mbo` and to `most_put_mbo`, the calls of `most_stop_channel`, and those of
-- `destroy_channel`.
pub record CdevChannel : Type 0 where
  pub cfg : Config
  pub has_dev : Bool
  pub access_ref : Bool
  pub mbo_offs : ℕ
  pub fifo : List CdevMbo
  pub received : List CdevMbo
  pub submitted : List CdevMbo
  pub put : List CdevMbo
  pub stops : ℕ
  pub destroyed : ℕ

-- `stop_channel`.
abbrev pub stop_channel : CdevChannel → CdevChannel
stop_channel c = record c { put = c.put ++ c.fifo; fifo = []; stops = suc c.stops }

abbrev pub destroy_channel : CdevChannel → CdevChannel
destroy_channel c = record c { destroyed = suc c.destroyed }

-- `accmode` is `O_RDONLY` (0), `O_WRONLY` (1) or `O_RDWR` (2), `started` what `most_start_channel`
-- returns.
unfoldable pub aim_open : ℕ → ℤ → CdevChannel → ℤ × CdevChannel
aim_open accmode started c =
    if (c.cfg.direction == ch_rx) && not (accmode == 0)
      || (c.cfg.direction == ch_tx) && not (accmode == 1)
    then (eacces, c)
    else if not c.has_dev
    then (enodev, c)
    else if c.access_ref
    then (ebusy, c)
    else if started ==ℤ pos 0
    then (pos 0, record c { mbo_offs = 0; access_ref = true })
    else (started, record c { mbo_offs = 0 })

unfoldable pub aim_close : CdevChannel → ℤ × CdevChannel
aim_close c =
    let d = record c { access_ref = false } in
    (pos 0, if d.has_dev then stop_channel d else destroy_channel d)

-- `aim_disconnect_channel` for the channel that `get_channel` found.
unfoldable pub aim_disconnect_channel : CdevChannel → ℤ × CdevChannel
aim_disconnect_channel c =
    let d = record c { has_dev = false } in
    (pos 0, if d.access_ref then stop_channel d else destroy_channel d)

-- `aim_rx_completion` for the channel that `get_channel` found.
unfoldable pub aim_rx_completion : CdevMbo → CdevChannel → ℤ × CdevChannel
aim_rx_completion m c =
    if not c.access_ref || not c.has_dev
    then (enodev, c)
    else (pos 0, record c { fifo = c.fifo ++ m ∷ []; received = c.received ++ m ∷ [] })

-- How a wait ends: the process is woken, or by a signal, or because the device has gone.
pub data Wake : Type 0 where
  woken interrupted gone : Wake

-- What a round of a waiting loop finds, for `aim_write` what `most_get_mbo` gives.
pub data WriteRound : Type 0 where
  gave : ℕ → WriteRound
  nothing : Wake → WriteRound

-- The end of the loop: with a buffer, with an error, or the process still waits.
pub data Waited : Type 0 where
  ready : CdevMbo → List CdevMbo → CdevChannel → Waited
  ended : ℤ → CdevChannel → Waited
  waiting : CdevChannel → Waited

-- The first buffer of the fifo, if it has one.
abbrev pub with_first : List CdevMbo → CdevChannel → Waited → Waited
with_first [] c other = other
with_first (m ∷ ms) c other = ready m ms c

-- After `wait_event_interruptible`, with what the next rounds give for a device that is still there, and
-- for one that has gone. The fifo is empty then, so that the `stop_channel` of the disconnection, which is
-- a call of its own, gives no buffer back.
abbrev pub after_wake : Wake → CdevChannel → Waited → Waited → Waited
after_wake woken c again left = again
after_wake interrupted c again left = ended erestartsys c
after_wake gone c again left = left

-- The loop of `aim_write`, with `ch_get_mbo`.
unfoldable pub write_wait : Bool → List WriteRound → CdevChannel → Waited
write_wait nonblock [] c = if not c.has_dev then ended enodev c else with_first c.fifo c (waiting c)
write_wait nonblock (gave id ∷ rs) c =
    if not c.has_dev
    then ended enodev c
    else with_first c.fifo c (ready (record { id = id; bytes = [] }) [] c)
write_wait nonblock (nothing w ∷ rs) c =
    let again = write_wait nonblock rs c in
    let left = write_wait nonblock rs (record c { has_dev = false }) in
    if not c.has_dev
    then ended enodev c
    else with_first c.fifo c (if nonblock then ended eagain c else after_wake w c again left)

-- `size_t` arithmetic.
abbrev pub minus64 : ℕ → ℕ → ℕ
minus64 a b = (a + (2 ^ 64 - b)) % 2 ^ 64

abbrev pub min : ℕ → ℕ → ℕ
min a b = if ltb a b then a else b

abbrev pub write_size : List ℕ → CdevChannel → ℕ
write_size buf c = min (length buf) (minus64 c.cfg.buffer_size c.mbo_offs)

abbrev pub is_packet : Config → Bool
is_packet cfg = (cfg.data_type == ch_control) || (cfg.data_type == ch_async)

-- From `to_copy` on, with the first buffer and the others of the fifo. `left` is what `copy_from_user`
-- returns, the bytes that it did not copy.
unfoldable pub write_mbo : ℕ → List ℕ → CdevMbo → List CdevMbo → CdevChannel → ℤ × CdevChannel
write_mbo left buf m ms c =
    let to_copy = write_size buf c in
    let n = to_copy - left in
    let filled = record m { bytes = take c.mbo_offs m.bytes ++ take n buf } in
    let offs = c.mbo_offs + n in
    if left == to_copy
    then (efault, record c { fifo = m ∷ ms })
    else if leb c.cfg.buffer_size offs || is_packet c.cfg
    then (pos n, record c { fifo = ms; mbo_offs = 0; submitted = c.submitted ++ filled ∷ [] })
    else (pos n, record c { fifo = filled ∷ ms; mbo_offs = offs })

-- The result, or `none` while the process waits, and the channel.
unfoldable pub aim_write :
    Bool → ℕ → List WriteRound → List ℕ → CdevChannel → Option ℤ × CdevChannel
aim_write nonblock left rounds buf c = elim (write_wait nonblock rounds c) [
  | waiting d ↦ (none, d)
  | ended e d ↦ (some e, d)
  | ready m ms d ↦ let (ret, e) = write_mbo left buf m ms d in (some ret, e)
]

abbrev pub drop : ℕ → List ℕ → List ℕ
drop zero xs = xs
drop (suc n) [] = []
drop (suc n) (x ∷ xs) = drop n xs

-- What happens in a round of `aim_read`: a buffer is received, or the wait ends without one.
pub data Arrival : Type 0 where
  came : CdevMbo → Arrival
  none_came : Wake → Arrival

-- The loop of `aim_read`.
unfoldable pub read_wait : Bool → List Arrival → CdevChannel → Waited
read_wait nonblock [] c = if not c.has_dev then ended enodev c else with_first c.fifo c (waiting c)
read_wait nonblock (came m ∷ rs) c = read_wait nonblock rs (aim_rx_completion m c).1
read_wait nonblock (none_came w ∷ rs) c =
    let again = read_wait nonblock rs c in
    let left = read_wait nonblock rs (record c { has_dev = false }) in
    if not c.has_dev
    then ended enodev c
    else with_first c.fifo c (if nonblock then ended eagain c else after_wake w c again left)

-- From `to_copy` on. `not_copied` is what `copy_to_user` returns. The bytes that user space gets come
-- with the result.
unfoldable pub read_mbo : ℕ → ℕ → CdevMbo → List CdevMbo → CdevChannel → ℕ × List ℕ × CdevChannel
read_mbo not_copied count m ms c =
    let to_copy = min count (minus64 (length m.bytes) c.mbo_offs) in
    let n = to_copy - not_copied in
    let given = take n (drop c.mbo_offs m.bytes) in
    let offs = c.mbo_offs + n in
    if leb (length m.bytes) offs
    then (n, given, record c { fifo = ms; mbo_offs = 0; put = c.put ++ m ∷ [] })
    else (n, given, record c { mbo_offs = offs })

unfoldable pub aim_read :
    Bool → ℕ → List Arrival → ℕ → CdevChannel → Option ℤ × List ℕ × CdevChannel
aim_read nonblock not_copied arrivals count c = elim (read_wait nonblock arrivals c) [
  | waiting d ↦ (none, [], d)
  | ended e d ↦ (some e, [], d)
  | ready m ms d ↦ let (n, given, e) = read_mbo not_copied count m ms d in (some (pos n), given, e)
]

-- Whether `aim_poll` reports that a read or a write can be made; `available` is what `channel_has_mbo`
-- returns.
abbrev pub aim_poll : ℕ → CdevChannel → Bool
aim_poll available c =
    if c.cfg.direction == ch_rx
    then not (length c.fifo == 0)
    else not (length c.fifo == 0) || not (available == 0)
