-- ===== src/I2c.antt =====
-- hdm-i2c/hdm_i2c.c, the driver of a device on an I2C bus. A call that a `BUG_ON` stops is none. What the
-- bus returns is an argument.
pub mod Held
mod Tests
use unicens2_driver.Common.{
  ℕ, zero, suc, ◌+◌, ◌-◌, ◌*◌, ◌%◌, ◌^◌, Bool, true, false, not, ◌&&◌, ◌||◌, Option, none, some,
  List, [], ◌∷◌, ◌++◌, ◌==◌, ltb, leb, if◌then◌else◌,
}
use unicens2_driver.Common.Int.{ℤ, pos, negsuc}
use unicens2_driver.Core.Types.{
  Config, eperm, ch_rx, ch_tx, ch_control, Status, success, inval, close,
}

-- `MAX_BUF_SIZE_CONTROL`, the size of the array that a message is read to.
abbrev pub max_buf_size_control : ℕ
max_buf_size_control = 256

-- `CH_RX`, `CH_TX`.
pub data I2cIndex : Type 0 where
  rx tx : I2cIndex

pub record I2cMbo : Type 0 where
  pub id : ℕ
  pub buffer_length : ℕ
  pub processed_length : ℕ
  pub status : Status
  pub virt_address : ℕ → ℕ

-- `struct hdm_i2c`; other fields record the buffers that `enqueue` was
-- given, those that `complete` was called for, how often the work was scheduled,
-- and how often the interrupt was disabled more than enabled.
pub record HdmI2c : Type 0 where
  pub rx_open : Bool
  pub tx_open : Bool
  pub polling_mode : Bool
  pub list : List I2cMbo
  pub enqueued : List I2cMbo
  pub completed : List I2cMbo
  pub scheduled : ℕ
  pub disabled : ℕ

-- `is_open`.
abbrev pub is_open : I2cIndex → HdmI2c → Bool
is_open rx d = d.rx_open
is_open tx d = d.tx_open

abbrev pub set_open : I2cIndex → Bool → HdmI2c → HdmI2c
set_open rx b d = record d { rx_open = b }
set_open tx b d = record d { tx_open = b }

-- The `direction` of the capabilities that `i2c_probe` sets.
abbrev pub direction_of : I2cIndex → ℕ
direction_of rx = ch_rx
direction_of tx = ch_tx

abbrev pub schedule_work : HdmI2c → HdmI2c
schedule_work d = record d { scheduled = suc d.scheduled }

abbrev pub configure_i2c : I2cIndex → Config → HdmI2c → Option (ℤ × HdmI2c)
configure_i2c ch cfg d =
    if is_open ch d
    then none
    else if not (cfg.data_type == ch_control)
    then some (eperm, d)
    else if not (cfg.direction == direction_of ch)
    then some (eperm, d)
    else some (
      pos 0,
      set_open ch true (if (cfg.direction == ch_rx) && d.polling_mode then schedule_work d else d),
    )

abbrev pub complete_mbo : I2cMbo → HdmI2c → HdmI2c
complete_mbo m d = record d { completed = d.completed ++ m ∷ [] }

-- What a transfer of a buffer makes of it, with what `i2c_master_send` returns.
abbrev pub after_send : ℤ → I2cMbo → I2cMbo
after_send (pos (suc n)) m = record m { processed_length = m.buffer_length; status = success }
after_send (pos zero) m = record m { processed_length = 0; status = inval }
after_send (negsuc n) m = record m { processed_length = 0; status = inval }

abbrev pub enqueue_at : I2cIndex → ℤ → I2cMbo → HdmI2c → HdmI2c
enqueue_at rx ret m d = record d { list = d.list ++ m ∷ []; enqueued = m ∷ d.enqueued }
enqueue_at tx ret m d = complete_mbo (after_send ret m) (record d { enqueued = m ∷ d.enqueued })

-- `enqueue`.
abbrev pub enqueue_i2c : I2cIndex → ℤ → I2cMbo → HdmI2c → Option (ℤ × HdmI2c)
enqueue_i2c ch ret m d = if not (is_open ch d) then none else some (pos 0, enqueue_at ch ret m d)

abbrev pub poisoned : List I2cMbo → List I2cMbo
poisoned [] = []
poisoned (m ∷ ms) = record m { processed_length = 0; status = close } ∷ poisoned ms

abbrev pub poison_at : I2cIndex → HdmI2c → HdmI2c
poison_at rx d = record d { rx_open = false; list = []; completed = d.completed ++ poisoned d.list }
poison_at tx d = record d { tx_open = false }

-- `poison_channel`.
abbrev pub poison_i2c : I2cIndex → HdmI2c → Option (ℤ × HdmI2c)
poison_i2c ch d = if not (is_open ch d) then none else some (pos 0, poison_at ch d)

-- What happens while `do_rx_work` waits for a buffer.
pub data RxRound : Type 0 where
  gets_buffer : I2cMbo → RxRound
  is_poisoned : RxRound
  gets_signal : RxRound

-- The end of `do_rx_work`: it returns, it still waits, or it has read a message that is longer than the
-- array for it.
pub data RxWork : Type 0 where
  returned : HdmI2c → RxWork
  still_waits : HdmI2c → RxWork
  overran : RxWork

abbrev pub message_size : ℕ → ℕ → ℕ
message_size high low = (high * 256 + low + 2) % 2 ^ 16

abbrev pub min_length : ℕ → ℕ → ℕ
min_length a b = if ltb a b then a else b

abbrev pub copy_message : ℕ → (ℕ → ℕ) → I2cMbo → I2cMbo
copy_message size msg m =
    let n = min_length size m.buffer_length in
    record m {
      processed_length = n;
      status = success;
      virt_address = λ a. if ltb a n then msg a else m.virt_address a;
    }

-- The loop of `do_rx_work`, and what follows it.
abbrev pub deliver_to : List I2cMbo → List RxRound → ℕ → (ℕ → ℕ) → HdmI2c → RxWork
deliver_to (m ∷ ms) rs size msg d =
    returned (complete_mbo (copy_message size msg m) (record d { list = ms }))
deliver_to [] [] size msg d = still_waits d
deliver_to [] (gets_buffer m ∷ rs) size msg d =
    deliver_to (m ∷ []) rs size msg (enqueue_at rx (pos 0) m d)
deliver_to [] (is_poisoned ∷ rs) size msg d = returned (poison_at rx d)
deliver_to [] (gets_signal ∷ rs) size msg d = returned d

-- `do_rx_work` from the wait on.
abbrev pub deliver_message : List RxRound → ℕ → (ℕ → ℕ) → HdmI2c → RxWork
deliver_message rs size msg d =
    if not d.rx_open then returned d else deliver_to d.list rs size msg d

-- With the result of the second `i2c_master_recv`: what the array holds then.
abbrev pub read_message : Option (ℕ → ℕ) → List RxRound → ℕ → HdmI2c → RxWork
read_message none rs size d = returned d
read_message (some msg) rs size d =
    if ltb max_buf_size_control size then overran else deliver_message rs size msg d

-- `pml` is what the first `i2c_master_recv` reads.
abbrev pub do_rx_work : Option (ℕ × ℕ) → Option (ℕ → ℕ) → List RxRound → HdmI2c → RxWork
do_rx_work none msg rs d = returned d
do_rx_work (some (high, low)) msg rs d =
    if high * 256 + low == 0 then returned d else read_message msg rs (message_size high low) d

-- What `pending_rx_work` does after `do_rx_work`.
abbrev pub after_work : HdmI2c → HdmI2c
after_work d =
    if d.polling_mode
    then if d.rx_open then schedule_work d else d
    else record d { disabled = pred d.disabled }
  where
    pred : ℕ → ℕ
    pred zero = zero
    pred (suc n) = n

abbrev pub then_after_work : RxWork → RxWork
then_after_work (returned e) = returned (after_work e)
then_after_work (still_waits e) = still_waits e
then_after_work overran = overran

abbrev pub pending_rx_work : Option (ℕ × ℕ) → Option (ℕ → ℕ) → List RxRound → HdmI2c → RxWork
pending_rx_work pml msg rs d = then_after_work (do_rx_work pml msg rs d)

abbrev pub most_irq_handler : HdmI2c → HdmI2c
most_irq_handler d = schedule_work (record d { disabled = suc d.disabled })
