-- ===== src/I2c/Tests.antt =====
-- The theorem on hdm-i2c/hdm_i2c.c at a channel that receives one message.
use unicens2_driver.Common.{ℕ, ◌+◌, ◌≡◌, refl, true, false, some, [], ◌∷◌}
use unicens2_driver.Common.Int.{pos}
use unicens2_driver.Core.Types.{Config, ch_rx, ch_control, success}
use unicens2_driver.I2c.{
  rx, I2cMbo, HdmI2c, overran, do_rx_work, enqueue_at, poison_at, copy_message,
}
use unicens2_driver.I2c.Held.{
  IsHeld, configures, enqueues, poisons, interrupts, works, no_step, then_step, steps-IsHeld,
}

abbrev config : Config
config = record {
  direction = ch_rx;
  data_type = ch_control;
  num_buffers = 2;
  buffer_size = 16;
  extra_len = 0;
  subbuffer_size = 0;
  packets_per_xact = 0;
}

abbrev closed : HdmI2c
closed = record {
  rx_open = false;
  tx_open = false;
  polling_mode = false;
  list = [];
  enqueued = [];
  completed = [];
  scheduled = 0;
  disabled = 0;
}

abbrev opened : HdmI2c
opened = record closed { rx_open = true }

abbrev buffer : ℕ → I2cMbo
buffer n = record {
  id = n;
  buffer_length = 16;
  processed_length = 0;
  status = success;
  virt_address = λ a. 0;
}

abbrev message : ℕ → ℕ
message a = a + 1

-- The first buffer gets the message of 5 bytes, and the second one is given back.
abbrev after_message : HdmI2c
after_message = record opened {
  list = buffer 2 ∷ [];
  enqueued = buffer 2 ∷ buffer 1 ∷ [];
  completed = copy_message 5 message (buffer 1) ∷ [];
  scheduled = 1;
}

steps-IsHeld_example : IsHeld (poison_at rx after_message)
steps-IsHeld_example =
    steps-IsHeld
      (then_step
        (then_step
          (then_step
            (then_step
              (then_step
                (then_step (no_step closed) (configures rx config closed (pos 0) opened refl))
                (enqueues rx (pos 0) (buffer 1) opened (pos 0)
                  (enqueue_at rx (pos 0) (buffer 1) opened) refl))
              (enqueues rx (pos 0) (buffer 2) (enqueue_at rx (pos 0) (buffer 1) opened) (pos 0)
                (enqueue_at rx (pos 0) (buffer 2) (enqueue_at rx (pos 0) (buffer 1) opened)) refl))
            (interrupts
              (enqueue_at rx (pos 0) (buffer 2) (enqueue_at rx (pos 0) (buffer 1) opened))))
          (works (some (0, 3)) (some message) []
            (record opened {
              list = buffer 1 ∷ buffer 2 ∷ [];
              enqueued = buffer 2 ∷ buffer 1 ∷ [];
              scheduled = 1;
              disabled = 1;
            })
            after_message refl))
        (poisons rx after_message (pos 0) (poison_at rx after_message) refl))
      (λ k. refl, refl)

-- A message of 257 bytes does not fit the array.
long_message : do_rx_work (some (0, 255)) (some message) [] opened ≡ overran
long_message = refl
