-- ===== src/I2c/Held.antt =====
-- hdm-i2c/hdm_i2c.c, where a buffer is, over any order of calls.
use unicens2_driver.Common.{
  ℕ, zero, suc, ◌+◌, ◌*◌, ◌≡◌, refl, arith, Bool, true, false, not, ◌&&◌, Option, none, some, List,
  [], ◌∷◌, ◌++◌, ◌==◌, ltb, if◌then◌else◌, inl, inr, Bool-cases,
}
use mathlib.Core.Path.{subst}
use unicens2_driver.Common.Int.{ℤ, pos, negsuc}
use unicens2_driver.Core.Types.{Config, ch_control, ch_rx}
use unicens2_driver.I2c.{
  I2cIndex, rx, tx, I2cMbo, HdmI2c, is_open, set_open, direction_of, schedule_work, configure_i2c,
  after_send, enqueue_at, enqueue_i2c, poisoned, poison_at, poison_i2c, RxRound, gets_buffer,
  is_poisoned, gets_signal, RxWork, returned, still_waits, overran, message_size, copy_message,
  deliver_to, read_message, do_rx_work, after_work, then_after_work, pending_rx_work,
  most_irq_handler, max_buf_size_control,
}

abbrev pub times : ℕ → List I2cMbo → ℕ
times k [] = 0
times k (m ∷ ms) = (if m.id == k then 1 else 0) + times k ms

times-append : (k : ℕ) (xs ys : List I2cMbo) → times k (xs ++ ys) ≡ times k xs + times k ys
times-append k [] ys = omega arith
times-append k (x ∷ xs) ys = omega (arith, times-append k xs ys)

times-poisoned : (k : ℕ) (ms : List I2cMbo) → times k (poisoned ms) ≡ times k ms
times-poisoned k [] = refl
times-poisoned k (m ∷ ms) = omega (arith, times-poisoned k ms)

-- Where the RX channel is closed, no buffer waits.
abbrev pub IsIdle : Bool → List I2cMbo → Type 0
IsIdle true ms = Unit {0}
IsIdle false ms = ms ≡ []

-- Each buffer is in the list or was completed, as often as it was given.
abbrev pub IsHeld : HdmI2c → Type 0
IsHeld d =
    ((k : ℕ) → times k d.enqueued ≡ times k d.list + times k d.completed) × IsIdle d.rx_open d.list

abbrev pub HoldsAfter : RxWork → Type 0
HoldsAfter (returned d) = IsHeld d
HoldsAfter (still_waits d) = IsHeld d
HoldsAfter overran = Unit {0}

deliver_to-IsHeld :
    (ms : List I2cMbo) (rs : List RxRound) (size : ℕ) (msg : ℕ → ℕ) (d : HdmI2c)
    → d.list ≡ ms
    → d.rx_open ≡ true
    → ((k : ℕ) → times k d.enqueued ≡ times k ms + times k d.completed)
    → HoldsAfter (deliver_to ms rs size msg d)
deliver_to-IsHeld (m ∷ ms) rs size msg d e o h =
    (λ k. omega (arith, h k, times-append k d.completed (copy_message size msg m ∷ [])), rw o tt)
deliver_to-IsHeld [] [] size msg d e o h = rw (e, o) (h, tt)
deliver_to-IsHeld [] (gets_buffer m ∷ rs) size msg d e o h =
    (λ k. omega (arith, h k, times-append k d.completed (copy_message size msg m ∷ [])), rw o tt)
deliver_to-IsHeld [] (is_poisoned ∷ rs) size msg d e o h =
    (λ k. rw e (omega (arith, h k, times-append k d.completed [])), refl)
deliver_to-IsHeld [] (gets_signal ∷ rs) size msg d e o h = rw (e, o) (h, tt)

read_message-IsHeld :
    (msg : Option (ℕ → ℕ)) (rs : List RxRound) (size : ℕ) (d : HdmI2c)
    → IsHeld d
    → HoldsAfter (read_message msg rs size d)
read_message-IsHeld none rs size d h = h
read_message-IsHeld (some msg) rs size d h = elim (Bool-cases (ltb max_buf_size_control size)) [
  | inl e ↦ simp e tt
  | inr e ↦ elim (Bool-cases d.rx_open) [
    | inl o ↦ simp (e, o) (deliver_to-IsHeld d.list rs size msg d refl o h.0)
    | inr o ↦ simp (e, o) (h.0, subst (λ b. IsIdle b d.list) o h.1)
  ]
]

do_rx_work-IsHeld :
    (pml : Option (ℕ × ℕ)) (msg : Option (ℕ → ℕ)) (rs : List RxRound) (d : HdmI2c)
    → IsHeld d
    → HoldsAfter (do_rx_work pml msg rs d)
do_rx_work-IsHeld none msg rs d h = h
do_rx_work-IsHeld (some (high, low)) msg rs d h = elim (Bool-cases (high * 256 + low == 0)) [
  | inl e ↦ simp e h
  | inr e ↦ simp e (read_message-IsHeld msg rs (message_size high low) d h)
]

after_work-IsHeld : (d : HdmI2c) → IsHeld d → IsHeld (after_work d)
after_work-IsHeld d h = elim (Bool-cases d.polling_mode) [
  | inr e ↦ simp e h
  | inl e ↦ elim (Bool-cases d.rx_open) [
    | inl o ↦ simp (e, o) (h.0, tt)
    | inr o ↦ simp (e, o) (h.0, subst (λ b. IsIdle b d.list) o h.1)
  ]
]

then_after_work-IsHeld : (w : RxWork) → HoldsAfter w → HoldsAfter (then_after_work w)
then_after_work-IsHeld (returned d) h = after_work-IsHeld d h
then_after_work-IsHeld (still_waits d) h = h
then_after_work-IsHeld overran h = tt

enqueue_at-IsHeld :
    (ch : I2cIndex) (ret : ℤ) (m : I2cMbo) (d : HdmI2c)
    → is_open ch d ≡ true
    → IsHeld d
    → IsHeld (enqueue_at ch ret m d)
enqueue_at-IsHeld rx ret m d o (h, i) =
    (λ k. omega (arith, h k, times-append k d.list (m ∷ [])), rw o tt)
enqueue_at-IsHeld tx ret m d o (h, i) = (λ k. omega (arith, h k, completes k ret), i)
  where
    completes :
        (k : ℕ) (r : ℤ) → times k (d.completed ++ after_send r m ∷ []) ≡ times k (m ∷ d.completed)
    completes k (pos (suc n)) =
        omega (arith, times-append k d.completed (after_send (pos (suc n)) m ∷ []))
    completes k (pos zero) =
        omega (arith, times-append k d.completed (after_send (pos zero) m ∷ []))
    completes k (negsuc n) =
        omega (arith, times-append k d.completed (after_send (negsuc n) m ∷ []))

poison_at-IsHeld : (ch : I2cIndex) (d : HdmI2c) → IsHeld d → IsHeld (poison_at ch d)
poison_at-IsHeld rx d (h, i) = (
  λ k. omega (arith, h k, times-append k d.completed (poisoned d.list), times-poisoned k d.list),
  refl,
)
poison_at-IsHeld tx d h = h

set_open-IsHeld : (ch : I2cIndex) (d : HdmI2c) → IsHeld d → IsHeld (set_open ch true d)
set_open-IsHeld rx d h = (h.0, tt)
set_open-IsHeld tx d h = h

-- One call: of the core, of the work queue, or an interrupt.
pub data I2cStep : HdmI2c → HdmI2c → Type 0 where
  configures :
      (ch : I2cIndex) (cfg : Config) (d : HdmI2c) (ret : ℤ) (e : HdmI2c)
      → configure_i2c ch cfg d ≡ some (ret, e)
      → I2cStep d e
  enqueues :
      (ch : I2cIndex) (sends : ℤ) (m : I2cMbo) (d : HdmI2c) (ret : ℤ) (e : HdmI2c)
      → enqueue_i2c ch sends m d ≡ some (ret, e)
      → I2cStep d e
  poisons :
      (ch : I2cIndex) (d : HdmI2c) (ret : ℤ) (e : HdmI2c)
      → poison_i2c ch d ≡ some (ret, e)
      → I2cStep d e
  interrupts : (d : HdmI2c) → I2cStep d (most_irq_handler d)
  works :
      (pml : Option (ℕ × ℕ)) (msg : Option (ℕ → ℕ)) (rs : List RxRound) (d e : HdmI2c)
      → pending_rx_work pml msg rs d ≡ returned e
      → I2cStep d e

-- Calls one after the other.
pub data I2cSteps : HdmI2c → HdmI2c → Type 0 where
  no_step : (d : HdmI2c) → I2cSteps d d
  then_step : {a b c : HdmI2c} → I2cSteps a b → I2cStep b c → I2cSteps a c

abbrev HoldsSome : Option (ℤ × HdmI2c) → Type 0
HoldsSome none = Unit {0}
HoldsSome (some r) = IsHeld r.1

schedule-IsHeld : (b : Bool) (d : HdmI2c) → IsHeld d → IsHeld (if b then schedule_work d else d)
schedule-IsHeld true d h = h
schedule-IsHeld false d h = h

configure-HoldsSome :
    (ch : I2cIndex) (cfg : Config) (d : HdmI2c) → IsHeld d → HoldsSome (configure_i2c ch cfg d)
configure-HoldsSome ch cfg d h = elim (Bool-cases (is_open ch d)) [
  | inl o ↦ simp o tt
  | inr o ↦ elim (Bool-cases (not (cfg.data_type == ch_control))) [
    | inl x ↦ simp (o, x) h
    | inr x ↦ elim (Bool-cases (not (cfg.direction == direction_of ch))) [
      | inl y ↦ simp (o, x, y) h
      | inr y ↦
          let b = (cfg.direction == ch_rx) && d.polling_mode in
          simp (o, x, y)
            (set_open-IsHeld ch (if b then schedule_work d else d) (schedule-IsHeld b d h))
    ]
  ]
]

enqueue-HoldsSome :
    (ch : I2cIndex) (ret : ℤ) (m : I2cMbo) (d : HdmI2c)
    → IsHeld d
    → HoldsSome (enqueue_i2c ch ret m d)
enqueue-HoldsSome ch ret m d h = elim (Bool-cases (is_open ch d)) [
  | inl o ↦ simp o (enqueue_at-IsHeld ch ret m d o h)
  | inr o ↦ simp o tt
]

poison-HoldsSome : (ch : I2cIndex) (d : HdmI2c) → IsHeld d → HoldsSome (poison_i2c ch d)
poison-HoldsSome ch d h = elim (Bool-cases (is_open ch d)) [
  | inl o ↦ simp o (poison_at-IsHeld ch d h)
  | inr o ↦ simp o tt
]

step-IsHeld : {d e : HdmI2c} → I2cStep d e → IsHeld d → IsHeld e
step-IsHeld (configures ch cfg d ret e q) h = subst HoldsSome q (configure-HoldsSome ch cfg d h)
step-IsHeld (enqueues ch sends m d ret e q) h = subst HoldsSome q (enqueue-HoldsSome ch sends m d h)
step-IsHeld (poisons ch d ret e q) h = subst HoldsSome q (poison-HoldsSome ch d h)
step-IsHeld (interrupts d) h = h
step-IsHeld (works pml msg rs d e q) h =
    subst HoldsAfter q
      (then_after_work-IsHeld (do_rx_work pml msg rs d) (do_rx_work-IsHeld pml msg rs d h))

-- Over any calls of the core, interrupts and runs of the work, each of which returns, a buffer that
-- `enqueue` took over waits in the list or was completed, exactly once, and none waits where the channel
-- is closed.
pub steps-IsHeld : {d e : HdmI2c} → I2cSteps d e → IsHeld d → IsHeld e
steps-IsHeld (no_step d) h = h
steps-IsHeld (then_step xs x) h = step-IsHeld x (steps-IsHeld xs h)
