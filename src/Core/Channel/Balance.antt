-- ===== src/Core/Channel/Balance.antt =====
-- The shares of a Tx channel: what each function does to a link's counter together with the buffers
-- on the lists that are charged to it. Those in the pool carry a stale charge and do not count.
use unicens2_driver.Common.{
  ℕ, ◌+◌, ◌≡◌, refl, ap, Bool, true, false, Option, none, some, List, [], ◌∷◌, ◌++◌, if◌then◌else◌,
  arith,
}
use unicens2_driver.Common.Int.{ℤ, ◌+ℤ◌, ◌-ℤ◌, pos_part, neg_part}
use unicens2_driver.Core.Types.{Mbo, Channel, Counter, dummy, of_aim0, of_aim1, ch_tx}
use unicens2_driver.Core.Channel.{
  trash_mbo, nq_hdm_mbo, count_up, count_down, arm_mbo, most_submit_mbo, level_up, level_down,
  most_put_mbo, most_write_completion, most_read_completion, get_first, most_get_mbo, counter_of,
  Round, stopped, idle, failed, passed, pass_on, hdm_enqueue_round, most_stop_enqueue,
  most_resume_enqueue,
}

abbrev pub same_counter : Counter → Counter → Bool
same_counter dummy dummy = true
same_counter of_aim0 of_aim0 = true
same_counter of_aim1 of_aim1 = true
same_counter _ _ = false

abbrev pub charge : Counter → Mbo → ℕ
charge k m = if same_counter k m.num_buffers_ptr then 1 else 0

unfoldable pub charged : Counter → List Mbo → ℕ
charged k [] = 0
charged k (m ∷ ms) = charge k m + charged k ms

pub charged-append :
    (k : Counter) (xs ys : List Mbo) → charged k (xs ++ ys) ≡ charged k xs + charged k ys
unfolding charged
charged-append k [] ys = omega arith
charged-append k (x ∷ xs) ys = omega (arith, charged-append k xs ys)

pub charged-cons :
    (k : Counter) (m : Mbo) (ms : List Mbo) → charged k (m ∷ ms) ≡ charge k m + charged k ms
unfolding charged
charged-cons k m ms = refl

pub charged-middle :
    (k : Counter) (xs ys : List Mbo) (m : Mbo)
    → charged k (xs ++ m ∷ ys) ≡ charge k m + charged k (xs ++ ys)
charged-middle k xs ys m =
    omega (arith, charged-append k xs (m ∷ ys), charged-append k xs ys, charged-cons k m ys)

charged-snoc :
    (k : Counter) (xs : List Mbo) (m : Mbo) → charged k (xs ++ m ∷ []) ≡ charged k xs + charge k m
unfolding charged
charged-snoc k xs m = omega (arith, charged-append k xs (m ∷ []))

-- The counter that `num_buffers_ptr` names.
abbrev pub count_of : Counter → Channel → ℤ
count_of dummy c = c.dummy_num_buffers
count_of of_aim0 c = c.aim0.num_buffers
count_of of_aim1 c = c.aim1.num_buffers

abbrev pub on_lists_of : Counter → Channel → ℕ
on_lists_of k c = charged k c.halt_fifo + charged k c.trash_fifo

-- Two channels whose counter and lists differ by `n` charged buffers, put without subtraction: the
-- counter of `d` and its lists together stand for `n` more than those of `c`.
abbrev pub Adds : Counter → ℕ → Channel → Channel → Type 0
Adds k n c d =
    pos_part (count_of k d) + neg_part (count_of k c) + on_lists_of k d
    ≡ pos_part (count_of k c) + neg_part (count_of k d) + on_lists_of k c + n

abbrev pub taken : Counter → Option Mbo → ℕ
taken k none = 0
taken k (some m) = charge k m

abbrev pub passed_charge : Counter → Round → ℕ
passed_charge k (passed m) = charge k m
passed_charge k stopped = 0
passed_charge k idle = 0
passed_charge k failed = 0

count_up-Adds :
    (k j : Counter) (c : Channel) → Adds k (if same_counter k j then 1 else 0) c (count_up j c)
unfolding count_up ◌+ℤ◌
count_up-Adds dummy j c = ground arith
count_up-Adds of_aim0 j c = ground arith
count_up-Adds of_aim1 j c = ground arith

count_down-Adds :
    (k j : Counter) (c : Channel) → Adds k (if same_counter k j then 1 else 0) (count_down j c) c
unfolding count_down ◌-ℤ◌
count_down-Adds dummy j c = ground arith
count_down-Adds of_aim0 j c = ground arith
count_down-Adds of_aim1 j c = ground arith

trash-Adds : (k : Counter) (m : Mbo) (c : Channel) → Adds k (charge k m) c (trash_mbo m c)
unfolding trash_mbo
trash-Adds dummy m c = omega (arith, charged-cons dummy m c.trash_fifo)
trash-Adds of_aim0 m c = omega (arith, charged-cons of_aim0 m c.trash_fifo)
trash-Adds of_aim1 m c = omega (arith, charged-cons of_aim1 m c.trash_fifo)

nq-Adds : (k : Counter) (m : Mbo) (c : Channel) → Adds k (charge k m) c (nq_hdm_mbo m c)
unfolding nq_hdm_mbo
nq-Adds dummy m c = omega (arith, charged-snoc dummy c.halt_fifo m)
nq-Adds of_aim0 m c = omega (arith, charged-snoc of_aim0 c.halt_fifo m)
nq-Adds of_aim1 m c = omega (arith, charged-snoc of_aim1 c.halt_fifo m)

pub submit-Adds :
    (k : Counter) (m : Mbo) (c : Channel) → Adds k (charge k m) c (most_submit_mbo (some m) c)
unfolding most_submit_mbo
submit-Adds k m c = nq-Adds k m c

arm-Adds : (k : Counter) (m : Mbo) (c : Channel) → Adds k (charge k m) c (arm_mbo m c)
unfolding arm_mbo
arm-Adds dummy m c = ground (arith, trash-Adds dummy m c, count_up-Adds dummy m.num_buffers_ptr c)
arm-Adds of_aim0 m c =
    ground (arith, trash-Adds of_aim0 m c, count_up-Adds of_aim0 m.num_buffers_ptr c)
arm-Adds of_aim1 m c =
    ground (arith, trash-Adds of_aim1 m c, count_up-Adds of_aim1 m.num_buffers_ptr c)

-- On a Tx channel.
module _ (k : Counter) (m : Mbo) (c : Channel) (tx : c.cfg.direction ≡ ch_tx) where
  pub put-Adds : Adds k (charge k m) c (most_put_mbo m c)
  unfolding most_put_mbo
  put-Adds = ground (arith, arm-Adds k m c)

  pub write-Adds : Adds k (charge k m) c (most_write_completion m c)
  unfolding most_write_completion
  write-Adds = ground (arith, arm-Adds k m c, trash-Adds k m c)

  -- A read completion that an application module keeps adds nothing to the lists.
  pub read-Adds :
      (rx : ℕ → Mbo → ℤ)
      → let (d, kept) = most_read_completion rx m c in Adds k (if kept then 0 else charge k m) c d
  unfolding most_read_completion level_up level_down most_put_mbo
  read-Adds rx = ground (arith, arm-Adds k m (level_down c), trash-Adds k m c, nq-Adds k m c)

get_first-Adds :
    (k j : Counter) (ms : List Mbo) (c : Channel)
    → c.fifo ≡ ms
    → let (m, d) = get_first j ms c in Adds k (taken k m) d c
unfolding get_first
get_first-Adds k j [] c e = omega arith
get_first-Adds k j (m ∷ ms) c e = ground (arith, count_down-Adds k j (record c { fifo = ms }))

-- What `most_get_mbo` hands out is charged to the counter that it went down by.
pub get-Adds :
    (k : Counter) (aim : ℕ) (c : Channel)
    → let (m, d) = most_get_mbo aim c in Adds k (taken k m) d c
unfolding most_get_mbo
get-Adds k aim c = ground (arith, get_first-Adds k (counter_of aim c) c.fifo c refl)

pass_on-Adds :
    (k : Counter) (enqueue : Mbo → ℤ) (ms : List Mbo) (c : Channel)
    → c.halt_fifo ≡ ms
    → let (r, d) = pass_on enqueue ms c in Adds k (passed_charge k r) d c
unfolding pass_on nq_hdm_mbo
pass_on-Adds k enqueue [] c e = omega arith
pass_on-Adds k enqueue (m ∷ ms) c e = ground (
  arith,
  ap (charged k) e,
  charged-cons k m ms,
  charged-snoc k ms m,
  charged-snoc k ms (record m { buffer_length = c.cfg.buffer_size }),
)

pub round-Adds :
    (k : Counter) (stop : Bool) (enqueue : Mbo → ℤ) (c : Channel)
    → let (r, d) = hdm_enqueue_round stop enqueue c in Adds k (passed_charge k r) d c
unfolding hdm_enqueue_round
round-Adds k stop enqueue c = ground (arith, pass_on-Adds k enqueue c.halt_fifo c refl)

pub halt-Adds : (k : Counter) (c : Channel) → Adds k 0 c (most_stop_enqueue c)
unfolding most_stop_enqueue
halt-Adds dummy c = omega arith
halt-Adds of_aim0 c = omega arith
halt-Adds of_aim1 c = omega arith

pub resume-Adds : (k : Counter) (c : Channel) → Adds k 0 c (most_resume_enqueue c)
unfolding most_resume_enqueue
resume-Adds dummy c = omega arith
resume-Adds of_aim0 c = omega arith
resume-Adds of_aim1 c = omega arith
