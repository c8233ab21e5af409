-- ===== src/Core/Channel/Copies.antt =====
-- How often a buffer stands in the lists of a channel: what each function does to that count. A
-- buffer that was freed still counts, so that a second `kfree` would show.
use unicens2_driver.Common.{
  ℕ, ◌+◌, ◌≡◌, refl, ap, Bool, Option, none, some, List, [], ◌∷◌, ◌++◌, ◌==◌, if◌then◌else◌, arith,
}
use unicens2_driver.Common.Int.{ℤ}
use unicens2_driver.Core.Types.{
  Mbo, Channel, Completion, read, write, Counter, dummy, of_aim0, of_aim1,
}
use unicens2_driver.Core.Channel.{
  most_free_mbo_coherent, free_all, flush_fifo, flush_halt_fifo, flush_channel_fifos,
  flush_trash_fifo, trash_mbo, nq_hdm_mbo, count_up, count_down, arm_mbo, level_up, level_down,
  most_put_mbo, most_write_completion, most_read_completion, get_first, most_get_mbo,
  most_submit_mbo, most_stop_enqueue, most_resume_enqueue, Round, stopped, idle, failed, passed,
  pass_on, hdm_enqueue_round, counter_of,
}

-- A weight for each buffer, which depends only on what no function changes.
abbrev pub Weight : Type 0
Weight = ℕ → Completion → ℕ

-- To count the buffer at one address, or those that complete as a write.
abbrev pub at : ℕ → Weight
at i a k = if a == i then 1 else 0

abbrev pub writers : Weight
writers a read = 0
writers a write = 1

abbrev pub one : Weight → Mbo → ℕ
one i m = i m.id m.complete

unfoldable pub copies : Weight → List Mbo → ℕ
copies i [] = 0
copies i (m ∷ ms) = one i m + copies i ms

pub copies-append :
    (i : Weight) (xs ys : List Mbo) → copies i (xs ++ ys) ≡ copies i xs + copies i ys
unfolding copies
copies-append i [] ys = omega arith
copies-append i (x ∷ xs) ys = omega (arith, copies-append i xs ys)

pub copies-cons : (i : Weight) (m : Mbo) (ms : List Mbo) → copies i (m ∷ ms) ≡ one i m + copies i ms
unfolding copies
copies-cons i m ms = refl

pub copies-middle :
    (i : Weight) (xs ys : List Mbo) (m : Mbo)
    → copies i (xs ++ m ∷ ys) ≡ one i m + copies i (xs ++ ys)
copies-middle i xs ys m =
    omega (arith, copies-append i xs (m ∷ ys), copies-append i xs ys, copies-cons i m ys)

pub copies-snoc :
    (i : Weight) (xs : List Mbo) (m : Mbo) → copies i (xs ++ m ∷ []) ≡ copies i xs + one i m
unfolding copies
copies-snoc i xs m = omega (arith, copies-append i xs (m ∷ []))

abbrev pub in_channel : Weight → Channel → ℕ
in_channel i c = copies i c.fifo + copies i c.halt_fifo + copies i c.trash_fifo + copies i c.freed

in_channel-free :
    (i : Weight) (m : Mbo) (c : Channel)
    → in_channel i (most_free_mbo_coherent m c) ≡ one i m + in_channel i c
unfolding most_free_mbo_coherent copies
in_channel-free i m c = omega arith

pub in_channel-free_all :
    (i : Weight) (ms : List Mbo) (c : Channel)
    → in_channel i (free_all ms c) ≡ copies i ms + in_channel i c
unfolding free_all copies
in_channel-free_all i [] c = omega arith
in_channel-free_all i (m ∷ ms) c =
    omega (arith, in_channel-free_all i ms (most_free_mbo_coherent m c), in_channel-free i m c)

in_channel-flush_fifo : (i : Weight) (c : Channel) → in_channel i (flush_fifo c) ≡ in_channel i c
unfolding flush_fifo copies
in_channel-flush_fifo i c = omega (arith, in_channel-free_all i c.fifo (record c { fifo = [] }))

in_channel-flush_halt :
    (i : Weight) (c : Channel) → in_channel i (flush_halt_fifo c) ≡ in_channel i c
unfolding flush_halt_fifo copies
in_channel-flush_halt i c =
    omega (arith, in_channel-free_all i c.halt_fifo (record c { halt_fifo = [] }))

pub in_channel-flush_fifos :
    (i : Weight) (c : Channel) → in_channel i (flush_channel_fifos c) ≡ in_channel i c
unfolding flush_channel_fifos
in_channel-flush_fifos i c =
    ground (arith, in_channel-flush_halt i (flush_fifo c), in_channel-flush_fifo i c)

pub in_channel-flush_trash :
    (i : Weight) (c : Channel) → in_channel i (flush_trash_fifo c) ≡ in_channel i c
unfolding flush_trash_fifo copies
in_channel-flush_trash i c =
    omega (arith, in_channel-free_all i c.trash_fifo (record c { trash_fifo = [] }))

pub in_channel-trash :
    (i : Weight) (m : Mbo) (c : Channel) → in_channel i (trash_mbo m c) ≡ one i m + in_channel i c
unfolding trash_mbo copies
in_channel-trash i m c = omega arith

pub in_channel-nq :
    (i : Weight) (m : Mbo) (c : Channel) → in_channel i (nq_hdm_mbo m c) ≡ one i m + in_channel i c
unfolding nq_hdm_mbo
in_channel-nq i m c = omega (arith, copies-snoc i c.halt_fifo m)

pub in_channel-count_up :
    (i : Weight) (k : Counter) (c : Channel) → in_channel i (count_up k c) ≡ in_channel i c
unfolding count_up
in_channel-count_up i dummy c = refl
in_channel-count_up i of_aim0 c = refl
in_channel-count_up i of_aim1 c = refl

pub in_channel-count_down :
    (i : Weight) (k : Counter) (c : Channel) → in_channel i (count_down k c) ≡ in_channel i c
unfolding count_down
in_channel-count_down i dummy c = refl
in_channel-count_down i of_aim0 c = refl
in_channel-count_down i of_aim1 c = refl

pub in_channel-arm :
    (i : Weight) (m : Mbo) (c : Channel) → in_channel i (arm_mbo m c) ≡ one i m + in_channel i c
unfolding arm_mbo copies
in_channel-arm i m c = ground (
  arith,
  in_channel-count_up i m.num_buffers_ptr c,
  copies-snoc i (count_up m.num_buffers_ptr c).fifo m,
)

pub in_channel-put :
    (i : Weight) (m : Mbo) (c : Channel)
    → in_channel i (most_put_mbo m c) ≡ one i m + in_channel i c
unfolding most_put_mbo level_up
in_channel-put i m c = ground (arith, in_channel-arm i m c, in_channel-nq i m c)

pub in_channel-write_completion :
    (i : Weight) (m : Mbo) (c : Channel)
    → in_channel i (most_write_completion m c) ≡ one i m + in_channel i c
unfolding most_write_completion
in_channel-write_completion i m c = ground (arith, in_channel-arm i m c, in_channel-trash i m c)

in_channel-level_down : (i : Weight) (c : Channel) → in_channel i (level_down c) ≡ in_channel i c
unfolding level_down
in_channel-level_down i c = refl

-- The buffer is in the channel again, unless an application module has kept it.
pub in_channel-read_completion :
    (rx : ℕ → Mbo → ℤ) (i : Weight) (m : Mbo) (c : Channel)
    → let (d, kept) = most_read_completion rx m c in
      in_channel i d ≡ (if kept then 0 else one i m) + in_channel i c
unfolding most_read_completion level_up
in_channel-read_completion rx i m c = ground (
  arith,
  in_channel-trash i m c,
  in_channel-nq i m c,
  in_channel-level_down i c,
  in_channel-put i m (level_down c),
)

abbrev pub taken : Weight → Option Mbo → ℕ
taken i none = 0
taken i (some m) = one i m

get_first-taken :
    (i : Weight) (k : Counter) (ms : List Mbo) (c : Channel)
    → c.fifo ≡ ms
    → let (m, d) = get_first k ms c in taken i m + in_channel i d ≡ in_channel i c
unfolding get_first copies
get_first-taken i k [] c e = omega arith
get_first-taken i k (m ∷ ms) c e =
    omega (arith, in_channel-count_down i k (record c { fifo = ms }), ap (copies i) e)

-- What `most_get_mbo` hands out has left the channel.
pub in_channel-get :
    (i : Weight) (aim : ℕ) (c : Channel)
    → let (m, d) = most_get_mbo aim c in taken i m + in_channel i d ≡ in_channel i c
unfolding most_get_mbo
in_channel-get i aim c = ground (arith, get_first-taken i (counter_of aim c) c.fifo c refl)

abbrev pub passed_copies : Weight → Round → ℕ
passed_copies i (passed m) = one i m
passed_copies i stopped = 0
passed_copies i idle = 0
passed_copies i failed = 0

pass_on-copies :
    (i : Weight) (enqueue : Mbo → ℤ) (ms : List Mbo) (c : Channel)
    → c.halt_fifo ≡ ms
    → let (r, d) = pass_on enqueue ms c in passed_copies i r + in_channel i d ≡ in_channel i c
unfolding pass_on copies nq_hdm_mbo
pass_on-copies i enqueue [] c e = omega arith
pass_on-copies i enqueue (m ∷ ms) c e = ground (
  arith,
  ap (copies i) e,
  copies-snoc i ms m,
  copies-snoc i ms (record m { buffer_length = c.cfg.buffer_size }),
)

-- A round of the thread loses no buffer, also where `enqueue` fails.
pub in_channel-round :
    (i : Weight) (stop : Bool) (enqueue : Mbo → ℤ) (c : Channel)
    → let (r, d) = hdm_enqueue_round stop enqueue c in
      passed_copies i r + in_channel i d ≡ in_channel i c
unfolding hdm_enqueue_round
in_channel-round i stop enqueue c = ground (arith, pass_on-copies i enqueue c.halt_fifo c refl)

pub in_channel-submit :
    (i : Weight) (m : Mbo) (c : Channel)
    → in_channel i (most_submit_mbo (some m) c) ≡ one i m + in_channel i c
unfolding most_submit_mbo
in_channel-submit i m c = in_channel-nq i m c

pub in_channel-halt :
    (i : Weight) (c : Channel) → in_channel i (most_stop_enqueue c) ≡ in_channel i c
unfolding most_stop_enqueue
in_channel-halt i c = refl

pub in_channel-resume :
    (i : Weight) (c : Channel) → in_channel i (most_resume_enqueue c) ≡ in_channel i c
unfolding most_resume_enqueue
in_channel-resume i c = refl
