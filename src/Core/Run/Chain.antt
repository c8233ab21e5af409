-- ===== src/Core/Run/Chain.antt =====
-- `arm_mbo_chain`: the buffers that it allocates go to one list, and its result counts them.
use mathlib.Core.Path.{subst}
use unicens2_driver.Common.{
  ℕ, zero, suc, ◌+◌, ◌-◌, ◌≡◌, ◌≤◌, refl, true, false, ◌==◌, arith, ◌⊎◌, inl, inr,
}
use unicens2_driver.Common.Int.{pos, ◌+ℤ◌}
use unicens2_driver.Core.Types.{Channel, Completion, ch_rx}
use unicens2_driver.Core.Channel.Arm.{Queued, nq-Queued, Pooled, arm-Pooled}
use unicens2_driver.Core.Run.{
  Memory, got, no_mbo, no_buffer, new_mbo, arm_one, arm_loop, arm_mbo_chain,
}

Queued-trans : (j k : ℕ) (c d e : Channel) → Queued j c d → Queued k d e → Queued (j + k) c e
unfolding ◌+ℤ◌
Queued-trans j k c d e p q = ground arith

Queued-zero : (c : Channel) → Queued 0 c c
unfolding ◌+ℤ◌
Queued-zero c = ground arith

Pooled-trans : (j k : ℕ) (c d e : Channel) → Pooled j c d → Pooled k d e → Pooled (j + k) c e
Pooled-trans j k c d e p q = ground arith

Pooled-zero : (c : Channel) → Pooled 0 c c
Pooled-zero c = ground arith

-- The result counts the rounds that were made, each of which armed one buffer.
pub record Rounds (P : ℕ → Channel → Channel → Type 0) (n i : ℕ) (c : Channel) (r : ℕ × Channel)
    : Type 0 where
  pub low : i ≤ r.0
  pub high : r.0 ≤ i + n
  pub armed : P (r.0 - i) c r.1

Memory-cases : (x : Memory) → ((a : ℕ) × (x ≡ got a)) ⊎ ((x ≡ no_mbo) ⊎ (x ≡ no_buffer))
Memory-cases (got a) = inl (a, refl)
Memory-cases no_mbo = inr (inl refl)
Memory-cases no_buffer = inr (inr refl)

-- The rule of the loop, for a property that one round adds to.
module _ (P : ℕ → Channel → Channel → Type 0) (IsGood : Channel → Type 0)
    (done : (c : Channel) → P 0 c c)
    (join : (j k : ℕ) (c d e : Channel) → P j c d → P k d e → P (j + k) c e) (mem : ℕ → Memory)
    (dir : ℕ) (compl : Completion)
    (round : (a : ℕ) (c : Channel)
      → IsGood c
      → P 1 c (arm_one dir compl a c) × IsGood (arm_one dir compl a c)) where
  Rounds-none : (n i : ℕ) (c : Channel) → Rounds P n i c (i, c)
  Rounds-none n i c = record {
    low = omega arith;
    high = omega arith;
    armed = subst (λ k. P k c c) (omega arith) (done c);
  }

  Rounds-next :
      (n i : ℕ) (c d : Channel) (r : ℕ × Channel)
      → P 1 c d
      → Rounds P n (i + 1) d r
      → Rounds P (suc n) i c r
  Rounds-next n i c d r p v = record {
    low = omega arith;
    high = omega arith;
    armed = subst (λ k. P k c r.1) (omega arith) (join 1 (r.0 - (i + 1)) c d r.1 p v.armed);
  }

  pub arm_loop-Rounds :
      (n i : ℕ) (c : Channel) → IsGood c → Rounds P n i c (arm_loop mem dir compl n i c)
  unfolding arm_loop
  arm_loop-Rounds zero i c g = Rounds-none zero i c
  arm_loop-Rounds (suc n) i c g = elim (Memory-cases (mem i)) [
    | inl (a, e) ↦
        rw (e, arm_loop)
          (Rounds-next n i c (arm_one dir compl a c) _ (round a c g).0
            (arm_loop-Rounds n (i + 1) (arm_one dir compl a c) (round a c g).1))
    | inr (inl e) ↦ rw (e, arm_loop) (Rounds-none (suc n) i c)
    | inr (inr e) ↦ rw (e, arm_loop) (Rounds-none (suc n) i c)
  ]

-- With every allocation answered the loop makes all its rounds.
abbrev pub Provides : (ℕ → Memory) → ℕ → ℕ → Type 0
Provides mem i zero = Unit {0}
Provides mem i (suc n) = ((a : ℕ) × (mem i ≡ got a)) × Provides mem (i + 1) n

pub arm_loop_all :
    (mem : ℕ → Memory) (dir : ℕ) (compl : Completion) (n i : ℕ) (c : Channel)
    → Provides mem i n
    → (arm_loop mem dir compl n i c).0 ≡ i + n
unfolding arm_loop
arm_loop_all mem dir compl zero i c h = omega arith
arm_loop_all mem dir compl (suc n) i c ((a, e), h) =
    rw (e, arm_loop) (omega (arith, arm_loop_all mem dir compl n (i + 1) (arm_one dir compl a c) h))

arm_one-Queued :
    (dir a : ℕ) (compl : Completion) (c : Channel)
    → (dir == ch_rx) ≡ true
    → Queued 1 c (arm_one dir compl a c)
unfolding arm_one
arm_one-Queued dir a compl c h = ground (arith, nq-Queued (new_mbo a compl c) c)

arm_one-Pooled :
    (dir a : ℕ) (compl : Completion) (c : Channel)
    → (dir == ch_rx) ≡ false
    → c.is_poisoned ≡ false
    → Pooled 1 c (arm_one dir compl a c)
unfolding arm_one
arm_one-Pooled dir a compl c h e = ground (arith, arm-Pooled (new_mbo a compl c) c)

from_zero :
    (P : ℕ → Channel → Channel → Type 0) {n : ℕ} {c : Channel} {r : ℕ × Channel}
    → Rounds P n 0 c r
    → P r.0 c r.1 × (r.0 ≤ n)
from_zero P {n} {c} {r} v = (subst (λ k. P k c r.1) (omega arith) v.armed, omega arith)

abbrev pub fresh_level : Channel → Channel
fresh_level c = record c { mbo_nq_level = pos 0 }

-- The chain of an Rx channel puts as many buffers on `halt_fifo` as it returns.
pub arm_mbo_chain-Queued :
    (mem : ℕ → Memory) (dir : ℕ) (compl : Completion) (c : Channel)
    → (dir == ch_rx) ≡ true
    → let (n, d) = arm_mbo_chain mem dir compl c in
      Queued n (fresh_level c) d × (n ≤ c.cfg.num_buffers)
unfolding arm_mbo_chain
arm_mbo_chain-Queued mem dir compl c h = from_zero Queued (
    arm_loop-Rounds Queued (λ _. Unit {0}) Queued-zero Queued-trans mem dir compl
      (λ a d _. (arm_one-Queued dir a compl d h, tt)) c.cfg.num_buffers 0 (fresh_level c) tt)

-- That of any other channel puts them on `fifo`.
pub arm_mbo_chain-Pooled :
    (mem : ℕ → Memory) (dir : ℕ) (compl : Completion) (c : Channel)
    → (dir == ch_rx) ≡ false
    → c.is_poisoned ≡ false
    → let (n, d) = arm_mbo_chain mem dir compl c in
      Pooled n (fresh_level c) d × (n ≤ c.cfg.num_buffers)
unfolding arm_mbo_chain
arm_mbo_chain-Pooled mem dir compl c h e = from_zero Pooled (
    arm_loop-Rounds Pooled (λ d. d.is_poisoned ≡ false) Pooled-zero Pooled-trans mem dir compl
      (λ a d g. let p = arm_one-Pooled dir a compl d h g in (p, ground (arith, p)))
      c.cfg.num_buffers 0 (fresh_level c) e)

pub arm_mbo_chain_all :
    (mem : ℕ → Memory) (dir : ℕ) (compl : Completion) (c : Channel)
    → Provides mem 0 c.cfg.num_buffers
    → (arm_mbo_chain mem dir compl c).0 ≡ c.cfg.num_buffers
unfolding arm_mbo_chain
arm_mbo_chain_all mem dir compl c h =
    omega (arith, arm_loop_all mem dir compl c.cfg.num_buffers 0 (fresh_level c) h)
