-- ===== src/Cdev/Write.antt =====
-- aim-cdev/cdev.c, `aim_write`: what is written goes to the buffers as one sequence of bytes.
use unicens2_driver.Common.{
  ℕ, ◌+◌, ◌-◌, ◌^◌, ◌≤◌, ◌<◌, ◌≡◌, refl, sym, ◌∙◌, ap, arith, Bool, true, false, ◌||◌, Option, none,
  some, List, [], ◌∷◌, ◌++◌, ◌==◌, leb, if◌then◌else◌, length, length-append, inl, inr, Bool-cases,
}
use mathlib.Core.Path.{subst}
use unicens2_driver.Common.Int.{ℤ, pos_part}
use unicens2_driver.Core.Types.{eagain}
use unicens2_driver.Core.Text.{take, take-all}
use unicens2_driver.Cdev.{
  CdevMbo, CdevChannel, WriteRound, gave, nothing, woken, interrupted, gone, Waited, ready, ended,
  waiting, Wake, with_first, after_wake, write_wait, write_size, is_packet, write_mbo, aim_write,
}
use unicens2_driver.Cdev.Bytes.{bytes_of, append_nil, append_assoc, bytes_of-append, length-take}

-- All bytes that went to the channel so far.
abbrev pub written : CdevChannel → List ℕ
written c = bytes_of c.submitted ++ bytes_of c.fifo

-- The buffer that is filled holds as many bytes as the offset says, less than a whole buffer.
abbrev pub IsFilling : CdevChannel → List CdevMbo → Type 0
IsFilling c [] = c.mbo_offs ≡ 0
IsFilling c (m ∷ ms) = (length m.bytes ≡ c.mbo_offs) × (ms ≡ [])

abbrev pub IsWriting : CdevChannel → Type 0
IsWriting c =
    (1 ≤ c.cfg.buffer_size)
    × (c.mbo_offs < c.cfg.buffer_size)
    × (c.cfg.buffer_size < 2 ^ 16)
    × IsFilling c c.fifo

-- What is true after some of `buf` was written: the bytes that the result counts were added, and no
-- others.
abbrev pub Adds : List ℕ → CdevChannel → ℤ × CdevChannel → Type 0
Adds buf c r = (written r.1 ≡ written c ++ take (pos_part r.0) buf) × IsWriting r.1

open_end : (s m t : List ℕ) → s ++ ((m ++ t) ++ []) ≡ (s ++ (m ++ [])) ++ t
open_end s m t = simp (append_nil, append_assoc)

closed :
    (ms : List CdevMbo) (f : CdevMbo) (m t : List ℕ)
    → f.bytes ≡ m ++ t
    → bytes_of (ms ++ f ∷ []) ++ [] ≡ (bytes_of ms ++ (m ++ [])) ++ t
closed ms f m t e = simp (bytes_of-append, e, append_nil, append_assoc)

fills :
    (o n : ℕ) (buf m : List ℕ)
    → length m ≡ o
    → n ≤ length buf
    → length m + length (take n buf) ≡ o + n
fills o n buf m h l = omega (arith, h, length-take n buf l)

shorter : (left : ℕ) (buf : List ℕ) (c : CdevChannel) → write_size buf c - left ≤ length buf
shorter left buf c = ground arith

write_mbo-Adds :
    (left : ℕ) (buf : List ℕ) (m : CdevMbo) (c : CdevChannel)
    → IsWriting (record c { fifo = m ∷ [] })
    → Adds buf (record c { fifo = m ∷ [] }) (write_mbo left buf m [] c)
unfolding write_mbo
write_mbo-Adds left buf m c (b, o, s, (l, e)) =
    let n = write_size buf c - left in
    let filled = record m { bytes = m.bytes ++ take n buf } in
    let k : take c.mbo_offs m.bytes ≡ m.bytes = take-all c.mbo_offs m.bytes (omega (arith, l)) in
    elim (Bool-cases (left == write_size buf c)) [
      | inl x ↦
          simp (x, write_mbo)
            (sym (append_nil (bytes_of c.submitted ++ (m.bytes ++ []))), (b, o, s, (l, refl)))
      | inr x ↦ elim (Bool-cases (leb c.cfg.buffer_size (c.mbo_offs + n) || is_packet c.cfg)) [
        | inl y ↦
            simp (x, y, k, write_mbo)
              (closed c.submitted filled m.bytes (take n buf) refl, (b, b, s, refl))
        | inr y ↦
            simp (x, y, k, write_mbo)
              (
                open_end (bytes_of c.submitted) m.bytes (take n buf),
                (
                  b,
                  ground (arith, y),
                  s,
                  (
                    length-append m.bytes (take n buf)
                        ∙ fills c.mbo_offs n buf m.bytes l (shorter left buf c),
                    refl,
                  ),
                ),
              )
      ]
    ]

-- The channel when the loop of `aim_write` ends with a buffer, and otherwise.
abbrev Waits : CdevChannel → Waited → Type 0
Waits c (ready m ms d) =
    (ms ≡ [])
    × (written (record d { fifo = m ∷ [] }) ≡ written c)
    × IsWriting (record d { fifo = m ∷ [] })
Waits c (ended e d) = (written d ≡ written c) × IsWriting d × (pos_part e ≡ 0)
Waits c (waiting d) = (written d ≡ written c) × IsWriting d

with_first-Waits :
    (fs : List CdevMbo) (c : CdevChannel) (o : Waited)
    → c.fifo ≡ fs
    → IsWriting c
    → (fs ≡ [] → Waits c o)
    → Waits c (with_first fs c o)
with_first-Waits [] c o e h k = k refl
with_first-Waits (m ∷ ms) c o e (b, l, s, f) k =
    let (x, y) : IsFilling c (m ∷ ms) = subst (IsFilling c) e f in
    (
      y,
      ap (λ fs. bytes_of c.submitted ++ bytes_of fs) (sym (e ∙ ap (λ us. m ∷ us) y)),
      (b, l, s, (x, refl)),
    )

write_wait-Waits :
    (nonblock : Bool) (rs : List WriteRound) (c : CdevChannel)
    → IsWriting c
    → Waits c (write_wait nonblock rs c)
unfolding write_wait
write_wait-Waits nonblock [] c h = elim (Bool-cases c.has_dev) [
  | inr e ↦ simp (e, write_wait) (refl, h, refl)
  | inl e ↦ simp (e, write_wait) (with_first-Waits c.fifo c (waiting c) refl h (λ z. (refl, h)))
]
write_wait-Waits nonblock (gave id ∷ rs) c h = elim (Bool-cases c.has_dev) [
  | inr e ↦ simp (e, write_wait) (refl, h, refl)
  | inl e ↦
      simp (e, write_wait)
        (with_first-Waits c.fifo c (ready (record { id = id; bytes = [] }) [] c) refl h (fresh c h))
]
  where
    fresh :
        (c : CdevChannel)
        → IsWriting c
        → c.fifo ≡ []
        → Waits c (ready (record { id = id; bytes = [] }) [] c)
    fresh c (b, l, s, f) e =
        let x : IsFilling c [] = subst (IsFilling c) e f in
        (refl, ap (λ fs. bytes_of c.submitted ++ bytes_of fs) (sym e), (b, l, s, (sym x, refl)))
write_wait-Waits nonblock (nothing w ∷ rs) c h = elim (Bool-cases c.has_dev) [
  | inr e ↦ simp (e, write_wait) (refl, h, refl)
  | inl e ↦
      let again = write_wait-Waits nonblock rs c h in
      let left = write_wait-Waits nonblock rs (record c { has_dev = false }) h in
      simp (e, write_wait)
        (with_first-Waits c.fifo c
          (if nonblock
            then ended eagain c
            else after_wake w c (write_wait nonblock rs c)
                (write_wait nonblock rs (record c { has_dev = false })))
          refl h (λ z. woken_up nonblock w again left))
]
  where
    woken_up :
        (nb : Bool) (w : Wake)
        → Waits c (write_wait nonblock rs c)
        → Waits
            (record c { has_dev = false })
            (write_wait nonblock rs (record c { has_dev = false }))
        → Waits c (
            if nb
            then ended eagain c
            else after_wake w c
                (write_wait nonblock rs c)
                (write_wait nonblock rs (record c { has_dev = false })))
    woken_up true w x y = (refl, h, refl)
    woken_up false woken x y = x
    woken_up false interrupted x y = (refl, h, refl)
    woken_up false gone x y = other (write_wait nonblock rs (record c { has_dev = false })) y
      where
        other : (o : Waited) → Waits (record c { has_dev = false }) o → Waits c o
        other (ready m ms d) k = k
        other (ended e d) k = k
        other (waiting d) k = k

abbrev pub count_of : Option ℤ → ℕ
count_of none = 0
count_of (some z) = pos_part z

write-Adds :
    (nonblock : Bool) (left : ℕ) (rounds : List WriteRound) (buf : List ℕ) (c : CdevChannel)
    → IsWriting c
    → let (ret, d) = aim_write nonblock left rounds buf c in
      (written d ≡ written c ++ take (count_of ret) buf) × IsWriting d
unfolding aim_write
write-Adds nonblock left rounds buf c h =
    go (write_wait nonblock rounds c) (write_wait-Waits nonblock rounds c h)
  where
    go :
        (o : Waited)
        → Waits c o
        → let (ret, d) : Option ℤ × CdevChannel = elim o [
          | waiting d ↦ (none, d)
          | ended e d ↦ (some e, d)
          | ready m ms d ↦ let (ret, e) = write_mbo left buf m ms d in (some ret, e)
        ] in
          (written d ≡ written c ++ take (count_of ret) buf) × IsWriting d
    go (waiting d) (e, k) = (e ∙ sym (append_nil (written c)), k)
    go (ended z d) (e, k, q) = (rw q (e ∙ sym (append_nil (written c))), k)
    go (ready m ms d) (q, e, k) =
        let (x, y) = write_mbo-Adds left buf m d k in
        rw q (x ∙ ap (λ us. us ++ take (pos_part (write_mbo left buf m [] d).0) buf) e, y)

-- The arguments of one `aim_write`.
pub record WriteCall : Type 0 where
  pub nonblock : Bool
  pub left : ℕ
  pub rounds : List WriteRound
  pub buf : List ℕ

-- Calls of `aim_write` one after the other: the bytes that their results count, and the channel.
abbrev pub writes : List WriteCall → CdevChannel → List ℕ × CdevChannel
writes [] c = ([], c)
writes (w ∷ ws) c =
    let (ret, d) = aim_write w.nonblock w.left w.rounds w.buf c in
    let (bs, e) = writes ws d in (take (count_of ret) w.buf ++ bs, e)

-- Over any sequence of writes, whatever is copied from user space and however the waits end, the buffers
-- that were submitted and the one that is filled hold exactly the bytes that the results of the calls
-- count, in order.
pub writes-written :
    (ws : List WriteCall) (c : CdevChannel)
    → IsWriting c
    → let (bs, d) = writes ws c in (written d ≡ written c ++ bs) × IsWriting d
writes-written [] c h = (sym (append_nil (written c)), h)
writes-written (w ∷ ws) c h =
    let (ret, d) = aim_write w.nonblock w.left w.rounds w.buf c in
    let (x, y) = write-Adds w.nonblock w.left w.rounds w.buf c h in
    let (u, v) = writes-written ws d y in
    (
      u
          ∙ ap (λ us. us ++ (writes ws d).0) x
          ∙ append_assoc (written c) (take (count_of ret) w.buf) (writes ws d).0,
      v,
    )
