-- ===== src/Cdev/Read.antt =====
-- aim-cdev/cdev.c, `aim_read` and `aim_rx_completion`: what is received is read as one sequence of bytes.
use unicens2_driver.Common.{
  ℕ, ◌+◌, ◌-◌, ◌^◌, ◌≤◌, ◌<◌, ◌≡◌, refl, sym, ◌∙◌, ap, arith, Bool, true, false, not, ◌||◌, Option,
  none, some, List, [], ◌∷◌, ◌++◌, leb, if◌then◌else◌, length, inl, inr, Bool-cases,
}
use unicens2_driver.Common.Int.{ℤ, pos}
use unicens2_driver.Core.Types.{eagain}
use unicens2_driver.Core.Text.{take}
use unicens2_driver.Cdev.{
  CdevMbo, CdevChannel, Wake, woken, interrupted, gone, Arrival, came, none_came, Waited, ready,
  ended, waiting, with_first, after_wake, aim_rx_completion, read_wait, minus64, min, read_mbo,
  aim_read, drop,
}
use unicens2_driver.Cdev.Bytes.{
  bytes_of, append_nil, append_assoc, bytes_of-append, split_at, drop-all,
}

-- The bytes of the fifo that were not read yet.
abbrev pub unread_of : ℕ → List CdevMbo → List ℕ
unread_of offs [] = []
unread_of offs (m ∷ ms) = drop offs m.bytes ++ bytes_of ms

-- The offset is inside the first buffer, and lengths have 16 bits.
abbrev pub IsInside : ℕ → List CdevMbo → Type 0
IsInside offs [] = offs ≡ 0
IsInside offs (m ∷ ms) = (offs ≤ length m.bytes) × (length m.bytes < 2 ^ 16)

abbrev pub AreSmall : List CdevMbo → Type 0
AreSmall [] = Unit {0}
AreSmall (m ∷ ms) = (length m.bytes < 2 ^ 16) × AreSmall ms

-- `total` was read so far, and the rest of what was received is in the fifo.
abbrev pub IsReading : List ℕ → CdevChannel → Type 0
IsReading total c =
    (bytes_of c.received ≡ total ++ unread_of c.mbo_offs c.fifo)
    × IsInside c.mbo_offs c.fifo
    × AreSmall c.fifo

next-IsInside : (ms : List CdevMbo) → AreSmall ms → IsInside 0 ms
next-IsInside [] h = refl
next-IsInside (m ∷ ms) h = (omega arith, h.0)

unread_next : (ms : List CdevMbo) → unread_of 0 ms ≡ bytes_of ms
unread_next [] = refl
unread_next (m ∷ ms) = refl

regroup : (t d g r b : List ℕ) → d ≡ g ++ r → t ++ (d ++ b) ≡ (t ++ g) ++ (r ++ b)
regroup t d g r b e = rw e (simp append_assoc)

read_mbo-IsReading :
    (not_copied count : ℕ) (m : CdevMbo) (ms : List CdevMbo) (c : CdevChannel) (total : List ℕ)
    → c.fifo ≡ m ∷ ms
    → IsReading total (record c { fifo = m ∷ ms })
    → let (n, given, d) = read_mbo not_copied count m ms c in IsReading (total ++ given) d
unfolding read_mbo
read_mbo-IsReading not_copied count m ms c total f (e, (i, s), (l, a)) =
    let n = min count (minus64 (length m.bytes) c.mbo_offs) - not_copied in
    let given = take n (drop c.mbo_offs m.bytes) in
    let k = split_at c.mbo_offs n m.bytes in
    elim (Bool-cases (leb (length m.bytes) (c.mbo_offs + n))) [
      | inl x ↦
          let z : drop (c.mbo_offs + n) m.bytes ≡ [] =
            drop-all (c.mbo_offs + n) m.bytes (ground (arith, x)) in
          let v : total ++ (drop c.mbo_offs m.bytes ++ bytes_of ms)
              ≡ (total ++ given) ++ bytes_of ms =
            regroup total (drop c.mbo_offs m.bytes) given [] (bytes_of ms)
              (k ∙ ap (λ us. given ++ us) z) in
          simp (x, read_mbo)
            (
              e ∙ v ∙ ap (λ us. (total ++ given) ++ us) (sym (unread_next ms)),
              next-IsInside ms a,
              a,
            )
      | inr x ↦
          simp (x, f, read_mbo)
            (
              e
                  ∙ regroup total (drop c.mbo_offs m.bytes) given (drop (c.mbo_offs + n) m.bytes)
                      (bytes_of ms) k,
              (ground (arith, x), s),
              (l, a),
            )
    ]

small_append :
    (ms : List CdevMbo) (m : CdevMbo)
    → AreSmall ms
    → length m.bytes < 2 ^ 16
    → AreSmall (ms ++ m ∷ [])
small_append [] m h l = (l, tt)
small_append (x ∷ ms) m h l = (h.0, small_append ms m h.1 l)

unread_append :
    (o : ℕ) (fs : List CdevMbo) (m : CdevMbo)
    → IsInside o fs
    → unread_of o (fs ++ m ∷ []) ≡ unread_of o fs ++ m.bytes
unread_append o [] m h = rw h (append_nil m.bytes)
unread_append o (x ∷ fs) m h = simp (bytes_of-append, append_nil, append_assoc)

IsInside-append :
    (o : ℕ) (fs : List CdevMbo) (m : CdevMbo)
    → IsInside o fs
    → length m.bytes < 2 ^ 16
    → IsInside o (fs ++ m ∷ [])
IsInside-append o [] m h l = (omega (arith, h), l)
IsInside-append o (x ∷ fs) m h l = h

rx-IsReading :
    (m : CdevMbo) (c : CdevChannel) (total : List ℕ)
    → length m.bytes < 2 ^ 16
    → IsReading total c
    → IsReading total (aim_rx_completion m c).1
unfolding aim_rx_completion
rx-IsReading m c total l (e, i, a) = elim (Bool-cases (not c.access_ref || not c.has_dev)) [
  | inl x ↦ simp (x, aim_rx_completion) (e, i, a)
  | inr x ↦
      let v : bytes_of c.received ++ m.bytes ≡ total ++ (unread_of c.mbo_offs c.fifo ++ m.bytes) =
        ap (λ us. us ++ m.bytes) e ∙ append_assoc total (unread_of c.mbo_offs c.fifo) m.bytes in
      simp (x, aim_rx_completion)
        (
          bytes_of-append c.received (m ∷ [])
              ∙ ap (λ us. bytes_of c.received ++ us) (append_nil m.bytes)
              ∙ v
              ∙ ap (λ us. total ++ us) (sym (unread_append c.mbo_offs c.fifo m i)),
          IsInside-append c.mbo_offs c.fifo m i l,
          small_append c.fifo m a l,
        )
]

-- The channel when the loop of `aim_read` ends with a buffer, and otherwise.
abbrev Keeps : List ℕ → Waited → Type 0
Keeps total (ready m ms d) = (d.fifo ≡ m ∷ ms) × IsReading total d
Keeps total (ended e d) = IsReading total d
Keeps total (waiting d) = IsReading total d

-- The buffers that come in while `aim_read` waits have lengths of 16 bits.
abbrev pub AreShort : List Arrival → Type 0
AreShort [] = Unit {0}
AreShort (came m ∷ rs) = (length m.bytes < 2 ^ 16) × AreShort rs
AreShort (none_came w ∷ rs) = AreShort rs

with_first-Keeps :
    (fs : List CdevMbo) (c : CdevChannel) (o : Waited) (total : List ℕ)
    → c.fifo ≡ fs
    → IsReading total c
    → Keeps total o
    → Keeps total (with_first fs c o)
with_first-Keeps [] c o total e h k = k
with_first-Keeps (m ∷ ms) c o total e h k = (e, h)

read_wait-Keeps :
    (nonblock : Bool) (rs : List Arrival) (c : CdevChannel) (total : List ℕ)
    → AreShort rs
    → IsReading total c
    → Keeps total (read_wait nonblock rs c)
unfolding read_wait
read_wait-Keeps nonblock [] c total l h = elim (Bool-cases c.has_dev) [
  | inr e ↦ simp (e, read_wait) h
  | inl e ↦ simp (e, read_wait) (with_first-Keeps c.fifo c (waiting c) total refl h h)
]
read_wait-Keeps nonblock (came m ∷ rs) c total l h =
    read_wait-Keeps nonblock rs (aim_rx_completion m c).1 total l.1 (rx-IsReading m c total l.0 h)
read_wait-Keeps nonblock (none_came w ∷ rs) c total l h = elim (Bool-cases c.has_dev) [
  | inr e ↦ simp (e, read_wait) h
  | inl e ↦
      let again = read_wait-Keeps nonblock rs c total l h in
      let left = read_wait-Keeps nonblock rs (record c { has_dev = false }) total l h in
      simp (e, read_wait)
        (with_first-Keeps c.fifo c
          (if nonblock
            then ended eagain c
            else after_wake w c (read_wait nonblock rs c)
                (read_wait nonblock rs (record c { has_dev = false })))
          total refl h
          (woken_up nonblock w (read_wait nonblock rs c)
            (read_wait nonblock rs (record c { has_dev = false })) again left))
]
  where
    woken_up :
        (nb : Bool) (w : Wake) (x y : Waited)
        → Keeps total x
        → Keeps total y
        → Keeps total (if nb then ended eagain c else after_wake w c x y)
    woken_up true w x y a b = h
    woken_up false woken x y a b = a
    woken_up false interrupted x y a b = h
    woken_up false gone x y a b = b

read-IsReading :
    (nonblock : Bool) (not_copied : ℕ) (rs : List Arrival) (count : ℕ) (c : CdevChannel)
    (total : List ℕ)
    → AreShort rs
    → IsReading total c
    → let (ret, given, d) = aim_read nonblock not_copied rs count c in IsReading (total ++ given) d
unfolding aim_read
read-IsReading nonblock not_copied rs count c total l h =
    go (read_wait nonblock rs c) (read_wait-Keeps nonblock rs c total l h)
  where
    go :
        (o : Waited)
        → Keeps total o
        → let (ret, given, d) : Option ℤ × List ℕ × CdevChannel = elim o [
          | waiting d ↦ (none, [], d)
          | ended e d ↦ (some e, [], d)
          | ready m ms d ↦
              let (n, given, e) = read_mbo not_copied count m ms d in (some (pos n), given, e)
        ] in
          IsReading (total ++ given) d
    go (waiting d) (e, i, a) =
        (e ∙ ap (λ us. us ++ unread_of d.mbo_offs d.fifo) (sym (append_nil total)), i, a)
    go (ended z d) (e, i, a) =
        (e ∙ ap (λ us. us ++ unread_of d.mbo_offs d.fifo) (sym (append_nil total)), i, a)
    go (ready m ms d) (f, (e, i, a)) =
        read_mbo-IsReading not_copied count m ms d total f (rw f at e, rw f at i, rw f at a)

-- What happens to the channel: a buffer is received while no read waits, or a read.
pub data Event : Type 0 where
  completes : CdevMbo → Event
  read : Bool → ℕ → List Arrival → ℕ → Event

abbrev pub AreShortEvents : List Event → Type 0
AreShortEvents [] = Unit {0}
AreShortEvents (completes m ∷ es) = (length m.bytes < 2 ^ 16) × AreShortEvents es
AreShortEvents (read nonblock not_copied rs count ∷ es) = AreShort rs × AreShortEvents es

-- The bytes that user space got in all of them, and the channel.
abbrev pub run_events : List Event → CdevChannel → List ℕ × CdevChannel
run_events [] c = ([], c)
run_events (completes m ∷ es) c = run_events es (aim_rx_completion m c).1
run_events (read nonblock not_copied rs count ∷ es) c =
    let (ret, given, d) = aim_read nonblock not_copied rs count c in
    let (bs, e) = run_events es d in (given ++ bs, e)

-- Over any sequence of completions and reads of buffers of less than 64 KiB, the bytes of the buffers that
-- `aim_rx_completion` took are those that user space got, in order, and then those that are still unread
-- in the fifo.
pub events-IsReading :
    (es : List Event) (c : CdevChannel) (total : List ℕ)
    → AreShortEvents es
    → IsReading total c
    → let (bs, d) = run_events es c in IsReading (total ++ bs) d
events-IsReading [] c total l (e, i, a) =
    (e ∙ ap (λ us. us ++ unread_of c.mbo_offs c.fifo) (sym (append_nil total)), i, a)
events-IsReading (completes m ∷ es) c total l h =
    events-IsReading es (aim_rx_completion m c).1 total l.1 (rx-IsReading m c total l.0 h)
events-IsReading (read nonblock not_copied rs count ∷ es) c total l h =
    let (ret, given, d) = aim_read nonblock not_copied rs count c in
    let (e, i, a) =
      events-IsReading es d (total ++ given) l.1
        (read-IsReading nonblock not_copied rs count c total l.0 h) in
    (
      e
          ∙ ap (λ us. us ++ unread_of (run_events es d).1.mbo_offs (run_events es d).1.fifo)
              (append_assoc total given (run_events es d).0),
      i,
      a,
    )
