-- ===== src/Hdm/Buffers.antt =====
-- Where a buffer is, over any order of the driver's calls.
use unicens2_driver.Common.{
  ℕ, zero, suc, ◌+◌, ◌≡◌, true, false, ◌&&◌, Option, none, some, List, [], ◌∷◌, ◌++◌, ◌==◌, ltb,
  if◌then◌else◌, refl, arith, Bool-cases, Option-cases, inl, inr, ◌∙◌, ap, ◌*◌,
}
use mathlib.Core.Path.{subst}
use unicens2_driver.Common.Int.{ℤ, pos}
use unicens2_driver.Core.Types.{Config, ch_async, ch_rx, success, close, inval}
use unicens2_driver.Dim.Channel.{channel_start, dim_dbr_space}
use unicens2_driver.Dim.Init.{Lld, Result, dim_destroy_channel}
use unicens2_driver.Hdm.{
  HdmMbo, HdmChannel, complete, start_first, try_start_dim_transfer, finish_one, finish_loop,
  service_done_flag, service_hal, enqueue, complete_all_mbos, poison_channel, packet_is_net_info,
  done_length,
}
use unicens2_driver.Hdm.Steps.{
  accepted, Step, trying, enqueueing, interrupting, servicing, finishing, poisoning, configuring,
  Reach, here, next,
}
use unicens2_driver.Hdm.Configure.{
  Configured, has_type, new_size, init_hal, finish_configure, finished, configure_channel,
}
use unicens2_driver.Hdm.Counts.{List-cases, StartResult-cases, detach_all}

abbrev pub one_if : ℕ → HdmMbo → ℕ
one_if i m = if m.id == i then 1 else 0

abbrev pub copies : ℕ → List HdmMbo → ℕ
copies i [] = 0
copies i (m ∷ ms) = one_if i m + copies i ms

copies-append : (i : ℕ) (xs ys : List HdmMbo) → copies i (xs ++ ys) ≡ copies i xs + copies i ys
copies-append i [] ys = omega arith
copies-append i (x ∷ xs) ys = omega (arith, copies-append i xs ys)

-- How often buffer `i` is in the driver or was completed.
abbrev pub spots : ℕ → HdmChannel → ℕ
spots i h = copies i h.pending_list + copies i h.started_list + copies i h.completed

complete_all-spots :
    (i : ℕ) (ms : List HdmMbo) (h : HdmChannel)
    → let g = complete_all_mbos ms h in
      (copies i g.completed ≡ copies i h.completed + copies i ms)
      × (g.pending_list ≡ h.pending_list)
      × (g.started_list ≡ h.started_list)
unfolding complete_all_mbos
complete_all-spots i [] h = (omega arith, refl, refl)
complete_all-spots i (m ∷ ms) h =
    let d = record m { processed_length = 0; status = close } in
    let a = copies-append i h.completed (d ∷ []) in
    let (x, y, z) = complete_all-spots i ms (complete 0 close m h) in (omega (arith, a, x), y, z)

finish_one-spots :
    (i : ℕ) (m : HdmMbo) (h : HdmChannel)
    → copies i (finish_one m h).pending_list + copies i (finish_one m h).completed
      ≡ copies i h.pending_list + one_if i m + copies i h.completed
unfolding finish_one
finish_one-spots i m h =
    let d = record m { processed_length = done_length h.data_type m; status = success } in
    let a : copies i (h.completed ++ d ∷ []) ≡ copies i h.completed + (one_if i m + 0) =
      copies-append i h.completed (d ∷ []) in
    let b = copies-append i h.pending_list (m ∷ []) in
    elim (Bool-cases
      ((h.data_type == ch_async) && (h.direction == ch_rx) && packet_is_net_info m.bytes)) [
        | inl e ↦ rw e (omega (arith, b))
        | inr e ↦ rw e (omega (arith, a))
      ]

finish_loop-spots :
    (i n : ℕ) (ms : List HdmMbo) (h : HdmChannel)
    → spots i (finish_loop n ms h) ≡ copies i h.pending_list + copies i ms + copies i h.completed
unfolding finish_loop
finish_loop-spots i zero ms h = refl
finish_loop-spots i (suc n) [] h = refl
finish_loop-spots i (suc n) (m ∷ ms) h =
    omega (arith, finish_one-spots i m h, finish_loop-spots i n ms (finish_one m h))

done-spots : (i : ℕ) (h : HdmChannel) → spots i (service_done_flag h) ≡ spots i h
unfolding service_done_flag
done-spots i h =
    let n = h.ch.done_sw_buffers_number in
    elim (Bool-cases (n == 0)) [
      | inl e ↦ rw (e, service_done_flag) refl
      | inr e ↦
          simp (e, detach_all h.ch, service_done_flag)
            (finish_loop-spots i n h.started_list
              (record h { ch = record h.ch { done_sw_buffers_number = 0 } }))
    ]

start_first-spots :
    (i fcnt : ℕ) (m : HdmMbo) (rest : List HdmMbo) (h : HdmChannel)
    → spots i (start_first fcnt m rest h).1
      ≡ copies i (m ∷ rest) + copies i h.started_list + copies i h.completed
unfolding start_first
start_first-spots i fcnt m rest h =
    let r = (channel_start fcnt m.bus_address m.buffer_length h.ch h.atx_dbr).0 in
    let d = record m { processed_length = 0; status = inval } in
    let a : copies i (h.completed ++ d ∷ []) ≡ copies i h.completed + (one_if i m + 0) =
      copies-append i h.completed (d ∷ []) in
    let b = copies-append i h.started_list (m ∷ []) in
    elim (StartResult-cases r) [
      | inl (k, e) ↦ rw (e, start_first) (omega (arith, b))
      | inr (k, e) ↦ rw (e, start_first) (omega (arith, a))
    ]

-- Whatever a call returns has each buffer as often as before.
abbrev StaysPlaced : ℕ → ℕ → Option (ℤ × HdmChannel) → Type 0
StaysPlaced i n o = elim o [ none ↦ Unit {0} | some r ↦ spots i r.1 ≡ n ]

try_start-StaysPlaced :
    (i fcnt rpc : ℕ) (h : HdmChannel)
    → StaysPlaced i (spots i h) (try_start_dim_transfer fcnt rpc h)
unfolding try_start_dim_transfer
try_start-StaysPlaced i fcnt rpc h = elim (List-cases h.pending_list) [
  | inl e ↦ simp (e, StaysPlaced, try_start_dim_transfer)
  | inr (m, rest, e) ↦ elim (Bool-cases (ltb h.ch.state.level 2)) [
    | inr b ↦ simp (e, b, StaysPlaced, try_start_dim_transfer)
    | inl b ↦ elim (Option-cases (dim_dbr_space rpc h.ch h.atx_dbr)) [
      | inl n ↦ simp (e, b, n, StaysPlaced, try_start_dim_transfer) tt
      | inr ((space, d), n) ↦ elim (Bool-cases (ltb space m.buffer_length)) [
        | inl f ↦ simp (e, b, n, f, StaysPlaced, try_start_dim_transfer)
        | inr f ↦
            simp (e, b, n, f, StaysPlaced, try_start_dim_transfer)
              (start_first-spots i fcnt m rest (record h { pending_list = m ∷ rest; atx_dbr = d }))
      ]
    ]
  ]
]

-- For `enqueue`, with what it takes over.
abbrev Enqueued : ℕ → ℕ → HdmMbo → Option (ℤ × HdmChannel) → Type 0
Enqueued i n m o = elim o [ none ↦ Unit {0} | some r ↦ spots i r.1 ≡ n + copies i (accepted r.0 m) ]

enqueue_lem :
    (i fcnt rpc : ℕ) (m : HdmMbo) (h : HdmChannel) → Enqueued i (spots i h) m (enqueue fcnt rpc m h)
unfolding enqueue
enqueue_lem i fcnt rpc m h =
    let g = record h { is_initialized = true; pending_list = h.pending_list ++ m ∷ [] } in
    let a : spots i g ≡ spots i h + (one_if i m + 0) =
      omega (arith, copies-append i h.pending_list (m ∷ [])) in
    elim (Bool-cases h.is_initialized) [
      | inr b ↦ simp (b, Enqueued, enqueue) (omega arith)
      | inl b ↦ elim (Bool-cases (m.bus_address == 0)) [
        | inl c ↦ simp (b, c, Enqueued, enqueue) (omega arith)
        | inr c ↦
            simp (b, c, enqueue)
              (zeroed (spots i g) a (try_start_dim_transfer fcnt rpc g)
                (try_start-StaysPlaced i fcnt rpc g))
      ]
    ]
  where
    zeroed :
        (n : ℕ)
        → n ≡ spots i h + (one_if i m + 0)
        → (o : Option (ℤ × HdmChannel)) → StaysPlaced i n o
        → Enqueued i (spots i h) m (elim o [ none ↦ none | some (ret, g) ↦ some (pos 0, g) ])
    zeroed n a none k = k
    zeroed n a (some (ret, g)) k = k ∙ a

-- `poison_channel` on a channel that is initialised gives every buffer that it holds back: nothing is
-- pending or started any more, and each buffer was completed as often as it was held or completed before.
pub poison-spots :
    (i : ℕ) (g : Lld) (h : HdmChannel)
    → h.is_initialized ≡ true
    → let (ret, l, k) = poison_channel g h in
      (k.pending_list ≡ []) × (k.started_list ≡ []) × (copies i k.completed ≡ spots i h)
unfolding poison_channel
poison-spots i g h e =
    let r = dim_destroy_channel (record g { atx_dbr = h.atx_dbr }) h.ch in
    let k = record h {
      is_initialized = false;
      ch = r.ch;
      atx_dbr = r.g.atx_dbr;
      started_list = [];
      pending_list = [];
    } in
    let (x, y, z) = complete_all-spots i h.started_list k in
    let (u, v, w) = complete_all-spots i h.pending_list (complete_all_mbos h.started_list k) in
    simp (e, poison_channel) (v ∙ y, w ∙ z, omega (arith, u, x))

poison-Placed : (i : ℕ) (g : Lld) (h : HdmChannel) → spots i (poison_channel g h).2 ≡ spots i h
unfolding poison_channel
poison-Placed i g h = elim (Bool-cases h.is_initialized) [
  | inr e ↦ simp (e, poison_channel) refl
  | inl e ↦
      let (x, y, z) = poison-spots i g h e in omega (arith, ap (copies i) x, ap (copies i) y, z)
]

-- A configuration that was made holds the same buffers.
abbrev Same : ℕ → HdmChannel → Option Configured → Type 0
Same i h none = Unit {0}
Same i h (some c) = spots i c.channel ≡ spots i h

finished-Same :
    (i ch_idx : ℕ) (cfg : Config) (atx_idx : Option ℕ) (h : HdmChannel) (o : Option Result)
    → Same i h (finished ch_idx cfg atx_idx h o)
unfolding finish_configure
finished-Same i ch_idx cfg atx_idx h none = tt
finished-Same i ch_idx cfg atx_idx h (some r) = ground arith

configure-Same :
    (i rpc : ℕ) (g : Lld) (h : HdmChannel) (ch_idx : ℕ) (cfg : Config) (atx_idx : Option ℕ)
    → Same i h (configure_channel rpc g h ch_idx cfg atx_idx)
unfolding configure_channel
configure-Same i rpc g h ch_idx cfg atx_idx =
    let size = new_size g.fcnt cfg in
    elim (Bool-cases h.is_initialized) [
      | inl a ↦ simp (a, configure_channel) refl
      | inr a ↦ elim (Bool-cases (has_type cfg.data_type)) [
        | inr b ↦ simp (a, b, configure_channel) refl
        | inl b ↦ elim (Bool-cases (size == 0)) [
          | inl c ↦ simp (a, b, c, configure_channel) refl
          | inr c ↦
              simp (a, b, c, configure_channel)
                (finished-Same i ch_idx (record cfg { buffer_size = size }) atx_idx h
                  (init_hal rpc g h.ch (ch_idx * 2 + 2) cfg size))
        ]
      ]
    ]

spots-Step :
    {h g : HdmChannel} {ns : List HdmMbo} (i : ℕ)
    → Step h g ns
    → spots i g ≡ spots i h + copies i ns
unfolding service_hal
spots-Step {h} i (trying fcnt rpc ret g _ e) =
    let v : spots i g ≡ spots i h =
      subst (StaysPlaced i (spots i h)) e (try_start-StaysPlaced i fcnt rpc h) in
    omega (arith, v)
spots-Step {h} i (enqueueing fcnt rpc m ret g e) =
    subst (Enqueued i (spots i h) m) e (enqueue_lem i fcnt rpc m h)
spots-Step {h} i (servicing _ few) = omega arith
spots-Step {h} i (finishing _) = omega (arith, done-spots i h)
spots-Step {h} i (interrupting done) = omega arith
spots-Step {h} i (poisoning g) = omega (arith, poison-Placed i g h)
spots-Step {h} i (configuring rpc ch_idx cfg atx_idx g r e) =
    let v : spots i r.channel ≡ spots i h =
      subst (Same i h) e (configure-Same i rpc g h ch_idx cfg atx_idx) in
    omega (arith, v)

-- Over configurations, poisonings, buffers, interrupts and the parts of the tasklet in any order, a buffer
-- that `enqueue` took over stays in exactly one place: it is pending, started, or completed once.
pub spots-Reach :
    {h g : HdmChannel} {ms : List HdmMbo} (i : ℕ)
    → Reach h g ms
    → spots i g ≡ spots i h + copies i ms
spots-Reach i here = omega arith
spots-Reach i (next {ms = ms} {ns = ns} r st) =
    omega (arith, spots-Reach i r, spots-Step i st, copies-append i ms ns)
