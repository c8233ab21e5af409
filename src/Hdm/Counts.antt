-- ===== src/Hdm/Counts.antt =====
-- The driver's `started_list` and the counters of the hardware abstraction layer.
use unicens2_driver.Common.{
  ℕ, zero, suc, ◌+◌, ◌-◌, ◌≡◌, ◌≤◌, ◌<◌, Bool, true, false, ◌&&◌, Option, none, some, List, [], ◌∷◌,
  ◌++◌, ◌==◌, ltb, length, length-append, refl, arith, Bool-cases, Option-cases, inl, inr, ◌⊎◌, ap,
  ◌∙◌,
}
use unicens2_driver.Core.Types.{close, inval, ch_async, ch_rx}
use unicens2_driver.Common.Int.{ℤ, pos}
use unicens2_driver.Dim.Types.{DimChannel, DimError}
use unicens2_driver.Dim.Channel.{
  AsyncTxDbr, Command, StartResult, started, refused, dim_dbr_space, channel_start, channel_service,
  channel_detach_buffers,
}
use unicens2_driver.Hdm.{
  HdmMbo, HdmChannel, complete, start_first, try_start_dim_transfer, finish_one, finish_loop,
  service_done_flag, service_hal, enqueue, efault, packet_is_net_info, complete_all_mbos,
}

-- The buffers in `started_list` are those that the hardware has, and those that it is done with and
-- the driver did not take back yet.
pub record IsInStep (h : HdmChannel) : Type 0 where
  pub room : h.ch.state.level ≤ 2
  pub lists : length h.started_list ≡ h.ch.state.level + h.ch.done_sw_buffers_number
  pub sound : h.hard_error ≡ false

-- What `channel_start` does to the two counters.
abbrev StartCounts : DimChannel → StartResult × DimChannel × AsyncTxDbr → Type 0
StartCounts ch (refused e, c, d) = c ≡ ch
StartCounts ch (started k, c, d) =
    (c.state.level ≡ ch.state.level + 1)
    × (ch.state.level < 2)
    × (c.done_sw_buffers_number ≡ ch.done_sw_buffers_number)

pub start_counts :
    (fcnt a n : ℕ) (ch : DimChannel) (d : AsyncTxDbr) → StartCounts ch (channel_start fcnt a n ch d)
unfolding channel_start
start_counts fcnt a n ch d = ground arith

start_first-IsInStep :
    (fcnt : ℕ) (m : HdmMbo) (rest : List HdmMbo) (h : HdmChannel)
    → IsInStep h
    → IsInStep (start_first fcnt m rest h).1
unfolding start_first
start_first-IsInStep fcnt m rest h v =
    let c = start_counts fcnt m.bus_address m.buffer_length h.ch h.atx_dbr in
    go (channel_start fcnt m.bus_address m.buffer_length h.ch h.atx_dbr) c
  where
    go :
        (r : StartResult × DimChannel × AsyncTxDbr)
        → StartCounts h.ch r
        → IsInStep
            (let (s, c, d) = r in
              let g = record h { ch = c; atx_dbr = d; pending_list = rest } in
              elim s as (λ _. ℤ × HdmChannel) [
                | refused e ↦ (efault, complete 0 inval m g)
                | started k ↦ (pos 0, record g { started_list = g.started_list ++ m ∷ [] })
              ]).1
    go (refused e, c, d) w = rw w (record { room = v.room; lists = v.lists; sound = v.sound })
    go (started k, c, d) w = record {
      room = omega (arith, w.0, w.1);
      lists = omega (arith, w.0, w.2, v.lists, length-append h.started_list (m ∷ []));
      sound = v.sound;
    }

pub StartResult-cases :
    (s : StartResult) → ((k : Command) × (s ≡ started k)) ⊎ ((e : DimError) × (s ≡ refused e))
StartResult-cases (started k) = inl (k, refl)
StartResult-cases (refused e) = inr (e, refl)

pub List-cases :
    (xs : List HdmMbo) → (xs ≡ []) ⊎ ((x : HdmMbo) × (ys : List HdmMbo) × (xs ≡ x ∷ ys))
List-cases [] = inl refl
List-cases (x ∷ xs) = inr (x, xs, refl)

-- Whatever a call returns is in step.
abbrev pub StaysInStep : Option (ℤ × HdmChannel) → Type 0
StaysInStep o = elim o [ none ↦ Unit {0} | some r ↦ IsInStep r.1 ]

space-IsInStep :
    (h : HdmChannel) (ps : List HdmMbo) (d : AsyncTxDbr)
    → IsInStep h
    → IsInStep (record h { pending_list = ps; atx_dbr = d })
space-IsInStep h ps d v = record { room = v.room; lists = v.lists; sound = v.sound }

pub try_start-StaysInStep :
    (fcnt rpc : ℕ) (h : HdmChannel) → IsInStep h → StaysInStep (try_start_dim_transfer fcnt rpc h)
unfolding try_start_dim_transfer
try_start-StaysInStep fcnt rpc h v = elim (List-cases h.pending_list) [
  | inl e ↦ simp (e, StaysInStep, try_start_dim_transfer) v
  | inr (m, rest, e) ↦ elim (Bool-cases (ltb h.ch.state.level 2)) [
    | inr b ↦ simp (e, b, StaysInStep, try_start_dim_transfer) v
    | inl b ↦ elim (Option-cases (dim_dbr_space rpc h.ch h.atx_dbr)) [
      | inl n ↦ simp (e, b, n, StaysInStep, try_start_dim_transfer) tt
      | inr ((space, d), n) ↦ elim (Bool-cases (ltb space m.buffer_length)) [
        | inl f ↦
            simp (e, b, n, f, StaysInStep, try_start_dim_transfer) (space-IsInStep h (m ∷ rest) d v)
        | inr f ↦
            simp (e, b, n, f, StaysInStep, try_start_dim_transfer)
              (start_first-IsInStep fcnt m rest (record h { pending_list = m ∷ rest; atx_dbr = d })
                (space-IsInStep h (m ∷ rest) d v))
      ]
    ]
  ]
]

pub enqueue-StaysInStep :
    (fcnt rpc : ℕ) (m : HdmMbo) (h : HdmChannel) → IsInStep h → StaysInStep (enqueue fcnt rpc m h)
unfolding enqueue
enqueue-StaysInStep fcnt rpc m h v =
    let g = record h { is_initialized = true; pending_list = h.pending_list ++ m ∷ [] } in
    let w : IsInStep g = record { room = v.room; lists = v.lists; sound = v.sound } in
    elim (Bool-cases h.is_initialized) [
      | inr a ↦ simp (a, StaysInStep, enqueue) v
      | inl a ↦ elim (Bool-cases (m.bus_address == 0)) [
        | inl b ↦ simp (a, b, StaysInStep, enqueue) v
        | inr b ↦
            simp (a, b, enqueue)
              (zeroed (try_start_dim_transfer fcnt rpc g) (try_start-StaysInStep fcnt rpc g w))
      ]
    ]
  where
    zeroed :
        (o : Option (ℤ × HdmChannel))
        → StaysInStep o
        → StaysInStep (elim o [ none ↦ none | some (ret, g) ↦ some (pos 0, g) ])
    zeroed none k = k
    zeroed (some (ret, g)) k = k

pub finish_one_lem :
    (m : HdmMbo) (h : HdmChannel)
    → ((finish_one m h).hard_error ≡ h.hard_error) × ((finish_one m h).ch ≡ h.ch)
unfolding finish_one
finish_one_lem m h =
    elim (Bool-cases
      ((h.data_type == ch_async) && (h.direction == ch_rx) && packet_is_net_info m.bytes)) [
        | inl e ↦ rw e (refl, refl)
        | inr e ↦ rw e (refl, refl)
      ]

-- The loop of `service_done_flag` takes `n` buffers where there are as many.
finish_loop_lem :
    (n : ℕ) (ms : List HdmMbo) (h : HdmChannel)
    → n ≤ length ms
    → h.hard_error ≡ false
    → let g = finish_loop n ms h in
      (length g.started_list + n ≡ length ms) × (g.hard_error ≡ false) × (g.ch ≡ h.ch)
unfolding finish_loop
finish_loop_lem zero ms h le e = (omega arith, e, refl)
finish_loop_lem (suc n) [] h le e = absurd (omega (arith, le))
finish_loop_lem (suc n) (m ∷ ms) h le e =
    let le' : n ≤ length ms = omega (arith, le) in
    let (a, b) = finish_one_lem m h in
    let (x, y, z) = finish_loop_lem n ms (finish_one m h) le' (a ∙ e) in
    (omega (arith, x), y, z ∙ b)

pub detach_all :
    (ch : DimChannel)
    → channel_detach_buffers ch.done_sw_buffers_number ch
      ≡ (true, record ch { done_sw_buffers_number = 0 })
unfolding channel_detach_buffers
detach_all ch =
    let n = ch.done_sw_buffers_number in
    let t : ltb n n ≡ false = ground arith in
    let z : n - n ≡ 0 = omega arith in simp (t, z, channel_detach_buffers)

pub done-IsInStep : (h : HdmChannel) → IsInStep h → IsInStep (service_done_flag h)
unfolding service_done_flag
done-IsInStep h v =
    let n = h.ch.done_sw_buffers_number in
    elim (Bool-cases (n == 0)) [
      | inl e ↦ simp (e, service_done_flag) v
      | inr e ↦
          let enough : n ≤ length h.started_list = omega (arith, v.lists) in
          let g = record h { ch = record h.ch { done_sw_buffers_number = 0 } } in
          let (x, y, z) = finish_loop_lem n h.started_list g enough v.sound in
          let level = ap (λ c. c.state.level) z in
          let none_done = ap (λ c. c.done_sw_buffers_number) z in
          simp (e, detach_all h.ch, service_done_flag)
            (record {
              room = omega (arith, level, v.room);
              lists = omega (arith, level, none_done, x, v.lists);
              sound = y;
            })
    ]

pub hal-IsInStep :
    (h : HdmChannel) → h.ch.done_sw_buffers_number < 65535 → IsInStep h → IsInStep (service_hal h)
unfolding service_hal channel_service
hal-IsInStep h few v = ground (arith, few, v.room, v.lists, v.sound)

-- Of a channel that is initialised (the first argument): it is in step. Otherwise nothing is started.
abbrev pub InStepIf : Bool → HdmChannel → Type 0
InStepIf true h = IsInStep h
InStepIf false h = (h.started_list ≡ []) × (h.hard_error ≡ false)

abbrev pub IsDriven : HdmChannel → Type 0
IsDriven h = InStepIf h.is_initialized h

pub complete_all_lem :
    (ms : List HdmMbo) (h : HdmChannel)
    → let g = complete_all_mbos ms h in
      (g.started_list ≡ h.started_list)
      × (g.hard_error ≡ h.hard_error)
      × (g.is_initialized ≡ h.is_initialized)
unfolding complete_all_mbos
complete_all_lem [] h = (refl, refl, refl)
complete_all_lem (m ∷ ms) h = complete_all_lem ms (complete 0 close m h)
