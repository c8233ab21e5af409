-- ===== src/Hdm/Kept.antt =====
-- Whether a channel of hdm-dim2/dim2_hdm.c is initialised, over the calls that do not change it.
use unicens2_driver.Common.{
  ℕ, zero, suc, ◌≡◌, Bool, true, ◌&&◌, Option, none, some, List, [], ◌∷◌, ◌++◌, ◌==◌, ltb, refl,
  Bool-cases, Option-cases, inl, inr, ◌∙◌,
}
use unicens2_driver.Core.Types.{ch_async, ch_rx}
use unicens2_driver.Common.Int.{ℤ, pos}
use unicens2_driver.Dim.Channel.{dim_dbr_space, channel_start}
use unicens2_driver.Hdm.{
  HdmMbo, HdmChannel, start_first, try_start_dim_transfer, finish_one, finish_loop,
  service_done_flag, enqueue, packet_is_net_info,
}
use unicens2_driver.Hdm.Counts.{StartResult-cases, List-cases, detach_all}

-- Whether the channel is initialised stays.
abbrev pub KeepsInit : Bool → Option (ℤ × HdmChannel) → Type 0
KeepsInit b none = Unit {0}
KeepsInit b (some r) = r.1.is_initialized ≡ b

start_first_init :
    (fcnt : ℕ) (m : HdmMbo) (rest : List HdmMbo) (h : HdmChannel)
    → (start_first fcnt m rest h).1.is_initialized ≡ h.is_initialized
unfolding start_first
start_first_init fcnt m rest h =
    elim (StartResult-cases (channel_start fcnt m.bus_address m.buffer_length h.ch h.atx_dbr).0) [
      | inl (k, e) ↦ rw (e, start_first) refl
      | inr (k, e) ↦ rw (e, start_first) refl
    ]

pub try_start-KeepsInit :
    (fcnt rpc : ℕ) (h : HdmChannel) → KeepsInit h.is_initialized (try_start_dim_transfer fcnt rpc h)
unfolding try_start_dim_transfer
try_start-KeepsInit fcnt rpc h = elim (List-cases h.pending_list) [
  | inl e ↦ simp (e, try_start_dim_transfer) refl
  | inr (m, rest, e) ↦ elim (Bool-cases (ltb h.ch.state.level 2)) [
    | inr b ↦ simp (e, b, try_start_dim_transfer) refl
    | inl b ↦ elim (Option-cases (dim_dbr_space rpc h.ch h.atx_dbr)) [
      | inl n ↦ simp (e, b, n, try_start_dim_transfer) tt
      | inr ((space, d), n) ↦ elim (Bool-cases (ltb space m.buffer_length)) [
        | inl f ↦ simp (e, b, n, f, try_start_dim_transfer) refl
        | inr f ↦
            simp (e, b, n, f, try_start_dim_transfer)
              (start_first_init fcnt m rest (record h { pending_list = m ∷ rest; atx_dbr = d }))
      ]
    ]
  ]
]

pub enqueue-KeepsInit :
    (fcnt rpc : ℕ) (m : HdmMbo) (h : HdmChannel)
    → h.is_initialized ≡ true
    → KeepsInit true (enqueue fcnt rpc m h)
unfolding enqueue
enqueue-KeepsInit fcnt rpc m h a =
    let g = record h { is_initialized = true; pending_list = h.pending_list ++ m ∷ [] } in
    elim (Bool-cases (m.bus_address == 0)) [
      | inl b ↦ simp (a, b, enqueue) refl
      | inr b ↦
          simp (a, b, enqueue)
            (go (try_start_dim_transfer fcnt rpc g) (try_start-KeepsInit fcnt rpc g))
    ]
  where
    go :
        (o : Option (ℤ × HdmChannel))
        → KeepsInit true o
        → KeepsInit true (elim o [ none ↦ none | some (ret, g) ↦ some (pos 0, g) ])
    go none k = k
    go (some (ret, g)) k = k

finish_loop_init :
    (n : ℕ) (ms : List HdmMbo) (h : HdmChannel)
    → (finish_loop n ms h).is_initialized ≡ h.is_initialized
unfolding finish_loop finish_one
finish_loop_init zero ms h = refl
finish_loop_init (suc n) [] h = refl
finish_loop_init (suc n) (m ∷ ms) h = finish_loop_init n ms (finish_one m h) ∙ one
  where
    one : (finish_one m h).is_initialized ≡ h.is_initialized
    one =
        elim (Bool-cases
          ((h.data_type == ch_async) && (h.direction == ch_rx) && packet_is_net_info m.bytes)) [
            | inl e ↦ rw e refl
            | inr e ↦ rw e refl
          ]

pub done_init : (h : HdmChannel) → (service_done_flag h).is_initialized ≡ h.is_initialized
unfolding service_done_flag
done_init h =
    let n = h.ch.done_sw_buffers_number in
    elim (Bool-cases (n == 0)) [
      | inl e ↦ simp (e, service_done_flag) refl
      | inr e ↦
          simp (e, detach_all h.ch, service_done_flag)
            (finish_loop_init n h.started_list
              (record h { ch = record h.ch { done_sw_buffers_number = 0 } }))
    ]
