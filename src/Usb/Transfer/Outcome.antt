-- ===== src/Usb/Transfer/Outcome.antt =====
-- hdm-usb/hdm_usb.c, the two completions of an URB over every status that the USB core can report.
use unicens2_driver.Common.{
  ◌%◌, ◌^◌, ◌≡◌, refl, Bool, true, false, ◌||◌, ◌&&◌, not, [], ◌∷◌, ◌++◌, ◌==◌, inl, inr,
  Bool-cases,
}
use unicens2_driver.Common.Int.{ℤ, pos, ◌==ℤ◌}
use unicens2_driver.Core.Types.{Status, success, inval, close, enodev}
use unicens2_driver.Usb.{UsbMbo, UsbChannel, epipe, eproto, eshutdown, get_stream_frame_size}
use unicens2_driver.Usb.Padding.{hdm_remove_padding}
use unicens2_driver.Usb.Transfer.{
  Report, hand_over, settle, received, hdm_write_completion, hdm_read_completion, urb_completion,
}

abbrev pub is_success : Status → Bool
is_success success = true
is_success inval = false
is_success close = false

abbrev pub is_done : ℤ → Bool
is_done s = (s ==ℤ pos 0) || (s ==ℤ eshutdown)

-- The data of a received buffer can be used: it has no padding, or the padding can be removed.
abbrev pub can_unpad : UsbChannel → Bool
can_unpad h = not h.is_padding_active || not (get_stream_frame_size h.conf == 0)

-- What a completion does, for `ok` the buffers that arrive whole.
abbrev pub Completes : Bool → Report → UsbChannel → UsbChannel → Type 0
Completes ok r h g =
    ((k : UsbMbo) × (g.completed ≡ h.completed ++ k ∷ [])
      × (k.id ≡ r.urb.mbo.id)
      × (is_success k.status ≡ (h.is_channel_healthy && is_done r.status && ok))
      × ((is_success k.status || (k.processed_length == 0)) ≡ true))
    × (g.is_channel_healthy
        ≡ (h.is_channel_healthy && (is_done r.status || not (r.status ==ℤ epipe))))

unhealthy-Completes :
    (ok : Bool) (r : Report) (h : UsbChannel)
    → h.is_channel_healthy ≡ false
    → Completes ok r h (hand_over (record r.urb.mbo { processed_length = 0; status = inval }) h)
unhealthy-Completes ok r h e =
    simp e
      ((record r.urb.mbo { processed_length = 0; status = inval }, refl, refl, refl, refl), refl)

settle-Completes :
    (ok : Bool) (a : UsbMbo) (r : Report) (h : UsbChannel)
    → h.is_channel_healthy ≡ true
    → a.id ≡ r.urb.mbo.id
    → is_success a.status ≡ ok
    → (is_success a.status || (a.processed_length == 0)) ≡ true
    → Completes ok r h (settle a r (record r.urb.mbo { processed_length = 0; status = inval }) h)
unfolding settle
settle-Completes ok a r h t x y z =
    let m = record r.urb.mbo { processed_length = 0; status = inval } in
    elim (Bool-cases (is_done r.status)) [
      | inl e ↦ simp (e, t, settle) ((a, refl, x, y, z), refl)
      | inr e ↦ elim (Bool-cases (r.status ==ℤ epipe)) [
        | inl f ↦ simp (e, f, t, settle) ((m, refl, refl, refl, refl), refl)
        | inr f ↦ elim (Bool-cases ((r.status ==ℤ enodev) || (r.status ==ℤ eproto))) [
          | inl g ↦
              simp (e, f, g, t, settle)
                ((record m { status = close }, refl, refl, refl, refl), refl)
          | inr g ↦ simp (e, f, g, t, settle) ((m, refl, refl, refl, refl), refl)
        ]
      ]
    ]

-- What `received` makes of a buffer.
abbrev Received : Bool → UsbMbo → UsbMbo → Type 0
Received ok m a =
    (a.id ≡ m.id)
    × (is_success a.status ≡ ok)
    × ((is_success a.status || (a.processed_length == 0)) ≡ true)

received-Received :
    (r : Report) (m : UsbMbo) (h : UsbChannel) → Received (can_unpad h) m (received r m h)
unfolding received hdm_remove_padding
received-Received r m h = elim (Bool-cases h.is_padding_active) [
  | inr e ↦ simp (e, Received, received) (refl, refl, refl)
  | inl e ↦ elim (Bool-cases (get_stream_frame_size h.conf == 0)) [
    | inl f ↦ simp (e, f, Received, received, hdm_remove_padding) (refl, refl, refl)
    | inr f ↦ simp (e, f, Received, received, hdm_remove_padding) (refl, refl, refl)
  ]
]

-- The completion of an URB hands over exactly its buffer, for every status. The buffer's status is
-- success exactly when the channel is healthy, the transfer ended with 0 or -ESHUTDOWN, and, for a
-- received buffer of a channel in the padding mode, the frame size is not 0; without success its
-- processed length is 0. The channel stays healthy unless the pipe is broken (-EPIPE).
pub completion_outcome :
    (r : Report) (h : UsbChannel) → Completes (r.urb.is_out || can_unpad h) r h (urb_completion r h)
unfolding hdm_write_completion hdm_read_completion
completion_outcome r h =
    let m = record r.urb.mbo { processed_length = 0; status = inval } in
    let a = record m { processed_length = r.actual_length % 2 ^ 16; status = success } in
    elim (Bool-cases h.is_channel_healthy) [
      | inr t ↦ elim (Bool-cases r.urb.is_out) [
        | inl e ↦
            let w = unhealthy-Completes true r h t in
            simp (e, t, hdm_write_completion) (simp t at w)
        | inr e ↦
            let w = unhealthy-Completes (can_unpad h) r h t in
            simp (e, t, hdm_read_completion) (simp t at w)
      ]
      | inl t ↦ elim (Bool-cases r.urb.is_out) [
        | inl e ↦
            let w = settle-Completes true a r h t refl refl refl in
            simp (e, t, hdm_write_completion) (simp t at w)
        | inr e ↦
            let (x, y, z) = received-Received r m h in
            let w = settle-Completes (can_unpad h) (received r m h) r h t x y z in
            simp (e, t, hdm_read_completion) (simp t at w)
      ]
    ]
