-- ===== src/Core/Sysfs/Roundtrip.antt =====
-- Storing and showing the attributes of a channel.
use unicens2_driver.Common.{ℕ, ◌<◌, ◌^◌, ◌≡◌, ◌⊎◌, inl, inr, none, false, ◌++◌, refl}
use unicens2_driver.Common.Int.{pos}
use unicens2_driver.Core.Types.{
  Config, einval, ch_rx, ch_tx, ch_control, ch_async, ch_isoc, ch_sync,
}
use unicens2_driver.Core.Text.{Text, text, str_eq, str_cases}
use unicens2_driver.Core.Sysfs.{
  set_direction_show, set_direction_store, set_datatype_show, set_datatype_store, show_type,
  find_type, ch_data_type, Parsed, number, set_number_of_buffers_store, set_number_of_buffers_show,
  set_buffer_size_store, set_buffer_size_show, set_subbuffer_size_store, set_subbuffer_size_show,
  set_packets_per_xact_store, set_packets_per_xact_show,
}

-- For a channel with a direction and a type, what the two attributes show can be stored again, and
-- leaves the configuration as it is.
pub store-show :
    (count : ℕ) (cfg : Config)
    → (cfg.direction ≡ ch_rx) ⊎ (cfg.direction ≡ ch_tx)
    → (cfg.data_type ≡ ch_control)
      ⊎ (cfg.data_type ≡ ch_async)
      ⊎ (cfg.data_type ≡ ch_sync)
      ⊎ (cfg.data_type ≡ ch_isoc)
    → (set_direction_store (set_direction_show cfg) count cfg ≡ (pos count, cfg))
      × (set_datatype_store (set_datatype_show cfg) count cfg ≡ (pos count, cfg))
unfolding set_direction_store set_direction_show set_datatype_store set_datatype_show show_type
    find_type
store-show count cfg d t = (
  elim d [ inl e ↦ rw e refl | inr e ↦ rw e refl ],
  elim t [
    | inl e ↦ rw e refl
    | inr (inl e) ↦ rw e refl
    | inr (inr (inl e)) ↦ rw e refl
    | inr (inr (inr e)) ↦ rw e refl
  ],
)

abbrev pub DirectionRead : Text → ℕ → Config → Type 0
DirectionRead buf count cfg =
    let (ret, d) = set_direction_store buf count cfg in
    (ret ≡ einval) × (d ≡ cfg)
    ⊎ (ret ≡ pos count)
      × ((set_direction_show d ≡ buf) ⊎ (text "dir_" ++ set_direction_show d ≡ buf))

abbrev pub TypeRead : Text → ℕ → Config → Type 0
TypeRead buf count cfg =
    let (ret, d) = set_datatype_store buf count cfg in
    (ret ≡ einval) × (d ≡ cfg)
    ⊎ (ret ≡ pos count)
      × ((set_datatype_show d ≡ buf)
          ⊎ (buf ≡ text "isoc_avp\n") × (set_datatype_show d ≡ text "isoc\n"))

direction_read : (buf : Text) (count : ℕ) (cfg : Config) → DirectionRead buf count cfg
unfolding set_direction_store set_direction_show
direction_read buf count cfg = elim (str_cases buf (text "dir_rx\n")) [
  | inl e ↦ rw e (inr (refl, inr refl))
  | inr n0 ↦ elim (str_cases buf (text "rx\n")) [
    | inl e ↦ rw e (inr (refl, inl refl))
    | inr n1 ↦ elim (str_cases buf (text "dir_tx\n")) [
      | inl e ↦ rw e (inr (refl, inr refl))
      | inr n2 ↦ elim (str_cases buf (text "tx\n")) [
        | inl e ↦ rw e (inr (refl, inl refl))
        | inr n3 ↦ rw (n0, n1, n2, n3) (inl (refl, refl))
      ]
    ]
  ]
]

no_type :
    (buf : Text)
    → str_eq buf (text "control\n") ≡ false
    → str_eq buf (text "async\n") ≡ false
    → str_eq buf (text "sync\n") ≡ false
    → str_eq buf (text "isoc\n") ≡ false
    → str_eq buf (text "isoc_avp\n") ≡ false
    → find_type ch_data_type buf ≡ none
unfolding find_type
no_type buf n0 n1 n2 n3 n4 = rw (n0, n1, n2, n3, n4) refl

type_read : (buf : Text) (count : ℕ) (cfg : Config) → TypeRead buf count cfg
unfolding set_datatype_store set_datatype_show show_type find_type
type_read buf count cfg = elim (str_cases buf (text "control\n")) [
  | inl e ↦ rw e (inr (refl, inl refl))
  | inr n0 ↦ elim (str_cases buf (text "async\n")) [
    | inl e ↦ rw e (inr (refl, inl refl))
    | inr n1 ↦ elim (str_cases buf (text "sync\n")) [
      | inl e ↦ rw e (inr (refl, inl refl))
      | inr n2 ↦ elim (str_cases buf (text "isoc\n")) [
        | inl e ↦ rw e (inr (refl, inl refl))
        | inr n3 ↦ elim (str_cases buf (text "isoc_avp\n")) [
          | inl e ↦ rw e (inr (refl, inr (refl, refl)))
          | inr n4 ↦ rw (no_type buf n0 n1 n2 n3 n4, set_datatype_store) (inl (refl, refl))
        ]
      ]
    ]
  ]
]

-- What a direction or a type reads back after a store: a store that is refused changes nothing, and
-- one that is accepted shows as what was written, without the prefix "dir_", and "isoc_avp" as "isoc".
pub show-store :
    (buf : Text) (count : ℕ) (cfg : Config) → DirectionRead buf count cfg × TypeRead buf count cfg
show-store buf count cfg = (direction_read buf count cfg, type_read buf count cfg)

-- Where the parser reads back what the printer makes of a 16-bit number, with the newline behind it,
-- each of the four numbers that an attribute shows can be stored again, and nothing changes.
pub numbers_back :
    (kstrtou16 : Text → Parsed) (print : ℕ → Text)
    → (back : (n : ℕ) → n < 2 ^ 16 → kstrtou16 (print n ++ text "\n") ≡ number n)
    → (count : ℕ) (cfg : Config) → cfg.num_buffers < 2 ^ 16
    → cfg.buffer_size < 2 ^ 16
    → cfg.subbuffer_size < 2 ^ 16
    → cfg.packets_per_xact < 2 ^ 16
    → (set_number_of_buffers_store kstrtou16 (set_number_of_buffers_show print cfg) count cfg
        ≡ (pos count, cfg))
      × (set_buffer_size_store kstrtou16 (set_buffer_size_show print cfg) count cfg
          ≡ (pos count, cfg))
      × (set_subbuffer_size_store kstrtou16 (set_subbuffer_size_show print cfg) count cfg
          ≡ (pos count, cfg))
      × (set_packets_per_xact_store kstrtou16 (set_packets_per_xact_show print cfg) count cfg
          ≡ (pos count, cfg))
unfolding set_number_of_buffers_store set_number_of_buffers_show set_buffer_size_store
    set_buffer_size_show set_subbuffer_size_store set_subbuffer_size_show set_packets_per_xact_store
    set_packets_per_xact_show
numbers_back kstrtou16 print back count cfg h0 h1 h2 h3 = (
  rw (back cfg.num_buffers h0, set_number_of_buffers_store, set_number_of_buffers_show) refl,
  rw (back cfg.buffer_size h1, set_buffer_size_store, set_buffer_size_show) refl,
  rw (back cfg.subbuffer_size h2, set_subbuffer_size_store, set_subbuffer_size_show) refl,
  rw (back cfg.packets_per_xact h3, set_packets_per_xact_store, set_packets_per_xact_show) refl,
)
