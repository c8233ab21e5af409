-- ===== src/Core/Sysfs.antt =====
-- The attributes of a channel in mostcore/core.c: what is stored in its configuration and what is
-- shown of it. The number parser `kstrtou16` and the printer behind "%d" are arguments.
pub mod Roundtrip
use unicens2_driver.Common.{
  ℕ, ◌+◌, ◌*◌, ◌/◌, ◌%◌, Bool, true, false, Option, none, some, List, [], ◌∷◌, ◌++◌, ◌==◌,
  if◌then◌else◌, ◌||◌,
}
use unicens2_driver.Common.Int.{ℤ, pos}
use unicens2_driver.Core.Types.{
  Config, Channel, einval, ch_rx, ch_tx, ch_control, ch_async, ch_isoc, ch_sync,
}
use unicens2_driver.Core.Text.{Text, text, str_eq}

-- `x & mask` as a test, for a mask of one bit.
abbrev pub has_bit : ℕ → ℕ → Bool
has_bit mask x = (x / mask) % 2 == 1

-- `ch_data_type`.
abbrev pub ch_data_type : List (ℕ × Text)
ch_data_type =
    (ch_control, text "control\n")
    ∷ (ch_async, text "async\n")
    ∷ (ch_sync, text "sync\n")
    ∷ (ch_isoc, text "isoc\n")
    ∷ (ch_isoc, text "isoc_avp\n")
    ∷ []

pub available_directions_show : ℕ → Text
available_directions_show direction =
    (if has_bit ch_rx direction then text "rx " else [])
    ++ (if has_bit ch_tx direction then text "tx " else [])
    ++ text "\n"

pub available_datatypes_show : ℕ → Text
available_datatypes_show data_type =
    (if has_bit ch_control data_type then text "control " else [])
    ++ (if has_bit ch_async data_type then text "async " else [])
    ++ (if has_bit ch_sync data_type then text "sync " else [])
    ++ (if has_bit ch_isoc data_type then text "isoc " else [])
    ++ text "\n"

pub set_direction_show : Config → Text
set_direction_show cfg =
    if has_bit ch_tx cfg.direction
    then text "tx\n"
    else if has_bit ch_rx cfg.direction
    then text "rx\n"
    else text "unconfigured\n"

-- A store returns `count`, the length of what was written, or an error.
pub set_direction_store : Text → ℕ → Config → ℤ × Config
set_direction_store buf count cfg =
    if str_eq buf (text "dir_rx\n")
    then (pos count, record cfg { direction = ch_rx })
    else if str_eq buf (text "rx\n")
    then (pos count, record cfg { direction = ch_rx })
    else if str_eq buf (text "dir_tx\n")
    then (pos count, record cfg { direction = ch_tx })
    else if str_eq buf (text "tx\n")
    then (pos count, record cfg { direction = ch_tx })
    else (einval, cfg)

-- The loop of `set_datatype_show` over the rest of the table.
pub show_type : List (ℕ × Text) → ℕ → Text
show_type [] data_type = text "unconfigured\n"
show_type ((t, name) ∷ table) data_type =
    if has_bit t data_type then name else show_type table data_type

pub set_datatype_show : Config → Text
unfolding show_type
set_datatype_show cfg = show_type ch_data_type cfg.data_type

-- The loop of `set_datatype_store`.
pub find_type : List (ℕ × Text) → Text → Option ℕ
find_type [] buf = none
find_type ((t, name) ∷ table) buf = if str_eq buf name then some t else find_type table buf

pub set_datatype_store : Text → ℕ → Config → ℤ × Config
unfolding find_type
set_datatype_store buf count cfg = elim (find_type ch_data_type buf) [
  | none ↦ (einval, cfg)
  | some t ↦ (pos count, record cfg { data_type = t })
]

-- What `kstrtou16` gives: a number below 2 ^ 16, or an error.
pub data Parsed : Type 0 where
  number : ℕ → Parsed
  error : ℤ → Parsed

module _ (kstrtou16 : Text → Parsed) where
  pub set_number_of_buffers_store : Text → ℕ → Config → ℤ × Config
  set_number_of_buffers_store buf count cfg = elim (kstrtou16 buf) [
    | number n ↦ (pos count, record cfg { num_buffers = n })
    | error e ↦ (e, cfg)
  ]

  pub set_buffer_size_store : Text → ℕ → Config → ℤ × Config
  set_buffer_size_store buf count cfg = elim (kstrtou16 buf) [
    | number n ↦ (pos count, record cfg { buffer_size = n })
    | error e ↦ (e, cfg)
  ]

  pub set_subbuffer_size_store : Text → ℕ → Config → ℤ × Config
  set_subbuffer_size_store buf count cfg = elim (kstrtou16 buf) [
    | number n ↦ (pos count, record cfg { subbuffer_size = n })
    | error e ↦ (e, cfg)
  ]

  pub set_packets_per_xact_store : Text → ℕ → Config → ℤ × Config
  set_packets_per_xact_store buf count cfg = elim (kstrtou16 buf) [
    | number n ↦ (pos count, record cfg { packets_per_xact = n })
    | error e ↦ (e, cfg)
  ]

module _ (print : ℕ → Text) where
  pub set_number_of_buffers_show : Config → Text
  set_number_of_buffers_show cfg = print cfg.num_buffers ++ text "\n"

  pub set_buffer_size_show : Config → Text
  set_buffer_size_show cfg = print cfg.buffer_size ++ text "\n"

  pub set_subbuffer_size_show : Config → Text
  set_subbuffer_size_show cfg = print cfg.subbuffer_size ++ text "\n"

  pub set_packets_per_xact_show : Config → Text
  set_packets_per_xact_show cfg = print cfg.packets_per_xact ++ text "\n"

  pub channel_starving_show : Channel → Text
  channel_starving_show c = print (if c.is_starving then 1 else 0) ++ text "\n"
