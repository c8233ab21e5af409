-- ===== src/Core/Registry.antt =====
-- The registry of mostcore/core.c: interfaces with their channels, application modules, and the links
-- between the two. Objects are found by their names; a pointer to a channel is a pair of positions.
pub mod Split
pub mod Lookup
pub mod Links
pub mod Interface
pub mod Undo
pub mod Dangling
pub mod Failure
pub mod Leave
mod Tests
use unicens2_driver.Common.{
  ℕ, zero, suc, ◌+◌, ◌-◌, Bool, true, false, ◌&&◌, ◌||◌, not, Option, none, some, List, [], ◌∷◌,
  ◌++◌, ◌==◌, if◌then◌else◌, length, ltb,
}
use unicens2_driver.Common.Int.{ℤ, pos, ◌==ℤ◌}
use unicens2_driver.Core.Types.{
  Config, Channel, Aim, AimObj, eio, enodev, enospc, einval, enomem, points_to,
}
use unicens2_driver.Core.Text.{Text, text, str_eq, strsep, strlcpy, colon, newline}

-- STRING_SIZE
abbrev pub string_size : ℕ
string_size = 80

-- A channel object with its name in sysfs.
pub record Node : Type 0 where
  pub name : Text
  pub c : Channel

-- `struct most_inst_obj`. `dev_id` stands for the interface as well.
pub record Inst : Type 0 where
  pub dev_id : ℕ
  pub name : Text
  pub channel_list : List Node

-- `struct most_aim_obj` with its `driver`, whose name is that of the object.
pub record Driver : Type 0 where
  pub aim : Aim
  pub name : Text

-- The calls into an application module that link it to a channel, and unlink it: the module, the
-- interface and the channel; and what `probe_channel` returned.
pub data Call : Type 0 where
  probed : ℕ → ℕ → ℕ → Text → ℤ → Call
  disconnected : ℕ → ℕ → ℕ → Call

-- What the application modules return.
pub record Aims : Type 0 where
  pub probe_channel : ℕ → ℕ → ℕ → Config → Text → ℤ
  pub disconnect_channel : ℕ → ℕ → ℕ → ℤ

abbrev pub is_colon : ℕ → Bool
is_colon x = x == colon

abbrev pub is_end : ℕ → Bool
is_end x = (x == colon) || (x == newline)

-- The second part of `split_string`, with the pointer after the first one.
abbrev pub split_rest : Text → Option Text × Option Text → Option (Text × Text × Option Text)
split_rest a (none, buf) = none
split_rest a (some b, buf) = some (a, b, (strsep is_end buf).0)

abbrev pub split_first : Option Text × Option Text → Option (Text × Text × Option Text)
split_first (none, buf) = none
split_first (some a, buf) = split_rest a (strsep is_end buf)

-- `split_string`, where `none` is `-EIO`. It makes the third part whether it is asked for or not.
pub split_string : Text → Option (Text × Text × Option Text)
split_string t = split_first (strsep is_colon (some t))

-- The position of the first object of a name.
abbrev pub find_inst : Text → List Inst → Option ℕ
find_inst mdev [] = none
find_inst mdev (i ∷ is) =
    let rest = find_inst mdev is in
    if str_eq i.name mdev then some 0 else elim rest [ none ↦ none | some k ↦ some (k + 1) ]

abbrev pub find_node : Text → List Node → Option ℕ
find_node mdev_ch [] = none
find_node mdev_ch (n ∷ ns) =
    let rest = find_node mdev_ch ns in
    if str_eq n.name mdev_ch then some 0 else elim rest [ none ↦ none | some k ↦ some (k + 1) ]

abbrev pub inst_at : ℕ → List Inst → Option Inst
inst_at k [] = none
inst_at zero (i ∷ is) = some i
inst_at (suc k) (i ∷ is) = inst_at k is

abbrev pub node_at : ℕ → List Node → Option Node
node_at k [] = none
node_at zero (n ∷ ns) = some n
node_at (suc k) (n ∷ ns) = node_at k ns

-- What `get_channel_by_name` finds: the positions of an interface and its channel, and the two.
pub record Found : Type 0 where
  pub inst_pos : ℕ
  pub node_pos : ℕ
  pub inst : Inst
  pub node : Node

abbrev pub found_node : ℕ → Inst → Text → Option Found
found_node k i mdev_ch = elim (find_node mdev_ch i.channel_list) [
  | none ↦ none
  | some l ↦ elim (node_at l i.channel_list) [
    | none ↦ none
    | some n ↦ some (record { inst_pos = k; node_pos = l; inst = i; node = n })
  ]
]

unfoldable pub get_channel_by_name : Text → Text → List Inst → Option Found
get_channel_by_name mdev mdev_ch is = elim (find_inst mdev is) [
  | none ↦ none
  | some k ↦ elim (inst_at k is) [ none ↦ none | some i ↦ found_node k i mdev_ch ]
]

-- Writes through the pointer.
abbrev pub put_node : ℕ → Channel → List Node → List Node
put_node l c [] = []
put_node zero c (n ∷ ns) = record n { c = c } ∷ ns
put_node (suc l) c (n ∷ ns) = n ∷ put_node l c ns

abbrev pub put_inst : ℕ → ℕ → Channel → List Inst → List Inst
put_inst k l c [] = []
put_inst zero l c (i ∷ is) = record i { channel_list = put_node l c i.channel_list } ∷ is
put_inst (suc k) l c (i ∷ is) = i ∷ put_inst k l c is

-- `struct most_config_probe`.
pub record Probe : Type 0 where
  pub ch_name : Text
  pub dev_name : Option Text
  pub cfg : Config
  pub aim_name : Option Text
  pub aim_param : Option Text

-- The file's lists, and the calls that were made into application modules.
pub record Registry : Type 0 where
  pub instance_list : List Inst
  pub aim_list : List Driver
  pub config_probes : List (List Probe)
  pub calls : List Call
