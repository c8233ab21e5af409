-- ===== src/Core/Registry/Interface.antt =====
-- Application modules and interfaces come and go: `most_register_aim`, `most_deregister_aim`, the
-- configuration of a new channel, `most_register_interface` and `most_deregister_interface`.
use unicens2_driver.Common.{
  ℕ, zero, suc, ◌+◌, Bool, true, false, ◌&&◌, ◌||◌, not, Option, none, some, List, [], ◌∷◌, ◌++◌,
  ◌==◌, if◌then◌else◌, ltb,
}
use unicens2_driver.Common.Int.{ℤ, pos, negsuc}
use unicens2_driver.Core.Types.{Channel, AimObj, einval, enomem, points_to}
use unicens2_driver.Core.Text.{Text, text, str_eq, strlcpy}
use unicens2_driver.Core.Registry.{
  string_size, Node, Inst, Driver, Call, disconnected, Aims, Probe, Registry,
}
use unicens2_driver.Core.Registry.Links.{link_channel_to_aim, unlinked}

-- MAX_CHANNELS
abbrev pub max_channels : ℕ
max_channels = 64

-- `most_register_aim`, where `none` is the null pointer and `ok` says that the object was created.
unfoldable pub most_register_aim : Bool → Option Driver → Registry → ℤ × Registry
most_register_aim ok none r = (einval, r)
most_register_aim ok (some d) r =
    if not ok then (enomem, r) else (pos 0, record r { aim_list = r.aim_list ++ d ∷ [] })

-- The call for a channel that the module leaves.
abbrev pub leave_call : ℕ → ℕ → Channel → List Call
leave_call aim iface c =
    if points_to c.aim0 aim || points_to c.aim1 aim
    then disconnected aim iface c.channel_id ∷ []
    else []

-- The loops of `most_deregister_aim`.
unfoldable pub leave_nodes : ℕ → List Node → List Node
leave_nodes aim [] = []
leave_nodes aim (n ∷ ns) = record n { c = unlinked aim n.c } ∷ leave_nodes aim ns

unfoldable pub leave_insts : ℕ → List Inst → List Inst
leave_insts aim [] = []
leave_insts aim (i ∷ is) =
    record i { channel_list = leave_nodes aim i.channel_list } ∷ leave_insts aim is

pub leave_node_calls : ℕ → ℕ → List Node → List Call
leave_node_calls aim iface [] = []
leave_node_calls aim iface (n ∷ ns) = leave_call aim iface n.c ++ leave_node_calls aim iface ns

pub leave_inst_calls : ℕ → List Inst → List Call
leave_inst_calls aim [] = []
leave_inst_calls aim (i ∷ is) =
    leave_node_calls aim i.dev_id i.channel_list ++ leave_inst_calls aim is

-- `list_del` of the module's object. A module registers once.
unfoldable pub drop_driver : ℕ → List Driver → List Driver
drop_driver aim [] = []
drop_driver aim (d ∷ ds) =
    let rest = drop_driver aim ds in if d.aim.id == aim then rest else d ∷ rest

-- `most_deregister_aim` of a module that is not null; `registered` says that its `context` is set.
unfoldable pub most_deregister_aim : Bool → ℕ → Registry → ℤ × Registry
most_deregister_aim registered aim r = if not registered then (einval, r) else (
  pos 0,
  record r {
    instance_list = leave_insts aim r.instance_list;
    aim_list = drop_driver aim r.aim_list;
    calls = r.calls ++ leave_inst_calls aim r.instance_list;
  },
)

abbrev pub param_text : Option Text → Text
param_text none = []
param_text (some t) = t

-- `probe_aim` over the rest of `aim_list`.
unfoldable pub probe_aim :
    Aims → ℕ → Text → Option Text → List Driver → Channel → ℤ × Channel × List Call
probe_aim aims iface name param [] c = (pos 0, c, [])
probe_aim aims iface name param (d ∷ ds) c =
    let rest = probe_aim aims iface name param ds c in
    if str_eq d.name name
    then link_channel_to_aim aims iface d.aim (strlcpy string_size (param_text param)) c
    else rest

abbrev pub matches : Text → Text → Probe → Bool
matches dev_name ch_name p =
    elim p.dev_name [ none ↦ true | some n ↦ str_eq dev_name n ] && str_eq ch_name p.ch_name

-- What a matching probe does to the channel.
abbrev pub apply_probe : Aims → ℕ → List Driver → Probe → Channel → Channel × List Call
apply_probe aims iface ds p c = elim p.aim_name [
  | none ↦ (record c { cfg = p.cfg }, [])
  | some name ↦
      let (err, d, calls) = probe_aim aims iface name p.aim_param ds (record c { cfg = p.cfg }) in
      (d, calls)
]

-- `probe_config_set` over the probes of one set; `none` is its `false`.
unfoldable pub probe_config_set :
    Aims → ℕ → List Driver → Text → Text → List Probe → Channel → Option (Channel × List Call)
probe_config_set aims iface ds dev_name ch_name [] c = none
probe_config_set aims iface ds dev_name ch_name (p ∷ ps) c =
    let rest = probe_config_set aims iface ds dev_name ch_name ps c in
    if matches dev_name ch_name p then some (apply_probe aims iface ds p c) else rest

-- `find_configuration` over the rest of `config_probes`.
unfoldable pub find_configuration :
    Aims → ℕ → List Driver → Text → Text → List (List Probe) → Channel → Channel × List Call
find_configuration aims iface ds dev_name ch_name [] c = (c, [])
find_configuration aims iface ds dev_name ch_name (ps ∷ sets) c =
    let rest = find_configuration aims iface ds dev_name ch_name sets c in
    elim (probe_config_set aims iface ds dev_name ch_name ps c) [ none ↦ rest | some r ↦ r ]

-- `most_register_config_set`: to the head. The set that is removed is named by its position.
unfoldable pub most_register_config_set : List Probe → Registry → Registry
most_register_config_set ps r = record r { config_probes = ps ∷ r.config_probes }

abbrev pub drop_set : ℕ → List (List Probe) → List (List Probe)
drop_set k [] = []
drop_set zero (ps ∷ sets) = sets
drop_set (suc k) (ps ∷ sets) = ps ∷ drop_set k sets

unfoldable pub most_deregister_config_set : ℕ → Registry → Registry
most_deregister_config_set k r = record r { config_probes = drop_set k r.config_probes }

-- The parts of `struct most_interface` that the registration reads. `complete` says that `enqueue`,
-- `configure` and `poison_channel` are set.
pub record Iface : Type 0 where
  pub complete : Bool
  pub num_channels : ℕ
  pub description : Text
  pub name_suffix : ℕ → Option Text

-- What the registration meets outside: the id or the error of `ida_simple_get`, which objects can be
-- created, and the printer behind "%d".
pub record World : Type 0 where
  pub id : ℤ
  pub inst_ok : Bool
  pub channel_ok : ℕ → Bool
  pub digits : ℕ → Text

abbrev pub no_link : AimObj
no_link = record { ptr = none; refs = pos 0; num_buffers = pos 0 }

-- The channel object after `kzalloc` and the assignments.
unfoldable pub new_channel : ℕ → Channel
new_channel i = record {
  channel_id = i;
  cfg = record {
    direction = 0;
    data_type = 0;
    num_buffers = 0;
    buffer_size = 0;
    extra_len = 0;
    subbuffer_size = 0;
    packets_per_xact = 0;
  };
  is_poisoned = false;
  is_starving = false;
  enqueue_halt = false;
  fifo = [];
  halt_fifo = [];
  trash_fifo = [];
  aim0 = no_link;
  aim1 = no_link;
  mbo_ref = pos 0;
  mbo_nq_level = pos 0;
  cleanup = 0;
  hdm_enqueue_task = false;
  dummy_num_buffers = pos 0;
  freed = [];
  tx_calls = [];
  mod_refs = pos 0;
}

abbrev pub channel_name : World → Iface → ℕ → Text
channel_name w iface i = elim (iface.name_suffix i) [
  | none ↦ strlcpy string_size (text "ch" ++ w.digits i)
  | some t ↦ strlcpy string_size t
]

-- The loop of `most_register_interface`, with the channels that are left: whether all of them were
-- created, the channels, and the calls into application modules.
unfoldable pub register_channels :
    Aims → World → Iface → ℕ → Registry → ℕ → ℕ → Bool × List Node × List Call
unfolding new_channel
register_channels aims w iface id r zero i = (true, [], [])
register_channels aims w iface id r (suc n) i =
    let name = channel_name w iface i in
    let (c, calls) =
      find_configuration aims id r.aim_list iface.description name r.config_probes
        (new_channel i) in
    let (ok, nodes, more) = register_channels aims w iface id r n (i + 1) in
    if not (w.channel_ok i)
    then (false, [], [])
    else (ok, record { name = name; c = c } ∷ nodes, calls ++ more)

-- With the id in hand.
unfoldable pub register_inst : Aims → World → Iface → ℕ → Registry → ℤ × Registry
register_inst aims w iface id r =
    let (ok, nodes, calls) = register_channels aims w iface id r iface.num_channels 0 in
    let name = strlcpy string_size (text "mdev" ++ w.digits id) in
    if not w.inst_ok
    then (enomem, r)
    else if not ok
    then (enomem, record r { calls = r.calls ++ calls })
    else (
      pos 0,
      record r {
        instance_list =
            r.instance_list ++ record { dev_id = id; name = name; channel_list = nodes } ∷ [];
        calls = r.calls ++ calls;
      },
    )

unfoldable pub most_register_interface : Aims → World → Iface → Registry → ℤ × Registry
most_register_interface aims w iface r =
    if not iface.complete || ltb max_channels iface.num_channels
    then (einval, r)
    else elim w.id [ pos id ↦ register_inst aims w iface id r | negsuc e ↦ (negsuc e, r) ]

abbrev pub end_call : ℕ → Channel → AimObj → List Call
end_call iface c a = elim a.ptr [ none ↦ [] | some b ↦ disconnected b.id iface c.channel_id ∷ [] ]

-- The loop of `most_deregister_interface`. The channels go with the interface.
pub end_calls : ℕ → List Node → List Call
end_calls iface [] = []
end_calls iface (n ∷ ns) =
    end_call iface n.c n.c.aim0 ++ end_call iface n.c n.c.aim1 ++ end_calls iface ns

unfoldable pub drop_inst : ℕ → List Inst → List Inst
drop_inst id [] = []
drop_inst id (i ∷ is) = let rest = drop_inst id is in if i.dev_id == id then rest else i ∷ rest

-- `most_deregister_interface` of a registered interface.
unfoldable pub most_deregister_interface : Inst → Registry → Registry
most_deregister_interface i r = record r {
  instance_list = drop_inst i.dev_id r.instance_list;
  calls = r.calls ++ end_calls i.dev_id i.channel_list;
}
