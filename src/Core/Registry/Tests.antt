-- ===== src/Core/Registry/Tests.antt =====
-- The theorems on the registry at one interface with two channels and two application modules.
use unicens2_driver.Common.{ℕ, ◌+◌, ◌==◌, ◌≡◌, true, false, none, some, [], ◌∷◌, ◌++◌, refl}
use unicens2_driver.Common.Int.{pos}
use unicens2_driver.Core.Types.{Aim, enomem}
use unicens2_driver.Core.Text.{Text, text}
use unicens2_driver.Core.Registry.{Node, Inst, Aims, Registry, split_string, get_channel_by_name}
use unicens2_driver.Core.Registry.Links.{add_link_store, remove_link_store}
use unicens2_driver.Core.Registry.Interface.{
  World, Iface, most_register_interface, most_deregister_aim,
}
use unicens2_driver.Core.Registry.Undo.{remove-add}
use unicens2_driver.Core.Registry.Dangling.{NoDangling}
use unicens2_driver.Core.Registry.Dangling.Reach.{
  adding_link, deregistering_aim, here, next, NoDangling-Reach,
}
use unicens2_driver.Core.Registry.Failure.{OnlyProbes, first_calls, register_fails}

abbrev cdev : Aim
cdev = record { id = 7; has_rx_completion = true; has_tx_completion = true }

abbrev aims : Aims
aims = record {
  probe_channel = λ aim iface ch cfg param. pos 0;
  disconnect_channel = λ aim iface ch. pos 0;
}

abbrev node : Text → ℕ → Node
node name i = record {
  name = name;
  c = record {
    channel_id = i;
    cfg = record {
      direction = 0;
      data_type = 0;
      num_buffers = 0;
      buffer_size = 0;
      extra_len = 0;
      subbuffer_size = 0;
      packets_per_xact = 0;
    };
    is_poisoned = false;
    is_starving = false;
    enqueue_halt = false;
    fifo = [];
    halt_fifo = [];
    trash_fifo = [];
    aim0 = record { ptr = none; refs = pos 0; num_buffers = pos 0 };
    aim1 = record { ptr = none; refs = pos 0; num_buffers = pos 0 };
    mbo_ref = pos 0;
    mbo_nq_level = pos 0;
    cleanup = 0;
    hdm_enqueue_task = false;
    dummy_num_buffers = pos 0;
    freed = [];
    tx_calls = [];
    mod_refs = pos 0;
  };
}

abbrev inst : Inst
inst = record {
  dev_id = 0;
  name = text "mdev0";
  channel_list = node (text "ch0") 0 ∷ node (text "ch1") 1 ∷ [];
}

abbrev registry : Registry
registry = record {
  instance_list = inst ∷ [];
  aim_list = record { aim = cdev; name = text "cdev" } ∷ [];
  config_probes = [];
  calls = [];
}

abbrev request : Text
request = text "mdev0:ch1\n"

remove-add_example :
    let added = add_link_store aims cdev request 10 registry in
    let removed = remove_link_store aims cdev request 10 added.1 in
    (removed.0 ≡ pos 10) × (removed.1.instance_list ≡ inst ∷ [])
unfolding split_string get_channel_by_name
remove-add_example =
    remove-add aims cdev request 10 registry (text "mdev0") (text "ch1") (some [])
      (record { inst_pos = 0; node_pos = 1; inst = inst; node = node (text "ch1") 1 }) refl refl
      refl refl refl

NoDangling-Reach_example :
    NoDangling (most_deregister_aim true 7 (add_link_store aims cdev request 10 registry).1).1
NoDangling-Reach_example =
    NoDangling-Reach {r = registry} (record { linked = (((tt, tt), ((tt, tt), tt)), tt) })
      (next (next here (adding_link aims cdev request 10 refl)) (deregistering_aim true 7))

abbrev world : World
world = record { id = pos 0; inst_ok = true; channel_ok = λ i. i == 0; digits = λ n. (n + 48) ∷ [] }

abbrev iface : Iface
iface = record {
  complete = true;
  num_channels = 2;
  description = text "dim2";
  name_suffix = λ i. none;
}

-- A configuration set that links "ch0" to "cdev".
abbrev configured : Registry
configured = record registry {
  instance_list = [];
  config_probes =
      (record {
        ch_name = text "ch0";
        dev_name = none;
        cfg = (node (text "ch0") 0).c.cfg;
        aim_name = some (text "cdev");
        aim_param = some (text "my_channel");
      }
        ∷ [])
      ∷ [];
}

register_fails_example :
    let (ret, s) = most_register_interface aims world iface configured in
    (ret ≡ enomem)
    × (s.instance_list ≡ [])
    × (s.calls ≡ [] ++ first_calls aims world iface 0 configured)
    × OnlyProbes (first_calls aims world iface 0 configured)
register_fails_example =
    register_fails aims world iface configured 0 0 refl refl refl refl refl refl refl
