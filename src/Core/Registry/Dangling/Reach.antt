-- ===== src/Core/Registry/Dangling/Reach.antt =====
-- The registry over any order of its operations.
use unicens2_driver.Common.{
  ℕ, ◌≡◌, Bool, true, false, ◌||◌, not, some, List, Bool-cases, inl, inr, ltb,
}
use unicens2_driver.Common.Int.{ℤ, pos, negsuc}
use unicens2_driver.Core.Types.{Aim}
use unicens2_driver.Core.Text.{Text}
use unicens2_driver.Core.Registry.{Inst, Driver, Aims, Registry, Probe}
use unicens2_driver.Core.Registry.Links.{add_link_store, remove_link_store}
use unicens2_driver.Core.Registry.Interface.{
  most_register_aim, most_deregister_aim, most_register_config_set, most_deregister_config_set,
  World, Iface, register_channels, register_inst, most_register_interface,
  most_deregister_interface, max_channels,
}
use unicens2_driver.Core.Registry.Dangling.{
  known, NoDangling, add_store-NoDangling, remove_store-NoDangling,
}
use unicens2_driver.Core.Registry.Dangling.Kept.{
  KnownInsts-append, leave-KnownInsts, channels-KnownNodes, KnownInsts-snoc, drop-KnownInsts,
}

pub data Step (r : Registry) : Registry → Type 0 where
  registering_aim : (ok : Bool) (d : Driver) → Step r (most_register_aim ok (some d) r).1
  deregistering_aim :
      (registered : Bool) (aim : ℕ) → Step r (most_deregister_aim registered aim r).1
  -- The attribute belongs to the object of a registered module.
  adding_link :
      (aims : Aims) (aim : Aim) (buf : Text) (len : ℕ)
      → known r.aim_list aim.id ≡ true
      → Step r (add_link_store aims aim buf len r).1
  removing_link :
      (aims : Aims) (aim : Aim) (buf : Text) (len : ℕ)
      → Step r (remove_link_store aims aim buf len r).1
  registering_config : (ps : List Probe) → Step r (most_register_config_set ps r)
  deregistering_config : (k : ℕ) → Step r (most_deregister_config_set k r)
  registering_interface :
      (aims : Aims) (w : World) (iface : Iface) → Step r (most_register_interface aims w iface r).1
  deregistering_interface : (i : Inst) → Step r (most_deregister_interface i r)

pub data Reach (r : Registry) : Registry → Type 0 where
  here : Reach r r
  next : {s t : Registry} → Reach r s → Step s t → Reach r t

register_aim-NoDangling :
    (ok : Bool) (d : Driver) (r : Registry)
    → NoDangling r
    → NoDangling (most_register_aim ok (some d) r).1
unfolding most_register_aim
register_aim-NoDangling true d r h = record {
  linked = KnownInsts-append r.aim_list d r.instance_list h.linked;
}
register_aim-NoDangling false d r h = h

deregister_aim-NoDangling :
    (registered : Bool) (aim : ℕ) (r : Registry)
    → NoDangling r
    → NoDangling (most_deregister_aim registered aim r).1
unfolding most_deregister_aim
deregister_aim-NoDangling true aim r h = record {
  linked = leave-KnownInsts r.aim_list aim r.instance_list h.linked;
}
deregister_aim-NoDangling false aim r h = h

register_inst-NoDangling :
    (aims : Aims) (w : World) (iface : Iface) (id : ℕ) (r : Registry)
    → NoDangling r
    → NoDangling (register_inst aims w iface id r).1
unfolding register_inst register_channels
register_inst-NoDangling aims w iface id r h = elim (Bool-cases w.inst_ok) [
  | inr e ↦ rw (e, register_inst) h
  | inl e ↦ elim (Bool-cases (register_channels aims w iface id r iface.num_channels 0).0) [
    | inr f ↦ rw (e, f, register_inst) (record { linked = h.linked })
    | inl f ↦
        rw (e, f, register_inst)
          (record {
            linked =
                KnownInsts-snoc r.aim_list r.instance_list _ h.linked
                  (channels-KnownNodes aims w iface id r iface.num_channels 0);
          })
  ]
]

register_interface-NoDangling :
    (aims : Aims) (w : World) (iface : Iface) (r : Registry)
    → NoDangling r
    → NoDangling (most_register_interface aims w iface r).1
unfolding most_register_interface
register_interface-NoDangling aims w iface r h =
    elim (Bool-cases (not iface.complete || ltb max_channels iface.num_channels)) [
      | inl e ↦ rw (e, most_register_interface) h
      | inr e ↦ go w.id e
    ]
  where
    go :
        (k : ℤ)
        → (not iface.complete || ltb max_channels iface.num_channels) ≡ false
        → NoDangling (most_register_interface aims (record w { id = k }) iface r).1
    go (pos id) e = rw (e, most_register_interface) (register_inst-NoDangling aims _ iface id r h)
    go (negsuc n) e = rw (e, most_register_interface) h

NoDangling-Step : {r s : Registry} → Step r s → NoDangling r → NoDangling s
unfolding most_register_config_set most_deregister_config_set most_deregister_interface
NoDangling-Step {r} (registering_aim ok d) h = register_aim-NoDangling ok d r h
NoDangling-Step {r} (deregistering_aim reg aim) h = deregister_aim-NoDangling reg aim r h
NoDangling-Step {r} (adding_link aims aim buf len k) h = add_store-NoDangling aims aim buf len r k h
NoDangling-Step {r} (removing_link aims aim buf len) h =
    remove_store-NoDangling aims aim buf len r h
NoDangling-Step {r} (registering_config ps) h = record { linked = h.linked }
NoDangling-Step {r} (deregistering_config k) h = record { linked = h.linked }
NoDangling-Step {r} (registering_interface aims w iface) h =
    register_interface-NoDangling aims w iface r h
NoDangling-Step {r} (deregistering_interface i) h = record {
  linked = drop-KnownInsts r.aim_list i.dev_id r.instance_list h.linked;
}

-- In every order of the registry's operations, each link of each registered channel points to an
-- application module that is registered: those that go take their links with them, and neither
-- `add_link` nor a configuration set links to another.
pub NoDangling-Reach : {r s : Registry} → NoDangling r → Reach r s → NoDangling s
NoDangling-Reach h here = h
NoDangling-Reach h (next t st) = NoDangling-Step st (NoDangling-Reach h t)
