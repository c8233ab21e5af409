-- ===== src/Core/Registry/Dangling.antt =====
-- No link points to an application module that is not registered.
pub mod Kept
pub mod Reach
use unicens2_driver.Common.{
  ℕ, zero, suc, ◌+◌, ◌≡◌, Bool, true, false, ◌||◌, Option, none, some, List, [], ◌∷◌, ◌++◌, ◌==◌,
  if◌then◌else◌, refl, Bool-cases, inl, inr, ltb, arith, Option-cases,
}
use mathlib.Core.Path.{subst}
use mathlib.Core.Option.{none-ne-some, some-injective}
use unicens2_driver.Common.Int.{ℤ, pos, negsuc, ◌==ℤ◌}
use unicens2_driver.Core.Types.{Channel, Aim, AimObj, points_to}
use unicens2_driver.Core.Text.{Text, str_eq}
use unicens2_driver.Core.Registry.{
  Node, Inst, Driver, Aims, Found, Registry, Probe, find_node, find_inst, found_node, inst_at,
  node_at, put_node, put_inst, get_channel_by_name, split_string,
}
use unicens2_driver.Core.Registry.Links.{
  link_channel_to_aim, unlink, unlinked, add_link_store, remove_link_store, add_to, remove_from,
  copied, param_of,
}
use unicens2_driver.Core.Registry.Interface.{
  most_register_aim, most_deregister_aim, leave_nodes, leave_insts, drop_driver, probe_aim,
  apply_probe, probe_config_set, find_configuration, most_register_config_set,
  most_deregister_config_set, World, Iface, new_channel, register_channels, register_inst,
  most_register_interface, drop_inst, most_deregister_interface,
}

abbrev pub known : List Driver → ℕ → Bool
known [] aim = false
known (d ∷ ds) aim = (d.aim.id == aim) || known ds aim

abbrev pub KnownLink : List Driver → AimObj → Type 0
KnownLink ds a = elim a.ptr [ none ↦ Unit {0} | some b ↦ known ds b.id ≡ true ]

abbrev pub KnownChannel : List Driver → Channel → Type 0
KnownChannel ds c = KnownLink ds c.aim0 × KnownLink ds c.aim1

abbrev pub KnownNodes : List Driver → List Node → Type 0
KnownNodes ds [] = Unit {0}
KnownNodes ds (n ∷ ns) = KnownChannel ds n.c × KnownNodes ds ns

abbrev pub KnownInsts : List Driver → List Inst → Type 0
KnownInsts ds [] = Unit {0}
KnownInsts ds (i ∷ is) = KnownNodes ds i.channel_list × KnownInsts ds is

KnownNodes-put :
    (ds : List Driver) (l : ℕ) (c : Channel) (ns : List Node)
    → KnownNodes ds ns
    → KnownChannel ds c
    → KnownNodes ds (put_node l c ns)
KnownNodes-put ds l c [] h k = tt
KnownNodes-put ds zero c (n ∷ ns) h k = (k, h.1)
KnownNodes-put ds (suc l) c (n ∷ ns) h k = (h.0, KnownNodes-put ds l c ns h.1 k)

KnownInsts-put :
    (ds : List Driver) (k l : ℕ) (c : Channel) (is : List Inst)
    → KnownInsts ds is
    → KnownChannel ds c
    → KnownInsts ds (put_inst k l c is)
KnownInsts-put ds k l c [] h v = tt
KnownInsts-put ds zero l c (i ∷ is) h v = (KnownNodes-put ds l c i.channel_list h.0 v, h.1)
KnownInsts-put ds (suc k) l c (i ∷ is) h v = (h.0, KnownInsts-put ds k l c is h.1 v)

KnownNodes-at :
    (ds : List Driver) (l : ℕ) (ns : List Node) (n : Node)
    → KnownNodes ds ns
    → node_at l ns ≡ some n
    → KnownChannel ds n.c
KnownNodes-at ds l [] n h e = absurd (none-ne-some n e)
KnownNodes-at ds zero (m ∷ ns) n h e = subst (λ x. KnownChannel ds x.c) (some-injective _ _ e) h.0
KnownNodes-at ds (suc l) (m ∷ ns) n h e = KnownNodes-at ds l ns n h.1 e

pub link-KnownChannel :
    (ds : List Driver) (aims : Aims) (iface : ℕ) (aim : Aim) (param : Text) (c : Channel)
    → known ds aim.id ≡ true
    → KnownChannel ds c
    → KnownChannel ds (link_channel_to_aim aims iface aim param c).1
unfolding link_channel_to_aim
link-KnownChannel ds aims iface aim param c e h = ground arith

pub unlink-KnownLink :
    (ds : List Driver) (aim : ℕ) (a : AimObj) → KnownLink ds a → KnownLink ds (unlink aim a)
unlink-KnownLink ds aim a h = ground arith

unlinked-KnownChannel :
    (ds : List Driver) (aim : ℕ) (c : Channel)
    → KnownChannel ds c
    → KnownChannel ds (unlinked aim c)
unfolding unlinked
unlinked-KnownChannel ds aim c h =
    (unlink-KnownLink ds aim c.aim0 h.0, unlink-KnownLink ds aim c.aim1 h.1)

-- The channel that is found is one of the list's.
KnownInsts-at :
    (ds : List Driver) (k : ℕ) (is : List Inst) (i : Inst)
    → KnownInsts ds is
    → inst_at k is ≡ some i
    → KnownNodes ds i.channel_list
KnownInsts-at ds k [] i h e = absurd (none-ne-some i e)
KnownInsts-at ds zero (j ∷ is) i h e =
    subst (λ x. KnownNodes ds x.channel_list) (some-injective _ _ e) h.0
KnownInsts-at ds (suc k) (j ∷ is) i h e = KnownInsts-at ds k is i h.1 e

-- What a lookup gives, if it gives anything.
abbrev FoundKnown : List Driver → Option Found → Type 0
FoundKnown ds o = elim o [ none ↦ Unit {0} | some f ↦ KnownChannel ds f.node.c ]

found_node-FoundKnown :
    (ds : List Driver) (k : ℕ) (i : Inst) (mdev_ch : Text)
    → KnownNodes ds i.channel_list
    → FoundKnown ds (found_node k i mdev_ch)
found_node-FoundKnown ds k i mdev_ch h = elim (Option-cases (find_node mdev_ch i.channel_list)) [
  | inl e ↦ rw (e, FoundKnown, found_node) tt
  | inr (l, e) ↦ elim (Option-cases (node_at l i.channel_list)) [
    | inl e' ↦ rw (e, e', FoundKnown, found_node) tt
    | inr (n, e') ↦ rw (e, e', FoundKnown, found_node) (KnownNodes-at ds l i.channel_list n h e')
  ]
]

get-FoundKnown :
    (ds : List Driver) (mdev mdev_ch : Text) (is : List Inst)
    → KnownInsts ds is
    → FoundKnown ds (get_channel_by_name mdev mdev_ch is)
unfolding get_channel_by_name
get-FoundKnown ds mdev mdev_ch is h = elim (Option-cases (find_inst mdev is)) [
  | inl e ↦ rw (e, get_channel_by_name) tt
  | inr (k, e) ↦ elim (Option-cases (inst_at k is)) [
    | inl e' ↦ rw (e, e', get_channel_by_name) tt
    | inr (i, e') ↦
        rw (e, e', get_channel_by_name)
          (found_node-FoundKnown ds k i mdev_ch (KnownInsts-at ds k is i h e'))
  ]
]

-- Every link of every registered channel points to a registered module.
pub record NoDangling (r : Registry) : Type 0 where
  pub linked : KnownInsts r.aim_list r.instance_list

add-NoDangling :
    (aims : Aims) (aim : Aim) (param : Text) (len : ℕ) (r : Registry) (o : Option Found)
    → known r.aim_list aim.id ≡ true
    → FoundKnown r.aim_list o
    → NoDangling r
    → NoDangling (add_to aims aim param len r o).1
add-NoDangling aims aim param len r none e f h = h
add-NoDangling aims aim param len r (some f) e k h = record {
  linked =
      KnownInsts-put r.aim_list f.inst_pos f.node_pos
        (link_channel_to_aim aims f.inst.dev_id aim param f.node.c).1 r.instance_list h.linked
        (link-KnownChannel r.aim_list aims f.inst.dev_id aim param f.node.c e k);
}

remove-NoDangling :
    (aims : Aims) (aim : Aim) (len : ℕ) (r : Registry) (o : Option Found)
    → FoundKnown r.aim_list o
    → NoDangling r
    → NoDangling (remove_from aims aim len r o).1
remove-NoDangling aims aim len r none f h = h
remove-NoDangling aims aim len r (some f) k h =
    let v : KnownInsts r.aim_list
        (put_inst f.inst_pos f.node_pos (unlinked aim.id f.node.c) r.instance_list) =
      KnownInsts-put r.aim_list f.inst_pos f.node_pos (unlinked aim.id f.node.c) r.instance_list
        h.linked (unlinked-KnownChannel r.aim_list aim.id f.node.c k) in
    elim (Bool-cases (aims.disconnect_channel aim.id f.inst.dev_id f.node.c.channel_id ==ℤ pos 0)) [
      | inl e ↦ rw e (record { linked = v })
      | inr e ↦ rw e (record { linked = h.linked })
    ]

pub add_store-NoDangling :
    (aims : Aims) (aim : Aim) (buf : Text) (len : ℕ) (r : Registry)
    → known r.aim_list aim.id ≡ true
    → NoDangling r
    → NoDangling (add_link_store aims aim buf len r).1
unfolding add_link_store
add_store-NoDangling aims aim buf len r e h = elim (Option-cases (split_string (copied buf len))) [
  | inl n ↦ rw (n, add_link_store) h
  | inr ((mdev, mdev_ch, p), s) ↦
      rw (s, add_link_store)
        (add-NoDangling aims aim (param_of mdev mdev_ch p) len r
          (get_channel_by_name mdev mdev_ch r.instance_list) e
          (get-FoundKnown r.aim_list mdev mdev_ch r.instance_list h.linked) h)
]

pub remove_store-NoDangling :
    (aims : Aims) (aim : Aim) (buf : Text) (len : ℕ) (r : Registry)
    → NoDangling r
    → NoDangling (remove_link_store aims aim buf len r).1
unfolding remove_link_store
remove_store-NoDangling aims aim buf len r h = elim (Option-cases (split_string (copied buf len))) [
  | inl n ↦ rw (n, remove_link_store) h
  | inr ((mdev, mdev_ch, p), s) ↦
      rw (s, remove_link_store)
        (remove-NoDangling aims aim len r (get_channel_by_name mdev mdev_ch r.instance_list)
          (get-FoundKnown r.aim_list mdev mdev_ch r.instance_list h.linked) h)
]
