-- ===== src/Core/Registry/Dangling/Kept.antt =====
-- Modules and interfaces that come and go leave no link to a module that is gone.
use unicens2_driver.Common.{
  ℕ, zero, suc, ◌+◌, ◌≡◌, ◌≢◌, true, Option, none, some, List, [], ◌∷◌, ◌++◌, ◌==◌, Bool-cases, inl,
  inr, arith, Option-cases,
}
use mathlib.Core.Path.{subst}
use unicens2_driver.Common.Int.{ℤ}
use unicens2_driver.Core.Types.{Channel, Aim, AimObj}
use unicens2_driver.Core.Text.{Text, str_eq, strlcpy}
use unicens2_driver.Core.Registry.{Node, Inst, Driver, Aims, Call, Registry, Probe, string_size}
use unicens2_driver.Core.Registry.Links.{unlink, unlinked}
use unicens2_driver.Core.Registry.Interface.{
  leave_nodes, leave_insts, drop_driver, probe_aim, apply_probe, param_text, matches,
  probe_config_set, find_configuration, World, Iface, channel_name, new_channel, register_channels,
  drop_inst,
}
use unicens2_driver.Core.Registry.Dangling.{
  known, KnownLink, KnownChannel, KnownNodes, KnownInsts, link-KnownChannel,
}

-- A longer list of modules.
known-append :
    (ds : List Driver) (d : Driver) (aim : ℕ)
    → known ds aim ≡ true
    → known (ds ++ d ∷ []) aim ≡ true
known-append [] d aim h = ground arith
known-append (x ∷ ds) d aim h = ground (arith, known-append ds d aim)

KnownLink-append :
    (ds : List Driver) (d : Driver) (a : AimObj) → KnownLink ds a → KnownLink (ds ++ d ∷ []) a
KnownLink-append ds d a h = elim (Option-cases a.ptr) [
  | inl e ↦ rw (e, KnownLink) tt
  | inr (b, e) ↦ rw (e, KnownLink) (known-append ds d b.id (rw (e, KnownLink) at h))
]

KnownNodes-append :
    (ds : List Driver) (d : Driver) (ns : List Node)
    → KnownNodes ds ns
    → KnownNodes (ds ++ d ∷ []) ns
KnownNodes-append ds d [] h = tt
KnownNodes-append ds d (n ∷ ns) h = (
  (KnownLink-append ds d n.c.aim0 h.0.0, KnownLink-append ds d n.c.aim1 h.0.1),
  KnownNodes-append ds d ns h.1,
)

pub KnownInsts-append :
    (ds : List Driver) (d : Driver) (is : List Inst)
    → KnownInsts ds is
    → KnownInsts (ds ++ d ∷ []) is
KnownInsts-append ds d [] h = tt
KnownInsts-append ds d (i ∷ is) h =
    (KnownNodes-append ds d i.channel_list h.0, KnownInsts-append ds d is h.1)

-- A module that leaves.
known-drop :
    (ds : List Driver) (aim b : ℕ)
    → b ≢ aim
    → known ds b ≡ true
    → known (drop_driver aim ds) b ≡ true
unfolding drop_driver
known-drop [] aim b n h = h
known-drop (d ∷ ds) aim b n h = ground (arith, known-drop ds aim b n)

pub unlink_ptr :
    (ds : List Driver) (aim : ℕ) (o : Option Aim) (refs num_buffers : ℤ)
    → KnownLink ds (record { ptr = o; refs = refs; num_buffers = num_buffers })
    → KnownLink
        (drop_driver aim ds)
        (unlink aim (record { ptr = o; refs = refs; num_buffers = num_buffers }))
unlink_ptr ds aim none refs num h = tt
unlink_ptr ds aim (some b) refs num h = elim (Bool-cases (b.id == aim)) [
  | inl e ↦ rw e tt
  | inr e ↦ rw e (known-drop ds aim b.id (ground (arith, e)) h)
]

unlink-KnownLink_drop :
    (ds : List Driver) (aim : ℕ) (a : AimObj)
    → KnownLink ds a
    → KnownLink (drop_driver aim ds) (unlink aim a)
unlink-KnownLink_drop ds aim a h = unlink_ptr ds aim a.ptr a.refs a.num_buffers h

leave-KnownNodes :
    (ds : List Driver) (aim : ℕ) (ns : List Node)
    → KnownNodes ds ns
    → KnownNodes (drop_driver aim ds) (leave_nodes aim ns)
unfolding leave_nodes unlinked
leave-KnownNodes ds aim [] h = tt
leave-KnownNodes ds aim (n ∷ ns) h = (
  (unlink-KnownLink_drop ds aim n.c.aim0 h.0.0, unlink-KnownLink_drop ds aim n.c.aim1 h.0.1),
  leave-KnownNodes ds aim ns h.1,
)

pub leave-KnownInsts :
    (ds : List Driver) (aim : ℕ) (is : List Inst)
    → KnownInsts ds is
    → KnownInsts (drop_driver aim ds) (leave_insts aim is)
unfolding leave_insts
leave-KnownInsts ds aim [] h = tt
leave-KnownInsts ds aim (i ∷ is) h =
    (leave-KnownNodes ds aim i.channel_list h.0, leave-KnownInsts ds aim is h.1)

-- Every module of the first list stands in the second.
abbrev Within : List Driver → List Driver → Type 0
Within ds es = (k : ℕ) → known ds k ≡ true → known es k ≡ true

-- A channel that is configured is linked to a registered module.
probe-KnownChannel :
    (es : List Driver) (aims : Aims) (iface : ℕ) (name : Text) (param : Option Text)
    (ds : List Driver) (c : Channel)
    → Within ds es
    → KnownChannel es c
    → KnownChannel es (probe_aim aims iface name param ds c).1
unfolding probe_aim
probe-KnownChannel es aims iface name param [] c sub h = h
probe-KnownChannel es aims iface name param (d ∷ ds) c sub h =
    elim (Bool-cases (str_eq d.name name)) [
      | inl e ↦
          rw (e, probe_aim)
            (link-KnownChannel es aims iface d.aim (strlcpy string_size (param_text param)) c
              (sub d.aim.id (ground arith)) h)
      | inr e ↦
          rw (e, probe_aim)
            (probe-KnownChannel es aims iface name param ds c (λ k w. sub k (ground (arith, w))) h)
    ]

apply-KnownChannel :
    (ds : List Driver) (aims : Aims) (iface : ℕ) (p : Probe) (c : Channel)
    → KnownChannel ds c
    → KnownChannel ds (apply_probe aims iface ds p c).0
apply-KnownChannel ds aims iface p c h = elim (Option-cases p.aim_name) [
  | inl e ↦ rw (e, apply_probe) h
  | inr (name, e) ↦
      rw (e, apply_probe)
        (probe-KnownChannel ds aims iface name p.aim_param ds (record c { cfg = p.cfg }) (λ k w. w)
          h)
]

abbrev ConfiguredKnown : List Driver → Option (Channel × List Call) → Type 0
ConfiguredKnown ds o = elim o [ none ↦ Unit {0} | some r ↦ KnownChannel ds r.0 ]

set-ConfiguredKnown :
    (ds : List Driver) (aims : Aims) (iface : ℕ) (dev_name ch_name : Text) (ps : List Probe)
    (c : Channel)
    → KnownChannel ds c
    → ConfiguredKnown ds (probe_config_set aims iface ds dev_name ch_name ps c)
unfolding probe_config_set
set-ConfiguredKnown ds aims iface dev_name ch_name [] c h = tt
set-ConfiguredKnown ds aims iface dev_name ch_name (p ∷ ps) c h =
    elim (Bool-cases (matches dev_name ch_name p)) [
      | inl e ↦ rw (e, probe_config_set) (apply-KnownChannel ds aims iface p c h)
      | inr e ↦ rw (e, probe_config_set) (set-ConfiguredKnown ds aims iface dev_name ch_name ps c h)
    ]

find-KnownChannel :
    (ds : List Driver) (aims : Aims) (iface : ℕ) (dev_name ch_name : Text)
    (sets : List (List Probe)) (c : Channel)
    → KnownChannel ds c
    → KnownChannel ds (find_configuration aims iface ds dev_name ch_name sets c).0
unfolding find_configuration
find-KnownChannel ds aims iface dev_name ch_name [] c h = h
find-KnownChannel ds aims iface dev_name ch_name (ps ∷ sets) c h =
    let v = set-ConfiguredKnown ds aims iface dev_name ch_name ps c h in
    elim (Option-cases (probe_config_set aims iface ds dev_name ch_name ps c)) [
      | inl e ↦
          rw (e, find_configuration) (find-KnownChannel ds aims iface dev_name ch_name sets c h)
      | inr (r, e) ↦ rw (e, find_configuration) (subst (ConfiguredKnown ds) e v)
    ]

new-KnownChannel : (ds : List Driver) (i : ℕ) → KnownChannel ds (new_channel i)
unfolding new_channel
new-KnownChannel ds i = (tt, tt)

pub channels-KnownNodes :
    (aims : Aims) (w : World) (iface : Iface) (id : ℕ) (r : Registry) (n i : ℕ)
    → KnownNodes r.aim_list (register_channels aims w iface id r n i).1
unfolding register_channels
channels-KnownNodes aims w iface id r zero i = tt
channels-KnownNodes aims w iface id r (suc n) i = elim (Bool-cases (w.channel_ok i)) [
  | inl e ↦
      rw (e, register_channels)
        (
          find-KnownChannel r.aim_list aims id iface.description (channel_name w iface i)
              r.config_probes (new_channel i) (new-KnownChannel r.aim_list i),
          channels-KnownNodes aims w iface id r n (i + 1),
        )
  | inr e ↦ rw (e, register_channels) tt
]

pub KnownInsts-snoc :
    (ds : List Driver) (is : List Inst) (i : Inst)
    → KnownInsts ds is
    → KnownNodes ds i.channel_list
    → KnownInsts ds (is ++ i ∷ [])
KnownInsts-snoc ds [] i h v = (v, tt)
KnownInsts-snoc ds (j ∷ is) i h v = (h.0, KnownInsts-snoc ds is i h.1 v)

pub drop-KnownInsts :
    (ds : List Driver) (id : ℕ) (is : List Inst)
    → KnownInsts ds is
    → KnownInsts ds (drop_inst id is)
unfolding drop_inst
drop-KnownInsts ds id [] h = tt
drop-KnownInsts ds id (i ∷ is) h = elim (Bool-cases (i.dev_id == id)) [
  | inl e ↦ rw (e, drop_inst) (drop-KnownInsts ds id is h.1)
  | inr e ↦ rw (e, drop_inst) (h.0, drop-KnownInsts ds id is h.1)
]
