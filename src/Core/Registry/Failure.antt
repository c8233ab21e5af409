-- ===== src/Core/Registry/Failure.antt =====
-- What a registration that fails leaves behind.
use unicens2_driver.Common.{
  ℕ, zero, suc, ◌+◌, ◌≡◌, inl, inr, true, false, Option, none, some, List, [], ◌∷◌, ◌++◌, refl, ap,
  ◌∙◌, Bool-cases, Option-cases, ltb,
}
use mathlib.Core.List.{append-nil}
use mathlib.Core.Path.{subst}
use unicens2_driver.Common.Int.{pos}
use unicens2_driver.Core.Types.{Channel, Aim, enomem}
use unicens2_driver.Core.Text.{Text, str_eq, strlcpy}
use unicens2_driver.Core.Registry.{
  Node, Driver, Aims, Call, probed, disconnected, Registry, Probe, string_size,
}
use unicens2_driver.Core.Registry.Links.{link_channel_to_aim}
use unicens2_driver.Core.Registry.Interface.{
  probe_aim, apply_probe, param_text, matches, probe_config_set, find_configuration, World, Iface,
  channel_name, new_channel, register_channels, register_inst, most_register_interface,
  max_channels,
}

-- No call disconnects a module.
abbrev pub OnlyProbes : List Call → Type 0
OnlyProbes [] = Unit {0}
OnlyProbes (probed aim iface ch param ret ∷ cs) = OnlyProbes cs
OnlyProbes (disconnected aim iface ch ∷ cs) = ⊥

OnlyProbes-append : (cs ds : List Call) → OnlyProbes cs → OnlyProbes ds → OnlyProbes (cs ++ ds)
OnlyProbes-append [] ds h k = k
OnlyProbes-append (probed a i c p r ∷ cs) ds h k = OnlyProbes-append cs ds h k
OnlyProbes-append (disconnected a i c ∷ cs) ds h k = absurd h

link-OnlyProbes :
    (aims : Aims) (iface : ℕ) (aim : Aim) (param : Text) (c : Channel)
    → OnlyProbes (link_channel_to_aim aims iface aim param c).2
unfolding link_channel_to_aim
link-OnlyProbes aims iface aim param c = elim (Option-cases c.aim0.ptr) [
  | inl e ↦ rw (e, link_channel_to_aim) tt
  | inr (b, e) ↦ elim (Option-cases c.aim1.ptr) [
    | inl e' ↦ rw (e, e', link_channel_to_aim) tt
    | inr (b', e') ↦ rw (e, e', link_channel_to_aim) tt
  ]
]

probe-OnlyProbes :
    (aims : Aims) (iface : ℕ) (name : Text) (param : Option Text) (ds : List Driver) (c : Channel)
    → OnlyProbes (probe_aim aims iface name param ds c).2
unfolding probe_aim
probe-OnlyProbes aims iface name param [] c = tt
probe-OnlyProbes aims iface name param (d ∷ ds) c = elim (Bool-cases (str_eq d.name name)) [
  | inl e ↦
      rw (e, probe_aim)
        (link-OnlyProbes aims iface d.aim (strlcpy string_size (param_text param)) c)
  | inr e ↦ rw (e, probe_aim) (probe-OnlyProbes aims iface name param ds c)
]

apply-OnlyProbes :
    (aims : Aims) (iface : ℕ) (ds : List Driver) (p : Probe) (c : Channel)
    → OnlyProbes (apply_probe aims iface ds p c).1
apply-OnlyProbes aims iface ds p c = elim (Option-cases p.aim_name) [
  | inl e ↦ rw (e, apply_probe) tt
  | inr (name, e) ↦
      rw (e, apply_probe)
        (probe-OnlyProbes aims iface name p.aim_param ds (record c { cfg = p.cfg }))
]

abbrev SetProbes : Option (Channel × List Call) → Type 0
SetProbes o = elim o [ none ↦ Unit {0} | some r ↦ OnlyProbes r.1 ]

set-SetProbes :
    (aims : Aims) (iface : ℕ) (ds : List Driver) (dev_name ch_name : Text) (ps : List Probe)
    (c : Channel)
    → SetProbes (probe_config_set aims iface ds dev_name ch_name ps c)
unfolding probe_config_set
set-SetProbes aims iface ds dev_name ch_name [] c = tt
set-SetProbes aims iface ds dev_name ch_name (p ∷ ps) c =
    elim (Bool-cases (matches dev_name ch_name p)) [
      | inl e ↦ rw (e, probe_config_set) (apply-OnlyProbes aims iface ds p c)
      | inr e ↦ rw (e, probe_config_set) (set-SetProbes aims iface ds dev_name ch_name ps c)
    ]

find-OnlyProbes :
    (aims : Aims) (iface : ℕ) (ds : List Driver) (dev_name ch_name : Text)
    (sets : List (List Probe)) (c : Channel)
    → OnlyProbes (find_configuration aims iface ds dev_name ch_name sets c).1
unfolding find_configuration
find-OnlyProbes aims iface ds dev_name ch_name [] c = tt
find-OnlyProbes aims iface ds dev_name ch_name (ps ∷ sets) c =
    elim (Option-cases (probe_config_set aims iface ds dev_name ch_name ps c)) [
      | inl e ↦ rw (e, find_configuration) (find-OnlyProbes aims iface ds dev_name ch_name sets c)
      | inr (r, e) ↦
          rw (e, find_configuration)
            (subst SetProbes e (set-SetProbes aims iface ds dev_name ch_name ps c))
    ]

channels-OnlyProbes :
    (aims : Aims) (w : World) (iface : Iface) (id : ℕ) (r : Registry) (n i : ℕ)
    → OnlyProbes (register_channels aims w iface id r n i).2
unfolding register_channels
channels-OnlyProbes aims w iface id r zero i = tt
channels-OnlyProbes aims w iface id r (suc n) i = elim (Bool-cases (w.channel_ok i)) [
  | inl e ↦
      rw (e, register_channels)
        (OnlyProbes-append
          (find_configuration aims id r.aim_list iface.description (channel_name w iface i)
            r.config_probes (new_channel i)).1
          (register_channels aims w iface id r n (i + 1)).2
          (find-OnlyProbes aims id r.aim_list iface.description (channel_name w iface i)
            r.config_probes (new_channel i))
          (channels-OnlyProbes aims w iface id r n (i + 1)))
  | inr e ↦ rw (e, register_channels) tt
]

-- The configuration of the first channel of an interface.
abbrev pub first_calls : Aims → World → Iface → ℕ → Registry → List Call
first_calls aims w iface id r =
    (find_configuration aims id r.aim_list iface.description (channel_name w iface 0)
      r.config_probes (new_channel 0)).1

second_fails :
    (aims : Aims) (w : World) (iface : Iface) (id : ℕ) (r : Registry) (n : ℕ)
    → w.channel_ok 0 ≡ true
    → w.channel_ok 1 ≡ false
    → register_channels aims w iface id r (suc (suc n)) 0 ≡ (
      false,
      record {
        name = channel_name w iface 0;
        c =
            (find_configuration aims id r.aim_list iface.description
              (channel_name w iface 0)
              r.config_probes
              (new_channel 0)).0;
      }
          ∷ [],
      first_calls aims w iface id r,
    )
unfolding register_channels
second_fails aims w iface id r n h0 h1 = simp (h0, h1, append-nil, register_channels)

inst_fails :
    (aims : Aims) (w : World) (iface : Iface) (id : ℕ) (r : Registry) (nodes : List Node)
    (calls : List Call)
    → w.inst_ok ≡ true
    → register_channels aims w iface id r iface.num_channels 0 ≡ (false, nodes, calls)
    → let (ret, s) = register_inst aims w iface id r in
      (ret ≡ enomem) × (s.instance_list ≡ r.instance_list) × (s.calls ≡ r.calls ++ calls)
unfolding register_inst
inst_fails aims w iface id r nodes calls h e = simp (h, e, register_inst) (refl, refl, refl)

register_id :
    (aims : Aims) (w : World) (iface : Iface) (r : Registry) (id : ℕ)
    → iface.complete ≡ true
    → ltb max_channels iface.num_channels ≡ false
    → w.id ≡ pos id
    → most_register_interface aims w iface r ≡ register_inst aims w iface id r
unfolding most_register_interface
register_id aims w iface r id h0 h2 h3 = simp (h0, h2, h3, most_register_interface)

-- Where the second channel of an interface cannot be created, `most_register_interface` returns
-- -ENOMEM and the instances are as before; but the application modules that a configuration set has
-- linked to the first channel were probed, and none of them is disconnected.
pub register_fails :
    (aims : Aims) (w : World) (iface : Iface) (r : Registry) (id n : ℕ)
    → iface.complete ≡ true
    → iface.num_channels ≡ suc (suc n)
    → ltb max_channels iface.num_channels ≡ false
    → w.id ≡ pos id
    → w.inst_ok ≡ true
    → w.channel_ok 0 ≡ true
    → w.channel_ok 1 ≡ false
    → let (ret, s) = most_register_interface aims w iface r in
      (ret ≡ enomem)
      × (s.instance_list ≡ r.instance_list)
      × (s.calls ≡ r.calls ++ first_calls aims w iface id r)
      × OnlyProbes (first_calls aims w iface id r)
register_fails aims w iface r id n h0 h1 h2 h3 h4 h5 h6 =
    let e = register_id aims w iface r id h0 h2 h3 in
    let (a, b, c) = inst_fails aims w iface id r _ _ h4 (
      ap (λ k. register_channels aims w iface id r k 0) h1
      ∙ second_fails aims w iface id r n h5 h6) in
    (
      ap (λ x. x.0) e ∙ a,
      ap (λ x. x.1.instance_list) e ∙ b,
      ap (λ x. x.1.calls) e ∙ c,
      find-OnlyProbes aims id r.aim_list iface.description (channel_name w iface 0) r.config_probes
          (new_channel 0),
    )
