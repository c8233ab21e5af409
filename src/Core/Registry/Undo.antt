-- ===== src/Core/Registry/Undo.antt =====
-- Linking a channel, and taking the link back.
use unicens2_driver.Common.{
  ℕ, ◌+◌, ◌≡◌, ◌≢◌, ◌⊎◌, inl, inr, Bool, true, false, ◌||◌, Option, none, some, List, [],
  if◌then◌else◌, refl, ap, ◌∙◌, arith,
}
use unicens2_driver.Common.Int.{ℤ, pos}
use unicens2_driver.Core.Types.{Channel, Aim, AimObj, enospc, points_to}
use unicens2_driver.Core.Text.{Text}
use unicens2_driver.Core.Registry.{
  Aims, Call, Registry, Found, split_string, get_channel_by_name, put_inst,
}
use unicens2_driver.Core.Registry.Links.{
  link_channel_to_aim, unlinked, add_to, remove_from, add_link_store, remove_link_store, copied,
  param_of,
}
use unicens2_driver.Core.Registry.Lookup.{written, get-IsAt, get_put, put_self, put_inst_put}

abbrev one_if : Bool → ℕ
one_if b = if b then 1 else 0

-- How many of the two links of a channel point to the module.
abbrev pub links_to : ℕ → Channel → ℕ
links_to aim c = one_if (points_to c.aim0 aim) + one_if (points_to c.aim1 aim)

abbrev pub is_free : AimObj → Bool
is_free a = elim a.ptr [ none ↦ true | some b ↦ false ]

-- The three outcomes of `link_channel_to_aim`.
abbrev pub LinkOutcome : Aim → ℤ → Channel → ℤ × Channel × List Call → Type 0
LinkOutcome aim answer c (ret, d, calls) =
    ((is_free c.aim0 || is_free c.aim1) ≡ false) × (ret ≡ enospc) × (d ≡ c) × (calls ≡ [])
    ⊎ ((is_free c.aim0 || is_free c.aim1) ≡ true)
      × (ret ≡ answer)
      × ((ret ≢ pos 0) × (d ≡ c)
          ⊎ (ret ≡ pos 0)
            × (links_to aim.id d ≡ links_to aim.id c + 1)
            × (unlinked aim.id d ≡ unlinked aim.id c))

link_go :
    (aims : Aims) (iface : ℕ) (aim : Aim) (param : Text) (c : Channel) (p0 p1 : Option Aim)
    → let d = record c { aim0 = record c.aim0 { ptr = p0 }; aim1 = record c.aim1 { ptr = p1 } } in
      LinkOutcome aim
        (aims.probe_channel aim.id iface c.channel_id c.cfg param)
        d
        (link_channel_to_aim aims iface aim param d)
unfolding link_channel_to_aim unlinked
link_go aims iface aim param c none p1 = ground arith
link_go aims iface aim param c (some b) none = ground arith
link_go aims iface aim param c (some b) (some b') = inl (refl, refl, refl, refl)

-- `link_channel_to_aim` on every branch: without a free link it returns -ENOSPC and calls nobody;
-- else it returns what `probe_channel` returned, and either that is an error and the channel is as
-- before, or it is 0, one more link points to the module, and that is all that changed.
pub link_outcome :
    (aims : Aims) (iface : ℕ) (aim : Aim) (param : Text) (c : Channel)
    → LinkOutcome aim
        (aims.probe_channel aim.id iface c.channel_id c.cfg param)
        c
        (link_channel_to_aim aims iface aim param c)
link_outcome aims iface aim param c = link_go aims iface aim param c c.aim0.ptr c.aim1.ptr

unlinked_free :
    (aim : ℕ) (c : Channel)
    → points_to c.aim0 aim ≡ false
    → points_to c.aim1 aim ≡ false
    → unlinked aim c ≡ c
unfolding unlinked
unlinked_free aim c h0 h1 = rw (h0, h1, unlinked) refl

link-unlinked :
    (aims : Aims) (iface : ℕ) (aim : Aim) (param : Text) (c : Channel)
    → unlinked aim.id (link_channel_to_aim aims iface aim param c).1 ≡ unlinked aim.id c
link-unlinked aims iface aim param c = elim (link_outcome aims iface aim param c) [
  | inl o ↦ ap (unlinked aim.id) o.2
  | inr (f, r, inl o) ↦ ap (unlinked aim.id) o.1
  | inr (f, r, inr o) ↦ o.2
]

link-channel_id :
    (aims : Aims) (iface : ℕ) (aim : Aim) (param : Text) (c : Channel)
    → (link_channel_to_aim aims iface aim param c).1.channel_id ≡ c.channel_id
unfolding unlinked
link-channel_id aims iface aim param c =
    ap (λ x. x.channel_id) (link-unlinked aims iface aim param c)

-- What the two attributes do once the channel is found.
removed_at :
    (aims : Aims) (aim : Aim) (buf : Text) (len : ℕ) (r : Registry) (mdev mdev_ch : Text)
    (p : Option Text) (f : Found)
    → split_string (copied buf len) ≡ some (mdev, mdev_ch, p)
    → get_channel_by_name mdev mdev_ch r.instance_list ≡ some f
    → aims.disconnect_channel aim.id f.inst.dev_id f.node.c.channel_id ≡ pos 0
    → let removed = remove_link_store aims aim buf len r in
      (removed.0 ≡ pos len)
      × (removed.1.instance_list
          ≡ put_inst f.inst_pos f.node_pos (unlinked aim.id f.node.c) r.instance_list)
unfolding remove_link_store
removed_at aims aim buf len r mdev mdev_ch p f split found agrees =
    rw (split, found, agrees, remove_link_store, remove_from) (refl, refl)

added_at :
    (aims : Aims) (aim : Aim) (buf : Text) (len : ℕ) (r : Registry) (mdev mdev_ch : Text)
    (p : Option Text) (f : Found)
    → split_string (copied buf len) ≡ some (mdev, mdev_ch, p)
    → get_channel_by_name mdev mdev_ch r.instance_list ≡ some f
    → (add_link_store aims aim buf len r).1.instance_list
      ≡ put_inst f.inst_pos f.node_pos
          (link_channel_to_aim aims f.inst.dev_id aim (param_of mdev mdev_ch p) f.node.c).1
          r.instance_list
unfolding add_link_store
added_at aims aim buf len r mdev mdev_ch p f split found =
    rw (split, found, add_link_store, add_to) refl

module _ (aims : Aims) (aim : Aim) (buf : Text) (len : ℕ) (r : Registry) (mdev mdev_ch : Text)
    (p : Option Text) (f : Found) (split : split_string (copied buf len) ≡ some (mdev, mdev_ch, p))
    (found : get_channel_by_name mdev mdev_ch r.instance_list ≡ some f)
    (free0 : points_to f.node.c.aim0 aim.id ≡ false)
    (free1 : points_to f.node.c.aim1 aim.id ≡ false)
    (agrees : aims.disconnect_channel aim.id f.inst.dev_id f.node.c.channel_id ≡ pos 0) where
  -- For a channel that exists and is not linked to the module yet, whatever `add_link` returned: a
  -- `remove_link` with the same text, which the module agrees to, returns the length of the text, and
  -- the instances are as they were before the two.
  pub remove-add :
      let added = add_link_store aims aim buf len r in
      let removed = remove_link_store aims aim buf len added.1 in
      (removed.0 ≡ pos len) × (removed.1.instance_list ≡ r.instance_list)
  remove-add =
      let d = (link_channel_to_aim aims f.inst.dev_id aim (param_of mdev mdev_ch p) f.node.c).1 in
      let g : Found = record f {
        inst = written f.node_pos d f.inst;
        node = record f.node { c = d };
      } in
      let at = get-IsAt mdev mdev_ch r.instance_list f found in
      let back : unlinked aim.id d ≡ f.node.c =
        link-unlinked aims f.inst.dev_id aim (param_of mdev mdev_ch p) f.node.c
        ∙ unlinked_free aim.id f.node.c free0 free1 in
      let added : (add_link_store aims aim buf len r).1.instance_list
          ≡ put_inst f.inst_pos f.node_pos d r.instance_list =
        added_at aims aim buf len r mdev mdev_ch p f split found in
      let found' : get_channel_by_name mdev mdev_ch
            (add_link_store aims aim buf len r).1.instance_list
          ≡ some g =
        rw added (get_put mdev mdev_ch r.instance_list f d at) in
      let same_id : d.channel_id ≡ f.node.c.channel_id =
        link-channel_id aims f.inst.dev_id aim (param_of mdev mdev_ch p) f.node.c in
      let (ret, list) =
        removed_at aims aim buf len (add_link_store aims aim buf len r).1 mdev mdev_ch p g split
          found' (rw same_id agrees) in
      (
        ret,
        list
            ∙ ap (put_inst f.inst_pos f.node_pos (unlinked aim.id d)) added
            ∙ put_inst_put f.inst_pos f.node_pos d (unlinked aim.id d) r.instance_list
            ∙ ap (λ x. put_inst f.inst_pos f.node_pos x r.instance_list) back
            ∙ put_self mdev mdev_ch r.instance_list f at,
      )
