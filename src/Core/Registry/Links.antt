-- ===== src/Core/Registry/Links.antt =====
-- The links of mostcore/core.c: `link_channel_to_aim` and the attributes that add, remove and show
-- links.
use unicens2_driver.Common.{
  ℕ, ◌+◌, ◌||◌, not, Option, none, some, List, [], ◌∷◌, ◌++◌, if◌then◌else◌, ltb,
}
use unicens2_driver.Common.Int.{ℤ, pos, ◌==ℤ◌}
use unicens2_driver.Core.Types.{Channel, Aim, AimObj, eio, enodev, enospc, points_to}
use unicens2_driver.Core.Text.{Text, text, strlcpy}
use unicens2_driver.Core.Registry.{
  string_size, Node, Inst, Call, probed, disconnected, Aims, split_string, Found,
  get_channel_by_name, put_inst, Registry,
}

-- `*aim_ptr = aim` and what follows, with what `probe_channel` returns.
abbrev pub link_if : ℤ → Aim → AimObj → AimObj
link_if ret aim a = record a { ptr = if ret ==ℤ pos 0 then some aim else none }

-- `link_channel_to_aim` on a channel of the interface `iface`.
unfoldable pub link_channel_to_aim : Aims → ℕ → Aim → Text → Channel → ℤ × Channel × List Call
link_channel_to_aim aims iface aim param c =
    let ret = aims.probe_channel aim.id iface c.channel_id c.cfg param in
    let call = probed aim.id iface c.channel_id param ret ∷ [] in
    elim c.aim0.ptr [
      | none ↦ (ret, record c { aim0 = link_if ret aim c.aim0 }, call)
      | some b ↦ elim c.aim1.ptr [
        | none ↦ (ret, record c { aim1 = link_if ret aim c.aim1 }, call)
        | some d ↦ (enospc, c, [])
      ]
    ]

-- The name for a link that gives none: `snprintf` of "%s-%s" into 80 bytes.
abbrev pub param_of : Text → Text → Option Text → Text
param_of mdev mdev_ch none = strlcpy string_size (mdev ++ text "-" ++ mdev_ch)
param_of mdev mdev_ch (some []) = strlcpy string_size (mdev ++ text "-" ++ mdev_ch)
param_of mdev mdev_ch (some (x ∷ t)) = x ∷ t

-- `strlcpy(buffer, buf, max_len)` of the two stores.
abbrev pub copied : Text → ℕ → Text
copied buf len = strlcpy (if ltb (len + 1) string_size then len + 1 else string_size) buf

abbrev pub add_to : Aims → Aim → Text → ℕ → Registry → Option Found → ℤ × Registry
add_to aims aim param len r none = (enodev, r)
add_to aims aim param len r (some f) =
    let (ret, c, calls) = link_channel_to_aim aims f.inst.dev_id aim param f.node.c in
    (
      if ret ==ℤ pos 0 then pos len else ret,
      record r {
        instance_list = put_inst f.inst_pos f.node_pos c r.instance_list;
        calls = r.calls ++ calls;
      },
    )

unfoldable pub add_link_store : Aims → Aim → Text → ℕ → Registry → ℤ × Registry
add_link_store aims aim buf len r = elim (split_string (copied buf len)) [
  | none ↦ (eio, r)
  | some (mdev, mdev_ch, p) ↦
      add_to aims aim (param_of mdev mdev_ch p) len r
        (get_channel_by_name mdev mdev_ch r.instance_list)
]

-- `if (c->aimN.ptr == aim) c->aimN.ptr = NULL`.
abbrev pub unlink : ℕ → AimObj → AimObj
unlink aim a = if points_to a aim then record a { ptr = none } else a

unfoldable pub unlinked : ℕ → Channel → Channel
unlinked aim c = record c { aim0 = unlink aim c.aim0; aim1 = unlink aim c.aim1 }

abbrev pub remove_from : Aims → Aim → ℕ → Registry → Option Found → ℤ × Registry
remove_from aims aim len r none = (enodev, r)
remove_from aims aim len r (some f) =
    let ret = aims.disconnect_channel aim.id f.inst.dev_id f.node.c.channel_id in
    let s = record r {
      calls = r.calls ++ disconnected aim.id f.inst.dev_id f.node.c.channel_id ∷ [];
    } in
    if not (ret ==ℤ pos 0) then (eio, s) else (
      pos len,
      record s {
        instance_list = put_inst f.inst_pos f.node_pos (unlinked aim.id f.node.c) r.instance_list;
      },
    )

unfoldable pub remove_link_store : Aims → Aim → Text → ℕ → Registry → ℤ × Registry
remove_link_store aims aim buf len r = elim (split_string (copied buf len)) [
  | none ↦ (eio, r)
  | some (mdev, mdev_ch, p) ↦
      remove_from aims aim len r (get_channel_by_name mdev mdev_ch r.instance_list)
]

-- The lines of `links_show`. A text that is longer than a page is not cut here.
abbrev pub show_nodes : ℕ → Text → List Node → Text
show_nodes aim inst [] = []
show_nodes aim inst (n ∷ ns) =
    (if points_to n.c.aim0 aim || points_to n.c.aim1 aim
      then inst ++ text ":" ++ n.name ++ text "\n"
      else [])
    ++ show_nodes aim inst ns

unfoldable pub show_links : ℕ → List Inst → Text
show_links aim [] = []
show_links aim (i ∷ is) = show_nodes aim i.name i.channel_list ++ show_links aim is

unfoldable pub links_show : ℕ → Registry → Text
links_show aim r = show_links aim r.instance_list
