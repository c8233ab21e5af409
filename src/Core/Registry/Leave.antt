-- ===== src/Core/Registry/Leave.antt =====
-- What is left when an application module goes.
use unicens2_driver.Common.{
  ℕ, ◌≡◌, ◌≢◌, true, false, List, [], ◌∷◌, ◌++◌, ◌==◌, refl, arith, ap₂, Bool-cases, inl, inr,
}
use unicens2_driver.Core.Types.{AimObj, points_to}
use unicens2_driver.Core.Text.{Text}
use unicens2_driver.Core.Registry.{Node, Inst, Driver, Registry}
use unicens2_driver.Core.Registry.Links.{unlink, unlinked, show_nodes, show_links, links_show}
use unicens2_driver.Core.Registry.Interface.{
  leave_nodes, leave_insts, drop_driver, most_deregister_aim,
}
use unicens2_driver.Core.Registry.Dangling.{known}

unlink_same : (aim : ℕ) (a : AimObj) → points_to (unlink aim a) aim ≡ false
unlink_same aim a = ground arith

unlink_other : (aim b : ℕ) (a : AimObj) → b ≢ aim → points_to (unlink aim a) b ≡ points_to a b
unlink_other aim b a n = ground arith

show_nodes_same :
    (aim : ℕ) (inst : Text) (ns : List Node) → show_nodes aim inst (leave_nodes aim ns) ≡ []
unfolding leave_nodes unlinked
show_nodes_same aim inst [] = refl
show_nodes_same aim inst (n ∷ ns) =
    rw (unlink_same aim n.c.aim0, unlink_same aim n.c.aim1, show_nodes_same aim inst ns) refl

show_nodes_other :
    (aim b : ℕ) (inst : Text) (ns : List Node)
    → b ≢ aim
    → show_nodes b inst (leave_nodes aim ns) ≡ show_nodes b inst ns
unfolding leave_nodes unlinked
show_nodes_other aim b inst [] h = refl
show_nodes_other aim b inst (n ∷ ns) h =
    rw
      (
        unlink_other aim b n.c.aim0 h,
        unlink_other aim b n.c.aim1 h,
        show_nodes_other aim b inst ns h,
      )
      refl

show_links_same : (aim : ℕ) (is : List Inst) → show_links aim (leave_insts aim is) ≡ []
unfolding show_links leave_insts
show_links_same aim [] = refl
show_links_same aim (i ∷ is) =
    rw (show_nodes_same aim i.name i.channel_list, show_links_same aim is) refl

show_links_other :
    (aim b : ℕ) (is : List Inst) → b ≢ aim → show_links b (leave_insts aim is) ≡ show_links b is
unfolding show_links leave_insts
show_links_other aim b [] h = refl
show_links_other aim b (i ∷ is) h =
    ap₂ ◌++◌ (show_nodes_other aim b i.name i.channel_list h) (show_links_other aim b is h)

drop-known : (aim : ℕ) (ds : List Driver) → known (drop_driver aim ds) aim ≡ false
unfolding drop_driver
drop-known aim [] = refl
drop-known aim (d ∷ ds) = elim (Bool-cases (d.aim.id == aim)) [
  | inl e ↦ rw (e, drop_driver) (drop-known aim ds)
  | inr e ↦ rw (e, drop_driver) (rw (e, drop-known aim ds) refl)
]

-- After `most_deregister_aim` of a registered module, the module is registered no more and
-- `links_show` lists no channel for it; what it lists for any other module is unchanged.
pub deregister-links :
    (aim b : ℕ) (r : Registry)
    → b ≢ aim
    → let s = (most_deregister_aim true aim r).1 in
      (known s.aim_list aim ≡ false) × (links_show aim s ≡ []) × (links_show b s ≡ links_show b r)
unfolding most_deregister_aim links_show
deregister-links aim b r h = (
  drop-known aim r.aim_list,
  show_links_same aim r.instance_list,
  show_links_other aim b r.instance_list h,
)
