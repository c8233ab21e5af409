-- ===== src/Core/Registry/Lookup.antt =====
-- Lookups and writes through a pointer to a channel.
use unicens2_driver.Common.{
  ℕ, zero, suc, ◌≡◌, Option, some, List, [], ◌∷◌, refl, ap, ◌∙◌, sym, Option-cases, inl, inr,
}
use mathlib.Core.Option.{none-ne-some, some-injective}
use mathlib.Core.Path.{subst}
use unicens2_driver.Core.Types.{Channel}
use unicens2_driver.Core.Text.{Text}
use unicens2_driver.Core.Registry.{
  Node, Inst, Found, find_node, find_inst, found_node, inst_at, node_at, put_node, put_inst,
  get_channel_by_name,
}

-- A write changes no name.
find_node_put :
    (t : Text) (l : ℕ) (c : Channel) (ns : List Node)
    → find_node t (put_node l c ns) ≡ find_node t ns
find_node_put t l c [] = refl
find_node_put t zero c (n ∷ ns) = refl
find_node_put t (suc l) c (n ∷ ns) = rw (find_node_put t l c ns) refl

find_inst_put :
    (t : Text) (k l : ℕ) (c : Channel) (is : List Inst)
    → find_inst t (put_inst k l c is) ≡ find_inst t is
find_inst_put t k l c [] = refl
find_inst_put t zero l c (i ∷ is) = refl
find_inst_put t (suc k) l c (i ∷ is) = rw (find_inst_put t k l c is) refl

node_at_put :
    (l : ℕ) (c : Channel) (ns : List Node) (n : Node)
    → node_at l ns ≡ some n
    → node_at l (put_node l c ns) ≡ some (record n { c = c })
node_at_put l c [] n e = absurd (none-ne-some n e)
node_at_put zero c (m ∷ ns) n e =
    ap {B = Option Node} (λ x. some (record x { c = c })) (some-injective _ _ e)
node_at_put (suc l) c (m ∷ ns) n e = node_at_put l c ns n e

abbrev pub written : ℕ → Channel → Inst → Inst
written l c i = record i { channel_list = put_node l c i.channel_list }

inst_at_put :
    (k l : ℕ) (c : Channel) (is : List Inst) (i : Inst)
    → inst_at k is ≡ some i
    → inst_at k (put_inst k l c is) ≡ some (written l c i)
inst_at_put k l c [] i e = absurd (none-ne-some i e)
inst_at_put zero l c (j ∷ is) i e = ap (λ x. some (written l c x)) (some-injective _ _ e)
inst_at_put (suc k) l c (j ∷ is) i e = inst_at_put k l c is i e

put_node_put :
    (l : ℕ) (c d : Channel) (ns : List Node) → put_node l d (put_node l c ns) ≡ put_node l d ns
put_node_put l c d [] = refl
put_node_put zero c d (n ∷ ns) = refl
put_node_put (suc l) c d (n ∷ ns) = rw (put_node_put l c d ns) refl

pub put_inst_put :
    (k l : ℕ) (c d : Channel) (is : List Inst)
    → put_inst k l d (put_inst k l c is) ≡ put_inst k l d is
put_inst_put k l c d [] = refl
put_inst_put zero l c d (i ∷ is) = rw (put_node_put l c d i.channel_list) refl
put_inst_put (suc k) l c d (i ∷ is) = rw (put_inst_put k l c d is) refl

put_node_self : (l : ℕ) (ns : List Node) (n : Node) → node_at l ns ≡ some n → put_node l n.c ns ≡ ns
put_node_self l [] n e = refl
put_node_self zero (m ∷ ns) n e = ap (λ x. record m { c = x.c } ∷ ns) (sym (some-injective _ _ e))
put_node_self (suc l) (m ∷ ns) n e = rw (put_node_self l ns n e) refl

put_inst_self :
    (k l : ℕ) (is : List Inst) (i : Inst) (n : Node)
    → inst_at k is ≡ some i
    → node_at l i.channel_list ≡ some n
    → put_inst k l n.c is ≡ is
put_inst_self k l [] i n e f = refl
put_inst_self zero l (j ∷ is) i n e f =
    let s : j ≡ i = some-injective _ _ e in
    ap (λ x. record j { channel_list = x } ∷ is)
      (put_node_self l j.channel_list n (subst (λ x. node_at l x.channel_list ≡ some n) (sym s) f))
put_inst_self (suc k) l (j ∷ is) i n e f = rw (put_inst_self k l is i n e f) refl

-- Where the channel that was found stands.
pub record IsAt (mdev mdev_ch : Text) (is : List Inst) (f : Found) : Type 0 where
  pub inst_pos : find_inst mdev is ≡ some f.inst_pos
  pub inst : inst_at f.inst_pos is ≡ some f.inst
  pub node_pos : find_node mdev_ch f.inst.channel_list ≡ some f.node_pos
  pub node : node_at f.node_pos f.inst.channel_list ≡ some f.node

pub get-IsAt :
    (mdev mdev_ch : Text) (is : List Inst) (f : Found)
    → get_channel_by_name mdev mdev_ch is ≡ some f
    → IsAt mdev mdev_ch is f
unfolding get_channel_by_name
get-IsAt mdev mdev_ch is f h = elim (Option-cases (find_inst mdev is)) [
  | inl e0 ↦ absurd (none-ne-some f (rw (e0, get_channel_by_name) at h))
  | inr (k, e0) ↦ elim (Option-cases (inst_at k is)) [
    | inl e1 ↦ absurd (none-ne-some f (rw (e0, e1, get_channel_by_name) at h))
    | inr (i, e1) ↦ elim (Option-cases (find_node mdev_ch i.channel_list)) [
      | inl e2 ↦ absurd (none-ne-some f (rw (e0, e1, e2, get_channel_by_name, found_node) at h))
      | inr (l, e2) ↦ elim (Option-cases (node_at l i.channel_list)) [
        | inl e3 ↦
            absurd (none-ne-some f (rw (e0, e1, e2, e3, get_channel_by_name, found_node) at h))
        | inr (n, e3) ↦
            let s : record { inst_pos = k; node_pos = l; inst = i; node = n } ≡ f =
              some-injective _ _ (rw (e0, e1, e2, e3, get_channel_by_name, found_node) at h) in
            subst (IsAt mdev mdev_ch is) s
              (record { inst_pos = e0; inst = e1; node_pos = e2; node = e3 })
      ]
    ]
  ]
]

get_IsAt :
    (mdev mdev_ch : Text) (is : List Inst) (f : Found)
    → IsAt mdev mdev_ch is f
    → get_channel_by_name mdev mdev_ch is ≡ some f
unfolding get_channel_by_name
get_IsAt mdev mdev_ch is f a =
    rw (a.inst_pos, a.inst, a.node_pos, a.node, get_channel_by_name, found_node) refl

-- A write through the pointer is read back through it, and one with the old value changes nothing.
pub get_put :
    (mdev mdev_ch : Text) (is : List Inst) (f : Found) (c : Channel)
    → IsAt mdev mdev_ch is f
    → get_channel_by_name mdev mdev_ch (put_inst f.inst_pos f.node_pos c is)
      ≡ some (record f { inst = written f.node_pos c f.inst; node = record f.node { c = c } })
get_put mdev mdev_ch is f c a =
    get_IsAt mdev mdev_ch (put_inst f.inst_pos f.node_pos c is)
      (record f { inst = written f.node_pos c f.inst; node = record f.node { c = c } })
      (record {
        inst_pos = find_inst_put mdev f.inst_pos f.node_pos c is ∙ a.inst_pos;
        inst = inst_at_put f.inst_pos f.node_pos c is f.inst a.inst;
        node_pos = find_node_put mdev_ch f.node_pos c f.inst.channel_list ∙ a.node_pos;
        node = node_at_put f.node_pos c f.inst.channel_list f.node a.node;
      })

pub put_self :
    (mdev mdev_ch : Text) (is : List Inst) (f : Found)
    → IsAt mdev mdev_ch is f
    → put_inst f.inst_pos f.node_pos f.node.c is ≡ is
put_self mdev mdev_ch is f a = put_inst_self f.inst_pos f.node_pos is f.inst f.node a.inst a.node
