-- ===== src/Cdev/Links/Calls.antt =====
-- aim-cdev/cdev.c, the calls of the core and of user space for the linked channels, in any order.
use unicens2_driver.Common.{
  ℕ, suc, ◌+◌, ◌≤◌, ◌≡◌, refl, sym, arith, Bool, not, ◌&&◌, ◌||◌, Option, none, some, List, [], ◌∷◌,
  ◌++◌, ◌==◌, inl, inr, Bool-cases, Option-cases,
}
use unicens2_driver.Common.Int.{ℤ, pos, negsuc, ◌==ℤ◌}
use unicens2_driver.Core.Types.{Config}
use unicens2_driver.Cdev.{CdevMbo, CdevChannel, aim_open, aim_close, aim_rx_completion}
use unicens2_driver.Cdev.Links.{
  CdevLink, CdevLinks, ProbeAnswers, get_channel, del_channel, find_minor, del_minor,
  create_channel, probe_new, aim_probe, disconnect_found, disconnect_from, close_found, close_left,
  with_minor, new_cdev_channel,
}
use unicens2_driver.Cdev.Links.Counts.{
  total, has_minor, is_at, one, IsAccounted, total-append, total-del_channel, total-del_minor,
  total-with_minor, absent,
}

create-IsAccounted :
    (iface id : ℕ) (cfg : Config) (n : ℕ) (a : ProbeAnswers) (s : CdevLinks)
    → IsAccounted s
    → total (is_at iface id) s.channel_list ≡ 0
    → IsAccounted (create_channel iface id cfg n a (record s { minors_got = n ∷ s.minors_got })).1
create-IsAccounted iface id cfg n a s (m, k, f, u) z = elim (Bool-cases (not a.has_memory)) [
  | inl x ↦ simp x (λ j. omega (arith, m j), k, f, u)
  | inr x ↦ elim (Bool-cases (not (a.kfifo_alloc ==ℤ pos 0))) [
    | inl y ↦ simp (x, y) (λ j. omega (arith, m j), omega (arith, k), f, u)
    | inr y ↦ elim (Bool-cases (not (a.device_create ==ℤ pos 0))) [
      | inl v ↦ simp (x, y, v) (λ j. omega (arith, m j), omega (arith, k), omega (arith, f), u)
      | inr v ↦ simp (x, y, v) linked
    ]
  ]
]
  where
    c : CdevLink
    c = record { iface = iface; channel_id = id; minor = n; channel = new_cdev_channel cfg }

    one_more : (j d : ℕ) → total (is_at j d) s.channel_list + is_at j d c ≤ 1
    one_more j d = elim (Bool-cases ((iface == j) && (id == d))) [
      | inr e ↦ rw e (omega (arith, u j d))
      | inl e ↦
          let p : iface ≡ j = ground arith in
          let q : id ≡ d = ground arith in rw e (rw (sym p, sym q) (omega (arith, z)))
    ]

    linked : IsAccounted (record s {
      minors_got = n ∷ s.minors_got;
      kzallocs = suc s.kzallocs;
      kfifo_allocs = suc s.kfifo_allocs;
      channel_list = s.channel_list ++ c ∷ [];
    })
    linked = (
      λ j. omega (arith, m j, total-append (has_minor j) s.channel_list c),
      omega (arith, k, total-append one s.channel_list c),
      omega (arith, f, total-append one s.channel_list c),
      λ j d. rw (total-append (is_at j d) s.channel_list c) (one_more j d),
    )

probe_new-IsAccounted :
    (m : ℤ) (iface id : ℕ) (cfg : Config) (a : ProbeAnswers) (s : CdevLinks)
    → IsAccounted s
    → total (is_at iface id) s.channel_list ≡ 0
    → IsAccounted (probe_new m iface id cfg a s).1
probe_new-IsAccounted (negsuc n) iface id cfg a s h z = h
probe_new-IsAccounted (pos n) iface id cfg a s h z = create-IsAccounted iface id cfg n a s h z

probe-IsAccounted :
    (iface : Option ℕ) (id : ℕ) (cfg : Option Config) (parent name : Bool) (a : ProbeAnswers)
    (s : CdevLinks)
    → IsAccounted s
    → IsAccounted (aim_probe iface id cfg parent name a s).1
probe-IsAccounted none id cfg parent name a s h = h
probe-IsAccounted (some iface) id none parent name a s h = h
probe-IsAccounted (some iface) id (some cfg) parent name a s h =
    elim (Bool-cases (not parent || not name)) [
      | inl e ↦ simp e h
      | inr e ↦ elim (Option-cases (get_channel iface id s.channel_list)) [
        | inl f ↦
            simp (e, f)
              (probe_new-IsAccounted a.current_minor iface id cfg a s h
                (absent iface id s.channel_list f))
        | inr (c, f) ↦ simp (e, f) h
      ]
    ]

disconnect_found-IsAccounted :
    (o : Option CdevLink) (iface id : ℕ) (s : CdevLinks)
    → get_channel iface id s.channel_list ≡ o
    → IsAccounted s
    → IsAccounted (disconnect_found o iface id s).1
disconnect_found-IsAccounted none iface id s e h = h
disconnect_found-IsAccounted (some c) iface id s e (m, k, f, u) =
    let d : (w : CdevLink → ℕ)
        → total w s.channel_list ≡ w c + total w (del_channel iface id s.channel_list) =
      λ w. total-del_channel w iface id s.channel_list c e in
    elim (Bool-cases c.channel.access_ref) [
      | inr x ↦ simp x (
        λ j. omega (arith, m j, d (has_minor j)),
        omega (arith, k, d one),
        omega (arith, f, d one),
        λ i j. omega (arith, u i j, d (is_at i j)),
      )
      | inl x ↦ simp x (
        λ j. omega (arith, m j, d (has_minor j)),
        omega (arith, k, d one),
        omega (arith, f, d one),
        λ i j. omega (arith, u i j, d (is_at i j)),
      )
    ]

disconnect-IsAccounted :
    (iface : Option ℕ) (id : ℕ) (s : CdevLinks)
    → IsAccounted s
    → IsAccounted (disconnect_from iface id s).1
disconnect-IsAccounted none id s h = h
disconnect-IsAccounted (some iface) id s h =
    disconnect_found-IsAccounted (get_channel iface id s.channel_list) iface id s refl h

close_found-IsAccounted :
    (o : Option CdevLink) (n : ℕ) (s : CdevLinks)
    → find_minor n s.left_open ≡ o
    → IsAccounted s
    → IsAccounted (close_found o n s)
close_found-IsAccounted none n s e h = h
close_found-IsAccounted (some c) n s e (m, k, f, u) =
    let d : (w : CdevLink → ℕ) → total w s.left_open ≡ w c + total w (del_minor n s.left_open) =
      λ w. total-del_minor w n s.left_open c e in
    (λ j. omega (arith, m j, d (has_minor j)), omega (arith, k, d one), omega (arith, f, d one), u)

close_left-IsAccounted : (n : ℕ) (s : CdevLinks) → IsAccounted s → IsAccounted (close_left n s)
close_left-IsAccounted n s h = close_found-IsAccounted (find_minor n s.left_open) n s refl h

user-IsAccounted :
    (n : ℕ) (g : CdevChannel → CdevChannel) (s : CdevLinks)
    → IsAccounted s
    → IsAccounted (record s { channel_list = with_minor n g s.channel_list })
user-IsAccounted n g s (m, k, f, u) =
    let same : (w : CdevLink → ℕ)
        → ((c : CdevLink) (d : CdevChannel) → w (record c { channel = d }) ≡ w c)
        → total w (with_minor n g s.channel_list) ≡ total w s.channel_list =
      λ w h. total-with_minor w n g s.channel_list h in
    (
      λ j. rw (same (has_minor j) (λ c d. refl)) (m j),
      rw (same one (λ c d. refl)) k,
      rw (same one (λ c d. refl)) f,
      λ i j. rw (same (is_at i j) (λ c d. refl)) (u i j),
    )

-- A call: of the core, for the channel with a minor number, or of user space for one that left the list.
pub data LinkCall : Type 0 where
  probe_call : Option ℕ → ℕ → Option Config → Bool → Bool → ProbeAnswers → LinkCall
  disconnect_call : Option ℕ → ℕ → LinkCall
  open_call : ℕ → ℕ → ℤ → LinkCall
  close_call : ℕ → LinkCall
  receive_call : ℕ → CdevMbo → LinkCall
  close_left_call : ℕ → LinkCall

abbrev pub link_call : LinkCall → CdevLinks → CdevLinks
link_call (probe_call iface id cfg parent name a) s = (aim_probe iface id cfg parent name a s).1
link_call (disconnect_call iface id) s = (disconnect_from iface id s).1
link_call (open_call n accmode started) s = record s {
  channel_list = with_minor n (λ c. (aim_open accmode started c).1) s.channel_list;
}
link_call (close_call n) s = record s {
  channel_list = with_minor n (λ c. (aim_close c).1) s.channel_list;
}
link_call (receive_call n m) s = record s {
  channel_list = with_minor n (λ c. (aim_rx_completion m c).1) s.channel_list;
}
link_call (close_left_call n) s = close_left n s

abbrev pub link_calls : List LinkCall → CdevLinks → CdevLinks
link_calls [] s = s
link_calls (x ∷ xs) s = link_calls xs (link_call x s)

call-IsAccounted : (x : LinkCall) (s : CdevLinks) → IsAccounted s → IsAccounted (link_call x s)
call-IsAccounted (probe_call iface id cfg parent name a) s h =
    probe-IsAccounted iface id cfg parent name a s h
call-IsAccounted (disconnect_call iface id) s h = disconnect-IsAccounted iface id s h
call-IsAccounted (open_call n accmode started) s h =
    user-IsAccounted n (λ c. (aim_open accmode started c).1) s h
call-IsAccounted (close_call n) s h = user-IsAccounted n (λ c. (aim_close c).1) s h
call-IsAccounted (receive_call n m) s h = user-IsAccounted n (λ c. (aim_rx_completion m c).1) s h
call-IsAccounted (close_left_call n) s h = close_left-IsAccounted n s h

-- Over any calls, with whatever the kernel answers, each minor number, each channel object and each fifo
-- that was taken was given back once, or belongs to one channel that is on the list or still open, and
-- an interface has each of its channels on the list at most once.
pub link_calls-IsAccounted :
    (xs : List LinkCall) (s : CdevLinks) → IsAccounted s → IsAccounted (link_calls xs s)
link_calls-IsAccounted [] s h = h
link_calls-IsAccounted (x ∷ xs) s h =
    link_calls-IsAccounted xs (link_call x s) (call-IsAccounted x s h)
