-- ===== src/Cdev/Links.antt =====
-- aim-cdev/cdev.c, the linked channels: `channel_list` with what the module takes from the kernel for them.
pub mod Counts
pub mod Calls
use unicens2_driver.Common.{
  ℕ, suc, ◌+◌, Bool, true, false, not, ◌&&◌, ◌||◌, Option, none, some, List, [], ◌∷◌, ◌++◌, ◌==◌,
  leb, if◌then◌else◌,
}
use unicens2_driver.Common.Int.{ℤ, pos, negsuc, ◌==ℤ◌}
use unicens2_driver.Core.Types.{Config, enomem, einval}
use unicens2_driver.Cdev.{
  CdevMbo, CdevChannel, aim_open, aim_close, aim_rx_completion, aim_disconnect_channel,
}

abbrev pub enxio : ℤ
enxio = negsuc 5

abbrev pub eexist : ℤ
eexist = negsuc 16

-- The fields of `struct aim_channel` that say which channel it is, with the others.
pub record CdevLink : Type 0 where
  pub iface : ℕ
  pub channel_id : ℕ
  pub minor : ℕ
  pub channel : CdevChannel

-- `channel_list`; the channels that are not on it any more, but still open; the minor numbers that
-- `ida_simple_get` gave and `ida_simple_remove` took; and how often `kzalloc`, `kfree`, `kfifo_alloc`
-- and `kfifo_free` were called for a channel.
pub record CdevLinks : Type 0 where
  pub channel_list : List CdevLink
  pub left_open : List CdevLink
  pub minors_got : List ℕ
  pub minors_removed : List ℕ
  pub kzallocs : ℕ
  pub kfrees : ℕ
  pub kfifo_allocs : ℕ
  pub kfifo_frees : ℕ

-- What the kernel returns in `aim_probe`: whether `kzalloc` succeeds, and what `device_create` gives as an
-- error, or 0.
pub record ProbeAnswers : Type 0 where
  pub current_minor : ℤ
  pub has_memory : Bool
  pub kfifo_alloc : ℤ
  pub device_create : ℤ

abbrev pub is_linked_as : ℕ → ℕ → CdevLink → Bool
is_linked_as iface id c = (c.iface == iface) && (c.channel_id == id)

abbrev pub get_channel : ℕ → ℕ → List CdevLink → Option CdevLink
get_channel iface id [] = none
get_channel iface id (c ∷ cs) = if is_linked_as iface id c then some c else get_channel iface id cs

-- `list_del` in `destroy_cdev`, of what `get_channel` found.
abbrev pub del_channel : ℕ → ℕ → List CdevLink → List CdevLink
del_channel iface id [] = []
del_channel iface id (c ∷ cs) = if is_linked_as iface id c then cs else c ∷ del_channel iface id cs

abbrev pub new_cdev_channel : Config → CdevChannel
new_cdev_channel cfg = record {
  cfg = cfg;
  has_dev = true;
  access_ref = false;
  mbo_offs = 0;
  fifo = [];
  received = [];
  submitted = [];
  put = [];
  stops = 0;
  destroyed = 0;
}

-- `destroy_channel`.
abbrev pub give_back : CdevLink → CdevLinks → CdevLinks
give_back c s = record s {
  minors_removed = c.minor ∷ s.minors_removed;
  kfifo_frees = suc s.kfifo_frees;
  kfrees = suc s.kfrees;
}

-- `aim_probe` from `kzalloc` on, with its error paths.
abbrev pub create_channel : ℕ → ℕ → Config → ℕ → ProbeAnswers → CdevLinks → ℤ × CdevLinks
create_channel iface id cfg minor a s =
    let c : CdevLink = record {
      iface = iface;
      channel_id = id;
      minor = minor;
      channel = new_cdev_channel cfg;
    } in
    let removed = minor ∷ s.minors_removed in
    if not a.has_memory
    then (enomem, record s { minors_removed = removed })
    else if not (a.kfifo_alloc ==ℤ pos 0)
    then (
      a.kfifo_alloc,
      record s { minors_removed = removed; kzallocs = suc s.kzallocs; kfrees = suc s.kfrees },
    )
    else if not (a.device_create ==ℤ pos 0)
    then (
      a.device_create,
      record s {
        minors_removed = removed;
        kzallocs = suc s.kzallocs;
        kfrees = suc s.kfrees;
        kfifo_allocs = suc s.kfifo_allocs;
        kfifo_frees = suc s.kfifo_frees;
      },
    )
    else (
      pos 0,
      record s {
        kzallocs = suc s.kzallocs;
        kfifo_allocs = suc s.kfifo_allocs;
        channel_list = s.channel_list ++ c ∷ [];
      },
    )

-- With what `ida_simple_get` returned.
abbrev pub probe_new : ℤ → ℕ → ℕ → Config → ProbeAnswers → CdevLinks → ℤ × CdevLinks
probe_new (negsuc n) iface id cfg a s = (negsuc n, s)
probe_new (pos n) iface id cfg a s =
    create_channel iface id cfg n a (record s { minors_got = n ∷ s.minors_got })

-- `aim_probe`. The pointers of the arguments are `none` or false where they are null.
abbrev pub aim_probe :
    Option ℕ → ℕ → Option Config → Bool → Bool → ProbeAnswers → CdevLinks → ℤ × CdevLinks
aim_probe none id cfg parent name a s = (einval, s)
aim_probe (some iface) id none parent name a s = (einval, s)
aim_probe (some iface) id (some cfg) parent name a s =
    if not parent || not name then (einval, s) else elim (get_channel iface id s.channel_list) [
      | some c ↦ (eexist, s)
      | none ↦ probe_new a.current_minor iface id cfg a s
    ]

-- With what `get_channel` returned.
abbrev pub disconnect_found : Option CdevLink → ℕ → ℕ → CdevLinks → ℤ × CdevLinks
disconnect_found none iface id s = (enxio, s)
disconnect_found (some c) iface id s =
    let (ret, ended) = aim_disconnect_channel c.channel in
    let t = record s { channel_list = del_channel iface id s.channel_list } in
    (
      ret,
      if c.channel.access_ref
          then record t { left_open = record c { channel = ended } ∷ t.left_open }
          else give_back c t,
    )

-- `aim_disconnect_channel`.
abbrev pub disconnect_from : Option ℕ → ℕ → CdevLinks → ℤ × CdevLinks
disconnect_from none id s = (einval, s)
disconnect_from (some iface) id s =
    disconnect_found (get_channel iface id s.channel_list) iface id s

abbrev pub find_minor : ℕ → List CdevLink → Option CdevLink
find_minor n [] = none
find_minor n (c ∷ cs) = if c.minor == n then some c else find_minor n cs

abbrev pub del_minor : ℕ → List CdevLink → List CdevLink
del_minor n [] = []
del_minor n (c ∷ cs) = if c.minor == n then cs else c ∷ del_minor n cs

abbrev pub close_found : Option CdevLink → ℕ → CdevLinks → CdevLinks
close_found none n s = s
close_found (some c) n s = give_back c (record s { left_open = del_minor n s.left_open })

-- `aim_close` for a channel that left the list while it was open.
abbrev pub close_left : ℕ → CdevLinks → CdevLinks
close_left n s = close_found (find_minor n s.left_open) n s

-- A call for the channel on the list that has this minor number, with what it makes of the channel.
abbrev pub with_minor : ℕ → (CdevChannel → CdevChannel) → List CdevLink → List CdevLink
with_minor n f [] = []
with_minor n f (c ∷ cs) =
    if c.minor == n then record c { channel = f c.channel } ∷ cs else c ∷ with_minor n f cs

-- The result, and the channel whose wait queue is woken. An interface comes with its `num_channels`.
abbrev pub aim_tx_completion : Option (ℕ × ℕ) → ℤ → List CdevLink → ℤ × Option CdevLink
aim_tx_completion none id cs = (einval, none)
aim_tx_completion (some (iface, num_channels)) (negsuc n) cs = (einval, none)
aim_tx_completion (some (iface, num_channels)) (pos id) cs =
    if leb num_channels id
    then (einval, none)
    else elim (get_channel iface id cs) [ none ↦ (enxio, none) | some c ↦ (pos 0, some c) ]
