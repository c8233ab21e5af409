-- ===== src/Net/Device/Calls.antt =====
-- aim-network/networking.c, the calls of the core for one interface in any order.
use unicens2_driver.Common.{
  ℕ, refl, Bool, not, ◌&&◌, Option, none, some, List, [], ◌∷◌, inl, inr, Bool-cases,
}
use unicens2_driver.Common.Int.{ℤ}
use unicens2_driver.Core.Types.{Config}
use unicens2_driver.Net.Device.{
  NetDev, hold, aim_probe_channel, aim_disconnect_channel, aim_resume_tx_channel, aim_rx_data,
}
use unicens2_driver.Net.Device.Stack.{set_netinfo, on_netinfo}
use unicens2_driver.Net.Device.Counted.{
  IsCounted, IsSafe, Keeps, while_held-IsCounted, probe-IsCounted, disconnect-IsSafe,
  resume-IsCounted, rx_data-IsCounted,
}

-- The calls with what the code outside returns; the data and the MAC address are lists of bytes.
pub data NetCall : Type 0 where
  probe_call : Bool → Option (List ℕ) → Bool → Config → ℕ → NetCall
  disconnect_call resume_call : ℕ → NetCall
  rx_call : Bool → Bool → (ℕ → ℕ) → List ℕ → ℕ → NetCall
  netinfo_call : (List ℕ → Bool) → ℕ → Option (List ℕ) → NetCall

abbrev pub after : Option (ℤ × Option NetDev) → Option (Option NetDev)
after none = none
after (some r) = some r.1

-- The device after a call; `none` is a use after the device was freed.
abbrev pub net_call : NetCall → Option NetDev → Option (Option NetDev)
net_call (probe_call raced a registered cfg idx) s =
    some (aim_probe_channel raced a registered cfg idx s).1
net_call (disconnect_call idx) s = after (aim_disconnect_channel idx s)
net_call (resume_call idx) s = some (aim_resume_tx_channel idx s).1
net_call (rx_call allocated taken t buf idx) s = some (aim_rx_data allocated taken t buf idx s).1
net_call (netinfo_call valid link mac) s = some (on_netinfo valid link mac s)

abbrev pub net_calls : List NetCall → Option NetDev → Option (Option NetDev)
net_calls [] s = some s
net_calls (c ∷ cs) s = elim (net_call c s) [ none ↦ none | some t ↦ net_calls cs t ]

-- No device is used after it was freed, and the one that is left is counted.
abbrev pub EndsCounted : Option (Option NetDev) → Type 0
EndsCounted none = ⊥
EndsCounted (some s) = IsCounted s

netinfo-Keeps :
    (valid : List ℕ → Bool) (link : ℕ) (mac : Option (List ℕ)) (d : NetDev)
    → Keeps (set_netinfo valid link mac d).1 d
netinfo-Keeps valid link none d = (refl, refl, refl, refl)
netinfo-Keeps valid link (some m) d = elim (Bool-cases (valid m && not (valid d.dev_addr))) [
  | inl e ↦ simp e (refl, refl, refl, refl)
  | inr e ↦ simp e (refl, refl, refl, refl)
]

netinfo-IsCounted :
    (valid : List ℕ → Bool) (link : ℕ) (mac : Option (List ℕ)) (s : Option NetDev)
    → IsCounted s
    → IsCounted (on_netinfo valid link mac s)
unfolding on_netinfo
netinfo-IsCounted valid link mac none h = tt
netinfo-IsCounted valid link mac (some nd) h =
    while_held-IsCounted (set_netinfo valid link mac) nd (netinfo-Keeps valid link mac (hold nd)) h

after-EndsCounted : (o : Option (ℤ × Option NetDev)) → IsSafe o → EndsCounted (after o)
after-EndsCounted none h = h
after-EndsCounted (some r) h = h

net_call-EndsCounted : (c : NetCall) (s : Option NetDev) → IsCounted s → EndsCounted (net_call c s)
net_call-EndsCounted (probe_call raced a registered cfg idx) s h =
    probe-IsCounted raced a registered cfg idx s h
net_call-EndsCounted (disconnect_call idx) s h =
    after-EndsCounted (aim_disconnect_channel idx s) (disconnect-IsSafe idx s h)
net_call-EndsCounted (resume_call idx) s h = resume-IsCounted idx s h
net_call-EndsCounted (rx_call allocated taken t buf idx) s h =
    rx_data-IsCounted allocated taken t buf idx s h
net_call-EndsCounted (netinfo_call valid link mac) s h = netinfo-IsCounted valid link mac s h

-- Over any calls of the core for an interface, in any order and whatever the network stack returns, the
-- counter of the network device is the number of its linked channels, the device is registered exactly
-- when both are linked, and no call uses it after it was freed.
pub IsCounted-calls :
    (cs : List NetCall) (s : Option NetDev) → IsCounted s → EndsCounted (net_calls cs s)
IsCounted-calls [] s h = h
IsCounted-calls (c ∷ cs) s h =
    go (λ t k. IsCounted-calls cs t k) (net_call c s) (net_call-EndsCounted c s h)
  where
    go :
        ((t : Option NetDev) → IsCounted t → EndsCounted (net_calls cs t))
        → (o : Option (Option NetDev)) → EndsCounted o
        → EndsCounted (elim o [ none ↦ none | some t ↦ net_calls cs t ])
    go f none h = h
    go f (some t) h = f t h
