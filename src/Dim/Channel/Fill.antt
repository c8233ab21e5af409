-- ===== src/Dim/Channel/Fill.antt =====
-- The fill state of the asynchronous Tx channel: `sz_queue` is a ring of the sizes that the hardware
-- has not read yet, and `rest_size` is what they leave of the buffer memory.
use unicens2_driver.Common.{
  ℕ, zero, suc, ◌+◌, ◌%◌, ◌^◌, ◌≡◌, ◌≢◌, ◌≤◌, ◌<◌, true, false, some, List, [], ◌∷◌, ◌++◌, ◌==◌,
  refl, arith, ap, ◌∙◌, length, length-append, length-set, get_or, set, get_or-set_self,
  get_or-set_ne,
}
use mathlib.Core.Option.{some-injective}
use mathlib.Core.Path.{subst, sym}
use unicens2_driver.Dim.Types.{DimChannel}
use unicens2_driver.Dim.Channel.{
  AsyncTxDbr, norm_pc, dbrcnt_enq, dbr_retire, dbr_catch_up, dbr_result, dim_dbr_space,
}

abbrev pub sum : List ℕ → ℕ
sum [] = 0
sum (x ∷ xs) = x + sum xs

-- The sizes that stand in the ring from the count `i` on.
abbrev pub Window : List ℕ → ℕ → List ℕ → Type 0
Window q i [] = Unit {0}
Window q i (x ∷ xs) = (get_or q (i % 32) 0 ≡ x) × Window q (i + 1) xs

-- `pending` are the sizes that are not read yet, `i` is how many were read before, and `total` is
-- the size of the memory.
pub record IsFilled (total i : ℕ) (pending : List ℕ) (d : AsyncTxDbr) : Type 0 where
  pub ring : length d.sz_queue ≡ 32
  pub read : d.rpc ≡ i % 2 ^ 16
  pub written : d.wpc ≡ (i + length pending) % 2 ^ 16
  pub room : length pending ≤ 31
  pub rest : d.rest_size + sum pending ≡ total
  pub small : total < 2 ^ 16
  pub window : Window d.sz_queue i pending

retire-IsFilled :
    (total i x : ℕ) (xs : List ℕ) (d : AsyncTxDbr)
    → IsFilled total i (x ∷ xs) d
    → IsFilled total (i + 1) xs (dbr_retire d)
unfolding dbr_retire
retire-IsFilled total i x xs d v =
    let e : d.rpc % 32 ≡ i % 32 = omega (arith, v.read) in
    let g : get_or d.sz_queue (d.rpc % 32) 0 ≡ x = ap (λ k. get_or d.sz_queue k 0) e ∙ v.window.0 in
    record {
      ring = v.ring;
      read = omega (arith, v.read);
      written = omega (arith, v.written);
      room = omega (arith, v.room);
      rest = omega (arith, v.rest, v.small, g);
      small = v.small;
      window = v.window.1;
    }

-- A write just past the window, less than a turn away, extends it.
Window-snoc :
    (q : List ℕ) (v : ℕ) (xs : List ℕ) (i j : ℕ)
    → length q ≡ 32
    → length xs ≤ 31
    → j ≡ (i + length xs) % 32
    → Window q i xs
    → Window (set q j v) i (xs ++ v ∷ [])
Window-snoc q v [] i j e l ej w =
    let e' : i % 32 ≡ j = omega (arith, ej) in (rw e' (get_or-set_self q j v 0 (omega arith)), tt)
Window-snoc q v (x ∷ xs) i j e l ej w = (
  get_or-set_ne q {i = j} {j = i % 32} v 0 (omega arith) ∙ w.0,
  Window-snoc q v xs (i + 1) j e (omega arith) (omega arith) w.1,
)

sum-snoc : (xs : List ℕ) (v : ℕ) → sum (xs ++ v ∷ []) ≡ sum xs + v
sum-snoc [] v = omega arith
sum-snoc (x ∷ xs) v = omega (arith, sum-snoc xs v)

-- A buffer that fits `rest_size` is entered, and what is left does not wrap.
pub enq-IsFilled :
    (total i buf_sz : ℕ) (pending : List ℕ) (d : AsyncTxDbr)
    → IsFilled total i pending d
    → buf_sz ≤ d.rest_size
    → length pending < 31
    → IsFilled total i (pending ++ buf_sz ∷ []) (dbrcnt_enq buf_sz d)
unfolding dbrcnt_enq
enq-IsFilled total i buf_sz pending d v h room = record {
  ring = length-set d.sz_queue (norm_pc d.wpc) buf_sz ∙ v.ring;
  read = v.read;
  written = omega (arith, v.written, length-append pending (buf_sz ∷ []));
  room = omega (arith, length-append pending (buf_sz ∷ []));
  rest = omega (arith, v.rest, v.small, sum-snoc pending buf_sz);
  small = v.small;
  window =
      Window-snoc d.sz_queue buf_sz pending i (norm_pc d.wpc) v.ring v.room
        (omega (arith, v.written)) v.window;
}

abbrev pub drop : ℕ → List ℕ → List ℕ
drop zero xs = xs
drop (suc n) [] = []
drop (suc n) (x ∷ xs) = drop n xs

retire-ch_addr : (d : AsyncTxDbr) → (dbr_retire d).ch_addr ≡ d.ch_addr
unfolding dbr_retire
retire-ch_addr d = refl

here_test : (a b : ℕ) → a ≡ b → (a == b) ≡ true
here_test a b h = ground arith

there_test : (a b : ℕ) → a ≢ b → (a == b) ≡ false
there_test a b h = ground arith

-- Where the hardware has read `k` of the pending buffers, the loop ends after `k` rounds.
catch_up-IsFilled :
    (k f total i cur : ℕ) (pending : List ℕ) (d : AsyncTxDbr)
    → IsFilled total i pending d
    → cur ≡ (i + k) % 32
    → k ≤ length pending
    → k < f
    → (e : AsyncTxDbr) × (dbr_catch_up f cur d ≡ some e)
      × IsFilled total (i + k) (drop k pending) e
      × (e.ch_addr ≡ d.ch_addr)
unfolding dbr_catch_up
catch_up-IsFilled zero zero total i cur pending d v c h hf = elim hf [ ]
catch_up-IsFilled (suc k) zero total i cur pending d v c h hf = elim hf [ ]
catch_up-IsFilled (suc k) (suc f) total i cur [] d v c h hf = elim h [ ]
catch_up-IsFilled zero (suc f) total i cur pending d v c h hf =
    let t : (norm_pc d.rpc == cur) ≡ true = here_test _ _ (omega (arith, v.read, c)) in
    let z : i + 0 ≡ i = omega arith in (d, rw (t, dbr_catch_up), rw z v, refl)
catch_up-IsFilled (suc k) (suc f) total i cur (x ∷ pending) d v c h hf =
    let t : (norm_pc d.rpc == cur) ≡ false = there_test _ _ (omega (arith, v.read, v.room, c)) in
    let z : i + suc k ≡ i + 1 + k = omega arith in
    let (e, run, w, a) =
      catch_up-IsFilled k f total (i + 1) cur pending (dbr_retire d)
        (retire-IsFilled total i x pending d v) (omega (arith, c)) (omega arith) (omega arith) in
    (
      e,
      rw (t, dbr_catch_up) run,
      subst (λ n. IsFilled total n (drop k pending) e) (sym z) w,
      a ∙ retire-ch_addr d,
    )

result_room :
    (total i : ℕ) (pending : List ℕ) (d : AsyncTxDbr)
    → IsFilled total i pending d
    → (n : ℕ) → 0 < n
    → n ≤ dbr_result d
    → (length pending < 31) × (n ≤ d.rest_size)
unfolding dbr_result
result_room total i pending d v n pos h = ground (arith, v.read, v.written, v.room)

module _ (k total i cur_rpc : ℕ) (pending : List ℕ) (ch : DimChannel) (d : AsyncTxDbr)
    (v : IsFilled total i pending d) (a : ch.addr ≡ d.ch_addr) (c : cur_rpc ≡ (i + k) % 32)
    (h : k ≤ length pending) where
  space_run :
      (e : AsyncTxDbr) × (dim_dbr_space cur_rpc ch d ≡ some (dbr_result e, e))
      × IsFilled total (i + k) (drop k pending) e
  unfolding dim_dbr_space
  space_run =
      let (e, run, w, b) =
        catch_up-IsFilled k 32 total i cur_rpc pending d v c h (omega (arith, v.room)) in
      (e, rw (here_test _ _ a, run, dim_dbr_space), w)

  -- On the asynchronous Tx channel, with `k` of the pending buffers read by the hardware, the loop of
  -- `dim_dbr_space` ends, and then exactly the sizes of the other buffers are counted as pending.
  pub space_returns :
      (r : ℕ) × (e : AsyncTxDbr) × (dim_dbr_space cur_rpc ch d ≡ some (r, e))
      × IsFilled total (i + k) (drop k pending) e
  space_returns = let (e, run, w) = space_run in (dbr_result e, e, run, w)

  -- A buffer that is not empty and not larger than the result of `dim_dbr_space` can be entered at
  -- once: fewer than 31 are pending, and `rest_size` does not wrap.
  pub space-enq :
      (r buf_sz : ℕ) (e : AsyncTxDbr)
      → dim_dbr_space cur_rpc ch d ≡ some (r, e)
      → 0 < buf_sz
      → buf_sz ≤ r
      → IsFilled total (i + k) (drop k pending ++ buf_sz ∷ []) (dbrcnt_enq buf_sz e)
  space-enq r buf_sz e run pos fits =
      let (e', run', w) = space_run in
      let same : some (r, e) ≡ some (dbr_result e', e') = sym run ∙ run' in
      let p : (r, e) ≡ (dbr_result e', e') = some-injective _ _ same in
      let q : r ≡ dbr_result e' = ap (λ x. x.0) p in
      let t : e' ≡ e = sym (ap (λ x. x.1) p) in
      let (roomy, small) =
        result_room total (i + k) (drop k pending) e' w buf_sz pos (omega (arith, q)) in
      subst (λ y. IsFilled total (i + k) (drop k pending ++ buf_sz ∷ []) (dbrcnt_enq buf_sz y)) t
        (enq-IsFilled total (i + k) buf_sz (drop k pending) e' w small roomy)
