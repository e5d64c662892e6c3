-- ===== src/Otc/Settlement/Ends.antt =====
-- The wait for a settlement ends.
use divap_trader.Base.{
  ℕ, zero, suc, ◌+◌, ◌*◌, ◌≤◌, ◌≡◌, refl, Bool, true, false, Option, none, some, ltb, leb, arith,
  if◌then◌else◌, sym, subst, ◌⊎◌, inl, inr,
}
use divap_trader.Decimals.{Decimal}
use divap_trader.Otc.Models.{OtcSettlementContext}
use divap_trader.Otc.Schedule.Clock.{Clock, IsClock, IsAwake, sleep_until-IsAwake, fine_interval}
use divap_trader.Otc.Settlement.Wait.{
  Settled, hard_deadline_of, past_sync, interval_at, settled_at, in_step, wait_round, clock_after,
  wait_loop, wait_settlement,
}

-- A moment of the synchronisation that fuel rounds reach, if there is one.
abbrev pub SyncWithin : Option ℕ → ℕ → Type 0
SyncWithin none n = Unit
SyncWithin (some sync) n = sync ≤ n

-- The wait returned: without a result only from the hard deadline on, or 15 seconds after the
-- synchronisation, and with a result not before the synchronisation.
pub record IsOver {W : Type 0} {clock : Clock W} (c : IsClock clock) (sync : Option ℕ) (hard : ℕ)
    (result : Option (Settled W)) : Type 0 where
  pub settled : Option (Option Decimal)
  pub after : W
  pub is_over : result ≡ some (settled, after)
  pub timed_out :
      settled ≡ some none → (hard ≤ c.reading after) ⊎ (past_sync sync (c.reading after) ≡ true)
  pub paid_in_step : (pnl : Decimal) → settled ≡ some (some pnl) → SyncWithin sync (c.reading after)

module _ {W : Type 0} {clock : Clock W} (c : IsClock clock) (hard : ℕ) where
  raised-IsOver : (sync : Option ℕ) (w : W) → IsOver c sync hard (some (none, w))
  raised-IsOver sync w = record {
    settled = none;
    after = w;
    is_over = refl;
    timed_out = λ e. ground arith;
    paid_in_step = λ pnl e. ground arith;
  }

  paid-IsOver :
      (sync : Option ℕ) (pnl : Decimal) (w : W)
      → SyncWithin sync (c.reading w)
      → IsOver c sync hard (some (some (some pnl), w))
  paid-IsOver sync pnl w h = record {
    settled = some (some pnl);
    after = w;
    is_over = refl;
    timed_out = λ e. ground arith;
    paid_in_step = λ p e. h;
  }

  unpaid-IsOver :
      (sync : Option ℕ) (w : W)
      → (hard ≤ c.reading w) ⊎ (past_sync sync (c.reading w) ≡ true)
      → IsOver c sync hard (some (some none, w))
  unpaid-IsOver sync w h = record {
    settled = some none;
    after = w;
    is_over = refl;
    timed_out = λ e. h;
    paid_in_step = λ p e. ground arith;
  }

  settled-IsOver :
      (sync : ℕ) (pnl : Decimal) (before : W) (r : Option W)
      → IsAwake c sync before r
      → IsOver c (some sync) hard (settled_at clock pnl r)
  settled-IsOver sync pnl before r a =
      subst (λ x. IsOver c (some sync) hard (settled_at clock pnl x)) (sym a.is_woken)
        (paid-IsOver (some sync) pnl a.woken a.target_reached)

  in_time :
      (b : Bool) (now sync : ℕ) (pnl : Decimal) (w : W) (slept : Option (Settled W))
      → ltb now sync ≡ b
      → now ≤ c.reading w
      → IsOver c (some sync) hard slept
      → IsOver c (some sync) hard (if b then slept else some (some (some pnl), w))
  in_time true now sync pnl w slept e h o = o
  in_time false now sync pnl w slept e h o = paid-IsOver (some sync) pnl w (ground arith)

  in_step-IsOver :
      (fuel : ℕ) (sync : Option ℕ) (pnl : Decimal) (now : ℕ) (w : W)
      → now ≤ c.reading w
      → SyncWithin sync (c.reading w + fuel * fine_interval)
      → IsOver c sync hard (in_step clock (suc fuel) sync pnl now w)
  unfolding in_step
  in_step-IsOver fuel none pnl now w h s = paid-IsOver none pnl w tt
  in_step-IsOver fuel (some sync) pnl now w h s =
      in_time _ now sync pnl w _ refl h
        (settled-IsOver sync pnl w _ (sleep_until-IsAwake c fuel sync w s))

  past_sync_later :
      (sync : Option ℕ) (now later : ℕ)
      → now ≤ later
      → past_sync sync now ≡ true
      → past_sync sync later ≡ true
  past_sync_later none now later h e = e
  past_sync_later (some sync) now later h e = ground arith

  unpaid_or_rest :
      (a b : Bool) (sync : Option ℕ) (now : ℕ) (w : W) (rest : Option (Settled W))
      → past_sync sync now ≡ a
      → leb hard now ≡ b
      → now ≤ c.reading w
      → (b ≡ false → IsOver c sync hard rest)
      → IsOver c sync hard
          (if a then some (some none, w) else if b then some (some none, w) else rest)
  unpaid_or_rest true b sync now w rest e f h r =
      unpaid-IsOver sync w (inr (past_sync_later sync now _ h e))
  unpaid_or_rest false true sync now w rest e f h r = unpaid-IsOver sync w (inl (ground arith))
  unpaid_or_rest false false sync now w rest e f h r = r refl

  within_later : (sync : Option ℕ) (m n : ℕ) → m ≤ n → SyncWithin sync m → SyncWithin sync n
  within_later none m n h s = tt
  within_later (some sync) m n h s = omega (arith, h, s)

  round-IsOver :
      (fuel : ℕ) (sync : Option ℕ) (w : W) (r : Option (Option Decimal) × W)
      (rest : Option (Settled W))
      → c.reading w ≤ c.reading r.1
      → SyncWithin sync (c.reading w + fuel * fine_interval)
      → ((v : W) → r ≡ (some none, v) → leb hard (clock.now v).0 ≡ false → IsOver c sync hard rest)
      → let (now, after) = clock_after clock r in
        IsOver c sync hard (wait_round clock (suc fuel) sync hard r.0 now after rest)
  unfolding wait_round
  round-IsOver fuel sync w (none, v) rest h s k = raised-IsOver sync v
  round-IsOver fuel sync w (some (some pnl), v) rest h s k =
      let later = c.now_later v in
      in_step-IsOver fuel sync pnl (clock.now v).0 (clock.now v).1
        (omega (arith, c.now_is v, later)) (within_later sync _ _ (omega (arith, h, later)) s)
  round-IsOver fuel sync w (some none, v) rest h s k =
      unpaid_or_rest _ _ sync (clock.now v).0 (clock.now v).1 rest refl refl
        (omega (arith, c.now_is v, c.now_later v)) (k v refl)

interval_least : (sync : Option ℕ) (now : ℕ) → fine_interval ≤ interval_at sync now
unfolding interval_at
interval_least sync now = ground arith

module _ {W : Type 0} {clock : Clock W} (c : IsClock clock) where
  after_later :
      (r : Option (Option Decimal) × W) → c.reading r.1 ≤ c.reading (clock_after clock r).1
  after_later (none, w) = omega arith
  after_later (some x, w) = c.now_later w

  slept_later :
      (sync : Option ℕ) (r : Option (Option Decimal) × W)
      → let (now, after) = clock_after clock r in
        c.reading r.1 + fine_interval ≤ c.reading (clock.sleep (interval_at sync now) after)
  slept_later sync r =
      let (now, after) = clock_after clock r in
      omega
        (arith, after_later r, interval_least sync now, c.sleep_lasts (interval_at sync now) after)

  module _ (poll : W → Option (Option Decimal) × W)
      (later : (w : W) → c.reading w ≤ c.reading (poll w).1) (hard : ℕ) (sync : Option ℕ) where
    polled_from : (w v : W) → poll w ≡ (some none, v) → c.reading w ≤ c.reading v
    polled_from w v e = subst (λ r. c.reading w ≤ c.reading r.1) e (later w)

    wait_loop-IsOver :
        (fuel : ℕ) (w : W)
        → hard ≤ c.reading w + fuel * fine_interval
        → SyncWithin sync (c.reading w + fuel * fine_interval)
        → IsOver c sync hard (wait_loop clock poll (suc fuel) sync hard w)
    unfolding wait_loop
    wait_loop-IsOver zero w h s =
        round-IsOver c hard zero sync w (poll w) _ (later w) s
          λ v e f. ground (arith, polled_from w v e, c.now_is v)
    wait_loop-IsOver (suc fuel) w h s =
        let slept = slept_later sync (poll w) in
        round-IsOver c hard (suc fuel) sync w (poll w) _ (later w) s λ v e f.
          wait_loop-IsOver fuel _ (omega (arith, slept, later w, h))
            (within_later c hard sync _ _ (omega (arith, slept, later w)) s)

  -- On a clock that does not run back, with polls that do not turn it back, the wait for a settlement ends: with
  -- a round for each 5 ms up to the hard deadline and to the synchronisation, if there is one, and one more,
  -- it returns. A wait without a result ends at the hard deadline, or 15 seconds after the synchronisation, at
  -- the earliest, and a result with a synchronisation is not given before it.
  pub wait_settlement-IsOver :
      (poll : W → Option (Option Decimal) × W)
      → ((w : W) → c.reading w ≤ c.reading (poll w).1)
      → (ctx : OtcSettlementContext) (sync : Option ℕ) (fuel : ℕ) (w : W)
      → hard_deadline_of (clock.now w).0 ctx.duration_minutes ≤ c.reading w + fuel * fine_interval
      → SyncWithin sync (c.reading w + fuel * fine_interval)
      → IsOver c sync
          (hard_deadline_of (clock.now w).0 ctx.duration_minutes)
          (wait_settlement clock poll (suc fuel) ctx sync w)
  unfolding wait_settlement
  wait_settlement-IsOver poll later ctx sync fuel w h s =
      wait_loop-IsOver poll later _ sync fuel (clock.now w).1 (omega (arith, h, c.now_later w))
        (within_later c 0 sync _ _ (omega (arith, c.now_later w)) s)
