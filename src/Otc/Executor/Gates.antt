-- ===== src/Otc/Executor/Gates.antt =====
-- A signal reaches the broker only through the switch, the evaluation of the stops and the limit of open trades.
use divap_trader.Base.{
  ℕ, ◌≡◌, refl, ◌⊎◌, inl, inr, true, false, ◌&&◌, not, Option, none, some, arith, Bool-cases,
  String,
}
use divap_trader.Base.Int.{pos, ◌≤ℤ◌, leb_ℤ}
use divap_trader.Data.Trades.{count_open_trades}
use divap_trader.Otc.Models.{OtcSignal, OtcProfileConfig, OtcSequenceResult}
use divap_trader.Otc.Guard.{StopReason, evaluate_otc_stop}
use divap_trader.Otc.Executor.Ports.{Ports, ExecState}
use divap_trader.Otc.Executor.Sequence.{
  refused, sequence_result, run_guard, after_guard, guarded, try_execute,
}

module _ {W : Type 0} (p : Ports W) (cfg : OtcProfileConfig) where
  -- Nothing was executed, and neither the broker nor the table of trades was touched.
  abbrev pub IsUntouched : ExecState W → OtcSequenceResult × ExecState W → Type 0
  IsUntouched s r = (r.0.executed ≡ false) × (r.1.world ≡ s.world) × (r.1.trades ≡ s.trades)

  after_guard-stopped :
      (signal : OtcSignal) (reason : StopReason) (s : ExecState W)
      → IsUntouched s (after_guard p cfg signal (some reason) s)
  unfolding after_guard refused sequence_result
  after_guard-stopped signal reason s = (refl, refl, refl)

  after_guard-full :
      (signal : OtcSignal) (reason : Option StopReason) (s : ExecState W)
      → cfg.max_open_trades ≤ℤ pos (count_open_trades (some "otc") s.trades)
      → IsUntouched s (after_guard p cfg signal reason s)
  unfolding after_guard refused sequence_result
  after_guard-full signal (some reason) s h = (refl, refl, refl)
  after_guard-full signal none s h =
      let full : leb_ℤ cfg.max_open_trades (pos (count_open_trades (some "otc") s.trades)) ≡ true =
        ground arith in
      rw full (refl, refl, refl)

  guarded-stopped :
      (signal : OtcSignal) (s : ExecState W) {reason : StopReason}
      → (evaluate_otc_stop (p.guard_inputs s.trades s.world) s.guard).0 ≡ some reason
      → IsUntouched s (guarded p cfg signal s)
  unfolding guarded run_guard
  guarded-stopped signal s h = rw h (after_guard-stopped signal _ _)

  guarded-full :
      (signal : OtcSignal) (s : ExecState W)
      → cfg.max_open_trades ≤ℤ pos (count_open_trades (some "otc") s.trades)
      → IsUntouched s (guarded p cfg signal s)
  unfolding guarded run_guard
  guarded-full signal s h = after_guard-full signal _ _ h

  refused-IsUntouched :
      (signal : OtcSignal) (reason : String) (max : ℕ) (s : ExecState W)
      → IsUntouched s (refused signal reason max, s)
  unfolding refused sequence_result
  refused-IsUntouched signal reason max s = (refl, refl, refl)

  switched_on :
      (signal : OtcSignal) (s : ExecState W)
      → (not p.otc_trading_enabled && not cfg.dry_run) ≡ false
      → ((p.otc_trading_enabled ≡ false) × (cfg.dry_run ≡ false))
        ⊎ ((r : StopReason) × ((evaluate_otc_stop (p.guard_inputs s.trades s.world) s.guard).0
              ≡ some r))
        ⊎ (cfg.max_open_trades ≤ℤ pos (count_open_trades (some "otc") s.trades))
      → IsUntouched s (guarded p cfg signal s)
  switched_on signal s on (inl off) = absurd (ground arith)
  switched_on signal s on (inr (inl (r, e))) = guarded-stopped signal s e
  switched_on signal s on (inr (inr full)) = guarded-full signal s full

  -- With trading switched off outside of a dry run, with a stop that the evaluation reports, or with as many
  -- open trades as allowed, a signal executes nothing and leaves the broker and the table as they were.
  pub try_execute-IsUntouched :
      (signal : OtcSignal) (s : ExecState W)
      → ((p.otc_trading_enabled ≡ false) × (cfg.dry_run ≡ false))
        ⊎ ((r : StopReason) × ((evaluate_otc_stop (p.guard_inputs s.trades s.world) s.guard).0
              ≡ some r))
        ⊎ (cfg.max_open_trades ≤ℤ pos (count_open_trades (some "otc") s.trades))
      → let r = try_execute p cfg signal s in
        (r.0.executed ≡ false) × (r.1.world ≡ s.world) × (r.1.trades ≡ s.trades)
  unfolding try_execute
  try_execute-IsUntouched signal s h =
      elim (Bool-cases (not p.otc_trading_enabled && not cfg.dry_run)) [
        | inl off ↦ rw off (refused-IsUntouched signal "otc_trading_disabled" _ s)
        | inr on ↦ rw on (switched_on signal s on h)
      ]
