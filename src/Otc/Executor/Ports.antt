-- ===== src/Otc/Executor/Ports.antt =====
-- What the executor calls. The connections to IQ Option, the clock and the sleeping stand behind `Ports`,
-- over a state W of the world; a call that raises ends the run and is not modelled. The two broker methods
-- that the source builds on those connections are below.
use divap_trader.Base.{ℕ, String, Bool, true, false, ◌||◌, not, Option, none, some, if◌then◌else◌}
use divap_trader.Base.Int.{ℤ}
use divap_trader.Decimals.{Decimal, whole, is_truthy}
use divap_trader.Data.Trades.{Trades, Instant}
use divap_trader.Otc.Models.{OtcSignal, OtcTradeResult, OtcSettlementContext, OtcProfileConfig}
use divap_trader.Otc.Guard.{GuardInputs, GuardState}

pub record Ports (W : Type 0) : Type 0 where
  -- broker.configured, resolve_iq_asset, _open_binary_mcp or _open_binary_legacy, wait_settlement
  pub configured : W → Bool
  pub resolve_asset : String → String
  pub open_live :
      OtcSignal → String → Decimal → W → (OtcTradeResult × Option OtcSettlementContext) × W
  pub wait_settlement : OtcSettlementContext → Option Instant → W → Option Decimal × W
  -- wait_for_leg and resolve_leg_datetime of src/otc/schedule.py, at the world's clock
  pub wait_for_leg : OtcSignal → ℕ → ℤ → W → (Bool × Option String) × W
  pub leg_time : OtcSignal → ℕ → W → Option Instant
  -- settings, balance, clock and totals as the stop evaluation and the stake find them
  pub guard_inputs : Trades → W → GuardInputs
  pub now : W → Instant
  pub otc_trading_enabled : Bool

-- The state that the executor's calls share.
pub record ExecState (W : Type 0) : Type 0 where
  pub world : W
  pub guard : GuardState
  pub trades : Trades

-- `stake_usd or default_stake_usd`
abbrev pub stake_or : Decimal → OtcProfileConfig → Decimal
stake_or stake cfg = if is_truthy stake then stake else cfg.default_stake_usd

abbrev pub result : Bool → String → String → String → Decimal → Bool → OtcTradeResult
result executed reason asset direction stake dry = record {
  executed = executed;
  reason = reason;
  trade_id = none;
  order_id = none;
  asset = asset;
  direction = direction;
  stake_usd = stake;
  pnl_usd = none;
  dry_run = dry;
  protection_level = 0;
}

module _ {W : Type 0} (p : Ports W) (cfg : OtcProfileConfig) where
  unfoldable pub open_binary :
      OtcSignal → Decimal → W → (OtcTradeResult × Option OtcSettlementContext) × W
  open_binary signal stake_usd w =
      let stake = stake_or stake_usd cfg in
      let asset = p.resolve_asset signal.asset in
      if cfg.dry_run
      then ((result true "dry_run" asset signal.direction stake true, none), w)
      else if not (p.configured w)
      then (
        (result false "iqoption_not_configured" asset signal.direction (whole 0) false, none),
        w,
      )
      else p.open_live signal asset stake w

  abbrev pub filled : OtcTradeResult → Option Decimal → OtcTradeResult
  filled opened pnl = record {
    executed = true;
    reason = "filled";
    trade_id = none;
    order_id = opened.order_id;
    asset = opened.asset;
    direction = opened.direction;
    stake_usd = opened.stake_usd;
    pnl_usd = pnl;
    dry_run = false;
    protection_level = 0;
  }

  -- `place_binary` after `open_binary`.
  unfoldable pub settle_opened :
      OtcTradeResult → Option OtcSettlementContext → W → OtcTradeResult × W
  settle_opened opened none w = (opened, w)
  settle_opened opened (some ctx) w =
      if not opened.executed || opened.dry_run
      then (opened, w)
      else let (pnl, after) = p.wait_settlement ctx none w in (filled opened pnl, after)

  unfoldable pub place_binary : OtcSignal → Decimal → W → OtcTradeResult × W
  unfolding open_binary settle_opened
  place_binary signal stake_usd w =
      let ((opened, ctx), after) = open_binary signal (stake_or stake_usd cfg) w in
      settle_opened opened ctx after
