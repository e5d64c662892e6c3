-- ===== src/Otc/Executor/Leg.antt =====
-- One leg of a sequence: its stake, its order and its row in the table.
use divap_trader.Base.{
  str_eq, ℕ, ◌+◌, String, Bool, true, false, ◌&&◌, ◌||◌, not, Option, none, some, [], ◌==◌, ltb,
  if◌then◌else◌, is_some, option_or,
}
use divap_trader.Base.Int.{ℤ, pos}
use divap_trader.Base.Text.{show, join}
use divap_trader.Decimals.{Decimal, whole, ◌⊗◌, quotient, is_pos}
use divap_trader.Data.Trades.{
  Trades, Instant, TradeRecord, Direction, buy, sell, other, opened, closed, CloseReason, expiry,
  expiry_level, create_trade, close_trade,
}
use divap_trader.Otc.Models.{
  OtcSignal, OtcTradeResult, OtcSettlementContext, OtcProfileConfig, OtcSettingsRecord,
}
use divap_trader.Otc.Martingale.{stake_for_level}
use divap_trader.Otc.Session.{OtcDailySessionRecord, ensure_daily_session}
use divap_trader.Otc.Guard.{GuardInputs, GuardState}
use divap_trader.Otc.Executor.Ports.{Ports, ExecState, open_binary, place_binary, result, filled}

-- `has_scheduled_legs` of src/otc/schedule.py.
unfoldable pub has_scheduled_legs : OtcSignal → Bool
has_scheduled_legs signal =
    is_some signal.entry_time || elim (signal.protection_schedule) [ [] ↦ false | _ ↦ true ]

abbrev stake_of : Option OtcDailySessionRecord → Decimal → Decimal
stake_of none default = default
stake_of (some s) default = if is_pos s.base_stake_usd then s.base_stake_usd else default

unfoldable pub base_stake_with :
    OtcProfileConfig → GuardInputs → Option OtcSettingsRecord → GuardState → Decimal × GuardState
base_stake_with cfg i none g = (cfg.default_stake_usd, g)
base_stake_with cfg i (some settings) g =
    let (session, after) = ensure_daily_session settings i.today i.balance i.now g.sessions in
    (stake_of session cfg.default_stake_usd, record g { sessions = after })

-- The text of a direction as the table holds it.
abbrev pub direction_named : String → Direction
direction_named d = if str_eq d "buy" then buy else if str_eq d "sell" then sell else other d

-- The row that `create_trade` is given; the table sets the id.
abbrev trade_row : OtcProfileConfig → OtcSignal → OtcTradeResult → Instant → TradeRecord
trade_row cfg signal r now = record {
  id = 0;
  alert_id = none;
  symbol = r.asset;
  timeframe = join (show signal.expiry_minutes) "m";
  direction = direction_named signal.direction;
  confidence = "medium";
  status = if is_some r.pnl_usd then closed else opened;
  entry_price = some (whole 0);
  exit_price = none;
  stop_loss_price = some (whole 0);
  take_profit_price = some (whole 0);
  quantity = some r.stake_usd;
  quote_amount = some r.stake_usd;
  pnl_usdt = none;
  pnl_pct = none;
  fees_usdt = none;
  context_verdict = none;
  context_score = none;
  exchange_order_id = r.order_id;
  stop_order_id = none;
  tp_order_id = none;
  trading_mode = cfg.account_mode;
  close_reason = none;
  opened_at = some now;
  closed_at = none;
  profile_id = some "otc";
  goal_protected = false;
  market = "binary_otc";
  venue = "iqoption";
  take_profit_levels = [];
  remaining_quantity = none;
  partials_taken = 0;
  realized_pnl_usdt = none;
}

-- pnl / stake * 100, and 0 without a stake.
abbrev pnl_pct_of : Decimal → Decimal → Decimal
pnl_pct_of pnl stake = if is_pos stake then quotient pnl stake ⊗ whole 100 else whole 0

abbrev close_reason_of : ℕ → CloseReason
close_reason_of level = if level == 0 then expiry else expiry_level level

unfoldable pub close_settled : ℕ → OtcTradeResult → ℕ → Instant → Option Decimal → Trades → Trades
close_settled id r level now none db = db
close_settled id r level now (some pnl) db =
    if id == 0
    then db
    else close_trade id (whole 0) pnl (pnl_pct_of pnl r.stake_usd) (close_reason_of level) now none
        db

unfoldable pub persist_trade :
    OtcProfileConfig → OtcSignal → OtcTradeResult → ℕ → Instant → Trades → Option ℕ × Trades
unfolding close_settled
persist_trade cfg signal r level now db =
    if r.dry_run
    then (none, db)
    else let (id, db') = create_trade (trade_row cfg signal r now) db in
      (some id, close_settled id r level now r.pnl_usd db')

module _ {W : Type 0} (p : Ports W) (cfg : OtcProfileConfig) where
  -- `_effective_base_stake`: the stake of the day's session, else the profile's.
  unfoldable pub effective_base_stake : ExecState W → Decimal × ExecState W
  effective_base_stake s =
      let i = p.guard_inputs s.trades s.world in
      let (stake, g) = base_stake_with cfg i i.settings s.guard in (stake, record s { guard = g })

  -- The result of an opened and settled order, stored.
  unfoldable pub store_result :
      OtcSignal → OtcTradeResult → ℕ → ExecState W → OtcTradeResult × ExecState W
  store_result signal r level s =
      let (id, db) = persist_trade cfg signal r level (p.now s.world) s.trades in
      (record r { trade_id = id; protection_level = level }, record s { trades = db })

  -- The moment to which the settlement of a leg is synchronized: that of the next leg, if one may follow.
  abbrev pub sync_until : OtcSignal → ℕ → ℕ → W → Option Instant
  sync_until signal level max w = if ltb level max then p.leg_time signal (level + 1) w else none

  unfoldable pub settle_timed :
      OtcSignal
      → ℕ
      → ℕ
      → OtcTradeResult
      → Option OtcSettlementContext
      → ExecState W
      → OtcTradeResult × ExecState W
  settle_timed signal level max r none s = (record r { protection_level = level }, s)
  settle_timed signal level max r (some ctx) s =
      if not r.executed
      then (record r { protection_level = level }, s)
      else let (pnl, w) = p.wait_settlement ctx (sync_until signal level max s.world) s.world in
        store_result signal (filled p cfg r pnl) level (record s { world = w })

  unfoldable pub execute_leg_timed :
      OtcSignal → ℕ → ℕ → Decimal → ExecState W → OtcTradeResult × ExecState W
  execute_leg_timed signal level max stake s =
      let ((r, ctx), w) = open_binary p cfg signal stake s.world in
      settle_timed signal level max r ctx (record s { world = w })

  -- An order that settles before the call returns.
  unfoldable pub place_leg : OtcSignal → ℕ → Decimal → ExecState W → OtcTradeResult × ExecState W
  place_leg signal level stake s =
      let (r, w) = place_binary p cfg signal stake s.world in
      if not r.executed
      then (record r { protection_level = level }, record s { world = w })
      else store_result signal r level (record s { world = w })

  -- The order of a leg whose time has come.
  unfoldable pub trade_leg : OtcSignal → ℕ → ℕ → ExecState W → OtcTradeResult × ExecState W
  trade_leg signal level max s =
      let (base, s') = effective_base_stake s in
      let stake = stake_for_level base cfg.martingale (pos level) in
      if has_scheduled_legs signal && not cfg.dry_run
      then execute_leg_timed signal level max stake s'
      else place_leg signal level stake s'

  abbrev pub max_lateness : ℕ → ℤ
  max_lateness level =
      if level == 0 then cfg.entry_max_lateness_seconds else cfg.protection_max_lateness_seconds

  -- A leg that missed its time.
  abbrev pub missed_leg : OtcSignal → ℕ → Option String → OtcTradeResult
  missed_leg signal level reason =
      let r =
        result false (option_or reason "scheduled_time_missed") signal.asset signal.direction
          (whole 0) false in
      record r { protection_level = level }

  unfoldable pub after_wait :
      OtcSignal → ℕ → ℕ → Bool → Option String → ExecState W → OtcTradeResult × ExecState W
  after_wait signal level max false reason s = (missed_leg signal level reason, s)
  after_wait signal level max true reason s = trade_leg signal level max s

  unfoldable pub wait_and_trade : OtcSignal → ℕ → ℕ → ExecState W → OtcTradeResult × ExecState W
  wait_and_trade signal level max s =
      let ((ok, reason), w) = p.wait_for_leg signal level (max_lateness level) s.world in
      after_wait signal level max ok reason (record s { world = w })

  -- `_execute_leg`
  unfoldable pub execute_leg : OtcSignal → ℕ → ℕ → ExecState W → OtcTradeResult × ExecState W
  execute_leg signal level max s =
      if has_scheduled_legs signal
      then wait_and_trade signal level max s
      else trade_leg signal level max s
