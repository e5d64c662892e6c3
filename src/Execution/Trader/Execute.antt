-- ===== src/Execution/Trader/Execute.antt =====
-- try_execute: the tests in the order of the source, then a simulated trade or a live one.
use divap_trader.Base.{ℕ, String, Bool, Option, none, some, List, [], str_eq}
use divap_trader.Base.Int.{pos, leb_ℤ}
use divap_trader.Decimals.{Decimal}
use divap_trader.Data.Trades.{simulated, count_open_trades, has_open_trade}
use divap_trader.Market.{Candle, DivapSignal, MarketContext}
use divap_trader.Profiles.Models.{ProfileExecution, TradingProfile}
use divap_trader.Profiles.ExitPolicy.{resolve_take_profit}
use divap_trader.Execution.Risk.{base_quantity_from_quote}
use divap_trader.Execution.Gate.Defs.{Decision, allowed, denied, should_execute_trade, first_target}
use divap_trader.Bankroll.Context.{Selection, get_execution_profile_for, get_execution_context}
use divap_trader.Execution.Trader.Steps.{
  Step, done, raise, and_then, call, read, on_bankroll, query, choose, catching,
}
use divap_trader.Execution.Trader.Ports.{
  Reason, Broker, TraderSettings, Venue, place_of, TradeExecutionResult, refusal,
}
use divap_trader.Execution.Trader.Orders.{Booking, book, resolve_quote_amount, execute_live}

-- What does not change between the tests of one signal.
pub record Attempt : Type 0 where
  pub signal : DivapSignal
  pub alert_id : Option ℕ
  pub context : Option MarketContext
  pub given_levels : List Decimal
  pub profile_id : String
  pub profile : Option TradingProfile
  pub execution : ProfileExecution
  pub goal_protected : Bool
  pub candles : List Candle

abbrev pub attempt_of :
    DivapSignal
    → Option ℕ
    → Option MarketContext
    → List Decimal
    → String
    → Selection
    → Bool
    → List Candle
    → Attempt
attempt_of signal alert_id context given_levels id selection goal candles = record {
  signal = signal;
  alert_id = alert_id;
  context = context;
  given_levels = given_levels;
  profile_id = id;
  profile = selection.0;
  execution = selection.1.0;
  goal_protected = goal;
  candles = candles;
}

-- The gate is given an execution profile, and so does not ask for the active one.
unfoldable pub gate_decision : TraderSettings → Attempt → Bool → Decision
unfolding should_execute_trade
gate_decision cfg a protected =
    should_execute_trade (a.execution, protected) a.signal a.context cfg.gate (some a.execution)
      protected a.profile (some a.candles)

module _ {W : Type 0} (ports : Broker W) where
  unfoldable pub profile_for : String → Step W Selection
  unfolding get_execution_profile_for
  profile_for profile_id =
      and_then (read ports.current_period_month)
        λ period. on_bankroll (get_execution_profile_for ports.load_profile profile_id period)

  unfoldable pub context_for : Option String → Step W (String × Bool)
  unfolding get_execution_context
  context_for profile_id = and_then (read ports.current_period_month) λ period.
      and_then (read ports.current_period_month) λ period_later.
        on_bankroll (get_execution_context ports.load_profile profile_id period period_later)

  -- `profile_id or get_execution_context()[0]`
  unfoldable pub effective_id : Option String → Step W String
  unfolding context_for
  effective_id none = and_then (context_for none) λ found. done (found.0)
  effective_id (some id) =
      choose (str_eq id "") (and_then (context_for none) λ found. done (found.0)) (done id)

module _ {W : Type 0} (ports : Broker W) (cfg : TraderSettings) (venue : Venue) where
  unfoldable pub booking_of : Attempt → Booking
  unfolding place_of
  booking_of a = record {
    alert_id = a.alert_id;
    context = a.context;
    profile_id = a.profile_id;
    goal_protected = a.goal_protected;
    trading_mode = cfg.gate.trading_mode;
    place = place_of venue;
  }

  -- The result repeats the quantity of the row.
  unfoldable pub simulate : Attempt → Decimal → Step W TradeExecutionResult
  unfolding resolve_quote_amount book booking_of
  simulate a take_profit =
      and_then (resolve_quote_amount ports a.signal (some a.execution)) λ quote.
        book ports a.signal (booking_of a) Reason.dry_run (record {
          status = simulated;
          entry_price = a.signal.entry_price;
          quantity = base_quantity_from_quote quote a.signal.entry_price;
          quote_amount = quote;
          take_profit = take_profit;
          exchange_order_id = none;
          stop_order_id = none;
          tp_order_id = none;
          levels = [];
        })

  unfoldable pub open_trade : Attempt → Decimal → Step W TradeExecutionResult
  unfolding simulate execute_live booking_of
  open_trade a take_profit = choose cfg.trading_dry_run (simulate a take_profit) (
      catching (λ e. refusal a.signal (Reason.exchange_error e))
        (execute_live ports a.signal (booking_of a) take_profit a.execution a.given_levels))

  -- `targets[0]` of no targets is an IndexError.
  unfoldable pub open_first : Attempt → Option Decimal → Step W TradeExecutionResult
  unfolding open_trade
  open_first a none = raise
  open_first a (some target) = open_trade a target

  unfoldable pub open_resolved : Attempt → Option Decimal → Step W TradeExecutionResult
  unfolding open_trade
  open_resolved a none = done (refusal a.signal Reason.no_targets)
  open_resolved a (some target) = open_trade a target

  unfoldable pub open_with : Attempt → Option TradingProfile → Step W TradeExecutionResult
  unfolding open_first open_resolved first_target resolve_take_profit
  open_with a none = open_first a (first_target a.signal.targets)
  open_with a (some profile) =
      open_resolved a (resolve_take_profit a.signal profile (some a.candles))

  unfoldable pub check_limits : Attempt → Step W TradeExecutionResult
  unfolding open_with
  check_limits a = and_then (query (count_open_trades none)) λ total.
      choose (leb_ℤ cfg.trading_max_open_trades (pos total))
        (done (refusal a.signal Reason.max_open_trades_global))
        (and_then (query (count_open_trades (some a.profile_id))) λ open_of_profile.
          choose (leb_ℤ a.execution.max_open_trades (pos open_of_profile))
            (done (refusal a.signal Reason.max_open_trades))
            (and_then (query (has_open_trade a.signal.symbol a.signal.timeframe a.profile_id))
              λ duplicate.
                choose duplicate (done (refusal a.signal Reason.duplicate_open_trade))
                  (open_with a a.profile)))

  unfoldable pub after_gate : Attempt → Decision → Step W TradeExecutionResult
  unfolding check_limits
  after_gate a Decision.raised = raise
  after_gate a (denied d) = done (refusal a.signal (Reason.refused d))
  after_gate a allowed = check_limits a

  unfoldable pub try_execute :
      DivapSignal
      → Option ℕ
      → Option MarketContext
      → Option String
      → List Decimal
      → Step W TradeExecutionResult
  unfolding effective_id profile_for context_for after_gate gate_decision
  try_execute signal alert_id context profile_id given_levels =
      and_then (effective_id ports profile_id) λ id. and_then (profile_for ports id) λ selection.
        and_then (context_for ports (some id)) λ found.
          and_then (call (ports.fetch_ohlcv signal.symbol signal.timeframe)) λ candles.
            let a = attempt_of signal alert_id context given_levels id selection found.1 candles in
            after_gate a (gate_decision cfg a selection.1.1.protected_mode)
