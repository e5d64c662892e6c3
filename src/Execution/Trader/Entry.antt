-- ===== src/Execution/Trader/Entry.antt =====
-- What an executed trade met on its way: the gate, with the profile that the bankroll selects for its id, and
-- the limits of that profile.
use divap_trader.Base.{
  ◌≡◌, refl, sym, ap, ◌∙◌, subst, inl, inr, String, Bool, true, false, Option, none, some, List, ℕ,
  arith, str_eq, Bool-cases, if◌then◌else◌,
}
use divap_trader.Base.Int.{pos, leb_ℤ}
use divap_trader.Decimals.{Decimal}
use divap_trader.Data.Trades.{Trades, count_open_trades, has_open_trade}
use divap_trader.Market.{Candle, DivapSignal, MarketContext}
use divap_trader.Bankroll.Settings.{get_settings}
use divap_trader.Bankroll.Context.{Selection, get_execution_profile_for, get_execution_context}
use divap_trader.Execution.Gate.Defs.{Decision, allowed, should_execute_trade}
use divap_trader.Execution.Trader.Steps.{
  TraderState, Step, Answer, returned, exchange_error, raised, next, and_then, call, read,
  on_bankroll, done, choose,
}
use divap_trader.Execution.Trader.Ports.{Broker, TraderSettings, Venue, TradeExecutionResult}
use divap_trader.Execution.Trader.Admitted.{IsWithin, gate-After}
use divap_trader.Execution.Trader.Outcomes.{is_executed, executed_after}
use divap_trader.Execution.Trader.Execute.{
  Attempt, attempt_of, gate_decision, profile_for, context_for, effective_id, after_gate,
  try_execute,
}

module _ {W : Type 0} (ports : Broker W) where
  -- The id of the active profile, and the state after the settings were read for it, twice.
  abbrev pub active_id : TraderState W → String
  active_id s = (get_settings (ports.current_period_month s.world).0 s.bankroll).0.active_profile_id

  abbrev pub after_active : TraderState W → TraderState W
  after_active s =
      let (period, w) = ports.current_period_month s.world in
      let (period_later, w') = ports.current_period_month w in
      record s {
        world = w';
        bankroll = (get_execution_context ports.load_profile none period period_later s.bankroll).1;
      }

  -- The id that was given, or the active one where none or an empty one was given.
  abbrev pub chosen_id : Option String → TraderState W → String
  chosen_id none s = active_id s
  chosen_id (some id) s = if str_eq id "" then active_id s else id

  abbrev pub after_id : Option String → TraderState W → TraderState W
  after_id none s = after_active s
  after_id (some id) s = if str_eq id "" then after_active s else s

  -- The profile of an id, and the state after it was selected.
  abbrev pub selected : String → TraderState W → Selection
  selected id s =
      (get_execution_profile_for ports.load_profile id (ports.current_period_month s.world).0
        s.bankroll).0

  effective_id_lem :
      (profile_id : Option String) (s : TraderState W)
      → effective_id ports profile_id s ≡ (returned (chosen_id profile_id s), after_id profile_id s)
  unfolding effective_id context_for and_then next read on_bankroll done choose
      get_execution_context get_execution_profile_for get_settings
  effective_id_lem none s = refl
  effective_id_lem (some id) s = elim (Bool-cases (str_eq id "")) [
    | inl e ↦ rw e refl
    | inr e ↦ rw e refl
  ]

  after_id-trades :
      (profile_id : Option String) (s : TraderState W) → (after_id profile_id s).trades ≡ s.trades
  after_id-trades none s = refl
  after_id-trades (some id) s = elim (Bool-cases (str_eq id "")) [
    | inl e ↦ rw e refl
    | inr e ↦ rw e refl
  ]

  -- The world after the month was read three times more, for the profile and for the goal.
  abbrev pub at_market : W → W
  at_market w =
      (ports.current_period_month (ports.current_period_month (ports.current_period_month w).1).1).1

-- The gate allowed the signal, with the profile that the bankroll selects for the chosen id and the candles
-- that the exchange gave; the open trades, of all profiles and of that id, were fewer than their limits; and
-- the id had no open trade of the symbol and the timeframe.
pub record IsAdmitted {W : Type 0} (ports : Broker W) (cfg : TraderSettings) (signal : DivapSignal)
    (context : Option MarketContext) (profile_id : Option String) (s : TraderState W) : Type 0 where
  pub candles : List Candle
  pub fetched :
      (ports.fetch_ohlcv signal.symbol signal.timeframe
        (at_market ports (after_id ports profile_id s).world)).0
      ≡ returned candles
  pub approved :
      let (profile, (execution, meta)) =
        selected ports (chosen_id ports profile_id s) (after_id ports profile_id s) in
      should_execute_trade
        (execution, meta.protected_mode)
        signal
        context
        cfg.gate
        (some execution)
        meta.protected_mode
        profile
        (some candles)
      ≡ allowed
  pub below_global :
      leb_ℤ cfg.trading_max_open_trades (pos (count_open_trades none s.trades)) ≡ false
  pub below_profile :
      let id = chosen_id ports profile_id s in
      leb_ℤ
        (selected ports id (after_id ports profile_id s)).1.0.max_open_trades
        (pos (count_open_trades (some id) s.trades))
      ≡ false
  pub no_duplicate :
      has_open_trade signal.symbol signal.timeframe (chosen_id ports profile_id s) s.trades ≡ false

moved :
    (cfg : TraderSettings) (a : Attempt) {db db' : Trades}
    → db ≡ db'
    → IsWithin cfg a db
    → IsWithin cfg a db'
moved cfg a e h = subst (λ x. IsWithin cfg a x) e h

module _ {W A : Type 0} where
  -- An executed result after a call comes from a call that returned.
  fetched_first :
      (r : Answer A × TraderState W) (f : A → Step W TradeExecutionResult)
      → is_executed (next r f).0 ≡ true
      → (a : A) × ((r.0 ≡ returned a) × (is_executed (f a r.1).0 ≡ true))
  unfolding next
  fetched_first (returned a, s) f e = (a, (refl, e))
  fetched_first (exchange_error x, s) f e = ground arith
  fetched_first (raised, s) f e = ground arith

module _ {W : Type 0} (ports : Broker W) (cfg : TraderSettings) (venue : Venue)
    (signal : DivapSignal) (alert_id : Option ℕ) (context : Option MarketContext)
    (given : List Decimal) where
  -- What try_execute does once the id is chosen.
  abbrev rest_of : String → Step W TradeExecutionResult
  rest_of id = and_then (profile_for ports id) λ selection.
      and_then (context_for ports (some id)) λ found.
        and_then (call (ports.fetch_ohlcv signal.symbol signal.timeframe)) λ candles.
          let a = attempt_of signal alert_id context given id selection found.1 candles in
          after_gate ports cfg venue a (gate_decision cfg a selection.1.1.protected_mode)

  abbrev goal_of : String → TraderState W → Bool
  goal_of id t =
      let (period, w) = ports.current_period_month (ports.current_period_month t.world).1 in
      (get_execution_context ports.load_profile (some id) period (ports.current_period_month w).0
        (get_execution_profile_for ports.load_profile id (ports.current_period_month t.world).0
          t.bankroll).1).0.1

  passed :
      (a : Attempt) (d : Decision) (t : TraderState W)
      → is_executed (after_gate ports cfg venue a d t).0 ≡ true
      → (d ≡ allowed) × IsWithin cfg a t.trades
  passed a d t e =
      executed_after ports cfg venue t.trades a.signal _ _
        ((gate-After ports cfg venue t.trades a d (λ granted within. (granted, within))).holds t
          refl)
        e

  rest_met :
      (id : String) (t : TraderState W)
      → is_executed (rest_of id t).0 ≡ true
      → (candles : List Candle) × (((ports.fetch_ohlcv signal.symbol signal.timeframe
              (at_market ports t.world)).0
            ≡ returned candles)
          × (let a =
                attempt_of signal alert_id context given id
                  (selected ports id t)
                  (goal_of id t)
                  candles in
              (gate_decision cfg a (selected ports id t).1.1.protected_mode ≡ allowed)
              × IsWithin cfg a t.trades))
  unfolding profile_for context_for and_then next read on_bankroll call
  rest_met id t e =
      let (candles, (fetched, executed)) = fetched_first _ _ e in
      (candles, (fetched, passed _ _ _ executed))

  -- An executed trade has met the gate and the limits: for the id that was given, or the active one where none
  -- was, the gate allowed the signal, with the profile that the bankroll selects for that id at that moment
  -- and the candles that the exchange gave; the open trades, of all profiles and of that id, were fewer than
  -- the limit of the settings and that of the profile; and the id had no open trade of the symbol and the
  -- timeframe.
  pub try_execute-IsAdmitted :
      (profile_id : Option String) (s : TraderState W)
      → is_executed (try_execute ports cfg venue signal alert_id context profile_id given s).0
        ≡ true
      → IsAdmitted ports cfg signal context profile_id s
  unfolding try_execute and_then next gate_decision
  try_execute-IsAdmitted profile_id s e =
      let id = chosen_id ports profile_id s in
      let t = after_id ports profile_id s in
      let k = after_id-trades ports profile_id s in
      let chosen = ap (λ r. is_executed (next r rest_of).0) (effective_id_lem ports profile_id s) in
      let (candles, (fetched, (approved, within))) = rest_met id t (sym chosen ∙ e) in
      let met =
        moved cfg
          (attempt_of signal alert_id context given id (selected ports id t) (goal_of id t) candles)
          k within in
      record {
        candles = candles;
        fetched = fetched;
        approved = approved;
        below_global = met.below_global;
        below_profile = met.below_profile;
        no_duplicate = met.no_duplicate;
      }
