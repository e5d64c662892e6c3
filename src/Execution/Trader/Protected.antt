-- ===== src/Execution/Trader/Protected.antt =====
-- A profile whose goal of the month is reached.
use divap_trader.Base.{
  ◌≡◌, refl, sym, ap, ◌∙◌, subst, String, Bool, true, false, Option, some, List, ℕ, arith, str_eq,
  not, ◌&&◌,
}
use divap_trader.Base.Int.{pos, leb_ℤ}
use divap_trader.Decimals.{Decimal}
use divap_trader.Data.Trades.{Trades, count_open_trades, Instant}
use divap_trader.Market.{Candle, DivapSignal, MarketContext, is_high, is_confirm}
use divap_trader.Profiles.Models.{TradingProfile, ProfileExecution}
use divap_trader.Bankroll.Months.{current_row_kept}
use divap_trader.Bankroll.Settings.{
  Bankroll, BankrollRow, BankrollRecord, get_settings, current_row, row_to_record,
}
use divap_trader.Bankroll.Context.{
  Selection, get_execution_profile_for, select_profile, protected_profile, meta_of, or_else,
}
use divap_trader.Execution.Gate.Defs.{allowed, is_tasso, context_is}
use divap_trader.Execution.Gate.Approval.{should_execute_trade-IsFit}
use divap_trader.Execution.Trader.Steps.{
  Triple, With, choose-Triple, done-Triple, TraderState, read, on_bankroll, and_then,
}
use divap_trader.Execution.Trader.Ports.{Broker, TraderSettings, Venue}
use divap_trader.Execution.Trader.Admitted.{IsWithin, try_execute-After}
use divap_trader.Execution.Trader.Outcomes.{is_executed, executed_after}
use divap_trader.Execution.Trader.Execute.{
  attempt_of, gate_decision, profile_for, effective_id, try_execute,
}

-- The goal of the current month is reached, and the id has a profile that is not of the kind tasso.
pub record IsProtected {W : Type 0} (ports : Broker W) (row : BankrollRow) (id : String)
    : Type 0 where
  pub month : (w : W) → (ports.current_period_month w).0 ≡ row.period_month
  pub reached_at : Instant
  pub reached : row.goal_reached_at ≡ some reached_at
  pub profile : TradingProfile
  pub loaded : ports.load_profile id ≡ some profile
  pub not_tasso : str_eq profile.kind "tasso" ≡ false
  pub named : str_eq id "" ≡ false

-- A selection with the profile of the id under the rules of a reached goal.
record IsStrict (profile : TradingProfile) (selection : Selection) : Type 0 where
  strict_profile : selection.0 ≡ some profile
  strict_execution :
      selection.1.0
      ≡ protected_profile profile.execution.min_risk_reward profile.execution.allowed_timeframes
  strict_mode : selection.1.1.protected_mode ≡ true

module _ (load : String → Option TradingProfile) (id : String) (profile : TradingProfile)
    (at : Instant) where
  select-IsStrict :
      (current : BankrollRecord) (found : Option TradingProfile) (reached : Option Instant)
      → found ≡ some profile
      → reached ≡ some at
      → IsStrict profile (select_profile load id current found reached)
  unfolding select_profile meta_of
  select-IsStrict current found reached f r =
      subst (λ x. IsStrict profile (select_profile load id current x reached)) (sym f)
        (subst (λ x. IsStrict profile (select_profile load id current (some profile) x)) (sym r)
          (record { strict_profile = refl; strict_execution = refl; strict_mode = refl }))

  get-IsStrict :
      (period : String) (db : Bankroll)
      → load id ≡ some profile
      → (current_row period db).goal_reached_at ≡ some at
      → IsStrict profile (get_execution_profile_for load id period db).0
  unfolding get_execution_profile_for get_settings row_to_record
  get-IsStrict period db f r =
      select-IsStrict (get_settings period db).0 _ _ (ap (λ x. or_else x (load "divap")) f) r

module _ {W : Type 0} (ports : Broker W) (row : BankrollRow) (pid : String)
    (p : IsProtected ports row pid) (db : Trades) where
  -- The id is the given one and the row that of the month.
  Known : String → TraderState W → Type 0
  Known id s = With db s × ((s.bankroll ≡ some row) × (id ≡ pid))

  Strict : String → Selection → Type 0
  Strict id selection = IsStrict p.profile selection × (id ≡ pid)

  id-Known :
      Triple
        (λ s. With db s × (s.bankroll ≡ some row))
        (effective_id ports (some pid))
        Known
        (With db)
  unfolding effective_id Known
  id-Known =
      choose-Triple (str_eq pid "") (λ e. ground (arith, p.named))
        λ e. done-Triple pid λ s h. (h.0, (h.1, refl))

  reached_now :
      (s : TraderState W)
      → s.bankroll ≡ some row
      → (current_row (ports.current_period_month s.world).0 s.bankroll).goal_reached_at
        ≡ some p.reached_at
  reached_now s h =
      ap (λ b. (current_row (ports.current_period_month s.world).0 b).goal_reached_at) h
      ∙ ap (λ r. r.goal_reached_at) (current_row_kept _ row (sym (p.month s.world)))
      ∙ p.reached

  profile-Strict :
      (id : String)
      → Triple (Known id) (profile_for ports id) (λ x s. With db s × Strict id x) (With db)
  unfolding profile_for Known Strict and_then read on_bankroll
  profile-Strict id = record {
    holds = λ s h. (
      h.0,
      (
        get-IsStrict ports.load_profile id p.profile p.reached_at _ s.bankroll
            (ap ports.load_profile h.1.1 ∙ p.loaded) (reached_now s h.1.0),
        h.1.1,
      ),
    );
  }

-- The tests that a strict attempt passed.
pub record IsCautious (signal : DivapSignal) (context : Option MarketContext) (id : String)
    (db : Trades) : Type 0 where
  pub high_confidence : is_high signal.confidence ≡ true
  pub confirmed : context_is (λ c. not (is_confirm c.context_verdict)) context ≡ false
  pub only_trade : count_open_trades (some id) db ≡ 0

strict_not_tasso :
    (profile : TradingProfile) (found : Option TradingProfile)
    → found ≡ some profile
    → str_eq profile.kind "tasso" ≡ false
    → is_tasso found ≡ false
strict_not_tasso profile found f k = subst (λ x. is_tasso x ≡ false) (sym f) k

none_open :
    (exec : ProfileExecution) (min_rr : Decimal) (timeframes : List String) (n : ℕ)
    → exec ≡ protected_profile min_rr timeframes
    → leb_ℤ exec.max_open_trades (pos n) ≡ false
    → n ≡ 0
unfolding protected_profile
none_open exec min_rr timeframes n e h =
    let below = subst (λ x. leb_ℤ x (pos n) ≡ false) (ap (λ x. x.max_open_trades) e) h in
    ground arith

both_false : (a b : Bool) → a ≡ true → (a && b) ≡ false → b ≡ false
both_false a b h k = ground arith

module _ {W : Type 0} (ports : Broker W) (cfg : TraderSettings) (venue : Venue)
    (signal : DivapSignal) (alert_id : Option ℕ) (context : Option MarketContext)
    (given : List Decimal) (row : BankrollRow) (pid : String) (p : IsProtected ports row pid) where
  cautious :
      (db : Trades) (id : String) (selection : Selection) (goal : Bool) (candles : List Candle)
      → Strict ports row pid p db id selection
      → let a = attempt_of signal alert_id context given id selection goal candles in
        gate_decision cfg a selection.1.1.protected_mode ≡ allowed
        → IsWithin cfg a db
        → IsCautious signal context pid db
  unfolding gate_decision Strict
  cautious db id selection goal candles (strict, same) approved within =
      let fit =
        should_execute_trade-IsFit (selection.1.0, selection.1.1.protected_mode) signal context
          cfg.gate (some selection.1.0) selection.1.1.protected_mode selection.0 (some candles)
          (strict_not_tasso p.profile selection.0 strict.strict_profile p.not_tasso) approved in
      record {
        high_confidence = ground (arith, both_false _ _ strict.strict_mode fit.protected_confident);
        confirmed = both_false _ _ strict.strict_mode fit.protected_confirmed;
        only_trade =
            ap (λ x. count_open_trades (some x) db) (sym same)
            ∙ none_open selection.1.0 _ _ _ strict.strict_execution within.below_profile;
      }

  -- In a month whose goal is reached, with the clock in that month throughout, a trade that is executed for
  -- a profile on disk, of a kind other than tasso, has a signal of high confidence, no market context that
  -- does not confirm it, and no other open trade of the profile beside it.
  pub try_execute-IsCautious :
      (s : TraderState W)
      → s.bankroll ≡ some row
      → is_executed (try_execute ports cfg venue signal alert_id context (some pid) given s).0
        ≡ true
      → IsCautious signal context pid s.trades
  try_execute-IsCautious s b e =
      let safe =
        try_execute-After ports cfg venue s.trades signal alert_id context given
          (Known ports row pid p s.trades) (Strict ports row pid p s.trades) (some pid)
          (id-Known ports row pid p s.trades) (profile-Strict ports row pid p s.trades)
          (cautious s.trades) in
      executed_after ports cfg venue s.trades signal _ _ (safe.holds s (refl, b)) e
