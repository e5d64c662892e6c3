-- ===== src/Execution/Trader/Admitted.antt =====
-- What an executed trade met on its way, and the number of open trades.
use divap_trader.Base.{
  ◌≡◌, refl, String, Bool, true, false, Option, none, some, List, inr, ℕ, arith,
}
use divap_trader.Base.Int.{pos, leb_ℤ}
use divap_trader.Decimals.{Decimal}
use divap_trader.Data.Trades.{Trades, count_open_trades, has_open_trade}
use divap_trader.Market.{Candle, DivapSignal, MarketContext}
use divap_trader.Bankroll.Context.{Selection}
use divap_trader.Execution.Gate.Defs.{Decision, allowed, denied}
use divap_trader.Execution.Trader.Steps.{
  Triple, With, and_then-Triple, done-Triple, choose-Triple, call-Triple, read-Triple,
  on_bankroll-Triple, query_then-Triple, weaken-Triple, fact-Triple, raise-Triple, TraderState,
  done,
}
use divap_trader.Execution.Trader.Ports.{
  Broker, TraderSettings, Venue, Reason, TradeExecutionResult, refusal,
}
use divap_trader.Execution.Trader.Booked.{Booked, open_with-Books}
use divap_trader.Execution.Trader.Execute.{
  attempt_of, Attempt, check_limits, after_gate, gate_decision, profile_for, context_for,
  effective_id, try_execute,
}

-- The limits that the table met before the trade.
pub record IsWithin (cfg : TraderSettings) (a : Attempt) (db : Trades) : Type 0 where
  pub below_global : leb_ℤ cfg.trading_max_open_trades (pos (count_open_trades none db)) ≡ false
  pub below_profile :
      leb_ℤ a.execution.max_open_trades (pos (count_open_trades (some a.profile_id) db)) ≡ false
  pub no_duplicate : has_open_trade a.signal.symbol a.signal.timeframe a.profile_id db ≡ false

module _ {W : Type 0} (ports : Broker W) (cfg : TraderSettings) (venue : Venue) (db : Trades) where
  -- An executed trade has met P.
  abbrev pub After : DivapSignal → Type 0 → TradeExecutionResult → TraderState W → Type 0
  After signal P r s = Booked signal db r s.trades × (r.executed ≡ true → P)

  refusal-After :
      {P : Type 0} {Q : TraderState W → Type 0} (signal : DivapSignal) (reason : Reason)
      → ((s : TraderState W) → Q s → With db s)
      → Triple Q (done (refusal signal reason)) (After signal P) (With db)
  unfolding refusal
  refusal-After signal reason q =
      done-Triple _ λ s h.
        (inr (record { executed_false = refl; no_id = refl; kept = q s h }), λ e. ground arith)

  limits-After :
      (a : Attempt)
      → Triple
          (With db)
          (check_limits ports cfg venue a)
          (After a.signal (IsWithin cfg a db))
          (With db)
  unfolding check_limits
  limits-After a = query_then-Triple _ _ (
      choose-Triple _ (λ g. refusal-After a.signal _ λ s h. h)
        λ below. query_then-Triple _ _ (
          choose-Triple _ (λ g. refusal-After a.signal _ λ s h. h)
            λ below_own. query_then-Triple _ _ (
              choose-Triple _ (λ g. refusal-After a.signal _ λ s h. h)
                λ fresh.
                  weaken-Triple
                    (λ r s b. (
                      b,
                      λ e. record {
                        below_global = below;
                        below_profile = below_own;
                        no_duplicate = fresh;
                      },
                    ))
                    (open_with-Books ports cfg venue db a a.profile))))

  -- A passed gate comes with the limits.
  pub gate-After :
      {C : Type 0} (a : Attempt) (d : Decision)
      → (d ≡ allowed → IsWithin cfg a db → C)
      → Triple (With db) (after_gate ports cfg venue a d) (After a.signal C) (With db)
  unfolding after_gate
  gate-After a Decision.raised c = raise-Triple λ s h. h
  gate-After a (denied d) c = refusal-After a.signal _ λ s h. h
  gate-After a allowed c = weaken-Triple (λ r s h. (h.0, λ e. c refl (h.1 e))) (limits-After a)

  context-Triple :
      (id : Option String) → Triple (With db) (context_for ports id) (λ a s. With db s) (With db)
  unfolding context_for
  context-Triple id =
      and_then-Triple (read-Triple _) λ p. and_then-Triple (read-Triple _) λ q. on_bankroll-Triple _

  module _ (signal : DivapSignal) (alert_id : Option ℕ) (context : Option MarketContext)
      (given : List Decimal) where
    -- K is known of the profile's id and the state, G of the id and the selected profile, and C follows.
    pub try_execute-After :
        {C : Type 0} {P : TraderState W → Type 0} (K : String → TraderState W → Type 0)
        (G : String → Selection → Type 0) (profile_id : Option String)
        → Triple P (effective_id ports profile_id) K (With db)
        → ((id : String)
            → Triple (K id) (profile_for ports id) (λ x s. With db s × G id x) (With db))
        → ((id : String) (selection : Selection) (goal : Bool) (candles : List Candle)
            → G id selection
            → let a = attempt_of signal alert_id context given id selection goal candles in
              gate_decision cfg a selection.1.1.protected_mode ≡ allowed → IsWithin cfg a db → C)
        → Triple P
            (try_execute ports cfg venue signal alert_id context profile_id given)
            (After signal C)
            (With db)
    unfolding try_execute
    try_execute-After K G profile_id id_known selected conclude = and_then-Triple id_known λ id.
        and_then-Triple (selected id) λ selection. fact-Triple (G id selection) λ good.
          and_then-Triple (context-Triple (some id)) λ found.
            and_then-Triple (call-Triple _) λ candles.
              gate-After (attempt_of signal alert_id context given id selection found.1 candles) _
                (conclude id selection found.1 candles good)
