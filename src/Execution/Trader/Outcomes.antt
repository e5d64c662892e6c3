-- ===== src/Execution/Trader/Outcomes.antt =====
-- The theorems on try_execute: what it stores, and the number of open trades.
use divap_trader.Base.{
  ◌≡◌, refl, sym, subst, String, Bool, true, false, Option, none, some, List, [], ◌∷◌, ◌++◌, inl,
  inr, ℕ, ◌+◌, ◌≤◌, arith, str_eq,
}
use divap_trader.Base.Int.{ℤ, pos, leb_ℤ}
use divap_trader.Decimals.{Decimal}
use divap_trader.Data.Trades.{Trades, TradeRecord, create_trade, count_open_trades, count_rows}
use divap_trader.Market.{DivapSignal, MarketContext}
use divap_trader.Execution.Trader.Steps.{
  Triple, With, Holds, Answer, returned, exchange_error, raised, and_then-Triple, done-Triple,
  choose-Triple, read-Triple, on_bankroll-Triple, weaken-Triple, TraderState, done, and_then,
}
use divap_trader.Execution.Trader.Ports.{Broker, TraderSettings, Venue, TradeExecutionResult}
use divap_trader.Execution.Trader.Booked.{Booked}
use divap_trader.Execution.Trader.Admitted.{After, try_execute-After}
use divap_trader.Execution.Trader.Execute.{profile_for, context_for, effective_id, try_execute}

module _ {W : Type 0} (ports : Broker W) (db : Trades) where
  -- The ids and profiles are any.
  Anyone : String → TraderState W → Type 0
  Anyone id s = With db s

  asked-Triple :
      (id : Option String)
      → Triple (With db) (and_then (context_for ports id) λ found. done (found.0)) Anyone (With db)
  unfolding context_for Anyone
  asked-Triple id =
      and_then-Triple
        (and_then-Triple (read-Triple _)
          λ p. and_then-Triple (read-Triple _) λ q. on_bankroll-Triple _)
        λ found. done-Triple _ λ s h. h

  effective-Triple :
      (id : Option String) → Triple (With db) (effective_id ports id) Anyone (With db)
  unfolding effective_id Anyone
  effective-Triple none = asked-Triple none
  effective-Triple (some id) =
      choose-Triple (str_eq id "") (λ e. asked-Triple none) λ e. done-Triple id λ s h. h

  profile-Triple :
      (id : String)
      → Triple (Anyone id) (profile_for ports id) (λ x s. With db s × Unit {0}) (With db)
  unfolding profile_for Anyone
  profile-Triple id =
      weaken-Triple (λ a s h. (h, tt)) (and_then-Triple (read-Triple _) λ p. on_bankroll-Triple _)

abbrev pub is_executed : Answer TradeExecutionResult → Bool
is_executed (returned r) = r.executed
is_executed (exchange_error e) = false
is_executed raised = false

count_rows-append :
    (p : TradeRecord → Bool) (xs : List TradeRecord) (y : TradeRecord)
    → count_rows p (xs ++ y ∷ []) ≤ count_rows p xs + 1
unfolding count_rows
count_rows-append p [] y = ground arith
count_rows-append p (x ∷ xs) y = ground (arith, count_rows-append p xs y)

count_open_trades-create :
    (row : TradeRecord) (db : Trades)
    → count_open_trades none (create_trade row db).1 ≤ count_open_trades none db + 1
unfolding count_open_trades create_trade
count_open_trades-create row db = count_rows-append _ db.rows _

room_for_one :
    (max : ℤ) (n m : ℕ) → leb_ℤ max (pos n) ≡ false → m ≤ n + 1 → leb_ℤ (pos m) max ≡ true
room_for_one max n m h k = ground arith

module _ {W : Type 0} (ports : Broker W) (cfg : TraderSettings) (venue : Venue) (db : Trades)
    (signal : DivapSignal) where
  pub executed_after :
      {C : Type 0} (t : TraderState W) (a : Answer TradeExecutionResult)
      → Holds (After ports cfg venue db signal C) (With db) a t
      → is_executed a ≡ true
      → C
  executed_after t (returned x) h e = h.1 e
  executed_after t (exchange_error x) h e = ground arith
  executed_after t raised h e = ground arith

  same_count :
      (t : TraderState W)
      → t.trades ≡ db
      → leb_ℤ (pos (count_open_trades none db)) cfg.trading_max_open_trades ≡ true
      → leb_ℤ (pos (count_open_trades none t.trades)) cfg.trading_max_open_trades ≡ true
  same_count t e h =
      subst (λ d. leb_ℤ (pos (count_open_trades none d)) cfg.trading_max_open_trades ≡ true) (sym e)
        h

  limit_after :
      (t : TraderState W) (r : TradeExecutionResult)
      → (r.executed ≡ true
          → leb_ℤ cfg.trading_max_open_trades (pos (count_open_trades none db)) ≡ false)
      → leb_ℤ (pos (count_open_trades none db)) cfg.trading_max_open_trades ≡ true
      → Booked signal db r t.trades
      → leb_ℤ (pos (count_open_trades none t.trades)) cfg.trading_max_open_trades ≡ true
  limit_after t r below h (inr b) = same_count t b.kept h
  limit_after t r below h (inl b) =
      subst (λ d. leb_ℤ (pos (count_open_trades none d)) cfg.trading_max_open_trades ≡ true)
        (sym b.stored)
        (room_for_one _ (count_open_trades none db) _ (below b.executed_true)
          (count_open_trades-create b.row db))

  limit_kept :
      {C : Type 0} (t : TraderState W) (a : Answer TradeExecutionResult)
      → (C → leb_ℤ cfg.trading_max_open_trades (pos (count_open_trades none db)) ≡ false)
      → leb_ℤ (pos (count_open_trades none db)) cfg.trading_max_open_trades ≡ true
      → Holds (After ports cfg venue db signal C) (With db) a t
      → leb_ℤ (pos (count_open_trades none t.trades)) cfg.trading_max_open_trades ≡ true
  limit_kept t (returned r) below h b = limit_after t r (λ e. below (b.1 e)) h b.0
  limit_kept t (exchange_error e) below h b = same_count t b h
  limit_kept t raised below h b = same_count t b h

module _ {W : Type 0} (ports : Broker W) (cfg : TraderSettings) (venue : Venue)
    (signal : DivapSignal) (alert_id : Option ℕ) (context : Option MarketContext)
    (profile_id : Option String) (given : List Decimal) where
  pub try_execute-Triple :
      (db : Trades)
      → Triple
          (With db)
          (try_execute ports cfg venue signal alert_id context profile_id given)
          (After ports cfg venue db signal
            (leb_ℤ cfg.trading_max_open_trades (pos (count_open_trades none db)) ≡ false))
          (With db)
  try_execute-Triple db =
      try_execute-After ports cfg venue db signal alert_id context given (Anyone ports db)
        (λ id selection. Unit {0}) profile_id (effective-Triple ports db profile_id)
        (profile-Triple ports db) λ id selection goal candles g approved within. within.below_global

  -- A result says executed exactly when one row was added, a row of the signal with the id of the result;
  -- any other result, and a call that raises, leaves the table as it was.
  pub try_execute-Booked :
      (s : TraderState W)
      → let after = try_execute ports cfg venue signal alert_id context profile_id given s in
        Holds (λ r t. Booked signal s.trades r t.trades) (With s.trades) after.0 after.1
  try_execute-Booked s = (weaken-Triple (λ a t h. h.0) (try_execute-Triple s.trades)).holds s refl

  -- An attempt from a table with at most as many open trades as trading_max_open_trades, where a limit may
  -- be negative, leaves one with at most as many, also where a call raises.
  pub try_execute-max_open_trades :
      (s : TraderState W)
      → leb_ℤ (pos (count_open_trades none s.trades)) cfg.trading_max_open_trades ≡ true
      → let after = try_execute ports cfg venue signal alert_id context profile_id given s in
        leb_ℤ (pos (count_open_trades none after.1.trades)) cfg.trading_max_open_trades ≡ true
  try_execute-max_open_trades s h =
      limit_kept ports cfg venue s.trades signal _ _ (λ c. c) h
        ((try_execute-Triple s.trades).holds s refl)
