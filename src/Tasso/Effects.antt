-- ===== src/Tasso/Effects.antt =====
-- What a signal of the channel does to the table.
use divap_trader.Base.{
  ◌≡◌, refl, sym, ap, ◌∙◌, String, Bool, true, false, Option, none, some, List, [], ◌∷◌, ◌⊎◌, inl,
  inr, arith, option_or, if◌then◌else◌, subst,
}
use divap_trader.Decimals.{Decimal, is_pos}
use divap_trader.Data.Trades.{Trades, TradeRecord, Instant, close_trade, tasso_bot_stop}
use divap_trader.Execution.Trader.Steps.{
  Triple, With, Holds, TraderState, done, read, store, and_then, and_then-Triple, done-Triple,
  choose-Triple, call-Triple, read-Triple, query_then-Triple, weaken-Triple,
}
use divap_trader.Execution.Trader.Ports.{Order, TraderSettings}
use divap_trader.Tasso.Models.{TassoSignal, TassoPorts, list_binance_open_trades, first_trade}
use divap_trader.Tasso.Revisions.{cancel}
use divap_trader.Tasso.Closing.{
  ClosingResult, hit_symbol, is_hit, closing_result, close_quantity, positive, close_order, exit_of,
  store_closing, close_with, close_found, close_hit, apply_stop_hit,
}

picked :
    (p : TradeRecord → Bool) (x t : TradeRecord) (rest : Option TradeRecord) (b : Bool)
    → p x ≡ b
    → (if b then some x else rest) ≡ some t
    → (rest ≡ some t → p t ≡ true)
    → p t ≡ true
picked p x t rest true e h r = sym (ap (λ o. p (option_or o x)) h) ∙ e
picked p x t rest false e h r = r h

first_trade_holds :
    (p : TradeRecord → Bool) (xs : List TradeRecord) (t : TradeRecord)
    → first_trade p xs ≡ some t
    → p t ≡ true
unfolding first_trade
first_trade_holds p [] t e = ground arith
first_trade_holds p (x ∷ xs) t e = picked p x t _ _ refl e (first_trade_holds p xs t)

-- The table after an open trade was closed for the bot's stop, with a positive quantity, which is what the
-- trade has left, and the result of that quantity at the price that the answer tells.
pub record IsClosing (trade : TradeRecord) (db : Trades) (r : ClosingResult) (after : Trades)
    : Type 0 where
  pub closed_true : r.closed ≡ true
  pub closed_id : r.trade_id ≡ some trade.id
  pub quantity : Decimal
  pub is_left : close_quantity trade ≡ some quantity
  pub is_positive : is_pos quantity ≡ true
  pub price : Decimal
  pub at : Instant
  pub told_price : r.exit_price ≡ some price
  pub told_result : r.pnl_usdt ≡ some (closing_result trade price quantity).0
  pub stored :
      let (pnl, pct) = closing_result trade price quantity in
      after ≡ close_trade trade.id price pnl pct tasso_bot_stop at none db

-- Nothing is left of the trade.
abbrev pub IsEmpty : TradeRecord → Type 0
IsEmpty t =
    (close_quantity t ≡ none) ⊎ ((q : Decimal) × ((close_quantity t ≡ some q) × (is_pos q ≡ false)))

nothing_left :
    (o : Option Decimal)
    → positive o ≡ none
    → (o ≡ none) ⊎ ((q : Decimal) × ((o ≡ some q) × (is_pos q ≡ false)))
nothing_left none h = inl refl
nothing_left (some q) h = inr (q, (refl, ground arith))

left_if :
    (p q : Decimal) (b : Bool)
    → is_pos p ≡ b
    → (if b then some p else none) ≡ some q
    → (some p ≡ some q) × (is_pos q ≡ true)
left_if p q true e h = (h, subst (λ o. is_pos (option_or o p) ≡ true) h e)
left_if p q false e h = ground arith

something_left :
    (o : Option Decimal) (q : Decimal) → positive o ≡ some q → (o ≡ some q) × (is_pos q ≡ true)
something_left none q h = ground arith
something_left (some p) q h = left_if p q _ refl h

module _ {W : Type 0} (ports : TassoPorts W) (db : Trades) where
  cancel-Triple :
      (symbol : String) (id : Option String)
      → Triple (With db) (cancel ports symbol id) (λ a s. With db s) (With db)
  unfolding cancel
  cancel-Triple symbol none = done-Triple tt λ s h. h
  cancel-Triple symbol (some id) = choose-Triple _ (λ e. read-Triple _) λ e. done-Triple tt λ s h. h

  order-Triple :
      (t : TradeRecord) (qty : Decimal)
      → Triple (With db) (close_order ports t qty) (λ a s. With db s) (With db)
  unfolding close_order
  order-Triple t qty = choose-Triple _ (λ e. call-Triple _) λ e. call-Triple _

  exit-Triple :
      (t : TradeRecord) (order : Order)
      → Triple (With db) (exit_of ports t order) (λ a s. With db s) (With db)
  unfolding exit_of
  exit-Triple t order = choose-Triple _ (λ e. done-Triple _ λ s h. h) λ e. call-Triple _

  store-Triple :
      (t : TradeRecord) (qty price : Decimal)
      → close_quantity t ≡ some qty
      → is_pos qty ≡ true
      → Triple
          (With db)
          (store_closing ports t qty price)
          (λ r s. IsClosing t db r s.trades)
          (With db)
  unfolding store_closing store and_then done read
  store-Triple t qty price left p = record {
    holds = λ s h. record {
      closed_true = refl;
      closed_id = refl;
      quantity = qty;
      is_left = left;
      is_positive = p;
      price = price;
      at = (ports.broker.now s.world).0;
      told_price = refl;
      told_result = refl;
      stored = ap (close_trade t.id price _ _ tasso_bot_stop _ none) h;
    };
  }

  -- The trade is closed, or nothing is left of it and the answer says that it was not closed.
  close-Triple :
      (t : TradeRecord) (qty : Option Decimal)
      → positive (close_quantity t) ≡ qty
      → Triple
          (With db)
          (close_with ports t qty)
          (λ r s. IsClosing t db r s.trades ⊎ ((s.trades ≡ db) × ((r.closed ≡ false) × IsEmpty t)))
          (With db)
  unfolding close_with
  close-Triple t none e = done-Triple _ λ s h. inr (h, (refl, nothing_left _ e))
  close-Triple t (some qty) e =
      let (left, p) = something_left _ qty e in
      and_then-Triple (cancel-Triple t.symbol t.stop_order_id) λ u.
        and_then-Triple (cancel-Triple t.symbol t.tp_order_id) λ v.
          and_then-Triple (order-Triple t qty) λ order.
            and_then-Triple (exit-Triple t order)
              λ price. weaken-Triple (λ r s h. inl h) (store-Triple t qty price left p)

-- The first open trade of the table that has the symbol and a profile of the channel.
abbrev pub found_for : String → Trades → Option TradeRecord
found_for symbol db = first_trade (is_hit symbol) (list_binance_open_trades db)

-- That trade was closed, outside of a dry run.
pub record IsStopped (dry_run : Bool) (symbol : String) (db : Trades) (r : ClosingResult)
    (after : Trades) : Type 0 where
  pub is_live : dry_run ≡ false
  pub trade : TradeRecord
  pub found : found_for symbol db ≡ some trade
  pub hit : is_hit symbol trade ≡ true
  pub closing : IsClosing trade db r after

-- There was no such trade, or nothing left of it.
abbrev pub HasNothing : String → Trades → Type 0
HasNothing symbol db =
    (found_for symbol db ≡ none)
    ⊎ ((t : TradeRecord) × ((found_for symbol db ≡ some t) × IsEmpty t))

-- The table is as it was: in a dry run, or where there was nothing to close and the answer says so.
pub record IsLeft (dry_run : Bool) (symbol : String) (db : Trades) (r : ClosingResult)
    (after : Trades) : Type 0 where
  pub kept : after ≡ db
  pub reason : (dry_run ≡ true) ⊎ ((r.closed ≡ false) × HasNothing symbol db)

-- No symbol, no closing.
abbrev pub Stopped : Bool → Option String → Trades → ClosingResult → Trades → Type 0
Stopped dry_run none db r after = (after ≡ db) × (r.closed ≡ false)
Stopped dry_run (some symbol) db r after =
    IsStopped dry_run symbol db r after ⊎ IsLeft dry_run symbol db r after

module _ {W : Type 0} (ports : TassoPorts W) (cfg : TraderSettings) (db : Trades) where
  closed_or_left :
      (symbol : String) (t : TradeRecord) (r : ClosingResult) (after : Trades)
      → found_for symbol db ≡ some t
      → cfg.trading_dry_run ≡ false
      → IsClosing t db r after ⊎ ((after ≡ db) × ((r.closed ≡ false) × IsEmpty t))
      → Stopped cfg.trading_dry_run (some symbol) db r after
  closed_or_left symbol t r after e d (inl c) = inl (record {
    is_live = d;
    trade = t;
    found = e;
    hit = first_trade_holds (is_hit symbol) (list_binance_open_trades db) t e;
    closing = c;
  })
  closed_or_left symbol t r after e d (inr (k, (f, m))) =
      inr (record { kept = k; reason = inr (f, inr (t, (e, m))) })

  found-Triple :
      (symbol : String) (o : Option TradeRecord)
      → found_for symbol db ≡ o
      → Triple
          (With db)
          (close_found ports cfg o)
          (λ r s. Stopped cfg.trading_dry_run (some symbol) db r s.trades)
          (With db)
  unfolding close_found
  found-Triple symbol none e =
      done-Triple _ λ s h. inr (record { kept = h; reason = inr (refl, inl e) })
  found-Triple symbol (some t) e =
      choose-Triple cfg.trading_dry_run
        (λ d. done-Triple _ λ s h. inr (record { kept = h; reason = inl d }))
        λ d.
          weaken-Triple (λ r s h. closed_or_left symbol t r s.trades e d h)
            (close-Triple ports db t _ refl)

  hit-Triple :
      (o : Option String)
      → Triple
          (With db)
          (close_hit ports cfg o)
          (λ r s. Stopped cfg.trading_dry_run o db r s.trades)
          (With db)
  unfolding close_hit
  hit-Triple none = done-Triple _ λ s h. (h, refl)
  hit-Triple (some symbol) = query_then-Triple _ _ (found-Triple symbol _ refl)

-- Outside of a dry run the notice of a stop closes the first open Binance trade of its symbol that belongs to
-- a profile of the channel, with the positive quantity that is left of it and the price and the result that
-- it answers; it answers that nothing was closed, and leaves the table as it was, exactly where there is no
-- such trade or nothing left of it. In a dry run, without a symbol, and where a call raises, the table stays
-- as it was.
pub apply_stop_hit-Stopped :
    {W : Type 0} (ports : TassoPorts W) (cfg : TraderSettings) (signal : TassoSignal)
    (s : TraderState W)
    → let after = apply_stop_hit ports cfg signal s in
      Holds
        (λ r t.
          Stopped cfg.trading_dry_run
            (hit_symbol signal.signal_kind signal.symbol)
            s.trades
            r
            t.trades)
        (With s.trades)
        after.0
        after.1
unfolding apply_stop_hit
apply_stop_hit-Stopped ports cfg signal s = (hit-Triple ports cfg s.trades _).holds s refl
