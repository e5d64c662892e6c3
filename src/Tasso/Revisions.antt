-- ===== src/Tasso/Revisions.antt =====
-- TassoTradeUpdater (src/tasso/trade_update.py): a revision of the signal moves the stop of the open trade.
use divap_trader.Base.{
  ℕ, String, Bool, true, false, ◌&&◌, ◌||◌, Option, none, some, if◌then◌else◌, not, str_eq, ltb,
}
use divap_trader.Decimals.{Decimal, fixed, ◌⊗◌, le, is_pos}
use divap_trader.Data.Trades.{TradeRecord, is_buy, is_open, effective_remaining, update_stop_loss}
use divap_trader.Execution.Trader.Steps.{Step, done, and_then, call, read, query, store, choose}
use divap_trader.Execution.Trader.Ports.{TraderSettings}
use divap_trader.Tasso.Models.{
  TassoSignal, TassoPorts, SignalKind, revision, list_binance_open_trades, first_trade,
}

pub data RevisionReason : Type 0 where
  not_an_update no_open_trade dry_run stop_updated targets_noted : RevisionReason

pub record RevisionResult : Type 0 where
  pub updated : Bool
  pub reason : RevisionReason
  pub trade_id : Option ℕ
  pub stop_changed : Bool

abbrev pub unchanged : RevisionReason → RevisionResult
unchanged reason = record {
  updated = false;
  reason = reason;
  trade_id = none;
  stop_changed = false;
}

abbrev pub is_revision : SignalKind → Bool
is_revision revision = true
is_revision _ = false

-- `trade.symbol != signal.symbol`, where the signal may have none
abbrev pub same_text : Option String → String → Bool
same_text none s = false
same_text (some r) s = str_eq r s

abbrev of_profile : Option String → String → Bool
of_profile p id = same_text p id

unfoldable pub is_revised : TassoSignal → TradeRecord → Bool
is_revised signal t =
    of_profile t.profile_id signal.profile_id
    && same_text signal.symbol t.symbol
    && is_open t.status

-- `x != y` of decimals, where the column may be empty
abbrev pub is_other : Option Decimal → Decimal → Bool
is_other none x = true
is_other (some y) x = not (le x y && le y x)

module _ {W : Type 0} (ports : TassoPorts W) where
  -- Cancels an order that has an id; `if order_id and hasattr(...)`.
  unfoldable pub cancel : String → Option String → Step W (Unit {0})
  cancel symbol none = done tt
  cancel symbol (some id) =
      choose (not (str_eq id "") && ports.can_cancel)
        (read (λ w. (tt, ports.cancel_order symbol id w))) (done tt)

  unfoldable pub replace_stop : TradeRecord → Decimal → Step W Bool
  unfolding cancel update_stop_loss
  replace_stop trade new_stop = and_then (cancel trade.symbol trade.stop_order_id) λ u.
      and_then
        (call (
          ports.broker.place_stop_loss_limit trade.symbol (effective_remaining trade) new_stop
            (if is_buy trade.direction then new_stop ⊗ fixed 995 3 else new_stop ⊗ fixed 1005 3)))
        λ order.
          and_then (store (λ db. (tt, update_stop_loss trade.id new_stop order db))) λ v. done true

  unfoldable pub update_stop : TradeRecord → Decimal → Step W Bool
  unfolding replace_stop effective_remaining
  update_stop trade new_stop =
      choose (not (is_pos (effective_remaining trade))) (done false) (replace_stop trade new_stop)

  unfoldable pub revise_stop : TradeRecord → Option Decimal → Step W Bool
  unfolding update_stop
  revise_stop trade none = done false
  revise_stop trade (some new_stop) =
      choose (is_other trade.stop_loss_price new_stop) (update_stop trade new_stop) (done false)

module _ {W : Type 0} (ports : TassoPorts W) (cfg : TraderSettings) where
  unfoldable pub revise_found : TassoSignal → Option TradeRecord → Step W RevisionResult
  unfolding revise_stop
  revise_found signal none = done (unchanged RevisionReason.no_open_trade)
  revise_found signal (some trade) =
      choose cfg.trading_dry_run
        (done (record {
          updated = true;
          reason = RevisionReason.dry_run;
          trade_id = some trade.id;
          stop_changed = false;
        }))
        (and_then (revise_stop ports trade signal.stop_price) λ changed. done (record {
          updated = changed || ltb trade.partials_taken signal.targets_hit;
          reason = if changed then RevisionReason.stop_updated else RevisionReason.targets_noted;
          trade_id = some trade.id;
          stop_changed = changed;
        }))

  unfoldable pub apply_revision : TassoSignal → Step W RevisionResult
  unfolding revise_found list_binance_open_trades first_trade is_revised
  apply_revision signal =
      choose (not (is_revision signal.signal_kind)) (done (unchanged RevisionReason.not_an_update))
        (and_then (query (λ db. first_trade (is_revised signal) (list_binance_open_trades db)))
          λ found. revise_found signal found)
