-- ===== src/Otc/Executor/Totals.antt =====
-- The total of a sequence, and its rows in the table of trades.
use divap_trader.Base.{
  ℕ, zero, suc, ◌+◌, ◌≡◌, ◌≢◌, refl, ◌∙◌, inl, inr, Bool, true, false, ◌&&◌, not, Option, none,
  some, List, [], ◌∷◌, arith, length, length-append, if◌then◌else◌, Bool-cases, String, ◌==◌, any,
  ◌-◌,
}
use divap_trader.Base.Int.{pos, pos_part}
use divap_trader.Decimals.{Decimal}
use divap_trader.Data.Trades.{Trades, TradeRecord, Instant, create_trade, close_trade, update_rows}
use divap_trader.Otc.Models.{OtcSignal, OtcTradeResult, OtcProfileConfig, OtcSettlementContext}
use divap_trader.Otc.Martingale.{max_auto_protections_for_signal}
use divap_trader.Otc.Executor.Ports.{Ports, ExecState, open_binary, place_binary, stake_or}
use divap_trader.Otc.Executor.Leg.{
  execute_leg, place_leg, has_scheduled_legs, wait_and_trade, after_wait, trade_leg,
  execute_leg_timed, settle_timed, store_result, effective_base_stake, persist_trade, close_settled,
}
use divap_trader.Otc.Executor.Sequence.{
  run_legs, goes_on, run_sequence, sequence_result, recheck, traded,
}

length-update_rows :
    (k : ℕ) (f : TradeRecord → TradeRecord) (ts : List TradeRecord)
    → length (update_rows k f ts) ≡ length ts
unfolding update_rows
length-update_rows k f [] = refl
length-update_rows k f (t ∷ ts) = omega (arith, length-update_rows k f ts)

-- The orders that leave a row: executed and not a dry run.
abbrev pub row_count : OtcTradeResult → ℕ
row_count leg = if leg.executed && not leg.dry_run then 1 else 0

abbrev pub row_counts : List OtcTradeResult → ℕ
row_counts [] = 0
row_counts (leg ∷ legs) = row_count leg + row_counts legs

close_settled-length :
    (id : ℕ) (r : OtcTradeResult) (level : ℕ) (now : Instant) (pnl : Option Decimal) (db : Trades)
    → length (close_settled id r level now pnl db).rows ≡ length db.rows
unfolding close_settled close_trade
close_settled-length id r level now none db = refl
close_settled-length id r level now (some pnl) db = elim (Bool-cases (id == 0)) [
  | inl e ↦ rw e
  | inr e ↦ rw e (length-update_rows id _ db.rows)
]

persist_trade-length :
    (cfg : OtcProfileConfig) (signal : OtcSignal) (r : OtcTradeResult) (level : ℕ) (now : Instant)
    (db : Trades)
    → length (persist_trade cfg signal r level now db).1.rows
      ≡ length db.rows + (if r.dry_run then 0 else 1)
unfolding persist_trade create_trade
persist_trade-length cfg signal r level now db = elim (Bool-cases r.dry_run) [
  | inl e ↦ rw e (omega arith)
  | inr e ↦ rw e (close_settled-length _ r level now r.pnl_usd _ ∙ (length-append db.rows _))
]

module _ {W : Type 0} (p : Ports W) (cfg : OtcProfileConfig) where
  store_result-rows :
      (signal : OtcSignal) (r : OtcTradeResult) (level : ℕ) (s : ExecState W)
      → r.executed ≡ true
      → let (leg, s') = store_result p cfg signal r level s in
        length s'.trades.rows ≡ length s.trades.rows + row_count leg
  unfolding store_result
  store_result-rows signal r level s h =
      ground (arith, persist_trade-length cfg signal r level (p.now s.world) s.trades)

  settle_timed-rows :
      (signal : OtcSignal) (level max : ℕ) (r : OtcTradeResult) (ctx : Option OtcSettlementContext)
      (s : ExecState W)
      → (r.executed ≡ true → ctx ≢ none)
      → let (leg, s') = settle_timed p cfg signal level max r ctx s in
        length s'.trades.rows ≡ length s.trades.rows + row_count leg
  unfolding settle_timed
  settle_timed-rows signal level max r none s h = elim (Bool-cases r.executed) [
    | inl e ↦ absurd (h e refl)
    | inr e ↦ rw e (omega arith)
  ]
  settle_timed-rows signal level max r (some ctx) s h = elim (Bool-cases r.executed) [
    | inl e ↦ rw e (store_result-rows signal _ level _ refl)
    | inr e ↦ rw e (omega arith)
  ]

  place_leg-rows :
      (signal : OtcSignal) (level : ℕ) (stake : Decimal) (s : ExecState W)
      → let (leg, s') = place_leg p cfg signal level stake s in
        length s'.trades.rows ≡ length s.trades.rows + row_count leg
  unfolding place_leg
  place_leg-rows signal level stake s =
      let r = (place_binary p cfg signal stake s.world).0 in
      elim (Bool-cases r.executed) [
        | inl e ↦ rw e (store_result-rows signal r level _ e)
        | inr e ↦ rw e (omega arith)
      ]

-- An executed order comes with the context by which its settlement is awaited.
abbrev pub HasContexts : {W : Type 0} → Ports W → Type 0
HasContexts {W} p =
    (signal : OtcSignal) (asset : String) (stake : Decimal) (w : W)
    → (p.open_live signal asset stake w).0.0.executed ≡ true
    → (p.open_live signal asset stake w).0.1 ≢ none

module _ {W : Type 0} (p : Ports W) (cfg : OtcProfileConfig) (contexts : HasContexts p) where
  open_binary-context :
      (signal : OtcSignal) (stake : Decimal) (w : W)
      → cfg.dry_run ≡ false
      → (open_binary p cfg signal stake w).0.0.executed ≡ true
      → (open_binary p cfg signal stake w).0.1 ≢ none
  unfolding open_binary
  open_binary-context signal stake w real h =
      let live = contexts signal (p.resolve_asset signal.asset) (stake_or stake cfg) w in
      ground (arith, live)

  trade_leg-rows :
      (signal : OtcSignal) (level max : ℕ) (s : ExecState W)
      → let (leg, s') = trade_leg p cfg signal level max s in
        length s'.trades.rows ≡ length s.trades.rows + row_count leg
  unfolding trade_leg execute_leg_timed effective_base_stake
  trade_leg-rows signal level max s =
      elim (Bool-cases (has_scheduled_legs signal && not cfg.dry_run)) [
        | inl e ↦ rw e (
            settle_timed-rows p cfg signal level max _ _ _
              (open_binary-context signal _ _ (real (has_scheduled_legs signal) cfg.dry_run e)))
        | inr e ↦ rw e (place_leg-rows p cfg signal level _ _)
      ]
    where
      real : (a b : Bool) → (a && not b) ≡ true → b ≡ false
      real a b h = ground arith

  after_wait-rows :
      (signal : OtcSignal) (level max : ℕ) (ok : Bool) (reason : Option String) (s : ExecState W)
      → let (leg, s') = after_wait p cfg signal level max ok reason s in
        length s'.trades.rows ≡ length s.trades.rows + row_count leg
  unfolding after_wait
  after_wait-rows signal level max false reason s = omega arith
  after_wait-rows signal level max true reason s = trade_leg-rows signal level max s

  execute_leg-rows :
      (signal : OtcSignal) (level max : ℕ) (s : ExecState W)
      → let (leg, s') = execute_leg p cfg signal level max s in
        length s'.trades.rows ≡ length s.trades.rows + row_count leg
  unfolding execute_leg wait_and_trade
  execute_leg-rows signal level max s = elim (Bool-cases (has_scheduled_legs signal)) [
    | inl e ↦ rw e (after_wait-rows signal level max _ _ _)
    | inr e ↦ rw e (trade_leg-rows signal level max s)
  ]

  run_legs-rows :
      (signal : OtcSignal) (max rounds level : ℕ) (s : ExecState W)
      → let (legs, s') = run_legs p cfg signal max rounds level s in
        length s'.trades.rows ≡ length s.trades.rows + row_counts legs
  unfolding run_legs
  run_legs-rows signal max zero level s = omega arith
  run_legs-rows signal max (suc rounds) level s =
      let named = record signal { protection_level = pos level } in
      let leg = (execute_leg p cfg named level max s).0 in
      let s' = (execute_leg p cfg named level max s).1 in
      elim (Bool-cases (goes_on leg level max)) [
        | inl e ↦ rw e (
            omega (
              arith,
              run_legs-rows signal max rounds (level + 1) s',
              execute_leg-rows named level max s,
            ))
        | inr e ↦ rw e (omega (arith, execute_leg-rows named level max s))
      ]

  recheck-trades :
      (legs : List OtcTradeResult) (s : ExecState W) → (recheck p cfg legs s).trades ≡ s.trades
  unfolding recheck
  recheck-trades legs s = elim (Bool-cases (any (traded p cfg) legs)) [
    | inl e ↦ rw e
    | inr e ↦ rw e
  ]

  -- A sequence stores one row for each of its orders that was executed outside of a dry run, and no other,
  -- where an executed live order comes with a settlement context.
  pub run_sequence-rows :
      (signal : OtcSignal) (s : ExecState W)
      → let (r, s') = run_sequence p cfg signal s in
        length s'.trades.rows ≡ length s.trades.rows + row_counts r.legs
  unfolding run_sequence sequence_result recheck
  run_sequence-rows signal s =
      let max = max_auto_protections_for_signal signal cfg.martingale in
      let start = pos_part signal.protection_level in
      let (legs, s') = run_legs p cfg signal max (max + 1 - start) start s in
      rw (recheck-trades legs s') (run_legs-rows signal max (max + 1 - start) start s)
