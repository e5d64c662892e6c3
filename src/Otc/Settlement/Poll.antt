-- ===== src/Otc/Settlement/Poll.antt =====
-- One poll of the settlement, over MCP or the legacy client, with the positions that the broker remembers.
use divap_trader.Base.{
  String, Bool, false, ◌&&◌, Option, none, some, List, [], ◌∷◌, ◌==◌, str_eq, if◌then◌else◌,
}
use divap_trader.Base.Int.{ℤ, pos}
use divap_trader.Decimals.{Decimal}
use divap_trader.Otc.Models.{OtcSettlementContext}
use divap_trader.Otc.Settlement.Rows.{
  PositionRow, HistoryRow, same_int, find_open_position_id, profit_of_position, profit_of_order,
}

-- The key of the cache: the order's id, or the text of the asset and the stake, which no order id is.
pub data CacheKey : Type 0 where
  by_order : String → CacheKey
  by_stake : ℤ → Decimal → CacheKey

abbrev same_key : CacheKey → CacheKey → Bool
same_key (by_order a) (by_order b) = str_eq a b
same_key (by_stake i d) (by_stake j e) = same_int i j && same_int d.num e.num && d.scale == e.scale
same_key _ _ = false

abbrev pub Cache : Type 0
Cache = List (CacheKey × ℤ)

unfoldable pub cached : CacheKey → Cache → Option ℤ
cached k [] = none
cached k ((j, id) ∷ rest) = if same_key j k then some id else cached k rest

unfoldable pub forget : CacheKey → Cache → Cache
forget k [] = []
forget k ((j, id) ∷ rest) =
    let kept = forget k rest in if same_key j k then kept else (j, id) ∷ kept

unfoldable pub remember : CacheKey → ℤ → Cache → Cache
unfolding forget
remember k id cache = (k, id) ∷ forget k cache

-- What the polls call. A payload is none where the call raises: an ExchangeError of list_positions is
-- caught, one of get_trade_history is not. check_win_v4 gives a result when the order has one; an exception
-- of it is caught as well, one of the client is not.
pub record SettlementPorts (W : Type 0) : Type 0 where
  pub list_positions : W → Option (List PositionRow) × W
  pub get_trade_history : W → Option (List HistoryRow) × W
  pub check_win : String → W → Option (Option Decimal) × W

pub record BrokerState (W : Type 0) : Type 0 where
  pub cache : Cache
  pub world : W

abbrev pub key_of : OtcSettlementContext → ℤ → CacheKey
key_of ctx asset_id = elim (ctx.order_id) [
  | none ↦ by_stake asset_id ctx.stake_usd
  | some id ↦ if str_eq id "" then by_stake asset_id ctx.stake_usd else by_order id
]

-- `ctx.mcp_position_id or cached`
abbrev pub position_or : Option ℤ → Option ℤ → Option ℤ
position_or none other = other
position_or (some id) other = if same_int id (pos 0) then other else some id

abbrev pub look_up : OtcSettlementContext → ℤ → Option ℤ → List HistoryRow → Option Decimal
look_up ctx asset_id none history = profit_of_order ctx asset_id history
look_up ctx asset_id (some id) history = profit_of_position id history

-- A result that is found ends the memory of its position.
abbrev pub after_lookup : CacheKey → Option Decimal → Cache → Cache
after_lookup k none cache = cache
after_lookup k (some pnl) cache = forget k cache

-- None for a poll that raises, none inside for one without a result yet.
abbrev pub Polled : Type 0
Polled = Option (Option Decimal)

module _ {W : Type 0} (ports : SettlementPorts W) (ctx : OtcSettlementContext) where
  unfoldable pub read_history :
      ℤ → Cache → Option ℤ → Option (List HistoryRow) × W → Polled × BrokerState W
  unfolding profit_of_order profit_of_position forget
  read_history asset_id cache id (none, w) = (none, record { cache = cache; world = w })
  read_history asset_id cache id (some rows, w) =
      let pnl = look_up ctx asset_id id rows in
      (some pnl, record { cache = after_lookup (key_of ctx asset_id) pnl cache; world = w })

  -- With no open position of the order; the id is that of the order, or the one remembered.
  unfoldable pub poll_closed : ℤ → Cache → W → Polled × BrokerState W
  unfolding read_history cached
  poll_closed asset_id cache w =
      read_history asset_id cache
        (position_or ctx.mcp_position_id (cached (key_of ctx asset_id) cache))
        (ports.get_trade_history w)

  unfoldable pub poll_positions : ℤ → Cache → Option (List PositionRow) × W → Polled × BrokerState W
  unfolding poll_closed find_open_position_id remember
  poll_positions asset_id cache (none, w) = (some none, record { cache = cache; world = w })
  poll_positions asset_id cache (some rows, w) = elim (find_open_position_id ctx rows) [
    | none ↦ poll_closed asset_id cache w
    | some id ↦ (some none, record { cache = remember (key_of ctx asset_id) id cache; world = w })
  ]

  unfoldable pub poll_mcp : BrokerState W → Polled × BrokerState W
  unfolding poll_positions
  poll_mcp s = elim (ctx.mcp_asset_id) [
    | none ↦ (some none, s)
    | some asset_id ↦ poll_positions asset_id s.cache (ports.list_positions s.world)
  ]

  unfoldable pub poll_legacy : BrokerState W → Polled × BrokerState W
  poll_legacy s = elim (ctx.legacy_order_id) [
    | none ↦ (some none, s)
    | some id ↦ let (pnl, w) = ports.check_win id s.world in (pnl, record s { world = w })
  ]

  unfoldable pub poll_settlement_once : BrokerState W → Polled × BrokerState W
  unfolding poll_mcp poll_legacy
  poll_settlement_once s = if str_eq ctx.transport "mcp" then poll_mcp s else poll_legacy s
