-- ===== src/Otc/Settlement/Rows.antt =====
-- The rows of the payloads, and the matching of orders and positions.
use Prim.Native.Char.{code}
use divap_trader.Base.{
  ℕ, String, Bool, true, false, ◌&&◌, ◌||◌, not, Option, none, some, List, [], ◌∷◌, leb, ◌==◌,
  str_eq, if◌then◌else◌,
}
use divap_trader.Base.Int.{ℤ, pos, pos_part, neg_part}
use divap_trader.Decimals.{Decimal, le}
use divap_trader.Otc.Models.{OtcSettlementContext}

-- A missing or empty number is 0, as the code reads it.
pub record PositionRow : Type 0 where
  pub asset_id : ℤ
  pub amount : Decimal
  pub order_id : Option String
  pub position_id : ℤ

pub record HistoryRow : Type 0 where
  pub position_id : ℤ
  pub order_id : Option String
  pub asset_id : ℤ
  pub amount : Decimal
  pub profit : Decimal

abbrev pub same_int : ℤ → ℤ → Bool
same_int a b = pos_part a == pos_part b && neg_part a == neg_part b

-- Decimals are equal by their values.
unfoldable pub same_amount : Decimal → Decimal → Bool
unfolding le
same_amount a b = le a b && le b a

-- The white space of ASCII
abbrev is_space : ℕ → Bool
is_space c = leb 9 c && leb c 13 || leb 28 c && leb c 32

abbrev or_nothing : Bool → String → String → String
or_nothing true String.[] whole = String.[]
or_nothing b s whole = whole

unfoldable pub strip_right : String → String
strip_right String.[] = String.[]
strip_right (String.◌∷◌ c s) =
    let rest = strip_right s in or_nothing (is_space (code c)) rest (String.◌∷◌ c rest)

unfoldable pub strip_left : String → String
strip_left String.[] = String.[]
strip_left (String.◌∷◌ c s) =
    let rest = strip_left s in if is_space (code c) then rest else String.◌∷◌ c s

unfoldable pub strip : String → String
unfolding strip_left strip_right
strip s = strip_right (strip_left s)

unfoldable pub order_ids_match : Option String → Option String → Bool
unfolding strip
order_ids_match none right = false
order_ids_match (some left) none = false
order_ids_match (some left) (some right) = str_eq (strip left) (strip right)

-- `ctx.mcp_asset_id and ... != ctx.mcp_asset_id`: an asset id that is missing or 0 is not compared.
abbrev differs : Option ℤ → ℤ → Bool
differs none asset_id = false
differs (some wanted) asset_id = not (same_int wanted (pos 0)) && not (same_int asset_id wanted)

-- `_find_open_mcp_position_id`
unfoldable pub find_open_position_id : OtcSettlementContext → List PositionRow → Option ℤ
unfolding same_amount
find_open_position_id ctx [] = none
find_open_position_id ctx (p ∷ ps) =
    if differs ctx.mcp_asset_id p.asset_id || not (same_amount p.amount ctx.stake_usd)
    then find_open_position_id ctx ps
    else some p.position_id

abbrev order_differs : Option String → Option String → Bool
order_differs none right = false
order_differs (some left) right = not (order_ids_match (some left) right)

-- The loop of `_resolve_mcp_position_id`, after an order was placed.
unfoldable pub resolve_position_id : ℤ → Decimal → Option String → List PositionRow → Option ℤ
unfolding same_amount order_ids_match
resolve_position_id asset_id stake order_id [] = none
resolve_position_id asset_id stake order_id (p ∷ ps) =
    if not (same_int p.asset_id asset_id)
      || not (same_amount p.amount stake)
      || order_differs order_id p.order_id
    then resolve_position_id asset_id stake order_id ps
    else some p.position_id

-- The result of the row with a position id.
unfoldable pub profit_of_position : ℤ → List HistoryRow → Option Decimal
profit_of_position id [] = none
profit_of_position id (r ∷ rs) =
    if same_int r.position_id id then some r.profit else profit_of_position id rs

-- The result of the first row of the order, or of the asset with the stake.
unfoldable pub profit_of_order : OtcSettlementContext → ℤ → List HistoryRow → Option Decimal
unfolding order_ids_match same_amount
profit_of_order ctx asset_id [] = none
profit_of_order ctx asset_id (r ∷ rs) =
    if order_ids_match ctx.order_id r.order_id
    then some r.profit
    else if not (same_int r.asset_id asset_id) || not (same_amount r.amount ctx.stake_usd)
    then profit_of_order ctx asset_id rs
    else some r.profit
