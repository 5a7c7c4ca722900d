-- ===== src/Models.antt =====
-- internal/contracts/models.go: the data that the components exchange.
-- A string type with named constants has one more constructor for any other text; pointers are
-- options; `int` is an integer; a `float64` is its IEEE bit pattern; a time is its instant.
pub mod Validate
use cyp_agent.Base.{ℕ, Bool, Option, List, Text}
use cyp_agent.Int.{ℤ}
use cyp_agent.Decimal.{Decimal, mul}

pub record Float : Type 0 where
  pub bits : ℕ

pub data Side : Type 0 where
  long short flat : Side
  other_side : Text → Side

pub data Instrument : Type 0 where
  spot perp : Instrument
  other_instrument : Text → Instrument

pub data MarginMode : Type 0 where
  isolated cross : MarginMode
  other_mode : Text → MarginMode

pub data Verdict : Type 0 where
  approved downsized rejected : Verdict

pub data EntryType : Type 0 where
  market limit range : EntryType
  other_entry : Text → EntryType

pub data OrderStatus : Type 0 where
  new preflight submitting acknowledged partially_filled filled protective_placed closed canceled :
      OrderStatus
  order_rejected failed unknown protective_failed flattening : OrderStatus
  other_status : Text → OrderStatus

pub data ApprovalAction : Type 0 where
  approve reject modify : ApprovalAction
  other_action : Text → ApprovalAction

pub record PricePlan : Type 0 where
  pub entry_type : EntryType
  pub price : Option Decimal
  pub low : Option Decimal
  pub high : Option Decimal

pub record LeveragePlan : Type 0 where
  pub model : Text
  pub required_leverage : Float
  pub safe_max_leverage : Float
  pub selected_leverage : Float
  pub stop_fraction : Decimal
  pub volatility_fraction : Decimal
  pub required_liquidation_buffer : Decimal
  pub margin_budget_quote : Decimal
  pub estimated_margin_quote : Decimal
  pub max_notional_quote : Decimal
  pub downsized_plan : Bool

pub record AddOnPlan : Type 0 where
  pub model : Text
  pub existing_notional_quote : Decimal
  pub existing_leverage : Float
  pub profit_r : Float
  pub add_index : ℤ
  pub max_adds : ℤ
  pub risk_decay : Float
  pub risk_fraction : Float
  pub max_position_fraction : Float
  pub recommended_notional_quote : Decimal
  pub cooldown_minutes : ℤ

pub record TradeProposal : Type 0 where
  pub symbol : Text
  pub venue : Text
  pub side : Side
  pub instrument : Instrument
  pub size_quote : Decimal
  pub leverage : Float
  pub margin_mode : MarginMode
  pub entry : PricePlan
  pub stop_loss : Option Decimal
  pub take_profit : List Decimal
  pub confidence : Float
  pub thesis : Text
  pub supporting_reports : List Text
  pub leverage_plan : Option LeveragePlan
  pub add_on_plan : Option AddOnPlan

pub record ApprovalRequest : Type 0 where
  pub decision : ApprovalAction
  pub size : Option Decimal
  pub note : Text
  pub operator : Text

pub record ApprovalDecision : Type 0 where
  pub decision : ApprovalAction
  pub modified : Option TradeProposal
  pub operator : Text
  pub ts : ℕ
  pub note : Text

pub record OrderIntent : Type 0 where
  pub client_id : Text
  pub symbol : Text
  pub venue : Text
  pub side : Side
  pub instrument : Instrument
  pub order_type : EntryType
  pub size_quote : Decimal
  pub price : Option Decimal
  pub leverage : Float
  pub margin_mode : MarginMode
  pub reduce_only : Bool
  pub stop_loss : Option Decimal
  pub take_profit : List Decimal
  pub chain : Option Text
  pub approval_amount : Option Decimal

pub record ProtectiveOrder : Type 0 where
  pub kind : Text
  pub order_id : Text
  pub client_id : Text
  pub position_side : Side
  pub trigger_price : Decimal
  pub size_base : Decimal
  pub reduce_only : Bool
  pub full_close : Bool

pub record ExecutionResult : Type 0 where
  pub client_id : Text
  pub order_id : Option Text
  pub status : OrderStatus
  pub filled_base : Decimal
  pub avg_price : Option Decimal
  pub fee_quote : Decimal
  pub slippage_bps : Option Decimal
  pub protective_orders : List ProtectiveOrder
  pub error : Option Text
  pub chain : Option Text
  pub tx_hash : Option Text
  pub gas_used : Option Decimal

pub record Position : Type 0 where
  pub symbol : Text
  pub venue : Text
  pub side : Side
  pub instrument : Instrument
  pub size_base : Decimal
  pub entry_price : Decimal
  pub leverage : Float
  pub liq_price : Option Decimal
  pub margin_mode : Option MarginMode
  pub chain : Option Text
  pub tx_hash : Option Text

-- `Position.NotionalAt`.
abbrev pub notional_at : Position → Decimal → Decimal
notional_at position price = mul position.size_base price

pub record RiskContext : Type 0 where
  pub equity_quote : Decimal
  pub ref_price : Decimal
  pub gross_exposure_quote : Decimal
  pub symbol_exposure_quote : Decimal
  pub correlated_exposure_quote : Option Decimal
  pub portfolio_var_quote : Option Decimal
  pub portfolio_cvar_quote : Option Decimal
  pub orders_last_hour : ℤ
  pub consecutive_losses : ℤ
  pub daily_drawdown : Decimal
  pub weekly_drawdown : Decimal
  pub total_drawdown : Decimal
  pub reconciling : Bool
  pub kill : Bool
  pub margin_ratio : Option Decimal
  pub estimated_slippage_bps : Option Decimal
  pub estimated_liquidation_price : Option Decimal
  pub estimated_price_impact : Option Decimal
  pub onchain : Bool
  pub approval_amount : Option Decimal
  pub approval_unlimited : Bool
  pub contract_address : Option Text
  pub pool_tvl_usd : Option Decimal
  pub estimated_gas_quote : Option Decimal
  pub mev_protected : Option Bool
