-- ===== src/Samples.antt =====
-- Sample values that the tests share: a proposal of 5000 on an account of 10000 of which 9000 are in
-- use.
use cyp_agent.Base.{false, none, some, [], ◌∷◌, codes}
use cyp_agent.Int.{pos}
use cyp_agent.Models.{Float, long, spot, isolated, market, TradeProposal, RiskContext}
use cyp_agent.Risk.{Platform, literal}

abbrev pub zero_float : Float
zero_float = record { bits = 0 }

abbrev pub two_platform : Platform
two_platform = record {
  format_g = λ x. codes "2";
  of_ratio = λ n d. none;
  float_max = λ x y. x;
  float_min = λ x y. x;
  float_zero = zero_float;
  float_one = record { bits = 4607182418800017408 };
  lower_rune = λ c. c;
}

abbrev pub btc_proposal : TradeProposal
btc_proposal = record {
  symbol = codes "BTC/USDT";
  venue = codes "binance";
  side = long;
  instrument = spot;
  size_quote = literal 5000 0;
  leverage = record { bits = 4611686018427387904 };
  margin_mode = isolated;
  entry = record { entry_type = market; price = none; low = none; high = none };
  stop_loss = some (literal 95 0);
  take_profit = literal 120 0 ∷ [];
  confidence = zero_float;
  thesis = codes "trend";
  supporting_reports = [];
  leverage_plan = none;
  add_on_plan = none;
}

abbrev pub busy_account : RiskContext
busy_account = record {
  equity_quote = literal 10000 0;
  ref_price = literal 100 0;
  gross_exposure_quote = literal 9000 0;
  symbol_exposure_quote = literal 0 0;
  correlated_exposure_quote = some (literal 40005 1);
  portfolio_var_quote = none;
  portfolio_cvar_quote = some (literal 200 0);
  orders_last_hour = pos 2;
  consecutive_losses = pos 1;
  daily_drawdown = literal 1 2;
  weekly_drawdown = literal 2 2;
  total_drawdown = literal 3 2;
  reconciling = false;
  kill = false;
  margin_ratio = none;
  estimated_slippage_bps = some (literal 5 0);
  estimated_liquidation_price = none;
  estimated_price_impact = none;
  onchain = false;
  approval_amount = none;
  approval_unlimited = false;
  contract_address = none;
  pool_tvl_usd = none;
  estimated_gas_quote = none;
  mev_protected = none;
}
