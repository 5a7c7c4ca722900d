-- ===== src/Risk/Chain.antt =====
-- internal/risk/engine.go: the rules on slippage and on on-chain execution.
use cyp_agent.Base.{
  Bool, false, ◌&&◌, ◌||◌, not, Option, none, some, List, [], ◌∷◌, map, if◌then◌else◌, Text,
  text_eq, trim_space,
}
use cyp_agent.Decimal.{mul}
use cyp_agent.Models.{TradeProposal, RiskContext}
use cyp_agent.Risk.{
  Limits, RuleResult, Platform, pass, refuse, slippage, price_impact, infinite_approval,
  contract_whitelist, min_pool_tvl, gas_cap, mev_route, slippage_above, impact_above,
  approval_unlimited, approval_above, not_whitelisted, tvl_below, gas_above, mev_unprotected,
  is_open, above, below, literal,
}

unfoldable pub rule_slippage : RiskContext → Limits → RuleResult
rule_slippage ctx limits = elim ctx.estimated_slippage_bps [
  | none ↦ pass slippage
  | some bps ↦
      if above bps limits.max_slippage_bps
      then refuse slippage (slippage_above bps limits.max_slippage_bps)
      else pass slippage
]

unfoldable pub rule_price_impact : RiskContext → Limits → RuleResult
rule_price_impact ctx limits = elim ctx.estimated_price_impact [
  | none ↦ pass price_impact
  | some impact ↦
      if above impact limits.max_price_impact
      then refuse price_impact (impact_above impact limits.max_price_impact)
      else pass price_impact
]

unfoldable pub rule_infinite_approval : TradeProposal → RiskContext → RuleResult
rule_infinite_approval proposal ctx =
    if not ctx.onchain || not (is_open proposal)
    then pass infinite_approval
    else if ctx.approval_unlimited
    then refuse infinite_approval approval_unlimited
    else elim ctx.approval_amount [
      | none ↦ pass infinite_approval
      | some amount ↦
          if above amount (mul proposal.size_quote (literal 105 2))
          then refuse infinite_approval (approval_above amount proposal.size_quote)
          else pass infinite_approval
    ]

-- The address that the whitelist is asked for, and the one that is shown.
abbrev normal_address : Platform → Option Text → Text
normal_address platform none = []
normal_address platform (some address) = map platform.lower_rune (trim_space address)

abbrev shown_address : Option Text → Option Text
shown_address (some (c ∷ s)) = some (c ∷ s)
shown_address _ = none

abbrev pub is_listed : Text → List Text → Bool
is_listed address [] = false
is_listed address (entry ∷ rest) = text_eq entry address || is_listed address rest

unfoldable pub rule_contract_whitelist :
    Platform → TradeProposal → RiskContext → Limits → RuleResult
rule_contract_whitelist platform proposal ctx limits =
    let address = normal_address platform ctx.contract_address in
    if not ctx.onchain || not (is_open proposal)
    then pass contract_whitelist
    else if text_eq address [] || not (is_listed address limits.contract_whitelist)
    then refuse contract_whitelist (not_whitelisted (shown_address ctx.contract_address))
    else pass contract_whitelist

unfoldable pub rule_min_pool_tvl : TradeProposal → RiskContext → Limits → RuleResult
rule_min_pool_tvl proposal ctx limits = elim ctx.pool_tvl_usd [
  | none ↦ pass min_pool_tvl
  | some tvl ↦
      if ctx.onchain && is_open proposal && below tvl limits.min_pool_tvl
      then refuse min_pool_tvl (tvl_below tvl limits.min_pool_tvl)
      else pass min_pool_tvl
]

unfoldable pub rule_gas_cap : RiskContext → Limits → RuleResult
rule_gas_cap ctx limits = elim ctx.estimated_gas_quote [
  | none ↦ pass gas_cap
  | some gas ↦
      if ctx.onchain && above gas limits.max_gas_quote
      then refuse gas_cap (gas_above gas limits.max_gas_quote)
      else pass gas_cap
]

unfoldable pub rule_mev_route : TradeProposal → RiskContext → Limits → RuleResult
rule_mev_route proposal ctx limits = elim ctx.mev_protected [
  | none ↦ pass mev_route
  | some protected ↦
      if ctx.onchain && is_open proposal && limits.require_private_mempool && not protected
      then refuse mev_route mev_unprotected
      else pass mev_route
]
