-- ===== src/Risk/Bounds.antt =====
-- After an assessment the position stays inside every exposure limit.
use mathlib.Core.Path.{subst}
use cyp_agent.Base.{◌≡◌, ◌≢◌, true, false, Option, none, some, arith, Bool-cases, inl, inr}
use cyp_agent.Decimal.{Decimal, mul, sub, add}
use cyp_agent.Decimal.Exact.{IsScaled, add-IsScaled}
use cyp_agent.Decimal.Order.{IsAtMost, IsAtMost-trans}
use cyp_agent.Decimal.Room.{add-IsAtMost_iff, add-IsAtMost_mono, sub_zero-IsAtMost}
use cyp_agent.Decimal.Places.{IsWithin-IsScaled, mul-IsWithin}
use cyp_agent.Models.{rejected, AddOnPlan, TradeProposal, RiskContext}
use cyp_agent.Risk.{
  Limits, Rule, Reason, Platform, is_open, above, gross_exposure, gross_full, gross_above,
  symbol_concentration, symbol_full, symbol_above, correlated_exposure, correlated_full,
  correlated_above,
}
use cyp_agent.Risk.Margin.{existing_notional, with_existing}
use cyp_agent.Risk.Exposure.{
  rule_position_cap, rule_gross_exposure, rule_symbol_concentration, rule_correlated_exposure,
  check_room,
}
use cyp_agent.Risk.Assess.{all_rules, assess, is_reject, is_downsize}
use cyp_agent.Risk.Verdict.{assess-NoneRejects}
use cyp_agent.Risk.Limit.{final_size, Respects, assess-final_size}
use cyp_agent.Risk.Caps.{InRange, InputsInRange, room-IsScaled, all_rules-IsScaledResult}

-- A size that passes the check of the room, or respects the cap that the check sets, fits it.
check_room_fits :
    (rule : Rule) (full : Decimal → Reason) (over : Decimal → Decimal → Reason)
    (limit room size final : Decimal)
    → IsScaled room
    → IsScaled size
    → IsScaled final
    → is_reject (check_room rule full over limit room size).action ≡ false
    → Respects final (check_room rule full over limit room size)
    → IsAtMost final size
    → IsAtMost final room
check_room_fits rule full over limit room size final v w x passed respects smaller =
    elim (Bool-cases (above size room)) [
      | inr fits ↦ IsAtMost-trans final size room x w v smaller fits
      | inl a ↦ respects (ground arith) room (ground arith)
    ]

-- What holds of the size that goes on with the exposure that there is already.
pub record IsInsideLimits (proposal : TradeProposal) (ctx : RiskContext) (limits : Limits)
    (size : Decimal) : Type 0 where
  pub no_larger : IsAtMost size proposal.size_quote
  pub gross :
      IsAtMost (add size ctx.gross_exposure_quote) (mul ctx.equity_quote limits.max_gross_exposure)
  pub symbol :
      IsAtMost
        (add size ctx.symbol_exposure_quote)
        (mul ctx.equity_quote limits.max_symbol_concentration)
  pub correlated :
      (used : Decimal)
      → ctx.correlated_exposure_quote ≡ some used
      → IsAtMost (add size used) (mul ctx.equity_quote limits.max_correlated_exposure)
  pub position :
      IsAtMost
        (with_existing proposal.add_on_plan size)
        (mul ctx.equity_quote limits.max_position_pct)

module _ (proposal : TradeProposal) (ctx : RiskContext) (limits : Limits) (final : Decimal)
    (inputs : InputsInRange proposal ctx limits) (opens : is_open proposal ≡ true)
    (scaled : IsScaled final) (smaller : IsAtMost final proposal.size_quote) where
  in_range : (d : Decimal) → InRange d → IsScaled d
  in_range d v = IsWithin-IsScaled 10000 d (omega arith) v

  limit-IsScaled : (pct : Decimal) → InRange pct → IsScaled (mul ctx.equity_quote pct)
  limit-IsScaled pct v =
      IsWithin-IsScaled 20000 (mul ctx.equity_quote pct) (omega arith)
        (mul-IsWithin 10000 10000 ctx.equity_quote pct (omega arith) inputs.equity v)

  room_lem :
      (rule : Rule) (full : Decimal → Reason) (over : Decimal → Decimal → Reason)
      (pct used : Decimal)
      → InRange pct
      → InRange used
      → let limit = mul ctx.equity_quote pct in
        let r = check_room rule full over limit (sub limit used) proposal.size_quote in
        is_reject r.action ≡ false → Respects final r → IsAtMost (add final used) limit
  room_lem rule full over pct used v w passed respects =
      let limit = mul ctx.equity_quote pct in
      (add-IsAtMost_iff final used limit scaled (in_range used w) (limit-IsScaled pct v)).0 (
        check_room_fits rule full over limit (sub limit used) proposal.size_quote final
          (room-IsScaled ctx.equity_quote pct used inputs.equity v w)
          (in_range proposal.size_quote inputs.size) scaled passed respects smaller)

  gross_open :
      rule_gross_exposure proposal ctx limits
      ≡ check_room gross_exposure gross_full gross_above
          (mul ctx.equity_quote limits.max_gross_exposure)
          (sub (mul ctx.equity_quote limits.max_gross_exposure) ctx.gross_exposure_quote)
          proposal.size_quote
  unfolding rule_gross_exposure
  gross_open = rw opens

  gross_lem :
      is_reject (rule_gross_exposure proposal ctx limits).action ≡ false
      → Respects final (rule_gross_exposure proposal ctx limits)
      → IsAtMost
          (add final ctx.gross_exposure_quote)
          (mul ctx.equity_quote limits.max_gross_exposure)
  gross_lem passed respects =
      room_lem gross_exposure gross_full gross_above limits.max_gross_exposure
        ctx.gross_exposure_quote inputs.gross_pct inputs.gross (rw gross_open at passed)
        (subst (Respects final) gross_open respects)

  symbol_open :
      rule_symbol_concentration proposal ctx limits
      ≡ check_room symbol_concentration symbol_full symbol_above
          (mul ctx.equity_quote limits.max_symbol_concentration)
          (sub (mul ctx.equity_quote limits.max_symbol_concentration) ctx.symbol_exposure_quote)
          proposal.size_quote
  unfolding rule_symbol_concentration
  symbol_open = rw opens

  symbol_lem :
      is_reject (rule_symbol_concentration proposal ctx limits).action ≡ false
      → Respects final (rule_symbol_concentration proposal ctx limits)
      → IsAtMost
          (add final ctx.symbol_exposure_quote)
          (mul ctx.equity_quote limits.max_symbol_concentration)
  symbol_lem passed respects =
      room_lem symbol_concentration symbol_full symbol_above limits.max_symbol_concentration
        ctx.symbol_exposure_quote inputs.symbol_pct inputs.symbol (rw symbol_open at passed)
        (subst (Respects final) symbol_open respects)

  correlated_open :
      (used : Decimal)
      → ctx.correlated_exposure_quote ≡ some used
      → rule_correlated_exposure proposal ctx limits
        ≡ check_room correlated_exposure correlated_full correlated_above
            (mul ctx.equity_quote limits.max_correlated_exposure)
            (sub (mul ctx.equity_quote limits.max_correlated_exposure) used)
            proposal.size_quote
  unfolding rule_correlated_exposure
  correlated_open used h = rw (h, opens)

  correlated_lem :
      is_reject (rule_correlated_exposure proposal ctx limits).action ≡ false
      → Respects final (rule_correlated_exposure proposal ctx limits)
      → (used : Decimal) → ctx.correlated_exposure_quote ≡ some used
      → IsAtMost (add final used) (mul ctx.equity_quote limits.max_correlated_exposure)
  correlated_lem passed respects used h =
      let e = correlated_open used h in
      room_lem correlated_exposure correlated_full correlated_above limits.max_correlated_exposure
        used inputs.correlated_pct (inputs.correlated used h) (rw e at passed)
        (subst (Respects final) e respects)

  -- The cap of the position rule, whatever the plan.
  position_fits :
      (plan : Option AddOnPlan)
      → InRange (existing_notional plan)
      → let limit = mul ctx.equity_quote limits.max_position_pct in
        IsAtMost final (sub limit (existing_notional plan))
        → IsAtMost (with_existing plan final) limit
  position_fits none v h =
      sub_zero-IsAtMost final (mul ctx.equity_quote limits.max_position_pct) scaled
        (limit-IsScaled limits.max_position_pct inputs.position_pct) h
  position_fits (some plan) v h =
      (add-IsAtMost_iff final plan.existing_notional_quote
          (mul ctx.equity_quote limits.max_position_pct) scaled
          (in_range plan.existing_notional_quote v)
          (limit-IsScaled limits.max_position_pct inputs.position_pct)).0
        h

  position_shrinks :
      (plan : Option AddOnPlan)
      → InRange (existing_notional plan)
      → IsScaled (with_existing plan final)
        × IsScaled (with_existing plan proposal.size_quote)
        × IsAtMost (with_existing plan final) (with_existing plan proposal.size_quote)
  position_shrinks none v = (scaled, in_range proposal.size_quote inputs.size, smaller)
  position_shrinks (some plan) v =
      let size = in_range proposal.size_quote inputs.size in
      let used = in_range plan.existing_notional_quote v in
      (
        add-IsScaled final plan.existing_notional_quote scaled used,
        add-IsScaled proposal.size_quote plan.existing_notional_quote size used,
        add-IsAtMost_mono final proposal.size_quote plan.existing_notional_quote scaled size used
            smaller,
      )

  position_downsizes :
      is_reject (rule_position_cap proposal ctx limits).action ≡ false
      → above
          (with_existing proposal.add_on_plan proposal.size_quote)
          (mul ctx.equity_quote limits.max_position_pct)
        ≡ true
      → (is_downsize (rule_position_cap proposal ctx limits).action ≡ true)
        × ((rule_position_cap proposal ctx limits).max_size
            ≡ some (
                sub
                  (mul ctx.equity_quote limits.max_position_pct)
                  (existing_notional proposal.add_on_plan)))
  unfolding rule_position_cap
  position_downsizes passed a = ground arith

  position_lem :
      is_reject (rule_position_cap proposal ctx limits).action ≡ false
      → Respects final (rule_position_cap proposal ctx limits)
      → IsAtMost
          (with_existing proposal.add_on_plan final)
          (mul ctx.equity_quote limits.max_position_pct)
  position_lem passed respects =
      let limit = mul ctx.equity_quote limits.max_position_pct in
      let plan = proposal.add_on_plan in
      elim (Bool-cases (above (with_existing plan proposal.size_quote) limit)) [
        | inl a ↦
            let (d, m) = position_downsizes passed a in
            position_fits plan inputs.existing (respects d (sub limit (existing_notional plan)) m)
        | inr fits ↦
            let (f, s, shrinks) = position_shrinks plan inputs.existing in
            IsAtMost-trans (with_existing plan final) (with_existing plan proposal.size_quote) limit
              f s (limit-IsScaled limits.max_position_pct inputs.position_pct) shrinks fits
      ]

-- If the amounts and the limits that the exposure rules read have 0 to 10000 decimal places and
-- the verdict on an opening proposal is not `rejected`, then the size that goes on, the adjusted
-- one or else the proposed one, is at most the proposed size, and with the exposure that there is
-- already it is at most the gross, the symbol, the correlated (where that exposure is known) and
-- the position limit, each a share of the equity.
pub assess-IsInsideLimits :
    (platform : Platform) (proposal : TradeProposal) (ctx : RiskContext) (limits : Limits)
    → InputsInRange proposal ctx limits
    → is_open proposal ≡ true
    → (assess platform proposal ctx limits).verdict ≢ rejected
    → IsInsideLimits proposal ctx limits
        (final_size (assess platform proposal ctx limits) proposal.size_quote)
unfolding all_rules
assess-IsInsideLimits platform proposal ctx limits inputs opens h =
    let r = assess-NoneRejects platform proposal ctx limits h in
    let (scaled, smaller, s) =
      assess-final_size platform proposal ctx limits
        (IsWithin-IsScaled 10000 proposal.size_quote (omega arith) inputs.size)
        (all_rules-IsScaledResult platform proposal ctx limits inputs) h in
    let size = final_size (assess platform proposal ctx limits) proposal.size_quote in
    let r19 = r.1.1.1.1.1.1.1.1.1.1.1.1.1.1.1.1.1.1.1 in
    let s19 = s.1.1.1.1.1.1.1.1.1.1.1.1.1.1.1.1.1.1.1 in
    record {
      no_larger = smaller;
      gross = gross_lem proposal ctx limits size inputs opens scaled smaller r19.1.0 s19.1.0;
      symbol = symbol_lem proposal ctx limits size inputs opens scaled smaller r19.1.1.0 s19.1.1.0;
      correlated =
          correlated_lem proposal ctx limits size inputs opens scaled smaller r19.1.1.1.0
            s19.1.1.1.0;
      position = position_lem proposal ctx limits size inputs opens scaled smaller r19.0 s19.0;
    }
