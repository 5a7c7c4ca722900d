-- ===== src/Models/Validate.antt =====
-- internal/contracts/models.go: `Validate` of a proposal and of an assessment.
-- A `float64` is compared by its bits; the one subtraction, `math.Abs(a-b) > 1e-9`, is a parameter.
-- The checks of a range over a map have one error, so the order of the range does not matter.
use cyp_agent.Base.{
  ℕ, ◌*◌, ◌^◌, ◌%◌, Bool, true, false, ◌&&◌, ◌||◌, not, Option, none, some, [], ◌∷◌, ltb,
  if◌then◌else◌, Text, trim_space,
}
use cyp_agent.Int.{ℤ, pos, ltb_ℤ, neg}
use cyp_agent.Decimal.{is_negative, is_positive}
use cyp_agent.Models.{
  Float, Side, long, short, flat, Instrument, spot, perp, LeveragePlan, AddOnPlan, TradeProposal,
}
use cyp_agent.Risk.Assess.{Assessment}

pub data InvalidModel : Type 0 where
  symbol_and_venue_required invalid_side invalid_instrument negative_size bad_confidence :
      InvalidModel
  bad_leverage bad_plan_leverage plan_mismatch bad_plan_quantities bad_add_on_number : InvalidModel
  bad_add_on_quantities bad_risk_score negative_adjusted_size : InvalidModel

-- The magnitude of a float, infinity's magnitude, and its value's place in the order.
abbrev magnitude : Float → ℕ
magnitude x = x.bits % 2 ^ 63

abbrev infinite_magnitude : ℕ
infinite_magnitude = 2047 * 2 ^ 52

abbrev pub is_finite : Float → Bool
is_finite x = ltb (magnitude x) infinite_magnitude

abbrev float_order : Float → ℤ
float_order x = if ltb x.bits (2 ^ 63) then pos (magnitude x) else neg (pos (magnitude x))

-- `<` on floats that are no NaN, 0 and 1.
abbrev pub float_lt : Float → Float → Bool
float_lt x y = ltb_ℤ (float_order x) (float_order y)

abbrev pub float_0 : Float
float_0 = record { bits = 0 }

abbrev pub float_1 : Float
float_1 = record { bits = 4607182418800017408 }

-- `finiteInRange(value, 0, 1)`.
unfoldable pub in_unit_range : Float → Bool
in_unit_range x = is_finite x && not (float_lt x float_0) && not (float_lt float_1 x)

abbrev at_least_1 : Float → Bool
at_least_1 x = is_finite x && not (float_lt x float_1)

abbrev is_blank_text : Text → Bool
is_blank_text s = elim (trim_space s) [ [] ↦ true | _ ∷ _ ↦ false ]

abbrev known_side : Side → Bool
known_side long = true
known_side short = true
known_side flat = true
known_side _ = false

abbrev known_instrument : Instrument → Bool
known_instrument spot = true
known_instrument perp = true
known_instrument _ = false

-- The checks of an add-on plan.
unfoldable pub validate_add_on : Option AddOnPlan → Option InvalidModel
validate_add_on none = none
validate_add_on (some plan) =
    if not (
      is_finite plan.existing_leverage
      && is_finite plan.profit_r
      && is_finite plan.risk_decay
      && is_finite plan.risk_fraction
      && is_finite plan.max_position_fraction)
    then some bad_add_on_number
    else if not (is_positive plan.existing_notional_quote)
        || float_lt plan.existing_leverage float_1
        || not (float_lt float_0 plan.profit_r)
        || ltb_ℤ plan.add_index (pos 1)
        || ltb_ℤ plan.max_adds plan.add_index
        || not (float_lt float_0 plan.risk_decay)
        || float_lt float_1 plan.risk_decay
        || not (float_lt float_0 plan.risk_fraction)
        || not (float_lt float_0 plan.max_position_fraction)
        || float_lt float_1 plan.max_position_fraction
        || not (is_positive plan.recommended_notional_quote)
        || ltb_ℤ plan.cooldown_minutes (pos 0)
    then some bad_add_on_quantities
    else none

module _ (differs : Float → Float → Bool) where
  -- The checks of a leverage plan; `differs a b` is `math.Abs(a-b) > 1e-9`.
  unfoldable pub validate_leverage_plan : Float → Option LeveragePlan → Option InvalidModel
  validate_leverage_plan leverage none = none
  validate_leverage_plan leverage (some plan) =
      if not (
        at_least_1 plan.required_leverage
        && at_least_1 plan.safe_max_leverage
        && at_least_1 plan.selected_leverage)
      then some bad_plan_leverage
      else if float_lt plan.safe_max_leverage plan.selected_leverage
          || differs plan.selected_leverage leverage
      then some plan_mismatch
      else if is_negative plan.stop_fraction
          || is_negative plan.volatility_fraction
          || not (is_positive plan.required_liquidation_buffer)
          || not (is_positive plan.margin_budget_quote)
          || is_negative plan.estimated_margin_quote
          || not (is_positive plan.max_notional_quote)
      then some bad_plan_quantities
      else none

  unfoldable pub validate_proposal : TradeProposal → Option InvalidModel
  validate_proposal p =
      if is_blank_text p.symbol || is_blank_text p.venue
      then some symbol_and_venue_required
      else if not (known_side p.side)
      then some invalid_side
      else if not (known_instrument p.instrument)
      then some invalid_instrument
      else if is_negative p.size_quote
      then some negative_size
      else if not (in_unit_range p.confidence)
      then some bad_confidence
      else if not (at_least_1 p.leverage)
      then some bad_leverage
      else elim (validate_leverage_plan p.leverage p.leverage_plan) [
        | some e ↦ some e
        | none ↦ validate_add_on p.add_on_plan
      ]

-- The verdict is one of the three by its type.
unfoldable pub validate_assessment : Assessment → Option InvalidModel
validate_assessment a =
    if not (in_unit_range a.risk_score) then some bad_risk_score else elim a.adjusted_size_quote [
      | none ↦ none
      | some size ↦ if is_negative size then some negative_adjusted_size else none
    ]
