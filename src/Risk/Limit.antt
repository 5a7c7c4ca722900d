-- ===== src/Risk/Limit.antt =====
-- The size that an assessment leaves fits every limit.
use mathlib.Core.Path.{subst}
use cyp_agent.Base.{
  ◌≡◌, ◌≢◌, refl, inl, inr, true, Option, none, some, List, [], ◌∷◌, arith, if◌then◌else◌, All,
  Bool-cases, some_eq,
}
use cyp_agent.Decimal.{Decimal}
use cyp_agent.Decimal.Exact.{IsScaled}
use cyp_agent.Decimal.Order.{
  IsAtMost, IsAtMost-trans, IsAtMost-refl, IsAtMost-of_below, IsAtMost-of_not_below,
}
use cyp_agent.Models.{rejected, TradeProposal, RiskContext}
use cyp_agent.Risk.{Limits, RuleResult, Platform, below}
use cyp_agent.Risk.Assess.{
  Assessment, all_rules, is_downsize, violations, smaller, adjust, conclude, assess,
}

-- The size that goes on: the adjusted one where there is one.
abbrev pub final_size : Assessment → Decimal → Decimal
final_size assessment proposed = elim assessment.adjusted_size_quote [
  | none ↦ proposed
  | some size ↦ size
]

-- The result's cap, if it has one, is a decimal in range.
abbrev pub IsScaledResult : RuleResult → Type 0
IsScaledResult r = (m : Decimal) → r.max_size ≡ some m → IsScaled m

-- A size respects a result: a cap that the result sets is not exceeded.
abbrev pub Respects : Decimal → RuleResult → Type 0
Respects size r =
    is_downsize r.action ≡ true → (m : Decimal) → r.max_size ≡ some m → IsAtMost size m

abbrev step : RuleResult → Decimal → Decimal
step r adjusted = if is_downsize r.action then smaller r.max_size adjusted else adjusted

record Steps (r : RuleResult) (before after : Decimal) : Type 0 where
  scaled : IsScaled after
  falls : IsAtMost after before
  respects : Respects after r

smaller-Steps :
    (cap : Option Decimal) (a : Decimal)
    → IsScaled a
    → ((m : Decimal) → cap ≡ some m → IsScaled m)
    → IsScaled (smaller cap a)
      × IsAtMost (smaller cap a) a
      × ((m : Decimal) → cap ≡ some m → IsAtMost (smaller cap a) m)
smaller-Steps none a v c = (v, IsAtMost-refl a v, λ m e. cc)
smaller-Steps (some m) a v c = elim (Bool-cases (below m a)) [
  | inl b ↦ rw b (
    c m refl,
    IsAtMost-of_below m a (c m refl) v b,
    λ n e. subst (IsAtMost m) (some_eq m n e) (IsAtMost-refl m (c m refl)),
  )
  | inr b ↦ rw b (
    v,
    IsAtMost-refl a v,
    λ n e. subst (IsAtMost a) (some_eq m n e) (IsAtMost-of_not_below m a (c m refl) v b),
  )
]

step-Steps : (r : RuleResult) (a : Decimal) → IsScaled a → IsScaledResult r → Steps r a (step r a)
step-Steps r a v c = elim (Bool-cases (is_downsize r.action)) [
  | inl d ↦
      let (scaled, falls, respects) = smaller-Steps r.max_size a v c in
      rw (d, step) (record { scaled = scaled; falls = falls; respects = λ _ m e. respects m e })
  | inr d ↦
      rw (d, step)
        (record { scaled = v; falls = IsAtMost-refl a v; respects = λ y m e. absurd (cc (d, y)) })
]

-- Over a list of results the adjusted size falls, and respects every result.
adjust-Respects :
    (results : List RuleResult) (a : Decimal)
    → IsScaled a
    → All IsScaledResult results
    → IsScaled (adjust results a)
      × IsAtMost (adjust results a) a
      × All (Respects (adjust results a)) results
unfolding adjust
adjust-Respects [] a v c = (v, IsAtMost-refl a v, tt)
adjust-Respects (r ∷ rest) a v c =
    let s = step-Steps r a v c.0 in
    let (scaled, falls, rest_respects) = adjust-Respects rest (step r a) s.scaled c.1 in
    (
      scaled,
      IsAtMost-trans (adjust rest (step r a)) (step r a) a scaled s.scaled v falls s.falls,
      (
        λ d m e.
            IsAtMost-trans (adjust rest (step r a)) (step r a) m scaled s.scaled (c.0 m e) falls
              (s.respects d m e),
        rest_respects,
      ),
    )

-- Without a violation there was no downsizing.
adjust-no_violations :
    (results : List RuleResult) (a : Decimal) → violations results ≡ [] → adjust results a ≡ a
unfolding adjust violations
adjust-no_violations [] a h = refl
adjust-no_violations (r ∷ rest) a h = ground (arith, adjust-no_violations rest a)

conclude-final_size :
    (platform : Platform) (proposal : TradeProposal) (ctx : RiskContext) (limits : Limits)
    (results : List RuleResult)
    → (conclude platform proposal ctx limits results).verdict ≢ rejected
    → final_size (conclude platform proposal ctx limits results) proposal.size_quote
      ≡ adjust results proposal.size_quote
unfolding conclude
conclude-final_size platform proposal ctx limits results h =
    ground (arith, adjust-no_violations results proposal.size_quote)

-- The size that goes on is no larger than the proposed one, and respects every rule.
pub assess-final_size :
    (platform : Platform) (proposal : TradeProposal) (ctx : RiskContext) (limits : Limits)
    → IsScaled proposal.size_quote
    → All IsScaledResult (all_rules platform proposal ctx limits)
    → (assess platform proposal ctx limits).verdict ≢ rejected
    → let size = final_size (assess platform proposal ctx limits) proposal.size_quote in
      IsScaled size
      × IsAtMost size proposal.size_quote
      × All (Respects size) (all_rules platform proposal ctx limits)
unfolding assess
assess-final_size platform proposal ctx limits v c h =
    let results = all_rules platform proposal ctx limits in
    rw (conclude-final_size platform proposal ctx limits results h)
      (adjust-Respects results proposal.size_quote v c)
