-- ===== src/Paper/Worth.antt =====
-- internal/venue/paper.go: what `Balances` counts, as a sum over the positions.
use cyp_agent.Base.{
  ℕ, ◌+◌, ◌^◌, ◌≤◌, ◌<◌, ◌≡◌, ◌≢◌, if_both, refl, inl, inr, arith, Bool-cases, Dict, lookup,
}
use cyp_agent.Decimal.{Decimal, Result, ok, err, add, sub, mul}
use cyp_agent.Decimal.Places.{
  IsWithin, sub-IsWithin, mul-IsWithin, quo-IsWithin, neg_decimal-IsWithin,
}
use cyp_agent.Decimal.Quotient.{quo}
use cyp_agent.Models.{Position}
use cyp_agent.Risk.{Platform, is_short}
use cyp_agent.Paper.{
  Leverage, leverage_ok, leverage_err, leverage_decimal, entry_notional, profit_at, margin_or,
  value_or, locked, is_perp_instrument,
}
use cyp_agent.Paper.Account.{
  BalanceError, balance, no_balance, with_margin, with_leverage, add_worth, mark_or_entry,
}

abbrev pub mark_of : Dict Decimal → Position → Decimal
mark_of marks position = mark_or_entry position (lookup position.symbol marks)

-- What `Balances` adds for a position, when it adds it.
abbrev pub grown_by : Platform → Dict Decimal → Decimal → Position → Decimal
grown_by platform marks equity position =
    add (add equity (locked platform position)) (profit_at position (mark_of marks position))

pub no_balance_apart : {e : BalanceError} {d : Decimal} → no_balance e ≢ balance d
no_balance_apart h = cc

with_margin_lem :
    (position : Position) (unrealized full : Decimal) (margin : Result Decimal)
    (equity total : Decimal)
    → with_margin equity position unrealized margin ≡ balance total
    → (other : Decimal)
    → with_margin other position unrealized margin
      ≡ balance (add (add other (value_or full margin)) unrealized)
with_margin_lem position unrealized full (ok margin) equity total h other = refl
with_margin_lem position unrealized full (err e) equity total h other = absurd (no_balance_apart h)

with_leverage_lem :
    (position : Position) (unrealized : Decimal) (leverage : Leverage) (equity total : Decimal)
    → with_leverage equity position unrealized leverage ≡ balance total
    → (other : Decimal)
    → with_leverage other position unrealized leverage
      ≡ balance (add (add other (margin_or (entry_notional position) position leverage)) unrealized)
with_leverage_lem position unrealized (leverage_err e) equity total h other =
    absurd (no_balance_apart h)
with_leverage_lem position unrealized (leverage_ok value) equity total h other =
    with_margin_lem position unrealized (entry_notional position)
      (quo (entry_notional position) value) equity total h other

-- Whether `Balances` can count a position does not depend on the sum so far.
pub add_worth_lem :
    (platform : Platform) (marks : Dict Decimal) (position : Position) (equity total : Decimal)
    → add_worth platform marks equity position ≡ balance total
    → (other : Decimal)
    → add_worth platform marks other position ≡ balance (grown_by platform marks other position)
unfolding add_worth
add_worth_lem platform marks position equity total h other =
    elim (Bool-cases (is_perp_instrument position.instrument)) [
      | inl perp ↦
          let counted =
            with_leverage_lem position (profit_at position (mark_of marks position))
              (leverage_decimal platform position.leverage) equity total (rw perp at h) other in
          rw perp counted
      | inr spot ↦ rw spot refl
    ]

-- The decimals of a position have at most n places.
pub record IsFine (n : ℕ) (marks : Dict Decimal) (position : Position) : Type 0 where
  pub size : IsWithin n position.size_base
  pub entry : IsWithin n position.entry_price
  pub mark : IsWithin n (mark_of marks position)

module _ (n : ℕ) (few : 28 ≤ n) (many : n + n + n < 2 ^ 31) (platform : Platform) where
  wider : (d : Decimal) → IsWithin (n + n) d → IsWithin (n + n + n) d
  wider d w = record { nonneg = w.nonneg; at_most = let m = w.at_most in omega arith }

  entry_notional-IsWithin :
      (position : Position)
      → IsWithin n position.size_base
      → IsWithin n position.entry_price
      → IsWithin (n + n) (entry_notional position)
  entry_notional-IsWithin position s e =
      mul-IsWithin n n position.size_base position.entry_price (omega arith) s e

  value_or-IsWithin :
      (full d e : Decimal) (q : Result Decimal)
      → quo d e ≡ q
      → IsWithin (n + n) full
      → IsWithin (n + n) (value_or full q)
  value_or-IsWithin full d e (ok margin) h w =
      let q = quo-IsWithin d e h in
      record { nonneg = q.nonneg; at_most = let m = q.at_most in omega arith }
  value_or-IsWithin full d e (err error) h w = w

  margin_or-IsWithin :
      (position : Position) (leverage : Leverage)
      → IsWithin (n + n) (entry_notional position)
      → IsWithin (n + n) (margin_or (entry_notional position) position leverage)
  margin_or-IsWithin position (leverage_err e) w = w
  margin_or-IsWithin position (leverage_ok value) w =
      value_or-IsWithin (entry_notional position) (entry_notional position) value _ refl w

  pub locked-IsWithin :
      (position : Position)
      → IsWithin n position.size_base
      → IsWithin n position.entry_price
      → IsWithin (n + n + n) (locked platform position)
  locked-IsWithin position s e =
      let w = entry_notional-IsWithin position s e in
      wider (locked platform position) (
        if_both (IsWithin (n + n)) (is_perp_instrument position.instrument) _ _
          (margin_or-IsWithin position (leverage_decimal platform position.leverage) w) w)

  pub profit_at-IsWithin :
      (position : Position) (price : Decimal)
      → IsWithin n position.size_base
      → IsWithin n position.entry_price
      → IsWithin n price
      → IsWithin (n + n + n) (profit_at position price)
  unfolding profit_at
  profit_at-IsWithin position price s e p =
      let change = mul position.size_base (sub price position.entry_price) in
      let w : IsWithin (n + n) change =
        mul-IsWithin n n position.size_base (sub price position.entry_price) (omega arith) s
          (sub-IsWithin n price position.entry_price (omega arith) p e) in
      wider _ (
        if_both (IsWithin (n + n)) (is_short position.side) _ _
          (neg_decimal-IsWithin (n + n) change w) w)
