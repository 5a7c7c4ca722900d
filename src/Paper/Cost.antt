-- ===== src/Paper/Cost.antt =====
-- internal/venue/paper.go: what the terms of an opening order satisfy.
use cyp_agent.Base.{
  ℕ, ◌+◌, ◌^◌, ◌≤◌, ◌<◌, ◌≡◌, true, ◌||◌, not, Option, none, some, arith, Text, if_both,
}
use cyp_agent.Decimal.{is_zero, add, mul, Decimal, DecimalError, ok, is_negative}
use cyp_agent.Paper.Place.{
  is_side, affordable, order_cost, base_cost, add_on_cost, same_side, open_terms, Terms,
}
use cyp_agent.Paper.Check.{
  check_result, check_leverage, Gives, Gives-bind, Gives-check_result, Gives-check_that,
  Gives-of_passes,
}
use cyp_agent.Decimal.Places.{IsWithin, add-IsWithin, sub-IsWithin, mul-IsWithin, quo-IsWithin}
use cyp_agent.Models.{OrderIntent, Position}
use cyp_agent.Risk.{Platform}
use cyp_agent.Paper.{
  Paper, Report, is_spot_instrument, key_of, is_perp_instrument, leverage_decimal, entry_notional,
}
use cyp_agent.Paper.Keys.{find}
use cyp_agent.Decimal.Quotient.{quo}

-- The cash that is asked for is there, and is a decimal of few places.
abbrev pub IsPaid : ℕ → Paper → Terms → Type 0
IsPaid n v terms = (affordable v.free_quote terms.required ≡ true) × IsWithin (n + n) terms.required

module _ (platform : Platform) (describe : DecimalError → Text) (n : ℕ) (few : 28 ≤ n)
    (many : n + n < 2 ^ 31) (intent : OrderIntent) (sized : IsWithin n intent.size_quote) where
  quotient : (d e : Decimal) → (q : Decimal) → quo d e ≡ ok q → IsWithin n q
  quotient d e q h = let w = quo-IsWithin d e h in ground arith

  base_cost-IsWithin : (leverage : Decimal) → Gives (IsWithin n) (base_cost intent leverage)
  base_cost-IsWithin leverage =
      if_both (Gives (IsWithin n)) (is_perp_instrument intent.instrument) _ _
        (Gives-check_result (IsWithin n) (quo intent.size_quote leverage)
          (quotient intent.size_quote leverage))
        sized

  add_on_cost-IsWithin :
      (notional existing leverage : Decimal)
      → Gives (IsWithin n) (add_on_cost notional existing intent leverage)
  unfolding add_on_cost
  add_on_cost-IsWithin notional existing leverage =
      let old = quo notional existing in
      let new = quo (add notional intent.size_quote) leverage in
      Gives-bind (IsWithin n) (check_result old) _ (λ margin e.
        Gives-bind (IsWithin n) (check_result new) _ (λ total f.
          sub-IsWithin n total margin (omega arith)
            (Gives-of_passes (IsWithin n) (check_result new) total
              (Gives-check_result (IsWithin n) new
                (quotient (add notional intent.size_quote) leverage))
              f)
            (Gives-of_passes (IsWithin n) (check_result old) margin
              (Gives-check_result (IsWithin n) old (quotient notional existing)) e)))

  pub order_cost-IsWithin :
      (leverage : Decimal) (existing : Option Position)
      → Gives (IsWithin n) (order_cost platform describe intent leverage existing)
  unfolding order_cost
  order_cost-IsWithin leverage none = base_cost-IsWithin leverage
  order_cost-IsWithin leverage (some position) =
      let base = base_cost intent leverage in
      Gives-bind (IsWithin n) base _ (λ cost e.
        Gives-check_that (IsWithin n) (same_side position.side intent.side) _ _ (λ same.
          if_both (Gives (IsWithin n)) (is_perp_instrument intent.instrument) _ _
            (Gives-bind (IsWithin n)
              (check_leverage describe (leverage_decimal platform position.leverage)) _
              (λ existing f. add_on_cost-IsWithin (entry_notional position) existing leverage))
            (Gives-of_passes (IsWithin n) base cost (base_cost-IsWithin leverage) e)))

  pub open_terms-IsPaid :
      (v : Paper) (report : Report)
      → IsWithin n v.fee_rate
      → Gives (IsPaid n v) (open_terms platform describe v intent report)
  unfolding open_terms
  open_terms-IsPaid v report rate =
      let P = IsPaid n v in
      let existing = find (key_of intent) v.positions in
      Gives-check_that P (is_side intent.side) _ _ (λ a.
        Gives-check_that P
          (is_spot_instrument intent.instrument || is_perp_instrument intent.instrument) _ _
          (λ b.
            Gives-check_that P (not (is_zero intent.size_quote || is_negative intent.size_quote)) _
              _
              (λ c.
                Gives-bind P (check_leverage describe (leverage_decimal platform intent.leverage)) _
                  (λ leverage d.
                    Gives-bind P (order_cost platform describe intent leverage existing) _
                      (λ cost e.
                        let fee = mul intent.size_quote v.fee_rate in
                        let order = order_cost platform describe intent leverage existing in
                        let w =
                          Gives-of_passes (IsWithin n) order cost
                            (order_cost-IsWithin leverage existing) e in
                        let wide : IsWithin (n + n) cost = record {
                          nonneg = w.nonneg;
                          at_most = let m = w.at_most in omega arith;
                        } in
                        Gives-check_that P (affordable v.free_quote (add cost fee)) _ _ (λ paid.
                          Gives-bind P (check_result (quo intent.size_quote report.est_price)) _
                            (λ size f. (
                              paid,
                              add-IsWithin (n + n) cost fee many wide
                                  (mul-IsWithin n n intent.size_quote v.fee_rate many sized rate),
                            ))))))))
