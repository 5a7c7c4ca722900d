-- ===== src/Paper/Closing.antt =====
-- internal/venue/paper.go: a close at the mark price changes the equity by the fee alone.
use mathlib.Core.Path.{subst}
use cyp_agent.Base.{
  Text, ℕ, ◌+◌, ◌^◌, ◌≤◌, ◌<◌, ◌≡◌, refl, sym, ap, ◌∙◌, false, some, [], ◌∷◌, arith, lookup,
}
use cyp_agent.Int.{ℤ, ◌+ℤ◌, ◌-ℤ◌, int_laws}
use cyp_agent.Decimal.{Decimal, add, sub, mul}
use cyp_agent.Decimal.Exact.{units, units-sub}
use cyp_agent.Decimal.Places.{IsWithin, IsWithin-IsScaled, add-IsWithin, sub-IsWithin, mul-IsWithin}
use cyp_agent.Models.{Position}
use cyp_agent.Risk.{Platform}
use cyp_agent.Paper.Keys.{Key, find, remove}
use cyp_agent.Paper.{
  Paper, profit_at, proceeds_at, locked, settle, close_position, close_at_price, next_id,
  proceeds_at, close_fee,
}
use cyp_agent.Paper.Worth.{mark_of, IsFine, locked-IsWithin, profit_at-IsWithin}
use cyp_agent.Paper.Account.{Balance, balance, no_balance, total_worth, mark_or_entry}
use cyp_agent.Paper.Equity.{
  IsDistinct, AllFine, IsCounted, worth, sum_worth, sum_worth-remove, total_worth-IsCounted,
  total_worth_lem, All-remove, All-find, units_sum,
}
use cyp_agent.Paper.Account.{Balances, balances, report_balances}

units_difference :
    (m : ℕ) (d e : Decimal)
    → m < 2 ^ 31
    → IsWithin m d
    → IsWithin m e
    → units m (sub d e) ≡ units m d -ℤ units m e
units_difference m d e b v w =
    units-sub m d e (IsWithin-IsScaled m d b v) (IsWithin-IsScaled m e b w) v.at_most w.at_most

-- free + sum, before and after: (free + worth - fee) + rest + fee = free + (worth + rest).
account_ℤ :
    (free worth rest fee : ℤ) → free +ℤ worth -ℤ fee +ℤ rest +ℤ fee ≡ free +ℤ (worth +ℤ rest)
account_ℤ free worth rest fee = omega int_laws

balance_eq : {A : Type 0} {a b : A} → balance a ≡ balance b → a ≡ b
balance_eq h = cc

report_balances-total :
    (v : Paper) (sum : Balance Decimal) (b : Balances)
    → report_balances v sum ≡ balance b
    → sum ≡ balance b.total
report_balances-total v (balance equity) b h = ap (λ (r : Balances). balance r.total) (balance_eq h)
report_balances-total v (no_balance e) b h = cc

-- The venue does not report a balance for nothing.
balances-total :
    (platform : Platform) (v : Paper) (b : Balances)
    → balances platform v false ≡ balance b
    → total_worth platform v.marks v.positions (balance v.free_quote) ≡ balance b.total
unfolding balances
balances-total platform v b h =
    report_balances-total v (total_worth platform v.marks v.positions (balance v.free_quote)) b h

settled-balances :
    (platform : Platform) (v : Paper) (key : Key) (position : Position) (price : Decimal)
    (client_id order_id : Text) (total : Decimal)
    → total_worth platform v.marks
        (remove key v.positions)
        (balance (settle platform v key position price).free_quote)
      ≡ balance total
    → balances platform (close_position platform v key position price client_id order_id).0 false
      ≡ balance (record {
        currency = v.quote_ccy;
        free = (settle platform v key position price).free_quote;
        total = total;
      })
unfolding balances close_position settle next_id
settled-balances platform v key position price client_id [] total h =
    ap (report_balances (settle platform v key position price)) h
settled-balances platform v key position price client_id (c ∷ s) total h =
    ap (report_balances (settle platform v key position price)) h

-- A close at the mark, in units of 10^-3n.
module _ (n : ℕ) (few : 28 ≤ n) (many : n + n + n < 2 ^ 31) (platform : Platform) (v : Paper)
    (key : Key) (position : Position) (price : Decimal) (distinct : IsDistinct v.positions)
    (fine : AllFine n v.marks v.positions) (free : IsWithin (n + n + n) v.free_quote)
    (rate : IsWithin n v.fee_rate) (found : find key v.positions ≡ some position)
    (marked : lookup position.symbol v.marks ≡ some price) where
  held : IsFine n v.marks position
  held = All-find (λ entry. IsFine n v.marks entry.1) key position v.positions fine found

  price_eq : mark_of v.marks position ≡ price
  price_eq = ap (mark_or_entry position) marked

  fee-IsWithin : IsWithin (n + n + n) (close_fee v position price)
  fee-IsWithin =
      mul-IsWithin (n + n) n (mul position.size_base price) v.fee_rate many
        (mul-IsWithin n n position.size_base price (omega arith) held.size
          (subst (IsWithin n) price_eq held.mark))
        rate

  proceeds_lem :
      IsWithin (n + n + n) (proceeds_at platform position price)
      × (units (n + n + n) (proceeds_at platform position price)
          ≡ worth n few many platform v.marks position)
  unfolding proceeds_at
  proceeds_lem =
      let m = n + n + n in
      let l = locked platform position in
      let p = profit_at position price in
      let wl = locked-IsWithin n few many platform position held.size held.entry in
      let wp =
        profit_at-IsWithin n few many platform position price held.size held.entry
          (subst (IsWithin n) price_eq held.mark) in
      (add-IsWithin m l p many wl wp, rw price_eq (units_sum m l p many wl wp))

  free_lem :
      IsWithin (n + n + n) (settle platform v key position price).free_quote
      × (units (n + n + n) (settle platform v key position price).free_quote
          ≡ units (n + n + n) v.free_quote
            +ℤ worth n few many platform v.marks position
            -ℤ units (n + n + n) (close_fee v position price))
  unfolding settle
  free_lem =
      let m = n + n + n in
      let p = proceeds_at platform position price in
      let f = close_fee v position price in
      let (wp, ep) = proceeds_lem in
      let paid = add-IsWithin m v.free_quote p many free wp in
      (
        sub-IsWithin m (add v.free_quote p) f many paid fee-IsWithin,
        rw
            (
              units_difference m (add v.free_quote p) f many paid fee-IsWithin,
              units_sum m v.free_quote p many free wp,
              ep,
            )
            refl,
      )

  close_position-balances :
      (client_id order_id : Text) (before : Balances)
      → balances platform v false ≡ balance before
      → (after : Balances) × (balances platform
            (close_position platform v key position price client_id order_id).0
            false
          ≡ balance after)
        × (units (n + n + n) after.total +ℤ units (n + n + n) (close_fee v position price)
            ≡ units (n + n + n) before.total)
  close_position-balances client_id order_id before h =
      let m = n + n + n in
      let rest = remove key v.positions in
      let total = balances-total platform v before h in
      let counted =
        total_worth-IsCounted n few many platform v.marks v.positions v.free_quote before.total
          total in
      let (old, e, u) =
        total_worth_lem n few many platform v.marks v.positions v.free_quote fine counted free in
      let free' = (settle platform v key position price).free_quote in
      let (w, ef) = free_lem in
      let (new, e', u') =
        total_worth_lem n few many platform v.marks rest free'
          (All-remove (λ entry. IsFine n v.marks entry.1) key v.positions fine)
          (All-remove (IsCounted n few many platform v.marks) key v.positions counted) w in
      let same : old ≡ before.total = balance_eq (sym e ∙ total) in
      let fee = units m (close_fee v position price) in
      let value = worth n few many platform v.marks position in
      let left = sum_worth n few many platform v.marks rest in
      (
        record { currency = v.quote_ccy; free = free'; total = new },
        settled-balances platform v key position price client_id order_id new e',
        ap (λ (z : ℤ). z +ℤ fee) (u' ∙ ap (λ (z : ℤ). z +ℤ left) ef)
            ∙ account_ℤ (units m v.free_quote) value left fee
            ∙ ap (λ (z : ℤ). units m v.free_quote +ℤ z)
                (sym (
                  sum_worth-remove n few many platform v.marks v.positions key position distinct
                    found))
            ∙ sym u
            ∙ ap (units m) same,
      )

-- When a position is closed at the mark price of its symbol, as by a protective order, `Balances`
-- still reports, and the total that it reports is the one before less the fee of the close: the
-- venue neither creates nor loses value. Amounts are counted in units of 10^-3n, where n, between
-- 28 and (2^31 - 1) / 3, bounds the places of the sizes, the prices and the fee rate.
pub close_at_price-balances :
    (n : ℕ) (platform : Platform) (v : Paper) (key : Key) (position : Position) (price : Decimal)
    (client_id order_id : Text) (before : Balances)
    → 28 ≤ n
    → n + n + n < 2 ^ 31
    → IsDistinct v.positions
    → AllFine n v.marks v.positions
    → IsWithin (n + n + n) v.free_quote
    → IsWithin n v.fee_rate
    → find key v.positions ≡ some position
    → lookup position.symbol v.marks ≡ some price
    → balances platform v false ≡ balance before
    → let (w, result) = close_at_price platform v key price client_id order_id in
      (after : Balances) × (balances platform w false ≡ balance after)
      × (units (n + n + n) after.total +ℤ units (n + n + n) result.fee_quote
          ≡ units (n + n + n) before.total)
unfolding close_at_price close_position
close_at_price-balances n platform v key position price client_id order_id before few many distinct
      fine free rate found marked h =
    rw found (
      close_position-balances n few many platform v key position price distinct fine free rate found
        marked client_id order_id before h)
