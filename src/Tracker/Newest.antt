-- ===== src/Tracker/Newest.antt =====
-- internal/riskstate/tracker.go: the trade that a close added is found again.
use cyp_agent.Base.{
  ℕ, zero, suc, ◌-◌, ◌≤◌, ◌<◌, ◌≡◌, refl, ap, ◌∙◌, inl, inr, Bool, true, false, ◌≢◌, ◌||◌, some,
  List, [], ◌∷◌, ◌++◌, ltb, if_both, length, drop, Text, codes, Bool-cases, arith, length-append,
}
use cyp_agent.Decimal.{Decimal}
use cyp_agent.Models.{ExecutionResult, filled}
use cyp_agent.Orders.{status_eq}
use cyp_agent.Tracker.{
  TradeRecord, PersistedState, is_trade, trim_to, trim_locked, observe_locked, record_order_locked,
  closed_by, max_trades, has_trade_locked, first_trade,
}
use cyp_agent.Tracker.Record.{recorded, nothing}

-- The last trade is the only one of its client id and kind.
pub IsNewest : Text → Text → TradeRecord → List TradeRecord → Type 0
IsNewest id kind trade trades =
    (older : List TradeRecord) × ((trades ≡ older ++ (trade ∷ []))
      × (has_trade_locked id kind older ≡ false))

has-drop :
    (id kind : Text) (n : ℕ) (xs : List TradeRecord)
    → has_trade_locked id kind xs ≡ false
    → has_trade_locked id kind (drop n xs) ≡ false
unfolding has_trade_locked
has-drop id kind zero xs h = h
has-drop id kind (suc n) [] h = h
has-drop id kind (suc n) (x ∷ xs) h = has-drop id kind n xs (ground arith)

drop-snoc :
    {A : Type 0} (n : ℕ) (xs : List A) (x : A)
    → n ≤ length xs
    → drop n (xs ++ (x ∷ [])) ≡ drop n xs ++ (x ∷ [])
drop-snoc zero xs x h = refl
drop-snoc (suc n) [] x h = absurd (omega (arith, h))
drop-snoc (suc n) (y ∷ xs) x h = drop-snoc n xs x (omega (arith, h))

trim_to-IsNewest :
    (id kind : Text) (trade : TradeRecord) (n : ℕ) (xs : List TradeRecord)
    → 0 < n
    → IsNewest id kind trade xs
    → IsNewest id kind trade (trim_to n xs)
unfolding trim_to IsNewest
trim_to-IsNewest id kind trade n xs pos (older, (e, h)) =
    if_both (IsNewest id kind trade) (ltb n (length xs)) (drop k xs) xs
      (drop k older, (ap (drop k) e ∙ drop-snoc k older trade few, has-drop id kind k older h))
      (older, (e, h))
  where
    k : ℕ
    k = length xs - n

    few : k ≤ length older
    few = omega (arith, pos, ap length e, length-append older (trade ∷ []))

or_false : (a b : Bool) → (a || b) ≡ false → (a ≡ false) × (b ≡ false)
or_false a b h = (ground arith, ground arith)

-- Such a trade is found.
newest_found :
    (id kind : Text) (trade : TradeRecord) (older : List TradeRecord)
    → is_trade id kind trade ≡ true
    → has_trade_locked id kind older ≡ false
    → (has_trade_locked id kind (older ++ (trade ∷ [])) ≡ true)
      × (first_trade id kind (older ++ (trade ∷ [])) ≡ some trade)
unfolding has_trade_locked first_trade
newest_found id kind trade [] m h = (ground (arith, m), ground (arith, m))
newest_found id kind trade (x ∷ older) m h =
    let (other, rest) = or_false (is_trade id kind x) (has_trade_locked id kind older) h in
    let found = newest_found id kind trade older m rest in (rw other found.0, rw other found.1)

pub closed_by-IsNewest :
    (trade : TradeRecord) (equity : Decimal) (now : ℕ) (state : PersistedState)
    → has_trade_locked trade.client_id trade.kind state.trades ≡ false
    → IsNewest trade.client_id trade.kind trade (closed_by trade equity now state).trades
unfolding closed_by trim_locked observe_locked record_order_locked IsNewest
closed_by-IsNewest trade equity now state h =
    let once =
      trim_to-IsNewest trade.client_id trade.kind trade max_trades (state.trades ++ (trade ∷ []))
        (omega arith) (state.trades, (refl, h)) in
    trim_to-IsNewest trade.client_id trade.kind trade max_trades _ (omega arith) once

pub recorded_eq : (t u : TradeRecord) (a b : Bool) → recorded t a ≡ recorded u b → (t ≡ u) × (a ≡ b)
recorded_eq t u a b h = (cc, cc)

pub nothing_apart : (t : TradeRecord) (a : Bool) → nothing ≢ recorded t a
nothing_apart t a h = cc

-- What is there at all is there first.
pub first-has :
    (id kind : Text) (xs : List TradeRecord)
    → has_trade_locked id kind xs ≡ true
    → (t : TradeRecord) × (first_trade id kind xs ≡ some t)
unfolding has_trade_locked first_trade
first-has id kind [] h = cc
first-has id kind (x ∷ xs) h = elim (Bool-cases (is_trade id kind x)) [
  | inl here ↦ (x, rw here refl)
  | inr there ↦ let (t, first) = first-has id kind xs (rw there at h) in (t, rw there first)
]

abbrev pub shut : Text
shut = codes "close"

-- What `RecordClose` read and what it left behind when it returned a trade without an error.
pub record WasRecorded (execution : ExecutionResult) (trades : List TradeRecord)
    (trade : TradeRecord) : Type 0 where
  pub is_filled : status_eq execution.status filled ≡ true
  pub price : Decimal
  pub priced : execution.avg_price ≡ some price
  pub has : has_trade_locked execution.client_id shut trades ≡ true
  pub first : first_trade execution.client_id shut trades ≡ some trade

pub newest-WasRecorded :
    (execution : ExecutionResult) (price : Decimal) (trade : TradeRecord)
    (trades : List TradeRecord)
    → status_eq execution.status filled ≡ true
    → execution.avg_price ≡ some price
    → is_trade execution.client_id shut trade ≡ true
    → IsNewest execution.client_id shut trade trades
    → WasRecorded execution trades trade
unfolding IsNewest
newest-WasRecorded execution price trade trades s p is (older, (e, h)) =
    let found = newest_found execution.client_id shut trade older is h in
    record { is_filled = s; price = price; priced = p; has = rw e found.0; first = rw e found.1 }
