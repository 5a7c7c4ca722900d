-- ===== src/Tracker/Ledger.antt =====
-- internal/riskstate/tracker.go: the realized profit and the trades that it adds up.
use cyp_agent.Base.{
  ℕ, zero, suc, ◌+◌, ◌-◌, ◌≡◌, refl, sym, ap, ap₂, arith, ◌∙◌, Bool, ◌||◌, not, List, [], ◌∷◌, ◌++◌,
  ltb, if◌then◌else◌, if_both, length, drop, take, text_eq, codes, Dict, lookup,
}
use cyp_agent.Decimal.{Decimal, zero_decimal, add}
use cyp_agent.Models.{Position}
use cyp_agent.Tracker.{TradeRecord, trim_to}
use cyp_agent.Tracker.Reconcile.{
  OpenState, still_open, known_open, reconcile_open, reconcile_close, close_missing, open_missing,
  repairs,
}

-- Whether a trade is a fill that was observed, and no repair of a marker.
abbrev pub is_observed : TradeRecord → Bool
is_observed trade = text_eq trade.kind (codes "open") || text_eq trade.kind (codes "close")

unfoldable pub observed : List TradeRecord → List TradeRecord
observed [] = []
observed (trade ∷ rest) =
    let more = observed rest in if is_observed trade then trade ∷ more else more

-- The profits of fills added to a sum one after another.
unfoldable pub booked : Decimal → List TradeRecord → Decimal
booked sum [] = sum
booked sum (fill ∷ rest) = booked (add sum fill.pnl_quote) rest

pub booked-append :
    (xs : List TradeRecord) (sum : Decimal) (ys : List TradeRecord)
    → booked sum (xs ++ ys) ≡ booked (booked sum xs) ys
unfolding booked
booked-append [] sum ys = refl
booked-append (x ∷ xs) sum ys = booked-append xs _ ys

-- The profit is the sum of the profits of the given fills, and the observed trades that are held are
-- the last ones of these fills.
pub record HasLedger (fills : List TradeRecord) (profit : Decimal) (trades : List TradeRecord)
    : Type 0 where
  pub sums : profit ≡ booked zero_decimal fills
  pub latest : (dropped : List TradeRecord) × (fills ≡ dropped ++ observed trades)

pub append_assoc : {A : Type 0} (xs ys zs : List A) → (xs ++ ys) ++ zs ≡ xs ++ (ys ++ zs)
append_assoc [] ys zs = refl
append_assoc (x ∷ xs) ys zs = ap (λ t. x ∷ t) (append_assoc xs ys zs)

take-drop : {A : Type 0} (n : ℕ) (xs : List A) → take n xs ++ drop n xs ≡ xs
take-drop zero xs = refl
take-drop (suc n) [] = refl
take-drop (suc n) (x ∷ xs) = ap (λ t. x ∷ t) (take-drop n xs)

pub observed-append : (xs ys : List TradeRecord) → observed (xs ++ ys) ≡ observed xs ++ observed ys
unfolding observed
observed-append [] ys = refl
observed-append (x ∷ xs) ys = ground (arith, observed-append xs ys)

pub trim_to-HasLedger :
    (fills : List TradeRecord) (profit : Decimal) (n : ℕ) (trades : List TradeRecord)
    → HasLedger fills profit trades
    → HasLedger fills profit (trim_to n trades)
unfolding trim_to
trim_to-HasLedger fills profit n trades v =
    if_both (HasLedger fills profit) (ltb n (length trades)) (drop k trades) trades
      (record {
        sums = v.sums;
        latest = (
          v.latest.0 ++ observed (take k trades),
          v.latest.1
              ∙ ap (λ t. v.latest.0 ++ t)
                  (ap observed (sym (take-drop k trades))
                    ∙ observed-append (take k trades) (drop k trades))
              ∙ sym (append_assoc v.latest.0 (observed (take k trades)) (observed (drop k trades))),
        );
      })
      v
  where
    k : ℕ
    k = length trades - n

pub append-HasLedger :
    (fills : List TradeRecord) (profit : Decimal) (trades more : List TradeRecord)
    → HasLedger fills profit trades
    → HasLedger (fills ++ observed more) (booked profit (observed more)) (trades ++ more)
append-HasLedger fills profit trades more v = record {
  sums =
      ap (λ p. booked p (observed more)) v.sums
      ∙ sym (booked-append fills zero_decimal (observed more));
  latest = (
    v.latest.0,
    ap (λ t. t ++ observed more) v.latest.1
        ∙ append_assoc v.latest.0 (observed trades) (observed more)
        ∙ ap (λ t. v.latest.0 ++ t) (sym (observed-append trades more)),
  );
}

close_missing-observed :
    (active : Dict Position) (now sequence : ℕ) (states : Dict OpenState)
    → observed (close_missing active now sequence states).0 ≡ []
unfolding observed close_missing reconcile_close
close_missing-observed active now sequence [] = refl
close_missing-observed active now sequence ((key, state) ∷ rest) =
    let skip = not state.is_open || still_open state (lookup key active) in
    let next = if skip then sequence else sequence + 1 in
    let more = (close_missing active now next rest).0 in
    let same = close_missing-observed active now next rest in
    if_both (λ t. observed t ≡ []) skip more (reconcile_close now (sequence + 1) state.trade ∷ more)
      same same

open_missing-observed :
    (states : Dict OpenState) (now sequence : ℕ) (active : Dict Position)
    → observed (open_missing states now sequence active) ≡ []
unfolding observed open_missing reconcile_open
open_missing-observed states now sequence [] = refl
open_missing-observed states now sequence ((key, position) ∷ rest) =
    let skip = known_open position (lookup key states) in
    let next = if skip then sequence else sequence + 1 in
    let more = open_missing states now next rest in
    let same = open_missing-observed states now next rest in
    if_both (λ t. observed t ≡ []) skip more (reconcile_open now (sequence + 1) position ∷ more)
      same same

pub repairs-observed :
    (upper : ℕ → ℕ) (walk_states : Dict OpenState → Dict OpenState)
    (walk_active : Dict Position → Dict Position) (positions : List Position) (now : ℕ)
    (trades : List TradeRecord)
    → observed (repairs upper walk_states walk_active positions now trades) ≡ []
unfolding repairs
repairs-observed upper walk_states walk_active positions now trades =
    observed-append (close_missing _ now 0 _).0 _
    ∙ ap₂ (λ x y. x ++ y) (close_missing-observed _ _ _ _) (open_missing-observed _ _ _ _)
