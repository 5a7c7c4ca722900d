-- ===== src/Tracker/Invariant.antt =====
-- internal/riskstate/tracker.go: what holds of a tracker after every call.
use cyp_agent.Base.{
  ℕ, ◌-◌, ◌≤◌, ◌≡◌, refl, Bool, true, false, List, [], ◌∷◌, ◌++◌, if◌then◌else◌, if_both, length,
  Text, All, arith, length-drop,
}
use cyp_agent.Decimal.{Decimal, gt_zero, cmp}
use cyp_agent.Decimal.Exact.{IsScaled}
use cyp_agent.Decimal.Order.{IsAtMost, IsAtMost-refl}
use cyp_agent.Models.{TradeProposal, ExecutionResult, Position}
use cyp_agent.Tracker.{
  TradeRecord, PersistedState, Repository, ends_at, trim_to, trim_locked, observe_locked,
  record_order_locked, observe_fill, opened, closed_by, close_record, max_equity_points, max_trades,
}
use cyp_agent.Tracker.Reconcile.{repairs, repaired}
use cyp_agent.Tracker.Restore.{new_state}
use cyp_agent.Tracker.Calls.{Call, Reports, Setting, run_calls}
use cyp_agent.Tracker.Kept.{Change, observing, opening, closing, repairing, run_calls-state}

pub record IsValid (state : PersistedState) : Type 0 where
  pub few_points : length state.equity_points ≤ max_equity_points
  pub few_trades : length state.trades ≤ max_trades
  pub scaled : IsScaled state.current_equity × IsScaled state.peak_equity
  pub below_peak : IsAtMost state.current_equity state.peak_equity

length-trim_to : {A : Type 0} (n : ℕ) (xs : List A) → length (trim_to n xs) ≤ n
unfolding trim_to
length-trim_to n xs = ground (arith, length-drop (length xs - n) xs)

-- A new state of an account.
pub new_state-IsValid :
    (initial : Decimal) (now : ℕ) → IsScaled initial → IsValid (new_state initial now)
unfolding new_state
new_state-IsValid initial now v = record {
  few_points = omega arith;
  few_trades = omega arith;
  scaled = (v, v);
  below_peak = IsAtMost-refl initial v;
}

-- The equity of a call makes every state valid whose peak is scaled.
observe_locked-IsValid :
    (equity : Decimal) (now : ℕ) (state : PersistedState)
    → IsScaled equity
    → IsScaled state.peak_equity
    → IsValid (observe_locked equity now state)
unfolding observe_locked trim_locked
observe_locked-IsValid equity now state v w = record {
  few_points = length-trim_to max_equity_points (
      if ends_at equity state.equity_points
      then state.equity_points
      else state.equity_points ++ (record { ts = now; equity = equity } ∷ []));
  few_trades = length-trim_to max_trades state.trades;
  scaled = (v, if_both IsScaled above equity state.peak_equity v w);
  below_peak = peak above refl;
}
  where
    above : Bool
    above = gt_zero (cmp equity state.peak_equity)

    peak : (b : Bool) → above ≡ b → IsAtMost equity (if b then equity else state.peak_equity)
    peak true e = IsAtMost-refl equity v
    peak false e = e

trim_locked-IsValid : (state : PersistedState) → IsValid state → IsValid (trim_locked state)
unfolding trim_locked
trim_locked-IsValid state v = record {
  few_points = length-trim_to max_equity_points state.equity_points;
  few_trades = length-trim_to max_trades state.trades;
  scaled = v.scaled;
  below_peak = v.below_peak;
}

observe_fill-IsValid :
    (equity : Decimal) (now : ℕ) (state : PersistedState)
    → IsScaled equity
    → IsScaled state.peak_equity
    → IsValid (observe_fill equity now state)
unfolding record_order_locked
observe_fill-IsValid equity now state v w =
    trim_locked-IsValid (observe_locked equity now (record_order_locked now state))
      (observe_locked-IsValid equity now (record_order_locked now state) v w)

opened-IsValid :
    (run_id : Text) (proposal : TradeProposal) (execution : ExecutionResult) (equity : Decimal)
    (now : ℕ) (state : PersistedState)
    → IsScaled equity
    → IsValid state
    → IsValid (opened run_id proposal execution equity now state)
unfolding opened
opened-IsValid run_id proposal execution equity now state v w =
    observe_fill-IsValid equity now _ v w.scaled.1

closed_by-IsValid :
    (reference : Text) (position : Position) (execution : ExecutionResult) (price equity : Decimal)
    (now : ℕ) (state : PersistedState)
    → IsScaled equity
    → IsValid state
    → IsValid (closed_by (close_record reference position execution price now) equity now state)
unfolding closed_by
closed_by-IsValid reference position execution price equity now state v w =
    observe_fill-IsValid equity now _ v w.scaled.1

repaired-IsValid :
    (setting : Setting) (positions : List Position) (now : ℕ) (state : PersistedState)
    → IsValid state
    → IsValid (
        repaired
          (repairs setting.upper setting.walk_states setting.walk_active positions now state.trades)
          state)
unfolding trim_locked
repaired-IsValid setting positions now state v = record {
  few_points = length-trim_to max_equity_points state.equity_points;
  few_trades = length-trim_to max_trades (state.trades ++ records);
  scaled = v.scaled;
  below_peak = v.below_peak;
}
  where
    records : List TradeRecord
    records =
        repairs setting.upper setting.walk_states setting.walk_active positions now state.trades

change-IsValid :
    (setting : Setting) (s t : PersistedState) → Change IsScaled setting s t → IsValid s → IsValid t
change-IsValid setting s t (observing equity now above q) v =
    observe_locked-IsValid equity now s q v.scaled.1
change-IsValid setting s t (opening run_id proposal execution equity now q) v =
    opened-IsValid run_id proposal execution equity now s q v
change-IsValid setting s t (closing reference position execution price equity now q) v =
    closed_by-IsValid reference position execution price equity now s q v
change-IsValid setting s t (repairing positions now) v = repaired-IsValid setting positions now s v

module _ (store : Repository) where
  open store use {Disk}

  pub run_calls-IsValid :
      (setting : Setting) (initial : Decimal) (now : ℕ) (calls : List Call) (disk : Disk)
      → IsScaled initial
      → All (Reports IsScaled) calls
      → IsValid (run_calls store setting calls (new_state initial now) disk).0
  run_calls-IsValid setting initial now calls disk v q =
      run_calls-state store setting IsScaled IsValid (change-IsValid setting) calls
        (new_state initial now) disk q (new_state-IsValid initial now v)
