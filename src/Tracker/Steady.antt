-- ===== src/Tracker/Steady.antt =====
-- internal/riskstate/tracker.go: the states that a restart reads back unchanged.
use mathlib.Core.Path.{subst}
use cyp_agent.Base.{
  ℕ, ◌≡◌, refl, ap, Bool, true, false, ◌≢◌, ◌&&◌, Option, none, some, List, if◌then◌else◌, if_both,
  Text, none_apart, arith, &&-eq-true, ◌==◌, ==_iff,
}
use cyp_agent.Decimal.{Decimal, is_positive, cmp, gt_zero}
use cyp_agent.Tracker.{
  EquityPoint, TradeRecord, PersistedState, observe_fill, Checkpoint, no_checkpoint, unreadable,
  checkpoint, trim_locked, observe_locked, record_order_locked, opened, closed_by, day_key,
  week_key, is_key,
}
use cyp_agent.Tracker.Restore.{
  new_state, normalize_state, or_else, key_or, equity_not_positive, load_failed, decode_failed,
  tracker, restored,
}
use cyp_agent.Tracker.Calls.{Setting}
use cyp_agent.Tracker.Kept.{Change, observing, opening, closing, repairing}

abbrev pub IsPositive : Decimal → Type 0
IsPositive d = is_positive d ≡ true

-- A state that `normalizeState` leaves as it is.
pub record IsSteady (s : PersistedState) : Type 0 where
  pub version : s.version ≡ 1
  pub initial : IsPositive s.initial_equity
  pub current : IsPositive s.current_equity
  pub peak : IsPositive s.peak_equity
  pub day_start : IsPositive s.day_start_equity
  pub week_start : IsPositive s.week_start_equity
  pub day : (k : ℕ) × (s.day ≡ some k)
  pub week : (k : ℕ) × (s.week ≡ some k)

pub new_state-IsSteady :
    (initial : Decimal) (now : ℕ) → IsPositive initial → IsSteady (new_state initial now)
unfolding new_state
new_state-IsSteady initial now p = record {
  version = refl;
  initial = p;
  current = p;
  peak = p;
  day_start = p;
  week_start = p;
  day = (day_key now, refl);
  week = (week_key now, refl);
}

or_else-IsPositive : (d fallback : Decimal) → IsPositive fallback → IsPositive (or_else d fallback)
or_else-IsPositive d fallback p = chosen (is_positive d) refl
  where
    chosen : (b : Bool) → is_positive d ≡ b → IsPositive (if b then d else fallback)
    chosen true e = e
    chosen false e = p

key_or-some : (o : Option ℕ) (key : ℕ) → (k : ℕ) × (key_or o key ≡ some k)
key_or-some none key = (key, refl)
key_or-some (some k) key = (k, refl)

normalize_state-IsSteady :
    (s : PersistedState) (fallback : Decimal) (now : ℕ)
    → s.version ≡ 1
    → IsPositive s.initial_equity
    → IsPositive fallback
    → IsSteady (normalize_state s fallback now)
unfolding normalize_state
normalize_state-IsSteady s fallback now one p q =
    let current = or_else-IsPositive s.current_equity fallback q in
    record {
      version = one;
      initial = p;
      current = current;
      peak = or_else-IsPositive s.peak_equity _ current;
      day_start = or_else-IsPositive s.day_start_equity _ current;
      week_start = or_else-IsPositive s.week_start_equity _ current;
      day = key_or-some s.day (day_key now);
      week = key_or-some s.week (week_key now);
    }

or_else_self : (d fallback : Decimal) → IsPositive d → or_else d fallback ≡ d
or_else_self d fallback p = rw p refl

key_or_self : (o : Option ℕ) (key k : ℕ) → o ≡ some k → key_or o key ≡ o
key_or_self none key k e = absurd (none_apart k e)
key_or_self (some j) key k e = refl

normalize_state_steady :
    (s : PersistedState) (fallback : Decimal) (now : ℕ)
    → IsSteady s
    → normalize_state s fallback now ≡ s
unfolding normalize_state
normalize_state_steady s fallback now v =
    rw
      (
        or_else_self s.current_equity fallback v.current,
        or_else_self s.peak_equity s.current_equity v.peak,
        or_else_self s.day_start_equity s.current_equity v.day_start,
        or_else_self s.week_start_equity s.current_equity v.week_start,
        key_or_self s.day (day_key now) v.day.0 v.day.1,
        key_or_self s.week (week_key now) v.week.0 v.week.1,
      )
      refl

-- The keys of the period of an observation are never empty.
key_kept :
    (same : Bool) (o : Option ℕ) (key k : ℕ)
    → o ≡ some k
    → (j : ℕ) × ((if same then o else some key) ≡ some j)
key_kept true o key k e = (k, e)
key_kept false o key k e = (key, refl)

observe_locked-IsSteady :
    (equity : Decimal) (now : ℕ) (s : PersistedState)
    → IsPositive equity
    → IsSteady s
    → IsSteady (observe_locked equity now s)
unfolding observe_locked trim_locked
observe_locked-IsSteady equity now s p v = record {
  version = v.version;
  initial = v.initial;
  current = p;
  peak = if_both IsPositive (gt_zero (cmp equity s.peak_equity)) equity s.peak_equity p v.peak;
  day_start =
      if_both IsPositive (is_key (day_key now) s.day) s.day_start_equity equity v.day_start p;
  week_start =
      if_both IsPositive (is_key (week_key now) s.week) s.week_start_equity equity v.week_start p;
  day = key_kept (is_key (day_key now) s.day) s.day (day_key now) v.day.0 v.day.1;
  week = key_kept (is_key (week_key now) s.week) s.week (week_key now) v.week.0 v.week.1;
}

-- Other fields may be anything.
others-IsSteady :
    (s : PersistedState) (profit : Decimal) (losses : ℕ) (orders : List ℕ)
    (points : List EquityPoint) (trades : List TradeRecord)
    → IsSteady s
    → IsSteady (record s {
      realized_pnl = profit;
      consecutive_losses = losses;
      orders = orders;
      equity_points = points;
      trades = trades;
    })
others-IsSteady s profit losses orders points trades v = record {
  version = v.version;
  initial = v.initial;
  current = v.current;
  peak = v.peak;
  day_start = v.day_start;
  week_start = v.week_start;
  day = v.day;
  week = v.week;
}

observe_fill-IsSteady :
    (equity : Decimal) (now : ℕ) (s : PersistedState)
    → IsPositive equity
    → IsSteady s
    → IsSteady (observe_fill equity now s)
unfolding record_order_locked trim_locked
observe_fill-IsSteady equity now s p v =
    others-IsSteady (observe_locked equity now (record_order_locked now s)) _ _ _ _ _ (
      observe_locked-IsSteady equity now (record_order_locked now s) p
        (others-IsSteady s _ _ _ _ _ v))

pub change-IsSteady :
    (setting : Setting) (s t : PersistedState)
    → Change IsPositive setting s t
    → IsSteady s
    → IsSteady t
unfolding opened closed_by trim_locked
change-IsSteady setting s t (observing equity now above q) v =
    observe_locked-IsSteady equity now s q v
change-IsSteady setting s t (opening run_id proposal execution equity now q) v =
    observe_fill-IsSteady equity now _ q (others-IsSteady s _ _ _ _ _ v)
change-IsSteady setting s t (closing reference position execution price equity now q) v =
    observe_fill-IsSteady equity now _ q (others-IsSteady s _ _ _ _ _ v)
change-IsSteady setting s t (repairing positions now) v = others-IsSteady s _ _ _ _ _ v

pub restored_steady :
    (step : Text) (initial : Decimal) (now : ℕ) (s : PersistedState)
    → IsSteady s
    → restored step initial now (checkpoint s) ≡ tracker step s
unfolding restored
restored_steady step initial now s v =
    rw read (ap (tracker step) (normalize_state_steady s initial now v))
  where
    read : (s.version == 1 && is_positive s.initial_equity) ≡ true
    read = ground (arith, v.version, v.initial)

pub tracker_eq : (a b : Text) (s t : PersistedState) → tracker a s ≡ tracker b t → (b ≡ a) × (s ≡ t)
tracker_eq a b s t h = (cc, cc)

pub not_positive_apart : (a : Text) (s : PersistedState) → equity_not_positive ≢ tracker a s
not_positive_apart a s h = cc

pub load_failed_apart : (a : Text) (s : PersistedState) → load_failed ≢ tracker a s
load_failed_apart a s h = cc

pub decode_failed_apart : (a : Text) (s : PersistedState) → decode_failed ≢ tracker a s
decode_failed_apart a s h = cc

pub restored-IsSteady :
    (name step : Text) (initial : Decimal) (now : ℕ) (found : Checkpoint) (s : PersistedState)
    → IsPositive initial
    → restored name initial now found ≡ tracker step s
    → (step ≡ name) × IsSteady s
unfolding restored
restored-IsSteady name step initial now no_checkpoint s p h =
    let same = tracker_eq name step (new_state initial now) s h in
    (same.0, subst IsSteady same.1 (new_state-IsSteady initial now p))
restored-IsSteady name step initial now unreadable s p h = absurd (decode_failed_apart step s h)
restored-IsSteady name step initial now (checkpoint t) s p h =
    let same = tracker_eq name step _ s h in
    (same.0, subst IsSteady same.1 (by_read (t.version == 1 && is_positive t.initial_equity) refl))
  where
    by_read :
        (b : Bool)
        → (t.version == 1 && is_positive t.initial_equity) ≡ b
        → IsSteady (if b then normalize_state t initial now else new_state initial now)
    by_read false e = new_state-IsSteady initial now p
    by_read true e =
        let read = &&-eq-true (t.version == 1) (is_positive t.initial_equity) e in
        normalize_state-IsSteady t initial now ((==_iff t.version 1).0 read.0) read.1 p
