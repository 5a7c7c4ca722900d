-- ===== src/Paper/Calls/Once.antt =====
-- Every client id gets one result, whatever calls follow.
use mathlib.Core.Path.{subst}
use cyp_agent.Base.{
  ◌≢◌, ◌≡◌, refl, sym, ap, Bool, true, false, not, ◌||◌, Option, none, some, List, [], ◌∷◌, arith,
  Text, Dict, lookup, insert, lookup-insert, lookup-insert_self, Option-cases, inl, inr,
  text_eq_iff, if◌then◌else◌, if_both,
}
use cyp_agent.Decimal.{is_positive, Decimal, DecimalError}
use cyp_agent.Models.{OrderIntent, ProtectiveOrder, ExecutionResult, Position}
use cyp_agent.Risk.{Platform}
use cyp_agent.Paper.Keys.{Key, find}
use cyp_agent.Paper.{Paper, close_at_price, normalize_intent, resolve_side}
use cyp_agent.Paper.Place.{
  PlaceError, client_id_required, place_once, Placed, placed, place_failed, place, place_new,
  orders_at, is_blank,
}
use cyp_agent.Paper.Trigger.{
  fire, fire_first, first_hit, trigger_id, trigger_found, trigger_key, trigger_keys, keys_of,
  sort_keys, trigger_protective, set_mark_price,
}
use cyp_agent.Paper.Account.{cancel_protective_orders}
use cyp_agent.Paper.Calls.Fills.{Records, place_new-Records, close_at_price-fills}
use cyp_agent.Paper.Calls.{Call, place_call, mark_call, cancel_call, or_same, step, run}

-- A recorded fill stays.
pub record Keeps (v w : Dict ExecutionResult) : Type 0 where
  pub kept :
      (id : Text) (result : ExecutionResult) → lookup id v ≡ some result → lookup id w ≡ some result

Keeps-refl : (fills : Dict ExecutionResult) → Keeps fills fills
Keeps-refl fills = record { kept = λ id result h. h }

Keeps-trans : (u v w : Dict ExecutionResult) → Keeps u v → Keeps v w → Keeps u w
Keeps-trans u v w h k = record { kept = λ id result e. k.kept id result (h.kept id result e) }

Keeps-insert :
    (id : Text) (result : ExecutionResult) (fills : Dict ExecutionResult)
    → lookup id fills ≡ none
    → Keeps fills (insert id result fills)
Keeps-insert id result fills new = record {
  kept = λ other r e. rw lookup-insert (ground (arith, text_eq_iff id other));
}

Records-Keeps :
    (fills : Dict ExecutionResult) (id : Text) (r : Paper × Placed)
    → lookup id fills ≡ none
    → Records fills id r
    → Keeps fills r.0.fills
Records-Keeps fills id (w, placed result) new h =
    subst (Keeps fills) (sym h) (Keeps-insert id result fills new)
Records-Keeps fills id (w, place_failed e) new h = subst (Keeps fills) (sym h) (Keeps-refl fills)

resolved_client :
    (v : Paper) (intent : OrderIntent)
    → (resolve_side v (normalize_intent intent)).client_id ≡ intent.client_id
unfolding resolve_side normalize_intent
resolved_client v intent = ground arith

module _ (platform : Platform) (mark : Decimal) where
  fire-Keeps :
      (v : Paper) (key : Key) (order : ProtectiveOrder)
      → Keeps v.fills (fire platform v mark key order).fills
  unfolding fire
  fire-Keeps v key order =
      let closed = close_at_price platform v key mark (trigger_id order) order.order_id in
      elim (Option-cases (lookup (trigger_id order) v.fills)) [
        | inr (result, e) ↦ rw e (Keeps-refl v.fills)
        | inl e ↦
            rw (e, close_at_price-fills platform v key mark (trigger_id order) order.order_id)
              (Keeps-insert (trigger_id order) closed.1 v.fills e)
      ]

  fire_first-Keeps :
      (v : Paper) (key : Key) (hit : Option ProtectiveOrder)
      → Keeps v.fills (fire_first platform v mark key hit).fills
  unfolding fire_first
  fire_first-Keeps v key none = Keeps-refl v.fills
  fire_first-Keeps v key (some order) = fire-Keeps v key order

  trigger_found-Keeps :
      (v : Paper) (key : Key) (found : Option Position)
      → Keeps v.fills (trigger_found platform mark key v found).fills
  trigger_found-Keeps v key none = Keeps-refl v.fills
  trigger_found-Keeps v key (some position) =
      fire_first-Keeps v key (first_hit position mark (orders_at (find key v.protective)))

  trigger_keys-Keeps :
      (keys : List Key) (v : Paper) → Keeps v.fills (trigger_keys platform mark keys v).fills
  unfolding trigger_keys trigger_key
  trigger_keys-Keeps [] v = Keeps-refl v.fills
  trigger_keys-Keeps (key ∷ keys) v =
      let w = trigger_key platform mark key v in
      Keeps-trans v.fills w.fills (trigger_keys platform mark keys w).fills
        (trigger_found-Keeps v key (find key v.positions)) (trigger_keys-Keeps keys w)

-- The answer of `Place` is the recorded one.
abbrev Answers : Text → Paper × Placed → Type 0
Answers id (w, placed result) = lookup id w.fills ≡ some result
Answers id (w, place_failed e) = Unit

failed_apart : {e : PlaceError} {result : ExecutionResult} → place_failed e ≢ placed result
failed_apart h = cc

module _ (platform : Platform) (describe : DecimalError → Text) where
  place_once-Keeps :
      (v : Paper) (intent : OrderIntent) (found : Option ExecutionResult)
      → lookup intent.client_id v.fills ≡ found
      → Keeps v.fills (place_once platform describe v intent found).0.fills
  place_once-Keeps v intent (some result) e = Keeps-refl v.fills
  place_once-Keeps v intent none e =
      let i = resolve_side v (normalize_intent intent) in
      let same = resolved_client v intent in
      let new : lookup i.client_id v.fills ≡ none = rw same e in
      Records-Keeps v.fills i.client_id (place_new platform describe v i) new
        (place_new-Records platform describe v i)

  set_mark_price-Keeps :
      (v : Paper) (symbol : Text) (price : Decimal)
      → Keeps v.fills (or_same v (set_mark_price platform v symbol price)).fills
  unfolding set_mark_price trigger_protective
  set_mark_price-Keeps v symbol price =
      let w = record v { marks = insert symbol price v.marks } in
      if_both (λ o. Keeps v.fills (or_same v o).fills) (is_blank symbol || not (is_positive price))
        _ _ (Keeps-refl v.fills)
        (trigger_keys-Keeps platform price (sort_keys (keys_of symbol v.positions)) w)

  step-Keeps : (v : Paper) (call : Call) → Keeps v.fills (step platform describe v call).fills
  unfolding step place cancel_protective_orders
  step-Keeps v (place_call done intent) =
      let P = λ (r : Paper × Placed). Keeps v.fills r.0.fills in
      let same = Keeps-refl v.fills in
      if_both P done _ _ same (
        if_both P (is_blank intent.client_id) _ _ same
          (place_once-Keeps v intent (lookup intent.client_id v.fills) refl))
  step-Keeps v (mark_call symbol price) = set_mark_price-Keeps v symbol price
  step-Keeps v (cancel_call done symbol) =
      if_both (λ (w : Paper). Keeps v.fills w.fills) done _ _ (Keeps-refl v.fills)
        (Keeps-refl v.fills)

  pub run-Keeps :
      (calls : List Call) (v : Paper) → Keeps v.fills (run platform describe calls v).fills
  unfolding run
  run-Keeps [] v = Keeps-refl v.fills
  run-Keeps (call ∷ calls) v =
      let w = step platform describe v call in
      Keeps-trans v.fills w.fills (run platform describe calls w).fills (step-Keeps v call)
        (run-Keeps calls w)

  Records-Answers :
      (fills : Dict ExecutionResult) (id : Text) (r : Paper × Placed)
      → Records fills id r
      → Answers id r
  Records-Answers fills id (w, placed result) h = rw h (lookup-insert_self id result fills)
  Records-Answers fills id (w, place_failed error) h = tt

  place_once-Answers :
      (v : Paper) (intent : OrderIntent) (found : Option ExecutionResult)
      → lookup intent.client_id v.fills ≡ found
      → Answers intent.client_id (place_once platform describe v intent found)
  place_once-Answers v intent (some result) e = e
  place_once-Answers v intent none e =
      let i = resolve_side v (normalize_intent intent) in
      subst (λ id. Answers id (place_new platform describe v i)) (resolved_client v intent)
        (Records-Answers v.fills i.client_id (place_new platform describe v i)
          (place_new-Records platform describe v i))

  place-Answers :
      (v w : Paper) (id : Text) (blank : Bool) (r : Paper × Placed) (result : ExecutionResult)
      → Answers id r
      → (if blank then (v, place_failed client_id_required) else r) ≡ (w, placed result)
      → (blank ≡ false) × (lookup id w.fills ≡ some result)
  place-Answers v w id true r result h e = absurd (failed_apart (ap (λ p. p.1) e))
  place-Answers v w id false r result h e = (refl, subst (Answers id) e h)

-- Once `Place` has answered an order, whatever calls of the venue follow (other orders, prices that
-- trigger protective orders, cancellations), a later order with the same client id gets the same
-- answer and changes nothing: no client id is ever executed twice.
pub place_answers_once :
    (platform : Platform) (describe : DecimalError → Text) (v w : Paper) (intent : OrderIntent)
    (result : ExecutionResult)
    → place platform describe v false intent ≡ (w, placed result)
    → (calls : List Call) (again : OrderIntent) → again.client_id ≡ intent.client_id
    → place platform describe (run platform describe calls w) false again
      ≡ (run platform describe calls w, placed result)
unfolding place
place_answers_once platform describe v w intent result h calls again e =
    let (named, recorded) =
      place-Answers platform describe v w intent.client_id (is_blank intent.client_id)
        (place_once platform describe v intent (lookup intent.client_id v.fills)) result
        (place_once-Answers platform describe v intent (lookup intent.client_id v.fills) refl) h in
    let u = run platform describe calls w in
    let kept : lookup intent.client_id u.fills ≡ some result =
      (run-Keeps platform describe calls w).kept intent.client_id result recorded in
    let blank : is_blank again.client_id ≡ false = rw e named in
    let found : lookup again.client_id u.fills ≡ some result = rw e kept in rw (blank, found) refl
