-- ===== src/Paper/Flat.antt =====
-- internal/venue/paper.go: `Place` on an order whose side is flat.
use cyp_agent.Base.{
  ◌≡◌, refl, ap, Bool, true, false, Option, none, some, Text, arith, lookup, if◌then◌else◌,
}
use cyp_agent.Decimal.{DecimalError}
use cyp_agent.Models.{Side, long, short, flat, other_side, OrderIntent, Position, ExecutionResult}
use cyp_agent.Risk.{Platform}
use cyp_agent.Paper.Keys.{find}
use cyp_agent.Paper.{Paper, held_or, normalize_intent, resolve_side, key_of}
use cyp_agent.Paper.Place.{
  place, is_side, place_once, is_blank, Placed, place_failed, canceled, client_id_required,
  place_new,
}

abbrev pub at_side : OrderIntent → Side → OrderIntent
at_side intent side = record intent { side = side }

held_or_lem : (side held : Side) → is_side held ≡ true → held_or side held ≡ held
held_or_lem side long h = refl
held_or_lem side short h = refl
held_or_lem side flat h = cc
held_or_lem side (other_side s) h = cc

resolve_side-flat :
    (v : Paper) (intent : OrderIntent) (position : Position)
    → intent.side ≡ flat
    → intent.reduce_only ≡ false
    → is_side position.side ≡ true
    → find (key_of intent) v.positions ≡ some position
    → resolve_side v intent ≡ resolve_side v (at_side intent position.side)
unfolding resolve_side
resolve_side-flat v intent position f r s h =
    ground (arith, held_or_lem intent.side position.side s)

place_once_same :
    (platform : Platform) (describe : DecimalError → Text) (v : Paper) (intent other : OrderIntent)
    (found : Option ExecutionResult)
    → resolve_side v (normalize_intent intent) ≡ resolve_side v (normalize_intent other)
    → place_once platform describe v intent found ≡ place_once platform describe v other found
place_once_same platform describe v intent other none e = ap (place_new platform describe v) e
place_once_same platform describe v intent other (some result) e = refl

-- Where a long or short position is held, a flat order that is not marked reduce-only does not
-- close it: `Place` gives it the side of the position before it asks whether the order closes, and
-- so treats it in every way as an order to add to the position on that side.
pub flat_order_adds :
    (platform : Platform) (describe : DecimalError → Text) (v : Paper) (done : Bool)
    (intent : OrderIntent) (position : Position)
    → intent.side ≡ flat
    → intent.reduce_only ≡ false
    → is_side position.side ≡ true
    → find (key_of (normalize_intent intent)) v.positions ≡ some position
    → place platform describe v done intent
      ≡ place platform describe v done (at_side intent position.side)
unfolding place normalize_intent
flat_order_adds platform describe v done intent position f r s h =
    let e = resolve_side-flat v (normalize_intent intent) position f r s h in
    let once =
      place_once_same platform describe v intent (at_side intent position.side)
        (lookup intent.client_id v.fills) (unfold normalize_intent in e) in
    ap
      (λ (r : Paper × Placed).
        if done
        then (v, place_failed canceled)
        else if is_blank intent.client_id
        then (v, place_failed client_id_required)
        else r)
      once
