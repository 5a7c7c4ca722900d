-- ===== src/Paper/Protect.antt =====
-- internal/venue/paper.go: the protective orders: their creation, their merging and their triggers.
use cyp_agent.Base.{
  Bool, true, false, ◌&&◌, ◌||◌, not, Option, none, some, List, [], ◌∷◌, ◌++◌, if◌then◌else◌, Text,
  text_eq, codes,
}
use cyp_agent.Decimal.{Decimal, cmp, lt_zero, gt_zero, zero_decimal}
use cyp_agent.Models.{Side, OrderIntent, ProtectiveOrder}
use cyp_agent.Risk.{is_long, is_short}
use cyp_agent.Paper.{Paper, next_id}

abbrev pub stop_loss_kind : Text
stop_loss_kind = codes "stop_loss"

abbrev pub take_profit_kind : Text
take_profit_kind = codes "take_profit"

abbrev pub is_stop : ProtectiveOrder → Bool
is_stop order = text_eq order.kind stop_loss_kind

abbrev pub is_take : ProtectiveOrder → Bool
is_take order = text_eq order.kind take_profit_kind

abbrev protective_order : Text → Text → OrderIntent → Decimal → ProtectiveOrder
protective_order kind id intent price = record {
  kind = kind;
  order_id = id;
  client_id = intent.client_id;
  position_side = intent.side;
  trigger_price = price;
  size_base = zero_decimal;
  reduce_only = true;
  full_close = true;
}

-- The loop over the take profits.
unfoldable pub make_takes : OrderIntent → List Decimal → Paper → Paper × List ProtectiveOrder
make_takes intent [] v = (v, [])
make_takes intent (price ∷ prices) v =
    let (w, id) = next_id (codes "tp") v in
    let (u, rest) = make_takes intent prices w in
    (u, protective_order take_profit_kind id intent price ∷ rest)

unfoldable pub make_stop : OrderIntent → Option Decimal → Paper → Paper × List ProtectiveOrder
make_stop intent none v = (v, [])
make_stop intent (some price) v =
    let (w, id) = next_id (codes "sl") v in
    (w, protective_order stop_loss_kind id intent price ∷ [])

-- `makeProtectiveLocked`.
unfoldable pub make_protective : Paper → OrderIntent → Paper × List ProtectiveOrder
make_protective v intent =
    let (w, stops) = make_stop intent intent.stop_loss v in
    let (u, takes) = make_takes intent intent.take_profit w in (u, stops ++ takes)

-- `stop == nil || side == long && … > 0 || side == short && … < 0`.
abbrev pub tighter_stop : Side → ProtectiveOrder → Option ProtectiveOrder → Bool
tighter_stop side order none = true
tighter_stop side order (some stop) =
    let c = cmp order.trigger_price stop.trigger_price in
    (is_long side && gt_zero c) || (is_short side && lt_zero c)

abbrev pub nearer_take : Side → ProtectiveOrder → Option ProtectiveOrder → Bool
nearer_take side order none = true
nearer_take side order (some take) =
    let c = cmp order.trigger_price take.trigger_price in
    (is_long side && lt_zero c) || (is_short side && gt_zero c)

-- The cases of the loop of `conservativeProtectiveOrders`: a stop loss, a take profit, any other.
abbrev pub choose_kind :
    Bool
    → Bool
    → Side
    → ProtectiveOrder
    → Option ProtectiveOrder × Option ProtectiveOrder
    → Option ProtectiveOrder × Option ProtectiveOrder
choose_kind true _ side order (stop, take) =
    (if tighter_stop side order stop then some order else stop, take)
choose_kind false true side order (stop, take) =
    (stop, if nearer_take side order take then some order else take)
choose_kind false false side order kept = kept

-- One pass of the loop, on the two orders kept so far.
unfoldable pub choose :
    Side
    → ProtectiveOrder
    → Option ProtectiveOrder × Option ProtectiveOrder
    → Option ProtectiveOrder × Option ProtectiveOrder
choose side order kept = choose_kind (is_stop order) (is_take order) side order kept

unfoldable pub choose_all :
    Side
    → List ProtectiveOrder
    → Option ProtectiveOrder × Option ProtectiveOrder
    → Option ProtectiveOrder × Option ProtectiveOrder
choose_all side [] kept = kept
choose_all side (order ∷ orders) kept = choose_all side orders (choose side order kept)

abbrev pub listed : Option ProtectiveOrder → List ProtectiveOrder
listed none = []
listed (some order) = order ∷ []

unfoldable pub conservative_protective :
    Side → List ProtectiveOrder → List ProtectiveOrder → List ProtectiveOrder
conservative_protective side existing added =
    let (stop, take) = choose_all side (existing ++ added) (none, none) in
    listed stop ++ listed take

-- `protectiveHit`.
unfoldable pub protective_hit : Side → ProtectiveOrder → Decimal → Bool
protective_hit side order mark =
    let c = cmp mark order.trigger_price in
    if is_long side
    then (if is_stop order then not (gt_zero c) else not (lt_zero c))
    else (if is_stop order then not (lt_zero c) else not (gt_zero c))
