-- ===== src/Orders/Receive.antt =====
-- `tpe_orders_msg_order` of tpe_orders.c: an order arrives and goes into its slot.
use galaxie.Prelude.{
  ℕ, zero, suc, ◌^◌, ◌<◌, ◌≡◌, arith, Option, none, some, List, [], ◌∷◌, ◌==◌, ltb, length,
  if◌then◌else◌, take, drop, ◌++◌,
}
use galaxie.Run.{Run, ok, exited, undefined, ◌>>=◌}
use galaxie.Wire.{minus_one}
use galaxie.Parse.{Cursor}
use galaxie.Parse.Fields.{Value, int, build, pointer}
use galaxie.Parse.Packet.{tpe_util_parse_packet}
use galaxie.Board.Turns.{int_lt}
use galaxie.Orders.{OrderDesc, tpe_order_orders_get_desc_by_id}
use galaxie.Orders.Args.{Order, tpe_order_parse_args}

-- `norders` and `orders` of `struct object`; an order that is NULL is `none`.
pub record OrderSlots : Type 0 where
  pub norders : ℕ
  pub orders : List (Option Order)

-- What the format "iiiiBp" stores, and where the arguments start.
unfoldable pub order_head : List Value → Run (Order × Cursor)
order_head
      (int oid ∷ int slot ∷ int type ∷ int turns ∷ build nresources resources ∷ pointer end ∷ []) =
    ok (
      record {
        oid = oid;
        slot = slot;
        type = type;
        turns = turns;
        nresources = nresources;
        resources = resources;
        args = [];
      },
      end,
    )
order_head _ = undefined

-- An order whose type is not described keeps no arguments.
unfoldable with_args : List OrderDesc → Order → Cursor → Run Order
unfolding tpe_order_orders_get_desc_by_id tpe_order_parse_args
with_args ods order end = elim (tpe_order_orders_get_desc_by_id ods order.type) [
  | none ↦ ok order
  | some desc ↦ tpe_order_parse_args desc.args end >>= λ args. ok (record order { args = args })
]

-- `orders[slot] = order`, behind the read of `orders[slot]`.
unfoldable set_order : List (Option Order) → ℕ → Order → Run (List (Option Order))
set_order [] i order = undefined
set_order (o ∷ os) zero order = ok (some order ∷ os)
set_order (o ∷ os) (suc i) order = set_order os i order >>= λ r. ok (o ∷ r)

unfoldable pub place_order : OrderSlots → Order → Run OrderSlots
unfolding set_order
place_order s order =
    if int_lt s.norders order.slot
    then exited
    else (set_order s.orders order.slot order >>= λ os. ok (record s { orders = os }))

-- The object whose slots change, with the new ones; `none` if the order is dropped. `find` is the
-- search for an object.
unfoldable tpe_orders_msg_order :
    List OrderDesc → (ℕ → Option OrderSlots) → List ℕ → Run (Option (ℕ × OrderSlots))
unfolding tpe_util_parse_packet order_head with_args place_order
tpe_orders_msg_order ods find body =
    tpe_util_parse_packet body (b'i' ∷ b'i' ∷ b'i' ∷ b'i' ∷ b'B' ∷ b'p' ∷ []) >>= λ parsed.
    order_head parsed.values >>= λ head. with_args ods head.0 head.1 >>= λ order.
    if order.slot == minus_one then ok none else elim (find order.oid) [
      | none ↦ ok none
      | some s ↦ place_order s order >>= λ s'. ok (some (order.oid, s'))
    ]

set_order_lem :
    (os : List (Option Order)) (k : ℕ) (order : Order)
    → set_order os k order
      ≡ (if ltb k (length os) then ok (take k os ++ (some order ∷ drop (suc k) os)) else undefined)
unfolding set_order
set_order_lem [] k order = ground arith
set_order_lem (o ∷ os) zero order = ground arith
set_order_lem (o ∷ os) (suc k) order = rw (set_order_lem os k order) (ground arith)

-- An order for an object that has an array of `norders` slots, with a slot that is not negative: one
-- of a slot in the array takes its place there and no other slot changes, one behind the first slot
-- after the array ends the program, and one of the first slot after the array is not caught by the
-- check and is written outside.
pub place_order_lem :
    (s : OrderSlots) (order : Order)
    → length s.orders ≡ s.norders
    → s.norders < 2 ^ 31
    → order.slot < 2 ^ 31
    → place_order s order ≡ (
        if ltb order.slot s.norders
        then ok (record s {
          orders = take order.slot s.orders ++ (some order ∷ drop (suc order.slot) s.orders);
        })
        else if order.slot == s.norders
        then undefined
        else exited)
unfolding place_order
place_order_lem s order l n h =
    rw (set_order_lem s.orders order.slot order) (ground (arith, l, n, h))
