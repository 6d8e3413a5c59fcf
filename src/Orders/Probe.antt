-- ===== src/Orders/Probe.antt =====
-- tpe_orders.c: the request that probes an order of a type on an object, and its answer.
use text.Mathlib.Text.{◌==◌ as str_eq}
use galaxie.Prelude.{
  ℕ, ◌+◌, ◌*◌, ◌/◌, Bool, true, false, none, some, List, [], ◌∷◌, ◌==◌, if◌then◌else◌, replicate,
}
use galaxie.Run.{Run, ok, aborted, undefined, ◌>>=◌}
use galaxie.Wire.{minus_one}
use galaxie.Parse.Fields.{OrderArg}
use galaxie.Parse.Packet.{tpe_util_parse_packet}
use galaxie.Server.{Msg, Server}
use galaxie.Server.Send.{Reply}
use galaxie.Server.Format.{int, raw, server_send_format}
use galaxie.Orders.{OrderDesc, tpe_order_orders_get_desc_by_id}
use galaxie.Orders.Args.{Order, tpe_order_parse_args}
use galaxie.Orders.Receive.{order_head}

-- The table `argsizesempty`; a type behind its end is undefined.
unfoldable argsizesempty : ℕ → Run ℕ
argsizesempty type =
    if type == 0
    then ok 24
    else if type == 1
    then ok 8
    else if type == 2
    then ok 4
    else if type == 3
    then ok 8
    else if type == 4
    then ok 28
    else if type == 5
    then ok 16
    else if type == 6
    then ok 16
    else if type == 7
    then ok 8
    else if type == 8
    then ok 12
    else if type == 9
    then ok 8
    else undefined

-- The loop that adds up the sizes.
unfoldable empty_size : List OrderArg → Run ℕ
unfolding argsizesempty
empty_size [] = ok 0
empty_size (a ∷ args) = argsizesempty a.arg_type >>= λ n. empty_size args >>= λ rest. ok (n + rest)

abbrev has_type : ℕ → List ℕ → Bool
has_type otype [] = false
has_type otype (t ∷ ts) = let rest = has_type otype ts in if t == otype then true else rest

module _ {C : Type 0} (malloc : ℕ → List ℕ) where
  -- `ordertypes` is the array of the object, and `cb` the callback with its `struct probeinfo`.
  unfoldable tpe_orders_object_probe :
      List OrderDesc → Server C → C → ℕ → List ℕ → ℕ → Run (Server C × Reply)
  unfolding tpe_order_orders_get_desc_by_id empty_size server_send_format
  tpe_orders_object_probe ods server cb oid ordertypes otype =
      if has_type otype ordertypes
      then (elim (tpe_order_orders_get_desc_by_id ods otype) [
        | none ↦ undefined
        | some desc ↦ empty_size desc.args >>= λ size.
            server_send_format malloc server "MsgProbeOrder" (some cb)
              (b'i' ∷ b'i' ∷ b'i' ∷ b'0' ∷ b'0' ∷ b'r' ∷ [])
              (int oid
                ∷ int minus_one
                ∷ int otype
                ∷ raw (size / 4) (replicate (4 * (size / 4)) 0)
                ∷ [])
      ])
      else aborted

-- The order that the callback of the probe gets.
unfoldable object_probe_data : OrderDesc → Msg → Run Order
unfolding tpe_util_parse_packet order_head tpe_order_parse_args
object_probe_data desc msg =
    if str_eq msg.type "MsgFail"
    then aborted
    else (tpe_util_parse_packet msg.body (b'i' ∷ b'i' ∷ b'i' ∷ b'i' ∷ b'B' ∷ b'p' ∷ [])
        >>= λ parsed. order_head parsed.values >>= λ head.
            tpe_order_parse_args desc.args head.1 >>= λ args. ok (record head.0 { args = args }))
