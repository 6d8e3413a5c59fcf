-- ===== src/Orders.antt =====
-- tpe_orders.c: the kinds of orders that a server describes, and the requests about the orders of
-- an object. The parts: Args and Write the arguments of an order, Fragments, Clear and Insert the
-- requests, Receive the orders that arrive, Probe a request that probes one.
pub mod Fragments
pub mod Clear
pub mod Insert
pub mod Args
pub mod Receive
pub mod Probe
mod Tests
use galaxie.Prelude.{ℕ, Option, none, some, List, [], ◌∷◌, ◌++◌, ◌==◌, if◌then◌else◌, bytes_eq}
use galaxie.Run.{Run, ok, undefined, ◌>>=◌}
use galaxie.Wire.{uint64_max}
use galaxie.Parse.Fields.{Value, OrderArg, int, long, str, order_args}
use galaxie.Parse.Packet.{tpe_util_parse_packet}

-- `struct order_desc`
pub record OrderDesc : Type 0 where
  pub otype : ℕ
  pub name : List ℕ
  pub description : List ℕ
  pub nargs : ℕ
  pub args : List OrderArg
  pub updated : ℕ

unfoldable pub tpe_order_orders_get_desc_by_id : List OrderDesc → ℕ → Option OrderDesc
tpe_order_orders_get_desc_by_id [] type = none
tpe_order_orders_get_desc_by_id (od ∷ ods) type =
    if type == od.otype then some od else tpe_order_orders_get_desc_by_id ods type

-- `none` is -1, for a type of that number as for a name that no type has.
unfoldable type_by_name : List OrderDesc → List ℕ → Option ℕ
type_by_name [] name = none
type_by_name (od ∷ ods) name =
    if bytes_eq name od.name then some od.otype else type_by_name ods name

abbrev unless_minus_one : Option ℕ → Option ℕ
unless_minus_one none = none
unless_minus_one (some n) = if n == 0xffff_ffff then none else some n

unfoldable pub tpe_order_get_type_by_name : List OrderDesc → List ℕ → Option ℕ
unfolding type_by_name
tpe_order_get_type_by_name ods name = unless_minus_one (type_by_name ods name)

unfoldable tpe_order_get_name_by_type : List OrderDesc → ℕ → Option (List ℕ)
tpe_order_get_name_by_type [] type = none
tpe_order_get_name_by_type (od ∷ ods) type =
    if type == od.otype then some od.name else tpe_order_get_name_by_type ods type

unfoldable tpe_orders_order_desc_updated : List OrderDesc → ℕ → ℕ
unfolding tpe_order_orders_get_desc_by_id
tpe_orders_order_desc_updated ods id = elim (tpe_order_orders_get_desc_by_id ods id) [
  | some od ↦ od.updated
  | none ↦ uint64_max
]

-- What the format "issQl" stores.
unfoldable order_desc : List Value → Run OrderDesc
order_desc (int otype ∷ str name ∷ str description ∷ order_args nargs args ∷ long updated ∷ []) =
    ok (record {
      otype = otype;
      name = name;
      description = description;
      nargs = nargs;
      args = args;
      updated = updated;
    })
order_desc _ = undefined

-- A description that arrives again is added again, behind the first.
unfoldable tpe_orders_msg_order_description :
    (List OrderDesc → OrderDesc → List OrderDesc) → List OrderDesc → List ℕ → Run (List OrderDesc)
unfolding tpe_util_parse_packet order_desc
tpe_orders_msg_order_description append ods body =
    tpe_util_parse_packet body (b'i' ∷ b's' ∷ b's' ∷ b'Q' ∷ b'l' ∷ []) >>= λ parsed.
    order_desc parsed.values >>= λ od. ok (append ods od)
