-- ===== src/Orders/Tests.antt =====
-- The theorems on orders at concrete orders and requests.
use galaxie.Prelude.{
  ℕ, ◌≡◌, refl, arith, none, some, List, [], ◌∷◌, ◌++◌, inl, map, All, replicate, length-replicate,
  upto,
}
use galaxie.Run.{ok, undefined, ◌>>=◌}
use galaxie.Wire.{minus_one, be32, be64}
use galaxie.Server.{Server}
use galaxie.Server.Send.{connected, server_send}
use galaxie.Server.Format.{str_chunk, padded, strncpy}
use galaxie.Parse.{at}
use galaxie.Parse.Fields.{OrderArg}
use galaxie.Orders.{OrderDesc, tpe_order_get_type_by_name}
use galaxie.Orders.Fragments.{
  request, joined, tpe_orders_object_update, AtMost, object_update-slots,
}
use galaxie.Server.Send.Batch.{send_all}
use galaxie.Orders.Insert.{Ship, tpe_orders_object_build, returned}
use galaxie.Orders.Insert.Laws.{pairs, order_head, object_build-pairs}
use galaxie.Orders.Args.{Coord, ArgData, Order, coord, time, relcoord, string, tpe_order_parse_args}
use galaxie.Orders.Args.Write.{args_bytes, args_size, args_write}
use galaxie.Orders.Args.Write.Laws.{all_arg_bytes, args_bytes_lem}
use galaxie.Orders.Args.RoundTrip.{read_all, parse_args-args_bytes}
use galaxie.Orders.Receive.{OrderSlots, place_order, place_order_lem}

abbrev server : Server ℕ
server = connected

object_update-slots_example :
    (slots : List (List ℕ)) × (tpe_orders_object_update server 9 200
      ≡ send_all server (map (request 9) slots))
    × All (AtMost 100) slots
    × (joined slots ≡ upto 0 100)
object_update-slots_example = object_update-slots server 9 200 (omega arith) (omega arith)

abbrev arg : ℕ → OrderArg
arg type = record { name = []; arg_type = type; description = [] }

abbrev descs : List OrderDesc
descs =
    record {
      otype = 4;
      name = b'B' ∷ b'u' ∷ b'i' ∷ b'l' ∷ b'd' ∷ b'F' ∷ b'l' ∷ b'e' ∷ b'e' ∷ b't' ∷ [];
      description = [];
      nargs = 0;
      args = [];
      updated = 1;
    }
    ∷ []

abbrev scouts : Ship
scouts = record { type = 2; count = 5 }

abbrev last_ship : Ship
last_ship = record { type = minus_one; count = 0 }

abbrev blocks : ℕ → List ℕ
blocks n = replicate n 0

object_build-pairs_example :
    tpe_orders_object_build blocks descs server 9 0 (b'A' ∷ []) (scouts ∷ last_ship ∷ []) ≡ (
      server_send server (record {
        type = "MsgInsertOrder";
        cb = none;
        body = order_head 9 0 4 (
            be32 0
            ++ ((be32 1 ++ pairs (scouts ∷ [])) ++ (be32 0 ++ (str_chunk (b'A' ∷ []) []).bytes)));
      })
      >>= returned)
unfolding tpe_order_get_type_by_name
object_build-pairs_example =
    object_build-pairs blocks (λ n. length-replicate n 0) descs server 9 0 (b'A' ∷ []) scouts [] []
      last_ship ((omega arith, omega arith, omega arith), tt) (inl refl)

abbrev here : Coord
here = record { x = 1; y = 2; z = 3 }

abbrev kinds : List OrderArg
kinds = arg 0 ∷ arg 1 ∷ arg 4 ∷ arg 7 ∷ []

abbrev data_sent : List ArgData
data_sent = coord here ∷ time 4 10 ∷ relcoord 6 here ∷ string 40 (some (b'A' ∷ [])) ∷ []

args_bytes_lem_example :
    (args_size kinds data_sent ≡ ok 72)
    × (args_write 72 kinds data_sent ≡ ok (all_arg_bytes data_sent))
    × (args_bytes kinds data_sent ≡ ok (all_arg_bytes data_sent))
unfolding be64 be32 padded strncpy
args_bytes_lem_example = args_bytes_lem kinds data_sent (
  (refl, (omega arith, omega arith, omega arith)),
  (refl, ((refl, (omega arith, omega arith, omega arith)), ((refl, omega arith), tt))),
)

parse_args-args_bytes_example :
    (args_bytes kinds data_sent >>= λ buf. tpe_order_parse_args kinds (at (buf ++ [])))
    ≡ ok (read_all data_sent)
parse_args-args_bytes_example =
    parse_args-args_bytes kinds data_sent []
      (
        (refl, (omega arith, omega arith, omega arith)),
        (refl, ((refl, (omega arith, omega arith, omega arith)), ((refl, omega arith), tt))),
      )
      (
        (refl, (omega arith, omega arith, omega arith)),
        (
          (refl, omega arith),
          (
            (refl, omega arith, (omega arith, omega arith, omega arith)),
            ((refl, ((λ e. omega (arith, e)), tt), omega arith), tt),
          ),
        ),
      )

abbrev order : Order
order = record { oid = 9; slot = 2; type = 4; turns = 1; nresources = 0; resources = []; args = [] }

abbrev slots : OrderSlots
slots = record { norders = 2; orders = none ∷ none ∷ [] }

place_order_lem_example : place_order slots order ≡ undefined
place_order_lem_example = place_order_lem slots order refl (omega arith) (omega arith)
