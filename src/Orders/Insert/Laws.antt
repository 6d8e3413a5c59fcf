-- ===== src/Orders/Insert/Laws.antt =====
-- What the requests that give an order hold.
use mathlib.Core.List.{append-nil}
use galaxie.Prelude.{
  ℕ, zero, suc, ◌+◌, ◌*◌, ◌≡◌, ◌≢◌, refl, ap, arith, none, some, List, [], ◌∷◌, ◌++◌, ◌⊎◌, length,
  All, take,
}
use galaxie.Run.{ok, ◌>>=◌}
use galaxie.Wire.{minus_one, be32}
use galaxie.Server.{Server}
use galaxie.Server.Send.{server_send}
use galaxie.Server.Format.{int, str, raw, str_chunk, chunk, int_case, raw_case, str_case}
use galaxie.Server.Format.Passes.{wire, server_send_format_lem}
use galaxie.Orders.{OrderDesc, tpe_order_get_type_by_name}
use galaxie.Orders.Insert.{
  Ship, counted, ship_words, build_words, order_number, returned, tpe_orders_object_build,
}

abbrev IsShip : Ship → Type 0
IsShip s = (s.type ≢ minus_one) × (s.type ≢ 0) × (s.count ≢ 0)

-- What ends the list of ships.
abbrev IsStop : Ship → Type 0
IsStop s = (s.type ≡ minus_one) ⊎ ((s.type ≡ 0) ⊎ (s.count ≡ 0))

abbrev pub pairs : List Ship → List ℕ
pairs [] = []
pairs (s ∷ ships) = be32 s.type ++ (be32 s.count ++ pairs ships)

counted_lem :
    (ships more : List Ship) (stop : Ship)
    → All IsShip ships
    → IsStop stop
    → counted (ships ++ (stop ∷ more)) ≡ ok (length ships)
unfolding counted
counted_lem [] more stop h e = ground arith
counted_lem (s ∷ ships) more stop ((a, b, c), h) e =
    rw (counted_lem ships more stop h e) (ground (arith, a, b, c))

ship_words_lem : (ships more : List Ship) → ship_words (length ships) (ships ++ more) ≡ pairs ships
unfolding ship_words
ship_words_lem [] more = refl
ship_words_lem (s ∷ ships) more = rw (ship_words_lem ships more) refl

length-pairs : (ships : List Ship) → length (pairs ships) ≡ 8 * length ships
unfolding be32
length-pairs [] = refl
length-pairs (s ∷ ships) = omega (arith, length-pairs ships)

-- The words of the raw argument are as many as the call says.
build_words_lem :
    (ships more : List Ship)
    → (build_words (length ships) (ships ++ more) ≡ be32 (length ships) ++ pairs ships)
      × (length (be32 (length ships) ++ pairs ships) ≡ 4 * (length ships * 2 + 1))
unfolding build_words be32
build_words_lem ships more = (
  ap (λ r. be32 (length ships) ++ r) (ship_words_lem ships more),
  omega (arith, length-pairs ships),
)

take_all : (n : ℕ) (xs : List ℕ) → length xs ≡ n → take n xs ≡ xs
take_all zero [] h = refl
take_all zero (x ∷ xs) h = absurd (omega arith)
take_all (suc n) [] h = refl
take_all (suc n) (x ∷ xs) h = ap (λ r. x ∷ r) (take_all n xs (omega arith))

-- The body of a request for a new order, up to the arguments of the order.
abbrev pub order_head : ℕ → ℕ → ℕ → List ℕ → List ℕ
order_head oid slot type args =
    be32 oid ++ (be32 slot ++ (be32 type ++ (be32 0 ++ (be32 0 ++ args))))

build_wire :
    (oid slot type n : ℕ) (ws name : List ℕ)
    → length ws ≡ 4 * n
    → wire
        (b'V' ∷ b'i' ∷ b'i' ∷ b'i' ∷ b'0' ∷ b'0' ∷ b'0' ∷ b'r' ∷ b'0' ∷ b's' ∷ [])
        (int oid ∷ int slot ∷ int type ∷ raw n ws ∷ str (some name) ∷ [])
      ≡ ok (order_head oid slot type (be32 0 ++ (ws ++ (be32 0 ++ (str_chunk name []).bytes))))
unfolding wire chunk int_case raw_case str_case be32
build_wire oid slot type n ws name h =
    rw (take_all (4 * n) ws h, append-nil (str_chunk name []).bytes) refl

-- A build order for ships whose list is ended by a type of -1 or 0 or by a number of 0, with at
-- least one ship: the request names the object, the slot and the order's type, and then every ship
-- with its number, in order and behind their number, and the padded name. That `malloc` gives blocks
-- of the size asked for is assumed.
pub object_build-pairs :
    {C : Type 0} (malloc : ℕ → List ℕ)
    → ((n : ℕ) → length (malloc n) ≡ n)
    → (ods : List OrderDesc) (server : Server C) (oid slot : ℕ) (name : List ℕ) (ship : Ship)
      (ships more : List Ship) (stop : Ship)
    → All IsShip (ship ∷ ships)
    → IsStop stop
    → tpe_orders_object_build malloc ods server oid slot name ((ship ∷ ships) ++ (stop ∷ more)) ≡ (
        server_send server (record {
          type = "MsgInsertOrder";
          cb = none;
          body =
              order_head oid slot
                (order_number (
                  tpe_order_get_type_by_name ods
                    (b'B' ∷ b'u' ∷ b'i' ∷ b'l' ∷ b'd' ∷ b'F' ∷ b'l' ∷ b'e' ∷ b'e' ∷ b't' ∷ [])))
                (be32 0
                  ++ ((be32 (length (ship ∷ ships)) ++ pairs (ship ∷ ships))
                      ++ (be32 0 ++ (str_chunk name []).bytes)));
        })
        >>= returned)
unfolding tpe_orders_object_build
object_build-pairs malloc sized ods server oid slot name ship ships more stop h e =
    let n = length (ship ∷ ships) in
    let (ws, l) = build_words_lem (ship ∷ ships) (stop ∷ more) in
    let type = order_number (
      tpe_order_get_type_by_name ods
        (b'B' ∷ b'u' ∷ b'i' ∷ b'l' ∷ b'd' ∷ b'F' ∷ b'l' ∷ b'e' ∷ b'e' ∷ b't' ∷ [])) in
    rw
      (
        counted_lem (ship ∷ ships) more stop h e,
        ws,
        server_send_format_lem malloc sized server "MsgInsertOrder" none
            (b'V' ∷ b'i' ∷ b'i' ∷ b'i' ∷ b'0' ∷ b'0' ∷ b'0' ∷ b'r' ∷ b'0' ∷ b's' ∷ [])
            (int oid
              ∷ int slot
              ∷ int type
              ∷ raw (n * 2 + 1) (be32 n ++ pairs (ship ∷ ships))
              ∷ str (some name)
              ∷ [])
            (l, tt),
        build_wire oid slot type (n * 2 + 1) (be32 n ++ pairs (ship ∷ ships)) name l,
      )
      (ground arith)
