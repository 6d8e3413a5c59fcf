-- ===== src/Orders/Insert.antt =====
-- tpe_orders.c: the requests that give an order to an object (move, colonise, build).
-- `nothing` is the value -1 that the functions return without a request.
pub mod Laws
use Prim.Native.String.{String}
use galaxie.Prelude.{
  ℕ, zero, suc, ◌+◌, ◌*◌, ◌-◌, ◌%◌, ◌^◌, ◌<◌, ◌≤◌, ◌≡◌, ◌≢◌, refl, sym, ◌∙◌, ap, arith, Option,
  none, some, List, [], ◌∷◌, ◌++◌, ◌==◌, ◌||◌, if◌then◌else◌, length, length-append, Bool-cases,
  inl, inr, Option-cases,
}
use galaxie.Run.{Run, ok, undefined, ◌>>=◌}
use galaxie.Wire.{minus_one, be32, be64}
use galaxie.Wire.Bytes.{length-be32}
use galaxie.Server.{Server}
use galaxie.Server.Send.{Request, Reply, server_send}
use galaxie.Server.Format.{Arg, int, long, str, raw, str_chunk, server_send_format}
use galaxie.Server.Format.Passes.{wire, server_send_format_lem}
use galaxie.Orders.Args.{Coord}
use galaxie.Orders.{OrderDesc, tpe_order_get_type_by_name}

pub data Sent (C : Type 0) : Type 0 where
  nothing : Sent C
  sent : Server C → Reply → Sent C

-- A type and a number, as the arguments of `tpe_orders_object_build` have them.
pub record Ship : Type 0 where
  pub type : ℕ
  pub count : ℕ

-- The first pass: the list of arguments ends at a type that is -1 or 0 or at a number that is 0.
-- Here the list has an end of its own, behind which the C function reads what no argument holds.
unfoldable pub counted : List Ship → Run ℕ
counted [] = undefined
counted (s ∷ ships) =
    let rest = counted ships in
    if s.type == minus_one || s.type == 0
    then ok 0
    else if s.count == 0
    then ok 0
    else (rest >>= λ n. ok (suc n))

-- The second pass, over as many items as the first one has counted.
unfoldable pub ship_words : ℕ → List Ship → List ℕ
ship_words zero ships = []
ship_words (suc n) [] = []
ship_words (suc n) (s ∷ ships) = be32 s.type ++ (be32 s.count ++ ship_words n ships)

unfoldable pub build_words : ℕ → List Ship → List ℕ
unfolding ship_words
build_words items ships = be32 items ++ ship_words items ships

-- `tpe_order_get_type_by_name` gives an int, of which -1 is sent for a name that is not found.
abbrev pub order_number : Option ℕ → ℕ
order_number none = minus_one
order_number (some n) = n

abbrev pub returned : {C : Type 0} → Server C × Reply → Run (Sent C)
returned out = ok (sent out.0 out.1)

module _ {C : Type 0} (malloc : ℕ → List ℕ) where
  -- The position is three 64-bit words.
  unfoldable tpe_orders_object_move : List OrderDesc → Server C → ℕ → ℕ → ℕ × ℕ × ℕ → Run (Sent C)
  unfolding tpe_order_get_type_by_name server_send_format
  tpe_orders_object_move ods server oid slot pos =
      elim (tpe_order_get_type_by_name ods (b'M' ∷ b'o' ∷ b'v' ∷ b'e' ∷ [])) [
        | none ↦ ok nothing
        | some moveorder ↦
            server_send_format malloc server "MsgInsertOrder" none
              (b'i' ∷ b'i' ∷ b'i' ∷ b'0' ∷ b'0' ∷ b'l' ∷ b'l' ∷ b'l' ∷ [])
              (int oid ∷ int slot ∷ int moveorder ∷ long pos.0 ∷ long pos.1 ∷ long pos.2 ∷ [])
            >>= returned
      ]

  -- To the place where the other object is now.
  unfoldable pub tpe_orders_object_move_object :
      List OrderDesc → Server C → ℕ → ℕ → Coord → Run (Sent C)
  unfolding tpe_orders_object_move
  tpe_orders_object_move_object ods server oid slot dest =
      tpe_orders_object_move ods server oid slot (dest.x, dest.y, dest.z)

  unfoldable pub tpe_orders_object_colonise : List OrderDesc → Server C → ℕ → ℕ → ℕ → Run (Sent C)
  unfolding tpe_order_get_type_by_name server_send_format
  tpe_orders_object_colonise ods server oid slot what =
      elim (tpe_order_get_type_by_name ods
        (b'C' ∷ b'o' ∷ b'l' ∷ b'o' ∷ b'n' ∷ b'i' ∷ b's' ∷ b'e' ∷ [])) [
          | none ↦ ok nothing
          | some colorder ↦
              server_send_format malloc server "MsgInsertOrder" none
                (b'i' ∷ b'i' ∷ b'i' ∷ b'0' ∷ b'0' ∷ b'i' ∷ [])
                (int oid ∷ int slot ∷ int colorder ∷ int what ∷ [])
              >>= returned
        ]

  unfoldable pub tpe_orders_object_build :
      List OrderDesc → Server C → ℕ → ℕ → List ℕ → List Ship → Run (Sent C)
  unfolding tpe_order_get_type_by_name counted build_words server_send_format
  tpe_orders_object_build ods server oid slot name ships = counted ships >>= λ items.
      if items == 0
      then ok nothing
      else (server_send_format malloc server "MsgInsertOrder" none
            (b'V' ∷ b'i' ∷ b'i' ∷ b'i' ∷ b'0' ∷ b'0' ∷ b'0' ∷ b'r' ∷ b'0' ∷ b's' ∷ [])
            (int oid
              ∷ int slot
              ∷ int (
                  order_number (
                    tpe_order_get_type_by_name ods
                      (b'B' ∷ b'u' ∷ b'i' ∷ b'l' ∷ b'd' ∷ b'F' ∷ b'l' ∷ b'e' ∷ b'e' ∷ b't' ∷ [])))
              ∷ raw (items * 2 + 1) (build_words items ships)
              ∷ str (some name)
              ∷ [])
          >>= returned)
