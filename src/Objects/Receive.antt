-- ===== src/Objects/Receive.antt =====
-- objects.c: `tpe_obj_data_receive`, an object that a server describes.
pub mod Quiet
use Prim.Native.String.{String}
use galaxie.Prelude.{
  ℕ, ◌≡◌, refl, ◌⊎◌, arith, Bool, true, false, Option, none, some, List, [], ◌∷◌, ◌++◌, ◌==◌,
  if◌then◌else◌, replicate, All, Bool-cases, Option-cases, inl, inr,
}
use galaxie.Run.{Run, ok, undefined, ◌>>=◌, Returns, >>=-Returns, Returns-ok}
use galaxie.Wire.{minus_one}
use galaxie.Parse.Fields.{Value, int, long, str, ints, pointer}
use galaxie.Parse.Packet.{tpe_util_parse_packet}
use galaxie.Server.{Msg}
use galaxie.Board.{first_int}
use galaxie.Objects.{
  EinaHash, Object, Objects, Slots, null, array, freed, empty_object, objtype_planet, objtype_fleet,
  stored, tpe_obj_obj_get_by_id, tpe_obj_obj_add,
}

-- An event with the number of its object.
pub record Notice : Type 0 where
  pub event : String
  pub oid : ℕ

-- What the format "iissial----p" stores.
pub record Description : Type 0 where
  pub oid : ℕ
  pub type : ℕ
  pub name : List ℕ
  pub description : List ℕ
  pub parent : ℕ
  pub children : List ℕ
  pub updated : ℕ

unfoldable pub object_values : List Value → Run Description
object_values
      (int oid
        ∷ int type
        ∷ str name
        ∷ str description
        ∷ int parent
        ∷ ints nchildren children
        ∷ long updated
        ∷ pointer end
        ∷ []) =
    ok (record {
      oid = oid;
      type = type;
      name = name;
      description = description;
      parent = parent;
      children = children;
      updated = updated;
    })
object_values _ = undefined

abbrev pub described : Object → Description → Object
described o d = record o {
  oid = d.oid;
  type = d.type;
  name = some d.name;
  description = some d.description;
  parent = d.parent;
  children = d.children;
  updated = d.updated;
}

-- The old orders are freed; those that have been freed before are read first.
unfoldable pub free_orders : Object → Run Object
free_orders o = elim o.orders [
  | null ↦ ok o
  | array os ↦ ok (record o { orders = freed })
  | freed ↦ undefined
]

-- The new slots.
abbrev pub new_orders : ℕ → Slots
new_orders norders = if norders == 0 then null else array (replicate norders none)

unfoldable pub no_orders : Object → List Notice
no_orders o =
    if o.nordertypes == 0
    then []
    else if o.norders == 0
    then (if o.type == objtype_planet
        then record { event = "PlanetNoOrders"; oid = o.oid } ∷ []
        else if o.type == objtype_fleet
        then record { event = "FleetNoOrders"; oid = o.oid } ∷ []
        else [])
    else []

abbrev pub news : Bool → Object → Notice
news isnew o = record { event = if isnew then "ObjectNew" else "ObjectChanged"; oid = o.oid }

abbrev pub object_format : List ℕ
object_format =
    b'i' ∷ b'i' ∷ b's' ∷ b's' ∷ b'i' ∷ b'a' ∷ b'l' ∷ b'-' ∷ b'-' ∷ b'-' ∷ b'-' ∷ b'p' ∷ []

module _ {H : Type 0} (hash : EinaHash H Object) where
  -- The object that the message is about, and whether it is new.
  unfoldable pub object_for : Objects H → ℕ → Run (Objects H × Object × Bool)
  unfolding tpe_obj_obj_get_by_id tpe_obj_obj_add
  object_for obj id = elim (tpe_obj_obj_get_by_id hash obj id) [
    | some o ↦ ok (obj, o, false)
    | none ↦ tpe_obj_obj_add hash obj id >>= λ added.
        ok (added.0, record added.1 { server = true }, true)
  ]

  -- The end of the handler, from the test of the protocol on. The events are in the order in which
  -- they are sent.
  unfoldable pub finish : Objects H → ℕ → Bool → Object → Msg → Run (Objects H × List Notice)
  unfolding tpe_util_parse_packet object_values no_orders
  finish obj id isnew o msg =
      if msg.protocol == 4
      then (tpe_util_parse_packet msg.body object_format >>= λ parsed.
          object_values parsed.values >>= λ d.
          let whole = record (described o d) { orders = new_orders o.norders } in
          ok (stored hash obj id whole, news isnew whole ∷ no_orders whole))
      else ok (stored hash obj id o, [])

  unfoldable pub tpe_obj_data_receive : Objects H → Msg → Run (Objects H × List Notice)
  unfolding tpe_util_parse_packet object_for free_orders finish
  tpe_obj_data_receive obj msg = tpe_util_parse_packet msg.body (b'i' ∷ []) >>= λ first.
      first_int first.values >>= λ id. object_for obj id >>= λ found.
      free_orders (record found.1 { name = none }) >>= λ o. finish found.0 id found.2 o msg

  unfoldable pub receive_all : Objects H → List Msg → Run (Objects H × List Notice)
  unfolding tpe_obj_data_receive
  receive_all obj [] = ok (obj, [])
  receive_all obj (msg ∷ msgs) = tpe_obj_data_receive obj msg >>= λ out.
      receive_all out.0 msgs >>= λ rest. ok (rest.0, out.1 ++ rest.1)
