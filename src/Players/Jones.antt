-- ===== src/Players/Jones.antt =====
-- ai_jones.c: the computer player Jones. What its handlers print is not modelled.
pub mod Laws
use text.Mathlib.Text.{◌==◌ as str_eq}
use galaxie.Prelude.{
  ℕ, Bool, true, false, ◌||◌, Option, none, some, List, [], ◌∷◌, ◌==◌, if◌then◌else◌, bytes_eq,
}
use galaxie.Run.{Run, ok, exited, aborted, undefined, ◌>>=◌}
use galaxie.Wire.{minus_one, is_negative}
use galaxie.Parse.Fields.{ArgType6, FleetShip}
use galaxie.Parse.Packet.{tpe_util_parse_packet}
use galaxie.Server.{Server, Msg}
use galaxie.Server.Format.{int, format_body, server_send_format}
use galaxie.Orders.{OrderDesc, tpe_order_get_type_by_name}
use galaxie.Orders.Insert.{Ship, counted, tpe_orders_object_build}
use galaxie.Objects.{Object}
use galaxie.Ships.{Design, tpe_ship_design_name_get}
use galaxie.Players.{send_on}
use galaxie.Players.Smith.{probe_format}
use galaxie.Players.Smith.Build.{build_answer, build_format, frigate_name, BuildAnswer}

-- `struct ai`, less the pointer to the program's state: whether `server` is set.
pub record Jones : Type 0 where
  pub server : Bool

-- `talloc_zero` clears the pointer to the server.
unfoldable pub ai_jones_init : Jones
ai_jones_init = record { server = false }

abbrev pub build_name : List ℕ
build_name = b'B' ∷ b'u' ∷ b'i' ∷ b'l' ∷ b'd' ∷ b'F' ∷ b'l' ∷ b'e' ∷ b'e' ∷ b't' ∷ []

abbrev pub battleship_name : List ℕ
battleship_name = b'B' ∷ b'a' ∷ b't' ∷ b't' ∷ b'l' ∷ b'e' ∷ b's' ∷ b'h' ∷ b'i' ∷ b'p' ∷ []

-- `Kill Fleet #9` and `Col Fleet #9`.
abbrev kill_fleet : List ℕ
kill_fleet =
    b'K' ∷ b'i' ∷ b'l' ∷ b'l' ∷ b' ' ∷ b'F' ∷ b'l' ∷ b'e' ∷ b'e' ∷ b't' ∷ b' ' ∷ b'#' ∷ b'9' ∷ []

abbrev col_fleet : List ℕ
col_fleet = b'C' ∷ b'o' ∷ b'l' ∷ b' ' ∷ b'F' ∷ b'l' ∷ b'e' ∷ b'e' ∷ b't' ∷ b' ' ∷ b'#' ∷ b'9' ∷ []

-- The loop over the options keeps the number of the last one of a name; it starts from 0.
unfoldable pub last_option : List ℕ → List ArgType6 → ℕ → ℕ
last_option name [] kept = kept
last_option name (o ∷ os) kept = last_option name os (if bytes_eq o.name name then o.id else kept)

abbrev options_read : BuildAnswer → List ArgType6
options_read answer = if is_negative answer.noptions then [] else answer.options

-- A list of ships with the 0, 0 that ends it.
abbrev ship_args : ℕ → ℕ → List Ship
ship_args type count = record { type = type; count = count } ∷ record { type = 0; count = 0 } ∷ []

-- `designtype` after the loop: `none` if it was never set, and NULL inside for a design that is not
-- known.
unfoldable pub last_design :
    List Design → List FleetShip → Option (Option (List ℕ)) → Option (Option (List ℕ))
unfolding tpe_ship_design_name_get
last_design designs [] designtype = designtype
last_design designs (s ∷ ships) designtype =
    elim (tpe_ship_design_name_get designs s.design) as (λ _. Option (Option (List ℕ))) [
      | none ↦ last_design designs ships (some none)
      | some name ↦
          elim (bytes_eq name frigate_name || bytes_eq name battleship_name)
            as (λ _. Option (Option (List ℕ))) [
              | true ↦ some (some name)
              | false ↦ last_design designs ships (some (some name))
            ]
    ]

-- `strcmp` of a pointer that is NULL or was never set is undefined; nothing else is done.
unfoldable pub jones_order_fleet : List Design → Object → Run (Unit {0})
unfolding last_design
jones_order_fleet designs o = elim o.fleet [
  | none ↦ ok tt
  | some ships ↦ elim (last_design designs ships none) [
    | none ↦ undefined
    | some none ↦ undefined
    | some (some name) ↦ ok tt
  ]
]

-- A call of tpe_orders_object_build for a pointer that may be NULL: it is read only if there is
-- something to build.
unfoldable build_on :
    {C : Type 0}
    → (ℕ → List ℕ)
    → List OrderDesc
    → Server C
    → Option Object
    → List ℕ
    → List Ship
    → Run (Server C)
unfolding counted tpe_orders_object_build send_on
build_on malloc ods server none name ships =
    counted ships >>= λ items. if items == 0 then ok server else undefined
build_on malloc ods server (some obj) name ships =
    tpe_orders_object_build malloc ods server obj.oid minus_one name ships >>= λ built.
    send_on obj.server server built

module _ {C : Type 0} (malloc : ℕ → List ℕ) (ods : List OrderDesc) (cb : C) where
  -- The body is made before `server_send` asserts that the server is not NULL.
  unfoldable pub jones_order_planet : Jones → Server C → Object → Run (Server C)
  jones_order_planet jones server planet = elim (tpe_order_get_type_by_name ods build_name) [
    | none ↦ ok server
    | some buildid ↦
        if jones.server
        then (server_send_format malloc server "MsgProbeOrder" (some cb) probe_format
              (int planet.oid ∷ int minus_one ∷ int buildid ∷ [])
            >>= λ out. ok out.0)
        else (format_body malloc probe_format (int planet.oid ∷ int minus_one ∷ int buildid ∷ [])
            >>= λ body. aborted)
  ]

  -- `find` is the search for an object.
  unfoldable jones_order_insert_cb : (ℕ → Option Object) → Server C → Msg → Run (Server C)
  unfolding tpe_util_parse_packet build_answer last_option build_on
  jones_order_insert_cb find server msg =
      if str_eq msg.type "MsgOrder"
      then (tpe_util_parse_packet msg.body build_format >>= λ parsed.
          build_answer parsed.values >>= λ answer.
          let frigate = last_option frigate_name (options_read answer) 0 in
          let battleship = last_option battleship_name (options_read answer) 0 in
          if frigate == 0 || battleship == 0
          then exited
          else (build_on malloc ods server (find answer.oid) kill_fleet (ship_args battleship 7)
              >>= λ server'.
                  build_on malloc ods server' (find answer.oid) col_fleet (ship_args frigate 1)))
      else exited
