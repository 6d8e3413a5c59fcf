-- ===== src/Players/Smith/Build.antt =====
-- ai_smith.c: the answer to the probe, and the order to build a ship.
use text.Mathlib.Text.{◌==◌ as str_eq}
use galaxie.Prelude.{
  ℕ, suc, ◌-◌, ◌%◌, ◌||◌, Option, none, some, List, [], ◌∷◌, ◌++◌, ◌==◌, if◌then◌else◌, ltb, take,
  get_or, bytes_eq,
}
use galaxie.Decimal.{digits}
use galaxie.Run.{Run, ok, undefined, ◌>>=◌}
use galaxie.Wire.{minus_one, is_negative}
use galaxie.Parse.Fields.{Value, int, build, options, ArgType6}
use galaxie.Parse.Packet.{tpe_util_parse_packet}
use galaxie.Server.{Server, Msg}
use galaxie.Server.Format.{int as int_arg, str, server_send_format}
use galaxie.Players.Smith.{Smith}

-- What the answer to a probe of "BuildFleet" stores, less what is not read.
pub record BuildAnswer : Type 0 where
  pub oid : ℕ
  pub noptions : ℕ
  pub options : List ArgType6
  pub maxstr : ℕ

-- The format "iiiiB6i".
abbrev pub build_format : List ℕ
build_format = b'i' ∷ b'i' ∷ b'i' ∷ b'i' ∷ b'B' ∷ b'6' ∷ b'i' ∷ []

unfoldable pub build_answer : List Value → Run BuildAnswer
build_answer
      (int oid
        ∷ int slot
        ∷ int type
        ∷ int turns
        ∷ build nbr br
        ∷ options n opts
        ∷ int maxstr
        ∷ []) =
    ok (record { oid = oid; noptions = n; options = opts; maxstr = maxstr })
build_answer _ = undefined

abbrev pub frigate_name : List ℕ
frigate_name = b'F' ∷ b'r' ∷ b'i' ∷ b'g' ∷ b'a' ∷ b't' ∷ b'e' ∷ []

-- The number of the first ship of a name.
unfoldable pub find_option : List ℕ → List ArgType6 → Option ℕ
find_option name [] = none
find_option name (o ∷ os) =
    let rest = find_option name os in if bytes_eq o.name name then some o.id else rest

-- The loop, which a negative number of ships never enters: `i` is not that number then.
unfoldable find_frigate : BuildAnswer → Option ℕ
unfolding find_option
find_frigate answer =
    if is_negative answer.noptions then some 0 else find_option frigate_name answer.options

unfoldable pub shipnames : List (List ℕ)
shipnames =
    (b'E' ∷ b'n' ∷ b'd' ∷ b'e' ∷ b'a' ∷ b'v' ∷ b'o' ∷ b'u' ∷ b'r' ∷ [])
    ∷ (b'S' ∷ b'p' ∷ b'o' ∷ b'r' ∷ b'e' ∷ [])
    ∷ (b'M' ∷ b'a' ∷ b'y' ∷ b'f' ∷ b'l' ∷ b'o' ∷ b'w' ∷ b'e' ∷ b'r' ∷ [])
    ∷ (b'C' ∷ b'o' ∷ b'l' ∷ b'o' ∷ b'n' ∷ b'i' ∷ b'a' ∷ b'l' ∷ [])
    ∷ (b'V' ∷ b'a' ∷ b'n' ∷ b'q' ∷ b'u' ∷ b'i' ∷ b's' ∷ b'h' ∷ [])
    ∷ (b'V' ∷ b'i' ∷ b'c' ∷ b't' ∷ b'o' ∷ b'r' ∷ b'y' ∷ [])
    ∷ (b'S' ∷ b'i' ∷ b'r' ∷ b'i' ∷ b'u' ∷ b's' ∷ [])
    ∷ []

-- `maxstr` after its check; a negative number is a bit pattern above 100.
unfoldable pub name_size : ℕ → ℕ
name_size maxstr = if ltb 100 maxstr || maxstr == 0 then 30 else maxstr

-- `snprintf(str, maxstr, "%s #%d", shipnames[r % N_SHIPNAMES], shipid)`: the bytes before the NUL.
unfoldable pub ship_name : ℕ → ℕ → ℕ → List ℕ
unfolding shipnames digits
ship_name maxstr r shipid =
    take (maxstr - 1) (get_or shipnames (r % 7) [] ++ (b' ' ∷ b'#' ∷ digits 10 shipid))

-- The format "iii000iii0s".
abbrev pub insert_format : List ℕ
insert_format = b'i' ∷ b'i' ∷ b'i' ∷ b'0' ∷ b'0' ∷ b'0' ∷ b'i' ∷ b'i' ∷ b'i' ∷ b'0' ∷ b's' ∷ []

module _ {C : Type 0} (malloc : ℕ → List ℕ) where
  -- The request for one ship.
  unfoldable pub order_ship : ℕ → Smith → Server C → BuildAnswer → ℕ → Run (Smith × Server C)
  unfolding name_size ship_name
  order_ship r smith server answer frigate =
      if smith.shipid == 0x7fff_ffff
      then undefined
      else (server_send_format malloc server "MsgInsertOrder" none insert_format (
            int_arg answer.oid
            ∷ int_arg minus_one
            ∷ int_arg smith.build_id
            ∷ int_arg 1
            ∷ int_arg frigate
            ∷ int_arg 1
            ∷ str (some (ship_name (name_size answer.maxstr) r smith.shipid))
            ∷ [])
          >>= λ out. ok (record smith { shipid = suc smith.shipid }, out.0))

  -- `r` is what `rand` returns.
  unfoldable smith_order_insert_cb : ℕ → Smith → Server C → Msg → Run (Smith × Server C)
  unfolding tpe_util_parse_packet build_answer find_frigate order_ship
  smith_order_insert_cb r smith server msg =
      if str_eq msg.type "MsgFail"
      then ok (smith, server)
      else (tpe_util_parse_packet msg.body build_format >>= λ parsed.
          build_answer parsed.values >>= λ answer. elim (find_frigate answer) [
            | none ↦ ok (smith, server)
            | some frigate ↦ order_ship r smith server answer frigate
          ])
