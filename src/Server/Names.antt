-- ===== src/Server/Names.antt =====
-- The table of message types of server.c, and the two searches through it: `server_send` looks up
-- the number of a name, `server_handle_packet` the name of a number.
pub mod Laws
use Prim.Native.String.{String}
use text.Mathlib.Text.{◌==◌ as str_eq}
use galaxie.Prelude.{
  ℕ, Bool, true, false, ◌||◌, Option, none, some, List, [], ◌∷◌, ◌==◌, if◌then◌else◌,
}

-- `struct msgname`; `none` is -1.
pub record MsgName : Type 0 where
  pub name : String
  pub tp03 : Option ℕ
  pub tp04 : Option ℕ

-- A row with one number for both protocols, and a row of TP04 only.
abbrev both : ℕ → String → MsgName
both n name = record { name = name; tp03 = some n; tp04 = some n }

abbrev tp04_only : ℕ → String → MsgName
tp04_only n name = record { name = name; tp03 = none; tp04 = some n }

unfoldable pub msgnames : List MsgName
msgnames =
    both 0 "MsgOK"
    ∷ both 1 "MsgFail"
    ∷ both 2 "MsgSEQUENCE"
    ∷ both 3 "MsgConnect"
    ∷ both 4 "MsgLogin"
    ∷ both 5 "MsgGetObjectsByID"
    ∷ both 6 "MsgUNUSED1"
    ∷ both 7 "MsgObject"
    ∷ both 8 "MsgGetOrderDescription"
    ∷ both 9 "MsgOrderDescription"
    ∷ both 10 "MsgGetOrder"
    ∷ both 11 "MsgOrder"
    ∷ both 12 "MsgInsertOrder"
    ∷ both 13 "MsgRemoveOrder"
    ∷ both 14 "MsgGetTimeRemaining"
    ∷ both 15 "MsgTimeRemaining"
    ∷ both 16 "MsgGetBoards"
    ∷ both 17 "MsgBoard"
    ∷ both 18 "MsgMessageGet"
    ∷ both 19 "MsgMessage"
    ∷ both 20 "MsgPOST_MESSAGE"
    ∷ both 21 "MsgREMOVE_MESSAGE"
    ∷ both 22 "MsgGetResourceDescription"
    ∷ both 23 "MsgResourceDescription"
    ∷ both 24 "MsgREDIRECT"
    ∷ both 25 "MsgGetFeatures"
    ∷ both 26 "MsgAvailableFeatures"
    ∷ both 27 "MsgPING"
    ∷ both 28 "MsgGetObjectIDs"
    ∷ both 29 "MsgGET_OBJECT_IDS_BY_POSITION"
    ∷ both 30 "MsgGET_OBJECT_IDS_BY_CONTAINER"
    ∷ both 31 "MsgListOfObjectIDs"
    ∷ both 32 "MsgGetOrderDescriptionIDs"
    ∷ both 33 "MsgOrderDescriptionIDs"
    ∷ both 34 "MsgProbeOrder"
    ∷ both 35 "MsgGetBoardIDs"
    ∷ both 36 "MsgListOfBoards"
    ∷ both 37 "MsgGetResourceDescriptionIDs"
    ∷ both 38 "MsgListOfResourceDescriptionsIDs"
    ∷ both 39 "MsgGetPlayerData"
    ∷ both 40 "MsgPlayerData"
    ∷ both 41 "MsgGET_CATEGORY"
    ∷ both 42 "MsgCATEGORY"
    ∷ both 43 "MsgADD_CATEGORY"
    ∷ both 44 "MsgREMOVE_CATEGORY"
    ∷ both 45 "MsgGET_CATEGORY_IDS"
    ∷ both 46 "MsgLIST_OF_CATEGORY_IDS"
    ∷ both 47 "MsgGetDesign"
    ∷ both 48 "MsgDesign"
    ∷ both 49 "MsgADD_DESIGN"
    ∷ both 50 "MsgMODIFY_DESIGN"
    ∷ both 51 "MsgREMOVE_DESIGN"
    ∷ both 52 "MsgGetDesignIDs"
    ∷ both 53 "MsgListOfDesignIDs"
    ∷ both 54 "MsgGET_COMPONENT"
    ∷ both 55 "MsgCOMPONENT"
    ∷ both 56 "MsgGET_COMPONENT_IDS"
    ∷ both 57 "MsgLIST_OF_COMPONENT_IDS"
    ∷ both 58 "MsgGET_PROPERTY"
    ∷ both 59 "MsgPROPPERY"
    ∷ both 60 "MsgGET_PROPERTY_IDS"
    ∷ both 61 "MsgLIST_OF_PROPERTY_IDS"
    ∷ both 62 "MsgCreateAccount"
    ∷ tp04_only 63 "MsgFINISHED_TURN"
    ∷ tp04_only 64 "MsgSET_FILTERS"
    ∷ tp04_only 65 "MsgGetGames"
    ∷ tp04_only 66 "MsgGames"
    ∷ tp04_only 67 "MsgGetObjectDescriptions"
    ∷ tp04_only 68 "MsgObjectDescription"
    ∷ tp04_only 69 "MsgGetObjectDescriptionIDs"
    ∷ tp04_only 70 "MsgListOfObjectDescriptionIDs"
    ∷ tp04_only 71 "MsgMODIFY_OBJECT"
    ∷ []

-- The number that `server_send` takes from a row: an unknown protocol has TP04's number where the
-- row has one of TP03.
unfoldable pub row_type : ℕ → MsgName → Option ℕ
row_type protocol e =
    if protocol == 3
    then e.tp03
    else if protocol == 4
    then e.tp04
    else elim e.tp03 [ some _ ↦ e.tp04 | none ↦ e.tp03 ]

-- The search of `server_send`. The outer `none` is a name that no row has.
unfoldable pub type_in : List MsgName → ℕ → String → Option (Option ℕ)
type_in [] protocol name = none
type_in (e ∷ es) protocol name =
    if str_eq name e.name then some (row_type protocol e) else type_in es protocol name

abbrev is_type : Option ℕ → ℕ → Bool
is_type none type = false
is_type (some n) type = n == type

-- The search of `server_handle_packet`.
unfoldable event_in : List MsgName → ℕ → Option String
event_in [] type = none
event_in (e ∷ es) type =
    if is_type e.tp03 type || is_type e.tp04 type then some e.name else event_in es type

unfoldable pub type_of : ℕ → String → Option (Option ℕ)
unfolding type_in row_type msgnames
type_of protocol name = type_in msgnames protocol name

unfoldable pub event_of : ℕ → Option String
unfolding event_in msgnames
event_of type = event_in msgnames type
