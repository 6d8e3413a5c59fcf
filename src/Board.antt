-- ===== src/Board.antt =====
-- tpe_board.c: the boards of a game, the slots of their messages, and what is read of them.
-- Memory is never short: the branches for a failed talloc call are left out.
pub mod Slots
pub mod Receive
pub mod Turns
mod Tests
use galaxie.Prelude.{
  ℕ, zero, suc, ◌+◌, ◌-◌, Option, none, some, List, [], ◌∷◌, ◌++◌, length, drop, replicate, ltb,
  leb, ◌==◌, ◌&&◌, not, Bool, if◌then◌else◌,
}
use galaxie.Run.{Run, ok, aborted, undefined, ◌>>=◌}
use galaxie.Wire.{be32}
use galaxie.Server.{Server}
use galaxie.Server.Send.{Request, server_send}
use galaxie.Parse.Fields.{Value, Reference, int, long, str}
use galaxie.Parse.Packet.{tpe_util_parse_packet}

-- `struct message`
pub record Message : Type 0 where
  pub board : ℕ
  pub slot : ℕ
  pub unread : ℕ
  pub title : List ℕ
  pub body : List ℕ
  pub turn : ℕ
  pub references : List Reference

-- `struct board`; `messages` is the array of that name, and NULL is `none`.
pub record Board : Type 0 where
  pub oid : ℕ
  pub name : Option (List ℕ)
  pub description : Option (List ℕ)
  pub nmessages : ℕ
  pub updated : ℕ
  pub messages : List (Option Message)
  pub nalloced : ℕ
  pub unread : ℕ
  pub received : ℕ

-- `struct board_update`, the data of the event "BoardUpdate".
pub record BoardUpdate : Type 0 where
  pub id : ℕ
  pub name : Option (List ℕ)
  pub desc : Option (List ℕ)
  pub messages : ℕ
  pub unread : ℕ

unfoldable pub tpe_board_board_get_by_id : List Board → ℕ → Option Board
tpe_board_board_get_by_id [] oid = none
tpe_board_board_get_by_id (b ∷ bs) oid =
    if b.oid == oid then some b else tpe_board_board_get_by_id bs oid

unfoldable tpe_board_board_updated_get : List Board → ℕ → ℕ
unfolding tpe_board_board_get_by_id
tpe_board_board_updated_get bs oid = elim (tpe_board_board_get_by_id bs oid) [
  | some b ↦ b.updated
  | none ↦ 0
]

-- What the assignments through a pointer to a board leave in the list.
unfoldable pub stored : List Board → Board → List Board
stored [] b = []
stored (c ∷ bs) b = if c.oid == b.oid then b ∷ bs else c ∷ stored bs b

abbrev pub empty_board : ℕ → Board
empty_board oid = record {
  oid = oid;
  name = none;
  description = none;
  nmessages = 0;
  updated = 0;
  messages = [];
  nalloced = 0;
  unread = 0;
  received = 0;
}

-- `eina_list_append` is called for its effect: `append` says what list the caller's pointer leads
-- to after the call.
unfoldable pub tpe_board_board_add :
    (List Board → Board → List Board) → List Board → ℕ → List Board × Board
tpe_board_board_add append bs oid = (append bs (empty_board oid), empty_board oid)

-- The board of a number, and the list with it.
unfoldable pub board_for : (List Board → Board → List Board) → List Board → ℕ → List Board × Board
unfolding tpe_board_board_get_by_id tpe_board_board_add
board_for append bs id = elim (tpe_board_board_get_by_id bs id) [
  | some b ↦ (bs, b)
  | none ↦ tpe_board_board_add append bs id
]

-- The numbers `n`, `n + 1`, ... of new slots.
unfoldable slot_words : ℕ → ℕ → List ℕ
slot_words zero n = []
slot_words (suc k) n = be32 n ++ slot_words k (n + 1)

-- The array `toget`: the board, the number of slots, and the slots.
unfoldable message_request : ℕ → ℕ → ℕ → List ℕ
unfolding slot_words
message_request id ntoget nalloced = be32 id ++ (be32 ntoget ++ slot_words ntoget nalloced)

-- What the format "issil" stores for a board.
pub record Description : Type 0 where
  pub id : ℕ
  pub name : List ℕ
  pub description : List ℕ
  pub nmessages : ℕ
  pub updated : ℕ

unfoldable pub description : List Value → Run Description
description (int id ∷ str name ∷ str desc ∷ int nmessages ∷ long updated ∷ []) =
    ok (record {
      id = id;
      name = name;
      description = desc;
      nmessages = nmessages;
      updated = updated;
    })
description _ = undefined

abbrev pub described : Board → Description → Board
described b d = record b {
  name = some d.name;
  description = some d.description;
  nmessages = d.nmessages;
  updated = d.updated;
}

unfoldable pub first_int : List Value → Run ℕ
first_int (int id ∷ []) = ok id
first_int _ = undefined

-- The slots that the server has and the board has not: NULL, and asked for. `talloc_realloc` finds
-- memory, and frees the array where it is asked for no slots: it returns NULL, and the handler -1; the
-- board, whose `messages` leads to nothing then, is given no slots here, and is undefined with any from
-- then on. A board that shrinks to less slots writes behind the end of `toget`.
module _ {C : Type 0} where
  unfoldable pub request_new : Server C → ℕ → Board → Run (Server C × Board)
  unfolding message_request server_send
  request_new server id b =
      if not (length b.messages == b.nalloced) && not (b.nmessages == 0)
      then undefined
      else if b.nmessages == b.nalloced
      then ok (server, b)
      else if b.nmessages == 0
      then ok (server, record b { messages = [] })
      else if ltb b.nmessages b.nalloced
      then undefined
      else (server_send server (record {
        type = "MsgMessageGet";
        cb = none;
        body = message_request id (b.nmessages - b.nalloced) b.nalloced;
      })
          >>= λ out. ok (
            out.0,
            record b {
              messages = b.messages ++ replicate (b.nmessages - b.nalloced) none;
              nalloced = b.nmessages;
            },
          ))

  unfoldable pub tpe_board_msg_board_receive :
      (List Board → Board → List Board)
      → List Board
      → Server C
      → List ℕ
      → Run (List Board × Server C)
  unfolding board_for tpe_util_parse_packet description request_new stored first_int
  tpe_board_msg_board_receive append bs server body =
      tpe_util_parse_packet body (b'i' ∷ []) >>= λ first. first_int first.values >>= λ id.
      let found = board_for append bs id in
      tpe_util_parse_packet body (b'i' ∷ b's' ∷ b's' ∷ b'i' ∷ b'l' ∷ []) >>= λ parsed.
      description parsed.values >>= λ d.
      request_new server d.id (described found.1 d) >>= λ out. ok (stored found.0 out.1, out.0)
