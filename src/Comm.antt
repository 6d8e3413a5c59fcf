-- ===== src/Comm.antt =====
-- tpe_comm.c: a connection from the socket to the login. Its other handlers are in Notices; the
-- steps of a connection in Login.
pub mod Notices
pub mod Login
mod Tests
use Prim.Native.String.{String}
use text.Mathlib.Text.{◌==◌ as str_eq}
use galaxie.Prelude.{
  ℕ, ◌+◌, Bool, true, false, not, ◌&&◌, Option, none, some, List, [], ◌∷◌, ◌++◌, take, leb,
  if◌then◌else◌,
}
use galaxie.Run.{Run, ok, exited, aborted, undefined, ◌>>=◌}
use galaxie.Parse.Fields.{Value, int as int_value, long as long_value, str as str_value}
use galaxie.Parse.Packet.{tpe_util_parse_packet}
use galaxie.Server.{Msg}
use galaxie.Server.Send.{Request, strings_body}
use galaxie.Server.Format.{int, str, format_body}

-- The callbacks that wait for an answer.
pub data CommCb : Type 0 where
  may_login logged_in create_account_cb player_id : CommCb

-- `struct connect`, less what only the sockets use; and of the rest of the program the events that
-- were sent, oldest first, the number of timers that run `tpe_comm_get_time`, and the player of
-- `struct tpe`. A string that is NULL is `none`.
pub record Connect : Type 0 where
  pub user : List ℕ
  pub pass : List ℕ
  pub game : Option (List ℕ)
  pub triedcreate : Bool
  pub accountregister : Bool
  pub told : List String
  pub timers : ℕ
  pub player : ℕ
  pub racename : Option (List ℕ)
  pub playername : Option (List ℕ)

unfoldable pub tpe_comm_connect : Option (List ℕ) → List ℕ → List ℕ → Connect
tpe_comm_connect game user pass = record {
  user = user;
  pass = pass;
  game = game;
  triedcreate = false;
  accountregister = false;
  told = "ConnectStart" ∷ [];
  timers = 0;
  player = 0;
  racename = none;
  playername = none;
}

unfoldable pub tpe_comm_socket_connect : List (Request CommCb)
unfolding strings_body
tpe_comm_socket_connect =
    record {
      type = "MsgConnect";
      cb = some may_login;
      body = strings_body ((b'G' ∷ b'a' ∷ b'l' ∷ b'a' ∷ b'x' ∷ b'i' ∷ b'E' ∷ []) ∷ []);
    }
    ∷ []

-- What `snprintf` leaves in the buffer of 100 bytes, before the NUL.
unfoldable pub login_name : Connect → List ℕ
login_name c = take 99 (elim c.game [ some game ↦ c.user ++ (b'@' ∷ game) | none ↦ c.user ])

unfoldable pub login : Connect → Request CommCb
unfolding login_name strings_body
login c = record {
  type = "MsgLogin";
  cb = some logged_in;
  body = strings_body (login_name c ∷ c.pass ∷ []);
}

-- The strings of the login end with the int 0 where `server_send_strings` reads a `char *`, which C
-- leaves undefined: `null_int` says whether the host reads NULL there.
unfoldable pub tpe_comm_may_login : Bool → Connect → Run (List (Request CommCb))
unfolding login
tpe_comm_may_login null_int c =
    if null_int
    then ok (record { type = "MsgGetFeatures"; cb = none; body = [] } ∷ login c ∷ [])
    else undefined

unfoldable pub tpe_comm_get_time : Request CommCb
tpe_comm_get_time = record { type = "MsgGetTimeRemaining"; cb = none; body = [] }

-- What the format "issl" stores.
unfoldable pub player_values : List Value → Run (ℕ × List ℕ × List ℕ)
player_values
      (int_value player ∷ str_value racename ∷ str_value playername ∷ long_value modtime ∷ []) =
    ok (player, racename, playername)
player_values _ = undefined

module _ (malloc : ℕ → List ℕ) where
  unfoldable tpe_comm_create_account : Connect → Run (Connect × List (Request CommCb))
  unfolding format_body
  tpe_comm_create_account c =
      format_body malloc (b's' ∷ b's' ∷ b's' ∷ b's' ∷ []) (
        str (some c.user)
        ∷ str (some c.pass)
        ∷ str (some [])
        ∷ str (
            some (
              b'A' ∷ b'n' ∷ b'o' ∷ b't' ∷ b'h' ∷ b'e' ∷ b'r' ∷ b' ' ∷ b's' ∷ b'a' ∷ b't' ∷ b'i'
              ∷ b's' ∷ b'f' ∷ b'i' ∷ b'e' ∷ b'd' ∷ b' ' ∷ b'G' ∷ b'a' ∷ b'l' ∷ b'a' ∷ b'x' ∷ b'i'
              ∷ b'E' ∷ b' ' ∷ b'u' ∷ b's' ∷ b'e' ∷ b'r' ∷ b'.' ∷ []))
        ∷ [])
      >>= λ body. ok (
        record c { triedcreate = true },
        record { type = "MsgCreateAccount"; cb = some create_account_cb; body = body } ∷ [],
      )

  unfoldable pub tpe_comm_logged_in : Connect → Msg → Run (Connect × List (Request CommCb))
  unfolding tpe_comm_create_account tpe_comm_get_time format_body
  tpe_comm_logged_in c msg =
      if str_eq msg.type "MsgFail"
      then (if not c.triedcreate && c.accountregister then tpe_comm_create_account c else exited)
      else (format_body malloc (b'i' ∷ b'0' ∷ []) (int 1 ∷ []) >>= λ body. ok (
        record c { told = c.told ++ ("Connected" ∷ []); timers = c.timers + 1 },
        tpe_comm_get_time
            ∷ record { type = "MsgGetPlayerData"; cb = some player_id; body = body }
            ∷ [],
      ))

unfoldable tpe_comm_create_account_cb : Connect → Msg → List (Request CommCb)
unfolding login
tpe_comm_create_account_cb c msg = if str_eq msg.type "MsgFail" then [] else login c ∷ []

-- Each round of the loop that prints reads the word at `len / 4`, which is behind the message.
unfoldable pub tpe_comm_msg_player_id : Connect → Msg → Run Connect
unfolding tpe_util_parse_packet player_values
tpe_comm_msg_player_id c msg =
    if str_eq msg.type "MsgFail"
    then aborted
    else if str_eq msg.type "MsgSEQUENCE"
    then ok c
    else if leb 4 msg.len
    then undefined
    else (tpe_util_parse_packet msg.body (b'i' ∷ b's' ∷ b's' ∷ b'l' ∷ []) >>= λ parsed.
        player_values parsed.values >>= λ p.
        ok (record c { player = p.0; racename = some p.1; playername = some p.2 }))

module _ (malloc : ℕ → List ℕ) (null_int : Bool) where
  -- `cb->cb(cb->userdata, msg)`
  unfoldable pub comm_call : Connect → CommCb → Msg → Run (Connect × List (Request CommCb))
  unfolding tpe_comm_may_login tpe_comm_logged_in tpe_comm_create_account_cb tpe_comm_msg_player_id
  comm_call c may_login msg = tpe_comm_may_login null_int c >>= λ requests. ok (c, requests)
  comm_call c logged_in msg = tpe_comm_logged_in malloc c msg
  comm_call c create_account_cb msg = ok (c, tpe_comm_create_account_cb c msg)
  comm_call c player_id msg = tpe_comm_msg_player_id c msg >>= λ c'. ok (c', [])
