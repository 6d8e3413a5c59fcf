-- ===== src/Comm/Login.antt =====
-- The steps of a connection of tpe_comm.c: the socket is connected, packets with a sequence number
-- are answered, the timer asks for the time.
pub mod Safety
pub mod Handshake
use galaxie.Prelude.{ℕ, ◌<◌, ◌≡◌, Bool, true, false, Option, List, if◌then◌else◌}
use galaxie.Run.{Run, ok, ◌>>=◌}
use galaxie.Server.{Msg, Server}
use galaxie.Server.Send.{Reply, connected, server_send}
use galaxie.Server.Dispatch.{sends, answered}
use galaxie.Comm.{
  Connect, CommCb, comm_call, tpe_comm_connect, tpe_comm_socket_connect, tpe_comm_get_time,
}

-- `conncb` says that the callback of `server_connect` is still to be called.
pub record Session : Type 0 where
  pub connect : Connect
  pub server : Server CommCb
  pub conncb : Bool

abbrev pub opened : Option (List ℕ) → List ℕ → List ℕ → Session
opened game user pass = record {
  connect = tpe_comm_connect game user pass;
  server = connected;
  conncb = true;
}

-- `null_int` says whether the host reads the int 0 as NULL.
module _ (malloc : ℕ → List ℕ) (null_int : Bool) where
  -- The end of `server_con_event_server_add`.
  unfoldable pub socket_connected : Session → Run Session
  unfolding sends tpe_comm_socket_connect
  socket_connected s =
      if s.conncb
      then (sends (comm_call malloc null_int) s.server tpe_comm_socket_connect >>= λ server.
          ok (record s { server = server; conncb = false }))
      else ok s

  unfoldable pub packet_answered : ℕ → Session → Msg → Run Session
  unfolding answered
  packet_answered fuel s m =
      answered (comm_call malloc null_int) fuel s.connect s.server m >>= λ out.
      ok (record s { connect = out.0; server = out.1 })

  -- `server_send` with the timer's request.
  unfoldable pub time_asked : Session → Run Session
  unfolding tpe_comm_get_time
  time_asked s = server_send s.server tpe_comm_get_time >>= λ out. ok (record s { server = out.0 })

  pub data Step (s : Session) : Session → Type 0 where
    connects : (s' : Session) → socket_connected s ≡ ok s' → Step s s'
    answers : (fuel : ℕ) (m : Msg) (s' : Session) → packet_answered fuel s m ≡ ok s' → Step s s'
    asks_time : (s' : Session) → 0 < s.connect.timers → time_asked s ≡ ok s' → Step s s'

  pub data Reachable (game : Option (List ℕ)) (user pass : List ℕ) : Session → Type 0 where
    start : Reachable game user pass (opened game user pass)
    next : (s s' : Session) → Reachable game user pass s → Step s s' → Reachable game user pass s'
