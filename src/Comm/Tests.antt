-- ===== src/Comm/Tests.antt =====
-- The theorems on connections at concrete connections and messages.
use Prim.Native.String.{String}
use galaxie.Prelude.{
  ℕ, ◌≡◌, refl, arith, true, false, Option, some, List, [], ◌∷◌, All, replicate, length-replicate,
}
use galaxie.Run.{ok, ◌>>=◌}
use galaxie.Server.{Msg}
use galaxie.Comm.{tpe_comm_connect}
use galaxie.Comm.Login.{Session, opened, socket_connected, packet_answered, start, next, connects}
use galaxie.Comm.Login.Safety.{IsNoCreate, Reachable-IsNoCreate}
use galaxie.Comm.Login.Handshake.{
  in_game, in_game_server, cut_name, greeted, connected_lem, handshake,
}

abbrev blocks : ℕ → List ℕ
blocks n = replicate n 0

abbrev user : List ℕ
user = b'n' ∷ b'a' ∷ b's' ∷ b'h' ∷ []

abbrev pass : List ℕ
pass = b'p' ∷ b'w' ∷ []

abbrev game : Option (List ℕ)
game = some (b't' ∷ b'p' ∷ [])

abbrev answer : String → ℕ → Msg
answer type seq = record { type = type; seq = seq; len = 0; protocol = 4; body = [] }

handshake_example :
    (socket_connected blocks true (opened game user pass) >>= λ s₁.
    packet_answered blocks true 6 s₁ (answer "MsgOK" 2) >>= λ s₂.
    packet_answered blocks true 6 s₂ (answer "MsgOK" 4))
    ≡ ok (record {
      connect = in_game (tpe_comm_connect game user pass);
      server = in_game_server (cut_name game user) pass;
      conncb = false;
    })
handshake_example =
    handshake blocks (λ n. length-replicate n 0) 6 game user pass (answer "MsgOK" 2)
      (answer "MsgOK" 4) (omega arith) (omega arith) refl refl refl

abbrev after_greeting : Session
after_greeting = record (opened game user pass) { conncb = false; server = greeted }

Reachable-IsNoCreate_example : All IsNoCreate after_greeting.server.sent
Reachable-IsNoCreate_example = Reachable-IsNoCreate blocks true game user pass after_greeting (
    next (opened game user pass) after_greeting start
      (connects after_greeting (connected_lem blocks (λ n. length-replicate n 0) game user pass)))
