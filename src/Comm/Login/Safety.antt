-- ===== src/Comm/Login/Safety.antt =====
-- What no connection does.
use Prim.Native.String.{String}
use text.Mathlib.Text.{◌==◌ as str_eq}
use galaxie.Prelude.{
  Bool, ℕ, ◌<◌, ◌≡◌, ◌≢◌, refl, arith, leb, false, Option, some, List, [], ◌∷◌, All, Bool-cases,
  inl, inr,
}
use galaxie.Run.{Returns, >>=-Returns, Returns-ok}
use galaxie.Wire.{be32, word, of_be32}
use galaxie.Parse.Packet.{tpe_util_parse_packet}
use galaxie.Server.{Msg}
use galaxie.Server.Names.{type_of, type_in, row_type, msgnames}
use galaxie.Server.Send.{Request, packet_bytes, server_send}
use galaxie.Server.Format.{format_body, int}
use galaxie.Server.Dispatch.{sends, answered}
use galaxie.Server.Dispatch.Keeps.{
  Makes, IsSafe, IsKept, Good, server_send-IsSafe, sends-IsSafe, answered-IsKept,
}
use galaxie.Comm.{
  Connect, CommCb, may_login, logged_in, create_account_cb, player_id, comm_call, tpe_comm_connect,
  tpe_comm_socket_connect, tpe_comm_get_time, tpe_comm_may_login, tpe_comm_logged_in, login,
  tpe_comm_msg_player_id, player_values,
}
use galaxie.Comm.Login.{
  Session, Step, Reachable, connects, answers, asks_time, start, next, socket_connected,
  packet_answered, time_asked,
}

abbrev NoAccount : Connect → Type 0
NoAccount c = c.accountregister ≡ false

abbrev IsOther : CommCb → Type 0
IsOther may_login = Unit
IsOther logged_in = Unit
IsOther player_id = Unit
IsOther create_account_cb = ⊥

-- The packet is not one of the type 62, `MsgCreateAccount`.
abbrev pub IsNoCreate : List ℕ → Type 0
IsNoCreate p = word p 2 ≢ 62

abbrev IsNumber : ℕ → String → Type 0
IsNumber n type = (protocol t : ℕ) → type_of protocol type ≡ some (some t) → t ≡ n

-- The requests that a connection makes.
abbrev IsLogin : Request CommCb → Type 0
IsLogin r = Good IsOther r.cb × (n : ℕ) × (n < 62) × IsNumber n r.type

connect-IsNumber : IsNumber 3 "MsgConnect"
unfolding type_of type_in row_type msgnames
connect-IsNumber protocol t h = ground (arith, h)

login-IsNumber : IsNumber 4 "MsgLogin"
unfolding type_of type_in row_type msgnames
login-IsNumber protocol t h = ground (arith, h)

features-IsNumber : IsNumber 25 "MsgGetFeatures"
unfolding type_of type_in row_type msgnames
features-IsNumber protocol t h = ground (arith, h)

time-IsNumber : IsNumber 14 "MsgGetTimeRemaining"
unfolding type_of type_in row_type msgnames
time-IsNumber protocol t h = ground (arith, h)

player-IsNumber : IsNumber 39 "MsgGetPlayerData"
unfolding type_of type_in row_type msgnames
player-IsNumber protocol t h = ground (arith, h)

makes : Makes {W = Connect} NoAccount IsLogin IsOther IsNoCreate
unfolding packet_bytes be32 word of_be32
makes s r t (g, n, l, h) e = (λ q. omega (arith, q, l, h s.protocol t e), g)

login-IsLogin : (c : Connect) → IsLogin (login c)
unfolding login
login-IsLogin c = (tt, 4, omega arith, login-IsNumber)

abbrev IsFine : Connect × List (Request CommCb) → Type 0
IsFine out = NoAccount out.0 × All IsLogin out.1

module _ (malloc : ℕ → List ℕ) (null_int : Bool) where
  logged_in-IsFine :
      (c : Connect) (m : Msg) → NoAccount c → Returns IsFine (tpe_comm_logged_in malloc c m)
  unfolding tpe_comm_logged_in tpe_comm_get_time
  logged_in-IsFine c m h = elim (Bool-cases (str_eq m.type "MsgFail")) [
    | inl t ↦ rw (t, h) (ground arith)
    | inr t ↦ rw t (
        >>=-Returns IsFine (format_body malloc (b'i' ∷ b'0' ∷ []) (int 1 ∷ [])) _ (λ body e. (
          h,
          ((tt, 14, omega arith, time-IsNumber), ((tt, 39, omega arith, player-IsNumber), tt)),
        )))
  ]

  player_id-NoAccount :
      (c : Connect) (m : Msg) → NoAccount c → Returns NoAccount (tpe_comm_msg_player_id c m)
  unfolding tpe_comm_msg_player_id player_values
  player_id-NoAccount c m h = elim (Bool-cases (str_eq m.type "MsgFail")) [
    | inl t ↦ rw t tt
    | inr t ↦ elim (Bool-cases (str_eq m.type "MsgSEQUENCE")) [
      | inl u ↦ rw (t, u) h
      | inr u ↦ elim (Bool-cases (leb 4 m.len)) [
        | inl v ↦ rw (t, u, v) tt
        | inr v ↦
            rw (t, u, v)
              (>>=-Returns NoAccount (tpe_util_parse_packet m.body (b'i' ∷ b's' ∷ b's' ∷ b'l' ∷ []))
                _ (λ parsed e. >>=-Returns NoAccount (player_values parsed.values) _ (λ p e'. h)))
      ]
    ]
  ]

  calls :
      (c : Connect) (cb : CommCb) (m : Msg)
      → NoAccount c
      → IsOther cb
      → Returns IsFine (comm_call malloc null_int c cb m)
  unfolding comm_call tpe_comm_may_login
  calls c may_login m h g = elim (Bool-cases null_int) [
    | inl t ↦ rw t (h, ((tt, 25, omega arith, features-IsNumber), (login-IsLogin c, tt)))
    | inr t ↦ rw t tt
  ]
  calls c logged_in m h g = logged_in-IsFine c m h
  calls c player_id m h g =
      >>=-Returns IsFine (tpe_comm_msg_player_id c m) _
        (λ c' e. (Returns-ok NoAccount _ (player_id-NoAccount c m h) e, tt))
  calls c create_account_cb m h g = absurd g

  abbrev IsClean : Session → Type 0
  IsClean s = NoAccount s.connect × IsSafe IsOther IsNoCreate s.server

  socket-IsLogin : All IsLogin tpe_comm_socket_connect
  unfolding tpe_comm_socket_connect
  socket-IsLogin = ((tt, 3, omega arith, connect-IsNumber), tt)

  Step-IsClean : (s s' : Session) → IsClean s → Step malloc null_int s s' → IsClean s'
  unfolding socket_connected packet_answered time_asked tpe_comm_get_time
  Step-IsClean s _ (q, h) (connects s' e) =
      Returns-ok IsClean (socket_connected malloc null_int s)
        (elim (Bool-cases s.conncb) [
          | inl t ↦ rw t (
              >>=-Returns IsClean
                (sends (comm_call malloc null_int) s.server tpe_comm_socket_connect) _
                (λ server e'. (
                  q,
                  Returns-ok (IsSafe IsOther IsNoCreate) _
                      (sends-IsSafe NoAccount IsLogin IsOther IsNoCreate makes
                        (comm_call malloc null_int) s.server tpe_comm_socket_connect h
                        socket-IsLogin)
                      e',
                )))
          | inr t ↦ rw t (q, h)
        ])
        e
  Step-IsClean s _ (q, h) (answers fuel m s' e) =
      Returns-ok IsClean _
        (>>=-Returns IsClean (answered (comm_call malloc null_int) fuel s.connect s.server m) _
          (λ out e'.
            Returns-ok
              (IsKept NoAccount IsLogin IsOther IsNoCreate makes (comm_call malloc null_int)) _
              (answered-IsKept NoAccount IsLogin IsOther IsNoCreate makes
                (comm_call malloc null_int) calls fuel s.connect s.server m q h)
              e'))
        e
  Step-IsClean s _ (q, h) (asks_time s' l e) =
      Returns-ok IsClean (time_asked malloc null_int s)
        (>>=-Returns IsClean (server_send s.server tpe_comm_get_time) _ (λ out e'. (
          q,
          Returns-ok (λ o. IsSafe IsOther IsNoCreate o.0) _
              (server_send-IsSafe NoAccount IsLogin IsOther IsNoCreate makes s.server
                tpe_comm_get_time h (tt, 14, omega arith, time-IsNumber))
              e',
        )))
        e

  Reachable-IsClean :
      (game : Option (List ℕ)) (user pass : List ℕ) (s : Session)
      → Reachable malloc null_int game user pass s
      → IsClean s
  unfolding tpe_comm_connect
  Reachable-IsClean game user pass _ start = (refl, (tt, tt))
  Reachable-IsClean game user pass _ (next s s' r step) =
      Step-IsClean s s' (Reachable-IsClean game user pass s r) step

  -- Whatever packets arrive and in whatever order the socket, the packets and the timer have their
  -- turns: a connection never asks for an account.
  pub Reachable-IsNoCreate :
      (game : Option (List ℕ)) (user pass : List ℕ) (s : Session)
      → Reachable malloc null_int game user pass s
      → All IsNoCreate s.server.sent
  Reachable-IsNoCreate game user pass s r = (Reachable-IsClean game user pass s r).1.1
