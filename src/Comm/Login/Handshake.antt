-- ===== src/Comm/Login/Handshake.antt =====
-- A connection that the server does not refuse.
use text.Mathlib.Text.{◌==◌ as str_eq}
use galaxie.Prelude.{
  ℕ, ◌+◌, ◌<◌, ◌≤◌, ◌≡◌, refl, arith, leb, ◌==◌, false, true, Option, none, some, List, [], ◌∷◌,
  ◌++◌, length, length-append, length-take, take, Bool-cases, inl, inr,
}
use galaxie.Run.{ok, ◌>>=◌}
use galaxie.Wire.{be32}
use galaxie.Server.{Msg, Server, ServerCb}
use galaxie.Server.Names.{type_of}
use galaxie.Server.Send.{
  Request, done, connected, packet_bytes, server_send, server_sent, strings_body, total_strlen,
  string_bytes, next_seq, server_cb_add,
}
use galaxie.Server.Frames.{header_proto_4}
use galaxie.Server.Format.{int, chunk, int_case}
use galaxie.Server.Format.Passes.{wire, format_body_lem}
use galaxie.Server.Dispatch.{sends, answered}
use galaxie.Server.Dispatch.One.{answered_one}
use galaxie.Comm.{
  Connect, CommCb, may_login, logged_in, player_id, comm_call, tpe_comm_connect,
  tpe_comm_socket_connect, tpe_comm_get_time, tpe_comm_may_login, tpe_comm_logged_in, login,
  login_name,
}
use galaxie.Comm.Login.{opened, socket_connected, packet_answered}

server_send_lem :
    {C : Type 0} (s : Server C) (r : Request C) (t : ℕ)
    → length r.body < 100000
    → type_of s.protocol r.type ≡ some (some t)
    → server_send s r ≡ ok (server_sent s t r, done)
unfolding server_send
server_send_lem s r t l e =
    let small : leb 100000 (length r.body) ≡ false = ground (arith, l) in rw (small, e) refl

take_short {ℓ} : {A : Type ℓ} (n : ℕ) (xs : List A) → length (take n xs) ≤ n
take_short n xs = omega (arith, length-take n xs)

name_short : (c : Connect) → length (login_name c) ≤ 99
unfolding login_name
name_short c =
    take_short 99
      (elim c.game as (λ g. List ℕ) [ some game ↦ c.user ++ (b'@' ∷ game) | none ↦ c.user ])

login_fits : (c : Connect) → length c.pass < 90000 → length (login c).body < 100000
unfolding login strings_body string_bytes be32
login_fits c l = elim (Bool-cases (total_strlen (login_name c ∷ c.pass ∷ []) == 0)) [
  | inl t ↦ rw t (omega arith)
  | inr t ↦ rw t (
      omega (
        arith,
        l,
        name_short c,
        length-append (login_name c) (be32 (length c.pass) ++ (c.pass ++ [])),
        length-append c.pass [],
      ))
]

-- The packets of a connection, numbered from 2 on.
abbrev pub packet : ℕ → ℕ → List ℕ → List ℕ
packet seq type body = packet_bytes header_proto_4 seq type body

abbrev handshake_packets : List ℕ → List ℕ → List (List ℕ)
handshake_packets name pass =
    packet 2 3 (be32 7 ++ (b'G' ∷ b'a' ∷ b'l' ∷ b'a' ∷ b'x' ∷ b'i' ∷ b'E' ∷ []))
    ∷ packet 3 25 []
    ∷ packet 4 4 (strings_body (name ∷ pass ∷ []))
    ∷ packet 5 14 []
    ∷ packet 6 39 (be32 1 ++ be32 0)
    ∷ []

abbrev pub in_game : Connect → Connect
in_game c = record c { told = c.told ++ ("Connected" ∷ []); timers = c.timers + 1 }

-- The name that the login sends: what fits of the user's name, and the game's behind a @.
abbrev pub cut_name : Option (List ℕ) → List ℕ → List ℕ
cut_name none user = take 99 user
cut_name (some game) user = take 99 (user ++ (b'@' ∷ game))

login_name_lem :
    (game : Option (List ℕ)) (user pass : List ℕ)
    → login_name (tpe_comm_connect game user pass) ≡ cut_name game user
unfolding login_name tpe_comm_connect
login_name_lem none user pass = refl
login_name_lem (some game) user pass = refl

abbrev waiting : ℕ → Option CommCb → ServerCb CommCb
waiting seq cb = record { seq = seq; cb = cb; deleteme = false }

-- What the connection leaves behind when the login is answered.
abbrev pub in_game_server : List ℕ → List ℕ → Server CommCb
in_game_server name pass = record {
  seq = 6;
  cbs = waiting 3 none ∷ waiting 5 none ∷ waiting 6 (some player_id) ∷ [];
  header = header_proto_4;
  protocol = 4;
  sent = handshake_packets name pass;
}

abbrev pub greeted : Server CommCb
greeted = server_sent connected 3 (record {
  type = "MsgConnect";
  cb = some may_login;
  body = be32 7 ++ (b'G' ∷ b'a' ∷ b'l' ∷ b'a' ∷ b'x' ∷ b'i' ∷ b'E' ∷ []);
})

module _ (malloc : ℕ → List ℕ) (sized : (n : ℕ) → length (malloc n) ≡ n) where
  pub connected_lem :
      (game : Option (List ℕ)) (user pass : List ℕ)
      → socket_connected malloc true (opened game user pass)
        ≡ ok (record (opened game user pass) {
          conncb = false;
          server = server_sent connected 3 (record {
            type = "MsgConnect";
            cb = some may_login;
            body = be32 7 ++ (b'G' ∷ b'a' ∷ b'l' ∷ b'a' ∷ b'x' ∷ b'i' ∷ b'E' ∷ []);
          });
        })
  unfolding socket_connected sends tpe_comm_socket_connect server_send type_of be32 strings_body
      total_strlen string_bytes
  connected_lem game user pass = refl

  -- The request for the features has been sent, and that for the login.
  abbrev may_login_server : Server CommCb → Connect → Server CommCb
  may_login_server s c =
      server_sent (server_sent s 25 (record { type = "MsgGetFeatures"; cb = none; body = [] })) 4
        (login c)

  abbrev may_login_requests : Connect → List (Request CommCb)
  may_login_requests c = record { type = "MsgGetFeatures"; cb = none; body = [] } ∷ login c ∷ []

  login_sends :
      (s : Server CommCb) (c : Connect)
      → s.protocol ≡ 4
      → length c.pass < 90000
      → sends (comm_call malloc true) s (may_login_requests c) ≡ ok (may_login_server s c)
  unfolding sends server_sent server_cb_add type_of login
  login_sends s c p l =
      rw
        (
          server_send_lem s (record { type = "MsgGetFeatures"; cb = none; body = [] }) 25
              (omega arith) (ground (arith, p)),
          server_send_lem
              (server_sent s 25 (record { type = "MsgGetFeatures"; cb = none; body = [] }))
              (login c) 4 (login_fits c l) (ground (arith, p)),
        )
        refl

  may_login_lem :
      (fuel : ℕ) (c : Connect) (m : Msg)
      → m.seq ≡ 2
      → length c.pass < 90000
      → 3 < fuel
      → answered (comm_call malloc true) fuel c greeted m
        ≡ ok (c, may_login_server (record greeted { cbs = [] }) c)
  unfolding comm_call tpe_comm_may_login server_sent server_cb_add next_seq login
  may_login_lem fuel c m e l f =
      answered_one (comm_call malloc true) c c greeted
        (may_login_server (record greeted { cbs = [] }) c) m
        (record { seq = 2; cb = some may_login; deleteme = false }) may_login []
        (may_login_requests c) refl (login_sends (record greeted { cbs = [] }) c refl l)
        ((λ q. omega (arith, e, q), refl), ((λ q. omega (arith, e, q), refl), tt)) fuel []
        (λ q. omega (arith, e, q)) (omega (arith, e)) refl tt (omega (arith, f))

  abbrev get_player : Request CommCb
  get_player = record { type = "MsgGetPlayerData"; cb = some player_id; body = be32 1 ++ be32 0 }

  abbrev logged_in_server : Server CommCb → Server CommCb
  logged_in_server s = server_sent (server_sent s 14 tpe_comm_get_time) 39 get_player

  logged_in_call :
      (c : Connect) (m : Msg)
      → str_eq m.type "MsgFail" ≡ false
      → comm_call malloc true c logged_in m ≡ ok (in_game c, tpe_comm_get_time ∷ get_player ∷ [])
  unfolding comm_call tpe_comm_logged_in wire chunk int_case be32
  logged_in_call c m h =
      rw (h, format_body_lem malloc sized (b'i' ∷ b'0' ∷ []) (int 1 ∷ []) tt) refl

  time_sends :
      (s : Server CommCb)
      → s.protocol ≡ 4
      → sends (comm_call malloc true) s (tpe_comm_get_time ∷ get_player ∷ [])
        ≡ ok (logged_in_server s)
  unfolding sends server_sent server_cb_add type_of tpe_comm_get_time be32
  time_sends s p =
      rw
        (
          server_send_lem s tpe_comm_get_time 14 (omega arith) (ground (arith, p)),
          server_send_lem (server_sent s 14 tpe_comm_get_time) get_player 39 (omega arith)
              (ground (arith, p)),
        )
        refl

  logged_in_lem :
      (fuel : ℕ) (c : Connect) (m : Msg)
      → str_eq m.type "MsgFail" ≡ false
      → m.seq ≡ 4
      → 5 < fuel
      → answered (comm_call malloc true) fuel c (may_login_server (record greeted { cbs = [] }) c) m
        ≡ ok (in_game c, in_game_server (login_name c) c.pass)
  unfolding server_sent server_cb_add next_seq login tpe_comm_get_time
  logged_in_lem fuel c m h e f =
      answered_one (comm_call malloc true) c (in_game c)
        (may_login_server (record greeted { cbs = [] }) c)
        (logged_in_server (record (may_login_server (record greeted { cbs = [] }) c) { cbs = [] }))
        m (waiting 4 (some logged_in)) logged_in [] (tpe_comm_get_time ∷ get_player ∷ [])
        (logged_in_call c m h)
        (time_sends (record (may_login_server (record greeted { cbs = [] }) c) { cbs = [] }) refl)
        ((λ q. omega (arith, e, q), refl), ((λ q. omega (arith, e, q), refl), tt)) fuel
        (waiting 3 none ∷ []) (λ q. omega (arith, e, q)) (omega (arith, e)) refl
        ((λ q. omega (arith, e, q), refl), tt) (omega (arith, f))

  -- A connection with a password of fewer than 90,000 bytes, on a host that reads the int 0 as NULL
  -- where a `char *` is wanted, comes to its end: if the socket connects, the first request is
  -- answered and the login is not refused, then "Connected" is announced and the timer runs once, five
  -- packets have been sent, numbered from 2 on, and the answer to the last of them is awaited. The
  -- login holds the password and the user's name, with @ and the game's name behind it if there is one,
  -- cut to 99 bytes. That `malloc` gives blocks of the size asked for is assumed; fuel above 5 is
  -- enough.
  pub handshake :
      (fuel : ℕ) (game : Option (List ℕ)) (user pass : List ℕ) (accepted welcome : Msg)
      → 5 < fuel
      → length pass < 90000
      → accepted.seq ≡ 2
      → welcome.seq ≡ 4
      → str_eq welcome.type "MsgFail" ≡ false
      → (socket_connected malloc true (opened game user pass) >>= λ s₁.
          packet_answered malloc true fuel s₁ accepted >>= λ s₂.
          packet_answered malloc true fuel s₂ welcome)
        ≡ ok (record {
          connect = in_game (tpe_comm_connect game user pass);
          server = in_game_server (cut_name game user) pass;
          conncb = false;
        })
  unfolding packet_answered tpe_comm_connect
  handshake fuel game user pass accepted welcome f l e₁ e₂ h =
      let c = tpe_comm_connect game user pass in
      rw
        (
          connected_lem game user pass,
          may_login_lem fuel c accepted e₁ l (omega (arith, f)),
          logged_in_lem fuel c welcome h e₂ f,
          login_name_lem game user pass,
        )
        refl
