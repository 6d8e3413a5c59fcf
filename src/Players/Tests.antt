-- ===== src/Players/Tests.antt =====
-- The theorem on the ships of Smith at an answer to a probe.
use galaxie.Prelude.{ℕ, suc, ◌≡◌, arith, none, List, [], ◌∷◌, ◌++◌, length-replicate, replicate}
use galaxie.Run.{ok, ◌>>=◌}
use galaxie.Wire.{minus_one, be32}
use galaxie.Server.{Server}
use galaxie.Server.Send.{server_send, connected}
use galaxie.Server.Format.{str_chunk}
use galaxie.Orders.Insert.Laws.{order_head}
use galaxie.Players.Smith.{Smith}
use galaxie.Players.Smith.Build.{BuildAnswer, shipnames, order_ship}
use galaxie.Decimal.{digits, decimal}
use galaxie.Players.Smith.Requests.{order_ship-request}

abbrev blocks : ℕ → List ℕ
blocks n = replicate n 0

abbrev server : Server ℕ
server = connected

abbrev smith : Smith
smith = record { build_id = 2; shipid = 41 }

abbrev answer : BuildAnswer
answer = record { oid = 6; noptions = 0; options = []; maxstr = 12 }

order_ship-request_example : order_ship blocks 3 smith server answer 8 ≡ (
    server_send server (record {
      type = "MsgInsertOrder";
      cb = none;
      body = order_head 6 minus_one 2 (
          be32 0
          ++ (be32 1
              ++ (be32 8
                  ++ (be32 1
                      ++ (be32 0
                          ++ (str_chunk
                              (b'C' ∷ b'o' ∷ b'l' ∷ b'o' ∷ b'n' ∷ b'i' ∷ b'a' ∷ b'l' ∷ b' ' ∷ b'#'
                                ∷ b'4' ∷ [])
                              []).bytes)))));
    })
    >>= λ out. ok (record smith { shipid = suc 41 }, out.0))
unfolding shipnames digits decimal
order_ship-request_example =
    order_ship-request blocks (λ n. length-replicate n 0) 3 smith server answer 8 (omega arith)
