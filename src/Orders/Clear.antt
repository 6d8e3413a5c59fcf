-- ===== src/Orders/Clear.antt =====
-- `tpe_orders_object_clear` of tpe_orders.c: all orders of an object are removed.
use galaxie.Prelude.{ℕ, zero, suc, none, List, [], ◌∷◌, ◌++◌, ◌==◌, if◌then◌else◌}
use galaxie.Run.{Run, ok, ◌>>=◌}
use galaxie.Wire.{be32}
use galaxie.Server.{Server}
use galaxie.Server.Send.{Reply, done, server_send}
use galaxie.Orders.Fragments.{words_of}

-- The slots of the request: the last one first.
unfoldable clear_slots : ℕ → List ℕ
clear_slots zero = []
clear_slots (suc n) = n ∷ clear_slots n

unfoldable clear_body : ℕ → ℕ → List ℕ
unfolding clear_slots words_of
clear_body oid norders = be32 oid ++ (be32 norders ++ words_of (clear_slots norders))

module _ {C : Type 0} where
  -- The number of orders that the object has afterwards, the server, and the value returned; the
  -- orders themselves are forgotten, whatever the server answers.
  unfoldable pub tpe_orders_object_clear : Server C → ℕ → ℕ → Run (ℕ × Server C × Reply)
  unfolding clear_body server_send
  tpe_orders_object_clear server oid norders =
      if norders == 0
      then ok (0, server, done)
      else (server_send server
            (record { type = "MsgRemoveOrder"; cb = none; body = clear_body oid norders })
          >>= λ out. ok (0, out.0, out.1))

abbrev pub reverse : List ℕ → List ℕ
reverse [] = []
reverse (x ∷ xs) = reverse xs ++ (x ∷ [])
