-- ===== src/Players.antt =====
-- ai_util.c, ai_smith.c, ai_jones.c and the distance of tpe_util.c: the computer players. Numbers of
-- the C program are bit patterns.
pub mod Closest
pub mod Smith
pub mod Jones
mod Tests
use galaxie.Prelude.{
  ℕ, ◌+◌, ◌-◌, ◌%◌, ◌^◌, Bool, true, false, Option, none, some, List, [], ◌∷◌, if◌then◌else◌, ltb,
}
use galaxie.Run.{Run, ok, aborted}
use galaxie.Wire.{is_negative}
use galaxie.Server.{Server}
use galaxie.Orders.Args.{Coord}
use galaxie.Orders.Insert.{Sent, nothing, sent}
use galaxie.Objects.{Object, objtype_planet}

-- `llabs(a - b)`, where the difference wraps around.
unfoldable pub llabs_diff : ℕ → ℕ → ℕ
llabs_diff a b = let d = (a + 2 ^ 64 - b) % 2 ^ 64 in if ltb d (2 ^ 63) then d else 2 ^ 64 - d

-- `hypot x y z` is `llrintl(hypotl(x, hypotl(y, z)))`, of the library of the C compiler.
unfoldable pub tpe_util_dist_calc2 : (ℕ → ℕ → ℕ → ℕ) → Object → Object → ℕ
unfolding llabs_diff
tpe_util_dist_calc2 hypot o p =
    hypot (llabs_diff o.pos.x p.pos.x) (llabs_diff o.pos.y p.pos.y) (llabs_diff o.pos.z p.pos.z)

-- The server after a call that gives an order to an object whose pointer to the server is set or
-- not: `server_send` asserts that it is.
unfoldable pub send_on : {C : Type 0} → Bool → Server C → Sent C → Run (Server C)
send_on set server nothing = ok server
send_on set server (sent server' reply) = if set then ok server' else aborted
