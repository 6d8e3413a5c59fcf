-- ===== src/Players/Smith.antt =====
-- ai_smith.c: the computer player Smith. What its handlers print is not modelled.
pub mod Build
pub mod Fleet
pub mod Requests
pub mod Marks
use galaxie.Prelude.{ℕ, Bool, true, false, none, some, List, [], ◌∷◌, ◌==◌, if◌then◌else◌}
use galaxie.Run.{Run, ok, aborted, ◌>>=◌}
use galaxie.Wire.{minus_one}
use galaxie.Server.{Server}
use galaxie.Server.Format.{int, server_send_format}
use galaxie.Objects.{Object}

-- The static `build_id`, and the count of `struct ai`.
pub record Smith : Type 0 where
  pub build_id : ℕ
  pub shipid : ℕ

-- The player that `ai_smith_init` makes, in a program that has had none.
unfoldable ai_smith_init : Smith
ai_smith_init = record { build_id = minus_one; shipid = 0 }

abbrev pub probe_format : List ℕ
probe_format = b'i' ∷ b'i' ∷ b'i' ∷ b'0' ∷ b'0' ∷ b'0' ∷ b'0' ∷ b'0' ∷ b'0' ∷ []

module _ {C : Type 0} (malloc : ℕ → List ℕ) (cb : C) where
  -- The answer of tpe_order_get_type_by_name is overwritten; `cb` is smith_order_insert_cb with its
  -- player.
  unfoldable pub smith_order_planet : Smith → Server C → Object → Run (Smith × Server C)
  smith_order_planet smith server o =
      let smith' : Smith =
        if smith.build_id == minus_one then record smith { build_id = 2 } else smith in
      if o.server
      then (server_send_format malloc server "MsgProbeOrder" (some cb) probe_format
            (int o.oid ∷ int minus_one ∷ int smith'.build_id ∷ [])
          >>= λ out. ok (smith', out.0))
      else ok (smith', server)
