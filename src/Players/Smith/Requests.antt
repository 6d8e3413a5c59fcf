-- ===== src/Players/Smith/Requests.antt =====
-- The requests of ai_smith.c, byte by byte.
use mathlib.Core.List.{append-nil}
use galaxie.Prelude.{
  ℕ, suc, ◌+◌, ◌-◌, ◌%◌, ◌≤◌, ◌<◌, ◌≡◌, refl, arith, true, false, none, some, List, [], ◌∷◌, ◌++◌,
  ◌==◌, if◌then◌else◌, length, length-take, get_or, replicate, take, leb, ◌^◌, ◌&&◌, ap, Bool-cases,
  inl, inr,
}
use galaxie.Decimal.{digits, decimal}
use galaxie.Run.{ok, ◌>>=◌}
use galaxie.Wire.{minus_one, be32, is_negative}
use galaxie.Server.{Server}
use galaxie.Server.Send.{server_send}
use galaxie.Server.Format.{int, str, chunk, str_chunk, int_case, str_case}
use galaxie.Server.Format.Passes.{wire, server_send_format_lem}
use galaxie.Objects.{Object}
use galaxie.Orders.Insert.Laws.{order_head}
use galaxie.Players.Smith.{Smith, probe_format, smith_order_planet}
use galaxie.Players.Smith.Build.{
  BuildAnswer, shipnames, name_size, ship_name, insert_format, order_ship,
}

pub probe_wire :
    (oid slot type : ℕ)
    → wire probe_format (int oid ∷ int slot ∷ int type ∷ [])
      ≡ ok (be32 oid ++ (be32 slot ++ (be32 type ++ replicate 24 0)))
unfolding wire chunk int_case be32
probe_wire oid slot type = refl

insert_wire :
    (oid slot type count ship number : ℕ) (name : List ℕ)
    → wire insert_format
        (int oid ∷ int slot ∷ int type ∷ int count ∷ int ship ∷ int number ∷ str (some name) ∷ [])
      ≡ ok (
          order_head oid slot type (
            be32 0
            ++ (be32 count
                ++ (be32 ship ++ (be32 number ++ (be32 0 ++ (str_chunk name []).bytes))))))
unfolding wire chunk int_case str_case be32
insert_wire oid slot type count ship number name = rw (append-nil (str_chunk name []).bytes) refl

-- The name of a ship: a name of the table, " #" and the number of the ship, cut to one byte less than
-- the bound that the server gave, or to 29 bytes if this bound is not between 1 and 100.
abbrev next_name : ℕ → ℕ → ℕ → List ℕ
next_name maxstr r shipid =
    take (if leb 1 maxstr && leb maxstr 100 then maxstr - 1 else 29)
      (get_or shipnames (r % 7) [] ++ (b' ' ∷ b'#' ∷ decimal shipid))

ship_name_lem :
    (maxstr r shipid : ℕ)
    → shipid < 2 ^ 31
    → ship_name (name_size maxstr) r shipid ≡ next_name maxstr r shipid
unfolding ship_name name_size decimal
ship_name_lem maxstr r shipid h =
    let positive : is_negative shipid ≡ false = ground (arith, h) in
    let size : name_size maxstr - 1 ≡ (if leb 1 maxstr && leb maxstr 100 then maxstr - 1 else 29) =
      ground arith in
    rw positive
      (ap (λ n. take n (get_or shipnames (r % 7) [] ++ (b' ' ∷ b'#' ∷ digits 10 shipid))) size)

-- The size of the buffer lies between 1 and 100.
name_size_bounds : (maxstr : ℕ) → (1 ≤ name_size maxstr) × (name_size maxstr ≤ 100)
unfolding name_size
name_size_bounds maxstr = ground arith

-- The name of a ship and its NUL fit in the buffer, whose size is the bound that the server gave if
-- that is between 1 and 100, and 30 if not.
ship_name_fits :
    (maxstr r shipid : ℕ)
    → (length (ship_name (name_size maxstr) r shipid) + 1 ≤ name_size maxstr)
      × (name_size maxstr ≤ 100)
unfolding ship_name
ship_name_fits maxstr r shipid =
    let bounds = name_size_bounds maxstr in
    (
      omega (
        arith,
        length-take (name_size maxstr - 1)
            (get_or shipnames (r % 7) [] ++ (b' ' ∷ b'#' ∷ digits 10 shipid)),
        bounds.0,
      ),
      bounds.1,
    )

module _ {C : Type 0} (malloc : ℕ → List ℕ) (sized : (n : ℕ) → length (malloc n) ≡ n) where
  -- An idle planet whose server is known: Smith probes an order of the type that it holds for
  -- "BuildFleet", 2 if it holds none yet, at the end of the planet's orders; the planet, -1, the type
  -- and 24 zeros are the whole request, which smith_order_insert_cb waits for the answer of.
  order_planet-probe :
      (cb : C) (smith : Smith) (server : Server C) (o : Object)
      → o.server ≡ true
      → let type = if smith.build_id == minus_one then 2 else smith.build_id in
        smith_order_planet malloc cb smith server o ≡ (
          server_send server (record {
            type = "MsgProbeOrder";
            cb = some cb;
            body = be32 o.oid ++ (be32 minus_one ++ (be32 type ++ replicate 24 0));
          })
          >>= λ out. ok (record smith { build_id = type }, out.0))
  unfolding smith_order_planet
  order_planet-probe cb smith server o h = elim (Bool-cases (smith.build_id == minus_one)) [
    | inl t ↦
        rw
          (
            t,
            h,
            server_send_format_lem malloc sized server "MsgProbeOrder" (some cb) probe_format _ tt,
            probe_wire _ _ _,
          )
          refl
    | inr t ↦
        rw
          (
            t,
            h,
            server_send_format_lem malloc sized server "MsgProbeOrder" (some cb) probe_format _ tt,
            probe_wire _ _ _,
          )
          refl
  ]

  -- The answer to the probe names a ship, and the count of ships has not reached the largest
  -- int: Smith orders one of it, at the end of the orders of the object that the answer is
  -- about, and counts it. Its name is one of the table, " #" and the number of the ship, cut to one
  -- byte less than the bound of the answer, or to 29 bytes if that is not between 1 and 100. That `malloc` gives blocks of the size asked for
  -- is assumed.
  pub order_ship-request :
      (r : ℕ) (smith : Smith) (server : Server C) (answer : BuildAnswer) (frigate : ℕ)
      → smith.shipid < 0x7fff_ffff
      → order_ship malloc r smith server answer frigate ≡ (
          server_send server (record {
            type = "MsgInsertOrder";
            cb = none;
            body = order_head answer.oid minus_one smith.build_id (
                be32 0
                ++ (be32 1
                    ++ (be32 frigate
                        ++ (be32 1
                            ++ (be32 0
                                ++ (str_chunk
                                    (next_name answer.maxstr r smith.shipid)
                                    []).bytes)))));
          })
          >>= λ out. ok (record smith { shipid = suc smith.shipid }, out.0))
  unfolding order_ship
  order_ship-request r smith server answer frigate h =
      let small : (smith.shipid == 0x7fff_ffff) ≡ false = ground arith in
      rw
        (
          small,
          server_send_format_lem malloc sized server "MsgInsertOrder" none insert_format _ tt,
          insert_wire _ _ _ _ _ _ _,
          ship_name_lem answer.maxstr r smith.shipid (omega (arith, h)),
        )
        refl
