-- ===== src/Server/Dispatch.antt =====
-- The rest of `server_handle_packet` of server.c: the callbacks that wait for the packet's sequence
-- number run and are dropped, and the event of the packet's type is sent.
-- A callback is given by what it makes of `W`, the rest of the program's state, and by the requests
-- that it sends; that it changes the list of callbacks in no other way is built in.
pub mod Quiet
pub mod Keeps
pub mod One
use Prim.Native.String.{String}
use galaxie.Prelude.{
  ℕ, zero, suc, ◌+◌, ◌≡◌, refl, sym, ◌∙◌, ap, Bool, true, false, not, Option, none, some, List, [],
  ◌∷◌, ◌++◌, ◌==◌, if◌then◌else◌, select, arith, length, All, Bool-cases, inl, inr, ◌<◌,
}
use galaxie.Run.{Run, ok, aborted, stuck, ◌>>=◌, >>=_assoc, >>=_cong}
use galaxie.Event.{Events, tpe_event_send}
use galaxie.Server.{Packet, Msg, Server, ServerCb}
use galaxie.Server.Names.{event_of}
use galaxie.Server.Send.{Request, server_send}

abbrev msg_of : String → Packet → Msg
msg_of event p = record {
  type = event;
  seq = p.seq;
  len = p.len;
  protocol = p.proto;
  body = p.body;
}

module _ {C W : Type 0} (call : W → C → Msg → Run (W × List (Request C))) where
  unfoldable pub sends : Server C → List (Request C) → Run (Server C)
  unfolding server_send
  sends s [] = ok s
  sends s (r ∷ rs) = server_send s r >>= λ out. sends out.0 rs

  -- `if (cb->cb) cb->cb(cb->userdata, msg)`
  unfoldable pub run_callback : W → Server C → Msg → Option C → Run (W × Server C)
  unfolding sends
  run_callback w s m none = ok (w, s)
  run_callback w s m (some c) = call w c m >>= λ r. sends s r.1 >>= λ s'. ok (r.0, s')

  -- One round of the first loop.
  unfoldable pub visit : W → Server C → Msg → ServerCb C → Run (W × Server C × ServerCb C)
  unfolding run_callback
  visit w s m cb =
      if cb.seq == m.seq
      then (run_callback w s m cb.cb >>= λ r. ok (r.0, r.1, record cb { deleteme = true }))
      else ok (w, s, cb)

  -- The first loop: `s.cbs` are the callbacks from the current one on. `next` is read before the
  -- callback runs, so that the last one of the list ends the loop even if it has sent requests.
  unfoldable pub fire : ℕ → W → Server C → Msg → Run (W × Server C)
  unfolding visit
  fire zero w s m = stuck
  fire (suc fuel) w s m = elim s.cbs [
    | [] ↦ ok (w, s)
    | cb ∷ back ↦ visit w (record s { cbs = back }) m cb >>= λ v.
        (elim back as (λ b. Run (W × Server C)) [
          | [] ↦ ok (v.0, v.1)
          | _ ∷ _ ↦ fire fuel v.0 v.1 m
        ])
        >>= λ r. ok (r.0, record r.1 { cbs = v.2 ∷ r.1.cbs })
  ]

  -- The second loop.
  unfoldable pub sweep : Server C → Server C
  sweep s = record s { cbs = select (λ cb. not cb.deleteme) s.cbs }

  unfoldable pub answered : ℕ → W → Server C → Msg → Run (W × Server C)
  unfolding fire sweep
  answered fuel w s m =
      if m.seq == 0 then ok (w, s) else (fire fuel w s m >>= λ r. ok (r.0, sweep r.1))

-- The callbacks and the events share the rest of the state: `X` beside the list of events.
module _ {C X H : Type 0}
    (call : X × Events H Msg Unit
      → C
      → Msg
      → Run ((X × Events H Msg Unit) × List (Request C))) where
  unfoldable server_handle_packet :
      ℕ → X × Events H Msg Unit → Server C → Packet → Run ((X × Events H Msg Unit) × Server C)
  unfolding answered event_of tpe_event_send
  server_handle_packet fuel w s p = elim (event_of p.type) [
    | none ↦ aborted
    | some event ↦ answered call fuel w s (msg_of event p) >>= λ r.
        tpe_event_send r.0.1 event (some (msg_of event p)) (some tt) >>= λ e. ok ((r.0.0, e.0), r.1)
  ]
