-- ===== src/Server/Frames/Chunks.antt =====
-- How the bytes of a connection are cut into calls of `server_receive` makes no difference.
use mathlib.Core.List.{append_assoc}
use galaxie.Prelude.{
  true, false, suc, ◌≡◌, ◌≢◌, refl, sym, ◌∙◌, ap, ℕ, List, [], ◌∷◌, ◌++◌, arith, length,
  length-append,
}
use galaxie.Run.{Run, ok, aborted, stuck, ◌>>=◌, >>=_assoc, >>=_cong, >>=-ne-stuck}
use galaxie.Server.{Packet}
use galaxie.Server.Frames.Rounds.{next_shrinks, refused}
use galaxie.Server.Frames.{
  next, packet, partial, is_refused, handle_asserted, Receiver, drain, joined, saved, receive,
}
use galaxie.Server.Frames.Drain.{
  drain_step, drain_partial, drain-refused, drain_leaves, drain-append, drain_fuel, drain-ne-stuck,
}

joined_lem : (buf bytes : List ℕ) → joined buf bytes ≡ buf ++ bytes
unfolding joined
joined_lem [] bytes = refl
joined_lem (b ∷ bs) bytes = refl

module _ {S : Type 0} (handle : S → Packet → Run S) where
  abbrev collect : S → List ℕ → Run (S × List ℕ)
  collect s bs = drain handle (suc (length bs)) s bs

  collect-append :
      (s : S) (start more : List ℕ)
      → collect s (start ++ more) ≡ (collect s start >>= λ out. collect out.0 (out.1 ++ more))
  collect-append s start more =
      let n = suc (length (start ++ more)) in
      drain-append handle n s start more (omega arith)
      ∙ ap (λ m. m >>= λ out. drain handle n out.0 (out.1 ++ more))
          (drain_fuel handle n s start (omega (arith, length-append start more)))
      ∙ >>=_cong (collect s start) (λ out e. drain_fuel handle n out.0 (out.1 ++ more) (
          omega (
            arith,
            drain_leaves handle (suc (length start)) s start {out = out} e,
            length-append start more,
            length-append out.1 more,
          )))

  receive_lem :
      (r : Receiver S) (bytes : List ℕ)
      → receive handle r bytes ≡ (collect r.server (r.buf ++ bytes) >>= λ out. ok (saved out))
  unfolding receive
  receive_lem r bytes = rw (joined_lem r.buf bytes)

  -- Receiving bytes in one call of `server_receive` or cut into two calls at any place has the same
  -- outcome: the same packets are handled, in the same order, and the same bytes are kept. That
  -- holds for an exit and an abort, too.
  pub receive-append :
      (r : Receiver S) (xs ys : List ℕ)
      → receive handle r (xs ++ ys) ≡ (receive handle r xs >>= λ r'. receive handle r' ys)
  receive-append r xs ys =
      rw
        (
          receive_lem r (xs ++ ys),
          receive_lem r xs,
          ← append_assoc r.buf xs ys,
          collect-append r.server (r.buf ++ xs) ys,
          >>=_assoc,
          >>=_assoc,
        )
        (>>=_cong (collect r.server (r.buf ++ xs)) (λ out _. sym (receive_lem (saved out) ys)))

  -- The loop of `server_receive` ends: if handling a packet always ends, so does receiving bytes.
  pub receive-ne-stuck :
      ((s : S) (p : Packet) → handle s p ≢ stuck)
      → (r : Receiver S) (bytes : List ℕ) → receive handle r bytes ≢ stuck
  receive-ne-stuck ends r bytes = rw receive_lem (
      >>=-ne-stuck (collect r.server (r.buf ++ bytes)) _
        (drain-ne-stuck handle ends _ _ _ (omega arith)) (λ out x. cc))

  -- A buffer that holds one packet and an incomplete rest.
  pub receive_one :
      (s : S) (start : List ℕ) {p : Packet} {rest : List ℕ}
      → next start ≡ packet p rest
      → is_refused p ≡ false
      → next rest ≡ partial
      → receive handle (record { server = s; buf = [] }) start
        ≡ (handle s p >>= λ s'. ok (saved (s', rest)))
  unfolding handle_asserted
  receive_one s start {p} {rest} e a l =
      rw (receive_lem, drain_step handle (length start) s start e, handle_asserted, a, >>=_assoc)
        (>>=_cong (handle s p) (λ s' _. rw (
          drain_fuel handle (length start) s' rest (next_shrinks start e a),
          drain_partial handle (length rest) s' rest l,
        )))

  -- A packet that the assertions refuse ends the program, whatever follows it.
  pub receive-refused :
      (s : S) (start : List ℕ)
      → refused (next start) ≡ true
      → receive handle (record { server = s; buf = [] }) start ≡ aborted
  receive-refused s start e = rw (receive_lem, drain-refused handle (length start) s start e)

  -- A buffer that holds no whole packet is kept.
  pub receive_partial :
      (s : S) (start : List ℕ)
      → next start ≡ partial
      → receive handle (record { server = s; buf = [] }) start
        ≡ ok (record { server = s; buf = start })
  receive_partial s start e = rw (receive_lem, drain_partial handle (length start) s start e)
