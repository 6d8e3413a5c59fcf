-- ===== src/Server/Frames/Drain.antt =====
-- The loop of `server_receive`: its ends, one round of it, and its fuel.
use galaxie.Prelude.{
  ℕ, zero, suc, ◌+◌, ◌-◌, ◌≤◌, ◌<◌, ◌≡◌, ◌≢◌, sym, ◌∙◌, inl, inr, true, List, ◌++◌, arith, length,
  length-append, Bool-cases, ap,
}
use galaxie.Run.{
  Run, ok, exited, aborted, stuck, ◌>>=◌, >>=_assoc, >>=_cong, >>=-eq-ok, >>=-ne-stuck,
}
use galaxie.Server.{Packet}
use galaxie.Server.Frames.{partial, invalid, packet, next, is_refused, handle_asserted, drain}
use galaxie.Server.Frames.Rounds.{
  Next-cases, next_shrinks, next-append_packet, next-append_invalid, refused, next-append_refused,
}

module _ {S : Type 0} (handle : S → Packet → Run S) where
  pub drain-refused :
      (fuel : ℕ) (s : S) (start : List ℕ)
      → refused (next start) ≡ true
      → drain handle (suc fuel) s start ≡ aborted
  unfolding drain handle_asserted
  drain-refused fuel s start h = elim (Next-cases (next start)) [
    | inl e ↦ cc (e, h)
    | inr (inl e) ↦ ground (arith, e)
    | inr (inr (p, rest, e)) ↦ ground (arith, e)
  ]

  pub drain_partial :
      (fuel : ℕ) (s : S) (start : List ℕ)
      → next start ≡ partial
      → drain handle (suc fuel) s start ≡ ok (s, start)
  unfolding drain
  drain_partial fuel s start e = rw (e, drain)

  drain_invalid :
      (fuel : ℕ) (s : S) (start : List ℕ)
      → next start ≡ invalid
      → drain handle (suc fuel) s start ≡ exited
  unfolding drain
  drain_invalid fuel s start e = rw (e, drain)

  -- A round that goes on, over the rest of the loop.
  pub drain_step :
      (fuel : ℕ) (s : S) (start : List ℕ) {p : Packet} {rest : List ℕ}
      → next start ≡ packet p rest
      → drain handle (suc fuel) s start
        ≡ (handle_asserted handle s p >>= λ s'. drain handle fuel s' rest)
  unfolding drain
  drain_step fuel s start e = rw (e, drain)

  -- Enough fuel is enough.
  drain-suc :
      (fuel : ℕ) (s : S) (start : List ℕ)
      → length start < fuel
      → drain handle (suc fuel) s start ≡ drain handle fuel s start
  drain-suc zero s start h = absurd (omega arith)
  drain-suc (suc fuel) s start h = elim (Next-cases (next start)) [
    | inl e ↦ rw (drain_partial (suc fuel) s start e, drain_partial fuel s start e)
    | inr (inl e) ↦ rw (drain_invalid (suc fuel) s start e, drain_invalid fuel s start e)
    | inr (inr (p, rest, e)) ↦ elim (Bool-cases (is_refused p)) [
      | inl a ↦ rw (drain-refused (suc fuel) s start (rw e a), drain-refused fuel s start (rw e a))
      | inr a ↦
          rw (drain_step (suc fuel) s start e, drain_step fuel s start e)
            (>>=_cong (handle_asserted handle s p)
              (λ s' _. drain-suc fuel s' rest (omega (arith, next_shrinks start e a))))
    ]
  ]

  -- What the loop leaves is no longer than what it was given.
  pub drain_leaves :
      (fuel : ℕ) (s : S) (start : List ℕ) {out : S × List ℕ}
      → drain handle fuel s start ≡ ok out
      → length out.1 ≤ length start
  drain_leaves zero s start h = unfold drain in cc
  drain_leaves (suc fuel) s start {out} h = elim (Next-cases (next start)) [
    | inl e ↦ ground (arith, drain_partial fuel s start e)
    | inr (inl e) ↦ cc (drain_invalid fuel s start e)
    | inr (inr (p, rest, e)) ↦ elim (Bool-cases (is_refused p)) [
      | inl a ↦ cc (drain-refused fuel s start (rw e a))
      | inr a ↦
          let (s', _, g) =
            >>=-eq-ok (handle_asserted handle s p) (λ s'. drain handle fuel s' rest)
              (sym (drain_step fuel s start e) ∙ h) in
          omega (arith, next_shrinks start e a, drain_leaves fuel s' rest {out = out} g)
    ]
  ]

  -- Draining two pieces at once is draining the first, and then what it leaves with the second.
  pub drain-append :
      (fuel : ℕ) (s : S) (start more : List ℕ)
      → length (start ++ more) < fuel
      → drain handle fuel s (start ++ more)
        ≡ (drain handle fuel s start >>= λ out. drain handle fuel out.0 (out.1 ++ more))
  drain-append zero s start more h = absurd (omega arith)
  drain-append (suc fuel) s start more h = elim (Next-cases (next start)) [
    | inl e ↦ rw (drain_partial fuel s start e)
    | inr (inl e) ↦ rw (
      drain_invalid fuel s start e,
      drain_invalid fuel s (start ++ more) (next-append_invalid start more e),
    )
    | inr (inr (p, rest, e)) ↦ elim (Bool-cases (is_refused p)) [
      | inl a ↦ rw (
        drain-refused fuel s start (rw e a),
        drain-refused fuel s (start ++ more) (next-append_refused start more (rw e a)),
      )
      | inr a ↦
          rw
            (
              drain_step fuel s (start ++ more) (next-append_packet start more e a),
              drain_step fuel s start e,
              >>=_assoc,
            )
            (>>=_cong (handle_asserted handle s p) (λ s' _.
              drain-append fuel s' rest more (
                omega (
                  arith,
                  next_shrinks start e a,
                  length-append rest more,
                  length-append start more,
                ))
              ∙ >>=_cong (drain handle fuel s' rest) (λ out g. sym (
                  drain-suc fuel out.0 (out.1 ++ more) (
                    omega (
                      arith,
                      next_shrinks start e a,
                      drain_leaves fuel s' rest {out = out} g,
                      length-append out.1 more,
                      length-append start more,
                    ))))))
    ]
  ]

  drain_enough :
      (k : ℕ) (s : S) (start : List ℕ)
      → drain handle (k + suc (length start)) s start ≡ drain handle (suc (length start)) s start
  drain_enough zero s start = ap (λ f. drain handle f s start) (omega arith)
  drain_enough (suc k) s start =
      ap (λ f. drain handle f s start) (omega arith)
      ∙ drain-suc (k + suc (length start)) s start (omega arith)
      ∙ drain_enough k s start

  pub drain_fuel :
      (fuel : ℕ) (s : S) (start : List ℕ)
      → length start < fuel
      → drain handle fuel s start ≡ drain handle (suc (length start)) s start
  drain_fuel fuel s start h =
      ap (λ f. drain handle f s start) (omega arith)
      ∙ drain_enough (fuel - suc (length start)) s start

  -- With enough fuel the loop ends, if handling a packet does.
  pub drain-ne-stuck :
      ((s : S) (p : Packet) → handle s p ≢ stuck)
      → (fuel : ℕ) (s : S) (start : List ℕ) → length start < fuel
      → drain handle fuel s start ≢ stuck
  unfolding handle_asserted
  drain-ne-stuck ends zero s start h = absurd (omega arith)
  drain-ne-stuck ends (suc fuel) s start h = elim (Next-cases (next start)) [
    | inl e ↦ rw (drain_partial fuel s start e) (λ x. cc)
    | inr (inl e) ↦ rw (drain_invalid fuel s start e) (λ x. cc)
    | inr (inr (p, rest, e)) ↦ elim (Bool-cases (is_refused p)) [
      | inl a ↦ rw (drain-refused fuel s start (rw e a)) (λ x. cc)
      | inr a ↦
          rw (drain_step fuel s start e, handle_asserted, a)
            (>>=-ne-stuck (handle s p) _ (ends s p)
              (λ s'. drain-ne-stuck ends fuel s' rest (omega (arith, next_shrinks start e a))))
    ]
  ]
