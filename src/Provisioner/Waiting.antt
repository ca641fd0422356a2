-- ===== src/Provisioner/Waiting.antt =====
-- pkg/util/wait.go: what WaitFor returns.
use service_broker_k8s.Base.{
  ℕ, zero, suc, ◌≤◌, ◌<◌, ◌≡◌, ◌↔◌, ap, sym, ◌∙◌, refl, arith, inl, inr, ◌∷◌, [], sprintf,
}
use service_broker_k8s.Errors.{Error, Result, ok, err, other, message, Result-cases}
use service_broker_k8s.Provisioner.{wait_for}

module _ {S : Type 0} (period : S → S) (f : S → Result (Unit {0})) where
  -- The state after a number of periods.
  unfoldable pub after_periods : ℕ → S → S
  after_periods zero s = s
  after_periods (suc n) s = after_periods n (period s)

  -- The condition fails with an error in each of the first states.
  abbrev pub FailsBefore : ℕ → S → Type 0
  FailsBefore k s = (i : ℕ) → i < k → (e : Error) × (f (after_periods i s) ≡ err e)

  fails_first :
      (k : ℕ) (s : S) (e : Error) → f s ≡ err e → FailsBefore k (period s) → FailsBefore (suc k) s
  unfolding after_periods
  fails_first k s e held fails zero below = (e, held)
  fails_first k s e held fails (suc i) below = fails i (ground (arith, below))

  wait_for_sound :
      (n : ℕ) (s s' : S)
      → wait_for period f n s ≡ (ok tt, s')
      → (k : ℕ) × (k ≤ n) × FailsBefore k s × (s' ≡ after_periods k s) × (f s' ≡ ok tt)
  unfolding wait_for after_periods
  wait_for_sound zero s s' h = elim (Result-cases (f s)) [
    | inl (u, held) ↦
        let same : s ≡ s' = ground (arith, held) in
        (
          zero,
          ground arith,
          λ i below. absurd (ground (arith, below)),
          rw same refl,
          rw same at held,
        )
    | inr (inl (e, held)) ↦ absurd (ground (arith, held))
    | inr (inr held) ↦ absurd (ground (arith, held))
  ]
  wait_for_sound (suc n) s s' h = elim (Result-cases (f s)) [
    | inl (u, held) ↦
        let same : s ≡ s' = ground (arith, held) in
        (
          zero,
          ground arith,
          λ i below. absurd (ground (arith, below)),
          rw same refl,
          rw same at held,
        )
    | inr (inl (e, held)) ↦
        let (k, within, fails, there, holds) =
          wait_for_sound n (period s) s' (ground (arith, held)) in
        (suc k, ground (arith, within), fails_first k s e held fails, there, holds)
    | inr (inr held) ↦ absurd (ground (arith, held))
  ]

  wait_for_complete :
      (k n : ℕ) (s : S)
      → k ≤ n
      → FailsBefore k s
      → f (after_periods k s) ≡ ok tt
      → wait_for period f n s ≡ (ok tt, after_periods k s)
  unfolding wait_for after_periods
  wait_for_complete zero zero s within fails held = ground (arith, held)
  wait_for_complete zero (suc n) s within fails held = ground (arith, held)
  wait_for_complete (suc k) zero s within fails held = absurd (ground (arith, within))
  wait_for_complete (suc k) (suc n) s within fails held =
      let (e, first) = fails zero (ground arith) in
      let rest =
        wait_for_complete k n (period s) (ground (arith, within))
          (λ i below. fails (suc i) (ground (arith, below))) held in
      ground (arith, first, rest)

  -- Where the wait takes a number of ticks before its deadline, it ends with success in a state
  -- exactly when the condition holds in the state, which comes after at most so many ticks, and
  -- failed with an error after each of the ticks before.
  pub wait_for_iff :
      (n : ℕ) (s s' : S)
      → (wait_for period f n s ≡ (ok tt, s'))
        ↔ ((k : ℕ) × (k ≤ n) × FailsBefore k s × (s' ≡ after_periods k s) × (f s' ≡ ok tt))
  wait_for_iff n s s' = (
    wait_for_sound n s s',
    λ (k, within, fails, there, holds).
        wait_for_complete k n s within fails (rw there at holds) ∙ ap (λ x. (ok tt, x)) (sym there),
  )

  -- Where the condition fails in every state up to the last, the wait ends there with an error that
  -- gives the last reason.
  pub wait_for_timeout :
      (n : ℕ) (s : S) (e : Error)
      → FailsBefore n s
      → f (after_periods n s) ≡ err e
      → wait_for period f n s ≡ (
        err (
            other (sprintf ("process timed out: failed to wait for condition: " ∷ message e ∷ []))),
        after_periods n s,
      )
  unfolding wait_for after_periods
  wait_for_timeout zero s e fails held = ground (arith, held)
  wait_for_timeout (suc n) s e fails held =
      let (e', first) = fails zero (ground arith) in
      let rest =
        wait_for_timeout n (period s) e (λ i below. fails (suc i) (ground (arith, below))) held in
      ground (arith, first, rest)
