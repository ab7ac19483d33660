-- ===== src/Batch/Pool/Progress.antt =====
-- The pool is never stuck before it returns.
use jinn.Base.{
  ℕ, zero, suc, ◌≤◌, ◌<◌, ◌≡◌, ◌≢◌, refl, sym, subst, ◌∙◌, ◌⊎◌, inl, inr, Bool, false, not, ◌&&◌,
  Bool-cases, length, arith,
}
use native.Mathlib.Decide.{ℕ_discrete, dec_lt}
use jinn.Batch.{Call, Request}
use jinn.Batch.Pool.Family.{set_at, set_at-either}
use jinn.Batch.Pool.{
  waiting, winning, finished, taken, stopping, starting, invoked, called, stored, checking,
  selecting, stopped, cancel_parent, all_sent, stop_failed, go_on, stop_done, send, see_cancel,
  see_open, leave_out, invoke, return, store, pass, fail, cancel, leave, finish, started, later,
  worker_count, Projection, Scheduler, Worker, Pool, Step, Reach, no_result,
}

module _ {A R V : Type 0} (project : R → Call A → Projection V) (is_error : R → Bool)
    (input : Request A) where
  -- A worker ends only behind the end of the scheduler.
  abbrev Behind : Pool V → Type 0
  Behind s = (w : ℕ) → s.worker w ≡ finished → s.scheduler ≡ stopped

  still :
      (s : Pool V) (w : ℕ) (p : Worker V)
      → p ≢ finished
      → Behind s
      → (v : ℕ) → set_at s.worker w p v ≡ finished
      → s.scheduler ≡ stopped
  still s w p n b v =
      set_at-either (λ q. q ≡ finished → s.scheduler ≡ stopped) s.worker w p v (λ _ h. absurd (n h))
        (λ _ h. b v h)

  Step-Behind : {s t : Pool V} → Step project is_error input s t → Behind s → Behind t
  Step-Behind (cancel_parent e) b = b
  Step-Behind (all_sent e h) b = λ w q. refl
  Step-Behind (stop_failed e h c) b = λ w q. refl
  Step-Behind {s} (go_on e h c) b =
      λ w q. absurd (let k : checking ≡ stopped = sym e ∙ b w q in ground arith)
  Step-Behind (stop_done e c) b = λ w q. refl
  Step-Behind {s} (send w lt e p) b = λ v q. absurd (
      let k : selecting ≡ stopped =
        sym e ∙ still s w (taken s.scheduled) (λ h. ground arith) b v q in
      ground arith)
  Step-Behind {s} (see_cancel w i lt p c) b = still s w _ (λ h. ground arith) b
  Step-Behind {s} (see_open w i lt p c) b = still s w _ (λ h. ground arith) b
  Step-Behind {s} (leave_out w i lt p) b = still s w _ (λ h. ground arith) b
  Step-Behind {s} (invoke w i lt p) b = still s w _ (λ h. ground arith) b
  Step-Behind {s} (return w i ms reply lt p) b = still s w _ (λ h. ground arith) b
  Step-Behind {s} (store w i r lt p) b = still s w _ (λ h. ground arith) b
  Step-Behind {s} (pass w c lt p h) b = still s w _ (λ h. ground arith) b
  Step-Behind {s} (fail w c lt p h) b = still s w _ (λ h. ground arith) b
  Step-Behind {s} (cancel w lt p) b = still s w _ (λ h. ground arith) b
  Step-Behind {s} (leave w lt e p) b = λ v q. e
  Step-Behind (finish r e all) b = b

  Reach-Behind : {k : ℕ} {s : Pool V} → Reach project is_error input k s → Behind s
  Reach-Behind (started cancelled) = λ w q. absurd (ground arith)
  Reach-Behind (later r st) = Step-Behind st (Reach-Behind r)

  -- A step of the pool itself, not of the one that started it.
  abbrev pub IsOwn : {s t : Pool V} → Step project is_error input s t → Type 0
  IsOwn (cancel_parent e) = ⊥
  IsOwn _ = Unit

  abbrev pub CanStep : Pool V → Type 0
  CanStep s = (t : Pool V) × (st : Step project is_error input s t) × IsOwn st

  module _ (s : Pool V) where
    -- A worker can go on, or waits, or is at its end.
    worker_steps :
        (w : ℕ)
        → w < worker_count input.max_concurrency
        → (p : Worker V) → s.worker w ≡ p
        → CanStep s ⊎ ((s.worker w ≡ waiting) ⊎ (s.worker w ≡ finished))
    worker_steps w lt (taken i) e = elim (Bool-cases s.cancelled) [
      | inl c ↦ inl (_, see_cancel w i lt e c, tt)
      | inr c ↦ inl (_, see_open w i lt e c, tt)
    ]
    worker_steps w lt (stopping i) e = inl (_, leave_out w i lt e, tt)
    worker_steps w lt (starting i) e = inl (_, invoke w i lt e, tt)
    worker_steps w lt (invoked i) e = inl (_, return w i 0 no_result lt e, tt)
    worker_steps w lt (called i r) e = inl (_, store w i r lt e, tt)
    worker_steps w lt (stored b) e = elim (Bool-cases (not b && input.fail_fast && not s.failed)) [
      | inl c ↦ inl (_, fail w b lt e c, tt)
      | inr c ↦ inl (_, pass w b lt e c, tt)
    ]
    worker_steps w lt winning e = inl (_, cancel w lt e, tt)
    worker_steps w lt waiting e = inr (inl e)
    worker_steps w lt finished e = inr (inr e)

    -- Behind the end of the scheduler one of the first workers can go on, or they are all at their end.
    ends :
        s.scheduler ≡ stopped
        → (k : ℕ) → k ≤ worker_count input.max_concurrency
        → CanStep s ⊎ ((w : ℕ) → w < k → s.worker w ≡ finished)
    ends e zero h = inr (λ w lt. absurd (omega arith))
    ends e (suc k) h = elim (worker_steps k (omega arith) (s.worker k) refl) [
      | inl c ↦ inl c
      | inr (inl i) ↦ inl (_, leave k (omega arith) e i, tt)
      | inr (inr f) ↦ elim (ends e k (omega arith)) [
        | inl c ↦ inl c
        | inr all ↦ inr (λ w lt. elim (ℕ_discrete k w) [
          | yes q ↦ subst (λ x. s.worker x ≡ finished) q f
          | no d ↦ all w (omega arith)
        ])
      ]
    ]

    goes_on :
        0 < worker_count input.max_concurrency
        → s.returned ≡ false
        → Behind s
        → (p : Scheduler) → s.scheduler ≡ p
        → CanStep s
    goes_on m r b checking e = elim (dec_lt s.scheduled (length input.calls)) [
      | no h ↦ (_, all_sent e (omega arith), tt)
      | yes h ↦ elim (Bool-cases (input.fail_fast && s.failed)) [
        | inl c ↦ (_, stop_failed e h c, tt)
        | inr c ↦ (_, go_on e h c, tt)
      ]
    ]
    goes_on m r b selecting e = elim (worker_steps 0 m (s.worker 0) refl) [
      | inl c ↦ c
      | inr (inl i) ↦ (_, send 0 m e i, tt)
      | inr (inr f) ↦ absurd (let k : selecting ≡ stopped = sym e ∙ b 0 f in ground arith)
    ]
    goes_on m r b stopped e = elim (ends e (worker_count input.max_concurrency) (omega arith)) [
      | inl c ↦ c
      | inr all ↦ (_, finish r e all, tt)
    ]

  -- With at least one worker, a pool that has not returned can take a step of its own, whatever happened
  -- before: no order of the steps leads to a state where all wait for each other. A call that the caller
  -- has accepted is taken to come back.
  pub Reach-CanStep :
      {k : ℕ} {s : Pool V}
      → Reach project is_error input k s
      → 0 < worker_count input.max_concurrency
      → s.returned ≡ false
      → CanStep s
  Reach-CanStep {s = s} r m e = goes_on s m e (Reach-Behind r) s.scheduler refl
