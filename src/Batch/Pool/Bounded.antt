-- ===== src/Batch/Pool/Bounded.antt =====
-- The pool comes to an end whatever the order of its steps.
use jinn.Base.{
  ℕ, zero, suc, ◌+◌, ◌-◌, ◌*◌, ◌≤◌, ◌<◌, ◌≡◌, refl, ap, Bool, true, false, length, arith,
}
use jinn.Batch.{Call, Request}
use jinn.Batch.Pool.Family.{set_at, total, total-set_at}
use jinn.Batch.Pool.{
  waiting, winning, finished, taken, stopping, starting, invoked, called, stored, checking,
  selecting, stopped, cancel_parent, all_sent, stop_failed, go_on, stop_done, send, see_cancel,
  see_open, leave_out, invoke, return, store, pass, fail, cancel, leave, finish, started, later,
  worker_count, Projection, Scheduler, Worker, Pool, Step, Reach, execute_call,
}
use jinn.Batch.Pool.Owned.{PoolOwned, Reach-Owned}

-- How many steps a worker has left, until it waits and then ends.
abbrev weight : {V : Type 0} → Worker V → ℕ
weight (taken i) = 7
weight (stopping i) = 6
weight (starting i) = 6
weight (invoked i) = 5
weight (called i r) = 4
weight (stored b) = 3
weight winning = 2
weight waiting = 1
weight finished = 0

abbrev rank : Scheduler → ℕ
rank checking = 2
rank selecting = 1
rank stopped = 0

abbrev to_go : Bool → ℕ
to_go true = 0
to_go false = 1

total-waiting : (V : Type 0) (m : ℕ) → total {A = Worker V} weight m (λ _. waiting) ≡ m
total-waiting V zero = refl
total-waiting V (suc m) = omega (arith, total-waiting V m)

module _ {A R V : Type 0} (project : R → Call A → Projection V) (is_error : R → Bool)
    (input : Request A) where
  -- How many steps are left at most.
  measure : Pool V → ℕ
  measure s =
      8 * (length input.calls - s.scheduled)
      + total weight (worker_count input.max_concurrency) s.worker
      + rank s.scheduler
      + to_go s.cancelled
      + to_go s.returned

  drop_of :
      (s : Pool V) (w : ℕ) (p q : Worker V)
      → w < worker_count input.max_concurrency
      → s.worker w ≡ p
      → weight q < weight p
      → total weight (worker_count input.max_concurrency) (set_at s.worker w q)
        < total weight (worker_count input.max_concurrency) s.worker
  drop_of s w p q lt e h =
      omega (
        arith,
        total-set_at weight (worker_count input.max_concurrency) s.worker w q lt,
        ap weight e,
      )

  Step-measure :
      {s t : Pool V}
      → Step project is_error input s t
      → PoolOwned project is_error input s
      → measure t < measure s
  unfolding measure
  Step-measure {s} (cancel_parent e) own = omega (arith, ap to_go e)
  Step-measure {s} (all_sent e h) own = omega (arith, ap rank e)
  Step-measure {s} (stop_failed e h b) own = omega (arith, ap rank e)
  Step-measure {s} (go_on e h b) own = omega (arith, ap rank e)
  Step-measure {s} (stop_done e b) own = omega (arith, ap rank e)
  Step-measure {s} (send w lt e p) own = omega (
    arith,
    total-set_at weight (worker_count input.max_concurrency) s.worker w (taken s.scheduled) lt,
    ap weight p,
    ap rank e,
    own.0 e,
  )
  Step-measure {s} (see_cancel w i lt p b) own =
      omega (arith, drop_of s w _ (stopping i) lt p (omega arith))
  Step-measure {s} (see_open w i lt p b) own =
      omega (arith, drop_of s w _ (starting i) lt p (omega arith))
  Step-measure {s} (leave_out w i lt p) own =
      omega (arith, drop_of s w _ waiting lt p (omega arith))
  Step-measure {s} (invoke w i lt p) own =
      omega (arith, drop_of s w _ (invoked i) lt p (omega arith))
  Step-measure {s} (return w i ms reply lt p) own = omega (
    arith,
    drop_of s w _ (called i (execute_call project is_error input s.cancelled i ms reply)) lt p
        (omega arith),
  )
  Step-measure {s} (store w i r lt p) own =
      omega (arith, drop_of s w _ (stored r.is_ok) lt p (omega arith))
  Step-measure {s} (pass w b lt p h) own = omega (arith, drop_of s w _ waiting lt p (omega arith))
  Step-measure {s} (fail w b lt p h) own = omega (arith, drop_of s w _ winning lt p (omega arith))
  Step-measure {s} (cancel w lt p) own = omega (arith, drop_of s w _ waiting lt p (omega arith))
  Step-measure {s} (leave w lt e p) own = omega (arith, drop_of s w _ finished lt p (omega arith))
  Step-measure {s} (finish r e all) own = omega (arith, ap to_go r)

  Reach-measure :
      {k : ℕ} {s : Pool V}
      → Reach project is_error input k s
      → k + measure s ≤ 8 * length input.calls + worker_count input.max_concurrency + 4
  unfolding measure
  Reach-measure (started true) = omega (arith, total-waiting V (worker_count input.max_concurrency))
  Reach-measure (started false) =
      omega (arith, total-waiting V (worker_count input.max_concurrency))
  Reach-measure (later r st) =
      omega (arith, Reach-measure r, Step-measure st (Reach-Owned project is_error input r))

  -- No order of the steps goes on for more than 8 steps a call, one a worker and 4 more.
  pub Reach-bounded :
      {k : ℕ} {s : Pool V}
      → Reach project is_error input k s
      → k ≤ 8 * length input.calls + worker_count input.max_concurrency + 4
  Reach-bounded r = omega (arith, Reach-measure r)
