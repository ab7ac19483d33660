-- ===== src/Batch/Pool/Settled.antt =====
-- Every result of a batch belongs to its call and has a status when the pool returns.
use native.Mathlib.Decide.{ℕ_discrete}
use jinn.Base.{
  ℕ, suc, ◌<◌, ◌≡◌, ◌≢◌, refl, sym, ap, subst, ◌∙◌, inl, inr, Bool, true, false, ◌&&◌, some, length,
  ltb, leb, if_cases, arith,
}
use jinn.Batch.{Call, Request}
use jinn.Batch.Pool.Family.{set_at, set_at-either, set_at-same, set_at-other}
use jinn.Batch.Pool.{
  Result, Projection, Scheduler, Worker, Pool, Step, Reach, waiting, winning, finished, taken,
  stopping, starting, invoked, called, stored, left_out, with_status, call_at, finalized,
  worker_count, unset, cancel_parent, all_sent, stop_failed, go_on, stop_done, send, see_cancel,
  see_open, leave_out, invoke, return, store, pass, fail, cancel, leave, finish, started, later,
  start,
}
use jinn.Batch.Pool.Genuine.{
  Genuine, Told, Carries, left_out-cases, with_status-Told, made-Carries, execute_call-Genuine,
  Genuine-Told, fail-Told,
}
use jinn.Batch.Pool.Owned.{holds, before_call, PoolOwned, Reach-Owned}
use jinn.Batch.Pool.Written.{Settled, held-done, moved-Settled, written-Settled}

module _ {A R V : Type 0} (project : R → Call A → Projection V) (is_error : R → Bool)
    (input : Request A) where
  -- The invariant of the results.
  abbrev pub PoolSettled : Pool V → Type 0
  PoolSettled =
      Settled (length input.calls) (worker_count input.max_concurrency)
        (λ i. (call_at project is_error input i).id) input.fail_fast

  start-Settled : (cancelled : Bool) → PoolSettled (start project is_error input cancelled)
  start-Settled cancelled = record {
    told = λ i. (
      refl,
      (λ q. absurd (ground arith), λ q. absurd (ground arith)),
      λ q. absurd (ground arith),
      λ q. absurd (ground arith),
    );
    carried = λ w. tt;
    done = λ i lt. absurd (omega arith);
    ended = λ e. absurd (ground arith);
  }

  module _ (s : Pool V) (own : PoolOwned project is_error input s) (o : PoolSettled s) where
    goes :
        (w : ℕ) (p q : Worker V)
        → s.worker w ≡ p
        → holds p ≡ holds q
        → Carries (λ i. (call_at project is_error input i).id) s.calls_made q
        → PoolSettled (record s { worker = set_at s.worker w q })
    goes w p q e h c = moved-Settled _ _ _ input.fail_fast s w q (ap holds e ∙ h) c o

    leave_out-Settled :
        (w i : ℕ)
        → s.worker w ≡ stopping i
        → PoolSettled (record s {
          worker = set_at s.worker w waiting;
          results =
              set_at s.results i (with_status (s.results i) (left_out input.fail_fast s.failed));
        })
    leave_out-Settled w i e =
        written-Settled _ _ _ input.fail_fast s w waiting i _ (ap holds e) (λ _. tt)
          (left_out-cases input.fail_fast s.failed).0
          (with_status-Told (λ j. (call_at project is_error input j).id) input.fail_fast i
            (s.calls_made i) s.failed (s.results i) (own.1.fresh w i (ap before_call e)) (o.told i))
          o

    invoke-Settled :
        (w i : ℕ)
        → s.worker w ≡ starting i
        → PoolSettled (record s {
          worker = set_at s.worker w (invoked i);
          calls_made = set_at s.calls_made i (suc (s.calls_made i));
        })
    invoke-Settled w i e =
        let z : s.calls_made i ≡ 0 = own.1.fresh w i (ap before_call e) in
        let ids = λ (j : ℕ). (call_at project is_error input j).id in
        record {
          told = λ j.
              let (a, b, c, d) = o.told j in
              (
                a,
                b,
                λ q.
                    set_at-either (λ x. x ≡ 1) s.calls_made i (suc (s.calls_made i)) j
                      (λ _. omega (arith, z)) (λ _. c q),
                d,
              );
          carried = λ v.
              set_at-either (Carries ids (set_at s.calls_made i (suc (s.calls_made i)))) s.worker w
                (invoked i) v
                (λ _. set_at-same s.calls_made i (suc (s.calls_made i)) ∙ omega (arith, z))
                (λ _. made-Carries ids s.calls_made i (s.worker v) z (o.carried v));
          done = λ j lt.
              held-done (length input.calls) (worker_count input.max_concurrency) ids
                input.fail_fast s.scheduled s.worker s.results w (invoked i) j (ap holds e)
                (o.done j lt);
          ended = o.ended;
        }

    send-Settled :
        (w : ℕ)
        → w < worker_count input.max_concurrency
        → s.worker w ≡ waiting
        → PoolSettled (record s {
          scheduled = suc s.scheduled;
          scheduler = Scheduler.checking;
          worker = set_at s.worker w (taken s.scheduled);
        })
    send-Settled w lt e = record {
      told = o.told;
      carried = λ v.
          set_at-either (Carries (λ j. (call_at project is_error input j).id) s.calls_made) s.worker
            w (taken s.scheduled) v (λ _. tt) (λ _. o.carried v);
      done = λ j h. elim (ℕ_discrete s.scheduled j) [
        | yes q ↦ inl (w, lt, ap holds (set_at-same s.worker w (taken s.scheduled)) ∙ ap some q)
        | no d ↦ elim (o.done j (omega arith)) [
          | inr t ↦ inr t
          | inl (v, l, t) ↦ inl (
            v,
            l,
            ap holds (
                  set_at-other s.worker w (taken s.scheduled) v (λ q.
                    let k : holds {V = V} waiting ≡ some j =
                      sym (ap holds e) ∙ subst (λ x. holds (s.worker x) ≡ some j) (sym q) t in
                    ground arith))
                ∙ t,
          )
        ]
      ];
      ended = o.ended;
    }

    finish-Settled :
        ((w : ℕ) → w < worker_count input.max_concurrency → s.worker w ≡ finished)
        → PoolSettled (record s { results = finalized project is_error input s; returned = true })
    finish-Settled all =
        let ids = λ (j : ℕ). (call_at project is_error input j).id in
        let new : (j : ℕ)
            → (with_status (s.results j) (left_out input.fail_fast s.failed)).status ≢ unset =
          λ j. (left_out-cases input.fail_fast s.failed).0 in
        record {
          told = λ j.
              if_cases (Told (ids j) (s.calls_made j) input.fail_fast s.failed)
                (leb s.scheduled j && ltb j (length input.calls)) _ _
                (λ e.
                  with_status-Told ids input.fail_fast j (s.calls_made j) s.failed (s.results j)
                    (own.1.unsent j (ground arith)) (o.told j))
                (λ _. o.told j);
          carried = o.carried;
          done = λ j lt. elim (o.done j lt) [
            | inl h ↦ inl h
            | inr h ↦ inr (
                if_cases (λ (x : Result V). x.status ≢ unset)
                  (leb s.scheduled j && ltb j (length input.calls)) _ _ (λ _. new j) (λ _. h))
          ];
          ended = λ _ j lt.
              if_cases (λ (x : Result V). x.status ≢ unset)
                (leb s.scheduled j && ltb j (length input.calls)) _ _ (λ _. new j)
                (λ e. elim (o.done j (ground arith)) [
                  | inr h ↦ h
                  | inl (w, l, h) ↦ absurd (
                      let k : holds {V = V} finished ≡ some j = sym (ap holds (all w l)) ∙ h in
                      ground arith)
                ]);
        }

    brought :
        (w i : ℕ) (r : Result V)
        → s.worker w ≡ called i r
        → (s.calls_made i ≡ 1) × Genuine (call_at project is_error input i).id r
    brought w i r e =
        subst (Carries (λ j. (call_at project is_error input j).id) s.calls_made) e (o.carried w)

    ran : (w i : ℕ) → s.worker w ≡ invoked i → s.calls_made i ≡ 1
    ran w i e =
        subst (Carries (λ j. (call_at project is_error input j).id) s.calls_made) e (o.carried w)

  -- The scheduler and the context are not read here.
  also :
      (s : Pool V) (scheduler : Scheduler) (cancelled : Bool)
      → PoolSettled s
      → PoolSettled (record s { scheduler = scheduler; cancelled = cancelled })
  also s scheduler cancelled o = record {
    told = o.told;
    carried = o.carried;
    done = o.done;
    ended = o.ended;
  }

  flagged :
      (s : Pool V) → s.failed ≡ false → PoolSettled s → PoolSettled (record s { failed = true })
  flagged s e o = record {
    told = λ i.
        fail-Told project is_error input input.fail_fast s.failed _ (s.calls_made i) (s.results i) e
          (o.told i);
    carried = o.carried;
    done = o.done;
    ended = o.ended;
  }

  Step-Settled :
      {s t : Pool V}
      → Step project is_error input s t
      → PoolOwned project is_error input s
      → PoolSettled s
      → PoolSettled t
  Step-Settled {s} (cancel_parent e) own o = also s s.scheduler true o
  Step-Settled {s} (all_sent e h) own o = also s Scheduler.stopped s.cancelled o
  Step-Settled {s} (stop_failed e h b) own o = also s Scheduler.stopped s.cancelled o
  Step-Settled {s} (go_on e h b) own o = also s Scheduler.selecting s.cancelled o
  Step-Settled {s} (stop_done e b) own o = also s Scheduler.stopped s.cancelled o
  Step-Settled {s} (send w lt e p) own o = send-Settled s own o w lt p
  Step-Settled {s} (see_cancel w i lt p b) own o = goes s own o w _ _ p refl tt
  Step-Settled {s} (see_open w i lt p b) own o = goes s own o w _ _ p refl tt
  Step-Settled {s} (leave_out w i lt p) own o = leave_out-Settled s own o w i p
  Step-Settled {s} (invoke w i lt p) own o = invoke-Settled s own o w i p
  Step-Settled {s} (return w i ms reply lt p) own o =
      goes s own o w _ _ p refl
        (ran s own o w i p, execute_call-Genuine project is_error input s.cancelled i ms reply)
  Step-Settled {s} (store w i r lt p) own o =
      let (a, g) = brought s own o w i r p in
      written-Settled _ _ _ input.fail_fast s w (stored r.is_ok) i r (ap holds p) (λ _. tt) g.1
        (Genuine-Told project is_error input s.failed _ r a g) o
  Step-Settled {s} (pass w b lt p h) own o = goes s own o w _ _ p refl tt
  Step-Settled {s} (fail w b lt p h) own o =
      moved-Settled _ _ _ input.fail_fast (record s { failed = true }) w winning (ap holds p) tt
        (flagged s (ground arith) o)
  Step-Settled {s} (cancel w lt p) own o =
      also (record s { worker = set_at s.worker w waiting }) s.scheduler true
        (goes s own o w _ _ p refl tt)
  Step-Settled {s} (leave w lt e p) own o = goes s own o w _ _ p refl tt
  Step-Settled {s} (finish r e all) own o = finish-Settled s own o all

  pub Reach-Settled : {k : ℕ} {s : Pool V} → Reach project is_error input k s → PoolSettled s
  Reach-Settled (started cancelled) = start-Settled cancelled
  Reach-Settled (later r st) =
      Step-Settled st (Reach-Owned project is_error input r) (Reach-Settled r)
