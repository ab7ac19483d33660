-- ===== src/Batch/Pool/Owned.antt =====
-- Every index is handed to one worker, which makes its call at most once.
use jinn.Base.{
  ℕ, suc, ◌≤◌, ◌<◌, ◌≡◌, ◌≢◌, refl, sym, ap, subst, ◌∙◌, ◌⊎◌, inl, inr, Bool, Option, none, some,
  length, arith,
}
use jinn.Batch.{Call, Request}
use jinn.Batch.Pool.Family.{set_at, set_at-either, set_at-other}
use jinn.Batch.Pool.{
  Projection, Scheduler, Worker, Pool, Step, Reach, waiting, winning, finished, taken, stopping,
  starting, invoked, called, stored, cancel_parent, all_sent, stop_failed, go_on, stop_done, send,
  see_cancel, see_open, leave_out, invoke, return, store, pass, fail, cancel, leave, finish,
  started, later, start,
}

-- The index that a worker has received and not written a result for.
abbrev pub holds : {V : Type 0} → Worker V → Option ℕ
holds (taken i) = some i
holds (stopping i) = some i
holds (starting i) = some i
holds (invoked i) = some i
holds (called i r) = some i
holds (stored is_ok) = none
holds waiting = none
holds winning = none
holds finished = none

-- The index that a worker has received and not called.
abbrev pub before_call : {V : Type 0} → Worker V → Option ℕ
before_call (taken i) = some i
before_call (stopping i) = some i
before_call (starting i) = some i
before_call _ = none

before_call-holds : {V : Type 0} (p : Worker V) (i : ℕ) → before_call p ≡ some i → holds p ≡ some i
before_call-holds (taken j) i h = h
before_call-holds (stopping j) i h = h
before_call-holds (starting j) i h = h
before_call-holds (invoked j) i h = absurd (ground arith)
before_call-holds (called j r) i h = absurd (ground arith)
before_call-holds (stored b) i h = absurd (ground arith)
before_call-holds waiting i h = absurd (ground arith)
before_call-holds winning i h = absurd (ground arith)
before_call-holds finished i h = absurd (ground arith)

pub record Owned {V : Type 0} (n scheduled : ℕ) (worker : ℕ → Worker V) (calls_made : ℕ → ℕ)
    : Type 0 where
  pub bounded : scheduled ≤ n
  pub within : (w i : ℕ) → holds (worker w) ≡ some i → i < scheduled
  pub alone : (v w i : ℕ) → holds (worker v) ≡ some i → holds (worker w) ≡ some i → v ≡ w
  pub fresh : (w i : ℕ) → before_call (worker w) ≡ some i → calls_made i ≡ 0
  pub once : (i : ℕ) → calls_made i ≤ 1
  pub unsent : (i : ℕ) → scheduled ≤ i → calls_made i ≡ 0

-- Of two workers that hold an index one is the other, if a worker that is sent a new one is.
both_of :
    {w : ℕ} {X Y : Type 0} (k v x i : ℕ)
    → (X → i < k)
    → (Y → i < k)
    → (X → Y → v ≡ x)
    → ((w ≡ v) × (k ≡ i)) ⊎ ((w ≢ v) × X)
    → ((w ≡ x) × (k ≡ i)) ⊎ ((w ≢ x) × Y)
    → v ≡ x
both_of k v x i lt lt' same (inl (e, q)) (inl (e', q')) = omega arith
both_of k v x i lt lt' same (inl (e, q)) (inr (d, h)) = absurd (omega (arith, lt' h))
both_of k v x i lt lt' same (inr (d, h)) (inl (e, q)) = absurd (omega (arith, lt h))
both_of k v x i lt lt' same (inr (d, h)) (inr (d', h')) = same h h'

module _ {V : Type 0} where
  -- A worker that goes on with what it held, or lets go of it.
  move-Owned :
      (n k : ℕ) (f : ℕ → Worker V) (c : ℕ → ℕ) (w : ℕ) (p : Worker V)
      → ((i : ℕ) → holds p ≡ some i → holds (f w) ≡ some i)
      → ((i : ℕ) → before_call p ≡ some i → before_call (f w) ≡ some i)
      → Owned n k f c
      → Owned n k (set_at f w p) c
  move-Owned n k f c w p held unmade o =
      let back : (v i : ℕ) → holds (set_at f w p v) ≡ some i → holds (f v) ≡ some i = λ v i.
        set_at-either (λ q. holds q ≡ some i → holds (f v) ≡ some i) f w p v
          (λ e h. subst (λ x. holds (f x) ≡ some i) e (held i h)) (λ _ h. h) in
      record {
        bounded = o.bounded;
        within = λ v i h. o.within v i (back v i h);
        alone = λ v x i h h'. o.alone v x i (back v i h) (back x i h');
        fresh = λ v i.
            set_at-either (λ q. before_call q ≡ some i → c i ≡ 0) f w p v
              (λ e h. o.fresh w i (unmade i h)) (λ _ h. o.fresh v i h);
        once = o.once;
        unsent = o.unsent;
      }

  -- A worker that makes its call.
  invoke-Owned :
      (n k : ℕ) (f : ℕ → Worker V) (c : ℕ → ℕ) (w i : ℕ)
      → f w ≡ starting i
      → Owned n k f c
      → Owned n k (set_at f w (invoked i)) (set_at c i (suc (c i)))
  invoke-Owned n k f c w i e o =
      let mine : holds (f w) ≡ some i = ap holds e in
      let unmade : c i ≡ 0 = o.fresh w i (ap before_call e) in
      let after =
        move-Owned n k f c w (invoked i) (λ j h. mine ∙ h) (λ j h. absurd (ground arith)) o in
      let others : (v j : ℕ) → before_call (set_at f w (invoked i) v) ≡ some j → i ≢ j = λ v j.
        set_at-either (λ q. before_call q ≡ some j → i ≢ j) f w (invoked i) v
          (λ _ h. absurd (ground arith))
          (λ d h q. d (
            o.alone w v i mine
              (subst (λ x. holds (f v) ≡ some x) (sym q) (before_call-holds (f v) j h)))) in
      record {
        bounded = o.bounded;
        within = after.within;
        alone = after.alone;
        fresh = λ v j h. set_at-other c i (suc (c i)) j (others v j h) ∙ after.fresh v j h;
        once = λ j.
            set_at-either (λ x. x ≤ 1) c i (suc (c i)) j (λ _. omega (arith, unmade))
              (λ _. o.once j);
        unsent = λ j h.
            set_at-other c i (suc (c i)) j (λ q. omega (arith, o.within w i mine)) ∙ o.unsent j h;
      }

  -- A worker that receives the next index.
  send-Owned :
      (n k : ℕ) (f : ℕ → Worker V) (c : ℕ → ℕ) (w : ℕ)
      → k < n
      → Owned n k f c
      → Owned n (suc k) (set_at f w (taken k)) c
  send-Owned n k f c w lt o =
      let held : (v i : ℕ)
          → holds (set_at f w (taken k) v) ≡ some i
          → ((w ≡ v) × (k ≡ i)) ⊎ ((w ≢ v) × (holds (f v) ≡ some i)) =
        λ v i.
          set_at-either
            (λ q. holds q ≡ some i → ((w ≡ v) × (k ≡ i)) ⊎ ((w ≢ v) × (holds (f v) ≡ some i))) f w
            (taken k) v (λ e h. inl (e, ground arith)) (λ d h. inr (d, h)) in
      record {
        bounded = omega arith;
        within = λ v i h. elim (held v i h) [
          | inl (e, q) ↦ omega arith
          | inr (d, h') ↦ omega (arith, o.within v i h')
        ];
        alone = λ v x i h h'.
            both_of k v x i (o.within v i) (o.within x i) (o.alone v x i) (held v i h)
              (held x i h');
        fresh = λ v i.
            set_at-either (λ q. before_call q ≡ some i → c i ≡ 0) f w (taken k) v
              (λ e h. o.unsent i (ground arith)) (λ _ h. o.fresh v i h);
        once = o.once;
        unsent = λ i h. o.unsent i (omega arith);
      }

module _ {A R V : Type 0} (project : R → Call A → Projection V) (is_error : R → Bool)
    (input : Request A) where
  -- What holds of indices, workers and calls in a state of the pool.
  abbrev pub PoolOwned : Pool V → Type 0
  PoolOwned s =
      (s.scheduler ≡ Scheduler.selecting → s.scheduled < length input.calls)
      × Owned (length input.calls) s.scheduled s.worker s.calls_made

  start-Owned : (cancelled : Bool) → PoolOwned (start project is_error input cancelled)
  start-Owned cancelled = (
    λ h. ground arith,
    record {
      bounded = omega arith;
      within = λ w i h. absurd (ground arith);
      alone = λ v w i h. absurd (ground arith);
      fresh = λ w i h. refl;
      once = λ i. omega arith;
      unsent = λ i h. refl;
    },
  )

  let_go :
      (s : Pool V) (w : ℕ) (p : Worker V)
      → holds p ≡ none
      → before_call p ≡ none
      → PoolOwned s
      → Owned (length input.calls) s.scheduled (set_at s.worker w p) s.calls_made
  let_go s w p e e' (h, o) =
      move-Owned (length input.calls) s.scheduled s.worker s.calls_made w p
        (λ i q. absurd (ground arith)) (λ i q. absurd (ground arith)) o

  go_with :
      (s : Pool V) (w i : ℕ) (p q : Worker V)
      → s.worker w ≡ p
      → holds p ≡ some i
      → holds q ≡ some i
      → (before_call q ≡ before_call p) ⊎ (before_call q ≡ none)
      → PoolOwned s
      → Owned (length input.calls) s.scheduled (set_at s.worker w q) s.calls_made
  go_with s w i p q e hp hq b (h, o) =
      move-Owned (length input.calls) s.scheduled s.worker s.calls_made w q
        (λ j k. ap holds e ∙ hp ∙ sym hq ∙ k)
        (λ j k. elim b [
          | inl same ↦ ap before_call e ∙ sym same ∙ k
          | inr gone ↦ absurd (ground arith)
        ])
        o

  Step-Owned : {s t : Pool V} → Step project is_error input s t → PoolOwned s → PoolOwned t
  Step-Owned (cancel_parent e) o = o
  Step-Owned (all_sent e h) o = (λ q. absurd (ground arith), o.1)
  Step-Owned (stop_failed e h b) o = (λ q. absurd (ground arith), o.1)
  Step-Owned (go_on e h b) o = (λ _. h, o.1)
  Step-Owned (stop_done e b) o = (λ q. absurd (ground arith), o.1)
  Step-Owned {s} (send w lt e p) o = (λ q. absurd (ground arith), send-Owned _ _ _ _ w (o.0 e) o.1)
  Step-Owned {s} (see_cancel w i lt p b) o = (o.0, go_with s w i _ _ p refl refl (inl refl) o)
  Step-Owned {s} (see_open w i lt p b) o = (o.0, go_with s w i _ _ p refl refl (inl refl) o)
  Step-Owned {s} (leave_out w i lt p) o = (o.0, let_go s w waiting refl refl o)
  Step-Owned (invoke w i lt p) o = (o.0, invoke-Owned _ _ _ _ w i p o.1)
  Step-Owned {s} (return w i ms reply lt p) o = (o.0, go_with s w i _ _ p refl refl (inl refl) o)
  Step-Owned {s} (store w i r lt p) o = (o.0, let_go s w (stored r.is_ok) refl refl o)
  Step-Owned {s} (pass w b lt p h) o = (o.0, let_go s w waiting refl refl o)
  Step-Owned {s} (fail w b lt p h) o = (o.0, let_go s w winning refl refl o)
  Step-Owned {s} (cancel w lt p) o = (o.0, let_go s w waiting refl refl o)
  Step-Owned {s} (leave w lt e p) o = (o.0, let_go s w finished refl refl o)
  Step-Owned (finish r e all) o = o

  pub Reach-Owned : {k : ℕ} {s : Pool V} → Reach project is_error input k s → PoolOwned s
  Reach-Owned (started cancelled) = start-Owned cancelled
  Reach-Owned (later r st) = Step-Owned st (Reach-Owned r)

  -- Whatever the order of the steps, the caller is called at most once for an index, no two workers hold
  -- the same index, and the caller is not called for an index that no worker has received.
  pub Reach-once :
      {k : ℕ} {s : Pool V}
      → Reach project is_error input k s
      → ((i : ℕ) → s.calls_made i ≤ 1)
        × ((v w i : ℕ) → holds (s.worker v) ≡ some i → holds (s.worker w) ≡ some i → v ≡ w)
        × ((i : ℕ) → s.scheduled ≤ i → s.calls_made i ≡ 0)
  Reach-once r = let (_, o) = Reach-Owned r in (o.once, o.alone, o.unsent)
