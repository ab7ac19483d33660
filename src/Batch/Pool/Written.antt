-- ===== src/Batch/Pool/Written.antt =====
-- What the workers' results keep when a worker goes on or writes one.
use native.Mathlib.Decide.{ℕ_discrete}
use jinn.Base.{ℕ, ◌<◌, ◌≡◌, ◌≢◌, sym, ap, subst, ◌∙◌, ◌⊎◌, inl, inr, Bool, true, some, Bytes, arith}
use jinn.Batch.Pool.Family.{set_at, set_at-either, set_at-other}
use jinn.Batch.Pool.{Result, Worker, Pool, unset}
use jinn.Batch.Pool.Genuine.{Told, Carries}
use jinn.Batch.Pool.Owned.{holds}

pub record Settled {V : Type 0} (n m : ℕ) (id : ℕ → Bytes) (fail_fast : Bool) (s : Pool V)
    : Type 0 where
  pub told : (i : ℕ) → Told (id i) (s.calls_made i) fail_fast s.failed (s.results i)
  pub carried : (w : ℕ) → Carries id s.calls_made (s.worker w)
  pub done :
      (i : ℕ)
      → i < s.scheduled
      → ((w : ℕ) × (w < m) × (holds (s.worker w) ≡ some i)) ⊎ ((s.results i).status ≢ unset)
  pub ended : s.returned ≡ true → (i : ℕ) → i < n → (s.results i).status ≢ unset

module _ {V : Type 0} (n m : ℕ) (id : ℕ → Bytes) (fail_fast : Bool) where
  -- The worker keeps the index it holds, or goes on without one.
  pub held-done :
      (k : ℕ) (f : ℕ → Worker V) (results : ℕ → Result V) (w : ℕ) (p : Worker V) (i : ℕ)
      → holds (f w) ≡ holds p
      → ((v : ℕ) × (v < m) × (holds (f v) ≡ some i)) ⊎ ((results i).status ≢ unset)
      → ((v : ℕ) × (v < m) × (holds (set_at f w p v) ≡ some i)) ⊎ ((results i).status ≢ unset)
  held-done k f results w p i e (inr h) = inr h
  held-done k f results w p i e (inl (v, lt, h)) = inl (
    v,
    lt,
    set_at-either (λ q. holds q ≡ some i) f w p v
        (λ q. sym e ∙ subst (λ x. holds (f x) ≡ some i) (sym q) h) (λ _. h),
  )

  -- The worker writes a result for the index it holds.
  written-done :
      (f : ℕ → Worker V) (results : ℕ → Result V) (w : ℕ) (p : Worker V) (j : ℕ) (r : Result V)
      (i : ℕ)
      → holds (f w) ≡ some j
      → r.status ≢ unset
      → ((v : ℕ) × (v < m) × (holds (f v) ≡ some i)) ⊎ ((results i).status ≢ unset)
      → ((v : ℕ) × (v < m) × (holds (set_at f w p v) ≡ some i))
        ⊎ ((set_at results j r i).status ≢ unset)
  written-done f results w p j r i mine new (inr h) =
      inr (set_at-either (λ (x : Result V). x.status ≢ unset) results j r i (λ _. new) (λ _. h))
  written-done f results w p j r i mine new (inl (v, lt, h)) = elim (ℕ_discrete w v) [
    | yes e ↦
        let here : some j ≡ some i = sym mine ∙ subst (λ x. holds (f x) ≡ some i) (sym e) h in
        inr (
          set_at-either (λ (x : Result V). x.status ≢ unset) results j r i (λ _. new)
            (λ d. absurd (ground arith)))
    | no d ↦ inl (v, lt, ap holds (set_at-other f w p v d) ∙ h)
  ]

  -- A worker goes on.
  pub moved-Settled :
      (s : Pool V) (w : ℕ) (p : Worker V)
      → holds (s.worker w) ≡ holds p
      → Carries id s.calls_made p
      → Settled n m id fail_fast s
      → Settled n m id fail_fast (record s { worker = set_at s.worker w p })
  moved-Settled s w p e c o = record {
    told = o.told;
    carried =
        λ v. set_at-either (Carries id s.calls_made) s.worker w p v (λ _. c) (λ _. o.carried v);
    done = λ i lt. held-done s.scheduled s.worker s.results w p i e (o.done i lt);
    ended = o.ended;
  }

  -- A worker writes a result.
  pub written-Settled :
      (s : Pool V) (w : ℕ) (p : Worker V) (j : ℕ) (r : Result V)
      → holds (s.worker w) ≡ some j
      → ((made : ℕ → ℕ) → Carries id made p)
      → r.status ≢ unset
      → Told (id j) (s.calls_made j) fail_fast s.failed r
      → Settled n m id fail_fast s
      → Settled n m id fail_fast
          (record s { worker = set_at s.worker w p; results = set_at s.results j r })
  written-Settled s w p j r mine c new t o = record {
    told = λ i.
        set_at-either (Told (id i) (s.calls_made i) fail_fast s.failed) s.results j r i
          (λ e. subst (λ x. Told (id x) (s.calls_made x) fail_fast s.failed r) e t) (λ _. o.told i);
    carried = λ v.
        set_at-either (Carries id s.calls_made) s.worker w p v (λ _. c s.calls_made)
          (λ _. o.carried v);
    done = λ i lt. written-done s.worker s.results w p j r i mine new (o.done i lt);
    ended = λ e i lt.
        set_at-either (λ (x : Result V). x.status ≢ unset) s.results j r i (λ _. new)
          (λ _. o.ended e i lt);
  }
