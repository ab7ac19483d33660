-- ===== src/Batch/Pool/Genuine.antt =====
-- What the results of calls satisfy, those of calls that are made and those of calls that are left out.
use jinn.Base.{
  ℕ, suc, ◌≡◌, ◌≢◌, refl, ◌↔◌, Bool, true, false, ◌&&◌, ◌||◌, Bytes, codes, if_cases, arith,
}
use jinn.Batch.{Call, Request}
use jinn.Batch.Pool.Family.{set_at, set_at-either}
use jinn.Batch.Pool.{
  Result, Reply, Projection, Status, Worker, waiting, winning, finished, taken, stopping, starting,
  invoked, called, stored, not_projected, projected, failed_call, no_result, returned_result,
  outcome, left_out, with_status, call_at, projected_outcome, execute_call, unset, ok, skipped,
}

-- A result of a call: it bears the call's id, has a status, and is marked as successful exactly if the
-- status says so.
abbrev pub Genuine : {V : Type 0} → Bytes → Result V → Type 0
Genuine id r =
    (r.id ≡ id) × (r.status ≢ unset) × (r.status ≢ skipped) × ((r.is_ok ≡ true) ↔ (r.status ≡ ok))

-- A result that is not one of a success.
pub outcome-Genuine :
    (V : Type 0) (id : Bytes) (ms : ℕ) (status : Status) (text : Bytes)
    → status ≢ unset
    → status ≢ skipped
    → status ≢ ok
    → Genuine {V = V} id (outcome id ms status text)
outcome-Genuine V id ms status text a b c =
    (refl, a, b, (λ e. absurd (ground arith), λ e. absurd (c e)))

-- What every result satisfies, run or not: the id of its call, marked as successful exactly if its status
-- says so and then only if the call was made, and skipped only behind a failure with fail-fast.
abbrev pub Told : {V : Type 0} → Bytes → ℕ → Bool → Bool → Result V → Type 0
Told id made fail_fast failed r =
    (r.id ≡ id)
    × ((r.is_ok ≡ true) ↔ (r.status ≡ ok))
    × (r.status ≡ ok → made ≡ 1)
    × (r.status ≡ skipped → (fail_fast && failed) ≡ true)

-- What a worker carries: a call that it made once, and a result of it.
abbrev pub Carries : {V : Type 0} → (ℕ → Bytes) → (ℕ → ℕ) → Worker V → Type 0
Carries id made (invoked i) = made i ≡ 1
Carries id made (called i r) = (made i ≡ 1) × Genuine (id i) r
Carries id made _ = Unit

pub left_out-cases :
    (a b : Bool)
    → (left_out a b ≢ unset) × (left_out a b ≢ ok) × (left_out a b ≡ skipped → (a && b) ≡ true)
left_out-cases a b =
    if_cases (λ x. (x ≢ unset) × (x ≢ ok) × (x ≡ skipped → (a && b) ≡ true)) (a && b) _ _
      (λ e. (λ q. ground arith, λ q. ground arith, λ _. e))
      (λ e. (λ q. ground arith, λ q. ground arith, λ q. absurd (ground arith)))

module _ {V : Type 0} (id : ℕ → Bytes) (fail_fast : Bool) where
  -- A result that is left out.
  pub with_status-Told :
      (i made : ℕ) (failed : Bool) (r : Result V)
      → made ≡ 0
      → Told (id i) made fail_fast failed r
      → Told (id i) made fail_fast failed (with_status r (left_out fail_fast failed))
  with_status-Told i made failed r z (e, f, g, _) =
      let (a, b, c) = left_out-cases fail_fast failed in
      (e, (λ q. absurd (omega (arith, z, g (f.0 q))), λ q. absurd (b q)), λ q. absurd (b q), c)

-- The call of one more index, which had not been called.
pub made-Carries :
    {V : Type 0} (id : ℕ → Bytes) (made : ℕ → ℕ) (i : ℕ) (p : Worker V)
    → made i ≡ 0
    → Carries id made p
    → Carries id (set_at made i (suc (made i))) p
made-Carries id made i (invoked j) z c =
    set_at-either (λ x. x ≡ 1) made i (suc (made i)) j (λ _. omega (arith, z)) (λ _. c)
made-Carries id made i (called j r) z (c, g) =
    (set_at-either (λ x. x ≡ 1) made i (suc (made i)) j (λ _. omega (arith, z)) (λ _. c), g)
made-Carries id made i (taken j) z c = tt
made-Carries id made i (stopping j) z c = tt
made-Carries id made i (starting j) z c = tt
made-Carries id made i (stored b) z c = tt
made-Carries id made i waiting z c = tt
made-Carries id made i winning z c = tt
made-Carries id made i finished z c = tt

module _ {A R V : Type 0} (project : R → Call A → Projection V) (is_error : R → Bool)
    (input : Request A) where
  projected-Genuine :
      (id : Bytes) (ms : ℕ) (error : Bool) (o : Projection V)
      → Genuine id (projected_outcome project is_error input id ms error o)
  projected-Genuine id ms error (not_projected text) =
      outcome-Genuine V id ms Status.transport_error text (λ q. ground arith) (λ q. ground arith)
        (λ q. ground arith)
  projected-Genuine id ms true (projected v) =
      (refl, λ q. ground arith, λ q. ground arith, (λ q. ground arith, λ q. ground arith))
  projected-Genuine id ms false (projected v) =
      (refl, λ q. ground arith, λ q. ground arith, (λ q. refl, λ q. refl))

  -- executeCall gives a result of its call on every branch.
  pub execute_call-Genuine :
      (cancelled : Bool) (i ms : ℕ) (reply : Reply R)
      → Genuine
          (call_at project is_error input i).id
          (execute_call project is_error input cancelled i ms reply)
  execute_call-Genuine cancelled i ms (failed_call text e d c) =
      let id = (call_at project is_error input i).id in
      if_cases (Genuine id) cancelled _ _
        (λ _.
          outcome-Genuine V id ms Status.canceled text (λ q. ground arith) (λ q. ground arith)
            (λ q. ground arith))
        (λ _.
          if_cases (Genuine id) (e || d) _ _
            (λ _.
              outcome-Genuine V id ms Status.timeout (codes "context deadline exceeded")
                (λ q. ground arith) (λ q. ground arith) (λ q. ground arith))
            (λ _.
              if_cases (Genuine id) c _ _
                (λ _.
                  outcome-Genuine V id ms Status.canceled text (λ q. ground arith)
                    (λ q. ground arith) (λ q. ground arith))
                (λ _.
                  outcome-Genuine V id ms Status.transport_error text (λ q. ground arith)
                    (λ q. ground arith) (λ q. ground arith))))
  execute_call-Genuine cancelled i ms no_result =
      outcome-Genuine V (call_at project is_error input i).id ms Status.transport_error
        (codes "MCP tools/call returned an empty result") (λ q. ground arith) (λ q. ground arith)
        (λ q. ground arith)
  execute_call-Genuine cancelled i ms (returned_result r) =
      projected-Genuine (call_at project is_error input i).id ms (is_error r)
        (project r (call_at project is_error input i))

  pub Genuine-Told :
      {made : ℕ} (failed : Bool) (id : Bytes) (r : Result V)
      → made ≡ 1
      → Genuine id r
      → Told id made input.fail_fast failed r
  Genuine-Told failed id r e (a, b, c, d) = (a, d, λ _. e, λ q. absurd (c q))

  pub fail-Told :
      (fail_fast failed : Bool) (id : Bytes) (made : ℕ) (r : Result V)
      → failed ≡ false
      → Told id made fail_fast failed r
      → Told id made fail_fast true r
  fail-Told fail_fast failed id made r e (a, b, c, d) = (a, b, c, λ q. let h = d q in ground arith)
