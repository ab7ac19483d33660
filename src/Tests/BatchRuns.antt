-- ===== src/Tests/BatchRuns.antt =====
-- internal/mcpbatch on a batch of one call, which one worker makes.
use jinn.Base.{
  ℕ, ◌≤◌, ◌≡◌, ◌↔◌, refl, Bool, true, false, some, none, [], ◌∷◌, codes, pos, bytes_eq, leb, arith,
}
use jinn.Plan.{is_in}
use jinn.Batch.{Call, Request}
use jinn.Batch.Input.{
  InputError, escapes_ok, validate_pointer, validate_call, validate_calls, validate_input,
}
use jinn.Batch.Input.Accepted.{
  Pointer, RequestValid, validate_pointer-Pointer, validate_input-Valid,
}
use jinn.Batch.Preflight.{Tool, JsonSchema, lookup, collect_tools, validate_loop, validate}
use jinn.Batch.Preflight.Cached.{all_errors, validate_loop-uncached}
use jinn.Batch.Preflight.Cleared.{AllCleared, validate-AllCleared}
use jinn.Batch.Pool.{
  Status, Reply, Projection, Pool, Reach, start, started, later, go_on, send, see_open, invoke,
  return, store, pass, all_sent, leave, finish,
}
use jinn.Batch.Pool.Owned.{holds, Reach-once}
use jinn.Batch.Pool.Progress.{CanStep, Reach-CanStep}
use jinn.Batch.Pool.Bounded.{Reach-bounded}

abbrev read_call : Call ℕ
read_call = record {
  id = codes "one";
  tool = codes "read";
  arguments = some 7;
  select = some (codes "/a~1b");
  head = some (pos 3);
}

abbrev batch : Request ℕ
batch = record {
  version = pos 1;
  max_concurrency = some (pos 1);
  fail_fast = true;
  calls = read_call ∷ [];
  call_timeout = pos 0;
}

validate_pointer-Pointer_example :
    (validate_pointer (codes "/a~1b") ≡ true) ↔ Pointer (codes "/a~1b")
validate_pointer-Pointer_example = validate_pointer-Pointer (codes "/a~1b")

pointer_bad_escape : validate_pointer (codes "/a~2") ≡ false
unfolding validate_pointer escapes_ok
pointer_bad_escape = refl

pointer_without_slash : validate_pointer (codes "a") ≡ false
unfolding validate_pointer
pointer_without_slash = refl

validate_input-Valid_example : (validate_input batch ≡ none) ↔ RequestValid batch
validate_input-Valid_example = validate_input-Valid batch

batch_is_valid : validate_input batch ≡ none
unfolding validate_input validate_calls validate_call validate_pointer escapes_ok bytes_eq is_in
batch_is_valid = refl

batch_twice_the_same :
    validate_input (record batch { calls = read_call ∷ read_call ∷ [] })
    ≡ some (InputError.duplicate_id (codes "one"))
unfolding validate_input validate_calls validate_call validate_pointer escapes_ok bytes_eq is_in
batch_twice_the_same = refl

abbrev reads : Tool ℕ
reads = record {
  name = codes "read";
  annotations = some (record { read_only_hint = some true; destructive_hint = none });
  input_schema = 10;
}

-- A schema is a bound on the arguments.
abbrev below_bound : JsonSchema ℕ ℕ ℕ ℕ
below_bound = record {
  marshal = λ schema. some (schema ∷ []);
  unmarshal = λ raw. elim raw [ [] ↦ none | c ∷ _ ↦ some c ];
  add_resource = λ location document. true;
  compile = λ location document. some document;
  accepts = λ bound n. leb n bound;
  no_arguments = 0;
}

validate_loop-uncached_example :
    validate_loop below_bound
      ((codes "read", reads) ∷ [])
      ((codes "read", reads) ∷ [])
      []
      (read_call ∷ read_call ∷ [])
    ≡ all_errors below_bound
        ((codes "read", reads) ∷ [])
        ((codes "read", reads) ∷ [])
        (read_call ∷ read_call ∷ [])
validate_loop-uncached_example =
    validate_loop-uncached below_bound ((codes "read", reads) ∷ []) ((codes "read", reads) ∷ [])
      (read_call ∷ read_call ∷ [])

validate-AllCleared_example :
    AllCleared below_bound (some reads ∷ []) (some reads ∷ []) (read_call ∷ [])
unfolding validate validate_loop collect_tools lookup bytes_eq
validate-AllCleared_example =
    validate-AllCleared below_bound batch (some reads ∷ []) (some reads ∷ []) refl

abbrev keep : ℕ → Call ℕ → Projection ℕ
keep n call = Projection.projected n

abbrev never : ℕ → Bool
never n = false

abbrev Reached : ℕ → Pool ℕ → Type 0
Reached = Reach keep never batch

-- A pool behind a number of steps.
record Run (k : ℕ) : Type 0 where
  state : Pool ℕ
  reach : Reached k state

abbrev first : Run 0
first = record { state = start keep never batch false; reach = started false }

abbrev handed : Run 2
handed = record {
  state = _;
  reach =
      later (later first.reach (go_on refl (omega arith) refl)) (send 0 (omega arith) refl refl);
}

abbrev called : Run 5
called = record {
  state = _;
  reach =
      later
        (later (later handed.reach (see_open 0 0 (omega arith) refl refl))
          (invoke 0 0 (omega arith) refl))
        (return 0 0 12 (Reply.returned_result 5) (omega arith) refl);
}

abbrev over : Run 10
over = record {
  state = _;
  reach =
      later
        (later
          (later
            (later (later called.reach (store 0 0 _ (omega arith) refl))
              (pass 0 true (omega arith) refl refl))
            (all_sent refl (omega arith)))
          (leave 0 (omega arith) refl refl))
        (finish refl refl (λ w lt. let q : w ≡ 0 = omega arith in rw q refl));
}

one_call_ok : ((over.state.results 0).status ≡ Status.ok) × ((over.state.results 0).is_ok ≡ true)
one_call_ok = (refl, refl)

Reach-once_example :
    ((i : ℕ) → called.state.calls_made i ≤ 1)
    × ((v w i : ℕ)
        → holds (called.state.worker v) ≡ some i
        → holds (called.state.worker w) ≡ some i
        → v ≡ w)
    × ((i : ℕ) → 1 ≤ i → called.state.calls_made i ≡ 0)
Reach-once_example = Reach-once keep never batch called.reach

Reach-CanStep_example : CanStep keep never batch handed.state
Reach-CanStep_example = Reach-CanStep keep never batch handed.reach (omega arith) refl

Reach-bounded_example : 10 ≤ 13
Reach-bounded_example = Reach-bounded keep never batch over.reach
