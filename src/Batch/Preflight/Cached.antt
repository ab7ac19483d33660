-- ===== src/Batch/Preflight/Cached.antt =====
-- The cache of compiled schemas changes nothing of what a batch is refused for.
use jinn.Base.{
  ◌≡◌, refl, sym, subst, ap₂, ◌∙◌, Bool, true, false, not, ◌||◌, Option, none, some, List, [], ◌∷◌,
  ◌++◌, Bytes, bytes_eq, bytes_eq_iff, if◌then◌else◌, if_cases, arith,
}
use jinn.Batch.{Call}
use jinn.Batch.Preflight.{
  Tool, JsonSchema, CompiledSchema, CallError, lookup, is_read_only, compile_approved_schema,
  schema_errors, compiled_for, extended, validate_known, validate_loop,
}

module _ {A S D C : Type 0} (js : JsonSchema A S D C) where
  -- The errors of one call, its schema compiled for it alone.
  abbrev pub call_errors : Call A → Option (Tool S) → Option (Tool S) → List CallError
  call_errors call (some approved) (some current) =
      if not (is_read_only approved) || not (is_read_only current)
      then CallError.not_read_only call.id call.tool ∷ []
      else schema_errors js call (compile_approved_schema js approved)
  call_errors call _ _ = CallError.unapproved call.id call.tool ∷ []

  -- The errors of all calls.
  unfoldable pub all_errors :
      List (Bytes × Tool S) → List (Bytes × Tool S) → List (Call A) → List CallError
  all_errors approved current [] = []
  all_errors approved current (call ∷ calls) =
      call_errors call (lookup approved call.tool) (lookup current call.tool)
      ++ all_errors approved current calls

  -- Every schema in the cache is that of the approved tool of its name.
  abbrev Faithful : List (Bytes × Tool S) → List (Bytes × CompiledSchema C) → Type 0
  Faithful approved schemas =
      (name : Bytes) (tool : Tool S) (compiled : CompiledSchema C)
      → lookup approved name ≡ some tool
      → lookup schemas name ≡ some compiled
      → compiled ≡ compile_approved_schema js tool

  -- The errors of one call with the cache are those without, and the cache stays as it should.
  abbrev OneCall :
      List (Bytes × Tool S)
      → List CallError
      → List CallError × List (Bytes × CompiledSchema C)
      → Type 0
  OneCall approved errors one = (one.0 ≡ errors) × Faithful approved one.1

  compiled_for-Faithful :
      (approved : List (Bytes × Tool S)) (schemas : List (Bytes × CompiledSchema C)) (name : Bytes)
      (tool : Tool S)
      → Faithful approved schemas
      → lookup approved name ≡ some tool
      → (o : Option (CompiledSchema C)) → lookup schemas name ≡ o
      → compiled_for js o tool ≡ compile_approved_schema js tool
  compiled_for-Faithful approved schemas name tool f e none h = refl
  compiled_for-Faithful approved schemas name tool f e (some c) h = f name tool c e h

  extended-Faithful :
      (approved : List (Bytes × Tool S)) (schemas : List (Bytes × CompiledSchema C)) (name : Bytes)
      (tool : Tool S)
      → Faithful approved schemas
      → lookup approved name ≡ some tool
      → (o : Option (CompiledSchema C))
      → Faithful approved (extended js name (compile_approved_schema js tool) o schemas)
  unfolding lookup
  extended-Faithful approved schemas name tool f e (some c) = f
  extended-Faithful approved schemas name tool f e none = λ other t r found held.
      if_cases (λ o. o ≡ some r → r ≡ compile_approved_schema js t) (bytes_eq name other)
        (some (compile_approved_schema js tool)) (lookup schemas other)
        (λ same h.
          let n : name ≡ other = (bytes_eq_iff name other).0 same in
          let o : lookup approved name ≡ some t =
            subst (λ x. lookup approved x ≡ some t) (sym n) found in
          let q : some t ≡ some tool = sym o ∙ e in
          let q' : t ≡ tool = cc in let c : r ≡ compile_approved_schema js tool = cc in rw q' c)
        (λ other_key h. f other t r found h) held

  by_test :
      (approved : List (Bytes × Tool S)) (b : Bool) (x y : List CallError)
      (s t : List (Bytes × CompiledSchema C))
      → Faithful approved s
      → Faithful approved t
      → OneCall approved (if b then x else y) (if b then (x, s) else (y, t))
  by_test approved true x y s t f g = (refl, f)
  by_test approved false x y s t f g = (refl, g)

  validate_known-OneCall :
      (approved : List (Bytes × Tool S)) (schemas : List (Bytes × CompiledSchema C)) (call : Call A)
      → Faithful approved schemas
      → (a c : Option (Tool S)) → lookup approved call.tool ≡ a
      → OneCall approved (call_errors call a c) (validate_known js schemas call a c)
  validate_known-OneCall approved schemas call f none c e = (refl, f)
  validate_known-OneCall approved schemas call f (some a) none e = (refl, f)
  validate_known-OneCall approved schemas call f (some a) (some c) e =
      let same =
        compiled_for-Faithful approved schemas call.tool a f e (lookup schemas call.tool) refl in
      rw same (
        by_test approved (not (is_read_only a) || not (is_read_only c)) _ _ _ _ f
          (extended-Faithful approved schemas call.tool a f e (lookup schemas call.tool)))

  validate_loop-Faithful :
      (approved current : List (Bytes × Tool S)) (schemas : List (Bytes × CompiledSchema C))
      (calls : List (Call A))
      → Faithful approved schemas
      → validate_loop js approved current schemas calls ≡ all_errors approved current calls
  unfolding validate_loop all_errors
  validate_loop-Faithful approved current schemas [] f = refl
  validate_loop-Faithful approved current schemas (call ∷ calls) f =
      let one =
        validate_known js schemas call (lookup approved call.tool) (lookup current call.tool) in
      let h =
        validate_known-OneCall approved schemas call f (lookup approved call.tool)
          (lookup current call.tool) refl in
      ap₂ ◌++◌ h.0 (validate_loop-Faithful approved current one.1 calls h.1)

  -- The errors of the calls are those that each call has by itself, its schema compiled for it alone.
  pub validate_loop-uncached :
      (approved current : List (Bytes × Tool S)) (calls : List (Call A))
      → validate_loop js approved current [] calls ≡ all_errors approved current calls
  unfolding lookup
  validate_loop-uncached approved current calls =
      validate_loop-Faithful approved current [] calls (λ name tool c e h. absurd (ground arith))
