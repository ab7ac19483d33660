-- ===== src/Batch/Preflight/Cleared.antt =====
-- What is known of every call of a batch that passes the preflight.
use jinn.Base.{
  ℕ, suc, ◌≡◌, ◌≢◌, refl, sym, ap, ◌∙◌, ◌⊎◌, inl, inr, Bool, true, not, ◌||◌, Option, none, some,
  List, [], ◌∷◌, ◌++◌, Bytes, bytes_eq, bytes_eq_iff, get_elem?, if_cases, arith,
}
use jinn.Plan.{empty}
use jinn.Batch.{Call, Request}
use jinn.Batch.Preflight.{
  Annotations, Tool, JsonSchema, ToolsByName, CompiledSchema, CallError, Verdict, lookup, is_set,
  is_present, hints_read_only, is_read_only, collect_tools, tools_by_name, arguments_of,
  compile_approved_schema, schema_errors, validate_loop, validated, validate,
}
use jinn.Batch.Preflight.Cached.{call_errors, all_errors, validate_loop-uncached}

-- A tool of a list that may have nil entries.
abbrev pub ToolOf : {S : Type 0} → List (Option (Tool S)) → Tool S → Type 0
ToolOf tools tool = (i : ℕ) × (get_elem? tools i ≡ some (some tool))

-- A tool that says it only reads, and does not say it destroys.
abbrev pub ReadOnly : {S : Type 0} → Tool S → Type 0
ReadOnly tool =
    (a : Annotations) × (tool.annotations ≡ some a)
    × (a.read_only_hint ≡ some true)
    × (a.destructive_hint ≢ some true)

set_of : (o : Option Bool) → is_set o ≡ true → o ≡ some true
set_of (some b) h = rw h refl
set_of none h = ground arith

hints-ReadOnly :
    (o : Option Annotations)
    → hints_read_only o ≡ true
    → (a : Annotations) × (o ≡ some a)
      × (a.read_only_hint ≡ some true)
      × (a.destructive_hint ≢ some true)
hints-ReadOnly none h = ground arith
hints-ReadOnly (some a) h = (
  a,
  refl,
  set_of a.read_only_hint (ground arith),
  λ e. let q : is_set a.destructive_hint ≡ true = rw e refl in ground arith,
)

module _ {S : Type 0} where
  -- A tool found under a name was there before, or is one of the tools and has that name.
  Found : List (Bytes × Tool S) → List (Option (Tool S)) → Bytes → Tool S → Type 0
  Found seen tools name tool =
      (lookup seen name ≡ some tool) ⊎ (ToolOf tools tool × (tool.name ≡ name))

  one_more :
      (seen : List (Bytes × Tool S)) (t : Tool S) (tools : List (Option (Tool S))) (name : Bytes)
      (tool : Tool S)
      → Found ((t.name, t) ∷ seen) tools name tool
      → Found seen (some t ∷ tools) name tool
  unfolding Found lookup
  one_more seen t tools name tool (inr ((i, e), n)) = inr ((suc i, e), n)
  one_more seen t tools name tool (inl e) =
      if_cases (λ o. o ≡ some tool → Found seen (some t ∷ tools) name tool) (bytes_eq t.name name)
        (some t) (lookup seen name)
        (λ same h.
          let q : t ≡ tool = cc in
          let n : t.name ≡ name = (bytes_eq_iff t.name name).0 same in
          inr ((0, ap some h), rw (sym q) n))
        (λ _ h. inl h) e

  collect_tools-Found :
      (seen : List (Bytes × Tool S)) (tools : List (Option (Tool S))) (m : List (Bytes × Tool S))
      (name : Bytes) (tool : Tool S)
      → collect_tools seen tools ≡ ToolsByName.by_name m
      → lookup m name ≡ some tool
      → Found seen tools name tool
  unfolding collect_tools Found
  collect_tools-Found seen [] m name tool h e = inl (let q : seen ≡ m = cc in rw q e)
  collect_tools-Found seen (none ∷ tools) m name tool h e = ground arith
  collect_tools-Found seen (some t ∷ tools) m name tool h e =
      if_cases (λ r. r ≡ ToolsByName.by_name m → Found seen (some t ∷ tools) name tool)
        (empty t.name) _ _ (λ _ k. absurd (ground arith))
        (λ _.
          if_cases (λ r. r ≡ ToolsByName.by_name m → Found seen (some t ∷ tools) name tool)
            (is_present (lookup seen t.name)) _ _ (λ _ k. absurd (ground arith))
            (λ _ k.
              one_more seen t tools name tool
                (collect_tools-Found ((t.name, t) ∷ seen) tools m name tool k e)))
        h

  -- What a map holds under a name is one of its tools and has that name.
  tools_by_name-Found :
      (tools : List (Option (Tool S))) (m : List (Bytes × Tool S)) (name : Bytes) (tool : Tool S)
      → tools_by_name tools ≡ ToolsByName.by_name m
      → lookup m name ≡ some tool
      → ToolOf tools tool × (tool.name ≡ name)
  unfolding Found lookup
  tools_by_name-Found tools m name tool h e = elim (collect_tools-Found [] tools m name tool h e) [
    | inl seen ↦ absurd (ground arith)
    | inr found ↦ found
  ]

module _ {A S D C : Type 0} (js : JsonSchema A S D C) where
  -- A call that may be made: its tool is among the approved and the current ones, says in both that it
  -- only reads, and its approved schema compiles to one that accepts the arguments.
  abbrev pub Cleared : List (Option (Tool S)) → List (Option (Tool S)) → Call A → Type 0
  Cleared approved current call =
      (a : Tool S) × (c : Tool S) × (ToolOf approved a × (a.name ≡ call.tool))
      × (ToolOf current c × (c.name ≡ call.tool))
      × ReadOnly a
      × ReadOnly c
      × (s : C) × (compile_approved_schema js a ≡ CompiledSchema.schema s)
      × (js.accepts s (arguments_of js.no_arguments call.arguments) ≡ true)

  abbrev pub AllCleared : List (Option (Tool S)) → List (Option (Tool S)) → List (Call A) → Type 0
  AllCleared approved current [] = Unit
  AllCleared approved current (call ∷ calls) =
      Cleared approved current call × AllCleared approved current calls

  schema_errors-none :
      (call : Call A) (r : CompiledSchema C)
      → schema_errors js call r ≡ []
      → (s : C) × (r ≡ CompiledSchema.schema s)
        × (js.accepts s (arguments_of js.no_arguments call.arguments) ≡ true)
  schema_errors-none call (CompiledSchema.failed e) h = ground arith
  schema_errors-none call (CompiledSchema.schema s) h =
      if_cases
        (λ errors.
          errors ≡ []
          → (s' : C) × (CompiledSchema.schema s ≡ CompiledSchema.schema s')
            × (js.accepts s' (arguments_of js.no_arguments call.arguments) ≡ true))
        (js.accepts s (arguments_of js.no_arguments call.arguments)) _ _ (λ t _. (s, refl, t))
        (λ _ k. absurd (ground arith)) h

  module _ (approved current : List (Option (Tool S))) (ms cs : List (Bytes × Tool S))
      (ha : tools_by_name approved ≡ ToolsByName.by_name ms)
      (hc : tools_by_name current ≡ ToolsByName.by_name cs) where
    call_errors-Cleared :
        (call : Call A) (a c : Option (Tool S))
        → lookup ms call.tool ≡ a
        → lookup cs call.tool ≡ c
        → call_errors js call a c ≡ []
        → Cleared approved current call
    call_errors-Cleared call none c ea ec h = ground arith
    call_errors-Cleared call (some a) none ea ec h = ground arith
    call_errors-Cleared call (some a) (some c) ea ec h =
        if_cases (λ errors. errors ≡ [] → Cleared approved current call)
          (not (is_read_only a) || not (is_read_only c)) _ _ (λ _ k. absurd (ground arith))
          (λ t k.
            let (s, e, v) = schema_errors-none call _ k in
            (
              a,
              c,
              tools_by_name-Found approved ms call.tool a ha ea,
              tools_by_name-Found current cs call.tool c hc ec,
              hints-ReadOnly a.annotations (ground arith),
              hints-ReadOnly c.annotations (ground arith),
              s,
              e,
              v,
            ))
          h

    nothing_joined : (x y : List CallError) → (x ++ y) ≡ [] → (x ≡ []) × (y ≡ [])
    nothing_joined [] y h = (refl, h)
    nothing_joined (e ∷ x) y h = ground arith

    all_errors-AllCleared :
        (calls : List (Call A)) → all_errors js ms cs calls ≡ [] → AllCleared approved current calls
    unfolding all_errors
    all_errors-AllCleared [] h = tt
    all_errors-AllCleared (call ∷ calls) h =
        let (a, b) = nothing_joined _ _ h in
        (call_errors-Cleared call _ _ refl refl a, all_errors-AllCleared calls b)

  validated-AllCleared :
      (input : Request A) (approved current : List (Option (Tool S))) (ms cs : ToolsByName S)
      → tools_by_name approved ≡ ms
      → tools_by_name current ≡ cs
      → validated js input ms cs ≡ Verdict.calls_refused []
      → AllCleared approved current input.calls
  validated-AllCleared input approved current (ToolsByName.bad_tools e) cs ha hc h = ground arith
  validated-AllCleared input approved current (ToolsByName.by_name ms) (ToolsByName.bad_tools e) ha
        hc h =
      ground arith
  validated-AllCleared input approved current (ToolsByName.by_name ms) (ToolsByName.by_name cs) ha
        hc h =
      let none_left : validate_loop js ms cs [] input.calls ≡ [] = cc in
      all_errors-AllCleared approved current ms cs ha hc input.calls
        (sym (validate_loop-uncached js ms cs input.calls) ∙ none_left)

  -- If Validate returns no error, every call names a tool that is among the approved and among the current
  -- ones and says in both that it only reads and not that it destroys; and the approved tool's schema
  -- compiles and accepts the call's arguments.
  pub validate-AllCleared :
      (input : Request A) (approved current : List (Option (Tool S)))
      → validate js input approved current ≡ Verdict.calls_refused []
      → AllCleared approved current input.calls
  unfolding validate
  validate-AllCleared input approved current h =
      validated-AllCleared input approved current _ _ refl refl h
