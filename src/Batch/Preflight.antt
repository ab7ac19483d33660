-- ===== src/Batch/Preflight.antt =====
-- internal/mcpbatch/validation.go: a batch is held against the approved and the current tools before any
-- of its calls is made.
pub mod Cached
pub mod Cleared
use jinn.Base.{
  Bool, true, false, not, ◌||◌, ◌&&◌, Option, none, some, List, [], ◌∷◌, ◌++◌, Bytes, codes,
  bytes_eq, if◌then◌else◌,
}
use jinn.Plan.{empty}
use jinn.Batch.{Call, Request}

pub record Annotations : Type 0 where
  pub read_only_hint : Option Bool
  pub destructive_hint : Option Bool

-- A tool of the server; the type of its input schema is `S`.
pub record Tool (S : Type 0) : Type 0 where
  pub name : Bytes
  pub annotations : Option Annotations
  pub input_schema : S

pub data ToolsError : Type 0 where
  no_name : ToolsError
  duplicate_tool : Bytes → ToolsError

pub data ToolsByName (S : Type 0) : Type 0 where
  bad_tools : ToolsError → ToolsByName S
  by_name : List (Bytes × Tool S) → ToolsByName S

pub data SchemaError : Type 0 where
  encode_failed decode_failed register_failed compile_failed : SchemaError

-- compiledSchema: a schema, or the error of compiling it.
pub data CompiledSchema (C : Type 0) : Type 0 where
  schema : C → CompiledSchema C
  failed : SchemaError → CompiledSchema C

pub data CallError : Type 0 where
  unapproved not_read_only : Bytes → Bytes → CallError
  no_schema : Bytes → SchemaError → CallError
  bad_arguments : Bytes → CallError

-- What Validate returns; `calls_refused []` is the nil that joining no errors gives.
pub data Verdict : Type 0 where
  bad_approved bad_current : ToolsError → Verdict
  calls_refused : List CallError → Verdict

-- A key of a map of strings.
unfoldable pub lookup {ℓ} : {V : Type ℓ} → List (Bytes × V) → Bytes → Option V
lookup [] key = none
lookup ((k, v) ∷ entries) key =
    let rest = lookup entries key in if bytes_eq k key then some v else rest

abbrev pub is_present {ℓ} : {V : Type ℓ} → Option V → Bool
is_present (some v) = true
is_present none = false

abbrev pub is_set : Option Bool → Bool
is_set (some b) = b
is_set none = false

abbrev pub hints_read_only : Option Annotations → Bool
hints_read_only none = false
hints_read_only (some a) = is_set a.read_only_hint && not (is_set a.destructive_hint)

-- isReadOnly
abbrev pub is_read_only : {S : Type 0} → Tool S → Bool
is_read_only tool = hints_read_only tool.annotations

-- The loop of toolsByName over the tools, a nil tool being `none`, with the map filled so far.
unfoldable pub collect_tools :
    {S : Type 0} → List (Bytes × Tool S) → List (Option (Tool S)) → ToolsByName S
collect_tools seen [] = ToolsByName.by_name seen
collect_tools seen (none ∷ tools) = ToolsByName.bad_tools ToolsError.no_name
collect_tools seen (some tool ∷ tools) =
    let rest = collect_tools ((tool.name, tool) ∷ seen) tools in
    if empty tool.name
    then ToolsByName.bad_tools ToolsError.no_name
    else if is_present (lookup seen tool.name)
    then ToolsByName.bad_tools (ToolsError.duplicate_tool tool.name)
    else rest

abbrev pub tools_by_name : {S : Type 0} → List (Option (Tool S)) → ToolsByName S
tools_by_name tools = collect_tools [] tools

-- The arguments of a call, a nil map being the empty one.
abbrev pub arguments_of : {A : Type 0} → A → Option A → A
arguments_of no_arguments none = no_arguments
arguments_of no_arguments (some arguments) = arguments

-- What the packages json and jsonschema do: the encoding of a schema, the document of its text, whether a
-- compiler that loads nothing takes a document under a location and what it compiles it to, whether a
-- compiled schema accepts arguments; and the empty map of arguments.
pub record JsonSchema (A S D C : Type 0) : Type 0 where
  pub marshal : S → Option Bytes
  pub unmarshal : Bytes → Option D
  pub add_resource : Bytes → D → Bool
  pub compile : Bytes → D → Option C
  pub accepts : C → A → Bool
  pub no_arguments : A

module _ {A S D C : Type 0} (js : JsonSchema A S D C) where
  abbrev pub compile_document : Bytes → Option D → CompiledSchema C
  compile_document location none = CompiledSchema.failed SchemaError.decode_failed
  compile_document location (some document) =
      if not (js.add_resource location document)
      then CompiledSchema.failed SchemaError.register_failed
      else elim (js.compile location document) [
        | none ↦ CompiledSchema.failed SchemaError.compile_failed
        | some c ↦ CompiledSchema.schema c
      ]

  abbrev pub compile_approved_schema : Tool S → CompiledSchema C
  compile_approved_schema tool = elim (js.marshal tool.input_schema) [
    | none ↦ CompiledSchema.failed SchemaError.encode_failed
    | some raw ↦ compile_document (codes "urn:jinn:mcp-batch:" ++ tool.name) (js.unmarshal raw)
  ]

  -- What a compiled schema has to say of a call.
  abbrev pub schema_errors : Call A → CompiledSchema C → List CallError
  schema_errors call (CompiledSchema.failed e) = CallError.no_schema call.id e ∷ []
  schema_errors call (CompiledSchema.schema c) =
      if js.accepts c (arguments_of js.no_arguments call.arguments)
      then []
      else CallError.bad_arguments call.id ∷ []

  -- The compiled schema of a call's tool, from the cache if it is there.
  abbrev pub compiled_for : Option (CompiledSchema C) → Tool S → CompiledSchema C
  compiled_for (some compiled) tool = compiled
  compiled_for none tool = compile_approved_schema tool

  abbrev pub extended :
      Bytes
      → CompiledSchema C
      → Option (CompiledSchema C)
      → List (Bytes × CompiledSchema C)
      → List (Bytes × CompiledSchema C)
  extended name compiled (some old) schemas = schemas
  extended name compiled none schemas = (name, compiled) ∷ schemas

  -- One call: its errors, and the cache behind it.
  abbrev pub validate_known :
      List (Bytes × CompiledSchema C)
      → Call A
      → Option (Tool S)
      → Option (Tool S)
      → List CallError × List (Bytes × CompiledSchema C)
  validate_known schemas call (some approved) (some current) =
      let compiled = compiled_for (lookup schemas call.tool) approved in
      if not (is_read_only approved) || not (is_read_only current)
      then (CallError.not_read_only call.id call.tool ∷ [], schemas)
      else (
        schema_errors call compiled,
        extended call.tool compiled (lookup schemas call.tool) schemas,
      )
  validate_known schemas call _ _ = (CallError.unapproved call.id call.tool ∷ [], schemas)

  -- The loop over the calls, with the cache of compiled schemas.
  unfoldable pub validate_loop :
      List (Bytes × Tool S)
      → List (Bytes × Tool S)
      → List (Bytes × CompiledSchema C)
      → List (Call A)
      → List CallError
  validate_loop approved current schemas [] = []
  validate_loop approved current schemas (call ∷ calls) =
      let one =
        validate_known schemas call (lookup approved call.tool) (lookup current call.tool) in
      one.0 ++ validate_loop approved current one.1 calls

  abbrev pub validated : Request A → ToolsByName S → ToolsByName S → Verdict
  validated input (ToolsByName.bad_tools e) current = Verdict.bad_approved e
  validated input (ToolsByName.by_name a) (ToolsByName.bad_tools e) = Verdict.bad_current e
  validated input (ToolsByName.by_name a) (ToolsByName.by_name c) =
      Verdict.calls_refused (validate_loop a c [] input.calls)

  unfoldable pub validate : Request A → List (Option (Tool S)) → List (Option (Tool S)) → Verdict
  validate input approved current = validated input (tools_by_name approved) (tools_by_name current)
