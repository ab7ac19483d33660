-- ===== src/Lib.antt =====
-- A model of jinn, the sandboxed tool server in Go, and theorems about it. What is modelled is the pure
-- core of the tools that read, edit and run things; files, processes and the network are not.
--
-- The parts, and the code that each stands for:
--
--   Base        what the parts share: tests on numbers, lists, and the functions of Go's standard library
--               that the code calls (strings.Split, Join, TrimSpace, HasPrefix, the verb %d, the decoding
--               of UTF-8). A Go string is a list of bytes.
--   Normalize   internal/jinn/normalize.go: line endings, the byte order mark, the normal form for fuzzy
--               matching.
--   Diff        internal/jinn/diff.go, and splitDiffLines of internal/jinn/diff_edit_fast.go: the line
--               diff. computeEditScript fills a table and walks back through it; Diff/Hunks holds
--               computeHunks and Diff/Render the printing up to unifiedDiff and generateDiff.
--   Patch       internal/jinn/patch.go: the parser of patches. An index into the lines is the list of the
--               lines from there on. Patch/Apply is internal/jinn/patch_apply.go: seekSequence,
--               resolveChunk, splitLineRecords and deriveUpdatedContent, which uses Normalize.
--   Output      internal/jinn/output.go: the cuts of tool output by lines and bytes.
--   ReadWindow  internal/jinn/read_window.go, with buildReadHint of internal/jinn/tool_read_trunc.go: the
--               window of read_file and the line to continue at; it cuts with the functions of Output.
--   Plan        internal/jinn/plan_types.go and plan_engine.go: what validatePlan accepts. Plan/Gate is what
--               runPlanOp and runMutatingOp let through, Plan/Results the records and the budget of a run,
--               and Plan/Run the loop of runPlanTree.
--   Smart       internal/jinn/truncate_smart.go: the scanner of braces, literals and comments, and the cut of
--               source text at a line where none is open.
--   Batch       internal/mcpbatch: a batch of calls to an MCP server. Batch/Input is input.go, Batch/Preflight
--               validation.go, and Batch/Pool execute.go: a step relation of the scheduler, the workers and
--               the parent's cancellation, with one atomic access to a shared value a step; the closing of
--               the channel of jobs belongs to the scheduler's last step.
--   Edit        internal/jinn/edit_apply.go: mapNormalizedText, as a pass over the lines with what it has built
--               so far, and applyEdit; it uses Normalize.
--   MultiEdit   internal/jinn/multi_edit_overlap.go: the offsets of the edits of one call, their sort and
--               the test for overlaps. A map from files to offsets is an association list.
--   Command     internal/jinn/command_risk_parse.go: stripShellComments, shellFields, and effectiveCommand
--               with the payloads of all wrappers. Words are lists of runes, since shellFields
--               writes runes; a loop over the words is a judgement of one word, and its index is counted from that word.
--   Questionnaire
--               internal/jinn/questionnaire.go: what ValidateQuestionnaire refuses, and the answers that
--               QuestionnaireAnswers accepts.
--   ExitCode    internal/jinn/exitcode.go: classes of exit codes, and hints on error output.
--   Tests       runs of the functions, and the theorems at concrete inputs.
--
-- A function of the model carries the name of the Go function in snake case. Errors are values: `Result`
-- in the parser, `Outcome` in the application of a patch, where `panic` is an index or a slice out of
-- range, and `Option` elsewhere. Loops are recursion on the list that they read. Fuel is used by
-- `parse_operations` and `collect_update_chunks` (the number of lines left, since every round takes a
-- line), `run_rounds` (two more rounds than the depth limit), `walk` (the lines of both texts),
-- `records_within` (the bytes of the file), `map_lines`, `map_runes`
-- and `sort_within` (the bytes or entries left), `effective_within` (the runes and words left) and
-- `decimal`; the theorems show or use that it is enough.
--
-- What is a parameter: in Plan the compiler of regular expressions, the tool registry, the classifier of
-- commands, the shell and the dispatcher, the evaluation of conditions, the size of the encoded transcript
-- and the cancellation of the context (operations of a parallel node take effect in their order); in
-- ExitCode strings.ToLower and filepath.Base; in ReadWindow the storing of the remainder of a file; in
-- Batch the packages encoding/json and jsonschema, the projector, and the replies of the caller, which come
-- back for every call. Numbers in JSON arguments of read_file are taken
-- after their conversion to integers. Integers do not overflow: they count lines and bytes of texts in
-- memory.
--
-- What is not modelled: the files that the edit tools read and write, the rest of the
-- classifier of commands and the compression of output, which are further pure code; and storage, processes, language
-- servers, the network and the transport in cmd/jinn, which are input and output.
pub mod Base
pub mod Batch
pub mod Command
pub mod Diff
pub mod Edit
pub mod ExitCode
pub mod MultiEdit
pub mod Normalize
pub mod Output
pub mod Patch
pub mod Plan
pub mod Questionnaire
pub mod ReadWindow
pub mod Smart
pub mod Tests
