-- ===== src/Patch.antt =====
-- internal/jinn/patch.go: the parser of Codex-style patches. A cursor into `lines` is the list of the
-- lines from the cursor to the last line of content. `Apply` models patch_apply.go.
pub mod Shape
pub mod Endings
pub mod Splice
pub mod Update
pub mod Records
pub mod Seek
pub mod Apply
use jinn.Base.{
  ℕ, zero, suc, ◌+◌, ◌<◌, Bool, true, false, not, ◌&&◌, ◌||◌, List, [], ◌∷◌, ◌++◌, Bytes, codes,
  bytes_eq, has_prefix, length, drop, split, join, trim_right, trim_space, ltb, ◌==◌, if◌then◌else◌,
}
use jinn.Normalize.{lf, normalize_to_lf, is_blank}

-- An updateChunk.
pub record UpdateChunk : Type 0 where
  pub context : Bytes
  pub old_lines : List Bytes
  pub new_lines : List Bytes
  pub is_eof : Bool

-- A patchOperation, by its kind: "add", "delete" or "update".
pub data PatchOperation : Type 0 where
  add : Bytes → Bytes → PatchOperation
  delete : Bytes → PatchOperation
  update : Bytes → List UpdateChunk → PatchOperation

-- The errors of the parser, with the text that their message quotes. `out_of_fuel` belongs to the
-- model alone.
pub data ParseError : Type 0 where
  empty_patch bad_first_line bad_last_line no_operations : ParseError
  bad_header bad_add_line no_context_marker bad_hunk_line : Bytes → ParseError
  move_unsupported empty_hunk : ParseError
  empty_update : Bytes → ParseError
  in_update : Bytes → ParseError → ParseError
  out_of_fuel : ParseError

pub data Result {ℓ} (A : Type ℓ) : Type ℓ where
  ok : A → Result A
  err : ParseError → Result A

infixl 5 ◌>>=◌
abbrev pub ◌>>=◌ {ℓ κ} : {A : Type ℓ} {B : Type κ} → Result A → (A → Result B) → Result B
ok a >>= f = f a
err e >>= f = err e

abbrev add_header : Bytes
add_header = codes "*** Add File: "

abbrev delete_header : Bytes
delete_header = codes "*** Delete File: "

abbrev update_header : Bytes
update_header = codes "*** Update File: "

abbrev section_mark : Bytes
section_mark = codes "*** "

-- The lines of an added file, and the lines behind them.
unfoldable pub add_lines : List Bytes → Result (List Bytes × List Bytes)
unfolding has_prefix trim_space
add_lines [] = ok ([], [])
add_lines (next ∷ rest) =
    let onward : Result (List Bytes × List Bytes) = (do
      (content, after) ← add_lines rest
      ok (drop 1 next ∷ content, after)) in
    if has_prefix (trim_space next) section_mark
    then ok ([], next ∷ rest)
    else if has_prefix next (b'+' ∷ [])
    then onward
    else err (bad_add_line next)

unfoldable pub add_contents : List Bytes → Bytes
unfolding join
add_contents [] = []
add_contents (l ∷ ls) = join lf (l ∷ ls) ++ lf ∷ []

unfoldable pub parse_add_file : Bytes → List Bytes → Result (PatchOperation × List Bytes)
unfolding add_lines add_contents
parse_add_file header rest = do
  (content, after) ← add_lines rest
  ok (add (drop (length add_header) header) (add_contents content), after)

abbrev finished :
    Bytes → List Bytes → List Bytes → Bool → List Bytes → Result (UpdateChunk × List Bytes)
finished ctx old new eof after =
    ok (record { context = ctx; old_lines = old; new_lines = new; is_eof = eof }, after)

-- The loop of parseUpdateChunk over the lines of one hunk. `parsed` counts the lines taken.
unfoldable pub chunk_lines :
    Bytes → List Bytes → List Bytes → List Bytes → ℕ → Result (UpdateChunk × List Bytes)
unfolding bytes_eq has_prefix trim_right
chunk_lines ctx [] old new parsed =
    if parsed == 0 then err empty_hunk else finished ctx old new false []
chunk_lines ctx (raw ∷ rest) old new parsed =
    let trimmed = trim_right is_blank raw in
    let blank = chunk_lines ctx rest (old ++ [] ∷ []) (new ++ [] ∷ []) (parsed + 1) in
    let both =
      chunk_lines ctx rest (old ++ drop 1 raw ∷ []) (new ++ drop 1 raw ∷ []) (parsed + 1) in
    let minus = chunk_lines ctx rest (old ++ drop 1 raw ∷ []) new (parsed + 1) in
    let plus = chunk_lines ctx rest old (new ++ drop 1 raw ∷ []) (parsed + 1) in
    if bytes_eq trimmed (codes "*** End of File")
    then (if parsed == 0 then err empty_hunk else finished ctx old new true rest)
    else if ltb 0 parsed && (has_prefix trimmed (codes "@@") || has_prefix trimmed section_mark)
    then finished ctx old new false (raw ∷ rest)
    else if bytes_eq raw []
    then blank
    else if has_prefix raw (codes " ")
    then both
    else if has_prefix raw (codes "-")
    then minus
    else if has_prefix raw (codes "+")
    then plus
    else if parsed == 0
    then err (bad_hunk_line raw)
    else finished ctx old new false (raw ∷ rest)

-- parseUpdateChunk at the line `raw`.
unfoldable pub parse_update_chunk : Bytes → List Bytes → Bool → Result (UpdateChunk × List Bytes)
unfolding chunk_lines
parse_update_chunk raw rest allow_missing_context =
    let first = trim_right is_blank raw in
    if bytes_eq first (codes "@@")
    then chunk_lines [] rest [] [] 0
    else if has_prefix first (codes "@@ ")
    then chunk_lines (drop 3 first) rest [] [] 0
    else if allow_missing_context
    then chunk_lines [] (raw ∷ rest) [] [] 0
    else err (no_context_marker raw)

-- collectUpdateChunks; `started` tells that a chunk has been read.
unfoldable pub collect_update_chunks :
    ℕ → List Bytes → Bool → Result (List UpdateChunk × List Bytes)
unfolding parse_update_chunk
collect_update_chunks fuel [] started = ok ([], [])
collect_update_chunks zero (line ∷ rest) started = err out_of_fuel
collect_update_chunks (suc fuel) (line ∷ rest) started =
    let skip = collect_update_chunks fuel rest started in
    let onward : Result (List UpdateChunk × List Bytes) = (do
      (chunk, after) ← parse_update_chunk line rest (not started)
      (chunks, after') ← collect_update_chunks fuel after true
      ok (chunk ∷ chunks, after')) in
    if bytes_eq (trim_space line) []
    then skip
    else if has_prefix (trim_space line) section_mark
    then ok ([], line ∷ rest)
    else onward

abbrev starts_move : List Bytes → Bool
starts_move [] = false
starts_move (line ∷ rest) = has_prefix (trim_space line) (codes "*** Move to: ")

-- fmt.Errorf("update %s: %w", path, err)
abbrev within_update {ℓ} : {A : Type ℓ} → Bytes → Result A → Result A
within_update path (ok a) = ok a
within_update path (err e) = err (in_update path e)

abbrev some_chunks : Bytes → List UpdateChunk → List Bytes → Result (PatchOperation × List Bytes)
some_chunks path [] after = err (empty_update path)
some_chunks path (chunk ∷ more) after = ok (update path (chunk ∷ more), after)

unfoldable pub parse_update_file : Bytes → List Bytes → Result (PatchOperation × List Bytes)
unfolding collect_update_chunks
parse_update_file header rest =
    let path = drop (length update_header) header in
    let read : Result (PatchOperation × List Bytes) = (do
      (chunks, after) ← within_update path (collect_update_chunks (length rest) rest false)
      some_chunks path chunks after) in
    if starts_move rest then err move_unsupported else read

-- An operation, and those that `more` reads behind it.
abbrev and_more :
    (List Bytes → Result (List PatchOperation))
    → Result (PatchOperation × List Bytes)
    → Result (List PatchOperation)
and_more more read = do (op, after) ← read; ops ← more after; ok (op ∷ ops)

-- The loop of parsePatch.
unfoldable pub parse_operations : ℕ → List Bytes → Result (List PatchOperation)
parse_operations fuel [] = ok []
parse_operations zero (raw ∷ rest) = err out_of_fuel
parse_operations (suc fuel) (raw ∷ rest) =
    let line = trim_space raw in
    let more = parse_operations fuel in
    let skip = more rest in
    let added = and_more more (parse_add_file line rest) in
    let deleted = and_more more (ok (delete (drop (length delete_header) line), rest)) in
    let updated = and_more more (parse_update_file line rest) in
    if bytes_eq line []
    then skip
    else if has_prefix line add_header
    then added
    else if has_prefix line delete_header
    then deleted
    else if has_prefix line update_header
    then updated
    else err (bad_header line)

-- The last line, and the lines before it.
abbrev unsnoc : Bytes → List Bytes → List Bytes × Bytes
unsnoc first [] = ([], first)
unsnoc first (l ∷ ls) = let (init, last) = unsnoc l ls in (first ∷ init, last)

-- What follows the operations' loop: a patch has at least one.
abbrev some_operations : List PatchOperation → Result (List PatchOperation)
some_operations [] = err no_operations
some_operations (op ∷ ops) = ok (op ∷ ops)

-- The patch between its first line and the rest of its lines.
unfoldable pub parse_lines : List Bytes → Result (List PatchOperation)
parse_lines (first ∷ second ∷ rest) =
    let (content, last) = unsnoc second rest in
    let body : Result (List PatchOperation) = (do
      ops ← parse_operations (length content) content
      some_operations ops) in
    if not (bytes_eq (trim_space first) (codes "*** Begin Patch"))
    then err bad_first_line
    else if not (bytes_eq (trim_space last) (codes "*** End Patch"))
    then err bad_last_line
    else body
parse_lines _ = err empty_patch

unfoldable pub parse_patch : Bytes → Result (List PatchOperation)
unfolding parse_lines parse_operations parse_add_file parse_update_file bytes_eq has_prefix split
    normalize_to_lf trim_space
parse_patch text = parse_lines (split lf (normalize_to_lf (trim_space text)))
