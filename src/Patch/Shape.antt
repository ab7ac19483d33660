-- ===== src/Patch/Shape.antt =====
-- What the patch parser returns: it always ends within its fuel, and what it accepts has the shape
-- that the apply step relies on.
use native.Mathlib.Nat.{le_refl}
use jinn.Base.{
  ℕ, zero, suc, ◌+◌, ◌≤◌, ◌<◌, ◌≡◌, refl, Bool, true, false, not, List, [], ◌∷◌, ◌++◌, Bytes,
  bytes_eq, has_prefix, length, length-append, drop, trim_right, trim_space, split, if◌then◌else◌,
  arith,
}
use jinn.Normalize.{lf, normalize_to_lf, is_blank}
use jinn.Patch.{
  UpdateChunk, PatchOperation, delete, update, ParseError, out_of_fuel, in_update, finished, Result,
  ok, err, ◌>>=◌, add_lines, parse_add_file, chunk_lines, parse_update_chunk, collect_update_chunks,
  parse_update_file, within_update, some_chunks, some_operations, unsnoc, and_more, bad_header,
  add_header, update_header, delete_header, parse_operations, parse_lines, parse_patch,
}

-- An error of the parser itself, not of the model's fuel.
abbrev pub Reported : ParseError → Type 0
Reported out_of_fuel = ⊥
Reported (in_update path e) = Reported e
Reported _ = Unit

-- A value of the wanted kind, or an error of the parser.
abbrev pub Ends : {V : Type 0} → (V → Type 0) → Result V → Type 0
Ends Wanted (ok v) = Wanted v
Ends Wanted (err problem) = Reported problem

-- What reads on from a wanted value ends as its own part does.
Ends-bind :
    {V W : Type 0} (First : V → Type 0) (Last : W → Type 0) (part : Result V)
    (onward : V → Result W)
    → Ends First part
    → ((v : V) → First v → Ends Last (onward v))
    → Ends Last (part >>= onward)
Ends-bind First Last (ok v) onward here there = there v here
Ends-bind First Last (err problem) onward here there = here

-- A hunk has at least one line.
abbrev pub HasLines : UpdateChunk → Type 0
HasLines c = 0 < length c.old_lines + length c.new_lines

abbrev pub AllHaveLines : List UpdateChunk → Type 0
AllHaveLines [] = Unit
AllHaveLines (c ∷ cs) = HasLines c × AllHaveLines cs

-- An update has at least one hunk, and each of its hunks a line.
abbrev pub IsUsable : PatchOperation → Type 0
IsUsable (update path []) = ⊥
IsUsable (update path (c ∷ cs)) = AllHaveLines (c ∷ cs)
IsUsable _ = Unit

abbrev pub AllUsable : List PatchOperation → Type 0
AllUsable [] = Unit
AllUsable (op ∷ ops) = IsUsable op × AllUsable ops

add_lines-Ends : (ls : List Bytes) → Ends (λ r. length r.1 ≤ length ls) (add_lines ls)
unfolding add_lines
add_lines-Ends [] = omega arith
add_lines-Ends (l ∷ ls) = ground (arith, add_lines-Ends ls)

-- The first line of a hunk is taken; the cursor never goes back.
abbrev Taken : ℕ → List Bytes → UpdateChunk × List Bytes → Type 0
Taken parsed ls (chunk, after) =
    HasLines chunk × (length after ≤ length ls) × (parsed ≡ 0 → length after < length ls)

Taken-weaken :
    (parsed : ℕ) (raw : Bytes) (rest : List Bytes) (r : Result (UpdateChunk × List Bytes))
    → Ends (Taken (parsed + 1) rest) r
    → Ends (Taken parsed (raw ∷ rest)) r
Taken-weaken parsed raw rest (ok (chunk, after)) (a, b, c) = (a, omega arith, λ z. omega arith)
Taken-weaken parsed raw rest (err e) h = h

finished-Taken :
    (ctx : Bytes) (ls old new after : List Bytes) (parsed : ℕ) (eof : Bool)
    → parsed ≤ length old + length new
    → 0 < parsed
    → length after ≤ length ls
    → Ends (Taken parsed ls) (finished ctx old new eof after)
finished-Taken ctx ls old new after parsed eof h pos le =
    (omega arith, le, λ z. absurd (omega arith))

chunk_lines-Ends :
    (ctx : Bytes) (ls old new : List Bytes) (parsed : ℕ)
    → parsed ≤ length old + length new
    → Ends (Taken parsed ls) (chunk_lines ctx ls old new parsed)
unfolding chunk_lines
chunk_lines-Ends ctx [] old new parsed h = ground arith
chunk_lines-Ends ctx (raw ∷ rest) old new parsed h =
    let more : (old' new' : List Bytes)
        → parsed + 1 ≤ length old' + length new'
        → Ends (Taken parsed (raw ∷ rest)) (chunk_lines ctx rest old' new' (parsed + 1)) =
      λ old' new' le.
        Taken-weaken parsed raw rest (chunk_lines ctx rest old' new' (parsed + 1))
          (chunk_lines-Ends ctx rest old' new' (parsed + 1) le) in
    let body = drop 1 raw in
    ground (
      arith,
      more (old ++ [] ∷ []) (new ++ [] ∷ [])
          (omega (arith, length-append old ([] ∷ []), length-append new ([] ∷ []))),
      more (old ++ body ∷ []) (new ++ body ∷ [])
          (omega (arith, length-append old (body ∷ []), length-append new (body ∷ []))),
      more (old ++ body ∷ []) new (omega (arith, length-append old (body ∷ []))),
      more old (new ++ body ∷ []) (omega (arith, length-append new (body ∷ []))),
    )

-- The cursor after a hunk stands behind the line at which it was read.
abbrev Read : List Bytes → UpdateChunk × List Bytes → Type 0
Read rest (chunk, after) = HasLines chunk × (length after ≤ length rest)

Read-of_Taken :
    (rest : List Bytes) (r : Result (UpdateChunk × List Bytes))
    → Ends (Taken 0 rest) r
    → Ends (Read rest) r
Read-of_Taken rest (ok (chunk, after)) (a, b, c) = (a, b)
Read-of_Taken rest (err e) h = h

Read-of_Taken_first :
    (raw : Bytes) (rest : List Bytes) (r : Result (UpdateChunk × List Bytes))
    → Ends (Taken 0 (raw ∷ rest)) r
    → Ends (Read rest) r
Read-of_Taken_first raw rest (ok (chunk, after)) (a, b, c) = (a, omega (arith, c refl))
Read-of_Taken_first raw rest (err e) h = h

parse_update_chunk-Ends :
    (raw : Bytes) (rest : List Bytes) (missing : Bool)
    → Ends (Read rest) (parse_update_chunk raw rest missing)
unfolding parse_update_chunk
parse_update_chunk-Ends raw rest missing =
    let ctx = drop 3 (trim_right is_blank raw) in
    ground (
      arith,
      Read-of_Taken rest (chunk_lines [] rest [] [] 0)
          (chunk_lines-Ends [] rest [] [] 0 (omega arith)),
      Read-of_Taken rest (chunk_lines ctx rest [] [] 0)
          (chunk_lines-Ends ctx rest [] [] 0 (omega arith)),
      Read-of_Taken_first raw rest (chunk_lines [] (raw ∷ rest) [] [] 0)
          (chunk_lines-Ends [] (raw ∷ rest) [] [] 0 (omega arith)),
    )

abbrev Collected : List Bytes → List UpdateChunk × List Bytes → Type 0
Collected ls (chunks, after) = AllHaveLines chunks × (length after ≤ length ls)

Collected-weaken :
    (line : Bytes) (rest : List Bytes) (r : Result (List UpdateChunk × List Bytes))
    → Ends (Collected rest) r
    → Ends (Collected (line ∷ rest)) r
Collected-weaken line rest (ok (chunks, after)) (a, b) = (a, omega arith)
Collected-weaken line rest (err e) h = h

-- A hunk, and then the hunks that `more` collects behind it.
Collected-cons :
    (line : Bytes) (rest : List Bytes) (r : Result (UpdateChunk × List Bytes))
    (more : List Bytes → Result (List UpdateChunk × List Bytes))
    → Ends (Read rest) r
    → ((ls : List Bytes) → length ls ≤ length rest → Ends (Collected ls) (more ls))
    → Ends
        (Collected (line ∷ rest))
        (do (chunk, after) ← r; (chunks, after') ← more after; ok (chunk ∷ chunks, after'))
Collected-cons line rest (err e) more h k = h
Collected-cons line rest (ok (chunk, after)) more (a, b) k =
    Ends-bind (Collected after) (Collected (line ∷ rest)) (more after) _ (k after b)
      λ (chunks, after') (c, d). ((a, c), omega arith)

collect_update_chunks-Ends :
    (fuel : ℕ) (ls : List Bytes) (started : Bool)
    → length ls ≤ fuel
    → Ends (Collected ls) (collect_update_chunks fuel ls started)
unfolding collect_update_chunks
collect_update_chunks-Ends fuel [] started h = (tt, omega arith)
collect_update_chunks-Ends zero (line ∷ rest) started h = absurd (omega arith)
collect_update_chunks-Ends (suc fuel) (line ∷ rest) started h =
    let skip =
      Collected-weaken line rest (collect_update_chunks fuel rest started)
        (collect_update_chunks-Ends fuel rest started (omega arith)) in
    let onward =
      Collected-cons line rest (parse_update_chunk line rest (not started))
        (λ ls. collect_update_chunks fuel ls true) (parse_update_chunk-Ends line rest (not started))
        (λ ls le. collect_update_chunks-Ends fuel ls true (omega arith)) in
    ground (arith, skip, onward)

-- An operation of the patch, with the cursor behind its header line.
abbrev Parsed : List Bytes → PatchOperation × List Bytes → Type 0
Parsed rest (op, after) = IsUsable op × (length after ≤ length rest)

within_update-Ends :
    (path : Bytes) (ls : List Bytes) (r : Result (List UpdateChunk × List Bytes))
    → Ends (Collected ls) r
    → Ends (Collected ls) (within_update path r)
within_update-Ends path ls (ok a) h = h
within_update-Ends path ls (err e) h = h

some_chunks-Ends :
    (path : Bytes) (ls : List Bytes) (chunks : List UpdateChunk) (after : List Bytes)
    → Collected ls (chunks, after)
    → Ends (Parsed ls) (some_chunks path chunks after)
some_chunks-Ends path ls [] after h = tt
some_chunks-Ends path ls (chunk ∷ more) after h = h

parse_update_file-Ends :
    (header : Bytes) (rest : List Bytes) → Ends (Parsed rest) (parse_update_file header rest)
unfolding parse_update_file
parse_update_file-Ends header rest =
    let path = drop (length update_header) header in
    let read =
      Ends-bind (Collected rest) (Parsed rest)
        (within_update path (collect_update_chunks (length rest) rest false))
        (λ (chunks, after). some_chunks path chunks after)
        (within_update-Ends path rest (collect_update_chunks (length rest) rest false)
          (collect_update_chunks-Ends (length rest) rest false (le_refl _)))
        (λ (chunks, after) h. some_chunks-Ends path rest chunks after h) in
    ground (arith, read)

parse_add_file-Ends :
    (header : Bytes) (rest : List Bytes) → Ends (Parsed rest) (parse_add_file header rest)
unfolding parse_add_file
parse_add_file-Ends header rest =
    Ends-bind (λ r. length r.1 ≤ length rest) (Parsed rest) (add_lines rest) _ (add_lines-Ends rest)
      λ (content, after) le. (tt, le)

-- An operation, and then those that `more` reads behind it.
AllUsable-cons :
    (rest : List Bytes) (r : Result (PatchOperation × List Bytes))
    (more : List Bytes → Result (List PatchOperation))
    → Ends (Parsed rest) r
    → ((ls : List Bytes) → length ls ≤ length rest → Ends AllUsable (more ls))
    → Ends AllUsable (and_more more r)
AllUsable-cons rest (err e) more h k = h
AllUsable-cons rest (ok (op, after)) more (a, b) k =
    Ends-bind AllUsable AllUsable (more after) _ (k after b) λ ops c. (a, c)

-- The four tests of the loop.
dispatch-Ends :
    {A : Type 0} (P : A → Type 0) (a b c d : Bool) (v w x y : Result A) (e : ParseError)
    → Ends P v
    → Ends P w
    → Ends P x
    → Ends P y
    → Reported e
    → Ends P (if a then v else if b then w else if c then x else if d then y else err e)
dispatch-Ends P true b c d v w x y e p q r s t = p
dispatch-Ends P false true c d v w x y e p q r s t = q
dispatch-Ends P false false true d v w x y e p q r s t = r
dispatch-Ends P false false false true v w x y e p q r s t = s
dispatch-Ends P false false false false v w x y e p q r s t = t

parse_operations-Ends :
    (fuel : ℕ) (ls : List Bytes) → length ls ≤ fuel → Ends AllUsable (parse_operations fuel ls)
unfolding parse_operations
parse_operations-Ends fuel [] h = tt
parse_operations-Ends zero (raw ∷ rest) h = absurd (omega arith)
parse_operations-Ends (suc fuel) (raw ∷ rest) h =
    let line = trim_space raw in
    let onward : (ls : List Bytes)
        → length ls ≤ length rest
        → Ends AllUsable (parse_operations fuel ls) =
      λ ls le. parse_operations-Ends fuel ls (omega arith) in
    let more = parse_operations fuel in
    let deleted = ok (delete (drop (length delete_header) line), rest) in
    dispatch-Ends AllUsable (bytes_eq line []) (has_prefix line add_header)
      (has_prefix line delete_header) (has_prefix line update_header) (more rest)
      (and_more more (parse_add_file line rest)) (and_more more deleted)
      (and_more more (parse_update_file line rest)) (bad_header line) (onward rest (le_refl _))
      (AllUsable-cons rest (parse_add_file line rest) more (parse_add_file-Ends line rest) onward)
      (AllUsable-cons rest deleted more (tt, le_refl _) onward)
      (AllUsable-cons rest (parse_update_file line rest) more (parse_update_file-Ends line rest)
        onward)
      tt

-- A patch with operations: at least one, and all of them usable.
abbrev pub IsPatch : List PatchOperation → Type 0
IsPatch [] = ⊥
IsPatch (op ∷ ops) = AllUsable (op ∷ ops)

some_operations-Ends :
    (ops : List PatchOperation) → AllUsable ops → Ends IsPatch (some_operations ops)
some_operations-Ends [] h = tt
some_operations-Ends (op ∷ ops) h = h

parse_lines-Ends : (ls : List Bytes) → Ends IsPatch (parse_lines ls)
unfolding parse_lines
parse_lines-Ends [] = tt
parse_lines-Ends (first ∷ []) = tt
parse_lines-Ends (first ∷ second ∷ rest) =
    let content = (unsnoc second rest).0 in
    let body =
      Ends-bind AllUsable IsPatch (parse_operations (length content) content) some_operations
        (parse_operations-Ends (length content) content (le_refl _)) some_operations-Ends in
    ground (arith, body)

-- Every text is parsed within the model's fuel, to an error of the parser or to a patch: at least one
-- operation, where each update has at least one hunk and each hunk at least one old or new line.
pub parse_patch-Ends : (text : Bytes) → Ends IsPatch (parse_patch text)
unfolding parse_patch
parse_patch-Ends text = parse_lines-Ends (split lf (normalize_to_lf (trim_space text)))
