-- ===== src/Batch/Input.antt =====
-- internal/mcpbatch/input.go: reading a batch request, and the checks on it.
pub mod Accepted
use jinn.Base.{
  ℕ, zero, suc, ◌+◌, ◌*◌, ◌^◌, Bool, true, false, not, ◌||◌, ◌&&◌, Option, none, some, List, [],
  ◌∷◌, Bytes, length, take, ℤ, pos, negsuc, ltb, leb, ◌==◌, if◌then◌else◌,
}
use jinn.Plan.{empty, is_in}
use jinn.Batch.{Call, Request, max_input_bytes}

pub data InputError : Type 0 where
  read_failed too_large bad_json more_than_one : InputError
  bad_version : ℤ → InputError
  bad_count bad_concurrency : InputError
  empty_id : ℕ → InputError
  duplicate_id empty_tool negative_head head_without_select : Bytes → InputError
  bad_pointer : Bytes → InputError

abbrev pub tilde : ℕ
tilde = 0x7e

abbrev pub slash : ℕ
slash = 0x2f

-- The loop of validatePointer: a tilde is followed by 0 or 1, which is passed over.
unfoldable pub escapes_ok : Bytes → Bool
escapes_ok [] = true
escapes_ok (c ∷ []) = not (c == tilde)
escapes_ok (c ∷ d ∷ s) = elim (c == tilde) [
  | true ↦ (d == 0x30 || d == 0x31) && escapes_ok s
  | false ↦ escapes_ok (d ∷ s)
]

-- Whether validatePointer returns no error.
unfoldable pub validate_pointer : Bytes → Bool
validate_pointer [] = true
validate_pointer (c ∷ s) = if not (c == slash) then false else escapes_ok (c ∷ s)

abbrev pub is_negative : Option ℤ → Bool
is_negative (some (negsuc n)) = true
is_negative _ = false

abbrev pub is_some {ℓ} : {A : Type ℓ} → Option A → Bool
is_some (some a) = true
is_some none = false

abbrev pub pointer_ok : Option Bytes → Bool
pointer_ok none = true
pointer_ok (some pointer) = validate_pointer pointer

abbrev pub out_of_range : Option ℤ → Bool
out_of_range none = false
out_of_range (some (pos n)) = ltb n 1 || ltb 8 n
out_of_range (some (negsuc n)) = true

abbrev pub is_one : ℤ → Bool
is_one (pos n) = n == 1
is_one (negsuc n) = false

abbrev pub or_else : Option InputError → Option InputError → Option InputError
or_else (some e) rest = some e
or_else none rest = rest

abbrev pub default_concurrency : Option ℤ → ℤ
default_concurrency (some n) = n
default_concurrency none = pos 2

abbrev pub default_timeout : ℤ → ℤ
default_timeout (pos zero) = pos (30 * 10 ^ 9)
default_timeout (pos (suc n)) = pos (suc n)
default_timeout (negsuc n) = pos (30 * 10 ^ 9)

pub data Decoded (A : Type 0) : Type 0 where
  refused : InputError → Decoded A
  accepted : Request A → Decoded A

module _ {A : Type 0} where
  unfoldable pub validate_call : Call A → Option InputError
  validate_call call =
      if empty call.tool
      then some (InputError.empty_tool call.id)
      else if is_negative call.head
      then some (InputError.negative_head call.id)
      else if is_some call.head && not (is_some call.select)
      then some (InputError.head_without_select call.id)
      else if not (pointer_ok call.select)
      then some (InputError.bad_pointer call.id)
      else none

  -- The loop over the calls, from an index on, with the ids seen.
  unfoldable pub validate_calls : ℕ → List Bytes → List (Call A) → Option InputError
  validate_calls index ids [] = none
  validate_calls index ids (call ∷ calls) =
      let rest = validate_calls (suc index) (call.id ∷ ids) calls in
      if empty call.id
      then some (InputError.empty_id index)
      else if is_in call.id ids
      then some (InputError.duplicate_id call.id)
      else or_else (validate_call call) rest

  unfoldable pub validate_input : Request A → Option InputError
  validate_input input =
      if not (is_one input.version)
      then some (InputError.bad_version input.version)
      else if length input.calls == 0 || ltb 20 (length input.calls)
      then some InputError.bad_count
      else if out_of_range input.max_concurrency
      then some InputError.bad_concurrency
      else validate_calls 0 [] input.calls

  -- The defaults that Decode fills in.
  abbrev pub with_defaults : Request A → Request A
  with_defaults input = record input {
    max_concurrency = some (default_concurrency input.max_concurrency);
    call_timeout = default_timeout input.call_timeout;
  }

  abbrev pub checked : Request A → Option InputError → Decoded A
  checked input (some e) = Decoded.refused e
  checked input none = Decoded.accepted (with_defaults input)

  abbrev pub decoded : Option (Request A × Bool) → Decoded A
  decoded none = Decoded.refused InputError.bad_json
  decoded (some (input, at_end)) =
      if not at_end
      then Decoded.refused InputError.more_than_one
      else checked input (validate_input input)

  -- Decode. The reader gives its bytes, or fails; encoding/json reads the first value strictly and says
  -- whether nothing follows it.
  unfoldable pub decode : (Bytes → Option (Request A × Bool)) → Option Bytes → Decoded A
  decode decode_json none = Decoded.refused InputError.read_failed
  decode decode_json (some bytes) =
      let data_ = take (suc max_input_bytes) bytes in
      if ltb max_input_bytes (length data_)
      then Decoded.refused InputError.too_large
      else decoded (decode_json data_)
