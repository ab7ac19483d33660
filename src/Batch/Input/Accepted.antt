-- ===== src/Batch/Input/Accepted.antt =====
-- What an accepted batch request satisfies.
use native.Mathlib.Decide.{ℕ_discrete}
use jinn.Base.{
  ℕ, suc, ◌≤◌, ◌<◌, ◌≡◌, ◌≢◌, refl, ap, subst, ◌↔◌, Bool, true, false, not, ◌||◌, ◌&&◌, Option,
  none, some, List, [], ◌∷◌, Bytes, length, ℤ, pos, negsuc, ltb, ◌==◌, if◌then◌else◌, arith,
}
use jinn.Plan.{empty, is_in}
use jinn.Batch.{Call, Request}
use jinn.Batch.Input.{
  InputError, tilde, slash, escapes_ok, validate_pointer, is_negative, is_some, pointer_ok,
  out_of_range, is_one, validate_call, or_else, validate_calls, validate_input,
}

-- RFC 6901: reference tokens, each behind a slash, in which a tilde stands only in ~0 and ~1.
pub data Tokens : Bytes → Type 0 where
  done : Tokens []
  separator : {s : Bytes} → Tokens s → Tokens (slash ∷ s)
  plain : {c : ℕ} {s : Bytes} → c ≢ tilde → c ≢ slash → Tokens s → Tokens (c ∷ s)
  escaped_tilde : {s : Bytes} → Tokens s → Tokens (tilde ∷ 0x30 ∷ s)
  escaped_slash : {s : Bytes} → Tokens s → Tokens (tilde ∷ 0x31 ∷ s)

pub data Pointer : Bytes → Type 0 where
  whole : Pointer []
  below : {s : Bytes} → Tokens s → Pointer (slash ∷ s)

escapes_ok-other : (c : ℕ) (s : Bytes) → c ≢ tilde → escapes_ok s ≡ true → escapes_ok (c ∷ s) ≡ true
unfolding escapes_ok
escapes_ok-other c [] n h = ground arith
escapes_ok-other c (d ∷ s) n h = let e : (c == tilde) ≡ false = ground arith in rw (e, escapes_ok) h

escapes_ok-Tokens : {s : Bytes} → Tokens s → escapes_ok s ≡ true
unfolding escapes_ok
escapes_ok-Tokens done = refl
escapes_ok-Tokens (separator {s} t) =
    escapes_ok-other slash s (λ e. ground arith) (escapes_ok-Tokens t)
escapes_ok-Tokens (plain {c} {s} n m t) = escapes_ok-other c s n (escapes_ok-Tokens t)
escapes_ok-Tokens (escaped_tilde t) = escapes_ok-Tokens t
escapes_ok-Tokens (escaped_slash t) = escapes_ok-Tokens t

one_more : (c : ℕ) (s : Bytes) → c ≢ tilde → Tokens s → Tokens (c ∷ s)
one_more c s n t = elim (ℕ_discrete c slash) [ yes e ↦ rw e (separator t) | no m ↦ plain n m t ]

code_of : (d : ℕ) (s : Bytes) → (d == 0x30 || d == 0x31) ≡ true → Tokens s → Tokens (tilde ∷ d ∷ s)
code_of d s h t = elim (ℕ_discrete d 0x30) [
  | yes e ↦ rw e (escaped_tilde t)
  | no n ↦ let e : d ≡ 0x31 = ground arith in rw e (escaped_slash t)
]

and_split : {a b : Bool} → (a && b) ≡ true → (a ≡ true) × (b ≡ true)
and_split {a} {b} h = ground arith

by_code :
    (c d : ℕ) (s : Bytes) (t : Bool)
    → (c == tilde) ≡ t
    → (escapes_ok s ≡ true → Tokens s)
    → (escapes_ok (d ∷ s) ≡ true → Tokens (d ∷ s))
    → (elim t [ true ↦ (d == 0x30 || d == 0x31) && escapes_ok s | false ↦ escapes_ok (d ∷ s) ])
      ≡ true
    → Tokens (c ∷ d ∷ s)
by_code c d s true e behind next h =
    let (a, b) : ((d == 0x30 || d == 0x31) ≡ true) × (escapes_ok s ≡ true) = and_split h in
    let i : c ≡ tilde = ground arith in rw i (code_of d s a (behind b))
by_code c d s false e behind next h = one_more c (d ∷ s) (λ i. ground arith) (next h)

Tokens-escapes_ok : (s : Bytes) → escapes_ok s ≡ true → Tokens s
unfolding escapes_ok
Tokens-escapes_ok [] h = done
Tokens-escapes_ok (c ∷ []) h = one_more c [] (λ e. ground arith) done
Tokens-escapes_ok (c ∷ d ∷ s) h =
    by_code c d s (c == tilde) refl (Tokens-escapes_ok s) (Tokens-escapes_ok (d ∷ s)) h

behind_slash : (s : Bytes) → escapes_ok (slash ∷ s) ≡ true → escapes_ok s ≡ true
unfolding escapes_ok
behind_slash [] h = refl
behind_slash (d ∷ s) h = h

pointer_of_slash : (s : Bytes) → validate_pointer (slash ∷ s) ≡ true → Pointer (slash ∷ s)
unfolding validate_pointer
pointer_of_slash s h = below (Tokens-escapes_ok s (behind_slash s h))

pointer_of : (c : ℕ) (s : Bytes) → validate_pointer (c ∷ s) ≡ true → Pointer (c ∷ s)
unfolding validate_pointer
pointer_of c s h = elim (ℕ_discrete c slash) [
  | yes e ↦ rw e (pointer_of_slash s (subst (λ x. validate_pointer (x ∷ s) ≡ true) e h))
  | no n ↦ absurd (ground arith)
]

of_pointer : {s : Bytes} → Pointer s → validate_pointer s ≡ true
unfolding validate_pointer
of_pointer whole = refl
of_pointer (below {s} t) = escapes_ok-other slash s (λ e. ground arith) (escapes_ok-Tokens t)

-- validatePointer accepts the JSON Pointers of RFC 6901 and nothing else.
pub validate_pointer-Pointer :
    (pointer : Bytes) → (validate_pointer pointer ≡ true) ↔ Pointer pointer
validate_pointer-Pointer [] = (λ _. whole, of_pointer)
validate_pointer-Pointer (c ∷ s) = (pointer_of c s, of_pointer)

passed_if :
    (b : Bool) (e : InputError) (rest : Option InputError)
    → ((if b then some e else rest) ≡ none) ↔ ((b ≡ false) × (rest ≡ none))
passed_if true e rest = (λ h. ground arith, λ h. ground arith)
passed_if false e rest = (λ h. (refl, h), λ h. h.1)

passed_or : (a b : Option InputError) → (or_else a b ≡ none) ↔ ((a ≡ none) × (b ≡ none))
passed_or none b = (λ h. (refl, h), λ h. h.1)
passed_or (some e) b = (λ h. ground arith, λ h. ground arith)

version_one : (v : ℤ) → (not (is_one v) ≡ false) ↔ (v ≡ pos 1)
version_one (pos n) =
    (λ h. let e : n ≡ 1 = ground arith in rw e refl, λ h. ap (λ v. not (is_one v)) h)
version_one (negsuc n) = (λ h. ground arith, λ h. ground arith)

head_paired :
    (head : Option ℤ) (select : Option Bytes)
    → ((is_some head && not (is_some select)) ≡ false) ↔ (select ≡ none → head ≡ none)
head_paired none select = (λ h _. refl, λ h. refl)
head_paired (some n) none = (λ h. ground arith, λ h. absurd (ground (arith, h refl)))
head_paired (some n) (some s) = (λ h e. absurd (ground arith), λ h. refl)

-- The pointer of a selection, if there is one.
abbrev pub SelectValid : Option Bytes → Type 0
SelectValid none = Unit
SelectValid (some pointer) = Pointer pointer

pointer_held : (select : Option Bytes) → (not (pointer_ok select) ≡ false) ↔ SelectValid select
pointer_held none = (λ _. tt, λ _. refl)
pointer_held (some s) = (
  λ h. (validate_pointer-Pointer s).0 (ground arith),
  λ h. ap not ((validate_pointer-Pointer s).1 h),
)

-- The concurrency, if the request states it.
abbrev pub ConcurrencyValid : Option ℤ → Type 0
ConcurrencyValid none = Unit
ConcurrencyValid (some (pos n)) = (0 < n) × (n ≤ 8)
ConcurrencyValid (some (negsuc n)) = ⊥

range_of : (o : Option ℤ) → (out_of_range o ≡ false) ↔ ConcurrencyValid o
range_of none = (λ _. tt, λ _. refl)
range_of (some (pos n)) = (λ h. (ground arith, ground arith), λ (a, b). ground arith)
range_of (some (negsuc n)) = (λ h. ground arith, λ h. absurd h)

module _ {A : Type 0} where
  -- A call that is accepted names a tool, and takes a number of entries only of a selected value.
  abbrev pub CallValid : Call A → Type 0
  CallValid call =
      (empty call.tool ≡ false)
      × (is_negative call.head ≡ false)
      × (call.select ≡ none → call.head ≡ none)
      × SelectValid call.select

  abbrev pub CallsValid : List Bytes → List (Call A) → Type 0
  CallsValid ids [] = Unit
  CallsValid ids (call ∷ calls) =
      (empty call.id ≡ false)
      × (is_in call.id ids ≡ false)
      × CallValid call
      × CallsValid (call.id ∷ ids) calls

  abbrev pub RequestValid : Request A → Type 0
  RequestValid input =
      (input.version ≡ pos 1)
      × (0 < length input.calls)
      × (length input.calls ≤ 20)
      × ConcurrencyValid input.max_concurrency
      × CallsValid [] input.calls

  validate_call-Valid : (call : Call A) → (validate_call call ≡ none) ↔ CallValid call
  unfolding validate_call
  validate_call-Valid call = (
    λ h.
        let (a, h1) = (passed_if (empty call.tool) _ _).0 h in
        let (b, h2) = (passed_if (is_negative call.head) _ _).0 h1 in
        let (c, h3) = (passed_if (is_some call.head && not (is_some call.select)) _ _).0 h2 in
        let (d, _) = (passed_if (not (pointer_ok call.select)) _ _).0 h3 in
        (a, b, (head_paired call.head call.select).0 c, (pointer_held call.select).0 d),
    λ (a, b, c, d). (passed_if (empty call.tool) _ _).1 (
      a,
      (passed_if (is_negative call.head) _ _).1 (
        b,
        (passed_if (is_some call.head && not (is_some call.select)) _ _).1 (
          (head_paired call.head call.select).1 c,
          (passed_if (not (pointer_ok call.select)) _ _).1 ((pointer_held call.select).1 d, refl),
        ),
      ),
    ),
  )

  validate_calls-Valid :
      (index : ℕ) (ids : List Bytes) (calls : List (Call A))
      → (validate_calls index ids calls ≡ none) ↔ CallsValid ids calls
  unfolding validate_calls
  validate_calls-Valid index ids [] = (λ _. tt, λ _. refl)
  validate_calls-Valid index ids (call ∷ calls) = (
    λ h.
        let (a, h1) = (passed_if (empty call.id) _ _).0 h in
        let (b, h2) = (passed_if (is_in call.id ids) _ _).0 h1 in
        let (c, h3) = (passed_or _ _).0 h2 in
        (
          a,
          b,
          (validate_call-Valid call).0 c,
          (validate_calls-Valid (suc index) (call.id ∷ ids) calls).0 h3,
        ),
    λ (a, b, c, d). (passed_if (empty call.id) _ _).1 (
      a,
      (passed_if (is_in call.id ids) _ _).1 (
        b,
        (passed_or _ _).1 (
          (validate_call-Valid call).1 c,
          (validate_calls-Valid (suc index) (call.id ∷ ids) calls).1 d,
        ),
      ),
    ),
  )

  -- A batch request is accepted exactly if its version is 1, it has 1 to 20 calls with different ids, none
  -- empty, its concurrency, where it states one, is from 1 to 8, and every call names a tool and has a
  -- selection that is a JSON Pointer, where it has one, and a head of at least 0 only beside a selection.
  pub validate_input-Valid :
      (input : Request A) → (validate_input input ≡ none) ↔ RequestValid input
  unfolding validate_input
  validate_input-Valid input = (
    λ h.
        let (a, h1) = (passed_if (not (is_one input.version)) _ _).0 h in
        let (b, h2) =
          (passed_if (length input.calls == 0 || ltb 20 (length input.calls)) _ _).0 h1 in
        let (c, h3) = (passed_if (out_of_range input.max_concurrency) _ _).0 h2 in
        (
          (version_one input.version).0 a,
          ground arith,
          ground arith,
          (range_of input.max_concurrency).0 c,
          (validate_calls-Valid 0 [] input.calls).0 h3,
        ),
    λ (a, b, c, d, e). (passed_if (not (is_one input.version)) _ _).1 (
      (version_one input.version).1 a,
      (passed_if (length input.calls == 0 || ltb 20 (length input.calls)) _ _).1 (
        ground arith,
        (passed_if (out_of_range input.max_concurrency) _ _).1
            ((range_of input.max_concurrency).1 d, (validate_calls-Valid 0 [] input.calls).1 e),
      ),
    ),
  )
