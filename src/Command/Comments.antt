-- ===== src/Command/Comments.antt =====
-- internal/jinn/command_risk_parse.go: stripShellComments.
use native.Mathlib.Decide.{ℕ_discrete}
use jinn.Base.{
  ◌↔◌, subst, sym, ap, ◌≢◌, ◌⊎◌, codes, ℕ, ◌≡◌, refl, Bool, true, false, not, ◌&&◌, ◌||◌, Option,
  none, some, [], ◌∷◌, ◌==◌, if◌then◌else◌, arith, inl, inr,
}
use jinn.Command.{Word, ShellQuoteState, unquoted, is_shell_blank}

-- writeLiteral: the quotes behind a rune that is to be taken literally, and none for any other rune.
unfoldable pub write_literal : ShellQuoteState → ℕ → Option ShellQuoteState
write_literal q c =
    if q.escaped
    then some (record q { escaped = false })
    else if c == b'\\' && not q.in_single
    then some (record q { escaped = true })
    else if c == b'\'' && not q.in_double
    then some (record q { in_single = not q.in_single })
    else if c == b'"' && not q.in_single
    then some (record q { in_double = not q.in_double })
    else if q.in_single || q.in_double
    then some q
    else none

abbrev pub is_comment_word_start : ℕ → Bool
is_comment_word_start c =
    c == b'\n'
    || (c == b';' || (c == b'|' || (c == b'&' || (c == b'(' || (c == b'{' || is_shell_blank c)))))

-- The loop of stripShellComments: the quotes, whether a word may start, and whether a comment runs, which
-- the inner loop skips up to the line feed.
unfoldable pub strip_from : ShellQuoteState → Bool → Bool → Word → Word
strip_from q start comment [] = []
strip_from q start comment (c ∷ s) = elim (comment && not (c == b'\n')) [
  | true ↦ strip_from q start true s
  | false ↦ elim (write_literal q c) [
    | some next ↦ c ∷ strip_from next false false s
    | none ↦ elim (c == b'#' && start) [
      | true ↦ strip_from q start true s
      | false ↦ c ∷ strip_from q (is_comment_word_start c) false s
    ]
  ]
]

abbrev pub strip_shell_comments : Word → Word
strip_shell_comments s = strip_from unquoted true false s

-- Where a rune stands: outside quotes, where a word may start or not, in single or double quotes, or in a
-- comment.
pub data Place : Type 0 where
  outside : Bool → Place
  single double comment : Place

abbrev pub is_rune_of : ℕ → Word → Bool
is_rune_of c [] = false
is_rune_of c (d ∷ s) = c == d || is_rune_of c s

-- The runes behind which a word may start.
abbrev pub starts_word : ℕ → Bool
starts_word c = is_rune_of c (codes "\n;|&({ \t\r")

-- A grammar of comments, as a relation between a text and what is left of it: a backslash, outside
-- of single quotes, keeps the rune behind it, quotes keep what stands between them, and a number sign where
-- a word may start begins a comment that goes up to the next line feed.
pub data Stripped : Place → Word → Word → Type 0 where
  ends : {p : Place} → Stripped p [] []
  escaped :
      {b : Bool} (d : ℕ) {s r : Word}
      → Stripped (outside false) s r
      → Stripped (outside b) (b'\\' ∷ d ∷ s) (b'\\' ∷ d ∷ r)
  last_escape : {b : Bool} → Stripped (outside b) (b'\\' ∷ []) (b'\\' ∷ [])
  opens_single :
      {b : Bool} {s r : Word} → Stripped single s r → Stripped (outside b) (b'\'' ∷ s) (b'\'' ∷ r)
  in_single :
      {c : ℕ} {s r : Word} → c ≢ b'\'' → Stripped single s r → Stripped single (c ∷ s) (c ∷ r)
  closes_single :
      {s r : Word} → Stripped (outside false) s r → Stripped single (b'\'' ∷ s) (b'\'' ∷ r)
  opens_double :
      {b : Bool} {s r : Word} → Stripped double s r → Stripped (outside b) (b'"' ∷ s) (b'"' ∷ r)
  in_double :
      {c : ℕ} {s r : Word}
      → c ≢ b'"'
      → c ≢ b'\\'
      → Stripped double s r
      → Stripped double (c ∷ s) (c ∷ r)
  escaped_in_double :
      (d : ℕ) {s r : Word} → Stripped double s r → Stripped double (b'\\' ∷ d ∷ s) (b'\\' ∷ d ∷ r)
  last_escape_in_double : Stripped double (b'\\' ∷ []) (b'\\' ∷ [])
  closes_double :
      {s r : Word} → Stripped (outside false) s r → Stripped double (b'"' ∷ s) (b'"' ∷ r)
  begins : {s r : Word} → Stripped comment s r → Stripped (outside true) (b'#' ∷ s) r
  skipped : {c : ℕ} {s r : Word} → c ≢ b'\n' → Stripped comment s r → Stripped comment (c ∷ s) r
  feed : {s r : Word} → Stripped (outside true) s r → Stripped comment (b'\n' ∷ s) (b'\n' ∷ r)
  plain :
      {b : Bool} {c : ℕ} {s r : Word}
      → c ≢ b'\\'
      → c ≢ b'\''
      → c ≢ b'"'
      → (c ≢ b'#') ⊎ (b ≡ false)
      → Stripped (outside (starts_word c)) s r
      → Stripped (outside b) (c ∷ s) (c ∷ r)

-- The quotes at a place.
abbrev quotes_at : Place → ShellQuoteState
quotes_at (outside b) = unquoted
quotes_at single = record unquoted { in_single = true }
quotes_at double = record unquoted { in_double = true }
quotes_at comment = unquoted

abbrev starts_at : Place → Bool
starts_at (outside b) = b
starts_at single = false
starts_at double = false
starts_at comment = true

abbrev is_comment : Place → Bool
is_comment comment = true
is_comment _ = false

-- What the loop leaves of a text that stands at a place.
abbrev stripped_at : Place → Word → Word
stripped_at p s = strip_from (quotes_at p) (starts_at p) (is_comment p) s

-- The text is stripped behind its first rune.
abbrev Behind : Place → Word → Type 0
Behind p [] = Unit
Behind p (d ∷ s) = Stripped p s (stripped_at p s)

word_starts : (c : ℕ) → is_comment_word_start c ≡ starts_word c
word_starts c = ground arith

outside-escape :
    (b : Bool) (s : Word)
    → Behind (outside false) s
    → Stripped (outside b) (b'\\' ∷ s) (stripped_at (outside b) (b'\\' ∷ s))
unfolding strip_from write_literal
outside-escape b [] h = Stripped.last_escape
outside-escape b (d ∷ s) h = Stripped.escaped d h

double-escape :
    (s : Word) → Behind double s → Stripped double (b'\\' ∷ s) (stripped_at double (b'\\' ∷ s))
unfolding strip_from write_literal
double-escape [] h = Stripped.last_escape_in_double
double-escape (d ∷ s) h = Stripped.escaped_in_double d h

begins-comment :
    (b : Bool) (s : Word)
    → ((p : Place) → Stripped p s (stripped_at p s))
    → Stripped (outside b) (b'#' ∷ s) (stripped_at (outside b) (b'#' ∷ s))
unfolding strip_from write_literal
begins-comment true s h = Stripped.begins (h comment)
begins-comment false s h =
    Stripped.plain (λ e. ground arith) (λ e. ground arith) (λ e. ground arith) (inr refl)
      (h (outside false))

-- Any other rune outside of quotes is kept.
outside-plain :
    (b : Bool) (c : ℕ) (s : Word)
    → c ≢ b'\\'
    → c ≢ b'\''
    → c ≢ b'"'
    → c ≢ b'#'
    → Stripped (outside (starts_word c)) s (stripped_at (outside (starts_word c)) s)
    → Stripped (outside b) (c ∷ s) (stripped_at (outside b) (c ∷ s))
unfolding strip_from
outside-plain b c s x y z n h =
    let literal : write_literal unquoted c ≡ none = unfold write_literal in ground arith in
    let sign : (c == b'#' && b) ≡ false = ground arith in
    rw (strip_from, literal, sign, word_starts c) (Stripped.plain x y z (inl n) h)

outside-step :
    (b : Bool) (c : ℕ) (s : Word)
    → Behind (outside false) s
    → ((p : Place) → Stripped p s (stripped_at p s))
    → Stripped (outside b) (c ∷ s) (stripped_at (outside b) (c ∷ s))
unfolding strip_from write_literal
outside-step b c s after h = elim (ℕ_discrete c b'\\') [
  | yes e ↦ rw e (outside-escape b s after)
  | no x ↦ elim (ℕ_discrete c b'\'') [
    | yes e ↦ rw e (Stripped.opens_single (h single))
    | no y ↦ elim (ℕ_discrete c b'"') [
      | yes e ↦ rw e (Stripped.opens_double (h double))
      | no z ↦ elim (ℕ_discrete c b'#') [
        | yes e ↦ rw e (begins-comment b s h)
        | no n ↦ outside-plain b c s x y z n (h (outside (starts_word c)))
      ]
    ]
  ]
]

single-step :
    (c : ℕ) (s : Word)
    → ((p : Place) → Stripped p s (stripped_at p s))
    → Stripped single (c ∷ s) (stripped_at single (c ∷ s))
unfolding strip_from
single-step c s h = elim (ℕ_discrete c b'\'') [
  | yes e ↦ rw e (unfold write_literal in Stripped.closes_single (h (outside false)))
  | no n ↦
      let f : write_literal (quotes_at single) c ≡ some (quotes_at single) =
        unfold write_literal in ground arith in
      rw (strip_from, f) (Stripped.in_single n (h single))
]

double-step :
    (c : ℕ) (s : Word)
    → Behind double s
    → ((p : Place) → Stripped p s (stripped_at p s))
    → Stripped double (c ∷ s) (stripped_at double (c ∷ s))
unfolding strip_from
double-step c s after h = elim (ℕ_discrete c b'"') [
  | yes e ↦ rw e (unfold write_literal in Stripped.closes_double (h (outside false)))
  | no n ↦ elim (ℕ_discrete c b'\\') [
    | yes e ↦ rw e (double-escape s after)
    | no m ↦
        let f : write_literal (quotes_at double) c ≡ some (quotes_at double) =
          unfold write_literal in ground arith in
        rw (strip_from, f) (Stripped.in_double n m (h double))
  ]
]

comment-step :
    (c : ℕ) (s : Word)
    → ((p : Place) → Stripped p s (stripped_at p s))
    → Stripped comment (c ∷ s) (stripped_at comment (c ∷ s))
unfolding strip_from
comment-step c s h = elim (ℕ_discrete c b'\n') [
  | yes e ↦ rw e (unfold write_literal in Stripped.feed (h (outside true)))
  | no n ↦
      let f : (c == b'\n') ≡ false = ground arith in
      rw (strip_from, f) (Stripped.skipped n (h comment))
]

step_at :
    (p : Place) (c : ℕ) (s : Word)
    → ((q : Place) → Behind q s)
    → ((q : Place) → Stripped q s (stripped_at q s))
    → Stripped p (c ∷ s) (stripped_at p (c ∷ s))
step_at (outside b) c s after h = outside-step b c s (after (outside false)) h
step_at single c s after h = single-step c s h
step_at double c s after h = double-step c s (after double) h
step_at comment c s after h = comment-step c s h

-- The loop strips a text at every place.
strip_from-Stripped : (p : Place) (s : Word) → Stripped p s (stripped_at p s)
unfolding strip_from
strip_from-Stripped p [] = Stripped.ends
strip_from-Stripped p (c ∷ []) = step_at p c [] (λ q. tt) (λ q. strip_from-Stripped q [])
strip_from-Stripped p (c ∷ d ∷ s) =
    step_at p c (d ∷ s) (λ q. strip_from-Stripped q s) (λ q. strip_from-Stripped q (d ∷ s))

-- What the loop does with one rune more, where it does the same with the rest.
onto : (c : ℕ) {r s : Word} → r ≡ s → c ∷ r ≡ c ∷ s
onto c e = ap (λ t. c ∷ t) e

-- A text has only one rest by the grammar.
Stripped-strip_from : {p : Place} {s r : Word} → Stripped p s r → r ≡ stripped_at p s
unfolding strip_from write_literal
Stripped-strip_from ends = refl
Stripped-strip_from (escaped d h) = onto b'\\' (onto d (Stripped-strip_from h))
Stripped-strip_from last_escape = refl
Stripped-strip_from (opens_single h) = onto b'\'' (Stripped-strip_from h)
Stripped-strip_from (in_single {c = c} n h) =
    let f : write_literal (quotes_at single) c ≡ some (quotes_at single) = ground arith in
    rw (strip_from, f) (onto c (Stripped-strip_from h))
Stripped-strip_from (closes_single h) = onto b'\'' (Stripped-strip_from h)
Stripped-strip_from (opens_double h) = onto b'"' (Stripped-strip_from h)
Stripped-strip_from (in_double {c = c} n m h) =
    let f : write_literal (quotes_at double) c ≡ some (quotes_at double) = ground arith in
    rw (strip_from, f) (onto c (Stripped-strip_from h))
Stripped-strip_from (escaped_in_double d h) = onto b'\\' (onto d (Stripped-strip_from h))
Stripped-strip_from last_escape_in_double = refl
Stripped-strip_from (closes_double h) = onto b'"' (Stripped-strip_from h)
Stripped-strip_from (begins h) = Stripped-strip_from h
Stripped-strip_from (skipped {c = c} n h) =
    let f : (c == b'\n') ≡ false = ground arith in rw (strip_from, f) (Stripped-strip_from h)
Stripped-strip_from (feed h) = onto b'\n' (Stripped-strip_from h)
Stripped-strip_from (plain {b = b} {c = c} x y z n h) =
    let literal : write_literal unquoted c ≡ none = ground arith in
    let sign : (c == b'#' && b) ≡ false = ground arith in
    rw (strip_from, literal, sign, word_starts c) (onto c (Stripped-strip_from h))

-- stripShellComments strips a text as a grammar of quotes, backslashes and comments says, and nothing else
-- is stripped by that grammar: of the text, which begins where a word may start, exactly the comments are
-- left out, from their number sign up to the next line feed.
pub strip_shell_comments-Stripped :
    (s r : Word) → Stripped (outside true) s r ↔ (r ≡ strip_shell_comments s)
strip_shell_comments-Stripped s r = (
  Stripped-strip_from,
  λ e. subst (Stripped (outside true) s) (sym e) (strip_from-Stripped (outside true) s),
)
