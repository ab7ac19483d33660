-- ===== src/ExitCode/Classes.antt =====
-- What decides the class of an exit code, and which rows are reached.
use jinn.Base.{
  ℕ, ◌≤◌, ◌<◌, ◌≡◌, ◌≢◌, ◌⊎◌, refl, ap, sym, ◌∙◌, Bool, true, false, ◌&&◌, none, some, inl, inr,
  List, [], ◌∷◌, ◌++◌, take, drop, Option-cases, if_true, if_false, Bytes, bytes_eq, ℤ, pos, negsuc,
  ltb, ltb→lt, ◌==◌, if◌then◌else◌, if_cases, Bool-cases, arith,
}
use jinn.ExitCode.{
  Classification, success, expected_nonzero, failure, timeout, signal, ExitEntry, exit_table,
  find_entry, of_entry, classify_exit_code,
}

-- Every row has the class expected_nonzero.
abbrev AllExpected : List ExitEntry → Type 0
AllExpected [] = Unit
AllExpected (e ∷ table) = (e.class ≡ expected_nonzero) × AllExpected table

-- No row has the code.
abbrev NoneAt : ℕ → List ExitEntry → Type 0
NoneAt code [] = Unit
NoneAt code (e ∷ table) = ((e.code == code) ≡ false) × NoneAt code table

find_entry-expected :
    (table : List ExitEntry) (base : Bytes) (code : ℕ) (e : ExitEntry)
    → AllExpected table
    → find_entry table base code ≡ some e
    → e.class ≡ expected_nonzero
unfolding find_entry
find_entry-expected [] base code e all h = ground arith
find_entry-expected (r ∷ table) base code e (a, all) h =
    elim (Bool-cases (bytes_eq r.command base && r.code == code)) [
      | inl t ↦ ground (arith, if_true (some r) (find_entry table base code) t)
      | inr f ↦ find_entry-expected table base code e all (sym (if_false _ _ f) ∙ h)
    ]

and_false : (a : Bool) {b : Bool} → b ≡ false → (a && b) ≡ false
and_false true h = h
and_false false h = refl

find_entry-NoneAt :
    (table dead : List ExitEntry) (base : Bytes) (code : ℕ)
    → NoneAt code dead
    → find_entry (table ++ dead) base code ≡ find_entry table base code
unfolding find_entry
find_entry-NoneAt [] [] base code h = refl
find_entry-NoneAt [] (r ∷ dead) base code (a, h) =
    if_false (some r) _ (and_false (bytes_eq r.command base) a)
    ∙ find_entry-NoneAt [] dead base code h
find_entry-NoneAt (r ∷ table) dead base code h =
    ap (λ later. if bytes_eq r.command base && r.code == code then some r else later)
      (find_entry-NoneAt table dead base code h)

-- The rows before "ssh" and "timeout".
abbrev pub live_rows : List ExitEntry
live_rows = take 8 exit_table

-- How a class comes about, for a command with the base name `base`.
abbrev pub Decided : Bytes → ℤ → Classification → Type 0
Decided base (negsuc n) class = class ≡ signal
Decided base (pos code) class =
    ((code ≡ 0) × (class ≡ success))
    ⊎ ((128 < code) × (class ≡ signal))
    ⊎ ((code ≡ 124) × (class ≡ timeout))
    ⊎ ((0 < code)
        × (code ≤ 128)
        × (code ≢ 124)
        × (((class ≡ failure) × (find_entry live_rows base code ≡ none))
            ⊎ ((class ≡ expected_nonzero)
                × (e : ExitEntry) × (find_entry live_rows base code ≡ some e))))

-- The answer behind the tests on the code alone.
from_table :
    (base : Bytes) (code : ℕ)
    → 0 < code
    → code ≤ 128
    → code ≢ 124
    → ((of_entry (find_entry exit_table base code)).0 ≡ failure)
        × (find_entry live_rows base code ≡ none)
      ⊎ ((of_entry (find_entry exit_table base code)).0 ≡ expected_nonzero)
        × (e : ExitEntry) × (find_entry live_rows base code ≡ some e)
from_table base code a b c =
    let same =
      find_entry-NoneAt live_rows (drop 8 exit_table) base code
        (ground arith, (ground arith, tt)) in
    elim (Option-cases (find_entry live_rows base code)) [
      | inl e ↦ inl (ap (λ o. (of_entry o).0) (same ∙ e), e)
      | inr (r, e) ↦ inr (
        ap (λ o. (of_entry o).0) (same ∙ e)
            ∙ find_entry-expected live_rows base code r
                (refl, (refl, (refl, (refl, (refl, (refl, (refl, (refl, tt)))))))) e,
        r,
        e,
      )
    ]

-- The class of 0 is success, of a negative code and of one above 128 signal, and of 124 timeout, for every
-- command. Any other code is expected where the first eight rows of the table name it for the command,
-- and an error where they do not: the rows for ssh (255) and timeout (124) decide nothing.
pub classify_exit_code-Decided :
    (basename : Bytes → Bytes) (argv0 : Bytes) (code : ℤ)
    → Decided (basename argv0) code (classify_exit_code basename argv0 code).0
unfolding classify_exit_code
classify_exit_code-Decided basename argv0 (negsuc n) = refl
classify_exit_code-Decided basename argv0 (pos code) =
    let P : Classification × Bytes → Type 0 = λ r. Decided (basename argv0) (pos code) r.0 in
    if_cases P (code == 0) _ _ (λ t. inl (ground arith, refl))
      (λ f.
        if_cases P (ltb 128 code) _ _ (λ t. inr (inl (ltb→lt _ _ t, refl)))
          (λ g.
            if_cases P (code == 124) _ _ (λ t. inr (inr (inl (ground arith, refl))))
              (λ h.
                let a : 0 < code = ground arith in
                let b : code ≤ 128 = ground arith in
                let c : code ≢ 124 = ground arith in
                inr (inr (inr (a, b, c, from_table (basename argv0) code a b c))))))
