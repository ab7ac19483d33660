-- ===== src/Questionnaire/Answers.antt =====
-- What an accepted answer is.
use jinn.Base.{
  ℕ, suc, ◌≡◌, refl, sym, ap, subst, ◌∙◌, ◌⊎◌, inl, inr, true, false, Option, none, some, List, [],
  ◌∷◌, ◌++◌, append-nil, Bytes, bytes_eq, bytes_eq_iff, trim_space, get_elem?, if◌then◌else◌,
  if_cases, arith,
}
use jinn.Plan.{is_in, empty}
use jinn.Questionnaire.{
  Choice, Question, Content, QuestionnaireChoice, QuestionnaireAnswer, Answered, Picked, Kind,
  right, wrong, multi, option, custom, is_blank_text, type_something, choice_for_option,
  authored_option, pick, pick_known, pick_items, multi_answer, multi_select_answer, authored_answer,
  single_select_answer, questionnaire_answer, with_answer, questionnaire_answers,
}

-- One of the authored options.
abbrev pub Authored : List Choice → Choice → Type 0
Authored options o = (i : ℕ) × (get_elem? options i ≡ some o)

-- The choices are authored options with the given labels, in their order.
abbrev pub ChosenFrom : List Choice → List Bytes → List QuestionnaireChoice → Type 0
ChosenFrom options [] [] = Unit
ChosenFrom options (l ∷ labels) (c ∷ choices) =
    ((o : Choice) × Authored options o × (o.label ≡ l) × (c ≡ choice_for_option o))
    × ChosenFrom options labels choices
ChosenFrom options _ _ = ⊥

-- Labels that differ from each other and from those seen.
abbrev pub Distinct : List Bytes → List Bytes → Type 0
Distinct seen [] = Unit
Distinct seen (l ∷ labels) = (is_in l seen ≡ false) × Distinct (l ∷ seen) labels

-- What the parts of an answer are, by its kind.
abbrev pub PartsFit :
    Question → Kind → Option Bytes → List Bytes → List QuestionnaireChoice → Type 0
PartsFit q multi answer selected choices =
    (q.multi_select ≡ true)
    × (answer ≡ none)
    × (labels : List Bytes) × Distinct [] labels
    × ChosenFrom q.options labels choices
    × ((selected ≡ labels)
        ⊎ ((typed : Bytes) × (is_blank_text typed ≡ false) × (selected ≡ labels ++ (typed ∷ []))))
PartsFit q option answer selected choices =
    (q.multi_select ≡ false)
    × (o : Choice) × Authored q.options o
    × (answer ≡ some o.label)
    × (selected ≡ [])
    × (choices ≡ choice_for_option o ∷ [])
PartsFit q custom answer selected choices =
    (q.multi_select ≡ false)
    × (typed : Bytes) × (empty typed ≡ false)
    × (answer ≡ some typed)
    × (selected ≡ [])
    × (choices ≡ [])

abbrev pub AnswerFits : ℕ → Question → QuestionnaireAnswer → Type 0
AnswerFits index q a =
    (a.question_index ≡ index)
    × (a.question ≡ q.question)
    × PartsFit q a.kind a.answer a.selected a.choices

-- One answer for each question, in their order.
abbrev pub AnswersFit : ℕ → List Question → List QuestionnaireAnswer → Type 0
AnswersFit index [] [] = Unit
AnswersFit index (q ∷ questions) (a ∷ answers) =
    AnswerFits index q a × AnswersFit (suc index) questions answers
AnswersFit index _ _ = ⊥

-- An option that is found is the one found before, or is authored and has the label.
authored_option-Authored :
    (options : List Choice) (found : Option Choice) (label : Bytes) (o : Choice)
    → authored_option found options label ≡ some o
    → (found ≡ some o) ⊎ (Authored options o × (o.label ≡ label))
unfolding authored_option
authored_option-Authored [] found label o h = inl h
authored_option-Authored (x ∷ options) found label o h =
    elim (authored_option-Authored options (if bytes_eq x.label label then some x else found) label
      o h) [
        | inr ((i, e), l) ↦ inr ((suc i, e), l)
        | inl e ↦
            if_cases
              (λ f. f ≡ some o → (found ≡ some o) ⊎ (Authored (x ∷ options) o × (o.label ≡ label)))
              (bytes_eq x.label label) (some x) found
              (λ t k.
                let q : x ≡ o = cc in
                inr
                  ((0, k), ap (λ (y : Choice). y.label) (sym q) ∙ (bytes_eq_iff x.label label).0 t))
              (λ _ k. inl k) e
      ]

found-Authored :
    (options : List Choice) (label : Bytes) (o : Choice)
    → authored_option none options label ≡ some o
    → Authored options o × (o.label ≡ label)
found-Authored options label o h = elim (authored_option-Authored options none label o h) [
  | inl e ↦ absurd (ground arith)
  | inr r ↦ r
]

-- What the items of a multi-select answer give.
abbrev PickedFits : List Choice → List Bytes → Answered Picked → Type 0
PickedFits options seen (wrong e) = Unit
PickedFits options seen (right (labels, choices)) =
    Distinct seen labels × ChosenFrom options labels choices

pick-Fits :
    (options : List Choice) (seen : List Bytes) (label : Bytes) (o : Choice)
    (rest : Answered Picked)
    → is_in label seen ≡ false
    → Authored options o × (o.label ≡ label)
    → PickedFits options (label ∷ seen) rest
    → PickedFits options seen (pick label o rest)
pick-Fits options seen label o (wrong e) n (a, l) h = tt
pick-Fits options seen label o (right (labels, choices)) n (a, l) h =
    ((n, h.0), ((o, a, l, refl), h.1))

pick_known-Fits :
    (prefix : Bytes) (options : List Choice) (seen : List Bytes) (label : Bytes)
    (found : Option Choice) (rest : Answered Picked)
    → authored_option none options label ≡ found
    → PickedFits options (label ∷ seen) rest
    → PickedFits options seen (pick_known prefix label seen found rest)
pick_known-Fits prefix options seen label none rest e h = tt
pick_known-Fits prefix options seen label (some o) rest e h =
    if_cases (PickedFits options seen) (is_in label seen) _ _ (λ _. tt)
      (λ n. pick-Fits options seen label o rest n (found-Authored options label o e) h)

pick_items-Fits :
    (prefix : Bytes) (options : List Choice) (seen : List Bytes) (items : List (Option Bytes))
    → PickedFits options seen (pick_items prefix options seen items)
unfolding pick_items
pick_items-Fits prefix options seen [] = (tt, tt)
pick_items-Fits prefix options seen (none ∷ items) = tt
pick_items-Fits prefix options seen (some label ∷ items) =
    pick_known-Fits prefix options seen label (authored_option none options label) _ refl
      (pick_items-Fits prefix options (label ∷ seen) items)

-- What holds of an answer, if there is no error.
abbrev OneFits : ℕ → Question → Answered QuestionnaireAnswer → Type 0
OneFits index q (wrong e) = Unit
OneFits index q (right a) = AnswerFits index q a

multi_answer-Fits :
    (index : ℕ) (q : Question) (typed : Bytes) (picked : Answered Picked)
    → q.multi_select ≡ true
    → PickedFits q.options [] picked
    → OneFits index q (multi_answer index q typed picked)
multi_answer-Fits index q typed (wrong e) m h = tt
multi_answer-Fits index q typed (right (labels, choices)) m (d, c) = (
  refl,
  refl,
  (
    m,
    refl,
    labels,
    d,
    c,
    if_cases
        (λ t.
          (labels ++ t ≡ labels)
          ⊎ ((s : Bytes) × (is_blank_text s ≡ false) × (labels ++ t ≡ labels ++ (s ∷ []))))
        (is_blank_text typed) [] (typed ∷ []) (λ _. inl (append-nil labels))
        (λ n. inr (typed, n, refl)),
  ),
)

multi_select-Fits :
    (index : ℕ) (q : Question) (prefix typed : Bytes) (items : Option (List (Option Bytes)))
    → q.multi_select ≡ true
    → OneFits index q (multi_select_answer index q prefix typed items)
multi_select-Fits index q prefix typed none m = tt
multi_select-Fits index q prefix typed (some items) m =
    multi_answer-Fits index q typed _ m (pick_items-Fits prefix q.options [] items)

authored-Fits :
    (index : ℕ) (q : Question) (prefix choice : Bytes) (found : Option Choice)
    → q.multi_select ≡ false
    → authored_option none q.options choice ≡ found
    → OneFits index q (authored_answer index q prefix choice found)
authored-Fits index q prefix choice none m e = tt
authored-Fits index q prefix choice (some o) m e =
    let (a, l) = found-Authored q.options choice o e in
    (refl, refl, (m, o, a, ap some (sym l), refl, refl))

single_select-Fits :
    (index : ℕ) (q : Question) (prefix typed : Bytes) (choice : Option Bytes)
    → q.multi_select ≡ false
    → OneFits index q (single_select_answer index q prefix typed choice)
single_select-Fits index q prefix typed none m = tt
single_select-Fits index q prefix typed (some choice) m =
    if_cases (OneFits index q) (bytes_eq choice type_something) _ _
      (λ _.
        if_cases (OneFits index q) (is_blank_text typed) _ _ (λ _. tt)
          (λ n. (refl, refl, (m, trim_space typed, n, refl, refl, refl))))
      (λ _. authored-Fits index q prefix choice _ m refl)

questionnaire_answer-Fits :
    (content : Bytes → Option Content) (index : ℕ) (q : Question)
    → OneFits index q (questionnaire_answer content index q)
unfolding questionnaire_answer
questionnaire_answer-Fits content index q =
    if_cases (OneFits index q) q.multi_select _ _ (λ m. multi_select-Fits index q _ _ _ m)
      (λ m. single_select-Fits index q _ _ _ m)

abbrev AllFit : ℕ → List Question → Answered (List QuestionnaireAnswer) → Type 0
AllFit index questions (wrong e) = Unit
AllFit index questions (right answers) = AnswersFit index questions answers

with_answer-Fits :
    (index : ℕ) (q : Question) (questions : List Question) (a : Answered QuestionnaireAnswer)
    (rest : Answered (List QuestionnaireAnswer))
    → OneFits index q a
    → AllFit (suc index) questions rest
    → AllFit index (q ∷ questions) (with_answer a rest)
with_answer-Fits index q questions (wrong e) rest h t = tt
with_answer-Fits index q questions (right a) (wrong e) h t = tt
with_answer-Fits index q questions (right a) (right answers) h t = (h, t)

questionnaire_answers-Fit :
    (content : Bytes → Option Content) (index : ℕ) (questions : List Question)
    → AllFit index questions (questionnaire_answers content index questions)
unfolding questionnaire_answers
questionnaire_answers-Fit content index [] = tt
questionnaire_answers-Fit content index (q ∷ questions) =
    with_answer-Fits index q questions _ _ (questionnaire_answer-Fits content index q)
      (questionnaire_answers-Fit content (suc index) questions)

-- Answers that are accepted are one for each question, in their order. An answer to a multi-select question
-- selects different labels of authored options, with the options' own metadata, and at most one text of
-- its own behind them; any other answer is the label of one authored option, or a text of its own that is
-- not empty.
pub questionnaire_answers-AnswersFit :
    (content : Bytes → Option Content) (questions : List Question)
    (answers : List QuestionnaireAnswer)
    → questionnaire_answers content 0 questions ≡ right answers
    → AnswersFit 0 questions answers
questionnaire_answers-AnswersFit content questions answers h =
    subst (AllFit 0 questions) h (questionnaire_answers-Fit content 0 questions)
