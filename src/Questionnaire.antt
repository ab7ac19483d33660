-- ===== src/Questionnaire.antt =====
-- internal/jinn/questionnaire.go: structured questions, and the answers that are accepted for them.
pub mod Answers
use jinn.Base.{
  ℕ, suc, ◌+◌, Bool, true, false, not, ◌&&◌, ◌||◌, Option, none, some, List, [], ◌∷◌, ◌++◌, map,
  Bytes, codes, bytes_eq, length, runes, trim_space, decimal, ltb, if◌then◌else◌,
}
use jinn.Plan.{is_in, empty}

abbrev pub max_questions : ℕ
max_questions = 4

abbrev pub min_options : ℕ
min_options = 2

abbrev pub max_options : ℕ
max_options = 4

abbrev pub max_header_length : ℕ
max_header_length = 16

abbrev pub max_label_length : ℕ
max_label_length = 60

abbrev pub type_something : Bytes
type_something = codes "Type something."

abbrev pub reserved_labels : List Bytes
reserved_labels = codes "Other" ∷ type_something ∷ codes "Next" ∷ []

-- An authored answer; `Option` of the source.
pub record Choice : Type 0 where
  pub value : Bytes
  pub label : Bytes
  pub description : Bytes
  pub recommended : Bool

pub record Question : Type 0 where
  pub question : Bytes
  pub header : Bytes
  pub options : List Choice
  pub multi_select : Bool

pub data QuestionnaireError : Type 0 where
  bad_question_count repeated_question : QuestionnaireError
  no_question no_header long_header bad_option_count : ℕ → QuestionnaireError
  incomplete_option long_label : ℕ → ℕ → QuestionnaireError
  reserved_label : Bytes → QuestionnaireError
  repeated_label repeated_value many_recommended : ℕ → QuestionnaireError

abbrev pub is_blank_text : Bytes → Bool
is_blank_text s = empty (trim_space s)

-- validateQuestionOption, with the labels and the values of the options before it.
unfoldable pub validate_option :
    ℕ → ℕ → Choice → List Bytes → List Bytes → Option QuestionnaireError
validate_option index option_index o seen_labels seen_values =
    if is_blank_text o.value || (is_blank_text o.label || is_blank_text o.description)
    then some (QuestionnaireError.incomplete_option index option_index)
    else if ltb max_label_length (length (runes o.label))
    then some (QuestionnaireError.long_label index option_index)
    else if is_in o.label reserved_labels
    then some (QuestionnaireError.reserved_label o.label)
    else if is_in o.label seen_labels
    then some (QuestionnaireError.repeated_label index)
    else if is_in (trim_space o.value) seen_values
    then some (QuestionnaireError.repeated_value index)
    else none

-- The loop of validateQuestionOptions.
unfoldable pub validate_options :
    ℕ → ℕ → List Choice → List Bytes → List Bytes → Option QuestionnaireError
validate_options index option_index [] seen_labels seen_values = none
validate_options index option_index (o ∷ options) seen_labels seen_values =
    let rest =
      validate_options index (suc option_index) options (o.label ∷ seen_labels)
        (trim_space o.value ∷ seen_values) in
    elim (validate_option index option_index o seen_labels seen_values) [
      | some e ↦ some e
      | none ↦ rest
    ]

abbrev pub recommended_labels : List Choice → List Bytes
recommended_labels [] = []
recommended_labels (o ∷ options) =
    if o.recommended then o.label ∷ recommended_labels options else recommended_labels options

unfoldable pub validate_question_options : ℕ → Question → Option QuestionnaireError
validate_question_options index q = elim (validate_options index 0 q.options [] []) [
  | some e ↦ some e
  | none ↦
      if not q.multi_select && ltb 1 (length (recommended_labels q.options))
      then some (QuestionnaireError.many_recommended index)
      else none
]

unfoldable pub validate_question : ℕ → Question → List Bytes → Option QuestionnaireError
validate_question index q seen_questions =
    if is_blank_text q.question
    then some (QuestionnaireError.no_question index)
    else if is_in q.question seen_questions
    then some QuestionnaireError.repeated_question
    else if is_blank_text q.header
    then some (QuestionnaireError.no_header index)
    else if ltb max_header_length (length (runes q.header))
    then some (QuestionnaireError.long_header index)
    else if ltb (length q.options) min_options || ltb max_options (length q.options)
    then some (QuestionnaireError.bad_option_count index)
    else validate_question_options index q

unfoldable pub validate_questions : ℕ → List Question → List Bytes → Option QuestionnaireError
validate_questions index [] seen_questions = none
validate_questions index (q ∷ questions) seen_questions =
    let rest = validate_questions (suc index) questions (q.question ∷ seen_questions) in
    elim (validate_question index q seen_questions) [ some e ↦ some e | none ↦ rest ]

-- ValidateQuestionnaire
unfoldable pub validate_questionnaire : List Question → Option QuestionnaireError
validate_questionnaire questions =
    if ltb (length questions) 1 || ltb max_questions (length questions)
    then some QuestionnaireError.bad_question_count
    else validate_questions 0 questions []

-- A value of the elicited content: an item of an array is `none` unless it is a string.
pub data Content : Type 0 where
  text : Bytes → Content
  array : List (Option Bytes) → Content
  other : Content

pub record QuestionnaireChoice : Type 0 where
  pub value : Bytes
  pub label : Bytes
  pub recommended : Bool

pub data Kind : Type 0 where
  multi option custom : Kind

pub record QuestionnaireAnswer : Type 0 where
  pub question_index : ℕ
  pub question : Bytes
  pub kind : Kind
  pub answer : Option Bytes
  pub selected : List Bytes
  pub choices : List QuestionnaireChoice

pub data AnswerError : Type 0 where
  not_an_array not_a_string item_not_a_string custom_required : Bytes → AnswerError
  unknown_option duplicate_option unknown_choice : Bytes → Bytes → AnswerError

pub data Answered (A : Type 0) : Type 0 where
  wrong : AnswerError → Answered A
  right : A → Answered A

-- ChoiceForOption
abbrev pub choice_for_option : Choice → QuestionnaireChoice
choice_for_option o = record { value = o.value; label = o.label; recommended = o.recommended }

-- authoredOptions, as a function of the label; a later option of the same label wins.
unfoldable pub authored_option : Option Choice → List Choice → Bytes → Option Choice
authored_option found [] label = found
authored_option found (o ∷ options) label =
    authored_option (if bytes_eq o.label label then some o else found) options label

-- The labels and the choices of a multi-select answer.
abbrev pub Picked : Type 0
Picked = List Bytes × List QuestionnaireChoice

abbrev pub pick : Bytes → Choice → Answered Picked → Answered Picked
pick label o (wrong e) = Answered.wrong e
pick label o (right (labels, choices)) =
    Answered.right (label ∷ labels, choice_for_option o ∷ choices)

abbrev pub pick_known :
    Bytes → Bytes → List Bytes → Option Choice → Answered Picked → Answered Picked
pick_known prefix label seen none rest = Answered.wrong (AnswerError.unknown_option prefix label)
pick_known prefix label seen (some o) rest =
    if is_in label seen
    then Answered.wrong (AnswerError.duplicate_option prefix label)
    else pick label o rest

-- The loop of multiSelectQuestionnaireAnswer, with the labels seen.
unfoldable pub pick_items : Bytes → List Choice → List Bytes → List (Option Bytes) → Answered Picked
pick_items prefix options seen [] = Answered.right ([], [])
pick_items prefix options seen (none ∷ items) =
    Answered.wrong (AnswerError.item_not_a_string prefix)
pick_items prefix options seen (some label ∷ items) =
    pick_known prefix label seen (authored_option none options label)
      (pick_items prefix options (label ∷ seen) items)

abbrev pub multi_answer : ℕ → Question → Bytes → Answered Picked → Answered QuestionnaireAnswer
multi_answer index q typed (wrong e) = Answered.wrong e
multi_answer index q typed (right (labels, choices)) = Answered.right (record {
  question_index = index;
  question = q.question;
  kind = Kind.multi;
  answer = none;
  selected = labels ++ (if is_blank_text typed then [] else typed ∷ []);
  choices = choices;
})

abbrev pub items_of : Option Content → Option (List (Option Bytes))
items_of (some (array items)) = some items
items_of _ = none

abbrev pub text_of : Option Content → Option Bytes
text_of (some (text s)) = some s
text_of _ = none

abbrev pub or_empty : Option Bytes → Bytes
or_empty (some s) = s
or_empty none = []

abbrev pub multi_select_answer :
    ℕ → Question → Bytes → Bytes → Option (List (Option Bytes)) → Answered QuestionnaireAnswer
multi_select_answer index q prefix typed none = Answered.wrong (AnswerError.not_an_array prefix)
multi_select_answer index q prefix typed (some items) =
    multi_answer index q typed (pick_items prefix q.options [] items)

abbrev pub single_answer :
    ℕ → Question → Kind → Bytes → List QuestionnaireChoice → QuestionnaireAnswer
single_answer index q kind answer choices = record {
  question_index = index;
  question = q.question;
  kind = kind;
  answer = some answer;
  selected = [];
  choices = choices;
}

abbrev pub authored_answer :
    ℕ → Question → Bytes → Bytes → Option Choice → Answered QuestionnaireAnswer
authored_answer index q prefix choice none =
    Answered.wrong (AnswerError.unknown_choice prefix choice)
authored_answer index q prefix choice (some o) =
    Answered.right (single_answer index q Kind.option choice (choice_for_option o ∷ []))

abbrev pub single_select_answer :
    ℕ → Question → Bytes → Bytes → Option Bytes → Answered QuestionnaireAnswer
single_select_answer index q prefix typed none = Answered.wrong (AnswerError.not_a_string prefix)
single_select_answer index q prefix typed (some choice) =
    if bytes_eq choice type_something
    then (if is_blank_text typed
        then Answered.wrong (AnswerError.custom_required prefix)
        else Answered.right (single_answer index q Kind.custom (trim_space typed) []))
    else authored_answer index q prefix choice (authored_option none q.options choice)

unfoldable pub questionnaire_answer :
    (Bytes → Option Content) → ℕ → Question → Answered QuestionnaireAnswer
questionnaire_answer content index q =
    let prefix = codes "question_" ++ decimal (suc index) in
    let typed = or_empty (text_of (content (prefix ++ codes "_custom"))) in
    if q.multi_select
    then multi_select_answer index q prefix typed (items_of (content (prefix ++ codes "_selected")))
    else single_select_answer index q prefix typed (text_of (content (prefix ++ codes "_choice")))

abbrev pub with_answer :
    Answered QuestionnaireAnswer
    → Answered (List QuestionnaireAnswer)
    → Answered (List QuestionnaireAnswer)
with_answer (wrong e) rest = Answered.wrong e
with_answer (right a) (wrong e) = Answered.wrong e
with_answer (right a) (right answers) = Answered.right (a ∷ answers)

-- QuestionnaireAnswers, over the questions from an index on.
unfoldable pub questionnaire_answers :
    (Bytes → Option Content) → ℕ → List Question → Answered (List QuestionnaireAnswer)
questionnaire_answers content index [] = Answered.right []
questionnaire_answers content index (q ∷ questions) =
    with_answer (questionnaire_answer content index q)
      (questionnaire_answers content (suc index) questions)
