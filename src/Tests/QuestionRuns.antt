-- ===== src/Tests/QuestionRuns.antt =====
-- internal/jinn/questionnaire.go on two questions.
use jinn.Base.{
  ◌≡◌, refl, true, false, Option, some, none, List, [], ◌∷◌, Bytes, codes, bytes_eq, runes,
  trim_space, decimal, if◌then◌else◌,
}
use jinn.Plan.{is_in}
use jinn.Questionnaire.{
  Choice, Question, Content, QuestionnaireAnswer, QuestionnaireError, Kind, text, array,
  single_answer, choice_for_option, authored_option, pick_items, questionnaire_answer,
  questionnaire_answers, validate_option, validate_options, validate_question_options,
  validate_question, validate_questions, validate_questionnaire,
}
use jinn.Questionnaire.Answers.{AnswersFit, questionnaire_answers-AnswersFit}

abbrev choice : Bytes → Bytes → Choice
choice value label = record {
  value = value;
  label = label;
  description = codes "d";
  recommended = true;
}

abbrev both : List Choice
both = choice (codes "1") (codes "One") ∷ choice (codes "2") (codes "Two") ∷ []

abbrev single : Question
single = record {
  question = codes "Which?";
  header = codes "Which";
  options = both;
  multi_select = false;
}

abbrev many : Question
many = record {
  question = codes "Which ones?";
  header = codes "Which";
  options = both;
  multi_select = true;
}

abbrev content : Bytes → Option Content
content key =
    if bytes_eq key (codes "question_1_choice")
    then some (text (codes "Two"))
    else if bytes_eq key (codes "question_2_selected")
    then some (array (some (codes "Two") ∷ some (codes "One") ∷ []))
    else if bytes_eq key (codes "question_2_custom")
    then some (text (codes "Three"))
    else none

abbrev answers : List QuestionnaireAnswer
answers =
    single_answer 0 single Kind.option (codes "Two")
      (choice_for_option (choice (codes "2") (codes "Two")) ∷ [])
    ∷ record {
      question_index = 1;
      question = codes "Which ones?";
      kind = Kind.multi;
      answer = none;
      selected = codes "Two" ∷ codes "One" ∷ codes "Three" ∷ [];
      choices =
          choice_for_option (choice (codes "2") (codes "Two"))
          ∷ choice_for_option (choice (codes "1") (codes "One"))
          ∷ [];
    }
    ∷ []

one_recommended :
    validate_questionnaire (single ∷ many ∷ []) ≡ some (QuestionnaireError.many_recommended 0)
unfolding validate_questionnaire validate_questions validate_question validate_question_options
    validate_options validate_option is_in bytes_eq trim_space runes
one_recommended = refl

many_recommended : validate_questionnaire (many ∷ []) ≡ none
unfolding validate_questionnaire validate_questions validate_question validate_question_options
    validate_options validate_option is_in bytes_eq trim_space runes
many_recommended = refl

questionnaire_answers-AnswersFit_example : AnswersFit 0 (single ∷ many ∷ []) answers
unfolding questionnaire_answers questionnaire_answer authored_option pick_items is_in bytes_eq
    trim_space decimal
questionnaire_answers-AnswersFit_example =
    questionnaire_answers-AnswersFit content (single ∷ many ∷ []) answers refl
