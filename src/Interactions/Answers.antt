-- ===== src/Interactions/Answers.antt =====
-- `validateResponse` of src/user-interactions/user-interaction-facade.ts, with the requests and
-- responses of types.ts.

use Prim.Native.Char.{code}
use deepseek_harness_relay_m.Base.{
  ℕ, ◌+◌, String, ◌≡◌, Bool, true, false, not, ◌&&◌, ◌||◌, Option, none, some, is_some, List, [],
  ◌∷◌, arith, ltb, leb, ◌==◌, nat_eq, string_eq, if◌then◌else◌, length, find, any,
}
use deepseek_harness_relay_m.Base.Result.{Result, ok, err}

pub data Decision : Type 0 where
  allowed_once rejected cancelled : Decision

pub data Basis : Type 0 where
  explicit_user_approval within_authorized_task : Basis

pub record Answer : Type 0 where
  pub id : String
  pub selected : List String
  pub custom : Option String

pub data Response : Type 0 where
  approval : Decision → Option Basis → String → Response
  question : List Answer → Response
  cancel : Response

-- `options` holds the labels; the texts for display are left out.
pub record QuestionItem : Type 0 where
  pub id : String
  pub options : List String
  pub multi_select : Bool

pub data Details : Type 0 where
  asks_approval : String → Option String → Option String → Details
  asks_questions : List QuestionItem → Details

pub data InteractionError : Type 0 where
  not_pending owner_mismatch over_capacity kind_mismatch authorization_required invalid_answer :
      InteractionError

-- The characters that `trim` removes.
is_space : ℕ → Bool
is_space c =
    (leb 9 c && leb c 13)
    || c == 32
    || c == 160
    || c == 5760
    || (leb 8192 c && leb c 8202)
    || c == 8232
    || c == 8233
    || c == 8239
    || c == 8287
    || c == 12288
    || c == 65279

-- `!text.trim()`
pub is_blank : String → Bool
unfolding is_space
is_blank String.[] = true
is_blank (String.◌∷◌ c text) = if is_space (code c) then is_blank text else false

abbrev pub includes : List String → String → Bool
includes labels label = any (λ l. l == label) labels

-- `new Set(labels).size === labels.length`
pub all_distinct : List String → Bool
all_distinct [] = true
all_distinct (x ∷ xs) = not (includes xs x) && all_distinct xs

abbrev pub all_included : List String → List String → Bool
all_included [] labels = true
all_included (x ∷ xs) labels = includes labels x && all_included xs labels

abbrev pub ids : List Answer → List String
ids [] = []
ids (a ∷ rest) = a.id ∷ ids rest

-- `answer.custom?.trim() ? 1 : 0`
abbrev custom_count : Option String → ℕ
custom_count none = 0
custom_count (some text) = if is_blank text then 0 else 1

pub answer_fits : QuestionItem → Answer → Bool
unfolding all_distinct is_blank
answer_fits q a =
    all_distinct a.selected
    && (all_included a.selected q.options
        && (q.multi_select || not (ltb 1 (length a.selected + custom_count a.custom))))

abbrev pub answer_to : QuestionItem → List Answer → Option Answer
answer_to q answers = find (λ a. a.id == q.id) answers

abbrev answered : QuestionItem → Option Answer → Bool
answered q none = false
answered q (some a) = answer_fits q a

pub check_questions : List QuestionItem → List Answer → Result InteractionError (Unit {0})
unfolding answer_fits
check_questions [] answers = ok tt
check_questions (q ∷ rest) answers =
    if answered q (answer_to q answers) then check_questions rest answers else err invalid_answer

unauthorized : Decision → Option Basis → Bool
unauthorized allowed_once none = true
unauthorized _ _ = false

unfoldable pub validate_response : Details → Response → Result InteractionError (Unit {0})
unfolding check_questions unauthorized is_blank all_distinct
validate_response details cancel = ok tt
validate_response (asks_questions questions) (approval d basis text) = err kind_mismatch
validate_response (asks_approval tool call reason) (question answers) = err kind_mismatch
validate_response (asks_approval tool call reason) (approval d basis text) =
    if is_blank text || unauthorized d basis then err authorization_required else ok tt
validate_response (asks_questions questions) (question answers) =
    if length answers == length questions && all_distinct (ids answers)
    then check_questions questions answers
    else err invalid_answer

-- A grant passes validation only for an approval request, with a basis of its authorization and with
-- an explanation that is not blank.
pub validate-allowed_once :
    (details : Details) (basis : Option Basis) (text : String)
    → validate_response details (approval allowed_once basis text) ≡ ok tt
    → (is_some basis ≡ true) × (is_blank text ≡ false)
unfolding validate_response unauthorized
validate-allowed_once (asks_questions qs) basis text e = absurd (ground arith)
validate-allowed_once (asks_approval t c r) none text e = absurd (ground arith)
validate-allowed_once (asks_approval t c r) (some b) text e = ground arith

-- The first answer for the question: its labels are options of the question, each once, and there is
-- at most one answer, own text included, unless the question takes several.
abbrev pub IsAnswered : List Answer → QuestionItem → Type 0
IsAnswered answers q = (a : Answer) × (answer_to q answers ≡ some a) × (answer_fits q a ≡ true)
