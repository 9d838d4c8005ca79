-- ===== src/ModelRuntime/OpenAi/Answers.antt =====
-- What the providers accept of an answer.
use agentic_ai_platform.Prelude.{
  ◌≡◌, ◌↔◌, refl, ◌∙◌, ap, true, Option, none, some, String, arith, Bool-cases, inl, inr,
}
use agentic_ai_platform.Prelude.Text.{non_blank}
use agentic_ai_platform.Value.{Value, list, object, Items, cons, Fields, get}
use agentic_ai_platform.ModelRuntime.{returned}
use agentic_ai_platform.ModelRuntime.OpenAi.{
  Standard, as_text, invalid, content_of, message_of, first_of, choices_of, extract_message_content,
}

-- A response whose first choice has a message with the text `s`, which is not blank.
pub record Carries (std : Standard) (resp : Fields) (s : String) : Type 0 where
  pub choice : Fields
  pub rest : Items
  pub message : Fields
  pub has_choice : get "choices" resp ≡ list (cons (object choice) rest)
  pub has_message : get "message" choice ≡ object message
  pub has_content : as_text std (get "content" message) ≡ some s
  pub is_shown : non_blank s ≡ true

-- The text of a choice, of a message and of a content.
content_of-returned :
    (o : Option String) (s : String)
    → content_of o ≡ returned s
    → (o ≡ some s) × (non_blank s ≡ true)
unfolding content_of invalid
content_of-returned none s h = absurd (ground (arith, h))
content_of-returned (some t) s h = elim (Bool-cases (non_blank t)) [
  | inl shows ↦ ground (arith, h, shows)
  | inr blank ↦ absurd (ground (arith, h, blank))
]

module _ (std : Standard) (s : String) where
  message_of-returned :
      (v : Value)
      → message_of std v ≡ returned s
      → (m : Fields) × (v ≡ object m)
        × (as_text std (get "content" m) ≡ some s)
        × (non_blank s ≡ true)
  unfolding message_of invalid
  message_of-returned (object m) h =
      let (found, shows) = content_of-returned (as_text std (get "content" m)) s h in
      (m, refl, found, shows)
  message_of-returned v h = absurd (ground (arith, h))

  first_of-returned :
      (v : Value)
      → first_of std v ≡ returned s
      → (choice : Fields) × (v ≡ object choice)
        × (message_of std (get "message" choice) ≡ returned s)
  unfolding first_of invalid
  first_of-returned (object choice) h = (choice, refl, h)
  first_of-returned v h = absurd (ground (arith, h))

  choices_of-returned :
      (v : Value)
      → choices_of std v ≡ returned s
      → (choice : Value) × (rest : Items) × (v ≡ list (cons choice rest))
        × (first_of std choice ≡ returned s)
  unfolding choices_of invalid
  choices_of-returned (list (cons choice rest)) h = (choice, rest, refl, h)
  choices_of-returned v h = absurd (ground (arith, h))

  extract-Carries :
      (resp : Fields) → extract_message_content std resp ≡ returned s → Carries std resp s
  unfolding extract_message_content
  extract-Carries resp h =
      let (v, rest, at, first) = choices_of-returned (get "choices" resp) h in
      let (choice, is_choice, told) = first_of-returned v first in
      let (m, is_message, content, shows) = message_of-returned (get "message" choice) told in
      record {
        choice = choice;
        rest = rest;
        message = m;
        has_choice = at ∙ ap (λ x. list (cons x rest)) is_choice;
        has_message = is_message;
        has_content = content;
        is_shown = shows;
      }

  Carries-extract :
      (resp : Fields) → Carries std resp s → extract_message_content std resp ≡ returned s
  unfolding extract_message_content choices_of first_of message_of content_of
  Carries-extract resp c =
      rw c.has_choice (rw c.has_message (rw c.has_content (rw c.is_shown refl)))

-- The text of an answer is accepted exactly where the answer has a list of choices, the first of
-- them is a dictionary with a message, and the message has this text, which is not blank; every other
-- answer raises.
pub extract_message_content_iff :
    (std : Standard) (resp : Fields) (s : String)
    → (extract_message_content std resp ≡ returned s) ↔ Carries std resp s
extract_message_content_iff std resp s = (extract-Carries std s resp, Carries-extract std s resp)
