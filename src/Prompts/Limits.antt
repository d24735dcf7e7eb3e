-- ===== src/Prompts/Limits.antt =====
-- Which prompts `resolvePrompt` of src/prompt.ts takes.
use deepseek_harness_relay_m.Base.{
  ℕ, suc, ◌+◌, ◌≤◌, String, ◌≡◌, ◌≢◌, ◌↔◌, refl, sym, ap, ◌∙◌, inl, inr, false, Option, none, some,
  List, [], ◌∷◌, arith, ltb, or_else, All, Option-cases, Bool-cases, ◌⊎◌,
}
use deepseek_harness_relay_m.Base.Result.{ok, Result-cases}
use deepseek_harness_relay_m.Types.{PromptPart}
use deepseek_harness_relay_m.Prompts.Base64.{utf16_length, validate_base64}
use deepseek_harness_relay_m.Prompts.Content.{
  Input, Limits, Tally, Prompt, tally_image, tally, nothing_yet, within, prompt_of, checked,
  content_of, resolve_prompt,
}

-- The three measures of a content, part by part.
abbrev pub images : List PromptPart → ℕ
images [] = 0
images (PromptPart.text s ∷ parts) = images parts
images (PromptPart.image media bytes name ∷ parts) = suc (images parts)

abbrev pub total_bytes : List PromptPart → ℕ
total_bytes [] = 0
total_bytes (PromptPart.text s ∷ parts) = total_bytes parts
total_bytes (PromptPart.image media bytes name ∷ parts) =
    or_else (validate_base64 bytes) 0 + total_bytes parts

abbrev pub characters : List PromptPart → ℕ
characters [] = 0
characters (PromptPart.text s ∷ parts) = utf16_length s + characters parts
characters (PromptPart.image media bytes name ∷ parts) = characters parts

module _ (limits : Limits) where
  -- A text, or an image in canonical base64 of at most the given bytes.
  abbrev pub IsAllowed : PromptPart → Type 0
  IsAllowed (PromptPart.text s) = Unit
  IsAllowed (PromptPart.image media bytes name) =
      (n : ℕ) × (validate_base64 bytes ≡ some n) × (n ≤ limits.max_image_bytes)

  abbrev pub IsWithin : List PromptPart → Type 0
  IsWithin parts =
      All IsAllowed parts
      × (characters parts ≤ limits.max_task_characters)
      × (images parts ≤ limits.max_images_per_message)
      × (total_bytes parts ≤ limits.max_message_image_bytes)

  abbrev plus : Tally → List PromptPart → Tally
  plus t parts = record {
    image_count = t.image_count + images parts;
    image_bytes = t.image_bytes + total_bytes parts;
    text_characters = t.text_characters + characters parts;
  }

  tally-ok :
      (parts : List PromptPart) (t u : Tally)
      → tally limits parts t ≡ ok u
      → All IsAllowed parts × (u ≡ plus t parts)
  unfolding tally tally_image
  tally-ok [] t u e = (tt, ground arith)
  tally-ok (PromptPart.text s ∷ parts) t u e =
      let (all, sum) = tally-ok parts _ u e in ((tt, all), ground (arith, sum))
  tally-ok (PromptPart.image media bytes name ∷ parts) t u e =
      elim (Option-cases (validate_base64 bytes)) [
        | inl broken ↦ absurd (ground arith)
        | inr (n, whole) ↦ elim (Bool-cases (ltb limits.max_image_bytes n)) [
          | inl large ↦ absurd (ground arith)
          | inr small ↦
              let (all, sum) = tally-ok parts _ u (rw (whole, small) at e) in
              (((n, whole, ground arith), all), ground (arith, sum))
        ]
      ]

  tally_allowed :
      (parts : List PromptPart) (t : Tally)
      → All IsAllowed parts
      → tally limits parts t ≡ ok (plus t parts)
  unfolding tally tally_image
  tally_allowed [] t all = ground arith
  tally_allowed (PromptPart.text s ∷ parts) t all = tally_allowed parts _ all.1 ∙ ground arith
  tally_allowed (PromptPart.image media bytes name ∷ parts) t all =
      let (n, whole, small) = all.0 in
      let fits : ltb limits.max_image_bytes n ≡ false = ground (arith, small) in
      rw (whole, fits) (tally_allowed parts _ all.1 ∙ ground (arith, whole))

  -- The content that the caller gives: its own, or one text.
  abbrev pub IsGiven : Input → List PromptPart → Type 0
  IsGiven input parts =
      ((input.task ≡ none) × (input.content ≡ some parts))
      ⊎ ((s : String) × (input.task ≡ some s)
          × (input.content ≡ none)
          × (parts ≡ PromptPart.text s ∷ []))

  content_of-IsGiven :
      (task : Option String) (content : Option (List PromptPart)) (parts : List PromptPart)
      → content_of task content ≡ ok parts
      → IsGiven (record { task = task; content = content }) parts
  unfolding content_of
  content_of-IsGiven none none parts e = absurd (ground arith)
  content_of-IsGiven (some s) (some content) parts e = absurd (ground arith)
  content_of-IsGiven (some s) none parts e = inr (s, refl, refl, ground arith)
  content_of-IsGiven none (some content) parts e = inl (refl, ground arith)

  IsGiven-content_of :
      (input : Input) (parts : List PromptPart)
      → IsGiven input parts
      → content_of input.task input.content ≡ ok parts
  unfolding content_of
  IsGiven-content_of input parts (inl (a, b)) = rw (a, b) refl
  IsGiven-content_of input parts (inr (s, a, b, c)) = rw (a, b, c) refl

  within_ok :
      (t u : Tally)
      → within limits t ≡ ok u
      → (u ≡ t)
        × (t.text_characters ≤ limits.max_task_characters)
        × (t.image_count ≤ limits.max_images_per_message)
        × (t.image_bytes ≤ limits.max_message_image_bytes)
  unfolding within
  within_ok t u e = (ground arith, ground arith, ground arith, ground arith)

  within_small :
      (t : Tally)
      → t.text_characters ≤ limits.max_task_characters
      → t.image_count ≤ limits.max_images_per_message
      → t.image_bytes ≤ limits.max_message_image_bytes
      → within limits t ≡ ok t
  unfolding within
  within_small t a b c = ground arith

  -- A prompt that is returned: its content is not empty and within the limits.
  abbrev pub IsTaken : Prompt → Type 0
  IsTaken p = (p.content ≢ []) × IsWithin p.content × (p ≡ prompt_of p.content (images p.content))

  checked-IsTaken :
      (parts : List PromptPart) (p : Prompt)
      → checked limits parts ≡ ok p
      → (p.content ≡ parts) × IsTaken p
  unfolding checked prompt_of
  checked-IsTaken [] p e = absurd (ground arith)
  checked-IsTaken (part ∷ parts) p e =
      elim (Result-cases (tally limits (part ∷ parts) nothing_yet)) [
        | inr (x, bad) ↦ absurd (ground arith)
        | inl (t, counted) ↦ elim (Result-cases (within limits t)) [
          | inr (x, bad) ↦ absurd (ground arith)
          | inl (u, small) ↦
              let (all, sum) = tally-ok (part ∷ parts) nothing_yet t counted in
              let (same, a, b, c) = within_ok t u small in
              let made : ok (prompt_of (part ∷ parts) u.image_count) ≡ ok p =
                rw (counted, small) at e in
              let same_p : p ≡ prompt_of (part ∷ parts) u.image_count = ground (arith, made) in
              let count : u.image_count ≡ images (part ∷ parts) = ground (arith, same, sum) in
              rw (same_p, count)
                (
                  refl,
                  (
                    (λ empty. absurd (cc)),
                    (all, ground (arith, sum), ground (arith, sum), ground (arith, sum)),
                    refl,
                  ),
                )
        ]
      ]

  taken-checked :
      (parts : List PromptPart)
      → parts ≢ []
      → IsWithin parts
      → checked limits parts ≡ ok (prompt_of parts (images parts))
  unfolding checked
  taken-checked [] some_part w = absurd (some_part refl)
  taken-checked (part ∷ parts) some_part w =
      let counted = tally_allowed (part ∷ parts) nothing_yet w.0 in
      let small =
        within_small (plus nothing_yet (part ∷ parts)) (omega (arith, w.1)) (omega (arith, w.2))
          (omega (arith, w.3)) in
      let count : 0 + images (part ∷ parts) ≡ images (part ∷ parts) = omega arith in
      rw (counted, small, count) refl

  resolved-IsTaken :
      (task : Option String) (content : Option (List PromptPart)) (p : Prompt)
      → resolve_prompt limits (record { task = task; content = content }) ≡ ok p
      → IsGiven (record { task = task; content = content }) p.content × IsTaken p
  unfolding resolve_prompt
  resolved-IsTaken task content p e = elim (Result-cases (content_of task content)) [
    | inr (x, bad) ↦ absurd (ground arith)
    | inl (parts, given) ↦
        let (same, taken) = checked-IsTaken parts p (rw given at e) in
        (rw same (content_of-IsGiven task content parts given), taken)
  ]

  taken-resolved :
      (input : Input) (p : Prompt)
      → IsGiven input p.content
      → IsTaken p
      → resolve_prompt limits input ≡ ok p
  unfolding resolve_prompt
  taken-resolved input p given taken =
      rw (IsGiven-content_of input p.content given)
        (taken-checked p.content taken.0 taken.1 ∙ ap ok (sym taken.2))

  -- `resolvePrompt` returns a prompt just if the caller gives exactly one of task and content, the
  -- content is not empty, every image is canonical base64 of at most the limit, and the characters,
  -- the images and the images' bytes in all are within their limits; the prompt is then the content
  -- with its joined texts and the number of its images.
  pub resolve_prompt_iff :
      (input : Input) (p : Prompt)
      → (resolve_prompt limits input ≡ ok p) ↔ (IsGiven input p.content × IsTaken p)
  resolve_prompt_iff input p =
      (λ e. resolved-IsTaken input.task input.content p e, λ h. taken-resolved input p h.0 h.1)
