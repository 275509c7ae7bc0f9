-- ===== src/Execution/Output.antt =====
-- src/runtime/observability/text_preview.py and the bounded message of src/runtime/hooks/policy.py.
use local_coding_agent_harne.Prelude.{
  ℕ, zero, suc, ◌+◌, ◌-◌, ◌/◌, ◌%◌, ◌≤◌, ◌<◌, ◌≡◌, ◌⊎◌, refl, ap, ◌==◌, leb, ltb, [], ◌∷◌, ◌++◌,
  length, length-append, length-take-le, take, drop, Text, codes, arith, Bool-cases, inl, inr,
  if◌then◌else◌,
}

-- The decimal digits of a number; a number has at most as many digits as its value and one.
unfoldable pub digits_from : ℕ → ℕ → Text
digits_from zero n = []
digits_from (suc fuel) n =
    let higher = digits_from fuel (n / 10) in
    let last = (48 + n % 10) ∷ [] in if ltb n 10 then last else higher ++ last

abbrev pub digits : ℕ → Text
digits n = digits_from (suc n) n

unfoldable pub marker : ℕ → Text
marker omitted = (10 ∷ codes "... ") ++ digits omitted ++ (codes " chars omitted ..." ++ 10 ∷ [])

-- `max(max_chars - len(marker), 0)`
abbrev pub available : ℕ → ℕ → ℕ
available max_chars omitted = max_chars - length (marker omitted)

-- The loop of three rounds, which stops early once the number no longer changes.
unfoldable pub settle : ℕ → ℕ → ℕ → ℕ → ℕ
settle zero size max_chars omitted = omitted
settle (suc rounds) size max_chars omitted =
    let updated = size - available max_chars omitted in
    let later = settle rounds size max_chars updated in
    if updated == omitted then omitted else later

-- `text[-n:]` of a positive n
abbrev pub last_chars : ℕ → Text → Text
last_chars n text = drop (length text - n) text

abbrev pub around_marker : Text → ℕ → ℕ → Text
around_marker text max_chars omitted =
    let room = available max_chars omitted in
    let head = room / 2 in
    if room == 0
    then take max_chars (marker omitted)
    else take head text ++ (marker omitted ++ last_chars (room - head) text)

unfoldable pub head_tail_preview : Text → ℕ → Text
head_tail_preview text max_chars =
    if max_chars == 0
    then []
    else if leb (length text) max_chars
    then text
    else around_marker text max_chars (settle 3 (length text) max_chars (length text - max_chars))

-- `_bounded_output_message`
unfoldable pub bounded_output_message : Text → Text → Text → ℕ → Text
bounded_output_message prefix content suffix max_chars =
    take max_chars
      (prefix ++ (head_tail_preview content (max_chars - length prefix - length suffix) ++ suffix))

length-drop : (n : ℕ) (text : Text) → length (drop n text) ≡ length text - n
length-drop zero text = omega arith
length-drop (suc n) [] = omega arith
length-drop (suc n) (c ∷ text) = omega (arith, length-drop n text)

last_chars-length : (n : ℕ) (text : Text) → length (last_chars n text) ≤ n
last_chars-length n text = omega (arith, length-drop (length text - n) text)

around_marker-length :
    (text : Text) (max_chars omitted : ℕ)
    → length (around_marker text max_chars omitted) ≤ max_chars
around_marker-length text max_chars omitted =
    let room = available max_chars omitted in
    let head = room / 2 in
    let tail = last_chars (room - head) text in
    elim (Bool-cases (room == 0)) [
      | inl e ↦ rw e (length-take-le max_chars (marker omitted))
      | inr e ↦ rw e (
          ground (
            arith,
            length-append (take head text) (marker omitted ++ tail),
            length-append (marker omitted) tail,
            length-take-le head text,
            last_chars-length (room - head) text,
          ))
    ]

head_tail_preview-length :
    (text : Text) (max_chars : ℕ) → length (head_tail_preview text max_chars) ≤ max_chars
unfolding head_tail_preview
head_tail_preview-length text max_chars = ground (
  arith,
  around_marker-length text max_chars (settle 3 (length text) max_chars (length text - max_chars)),
)

take-whole : (n : ℕ) (text : Text) → length text ≤ n → take n text ≡ text
take-whole zero [] h = refl
take-whole zero (c ∷ text) h = absurd (omega (arith, h))
take-whole (suc n) [] h = refl
take-whole (suc n) (c ∷ text) h = ap (λ t. c ∷ t) (take-whole n text (omega (arith, h)))

-- The message for a large output never has more characters than the limit, and it is cut only if
-- its frame alone is longer: else it has the whole frame, with a preview of the content in it.
pub bounded_output_message-length :
    (prefix content suffix : Text) (max_chars : ℕ)
    → let message = bounded_output_message prefix content suffix max_chars in
      let preview = head_tail_preview content (max_chars - length prefix - length suffix) in
      (length message ≤ max_chars)
      × ((max_chars < length prefix + length suffix) ⊎ (message ≡ prefix ++ (preview ++ suffix)))
unfolding bounded_output_message
bounded_output_message-length prefix content suffix max_chars =
    let budget = max_chars - length prefix - length suffix in
    let preview = head_tail_preview content budget in
    let whole = prefix ++ (preview ++ suffix) in
    (
      length-take-le max_chars whole,
      elim (Bool-cases (ltb max_chars (length prefix + length suffix))) [
        | inl s ↦ inl (ground arith)
        | inr s ↦ inr (
            take-whole max_chars whole (
              ground (
                arith,
                length-append prefix (preview ++ suffix),
                length-append preview suffix,
                head_tail_preview-length content budget,
              )))
      ],
    )
