-- ===== src/Context/Budget.antt =====
-- src/runtime/context/budget.py: the estimate of tokens, the anchor of the provider's usage and the
-- pressure on the context window. Counts are natural numbers; the product of the window and the
-- ratio, rounded down, is the argument `scaled`.
use local_coding_agent_harne.Prelude.{
  ℕ, ◌+◌, ◌-◌, ◌*◌, ◌/◌, ◌≤◌, ◌<◌, min, max, ◌≡◌, ◌⊎◌, Bool, false, Option, none, some, Text, leb,
  ltb, is_nil, if◌then◌else◌, length, count_of, arith,
}

-- a/4 + n/1.5 is (3 a + 8 n) / 12, rounded up.
abbrev pub rounded_up : ℕ → ℕ → ℕ
rounded_up ascii_chars non_ascii_chars = (3 * ascii_chars + 8 * non_ascii_chars + 11) / 12

unfoldable pub estimate_text_tokens : Text → ℕ
estimate_text_tokens text =
    let ascii_chars = count_of (λ c. ltb c 128) text in
    if is_nil text then 0 else max 1 (rounded_up ascii_chars (length text - ascii_chars))

-- `abs(a - b)`
abbrev pub distance : ℕ → ℕ → ℕ
distance a b = (a - b) + (b - a)

-- The nearest of two candidates, the larger one if both are as near.
unfoldable pub nearest : ℕ → ℕ → ℕ → ℕ
nearest target a b =
    let da = distance a target in
    let db = distance b target in if ltb da db then a else if ltb db da then b else max a b

unfoldable pub normalize_provider_context_anchor : ℕ → ℕ → ℕ → ℕ → ℕ → ℕ → ℕ
normalize_provider_context_anchor local_input input cache_creation cache_read assistant_response
      appended_input =
    nearest local_input input (input + (cache_creation + cache_read))
    + (assistant_response + appended_input)

-- The provider counts the cache's tokens with the input or beside it. The anchor takes one of the
-- two readings, the one nearer to the local estimate, and adds the growth since.
pub anchor-nearest :
    (local_input input creation read response appended : ℕ)
    → let base =
        normalize_provider_context_anchor local_input input creation read response appended
        - (response + appended) in
      ((base ≡ input) ⊎ (base ≡ input + (creation + read)))
      × (distance base local_input ≤ distance input local_input)
      × (distance base local_input ≤ distance (input + (creation + read)) local_input)
unfolding normalize_provider_context_anchor nearest
anchor-nearest local_input input creation read response appended = ground arith

pub data TriggerReason : Type 0 where
  hard_pressure auto_pressure : TriggerReason

-- Of the measurement, what depends on the pressure.
pub record ContextMeasurement : Type 0 where
  pub local_input_tokens : ℕ
  pub provider_input_tokens : Option ℕ
  pub pressure_input_tokens : ℕ
  pub from_provider : Bool
  pub auto_compact_trigger_tokens : ℕ
  pub hard_input_limit_tokens : ℕ
  pub trigger_reason : Option TriggerReason

-- `normalized_provider_input or 0`
abbrev pub provider_or_zero : Option ℕ → ℕ
provider_or_zero none = 0
provider_or_zero (some n) = n

abbrev pub is_from_provider : Option ℕ → ℕ → Bool
is_from_provider none estimate = false
is_from_provider (some n) estimate = leb estimate n

abbrev pub hard_limit : ℕ → ℕ → ℕ → ℕ
hard_limit window output safety = max (max window 1 - output - safety) 1

unfoldable pub measure_context : ℕ → Option ℕ → ℕ → ℕ → ℕ → ℕ → ContextMeasurement
measure_context estimate provider window scaled output safety =
    let pressure = max estimate (provider_or_zero provider) in
    let hard = hard_limit window output safety in
    let auto = min (max scaled 1) hard in
    record {
      local_input_tokens = estimate;
      provider_input_tokens = provider;
      pressure_input_tokens = pressure;
      from_provider = is_from_provider provider estimate;
      auto_compact_trigger_tokens = auto;
      hard_input_limit_tokens = hard;
      trigger_reason =
          if leb hard pressure
          then some TriggerReason.hard_pressure
          else if leb auto pressure
          then some TriggerReason.auto_pressure
          else none;
    }

-- No trigger means that neither count of the input reaches the automatic trigger, which is at most
-- the hard limit, and that the input, the output and the margin fit the window if the window
-- leaves room for any input.
pub measure_context-fits :
    (estimate : ℕ) (provider : Option ℕ) (window scaled output safety : ℕ)
    → (measure_context estimate provider window scaled output safety).trigger_reason ≡ none
    → output + safety < window
    → (estimate + output + safety < window) × (provider_or_zero provider + output + safety < window)
unfolding measure_context
measure_context-fits estimate provider window scaled output safety h room = ground arith
