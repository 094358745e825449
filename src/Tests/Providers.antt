-- ===== src/Tests/Providers.antt =====
-- Completions and their providers, and the rate limiter.
use Prim.Native.Char.{code}
use dealership_agent.Agents.ToolLoop.{say}
use dealership_agent.Api.RateLimit.{RateLimiter, check, get_or, new_limiter}
use dealership_agent.Api.RateLimit.Bursts.{IsBounded, Requests, Within, burst_bound, passed}
use dealership_agent.Api.RateLimit.Charges.{check_charges, global_used, key_used}
use dealership_agent.Api.RateLimit.KeyBursts.{IsKeyBounded, key_burst_bound, passed_key}
use dealership_agent.Base.{
  String, [], arith, if◌then◌else◌, inl, inr, none, refl, some, strip, suc, zero, ℕ, ◌&&◌, ◌*◌, ◌+◌,
  ◌<>◌, ◌=ₛ◌, ◌↔◌, ◌∷◌, ◌≡◌, ◌≤◌,
}
use dealership_agent.Llm.Bedrock.{request_of}
use dealership_agent.Llm.Groq.{GroqProvider, Reply, complete, completed, retryable}
use dealership_agent.Llm.Groq.Retries.{IsRun, complete_retries}
use dealership_agent.Llm.Normalize.{normalize_llm_response}
use dealership_agent.Llm.Normalize.Actions.{Acts, normalize_llm_response_decides}
use dealership_agent.Llm.Normalize.Fences.{IsLanguage, NoLetterFirst, Unfenced, fenced}
use dealership_agent.Llm.Spans.{advance, find_balanced_json_span, is_balanced, is_open}
use dealership_agent.Llm.Spans.Complete.{find_balanced_json_span_iff}
use dealership_agent.Llm.Spans.Grammar.{Closes, NoOpening}
use dealership_agent.Llm.Spans.Reads.{first_bracket, span-Closes}
use dealership_agent.Python.{
  Fields, Library, arr, cons, end, external_error, field, nil, obj, str, system, user,
}
use dealership_agent.Tests.{question, toy}

abbrev chatty : String
chatty = "Here: {\"a\": \"}\"} ok"

abbrev span : String
span = "{\"a\": \"}\"}"

span_found : find_balanced_json_span chatty ≡ some span
unfolding find_balanced_json_span
span_found = refl

find_balanced_json_span_iff_example : (find_balanced_json_span chatty ≡ some span) ↔ (
    (before rest : String) × (chatty ≡ before <> (span <> rest)) × NoOpening before × Closes 0 span)
find_balanced_json_span_iff_example = find_balanced_json_span_iff chatty span

-- A dict in a list, which says neither that it is an answer nor that it is a call.
abbrev bare_answer : Fields
bare_answer = field "answer" (str "One red car.") end

abbrev reading : Library
reading = record toy {
  loads = λ s. if s =ₛ span then some (arr (cons (obj bare_answer) nil)) else none;
}

no_fence : ¬ (code "H" ≡ b'`')
no_fence e = absurd (omega arith)

no_tag : ¬ (code "H" ≡ b'<')
no_tag e = absurd (omega arith)

here-NoOpening : NoOpening "Here: "
unfolding is_open
here-NoOpening = (
  first_bracket "H" refl,
  (
    first_bracket "e" refl,
    (
      first_bracket "r" refl,
      (first_bracket "e" refl, (first_bracket ":" refl, (first_bracket " " refl, tt))),
    ),
  ),
)

span-Closed : Closes 0 span
unfolding is_open advance is_balanced
span-Closed =
    span-Closes "{" "\"a\": \"}\"}" refl
      (refl, (refl, (refl, (refl, (refl, (refl, (refl, (refl, (refl, refl)))))))))

abbrev fenced_reply : String
fenced_reply = "```json\nHere: {\"a\": \"}\"} ok\n```"

json-IsLanguage : IsLanguage "json"
json-IsLanguage = (
  inr (omega arith, omega arith),
  (
    inr (omega arith, omega arith),
    (inr (omega arith, omega arith), (inr (omega arith, omega arith), tt)),
  ),
)

newline_first : NoLetterFirst "\nHere: {\"a\": \"}\"} ok\n"
newline_first (inl (a, b)) = absurd (omega arith)
newline_first (inr (a, b)) = absurd (omega arith)

chatty-Unfenced : Unfenced (strip fenced_reply) chatty
unfolding strip
chatty-Unfenced =
    fenced "json" "\nHere: {\"a\": \"}\"} ok\n" refl json-IsLanguage newline_first
      (no_fence, no_tag)

span_read : reading.loads span ≡ some (arr (cons (obj bare_answer) nil))
span_read = refl

normalize_llm_response_decides_example :
    (decision : Fields) × Acts bare_answer decision
    × (normalize_llm_response reading fenced_reply ≡ reading.dumps (obj decision))
normalize_llm_response_decides_example =
    normalize_llm_response_decides reading fenced_reply chatty "Here: " span " ok"
      (arr (cons (obj bare_answer) nil)) bare_answer chatty-Unfenced refl here-NoOpening span-Closed
      span_read (inr refl)

abbrev provider : GroqProvider
provider = record { max_retries = 3; base_delay = 1; max_delay = 20 }

-- Two errors, then an answer.
abbrev flaky : ℕ → Reply
flaky zero = retryable (external_error "busy")
flaky (suc zero) = retryable (external_error "busy")
flaky (suc (suc n)) = completed (some "answer")

complete_retries_example : IsRun toy provider flaky 3 0 0 (complete toy provider flaky)
complete_retries_example = complete_retries toy provider flaky

-- The system message goes apart from the others.
request_split : request_of (say system "Be brief." ∷ question) "m" ≡ record {
  model_id = "m";
  messages = (user, "Do you have a red car?") ∷ [];
  system = "Be brief." ∷ [];
}
unfolding request_of
request_split = refl

abbrev limiter : RateLimiter
limiter = new_limiter 20 200 60 0

abbrev burst : Requests
burst = ("1", 0) ∷ ("2", 1) ∷ ("1", 59) ∷ []

window_long : 1 ≤ limiter.window
unfolding new_limiter
window_long = omega arith

check_charges_example :
    (global_used (check limiter "1" 5).0 5
      ≡ global_used limiter 5 + (if (check limiter "1" 5).1.allowed then 1 else 0))
    × (key_used (check limiter "1" 5).0 "2" 5
        ≡ key_used limiter "2" 5 + (if (check limiter "1" 5).1.allowed && "1" =ₛ "2" then 1 else 0))
check_charges_example = check_charges limiter "1" "2" 5 window_long

limiter-IsBounded : IsBounded limiter
unfolding new_limiter
limiter-IsBounded = record { within = omega arith }

limiter-IsKeyBounded : IsKeyBounded "1" limiter
unfolding new_limiter get_or
limiter-IsKeyBounded = record { within = omega arith }

burst-Within : Within 0 limiter.window burst
unfolding new_limiter
burst-Within =
    ((omega arith, omega arith), ((omega arith, omega arith), ((omega arith, omega arith), tt)))

burst_bound_example : passed limiter burst + limiter.global_window.count ≤ 2 * limiter.global_limit
burst_bound_example = burst_bound limiter 0 burst limiter-IsBounded burst-Within

key_burst_bound_example : passed_key "1" limiter burst ≤ 2 * limiter.per_key_limit
key_burst_bound_example = key_burst_bound "1" limiter 0 burst limiter-IsKeyBounded burst-Within
