-- ===== src/Api/RateLimit/Bursts.antt =====
-- How many requests pass the limiter in a stretch of time, and what a counter can reach.
use dealership_agent.Base.{
  ℕ, ◌+◌, ◌≤◌, ◌<◌, String, ◌≡◌, refl, ◌∙◌, ◌*◌, Bool-cases, leb, leb→le, inl, inr, List, [], ◌∷◌,
  arith, All, if◌then◌else◌,
}
use dealership_agent.Api.RateLimit.{RateLimiter, check_window, check_key, check}

-- The requests of a process: a key and the time of the call.
abbrev pub Requests : Type 0
Requests = List (String × ℕ)

abbrev pub Within : ℕ → ℕ → Requests → Type 0
Within from window = All λ r. (from ≤ r.1) × (r.1 < from + window)

-- The number of the requests that are let through, one after the other.
unfoldable pub passed : RateLimiter → Requests → ℕ
passed l [] = 0
passed l ((key, now) ∷ rest) =
    let (l', result) = check l key now in (if result.allowed then 1 else 0) + passed l' rest

pub global_limit-check :
    (l : RateLimiter) (key : String) (now : ℕ)
    → ((check l key now).0.global_limit ≡ l.global_limit) × ((check l key now).0.window ≡ l.window)
unfolding check check_key
global_limit-check l key now = ground arith

pub record IsBounded (l : RateLimiter) : Type 0 where
  pub within : l.global_window.count ≤ l.global_limit

pub check-IsBounded :
    (l : RateLimiter) (key : String) (now : ℕ) → IsBounded l → IsBounded (check l key now).0
unfolding check check_key check_window
check-IsBounded l key now h = ground arith

-- Inside the window that is open, or with a reset at `now`.
step_open :
    (l : RateLimiter) (key : String) (now : ℕ)
    → IsBounded l
    → now < l.global_window.window_start + l.window
    → ((check l key now).0.global_window.window_start ≡ l.global_window.window_start)
      × ((check l key now).0.global_window.count
          ≡ l.global_window.count + (if (check l key now).1.allowed then 1 else 0))
unfolding check check_key check_window
step_open l key now b h = ground arith

step_reset :
    (l : RateLimiter) (key : String) (now : ℕ)
    → l.global_window.window_start + l.window ≤ now
    → ((check l key now).0.global_window.window_start ≡ now)
      × ((check l key now).0.global_window.count ≡ (if (check l key now).1.allowed then 1 else 0))
unfolding check check_key check_window
step_reset l key now h = ground arith

-- A window that was opened inside the stretch is not closed in it.
passed_open :
    (window : ℕ) (l : RateLimiter) (from : ℕ) (rs : Requests)
    → l.window ≡ window
    → IsBounded l
    → from ≤ l.global_window.window_start
    → Within from window rs
    → passed l rs + l.global_window.count ≤ l.global_limit
unfolding passed
passed_open window l from [] e b h w = omega (arith, b.within)
passed_open window l from ((key, now) ∷ rs) e b h w =
    let fixed = global_limit-check l key now in
    let open_now = step_open l key now b (omega arith) in
    let rest =
      passed_open window (check l key now).0 from rs (fixed.1 ∙ e) (check-IsBounded l key now b)
        (omega arith) w.1 in
    ground arith

-- However the requests and their keys are spread over a stretch of one window's length, at most
-- twice the global limit pass.
burst_bound_from :
    (window : ℕ) (l : RateLimiter) (from : ℕ) (rs : Requests)
    → l.window ≡ window
    → IsBounded l
    → Within from window rs
    → passed l rs + l.global_window.count ≤ 2 * l.global_limit
unfolding passed
burst_bound_from window l from [] e b w = omega (arith, b.within)
burst_bound_from window l from ((key, now) ∷ rs) e b w =
    let fixed = global_limit-check l key now in
    let kept = check-IsBounded l key now b in
    let l' : RateLimiter = (check l key now).0 in
    elim (Bool-cases (leb (l.global_window.window_start + l.window) now)) [
      | inl over ↦
          let start = step_reset l key now (leb→le _ _ over) in
          let rest = passed_open window l' from rs (fixed.1 ∙ e) kept (omega arith) w.1 in
          ground (arith, b.within)
      | inr going ↦
          let step = step_open l key now b (ground arith) in
          let rest = burst_bound_from window l' from rs (fixed.1 ∙ e) kept w.1 in ground arith
    ]

-- However the requests and their keys are spread over a stretch of one window's length, at most
-- twice the global limit pass, less what the open window has already counted.
pub burst_bound :
    (l : RateLimiter) (from : ℕ) (rs : Requests)
    → IsBounded l
    → Within from l.window rs
    → passed l rs + l.global_window.count ≤ 2 * l.global_limit
burst_bound l from rs b w = burst_bound_from l.window l from rs refl b w
