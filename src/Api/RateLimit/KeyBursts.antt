-- ===== src/Api/RateLimit/KeyBursts.antt =====
-- How many requests of one customer pass in a stretch of time.
use dealership_agent.Base.{
  ℕ, ◌+◌, ◌*◌, ◌≤◌, ◌<◌, String, ◌≡◌, refl, ◌∙◌, ◌⊎◌, inl, inr, ◌&&◌, List, [], ◌∷◌, arith,
  Bool-cases, eq_iff, ◌=ₛ◌, if◌then◌else◌,
}
use dealership_agent.Api.RateLimit.{
  WindowCounter, RateLimiter, check_window, get_or, counter_of, check_key, check,
}
use dealership_agent.Api.RateLimit.Charges.{get_or-put}
use dealership_agent.Api.RateLimit.Bursts.{Requests, Within}

-- The number of the requests of the key `k` that are let through.
unfoldable pub passed_key : String → RateLimiter → Requests → ℕ
passed_key k l [] = 0
passed_key k l ((key, now) ∷ rest) =
    let (l', result) = check l key now in
    (if result.allowed && key =ₛ k then 1 else 0) + passed_key k l' rest

-- The counter of a key; a key with no counter stands as one opened when the stretch begins.
abbrev pub counter_from : ℕ → String → RateLimiter → WindowCounter
counter_from from k l = get_or k (record { window_start = from; count = 0 }) l.per_key_windows

-- The key has a counter within its limit, or none.
pub record IsKeyBounded (k : String) (l : RateLimiter) : Type 0 where
  pub within : (counter_from 0 k l).count ≤ l.per_key_limit

get_or_default :
    (k : String) (d e : WindowCounter) (m : List (String × WindowCounter))
    → (get_or k d m ≡ get_or k e m) ⊎ ((get_or k d m ≡ d) × (get_or k e m ≡ e))
unfolding get_or
get_or_default k d e [] = inr (refl, refl)
get_or_default k d e ((j, c) ∷ m) = elim (Bool-cases (j =ₛ k)) [
  | inl h ↦ rw h (inl refl)
  | inr h ↦ rw h (get_or_default k d e m)
]

pub key_limit-check :
    (l : RateLimiter) (key : String) (now : ℕ)
    → ((check l key now).0.per_key_limit ≡ l.per_key_limit)
      × ((check l key now).0.window ≡ l.window)
unfolding check check_key
key_limit-check l key now = ground arith

module _ (k : String) (from window : ℕ) where
  -- While the counter's window is open, a call adds its credit.
  step_open :
      (l : RateLimiter) (key : String) (now : ℕ)
      → l.window ≡ window
      → from ≤ now
      → now < from + window
      → from ≤ (counter_from from k l).window_start
      → (from ≤ (counter_from from k (check l key now).0).window_start)
        × ((counter_from from k (check l key now).0).count
            ≡ (counter_from from k l).count
              + (if (check l key now).1.allowed && key =ₛ k then 1 else 0))
  unfolding check check_key check_window
  step_open l key now e a b h =
      let start : WindowCounter = record { window_start = from; count = 0 } in
      let fresh : WindowCounter = record { window_start = now; count = 0 } in
      let own = check_window l.window (counter_of l key now) l.per_key_limit now in
      ground (
        arith,
        get_or-put key k own.0 start l.per_key_windows,
        get_or_default k start fresh l.per_key_windows,
        eq_iff key k,
      )

  step_bounded :
      (l : RateLimiter) (key : String) (now : ℕ)
      → (counter_from from k l).count ≤ l.per_key_limit
      → (counter_from from k (check l key now).0).count ≤ l.per_key_limit
  unfolding check check_key check_window
  step_bounded l key now h =
      let start : WindowCounter = record { window_start = from; count = 0 } in
      let fresh : WindowCounter = record { window_start = now; count = 0 } in
      let own = check_window l.window (counter_of l key now) l.per_key_limit now in
      ground (
        arith,
        get_or-put key k own.0 start l.per_key_windows,
        get_or_default k start fresh l.per_key_windows,
        eq_iff key k,
      )

  -- In any case a call adds its credit, or it opens a window that holds just its credit.
  step_any :
      (l : RateLimiter) (key : String) (now : ℕ)
      → from ≤ now
      → ((counter_from from k (check l key now).0).count
          ≡ (counter_from from k l).count
            + (if (check l key now).1.allowed && key =ₛ k then 1 else 0))
        ⊎ ((from ≤ (counter_from from k (check l key now).0).window_start)
            × ((counter_from from k (check l key now).0).count
                ≡ (if (check l key now).1.allowed && key =ₛ k then 1 else 0)))
  unfolding check check_key check_window
  step_any l key now a =
      let start : WindowCounter = record { window_start = from; count = 0 } in
      let fresh : WindowCounter = record { window_start = now; count = 0 } in
      let own = check_window l.window (counter_of l key now) l.per_key_limit now in
      ground (
        arith,
        get_or-put key k own.0 start l.per_key_windows,
        get_or_default k start fresh l.per_key_windows,
        eq_iff key k,
      )

  passed_key_open :
      (l : RateLimiter) (rs : Requests)
      → l.window ≡ window
      → (counter_from from k l).count ≤ l.per_key_limit
      → from ≤ (counter_from from k l).window_start
      → Within from window rs
      → passed_key k l rs + (counter_from from k l).count ≤ l.per_key_limit
  unfolding passed_key
  passed_key_open l [] e b h w = omega arith
  passed_key_open l ((key, now) ∷ rs) e b h w =
      let l' : RateLimiter = (check l key now).0 in
      let fixed = key_limit-check l key now in
      let step = step_open l key now e w.0.0 w.0.1 h in
      let rest =
        passed_key_open l' rs (fixed.1 ∙ e) (rw (fixed.0) (step_bounded l key now b)) step.0 w.1 in
      ground arith

  passed_key_any :
      (l : RateLimiter) (rs : Requests)
      → l.window ≡ window
      → (counter_from from k l).count ≤ l.per_key_limit
      → Within from window rs
      → passed_key k l rs + (counter_from from k l).count ≤ 2 * l.per_key_limit
  unfolding passed_key
  passed_key_any l [] e b w = omega arith
  passed_key_any l ((key, now) ∷ rs) e b w =
      let l' : RateLimiter = (check l key now).0 in
      let fixed = key_limit-check l key now in
      let kept : (counter_from from k l').count ≤ l'.per_key_limit =
        rw (fixed.0) (step_bounded l key now b) in
      elim (step_any l key now w.0.0) [
        | inl step ↦ let rest = passed_key_any l' rs (fixed.1 ∙ e) kept w.1 in ground arith
        | inr step ↦ let rest = passed_key_open l' rs (fixed.1 ∙ e) kept step.0 w.1 in ground arith
      ]

count_from :
    (k : String) (from : ℕ) (l : RateLimiter)
    → (counter_from from k l).count ≡ (counter_from 0 k l).count
count_from k from l =
    let a : WindowCounter = record { window_start = from; count = 0 } in
    let b : WindowCounter = record { window_start = 0; count = 0 } in
    ground (arith, get_or_default k a b l.per_key_windows)

-- However the requests of all customers are spread over a stretch of one window's length, at most
-- twice the limit per key pass for any one key.
pub key_burst_bound :
    (k : String) (l : RateLimiter) (from : ℕ) (rs : Requests)
    → IsKeyBounded k l
    → Within from l.window rs
    → passed_key k l rs ≤ 2 * l.per_key_limit
key_burst_bound k l from rs b w =
    omega (arith, passed_key_any k from l.window l rs refl (rw count_from b.within) w)
