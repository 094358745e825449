-- ===== src/Api/RateLimit/Charges.antt =====
-- What one call of `check` does to the budgets of every key.
use dealership_agent.Api.RateLimit.{
  RateLimiter, WindowCounter, check, check_key, check_window, counter_of, get_or, put,
}
use dealership_agent.Base.{
  List, String, [], arith, eq_iff, if◌then◌else◌, leb, ltb, refl, ℕ, ◌&&◌, ◌+◌, ◌=ₛ◌, ◌∷◌, ◌≡◌, ◌≤◌,
}

-- How much of the limit is used at a time: nothing once the window is over.
abbrev pub used : ℕ → WindowCounter → ℕ → ℕ
used window c now = if leb (c.window_start + window) now then 0 else c.count

abbrev pub global_used : RateLimiter → ℕ → ℕ
global_used l now = used l.window l.global_window now

abbrev pub key_used : RateLimiter → String → ℕ → ℕ
key_used l key now = used l.window (counter_of l key now) now

pub get_or-put :
    (k j : String) (c d : WindowCounter) (m : List (String × WindowCounter))
    → get_or j d (put k c m) ≡ (if k =ₛ j then c else get_or j d m)
unfolding get_or put
get_or-put k j c d [] = refl
get_or-put k j c d ((i, e) ∷ m) =
    ground (arith, eq_iff k j, eq_iff i k, eq_iff i j, get_or-put k j c d m)

-- A request is let through exactly when the global window and the window of its key both have
-- room at that time.
pub check-allowed :
    (l : RateLimiter) (key : String) (now : ℕ)
    → (check l key now).1.allowed
      ≡ (ltb (global_used l now) l.global_limit && ltb (key_used l key now) l.per_key_limit)
unfolding check check_window
check-allowed l key now = ground arith

window_charge :
    (window : ℕ) (c : WindowCounter) (limit now : ℕ)
    → 1 ≤ window
    → used window (check_window window c limit now).0 now
      ≡ used window c now + (if (check_window window c limit now).1.allowed then 1 else 0)
unfolding check_window
window_charge window c limit now h = ground arith

-- An allowed request costs the global window and its own key one each. It costs any other key
-- nothing, and a refused request costs nobody anything. The window must have a length.
pub check_charges :
    (l : RateLimiter) (key j : String) (now : ℕ)
    → 1 ≤ l.window
    → let allowed = (check l key now).1.allowed in
      (global_used (check l key now).0 now ≡ global_used l now + (if allowed then 1 else 0))
      × (key_used (check l key now).0 j now
          ≡ key_used l j now + (if allowed && key =ₛ j then 1 else 0))
unfolding check check_key
check_charges l key j now h =
    let start : WindowCounter = record { window_start = now; count = 0 } in
    let global = check_window l.window l.global_window l.global_limit now in
    let own = check_window l.window (counter_of l key now) l.per_key_limit now in
    ground (
      arith,
      window_charge l.window l.global_window l.global_limit now h,
      window_charge l.window (counter_of l key now) l.per_key_limit now h,
      get_or-put key j own.0 start l.per_key_windows,
      eq_iff key j,
    )
