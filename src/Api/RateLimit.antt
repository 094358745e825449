-- ===== src/Api/RateLimit.antt =====
-- api/rate_limit.py: the fixed-window limiter. Times are whole ticks of the monotonic clock; the
-- tests on `now - window_start` are written with the subtraction moved to the other side.
pub mod Charges
pub mod Bursts
pub mod KeyBursts
use dealership_agent.Base.{
  ℕ, ◌+◌, ◌-◌, String, Bool, true, false, Option, none, some, List, [], ◌∷◌, leb, ◌=ₛ◌,
  if◌then◌else◌,
}

pub record WindowCounter : Type 0 where
  pub window_start : ℕ
  pub count : ℕ

pub record RateLimitResult : Type 0 where
  pub allowed : Bool
  pub retry_after : ℕ

pub record RateLimiter : Type 0 where
  pub per_key_limit : ℕ
  pub global_limit : ℕ
  pub window : ℕ
  pub per_key_windows : List (String × WindowCounter)
  pub global_window : WindowCounter

-- RateLimiter.__init__, at the time `now`
unfoldable pub new_limiter : ℕ → ℕ → ℕ → ℕ → RateLimiter
new_limiter per_key global window now = record {
  per_key_limit = per_key;
  global_limit = global;
  window = window;
  per_key_windows = [];
  global_window = record { window_start = now; count = 0 };
}

-- The counter after the reset at the start of `_check_window`.
unfoldable pub rolled : ℕ → WindowCounter → ℕ → WindowCounter
rolled window c now =
    if leb (c.window_start + window) now then record { window_start = now; count = 0 } else c

-- The rest of `_check_window`: the test against the limit and the increment.
charge : ℕ → WindowCounter → ℕ → ℕ → WindowCounter × RateLimitResult
charge window c limit now =
    if leb limit c.count
    then (c, record { allowed = false; retry_after = window + c.window_start - now })
    else (record c { count = c.count + 1 }, record { allowed = true; retry_after = 0 })

unfoldable pub check_window : ℕ → WindowCounter → ℕ → ℕ → WindowCounter × RateLimitResult
unfolding rolled charge
check_window window c limit now = charge window (rolled window c now) limit now

-- dict.setdefault, without the write
unfoldable pub get_or : String → WindowCounter → List (String × WindowCounter) → WindowCounter
get_or k d [] = d
get_or k d ((j, c) ∷ m) = if j =ₛ k then c else get_or k d m

-- the write through the counter that `setdefault` returned
unfoldable pub put :
    String → WindowCounter → List (String × WindowCounter) → List (String × WindowCounter)
put k c [] = (k, c) ∷ []
put k c ((j, d) ∷ m) = if j =ₛ k then (k, c) ∷ m else (j, d) ∷ put k c m

-- The counter that `setdefault` gives for the key.
abbrev pub counter_of : RateLimiter → String → ℕ → WindowCounter
counter_of l key now = get_or key (record { window_start = now; count = 0 }) l.per_key_windows

-- The part of `check` that the global limit has let pass.
check_key : RateLimiter → String → ℕ → WindowCounter → RateLimiter × RateLimitResult
unfolding check_window
check_key l key now global =
    let (c, result) = check_window l.window (counter_of l key now) l.per_key_limit now in
    if result.allowed
    then (
      record l { global_window = global; per_key_windows = put key c l.per_key_windows },
      record { allowed = true; retry_after = 0 },
    )
    else (
      record l {
        global_window = record global { count = global.count - 1 };
        per_key_windows = put key c l.per_key_windows;
      },
      result,
    )

unfoldable pub check : RateLimiter → String → ℕ → RateLimiter × RateLimitResult
unfolding check_key
check l key now =
    let (global, result) = check_window l.window l.global_window l.global_limit now in
    if result.allowed
    then check_key l key now global
    else (record l { global_window = global }, result)

-- The process-wide singleton: built on first use, and then whatever was built.
unfoldable pub get_rate_limiter : Option RateLimiter → ℕ → ℕ → ℕ → RateLimiter
get_rate_limiter none per_key global now = new_limiter per_key global 60 now
get_rate_limiter (some l) per_key global now = l
