-- ===== src/Http/RateLimiter.antt =====
-- `FixedWindowRateLimiter` of apps/api/src/http-hardening.ts. The map of the windows is the list of
-- its entries in the order of insertion, as a JavaScript Map iterates. Keys are only compared, and stand as
-- numbers, of which 0 is the empty text.
pub mod Entries
pub mod Laws
use ebay_pricing_intelligenc.Prelude.{
  ℕ, ◌+◌, ◌-◌, ◌/◌, Bool, ◌||◌, List, [], ◌∷◌, Option, none, some, Result, ok, fail, ◌==◌, ltb, leb,
  length, select, if◌then◌else◌,
}

pub record RateWindow : Type 0 where
  pub count : ℕ
  pub reset_at : ℕ

pub record RateLimitResult : Type 0 where
  pub allowed : Bool
  pub limit : ℕ
  pub remaining : ℕ
  pub reset_at : ℕ
  pub retry_after_seconds : ℕ

pub record Limiter : Type 0 where
  pub limit : ℕ
  pub window_ms : ℕ
  pub max_keys : ℕ
  pub windows : List (ℕ × RateWindow)

-- `constructor`; a number is an integer by its type.
unfoldable pub new_limiter : ℕ → ℕ → ℕ → Result Limiter
new_limiter limit window_ms max_keys =
    if ltb limit 1
    then fail 500 "Rate limit must be a positive integer"
    else if ltb window_ms 1000
    then fail 500 "Rate-limit window must be at least one second"
    else ok (record { limit = limit; window_ms = window_ms; max_keys = max_keys; windows = [] })

-- `Map.prototype.get`
unfoldable pub get : ℕ → List (ℕ × RateWindow) → Option RateWindow
get key [] = none
get key ((k, w) ∷ rest) = if k == key then some w else get key rest

-- `Map.prototype.set`, which leaves a key that is there at its place
unfoldable pub set : ℕ → RateWindow → List (ℕ × RateWindow) → List (ℕ × RateWindow)
set key w [] = (key, w) ∷ []
set key w ((k, v) ∷ rest) =
    let rest' = set key w rest in if k == key then (k, w) ∷ rest else (k, v) ∷ rest'

-- The loop of `prune` that deletes the oldest entries; it breaks off at an empty key.
unfoldable pub drop_oldest : ℕ → List (ℕ × RateWindow) → List (ℕ × RateWindow)
drop_oldest max_keys [] = []
drop_oldest max_keys (entry ∷ rest) =
    let rest' = drop_oldest max_keys rest in
    if ltb max_keys (length (entry ∷ rest))
    then (if entry.0 == 0 then entry ∷ rest else rest')
    else entry ∷ rest

unfoldable pub prune : ℕ → ℕ → List (ℕ × RateWindow) → List (ℕ × RateWindow)
unfolding drop_oldest
prune max_keys now windows =
    drop_oldest max_keys (select (λ entry. ltb now entry.1.reset_at) windows)

-- The window that a request counts in: the one of its key, or a new one.
abbrev pub window_for : ℕ → ℕ → Option RateWindow → RateWindow
window_for window_ms now none = record { count = 0; reset_at = now + window_ms }
window_for window_ms now (some w) =
    if leb w.reset_at now then record { count = 0; reset_at = now + window_ms } else w

-- Math.max(1, Math.ceil(ms / 1_000))
abbrev pub seconds_for : ℕ → ℕ
seconds_for ms = let s = (ms + 999) / 1000 in if ltb s 1 then 1 else s

unfoldable pub consume : ℕ → ℕ → Limiter → RateLimitResult × Limiter
unfolding get set prune
consume key now l =
    let window = window_for l.window_ms now (get key l.windows) in
    let counted : RateWindow = record window { count = window.count + 1 } in
    let windows = set key counted l.windows in
    (
      record {
        allowed = leb counted.count l.limit;
        limit = l.limit;
        remaining = l.limit - counted.count;
        reset_at = counted.reset_at;
        retry_after_seconds = seconds_for (counted.reset_at - now);
      },
      record l {
        windows = if ltb l.max_keys (length windows) then prune l.max_keys now windows else windows;
      },
    )

-- Requests in the order of their arrival: the key of each, and its time.
unfoldable pub consume_all : List (ℕ × ℕ) → Limiter → List (ℕ × RateLimitResult) × Limiter
consume_all [] l = ([], l)
consume_all (request ∷ requests) l = (
  (request.0, (consume request.0 request.1 l).0)
      ∷ (consume_all requests (consume request.0 request.1 l).1).0,
  (consume_all requests (consume request.0 request.1 l).1).1,
)
