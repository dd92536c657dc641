-- ===== src/Http/RateLimiter/Laws.antt =====
-- How many requests of a client the limiter admits, and how many clients it remembers.
use ebay_pricing_intelligenc.Prelude.{
  ==_iff, suc, subst, ◌∙◌, ap, Bool, ℕ, ◌+◌, ◌-◌, ◌≡◌, ◌≤◌, ◌<◌, min, refl, List, [], ◌∷◌, some,
  ◌==◌, ◌&&◌, false, arith, length, count, All, ltb, leb, Bool-cases, inl, inr,
}
use ebay_pricing_intelligenc.Http.RateLimiter.{
  RateWindow, RateLimitResult, Limiter, window_for, get, set, prune, consume, consume_all,
}
use ebay_pricing_intelligenc.Http.RateLimiter.Entries.{
  get-set_same, get-set_other, length-set_le, length-drop_oldest_le, IsNamed, set-IsNamed,
  select-IsNamed, drop_oldest-IsNamed,
}

-- The window of the request, which counts it.
abbrev counted_for : ℕ → ℕ → Limiter → RateWindow
counted_for key now l =
    let window = window_for l.window_ms now (get key l.windows) in
    record window { count = window.count + 1 }

-- Where no key is the empty text, neither that of the request nor one of the windows, the limiter
-- remembers at most `max_keys` clients after a request, however many windows it had, and has no
-- window with an empty key.
pub consume-length_le :
    (key now : ℕ) (l : Limiter)
    → (key == 0) ≡ false
    → All IsNamed l.windows
    → (length (consume key now l).1.windows ≤ l.max_keys)
      × All IsNamed (consume key now l).1.windows
unfolding consume prune
consume-length_le key now l named h =
    let windows = set key (counted_for key now l) l.windows in
    let kept = set-IsNamed key (counted_for key now l) l.windows named h in
    let later = select-IsNamed (λ entry. ltb now entry.1.reset_at) windows kept in
    elim (Bool-cases (ltb l.max_keys (length windows))) [
      | inl full ↦
          rw full (length-drop_oldest_le l.max_keys _ later, drop_oldest-IsNamed l.max_keys _ later)
      | inr fits ↦ rw fits (ground (arith, fits), kept)
    ]

-- A request that finds room only counts in its window.
consume_fits :
    (key now : ℕ) (l : Limiter)
    → length l.windows + 1 ≤ l.max_keys
    → (consume key now l).1 ≡ record l { windows = set key (counted_for key now l) l.windows }
unfolding consume
consume_fits key now l h =
    let fits : ltb l.max_keys (length (set key (counted_for key now l) l.windows)) ≡ false =
      ground (arith, h, length-set_le key (counted_for key now l) l.windows) in
    rw fits refl

counted_for_open :
    (key now : ℕ) (l : Limiter) (w : RateWindow)
    → get key l.windows ≡ some w
    → now < w.reset_at
    → counted_for key now l ≡ record w { count = w.count + 1 }
counted_for_open key now l w e h =
    rw e (let later : leb w.reset_at now ≡ false = ground arith in rw later refl)

allowed_open :
    (key now : ℕ) (l : Limiter) (w : RateWindow)
    → get key l.windows ≡ some w
    → now < w.reset_at
    → (consume key now l).0.allowed ≡ leb (w.count + 1) l.limit
unfolding consume
allowed_open key now l w e h = ap (λ v. leb v.count l.limit) (counted_for_open key now l w e h)

get-consume_own :
    (key now : ℕ) (l : Limiter) (w : RateWindow)
    → get key l.windows ≡ some w
    → now < w.reset_at
    → length l.windows + 1 ≤ l.max_keys
    → get key (consume key now l).1.windows ≡ some (record w { count = w.count + 1 })
get-consume_own key now l w e h room =
    ap (λ m. get key m.windows) (consume_fits key now l room)
    ∙ get-set_same key (counted_for key now l) l.windows
    ∙ ap (λ v. some v) (counted_for_open key now l w e h)

get-consume_other :
    (key other now : ℕ) (l : Limiter)
    → (other == key) ≡ false
    → length l.windows + 1 ≤ l.max_keys
    → get key (consume other now l).1.windows ≡ get key l.windows
get-consume_other key other now l h room =
    ap (λ m. get key m.windows) (consume_fits other now l room)
    ∙ get-set_other key other (counted_for other now l) l.windows h

length-consume_le :
    (key now : ℕ) (l : Limiter) (requests : List (ℕ × ℕ))
    → length l.windows + suc (length requests) ≤ l.max_keys
    → length (consume key now l).1.windows + length requests ≤ (consume key now l).1.max_keys
length-consume_le key now l requests room =
    rw (consume_fits key now l (omega arith))
      (omega (arith, length-set_le key (counted_for key now l) l.windows))

abbrev pub is_by : ℕ → ℕ × ℕ → Bool
is_by key request = request.0 == key

abbrev pub admits : ℕ → ℕ × RateLimitResult → Bool
admits key answer = answer.0 == key && answer.1.allowed

-- While the window of a client is open and the limiter has room for every request, it admits
-- exactly the client's first requests up to the limit, less those that the window has counted
-- already. The requests of other clients, in whatever order they come, change nothing of that.
pub consume_all-admits :
    (key : ℕ) (requests : List (ℕ × ℕ)) (l : Limiter) (w : RateWindow)
    → get key l.windows ≡ some w
    → All (λ request. request.1 < w.reset_at) requests
    → length l.windows + length requests ≤ l.max_keys
    → count (admits key) (consume_all requests l).0
      ≡ min (count (is_by key) requests) (l.limit - w.count)
unfolding consume_all
consume_all-admits key [] l w e in_time room = omega arith
consume_all-admits key (request ∷ requests) l w e in_time room =
    let l' = (consume request.0 request.1 l).1 in
    let limit_eq : l'.limit ≡ l.limit =
      ap (λ m. m.limit) (consume_fits request.0 request.1 l (omega arith)) in
    elim (Bool-cases (request.0 == key)) [
      | inl own ↦
          let same : request.0 ≡ key = ((==_iff request.0 key).0 own) in
          let e' : get request.0 l.windows ≡ some w = rw same e in
          let w' : RateWindow = record w { count = w.count + 1 } in
          let rest =
            consume_all-admits key requests l' w'
              (subst (λ k. get k l'.windows ≡ some w') same
                (get-consume_own request.0 request.1 l w e' in_time.0 (omega arith)))
              in_time.1 (length-consume_le request.0 request.1 l requests room) in
          rw (own, allowed_open request.0 request.1 l w e' in_time.0)
            (ground (arith, rest, limit_eq))
      | inr other ↦
          let rest =
            consume_all-admits key requests l' w
              (get-consume_other key request.0 request.1 l other (omega arith) ∙ e) in_time.1
              (length-consume_le request.0 request.1 l requests room) in
          rw other (ground (arith, rest, limit_eq))
    ]
