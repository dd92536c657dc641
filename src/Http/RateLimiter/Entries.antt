-- ===== src/Http/RateLimiter/Entries.antt =====
-- The map of the windows: what `set` and the deletion of the oldest entries do.
use ebay_pricing_intelligenc.Prelude.{
  ℕ, ◌+◌, ◌≡◌, ◌≤◌, List, [], ◌∷◌, some, ◌==◌, false, arith, length, All, Bool, Bool-cases, ltb,
  select, inl, inr,
}
use ebay_pricing_intelligenc.Http.RateLimiter.{RateWindow, get, set, drop_oldest}

pub get-set_same :
    (key : ℕ) (w : RateWindow) (ws : List (ℕ × RateWindow)) → get key (set key w ws) ≡ some w
unfolding get set
get-set_same key w [] = ground arith
get-set_same key w (v ∷ ws) = ground (arith, get-set_same key w ws)

pub get-set_other :
    (key other : ℕ) (w : RateWindow) (ws : List (ℕ × RateWindow))
    → (other == key) ≡ false
    → get key (set other w ws) ≡ get key ws
unfolding get set
get-set_other key other w [] h = ground arith
get-set_other key other w (v ∷ ws) h = ground (arith, get-set_other key other w ws h)

pub length-set_le :
    (key : ℕ) (w : RateWindow) (ws : List (ℕ × RateWindow)) → length (set key w ws) ≤ length ws + 1
unfolding set
length-set_le key w [] = omega arith
length-set_le key w (v ∷ ws) = ground (arith, length-set_le key w ws)

-- The key of the entry is not the empty text.
abbrev pub IsNamed : ℕ × RateWindow → Type 0
IsNamed entry = (entry.0 == 0) ≡ false

pub set-IsNamed :
    (key : ℕ) (w : RateWindow) (ws : List (ℕ × RateWindow))
    → (key == 0) ≡ false
    → All IsNamed ws
    → All IsNamed (set key w ws)
unfolding set
set-IsNamed key w [] named h = (named, tt)
set-IsNamed key w ((k, v) ∷ ws) named h = elim (Bool-cases (k == key)) [
  | inl same ↦ rw same h
  | inr other ↦ rw other (h.0, set-IsNamed key w ws named h.1)
]

pub length-drop_oldest_le :
    (max_keys : ℕ) (ws : List (ℕ × RateWindow))
    → All IsNamed ws
    → length (drop_oldest max_keys ws) ≤ max_keys
unfolding drop_oldest
length-drop_oldest_le max_keys [] h = omega arith
length-drop_oldest_le max_keys (v ∷ ws) h =
    ground (arith, h.0, length-drop_oldest_le max_keys ws h.1)

pub select-IsNamed :
    (p : ℕ × RateWindow → Bool) (ws : List (ℕ × RateWindow))
    → All IsNamed ws
    → All IsNamed (select p ws)
select-IsNamed p [] h = tt
select-IsNamed p (v ∷ ws) h = elim (Bool-cases (p v)) [
  | inl pass ↦ rw pass (h.0, select-IsNamed p ws h.1)
  | inr miss ↦ rw miss (select-IsNamed p ws h.1)
]

pub drop_oldest-IsNamed :
    (max_keys : ℕ) (ws : List (ℕ × RateWindow))
    → All IsNamed ws
    → All IsNamed (drop_oldest max_keys ws)
unfolding drop_oldest
drop_oldest-IsNamed max_keys [] h = tt
drop_oldest-IsNamed max_keys (v ∷ ws) h = elim (Bool-cases (ltb max_keys (length (v ∷ ws)))) [
  | inl full ↦ rw (full, h.0) (drop_oldest-IsNamed max_keys ws h.1)
  | inr fits ↦ rw fits h
]
