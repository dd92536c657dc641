-- ===== src/Access/Accounts/Lockout.antt =====
-- What wrong passwords do to an account.
use ebay_pricing_intelligenc.Prelude.{
  ℕ, ◌≡◌, ◌≤◌, ◌<◌, ◌+◌, ◌*◌, ◌∙◌, refl, sym, ap, subst, Bool, true, false, Option, some, Result,
  ok, fail, ◌==◌, ==_iff, leb, ltb, arith, find, find-revise, any_found, if◌then◌else◌,
}
use ebay_pricing_intelligenc.Database.{Prisma, IsDocumented}
use ebay_pricing_intelligenc.Database.Memory.{memory, of_memory, update_any}
use ebay_pricing_intelligenc.Market.Matching.{Text}
use ebay_pricing_intelligenc.Access.Tokens.{Crypto, JwtConfiguration}
use ebay_pricing_intelligenc.Access.Accounts.{
  User, AccountStore, Credentials, is_user_id, update_user, awaited,
}
use ebay_pricing_intelligenc.Access.Accounts.Kept.{revise_user}
use ebay_pricing_intelligenc.Access.Accounts.Login.{
  LoginInput, Draw, by_login, failures_of, refused, LoginResult, password_of, failed_once,
  locked_at, locked_after, count_failure, login_account,
}

==-refl : (n : ℕ) → (n == n) ≡ true
==-refl n = (==_iff n n).1 refl

-- A user whom the primary key finds is updated.
pub update_user_lem :
    (u : User) (f : User → User) (s : AccountStore)
    → find (is_user_id u.id) s.users ≡ some u
    → update_user memory u.id f s ≡ ok (revise_user u.id f s)
update_user_lem u f s e =
    rw
      (update_any (is_user_id u.id) f s.users
        (any_found (is_user_id u.id) (is_user_id u.id) s.users u e (==-refl u.id)))
      refl

-- What finds a user finds the changed user after an update by the primary key.
pub find-revise_user :
    (p : User → Bool) (u : User) (f : User → User) (s : AccountStore)
    → ((v : User) → p (f v) ≡ p v)
    → find p s.users ≡ some u
    → find p (revise_user u.id f s).users ≡ some (f u)
find-revise_user p u f s same e =
    find-revise p (is_user_id u.id) f s.users u same e
    ∙ ap (λ b. some (if b then f u else u)) (==-refl u.id)

abbrev locked_store : User → ℕ → AccountStore → AccountStore
locked_store u now s = revise_user u.id (locked_at now) (revise_user u.id failed_once s)

-- The update that locks the user, when the update before it has counted five failures.
lock_counted :
    (secrets : Credentials) {A : Type 0} (v : User) (now : ℕ) (s : AccountStore)
    → find (is_user_id v.id) s.users ≡ some v
    → leb 5 v.failed_login_attempts ≡ true
    → (if leb 5 (failures_of memory secrets v.id s)
        then awaited {A = A} (update_user memory v.id (locked_at now) s) s (refused memory secrets)
        else refused memory secrets s)
      ≡ (fail 401 "Invalid email, password, or organization", revise_user v.id (locked_at now) s)
lock_counted secrets v now s e enough =
    let failures : failures_of memory secrets v.id s ≡ v.failed_login_attempts =
      rw (e, failures_of) refl in
    rw failures (rw enough (rw (update_user_lem v (locked_at now) s e) refl))

count_failure_lem :
    (secrets : Credentials) {A : Type 0} (u : User) (now : ℕ) (s : AccountStore)
    → find (is_user_id u.id) s.users ≡ some u
    → 4 ≤ u.failed_login_attempts
    → count_failure memory secrets {A = A} u now s
      ≡ (fail 401 "Invalid email, password, or organization", locked_store u now s)
unfolding count_failure
count_failure_lem secrets u now s e four = rw (update_user_lem u failed_once s e) (
    lock_counted secrets (failed_once u) now (revise_user u.id failed_once s)
      (find-revise_user (is_user_id u.id) u failed_once s (λ v. refl) e) (ground arith))

module _ (secrets : Credentials) {Token : Type 0} (crypto : Crypto Token)
    (config : JwtConfiguration) where
  wrong_password :
      (input : LoginInput) (draw : Draw) (u : User) (s : AccountStore)
      → find (by_login secrets input.email) s.users ≡ some u
      → find (is_user_id u.id) s.users ≡ some u
      → secrets.verify_password input.password (password_of secrets u.password_hash) ≡ false
      → 4 ≤ u.failed_login_attempts
      → login_account memory secrets crypto config input draw s
        ≡ (fail 401 "Invalid email, password, or organization", locked_store u draw.now s)
  unfolding login_account
  wrong_password input draw u s found key wrong four =
      rw found (rw wrong (count_failure_lem secrets u draw.now s key four))

  right_password :
      (input : LoginInput) (draw : Draw) (v : User) (s : AccountStore)
      → find (by_login secrets input.email) s.users ≡ some v
      → secrets.verify_password input.password (password_of secrets v.password_hash) ≡ true
      → locked_after v.locked_until draw.now ≡ true
      → login_account memory secrets crypto config input draw s
        ≡ (fail 429 "Account is temporarily locked. Try again later.", s)
  unfolding login_account
  right_password input draw v s found right locked = rw found (rw right (rw locked refl))

  -- The user of the email has failed to sign in at least four times, and a fifth password is wrong:
  -- the request fails with 401. From then on and until fifteen minutes have passed, a request with
  -- the same email and the right password fails with 429 and changes nothing, whatever organization
  -- it names. The user's identifier finds the user.
  pub login_account-IsLocked :
      (db : Prisma)
      → IsDocumented db
      → (input : LoginInput) (right : Text) (slug : Option Text) (draw later : Draw) (u : User)
        (s s' : AccountStore) (r : Result (LoginResult Token))
      → find (by_login secrets input.email) s.users ≡ some u
      → find (is_user_id u.id) s.users ≡ some u
      → secrets.verify_password input.password (password_of secrets u.password_hash) ≡ false
      → secrets.verify_password right (password_of secrets u.password_hash) ≡ true
      → 4 ≤ u.failed_login_attempts
      → later.now < draw.now + 15 * 60_000
      → login_account db secrets crypto config input draw s ≡ (r, s')
      → (r ≡ fail 401 "Invalid email, password, or organization")
        × (login_account db secrets crypto config
              (record { email = input.email; password = right; organization_slug = slug })
              later
              s'
            ≡ (fail 429 "Account is temporarily locked. Try again later.", s'))
  login_account-IsLocked =
      of_memory _ (λ input right slug draw later u s s' r found key wrong good four soon e.
        let done = wrong_password input draw u s found key wrong four in
        let one =
          find-revise_user (by_login secrets input.email) u failed_once s (λ v. refl) found in
        let two =
          find-revise_user (by_login secrets input.email) (failed_once u) (locked_at draw.now)
            (revise_user u.id failed_once s) (λ v. refl) one in
        let late : ltb later.now (draw.now + 15 * 60_000) ≡ true = ground arith in
        let after : s' ≡ locked_store u draw.now s = sym (ap (λ p. p.1) e) ∙ ap (λ p. p.1) done in
        (
          sym (ap (λ p. p.0) e) ∙ ap (λ p. p.0) done,
          subst
              (λ t.
                login_account memory secrets crypto config
                  (record { email = input.email; password = right; organization_slug = slug }) later
                  t
                ≡ (fail 429 "Account is temporarily locked. Try again later.", t))
              (sym after)
              (right_password
                (record { email = input.email; password = right; organization_slug = slug }) later
                (locked_at draw.now (failed_once u)) (locked_store u draw.now s) two good late),
        ))
