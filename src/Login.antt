-- ===== src/Login.antt =====
-- Signing in: the limiter of src/login/limiter.rs. The map of failures is a list of entries of
-- distinct keys; an instant is a number of milliseconds.

mod Tokens
mod SignIn
mod Expiry
mod Issued
mod Kept
mod Stored
mod Proved
mod Limits
mod Examples
use agro.Base.{
  ℕ, suc, ◌+◌, ◌-◌, ◌*◌, ◌^◌, Bool, true, false, List, [], ◌∷◌, ◌++◌, Option, none, some, Text,
  codes, same, select, delete, ltb, leb, if◌then◌else◌, head?, length, to_lowercase,
}
use agro.RateLimit.{Window, charge}

abbrev pub max_attempts : ℕ
max_attempts = 10

abbrev pub window : ℕ
window = 300_000

abbrev pub max_second_factor_attempts : ℕ
max_second_factor_attempts = 30

abbrev pub free_failures : ℕ
free_failures = 5

abbrev pub max_backoff : ℕ
max_backoff = 4_000

abbrev pub failure_memory : ℕ
failure_memory = 900_000

pub record Failures : Type 0 where
  pub account : Text
  pub seen : ℕ
  pub failed : ℕ

pub record RateLimiter : Type 0 where
  pub hits : List Window
  pub second_factor_hits : List Window
  pub failures : List Failures

abbrev pub is_for_account : Text → Failures → Bool
is_for_account account f = same f.account (to_lowercase account)

abbrev pub min : ℕ → ℕ → ℕ
min a b = if ltb a b then a else b

-- Doubling from a quarter of a second, up to the cap.
abbrev pub delay : ℕ → ℕ
delay failed = min (250 * 2 ^ (min (failed - free_failures) 8 - 1)) max_backoff

abbrev pub backoff_of : ℕ → Option Failures → ℕ
backoff_of now none = 0
backoff_of now (some f) =
    if leb failure_memory (now - f.seen)
    then 0
    else if leb f.failed free_failures
    then 0
    else delay f.failed

unfoldable pub backoff_for : RateLimiter → Text → ℕ → ℕ
unfolding select same to_lowercase
backoff_for l account now = backoff_of now (head? (select (is_for_account account) l.failures))

abbrev max_u32 : ℕ
max_u32 = 2 ^ 32 - 1

abbrev saturating_suc : ℕ → ℕ
saturating_suc n = if ltb n max_u32 then n + 1 else n

-- The account's entry, inserted when it is missing and started over when it is forgotten.
abbrev pub entry_of : Text → ℕ → Option Failures → Failures
entry_of account now none = record { account = to_lowercase account; seen = now; failed = 0 }
entry_of account now (some f) =
    if leb failure_memory (now - f.seen) then record f { seen = now; failed = 0 } else f

abbrev forget_old : ℕ → List Failures → List Failures
forget_old now failures =
    if ltb 4096 (length failures)
    then select (λ f. ltb (now - f.seen) failure_memory) failures
    else failures

unfoldable pub note_failure : RateLimiter → Text → ℕ → RateLimiter
unfolding select delete same to_lowercase
note_failure l account now =
    let kept = forget_old now l.failures in
    let entry = entry_of account now (head? (select (is_for_account account) kept)) in
    record l {
      failures =
          delete (is_for_account account) kept
          ++ record entry { seen = now; failed = saturating_suc entry.failed } ∷ [];
    }

unfoldable pub note_success : RateLimiter → Text → RateLimiter
unfolding delete same to_lowercase
note_success l account = record l { failures = delete (is_for_account account) l.failures }

-- The instants of the windows are the limiter's own.
unfoldable pub allow : RateLimiter → Text → ℕ → RateLimiter × Bool
unfolding charge
allow l key now =
    let charged = charge l.hits key 1 max_attempts window now in
    (record l { hits = charged.0 }, charged.1)

unfoldable pub allow_second_factor : RateLimiter → Text → Text → ℕ → RateLimiter × Bool
unfolding charge to_lowercase
allow_second_factor l client_ip account now =
    let key = client_ip ++ (codes "|" ++ to_lowercase account) in
    let charged = charge l.second_factor_hits key 1 max_second_factor_attempts window now in
    (record l { second_factor_hits = charged.0 }, charged.1)
