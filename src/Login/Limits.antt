-- ===== src/Login/Limits.antt =====
-- How long the limiter makes an answer wait.
use agro.Base.{
  ℕ, ◌≡◌, refl, ◌≤◌, ◌*◌, ◌^◌, ◌-◌, Bool, true, false, List, [], ◌∷◌, Option, none, some, Text,
  select, delete, leb, if◌then◌else◌, head?, arith,
}
use agro.Login.{
  RateLimiter, Failures, min, delay, max_backoff, failure_memory, free_failures, is_for_account,
  backoff_of, backoff_for, note_success,
}

min_right : (a b : ℕ) → min a b ≤ b
min_right a b = ground arith

if_le : (c : Bool) (a b n : ℕ) → a ≤ n → b ≤ n → (if c then a else b) ≤ n
if_le true a b n h k = h
if_le false a b n h k = k

backoff_of_bounded : (now : ℕ) (o : Option Failures) → backoff_of now o ≤ max_backoff
backoff_of_bounded now none = omega arith
backoff_of_bounded now (some f) =
    if_le (leb failure_memory (now - f.seen)) 0
      (if leb f.failed free_failures then 0 else delay f.failed) max_backoff (omega arith)
      (if_le (leb f.failed free_failures) 0 (delay f.failed) max_backoff (omega arith)
        (min_right (250 * 2 ^ (min (f.failed - free_failures) 8 - 1)) max_backoff))

select-delete_self : {R : Type 0} (p : R → Bool) (rs : List R) → select p (delete p rs) ≡ []
unfolding select delete
select-delete_self p [] = refl
select-delete_self p (r ∷ rs) = ground (arith, select-delete_self p rs)

-- The backoff of an account is four seconds at most, however many attempts have failed, and none
-- after a sign-in of the account.
pub backoff_for_bounded :
    (l : RateLimiter) (account : Text) (now : ℕ)
    → (backoff_for l account now ≤ max_backoff)
      × (backoff_for (note_success l account) account now ≡ 0)
unfolding backoff_for note_success
backoff_for_bounded l account now = (
  backoff_of_bounded now (head? (select (is_for_account account) l.failures)),
  rw (select-delete_self (is_for_account account) l.failures) refl,
)
