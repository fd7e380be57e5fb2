-- ===== src/Login/Examples.antt =====
-- Signing in on a server of one account, whose passphrase stands in its table as it is typed.
use agro.Base.{
  ℕ, ◌≡◌, refl, ◌≤◌, ◌*◌, ◌/◌, Bool, true, [], ◌∷◌, Option, none, some, Text, same, codes, select,
  delete, update, count, any, trim, to_lowercase, is_whitespace, trim_start, trim_end,
  to_ascii_lowercase, if◌then◌else◌, arith,
}
use mathlib.Core.Option as Option
use agro.RateLimit.{charge}
use agro.Factor.{
  User, Token, Accounts, totp_secret_column, totp_is_confirmed, all_digits, normalised,
  hash_recovery_code, spend_recovery_code, verify, verify_totp,
}
use agro.Login.{RateLimiter, backoff_for, note_failure, note_success, allow, allow_second_factor}
use agro.Login.Tokens.{
  Lifetimes, day, token_prefix, hash_token, token_has_expired, mint_device_token,
  touch_token_if_stale, accept_token, account_for_token, sweep_expired_tokens,
}
use agro.Login.SignIn.{LoginBody, State, verify_login, login, username_of}
use agro.Login.Expiry.{account_for_token-sweep_expired_tokens}
use agro.Login.Issued.{minted, mint_device_token-account_for_token}
use agro.Login.Limits.{backoff_for_bounded}
use agro.Login.Stored.{issued_secret}
use agro.Login.Proved.{login_issued, is_second_factor_met}

program : Unit {0}
unfolding same select delete update count any trim to_lowercase is_whitespace trim_start trim_end
    to_ascii_lowercase totp_secret_column totp_is_confirmed all_digits normalised hash_recovery_code
    spend_recovery_code verify verify_totp charge backoff_for note_failure note_success allow
    allow_second_factor token_prefix hash_token token_has_expired mint_device_token
    touch_token_if_stale accept_token account_for_token sweep_expired_tokens verify_login login
program = tt

abbrev digest : Text → Text
digest s = s

abbrev check : Text → Text → ℕ → Option ℕ
check secret code now = if same code (codes "123456") then some (now / 30) else none

abbrev unseal : Text → Option Text
unseal s = some s

abbrev stamp : ℕ → Text
stamp now = codes "2027"

abbrev verify_passphrase : Text → Text → Bool
verify_passphrase passphrase hash = same passphrase hash

abbrev month : Lifetimes
month = record { token_idle_days = 30; token_ttl_days = some 90 }

abbrev ana : User
ana = record {
  id = codes "u1";
  username = codes "ana";
  totp_secret_enc = some (codes "s");
  totp_confirmed_at = some (codes "2026");
  totp_last_step = none;
  passphrase_hash = codes "open sesame";
  is_admin = true;
  is_active = true;
}

abbrev phone : Token
phone = record {
  user_id = codes "u1";
  token_hash = codes "t1-of-phone";
  token_prefix = codes "t1-of-ph";
  label = codes "phone";
  created_at = 0;
  expires_at = some (90 * day);
  last_used_at = some day;
}

abbrev accounts : Accounts
accounts = record { users = ana ∷ []; totp_recovery_codes = []; app_passwords = phone ∷ [] }

one_row : (hash : Text) → count (λ t. same t.token_hash hash) accounts.app_passwords ≤ 1
unfolding count
one_row hash = ground arith

account_for_token-sweep_expired_tokens_example :
    (account_for_token digest month
      (sweep_expired_tokens month (40 * day) accounts)
      (codes "t1-of-phone")
      (40 * day)).1
    ≡ (account_for_token digest month accounts (codes "t1-of-phone") (40 * day)).1
account_for_token-sweep_expired_tokens_example =
    account_for_token-sweep_expired_tokens digest month accounts (codes "t1-of-phone") (40 * day)
      one_row

abbrev fresh : Text
fresh = codes "fresh-secret"

mint_device_token-account_for_token_example :
    Option.map
      (λ b. (account_for_token digest month b fresh (29 * day)).1)
      (mint_device_token digest month accounts (codes " Ana") (codes " tablet") fresh 0)
    ≡ some (some (ana, codes "tablet"))
unfolding program
mint_device_token-account_for_token_example =
    mint_device_token-account_for_token digest month accounts (codes " Ana") (codes " tablet") fresh
      0 (29 * day) ana refl refl refl refl refl refl refl refl

abbrev idle : State
idle = record {
  accounts = accounts;
  rate_limiter = record { hits = []; second_factor_hits = []; failures = [] };
  log = [];
}

abbrev body : LoginBody
body = record {
  username = codes " Ana";
  passphrase = codes "open sesame";
  label = none;
  totp_code = some (codes "123456");
}

login_issued_example :
    (let answered =
        login verify_passphrase digest check unseal stamp month true idle
          (codes "10.0.0.1")
          body
          fresh
          0 in
      ((allow idle.rate_limiter (codes "10.0.0.1") 0).1 ≡ true)
      × (verify_login verify_passphrase accounts (username_of body) body.passphrase ≡ some ana)
      × (ana.is_active ≡ true)
      × (is_second_factor_met verify_passphrase digest check unseal stamp month true idle body 0 ana
          ≡ true)
      × (issued_secret answered.1 ≡ some fresh)
      × (answered.0.accounts.app_passwords
          ≡ phone ∷ minted digest month ana (codes "device") fresh 0 ∷ []))
unfolding program
login_issued_example =
    login_issued verify_passphrase digest check unseal stamp month true idle (codes "10.0.0.1") body
      fresh 0 ana refl

abbrev attacked : RateLimiter
attacked = record {
  hits = [];
  second_factor_hits = [];
  failures = record { account = codes "ana"; seen = 0; failed = 9 } ∷ [];
}

backoff_for_bounded_example :
    (backoff_for attacked (codes "ana") 1000 ≤ 4000)
    × (backoff_for (note_success attacked (codes "ana")) (codes "ana") 1000 ≡ 0)
backoff_for_bounded_example = backoff_for_bounded attacked (codes "ana") 1000

attacked_waits : backoff_for attacked (codes "ana") 1000 ≡ 2000
unfolding program
attacked_waits = refl
