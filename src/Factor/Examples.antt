-- ===== src/Factor/Examples.antt =====
-- The second factor of one account, with an authenticator whose password is always 123456.
use agro.Base.{
  true, false, ℕ, ◌≡◌, ◌≢◌, refl, ◌<◌, ◌/◌, [], ◌∷◌, Option, none, some, Text, same, codes, select,
  delete, update, count, any, trim, to_lowercase, is_whitespace, trim_start, trim_end,
  to_ascii_lowercase, if◌then◌else◌,
}
use agro.Factor.{
  Token, User, RecoveryCode, Accounts, accepted_recovery_code, replayed, totp_secret_column,
  totp_is_confirmed, all_digits, normalised, hash_recovery_code, spend_recovery_code, verify,
  verify_totp, revoke_all_tokens, replace_codes, disable_totp, begin_totp_enrolment,
  recovery_codes_remaining,
}
use agro.Factor.Replay.{Attempt, attempt, run, verify_totp_no_replay}
use agro.Factor.Recovery.{recovery_code_once}
use agro.Factor.Confirmation.{confirm_totp_enrolment}
use agro.Factor.Enrolment.{IsConfirmed, confirm_totp_enrolment-IsConfirmed}

program : Unit {0}
unfolding same select delete update count any trim to_lowercase is_whitespace trim_start trim_end
    to_ascii_lowercase totp_secret_column totp_is_confirmed all_digits normalised hash_recovery_code
    spend_recovery_code verify verify_totp confirm_totp_enrolment revoke_all_tokens replace_codes
    disable_totp begin_totp_enrolment recovery_codes_remaining run
program = tt

abbrev digest : Text → Text
digest s = s

abbrev check : Text → Text → ℕ → Option ℕ
check secret code now = if same code (codes "123456") then some (now / 30) else none

abbrev unseal : Text → Option Text
unseal s = some s

abbrev ana : User
ana = record {
  id = codes "u1";
  username = codes "ana";
  totp_secret_enc = some (codes "s");
  totp_confirmed_at = some (codes "2026");
  totp_last_step = none;
  passphrase_hash = codes "h1";
  is_admin = false;
  is_active = true;
}

abbrev token : Text → Token
token hash = record {
  user_id = codes "u1";
  token_hash = hash;
  token_prefix = [];
  label = codes "phone";
  created_at = 0;
  expires_at = none;
  last_used_at = none;
}

abbrev written_down : RecoveryCode
written_down = record {
  user_id = codes "u1";
  code_hash = codes "ab12cd34";
  created_at = codes "2026";
  used_at = none;
}

abbrev accounts : Accounts
accounts = record {
  users = ana ∷ [];
  totp_recovery_codes = written_down ∷ [];
  app_passwords = token (codes "t1") ∷ token (codes "t2") ∷ [];
}

abbrev at : Text → ℕ → Attempt
at code now = record { username = codes "ana"; code = code; now = now; stamp = codes "2027" }

abbrev password : Text
password = codes " 123456"

seen_again :
    (attempt digest check unseal
      (run digest check unseal accounts (at password 60 ∷ []))
      (at password 61)).1
    ≡ replayed
unfolding program
seen_again = refl

verify_totp_no_replay_example : 2 < 3
unfolding program
verify_totp_no_replay_example =
    verify_totp_no_replay digest check unseal accounts (at password 60)
      (at (codes "000000") 70 ∷ []) (at password 90) 2 3 refl refl refl refl refl

recovery_code_once_example :
    (attempt digest check unseal
      (run digest check unseal
        (attempt digest check unseal accounts (at (codes "ab12-cd34") 60)).0
        (at password 70 ∷ []))
      (at (codes "AB12CD34") 80)).1
    ≢ accepted_recovery_code
unfolding program
recovery_code_once_example =
    recovery_code_once digest check unseal accounts (at (codes "ab12-cd34") 60)
      (at password 70 ∷ []) (at (codes "AB12CD34") 80) refl refl refl

abbrev pending_accounts : Accounts
pending_accounts = record accounts { users = record ana { totp_confirmed_at = none } ∷ [] }

abbrev confirmed_accounts : Accounts
confirmed_accounts = record {
  users = record ana { totp_confirmed_at = some (codes "2027"); totp_last_step = some 2 } ∷ [];
  totp_recovery_codes =
      record written_down { code_hash = codes "ff00"; created_at = codes "2027" } ∷ [];
  app_passwords = token (codes "t2") ∷ [];
}

confirm_totp_enrolment-IsConfirmed_example :
    IsConfirmed digest check unseal pending_accounts
      (codes "ana")
      password
      (some (codes "t2"))
      60
      (codes "2027")
      (codes "ff-00" ∷ [])
      confirmed_accounts
unfolding program
confirm_totp_enrolment-IsConfirmed_example =
    confirm_totp_enrolment-IsConfirmed digest check unseal pending_accounts (codes "ana") password
      (some (codes "t2")) 60 (codes "2027") (codes "ff-00" ∷ []) confirmed_accounts refl refl

abbrev off : Accounts
off = (disable_totp accounts (codes "ana")).0
