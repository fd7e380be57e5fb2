-- ===== src/Factor.antt =====
-- The second factor of an account: src/db_identity/totp.rs, `verify` of src/totp.rs and
-- `revoke_all_tokens` of src/db_identity/tokens.rs. The state is the record `Accounts` of the tables
-- users, totp_recovery_codes and app_passwords. What comes from outside is an argument: `check`
-- gives the step in which the authenticator library accepts a code for a secret, `unseal` opens a
-- stored secret, and `digest` is the hexadecimal SHA-256 of a text. `now` is the clock in seconds
-- and `stamp` the same instant as RFC 3339 text.
mod Base64
mod Sealing
mod Sealed
pub mod Confirmation
mod Replay
mod Removal
mod Recovery
mod Enrolment
mod Examples
use agro.Base.{
  ℕ, Bool, true, false, ◌&&◌, ◌||◌, not, List, [], ◌∷◌, ◌++◌, map, Option, none, some, Text, same,
  trim, eq_nocase, select, delete, update, count, ltb, leb, ◌==◌, if◌then◌else◌, head?, length,
  to_lowercase,
}

pub record User : Type 0 where
  pub id : Text
  pub username : Text
  pub totp_secret_enc : Option Text
  pub totp_confirmed_at : Option Text
  pub totp_last_step : Option ℕ
  pub passphrase_hash : Text
  pub is_admin : Bool
  pub is_active : Bool

pub record RecoveryCode : Type 0 where
  pub user_id : Text
  pub code_hash : Text
  pub created_at : Text
  pub used_at : Option Text

-- A row of app_passwords; its instants are milliseconds.
pub record Token : Type 0 where
  pub user_id : Text
  pub token_hash : Text
  pub token_prefix : Text
  pub label : Text
  pub created_at : ℕ
  pub expires_at : Option ℕ
  pub last_used_at : Option ℕ

pub record Accounts : Type 0 where
  pub users : List User
  pub totp_recovery_codes : List RecoveryCode
  pub app_passwords : List Token

pub data TotpOutcome : Type 0 where
  accepted accepted_recovery_code rejected replayed not_enrolled : TotpOutcome

abbrev pub is_satisfied : TotpOutcome → Bool
is_satisfied accepted = true
is_satisfied accepted_recovery_code = true
is_satisfied _ = false

-- What refuses an enrolment.
pub data EnrolmentError : Type 0 where
  already_enabled no_enrolment unopened wrong_code no_such_account : EnrolmentError

abbrev pub named : Text → User → Bool
named username u = eq_nocase u.username (trim username)

abbrev pub row_of : Accounts → Text → Option User
row_of a username = head? (select (named username) a.users)

abbrev pub is_blank : Text → Bool
is_blank [] = true
is_blank (c ∷ s) = false

abbrev pub filled : Option Text → Option Text
filled none = none
filled (some s) = if is_blank s then none else some s

abbrev pub secret_in : Option User → Option Text
secret_in none = none
secret_in (some u) = filled u.totp_secret_enc

unfoldable pub totp_secret_column : Accounts → Text → Option Text
totp_secret_column a username = secret_in (row_of a username)

abbrev pub is_filled : Option Text → Bool
is_filled none = false
is_filled (some s) = not (is_blank s)

abbrev pub confirmed_in : Option User → Bool
confirmed_in none = false
confirmed_in (some u) = is_filled u.totp_confirmed_at

unfoldable pub totp_is_confirmed : Accounts → Text → Bool
totp_is_confirmed a username = confirmed_in (row_of a username)

-- SELECT id FROM users WHERE username = ?
abbrev pub id_in : Option User → Option Text
id_in none = none
id_in (some u) = some u.id

abbrev pub belongs_to : Option Text → Text → Bool
belongs_to none user_id = false
belongs_to (some id) user_id = same user_id id

abbrev pub is_digit : ℕ → Bool
is_digit c = leb 48 c && leb c 57

unfoldable pub all_digits : Text → Bool
all_digits [] = true
all_digits (c ∷ s) = is_digit c && all_digits s

-- `char::is_ascii_alphanumeric`
abbrev pub is_ascii_alphanumeric : ℕ → Bool
is_ascii_alphanumeric c = is_digit c || (leb 65 c && leb c 90) || (leb 97 c && leb c 122)

-- What a recovery code is read as, before it is digested.
unfoldable pub normalised : Text → Text
normalised code = to_lowercase (select is_ascii_alphanumeric code)

abbrev pub is_unused : Option Text → Bool
is_unused none = true
is_unused (some _) = false

abbrev pub is_good : Option Text → Text → RecoveryCode → Bool
is_good user_id hash c =
    belongs_to user_id c.user_id && (same c.code_hash hash && is_unused c.used_at)

-- The steps that an account has not accepted yet.
abbrev pub is_new : ℕ → Option ℕ → Bool
is_new step none = true
is_new step (some last) = ltb last step

abbrev pub is_acceptable : Text → ℕ → User → Bool
is_acceptable username step u = named username u && is_new step u.totp_last_step

abbrev pub or_empty : Option Text → Text
or_empty none = []
or_empty (some s) = s

unfoldable pub revoke_all_tokens : Accounts → Text → Option Text → Accounts × ℕ
revoke_all_tokens a username except =
    let spare = or_empty except in
    let revoked = λ (t : Token).
      belongs_to (id_in (row_of a username)) t.user_id && not (same t.token_hash spare) in
    (record a { app_passwords = delete revoked a.app_passwords }, count revoked a.app_passwords)

unfoldable pub begin_totp_enrolment : Accounts → Text → Text → Option Accounts
begin_totp_enrolment a username sealed =
    let start = λ (u : User). record u {
      totp_secret_enc = some sealed;
      totp_confirmed_at = none;
      totp_last_step = none;
    } in
    if totp_is_confirmed a username
    then none
    else some (record a { users = update (named username) start a.users })

unfoldable pub disable_totp : Accounts → Text → Accounts × Bool
disable_totp a username =
    let forget = λ (u : User). record u {
      totp_secret_enc = none;
      totp_confirmed_at = none;
      totp_last_step = none;
    } in
    (
      record a {
        users = update (named username) forget a.users;
        totp_recovery_codes =
            delete (λ c. belongs_to (id_in (row_of a username)) c.user_id) a.totp_recovery_codes;
      },
      ltb 0 (count (named username) a.users),
    )

unfoldable pub recovery_codes_remaining : Accounts → Text → ℕ
recovery_codes_remaining a username =
    count (λ c. belongs_to (id_in (row_of a username)) c.user_id && is_unused c.used_at)
      a.totp_recovery_codes

module _ (digest : Text → Text) where
  unfoldable pub hash_recovery_code : Text → Text
  hash_recovery_code code = digest (normalised code)

  abbrev pub fresh_code : Text → Text → Text → RecoveryCode
  fresh_code user_id stamp code = record {
    user_id = user_id;
    code_hash = hash_recovery_code code;
    created_at = stamp;
    used_at = none;
  }

  -- Deletes the account's codes and stores these.
  unfoldable pub replace_codes : Text → Text → List Text → List RecoveryCode → List RecoveryCode
  replace_codes user_id stamp codes rows =
      delete (λ c. same c.user_id user_id) rows ++ map (fresh_code user_id stamp) codes

  abbrev with_codes : Accounts → Text → List Text → Option Text → Option Accounts
  with_codes a stamp codes none = none
  with_codes a stamp codes (some id) =
      some (record a { totp_recovery_codes = replace_codes id stamp codes a.totp_recovery_codes })

  unfoldable pub regenerate_recovery_codes : Accounts → Text → Text → List Text → Option Accounts
  regenerate_recovery_codes a username stamp codes =
      with_codes a stamp codes (id_in (row_of a username))

  unfoldable pub spend_recovery_code : Accounts → Text → Text → Text → Accounts × Bool
  spend_recovery_code a username presented stamp =
      let good = is_good (id_in (row_of a username)) (hash_recovery_code presented) in
      if is_blank (trim presented) then (a, false) else (
        record a {
          totp_recovery_codes =
              update good (λ c. record c { used_at = some stamp }) a.totp_recovery_codes;
        },
        ltb 0 (count good a.totp_recovery_codes),
      )

  module _ (check : Text → Text → ℕ → Option ℕ) (unseal : Text → Option Text) where
    -- `totp::verify`
    unfoldable pub verify : Text → Text → ℕ → Option ℕ
    verify secret code now =
        if length (trim code) == 6 && all_digits (trim code)
        then check secret (trim code) now
        else none

    abbrev pub take_step : Accounts → Text → Option ℕ → Accounts × TotpOutcome
    take_step a username none = (a, rejected)
    take_step a username (some step) = (
      record a {
        users =
            update (is_acceptable username step) (λ u. record u { totp_last_step = some step })
              a.users;
      },
      if ltb 0 (count (is_acceptable username step) a.users) then accepted else replayed,
    )

    abbrev pub with_secret : Accounts → Text → Text → ℕ → Option Text → Accounts × TotpOutcome
    with_secret a username code now none = (a, rejected)
    with_secret a username code now (some secret) = take_step a username (verify secret code now)

    abbrev pub when_enrolled :
        Accounts → Text → Text → ℕ → Text → Option Text → Accounts × TotpOutcome
    when_enrolled a username code now stamp none = (a, not_enrolled)
    when_enrolled a username code now stamp (some sealed) =
        let spent = spend_recovery_code a username code stamp in
        if not (totp_is_confirmed a username)
        then (a, not_enrolled)
        else if spent.1
        then (spent.0, accepted_recovery_code)
        else with_secret a username code now (unseal sealed)

    unfoldable pub verify_totp : Accounts → Text → Text → ℕ → Text → Accounts × TotpOutcome
    verify_totp a username code now stamp =
        when_enrolled a username code now stamp (totp_secret_column a username)
