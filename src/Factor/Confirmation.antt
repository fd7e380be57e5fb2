-- ===== src/Factor/Confirmation.antt =====
-- Confirming an enrolment: `confirm_totp_enrolment` of src/db_identity/totp.rs.
use agro.Base.{ℕ, List, Option, none, some, Text, update, if◌then◌else◌}
use agro.Factor.{
  Accounts, User, EnrolmentError, already_enabled, no_enrolment, unopened, wrong_code,
  no_such_account, named, row_of, id_in, totp_is_confirmed, totp_secret_column, verify,
  replace_codes, revoke_all_tokens,
}

module _ (digest : Text → Text) (check : Text → Text → ℕ → Option ℕ)
    (unseal : Text → Option Text) where
  pub data Confirmation : Type 0 where
    refused : EnrolmentError → Confirmation
    confirmed : Accounts → Confirmation

  abbrev pub confirm_user : Text → ℕ → User → User
  confirm_user stamp step u = record u {
    totp_confirmed_at = some stamp;
    totp_last_step = some step;
  }

  abbrev pub confirm_as :
      Accounts → Text → Option Text → Text → List Text → ℕ → Option Text → Confirmation
  confirm_as a username spare stamp codes step none = refused no_such_account
  confirm_as a username spare stamp codes step (some id) =
      let stored : Accounts = record a {
        users = update (named username) (confirm_user stamp step) a.users;
        totp_recovery_codes = replace_codes digest id stamp codes a.totp_recovery_codes;
      } in
      confirmed (revoke_all_tokens stored username spare).0

  abbrev pub confirm_step :
      Accounts → Text → Option Text → Text → List Text → Option ℕ → Confirmation
  confirm_step a username spare stamp codes none = refused wrong_code
  confirm_step a username spare stamp codes (some step) =
      confirm_as a username spare stamp codes step (id_in (row_of a username))

  abbrev pub confirm_opened :
      Accounts → Text → Text → Option Text → ℕ → Text → List Text → Option Text → Confirmation
  confirm_opened a username code spare now stamp codes none = refused unopened
  confirm_opened a username code spare now stamp codes (some secret) =
      confirm_step a username spare stamp codes (verify digest check unseal secret code now)

  abbrev pub confirm_sealed :
      Accounts → Text → Text → Option Text → ℕ → Text → List Text → Option Text → Confirmation
  confirm_sealed a username code spare now stamp codes none = refused no_enrolment
  confirm_sealed a username code spare now stamp codes (some sealed) =
      if totp_is_confirmed a username
      then refused already_enabled
      else confirm_opened a username code spare now stamp codes (unseal sealed)

  -- `codes` are the recovery codes that `mint_recovery_codes` returns.
  unfoldable pub confirm_totp_enrolment :
      Accounts → Text → Text → Option Text → ℕ → Text → List Text → Confirmation
  confirm_totp_enrolment a username code spare now stamp codes =
      confirm_sealed a username code spare now stamp codes (totp_secret_column a username)
