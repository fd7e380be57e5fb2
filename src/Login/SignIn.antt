-- ===== src/Login/SignIn.antt =====
-- The sign-in handler: src/login/sign_in.rs and `verify_login` of src/db_identity/accounts.rs. An
-- instant is a number of milliseconds and `stamp` its RFC 3339 text, `secret` the token minted by
-- this request. The audit log is a list of events. What comes from outside is an argument:
-- `verify_passphrase` compares a passphrase with a stored hash, and `digest`, `check` and `unseal`
-- are those of the second factor. The sealed vault key that rides along is left out.
use agro.Base.{
  ℕ, ◌+◌, ◌/◌, Bool, ◌&&◌, ◌||◌, not, List, [], ◌∷◌, ◌++◌, Option, none, some, Text, codes, trim,
  to_lowercase, if◌then◌else◌,
}
use mathlib.Core.Option as Option
use agro.Factor.{
  User, Accounts, TotpOutcome, accepted, accepted_recovery_code, is_satisfied, row_of, is_blank,
  filled, or_empty, totp_is_confirmed, verify_totp,
}
use agro.Login.{RateLimiter, allow, allow_second_factor, backoff_for, note_failure, note_success}
use agro.Login.Tokens.{Lifetimes, mint_device_token}

pub record LoginBody : Type 0 where
  pub username : Text
  pub passphrase : Text
  pub label : Option Text
  pub totp_code : Option Text

pub data Event : Type 0 where
  login_failed : Text → Event
  recovery_code_used : Text → Event
  totp_failed : Text → TotpOutcome → Event
  login_succeeded : Text → Text → Event

pub record State : Type 0 where
  pub accounts : Accounts
  pub rate_limiter : RateLimiter
  pub log : List Event

pub data Reply : Type 0 where
  too_many refused not_active totp_required totp_rejected not_issued : Reply
  issued : User → Text → Bool → Reply

abbrev pub record_event : Event → State → State
record_event e s = record s { log = s.log ++ e ∷ [] }

abbrev pub failed_login : Text → ℕ → State → State
failed_login username now s =
    record_event (login_failed username)
      (record s { rate_limiter = note_failure s.rate_limiter username now })

abbrev pub note_outcome : Text → TotpOutcome → State → State
note_outcome username accepted s = s
note_outcome username accepted_recovery_code s = record_event (recovery_code_used username) s
note_outcome username outcome s = record_event (totp_failed username outcome) s

abbrev pub label_of : Option Text → Text
label_of label = elim (filled (Option.map trim label)) [ none ↦ codes "device" | some l ↦ l ]

abbrev pub username_of : LoginBody → Text
username_of body = to_lowercase (trim body.username)

-- The instant at which the answer is worked out: the backoff is slept through first.
abbrev pub woken : RateLimiter → LoginBody → ℕ → ℕ
woken limiter body now = now + backoff_for limiter (username_of body) now

module _ (verify_passphrase : Text → Text → Bool) where
  abbrev pub proved_by : Text → Option User → Option User
  proved_by passphrase none = none
  proved_by passphrase (some u) =
      if verify_passphrase passphrase u.passphrase_hash then some u else none

  unfoldable pub verify_login : Accounts → Text → Text → Option User
  unfolding trim
  verify_login a username passphrase =
      if is_blank (trim username) || is_blank (trim passphrase)
      then none
      else proved_by passphrase (row_of a username)

  module _ (digest : Text → Text) (check : Text → Text → ℕ → Option ℕ) (unseal : Text → Option Text)
      (stamp : ℕ → Text) (l : Lifetimes) (admin_totp_required : Bool) where
    abbrev pub handed_out :
        State → Text → Text → Text → Bool → User → Option Accounts → State × Reply
    handed_out s username label secret owed u none = (s, not_issued)
    handed_out s username label secret owed u (some minted) = (
      record_event (login_succeeded u.username label)
          (record s { accounts = minted; rate_limiter = note_success s.rate_limiter username }),
      issued u secret owed,
    )

    abbrev pub issue : State → LoginBody → Text → Text → ℕ → User → State × Reply
    issue s body username secret now u =
        let owed =
          u.is_admin && admin_totp_required && not (totp_is_confirmed s.accounts u.username) in
        let label = label_of body.label in
        handed_out s username label secret owed u
          (mint_device_token digest l s.accounts u.username label secret now)

    -- The code that was presented, checked at this instant.
    abbrev pub checked : State → LoginBody → ℕ → User → Accounts × TotpOutcome
    checked s body now u =
        verify_totp digest check unseal s.accounts u.username (or_empty body.totp_code) (now / 1000)
          (stamp now)

    abbrev pub check_code : State → Text → LoginBody → Text → Text → ℕ → User → State × Reply
    check_code s client_ip body username secret now u =
        let allowed = allow_second_factor s.rate_limiter client_ip u.username now in
        let outcome = checked s body now u in
        let counted = record s { rate_limiter = allowed.0 } in
        let noted = note_outcome u.username outcome.1 (record counted { accounts = outcome.0 }) in
        if not allowed.1
        then (counted, too_many)
        else if is_satisfied outcome.1
        then issue noted body username secret now u
        else (noted, totp_rejected)

    -- Past the passphrase.
    abbrev pub admit : State → Text → LoginBody → Text → Text → ℕ → Option User → State × Reply
    admit s client_ip body username secret now none = (failed_login username now s, refused)
    admit s client_ip body username secret now (some u) =
        if not u.is_active
        then (failed_login username now s, not_active)
        else if not (totp_is_confirmed s.accounts u.username)
        then issue s body username secret now u
        else if is_blank (trim (or_empty body.totp_code))
        then (s, totp_required)
        else check_code s client_ip body username secret now u

    unfoldable pub login : State → Text → LoginBody → Text → ℕ → State × Reply
    unfolding verify_login totp_is_confirmed verify_totp allow allow_second_factor backoff_for
        note_failure note_success mint_device_token trim to_lowercase
    login s client_ip body secret now =
        let allowed = allow s.rate_limiter client_ip now in
        let counted = record s { rate_limiter = allowed.0 } in
        if not allowed.1
        then (counted, too_many)
        else admit counted client_ip body (username_of body) secret (woken allowed.0 body now)
            (verify_login s.accounts (username_of body) body.passphrase)
