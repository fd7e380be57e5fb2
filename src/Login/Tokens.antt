-- ===== src/Login/Tokens.antt =====
-- Device tokens: src/db_identity/tokens.rs and `token_has_expired` of src/db_identity.rs. `digest`
-- is the hexadecimal SHA-256 of a text, and the secret of a minted token an argument.
use agro.Base.{
  ℕ, ◌+◌, ◌-◌, ◌*◌, ◌/◌, Bool, true, false, ◌&&◌, ◌||◌, not, [], ◌∷◌, ◌++◌, Option, none, some,
  Text, same, trim, select, delete, update, any, ltb, leb, ◌==◌, if◌then◌else◌, head?, take,
}
use mathlib.Core.Option as Option
use agro.Factor.{User, Token, Accounts, row_of, id_in, is_blank}

abbrev pub token_prefix_len : ℕ
token_prefix_len = 8

abbrev pub last_used_refresh_secs : ℕ
last_used_refresh_secs = 3600

abbrev pub day : ℕ
day = 86_400_000

-- AGRO_TOKEN_IDLE_DAYS, and AGRO_TOKEN_TTL_DAYS where it is set and positive.
pub record Lifetimes : Type 0 where
  pub token_idle_days : ℕ
  pub token_ttl_days : Option ℕ

abbrev pub seen_at : Token → ℕ
seen_at t = elim t.last_used_at [ none ↦ t.created_at | some seen ↦ seen ]

abbrev pub is_past : ℕ → Option ℕ → Bool
is_past now none = false
is_past now (some expires) = leb expires now

unfoldable pub token_has_expired : Lifetimes → ℕ → Token → Bool
token_has_expired l now t =
    is_past now t.expires_at
    || (not (l.token_idle_days == 0) && leb l.token_idle_days ((now - seen_at t) / day))

unfoldable pub token_prefix : Text → Text
unfolding trim
token_prefix token = take token_prefix_len (trim token)

-- `expires_at < now`
abbrev pub is_before : ℕ → Option ℕ → Bool
is_before now none = false
is_before now (some expires) = ltb expires now

unfoldable pub sweep_expired_tokens : Lifetimes → ℕ → Accounts → Accounts
unfolding delete
sweep_expired_tokens l now a =
    let fixed = delete (λ t. is_before now t.expires_at) a.app_passwords in
    record a {
      app_passwords =
          if l.token_idle_days == 0
          then fixed
          else delete (λ t. ltb (seen_at t + l.token_idle_days * day) now) fixed;
    }

abbrev pub is_stale : ℕ → Option ℕ → Bool
is_stale now none = true
is_stale now (some seen) = leb last_used_refresh_secs ((now - seen) / 1000)

unfoldable pub touch_token_if_stale : ℕ → Token → Accounts → Accounts
unfolding update same
touch_token_if_stale now t a =
    if is_stale now t.last_used_at
    then record a {
      app_passwords =
          update (λ r. same r.token_hash t.token_hash) (λ r. record r { last_used_at = some now })
            a.app_passwords;
    }
    else a

abbrev pub has_id : Text → User → Bool
has_id id u = same u.id id

module _ (digest : Text → Text) where
  unfoldable pub hash_token : Text → Text
  unfolding trim
  hash_token token = digest (trim token)

  unfoldable pub mint_device_token : Lifetimes → Accounts → Text → Text → Text → ℕ → Option Accounts
  unfolding hash_token token_prefix trim
  mint_device_token l a username label secret now = elim (id_in (row_of a username)) [
    | none ↦ none
    | some user_id ↦ some (record a {
      app_passwords =
          a.app_passwords
          ++ record {
            user_id = user_id;
            token_hash = hash_token secret;
            token_prefix = take token_prefix_len secret;
            label = trim label;
            created_at = now;
            expires_at = Option.map (λ days. now + days * day) l.token_ttl_days;
            last_used_at = none;
          }
            ∷ [];
    })
  ]

  -- The rows that may be the presented token, in storage order.
  abbrev pub is_candidate : Accounts → Text → Token → Bool
  is_candidate a token t =
      same t.token_prefix (token_prefix token)
      && not (same t.token_hash [])
      && any (has_id t.user_id) a.users
      && same t.token_hash (hash_token token)

  abbrev user_of : Accounts → Text → Option User
  user_of a user_id = head? (select (has_id user_id) a.users)

  -- The account of a row that has not expired, and the label of the device.
  unfoldable pub accept_token :
      Lifetimes → Accounts → ℕ → Option Token → Accounts × Option (User × Text)
  unfolding token_has_expired touch_token_if_stale select same trim
  accept_token l a now none = (a, none)
  accept_token l a now (some t) = if token_has_expired l now t then (a, none) else (
    touch_token_if_stale now t a,
    (elim (user_of a t.user_id) [
      | none ↦ none
      | some u ↦ Option.map (λ account. (account, t.label)) (row_of a u.username)
    ]),
  )

  unfoldable pub account_for_token :
      Lifetimes → Accounts → Text → ℕ → Accounts × Option (User × Text)
  unfolding accept_token select any same token_prefix hash_token trim
  account_for_token l a token now =
      if is_blank (trim token)
      then (a, none)
      else accept_token l a now (head? (select (is_candidate a token) a.app_passwords))
