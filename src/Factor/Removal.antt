-- ===== src/Factor/Removal.antt =====
-- Turning the second factor off and starting over: `disable_totp` and `begin_totp_enrolment` of
-- src/db_identity/totp.rs.
use agro.Base.{
  ℕ, ◌≡◌, refl, ap, ◌∙◌, false, arith, Option, none, some, Text, delete, count-zero, any-eq-false,
  All-map,
}
use agro.Factor.{
  User, Accounts, named, row_of, id_in, belongs_to, totp_secret_column, totp_is_confirmed,
  confirmed_in, secret_in, verify_totp, when_enrolled, not_enrolled, begin_totp_enrolment,
  disable_totp, recovery_codes_remaining,
}
use agro.Factor.Enrolment.{changed, head-update, All-delete_self}

secret_in-changed :
    (f : User → User) (row : Option User)
    → ((u : User) → (f u).totp_secret_enc ≡ none)
    → secret_in (changed f row) ≡ none
secret_in-changed f none h = refl
secret_in-changed f (some u) h = rw (h u) refl

confirmed_in-none :
    (f : User → User) (row : Option User)
    → ((u : User) → (f u).totp_confirmed_at ≡ none)
    → confirmed_in (changed f row) ≡ false
confirmed_in-none f none h = refl
confirmed_in-none f (some u) h = rw (h u) refl

id_in-kept :
    (f : User → User) (row : Option User)
    → ((u : User) → (f u).id ≡ u.id)
    → id_in (changed f row) ≡ id_in row
id_in-kept f none h = refl
id_in-kept f (some u) h = ap some (h u)

module _ (digest : Text → Text) (check : Text → Text → ℕ → Option ℕ)
    (unseal : Text → Option Text) where
  unconfirmed :
      (a : Accounts) (username code : Text) (now : ℕ) (stamp : Text)
      → totp_is_confirmed a username ≡ false
      → (verify_totp digest check unseal a username code now stamp).1 ≡ not_enrolled
  unfolding verify_totp
  unconfirmed a username code now stamp h = with_sealed (totp_secret_column a username)
    where
      with_sealed :
          (sealed : Option Text)
          → (when_enrolled digest check unseal a username code now stamp sealed).1 ≡ not_enrolled
      with_sealed none = refl
      with_sealed (some sealed) = rw h refl

  -- With the factor turned off, the account counts as not enrolled whatever code it presents, and
  -- has no recovery code left. A new enrolment may begin, and until it is confirmed the account
  -- still counts as not enrolled.
  pub disable_totp_lem :
      (a : Accounts) (username sealed code : Text) (now : ℕ) (stamp : Text)
      → (let off = (disable_totp a username).0 in
          ((verify_totp digest check unseal off username code now stamp).1 ≡ not_enrolled)
          × (recovery_codes_remaining off username ≡ 0)
          × ((b : Accounts) × (begin_totp_enrolment off username sealed ≡ some b)
              × ((verify_totp digest check unseal b username code now stamp).1 ≡ not_enrolled)))
  unfolding disable_totp begin_totp_enrolment totp_is_confirmed recovery_codes_remaining
  disable_totp_lem a username sealed code now stamp =
      let off = (disable_totp a username).0 in
      let unset =
        head-update (named username)
          (λ u. record u {
            totp_secret_enc = none;
            totp_confirmed_at = none;
            totp_last_step = none;
          })
          a.users (λ u. refl) in
      let same_id : id_in (row_of off username) ≡ id_in (row_of a username) =
        ap id_in unset ∙ id_in-kept _ (row_of a username) (λ u. refl) in
      let started =
        head-update (named username)
          (λ u. record u {
            totp_secret_enc = some sealed;
            totp_confirmed_at = none;
            totp_last_step = none;
          })
          off.users (λ u. refl) in
      let off_unconfirmed : totp_is_confirmed off username ≡ false =
        ap confirmed_in unset ∙ confirmed_in-none _ (row_of a username) (λ u. refl) in
      (
        unconfirmed off username code now stamp off_unconfirmed,
        count-zero _
            (delete (λ c. belongs_to (id_in (row_of a username)) c.user_id) a.totp_recovery_codes)
            (any-eq-false _ _ (
              All-map _ _ _ (λ c gone. ground (arith, ap (λ i. belongs_to i c.user_id) same_id))
                (All-delete_self _ a.totp_recovery_codes))),
        rw off_unconfirmed (
          _,
          refl,
          unconfirmed _ username code now stamp
              (ap confirmed_in started ∙ confirmed_in-none _ (row_of off username) (λ u. refl)),
        ),
      )
