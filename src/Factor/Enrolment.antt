-- ===== src/Factor/Enrolment.antt =====
-- Turning the second factor on: `confirm_totp_enrolment` of src/db_identity/totp.rs.
use agro.Base.{
  ℕ, ◌≡◌, refl, ap, ◌∙◌, Bool, true, false, List, [], ◌∷◌, map, arith, Option, none, some, Text,
  same, select, delete, update, if◌then◌else◌, head?, All, All-update_where, All-map, Bool-cases,
  inl, inr, subst, eq_of_same, same_refl,
}
use agro.Factor.{
  User, RecoveryCode, Accounts, named, row_of, id_in, is_blank, belongs_to, totp_secret_column,
  totp_is_confirmed, verify, revoke_all_tokens, replace_codes, fresh_code, confirmed_in,
  already_enabled, or_empty,
}
use agro.Factor.Confirmation.{
  confirmed, refused, confirm_totp_enrolment, confirm_sealed, confirm_opened, confirm_step,
  confirm_as, confirm_user,
}

abbrev pub changed {ℓ} : {R : Type ℓ} → (R → R) → Option R → Option R
changed f none = none
changed f (some r) = some (f r)

pub head-update {ℓ} :
    {R : Type ℓ} (p : R → Bool) (f : R → R) (rows : List R)
    → ((r : R) → p (f r) ≡ p r)
    → head? (select p (update p f rows)) ≡ changed f (head? (select p rows))
unfolding select update
head-update p f [] h = refl
head-update p f (r ∷ rows) h = elim (Bool-cases (p r)) [
  | inl e ↦ rw (e, h r, e) refl
  | inr e ↦ rw (e, e) (head-update p f rows h)
]

pub All-delete_self {ℓ} :
    {R : Type ℓ} (p : R → Bool) (rows : List R) → All (λ r. p r ≡ false) (delete p rows)
unfolding delete
All-delete_self p [] = tt
All-delete_self p (r ∷ rows) = elim (Bool-cases (p r)) [
  | inl e ↦ rw e (All-delete_self p rows)
  | inr e ↦ rw e (e, All-delete_self p rows)
]

select-replace_codes :
    (digest : Text → Text) (id stamp : Text) (codes : List Text) (rows : List RecoveryCode)
    → select (λ c. same c.user_id id) (replace_codes digest id stamp codes rows)
      ≡ map (fresh_code digest id stamp) codes
unfolding replace_codes delete select
select-replace_codes digest id stamp codes (c ∷ rows) = elim (Bool-cases (same c.user_id id)) [
  | inl e ↦ rw e (select-replace_codes digest id stamp codes rows)
  | inr e ↦ rw (e, e) (select-replace_codes digest id stamp codes rows)
]
select-replace_codes digest id stamp [] [] = refl
select-replace_codes digest id stamp (code ∷ codes) [] = rw (same_refl id) (
    ap (λ rest. fresh_code digest id stamp code ∷ rest)
      (select-replace_codes digest id stamp codes []))

module _ (digest : Text → Text) (check : Text → Text → ℕ → Option ℕ)
    (unseal : Text → Option Text) where
  -- What a confirmation has seen and done: a pending secret of the account opened, and the code was
  -- its password of the given step.
  pub record IsConfirmed (a : Accounts) (username code : Text) (spare : Option Text) (now : ℕ)
      (stamp : Text) (codes : List Text) (b : Accounts) : Type 0 where
    pub id : Text
    pub sealed : Text
    pub secret : Text
    pub step : ℕ
    pub was_pending : totp_is_confirmed a username ≡ false
    pub has_id : id_in (row_of a username) ≡ some id
    pub has_sealed : totp_secret_column a username ≡ some sealed
    pub opens : unseal sealed ≡ some secret
    pub matches : verify digest check unseal secret code now ≡ some step
    pub in_force : totp_is_confirmed b username ≡ true
    pub guarded : All (λ u. named username u ≡ true → u.totp_last_step ≡ some step) b.users
    pub signed_out :
        All (λ t. same t.user_id id ≡ true → t.token_hash ≡ or_empty spare) b.app_passwords
    pub new_codes :
        select (λ c. same c.user_id id) b.totp_recovery_codes
        ≡ map (fresh_code digest id stamp) codes

  id_in-changed :
      (row : Option User) (stamp : Text) (step : ℕ)
      → id_in (changed (confirm_user digest check unseal stamp step) row) ≡ id_in row
  id_in-changed none stamp step = refl
  id_in-changed (some u) stamp step = refl

  confirmed_in-changed :
      (row : Option User) (id stamp : Text) (step : ℕ)
      → is_blank stamp ≡ false
      → id_in row ≡ some id
      → confirmed_in (changed (confirm_user digest check unseal stamp step) row) ≡ true
  confirmed_in-changed none id stamp step dated h = ground arith
  confirmed_in-changed (some u) id stamp step dated h = ground arith

  module _ (a : Accounts) (username code : Text) (spare : Option Text) (now : ℕ) (stamp : Text)
      (codes : List Text) (b : Accounts) (dated : is_blank stamp ≡ false) where
    abbrev Done : Accounts → Type 0
    Done = IsConfirmed a username code spare now stamp codes

    module _ (sealed : Text) (has_sealed : totp_secret_column a username ≡ some sealed)
        (was_pending : totp_is_confirmed a username ≡ false) where
      abbrev stored : Text → ℕ → Accounts
      stored id step = record a {
        users = update (named username) (confirm_user digest check unseal stamp step) a.users;
        totp_recovery_codes = replace_codes digest id stamp codes a.totp_recovery_codes;
      }

      as-Done :
          (secret : Text) (step : ℕ) (id : Option Text)
          → unseal sealed ≡ some secret
          → verify digest check unseal secret code now ≡ some step
          → id_in (row_of a username) ≡ id
          → confirm_as digest check unseal a username spare stamp codes step id ≡ confirmed b
          → Done b
      unfolding revoke_all_tokens totp_is_confirmed
      as-Done secret step none opens matches has_id h = ground arith
      as-Done secret step (some id) opens matches has_id h =
          let row =
            head-update (named username) (confirm_user digest check unseal stamp step) a.users
              (λ u. refl) in
          let b_is : (revoke_all_tokens (stored id step) username spare).0 ≡ b = ground arith in
          let same_id = ap id_in row ∙ id_in-changed (row_of a username) stamp step ∙ has_id in
          subst Done b_is record {
            id = id;
            sealed = sealed;
            secret = secret;
            step = step;
            was_pending = was_pending;
            has_id = has_id;
            has_sealed = has_sealed;
            opens = opens;
            matches = matches;
            in_force =
                ap confirmed_in row
                ∙ confirmed_in-changed (row_of a username) id stamp step dated has_id;
            guarded =
                All-update_where _ (named username) _ a.users (λ u fits one. refl)
                  (λ u fails one. ground arith);
            signed_out =
                All-map _ _ (revoke_all_tokens (stored id step) username spare).0.app_passwords
                  (λ t kept one.
                    eq_of_same t.token_hash (or_empty spare)
                      (ground (arith, ap (λ i. belongs_to i t.user_id) same_id)))
                  (All-delete_self _ a.app_passwords);
            new_codes = select-replace_codes digest id stamp codes a.totp_recovery_codes;
          }

      step-Done :
          (secret : Text) (step : Option ℕ)
          → unseal sealed ≡ some secret
          → verify digest check unseal secret code now ≡ step
          → confirm_step digest check unseal a username spare stamp codes step ≡ confirmed b
          → Done b
      step-Done secret none opens matches h = ground arith
      step-Done secret (some step) opens matches h =
          as-Done secret step (id_in (row_of a username)) opens matches refl h

      opened-Done :
          (secret : Option Text)
          → unseal sealed ≡ secret
          → confirm_opened digest check unseal a username code spare now stamp codes secret
            ≡ confirmed b
          → Done b
      opened-Done none opens h = ground arith
      opened-Done (some secret) opens h =
          step-Done secret (verify digest check unseal secret code now) opens refl h

    sealed-Done :
        (sealed : Option Text)
        → totp_secret_column a username ≡ sealed
        → confirm_sealed digest check unseal a username code spare now stamp codes sealed
          ≡ confirmed b
        → Done b
    sealed-Done none has_sealed h = ground arith
    sealed-Done (some sealed) has_sealed h = elim (Bool-cases (totp_is_confirmed a username)) [
      | inl e ↦ ground arith
      | inr e ↦ opened-Done sealed has_sealed e (unseal sealed) refl (
          subst
            (λ c.
              (if c
                then refused already_enabled
                else confirm_opened digest check unseal a username code spare now stamp codes
                    (unseal sealed))
              ≡ confirmed b)
            e h)
    ]

    -- A confirmation, at an instant whose stamp is not empty, takes effect only on a pending
    -- secret of the account, which opens, and with a password of that secret. It then puts the
    -- factor in force, counts that step as accepted, leaves the account no token but the spared
    -- one, and no recovery code but the new ones, unused.
    pub confirm_totp_enrolment-IsConfirmed :
        confirm_totp_enrolment digest check unseal a username code spare now stamp codes
          ≡ confirmed b
        → IsConfirmed a username code spare now stamp codes b
    unfolding confirm_totp_enrolment
    confirm_totp_enrolment-IsConfirmed h = sealed-Done (totp_secret_column a username) refl h
