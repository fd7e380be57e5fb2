-- ===== src/Login/Kept.antt =====
-- What checking a second factor leaves of the accounts, and how a stored name finds its row.
use agro.Base.{
  ℕ, ◌≡◌, refl, sym, ap, ◌∙◌, Bool, true, false, not, List, [], ◌∷◌, Option, none, some, Text, same,
  trim, to_lowercase, trim_idem, trim-to_lowercase, eq_of_same, select, select-pointwise, update,
  head?, if◌then◌else◌, Bool-cases, inl, inr, ◌||◌, arith,
}
use agro.Factor.{
  User, Accounts, named, row_of, id_in, is_acceptable, is_blank, totp_is_confirmed,
  spend_recovery_code, verify, take_step, with_secret, when_enrolled, verify_totp,
  totp_secret_column, not_enrolled, accepted_recovery_code,
}
use agro.Login.SignIn.{verify_login, proved_by}

-- The tokens, and which id a name stands for, are as before.
abbrev pub Kept : Text → Accounts → Accounts → Type 0
Kept name a b =
    (b.app_passwords ≡ a.app_passwords) × (id_in (row_of b name) ≡ id_in (row_of a name))

if_Kept :
    {X : Type 0} (name : Text) (a : Accounts) (c : Bool) (p q : Accounts × X)
    → Kept name a p.0
    → Kept name a q.0
    → Kept name a (if c then p else q).0
if_Kept name a true p q h k = h
if_Kept name a false p q h k = k

module _ (digest : Text → Text) (check : Text → Text → ℕ → Option ℕ)
    (unseal : Text → Option Text) where
  id_in-update :
      (name : Text) (p : User → Bool) (step : ℕ) (users : List User)
      → id_in (
          head?
            (select (named name) (update p (λ u. record u { totp_last_step = some step }) users)))
        ≡ id_in (head? (select (named name) users))
  unfolding select update
  id_in-update name p step [] = refl
  id_in-update name p step (u ∷ users) = elim (Bool-cases (named name u)) [
    | inl e ↦ elim (Bool-cases (p u)) [ inl d ↦ rw (d, e) refl | inr d ↦ rw (d, e) refl ]
    | inr e ↦ elim (Bool-cases (p u)) [
      | inl d ↦ rw (d, e) (id_in-update name p step users)
      | inr d ↦ rw (d, e) (id_in-update name p step users)
    ]
  ]

  take_step-Kept :
      (a : Accounts) (username name : Text) (o : Option ℕ)
      → Kept name a (take_step digest check unseal a username o).0
  take_step-Kept a username name none = (refl, refl)
  take_step-Kept a username name (some step) =
      (refl, id_in-update name (is_acceptable username step) step a.users)

  spend_recovery_code-Kept :
      (a : Accounts) (username code stamp name : Text)
      → Kept name a (spend_recovery_code digest a username code stamp).0
  unfolding spend_recovery_code
  spend_recovery_code-Kept a username code stamp name =
      if_Kept name a (is_blank (trim code)) _ _ (refl, refl) (refl, refl)

  with_secret-Kept :
      (a : Accounts) (username code name : Text) (now : ℕ) (o : Option Text)
      → Kept name a (with_secret digest check unseal a username code now o).0
  with_secret-Kept a username code name now none = (refl, refl)
  with_secret-Kept a username code name now (some secret) =
      take_step-Kept a username name (verify digest check unseal secret code now)

  when_enrolled-Kept :
      (a : Accounts) (username code stamp name : Text) (now : ℕ) (o : Option Text)
      → Kept name a (when_enrolled digest check unseal a username code now stamp o).0
  when_enrolled-Kept a username code stamp name now none = (refl, refl)
  when_enrolled-Kept a username code stamp name now (some sealed) =
      let spent = spend_recovery_code digest a username code stamp in
      let opened = with_secret digest check unseal a username code now (unseal sealed) in
      if_Kept name a (not (totp_is_confirmed a username)) (a, not_enrolled)
        (if spent.1 then (spent.0, accepted_recovery_code) else opened) (refl, refl)
        (if_Kept name a spent.1 (spent.0, accepted_recovery_code) opened
          (spend_recovery_code-Kept a username code stamp name)
          (with_secret-Kept a username code name now (unseal sealed)))

  pub verify_totp-Kept :
      (a : Accounts) (username code stamp name : Text) (now : ℕ)
      → Kept name a (verify_totp digest check unseal a username code now stamp).0
  unfolding verify_totp
  verify_totp-Kept a username code stamp name now =
      when_enrolled-Kept a username code stamp name now (totp_secret_column a username)

pub none_some : {B : Type 0} (u : User) → none ≡ some u → B
none_some u h = ground arith

pub some_injective : (v u : User) → some v ≡ some u → v ≡ u
some_injective v u h = ap (λ (o : Option User). elim o [ none ↦ v | some w ↦ w ]) h

first_fits :
    (p : User → Bool) (c : Bool) (v u : User) (rest : List User)
    → p v ≡ c
    → (head? rest ≡ some u → p u ≡ true)
    → head? (if c then v ∷ rest else rest) ≡ some u
    → p u ≡ true
first_fits p true v u rest e later h = ap p (sym (some_injective v u h)) ∙ e
first_fits p false v u rest e later h = later h

head-select_fits :
    (p : User → Bool) (users : List User) (u : User) → head? (select p users) ≡ some u → p u ≡ true
unfolding select
head-select_fits p [] u h = none_some u h
head-select_fits p (v ∷ users) u h =
    first_fits p (p v) v u (select p users) refl (head-select_fits p users u) h

-- The row found for a name is the one found for the name that it stores.
pub row_of-username :
    (a : Accounts) (name : Text) (u : User) → row_of a name ≡ some u → row_of a u.username ≡ some u
row_of-username a name u found =
    let key =
      eq_of_same (to_lowercase u.username) (to_lowercase (trim name))
        (head-select_fits (named name) a.users u found) in
    let own : to_lowercase (trim u.username) ≡ to_lowercase (trim name) =
      sym (trim-to_lowercase u.username)
      ∙ ap trim key
      ∙ trim-to_lowercase (trim name)
      ∙ ap to_lowercase (trim_idem name) in
    ap head? (
      select-pointwise (named u.username) (named name) a.users
        (λ v. ap (same (to_lowercase v.username)) own))
    ∙ found

accepted_user : (c : Bool) (v u : User) → (if c then some v else none) ≡ some u → some v ≡ some u
accepted_user true v u h = h
accepted_user false v u h = none_some u h

proved_user :
    (verify_passphrase : Text → Text → Bool) (passphrase : Text) (b : Bool) (o : Option User)
    (u : User)
    → (if b then none else proved_by verify_passphrase passphrase o) ≡ some u
    → o ≡ some u
proved_user verify_passphrase passphrase true o u h = none_some u h
proved_user verify_passphrase passphrase false none u h = none_some u h
proved_user verify_passphrase passphrase false (some v) u h =
    accepted_user (verify_passphrase passphrase v.passphrase_hash) v u h

pub row_of-verify_login :
    (verify_passphrase : Text → Text → Bool) (a : Accounts) (name passphrase : Text) (u : User)
    → verify_login verify_passphrase a name passphrase ≡ some u
    → row_of a name ≡ some u
unfolding verify_login
row_of-verify_login verify_passphrase a name passphrase u h =
    proved_user verify_passphrase passphrase (is_blank (trim name) || is_blank (trim passphrase))
      (row_of a name) u h
