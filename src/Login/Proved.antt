-- ===== src/Login/Proved.antt =====
-- What a sign-in needs.
use agro.Base.{
  ℕ, ◌≡◌, refl, Bool, true, false, ◌&&◌, ◌||◌, not, Option, none, some, Text, trim, if◌then◌else◌,
  ◌∙◌, sym, ap, subst, ◌++◌, ◌∷◌, [],
}
use agro.Factor.{User, Accounts, is_satisfied, is_blank, or_empty, totp_is_confirmed, id_in}
use agro.Login.Kept.{row_of-username, row_of-verify_login, none_some, some_injective}
use agro.Login.Issued.{minted}
use agro.Login.{allow, allow_second_factor}
use agro.Login.Tokens.{Lifetimes, mint_device_token}
use agro.Login.SignIn.{
  LoginBody, State, Reply, too_many, not_active, totp_required, totp_rejected, label_of, handed_out,
  issue, checked, check_code, admit, username_of, woken, verify_login, login, note_outcome,
  failed_login,
}
use agro.Login.Stored.{issued_to, issued_secret, given, Stores, if_Stores, admit-Stores}

-- An answer that issues nothing was not the one given.
else_of :
    (c : Bool) (p q : State × Reply) (u : User)
    → issued_to p.1 ≡ none
    → issued_to (if c then p else q).1 ≡ some u
    → (c ≡ false) × (issued_to q.1 ≡ some u)
else_of true p q u nothing h = none_some u (sym nothing ∙ h)
else_of false p q u nothing h = (refl, h)

then_of :
    (c : Bool) (p q : State × Reply) (u : User)
    → issued_to q.1 ≡ none
    → issued_to (if c then p else q).1 ≡ some u
    → (c ≡ true) × (issued_to p.1 ≡ some u)
then_of true p q u nothing h = (refl, h)
then_of false p q u nothing h = none_some u (sym nothing ∙ h)

not-eq-false : (c : Bool) → not c ≡ false → c ≡ true
not-eq-false true h = refl
not-eq-false false h = sym h

module _ (verify_passphrase : Text → Text → Bool) (digest : Text → Text)
    (check : Text → Text → ℕ → Option ℕ) (unseal : Text → Option Text) (stamp : ℕ → Text)
    (l : Lifetimes) (required : Bool) where
  handed_out_to :
      (s : State) (username label secret : Text) (owed : Bool) (v u : User) (o : Option Accounts)
      → given (
          handed_out verify_passphrase digest check unseal stamp l required s username label secret
            owed v o)
        ≡ some u
      → v ≡ u
  handed_out_to s username label secret owed v u none h = none_some u h
  handed_out_to s username label secret owed v u (some minted) h = some_injective v u h

  issue_to :
      (s : State) (body : LoginBody) (username secret : Text) (now : ℕ) (v u : User)
      → given (
          issue verify_passphrase digest check unseal stamp l required s body username secret now v)
        ≡ some u
      → v ≡ u
  issue_to s body username secret now v u h =
      let owed = v.is_admin && required && not (totp_is_confirmed s.accounts v.username) in
      let label = label_of body.label in
      handed_out_to s username label secret owed v u
        (mint_device_token digest l s.accounts v.username label secret now) h

  abbrev is_proved : State → LoginBody → ℕ → User → Bool
  is_proved s body now v =
      is_satisfied (checked verify_passphrase digest check unseal stamp l required s body now v).1

  check_code_to :
      (s : State) (client_ip : Text) (body : LoginBody) (username secret : Text) (now : ℕ)
      (v u : User)
      → given (
          check_code verify_passphrase digest check unseal stamp l required s client_ip body
            username secret now v)
        ≡ some u
      → (is_proved s body now v ≡ true) × (v ≡ u)
  check_code_to s client_ip body username secret now v u h =
      let allowed = allow_second_factor s.rate_limiter client_ip v.username now in
      let outcome = checked verify_passphrase digest check unseal stamp l required s body now v in
      let counted = record s { rate_limiter = allowed.0 } in
      let noted = note_outcome v.username outcome.1 (record counted { accounts = outcome.0 }) in
      let issuing =
        issue verify_passphrase digest check unseal stamp l required noted body username secret now
          v in
      let tried = if is_satisfied outcome.1 then issuing else (noted, totp_rejected) in
      let within = else_of (not allowed.1) (counted, too_many) tried u refl h in
      let satisfied =
        then_of (is_satisfied outcome.1) issuing (noted, totp_rejected) u refl within.1 in
      (satisfied.0, issue_to noted body username secret now v u satisfied.1)

  -- A second factor is asked for exactly where it is confirmed.
  asked :
      (c b : Bool) (p q : State × Reply) (v u : User)
      → (given p ≡ some u → v ≡ u)
      → (given q ≡ some u → (b ≡ true) × (v ≡ u))
      → given (if not c then p else q) ≡ some u
      → ((not c || b) ≡ true) × (v ≡ u)
  asked true b p q v u f g h = g h
  asked false b p q v u f g h = (refl, f h)

  abbrev pub is_second_factor_met : State → LoginBody → ℕ → User → Bool
  is_second_factor_met s body now v =
      not (totp_is_confirmed s.accounts v.username) || is_proved s body now v

  admit_to :
      (s : State) (client_ip : Text) (body : LoginBody) (username secret : Text) (now : ℕ)
      (v u : User)
      → given (
          admit verify_passphrase digest check unseal stamp l required s client_ip body username
            secret now
            (some v))
        ≡ some u
      → (v.is_active ≡ true) × (is_second_factor_met s body now v ≡ true) × (v ≡ u)
  admit_to s client_ip body username secret now v u h =
      let confirmed = totp_is_confirmed s.accounts v.username in
      let issuing =
        issue verify_passphrase digest check unseal stamp l required s body username secret now v in
      let checking =
        check_code verify_passphrase digest check unseal stamp l required s client_ip body username
          secret now v in
      let blank = is_blank (trim (or_empty body.totp_code)) in
      let coded = if blank then (s, totp_required) else checking in
      let active =
        else_of (not v.is_active) (failed_login username now s, not_active)
          (if not confirmed then issuing else coded) u refl h in
      let passed =
        asked confirmed (is_proved s body now v) issuing coded v u
          (issue_to s body username secret now v u)
          (λ k.
            check_code_to s client_ip body username secret now v u
              (else_of blank (s, totp_required) checking u refl k).1)
          active.1 in
      (not-eq-false v.is_active active.0, passed.0, passed.1)

  admitted :
      (s : State) (client_ip : Text) (body : LoginBody) (username secret : Text) (now : ℕ)
      (u : User) (o : Option User)
      → given (
          admit verify_passphrase digest check unseal stamp l required s client_ip body username
            secret now o)
        ≡ some u
      → (o ≡ some u) × (u.is_active ≡ true) × (is_second_factor_met s body now u ≡ true)
  admitted s client_ip body username secret now u none h = none_some u h
  admitted s client_ip body username secret now u (some v) h =
      let passed = admit_to s client_ip body username secret now v u h in
      subst
        (λ w. (some v ≡ some w) × (w.is_active ≡ true) × (is_second_factor_met s body now w ≡ true))
        passed.2 (refl, passed.0, passed.1)

  -- A sign-in that issues a token was within the address's budget. It is the account whose
  -- passphrase was presented that is named in the answer; the account is active, and where its
  -- second factor is confirmed, the code presented is accepted at the instant the backoff ends. The
  -- secret in the answer is the one minted for this sign-in, and the table of tokens has one row
  -- more, which is this secret's, for this account.
  pub login_issued :
      (s : State) (client_ip : Text) (body : LoginBody) (secret : Text) (now : ℕ) (u : User)
      → issued_to
          (login verify_passphrase digest check unseal stamp l required s client_ip body secret
            now).1
        ≡ some u
      → (let answered =
            login verify_passphrase digest check unseal stamp l required s client_ip body secret
              now in
          let at = woken (allow s.rate_limiter client_ip now).0 body now in
          ((allow s.rate_limiter client_ip now).1 ≡ true)
          × (verify_login verify_passphrase s.accounts (username_of body) body.passphrase ≡ some u)
          × (u.is_active ≡ true)
          × (is_second_factor_met s body at u ≡ true)
          × (issued_secret answered.1 ≡ some secret)
          × (answered.0.accounts.app_passwords
              ≡ s.accounts.app_passwords ++ minted digest l u (label_of body.label) secret at ∷ []))
  unfolding login
  login_issued s client_ip body secret now u h =
      let allowed = allow s.rate_limiter client_ip now in
      let counted = record s { rate_limiter = allowed.0 } in
      let username = username_of body in
      let found = verify_login verify_passphrase s.accounts username body.passphrase in
      let at = woken allowed.0 body now in
      let admitting =
        admit verify_passphrase digest check unseal stamp l required counted client_ip body username
          secret at in
      let within = else_of (not allowed.1) (counted, too_many) (admitting found) u refl h in
      let proved = admitted counted client_ip body username secret at u found within.1 in
      let row =
        row_of-verify_login verify_passphrase s.accounts username body.passphrase u proved.0 in
      let known = ap id_in (row_of-username s.accounts username u row) in
      let stored =
        if_Stores verify_passphrase digest check unseal stamp l required s.accounts body secret at u
          (not allowed.1) (counted, too_many) (admitting found) (none_some u)
          (subst
            (λ o.
              Stores verify_passphrase digest check unseal stamp l required s.accounts body secret
                at u (admitting o))
            (sym proved.0)
            (admit-Stores verify_passphrase digest check unseal stamp l required counted client_ip
              body username secret at u known))
          h in
      (not-eq-false allowed.1 within.0, proved.0, proved.1, proved.2, stored.0, stored.1)
