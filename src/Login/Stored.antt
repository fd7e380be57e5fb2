-- ===== src/Login/Stored.antt =====
-- What a sign-in that issues a token stores.
use agro.Base.{
  ℕ, ◌≡◌, refl, Bool, true, false, ◌&&◌, not, Option, none, some, Text, trim, if◌then◌else◌, ◌∙◌,
  sym, ap, subst, ◌++◌, ◌∷◌, [], ◌/◌,
}
use agro.Factor.{
  User, Accounts, TotpOutcome, accepted, accepted_recovery_code, rejected, replayed, not_enrolled,
  is_satisfied, is_blank, or_empty, totp_is_confirmed, row_of, id_in,
}
use agro.Login.Kept.{Kept, verify_totp-Kept, none_some}
use agro.Login.Issued.{minted, mint_row}
use agro.Login.{allow_second_factor}
use agro.Login.Tokens.{Lifetimes}
use agro.Login.SignIn.{
  LoginBody, State, Reply, too_many, not_active, totp_required, totp_rejected, issued, label_of,
  handed_out, issue, checked, check_code, admit, note_outcome, failed_login,
}

abbrev pub issued_to : Reply → Option User
issued_to (issued u secret owed) = some u
issued_to _ = none

abbrev pub issued_secret : Reply → Option Text
issued_secret (issued u secret owed) = some secret
issued_secret _ = none

abbrev pub given : State × Reply → Option User
given answered = issued_to answered.1

module _ (verify_passphrase : Text → Text → Bool) (digest : Text → Text)
    (check : Text → Text → ℕ → Option ℕ) (unseal : Text → Option Text) (stamp : ℕ → Text)
    (l : Lifetimes) (required : Bool) where
  -- Where an answer issues a token, the token's own row is the one row that the table of tokens
  -- has more than that of `a`.
  abbrev pub Stores : Accounts → LoginBody → Text → ℕ → User → State × Reply → Type 0
  Stores a body secret now u answered =
      given answered ≡ some u
      → (issued_secret answered.1 ≡ some secret)
        × (answered.0.accounts.app_passwords
            ≡ a.app_passwords ++ minted digest l u (label_of body.label) secret now ∷ [])

  pub if_Stores :
      (a : Accounts) (body : LoginBody) (secret : Text) (now : ℕ) (u : User) (c : Bool)
      (p q : State × Reply)
      → Stores a body secret now u p
      → Stores a body secret now u q
      → Stores a body secret now u (if c then p else q)
  if_Stores a body secret now u true p q h k = h
  if_Stores a body secret now u false p q h k = k

  handed_out-Stores :
      (a : Accounts) (s : State) (body : LoginBody) (username secret : Text) (owed : Bool) (now : ℕ)
      (u : User)
      → Kept u.username a s.accounts
      → Stores a body secret now u (
          handed_out verify_passphrase digest check unseal stamp l required s username
            (label_of body.label)
            secret
            owed
            u
            (some (record s.accounts {
              app_passwords =
                  s.accounts.app_passwords
                  ++ minted digest l u (label_of body.label) secret now ∷ [];
            })))
  handed_out-Stores a s body username secret owed now u kept h =
      (refl, ap (λ rows. rows ++ minted digest l u (label_of body.label) secret now ∷ []) kept.0)

  issue-Stores :
      (a : Accounts) (s : State) (body : LoginBody) (username secret : Text) (now : ℕ) (u : User)
      → Kept u.username a s.accounts
      → id_in (row_of a u.username) ≡ some u.id
      → Stores a body secret now u (
          issue verify_passphrase digest check unseal stamp l required s body username secret now u)
  issue-Stores a s body username secret now u kept known =
      let owed = u.is_admin && required && not (totp_is_confirmed s.accounts u.username) in
      let label = label_of body.label in
      rw (mint_row digest l s.accounts u.username label secret now u (kept.1 ∙ known))
        (handed_out-Stores a s body username secret owed now u kept)

  note_outcome-accounts :
      (username : Text) (o : TotpOutcome) (s : State)
      → (note_outcome username o s).accounts ≡ s.accounts
  note_outcome-accounts username accepted s = refl
  note_outcome-accounts username accepted_recovery_code s = refl
  note_outcome-accounts username rejected s = refl
  note_outcome-accounts username replayed s = refl
  note_outcome-accounts username not_enrolled s = refl

  check_code-Stores :
      (s : State) (client_ip : Text) (body : LoginBody) (username secret : Text) (now : ℕ)
      (u : User)
      → id_in (row_of s.accounts u.username) ≡ some u.id
      → Stores s.accounts body secret now u (
          check_code verify_passphrase digest check unseal stamp l required s client_ip body
            username secret now u)
  check_code-Stores s client_ip body username secret now u known =
      let a = s.accounts in
      let allowed = allow_second_factor s.rate_limiter client_ip u.username now in
      let outcome = checked verify_passphrase digest check unseal stamp l required s body now u in
      let counted = record s { rate_limiter = allowed.0 } in
      let noted = note_outcome u.username outcome.1 (record counted { accounts = outcome.0 }) in
      let issuing =
        issue verify_passphrase digest check unseal stamp l required noted body username secret now
          u in
      let kept : Kept u.username a noted.accounts =
        subst (Kept u.username a)
          (sym
            (note_outcome-accounts u.username outcome.1 (record counted { accounts = outcome.0 })))
          (verify_totp-Kept digest check unseal a u.username (or_empty body.totp_code) (stamp now)
            u.username (now / 1000)) in
      if_Stores a body secret now u (not allowed.1) (counted, too_many)
        (if is_satisfied outcome.1 then issuing else (noted, totp_rejected)) (none_some u)
        (if_Stores a body secret now u (is_satisfied outcome.1) issuing (noted, totp_rejected)
          (issue-Stores a noted body username secret now u kept known) (none_some u))

  pub admit-Stores :
      (s : State) (client_ip : Text) (body : LoginBody) (username secret : Text) (now : ℕ)
      (u : User)
      → id_in (row_of s.accounts u.username) ≡ some u.id
      → Stores s.accounts body secret now u (
          admit verify_passphrase digest check unseal stamp l required s client_ip body username
            secret now
            (some u))
  admit-Stores s client_ip body username secret now u known =
      let a = s.accounts in
      let issuing =
        issue verify_passphrase digest check unseal stamp l required s body username secret now u in
      let checking =
        check_code verify_passphrase digest check unseal stamp l required s client_ip body username
          secret now u in
      let blank = is_blank (trim (or_empty body.totp_code)) in
      let confirmed = totp_is_confirmed a u.username in
      let coded = if blank then (s, totp_required) else checking in
      if_Stores a body secret now u (not u.is_active) (failed_login username now s, not_active)
        (if not confirmed then issuing else coded) (none_some u)
        (if_Stores a body secret now u (not confirmed) issuing coded
          (issue-Stores a s body username secret now u (refl, refl) known)
          (if_Stores a body secret now u blank (s, totp_required) checking (none_some u)
            (check_code-Stores s client_ip body username secret now u known)))
