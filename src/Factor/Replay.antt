-- ===== src/Factor/Replay.antt =====
-- A one-time password and a recovery code are good once: `verify_totp` of src/db_identity/totp.rs.
use agro.Base.{
  ℕ, ◌<◌, ◌≡◌, ◌≢◌, refl, sym, ap, ◌∙◌, true, false, List, [], ◌∷◌, arith, Option, none, some, Text,
  same, trim, any, ltb, All, All-update_where, Bool-cases, All-update_fits, All-map, subst, ◌⊎◌,
  to_lowercase, inl, inr, any-eq-false, ltb-count,
}
use agro.Factor.{
  User, Accounts, TotpOutcome, accepted, named, is_new, is_acceptable, totp_secret_column,
  totp_is_confirmed, verify, take_step, verify_totp, when_enrolled, with_secret,
  spend_recovery_code,
}

-- One call of `verify_totp`.
pub record Attempt : Type 0 where
  pub username : Text
  pub code : Text
  pub now : ℕ
  pub stamp : Text

module _ (digest : Text → Text) (check : Text → Text → ℕ → Option ℕ)
    (unseal : Text → Option Text) where
  abbrev pub attempt : Accounts → Attempt → Accounts × TotpOutcome
  attempt a t = verify_totp digest check unseal a t.username t.code t.now t.stamp

  unfoldable pub run : Accounts → List Attempt → Accounts
  run a [] = a
  run a (t ∷ later) = run (attempt a t).0 later

  -- The account has accepted the step or a later one.
  abbrev HasPassed : Text → ℕ → User → Type 0
  HasPassed username step u = named username u ≡ true → is_new step u.totp_last_step ≡ false

  abbrev Passed : Text → ℕ → Accounts → Type 0
  Passed username step a = All (HasPassed username step) a.users

  -- The step whose password an attempt presents.
  abbrev opened : Option Text → Option Text
  opened none = none
  opened (some sealed) = unseal sealed

  abbrev verified : Attempt → Option Text → Option ℕ
  verified t none = none
  verified t (some secret) = verify digest check unseal secret t.code t.now

  abbrev pub step_of : Accounts → Attempt → Option ℕ
  step_of a t = verified t (opened (totp_secret_column a t.username))

  abbrev Untouched : Accounts → Attempt → Accounts × TotpOutcome → Type 0
  Untouched a t r = (r.0.users ≡ a.users) × (r.1 ≢ accepted)

  abbrev Taken : Accounts → Attempt → Option ℕ → Accounts × TotpOutcome → Type 0
  Taken a t step r =
      (s : ℕ) × (step ≡ some s) × (r ≡ take_step digest check unseal a t.username (some s))

  step-cases :
      (a : Accounts) (t : Attempt) (step : Option ℕ)
      → Untouched a t (take_step digest check unseal a t.username step)
        ⊎ Taken a t step (take_step digest check unseal a t.username step)
  step-cases a t none = inl (refl, λ h. ground arith)
  step-cases a t (some s) = inr (s, refl, refl)

  secret-cases :
      (a : Accounts) (t : Attempt) (secret : Option Text)
      → Untouched a t (with_secret digest check unseal a t.username t.code t.now secret)
        ⊎ Taken a t
            (verified t secret)
            (with_secret digest check unseal a t.username t.code t.now secret)
  secret-cases a t none = inl (refl, λ h. ground arith)
  secret-cases a t (some secret) = step-cases a t (verified t (some secret))

  spend-users :
      (a : Accounts) (username code stamp : Text)
      → (spend_recovery_code digest a username code stamp).0.users ≡ a.users
  unfolding spend_recovery_code
  spend-users a username code stamp = ground arith

  pub attempt-cases :
      (a : Accounts) (t : Attempt)
      → Untouched a t (attempt a t) ⊎ Taken a t (step_of a t) (attempt a t)
  unfolding verify_totp
  attempt-cases a t = with_sealed (totp_secret_column a t.username)
    where
      with_sealed :
          (sealed : Option Text)
          → Untouched a t
              (when_enrolled digest check unseal a t.username t.code t.now t.stamp sealed)
            ⊎ Taken a t
                (verified t (opened sealed))
                (when_enrolled digest check unseal a t.username t.code t.now t.stamp sealed)
      with_sealed none = inl (refl, λ h. ground arith)
      with_sealed (some sealed) = elim (Bool-cases (totp_is_confirmed a t.username)) [
        | inr e ↦ rw e (inl (refl, λ h. ground arith))
        | inl e ↦ elim (Bool-cases (spend_recovery_code digest a t.username t.code t.stamp).1) [
          | inl k ↦ rw (e, k) (inl (spend-users a t.username t.code t.stamp, λ h. ground arith))
          | inr k ↦ rw (e, k) (secret-cases a t (unseal sealed))
        ]
      ]

  moved_on :
      (last : Option ℕ) (step next : ℕ)
      → is_new next last ≡ true
      → is_new step last ≡ false
      → is_new step (some next) ≡ false
  moved_on none step next h k = ground arith
  moved_on (some last) step next h k = ground arith

  attempt-Passed :
      (a : Accounts) (t : Attempt) (username : Text) (step : ℕ)
      → Passed username step a
      → Passed username step (attempt a t).0
  attempt-Passed a t username step h = elim (attempt-cases a t) [
    | inl untouched ↦ subst (All (HasPassed username step)) (sym untouched.0) h
    | inr taken ↦
        subst (λ r. Passed username step r.0) (sym taken.2)
          (All-update_fits (HasPassed username step) (is_acceptable t.username taken.0) _ a.users
            (λ u fits passed same_user.
              moved_on u.totp_last_step step taken.0 (ground arith) (passed same_user))
            h)
  ]

  run-Passed :
      (a : Accounts) (later : List Attempt) (username : Text) (step : ℕ)
      → Passed username step a
      → Passed username step (run a later)
  unfolding run
  run-Passed a [] username step h = h
  run-Passed a (t ∷ later) username step h =
      run-Passed (attempt a t).0 later username step (attempt-Passed a t username step h)

  accepted-Passed :
      (a : Accounts) (t : Attempt) (step : ℕ)
      → step_of a t ≡ some step
      → (attempt a t).1 ≡ accepted
      → Passed t.username step (attempt a t).0
  accepted-Passed a t step h k = elim (attempt-cases a t) [
    | inl untouched ↦ elim (untouched.1 k) [ ]
    | inr taken ↦
        let same_step : taken.0 ≡ step = ground arith in
        subst (λ n. Passed t.username n (attempt a t).0) same_step
          (subst (λ r. Passed t.username taken.0 r.0) (sym taken.2)
            (All-update_where (HasPassed t.username taken.0) (is_acceptable t.username taken.0) _
              a.users (λ u fits one. ground arith) (λ u fails one. ground arith)))
  ]

  not_new :
      (last : Option ℕ) (past step : ℕ)
      → ltb past step ≡ false
      → is_new past last ≡ false
      → is_new step last ≡ false
  not_new none past step h k = ground arith
  not_new (some last) past step h k = ground arith

  not_acceptable :
      (username : Text) (u : User) (past step : ℕ)
      → ltb past step ≡ false
      → HasPassed username past u
      → is_acceptable username step u ≡ false
  not_acceptable username u past step h has = elim (Bool-cases (named username u)) [
    | inl e ↦ ground (arith, not_new u.totp_last_step past step h (has e))
    | inr e ↦ ground arith
  ]

  accepted-is_later :
      (a : Accounts) (t : Attempt) (past step : ℕ)
      → Passed t.username past a
      → step_of a t ≡ some step
      → (attempt a t).1 ≡ accepted
      → past < step
  accepted-is_later a t past step passed h k = elim (attempt-cases a t) [
    | inl untouched ↦ elim (untouched.1 k) [ ]
    | inr taken ↦
        let same_step : taken.0 ≡ step = ground arith in
        elim (Bool-cases (ltb past step)) [
          | inl e ↦ ground arith
          | inr e ↦
              let none_fits : any (is_acceptable t.username step) a.users ≡ false =
                any-eq-false (is_acceptable t.username step) a.users (
                  All-map (HasPassed t.username past) _ a.users
                    (λ u has. not_acceptable t.username u past step e has) passed) in
              let took : (take_step digest check unseal a t.username (some step)).1 ≡ accepted =
                subst (λ n. (take_step digest check unseal a t.username (some n)).1 ≡ accepted)
                  same_step (ap (λ r. r.1) (sym taken.2) ∙ k) in
              ground (arith, ltb-count (is_acceptable t.username step) a.users)
        ]
  ]

  -- Once a password has been accepted for an account, then after any further attempts by anybody, a
  -- password of the same account is only accepted for a later step: none is accepted twice.
  pub verify_totp_no_replay :
      (a : Accounts) (first : Attempt) (between : List Attempt) (again : Attempt) (step next : ℕ)
      → to_lowercase (trim again.username) ≡ to_lowercase (trim first.username)
      → (attempt a first).1 ≡ accepted
      → step_of a first ≡ some step
      → step_of (run (attempt a first).0 between) again ≡ some next
      → (attempt (run (attempt a first).0 between) again).1 ≡ accepted
      → step < next
  verify_totp_no_replay a first between again step next one ok_first h k ok_again =
      accepted-is_later (run (attempt a first).0 between) again step next
        (All-map (HasPassed first.username step) (HasPassed again.username step)
          (run (attempt a first).0 between).users
          (λ u has same_user.
            has (subst (λ n. same (to_lowercase u.username) n ≡ true) one same_user))
          (run-Passed (attempt a first).0 between first.username step
            (accepted-Passed a first step h ok_first)))
        k ok_again
