-- ===== src/Factor/Recovery.antt =====
-- A recovery code is good once: `spend_recovery_code` and `verify_totp` of src/db_identity/totp.rs.
use agro.Base.{
  ℕ, ◌≡◌, ◌≢◌, refl, sym, ap, ◌∙◌, Bool, true, false, List, [], ◌∷◌, arith, Option, none, some,
  Text, trim, select, update, head?, All, All-update_where, All-update_fits, Bool-cases, inl, inr,
  ◌⊎◌, any-eq-false, ltb-count, subst,
}
use agro.Factor.{
  User, Accounts, TotpOutcome, accepted_recovery_code, named, row_of, id_in, is_good, is_blank,
  totp_secret_column, totp_is_confirmed, verify, take_step, verify_totp, when_enrolled, with_secret,
  spend_recovery_code, hash_recovery_code,
}
use agro.Factor.Replay.{Attempt, attempt, run, attempt-cases}

-- An update that changes no name and no id changes no account's id.
id_in-update :
    (username : Text) (q : User → Bool) (f : User → User) (rows : List User)
    → ((u : User) → (f u).username ≡ u.username)
    → ((u : User) → (f u).id ≡ u.id)
    → id_in (head? (select (named username) (update q f rows)))
      ≡ id_in (head? (select (named username) rows))
unfolding select update
id_in-update username q f [] h k = refl
id_in-update username q f (u ∷ rows) h k = elim (Bool-cases (q u)) [
  | inl e ↦ elim (Bool-cases (named username u)) [
    | inl e' ↦ rw (e, h u, e') (ap some (k u))
    | inr e' ↦ rw (e, h u, e') (id_in-update username q f rows h k)
  ]
  | inr e ↦ elim (Bool-cases (named username u)) [
    | inl e' ↦ rw (e, e') refl
    | inr e' ↦ rw (e, e') (id_in-update username q f rows h k)
  ]
]

module _ (digest : Text → Text) (check : Text → Text → ℕ → Option ℕ)
    (unseal : Text → Option Text) where
  abbrev try : Accounts → Attempt → Accounts × TotpOutcome
  try = attempt digest check unseal

  abbrev spent : Accounts → Attempt → Accounts × Bool
  spent a t = spend_recovery_code digest a t.username t.code t.stamp

  -- The account has no unused code with this digest.
  abbrev IsSpent : Option Text → Text → Accounts → Type 0
  IsSpent id hash a = All (λ c. is_good id hash c ≡ false) a.totp_recovery_codes

  abbrev Kept : Accounts → Accounts × TotpOutcome → Type 0
  Kept a r = (r.0.totp_recovery_codes ≡ a.totp_recovery_codes) × (r.1 ≢ accepted_recovery_code)

  abbrev Spent : Accounts → Attempt → Accounts × TotpOutcome → Type 0
  Spent a t r =
      ((spent a t).1 ≡ true) × (r.0.totp_recovery_codes ≡ (spent a t).0.totp_recovery_codes)

  step-Kept :
      (a : Accounts) (username : Text) (step : Option ℕ)
      → Kept a (take_step digest check unseal a username step)
  step-Kept a username none = (refl, λ h. ground arith)
  step-Kept a username (some s) = (refl, λ h. ground arith)

  secret-Kept :
      (a : Accounts) (t : Attempt) (secret : Option Text)
      → Kept a (with_secret digest check unseal a t.username t.code t.now secret)
  secret-Kept a t none = (refl, λ h. ground arith)
  secret-Kept a t (some secret) =
      step-Kept a t.username (verify digest check unseal secret t.code t.now)

  code-cases : (a : Accounts) (t : Attempt) → Kept a (try a t) ⊎ Spent a t (try a t)
  unfolding verify_totp
  code-cases a t = with_sealed (totp_secret_column a t.username)
    where
      with_sealed :
          (sealed : Option Text)
          → Kept a (when_enrolled digest check unseal a t.username t.code t.now t.stamp sealed)
            ⊎ Spent a t (when_enrolled digest check unseal a t.username t.code t.now t.stamp sealed)
      with_sealed none = inl (refl, λ h. ground arith)
      with_sealed (some sealed) = elim (Bool-cases (totp_is_confirmed a t.username)) [
        | inr e ↦ rw e (inl (refl, λ h. ground arith))
        | inl e ↦ elim (Bool-cases (spent a t).1) [
          | inl k ↦ rw (e, k) (inr (refl, refl))
          | inr k ↦ rw (e, k) (inl (secret-Kept a t (unseal sealed)))
        ]
      ]

  spent-IsSpent :
      (a : Accounts) (t : Attempt) (id : Option Text) (hash : Text)
      → IsSpent id hash a
      → IsSpent id hash (spent a t).0
  unfolding spend_recovery_code
  spent-IsSpent a t id hash h = elim (Bool-cases (is_blank (trim t.code))) [
    | inl e ↦ rw e h
    | inr e ↦ rw e (
        All-update_fits (λ c. is_good id hash c ≡ false) _ _ a.totp_recovery_codes
          (λ c fits k. ground arith) h)
  ]

  spent_now :
      (a : Accounts) (t : Attempt)
      → (spent a t).1 ≡ true
      → IsSpent (id_in (row_of a t.username)) (hash_recovery_code digest t.code) (spent a t).0
  unfolding spend_recovery_code
  spent_now a t k = elim (Bool-cases (is_blank (trim t.code))) [
    | inl e ↦ ground arith
    | inr e ↦
        rw e
          (All-update_where _ _ _ a.totp_recovery_codes (λ c fits. ground arith) (λ c fails. fails))
  ]

  not_spendable :
      (a : Accounts) (t : Attempt)
      → IsSpent (id_in (row_of a t.username)) (hash_recovery_code digest t.code) a
      → (spent a t).1 ≡ false
  unfolding spend_recovery_code
  not_spendable a t h =
      let good = is_good (id_in (row_of a t.username)) (hash_recovery_code digest t.code) in
      ground
        (arith, ltb-count good a.totp_recovery_codes, any-eq-false good a.totp_recovery_codes h)

  try-IsSpent :
      (a : Accounts) (t : Attempt) (id : Option Text) (hash : Text)
      → IsSpent id hash a
      → IsSpent id hash (try a t).0
  try-IsSpent a t id hash h = elim (code-cases a t) [
    | inl kept ↦ subst (All (λ c. is_good id hash c ≡ false)) (sym kept.0) h
    | inr s ↦ subst (All (λ c. is_good id hash c ≡ false)) (sym s.1) (spent-IsSpent a t id hash h)
  ]

  try-id :
      (a : Accounts) (t : Attempt) (username : Text)
      → id_in (row_of (try a t).0 username) ≡ id_in (row_of a username)
  try-id a t username = elim (attempt-cases digest check unseal a t) [
    | inl untouched ↦ ap (λ rows. id_in (head? (select (named username) rows))) untouched.0
    | inr taken ↦
        ap (λ r. id_in (row_of r.0 username)) taken.2
        ∙ id_in-update username _ _ a.users (λ u. refl) (λ u. refl)
  ]

  run-IsSpent :
      (a : Accounts) (later : List Attempt) (username : Text) (hash : Text)
      → IsSpent (id_in (row_of a username)) hash a
      → (let b = run digest check unseal a later in IsSpent (id_in (row_of b username)) hash b)
  unfolding run
  run-IsSpent a [] username hash h = h
  run-IsSpent a (t ∷ later) username hash h = run-IsSpent (try a t).0 later username hash (
      subst (λ id. IsSpent id hash (try a t).0) (sym (try-id a t username))
        (try-IsSpent a t (id_in (row_of a username)) hash h))

  -- Once a recovery code has been accepted for an account, then after any further attempts by
  -- anybody, a code of the same normalised digest is not accepted for that account as a recovery
  -- code again.
  pub recovery_code_once :
      (a : Accounts) (first : Attempt) (between : List Attempt) (again : Attempt)
      → again.username ≡ first.username
      → hash_recovery_code digest again.code ≡ hash_recovery_code digest first.code
      → (try a first).1 ≡ accepted_recovery_code
      → (try (run digest check unseal (try a first).0 between) again).1 ≢ accepted_recovery_code
  recovery_code_once a first between again one same_code h k = elim (code-cases after again) [
    | inl kept ↦ kept.1 k
    | inr s ↦ ground (arith, not_spendable after again again-IsSpent, s.0)
  ]
    where
      after : Accounts
      after = run digest check unseal (try a first).0 between

      first-IsSpent :
          IsSpent
            (id_in (row_of (try a first).0 first.username))
            (hash_recovery_code digest first.code)
            (try a first).0
      first-IsSpent = elim (code-cases a first) [
        | inl kept ↦ elim (kept.1 h) [ ]
        | inr s ↦
            subst (λ id. IsSpent id (hash_recovery_code digest first.code) (try a first).0)
              (sym (try-id a first first.username))
              (subst
                (All (λ c.
                  is_good (id_in (row_of a first.username)) (hash_recovery_code digest first.code) c
                  ≡ false))
                (sym s.1) (spent_now a first s.0))
      ]

      again-IsSpent :
          IsSpent (id_in (row_of after again.username)) (hash_recovery_code digest again.code) after
      again-IsSpent =
          subst
            (λ name.
              IsSpent (id_in (row_of after name)) (hash_recovery_code digest again.code) after)
            (sym one)
            (subst (λ hash. IsSpent (id_in (row_of after first.username)) hash after)
              (sym same_code)
              (run-IsSpent (try a first).0 between first.username
                (hash_recovery_code digest first.code) first-IsSpent))
