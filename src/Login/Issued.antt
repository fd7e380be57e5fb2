-- ===== src/Login/Issued.antt =====
-- A minted token, presented.
use agro.Base.{
  ℕ, ◌≡◌, refl, ap, ◌∙◌, ◌+◌, ◌*◌, true, false, List, [], ◌∷◌, ◌++◌, none, some, Text, same, select,
  any, same_refl, select-append, take, trim, head?, if◌then◌else◌, arith,
}
use mathlib.Core.Option as Option
use agro.Factor.{User, Token, Accounts, is_blank, row_of, id_in}
use agro.Login.Tokens.{
  Lifetimes, token_prefix_len, day, has_id, hash_token, token_prefix, mint_device_token,
  is_candidate, token_has_expired, accept_token, account_for_token,
}

-- The row that stands for a fresh secret.
abbrev pub minted : (Text → Text) → Lifetimes → User → Text → Text → ℕ → Token
minted digest l u label secret now = record {
  user_id = u.id;
  token_hash = hash_token digest secret;
  token_prefix = take token_prefix_len secret;
  label = trim label;
  created_at = now;
  expires_at = Option.map (λ days. now + days * day) l.token_ttl_days;
  last_used_at = none;
}

pub mint_row :
    (digest : Text → Text) (l : Lifetimes) (a : Accounts) (username label secret : Text) (now : ℕ)
    (u : User)
    → id_in (row_of a username) ≡ some u.id
    → mint_device_token digest l a username label secret now
      ≡ some
          (record a { app_passwords = a.app_passwords ++ minted digest l u label secret now ∷ [] })
unfolding mint_device_token
mint_row digest l a username label secret now u found = rw (mint_device_token, found) refl

-- No row of the table before is a candidate for a secret of a new hash.
select-candidates_none :
    (digest : Text → Text) (b : Accounts) (secret : Text) (rows : List Token)
    → any (λ t. same t.token_hash (hash_token digest secret)) rows ≡ false
    → select (is_candidate digest b secret) rows ≡ []
unfolding select any
select-candidates_none digest b secret [] new = refl
select-candidates_none digest b secret (t ∷ rows) new =
    ground (arith, select-candidates_none digest b secret rows)

any_user :
    (id : Text) (users : List User) (u : User)
    → head? (select (has_id id) users) ≡ some u
    → any (has_id id) users ≡ true
unfolding select any
any_user id [] u h = ground arith
any_user id (v ∷ users) u h = ground (arith, any_user id users u)

-- Its own row is a candidate.
minted-is_candidate :
    (digest : Text → Text) (l : Lifetimes) (b : Accounts) (u : User) (label secret : Text) (now : ℕ)
    → head? (select (has_id u.id) b.users) ≡ some u
    → trim secret ≡ secret
    → same (digest secret) [] ≡ false
    → is_candidate digest b secret (minted digest l u label secret now) ≡ true
unfolding token_prefix hash_token
minted-is_candidate digest l b u label secret now known whole filled =
    rw
      (
        whole,
        filled,
        any_user u.id b.users u known,
        same_refl (take token_prefix_len secret),
        same_refl (digest secret),
      )
      refl

-- A fresh secret leads to its own row.
found_minted :
    (digest : Text → Text) (l : Lifetimes) (b : Accounts) (rows : List Token) (u : User)
    (label secret : Text) (now : ℕ)
    → head? (select (has_id u.id) b.users) ≡ some u
    → trim secret ≡ secret
    → same (digest secret) [] ≡ false
    → any (λ t. same t.token_hash (hash_token digest secret)) rows ≡ false
    → head?
        (select (is_candidate digest b secret) (rows ++ minted digest l u label secret now ∷ []))
      ≡ some (minted digest l u label secret now)
unfolding select
found_minted digest l b rows u label secret now known whole filled new =
    rw
      (
        select-append (is_candidate digest b secret) rows (minted digest l u label secret now ∷ []),
        select-candidates_none digest b secret rows new,
        minted-is_candidate digest l b u label secret now known whole filled,
      )
      refl

accepted :
    (digest : Text → Text) (l : Lifetimes) (b : Accounts) (u : User) (now : ℕ) (t : Token)
    → row_of b u.username ≡ some u
    → head? (select (has_id t.user_id) b.users) ≡ some u
    → token_has_expired l now t ≡ false
    → (accept_token digest l b now (some t)).1 ≡ some (u, t.label)
unfolding accept_token
accepted digest l b u now t again known alive = rw (alive, known, again) refl

presented :
    (digest : Text → Text) (l : Lifetimes) (b : Accounts) (secret : Text) (now : ℕ)
    → trim secret ≡ secret
    → is_blank secret ≡ false
    → account_for_token digest l b secret now
      ≡ accept_token digest l b now (head? (select (is_candidate digest b secret) b.app_passwords))
unfolding account_for_token
presented digest l b secret now whole filled =
    let found =
      accept_token digest l b now (head? (select (is_candidate digest b secret) b.app_passwords)) in
    ap (λ c. if c then (b, none) else found) (ap is_blank whole ∙ filled)

-- A device token minted for an account stands for that account when it is presented, under its
-- trimmed label, as long as it has not expired: for an account of the table that its id and its
-- username find, and a secret that is not empty and has no outer blanks, of a hash that is not empty
-- and that no row of the table has.
pub mint_device_token-account_for_token :
    (digest : Text → Text) (l : Lifetimes) (a : Accounts) (username label secret : Text)
    (now later : ℕ) (u : User)
    → row_of a username ≡ some u
    → row_of a u.username ≡ some u
    → head? (select (has_id u.id) a.users) ≡ some u
    → trim secret ≡ secret
    → is_blank secret ≡ false
    → same (digest secret) [] ≡ false
    → any (λ t. same t.token_hash (hash_token digest secret)) a.app_passwords ≡ false
    → token_has_expired l later (minted digest l u label secret now) ≡ false
    → Option.map
        (λ b. (account_for_token digest l b secret later).1)
        (mint_device_token digest l a username label secret now)
      ≡ some (some (u, trim label))
mint_device_token-account_for_token digest l a username label secret now later u found again known
      whole filled hashed new alive =
    let row = minted digest l u label secret now in
    let b = record a { app_passwords = a.app_passwords ++ row ∷ [] } in
    let own = found_minted digest l b a.app_passwords u label secret now known whole hashed new in
    ap (Option.map (λ c. (account_for_token digest l c secret later).1))
      (mint_row digest l a username label secret now u (ap id_in found))
    ∙ ap some (
        ap (λ r. r.1) (presented digest l b secret later whole filled)
        ∙ ap (λ o. (accept_token digest l b later o).1) own
        ∙ accepted digest l b u later row again known alive)
