-- ===== src/Login/Expiry.antt =====
-- The sweep of expired tokens against the check of a presented one.
use agro.Base.{
  ℕ, ◌≡◌, refl, ap, ◌∙◌, ◌≤◌, ◌+◌, ◌-◌, ◌*◌, ◌/◌, Bool, true, false, ◌&&◌, ◌||◌, not, List, [], ◌∷◌,
  Option, none, some, Text, same, any, select, delete, count, leb, ltb, ◌==◌, head?, Bool-cases,
  inl, inr, trim, if◌then◌else◌, arith,
}
use agro.Factor.{User, Token, Accounts, is_blank, row_of}
use mathlib.Core.Option as Option
use agro.Login.Tokens.{
  Lifetimes, is_past, is_before, seen_at, day, token_has_expired, sweep_expired_tokens,
  is_candidate, has_id, hash_token, token_prefix, accept_token, touch_token_if_stale,
  account_for_token,
}

-- What the two statements of the sweep delete.
unfoldable pub is_swept : Lifetimes → ℕ → Token → Bool
is_swept l now t =
    is_before now t.expires_at
    || (not (l.token_idle_days == 0) && ltb (seen_at t + l.token_idle_days * day) now)

is_before-is_past : (now : ℕ) (e : Option ℕ) → is_before now e ≡ true → is_past now e ≡ true
is_before-is_past now none hyp = hyp
is_before-is_past now (some e) hyp = ground arith

days_past :
    (idle seen now : ℕ) → ltb (seen + idle * day) now ≡ true → leb idle ((now - seen) / day) ≡ true
days_past idle seen now hyp = ground arith

or_mono :
    (a b c d e : Bool)
    → (a ≡ true → b ≡ true)
    → (d ≡ true → e ≡ true)
    → (a || (not c && d)) ≡ true
    → (b || (not c && e)) ≡ true
or_mono a b c d e f g hyp = ground (arith, f, g)

is_swept-token_has_expired :
    (l : Lifetimes) (now : ℕ) (t : Token)
    → is_swept l now t ≡ true
    → token_has_expired l now t ≡ true
unfolding is_swept token_has_expired
is_swept-token_has_expired l now t hyp =
    or_mono (is_before now t.expires_at) (is_past now t.expires_at) (l.token_idle_days == 0)
      (ltb (seen_at t + l.token_idle_days * day) now)
      (leb l.token_idle_days ((now - seen_at t) / day)) (is_before-is_past now t.expires_at)
      (days_past l.token_idle_days (seen_at t) now) hyp

-- The two statements of the sweep delete the rows that one test selects.
delete_twice :
    {R : Type 0} (p q : R → Bool) (rs : List R)
    → delete q (delete p rs) ≡ delete (λ r. p r || (not false && q r)) rs
unfolding delete
delete_twice p q [] = refl
delete_twice p q (r ∷ rs) = ground (arith, delete_twice p q rs)

delete_none :
    {R : Type 0} (p q : R → Bool) (rs : List R)
    → delete p rs ≡ delete (λ r. p r || (not true && q r)) rs
unfolding delete
delete_none p q [] = refl
delete_none p q (r ∷ rs) = ground (arith, delete_none p q rs)

sweep_deletes :
    (l : Lifetimes) (now : ℕ) (a : Accounts)
    → (sweep_expired_tokens l now a).app_passwords ≡ delete (is_swept l now) a.app_passwords
unfolding sweep_expired_tokens is_swept
sweep_deletes l now a =
    elim ((l.token_idle_days == 0))
      as (λ c.
        (if c
          then delete (λ t. is_before now t.expires_at) a.app_passwords
          else delete (λ t. ltb (seen_at t + l.token_idle_days * day) now)
              (delete (λ t. is_before now t.expires_at) a.app_passwords))
        ≡ delete
            (λ t.
              is_before now t.expires_at
              || (not c && ltb (seen_at t + l.token_idle_days * day) now))
            a.app_passwords) [
              | true ↦
                  delete_none (λ t. is_before now t.expires_at)
                    (λ t. ltb (seen_at t + l.token_idle_days * day) now) a.app_passwords
              | false ↦
                  delete_twice (λ t. is_before now t.expires_at)
                    (λ t. ltb (seen_at t + l.token_idle_days * day) now) a.app_passwords
            ]

select-delete_none :
    {R : Type 0} (p q : R → Bool) (rs : List R) → count p rs ≤ 0 → select p (delete q rs) ≡ []
unfolding select delete count
select-delete_none p q [] h = refl
select-delete_none p q (r ∷ rs) h = ground (arith, select-delete_none p q rs)

count-tail :
    {R : Type 0} (p : R → Bool) (r : R) (rs : List R)
    → p r ≡ true
    → count p (r ∷ rs) ≤ 1
    → count p rs ≤ 0
unfolding count
count-tail p r rs e few = ground arith

count-others :
    {R : Type 0} (p : R → Bool) (r : R) (rs : List R) → count p (r ∷ rs) ≤ 1 → count p rs ≤ 1
unfolding count
count-others p r rs few = ground arith

-- Where at most one row is selected, deleting rows that a reading takes for missing does not
-- change what is read.
head-delete :
    {R Y : Type 0} (f : Option R → Y) (p q : R → Bool) (rs : List R)
    → count p rs ≤ 1
    → ((r : R) → q r ≡ true → f (some r) ≡ f none)
    → f (head? (select p (delete q rs))) ≡ f (head? (select p rs))
unfolding select delete
head-delete f p q [] few lost = refl
head-delete f p q (r ∷ rs) few lost = elim (Bool-cases (p r)) [
  | inl e ↦ elim (Bool-cases (q r)) [
    | inl d ↦ rw (e, d, select-delete_none p q rs (count-tail p r rs e few), lost r d) refl
    | inr d ↦ rw (e, d, e) refl
  ]
  | inr e ↦ elim (Bool-cases (q r)) [
    | inl d ↦ rw (e, d, head-delete f p q rs (count-others p r rs few) lost) refl
    | inr d ↦ rw (e, d, e, head-delete f p q rs (count-others p r rs few) lost) refl
  ]
]

count_mono :
    {R : Type 0} (p q : R → Bool) (rs : List R)
    → ((r : R) → p r ≡ true → q r ≡ true)
    → count p rs ≤ count q rs
unfolding count
count_mono p q [] h = omega arith
count_mono p q (r ∷ rs) h = ground (arith, count_mono p q rs h, h r)

and_last : (a b c d : Bool) → (a && b && c && d) ≡ true → d ≡ true
and_last a b c d h = ground arith

accept_expired :
    (digest : Text → Text) (l : Lifetimes) (a : Accounts) (now : ℕ) (t : Token)
    → is_swept l now t ≡ true
    → (accept_token digest l a now (some t)).1 ≡ (accept_token digest l a now none).1
unfolding accept_token
accept_expired digest l a now t swept = rw (is_swept-token_has_expired l now t swept) refl

few_candidates :
    (digest : Text → Text) (a : Accounts) (token : Text)
    → ((hash : Text) → count (λ t. same t.token_hash hash) a.app_passwords ≤ 1)
    → count (is_candidate digest a token) a.app_passwords ≤ 1
few_candidates digest a token unique =
    let hash = hash_token digest token in
    let kept =
      count_mono (is_candidate digest a token) (λ t. same t.token_hash hash) a.app_passwords
        (λ t.
          and_last (same t.token_prefix (token_prefix token)) (not (same t.token_hash []))
            (any (has_id t.user_id) a.users) (same t.token_hash hash)) in
    let one = unique hash in omega arith

-- Two tests of one condition agree where their branches do.
if_agree :
    {X Y : Type 0} (c : Bool) (p r q s : X × Y)
    → p.1 ≡ r.1
    → q.1 ≡ s.1
    → (if c then p else q).1 ≡ (if c then r else s).1
if_agree true p r q s e d = e
if_agree false p r q s e d = d

abbrev account_of : Accounts → Token → Option (User × Text)
account_of a t = elim (head? (select (has_id t.user_id) a.users)) [
  | none ↦ none
  | some u ↦ Option.map (λ account. (account, t.label)) (row_of a u.username)
]

read_swept :
    (digest : Text → Text) (l : Lifetimes) (a : Accounts) (now : ℕ) (o : Option Token)
    → (accept_token digest l (sweep_expired_tokens l now a) now o).1
      ≡ (accept_token digest l a now o).1
unfolding accept_token sweep_expired_tokens
read_swept digest l a now none = refl
read_swept digest l a now (some t) =
    if_agree (token_has_expired l now t) (sweep_expired_tokens l now a, none) (a, none)
      (touch_token_if_stale now t (sweep_expired_tokens l now a), account_of a t)
      (touch_token_if_stale now t a, account_of a t) refl refl

found_swept :
    (digest : Text → Text) (l : Lifetimes) (a : Accounts) (token : Text) (now : ℕ)
    → ((hash : Text) → count (λ t. same t.token_hash hash) a.app_passwords ≤ 1)
    → (accept_token digest l (sweep_expired_tokens l now a) now (
        head?
          (select (is_candidate digest a token) (sweep_expired_tokens l now a).app_passwords))).1
      ≡ (accept_token digest l a now
          (head? (select (is_candidate digest a token) a.app_passwords))).1
unfolding sweep_expired_tokens
found_swept digest l a token now unique =
    let read = λ (rows : List Token).
      (accept_token digest l a now (head? (select (is_candidate digest a token) rows))).1 in
    read_swept digest l a now
      (head? (select (is_candidate digest a token) (sweep_expired_tokens l now a).app_passwords))
    ∙ ap read (sweep_deletes l now a)
    ∙ head-delete (λ o. (accept_token digest l a now o).1) (is_candidate digest a token)
        (is_swept l now) a.app_passwords (few_candidates digest a token unique)
        (accept_expired digest l a now)

-- Who a token stands for is the same before and after a sweep, at the same instant, where no two
-- rows of the table have the same hash: the sweep deletes nothing that would still be accepted and
-- keeps everything that would.
pub account_for_token-sweep_expired_tokens :
    (digest : Text → Text) (l : Lifetimes) (a : Accounts) (token : Text) (now : ℕ)
    → ((hash : Text) → count (λ t. same t.token_hash hash) a.app_passwords ≤ 1)
    → (account_for_token digest l (sweep_expired_tokens l now a) token now).1
      ≡ (account_for_token digest l a token now).1
unfolding account_for_token sweep_expired_tokens
account_for_token-sweep_expired_tokens digest l a token now unique =
    if_agree (is_blank (trim token)) (sweep_expired_tokens l now a, none) (a, none)
      (accept_token digest l (sweep_expired_tokens l now a) now
        (head? (select (is_candidate digest a token) (sweep_expired_tokens l now a).app_passwords)))
      (accept_token digest l a now (head? (select (is_candidate digest a token) a.app_passwords)))
      refl (found_swept digest l a token now unique)
