-- ===== src/Base/Table.antt =====
-- A table of the database as the list of its rows in storage order, and the statements that read
-- and write it.
use Prim.Native.Nat.{ℕ, ◌+◌, ◌<◌}
use mathlib.Core.Path.{◌≡◌, refl}
use mathlib.Core.Bool.{Bool, true, false, ◌&&◌, ◌||◌, not}
use mathlib.Core.Logic.{inl, inr}
use mathlib.Core.List.{List, [], ◌∷◌, ◌++◌}
use native.Mathlib.Omega.{arith}
use agro.Base.Tests.{if◌then◌else◌, Bool-cases, ltb, ◌==◌}
use agro.Base.Lists.{All}

module _ {ℓ} {R : Type ℓ} where
  -- SELECT … WHERE p
  unfoldable pub select : (R → Bool) → List R → List R
  select p [] = []
  select p (r ∷ rs) = let rest = select p rs in if p r then r ∷ rest else rest

  -- DELETE … WHERE p
  unfoldable pub delete : (R → Bool) → List R → List R
  delete p [] = []
  delete p (r ∷ rs) = let rest = delete p rs in if p r then rest else r ∷ rest

  -- UPDATE … SET f WHERE p
  unfoldable pub update : (R → Bool) → (R → R) → List R → List R
  update p f [] = []
  update p f (r ∷ rs) = (if p r then f r else r) ∷ update p f rs

  -- EXISTS (SELECT … WHERE p)
  unfoldable pub any : (R → Bool) → List R → Bool
  any p [] = false
  any p (r ∷ rs) = p r || any p rs

  -- SELECT COUNT(*) … WHERE p, which is also how many rows a DELETE or UPDATE changes.
  unfoldable pub count : (R → Bool) → List R → ℕ
  count p [] = 0
  count p (r ∷ rs) = (if p r then 1 else 0) + count p rs

  -- INSERT OR IGNORE, where `key` holds of the rows with the same primary key.
  unfoldable pub insert_or_ignore : (R → Bool) → R → List R → List R
  unfolding any
  insert_or_ignore key r rs = if any key rs then rs else rs ++ r ∷ []

  -- INSERT OR REPLACE
  unfoldable pub insert_or_replace : (R → Bool) → R → List R → List R
  unfolding delete
  insert_or_replace key r rs = delete key rs ++ r ∷ []

  pub any-append : (p : R → Bool) (rs ss : List R) → any p (rs ++ ss) ≡ any p rs || any p ss
  unfolding any
  any-append p [] ss = refl
  any-append p (r ∷ rs) ss = ground (arith, any-append p rs ss)

  pub any-delete :
      (p q : R → Bool) (rs : List R) → any p (delete q rs) ≡ any (λ r. not (q r) && p r) rs
  unfolding any delete
  any-delete p q [] = refl
  any-delete p q (r ∷ rs) = ground (arith, any-delete p q rs)

  -- Rows that no test tells apart are counted alike.
  pub any-congr : (p q : R → Bool) (rs : List R) → All (λ r. p r ≡ q r) rs → any p rs ≡ any q rs
  unfolding any
  any-congr p q [] h = refl
  any-congr p q (r ∷ rs) h = ground (arith, any-congr p q rs h.1)

  pub any-eq-false : (p : R → Bool) (rs : List R) → All (λ r. p r ≡ false) rs → any p rs ≡ false
  unfolding any
  any-eq-false p [] h = refl
  any-eq-false p (r ∷ rs) h = ground (arith, any-eq-false p rs h.1)

  pub count-pos-any : (p : R → Bool) (rs : List R) → any p rs ≡ true → 0 < count p rs
  unfolding any count
  count-pos-any p [] h = ground arith
  count-pos-any p (r ∷ rs) h = ground (arith, count-pos-any p rs)

  pub count-zero : (p : R → Bool) (rs : List R) → any p rs ≡ false → count p rs ≡ 0
  unfolding any count
  count-zero p [] h = refl
  count-zero p (r ∷ rs) h = ground (arith, count-zero p rs)

  pub All-append {κ} : (P : R → Type κ) (rs ss : List R) → All P rs → All P ss → All P (rs ++ ss)
  All-append P [] ss h k = k
  All-append P (r ∷ rs) ss h k = (h.0, All-append P rs ss h.1 k)

  pub All-delete {κ} :
      (P : R → Type κ) (q : R → Bool) (rs : List R) → All P rs → All P (delete q rs)
  unfolding delete
  All-delete P q [] h = h
  All-delete P q (r ∷ rs) h = elim (Bool-cases (q r)) [
    | inl e ↦ rw e (All-delete P q rs h.1)
    | inr e ↦ rw e (h.0, All-delete P q rs h.1)
  ]

  pub All-update {κ} :
      (P : R → Type κ) (q : R → Bool) (f : R → R) (rs : List R)
      → ((r : R) → P r → P (f r))
      → All P rs
      → All P (update q f rs)
  unfolding update
  All-update P q f [] keep h = h
  All-update P q f (r ∷ rs) keep h = elim (Bool-cases (q r)) [
    | inl e ↦ rw e (keep r h.0, All-update P q f rs keep h.1)
    | inr e ↦ rw e (h.0, All-update P q f rs keep h.1)
  ]

  pub any-update :
      (p q : R → Bool) (f : R → R) (rs : List R)
      → any p (update q f rs) ≡ any (λ r. p (if q r then f r else r)) rs
  unfolding any update
  any-update p q f [] = refl
  any-update p q f (r ∷ rs) = rw (any-update p q f rs)

  -- What a row of the table satisfies may be assumed when it is tested.
  pub any-congr_of_All {κ} :
      (P : R → Type κ) (p q : R → Bool) (rs : List R)
      → ((r : R) → P r → p r ≡ q r)
      → All P rs
      → any p rs ≡ any q rs
  unfolding any
  any-congr_of_All P p q [] h a = refl
  any-congr_of_All P p q (r ∷ rs) h a = rw (h r a.0, any-congr_of_All P p q rs h a.1)

  pub any-select : (p q : R → Bool) (rs : List R) → any p (select q rs) ≡ any (λ r. q r && p r) rs
  unfolding any select
  any-select p q [] = refl
  any-select p q (r ∷ rs) = ground (arith, any-select p q rs)

  -- A test that does not look at the row.
  pub any-and_const :
      (c : Bool) (p : R → Bool) (rs : List R) → any (λ r. c && p r) rs ≡ c && any p rs
  unfolding any
  any-and_const c p [] = ground arith
  any-and_const c p (r ∷ rs) = ground (arith, any-and_const c p rs)

  pub any-pointwise : (p q : R → Bool) (rs : List R) → ((r : R) → p r ≡ q r) → any p rs ≡ any q rs
  unfolding any
  any-pointwise p q [] h = refl
  any-pointwise p q (r ∷ rs) h = rw (h r, any-pointwise p q rs h)

  pub count-eq-zero_iff : (p : R → Bool) (rs : List R) → (count p rs == 0) ≡ not (any p rs)
  unfolding any count
  count-eq-zero_iff p [] = refl
  count-eq-zero_iff p (r ∷ rs) = ground (arith, count-eq-zero_iff p rs)

  pub any-or : (p q : R → Bool) (rs : List R) → any (λ r. p r || q r) rs ≡ any p rs || any q rs
  unfolding any
  any-or p q [] = refl
  any-or p q (r ∷ rs) = ground (arith, any-or p q rs)

  pub any-le :
      (p q : R → Bool) (rs : List R)
      → ((r : R) → p r ≡ true → q r ≡ true)
      → any p rs ≡ true
      → any q rs ≡ true
  unfolding any
  any-le p q [] h e = e
  any-le p q (r ∷ rs) h e = ground (arith, h r, any-le p q rs h)

  pub All-insert_or_ignore {κ} :
      (P : R → Type κ) (key : R → Bool) (r : R) (rs : List R)
      → All P rs
      → P r
      → All P (insert_or_ignore key r rs)
  unfolding insert_or_ignore
  All-insert_or_ignore P key r rs h k = elim (Bool-cases (any key rs)) [
    | inl e ↦ rw e h
    | inr e ↦ rw e (All-append P rs (r ∷ []) h (k, tt))
  ]

  pub All-insert_or_replace {κ} :
      (P : R → Type κ) (key : R → Bool) (r : R) (rs : List R)
      → All P rs
      → P r
      → All P (insert_or_replace key r rs)
  unfolding insert_or_replace
  All-insert_or_replace P key r rs h k =
      All-append P (delete key rs) (r ∷ []) (All-delete P key rs h) (k, tt)

  pub any_none : (p : R → Bool) (rs : List R) → ((r : R) → p r ≡ false) → any p rs ≡ false
  unfolding any
  any_none p [] h = refl
  any_none p (r ∷ rs) h = rw (h r, any_none p rs h)

  pub any-delete_self : (p : R → Bool) (rs : List R) → any p (delete p rs) ≡ false
  unfolding any delete
  any-delete_self p [] = refl
  any-delete_self p (r ∷ rs) = ground (arith, any-delete_self p rs)

  -- A statement changes a row exactly when some row fits.
  pub ltb-count : (p : R → Bool) (rs : List R) → ltb 0 (count p rs) ≡ any p rs
  ltb-count p rs = ground (arith, count-eq-zero_iff p rs)

  -- A row is ignored the second time.
  pub insert_or_ignore_twice :
      (key : R → Bool) (r : R) (rs : List R)
      → key r ≡ true
      → insert_or_ignore key r (insert_or_ignore key r rs) ≡ insert_or_ignore key r rs
  unfolding insert_or_ignore any
  insert_or_ignore_twice key r rs h = elim (Bool-cases (any key rs)) [
    | inl e ↦ rw (e, e) refl
    | inr e ↦ rw (e, any-append key rs (r ∷ []), h, e) refl
  ]

  -- An UPDATE whose rows no longer fit it afterwards changes nothing the second time.
  pub update_twice :
      (p : R → Bool) (f : R → R) (rs : List R)
      → ((r : R) → p (f r) ≡ false)
      → update p f (update p f rs) ≡ update p f rs
  unfolding update
  update_twice p f [] h = refl
  update_twice p f (r ∷ rs) h = elim (Bool-cases (p r)) [
    | inl e ↦ rw (e, h r, update_twice p f rs h) refl
    | inr e ↦ rw (e, e, update_twice p f rs h) refl
  ]

  -- A count only sees what its test sees.
  pub count-pointwise :
      (p q : R → Bool) (rs : List R) → ((r : R) → p r ≡ q r) → count p rs ≡ count q rs
  unfolding count
  count-pointwise p q [] h = refl
  count-pointwise p q (r ∷ rs) h = rw (h r, count-pointwise p q rs h)

  pub count-append : (p : R → Bool) (rs ss : List R) → count p (rs ++ ss) ≡ count p rs + count p ss
  unfolding count
  count-append p [] ss = omega arith
  count-append p (r ∷ rs) ss = ground (arith, count-append p rs ss)

  -- What an UPDATE makes of the rows that fit, and what the others are.
  pub All-update_where {κ} :
      (P : R → Type κ) (q : R → Bool) (f : R → R) (rs : List R)
      → ((r : R) → q r ≡ true → P (f r))
      → ((r : R) → q r ≡ false → P r)
      → All P (update q f rs)
  unfolding update
  All-update_where P q f [] fits others = tt
  All-update_where P q f (r ∷ rs) fits others = elim (Bool-cases (q r)) [
    | inl e ↦ rw e (fits r e, All-update_where P q f rs fits others)
    | inr e ↦ rw e (others r e, All-update_where P q f rs fits others)
  ]

  pub All-update_fits {κ} :
      (P : R → Type κ) (q : R → Bool) (f : R → R) (rs : List R)
      → ((r : R) → q r ≡ true → P r → P (f r))
      → All P rs
      → All P (update q f rs)
  unfolding update
  All-update_fits P q f [] keep h = h
  All-update_fits P q f (r ∷ rs) keep h = elim (Bool-cases (q r)) [
    | inl e ↦ rw e (keep r e h.0, All-update_fits P q f rs keep h.1)
    | inr e ↦ rw e (h.0, All-update_fits P q f rs keep h.1)
  ]

  pub select-append :
      (p : R → Bool) (rs ss : List R) → select p (rs ++ ss) ≡ select p rs ++ select p ss
  unfolding select
  select-append p [] ss = refl
  select-append p (r ∷ rs) ss = ground (arith, select-append p rs ss)

  pub select-pointwise :
      (p q : R → Bool) (rs : List R) → ((r : R) → p r ≡ q r) → select p rs ≡ select q rs
  unfolding select
  select-pointwise p q [] h = refl
  select-pointwise p q (r ∷ rs) h = rw (h r, select-pointwise p q rs h) refl
