-- ===== src/Base/Order.antt =====
-- ORDER BY, and the row that it puts first.
use Prim.Native.Nat.{ℕ, ◌≤◌}
use mathlib.Core.Path.{◌≡◌, refl, sym, subst, ap, ◌∙◌}
use mathlib.Core.Bool.{Bool, true, false, not, ◌||◌}
use mathlib.Core.Logic.{inl, inr}
use mathlib.Core.Option.{Option, none, some}
use mathlib.Core.List.{List, [], ◌∷◌}
use mathlib.Core.List.{Memᴰ}
use mathlib.Core.List.Memᴰ.{head, tail, cases_cons}
use native.Mathlib.Omega.{arith}
use agro.Base.Tests.{if◌then◌else◌, Bool-cases, ltb}
use agro.Base.Lists.{All, head?}
use mathlib.Core.Option as Option
use agro.Base.Table.{select, any}

module _ {ℓ} {R : Type ℓ} where
  -- ORDER BY a column, ascending; equal rows stay in storage order.
  unfoldable pub insert_by : (R → ℕ) → R → List R → List R
  insert_by key r [] = r ∷ []
  insert_by key r (s ∷ rs) =
      let rest = insert_by key r rs in if ltb (key s) (key r) then s ∷ rest else r ∷ s ∷ rs

  unfoldable pub order_by : (R → ℕ) → List R → List R
  order_by key [] = []
  order_by key (r ∷ rs) = insert_by key r (order_by key rs)

  -- ORDER BY a column, descending.
  unfoldable pub insert_by_desc : (R → ℕ) → R → List R → List R
  insert_by_desc key r [] = r ∷ []
  insert_by_desc key r (s ∷ rs) =
      let rest = insert_by_desc key r rs in if ltb (key r) (key s) then s ∷ rest else r ∷ s ∷ rs

  unfoldable pub order_by_desc : (R → ℕ) → List R → List R
  order_by_desc key [] = []
  order_by_desc key (r ∷ rs) = insert_by_desc key r (order_by_desc key rs)

  pub All-map {κ μ} :
      (P : R → Type κ) (Q : R → Type μ) (rs : List R) → ((r : R) → P r → Q r) → All P rs → All Q rs
  All-map P Q [] f h = tt
  All-map P Q (r ∷ rs) f h = (f r h.0, All-map P Q rs f h.1)

  pub All-Mem : (rs : List R) → All (λ r. Memᴰ r rs) rs
  All-Mem [] = tt
  All-Mem (r ∷ rs) =
      (head refl, All-map (λ s. Memᴰ s rs) (λ s. Memᴰ s (r ∷ rs)) rs (λ s m. tail m) (All-Mem rs))

  pub All_of_Mem {κ} : (P : R → Type κ) (r : R) (rs : List R) → All P rs → Memᴰ r rs → P r
  All_of_Mem P r [] h m = elim m [ ]
  All_of_Mem P r (s ∷ rs) h (head e) = subst P (sym e) h.0
  All_of_Mem P r (s ∷ rs) h (tail m) = All_of_Mem P r rs h.1 m

  module _ (key : R → ℕ) where
    All-insert_by {κ} :
        (P : R → Type κ) (r : R) (rs : List R) → P r → All P rs → All P (insert_by key r rs)
    unfolding insert_by
    All-insert_by P r [] h k = (h, k)
    All-insert_by P r (s ∷ rs) h k = elim (Bool-cases (ltb (key s) (key r))) [
      | inl e ↦ rw e (k.0, All-insert_by P r rs h k.1)
      | inr e ↦ rw e (h, k)
    ]

    pub All-order_by {κ} : (P : R → Type κ) (rs : List R) → All P rs → All P (order_by key rs)
    unfolding order_by
    All-order_by P [] h = h
    All-order_by P (r ∷ rs) h = All-insert_by P r (order_by key rs) h.0 (All-order_by P rs h.1)

    -- The row is one of `rs`, and none of them has a smaller key; without a row there are none.
    abbrev pub IsEarliest : List R → Option R → Type ℓ
    IsEarliest rs none = rs ≡ []
    IsEarliest rs (some r) = Memᴰ r rs × All (λ s. key r ≤ key s) rs

    insert_by-IsEarliest :
        (r : R) (rs sorted : List R)
        → IsEarliest rs (head? sorted)
        → IsEarliest (r ∷ rs) (head? (insert_by key r sorted))
    unfolding insert_by
    insert_by-IsEarliest r rs [] h =
        (head refl, (omega arith, subst (All (λ s. key r ≤ key s)) (sym h) tt))
    insert_by-IsEarliest r rs (s ∷ sorted) h = elim (Bool-cases (ltb (key s) (key r))) [
      | inl e ↦ rw e (tail h.0, (ground arith, h.1))
      | inr e ↦ rw e (head refl, (omega arith, All-map _ _ rs (λ x k. ground arith) h.1))
    ]

    pub order_by-IsEarliest : (rs : List R) → IsEarliest rs (head? (order_by key rs))
    unfolding order_by
    order_by-IsEarliest [] = refl
    order_by-IsEarliest (r ∷ rs) =
        insert_by-IsEarliest r rs (order_by key rs) (order_by-IsEarliest rs)

  -- Every selected row fits.
  pub All-select : (p : R → Bool) (rs : List R) → All (λ r. p r ≡ true) (select p rs)
  unfolding select
  All-select p [] = tt
  All-select p (r ∷ rs) = elim (Bool-cases (p r)) [
    | inl e ↦ rw e (e, All-select p rs)
    | inr e ↦ rw e (All-select p rs)
  ]

  pub Mem-select : (p : R → Bool) (r : R) (rs : List R) → Memᴰ r (select p rs) → Memᴰ r rs
  unfolding select
  Mem-select p r [] m = m
  Mem-select p r (s ∷ rs) m = elim (Bool-cases (p s)) [
    | inl e ↦
        elim (cases_cons (subst (λ b. Memᴰ r (if b then s ∷ select p rs else select p rs)) e m)) [
          | inl e' ↦ head e'
          | inr m' ↦ tail (Mem-select p r rs m')
        ]
    | inr e ↦
        tail
          (Mem-select p r rs (subst (λ b. Memᴰ r (if b then s ∷ select p rs else select p rs)) e m))
  ]

-- The first row of a sorted table is a row of the table.
any-insert_by_desc {ℓ} :
    {R : Type ℓ} (key : R → ℕ) (p : R → Bool) (r : R) (rows : List R)
    → any p (insert_by_desc key r rows) ≡ p r || any p rows
unfolding any insert_by_desc
any-insert_by_desc key p r [] = refl
any-insert_by_desc key p r (s ∷ rows) = elim (Bool-cases (ltb (key r) (key s))) [
  | inl e ↦ rw e (ground (arith, any-insert_by_desc key p r rows))
  | inr e ↦ rw e refl
]

pub any-order_by_desc {ℓ} :
    {R : Type ℓ} (key : R → ℕ) (p : R → Bool) (rows : List R)
    → any p (order_by_desc key rows) ≡ any p rows
unfolding any order_by_desc
any-order_by_desc key p [] = refl
any-order_by_desc key p (r ∷ rows) =
    any-insert_by_desc key p r (order_by_desc key rows)
    ∙ ap (λ b. p r || b) (any-order_by_desc key p rows)

-- Without a first row no row fits, and what the first row satisfies some row satisfies.
pub none_first {ℓ} :
    {R : Type ℓ} (p : R → Bool) (rows : List R) → head? rows ≡ none → any p rows ≡ false
unfolding any
none_first p [] e = refl
none_first p (r ∷ rows) e = ground arith

pub some_first {ℓ} :
    {R : Type ℓ} (p : R → Bool) (rows : List R) (r : R)
    → head? rows ≡ some r
    → p r ≡ true
    → any p rows ≡ true
unfolding any
some_first p [] r e h = ground arith
some_first p (s ∷ rows) r e h =
    let fits : p s ≡ true = ap p (Option.some-injective s r e) ∙ h in rw fits refl

pub first_fits {ℓ} :
    {R : Type ℓ} (p : R → Bool) (rows : List R) (r : R)
    → any (λ s. not (p s)) rows ≡ false
    → head? rows ≡ some r
    → p r ≡ true
first_fits p rows r all_fit e = elim (Bool-cases (p r)) [
  | inl k ↦ k
  | inr k ↦ let misfit = some_first (λ s. not (p s)) rows r e (ap not k) in ground arith
]
