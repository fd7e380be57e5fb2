-- ===== src/Base/Merge.antt =====
-- Sorting two selections of a table whose rows stand in the order of their key.
use Prim.Native.Nat.{ℕ, ◌<◌}
use mathlib.Core.Path.{◌≡◌, refl, ap, ◌∙◌}
use mathlib.Core.Bool.{Bool, false, ◌&&◌, ◌||◌}
use mathlib.Core.Logic.{inl, inr}
use mathlib.Core.List.{List, [], ◌∷◌, ◌++◌}
use native.Mathlib.Omega.{arith}
use agro.Base.Tests.{Bool-cases}
use agro.Base.Lists.{All}
use agro.Base.Table.{select, All-append}
use agro.Base.Order.{insert_by, order_by, All-order_by}

pub All-select_of {ℓ κ} :
    {R : Type ℓ} (P : R → Type κ) (p : R → Bool) (rs : List R) → All P rs → All P (select p rs)
unfolding select
All-select_of P p [] h = tt
All-select_of P p (r ∷ rs) h = elim (Bool-cases (p r)) [
  | inl e ↦ rw e (h.0, All-select_of P p rs h.1)
  | inr e ↦ rw e (All-select_of P p rs h.1)
]

module _ {ℓ} {R : Type ℓ} (key : R → ℕ) where
  abbrev pub IsAbove : R → List R → Type 0
  IsAbove r = All (λ s. key r < key s)

  abbrev pub IsAscending : List R → Type 0
  IsAscending [] = Unit
  IsAscending (r ∷ rs) = IsAbove r rs × IsAscending rs

  insert_least : (r : R) (rs : List R) → IsAbove r rs → insert_by key r rs ≡ r ∷ rs
  unfolding insert_by
  insert_least r [] h = refl
  insert_least r (s ∷ rs) h = ground arith

  insert_above :
      (r s : R) (rs : List R) → key r < key s → insert_by key s (r ∷ rs) ≡ r ∷ insert_by key s rs
  unfolding insert_by
  insert_above r s rs h = ground arith

  -- A row below all the others comes first wherever it stood.
  order_by_least :
      (r : R) (rs ss : List R)
      → IsAbove r rs
      → IsAbove r ss
      → order_by key (rs ++ r ∷ ss) ≡ r ∷ order_by key (rs ++ ss)
  unfolding order_by
  order_by_least r [] ss h k = insert_least r (order_by key ss) (All-order_by key _ ss k)
  order_by_least r (s ∷ rs) ss h k =
      ap (insert_by key s) (order_by_least r rs ss h.1 k)
      ∙ insert_above r s (order_by key (rs ++ ss)) h.0

  -- Two selections that share no row, sorted together, are the selection of both.
  pub order_by-select :
      (p q : R → Bool) (rs : List R)
      → ((r : R) → p r && q r ≡ false)
      → IsAscending rs
      → order_by key (select p rs ++ select q rs) ≡ select (λ r. p r || q r) rs
  unfolding order_by select
  order_by-select p q [] apart up = refl
  order_by-select p q (r ∷ rs) apart up =
      let ih = order_by-select p q rs apart up.1 in
      let above_p = All-select_of (λ s. key r < key s) p rs up.0 in
      let above_q = All-select_of (λ s. key r < key s) q rs up.0 in
      let least =
        insert_least r (order_by key (select p rs ++ select q rs))
          (All-order_by key _ _ (All-append _ _ _ above_p above_q)) in
      elim (Bool-cases (p r)) [
        | inl e ↦ elim (Bool-cases (q r)) [
          | inl k ↦ absurd (ground (arith, apart r))
          | inr k ↦ rw (e, k) (least ∙ ap (λ t. r ∷ t) ih)
        ]
        | inr e ↦ elim (Bool-cases (q r)) [
          | inl k ↦
              rw (e, k)
                (order_by_least r (select p rs) (select q rs) above_p above_q ∙ ap (λ t. r ∷ t) ih)
          | inr k ↦ rw (e, k) ih
        ]
      ]

  IsAbove-append_one :
      (r s : R) (rs : List R) → IsAbove r rs → key r < key s → IsAbove r (rs ++ s ∷ [])
  IsAbove-append_one r s rs h k = All-append _ rs (s ∷ []) h (k, tt)

  -- A row above all of them keeps the order at the end.
  pub IsAscending-append :
      (rs : List R) (s : R)
      → IsAscending rs
      → All (λ r. key r < key s) rs
      → IsAscending (rs ++ s ∷ [])
  IsAscending-append [] s up below = (tt, tt)
  IsAscending-append (r ∷ rs) s up below =
      (IsAbove-append_one r s rs up.0 below.0, IsAscending-append rs s up.1 below.1)

  -- A selection of ordered rows is left as it is.
  pub order_by-select_one :
      (p : R → Bool) (rs : List R) → IsAscending rs → order_by key (select p rs) ≡ select p rs
  unfolding order_by select
  order_by-select_one p [] up = refl
  order_by-select_one p (r ∷ rs) up =
      let ih = order_by-select_one p rs up.1 in
      let above = All-select_of (λ s. key r < key s) p rs up.0 in
      elim (Bool-cases (p r)) [
        | inl e ↦ rw (e, ih) (insert_least r (select p rs) above)
        | inr e ↦ rw e ih
      ]
