-- ===== src/Library/Evictions.antt =====
-- What an eviction leaves of an account's spool.
use agro.Base.{
  subst, sym, same_refl, ℕ, ◌+◌, ◌-◌, ◌≤◌, ◌≡◌, refl, ◌∙◌, Bool, true, false, ◌||◌, List, [], ◌∷◌,
  inl, inr, arith, Text, select, delete, order_by, insert_by, leb, ltb, if◌then◌else◌, sum_of,
  Bool-cases, head?,
}
use agro.Library.{Library, SpoolItem}
use agro.Library.Index.{
  is_item, is_spooled_by, doomed_of, spool_bytes_for, spool_evictable_for, spool_delete,
}
use agro.Library.Spooling.{budget_of, remove_doomed, evict_spool, is_account}

abbrev size : SpoolItem → ℕ
size i = i.size_bytes

add_sub : (a b : ℕ) → a + b - a ≡ b
add_sub a b = omega arith

at_most : (budget total more : ℕ) (b : Bool) → b || ltb budget total ≡ false → total ≤ budget + more
at_most budget total more b e = ground arith

-- The rows that are not picked fit the budget.
doomed_of-le :
    (now budget : ℕ) (rows : List SpoolItem)
    → sum_of size rows ≤ budget + sum_of size (doomed_of now budget (sum_of size rows) rows)
unfolding doomed_of
doomed_of-le now budget [] = omega arith
doomed_of-le now budget (i ∷ rows) =
    let total = size i + sum_of size rows in
    elim (Bool-cases (leb i.expires_at now || ltb budget total)) [
      | inl e ↦
          rw (e, add_sub (size i) (sum_of size rows)) (omega (arith, doomed_of-le now budget rows))
      | inr e ↦ rw e (at_most budget total _ (leb i.expires_at now) e)
    ]

-- The size of a row that none of the picked rows takes along.
kept : (SpoolItem → ℕ) → List SpoolItem → SpoolItem → ℕ
kept f [] r = f r
kept f (i ∷ doomed) r = if is_item i.content_hash r then 0 else kept f doomed r

kept-le :
    (doomed : List SpoolItem) (i r : SpoolItem) → kept size (i ∷ doomed) r ≤ kept size doomed r
unfolding kept
kept-le doomed i r = ground arith

kept-le_size : (doomed : List SpoolItem) (r : SpoolItem) → kept size doomed r ≤ size r
unfolding kept
kept-le_size [] r = omega arith
kept-le_size (i ∷ doomed) r = ground (arith, kept-le_size doomed r)

sum_of-le :
    (f g : SpoolItem → ℕ) (rows : List SpoolItem)
    → ((r : SpoolItem) → f r ≤ g r)
    → sum_of f rows ≤ sum_of g rows
sum_of-le f g [] h = omega arith
sum_of-le f g (r ∷ rows) h = omega (arith, h r, sum_of-le f g rows h)

sum_of-insert_by :
    (f key : SpoolItem → ℕ) (i : SpoolItem) (rows : List SpoolItem)
    → sum_of f (insert_by key i rows) ≡ f i + sum_of f rows
unfolding insert_by
sum_of-insert_by f key i [] = refl
sum_of-insert_by f key i (r ∷ rows) = ground (arith, sum_of-insert_by f key i rows)

sum_of-order_by :
    (f key : SpoolItem → ℕ) (rows : List SpoolItem) → sum_of f (order_by key rows) ≡ sum_of f rows
unfolding order_by
sum_of-order_by f key [] = refl
sum_of-order_by f key (r ∷ rows) =
    omega (arith, sum_of-insert_by f key r (order_by key rows), sum_of-order_by f key rows)

sum_of-delete :
    (f : SpoolItem → ℕ) (p q : SpoolItem → Bool) (rows : List SpoolItem)
    → sum_of f (select p (delete q rows)) ≡ sum_of (λ r. if q r then 0 else f r) (select p rows)
unfolding select delete
sum_of-delete f p q [] = refl
sum_of-delete f p q (r ∷ rows) = ground (arith, sum_of-delete f p q rows)

sum_of-remove_doomed :
    (p : SpoolItem → Bool) (doomed : List SpoolItem) (s : Library)
    → sum_of size (select p (remove_doomed doomed s).spool_items)
      ≡ sum_of (kept size doomed) (select p s.spool_items)
unfolding remove_doomed kept spool_delete
sum_of-remove_doomed p [] s = refl
sum_of-remove_doomed p (i ∷ doomed) s =
    sum_of-remove_doomed p doomed _
    ∙ sum_of-delete (kept size doomed) p (is_item i.content_hash) s.spool_items

kept_self : (i : SpoolItem) (doomed : List SpoolItem) → kept size (i ∷ doomed) i ≡ 0
unfolding kept
kept_self i doomed = rw (same_refl i.content_hash) refl

module _ (now budget total : ℕ) (i : SpoolItem) (rows : List SpoolItem) where
  doomed_of-picked :
      leb i.expires_at now || ltb budget total ≡ true
      → doomed_of now budget total (i ∷ rows) ≡ i ∷ doomed_of now budget (total - i.size_bytes) rows
  unfolding doomed_of
  doomed_of-picked e = rw e refl

  doomed_of-spared :
      leb i.expires_at now || ltb budget total ≡ false
      → doomed_of now budget total (i ∷ rows) ≡ doomed_of now budget total rows
  unfolding doomed_of
  doomed_of-spared e = rw e refl

kept_none : (now budget total : ℕ) → sum_of size (doomed_of now budget total []) ≤ 0
unfolding doomed_of
kept_none now budget total = omega arith

-- Removing the picked rows frees their sizes.
kept-doomed_of :
    (now budget total : ℕ) (rows : List SpoolItem)
    → sum_of (kept size (doomed_of now budget total rows)) rows
        + sum_of size (doomed_of now budget total rows)
      ≤ sum_of size rows
kept-doomed_of now budget total [] = omega (arith, kept_none now budget total)
kept-doomed_of now budget total (i ∷ rows) =
    let freed : List SpoolItem → Type 0 = λ doomed.
      sum_of (kept size doomed) (i ∷ rows) + sum_of size doomed ≤ sum_of size (i ∷ rows) in
    elim (Bool-cases (leb i.expires_at now || ltb budget total)) [
      | inl e ↦
          let later = doomed_of now budget (total - i.size_bytes) rows in
          subst freed (sym (doomed_of-picked now budget total i rows e)) (
            omega (
              arith,
              kept_self i later,
              sum_of-le (kept size (i ∷ later)) (kept size later) rows (kept-le later i),
              kept-doomed_of now budget (total - i.size_bytes) rows,
            ))
      | inr e ↦ subst freed (sym (doomed_of-spared now budget total i rows e)) (
          omega (
            arith,
            kept-le_size (doomed_of now budget total rows) i,
            kept-doomed_of now budget total rows,
          ))
    ]

-- After an eviction the account occupies no more than its budget: its quota, and for an uncapped
-- account the size of the spool.
pub spool_bytes_for-evict_spool :
    (s : Library) (user_id : Text) (now : ℕ)
    → spool_bytes_for (evict_spool s user_id now) user_id
      ≤ budget_of s (head? (select (is_account user_id) s.accounts))
unfolding spool_bytes_for evict_spool spool_evictable_for
spool_bytes_for-evict_spool s user_id now =
    let budget = budget_of s (head? (select (is_account user_id) s.accounts)) in
    let mine = select (is_spooled_by user_id) s.spool_items in
    let rows = order_by (λ (i : SpoolItem). i.created_at) mine in
    let doomed = doomed_of now budget (sum_of size rows) rows in
    omega (
      arith,
      sum_of-remove_doomed (is_spooled_by user_id) doomed s,
      sum_of-order_by (kept size doomed) (λ i. i.created_at) mine,
      kept-doomed_of now budget (sum_of size rows) rows,
      doomed_of-le now budget rows,
    )
