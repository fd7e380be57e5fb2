-- ===== src/RateLimit/Budget.antt =====
-- What a caller has left: `charge` of src/rate_limit.rs as a count for each key.
use agro.Base.{
  ℕ, ◌≤◌, ◌<◌, ◌≡◌, refl, ap, ◌∙◌, subst, Bool, false, List, [], ◌∷◌, ◌++◌, arith, Option, none,
  some, Text, same, same_comm, eq_of_same, select, delete, count, ltb, leb, if◌then◌else◌, head?,
  length, Bool-cases, inl, inr, count-append,
}
use agro.RateLimit.{
  Window, is_key, is_running, entry, charge, sweep, saturating_add, sweep_threshold,
}

-- At most one entry for each key.
abbrev pub IsMap : List Window → Type 0
IsMap windows = (key : Text) → count (is_key key) windows ≤ 1

abbrev live_of : ℕ → ℕ → Option Window → ℕ
live_of now window none = 0
live_of now window (some w) = if is_running now window w then w.charged else 0

-- What the key has been charged in the window that runs now.
abbrev pub live : List Window → ℕ → ℕ → Text → ℕ
live windows now window key = live_of now window (head? (select (is_key key) windows))

module _ (now window : ℕ) (key : Text) where
  live_none : (rows : List Window) → count (is_key key) rows ≡ 0 → live rows now window key ≡ 0
  unfolding select count
  live_none [] h = refl
  live_none (w ∷ rows) h = elim (Bool-cases (is_key key w)) [
    | inl e ↦ ground arith
    | inr e ↦ rw e (live_none rows (ground arith))
  ]

  count-select :
      (p : Window → Bool) (rows : List Window)
      → count (is_key key) (select p rows) ≤ count (is_key key) rows
  unfolding select count
  count-select p [] = omega arith
  count-select p (w ∷ rows) = ground (arith, count-select p rows)

  -- The sweep drops only what counts for nothing.
  live-sweep :
      (rows : List Window)
      → count (is_key key) rows ≤ 1
      → live (select (is_running now window) rows) now window key ≡ live rows now window key
  unfolding select count
  live-sweep [] h = refl
  live-sweep (w ∷ rows) h = elim (Bool-cases (is_running now window w)) [
    | inl e ↦ elim (Bool-cases (is_key key w)) [
      | inl k ↦ rw (e, k) refl
      | inr k ↦ rw (e, k) (live-sweep rows (ground arith))
    ]
    | inr e ↦ elim (Bool-cases (is_key key w)) [
      | inl k ↦
          rw (e, k, e)
            (live_none (select (is_running now window) rows)
              (ground (arith, count-select (is_running now window) rows)))
      | inr k ↦ rw (e, k) (live-sweep rows (ground arith))
    ]
  ]

  live-put :
      (w : Window) (rows : List Window)
      → live (delete (is_key w.key) rows ++ w ∷ []) now window key
        ≡ (if same w.key key then live_of now window (some w) else live rows now window key)
  unfolding select delete
  live-put w [] = elim (Bool-cases (same w.key key)) [ inl e ↦ rw e refl | inr e ↦ rw e refl ]
  live-put w (v ∷ rows) = elim (Bool-cases (is_key w.key v)) [
    | inl e ↦ elim (Bool-cases (same w.key key)) [
      | inl k ↦ rw (e, k) (live-put w rows ∙ rw k refl)
      | inr k ↦
          let other : same v.key key ≡ false = rw (eq_of_same v.key w.key e) k in
          rw (e, k, other) (live-put w rows ∙ rw k refl)
    ]
    | inr e ↦ elim (Bool-cases (same v.key key)) [
      | inl k ↦
          let other : same w.key key ≡ false =
            rw⁻¹ (eq_of_same v.key key k) (same_comm w.key v.key ∙ e) in
          rw (e, k, other) refl
      | inr k ↦ rw (e, k) (live-put w rows)
    ]
  ]

  live-entry :
      (found : Option Window) (units : ℕ)
      → 0 < window
      → live_of now window (
          some (record (entry key now window found) {
            charged = saturating_add (entry key now window found).charged units;
          }))
        ≡ saturating_add (live_of now window found) units
  live-entry none units h = ground arith
  live-entry (some w) units h = ground arith

live-swept :
    (windows : List Window) (now window : ℕ) (key : Text)
    → IsMap windows
    → live (sweep windows now window) now window key ≡ live windows now window key
live-swept windows now window key h = elim (Bool-cases (ltb sweep_threshold (length windows))) [
  | inl e ↦ rw e (live-sweep now window key windows (h key))
  | inr e ↦ rw e refl
]

entry-key :
    (key : Text) (now window : ℕ) (rows : List Window)
    → (entry key now window (head? (select (is_key key) rows))).key ≡ key
unfolding select
entry-key key now window [] = refl
entry-key key now window (w ∷ rows) = elim (Bool-cases (is_key key w)) [
  | inl e ↦ elim (Bool-cases (is_running now window w)) [
    | inl k ↦ rw (e, k) (eq_of_same w.key key e)
    | inr k ↦ rw (e, k) (eq_of_same w.key key e)
  ]
  | inr e ↦ rw e (entry-key key now window rows)
]

entry-charged :
    (key : Text) (now window : ℕ) (found : Option Window)
    → (entry key now window found).charged ≡ live_of now window found
entry-charged key now window none = refl
entry-charged key now window (some w) = ground arith

count-delete : (p q : Window → Bool) (rows : List Window) → count p (delete q rows) ≤ count p rows
unfolding count delete
count-delete p q [] = omega arith
count-delete p q (w ∷ rows) = ground (arith, count-delete p q rows)

count-delete_self : (p : Window → Bool) (rows : List Window) → count p (delete p rows) ≡ 0
unfolding count delete
count-delete_self p [] = refl
count-delete_self p (w ∷ rows) = ground (arith, count-delete_self p rows)

IsMap-put :
    (key : Text) (w : Window) (rows : List Window)
    → w.key ≡ key
    → IsMap rows
    → IsMap (delete (is_key key) rows ++ w ∷ [])
unfolding count
IsMap-put key w rows e h other = elim (Bool-cases (same key other)) [
  | inl k ↦ ground (
    arith,
    count-append (is_key other) (delete (is_key key) rows) (w ∷ []),
    subst (λ n. count (is_key n) (delete (is_key key) rows) ≡ 0) (eq_of_same key other k)
        (count-delete_self (is_key key) rows),
  )
  | inr k ↦
      let apart : same w.key other ≡ false = rw e k in
      ground (
        arith,
        count-append (is_key other) (delete (is_key key) rows) (w ∷ []),
        count-delete (is_key other) (is_key key) rows,
        h other,
      )
]

IsMap-sweep :
    (windows : List Window) (now window : ℕ) → IsMap windows → IsMap (sweep windows now window)
IsMap-sweep windows now window h key =
    ground (arith, h key, count-select now window key (is_running now window) windows)

-- Where no two entries have one key and a window lasts, a charge answers whether what the key has
-- been charged in its running window, this charge included, fits the budget. It adds to that of
-- the key and to no other's, whether it fits or not, and whether or not passed windows are swept.
pub charge-live :
    (windows : List Window) (key other : Text) (units budget window now : ℕ)
    → IsMap windows
    → 0 < window
    → (let result = charge windows key units budget window now in
        let total = saturating_add (live windows now window key) units in
        (result.1 ≡ leb total budget)
        × (live result.0 now window other
            ≡ (if same key other then total else live windows now window other))
        × IsMap result.0)
unfolding charge
charge-live windows key other units budget window now h running = (
  ap (λ n. leb (saturating_add n units) budget) charged_so_far,
  subst
        (λ k.
          live (delete (is_key k) rows ++ w ∷ []) now window other
          ≡ (if same k other then live_of now window (some w) else live rows now window other))
        named (live-put now window other w rows)
      ∙ counted,
  IsMap-put key w rows named (IsMap-sweep windows now window h),
)
  where
    rows : List Window
    rows = sweep windows now window

    found : Option Window
    found = head? (select (is_key key) rows)

    w : Window
    w = record (entry key now window found) {
      charged = saturating_add (entry key now window found).charged units;
    }

    named : w.key ≡ key
    named = entry-key key now window rows

    charged_so_far : (entry key now window found).charged ≡ live windows now window key
    charged_so_far = entry-charged key now window found ∙ live-swept windows now window key h

    counted :
        (if same key other then live_of now window (some w) else live rows now window other) ≡ (
          if same key other
          then saturating_add (live windows now window key) units
          else live windows now window other)
    counted = elim (Bool-cases (same key other)) [
      | inl e ↦ rw e (
          live-entry now window key found units running
          ∙ ap (λ n. saturating_add n units) (live-swept windows now window key h))
      | inr e ↦ rw e (live-swept windows now window other h)
    ]
