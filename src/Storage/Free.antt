-- ===== src/Storage/Free.antt =====
-- The name that a file is given so as not to overwrite another.
use agro.Base.{
  ℕ, zero, suc, ◌+◌, ◌≤◌, ◌<◌, ◌≡◌, ◌⊎◌, refl, sym, subst, Bool, true, false, Option, none, some,
  inl, inr, arith, Text, ◌==◌, Bool-cases, Option-cases,
}
use agro.Storage.{decimal}
use agro.Storage.Unique.{first_free, sibling, unique_path}

module _ (exists : Text → Bool) (name : ℕ → Text) where
  -- A name that is found is free, and none is found only where all are taken.
  abbrev IsSearched : ℕ → ℕ → Option Text → Type 0
  IsSearched rounds n none = (k : ℕ) → n ≤ k → k < n + rounds → exists (name k) ≡ true
  IsSearched rounds n (some path) = exists path ≡ false

  IsSearched-more :
      (rounds n : ℕ) (answer : Option Text)
      → exists (name n) ≡ true
      → IsSearched rounds (n + 1) answer
      → IsSearched (suc rounds) n answer
  IsSearched-more rounds n none taken later = λ k h l. elim (Bool-cases (k == n)) [
    | inl e ↦ subst (λ j. exists (name j) ≡ true) (sym (ground arith)) taken
    | inr e ↦ later k (ground arith) (ground arith)
  ]
  IsSearched-more rounds n (some path) taken later = later

  IsSearched-step :
      (rounds n : ℕ) (b : Bool) (later : Option Text)
      → exists (name n) ≡ b
      → IsSearched rounds (n + 1) later
      → IsSearched (suc rounds) n (elim b [ true ↦ later | false ↦ some (name n) ])
  IsSearched-step rounds n true later e h = IsSearched-more rounds n later e h
  IsSearched-step rounds n false later e h = e

  first_free-IsSearched : (rounds n : ℕ) → IsSearched rounds n (first_free exists name rounds n)
  unfolding first_free
  first_free-IsSearched zero n = λ k h l. absurd (omega arith)
  first_free-IsSearched (suc rounds) n =
      IsSearched-step rounds n (exists (name n)) _ refl (first_free-IsSearched rounds (n + 1))

-- The search always ends: the path is free, or it bears the UUID because all of the 998 numbered
-- paths beside the candidate are taken.
pub unique_path_free :
    (exists : Text → Bool) (uuid candidate : Text)
    → (exists (unique_path exists uuid candidate) ≡ false)
      ⊎ ((unique_path exists uuid candidate ≡ sibling candidate uuid)
          × ((n : ℕ) → 2 ≤ n → n < 1000 → exists (sibling candidate (decimal n)) ≡ true))
unfolding unique_path
unique_path_free exists uuid candidate = elim (Bool-cases (exists candidate)) [
  | inl e ↦
      let name : ℕ → Text = λ n. sibling candidate (decimal n) in
      let searched = first_free-IsSearched exists name 998 2 in
      elim (Option-cases (first_free exists name 998 2)) [
        | inl k ↦ rw (e, k) (inr (refl, subst (IsSearched exists name 998 2) k searched))
        | inr (path, k) ↦ rw (e, k) (inl (subst (IsSearched exists name 998 2) k searched))
      ]
  | inr e ↦ rw e (inl e)
]
