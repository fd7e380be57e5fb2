-- ===== src/Storage/Segments.antt =====
-- What a path segment can look like.
use agro.Base.{
  ℕ, zero, suc, ◌≤◌, false, ◌||◌, List, [], ◌∷◌, ◌++◌, ◌≡◌, refl, inl, inr, arith, Text, codes,
  same, ltb, if◌then◌else◌, length, take, map, All, All-append, Bool-cases, is_whitespace,
}
use agro.Storage.Names.{
  max_segment, is_forbidden, clean, finish_word, words, unwords, is_trailing, keep_unless_trailing,
  trim_trailing, is_reserved, usable_or, segment,
}

-- No separator, no control character and none of the others that a file system refuses.
abbrev pub IsClean : ℕ → Type 0
IsClean c = is_forbidden c ≡ false

-- A name that a path can hold as one segment: not empty, not `.` or `..`, not reserved, at most 120
-- characters, and without the trailing dots and spaces that Windows drops.
pub record IsPlain (name : Text) : Type 0 where
  pub clean : All IsClean name
  pub filled : same name [] ≡ false
  pub not_dot : same name (codes ".") ≡ false
  pub not_dots : same name (codes "..") ≡ false
  pub unreserved : is_reserved name ≡ false
  pub short : length name ≤ 120
  pub trimmed : trim_trailing name ≡ name

clean-IsClean : (c : ℕ) → IsClean (clean c)
clean-IsClean c = elim (Bool-cases (is_forbidden c)) [ inl e ↦ rw e refl | inr e ↦ rw e e ]

map-clean : (s : Text) → All IsClean (map clean s)
map-clean [] = tt
map-clean (c ∷ s) = (clean-IsClean c, map-clean s)

finish_word-All :
    (word : Text) (rest : List Text)
    → All IsClean word
    → All (All IsClean) rest
    → All (All IsClean) (finish_word word rest)
finish_word-All [] rest h k = k
finish_word-All (c ∷ word) rest h k = (h, k)

words-All : (word s : Text) → All IsClean word → All IsClean s → All (All IsClean) (words word s)
unfolding words
words-All word [] h k = finish_word-All word [] h tt
words-All word (c ∷ s) h k = elim (Bool-cases (is_whitespace c)) [
  | inl e ↦ rw e (finish_word-All word _ h (words-All [] s tt k.1))
  | inr e ↦ rw e (words-All (word ++ c ∷ []) s (All-append IsClean word (c ∷ []) h (k.0, tt)) k.1)
]

unwords-All : (ws : List Text) → All (All IsClean) ws → All IsClean (unwords ws)
unfolding unwords
unwords-All [] h = tt
unwords-All (w ∷ []) h = h.0
unwords-All (w ∷ v ∷ rest) h =
    All-append IsClean w (32 ∷ unwords (v ∷ rest)) h.0 (refl, unwords-All (v ∷ rest) h.1)

keep-All {κ} :
    (P : ℕ → Type κ) (c : ℕ) (s : Text) → P c → All P s → All P (keep_unless_trailing c s)
keep-All P c [] h k = elim (Bool-cases (is_trailing c)) [ inl e ↦ rw e tt | inr e ↦ rw e (h, tt) ]
keep-All P c (d ∷ s) h k = (h, k)

pub trim_trailing-All {κ} : (P : ℕ → Type κ) (s : Text) → All P s → All P (trim_trailing s)
unfolding trim_trailing
trim_trailing-All P [] h = tt
trim_trailing-All P (c ∷ s) h = keep-All P c (trim_trailing s) h.0 (trim_trailing-All P s h.1)

pub take-All {κ} : (P : ℕ → Type κ) (n : ℕ) (s : Text) → All P s → All P (take n s)
take-All P zero s h = tt
take-All P (suc n) [] h = tt
take-All P (suc n) (c ∷ s) h = (h.0, take-All P n s h.1)

keep_twice :
    (c : ℕ) (s : Text)
    → trim_trailing s ≡ s
    → trim_trailing (keep_unless_trailing c s) ≡ keep_unless_trailing c s
unfolding trim_trailing
keep_twice c [] h = elim (Bool-cases (is_trailing c)) [ inl e ↦ rw e refl | inr e ↦ rw (e, e) refl ]
keep_twice c (d ∷ s) h = rw h refl

trim_trailing_idem : (s : Text) → trim_trailing (trim_trailing s) ≡ trim_trailing s
unfolding trim_trailing
trim_trailing_idem [] = refl
trim_trailing_idem (c ∷ s) = keep_twice c (trim_trailing s) (trim_trailing_idem s)

length-keep : (c : ℕ) (s : Text) → length (keep_unless_trailing c s) ≤ suc (length s)
length-keep c [] = ground arith
length-keep c (d ∷ s) = omega arith

length-trim_trailing : (s : Text) → length (trim_trailing s) ≤ length s
unfolding trim_trailing
length-trim_trailing [] = omega arith
length-trim_trailing (c ∷ s) =
    omega (arith, length-keep c (trim_trailing s), length-trim_trailing s)

length-take : (n : ℕ) (s : Text) → length (take n s) ≤ n
length-take zero s = omega arith
length-take (suc n) [] = omega arith
length-take (suc n) (c ∷ s) = omega (arith, length-take n s)

abbrev truncate : Text → Text
truncate s = if ltb max_segment (length s) then take max_segment s else s

truncate-All : (s : Text) → All IsClean s → All IsClean (truncate s)
truncate-All s h = elim (Bool-cases (ltb max_segment (length s))) [
  | inl e ↦ rw e (take-All IsClean max_segment s h)
  | inr e ↦ rw e h
]

le_of_ltb : (n : ℕ) → ltb max_segment n ≡ false → n ≤ max_segment
le_of_ltb n e = ground arith

length-truncate : (s : Text) → length (truncate s) ≤ 120
length-truncate s = elim (Bool-cases (ltb max_segment (length s))) [
  | inl e ↦ rw e (length-take max_segment s)
  | inr e ↦ rw e (le_of_ltb (length s) e)
]

usable_or-IsPlain :
    (fallback name : Text)
    → IsPlain fallback
    → All IsClean name
    → length name ≤ 120
    → trim_trailing name ≡ name
    → IsPlain (usable_or fallback name)
unfolding usable_or
usable_or-IsPlain fallback name plain clean short trimmed =
    elim (Bool-cases
      (same name [] || same name (codes ".") || same name (codes "..") || is_reserved name)) [
        | inl e ↦ rw e plain
        | inr e ↦ rw e (record {
          clean = clean;
          filled = ground arith;
          not_dot = ground arith;
          not_dots = ground arith;
          unreserved = ground arith;
          short = short;
          trimmed = trimmed;
        })
      ]

-- Whatever a tag holds, the segment made of it is plain: when the fallback is, it has no separator
-- and no control character, is not empty, `.`, `..` or a reserved name, has at most 120 characters
-- and no trailing dot or space.
pub segment-IsPlain : (value fallback : Text) → IsPlain fallback → IsPlain (segment value fallback)
unfolding segment
segment-IsPlain value fallback plain =
    let joined = unwords (words [] (map clean value)) in
    let clean_joined =
      unwords-All (words [] (map clean value))
        (words-All [] (map clean value) tt (map-clean value)) in
    let cut = truncate (trim_trailing joined) in
    usable_or-IsPlain fallback (trim_trailing cut) plain
      (trim_trailing-All IsClean cut
        (truncate-All _ (trim_trailing-All IsClean joined clean_joined)))
      (omega (arith, length-trim_trailing cut, length-truncate (trim_trailing joined)))
      (trim_trailing_idem cut)
