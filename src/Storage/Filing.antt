-- ===== src/Storage/Filing.antt =====
-- Where a file is shelved: the path that its tags give.
use agro.Base.{
  not, any, ℕ, zero, suc, ◌+◌, ◌%◌, ◌/◌, ◌≤◌, ◌≡◌, refl, sym, subst, Bool, true, false, ◌&&◌, [],
  ◌∷◌, ◌++◌, Option, none, some, inl, inr, arith, Text, codes, same, ◌==◌, All, All-append,
  All-select, All-map, Bool-cases, length, length-append, to_lowercase, to_ascii_lowercase, ltb,
}
use agro.Storage.{slash, dot, join, normal, components, resolve_within, resolved, digits, decimal}
use agro.Storage.Names.{
  Filing, segment, extension, or_bin, trim_dots, is_ascii_alphanumeric, two_digits, numbered,
  artist_name, album_name, file_name, relative_path, is_forbidden, unwrap_or, reserved,
  trim_trailing, is_reserved,
}
use agro.Storage.Segments.{IsPlain, IsClean, segment-IsPlain, take-All}
use agro.Storage.Components.{IsName, join-shelf, components-shelf, resolve_within-shelf}

abbrev IsNoSlash : ℕ → Type 0
IsNoSlash c = (c == slash) ≡ false

IsClean-IsNoSlash : (c : ℕ) → IsClean c → IsNoSlash c
IsClean-IsNoSlash c h = elim (Bool-cases (c == slash)) [
  | inl e ↦ absurd (ground (arith, h))
  | inr e ↦ e
]

IsPlain-IsName : (name : Text) → IsPlain name → IsName name
IsPlain-IsName name p = record {
  lacks = All-map IsClean IsNoSlash name IsClean-IsNoSlash p.clean;
  filled = p.filled;
  not_dot = p.not_dot;
  not_dots = p.not_dots;
}

-- A text that is longer than `..` is neither of the two special components.
long_IsName : (s : Text) → All IsNoSlash s → 3 ≤ length s → IsName s
unfolding same
long_IsName [] h le = absurd (omega arith)
long_IsName (a ∷ []) h le = absurd (omega arith)
long_IsName (a ∷ b ∷ []) h le = absurd (omega arith)
long_IsName (a ∷ b ∷ c ∷ s) h le = record {
  lacks = h;
  filled = refl;
  not_dot = ground arith;
  not_dots = ground arith;
}

All-branch :
    (b : Bool) (s t : Text)
    → All IsNoSlash s
    → All IsNoSlash t
    → All IsNoSlash (elim b [ true ↦ s | false ↦ t ])
All-branch true s t h k = h
All-branch false s t h k = k

digit-IsNoSlash : (n : ℕ) → IsNoSlash (48 + n)
digit-IsNoSlash n = ground arith

digits-IsNoSlash :
    (fuel n : ℕ) (tail : Text) → All IsNoSlash tail → All IsNoSlash (digits fuel n tail)
unfolding digits
digits-IsNoSlash zero n tail h = h
digits-IsNoSlash (suc fuel) n tail h =
    All-branch (ltb n 10) _ _ (digit-IsNoSlash n, h)
      (digits-IsNoSlash fuel (n / 10) _ (digit-IsNoSlash (n % 10), h))

two_digits-IsNoSlash : (n : ℕ) → All IsNoSlash (two_digits n)
unfolding two_digits decimal
two_digits-IsNoSlash n = elim (Bool-cases (ltb n 10)) [
  | inl e ↦ rw e (refl, digits-IsNoSlash (suc n) n [] tt)
  | inr e ↦ rw e (digits-IsNoSlash (suc n) n [] tt)
]

to_lowercase-IsNoSlash :
    (s : Text) → All (λ c. is_ascii_alphanumeric c ≡ true) s → All IsNoSlash (to_lowercase s)
unfolding to_lowercase to_ascii_lowercase
to_lowercase-IsNoSlash [] h = tt
to_lowercase-IsNoSlash (c ∷ s) h = (ground (arith, h.0), to_lowercase-IsNoSlash s h.1)

or_bin-IsNoSlash : (s : Text) → All IsNoSlash s → All IsNoSlash (or_bin s) × (1 ≤ length (or_bin s))
or_bin-IsNoSlash [] h = ((refl, (refl, (refl, tt))), omega arith)
or_bin-IsNoSlash (c ∷ s) h = (h, omega arith)

extension-IsNoSlash :
    (value : Text) → All IsNoSlash (extension value) × (1 ≤ length (extension value))
unfolding extension
extension-IsNoSlash value =
    or_bin-IsNoSlash _ (
      to_lowercase-IsNoSlash _
        (take-All _ 8 _ (All-select is_ascii_alphanumeric (trim_dots value))))

numbered-IsNoSlash :
    (track_no : Option ℕ) (rest : Text)
    → All IsNoSlash rest
    → All IsNoSlash (numbered track_no rest) × (length rest ≤ length (numbered track_no rest))
numbered-IsNoSlash none rest h = (h, omega arith)
numbered-IsNoSlash (some n) rest h = elim (Bool-cases (ltb 0 n)) [
  | inl e ↦ rw e (
    All-append IsNoSlash (two_digits n) (codes " - " ++ rest) (two_digits-IsNoSlash n)
        (refl, (refl, (refl, h))),
    omega (arith, length-append (two_digits n) (codes " - " ++ rest)),
  )
  | inr e ↦ rw e (h, omega arith)
]

filled_length : (s : Text) → same s [] ≡ false → 1 ≤ length s
unfolding same
filled_length [] h = absurd (ground arith)
filled_length (c ∷ s) h = omega arith

abbrev all_clean : Text → Bool
all_clean [] = true
all_clean (c ∷ s) = not (is_forbidden c) && all_clean s

all_clean-All : (s : Text) → all_clean s ≡ true → All IsClean s
all_clean-All [] h = tt
all_clean-All (c ∷ s) h = elim (Bool-cases (is_forbidden c)) [
  | inl e ↦ absurd (ground (arith, rw e at h))
  | inr e ↦ (e, all_clean-All s (rw e at h))
]

literal-IsPlain :
    (s : Text)
    → all_clean s
        && (not (same s [])
            && (not (same s (codes ".")) && (not (same s (codes "..")) && not (is_reserved s))))
      ≡ true
    → length s ≤ 120
    → trim_trailing s ≡ s
    → IsPlain s
literal-IsPlain s h short trimmed =
    let clean : all_clean s ≡ true = ground arith in
    record {
      clean = all_clean-All s clean;
      filled = ground arith;
      not_dot = ground arith;
      not_dots = ground arith;
      unreserved = ground arith;
      short = short;
      trimmed = trimmed;
    }

-- The fallbacks.
pub fallback-IsPlain :
    IsPlain (codes "Untitled")
    × (IsPlain (codes "Unknown Artist") × IsPlain (codes "Unknown Album"))
unfolding same reserved any to_lowercase to_ascii_lowercase trim_trailing
fallback-IsPlain = (
  literal-IsPlain (codes "Untitled") refl (omega arith) refl,
  (
    literal-IsPlain (codes "Unknown Artist") refl (omega arith) refl,
    literal-IsPlain (codes "Unknown Album") refl (omega arith) refl,
  ),
)

file_name-IsName : (f : Filing) → IsName (file_name f)
unfolding file_name
file_name-IsName f =
    let title = segment-IsPlain f.title (codes "Untitled") fallback-IsPlain.0 in
    let named = IsPlain-IsName (segment f.title (codes "Untitled")) title in
    let ext = extension-IsNoSlash f.extension in
    let stem = segment f.title (codes "Untitled") in
    let file =
      numbered-IsNoSlash f.track_no (stem ++ dot ∷ extension f.extension)
        (All-append IsNoSlash stem (dot ∷ extension f.extension) named.lacks (refl, ext.0)) in
    long_IsName _ file.0 (
      omega (
        arith,
        file.1,
        ext.1,
        filled_length stem title.filled,
        length-append stem (dot ∷ extension f.extension),
      ))

shelf_resolves :
    (root a b c : Text)
    → IsName a
    → IsName b
    → IsName c
    → (components (join (join a b) c) ≡ normal a ∷ normal b ∷ normal c ∷ [])
      × (resolve_within root (join (join a b) c) ≡ resolved (join root (join (join a b) c)))
shelf_resolves root a b c na nb nc =
    subst
      (λ p.
        (components p ≡ normal a ∷ normal b ∷ normal c ∷ [])
        × (resolve_within root p ≡ resolved (join root p)))
      (sym (join-shelf a b c na nb nc))
      (components-shelf a b c na nb nc, resolve_within-shelf a b c na nb nc root)

-- Whatever the tags hold, the path is three names that no separator or traversal is in, and it is
-- accepted under every root: the file is written below it.
pub relative_path-resolve_within :
    (root : Text) (f : Filing)
    → (components (relative_path f)
        ≡ normal (artist_name f) ∷ normal (album_name f) ∷ normal (file_name f) ∷ [])
      × (resolve_within root (relative_path f) ≡ resolved (join root (relative_path f)))
unfolding relative_path artist_name album_name
relative_path-resolve_within root f =
    let artist = IsPlain-IsName _ (
      segment-IsPlain (unwrap_or f.artist f.album_artist) (codes "Unknown Artist")
        fallback-IsPlain.1.0) in
    let album =
      IsPlain-IsName _
        (segment-IsPlain (unwrap_or [] f.album) (codes "Unknown Album") fallback-IsPlain.1.1) in
    let file = file_name-IsName f in
    shelf_resolves root (artist_name f) (album_name f) (file_name f) artist album file
