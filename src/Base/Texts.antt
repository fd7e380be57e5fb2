-- ===== src/Base/Texts.antt =====
-- Text as the list of its code points: comparison, trimming and case.
use Prim.Native.Nat.{ℕ, ◌+◌}
use Prim.Native.Char.{code}
use Prim.Native.String.{String}
use mathlib.Core.Path.{◌≡◌, refl}
use mathlib.Core.Logic.{◌↔◌}
use mathlib.Core.Bool.{Bool, true, false, ◌&&◌, ◌||◌}
use mathlib.Core.List.{List, [], ◌∷◌}
use native.Mathlib.Omega.{arith}
use agro.Base.Tests.{leb, ◌==◌, if◌then◌else◌}

abbrev pub Text : Type 0
Text = List ℕ

abbrev pub codes : String → Text
codes String.[] = []
codes (String.◌∷◌ c s) = code c ∷ codes s

unfoldable pub same : Text → Text → Bool
same [] [] = true
same (a ∷ s) (b ∷ t) = a == b && same s t
same _ _ = false

pub same_refl : (s : Text) → same s s ≡ true
unfolding same
same_refl [] = refl
same_refl (a ∷ s) = ground (arith, same_refl s)

pub eq_of_same : (s t : Text) → same s t ≡ true → s ≡ t
unfolding same
eq_of_same [] [] h = refl
eq_of_same [] (b ∷ t) h = ground arith
eq_of_same (a ∷ s) [] h = ground arith
eq_of_same (a ∷ s) (b ∷ t) h = ground (arith, eq_of_same s t)

pub same_iff : (s t : Text) → (same s t ≡ true) ↔ (s ≡ t)
same_iff s t = (eq_of_same s t, λ e. rw e (same_refl t))

pub same_comm : (s t : Text) → same s t ≡ same t s
same_comm s t = ground (arith, same_iff s t, same_iff t s)

-- `char::is_whitespace`: the code points with the property White_Space.
unfoldable pub is_whitespace : ℕ → Bool
is_whitespace c =
    (leb 9 c && leb c 13)
    || c == 32
    || c == 133
    || c == 160
    || c == 5760
    || (leb 8192 c && leb c 8202)
    || c == 8232
    || c == 8233
    || c == 8239
    || c == 8287
    || c == 12288

unfoldable pub trim_start : Text → Text
unfolding is_whitespace
trim_start [] = []
trim_start (c ∷ s) = let rest = trim_start s in if is_whitespace c then rest else c ∷ s

abbrev snoc_end : ℕ → Text → Text
snoc_end c [] = if is_whitespace c then [] else c ∷ []
snoc_end c (d ∷ s) = c ∷ d ∷ s

unfoldable pub trim_end : Text → Text
unfolding is_whitespace
trim_end [] = []
trim_end (c ∷ s) = snoc_end c (trim_end s)

-- Text without whitespace at its end is left as it is, so text without any.
pub trim_end_visible :
    (c : ℕ) (s : Text) → is_whitespace c ≡ false → trim_end s ≡ s → trim_end (c ∷ s) ≡ c ∷ s
unfolding trim_end
trim_end_visible c [] h e = rw (e, h) refl
trim_end_visible c (d ∷ s) h e = rw e refl

-- `str::trim`
unfoldable pub trim : Text → Text
unfolding trim_start trim_end
trim s = trim_end (trim_start s)

unfoldable pub to_ascii_lowercase : ℕ → ℕ
to_ascii_lowercase c = if leb 65 c && leb c 90 then c + 32 else c

-- `str::to_ascii_lowercase`, and `str::to_lowercase` on ASCII text.
unfoldable pub to_lowercase : Text → Text
unfolding to_ascii_lowercase
to_lowercase [] = []
to_lowercase (c ∷ s) = to_ascii_lowercase c ∷ to_lowercase s

-- `eq_ignore_ascii_case`, and SQL's `=` under COLLATE NOCASE.
abbrev pub eq_nocase : Text → Text → Bool
eq_nocase s t = same (to_lowercase s) (to_lowercase t)

to_ascii_lowercase_idem : (c : ℕ) → to_ascii_lowercase (to_ascii_lowercase c) ≡ to_ascii_lowercase c
unfolding to_ascii_lowercase
to_ascii_lowercase_idem c = ground arith

pub to_lowercase_idem : (s : Text) → to_lowercase (to_lowercase s) ≡ to_lowercase s
unfolding to_lowercase
to_lowercase_idem [] = refl
to_lowercase_idem (c ∷ s) = cc (to_ascii_lowercase_idem c, to_lowercase_idem s)

is_whitespace-to_ascii_lowercase : (c : ℕ) → is_whitespace (to_ascii_lowercase c) ≡ is_whitespace c
unfolding is_whitespace to_ascii_lowercase
is_whitespace-to_ascii_lowercase c = ground arith

trim_start-to_lowercase : (s : Text) → trim_start (to_lowercase s) ≡ to_lowercase (trim_start s)
unfolding trim_start to_lowercase
trim_start-to_lowercase [] = refl
trim_start-to_lowercase (c ∷ s) =
    ground (arith, is_whitespace-to_ascii_lowercase c, trim_start-to_lowercase s)

snoc_end-to_lowercase :
    (c : ℕ) (s : Text)
    → snoc_end (to_ascii_lowercase c) (to_lowercase s) ≡ to_lowercase (snoc_end c s)
unfolding to_lowercase
snoc_end-to_lowercase c [] = ground (arith, is_whitespace-to_ascii_lowercase c)
snoc_end-to_lowercase c (d ∷ s) = refl

trim_end-to_lowercase : (s : Text) → trim_end (to_lowercase s) ≡ to_lowercase (trim_end s)
unfolding trim_end to_lowercase
trim_end-to_lowercase [] = refl
trim_end-to_lowercase (c ∷ s) = rw (trim_end-to_lowercase s) (snoc_end-to_lowercase c (trim_end s))

-- The text is empty or starts with something visible.
abbrev leads : Text → Bool
leads [] = true
leads (c ∷ s) = if is_whitespace c then false else true

leads-trim_start : (s : Text) → leads (trim_start s) ≡ true
unfolding trim_start
leads-trim_start [] = refl
leads-trim_start (c ∷ s) = ground (arith, leads-trim_start s)

leads-snoc_end :
    (c : ℕ) (s : Text) → leads (c ∷ s) ≡ true → (t : Text) → leads (snoc_end c t) ≡ true
leads-snoc_end c s h [] = ground arith
leads-snoc_end c s h (d ∷ t) = h

leads-trim_end : (s : Text) → leads s ≡ true → leads (trim_end s) ≡ true
unfolding trim_end
leads-trim_end [] h = refl
leads-trim_end (c ∷ s) h = leads-snoc_end c s h (trim_end s)

trim_start_visible : (s : Text) → leads s ≡ true → trim_start s ≡ s
unfolding trim_start
trim_start_visible [] h = refl
trim_start_visible (c ∷ s) h = ground arith

trim_end-snoc_end : (c : ℕ) (t : Text) → trim_end t ≡ t → trim_end (snoc_end c t) ≡ snoc_end c t
unfolding trim_end
trim_end-snoc_end c [] h = ground arith
trim_end-snoc_end c (d ∷ t) h = rw h refl

trim_end_idem : (s : Text) → trim_end (trim_end s) ≡ trim_end s
unfolding trim_end
trim_end_idem [] = refl
trim_end_idem (c ∷ s) = trim_end-snoc_end c (trim_end s) (trim_end_idem s)

pub trim_idem : (s : Text) → trim (trim s) ≡ trim s
unfolding trim
trim_idem s =
    rw
      (trim_start_visible (trim_end (trim_start s))
        (leads-trim_end (trim_start s) (leads-trim_start s)))
      (trim_end_idem (trim_start s))

pub trim-to_lowercase : (s : Text) → trim (to_lowercase s) ≡ to_lowercase (trim s)
unfolding trim
trim-to_lowercase s = rw (trim_start-to_lowercase s) (trim_end-to_lowercase (trim_start s))
