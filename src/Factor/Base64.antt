-- ===== src/Factor/Base64.antt =====
-- `base64_encode` and `base64_decode` of src/totp.rs, without padding. The ors of the source are of
-- disjoint bits, so they are sums; a shift is a product or a quotient.
use agro.Base.{
  not, ℕ, zero, suc, ◌+◌, ◌-◌, ◌*◌, ◌/◌, ◌%◌, ◌^◌, ◌<◌, ◌≡◌, refl, ap, Bool, true, false, ◌&&◌,
  List, [], ◌∷◌, ◌++◌, Option, none, some, arith, Text, codes, trim, is_whitespace, leb, ◌==◌,
  if◌then◌else◌, inl, inr, Bool-cases,
}

abbrev alphabet : Text
alphabet = codes "ABCDEFGHIJKLMNOPQRSTUVWXYZabcdefghijklmnopqrstuvwxyz0123456789-_"

abbrev nth : ℕ → Text → ℕ
nth i [] = 0
nth zero (c ∷ s) = c
nth (suc i) (c ∷ s) = nth i s

unfoldable pub symbol : ℕ → ℕ
symbol i = nth i alphabet

-- The four indices of the bytes of a chunk; a byte that is missing counts as zero.
abbrev pub group : ℕ → ℕ → ℕ → ℕ
group b0 b1 b2 = b0 * 2 ^ 16 + b1 * 2 ^ 8 + b2

abbrev pub index : ℕ → ℕ → ℕ
index n shift = n / 2 ^ shift % 64

unfoldable pub base64_encode : List ℕ → Text
unfolding symbol
base64_encode [] = []
base64_encode (b0 ∷ []) = let n = group b0 0 0 in symbol (index n 18) ∷ symbol (index n 12) ∷ []
base64_encode (b0 ∷ b1 ∷ []) =
    let n = group b0 b1 0 in symbol (index n 18) ∷ symbol (index n 12) ∷ symbol (index n 6) ∷ []
base64_encode (b0 ∷ b1 ∷ b2 ∷ rest) =
    let n = group b0 b1 b2 in
    symbol (index n 18)
    ∷ symbol (index n 12)
    ∷ symbol (index n 6)
    ∷ symbol (index n 0)
    ∷ base64_encode rest

unfoldable pub value : ℕ → Option ℕ
value c =
    if leb b'A' c && leb c b'Z'
    then some (c - b'A')
    else if leb b'a' c && leb c b'z'
    then some (c - b'a' + 26)
    else if leb b'0' c && leb c b'9'
    then some (c - b'0' + 52)
    else if c == b'-'
    then some 62
    else if c == b'_'
    then some 63
    else none

infixl 5 ◌>>=◌
abbrev ◌>>=◌ : Option ℕ → (ℕ → Option (List ℕ)) → Option (List ℕ)
none >>= f = none
some a >>= f = f a

abbrev with_rest : List ℕ → Option (List ℕ) → Option (List ℕ)
with_rest bytes none = none
with_rest bytes (some rest) = some (bytes ++ rest)

abbrev pub byte : ℕ → ℕ → ℕ
byte n shift = n / 2 ^ shift % 256

unfoldable pub decode_chunks : Text → Option (List ℕ)
unfolding value
decode_chunks [] = some []
decode_chunks (c0 ∷ []) = none
decode_chunks (c0 ∷ c1 ∷ []) = do
  v0 ← value c0
  v1 ← value c1
  some (byte (v0 * 2 ^ 18 + v1 * 2 ^ 12) 16 ∷ [])
decode_chunks (c0 ∷ c1 ∷ c2 ∷ []) = do
  v0 ← value c0
  v1 ← value c1
  v2 ← value c2
  let n = v0 * 2 ^ 18 + v1 * 2 ^ 12 + v2 * 2 ^ 6
  some (byte n 16 ∷ byte n 8 ∷ [])
decode_chunks (c0 ∷ c1 ∷ c2 ∷ c3 ∷ rest) =
    let decoded = decode_chunks rest in
    do
      v0 ← value c0
      v1 ← value c1
      v2 ← value c2
      v3 ← value c3
      let n = v0 * 2 ^ 18 + v1 * 2 ^ 12 + v2 * 2 ^ 6 + v3
      with_rest (byte n 16 ∷ byte n 8 ∷ byte n 0 ∷ []) decoded

unfoldable pub base64_decode : Text → Option (List ℕ)
unfolding trim decode_chunks
base64_decode text = decode_chunks (trim text)

all_below : ℕ → (ℕ → Bool) → Bool
all_below zero p = true
all_below (suc n) p = p n && all_below n p

all_below-apply : (n : ℕ) (p : ℕ → Bool) (x : ℕ) → all_below n p ≡ true → x < n → p x ≡ true
unfolding all_below
all_below-apply zero p x h lt = absurd (omega arith)
all_below-apply (suc n) p x h lt = elim (Bool-cases (x == n)) [
  | inl e ↦ let same : x ≡ n = ground arith in rw same (ground arith)
  | inr e ↦ all_below-apply n p x (ground arith) (ground arith)
]

abbrev is_value : Option ℕ → ℕ → Bool
is_value none i = false
is_value (some v) i = v == i

abbrev is_read_back : ℕ → Bool
is_read_back i = is_value (value (symbol i)) i && not (is_whitespace (symbol i))

read_back_table : all_below 64 is_read_back ≡ true
unfolding all_below value symbol is_whitespace
read_back_table = refl

read_back : (i : ℕ) → i < 64 → is_read_back i ≡ true
read_back i h = all_below-apply 64 is_read_back i read_back_table h

is_value-lem : (o : Option ℕ) (i : ℕ) → is_value o i ≡ true → o ≡ some i
is_value-lem none i h = absurd (ground arith)
is_value-lem (some v) i h = ap some (ground arith)

pub value-symbol : (i : ℕ) → i < 64 → value (symbol i) ≡ some i
value-symbol i h = is_value-lem (value (symbol i)) i (ground (arith, read_back i h))

pub symbol-visible : (i : ℕ) → i < 64 → is_whitespace (symbol i) ≡ false
symbol-visible i h = ground (arith, read_back i h)
