-- ===== src/Factor/Sealing.antt =====
-- How a secret is stored: `seal` and `unseal` of src/totp.rs. A text is its bytes. AES-256-GCM under
-- the server's key is a parameter, as is the test for UTF-8; the nonce is an argument.
use agro.Base.{
  trim_end_visible, All-append, ℕ, zero, suc, ◌+◌, ◌*◌, ◌%◌, ◌^◌, ◌<◌, ◌≡◌, refl, ap, ◌∙◌, Bool,
  true, false, List, [], ◌∷◌, ◌++◌, Option, none, some, arith, Text, trim, trim_start, trim_end,
  is_whitespace, ltb, if◌then◌else◌, All, length, length-append, take,
}
use agro.Factor.Base64.{
  base64_encode, base64_decode, decode_chunks, symbol, value, value-symbol, symbol-visible, index,
  group, byte,
}

pub data Unsealed : Type 0 where
  opened : List ℕ → Unsealed
  not_base64 too_short wrong_key not_utf8 : Unsealed

abbrev drop : ℕ → List ℕ → List ℕ
drop zero xs = xs
drop (suc n) [] = []
drop (suc n) (x ∷ xs) = drop n xs

module _ (encrypt : List ℕ → List ℕ → List ℕ) where
  -- The nonce, and the ciphertext after it.
  unfoldable pub seal : List ℕ → List ℕ → Text
  unfolding base64_encode
  seal nonce secret = base64_encode (nonce ++ encrypt nonce secret)

module _ (decrypt : List ℕ → List ℕ → Option (List ℕ)) (is_utf8 : List ℕ → Bool) where
  abbrev open_text : Option (List ℕ) → Unsealed
  open_text none = wrong_key
  open_text (some plaintext) = if is_utf8 plaintext then opened plaintext else not_utf8

  abbrev open_blob : Option (List ℕ) → Unsealed
  open_blob none = not_base64
  open_blob (some blob) =
      if ltb (length blob) 12 then too_short else open_text (decrypt (take 12 blob) (drop 12 blob))

  unfoldable pub unseal : Text → Unsealed
  unfolding base64_decode
  unseal sealed = open_blob (base64_decode sealed)

abbrev IsByte : ℕ → Type 0
IsByte b = b < 256

chunk_one :
    (a : ℕ)
    → IsByte a
    → byte (index (group a 0 0) 18 * 2 ^ 18 + index (group a 0 0) 12 * 2 ^ 12) 16 ≡ a
chunk_one a h = omega arith

regroup :
    (n : ℕ)
    → n < 2 ^ 24
    → index n 18 * 2 ^ 18 + index n 12 * 2 ^ 12 + index n 6 * 2 ^ 6 + index n 0 ≡ n
regroup n h = omega arith

regroup_short :
    (n : ℕ)
    → n < 2 ^ 24
    → n % 2 ^ 6 ≡ 0
    → index n 18 * 2 ^ 18 + index n 12 * 2 ^ 12 + index n 6 * 2 ^ 6 ≡ n
regroup_short n h e = omega arith

bytes_of_group :
    (a b c : ℕ)
    → IsByte a
    → IsByte b
    → IsByte c
    → (byte (group a b c) 16 ≡ a) × (byte (group a b c) 8 ≡ b) × (byte (group a b c) 0 ≡ c)
bytes_of_group a b c ha hb hc = omega arith

group-lt : (a b c : ℕ) → IsByte a → IsByte b → IsByte c → group a b c < 2 ^ 24
group-lt a b c ha hb hc = omega arith

index-lt : (n shift : ℕ) → index n shift < 64
index-lt n shift = omega arith

module _ (c0 c1 v0 v1 : ℕ) (e0 : value c0 ≡ some v0) (e1 : value c1 ≡ some v1) where
  decode_two :
      (bytes : List ℕ)
      → byte (v0 * 2 ^ 18 + v1 * 2 ^ 12) 16 ∷ [] ≡ bytes
      → decode_chunks (c0 ∷ c1 ∷ []) ≡ some bytes
  unfolding decode_chunks
  decode_two bytes e = rw (e0, e1) (ap some e)

  decode_three :
      (c2 v2 n : ℕ)
      → value c2 ≡ some v2
      → v0 * 2 ^ 18 + v1 * 2 ^ 12 + v2 * 2 ^ 6 ≡ n
      → decode_chunks (c0 ∷ c1 ∷ c2 ∷ []) ≡ some (byte n 16 ∷ byte n 8 ∷ [])
  unfolding decode_chunks
  decode_three c2 v2 n e2 e = rw (e0, e1, e2) (ap (λ n. some (byte n 16 ∷ byte n 8 ∷ [])) e)

  decode_four :
      (c2 c3 v2 v3 n : ℕ) (text : Text) (rest : List ℕ)
      → value c2 ≡ some v2
      → value c3 ≡ some v3
      → v0 * 2 ^ 18 + v1 * 2 ^ 12 + v2 * 2 ^ 6 + v3 ≡ n
      → decode_chunks text ≡ some rest
      → decode_chunks (c0 ∷ c1 ∷ c2 ∷ c3 ∷ text) ≡ some (byte n 16 ∷ byte n 8 ∷ byte n 0 ∷ rest)
  decode_four c2 c3 v2 v3 n text rest e2 e3 e r =
      step ∙ ap (λ n. some (byte n 16 ∷ byte n 8 ∷ byte n 0 ∷ rest)) e
    where
      step : decode_chunks (c0 ∷ c1 ∷ c2 ∷ c3 ∷ text) ≡ (
          let m = v0 * 2 ^ 18 + v1 * 2 ^ 12 + v2 * 2 ^ 6 + v3 in
          some (byte m 16 ∷ byte m 8 ∷ byte m 0 ∷ rest))
      step = unfold decode_chunks in rw (e0, e1, e2, e3, r) refl

pair_cong : {a b x y : ℕ} → a ≡ x → b ≡ y → some (a ∷ b ∷ []) ≡ some (x ∷ y ∷ [])
pair_cong e f = cc (e, f)

triple_cong :
    {a b c x y z : ℕ} (rest : List ℕ)
    → a ≡ x
    → b ≡ y
    → c ≡ z
    → some (a ∷ b ∷ c ∷ rest) ≡ some (x ∷ y ∷ z ∷ rest)
triple_cong rest e f g = cc (e, f, g)

reads : (n shift : ℕ) → value (symbol (index n shift)) ≡ some (index n shift)
reads n shift = value-symbol (index n shift) (index-lt n shift)

decode-encode :
    (bytes : List ℕ) → All IsByte bytes → decode_chunks (base64_encode bytes) ≡ some bytes
unfolding base64_encode
decode-encode [] h = unfold decode_chunks in refl
decode-encode (a ∷ []) h =
    let n = group a 0 0 in
    decode_two _ _ _ _ (reads n 18) (reads n 12) (a ∷ []) (ap (λ x. x ∷ []) (chunk_one a h.0))
decode-encode (a ∷ b ∷ []) h =
    let n = group a b 0 in
    let bytes = bytes_of_group a b 0 h.0 h.1.0 (omega arith) in
    decode_three _ _ _ _ (reads n 18) (reads n 12) _ _ n (reads n 6)
      (regroup_short n (group-lt a b 0 h.0 h.1.0 (omega arith)) (omega arith))
    ∙ pair_cong bytes.0 bytes.1
decode-encode (a ∷ b ∷ c ∷ rest) h =
    let n = group a b c in
    let bytes = bytes_of_group a b c h.0 h.1.0 h.1.1.0 in
    decode_four _ _ _ _ (reads n 18) (reads n 12) _ _ _ _ n (base64_encode rest) rest (reads n 6)
      (reads n 0) (regroup n (group-lt a b c h.0 h.1.0 h.1.1.0)) (decode-encode rest h.1.1.1)
    ∙ triple_cong rest bytes.0 bytes.1 bytes.2

abbrev IsVisible : ℕ → Type 0
IsVisible c = is_whitespace c ≡ false

visible : (n shift : ℕ) → IsVisible (symbol (index n shift))
visible n shift = symbol-visible (index n shift) (index-lt n shift)

base64_encode-IsVisible : (bytes : List ℕ) → All IsVisible (base64_encode bytes)
unfolding base64_encode
base64_encode-IsVisible [] = tt
base64_encode-IsVisible (a ∷ []) = (visible (group a 0 0) 18, (visible (group a 0 0) 12, tt))
base64_encode-IsVisible (a ∷ b ∷ []) =
    (visible (group a b 0) 18, (visible (group a b 0) 12, (visible (group a b 0) 6, tt)))
base64_encode-IsVisible (a ∷ b ∷ c ∷ rest) = (
  visible (group a b c) 18,
  (
    visible (group a b c) 12,
    (visible (group a b c) 6, (visible (group a b c) 0, base64_encode-IsVisible rest)),
  ),
)

trim_start-IsVisible : (s : Text) → All IsVisible s → trim_start s ≡ s
unfolding trim_start
trim_start-IsVisible [] h = refl
trim_start-IsVisible (c ∷ s) h = rw h.0 refl

trim_end-IsVisible : (s : Text) → All IsVisible s → trim_end s ≡ s
trim_end-IsVisible [] h = unfold trim_end in refl
trim_end-IsVisible (c ∷ s) h = trim_end_visible c s h.0 (trim_end-IsVisible s h.1)

-- What was encoded decodes to itself.
base64_decode-base64_encode :
    (bytes : List ℕ) → All IsByte bytes → base64_decode (base64_encode bytes) ≡ some bytes
unfolding base64_decode trim
base64_decode-base64_encode bytes h =
    let seen = base64_encode-IsVisible bytes in
    rw
      (
        trim_start-IsVisible (base64_encode bytes) seen,
        trim_end-IsVisible (base64_encode bytes) seen,
      )
      (decode-encode bytes h)

take-append : (n : ℕ) (xs ys : List ℕ) → length xs ≡ n → take n (xs ++ ys) ≡ xs
take-append zero [] ys e = refl
take-append zero (x ∷ xs) ys e = absurd (omega arith)
take-append (suc n) [] ys e = absurd (omega arith)
take-append (suc n) (x ∷ xs) ys e = ap (λ t. x ∷ t) (take-append n xs ys (omega arith))

drop-append : (n : ℕ) (xs ys : List ℕ) → length xs ≡ n → drop n (xs ++ ys) ≡ ys
drop-append zero [] ys e = refl
drop-append zero (x ∷ xs) ys e = absurd (omega arith)
drop-append (suc n) [] ys e = absurd (omega arith)
drop-append (suc n) (x ∷ xs) ys e = drop-append n xs ys (omega arith)

open_nonce :
    (decrypt : List ℕ → List ℕ → Option (List ℕ)) (is_utf8 : List ℕ → Bool)
    (nonce body secret : List ℕ)
    → length nonce ≡ 12
    → decrypt nonce body ≡ some secret
    → is_utf8 secret ≡ true
    → open_blob decrypt is_utf8 (some (nonce ++ body)) ≡ opened secret
open_nonce decrypt is_utf8 nonce body secret size e text =
    let long : ltb (length (nonce ++ body)) 12 ≡ false = ground (arith, length-append nonce body) in
    rw (long, take-append 12 nonce body size, drop-append 12 nonce body size, e, text) refl

-- A secret that was sealed is opened again, with any nonce of twelve bytes, when the cipher gives
-- bytes that it decrypts to what was encrypted.
pub unseal-seal :
    (encrypt : List ℕ → List ℕ → List ℕ) (decrypt : List ℕ → List ℕ → Option (List ℕ))
    (is_utf8 : List ℕ → Bool) (nonce secret : List ℕ)
    → length nonce ≡ 12
    → All IsByte nonce
    → All IsByte (encrypt nonce secret)
    → decrypt nonce (encrypt nonce secret) ≡ some secret
    → is_utf8 secret ≡ true
    → unseal decrypt is_utf8 (seal encrypt nonce secret) ≡ opened secret
unfolding unseal seal
unseal-seal encrypt decrypt is_utf8 nonce secret size bytes sealed decrypts text =
    ap (open_blob decrypt is_utf8) (
      base64_decode-base64_encode (nonce ++ encrypt nonce secret)
        (All-append IsByte nonce (encrypt nonce secret) bytes sealed))
    ∙ open_nonce decrypt is_utf8 nonce (encrypt nonce secret) secret size decrypts text
