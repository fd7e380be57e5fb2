-- ===== src/Factor/Sealed.antt =====
-- Secrets that are sealed and opened again.
use agro.Base.{
  ℕ, ◌≡◌, refl, true, List, [], ◌∷◌, Option, none, some, arith, codes, if◌then◌else◌, ◌==◌, trim,
  trim_start, trim_end, is_whitespace,
}
use agro.Factor.Base64.{base64_encode, base64_decode, decode_chunks, symbol, value}
use agro.Factor.Sealing.{seal, unseal, opened, not_base64, unseal-seal}

-- A cipher that only puts a tag in front.
abbrev tagged : List ℕ → List ℕ → List ℕ
tagged nonce secret = 250 ∷ secret

abbrev untagged : List ℕ → List ℕ → Option (List ℕ)
untagged nonce [] = none
untagged nonce (tag ∷ secret) = if tag == 250 then some secret else none

abbrev nonce : List ℕ
nonce = 0 ∷ 1 ∷ 2 ∷ 3 ∷ 4 ∷ 5 ∷ 6 ∷ 7 ∷ 8 ∷ 9 ∷ 10 ∷ 255 ∷ []

sealed_text : seal tagged nonce (codes "JBSW") ≡ codes "AAECAwQFBgcICQr_-kpCU1c"
unfolding seal base64_encode symbol
sealed_text = refl

damaged : unseal untagged (λ _. true) (codes "AAECAw!") ≡ not_base64
unfolding unseal base64_decode decode_chunks value trim trim_start trim_end is_whitespace
damaged = refl

unseal-seal_example :
    unseal untagged (λ _. true) (seal tagged nonce (codes "JBSW")) ≡ opened (codes "JBSW")
unseal-seal_example =
    unseal-seal tagged untagged (λ _. true) nonce (codes "JBSW") refl (omega arith) (omega arith)
      refl refl
