-- ===== src/Magnet/Laws.antt =====
-- Base 32 against RFC 4648, and the length of an info hash.
use tortue.Prelude.{
  codes, ℕ, zero, suc, ◌+◌, ◌*◌, ◌/◌, ◌%◌, ◌<◌, Bytes, List, [], ◌∷◌, ◌++◌, All, Option, some, ok,
  get_or, length, ◌≡◌, ◌⊎◌, inl, inr, refl, sym, ap, subst, ◌∙◌, arith, append-nil, append_assoc,
}
use tortue.Prelude.Be.{IsBytes}
use tortue.Magnet.{
  parse_btih, alphabet, to_ascii_uppercase, position, Bits, push_digit, decode_from, base32_decode,
}

-- The eight digits of five bytes.
abbrev pub digits : ℕ → ℕ → ℕ → ℕ → ℕ → List ℕ
digits a b c d e =
    a / 8
    ∷ (a % 8 * 4 + b / 64)
    ∷ (b / 2 % 32)
    ∷ (b % 2 * 16 + c / 16)
    ∷ (c % 16 * 2 + d / 128)
    ∷ (d / 4 % 32)
    ∷ (d % 4 * 8 + e / 32)
    ∷ (e % 32)
    ∷ []

-- The letters of RFC 4648, table 3.
abbrev pub rfc4648_letters : Bytes
rfc4648_letters = codes "ABCDEFGHIJKLMNOPQRSTUVWXYZ234567"

abbrev pub letters : List ℕ → Bytes
letters [] = []
letters (d ∷ ds) = get_or rfc4648_letters d 0 ∷ letters ds

-- The encoder of RFC 4648 for whole groups of five bytes.
unfoldable pub base32_encode : Bytes → Bytes
base32_encode (a ∷ b ∷ c ∷ d ∷ e ∷ s) = letters (digits a b c d e) ++ base32_encode s
base32_encode _ = []

abbrev Below : ℕ → (ℕ → Type 0) → Type 0
Below zero P = Unit
Below (suc n) P = P n × Below n P

below : (n : ℕ) (P : ℕ → Type 0) (i : ℕ) → Below n P → i < n → P i
below zero P i h l = absurd (omega arith)
below (suc n) P i h l = elim (split i n (omega arith)) [
  | inl e ↦ subst P (sym e) h.0
  | inr k ↦ below n P i h.1 k
]
  where
    split : (j m : ℕ) → j < suc m → (j ≡ m) ⊎ (j < m)
    split j m h = ground arith

abbrev IsRead : ℕ → Type 0
IsRead d = position (to_ascii_uppercase (get_or rfc4648_letters d 0)) alphabet ≡ some d

all-IsRead : Below 32 IsRead
unfolding position
all-IsRead = (
  refl,
  (
    refl,
    (
      refl,
      (
        refl,
        (
          refl,
          (
            refl,
            (
              refl,
              (
                refl,
                (
                  refl,
                  (
                    refl,
                    (
                      refl,
                      (
                        refl,
                        (
                          refl,
                          (
                            refl,
                            (
                              refl,
                              (
                                refl,
                                (
                                  refl,
                                  (
                                    refl,
                                    (
                                      refl,
                                      (
                                        refl,
                                        (
                                          refl,
                                          (
                                            refl,
                                            (
                                              refl,
                                              (
                                                refl,
                                                (
                                                  refl,
                                                  (
                                                    refl,
                                                    (
                                                      refl,
                                                      (refl, (refl, (refl, (refl, (refl, tt))))),
                                                    ),
                                                  ),
                                                ),
                                              ),
                                            ),
                                          ),
                                        ),
                                      ),
                                    ),
                                  ),
                                ),
                              ),
                            ),
                          ),
                        ),
                      ),
                    ),
                  ),
                ),
              ),
            ),
          ),
        ),
      ),
    ),
  ),
)

-- The digits of a list are read one after the other.
push_all : List ℕ → Bits → Bits
push_all [] b = b
push_all (d ∷ ds) b = push_all ds (push_digit d b)

decode_from-letters :
    (ds : List ℕ) (s : Bytes) (b : Bits)
    → All (λ d. d < 32) ds
    → decode_from (letters ds ++ s) b ≡ decode_from s (push_all ds b)
unfolding decode_from push_all
decode_from-letters [] s b h = refl
decode_from-letters (d ∷ ds) s b h =
    rw (below 32 IsRead d all-IsRead h.0) (decode_from-letters ds s (push_digit d b) h.1)

abbrev from_scratch : Bytes → Bits
from_scratch out = record { bits = 0; bit_count = 0; output = out }

snoc_append : (s : Bytes) (x : ℕ) (t : Bytes) → (s ++ x ∷ []) ++ t ≡ s ++ x ∷ t
snoc_append s x t = append_assoc s (x ∷ []) t

five :
    (out : Bytes) (a b c d e : ℕ)
    → ((((out ++ a ∷ []) ++ b ∷ []) ++ c ∷ []) ++ d ∷ []) ++ e ∷ [] ≡ out ++ a ∷ b ∷ c ∷ d ∷ e ∷ []
five out a b c d e =
    snoc_append (((out ++ a ∷ []) ++ b ∷ []) ++ c ∷ []) d (e ∷ [])
    ∙ snoc_append ((out ++ a ∷ []) ++ b ∷ []) c (d ∷ e ∷ [])
    ∙ snoc_append (out ++ a ∷ []) b (c ∷ d ∷ e ∷ [])
    ∙ snoc_append out a (b ∷ c ∷ d ∷ e ∷ [])

push_all-digits :
    (a b c d e : ℕ) (out : Bytes)
    → a < 256
    → b < 256
    → c < 256
    → d < 256
    → e < 256
    → push_all (digits a b c d e) (from_scratch out) ≡ from_scratch (out ++ a ∷ b ∷ c ∷ d ∷ e ∷ [])
unfolding push_all push_digit
push_all-digits a b c d e out ha hb hc hd he =
    let s₁ : (0 + a / 8) * 32 % 4294967296 + (a % 8 * 4 + b / 64) ≡ a * 4 + b / 64 = omega arith in
    let m₁ : (a * 4 + b / 64) % 4 ≡ b / 64 = omega arith in
    let o₁ : (a * 4 + b / 64) / 4 % 256 ≡ a = omega arith in
    let s₂ : (b / 64 * 32 % 4294967296 + b / 2 % 32) * 32 % 4294967296 + (b % 2 * 16 + c / 16)
        ≡ b * 16 + c / 16 =
      omega arith in
    let m₂ : (b * 16 + c / 16) % 16 ≡ c / 16 = omega arith in
    let o₂ : (b * 16 + c / 16) / 16 % 256 ≡ b = omega arith in
    let s₃ : c / 16 * 32 % 4294967296 + (c % 16 * 2 + d / 128) ≡ c * 2 + d / 128 = omega arith in
    let m₃ : (c * 2 + d / 128) % 2 ≡ d / 128 = omega arith in
    let o₃ : (c * 2 + d / 128) / 2 % 256 ≡ c = omega arith in
    let s₄ : (d / 128 * 32 % 4294967296 + d / 4 % 32) * 32 % 4294967296 + (d % 4 * 8 + e / 32)
        ≡ d * 8 + e / 32 =
      omega arith in
    let m₄ : (d * 8 + e / 32) % 8 ≡ e / 32 = omega arith in
    let o₄ : (d * 8 + e / 32) / 8 % 256 ≡ d = omega arith in
    let s₅ : e / 32 * 32 % 4294967296 + e % 32 ≡ e = omega arith in
    let o₅ : e / 1 % 256 ≡ e = omega arith in
    let m₅ : e % 1 ≡ 0 = omega arith in
    rw (s₁, m₁, o₁, s₂, m₂, o₂, s₃, m₃, o₃, s₄, m₄, o₄, s₅, o₅, m₅)
      (ap from_scratch (five out a b c d e))

pub digits-IsDigit :
    (a b c d e : ℕ)
    → a < 256
    → b < 256
    → c < 256
    → d < 256
    → e < 256
    → All (λ i. i < 32) (digits a b c d e)
digits-IsDigit a b c d e ha hb hc hd he = (
  omega arith,
  (
    omega arith,
    (omega arith, (omega arith, (omega arith, (omega arith, (omega arith, (omega arith, tt)))))),
  ),
)

decode_from-base32_encode :
    (groups : ℕ) (s out : Bytes)
    → length s ≡ groups * 5
    → IsBytes s
    → decode_from (base32_encode s) (from_scratch out) ≡ ok (out ++ s)
unfolding base32_encode decode_from
decode_from-base32_encode groups [] out l h = ap ok (sym (append-nil out))
decode_from-base32_encode zero (a ∷ s) out l h = absurd (omega (arith, l))
decode_from-base32_encode (suc g) (a ∷ []) out l h = absurd (omega (arith, l))
decode_from-base32_encode (suc g) (a ∷ b ∷ []) out l h = absurd (omega (arith, l))
decode_from-base32_encode (suc g) (a ∷ b ∷ c ∷ []) out l h = absurd (omega (arith, l))
decode_from-base32_encode (suc g) (a ∷ b ∷ c ∷ d ∷ []) out l h = absurd (omega (arith, l))
decode_from-base32_encode (suc g) (a ∷ b ∷ c ∷ d ∷ e ∷ s) out l (ha, (hb, (hc, (hd, (he, h))))) =
    decode_from-letters (digits a b c d e) (base32_encode s) (from_scratch out)
      (digits-IsDigit a b c d e ha hb hc hd he)
    ∙ ap (decode_from (base32_encode s)) (push_all-digits a b c d e out ha hb hc hd he)
    ∙ decode_from-base32_encode g s (out ++ a ∷ b ∷ c ∷ d ∷ e ∷ []) (omega (arith, l)) h
    ∙ ap ok (append_assoc out (a ∷ b ∷ c ∷ d ∷ e ∷ []) s)

length-base32_encode :
    (groups : ℕ) (s : Bytes) → length s ≡ groups * 5 → length (base32_encode s) ≡ groups * 8
unfolding base32_encode
length-base32_encode zero [] l = refl
length-base32_encode (suc g) [] l = absurd (omega (arith, l))
length-base32_encode zero (a ∷ s) l = absurd (omega (arith, l))
length-base32_encode (suc g) (a ∷ []) l = absurd (omega (arith, l))
length-base32_encode (suc g) (a ∷ b ∷ []) l = absurd (omega (arith, l))
length-base32_encode (suc g) (a ∷ b ∷ c ∷ []) l = absurd (omega (arith, l))
length-base32_encode (suc g) (a ∷ b ∷ c ∷ d ∷ []) l = absurd (omega (arith, l))
length-base32_encode (suc g) (a ∷ b ∷ c ∷ d ∷ e ∷ s) l =
    omega (arith, length-base32_encode g s (omega (arith, l)))

module _ (hex_decode : Bytes → Option Bytes) (percent_decode : Bytes → Bytes) where
  -- An info hash of 20 bytes, written in the 32 letters of RFC 4648, is read back.
  pub parse_btih-base32_encode :
      (h : Bytes)
      → length h ≡ 20
      → IsBytes h
      → parse_btih hex_decode percent_decode (base32_encode h) ≡ ok h
  unfolding parse_btih base32_decode
  parse_btih-base32_encode h l b =
      let long : length (base32_encode h) ≡ 32 = length-base32_encode 4 h l in
      rw (long, decode_from-base32_encode 4 h [] l b, l) refl
