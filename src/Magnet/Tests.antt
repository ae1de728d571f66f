-- ===== src/Magnet/Tests.antt =====
-- Magnet links, with decoders that leave their text as it is or refuse it.
use tortue.Prelude.Be.{IsBytes}
use tortue.Prelude.{
  ℕ, zero, suc, Bytes, [], ◌∷◌, Option, none, some, ok, err, codes, replicate, ◌≡◌, refl, arith,
}
use tortue.Magnet.{MagnetLink, missing_xt, parse_btih, try_from}
use tortue.Magnet.Laws.{base32_encode, parse_btih-base32_encode}
use tortue.Magnet.LinkLaws.{link_text, try_from-link_text}

abbrev no_hex : Bytes → Option Bytes
no_hex s = none

abbrev plain : Bytes → Bytes
plain s = s

parse_btih-base32_encode_example :
    parse_btih no_hex plain (base32_encode (replicate 20 200)) ≡ ok (replicate 20 200)
parse_btih-base32_encode_example = parse_btih-base32_encode no_hex plain (replicate 20 200) refl (
  omega arith,
  (
    omega arith,
    (
      omega arith,
      (
        omega arith,
        (
          omega arith,
          (
            omega arith,
            (
              omega arith,
              (
                omega arith,
                (
                  omega arith,
                  (
                    omega arith,
                    (
                      omega arith,
                      (
                        omega arith,
                        (
                          omega arith,
                          (
                            omega arith,
                            (
                              omega arith,
                              (
                                omega arith,
                                (omega arith, (omega arith, (omega arith, (omega arith, tt)))),
                              ),
                            ),
                          ),
                        ),
                      ),
                    ),
                  ),
                ),
              ),
            ),
          ),
        ),
      ),
    ),
  ),
)

-- The test of the source: 32 letters A are 20 zero bytes.
abbrev zero_link : Bytes
zero_link = codes "magnet:?xt=urn:btih:aAAAAAAAAAAAAAAAAAAAAAAAAAAAAAAA&tr=t&dn&dn=n&tr=u"

abbrev link : MagnetLink
link = record {
  info_hash = replicate 20 0;
  trackers = codes "t" ∷ codes "u" ∷ [];
  name = some (codes "n");
  peers = [];
}

link_accepted : try_from no_hex plain zero_link ≡ ok link
unfolding try_from
link_accepted = refl

zeros-IsBytes : IsBytes (replicate 20 0)
zeros-IsBytes = All-replicate 20
  where
    All-replicate : (n : ℕ) → IsBytes (replicate n 0)
    All-replicate zero = tt
    All-replicate (suc n) = (omega arith, All-replicate n)

try_from-link_text_example :
    try_from no_hex plain (link_text (replicate 20 0) (codes "n") (codes "t" ∷ codes "u" ∷ []) [])
    ≡ ok link
try_from-link_text_example =
    try_from-link_text no_hex plain (replicate 20 0) (codes "n") (codes "t" ∷ codes "u" ∷ []) []
      (λ s h. refl) refl zeros-IsBytes (λ e. absurd (omega (arith, e)), tt)
      ((λ e. absurd (omega (arith, e)), tt), ((λ e. absurd (omega (arith, e)), tt), tt)) tt

no_topic : try_from no_hex plain (codes "magnet:?dn=n") ≡ err missing_xt
unfolding try_from
no_topic = refl
