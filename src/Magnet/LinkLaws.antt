-- ===== src/Magnet/LinkLaws.antt =====
-- The parser of domain/magnet.rs on a whole link.
use tortue.Prelude.{
  ℕ, zero, suc, ◌<◌, Bytes, List, [], ◌∷◌, ◌++◌, map, All, Bool, true, false, not, ◌&&◌, Option,
  none, some, ok, ◌>>=◌, get_or, codes, length, ◌==◌, ◌≡◌, ◌≢◌, ◌⊎◌, inl, inr, refl, sym, ap, subst,
  ◌∙◌, arith, append-nil, append_assoc,
}
use tortue.Prelude.Be.{IsBytes}
use tortue.Magnet.{
  Fields, split, split_once, fields, field, topic, stripped, no_fields, link_of, try_from,
}
use tortue.Magnet.Laws.{
  base32_encode, letters, digits, digits-IsDigit, rfc4648_letters, parse_btih-base32_encode,
}

abbrev pub Lacks : ℕ → Bytes → Type 0
Lacks b s = All (λ c. c ≢ b) s

-- Parameters in a row.
abbrev pub joined : Bytes → List Bytes → Bytes
joined p [] = p
joined p (q ∷ qs) = p ++ b'&' ∷ joined q qs

abbrev pub keyed : Bytes → List Bytes → List Bytes
keyed key [] = []
keyed key (v ∷ vs) = (key ++ v) ∷ keyed key vs

-- The parameters of a link after its topic.
abbrev pub more : Bytes → List Bytes → List Bytes → List Bytes
more name trackers peers =
    (codes "dn=" ++ name) ∷ (keyed (codes "tr=") trackers ++ keyed (codes "x.pe=") peers)

-- A link in the form of BEP 9, its values as they stand in the text.
abbrev pub link_text : Bytes → Bytes → List Bytes → List Bytes → Bytes
link_text hash name trackers peers =
    codes "magnet:?"
    ++ joined (codes "xt=urn:btih:" ++ base32_encode hash) (more name trackers peers)

differs : (c b : ℕ) → c ≢ b → (c == b) ≡ false
differs c b h = ground arith

split-Lacks : (s : Bytes) → Lacks 38 s → split 38 s ≡ (s, [])
unfolding split
split-Lacks [] h = refl
split-Lacks (c ∷ s) h = rw (split-Lacks s h.1, differs c 38 h.0) refl

split-append :
    (s t : Bytes) → Lacks 38 s → split 38 (s ++ 38 ∷ t) ≡ (s, (split 38 t).0 ∷ (split 38 t).1)
unfolding split
split-append [] t h = refl
split-append (c ∷ s) t h = rw (split-append s t h.1, differs c 38 h.0) refl

split-joined :
    (p : Bytes) (ps : List Bytes)
    → Lacks 38 p
    → All (Lacks 38) ps
    → split 38 (joined p ps) ≡ (p, ps)
split-joined p [] h k = split-Lacks p h
split-joined p (q ∷ qs) h k =
    split-append p (joined q qs) h ∙ ap (λ x. (p, x.0 ∷ x.1)) (split-joined q qs k.0 k.1)

All-append : {A : Type 0} (P : A → Type 0) (s t : List A) → All P s → All P t → All P (s ++ t)
All-append P [] t h k = k
All-append P (c ∷ s) t h k = (h.0, All-append P s t h.1 k)

keyed-Lacks :
    (key : Bytes) (vs : List Bytes)
    → Lacks 38 key
    → All (Lacks 38) vs
    → All (Lacks 38) (keyed key vs)
keyed-Lacks key [] h k = tt
keyed-Lacks key (v ∷ vs) h k = (All-append (λ c. c ≢ 38) key v h k.0, keyed-Lacks key vs h k.1)

-- No letter of base 32 is `%` or `&`.
abbrev is_plain : ℕ → Bool
is_plain c = not (c == 37) && not (c == 38)

abbrev all_below : ℕ → (ℕ → Bool) → Bool
all_below zero t = true
all_below (suc n) t = t n && all_below n t

below_test : (n : ℕ) (t : ℕ → Bool) (i : ℕ) → all_below n t ≡ true → i < n → t i ≡ true
below_test zero t i h l = absurd (omega arith)
below_test (suc n) t i h l = elim (split_at i n (omega arith)) [
  | inl e ↦ subst (λ j. t j ≡ true) (sym e) (ground (arith, h))
  | inr k ↦ below_test n t i (ground (arith, h)) k
]
  where
    split_at : (j m : ℕ) → j < suc m → (j ≡ m) ⊎ (j < m)
    split_at j m h = ground arith

abbrev letter : ℕ → ℕ
letter d = get_or rfc4648_letters d 0

letter-is_plain : (d : ℕ) → d < 32 → is_plain (letter d) ≡ true
letter-is_plain d l = below_test 32 (λ i. is_plain (letter i)) d refl l

abbrev IsPlain : ℕ → Type 0
IsPlain c = is_plain c ≡ true

letters-IsPlain : (ds : List ℕ) → All (λ d. d < 32) ds → All IsPlain (letters ds)
letters-IsPlain [] h = tt
letters-IsPlain (d ∷ ds) h = (letter-is_plain d h.0, letters-IsPlain ds h.1)

base32_encode-IsPlain : (s : Bytes) → IsBytes s → All IsPlain (base32_encode s)
unfolding base32_encode
base32_encode-IsPlain [] h = tt
base32_encode-IsPlain (a ∷ []) h = tt
base32_encode-IsPlain (a ∷ b ∷ []) h = tt
base32_encode-IsPlain (a ∷ b ∷ c ∷ []) h = tt
base32_encode-IsPlain (a ∷ b ∷ c ∷ d ∷ []) h = tt
base32_encode-IsPlain (a ∷ b ∷ c ∷ d ∷ e ∷ s) (ha, (hb, (hc, (hd, (he, h))))) =
    All-append IsPlain (letters (digits a b c d e)) (base32_encode s)
      (letters-IsPlain (digits a b c d e) (digits-IsDigit a b c d e ha hb hc hd he))
      (base32_encode-IsPlain s h)

All-map : (P Q : ℕ → Type 0) (s : Bytes) → ((c : ℕ) → P c → Q c) → All P s → All Q s
All-map P Q [] f h = tt
All-map P Q (c ∷ s) f h = (f c h.0, All-map P Q s f h.1)

IsPlain-Lacks : (s : Bytes) → All IsPlain s → Lacks 37 s × Lacks 38 s
IsPlain-Lacks s h =
    (All-map IsPlain (λ c. c ≢ 37) s lacks_37 h, All-map IsPlain (λ c. c ≢ 38) s lacks_38 h)
  where
    lacks_37 : (c : ℕ) → IsPlain c → c ≢ 37
    lacks_37 c k = ground (arith, k)

    lacks_38 : (c : ℕ) → IsPlain c → c ≢ 38
    lacks_38 c k = ground (arith, k)

abbrev all_plain : Bytes → Bool
all_plain [] = true
all_plain (c ∷ s) = is_plain c && all_plain s

all_plain-IsPlain : (s : Bytes) → all_plain s ≡ true → All IsPlain s
all_plain-IsPlain [] h = tt
all_plain-IsPlain (c ∷ s) h = (ground (arith, h), all_plain-IsPlain s (ground (arith, h)))

-- A literal and the letters of a hash.
prefixed :
    (literal hash : Bytes)
    → all_plain literal ≡ true
    → IsBytes hash
    → Lacks 37 (literal ++ base32_encode hash) × Lacks 38 (literal ++ base32_encode hash)
prefixed literal hash h b = IsPlain-Lacks (literal ++ base32_encode hash) (
    All-append IsPlain literal (base32_encode hash) (all_plain-IsPlain literal h)
      (base32_encode-IsPlain hash b))

more-Lacks :
    (name : Bytes) (trackers peers : List Bytes)
    → Lacks 38 name
    → All (Lacks 38) trackers
    → All (Lacks 38) peers
    → All (Lacks 38) (more name trackers peers)
more-Lacks name trackers peers n t p = (
  All-append (λ c. c ≢ 38) (codes "dn=") name (lacks (codes "dn=") refl) n,
  All-append (Lacks 38) (keyed (codes "tr=") trackers) (keyed (codes "x.pe=") peers)
      (keyed-Lacks (codes "tr=") trackers (lacks (codes "tr=") refl) t)
      (keyed-Lacks (codes "x.pe=") peers (lacks (codes "x.pe=") refl) p),
)
  where
    lacks : (s : Bytes) → all_plain s ≡ true → Lacks 38 s
    lacks s h = (IsPlain-Lacks s (all_plain-IsPlain s h)).1

module _ (hex_decode : Bytes → Option Bytes) (percent_decode : Bytes → Bytes) where
  fields-trackers :
      (vs : List Bytes) (rest : List Bytes) (f : Fields)
      → fields hex_decode percent_decode (keyed (codes "tr=") vs ++ rest) f
        ≡ fields hex_decode percent_decode rest
            (record f { trackers = f.trackers ++ map percent_decode vs })
  unfolding fields field split_once
  fields-trackers [] rest f =
      ap (λ t. fields hex_decode percent_decode rest (record f { trackers = t }))
        (sym (append-nil f.trackers))
  fields-trackers (v ∷ vs) rest f =
      fields-trackers vs rest (record f { trackers = f.trackers ++ percent_decode v ∷ [] })
      ∙ ap (λ t. fields hex_decode percent_decode rest (record f { trackers = t }))
          (append_assoc f.trackers (percent_decode v ∷ []) (map percent_decode vs))

  fields-peers :
      (vs : List Bytes) (f : Fields)
      → fields hex_decode percent_decode (keyed (codes "x.pe=") vs) f
        ≡ ok (record f { peers = f.peers ++ map percent_decode vs })
  unfolding fields field split_once
  fields-peers [] f = ap (λ t. ok (record f { peers = t })) (sym (append-nil f.peers))
  fields-peers (v ∷ vs) f =
      fields-peers vs (record f { peers = f.peers ++ percent_decode v ∷ [] })
      ∙ ap (λ t. ok (record f { peers = t }))
          (append_assoc f.peers (percent_decode v ∷ []) (map percent_decode vs))

  fields-more :
      (name : Bytes) (trackers peers : List Bytes) (f : Fields)
      → fields hex_decode percent_decode (more name trackers peers) f
        ≡ ok (record f {
          name = some (percent_decode name);
          trackers = f.trackers ++ map percent_decode trackers;
          peers = f.peers ++ map percent_decode peers;
        })
  unfolding fields field split_once
  fields-more name trackers peers f =
      fields-trackers trackers (keyed (codes "x.pe=") peers)
        (record f { name = some (percent_decode name) })
      ∙ fields-peers peers (record f {
        name = some (percent_decode name);
        trackers = f.trackers ++ map percent_decode trackers;
      })

  topic_btih :
      (h : Bytes)
      → length h ≡ 20
      → IsBytes h
      → topic hex_decode percent_decode none (codes "urn:btih:" ++ base32_encode h) ≡ ok (some h)
  unfolding topic stripped
  topic_btih h l b = rw (parse_btih-base32_encode hex_decode percent_decode h l b) refl

  fields_link :
      (hash name : Bytes) (trackers peers : List Bytes)
      → length hash ≡ 20
      → IsBytes hash
      → percent_decode (codes "urn:btih:" ++ base32_encode hash)
        ≡ codes "urn:btih:" ++ base32_encode hash
      → fields hex_decode percent_decode
          ((codes "xt=urn:btih:" ++ base32_encode hash) ∷ more name trackers peers)
          no_fields
        ≡ ok (record {
          info_hash = some hash;
          name = some (percent_decode name);
          trackers = map percent_decode trackers;
          peers = map percent_decode peers;
        })
  unfolding fields field split_once
  fields_link hash name trackers peers l b same =
      rw (same, topic_btih hash l b)
        (fields-more name trackers peers (record no_fields { info_hash = some hash }))

  try_from_query :
      (query p : Bytes) (ps : List Bytes) (f : Fields)
      → split 38 query ≡ (p, ps)
      → fields hex_decode percent_decode (p ∷ ps) no_fields ≡ ok f
      → try_from hex_decode percent_decode (codes "magnet:?" ++ query)
        ≡ link_of hex_decode percent_decode f
  unfolding try_from
  try_from_query query p ps f cut found =
      ap
        (λ x.
          fields hex_decode percent_decode (x.0 ∷ x.1) no_fields
          >>= link_of hex_decode percent_decode)
        cut
      ∙ ap (λ r. r >>= link_of hex_decode percent_decode) found

  -- A link in the form of BEP 9, with the info hash in base 32, a name, and any trackers and peers,
  -- is read to this hash, and to the name, trackers and peers with their escapes decoded, in order;
  -- where the hash has 20 bytes, no value has an `&`, and the decoder of escapes leaves a text
  -- without `%` as it is.
  pub try_from-link_text :
      (hash name : Bytes) (trackers peers : List Bytes)
      → ((s : Bytes) → Lacks 37 s → percent_decode s ≡ s)
      → length hash ≡ 20
      → IsBytes hash
      → Lacks 38 name
      → All (Lacks 38) trackers
      → All (Lacks 38) peers
      → try_from hex_decode percent_decode (link_text hash name trackers peers)
        ≡ ok (record {
          info_hash = hash;
          trackers = map percent_decode trackers;
          name = some (percent_decode name);
          peers = map percent_decode peers;
        })
  try_from-link_text hash name trackers peers as_is l b n t p =
      let xt = codes "xt=urn:btih:" ++ base32_encode hash in
      let others = more name trackers peers in
      let cut =
        split-joined xt others (prefixed (codes "xt=urn:btih:") hash refl b).1
          (more-Lacks name trackers peers n t p) in
      let same =
        as_is (codes "urn:btih:" ++ base32_encode hash)
          (prefixed (codes "urn:btih:") hash refl b).0 in
      try_from_query (joined xt others) xt others _ cut
        (fields_link hash name trackers peers l b same)
