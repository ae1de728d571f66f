-- ===== src/Peer/HandshakeLaws.antt =====
-- The handshake through its 68 bytes and back.
use tortue.Prelude.{
  ℕ, Bytes, [], ◌∷◌, ◌++◌, Bool, true, false, Result, ok, err, ◌==◌, length, take, drop, get_or,
  ◌≡◌, refl, ap, sym, subst, ◌∙◌, arith, length-append, take_all, take_exactly, drop_exactly,
  if◌then◌else◌, not, ◌+◌, bytes_beq, bytes_beq_iff, ==_iff, take-append-drop, drop-drop,
  length-take, length-drop,
}
use tortue.Peer.Handshake.{
  Handshake, encode, decode, read_fields, or_mask, has_mask, fast_extension_mask,
  extension_protocol_mask, dht_protocol_mask, handshake_len, pstr, Error, invalid_length,
  invalid_protocol_length, invalid_protocol,
}

-- The two hashes are arrays of 20 bytes.
abbrev pub IsSized : Handshake → Type 0
IsSized h = (length h.info_hash ≡ 20) × (length h.peer_id ≡ 20)

extension_bit :
    (e : Bool) → has_mask (or_mask e extension_protocol_mask 0) extension_protocol_mask ≡ e
extension_bit true = refl
extension_bit false = refl

fast_bit :
    (d f : Bool)
    → has_mask (or_mask d dht_protocol_mask (or_mask f fast_extension_mask 0)) fast_extension_mask
      ≡ f
fast_bit true true = refl
fast_bit true false = refl
fast_bit false true = refl
fast_bit false false = refl

dht_bit :
    (d f : Bool)
    → has_mask (or_mask d dht_protocol_mask (or_mask f fast_extension_mask 0)) dht_protocol_mask ≡ d
dht_bit true true = refl
dht_bit true false = refl
dht_bit false true = refl
dht_bit false false = refl

read_fields-encode : (h : Handshake) → IsSized h → read_fields (encode h) ≡ h
unfolding encode read_fields
read_fields-encode h (hash, id) = λ i. record {
  info_hash = take_exactly 20 h.info_hash h.peer_id hash i;
  peer_id =
      (ap (take 20) (drop_exactly 20 h.info_hash h.peer_id hash)
          ∙ take_all 20 h.peer_id (omega (arith, id)))
        i;
  dht_protocol = dht_bit h.dht_protocol h.fast_extension i;
  extension_protocol = extension_bit h.extension_protocol i;
  fast_extension = fast_bit h.dht_protocol h.fast_extension i;
}

length-encode : (h : Handshake) → IsSized h → length (encode h) ≡ 68
unfolding encode
length-encode h (hash, id) = omega (arith, length-append h.info_hash h.peer_id)

-- The 68 bytes of a handshake, whose info hash and peer identifier have 20 bytes each, decode to
-- it, all three flags included.
pub decode-encode_peer_handshake : (h : Handshake) → IsSized h → decode (encode h) ≡ ok h
unfolding encode decode
decode-encode_peer_handshake h sized =
    ap (λ n. if not (n == handshake_len) then err invalid_length else ok (read_fields (encode h)))
      (length-encode h sized)
    ∙ ap (λ g. ok g) (read_fields-encode h sized)

abbrev success : Handshake → Result Error Handshake
success = ok

-- A guard that was passed.
guard-ok :
    (b : Bool) (e : Error) (x : Result Error Handshake) (h : Handshake)
    → (if not b then err e else x) ≡ ok h
    → (b ≡ true) × (x ≡ ok h)
guard-ok true e x h eq = (refl, eq)
guard-ok false e x h eq = absurd (cc)

read_fields-IsSized : (buf : Bytes) → length buf ≡ 68 → IsSized (read_fields buf)
unfolding read_fields
read_fields-IsSized buf full = (
  omega (arith, length-take 20 (drop 28 buf), length-drop 28 buf, full),
  omega (arith, length-take 20 (drop 48 buf), length-drop 48 buf, full),
)

cut : (n k m : ℕ) (s : Bytes) → m ≡ n + k → drop n s ≡ take k (drop n s) ++ drop m s
cut n k m s h =
    sym (take-append-drop k (drop n s)) ∙ ap (λ t. take k (drop n s) ++ t) (drop-drop n k m s h)

-- The four parts behind the first byte.
parts :
    (s : Bytes)
    → length s ≡ 67
    → s ≡ take 19 s ++ (take 8 (drop 19 s) ++ (take 20 (drop 27 s) ++ take 20 (drop 47 s)))
parts s full =
    cut 0 19 19 s refl
    ∙ ap (λ t. take 19 s ++ t)
        (cut 19 8 27 s refl
          ∙ ap (λ t. take 8 (drop 19 s) ++ t)
              (cut 27 20 47 s refl ∙ ap (λ t. take 20 (drop 27 s) ++ t) (sym whole)))
  where
    whole : take 20 (drop 47 s) ≡ drop 47 s
    whole = take_all 20 (drop 47 s) (omega (arith, length-drop 47 s, full))

ok_injective : (g h : Handshake) → success g ≡ success h → g ≡ h
ok_injective g h eq = cc

accepted :
    (buf : Bytes) (h : Handshake)
    → decode buf ≡ ok h
    → (length buf ≡ 68)
      × (get_or buf 0 0 ≡ 19)
      × (take 19 (drop 1 buf) ≡ pstr)
      × (read_fields buf ≡ h)
unfolding decode
accepted buf h eq =
    let (full, eq1) = guard-ok (length buf == handshake_len) invalid_length _ h eq in
    let (first, eq2) = guard-ok (get_or buf 0 0 == length pstr) invalid_protocol_length _ h eq1 in
    let (text, eq3) = guard-ok (bytes_beq (take 19 (drop 1 buf)) pstr) invalid_protocol _ h eq2 in
    ((==_iff _ _).0 full, (==_iff _ _).0 first, (bytes_beq_iff _ _).0 text, ok_injective _ _ eq3)

-- What a peer sent, apart from the reserved bytes, which are the peer's.
abbrev pub IsSentAs : Bytes → Handshake → Type 0
IsSentAs buf h = buf ≡ 19 ∷ (pstr ++ (take 8 (drop 20 buf) ++ (h.info_hash ++ h.peer_id)))

fields-IsSentAs :
    (buf : Bytes)
    → length buf ≡ 68
    → get_or buf 0 0 ≡ 19
    → take 19 (drop 1 buf) ≡ pstr
    → IsSentAs buf (read_fields buf)
unfolding read_fields
fields-IsSentAs [] full first text = absurd (omega (arith, full))
fields-IsSentAs (x ∷ s) full first text =
    (λ i. first i ∷ parts s (omega (arith, full)) i)
    ∙ ap (λ t. 19 ∷ (t ++ (take 8 (drop 19 s) ++ (take 20 (drop 27 s) ++ take 20 (drop 47 s)))))
        text

-- A buffer that is accepted as a handshake has its length and protocol text, and is, the eight
-- reserved bytes apart, what the decoded fields say: they have 20 bytes each, and stand in order
-- behind the reserved bytes to the end.
pub decode-IsSentAs : (buf : Bytes) (h : Handshake) → decode buf ≡ ok h → IsSized h × IsSentAs buf h
decode-IsSentAs buf h eq =
    let (full, first, text, fields) = accepted buf h eq in
    subst (λ g. IsSized g × IsSentAs buf g) fields
      (read_fields-IsSized buf full, fields-IsSentAs buf full first text)
