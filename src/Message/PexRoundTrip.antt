-- ===== src/Message/PexRoundTrip.antt =====
-- Peer exchange: a set of IPv4 peers through its payload and back.
use tortue.Prelude.{
  ◌*◌, ◌^◌, ◌<◌, Bytes, List, [], ◌∷◌, ◌++◌, false, ok, codes, length, is_empty, ◌≡◌, ◌≢◌, refl, ap,
  arith, All, append-nil, append_assoc, ◌∙◌,
}
use tortue.Prelude.Dict.{contains, contains-append}
use tortue.Net.{SocketAddr, addr_eq, addr_beq_iff}
use tortue.Bencode.Value.{Bencode, bytes, dict, no_entries, entry, WellFormed}
use tortue.Bencode.Encoder
use tortue.Bencode.RoundTrip.{decode-encode}
use tortue.Message.Pex.{insert_all, field, fields, remaining, of_value, decode, compact_v4, encode}
use tortue.Message.PexLaws.{
  FitsV4, IsDistinct, length-compact_v4, compact_v6-nil, parse_socket_addrs-compact_v4,
}

-- No address of `xs` is in `s`.
abbrev Fresh : List SocketAddr → List SocketAddr → Type 0
Fresh s = All (λ x. contains x s ≡ false)

Fresh-snoc :
    (s : List SocketAddr) (a : SocketAddr) (xs : List SocketAddr)
    → Fresh s xs
    → contains a xs ≡ false
    → Fresh (s ++ a ∷ []) xs
Fresh-snoc s a [] h c = tt
Fresh-snoc s a (x ∷ xs) h c = (
  ground (arith, contains-append x s (a ∷ []), addr_beq_iff a x, addr_beq_iff x a),
  Fresh-snoc s a xs h.1 (ground arith),
)

insert_all-Fresh : (xs s : List SocketAddr) → IsDistinct xs → Fresh s xs → insert_all xs s ≡ s ++ xs
unfolding insert_all
insert_all-Fresh [] s d h = rw append-nil refl
insert_all-Fresh (a ∷ xs) s d h =
    rw h.0 (
      insert_all-Fresh xs (s ++ a ∷ []) d.1 (Fresh-snoc s a xs h.1 d.0)
      ∙ append_assoc s (a ∷ []) xs)

Fresh-nothing : (xs : List SocketAddr) → Fresh [] xs
Fresh-nothing [] = tt
Fresh-nothing (x ∷ xs) = (refl, Fresh-nothing xs)

remaining_all : (xs : List SocketAddr) → remaining [] xs ≡ xs
unfolding remaining
remaining_all [] = refl
remaining_all (x ∷ xs) = ap (λ t. x ∷ t) (remaining_all xs)

is_empty-compact_v4 :
    (xs : List SocketAddr) → xs ≢ [] → All FitsV4 xs → is_empty (compact_v4 xs) ≡ false
is_empty-compact_v4 [] n h = absurd (n refl)
is_empty-compact_v4 (x ∷ xs) n h =
    of_length (compact_v4 (x ∷ xs)) (omega (arith, length-compact_v4 (x ∷ xs) h))
  where
    of_length : (s : Bytes) → 0 < length s → is_empty s ≡ false
    of_length [] p = absurd (omega arith)
    of_length (c ∷ s) p = refl

abbrev payload : List SocketAddr → Bencode
payload xs = dict (entry (codes "added") (bytes (compact_v4 xs)) no_entries)

encode-payload :
    (xs : List SocketAddr) → xs ≢ [] → All FitsV4 xs → encode xs ≡ Encoder.encode (payload xs)
unfolding encode
encode-payload xs n h = rw (is_empty-compact_v4 xs n h, compact_v6-nil xs h) refl

payload-WellFormed :
    (xs : List SocketAddr) → 6 * length xs < 2 ^ 64 → All FitsV4 xs → WellFormed (payload xs)
unfolding WellFormed
payload-WellFormed xs b h = ((tt, tt), (omega arith, omega (arith, length-compact_v4 xs h), tt))

of_value-payload :
    (xs : List SocketAddr) → All FitsV4 xs → IsDistinct xs → of_value (payload xs) ≡ ok xs
unfolding fields field
of_value-payload xs h d =
    rw
      (
        parse_socket_addrs-compact_v4 xs h,
        insert_all-Fresh xs [] d (Fresh-nothing xs),
        remaining_all xs,
      )
      refl

-- A nonempty list of distinct IPv4 peers, of which the addresses fit 64 bits of length, is read
-- back from its payload.
pub decode-encode_v4 :
    (xs : List SocketAddr)
    → xs ≢ []
    → All FitsV4 xs
    → IsDistinct xs
    → 6 * length xs < 2 ^ 64
    → decode (encode xs) ≡ ok xs
unfolding decode
decode-encode_v4 xs n h d b = rw (encode-payload xs n h) (
    rw (rw append-nil at (decode-encode (payload xs) [] (payload-WellFormed xs b h)), decode)
      (of_value-payload xs h d))
