-- ===== src/Message/PexLaws.antt =====
-- Peer exchange: what survives the wire.
use tortue.Prelude.{
  ℕ, ◌*◌, ◌/◌, ◌%◌, ◌^◌, ◌<◌, Bytes, List, [], ◌∷◌, ◌++◌, map, true, false, Result, ok, err,
  map_err, codes, ◌>>=◌, >>=-eq-ok, ◌==◌, ◌||◌, bytes_beq, if◌then◌else◌, length, take, drop, ◌≡◌,
  refl, arith, All, length-append, take_append_left, drop_append_left, subst, Bool-cases, inl, inr,
}
use tortue.Prelude.Chunks.{chunks, chunks_exact}
use tortue.Prelude.Be.{to_be_bytes16, from_be-to_be16}
use tortue.Prelude.Dict.{contains, add}
use tortue.Net.{SocketAddr, v4, v6, addr_eq}
use tortue.Bencode.Value.{Bencode, Entries, int, bytes, list, dict, no_entries, entry}
use tortue.Bencode.Decoder
use tortue.Message.Types.{Error, invalid_message, bencode}
use tortue.Message.Pex.{
  addr_v4, parse_socket_addrs, insert_all, Fields, field, fields, remaining, finish, of_value,
  decode, compact, compact_v4, compact_v6, no_fields,
}

-- The branch for IPv6 is never taken: a length that 18 divides is divided by 6, so that every list
-- of addresses is read as IPv4, and the branch could be left out.
pub parse_socket_addrs_never_v6 :
    (s : Bytes)
    → parse_socket_addrs s
      ≡ (if length s % 6 == 0 then ok (map addr_v4 (chunks_exact 6 s)) else err invalid_message)
unfolding parse_socket_addrs
parse_socket_addrs_never_v6 s = ground arith

abbrev pub IsV4 : SocketAddr → Type 0
IsV4 (v4 a p) = Unit
IsV4 (v6 a p) = ⊥

map-addr_v4 : (cs : List Bytes) → All IsV4 (map addr_v4 cs)
map-addr_v4 [] = tt
map-addr_v4 (c ∷ cs) = (tt, map-addr_v4 cs)

All-add : (a : SocketAddr) (s : List SocketAddr) → IsV4 a → All IsV4 s → All IsV4 (add a s)
All-add a s h k = elim (Bool-cases (contains a s)) [ inl e ↦ rw e k | inr e ↦ rw e (All-snoc s k) ]
  where
    All-snoc : (t : List SocketAddr) → All IsV4 t → All IsV4 (t ++ a ∷ [])
    All-snoc [] k = (h, tt)
    All-snoc (b ∷ t) k = (k.0, All-snoc t k.1)

All-insert_all : (xs s : List SocketAddr) → All IsV4 xs → All IsV4 s → All IsV4 (insert_all xs s)
unfolding insert_all
All-insert_all [] s h k = k
All-insert_all (a ∷ xs) s h k = All-insert_all xs (add a s) h.1 (All-add a s h.0 k)

parse_socket_addrs-IsV4 :
    (s : Bytes) (addrs : List SocketAddr) → parse_socket_addrs s ≡ ok addrs → All IsV4 addrs
parse_socket_addrs-IsV4 s addrs e =
    subst (All IsV4) (ground (arith, parse_socket_addrs_never_v6 s))
      (map-addr_v4 (chunks_exact 6 s))

added_step :
    (r : Result Error (List SocketAddr)) (f g : Fields)
    → ((addrs : List SocketAddr) → r ≡ ok addrs → All IsV4 addrs)
    → All IsV4 f.added
    → (r >>= λ addrs. ok (record f { added = insert_all addrs f.added; has_pex_field = true }))
      ≡ ok g
    → All IsV4 g.added
added_step (ok addrs) f g h k e =
    let same : insert_all addrs f.added ≡ g.added = ground arith in
    subst (All IsV4) same (All-insert_all addrs f.added (h addrs refl) k)
added_step (err x) f g h k e = cc

dropped_step :
    (r : Result Error (List SocketAddr)) (f g : Fields)
    → All IsV4 f.added
    → (r >>= λ addrs. ok (record f { dropped = insert_all addrs f.dropped; has_pex_field = true }))
      ≡ ok g
    → All IsV4 g.added
dropped_step (ok addrs) f g k e =
    let same : f.added ≡ g.added = ground arith in subst (All IsV4) same k
dropped_step (err x) f g k e = cc

field-IsV4 :
    (key value : Bytes) (f g : Fields)
    → All IsV4 f.added
    → field key value f ≡ ok g
    → All IsV4 g.added
unfolding field
field-IsV4 key value f g k =
    elim (Bool-cases (bytes_beq key (codes "added6") || bytes_beq key (codes "added"))) [
      | inl e ↦ rw e (added_step (parse_socket_addrs value) f g (parse_socket_addrs-IsV4 value) k)
      | inr e ↦
          rw e
            (elim (Bool-cases
              (bytes_beq key (codes "dropped6") || bytes_beq key (codes "dropped"))) [
                | inl d ↦ rw d (dropped_step (parse_socket_addrs value) f g k)
                | inr d ↦
                    rw d (λ h. subst (λ (x : Fields). All IsV4 x.added) (ok_injective f g h) k)
              ])
    ]
  where
    ok_injective : (x y : Fields) → ◌≡◌ {A = Result Error Fields} (ok x) (ok y) → x ≡ y
    ok_injective x y h = cc

fields-IsV4 :
    (es : Entries) (f g : Fields) → All IsV4 f.added → fields es f ≡ ok g → All IsV4 g.added
unfolding fields
fields-IsV4 no_entries f g k h = subst (All IsV4) (ground arith) k
fields-IsV4 (entry key (bytes value) es) f g k h =
    let (f', e, h') = >>=-eq-ok (field key value f) (λ x. fields es x) h in
    fields-IsV4 es f' g (field-IsV4 key value f f' k e) h'
fields-IsV4 (entry key (int z) es) f g k h = fields-IsV4 es f g k h
fields-IsV4 (entry key (list xs) es) f g k h = fields-IsV4 es f g k h
fields-IsV4 (entry key (dict d) es) f g k h = fields-IsV4 es f g k h

remaining-IsV4 : (ds xs : List SocketAddr) → All IsV4 xs → All IsV4 (remaining ds xs)
unfolding remaining
remaining-IsV4 ds [] h = tt
remaining-IsV4 ds (a ∷ xs) h = ground (arith, remaining-IsV4 ds xs h.1)

finish-IsV4 :
    (f : Fields) (addrs : List SocketAddr) → All IsV4 f.added → finish f ≡ ok addrs → All IsV4 addrs
finish-IsV4 f addrs k h = subst (All IsV4) (ground arith) (remaining-IsV4 f.dropped f.added k)

of_value-IsV4 : (v : Bencode) (addrs : List SocketAddr) → of_value v ≡ ok addrs → All IsV4 addrs
of_value-IsV4 (dict d) addrs h =
    let (f, e, h') = >>=-eq-ok (fields d no_fields) finish h in
    finish-IsV4 f addrs (fields-IsV4 d no_fields f tt e) h'
of_value-IsV4 (int z) addrs h = cc
of_value-IsV4 (bytes b) addrs h = cc
of_value-IsV4 (list xs) addrs h = cc

-- Whatever payload a peer sends, `added6` included, every address learnt from it is an IPv4
-- address.
pub decode-IsV4 :
    (payload : Bytes) (addrs : List SocketAddr) → decode payload ≡ ok addrs → All IsV4 addrs
unfolding decode
decode-IsV4 payload addrs h =
    let (v, e, h') = >>=-eq-ok (map_err bencode (Decoder.decode payload)) of_value h in
    of_value-IsV4 v addrs h'

-- An IPv4 address as std has it: four octets and sixteen bits of port.
abbrev pub FitsV4 : SocketAddr → Type 0
FitsV4 (v4 a p) = (length a ≡ 4) × (p < 2 ^ 16)
FitsV4 (v6 a p) = ⊥

-- No address twice.
abbrev pub IsDistinct : List SocketAddr → Type 0
IsDistinct [] = Unit
IsDistinct (a ∷ xs) = (contains a xs ≡ false) × IsDistinct xs

pub length-compact_v4 :
    (xs : List SocketAddr) → All FitsV4 xs → length (compact_v4 xs) ≡ 6 * length xs
unfolding compact_v4
length-compact_v4 [] h = refl
length-compact_v4 (v4 a p ∷ xs) h = omega (
  arith,
  length-append (a ++ to_be_bytes16 p) (compact_v4 xs),
  length-append a (to_be_bytes16 p),
  length-compact_v4 xs h.1,
)
length-compact_v4 (v6 a p ∷ xs) h = absurd h.0

pub compact_v6-nil : (xs : List SocketAddr) → All FitsV4 xs → compact_v6 xs ≡ []
unfolding compact_v6
compact_v6-nil [] h = refl
compact_v6-nil (v4 a p ∷ xs) h = compact_v6-nil xs h.1
compact_v6-nil (v6 a p ∷ xs) h = absurd h.0

take_of_length {ℓ} :
    {A : Type ℓ} (n : ℕ) (xs ys : List A)
    → length xs ≡ n
    → (take n (xs ++ ys) ≡ xs) × (drop n (xs ++ ys) ≡ ys)
take_of_length n xs ys h = rw (← h) (take_append_left xs ys, drop_append_left xs ys)

addr_v4-compact : (a : Bytes) (p : ℕ) → FitsV4 (v4 a p) → addr_v4 (compact a p) ≡ v4 a p
addr_v4-compact a p h =
    let (t, d) = take_of_length 4 a (to_be_bytes16 p) h.0 in rw (t, d, from_be-to_be16 p h.1) refl

chunks-compact_v4 :
    (xs : List SocketAddr) → All FitsV4 xs → map addr_v4 (chunks (length xs) 6 (compact_v4 xs)) ≡ xs
unfolding chunks compact_v4
chunks-compact_v4 [] h = refl
chunks-compact_v4 (v4 a p ∷ xs) h =
    let n : length (compact a p) ≡ 6 = omega (arith, length-append a (to_be_bytes16 p)) in
    let (t, d) = take_of_length 6 (compact a p) (compact_v4 xs) n in
    rw (t, d, addr_v4-compact a p h.0, chunks-compact_v4 xs h.1) refl
chunks-compact_v4 (v6 a p ∷ xs) h = absurd h.0

-- A list of IPv4 addresses in compact form is read back.
pub parse_socket_addrs-compact_v4 :
    (xs : List SocketAddr) → All FitsV4 xs → parse_socket_addrs (compact_v4 xs) ≡ ok xs
unfolding parse_socket_addrs chunks_exact
parse_socket_addrs-compact_v4 xs h =
    let n : length (compact_v4 xs) / 6 ≡ length xs = omega (arith, length-compact_v4 xs h) in
    let m : (length (compact_v4 xs) % 6 == 0) ≡ true = ground (arith, length-compact_v4 xs h) in
    rw (m, n, chunks-compact_v4 xs h) refl
