-- ===== src/Tracker/UdpLaws.antt =====
-- The UDP requests against BEP 15: what a tracker reads in them.
use tortue.Prelude.{
  ℕ, ◌+◌, ◌^◌, ◌<◌, Bytes, List, [], ◌∷◌, ◌++◌, length, take, drop, replicate, length-append,
  length-drop, drop-drop, drop-append, drop_all, take_exactly, drop_exactly, append_assoc, ◌≡◌,
  refl, sym, ap, subst, ◌∙◌, arith,
}
use tortue.Prelude.Be.{
  to_be_bytes32, to_be_bytes64, from_be-to_be16, from_be-to_be32, from_be-to_be64,
}
use tortue.Tracker.{AnnounceRequest, AnnounceEvent, started, completed, stopped, as_udp_code}
use tortue.Tracker.Udp.{
  protocol_id, connect_fields, announce_fields, copy_at, fill, build_connect_request,
  build_announce_request, number_at,
}

-- Each field starts where the one before ends.
abbrev pub IsRow : ℕ → List (ℕ × Bytes) → Type 0
IsRow n [] = Unit
IsRow n ((start, s) ∷ more) = (start ≡ n) × IsRow (n + length s) more

abbrev pub joined : List (ℕ × Bytes) → Bytes
joined [] = []
joined ((start, s) ∷ more) = s ++ joined more

copy_at_end : (p s buf : Bytes) → copy_at (length p) s (p ++ buf) ≡ (p ++ s) ++ drop (length s) buf
copy_at_end p s buf =
    let beyond : drop (length p + length s) (p ++ buf) ≡ drop (length s) buf =
      drop-append (length p + length s) (length s) p buf (omega arith)
      ∙ ap (λ t. t ++ drop (length s) buf) (drop_all (length p + length s) p (omega arith)) in
    rw (take_exactly (length p) p buf refl, beyond) refl

-- Fields in a row that fill the buffer are what the buffer holds afterwards.
fill-joined :
    (fs : List (ℕ × Bytes)) (p buf : Bytes)
    → IsRow (length p) fs
    → length buf ≡ length (joined fs)
    → fill fs (p ++ buf) ≡ p ++ joined fs
unfolding fill
fill-joined [] p [] r l = refl
fill-joined [] p (b ∷ buf) r l = absurd (omega (arith, l))
fill-joined ((start, s) ∷ more) p buf r l =
    let here : copy_at start s (p ++ buf) ≡ (p ++ s) ++ drop (length s) buf =
      ap (λ n. copy_at n s (p ++ buf)) r.0 ∙ copy_at_end p s buf in
    let row : IsRow (length (p ++ s)) more =
      subst (λ n. IsRow n more) (sym (length-append p s)) r.1 in
    let room : length (drop (length s) buf) ≡ length (joined more) =
      omega (arith, l, length-drop (length s) buf, length-append s (joined more)) in
    ap (fill more) here
    ∙ fill-joined more (p ++ s) (drop (length s) buf) row room
    ∙ append_assoc p s (joined more)

-- The packet of BEP 15 for a connection: the protocol's number, the action 0, the transaction.
pub build_connect_request_lem :
    (tx : ℕ)
    → build_connect_request tx ≡ to_be_bytes64 protocol_id ++ (to_be_bytes32 0 ++ to_be_bytes32 tx)
unfolding build_connect_request
build_connect_request_lem tx =
    fill-joined (connect_fields tx) [] (replicate 16 0) (refl, (refl, (refl, tt))) refl

pub length-announce_fields :
    (c tx key : ℕ) (req : AnnounceRequest)
    → length req.info_hash ≡ 20
    → length req.peer_id ≡ 20
    → length (joined (announce_fields c tx key req)) ≡ 98
length-announce_fields c tx key req h p =
    let rest = joined (drop 5 (announce_fields c tx key req)) in
    omega (
      arith,
      h,
      p,
      length-append req.info_hash (req.peer_id ++ rest),
      length-append req.peer_id rest,
    )

pub build_announce_request_lem :
    (connection_id tx key : ℕ) (req : AnnounceRequest)
    → length req.info_hash ≡ 20
    → length req.peer_id ≡ 20
    → build_announce_request connection_id tx key req
      ≡ joined (announce_fields connection_id tx key req)
unfolding build_announce_request
build_announce_request_lem connection_id tx key req h p =
    fill-joined (announce_fields connection_id tx key req) [] (replicate 98 0)
      (
        refl,
        (
          refl,
          (
            refl,
            (
              refl,
              (
                omega (arith, h),
                (
                  omega (arith, h, p),
                  (
                    omega (arith, h, p),
                    (
                      omega (arith, h, p),
                      (
                        omega (arith, h, p),
                        (
                          omega (arith, h, p),
                          (omega (arith, h, p), (omega (arith, h, p), (omega (arith, h, p), tt))),
                        ),
                      ),
                    ),
                  ),
                ),
              ),
            ),
          ),
        ),
      )
      (sym (length-announce_fields connection_id tx key req h p))

-- A tracker's reading of an announcement, by the offsets of BEP 15.
pub record Reading : Type 0 where
  pub connection_id : ℕ
  pub action : ℕ
  pub transaction_id : ℕ
  pub info_hash : Bytes
  pub peer_id : Bytes
  pub downloaded : ℕ
  pub left : ℕ
  pub uploaded : ℕ
  pub event : ℕ
  pub ip_address : ℕ
  pub key : ℕ
  pub num_want : ℕ
  pub port : ℕ

unfoldable pub read_announce : Bytes → Reading
read_announce s = record {
  connection_id = number_at 0 8 s;
  action = number_at 8 4 s;
  transaction_id = number_at 12 4 s;
  info_hash = take 20 (drop 16 s);
  peer_id = take 20 (drop 36 s);
  downloaded = number_at 56 8 s;
  left = number_at 64 8 s;
  uploaded = number_at 72 8 s;
  event = number_at 80 4 s;
  ip_address = number_at 84 4 s;
  key = number_at 88 4 s;
  num_want = number_at 92 4 s;
  port = number_at 96 2 s;
}

-- The words of the source fit their types.
pub record IsSendable (c tx k : ℕ) (req : AnnounceRequest) : Type 0 where
  pub connection_id : c < 2 ^ 64
  pub transaction_id : tx < 2 ^ 32
  pub key : k < 2 ^ 32
  pub info_hash : length req.info_hash ≡ 20
  pub peer_id : length req.peer_id ≡ 20
  pub downloaded : req.stats.downloaded < 2 ^ 64
  pub left : req.stats.left < 2 ^ 64
  pub uploaded : req.stats.uploaded < 2 ^ 64
  pub port : req.port < 2 ^ 16

as_udp_code_small : (e : AnnounceEvent) → as_udp_code e < 2 ^ 32
unfolding as_udp_code
as_udp_code_small started = omega arith
as_udp_code_small completed = omega arith
as_udp_code_small stopped = omega arith

-- Past two blocks of 20 bytes.
drop_ids :
    (n : ℕ) (a b rest : Bytes)
    → length a ≡ 20
    → length b ≡ 20
    → drop (40 + n) (a ++ (b ++ rest)) ≡ drop n rest
drop_ids n a b rest h k =
    sym (drop-drop 20 (20 + n) (40 + n) (a ++ (b ++ rest)) (omega arith))
    ∙ ap (drop (20 + n)) (drop_exactly 20 a (b ++ rest) h)
    ∙ sym (drop-drop 20 n (20 + n) (b ++ rest) (omega arith))
    ∙ ap (drop n) (drop_exactly 20 b rest k)

-- The events as BEP 15 numbers them.
abbrev pub bep15_event : AnnounceEvent → ℕ
bep15_event completed = 1
bep15_event started = 2
bep15_event stopped = 3

as_udp_code_lem : (e : AnnounceEvent) → as_udp_code e ≡ bep15_event e
unfolding as_udp_code
as_udp_code_lem completed = refl
as_udp_code_lem started = refl
as_udp_code_lem stopped = refl

-- What a tracker should read.
abbrev pub intended : ℕ → ℕ → ℕ → AnnounceRequest → Reading
intended c tx key req = record {
  connection_id = c;
  action = 1;
  transaction_id = tx;
  info_hash = req.info_hash;
  peer_id = req.peer_id;
  downloaded = req.stats.downloaded;
  left = req.stats.left;
  uploaded = req.stats.uploaded;
  event = bep15_event req.event;
  ip_address = 0;
  key = key;
  num_want = 4294967295;
  port = req.port;
}

read_announce-joined :
    (c tx key : ℕ) (req : AnnounceRequest)
    → IsSendable c tx key req
    → read_announce (joined (announce_fields c tx key req)) ≡ intended c tx key req
unfolding read_announce
read_announce-joined c tx key req f =
    let rest = joined (drop 5 (announce_fields c tx key req)) in
    let past : (n : ℕ) → drop (40 + n) (req.info_hash ++ (req.peer_id ++ rest)) ≡ drop n rest =
      λ n. drop_ids n req.info_hash req.peer_id rest f.info_hash f.peer_id in
    rw
      (
        take_exactly 20 req.info_hash (req.peer_id ++ rest) f.info_hash,
        drop_exactly 20 req.info_hash (req.peer_id ++ rest) f.info_hash,
        take_exactly 20 req.peer_id rest f.peer_id,
        past 0,
        past 8,
        past 16,
        past 24,
        past 28,
        past 32,
        past 36,
        past 40,
        from_be-to_be64 c f.connection_id,
        from_be-to_be32 tx f.transaction_id,
        from_be-to_be32 key f.key,
        from_be-to_be32 (as_udp_code req.event) (as_udp_code_small req.event),
        as_udp_code_lem req.event,
        from_be-to_be64 req.stats.downloaded f.downloaded,
        from_be-to_be64 req.stats.left f.left,
        from_be-to_be64 req.stats.uploaded f.uploaded,
        from_be-to_be16 req.port f.port,
      )
      refl

-- A tracker that reads the packet of an announcement by the offsets of BEP 15 reads what was meant:
-- each number, both identifiers, the code of the event as BEP 15 numbers it, and -1 for the number
-- of peers wanted; where the two identifiers have 20 bytes each and the numbers fit their words.
pub read_announce-build_announce_request :
    (c tx key : ℕ) (req : AnnounceRequest)
    → IsSendable c tx key req
    → read_announce (build_announce_request c tx key req) ≡ intended c tx key req
read_announce-build_announce_request c tx key req f =
    ap read_announce (build_announce_request_lem c tx key req f.info_hash f.peer_id)
    ∙ read_announce-joined c tx key req f
