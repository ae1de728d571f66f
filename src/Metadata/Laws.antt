-- ===== src/Metadata/Laws.antt =====
-- What the fetch finishes with, and what it keeps.
use tortue.Prelude.{
  ℕ, suc, Bytes, List, [], ◌∷◌, ◌++◌, ◌||◌, Option, none, some, Result, ok, err, leb, length,
  get_or, set, replicate, bytes_beq, bytes_beq_iff, bytes_eq, codes, All, ◌≡◌, refl, sym, ap, ◌∙◌,
  subst, arith, inl, inr, Bool-cases, length-set, length-replicate,
}
use tortue.Prelude.Dict.{get}
use tortue.Net.{SocketAddr, addr_eq}
use tortue.Message.Types.{
  Error, Message, keep_alive, choke, unchoke, interested, not_interested, have, bitfield, request,
  piece, cancel, extension_handshake, extension, suggest_piece, have_all, have_none, reject_request,
  allowed_fast, unimplemented,
}
use tortue.Message.Handshake.{ExtensionHandshake}
use tortue.Message.Metadata as UtMetadata
use tortue.Message.Metadata.{UtMetadataMessage, data_block, reject}
use tortue.Metadata.{
  Metadata, Input, peers_discovered, peer_disconnected, message_received, Output, connect_peer,
  send_to_peer, finished, piece_size, div_ceil, make_request, missing, request_missing_from,
  request_piece_from, request_from_all, other_peer, concat, all_there, is_there, try_finalize,
  sized_by, on_size, with_fields, ask_other, on_handshake, on_data, on_metadata_message, on_message,
  connects, step, is_extension_of,
}

-- The pieces are as many as the announced size takes, and none before there is one.
abbrev pub Fits : Option ℕ → List (Option Bytes) → Type 0
Fits none pieces = pieces ≡ []
Fits (some n) pieces = length pieces ≡ div_ceil n piece_size

-- A step that follows `s`: its size is kept once it is known.
abbrev pub KeepsSize : Option ℕ → Option ℕ → Type 0
KeepsSize none after = Unit
KeepsSize (some n) after = after ≡ some n

pub All-append {ℓ κ} :
    {A : Type ℓ} (P : A → Type κ) (xs ys : List A) → All P xs → All P ys → All P (xs ++ ys)
All-append P [] ys h k = k
All-append P (x ∷ xs) ys h k = (h.0, All-append P xs ys h.1 k)

Fits-of_length :
    (size : Option ℕ) (old pieces : List (Option Bytes))
    → length pieces ≡ length old
    → Fits size old
    → Fits size pieces
Fits-of_length none old [] e h = refl
Fits-of_length none old (p ∷ pieces) e h = absurd (omega (arith, ap length h))
Fits-of_length (some n) old pieces e h = e ∙ h

KeepsSize-refl : (size : Option ℕ) → KeepsSize size size
KeepsSize-refl none = tt
KeepsSize-refl (some n) = refl

module _ (sha1 : Bytes → Bytes) where
  -- Bytes that are given out have the hash.
  abbrev pub IsVerified : Bytes → Output → Type 0
  IsVerified hash (finished d) = sha1 d ≡ hash
  IsVerified hash (connect_peer a) = Unit
  IsVerified hash (send_to_peer a msg) = Unit

  missing-Verified :
      (hash : Bytes) (a : SocketAddr) (id i : ℕ) (pieces : List (Option Bytes))
      → All (IsVerified hash) (missing a id i pieces)
  unfolding missing make_request
  missing-Verified hash a id i [] = tt
  missing-Verified hash a id i (none ∷ pieces) = (tt, missing-Verified hash a id (suc i) pieces)
  missing-Verified hash a id i (some d ∷ pieces) = missing-Verified hash a id (suc i) pieces

  request_missing_from-Verified :
      (hash : Bytes) (a : SocketAddr) (s : Metadata)
      → All (IsVerified hash) (request_missing_from a s)
  unfolding request_missing_from
  request_missing_from-Verified hash a s =
      elim (get a s.peers)
        as (λ o. All (IsVerified hash) (elim o as (λ x. List Output) [
          | none ↦ []
          | some ext_id ↦ missing a ext_id 0 s.pieces
        ])) [ none ↦ tt | some id ↦ missing-Verified hash a id 0 s.pieces ]

  request_from_all-Verified :
      (hash : Bytes) (peers : List (SocketAddr × ℕ)) (s : Metadata)
      → All (IsVerified hash) (request_from_all peers s)
  unfolding request_from_all
  request_from_all-Verified hash [] s = tt
  request_from_all-Verified hash ((a, id) ∷ peers) s =
      All-append (IsVerified hash) (request_missing_from a s) (request_from_all peers s)
        (request_missing_from-Verified hash a s) (request_from_all-Verified hash peers s)

  request_piece_from-Verified :
      (hash : Bytes) (a : SocketAddr) (i : ℕ) (s : Metadata)
      → All (IsVerified hash) (request_piece_from a i s)
  unfolding request_piece_from make_request
  request_piece_from-Verified hash a i s =
      elim (get a s.peers)
        as (λ o. All (IsVerified hash) (elim o as (λ x. List Output) [
          | none ↦ []
          | some ext_id ↦ make_request a ext_id i ∷ []
        ])) [ none ↦ tt | some id ↦ (tt, tt) ]

  -- What one step does: it gives out nothing that is not verified, and keeps the hash, the size and
  -- the number of pieces.
  pub record Good (s : Metadata) (x : List Output × Metadata) : Type 0 where
    pub verified : All (IsVerified s.info_hash) x.0
    pub same_hash : x.1.info_hash ≡ s.info_hash
    pub keeps_size : KeepsSize s.total_size x.1.total_size
    pub fits : Fits x.1.total_size x.1.pieces

  Good-same : (s : Metadata) → Fits s.total_size s.pieces → Good s ([], s)
  Good-same s h = record {
    verified = tt;
    same_hash = refl;
    keeps_size = KeepsSize-refl s.total_size;
    fits = h;
  }

  try_finalize-Good : (s : Metadata) → Fits s.total_size s.pieces → Good s (try_finalize sha1 s)
  unfolding try_finalize
  try_finalize-Good s h = elim (Bool-cases (bytes_beq (sha1 (concat s.pieces)) s.info_hash)) [
    | inl e ↦ rw e (record {
      verified = ((bytes_beq_iff (sha1 (concat s.pieces)) s.info_hash).0 e, tt);
      same_hash = refl;
      keeps_size = KeepsSize-refl s.total_size;
      fits = h;
    })
    | inr e ↦ rw e (record {
      verified = request_from_all-Verified s.info_hash s.peers _;
      same_hash = refl;
      keeps_size = KeepsSize-refl s.total_size;
      fits =
          Fits-of_length s.total_size s.pieces (replicate (length s.pieces) none)
            (length-replicate (length s.pieces) none) h;
    })
  ]

  sized_by-keeps :
      (o : Option ℕ) (size : ℕ) (s : Metadata)
      → s.total_size ≡ o
      → Fits s.total_size s.pieces
      → ((sized_by o size s).info_hash ≡ s.info_hash)
        × KeepsSize s.total_size (sized_by o size s).total_size
        × Fits (sized_by o size s).total_size (sized_by o size s).pieces
  unfolding sized_by
  sized_by-keeps none size s e h = (
    refl,
    subst (λ o. KeepsSize o (some size)) (sym e) tt,
    length-replicate (div_ceil size piece_size) none,
  )
  sized_by-keeps (some n) size s e h = (refl, KeepsSize-refl s.total_size, h)

  on_size-Good :
      (a : SocketAddr) (id size : ℕ) (s : Metadata)
      → Fits s.total_size s.pieces
      → Good s (on_size sha1 a id size s)
  unfolding on_size
  on_size-Good a id size s h =
      let (same, keeps, fits) = sized_by-keeps s.total_size size s refl h in
      record {
        verified = request_missing_from-Verified s.info_hash a (on_size sha1 a id size s).1;
        same_hash = same;
        keeps_size = keeps;
        fits = fits;
      }

  on_data-Good :
      (i : ℕ) (d : Bytes) (s : Metadata) → Fits s.total_size s.pieces → Good s (on_data sha1 i d s)
  unfolding on_data
  on_data-Good i d s h =
      elim (Bool-cases (leb (length s.pieces) i || is_there (get_or s.pieces i none))) [
        | inl e ↦ rw e (Good-same s h)
        | inr e ↦ rw e (elim (Bool-cases (all_there (set s.pieces i (some d)))) [
          | inl full ↦ rw full (finalized (try_finalize-Good filled kept))
          | inr part ↦ rw part (record {
            verified = tt;
            same_hash = refl;
            keeps_size = KeepsSize-refl s.total_size;
            fits = kept;
          })
        ])
      ]
    where
      filled : Metadata
      filled = record s { pieces = set s.pieces i (some d) }

      kept : Fits s.total_size filled.pieces
      kept = Fits-of_length s.total_size s.pieces filled.pieces (length-set s.pieces i (some d)) h

      finalized : Good filled (try_finalize sha1 filled) → Good s (try_finalize sha1 filled)
      finalized g = record {
        verified = g.verified;
        same_hash = g.same_hash;
        keeps_size = g.keeps_size;
        fits = g.fits;
      }

  on_handshake-Good :
      (a : SocketAddr) (hs : ExtensionHandshake) (s : Metadata)
      → Fits s.total_size s.pieces
      → Good s (on_handshake sha1 a hs s)
  unfolding on_handshake
  on_handshake-Good a hs s h = both (get (codes "ut_metadata") hs.extensions) hs.metadata_size
    where
      both : (o p : Option ℕ) → Good s (with_fields sha1 a o p s)
      both none p = Good-same s h
      both (some id) none = Good-same s h
      both (some id) (some size) = on_size-Good a id size s h

  on_metadata_message-Good :
      (a : SocketAddr) (m : Result Error UtMetadataMessage) (s : Metadata)
      → Fits s.total_size s.pieces
      → Good s (on_metadata_message sha1 a m s)
  unfolding on_metadata_message ask_other
  on_metadata_message-Good a (err e) s h = Good-same s h
  on_metadata_message-Good a (ok (data_block i total d)) s h = on_data-Good i d s h
  on_metadata_message-Good a (ok (reject i)) s h = asked (other_peer a s.peers)
    where
      asked : (o : Option SocketAddr) → Good s (ask_other o i s)
      asked none = Good-same s h
      asked (some b) = record {
        verified = request_piece_from-Verified s.info_hash b i s;
        same_hash = refl;
        keeps_size = KeepsSize-refl s.total_size;
        fits = h;
      }
  on_metadata_message-Good a (ok (UtMetadata.request i)) s h = Good-same s h
  on_metadata_message-Good a (ok UtMetadata.unimplemented) s h = Good-same s h

  on_extension-Good :
      (a : SocketAddr) (id : ℕ) (payload : Bytes) (s : Metadata)
      → Fits s.total_size s.pieces
      → Good s (on_message sha1 a (extension id payload) s)
  unfolding on_message
  on_extension-Good a id payload s h = elim (Bool-cases (is_extension_of (get a s.peers) id)) [
    | inl e ↦ rw e (on_metadata_message-Good a (UtMetadata.decode payload) s h)
    | inr e ↦ rw e (Good-same s h)
  ]

  on_message-Good :
      (a : SocketAddr) (msg : Message) (s : Metadata)
      → Fits s.total_size s.pieces
      → Good s (on_message sha1 a msg s)
  unfolding on_message
  on_message-Good a (extension_handshake hs) s h = on_handshake-Good a hs s h
  on_message-Good a (extension id payload) s h = on_extension-Good a id payload s h
  on_message-Good a keep_alive s h = Good-same s h
  on_message-Good a choke s h = Good-same s h
  on_message-Good a unchoke s h = Good-same s h
  on_message-Good a interested s h = Good-same s h
  on_message-Good a not_interested s h = Good-same s h
  on_message-Good a (have i) s h = Good-same s h
  on_message-Good a (bitfield b) s h = Good-same s h
  on_message-Good a (request r) s h = Good-same s h
  on_message-Good a (piece r d) s h = Good-same s h
  on_message-Good a (cancel r) s h = Good-same s h
  on_message-Good a (suggest_piece i) s h = Good-same s h
  on_message-Good a have_all s h = Good-same s h
  on_message-Good a have_none s h = Good-same s h
  on_message-Good a (reject_request r) s h = Good-same s h
  on_message-Good a (allowed_fast i) s h = Good-same s h
  on_message-Good a unimplemented s h = Good-same s h

  connects-Verified :
      (hash : Bytes) (addrs : List SocketAddr) → All (IsVerified hash) (connects addrs)
  unfolding connects
  connects-Verified hash [] = tt
  connects-Verified hash (a ∷ addrs) = (tt, connects-Verified hash addrs)

  -- A step of the fetch from a state with as many pieces as the size takes gives out only bytes of
  -- the wanted hash, keeps the hash, and the size once it is known, and leaves as many pieces as
  -- the size takes.
  pub step-Good :
      (input : Input) (s : Metadata) → Fits s.total_size s.pieces → Good s (step sha1 input s)
  unfolding step
  step-Good (peers_discovered addrs) s h = record {
    verified = connects-Verified s.info_hash addrs;
    same_hash = refl;
    keeps_size = KeepsSize-refl s.total_size;
    fits = h;
  }
  step-Good (peer_disconnected a) s h = record {
    verified = tt;
    same_hash = refl;
    keeps_size = KeepsSize-refl s.total_size;
    fits = h;
  }
  step-Good (message_received a msg) s h = on_message-Good a msg s h
