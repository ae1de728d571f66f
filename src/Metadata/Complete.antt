-- ===== src/Metadata/Complete.antt =====
-- A peer that has the info dictionary, as domain/torrent.rs serves it, is enough to fetch it.
use tortue.Prelude.{
  ℕ, zero, suc, ◌+◌, ◌*◌, ◌^◌, ◌≤◌, ◌<◌, Bytes, List, [], ◌∷◌, ◌++◌, true, false, ◌||◌, Option,
  none, some, leb, ==_refl, length, get_or, set, replicate, bytes_beq_iff, bytes_eq, ◌≡◌, refl, sym,
  ap, ◌∙◌, arith, append_assoc, append-nil, length-append,
}
use tortue.Net.{SocketAddr, addr_eq, addr_beq_iff}
use tortue.Message.Types.{extension}
use tortue.Message.Metadata as UtMetadata
use tortue.Message.Metadata.{UtMetadataMessage, data_block, decode-encode_metadata}
use tortue.Torrent.{Metainfo, info_bytes_block}
use tortue.Torrent.Laws.{blocks, blocks-info_bytes}
use tortue.Metadata.{
  Metadata, Input, message_received, Output, finished, concat, all_there, is_there, try_finalize,
  on_data, on_message, on_metadata_message, step,
}

-- What a run gives out, and where it ends.
unfoldable pub run : (Bytes → Bytes) → List Input → Metadata → List Output × Metadata
unfolding step
run sha1 [] s = ([], s)
run sha1 (input ∷ inputs) s =
    let x = step sha1 input s in let y = run sha1 inputs x.1 in (x.0 ++ y.0, y.1)

module _ (m : Metainfo) (a : SocketAddr) (id : ℕ) where
  -- The peer's answer to the request of block `i`, and `k` such answers in order.
  abbrev pub reply : ℕ → Input
  reply i =
      message_received a (
        extension id
          (UtMetadata.encode (data_block i (length m.info_bytes) (info_bytes_block i m))))

  abbrev pub replies : ℕ → ℕ → List Input
  replies i zero = []
  replies i (suc k) = reply i ∷ replies (suc i) k

  pub got : ℕ → ℕ → List (Option Bytes)
  got i zero = []
  got i (suc k) = some (info_bytes_block i m) ∷ got (suc i) k

  length-got : (i k : ℕ) → length (got i k) ≡ k
  unfolding got
  length-got i zero = refl
  length-got i (suc k) = ap suc (length-got (suc i) k)

  got_snoc : (i k j : ℕ) → j ≡ i + k → got i (suc k) ≡ got i k ++ some (info_bytes_block j m) ∷ []
  unfolding got
  got_snoc i zero j h =
      let e : i ≡ j = omega (arith, h) in ap (λ t. some (info_bytes_block t m) ∷ []) e
  got_snoc i (suc k) j h =
      ap (λ t. some (info_bytes_block i m) ∷ t) (got_snoc (suc i) k j (omega (arith, h)))

  concat-got : (i k : ℕ) → concat (got i k) ≡ blocks k i m
  unfolding got concat blocks
  concat-got i zero = refl
  concat-got i (suc k) =
      let e : suc i ≡ i + 1 = omega arith in
      ap (λ t. info_bytes_block i m ++ t) (concat-got (suc i) k ∙ ap (λ j. blocks k j m) e)

  -- The state when the first `i` blocks have come and `k` are missing.
  abbrev pub after : ℕ → ℕ → Metadata
  after i k = record {
    info_hash = m.info_hash;
    total_size = some (length m.info_bytes);
    pieces = got 0 i ++ replicate k none;
    peers = (a, id) ∷ [];
  }

  hole_there :
      (i k : ℕ) (g : List (Option Bytes))
      → length g ≡ i
      → get_or (g ++ none ∷ replicate k none) i none ≡ none
  hole_there zero k [] h = refl
  hole_there (suc i) k [] h = absurd (omega (arith, h))
  hole_there zero k (x ∷ g) h = absurd (omega (arith, h))
  hole_there (suc i) k (x ∷ g) h = hole_there i k g (omega (arith, h))

  hole_filled :
      (i k : ℕ) (g : List (Option Bytes)) (d : Bytes)
      → length g ≡ i
      → set (g ++ none ∷ replicate k none) i (some d) ≡ g ++ some d ∷ replicate k none
  hole_filled zero k [] d h = refl
  hole_filled (suc i) k [] d h = absurd (omega (arith, h))
  hole_filled zero k (x ∷ g) d h = absurd (omega (arith, h))
  hole_filled (suc i) k (x ∷ g) d h = ap (λ t. x ∷ t) (hole_filled i k g d (omega (arith, h)))

  all_there-got : (i j : ℕ) → all_there (got i j) ≡ true
  unfolding got all_there
  all_there-got i zero = refl
  all_there-got i (suc j) = all_there-got (suc i) j

  all_there-hole : (i j k : ℕ) → all_there (got i j ++ replicate (suc k) none) ≡ false
  unfolding got all_there
  all_there-hole i zero k = refl
  all_there-hole i (suc j) k = all_there-hole (suc i) j k

  module _ (sha1 : Bytes → Bytes) where
    -- The answer reaches `on_data`.
    reply_lem :
        (i k : ℕ)
        → i < 2 ^ 63
        → length m.info_bytes < 2 ^ 63
        → step sha1 (reply i) (after i k) ≡ on_data sha1 i (info_bytes_block i m) (after i k)
    unfolding step on_message
    reply_lem i k small short =
        rw
          (
            (addr_beq_iff a a).1 refl,
            ==_refl id,
            decode-encode_metadata (data_block i (length m.info_bytes) (info_bytes_block i m))
                (small, short),
          )
          (unfold on_metadata_message in refl)

    filled_lem :
        (i k : ℕ)
        → set (got 0 i ++ replicate (suc k) none) i (some (info_bytes_block i m))
          ≡ got 0 (suc i) ++ replicate k none
    filled_lem i k =
        hole_filled i k (got 0 i) (info_bytes_block i m) (length-got 0 i)
        ∙ sym (
            ap (λ t. t ++ replicate k none) (got_snoc 0 i i (omega arith))
            ∙ append_assoc (got 0 i) (some (info_bytes_block i m) ∷ []) (replicate k none))

    accepts :
        (i k : ℕ)
        → (leb (length (got 0 i ++ replicate (suc k) none)) i
            || is_there (get_or (got 0 i ++ replicate (suc k) none) i none))
          ≡ false
    accepts i k =
        rw (hole_there i k (got 0 i) (length-got 0 i))
          (ground (arith, length-append (got 0 i) (none ∷ replicate k none), length-got 0 i))

    -- A block that is not the last one missing.
    filled_step :
        (i k : ℕ)
        → on_data sha1 i (info_bytes_block i m) (after i (suc (suc k)))
          ≡ ([], after (suc i) (suc k))
    unfolding on_data
    filled_step i k = rw (accepts i (suc k), filled_lem i (suc k), all_there-hole 0 (suc i) k) refl

    last_step :
        (i : ℕ)
        → on_data sha1 i (info_bytes_block i m) (after i 1) ≡ try_finalize sha1 (after (suc i) 0)
    unfolding on_data
    last_step i = rw (accepts i 0, filled_lem i 0, append-nil, all_there-got 0 (suc i)) refl

    finalized :
        (n : ℕ)
        → n * 16384 ≤ 2 ^ 64
        → length m.info_bytes ≤ n * 16384
        → sha1 m.info_bytes ≡ m.info_hash
        → try_finalize sha1 (after n 0) ≡ (finished m.info_bytes ∷ [], after n 0)
    unfolding try_finalize
    finalized n h l hash =
        let whole : concat (got 0 n ++ []) ≡ m.info_bytes =
          ap concat (append-nil (got 0 n)) ∙ concat-got 0 n ∙ blocks-info_bytes n m h l in
        rw whole (rw ((bytes_beq_iff (sha1 m.info_bytes) m.info_hash).1 hash) refl)

    finish :
        (i k n : ℕ)
        → i + suc k ≡ n
        → n * 16384 < 2 ^ 63
        → length m.info_bytes ≤ n * 16384
        → sha1 m.info_bytes ≡ m.info_hash
        → run sha1 (replies i (suc k)) (after i (suc k)) ≡ (finished m.info_bytes ∷ [], after n 0)
    unfolding run
    finish i zero n e h l hash =
        let same : suc i ≡ n = omega (arith, e) in
        rw (reply_lem i 1 (omega (arith, e)) (omega arith), last_step i)
          (rw same (rw (finalized n (omega arith) l hash) refl))
    finish i (suc k) n e h l hash =
        rw (reply_lem i (suc (suc k)) (omega (arith, e)) (omega arith), filled_step i k)
          (finish (suc i) k n (omega (arith, e)) h l hash)
