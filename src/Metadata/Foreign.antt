-- ===== src/Metadata/Foreign.antt =====
-- Clients that number the extension otherwise than this one.
use tortue.Prelude.{
  ℕ, Bytes, List, [], ◌∷◌, false, Option, none, some, ◌==◌, ==_iff, bytes_eq, codes, All, ◌≡◌, ◌≢◌,
  refl, sym, ap, ◌∙◌, subst, ◌⊎◌, Bool-cases, inl, inr,
}
use tortue.Prelude.Dict.{get, insert, remove, get-insert, get-remove}
use tortue.Net.{SocketAddr, addr_eq, addr_beq}
use tortue.Message.Types.{
  Message, keep_alive, choke, unchoke, interested, not_interested, have, bitfield, request, piece,
  cancel, extension_handshake, extension, suggest_piece, have_all, have_none, reject_request,
  allowed_fast, unimplemented,
}
use tortue.Metadata.{
  Metadata, Input, peers_discovered, peer_disconnected, message_received, Output, connect_peer,
  send_to_peer, finished, new, missing, make_request, request_missing_from, sized_by, on_size,
  with_fields, on_handshake, on_message, connects, step, is_extension_of,
}
use tortue.Metadata.Laws.{All-append}
use tortue.Metadata.Complete.{run}

-- BEP 10: a message of an extension bears the identifier that its receiver announced. This client
-- announces `UT_METADATA_EXT_ID`, 1, and `UT_PEX_EXT_ID`, 2; the sender has numbered the metadata
-- extension otherwise than both.
abbrev pub IsForeign : Input → Type 0
IsForeign (peers_discovered addrs) = Unit
IsForeign (peer_disconnected a) = Unit
IsForeign (message_received a (extension_handshake hs)) =
    (get (codes "ut_metadata") hs.extensions ≢ some 1)
    × (get (codes "ut_metadata") hs.extensions ≢ some 2)
IsForeign (message_received a (extension id payload)) = (id ≡ 1) ⊎ (id ≡ 2)
IsForeign (message_received a msg) = Unit

abbrev pub IsUnfinished : Output → Type 0
IsUnfinished (finished d) = ⊥
IsUnfinished (connect_peer a) = Unit
IsUnfinished (send_to_peer a msg) = Unit

-- No known peer has announced one of these identifiers.
abbrev NoneIsOurs : List (SocketAddr × ℕ) → Type 0
NoneIsOurs peers = (a : SocketAddr) → (get a peers ≢ some 1) × (get a peers ≢ some 2)

get-insert-ne :
    (a b : SocketAddr) (id k : ℕ) (peers : List (SocketAddr × ℕ))
    → id ≢ k
    → get b peers ≢ some k
    → get b (insert a id peers) ≢ some k
get-insert-ne a b id k peers other h e = elim (Bool-cases (addr_beq a b)) [
  | inl same ↦ other (cc (rw (get-insert a b id peers, same) at e))
  | inr apart ↦ h (rw (get-insert a b id peers, apart) at e)
]

get-remove-ne :
    (a b : SocketAddr) (k : ℕ) (peers : List (SocketAddr × ℕ))
    → get b peers ≢ some k
    → get b (remove a peers) ≢ some k
get-remove-ne a b k peers h e = elim (Bool-cases (addr_beq a b)) [
  | inl same ↦ cc (rw (get-remove a b peers, same) at e)
  | inr apart ↦ h (rw (get-remove a b peers, apart) at e)
]

NoneIsOurs-insert :
    (a : SocketAddr) (id : ℕ) (peers : List (SocketAddr × ℕ))
    → id ≢ 1
    → id ≢ 2
    → NoneIsOurs peers
    → NoneIsOurs (insert a id peers)
NoneIsOurs-insert a id peers one two h b =
    (get-insert-ne a b id 1 peers one (h b).0, get-insert-ne a b id 2 peers two (h b).1)

NoneIsOurs-remove :
    (a : SocketAddr) (peers : List (SocketAddr × ℕ))
    → NoneIsOurs peers
    → NoneIsOurs (remove a peers)
NoneIsOurs-remove a peers h b =
    (get-remove-ne a b 1 peers (h b).0, get-remove-ne a b 2 peers (h b).1)

missing-Unfinished :
    (a : SocketAddr) (id i : ℕ) (pieces : List (Option Bytes))
    → All IsUnfinished (missing a id i pieces)
unfolding missing make_request
missing-Unfinished a id i [] = tt
missing-Unfinished a id i (none ∷ pieces) = (tt, missing-Unfinished a id _ pieces)
missing-Unfinished a id i (some d ∷ pieces) = missing-Unfinished a id _ pieces

request_missing_from-Unfinished :
    (a : SocketAddr) (s : Metadata) → All IsUnfinished (request_missing_from a s)
unfolding request_missing_from
request_missing_from-Unfinished a s =
    elim (get a s.peers)
      as (λ o.
        All IsUnfinished (elim o as (λ x. List Output) [
          | none ↦ []
          | some ext_id ↦ missing a ext_id 0 s.pieces
        ])) [ none ↦ tt | some id ↦ missing-Unfinished a id 0 s.pieces ]

connects-Unfinished : (addrs : List SocketAddr) → All IsUnfinished (connects addrs)
unfolding connects
connects-Unfinished [] = tt
connects-Unfinished (a ∷ addrs) = (tt, connects-Unfinished addrs)

sized_by-peers : (o : Option ℕ) (size : ℕ) (s : Metadata) → (sized_by o size s).peers ≡ s.peers
unfolding sized_by
sized_by-peers none size s = refl
sized_by-peers (some n) size s = refl

not_announced : (o : Option ℕ) (k : ℕ) → o ≢ some k → is_extension_of o k ≡ false
not_announced none k h = refl
not_announced (some id) k h = elim (Bool-cases (id == k)) [
  | inl e ↦ absurd (h (ap some ((==_iff id k).0 e)))
  | inr e ↦ e
]

not_ours :
    (o : Option ℕ) (id : ℕ)
    → (id ≡ 1) ⊎ (id ≡ 2)
    → (o ≢ some 1) × (o ≢ some 2)
    → is_extension_of o id ≡ false
not_ours o id (inl e) h = ap (is_extension_of o) e ∙ not_announced o 1 h.0
not_ours o id (inr e) h = ap (is_extension_of o) e ∙ not_announced o 2 h.1

module _ (sha1 : Bytes → Bytes) where
  abbrev Stays : List Output × Metadata → Type 0
  Stays x = All IsUnfinished x.0 × NoneIsOurs x.1.peers

  with_fields-Stays :
      (a : SocketAddr) (o p : Option ℕ) (s : Metadata)
      → (o ≢ some 1) × (o ≢ some 2)
      → NoneIsOurs s.peers
      → Stays (with_fields sha1 a o p s)
  unfolding on_size
  with_fields-Stays a none p s other h = (tt, h)
  with_fields-Stays a (some id) none s other h = (tt, h)
  with_fields-Stays a (some id) (some size) s other h = (
    request_missing_from-Unfinished a (on_size sha1 a id size s).1,
    NoneIsOurs-insert a id _ (λ e. other.0 (ap some e)) (λ e. other.1 (ap some e))
        (subst NoneIsOurs (sym (sized_by-peers s.total_size size s)) h),
  )

  extension-Stays :
      (a : SocketAddr) (id : ℕ) (payload : Bytes) (s : Metadata)
      → (id ≡ 1) ⊎ (id ≡ 2)
      → NoneIsOurs s.peers
      → Stays (on_message sha1 a (extension id payload) s)
  unfolding on_message
  extension-Stays a id payload s ours h = rw (not_ours (get a s.peers) id ours (h a)) (tt, h)

  message-Stays :
      (a : SocketAddr) (msg : Message) (s : Metadata)
      → IsForeign (message_received a msg)
      → NoneIsOurs s.peers
      → Stays (on_message sha1 a msg s)
  unfolding on_message on_handshake
  message-Stays a (extension_handshake hs) s f h =
      with_fields-Stays a (get (codes "ut_metadata") hs.extensions) hs.metadata_size s f h
  message-Stays a (extension id payload) s f h = extension-Stays a id payload s f h
  message-Stays a keep_alive s f h = (tt, h)
  message-Stays a choke s f h = (tt, h)
  message-Stays a unchoke s f h = (tt, h)
  message-Stays a interested s f h = (tt, h)
  message-Stays a not_interested s f h = (tt, h)
  message-Stays a (have i) s f h = (tt, h)
  message-Stays a (bitfield b) s f h = (tt, h)
  message-Stays a (request r) s f h = (tt, h)
  message-Stays a (piece r d) s f h = (tt, h)
  message-Stays a (cancel r) s f h = (tt, h)
  message-Stays a (suggest_piece i) s f h = (tt, h)
  message-Stays a have_all s f h = (tt, h)
  message-Stays a have_none s f h = (tt, h)
  message-Stays a (reject_request r) s f h = (tt, h)
  message-Stays a (allowed_fast i) s f h = (tt, h)
  message-Stays a unimplemented s f h = (tt, h)

  step-Stays :
      (input : Input) (s : Metadata)
      → IsForeign input
      → NoneIsOurs s.peers
      → Stays (step sha1 input s)
  unfolding step
  step-Stays (peers_discovered addrs) s f h = (connects-Unfinished addrs, h)
  step-Stays (peer_disconnected a) s f h = (tt, NoneIsOurs-remove a s.peers h)
  step-Stays (message_received a msg) s f h = message-Stays a msg s f h

  run-Stays :
      (inputs : List Input) (s : Metadata)
      → All IsForeign inputs
      → NoneIsOurs s.peers
      → All IsUnfinished (run sha1 inputs s).0
  unfolding run
  run-Stays [] s f h = tt
  run-Stays (input ∷ inputs) s f h =
      let (now, kept) = step-Stays input s f.0 h in
      All-append IsUnfinished (step sha1 input s).0 _ now
        (run-Stays inputs (step sha1 input s).1 f.1 kept)

  -- Peers that announce another identifier than 1 and 2 for the metadata extension, and send
  -- extension messages under 1 and 2 only, the identifiers announced to them, never finish a fetch,
  -- whatever these messages hold.
  pub run-Unfinished :
      (inputs : List Input) (hash : Bytes)
      → All IsForeign inputs
      → All IsUnfinished (run sha1 inputs (new hash)).0
  unfolding new
  run-Unfinished inputs hash f = run-Stays inputs (new hash) f (λ a. (λ e. cc, λ e. cc))
