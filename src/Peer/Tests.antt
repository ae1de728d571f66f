-- ===== src/Peer/Tests.antt =====
-- Handshakes at concrete bytes.
use tortue.Prelude.{
  All, map, ◌≤◌, arith, ℕ, List, [], length, err, Bytes, ◌∷◌, ◌++◌, true, false, ok, replicate, ◌≡◌,
  refl,
}
use tortue.Peer.Reconnect.{Round, max_attempts_exceeded, from_secs, connect_with_retry}
use tortue.Peer.ReconnectLaws.{
  IsNear, IsNearAll, IsJittered, attempts_of, connect_with_retry-IsNearAll,
}
use tortue.Peer.Handshake.{Handshake, encode, decode, read_fields, pstr}
use tortue.Peer.HandshakeLaws.{IsSized, IsSentAs, decode-encode_peer_handshake, decode-IsSentAs}

abbrev hello : Handshake
hello = record {
  info_hash = replicate 20 7;
  peer_id = replicate 20 9;
  dht_protocol = false;
  extension_protocol = true;
  fast_extension = true;
}

decode-encode_peer_handshake_example : decode (encode hello) ≡ ok hello
decode-encode_peer_handshake_example = decode-encode_peer_handshake hello (refl, refl)

-- A peer that sets all reserved bits, known and unknown.
abbrev all_flags : Bytes
all_flags = 19 ∷ (pstr ++ (replicate 8 255 ++ (replicate 20 7 ++ replicate 20 9)))

abbrev flagged : Handshake
flagged = record {
  info_hash = replicate 20 7;
  peer_id = replicate 20 9;
  dht_protocol = true;
  extension_protocol = true;
  fast_extension = true;
}

flagged_lem : decode all_flags ≡ ok flagged
unfolding decode read_fields
flagged_lem = refl

decode-IsSentAs_case : IsSized flagged × IsSentAs all_flags flagged
decode-IsSentAs_case = decode-IsSentAs all_flags flagged flagged_lem

-- Six attempts that fail, and what comes of them.
abbrev failing : Round ℕ ℕ
failing = record { cancelled = false; jittered = λ d. d; connect = err 0 }

abbrev six : List (Round ℕ ℕ)
six = failing ∷ failing ∷ failing ∷ failing ∷ failing ∷ failing ∷ []

six-IsJittered : All IsJittered six
six-IsJittered = (near, (near, (near, (near, (near, (near, tt))))))
  where
    near : (secs : ℕ) → secs ≤ 90 → IsNear (from_secs secs) (from_secs secs)
    near secs h = (omega arith, omega arith)

connect_with_retry-IsNearAll_example :
    IsNearAll (connect_with_retry six 0 0).0 (map from_secs (0 ∷ 4 ∷ 8 ∷ 16 ∷ 32 ∷ []))
    × (length (connect_with_retry six 0 0).0 ≡ attempts_of 5 six)
connect_with_retry-IsNearAll_example = connect_with_retry-IsNearAll six true six-IsJittered

gives_up : (connect_with_retry six 0 0).1 ≡ max_attempts_exceeded
unfolding connect_with_retry
gives_up = refl

five_sleeps : length (connect_with_retry six 0 0).0 ≡ 5
unfolding connect_with_retry
five_sleeps = refl
