-- ===== src/Application/Laws.antt =====
-- What the fetch of a magnet link comes to.
use tortue.Prelude.{
  Bytes, List, All, ok, err, map_err, codes, false, bytes_beq, bytes_beq_iff, Bool-cases, ◌≡◌, ◌≢◌,
  ap, subst, ◌∙◌, ◌⊎◌, inl, inr, refl,
}
use tortue.Bencode.Value.{Bencode, key_not_found}
use tortue.Bencode.Access.{get}
use tortue.Bencode.Decoder
use tortue.Torrent.{Metainfo, bencode}
use tortue.Torrent.Parse.{try_from}
use tortue.Torrent.ParseLaws.{try_from-IsCoherent}
use tortue.Torrent.Fetched.{try_from-info_bytes}
use tortue.Metadata.Driver
use tortue.Metadata.Driver.{Event, MetadataIo, Outcome, returned, waiting, run}
use tortue.Metadata.DriverLaws.{IsOpen, IsFetched, run-Fetched}
use tortue.Application.{
  Fetch, unfinished, returns, metadata_fetch, invalid_torrent_file, parse_fetched, fetch_metadata,
}

-- No torrent comes of the fetch: it waits, the trackers are gone, or what came is no torrent file.
abbrev pub IsRefused : Fetch → Type 0
IsRefused f =
    (f ≡ unfinished)
    ⊎ (f ≡ returns (err (metadata_fetch Driver.tracker_disconnected)))
    ⊎ (f ≡ returns (err (invalid_torrent_file (bencode key_not_found))))

module _ (sha1 : Bytes → Bytes) where
  -- A run that has come to bytes with the digest of others.
  abbrev pub Collides : Bytes → Outcome → Type 0
  Collides info_bytes x =
      (b : Bytes) × (x ≡ returned (ok b)) × (b ≢ info_bytes) × (sha1 b ≡ sha1 info_bytes)

  parse_fetched-refuses :
      (info_bytes : Bytes) (x : Outcome)
      → try_from sha1 info_bytes ≡ err (bencode key_not_found)
      → IsFetched sha1 (sha1 info_bytes) x
      → IsRefused (parse_fetched sha1 x) ⊎ Collides info_bytes x
  unfolding parse_fetched
  parse_fetched-refuses info_bytes (waiting io s) n f = inl (inl refl)
  parse_fetched-refuses info_bytes (returned (err Driver.tracker_disconnected)) n f =
      inl (inr (inl refl))
  parse_fetched-refuses info_bytes (returned (ok raw)) n f =
      elim (Bool-cases (bytes_beq raw info_bytes)) [
        | inl e ↦ inl (
            inr (
              inr (
                ap (λ r. returns (map_err invalid_torrent_file r))
                  (ap (try_from sha1) ((bytes_beq_iff raw info_bytes).0 e) ∙ n))))
        | inr e ↦ inr (raw, refl, differ raw e, f)
      ]
    where
      differ : (b : Bytes) → bytes_beq b info_bytes ≡ false → b ≢ info_bytes
      differ b e same = cc ((bytes_beq_iff b info_bytes).1 same)

  -- The fetch of a torrent's magnet link never gives a torrent, where the torrent's info dictionary
  -- has no key `announce`: the fetch waits, ends with the trackers gone, or ends in an invalid
  -- torrent file that lacks a key, or else the driver has come to bytes other than the torrent's
  -- info bytes with the same digest; whatever peers and trackers send over channels of peer events
  -- that stay open.
  pub fetch_metadata-IsRefused :
      (input : Bytes) (root info : Bencode) (m : Metainfo) (events : List Event) (io : MetadataIo)
      → Decoder.decode input ≡ ok root
      → get root (codes "info") ≡ ok info
      → get info (codes "announce") ≡ err key_not_found
      → try_from sha1 input ≡ ok m
      → io.info_hash ≡ m.info_hash
      → All IsOpen events
      → IsRefused (fetch_metadata sha1 events io) ⊎ Collides m.info_bytes (run sha1 events io).1
  unfolding fetch_metadata
  fetch_metadata-IsRefused input root info m events io d g n p linked all_open =
      let coherent = try_from-IsCoherent sha1 input m p in
      parse_fetched-refuses m.info_bytes (run sha1 events io).1
        (try_from-info_bytes sha1 input root info m d g n p)
        (subst (λ h. IsFetched sha1 h (run sha1 events io).1) (linked ∙ coherent.info_hash)
          (run-Fetched sha1 events io all_open))
