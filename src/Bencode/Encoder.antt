-- ===== src/Bencode/Encoder.antt =====
-- domain/bencode.rs, `encode` and `encode_into`. What `encode_into` appends to the buffer is the
-- result of the function.
use tortue.Prelude.{Bytes, [], ◌∷◌, ◌++◌, length}
use tortue.Bencode.Value.{
  Bencode, Items, Entries, int, bytes, list, dict, no_items, item, no_entries, entry,
}
use tortue.Bencode.Number.{usize_to_string, i64_to_string}

-- A length, a colon and the bytes.
unfoldable pub encode_bytes : Bytes → Bytes
encode_bytes b = usize_to_string (length b) ++ b':' ∷ b

unfoldable mutual
  pub encode : Bencode → Bytes
  encode (int z) = b'i' ∷ (i64_to_string z ++ b'e' ∷ [])
  encode (bytes b) = encode_bytes b
  encode (list xs) = b'l' ∷ encode_items xs
  encode (dict es) = b'd' ∷ encode_entries es

  -- The items and the closing byte.
  pub encode_items : Items → Bytes
  encode_items no_items = b'e' ∷ []
  encode_items (item v xs) = encode v ++ encode_items xs

  pub encode_entries : Entries → Bytes
  encode_entries no_entries = b'e' ∷ []
  encode_entries (entry k v es) = encode_bytes k ++ (encode v ++ encode_entries es)
