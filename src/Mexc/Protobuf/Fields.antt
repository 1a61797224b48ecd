-- ===== src/Mexc/Protobuf/Fields.antt =====
-- The fields of a message as bytes, and that the readers of crates/exchange-mexc/src/pb.rs undo them.
use trading_terminal_cluster.Common.{◌<◌, ◌^◌, ◌++◌, append_assoc, true, some, ◌≡◌, refl, arith}
use trading_terminal_cluster.Common.Lists.{
  length, length-append, take-append_length, drop-append_length,
}
use trading_terminal_cluster.Common.Tests.{leb}
use trading_terminal_cluster.Common.Text.{is_utf8}
use trading_terminal_cluster.Mexc.Protobuf.{Bytes, split_bytes, read_bytes, read_str}
use trading_terminal_cluster.Mexc.Protobuf.Varint.{encode_varint, read_varint-encode_varint}

-- A length and so many bytes.
unfoldable pub encode_bytes : Bytes → Bytes
encode_bytes b = encode_varint (length b) ++ b

split_bytes-append : (b rest : Bytes) → split_bytes (length b) (b ++ rest) ≡ some (b, rest)
unfolding split_bytes
split_bytes-append b rest =
    let fits : leb (length b) (length (b ++ rest)) ≡ true = ground (arith, length-append b rest) in
    rw (split_bytes, fits, take-append_length b rest, drop-append_length b rest) refl

pub read_bytes-encode_bytes :
    (b rest : Bytes) → length b < 2 ^ 64 → read_bytes (encode_bytes b ++ rest) ≡ some (b, rest)
unfolding encode_bytes read_bytes
read_bytes-encode_bytes b rest h =
    let assoc : encode_bytes b ++ rest ≡ encode_varint (length b) ++ (b ++ rest) =
      append_assoc (encode_varint (length b)) b rest in
    rw (assoc, read_bytes, read_varint-encode_varint (length b) (b ++ rest) h)
      (split_bytes-append b rest)

pub read_str-encode_bytes :
    (b rest : Bytes)
    → length b < 2 ^ 64
    → is_utf8 b ≡ true
    → read_str (encode_bytes b ++ rest) ≡ some (b, rest)
unfolding read_str
read_str-encode_bytes b rest h utf8 = rw (read_str, read_bytes-encode_bytes b rest h, utf8) refl
