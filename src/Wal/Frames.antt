-- ===== src/Wal/Frames.antt =====
-- One frame: `next_frame` takes back what `append` wrote, and tells a torn frame.
use native.Mathlib.Nat.{zero-add, suc-add}
use trading_terminal_cluster.Common.{
  ℕ, zero, suc, ◌+◌, ◌-◌, ◌<◌, ◌≤◌, ◌^◌, List, [], ◌∷◌, ◌++◌, none, some, append_assoc, ◌≡◌, refl,
  sym, ap, ◌∙◌, arith,
}
use trading_terminal_cluster.Common.Lists.{
  length, drop, length-append, take-append_length, drop-append_length,
}
use trading_terminal_cluster.Common.Machine.{add_u64}
use trading_terminal_cluster.Wal.{
  WalReader, ok, err, truncated, max_frame_len, to_le_bytes, read_exact, next_payload, next_frame,
}
use trading_terminal_cluster.Wal.Header.{from-to_le_bytes, header_parts}

-- The cursor stands before these bytes.
abbrev pub Ahead : WalReader → List ℕ → Type 0
Ahead r rest = drop r.position r.file ≡ rest

-- The bytes of a frame.
abbrev pub encode : (List ℕ → ℕ) → List ℕ → List ℕ
encode crc32 p = (to_le_bytes (length p) ++ to_le_bytes (crc32 p)) ++ p

drop_nil : (n : ℕ) → drop {A = ℕ} n [] ≡ []
drop_nil zero = refl
drop_nil (suc n) = refl

drop-add : (m n : ℕ) (xs : List ℕ) → drop (m + n) xs ≡ drop n (drop m xs)
drop-add zero n xs = rw (zero-add n)
drop-add (suc m) n [] = drop_nil (suc m + n) ∙ sym (drop_nil n)
drop-add (suc m) n (x ∷ xs) = rw (suc-add m n) (drop-add m n xs)

read_whole :
    (r : WalReader) (n : ℕ) (xs ys : List ℕ)
    → length xs ≡ n
    → Ahead r (xs ++ ys)
    → read_exact r n ≡ (record r { position = r.position + n }, some xs)
unfolding read_exact
read_whole r n xs ys e h =
    rw (h, ← e) (ground (arith, length-append xs ys, take-append_length xs ys))

read_short :
    (r : WalReader) (n : ℕ) (xs : List ℕ)
    → Ahead r xs
    → length xs < n
    → read_exact r n ≡ (record r { position = length r.file }, none)
unfolding read_exact
read_short r n xs h lt = rw h (ground arith)

-- Past what was read stands the rest.
Ahead-read :
    (r : WalReader) (n : ℕ) (xs ys : List ℕ)
    → length xs ≡ n
    → Ahead r (xs ++ ys)
    → Ahead (record r { position = r.position + n }) ys
Ahead-read r n xs ys e h =
    drop-add r.position n r.file
    ∙ ap (drop n) h
    ∙ ap (λ k. drop k (xs ++ ys)) (sym e)
    ∙ drop-append_length xs ys

module _ (crc32 : List ℕ → ℕ) where
  pub length-encode : (p : List ℕ) → length (encode crc32 p) ≡ 8 + length p
  unfolding to_le_bytes
  length-encode p = omega arith

  -- The state after a whole frame of `len` bytes.
  abbrev pub advanced : WalReader → ℕ → WalReader
  advanced r len = record r { position = r.position + 8 + len; offset = add_u64 r.offset (8 + len) }

  payload_whole :
      (r : WalReader) (p more : List ℕ)
      → length p ≤ max_frame_len
      → Ahead r (p ++ more)
      → next_payload crc32 r (length p) (crc32 p) ≡ (
        record r { position = r.position + length p; offset = add_u64 r.offset (8 + length p) },
        ok (some p),
      )
  unfolding next_payload
  payload_whole r p more fits h =
      let got = read_whole r (length p) p more refl h in ground (arith, got)

  payload_short :
      (r : WalReader) (len expected : ℕ) (xs : List ℕ)
      → len ≤ max_frame_len
      → length xs < len
      → Ahead r xs
      → next_payload crc32 r len expected ≡ (
        record r { position = length r.file },
        err (truncated r.offset len (length r.file - r.offset - 8)),
      )
  unfolding next_payload
  payload_short r len expected xs fits lt h =
      let got = read_short r len xs h lt in ground (arith, got)

  header_read :
      (r : WalReader) (n m : ℕ) (rest : List ℕ)
      → n < 2 ^ 32
      → m < 2 ^ 32
      → Ahead r ((to_le_bytes n ++ to_le_bytes m) ++ rest)
      → next_frame crc32 r ≡ next_payload crc32 (record r { position = r.position + 8 }) n m
  unfolding next_frame
  header_read r n m rest hn hm h =
      let (low, high, size) = header_parts n m in
      let got = read_whole r 8 (to_le_bytes n ++ to_le_bytes m) rest size h in
      ground (arith, got, low, high, from-to_le_bytes n hn, from-to_le_bytes m hm)

  -- A whole frame ahead is read back, and the reader stands behind it.
  pub next-frame_whole :
      (r : WalReader) (p more : List ℕ)
      → length p ≤ max_frame_len
      → crc32 p < 2 ^ 32
      → Ahead r (encode crc32 p ++ more)
      → (next_frame crc32 r ≡ (advanced r (length p), ok (some p)))
        × Ahead (advanced r (length p)) more
  next-frame_whole r p more fits small h =
      let behind : WalReader = record r { position = r.position + 8 } in
      let header = to_le_bytes (length p) ++ to_le_bytes (crc32 p) in
      let whole : Ahead r (header ++ (p ++ more)) = h ∙ append_assoc header p more in
      let size = (header_parts (length p) (crc32 p)).2 in
      let ahead : Ahead behind (p ++ more) = Ahead-read r 8 header (p ++ more) size whole in
      (
        header_read r (length p) (crc32 p) (p ++ more) (omega arith) small whole
            ∙ payload_whole behind p more fits ahead,
        Ahead-read behind (length p) p more refl ahead,
      )

  -- Less than a header ahead is the end.
  pub next-frame_end :
      (r : WalReader) (xs : List ℕ)
      → length xs < 8
      → Ahead r xs
      → next_frame crc32 r ≡ (record r { position = length r.file }, ok none)
  unfolding next_frame
  next-frame_end r xs lt h = let got = read_short r 8 xs h lt in ground (arith, got)

  -- A header ahead with less than its payload is a torn frame.
  pub next-frame_torn :
      (r : WalReader) (n m : ℕ) (xs : List ℕ)
      → n ≤ max_frame_len
      → m < 2 ^ 32
      → length xs < n
      → Ahead r ((to_le_bytes n ++ to_le_bytes m) ++ xs)
      → next_frame crc32 r ≡ (
        record r { position = length r.file },
        err (truncated r.offset n (length r.file - r.offset - 8)),
      )
  next-frame_torn r n m xs fits small lt h =
      let behind : WalReader = record r { position = r.position + 8 } in
      let size = (header_parts n m).2 in
      header_read r n m xs (omega arith) small h
      ∙ payload_short behind n m xs fits lt
          (Ahead-read r 8 (to_le_bytes n ++ to_le_bytes m) xs size h)
