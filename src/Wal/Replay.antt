-- ===== src/Wal/Replay.antt =====
-- Recovery with crates/wal: the frames that a reader yields until it stops.

use trading_terminal_cluster.Common.{
  ℕ, zero, suc, ◌+◌, ◌-◌, ◌<◌, ◌≤◌, ◌^◌, List, [], ◌∷◌, ◌++◌, none, some, append_assoc, append-nil,
  ◌≡◌, refl, sym, ap, ◌∙◌, ◌⊎◌, inl, inr, arith,
}
use native.Mathlib.Decide.{dec_lt}
use trading_terminal_cluster.Common.Lists.{
  length, take, All, length-append, length-take, take-append_le, take-append_ge,
}
use trading_terminal_cluster.Common.Machine.{add_u64, add_u64_small}
use trading_terminal_cluster.Wal.{
  WalReader, WalWriter, Result, ok, err, WalError, truncated, max_frame_len, to_le_bytes,
  next_frame, append, open_writer, open_reader,
}
use trading_terminal_cluster.Wal.Header.{header_parts}
use trading_terminal_cluster.Wal.Frames.{
  Ahead, encode, advanced, length-encode, next-frame_whole, next-frame_end, next-frame_torn,
}

-- How a replay stops. `unfinished` is no outcome of the program: the rounds ran out.
pub data End : Type 0 where
  clean : End
  failed : WalError → End
  unfinished : End

abbrev pub payloads :
    List (List ℕ) → List (List ℕ) × End × WalReader → List (List ℕ) × End × WalReader
payloads ps (qs, e, r) = (ps ++ qs, e, r)

module _ (crc32 : List ℕ → ℕ) where
  -- `while let Some(p) = reader.next_frame()?`
  unfoldable pub replay : ℕ → WalReader → List (List ℕ) × End × WalReader
  replay zero r = ([], unfinished, r)
  replay (suc n) r =
      let (r', got) = next_frame crc32 r in
      elim got [
        | err e ↦ ([], failed e, r')
        | ok found ↦ elim found [
          | none ↦ ([], clean, r')
          | some p ↦ payloads (p ∷ []) (replay n r')
        ]
      ]

  unfoldable pub append_all : WalWriter → List (List ℕ) → Result WalWriter
  append_all w [] = ok w
  append_all w (p ∷ ps) = elim (append crc32 w p) [ err e ↦ err e | ok w' ↦ append_all w' ps ]

  abbrev pub encode_all : List (List ℕ) → List ℕ
  encode_all [] = []
  encode_all (p ∷ ps) = encode crc32 p ++ encode_all ps

  abbrev pub Fits : List ℕ → Type 0
  Fits p = length p ≤ max_frame_len

  append-encode :
      (w : WalWriter) (p : List ℕ)
      → Fits p
      → append crc32 w p
        ≡ ok (record {
          file = w.file ++ encode crc32 p;
          bytes_written = add_u64 w.bytes_written (8 + length p);
        })
  unfolding append
  append-encode w p fits = ground arith

  -- Appending frames that fit leaves their bytes behind what the file held.
  append_all-encode_all :
      (w : WalWriter) (ps : List (List ℕ))
      → All Fits ps
      → (z : WalWriter) × (append_all w ps ≡ ok z) × (z.file ≡ w.file ++ encode_all ps)
  unfolding append_all
  append_all-encode_all w [] _ = (w, refl, sym (append-nil w.file))
  append_all-encode_all w (p ∷ ps) (fits, all_fit) =
      let next : WalWriter = record {
        file = w.file ++ encode crc32 p;
        bytes_written = add_u64 w.bytes_written (8 + length p);
      } in
      let (z, rest, file) = append_all-encode_all next ps all_fit in
      (
        z,
        ground (arith, append-encode w p fits, rest),
        file ∙ append_assoc w.file (encode crc32 p) (encode_all ps),
      )

  module _ (crc32_u32 : (p : List ℕ) → crc32 p < 2 ^ 32) where
    replay_whole :
        (n : ℕ) (r : WalReader) (p more : List ℕ)
        → Fits p
        → Ahead r (encode crc32 p ++ more)
        → replay (suc n) r ≡ payloads (p ∷ []) (replay n (advanced crc32 r (length p)))
    unfolding replay
    replay_whole n r p more fits h =
        let (got, _) = next-frame_whole crc32 r p more fits (crc32_u32 p) h in ground (arith, got)

    replay_end :
        (n : ℕ) (r : WalReader) (xs : List ℕ)
        → length xs < 8
        → Ahead r xs
        → replay (suc n) r ≡ ([], clean, record r { position = length r.file })
    unfolding replay
    replay_end n r xs lt h = let got = next-frame_end crc32 r xs lt h in ground (arith, got)

    replay_torn :
        (n : ℕ) (r : WalReader) (p xs : List ℕ)
        → Fits p
        → length xs < length p
        → Ahead r ((to_le_bytes (length p) ++ to_le_bytes (crc32 p)) ++ xs)
        → replay (suc n) r ≡ (
          [],
          failed (truncated r.offset (length p) (length r.file - r.offset - 8)),
          record r { position = length r.file },
        )
    unfolding replay
    replay_torn n r p xs fits lt h =
        let got = next-frame_torn crc32 r (length p) (crc32 p) xs fits (crc32_u32 p) lt h in
        ground (arith, got)

    -- A replay of the first `k` bytes: it stops at the end or in a torn frame, having yielded the
    -- first `j` frames and no other, with the offset behind them and within the `k` bytes, and the
    -- next frame does not lie within them.
    abbrev pub Recovers : ℕ → ℕ → WalReader → List (List ℕ) → Type 0
    Recovers n k r ps =
        (j : ℕ) × (e : End) × (z : WalReader) × (replay n r ≡ (take j ps, e, z))
        × ((e ≡ clean) ⊎ ((need : ℕ) × (have : ℕ) × (e ≡ failed (truncated z.offset need have))))
        × (z.offset ≡ r.offset + length (encode_all (take j ps)))
        × (length (encode_all (take j ps)) ≤ k)
        × ((j ≡ length ps) ⊎ (k < length (encode_all (take (suc j) ps))))

    take_nil : (k : ℕ) → take {A = ℕ} k [] ≡ []
    take_nil zero = refl
    take_nil (suc k) = refl

    cut_frame :
        (n k : ℕ) (r : WalReader) (p : List ℕ) (ps : List (List ℕ))
        → Fits p
        → k < 8 + length p
        → Ahead r (take k (encode crc32 p ++ encode_all ps))
        → Recovers (suc n) k r (p ∷ ps)
    cut_frame n k r p ps fits lt h =
        let header : List ℕ = to_le_bytes (length p) ++ to_le_bytes (crc32 p) in
        let size = length-encode crc32 p in
        let first : Ahead r (take k (encode crc32 p)) =
          h ∙ take-append_le k (encode crc32 p) (encode_all ps) (omega (arith, size)) in
        let next = length-append (encode crc32 p) (encode_all []) in
        elim (dec_lt k 8) [
          | yes small ↦ (
            0,
            clean,
            record r { position = length r.file },
            replay_end n r (take k (encode crc32 p)) (omega (arith, length-take k (encode crc32 p)))
                first,
            inl refl,
            omega arith,
            omega arith,
            inr (omega (arith, size, next)),
          )
          | no large ↦
              let header_size = (header_parts (length p) (crc32 p)).2 in
              let torn : Ahead r (header ++ take (k - 8) p) =
                first
                ∙ take-append_ge k header p (omega (arith, header_size))
                ∙ ap (λ m. header ++ take (k - m) p) header_size in
              (
                0,
                failed (truncated r.offset (length p) (length r.file - r.offset - 8)),
                record r { position = length r.file },
                replay_torn n r p (take (k - 8) p) fits (omega (arith, length-take (k - 8) p)) torn,
                inr (length p, length r.file - r.offset - 8, refl),
                omega arith,
                omega arith,
                inr (omega (arith, size, next)),
              )
        ]

    split_at :
        (k : ℕ) (p : List ℕ) (ps : List (List ℕ))
        → ¬ (k < 8 + length p)
        → take k (encode crc32 p ++ encode_all ps)
          ≡ encode crc32 p ++ take (k - (8 + length p)) (encode_all ps)
    split_at k p ps whole =
        take-append_ge k (encode crc32 p) (encode_all ps) (omega (arith, length-encode crc32 p))
        ∙ ap (λ m. encode crc32 p ++ take (k - m) (encode_all ps)) (length-encode crc32 p)

    whole-Ahead :
        (k : ℕ) (r : WalReader) (p : List ℕ) (ps : List (List ℕ))
        → Fits p
        → ¬ (k < 8 + length p)
        → Ahead r (take k (encode crc32 p ++ encode_all ps))
        → Ahead (advanced crc32 r (length p)) (take (k - (8 + length p)) (encode_all ps))
    whole-Ahead k r p ps fits whole h =
        (next-frame_whole crc32 r p (take (k - (8 + length p)) (encode_all ps)) fits (crc32_u32 p)
          (h ∙ split_at k p ps whole)).1

    whole_frame :
        (n k : ℕ) (r : WalReader) (p : List ℕ) (ps : List (List ℕ))
        → Fits p
        → ¬ (k < 8 + length p)
        → Ahead r (take k (encode crc32 p ++ encode_all ps))
        → Recovers n (k - (8 + length p)) (advanced crc32 r (length p)) ps
        → r.offset + (8 + length p) < 2 ^ 64
        → Recovers (suc n) k r (p ∷ ps)
    whole_frame n k r p ps fits whole h (j, e, z, ran, how, off, within, next) room =
        let size = length-encode crc32 p in
        let kept = length-append (encode crc32 p) (encode_all (take j ps)) in
        let small = add_u64_small r.offset (8 + length p) room in
        (
          suc j,
          e,
          z,
          replay_whole n r p (take (k - (8 + length p)) (encode_all ps)) fits
                (h ∙ split_at k p ps whole)
              ∙ ap (payloads (p ∷ [])) ran,
          how,
          omega (arith, size, kept, small, off),
          omega (arith, size, kept),
          next_bound next,
        )
      where
        next_bound :
            ((j ≡ length ps) ⊎ (k - (8 + length p) < length (encode_all (take (suc j) ps))))
            → (suc j ≡ suc (length ps)) ⊎ (k < length (encode_all (take (suc (suc j)) (p ∷ ps))))
        next_bound (inl all) = inl (ap suc all)
        next_bound (inr more) = inr (
            omega (
              arith,
              length-encode crc32 p,
              length-append (encode crc32 p) (encode_all (take (suc j) ps)),
            ))

    replay_frames :
        (n : ℕ) (r : WalReader) (ps : List (List ℕ))
        → All Fits ps
        → length ps < n
        → Ahead r (encode_all ps)
        → (z : WalReader) × (replay n r ≡ (ps, clean, z))
    replay_frames zero r ps all_fit lt h = absurd (omega arith)
    replay_frames (suc n) r [] all_fit lt h =
        (record r { position = length r.file }, replay_end n r [] (omega arith) h)
    replay_frames (suc n) r (p ∷ ps) (fits, all_fit) lt h =
        let (_, ahead) = next-frame_whole crc32 r p (encode_all ps) fits (crc32_u32 p) h in
        let (z, ran) =
          replay_frames n (advanced crc32 r (length p)) ps all_fit (omega arith) ahead in
        (z, replay_whole n r p (encode_all ps) fits h ∙ ap (payloads (p ∷ [])) ran)

    replay-Recovers :
        (n k : ℕ) (r : WalReader) (ps : List (List ℕ))
        → All Fits ps
        → length ps < n
        → r.offset + length (encode_all ps) < 2 ^ 64
        → Ahead r (take k (encode_all ps))
        → Recovers n k r ps
    replay-Recovers zero k r ps all_fit lt room h = absurd (omega arith)
    replay-Recovers (suc n) k r [] all_fit lt room h = (
      0,
      clean,
      record r { position = length r.file },
      replay_end n r [] (omega arith) (h ∙ take_nil k),
      inl refl,
      omega arith,
      omega arith,
      inl refl,
    )
    replay-Recovers (suc n) k r (p ∷ ps) (fits, all_fit) lt room h =
        let size = length-encode crc32 p in
        elim (dec_lt k (8 + length p)) [
          | yes cut ↦ cut_frame n k r p ps fits cut h
          | no whole ↦
              whole_frame n k r p ps fits whole h
                (replay-Recovers n (k - (8 + length p)) (advanced crc32 r (length p)) ps all_fit
                  (omega arith)
                  (omega (
                    arith,
                    size,
                    length-append (encode crc32 p) (encode_all ps),
                    add_u64_small r.offset (8 + length p),
                  ))
                  (whole-Ahead k r p ps fits whole h))
                (omega (arith, size, length-append (encode crc32 p) (encode_all ps)))
        ]

    -- The reader of a fresh log that holds what `append` wrote for some frames, cut at `k` bytes,
    -- yields exactly the frames that lie whole within the cut and then stops, at the end or in a
    -- torn frame, with its offset behind the last of them. The checksum is any function into 32
    -- bits; the frames fit the cap and the log is shorter than 2 ^ 64 bytes.
    pub replay-cut :
        (ps : List (List ℕ)) (k : ℕ)
        → All Fits ps
        → length (encode_all ps) < 2 ^ 64
        → (w : WalWriter) × (append_all (open_writer []) ps ≡ ok w)
          × Recovers (suc (length ps)) k (open_reader (take k w.file)) ps
    unfolding open_writer open_reader
    replay-cut ps k all_fit room =
        let (w, written, file) = append_all-encode_all (open_writer []) ps all_fit in
        (
          w,
          written,
          replay-Recovers (suc (length ps)) k (open_reader (take k w.file)) ps all_fit (omega arith)
              (omega arith) (ap (take k) file),
        )

    -- Round trip: the reader of an uncut log yields all frames and reports the clean end.
    pub replay-append_all :
        (ps : List (List ℕ))
        → All Fits ps
        → (w : WalWriter) × (append_all (open_writer []) ps ≡ ok w)
          × (r : WalReader) × (replay (suc (length ps)) (open_reader w.file) ≡ (ps, clean, r))
    unfolding open_writer open_reader
    replay-append_all ps all_fit =
        let (w, written, file) = append_all-encode_all (open_writer []) ps all_fit in
        let (r, ran) =
          replay_frames (suc (length ps)) (open_reader w.file) ps all_fit (omega arith) file in
        (w, written, r, ran)
