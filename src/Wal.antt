-- ===== src/Wal.antt =====
-- crates/wal: the writer and the reader of the write-ahead log. The checksum of the crate crc32fast
-- is a parameter; the file system stores and returns the bytes, and its errors are not modelled.
pub mod Header
pub mod Frames
pub mod Replay
use Prim.Native.Nat.{min}
use trading_terminal_cluster.Common.{
  ℕ, ◌+◌, ◌-◌, ◌*◌, ◌/◌, ◌%◌, ◌<◌, List, [], ◌∷◌, ◌++◌, Option, none, some, Bool, true, false,
}
use trading_terminal_cluster.Common.Lists.{length, take, drop}
use trading_terminal_cluster.Common.Tests.{if◌then◌else◌, ltb, nat_beq}
use trading_terminal_cluster.Common.Machine.{max_u32, add_u64}

abbrev pub frame_header_len : ℕ
frame_header_len = 8

abbrev pub max_frame_len : ℕ
max_frame_len = 64 * 1024 * 1024

-- `WalError`, without the errors of the file system.
pub data WalError : Type 0 where
  frame_too_large : (len max : ℕ) → WalError
  crc_mismatch : (offset got expected : ℕ) → WalError
  truncated : (offset need have : ℕ) → WalError

pub data Result {ℓ} (A : Type ℓ) : Type ℓ where
  ok : A → Result A
  err : WalError → Result A

-- `u32::to_le_bytes` and `from_le_bytes`.
unfoldable pub to_le_bytes : ℕ → List ℕ
to_le_bytes n = n % 256 ∷ n / 256 % 256 ∷ n / 65_536 % 256 ∷ n / 16_777_216 % 256 ∷ []

unfoldable pub from_le_bytes : List ℕ → ℕ
from_le_bytes [] = 0
from_le_bytes (b ∷ bs) = b + 256 * from_le_bytes bs

pub record WalWriter : Type 0 where
  pub file : List ℕ
  pub bytes_written : ℕ

-- `WalWriter::open` on what the file holds: it appends.
unfoldable pub open_writer : List ℕ → WalWriter
open_writer file = record { file = file; bytes_written = length file }

pub record WalReader : Type 0 where
  pub file : List ℕ
  pub position : ℕ
  pub offset : ℕ

unfoldable pub open_reader : List ℕ → WalReader
open_reader file = record { file = file; position = 0; offset = 0 }

unfoldable pub reset : WalReader → WalReader
reset r = record r { position = 0; offset = 0 }

-- `read_exact`: `n` bytes from the cursor on, or the end of the file, where the cursor stays.
unfoldable pub read_exact : WalReader → ℕ → WalReader × Option (List ℕ)
read_exact r n =
    let rest = drop r.position r.file in
    if ltb (length rest) n
    then (record r { position = length r.file }, none)
    else (record r { position = r.position + n }, some (take n rest))

module _ (crc32 : List ℕ → ℕ) where
  unfoldable pub append : WalWriter → List ℕ → Result WalWriter
  unfolding to_le_bytes
  append w payload =
      let len = length payload in
      if ltb max_u32 len
      then err (frame_too_large len max_frame_len)
      else if ltb max_frame_len len
      then err (frame_too_large len max_frame_len)
      else ok (record {
        file = w.file ++ ((to_le_bytes len ++ to_le_bytes (crc32 payload)) ++ payload);
        bytes_written = add_u64 w.bytes_written (frame_header_len + len);
      })

  -- What follows a header that announces `len` bytes and a checksum.
  unfoldable pub next_payload : WalReader → ℕ → ℕ → WalReader × Result (Option (List ℕ))
  next_payload r len expected =
      if ltb max_frame_len len
      then (r, err (frame_too_large len max_frame_len))
      else (let (r', payload) = read_exact r len in
          elim payload [
            | none ↦
                (r', err (truncated r'.offset len (r'.position - r'.offset - frame_header_len)))
            | some bytes ↦
                if nat_beq (crc32 bytes) expected
                then (
                  record r' { offset = add_u64 r'.offset (frame_header_len + len) },
                  ok (some bytes),
                )
                else (r', err (crc_mismatch r'.offset (crc32 bytes) expected))
          ])

  unfoldable pub next_frame : WalReader → WalReader × Result (Option (List ℕ))
  next_frame r =
      let (r', header) = read_exact r frame_header_len in
      elim header [
        | none ↦ (r', ok none)
        | some bytes ↦ next_payload r' (from_le_bytes (take 4 bytes)) (from_le_bytes (drop 4 bytes))
      ]
