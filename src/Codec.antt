-- ===== src/Codec.antt =====
-- crates/vasal-sidecar-sdk/src/codec.rs: the length-prefixed frames of sidecar IPC. A buffer is the
-- list of its bytes, each a number below 256; `reserve` changes capacity only and is left out.
pub mod Frames
use vasal.Prelude.{
  ℕ, ◌+◌, ◌*◌, ◌/◌, ◌%◌, ◌^◌, String, Option, none, some, List, [], ◌∷◌, ◌++◌, ltb, length, get_or,
  take, drop, decimal, format, if◌then◌else◌,
}
use vasal.Prelude.Results.{Result, ok, err}

abbrev pub Bytes : Type 0
Bytes = List ℕ

-- `MAX_MESSAGE_SIZE`
abbrev pub max_message_size : ℕ
max_message_size = 4 * 1024 * 1024

-- `HEADER_LEN`
abbrev pub header_len : ℕ
header_len = 4

pub record LengthPrefixCodec : Type 0 where
  pub max_size : ℕ

abbrev pub new : LengthPrefixCodec
new = record { max_size = max_message_size }

unfoldable pub with_max_size : ℕ → LengthPrefixCodec
with_max_size max_size = record { max_size = max_size }

-- `u32::from_be_bytes([src[0], src[1], src[2], src[3]]) as usize`
unfoldable pub from_be_bytes : Bytes → ℕ
from_be_bytes src =
    get_or src 0 0 * 2 ^ 24 + get_or src 1 0 * 2 ^ 16 + get_or src 2 0 * 2 ^ 8 + get_or src 3 0

-- The bytes that `put_u32` appends for `n as u32`.
unfoldable pub u32_bytes : ℕ → Bytes
u32_bytes n = (n / 2 ^ 24 % 2 ^ 8) ∷ (n / 2 ^ 16 % 2 ^ 8) ∷ (n / 2 ^ 8 % 2 ^ 8) ∷ (n % 2 ^ 8) ∷ []

pub too_large : ℕ → ℕ → String
too_large size max_size = format (
    "frame payload " ∷ decimal size ∷ " bytes exceeds limit of " ∷ decimal max_size ∷ " bytes" ∷ [])

-- `Decoder::decode`: the outcome, and the buffer that is left.
unfoldable pub decode : LengthPrefixCodec → Bytes → Result String (Option Bytes) × Bytes
unfolding from_be_bytes too_large
decode codec src =
    let payload_len = from_be_bytes src in
    let rest = drop header_len src in
    if ltb (length src) header_len
    then (ok none, src)
    else if ltb codec.max_size payload_len
    then (err (too_large payload_len codec.max_size), src)
    else if ltb (length src) (header_len + payload_len)
    then (ok none, src)
    else (ok (some (take payload_len rest)), drop payload_len rest)

-- `Encoder::encode`: the outcome, and the destination after it.
unfoldable pub encode : LengthPrefixCodec → Bytes → Bytes → Result String (Unit {0}) × Bytes
unfolding u32_bytes too_large
encode codec payload dst =
    if ltb codec.max_size (length payload)
    then (err (too_large (length payload) codec.max_size), dst)
    else (ok tt, dst ++ (u32_bytes (length payload % 2 ^ 32) ++ payload))
