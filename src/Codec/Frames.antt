-- ===== src/Codec/Frames.antt =====
-- One frame: what `encode` writes `decode` reads, whole or in part; bounds and consumption.
use vasal.Prelude.{
  Bool-cases, inl, inr, ℕ, zero, suc, ◌+◌, ◌%◌, ◌^◌, ◌≤◌, ◌<◌, ◌≡◌, refl, ap, ◌∙◌, sym, String,
  false, Option, none, some, [], ◌∷◌, ◌++◌, arith, ltb, length, take, drop, take-append,
  drop-append, take-append-drop, All, length-append, length-take, take-length-append,
  drop-length-append, if◌then◌else◌,
}
use mathlib.Core.List.{append_assoc}
use vasal.Prelude.Results.{Result, ok, err}
use vasal.Codec.{Bytes, LengthPrefixCodec, from_be_bytes, u32_bytes, too_large, decode, encode}

pub from_be_bytes-u32_bytes :
    (n : ℕ) (xs : Bytes) → n < 2 ^ 32 → from_be_bytes (u32_bytes n ++ xs) ≡ n
unfolding from_be_bytes u32_bytes
from_be_bytes-u32_bytes n xs h = omega arith

pub length-u32_bytes : (n : ℕ) → length (u32_bytes n) ≡ 4
unfolding u32_bytes
length-u32_bytes n = refl

pub ltb-false : (a b : ℕ) → b ≤ a → ltb a b ≡ false
ltb-false a b h = ground arith

-- The frame of a payload.
abbrev pub frame : Bytes → Bytes
frame payload = u32_bytes (length payload) ++ payload

pub length-frame : (payload : Bytes) → length (frame payload) ≡ 4 + length payload
length-frame payload = omega (
  arith,
  length-append {0} (u32_bytes (length payload)) payload,
  length-u32_bytes (length payload),
)

-- What a codec accepts and a u32 can count.
pub record Fits (codec : LengthPrefixCodec) (payload : Bytes) : Type 0 where
  pub within : length payload ≤ codec.max_size
  pub counted : length payload < 2 ^ 32

pub encode-Fits :
    (codec : LengthPrefixCodec) (payload dst : Bytes)
    → Fits codec payload
    → encode codec payload dst ≡ (ok tt, dst ++ frame payload)
unfolding encode
encode-Fits codec payload dst h =
    let e : length payload % 2 ^ 32 ≡ length payload = omega arith in
    rw (ltb-false codec.max_size (length payload) h.within) (rw e)

-- The tests of `decode` on a buffer that holds a whole header.
abbrev outcome : LengthPrefixCodec → ℕ → Bytes → Bytes → Result String (Option Bytes) × Bytes
outcome codec n src xs =
    if ltb codec.max_size n
    then (err (too_large n codec.max_size), src)
    else if ltb (length xs) n
    then (ok none, src)
    else (ok (some (take n xs)), drop n xs)

decode_lem :
    (codec : LengthPrefixCodec) (a b c d : ℕ) (xs : Bytes)
    → decode codec (a ∷ b ∷ c ∷ d ∷ xs)
      ≡ outcome codec (from_be_bytes (a ∷ b ∷ c ∷ d ∷ [])) (a ∷ b ∷ c ∷ d ∷ xs) xs
unfolding decode
decode_lem codec a b c d xs = ground arith

decode-u32_bytes :
    (codec : LengthPrefixCodec) (n : ℕ) (xs : Bytes)
    → n < 2 ^ 32
    → decode codec (u32_bytes n ++ xs) ≡ outcome codec n (u32_bytes n ++ xs) xs
unfolding u32_bytes
decode-u32_bytes codec n xs h =
    decode_lem codec _ _ _ _ xs
    ∙ ap (λ m. outcome codec m (u32_bytes n ++ xs) xs) (from_be_bytes-u32_bytes n [] h)

-- Where an encode with a limit that a u32 can count succeeds, it has appended the frame of the
-- payload and nothing else, and the payload fits.
pub encode_ok :
    (codec : LengthPrefixCodec) (payload dst out : Bytes)
    → codec.max_size < 2 ^ 32
    → encode codec payload dst ≡ (ok tt, out)
    → (out ≡ dst ++ frame payload) × Fits codec payload
unfolding encode
encode_ok codec payload dst out small e = elim (Bool-cases (ltb codec.max_size (length payload))) [
  | inl over ↦ ground arith
  | inr fits ↦ let size : length payload % 2 ^ 32 ≡ length payload = ground arith in ground arith
]

module _ (codec : LengthPrefixCodec) (payload : Bytes) (h : Fits codec payload) where
  -- Decoding what starts with the frame of a payload that fits gives the payload, and leaves the
  -- rest of the buffer untouched.
  pub decode-frame :
      (rest : Bytes) → decode codec (frame payload ++ rest) ≡ (ok (some payload), rest)
  decode-frame rest = rw (append_assoc (u32_bytes (length payload)) payload rest) (
      rw (decode-u32_bytes codec (length payload) (payload ++ rest) h.counted) (
        ground (
          arith,
          length-append {0} payload rest,
          take-length-append payload rest,
          drop-length-append payload rest,
        )))

  -- A proper prefix of the frame of a payload that fits decodes to nothing yet, and stays in the buffer whole.
  pub decode-take-frame :
      (n : ℕ)
      → n < length (frame payload)
      → decode codec (take n (frame payload)) ≡ (ok none, take n (frame payload))
  unfolding decode u32_bytes
  decode-take-frame zero lt = ground arith
  decode-take-frame (suc zero) lt = ground arith
  decode-take-frame (suc (suc zero)) lt = ground arith
  decode-take-frame (suc (suc (suc zero))) lt = ground arith
  decode-take-frame (suc (suc (suc (suc n)))) lt =
      rw (decode-u32_bytes codec (length payload) (take n payload) h.counted)
        (ground (arith, length-take n payload))

abbrev pub AreBytes : Bytes → Type 0
AreBytes = All (λ b. b < 256)

u32_bytes-from_be_bytes :
    (a b c d : ℕ) (xs : Bytes)
    → a < 256
    → b < 256
    → c < 256
    → d < 256
    → u32_bytes (from_be_bytes (a ∷ b ∷ c ∷ d ∷ xs)) ≡ a ∷ b ∷ c ∷ d ∷ []
unfolding from_be_bytes u32_bytes
u32_bytes-from_be_bytes a b c d xs ha hb hc hd = ground arith

from_be_bytes-lt :
    (a b c d : ℕ) (xs : Bytes)
    → a < 256
    → b < 256
    → c < 256
    → d < 256
    → from_be_bytes (a ∷ b ∷ c ∷ d ∷ xs) < 2 ^ 32
unfolding from_be_bytes
from_be_bytes-lt a b c d xs ha hb hc hd = omega arith

module _ (codec : LengthPrefixCodec) where
  -- More bytes behind a buffer that holds a frame change neither the frame nor what follows it.
  pub decode-append :
      (src more payload rest : Bytes)
      → decode codec src ≡ (ok (some payload), rest)
      → decode codec (src ++ more) ≡ (ok (some payload), rest ++ more)
  decode-append (a ∷ b ∷ c ∷ d ∷ xs) more payload rest e =
      let n = from_be_bytes (a ∷ b ∷ c ∷ d ∷ []) in
      rw (decode_lem codec a b c d (xs ++ more)) (
        ground (
          arith,
          decode_lem codec a b c d xs,
          length-append {0} xs more,
          take-append n xs more,
          drop-append n xs more,
        ))
  decode-append _ more payload rest e = unfold decode in ground arith

  decoded :
      (a b c d : ℕ) (xs payload rest : Bytes)
      → decode codec (a ∷ b ∷ c ∷ d ∷ xs) ≡ (ok (some payload), rest)
      → let n = from_be_bytes (a ∷ b ∷ c ∷ d ∷ []) in
        (payload ≡ take n xs)
        × (rest ≡ drop n xs)
        × (n ≤ codec.max_size)
        × (n ≤ length xs)
        × (length payload ≡ n)
  decoded a b c d xs payload rest e =
      let n = from_be_bytes (a ∷ b ∷ c ∷ d ∷ []) in
      ground (arith, decode_lem codec a b c d xs, length-take n xs)

  -- Bytes that decode to a payload are the frame of a payload within the limit, and the rest.
  pub decode_sound :
      (src payload rest : Bytes)
      → AreBytes src
      → decode codec src ≡ (ok (some payload), rest)
      → (src ≡ frame payload ++ rest) × Fits codec payload
  decode_sound (a ∷ b ∷ c ∷ d ∷ xs) payload rest bytes e =
      let n = from_be_bytes (a ∷ b ∷ c ∷ d ∷ []) in
      let (is_take, is_drop, within, _, size) = decoded a b c d xs payload rest e in
      let header : u32_bytes n ≡ a ∷ b ∷ c ∷ d ∷ [] =
        u32_bytes-from_be_bytes a b c d [] bytes.0 bytes.1.0 bytes.1.1.0 bytes.1.1.1.0 in
      let bound : n < 2 ^ 32 =
        from_be_bytes-lt a b c d [] bytes.0 bytes.1.0 bytes.1.1.0 bytes.1.1.1.0 in
      (
        rw (size, header, is_take, is_drop)
            (ap (λ (l : Bytes). a ∷ b ∷ c ∷ d ∷ l) (sym (take-append-drop n xs))),
        record { within = omega arith; counted = omega arith },
      )
  decode_sound _ payload rest bytes e = unfold decode in ground arith
