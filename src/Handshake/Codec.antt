-- ===== src/Handshake/Codec.antt =====
-- src/handshake.rs, `Header::encode` and `Header::decode`: the wire format.
use lwd_mixnet_proxy.Common.{
  ℕ, zero, suc, not, ◌&&◌, ◌<◌, ◌≡◌, refl, Bool, true, List, [], ◌∷◌, ◌++◌, ok, ◌==◌, if◌then◌else◌,
  bit_and, length, take, drop, get_or, All, arith,
}
use lwd_mixnet_proxy.Common.Words.{
  IsByte, IsU64, from_be_bytes-be_bytes, be_bytes-from_be_bytes, from_be_bytes_lt, length-be_bytes,
}
use lwd_mixnet_proxy.Handshake.{Header, flag_echo, header_len, encode, decode}

-- An encoded header is as long as the buffer that it is read into.
pub length-encode : (h : Header) → length (encode h) ≡ header_len
unfolding encode
length-encode h = omega (arith, length-be_bytes 8 h.token)

-- Decoding what was encoded gives the header back, for every header with a 64-bit token.
pub decode-encode : {E : Type 0} (h : Header) → IsU64 h.token → decode {E = E} (encode h) ≡ ok h
unfolding encode decode
decode-encode h fits = ground (arith, from_be_bytes-be_bytes 8 h.token fits)

agree_below : (ℕ → ℕ) → (ℕ → ℕ) → ℕ → Bool
agree_below f g zero = true
agree_below f g (suc n) = f n == g n && agree_below f g n

agree_below_sound : (f g : ℕ → ℕ) (n : ℕ) → agree_below f g n ≡ true → (i : ℕ) → i < n → f i ≡ g i
unfolding agree_below
agree_below_sound f g zero h i lt = absurd (omega arith)
agree_below_sound f g (suc n) h i lt = ground (arith, agree_below_sound f g n (ground arith) i)

-- The flag that `encode` writes for the flag that `decode` reads is the low bit of the byte.
flag_bit :
    (b : ℕ)
    → b < 256
    → (if not (bit_and b flag_echo == 0) then flag_echo else 0) ≡ bit_and b flag_echo
unfolding agree_below
flag_bit =
    agree_below_sound (λ b. if not (bit_and b flag_echo == 0) then flag_echo else 0)
      (λ b. bit_and b flag_echo) 256 refl

encode_six :
    {E : Type 0} (a b c d v f : ℕ) (rest : List ℕ) (h : Header)
    → length rest ≡ 8
    → All IsByte (f ∷ rest)
    → decode {E = E} (a ∷ b ∷ c ∷ d ∷ v ∷ f ∷ rest) ≡ ok h
    → IsU64 h.token × (encode h ≡ a ∷ b ∷ c ∷ d ∷ v ∷ bit_and f flag_echo ∷ rest)
unfolding encode decode
encode_six a b c d v f rest h n all e =
    ground
      (arith, flag_bit f, from_be_bytes_lt 8 rest n all.1, be_bytes-from_be_bytes 8 rest n all.1)

-- Bytes that decode are the encoding of the header read, up to the seven flag bits that carry
-- no meaning: 14 bytes in, and the token is a 64-bit number.
pub encode-decode :
    {E : Type 0} (bytes : List ℕ) {h : Header}
    → length bytes ≡ header_len
    → All IsByte bytes
    → decode {E = E} bytes ≡ ok h
    → IsU64 h.token
      × (encode h ≡ take 5 bytes ++ (bit_and (get_or bytes 5 0) flag_echo ∷ drop 6 bytes))
encode-decode (a ∷ b ∷ c ∷ d ∷ v ∷ f ∷ rest) {h} n all e =
    encode_six a b c d v f rest h (omega arith) all.1.1.1.1.1 e
encode-decode [] n all e = absurd (omega arith)
encode-decode (_ ∷ []) n all e = absurd (omega arith)
encode-decode (_ ∷ _ ∷ []) n all e = absurd (omega arith)
encode-decode (_ ∷ _ ∷ _ ∷ []) n all e = absurd (omega arith)
encode-decode (_ ∷ _ ∷ _ ∷ _ ∷ []) n all e = absurd (omega arith)
encode-decode (_ ∷ _ ∷ _ ∷ _ ∷ _ ∷ []) n all e = absurd (omega arith)
