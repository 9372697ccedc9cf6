-- ===== src/Signing/Message/Laws.antt =====
-- What a message builder holds, and the fixed width of its integers.
use zee_k_verifier.Prelude.{ℕ, ◌≡◌, refl, ◌∙◌, List, [], ◌∷◌, ◌++◌, Bytes, length, length-be_bytes}
use mathlib.Core.List.{append_assoc, append-nil, foldl}
use zee_k_verifier.Signing.Message.{
  SigningEncode, slice, vec, array, str, string, u8, u16, u32, u64, i32, i64, encode_to, to_bits,
  SigningMessageBuilder, ◌add◌, build,
}

-- The encoding of one value: big-endian for integers, the raw bytes for all else.
unfoldable pub encoding : SigningEncode → Bytes
unfolding encode_to
encoding v = encode_to v []

-- The bytes that each type takes in a message.
pub width : SigningEncode → ℕ
width (slice b) = length b
width (vec b) = length b
width (array b) = length b
width (str s) = length s
width (string s) = length s
width (u8 n) = 1
width (u16 n) = 2
width (u32 n) = 4
width (u64 n) = 8
width (i32 z) = 4
width (i64 z) = 8

unfoldable pub encodings : List SigningEncode → Bytes
encodings [] = []
encodings (v ∷ vs) = encoding v ++ encodings vs

encode_to-append : (v : SigningEncode) (buffer : Bytes) → encode_to v buffer ≡ buffer ++ encoding v
unfolding encoding encode_to
encode_to-append (slice b) buffer = refl
encode_to-append _ buffer = refl

pub length-encoding : (v : SigningEncode) → length (encoding v) ≡ width v
unfolding encoding encode_to width
length-encoding (u16 n) = length-be_bytes 2 n
length-encoding (u32 n) = length-be_bytes 4 n
length-encoding (u64 n) = length-be_bytes 8 n
length-encoding (i32 z) = length-be_bytes 4 (to_bits 32 z)
length-encoding (i64 z) = length-be_bytes 8 (to_bits 64 z)
length-encoding _ = refl

pub build-add_all :
    (b : SigningMessageBuilder) (vs : List SigningEncode)
    → build (foldl ◌add◌ b vs) ≡ build b ++ encodings vs
unfolding build ◌add◌ encodings
build-add_all b [] = rw append-nil
build-add_all b (v ∷ vs) =
    build-add_all (b add v) vs
    ∙ rw (encode_to-append v b.buffer) (append_assoc b.buffer (encoding v) (encodings vs))
