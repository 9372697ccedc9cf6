-- ===== src/Samples/HexCrate.antt =====
-- A crate `hex`: two digits for each byte, lower case out, any case in.
use zee_k_verifier.Prelude.{
  ℕ, ◌+◌, ◌-◌, ◌*◌, ◌/◌, ◌%◌, ◌<◌, ◌≡◌, refl, ap, ◌&&◌, [], ◌∷◌, Result, ok, err, ◌>>=◌, Bytes,
  Text, IsBytes, length, codes, leb, ltb, if◌then◌else◌, to_ascii_lower, to_ascii_lowercase, arith,
  >>=-eq-ok, ok-injective, err-ne-ok, subst,
}
use zee_k_verifier.Extern.Hex.{Hex, IsHex}

digit : ℕ → ℕ
digit n = if ltb n 10 then b'0' + n else b'a' + (n - 10)

value : ℕ → Result Text ℕ
value c =
    if leb b'0' c && leb c b'9'
    then ok (c - b'0')
    else if leb b'a' c && leb c b'f'
    then ok (c - b'a' + 10)
    else if leb b'A' c && leb c b'F'
    then ok (c - b'A' + 10)
    else err (codes "Invalid character")

unfoldable pub encode : Bytes → Text
unfolding digit
encode [] = []
encode (b ∷ bytes) = digit (b / 16) ∷ digit (b % 16) ∷ encode bytes

unfoldable pub decode : Text → Result Text Bytes
unfolding value
decode [] = ok []
decode (c ∷ []) = err (codes "Odd number of digits")
decode (c ∷ d ∷ s) = do
  high ← value c
  low ← value d
  rest ← decode s
  ok ((high * 16 + low) ∷ rest)

value-digit : (n : ℕ) → n < 16 → value (digit n) ≡ ok n
unfolding value digit
value-digit n h = ground arith

value-lt : (c n : ℕ) → value c ≡ ok n → n < 16
unfolding value
value-lt c n e = ground arith

digit-value : (c n : ℕ) → value c ≡ ok n → digit n ≡ to_ascii_lower c
unfolding value digit to_ascii_lower
digit-value c n e = ground arith

decode-encode : (b : Bytes) → IsBytes b → decode (encode b) ≡ ok b
unfolding decode encode
decode-encode [] h = refl
decode-encode (b ∷ bytes) (h, hs) =
    rw
      (
        value-digit (b / 16) (omega arith),
        value-digit (b % 16) (omega arith),
        decode-encode bytes hs,
      )
      (ap (λ n. ok (n ∷ bytes)) (omega arith))

decode-pair :
    (c d : ℕ) (s : Text) (bytes : Bytes)
    → decode (c ∷ d ∷ s) ≡ ok bytes
    → (high low : ℕ) × (rest : Bytes) × (value c ≡ ok high)
      × (value d ≡ ok low)
      × (decode s ≡ ok rest)
      × ((high * 16 + low) ∷ rest ≡ bytes)
unfolding decode
decode-pair c d s bytes e =
    let (high, p, e2) = >>=-eq-ok (value c) _ e in
    let (low, q, e3) = >>=-eq-ok (value d) _ e2 in
    let (rest, r, e4) = >>=-eq-ok (decode s) _ e3 in (high, low, rest, p, q, r, ok-injective e4)

decode-IsBytes : (s : Text) (b : Bytes) → decode s ≡ ok b → IsBytes b
unfolding decode
decode-IsBytes [] b e = subst IsBytes (ok-injective e) tt
decode-IsBytes (c ∷ []) b e = absurd (err-ne-ok e)
decode-IsBytes (c ∷ d ∷ s) b e =
    let (high, low, rest, p, q, r, same) = decode-pair c d s b e in
    subst IsBytes same (omega (arith, value-lt c high p, value-lt d low q), decode-IsBytes s rest r)

encode-decode : (s : Text) (b : Bytes) → decode s ≡ ok b → encode b ≡ to_ascii_lowercase s
unfolding decode encode to_ascii_lowercase
encode-decode [] b e = rw (← ok-injective e)
encode-decode (c ∷ []) b e = absurd (err-ne-ok e)
encode-decode (c ∷ d ∷ s) b e =
    let (high, low, rest, p, q, r, same) = decode-pair c d s b e in
    let first : (high * 16 + low) / 16 ≡ high = omega (arith, value-lt d low q) in
    let second : (high * 16 + low) % 16 ≡ low = omega (arith, value-lt d low q) in
    subst (λ bytes. encode bytes ≡ to_ascii_lowercase (c ∷ d ∷ s)) same
      (rw (first, second, digit-value c high p, digit-value d low q, encode-decode s rest r))

length-encode : (b : Bytes) → length (encode b) ≡ 2 * length b
unfolding encode
length-encode [] = refl
length-encode (b ∷ bytes) = omega (arith, length-encode bytes)

abbrev pub sample : Hex
sample = record { encode = encode; decode = decode }

pub sample-IsHex : IsHex sample
sample-IsHex = record {
  decode-encode = decode-encode;
  decode-IsBytes = decode-IsBytes;
  encode-decode = encode-decode;
  length-encode = length-encode;
}
