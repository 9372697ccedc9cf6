-- ===== src/Launcher/Attestation.antt =====
-- The attestation client (tdx-signer/src/attestation.rs): a request on the launcher's socket, and
-- the token in the response.
use mathlib.Core.List.{reverse}
use zee_k_verifier.Prelude.{
  ℕ, zero, suc, Bool, true, false, ◌&&◌, List, [], ◌∷◌, ◌++◌, Option, none, some, Result, ok, err,
  Bytes, Text, codes, decimal, length, map, strip_prefix, leb, ltb, ◌==◌, if◌then◌else◌,
}

-- `std::str::from_utf8`: the ranges of the bytes that must follow a first byte, if it is one.
abbrev tail_byte : ℕ × ℕ
tail_byte = (128, 191)

followers : ℕ → Option (List (ℕ × ℕ))
followers b =
    if ltb b 128
    then some []
    else if leb 194 b && leb b 223
    then some (tail_byte ∷ [])
    else if b == 224
    then some ((160, 191) ∷ tail_byte ∷ [])
    else if b == 237
    then some ((128, 159) ∷ tail_byte ∷ [])
    else if leb 225 b && leb b 239
    then some (tail_byte ∷ tail_byte ∷ [])
    else if b == 240
    then some ((144, 191) ∷ tail_byte ∷ tail_byte ∷ [])
    else if leb 241 b && leb b 243
    then some (tail_byte ∷ tail_byte ∷ tail_byte ∷ [])
    else if b == 244
    then some ((128, 143) ∷ tail_byte ∷ tail_byte ∷ [])
    else none

-- Whether bytes are UTF-8, after those that the ranges await.
unfoldable pub utf8_after : Option (List (ℕ × ℕ)) → Bytes → Bool
unfolding followers
utf8_after none bytes = false
utf8_after (some []) [] = true
utf8_after (some (_ ∷ _)) [] = false
utf8_after (some []) (b ∷ bytes) = utf8_after (followers b) bytes
utf8_after (some ((low, high) ∷ ranges)) (b ∷ bytes) =
    let rest = utf8_after (some ranges) bytes in leb low b && leb b high && rest

-- `s.find(sub)`: what stands before the first occurrence, and what after it.
unfoldable pub find : Text → Text → Option (Text × Text)
unfolding strip_prefix
find sub [] = elim (strip_prefix sub []) [ none ↦ none | some rest ↦ some ([], rest) ]
find sub (c ∷ s) =
    let later = find sub s in
    elim (strip_prefix sub (c ∷ s)) [
      | some rest ↦ some ([], rest)
      | none ↦ elim later [ none ↦ none | some (before, rest) ↦ some (c ∷ before, rest) ]
    ]

-- `s.split(sub).next()`: all of it where `sub` is not in it.
abbrev first_part : Text → Text → Text
first_part sub s = elim (find sub s) [ none ↦ s | some (before, rest) ↦ before ]

abbrev contains : Text → Text → Bool
contains sub s = elim (find sub s) [ none ↦ false | some found ↦ true ]

-- The characters of White_Space, in UTF-8.
abbrev white_space : List Bytes
white_space =
    (9 ∷ [])
    ∷ (10 ∷ [])
    ∷ (11 ∷ [])
    ∷ (12 ∷ [])
    ∷ (13 ∷ [])
    ∷ (32 ∷ [])
    ∷ (194 ∷ 133 ∷ [])
    ∷ (194 ∷ 160 ∷ [])
    ∷ (225 ∷ 154 ∷ 128 ∷ [])
    ∷ (226 ∷ 128 ∷ 128 ∷ [])
    ∷ (226 ∷ 128 ∷ 129 ∷ [])
    ∷ (226 ∷ 128 ∷ 130 ∷ [])
    ∷ (226 ∷ 128 ∷ 131 ∷ [])
    ∷ (226 ∷ 128 ∷ 132 ∷ [])
    ∷ (226 ∷ 128 ∷ 133 ∷ [])
    ∷ (226 ∷ 128 ∷ 134 ∷ [])
    ∷ (226 ∷ 128 ∷ 135 ∷ [])
    ∷ (226 ∷ 128 ∷ 136 ∷ [])
    ∷ (226 ∷ 128 ∷ 137 ∷ [])
    ∷ (226 ∷ 128 ∷ 138 ∷ [])
    ∷ (226 ∷ 128 ∷ 168 ∷ [])
    ∷ (226 ∷ 128 ∷ 169 ∷ [])
    ∷ (226 ∷ 128 ∷ 175 ∷ [])
    ∷ (226 ∷ 129 ∷ 159 ∷ [])
    ∷ (227 ∷ 128 ∷ 128 ∷ [])
    ∷ []

-- A first word of a list that a text begins with is taken off it.
strip_any : List Text → Text → Option Text
unfolding strip_prefix
strip_any [] s = none
strip_any (w ∷ ws) s = elim (strip_prefix w s) [ none ↦ strip_any ws s | some rest ↦ some rest ]

-- Every round takes a byte off, so the length is enough.
unfoldable pub trim_from : ℕ → List Text → Text → Text
unfolding strip_any
trim_from zero ws s = s
trim_from (suc fuel) ws s = elim (strip_any ws s) [ none ↦ s | some rest ↦ trim_from fuel ws rest ]

-- `s.trim()`
unfoldable pub trim : Text → Text
unfolding trim_from
trim s =
    let front = trim_from (length s) white_space s in
    reverse (trim_from (length front) (map reverse white_space) (reverse front))

-- What the socket does with a request.
pub data SocketReply : Type 0 where
  not_connected not_written not_read : Text → SocketReply
  received : Bytes → SocketReply

-- `json_string` prints a JSON string.
unfoldable pub token_request : (Text → Text) → Text → Text
unfolding codes decimal
token_request json_string audience =
    let body =
      codes "{\"audience\":" ++ (json_string audience ++ codes ",\"token_type\":\"OIDC\"}") in
    codes "POST /v1/token HTTP/1.0\r\nHost: localhost\r\n"
    ++ (codes "Content-Type: application/json\r\nContent-Length: "
        ++ (decimal (length body) ++ (codes "\r\n\r\n" ++ body)))

unfoldable pub token_of : Bytes → Result Text Text
unfolding codes find trim utf8_after
token_of response =
    if utf8_after (some []) response
    then (let status_line = first_part (codes "\r\n") response in
        if contains (codes " 200 ") status_line
        then elim (find (codes "\r\n\r\n") response) [
          | none ↦ err (codes "malformed HTTP response (no body separator)")
          | some (headers, body) ↦ ok (trim body)
        ]
        else err (codes "teeserver returned: " ++ trim status_line))
    else err (codes "attestation response not UTF-8")

-- The answer of the socket, under the error of the step that failed.
unfoldable pub token_reply : SocketReply → Result Text Text
unfolding codes token_of
token_reply (not_connected e) =
    err (codes "connect to \"/run/container_launcher/teeserver.sock\": " ++ e)
token_reply (not_written e) = err (codes "write attestation request: " ++ e)
token_reply (not_read e) = err (codes "read attestation response: " ++ e)
token_reply (received response) = token_of response

unfoldable pub fetch_token : (Text → Text) → (Text → SocketReply) → Text → Result Text Text
unfolding token_request token_reply
fetch_token json_string socket audience = token_reply (socket (token_request json_string audience))
