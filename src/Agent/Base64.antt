-- ===== src/Agent/Base64.antt =====
-- The RFC 4648 codec that carries file chunks through the control tunnel: `base64_encode` and
-- `base64_decode` of agent/src/fs_handler.rs. A `String` is its list of code points, a `u8` a
-- number below 256, and a `u32` a number below 2 ^ 32 with its shifts written out.
pub mod RoundTrip
mod Examples
use pcos.Prelude.{
  ℕ, zero, suc, ◌+◌, ◌-◌, ◌*◌, ◌/◌, ◌%◌, ◌^◌, List, [], ◌∷◌, ◌++◌, Option, none, some, Text, codes,
  leb, ltb, ◌==◌, ◌&&◌, if◌then◌else◌, length, get_or, is_whitespace, is_empty, trim, Bool, true,
  false,
}

-- `TABLE`.
abbrev pub table : Text
table = codes "ABCDEFGHIJKLMNOPQRSTUVWXYZabcdefghijklmnopqrstuvwxyz0123456789+/"

-- `TABLE[i] as char`.
pub symbol : ℕ → ℕ
symbol i = get_or table i 0

abbrev pub pad : ℕ
pad = b'='

-- The body of the loop over `data.chunks(3)`. The three bytes of `n` do not overlap, so `|` is a sum.
pub encode_chunk : List ℕ → Text
encode_chunk chunk =
    let b0 = get_or chunk 0 0 in
    let b1 = if ltb 1 (length chunk) then get_or chunk 1 0 else 0 in
    let b2 = if ltb 2 (length chunk) then get_or chunk 2 0 else 0 in
    let n = b0 * 2 ^ 16 + b1 * 2 ^ 8 + b2 in
    symbol (n / 2 ^ 18 % 64)
    ∷ symbol (n / 2 ^ 12 % 64)
    ∷ (if ltb 1 (length chunk) then symbol (n / 2 ^ 6 % 64) else pad)
    ∷ (if ltb 2 (length chunk) then symbol (n % 64) else pad)
    ∷ []

unfoldable pub base64_encode : List ℕ → Text
base64_encode [] = []
base64_encode (a ∷ []) = encode_chunk (a ∷ [])
base64_encode (a ∷ b ∷ []) = encode_chunk (a ∷ b ∷ [])
base64_encode (a ∷ b ∷ c ∷ rest) = encode_chunk (a ∷ b ∷ c ∷ []) ++ base64_encode rest

pub data Symbol : Type 0 where
  stop skip invalid : Symbol
  value : ℕ → Symbol

-- What the loop of `base64_decode` does with one character: `break`, `continue`, an error, or a value.
pub classify : ℕ → Symbol
classify ch =
    if ch == pad
    then stop
    else if leb b'A' ch && leb ch b'Z'
    then value (ch - b'A')
    else if leb b'a' ch && leb ch b'z'
    then value (ch - b'a' + 26)
    else if leb b'0' ch && leb ch b'9'
    then value (ch - b'0' + 52)
    else if ch == b'+'
    then value 62
    else if ch == b'/'
    then value 63
    else if is_whitespace ch
    then skip
    else invalid

-- `(buffer << 6) | val`: the shift drops what passes 32 bits, and leaves the low six bits 0.
abbrev pub shift_in : ℕ → ℕ → ℕ
shift_in buffer val = (buffer * 64) % 2 ^ 32 + val

-- The rest of the loop from a given `buffer`, `bits` and `out`; `none` is the `Err`.
pub decode_loop : Text → ℕ → ℕ → List ℕ → Option (List ℕ)
decode_loop [] buffer bits out = some out
decode_loop (ch ∷ rest) buffer bits out = elim (classify ch) [
  | stop ↦ some out
  | skip ↦ decode_loop rest buffer bits out
  | invalid ↦ none
  | value val ↦ elim (leb 8 (bits + 6)) [
    | true ↦
        decode_loop rest (shift_in buffer val) (bits + 6 - 8)
          (out ++ (shift_in buffer val / 2 ^ (bits + 6 - 8) % 256) ∷ [])
    | false ↦ decode_loop rest (shift_in buffer val) (bits + 6) out
  ]
]

unfoldable pub base64_decode : Text → Option (List ℕ)
base64_decode encoded =
    let clean = trim encoded in if is_empty clean then some [] else decode_loop clean 0 0 []
