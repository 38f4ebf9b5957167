-- ===== src/Agent/Base64/RoundTrip.antt =====
-- Decoding what `base64_encode` writes: the four characters of a chunk put its bytes back.
use mathlib.Core.Path.{ap₂}
use pcos.Prelude.{
  ap, ltb, length, if◌then◌else◌, ℕ, ◌+◌, ◌-◌, ◌*◌, ◌/◌, ◌%◌, ◌^◌, ◌≤◌, ◌<◌, ◌≡◌, refl, ◌∙◌, List,
  [], ◌∷◌, ◌++◌, append-nil, append_assoc, some, Text, ◌==◌, arith, All, All-append, Bool, true,
  false, trim, trim_none, is_whitespace, not,
}
use pcos.Prelude.Range.{holds_below, read_table}
use pcos.Agent.Base64.{
  symbol, pad, encode_chunk, base64_encode, Symbol, stop, value, classify, shift_in, decode_loop,
  base64_decode,
}

abbrev is_value : Symbol → ℕ → Bool
is_value (value v) i = v == i
is_value _ i = false

is_value→eq : (s : Symbol) (i : ℕ) → is_value s i ≡ true → s ≡ value i
is_value→eq s i h = ground arith

classify_table : holds_below (λ i. is_value (classify (symbol i)) i) 64 ≡ true
unfolding holds_below classify symbol
classify_table = refl

classify-symbol : (i : ℕ) → i < 64 → classify (symbol i) ≡ value i
classify-symbol i h = is_value→eq _ i (read_table _ 64 i classify_table h)

classify-pad : classify pad ≡ stop
unfolding classify
classify-pad = refl

printable_table : holds_below (λ i. not (is_whitespace (symbol i))) 64 ≡ true
unfolding holds_below is_whitespace symbol
printable_table = refl

module _ (i : ℕ) (rest : Text) (buffer : ℕ) (out : List ℕ) (h : i < 64) where
  decode_loop-keep :
      decode_loop (symbol i ∷ rest) buffer 0 out ≡ decode_loop rest (shift_in buffer i) 6 out
  unfolding decode_loop
  decode_loop-keep = rw (classify-symbol i h, decode_loop)

  decode_loop-push :
      (bits : ℕ)
      → 2 ≤ bits
      → decode_loop (symbol i ∷ rest) buffer bits out
        ≡ decode_loop rest
            (shift_in buffer i)
            (bits + 6 - 8)
            (out ++ (shift_in buffer i / 2 ^ (bits + 6 - 8) % 256) ∷ [])
  unfolding decode_loop
  decode_loop-push bits big = rw (classify-symbol i h, decode_loop) (ground arith)

module _ (B v0 v1 v2 v3 : ℕ) (h0 : v0 < 64) (h1 : v1 < 64) (h2 : v2 < 64) (h3 : v3 < 64) where
  first_byte : shift_in (shift_in B v0) v1 / 16 % 256 ≡ v0 * 4 + v1 / 16
  first_byte = omega arith

  second_byte : shift_in (shift_in B v1) v2 / 4 % 256 ≡ v1 % 16 * 16 + v2 / 4
  second_byte = omega arith

  third_byte : shift_in (shift_in B v2) v3 / 1 % 256 ≡ v2 % 4 * 64 + v3
  third_byte = omega arith

-- Two, three and four characters from an empty bit buffer.
module _ (B v0 v1 : ℕ) (out : List ℕ) (rest : Text) (h0 : v0 < 64) (h1 : v1 < 64) where
  decode_two :
      decode_loop (symbol v0 ∷ symbol v1 ∷ rest) B 0 out
      ≡ decode_loop rest (shift_in (shift_in B v0) v1) 4 (out ++ (v0 * 4 + v1 / 16) ∷ [])
  decode_two =
      decode_loop-keep v0 (symbol v1 ∷ rest) B out h0
      ∙ decode_loop-push v1 rest (shift_in B v0) out h1 6 (omega arith)
      ∙ ap (λ x. decode_loop rest (shift_in (shift_in B v0) v1) 4 (out ++ x ∷ []))
          (first_byte B v0 v1 0 0 h0 h1 (omega arith) (omega arith))

abbrev three : ℕ → ℕ → ℕ → ℕ → ℕ
three B v0 v1 v2 = shift_in (shift_in (shift_in B v0) v1) v2

module _ (B v0 v1 v2 : ℕ) (out : List ℕ) (rest : Text) (h0 : v0 < 64) (h1 : v1 < 64)
    (h2 : v2 < 64) where
  decode_three :
      decode_loop (symbol v0 ∷ symbol v1 ∷ symbol v2 ∷ rest) B 0 out
      ≡ decode_loop rest
          (three B v0 v1 v2)
          2
          ((out ++ (v0 * 4 + v1 / 16) ∷ []) ++ (v1 % 16 * 16 + v2 / 4) ∷ [])
  decode_three =
      decode_two B v0 v1 out (symbol v2 ∷ rest) h0 h1
      ∙ decode_loop-push v2 rest (shift_in (shift_in B v0) v1) (out ++ (v0 * 4 + v1 / 16) ∷ []) h2 4
          (omega arith)
      ∙ ap (λ x. decode_loop rest (three B v0 v1 v2) 2 ((out ++ (v0 * 4 + v1 / 16) ∷ []) ++ x ∷ []))
          (second_byte (shift_in B v0) 0 v1 v2 0 (omega arith) h1 h2 (omega arith))

-- `n` of the encoder.
abbrev word : ℕ → ℕ → ℕ → ℕ
word a b c = a * 2 ^ 16 + b * 2 ^ 8 + c

bytes_of_word :
    (a b c : ℕ)
    → a < 256
    → b < 256
    → c < 256
    → (word a b c / 2 ^ 18 % 64 * 4 + word a b c / 2 ^ 12 % 64 / 16 ≡ a)
      × (word a b c / 2 ^ 12 % 64 % 16 * 16 + word a b c / 2 ^ 6 % 64 / 4 ≡ b)
      × (word a b c / 2 ^ 6 % 64 % 4 * 64 + word a b c % 64 ≡ c)
bytes_of_word a b c ha hb hc = omega arith

module _ (a b c B : ℕ) (out : List ℕ) (ha : a < 256) (hb : b < 256) (hc : c < 256) where
  abbrev after : ℕ
  after =
      shift_in
        (three B (word a b c / 2 ^ 18 % 64) (word a b c / 2 ^ 12 % 64) (word a b c / 2 ^ 6 % 64))
        (word a b c % 64)

  -- The last of the four characters, and the three bytes as one list.
  decode_fourth :
      (x y : ℕ) (rest : Text)
      → decode_loop
          (symbol (word a b c % 64) ∷ rest)
          (three B (word a b c / 2 ^ 18 % 64) (word a b c / 2 ^ 12 % 64) (word a b c / 2 ^ 6 % 64))
          2
          ((out ++ x ∷ []) ++ y ∷ [])
        ≡ decode_loop rest after 0 (out ++ x ∷ y ∷ c ∷ [])
  decode_fourth x y rest =
      decode_loop-push (word a b c % 64) rest _ ((out ++ x ∷ []) ++ y ∷ []) (omega arith) 2
        (omega arith)
      ∙ ap (λ z. decode_loop rest after 0 (((out ++ x ∷ []) ++ y ∷ []) ++ z ∷ []))
          (third_byte (shift_in (shift_in B (word a b c / 2 ^ 18 % 64)) (word a b c / 2 ^ 12 % 64))
              0 0 (word a b c / 2 ^ 6 % 64) (word a b c % 64) (omega arith) (omega arith)
              (omega arith) (omega arith)
            ∙ (bytes_of_word a b c ha hb hc).2)
      ∙ ap (decode_loop rest after 0) (simp append_assoc)

  -- The four characters of a whole chunk put its three bytes back and leave no bits over.
  decode_whole :
      (rest : Text)
      → decode_loop (encode_chunk (a ∷ b ∷ c ∷ []) ++ rest) B 0 out
        ≡ decode_loop rest after 0 (out ++ a ∷ b ∷ c ∷ [])
  unfolding encode_chunk
  decode_whole rest =
      decode_three B (word a b c / 2 ^ 18 % 64) (word a b c / 2 ^ 12 % 64) (word a b c / 2 ^ 6 % 64)
        out (symbol (word a b c % 64) ∷ rest) (omega arith) (omega arith) (omega arith)
      ∙ decode_fourth _ _ rest
      ∙ ap₂ (λ x y. decode_loop rest after 0 (out ++ x ∷ y ∷ c ∷ []))
          (bytes_of_word a b c ha hb hc).0 (bytes_of_word a b c ha hb hc).1

decode_loop-pad :
    (rest : Text) (B bits : ℕ) (out : List ℕ) → decode_loop (pad ∷ rest) B bits out ≡ some out
unfolding decode_loop
decode_loop-pad rest B bits out = rw (classify-pad, decode_loop)

append-two : (out : List ℕ) (x y : ℕ) → (out ++ x ∷ []) ++ y ∷ [] ≡ out ++ x ∷ y ∷ []
append-two out x y = append_assoc out (x ∷ []) (y ∷ [])

-- The padded last chunk: one byte, and two.
decode_one_byte :
    (a B : ℕ) (out : List ℕ)
    → a < 256
    → decode_loop (encode_chunk (a ∷ [])) B 0 out ≡ some (out ++ a ∷ [])
unfolding encode_chunk
decode_one_byte a B out ha =
    decode_two B (word a 0 0 / 2 ^ 18 % 64) (word a 0 0 / 2 ^ 12 % 64) out (pad ∷ pad ∷ [])
      (omega arith) (omega arith)
    ∙ decode_loop-pad (pad ∷ []) _ 4 _
    ∙ ap (λ x. some (out ++ x ∷ [])) (bytes_of_word a 0 0 ha (omega arith) (omega arith)).0

decode_two_bytes :
    (a b B : ℕ) (out : List ℕ)
    → a < 256
    → b < 256
    → decode_loop (encode_chunk (a ∷ b ∷ [])) B 0 out ≡ some (out ++ a ∷ b ∷ [])
unfolding encode_chunk
decode_two_bytes a b B out ha hb =
    decode_three B (word a b 0 / 2 ^ 18 % 64) (word a b 0 / 2 ^ 12 % 64) (word a b 0 / 2 ^ 6 % 64)
      out (pad ∷ []) (omega arith) (omega arith) (omega arith)
    ∙ decode_loop-pad [] _ 2 _
    ∙ ap some (append-two out _ _)
    ∙ ap₂ (λ x y. some (out ++ x ∷ y ∷ [])) (bytes_of_word a b 0 ha hb (omega arith)).0
        (bytes_of_word a b 0 ha hb (omega arith)).1

-- The loop over an encoding gives the bytes back, after what it had put out.
decode_loop-encode :
    (bytes : List ℕ) (B : ℕ) (out : List ℕ)
    → All (λ b. b < 256) bytes
    → decode_loop (base64_encode bytes) B 0 out ≡ some (out ++ bytes)
unfolding base64_encode decode_loop
decode_loop-encode [] B out h = rw append-nil
decode_loop-encode (a ∷ []) B out h = decode_one_byte a B out h.0
decode_loop-encode (a ∷ b ∷ []) B out h = decode_two_bytes a b B out h.0 h.1.0
decode_loop-encode (a ∷ b ∷ c ∷ rest) B out h =
    decode_whole a b c B out h.0 h.1.0 h.1.1.0 (base64_encode rest)
    ∙ decode_loop-encode rest _ (out ++ a ∷ b ∷ c ∷ []) h.1.1.1
    ∙ ap some (append_assoc out (a ∷ b ∷ c ∷ []) rest)

symbol_printable : (i : ℕ) → i < 64 → is_whitespace (symbol i) ≡ false
symbol_printable i h = ground (arith, read_table _ 64 i printable_table h)

symbol-pad_printable :
    (b : Bool) (i : ℕ) → i < 64 → is_whitespace (if b then symbol i else pad) ≡ false
unfolding is_whitespace
symbol-pad_printable true i h = symbol_printable i h
symbol-pad_printable false i h = refl

encode_chunk_printable : (chunk : List ℕ) → All (λ c. is_whitespace c ≡ false) (encode_chunk chunk)
unfolding encode_chunk
encode_chunk_printable chunk = (
  symbol_printable _ (omega arith),
  (
    symbol_printable _ (omega arith),
    (
      symbol-pad_printable (ltb 1 (length chunk)) _ (omega arith),
      (symbol-pad_printable (ltb 2 (length chunk)) _ (omega arith), tt),
    ),
  ),
)

base64_encode_printable :
    (bytes : List ℕ) → All (λ c. is_whitespace c ≡ false) (base64_encode bytes)
unfolding base64_encode
base64_encode_printable [] = tt
base64_encode_printable (a ∷ []) = encode_chunk_printable (a ∷ [])
base64_encode_printable (a ∷ b ∷ []) = encode_chunk_printable (a ∷ b ∷ [])
base64_encode_printable (a ∷ b ∷ c ∷ rest) =
    All-append _ (encode_chunk (a ∷ b ∷ c ∷ [])) (base64_encode rest)
      (encode_chunk_printable (a ∷ b ∷ c ∷ [])) (base64_encode_printable rest)

-- The early return for an empty text is what the loop gives there too.
decode-trim : (s : Text) → trim s ≡ s → base64_decode s ≡ decode_loop s 0 0 []
unfolding base64_decode decode_loop
decode-trim [] h = rw h
decode-trim (c ∷ s) h = rw h

-- Decoding an encoding gives the bytes back, for every list of bytes.
pub base64_decode-encode :
    (bytes : List ℕ) → All (λ b. b < 256) bytes → base64_decode (base64_encode bytes) ≡ some bytes
base64_decode-encode bytes h =
    decode-trim (base64_encode bytes) (trim_none _ (base64_encode_printable bytes))
    ∙ decode_loop-encode bytes 0 [] h
