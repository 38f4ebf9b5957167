-- ===== src/Agent/Base64/Examples.antt =====
-- Runs of the codec, and its theorem at a concrete input.
use pcos.Prelude.{
  ◌≡◌, refl, [], ◌∷◌, some, none, codes, arith, trim, trim_start_by, trim_end_by, is_whitespace,
}
use pcos.Agent.Base64.{symbol, encode_chunk, base64_encode, classify, decode_loop, base64_decode}
use pcos.Agent.Base64.RoundTrip.{base64_decode-encode}

encode_runs : base64_encode (codes "Man, M") ≡ codes "TWFuLCBN"
unfolding base64_encode encode_chunk symbol
encode_runs = refl

decode_runs : base64_decode (codes " TW\nE= ") ≡ some (codes "Ma")
unfolding base64_decode decode_loop classify trim trim_start_by trim_end_by is_whitespace
decode_runs = refl

decode_rejects : base64_decode (codes "T*") ≡ none
unfolding base64_decode decode_loop classify trim trim_start_by trim_end_by is_whitespace
decode_rejects = refl

base64_decode-encode_example : base64_decode (base64_encode (77 ∷ 97 ∷ [])) ≡ some (77 ∷ 97 ∷ [])
base64_decode-encode_example = base64_decode-encode (77 ∷ 97 ∷ []) (omega arith)
