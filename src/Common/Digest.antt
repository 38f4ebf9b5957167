-- ===== src/Common/Digest.antt =====
-- SHA-256 as the program uses it: `Sha256::new`, `update`, and `finalize` printed in hexadecimal, of the
-- sha2 and hex crates, which are not part of the repository. Assumed: an update by nothing changes
-- nothing, updates by two pieces are one update by their concatenation, and a digest has 64 digits.
use pcos.Prelude.{
  ℕ, ◌≡◌, List, [], ◌++◌, append_assoc, append-nil, arith, length, take, replicate, length-take,
  length-append, Text,
}

pub record Hasher : Type 1 where
  pub State : Type 0
  pub new : State
  pub update : State → List ℕ → State
  pub finalize : State → Text
  pub update-nil : (s : State) → update s [] ≡ s
  pub update-append : (s : State) (a b : List ℕ) → update (update s a) b ≡ update s (a ++ b)
  pub length-finalize : (s : State) → length (finalize s) ≡ 64

-- `hasher.update(data); hasher.finalize()`.
unfoldable pub digest : Hasher → List ℕ → Text
digest h bytes = h.finalize (h.update h.new bytes)

pub length-digest : (h : Hasher) (bytes : List ℕ) → length (digest h bytes) ≡ 64
unfolding digest
length-digest h bytes = h.length-finalize (h.update h.new bytes)

unfoldable pub padded : List ℕ → Text
padded s = take 64 (s ++ replicate 64 b'0')

pub length-padded : (s : List ℕ) → length (padded s) ≡ 64
unfolding padded
length-padded s =
    omega (arith, length-take 64 (s ++ replicate 64 b'0'), length-append s (replicate 64 b'0'))

-- A hasher that keeps what it has read, and prints the beginning of it.
abbrev pub transcript : Hasher
transcript = record {
  State = List ℕ;
  new = [];
  update = λ s a. s ++ a;
  finalize = padded;
  update-nil = append-nil;
  update-append = λ s a b. append_assoc s a b;
  length-finalize = length-padded;
}
