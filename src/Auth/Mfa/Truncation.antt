-- ===== src/Auth/Mfa/Truncation.antt =====
-- The digits of a code: the dynamic truncation of RFC 4226, against `compute_totp` of backend/crates/auth/src/mfa.rs.
use pcos.Prelude.{
  ℕ, zero, suc, ◌+◌, ◌*◌, ◌/◌, ◌%◌, ◌^◌, ◌≤◌, ◌<◌, ◌≡◌, inl, inr, refl, sym, List, [], ◌∷◌, true,
  false, arith, ◌-◌, ltb, lt→ltb, All, length, get_or, take, drop, Text, Bool-cases, ltb→lt,
}
use pcos.Auth.Mfa.{Sha1, decimal, six_digits, hmac_sha1, to_be_bytes, totp_code}

-- The number that digits write, and the one that bytes do.
abbrev pub read_in : ℕ → ℕ → ℕ → List ℕ → ℕ
read_in base low acc [] = acc
read_in base low acc (c ∷ cs) = read_in base low (acc * base + (c - low)) cs

abbrev pub number : Text → ℕ
number t = read_in 10 b'0' 0 t

abbrev pub big_endian : List ℕ → ℕ
big_endian bytes = read_in 256 0 0 bytes

abbrev pub IsDigit : ℕ → Type 0
IsDigit c = (b'0' ≤ c) × (c ≤ b'9')

abbrev pub IsSixDigits : Text → ℕ → Type 0
IsSixDigits t n = (length t ≡ 6) × All IsDigit t × (number t ≡ n)

not_below : (a b : ℕ) → b ≤ a → ltb a b ≡ false
not_below a b h = ground (arith, h)

mod-IsDigit : (n : ℕ) → IsDigit (b'0' + n % 10)
mod-IsDigit n = (omega arith, omega arith)

last-IsDigit : (n : ℕ) → ltb n 10 ≡ true → IsDigit (b'0' + n)
last-IsDigit n h = let l = ltb→lt n 10 h in (omega arith, omega (arith, l))

zero-IsDigit : IsDigit b'0'
zero-IsDigit = (omega arith, omega arith)

six_digits_lem : (n : ℕ) → n < 1000000 → IsSixDigits (six_digits n) n
unfolding six_digits decimal
six_digits_lem n h = elim (Bool-cases (ltb (n) 10)) [
  | inl e0 ↦ rw e0 (
    refl,
    (
      zero-IsDigit,
      (zero-IsDigit, (zero-IsDigit, (zero-IsDigit, (zero-IsDigit, (last-IsDigit (n) e0, tt))))),
    ),
    omega arith,
  )
  | inr a0 ↦ elim (Bool-cases (ltb (n / 10) 10)) [
    | inl e1 ↦
        rw (a0, e1)
          (
            refl,
            (
              zero-IsDigit,
              (
                zero-IsDigit,
                (zero-IsDigit, (zero-IsDigit, (last-IsDigit (n / 10) e1, (mod-IsDigit (n), tt)))),
              ),
            ),
            omega arith,
          )
    | inr a1 ↦ elim (Bool-cases (ltb (n / 10 / 10) 10)) [
      | inl e2 ↦
          rw (a0, a1, e2)
            (
              refl,
              (
                zero-IsDigit,
                (
                  zero-IsDigit,
                  (
                    zero-IsDigit,
                    (last-IsDigit (n / 10 / 10) e2, (mod-IsDigit (n / 10), (mod-IsDigit (n), tt))),
                  ),
                ),
              ),
              omega arith,
            )
      | inr a2 ↦ elim (Bool-cases (ltb (n / 10 / 10 / 10) 10)) [
        | inl e3 ↦
            rw (a0, a1, a2, e3)
              (
                refl,
                (
                  zero-IsDigit,
                  (
                    zero-IsDigit,
                    (
                      last-IsDigit (n / 10 / 10 / 10) e3,
                      (mod-IsDigit (n / 10 / 10), (mod-IsDigit (n / 10), (mod-IsDigit (n), tt))),
                    ),
                  ),
                ),
                omega arith,
              )
        | inr a3 ↦ elim (Bool-cases (ltb (n / 10 / 10 / 10 / 10) 10)) [
          | inl e4 ↦
              rw (a0, a1, a2, a3, e4)
                (
                  refl,
                  (
                    zero-IsDigit,
                    (
                      last-IsDigit (n / 10 / 10 / 10 / 10) e4,
                      (
                        mod-IsDigit (n / 10 / 10 / 10),
                        (mod-IsDigit (n / 10 / 10), (mod-IsDigit (n / 10), (mod-IsDigit (n), tt))),
                      ),
                    ),
                  ),
                  omega arith,
                )
          | inr a4 ↦
              let e5 : ltb (n / 10 / 10 / 10 / 10 / 10) 10 ≡ true =
                lt→ltb (n / 10 / 10 / 10 / 10 / 10) 10 (omega (arith, h)) in
              rw (a0, a1, a2, a3, a4, e5)
                (
                  refl,
                  (
                    last-IsDigit (n / 10 / 10 / 10 / 10 / 10) e5,
                    (
                      mod-IsDigit (n / 10 / 10 / 10 / 10),
                      (
                        mod-IsDigit (n / 10 / 10 / 10),
                        (mod-IsDigit (n / 10 / 10), (mod-IsDigit (n / 10), (mod-IsDigit (n), tt))),
                      ),
                    ),
                  ),
                  omega arith,
                )
        ]
      ]
    ]
  ]
]

IsByte : ℕ → Type 0
IsByte b = b < 256

take-four :
    (bytes : List ℕ) (offset : ℕ)
    → offset + 4 ≤ length bytes
    → take 4 (drop offset bytes)
      ≡ get_or bytes offset 0
        ∷ get_or bytes (offset + 1) 0
        ∷ get_or bytes (offset + 2) 0
        ∷ get_or bytes (offset + 3) 0
        ∷ []
take-four [] offset h = absurd (omega (arith, h))
take-four (a ∷ []) zero h = absurd (omega (arith, h))
take-four (a ∷ b ∷ []) zero h = absurd (omega (arith, h))
take-four (a ∷ b ∷ c ∷ []) zero h = absurd (omega (arith, h))
take-four (a ∷ b ∷ c ∷ d ∷ bytes) zero h = refl
take-four (a ∷ bytes) (suc offset) h =
    let one : suc offset + 1 ≡ suc (offset + 1) = omega arith in
    let two : suc offset + 2 ≡ suc (offset + 2) = omega arith in
    let three : suc offset + 3 ≡ suc (offset + 3) = omega arith in
    rw (one, two, three) (take-four bytes offset (omega (arith, h)))

get_or-IsByte : (bytes : List ℕ) (i : ℕ) → All (λ b. b < 256) bytes → get_or bytes i 0 < 256
get_or-IsByte [] i h = omega arith
get_or-IsByte (b ∷ bytes) zero h = h.0
get_or-IsByte (b ∷ bytes) (suc i) h = get_or-IsByte bytes i h.1

masked :
    (a b c d : ℕ)
    → a < 256
    → b < 256
    → c < 256
    → d < 256
    → a % 128 * 2 ^ 24 + b * 2 ^ 16 + c * 2 ^ 8 + d ≡ big_endian (a ∷ b ∷ c ∷ d ∷ []) % 2 ^ 31
masked a b c d ha hb hc hd = omega (arith, ha, hb, hc, hd)

module _ (sha1 : Sha1) where
  -- The code is the dynamic truncation of the authentication code of the time step: six decimal digits that write,
  -- modulo 10^6, the low 31 bits of the four bytes in it from the place that its last byte's low 4 bits say.
  pub totp_code_lem :
      (key : List ℕ) (step : ℕ)
      → let hash = hmac_sha1 sha1 key (to_be_bytes step) in
        IsSixDigits
          (totp_code sha1 key step)
          (big_endian (take 4 (drop (get_or hash 19 0 % 16) hash)) % 2 ^ 31 % 1000000)
  unfolding totp_code hmac_sha1
  totp_code_lem key step =
      let hash = hmac_sha1 sha1 key (to_be_bytes step) in
      let offset = get_or hash 19 0 % 16 in
      let long : length hash ≡ 20 = sha1.length-digest _ in
      let bytes : All (λ b. b < 256) hash = sha1.digest-IsByte _ in
      let four = take-four hash offset (omega (arith, long)) in
      let value =
        masked (get_or hash offset 0) (get_or hash (offset + 1) 0) (get_or hash (offset + 2) 0)
          (get_or hash (offset + 3) 0) (get_or-IsByte hash offset bytes)
          (get_or-IsByte hash (offset + 1) bytes) (get_or-IsByte hash (offset + 2) bytes)
          (get_or-IsByte hash (offset + 3) bytes) in
      rw (four, sym value) (six_digits_lem _ (omega arith))
