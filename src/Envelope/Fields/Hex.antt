-- ===== src/Envelope/Fields/Hex.antt =====
-- src/enrollment_v3_wire.rs, lines 849 to 888: hexadecimal texts read back.
use herdr_dog_relay.Prelude.{
  ℕ, ◌+◌, ◌-◌, ◌*◌, ◌/◌, ◌%◌, ◌<◌, ◌≡◌, ◌≢◌, ◌≤◌, ◌⊎◌, inl, inr, ok-injective, >>=-eq-ok, subst,
  refl, [], ◌∷◌, true, false, ok, Bytes, All, IsByte, IsArray, length, all, any, replicate, get_or,
  nat_ord, bytes_ord, bytes_beq_iff, arith,
}
use herdr_dog_relay.Envelope.Fields.{
  hex_digits, encode_hex, is_hexdigit, is_upper, hex_nibble, decode_pairs, decode_hex_exact,
}

-- The sixteen digits are the figures and the first letters.
digit_cases :
    (n : ℕ)
    → n < 16
    → ((n < 10) × (get_or hex_digits n 0 ≡ 48 + n)) ⊎ ((10 ≤ n) × (get_or hex_digits n 0 ≡ 87 + n))
digit_cases n h = ground arith

digit-IsHex :
    (n : ℕ)
    → n < 16
    → (is_hexdigit (get_or hex_digits n 0) ≡ true) × (is_upper (get_or hex_digits n 0) ≡ false)
digit-IsHex n h = elim (digit_cases n h) [
  | inl (l, e) ↦ rw e (ground arith)
  | inr (l, e) ↦ rw e (ground arith)
]

encode_hex-IsHex :
    (bytes : Bytes)
    → All IsByte bytes
    → (length (encode_hex bytes) ≡ length bytes * 2)
      × (all is_hexdigit (encode_hex bytes) ≡ true)
      × (any is_upper (encode_hex bytes) ≡ false)
unfolding encode_hex
encode_hex-IsHex [] h = (refl, refl, refl)
encode_hex-IsHex (b ∷ bytes) (h, hs) =
    let (l, a, u) = encode_hex-IsHex bytes hs in
    let (hi, hi') = digit-IsHex (b / 16) (omega arith) in
    let (lo, lo') = digit-IsHex (b % 16) (omega arith) in
    (omega (arith, l), rw (hi, lo) a, rw (hi', lo') u)

module _ {E : Type 0} (invalid large : E) where
  nibble-digit : (n : ℕ) → n < 16 → hex_nibble invalid large (get_or hex_digits n 0) ≡ ok n
  unfolding hex_nibble
  nibble-digit n h = elim (digit_cases n h) [
    | inl (l, e) ↦ rw e (ground arith)
    | inr (l, e) ↦ rw e (ground arith)
  ]

  decode_pairs-encode_hex :
      (bytes : Bytes) → All IsByte bytes → decode_pairs invalid large (encode_hex bytes) ≡ ok bytes
  unfolding encode_hex decode_pairs
  decode_pairs-encode_hex [] h = refl
  decode_pairs-encode_hex (b ∷ bytes) (h, hs) =
      let e : b / 16 * 16 + b % 16 ≡ b = omega arith in
      rw
        (
          nibble-digit (b / 16) (omega arith),
          nibble-digit (b % 16) (omega arith),
          decode_pairs-encode_hex bytes hs,
          e,
        )
        refl

  pub decode-encode_hex :
      (n : ℕ) (bytes : Bytes)
      → IsArray n bytes
      → bytes ≢ replicate n 0
      → decode_hex_exact invalid large n (encode_hex bytes) ≡ ok bytes
  unfolding decode_hex_exact
  decode-encode_hex n bytes (l, h) z = ground (
    arith,
    encode_hex-IsHex bytes h,
    decode_pairs-encode_hex bytes h,
    bytes_beq_iff bytes (replicate n 0),
  )

  nibble-value :
      (a n : ℕ)
      → hex_nibble invalid large a ≡ ok n
      → ((n < 10) × (a ≡ 48 + n)) ⊎ ((10 ≤ n) × (n < 16) × (a ≡ 87 + n))
  unfolding hex_nibble
  nibble-value a n h = ground arith

  nibble-ok : (a n : ℕ) → hex_nibble invalid large a ≡ ok n → (n < 16) × (get_or hex_digits n 0 ≡ a)
  nibble-ok a n h = elim (nibble-value a n h) [
    | inl (l, e) ↦ (omega arith, ground (arith, digit_cases n (omega arith)))
    | inr (l, m, e) ↦ (m, ground (arith, digit_cases n m))
  ]

  decode_pairs-ok :
      (n : ℕ) (value bytes : Bytes)
      → length value ≡ n * 2
      → decode_pairs invalid large value ≡ ok bytes
      → (encode_hex bytes ≡ value) × IsArray n bytes
  unfolding encode_hex decode_pairs
  decode_pairs-ok n [] bytes l h = (ground arith, ground arith)
  decode_pairs-ok n (a ∷ []) bytes l h = ground arith
  decode_pairs-ok n (a ∷ b ∷ value) bytes l h =
      let (high, p, h') = >>=-eq-ok (hex_nibble invalid large a) _ h in
      let (low, q, h'') = >>=-eq-ok (hex_nibble invalid large b) _ h' in
      let (output, o, h3) = >>=-eq-ok (decode_pairs invalid large value) _ h'' in
      let (e, w) = decode_pairs-ok (n - 1) value output (omega arith) o in
      let (u, x) = nibble-ok a high p in
      let (v, y) = nibble-ok b low q in
      let d : (high * 16 + low) / 16 ≡ high = omega arith in
      let m : (high * 16 + low) % 16 ≡ low = omega arith in
      subst (λ bytes. (encode_hex bytes ≡ a ∷ b ∷ value) × IsArray n bytes) (ok-injective h3)
        (rw (d, m, x, y, e) refl, (omega (arith, w.0), (omega arith, w.1)))

  exact-ok :
      (n : ℕ) (value bytes : Bytes)
      → decode_hex_exact invalid large n value ≡ ok bytes
      → (length value ≡ n * 2)
        × (decode_pairs invalid large value ≡ ok bytes)
        × (bytes ≢ replicate n 0)
  unfolding decode_hex_exact
  exact-ok n value bytes h = ground (arith, bytes_beq_iff bytes (replicate n 0))

  pub encode-decode_hex :
      (n : ℕ) (value bytes : Bytes)
      → decode_hex_exact invalid large n value ≡ ok bytes
      → (encode_hex bytes ≡ value) × IsArray n bytes × (bytes ≢ replicate n 0)
  encode-decode_hex n value bytes h =
      let (l, d, z) = exact-ok n value bytes h in
      let (e, w) = decode_pairs-ok n value bytes l d in (e, w, z)
