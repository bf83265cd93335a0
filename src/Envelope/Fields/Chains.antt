-- ===== src/Envelope/Fields/Chains.antt =====
-- src/enrollment_v3_wire.rs, lines 834 to 847 and 914 to 953: certificate chains read back.
use herdr_dog_relay.Prelude.{
  ℕ, ◌+◌, ◌≤◌, ◌≡◌, ap, suc, ◌*◌, inl, inr, Option-cases, Result-cases, List, [], ◌∷◌, ok, Bytes,
  All, length, bytes_beq_iff, bytes_ord, nat_ord, arith, beq_refl,
}
use herdr_dog_relay.Issuance.{chain_bytes}
use herdr_dog_relay.Envelope.Fields.{
  Base64, decode_base64_bounded, encode_each, encode_certificate_chain, decode_each,
  decode_certificate_chain, max_chain_bytes,
}

module _ {E : Type 0} (invalid large : E) (base64 : Base64) where
  bounded-encode :
      (bytes : Bytes) (max : ℕ)
      → 1 ≤ length bytes
      → length bytes ≤ max
      → decode_base64_bounded invalid large base64 (base64.encode bytes) max ≡ ok bytes
  unfolding decode_base64_bounded
  bounded-encode bytes max l h =
      ground (arith, base64.decode-encode bytes, beq_refl (base64.encode bytes))

  bounded-ok :
      (value bytes : Bytes) (max : ℕ)
      → decode_base64_bounded invalid large base64 value max ≡ ok bytes
      → (1 ≤ length bytes) × (length bytes ≤ max) × (base64.encode bytes ≡ value)
  unfolding decode_base64_bounded
  bounded-ok value bytes max h = elim (Option-cases (base64.decode value)) [
    | inl e ↦ ground arith
    | inr (found, e) ↦ ground (arith, bytes_beq_iff (base64.encode bytes) value)
  ]

  encode_each-step :
      (total : ℕ) (value : Bytes) (values texts : List Bytes)
      → encode_each invalid large base64 total (value ∷ values) ≡ ok texts
      → (1 ≤ length value)
        × (total + length value ≤ max_chain_bytes)
        × ((output : List Bytes) × (encode_each invalid large base64 (total + length value) values
              ≡ ok output)
            × (texts ≡ base64.encode value ∷ output))
  unfolding encode_each
  encode_each-step total value values texts h =
      elim (Result-cases (encode_each invalid large base64 (total + length value) values)) [
        | inl (output, e) ↦ (ground arith, ground arith, (output, e, ground arith))
        | inr (f, e) ↦ ground arith
      ]

  decode_each-step :
      (total : ℕ) (text : Bytes) (texts values : List Bytes)
      → decode_each invalid large base64 total (text ∷ texts) ≡ ok values
      → (certificate : Bytes) × (decode_base64_bounded invalid large base64 text max_chain_bytes
          ≡ ok certificate)
        × (total + length certificate ≤ max_chain_bytes)
        × ((output : List Bytes) × (decode_each invalid large base64
                (total + length certificate)
                texts
              ≡ ok output)
            × (values ≡ certificate ∷ output))
  unfolding decode_each
  decode_each-step total text texts values h =
      elim (Result-cases (decode_base64_bounded invalid large base64 text max_chain_bytes)) [
        | inr (f, e) ↦ ground arith
        | inl (certificate, d) ↦
            elim (Result-cases
              (decode_each invalid large base64 (total + length certificate) texts)) [
                | inl (output, e) ↦ (certificate, d, ground arith, (output, e, ground arith))
                | inr (f, e) ↦ ground arith
              ]
      ]

  decode_each-encode_each :
      (total : ℕ) (values texts : List Bytes)
      → encode_each invalid large base64 total values ≡ ok texts
      → (decode_each invalid large base64 total texts ≡ ok values) × (length texts ≡ length values)
  unfolding decode_each encode_each
  decode_each-encode_each total [] texts h = ground arith
  decode_each-encode_each total (value ∷ values) texts h =
      let (some_bytes, fits, (output, e, t)) = encode_each-step total value values texts h in
      let (d, l) = decode_each-encode_each (total + length value) values output e in
      rw t (ground (arith, d, bounded-encode value max_chain_bytes), ap suc l)

  decode_each-ok :
      (total : ℕ) (texts values : List Bytes)
      → total ≤ max_chain_bytes
      → decode_each invalid large base64 total texts ≡ ok values
      → (encode_each invalid large base64 total values ≡ ok texts)
        × (length texts ≡ length values)
        × (total + chain_bytes values ≤ max_chain_bytes)
        × All (λ (c : Bytes). 1 ≤ length c) values
  unfolding encode_each decode_each
  decode_each-ok total [] values t h = ground arith
  decode_each-ok total (text ∷ texts) values t h =
      let (certificate, d, fits, (output, e, v)) = decode_each-step total text texts values h in
      let (c, l, b, a) = decode_each-ok (total + length certificate) texts output fits e in
      let (some_bytes, small, text') = bounded-ok text certificate max_chain_bytes d in
      rw v (ground (arith, c, text'), ap suc l, omega (arith, b), (some_bytes, a))

  pub decode-encode_chain :
      (values texts : List Bytes)
      → encode_certificate_chain invalid large base64 values ≡ ok texts
      → decode_certificate_chain invalid large base64 texts ≡ ok values
  unfolding encode_certificate_chain decode_certificate_chain
  decode-encode_chain values texts h = ground (arith, decode_each-encode_each 0 values texts)

  -- For any Base64 that decodes what it encodes, a certificate chain that
  -- `decode_certificate_chain` accepts has 1 to 8 certificates, none of them empty, of at most 46
  -- KiB together, and encodes to the texts it was read from.
  pub decode_chain-bounds :
      (texts values : List Bytes)
      → decode_certificate_chain invalid large base64 texts ≡ ok values
      → (1 ≤ length values)
        × (length values ≤ 8)
        × (chain_bytes values ≤ 46 * 1024)
        × All (λ (c : Bytes). 1 ≤ length c) values
        × (encode_certificate_chain invalid large base64 values ≡ ok texts)
  unfolding encode_certificate_chain decode_certificate_chain
  decode_chain-bounds texts values h =
      let d : decode_each invalid large base64 0 texts ≡ ok values = ground arith in
      let (c, l, b, a) = decode_each-ok 0 texts values (omega arith) d in
      (ground (arith, l), ground (arith, l), omega (arith, b), a, ground (arith, c, l))
