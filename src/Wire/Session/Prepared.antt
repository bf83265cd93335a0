-- ===== src/Wire/Session/Prepared.antt =====
-- src/quic_wire.rs, lines 343 to 427: the answer to a prepare request read back.
use herdr_dog_relay.Prelude.{
  ℕ, ◌+◌, ◌^◌, ◌<◌, ◌≡◌, refl, List, [], ◌∷◌, ok, ◌>>=◌, >>=-eq-ok, Bytes, IsArray, IsU32, IsU64,
  All, IsByte, to_be, from_be, slice, drop, length, flatten, ◌!=◌, nat_ord, bytes_ord, ap, ◌∙◌,
  arith, false, slice-flatten, uint-flatten, last-flatten, length-to_be, length-flatten, pieces,
  flatten-pieces, from_be-to_be, to_be-slice, to_be-from_be, from_be-lt, slice-IsArray, drop-IsByte,
  subst, length-drop, from_be-slice-lt,
}
use herdr_dog_relay.Wire.Name.{IsName, decode_session_name}
use herdr_dog_relay.Wire.Name.RoundTrip.{encode_name, decode_name, decode_name_inv, ReadsName}
use herdr_dog_relay.Wire.Session.{SessionPrepareAck, encode_prepare_ack, decode_prepare_ack}

-- What the types of the fields allow.
pub record IsPrepareAck (m : SessionPrepareAck) : Type 0 where
  pub name : IsName m.session
  pub print : IsArray 32 m.fingerprint
  pub configuration : IsU64 m.configuration_generation
  pub relay : IsU64 m.relay_generation
  pub epoch : IsU64 m.connection_epoch
  pub secret : IsArray 32 m.token
  pub ttl : IsU32 m.token_ttl_secs

abbrev pub fields : SessionPrepareAck → List Bytes
fields m =
    (length m.session.as_str ∷ [])
    ∷ m.session.as_str
    ∷ m.fingerprint
    ∷ to_be 8 m.configuration_generation
    ∷ to_be 8 m.relay_generation
    ∷ to_be 8 m.connection_epoch
    ∷ m.token
    ∷ to_be 4 m.token_ttl_secs
    ∷ []

encode_fields :
    (m : SessionPrepareAck) → IsName m.session → encode_prepare_ack m ≡ ok (flatten (fields m))
unfolding encode_prepare_ack
encode_fields m w = encode_name m.session _ w

pub decode_of_fields :
    (m : SessionPrepareAck) → IsPrepareAck m → decode_prepare_ack (flatten (fields m)) ≡ ok m
unfolding decode_prepare_ack
decode_of_fields m w =
    let n : ℕ = 1 + length m.session.as_str in
    let size : length (flatten (fields m)) ≡ n + 32 + 8 + 8 + 8 + 32 + 4 =
      length-flatten (fields m)
      ∙ omega (
        arith,
        w.print.0,
        length-to_be 8 m.configuration_generation,
        length-to_be 8 m.relay_generation,
        length-to_be 8 m.connection_epoch,
        w.secret.0,
        length-to_be 4 m.token_ttl_secs,
      ) in
    let exact : (n + 32 + 8 + 8 + 8 + 32 + 4 != n + 32 + 8 + 8 + 8 + 32 + 4) ≡ false =
      ground arith in
    let print : slice n (n + 32) (flatten (fields m)) ≡ m.fingerprint =
      slice-flatten (fields m) 2 _ _ _ refl (omega arith) (omega (arith, w.print.0)) in
    let configuration : from_be (slice (n + 32) (n + 32 + 8) (flatten (fields m)))
        ≡ m.configuration_generation =
      uint-flatten (fields m) 3 8 _ _ _ refl w.configuration (omega (arith, w.print.0)) refl in
    let relay : from_be (slice (n + 32 + 8) (n + 32 + 8 + 8) (flatten (fields m)))
        ≡ m.relay_generation =
      uint-flatten (fields m) 4 8 _ _ _ refl w.relay
        (omega (arith, w.print.0, length-to_be 8 m.configuration_generation)) refl in
    let epoch : from_be (slice (n + 32 + 8 + 8) (n + 32 + 8 + 8 + 8) (flatten (fields m)))
        ≡ m.connection_epoch =
      uint-flatten (fields m) 5 8 _ _ _ refl w.epoch
        (omega (
          arith,
          w.print.0,
          length-to_be 8 m.configuration_generation,
          length-to_be 8 m.relay_generation,
        ))
        refl in
    let secret : slice (n + 32 + 8 + 8 + 8) (n + 32 + 8 + 8 + 8 + 32) (flatten (fields m))
        ≡ m.token =
      slice-flatten (fields m) 6 _ _ _ refl
        (omega (
          arith,
          w.print.0,
          length-to_be 8 m.configuration_generation,
          length-to_be 8 m.relay_generation,
          length-to_be 8 m.connection_epoch,
        ))
        (omega (arith, w.secret.0)) in
    let ttl : drop (n + 32 + 8 + 8 + 8 + 32) (flatten (fields m)) ≡ to_be 4 m.token_ttl_secs =
      last-flatten (fields m) 7 _ _ refl (
        omega (
          arith,
          w.print.0,
          length-to_be 8 m.configuration_generation,
          length-to_be 8 m.relay_generation,
          length-to_be 8 m.connection_epoch,
          w.secret.0,
        )) in
    rw
      (
        decode_name m.session _ w.name,
        size,
        exact,
        print,
        configuration,
        relay,
        epoch,
        secret,
        ttl,
        from_be-to_be 4 m.token_ttl_secs w.ttl,
      )
      refl

-- An answer whose fields are in range is written, and what is written is read back as it was.
pub decode_prepare_ack-encode_prepare_ack :
    (m : SessionPrepareAck) → IsPrepareAck m → (encode_prepare_ack m >>= decode_prepare_ack) ≡ ok m
decode_prepare_ack-encode_prepare_ack m w = rw (encode_fields m w.name) (decode_of_fields m w)

-- What `decode_prepare_ack` reads from each place, where the name ends at `n`.
record Reads (m : SessionPrepareAck) (n : ℕ) (bytes : Bytes) : Type 0 where
  name : ReadsName bytes m.session n
  size : length bytes ≡ n + 32 + 8 + 8 + 8 + 32 + 4
  print : slice n (n + 32) bytes ≡ m.fingerprint
  configuration : from_be (slice (n + 32) (n + 32 + 8) bytes) ≡ m.configuration_generation
  relay : from_be (slice (n + 32 + 8) (n + 32 + 8 + 8) bytes) ≡ m.relay_generation
  epoch : from_be (slice (n + 32 + 8 + 8) (n + 32 + 8 + 8 + 8) bytes) ≡ m.connection_epoch
  secret : slice (n + 32 + 8 + 8 + 8) (n + 32 + 8 + 8 + 8 + 32) bytes ≡ m.token
  ttl : from_be (drop (n + 32 + 8 + 8 + 8 + 32) bytes) ≡ m.token_ttl_secs

reads_of_decode :
    (m : SessionPrepareAck) (bytes : Bytes)
    → decode_prepare_ack bytes ≡ ok m
    → (n : ℕ) × Reads m n bytes
unfolding decode_prepare_ack
reads_of_decode m bytes h =
    let ((s, n), e, k) = >>=-eq-ok (decode_session_name bytes) _ h in
    let facts : (s ≡ m.session)
        × (length bytes ≡ n + 32 + 8 + 8 + 8 + 32 + 4)
        × (slice n (n + 32) bytes ≡ m.fingerprint)
        × (from_be (slice (n + 32) (n + 32 + 8) bytes) ≡ m.configuration_generation)
        × (from_be (slice (n + 32 + 8) (n + 32 + 8 + 8) bytes) ≡ m.relay_generation)
        × (from_be (slice (n + 32 + 8 + 8) (n + 32 + 8 + 8 + 8) bytes) ≡ m.connection_epoch)
        × (slice (n + 32 + 8 + 8 + 8) (n + 32 + 8 + 8 + 8 + 32) bytes ≡ m.token)
        × (from_be (drop (n + 32 + 8 + 8 + 8 + 32) bytes) ≡ m.token_ttl_secs) =
      ground arith in
    (
      n,
      record {
        name = decode_name_inv bytes m.session n (e ∙ ap (λ x. ok (x, n)) facts.0);
        size = facts.1;
        print = facts.2;
        configuration = facts.3;
        relay = facts.4;
        epoch = facts.5;
        secret = facts.6;
        ttl = facts.7;
      },
    )

fields_of_reads :
    (m : SessionPrepareAck) (n : ℕ) (bytes : Bytes)
    → All IsByte bytes
    → Reads m n bytes
    → IsPrepareAck m × (flatten (fields m) ≡ bytes)
fields_of_reads m n bytes b r = (
  record {
    name = r.name.name;
    print = subst (IsArray 32) r.print (slice-IsArray 32 _ _ bytes b refl (omega (arith, r.size)));
    configuration =
        subst (λ i. i < 256 ^ 8) r.configuration
          (from_be-slice-lt 8 _ _ bytes b refl (omega (arith, r.size)));
    relay =
        subst (λ i. i < 256 ^ 8) r.relay
          (from_be-slice-lt 8 _ _ bytes b refl (omega (arith, r.size)));
    epoch =
        subst (λ i. i < 256 ^ 8) r.epoch
          (from_be-slice-lt 8 _ _ bytes b refl (omega (arith, r.size)));
    secret =
        subst (IsArray 32) r.secret (slice-IsArray 32 _ _ bytes b refl (omega (arith, r.size)));
    ttl =
        subst (λ i. i < 256 ^ 4) r.ttl
          (from_be-lt 4 _ (drop-IsByte (n + 32 + 8 + 8 + 8 + 32) bytes b) rest);
  },
  ap flatten same
      ∙ flatten-pieces 0
          (1
            ∷ n
            ∷ (n + 32)
            ∷ (n + 32 + 8)
            ∷ (n + 32 + 8 + 8)
            ∷ (n + 32 + 8 + 8 + 8)
            ∷ (n + 32 + 8 + 8 + 8 + 32)
            ∷ [])
          bytes (omega (arith, r.name.off_eq)),
)
  where
    rest : length (drop (n + 32 + 8 + 8 + 8 + 32) bytes) ≡ 4
    rest = omega (arith, length-drop (n + 32 + 8 + 8 + 8 + 32) bytes, r.size)

    same :
        fields m
        ≡ pieces 0
            (1
              ∷ n
              ∷ (n + 32)
              ∷ (n + 32 + 8)
              ∷ (n + 32 + 8 + 8)
              ∷ (n + 32 + 8 + 8 + 8)
              ∷ (n + 32 + 8 + 8 + 8 + 32)
              ∷ [])
            bytes
    same = cc (
      r.name.len_byte,
      r.name.body,
      r.print,
      r.configuration,
      to_be-slice 8 (n + 32) (n + 32 + 8) bytes b refl (omega (arith, r.size)),
      r.relay,
      to_be-slice 8 (n + 32 + 8) (n + 32 + 8 + 8) bytes b refl (omega (arith, r.size)),
      r.epoch,
      to_be-slice 8 (n + 32 + 8 + 8) (n + 32 + 8 + 8 + 8) bytes b refl (omega (arith, r.size)),
      r.secret,
      r.ttl,
      to_be-from_be 4 (drop (n + 32 + 8 + 8 + 8 + 32) bytes)
          (drop-IsByte (n + 32 + 8 + 8 + 8 + 32) bytes b) rest,
    )

-- If `decode` accepts some bytes as an answer to a prepare request, its fields are in range and
-- its name canonical, and encoding it gives exactly those bytes.
pub encode_prepare_ack-decode_prepare_ack :
    (m : SessionPrepareAck) (bytes : Bytes)
    → All IsByte bytes
    → decode_prepare_ack bytes ≡ ok m
    → IsPrepareAck m × (encode_prepare_ack m ≡ ok bytes)
encode_prepare_ack-decode_prepare_ack m bytes b h =
    let (n, r) = reads_of_decode m bytes h in
    let (w, e) = fields_of_reads m n bytes b r in (w, encode_fields m w.name ∙ ap ok e)
