-- ===== src/Wire/Session/Open.antt =====
-- src/quic_wire.rs, lines 429 to 504: the open request read back.
use herdr_dog_relay.Prelude.{
  ℕ, ◌+◌, ◌^◌, ◌<◌, ◌≡◌, refl, List, [], ◌∷◌, ok, ◌>>=◌, >>=-eq-ok, Bytes, IsArray, IsU64, All,
  IsByte, to_be, from_be, slice, drop, length, flatten, ◌!=◌, nat_ord, bytes_ord, ap, ◌∙◌, arith,
  false, slice-flatten, uint-flatten, last-flatten, length-to_be, length-flatten, pieces,
  flatten-pieces, to_be-slice, slice-IsArray, drop-IsByte, subst, length-drop, from_be-slice-lt,
}
use herdr_dog_relay.Wire.Name.{IsName, decode_session_name}
use herdr_dog_relay.Wire.Name.RoundTrip.{encode_name, decode_name, decode_name_inv, ReadsName}
use herdr_dog_relay.Wire.Session.{SessionOpenRequest, encode_open, decode_open}

-- What the types of the fields allow.
pub record IsOpen (m : SessionOpenRequest) : Type 0 where
  pub name : IsName m.session
  pub print : IsArray 32 m.fingerprint
  pub configuration : IsU64 m.configuration_generation
  pub relay : IsU64 m.relay_generation
  pub epoch : IsU64 m.connection_epoch
  pub secret : IsArray 32 m.token

abbrev pub fields : SessionOpenRequest → List Bytes
fields m =
    (length m.session.as_str ∷ [])
    ∷ m.session.as_str
    ∷ m.fingerprint
    ∷ to_be 8 m.configuration_generation
    ∷ to_be 8 m.relay_generation
    ∷ to_be 8 m.connection_epoch
    ∷ m.token
    ∷ []

encode_fields :
    (m : SessionOpenRequest) → IsName m.session → encode_open m ≡ ok (flatten (fields m))
unfolding encode_open
encode_fields m w = encode_name m.session _ w

pub decode_of_fields : (m : SessionOpenRequest) → IsOpen m → decode_open (flatten (fields m)) ≡ ok m
unfolding decode_open
decode_of_fields m w =
    let n : ℕ = 1 + length m.session.as_str in
    let size : length (flatten (fields m)) ≡ n + 32 + 8 + 8 + 8 + 32 =
      length-flatten (fields m)
      ∙ omega (
        arith,
        w.print.0,
        length-to_be 8 m.configuration_generation,
        length-to_be 8 m.relay_generation,
        length-to_be 8 m.connection_epoch,
        w.secret.0,
      ) in
    let exact : (n + 32 + 8 + 8 + 8 + 32 != n + 32 + 8 + 8 + 8 + 32) ≡ false = ground arith in
    let print : slice n (n + 32) (flatten (fields m)) ≡ m.fingerprint =
      slice-flatten (fields m) 2 _ _ _ refl (omega arith) (omega (arith, w.print.0)) in
    let configuration : from_be (slice (n + 32) (n + 32 + 8) (flatten (fields m)))
        ≡ m.configuration_generation =
      uint-flatten (fields m) 3 8 _ _ _ refl w.configuration (omega (arith, w.print.0))
        (omega arith) in
    let relay : from_be (slice (n + 32 + 8) (n + 32 + 16) (flatten (fields m)))
        ≡ m.relay_generation =
      uint-flatten (fields m) 4 8 _ _ _ refl w.relay
        (omega (arith, w.print.0, length-to_be 8 m.configuration_generation)) (omega arith) in
    let epoch : from_be (slice (n + 32 + 16) (n + 32 + 24) (flatten (fields m)))
        ≡ m.connection_epoch =
      uint-flatten (fields m) 5 8 _ _ _ refl w.epoch
        (omega (
          arith,
          w.print.0,
          length-to_be 8 m.configuration_generation,
          length-to_be 8 m.relay_generation,
        ))
        (omega arith) in
    let secret : drop (n + 32 + 24) (flatten (fields m)) ≡ m.token =
      last-flatten (fields m) 6 _ _ refl (
        omega (
          arith,
          w.print.0,
          length-to_be 8 m.configuration_generation,
          length-to_be 8 m.relay_generation,
          length-to_be 8 m.connection_epoch,
        )) in
    rw (decode_name m.session _ w.name, size, exact, print, configuration, relay, epoch, secret)
      refl

-- A request whose fields are in range is written, and what is written is read back as it was.
pub decode_open-encode_open :
    (m : SessionOpenRequest) → IsOpen m → (encode_open m >>= decode_open) ≡ ok m
decode_open-encode_open m w = rw (encode_fields m w.name) (decode_of_fields m w)

-- What `decode_open` reads from each place, where the name ends at `n`.
record Reads (m : SessionOpenRequest) (n : ℕ) (bytes : Bytes) : Type 0 where
  name : ReadsName bytes m.session n
  size : length bytes ≡ n + 32 + 8 + 8 + 8 + 32
  print : slice n (n + 32) bytes ≡ m.fingerprint
  configuration : from_be (slice (n + 32) (n + 32 + 8) bytes) ≡ m.configuration_generation
  relay : from_be (slice (n + 32 + 8) (n + 32 + 16) bytes) ≡ m.relay_generation
  epoch : from_be (slice (n + 32 + 16) (n + 32 + 24) bytes) ≡ m.connection_epoch
  secret : drop (n + 32 + 24) bytes ≡ m.token

reads_of_decode :
    (m : SessionOpenRequest) (bytes : Bytes) → decode_open bytes ≡ ok m → (n : ℕ) × Reads m n bytes
unfolding decode_open
reads_of_decode m bytes h =
    let ((s, n), e, k) = >>=-eq-ok (decode_session_name bytes) _ h in
    let facts : (s ≡ m.session)
        × (length bytes ≡ n + 32 + 8 + 8 + 8 + 32)
        × (slice n (n + 32) bytes ≡ m.fingerprint)
        × (from_be (slice (n + 32) (n + 32 + 8) bytes) ≡ m.configuration_generation)
        × (from_be (slice (n + 32 + 8) (n + 32 + 16) bytes) ≡ m.relay_generation)
        × (from_be (slice (n + 32 + 16) (n + 32 + 24) bytes) ≡ m.connection_epoch)
        × (drop (n + 32 + 24) bytes ≡ m.token) =
      ground arith in
    (
      n,
      record {
        name = decode_name_inv bytes m.session n (e ∙ ap (λ x. ok (x, n)) facts.0);
        size = facts.1;
        print = facts.2;
        configuration = facts.3;
        relay = facts.4;
        epoch = facts.5;
        secret = facts.6;
      },
    )

fields_of_reads :
    (m : SessionOpenRequest) (n : ℕ) (bytes : Bytes)
    → All IsByte bytes
    → Reads m n bytes
    → IsOpen m × (flatten (fields m) ≡ bytes)
fields_of_reads m n bytes b r = (
  record {
    name = r.name.name;
    print =
        subst (IsArray 32) r.print
          (slice-IsArray 32 _ _ bytes b (omega arith) (omega (arith, r.size)));
    configuration =
        subst (λ i. i < 256 ^ 8) r.configuration
          (from_be-slice-lt 8 _ _ bytes b (omega arith) (omega (arith, r.size)));
    relay =
        subst (λ i. i < 256 ^ 8) r.relay
          (from_be-slice-lt 8 _ _ bytes b (omega arith) (omega (arith, r.size)));
    epoch =
        subst (λ i. i < 256 ^ 8) r.epoch
          (from_be-slice-lt 8 _ _ bytes b (omega arith) (omega (arith, r.size)));
    secret = subst (IsArray 32) r.secret (rest, drop-IsByte (n + 32 + 24) bytes b);
  },
  ap flatten same
      ∙ flatten-pieces 0 (1 ∷ n ∷ (n + 32) ∷ (n + 32 + 8) ∷ (n + 32 + 16) ∷ (n + 32 + 24) ∷ [])
          bytes (omega (arith, r.name.off_eq)),
)
  where
    rest : length (drop (n + 32 + 24) bytes) ≡ 32
    rest = omega (arith, length-drop (n + 32 + 24) bytes, r.size)

    same :
        fields m
        ≡ pieces 0 (1 ∷ n ∷ (n + 32) ∷ (n + 32 + 8) ∷ (n + 32 + 16) ∷ (n + 32 + 24) ∷ []) bytes
    same = cc (
      r.name.len_byte,
      r.name.body,
      r.print,
      r.configuration,
      to_be-slice 8 (n + 32) (n + 32 + 8) bytes b (omega arith) (omega (arith, r.size)),
      r.relay,
      to_be-slice 8 (n + 32 + 8) (n + 32 + 16) bytes b (omega arith) (omega (arith, r.size)),
      r.epoch,
      to_be-slice 8 (n + 32 + 16) (n + 32 + 24) bytes b (omega arith) (omega (arith, r.size)),
      r.secret,
    )

-- If `decode` accepts some bytes as an open request, its fields are in range and its name
-- canonical, and encoding it gives exactly those bytes.
pub encode_open-decode_open :
    (m : SessionOpenRequest) (bytes : Bytes)
    → All IsByte bytes
    → decode_open bytes ≡ ok m
    → IsOpen m × (encode_open m ≡ ok bytes)
encode_open-decode_open m bytes b h =
    let (n, r) = reads_of_decode m bytes h in
    let (w, e) = fields_of_reads m n bytes b r in (w, encode_fields m w.name ∙ ap ok e)
