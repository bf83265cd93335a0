-- ===== src/Wire/Session/Prepare.antt =====
-- src/quic_wire.rs, lines 292 to 341: the prepare request read back.
use herdr_dog_relay.Prelude.{
  ℕ, ◌+◌, ◌^◌, ◌<◌, ◌≡◌, refl, List, [], ◌∷◌, ok, ◌>>=◌, >>=-eq-ok, Bytes, IsArray, IsU64, All,
  IsByte, to_be, from_be, slice, drop, length, flatten, ◌!=◌, nat_ord, bytes_ord, ap, ◌∙◌, arith,
  false, slice-flatten, last-flatten, length-to_be, length-flatten, pieces, flatten-pieces,
  from_be-to_be, to_be-from_be, from_be-lt, slice-IsArray, drop-IsByte, subst, length-drop,
}
use herdr_dog_relay.Wire.Name.{IsName, decode_session_name}
use herdr_dog_relay.Wire.Name.RoundTrip.{encode_name, decode_name, decode_name_inv, ReadsName}
use herdr_dog_relay.Wire.Session.{SessionPrepareRequest, encode_prepare, decode_prepare}

-- What the types of the fields allow.
pub record IsPrepare (m : SessionPrepareRequest) : Type 0 where
  pub name : IsName m.session
  pub print : IsArray 32 m.expected_fingerprint
  pub generation : IsU64 m.configuration_generation

abbrev pub fields : SessionPrepareRequest → List Bytes
fields m =
    (length m.session.as_str ∷ [])
    ∷ m.session.as_str
    ∷ m.expected_fingerprint
    ∷ to_be 8 m.configuration_generation
    ∷ []

encode_fields :
    (m : SessionPrepareRequest) → IsName m.session → encode_prepare m ≡ ok (flatten (fields m))
unfolding encode_prepare
encode_fields m w = encode_name m.session _ w

pub decode_of_fields :
    (m : SessionPrepareRequest) → IsPrepare m → decode_prepare (flatten (fields m)) ≡ ok m
unfolding decode_prepare
decode_of_fields m w =
    let n : ℕ = 1 + length m.session.as_str in
    let size : length (flatten (fields m)) ≡ n + 32 + 8 =
      length-flatten (fields m)
      ∙ omega (arith, w.print.0, length-to_be 8 m.configuration_generation) in
    let exact : (n + 32 + 8 != n + 32 + 8) ≡ false = ground arith in
    let print : slice n (n + 32) (flatten (fields m)) ≡ m.expected_fingerprint =
      slice-flatten (fields m) 2 _ _ _ refl (omega arith) (omega (arith, w.print.0)) in
    let generation : drop (n + 32) (flatten (fields m)) ≡ to_be 8 m.configuration_generation =
      last-flatten (fields m) 3 _ _ refl (omega (arith, w.print.0)) in
    rw
      (
        decode_name m.session _ w.name,
        size,
        exact,
        print,
        generation,
        from_be-to_be 8 m.configuration_generation w.generation,
      )
      refl

-- A request whose fields are in range is written, and what is written is read back as it was.
pub decode_prepare-encode_prepare :
    (m : SessionPrepareRequest) → IsPrepare m → (encode_prepare m >>= decode_prepare) ≡ ok m
decode_prepare-encode_prepare m w = rw (encode_fields m w.name) (decode_of_fields m w)

-- What `decode_prepare` reads from each place, where the name ends at `n`.
record Reads (m : SessionPrepareRequest) (n : ℕ) (bytes : Bytes) : Type 0 where
  name : ReadsName bytes m.session n
  size : length bytes ≡ n + 32 + 8
  print : slice n (n + 32) bytes ≡ m.expected_fingerprint
  generation : from_be (drop (n + 32) bytes) ≡ m.configuration_generation

reads_of_decode :
    (m : SessionPrepareRequest) (bytes : Bytes)
    → decode_prepare bytes ≡ ok m
    → (n : ℕ) × Reads m n bytes
unfolding decode_prepare
reads_of_decode m bytes h =
    let ((s, n), e, k) = >>=-eq-ok (decode_session_name bytes) _ h in
    let facts : (s ≡ m.session)
        × (length bytes ≡ n + 32 + 8)
        × (slice n (n + 32) bytes ≡ m.expected_fingerprint)
        × (from_be (drop (n + 32) bytes) ≡ m.configuration_generation) =
      ground arith in
    (
      n,
      record {
        name = decode_name_inv bytes m.session n (e ∙ ap (λ x. ok (x, n)) facts.0);
        size = facts.1;
        print = facts.2;
        generation = facts.3;
      },
    )

fields_of_reads :
    (m : SessionPrepareRequest) (n : ℕ) (bytes : Bytes)
    → All IsByte bytes
    → Reads m n bytes
    → IsPrepare m × (flatten (fields m) ≡ bytes)
fields_of_reads m n bytes b r = (
  record {
    name = r.name.name;
    print = subst (IsArray 32) r.print (slice-IsArray 32 _ _ bytes b refl (omega (arith, r.size)));
    generation =
        subst (λ i. i < 256 ^ 8) r.generation (from_be-lt 8 _ (drop-IsByte (n + 32) bytes b) rest);
  },
  ap flatten same ∙ flatten-pieces 0 (1 ∷ n ∷ (n + 32) ∷ []) bytes (omega (arith, r.name.off_eq)),
)
  where
    rest : length (drop (n + 32) bytes) ≡ 8
    rest = omega (arith, length-drop (n + 32) bytes, r.size)

    same : fields m ≡ pieces 0 (1 ∷ n ∷ (n + 32) ∷ []) bytes
    same = cc (
      r.name.len_byte,
      r.name.body,
      r.print,
      r.generation,
      to_be-from_be 8 (drop (n + 32) bytes) (drop-IsByte (n + 32) bytes b) rest,
    )

-- If `decode` accepts some bytes as a prepare request, its fields are in range and its name
-- canonical, and encoding it gives exactly those bytes.
pub encode_prepare-decode_prepare :
    (m : SessionPrepareRequest) (bytes : Bytes)
    → All IsByte bytes
    → decode_prepare bytes ≡ ok m
    → IsPrepare m × (encode_prepare m ≡ ok bytes)
encode_prepare-decode_prepare m bytes b h =
    let (n, r) = reads_of_decode m bytes h in
    let (w, e) = fields_of_reads m n bytes b r in (w, encode_fields m w.name ∙ ap ok e)
