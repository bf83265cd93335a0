-- ===== src/Envelope/RoundTrip.antt =====
-- The envelope of src/enrollment_wire.rs and its likes: what is read from each place of it.
use mathlib.Core.List.{append_assoc, append-nil}
use herdr_dog_relay.Prelude.{
  ℕ, ◌+◌, ◌^◌, ◌≤◌, ◌<◌, ◌≡◌, refl, sym, ap, ◌∙◌, List, [], ◌∷◌, ◌++◌, Result, ok, some, Bytes, All,
  IsByte, to_be, from_be, slice, byte_at, drop, length, flatten, arith, slice-flatten,
  byte_at-flatten, uint-flatten, last-flatten, length-to_be, length-flatten, pieces, flatten-pieces,
  slice-byte_at, to_be-slice, length-append, take-append,
}
use herdr_dog_relay.Envelope.{envelope_fields, envelope, read_exact, read_frame_with}

size_version : (version : ℕ) → length (to_be 2 version) ≡ 2
size_version version = length-to_be 2 version

module _ (magic : Bytes) (version code : ℕ) (payload bytes : Bytes) where
  -- What a decoder reads from each place.
  abbrev pub Reads : Type 0
  Reads =
      (length bytes ≡ 11 + length payload)
      × (slice 0 4 bytes ≡ magic)
      × (from_be (slice 4 6 bytes) ≡ version)
      × (byte_at bytes 6 ≡ code)
      × (from_be (slice 7 11 bytes) ≡ length payload)
      × (drop 11 bytes ≡ payload)

pub envelope-reads :
    (magic : Bytes) (version code : ℕ) (payload : Bytes)
    → length magic ≡ 4
    → version < 256 ^ 2
    → length payload < 256 ^ 4
    → Reads magic version code payload (envelope magic version code payload)
unfolding envelope_fields
envelope-reads magic version code payload m v l =
    let fs = envelope_fields magic version code payload in
    (
      length-flatten fs ∙ omega (arith, size_version version, length-to_be 4 (length payload)),
      slice-flatten fs 0 magic 0 4 refl refl (omega arith),
      uint-flatten fs 1 2 version 4 6 refl v (omega arith) refl,
      byte_at-flatten fs 2 code 6 refl (omega (arith, size_version version)),
      uint-flatten fs 3 4 (length payload) 7 11 refl l (omega (arith, size_version version)) refl,
      last-flatten fs 4 payload 11 refl
          (omega (arith, size_version version, length-to_be 4 (length payload))),
    )

pub envelope-of_reads :
    (magic : Bytes) (version code : ℕ) (payload bytes : Bytes)
    → All IsByte bytes
    → Reads magic version code payload bytes
    → envelope magic version code payload ≡ bytes
unfolding envelope_fields
envelope-of_reads magic version code payload bytes b r =
    ap flatten fields ∙ flatten-pieces 0 (4 ∷ 6 ∷ 7 ∷ 11 ∷ []) bytes (omega arith)
  where
    fields : envelope_fields magic version code payload ≡ pieces 0 (4 ∷ 6 ∷ 7 ∷ 11 ∷ []) bytes
    fields = cc (
      r.1,
      r.2,
      r.3,
      r.4,
      r.5,
      to_be-slice 2 4 6 bytes b refl (omega arith),
      to_be-slice 4 7 11 bytes b refl (omega arith),
      slice-byte_at bytes 6 (omega arith),
    )

-- The fields of the header.
header_fields : Bytes → ℕ → ℕ → ℕ → List Bytes
header_fields magic version code len = magic ∷ to_be 2 version ∷ (code ∷ []) ∷ to_be 4 len ∷ []

envelope-header :
    (magic : Bytes) (version code : ℕ) (payload : Bytes)
    → envelope magic version code payload
      ≡ flatten (header_fields magic version code (length payload)) ++ payload
unfolding envelope_fields header_fields flatten
envelope-header magic version code payload = simp (append_assoc, append-nil)

length-header :
    (magic : Bytes) (version code len : ℕ)
    → length magic ≡ 4
    → length (flatten (header_fields magic version code len)) ≡ 11
unfolding header_fields
length-header magic version code len m =
    length-flatten (header_fields magic version code len)
    ∙ omega (arith, size_version version, length-to_be 4 len)

read_exact-append :
    (n : ℕ) (xs ys : Bytes) → length xs ≡ n → read_exact n (xs ++ ys) ≡ some (xs, ys)
unfolding read_exact
read_exact-append n xs ys e =
    rw (← e) (ground (arith, length-append xs ys, take-append xs ys, drop_all xs ys))
  where
    drop_all : (xs ys : Bytes) → drop (length xs) (xs ++ ys) ≡ ys
    drop_all [] ys = refl
    drop_all (x ∷ xs) ys = drop_all xs ys

module _ {E F : Type 0} (max_bytes : ℕ) (invalid large : E) (decode : Bytes → Result E F) where
  frame_of :
      (stream header stream' payload rest : Bytes) (f : F)
      → read_exact 11 stream ≡ some (header, stream')
      → length payload ≤ max_bytes
      → from_be (slice 7 11 header) ≡ length payload
      → read_exact (length payload) stream' ≡ some (payload, rest)
      → decode (header ++ payload) ≡ ok f
      → read_frame_with max_bytes invalid large decode stream ≡ ok (f, rest)
  unfolding read_frame_with
  frame_of stream header stream' payload rest f h l n p d = ground arith

  pub read_frame-envelope :
      (magic : Bytes) (version code : ℕ) (payload rest : Bytes) (f : F)
      → length magic ≡ 4
      → length payload < 256 ^ 4
      → length payload ≤ max_bytes
      → decode (envelope magic version code payload) ≡ ok f
      → read_frame_with max_bytes invalid large decode (envelope magic version code payload ++ rest)
        ≡ ok (f, rest)
  unfolding header_fields
  read_frame-envelope magic version code payload rest f m l small d =
      let header = flatten (header_fields magic version code (length payload)) in
      let split = envelope-header magic version code payload in
      frame_of (envelope magic version code payload ++ rest) header (payload ++ rest) payload rest f
        (ap (λ e. read_exact 11 (e ++ rest)) split
          ∙ ap (read_exact 11) (append_assoc header payload rest)
          ∙ read_exact-append 11 header (payload ++ rest)
              (length-header magic version code (length payload) m))
        small
        (uint-flatten (header_fields magic version code (length payload)) 3 4 (length payload) 7 11
          refl l (omega (arith, size_version version)) refl)
        (read_exact-append (length payload) payload rest refl) (ap decode (sym split) ∙ d)
