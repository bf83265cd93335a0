-- ===== src/Envelope/Hdb1.antt =====
-- src/bootstrap_wire.rs, lines 13 to 293: the frames of HDB1, with which a Core is bootstrapped.
pub mod RoundTrip
pub mod Fields
pub mod Payloads
pub mod Results
pub mod Started
use herdr_dog_relay.Prelude.{
  ℕ, ◌+◌, ◌-◌, ◌≡◌, ◌*◌, List, [], ◌∷◌, Bool, true, false, not, ◌||◌, Option, none, some, Result,
  ok, err, ◌>>=◌, ◌>>◌, fail_if, ok_or, Bytes, from_be, slice, byte_at, drop, length, ltb, ◌==◌,
  ◌!=◌, nat_ord, bytes_ord, bytes_beq, get_or, ◌^◌, if◌then◌else◌,
}
use herdr_dog_relay.Envelope.{header_bytes, envelope, read_frame_with}

abbrev pub hdb1_magic : Bytes
hdb1_magic = b'H' ∷ b'D' ∷ b'B' ∷ b'1' ∷ []

abbrev pub hdb1_version : ℕ
hdb1_version = 1

abbrev pub hdb1_max_frame_bytes : ℕ
hdb1_max_frame_bytes = 64 * 1024

abbrev pub hdb1_max_payload_bytes : ℕ
hdb1_max_payload_bytes = hdb1_max_frame_bytes - header_bytes

pub data Hdb1Error : Type 0 where
  invalid_frame frame_too_large invalid_order invalid_field : Hdb1Error

pub data Hdb1Kind : Type 0 where
  start challenge submit core_issued : Hdb1Kind
  reconcile result rejected : Hdb1Kind

-- `kind as u8`
unfoldable pub kind_code : Hdb1Kind → ℕ
kind_code start = 1
kind_code challenge = 2
kind_code submit = 3
kind_code core_issued = 4
kind_code reconcile = 5
kind_code result = 6
kind_code rejected = 7

-- `Hdb1Kind::try_from`
unfoldable pub kind_of_code : ℕ → Result Hdb1Error Hdb1Kind
kind_of_code value = get_or table value (err invalid_frame)
  where
    table : List (Result Hdb1Error Hdb1Kind)
    table =
        err invalid_frame
        ∷ ok start
        ∷ ok challenge
        ∷ ok submit
        ∷ ok core_issued
        ∷ ok reconcile
        ∷ ok result
        ∷ ok rejected
        ∷ []

pub record Hdb1Frame : Type 0 where
  pub kind : Hdb1Kind
  pub payload : Bytes

unfoldable pub encode : Hdb1Frame → Result Hdb1Error Bytes
encode f = do
  fail_if (ltb hdb1_max_payload_bytes (length f.payload)) frame_too_large
  ok (envelope hdb1_magic hdb1_version (kind_code f.kind) f.payload)

unfoldable pub decode : Bytes → Result Hdb1Error Hdb1Frame
decode bytes = do
  fail_if (ltb hdb1_max_frame_bytes (length bytes)) frame_too_large
  fail_if (ltb (length bytes) header_bytes) invalid_frame
  fail_if ((slice 0 4 bytes != hdb1_magic) || (from_be (slice 4 6 bytes) != hdb1_version))
      invalid_frame
  kind ← kind_of_code (byte_at bytes 6)
  let payload_len = from_be (slice 7 11 bytes)
  fail_if (ltb hdb1_max_payload_bytes payload_len) frame_too_large
  fail_if (length bytes != header_bytes + payload_len) invalid_frame
  ok (record { kind = kind; payload = drop header_bytes bytes })

-- `read_frame`
unfoldable pub read_frame : Bytes → Result Hdb1Error (Hdb1Frame × Bytes)
read_frame stream =
    read_frame_with hdb1_max_payload_bytes invalid_frame frame_too_large (decode) stream

-- The JSON of a type, which another package writes and reads.
module _ {T : Type 0} (to_vec : T → Option Bytes) (from_slice : Bytes → Option T) where
  unfoldable pub json : Hdb1Kind → T → Result Hdb1Error Hdb1Frame
  json kind value = do
    payload ← ok_or (to_vec value) invalid_frame
    fail_if (ltb hdb1_max_payload_bytes (length payload)) frame_too_large
    ok (record { kind = kind; payload = payload })

  unfoldable pub parse_json : Hdb1Frame → Hdb1Kind → Result Hdb1Error T
  parse_json f expected = do
    fail_if (kind_code f.kind != kind_code expected) invalid_order
    ok_or (from_slice f.payload) invalid_frame
