-- ===== src/Envelope/Reconciliation.antt =====
-- src/reconciliation_wire.rs, lines 10 to 200: the frames of version two of HDE1, with which a lost answer is asked for again.
pub mod RoundTrip
pub mod Payload
use herdr_dog_relay.Prelude.{
  ℕ, ◌+◌, ◌-◌, ◌≡◌, ◌*◌, List, [], ◌∷◌, Bool, true, false, not, ◌||◌, Option, none, some, Result,
  ok, err, ◌>>=◌, ◌>>◌, fail_if, ok_or, Bytes, from_be, slice, byte_at, drop, length, ltb, ◌==◌,
  ◌!=◌, nat_ord, bytes_ord, bytes_beq, get_or, ◌^◌, if◌then◌else◌,
}
use herdr_dog_relay.Envelope.{header_bytes, envelope, read_frame_with}

abbrev pub reconciliation_magic : Bytes
reconciliation_magic = b'H' ∷ b'D' ∷ b'E' ∷ b'1' ∷ []

abbrev pub reconciliation_version : ℕ
reconciliation_version = 2

pub data ReconciliationWireError : Type 0 where
  invalid_frame frame_too_large invalid_order invalid_result : ReconciliationWireError

pub data ReconciliationFrameKind : Type 0 where
  reconcile result : ReconciliationFrameKind

-- `kind as u8`
unfoldable pub kind_code : ReconciliationFrameKind → ℕ
kind_code reconcile = 5
kind_code result = 6

-- `ReconciliationFrameKind::try_from`
unfoldable pub kind_of_code : ℕ → Result ReconciliationWireError ReconciliationFrameKind
kind_of_code value = get_or table value (err invalid_frame)
  where
    table : List (Result ReconciliationWireError ReconciliationFrameKind)
    table =
        err invalid_frame
        ∷ err invalid_frame
        ∷ err invalid_frame
        ∷ err invalid_frame
        ∷ err invalid_frame
        ∷ ok reconcile
        ∷ ok result
        ∷ []

pub record ReconciliationFrame : Type 0 where
  pub kind : ReconciliationFrameKind
  pub payload : Bytes

unfoldable pub encode : (max_bytes : ℕ) → ReconciliationFrame → Result ReconciliationWireError Bytes
encode max_bytes f = do
  fail_if (ltb max_bytes (length f.payload) || ltb (2 ^ 32 - 1) (length f.payload)) frame_too_large
  ok (envelope reconciliation_magic reconciliation_version (kind_code f.kind) f.payload)

unfoldable pub decode : (max_bytes : ℕ) → Bytes → Result ReconciliationWireError ReconciliationFrame
decode max_bytes bytes = do
  fail_if
      (ltb (length bytes) header_bytes
        || (slice 0 4 bytes != reconciliation_magic)
        || (from_be (slice 4 6 bytes) != reconciliation_version))
      invalid_frame
  kind ← kind_of_code (byte_at bytes 6)
  let payload_len = from_be (slice 7 11 bytes)
  fail_if (ltb max_bytes payload_len) frame_too_large
  fail_if (length bytes != header_bytes + payload_len) invalid_frame
  ok (record { kind = kind; payload = drop header_bytes bytes })

-- `read_frame`
unfoldable pub read_frame :
    (max_bytes : ℕ) → Bytes → Result ReconciliationWireError (ReconciliationFrame × Bytes)
read_frame max_bytes stream =
    read_frame_with max_bytes invalid_frame frame_too_large (decode max_bytes) stream

-- The JSON of a type, which another package writes and reads.
module _ {T : Type 0} (to_vec : T → Option Bytes) (from_slice : Bytes → Option T) where
  unfoldable pub json :
      ReconciliationFrameKind → T → ℕ → Result ReconciliationWireError ReconciliationFrame
  json kind value max_bytes = do
    payload ← ok_or (to_vec value) invalid_frame
    fail_if (ltb max_bytes (length payload)) frame_too_large
    ok (record { kind = kind; payload = payload })

  unfoldable pub parse_json :
      ReconciliationFrame → ReconciliationFrameKind → Result ReconciliationWireError T
  parse_json f expected = do
    fail_if (kind_code f.kind != kind_code expected) invalid_order
    ok_or (from_slice f.payload) invalid_frame
