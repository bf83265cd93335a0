-- ===== src/Envelope/Apart.antt =====
-- src/enrollment_wire.rs, src/reconciliation_wire.rs, src/enrollment_v3_wire.rs,
-- src/bootstrap_wire.rs and src/quic_wire.rs: bytes that come to several decoders.
use herdr_dog_relay.Prelude.{
  ℕ, ◌≡◌, Bool, true, false, Result, ok, err, Bytes, slice, from_be, bytes_beq_iff, arith,
  bytes_beq, bytes_ord, nat_ord, ◌==◌, if◌then◌else◌, sym, ◌∙◌, refl, Result-cases, inl, inr,
}
use herdr_dog_relay.Wire.{hdqm_magic}
use herdr_dog_relay.Wire.Control
use herdr_dog_relay.Wire.Control.RoundTrip.{reads_of_decode}
use herdr_dog_relay.Envelope.Enrollment
use herdr_dog_relay.Envelope.Reconciliation
use herdr_dog_relay.Envelope.Hde3
use herdr_dog_relay.Envelope.Hdb1

abbrev succeeds {ℓ κ} : {E : Type ℓ} {A : Type κ} → Result E A → Bool
succeeds (ok a) = true
succeeds (err e) = false

-- The protocols of the Relay that frame their messages.
pub data Protocol : Type 0 where
  hde1 hde2 hde3 hdb1 hdqm : Protocol

-- Whether the decoder of a protocol accepts the bytes.
unfoldable pub accepts : ℕ → Bytes → Protocol → Bool
accepts max_bytes bytes hde1 = succeeds (Enrollment.decode max_bytes bytes)
accepts max_bytes bytes hde2 = succeeds (Reconciliation.decode max_bytes bytes)
accepts max_bytes bytes hde3 = succeeds (Hde3.decode bytes)
accepts max_bytes bytes hdb1 = succeeds (Hdb1.decode bytes)
accepts max_bytes bytes hdqm = succeeds (Control.decode bytes)

-- The magic and the version of a protocol.
abbrev tag : Protocol → Bytes × ℕ
tag hde1 = (Enrollment.enrollment_magic, 1)
tag hde2 = (Reconciliation.reconciliation_magic, 2)
tag hde3 = (Hde3.hde3_magic, 3)
tag hdb1 = (Hdb1.hdb1_magic, 1)
tag hdqm = (hdqm_magic, 1)

accepts-tag :
    (max_bytes : ℕ) (bytes : Bytes) (p : Protocol)
    → accepts max_bytes bytes p ≡ true
    → (slice 0 4 bytes ≡ (tag p).0) × (from_be (slice 4 6 bytes) ≡ (tag p).1)
unfolding accepts Enrollment.decode Reconciliation.decode Hde3.decode Hdb1.decode
accepts-tag max_bytes bytes hde1 h =
    ground (arith, bytes_beq_iff (slice 0 4 bytes) Enrollment.enrollment_magic)
accepts-tag max_bytes bytes hde2 h =
    ground (arith, bytes_beq_iff (slice 0 4 bytes) Reconciliation.reconciliation_magic)
accepts-tag max_bytes bytes hde3 h = ground (arith, bytes_beq_iff (slice 0 4 bytes) Hde3.hde3_magic)
accepts-tag max_bytes bytes hdb1 h = ground (arith, bytes_beq_iff (slice 0 4 bytes) Hdb1.hdb1_magic)
accepts-tag max_bytes bytes hdqm h = elim (Result-cases (Control.decode bytes)) [
  | inl (f, d) ↦ let (small, r) = reads_of_decode f bytes d in (r.1, r.2)
  | inr (e, d) ↦ ground arith
]

-- The protocol of a magic and a version.
protocol_of : Bytes → ℕ → Protocol
protocol_of magic version =
    if magic == Hde3.hde3_magic
    then hde3
    else if magic == Hdb1.hdb1_magic
    then hdb1
    else if magic == hdqm_magic
    then hdqm
    else if version == 1
    then hde1
    else hde2

protocol_of-tag : (p : Protocol) → protocol_of (tag p).0 (tag p).1 ≡ p
unfolding protocol_of bytes_beq
protocol_of-tag hde1 = refl
protocol_of-tag hde2 = refl
protocol_of-tag hde3 = refl
protocol_of-tag hdb1 = refl
protocol_of-tag hdqm = refl

-- No bytes are accepted as a frame of two of the protocols HDE1, HDE2, HDE3, HDB1 and HDQM.
pub accepts_unique :
    (max_bytes : ℕ) (bytes : Bytes) (p q : Protocol)
    → accepts max_bytes bytes p ≡ true
    → accepts max_bytes bytes q ≡ true
    → p ≡ q
accepts_unique max_bytes bytes p q h k =
    let a = accepts-tag max_bytes bytes p h in
    let b = accepts-tag max_bytes bytes q k in
    sym (protocol_of-tag p) ∙ cc (a.0, a.1, b.0, b.1) ∙ protocol_of-tag q
