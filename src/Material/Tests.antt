-- ===== src/Material/Tests.antt =====
-- src/material.rs: metadata that is accepted and refused, and a file system for other tests.
use herdr_dog_relay.Prelude.{◌≡◌, refl, sym, some, true, false, ok, err}
use herdr_dog_relay.RelayError.{configuration_read, invalid_configuration}
use herdr_dog_relay.Material.{Access, Json, Metadata, ProtectedFileKind, validate_file_metadata}

-- A text that is the value itself.
pub same_text : {T : Type 0} (t text : T) → some t ≡ some text → some text ≡ some t
same_text t text h = sym h

-- A format whose texts are the values, each of the same size.
abbrev pub plain : (T : Type 0) → Json T
plain T = record {
  Text = T;
  size = λ _. 64;
  to_vec = some;
  from_slice = some;
  from_slice-to_vec = same_text;
}

abbrev owned : Metadata
owned = record { is_file = true; is_dir = false; uid = 501; mode = 384; len = 64; dev = 1; ino = 2 }

-- A file system that answers as the owner of the file expects.
abbrev pub works : Access
works = record {
  path = ok tt;
  absolute = ok tt;
  parent = some (record owned { is_dir = true; mode = 448 });
  found = some owned;
  opened = some owned;
  locked = true;
  written = true;
}

owner_only : validate_file_metadata owned 501 ProtectedFileKind.allowlist 64 ≡ ok tt
unfolding validate_file_metadata
owner_only = refl

group_readable :
    validate_file_metadata (record owned { mode = 416 }) 501 ProtectedFileKind.allowlist 64
    ≡ err (invalid_configuration "protected.file" "file ownership or permissions are unsafe")
unfolding validate_file_metadata
group_readable = refl

too_large : validate_file_metadata owned 501 ProtectedFileKind.allowlist 8 ≡ err configuration_read
unfolding validate_file_metadata
too_large = refl
