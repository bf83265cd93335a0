-- ===== src/Material.antt =====
-- src/material.rs, lines 18 to 119 and 187 to 237: protected files. The answers of the file system
-- during one transaction are an `Access`, and the bytes of a file are seen through their number.
pub mod Files
pub mod Tests
use herdr_dog_relay.Prelude.{
  ℕ, ◌*◌, ◌/◌, ◌%◌, ◌^◌, ◌≡◌, Bool, true, false, not, ◌||◌, ◌&&◌, Option, none, some, Result, ok,
  err, ◌>>=◌, ◌>>◌, fail_if, ok_or, ltb, ◌==◌, ◌!=◌, nat_ord,
}
use herdr_dog_relay.RelayError.{RelayError, configuration_read, invalid_configuration}

abbrev pub max_public_protected_file_bytes : ℕ
max_public_protected_file_bytes = 128 * 1024 * 1024

abbrev pub max_private_material_bytes : ℕ
max_private_material_bytes = 64 * 1024

abbrev pub max_allowlist_bytes : ℕ
max_allowlist_bytes = 256 * 1024

pub data ProtectedFileKind : Type 0 where
  public private allowlist : ProtectedFileKind

-- `ProtectedFileKind::max_bytes`
abbrev pub max_bytes : ProtectedFileKind → ℕ
max_bytes public = max_public_protected_file_bytes
max_bytes private = max_private_material_bytes
max_bytes allowlist = max_allowlist_bytes

-- What `fs::Metadata` says of a file or a directory.
pub record Metadata : Type 0 where
  pub is_file : Bool
  pub is_dir : Bool
  pub uid : ℕ
  pub mode : ℕ
  pub len : ℕ
  pub dev : ℕ
  pub ino : ℕ

-- The answers of the file system.
pub record Access : Type 0 where
  -- `validate_protected_path` and `validate_absolute_path`
  pub path : Result RelayError (Unit {0})
  pub absolute : Result RelayError (Unit {0})
  -- The metadata of the parent directory, of the file by its path, and of the opened file.
  pub parent : Option Metadata
  pub found : Option Metadata
  pub opened : Option Metadata
  -- The sidecar lock is taken; the temporary file is written and takes the place of the file.
  pub locked : Bool
  pub written : Bool

-- A bit of a mode.
abbrev pub bit : ℕ → ℕ → Bool
bit mode i = mode / 2 ^ i % 2 == 1

-- `mode & 0o022 != 0`
abbrev pub is_shared_writable : ℕ → Bool
is_shared_writable mode = bit mode 1 || bit mode 4

abbrev pub is_valid_mode : ProtectedFileKind → ℕ → Bool
is_valid_mode public mode = not (is_shared_writable mode) && bit mode 8
is_valid_mode private mode = (mode % 64 == 0) && bit mode 8
is_valid_mode allowlist mode = (mode % 64 == 0) && bit mode 8

unfoldable pub validate_file_metadata :
    Metadata → ℕ → ProtectedFileKind → ℕ → Result RelayError (Unit {0})
validate_file_metadata m expected_uid kind max = do
  fail_if
      (not m.is_file
        || (m.uid != expected_uid)
        || (m.len == 0)
        || ltb max m.len
        || ltb (max_bytes kind) m.len)
      configuration_read
  fail_if (not (is_valid_mode kind m.mode))
      (invalid_configuration "protected.file" "file ownership or permissions are unsafe")

unfoldable pub same_file_identity : Metadata → Metadata → Bool
same_file_identity expected opened =
    (expected.dev == opened.dev)
    && (expected.ino == opened.ino)
    && (expected.uid == opened.uid)
    && (expected.mode == opened.mode)
    && (expected.len == opened.len)

-- `validate_directory` on the parent.
unfoldable pub validate_directory : Access → ℕ → Result RelayError (Unit {0})
validate_directory a expected_uid = do
  a.absolute
  m ← ok_or a.parent configuration_read
  fail_if (not m.is_dir || (m.uid != expected_uid) || is_shared_writable m.mode)
      (invalid_configuration "protected.directory" "directory ownership or permissions are unsafe")

-- `lock_file` of the two stores.
unfoldable pub lock_file : Access → Result RelayError (Unit {0})
lock_file a = do a.path; fail_if (not a.locked) configuration_read

module _ {C : Type 0} (size : C → ℕ) where
  unfoldable pub read_protected_file :
      Access → Option C → ℕ → ProtectedFileKind → ℕ → Result RelayError C
  read_protected_file a file expected_uid kind max = do
    a.path
    found ← ok_or a.found configuration_read
    validate_file_metadata found expected_uid kind max
    opened ← ok_or a.opened configuration_read
    validate_file_metadata opened expected_uid kind max
    fail_if (not (same_file_identity found opened)) configuration_read
    bytes ← ok_or file configuration_read
    fail_if ((size bytes != opened.len) || ltb max (size bytes)) configuration_read
    ok bytes

  -- `write_protected_file`, with what the file holds afterwards.
  unfoldable pub write_protected_file : Access → ℕ → C → ℕ → Result RelayError C
  write_protected_file a expected_uid bytes max = do
    a.absolute
    fail_if ((size bytes == 0) || ltb max (size bytes)) configuration_read
    validate_directory a expected_uid
    fail_if (not a.written) configuration_read
    ok bytes

-- The JSON text of values of a type, written and read by a package: reading gives back what was
-- written.
pub record Json (T : Type 0) : Type 1 where
  pub Text : Type 0
  pub size : Text → ℕ
  pub to_vec : T → Option Text
  pub from_slice : Text → Option T
  pub from_slice-to_vec : (t : T) (text : Text) → to_vec t ≡ some text → from_slice text ≡ some t
