-- ===== src/Material/Files.antt =====
-- src/material.rs, lines 49 to 119: what is read from and written to a protected file.
use herdr_dog_relay.Prelude.{ℕ, ◌≤◌, ◌≡◌, Option, some, ok, arith}
use herdr_dog_relay.Material.{Access, ProtectedFileKind, read_protected_file, write_protected_file}

module _ {C : Type 0} (size : C → ℕ) where
  pub read-held :
      (a : Access) (file : Option C) (uid : ℕ) (kind : ProtectedFileKind) (max : ℕ) (bytes : C)
      → read_protected_file size a file uid kind max ≡ ok bytes
      → (file ≡ some bytes) × (size bytes ≤ max)
  unfolding read_protected_file
  read-held a file uid kind max bytes h = ground arith

  pub write-given :
      (a : Access) (uid : ℕ) (bytes after : C) (max : ℕ)
      → write_protected_file size a uid bytes max ≡ ok after
      → (after ≡ bytes) × (size bytes ≤ max)
  unfolding write_protected_file
  write-given a uid bytes after max h = ground arith
