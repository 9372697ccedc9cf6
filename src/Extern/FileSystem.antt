-- ===== src/Extern/FileSystem.antt =====
-- `std::fs` and `Path::exists`, on a disk that they may change.
use zee_k_verifier.Prelude.{Bool, true, Result, ok, Bytes, Text, ◌≡◌}

pub record FileSystem (D : Type 0) : Type 0 where
  pub exists : Text → D → Bool
  pub read : Text → D → Result Text Bytes
  pub write : Text → Bytes → D → Result Text (Unit {0}) × D

-- A file that was written is there, and reads back.
pub record IsFileSystem {D : Type 0} (fs : FileSystem D) : Type 0 where
  pub exists-write :
      (path : Text) (bytes : Bytes) (d d' : D)
      → fs.write path bytes d ≡ (ok tt, d')
      → fs.exists path d' ≡ true
  pub read-write :
      (path : Text) (bytes : Bytes) (d d' : D)
      → fs.write path bytes d ≡ (ok tt, d')
      → fs.read path d' ≡ ok bytes
