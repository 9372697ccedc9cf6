-- ===== src/Extern/Download.antt =====
-- Reading an object through the client of Google Cloud Storage, and a file from the disk.
use zee_k_verifier.Prelude.{List, Result, Bytes, Text}

-- `read_object(bucket, name).send()`: a refusal, or what the successive calls of `next` return.
pub data Download : Type 0 where
  refused : Text → Download
  streamed : List (Result Text Bytes) → Download

-- The bucket, the name.
abbrev pub Reader : Type 0
Reader = Text → Text → Download

-- `std::fs::read`
abbrev pub Files : Type 0
Files = Text → Result Text Bytes
