-- ===== src/Extern/Bucket.antt =====
-- The client library of Google Cloud Storage, as zk-verifier/src/storage/gcs.rs calls it.
use zee_k_verifier.Prelude.{ℕ, List, Option, Bytes, Text}

-- `HashMap<String, String>`
abbrev pub StringMap : Type 0
StringMap = List (Text × Text)

-- An error of the client library: its HTTP status, if it has one, and its message.
pub record GaxError : Type 0 where
  pub http_status_code : Option ℕ
  pub message : Text

-- How a request under a deadline ends.
pub data Reply : Type 0 where
  sent elapsed : Reply
  failed : GaxError → Reply

-- The client library on a world: it writes an object, and opens one for reading.
pub record Client (W : Type 0) : Type 0 where
  pub write_object : Text → Text → Bytes → Option StringMap → W → Reply × W
  pub read_object : Text → Text → W → Option GaxError × W
