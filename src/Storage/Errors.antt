-- ===== src/Storage/Errors.antt =====
-- The errors of object storage (zk-verifier/src/storage/errors.rs).
use zee_k_verifier.Prelude.{ℕ, Bool, true, false, Text, codes, Result, decimal, ◌++◌}

pub data StorageError : Type 0 where
  configuration network permission_denied not_found serialization generic : Text → StorageError
  timeout : (operation : Text) (timeout_secs : ℕ) → StorageError

abbrev pub is_retryable : StorageError → Bool
is_retryable (network _) = true
is_retryable (timeout _ _) = true
is_retryable (generic _) = true
is_retryable _ = false

-- The label that `strum` gives each error.
unfoldable pub label : StorageError → Text
unfolding codes
label (configuration _) = codes "configuration"
label (network _) = codes "network"
label (timeout _ _) = codes "timeout"
label (permission_denied _) = codes "permission_denied"
label (not_found _) = codes "not_found"
label (serialization _) = codes "serialization"
label (generic _) = codes "generic"

abbrev pub StorageResult : Type 0 → Type 0
StorageResult = Result StorageError

-- The text of an error.
pub display : StorageError → Text
unfolding codes
display (configuration e) = codes "Configuration error: " ++ e
display (network e) = codes "Network error: " ++ e
display (timeout operation timeout_secs) =
    codes "Operation timed out after " ++ decimal timeout_secs ++ codes "s: " ++ operation
display (permission_denied e) = codes "Permission denied: " ++ e
display (not_found e) = codes "Object not found: " ++ e
display (serialization e) = codes "Serialization error: " ++ e
display (generic e) = codes "Storage error: " ++ e
