-- ===== src/Audit/Main.antt =====
-- The command: what it prints and the code it exits with (`main`, `print_human_readable`).
use mathlib.Core.List.{List, [], ◌∷◌}
use zee_k_verifier.Prelude.{
  ℕ, Bool, ◌++◌, Option, none, some, Result, ok, err, Text, codes, decimal, replicate, text_eq,
  if◌then◌else◌,
}
use zee_k_verifier.Audit.Fetch.{Stop, failed, panicked}
use zee_k_verifier.Audit.Run.{Config, StorageConfig, VerificationResult}

pub record Args : Type 0 where
  pub ct_hash : Text
  pub chain_id : ℕ
  pub json : Bool
  pub config : Text

-- What reaches standard output and standard error, a line each; JSON is left to its printer.
pub data Printed : Type 0 where
  out : Text → Printed
  error_line : Text → Printed
  result_json : VerificationResult → Printed
  error_json : Text → Printed

-- `process::exit(code)`, or a panic.
pub data Exit : Type 0 where
  exit : ℕ → Exit
  aborted : Exit

-- "✓" and "✗" in UTF-8.
abbrev tick : Text
tick = 226 ∷ 156 ∷ 147 ∷ []

abbrev cross : Text
cross = 226 ∷ 156 ∷ 151 ∷ []

abbrev rule : Text
rule = replicate 60 b'='

abbrev mark : Bool → Text
mark holds = if holds then tick else cross

-- `println!` of a text: its line breaks are kept in it.
unfoldable pub print_human_readable : VerificationResult → List Printed
unfolding codes decimal text_eq
print_human_readable r =
    let m = r.metadata in
    out (10 ∷ rule)
    ∷ out (codes "Verification Result")
    ∷ out rule
    ∷ out []
    ∷ out (codes "CT Hash:      " ++ r.ct_hash)
    ∷ out (codes "Proof ID:     " ++ r.proof_id)
    ∷ out []
    ∷ out (codes "Metadata:")
    ∷ out (codes "  Account:       " ++ m.account_addr)
    ∷ out (codes "  Security Zone: " ++ decimal m.security_zone)
    ∷ out (codes "  Chain ID:      " ++ decimal m.chain_id)
    ∷ out (codes "  CT Index:      " ++ decimal m.ct_index)
    ∷ out (codes "  CT Type:       " ++ decimal m.ct_type)
    ∷ out (codes "  Timestamp:     " ++ m.timestamp)
    ∷ out []
    ∷ out (codes "Verification:")
    ∷ out (codes "  " ++ (mark r.verification.proof_valid ++ codes " Proof verified"))
    ∷ out (codes "  " ++ (mark r.verification.ct_hash_matches ++ codes " CT hash matches"))
    ∷ out []
    ∷ (if text_eq r.status (codes "success")
        then out (tick ++ codes " Verification PASSED")
        else out (cross ++ codes " Verification FAILED"))
    ∷ out rule
    ∷ []

-- The tail of `main`, on the answer of `run_verification`.
unfoldable pub finished : Bool → Result Stop VerificationResult → List Printed × Exit
unfolding codes print_human_readable
finished json (ok result) =
    (if json then result_json result ∷ [] else print_human_readable result, exit 0)
finished json (err (failed e)) = (
  (if json
        then error_json e
        else error_line (10 ∷ (cross ++ (codes " Verification FAILED: " ++ e))))
      ∷ [],
  exit 1,
)
finished json (err panicked) = ([], aborted)

-- `if !args.json { println!(...) }`
abbrev told : Bool → Text → List Printed
told json line = if json then [] else out line ∷ []

-- `run` is `run_verification` on the arguments.
unfoldable pub with_storage :
    Args → Option StorageConfig → Result Stop VerificationResult → List Printed × Exit
unfolding codes decimal finished
with_storage args none answer =
    (error_line (codes "Error: No storage configuration found in config file") ∷ [], exit 1)
with_storage args (some storage) answer =
    let (printed, code) = finished args.json answer in
    (
      told args.json (
            codes "Fetching CT "
            ++ (args.ct_hash
                ++ (codes " from GCS bucket "
                    ++ (storage.bucket
                        ++ (codes " (chain_id: " ++ (decimal args.chain_id ++ codes ")..."))))))
          ++ printed,
      code,
    )

-- `loaded` is the answer of the configuration crate for the path in the arguments.
unfoldable pub after_load :
    Args → Result Text Config → (Config → Result Stop VerificationResult) → List Printed × Exit
unfolding codes with_storage
after_load args (err e) run =
    (error_line (codes "Error: Failed to load configuration: " ++ e) ∷ [], exit 1)
after_load args (ok config) run = with_storage args config.storage (run config)

unfoldable pub main :
    Args → Result Text Config → (Config → Result Stop VerificationResult) → List Printed × Exit
unfolding codes after_load
main args loaded run =
    let (printed, code) = after_load args loaded run in
    (
      told args.json (codes "Loading configuration from " ++ (args.config ++ codes "..."))
          ++ printed,
      code,
    )
