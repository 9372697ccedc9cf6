-- ===== src/Health.antt =====
-- Dependency health (zk-verifier/src/health.rs): the probes, the verdict, and the loop that
-- publishes them. A probe's reply under its deadline is an argument.
pub mod Laws
pub mod Changes
pub mod Log
mod Tests
use zee_k_verifier.Prelude.{
  ℕ, zero, suc, Bool, true, false, ◌&&◌, List, [], ◌∷◌, ◌++◌, Option, none, some, Result, ok, err,
  Text, codes, leb, ◌==◌, if◌then◌else◌, unwrap_or,
}
use zee_k_verifier.Storage.Errors.{StorageResult, display}

-- `s.trim_end_matches('/')`
trim_end_slashes : Text → Text
trim_end_slashes [] = []
trim_end_slashes (c ∷ s) = elim (trim_end_slashes s) [
  | [] ↦ if c == b'/' then [] else c ∷ []
  | d ∷ rest ↦ c ∷ d ∷ rest
]

pub data HealthReply : Type 0 where
  answered : (status : ℕ) (shown : Text) → HealthReply
  unreachable : Text → HealthReply
  too_late : HealthReply

pub data StorageReply : Type 0 where
  probed : StorageResult (Unit {0}) → StorageReply
  too_late : StorageReply

unfoldable pub probe_store_cts : Text → HealthReply → Result Text (Unit {0})
unfolding codes trim_end_slashes
probe_store_cts endpoint (answered status shown) =
    if leb 200 status && leb status 299
    then ok tt
    else err (trim_end_slashes endpoint ++ codes "/Health answered " ++ shown)
probe_store_cts endpoint (unreachable e) =
    err (trim_end_slashes endpoint ++ codes "/Health failed: " ++ e)
probe_store_cts endpoint too_late =
    err (trim_end_slashes endpoint ++ codes "/Health timed out after 5s")

pub storage_result : Text → StorageReply → Result Text (Unit {0})
unfolding codes
storage_result backend_name (probed (ok _)) = ok tt
storage_result backend_name (probed (err e)) =
    err (backend_name ++ codes " probe failed: " ++ display e)
storage_result backend_name too_late = err (backend_name ++ codes " probe timed out after 5s")

-- No reply where no storage is configured.
unfoldable pub probe_storage : Text → Option StorageReply → Option (Result Text (Unit {0}))
unfolding storage_result
probe_storage backend_name none = none
probe_storage backend_name (some reply) = some (storage_result backend_name reply)

pub data Dependency : Type 0 where
  store_cts storage : Dependency

-- A log line: up, or down with the reason.
pub record Line : Type 0 where
  pub dependency : Dependency
  pub down : Option Text

abbrev pub is_ok : Result Text (Unit {0}) → Bool
is_ok (ok _) = true
is_ok (err _) = false

abbrev pub reason : Result Text (Unit {0}) → Option Text
reason (ok _) = none
reason (err e) = some e

-- Only a change is logged, and the first result.
pub log_transition : Dependency → Option Bool → Result Text (Unit {0}) → List Line
log_transition dependency none result =
    record { dependency = dependency; down = reason result } ∷ []
log_transition dependency (some previous) result =
    let changed : List Line = record { dependency = dependency; down = reason result } ∷ [] in
    if previous
    then (if is_ok result then [] else changed)
    else if is_ok result
    then changed
    else []

abbrev pub verdict : Bool → Option Bool → Bool
verdict store_cts_up storage_up = store_cts_up && unwrap_or true storage_up

abbrev pub as_gauge : Bool → ℕ
as_gauge up = if up then 1 else 0

-- The published series; the one of the storage is absent until it is set.
pub record Series : Type 0 where
  pub store_cts_up : ℕ
  pub storage_up : Option ℕ
  pub healthy : ℕ

abbrev pub set_storage : Option Bool → Option ℕ → Option ℕ
set_storage none old = old
set_storage (some up) old = some (as_gauge up)

pub publish : Bool → Option Bool → Series → Series
publish store_cts_up storage_up old = record {
  store_cts_up = as_gauge store_cts_up;
  storage_up = set_storage storage_up old.storage_up;
  healthy = as_gauge (verdict store_cts_up storage_up);
}

pub record Loop : Type 0 where
  pub prev_store_cts : Option Bool
  pub prev_storage : Option Bool
  pub series : Series
  pub lines : List Line

abbrev pub ups : Option (Result Text (Unit {0})) → Option Bool
ups none = none
ups (some result) = some (is_ok result)

abbrev pub logged : Option Bool → Option (Result Text (Unit {0})) → List Line
unfolding log_transition
logged previous none = []
logged previous (some result) = log_transition storage previous result

abbrev pub kept : Option Bool → Option Bool → Option Bool
kept previous none = previous
kept previous (some up) = some up

-- One round, from the replies to its two probes.
unfoldable pub round : Text → Text → HealthReply × Option StorageReply → Loop → Loop
unfolding publish log_transition
round endpoint backend_name (cts_reply, storage_reply) loop =
    let cts_result = probe_store_cts endpoint cts_reply in
    let storage_result = probe_storage backend_name storage_reply in
    record {
      prev_store_cts = some (is_ok cts_result);
      prev_storage = kept loop.prev_storage (ups storage_result);
      series = publish (is_ok cts_result) (ups storage_result) loop.series;
      lines =
          loop.lines
          ++ (log_transition store_cts loop.prev_store_cts cts_result
              ++ logged loop.prev_storage storage_result);
    }

-- What stands before the first round: everything configured is down.
unfoldable pub spawn : (has_storage : Bool) → Loop
unfolding publish
spawn has_storage = record {
  prev_store_cts = none;
  prev_storage = none;
  series =
      publish false (if has_storage then some false else none)
        (record { store_cts_up = 0; storage_up = none; healthy = 0 });
  lines = [];
}

unfoldable pub rounds : Text → Text → List (HealthReply × Option StorageReply) → Loop → Loop
rounds endpoint backend_name [] loop = loop
rounds endpoint backend_name (r ∷ rs) loop =
    rounds endpoint backend_name rs (round endpoint backend_name r loop)
