-- ===== src/Storage/Gcs/Laws.antt =====
-- What the rest of the service relies on in the provider: which errors it may retry, that an
-- upload is counted as it ended, what a probe reads, and when the factory opens the storage.
use zee_k_verifier.Prelude.{
  true, Result, codes, ◌++◌, text_eq, text_eq_sound, text_eq_refl, ok-injective, ==_iff, ℕ, Bool,
  false, not, ◌||◌, Option, none, some, ok, err, Bytes, Text, ◌==◌, ◌≡◌, refl, sym, ap, ◌∙◌, arith,
  Option-cases, Bool-cases, err-ne-ok, none-ne-some, some-inj, inl, inr, ◌↔◌,
}
use zee_k_verifier.Config.{StorageConfig}
use zee_k_verifier.Storage.Errors.{StorageError, is_retryable, label, StorageResult}
use zee_k_verifier.Extern.Bucket.{StringMap, GaxError, Reply, sent, elapsed, failed, Client}
use zee_k_verifier.Storage.Paths.{generate_object_key}
use zee_k_verifier.Storage.Gcs.{
  classify_error, classify_status, classify_code, is_missing, probe_key, Counted, success, error,
  GcsStorage, finish, upload, judge, probe, parent_of, boot, new, started, probe_failed,
  from_config, from_config,
}

-- The statuses that no retry can mend.
abbrev pub is_final : Option ℕ → Bool
is_final none = false
is_final (some code) = (code == 401) || (code == 403) || (code == 404)

by_status :
    (msg : Text) (code : Option ℕ) → is_retryable (classify_code msg code) ≡ not (is_final code)
unfolding classify_code classify_status
by_status msg none = refl
by_status msg (some code) = ground arith

-- An error of the client may be retried unless its status is 401, 403 or 404.
pub classify_error-is_retryable :
    (e : GaxError) → is_retryable (classify_error e) ≡ not (is_final e.http_status_code)
unfolding classify_error
classify_error-is_retryable e = by_status e.message e.http_status_code

-- What an upload counts, as its result says it.
abbrev pub counted_as : StorageResult (Unit {0}) → Counted
counted_as (ok _) = success
counted_as (err e) = error (label e)

module _ {W : Type 0} (client : Client W) where
  finish-counts :
      (self : GcsStorage) (path : Text) (reply : Reply)
      → (finish client self path reply).1 ≡ counted_as (finish client self path reply).0
  unfolding finish label
  finish-counts self path sent = refl
  finish-counts self path (failed e) = refl
  finish-counts self path elapsed = refl

  -- Whatever the reply, an upload that does not panic is counted under the label of the error that
  -- it returns, or as a success if it returns none.
  pub upload-counts :
      (self : GcsStorage) (key : Text) (payload : Bytes) (metadata : Option StringMap)
      (base dynamic : Option Text) (w w' : W) (result : StorageResult (Unit {0}))
      (counted : Counted)
      → upload client self key payload metadata base dynamic w ≡ some (result, counted, w')
      → counted ≡ counted_as result
  unfolding upload
  upload-counts self key payload metadata base dynamic w w' result counted e =
      elim (Option-cases (generate_object_key key base dynamic)) [
        | inl panics ↦ absurd (none-ne-some (sym (rw (panics, upload) refl) ∙ e))
        | inr (path, found) ↦
            let (reply, w1) = client.write_object self.parent path payload metadata w in
            let opened : upload client self key payload metadata base dynamic w
                ≡ some ((finish client self path reply).0, (finish client self path reply).1, w1) =
              rw (found, upload) refl in
            let run = some-inj (sym e ∙ opened) in
            ap (λ r. r.1) run ∙ finish-counts self path reply ∙ ap (λ r. counted_as r.0) (sym run)
      ]

-- The bucket was reached: it opened the object, or it said that the object is not there.
abbrev pub IsReached : Option GaxError → Type 0
IsReached none = Unit
IsReached (some e) = e.http_status_code ≡ some 404

is_missing_iff : (code : Option ℕ) → (is_missing code ≡ true) ↔ (code ≡ some 404)
is_missing_iff none = (λ e. absurd cc, λ e. absurd (none-ne-some e))
is_missing_iff (some code) =
    (λ e. ap some ((==_iff code 404).0 e), λ e. (==_iff code 404).1 (some-inj e))

judge_iff :
    {W : Type 0} (client : Client W) (answer : Option GaxError)
    → (judge client answer ≡ ok tt) ↔ IsReached answer
unfolding judge
judge_iff client none = (λ e. tt, λ there. refl)
judge_iff client (some e) = elim (Bool-cases (is_missing e.http_status_code)) [
  | inl missing ↦
      let found = (is_missing_iff e.http_status_code).0 missing in
      rw missing (λ p. found, λ there. refl)
  | inr other ↦ rw other (
    λ p. absurd (err-ne-ok p),
    λ there.
        let missing : is_missing e.http_status_code ≡ true =
          (is_missing_iff e.http_status_code).1 there in
        absurd cc,
  )
]

abbrev Probed : Type 0 → Type 0
Probed W = StorageResult (Unit {0}) × W

abbrev Opened : Type 0 → Type 0
Opened W = StorageResult GcsStorage × W

module _ {W : Type 0} where
  -- What one read of the probed key tells, and how it leaves the bucket.
  pub record Reads (client : Client W) (parent : Text) (w w' : W) : Type 0 where
    pub answer : Option GaxError
    pub read : client.read_object parent probe_key w ≡ (answer, w')
    pub reached : IsReached answer

  -- The probe of the health loop finds the storage well exactly when its one read reaches the
  -- bucket: the object opens, or the answer is 404.
  pub probe_iff :
      (client : Client W) (self : GcsStorage) (w w' : W)
      → (probe client self w ≡ (ok tt, w')) ↔ Reads client self.parent w w'
  unfolding probe
  probe_iff client self w w' = (
    λ e. record {
      answer = (client.read_object self.parent probe_key w).0;
      read =
          ap (λ x. ((client.read_object self.parent probe_key w).0, x))
            (ap (λ (x : Probed W). x.1) e);
      reached =
          (judge_iff client (client.read_object self.parent probe_key w).0).0
            (ap (λ (x : Probed W). x.0) e);
    },
    λ there.
        ap (λ (x : Option GaxError × W). (judge client x.0, x.1)) there.read
        ∙ ap (λ x. (x, w')) ((judge_iff client there.answer).1 there.reached),
  )

  -- A storage that a service can start with: the backend is the one there is, its client was built,
  -- and the one read of the start-up probe reached the bucket.
  pub record Opens (built : Result Text (Client W)) (config : StorageConfig) (w w' : W)
      (backend : GcsStorage) : Type 0 where
    pub supported : config.backend ≡ codes "gcs"
    pub client : Client W
    pub client_built : built ≡ ok client
    pub reads : Reads client (codes "projects/_/buckets/" ++ config.bucket) w w'
    pub made : backend ≡ record {
      parent = codes "projects/_/buckets/" ++ config.bucket;
      bucket = config.bucket;
      upload_timeout = config.upload_timeout_secs;
    }

  module _ (display : StorageError → Text) (config : StorageConfig) (w w' : W)
      (backend : GcsStorage) where
    boot_iff :
        (built : Result Text (Client W)) (answer : Option GaxError)
        → (boot built display config answer ≡ ok backend)
          ↔ (IsReached answer × (backend ≡ started config))
    unfolding boot probe_failed
    boot_iff built none = (λ e. (tt, sym (ok-injective e)), λ there. ap ok (sym there.1))
    boot_iff built (some e) = elim (Bool-cases (is_missing e.http_status_code)) [
      | inl missing ↦
          let found = (is_missing_iff e.http_status_code).0 missing in
          rw missing (λ p. (found, sym (ok-injective p)), λ there. ap ok (sym there.1))
      | inr other ↦ rw other (
        λ p. absurd (err-ne-ok p),
        λ there.
            let missing : is_missing e.http_status_code ≡ true =
              (is_missing_iff e.http_status_code).1 there.0 in
            absurd cc,
      )
    ]

    new-Opens :
        (built : Result Text (Client W))
        → config.backend ≡ codes "gcs"
        → new built display config w ≡ (ok backend, w')
        → Opens built config w w' backend
    unfolding new
    new-Opens (err e) supported done = absurd (err-ne-ok (ap (λ (x : Opened W). x.0) done))
    new-Opens (ok client) supported done =
        let answer = (client.read_object (parent_of config) probe_key w).0 in
        let (there, made) = (boot_iff (ok client) answer).0 (ap (λ (x : Opened W). x.0) done) in
        record {
          supported = supported;
          client = client;
          client_built = refl;
          reads = record {
            answer = answer;
            read = ap (λ x. (answer, x)) (ap (λ (x : Opened W). x.1) done);
            reached = there;
          };
          made = made;
        }

    -- The storage of a service starts exactly when its configuration names the one backend that
    -- there is, the client was built, and the one read of the start-up probe in the configured
    -- bucket reached it: the object opens, or the answer is 404. What is started writes to that
    -- bucket under the configured timeout.
    pub from_config_iff :
        (built : Result Text (Client W))
        → (from_config built display config w ≡ (ok backend, w')) ↔ Opens built config w w' backend
    unfolding from_config new
    from_config_iff built = elim (Bool-cases (text_eq config.backend (codes "gcs"))) [
      | inl named ↦
          let supported = text_eq_sound config.backend (codes "gcs") named in
          rw named (
            λ e. new-Opens built supported e,
            λ o.
                let reply = (boot_iff built o.reads.answer).1 (o.reads.reached, o.made) in
                rw (o.client_built, o.reads.read) (ap (λ x. (x, w')) reply),
          )
      | inr other ↦ rw other (
        λ e. absurd (err-ne-ok (ap (λ (x : Opened W). x.0) e)),
        λ o.
            let named : text_eq config.backend (codes "gcs") ≡ true =
              rw o.supported (text_eq_refl (codes "gcs")) in
            absurd cc,
      )
    ]
