-- ===== src/Health/Log.antt =====
-- What the log of an outage looks like.
use mathlib.Core.List.{append-nil, append_assoc}
use zee_k_verifier.Prelude.{
  Bool, true, false, List, [], ◌∷◌, ◌++◌, Option, none, some, Result, ok, err, Text, subst, ◌≡◌,
  refl, sym, ap, ◌∙◌,
}
use zee_k_verifier.Health.{
  HealthReply, StorageReply, probe_store_cts, probe_storage, storage_result, Dependency, store_cts,
  storage, Line, is_ok, log_transition, Loop, logged, round, spawn, rounds,
}
use zee_k_verifier.Health.Laws.{
  Replies, is_well, is_stored, probe_store_cts-is_well, storage_result-is_stored,
}
use zee_k_verifier.Health.Changes.{
  about, states, Alternates, final, change, changes, store_cts_found, storage_found,
  changes-Alternates, final-changes,
}

states-append :
    (d : Dependency) (ls ms : List Line) → states d (ls ++ ms) ≡ states d ls ++ states d ms
states-append d [] ms = refl
states-append d (l ∷ ls) ms =
    ap (λ t. about d l.dependency l.down ++ t) (states-append d ls ms)
    ∙ sym (append_assoc (about d l.dependency l.down) (states d ls) (states d ms))

logged_change :
    (before : Option Bool) (r : Result Text (Unit {0}))
    → (states store_cts (log_transition store_cts before r) ≡ change before (is_ok r))
      × (states storage (log_transition storage before r) ≡ change before (is_ok r))
unfolding log_transition
logged_change none (ok _) = (refl, refl)
logged_change none (err _) = (refl, refl)
logged_change (some true) (ok _) = (refl, refl)
logged_change (some true) (err _) = (refl, refl)
logged_change (some false) (ok _) = (refl, refl)
logged_change (some false) (err _) = (refl, refl)

store_cts-silent :
    (before : Option Bool) (r : Result Text (Unit {0}))
    → states storage (log_transition store_cts before r) ≡ []
unfolding log_transition
store_cts-silent none r = refl
store_cts-silent (some true) (ok _) = refl
store_cts-silent (some true) (err _) = refl
store_cts-silent (some false) (ok _) = refl
store_cts-silent (some false) (err _) = refl

storage-silent :
    (before : Option Bool) (r : Option (Result Text (Unit {0})))
    → states store_cts (logged before r) ≡ []
unfolding log_transition
storage-silent before none = refl
storage-silent none (some r) = refl
storage-silent (some true) (some (ok _)) = refl
storage-silent (some true) (some (err _)) = refl
storage-silent (some false) (some (ok _)) = refl
storage-silent (some false) (some (err _)) = refl

-- The states that a dependency gets from lines of which only the first or only the second part
-- are about it.
states-first :
    (d : Dependency) (ls first second : List Line)
    → states d second ≡ []
    → states d (ls ++ (first ++ second)) ≡ states d ls ++ states d first
states-first d ls first second h =
    states-append d ls (first ++ second)
    ∙ ap (λ t. states d ls ++ t)
        (states-append d first second
          ∙ ap (λ t. states d first ++ t) h
          ∙ append-nil (states d first))

states-second :
    (d : Dependency) (ls first second : List Line)
    → states d first ≡ []
    → states d (ls ++ (first ++ second)) ≡ states d ls ++ states d second
states-second d ls first second h =
    states-append d ls (first ++ second)
    ∙ ap (λ t. states d ls ++ t) (states-append d first second ∙ ap (λ t. t ++ states d second) h)

module _ (endpoint backend_name : Text) where
  -- What a round adds about the endpoint, and about the storage.
  round-store_cts :
      (cts_reply : HealthReply) (storage_reply : Option StorageReply) (loop : Loop)
      → states store_cts (round endpoint backend_name (cts_reply, storage_reply) loop).lines
        ≡ states store_cts loop.lines ++ change loop.prev_store_cts (is_well cts_reply)
  unfolding round
  round-store_cts cts_reply storage_reply loop =
      let cts_result = probe_store_cts endpoint cts_reply in
      let result = probe_storage backend_name storage_reply in
      states-first store_cts loop.lines (log_transition store_cts loop.prev_store_cts cts_result)
        (logged loop.prev_storage result) (storage-silent loop.prev_storage result)
      ∙ ap (λ t. states store_cts loop.lines ++ t)
          ((logged_change loop.prev_store_cts cts_result).0
            ∙ ap (change loop.prev_store_cts)
                (probe_store_cts-is_well endpoint backend_name cts_reply))

  rounds-store_cts :
      (rs : List Replies) (loop : Loop)
      → states store_cts (rounds endpoint backend_name rs loop).lines
        ≡ states store_cts loop.lines ++ changes loop.prev_store_cts (store_cts_found rs)
  unfolding rounds round
  rounds-store_cts [] loop = sym (append-nil (states store_cts loop.lines))
  rounds-store_cts ((cts_reply, storage_reply) ∷ rs) loop =
      let next = round endpoint backend_name (cts_reply, storage_reply) loop in
      let before = states store_cts loop.lines in
      let new = change loop.prev_store_cts (is_well cts_reply) in
      let remembers : next.prev_store_cts ≡ some (is_well cts_reply) =
        ap some (probe_store_cts-is_well endpoint backend_name cts_reply) in
      rounds-store_cts rs next
      ∙ ap (λ t. t ++ changes next.prev_store_cts (store_cts_found rs))
          (round-store_cts cts_reply storage_reply loop)
      ∙ ap (λ b. (before ++ new) ++ changes b (store_cts_found rs)) remembers
      ∙ append_assoc before new _

  round-storage :
      (cts_reply : HealthReply) (reply : StorageReply) (loop : Loop)
      → states storage (round endpoint backend_name (cts_reply, some reply) loop).lines
        ≡ states storage loop.lines ++ change loop.prev_storage (is_stored reply)
  unfolding round probe_storage
  round-storage cts_reply reply loop =
      let cts_result = probe_store_cts endpoint cts_reply in
      let result = storage_result backend_name reply in
      states-second storage loop.lines (log_transition store_cts loop.prev_store_cts cts_result)
        (log_transition storage loop.prev_storage result)
        (store_cts-silent loop.prev_store_cts cts_result)
      ∙ ap (λ t. states storage loop.lines ++ t)
          ((logged_change loop.prev_storage result).1
            ∙ ap (change loop.prev_storage) (storage_result-is_stored endpoint backend_name reply))

  round-no_storage :
      (cts_reply : HealthReply) (loop : Loop)
      → states storage (round endpoint backend_name (cts_reply, none) loop).lines
        ≡ states storage loop.lines
  unfolding round probe_storage
  round-no_storage cts_reply loop =
      let cts_result = probe_store_cts endpoint cts_reply in
      states-second storage loop.lines (log_transition store_cts loop.prev_store_cts cts_result) []
        (store_cts-silent loop.prev_store_cts cts_result)
      ∙ append-nil (states storage loop.lines)

  rounds-storage :
      (rs : List Replies) (loop : Loop)
      → states storage (rounds endpoint backend_name rs loop).lines
        ≡ states storage loop.lines ++ changes loop.prev_storage (storage_found rs)
  unfolding rounds round probe_storage
  rounds-storage [] loop = sym (append-nil (states storage loop.lines))
  rounds-storage ((cts_reply, none) ∷ rs) loop =
      rounds-storage rs (round endpoint backend_name (cts_reply, none) loop)
      ∙ ap (λ t. t ++ changes loop.prev_storage (storage_found rs))
          (round-no_storage cts_reply loop)
  rounds-storage ((cts_reply, some reply) ∷ rs) loop =
      let next = round endpoint backend_name (cts_reply, some reply) loop in
      let before = states storage loop.lines in
      let new = change loop.prev_storage (is_stored reply) in
      let remembers : next.prev_storage ≡ some (is_stored reply) =
        ap some (storage_result-is_stored endpoint backend_name reply) in
      rounds-storage rs next
      ∙ ap (λ t. t ++ changes next.prev_storage (storage_found rs))
          (round-storage cts_reply reply loop)
      ∙ ap (λ b. (before ++ new) ++ changes b (storage_found rs)) remembers
      ∙ append_assoc before new _

-- Lines that give a dependency the changes of the states found, and so states that alternate and
-- end in the last one found.
pub record Tells (d : Dependency) (found : List Bool) (lines : List Line) : Type 0 where
  pub changed : states d lines ≡ changes none found
  pub alternate : Alternates none (states d lines)
  pub latest : final none (states d lines) ≡ final none found

changes-Tells :
    (d : Dependency) (found : List Bool) (lines : List Line)
    → states d lines ≡ changes none found
    → Tells d found lines
changes-Tells d found lines same = record {
  changed = same;
  alternate = subst (Alternates none) (sym same) (changes-Alternates none found);
  latest = ap (final none) same ∙ final-changes none found;
}

-- About each dependency the log has one line for the first state that its probes found, one for each
-- change of that state afterwards, and no other, in order: a status in the two hundreds that came in
-- time for the endpoint, a probe that came back well in time for the storage. So however many rounds
-- an outage lasts, it leaves one line, and its end another; and the last line about a dependency
-- gives the state that its latest probe found.
pub spawn_log :
    (endpoint backend_name : Text) (has_storage : Bool) (rs : List Replies)
    → Tells store_cts
        (store_cts_found rs)
        (rounds endpoint backend_name rs (spawn has_storage)).lines
      × Tells storage (storage_found rs) (rounds endpoint backend_name rs (spawn has_storage)).lines
unfolding spawn
spawn_log endpoint backend_name has_storage rs = (
  changes-Tells store_cts (store_cts_found rs) _
      (rounds-store_cts endpoint backend_name rs (spawn has_storage)),
  changes-Tells storage (storage_found rs) _
      (rounds-storage endpoint backend_name rs (spawn has_storage)),
)
