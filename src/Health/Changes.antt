-- ===== src/Health/Changes.antt =====
-- The states that a log gives the dependencies of zk-verifier/src/health.rs, and those that the
-- replies give them.
use zee_k_verifier.Prelude.{
  Bool, true, false, List, [], ◌∷◌, ◌++◌, Option, none, some, Text, ◌≡◌, ◌≢◌, refl,
}
use zee_k_verifier.Health.{Dependency, store_cts, storage, Line}
use zee_k_verifier.Health.Laws.{Replies, is_well, is_stored}

-- The states that the log gives a dependency, in order.
abbrev pub state : Option Text → Bool
state none = true
state (some _) = false

abbrev pub about : Dependency → Dependency → Option Text → List Bool
about store_cts store_cts down = state down ∷ []
about storage storage down = state down ∷ []
about _ _ down = []

abbrev pub states : Dependency → List Line → List Bool
states d [] = []
states d (line ∷ lines) = about d line.dependency line.down ++ states d lines

-- Each state differs from the one before it, and from one given.
abbrev pub Alternates : Option Bool → List Bool → Type 0
Alternates before [] = Unit
Alternates before (b ∷ bs) = (before ≢ some b) × Alternates (some b) bs

abbrev pub final : Option Bool → List Bool → Option Bool
final before [] = before
final before (b ∷ bs) = final (some b) bs

-- What a state adds to the states before it: itself, if it is not the last of them.
abbrev pub change : Option Bool → Bool → List Bool
change (some true) true = []
change (some false) false = []
change _ b = b ∷ []

-- The first of some states, and each that differs from the one before it.
abbrev pub changes : Option Bool → List Bool → List Bool
changes before [] = []
changes before (b ∷ bs) = change before b ++ changes (some b) bs

-- The states that the replies give each dependency, round for round.
abbrev pub store_cts_found : List Replies → List Bool
store_cts_found [] = []
store_cts_found ((cts_reply, _) ∷ rs) = is_well cts_reply ∷ store_cts_found rs

abbrev pub storage_found : List Replies → List Bool
storage_found [] = []
storage_found ((_, none) ∷ rs) = storage_found rs
storage_found ((_, some reply) ∷ rs) = is_stored reply ∷ storage_found rs

pub changes-Alternates :
    (before : Option Bool) (bs : List Bool) → Alternates before (changes before bs)
changes-Alternates before [] = tt
changes-Alternates none (b ∷ bs) = ((λ e. cc), changes-Alternates (some b) bs)
changes-Alternates (some true) (true ∷ bs) = changes-Alternates (some true) bs
changes-Alternates (some false) (false ∷ bs) = changes-Alternates (some false) bs
changes-Alternates (some true) (false ∷ bs) = ((λ e. cc), changes-Alternates (some false) bs)
changes-Alternates (some false) (true ∷ bs) = ((λ e. cc), changes-Alternates (some true) bs)

pub final-changes :
    (before : Option Bool) (bs : List Bool) → final before (changes before bs) ≡ final before bs
final-changes before [] = refl
final-changes none (b ∷ bs) = final-changes (some b) bs
final-changes (some true) (true ∷ bs) = final-changes (some true) bs
final-changes (some false) (false ∷ bs) = final-changes (some false) bs
final-changes (some true) (false ∷ bs) = final-changes (some false) bs
final-changes (some false) (true ∷ bs) = final-changes (some true) bs
