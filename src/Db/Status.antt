-- ===== src/Db/Status.antt =====
-- `setSyncStatus` and `getSyncStatus` of packages/db/src/repository.ts.
use evidra_protocol.Base.{ℕ, ◌≡◌, Option, none, some, List, [], ◌∷◌, or_default}
use evidra_protocol.Db.{Database, SyncState, SyncPatch, set_sync_status}

abbrev or_else {ℓ} : {A : Type ℓ} → Option A → Option A → Option A
or_else (some a) b = some a
or_else none b = b

-- The value of a field in the last of the patches that sets it.
abbrev pub last_of : {A : Type 0} → (SyncPatch → Option A) → List (ℕ × SyncPatch) → Option A
last_of field [] = none
last_of field ((now, p) ∷ ps) = or_else (last_of field ps) (field p)

-- Calls of `setSyncStatus`, one after the other.
abbrev pub set_all : List (ℕ × SyncPatch) → Database → Database
set_all [] db = db
set_all ((now, p) ∷ ps) db = set_all ps (set_sync_status now p db)

-- Each column of `t` that a patch can leave alone has the last value that was set, or that of `s`.
abbrev pub IsLast : SyncState → List (ℕ × SyncPatch) → SyncState → Type 0
IsLast s ps t =
    (t.last_finalized_at ≡ or_else (last_of (λ p. p.last_finalized_at) ps) s.last_finalized_at)
    × (t.last_success_at ≡ or_else (last_of (λ p. p.last_success_at) ps) s.last_success_at)
    × (t.last_attempt_at ≡ or_else (last_of (λ p. p.last_attempt_at) ps) s.last_attempt_at)
    × (t.status ≡ or_default (last_of (λ p. p.status) ps) s.status)
    × (t.counts ≡ or_default (last_of (λ p. p.counts) ps) s.counts)
    × (t.last_request_id ≡ or_default (last_of (λ p. p.last_request_id) ps) s.last_request_id)
    × (t.last_resolution_id
        ≡ or_default (last_of (λ p. p.last_resolution_id) ps) s.last_resolution_id)
    × (t.last_config_check_at
        ≡ or_else (last_of (λ p. p.last_config_check_at) ps) s.last_config_check_at)
