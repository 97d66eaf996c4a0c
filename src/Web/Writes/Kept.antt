-- ===== src/Web/Writes/Kept.antt =====
-- What a write of apps/web/src/lib/writes.ts leaves in the storage, whatever other calls do meanwhile.
use evidra_protocol.Base.{
  ◌+◌, ◌≡◌, refl, Bool, true, false, Option, none, some, Text, Result, ok, err, if◌then◌else◌, ◌⊎◌,
}
use evidra_protocol.Web.Writes.{
  Pending, Returned, Transaction, Sdk, Browser, chain_asked, decision_awaited, finalization_awaited,
  awaited, read_pending, transaction_id, is_refused, clear, frozen_chain_id,
}

module _ {ℓ} {A : Type ℓ} where
  if_true : (b : Bool) (x y : A) → b ≡ true → (if b then x else y) ≡ x
  if_true true x y h = refl
  if_true false x y h = absurd (cc)

  pub if_lem :
      (P : A → Type 0) (b : Bool) (x y : A)
      → (b ≡ true → P x)
      → (b ≡ false → P y)
      → P (if b then x else y)
  if_lem P true x y h k = h refl
  if_lem P false x y h k = k refl

pub clear-stored : (b : Browser) → b.storage_works ≡ true → (clear b).stored ≡ none
clear-stored b h = rw h refl

pub clear-sent : (b : Browser) → b.storage_works ≡ true → (clear b).sent ≡ b.sent
clear-sent b h = rw h refl

-- The answer is a transaction that came through.
abbrev pub IsAccepted : Result Text Transaction → Type 0
IsAccepted r = (t : Transaction) × (r ≡ ok t) × (is_refused t ≡ false)

-- The record of a write.
abbrev pub own : Sdk → (account method tx : Text) → Pending
own sdk account method tx = record {
  method = method;
  tx_id = tx;
  account = account;
  created_at = sdk.now;
}

-- The wallet sent a write and gave this id.
abbrev pub HasSent : Sdk → Option Text → Type 0
HasSent sdk id = (raw : Returned) × (sdk.write_contract ≡ ok raw) × (transaction_id raw ≡ id)

-- The storage is what other calls made of it since the record was stored: this call did not touch it.
abbrev pub IsKept : Sdk → Pending → Option Pending → Type 0
IsKept sdk p stored =
    (stored ≡ sdk.others decision_awaited (some p))
    ⊎ (stored ≡ sdk.others finalization_awaited (sdk.others decision_awaited (some p)))

-- A wallet on the frozen chain, and no write stored when the chain is known.
abbrev pub IsGuarded : Sdk → Browser → Type 0
IsGuarded sdk b =
    (sdk.has_provider ≡ true)
    × (sdk.chain_id ≡ ok frozen_chain_id)
    × (read_pending (awaited sdk chain_asked b) ≡ none)

-- How a submission ends.
abbrev pub Ends : Sdk → (account method : Text) → Browser → Result Text Text × Browser → Type 0
Ends sdk account method b (ok tx, c) =
    IsGuarded sdk b
    × (c.sent ≡ b.sent + 1)
    × HasSent sdk (some tx)
    × IsAccepted (sdk.wait_for_decision tx)
    × IsAccepted (sdk.wait_for_finalization tx)
    × (c.stored ≡ none)
Ends sdk account method b (err e, c) =
    (c.sent ≡ b.sent)
    ⊎ (IsGuarded sdk b
        × (c.sent ≡ b.sent + 1)
        × (HasSent sdk none
            ⊎ ((tx : Text) × HasSent sdk (some tx)
                × IsKept sdk (own sdk account method tx) c.stored)))

module _ (sdk : Sdk) (account method : Text) (b : Browser) where
  -- A write is sent, and the call waits for it.
  record IsOut (tx : Text) (c : Browser) : Type 0 where
    pub works : c.storage_works ≡ true
    pub guarded : IsGuarded sdk b
    pub counted : c.sent ≡ b.sent + 1
    pub named : HasSent sdk (some tx)
