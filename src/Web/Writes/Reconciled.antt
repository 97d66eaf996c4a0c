-- ===== src/Web/Writes/Reconciled.antt =====
-- What the reconciliation of apps/web/src/lib/writes.ts leaves in the storage.
use evidra_protocol.Base.{
  ◌≡◌, refl, ap, sym, subst, ◌∙◌, true, Option, none, some, Text, Result, ok, err, ◌⊎◌, inl, inr,
}
use evidra_protocol.Web.Writes.{
  Pending, Transaction, Sdk, Browser, client_made, decision_awaited, finalization_awaited, awaited,
  read_pending, is_refused, reconcile_finalization, reconcile_decision, reconcile_client,
  reconcile_with, reconcile_pending_write,
}
use evidra_protocol.Web.Writes.Kept.{IsAccepted, if_lem, clear-stored, clear-sent}

-- How a reconciliation of a stored write ends: it has come through and nothing is stored, or the storage
-- is what other calls made of it.
abbrev pub Reconciles : Sdk → Pending → (before : Option Pending) → Browser → Type 0
Reconciles sdk p before c =
    (IsAccepted (sdk.wait_for_decision p.tx_id)
      × IsAccepted (sdk.wait_for_finalization p.tx_id)
      × (c.stored ≡ none))
    ⊎ (c.stored ≡ sdk.others client_made before)
    ⊎ (c.stored ≡ sdk.others decision_awaited (sdk.others client_made before))
    ⊎ (c.stored
        ≡ sdk.others finalization_awaited
            (sdk.others decision_awaited (sdk.others client_made before)))

module _ (sdk : Sdk) (p : Pending) (b : Browser) where
  abbrev Leaves : Browser → Type 0
  Leaves c = (c.sent ≡ b.sent) × Reconciles sdk p b.stored c

  finalization-Leaves :
      (r : Result Text Transaction) (c : Browser)
      → sdk.wait_for_finalization p.tx_id ≡ r
      → IsAccepted (sdk.wait_for_decision p.tx_id)
      → c.storage_works ≡ true
      → c.sent ≡ b.sent
      → c.stored
        ≡ sdk.others finalization_awaited
            (sdk.others decision_awaited (sdk.others client_made b.stored))
      → Leaves (reconcile_finalization p r c)
  finalization-Leaves (err e) c q a w n k = (n, inr (inr (inr k)))
  finalization-Leaves (ok t) c q a w n k =
      if_lem Leaves (is_refused t) _ _ (λ h. (n, inr (inr (inr k))))
        (λ h. (clear-sent c w ∙ n, inl (a, (t, q, h), clear-stored c w)))

  decision-Leaves :
      (r : Result Text Transaction) (c : Browser)
      → sdk.wait_for_decision p.tx_id ≡ r
      → c.storage_works ≡ true
      → c.sent ≡ b.sent
      → c.stored ≡ sdk.others decision_awaited (sdk.others client_made b.stored)
      → Leaves (reconcile_decision sdk p r c)
  decision-Leaves (err e) c q w n k = (n, inr (inr (inl k)))
  decision-Leaves (ok t) c q w n k =
      if_lem Leaves (is_refused t) _ _ (λ h. (n, inr (inr (inl k))))
        (λ h.
          finalization-Leaves (sdk.wait_for_finalization p.tx_id) _ refl (t, q, h) w n
            (ap (sdk.others finalization_awaited) k))

  client-Leaves :
      (r : Result Text (Unit {0}))
      → b.storage_works ≡ true
      → Leaves (reconcile_client sdk p r (awaited sdk client_made b))
  client-Leaves (err e) w = (refl, inr (inl refl))
  client-Leaves (ok u) w = decision-Leaves (sdk.wait_for_decision p.tx_id) _ refl w refl refl

-- A reconciliation of a stored write sends no write. It removes what is stored only when the decision
-- and the finalization of that write came through; after every other answer or error the storage is
-- what other calls and tabs made of it. Condition: the storage works.
pub reconcile_pending_write-Reconciles :
    (sdk : Sdk) (p : Pending) (b : Browser)
    → b.storage_works ≡ true
    → b.stored ≡ some p
    → ((reconcile_pending_write sdk b).sent ≡ b.sent)
      × Reconciles sdk p b.stored (reconcile_pending_write sdk b)
unfolding reconcile_pending_write
reconcile_pending_write-Reconciles sdk p b w e =
    let read : read_pending b ≡ some p = rw w e in
    subst (λ o. Leaves sdk p b (reconcile_with sdk o b)) (sym read)
      (client-Leaves sdk p b sdk.create_client w)
