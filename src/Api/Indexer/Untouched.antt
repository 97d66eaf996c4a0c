-- ===== src/Api/Indexer/Untouched.antt =====
-- The row of the checkpoint while a pass of apps/api/src/indexer.ts gathers: only its last call
-- writes that row.
use evidra_protocol.Base.{
  ℕ, ◌≡◌, sym, subst, Option, none, some, List, [], ◌∷◌, Text, Bool-cases, inl, inr, arith,
}
use evidra_protocol.Protocol.Types.{FactRecord, ResolutionRecord, ProtocolEvent, EvidenceManifest}
use evidra_protocol.Db.{
  Database, SyncState, upsert_protocol_state, upsert_policy, upsert_template, upsert_request,
  upsert_resolution, upsert_fact, set_resolution_flags, refresh_fact_freshness, replace_evidence,
}
use evidra_protocol.Api.Indexer.Effects.{World, Action}
use evidra_protocol.Api.Indexer.Keeps.{
  Keeps, bind_keeps, pure_keeps, lift_keeps, update_keeps, store_keeps, try_store_keeps,
  query_keeps, when_keeps,
}
use evidra_protocol.Api.Indexer.{
  Options, Chain, Clock, Payload, gather_from, sync_policy, sync_template, sync_event,
  sync_policies_and_templates, sync_requests, sync_resolutions, sync_affected, sync_existing_fact,
  sync_keys, sync_facts, get_protocol_projection, projection_or, read_projection, is_recent,
}

replace_evidence_keeps :
    (m : EvidenceManifest) (db db' : Database)
    → replace_evidence m db ≡ some db'
    → db'.sync ≡ db.sync
unfolding replace_evidence
replace_evidence_keeps m db db' e = ground arith

module _ (chain : Chain) (o : Options) (clock : Clock) (Q : Option SyncState → Type 0) where
  abbrev Stays : {A : Type 0} → Action A → Type 0
  Stays m = Keeps (λ db. Q db.sync) m

  sync_policy_keeps : (p : Payload) → Stays (sync_policy chain o clock p)
  unfolding sync_policy upsert_policy
  sync_policy_keeps p = when_keeps _ (bind_keeps (lift_keeps _) λ a. store_keeps _ λ db h. h)

  sync_template_keeps : (p : Payload) → Stays (sync_template chain o clock p)
  unfolding sync_template upsert_template
  sync_template_keeps p = when_keeps _ (bind_keeps (lift_keeps _) λ a. store_keeps _ λ db h. h)

  sync_events_keep :
      (es : List ProtocolEvent) → Stays (sync_policies_and_templates chain o clock es)
  unfolding sync_policies_and_templates sync_event
  sync_events_keep [] = pure_keeps tt
  sync_events_keep (e ∷ es) =
      bind_keeps
        (bind_keeps (when_keeps _ (sync_policy_keeps _)) λ a. when_keeps _ (sync_template_keeps _))
        λ a. sync_events_keep es

  sync_requests_keep : (ids : List ℕ) → Stays (sync_requests chain o clock ids)
  unfolding sync_requests upsert_request
  sync_requests_keep [] = pure_keeps []
  sync_requests_keep (id ∷ ids) = bind_keeps (lift_keeps _) λ r.
      bind_keeps (when_keeps _ (store_keeps _ λ db h. h))
        λ a. bind_keeps (sync_requests_keep ids) λ rs. pure_keeps _

  sync_resolutions_keep : (ids : List ℕ) → Stays (sync_resolutions chain o clock ids)
  unfolding sync_resolutions
  sync_resolutions_keep [] = pure_keeps []
  sync_resolutions_keep (id ∷ ids) =
      bind_keeps (lift_keeps _) λ r. bind_keeps (sync_resolutions_keep ids) λ rs. pure_keeps _

  sync_affected_keeps :
      (f : FactRecord) (latest : ℕ) (rs : List ResolutionRecord)
      → Stays (sync_affected chain o clock f latest rs)
  unfolding sync_affected upsert_resolution
  sync_affected_keeps f latest [] = pure_keeps tt
  sync_affected_keeps f latest (r ∷ rs) = bind_keeps (store_keeps _ λ db h. h) λ a.
      bind_keeps (lift_keeps _) λ m.
        bind_keeps
          (when_keeps _
            (try_store_keeps _ λ db db' e h. subst Q (sym (replace_evidence_keeps m db db' e)) h))
          λ b. sync_affected_keeps f latest rs

  sync_keys_keep :
      (keys : List Text) (rs : List ResolutionRecord) → Stays (sync_keys chain o clock keys rs)
  unfolding sync_keys sync_existing_fact set_resolution_flags upsert_fact
  sync_keys_keep [] rs = pure_keeps tt
  sync_keys_keep (key ∷ keys) rs = bind_keeps (lift_keeps _) λ f.
      bind_keeps
        (when_keeps _ (
          bind_keeps (sync_affected_keeps f _ _)
            λ a. bind_keeps (store_keeps _ λ db h. h) λ b. store_keeps _ λ db h. h))
        λ a. sync_keys_keep keys rs

  read_projection_keeps : Stays (read_projection chain o clock)
  unfolding read_projection
  read_projection_keeps = bind_keeps (lift_keeps _) λ a. bind_keeps (lift_keeps _) λ b.
      bind_keeps (lift_keeps _) λ d.
        bind_keeps (lift_keeps _)
          λ e. bind_keeps (lift_keeps _) λ f. bind_keeps (update_keeps _) λ g. pure_keeps _

  get_projection_keeps : (s : SyncState) → Stays (get_protocol_projection chain o clock s)
  unfolding get_protocol_projection projection_or
  get_projection_keeps s = record { at = λ w h. kept w h w.indexer.projection }
    where
      kept : (w : World) → Q w.db.sync → (p : _) → Q (projection_or chain o clock s p w).1.db.sync
      kept w h none = read_projection_keeps.at w h
      kept w h (some p) = elim (Bool-cases (is_recent chain o clock s p)) [
        | inl e ↦ rw e h
        | inr e ↦ rw e (read_projection_keeps.at w h)
      ]

  -- All of a pass but its last write.
  pub gather_from_keeps : (s : SyncState) → Stays (gather_from chain o clock s)
  unfolding gather_from sync_facts upsert_protocol_state refresh_fact_freshness
  gather_from_keeps s = bind_keeps (lift_keeps _) λ stats. bind_keeps (lift_keeps _) λ n.
      bind_keeps (get_projection_keeps s) λ p. bind_keeps (store_keeps _ λ db h. h) λ a.
        bind_keeps (lift_keeps _) λ policies. bind_keeps (lift_keeps _) λ templates.
          bind_keeps (sync_events_keep _) λ b. bind_keeps (query_keeps _) λ mutable_ids.
            bind_keeps (sync_requests_keep _) λ requests.
              bind_keeps (sync_resolutions_keep _) λ resolutions.
                bind_keeps (store_keeps _ λ db h. h) λ d.
                  bind_keeps (sync_keys_keep _ _) λ e. bind_keeps (update_keeps _) λ f. pure_keeps _
