-- ===== src/Ledger/Content.antt =====
-- Release operations, content results and ingress failures of internal/workledger/store.go.
use signal_plane.Base.{
  String, ℕ, Bool, true, false, not, ◌&&◌, ◌||◌, List, ◌∷◌, Option, none, some, Result, ok, err,
  no_rows, ◌>>=◌, ◌>>◌, refuse, or_error, ltb, if◌then◌else◌, find, exists, update, ◌==◌, ◌<>◌,
  text_length,
}
use signal_plane.Base.Int.{ℤ, pos, eqb_ℤ, ltb_ℤ}
use signal_plane.Ledger.Model.{ReleaseOperation, Codec, Event, event_digest, millis}
use signal_plane.Ledger.Store.{Db, ContentRow, FailureRow, same_delivery}

-- `==` on ReleaseOperation.
unfoldable pub same_operation : ReleaseOperation → ReleaseOperation → Bool
same_operation a b =
    eqb_ℤ a.repository_id b.repository_id
    && eqb_ℤ a.installation_id b.installation_id
    && eqb_ℤ a.release_id b.release_id
    && a.repository == b.repository
    && a.tag == b.tag
    && a.published_at == b.published_at
    && a.target_commitish == b.target_commitish
    && a.commit_sha == b.commit_sha
    && eqb_ℤ a.asset_id b.asset_id
    && eqb_ℤ a.asset_size b.asset_size
    && a.asset_name == b.asset_name
    && a.asset_content_type == b.asset_content_type
    && a.provider_digest == b.provider_digest
    && a.computed_digest == b.computed_digest

unfoldable pub release_operation : String → Db → Result ReleaseOperation
release_operation work_id db = do
  row ← or_error (find (λ r. r.work_item_id == work_id) db.operations) no_rows
  ok row.operation

-- `loadErr != nil || stored != *operation`
unfoldable pub conflicts : ReleaseOperation → Result ReleaseOperation → Bool
unfolding same_operation
conflicts operation (ok stored) = not (same_operation stored operation)
conflicts operation (err e) = true

-- INSERT … ON CONFLICT(work_item_id) DO NOTHING
unfoldable pub insert_operation : String → ReleaseOperation → Db → Db
insert_operation work_id operation db =
    if exists (λ r. r.work_item_id == work_id) db.operations then db else record db {
      operations = record { work_item_id = work_id; operation = operation } ∷ db.operations;
    }

abbrev pub has_digest : String → ContentRow → Bool
has_digest digest row = row.computed_digest == digest

-- The external correlation and the result digest, if the digest has a row.
unfoldable pub content_result : String → Db → Option (String × String)
content_result digest db = elim (find (has_digest digest) db.contents) [
  | none ↦ none
  | some row ↦ some (row.external_correlation, row.result_digest)
]

-- INSERT … ON CONFLICT(computed_digest) DO NOTHING
unfoldable pub insert_content : ContentRow → Db → Db
insert_content row db =
    if exists (has_digest row.computed_digest) db.contents
    then db
    else record db { contents = row ∷ db.contents }

unfoldable pub record_content_result : String → String → String → ℕ → Db → Result Db
unfolding insert_content content_result
record_content_result digest external result now db = do
  let db' =
      insert_content
        (record {
          computed_digest = digest;
          external_correlation = external;
          result_digest = result;
          recorded_at = millis now;
        })
        db
  (stored_external, stored_result) ← or_error (content_result digest db') no_rows
  refuse (stored_external <> external || stored_result <> result)
      "content digest already has a conflicting durable result"
  ok db'

-- `digest` of the row of work_events for this delivery, if there is one.
unfoldable pub delivery_recorded : Codec → Event → Db → Result Bool
delivery_recorded codec event db = elim (find (same_delivery event) db.events) [
  | none ↦ ok false
  | some row ↦ do
    refuse (row.event_digest <> event_digest codec event)
        "source delivery id conflicts with different event content"
    ok true
]

abbrev pub same_failure : Event → FailureRow → Bool
same_failure event row =
    row.source == event.source
    && row.namespace == event.namespace
    && row.source_delivery_id == event.source_delivery_id

-- INSERT … ON CONFLICT(source,namespace,source_delivery_id) DO UPDATE, which keeps `event_digest`.
unfoldable pub upsert_failure : Event → FailureRow → List FailureRow → List FailureRow
upsert_failure event row rows =
    if exists (same_failure event) rows
    then update (same_failure event)
        (λ old. record old {
          attempts = row.attempts;
          classification = row.classification;
          recorded_at = row.recorded_at;
        })
        rows
    else row ∷ rows

unfoldable pub record_ingress_failure : Codec → Event → String → ℤ → ℕ → Db → Result Db
unfolding upsert_failure
record_ingress_failure codec event classification attempts now db = do
  refuse (ltb_ℤ attempts (pos 1) || classification == "" || ltb 80 (text_length classification))
      "invalid bounded ingress failure"
  ok (record db {
    failures =
        upsert_failure event
          (record {
            source = event.source;
            namespace = event.namespace;
            source_delivery_id = event.source_delivery_id;
            event_digest = event_digest codec event;
            classification = classification;
            attempts = attempts;
            recorded_at = millis now;
          })
          db.failures;
  })
