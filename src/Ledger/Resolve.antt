-- ===== src/Ledger/Resolve.antt =====
-- ResolveRelease, RecordAuthoritativePRCorrelation and the lookups of work items of
-- internal/workledger/store.go.
pub mod Coherence
pub mod Authority
mod Examples
use signal_plane.Base.{
  ℕ, ◌+◌, String, Bool, not, ◌&&◌, ◌||◌, Result, ok, no_rows, ◌>>=◌, ◌>>◌, refuse, or_error, ltb,
  eqb, if◌then◌else◌, find, select, first_by, count, update, ◌==◌, ◌<>◌, text_length,
}
use signal_plane.Base.Int.{ℤ, pos, eqb_ℤ, ltb_ℤ, leb_ℤ}
use signal_plane.Ledger.Model.{WorkItem, millis}
use signal_plane.Ledger.Patterns.{image_digest_format, repo_format}
use signal_plane.Ledger.Store.{Db, same_item}
use signal_plane.Ledger.Admit.{newer}

unfoldable pub work_item : String → Db → Result WorkItem
work_item id db = or_error (find (same_item id) db.items) no_rows

-- The comparison with the resolution that the row holds.
unfoldable pub check_resolution : WorkItem → ℤ → String → String → Result (Unit {0})
check_resolution item generation digest run_id =
    if eqb_ℤ item.resolved_release_generation generation
    then (do
      refuse (item.resolved_release_digest <> digest)
          "resolved generation already bound to a different digest"
      refuse (item.broker_run_id <> "" && item.broker_run_id <> run_id)
          "resolved generation already bound to a different broker run")
    else refuse (ltb_ℤ generation item.resolved_release_generation)
        "resolved release generation is not monotonic"

abbrev pub resolve_item : ℤ → String → String → ℕ → WorkItem → WorkItem
resolve_item generation digest run_id now i = record i {
  resolved_release_generation = generation;
  resolved_release_digest = digest;
  broker_run_id = run_id;
  state_version = i.state_version + 1;
  updated_at = millis now;
}

unfoldable pub resolve_release : String → ℤ → String → String → ℕ → Db → Result Db
unfolding check_resolution
resolve_release work_id generation digest run_id now db = do
  refuse (leb_ℤ generation (pos 0)) "resolved release generation must be positive"
  refuse (not (image_digest_format digest)) "resolved release digest must be a sha256 image digest"
  refuse (run_id == "" || ltb 256 (text_length run_id)) "broker run id is required and bounded"
  item ← or_error (find (same_item work_id) db.items) no_rows
  check_resolution item generation digest run_id
  refuse (not (eqb (count (same_item work_id) db.items) 1))
      "work item not found for release resolution"
  ok (record db {
    items = update (same_item work_id) (resolve_item generation digest run_id now) db.items;
  })

abbrev pub correlate_item : String → ℤ → ℕ → WorkItem → WorkItem
correlate_item repository number now i = record i {
  authoritative_pr_repository = repository;
  authoritative_pr_number = number;
  state_version = i.state_version + 1;
  updated_at = millis now;
}

unfoldable pub record_pr_correlation : String → String → ℤ → ℕ → Db → Result Db
record_pr_correlation work_id repository number now db = do
  refuse (not (repo_format repository) || ltb 256 (text_length repository))
      "authoritative PR repository must be owner/name"
  refuse (leb_ℤ number (pos 0)) "authoritative PR number must be positive"
  item ← or_error (find (same_item work_id) db.items) no_rows
  refuse
      (item.authoritative_pr_repository <> ""
        && (item.authoritative_pr_repository <> repository
            || not (eqb_ℤ item.authoritative_pr_number number)))
      "work item already correlated to a different pull request"
  refuse (not (eqb (count (same_item work_id) db.items) 1)) "work item not found for PR correlation"
  ok (record db {
    items = update (same_item work_id) (correlate_item repository number now) db.items;
  })

abbrev pub has_pr : String → ℤ → WorkItem → Bool
has_pr repository number i =
    i.authoritative_pr_repository == repository && eqb_ℤ i.authoritative_pr_number number

unfoldable pub work_item_by_pr : String → ℤ → Db → Result WorkItem
work_item_by_pr repository number db =
    or_error (first_by newer (select (has_pr repository number) db.items)) no_rows
