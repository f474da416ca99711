-- ===== src/Ledger/Resolve/Examples.antt =====
-- A resolution and a correlation of the one item of the small ledger.
use signal_plane.Base.{
  ◌≡◌, ◌≢◌, refl, String, true, ok, ◌∷◌, [], find, count, update, ◌==◌, text_length,
}
use signal_plane.Base.Int.{pos, ◌≤ℤ◌, eqb_ℤ}
use signal_plane.Ledger.Model.{WorkItem}
use signal_plane.Ledger.Patterns
use signal_plane.Ledger.World.{queued, demo_item}
use signal_plane.Ledger.Store.{Db}
use signal_plane.Ledger.Resolve.{
  work_item, resolve_item, resolve_release, correlate_item, record_pr_correlation,
}
use signal_plane.Ledger.Resolve.Authority.{
  resolve_release-work_item, record_pr_correlation-work_item,
}

abbrev image : String
image = "sha256:0000000000000000000000000000000000000000000000000000000000000000"

abbrev queued_item : WorkItem
queued_item = demo_item "work-1" "r1" 2_000

abbrev resolved_db : Db
resolved_db = record queued {
  items = resolve_item (pos 1) image "run-1" 5_000_000_000 queued_item ∷ [];
}

resolution_runs :
    resolve_release "work-1" (pos 1) image "run-1" 5_000_000_000 queued ≡ ok resolved_db
unfolding resolve_release ◌==◌ find count update Patterns.image_digest_format text_length
resolution_runs = refl

resolve_release-work_item_example :
    (prior : WorkItem) × (work_item "work-1" queued ≡ ok prior)
    × (work_item "work-1" resolved_db ≡ ok (resolve_item (pos 1) image "run-1" 5_000_000_000 prior))
    × (prior.resolved_release_generation ≤ℤ pos 1)
    × (eqb_ℤ prior.resolved_release_generation (pos 1) ≡ true
        → prior.resolved_release_digest ≡ image)
resolve_release-work_item_example =
    resolve_release-work_item "work-1" (pos 1) image "run-1" 5_000_000_000 queued resolved_db
      resolution_runs

abbrev correlated_db : Db
correlated_db = record queued {
  items = correlate_item "owner/name" (pos 9) 6_000_000_000 queued_item ∷ [];
}

correlation_runs :
    record_pr_correlation "work-1" "owner/name" (pos 9) 6_000_000_000 queued ≡ ok correlated_db
unfolding record_pr_correlation ◌==◌ find count update Patterns.repo_format text_length
correlation_runs = refl

record_pr_correlation-work_item_example :
    (prior : WorkItem) × (work_item "work-1" queued ≡ ok prior)
    × (work_item "work-1" correlated_db
        ≡ ok (correlate_item "owner/name" (pos 9) 6_000_000_000 prior))
    × (prior.authoritative_pr_repository ≢ ""
        → (prior.authoritative_pr_repository ≡ "owner/name")
          × (eqb_ℤ prior.authoritative_pr_number (pos 9) ≡ true))
record_pr_correlation-work_item_example =
    record_pr_correlation-work_item "work-1" "owner/name" (pos 9) 6_000_000_000 queued correlated_db
      correlation_runs
