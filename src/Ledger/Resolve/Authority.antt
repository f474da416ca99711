-- ===== src/Ledger/Resolve/Authority.antt =====
-- What the broker may write twice.
use signal_plane.Base.{
  String, ℕ, ◌≡◌, ◌≢◌, refl, ap, subst, true, some, ok, arith, find, find-update, update, or_error,
  no_rows, ◌==◌, ==→eq, Option-cases, inl, inr,
}
use signal_plane.Base.Int.{ℤ, ◌≤ℤ◌, eqb_ℤ}
use signal_plane.Ledger.Model.{WorkItem}
use signal_plane.Ledger.Store.{Db, same_item}
use signal_plane.Ledger.Resolve.{
  work_item, check_resolution, resolve_item, resolve_release, correlate_item, record_pr_correlation,
}
use signal_plane.Ledger.Resolve.Coherence.{resolve_release-eq, record_pr_correlation-eq}

-- The row that a change of the item finds, before and after.
row_after :
    (id : String) (f : WorkItem → WorkItem) (prior : WorkItem) (db db' : Db)
    → ((i : WorkItem) → (f i).id ≡ i.id)
    → find (same_item id) db.items ≡ some prior
    → record db { items = update (same_item id) f db.items } ≡ db'
    → work_item id db' ≡ ok (f prior)
unfolding work_item
row_after id f prior db db' same found e =
    let items : update (same_item id) f db.items ≡ db'.items = ap (λ (z : Db). z.items) e in
    let hit = find-update (same_item id) f db.items prior (λ y. ap (λ z. z == id) (same y)) found in
    ap (λ z. or_error z no_rows) (subst (λ z. find (same_item id) z ≡ some (f prior)) items hit)

resolution_checked :
    (prior : WorkItem) (generation : ℤ) (digest run_id : String)
    → check_resolution prior generation digest run_id ≡ ok tt
    → (prior.resolved_release_generation ≤ℤ generation)
      × (eqb_ℤ prior.resolved_release_generation generation ≡ true
          → prior.resolved_release_digest ≡ digest)
unfolding check_resolution
resolution_checked prior generation digest run_id h =
    (ground (arith, h), λ e. ==→eq prior.resolved_release_digest digest (ground (arith, h, e)))

-- A resolution that succeeds writes the generation, the digest and the run into the item; the
-- generation does not fall, and one that was resolved before keeps its digest.
pub resolve_release-work_item :
    (id : String) (generation : ℤ) (digest run_id : String) (now : ℕ) (db db' : Db)
    → resolve_release id generation digest run_id now db ≡ ok db'
    → (prior : WorkItem) × (work_item id db ≡ ok prior)
      × (work_item id db' ≡ ok (resolve_item generation digest run_id now prior))
      × (prior.resolved_release_generation ≤ℤ generation)
      × (eqb_ℤ prior.resolved_release_generation generation ≡ true
          → prior.resolved_release_digest ≡ digest)
unfolding resolve_release work_item
resolve_release-work_item id generation digest run_id now db db' h =
    elim (Option-cases (find (same_item id) db.items)) [
      | inl missing ↦ absurd (ground (arith, missing, h))
      | inr (prior, found) ↦
          let (rises, keeps) =
            resolution_checked prior generation digest run_id (ground (arith, found, h)) in
          (
            prior,
            ap (λ z. or_error z no_rows) found,
            row_after id (resolve_item generation digest run_id now) prior db db' (λ i. refl) found
                (resolve_release-eq id generation digest run_id now db h),
            rises,
            keeps,
          )
    ]

-- A correlation that succeeds writes the pull request into the item, and an item that has one
-- already keeps it.
pub record_pr_correlation-work_item :
    (id repository : String) (number : ℤ) (now : ℕ) (db db' : Db)
    → record_pr_correlation id repository number now db ≡ ok db'
    → (prior : WorkItem) × (work_item id db ≡ ok prior)
      × (work_item id db' ≡ ok (correlate_item repository number now prior))
      × (prior.authoritative_pr_repository ≢ ""
          → (prior.authoritative_pr_repository ≡ repository)
            × (eqb_ℤ prior.authoritative_pr_number number ≡ true))
unfolding record_pr_correlation work_item
record_pr_correlation-work_item id repository number now db db' h =
    elim (Option-cases (find (same_item id) db.items)) [
      | inl missing ↦ absurd (ground (arith, missing, h))
      | inr (prior, found) ↦ (
        prior,
        ap (λ z. or_error z no_rows) found,
        row_after id (correlate_item repository number now) prior db db' (λ i. refl) found
            (record_pr_correlation-eq id repository number now db h),
        λ there. (
          ==→eq prior.authoritative_pr_repository repository
              (ground (arith, found, h, there, ==→eq prior.authoritative_pr_repository "")),
          ground (arith, found, h, there, ==→eq prior.authoritative_pr_repository ""),
        ),
      )
    ]
