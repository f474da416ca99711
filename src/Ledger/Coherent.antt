-- ===== src/Ledger/Coherent.antt =====
-- What holds between the tables work_items, executor_attempts and serialization_leases after every
-- method of Store.
pub mod Facts
pub mod Shrink
pub mod Grow
use signal_plane.Base.{String, ◌≡◌, ◌≢◌, List, Memᴰ, none}
use signal_plane.Base.Relation.{IsKeyed}
use signal_plane.Ledger.Model.{WorkItem, ExecutorAttempt, active, admitted, waiting, running}
use signal_plane.Ledger.Store.{Db, Lease}

abbrev pub item_id : WorkItem → String
item_id i = i.id

abbrev pub attempt_id : ExecutorAttempt → String
attempt_id a = a.id

abbrev pub lease_key : Lease → String
lease_key l = l.serialization_key

-- The lease of an active item.
abbrev pub IsLeaseOf : Lease → WorkItem → Type 0
IsLeaseOf l i = (l.work_item_id ≡ i.id) × (l.serialization_key ≡ i.serialization_key)

-- The attempt behind a lease.
abbrev pub Backs : ExecutorAttempt → Lease → Type 0
Backs a l = (a.id ≡ l.attempt_id) × (a.work_item_id ≡ l.work_item_id) × (a.state ≡ running)

pub record Coherent (items : List WorkItem) (attempts : List ExecutorAttempt) (leases : List Lease)
    : Type 0 where
  pub item_ids : IsKeyed item_id items
  pub attempt_ids : IsKeyed attempt_id attempts
  pub lease_keys : IsKeyed lease_key leases
  -- an active item holds a lease
  pub leased :
      (i : WorkItem) → Memᴰ i items → i.state ≡ active → (l : Lease) × Memᴰ l leases × IsLeaseOf l i
  -- a lease stands for an active item and a running attempt
  pub lease_active :
      (l : Lease) (i : WorkItem)
      → Memᴰ l leases
      → Memᴰ i items
      → i.id ≡ l.work_item_id
      → (i.state ≡ active) × (l.serialization_key ≡ i.serialization_key)
  pub lease_backed :
      (l : Lease) → Memᴰ l leases → (a : ExecutorAttempt) × Memᴰ a attempts × Backs a l
  pub running_leased :
      (a : ExecutorAttempt)
      → Memᴰ a attempts
      → a.state ≡ running
      → (l : Lease) × Memᴰ l leases × (l.attempt_id ≡ a.id)
  pub attempt_items :
      (a : ExecutorAttempt)
      → Memᴰ a attempts
      → (i : WorkItem) × Memᴰ i items × (i.id ≡ a.work_item_id)
  -- an item has no attempts before its first claim
  pub admitted_fresh :
      (i : WorkItem) (a : ExecutorAttempt)
      → Memᴰ i items
      → Memᴰ a attempts
      → a.work_item_id ≡ i.id
      → i.state ≢ admitted
  -- a waiting item has a time for its next attempt
  pub waiting_scheduled :
      (i : WorkItem) → Memᴰ i items → i.state ≡ waiting → i.next_attempt_at ≢ none

abbrev pub IsCoherent : Db → Type 0
IsCoherent db = Coherent db.items db.attempts db.leases
