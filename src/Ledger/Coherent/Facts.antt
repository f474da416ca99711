-- ===== src/Ledger/Coherent/Facts.antt =====
-- Consequences of coherence that the methods' proofs share.
use signal_plane.Base.{
  ◌≡◌, refl, sym, ap, subst, ◌∙◌, inl, inr, Bool, true, ◌&&◌, List, Memᴰ, ◌==◌, ==→eq, eq→==, arith,
  exists, exists-mem, exists_of_mem, Bool-cases,
}
use signal_plane.Base.Relation.{IsKeyed}
use signal_plane.Ledger.Model.{WorkItem, ExecutorAttempt, active, running}
use signal_plane.Ledger.Store.{Db, Lease}
use signal_plane.Ledger.Coherent.{Coherent, IsCoherent, item_id}

-- A subquery on the id of a row asks about that row alone.
pub exists-keyed :
    (p : WorkItem → Bool) (items : List WorkItem) (i : WorkItem)
    → IsKeyed item_id items
    → Memᴰ i items
    → exists (λ j. j.id == i.id && p j) items ≡ p i
exists-keyed p items i keyed m = elim (Bool-cases (p i)) [
  | inl t ↦
      exists_of_mem (λ j. j.id == i.id && p j) items i m (ground (arith, eq→== i.id i.id refl, t))
      ∙ sym t
  | inr f ↦ elim (Bool-cases (exists (λ j. j.id == i.id && p j) items)) [
    | inl e ↦
        let (j, n, q) = exists-mem (λ j. j.id == i.id && p j) items e in
        let same : j.id ≡ i.id = ==→eq j.id i.id (ground (arith, q)) in
        let hit : p j ≡ true = ground (arith, q) in
        absurd (ground (arith, ap p (keyed j i n m same), f, hit))
    | inr e ↦ e ∙ sym f
  ]
]

module _ {items : List WorkItem} {attempts : List ExecutorAttempt} {leases : List Lease}
    (v : Coherent items attempts leases) where
  -- The attempt that a lease names runs, for the lease's item.
  pub lease-attempt :
      (l : Lease) (a : ExecutorAttempt)
      → Memᴰ l leases
      → Memᴰ a attempts
      → a.id ≡ l.attempt_id
      → (a.work_item_id ≡ l.work_item_id) × (a.state ≡ running)
  lease-attempt l a ml ma e =
      let (b, mb, backs) = v.lease_backed l ml in
      let same : b ≡ a = v.attempt_ids b a mb ma (backs.0 ∙ sym e) in
      (sym (ap (λ z. z.work_item_id) same) ∙ backs.1, sym (ap (λ z. z.state) same) ∙ backs.2)

  -- The item of a running attempt is active.
  pub running-active :
      (a : ExecutorAttempt) (i : WorkItem)
      → Memᴰ a attempts
      → Memᴰ i items
      → a.state ≡ running
      → i.id ≡ a.work_item_id
      → i.state ≡ active
  running-active a i ma mi s e =
      let (l, ml, q) = v.running_leased a ma s in
      (v.lease_active l i ml mi (e ∙ (lease-attempt l a ml ma (sym q)).0)).0

  -- Two active items of one serialization key are one item.
  pub active_same_key :
      (i j : WorkItem)
      → Memᴰ i items
      → Memᴰ j items
      → i.state ≡ active
      → j.state ≡ active
      → i.serialization_key ≡ j.serialization_key
      → i ≡ j
  active_same_key i j mi mj si sj e =
      let (l, ml, (li, lk)) = v.leased i mi si in
      let (m, mm, (mi', mk)) = v.leased j mj sj in
      let same : l ≡ m = v.lease_keys l m ml mm (lk ∙ e ∙ sym mk) in
      v.item_ids i j mi mj (sym li ∙ ap (λ z. z.work_item_id) same ∙ mi')

  -- An item has at most one running attempt.
  pub running_same_item :
      (a b : ExecutorAttempt)
      → Memᴰ a attempts
      → Memᴰ b attempts
      → a.state ≡ running
      → b.state ≡ running
      → a.work_item_id ≡ b.work_item_id
      → a ≡ b
  running_same_item a b ma mb sa sb e =
      let (i, mi, q) = v.attempt_items a ma in
      let (l, ml, la) = v.running_leased a ma sa in
      let (m, mm, mb') = v.running_leased b mb sb in
      let li = v.lease_active l i ml mi (q ∙ (lease-attempt l a ml ma (sym la)).0) in
      let mi' = v.lease_active m i mm mi (q ∙ e ∙ (lease-attempt m b mm mb (sym mb')).0) in
      let same : l ≡ m = v.lease_keys l m ml mm (li.1 ∙ sym mi'.1) in
      v.attempt_ids a b ma mb (sym la ∙ ap (λ z. z.attempt_id) same ∙ mb')

-- The two databases have the same three tables.
abbrev pub SameTables : Db → Db → Type 0
SameTables db db' = (db'.items ≡ db.items) × (db'.attempts ≡ db.attempts) × (db'.leases ≡ db.leases)

pub IsCoherent-same : (db db' : Db) → SameTables db db' → IsCoherent db → IsCoherent db'
IsCoherent-same db db' (i, a, l) v =
    subst (λ t. Coherent t db'.attempts db'.leases) (sym i)
      (subst (λ t. Coherent db.items t db'.leases) (sym a)
        (subst (λ t. Coherent db.items db.attempts t) (sym l) v))
