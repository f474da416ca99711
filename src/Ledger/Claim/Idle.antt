-- ===== src/Ledger/Claim/Idle.antt =====
-- A claim that finds nothing.
use signal_plane.Base.{
  String, ℕ, ◌≤◌, ◌⊎◌, true, some, exists, exists-mem, ◌==◌, ==→eq, ◌≡◌, ap, subst, ◌∙◌, Bool,
  false, List, [], ◌∷◌, none, ok, arith, Memᴰ, select, first_by, Bool-cases, Option-cases, inl, inr,
}
use signal_plane.Ledger.Model.{WorkItem, admitted, waiting, millis}
use signal_plane.Ledger.Store.{Db, Lease}
use signal_plane.Ledger.Claim.{
  earlier, is_ready, is_claimable, candidate, expire, claim_recovered, claim_new, claim_item,
  claim_at, claim,
}

-- When no row is the first, none was selected.
nothing_selected :
    (p : WorkItem → Bool) (rows : List WorkItem) (i : WorkItem)
    → first_by earlier (select p rows) ≡ none
    → Memᴰ i rows
    → p i ≡ false
unfolding first_by select
nothing_selected p [] i h m = elim m [ ]
nothing_selected p (row ∷ rest) i h m = elim (Bool-cases (p row)) [
  | inl t ↦ absurd (ground (arith, t, h))
  | inr f ↦ elim m [
    | Memᴰ.head e ↦ ap p e ∙ f
    | Memᴰ.tail n ↦ nothing_selected p rest i (ground (arith, f, h)) n
  ]
]

item_claimed :
    (fresh : String) (item : WorkItem) (now : ℕ) (db db' : Db)
    → claim_item fresh item now db ≡ ok (none, db')
    → ⊥
unfolding claim_item claim_recovered claim_new
item_claimed fresh item now db db' h = ground (arith, h)

idle_at :
    (fresh : String) (now : ℕ) (db db' : Db) (i : WorkItem)
    → claim_at fresh now db ≡ ok (none, db')
    → Memᴰ i db'.items
    → is_claimable now db'.leases i ≡ false
unfolding claim_at candidate
idle_at fresh now db db' i h m = elim (Option-cases (candidate now db)) [
  | inl nobody ↦
      let same : db ≡ db' = ground (arith, nobody, h) in
      subst (λ (z : Db). Memᴰ i z.items → is_claimable now z.leases i ≡ false) same
        (nothing_selected (is_claimable now db.leases) db.items i nobody) m
  | inr (item, found) ↦ absurd (item_claimed fresh item now db db' (ground (arith, found, h)))
]

-- A claim returns no work only when there is none: in the ledger that it leaves, each item that is
-- admitted or waiting and whose next attempt is due has its serialization key held by a lease.
pub claim_idle :
    (fresh : String) (now : ℕ) (db db' : Db) (i : WorkItem) (t : ℕ)
    → claim fresh now db ≡ ok (none, db')
    → Memᴰ i db'.items
    → (i.state ≡ admitted) ⊎ (i.state ≡ waiting)
    → i.next_attempt_at ≡ some t
    → t ≤ millis now
    → (l : Lease) × Memᴰ l db'.leases × (l.serialization_key ≡ i.serialization_key)
unfolding claim
claim_idle fresh now db db' i t h m state due past =
    let free : is_claimable (millis now) db'.leases i ≡ false =
      idle_at fresh (millis now) (expire (millis now) db) db' i h m in
    let ready : is_ready i.state ≡ true = elim state [
      | inl e ↦ ap is_ready e
      | inr e ↦ ap is_ready e
    ] in
    let held : exists (λ (l : Lease). l.serialization_key == i.serialization_key) db'.leases
        ≡ true =
      ground (arith, free, ready, due, past) in
    let (l, n, q) =
      exists-mem (λ (l : Lease). l.serialization_key == i.serialization_key) db'.leases held in
    (l, n, ==→eq l.serialization_key i.serialization_key q)
