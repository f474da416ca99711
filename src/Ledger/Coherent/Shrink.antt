-- ===== src/Ledger/Coherent/Shrink.antt =====
-- A statement that changes rows in place and takes leases away keeps the tables coherent.
use signal_plane.Base.{◌≡◌, ◌≢◌, sym, ap, subst, ◌∙◌, List, Memᴰ, none}
use signal_plane.Base.Relation.{IsKeyed, Image}
use signal_plane.Ledger.Model.{WorkItem, ExecutorAttempt, active, admitted, waiting, running}
use signal_plane.Ledger.Store.{Lease}
use signal_plane.Ledger.Coherent.{Coherent, item_id, attempt_id, IsLeaseOf, Backs}

-- `j` is `i` after the change; the change activates nothing.
pub record KeepsItem (i j : WorkItem) : Type 0 where
  pub same_id : j.id ≡ i.id
  pub same_key : j.serialization_key ≡ i.serialization_key
  pub active_before : j.state ≡ active → i.state ≡ active
  pub admitted_before : j.state ≡ admitted → i.state ≡ admitted
  pub scheduled : j.state ≡ waiting → j.next_attempt_at ≢ none

pub record KeepsAttempt (a b : ExecutorAttempt) : Type 0 where
  pub same_id : b.id ≡ a.id
  pub same_item : b.work_item_id ≡ a.work_item_id
  pub running_before : b.state ≡ running → a.state ≡ running

-- Which leases may stay: those of the items that stay active and of the attempts that go on running,
-- and of no other.
pub record KeepsLeases (items : List WorkItem) (attempts : List ExecutorAttempt)
    (leases leases' : List Lease) (g : WorkItem → WorkItem) (h : ExecutorAttempt → ExecutorAttempt)
    : Type 0 where
  pub old : (l : Lease) → Memᴰ l leases' → Memᴰ l leases
  pub held :
      (l : Lease) (i : WorkItem)
      → Memᴰ l leases
      → Memᴰ i items
      → i.id ≡ l.work_item_id
      → (g i).state ≡ active
      → Memᴰ l leases'
  pub of_active :
      (l : Lease) (i : WorkItem)
      → Memᴰ l leases'
      → Memᴰ i items
      → i.id ≡ l.work_item_id
      → (g i).state ≡ active
  pub of_running :
      (l : Lease) (a : ExecutorAttempt)
      → Memᴰ l leases'
      → Memᴰ a attempts
      → a.id ≡ l.attempt_id
      → (h a).state ≡ running
  pub kept :
      (l : Lease) (a : ExecutorAttempt)
      → Memᴰ l leases
      → Memᴰ a attempts
      → a.id ≡ l.attempt_id
      → (h a).state ≡ running
      → Memᴰ l leases'

module _ {items items' : List WorkItem} {attempts attempts' : List ExecutorAttempt}
    {leases leases' : List Lease} {g : WorkItem → WorkItem} {h : ExecutorAttempt → ExecutorAttempt}
    (v : Coherent items attempts leases) (gi : Image g items items')
    (hi : Image h attempts attempts') (ki : (i : WorkItem) → Memᴰ i items → KeepsItem i (g i))
    (ka : (a : ExecutorAttempt) → Memᴰ a attempts → KeepsAttempt a (h a))
    (kl : KeepsLeases items attempts leases leases' g h) where
  shrink_item_ids : IsKeyed item_id items'
  shrink_item_ids x y m n e =
      let (i, mi, p) = gi.source x m in
      let (j, mj, q) = gi.source y n in
      let ids : i.id ≡ j.id =
        sym (ki i mi).same_id ∙ sym (ap item_id p) ∙ e ∙ ap item_id q ∙ (ki j mj).same_id in
      p ∙ ap g (v.item_ids i j mi mj ids) ∙ sym q

  shrink_attempt_ids : IsKeyed attempt_id attempts'
  shrink_attempt_ids x y m n e =
      let (a, ma, p) = hi.source x m in
      let (b, mb, q) = hi.source y n in
      let ids : a.id ≡ b.id =
        sym (ka a ma).same_id ∙ sym (ap attempt_id p) ∙ e ∙ ap attempt_id q ∙ (ka b mb).same_id in
      p ∙ ap h (v.attempt_ids a b ma mb ids) ∙ sym q

  shrink_leased :
      (x : WorkItem)
      → Memᴰ x items'
      → x.state ≡ active
      → (l : Lease) × Memᴰ l leases' × IsLeaseOf l x
  shrink_leased x m s =
      let (i, mi, p) = gi.source x m in
      let s' : (g i).state ≡ active = subst (λ z. z.state ≡ active) p s in
      let (l, ml, (same, key)) = v.leased i mi ((ki i mi).active_before s') in
      (
        l,
        kl.held l i ml mi (sym same) s',
        (
          same ∙ sym (ki i mi).same_id ∙ sym (ap item_id p),
          key ∙ sym (ki i mi).same_key ∙ sym (ap (λ z. z.serialization_key) p),
        ),
      )

  shrink_lease_active :
      (l : Lease) (x : WorkItem)
      → Memᴰ l leases'
      → Memᴰ x items'
      → x.id ≡ l.work_item_id
      → (x.state ≡ active) × (l.serialization_key ≡ x.serialization_key)
  shrink_lease_active l x ml m e =
      let (i, mi, p) = gi.source x m in
      let e' : i.id ≡ l.work_item_id = sym (ki i mi).same_id ∙ sym (ap item_id p) ∙ e in
      let key = (v.lease_active l i (kl.old l ml) mi e').1 in
      (
        ap (λ z. z.state) p ∙ kl.of_active l i ml mi e',
        key ∙ sym (ki i mi).same_key ∙ sym (ap (λ z. z.serialization_key) p),
      )

  shrink_lease_backed :
      (l : Lease) → Memᴰ l leases' → (b : ExecutorAttempt) × Memᴰ b attempts' × Backs b l
  shrink_lease_backed l ml =
      let (a, ma, (same, work, _)) = v.lease_backed l (kl.old l ml) in
      (
        h a,
        hi.target a ma,
        ((ka a ma).same_id ∙ same, (ka a ma).same_item ∙ work, kl.of_running l a ml ma same),
      )

  shrink_running_leased :
      (b : ExecutorAttempt)
      → Memᴰ b attempts'
      → b.state ≡ running
      → (l : Lease) × Memᴰ l leases' × (l.attempt_id ≡ b.id)
  shrink_running_leased b m s =
      let (a, ma, p) = hi.source b m in
      let s' : (h a).state ≡ running = subst (λ z. z.state ≡ running) p s in
      let (l, ml, e) = v.running_leased a ma ((ka a ma).running_before s') in
      (l, kl.kept l a ml ma (sym e) s', e ∙ sym (ka a ma).same_id ∙ sym (ap attempt_id p))

  shrink_attempt_items :
      (b : ExecutorAttempt)
      → Memᴰ b attempts'
      → (i : WorkItem) × Memᴰ i items' × (i.id ≡ b.work_item_id)
  shrink_attempt_items b m =
      let (a, ma, p) = hi.source b m in
      let (i, mi, e) = v.attempt_items a ma in
      (
        g i,
        gi.target i mi,
        (ki i mi).same_id ∙ e ∙ sym (ka a ma).same_item ∙ sym (ap (λ z. z.work_item_id) p),
      )

  shrink_admitted_fresh :
      (x : WorkItem) (b : ExecutorAttempt)
      → Memᴰ x items'
      → Memᴰ b attempts'
      → b.work_item_id ≡ x.id
      → x.state ≢ admitted
  shrink_admitted_fresh x b m n e s =
      let (i, mi, p) = gi.source x m in
      let (a, ma, q) = hi.source b n in
      let e' : a.work_item_id ≡ i.id =
        sym (ka a ma).same_item
        ∙ sym (ap (λ z. z.work_item_id) q)
        ∙ e
        ∙ ap item_id p
        ∙ (ki i mi).same_id in
      v.admitted_fresh i a mi ma e'
        ((ki i mi).admitted_before (subst (λ z. z.state ≡ admitted) p s))

  pub Coherent-shrink : Coherent items' attempts' leases'
  Coherent-shrink = record {
    item_ids = shrink_item_ids;
    attempt_ids = shrink_attempt_ids;
    lease_keys = λ l m ml mm e. v.lease_keys l m (kl.old l ml) (kl.old m mm) e;
    leased = shrink_leased;
    lease_active = shrink_lease_active;
    lease_backed = shrink_lease_backed;
    running_leased = shrink_running_leased;
    attempt_items = shrink_attempt_items;
    admitted_fresh = shrink_admitted_fresh;
    waiting_scheduled = λ x m s.
        let (i, mi, p) = gi.source x m in
        subst (λ z. z.next_attempt_at ≢ none) (sym p)
          ((ki i mi).scheduled (subst (λ z. z.state ≡ waiting) p s));
  }
