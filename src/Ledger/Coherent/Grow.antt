-- ===== src/Ledger/Coherent/Grow.antt =====
-- A new admitted item, and an item that becomes active under a new lease, keep the tables coherent.
use signal_plane.Base.{
  String, ◌≡◌, ◌≢◌, refl, sym, ap, ◌∙◌, inl, inr, List, ◌∷◌, Memᴰ, none, eq-cases,
}
use signal_plane.Base.Relation.{IsKeyed, Put, Put-insert}
use signal_plane.Ledger.Model.{WorkItem, ExecutorAttempt, active, admitted, waiting, running}
use signal_plane.Ledger.Store.{Lease}
use signal_plane.Ledger.Coherent.{Coherent, item_id, attempt_id, lease_key, IsLeaseOf, Backs}

IsKeyed-Put {ℓ} :
    {A : Type ℓ} (key : A → String) (x₀ : A) {xs ys : List A}
    → IsKeyed key xs
    → Put key x₀ xs ys
    → IsKeyed key ys
IsKeyed-Put key x₀ keyed p x y m n e = elim (p.source x m) [
  | inl a ↦ elim (p.source y n) [ inl b ↦ a ∙ sym b | inr (_, ne) ↦ absurd (ne (sym e ∙ ap key a)) ]
  | inr (mx, ne) ↦ elim (p.source y n) [
    | inl b ↦ absurd (ne (e ∙ ap key b))
    | inr (my, _) ↦ keyed x y mx my e
  ]
]

-- The facts of one claim: `i₀` becomes `j₀` under the lease `l₀` of the attempt `a₀`.
pub record IsGrant (items : List WorkItem) (attempts : List ExecutorAttempt) (leases : List Lease)
    (i₀ j₀ : WorkItem) (a₀ : ExecutorAttempt) (l₀ : Lease) : Type 0 where
  pub present : Memᴰ i₀ items
  pub idle : i₀.state ≢ active
  pub same_id : j₀.id ≡ i₀.id
  pub same_key : j₀.serialization_key ≡ i₀.serialization_key
  pub activated : j₀.state ≡ active
  pub works_on : a₀.work_item_id ≡ i₀.id
  pub runs : a₀.state ≡ running
  pub lease_item : l₀.work_item_id ≡ i₀.id
  pub lease_serial : l₀.serialization_key ≡ i₀.serialization_key
  pub lease_attempt : l₀.attempt_id ≡ a₀.id
  pub free_key : (l : Lease) → Memᴰ l leases → l.serialization_key ≢ l₀.serialization_key
  pub free_attempt : (l : Lease) → Memᴰ l leases → l.attempt_id ≢ a₀.id

module _ {items items' : List WorkItem} {attempts attempts' : List ExecutorAttempt}
    {leases : List Lease} {i₀ j₀ : WorkItem} {a₀ : ExecutorAttempt} {l₀ : Lease}
    (v : Coherent items attempts leases) (c : IsGrant items attempts leases i₀ j₀ a₀ l₀)
    (pi : Put item_id j₀ items items') (pa : Put attempt_id a₀ attempts attempts') where
  grow_leased :
      (x : WorkItem)
      → Memᴰ x items'
      → x.state ≡ active
      → (l : Lease) × Memᴰ l (l₀ ∷ leases) × IsLeaseOf l x
  grow_leased x m s = elim (pi.source x m) [
    | inl e ↦ (
      l₀,
      Memᴰ.head refl,
      (
        c.lease_item ∙ sym c.same_id ∙ sym (ap item_id e),
        c.lease_serial ∙ sym c.same_key ∙ sym (ap (λ z. z.serialization_key) e),
      ),
    )
    | inr (mx, _) ↦ let (l, ml, of) = v.leased x mx s in (l, Memᴰ.tail ml, of)
  ]

  grow_lease_active :
      (l : Lease) (x : WorkItem)
      → Memᴰ l (l₀ ∷ leases)
      → Memᴰ x items'
      → x.id ≡ l.work_item_id
      → (x.state ≡ active) × (l.serialization_key ≡ x.serialization_key)
  grow_lease_active l x (Memᴰ.head e) m q = elim (pi.source x m) [
    | inl p ↦ (
      ap (λ z. z.state) p ∙ c.activated,
      ap lease_key e ∙ c.lease_serial ∙ sym c.same_key ∙ sym (ap (λ z. z.serialization_key) p),
    )
    | inr (_, ne) ↦ absurd (ne (q ∙ ap (λ z. z.work_item_id) e ∙ c.lease_item ∙ sym c.same_id))
  ]
  grow_lease_active l x (Memᴰ.tail ml) m q = elim (pi.source x m) [
    | inl p ↦
        absurd
          (c.idle (v.lease_active l i₀ ml c.present (sym c.same_id ∙ sym (ap item_id p) ∙ q)).0)
    | inr (mx, _) ↦ v.lease_active l x ml mx q
  ]

  grow_lease_backed :
      (l : Lease) → Memᴰ l (l₀ ∷ leases) → (a : ExecutorAttempt) × Memᴰ a attempts' × Backs a l
  grow_lease_backed l (Memᴰ.head e) = (
    a₀,
    pa.here,
    (
      sym c.lease_attempt ∙ sym (ap (λ z. z.attempt_id) e),
      c.works_on ∙ sym c.lease_item ∙ sym (ap (λ z. z.work_item_id) e),
      c.runs,
    ),
  )
  grow_lease_backed l (Memᴰ.tail ml) =
      let (a, ma, b) = v.lease_backed l ml in
      (a, pa.target a ma (λ q. c.free_attempt l ml (sym b.0 ∙ q)), b)

  grow_running_leased :
      (a : ExecutorAttempt)
      → Memᴰ a attempts'
      → a.state ≡ running
      → (l : Lease) × Memᴰ l (l₀ ∷ leases) × (l.attempt_id ≡ a.id)
  grow_running_leased a m s = elim (pa.source a m) [
    | inl e ↦ (l₀, Memᴰ.head refl, c.lease_attempt ∙ sym (ap attempt_id e))
    | inr (ma, _) ↦ let (l, ml, q) = v.running_leased a ma s in (l, Memᴰ.tail ml, q)
  ]

  grow_attempt_items :
      (a : ExecutorAttempt)
      → Memᴰ a attempts'
      → (i : WorkItem) × Memᴰ i items' × (i.id ≡ a.work_item_id)
  grow_attempt_items a m = elim (pa.source a m) [
    | inl e ↦ (j₀, pi.here, c.same_id ∙ sym c.works_on ∙ sym (ap (λ z. z.work_item_id) e))
    | inr (ma, _) ↦
        let (i, mi, q) = v.attempt_items a ma in
        elim (eq-cases i.id j₀.id) [
          | inl same ↦ (j₀, pi.here, sym same ∙ q)
          | inr other ↦ (i, pi.target i mi other, q)
        ]
  ]

  grow_admitted_fresh :
      (x : WorkItem) (a : ExecutorAttempt)
      → Memᴰ x items'
      → Memᴰ a attempts'
      → a.work_item_id ≡ x.id
      → x.state ≢ admitted
  grow_admitted_fresh x a m n q s = elim (pi.source x m) [
    | inl e ↦ let t : active ≡ admitted = sym c.activated ∙ sym (ap (λ z. z.state) e) ∙ s in cc
    | inr (mx, ne) ↦ elim (pa.source a n) [
      | inl e ↦ ne (sym q ∙ ap (λ z. z.work_item_id) e ∙ c.works_on ∙ sym c.same_id)
      | inr (ma, _) ↦ v.admitted_fresh x a mx ma q s
    ]
  ]

  pub Coherent-grow : Coherent items' attempts' (l₀ ∷ leases)
  Coherent-grow = record {
    item_ids = IsKeyed-Put item_id j₀ v.item_ids pi;
    attempt_ids = IsKeyed-Put attempt_id a₀ v.attempt_ids pa;
    lease_keys = IsKeyed-Put lease_key l₀ v.lease_keys (Put-insert lease_key l₀ leases c.free_key);
    leased = grow_leased;
    lease_active = grow_lease_active;
    lease_backed = grow_lease_backed;
    running_leased = grow_running_leased;
    attempt_items = grow_attempt_items;
    admitted_fresh = grow_admitted_fresh;
    waiting_scheduled = λ x m s. elim (pi.source x m) [
      | inl e ↦
          let t : active ≡ waiting = sym c.activated ∙ sym (ap (λ z. z.state) e) ∙ s in absurd (cc)
      | inr (mx, _) ↦ v.waiting_scheduled x mx s
    ];
  }

module _ {items : List WorkItem} {attempts : List ExecutorAttempt} {leases : List Lease}
    (v : Coherent items attempts leases) (i₀ : WorkItem)
    (fresh : (i : WorkItem) → Memᴰ i items → i.id ≢ i₀.id) (new : i₀.state ≡ admitted) where
  no_attempt : (a : ExecutorAttempt) → Memᴰ a attempts → a.work_item_id ≢ i₀.id
  no_attempt a m q = let (i, mi, e) = v.attempt_items a m in fresh i mi (e ∙ q)

  no_lease : (l : Lease) → Memᴰ l leases → l.work_item_id ≢ i₀.id
  no_lease l m q = let (a, ma, b) = v.lease_backed l m in no_attempt a ma (b.1 ∙ q)

  insert_leased :
      (x : WorkItem)
      → Memᴰ x (i₀ ∷ items)
      → x.state ≡ active
      → (l : Lease) × Memᴰ l leases × IsLeaseOf l x
  insert_leased x (Memᴰ.head e) s =
      let t : admitted ≡ active = sym new ∙ sym (ap (λ z. z.state) e) ∙ s in absurd (cc)
  insert_leased x (Memᴰ.tail m) s = v.leased x m s

  insert_lease_active :
      (l : Lease) (x : WorkItem)
      → Memᴰ l leases
      → Memᴰ x (i₀ ∷ items)
      → x.id ≡ l.work_item_id
      → (x.state ≡ active) × (l.serialization_key ≡ x.serialization_key)
  insert_lease_active l x ml (Memᴰ.head e) q = absurd (no_lease l ml (sym q ∙ ap item_id e))
  insert_lease_active l x ml (Memᴰ.tail m) q = v.lease_active l x ml m q

  insert_admitted_fresh :
      (x : WorkItem) (a : ExecutorAttempt)
      → Memᴰ x (i₀ ∷ items)
      → Memᴰ a attempts
      → a.work_item_id ≡ x.id
      → x.state ≢ admitted
  insert_admitted_fresh x a (Memᴰ.head e) n q s = no_attempt a n (q ∙ ap item_id e)
  insert_admitted_fresh x a (Memᴰ.tail m) n q s = v.admitted_fresh x a m n q s

  insert_waiting_scheduled :
      (x : WorkItem) → Memᴰ x (i₀ ∷ items) → x.state ≡ waiting → x.next_attempt_at ≢ none
  insert_waiting_scheduled x (Memᴰ.head e) s =
      let t : admitted ≡ waiting = sym new ∙ sym (ap (λ z. z.state) e) ∙ s in absurd (cc)
  insert_waiting_scheduled x (Memᴰ.tail m) s = v.waiting_scheduled x m s

  pub Coherent-insert : Coherent (i₀ ∷ items) attempts leases
  Coherent-insert = record {
    item_ids = IsKeyed-Put item_id i₀ v.item_ids (Put-insert item_id i₀ items fresh);
    attempt_ids = v.attempt_ids;
    lease_keys = v.lease_keys;
    leased = insert_leased;
    lease_active = insert_lease_active;
    lease_backed = v.lease_backed;
    running_leased = v.running_leased;
    attempt_items = λ a m. let (i, mi, e) = v.attempt_items a m in (i, Memᴰ.tail mi, e);
    admitted_fresh = insert_admitted_fresh;
    waiting_scheduled = insert_waiting_scheduled;
  }
