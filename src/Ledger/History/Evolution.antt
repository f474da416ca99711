-- ===== src/Ledger/History/Evolution.antt =====
-- How one work item's row may change, whatever is called.
use signal_plane.Base.{
  ◌≤◌, ◌≡◌, refl, sym, ap, subst, ◌∙◌, inl, inr, Bool, true, false, List, Memᴰ, arith, Bool-cases,
  update, update-mem,
}
use signal_plane.Base.Relation.{when}
use signal_plane.Ledger.Model.{WorkItem}
use signal_plane.Ledger.Store.{is_open}

-- The identity stays, the version never falls, and a terminal state is for good.
pub record Evolves (i j : WorkItem) : Type 0 where
  pub same_id : j.id ≡ i.id
  pub same_route : j.route_snapshot_id ≡ i.route_snapshot_id
  pub same_object : j.semantic_object_key ≡ i.semantic_object_key
  pub same_revision : j.source_revision ≡ i.source_revision
  pub same_key : j.serialization_key ≡ i.serialization_key
  pub version : i.state_version ≤ j.state_version
  pub absorbing :
      is_open i.state ≡ false
      → (j.state ≡ i.state)
        × (j.terminal_at ≡ i.terminal_at)
        × (j.next_attempt_at ≡ i.next_attempt_at)

pub Evolves-refl : (i : WorkItem) → Evolves i i
Evolves-refl i = record {
  same_id = refl;
  same_route = refl;
  same_object = refl;
  same_revision = refl;
  same_key = refl;
  version = omega arith;
  absorbing = λ h. (refl, refl, refl);
}

pub Evolves-trans : {i j k : WorkItem} → Evolves i j → Evolves j k → Evolves i k
Evolves-trans {i} {j} {k} a b = record {
  same_id = b.same_id ∙ a.same_id;
  same_route = b.same_route ∙ a.same_route;
  same_object = b.same_object ∙ a.same_object;
  same_revision = b.same_revision ∙ a.same_revision;
  same_key = b.same_key ∙ a.same_key;
  version = omega (arith, a.version, b.version);
  absorbing = λ h.
      let (s, t, n) = a.absorbing h in
      let (s', t', n') = b.absorbing (ap is_open s ∙ h) in (s' ∙ s, t' ∙ t, n' ∙ n);
}

-- Every row of `xs` is found in `ys`, evolved.
abbrev pub AllEvolve : List WorkItem → List WorkItem → Type 0
AllEvolve xs ys = (i : WorkItem) → Memᴰ i xs → (j : WorkItem) × Memᴰ j ys × Evolves i j

pub AllEvolve-refl : (xs : List WorkItem) → AllEvolve xs xs
AllEvolve-refl xs i m = (i, m, Evolves-refl i)

pub AllEvolve-trans :
    {xs ys zs : List WorkItem} → AllEvolve xs ys → AllEvolve ys zs → AllEvolve xs zs
AllEvolve-trans f g i m =
    let (j, mj, a) = f i m in let (k, mk, b) = g j mj in (k, mk, Evolves-trans a b)

pub AllEvolve-eq : {xs ys : List WorkItem} → ys ≡ xs → AllEvolve xs ys
AllEvolve-eq {xs} e = subst (AllEvolve xs) (sym e) (AllEvolve-refl xs)

pub AllEvolve-update :
    (p : WorkItem → Bool) (f : WorkItem → WorkItem) (xs : List WorkItem)
    → ((i : WorkItem) → p i ≡ true → Evolves i (f i))
    → AllEvolve xs (update p f xs)
AllEvolve-update p f xs h i m = (when p f i, update-mem p f xs i m, step)
  where
    step : Evolves i (when p f i)
    step = elim (Bool-cases (p i)) [ inl t ↦ rw t (h i t) | inr u ↦ rw u (Evolves-refl i) ]
