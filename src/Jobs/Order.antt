-- ===== src/Jobs/Order.antt =====
-- The order in which jobs are claimed.
use signal_plane.Base.{
  ℕ, ◌≤◌, Bool, true, false, ◌≡◌, inl, inr, refl, sym, ap, subst, ◌∙◌, List, [], ◌∷◌, Memᴰ, arith,
  Bool-cases, Option-cases, some, best, first_by, first_by-mem, select, select-mem,
}
use signal_plane.Ledger.Model.{millis}
use signal_plane.Jobs.{JobRow}
use signal_plane.Jobs.Tables.{Db}
use signal_plane.Jobs.Lifecycle.{
  Work, is_claimable_job, is_earlier, oldest_job, claim_due, claim_found, claim_job,
}

module _ {ℓ} {A : Type ℓ} (before : A → A → Bool)
    (asym : (a b : A) → before a b ≡ true → before b a ≡ false)
    (trans : (a b c : A) → before a b ≡ false → before b c ≡ false → before a c ≡ false)
    (irrefl : (a : A) → before a a ≡ false) where
  least_step :
      (x z b y : A) (zs : List A)
      → before z x ≡ true
      → ((w : A) → Memᴰ w (z ∷ zs) → before w b ≡ false)
      → Memᴰ y (x ∷ z ∷ zs)
      → before y b ≡ false
  least_step x z b y zs t rest (Memᴰ.head e) =
      rw e (trans x z b (asym z x t) (rest z (Memᴰ.head refl)))
  least_step x z b y zs t rest (Memᴰ.tail n) = rest y n

  least_skip :
      (x z b y : A) (zs : List A)
      → before z x ≡ false
      → ((w : A) → Memᴰ w (x ∷ zs) → before w b ≡ false)
      → Memᴰ y (x ∷ z ∷ zs)
      → before y b ≡ false
  least_skip x z b y zs u rest (Memᴰ.head e) = rest y (Memᴰ.head e)
  least_skip x z b y zs u rest (Memᴰ.tail (Memᴰ.head e)) =
      rw e (trans z x b u (rest x (Memᴰ.head refl)))
  least_skip x z b y zs u rest (Memᴰ.tail (Memᴰ.tail n)) = rest y (Memᴰ.tail n)

  -- No row comes before the one that is chosen.
  best-least : (x : A) (xs : List A) (y : A) → Memᴰ y (x ∷ xs) → before y (best before x xs) ≡ false
  unfolding best
  best-least x [] y (Memᴰ.head e) = rw e (irrefl x)
  best-least x [] y (Memᴰ.tail m) = elim m [ ]
  best-least x (z ∷ zs) y m = elim (Bool-cases (before z x)) [
    | inl t ↦ rw (best, t) (least_step x z (best before z zs) y zs t (λ w. best-least z zs w) m)
    | inr u ↦ rw (best, u) (least_skip x z (best before x zs) y zs u (λ w. best-least x zs w) m)
  ]

  first_by-least :
      (xs : List A) (b y : A) → first_by before xs ≡ some b → Memᴰ y xs → before y b ≡ false
  unfolding first_by
  first_by-least [] b y e m = elim m [ ]
  first_by-least (x ∷ xs) b y e m =
      let same : best before x xs ≡ b = ground (arith, e) in
      subst (λ c. before y c ≡ false) same (best-least x xs y m)

select_mem {ℓ} :
    {A : Type ℓ} (p : A → Bool) (xs : List A) (x : A)
    → Memᴰ x xs
    → p x ≡ true
    → Memᴰ x (select p xs)
unfolding select
select_mem p [] x m t = elim m [ ]
select_mem p (y ∷ ys) x (Memᴰ.head e) t = rw (select, ap p (sym e) ∙ t) (Memᴰ.head e)
select_mem p (y ∷ ys) x (Memᴰ.tail m) t = elim (Bool-cases (p y)) [
  | inl h ↦ rw (select, h) (Memᴰ.tail (select_mem p ys x m t))
  | inr u ↦ rw (select, u) (select_mem p ys x m t)
]

-- The job that is worked on, and what a claim writes to it.
pub record IsOldest (now : ℕ) (db : Db) (work : Work) : Type 0 where
  pub job : JobRow
  pub there : Memᴰ job db.jobs
  pub claimable : is_claimable_job db.results job ≡ true
  pub due : job.due_at ≤ millis now
  pub same : work.job.id ≡ job.id
  pub least :
      (other : JobRow)
      → Memᴰ other db.jobs
      → is_claimable_job db.results other ≡ true
      → is_earlier other job ≡ false

claimed_id :
    (now : ℕ) (job : JobRow) (db : Db) (work : Work)
    → (claim_found now db (some job)).0 ≡ some work
    → (work.job.id ≡ job.id) × (job.due_at ≤ millis now)
unfolding claim_found claim_job
claimed_id now job db work e = ground (arith, e)

oldest_job-claimable :
    (db : Db) (job : JobRow)
    → oldest_job db ≡ some job
    → Memᴰ job db.jobs × (is_claimable_job db.results job ≡ true)
unfolding oldest_job
oldest_job-claimable db job e =
    select-mem (is_claimable_job db.results) db.jobs job
      (first_by-mem is_earlier (select (is_claimable_job db.results) db.jobs) job e)

-- The work that a claim returns is on a job that is due and that no other job which could be claimed
-- precedes in the order of creation: an older job that is not due blocks the later ones.
pub claim_due-IsOldest :
    (now : ℕ) (db : Db) (work : Work) → (claim_due now db).0 ≡ some work → IsOldest now db work
unfolding claim_due claim_found oldest_job
claim_due-IsOldest now db work e = elim (Option-cases (oldest_job db)) [
  | inl idle ↦ absurd (ground (arith, e, idle))
  | inr (job, found) ↦
      let here : (claim_found now db (some job)).0 ≡ some work = ground (arith, e, found) in
      let (same, due) = claimed_id now job db work here in
      let (m, t) = oldest_job-claimable db job found in
      record {
        job = job;
        there = m;
        claimable = t;
        due = due;
        same = same;
        least = λ other n u.
            first_by-least is_earlier (λ a b h. ground (arith, h))
              (λ a b c h k. ground (arith, h, k)) (λ a. ground arith)
              (select (is_claimable_job db.results) db.jobs) job other found
              (select_mem (is_claimable_job db.results) db.jobs other n u);
      }
]
