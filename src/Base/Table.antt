-- ===== src/Base/Table.antt =====
-- Tables of the database as lists of rows, with the row operations of the SQL statements.
use Prim.Native.Nat.{ℕ, suc, ◌+◌, ◌≤◌}
use mathlib.Core.Path.{◌≡◌, refl, sym, ap, subst, ◌∙◌}
use mathlib.Core.Logic.{inl, inr}
use mathlib.Core.Bool.{Bool, true, false, ◌||◌}
use mathlib.Core.Option.{Option, none, some}
use mathlib.Core.List.{List, [], ◌∷◌, Memᴰ}
use native.Mathlib.Omega.{arith}
use signal_plane.Base.Tests.{if◌then◌else◌, Bool-cases, Option-cases}

module _ {ℓ} {A : Type ℓ} where
  abbrev pub length : List A → ℕ
  length [] = 0
  length (x ∷ xs) = suc (length xs)

  abbrev pub get_elem? : List A → ℕ → Option A
  get_elem? [] i = none
  get_elem? (x ∷ xs) ℕ.zero = some x
  get_elem? (x ∷ xs) (suc i) = get_elem? xs i

  -- UPDATE … WHERE p
  unfoldable pub update : (A → Bool) → (A → A) → List A → List A
  update p f [] = []
  update p f (x ∷ xs) = (if p x then f x else x) ∷ update p f xs

  -- DELETE … WHERE p
  unfoldable pub delete : (A → Bool) → List A → List A
  delete p [] = []
  delete p (x ∷ xs) = if p x then delete p xs else x ∷ delete p xs

  -- SELECT … WHERE p, all rows
  unfoldable pub select : (A → Bool) → List A → List A
  select p [] = []
  select p (x ∷ xs) = if p x then x ∷ select p xs else select p xs

  -- SELECT … WHERE p, the first row
  unfoldable pub find : (A → Bool) → List A → Option A
  find p [] = none
  find p (x ∷ xs) = if p x then some x else find p xs

  -- EXISTS (SELECT … WHERE p)
  unfoldable pub exists : (A → Bool) → List A → Bool
  exists p [] = false
  exists p (x ∷ xs) = p x || exists p xs

  -- SELECT count(*) … WHERE p
  unfoldable pub count : (A → Bool) → List A → ℕ
  count p [] = 0
  count p (x ∷ xs) = (if p x then 1 else 0) + count p xs

  -- ORDER BY … LIMIT 1: the first row that no later row comes before.
  unfoldable pub best : (A → A → Bool) → A → List A → A
  best before x [] = x
  best before x (y ∷ ys) = best before (if before y x then y else x) ys

  unfoldable pub first_by : (A → A → Bool) → List A → Option A
  unfolding best
  first_by before [] = none
  first_by before (x ∷ xs) = some (best before x xs)

module _ {ℓ} {A : Type ℓ} where
  pub find-mem :
      (p : A → Bool) (xs : List A) (x : A) → find p xs ≡ some x → Memᴰ x xs × (p x ≡ true)
  unfolding find
  find-mem p [] x h = cc
  find-mem p (y ∷ ys) x h = elim (Bool-cases (p y)) [
    | inl t ↦
        let e : y ≡ x = ground (arith, h, t) in (Memᴰ.head (sym e), subst (λ z. p z ≡ true) e t)
    | inr f ↦
        let e : find p ys ≡ some x = ground (arith, h, f) in
        (Memᴰ.tail (find-mem p ys x e).0, (find-mem p ys x e).1)
  ]

  pub find-none-false :
      (p : A → Bool) (xs : List A) (x : A) → find p xs ≡ none → Memᴰ x xs → p x ≡ false
  unfolding find
  find-none-false p [] x h m = elim m [ ]
  find-none-false p (y ∷ ys) x h (Memᴰ.head e) = elim (Bool-cases (p y)) [
    | inl t ↦ ground (arith, h, t)
    | inr f ↦ rw e f
  ]
  find-none-false p (y ∷ ys) x h (Memᴰ.tail m) =
      find-none-false p ys x
        (elim (Bool-cases (p y)) [ inl t ↦ ground (arith, h, t) | inr f ↦ ground (arith, h, f) ]) m

  pub find_of_mem :
      (p : A → Bool) (xs : List A) (x : A) → Memᴰ x xs → p x ≡ true → (y : A) × (find p xs ≡ some y)
  find_of_mem p xs x m t = elim (Option-cases (find p xs)) [
    | inl e ↦ absurd (ground (arith, find-none-false p xs x e m, t))
    | inr (y, e) ↦ (y, e)
  ]

  pub exists_of_mem :
      (p : A → Bool) (xs : List A) (x : A) → Memᴰ x xs → p x ≡ true → exists p xs ≡ true
  unfolding exists
  exists_of_mem p [] x m t = elim m [ ]
  exists_of_mem p (y ∷ ys) x (Memᴰ.head e) t = rw (← e, t) refl
  exists_of_mem p (y ∷ ys) x (Memᴰ.tail m) t = ground (arith, exists_of_mem p ys x m t)

  pub exists-mem :
      (p : A → Bool) (xs : List A) → exists p xs ≡ true → (x : A) × Memᴰ x xs × (p x ≡ true)
  unfolding exists
  exists-mem p [] h = cc
  exists-mem p (y ∷ ys) h = elim (Bool-cases (p y)) [
    | inl t ↦ (y, Memᴰ.head refl, t)
    | inr f ↦ let (x, m, t) = exists-mem p ys (ground (arith, h, f)) in (x, Memᴰ.tail m, t)
  ]

  pub exists_false :
      (p : A → Bool) (xs : List A) (x : A) → exists p xs ≡ false → Memᴰ x xs → p x ≡ false
  exists_false p xs x h m = elim (Bool-cases (p x)) [
    | inl t ↦ ground (arith, exists_of_mem p xs x m t, h)
    | inr f ↦ f
  ]

  -- A row that meets the condition is not there.
  pub unlisted :
      (p : A → Bool) (xs : List A) (x : A) → exists p xs ≡ false → Memᴰ x xs → p x ≡ true → ⊥
  unlisted p xs x h m t = ground (arith, exists_false p xs x h m, t)

  pub mem-update :
      (p : A → Bool) (f : A → A) (xs : List A) (x : A)
      → Memᴰ x (update p f xs)
      → (y : A) × Memᴰ y xs × (x ≡ (if p y then f y else y))
  unfolding update
  mem-update p f [] x m = elim m [ ]
  mem-update p f (y ∷ ys) x (Memᴰ.head e) = (y, Memᴰ.head refl, e)
  mem-update p f (y ∷ ys) x (Memᴰ.tail m) =
      let (z, n, e) = mem-update p f ys x m in (z, Memᴰ.tail n, e)

  pub update-mem :
      (p : A → Bool) (f : A → A) (xs : List A) (x : A)
      → Memᴰ x xs
      → Memᴰ (if p x then f x else x) (update p f xs)
  unfolding update
  update-mem p f [] x m = elim m [ ]
  update-mem p f (y ∷ ys) x (Memᴰ.head e) = Memᴰ.head (ap (λ z. if p z then f z else z) e)
  update-mem p f (y ∷ ys) x (Memᴰ.tail m) = Memᴰ.tail (update-mem p f ys x m)

  mem-delete-keep :
      (p : A → Bool) (y : A) (ys : List A) (x : A)
      → p y ≡ false
      → (Memᴰ x (delete p ys) → Memᴰ x ys × (p x ≡ false))
      → Memᴰ x (y ∷ delete p ys)
      → Memᴰ x (y ∷ ys) × (p x ≡ false)
  mem-delete-keep p y ys x f rest (Memᴰ.head e) = (Memᴰ.head e, ap p e ∙ f)
  mem-delete-keep p y ys x f rest (Memᴰ.tail m) = (Memᴰ.tail (rest m).0, (rest m).1)

  pub mem-delete :
      (p : A → Bool) (xs : List A) (x : A) → Memᴰ x (delete p xs) → Memᴰ x xs × (p x ≡ false)
  unfolding delete
  mem-delete p [] x m = elim m [ ]
  mem-delete p (y ∷ ys) x m = elim (Bool-cases (p y)) [
    | inl t ↦ let (n, f) = mem-delete p ys x (rw t at m) in (Memᴰ.tail n, f)
    | inr f ↦ mem-delete-keep p y ys x f (mem-delete p ys x) (rw f at m)
  ]

  pub delete-mem :
      (p : A → Bool) (xs : List A) (x : A) → Memᴰ x xs → p x ≡ false → Memᴰ x (delete p xs)
  unfolding delete
  delete-mem p [] x m f = elim m [ ]
  delete-mem p (y ∷ ys) x (Memᴰ.head e) f = rw (ap p (sym e) ∙ f) (Memᴰ.head e)
  delete-mem p (y ∷ ys) x (Memᴰ.tail m) f = elim (Bool-cases (p y)) [
    | inl t ↦ rw t (delete-mem p ys x m f)
    | inr g ↦ rw g (Memᴰ.tail (delete-mem p ys x m f))
  ]

  select-mem-keep :
      (p : A → Bool) (y : A) (ys : List A) (x : A)
      → p y ≡ true
      → (Memᴰ x (select p ys) → Memᴰ x ys × (p x ≡ true))
      → Memᴰ x (y ∷ select p ys)
      → Memᴰ x (y ∷ ys) × (p x ≡ true)
  select-mem-keep p y ys x t rest (Memᴰ.head e) = (Memᴰ.head e, ap p e ∙ t)
  select-mem-keep p y ys x t rest (Memᴰ.tail m) = (Memᴰ.tail (rest m).0, (rest m).1)

  pub select-mem :
      (p : A → Bool) (xs : List A) (x : A) → Memᴰ x (select p xs) → Memᴰ x xs × (p x ≡ true)
  unfolding select
  select-mem p [] x m = elim m [ ]
  select-mem p (y ∷ ys) x m = elim (Bool-cases (p y)) [
    | inl t ↦ select-mem-keep p y ys x t (select-mem p ys x) (rw t at m)
    | inr f ↦ let (n, q) = select-mem p ys x (rw f at m) in (Memᴰ.tail n, q)
  ]

  best-mem-step :
      (before : A → A → Bool) (x y : A) (ys : List A)
      → Memᴰ (best before (if before y x then y else x) ys) ((if before y x then y else x) ∷ ys)
      → Memᴰ (best before (if before y x then y else x) ys) (x ∷ y ∷ ys)
  best-mem-step before x y ys (Memᴰ.tail m) = Memᴰ.tail (Memᴰ.tail m)
  best-mem-step before x y ys (Memᴰ.head e) = elim (Bool-cases (before y x)) [
    | inl t ↦ Memᴰ.tail (Memᴰ.head (e ∙ ap (λ b. if b then y else x) t))
    | inr f ↦ Memᴰ.head (e ∙ ap (λ b. if b then y else x) f)
  ]

  best-mem : (before : A → A → Bool) (x : A) (xs : List A) → Memᴰ (best before x xs) (x ∷ xs)
  unfolding best
  best-mem before x [] = Memᴰ.head refl
  best-mem before x (y ∷ ys) =
      best-mem-step before x y ys (best-mem before (if before y x then y else x) ys)

  pub first_by-mem :
      (before : A → A → Bool) (xs : List A) (x : A) → first_by before xs ≡ some x → Memᴰ x xs
  unfolding first_by
  first_by-mem before [] x h = cc
  first_by-mem before (y ∷ ys) x h =
      let e : best before y ys ≡ x = ground (arith, h) in
      subst (λ z. Memᴰ z (y ∷ ys)) e (best-mem before y ys)

  pub count_none :
      (p : A → Bool) (xs : List A) → ((x : A) → Memᴰ x xs → p x ≡ false) → count p xs ≡ 0
  unfolding count
  count_none p [] h = refl
  count_none p (x ∷ xs) h =
      ground (arith, h x (Memᴰ.head refl), count_none p xs (λ y m. h y (Memᴰ.tail m)))

  -- The first row of a condition that the change keeps is the first one after it.
  pub find-update :
      (p : A → Bool) (f : A → A) (xs : List A) (x : A)
      → ((y : A) → p (f y) ≡ p y)
      → find p xs ≡ some x
      → find p (update p f xs) ≡ some (f x)
  unfolding find update
  find-update p f [] x h e = cc
  find-update p f (y ∷ ys) x h e = elim (Bool-cases (p y)) [
    | inl t ↦ let q : y ≡ x = ground (arith, t, e) in ground (arith, t, h y, ap f q)
    | inr u ↦
        let rest : find p ys ≡ some x = ground (arith, u, e) in
        ground (arith, u, find-update p f ys x h rest)
  ]

  pub count-positive :
      (p : A → Bool) (xs : List A) (x : A) → Memᴰ x xs → p x ≡ true → 1 ≤ count p xs
  unfolding count
  count-positive p [] x m t = elim m [ ]
  count-positive p (y ∷ ys) x (Memᴰ.head e) t =
      let h : p y ≡ true = ap p (sym e) ∙ t in ground (arith, h)
  count-positive p (y ∷ ys) x (Memᴰ.tail m) t = ground (arith, count-positive p ys x m t)

  pub count_mono :
      (p q : A → Bool) (xs : List A) → ((x : A) → p x ≡ true → q x ≡ true) → count p xs ≤ count q xs
  unfolding count
  count_mono p q [] h = omega arith
  count_mono p q (x ∷ xs) h = elim (Bool-cases (p x)) [
    | inl t ↦ ground (arith, t, h x t, count_mono p q xs h)
    | inr u ↦ ground (arith, u, count_mono p q xs h)
  ]

  -- A change that keeps the condition of each row keeps the count.
  pub count-update :
      (c p : A → Bool) (f : A → A) (xs : List A)
      → ((x : A) → Memᴰ x xs → p x ≡ true → c (f x) ≡ c x)
      → count c (update p f xs) ≡ count c xs
  unfolding count update
  count-update c p f [] h = refl
  count-update c p f (x ∷ xs) h =
      let rest = count-update c p f xs (λ y m. h y (Memᴰ.tail m)) in
      elim (Bool-cases (p x)) [
        | inl t ↦ ground (arith, t, h x (Memᴰ.head refl) t, rest)
        | inr u ↦ ground (arith, u, rest)
      ]

  pub count-mem : (p : A → Bool) (xs : List A) → count p xs ≡ 1 → (x : A) × Memᴰ x xs × (p x ≡ true)
  count-mem p xs h = elim (Option-cases (find p xs)) [
    | inl e ↦ absurd (ground (arith, h, count_none p xs (λ x m. find-none-false p xs x e m)))
    | inr (x, e) ↦ (x, (find-mem p xs x e).0, (find-mem p xs x e).1)
  ]
