-- ===== src/Base/Relation.antt =====
-- How the rows of a table stand to those of the table before a statement.
use mathlib.Core.Path.{◌≡◌, refl, sym, ap, subst, ◌∙◌}
use mathlib.Core.Logic.{◌≢◌, ◌⊎◌, inl, inr}
use mathlib.Core.Bool.{Bool, true, false, false≢true}
use mathlib.Core.List.{List, ◌∷◌, Memᴰ}
use Prim.Native.String.{String}
use signal_plane.Base.Tests.{if◌then◌else◌, Bool-cases}
use signal_plane.Base.Table.{update, mem-update, update-mem}

module _ {ℓ} {A : Type ℓ} where
  -- The rows of `ys` are those of `xs`, each changed by `g`.
  pub record Image (g : A → A) (xs ys : List A) : Type ℓ where
    pub source : (y : A) → Memᴰ y ys → (x : A) × Memᴰ x xs × (y ≡ g x)
    pub target : (x : A) → Memᴰ x xs → Memᴰ (g x) ys

  pub Image-refl : (xs : List A) → Image (λ x. x) xs xs
  Image-refl xs = record { source = λ y m. (y, m, refl); target = λ x m. m }

  abbrev pub when : (A → Bool) → (A → A) → A → A
  when p f x = if p x then f x else x

  pub Image-update : (p : A → Bool) (f : A → A) (xs : List A) → Image (when p f) xs (update p f xs)
  Image-update p f xs = record {
    source = λ y m. mem-update p f xs y m;
    target = λ x m. update-mem p f xs x m;
  }

  pub Image-trans :
      {g h : A → A} {xs ys zs : List A} → Image g xs ys → Image h ys zs → Image (λ x. h (g x)) xs zs
  Image-trans {h = h} a b = record {
    source =
        λ z m. let (y, n, e) = b.source z m in let (x, k, q) = a.source y n in (x, k, e ∙ ap h q);
    target = λ x m. b.target _ (a.target x m);
  }

  -- `ys` is `xs` with the row `x₀` put in the place of the row of its key, if there is one.
  pub record Put (key : A → String) (x₀ : A) (xs ys : List A) : Type ℓ where
    pub here : Memᴰ x₀ ys
    pub source : (y : A) → Memᴰ y ys → (y ≡ x₀) ⊎ (Memᴰ y xs × (key y ≢ key x₀))
    pub target : (x : A) → Memᴰ x xs → key x ≢ key x₀ → Memᴰ x ys

  -- No two rows share a key.
  abbrev pub IsKeyed : (A → String) → List A → Type ℓ
  IsKeyed key xs = (x y : A) → Memᴰ x xs → Memᴰ y xs → key x ≡ key y → x ≡ y

  pub Put-insert :
      (key : A → String) (x₀ : A) (xs : List A)
      → ((x : A) → Memᴰ x xs → key x ≢ key x₀)
      → Put key x₀ xs (x₀ ∷ xs)
  Put-insert key x₀ xs fresh = record {
    here = Memᴰ.head refl;
    source = λ y m. from y m;
    target = λ x m _. Memᴰ.tail m;
  }
    where
      from : (y : A) → Memᴰ y (x₀ ∷ xs) → (y ≡ x₀) ⊎ (Memᴰ y xs × (key y ≢ key x₀))
      from y (Memᴰ.head e) = inl e
      from y (Memᴰ.tail m) = inr (m, fresh y m)

  -- An UPDATE of the one row `x` that `p` selects.
  pub Put-update :
      (key : A → String) (p : A → Bool) (f : A → A) (xs : List A) (x : A)
      → IsKeyed key xs
      → Memᴰ x xs
      → p x ≡ true
      → key (f x) ≡ key x
      → ((y : A) → p y ≡ true → key y ≡ key x)
      → Put key (f x) xs (update p f xs)
  Put-update key p f xs x keyed m hit same only = record {
    here =
        subst (λ z. Memᴰ z (update p f xs)) (ap (λ b. if b then f x else x) hit)
          (update-mem p f xs x m);
    source = λ y n. from y (mem-update p f xs y n);
    target = λ y n ne. elim (Bool-cases (p y)) [
      | inl t ↦ absurd (ne (only y t ∙ sym same))
      | inr u ↦
          subst (λ z. Memᴰ z (update p f xs)) (ap (λ b. if b then f y else y) u)
            (update-mem p f xs y n)
    ];
  }
    where
      from :
          (y : A)
          → ((z : A) × Memᴰ z xs × (y ≡ when p f z))
          → (y ≡ f x) ⊎ (Memᴰ y xs × (key y ≢ key (f x)))
      from y (z, n, e) = elim (Bool-cases (p z)) [
        | inl t ↦ inl (e ∙ ap (λ b. if b then f z else z) t ∙ ap f (keyed z x n m (only z t)))
        | inr u ↦
            let e' : y ≡ z = e ∙ ap (λ b. if b then f z else z) u in
            inr (subst (λ w. Memᴰ w xs) (sym e') n, λ k. apart z n u (ap key (sym e') ∙ k ∙ same))
      ]
        where
          apart : (z : A) → Memᴰ z xs → p z ≡ false → key z ≢ key x
          apart z n u k = false≢true (sym u ∙ ap p (keyed z x n m k) ∙ hit)
