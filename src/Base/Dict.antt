-- ===== src/Base/Dict.antt =====
-- A hash map that is iterated over: its entries in the order of the iteration, each key once.
use Prim.Native.Nat.{ℕ}
use mathlib.Core.Path.{◌≡◌, refl, ap, sym, ◌∙◌}
use mathlib.Core.Logic.{inl, inr}
use mathlib.Core.Bool.{Bool, true}
use mathlib.Core.List.{List, [], ◌∷◌}
use mathlib.Core.Option.{Option, none, some}
use mathlib.Core.Option
use native.Mathlib.Omega.{arith}
use baron_evm.Base.Tests.{◌==◌, if◌then◌else◌, Bool-cases, ==_iff}

abbrev pub Dict {ℓ} : Type ℓ → Type ℓ
Dict V = List (ℕ × V)

module _ {ℓ} {V : Type ℓ} where
  unfoldable pub lookup : ℕ → Dict V → Option V
  lookup k [] = none
  lookup k ((j, v) ∷ m) = if k == j then some v else lookup k m

  unfoldable pub delete : ℕ → Dict V → Dict V
  delete k [] = []
  delete k ((j, v) ∷ m) = let rest = delete k m in if k == j then rest else (j, v) ∷ rest

  unfoldable pub store : ℕ → V → Dict V → Dict V
  store k v [] = (k, v) ∷ []
  store k v ((j, w) ∷ m) = let rest = store k v m in if k == j then (k, v) ∷ m else (j, w) ∷ rest

  -- The entry of a key after a change: `none` removes it.
  abbrev pub write_entry : ℕ → Option V → Dict V → Dict V
  write_entry k none m = delete k m
  write_entry k (some v) m = store k v m

  -- Each key stands once.
  abbrev pub Distinct : Dict V → Type ℓ
  Distinct [] = Unit
  Distinct ((k, v) ∷ m) = (lookup k m ≡ none) × Distinct m

  pub lookup-delete :
      (j k : ℕ) (m : Dict V) → lookup j (delete k m) ≡ (if j == k then none else lookup j m)
  unfolding lookup delete
  lookup-delete j k [] = ground arith
  lookup-delete j k ((i, v) ∷ m) = ground (arith, lookup-delete j k m)

  pub lookup-store :
      (j k : ℕ) (v : V) (m : Dict V)
      → lookup j (store k v m) ≡ (if j == k then some v else lookup j m)
  unfolding lookup store
  lookup-store j k v [] = refl
  lookup-store j k v ((i, w) ∷ m) = ground (arith, lookup-store j k v m)

  pub lookup-write_entry :
      (j k : ℕ) (o : Option V) (m : Dict V)
      → lookup j (write_entry k o m) ≡ (if j == k then o else lookup j m)
  lookup-write_entry j k none m = lookup-delete j k m
  lookup-write_entry j k (some v) m = lookup-store j k v m

  pub lookup-write_same : (k : ℕ) (o : Option V) (m : Dict V) → lookup k (write_entry k o m) ≡ o
  lookup-write_same k o m = ground (arith, lookup-write_entry k k o m)

  -- A key that stands in the rest of a map is another one than the first.
  pub key_differs : (j k : ℕ) (m : Dict V) → lookup k m ≡ none → (j == k) ≡ true → lookup j m ≡ none
  key_differs j k m e same = ap (λ i. lookup i m) ((==_iff j k).0 same) ∙ e

  pub delete-Distinct : (k : ℕ) (m : Dict V) → Distinct m → Distinct (delete k m)
  unfolding delete
  delete-Distinct k [] d = tt
  delete-Distinct k ((j, v) ∷ m) (new, d) =
      let ih = delete-Distinct k m d in
      elim (Bool-cases (k == j)) [
        | inl e ↦ rw e ih
        | inr e ↦ rw e (ground (arith, lookup-delete j k m, new), ih)
      ]

  pub store-Distinct : (k : ℕ) (v : V) (m : Dict V) → Distinct m → Distinct (store k v m)
  unfolding store lookup
  store-Distinct k v [] d = (refl, tt)
  store-Distinct k v ((j, w) ∷ m) (new, d) = elim (Bool-cases (k == j)) [
    | inl e ↦ rw e (key_differs k j m new e, d)
    | inr e ↦ rw e (ground (arith, lookup-store j k v m, new), store-Distinct k v m d)
  ]

  pub write_entry-Distinct :
      (k : ℕ) (o : Option V) (m : Dict V) → Distinct m → Distinct (write_entry k o m)
  write_entry-Distinct k none m d = delete-Distinct k m d
  write_entry-Distinct k (some v) m d = store-Distinct k v m d

  module _ (test : V → Bool) where
    unfoldable pub filter_values : Dict V → Dict V
    filter_values [] = []
    filter_values ((k, v) ∷ m) =
        let rest = filter_values m in if test v then (k, v) ∷ rest else rest

    abbrev pub kept : Option V → Option V
    kept none = none
    kept (some v) = if test v then some v else none

    pub lookup-filter_values :
        (j : ℕ) (m : Dict V) → Distinct m → lookup j (filter_values m) ≡ kept (lookup j m)
    unfolding lookup filter_values
    lookup-filter_values j [] d = refl
    lookup-filter_values j ((k, v) ∷ m) (new, d) =
        let ih = lookup-filter_values j m d in
        elim (Bool-cases (j == k)) [
          | inl e ↦
              (let gone = ih ∙ ap kept (key_differs j k m new e) in
                elim (Bool-cases (test v)) [
                  | inl t ↦ rw (t, e, t) refl
                  | inr t ↦ rw (t, e, t) gone
                ])
          | inr e ↦ elim (Bool-cases (test v)) [ inl t ↦ rw (t, e) ih | inr t ↦ rw (t, e) ih ]
        ]

    pub filter_values-Distinct : (m : Dict V) → Distinct m → Distinct (filter_values m)
    unfolding filter_values
    filter_values-Distinct [] d = tt
    filter_values-Distinct ((k, v) ∷ m) (new, d) = elim (Bool-cases (test v)) [
      | inl t ↦ rw t (lookup-filter_values k m d ∙ ap kept new, filter_values-Distinct m d)
      | inr t ↦ rw t (filter_values-Distinct m d)
    ]

module _ {ℓ κ} {V : Type ℓ} {W : Type κ} (f : W → V) where
  -- `map` and `collect` over the values.
  unfoldable pub map_values : Dict W → Dict V
  map_values [] = []
  map_values ((k, w) ∷ m) = (k, f w) ∷ map_values m

  pub lookup-map_values : (j : ℕ) (m : Dict W) → lookup j (map_values m) ≡ Option.map f (lookup j m)
  unfolding lookup map_values
  lookup-map_values j [] = refl
  lookup-map_values j ((k, w) ∷ m) = elim (Bool-cases (j == k)) [
    | inl e ↦ rw e refl
    | inr e ↦ rw e (lookup-map_values j m)
  ]

  pub map_values-Distinct : (m : Dict W) → Distinct m → Distinct (map_values m)
  unfolding map_values
  map_values-Distinct [] d = tt
  map_values-Distinct ((k, w) ∷ m) (new, d) =
      (lookup-map_values k m ∙ ap (Option.map f) new, map_values-Distinct m d)

module _ {ℓ κ} {V : Type ℓ} {W : Type κ} (f : W → Option V → Option V) where
  -- A loop over the entries of a map that changes the same keys of another.
  unfoldable pub for_entries : Dict W → Dict V → Dict V
  for_entries [] m = m
  for_entries ((k, w) ∷ u) m = for_entries u (write_entry k (f w (lookup k m)) m)

  abbrev pub after : Option W → Option V → Option V
  after none o = o
  after (some w) o = f w o

  pub lookup-for_entries :
      (j : ℕ) (u : Dict W) (m : Dict V)
      → Distinct u
      → lookup j (for_entries u m) ≡ after (lookup j u) (lookup j m)
  unfolding for_entries lookup
  lookup-for_entries j [] m d = refl
  lookup-for_entries j ((k, w) ∷ u) m (new, d) =
      let ih = lookup-for_entries j u (write_entry k (f w (lookup k m)) m) d in
      let written = lookup-write_entry j k (f w (lookup k m)) m in
      elim (Bool-cases (j == k)) [
        | inl e ↦
            (rw e (
              ih
              ∙ ap (λ o. after o (lookup j (write_entry k (f w (lookup k m)) m)))
                  (key_differs j k u new e)
              ∙ written
              ∙ ap (λ b. if b then f w (lookup k m) else lookup j m) e
              ∙ ap (λ i. f w (lookup i m)) (sym ((==_iff j k).0 e))))
        | inr e ↦
            (rw e (
              ih
              ∙ ap (after (lookup j u))
                  (written ∙ ap (λ b. if b then f w (lookup k m) else lookup j m) e)))
      ]

  pub for_entries-Distinct : (u : Dict W) (m : Dict V) → Distinct m → Distinct (for_entries u m)
  unfolding for_entries
  for_entries-Distinct [] m d = d
  for_entries-Distinct ((k, w) ∷ u) m d =
      for_entries-Distinct u (write_entry k (f w (lookup k m)) m)
        (write_entry-Distinct k (f w (lookup k m)) m d)
