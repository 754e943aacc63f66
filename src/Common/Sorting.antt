-- ===== src/Common/Sorting.antt =====
-- `sort.Slice` of Go's standard library, by its documentation: it sorts by a `less` function that
-- is a strict weak order, and it is not stable, so elements of equal rank come in any order. The
-- program's functions take such a sort as an argument; insertion sort is one.
use mathlib.Core.List.Permᴰ
use gpu_scheduler.Common.Tests.{if◌then◌else◌, Bool-cases}
use gpu_scheduler.Common.Lists.{All, All-map, All-Permᴰ}
use mathlib.Core.Path.{◌≡◌, refl}
use mathlib.Core.Logic.{◌⊎◌, inl, inr}
use mathlib.Core.Bool.{Bool, true, false}
use mathlib.Core.List.{List, [], ◌∷◌, Permᴰ}
use native.Mathlib.Omega.{arith}

pub record IsStrictWeak {ℓ} {A : Type ℓ} (less : A → A → Bool) : Type ℓ where
  pub asymm : (a b : A) → less a b ≡ true → less b a ≡ false
  pub split : (a b c : A) → less a c ≡ true → (less a b ≡ true) ⊎ (less b c ≡ true)

-- No element is less than one before it.
abbrev pub Ordered {ℓ} : {A : Type ℓ} → (A → A → Bool) → List A → Type ℓ
Ordered less [] = Unit
Ordered less (x ∷ xs) = All (λ y. less y x ≡ false) xs × Ordered less xs

pub record SortSlice : Type 1 where
  pub sort_slice : (A : Type 0) → (A → A → Bool) → List A → List A
  pub sort_slice-Permᴰ :
      (A : Type 0) (less : A → A → Bool) (xs : List A) → Permᴰ xs (sort_slice A less xs)
  pub sort_slice-Ordered :
      (A : Type 0) (less : A → A → Bool) (xs : List A)
      → IsStrictWeak less
      → Ordered less (sort_slice A less xs)

module _ {ℓ} {A : Type ℓ} (less : A → A → Bool) where
  insert : A → List A → List A
  insert x [] = x ∷ []
  insert x (y ∷ ys) = let rest = insert x ys in if less x y then x ∷ y ∷ ys else y ∷ rest

  pub insertion_sort : List A → List A
  insertion_sort [] = []
  insertion_sort (x ∷ xs) = insert x (insertion_sort xs)

  insert-Permᴰ : (x : A) (ys : List A) → Permᴰ (x ∷ ys) (insert x ys)
  unfolding insert
  insert-Permᴰ x [] = Permᴰ.refl (x ∷ [])
  insert-Permᴰ x (y ∷ ys) = elim (Bool-cases (less x y)) [
    | inl e ↦ rw e (Permᴰ.refl (x ∷ y ∷ ys))
    | inr e ↦ rw e (Permᴰ.trans (Permᴰ.swap refl refl) (Permᴰ.cons refl (insert-Permᴰ x ys)))
  ]

  pub insertion_sort-Permᴰ : (xs : List A) → Permᴰ xs (insertion_sort xs)
  unfolding insertion_sort
  insertion_sort-Permᴰ [] = Permᴰ.nil
  insertion_sort-Permᴰ (x ∷ xs) =
      Permᴰ.trans (Permᴰ.cons refl (insertion_sort-Permᴰ xs)) (insert-Permᴰ x (insertion_sort xs))

  insert-Ordered :
      IsStrictWeak less → (x : A) (ys : List A) → Ordered less ys → Ordered less (insert x ys)
  unfolding insert
  insert-Ordered w x [] o = (tt, tt)
  insert-Ordered w x (y ∷ ys) o = elim (Bool-cases (less x y)) [
    | inl e ↦ rw e (
      (
        w.asymm x y e,
        All-map (λ z. less z y ≡ false) (λ z. less z x ≡ false) ys
            (λ z h. ground (arith, w.split z y x, w.asymm x y e)) o.0,
      ),
      o,
    )
    | inr e ↦
        rw e (
          All-Permᴰ (λ z. less z y ≡ false) (insert-Permᴰ x ys) (e, o.0),
          insert-Ordered w x ys o.1,
        )
  ]

  pub insertion_sort-Ordered : IsStrictWeak less → (xs : List A) → Ordered less (insertion_sort xs)
  unfolding insertion_sort
  insertion_sort-Ordered w [] = tt
  insertion_sort-Ordered w (x ∷ xs) =
      insert-Ordered w x (insertion_sort xs) (insertion_sort-Ordered w xs)

unfoldable pub insertion : SortSlice
unfolding insertion_sort insert
insertion = record {
  sort_slice = λ A less. insertion_sort less;
  sort_slice-Permᴰ = λ A less. insertion_sort-Permᴰ less;
  sort_slice-Ordered = λ A less xs w. insertion_sort-Ordered less w xs;
}
