-- ===== src/Common/Dict.antt =====
-- Go's `map[string]V` as an association list. The order of the list stands for the order in which a
-- `range` over the map happens to run, which Go leaves open: what is proved for every list is proved
-- for every order. Writes replace the entry of a key in place, so keys stay distinct.
use mathlib.Core.Path.{◌≡◌, refl, ap, sym, ◌∙◌}
use mathlib.Core.Logic.{inl, inr}
use mathlib.Core.Bool.{false, ◌&&◌}
use mathlib.Core.Option.{Option, none, some}
use mathlib.Core.List.{List, [], ◌∷◌}
use Prim.Native.String.{String}
use native.Mathlib.Omega.{arith}
use text.Mathlib.Text.{◌==◌ as eq_str}
use text.Mathlib.TextEquality.{eq_iff}
use gpu_scheduler.Common.Tests.{if◌then◌else◌, Bool-cases}
use gpu_scheduler.Common.Int.{ℤ, pos, ◌+ℤ◌, int_laws, parts_of_eq}

abbrev pub Dict {ℓ} : Type ℓ → Type ℓ
Dict V = List (String × V)

module _ {ℓ} {V : Type ℓ} where
  -- v, ok := m[k]
  unfoldable pub lookup : String → Dict V → Option V
  lookup k [] = none
  lookup k ((j, v) ∷ m) = if eq_str j k then some v else lookup k m

  -- m[k] = v
  unfoldable pub insert : String → V → Dict V → Dict V
  insert k v [] = (k, v) ∷ []
  insert k v ((j, w) ∷ m) = if eq_str j k then (j, v) ∷ m else (j, w) ∷ insert k v m

  -- delete(m, k)
  unfoldable pub erase : String → Dict V → Dict V
  erase k [] = []
  erase k ((j, w) ∷ m) = if eq_str j k then m else (j, w) ∷ erase k m

  -- m[k] with a zero value for a missing key
  abbrev pub lookup_or : V → String → Dict V → V
  lookup_or d k m = elim (lookup k m) [ some v ↦ v | none ↦ d ]

  -- A write at a key that the entry does not have passes it by.
  insert_ne :
      (k i : String) (v w : V) (m : Dict V)
      → eq_str i k ≡ false
      → insert k v ((i, w) ∷ m) ≡ (i, w) ∷ insert k v m
  unfolding insert
  insert_ne k i v w m e = rw e

  pub lookup-insert :
      (k j : String) (v : V) (m : Dict V)
      → lookup j (insert k v m) ≡ (if eq_str k j then some v else lookup j m)
  unfolding lookup insert
  lookup-insert k j v [] = refl
  lookup-insert k j v ((i, w) ∷ m) = elim (Bool-cases (eq_str i k)) [
    | inl same ↦
        let at : eq_str i j ≡ eq_str k j = ap (λ s. eq_str s j) ((eq_iff i k).0 same) in
        rw (same, at) (elim (Bool-cases (eq_str k j)) [ inl hit ↦ rw hit | inr miss ↦ rw miss ])
    | inr other ↦
        let rest = lookup-insert k j v m in
        rw (insert_ne k i v w m other) (elim (Bool-cases (eq_str k j)) [
          | inl hit ↦
              let apart : eq_str i j ≡ false = ap (eq_str i) (sym ((eq_iff k j).0 hit)) ∙ other in
              rw (apart, rest, hit)
          | inr miss ↦ rw (rest, miss)
        ])
  ]

  pub lookup_or-insert :
      (k j : String) (d v : V) (m : Dict V)
      → lookup_or d j (insert k v m) ≡ (if eq_str k j then v else lookup_or d j m)
  lookup_or-insert k j d v m =
      rw (lookup-insert k j v m, lookup_or)
        (elim (Bool-cases (eq_str k j)) [ inl e ↦ rw e | inr e ↦ rw e ])

  pub lookup-erase_ne :
      (k j : String) (m : Dict V) → eq_str k j ≡ false → lookup j (erase k m) ≡ lookup j m
  unfolding lookup erase
  lookup-erase_ne k j [] h = refl
  lookup-erase_ne k j ((i, w) ∷ m) h =
      ground (arith, eq_iff k j, eq_iff i k, eq_iff i j, lookup-erase_ne k j m h)

  -- The sum of a quantity over all values.
  abbrev pub sum_values : (V → ℤ) → Dict V → ℤ
  sum_values f [] = pos 0
  sum_values f ((j, v) ∷ m) = f v +ℤ sum_values f m

  -- The quantity of the entry of a key, 0 if it has none.
  abbrev pub at_key : (V → ℤ) → Option V → ℤ
  at_key f none = pos 0
  at_key f (some v) = f v

  pub sum_values-insert :
      (f : V → ℤ) (k : String) (v : V) (m : Dict V)
      → sum_values f (insert k v m) +ℤ at_key f (lookup k m) ≡ sum_values f m +ℤ f v
  unfolding lookup insert
  sum_values-insert f k v [] = omega int_laws
  sum_values-insert f k v ((j, w) ∷ m) = elim (Bool-cases (eq_str j k)) [
    | inl e ↦ rw e (omega int_laws)
    | inr e ↦ rw e (omega (int_laws, parts_of_eq (sum_values-insert f k v m)))
  ]

  pub sum_values-erase :
      (f : V → ℤ) (k : String) (m : Dict V)
      → sum_values f (erase k m) +ℤ at_key f (lookup k m) ≡ sum_values f m
  unfolding lookup erase
  sum_values-erase f k [] = omega int_laws
  sum_values-erase f k ((j, w) ∷ m) = elim (Bool-cases (eq_str j k)) [
    | inl e ↦ rw e (omega int_laws)
    | inr e ↦ rw e (omega (int_laws, parts_of_eq (sum_values-erase f k m)))
  ]

module _ {ℓ κ} {V : Type ℓ} (P : V → Type κ) where
  -- Every value satisfies `P`.
  abbrev pub AllValues : Dict V → Type κ
  AllValues [] = Unit
  AllValues ((j, v) ∷ m) = P v × AllValues m

  abbrev pub AtKey : Option V → Type κ
  AtKey none = Unit
  AtKey (some v) = P v

  pub AllValues-lookup : (k : String) (m : Dict V) → AllValues m → AtKey (lookup k m)
  unfolding lookup
  AllValues-lookup k [] h = tt
  AllValues-lookup k ((j, w) ∷ m) h = elim (Bool-cases (eq_str j k)) [
    | inl e ↦ rw e h.0
    | inr e ↦ rw e (AllValues-lookup k m h.1)
  ]

  pub AllValues-insert :
      (k : String) (v : V) (m : Dict V) → P v → AllValues m → AllValues (insert k v m)
  unfolding insert
  AllValues-insert k v [] p h = (p, tt)
  AllValues-insert k v ((j, w) ∷ m) p h = elim (Bool-cases (eq_str j k)) [
    | inl e ↦ rw e (p, h.1)
    | inr e ↦ rw e (h.0, AllValues-insert k v m p h.1)
  ]

  pub AllValues-erase : (k : String) (m : Dict V) → AllValues m → AllValues (erase k m)
  unfolding erase
  AllValues-erase k [] h = tt
  AllValues-erase k ((j, w) ∷ m) h = elim (Bool-cases (eq_str j k)) [
    | inl e ↦ rw e h.1
    | inr e ↦ rw e (h.0, AllValues-erase k m h.1)
  ]

-- Two levels of maps, `map[string]map[string]int`. A missing map or entry reads as 0.
unfoldable pub lookup2 : String → String → Dict (Dict ℤ) → ℤ
lookup2 n g d = lookup_or (pos 0) g (lookup_or [] n d)

-- d[n][g] = x
unfoldable pub insert2 : String → String → ℤ → Dict (Dict ℤ) → Dict (Dict ℤ)
insert2 n g x d = insert n (insert g x (lookup_or [] n d)) d

pub lookup2-insert2 :
    (n g n' g' : String) (x : ℤ) (d : Dict (Dict ℤ))
    → lookup2 n' g' (insert2 n g x d) ≡ (if eq_str n n' && eq_str g g' then x else lookup2 n' g' d)
unfolding lookup2 insert2
lookup2-insert2 n g n' g' x d =
    rw (lookup_or-insert n n' [] (insert g x (lookup_or [] n d)) d)
      (elim (Bool-cases (eq_str n n')) [
        | inl e ↦
            rw e (rw (lookup_or-insert g g' (pos 0) x (lookup_or [] n d)) (rw ((eq_iff n n').0 e)))
        | inr e ↦ rw e
      ])

-- A new empty map at a key that had none reads as before.
pub lookup2-insert_empty :
    (n n' g' : String) (d : Dict (Dict ℤ))
    → lookup n d ≡ none
    → lookup2 n' g' (insert n [] d) ≡ lookup2 n' g' d
unfolding lookup2
lookup2-insert_empty n n' g' d h =
    rw (lookup_or-insert n n' [] [] d) (elim (Bool-cases (eq_str n n')) [
      | inl e ↦
          let at : lookup n' d ≡ none = rw (← (eq_iff n n').0 e) h in
          rw (e, at, lookup2, lookup_or) (unfold lookup in refl)
      | inr e ↦ rw e
    ])
