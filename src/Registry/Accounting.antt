-- ===== src/Registry/Accounting.antt =====
-- internal/gpu/registry.go: MarkGPUAllocatedForPod, and the books of the registry: what is reserved of
-- each GPU, how many pods are counted on it, and the tracked allocations.
use gpu_scheduler.Common.{
  ◌≡◌, refl, sym, ap, ◌∙◌, ◌⊎◌, inl, inr, Bool, true, false, ◌&&◌, not, Option, none, some, List,
  [], ◌∷◌, ◌++◌, String, eq_str, eq_iff, arith, ℤ, pos, ◌+ℤ◌, ◌≤ℤ◌, int_laws, parts_of_eq,
  eq_of_parts, All, All-append, Bool-cases, Option-cases, if◌then◌else◌,
}
use gpu_scheduler.Common.Dict.{
  Dict, lookup, insert, lookup_or, lookup2, insert2, lookup2-insert2, lookup2-insert_empty,
  lookup-insert, sum_values, at_key, sum_values-insert, AllValues, AllValues-lookup,
  AllValues-insert,
}
use gpu_scheduler.Registry.{
  AllocationEntry, Registry, with_tables, track, add2, reserve, mark_gpu_allocated_for_pod, cut,
  get_reserved_memory, get_pod_count, pod_key,
}

-- Whether an entry counts for a GPU: it is no MIG instance, and names the node and the device.
abbrev pub on_gpu : String → String → AllocationEntry → Bool
on_gpu node gpu e = not e.is_mig && (eq_str e.node_name node && eq_str e.gpu_uuid gpu)

-- The memory and the number of the entries of one pod on a GPU.
abbrev pub held : String → String → List AllocationEntry → ℤ
held node gpu [] = pos 0
held node gpu (e ∷ es) = (if on_gpu node gpu e then e.memory_mb else pos 0) +ℤ held node gpu es

abbrev pub held_count : String → String → List AllocationEntry → ℤ
held_count node gpu [] = pos 0
held_count node gpu (e ∷ es) =
    (if on_gpu node gpu e then pos 1 else pos 0) +ℤ held_count node gpu es

abbrev pub HasMemory : AllocationEntry → Type 0
HasMemory e = pos 0 ≤ℤ e.memory_mb

abbrev pub is_some {ℓ} : {A : Type ℓ} → Option A → Bool
is_some none = false
is_some (some _) = true

pub record IsBalanced (r : Registry) : Type 0 where
  pub reserved :
      (node gpu : String)
      → get_reserved_memory r node gpu ≡ sum_values (held node gpu) r.pod_allocations
  pub counted :
      (node gpu : String)
      → get_pod_count r node gpu ≡ sum_values (held_count node gpu) r.pod_allocations
  pub nonneg : AllValues (All HasMemory) r.pod_allocations
  pub paired :
      (node : String)
      → is_some (lookup node r.reservations) ≡ is_some (lookup node r.pod_count_per_gpu)

pub held-append :
    (node gpu : String) (xs ys : List AllocationEntry)
    → held node gpu (xs ++ ys) ≡ held node gpu xs +ℤ held node gpu ys
held-append node gpu [] ys = omega int_laws
held-append node gpu (e ∷ xs) ys = omega (int_laws, parts_of_eq (held-append node gpu xs ys))

pub held_count-append :
    (node gpu : String) (xs ys : List AllocationEntry)
    → held_count node gpu (xs ++ ys) ≡ held_count node gpu xs +ℤ held_count node gpu ys
held_count-append node gpu [] ys = omega int_laws
held_count-append node gpu (e ∷ xs) ys =
    omega (int_laws, parts_of_eq (held_count-append node gpu xs ys))

pub held-nonneg :
    (node gpu : String) (es : List AllocationEntry) → All HasMemory es → pos 0 ≤ℤ held node gpu es
held-nonneg node gpu [] h = omega arith
held-nonneg node gpu (e ∷ es) h = elim (Bool-cases (on_gpu node gpu e)) [
  | inl t ↦ rw t (omega (int_laws, held-nonneg node gpu es h.1))
  | inr t ↦ rw t (omega (int_laws, held-nonneg node gpu es h.1))
]

pub held_count-nonneg :
    (node gpu : String) (es : List AllocationEntry) → pos 0 ≤ℤ held_count node gpu es
held_count-nonneg node gpu [] = omega arith
held_count-nonneg node gpu (e ∷ es) = elim (Bool-cases (on_gpu node gpu e)) [
  | inl t ↦ rw t (omega (int_laws, held_count-nonneg node gpu es))
  | inr t ↦ rw t (omega (int_laws, held_count-nonneg node gpu es))
]

pub sum-held-nonneg :
    (node gpu : String) (d : Dict (List AllocationEntry))
    → AllValues (All HasMemory) d
    → pos 0 ≤ℤ sum_values (held node gpu) d
sum-held-nonneg node gpu [] h = omega arith
sum-held-nonneg node gpu ((k, es) ∷ d) h =
    omega (int_laws, held-nonneg node gpu es h.0, sum-held-nonneg node gpu d h.1)

pub sum-held_count-nonneg :
    (node gpu : String) (d : Dict (List AllocationEntry))
    → pos 0 ≤ℤ sum_values (held_count node gpu) d
sum-held_count-nonneg node gpu [] = omega arith
sum-held_count-nonneg node gpu ((k, es) ∷ d) =
    omega (int_laws, held_count-nonneg node gpu es, sum-held_count-nonneg node gpu d)

at_key-lookup_or :
    (f : List AllocationEntry → ℤ) (key : String) (d : Dict (List AllocationEntry))
    → f [] ≡ pos 0
    → at_key f (lookup key d) ≡ f (lookup_or [] key d)
at_key-lookup_or f key d zero_at = elim (Option-cases (lookup key d)) [
  | inl p ↦ rw (p, lookup_or) (sym zero_at)
  | inr (es, p) ↦ rw (p, lookup_or)
]

-- What tracking one more entry adds to the sums, whether or not the pod was known.
pub sum-track :
    (f : List AllocationEntry → ℤ) (key : String) (e : AllocationEntry)
    (d : Dict (List AllocationEntry))
    → f [] ≡ pos 0
    → ((xs : List AllocationEntry) → f (xs ++ e ∷ []) ≡ f xs +ℤ f (e ∷ []))
    → sum_values f (insert key (lookup_or [] key d ++ e ∷ []) d) ≡ sum_values f d +ℤ f (e ∷ [])
sum-track f key e d zero_at add =
    let old = lookup_or [] key d in
    let same : at_key f (lookup key d) ≡ f old = at_key-lookup_or f key d zero_at in
    eq_of_parts _ _ (
      omega (
        int_laws,
        parts_of_eq same,
        parts_of_eq (add old),
        parts_of_eq (sum_values-insert f key (old ++ e ∷ []) d),
      ))

-- Adding to one cell of a table of tables.
lookup2-add2 :
    (n g n' g' : String) (x : ℤ) (d : Dict (Dict ℤ))
    → lookup2 n' g' (add2 n g x d)
      ≡ lookup2 n' g' d +ℤ (if eq_str n n' && eq_str g g' then x else pos 0)
lookup2-add2 n g n' g' x d =
    rw (lookup2-insert2 n g n' g' (lookup2 n g d +ℤ x) d)
      (elim (Bool-cases (eq_str n n' && eq_str g g')) [
        | inl e ↦
            let same : (n ≡ n') × (g ≡ g') = ground (arith, eq_iff n n', eq_iff g g') in
            rw e (cc (same.0, same.1))
        | inr e ↦ rw e (eq_of_parts _ _ (omega int_laws))
      ])

-- The two tables of a node are made without changing what is read.
with_tables-reads :
    (r : Registry) (node n g : String)
    → is_some (lookup node r.reservations) ≡ is_some (lookup node r.pod_count_per_gpu)
    → (get_reserved_memory (with_tables r node) n g ≡ get_reserved_memory r n g)
      × (get_pod_count (with_tables r node) n g ≡ get_pod_count r n g)
unfolding with_tables get_reserved_memory get_pod_count
with_tables-reads r node n g paired = elim (Option-cases (lookup node r.reservations)) [
  | inl p ↦
      let q : lookup node r.pod_count_per_gpu ≡ none = ground (arith, paired) in
      rw (p, with_tables)
        (
          lookup2-insert_empty node n g r.reservations p,
          lookup2-insert_empty node n g r.pod_count_per_gpu q,
        )
  | inr (t, p) ↦ rw (p, with_tables) (refl, refl)
]

pub is_some-insert {ℓ} :
    {V : Type ℓ} (k j : String) (v : V) (m : Dict V)
    → is_some (lookup j (insert k v m)) ≡ (if eq_str k j then true else is_some (lookup j m))
is_some-insert k j v m =
    rw (lookup-insert k j v m) (elim (Bool-cases (eq_str k j)) [ inl e ↦ rw e | inr e ↦ rw e ])

pub with_tables-allocations :
    (r : Registry) (node : String) → (with_tables r node).pod_allocations ≡ r.pod_allocations
unfolding with_tables
with_tables-allocations r node = ground arith

with_tables-paired :
    (r : Registry) (node : String)
    → ((n : String) → is_some (lookup n r.reservations) ≡ is_some (lookup n r.pod_count_per_gpu))
    → (n : String)
    → is_some (lookup n (with_tables r node).reservations)
      ≡ is_some (lookup n (with_tables r node).pod_count_per_gpu)
unfolding with_tables
with_tables-paired r node paired n = elim (Option-cases (lookup node r.reservations)) [
  | inl p ↦
      rw (p, with_tables)
        (rw (is_some-insert node n [] r.reservations, is_some-insert node n [] r.pod_count_per_gpu)
          (rw (paired n)))
  | inr (t, p) ↦ rw (p, with_tables) (paired n)
]

with_tables-IsBalanced :
    (r : Registry) (node : String) → IsBalanced r → IsBalanced (with_tables r node)
with_tables-IsBalanced r node b = record {
  reserved = λ n g.
      (with_tables-reads r node n g (b.paired node)).0
      ∙ b.reserved n g
      ∙ ap (sum_values (held n g)) (sym (with_tables-allocations r node));
  counted = λ n g.
      (with_tables-reads r node n g (b.paired node)).1
      ∙ b.counted n g
      ∙ ap (sum_values (held_count n g)) (sym (with_tables-allocations r node));
  nonneg = rw with_tables-allocations b.nonneg;
  paired = with_tables-paired r node b.paired;
}

-- Another entry of a pod, with memory of at least 0, keeps all entries so.
pub nonneg-track :
    (key : String) (e : AllocationEntry) (d : Dict (List AllocationEntry))
    → HasMemory e
    → AllValues (All HasMemory) d
    → AllValues (All HasMemory) (insert key (lookup_or [] key d ++ e ∷ []) d)
nonneg-track key e d h a =
    AllValues-insert (All HasMemory) key (lookup_or [] key d ++ e ∷ []) d
      (All-append HasMemory (lookup_or [] key d) (e ∷ []) (old (Option-cases (lookup key d)))
        (h, tt))
      a
  where
    old :
        (lookup key d ≡ none) ⊎ ((es : List AllocationEntry) × (lookup key d ≡ some es))
        → All HasMemory (lookup_or [] key d)
    old (inl p) = rw (p, lookup_or) tt
    old (inr (es, p)) =
        let at : All HasMemory es = rw p at (AllValues-lookup (All HasMemory) key d a) in
        rw (p, lookup_or) at

charge-IsBalanced :
    (t : Registry) (node gpu key : String) (memory : ℤ)
    → pos 0 ≤ℤ memory
    → IsBalanced t
    → IsBalanced (
        track
          (reserve t node gpu memory)
          key
          (record { node_name = node; gpu_uuid = gpu; memory_mb = memory; is_mig = false }))
unfolding track reserve get_reserved_memory get_pod_count insert2
charge-IsBalanced t node gpu key memory fits b =
    let e : AllocationEntry = record {
      node_name = node;
      gpu_uuid = gpu;
      memory_mb = memory;
      is_mig = false;
    } in
    record {
      reserved = λ n g. eq_of_parts _ _ (
          omega (
            int_laws,
            parts_of_eq (lookup2-add2 node gpu n g memory t.reservations),
            parts_of_eq (b.reserved n g),
            parts_of_eq (
                sum-track (held n g) key e t.pod_allocations refl
                  (λ xs. held-append n g xs (e ∷ []))),
          ));
      counted = λ n g. eq_of_parts _ _ (
          omega (
            int_laws,
            parts_of_eq (lookup2-add2 node gpu n g (pos 1) t.pod_count_per_gpu),
            parts_of_eq (b.counted n g),
            parts_of_eq (
                sum-track (held_count n g) key e t.pod_allocations refl
                  (λ xs. held_count-append n g xs (e ∷ []))),
          ));
      nonneg = nonneg-track key e t.pod_allocations fits b.nonneg;
      paired = λ n.
          rw (is_some-insert node n _ t.reservations, is_some-insert node n _ t.pod_count_per_gpu)
            (rw (b.paired n));
    }

pub cut-IsBalanced : (id : String) (r : Registry) → IsBalanced r → IsBalanced (cut id r)
unfolding cut get_reserved_memory get_pod_count
cut-IsBalanced id r b = record {
  reserved = b.reserved;
  counted = b.counted;
  nonneg = b.nonneg;
  paired = b.paired;
}

-- Reserving memory for a pod keeps the books, whatever GPU and pod it is for.
pub mark_gpu-IsBalanced :
    (r : Registry) (node gpu : String) (memory : ℤ) (namespace name : String)
    → pos 0 ≤ℤ memory
    → IsBalanced r
    → IsBalanced (mark_gpu_allocated_for_pod r node gpu memory namespace name)
unfolding mark_gpu_allocated_for_pod
mark_gpu-IsBalanced r node gpu memory namespace name fits b = cut-IsBalanced gpu _ (
    charge-IsBalanced (with_tables r node) node gpu (pod_key namespace name) memory fits
      (with_tables-IsBalanced r node b))

-- What a mark adds: the memory to the one GPU it names.
pub mark_gpu-reserved :
    (r : Registry) (node gpu : String) (memory : ℤ) (namespace name n g : String)
    → IsBalanced r
    → get_reserved_memory (mark_gpu_allocated_for_pod r node gpu memory namespace name) n g
      ≡ get_reserved_memory r n g +ℤ (if eq_str node n && eq_str gpu g then memory else pos 0)
unfolding mark_gpu_allocated_for_pod cut track reserve get_reserved_memory
mark_gpu-reserved r node gpu memory namespace name n g b =
    lookup2-add2 node gpu n g memory (with_tables r node).reservations
    ∙ ap (λ x. x +ℤ (if eq_str node n && eq_str gpu g then memory else pos 0))
        (with_tables-reads r node n g (b.paired node)).0
