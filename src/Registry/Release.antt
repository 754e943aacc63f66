-- ===== src/Registry/Release.antt =====
-- internal/gpu/registry.go: ReleasePod, and the books that it leaves.
use gpu_scheduler.Common.{
  ◌≢◌, ltb_ℤ_of_le, ◌≡◌, refl, ◌∙◌, inl, inr, Bool, true, false, ◌&&◌, none, some, List, [], ◌∷◌,
  String, eq_str, eq_iff, arith, ℤ, pos, ◌+ℤ◌, ◌-ℤ◌, ◌≤ℤ◌, ltb_ℤ, int_laws, parts_of_eq,
  eq_of_parts, All, Bool-cases, Option-cases, if◌then◌else◌,
}
use gpu_scheduler.Common.Dict.{
  Dict, lookup, erase, lookup_or, lookup2, insert2, lookup2-insert2, sum_values, sum_values-erase,
  AllValues-lookup, AllValues-erase,
}
use gpu_scheduler.Registry.{
  AllocationEntry, Registry, set_mig_on, unreserve, release_entry, free_entry, cut, release_entries,
  release_pod, get_reserved_memory, get_pod_count, pod_key,
}
use gpu_scheduler.Registry.Accounting.{
  on_gpu, held, held_count, HasMemory, is_some, is_some-insert, IsBalanced, held-nonneg,
  held_count-nonneg, sum-held-nonneg, sum-held_count-nonneg,
}

-- What a loop round has to keep: the tables show the entries still to release, and what is `kept`.
record IsOwed (r : Registry) (es : List AllocationEntry) (kept kept_count : String → String → ℤ)
    : Type 0 where
  reserved : (n g : String) → get_reserved_memory r n g ≡ held n g es +ℤ kept n g
  counted : (n g : String) → get_pod_count r n g ≡ held_count n g es +ℤ kept_count n g
  paired : (n : String) → is_some (lookup n r.reservations) ≡ is_some (lookup n r.pod_count_per_gpu)

pub set_mig_on-keeps :
    (node uuid : String) (free : Bool) (r : Registry)
    → ((set_mig_on node uuid free r).reservations ≡ r.reservations)
      × ((set_mig_on node uuid free r).pod_count_per_gpu ≡ r.pod_count_per_gpu)
      × ((set_mig_on node uuid free r).pod_allocations ≡ r.pod_allocations)
unfolding set_mig_on
set_mig_on-keeps node uuid free r = ground arith

on_gpu-eq :
    (n g : String) (e : AllocationEntry)
    → e.is_mig ≡ false
    → on_gpu n g e ≡ (eq_str e.node_name n && eq_str e.gpu_uuid g)
on_gpu-eq n g e mig = ground arith

-- Taking `x` off one cell of a table whose cell shows `x` on top of the rest.
taken_off :
    (d : Dict (Dict ℤ)) (node gpu n g : String) (x r s : ℤ)
    → lookup2 n g d ≡ (if eq_str node n && eq_str gpu g then x else pos 0) +ℤ r +ℤ s
    → lookup2 n g (insert2 node gpu (lookup2 node gpu d -ℤ x) d) ≡ r +ℤ s
taken_off d node gpu n g x r s h =
    rw (lookup2-insert2 node gpu n g (lookup2 node gpu d -ℤ x) d)
      (elim (Bool-cases (eq_str node n && eq_str gpu g)) [
        | inl t ↦
            let same : (node ≡ n) × (gpu ≡ g) = ground (arith, eq_iff node n, eq_iff gpu g) in
            let at : lookup2 node gpu d ≡ lookup2 n g d = cc (same.0, same.1) in
            rw t (eq_of_parts _ _ (omega (int_laws, parts_of_eq at, parts_of_eq (rw t at h))))
        | inr t ↦ rw t (eq_of_parts _ _ (omega (int_laws, parts_of_eq (rw t at h))))
      ])

module _ (kept kept_count : String → String → ℤ) where
  release_mig-IsOwed :
      (r : Registry) (e : AllocationEntry) (es : List AllocationEntry)
      → e.is_mig ≡ true
      → IsOwed r (e ∷ es) kept kept_count
      → IsOwed (set_mig_on e.node_name e.gpu_uuid true r) es kept kept_count
  unfolding get_reserved_memory get_pod_count
  release_mig-IsOwed r e es mig o =
      let (res, cnt, _) = set_mig_on-keeps e.node_name e.gpu_uuid true r in
      record {
        reserved = λ n g.
            rw res (eq_of_parts _ _ (omega (int_laws, parts_of_eq (rw mig at (o.reserved n g)))));
        counted = λ n g.
            rw cnt (eq_of_parts _ _ (omega (int_laws, parts_of_eq (rw mig at (o.counted n g)))));
        paired = λ n. rw (res, cnt) (o.paired n);
      }

  -- The entry's own GPU has both tables, since the entry is counted on it.
  owed_table :
      (r : Registry) (e : AllocationEntry) (es : List AllocationEntry)
      → e.is_mig ≡ false
      → ((n g : String) → pos 0 ≤ℤ kept_count n g)
      → IsOwed r (e ∷ es) kept kept_count
      → lookup e.node_name r.reservations ≢ none
  unfolding get_pod_count lookup2
  owed_table r e es mig pos_kept o h =
      let own : on_gpu e.node_name e.gpu_uuid e ≡ true =
        ground (arith, mig, eq_iff e.node_name e.node_name, eq_iff e.gpu_uuid e.gpu_uuid) in
      let missing : lookup e.node_name r.pod_count_per_gpu ≡ none =
        ground (arith, h, o.paired e.node_name) in
      let none_counted : get_pod_count r e.node_name e.gpu_uuid ≡ pos 0 =
        rw (missing, lookup2, lookup_or) (unfold lookup in refl) in
      let counted = rw own at (o.counted e.node_name e.gpu_uuid) in
      omega (
        int_laws,
        parts_of_eq none_counted,
        parts_of_eq counted,
        pos_kept e.node_name e.gpu_uuid,
        held_count-nonneg e.node_name e.gpu_uuid es,
      )

  -- Releasing memory that is owed leaves the rest, and the clamp does not fire.
  unreserve-IsOwed :
      (r : Registry) (e : AllocationEntry) (es : List AllocationEntry)
      → e.is_mig ≡ false
      → All HasMemory es
      → ((n g : String) → pos 0 ≤ℤ kept n g)
      → IsOwed r (e ∷ es) kept kept_count
      → IsOwed (unreserve r e.node_name e.gpu_uuid e.memory_mb) es kept kept_count
  unfolding unreserve get_reserved_memory get_pod_count insert2
  unreserve-IsOwed r e es mig fits pos_kept o =
      let node = e.node_name in
      let gpu = e.gpu_uuid in
      let own : on_gpu node gpu e ≡ true =
        ground (arith, mig, eq_iff e.node_name e.node_name, eq_iff e.gpu_uuid e.gpu_uuid) in
      let owed = rw own at (o.reserved node gpu) in
      let left_eq : ltb_ℤ (lookup2 node gpu r.reservations -ℤ e.memory_mb) (pos 0) ≡ false =
        ltb_ℤ_of_le (lookup2 node gpu r.reservations -ℤ e.memory_mb) (pos 0)
          (omega (int_laws, parts_of_eq owed, held-nonneg node gpu es fits, pos_kept node gpu)) in
      rw (left_eq, unreserve)
        (record {
          reserved = λ n g.
              taken_off r.reservations node gpu n g e.memory_mb (held n g es) (kept n g)
                (rw (on_gpu-eq n g e mig) at (o.reserved n g));
          counted = λ n g.
              taken_off r.pod_count_per_gpu node gpu n g (pos 1) (held_count n g es)
                (kept_count n g) (rw (on_gpu-eq n g e mig) at (o.counted n g));
          paired = λ n.
              rw
                (
                  is_some-insert node n _ r.reservations,
                  is_some-insert node n _ r.pod_count_per_gpu,
                )
                (rw (o.paired n));
        })

  free_entry-IsOwed :
      (r : Registry) (e : AllocationEntry) (es : List AllocationEntry)
      → All HasMemory es
      → ((n g : String) → pos 0 ≤ℤ kept n g)
      → ((n g : String) → pos 0 ≤ℤ kept_count n g)
      → IsOwed r (e ∷ es) kept kept_count
      → IsOwed (free_entry r e) es kept kept_count
  unfolding free_entry
  free_entry-IsOwed r e es fits pos_kept pos_count o = elim (Bool-cases e.is_mig) [
    | inl mig ↦ rw (mig, free_entry) (release_mig-IsOwed r e es mig o)
    | inr mig ↦ elim (Option-cases (lookup e.node_name r.reservations)) [
      | inl p ↦ absurd (owed_table r e es mig pos_count o p)
      | inr (t, p) ↦ rw (mig, p, free_entry) (unreserve-IsOwed r e es mig fits pos_kept o)
    ]
  ]

  release_entry-IsOwed :
      (r : Registry) (e : AllocationEntry) (es : List AllocationEntry)
      → IsOwed (free_entry r e) es kept kept_count
      → IsOwed (release_entry r e) es kept kept_count
  unfolding release_entry cut get_reserved_memory get_pod_count
  release_entry-IsOwed r e es o = record {
    reserved = o.reserved;
    counted = o.counted;
    paired = o.paired;
  }

  release_entries-IsOwed :
      (r : Registry) (es : List AllocationEntry)
      → All HasMemory es
      → ((n g : String) → pos 0 ≤ℤ kept n g)
      → ((n g : String) → pos 0 ≤ℤ kept_count n g)
      → IsOwed r es kept kept_count
      → IsOwed (release_entries r es) [] kept kept_count
  unfolding release_entries
  release_entries-IsOwed r [] fits pos_kept pos_count o = o
  release_entries-IsOwed r (e ∷ es) fits pos_kept pos_count o =
      release_entries-IsOwed (release_entry r e) es fits.1 pos_kept pos_count
        (release_entry-IsOwed r e es (free_entry-IsOwed r e es fits.1 pos_kept pos_count o))

unreserve-allocations :
    (r : Registry) (node gpu : String) (memory : ℤ)
    → (unreserve r node gpu memory).pod_allocations ≡ r.pod_allocations
unfolding unreserve
unreserve-allocations r node gpu memory = ground arith

release_entry-allocations :
    (r : Registry) (e : AllocationEntry) → (release_entry r e).pod_allocations ≡ r.pod_allocations
unfolding release_entry cut free_entry
release_entry-allocations r e = ground (
  arith,
  (set_mig_on-keeps e.node_name e.gpu_uuid true r).2,
  unreserve-allocations r e.node_name e.gpu_uuid e.memory_mb,
)

pub release_entries-allocations :
    (r : Registry) (es : List AllocationEntry)
    → (release_entries r es).pod_allocations ≡ r.pod_allocations
unfolding release_entries
release_entries-allocations r [] = refl
release_entries-allocations r (e ∷ es) =
    release_entries-allocations (release_entry r e) es ∙ release_entry-allocations r e

module _ (r : Registry) (namespace name : String) (b : IsBalanced r)
    (es : List AllocationEntry) where
  abbrev others : Dict (List AllocationEntry)
  others = erase (pod_key namespace name) r.pod_allocations

  -- The sums of the registry are those of the pod and of the others.
  split_sum :
      (f : List AllocationEntry → ℤ) {x : ℤ}
      → lookup (pod_key namespace name) r.pod_allocations ≡ some es
      → x ≡ sum_values f r.pod_allocations
      → x ≡ f es +ℤ sum_values f others
  split_sum f p e =
      let split = rw p at (sum_values-erase f (pod_key namespace name) r.pod_allocations) in
      eq_of_parts _ _ (omega (int_laws, parts_of_eq e, parts_of_eq split))

  release_known :
      lookup (pod_key namespace name) r.pod_allocations ≡ some es
      → IsOwed
          (release_entries r es)
          []
          (λ n g. sum_values (held n g) others)
          (λ n g. sum_values (held_count n g) others)
  release_known p =
      release_entries-IsOwed (λ n g. sum_values (held n g) others)
        (λ n g. sum_values (held_count n g) others) r es
        (rw p at
          (AllValues-lookup (All HasMemory) (pod_key namespace name) r.pod_allocations b.nonneg))
        (λ n g.
          sum-held-nonneg n g others
            (AllValues-erase (All HasMemory) (pod_key namespace name) r.pod_allocations b.nonneg))
        (λ n g. sum-held_count-nonneg n g others)
        (record {
          reserved = λ n g. split_sum (held n g) p (b.reserved n g);
          counted = λ n g. split_sum (held_count n g) p (b.counted n g);
          paired = b.paired;
        })

-- Releasing a pod keeps the books: only its own entries leave them.
pub release_pod-IsBalanced :
    (r : Registry) (namespace name : String)
    → IsBalanced r
    → IsBalanced (release_pod r namespace name)
unfolding release_pod get_reserved_memory get_pod_count
release_pod-IsBalanced r namespace name b =
    elim (Option-cases (lookup (pod_key namespace name) r.pod_allocations)) [
      | inl p ↦ rw (p, release_pod) b
      | inr (es, p) ↦
          let o = release_known r namespace name b es p in
          let same = release_entries-allocations r es in
          rw (p, release_pod)
            (record {
              reserved =
                  λ n g. rw same (eq_of_parts _ _ (omega (int_laws, parts_of_eq (o.reserved n g))));
              counted =
                  λ n g. rw same (eq_of_parts _ _ (omega (int_laws, parts_of_eq (o.counted n g))));
              nonneg = rw same (
                  AllValues-erase (All HasMemory) (pod_key namespace name) r.pod_allocations
                    b.nonneg);
              paired = o.paired;
            })
    ]
