-- ===== src/Dashboard/LogBuffer/Ring.antt =====
-- internal/dashboard/logbuffer.go: the ring what a write does to the ring.
use gpu_scheduler.Common.{
  ◌≡◌, refl, sym, ap, subst, ◌∙◌, ◌≢◌, ℕ, zero, suc, ◌+◌, ◌-◌, ◌%◌, ◌≤◌, ◌<◌, leb, not, some, List,
  [], ◌∷◌, ◌++◌, map, String, eq_str, length, keep, get_elem?, set, length-set, get_elem?-set_self,
  get_elem?-set_ne, get_elem?-append_left, get_elem?-snoc, length-append, append-nil, append-snoc,
  Bool-cases, arith, inl, inr,
}
use native.Mathlib.Nat.{mod-lt, mod-eq_of_lt, mod-add-mod, mod-eq-sub-mod}
use gpu_scheduler.Dashboard.LogBuffer.{
  LogEntry, LogBuffer, Texts, zero_entry, replicate, new_log_buffer, parse_line, put_at,
  write_lines,
}

-- The buffer shows the last `size` entries of a log, each in the slot of its number.
pub record IsLogOf (size : ℕ) (lb : LogBuffer) (log : List LogEntry) : Type 0 where
  pub is_size : lb.size ≡ size
  pub counted : lb.count ≡ length log
  pub placed : lb.at ≡ length log
  pub width : length lb.entries ≡ lb.size
  pub sized : 0 < lb.size
  pub kept :
      (i : ℕ)
      → i < length log
      → length log ≤ i + lb.size
      → get_elem? lb.entries (i % lb.size) ≡ get_elem? log i

length-replicate : (n : ℕ) (x : LogEntry) → length (replicate n x) ≡ n
length-replicate zero x = refl
length-replicate (suc n) x = ap suc (length-replicate n x)

pub new-IsLogOf : (n : ℕ) → IsLogOf (suc n) (new_log_buffer (suc n)) []
unfolding new_log_buffer
new-IsLogOf n = record {
  is_size = refl;
  counted = refl;
  placed = refl;
  width = length-replicate (suc n) zero_entry;
  sized = omega arith;
  kept = λ i h. absurd (omega arith);
}

-- Numbers less than the size apart have different slots.
slots_ne : (i d n : ℕ) → 0 < d → d < n → (i + d) % n ≢ i % n
slots_ne i d n pos_d few same =
    let r = i % n in
    let low : r < n = mod-lt i (omega arith) in
    let at : (r + d) % n ≡ r = mod-add-mod i n d ∙ same in
    elim (Bool-cases (leb n (r + d))) [
      | inr under ↦
          let h : r + d < n = ground arith in
          let e : r + d ≡ r = sym (mod-eq_of_lt h) ∙ at in omega (arith, e)
      | inl over ↦
          let h : n ≤ r + d = ground arith in
          let k : r + d - n < n = omega arith in
          let e : r + d - n ≡ r = sym (mod-eq_of_lt k) ∙ sym (mod-eq-sub-mod h) ∙ at in
          omega (arith, e)
    ]

kept_after :
    (size : ℕ) (lb : LogBuffer) (log : List LogEntry) (e : LogEntry)
    → IsLogOf size lb log
    → (slot : ℕ) → slot ≡ lb.at % lb.size
    → (i : ℕ) → i < length (log ++ e ∷ [])
    → length (log ++ e ∷ []) ≤ i + lb.size
    → get_elem? (set lb.entries slot e) (i % lb.size) ≡ get_elem? (log ++ e ∷ []) i
kept_after size lb log e v slot s i h k =
    let len : length (log ++ e ∷ []) ≡ suc (length log) =
      omega (arith, length-append log (e ∷ [])) in
    elim (Bool-cases (leb (length log) i)) [
      | inl last ↦
          let newest : i ≡ length log = ground arith in
          let here : i % lb.size ≡ slot = ap (λ m. m % lb.size) (newest ∙ sym v.placed) ∙ sym s in
          let inside : slot < length lb.entries = omega (arith, s, mod-lt lb.at v.sized, v.width) in
          ap (get_elem? (set lb.entries slot e)) here
          ∙ get_elem?-set_self lb.entries slot e inside
          ∙ sym (get_elem?-snoc log e)
          ∙ ap (get_elem? (log ++ e ∷ [])) (sym newest)
      | inr older ↦
          let before : i < length log = ground arith in
          let d = lb.at - i in
          let apart : slot ≢ i % lb.size = λ same.
            slots_ne i d lb.size (omega (arith, v.placed)) (omega (arith, v.placed))
              (ap (λ m. m % lb.size) (omega (arith, v.placed)) ∙ sym s ∙ same) in
          get_elem?-set_ne lb.entries slot (i % lb.size) e apart
          ∙ v.kept i before (omega arith)
          ∙ sym (get_elem?-append_left log (e ∷ []) i before)
    ]

-- A put adds the entry to the log.
put-IsLogOf :
    (size : ℕ) (lb : LogBuffer) (log : List LogEntry) (e : LogEntry) (n : ℕ)
    → lb.size ≡ n
    → IsLogOf size lb log
    → (lb' : LogBuffer) × (put_at lb e n ≡ some lb') × IsLogOf size lb' (log ++ e ∷ [])
unfolding put_at
put-IsLogOf size lb log e zero s v = absurd (omega (arith, v.sized))
put-IsLogOf size lb log e (suc n) s v =
    let len : length (log ++ e ∷ []) ≡ suc (length log) =
      omega (arith, length-append log (e ∷ [])) in
    (
      record lb {
        entries = set lb.entries (lb.at % suc n) e;
        at = lb.at + 1;
        count = lb.count + 1;
      },
      refl,
      record {
        is_size = v.is_size;
        counted = omega (arith, v.counted, len);
        placed = omega (arith, v.placed, len);
        width = length-set lb.entries (lb.at % suc n) e ∙ v.width;
        sized = v.sized;
        kept = kept_after size lb log e v (lb.at % suc n) (ap (λ m. lb.at % m) (sym s));
      },
    )

-- The entries of the lines of a write that are not empty.
abbrev pub entries_of : Texts → List String → List LogEntry
entries_of tx lines = map (parse_line tx) (keep (λ line. not (eq_str line "")) lines)

pub write_lines-IsLogOf :
    (size : ℕ) (tx : Texts) (lines : List String) (lb : LogBuffer) (log : List LogEntry)
    → IsLogOf size lb log
    → (lb' : LogBuffer) × (write_lines tx lb lines ≡ some lb')
      × IsLogOf size lb' (log ++ entries_of tx lines)
unfolding write_lines
write_lines-IsLogOf size tx [] lb log v =
    (lb, refl, subst (IsLogOf size lb) (sym (append-nil log)) v)
write_lines-IsLogOf size tx (line ∷ lines) lb log v = elim (Bool-cases (eq_str line "")) [
  | inl empty ↦ rw empty (write_lines-IsLogOf size tx lines lb log v)
  | inr full ↦
      let e = parse_line tx line in
      let (lb', put_ok, v') = put-IsLogOf size lb log e lb.size refl v in
      let (lb'', rest_ok, v'') = write_lines-IsLogOf size tx lines lb' (log ++ e ∷ []) v' in
      (
        lb'',
        rw full (rw put_ok rest_ok),
        rw full (subst (IsLogOf size lb'') (append-snoc log (entries_of tx lines) e) v''),
      )
]
