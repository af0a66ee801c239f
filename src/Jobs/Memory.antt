-- ===== src/Jobs/Memory.antt =====
-- The memory of a manager: eviction keeps its parts in agreement.
use icminers_stratum_v.Prelude.{length-append}
use icminers_stratum_v.Prelude.{length-drop, zero}
use icminers_stratum_v.Prelude.{
  ℕ, suc, ◌-◌, ◌≤◌, ◌≡◌, refl, ◌∙◌, List, [], ◌∷◌, ◌++◌, Bool, true, false, ◌||◌, arith, ltb,
  length, drop, Option, none, some, Str, list_beq_iff, str_eq, Bool-cases, inl, inr,
}
use icminers_stratum_v.Prelude.Dict.{Dict, lookup, insert, erase, lookup-insert, lookup-erase}
use icminers_stratum_v.Adapter.{MiningJob}
use icminers_stratum_v.Jobs.Ids.{read_id}
use icminers_stratum_v.Jobs.Manager.{Manager, Memory, evict, max_remembered_jobs}
use icminers_stratum_v.Jobs.Submit.{contains}

abbrev pub is_some {ℓ} : {A : Type ℓ} → Option A → Bool
is_some none = false
is_some (some a) = true

abbrev pub Distinct : List Str → Type 0
Distinct [] = Unit {0}
Distinct (x ∷ xs) = (contains x xs ≡ false) × Distinct xs

-- The three parts of a memory agree: a job is remembered exactly if its id is in the order, only
-- remembered jobs have seen shares, and no id stands twice.
pub record Agrees (mem : Memory) : Type 0 where
  pub remembered : (id : Str) → is_some (lookup id mem.by_id) ≡ contains id mem.order
  pub seen : (id : Str) → is_some (lookup id mem.dup_by_job) ≡ true → contains id mem.order ≡ true
  pub distinct : Distinct mem.order

pub record Inv (m : Manager) : Type 0 where
  pub agrees : Agrees m.memory
  pub bounded : length m.memory.order ≤ max_remembered_jobs
  pub issued : (id : Str) → contains id m.memory.order ≡ true → read_id id ≤ m.job_counter

abbrev pub memory : List Str → Dict Str MiningJob → Dict Str (List Str) → Memory
memory order by_id dups = record { by_id = by_id; dup_by_job = dups; order = order }

-- Dropping the oldest job keeps the parts in agreement.
Agrees-tail :
    (id : Str) (rest : List Str) (by_id : Dict Str MiningJob) (dups : Dict Str (List Str))
    → Agrees (memory (id ∷ rest) by_id dups)
    → Agrees (memory rest (erase id by_id) (erase id dups))
unfolding contains
Agrees-tail id rest by_id dups v = record {
  remembered =
      λ j. ground (arith, lookup-erase id j by_id, v.remembered j, v.distinct, list_beq_iff id j);
  seen = λ j h. ground (arith, lookup-erase id j dups, v.seen j, list_beq_iff id j);
  distinct = v.distinct.1;
}

pub evict-Agrees :
    (order : List Str) (by_id : Dict Str MiningJob) (dups : Dict Str (List Str))
    → Agrees (memory order by_id dups)
    → Agrees (evict order by_id dups)
unfolding evict
evict-Agrees [] by_id dups v = v
evict-Agrees (id ∷ rest) by_id dups v =
    elim (Bool-cases (ltb max_remembered_jobs (length (id ∷ rest)))) [
      | inl full ↦
          rw full
            (evict-Agrees rest (erase id by_id) (erase id dups) (Agrees-tail id rest by_id dups v))
      | inr room ↦ rw room v
    ]

-- Exactly the latest eight ids stay.
pub order-evict :
    (order : List Str) (by_id : Dict Str MiningJob) (dups : Dict Str (List Str))
    → (evict order by_id dups).order ≡ drop (length order - max_remembered_jobs) order
unfolding evict
order-evict [] by_id dups = refl
order-evict (id ∷ rest) by_id dups =
    elim (Bool-cases (ltb max_remembered_jobs (length (id ∷ rest)))) [
      | inl full ↦
          let one_more : suc (length rest) - 8 ≡ suc (length rest - 8) = ground arith in
          rw (full, one_more) (order-evict rest (erase id by_id) (erase id dups))
      | inr room ↦ let none_over : suc (length rest) - 8 ≡ 0 = ground arith in rw (room, none_over)
    ]

pub contains-append :
    (j : Str) (xs ys : List Str) → contains j (xs ++ ys) ≡ (contains j xs || contains j ys)
unfolding contains
contains-append j [] ys = refl
contains-append j (x ∷ xs) ys = ground (arith, contains-append j xs ys)

pub contains-drop :
    (j : Str) (n : ℕ) (xs : List Str) → contains j (drop n xs) ≡ true → contains j xs ≡ true
unfolding contains
contains-drop j zero xs h = h
contains-drop j (suc n) [] h = h
contains-drop j (suc n) (x ∷ xs) h = ground (arith, contains-drop j n xs)

pub Distinct-snoc :
    (xs : List Str) (id : Str) → Distinct xs → contains id xs ≡ false → Distinct (xs ++ id ∷ [])
unfolding contains
Distinct-snoc [] id d h = (refl, tt)
Distinct-snoc (x ∷ xs) id d h = (
  ground (arith, contains-append x xs (id ∷ []), list_beq_iff x id, list_beq_iff id x),
  Distinct-snoc xs id d.1 (ground arith),
)

-- What stays is found as before.
pub lookup-evict :
    (j : Str) (order : List Str) (by_id : Dict Str MiningJob) (dups : Dict Str (List Str))
    → Distinct order
    → contains j (evict order by_id dups).order ≡ true
    → lookup j (evict order by_id dups).by_id ≡ lookup j by_id
unfolding evict
lookup-evict j [] by_id dups d h = refl
lookup-evict j (id ∷ rest) by_id dups d h =
    elim (Bool-cases (ltb max_remembered_jobs (length (id ∷ rest)))) [
      | inr room ↦ rw room
      | inl full ↦
          let kept : contains j (evict rest (erase id by_id) (erase id dups)).order ≡ true =
            rw full at h in
          let inside : contains j rest ≡ true =
            contains-drop j (length rest - 8) rest
              (rw (order-evict rest (erase id by_id) (erase id dups)) at kept) in
          rw full (
            lookup-evict j rest (erase id by_id) (erase id dups) d.1 kept
            ∙ ground (arith, lookup-erase id j by_id, list_beq_iff id j))
    ]

-- A new id on a memory that agrees.
pub Agrees-insert :
    (mem : Memory) (id : Str) (job : MiningJob)
    → Agrees mem
    → contains id mem.order ≡ false
    → Agrees (memory (mem.order ++ id ∷ []) (insert id job mem.by_id) mem.dup_by_job)
unfolding contains
Agrees-insert mem id job v new = record {
  remembered = λ j. ground (
    arith,
    lookup-insert id j job mem.by_id,
    v.remembered j,
    contains-append j mem.order (id ∷ []),
  );
  seen = λ j h. ground (arith, v.seen j, contains-append j mem.order (id ∷ []));
  distinct = Distinct-snoc mem.order id v.distinct new;
}

pub length-drop_excess : (xs : List Str) → length (drop (length xs - 8) xs) ≤ 8
length-drop_excess xs = omega (arith, length-drop (length xs - 8) xs)

pub contains-drop_last :
    (id : Str) (n : ℕ) (xs : List Str) → n ≤ length xs → contains id (drop n (xs ++ id ∷ [])) ≡ true
unfolding contains
contains-drop_last id zero xs h =
    rw (contains-append id xs (id ∷ [])) (ground (arith, list_beq_iff id id))
contains-drop_last id (suc n) [] h = elim h [ ]
contains-drop_last id (suc n) (x ∷ xs) h = contains-drop_last id n xs (omega arith)

-- The newest id is among the latest eight.
pub contains-last :
    (id : Str) (xs : List Str)
    → let order = xs ++ id ∷ [] in contains id (drop (length order - 8) order) ≡ true
unfolding contains
contains-last id xs =
    let order = xs ++ id ∷ [] in
    let size = length-append xs (id ∷ []) in
    let early : length order - 8 ≤ length xs = omega (arith, size) in
    contains-drop_last id (length order - 8) xs early
