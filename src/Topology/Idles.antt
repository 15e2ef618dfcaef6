-- ===== src/Topology/Idles.antt =====
-- Which agents `reparentAgent` of apps/daemon/src/topology-order-service.ts finds idle.
use nanasa.Prelude.{
  ◌≤◌, String, ◌==◌, false, ◌&&◌, ◌≡◌, refl, sym, ap, subst, Option, none, some, List, [], ◌∷◌,
  ◌++◌, arith, if◌then◌else◌, Bool-cases, inl, inr, ◌⊎◌, All, All-imp, keep, some_and, ltb,
}
use nanasa.Topology.Service.{
  Run, Membership, Rows, find_membership, has_active_run, latest_run, is_busy,
}

-- One of the runs, of the greatest generation, is not wanted, or there is none.
abbrev pub IsUnwanted : List Run → Type 0
IsUnwanted runs =
    (runs ≡ [])
    ⊎ ((run : Run) × (before : List Run) × (after : List Run) × (runs ≡ before ++ run ∷ after)
        × All (λ other. other.generation ≤ run.generation) runs
        × (run.is_desired ≡ false))

-- The agent is an active member of the group, none of its runs there is active, and its latest one
-- there is not wanted.
abbrev pub IsIdle : String → String → Rows → Type 0
IsIdle source_id agent_id rows =
    (m : Membership) × (find_membership source_id agent_id rows.memberships ≡ some m)
    × All (λ run. run.is_active ≡ false)
        (keep (λ run. run.group_id == source_id && run.member_id == m.member_id) rows.runs)
    × IsUnwanted (keep (λ run. run.group_id == source_id && run.member_id == m.member_id) rows.runs)

abbrev IsLatest : Option Run → List Run → Type 0
IsLatest none runs = runs ≡ []
IsLatest (some run) runs =
    ((before : List Run) × (after : List Run) × (runs ≡ before ++ run ∷ after))
    × All (λ other. other.generation ≤ run.generation) runs

latest_run-IsLatest : (runs : List Run) (o : Option Run) → latest_run runs ≡ o → IsLatest o runs
unfolding latest_run
latest_run-IsLatest [] none h = refl
latest_run-IsLatest [] (some r) h = absurd (cc)
latest_run-IsLatest (x ∷ xs) o h =
    go (latest_run xs) (latest_run-IsLatest xs (latest_run xs) refl) h
  where
    first : Option Run → Run
    first p = elim p [
      | none ↦ x
      | some other ↦ if ltb x.generation other.generation then other else x
    ]

    go :
        (p : Option Run)
        → IsLatest p xs
        → (elim p [
          | none ↦ some x
          | some other ↦ some (if ltb x.generation other.generation then other else x)
        ])
          ≡ o
        → IsLatest o (x ∷ xs)
    go none l h =
        subst (λ p. IsLatest p (x ∷ xs)) h (([], xs, refl), (omega arith, subst (All _) (sym l) tt))
    go (some r) ((before, after, split), l) h = elim (Bool-cases (ltb x.generation r.generation)) [
      | inl e ↦
          subst (λ p. IsLatest p (x ∷ xs)) (rw e at h)
            ((x ∷ before, after, ap (λ ys. x ∷ ys) split), (ground arith, l))
      | inr e ↦
          subst (λ p. IsLatest p (x ∷ xs)) (rw e at h)
            (
              ([], xs, refl),
              (
                omega arith,
                All-imp (λ (y : Run). y.generation ≤ r.generation)
                    (λ y. y.generation ≤ x.generation) xs (λ y k. ground arith) l,
              ),
            )
    ]

not_active :
    (group_id member_id : String) (runs : List Run)
    → has_active_run group_id member_id runs ≡ false
    → All
        (λ run. run.is_active ≡ false)
        (keep (λ run. run.group_id == group_id && run.member_id == member_id) runs)
unfolding has_active_run
not_active group_id member_id [] h = tt
not_active group_id member_id (r ∷ rs) h =
    let rest = not_active group_id member_id rs (ground arith) in
    elim (Bool-cases (r.group_id == group_id && r.member_id == member_id)) [
      | inl e ↦ rw e (ground arith, rest)
      | inr e ↦ rw e rest
    ]

unwanted :
    (runs : List Run) (o : Option Run)
    → IsLatest o runs
    → some_and o (λ run. run.is_desired) ≡ false
    → IsUnwanted runs
unwanted runs none l h = inl l
unwanted runs (some r) ((before, after, split), l) h = inr (r, before, after, split, l, h)

-- What the guard of a move finds out.
pub is_busy-IsIdle :
    (source_id agent_id : String) (rows : Rows) (m : Membership)
    → find_membership source_id agent_id rows.memberships ≡ some m
    → is_busy source_id m.member_id rows.runs ≡ false
    → IsIdle source_id agent_id rows
unfolding is_busy
is_busy-IsIdle source_id agent_id rows m found h =
    let own = keep (λ (r : Run). r.group_id == source_id && r.member_id == m.member_id) rows.runs in
    (
      m,
      found,
      not_active source_id m.member_id rows.runs (ground arith),
      unwanted own (latest_run own) (latest_run-IsLatest own (latest_run own) refl) (ground arith),
    )
