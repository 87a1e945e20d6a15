-- ===== src/Worker/Claim/Laws.antt =====
-- What `claim_attempt` does, on every branch: which row it chooses, and what it writes.
use job_schedular.Base.{
  Bool-cases, ℕ, ◌≤◌, ◌<◌, ◌≡◌, refl, sym, subst, ◌⊎◌, inl, inr, Bool, true, false, Option, none,
  some, List, [], String, Memᴰ, arith, le→leb, ◌==◌, ==-refl, Option-cases, head?, head?-eq_some,
  head?-eq_none, length, take-eq_self, IsSorted-take, IsSorted-head, Memᴰ-of_take,
}
use job_schedular.Table.{select, count, find?, update}
use job_schedular.Table.Counts.{count_pos_of_Memᴰ, count-update-le, length-select, count-all}
use job_schedular.Table.Rows.{find?_of_unique, Memᴰ-select, Memᴰ-of_select, Memᴰ-update}
use job_schedular.OrderBy.{OrderBy}
use job_schedular.OrderBy.Insertion.{sort_by, mem-sort_by, sort_by-IsSorted, sort_by-nil, Precedes}
use job_schedular.Models.{JobAttempt, Database}
use job_schedular.Models.Status.{attempt_is_queued}
use job_schedular.Worker.Claim.{
  EarlierFirst, priority_order, by_priority, is_claimable, is_still_queued, candidates,
  candidate_limit, claimed_by, claim_row, claim_attempt,
}

-- The row is updated and read back, if no other row has its id.
pub claim_row_lem :
    (worker_id : String) (now : ℕ) (a : JobAttempt) (db : Database)
    → count (λ b. b.id == a.id) db.attempts ≤ 1
    → Memᴰ a db.attempts
    → attempt_is_queued a.status ≡ true
    → claim_row worker_id now (some a) db ≡ (
      record db {
        attempts =
            update (is_still_queued a.id) (claimed_by worker_id now a.fencing_token) db.attempts;
      },
      some (claimed_by worker_id now a.fencing_token a),
    )
unfolding claim_row
claim_row_lem worker_id now a db unique m queued = ground (arith, found, read_back)
  where
    hit : is_still_queued a.id a ≡ true
    hit = ground (arith, ==-refl a.id)

    found : 0 < count (is_still_queued a.id) db.attempts
    found = count_pos_of_Memᴰ (is_still_queued a.id) db.attempts a hit m

    rows : List JobAttempt
    rows = update (is_still_queued a.id) (claimed_by worker_id now a.fencing_token) db.attempts

    same_id : (b : JobAttempt) → (claimed_by worker_id now a.fencing_token b).id ≡ b.id
    same_id b = unfold claimed_by in refl

    read_back : find? (λ b. b.id == a.id) rows ≡ some (claimed_by worker_id now a.fencing_token a)
    read_back =
        find?_of_unique (λ b. b.id == a.id) rows _
          (omega (
            arith,
            count-update-le (λ b. b.id == a.id) (is_still_queued a.id)
                (claimed_by worker_id now a.fencing_token) (λ b e h. rw (← same_id b) h)
                db.attempts,
          ))
          (Memᴰ-update (is_still_queued a.id) (claimed_by worker_id now a.fencing_token) db.attempts
            a m hit)
          (rw (same_id a) (==-refl a.id))

-- A higher priority, or the same one and not scheduled later.
abbrev pub Outranks : JobAttempt → JobAttempt → Type 0
Outranks a b =
    (priority_order b.priority < priority_order a.priority)
    ⊎ ((priority_order a.priority ≡ priority_order b.priority)
        × (a.scheduled_for ≤ b.scheduled_for))

module _ (o : OrderBy EarlierFirst) (locked : ℕ → Bool) (queried : ℕ) (db : Database) where
  abbrev chosen : Option JobAttempt
  chosen = head? (sort_by by_priority (candidates o locked queried db))

  candidates-mem :
      (b : JobAttempt)
      → Memᴰ b (candidates o locked queried db)
      → Memᴰ b db.attempts × (is_claimable locked queried b ≡ true)
  unfolding candidates
  candidates-mem b m =
      Memᴰ-of_select (is_claimable locked queried) db.attempts b
        ((o.mem-sort b _).0 (Memᴰ-of_take b candidate_limit _ m))

  -- Up to fifty claimable rows are all candidates.
  pub candidates_all :
      count (is_claimable locked queried) db.attempts ≤ candidate_limit
      → (b : JobAttempt) → Memᴰ b db.attempts
      → is_claimable locked queried b ≡ true
      → Memᴰ b (candidates o locked queried db)
  unfolding candidates
  candidates_all few b m e =
      subst (Memᴰ b) (sym (take-eq_self candidate_limit _ fits))
        ((o.mem-sort b _).1 (Memᴰ-select (is_claimable locked queried) db.attempts b m e))
    where
      fits : length (o.sort (select (is_claimable locked queried) db.attempts)) ≤ candidate_limit
      fits = omega (
        arith,
        count-all (o.sort (select (is_claimable locked queried) db.attempts)),
        o.count-sort (λ _. true) (select (is_claimable locked queried) db.attempts),
        count-all (select (is_claimable locked queried) db.attempts),
        length-select (is_claimable locked queried) db.attempts,
      )

  chosen-Outranks :
      (a b : JobAttempt) → chosen ≡ some a → Memᴰ b (candidates o locked queried db) → Outranks a b
  unfolding candidates
  chosen-Outranks a b e m = ranked (
      IsSorted-head (Precedes by_priority EarlierFirst) itself (sort_by by_priority cs) a b
        (sort_by-IsSorted by_priority total trans EarlierFirst cs
          (IsSorted-take EarlierFirst candidate_limit _ (o.sort-IsSorted _)))
        e ((mem-sort_by by_priority b cs).1 m))
    where
      cs : List JobAttempt
      cs = candidates o locked queried db

      itself : (x : JobAttempt) → Precedes by_priority EarlierFirst x x
      itself x = (le→leb _ _ (omega arith), λ _. omega arith)

      total : (x y : JobAttempt) → by_priority x y ≡ false → by_priority y x ≡ true
      total x y h = ground arith

      trans :
          (x y z : JobAttempt)
          → by_priority x y ≡ true
          → by_priority y z ≡ true
          → by_priority x z ≡ true
      trans x y z h k = ground arith

      ranked : Precedes by_priority EarlierFirst a b → Outranks a b
      ranked h = elim (Bool-cases (by_priority b a)) [
        | inl tie ↦ inr (ground (arith, h.0, tie), h.1 tie)
        | inr above ↦ inl (ground (arith, above))
      ]

  -- The three ways in which the claim can end, as one: nothing to claim, or the first candidate.
  pub claim_cases :
      (P : Option JobAttempt → Type 0)
      → (candidates o locked queried db ≡ [] → P none)
      → ((a : JobAttempt)
          → Memᴰ a db.attempts
          → is_claimable locked queried a ≡ true
          → ((b : JobAttempt) → Memᴰ b (candidates o locked queried db) → Outranks a b)
          → P (some a))
      → P chosen
  claim_cases P empty first = elim (Option-cases chosen) [
    | inl e ↦
        rw e (empty (sort_by-nil by_priority (candidates o locked queried db) (head?-eq_none _ e)))
    | inr (a, e) ↦
        let from =
          candidates-mem a (
            (mem-sort_by by_priority a (candidates o locked queried db)).0 (head?-eq_some _ a e)) in
        rw e (first a from.0 from.1 (λ b. chosen-Outranks a b e))
  ]

abbrev pub ClaimsBest :
    (ℕ → Bool) → ℕ → ℕ → String → List JobAttempt → Database → Database × Option JobAttempt → Type 0
ClaimsBest locked queried now worker_id cs db r =
    (a : JobAttempt) × Memᴰ a db.attempts
    × (is_claimable locked queried a ≡ true)
    × ((b : JobAttempt) → Memᴰ b cs → Outranks a b)
    × (r ≡ (
      record db {
        attempts =
            update (is_still_queued a.id) (claimed_by worker_id now a.fencing_token) db.attempts;
      },
      some (claimed_by worker_id now a.fencing_token a),
    ))

pub claimable-queued :
    (locked : ℕ → Bool) (queried : ℕ) (a : JobAttempt)
    → is_claimable locked queried a ≡ true
    → attempt_is_queued a.status ≡ true
claimable-queued locked queried a h = ground arith

-- If the ids of attempts are unique, a claim either finds no candidate and changes nothing, or takes
-- a claimable row that no candidate outranks: it writes exactly that row, and returns it as written.
pub claim_attempt-ClaimsBest :
    (o : OrderBy EarlierFirst) (locked : ℕ → Bool) (queried now : ℕ) (worker_id : String)
    (db : Database)
    → ((i : ℕ) → count (λ b. b.id == i) db.attempts ≤ 1)
    → ((candidates o locked queried db ≡ [])
        × (claim_attempt o locked queried now worker_id db ≡ (db, none)))
      ⊎ ClaimsBest locked queried now worker_id
          (candidates o locked queried db)
          db
          (claim_attempt o locked queried now worker_id db)
unfolding claim_attempt
claim_attempt-ClaimsBest o locked queried now worker_id db unique =
    claim_cases o locked queried db
      (λ c.
        ((candidates o locked queried db ≡ []) × (claim_row worker_id now c db ≡ (db, none)))
        ⊎ ClaimsBest locked queried now worker_id (candidates o locked queried db) db
            (claim_row worker_id now c db))
      (λ e. inl (e, unfold claim_row in refl))
      (λ a m claimable first. inr (
        a,
        m,
        claimable,
        first,
        claim_row_lem worker_id now a db (unique a.id) m
            (claimable-queued locked queried a claimable),
      ))
