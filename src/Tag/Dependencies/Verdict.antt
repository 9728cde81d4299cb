-- ===== src/Tag/Dependencies/Verdict.antt =====
-- What `graphCycleState` (backend/internal/tag/service.go) decides.
use iot_edge.Prelude.{
  ℕ, zero, suc, ◌+◌, ◌≡◌, ◌⊎◌, subst, true, List, [], ◌∷◌, if◌then◌else◌, if-elim, inl, inr, arith,
}
use iot_edge.Datalogger.Batch.{member}
use iot_edge.Tag.Dependencies.{
  max_tag_dependency_depth, edges_of, Outcome, circular, too_deep, clear, then_check, check_all,
  graph_cycle_state, start_check,
}

pub member_cases :
    (id x : ℕ) (ids : List ℕ) → member id (x ∷ ids) ≡ true → (x ≡ id) ⊎ (member id ids ≡ true)
member_cases id x ids h = ground arith

pub member_self : (id : ℕ) (ids : List ℕ) → member id (id ∷ ids) ≡ true
member_self id ids = ground arith

pub member_later : (id x : ℕ) (ids : List ℕ) → member id ids ≡ true → member id (x ∷ ids) ≡ true
member_later id x ids h = ground (arith, h)

member_only : (id x : ℕ) → member id (x ∷ []) ≡ true → x ≡ id
member_only id x h = ground arith

module _ (graph : List (ℕ × List ℕ)) where
  -- A chain of so many dependencies from one tag to another.
  pub data Chain : ℕ → ℕ → ℕ → Type 0 where
    here : {id : ℕ} → Chain 0 id id
    further :
        {n from mid to : ℕ}
        → Chain n from mid
        → member to (edges_of mid graph) ≡ true
        → Chain (suc n) from to

  -- A list of tags in which the dependencies of each come after it.
  abbrev pub IsOrdered : List ℕ → Type 0
  IsOrdered [] = Unit
  IsOrdered (id ∷ done) =
      ((input : ℕ) → member input (edges_of id graph) ≡ true → member input done ≡ true)
      × IsOrdered done

  -- What an outcome says of the tag from which the check started.
  abbrev pub IsVerdict : ℕ → Outcome → Type 0
  IsVerdict start circular = (id n length : ℕ) × Chain n start id × Chain (suc length) id id
  IsVerdict start too_deep = (id : ℕ) × Chain (suc max_tag_dependency_depth) start id
  IsVerdict start (clear done) = IsOrdered done × (member start done ≡ true)

  abbrev Sub : List ℕ → List ℕ → Type 0
  Sub done later = (id : ℕ) → member id done ≡ true → member id later ≡ true

  module _ (start : ℕ) where
    -- What a call promises, where a meter of the path leads to the tag in so many steps.
    abbrev Promises : (done ids : List ℕ) → Outcome → Type 0
    Promises done ids circular = IsVerdict start circular
    Promises done ids too_deep = IsVerdict start too_deep
    Promises done ids (clear later) =
        IsOrdered done
        → IsOrdered later
          × Sub done later
          × ((id : ℕ) → member id ids ≡ true → member id later ≡ true)

    joined :
        (o : Outcome) (done mid : List ℕ) (x : ℕ) (ids : List ℕ)
        → Promises done (x ∷ []) (clear mid)
        → Promises mid ids o
        → Promises done (x ∷ ids) o
    joined circular done mid x ids h k = k
    joined too_deep done mid x ids h k = k
    joined (clear later) done mid x ids h k = λ ordered.
        let (ordered_mid, sub, first) = h ordered in
        let (ordered_later, sub_later, all) = k ordered_mid in
        (
          ordered_later,
          λ id m. sub_later id (sub id m),
          λ id m. elim (member_cases id x ids m) [
            | inl same ↦
                sub_later id (subst (λ i. member i mid ≡ true) same (first x (member_self x [])))
            | inr there ↦ all id there
          ],
        )

    chained :
        (o : Outcome) (f : List ℕ → ℕ → Outcome) (done : List ℕ) (x : ℕ) (ids : List ℕ)
        → Promises done (x ∷ []) o
        → ((mid : List ℕ) → Promises mid ids (check_all f mid ids))
        → Promises done (x ∷ ids) (then_check o (λ later. check_all f later ids))
    chained circular f done x ids h k = h
    chained too_deep f done x ids h k = h
    chained (clear mid) f done x ids h k = joined (check_all f mid ids) done mid x ids h (k mid)

    check_all-Promises :
        (f : List ℕ → ℕ → Outcome) (done ids : List ℕ)
        → ((d : List ℕ) (id : ℕ) → member id ids ≡ true → Promises d (id ∷ []) (f d id))
        → Promises done ids (check_all f done ids)
    check_all-Promises f done [] h = λ ordered. (ordered, λ id m. m, λ id m. cc m)
    check_all-Promises f done (x ∷ ids) h =
        chained (f done x) f done x ids (h done x (member_self x ids))
          (λ mid. check_all-Promises f mid ids (λ d id m. h d id (member_later id x ids m)))

    -- Each tag under way leads to the one that is visited.
    abbrev Leads : (path : List ℕ) → ℕ → Type 0
    Leads path id = (p : ℕ) → member p path ≡ true → (n : ℕ) × Chain (suc n) p id

    Leads-on :
        (path : List ℕ) (id to : ℕ)
        → Leads path id
        → member to (edges_of id graph) ≡ true
        → Leads (id ∷ path) to
    Leads-on path id to leads m p there = elim (member_cases p id path there) [
      | inl same ↦ (0, subst (λ i. Chain 1 i to) same (further here m))
      | inr before ↦ let (n, chain) = leads p before in (suc n, further chain m)
    ]

    closed :
        (o : Outcome) (done : List ℕ) (id : ℕ)
        → Promises done (edges_of id graph) o
        → Promises done (id ∷ []) (then_check o (λ later. clear (id ∷ later)))
    closed circular done id h = h
    closed too_deep done id h = h
    closed (clear later) done id h = λ ordered.
        let (ordered_later, sub, all) = h ordered in
        (
          (all, ordered_later),
          λ i m. member_later i id later (sub i m),
          λ i m.
              subst (λ x. member x (id ∷ later) ≡ true) (member_only i id m) (member_self id later),
        )

    known :
        (path done : List ℕ) (id n : ℕ) (o : Outcome)
        → Chain n start id
        → Leads path id
        → Promises done (id ∷ []) o
        → Promises done
            (id ∷ [])
            (if member id path then circular else if member id done then clear done else o)
    known path done id n o chain leads h =
        if-elim (Promises done (id ∷ [])) (member id path)
          (λ m. let (length, loop) = leads id m in (id, n, length, chain, loop))
          (λ _.
            if-elim (Promises done (id ∷ [])) (member id done)
              (λ m ordered. (
                ordered,
                λ i there. there,
                λ i there. subst (λ x. member x done ≡ true) (member_only i id there) m,
              ))
              (λ _. h))

    graph_cycle_state-Promises :
        (left : ℕ) (path done : List ℕ) (id n : ℕ)
        → Chain n start id
        → n + left ≡ suc max_tag_dependency_depth
        → Leads path id
        → Promises done (id ∷ []) (graph_cycle_state left graph path done id)
    unfolding graph_cycle_state
    graph_cycle_state-Promises zero path done id n chain depth leads =
        known path done id n too_deep chain leads
          (id, subst (λ k. Chain k start id) (omega arith) chain)
    graph_cycle_state-Promises (suc left) path done id n chain depth leads =
        let inner = check_all (graph_cycle_state left graph (id ∷ path)) done (edges_of id graph) in
        known path done id n (then_check inner (λ later. clear (id ∷ later))) chain leads (
          closed inner done id (
            check_all-Promises (graph_cycle_state left graph (id ∷ path)) done (edges_of id graph)
              (λ d to m.
                graph_cycle_state-Promises left (id ∷ path) d to (suc n) (further chain m)
                  (omega arith) (Leads-on path id to leads m))))

  -- The check of a tag finds a cycle only where it reaches a tag that depends on itself, a chain that is too deep only
  -- where the tag has one longer than the maximum, and else an order in which each tag's dependencies
  -- come after it, with the tag in it.
  pub start_check-IsVerdict : (start : ℕ) → IsVerdict start (start_check graph start)
  unfolding start_check
  start_check-IsVerdict start = verdict (start_check graph start) (
      graph_cycle_state-Promises start (max_tag_dependency_depth + 1) [] [] start 0 here
        (omega arith) (λ p m. ground arith))
    where
      verdict : (o : Outcome) → Promises start [] (start ∷ []) o → IsVerdict start o
      verdict circular h = h
      verdict too_deep h = h
      verdict (clear done) h =
          let (ordered, _, all) = h tt in (ordered, all start (member_self start []))
