-- ===== src/Clients/Delivered.antt =====
-- Which records the loop of pkg/kafka/consumer.go handles before it commits them.
use bidflock.Prelude.{
  ℕ, zero, suc, ◌≤◌, ◌<◌, ◌≡◌, refl, sym, ap, subst, ◌∙◌, ◌⊎◌, inl, inr, Bool, true, false,
  Bool-cases, if◌then◌else◌, List, [], ◌∷◌, ◌++◌, String, length, length-append, append_assoc,
  append_nil, arith,
}
use bidflock.Prelude.State.{Act}
use bidflock.Clients.Consumer.{Client, Fetches, each_record, handle_fetches, run}

-- What the world tells of a group: the records that polls have given out, those that the handler was
-- called with, and how many of those given out are committed. A commit covers all that was given out.
pub record IsGroup {R W : Type 0} (client : Client R W) (handler : R → Act W Bool) : Type 0 where
  pub delivered : W → List R
  pub handled : W → List R
  pub committed : W → ℕ
  pub poll_delivered :
      (w : W) → delivered (client.poll w).1 ≡ delivered w ++ (client.poll w).0.records
  pub poll_handled : (w : W) → handled (client.poll w).1 ≡ handled w
  pub poll_committed : (w : W) → committed (client.poll w).1 ≡ committed w
  pub handler_delivered : (r : R) (w : W) → delivered (handler r w).1 ≡ delivered w
  pub handler_handled : (r : R) (w : W) → handled (handler r w).1 ≡ handled w ++ (r ∷ [])
  pub handler_committed : (r : R) (w : W) → committed (handler r w).1 ≡ committed w
  pub commit_delivered : (w : W) → delivered (client.commit w).1 ≡ delivered w
  pub commit_handled : (w : W) → handled (client.commit w).1 ≡ handled w
  pub commit_committed :
      (w : W)
      → (((client.commit w).0 ≡ true) × (committed (client.commit w).1 ≡ length (delivered w)))
        ⊎ (((client.commit w).0 ≡ false) × (committed (client.commit w).1 ≡ committed w))

module _ {R W : Type 0} (client : Client R W) (handler : R → Act W Bool)
    (group : IsGroup client handler) where
  open group use {
    delivered, handled, committed, poll_delivered, poll_handled, poll_committed, handler_delivered,
    handler_handled, handler_committed, commit_delivered, commit_handled, commit_committed,
  }

  each_record-delivered :
      (rs : List R) (w : W) → delivered (each_record client handler rs w) ≡ delivered w
  unfolding each_record
  each_record-delivered [] w = refl
  each_record-delivered (r ∷ rs) w = each_record-delivered rs _ ∙ handler_delivered r w

  each_record-committed :
      (rs : List R) (w : W) → committed (each_record client handler rs w) ≡ committed w
  unfolding each_record
  each_record-committed [] w = refl
  each_record-committed (r ∷ rs) w = each_record-committed rs _ ∙ handler_committed r w

  each_record-handled :
      (rs : List R) (w : W) → handled (each_record client handler rs w) ≡ handled w ++ rs
  unfolding each_record
  each_record-handled [] w = sym (append_nil (handled w))
  each_record-handled (r ∷ rs) w =
      each_record-handled rs _
      ∙ ap (λ h. h ++ rs) (handler_handled r w)
      ∙ append_assoc (handled w) (r ∷ []) rs

  -- The records given out are those handled, in order, and some others; no other is committed.
  abbrev pub IsBehind : W → List R → Type 0
  IsBehind w others = (delivered w ≡ handled w ++ others) × (committed w ≤ length (handled w))

  -- No fetch fails.
  abbrev pub IsClean : Type 0
  IsClean = (w : W) → (client.poll w).0.errors ≡ []

  -- After a commit that succeeded just what is handled is committed, otherwise no more than that.
  abbrev pub IsCovered : Bool → W → Type 0
  IsCovered true w = committed w ≡ length (handled w)
  IsCovered false w = committed w ≤ length (handled w)

  covered_le : (ok : Bool) (w : W) → IsCovered ok w → committed w ≤ length (handled w)
  covered_le true w h = omega (arith, h)
  covered_le false w h = h

  handle_fetches-handled :
      (fetches : Fetches R) (w : W)
      → fetches.errors ≡ []
      → handled (handle_fetches client handler fetches w) ≡ handled w ++ fetches.records
  unfolding handle_fetches
  handle_fetches-handled fetches w clean =
      rw clean (commit_handled _ ∙ each_record-handled fetches.records w)

  handle_fetches-delivered :
      (fetches : Fetches R) (w : W)
      → fetches.errors ≡ []
      → delivered (handle_fetches client handler fetches w) ≡ delivered w
  unfolding handle_fetches
  handle_fetches-delivered fetches w clean =
      rw clean (commit_delivered _ ∙ each_record-delivered fetches.records w)

  commit-IsCovered :
      (w : W)
      → delivered w ≡ handled w
      → committed w ≤ length (handled w)
      → IsCovered (client.commit w).0 (client.commit w).1
  commit-IsCovered w same few = elim (commit_committed w) [
    | inl (ok, e) ↦
        subst (λ b. IsCovered b (client.commit w).1) (sym ok)
          (e ∙ ap length (same ∙ sym (commit_handled w)))
    | inr (refused, e) ↦
        subst (λ b. IsCovered b (client.commit w).1) (sym refused)
          (omega (arith, e, few, ap length (commit_handled w)))
  ]

  handle_fetches-IsCovered :
      (fetches : Fetches R) (w : W)
      → fetches.errors ≡ []
      → delivered w ≡ handled w ++ fetches.records
      → committed w ≤ length (handled w)
      → IsCovered
          (client.commit (each_record client handler fetches.records w)).0
          (handle_fetches client handler fetches w)
  unfolding handle_fetches
  handle_fetches-IsCovered fetches w clean given few =
      let after = each_record client handler fetches.records w in
      let all =
        each_record-delivered fetches.records w
        ∙ given
        ∙ sym (each_record-handled fetches.records w) in
      let enough : committed after ≤ length (handled after) = omega (
        arith,
        few,
        each_record-committed fetches.records w,
        ap length (each_record-handled fetches.records w),
        length-append (handled w) fetches.records,
      ) in
      rw clean (commit-IsCovered after all enough)

  -- The records of the polls whose turn is not the last of a cancelled Run.
  abbrev pub taken : ℕ → W → List R
  taken zero w = []
  taken (suc turns) w =
      let p = client.poll w in
      let rest = taken turns (handle_fetches client handler p.0 p.1) in
      if client.is_done p.1 then [] else p.0.records ++ rest

  -- The records of the poll after which Run finds its context done.
  abbrev pub left_over : ℕ → W → List R
  left_over zero w = []
  left_over (suc turns) w =
      let p = client.poll w in
      let rest = left_over turns (handle_fetches client handler p.0 p.1) in
      if client.is_done p.1 then p.0.records else rest

  -- Whether the last commit succeeded, from whether the one before Run did.
  abbrev pub last_commit : Bool → ℕ → W → Bool
  last_commit ok zero w = ok
  last_commit ok (suc turns) w =
      let p = client.poll w in
      let done = (client.commit (each_record client handler p.0.records p.1)).0 in
      let rest = last_commit done turns (handle_fetches client handler p.0 p.1) in
      if client.is_done p.1 then ok else rest

  -- What a run of the loop from `w` to `v` has handled, what it was given and what it committed.
  pub record HasRun (ok : Bool) (some_taken over : List R) (w v : W) : Type 0 where
    pub handles : handled v ≡ handled w ++ some_taken
    pub gives : delivered v ≡ handled v ++ over
    pub commits : IsCovered ok v

  -- However long Run goes on and whether its context ends it or not, when no fetch fails and all that
  -- was given out before is handled: the handler is called with the records of every poll, in order
  -- and each once, but for those of the poll after which the context is done; nothing else was given
  -- out. What is committed is just what is handled if the last commit succeeded, and never more.
  pub run-IsBehind :
      (clean : IsClean) (ok : Bool) (turns : ℕ) (w : W)
      → delivered w ≡ handled w
      → IsCovered ok w
      → HasRun
          (last_commit ok turns w)
          (taken turns w)
          (left_over turns w)
          w
          (run client handler turns w).1
  unfolding run
  run-IsBehind clean ok zero w same h = record {
    handles = sym (append_nil (handled w));
    gives = same ∙ sym (append_nil (handled w));
    commits = h;
  }
  run-IsBehind clean ok (suc turns) w same h = elim (Bool-cases (client.is_done p.1)) [
    | inl done ↦ rw done (record {
      handles = poll_handled w ∙ sym (append_nil (handled w));
      gives = given;
      commits = polled ok h;
    })
    | inr more ↦
        let rest =
          run-IsBehind clean (client.commit (each_record client handler p.0.records p.1)).0 turns
            next (handle_fetches-delivered p.0 p.1 (clean w) ∙ given ∙ sym took)
            (handle_fetches-IsCovered p.0 p.1 (clean w) given (covered_le ok p.1 (polled ok h))) in
        rw more (record {
          handles =
              rest.handles
              ∙ ap (λ d. d ++ taken turns next) (took ∙ ap (λ d. d ++ p.0.records) (poll_handled w))
              ∙ append_assoc (handled w) p.0.records (taken turns next);
          gives = rest.gives;
          commits = rest.commits;
        })
  ]
    where
      p : Fetches R × W
      p = client.poll w

      next : W
      next = handle_fetches client handler p.0 p.1

      given : delivered p.1 ≡ handled p.1 ++ p.0.records
      given = poll_delivered w ∙ ap (λ d. d ++ p.0.records) (same ∙ sym (poll_handled w))

      took : handled next ≡ handled p.1 ++ p.0.records
      took = handle_fetches-handled p.0 p.1 (clean w)

      polled : (b : Bool) → IsCovered b w → IsCovered b p.1
      polled true e = poll_committed w ∙ e ∙ ap length (sym (poll_handled w))
      polled false e = omega (arith, e, poll_committed w, ap length (poll_handled w))

  failed_keeps :
      (fetches : Fetches R) (failure : String) (failures : List String) (w : W)
      → fetches.errors ≡ failure ∷ failures
      → handle_fetches client handler fetches w ≡ w
  unfolding handle_fetches
  failed_keeps fetches failure failures w e = rw e

  -- The number of records that were handled is below that of those committed.
  abbrev pub HasLost : W → Type 0
  HasLost w = length (handled w) < committed w

  skipped_lost :
      (r : R) (rs : List R) (w : W)
      → delivered w ≡ handled w ++ (r ∷ rs)
      → let p = client.poll w in
        p.0.errors ≡ []
        → (client.commit (each_record client handler p.0.records p.1)).0 ≡ true
        → HasLost (handle_fetches client handler p.0 p.1)
  unfolding handle_fetches
  skipped_lost r rs w given clean ok =
      let p = client.poll w in
      let after = each_record client handler p.0.records p.1 in
      let gave : delivered after ≡ (handled w ++ (r ∷ rs)) ++ p.0.records =
        each_record-delivered p.0.records p.1
        ∙ poll_delivered w
        ∙ ap (λ d. d ++ p.0.records) given in
      let took : handled (client.commit after).1 ≡ handled w ++ p.0.records =
        commit_handled after
        ∙ each_record-handled p.0.records p.1
        ∙ ap (λ d. d ++ p.0.records) (poll_handled w) in
      let covers : committed (client.commit after).1 ≡ length (delivered after) =
        elim (commit_committed after) [
          | inl (_, e) ↦ e
          | inr (refused, _) ↦ absurd (cc (ok, refused))
        ] in
      let lost : HasLost (client.commit after).1 = omega (
        arith,
        covers,
        ap length gave,
        ap length took,
        length-append (handled w ++ (r ∷ rs)) p.0.records,
        length-append (handled w) (r ∷ rs),
        length-append (handled w) p.0.records,
      ) in
      rw clean lost

  -- The records of a fetch with an error are lost: from a group that has handled all it was given,
  -- if a fetch has an error and a record, the next has no error, and its commit succeeds, then more
  -- records are committed than were handled.
  pub failed_fetch_loses :
      (w : W) (failure : String) (failures : List String) (r : R) (rs : List R)
      → IsBehind w []
      → let first = client.poll w in
        let kept = handle_fetches client handler first.0 first.1 in
        let second = client.poll kept in
        first.0.errors ≡ failure ∷ failures
        → first.0.records ≡ r ∷ rs
        → second.0.errors ≡ []
        → (client.commit (each_record client handler second.0.records second.1)).0 ≡ true
        → HasLost (handle_fetches client handler second.0 second.1)
  failed_fetch_loses w failure failures r rs (same, _) failed some clean ok =
      let first = client.poll w in
      let kept = handle_fetches client handler first.0 first.1 in
      let stays : kept ≡ first.1 = failed_keeps first.0 failure failures first.1 failed in
      let taken = same ∙ append_nil (handled w) in
      let given : delivered kept ≡ handled kept ++ (r ∷ rs) =
        ap delivered stays
        ∙ poll_delivered w
        ∙ ap (λ d. d ++ first.0.records) taken
        ∙ ap (λ rs. handled w ++ rs) some
        ∙ ap (λ h. h ++ (r ∷ rs)) (sym (poll_handled w) ∙ sym (ap handled stays)) in
      skipped_lost r rs kept given clean ok
