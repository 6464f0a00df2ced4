-- ===== src/Bridge/Recovery/Settled.antt =====
-- internal/bridge/journal.go: the operations after RecoverOperations.
use toolhub.Common.{
  ℕ, String, Bool, true, false, ◌||◌, Option, none, some, List, [], ◌∷◌, map, any, member, ok,
  >>=-eq-ok, ◌==◌, if◌then◌else◌, if-elim, Bool-cases, Option-cases, ◌≡◌, refl, sym, ap, subst, ◌∙◌,
  ◌⊎◌, inl, inr, arith, eq_iff,
}
use toolhub.Protocol.Errors.{ApiError}
use toolhub.Bridge.Bolt.{Bolt, Cell, json, corrupt}
use toolhub.Bridge.Operation.{Operation, OperationTarget, TargetResult, operation_running}
use toolhub.Bridge.Recovery.{
  runs, settle_target, is_running, settle, recovered, Buckets, recover_entry, recover_visit,
  recover_operations,
}

-- The error and the result of a target that the restart interrupted.
abbrev pub lost : ApiError
lost = record {
  code = "salt_job_missing";
  message = "Bridge restarted before the target result was observed";
  retryable = true;
  details = none;
}

abbrev pub lost_result : TargetResult
lost_result = record {
  status = "failed";
  health = "blocked";
  target_revision = "";
  backup_id = "";
  repaired = false;
  manifest = none;
  relay = none;
  details = none;
  error = some lost;
}

-- Whether an operation, or one of its targets, runs.
abbrev pub a_target_runs : List OperationTarget → Bool
a_target_runs [] = false
a_target_runs (t ∷ ts) = (t.status == "running") || a_target_runs ts

abbrev pub runs_at_all : Operation → Bool
runs_at_all o = a_target_runs o.targets || (o.status == "running")

-- A running target has failed, with the retryable error; another one is as it was.
abbrev pub IsSettledTarget : OperationTarget → OperationTarget → Type 0
IsSettledTarget t u =
    (((t.status == "running") ≡ true)
      × (u ≡ record {
        target_id = t.target_id;
        status = "failed";
        salt_jid = t.salt_jid;
        result = some lost_result;
        error = some lost;
      }))
    ⊎ (((t.status == "running") ≡ false) × (u ≡ t))

abbrev pub AreSettled : List OperationTarget → List OperationTarget → Type 0
AreSettled [] [] = Unit
AreSettled (t ∷ ts) (u ∷ us) = IsSettledTarget t u × AreSettled ts us
AreSettled _ _ = ⊥

-- An operation before and after: one that ran nowhere is as it was; of another each target is settled,
-- its status is failed if it was running and else as it was, and it is updated now.
abbrev pub IsSettled : ℕ → Operation → Operation → Type 0
IsSettled now o p =
    ((runs_at_all o ≡ false) × (p ≡ o))
    ⊎ ((runs_at_all o ≡ true)
        × (p.id ≡ o.id)
        × (p.kind ≡ o.kind)
        × (p.created_at ≡ o.created_at)
        × (p.updated_at ≡ now)
        × (p.status ≡ (if o.status == "running" then "failed" else o.status))
        × AreSettled o.targets p.targets)

any-a_target_runs : (ts : List OperationTarget) → any runs ts ≡ a_target_runs ts
any-a_target_runs [] = refl
any-a_target_runs (t ∷ ts) = ground (arith, any-a_target_runs ts)

is_running-runs_at_all : (o : Operation) → is_running o ≡ runs_at_all o
unfolding is_running
is_running-runs_at_all o = ground (arith, any-a_target_runs o.targets)

settle_target-IsSettledTarget : (t : OperationTarget) → IsSettledTarget t (settle_target t)
unfolding settle_target
settle_target-IsSettledTarget t = elim (Bool-cases (t.status == "running")) [
  | inl e ↦ inl (e, rw e refl)
  | inr e ↦ inr (e, rw e refl)
]

settle_targets-AreSettled : (ts : List OperationTarget) → AreSettled ts (map settle_target ts)
settle_targets-AreSettled [] = tt
settle_targets-AreSettled (t ∷ ts) = (settle_target-IsSettledTarget t, settle_targets-AreSettled ts)

recovered-IsSettled : (now : ℕ) (o : Operation) → IsSettled now o (recovered now o)
unfolding recovered settle
recovered-IsSettled now o =
    let same = is_running-runs_at_all o in
    let settled : is_running o ≡ true → IsSettled now o (settle now o) =
      λ e. inr (sym same ∙ e, refl, refl, refl, refl, refl, settle_targets-AreSettled o.targets) in
    if-elim (λ (p : Operation). IsSettled now o p) (is_running o) settled
      λ e. inl (sym same ∙ e, refl)

-- No target of a settled operation is running, nor is the operation.
runs-settle_target : (t : OperationTarget) → runs (settle_target t) ≡ false
unfolding settle_target
runs-settle_target t = if-elim (λ (u : OperationTarget). runs u ≡ false) (runs t) (λ _. refl) λ e. e

any-settle_target : (ts : List OperationTarget) → any runs (map settle_target ts) ≡ false
any-settle_target [] = refl
any-settle_target (t ∷ ts) = ground (arith, runs-settle_target t, any-settle_target ts)

status-settle :
    (now : ℕ) (o : Operation) → (Operation.status (settle now o) == operation_running) ≡ false
unfolding settle
status-settle now o =
    if-elim (λ s. (s == operation_running) ≡ false) (o.status == operation_running) (λ _. refl)
      λ e. e

is_running-recovered : (now : ℕ) (o : Operation) → is_running (recovered now o) ≡ false
unfolding recovered is_running settle
is_running-recovered now o =
    if-elim (λ (p : Operation). is_running p ≡ false) (is_running o)
      (λ _. ground (arith, any-settle_target o.targets, status-settle now o)) λ e. e

-- A second visit changes nothing.
recovered_idem : (now : ℕ) (o : Operation) → recovered now (recovered now o) ≡ recovered now o
unfolding recovered
recovered_idem now o = rw (is_running-recovered now o, recovered) refl

module _ (bolt : Bolt) (R : Type 0) (now : ℕ) (k : String) where
  open bolt use {Bucket, get, put, delete}

  -- One visit: at its key the operation is recovered, another key is left alone.
  recover_entry-get :
      (key : String) (o : Operation) (ops : Bucket (Cell Operation)) (salt : Bucket R)
      {out : Buckets bolt R}
      → get key ops ≡ some (json o)
      → recover_entry bolt R now key (json o) (ops, salt) ≡ ok out
      → get k (out.0) ≡ (if key == k then some (json (recovered now o)) else get k ops)
  unfolding recover_entry recovered
  recover_entry-get key o ops salt there h =
      let same : (key == k) ≡ true → get k ops ≡ some (json o) =
        λ e. subst (λ j. get j ops ≡ some (json o)) ((eq_iff key k).0 e) there in
      elim (Bool-cases (is_running o)) [
        | inl e ↦ ground (arith, e, h, bolt.get-put key k (json (settle now o)) ops)
        | inr e ↦ ground (arith, e, h, same)
      ]

  -- What does not decode makes the recovery fail.
  recover_entry-json :
      (key : String) (cell : Cell Operation) (buckets : Buckets bolt R) {out : Buckets bolt R}
      → recover_entry bolt R now key cell buckets ≡ ok out
      → (o : Operation) × (cell ≡ json o)
  unfolding recover_entry
  recover_entry-json key corrupt buckets h = cc
  recover_entry-json key (json o) buckets h = (o, refl)

  -- What a visit of a key finds and leaves.
  Visited : String → Bucket (Cell Operation) → Bucket (Cell Operation) → Type 0
  Visited key ops after =
      ((get key ops ≡ none) × (after ≡ ops))
      ⊎ ((o : Operation) × (get key ops ≡ some (json o))
          × (get k after ≡ (if key == k then some (json (recovered now o)) else get k ops)))

  recover_visit-Visited :
      (key : String) (ops : Bucket (Cell Operation)) (salt : Bucket R) {out : Buckets bolt R}
      → recover_visit bolt R now key (ops, salt) ≡ ok out
      → Visited key ops (out.0)
  unfolding recover_visit Visited
  recover_visit-Visited key ops salt h = elim (Option-cases (get key ops)) [
    | inl e ↦ inl (e, ground (arith, e, h))
    | inr (cell, e) ↦
        let entered = rw (e, recover_visit) at h in
        let (o, same) = recover_entry-json key cell (ops, salt) entered in
        let there : get key ops ≡ some (json o) = e ∙ ap some same in
        inr (o, there, recover_entry-get key o ops salt there (rw same at entered))
  ]

  -- What stands at the key after the visits, by what stood there before.
  AfterVisits : List String → Option (Cell Operation) → Option (Cell Operation) → Type 0
  AfterVisits visits before after =
      ((before ≡ none) × (after ≡ none))
      ⊎ (((member k visits ≡ false) × (after ≡ before))
          ⊎ ((o : Operation) × (member k visits ≡ true)
              × (before ≡ some (json o))
              × (after ≡ some (json (recovered now o)))))

  AfterVisits-none :
      (key : String) (visits : List String) (before after : Option (Cell Operation))
      → AfterVisits visits before after
      → before ≡ none
      → AfterVisits (key ∷ visits) before after
  unfolding AfterVisits
  AfterVisits-none key visits before after (inl found) absent = inl found
  AfterVisits-none key visits before after (inr (inl (missed, same))) absent =
      inl (absent, same ∙ absent)
  AfterVisits-none key visits before after (inr (inr (o, seen, there, done))) absent =
      absurd (ground (arith, absent, there))

  -- After a visit of another key.
  AfterVisits-other :
      (key : String) (visits : List String) (before after : Option (Cell Operation))
      → (key == k) ≡ false
      → AfterVisits visits before after
      → AfterVisits (key ∷ visits) before after
  unfolding AfterVisits
  AfterVisits-other key visits before after e (inl found) = inl found
  AfterVisits-other key visits before after e (inr (inl (missed, same))) =
      inr (inl (ground (arith, e, missed), same))
  AfterVisits-other key visits before after e (inr (inr (o, seen, there, done))) =
      inr (inr (o, ground (arith, e, seen), there, done))

  -- After a visit of the key, which has recovered the operation.
  AfterVisits-here :
      (key : String) (visits : List String) (o : Operation) (before after : Option (Cell Operation))
      → (key == k) ≡ true
      → before ≡ some (json o)
      → AfterVisits visits (some (json (recovered now o))) after
      → AfterVisits (key ∷ visits) before after
  unfolding AfterVisits
  AfterVisits-here key visits o before after e there (inl (absent, found)) = cc
  AfterVisits-here key visits o before after e there (inr (inl (missed, same))) =
      inr (inr (o, ground (arith, e), there, same))
  AfterVisits-here key visits o before after e there (inr (inr (p, seen, held, done))) =
      let same : recovered now o ≡ p = ground (arith, held) in
      inr (
        inr (
          o,
          ground (arith, e),
          there,
          done
              ∙ (ap (λ q. some (json (recovered now q))) (sym same)
                  ∙ ap (λ q. some (json q)) (recovered_idem now o)),
        ))

  recover_operations-AfterVisits :
      (visits : List String) (ops : Bucket (Cell Operation)) (salt : Bucket R)
      {out : Buckets bolt R}
      → recover_operations bolt R now visits (ops, salt) ≡ ok out
      → AfterVisits visits (get k ops) (get k (out.0))
  unfolding recover_operations AfterVisits Visited
  recover_operations-AfterVisits [] ops salt h = inr (inl (refl, ground (arith, h)))
  recover_operations-AfterVisits (key ∷ visits) ops salt {out} h =
      let ((ops', salt'), first, rest) =
        >>=-eq-ok (recover_visit bolt R now key (ops, salt)) (recover_operations bolt R now visits)
          h in
      let below = recover_operations-AfterVisits visits ops' salt' rest in
      elim (recover_visit-Visited key ops salt first) [
        | inl (absent, same) ↦
            let kept = subst (λ b. AfterVisits visits (get k b) (get k (out.0))) same below in
            elim (Bool-cases (key == k)) [
              | inr e ↦ AfterVisits-other key visits (get k ops) (get k (out.0)) e kept
              | inl e ↦
                  AfterVisits-none key visits (get k ops) (get k (out.0)) kept
                    (subst (λ j. get j ops ≡ none) ((eq_iff key k).0 e) absent)
            ]
        | inr (o, there, found) ↦ elim (Bool-cases (key == k)) [
          | inr e ↦
              let same : get k ops' ≡ get k ops = rw e at found in
              AfterVisits-other key visits (get k ops) (get k (out.0)) e
                (subst (λ b. AfterVisits visits b (get k (out.0))) same below)
          | inl e ↦
              let same : get k ops' ≡ some (json (recovered now o)) = rw e at found in
              AfterVisits-here key visits o (get k ops) (get k (out.0)) e
                (subst (λ j. get j ops ≡ some (json o)) ((eq_iff key k).0 e) there)
                (subst (λ b. AfterVisits visits b (get k (out.0))) same below)
        ]
      ]

  -- After a RecoverOperations that succeeds, whichever keys its ForEach has visited, in whatever order and
  -- how often: a key that had no operation has none, a key that was not visited has what it had, and a key
  -- that was visited has its operation settled, in which nothing runs: each running target has failed with
  -- the retryable error and a blocked result, a running operation has failed, the time of the update is
  -- now, and all else is as it was; an operation in which nothing ran is as it was.
  pub recover_operations-get :
      (visits : List String) (ops : Bucket (Cell Operation)) (salt : Bucket R)
      (out : Buckets bolt R)
      → recover_operations bolt R now visits (ops, salt) ≡ ok out
      → ((get k ops ≡ none) × (get k (out.0) ≡ none))
        ⊎ (((member k visits ≡ false) × (get k (out.0) ≡ get k ops))
            ⊎ ((o : Operation) × (p : Operation) × (member k visits ≡ true)
                × (get k ops ≡ some (json o))
                × (get k (out.0) ≡ some (json p))
                × IsSettled now o p
                × (runs_at_all p ≡ false)))
  unfolding AfterVisits
  recover_operations-get visits ops salt out h =
      elim (recover_operations-AfterVisits visits ops salt h) [
        | inl absent ↦ inl absent
        | inr (inl missed) ↦ inr (inl missed)
        | inr (inr (o, seen, there, done)) ↦ inr (
            inr (
              o,
              recovered now o,
              seen,
              there,
              done,
              recovered-IsSettled now o,
              sym (is_running-runs_at_all (recovered now o)) ∙ is_running-recovered now o,
            ))
      ]
