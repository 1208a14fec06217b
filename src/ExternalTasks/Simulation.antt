-- ===== src/ExternalTasks/Simulation.antt =====
-- The calls of the service beside the calls on the ledger.
use offer_master.Prelude.{
  ◌⊎◌, ◌&&◌, Bool-cases, ◌≡◌, refl, sym, ap, subst, inl, inr, String, Bool, true, false, Option,
  none, some, List, [], ◌∷◌, str_eq, str_eq_refl, str_eq_cases, Option-cases, if◌then◌else◌,
}
use offer_master.Prelude.Json.{Json, Fields}
use offer_master.ExternalTasks.Session.{TaskSession, IsLawful}
use offer_master.ExternalTasks.Lifecycle.{
  TaskView, Ledger, Command, started, finished, view_map, or_queued, spec, spec_all, perform,
  perform_all,
}
use offer_master.ExternalTasks.Writes.{create_free, create_taken, queued_row}
use offer_master.ExternalTasks.Refinement.{
  kinds, Shows, Matches, Implements, wrote-Implements, log_after,
}
use offer_master.ExternalTasks.Transitions.{
  start_stored, finish_stored, start_missing, finish_missing, finish_mismatch, one_type,
}

module _ (repr : Json → String) (payload_hash : Fields → String) (D : TaskSession)
    (laws : IsLawful D) where
  -- A call that leaves the session as it is, and the ledger too.
  unchanged :
      (s s' : D.State) (a b : Ledger)
      → s' ≡ s
      → ((k : String) → b k ≡ a k)
      → Implements D s a
      → Implements D s' b
  unchanged s s' a b same views all k =
      subst (λ (x : D.State). Matches D x k (b k)) (sym same)
        (subst (Matches D s k) (sym (views k)) (all k))

  -- The call on one task, seen at another and at a free one.
  at_task :
      (f : Option TaskView → Option TaskView) (a : Ledger) (i : String)
      → f (a i) ≡ a i
      → (k : String) → (if str_eq i k then f (a k) else a k) ≡ a k
  at_task f a i same k = elim (str_eq_cases i k) [
    | inl here ↦
        subst (λ (k : String). (if str_eq i k then f (a k) else a k) ≡ a k) here
          (rw (str_eq_refl i) same)
    | inr other ↦ rw other refl
  ]

  -- The same where the change also waits for a test.
  at_own :
      (f : Option TaskView → Option TaskView) (a : Ledger) (i : String) (own : Bool)
      → (own ≡ false) ⊎ (f (a i) ≡ a i)
      → (k : String) → (if str_eq i k && own then f (a k) else a k) ≡ a k
  at_own f a i true (inl e) k = cc
  at_own f a i false h k = elim (Bool-cases (str_eq i k)) [ inl e ↦ rw e refl | inr e ↦ rw e refl ]
  at_own f a i true (inr same) k = elim (Bool-cases (str_eq i k)) [
    | inl e ↦ rw e (rw e at (at_task f a i same k))
    | inr e ↦ rw e refl
  ]

  free_task :
      (s : D.State) (a : Ledger) (k : String)
      → Implements D s a
      → a k ≡ none
      → (D.get_task s k ≡ none) × (D.events_of s k ≡ [])
  free_task s a k all free = subst (Matches D s k) free (all k)

  shown_task :
      (s : D.State) (a : Ledger) (k : String) (v : TaskView)
      → Implements D s a
      → a k ≡ some v
      → Shows D s k v
  shown_task s a k v all view = subst (Matches D s k) view (all k)

  -- A call of the service implements the call on the ledger.
  pub perform-Implements :
      (c : Command) (s : D.State) (a : Ledger)
      → Implements D s a
      → Implements D (perform repr payload_hash D c s) (spec c a)
  unfolding perform spec
  perform-Implements (Command.create now e) s a all = elim (Option-cases (a e.task_id)) [
    | inl free ↦
        let (s', ran, wrote) =
          create_free D laws repr payload_hash now s e (free_task s a e.task_id all free).0 in
        subst (λ (x : D.State). Implements D x (spec (Command.create now e) a)) (sym ran)
          (wrote-Implements D s s' _ _ a (spec (Command.create now e) a) wrote all
            (rw (str_eq_refl e.task_id, free)
              (record {
                task = queued_row D laws repr payload_hash e;
                stored = wrote.here;
                typed = one_type _;
                status = refl;
                blocked_reason = refl;
                completed = refl;
                log = log_after D s s' _ _ [] wrote (ap kinds (free_task s a e.task_id all free).1);
              }))
            (λ k other. rw other refl))
    | inr (v, view) ↦
        unchanged s _ a _
          (create_taken D laws repr payload_hash now s e
            (shown_task s a e.task_id v all view).stored)
          (at_task or_queued a e.task_id (rw view refl)) all
  ]
  perform-Implements (Command.start now k) s a all = elim (Option-cases (a k)) [
    | inl free ↦
        unchanged s _ a _
          (start_missing repr payload_hash D laws now s k (free_task s a k all free).0)
          (at_task (view_map started) a k (rw free refl)) all
    | inr (v, view) ↦
        let shows = shown_task s a k v all view in
        start_stored repr payload_hash D laws now s a shows.task v shows.typed shows.status
          shows.blocked_reason shows.completed all k (laws.get_task-id s k shows.stored)
          shows.stored shows.log view
  ]
  perform-Implements (Command.finish now recorded_at k result executor_name) s a all =
      elim (Option-cases (a k)) [
        | inl free ↦
            unchanged s _ a _
              (finish_missing repr payload_hash D laws now recorded_at result executor_name s k
                (free_task s a k all free).0)
              (at_own (view_map (finished result)) a k _ (inr (rw free refl))) all
        | inr (v, view) ↦
            let shows = shown_task s a k v all view in
            let mine = laws.get_task-id s k shows.stored in
            elim (str_eq_cases result.task_id k) [
              | inl own ↦
                  finish_stored repr payload_hash D laws now recorded_at result executor_name s a
                    shows.task v shows.typed shows.status shows.completed all k mine own
                    shows.stored shows.log view
              | inr other ↦
                  unchanged s _ a _
                    (finish_mismatch repr payload_hash D laws now recorded_at result executor_name s
                      shows.task v shows.typed shows.status k mine shows.stored other)
                    (at_own (view_map (finished result)) a k _ (inl other)) all
            ]
      ]

  -- Over a lawful session that implements a ledger, any sequence of calls of the service, of which
  -- some may raise, leads to a session that implements the ledger after the same calls.
  pub perform_all-Implements :
      (commands : List Command) (s : D.State) (a : Ledger)
      → Implements D s a
      → Implements D (perform_all repr payload_hash D commands s) (spec_all commands a)
  unfolding perform_all
  perform_all-Implements [] s a all = all
  perform_all-Implements (c ∷ commands) s a all =
      perform_all-Implements commands (perform repr payload_hash D c s) (spec c a)
        (perform-Implements c s a all)
