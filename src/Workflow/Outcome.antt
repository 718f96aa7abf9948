-- ===== src/Workflow/Outcome.antt =====
-- What an automated run comes to, its exception handlers included.
use ai_game.Base.{
  ℕ, ◌+◌, ◌*◌, ◌≤◌, ◌≡◌, refl, Bool, true, false, some, arith, if◌then◌else◌, Bool-cases, inl, inr,
}
use ai_game.Errors.{Error, Result, ok, err, workflow_execution}
use ai_game.Constants.{CampaignStatus, received, validating, analyzing, generating, reviewing}
use ai_game.Workflow.State.{can_transition}
use ai_game.Workflow.Tables.{
  WorkflowRun, Campaign, Db, save_pair, add_event, workflow_failed, find_workflow,
}
use ai_game.Workflow.Review.{persist_failure, record_failure, mark_failed}
use ai_game.Workflow.Failures.{is_conflict_error, is_execution_failure}
use ai_game.Workflow.Run.{Environment, handle_exception, run_to_pending_approval}
use ai_game.Workflow.Pairs.{IsPair, load_locked_pair-eq, save_pair-IsPair, add_event-IsPair}
use ai_game.Workflow.Automaton.{
  AutoEdge, AutoStep, AutoRun, here, onward, undecided_run, bounded_run, is_decided, fail_received,
  fail_validating, fail_analyzing, fail_generating, fail_reviewing,
}
use ai_game.Workflow.Progress.{rank_bound, LeavesProgress}
use ai_game.Workflow.Termination.{RunEnds, run_loop-Returns}

-- The automaton fails from wherever the state machine may.
fail_edge :
    (s : CampaignStatus)
    → can_transition s CampaignStatus.failed ≡ true
    → AutoEdge s CampaignStatus.failed
unfolding can_transition
fail_edge received h = fail_received
fail_edge validating h = fail_validating
fail_edge analyzing h = fail_analyzing
fail_edge generating h = fail_generating
fail_edge reviewing h = fail_reviewing
fail_edge _ h = cc

module _ (max i : ℕ) (s : CampaignStatus) (r : ℕ) (e : Error) where
  -- A failure is recorded on a pair that may fail, and leaves any other alone.
  record_failure-RunEnds :
      (f : Error) (now : ℕ) (db : Db) (w : WorkflowRun) (c : Campaign)
      → IsPair i db w c
      → AutoRun max s r w.status w.retry_count
      → c.status ≡ w.status
      → (b d : Bool) → can_transition w.status CampaignStatus.failed ≡ b
      → RunEnds max i s r (err e) (
          if d
          then db
          else if b
          then add_event
              (workflow_failed w.workflow_id c.campaign_id f)
              (save_pair (mark_failed f now w) (record c { status = CampaignStatus.failed }) db)
          else db)
  unfolding mark_failed
  record_failure-RunEnds f now db w c p run both b true q = record {
    workflow = w;
    campaign = c;
    pair = p;
    run = run;
    in_step = both;
    rests = tt;
  }
  record_failure-RunEnds f now db w c p run both false false q = record {
    workflow = w;
    campaign = c;
    pair = p;
    run = run;
    in_step = both;
    rests = tt;
  }
  record_failure-RunEnds f now db w c p run both true false q =
      let w' = mark_failed f now w in
      let c' = record c { status = CampaignStatus.failed } in
      record {
        workflow = w';
        campaign = c';
        pair =
            add_event-IsPair i _ (save_pair w' c' db) w' c'
              (save_pair-IsPair i db w w' c c' p refl refl refl);
        run =
            onward run
              (AutoStep.move w.status CampaignStatus.failed (fail_edge w.status q) refl refl refl);
        in_step = refl;
        rests = tt;
      }

  persist_failure-eq :
      (f : Error) (now : ℕ) (db : Db) (w : WorkflowRun) (c : Campaign)
      → IsPair i db w c
      → persist_failure i f now db ≡ record_failure f now w c db
  unfolding persist_failure
  persist_failure-eq f now db w c p = ground (arith, load_locked_pair-eq i db w c p)

  persist_failure-RunEnds :
      (f : Error) (now : ℕ) (db : Db) (res : Result WorkflowRun)
      → RunEnds max i s r res db
      → RunEnds max i s r (err e) (persist_failure i f now db)
  unfolding record_failure
  persist_failure-RunEnds f now db res m =
      rw (persist_failure-eq f now db m.workflow m.campaign m.pair)
        (record_failure-RunEnds f now db m.workflow m.campaign m.pair m.run m.in_step _ _ refl)

  raised-RunEnds :
      (db : Db) (res : Result WorkflowRun) → RunEnds max i s r res db → RunEnds max i s r (err e) db
  raised-RunEnds db res m = record {
    workflow = m.workflow;
    campaign = m.campaign;
    pair = m.pair;
    run = m.run;
    in_step = m.in_step;
    rests = tt;
  }

module _ (env : Environment) (i : ℕ) (s : CampaignStatus) (r : ℕ) where
  abbrev max : ℕ
  max = env.max_content_retries

  pub handle_exception-RunEnds :
      (res : Result WorkflowRun) (db : Db)
      → RunEnds max i s r res db
      → RunEnds max i s r (handle_exception env i (res, db)).0 (handle_exception env i (res, db)).1
  unfolding handle_exception
  handle_exception-RunEnds (ok v) db m = m
  handle_exception-RunEnds (err e) db m = elim (Bool-cases (is_conflict_error e)) [
    | inl conflict ↦ rw conflict (raised-RunEnds max i s r e db _ m)
    | inr other ↦ elim (Bool-cases (is_execution_failure e)) [
      | inl failure ↦
          rw (other, failure) (persist_failure-RunEnds max i s r e e (env.now db) db _ m)
      | inr unknown ↦
          rw (other, unknown)
            (persist_failure-RunEnds max i s r workflow_execution workflow_execution (env.now db) db
              _ m)
    ]
  ]

module _ (env : Environment) (leaves : LeavesProgress env) (i : ℕ) (db : Db) (w : WorkflowRun)
    (c : Campaign) (p : IsPair i db w c) (both : c.status ≡ w.status) (fuel : ℕ)
    (enough : 2 * env.max_content_retries + 6 ≤ fuel) where
  -- With fuel of twice the retry limit and six, a run of a workflow that is there, and whose campaign has
  -- its status, returns or raises; the pair has then moved by the automaton from where it was, the
  -- campaign again has the workflow's status, and a workflow that is returned is the stored one, in a
  -- status where a run rests. The specialists are assumed to leave the columns that the loop reads.
  pub run_to_pending_approval-RunEnds :
      (res : Result WorkflowRun) × (db' : Db) × (run_to_pending_approval fuel env i db
        ≡ some (res, db'))
      × RunEnds env.max_content_retries i w.status w.retry_count res db'
  unfolding run_to_pending_approval
  run_to_pending_approval-RunEnds =
      let (res, db', e, ends) =
        run_loop-Returns env leaves i w.status w.retry_count fuel db (record {
          workflow = w;
          campaign = c;
          pair = p;
          run = here;
          in_step = both;
          less = omega (arith, rank_bound env.max_content_retries w c, enough);
        }) in
      let last = handle_exception env i (res, db') in
      (last.0, last.1, rw e, handle_exception-RunEnds env i w.status w.retry_count res db' ends)

  -- Under the same conditions an automated run never approves or rejects: a workflow that no human has
  -- decided is undecided after it. Nor does it pass the retry limit.
  pub run_never_decides :
      is_decided w.status ≡ false
      → w.retry_count ≤ env.max_content_retries
      → (res : Result WorkflowRun) × (db' : Db) × (v : WorkflowRun) × (run_to_pending_approval fuel
            env i db
          ≡ some (res, db'))
        × (find_workflow i db' ≡ some v)
        × (is_decided v.status ≡ false)
        × (v.retry_count ≤ env.max_content_retries)
  run_never_decides undecided few =
      let (res, db', e, ends) = run_to_pending_approval-RunEnds in
      (
        res,
        db',
        ends.workflow,
        e,
        ends.pair.workflow_at,
        undecided_run ends.run undecided,
        bounded_run ends.run few,
      )
