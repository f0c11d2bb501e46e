-- ===== src/Alerting/Worker.antt =====
-- The goroutine `run` of internal/alerting/dispatcher.go after Close: it works off the queue and
-- returns.
use thism.Base.{
  ℕ, zero, suc, ◌+◌, ◌%◌, ◌^◌, ◌<◌, ◌≡◌, refl, ◌∙◌, sym, ap, true, Option, none, some, List, [],
  ◌∷◌, length, arith, Bool,
}
use thism.Alerting.Settings.{Float, NotificationSettings, AlertEvent}
use thism.Alerting.Evaluator.{Alerts}
use thism.Alerting.Dispatcher.{
  Job, Shared, Dispatcher, waits, stops, takes, dequeue, dequeue_in, count_processed, run_job,
}
use thism.Alerting.Fifo.{dequeue_in-shift}
use thism.Alerting.Connection.{Moment}

module _ {W : Type 0} (send : NotificationSettings W → AlertEvent W → Bool) (f : Float W)
    (moments : ℕ → Moment W) where
  -- The loop on fuel; `moments n` is what the evaluator reads in the turn that leaves `n` turns. None
  -- is a worker that has no turn left, or that waits.
  unfoldable pub run_worker :
      ℕ → Dispatcher W × Shared → Alerts W → Option ((Dispatcher W × Shared) × Alerts W)
  run_worker zero s a = none
  run_worker (suc n) (d, g) a = elim (dequeue d) [
    | waits ↦ none
    | stops ↦ some ((d, g), a)
    | takes job d' ↦
        run_worker n (count_processed (d', g))
          (run_job send f (moments n).settings (moments n).now job a)
  ]

  -- The jobs, one after the other, each in its turn.
  abbrev pub run_jobs : ℕ → List (Job W) → Alerts W → Alerts W
  run_jobs n [] a = a
  run_jobs zero (job ∷ jobs) a = a
  run_jobs (suc n) (job ∷ jobs) a =
      run_jobs n jobs (run_job send f (moments n).settings (moments n).now job a)

  -- The worker has returned, with nothing left, having done the jobs.
  pub record Drained (n : ℕ) (d : Dispatcher W) (g : Shared) (a : Alerts W) : Type 0 where
    pub last : Dispatcher W × Shared
    pub returned : run_worker n (d, g) a ≡ some (last, run_jobs n d.queue a)
    pub empty : last.0.queue ≡ []
    pub shut : last.0.closed ≡ true
    pub counted : last.0.stats.processed ≡ (d.stats.processed + length d.queue) % 2 ^ 64

  dequeue-first :
      (d : Dispatcher W) (job : Job W) (jobs : List (Job W))
      → d.queue ≡ job ∷ jobs
      → dequeue d ≡ takes job (record d { queue = jobs })
  unfolding dequeue
  dequeue-first d job jobs p = ap (λ q. dequeue_in q d) p ∙ dequeue_in-shift job jobs d

  one_turn :
      (n : ℕ) (d d' : Dispatcher W) (g : Shared) (job : Job W) (a : Alerts W)
      → dequeue d ≡ takes job d'
      → run_worker (suc n) (d, g) a
        ≡ run_worker n
            (count_processed (d', g))
            (run_job send f (moments n).settings (moments n).now job a)
  unfolding run_worker
  one_turn n d d' g job a p =
      ap
        (λ next. elim next as (λ x. Option ((Dispatcher W × Shared) × Alerts W)) [
          | waits ↦ none
          | stops ↦ some ((d, g), a)
          | takes j after ↦
              run_worker n (count_processed (after, g))
                (run_job send f (moments n).settings (moments n).now j a)
        ])
        p

  drains :
      (n : ℕ) (jobs : List (Job W)) (d : Dispatcher W) (g : Shared) (a : Alerts W)
      → d.queue ≡ jobs
      → length jobs < n
      → d.closed ≡ true
      → d.stats.processed < 2 ^ 64
      → Drained n d g a
  unfolding run_worker dequeue count_processed run_job
  drains zero jobs d g a p h c b = absurd (omega arith)
  drains (suc n) [] d g a p h c b = record {
    last = (d, g);
    returned = unfold dequeue_in in rw (p, c) refl;
    empty = p;
    shut = c;
    counted = rw p (omega arith);
  }
  drains (suc n) (job ∷ jobs) d g a p h c b =
      let after = count_processed (record d { queue = jobs }, g) in
      let rest =
        drains n jobs after.0 after.1 (run_job send f (moments n).settings (moments n).now job a)
          (unfold count_processed in refl) (omega arith) (unfold count_processed in c)
          (unfold count_processed in omega arith) in
      record {
        last = rest.last;
        returned =
            one_turn n d _ g job a (dequeue-first d job jobs p)
            ∙ rest.returned
            ∙ ap (λ q. some (rest.last, run_jobs (suc n) q a)) (sym p);
        empty = rest.empty;
        shut = rest.shut;
        counted = rest.counted ∙ (unfold count_processed in rw p (omega arith));
      }

-- After Close the worker returns, whatever the sender and the settings do: with more turns than there
-- are jobs in the queue, and no counter about to wrap, `run_worker` returns a dispatcher with an empty
-- queue, still closed, that counts every job as processed, and the alerts are those of running the
-- jobs of the queue one after the other, in order.
pub run_worker-drains :
    {W : Type 0} (send : NotificationSettings W → AlertEvent W → Bool) (f : Float W)
    (moments : ℕ → Moment W) (n : ℕ) (d : Dispatcher W) (g : Shared) (a : Alerts W)
    → length d.queue < n
    → d.closed ≡ true
    → d.stats.processed < 2 ^ 64
    → Drained send f moments n d g a
run_worker-drains send f moments n d g a h c b = drains send f moments n d.queue d g a refl h c b
