-- ===== src/Single/Runs/Life.antt =====
-- Laws of `execute_and_store` and of its gate (backend/app/services/backtest_service.py).
use stock_platform.Prelude.{
  ◌≡◌, refl, arith, Bool, true, false, none, some, [], ◌∷◌, ◌++◌, if◌then◌else◌, subst,
}
use stock_platform.Prelude.Rows.{first-overwrite, first-append-one}
use stock_platform.Prelude.Result.{Result, ok, err, pending_rollback}
use stock_platform.Float.{Float}
use stock_platform.Single.Runs.{
  Run, Outcome, Db, Engine, running, done, failed, is_run, is_outcome, get_run, get_result, set_run,
  close_run, attempt, execute_and_store,
}

module _ {F P M : Type 0} ⦃fl : Float F⦄ where
  set_run-get_run :
      (run old : Run F P) (db : Db F P M)
      → get_run run.run_id db ≡ some old
      → get_run run.run_id (set_run run db) ≡ some run
  unfolding get_run
  set_run-get_run run old db e = first-overwrite (is_run run.run_id) run db.runs e (ground arith)

  -- How a run ends whose body has returned, by whether the database takes the result.
  abbrev pub EndsStored : Run F P → Outcome M → Bool → Db F P M → Result (Outcome M) → Type 0
  EndsStored run outcome true db result =
      (result ≡ ok outcome)
      × (get_run run.run_id db ≡ some (record run { status = done }))
      × (get_result run.run_id db ≡ some outcome)
  EndsStored run outcome false db result =
      (result ≡ err pending_rollback)
      × (get_run run.run_id db ≡ some (record run { status = running }))
      × (get_result run.run_id db ≡ none)

  -- How a run ends, by the result of the body: its row, the result under its id, and what the caller
  -- gets.
  abbrev pub Ends : Engine F P M → Run F P → Result M → Db F P M → Result (Outcome M) → Type 0
  Ends engine run (err e) db result =
      (result ≡ err e)
      × (get_run run.run_id db ≡ some (record run { status = failed; error = some e }))
      × (get_result run.run_id db ≡ none)
  Ends engine run (ok metrics) db result =
      let outcome : Outcome M = record { run_id = run.run_id; metrics = metrics } in
      EndsStored run outcome (engine.is_stored outcome) db result

  stored-EndsStored :
      (run : Run F P) (db : Db F P M) (outcome : Outcome M)
      → get_run run.run_id db ≡ some (record run { status = running })
      → get_result run.run_id db ≡ none
      → outcome.run_id ≡ run.run_id
      → (b : Bool)
      → let db1 = set_run (record run { status = done }) db in
        let taken : Db F P M × Result (Outcome M) =
          (record db1 { results = db1.results ++ (outcome ∷ []) }, ok outcome) in
        let (db', result) = if b then taken else (db, err pending_rollback) in
        EndsStored run outcome b db' result
  unfolding get_run get_result
  stored-EndsStored run db outcome e h own true = (
    refl,
    set_run-get_run (record run { status = done }) _ db e,
    first-append-one (is_outcome run.run_id) db.results outcome h (ground (arith, own)),
  )
  stored-EndsStored run db outcome e h own false = (refl, e, h)

  close_run-Ends :
      (engine : Engine F P M) (run : Run F P) (db : Db F P M) (r : Result M)
      → get_run run.run_id db ≡ some (record run { status = running })
      → get_result run.run_id db ≡ none
      → let (db', result) = close_run engine (record run { status = running }) db r in
        Ends engine run r db' result
  unfolding close_run get_run get_result
  close_run-Ends engine run db (err x) e h =
      (refl, set_run-get_run (record run { status = failed; error = some x }) _ db e, h)
  close_run-Ends engine run db (ok metrics) e h =
      let outcome : Outcome M = record { run_id = run.run_id; metrics = metrics } in
      stored-EndsStored run db outcome e h refl (engine.is_stored outcome)

  -- A stored run without a result, once executed: if the body raises, the run is failed with that
  -- error on it, without a result, and the error is raised again; if the body returns and the database
  -- takes the result, the run is done with that result, which is returned; if the database refuses
  -- it, the session's error is raised and the run is left running, without a result.
  pub execute_and_store-Ends :
      (engine : Engine F P M) (run : Run F P) (db db' : Db F P M) {result : Result (Outcome M)}
      → get_run run.run_id db ≡ some run
      → get_result run.run_id db ≡ none
      → execute_and_store engine run db ≡ (db', result)
      → Ends engine run (attempt engine db.statuses (record run { status = running })) db' result
  unfolding execute_and_store get_result
  execute_and_store-Ends engine run db db' {result = result} e h same =
      let started : Run F P = record run { status = running } in
      let body = attempt engine db.statuses started in
      subst (λ (p : Db F P M × Result (Outcome M)). Ends engine run body p.0 p.1) same
        (close_run-Ends engine run (set_run started db) body (set_run-get_run started run db e) h)
