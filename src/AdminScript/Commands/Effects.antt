-- ===== src/AdminScript/Commands/Effects.antt =====
-- scripts/admin_update_listing.py: what a run does to the tables and the log, if its applied commands do it,
-- for any relation of states that steps in a row keep.
use agent_discovery_board.Prelude.{
  ℕ, String, ◌≡◌, refl, inl, inr, Bool, true, false, not, ◌&&◌, Option, none, some, List, [], ◌∷◌,
  Bool-cases, ◌==◌, or_else, if◌then◌else◌,
}
use agent_discovery_board.Listing.{Listing}
use agent_discovery_board.AdminScript.{
  Args, ScriptState, Res, done, refused, unhandled, Run, pure, refuse, resume, ◌>>=◌, refuse_if,
  ScriptEnv, Values,
}
use agent_discovery_board.AdminScript.Commands.{
  others_run, or_refuse, fetch_one, apply_delete, apply_update, run_delete, purge_rows, run_purge,
  check_change, finish_change, run_update, run_expected, run, main,
}

module _ (R : ScriptState → ScriptState → Type 0) (same : (s : ScriptState) → R s s)
    (trans : (s t u : ScriptState) → R s t → R t u → R s u) where
  pub record Does {A : Type 0} (m : Run A) : Type 0 where
    pub effect : (st : ScriptState) → R st (m st).1

  module _ {A : Type 0} where
    pub pure-Does : (a : A) → Does (pure a)
    pure-Does a = record { effect = same }

    refuse-Does : (code : ℕ) → Does (refuse {A = A} code)
    refuse-Does code = record { effect = same }

    or_refuse-Does : (a : Option A) (code : ℕ) → Does (or_refuse a code)
    or_refuse-Does none code = record { effect = same }
    or_refuse-Does (some a) code = record { effect = same }

    pub if-Does : (b : Bool) (m n : Run A) → Does m → Does n → Does (if b then m else n)
    if-Does true m n h k = h
    if-Does false m n h k = k

  resume-Does :
      {A B : Type 0} (f : A → Run B) (s t : ScriptState) (r : Res A)
      → R s t
      → ((a : A) → Does (f a))
      → R s (resume f r t).1
  resume-Does f s t (done a) k h = trans s t (f a t).1 k ((h a).effect t)
  resume-Does f s t (refused code) k h = k
  resume-Does f s t unhandled k h = k

  pub bind-Does :
      {A B : Type 0} (m : Run A) (f : A → Run B) → Does m → ((a : A) → Does (f a)) → Does (m >>= f)
  unfolding ◌>>=◌
  bind-Does m f h k = record { effect = λ st. resume-Does f st (m st).1 (m st).0 (h.effect st) k }

  pub refuse_if-Does : (c : Bool) (code : ℕ) → Does (refuse_if c code)
  refuse_if-Does true code = record { effect = same }
  refuse_if-Does false code = record { effect = same }

  module _ (env : ScriptEnv) (args : Args) (others-Does : (n : ℕ) → Does (others_run env args n))
      (delete-Does : args.purge_test ≡ false
        → (expected : Values) (before : Listing)
        → Does (if args.apply then apply_delete env args expected before else pure 0))
      (purge-Does : args.purge_test ≡ true
        → (rows : List Listing) → Does (purge_rows env args rows))
      (update-Does : args.purge_test ≡ false
        → (expected : Values) (fields : List String) (final : Listing)
        → Does (if args.apply then apply_update env args expected fields final else pure 0)) where
    fetch_one-Does : Does (fetch_one env args)
    unfolding fetch_one
    fetch_one-Does = record { effect = λ st. (or_refuse-Does _ _).effect st }

    run_delete-Does :
        args.purge_test ≡ false → (expected : Values) → Does (run_delete env args expected)
    unfolding run_delete
    run_delete-Does real expected = bind-Does _ _ (others-Does 1) (λ _.
        bind-Does _ _ fetch_one-Does (λ before.
          bind-Does _ _ (refuse_if-Does _ _)
            (λ _. bind-Does _ _ (refuse_if-Does _ _) (λ _. delete-Does real expected before))))

    run_purge-Does : args.purge_test ≡ true → Does (run_purge env args)
    unfolding run_purge
    run_purge-Does purge =
        bind-Does _ _
          (bind-Does _ _ (bind-Does _ _ (refuse_if-Does _ _) (λ _. refuse_if-Does _ _))
            (λ _. others-Does 1))
          (λ _. record { effect = λ st. (purge-Does purge _).effect st })

    check_change-Does :
        (changes : Values) (before : Listing) → Does (check_change env args changes before)
    unfolding check_change
    check_change-Does changes before = bind-Does _ _ (or_refuse-Does _ _) (λ final.
        bind-Does _ _ (bind-Does _ _ (refuse_if-Does _ _) (λ _. refuse_if-Does _ _))
          (λ _. pure-Does final))

    finish_change-Does :
        args.purge_test ≡ false
        → (expected : Values) (fields : List String) (final : Listing)
        → Does (finish_change env args expected fields final)
    finish_change-Does real expected [] final = pure-Does 0
    finish_change-Does real expected (f ∷ fields) final =
        update-Does real expected (f ∷ fields) final

    run_update-Does :
        args.purge_test ≡ false
        → (expected changes : Values) → Does (run_update env args expected changes)
    unfolding run_update
    run_update-Does real expected changes = bind-Does _ _ (others-Does 1) (λ _.
        bind-Does _ _ fetch_one-Does (λ before. bind-Does _ _ (refuse_if-Does _ _) (λ _.
          bind-Does _ _ (check_change-Does changes before)
            (λ final. finish_change-Does real expected _ final))))

    run_expected-Does :
        args.purge_test ≡ false → (expected : Values) → Does (run_expected env args expected)
    run_expected-Does real expected = if-Does _ _ _ (refuse-Does _) (
        if-Does args.delete _ _
          (bind-Does _ _ (refuse_if-Does _ _) (λ _. run_delete-Does real expected))
          (bind-Does _ _ (or_refuse-Does _ _) (λ sets.
            bind-Does _ _ (or_refuse-Does _ _) (λ changes.
              bind-Does _ _ (refuse_if-Does _ _) (λ _. run_update-Does real expected changes)))))

    choice-Does :
        (b : Bool)
        → args.purge_test ≡ b
        → (m n : Run ℕ) → (b ≡ true → Does m)
        → (b ≡ false → Does n)
        → Does (if args.purge_test then m else n)
    choice-Does true e m n h k = rw e (h refl)
    choice-Does false e m n h k = rw e (k refl)

    run-Does : Does (run env args)
    unfolding run
    run-Does = bind-Does _ _ (refuse_if-Does _ _) (λ _.
        choice-Does args.purge_test refl _ _
          (λ purge. bind-Does _ _ (refuse_if-Does _ _) (λ _. run_purge-Does purge))
          (λ real. bind-Does _ _ (or_refuse-Does _ _) (run_expected-Does real)))

    pub main-Does : (st : ScriptState) → R st (main env args st).1
    unfolding main
    main-Does st = elim (Bool-cases (not args.purge_test && or_else args.id "" == "")) [
      | inl e ↦ rw e (same st)
      | inr e ↦ rw e (run-Does.effect st)
    ]
