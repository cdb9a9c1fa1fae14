-- ===== src/AdminImport/Effects.antt =====
-- app/api/routes/admin_import.py: what the handler may change on any of its paths.
use agent_discovery_board.Prelude.{
  ℕ, String, ◌≡◌, refl, ap, ◌∙◌, Bool, true, false, Option, none, some, List, [], ◌∷◌, arith, Json,
  if◌then◌else◌, eqb, length, ltb, ◌+◌, ◌++◌,
}
use agent_discovery_board.Errors.{ApiError, Result, ok, err, crash}
use agent_discovery_board.ImportSync.{SyncPlan}
use agent_discovery_board.ImportSync.DryRun.{Counts}
use agent_discovery_board.ImportSync.Records.{parse_records}
use agent_discovery_board.AdminImport.{
  ImportState, Run, ◌>>=◌, note, under_lock, Request, Env, bool_param, check_declared, sent_source,
  resume, pure, raise, read_chunks, read_body, or_raise, ImportResult,
}
use agent_discovery_board.AdminImport.Handler.{
  others_run, authorize, read_records, write_plan, run_plan, note_result, plan_of, count_plan,
  report, sync_body, note_parameters, handle,
}

check_declared_state :
    (max_bytes : ℕ) (declared : Option String) (st : ImportState)
    → (check_declared max_bytes declared st).1 ≡ st
unfolding check_declared
check_declared_state max_bytes declared st = ground arith

bool_param_state :
    (raw : Option String) (default : Bool) (st : ImportState) → (bool_param raw default st).1 ≡ st
unfolding bool_param
bool_param_state raw default st = ground arith

or_raise_state :
    {A : Type 0} (o : Option A) (e : ApiError) (st : ImportState) → (or_raise o e st).1 ≡ st
or_raise_state none e st = refl
or_raise_state (some a) e st = refl

-- A relation that holds between the states before and after a step, and that steps in a row keep.
module _ (R : ImportState → ImportState → Type 0) (same : (s : ImportState) → R s s)
    (trans : (s t u : ImportState) → R s t → R t u → R s u) where
  pub record Does {A : Type 0} (m : Run A) : Type 0 where
    pub run : (st : ImportState) → R st (m st).1

  resume-Does :
      {A B : Type 0} (f : A → Run B) (x : Result A) (s t : ImportState)
      → ((a : A) → Does (f a))
      → R s t
      → R s (resume f x t).1
  resume-Does f (ok a) s t h r = trans s t (f a t).1 r ((h a).run t)
  resume-Does f (err e) s t h r = r
  resume-Does f crash s t h r = r

  pub Does-bind :
      {A B : Type 0} (m : Run A) (f : A → Run B) → Does m → ((a : A) → Does (f a)) → Does (m >>= f)
  unfolding ◌>>=◌
  Does-bind m f h k = record { run = λ st. resume-Does f (m st).0 st (m st).1 k (h.run st) }

  -- Where what follows is known of the values that the step returns.
  pub Does-bind_from :
      {A B : Type 0} (m : Run A) (f : A → Run B)
      → Does m
      → ((st : ImportState) (a : A) → (m st).0 ≡ ok a → Does (f a))
      → Does (m >>= f)
  unfolding ◌>>=◌
  Does-bind_from {A} m f h k = record { run = λ st. go st (m st).0 refl }
    where
      go : (st : ImportState) (x : Result A) → (m st).0 ≡ x → R st (resume f x (m st).1).1
      go st (ok a) e = trans st (m st).1 (f a (m st).1).1 (h.run st) ((k st a e).run (m st).1)
      go st (err e) q = h.run st
      go st crash q = h.run st

  pub Does-same : {A : Type 0} (m : Run A) → ((st : ImportState) → (m st).1 ≡ st) → Does m
  Does-same m h = record { run = λ st. rw (h st) (same st) }

  Does-pure : {A : Type 0} (a : A) → Does (pure a)
  Does-pure a = record { run = same }

  pub raise-Does : {A : Type 0} (e : ApiError) → Does (raise {A = A} e)
  raise-Does e = record { run = same }

  pub if-Does : {A : Type 0} (b : Bool) (m n : Run A) → Does m → Does n → Does (if b then m else n)
  if-Does true m n h k = h
  if-Does false m n h k = k

  module _
      (noted : (st : ImportState) (i : List (String × Json)) → R st (record st { info = i })) where
    Does-note : (field : String × Json) → Does (note field)
    unfolding note
    Does-note field = record { run = λ st. noted st (field ∷ st.info) }

    read_chunks-Does :
        (max_bytes total : ℕ) (body : List ℕ) (chunks : List (List ℕ))
        → Does (read_chunks max_bytes total body chunks)
    unfolding read_chunks
    read_chunks-Does max_bytes total body [] = Does-bind _ _ (Does-note _) (λ a. Does-pure body)
    read_chunks-Does max_bytes total body (chunk ∷ chunks) =
        if-Does (ltb max_bytes (total + length chunk)) _ _ (raise-Does _)
          (read_chunks-Does max_bytes (total + length chunk) (body ++ chunk) chunks)

    read_body-Does : (max_bytes : ℕ) (r : Request) → Does (read_body max_bytes r)
    unfolding read_body
    read_body-Does max_bytes r =
        Does-bind _ _ (Does-same _ (check_declared_state max_bytes r.content_length))
          (λ _. read_chunks-Does max_bytes 0 [] r.chunks)

    module _ (env : Env) (r : Request) where
      read_records-Does : Does (read_records env r)
      unfolding read_records
      read_records-Does = Does-bind _ _ (read_body-Does env.max_body_bytes r) λ body.
          Does-bind _ _ (Does-same _ (or_raise_state (env.decode_utf8 body) _)) λ text.
            Does-bind _ _ (Does-same _ (or_raise_state (parse_records env.loads text) _)) λ records.
              if-Does (eqb (length records) 0) _ _ (raise-Does _)
                (Does-bind _ _ (Does-note _) (λ a. Does-pure records))

      module _ (others : (n : ℕ) → Does (others_run env r n)) (dry_run : Bool)
          (writes : dry_run ≡ false → (plan : SyncPlan) → Does (write_plan env r plan)) where
        run_plan-Does :
            (b : Bool)
            → dry_run ≡ b
            → (plan : SyncPlan) (counts : Counts) → Does (run_plan env r b plan counts)
        unfolding run_plan
        run_plan-Does true e plan counts = Does-pure counts
        run_plan-Does false e plan counts =
            Does-bind _ _ (others 2) λ _. Does-bind _ _ (writes e plan) λ out. Does-pure _

        sync_body-Does :
            (mark_missing : Bool) (source : Option String)
            → Does (sync_body env r dry_run mark_missing source)
        unfolding sync_body
        sync_body-Does mark_missing source = Does-bind _ _ read_records-Does λ records.
            Does-bind _ _ (others 0) λ _.
              Does-bind (plan_of env r mark_missing source records) _ (record { run = same })
                λ plan. Does-bind _ _ (others 1) λ _.
                  Does-bind (count_plan env r plan) _ (record { run = same })
                    λ counts. Does-bind _ _ (run_plan-Does dry_run refl plan counts) λ final.
                      let x = report env r dry_run mark_missing records plan final in
                      Does-bind (note_result env r x) (λ _. pure x) (result x) λ _. Does-pure x
          where
            result : (x : ImportResult) → Does (note_result env r x)
            result x = record { run = λ st. unfold note_result in noted st _ }

      -- The whole handler, where the lock and the limiters are handled by their own lemmas.
      module _ (others : (n : ℕ) → Does (others_run env r n)) (authorized : Does (authorize env r))
          (locked : (m : Run ImportResult) → Does m → Does (under_lock m))
          (writes : (st : ImportState)
            → (bool_param r.dry_run true st).0 ≡ ok false
            → (plan : SyncPlan) → Does (write_plan env r plan)) where
        pub handle-Does : Does (handle env r)
        unfolding handle
        handle-Does = Does-bind _ _ authorized λ _.
            Does-bind_from _ _ (Does-same _ (bool_param_state r.dry_run true)) λ st dry_run e.
              Does-bind _ _ (Does-same _ (bool_param_state r.mark_missing true)) λ mark_missing.
                Does-bind _ _ (record { run = λ st'. unfold note_parameters in noted st' _ })
                  λ _. locked _ (
                    sync_body-Does others dry_run
                      (λ is_false plan. writes st (e ∙ ap ok is_false) plan) mark_missing
                      (sent_source r.source))
