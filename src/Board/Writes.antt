-- ===== src/Board/Writes.antt =====
-- app/api/routes/listings.py: every predicate that the statements on the tables keep, and that the
-- other requests keep meanwhile, is kept by a handler.
use agent_discovery_board.Prelude.{
  ℕ, ◌-◌, String, inl, inr, Bool, true, false, Option, none, some, ◌==◌, if◌then◌else◌, Bool-cases,
  Json,
}
use agent_discovery_board.Store.{
  Db, Patch, Write, wrote, no_row, violation, failed, is_null, guarded_type, get_listing,
}
use agent_discovery_board.Store
use agent_discovery_board.ImportStore
use agent_discovery_board.Tables.{Step, Step-IsConsistent}
use agent_discovery_board.Tables
use agent_discovery_board.Maintenance.{maybe_purge, is_throttled}
use agent_discovery_board.Maintenance
use agent_discovery_board.Listing.{Listing, inactive}
use agent_discovery_board.Models.{ListingCreate, validate_create, validate_update}
use agent_discovery_board.Board.Monad.{Env, ◌>>=◌, others_run}
use agent_discovery_board.Board.Keeps.{
  Keeps, bind-Keeps, raise_if-Keeps, creation-Keeps, mutation-Keeps, others-Keeps, verify-Keeps,
  get_or_404-Keeps,
}
use agent_discovery_board.Board.Create.{
  refuse_found, valid_or_422, run_purge, refuse_duplicate, insert_row, finish_create, new_row,
  create_valid, create_listing, duplicate_of,
}
use agent_discovery_board.Board.Change.{
  check_name, check_merged_pricing, may_duplicate, refuse_clash, other_offering, write_patch,
  finish_patch, patch_row, patch_listing, write_inactive, finish_status, deactivate_listing,
}
use agent_discovery_board.Board.Owner.{
  finish_claim, finish_removal, finish_beat, write_claim, claim_row, claim, write_removal,
  remove_row, remove_imported, write_beat, beat_row, heartbeat,
}
use agent_discovery_board.Store.{set_listing_status}

module _ (I : Db → Type 0) (env : Env) (step : (db db' : Db) → Step env.urls db db' → I db → I db')
    (others : (n : ℕ) (db : Db) → I db → I (env.between n db)) where
  between : (n : ℕ) → Keeps I (others_run env n)
  between = others-Keeps I env others

  valid-Keeps : {A : Type 0} (o : Option A) → Keeps I (valid_or_422 o)
  valid-Keeps none st h = h
  valid-Keeps (some a) st h = h

  run_purge-Keeps : Keeps I (run_purge env)
  unfolding run_purge maybe_purge Maintenance.purge
  run_purge-Keeps st h = elim (Bool-cases (is_throttled st.throttle env.mono)) [
    | inl closed ↦ rw (closed) h
    | inr open_now ↦ rw (open_now) (pick env.purge_fails)
  ]
    where
      pick : (b : Bool) → I (if b then st.db else Maintenance.purge st.throttle env.wall st.db)
      pick true = h
      pick false =
          step _ _ (Step.purge (env.wall - st.throttle.ttl) Maintenance.purge_batch_size st.db) h

  refuse_duplicate-Keeps : (p : ListingCreate) → Keeps I (refuse_duplicate env p)
  unfolding refuse_duplicate
  refuse_duplicate-Keeps p st h = elim (Bool-cases (p.listing_type == guarded_type)) [
    | inr other ↦ rw other h
    | inl guarded ↦ rw guarded (pick (duplicate_of env p st.db))
  ]
    where
      pick : (o : Option Listing) → I (refuse_found o st).1.db
      pick none = h
      pick (some r) = h

  insert_row-Keeps : (p : ListingCreate) → Keeps I (insert_row env p)
  unfolding insert_row ◌>>=◌
  insert_row-Keeps p st h = elim (Bool-cases (env.storable row)) [
    | inr refused ↦ rw refused h
    | inl taken ↦
        rw taken (go (Store.create_listing env.urls row st.db) (step _ _ (Step.create row st.db) h))
  ]
    where
      row : Listing
      row = new_row env.new_id env.wall p

      go : (w : Write) → I (Tables.after st.db w) → I (finish_create env p w st).1.db
      go (wrote r db) k = k
      go no_row k = k
      go violation k = k
      go failed k = k

  pub create-Keeps : (body : ListingCreate) → Keeps I (create_listing env body)
  unfolding create_listing create_valid
  create-Keeps body = bind-Keeps I _ _ (creation-Keeps I env) (λ _.
      bind-Keeps I _ _ (valid-Keeps (validate_create env.models body)) (λ p.
        bind-Keeps I _ _ (raise_if-Keeps I _ _) (λ _. bind-Keeps I _ _ (between 0) (λ _.
          bind-Keeps I _ _ run_purge-Keeps (λ _. bind-Keeps I _ _ (between 1) (λ _.
            bind-Keeps I _ _ (refuse_duplicate-Keeps p)
              (λ _. bind-Keeps I _ _ (between 2) (λ _. insert_row-Keeps p))))))))

  refuse_clash-Keeps : (id : String) (p : Patch) (r : Listing) → Keeps I (refuse_clash env id p r)
  unfolding refuse_clash
  refuse_clash-Keeps id p r st h = elim (Bool-cases (may_duplicate p r)) [
    | inr other ↦ rw other h
    | inl guarded ↦ rw guarded (elim (Bool-cases (is_null p.endpoint_url)) [
      | inl e ↦ rw e h
      | inr e ↦ rw e (pick (other_offering env id p r st.db))
    ])
  ]
    where
      pick : (o : Option Listing) → I (refuse_found o st).1.db
      pick none = h
      pick (some x) = h

  write_patch-Keeps : (id : String) (p : Patch) (r : Listing) → Keeps I (write_patch env id p r)
  unfolding write_patch ◌>>=◌
  write_patch-Keeps id p r st h =
      go (Store.update_listing env.urls id p env.wall st.db)
        (step _ _ (Step.patch id p env.wall st.db) h)
    where
      go : (w : Write) → I (Tables.after st.db w) → I (finish_patch env id p r w st).1.db
      go (wrote new db) k = k
      go no_row k = k
      go violation k = elim (Bool-cases (is_null p.endpoint_url)) [
        | inl e ↦ rw e k
        | inr e ↦ rw e k
      ]
      go failed k = k

  check_name-Keeps :
      (name : Option (Option String)) (is_test : Bool) → Keeps I (check_name name is_test)
  unfolding check_name
  check_name-Keeps none is_test st h = h
  check_name-Keeps (some none) is_test st h = h
  check_name-Keeps (some (some name)) is_test st h = raise_if-Keeps I _ _ st h

  pub patch-Keeps :
      (id : String) (body : Patch) (raw : Json) → Keeps I (patch_listing env id body raw)
  unfolding patch_listing patch_row check_merged_pricing
  patch-Keeps id body raw = bind-Keeps I _ _ (mutation-Keeps I env) (λ _.
      bind-Keeps I _ _ (valid-Keeps (validate_update env.models body)) (λ p.
        bind-Keeps I _ _ (between 0) (λ _. bind-Keeps I _ _ (get_or_404-Keeps I id) (λ r.
          bind-Keeps I _ _ (raise_if-Keeps I _ _) (λ _.
            bind-Keeps I _ _ (check_name-Keeps p.name r.is_test) (λ _.
              bind-Keeps I _ _ (verify-Keeps I env _ _ _ _) (λ _.
                bind-Keeps I _ _ (raise_if-Keeps I _ _) (λ _. bind-Keeps I _ _ (between 1) (λ _.
                  bind-Keeps I _ _ (refuse_clash-Keeps id p r)
                    (λ _. bind-Keeps I _ _ (between 2) (λ _. write_patch-Keeps id p r)))))))))))

  write_inactive-Keeps : (id : String) → Keeps I (write_inactive env id)
  unfolding write_inactive set_listing_status ◌>>=◌
  write_inactive-Keeps id st h = go (Store.set_listing_status env.urls id inactive env.wall st.db) (
      step _ _
        (Step.patch id (record Store.empty_patch { status = some (some inactive) }) env.wall st.db)
        h)
    where
      go : (w : Write) → I (Tables.after st.db w) → I (finish_status env w st).1.db
      go (wrote new db) k = k
      go no_row k = k
      go violation k = k
      go failed k = k

  pub delete-Keeps : (id : String) → Keeps I (deactivate_listing env id)
  unfolding deactivate_listing
  delete-Keeps id = bind-Keeps I _ _ (mutation-Keeps I env) (λ _. bind-Keeps I _ _ (between 0) (λ _.
      bind-Keeps I _ _ (get_or_404-Keeps I id) (λ r.
        bind-Keeps I _ _ (verify-Keeps I env _ _ _ _)
          (λ _. bind-Keeps I _ _ (between 1) (λ _. write_inactive-Keeps id)))))

  write_claim-Keeps : (id owner : String) → Keeps I (write_claim env id owner)
  unfolding write_claim ◌>>=◌
  write_claim-Keeps id owner st h =
      go (Store.claim_listing id owner env.wall st.db)
        (step _ _ (Step.claim id owner env.wall st.db) h)
    where
      go : (w : Write) → I (Tables.after st.db w) → I (finish_claim env w st).1.db
      go (wrote new db) k = k
      go no_row k = k
      go violation k = k
      go failed k = k

  pub claim-Keeps : (id : String) → Keeps I (claim env id)
  unfolding claim claim_row
  claim-Keeps id = bind-Keeps I _ _ (mutation-Keeps I env) (λ _. bind-Keeps I _ _ (between 0) (λ _.
      bind-Keeps I _ _ (get_or_404-Keeps I id) (λ r. bind-Keeps I _ _ (raise_if-Keeps I _ _) (λ _.
        bind-Keeps I _ _ (raise_if-Keeps I _ _) (λ _.
          bind-Keeps I _ _ (verify-Keeps I env _ _ _ _)
            (λ _. bind-Keeps I _ _ (between 1) (λ _. write_claim-Keeps id r.payment_wallet)))))))

  write_removal-Keeps : (id : String) → Keeps I (write_removal env id)
  unfolding write_removal ◌>>=◌
  write_removal-Keeps id st h =
      go (ImportStore.remove_imported_listing env.urls id "removed by pay-to owner" env.wall st.db)
        (step _ _ (Step.remove id "removed by pay-to owner" env.wall st.db) h)
    where
      go :
          (o : Option (Listing × Db))
          → I (Tables.after_removal st.db o)
          → I (finish_removal env o st).1.db
      go none k = k
      go (some (r, db)) k = k

  pub remove-Keeps : (id : String) → Keeps I (remove_imported env id)
  unfolding remove_imported remove_row
  remove-Keeps id = bind-Keeps I _ _ (mutation-Keeps I env) (λ _. bind-Keeps I _ _ (between 0) (λ _.
      bind-Keeps I _ _ (get_or_404-Keeps I id) (λ r. bind-Keeps I _ _ (raise_if-Keeps I _ _) (λ _.
        bind-Keeps I _ _ (raise_if-Keeps I _ _) (λ _.
          bind-Keeps I _ _ (verify-Keeps I env _ _ _ _)
            (λ _. bind-Keeps I _ _ (between 1) (λ _. write_removal-Keeps id)))))))

  write_beat-Keeps : (id : String) (r : Listing) → Keeps I (write_beat env id r)
  unfolding write_beat ◌>>=◌
  write_beat-Keeps id r st h =
      go (Store.record_heartbeat id env.wall env.heartbeat_interval st.db)
        (step _ _ (Step.beat id env.wall env.heartbeat_interval st.db) h)
    where
      go : (w : Write) → I (Tables.after st.db w) → I (finish_beat env id r w st).1.db
      go (wrote new db) k = k
      go no_row k = others 2 st.db h
      go violation k = k
      go failed k = k

  pub beat-Keeps : (id : String) → Keeps I (heartbeat env id)
  unfolding heartbeat beat_row
  beat-Keeps id = bind-Keeps I _ _ (mutation-Keeps I env) (λ _. bind-Keeps I _ _ (between 0) (λ _.
      bind-Keeps I _ _ (get_or_404-Keeps I id) (λ r.
        bind-Keeps I _ _ (verify-Keeps I env _ _ _ _) (λ _.
          bind-Keeps I _ _ (raise_if-Keeps I _ _)
            (λ _. bind-Keeps I _ _ (between 1) (λ _. write_beat-Keeps id r))))))
