-- ===== src/Tests/Script.antt =====
-- The operator's script at concrete arguments.
use agent_discovery_board.Prelude.{◌≡◌, refl, true, false, none, some, [], ◌∷◌, pos}
use agent_discovery_board.Tests.Data.{offering, imported, models, urls, tables}
use agent_discovery_board.Tests.Handlers.{tables-IsConsistent}
use agent_discovery_board.Listing.{inactive}
use agent_discovery_board.Store.{others}
use agent_discovery_board.Store.Writes.{IsConsistent}
use agent_discovery_board.AdminScript.{Args, ScriptState, ScriptEnv}
use agent_discovery_board.AdminScript.Commands.{main}
use agent_discovery_board.AdminScript.Commands.DryRun.{Kept, main-Kept}
use agent_discovery_board.AdminScript.Commands.Exact.{spares_others, main-IsConsistent}

-- Every value is as expected.
abbrev shell : ScriptEnv
shell = record {
  loads = λ s. none;
  differs = λ a b. false;
  not_distinct = λ a b. true;
  adapts = λ v. true;
  read_candidate = λ fields. none;
  models = models;
  urls = urls;
  now = 900;
  test_ttl = 100;
  typed = "";
  configured = true;
  between = λ n db. db;
}

abbrev deletion : Args
deletion = record {
  id = some "a";
  expects = "status=inactive" ∷ [];
  sets = [];
  unset = [];
  delete = true;
  purge_test = false;
  older_than = none;
  limit = pos 1000;
  apply = true;
  yes = true;
}

abbrev rehearsal : Args
rehearsal = record deletion { apply = false }

abbrev stored : ScriptState
stored = record {
  db = record tables { listings = record offering { status = inactive } ∷ imported ∷ [] };
  log = [];
}

main-Kept_example : Kept stored (main shell rehearsal stored).1
main-Kept_example = main-Kept shell rehearsal stored refl (λ n db. refl)

spares_others_example :
    others "a" (main shell deletion stored).1.db.listings ≡ others "a" stored.db.listings
spares_others_example = spares_others shell deletion stored refl (λ n db. refl)

main-IsConsistent_example :
    IsConsistent shell.urls (main shell deletion (record { db = tables; log = [] })).1.db
main-IsConsistent_example =
    main-IsConsistent shell deletion (record { db = tables; log = [] }) (λ n db c. c)
      tables-IsConsistent
