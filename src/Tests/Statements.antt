-- ===== src/Tests/Statements.antt =====
-- The statements on the tables at concrete inputs.
use agent_discovery_board.Prelude.{
  ◌≡◌, refl, true, false, none, some, [], ◌∷◌, ◌++◌, if◌then◌else◌, is_some, lower, strip,
}
use agent_discovery_board.Tests.Data.{alice, nobody, urls, offering, imported, expired, tables}
use agent_discovery_board.Listing.{Listing}
use agent_discovery_board.Endpoint.{
  normalize_endpoint_url, normalize_host, normalize_path, strip_end, collapse_slashes, sort_pairs,
  default_port,
}
use agent_discovery_board.Store.{
  Db, wrote, violation, get_listing, is_guarded, same_offering, same_import, clash, replace,
  create_listing, find_active_duplicate, key_of,
}
use agent_discovery_board.Store.Writes.{IsConsistent}
use agent_discovery_board.Store.Duplicates.{keyed, create_iff_no_duplicate}
use agent_discovery_board.ImportStore.{
  updated, import_upsert, remove_imported_listing, is_in_do_not_import, block,
}
use agent_discovery_board.ImportStore.Claimed.{claimed_preserved, synced}
use agent_discovery_board.ImportStore.Removal.{removed_stays_out}
use agent_discovery_board.Tables.{Step, Reach, Reach-IsConsistent}
use agent_discovery_board.Tables

abbrev second_offering : Listing
second_offering = record offering { id = "b"; name = "Again" }

tables-IsConsistent : IsConsistent urls tables
unfolding clash same_offering same_import is_guarded normalize_endpoint_url normalize_host
    normalize_path strip_end collapse_slashes sort_pairs default_port lower strip
tables-IsConsistent = record { unique = (refl, (refl, tt)); keys = (refl, (refl, tt)) }

create_iff_no_duplicate_example : create_listing urls second_offering tables ≡ (
    if is_some (find_active_duplicate urls "a.example" alice none false tables)
    then violation
    else wrote
        (keyed urls second_offering)
        (record tables { listings = tables.listings ++ keyed urls second_offering ∷ [] }))
create_iff_no_duplicate_example =
    create_iff_no_duplicate urls second_offering tables
      (record { offered = refl; shown = refl; own = refl; new_id = refl })

Reach-IsConsistent_example :
    IsConsistent urls (Tables.after tables (create_listing urls second_offering tables))
Reach-IsConsistent_example =
    Reach-IsConsistent urls tables-IsConsistent
      (Reach.next Reach.here (Step.create second_offering tables))

abbrev beaten : Listing
beaten = record offering { last_seen_at = some 1000 }

abbrev taken : Listing
taken = record imported { submitted_by = alice; claimed = true; updated_at = 900 }

abbrev renamed : Listing
renamed = record offering { name = "Better"; updated_at = 900 }

abbrev claimed_tables : Db
claimed_tables = record tables { listings = taken ∷ [] }

claimed_tables-IsConsistent : IsConsistent urls claimed_tables
unfolding clash same_offering same_import is_guarded normalize_endpoint_url normalize_host
    normalize_path strip_end collapse_slashes sort_pairs default_port lower strip
claimed_tables-IsConsistent = record { unique = (refl, tt); keys = (refl, tt) }

claimed_preserved_example :
    import_upsert urls none
      (record imported { id = "j"; name = "New name"; last_synced_at = some 2000 })
      claimed_tables
    ≡ updated
        (synced (record imported { id = "j"; name = "New name"; last_synced_at = some 2000 }) taken)
        (record claimed_tables {
          listings =
              replace "i"
                (synced
                  (record imported { id = "j"; name = "New name"; last_synced_at = some 2000 })
                  taken)
                (taken ∷ []);
        })
unfolding same_import normalize_endpoint_url normalize_host normalize_path strip_end
    collapse_slashes sort_pairs default_port lower strip
claimed_preserved_example =
    claimed_preserved urls none
      (record imported { id = "j"; name = "New name"; last_synced_at = some 2000 }) taken
      claimed_tables claimed_tables-IsConsistent refl refl

abbrev other_source : Listing
other_source = record offering {
  id = "x";
  claimed = false;
  submitted_by = nobody;
  source = some "feed";
  endpoint_url = "i.example";
}

abbrev feed_tables : Db
feed_tables = record tables {
  listings =
      (record other_source {
        id = "y";
        source = some "other";
        endpoint_key = "https://i.example/v1";
      })
      ∷ [];
}

removed_stays_out_example :
    (get_listing "i" (record {
      listings = offering ∷ [];
      do_not_import =
          (record {
            source = "feed";
            endpoint_key = key_of urls "i.example";
            reason = "asked";
            created_at = 900;
          })
          ∷ [];
    })
      ≡ none)
    × (is_in_do_not_import urls "feed" "i.example" (record {
      listings = offering ∷ [];
      do_not_import =
          (record {
            source = "feed";
            endpoint_key = key_of urls "i.example";
            reason = "asked";
            created_at = 900;
          })
          ∷ [];
    })
        ≡ true)
unfolding remove_imported_listing block
removed_stays_out_example =
    removed_stays_out urls "i" "asked" "feed" 900 tables
      (record {
        listings = offering ∷ [];
        do_not_import =
            (record {
              source = "feed";
              endpoint_key = key_of urls "i.example";
              reason = "asked";
              created_at = 900;
            })
            ∷ [];
      })
      imported refl refl

abbrev old_tables : Db
old_tables = record tables { listings = expired ∷ offering ∷ [] }
