-- ===== src/Tests/Sync.antt =====
-- A sync at a concrete batch.
use agent_discovery_board.Prelude.{◌≡◌, refl, true, none, some, [], ◌∷◌, is_in, lower, strip}
use agent_discovery_board.Tests.Data.{alice, urls, models, imported, tables}
use agent_discovery_board.Listing.{Listing}
use agent_discovery_board.Store.{Db, is_guarded, same_offering, same_import, clash, insert}
use agent_discovery_board.Endpoint.{
  normalize_endpoint_url, normalize_host, normalize_path, strip_end, collapse_slashes, sort_pairs,
  default_port,
}
use agent_discovery_board.Store.Writes.{IsConsistent}
use agent_discovery_board.Models.{
  has_valid_fields, validate_create, validate_task_categories, validate_listing_type,
  validate_payment_wallet, validate_https_url, validate_generic_url,
}
use agent_discovery_board.Models.Shapes.{is_evm_address, is_slug, has_control_chars, chomp}
use agent_discovery_board.Models.Pricing.{is_priced, has_no_pricing}
use agent_discovery_board.Imports.{
  SourceRecord, build_import_row, import_row, resolve_source, validate_source, validate_source_url,
  filter_payment_options, resolve_payment_wallet, ◌>>=◌,
}
use agent_discovery_board.Imports.Unclaimed.{IsImport, build_import_row-IsImport}
use agent_discovery_board.ImportStore.{upsert, import_upsert}
use agent_discovery_board.ImportSync.{SyncPlan}
use agent_discovery_board.ImportSync.Apply.{apply_rows, apply_plan}
use agent_discovery_board.ImportSync.Failure.{missing_ids, apply_failure_marks_nothing}

abbrev sent : SourceRecord
sent = record {
  import_source = some "feed";
  source = none;
  source_url = none;
  name = some "Translator profile";
  description = some "Imported";
  listing_type = none;
  task_categories = some ("translation" ∷ []);
  endpoint_url = some "i.example";
  payment_wallet = some alice;
  pricing_model = none;
  pricing_amount = none;
  payment_options = none ∷ [];
  erc8004_identity = none;
  verification_agent_id = none;
  output_schema = none;
  verification = none;
  template_url = none;
  nested_template_url = none;
}

abbrev row : Listing
row = record imported {
  id = "n";
  name = "Translator profile";
  description = "Imported";
  pricing_model = none;
  pricing_amount = none;
  created_at = 900;
  updated_at = 900;
  imported_at = some 900;
  last_synced_at = some 900;
  endpoint_key = "";
}

build_import_row-IsImport_example : IsImport none sent row
unfolding build_import_row import_row resolve_source validate_source validate_source_url
    filter_payment_options resolve_payment_wallet ◌>>=◌ has_valid_fields validate_create
    validate_task_categories validate_listing_type validate_payment_wallet validate_https_url
    validate_generic_url is_evm_address is_slug has_control_chars chomp is_priced has_no_pricing
    lower strip
build_import_row-IsImport_example = build_import_row-IsImport models "n" none 900 sent row refl

abbrev plan : SyncPlan
plan = record {
  validated = record {
    rows = row ∷ row ∷ [];
    rejected = [];
    stats = record { dropped_payment_options = 0; derived_payment_wallet = 0 };
  };
  importable = [];
  skipped = [];
  duplicates_in_batch = 0;
  sources = "feed" ∷ [];
  would_mark_missing = [];
  mark_missing = true;
}

tables-IsConsistent : IsConsistent urls tables
unfolding clash same_offering same_import is_guarded normalize_endpoint_url normalize_host
    normalize_path strip_end collapse_slashes sort_pairs default_port lower strip
tables-IsConsistent = record { unique = (refl, (refl, tt)); keys = (refl, (refl, tt)) }

-- A second feed offers what another feed's unclaimed offering has: the upsert raises.
abbrev rival : Listing
rival = record row { id = "r"; listing_type = "offering"; source = some "rival" }

abbrev held : Db
held = record tables {
  listings =
      (record rival {
        id = "h";
        source = some "feed";
        endpoint_key = "https://i.example/v1";
        missing_from_source_since = some 5;
      })
      ∷ [];
}

apply_failure_marks_nothing_example : is_in "h" (missing_ids held) ≡ true
unfolding apply_plan apply_rows import_upsert upsert insert clash same_offering same_import
    is_guarded normalize_endpoint_url normalize_host normalize_path strip_end collapse_slashes
    sort_pairs default_port lower strip
apply_failure_marks_nothing_example =
    apply_failure_marks_nothing urls (record plan { importable = rival ∷ [] }) 900 none held held
      "h" (refl, tt) refl refl
