-- ===== src/ImportSync/Blocked.antt =====
-- app/core/import_sync.py: what is on the do-not-import list is never planned.
use agent_discovery_board.Prelude.{
  String, ◌≡◌, refl, ap, ◌∙◌, inl, inr, false, List, [], ◌∷◌, ◌==◌, eq_iff, Bool-cases, All, is_in,
}
use agent_discovery_board.Listing.{Listing}
use agent_discovery_board.Endpoint.{UrlLibrary}
use agent_discovery_board.Store.{Db, key_of}
use agent_discovery_board.ImportStore.{do_not_import_keys}
use agent_discovery_board.ImportSync.{SourcePlan, set_latest, plan_row, plan_rows, no_plan, urls_of}

-- An entry under the key of its own row, which is not in the list.
abbrev pub IsOpen : UrlLibrary → List String → String × Listing → Type 0
IsOpen urls blocked (key, row) = (is_in key blocked ≡ false) × (key ≡ key_of urls row.endpoint_url)

set_latest-IsOpen :
    (urls : UrlLibrary) (blocked : List String) (key : String) (row : Listing)
    (es : List (String × Listing))
    → IsOpen urls blocked (key, row)
    → All (IsOpen urls blocked) es
    → All (IsOpen urls blocked) (set_latest key row es)
unfolding set_latest
set_latest-IsOpen urls blocked key row [] h hs = (h, tt)
set_latest-IsOpen urls blocked key row ((k, old) ∷ es) h (o, hs) = elim (Bool-cases (k == key)) [
  | inl e ↦ rw e (
    (ap (λ (x : String). is_in x blocked) ((eq_iff k key).0 e) ∙ h.0, (eq_iff k key).0 e ∙ h.1),
    hs,
  )
  | inr e ↦ rw e (o, set_latest-IsOpen urls blocked key row es h hs)
]

plan_rows-IsOpen :
    (urls : UrlLibrary) (blocked : List String) (rows : List Listing) (p : SourcePlan)
    → All (IsOpen urls blocked) p.latest
    → All (IsOpen urls blocked) (plan_rows urls blocked rows p).latest
unfolding plan_rows plan_row
plan_rows-IsOpen urls blocked [] p h = h
plan_rows-IsOpen urls blocked (row ∷ rows) p h =
    elim (Bool-cases (is_in (key_of urls row.endpoint_url) blocked)) [
      | inl e ↦
          plan_rows-IsOpen urls blocked rows (plan_row blocked (key_of urls row.endpoint_url) row p)
            (rw e h)
      | inr e ↦
          plan_rows-IsOpen urls blocked rows (plan_row blocked (key_of urls row.endpoint_url) row p)
            (rw e (
              set_latest-IsOpen urls blocked (key_of urls row.endpoint_url) row p.latest (e, refl)
                h))
    ]

-- A row that is planned for a source is kept under the key of its own endpoint, and that endpoint is not
-- among the batch's endpoints that the do-not-import list of the source blocks.
pub planned-IsOpen :
    (urls : UrlLibrary) (source : String) (rows : List Listing) (db : Db)
    → let blocked = do_not_import_keys urls source (urls_of rows) db in
      All (IsOpen urls blocked) (plan_rows urls blocked rows no_plan).latest
planned-IsOpen urls source rows db = plan_rows-IsOpen urls _ rows no_plan tt
