-- ===== src/Board/Requests.antt =====
-- app/api/routes/listings.py: the writing requests of the board, one after the other, each with what
-- other processes do to the tables meanwhile.
use agent_discovery_board.Prelude.{ℕ, String, ◌≡◌, List, [], ◌∷◌, All, Json}
use mathlib.Core.Path.{subst}
use agent_discovery_board.Endpoint.{UrlLibrary}
use agent_discovery_board.Store.{Db, Patch}
use agent_discovery_board.Store.Writes.{IsConsistent}
use agent_discovery_board.Tables.{Step, Step-IsConsistent}
use agent_discovery_board.Listing.{Listing}
use agent_discovery_board.Models.{ListingCreate}
use agent_discovery_board.Board.Monad.{State, Env, Run}
use agent_discovery_board.Board.Keeps.{Keeps}
use agent_discovery_board.Board.Create.{create_listing}
use agent_discovery_board.Board.Change.{patch_listing, deactivate_listing}
use agent_discovery_board.Board.Owner.{claim, remove_imported, heartbeat}
use agent_discovery_board.Board.Writes.{
  create-Keeps, patch-Keeps, delete-Keeps, claim-Keeps, remove-Keeps, beat-Keeps,
}

-- A request that may write.
pub data Call : Type 0 where
  post : ListingCreate → Call
  patch : String → Patch → Json → Call
  delete : String → Call
  claiming : String → Call
  removing : String → Call
  beating : String → Call

-- The handler that the router picks.
unfoldable pub handle : Env → Call → Run Listing
handle env (post body) = create_listing env body
handle env (patch id p raw) = patch_listing env id p raw
handle env (delete id) = deactivate_listing env id
handle env (claiming id) = claim env id
handle env (removing id) = remove_imported env id
handle env (beating id) = heartbeat env id

-- The state after a sequence of requests.
unfoldable pub serve : State → List (Env × Call) → State
unfolding handle
serve st [] = st
serve st ((env, c) ∷ rest) = serve (handle env c st).1 rest

-- A predicate on the tables that every statement keeps, and that the other requests keep meanwhile,
-- is kept by every handler, however it ends.
pub handle-Keeps :
    (I : Db → Type 0) (env : Env)
    → ((db db' : Db) → Step env.urls db db' → I db → I db')
    → ((n : ℕ) (db : Db) → I db → I (env.between n db))
    → (c : Call) → Keeps I (handle env c)
unfolding handle
handle-Keeps I env step others (post body) = create-Keeps I env step others body
handle-Keeps I env step others (patch id p raw) = patch-Keeps I env step others id p raw
handle-Keeps I env step others (delete id) = delete-Keeps I env step others id
handle-Keeps I env step others (claiming id) = claim-Keeps I env step others id
handle-Keeps I env step others (removing id) = remove-Keeps I env step others id
handle-Keeps I env step others (beating id) = beat-Keeps I env step others id

-- The other requests of one surrounding keep the tables consistent.
abbrev pub IsFair : UrlLibrary → Env × Call → Type 0
IsFair urls (env, c) =
    (env.urls ≡ urls)
    × ((n : ℕ) (db : Db) → IsConsistent urls db → IsConsistent urls (env.between n db))

-- Served one after the other, requests of any kind and content leave consistent tables consistent,
-- whatever the others do meanwhile that keeps them so: no duplicate of an active offering, of an
-- import or of an id appears, also where a handler's own check was outrun.
pub serve-IsConsistent :
    (urls : UrlLibrary) (calls : List (Env × Call)) (st : State)
    → All (IsFair urls) calls
    → IsConsistent urls st.db
    → IsConsistent urls (serve st calls).db
unfolding serve
serve-IsConsistent urls [] st fair c = c
serve-IsConsistent urls ((env, call) ∷ rest) st ((same, others), fair) c =
    serve-IsConsistent urls rest (handle env call st).1 fair (
      handle-Keeps (IsConsistent urls) env
        (λ db db' s. Step-IsConsistent urls (subst (λ u. Step u db db') same s)) others call st c)
