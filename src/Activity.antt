-- ===== src/Activity.antt =====
-- app/core/activity.py: the last activity of a listing, and staleness. Also the SQL that db.py sorts
-- and filters by (`ACTIVITY_SQL`, the `stale` condition of `_filter_conditions`).
use agent_discovery_board.Prelude.{
  ℕ, ◌+◌, ◌*◌, ◌≤◌, max, ◌≡◌, Bool, true, false, ◌||◌, Option, none, some, arith, ltb,
  if◌then◌else◌, is_some, or_else,
}
use agent_discovery_board.Listing.{Listing}

-- HEARTBEAT_MIN_INTERVAL, in microseconds
abbrev pub heartbeat_min_interval : ℕ
heartbeat_min_interval = 24 * 3600 * 1000000

-- max(created_at, updated_at, last_seen_at or created_at)
unfoldable pub last_activity_at : Listing → ℕ
last_activity_at r = max (max r.created_at r.updated_at) (or_else r.last_seen_at r.created_at)

-- GREATEST and COALESCE of the SQL expression
abbrev greatest : ℕ → ℕ → ℕ
greatest a b = if ltb a b then b else a

abbrev coalesce : Option ℕ → ℕ → ℕ
coalesce none d = d
coalesce (some x) d = x

unfoldable pub activity_sql : Listing → ℕ
activity_sql r =
    greatest (greatest r.created_at r.updated_at) (coalesce r.last_seen_at r.created_at)

-- now - last_activity_at(row) > STALE_AFTER_DAYS, or missing from its source
unfoldable pub is_stale : ℕ → ℕ → Listing → Bool
unfolding last_activity_at
is_stale stale_after now r =
    if is_some r.missing_from_source_since then true else ltb (last_activity_at r + stale_after) now

unfoldable pub stale_sql : ℕ → ℕ → Listing → Bool
unfolding activity_sql
stale_sql stale_after now r =
    is_some r.missing_from_source_since || ltb (activity_sql r + stale_after) now

-- The SQL that sorts and the Python that fills the response and the cursors name the same time, and
-- the filter and the response field agree on what is stale.
pub sql-eq-python :
    (stale_after now : ℕ) (r : Listing)
    → (activity_sql r ≡ last_activity_at r)
      × (stale_sql stale_after now r ≡ is_stale stale_after now r)
unfolding stale_sql is_stale
sql-eq-python stale_after now r = ground arith

-- A recorded heartbeat is a listing's last activity unless a later time is already stored, and the
-- listing is then stale only if it is missing from its source.
pub heartbeat_freshens :
    (stale_after now : ℕ) (r : Listing)
    → r.missing_from_source_since ≡ none
    → (now ≤ last_activity_at (record r { last_seen_at = some now }))
      × (is_stale stale_after now (record r { last_seen_at = some now }) ≡ false)
unfolding is_stale
heartbeat_freshens stale_after now r here = ground arith

-- Without a new activity a listing that is stale stays stale.
pub stale_later :
    (stale_after now later : ℕ) (r : Listing)
    → now ≤ later
    → is_stale stale_after now r ≡ true
    → is_stale stale_after later r ≡ true
unfolding is_stale
stale_later stale_after now later r le old = ground arith
