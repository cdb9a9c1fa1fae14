-- ===== src/Tests/Verifier.antt =====
-- The verifier's facts and the badge cache at concrete documents.
use agent_discovery_board.Prelude.{
  ◌≤◌, ◌≡◌, ◌↔◌, refl, true, none, some, List, [], ◌∷◌, arith, Json, null, str, int, pos, arr, obj,
  nil, cons, field, end, JsonLibrary, lookup, get_field, is_true, iterate, ends_with,
}
use agent_discovery_board.Endpoint.{strip_end}
use agent_discovery_board.Verifier.{
  Attempt, Waits, fresh, live, parse_payment, parse_free_path, next_object, networks_of, start,
  start_if_due, refresh, snapshot, succeeded, payment_of, free_path_of,
}
use agent_discovery_board.Verifier.History.{after, known, sections_known, status_live_iff}
use agent_discovery_board.Verifier.Threads.{
  System, Step, Reach, ask_all, one_refresh, backoff_respected,
}
use agent_discovery_board.ScoreClient.{Lookup, count_paid, paid_once}

abbrev json : JsonLibrary
json = record { show = λ j. elim j [ str s ↦ s | _ ↦ "2" ]; float_is_true = λ x. true }

abbrev x402 : Json
x402 = obj (
    field "x402Version" (int (pos 2)) (
      field "resources"
        (arr (
          cons
            (obj (
              field "url" (str "https://v.example/verify/schema/") (
                field "price" (str "0.01") (
                  field "paymentOptions"
                    (arr (cons (obj (field "network" (str "eip155:8453") end)) nil)) end))))
            nil))
        end))

abbrev card : Json
card = obj (
    field "capabilities"
      (obj (
        field "extensions"
          (arr (
            cons
              (obj (
                field "uri" (str "urn:mcp:v1") (
                  field "params"
                    (obj (
                      field "url" (str "https://v.example/mcp") (
                        field "access"
                          (obj (
                            field "freeTrial" (obj (field "callsPerClientPerDay" (int (pos 5)) end))
                              end))
                          end)))
                    end)))
              nil))
          end))
      end)

abbrev read : Attempt
read = record {
  x402 = some x402;
  agent_card = some card;
  paid_at = "t1";
  free_at = "t2";
  ended = 1000;
}

abbrev down : Attempt
down = record { x402 = none; agent_card = none; paid_at = "t3"; free_at = "t4"; ended = 2000 }

read_succeeds : succeeded json read ≡ true
unfolding parse_payment parse_free_path next_object networks_of iterate is_true get_field ends_with
    strip_end
read_succeeds = refl

sections_known_example :
    (lookup "payment" (after json none (down ∷ read ∷ [])).sections
      ≡ known json none (payment_of json) (λ x. x.paid_at) "payment" down (read ∷ []))
    × (lookup "free_path" (after json none (down ∷ read ∷ [])).sections
        ≡ known json none (free_path_of json) (λ x. x.free_at) "free_path" down (read ∷ []))
sections_known_example = sections_known json none down (read ∷ [])

status_live_iff_example :
    ((snapshot (after json none (read ∷ down ∷ []))).status ≡ live) ↔ (succeeded json read ≡ true)
status_live_iff_example = status_live_iff json none read (down ∷ [])

abbrev waits : Waits
waits = record { ttl = 900; backoff = 60 }

abbrev asked : System
asked = record { verifier = record fresh { refreshing = true }; threads = 1 }

one_refresh_example : (asked.threads ≤ 1) × (asked.threads ≡ 1)
unfolding start
one_refresh_example =
    one_refresh {lib = json} {w = waits} {s = asked}
      (Reach.next Reach.imported (Step.start_up true))

backoff_respected_example :
    (ask_all waits true (2001 ∷ 2059 ∷ []) (refresh json none down fresh).0 ≡ 0)
    × ((start_if_due waits true 2060 (refresh json none down fresh).0).1 ≡ true)
backoff_respected_example =
    backoff_respected json waits none down fresh (2001 ∷ 2059 ∷ []) 2060
      (omega arith, (omega arith, tt)) (omega arith)

abbrev lookups : List Lookup
lookups =
    record { agent = "a"; now = 10; fetched = some null }
    ∷ record { agent = "b"; now = 20; fetched = none }
    ∷ record { agent = "a"; now = 30; fetched = none }
    ∷ []

-- An entry that is fresh at the first lookup and expired at the last.
paid_once_example : count_paid 25 "a" (("a", (0, none)) ∷ []) lookups ≤ 1
unfolding lookup
paid_once_example =
    paid_once 25 "a" 10 (("a", (0, none)) ∷ []) lookups
      ((omega arith, omega arith), ((omega arith, omega arith), ((omega arith, omega arith), tt)))
