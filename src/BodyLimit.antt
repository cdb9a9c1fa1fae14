-- ===== src/BodyLimit.antt =====
-- app/core/limits.py: `MaxBodySizeMiddleware`. The application below it is what it receives: the
-- messages up to the first that raises. `read_int` is `int` on a header's bytes.
use agent_discovery_board.Prelude.{
  ℕ, ◌+◌, ◌≤◌, String, ◌≡◌, ◌↔◌, refl, Bool, true, false, not, Option, none, some, List, [], ◌∷◌,
  arith, ◌==◌, ltb, if◌then◌else◌, or_else, length, lookup, ℤ, pos, negsuc,
}

-- An ASGI message, with the body of an http.request.
pub data Message : Type 0 where
  request : List ℕ → Message
  other : Message

pub record Scope : Type 0 where
  pub is_http : Bool
  pub path : String
  pub headers : List (String × String)

-- dict(headers).get(name): the last of the headers with a name counts.
unfoldable pub last_header : String → List (String × String) → Option String
last_header name [] = none
last_header name ((k, v) ∷ hs) =
    let rest = last_header name hs in
    elim rest [ none ↦ if k == name then some v else none | some w ↦ some w ]

pub record Middleware : Type 0 where
  pub max_bytes : ℕ
  pub path_limits : List (String × ℕ)

unfoldable pub limit_for : Middleware → String → ℕ
unfolding lookup
limit_for m path = or_else (lookup path m.path_limits) m.max_bytes

abbrev exceeds : Option ℤ → ℕ → Bool
exceeds none limit = false
exceeds (some (pos n)) limit = ltb limit n
exceeds (some (negsuc n)) limit = false

abbrev declared : (String → Option ℤ) → Option String → Option ℤ
declared read_int none = none
declared read_int (some text) = read_int text

-- What the declared length says: more than the limit.
unfoldable pub too_big : (String → Option ℤ) → Middleware → Scope → Bool
unfolding limit_for last_header
too_big read_int m scope =
    exceeds (declared read_int (last_header "content-length" scope.headers))
      (limit_for m scope.path)

-- `limited_receive`, called for each message: what the application gets, and whether a call raises.
unfoldable pub deliver : ℕ → ℕ → List Message → List Message × Bool
deliver limit total [] = ([], false)
deliver limit total (request body ∷ messages) =
    let total' = total + length body in
    let rest = deliver limit total' messages in
    if ltb limit total' then ([], true) else (request body ∷ rest.0, rest.1)
deliver limit total (other ∷ messages) =
    let rest = deliver limit total messages in (other ∷ rest.0, rest.1)

-- A 413 response, or the messages that the application gets.
pub data Outcome : Type 0 where
  refused : Outcome
  passed : List Message → Bool → Outcome

unfoldable pub call : (String → Option ℤ) → Middleware → Scope → List Message → Outcome
unfolding too_big deliver
call read_int m scope messages =
    if not scope.is_http
    then passed messages false
    else if too_big read_int m scope
    then refused
    else (let (received, raised) = deliver (limit_for m scope.path) 0 messages in
        passed received raised)

abbrev pub size : List Message → ℕ
size [] = 0
size (request body ∷ messages) = length body + size messages
size (other ∷ messages) = size messages

deliver-size :
    (limit total : ℕ) (messages : List Message)
    → total ≤ limit
    → total + size (deliver limit total messages).0 ≤ limit
unfolding deliver
deliver-size limit total [] h = omega arith
deliver-size limit total (other ∷ messages) h = deliver-size limit total messages h
deliver-size limit total (request body ∷ messages) h =
    ground (arith, deliver-size limit (total + length body) messages)

deliver-whole :
    (limit total : ℕ) (messages : List Message)
    → total + size messages ≤ limit
    → deliver limit total messages ≡ (messages, false)
unfolding deliver
deliver-whole limit total [] h = refl
deliver-whole limit total (other ∷ messages) h =
    let r = deliver-whole limit total messages h in ground arith
deliver-whole limit total (request body ∷ messages) h =
    let r = deliver-whole limit (total + length body) messages (omega arith) in ground arith

deliver-raises :
    (limit total : ℕ) (messages : List Message)
    → total ≤ limit
    → (deliver limit total messages).1 ≡ false
    → total + size messages ≤ limit
unfolding deliver
deliver-raises limit total [] h e = omega arith
deliver-raises limit total (other ∷ messages) h e = deliver-raises limit total messages h e
deliver-raises limit total (request body ∷ messages) h e =
    ground (arith, deliver-raises limit (total + length body) messages)

-- What the application below gets of an outcome.
abbrev received_of : Outcome → List Message
received_of refused = []
received_of (passed received raised) = received

-- Of any HTTP request: the application below gets at most as many bytes of a body as the limit of the
-- path; it gets the whole body, with no exception, exactly if the declared length, where there is one,
-- is within the limit and the body is; and the request is refused before the application gets anything
-- exactly if the declared length exceeds the limit.
pub call_bounded :
    (read_int : String → Option ℤ) (m : Middleware) (scope : Scope) (messages : List Message)
    → scope.is_http ≡ true
    → (size (received_of (call read_int m scope messages)) ≤ limit_for m scope.path)
      × ((call read_int m scope messages ≡ passed messages false)
          ↔ ((too_big read_int m scope ≡ false) × (size messages ≤ limit_for m scope.path)))
      × ((call read_int m scope messages ≡ refused) ↔ (too_big read_int m scope ≡ true))
unfolding call
call_bounded read_int m scope messages http =
    let limit = limit_for m scope.path in
    let within = deliver-size limit 0 messages (omega arith) in
    ground (arith, deliver-whole limit 0 messages, deliver-raises limit 0 messages)
