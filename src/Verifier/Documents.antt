-- ===== src/Verifier/Documents.antt =====
-- app/core/verifier_info.py: the two documents of the verification service. A parser returns `none`
-- where it raises: its caller handles every exception alike.
use Prim.Native.String
use agent_discovery_board.Prelude.{
  ◌>>=◌, String, Option, none, some, Bool, ◌||◌, not, ◌==◌, if◌then◌else◌, Json, null, str, obj,
  arr, Items, nil, cons, Fields, end, field, get_field, get_or, JsonLibrary, is_true, as_object,
  iterate, ends_with,
}
use agent_discovery_board.Endpoint.{strip_end}

abbrev is_null : Json → Bool
is_null null = Bool.true
is_null _ = Bool.false

-- next((x for x in items if test(x)), None): `test` reads the fields of an object, and an item of
-- another type raises. The outer `none` is the exception.
unfoldable pub next_object : (Fields → Bool) → Items → Option (Option Fields)
next_object test nil = some none
next_object test (cons (obj fs) items) =
    let rest = next_object test items in if test fs then some (some fs) else rest
next_object test (cons _ items) = none

-- [o["network"] for o in options if o.get("network")]
unfoldable pub networks_of : JsonLibrary → Items → Option Items
unfolding is_true get_field
networks_of lib nil = some nil
networks_of lib (cons (obj fs) items) = do
  rest ← networks_of lib items
  let network = get_or "network" null fs
  some (if is_true lib network then cons network rest else rest)
networks_of lib (cons _ items) = none

abbrev pub is_verify_resource : JsonLibrary → Fields → Bool
is_verify_resource lib r =
    ends_with (strip_end b'/' (lib.show (get_or "url" (str "") r))) "/verify/schema"

abbrev protocol_of : JsonLibrary → Json → String
protocol_of lib version =
    if is_null version then "x402" else String.◌++◌ "x402 v" (lib.show version)

abbrev has_networks : Items → Bool
has_networks nil = Bool.false
has_networks (cons x xs) = Bool.true

-- The /verify/schema resource of the x402 document.
unfoldable pub parse_payment : JsonLibrary → Json → Option Json
unfolding next_object networks_of iterate is_true get_field strip_end ends_with
parse_payment lib document = do
  doc ← as_object document
  items ← iterate (get_or "resources" (arr nil) doc)
  found ← next_object (is_verify_resource lib) items
  resource ← found
  options ← iterate (get_or "paymentOptions" (arr nil) resource)
  networks ← networks_of lib options
  let price = get_or "price" null resource
  url ← get_field "url" resource
  if not (is_true lib price) || not (has_networks networks)
      then none
      else some (
          obj (
            field "endpoint" url (
              field "method" (get_or "method" (str "POST") resource) (
                field "price" price (
                  field "currency" (get_or "currency" null resource) (
                    field "networks" (arr networks) (
                      field "protocol" (str (protocol_of lib (get_or "x402Version" null doc)))
                        end)))))))

-- x or y
abbrev or_value : JsonLibrary → Json → Json → Json
or_value lib x y = if is_true lib x then x else y

abbrev is_mcp_extension : JsonLibrary → Fields → Bool
is_mcp_extension lib e = ends_with (lib.show (get_or "uri" (str "") e)) "mcp:v1"

abbrev is_verify_tool : Fields → Bool
is_verify_tool t = elim (get_or "toolName" null t) [ str s ↦ s == "verify_schema" | _ ↦ Bool.false ]

-- (tool or {}).get("access")
abbrev access_of_tool : Option Fields → Json
access_of_tool none = null
access_of_tool (some t) = get_or "access" null t

-- The free allowance of the verify_schema tool in the agent card.
unfoldable pub parse_free_path : JsonLibrary → Json → Option Json
unfolding next_object iterate is_true get_field ends_with
parse_free_path lib document = do
  card ← as_object document
  capabilities ← as_object (get_or "capabilities" (obj end) card)
  items ← iterate (get_or "extensions" (arr nil) capabilities)
  found ← next_object (is_mcp_extension lib) items
  extension ← found
  params ← as_object (get_or "params" (obj end) extension)
  tools ← iterate (get_or "tools" (arr nil) params)
  tool ← next_object is_verify_tool tools
  access ←
      as_object
        (or_value lib (access_of_tool tool) (or_value lib (get_or "access" null params) (obj end)))
  let free_trial = get_or "freeTrial" null access
  let url = get_or "url" null params
  if not (is_true lib url) || not (is_true lib free_trial) then none else (do
    free ← as_object free_trial
    some (
        obj (
          field "transport" (get_or "transport" (str "streamable-http") params) (
            field "url" url (
              field "tool" (str "verify_schema") (
                field "calls_per_client_per_day" (get_or "callsPerClientPerDay" null free) (
                  field "max_input_bytes" (get_or "maxInputBytes" null free)
                    (field "after_free_trial" (get_or "afterFreeTrial" null access) end))))))))
