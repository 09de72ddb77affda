-- ===== src/Netbind.antt =====
-- desktop/netbind: which interface carries the default route (adapter.go, route.go, route_table.go,
-- route_netstat.go), and the dialer controller that pins sockets to it (Netbind/Binder).
pub mod Adapters
pub mod Routes
pub mod Metrics
pub mod Binder
pub mod Tests
use skipi_core.Base.{
  ℕ, zero, suc, negsuc, ◌+◌, ◌-◌, ◌*◌, ◌/◌, ◌%◌, Bool, true, false, not, ◌||◌, ◌&&◌, Option, none,
  some, List, [], ◌∷◌, ◌==◌, if◌then◌else◌, ltb, leb, length, take, drop, update, Text, codes,
  str_eq, is_empty, split, fields, has_prefix, index_byte, is_some, is_digit, atoi, ℤ, pos, ltz,
}

-- `Adapter`
pub record Adapter : Type 0 where
  pub index : ℕ
  pub name : Text
  pub up : Bool
  pub has_gateway : Bool
  pub loopback : Bool
  pub metric : ℕ

-- Whether the loop of `DefaultAdapter` looks at an adapter; `equal_fold` is `strings.EqualFold`.
unfoldable pub is_candidate : (Text → Text → Bool) → Text → Adapter → Bool
is_candidate equal_fold exclude a =
    (a.up && a.has_gateway && not a.loopback)
    && not (not (is_empty exclude) && equal_fold a.name exclude)

-- Whether an adapter takes the place of the best so far.
unfoldable pub improves : Option Adapter → Adapter → Bool
improves none a = true
improves (some b) a = ltb a.metric b.metric || a.metric == b.metric && ltb a.index b.index

-- The loop of `DefaultAdapter`.
unfoldable pub best_adapter :
    (Text → Text → Bool) → Text → Option Adapter → List Adapter → Option Adapter
unfolding is_candidate improves
best_adapter equal_fold exclude best [] = best
best_adapter equal_fold exclude best (a ∷ rest) =
    best_adapter equal_fold exclude
      (if is_candidate equal_fold exclude a && improves best a then some a else best) rest

index_of : Option Adapter → Option ℕ
index_of none = none
index_of (some a) = some a.index

-- `DefaultAdapter`
unfoldable pub default_adapter : (Text → Text → Bool) → List Adapter → Text → Option ℕ
unfolding best_adapter index_of
default_adapter equal_fold adapters exclude =
    index_of (best_adapter equal_fold exclude none adapters)

hex_value : ℕ → Option ℕ
unfolding is_digit
hex_value c =
    if is_digit c
    then some (c - b'0')
    else if leb b'a' c && leb c b'f'
    then some (c - b'a' + 10)
    else if leb b'A' c && leb c b'F'
    then some (c - b'A' + 10)
    else none

hex_from : ℕ → Text → Option ℕ
unfolding hex_value
hex_from acc [] = some acc
hex_from acc (c ∷ s) = elim (hex_value c) [ none ↦ none | some d ↦ hex_from (acc * 16 + d) s ]

-- `strconv.ParseUint(s, 16, 32)`
unfoldable pub parse_hex32 : Text → Option ℕ
unfolding hex_from
parse_hex32 [] = none
parse_hex32 (c ∷ s) = elim (hex_from 0 (c ∷ s)) [
  | none ↦ none
  | some n ↦ (if ltb n 4294967296 then some n else none)
]

-- Whether the bits `routeUp` and `routeGateway` are both set.
up_with_gateway : Option ℕ → Bool
up_with_gateway none = false
up_with_gateway (some flags) = flags % 2 == 1 && (flags / 2) % 2 == 1

with_metric : Text → Option ℤ → Option (Text × ℤ)
with_metric name none = none
with_metric name (some metric) = some (name, metric)

-- The header, the excluded interface, and what is no default route.
passes_over : Text → Text → Text → Text → Bool
unfolding str_eq
passes_over exclude name dest mask =
    str_eq name (codes "Iface")
    || (str_eq name exclude || not (str_eq dest (codes "00000000")))
    || not (str_eq mask (codes "00000000"))

-- What a line of the table says: the interface and the metric of a default route that can be used.
unfoldable pub route_of : Text → List Text → Option (Text × ℤ)
unfolding passes_over up_with_gateway parse_hex32 with_metric atoi
route_of exclude (name ∷ dest ∷ gateway ∷ flags ∷ refs ∷ use_ ∷ metric ∷ mask ∷ more) =
    if passes_over exclude name dest mask
    then none
    else if up_with_gateway (parse_hex32 flags)
    then with_metric name (atoi metric)
    else none
route_of exclude _ = none

pub record Best : Type 0 where
  pub name : Text
  pub metric : ℤ

-- A usable route that is taken is the best from then on.
take_route : Best → Option (Text × ℤ) → Best
take_route b none = b
take_route b (some (name, metric)) =
    if ltz b.metric (pos 0) || ltz metric b.metric
    then record { name = name; metric = metric }
    else b

-- The loop over the lines.
unfoldable pub best_route : Text → Best → List Text → Best
unfolding take_route route_of fields
best_route exclude b [] = b
best_route exclude b (line ∷ rest) =
    best_route exclude (take_route b (route_of exclude (fields line))) rest

-- `DefaultInterface`
unfoldable pub default_interface : Text → Text → Option Text
unfolding best_route split
default_interface table exclude =
    let b =
      best_route exclude (record { name = []; metric = negsuc 0 }) (split (codes "\n") table) in
    if is_empty b.name then none else some b.name

-- `binary.LittleEndian`
unfoldable pub le : List ℕ → ℕ
le [] = 0
le (b ∷ bs) = b + 256 * le bs

unfoldable pub field : ℕ → ℕ → List ℕ → ℕ
unfolding le
field at_ size row = le (take size (drop at_ row))

-- A row is an IPv4 default route.
is_default_row : List ℕ → Bool
unfolding field
is_default_row row = field 12 2 row == 2 && field 40 1 row == 0

lower : Option ℕ → ℕ → Bool
lower none metric = true
lower (some current) metric = ltb metric current

-- The map after a row.
unfoldable pub note_row : List ℕ → (ℕ → Option ℕ) → ℕ → Option ℕ
unfolding is_default_row field lower
note_row row metrics =
    let index = field 8 4 row in
    let metric = field 84 4 row in
    if is_default_row row && lower (metrics index) metric
    then update metrics index (some metric)
    else metrics

-- The loop of `defaultRouteMetrics` from the row `i` on, with `k` rows left.
unfoldable pub metrics_from : List ℕ → ℕ → ℕ → (ℕ → Option ℕ) → ℕ → Option ℕ
unfolding note_row
metrics_from table i zero metrics = metrics
metrics_from table i (suc k) metrics =
    let start = 8 + i * 104 in
    elim (ltb (length table) (start + 104)) [
      | true ↦ metrics
      | false ↦ metrics_from table (suc i) k (note_row (take 104 (drop start table)) metrics)
    ]

-- `defaultRouteMetrics`
unfoldable pub default_route_metrics : List ℕ → ℕ → Option ℕ
unfolding metrics_from field
default_route_metrics table =
    if ltb (length table) 8
    then (λ index. none)
    else metrics_from table 0 (field 0 4 table) (λ index. none)

unfoldable pub contains_byte : ℕ → Text → Bool
unfolding index_byte
contains_byte c s = is_some (index_byte c s)

-- The text in front of the first `%`.
before_percent : Text → Text
before_percent [] = []
before_percent (c ∷ s) = if c == b'%' then [] else c ∷ before_percent s

-- The interface of one line of `netstat`; `is_ip` is whether `netip.ParseAddr` reads a text.
unfoldable pub netstat_route : (Text → Bool) → Text → List Text → Option Text
unfolding str_eq has_prefix contains_byte before_percent
netstat_route is_ip exclude (kind ∷ gateway ∷ flags ∷ netif ∷ more) =
    if not (str_eq kind (codes "default"))
    then none
    else if str_eq netif exclude
        || (has_prefix (codes "utun") netif || has_prefix (codes "lo") netif)
    then none
    else if not (contains_byte b'U' flags && contains_byte b'G' flags)
    then none
    else if is_ip (before_percent gateway)
    then some netif
    else none
netstat_route is_ip exclude _ = none

unfoldable pub first_route : (Text → Bool) → Text → List Text → Option Text
unfolding netstat_route fields
first_route is_ip exclude [] = none
first_route is_ip exclude (line ∷ rest) = elim (netstat_route is_ip exclude (fields line)) [
  | some netif ↦ some netif
  | none ↦ first_route is_ip exclude rest
]

-- `DefaultInterfaceFromNetstat`
unfoldable pub default_interface_from_netstat : (Text → Bool) → Text → Text → Option Text
unfolding first_route split
default_interface_from_netstat is_ip table exclude =
    first_route is_ip exclude (split (codes "\n") table)
