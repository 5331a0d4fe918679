-- ===== src/Routing.antt =====
-- cmd/proxy/data/config.go and cmd/config/config.go: the criteria of a route. A map is the list of
-- its entries in the order of its iteration.
pub mod Fits
pub mod Criteria
pub mod Maps
use lhotse_agent.Prelude.{
  ℕ, Bool, true, false, not, ◌&&◌, ◌||◌, List, [], ◌∷◌, ◌==◌, if◌then◌else◌, Str, str_eq, is_empty,
  has_prefix, to_lower,
}
use lhotse_agent.Prelude.Int.{ℤ, pos, negsuc}
use lhotse_agent.HttpRequest.{Request, get}

-- regexp.MatchString with its error taken as no match; the canonical form of a header's key; and
-- the value of a parameter in the query of the request's URL.
pub record Outside : Type 0 where
  pub match_regex : Str → Str → Bool
  pub canonical : Str → Str
  pub query : Request → Str → Str

pub record StringMatch : Type 0 where
  pub exact : Str
  pub prefix : Str
  pub regex : Str

-- Empty
pub match_empty : StringMatch → Bool
match_empty m = not (not (is_empty m.prefix) || not (is_empty m.exact) || not (is_empty m.regex))

pub record HttpMatchRequest : Type 0 where
  pub uri : StringMatch
  pub scheme : StringMatch
  pub method : StringMatch
  pub authority : StringMatch
  pub headers : List (Str × StringMatch)
  pub port : ℤ
  pub query_params : List (Str × StringMatch)
  pub ignore_uri_case : Bool
  pub without_headers : List (Str × StringMatch)

abbrev pub folded : Bool → Str → Str
folded ignore_case s = if ignore_case then to_lower s else s

pub value_fits : Outside → StringMatch → Str → Bool → Bool
value_fits o m v ignore_case =
    if not (is_empty m.exact)
    then str_eq v (folded ignore_case m.exact)
    else if not (is_empty m.prefix)
    then has_prefix v (folded ignore_case m.prefix)
    else if not (is_empty m.regex)
    then o.match_regex m.regex v
    else false

-- checkMatch: isMatched and needMatch.
pub check_match : Outside → StringMatch → Str → Bool → Bool × Bool
unfolding match_empty value_fits
check_match o m v ignore_case =
    if not (match_empty m)
    then (value_fits o m (folded ignore_case v) ignore_case, true)
    else (false, false)

-- A criterion is not set, or it is met.
pub passes : Bool × Bool → Bool
passes checked = not (checked.1 && not checked.0)

-- The loop over the headers; `matched` is headerMatched before it.
pub headers_loop : Outside → Request → Bool → List (Str × StringMatch) → Bool
unfolding check_match
headers_loop o r matched [] = matched
headers_loop o r matched ((header, m) ∷ ms) =
    let checked = check_match o m (get r.header (o.canonical header)) false in
    let rest = headers_loop o r checked.0 ms in if checked.1 && not checked.0 then false else rest

-- The loop over the headers that must not match: headerWithOutMatched behind it.
pub without_loop : Outside → Request → List (Str × StringMatch) → Bool
unfolding check_match
without_loop o r [] = false
without_loop o r ((header, m) ∷ ms) =
    let checked = check_match o m (get r.header (o.canonical header)) false in
    let rest = without_loop o r ms in if checked.1 && checked.0 then true else rest

-- The loop over the query's parameters: paramMatched behind it.
pub params_loop : Outside → Request → List (Str × StringMatch) → Bool
unfolding check_match
params_loop o r [] = true
params_loop o r ((name, m) ∷ ms) =
    let checked = check_match o m (o.query r name) false in
    let rest = params_loop o r ms in if checked.1 && checked.0 then false else rest

int_eq : ℤ → ℤ → Bool
int_eq (pos a) (pos b) = a == b
int_eq (pos a) (negsuc b) = false
int_eq (negsuc a) (pos b) = false
int_eq (negsuc a) (negsuc b) = a == b

pub port_fits : ℤ → ℤ → Bool
unfolding int_eq
port_fits wanted port = int_eq wanted (pos 0) || int_eq wanted port

-- The body of the loop over httpRule.Match in Match: whether it gets to the action.
pub request_matches : Outside → HttpMatchRequest → Request → Bool
unfolding passes headers_loop without_loop params_loop port_fits
request_matches o m r =
    passes (check_match o m.method r.method false)
    && passes (check_match o m.authority r.authority false)
    && passes (check_match o m.scheme r.url.scheme false)
    && passes (check_match o m.uri r.request_uri m.ignore_uri_case)
    && headers_loop o r true m.headers
    && not (without_loop o r m.without_headers)
    && params_loop o r m.query_params
    && port_fits m.port r.port
