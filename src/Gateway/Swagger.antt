-- ===== src/Gateway/Swagger.antt =====
-- panda-grpc-gw/main.go: the descriptions of the services that the gateway hands out, the proxy to
-- the cluster, and the CORS handler. Packages path and net/http are written out as far as they are used.
pub mod Dots
pub mod Inside
use panda_go.Prelude.{
  ℕ, Bool, true, false, ◌||◌, none, some, Option, List, [], ◌∷◌, ◌++◌, map, nat_beq, if◌then◌else◌,
  ◌==◌, nat_eq, list_eq, list_beq,
}
use panda_go.Go.Text.{GoString, lit, is_empty, has_suffix, split}
use panda_go.Go.Text.Split.{join}
use panda_go.Go.Error.{Error, MaybeError, Result, ok, err}
use panda_go.Gateway.{strip_prefix}

abbrev pub dot : GoString
dot = b'.' ∷ []

abbrev pub dots : GoString
dots = b'.' ∷ b'.' ∷ []

-- What ".." does to the elements so far of a path that is not rooted
abbrev pub drop_element : List GoString → List GoString
drop_element [] = dots ∷ []
drop_element (p ∷ []) = if p == dots then p ∷ dots ∷ [] else []
drop_element (p ∷ q ∷ ps) = p ∷ drop_element (q ∷ ps)

-- path.Clean on the elements of a path that is not rooted
unfoldable pub clean_elements : List GoString → List GoString → List GoString
clean_elements [] done = done
clean_elements (p ∷ ps) done =
    let skipped = clean_elements ps done in
    let dropped = clean_elements ps (drop_element done) in
    let kept = clean_elements ps (done ++ p ∷ []) in
    if is_empty p || (p == dot) then skipped else if p == dots then dropped else kept

abbrev pub or_dot : List GoString → GoString
or_dot [] = dot
or_dot (p ∷ ps) = join b'/' (p ∷ ps)

-- path.Join of two elements of which the first is neither empty nor rooted
unfoldable pub join_path : GoString → GoString → GoString
join_path a [] = or_dot (clean_elements (split a b'/') [])
join_path a (c ∷ b) = or_dot (clean_elements (split (a ++ b'/' ∷ c ∷ b) b'/') [])

-- strings.TrimPrefix
abbrev pub or_whole : GoString → Option GoString → GoString
or_whole s none = s
or_whole s (some rest) = rest

abbrev pub has_element : GoString → List GoString → Bool
has_element p [] = false
has_element p (q ∷ ps) = if q == p then true else has_element p ps

abbrev pub slash_of : ℕ → ℕ
slash_of c = if nat_beq c b'\\' then b'/' else c

-- The test by which http.ServeFile refuses a path: both slashes separate.
unfoldable pub contains_dot_dot : GoString → Bool
unfolding split
contains_dot_dot s = has_element dots (split (map slash_of s) b'/')

pub data Served : Type 0 where
  not_found : Served
  refused : Served
  serves_file : GoString → Served

-- http.ServeFile, for a request of `url_path` that does not end in "/index.html"
unfoldable pub serve_file : GoString → GoString → Served
serve_file url_path name = if contains_dot_dot url_path then refused else serves_file name

-- serveSwaggerFile, on the path of the request
unfoldable pub serve_swagger_file : GoString → Served
unfolding has_suffix strip_prefix
serve_swagger_file url_path =
    if has_suffix url_path (lit "swagger.json")
    then serve_file url_path
        (join_path (lit "./proto/") (or_whole url_path (strip_prefix (lit "/swagger/") url_path)))
    else not_found

-- A request that runs through the handlers of gin: its headers, and whether it was ended at once.
pub record Cors : Type 0 where
  pub headers : List (GoString × GoString)
  pub aborted : Option ℕ

-- corsMiddleware
unfoldable pub cors_middleware : GoString → Cors
cors_middleware method = record {
  headers =
      (lit "Access-Control-Allow-Origin", lit "*")
      ∷ (lit "Access-Control-Allow-Methods", lit "GET, POST, OPTIONS")
      ∷ (
        lit "Access-Control-Allow-Headers",
        lit "Origin, Content-Type, Content-Length, Accept-Encoding, X-CSRF-Token, Authorization",
      )
      ∷ (lit "Access-Control-Allow-Credentials", lit "true")
      ∷ [];
  aborted = if method == lit "OPTIONS" then some 200 else none;
}

-- A request as serveK8sApi passes it on: the host and the scheme that it gets, and the transport.
pub data Proxied (T : Type 0) : Type 0 where
  fails : ℕ → GoString → Proxied T
  proxies : GoString → GoString → T → Proxied T

-- serveK8sApi, with the host of the configuration; the error of rest.TransportFor is not read.
unfoldable pub serve_k8s_api :
    {T : Type 0} → Result GoString → (GoString → T × MaybeError) → Proxied T
serve_k8s_api (err e) transport_for =
    fails 500 (lit "Internal Server Error: serveK8sApi rest.InClusterConfig failed")
serve_k8s_api (ok host) transport_for = proxies host (lit "http") (transport_for host).0
