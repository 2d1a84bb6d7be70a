-- ===== src/Proxy.antt =====
-- internal/proxy/client.go and internal/proxy/cache.go: a client of the module proxy, with a cache.
-- The proxy answers each request by a function of its URL and of the header that disables fetching.
pub mod Cached
use pkgsite.Prelude.Int.{ℤ, pos, negsuc}
use pkgsite.Prelude.{
  contains_text, ℕ, Bool, true, false, not, ◌||◌, ◌&&◌, List, [], ◌∷◌, ◌++◌, Text, Option, none,
  some, codes, text_eq, leb, ltb, ◌==◌, if◌then◌else◌,
}
use pkgsite.Derrors.{
  Error, root, wrap, opaque, bad_module, invalid_argument, not_found, not_fetched, proxy_error,
  proxy_timed_out,
}
use pkgsite.Paths.{Modver}
use pkgsite.Version
use pkgsite.Worker.Fetch.Env.{Answer, ok, err}

-- An HTTP response: its status, what reading its body gives, and its content length.
pub record Response : Type 0 where
  pub status : ℕ
  pub body : Answer Text
  pub content_length : ℤ

-- `get` and `head` are what ctxhttp answers, `is_done` whether the context is done when the request
-- ends. The others are `module.EscapePath`, `module.EscapeVersion`, the parsers of JSON and of zip
-- files, of which only the text stands for the value, and the lines of a body.
pub record Server : Type 0 where
  pub get : Text → Bool → Answer Response
  pub head : Text → Answer Response
  pub is_done : Text → Bool
  pub escape_path : Text → Option Text
  pub escape_version : Text → Option Text
  pub unmarshal : Text → Answer Text
  pub read_zip : Text → Answer Text
  pub scan_lines : Text → Answer (List Text)

-- `cache`: its maps with the keys in the order in which they were put, and the one zip file.
pub record Cache : Type 0 where
  pub info_cache : List (Modver × Text)
  pub mod_cache : List (Modver × Text)
  pub zip_key : Modver
  pub zip_reader : Option Text

pub record Client : Type 0 where
  pub url : Text
  pub disable_fetch : Bool
  pub cache : Option Cache

abbrev pub key : Text → Text → Modver
key path version = record { path = path; version = version }

unfoldable pub modver_eq : Modver → Modver → Bool
unfolding text_eq
modver_eq a b = text_eq a.path b.path && text_eq a.version b.version

abbrev pub empty_cache : Cache
empty_cache = record {
  info_cache = [];
  mod_cache = [];
  zip_key = record { path = []; version = [] };
  zip_reader = none;
}

unfoldable pub lookup_modver : Modver → List (Modver × Text) → Option Text
unfolding modver_eq
lookup_modver k [] = none
lookup_modver k ((j, v) ∷ m) =
    let rest = lookup_modver k m in if modver_eq j k then some v else rest

unfoldable pub get_info : Option Cache → Modver → Option Text
unfolding lookup_modver
get_info none k = none
get_info (some c) k = lookup_modver k c.info_cache

unfoldable pub put_info : Option Cache → Modver → Text → Option Cache
put_info none k v = none
put_info (some c) k v = some (record c { info_cache = (k, v) ∷ c.info_cache })

unfoldable pub get_mod : Option Cache → Modver → Option Text
unfolding lookup_modver
get_mod none k = none
get_mod (some c) k = lookup_modver k c.mod_cache

unfoldable pub put_mod : Option Cache → Modver → Text → Option Cache
put_mod none k v = none
put_mod (some c) k v = some (record c { mod_cache = (k, v) ∷ c.mod_cache })

unfoldable pub get_zip : Option Cache → Modver → Option Text
unfolding modver_eq
get_zip none k = none
get_zip (some c) k = if modver_eq c.zip_key k then c.zip_reader else none

unfoldable pub put_zip : Option Cache → Modver → Text → Option Cache
put_zip none k v = none
put_zip (some c) k v = some (record c { zip_key = k; zip_reader = some v })

abbrev pub with_cache : Client → Client
with_cache c = record c { cache = some empty_cache }

abbrev pub with_fetch_disabled : Client → Client
with_fetch_disabled c = record c { disable_fetch = true }

unfoldable pub response_error : Response → Bool → Option Error
unfolding contains_text
response_error r fetch_disabled =
    if leb 200 r.status && ltb r.status 300
    then none
    else if leb 500 r.status
    then some (root proxy_error)
    else if not ((r.status == 404) || (r.status == 410))
    then some Error.other
    else elim r.body [
      | err e ↦ some (opaque e)
      | ok d ↦
          if contains_text d (codes "fetch timed out")
          then some (wrap (root proxy_timed_out))
          else if fetch_disabled
          then some (wrap (root not_fetched))
          else some (wrap (root not_found))
    ]

-- A suffix of a request.
pub data Suffix : Type 0 where
  info_suffix mod_suffix zip_suffix : Suffix

abbrev pub suffix_text : Suffix → Text
suffix_text info_suffix = codes "info"
suffix_text mod_suffix = codes "mod"
suffix_text zip_suffix = codes "zip"

abbrev pub is_info : Suffix → Bool
is_info info_suffix = true
is_info mod_suffix = false
is_info zip_suffix = false

abbrev pub get_cached : Suffix → Option Cache → Modver → Option Text
get_cached info_suffix c k = get_info c k
get_cached mod_suffix c k = get_mod c k
get_cached zip_suffix c k = get_zip c k

abbrev pub put_cached : Suffix → Option Cache → Modver → Text → Option Cache
put_cached info_suffix c k v = put_info c k v
put_cached mod_suffix c k v = put_mod c k v
put_cached zip_suffix c k v = put_zip c k v

-- The answer with its error wrapped.
abbrev pub wrapped : {A : Type 0} → Answer A → Answer A
wrapped (err e) = err (wrap e)
wrapped (ok a) = ok a

module _ (server : Server) where
  unfoldable pub escaped_url : Client → Text → Text → Suffix → Answer Text
  unfolding text_eq
  escaped_url c module_path requested_version suffix = elim (server.escape_path module_path) [
    | none ↦ err (wrap (wrap (root invalid_argument)))
    | some path ↦
        if text_eq requested_version Version.latest
        then (if not (is_info suffix)
            then err (wrap Error.other)
            else ok (c.url ++ (codes "/" ++ (path ++ codes "/@latest"))))
        else elim (server.escape_version requested_version) [
          | none ↦ err (wrap (wrap (root invalid_argument)))
          | some version ↦ ok (
              c.url
              ++ (codes "/"
                  ++ (path ++ (codes "/@v/" ++ (version ++ (codes "." ++ suffix_text suffix))))))
        ]
  ]

  -- The body of a GET request, before the deferred function.
  unfoldable pub request_body : Client → Text → Answer Text
  unfolding response_error
  request_body c u = elim (server.get u c.disable_fetch) [
    | err e ↦ err (opaque e)
    | ok r ↦ elim (response_error r c.disable_fetch) [ some e ↦ err e | none ↦ r.body ]
  ]

  -- A context that is done makes an error of any outcome.
  unfoldable pub execute_request : Client → Text → Answer Text
  unfolding request_body
  execute_request c u =
      if server.is_done u
      then err (wrap (wrap (root proxy_timed_out)))
      else wrapped (request_body c u)

  unfoldable pub read_body : Client → Text → Text → Suffix → Answer Text
  unfolding escaped_url execute_request
  read_body c module_path requested_version suffix =
      elim (escaped_url c module_path requested_version suffix) [
        | err e ↦ err (wrap e)
        | ok u ↦ wrapped (execute_request c u)
      ]

  -- What the three requests make of a body.
  unfoldable pub value_of : Suffix → Text → Answer Text
  value_of info_suffix data_ = server.unmarshal data_
  value_of mod_suffix data_ = ok data_
  value_of zip_suffix data_ = elim (server.read_zip data_) [
    | err e ↦ err (wrap (root bad_module))
    | ok r ↦ ok r
  ]

  -- A request that goes to the proxy.
  unfoldable pub ask : Client → Text → Text → Suffix → Answer Text
  unfolding read_body value_of
  ask c module_path version suffix = elim (read_body c module_path version suffix) [
    | err e ↦ err (wrap e)
    | ok body ↦ wrapped (value_of suffix body)
  ]

  -- `Client.Info`, `Client.Mod` and `Client.Zip`: the answer, and the client with its cache.
  unfoldable pub call : Client → Suffix → Text → Text → Answer Text × Client
  unfolding ask get_info get_mod get_zip put_info put_mod put_zip
  call c suffix module_path version = elim (get_cached suffix c.cache (key module_path version)) [
    | some v ↦ (ok v, c)
    | none ↦ elim (ask c module_path version suffix) [
      | err e ↦ (err e, c)
      | ok v ↦ (ok v, record c { cache = put_cached suffix c.cache (key module_path version) v })
    ]
  ]

  unfoldable pub zip_size : Client → Text → Text → Answer ℕ
  unfolding escaped_url response_error
  zip_size c module_path version = elim (escaped_url c module_path version zip_suffix) [
    | err e ↦ err (wrap e)
    | ok u ↦ elim (server.head u) [
      | err e ↦ err (wrap (opaque e))
      | ok r ↦ elim (response_error r false) [
        | some e ↦ err (wrap e)
        | none ↦ elim r.content_length [ negsuc n ↦ err (wrap Error.other) | pos n ↦ ok n ]
      ]
    ]
  ]

  unfoldable pub list_versions : Client → Text → Answer (List Text)
  unfolding request_body
  list_versions c module_path = elim (server.escape_path module_path) [
    | none ↦ err (wrap (wrap (root invalid_argument)))
    | some path ↦ elim (execute_request c (c.url ++ (codes "/" ++ (path ++ codes "/@v/list")))) [
      | err e ↦ err (wrap e)
      | ok body ↦ wrapped (wrapped (server.scan_lines body))
    ]
  ]
