-- ===== src/Proxy/Cached.antt =====
-- The cache of a proxy client is transparent.
use mathlib.Core.Path.{subst, ap}
use pkgsite.Prelude.{
  ◌≡◌, refl, sym, ◌∙◌, ◌⊎◌, inl, inr, List, [], ◌∷◌, Text, Option, none, some, arith, text_eq_iff,
  Option-cases,
}
use pkgsite.Paths.{Modver}
use pkgsite.Proxy.{
  Server, Client, Cache, Suffix, info_suffix, mod_suffix, zip_suffix, key, modver_eq, lookup_modver,
  empty_cache, with_cache, get_info, get_mod, get_zip, put_info, put_mod, put_zip, get_cached,
  put_cached, ask, call, read_body, escaped_url, execute_request, request_body,
}
use pkgsite.Worker.Fetch.Env.{Answer, ok, answer_cases}

-- A key of a request and its parts.
abbrev IsKey : Modver → Modver → Type 0
IsKey k j = (k.path ≡ j.path) × (k.version ≡ j.version)

-- What a cache holds after a value is put into it: that value at its key, or what it held.
abbrev HoldsPut : Suffix → Modver → Text → Option Cache → Suffix → Modver → Text → Type 0
HoldsPut s k v c t j w = ((s ≡ t) × IsKey k j × (v ≡ w)) ⊎ (get_cached t c j ≡ some w)

put_info_lem :
    (k : Modver) (v : Text) (c : Option Cache) (t : Suffix) (j : Modver) (w : Text)
    → get_cached t (put_info c k v) j ≡ some w
    → HoldsPut info_suffix k v c t j w
unfolding put_info get_info get_mod get_zip modver_eq
put_info_lem k v none t j w h = inr h
put_info_lem k v (some c) info_suffix j w h =
    ground (arith, text_eq_iff k.path j.path, text_eq_iff k.version j.version)
put_info_lem k v (some c) mod_suffix j w h = inr h
put_info_lem k v (some c) zip_suffix j w h = inr h

put_mod_lem :
    (k : Modver) (v : Text) (c : Option Cache) (t : Suffix) (j : Modver) (w : Text)
    → get_cached t (put_mod c k v) j ≡ some w
    → HoldsPut mod_suffix k v c t j w
unfolding put_mod get_info get_mod get_zip modver_eq
put_mod_lem k v none t j w h = inr h
put_mod_lem k v (some c) info_suffix j w h = inr h
put_mod_lem k v (some c) mod_suffix j w h =
    ground (arith, text_eq_iff k.path j.path, text_eq_iff k.version j.version)
put_mod_lem k v (some c) zip_suffix j w h = inr h

put_zip_lem :
    (k : Modver) (v : Text) (c : Option Cache) (t : Suffix) (j : Modver) (w : Text)
    → get_cached t (put_zip c k v) j ≡ some w
    → HoldsPut zip_suffix k v c t j w
unfolding put_zip get_info get_mod get_zip modver_eq
put_zip_lem k v none t j w h = inr h
put_zip_lem k v (some c) info_suffix j w h = inr h
put_zip_lem k v (some c) mod_suffix j w h = inr h
put_zip_lem k v (some c) zip_suffix j w h =
    ground (arith, text_eq_iff k.path j.path, text_eq_iff k.version j.version)

put_cached_lem :
    (s : Suffix) (k : Modver) (v : Text) (c : Option Cache) (t : Suffix) (j : Modver) (w : Text)
    → get_cached t (put_cached s c k v) j ≡ some w
    → HoldsPut s k v c t j w
put_cached_lem info_suffix = put_info_lem
put_cached_lem mod_suffix = put_mod_lem
put_cached_lem zip_suffix = put_zip_lem

module _ (server : Server) where
  -- A request does not depend on the cache.
  ask-cache :
      (c : Client) (x : Option Cache) (s : Suffix) (p v : Text)
      → ask server (record c { cache = x }) p v s ≡ ask server c p v s
  unfolding ask read_body escaped_url execute_request request_body
  ask-cache c x s p v = refl

  -- What the cache holds is what the proxy answers.
  abbrev IsConsistent : Client → Type 0
  IsConsistent c =
      (s : Suffix) (j : Modver) (w : Text)
      → get_cached s c.cache j ≡ some w
      → ask server c j.path j.version s ≡ ok w

  -- A call answers as the proxy does, and keeps the client, but for a consistent cache.
  abbrev Calls : Client → Suffix → Text → Text → Answer Text × Client → Type 0
  Calls c s p v r =
      (r.0 ≡ ask server c p v s)
      × IsConsistent r.1
      × ((t : Suffix) (q w : Text) → ask server r.1 q w t ≡ ask server c q w t)

  put-IsConsistent :
      (c : Client) (s : Suffix) (p v x : Text)
      → IsConsistent c
      → ask server c p v s ≡ ok x
      → IsConsistent (record c { cache = put_cached s c.cache (key p v) x })
  put-IsConsistent c s p v x h a t j w g = elim (put_cached_lem s (key p v) x c.cache t j w g) [
    | inr o ↦ ask-cache c (put_cached s c.cache (key p v) x) t j.path j.version ∙ h t j w o
    | inl (e, (q, r), z) ↦
        ask-cache c (put_cached s c.cache (key p v) x) t j.path j.version
        ∙ subst (λ (u : Suffix). ask server c j.path j.version u ≡ ok w) e
            (subst (λ (u : Text). ask server c u j.version s ≡ ok w) q
              (subst (λ (u : Text). ask server c p u s ≡ ok w) r (a ∙ ap ok z)))
  ]

  call-Calls :
      (c : Client) (s : Suffix) (p v : Text) → IsConsistent c → Calls c s p v (call server c s p v)
  unfolding call
  call-Calls c s p v h = elim (Option-cases (get_cached s c.cache (key p v))) [
    | inr (w, q) ↦ rw (q, call) (sym (h s (key p v) w q), h, (λ t q w. refl))
    | inl q ↦ elim (answer_cases (ask server c p v s)) [
      | inl (e, a) ↦ rw (q, call) (rw (a, call) (refl, h, (λ t q w. refl)))
      | inr (x, a) ↦
          rw (q, call)
            (rw (a, call)
              (
                refl,
                put-IsConsistent c s p v x h a,
                ask-cache c (put_cached s c.cache (key p v) x),
              ))
    ]
  ]

  -- A request: what is asked for, and a module with a version.
  abbrev pub Request : Type 0
  Request = Suffix × Text × Text

  -- The answers to requests in their order.
  pub run : Client → List Request → List (Answer Text)
  run c [] = []
  run c ((s, p, v) ∷ rs) = let (a, c') = call server c s p v in a ∷ run c' rs

  -- The answers of the proxy.
  pub answers : Client → List Request → List (Answer Text)
  answers c [] = []
  answers c ((s, p, v) ∷ rs) = ask server c p v s ∷ answers c rs

  answers-same :
      (c d : Client) (rs : List Request)
      → ((t : Suffix) (q w : Text) → ask server c q w t ≡ ask server d q w t)
      → answers c rs ≡ answers d rs
  unfolding answers
  answers-same c d [] h = refl
  answers-same c d ((s, p, v) ∷ rs) h =
      rw (h s p v) (ap (λ (r : List (Answer Text)). ask server d p v s ∷ r) (answers-same c d rs h))

  run-answers : (c : Client) (rs : List Request) → IsConsistent c → run c rs ≡ answers c rs
  unfolding run answers
  run-answers c [] h = refl
  run-answers c ((s, p, v) ∷ rs) h =
      let (a, k, e) = call-Calls c s p v h in
      ap (λ (x : Answer Text). x ∷ run (call server c s p v).1 rs) a
      ∙ ap (λ (r : List (Answer Text)). ask server c p v s ∷ r)
          (run-answers (call server c s p v).1 rs k ∙ answers-same (call server c s p v).1 c rs e)

  with_cache-IsConsistent : (c : Client) → IsConsistent (with_cache c)
  unfolding get_info get_mod get_zip lookup_modver
  with_cache-IsConsistent c info_suffix j w h = cc
  with_cache-IsConsistent c mod_suffix j w h = cc
  with_cache-IsConsistent c zip_suffix j w h = ground arith

  -- A client with a cache, that no other client shares, gives for any sequence of requests for infos,
  -- go.mod files and zips the answers that the proxy gives, as long as that answers a request always
  -- alike.
  pub run-with_cache : (c : Client) (rs : List Request) → run (with_cache c) rs ≡ answers c rs
  run-with_cache c rs =
      run-answers (with_cache c) rs (with_cache-IsConsistent c)
      ∙ answers-same (with_cache c) c rs (λ t q w. ask-cache c (some empty_cache) t q w)
