-- ===== src/Vuln/Client/Filter.antt =====
-- `modulesFilter` of internal/vuln/client.go against its description: the first n matches.
use mathlib.Core.List.{append-nil, append_assoc}
use pkgsite.Prelude.{
  ℕ, zero, suc, ◌+◌, Bool, true, false, List, [], ◌∷◌, ◌++◌, none, some, ◌≡◌, inl, inr, refl, ap,
  sym, arith, length, length-append, ◌==◌, if◌then◌else◌, Bool-cases, Option-cases, ◌∙◌,
}
use pkgsite.Vuln.Schema.{
  Result, ok, err, ◌>>=◌, Stream, end, broken, item, ModuleMeta, Database, malformed, unreachable,
}
use pkgsite.Vuln.Client.{filter_stream, modules_filter}

module _ {A : Type 0} (filter : A → Bool) where
  -- The first n matches of a stream, which is read no further than the n-th.
  abbrev pub first_matches : ℕ → Stream A → Result (List A)
  first_matches zero s = ok []
  first_matches (suc n) end = ok []
  first_matches (suc n) broken = err malformed
  first_matches (suc n) (item a rest) =
      let next = first_matches n rest in
      let skip = first_matches (suc n) rest in
      if filter a then (next >>= λ as'. ok (a ∷ as')) else skip

  abbrev pub prefixed : List A → Result (List A) → Result (List A)
  prefixed ms r = r >>= λ as'. ok (ms ++ as')

  prefixed_cons :
      (ms : List A) (a : A) (r : Result (List A))
      → prefixed (ms ++ a ∷ []) r ≡ prefixed ms (r >>= λ as'. ok (a ∷ as'))
  prefixed_cons ms a (ok as') = ap ok (append_assoc ms (a ∷ []) as')
  prefixed_cons ms a (err e) = refl

  abbrev pub Agree : ℕ → ℕ → Stream A → List A → Type 0
  Agree n k s ms = filter_stream filter (some n) s ms ≡ prefixed ms (first_matches k s)

  matched :
      (n k : ℕ) (a : A) (rest : Stream A) (ms : List A)
      → n ≡ length ms + suc k
      → filter a ≡ true
      → ((j : ℕ) → n ≡ length (ms ++ a ∷ []) + suc j → Agree n (suc j) rest (ms ++ a ∷ []))
      → Agree n (suc k) (item a rest) ms
  unfolding filter_stream
  matched n zero a rest ms h hit ih =
      let full : (length (ms ++ a ∷ []) == n) ≡ true = ground (arith, length-append ms (a ∷ [])) in
      rw (hit, filter_stream, full) refl
  matched n (suc k) a rest ms h hit ih =
      let room : (length (ms ++ a ∷ []) == n) ≡ false = ground (arith, length-append ms (a ∷ [])) in
      rw (hit, filter_stream, room)
        (ih k (omega (arith, h, length-append ms (a ∷ []))) ∙ prefixed_cons ms a _)

  filter_stream-first_matches :
      (n k : ℕ) (s : Stream A) (ms : List A) → n ≡ length ms + suc k → Agree n (suc k) s ms
  unfolding filter_stream
  filter_stream-first_matches n k end ms h = ap ok (sym (append-nil ms))
  filter_stream-first_matches n k broken ms h = refl
  filter_stream-first_matches n k (item a rest) ms h = elim (Bool-cases (filter a)) [
    | inl hit ↦
        matched n k a rest ms h hit (λ j e. filter_stream-first_matches n j rest (ms ++ a ∷ []) e)
    | inr miss ↦ rw (miss, filter_stream) (filter_stream-first_matches n k rest ms h)
  ]

  prefixed_nil : (r : Result (List A)) → prefixed [] r ≡ r
  prefixed_nil (ok as') = refl
  prefixed_nil (err e) = refl

-- `modulesFilter` with a limit of n gives the first n matches of the index in order, and reads no
-- further: an index that is broken behind the n-th match is no error, and before it, it is. An
-- index that cannot be read is an error unless n is 0.
pub modules_filter-first_matches :
    (db : Database) (filter : ModuleMeta → Bool) (n : ℕ)
    → modules_filter db filter (some n) ≡ (elim db.modules [
      | none ↦ elim n [ zero ↦ ok [] | suc _ ↦ err unreachable ]
      | some index ↦ first_matches filter n index
    ])
unfolding modules_filter
modules_filter-first_matches db filter zero = elim (Option-cases db.modules) [
  | inl closed ↦ rw (closed) refl
  | inr (index, opened) ↦ rw (opened) refl
]
modules_filter-first_matches db filter (suc n) = elim (Option-cases db.modules) [
  | inl closed ↦ rw (closed) refl
  | inr (index, opened) ↦
      rw (opened) (
        filter_stream-first_matches filter (suc n) n index [] (omega arith) ∙ prefixed_nil filter _)
]
