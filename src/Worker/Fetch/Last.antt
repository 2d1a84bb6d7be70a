-- ===== src/Worker/Fetch/Last.antt =====
-- The writes of module_version_states: the row of a new version first, and last of all the status
-- that the fetch reports.
use pkgsite.Prelude.{
  ℕ, List, [], ◌∷◌, ◌++◌, Text, Option, none, some, ◌≡◌, ◌⊎◌, refl, arith, inl, inr, Bool-cases,
  text_eq,
}
use pkgsite.Derrors.{Error, to_status}
use pkgsite.Semver.{Semver}
use pkgsite.Paths.{unknown_module_path}
use pkgsite.Worker.Fetch.Env.{Effect, FetchTask, Env, Traced, ◌>>=◌, call, pure, answer_cases}
use pkgsite.Worker.Fetch.Insert.{
  fetched_task, insert_fetched, invalidate_cache, fetch_and_insert_module, fetch_and_update_latest,
  maybe_shed,
}
use pkgsite.Worker.Fetch.Update.{
  Outcome, delete_module, delete_step, requested_versions, upsert_all, version_map_step,
  record_state, process, update_latest_and_process, insert_and_process, unless_error, after_info,
  wrap_outcome, fetch_and_update_state,
}
use pkgsite.Worker.LoadShedder.{LoadShedder}

-- The status that an effect writes to module_version_states; a new version's row has the status 0.
abbrev pub status_written : Effect → Option ℕ
status_written (Effect.update_version_state p v n) = some n
status_written (Effect.delete_module_row p v) = none
status_written (Effect.insert_new_version p v) = some 0
status_written (Effect.update_latest_status p n) = none
status_written (Effect.update_latest p) = none
status_written (Effect.insert_module p v) = none
status_written (Effect.cache_delete k) = none
status_written (Effect.cache_delete_prefix k) = none
status_written (Effect.update_latest_good p) = none
status_written (Effect.upsert_version_map p r v n) = none
status_written (Effect.reconcile_search p v n) = none

-- The effects of a fetch with this status: none writes the state but the last, which may, and then
-- it writes this status, or the fetch reports an internal error.
abbrev pub WritesLast : ℕ → List Effect → Type 0
WritesLast status [] = Unit
WritesLast status (e ∷ []) =
    (status_written e ≡ none) ⊎ (status_written e ≡ some status) ⊎ (status ≡ 500)
WritesLast status (e ∷ f ∷ es) = (status_written e ≡ none) × WritesLast status (f ∷ es)

-- The same after the row of a new version of the module, if that is inserted first.
abbrev pub WritesRow : Text → ℕ → List Effect → Type 0
WritesRow path status [] = Unit
WritesRow path status (e ∷ es) =
    (((version : Text) × (e ≡ Effect.insert_new_version path version)) × WritesLast status es)
    ⊎ WritesLast status (e ∷ es)

abbrev NoWrite : List Effect → Type 0
NoWrite [] = Unit
NoWrite (e ∷ es) = (status_written e ≡ none) × NoWrite es

NoWrite-append : (xs ys : List Effect) → NoWrite xs → NoWrite ys → NoWrite (xs ++ ys)
NoWrite-append [] ys h k = k
NoWrite-append (x ∷ xs) ys (h, hs) k = (h, NoWrite-append xs ys hs k)

WritesLast-of_NoWrite : (status : ℕ) (xs : List Effect) → NoWrite xs → WritesLast status xs
WritesLast-of_NoWrite status [] h = tt
WritesLast-of_NoWrite status (x ∷ []) h = inl h.0
WritesLast-of_NoWrite status (x ∷ y ∷ xs) h = (h.0, WritesLast-of_NoWrite status (y ∷ xs) h.1)

WritesLast-append :
    (status : ℕ) (xs ys : List Effect)
    → NoWrite xs
    → WritesLast status ys
    → WritesLast status (xs ++ ys)
WritesLast-append status [] ys h k = k
WritesLast-append status (x ∷ []) [] h k = inl h.0
WritesLast-append status (x ∷ []) (y ∷ ys) h k = (h.0, k)
WritesLast-append status (x ∷ x' ∷ xs) ys h k = (h.0, WritesLast-append status (x' ∷ xs) ys h.1 k)

module _ (env : Env) where
  insert_fetched-NoWrite : (ft : FetchTask) → NoWrite (insert_fetched env ft).1
  unfolding insert_fetched invalidate_cache
  insert_fetched-NoWrite ft = ground arith

  insert-NoWrite : (path requested : Text) → NoWrite (fetch_and_insert_module env path requested).1
  unfolding fetch_and_insert_module
  insert-NoWrite path requested =
      ground (arith, insert_fetched-NoWrite (fetched_task env path requested))

  delete_step-NoWrite : (ft : FetchTask) → NoWrite (delete_step env ft).1
  unfolding delete_step delete_module
  delete_step-NoWrite ft = ground arith

  upsert_all-NoWrite : (ft : FetchTask) (vs : List Text) → NoWrite (upsert_all env ft vs).1
  unfolding upsert_all
  upsert_all-NoWrite ft [] = tt
  upsert_all-NoWrite ft (v ∷ vs) = ground (arith, upsert_all-NoWrite ft vs)

  latest-NoWrite : (path : Text) → NoWrite (fetch_and_update_latest env path).1
  unfolding fetch_and_update_latest
  latest-NoWrite path = ground arith

  unless_error-WritesLast :
      (next : Unit {0} → Traced Outcome) (t : Traced (Option Error))
      → NoWrite t.1
      → WritesLast (next tt).0.status (next tt).1
      → WritesLast (t >>= unless_error next).0.status (t >>= unless_error next).1
  unfolding unless_error
  unless_error-WritesLast next (none, es) h k = WritesLast-append _ es _ h k
  unless_error-WritesLast next (some e, es) h k =
      WritesLast-of_NoWrite _ (es ++ []) (NoWrite-append es [] h tt)

  module _ (semver : Semver) where
    record_state-WritesLast :
        (path : Text) (ft : FetchTask)
        → WritesLast (record_state env semver path ft).0.status (record_state env semver path ft).1
    unfolding record_state
    record_state-WritesLast path ft = ground arith

    process-WritesLast :
        (path requested : Text)
        → WritesLast
            (process env semver path requested).0.status
            (process env semver path requested).1
    unfolding process version_map_step
    process-WritesLast path requested =
        let a = fetch_and_insert_module env path requested in
        let b = delete_step env a.0 in
        let c = version_map_step env b.0 in
        WritesLast-append _ ((a.1 ++ b.1) ++ c.1) (record_state env semver path c.0).1
          (NoWrite-append (a.1 ++ b.1) c.1
            (NoWrite-append a.1 b.1 (insert-NoWrite path requested) (delete_step-NoWrite a.0))
            (upsert_all-NoWrite b.0 (requested_versions b.0)))
          (record_state-WritesLast path c.0)

    update_latest-WritesLast :
        (path requested : Text)
        → WritesLast
            (update_latest_and_process env semver path requested).0.status
            (update_latest_and_process env semver path requested).1
    unfolding update_latest_and_process
    update_latest-WritesLast path requested =
        unless_error-WritesLast (λ _. process env semver path requested)
          (fetch_and_update_latest env path) (latest-NoWrite path)
          (process-WritesLast path requested)

    WritesRow-of_WritesLast :
        (path : Text) (status : ℕ) (es : List Effect)
        → WritesLast status es
        → WritesRow path status es
    WritesRow-of_WritesLast path status [] h = tt
    WritesRow-of_WritesLast path status (e ∷ es) h = inr h

    insert_and_process-WritesRow :
        (path requested version : Text)
        → WritesRow path
            (insert_and_process env semver path requested version).0.status
            (insert_and_process env semver path requested version).1
    unfolding insert_and_process unless_error
    insert_and_process-WritesRow path requested version = inserted (env.insert_new path version)
      where
        inserted :
            (o : Option Error)
            → WritesRow path
                (call o (Effect.insert_new_version path version)
                  >>= unless_error
                      (λ _. update_latest_and_process env semver path requested)).0.status
                (call o (Effect.insert_new_version path version)
                  >>= unless_error (λ _. update_latest_and_process env semver path requested)).1
        inserted none = inl ((version, refl), update_latest-WritesLast path requested)
        inserted (some e) = inl ((version, refl), tt)

    update_latest-WritesRow :
        (path requested : Text)
        → WritesRow path
            (update_latest_and_process env semver path requested).0.status
            (update_latest_and_process env semver path requested).1
    update_latest-WritesRow path requested =
        WritesRow-of_WritesLast path _ _ (update_latest-WritesLast path requested)

    after_info-WritesRow :
        (shedder : Option LoadShedder) (path requested : Text)
        → WritesRow path
            (after_info env semver shedder path requested).0.0.status
            (after_info env semver shedder path requested).0.1
    unfolding after_info
    after_info-WritesRow shedder path requested =
        elim (answer_cases (env.get_info path requested)) [
          | inl (e, q) ↦ rw (q, after_info) (update_latest-WritesRow path requested)
          | inr (version, q) ↦
              rw (q, after_info) (shed version (maybe_shed env shedder path version).0.1)
        ]
      where
        ends : Text → Option Error → Traced Outcome
        ends version none = wrap_outcome (insert_and_process env semver path requested version)
        ends version (some e) =
            wrap_outcome
              (pure (record { status = to_status (some e); version = []; error = some e }))

        shed :
            (version : Text) (o : Option Error)
            → WritesRow path (ends version o).0.status (ends version o).1
        shed version none = insert_and_process-WritesRow path requested version
        shed version (some e) = tt

    -- Whatever happens in a fetch: first a row with the status 0 may be inserted into
    -- module_version_states for a version of the module. But for that, no call of the fetch writes
    -- this table except the last one, which may, and then with the status that the fetch reports,
    -- unless the fetch reports the status 500.
    pub fetch_and_update_state-WritesLast :
        (shedder : Option LoadShedder) (path requested : Text)
        → WritesRow path
            (fetch_and_update_state env semver shedder path requested).0.0.status
            (fetch_and_update_state env semver shedder path requested).0.1
    unfolding fetch_and_update_state
    fetch_and_update_state-WritesLast shedder path requested =
        elim (Bool-cases (text_eq path unknown_module_path)) [
          | inl y ↦ rw (y, fetch_and_update_state) tt
          | inr n ↦ rw (n, fetch_and_update_state) (after_info-WritesRow shedder path requested)
        ]
