-- ===== src/Frontend/FetchServer/Looks.antt =====
-- What a look at the database concludes, and what polling does with it.
use pkgsite.Prelude.{
  ℕ, ◌<◌, Bool, true, false, not, ◌||◌, ◌&&◌, List, [], ◌∷◌, Text, Option, none, some, ◌⊎◌, inl,
  inr, ◌≡◌, ◌≢◌, ◌↔◌, refl, sym, ap, ◌∙◌, arith, leb, ◌==◌, if◌then◌else◌, Bool-cases, In,
}
use pkgsite.Derrors.{Error, Code, codes_table, status_of, to_status}
use pkgsite.Frontend.FetchServer.{
  not_in_version_map, DbError, VersionMap, deadline_exceeded, FetchResult, says, canceling, Look,
  fetch_result_from_version_map, with_status, check_unit, check_row, new_result, look_up,
  check_for_path, poll_from, poll_for_path, Run, check_module_path,
}

abbrev lacks_ok : List Code → Bool
lacks_ok [] = true
lacks_ok (c ∷ cs) = not (c.code == 200) && lacks_ok cs

status_of-not_ok : (e : Error) (cs : List Code) → lacks_ok cs ≡ true → status_of e cs ≢ 200
unfolding status_of
status_of-not_ok e [] h = λ eq. omega arith
status_of-not_ok e (c ∷ cs) h = λ eq. ground (arith, status_of-not_ok e cs)

-- No error has the status of success.
pub to_status-not_ok : (e : Error) → to_status (some e) ≢ 200
unfolding to_status codes_table
to_status-not_ok e = status_of-not_ok e codes_table refl

-- What a successful look has seen: a row of a module that was fetched, and the unit in it.
pub record Found (look : Look) : Type 0 where
  pub row : VersionMap
  pub in_version_map : look.version_map ≡ inl row
  pub fetched : row.status < 400
  pub unit_exists : look.unit ≡ none
  pub in_time : look.context_done ≡ false
  pub not_canceled : says (fetch_result_from_version_map row).err canceling ≡ false

check_unit-ok :
    (fr : FetchResult) (unit : Option DbError)
    → (check_unit fr unit).status ≡ 200
    → (unit ≡ none) × ((check_unit fr unit).err ≡ fr.err)
unfolding check_unit
check_unit-ok fr none h = (refl, refl)
check_unit-ok fr (some e) h = absurd (ground arith)

check_row-ok :
    (interval : ℕ) (vm : VersionMap) (look : Look)
    → (check_row interval vm look).status ≡ 200
    → (vm.status < 400)
      × (look.unit ≡ none)
      × ((check_row interval vm look).err ≡ (fetch_result_from_version_map vm).err)
unfolding check_row check_unit fetch_result_from_version_map
check_row-ok interval vm look h =
    ground (arith, check_unit-ok (fetch_result_from_version_map vm) look.unit)

check_row-Found :
    (interval : ℕ) (vm : VersionMap) (look : Look)
    → vm.status < 400
    → look.unit ≡ none
    → (check_row interval vm look
        ≡ with_status (fetch_result_from_version_map vm) 200 (fetch_result_from_version_map vm).err)
unfolding check_row check_unit fetch_result_from_version_map
check_row-Found interval vm look h e =
    let a : (vm.status == 404) ≡ false = ground arith in
    let b : (vm.status == 480) ≡ false = ground arith in
    let c : (vm.status == 500) ≡ false = ground arith in
    let d : (vm.status == 491) ≡ false = ground arith in
    let f : leb 520 vm.status ≡ false = ground arith in
    let g : leb 400 vm.status ≡ false = ground arith in
    rw (check_row, fetch_result_from_version_map, a, b, c, d, f, g, e) refl

look_up-ok :
    (interval : ℕ) (module_path : Text) (look : Look) (answer : VersionMap ⊎ DbError)
    → (look_up interval module_path look answer).status ≡ 200
    → (vm : VersionMap) × (answer ≡ inl vm)
      × (vm.status < 400)
      × (look.unit ≡ none)
      × ((look_up interval module_path look answer).err ≡ (fetch_result_from_version_map vm).err)
unfolding look_up
look_up-ok interval module_path look (inl vm) h =
    let (fetched, unit, err) = check_row-ok interval vm look h in (vm, refl, fetched, unit, err)
look_up-ok interval module_path look (inr d) h = absurd (ground (arith, to_status-not_ok d.error))

abbrev status_of_result : FetchResult → ℕ
status_of_result fr = fr.status

check_for_path_sound :
    (interval : ℕ) (module_path : Text) (look : Look)
    → (check_for_path interval module_path look).status ≡ 200
    → Found look
unfolding check_for_path
check_for_path_sound interval module_path look h =
    let answered = look_up interval module_path look look.version_map in
    elim (Bool-cases (look.context_done || says answered.err canceling)) [
      | inl late ↦ absurd (ground arith)
      | inr fine ↦
          (let same : check_for_path interval module_path look ≡ answered =
              rw (check_for_path, fine) refl in
            let (vm, e, fetched, unit, err) =
              look_up-ok interval module_path look look.version_map
                (sym (ap status_of_result same) ∙ h) in
            record {
              row = vm;
              in_version_map = e;
              fetched = fetched;
              unit_exists = unit;
              in_time = ground arith;
              not_canceled = ap (λ x. says x canceling) (sym err) ∙ ground arith;
            })
    ]

check_for_path_complete :
    (interval : ℕ) (module_path : Text) (look : Look)
    → Found look
    → (check_for_path interval module_path look).status ≡ 200
unfolding check_for_path look_up
check_for_path_complete interval module_path look f =
    let fr = fetch_result_from_version_map f.row in
    let e : look_up interval module_path look look.version_map ≡ with_status fr 200 fr.err =
      ap (look_up interval module_path look) f.in_version_map
      ∙ check_row-Found interval f.row look f.fetched f.unit_exists in
    let quiet : says fr.err canceling ≡ false = f.not_canceled in
    ap
      (λ r.
        (if look.context_done || says r.err canceling
          then with_status r 408 (some deadline_exceeded)
          else r).status)
      e
    ∙ rw (f.in_time, quiet) refl

-- A look succeeds exactly if the database has the row of a module that was fetched, with a status
-- below 400, and the unit in it, the context is not done, and no query was cancelled.
pub check_for_path-Found :
    (interval : ℕ) (module_path : Text) (look : Look)
    → ((check_for_path interval module_path look).status ≡ 200) ↔ Found look
check_for_path-Found interval module_path look = (
  check_for_path_sound interval module_path look,
  check_for_path_complete interval module_path look,
)

-- The first of the looks whose result is not that a row is missing, as a result.
abbrev pub first_seen : ℕ → Text → List Look → Option FetchResult
first_seen interval module_path [] = none
first_seen interval module_path (look ∷ looks) =
    let fr = check_for_path interval module_path look in
    let rest = first_seen interval module_path looks in
    if fr.status == not_in_version_map then rest else some fr

-- What polling comes to.
abbrev pub Polled : FetchResult → Option FetchResult → Type 0
Polled fr none = (fr.status ≡ 408) × (fr.err ≡ some deadline_exceeded)
Polled fr (some seen) = fr ≡ seen

poll_from-Polled :
    (interval : ℕ) (module_path : Text) (fr : FetchResult) (looks : List Look)
    → Polled (poll_from interval module_path fr looks) (first_seen interval module_path looks)
unfolding poll_from
poll_from-Polled interval module_path fr [] = (refl, refl)
poll_from-Polled interval module_path fr (look ∷ looks) =
    let checked = check_for_path interval module_path look in
    let rest = poll_from-Polled interval module_path checked looks in
    elim (Bool-cases (checked.status == not_in_version_map)) [
      | inl y ↦ rw (poll_from, y) rest
      | inr n ↦ rw (poll_from, n) refl
    ]

-- Polling over some looks ends as the first look that ends it does, or with a timeout, status 408, when
-- no look does.
pub poll_for_path-Polled :
    (interval : ℕ) (module_path : Text) (looks : List Look)
    → Polled (poll_for_path interval module_path looks) (first_seen interval module_path looks)
unfolding poll_for_path
poll_for_path-Polled interval module_path looks =
    poll_from-Polled interval module_path (new_result module_path 0 none) looks

first_seen-ok :
    (interval : ℕ) (module_path : Text) (looks : List Look) (fr : FetchResult)
    → first_seen interval module_path looks ≡ some fr
    → fr.status ≡ 200
    → (look : Look) × In look looks × Found look
first_seen-ok interval module_path [] fr e h = cc
first_seen-ok interval module_path (look ∷ looks) fr e h =
    let checked = check_for_path interval module_path look in
    elim (Bool-cases (checked.status == not_in_version_map)) [
      | inl y ↦
          (let (seen, place, found) =
              first_seen-ok interval module_path looks fr (sym (rw y refl) ∙ e) h in
            (seen, inr place, found))
      | inr n ↦
          (let same : some checked ≡ some fr = sym (rw n refl) ∙ e in
            (look, inl refl, check_for_path_sound interval module_path look cc))
    ]

polled-ok :
    (interval : ℕ) (module_path : Text) (looks : List Look)
    → (poll_for_path interval module_path looks).status ≡ 200
    → (look : Look) × In look looks × Found look
polled-ok interval module_path looks h =
    go (first_seen interval module_path looks) refl
      (poll_for_path-Polled interval module_path looks)
  where
    go :
        (o : Option FetchResult)
        → first_seen interval module_path looks ≡ o
        → Polled (poll_for_path interval module_path looks) o
        → (look : Look) × In look looks × Found look
    go none e p = absurd (omega (arith, p.0, h))
    go (some fr) e p =
        first_seen-ok interval module_path looks fr e (sym (ap status_of_result p) ∙ h)

-- The looks of a run.
abbrev pub looks_of : Run → List Look
looks_of run = run.first ∷ run.later

pub check_module_path-ok :
    (interval : ℕ) (runs : Text → Run) (module_path : Text)
    → (check_module_path interval true runs module_path).status ≡ 200
    → (look : Look) × In look (looks_of (runs module_path)) × Found look
unfolding check_module_path
check_module_path-ok interval runs module_path h =
    let run = runs module_path in
    let fr = check_for_path interval module_path run.first in
    elim (Bool-cases (fr.status == not_in_version_map)) [
      | inr n ↦
          (let same : check_module_path interval true runs module_path ≡ fr =
              rw (check_module_path, n) refl in
            (
              run.first,
              inl refl,
              check_for_path_sound interval module_path run.first
                  (sym (ap status_of_result same) ∙ h),
            ))
      | inl y ↦ elim (Bool-cases run.queued) [
        | inr full ↦ absurd (ground arith)
        | inl queued ↦
            (let same : check_module_path interval true runs module_path
                  ≡ poll_for_path interval module_path run.later =
                rw (check_module_path, y, queued) refl in
              let (seen, place, found) =
                polled-ok interval module_path run.later (sym (ap status_of_result same) ∙ h) in
              (seen, inr place, found))
      ]
    ]
