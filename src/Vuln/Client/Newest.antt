-- ===== src/Vuln/Client/Newest.antt =====
-- `Entries` of internal/vuln/client.go: how many entries it returns.
use pkgsite.Prelude.{
  ℕ, zero, suc, ◌≤◌, List, [], ◌∷◌, Text, Option, ◌≡◌, refl, arith, length, take, map, ap, ◌∙◌, sym,
}
use pkgsite.Prelude.Int.{pos}
use pkgsite.Osv.{Entry}
use pkgsite.Vuln.Schema.{ok, Database}
use pkgsite.Vuln.Compact.{sort_ids}
use pkgsite.Vuln.Client.{truncate, by_ids, ids, entries}
use pkgsite.Vuln.Client.Lookup.{file_entry, by_ids_lem}

length-take-le : (n : ℕ) (l : List Text) → length (take n l) ≤ n
length-take-le zero l = omega arith
length-take-le (suc n) [] = omega arith
length-take-le (suc n) (x ∷ l) = omega (arith, length-take-le n l)

take-all : (n : ℕ) (l : List Text) → length l ≤ n → take n l ≡ l
take-all zero [] h = refl
take-all zero (x ∷ l) h = ground arith
take-all (suc n) [] h = refl
take-all (suc n) (x ∷ l) h = ap (λ xs. x ∷ xs) (take-all n l (omega arith))

truncate-take : (n : ℕ) (l : List Text) → truncate (pos n) l ≡ take n l
unfolding truncate
truncate-take n l = ground (arith, take-all n l)

length-map : {A B : Type 0} (f : A → B) (l : List A) → length (map f l) ≡ length l
length-map f [] = refl
length-map f (x ∷ l) = ap suc (length-map f l)

-- If `Entries` returns entries for a positive n, they are those of the files of the first n of the
-- index's ids in descending order, or of all ids if there are fewer, in that order, with nil for a
-- missing file; so they are at most n.
pub entries_lem :
    (db : Database) (n : ℕ) {l : List Text} {es : List (Option Entry)}
    → ids db ≡ ok l
    → entries db (pos (suc n)) ≡ ok es
    → (es ≡ map (λ x. file_entry (db.entry x)) (take (suc n) (sort_ids l))) × (length es ≤ suc n)
unfolding entries
entries_lem db n {l} {es} h e =
    let step : entries db (pos (suc n)) ≡ by_ids db (truncate (pos (suc n)) (sort_ids l)) =
      rw (entries, h) refl in
    let first : truncate (pos (suc n)) (sort_ids l) ≡ take (suc n) (sort_ids l) =
      truncate-take (suc n) (sort_ids l) in
    let files : es ≡ map (λ x. file_entry (db.entry x)) (take (suc n) (sort_ids l)) =
      by_ids_lem db (take (suc n) (sort_ids l)) {os = es} (sym (step ∙ ap (by_ids db) first) ∙ e) in
    (
      files,
      omega (
        arith,
        ap length files,
        length-map (λ x. file_entry (db.entry x)) (take (suc n) (sort_ids l)),
        length-take-le (suc n) (sort_ids l),
      ),
    )
