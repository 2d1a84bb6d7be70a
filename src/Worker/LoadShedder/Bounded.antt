-- ===== src/Worker/LoadShedder/Bounded.antt =====
-- What load shedding bounds: the requests in progress, as they begin and end in any order.
use pkgsite.Prelude.{
  ℕ, ◌+◌, ◌≤◌, ◌<◌, true, false, List, [], ◌∷◌, ◌++◌, Option, ◌≡◌, ◌⊎◌, refl, arith, In, length,
}
use pkgsite.Worker.LoadShedder.{LoadShedder, UserInfo, u64_mod, should_shed, release}

-- The counters in range.
pub record IsWord (ls : LoadShedder) : Type 0 where
  pub max_word : ls.max_size_in_flight < u64_mod
  pub size_word : ls.size_in_flight < u64_mod
  pub requests_word : ls.requests_in_flight < u64_mod

-- The deferred function gives back what an accepted request took, if its size fits a uint64 and
-- the counters are in range.
pub release-should_shed :
    (size : ℕ) (info : Option UserInfo) (ls : LoadShedder)
    → size < u64_mod
    → IsWord ls
    → (should_shed size info ls).0 ≡ false
    → ((release size (should_shed size info ls).1).size_in_flight ≡ ls.size_in_flight)
      × ((release size (should_shed size info ls).1).requests_in_flight ≡ ls.requests_in_flight)
unfolding should_shed release
release-should_shed size info ls small w h = ground arith

-- A request that is shed takes nothing.
pub should_shed_shed :
    (size : ℕ) (info : Option UserInfo) (ls : LoadShedder)
    → (should_shed size info ls).0 ≡ true
    → ((should_shed size info ls).1.size_in_flight ≡ ls.size_in_flight)
      × ((should_shed size info ls).1.requests_in_flight ≡ ls.requests_in_flight)
unfolding should_shed
should_shed_shed size info ls h = ground arith

abbrev pub sum : List ℕ → ℕ
sum [] = 0
sum (x ∷ xs) = x + sum xs

-- A system: the shedder, the sizes of the requests in progress, and the number accepted so far.
pub record System : Type 0 where
  pub shedder : LoadShedder
  pub running : List ℕ
  pub accepted : ℕ

-- A request begins or is shed, or one in progress ends. `fits` keeps the sizes from overflowing a
-- uint64 together.
pub data Step : System → System → Type 0 where
  begin :
      (s : System) (size : ℕ) (info : Option UserInfo)
      → size + sum s.running < u64_mod
      → length s.running + 1 < u64_mod
      → (should_shed size info s.shedder).0 ≡ false
      → Step s (record {
        shedder = (should_shed size info s.shedder).1;
        running = size ∷ s.running;
        accepted = s.accepted + 1;
      })
  shed :
      (s : System) (size : ℕ) (info : Option UserInfo)
      → (should_shed size info s.shedder).0 ≡ true
      → Step s (record s { shedder = (should_shed size info s.shedder).1 })
  finish :
      (s : System) (before after : List ℕ) (size : ℕ)
      → s.running ≡ before ++ size ∷ after
      → Step s (record s { shedder = release size s.shedder; running = before ++ after })

pub data Reach (s : System) : System → Type 0 where
  start : Reach s s
  next : {t u : System} → Reach s t → Step t u → Reach s u

pub record IsBounded (s : System) : Type 0 where
  pub max_word : s.shedder.max_size_in_flight < u64_mod
  pub size_exact : s.shedder.size_in_flight ≡ sum s.running
  pub size_word : sum s.running < u64_mod
  pub requests_exact : s.shedder.requests_in_flight ≡ length s.running
  pub requests_word : length s.running < u64_mod
  pub total_exact : s.shedder.requests_total ≡ s.shedder.requests_shed + s.accepted
  pub bounded : (sum s.running ≤ s.shedder.max_size_in_flight) ⊎ In (sum s.running) s.running

sum-middle : (xs ys : List ℕ) (x : ℕ) → sum (xs ++ x ∷ ys) ≡ x + sum (xs ++ ys)
sum-middle [] ys x = refl
sum-middle (y ∷ xs) ys x = omega (arith, sum-middle xs ys x)

length-middle : (xs ys : List ℕ) (x : ℕ) → length (xs ++ x ∷ ys) ≡ length (xs ++ ys) + 1
length-middle [] ys x = omega arith
length-middle (y ∷ xs) ys x = omega (arith, length-middle xs ys x)

le-sum : (x : ℕ) (xs : List ℕ) → In x xs → x ≤ sum xs
le-sum x [] m = absurd m
le-sum x (y ∷ xs) m = ground (arith, le-sum x xs)

In-middle : (a x : ℕ) (xs ys : List ℕ) → In a (xs ++ x ∷ ys) → (a ≡ x) ⊎ In a (xs ++ ys)
In-middle a x [] ys m = m
In-middle a x (y ∷ xs) ys m = ground (arith, In-middle a x xs ys)

begin-IsBounded :
    (s : System) (size : ℕ) (info : Option UserInfo)
    → IsBounded s
    → size + sum s.running < u64_mod
    → length s.running + 1 < u64_mod
    → (should_shed size info s.shedder).0 ≡ false
    → IsBounded (record {
      shedder = (should_shed size info s.shedder).1;
      running = size ∷ s.running;
      accepted = s.accepted + 1;
    })
unfolding should_shed
begin-IsBounded s size info b fits count h = ground arith

shed-IsBounded :
    (s : System) (size : ℕ) (info : Option UserInfo)
    → IsBounded s
    → (should_shed size info s.shedder).0 ≡ true
    → IsBounded (record s { shedder = (should_shed size info s.shedder).1 })
unfolding should_shed
shed-IsBounded s size info b h = ground arith

-- What is left of the bound when a request ends.
bounded_finish :
    (before after : List ℕ) (size max : ℕ)
    → (sum (before ++ size ∷ after) ≤ max)
      ⊎ In (sum (before ++ size ∷ after)) (before ++ size ∷ after)
    → (sum (before ++ after) ≤ max) ⊎ In (sum (before ++ after)) (before ++ after)
bounded_finish before after size max h =
    let total = sum (before ++ size ∷ after) in
    ground (
      arith,
      sum-middle before after size,
      In-middle total size before after,
      le-sum total (before ++ after),
    )

finish-IsBounded :
    (s : System) (before after : List ℕ) (size : ℕ)
    → s.running ≡ before ++ size ∷ after
    → IsBounded s
    → IsBounded (record s { shedder = release size s.shedder; running = before ++ after })
unfolding release
finish-IsBounded s before after size e b =
    let b' : IsBounded (record s { running = before ++ size ∷ after }) = split b in
    record {
      max_word = b.max_word;
      size_exact = ground (arith, sum-middle before after size, b'.size_exact, b'.size_word);
      size_word = omega (arith, sum-middle before after size, b'.size_word);
      requests_exact =
          ground (arith, length-middle before after size, b'.requests_exact, b'.requests_word);
      requests_word = omega (arith, length-middle before after size, b'.requests_word);
      total_exact = b.total_exact;
      bounded = bounded_finish before after size s.shedder.max_size_in_flight b'.bounded;
    }
  where
    split : IsBounded s → IsBounded (record s { running = before ++ size ∷ after })
    split v = rw e at v

-- Whatever requests begin, are shed and end, from a state in which this holds: the counters are
-- exact (the sizes in progress add up to the size in flight, every request is shed or accepted),
-- and the size in flight is within the limit, or is the size of one of the requests in progress.
-- Sizes and counts in progress fit a uint64 together.
pub Reach-IsBounded : {s t : System} → IsBounded s → Reach s t → IsBounded t
Reach-IsBounded b start = b
Reach-IsBounded b (next r (begin s size info fits count h)) =
    begin-IsBounded s size info (Reach-IsBounded b r) fits count h
Reach-IsBounded b (next r (shed s size info h)) = shed-IsBounded s size info (Reach-IsBounded b r) h
Reach-IsBounded b (next r (finish s before after size e)) =
    finish-IsBounded s before after size e (Reach-IsBounded b r)
