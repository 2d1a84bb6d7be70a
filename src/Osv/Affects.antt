-- ===== src/Osv/Affects.antt =====
-- Which versions an entry's ranges affect, and the latest fix.
use pkgsite.Prelude.{
  Bool, true, false, not, ◌||◌, List, [], ◌∷◌, ◌++◌, Text, ◌≡◌, ◌≢◌, ◌⊎◌, inl, inr, refl, arith,
  text_eq, append-nil, is_empty, any, All, if◌then◌else◌, Bool-cases, text_eq_iff, codes, Ordering,
}
use mathlib.Core.List.Perm
use mathlib.Core.List.{Perm, perm_middle}
use pkgsite.Semver.{Semver, IsOrdered, is_lt}
use pkgsite.Osv.{
  RangeEvent, Range, is_semver_range, zero_version, affects_semver, affects_from, contains_semver,
  scan_event, scan_events, insert_event, event_less, sort_events, reverse_onto, canonicalize_semver,
  event_version, less_semver,
}

module _ (semver : Semver) where
  contains_other :
      (r : Range) (v : Text) → is_semver_range r ≡ false → contains_semver semver r v ≡ false
  unfolding contains_semver
  contains_other r v h = rw h

  affects_from-any :
      (rs : List Range) (v : Text) (present : Bool)
      → affects_from semver rs v present
        ≡ (not (present || any is_semver_range rs) || any (λ r. contains_semver semver r v) rs)
  unfolding affects_from any
  affects_from-any [] v present = ground arith
  affects_from-any (r ∷ rs) v present =
      ground (arith, affects_from-any rs v present, affects_from-any rs v true, contains_other r v)

  -- A version is affected exactly when a range of semantic versions contains it, or when there is no
  -- such range at all.
  pub affects_semver-any :
      (rs : List Range) (v : Text)
      → affects_semver semver rs v
        ≡ (not (any is_semver_range rs) || any (λ r. contains_semver semver r v) rs)
  unfolding affects_semver any
  affects_semver-any [] v = refl
  affects_semver-any (r ∷ rs) v = affects_from-any (r ∷ rs) v false

  -- Exactly one of an event's two versions is present.
  abbrev pub IsEvent : RangeEvent → Type 0
  IsEvent e =
      (is_empty e.introduced ≡ true) × (is_empty e.fixed ≡ false)
      ⊎ (is_empty e.introduced ≡ false) × (is_empty e.fixed ≡ true)

  -- The version that an event names: where it is fixed, or else introduced.
  abbrev pub version_of : RangeEvent → Text
  version_of e = if is_empty e.fixed then e.introduced else e.fixed

  -- The event happens at or before the canonical version v.
  abbrev pub happened : Text → RangeEvent → Bool
  unfolding text_eq
  happened v e =
      text_eq e.introduced (codes "0")
      || not (is_lt (semver.cmp v (canonicalize_semver (version_of e))))

  -- The status after the last event that happened at or before v: affected by an introduction.
  unfoldable pub last_status : Text → List RangeEvent → Bool → Bool
  last_status v [] affected = affected
  last_status v (e ∷ es) affected =
      last_status v es (if happened v e then not (is_empty e.introduced) else affected)

  scan_event-status :
      (v : Text) (e : RangeEvent) (affected : Bool)
      → IsEvent e
      → scan_event semver v e affected
        ≡ (if happened v e then not (is_empty e.introduced) else affected)
  unfolding scan_event event_version text_eq
  scan_event-status v e affected h = ground arith

  scan_events-status :
      (v : Text) (es : List RangeEvent) (affected : Bool)
      → All IsEvent es
      → scan_events semver v es affected ≡ last_status v es affected
  unfolding scan_events last_status
  scan_events-status v [] affected h = refl
  scan_events-status v (e ∷ es) affected (h, hs) =
      rw (scan_event-status v e affected h, scan_events-status v es _ hs)

  insert_event-All :
      (P : RangeEvent → Type 0) (e : RangeEvent) (xs : List RangeEvent)
      → P e
      → All P xs
      → All P (insert_event semver e xs)
  unfolding insert_event
  insert_event-All P e [] h k = (h, tt)
  insert_event-All P e (x ∷ xs) h (k, ks) = elim (Bool-cases (event_less semver e x)) [
    | inl t ↦ rw t (k, insert_event-All P e xs h ks)
    | inr t ↦ rw t (h, (k, ks))
  ]

  sort_events-All :
      (P : RangeEvent → Type 0) (sorted es : List RangeEvent)
      → All P sorted
      → All P es
      → All P (sort_events semver sorted es)
  unfolding sort_events
  sort_events-All P sorted [] h k = h
  sort_events-All P sorted (e ∷ es) h (k, ks) =
      sort_events-All P (insert_event semver e sorted) es (insert_event-All P e sorted k h) ks

  reverse_onto-All :
      (P : RangeEvent → Type 0) (xs acc : List RangeEvent)
      → All P xs
      → All P acc
      → All P (reverse_onto semver xs acc)
  unfolding reverse_onto
  reverse_onto-All P [] acc h k = k
  reverse_onto-All P (x ∷ xs) acc (h, hs) k = reverse_onto-All P xs (x ∷ acc) hs (h, k)

  -- The events as `containsSemver` reads them.
  unfoldable pub in_order : List RangeEvent → List RangeEvent
  in_order es = reverse_onto semver (sort_events semver [] es) []

  contains_semver-in_order :
      (r : Range) (v : Text)
      → is_semver_range r ≡ true
      → r.events ≢ []
      → All IsEvent r.events
      → contains_semver semver r v ≡ last_status (canonicalize_semver v) (in_order r.events) false
  unfolding contains_semver in_order
  contains_semver-in_order r v h ne events = rw h (go r.events ne events)
    where
      go :
          (es : List RangeEvent)
          → es ≢ []
          → All IsEvent es
          → elim es as (λ _. Bool) [
            | [] ↦ true
            | e ∷ es' ↦
                scan_events semver
                  (canonicalize_semver v)
                  (reverse_onto semver (sort_events semver [] (e ∷ es')) [])
                  false
          ]
            ≡ last_status
                (canonicalize_semver v)
                (reverse_onto semver (sort_events semver [] es) [])
                false
      go [] n hs = absurd (n refl)
      go (e ∷ es) n hs =
          scan_events-status (canonicalize_semver v) _ false
            (reverse_onto-All IsEvent _ [] (sort_events-All IsEvent [] (e ∷ es) tt hs) tt)

  -- Sorted backwards: no event is to stand before the one that follows it in the list.
  abbrev pub Backwards : List RangeEvent → Type 0
  Backwards [] = Unit
  Backwards (x ∷ []) = Unit
  Backwards (x ∷ y ∷ xs) = (event_less semver x y ≡ false) × Backwards (y ∷ xs)

  abbrev pub is_zero : RangeEvent → Bool
  unfolding text_eq
  is_zero e = text_eq e.introduced zero_version

  abbrev pub NoZero : List RangeEvent → Type 0
  NoZero = All (λ e. is_zero e ≡ false)

  -- The beginning of time is introduced at most once.
  abbrev pub OneZero : List RangeEvent → Type 0
  OneZero [] = Unit
  OneZero (e ∷ es) = ((is_zero e ≡ false) ⊎ NoZero es) × OneZero es

  module _ (laws : IsOrdered semver) where
    event_less-asym :
        (a b : RangeEvent)
        → (is_zero a ≡ false) ⊎ (is_zero b ≡ false)
        → event_less semver a b ≡ true
        → event_less semver b a ≡ false
    unfolding event_less less_semver text_eq
    event_less-asym a b z h = ground (
      arith,
      laws.cmp_swap (canonicalize_semver (event_version semver a))
          (canonicalize_semver (event_version semver b)),
    )

    insert_event-Backwards :
        (e : RangeEvent) (xs : List RangeEvent)
        → (is_zero e ≡ false) ⊎ NoZero xs
        → Backwards xs
        → Backwards (insert_event semver e xs)
    unfolding insert_event
    insert_event-Backwards e [] z h = tt
    insert_event-Backwards e (x ∷ []) z h = ground (arith, event_less-asym e x)
    insert_event-Backwards e (x ∷ y ∷ xs) z h =
        ground (arith, event_less-asym e x, insert_event-Backwards e (y ∷ xs))

    sort_events-Backwards :
        (sorted es : List RangeEvent)
        → NoZero sorted ⊎ NoZero es
        → OneZero es
        → Backwards sorted
        → Backwards (sort_events semver sorted es)
    unfolding sort_events
    sort_events-Backwards sorted [] z o h = h
    sort_events-Backwards sorted (e ∷ es) z (o, os) h =
        sort_events-Backwards (insert_event semver e sorted) es
          (ground (arith, insert_event-All (λ f. is_zero f ≡ false) e sorted)) os
          (insert_event-Backwards e sorted (ground arith) h)

  insert_event-perm :
      (e : RangeEvent) (xs : List RangeEvent) → Perm (insert_event semver e xs) (e ∷ xs)
  unfolding insert_event
  insert_event-perm e [] = Perm.refl (e ∷ [])
  insert_event-perm e (x ∷ xs) = elim (Bool-cases (event_less semver e x)) [
    | inl t ↦ rw t (Perm.trans (Perm.cons x (insert_event-perm e xs)) (Perm.swap e x xs))
    | inr t ↦ rw t (Perm.refl (e ∷ x ∷ xs))
  ]

  sort_events-perm :
      (sorted es : List RangeEvent) → Perm (sort_events semver sorted es) (es ++ sorted)
  unfolding sort_events
  sort_events-perm sorted [] = Perm.refl sorted
  sort_events-perm sorted (e ∷ es) =
      Perm.trans (sort_events-perm (insert_event semver e sorted) es) (
        Perm.trans (Perm.append (Perm.refl es) (insert_event-perm e sorted))
          (perm_middle es sorted))

  -- The insertion sort of `containsSemver` keeps every event, as often as it occurs, and puts each
  -- event where it is not to stand before an earlier one; the beginning of time is supposed to be
  -- introduced at most once, and versions to be ordered.
  pub sort_events_lem :
      (es : List RangeEvent)
      → IsOrdered semver
      → OneZero es
      → Perm (sort_events semver [] es) es × Backwards (sort_events semver [] es)
  sort_events_lem es laws one =
      (rw append-nil at (sort_events-perm [] es), sort_events-Backwards laws [] es (inl tt) one tt)

  -- An event may stand before another one: it introduces the beginning of time, or the other one does
  -- not and names no lower version.
  abbrev pub MayPrecede : RangeEvent → RangeEvent → Type 0
  MayPrecede x y =
      (x.introduced ≡ codes "0")
      ⊎ ((y.introduced ≢ codes "0")
          × (semver.cmp (canonicalize_semver (version_of x)) (canonicalize_semver (version_of y))
              ≢ Ordering.gt))

  -- Each event may precede the one after it.
  abbrev pub IsSorted : List RangeEvent → Type 0
  IsSorted [] = Unit
  IsSorted (x ∷ []) = Unit
  IsSorted (x ∷ y ∷ xs) = MayPrecede x y × IsSorted (y ∷ xs)

  module _ (laws : IsOrdered semver) where
    not_less-MayPrecede : (x y : RangeEvent) → event_less semver x y ≡ false → MayPrecede y x
    unfolding event_less less_semver event_version
    not_less-MayPrecede x y h = ground (
      arith,
      h,
      text_eq_iff x.introduced (codes "0"),
      text_eq_iff y.introduced (codes "0"),
      laws.cmp_swap (canonicalize_semver (version_of x)) (canonicalize_semver (version_of y)),
    )

    Joined : List RangeEvent → List RangeEvent → Type 0
    Joined [] acc = Unit
    Joined (x ∷ xs) [] = Unit
    Joined (x ∷ xs) (a ∷ acc) = MayPrecede x a

    reverse_onto-IsSorted :
        (xs acc : List RangeEvent)
        → Backwards xs
        → IsSorted acc
        → Joined xs acc
        → IsSorted (reverse_onto semver xs acc)
    unfolding reverse_onto Joined
    reverse_onto-IsSorted [] acc b s j = s
    reverse_onto-IsSorted (x ∷ []) [] b s j = tt
    reverse_onto-IsSorted (x ∷ []) (a ∷ acc) b s j = (j, s)
    reverse_onto-IsSorted (x ∷ y ∷ xs) [] b s j =
        reverse_onto-IsSorted (y ∷ xs) (x ∷ []) b.1 tt (not_less-MayPrecede x y b.0)
    reverse_onto-IsSorted (x ∷ y ∷ xs) (a ∷ acc) b s j =
        reverse_onto-IsSorted (y ∷ xs) (x ∷ a ∷ acc) b.1 (j, s) (not_less-MayPrecede x y b.0)

    Joined-nil : (xs : List RangeEvent) → Joined xs []
    unfolding Joined
    Joined-nil [] = tt
    Joined-nil (x ∷ xs) = tt

    reverse_onto-perm : (xs acc : List RangeEvent) → Perm (reverse_onto semver xs acc) (xs ++ acc)
    unfolding reverse_onto
    reverse_onto-perm [] acc = Perm.refl acc
    reverse_onto-perm (x ∷ xs) acc =
        Perm.trans (reverse_onto-perm xs (x ∷ acc)) (perm_middle xs acc)

    -- Let a range of semantic versions have some events, each with one of its two versions, the
    -- beginning of time introduced at most once, and let versions be ordered. The events can be put in
    -- an order, the beginning of time first and then by their versions, so that the range contains a
    -- version exactly if the last event that happened at or before it is an introduction.
    pub contains_semver-last :
        (r : Range) (v : Text)
        → is_semver_range r ≡ true
        → r.events ≢ []
        → All IsEvent r.events
        → OneZero r.events
        → (es : List RangeEvent) × Perm es r.events
          × IsSorted es
          × (contains_semver semver r v ≡ last_status (canonicalize_semver v) es false)
    unfolding in_order
    contains_semver-last r v h ne events one =
        let (perm, back) = sort_events_lem r.events laws one in
        let sorted = sort_events semver [] r.events in
        (
          in_order r.events,
          Perm.trans (rw append-nil at (reverse_onto-perm sorted [])) perm,
          reverse_onto-IsSorted sorted [] back tt (Joined-nil sorted),
          contains_semver-in_order r v h ne events,
        )
