-- ===== src/Frontend/Paginate/Pages.antt =====
-- What the numbers of a page of results mean.
use native.Mathlib.Nat.{le-div_iff_mul-le}
use pkgsite.Prelude.{
  ℕ, zero, suc, ◌+◌, ◌-◌, ◌*◌, ◌/◌, ◌≤◌, ◌<◌, true, false, List, [], ◌∷◌, ◌≡◌, ◌⊎◌, inl, inr, refl,
  ap, ◌∙◌, arith, ltb, leb, Bool-cases, if◌then◌else◌,
}
use pkgsite.Prelude.Int.{ℤ, pos, negsuc, ◌+ℤ◌, ◌-ℤ◌, ◌*ℤ◌, ltb_ℤ}
use pkgsite.Frontend.Paginate.{
  div_ℤ, leb_ℤ, num_pages, offset, next, first_page, link_loop, pages_to_link,
}

-- The numbers from s on, m of them.
abbrev pub up : ℕ → ℕ → List ℤ
up s zero = []
up s (suc m) = pos s ∷ up (s + 1) m

link_loop-up :
    (n m i t : ℕ)
    → m ≤ n
    → (n ≡ m) ⊎ (i + m ≡ t + 1)
    → i + m ≤ t + 1
    → link_loop n (pos i) (pos t) ≡ up i m
unfolding link_loop leb_ℤ ◌+ℤ◌
link_loop-up zero zero i t h e b = refl
link_loop-up (suc n) zero i t h e b = ground arith
link_loop-up zero (suc m) i t h e b = ground arith
link_loop-up (suc n) (suc m) i t h e b =
    let within : leb_ℤ (pos i) (pos t) ≡ true = ground arith in
    let one_up : pos i +ℤ pos 1 ≡ pos (i + 1) = ground arith in
    rw (link_loop, within, one_up)
      (ap (λ l. pos i ∷ l) (link_loop-up n m (i + 1) t (omega arith) (ground arith) (omega arith)))

half-lt : (n : ℕ) → 0 < n → n / 2 < n
half-lt n h = omega arith

-- `pagesToLink` after its first line.
abbrev after_start : ℕ → ℕ → ℤ → ℤ
after_start t n start =
    let start' = if ltb_ℤ (pos t -ℤ start) (pos n) then pos t -ℤ pos n +ℤ pos 1 else start in
    if ltb_ℤ start' (pos 1) then pos 1 else start'

after_start_pos :
    (t n s : ℕ)
    → after_start t n (pos s)
      ≡ pos (let s' = if ltb t (n + s) then t + 1 - n else s in if ltb s' 1 then 1 else s')
unfolding ◌+ℤ◌ ◌-ℤ◌
after_start_pos t n s = ground arith

after_start_negsuc : (t n s : ℕ) → after_start t n (negsuc s) ≡ pos 1
unfolding ◌+ℤ◌ ◌-ℤ◌
after_start_negsuc t n s = ground arith

first_page-between :
    (p t n : ℕ)
    → 0 < n
    → 0 < p
    → p ≤ t
    → (s : ℕ) × (first_page (pos p) (pos t) (pos n) ≡ pos s)
      × (0 < s)
      × (s ≤ p)
      × (p < s + n)
      × (((s + n ≤ t + 1) × (n ≤ t)) ⊎ ((s ≡ 1) × (t < n)))
unfolding first_page div_ℤ ◌-ℤ◌
first_page-between p t n hn hp ht =
    let half = half-lt n hn in
    elim (Bool-cases (leb (n / 2) p)) [
      | inl h ↦
          let start : pos p -ℤ pos (n / 2) ≡ pos (p - n / 2) = ground arith in
          (
            _,
            ap (after_start t n) start ∙ after_start_pos t n (p - n / 2),
            ground arith,
            ground arith,
            ground arith,
            ground arith,
          )
      | inr h ↦
          let start : pos p -ℤ pos (n / 2) ≡ negsuc (n / 2 - p - 1) = ground arith in
          (
            1,
            ap (after_start t n) start ∙ after_start_negsuc t n _,
            ground arith,
            ground arith,
            ground arith,
            ground arith,
          )
    ]

-- The pages to link to: consecutive numbers in ascending order, of which the current page is one,
-- from 1 to the number of pages, the last included; as many as asked for, or all pages if they are
-- fewer. The page asked for must exist and some number of links be asked for.
pub pages_to_link-up :
    (p t n : ℕ)
    → 0 < n
    → 0 < p
    → p ≤ t
    → (s m : ℕ) × (pages_to_link (pos p) (pos t) (pos n) ≡ up s m)
      × (0 < s)
      × (s ≤ p)
      × (p < s + m)
      × (s + m ≤ t + 1)
      × (m ≡ (if leb n t then n else t))
unfolding pages_to_link
pages_to_link-up p t n hn hp ht =
    let (s, start, positive, before, near, fits) = first_page-between p t n hn hp ht in
    let m = if leb n t then n else t in
    (
      s,
      m,
      rw (pages_to_link, start) (link_loop-up n m s t (ground arith) (ground arith) (ground arith)),
      positive,
      before,
      ground arith,
      ground arith,
      refl,
    )

num_pages_lem : (l t : ℕ) → 0 < l → num_pages (pos l) (pos t) ≡ pos ((t + l - 1) / l)
unfolding num_pages div_ℤ ◌+ℤ◌ ◌-ℤ◌
num_pages_lem l t h =
    let sum : pos t +ℤ pos l -ℤ pos 1 ≡ pos (t + l - 1) = ground arith in
    ap (λ z. div_ℤ z (pos l)) sum

offset_lem : (p l : ℕ) → 0 < p → offset (pos (p + 1)) (pos l) ≡ pos (p * l)
unfolding offset leb_ℤ ◌-ℤ◌ ◌*ℤ◌
offset_lem p l h =
    let later : leb_ℤ (pos (p + 1)) (pos 1) ≡ false = ground arith in
    let less : pos (p + 1) -ℤ pos 1 ≡ pos p = ground arith in
    rw (offset, later, less) (ground arith)

-- For a positive page and a positive limit, `next` is the page's successor just if that page's
-- first result is one of the results, and otherwise 0.
pub next-offset :
    (p l t : ℕ)
    → 0 < l
    → 0 < p
    → ((next (pos p) (pos l) (pos t) ≡ pos (p + 1))
        × (ltb_ℤ (offset (pos (p + 1)) (pos l)) (pos t) ≡ true))
      ⊎ ((next (pos p) (pos l) (pos t) ≡ pos 0)
          × (ltb_ℤ (offset (pos (p + 1)) (pos l)) (pos t) ≡ false))
unfolding next leb_ℤ ◌+ℤ◌
next-offset p l t hl hp =
    let whole = le-div_iff_mul-le {k = l} {x = p + 1} {y = (t + l - 1)} hl in
    let product : (p + 1) * l ≡ p * l + l = omega arith in
    elim (Bool-cases (ltb (p * l) t)) [
      | inl more ↦
          let there : p + 1 ≤ (t + l - 1) / l = whole.1 (ground (arith, product)) in
          rw (offset_lem p l hp, next, num_pages_lem l t hl) (inl (ground arith, ground arith))
      | inr none_left ↦
          let gone : ¬ (p + 1 ≤ (t + l - 1) / l) =
            λ h. (let h' = whole.0 h in ground (arith, product)) in
          rw (offset_lem p l hp, next, num_pages_lem l t hl) (inr (ground arith, ground arith))
    ]
