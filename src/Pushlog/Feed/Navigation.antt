-- ===== src/Pushlog/Feed/Navigation.antt =====
-- The pages that the navigation links.
use Prim.Native.Nat.{max, min}
use version_control_tools_fx.Base.{
  ℕ, suc, zero, ◌+◌, ◌-◌, ◌≤◌, List, [], ◌∷◌, ◌++◌, All, ◌==◌, arith, Bool-cases, inl, inr,
  if◌then◌else◌,
}
use version_control_tools_fx.Pushlog.Feed.{
  Link, link, first_page, prev_page, next_page, last_page, numpages, links_from, pushlog_changenav,
}

-- A page from 1 to the last.
abbrev pub IsPage : ℕ → Link → Type 0
IsPage total l = (1 ≤ l.page) × (l.page ≤ numpages total)

All-append : (P : Link → Type 0) (xs ys : List Link) → All P xs → All P ys → All P (xs ++ ys)
All-append P [] ys h k = k
All-append P (x ∷ xs) ys h k = (h.0, All-append P xs ys h.1 k)

links_from-IsPage :
    (total start k : ℕ)
    → 1 ≤ start
    → start + k ≤ numpages total + 1
    → All (IsPage total) (links_from start k)
unfolding links_from
links_from-IsPage total start zero h e = tt
links_from-IsPage total start (suc k) h e = (
  (h, omega (arith, e)),
  links_from-IsPage total (suc start) k (omega (arith, h)) (omega (arith, e)),
)

back_links-IsPage :
    (total page : ℕ)
    → 1 ≤ page
    → page ≤ numpages total
    → All
        (IsPage total)
        (if page == 1 then [] else link first_page 1 ∷ link prev_page (page - 1) ∷ [])
back_links-IsPage total page low high = elim (Bool-cases (page == 1)) [
  | inl one ↦ rw one tt
  | inr more ↦ rw more (
    (omega arith, omega (arith, low, high)),
    ((ground (arith, more, low), omega (arith, high)), tt),
  )
]

forward_links-IsPage :
    (total page : ℕ)
    → 1 ≤ page
    → page ≤ numpages total
    → All (IsPage total) (
        if page == numpages total
        then []
        else link next_page (page + 1) ∷ link last_page (numpages total) ∷ [])
forward_links-IsPage total page low high = elim (Bool-cases (page == numpages total)) [
  | inl last ↦ rw last tt
  | inr more ↦ rw more (
    (omega (arith, low), ground (arith, more, high)),
    ((omega (arith, low, high), omega arith), tt),
  )
]

-- From a page that is there, each link leads to a page that is there.
changenav-IsPage :
    (total page : ℕ)
    → 1 ≤ page
    → page ≤ numpages total
    → All (IsPage total) (pushlog_changenav total page)
unfolding pushlog_changenav
changenav-IsPage total page low high =
    All-append (IsPage total) _ _
      (All-append (IsPage total) _ _ (back_links-IsPage total page low high) (
        links_from-IsPage total (max 1 (page - 5))
          (min (numpages total + 1) (page + 5) - max 1 (page - 5)) (omega arith)
          (omega (arith, low, high))))
      (forward_links-IsPage total page low high)
