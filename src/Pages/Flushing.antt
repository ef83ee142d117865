-- ===== src/Pages/Flushing.antt =====
-- `FlushPages`: where the new pages go in the buffer that is written behind the flushed pages.
use svacara_db.Prelude.{
  ℕ, zero, suc, ◌+◌, ◌-◌, ◌*◌, ◌<◌, ◌≡◌, refl, ap, ◌∙◌, arith, true, false, some, List, [], ◌∷◌,
  All, get_elem?, ltb,
}
use svacara_db.Btree.Page.{Page}
use svacara_db.Pages.Manager.{joined}

-- The byte of the first page, and of a page behind it.
joined-head : (p : Page) (ps : List Page) (j : ℕ) → j < p.size → (joined (p ∷ ps)).byte j ≡ p.byte j
unfolding joined
joined-head p ps j l = let inside : ltb j p.size ≡ true = ground arith in rw inside refl

joined-tail :
    (p : Page) (ps : List Page) (j : ℕ) → (joined (p ∷ ps)).byte (p.size + j) ≡ (joined ps).byte j
unfolding joined
joined-tail p ps j =
    let behind : ltb (p.size + j) p.size ≡ false = ground arith in
    let place : p.size + j - p.size ≡ j = omega arith in rw (behind, place) refl

-- If all the new pages have 4096 bytes, page `i` of them is in its place, `i` pages behind the first.
pub joined-page :
    (ps : List Page) (i j : ℕ) (p : Page)
    → All (λ q. q.size ≡ 4096) ps
    → get_elem? ps i ≡ some p
    → j < 4096
    → (joined ps).byte (4096 * i + j) ≡ p.byte j
joined-page [] i j p a h l = absurd (ground arith)
joined-page (q ∷ ps) zero j p (s, a) h l =
    let same : q ≡ p = ground arith in
    ap (joined (q ∷ ps)).byte (omega arith)
    ∙ joined-head q ps j (omega (arith, s))
    ∙ ap (λ x. x.byte j) same
joined-page (q ∷ ps) (suc i) j p (s, a) h l =
    ap (joined (q ∷ ps)).byte (omega (arith, s))
    ∙ joined-tail q ps (4096 * i + j)
    ∙ joined-page ps i j p a h l
