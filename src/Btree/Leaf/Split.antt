-- ===== src/Btree/Leaf/Split.antt =====
-- `nodeSplit2`: the two halves hold the entries of the node.
use svacara_db.Prelude.{
  ℕ, zero, suc, ◌+◌, ◌-◌, ◌*◌, ◌/◌, ◌^◌, ◌≤◌, ◌≡◌, refl, sym, ap, ◌∙◌, arith, true, false, ◌&&◌,
  List, [], ◌∷◌, length, length-take, length-drop, take, drop, drop-get_elem?, get_elem?, some, ltb,
  Bool-cases, if◌then◌else◌, inl, inr, Outcome, ok, bind_assoc, ◌>>=◌,
}
use mathlib.Core.Path.{subst}
use svacara_db.Btree.Page.{Page}
use svacara_db.Btree.Node.{u16, nbytes, set_header, node_append_range}
use svacara_db.Btree.Node.Layout.{Entry, kv_size, total, IsNode, IsPartial}
use svacara_db.Btree.Node.Read.{
  nkeys-IsPartial, btype-IsPartial, kv_pos-IsPartial, get_key-IsPartial, get_val-IsPartial,
}
use svacara_db.Btree.Node.Append.{Built, Built-cast, node_append_range-Built}
use svacara_db.Btree.Insert.{sub16, split_loop, node_split2}
use svacara_db.Btree.Leaf.{set_header-Built, Built-bind, take-full}

-- The number of entries that the loop of `nodeSplit2` leaves in the left node: it stops before the
-- first entry, but the very first, with which they would take more than half of the bytes.
abbrev pub left_count : ℕ → ℕ → ℕ → List Entry → ℕ
left_count half i accum [] = i
left_count half i accum (e ∷ es) =
    let more = left_count half (suc i) (accum + kv_size e) es in
    if ltb half (accum + kv_size e) && ltb 0 i then i else more

pub left_count-le :
    (half i accum : ℕ) (es : List Entry) → left_count half i accum es ≤ i + length es
left_count-le half i accum [] = omega arith
left_count-le half i accum (e ∷ es) =
    ground (arith, left_count-le half (suc i) (accum + kv_size e) es)

pub nbytes-IsNode :
    (p : Page) (type : ℕ) (es : List Entry)
    → IsNode p type es
    → nbytes p ≡ ok (4 + 10 * length es + total es)
unfolding nbytes
nbytes-IsNode p type es h =
    rw (nkeys-IsPartial p type (length es) es h) (kv_pos-IsPartial p type (length es) es h)

drop-end : (i : ℕ) (es : List Entry) → length es ≤ i → drop i es ≡ []
drop-end zero [] l = refl
drop-end zero (e ∷ es) l = absurd (omega arith)
drop-end (suc i) [] l = refl
drop-end (suc i) (e ∷ es) l = drop-end i es (omega arith)

module _ (p : Page) (type : ℕ) (es : List Entry) (h : IsNode p type es) (total_bytes : ℕ) where
  -- A round of the loop, at the entry it reads.
  split_round :
      (left i accum : ℕ) (e : Entry) (next : ℕ)
      → get_elem? es i ≡ some e
      → u16 (accum + u16 (4 + u16 (length e.key) + u16 (length e.val))) ≡ next
      → split_loop p total_bytes i accum (suc left)
        ≡ (elim (ltb (total_bytes / 2) next && ltb 0 i) [
          | true ↦ ok i
          | false ↦ split_loop p total_bytes (i + 1) next left
        ])
  unfolding split_loop
  split_round left i accum e next at size =
      rw
        (
          split_loop,
          get_key-IsPartial p type (length es) es h i e at,
          get_val-IsPartial p type (length es) es h i e at,
        )
        (ap
          (λ k. elim (ltb (total_bytes / 2) k && ltb 0 i) [
            | true ↦ ok i
            | false ↦ split_loop p total_bytes (i + 1) k left
          ])
          size)

  split_loop-count :
      (left i accum : ℕ)
      → i + left ≡ length es
      → accum + total (drop i es) ≤ 2 ^ 15
      → split_loop p total_bytes i accum left
        ≡ ok (left_count (total_bytes / 2) i accum (drop i es))
  unfolding split_loop
  split_loop-count zero i accum l f =
      sym (ap (λ l. ok (left_count (total_bytes / 2) i accum l)) (drop-end i es (omega arith)))
  split_loop-count (suc left) i accum l f =
      let (e, at, cut) = drop-get_elem? es i (omega arith) in
      let sum : total (drop i es) ≡ kv_size e + total (drop (suc i) es) = ap total cut in
      let size : u16 (accum + u16 (4 + u16 (length e.key) + u16 (length e.val)))
          ≡ accum + kv_size e =
        omega arith in
      let round = split_round left i accum e (accum + kv_size e) at size in
      let spec = sym (ap (λ l. ok (left_count (total_bytes / 2) i accum l)) cut) in
      let later = split_loop-count left (suc i) (accum + kv_size e) (omega arith) (omega arith) in
      round ∙ split_step left i accum e later ∙ spec
    where
      split_step :
          (left i accum : ℕ) (e : Entry)
          → split_loop p total_bytes (suc i) (accum + kv_size e) left
            ≡ ok (left_count (total_bytes / 2) (suc i) (accum + kv_size e) (drop (suc i) es))
          → (elim (ltb (total_bytes / 2) (accum + kv_size e) && ltb 0 i) [
            | true ↦ ok i
            | false ↦ split_loop p total_bytes (i + 1) (accum + kv_size e) left
          ])
            ≡ ok (left_count (total_bytes / 2) i accum (e ∷ drop (suc i) es))
      split_step left i accum e later =
          elim (Bool-cases (ltb (total_bytes / 2) (accum + kv_size e) && ltb 0 i)) [
            | inl t ↦ rw t refl
            | inr t ↦ rw t (
                ap (λ k. split_loop p total_bytes k (accum + kv_size e) left) (omega arith) ∙ later)
          ]

-- The two nodes that a split gives.
pub record Halves (left_size right_size type : ℕ) (ls rs : List Entry) (o : Outcome (Page × Page))
    : Type 0 where
  pub left_page : Page
  pub right_page : Page
  pub run : o ≡ ok (left_page, right_page)
  pub left_node : IsNode left_page type ls
  pub right_node : IsNode right_page type rs
  pub left_same : left_page.size ≡ left_size
  pub right_same : right_page.size ≡ right_size

-- The number of entries that `nodeSplit2` leaves on the left.
abbrev pub cut_at : List Entry → ℕ
cut_at es = left_count ((4 + 10 * length es + total es) / 2) 0 0 es

-- A header and a run of entries of another node.
copied-Built :
    (new old : Page) (type src k : ℕ) (os : List Entry)
    → IsNode old type os
    → src + k ≤ length os
    → 4 + 10 * k + total (take k (drop src os)) ≤ new.size
    → new.size ≤ 2 ^ 15
    → Built new.size type k
        (take k (drop src os))
        (set_header new type k >>= λ new1. node_append_range new1 old 0 src k)
copied-Built new old type src k os o l f s =
    Built-bind (set_header-Built new type k o.type_small (omega arith) s) λ p h same.
      node_append_range-Built k p old type k type src [] os h o (omega arith) (omega arith)
        (omega arith)

as_node :
    (p : Page) (type k : ℕ) (es : List Entry)
    → length es ≡ k
    → IsPartial p type k es
    → IsNode p type es
as_node p type k es l h = subst (λ n. IsPartial p type n es) (sym l) h

both :
    Outcome Page
    → (Page → Outcome Page)
    → Outcome Page
    → (Page → Outcome Page)
    → Outcome (Page × Page)
both a f b g = do l ← a; m ← f l; r ← b; n ← g r; ok (m, n)

both-ok :
    (a : Outcome Page) (f : Page → Outcome Page) (b : Outcome Page) (g : Page → Outcome Page)
    (x y : Page)
    → (a >>= f) ≡ ok x
    → (b >>= g) ≡ ok y
    → both a f b g ≡ ok (x, y)
unfolding both
both-ok a f b g x y p q =
    let second : (m : Page) → Outcome (Page × Page) = λ m. do r ← b; n ← g r; ok (m, n)
    in bind_assoc a f second
      ∙ ap (λ z. z >>= second) p
      ∙ bind_assoc b g (λ n. ok (x, n))
      ∙ ap (λ z. z >>= λ n. ok (x, n)) q

split_run :
    (left right old : Page) (type : ℕ) (es : List Entry)
    → IsNode old type es
    → (l r : Page)
    → (set_header left type (cut_at es) >>= λ p. node_append_range p old 0 0 (cut_at es)) ≡ ok l
    → (set_header right type (length es - cut_at es) >>= λ p.
        node_append_range p old 0 (cut_at es) (length es - cut_at es))
      ≡ ok r
    → node_split2 left right old ≡ ok (l, r)
unfolding node_split2 both
split_run left right old type es o l r first second =
    let inside = left_count-le ((4 + 10 * length es + total es) / 2) 0 0 es in
    let k : sub16 (length es) (cut_at es) ≡ length es - cut_at es =
      omega (arith, o.fits, o.size_small) in
    let cut : split_loop old (4 + 10 * length es + total es) 0 0 (length es) ≡ ok (cut_at es) =
      split_loop-count old type es o (4 + 10 * length es + total es) (length es) 0 0 (omega arith)
        (omega (arith, o.fits, o.size_small)) in
    rw
      (
        node_split2,
        nkeys-IsPartial old type (length es) es o,
        nbytes-IsNode old type es o,
        cut,
        btype-IsPartial old type (length es) es o,
        k,
      )
      (both-ok (set_header left type (cut_at es)) (λ p. node_append_range p old 0 0 (cut_at es))
        (set_header right type (length es - cut_at es))
        (λ p. node_append_range p old 0 (cut_at es) (length es - cut_at es)) l r first second)

-- `nodeSplit2` of a page that holds entries ends, and its nodes hold these entries, in order,
-- if both halves fit into their pages, of at most 32768 bytes.
pub node_split2-Halves :
    (left right old : Page) (type : ℕ) (es : List Entry)
    → IsNode old type es
    → 4 + 10 * cut_at es + total (take (cut_at es) es) ≤ left.size
    → 4 + 10 * (length es - cut_at es) + total (drop (cut_at es) es) ≤ right.size
    → left.size ≤ 2 ^ 15
    → right.size ≤ 2 ^ 15
    → Halves left.size right.size type
        (take (cut_at es) es)
        (drop (cut_at es) es)
        (node_split2 left right old)
node_split2-Halves left right old type es o fl fr sl sr =
    let s = cut_at es in
    let inside : s ≤ length es =
      omega (arith, left_count-le ((4 + 10 * length es + total es) / 2) 0 0 es) in
    let full : take (length es - s) (drop s es) ≡ drop s es =
      take-full (length es - s) (drop s es) (omega (arith, length-drop s es)) in
    let more : total (take (length es - s) (drop s es)) ≡ total (drop s es) = ap total full in
    let first = copied-Built left old type 0 s es o (omega arith) fl sl in
    let second =
      Built-cast full refl
        (copied-Built right old type s (length es - s) es o (omega arith) (omega arith) sr) in
    record {
      left_page = first.page;
      right_page = second.page;
      run = split_run left right old type es o first.page second.page first.run second.run;
      left_node =
          as_node first.page type s (take s es) (length-take s es ∙ omega arith) first.partial;
      right_node =
          as_node second.page type (length es - s) (drop s es) (length-drop s es) second.partial;
      left_same = first.same_size;
      right_same = second.same_size;
    }

-- The first entries stay on the left as long as they take no more than half of the bytes.
left_count-all :
    (half i accum : ℕ) (es : List Entry)
    → accum + total es ≤ half
    → left_count half i accum es ≡ i + length es
left_count-all half i accum [] l = omega arith
left_count-all half i accum (e ∷ es) l =
    ground (arith, left_count-all half (suc i) (accum + kv_size e) es)

-- If the pairs of a node take no more bytes than its header, pointers and offsets,
-- `nodeSplit2` leaves all the entries in the left node, and none goes to the right one. The
-- left page has room for them.
pub node_split2-all_left :
    (left right old : Page) (type : ℕ) (es : List Entry)
    → IsNode old type es
    → total es ≤ 4 + 10 * length es
    → 4 + 10 * length es + total es ≤ left.size
    → 4 ≤ right.size
    → left.size ≤ 2 ^ 15
    → right.size ≤ 2 ^ 15
    → Halves left.size right.size type es [] (node_split2 left right old)
node_split2-all_left left right old type es o few fl fr sl sr =
    let all : cut_at es ≡ length es =
      omega (arith, left_count-all ((4 + 10 * length es + total es) / 2) 0 0 es (omega arith)) in
    let kept_all : take (cut_at es) es ≡ es = take-full (cut_at es) es (omega (arith, all)) in
    let none_left : drop (cut_at es) es ≡ [] = drop-end (cut_at es) es (omega (arith, all)) in
    let room = ap total kept_all in
    let rest = ap total none_left in
    subst (λ l. Halves left.size right.size type l [] (node_split2 left right old)) kept_all
      (subst
        (λ r. Halves left.size right.size type (take (cut_at es) es) r (node_split2 left right old))
        none_left
        (node_split2-Halves left right old type es o (omega (arith, all, room))
          (omega (arith, all, rest)) sl sr))
