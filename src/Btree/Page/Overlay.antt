-- ===== src/Btree/Page/Overlay.antt =====
-- Reading what was written, and what a write leaves alone.
use svacara_db.Prelude.{
  ℕ, zero, suc, ◌+◌, ◌-◌, ◌^◌, ◌≤◌, ◌<◌, ◌≡◌, refl, ap, ◌∙◌, arith, [], ◌∷◌, length, take, ltb,
  ==_refl, ◌⊎◌, inl, inr, ok, false,
}
use svacara_db.Bytes.{Bytes}
use svacara_db.Bytes.Little.{le_bytes, le_value, le_value-le_bytes}
use svacara_db.Btree.Page.{Page, read, overlay, poke, get_le, put_le, slice, copy_at}

pub overlay-below : (pos : ℕ) (bs : Bytes) (f : ℕ → ℕ) (i : ℕ) → i < pos → overlay pos bs f i ≡ f i
unfolding overlay
overlay-below pos [] f i l = refl
overlay-below pos (b ∷ bs) f i l = ground (arith, overlay-below (suc pos) bs f i)

pub overlay-above :
    (pos : ℕ) (bs : Bytes) (f : ℕ → ℕ) (i : ℕ) → pos + length bs ≤ i → overlay pos bs f i ≡ f i
unfolding overlay
overlay-above pos [] f i l = refl
overlay-above pos (b ∷ bs) f i l = ground (arith, overlay-above (suc pos) bs f i)

-- Two memories that agree on a range read the same there.
pub read-agree :
    (f g : ℕ → ℕ) (pos n : ℕ)
    → ((i : ℕ) → pos ≤ i → i < pos + n → f i ≡ g i)
    → read f pos n ≡ read g pos n
unfolding read
read-agree f g pos zero h = refl
read-agree f g pos (suc n) h =
    ap (λ b. b ∷ read f (suc pos) n) (h pos (omega arith) (omega arith))
    ∙ ap (λ l. g pos ∷ l) (read-agree f g (suc pos) n (λ i a b. h i (omega arith) (omega arith)))

pub length-read : (f : ℕ → ℕ) (pos n : ℕ) → length (read f pos n) ≡ n
unfolding read
length-read f pos zero = refl
length-read f pos (suc n) = ap suc (length-read f (suc pos) n)

overlay-head : (pos b : ℕ) (bs : Bytes) (f : ℕ → ℕ) → overlay pos (b ∷ bs) f pos ≡ b
unfolding overlay
overlay-head pos b bs f = rw (overlay, ==_refl pos) refl

overlay-tail :
    (pos b : ℕ) (bs : Bytes) (f : ℕ → ℕ) (i : ℕ)
    → pos < i
    → overlay pos (b ∷ bs) f i ≡ overlay (suc pos) bs f i
unfolding overlay
overlay-tail pos b bs f i l = ground arith

pub read-overlay : (pos : ℕ) (bs : Bytes) (f : ℕ → ℕ) → read (overlay pos bs f) pos (length bs) ≡ bs
unfolding read
read-overlay pos [] f = refl
read-overlay pos (b ∷ bs) f =
    ap (λ x. x ∷ read (overlay pos (b ∷ bs) f) (suc pos) (length bs)) (overlay-head pos b bs f)
    ∙ ap (λ l. b ∷ l)
        (read-agree (overlay pos (b ∷ bs) f) (overlay (suc pos) bs f) (suc pos) (length bs)
            (λ i a c. overlay-tail pos b bs f i (omega arith))
          ∙ read-overlay (suc pos) bs f)

-- A part of the memory that a write does not reach.
pub read-overlay_apart :
    (pos : ℕ) (bs : Bytes) (f : ℕ → ℕ) (at n : ℕ)
    → (at + n ≤ pos) ⊎ (pos + length bs ≤ at)
    → read (overlay pos bs f) at n ≡ read f at n
read-overlay_apart pos bs f at n (inl l) =
    read-agree (overlay pos bs f) f at n (λ i a b. overlay-below pos bs f i (omega arith))
read-overlay_apart pos bs f at n (inr l) =
    read-agree (overlay pos bs f) f at n (λ i a b. overlay-above pos bs f i (omega arith))

pub get_le-read :
    (n : ℕ) (p : Page) (pos v : ℕ)
    → pos + n ≤ p.size
    → v < 256 ^ n
    → read p.byte pos n ≡ le_bytes n v
    → get_le n p pos ≡ ok v
unfolding get_le
get_le-read n p pos v l b h =
    let inside : ltb p.size (pos + n) ≡ false = ground arith in
    rw (get_le, inside) (ap (λ bs. ok (le_value bs)) h ∙ ap ok (le_value-le_bytes n v b))

pub put_le-ok :
    (n : ℕ) (p : Page) (pos v : ℕ)
    → pos + n ≤ p.size
    → put_le n p pos v ≡ ok (poke p pos (le_bytes n v))
unfolding put_le
put_le-ok n p pos v l =
    let inside : ltb p.size (pos + n) ≡ false = ground arith in rw (put_le, inside) refl

pub slice-ok : (p : Page) (pos n : ℕ) → pos + n ≤ p.size → slice p pos n ≡ ok (read p.byte pos n)
unfolding slice
slice-ok p pos n l =
    let inside : ltb p.size (pos + n) ≡ false = ground arith in rw (slice, inside) refl

take-all : (n : ℕ) (bs : Bytes) → length bs ≤ n → take n bs ≡ bs
take-all zero [] l = refl
take-all zero (b ∷ bs) l = absurd (omega arith)
take-all (suc n) [] l = refl
take-all (suc n) (b ∷ bs) l = ap (λ l. b ∷ l) (take-all n bs (omega arith))

pub copy_at-ok :
    (p : Page) (pos : ℕ) (bs : Bytes)
    → pos + length bs ≤ p.size
    → copy_at p pos bs ≡ ok (poke p pos bs)
unfolding copy_at
copy_at-ok p pos bs l =
    let inside : ltb p.size pos ≡ false = ground arith in
    rw (copy_at, inside) (ap (λ l. ok (poke p pos l)) (take-all (p.size - pos) bs (omega arith)))
