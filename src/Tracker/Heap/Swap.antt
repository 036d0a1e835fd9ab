-- ===== src/Tracker/Heap/Swap.antt =====
-- `entryHeap.Swap` of pkg/ttlcleaner/tracker.go: what it keeps, and what the sift loops need of it.
use opn_box.Base.{
  ℕ, ◌<◌, ◌≡◌, refl, sym, ap, ◌∙◌, some, length, set, arith, ◌==◌, if◌then◌else◌, length-set,
}
use opn_box.Tracker.Refs.{ref_at, count, get_elem?-ref_at, ref_at-set, count-set, IsDistinct}
use opn_box.Tracker.Queue.{Entry, place, popped, Ref, EntryHeap, swap, set_index}

-- The expiry at a place of the queue.
abbrev pub key : EntryHeap → ℕ → ℕ
key h c = (h.entry (ref_at h.pq c)).expire_at

-- All of an entry but its place.
abbrev pub payload : Entry → Entry
payload e = record e { index = popped }

abbrev pub IsIndexed : EntryHeap → Type 0
IsIndexed h = (c : ℕ) → c < length h.pq → (h.entry (ref_at h.pq c)).index ≡ place c

-- `b` holds the references of `a`, in some order, and no entry differs but in its place.
pub record Rearranged (a b : EntryHeap) : Type 0 where
  pub size : length b.pq ≡ length a.pq
  pub same : (r : Ref) → count r b.pq ≡ count r a.pq
  pub kept : (r : Ref) → payload (b.entry r) ≡ payload (a.entry r)

pub Rearranged-refl : (a : EntryHeap) → Rearranged a a
Rearranged-refl a = record { size = refl; same = λ r. refl; kept = λ r. refl }

pub Rearranged-trans : {a b c : EntryHeap} → Rearranged a b → Rearranged b c → Rearranged a c
Rearranged-trans p q = record {
  size = q.size ∙ p.size;
  same = λ r. q.same r ∙ p.same r;
  kept = λ r. q.kept r ∙ p.kept r;
}

place_injective : {a b : ℕ} → place a ≡ place b → a ≡ b
place_injective h = cc

pub IsIndexed-IsDistinct : (h : EntryHeap) → IsIndexed h → IsDistinct h.pq
IsIndexed-IsDistinct h v i j p q e =
    place_injective (sym (v i p) ∙ ap (λ (r : ℕ). (h.entry r).index) e ∙ v j q)

unfoldable pub swapped : EntryHeap → ℕ → ℕ → EntryHeap
swapped h i j =
    let x = ref_at h.pq i in
    let y = ref_at h.pq j in
    record {
      pq = set (set h.pq i y) j x;
      entry = set_index (set_index h.entry y (place i)) x (place j);
    }

module _ (h : EntryHeap) (i j : ℕ) (p : i < length h.pq) (q : j < length h.pq) where
  pub swap-eq : swap h i j ≡ some (swapped h i j)
  unfolding swap swapped
  swap-eq = rw (get_elem?-ref_at h.pq i p, get_elem?-ref_at h.pq j q)

  pub length-swapped : length (swapped h i j).pq ≡ length h.pq
  unfolding swapped
  length-swapped =
      length-set (set h.pq i (ref_at h.pq j)) j (ref_at h.pq i) ∙ length-set h.pq i (ref_at h.pq j)

  pub ref_at-swapped :
      (c : ℕ)
      → ref_at (swapped h i j).pq c
        ≡ (if j == c then ref_at h.pq i else if i == c then ref_at h.pq j else ref_at h.pq c)
  unfolding swapped
  ref_at-swapped c = rw (
    ref_at-set (set h.pq i (ref_at h.pq j)) j c (ref_at h.pq i) (rw length-set q),
    ref_at-set h.pq i c (ref_at h.pq j) p,
  )

  pub payload-swapped : (r : Ref) → payload ((swapped h i j).entry r) ≡ payload (h.entry r)
  unfolding swapped
  payload-swapped r = ground arith

  pub key-swapped :
      (c : ℕ)
      → key (swapped h i j) c ≡ (if j == c then key h i else if i == c then key h j else key h c)
  key-swapped c =
      ap (λ (e : Entry). e.expire_at) (payload-swapped (ref_at (swapped h i j).pq c))
      ∙ ground (arith, ref_at-swapped c)

  count-swapped : (r : Ref) → count r (swapped h i j).pq ≡ count r h.pq
  unfolding swapped
  count-swapped r = ground (
    arith,
    count-set r h.pq i (ref_at h.pq j) p,
    count-set r (set h.pq i (ref_at h.pq j)) j (ref_at h.pq i),
    length-set h.pq i (ref_at h.pq j),
    ref_at-set h.pq i j (ref_at h.pq j) p,
  )

  pub swapped-Rearranged : Rearranged h (swapped h i j)
  swapped-Rearranged = record {
    size = length-swapped;
    same = count-swapped;
    kept = payload-swapped;
  }

  pub swapped-IsIndexed : IsIndexed h → IsIndexed (swapped h i j)
  unfolding swapped
  swapped-IsIndexed v c l =
      let inside : c < length h.pq = omega (arith, length-swapped) in
      let d = IsIndexed-IsDistinct h v in
      ground (arith, ref_at-swapped c, v c inside, d c i inside p, d c j inside q, d i j p q)
