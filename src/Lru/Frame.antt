-- ===== src/Lru/Frame.antt =====
-- Lists over one slab that share no node do not disturb one another.
use walde.Base.{ℕ, refl, List, ◌∉◌, Disjoint, AllBelow, arith, sym, subst, ◌∙◌}
use walde.Types.{invalid_index}
use walde.Slab.{Slab}
use walde.Slab.FreeList.{IsFree}
use walde.Lru.{IntrusiveLru}
use walde.Lru.Links.{IsLru, Relinked, Linked-frame}

pub Relinked-refl : (xs : List ℕ) (s : Slab) → Relinked xs s s
Relinked-refl xs s = record {
  capacity = refl;
  free_next = refl;
  head = refl;
  free_count = refl;
  outside = λ a o. refl;
  key = λ a. refl;
  value = λ a. refl;
  segment = λ a. refl;
}

pub Relinked-mono :
    (xs ys : List ℕ) {s t : Slab} → ((a : ℕ) → a ∉ ys → a ∉ xs) → Relinked xs s t → Relinked ys s t
Relinked-mono xs ys sub r = record {
  capacity = r.capacity;
  free_next = r.free_next;
  head = r.head;
  free_count = r.free_count;
  outside = λ a o. r.outside a (sub a o);
  key = r.key;
  value = r.value;
  segment = r.segment;
}

pub Relinked-trans :
    (xs : List ℕ) {s t u : Slab} → Relinked xs s t → Relinked xs t u → Relinked xs s u
Relinked-trans xs p q = record {
  capacity = q.capacity ∙ p.capacity;
  free_next = q.free_next ∙ p.free_next;
  head = q.head ∙ p.head;
  free_count = q.free_count ∙ p.free_count;
  outside = λ a o. q.outside a o ∙ p.outside a o;
  key = λ a. q.key a ∙ p.key a;
  value = λ a. q.value a ∙ p.value a;
  segment = λ a. q.segment a ∙ p.segment a;
}

-- A list is kept by every operation on nodes that are not its own.
pub IsLru-frame :
    (ws zs : List ℕ) {s t : Slab} {l : IntrusiveLru}
    → Relinked zs s t
    → Disjoint ws zs
    → IsLru s l ws
    → IsLru t l ws
IsLru-frame ws zs {s} {t} r apart lru = record {
  linked =
      Linked-frame t.pool s.pool invalid_index invalid_index ws (λ a m. r.outside a (apart a m))
        lru.linked;
  head = lru.head;
  tail = lru.tail;
  size = lru.size;
  distinct = lru.distinct;
  below = subst (λ n. AllBelow n ws) (sym r.capacity) lru.below;
}

-- List operations leave the free list alone.
pub IsFree-frame : (zs fs : List ℕ) {s t : Slab} → Relinked zs s t → IsFree s fs → IsFree t fs
IsFree-frame zs fs {s} {t} r f = record {
  chain = rw (r.free_next, r.head) f.chain;
  distinct = f.distinct;
  below = subst (λ n. AllBelow n fs) (sym r.capacity) f.below;
  count = r.free_count ∙ f.count;
  small = omega (arith, r.capacity, f.small);
}
