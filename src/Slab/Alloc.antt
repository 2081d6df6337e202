-- ===== src/Slab/Alloc.antt =====
-- `SlabAllocator`: the constructor, `allocate` and `deallocate` against the free list.
use walde.Base.{
  ℕ, zero, suc, ◌≤◌, ◌<◌, ◌≡◌, List, [], ◌∷◌, ◌∉◌, update, some, arith, true, ltb-true, ==_self,
  sym, length-le, fun_ext, ap, ◌∙◌,
}
use walde.Base.Arith.{add32, sub32}
use walde.Types.{invalid_index, reset_node}
use walde.Slab.{
  Slab, fresh, pack, unpack_index, unpack_tag, init, done, retry, allocate, allocate_attempt,
  allocate_loop, deallocate, deallocate_attempt, deallocate_loop,
}
use walde.Slab.Pack.{unpack-pack}
use walde.Slab.FreeList.{
  IsFree, Chain-update, Chain-le, up_from, up_from-below, up_from-Distinct, length-up_from,
  up_from-Chain, available-le-capacity,
}

pub init-IsFree :
    (cap : ℕ)
    → 0 < cap
    → cap ≤ invalid_index
    → (init cap ≡ some (fresh cap)) × IsFree (fresh cap) (up_from 0 cap)
unfolding init
init-IsFree zero h k = absurd (omega arith)
init-IsFree (suc n) h k = (
  ground arith,
  record {
    chain =
        rw (unpack-pack 0 0 (omega arith) (omega arith)).0
          (up_from-Chain (suc n) 0 n (omega arith));
    distinct = up_from-Distinct 0 (suc n);
    below = up_from-below 0 (suc n) (suc n) (omega arith);
    count = sym (length-up_from 0 (suc n));
    small = k;
  },
)

-- The slab once slot `i`, the head of its free list, is taken.
unfoldable pub taken : ℕ → Slab → Slab
taken i s = record s {
  pool = update s.pool i reset_node;
  head = pack (s.free_next i) (add32 (unpack_tag s.head) 1);
  free_count = sub32 s.free_count 1;
}

update_self : (f : ℕ → ℕ) (i v : ℕ) → update f i v i ≡ v
update_self f i v = rw (==_self i)

update_twice : (f : ℕ → ℕ) (i v : ℕ) → update (update f i v) i v ≡ update f i v
update_twice f i v = fun_ext (λ j. ground arith)

-- The node is reset before the loop of `deallocate`.
abbrev pub cleared : ℕ → Slab → Slab
cleared i s = record s { pool = update s.pool i reset_node }

-- The loop itself.
released : ℕ → Slab → Slab
released i s = record s {
  free_next = update s.free_next i (unpack_index s.head);
  head = pack i (add32 (unpack_tag s.head) 1);
  free_count = add32 s.free_count 1;
}

-- The slab once slot `i` is given back.
unfoldable pub given : ℕ → Slab → Slab
unfolding released
given i s = released i (cleared i s)

-- A spurious failure only links the slot once more.
deallocate_attempt-retry :
    (i : ℕ) (s : Slab)
    → deallocate_attempt true i s.head s
      ≡ retry s.head (record s { free_next = update s.free_next i (unpack_index s.head) })
unfolding deallocate_attempt
deallocate_attempt-retry i s = ground arith

deallocate_loop-released :
    (n i : ℕ) (s : Slab) → deallocate_loop n i s.head s ≡ done tt (released i s)
unfolding deallocate_loop
deallocate_loop-released zero i s = unfold deallocate_attempt released in ground arith
deallocate_loop-released (suc n) i s =
    rw (deallocate_attempt-retry i s, deallocate_loop)
      (deallocate_loop-released n i
          (record s { free_next = update s.free_next i (unpack_index s.head) })
        ∙ unfold released in
          ap
            (λ f. done tt (record s {
              free_next = f;
              head = pack i (add32 (unpack_tag s.head) 1);
              free_count = add32 s.free_count 1;
            }))
            (update_twice s.free_next i (unpack_index s.head)))

module _ (s : Slab) (i : ℕ) (fs : List ℕ) where
  pub taken-IsFree : IsFree s (i ∷ fs) → IsFree (taken i s) fs
  unfolding taken
  taken-IsFree f = record {
    chain =
        rw
          (unpack-pack (s.free_next i) (add32 (unpack_tag s.head) 1) (omega (arith, le))
            (omega arith)).0
          f.chain.1;
    distinct = f.distinct.1;
    below = f.below.1;
    count = omega (arith, available-le-capacity f, f.count, f.small);
    small = f.small;
  }
    where
      le : s.free_next i ≤ invalid_index
      le = Chain-le s.free_next s.capacity (s.free_next i) fs f.chain.1 f.below.1 f.small

  taken-tag : IsFree s (i ∷ fs) → unpack_tag (taken i s).head ≡ add32 (unpack_tag s.head) 1
  unfolding taken
  taken-tag f =
      (unpack-pack (s.free_next i) (add32 (unpack_tag s.head) 1) (omega (arith, le))
        (omega arith)).1
    where
      le : s.free_next i ≤ invalid_index
      le = Chain-le s.free_next s.capacity (s.free_next i) fs f.chain.1 f.below.1 f.small

  allocate_loop-taken : (n : ℕ) → IsFree s (i ∷ fs) → allocate_loop n s.head s ≡ done i (taken i s)
  unfolding allocate_loop allocate_attempt taken
  allocate_loop-taken zero f = ground (arith, f.chain.0, f.below.0, f.small)
  allocate_loop-taken (suc n) f =
      ground (arith, f.chain.0, f.below.0, f.small, allocate_loop-taken n f)

  pub given-IsFree : i < s.capacity → i ∉ fs → IsFree s fs → IsFree (given i s) (i ∷ fs)
  unfolding given
  given-IsFree h out f = record {
    chain = (
      head_i,
      rw (update_self s.free_next i (unpack_index s.head))
          (Chain-update s.free_next i (unpack_index s.head) (unpack_index s.head) fs out f.chain),
    );
    distinct = (out, f.distinct);
    below = (h, f.below);
    count =
        omega
          (arith, length-le s.capacity (i ∷ fs) (h, f.below) (out, f.distinct), f.count, f.small);
    small = f.small;
  }
    where
      head_i : unpack_index (pack i (add32 (unpack_tag s.head) 1)) ≡ i
      head_i =
          (unpack-pack i (add32 (unpack_tag s.head) 1) (omega (arith, f.small)) (omega arith)).0

  -- With free slots `allocate` hands out the head of the free list, resets its node and goes on to
  -- the next tag; any number of spurious failures of the compare-exchange changes nothing.
  pub allocate-taken :
      (n : ℕ)
      → IsFree s (i ∷ fs)
      → (allocate_loop n s.head s ≡ done i (taken i s))
        × (allocate s ≡ some (i, taken i s))
        × IsFree (taken i s) fs
        × (unpack_tag (taken i s).head ≡ add32 (unpack_tag s.head) 1)
  unfolding allocate
  allocate-taken n f =
      (allocate_loop-taken n f, rw (allocate_loop-taken 0 f), taken-IsFree f, taken-tag f)

  -- A slot that is in use is given back: its node is reset, it becomes the head of the free list
  -- and the tag goes on; any number of spurious failures changes nothing.
  pub deallocate-given :
      (n : ℕ)
      → i < s.capacity
      → i ∉ fs
      → IsFree s fs
      → (deallocate_loop n i s.head (cleared i s) ≡ done tt (given i s))
        × (deallocate i s ≡ some (tt, given i s))
        × IsFree (given i s) (i ∷ fs)
  unfolding deallocate given
  deallocate-given n h out f = (
    deallocate_loop-released n i (cleared i s),
    rw (ltb-true i s.capacity h, deallocate_loop-released 0 i (cleared i s)),
    given-IsFree h out f,
  )

pub allocate-nil : (s : Slab) → IsFree s [] → allocate s ≡ some (invalid_index, s)
unfolding allocate allocate_attempt
allocate-nil s f = ground (arith, f.chain)
