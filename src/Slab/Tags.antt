-- ===== src/Slab/Tags.antt =====
-- The tag of the head word: a word that was read before other threads changed the free list is out of
-- date, whatever slot heads the list now.
use walde.Base.{
  ℕ, suc, ◌+◌, ◌%◌, ◌^◌, ◌≤◌, ◌<◌, ◌≡◌, ◌≢◌, refl, sym, ap, ◌∙◌, inl, inr, Bool, true, false, not,
  ◌&&◌, Bool-cases, ◌==◌, eq_of_==, ltb, lt_of_ltb, ltb-true, ==_ne, ◌-◌, subst, update, arith,
}
use walde.Base.Arith.{add32, sub32}
use walde.Types.{invalid_index, reset_node}
use walde.Slab.{
  Slab, pack, unpack_index, unpack_tag, done, retry, fault, allocate_attempt, deallocate_attempt,
  fresh,
}
use walde.Slab.Pack.{unpack-pack, unpack_tag-lt, unpack_index-lt}

-- The capacity is a valid one and the links are words.
pub record HasWords (s : Slab) : Type 0 where
  pub capacity : s.capacity ≤ invalid_index
  pub next : (j : ℕ) → s.free_next j < 2 ^ 32

-- `n` successful compare-exchanges of any threads, with whatever words they held, and any number of
-- failed ones; a thread that gives a slot back resets its node before it tries.
pub data Swaps (s : Slab) : ℕ → Slab → Type 0 where
  none_yet : Swaps s 0 s
  take :
      {n : ℕ} {t u : Slab} (spurious : Bool) (p i : ℕ)
      → Swaps s n t
      → i ≢ invalid_index
      → allocate_attempt spurious p t ≡ done i u
      → Swaps s (suc n) u
  clear :
      {n : ℕ} {t : Slab} (i : ℕ)
      → Swaps s n t
      → Swaps s n (record t { pool = update t.pool i reset_node })
  give :
      {n : ℕ} {t u : Slab} (spurious : Bool) (i p : ℕ)
      → Swaps s n t
      → i < t.capacity
      → deallocate_attempt spurious i p t ≡ done tt u
      → Swaps s (suc n) u
  miss :
      {n q : ℕ} {t u : Slab} (spurious : Bool) (i p : ℕ)
      → Swaps s n t
      → deallocate_attempt spurious i p t ≡ retry q u
      → Swaps s n u

-- What a step leaves: the head word has gone `n` tags on.
record Follows (s : Slab) (n : ℕ) (t : Slab) : Type 0 where
  words : HasWords t
  same : t.capacity ≡ s.capacity
  tag : unpack_tag t.head ≡ (unpack_tag s.head + n) % 2 ^ 32

and_left : (a b : Bool) → (a && b) ≡ true → a ≡ true
and_left true b e = refl
and_left false b e = e

-- An attempt to take a slot that succeeds.
take_lem :
    (spurious : Bool) (p i : ℕ) (t u : Slab)
    → i ≢ invalid_index
    → allocate_attempt spurious p t ≡ done i u
    → (u.capacity ≡ t.capacity)
      × (u.free_next ≡ t.free_next)
      × (u.head ≡ pack (t.free_next (unpack_index t.head)) (add32 (unpack_tag t.head) 1))
unfolding allocate_attempt
take_lem spurious p i t u valid e = elim (Bool-cases (unpack_index p == invalid_index)) [
  | inl a ↦ absurd (
      let x : allocate_attempt spurious p t ≡ done invalid_index t =
        rw (allocate_attempt, a) refl in
      let z = sym x ∙ e in let y : i ≡ invalid_index = cc in valid y)
  | inr a ↦ elim (Bool-cases (ltb (unpack_index p) t.capacity)) [
    | inr c ↦ absurd (
        let x : allocate_attempt spurious p t ≡ fault = rw (allocate_attempt, a, c) refl in
        let z = sym x ∙ e in cc)
    | inl c ↦ elim (Bool-cases ((t.head == p) && not spurious)) [
      | inr f ↦ absurd (
          let x : allocate_attempt spurious p t ≡ retry t.head t =
            rw (allocate_attempt, a, c, f) refl in
          let z = sym x ∙ e in cc)
      | inl f ↦
          let new = record t {
            pool = update t.pool (unpack_index p) reset_node;
            head = pack (t.free_next (unpack_index p)) (add32 (unpack_tag p) 1);
            free_count = sub32 t.free_count 1;
          } in
          let x : allocate_attempt spurious p t ≡ done (unpack_index p) new =
            rw (allocate_attempt, a, c, f) refl in
          let z = sym x ∙ e in
          let y : new ≡ u = cc in
          (
            sym (ap (λ w. w.capacity) y),
            sym (ap (λ w. w.free_next) y),
            sym (ap (λ w. w.head) y)
                ∙ ap (λ q. pack (t.free_next (unpack_index q)) (add32 (unpack_tag q) 1))
                    (sym (eq_of_== t.head p (and_left (t.head == p) (not spurious) f))),
          )
    ]
  ]
]

-- An attempt to give slot `i` back that succeeds, and one that fails.
give_lem :
    (spurious : Bool) (i p : ℕ) (t u : Slab)
    → deallocate_attempt spurious i p t ≡ done tt u
    → (u.capacity ≡ t.capacity)
      × (u.free_next ≡ update t.free_next i (unpack_index t.head))
      × (u.head ≡ pack i (add32 (unpack_tag t.head) 1))
unfolding deallocate_attempt
give_lem spurious i p t u e = elim (Bool-cases ((t.head == p) && not spurious)) [
  | inr f ↦ absurd (
      let x : deallocate_attempt spurious i p t
          ≡ retry t.head (record t { free_next = update t.free_next i (unpack_index p) }) =
        rw (deallocate_attempt, f) refl in
      let z = sym x ∙ e in cc)
  | inl f ↦
      let same = sym (eq_of_== t.head p (and_left (t.head == p) (not spurious) f)) in
      let new = record t {
        free_next = update t.free_next i (unpack_index p);
        head = pack i (add32 (unpack_tag p) 1);
        free_count = add32 t.free_count 1;
      } in
      let x : deallocate_attempt spurious i p t ≡ done tt new = rw (deallocate_attempt, f) refl in
      let z = sym x ∙ e in
      let y : new ≡ u = cc in
      (
        sym (ap (λ w. w.capacity) y),
        sym (ap (λ w. w.free_next) y) ∙ ap (λ q. update t.free_next i (unpack_index q)) same,
        sym (ap (λ w. w.head) y) ∙ ap (λ q. pack i (add32 (unpack_tag q) 1)) same,
      )
]

miss_lem :
    (spurious : Bool) (i p q : ℕ) (t u : Slab)
    → deallocate_attempt spurious i p t ≡ retry q u
    → (u.capacity ≡ t.capacity)
      × (u.free_next ≡ update t.free_next i (unpack_index p))
      × (u.head ≡ t.head)
unfolding deallocate_attempt
miss_lem spurious i p q t u e = elim (Bool-cases ((t.head == p) && not spurious)) [
  | inl f ↦ absurd (
      let new = record t {
        free_next = update t.free_next i (unpack_index p);
        head = pack i (add32 (unpack_tag p) 1);
        free_count = add32 t.free_count 1;
      } in
      let x : deallocate_attempt spurious i p t ≡ done tt new = rw (deallocate_attempt, f) refl in
      let z = sym x ∙ e in cc)
  | inr f ↦
      let new = record t { free_next = update t.free_next i (unpack_index p) } in
      let x : deallocate_attempt spurious i p t ≡ retry t.head new =
        rw (deallocate_attempt, f) refl in
      let z = sym x ∙ e in
      let y : new ≡ u = cc in
      (sym (ap (λ w. w.capacity) y), sym (ap (λ w. w.free_next) y), sym (ap (λ w. w.head) y))
]

update-lt :
    (f : ℕ → ℕ) (i v : ℕ)
    → v < 2 ^ 32
    → ((j : ℕ) → f j < 2 ^ 32)
    → (j : ℕ) → update f i v j < 2 ^ 32
update-lt f i v h w j = elim (Bool-cases (i == j)) [ inl e ↦ rw e h | inr e ↦ rw e (w j) ]

-- A head word that was packed with the next tag.
next_tag :
    (s t u : Slab) (n k : ℕ)
    → k < 2 ^ 32
    → u.head ≡ pack k (add32 (unpack_tag t.head) 1)
    → unpack_tag t.head ≡ (unpack_tag s.head + n) % 2 ^ 32
    → unpack_tag u.head ≡ (unpack_tag s.head + suc n) % 2 ^ 32
next_tag s t u n k h e tag =
    ap unpack_tag e
    ∙ (unpack-pack k (add32 (unpack_tag t.head) 1) h (omega arith)).1
    ∙ omega (arith, tag)

Swaps-Follows : (s t : Slab) (n : ℕ) → HasWords s → Swaps s n t → Follows s n t
Swaps-Follows s _ _ w none_yet = record {
  words = w;
  same = refl;
  tag = omega (arith, unpack_tag-lt s.head);
}
Swaps-Follows s u _ w (take {n} {t} spurious p i x valid e) =
    let f = Swaps-Follows s t n w x in
    let (c, l, h) = take_lem spurious p i t u valid e in
    record {
      words = record {
        capacity = omega (arith, c, f.words.capacity);
        next = λ j. subst (λ g. g j < 2 ^ 32) (sym l) (f.words.next j);
      };
      same = c ∙ f.same;
      tag = next_tag s t u n (t.free_next (unpack_index t.head)) (f.words.next _) h f.tag;
    }
Swaps-Follows s _ _ w (clear {n} {t} i x) =
    let f = Swaps-Follows s t n w x in
    record {
      words = record { capacity = f.words.capacity; next = f.words.next };
      same = f.same;
      tag = f.tag;
    }
Swaps-Follows s u _ w (give {n} {t} spurious i p x bound e) =
    let f = Swaps-Follows s t n w x in
    let (c, l, h) = give_lem spurious i p t u e in
    record {
      words = record {
        capacity = omega (arith, c, f.words.capacity);
        next = λ j.
            subst (λ g. g j < 2 ^ 32) (sym l)
              (update-lt t.free_next i (unpack_index t.head) (unpack_index-lt t.head) f.words.next
                j);
      };
      same = c ∙ f.same;
      tag = next_tag s t u n i (omega (arith, bound, f.words.capacity)) h f.tag;
    }
Swaps-Follows s u n w (miss {t} spurious i p x e) =
    let f = Swaps-Follows s t n w x in
    let (c, l, h) = miss_lem spurious i p _ t u e in
    record {
      words = record {
        capacity = omega (arith, c, f.words.capacity);
        next = λ j.
            subst (λ g. g j < 2 ^ 32) (sym l)
              (update-lt t.free_next i (unpack_index p) (unpack_index-lt p) f.words.next j);
      };
      same = c ∙ f.same;
      tag = ap unpack_tag h ∙ f.tag;
    }

pub fresh-HasWords : (cap : ℕ) → cap ≤ invalid_index → HasWords (fresh cap)
fresh-HasWords cap h = record {
  capacity = h;
  next = λ j. elim (Bool-cases (ltb j (cap - 1))) [
    | inl e ↦ rw e (let l = lt_of_ltb j (cap - 1) e in omega arith)
    | inr e ↦ rw e (omega arith)
  ];
}

-- A thread that read the head word, a slot's, before from 1 to 2^32 - 1 compare-exchanges of other
-- threads succeeded, takings and givings back in any order, no longer swaps it in, whatever slot heads
-- the list now: each of the others moved the tag one on, so its own attempt to take or give back a slot
-- goes on with the current word. From 2^32 on the tag may have come around.
pub Swaps-stale :
    (s t : Slab) (n : ℕ) (spurious : Bool) (i : ℕ)
    → HasWords s
    → unpack_index s.head < s.capacity
    → Swaps s n t
    → 0 < n
    → n < 2 ^ 32
    → (unpack_tag t.head ≡ (unpack_tag s.head + n) % 2 ^ 32)
      × (allocate_attempt spurious s.head t ≡ retry t.head t)
      × (deallocate_attempt spurious i s.head t
          ≡ retry t.head (record t { free_next = update t.free_next i (unpack_index s.head) }))
unfolding allocate_attempt deallocate_attempt
Swaps-stale s t n spurious i w h x some_swap few =
    let f = Swaps-Follows s t n w x in
    let moved : t.head ≢ s.head =
      λ e. omega (arith, ap unpack_tag e, f.tag, unpack_tag-lt s.head, some_swap, few) in
    let other = ==_ne t.head s.head moved in
    (
      f.tag,
      rw
          (
            allocate_attempt,
            ==_ne (unpack_index s.head) invalid_index (λ e. omega (arith, e, h, w.capacity)),
            ltb-true (unpack_index s.head) t.capacity (omega (arith, h, f.same)),
            other,
          )
          refl,
      rw (deallocate_attempt, other) refl,
    )
