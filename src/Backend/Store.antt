-- ===== src/Backend/Store.antt =====
-- The store in memory keeps the promises of a store.
use walde.Base.{
  ◌≡◌, refl, sym, ap, ◌∙◌, none, inl, inr, Bool-cases, Option-cases, eq_of_str_eq, if◌then◌else◌,
  str_eq,
}
use walde.Base.Arith.{add64}
use walde.Types.{Key}
use walde.Stripe.Remove.{is_some}
use walde.Backend.{IsStore, InMemoryBackend, get, put, remove, in_memory}

module _ (key : Key) (b : InMemoryBackend) where
  get_lem : get key b ≡ (b.store key, record b { read_count = add64 b.read_count 1 })
  unfolding get
  get_lem = elim (Option-cases (b.store key)) [
    | inl e ↦ rw (get, e) refl
    | inr (v, e) ↦ rw (get, e) refl
  ]

  remove-is_some : (remove key b).0 ≡ is_some (b.store key)
  unfolding remove
  remove-is_some = elim (Option-cases (b.store key)) [
    | inl e ↦ rw (remove, e) refl
    | inr (v, e) ↦ rw (remove, e) refl
  ]

  remove_lem : (k : Key) → (remove key b).1.store k ≡ (if str_eq key k then none else b.store k)
  unfolding remove
  remove_lem k = elim (Option-cases (b.store key)) [
    | inl e ↦ elim (Bool-cases (str_eq key k)) [
      | inl p ↦ rw (remove, e, p) (sym (ap b.store (eq_of_str_eq key k p)) ∙ e)
      | inr p ↦ rw (remove, e, p) refl
    ]
    | inr (v, e) ↦ rw (remove, e) refl
  ]

-- The store in memory implements the interface that the engine uses.
pub in_memory-IsStore : IsStore in_memory (λ b. b.store)
unfolding put
in_memory-IsStore = record {
  got = λ key b. ap (λ p. p.0) (get_lem key b);
  get_keeps = λ key b k. ap (λ p. p.1.store k) (get_lem key b);
  put_stores = λ key value b k. refl;
  removed = remove-is_some;
  remove_erases = remove_lem;
}
