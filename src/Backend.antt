-- ===== src/Backend.antt =====
-- src/storage_backend.cpp and include/storage_backend.h: the store behind the cache. The interface
-- is a record of operations on a state; the store in memory is one of them.
pub mod Store
use walde.Base.{
  ℕ, ◌≡◌, refl, sym, ap, ◌∙◌, Bool, true, false, Option, none, some, if◌then◌else◌, str_eq,
}
use walde.Base.Arith.{add64}
use walde.Types.{Key, Value}
use walde.Stripe.{IndexMap}
use walde.Stripe.Remove.{is_some}

pub record StorageBackend (S : Type 0) : Type 0 where
  pub get : Key → S → Option Value × S
  pub put : Key → Value → S → Bool × S
  pub remove : Key → S → Bool × S
  pub reads : S → ℕ
  pub writes : S → ℕ

-- What a client relies on: a map from keys to values that the operations read and write.
pub record IsStore {S : Type 0} (b : StorageBackend S) (stored : S → Key → Option Value)
    : Type 0 where
  pub got : (key : Key) (s : S) → (b.get key s).0 ≡ stored s key
  pub get_keeps : (key : Key) (s : S) (k : Key) → stored (b.get key s).1 k ≡ stored s k
  pub put_stores :
      (key : Key) (value : Value) (s : S) (k : Key)
      → stored (b.put key value s).1 k ≡ (if str_eq key k then some value else stored s k)
  pub removed : (key : Key) (s : S) → (b.remove key s).0 ≡ is_some (stored s key)
  pub remove_erases :
      (key : Key) (s : S) (k : Key)
      → stored (b.remove key s).1 k ≡ (if str_eq key k then none else stored s k)

-- The mutex and the atomic counters make each method one step.
pub record InMemoryBackend : Type 0 where
  pub store : Key → Option Value
  pub read_count : ℕ
  pub write_count : ℕ

abbrev pub empty_backend : InMemoryBackend
empty_backend = record { store = λ _. none; read_count = 0; write_count = 0 }

unfoldable pub get : Key → InMemoryBackend → Option Value × InMemoryBackend
get key b =
    let b' = record b { read_count = add64 b.read_count 1 } in
    elim (b.store key) [ none ↦ (none, b') | some v ↦ (some v, b') ]

unfoldable pub put : Key → Value → InMemoryBackend → Bool × InMemoryBackend
put key value b = (
  true,
  record b {
    write_count = add64 b.write_count 1;
    store = λ k. if str_eq key k then some value else b.store k;
  },
)

unfoldable pub remove : Key → InMemoryBackend → Bool × InMemoryBackend
remove key b = elim (b.store key) [
  | none ↦ (false, b)
  | some _ ↦ (true, record b { store = λ k. if str_eq key k then none else b.store k })
]

abbrev pub in_memory : StorageBackend InMemoryBackend
in_memory = record {
  get = get;
  put = put;
  remove = remove;
  reads = λ b. b.read_count;
  writes = λ b. b.write_count;
}
