-- ===== src/Stripe.antt =====
-- src/cache_stripe.cpp and include/cache_stripe.h: one shard of the L1 cache. A method holds the
-- stripe's mutex throughout, so it is one command on the slab that returns the new stripe. The
-- demotion queue that the stripe points to is a field. `get` and `put` are the branches without a
-- `LatencyBreakdown`; those with one are in Stripe/Instrumented.
pub mod Lists
pub mod Steps
pub mod Moves
pub mod Demote
pub mod Touch
pub mod Contents
pub mod Get
pub mod Slots
pub mod Remove
pub mod Overwrite
pub mod Admit
pub mod Replace
pub mod Fill
pub mod Insert
pub mod Put
pub mod Write
pub mod Fed
pub mod Instrumented
pub mod Init
mod Tests
use walde.Base.{
  ℕ, zero, suc, ◌+◌, ◌*◌, ◌/◌, max, Bool, true, false, Option, none, some, ◌==◌, ltb, leb, str_eq,
  if◌then◌else◌,
}
use walde.Base.Arith.{add32, sub32, add64}
use walde.Types.{invalid_index, Key, Value, Segment, CacheNode}
use walde.Slab.{Cmd, pure, ◌>>=◌, ◌>>◌, node, set_node, allocate, deallocate}
use walde.Lru
use walde.Lru.{IntrusiveLru, empty_lru, peek_back, is_empty, push_front, pop_back, move_to_front}
use walde.Sketch
use walde.Sketch.{CountMinSketch, increment, estimate, decay}
use walde.Queue.{DemotionQueue, try_push}

-- `std::unordered_map<std::string, uint32_t>`
abbrev pub IndexMap : Type 0
IndexMap = Key → Option ℕ

abbrev pub insert_key : Key → ℕ → IndexMap → IndexMap
insert_key k i m j = if str_eq k j then some i else m j

abbrev pub erase_key : Key → IndexMap → IndexMap
erase_key k m j = if str_eq k j then none else m j

pub record CacheStripe : Type 0 where
  pub total_capacity : ℕ
  pub window_capacity : ℕ
  pub main_capacity : ℕ
  pub probation_capacity : ℕ
  pub protected_capacity : ℕ
  pub index_map : IndexMap
  pub window : IntrusiveLru
  pub probation : IntrusiveLru
  pub protected : IntrusiveLru
  pub cms : CountMinSketch
  pub decay_interval : ℕ
  pub ops_since_decay : ℕ
  pub hits : ℕ
  pub misses : ℕ
  pub evictions : ℕ
  pub admissions : ℕ
  pub rejections : ℕ
  pub demotion_queue : Option DemotionQueue

-- `window_capacity_` from the part of the capacity that the float product gives.
unfoldable pub window_share : ℕ → ℕ → ℕ
window_share part capacity =
    let w = max 3 part in if leb (sub32 capacity 2) w then capacity / 4 else w

-- What the constructor builds. `window_part` and `probation_part` stand for the casts of the float
-- products `capacity * window_pct` and `main_capacity_ * probation_pct`.
unfoldable pub built : (window_part probation_part : ℕ → ℕ) → ℕ → CacheStripe
unfolding window_share
built window_part probation_part capacity =
    let w = window_share (window_part capacity) capacity in
    let m = sub32 capacity w in
    let p = max 1 (probation_part m) in
    record {
      total_capacity = capacity;
      window_capacity = w;
      main_capacity = m;
      probation_capacity = p;
      protected_capacity = sub32 m p;
      index_map = λ _. none;
      window = empty_lru;
      probation = empty_lru;
      protected = empty_lru;
      cms = Sketch.blank 4 512;
      decay_interval = if capacity * 5 == 0 then 1 else capacity * 5;
      ops_since_decay = 0;
      hits = 0;
      misses = 0;
      evictions = 0;
      admissions = 0;
      rejections = 0;
      demotion_queue = none;
    }

-- The constructor; `none` is a failed assertion, its own or the sketch's.
unfoldable pub init : (window_part probation_part : ℕ → ℕ) → ℕ → Option CacheStripe
init window_part probation_part capacity = elim (Sketch.init 4 512) [
  | none ↦ none
  | some cms ↦
      if leb 3 capacity
      then some (record (built window_part probation_part capacity) { cms = cms })
      else none
]

-- `slab_.node(i).segment = g`
unfoldable pub set_segment : ℕ → Segment → Cmd (Unit {0})
set_segment i g = do n ← node i; set_node i (record n { segment = g })

-- A slot that leaves the protected segment goes to the front of probation.
unfoldable pub refile : CacheStripe → ℕ → Cmd CacheStripe
refile s demoted = do
  set_segment demoted Segment.probation
  p ← push_front s.probation demoted
  pure (record s { probation = p })

-- Makes room in the protected segment: its last slot goes back to probation.
unfoldable pub demote_protected : CacheStripe → Cmd CacheStripe
demote_protected s =
    if leb s.protected_capacity s.protected.size
    then (do
      (demoted, q) ← pop_back s.protected
      if demoted == invalid_index
          then pure (record s { protected = q })
          else refile (record s { protected = q }) demoted)
    else pure s

unfoldable pub promote_to_protected : CacheStripe → ℕ → Cmd CacheStripe
promote_to_protected s idx = do
  _ ← node idx
  p ← Lru.remove s.probation idx
  s' ← demote_protected (record s { probation = p })
  set_segment idx Segment.protected
  q ← push_front s'.protected idx
  pure (record s' { protected = q })

-- The `switch` on a hit.
unfoldable pub touch : CacheStripe → ℕ → Segment → Cmd CacheStripe
touch s idx Segment.window = do l ← move_to_front s.window idx; pure (record s { window = l })
touch s idx Segment.probation = promote_to_protected s idx
touch s idx Segment.protected = do
  l ← move_to_front s.protected idx
  pure (record s { protected = l })
touch s idx Segment.free = pure s
touch s idx Segment.l2 = pure s

unfoldable pub maybe_decay_cms : CacheStripe → CacheStripe
maybe_decay_cms s =
    let ops = add64 s.ops_since_decay 1 in
    if leb s.decay_interval ops
    then record s { cms = decay s.cms; ops_since_decay = 0 }
    else record s { ops_since_decay = ops }

abbrev pub size : CacheStripe → ℕ
size s = add32 (add32 s.window.size s.probation.size) s.protected.size

module _ (xxh32 : Key → ℕ → ℕ) where
  -- What `std::move` leaves in the victim is overwritten by `deallocate`.
  unfoldable pub demote_victim : CacheStripe → ℕ → Cmd CacheStripe
  demote_victim s idx = do
    victim ← node idx
    deallocate idx
    pure (record s {
      index_map = erase_key victim.key s.index_map;
      evictions = add64 s.evictions 1;
      demotion_queue = elim s.demotion_queue [
        | none ↦ none
        | some q ↦ some (
            (try_push q (record {
              key = victim.key;
              value = victim.value;
              frequency = estimate xxh32 s.cms victim.key;
            })).1)
      ];
    })

  -- The candidate goes to the front of probation.
  unfoldable pub admit : CacheStripe → ℕ → Cmd CacheStripe
  admit s idx = do
    set_segment idx Segment.probation
    p ← push_front s.probation idx
    pure (record s { probation = p; admissions = add64 s.admissions 1 })

  -- The candidate is dropped.
  unfoldable pub reject : CacheStripe → ℕ → CacheNode → Cmd CacheStripe
  reject s idx candidate = do
    deallocate idx
    pure (record s {
      index_map = erase_key candidate.key s.index_map;
      rejections = add64 s.rejections 1;
    })

  -- The candidate takes the place of the last slot of probation.
  unfoldable pub replace : CacheStripe → ℕ → ℕ → Cmd CacheStripe
  replace s idx victim_idx = do
    (_, p) ← pop_back s.probation
    s' ← demote_victim (record s { probation = p }) victim_idx
    admit s' idx

  -- The gate, once the candidate is out of the window.
  unfoldable pub admission_gate : CacheStripe → ℕ → Cmd CacheStripe
  admission_gate s idx = do
    candidate ← node idx
    if ltb (add32 s.probation.size s.protected.size) s.main_capacity
        then admit s idx
        else if is_empty s.probation
        then reject s idx candidate
        else do
          victim ← node (peek_back s.probation)
          if ltb (estimate xxh32 s.cms victim.key) (estimate xxh32 s.cms candidate.key)
              then replace s idx (peek_back s.probation)
              else reject s idx candidate

  unfoldable pub try_admit_from_window : CacheStripe → Cmd CacheStripe
  try_admit_from_window s = do
    (idx, w) ← pop_back s.window
    if idx == invalid_index
        then pure (record s { window = w })
        else admission_gate (record s { window = w }) idx

  -- The loop of `insert_into_window` on fuel: a loop that does not end gives no result.
  unfoldable pub admit_loop : ℕ → CacheStripe → Cmd CacheStripe
  admit_loop zero s = λ _. none
  admit_loop (suc n) s =
      let rest = try_admit_from_window s >>= admit_loop n in
      if ltb s.window_capacity s.window.size then rest else pure s

  unfoldable pub insert_into_window : CacheStripe → ℕ → Cmd CacheStripe
  insert_into_window s idx = do
    w ← push_front s.window idx
    admit_loop (w.size + 1) (record s { window = w })

  unfoldable pub get : CacheStripe → Key → Cmd (Option Value × CacheStripe)
  get s key = elim (s.index_map key) [
    | none ↦ pure (none, record s { misses = add64 s.misses 1 })
    | some idx ↦ do
      n ← node idx
      s' ← touch (record s { cms = increment xxh32 key s.cms }) idx n.segment
      m ← node idx
      pure (some m.value, record s' { hits = add64 s'.hits 1 })
  ]

  -- `put` of a key that is resident, and of one that is not.
  unfoldable pub overwrite : CacheStripe → ℕ → Value → Cmd (Bool × CacheStripe)
  overwrite s idx value = do
    n ← node idx
    set_node idx (record n { value = value })
    s' ← touch s idx n.segment
    pure (false, s')

  unfoldable pub insert : CacheStripe → Key → Value → Cmd (Bool × CacheStripe)
  insert s key value = do
    idx ← allocate
    if idx == invalid_index then pure (false, s) else do
      n ← node idx
      set_node idx (record n { key = key; value = value; segment = Segment.window })
      s' ← insert_into_window (record s { index_map = insert_key key idx s.index_map }) idx
      pure (true, s')

  unfoldable pub put : CacheStripe → Key → Value → Cmd (Bool × CacheStripe)
  put s key value =
      let counted = maybe_decay_cms (record s { cms = increment xxh32 key s.cms }) in
      elim (counted.index_map key) [
        | none ↦ insert counted key value
        | some idx ↦ overwrite counted idx value
      ]

-- The `switch` of `remove`.
unfoldable pub unlink : CacheStripe → ℕ → Segment → Cmd CacheStripe
unlink s idx Segment.window = do l ← Lru.remove s.window idx; pure (record s { window = l })
unlink s idx Segment.probation = do
  l ← Lru.remove s.probation idx
  pure (record s { probation = l })
unlink s idx Segment.protected = do
  l ← Lru.remove s.protected idx
  pure (record s { protected = l })
unlink s idx Segment.free = pure s
unlink s idx Segment.l2 = pure s

unfoldable pub remove : CacheStripe → Key → Cmd (Bool × CacheStripe)
remove s key = elim (s.index_map key) [
  | none ↦ pure (false, s)
  | some idx ↦ do
    n ← node idx
    s' ← unlink s idx n.segment
    deallocate idx
    pure (true, record s' { index_map = erase_key key s'.index_map })
]
