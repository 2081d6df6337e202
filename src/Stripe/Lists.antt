-- ===== src/Stripe/Lists.antt =====
-- The three lists of a stripe over one slab, indexed by segment: each is well formed, its nodes
-- carry its segment, and the free slots carry none. So no two of them share a node.
use walde.Base.{
  ℕ, ◌≡◌, ◌≢◌, refl, sym, ap, ◌∙◌, Bool, true, false, List, [], ◌∈◌, ◌∉◌, Disjoint, has, arith, inl,
  inr, Bool-cases,
}
use walde.Types.{CacheNode, reset_node, Segment}
use walde.Slab.{Slab}
use walde.Slab.FreeList.{IsFree}
use walde.Lru.{IntrusiveLru, empty_lru}
use walde.Lru.Links.{IsLru}
use walde.Stripe.{CacheStripe}

pub Segment-discrete : Discrete Segment
Segment-discrete = hlevel

abbrev pub lru_of : CacheStripe → Segment → IntrusiveLru
lru_of s Segment.window = s.window
lru_of s Segment.probation = s.probation
lru_of s Segment.protected = s.protected
lru_of s Segment.free = empty_lru
lru_of s Segment.l2 = empty_lru

abbrev pub with_lru : CacheStripe → Segment → IntrusiveLru → CacheStripe
with_lru s Segment.window l = record s { window = l }
with_lru s Segment.probation l = record s { probation = l }
with_lru s Segment.protected l = record s { protected = l }
with_lru s Segment.free l = s
with_lru s Segment.l2 l = s

-- The segments that have a list.
abbrev pub is_listed : Segment → Bool
is_listed Segment.window = true
is_listed Segment.probation = true
is_listed Segment.protected = true
is_listed Segment.free = false
is_listed Segment.l2 = false

abbrev pub Family : Type 0
Family = Segment → List ℕ

abbrev pub put_list : Segment → List ℕ → Family → Family
put_list Segment.window ys xs Segment.window = ys
put_list Segment.probation ys xs Segment.probation = ys
put_list Segment.protected ys xs Segment.protected = ys
put_list _ ys xs h = xs h

pub lru_of-with_lru_self :
    (s : CacheStripe) (g : Segment) (l : IntrusiveLru)
    → is_listed g ≡ true
    → lru_of (with_lru s g l) g ≡ l
lru_of-with_lru_self s Segment.window l h = refl
lru_of-with_lru_self s Segment.probation l h = refl
lru_of-with_lru_self s Segment.protected l h = refl
lru_of-with_lru_self s Segment.free l h = absurd (ground arith)
lru_of-with_lru_self s Segment.l2 l h = absurd (ground arith)

pub put_list_self :
    (g : Segment) (ys : List ℕ) (xs : Family) → is_listed g ≡ true → put_list g ys xs g ≡ ys
put_list_self Segment.window ys xs h = refl
put_list_self Segment.probation ys xs h = refl
put_list_self Segment.protected ys xs h = refl
put_list_self Segment.free ys xs h = absurd (ground arith)
put_list_self Segment.l2 ys xs h = absurd (ground arith)

pub lru_of-with_lru :
    (s : CacheStripe) (g h : Segment) (l : IntrusiveLru)
    → h ≢ g
    → lru_of (with_lru s g l) h ≡ lru_of s h
lru_of-with_lru s Segment.window Segment.window l ne = absurd (ne refl)
lru_of-with_lru s Segment.probation Segment.probation l ne = absurd (ne refl)
lru_of-with_lru s Segment.protected Segment.protected l ne = absurd (ne refl)
lru_of-with_lru s Segment.free Segment.free l ne = absurd (ne refl)
lru_of-with_lru s Segment.l2 Segment.l2 l ne = absurd (ne refl)
lru_of-with_lru s _ _ l ne = refl

pub put_list_ne : (g h : Segment) (ys : List ℕ) (xs : Family) → h ≢ g → put_list g ys xs h ≡ xs h
put_list_ne Segment.window Segment.window ys xs ne = absurd (ne refl)
put_list_ne Segment.probation Segment.probation ys xs ne = absurd (ne refl)
put_list_ne Segment.protected Segment.protected ys xs ne = absurd (ne refl)
put_list_ne Segment.free Segment.free ys xs ne = absurd (ne refl)
put_list_ne Segment.l2 Segment.l2 ys xs ne = absurd (ne refl)
put_list_ne _ _ ys xs ne = refl

-- The capacity of the slab, the slots of it that its other users hold, and what those slots hold.
pub record Outside : Type 1 where
  pub capacity : ℕ
  pub foreign : ℕ → Type 0
  pub nodes : ℕ → CacheNode

-- No slot is used by anyone else.
abbrev pub nowhere : ℕ → Outside
nowhere n = record { capacity = n; foreign = λ _. ⊥; nodes = λ _. reset_node }

pub record Lists (out : Outside) (t : Slab) (L : Segment → IntrusiveLru) (xs : Family) (fs : List ℕ)
    : Type 0 where
  pub sized : t.capacity ≡ out.capacity
  pub each : (g : Segment) → IsLru t (L g) (xs g)
  pub tagged : (g : Segment) (i : ℕ) → i ∈ xs g → (t.pool i).segment ≡ g
  pub free : IsFree t fs
  pub blank : (i : ℕ) → i ∈ fs → (t.pool i).segment ≡ Segment.free
  pub unlisted : (g : Segment) → is_listed g ≡ false → xs g ≡ []
  pub outside :
      (a : ℕ) → out.foreign a → (t.pool a ≡ out.nodes a) × ((g : Segment) → a ∉ xs g) × (a ∉ fs)

-- A node in the list that its segment names.
abbrev pub resident : Slab → Family → ℕ → Bool
resident t xs i = has i (xs (t.pool i).segment)

module _ {out : Outside} {t : Slab} {L : Segment → IntrusiveLru} {xs : Family} {fs : List ℕ}
    (v : Lists out t L xs fs) where
  -- No node is in two lists.
  pub lists_apart : (g h : Segment) → h ≢ g → Disjoint (xs h) (xs g)
  lists_apart g h ne a m = elim (Bool-cases (has a (xs g))) [
    | inl e ↦ absurd (ne (sym (v.tagged h a m) ∙ v.tagged g a e))
    | inr e ↦ e
  ]

  pub resident_of_mem : (g : Segment) (i : ℕ) → i ∈ xs g → resident t xs i ≡ true
  resident_of_mem g i m = ap (λ h. has i (xs h)) (v.tagged g i m) ∙ m

  -- A node that is not resident is in no list.
  pub absent_of_not_resident : (g : Segment) (i : ℕ) → resident t xs i ≡ false → i ∉ xs g
  absent_of_not_resident g i o = elim (Bool-cases (has i (xs g))) [
    | inl m ↦ absurd (let e = sym (resident_of_mem g i m) ∙ o in cc)
    | inr m ↦ m
  ]

  -- A free slot is in no list.
  pub free_not_resident : (i : ℕ) → i ∈ fs → resident t xs i ≡ false
  free_not_resident i m =
      ap (λ h. has i (xs h)) (v.blank i m) ∙ ap (has i) (v.unlisted Segment.free refl)

  -- A resident node is the stripe's own.
  pub resident_not_foreign : (i : ℕ) → resident t xs i ≡ true → ¬ out.foreign i
  resident_not_foreign i m f =
      let (_, n, _) = v.outside i f in let k = n (t.pool i).segment in absurd (cc)
