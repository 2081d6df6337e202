-- ===== src/Stripe/Fed.antt =====
-- What a stripe pushes to the demotion queue: entries that it held.
use walde.Base.{
  ◌≡◌, sym, ap, ◌∙◌, subst, Option, none, some, if◌then◌else◌, str_eq, inl, inr, Bool-cases,
}
use walde.Types.{Key, Value}
use walde.Queue.{DemotionItem, DemotionQueue, try_push}

-- From `q`, by pushes of entries of `f`, accepted or not.
pub data Fed (f : Key → Option Value) (q : Option DemotionQueue)
    : Option DemotionQueue → Type 0 where
  unfed : Fed f q q
  fed :
      {p : DemotionQueue} (item : DemotionItem)
      → Fed f q (some p)
      → f item.key ≡ some item.value
      → Fed f q (some (try_push p item).1)

-- Every entry of `g` is one of `f`.
abbrev pub Within : (g f : Key → Option Value) → Type 0
Within g f = (k : Key) (w : Value) → g k ≡ some w → f k ≡ some w

pub Within-same : (g f : Key → Option Value) → ((k : Key) → g k ≡ f k) → Within g f
Within-same g f e k w p = sym (e k) ∙ p

pub Within-erased :
    (j : Key) (g f : Key → Option Value)
    → ((k : Key) → g k ≡ (if str_eq j k then none else f k))
    → Within g f
Within-erased j g f e k w p = elim (Bool-cases (str_eq j k)) [
  | inl q ↦ absurd (let r = sym (e k ∙ ap (λ b. if b then none else f k) q) ∙ p in cc)
  | inr q ↦ sym (e k ∙ ap (λ b. if b then none else f k) q) ∙ p
]

pub Fed-trans :
    {f g : Key → Option Value} {q r s : Option DemotionQueue}
    → Within g f
    → Fed f q r
    → Fed g r s
    → Fed f q s
Fed-trans h a unfed = a
Fed-trans h a (fed item b e) = fed item (Fed-trans h a b) (h item.key item.value e)

pub Fed-mono :
    {f g : Key → Option Value} {q r : Option DemotionQueue} → Within g f → Fed g q r → Fed f q r
Fed-mono h a = Fed-trans h unfed a

pub Fed-same :
    {f : Key → Option Value} {q r s : Option DemotionQueue} → r ≡ q → Fed f r s → Fed f q s
Fed-same {f} {s = s} e a = subst (λ z. Fed f z s) e a

-- A push to the queue, if there is one.
pub Fed-push :
    {f : Key → Option Value} (q : Option DemotionQueue) (item : DemotionItem)
    → f item.key ≡ some item.value
    → Fed f q (elim q [ none ↦ none | some p ↦ some (try_push p item).1 ])
Fed-push none item e = unfed
Fed-push (some p) item e = fed item unfed e
