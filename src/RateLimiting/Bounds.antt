-- ===== src/RateLimiting/Bounds.antt =====
-- keystore/confirmationui_rate_limiting.h: the counters stay small, so that the back-off is computed
-- without overflow, and the back-off is waited for.
use native.Mathlib.Nat.{pow-le-pow_right}
use system_security.Base.{
  ℕ, subst, ◌+◌, ◌-◌, ◌^◌, ◌≤◌, ◌<◌, ◌≡◌, true, some, List, [], ◌∷◌, arith, leb, ◌==◌, All, inl,
  inr, Bool-cases, Option-cases,
}
use system_security.Base.Assoc.{find_key, put_key, erase_key}
use system_security.RateLimiting.{
  ConfirmationResponseCode, Slot, RateLimiting, day, slot_or_new, init, get_backoff, do_gc,
  may_prompt, prompted, try_slot, try_prompt, cancel_prompt, roll_back, process_code,
  process_result, invalid_requester,
}

two_pow-ge : (n : ℕ) → 11 ≤ n → 2048 ≤ 2 ^ n
two_pow-ge n h = pow-le-pow_right (omega arith) h

two_pow-le : (n : ℕ) → n ≤ 11 → 2 ^ n ≤ 2048
two_pow-le n h = pow-le-pow_right (omega arith) h

-- A back-off that is shorter than a day is that of a counter of 16 at most.
get_backoff-short : (counter : ℕ) → get_backoff counter < day → counter ≤ 16
unfolding get_backoff
get_backoff-short counter h = ground (arith, two_pow-ge (counter - 6))

pub get_backoff-fits : (counter : ℕ) → counter ≤ 17 → get_backoff counter < 2 ^ 63
unfolding get_backoff
get_backoff-fits counter h = ground (arith, two_pow-le (counter - 6))

abbrev pub Small : ℕ × Slot → Type 0
Small p = p.1.counter ≤ 17

put_key-Small :
    (id : ℕ) (slot : Slot) (slots : List (ℕ × Slot))
    → slot.counter ≤ 17
    → All Small slots
    → All Small (put_key id slot slots)
unfolding put_key
put_key-Small id slot [] h k = (h, tt)
put_key-Small id slot ((j, s) ∷ slots) h k = elim (Bool-cases (j == id)) [
  | inl e ↦ rw e (h, k.1)
  | inr e ↦ rw e (k.0, put_key-Small id slot slots h k.1)
]

erase_key-Small :
    (id : ℕ) (slots : List (ℕ × Slot)) → All Small slots → All Small (erase_key id slots)
unfolding erase_key
erase_key-Small id [] k = tt
erase_key-Small id ((j, s) ∷ slots) k = elim (Bool-cases (j == id)) [
  | inl e ↦ rw e (erase_key-Small id slots k.1)
  | inr e ↦ rw e (k.0, erase_key-Small id slots k.1)
]

-- The slots that a collection at a time leaves were used in the day before it.
abbrev pub Recent : ℕ → ℕ × Slot → Type 0
Recent now p = now < p.1.prompt_start + day

do_gc-Small : (now : ℕ) (slots : List (ℕ × Slot)) → All Small slots → All Small (do_gc now slots)
unfolding do_gc
do_gc-Small now [] k = tt
do_gc-Small now ((j, s) ∷ slots) k = elim (Bool-cases (leb (s.prompt_start + day) now)) [
  | inl e ↦ rw e (do_gc-Small now slots k.1)
  | inr e ↦ rw e (k.0, do_gc-Small now slots k.1)
]

do_gc-Recent : (now : ℕ) (slots : List (ℕ × Slot)) → All (Recent now) (do_gc now slots)
unfolding do_gc
do_gc-Recent now [] = tt
do_gc-Recent now ((j, s) ∷ slots) = elim (Bool-cases (leb (s.prompt_start + day) now)) [
  | inl e ↦ rw e (do_gc-Recent now slots)
  | inr e ↦ rw e (ground arith, do_gc-Recent now slots)
]

pub find_key-All :
    (P : ℕ × Slot → Type 0) (id : ℕ) (slot : Slot) (slots : List (ℕ × Slot))
    → All P slots
    → find_key id slots ≡ some slot
    → P (id, slot)
unfolding find_key
find_key-All P id slot [] k e = cc
find_key-All P id slot ((j, s) ∷ slots) k e = elim (Bool-cases (j == id)) [
  | inl f ↦ subst P (ground (arith, e, f)) k.0
  | inr f ↦ find_key-All P id slot slots k.1 (ground (arith, e, f))
]

slot_or_new-Small :
    (id now : ℕ) (slots : List (ℕ × Slot))
    → All Small slots
    → (slot_or_new (find_key id slots)).counter ≤ 17
slot_or_new-Small id now slots k = elim (Option-cases (find_key id slots)) [
  | inl e ↦ rw e (omega arith)
  | inr (s, e) ↦ rw e (find_key-All Small id s slots k e)
]

-- A prompt is admitted from a counter of 16 at most.
pub may_prompt-counter :
    (now id : ℕ) (slots : List (ℕ × Slot))
    → may_prompt now (slot_or_new (find_key id (do_gc now slots))) ≡ true
    → (slot_or_new (find_key id (do_gc now slots))).counter ≤ 16
unfolding may_prompt
may_prompt-counter now id slots h = elim (Option-cases (find_key id (do_gc now slots))) [
  | inl e ↦ rw e (omega arith)
  | inr (s, e) ↦ ground (
    arith,
    h,
    e,
    find_key-All (Recent now) id s (do_gc now slots) (do_gc-Recent now slots) e,
    get_backoff-short s.counter,
  )
]

try_prompt-Small :
    (r : RateLimiting) (id now : ℕ) → All Small r.slots → All Small (try_prompt r id now).1.slots
unfolding try_prompt try_slot prompted
try_prompt-Small r id now k =
    let slots = do_gc now r.slots in
    elim (Bool-cases (may_prompt now (slot_or_new (find_key id slots)))) [
      | inl e ↦ rw (e) (
          put_key-Small id (prompted now (slot_or_new (find_key id slots))) slots
            (ground (arith, may_prompt-counter now id r.slots e)) (do_gc-Small now r.slots k))
      | inr e ↦ rw (e) (
          put_key-Small id (slot_or_new (find_key id slots)) slots
            (slot_or_new-Small id now slots (do_gc-Small now r.slots k))
            (do_gc-Small now r.slots k))
    ]

roll_back-Small :
    (r : RateLimiting) (slot : Slot)
    → slot.counter ≤ 17
    → All Small r.slots
    → All Small (roll_back r slot).slots
unfolding roll_back
roll_back-Small r slot h k = elim (Bool-cases (leb slot.counter 1)) [
  | inl e ↦ rw e (erase_key-Small r.latest_requester r.slots k)
  | inr e ↦ rw e (put_key-Small r.latest_requester _ r.slots (omega arith) k)
]

process_code-Small :
    (r : RateLimiting) (rc : ConfirmationResponseCode)
    → All Small r.slots
    → All Small (process_code r rc).slots
unfolding process_code
process_code-Small r ConfirmationResponseCode.ok k = erase_key-Small r.latest_requester r.slots k
process_code-Small r ConfirmationResponseCode.canceled k = k
process_code-Small r rc k =
    roll_back-Small r (slot_or_new (find_key r.latest_requester r.slots))
      (slot_or_new-Small r.latest_requester 0 r.slots k) k

process_result-Small :
    (r : RateLimiting) (rc : ConfirmationResponseCode)
    → All Small r.slots
    → All Small (process_result r rc).slots
unfolding process_result
process_result-Small r rc k = elim (Bool-cases (r.latest_requester == invalid_requester)) [
  | inl e ↦ rw e k
  | inr e ↦ rw e (process_code-Small r rc k)
]

-- What can become of the limiter, the clock being anything.
pub data Reachable : RateLimiting → Type 0 where
  started : (latest : ℕ) → Reachable (init latest)
  tried : (r : RateLimiting) (id now : ℕ) → Reachable r → Reachable (try_prompt r id now).1
  cancelled : (r : RateLimiting) → Reachable r → Reachable (cancel_prompt r)
  processed :
      (r : RateLimiting) (rc : ConfirmationResponseCode)
      → Reachable r
      → Reachable (process_result r rc)

Reachable-All : (r : RateLimiting) → Reachable r → All Small r.slots
unfolding init cancel_prompt
Reachable-All _ (Reachable.started latest) = tt
Reachable-All _ (Reachable.tried r id now h) = try_prompt-Small r id now (Reachable-All r h)
Reachable-All _ (Reachable.cancelled r h) = Reachable-All r h
Reachable-All _ (Reachable.processed r rc h) = process_result-Small r rc (Reachable-All r h)

pub Reachable-counter :
    (r : RateLimiting) (id : ℕ) (slot : Slot)
    → Reachable r
    → find_key id r.slots ≡ some slot
    → slot.counter ≤ 17
Reachable-counter r id slot h e = find_key-All Small id slot r.slots (Reachable-All r h) e

-- No slot that is reached has a counter of more than 17, and its back-off fits in the 64 bits of a
-- count of nanoseconds.
pub Reachable-Bounded :
    (r : RateLimiting) (id : ℕ) (slot : Slot)
    → Reachable r
    → find_key id r.slots ≡ some slot
    → (slot.counter ≤ 17) × (get_backoff slot.counter < 2 ^ 63)
Reachable-Bounded r id slot h e = (
  Reachable-counter r id slot h e,
  get_backoff-fits slot.counter (Reachable-counter r id slot h e),
)
