-- ===== src/Runtime/Timers/Waiting.antt =====
-- crates/rt-core/src/time.rs: the deadline that the executor waits for, and the changes of single timers.
use kernway.Prelude.{
  ℕ, ◌≤◌, ◌≡◌, refl, true, false, ◌&&◌, ◌||◌, Option, none, some, List, [], ◌∷◌, arith, ◌==◌,
  Bool-cases, Option-cases, inl, inr, any, All, nat_eq, Map, lookup, lookup-remove, lookup-insert,
}
use kernway.Runtime.Timers.{
  Entry, before, push, is_some, Timers, park, cancel, next_from, next_deadline,
}
use kernway.Runtime.Timers.Firing.{has, IsSorted, IsValid}

push-All :
    (d : ℕ) (e : Entry) (es : List Entry)
    → d ≤ e.deadline
    → All (λ (f : Entry). d ≤ f.deadline) es
    → All (λ (f : Entry). d ≤ f.deadline) (push e es)
unfolding push
push-All d e [] h hs = (h, tt)
push-All d e (f ∷ fs) h (k, ks) = elim (Bool-cases (before e f)) [
  | inl y ↦ rw y (h, (k, ks))
  | inr n ↦ rw n (k, push-All d e fs h ks)
]

All-trans :
    (c d : ℕ) (es : List Entry)
    → c ≤ d
    → All (λ (f : Entry). d ≤ f.deadline) es
    → All (λ (f : Entry). c ≤ f.deadline) es
All-trans c d [] h k = tt
All-trans c d (e ∷ es) h (k, ks) = (omega arith, All-trans c d es h ks)

before_le : (e f : Entry) → before e f ≡ true → e.deadline ≤ f.deadline
unfolding before
before_le e f h = ground (arith, h)

after_le : (e f : Entry) → before e f ≡ false → f.deadline ≤ e.deadline
unfolding before
after_le e f h = ground (arith, h)

push-IsSorted : (e : Entry) (es : List Entry) → IsSorted es → IsSorted (push e es)
unfolding push
push-IsSorted e [] s = (tt, tt)
push-IsSorted e (f ∷ fs) (low, s) = elim (Bool-cases (before e f)) [
  | inl y ↦
      rw y ((before_le e f y, All-trans e.deadline f.deadline fs (before_le e f y) low), (low, s))
  | inr n ↦ rw n (push-All f.deadline e fs (after_le e f n) low, push-IsSorted e fs s)
]

has-push : (j : ℕ) (e : Entry) (es : List Entry) → has j (push e es) ≡ (e.id == j || has j es)
unfolding push
has-push j e [] = refl
has-push j e (f ∷ fs) = elim (Bool-cases (before e f)) [
  | inl y ↦ rw y refl
  | inr n ↦ rw n (ground (arith, has-push j e fs))
]

module _ {W : Type 0} where
  -- Parking a timer and cancelling one keep the heap in order and every waker's entry in it.
  pub park-IsValid :
      (t : Timers W) (id deadline : ℕ) (w : W)
      → IsValid t
      → IsValid (park t id deadline w) × IsValid (cancel t id)
  unfolding park cancel
  park-IsValid t id deadline w v = (
    parked (lookup id t.wakers) refl,
    record {
      sorted = v.sorted;
      covered = λ j u h. ground (arith, lookup-remove id j t.wakers, h, v.covered j u);
    },
  )
    where
      entry : Entry
      entry = record { deadline = deadline; id = id }

      parked : (o : Option W) → lookup id t.wakers ≡ o → IsValid (park t id deadline w)
      parked none e = rw e (record {
        sorted = push-IsSorted entry t.heap v.sorted;
        covered = λ j u h.
            ground
              (arith, lookup-insert id j w t.wakers, h, has-push j entry t.heap, v.covered j u);
      })
      parked (some old) e = rw e (record {
        sorted = v.sorted;
        covered = λ j u h.
            ground (arith, lookup-insert id j w t.wakers, h, v.covered id old e, v.covered j u);
      })

  later-All :
      (ws : Map ℕ W) (d : ℕ) (es : List Entry)
      → All (λ (f : Entry). d ≤ f.deadline) es
      → All (λ (f : Entry). is_some (lookup f.id ws) ≡ true → d ≤ f.deadline) es
  later-All ws d [] h = tt
  later-All ws d (e ∷ es) (h, hs) = ((λ live. h), later-All ws d es hs)

  -- What the loop leaves of the heap: the entries from the first live one on.
  next-heap :
      (es : List Entry) (ws : Map ℕ W)
      → IsSorted es
      → IsSorted (next_from es ws).1
        × ((j : ℕ)
            → is_some (lookup j ws) ≡ true
            → has j es ≡ true
            → has j (next_from es ws).1 ≡ true)
  unfolding next_from
  next-heap [] ws s = (tt, λ j live h. h)
  next-heap (e ∷ es) ws (low, s) = elim (Bool-cases (is_some (lookup e.id ws))) [
    | inl live ↦ rw live ((low, s), λ j l h. h)
    | inr dead ↦
        let (sorted, kept) = next-heap es ws s in
        rw dead (sorted, λ j l h. kept j l (ground (arith, h, l, dead)))
  ]

  Found : List Entry → Map ℕ W → Option ℕ → Type 0
  Found es ws none = (j : ℕ) → has j es ≡ true → lookup j ws ≡ none
  Found es ws (some d) =
      (any (λ (e : Entry). is_some (lookup e.id ws) && e.deadline == d) es ≡ true)
      × All (λ (e : Entry). is_some (lookup e.id ws) ≡ true → d ≤ e.deadline) es

  next-Found : (es : List Entry) (ws : Map ℕ W) → IsSorted es → Found es ws (next_from es ws).0
  unfolding next_from Found
  next-Found [] ws s = λ j h. ground (arith, h)
  next-Found (e ∷ es) ws (low, s) = elim (Bool-cases (is_some (lookup e.id ws))) [
    | inl live ↦ rw live (ground arith, ((λ l. omega arith), later-All ws e.deadline es low))
    | inr dead ↦ rw dead (skipped (next_from es ws).0 dead (next-Found es ws s))
  ]
    where
      skipped :
          (o : Option ℕ) → is_some (lookup e.id ws) ≡ false → Found es ws o → Found (e ∷ es) ws o
      skipped none dead h = λ j here. elim (Option-cases (lookup j ws)) [
        | inl e_ ↦ e_
        | inr (w, live) ↦ absurd (ground (arith, here, dead, live, h j))
      ]
      skipped (some d) dead h =
          (ground (arith, h.0, dead), ((λ l. absurd (ground (arith, l, dead))), h.1))

  -- No waker is left; or the deadline is that of a live entry, and no live entry has an earlier one.
  abbrev pub IsEarliest : Timers W → Option ℕ → Type 0
  IsEarliest t none = (id : ℕ) → lookup id t.wakers ≡ none
  IsEarliest t (some d) =
      (any (λ (e : Entry). is_some (lookup e.id t.wakers) && e.deadline == d) t.heap ≡ true)
      × All (λ (e : Entry). is_some (lookup e.id t.wakers) ≡ true → d ≤ e.deadline) t.heap

  -- The deadline that the executor is told is the least one of a live timer, and it is told none only
  -- if no timer has a waker; the stale entries dropped on the way change neither wakers nor validity.
  pub next_deadline-IsEarliest :
      (t : Timers W)
      → IsValid t
      → IsEarliest t (next_deadline t).0
        × ((next_deadline t).1.wakers ≡ t.wakers)
        × IsValid (next_deadline t).1
  unfolding next_deadline Found
  next_deadline-IsEarliest t v =
      let (sorted, kept) = next-heap t.heap t.wakers v.sorted in
      (
        earliest (next_from t.heap t.wakers).0 (next-Found t.heap t.wakers v.sorted),
        refl,
        record { sorted = sorted; covered = λ j w h. kept j (rw h refl) (v.covered j w h) },
      )
    where
      earliest : (o : Option ℕ) → Found t.heap t.wakers o → IsEarliest t o
      earliest none h = λ j. elim (Option-cases (lookup j t.wakers)) [
        | inl e ↦ e
        | inr (w, live) ↦ h j (v.covered j w live)
      ]
      earliest (some d) h = h
