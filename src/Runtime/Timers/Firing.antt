-- ===== src/Runtime/Timers/Firing.antt =====
-- crates/rt-core/src/time.rs: which timers fire, when the executor must wake up next, and the invariant of
-- heap and wakers.
use kernway.Prelude.{
  ℕ, ◌≤◌, ◌<◌, ◌≡◌, refl, sym, ◌∙◌, Bool, true, false, ◌&&◌, Option, none, some, List, [], ◌∷◌,
  ◌++◌, arith, ltb, leb, ◌==◌, ltb→lt, ltb→le, if◌then◌else◌, Bool-cases, inl, inr, ◌⊎◌, any, All,
  nat_eq, Map, lookup, remove, lookup-remove,
}
use kernway.Runtime.Timers.{Entry, pushed_waker, Timers, fire_from, fire_expired}

abbrev pub has : ℕ → List Entry → Bool
has id es = any (λ (e : Entry). e.id == id) es

-- Whether an entry of the timer has its deadline by now.
abbrev pub due : ℕ → ℕ → List Entry → Bool
due id now es = any (λ (e : Entry). e.id == id && leb e.deadline now) es

abbrev pub IsSorted : List Entry → Type 0
IsSorted [] = Unit
IsSorted (e ∷ es) = All (λ (f : Entry). e.deadline ≤ f.deadline) es × IsSorted es

due_late :
    (id now d : ℕ) (es : List Entry)
    → All (λ (f : Entry). d ≤ f.deadline) es
    → now < d
    → due id now es ≡ false
due_late id now d [] h k = refl
due_late id now d (e ∷ es) (h, hs) k = ground (arith, due_late id now d es hs k)

module _ {W : Type 0} where
  abbrev pub IsIn : W → List W → Type 0
  IsIn w [] = ⊥
  IsIn w (x ∷ xs) = (w ≡ x) ⊎ IsIn w xs

  IsIn-append : (w : W) (xs ys : List W) → IsIn w xs → IsIn w (xs ++ ys)
  IsIn-append w [] ys h = elim h [ ]
  IsIn-append w (x ∷ xs) ys (inl e) = inl e
  IsIn-append w (x ∷ xs) ys (inr h) = inr (IsIn-append w xs ys h)

  IsIn-last : (w : W) (xs : List W) → IsIn w (xs ++ w ∷ [])
  IsIn-last w [] = inl refl
  IsIn-last w (x ∷ xs) = inr (IsIn-last w xs)

  -- Every timer that has a waker has an entry in the heap, which is in order.
  pub record IsValid (t : Timers W) : Type 0 where
    pub sorted : IsSorted t.heap
    pub covered : (id : ℕ) (w : W) → lookup id t.wakers ≡ some w → has id t.heap ≡ true

  fire-lookup :
      (now j : ℕ) (es : List Entry) (ws : Map ℕ W) (out : List W)
      → IsSorted es
      → lookup j (fire_from now es ws out).1 ≡ (if due j now es then none else lookup j ws)
  unfolding fire_from
  fire-lookup now j [] ws out s = refl
  fire-lookup now j (e ∷ es) ws out (low, s) = elim (Bool-cases (ltb now e.deadline)) [
    | inl late ↦
        rw late (ground (arith, due_late j now e.deadline es low, ltb→lt now e.deadline late))
    | inr early ↦
        rw
          (
            early,
            fire-lookup now j es (remove e.id ws) (pushed_waker out (lookup e.id ws)) s,
            lookup-remove e.id j ws,
          )
          (ground (arith, ltb→le now e.deadline early))
  ]

  fire-has :
      (now j : ℕ) (es : List Entry) (ws : Map ℕ W) (out : List W)
      → has j es ≡ true
      → due j now es ≡ false
      → has j (fire_from now es ws out).0 ≡ true
  unfolding fire_from
  fire-has now j [] ws out h k = h
  fire-has now j (e ∷ es) ws out h k =
      ground (arith, h, k, fire-has now j es (remove e.id ws) (pushed_waker out (lookup e.id ws)))

  fire-IsSorted :
      (now : ℕ) (es : List Entry) (ws : Map ℕ W) (out : List W)
      → IsSorted es
      → IsSorted (fire_from now es ws out).0
  unfolding fire_from
  fire-IsSorted now [] ws out s = tt
  fire-IsSorted now (e ∷ es) ws out s = elim (Bool-cases (ltb now e.deadline)) [
    | inl late ↦ rw late s
    | inr early ↦
        rw early (fire-IsSorted now es (remove e.id ws) (pushed_waker out (lookup e.id ws)) s.1)
  ]

  pushed_waker-IsIn :
      (w : W) (out : List W) (o : Option W) → IsIn w out → IsIn w (pushed_waker out o)
  pushed_waker-IsIn w out none h = h
  pushed_waker-IsIn w out (some v) h = IsIn-append w out (v ∷ []) h

  fire-kept :
      (now : ℕ) (w : W) (es : List Entry) (ws : Map ℕ W) (out : List W)
      → IsIn w out
      → IsIn w (fire_from now es ws out).2
  unfolding fire_from
  fire-kept now w [] ws out h = h
  fire-kept now w (e ∷ es) ws out h = elim (Bool-cases (ltb now e.deadline)) [
    | inl late ↦ rw late h
    | inr early ↦ rw early (
        fire-kept now w es (remove e.id ws) (pushed_waker out (lookup e.id ws))
          (pushed_waker-IsIn w out (lookup e.id ws) h))
  ]

  fire-handed :
      (now j : ℕ) (w : W) (es : List Entry) (ws : Map ℕ W) (out : List W)
      → IsSorted es
      → lookup j ws ≡ some w
      → due j now es ≡ true
      → IsIn w (fire_from now es ws out).2
  unfolding fire_from
  fire-handed now j w [] ws out s h k = absurd (ground (arith, k))
  fire-handed now j w (e ∷ es) ws out (low, s) h k = elim (Bool-cases (ltb now e.deadline)) [
    | inl late ↦
        absurd (ground (arith, k, due_late j now e.deadline es low, ltb→lt now e.deadline late))
    | inr early ↦ rw early (elim (Bool-cases (e.id == j)) [
      | inl here ↦
          let mine : lookup e.id ws ≡ some w = ground (arith, h, here) in
          rw mine (fire-kept now w es (remove e.id ws) (out ++ w ∷ []) (IsIn-last w out))
      | inr other ↦
          fire-handed now j w es (remove e.id ws) (pushed_waker out (lookup e.id ws)) s
            (lookup-remove e.id j ws ∙ rw other h) (ground (arith, k, other))
    ])
  ]

  -- When timers fire at a time, exactly those with a deadline by then lose their waker, each of these
  -- wakers is handed out, those handed out before stay, and every timer left keeps its entry.
  pub fire_expired-due :
      (t : Timers W) (now : ℕ) (out : List W)
      → IsValid t
      → ((j : ℕ)
          → lookup j (fire_expired t now out).0.wakers
            ≡ (if due j now t.heap then none else lookup j t.wakers))
        × ((j : ℕ) (w : W)
            → lookup j t.wakers ≡ some w
            → due j now t.heap ≡ true
            → IsIn w (fire_expired t now out).1)
        × ((w : W) → IsIn w out → IsIn w (fire_expired t now out).1)
        × IsValid (fire_expired t now out).0
  unfolding fire_expired
  fire_expired-due t now out v = (
    (λ j. fire-lookup now j t.heap t.wakers out v.sorted),
    (λ j w h k. fire-handed now j w t.heap t.wakers out v.sorted h k),
    (λ w h. fire-kept now w t.heap t.wakers out h),
    record {
      sorted = fire-IsSorted now t.heap t.wakers out v.sorted;
      covered = λ j w h. left j w (sym (fire-lookup now j t.heap t.wakers out v.sorted) ∙ h);
    },
  )
    where
      left :
          (j : ℕ) (w : W)
          → (if due j now t.heap then none else lookup j t.wakers) ≡ some w
          → has j (fire_from now t.heap t.wakers out).0 ≡ true
      left j w h = elim (Bool-cases (due j now t.heap)) [
        | inl yes_ ↦ let x : none ≡ some w = rw yes_ at h in absurd (ground (arith, x))
        | inr no_ ↦ fire-has now j t.heap t.wakers out (v.covered j w (rw no_ at h)) no_
      ]
