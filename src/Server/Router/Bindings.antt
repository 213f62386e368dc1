-- ===== src/Server/Router/Bindings.antt =====
-- crates/kernway-server/src/router.rs: the parameters that a failed walk leaves behind. The source
-- states that they are left exactly as they were found.
use kernway.Prelude.{
  ℕ, ◌<◌, ◌≡◌, refl, Option, none, some, List, [], ◌∷◌, arith, Bool-cases, Option-cases, inl, inr,
  Bytes, bytes_eq, length, same, same_refl, lookup, insert, lookup-remove, remove-insert_new,
}
use mathlib.Core.Path.{subst}
use mathlib.Core.Option.{some-injective}
use kernway.Server.Router.{
  Node, node, Statics, nil, child, ParamChild, no_param, param, Params, Walk, segments, get_static,
  try_param, try_static, descend, walk,
}
use kernway.Server.Router.Peeling.{walk_segments, walk-segments}

-- No name is met below the node that is bound already, by the parameters or on the way there.
unfoldable mutual
  pub IsFresh : {H : Type 0} → Node H → Params → Type 0
  IsFresh (node st pc hs) ps = AreFresh st ps × IsFreshParam pc ps

  pub AreFresh : {H : Type 0} → Statics H → Params → Type 0
  AreFresh nil ps = Unit
  AreFresh (child s n rest) ps = IsFresh n ps × AreFresh rest ps

  pub IsFreshParam : {H : Type 0} → ParamChild H → Params → Type 0
  IsFreshParam no_param ps = Unit
  IsFreshParam (param name n) ps =
      (lookup name ps ≡ none) × ((seg : Bytes) → IsFresh n (insert name seg ps))

module _ {H : Type 0} where
  get_static-IsFresh :
      (seg : Bytes) (st : Statics H) (n : Node H) (ps : Params)
      → AreFresh st ps
      → get_static seg st ≡ some n
      → IsFresh n ps
  unfolding AreFresh get_static
  get_static-IsFresh seg nil n ps f h = cc
  get_static-IsFresh seg (child s m rest) n ps f h = elim (Bool-cases (same s seg)) [
    | inl e ↦ subst (λ (k : Node H). IsFresh k ps) (some-injective _ _ (rw e at h)) f.0
    | inr e ↦ get_static-IsFresh seg rest n ps f.1 (rw e at h)
  ]

  -- What a walk below does where it fails.
  abbrev Restores : Walk H → Type 0
  Restores go = (n : Node H) (ps : Params) → IsFresh n ps → (go n ps).0 ≡ none → (go n ps).1 ≡ ps

  try_param-Restores :
      (go : Walk H) (seg : Bytes) (pc : ParamChild H) (ps : Params)
      → Restores go
      → IsFreshParam pc ps
      → (try_param go seg pc ps).0 ≡ none
      → (try_param go seg pc ps).1 ≡ ps
  unfolding IsFreshParam try_param
  try_param-Restores go seg no_param ps r f h = refl
  try_param-Restores go seg (param name n) ps r f h =
      ground (arith, h, r n (insert name seg ps) (f.1 seg), remove-insert_new name seg ps f.0)

  try_static-Restores :
      (go : Walk H) (seg : Bytes) (pc : ParamChild H) (got : Option (Node H)) (ps : Params)
      → Restores go
      → IsFreshParam pc ps
      → ((n : Node H) → got ≡ some n → IsFresh n ps)
      → (try_static go seg pc got ps).0 ≡ none
      → (try_static go seg pc got ps).1 ≡ ps
  unfolding try_static
  try_static-Restores go seg pc none ps r fp fs h = try_param-Restores go seg pc ps r fp h
  try_static-Restores go seg pc (some n) ps r fp fs h = elim (Option-cases (go n ps).0) [
    | inr (x, e) ↦ absurd (ground (arith, h, e))
    | inl e ↦
        let back : (go n ps).1 ≡ ps = r n ps (fs n refl) e in
        let last : (try_param go seg pc ps).0 ≡ none = rw (e, back, try_static) at h in
        rw (e, back, try_static) (try_param-Restores go seg pc ps r fp last)
  ]

  walk_segments-restores :
      (method : Bytes) (segs : List Bytes) (n : Node H) (ps : Params)
      → IsFresh n ps
      → (walk_segments method n segs ps).0 ≡ none
      → (walk_segments method n segs ps).1 ≡ ps
  unfolding walk_segments IsFresh descend
  walk_segments-restores method [] n ps f h = refl
  walk_segments-restores method (seg ∷ segs) (node st pc hs) ps f h =
      try_static-Restores (λ m qs. walk_segments method m segs qs) seg pc (get_static seg st) ps
        (walk_segments-restores method segs) f.1 (λ n e. get_static-IsFresh seg st n ps f.0 e) h

  try_param-unbinds :
      (go : Walk H) (seg name : Bytes) (m : Node H) (ps : Params)
      → (try_param go seg (param name m) ps).0 ≡ none
      → lookup name (try_param go seg (param name m) ps).1 ≡ none
  unfolding try_param
  try_param-unbinds go seg name m ps h =
      ground (arith, h, lookup-remove name name (go m (insert name seg ps)).1, same_refl name)

  try_static-unbinds :
      (go : Walk H) (seg name : Bytes) (m : Node H) (got : Option (Node H)) (ps : Params)
      → (try_static go seg (param name m) got ps).0 ≡ none
      → lookup name (try_static go seg (param name m) got ps).1 ≡ none
  unfolding try_static
  try_static-unbinds go seg name m none ps h = try_param-unbinds go seg name m ps h
  try_static-unbinds go seg name m (some n) ps h =
      ground (arith, h, try_param-unbinds go seg name m (go n ps).1)

  -- Where no parameter name below the node is bound already or repeated on the way down, a walk
  -- that finds nothing leaves the parameters exactly as it found them.
  pub walk-restores :
      (method path : Bytes) (n : Node H) (ps : Params) (fuel : ℕ)
      → length path < fuel
      → IsFresh n ps
      → (walk fuel method n path ps).0 ≡ none
      → (walk fuel method n path ps).1 ≡ ps
  walk-restores method path n ps fuel enough f =
      rw (walk-segments fuel method n path ps enough)
        (walk_segments-restores method (segments path) n ps f)

  -- A walk that finds nothing below a node with a parameter child leaves its name unbound, whether
  -- or not it was bound before, wherever the path has a segment left.
  pub walk-unbinds :
      (method path : Bytes) (seg : Bytes) (segs : List Bytes) (st : Statics H) (name : Bytes)
      (m : Node H) (hs : List (Bytes × H)) (ps : Params) (fuel : ℕ)
      → length path < fuel
      → segments path ≡ seg ∷ segs
      → (walk fuel method (node st (param name m) hs) path ps).0 ≡ none
      → lookup name (walk fuel method (node st (param name m) hs) path ps).1 ≡ none
  unfolding walk_segments descend
  walk-unbinds method path seg segs st name m hs ps fuel enough split_ =
      rw (walk-segments fuel method (node st (param name m) hs) path ps enough, split_)
        (try_static-unbinds (λ k qs. walk_segments method k segs qs) seg name m (get_static seg st)
          ps)
