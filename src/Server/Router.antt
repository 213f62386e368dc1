-- ===== src/Server/Router.antt =====
-- crates/kernway-server/src/router.rs: the trie of routes, how a route is added to it, and the walk
-- that finds one. A handler is a value of any type `H`; a static child is found by its segment,
-- so the hash table that holds the children is their association list. `str::to_uppercase`, which is that
-- of Unicode, is a parameter.
pub mod Peeling
pub mod Search
pub mod Routes
pub mod Table
pub mod Bindings
mod Tests
use kernway.Prelude.{
  ℕ, zero, suc, ◌+◌, Bool, true, false, not, Option, none, some, List, [], ◌∷◌, ◌++◌, ◌==◌,
  if◌then◌else◌, keep, length, Bytes, bytes_eq, is_empty, split, eq_ignore_case, Map, insert,
  remove, same,
}

mutual
  -- `Node`: the children by exact segment, the parameter child, the endpoints by method.
  pub data Node (H : Type 0) : Type 0 where
    node : Statics H → ParamChild H → List (Bytes × H) → Node H

  pub data Statics (H : Type 0) : Type 0 where
    nil : Statics H
    child : Bytes → Node H → Statics H → Statics H

  pub data ParamChild (H : Type 0) : Type 0 where
    no_param : ParamChild H
    param : Bytes → Node H → ParamChild H

abbrev pub Params : Type 0
Params = Map Bytes Bytes

-- The non-empty path segments.
unfoldable pub segments : Bytes → List Bytes
segments path = keep (λ s. not (is_empty s)) (split b'/' path)

-- `strip_suffix('}')`
strip_close : Bytes → Option Bytes
strip_close [] = none
strip_close (c ∷ []) = if c == b'}' then some [] else none
strip_close (c ∷ d ∷ s) = elim (strip_close (d ∷ s)) [ none ↦ none | some t ↦ some (c ∷ t) ]

-- The name inside a pattern segment, if it is a placeholder.
unfoldable pub placeholder : Bytes → Option Bytes
unfolding strip_close
placeholder [] = none
placeholder (c ∷ s) = if c == b'{' then strip_close s else none

-- `path.trim_start_matches('/')`
trim_slashes : Bytes → Bytes
trim_slashes [] = []
trim_slashes (c ∷ s) = let rest = trim_slashes s in if c == b'/' then rest else c ∷ s

-- The first segment and what follows its slash.
cut : Bytes → Bytes × Bytes
cut [] = ([], [])
cut (c ∷ s) = let (seg, rest) = cut s in if c == b'/' then ([], s) else (c ∷ seg, rest)

-- A walk: what it finds, and the parameters as it leaves them.
abbrev pub Walk : Type 0 → Type 0
Walk H = Node H → Params → Option H × Params

module _ {H : Type 0} where
  abbrev pub empty_node : Node H
  empty_node = node nil no_param []

  -- The child for a segment, changed, or created and changed: `entry(segment).or_default()`.
  pub at_static : Bytes → (Node H → Node H) → Statics H → Statics H
  at_static seg f nil = child seg (f empty_node) nil
  at_static seg f (child s n rest) =
      if same s seg then child s (f n) rest else child s n (at_static seg f rest)

  -- The parameter child, which keeps the first name that was registered.
  pub at_param : Bytes → (Node H → Node H) → ParamChild H → ParamChild H
  at_param name f no_param = param name (f empty_node)
  at_param name f (param first n) = param first (f n)

  -- One step down from a node, by whether the segment is a placeholder.
  pub place : Option Bytes → Bytes → (Node H → Node H) → Node H → Node H
  place (some name) seg f (node st pc hs) = node st (at_param name f pc) hs
  place none seg f (node st pc hs) = node (at_static seg f st) pc hs

  module _ (to_uppercase : Bytes → Bytes) where
    pub add_at : List Bytes → Bytes → H → Node H → Node H
    add_at [] method handler (node st pc hs) =
        node st pc (hs ++ (to_uppercase method, handler) ∷ [])
    add_at (seg ∷ segs) method handler n =
        place (placeholder seg) seg (add_at segs method handler) n

    -- `Router::add`
    pub add : Bytes → Bytes → H → Node H → Node H
    add method pattern_ handler root = add_at (segments pattern_) method handler root

  -- The first handler registered for the method.
  pub handler_for : Bytes → List (Bytes × H) → Option H
  handler_for method [] = none
  handler_for method ((m, h) ∷ hs) =
      if eq_ignore_case m method then some h else handler_for method hs

  -- `statics.get(seg)`
  pub get_static : Bytes → Statics H → Option (Node H)
  get_static seg nil = none
  get_static seg (child s n rest) = if same s seg then some n else get_static seg rest

  -- The parameter branch: binds the segment, and unbinds the name where the branch fails.
  pub try_param : Walk H → Bytes → ParamChild H → Params → Option H × Params
  try_param go seg no_param ps = (none, ps)
  try_param go seg (param name n) ps =
      let (found, ps') = go n (insert name seg ps) in
      elim found [ some h ↦ (some h, ps') | none ↦ (none, remove name ps') ]

  -- The static branch, if there is one, then the parameter branch.
  pub try_static : Walk H → Bytes → ParamChild H → Option (Node H) → Params → Option H × Params
  try_static go seg pc none ps = try_param go seg pc ps
  try_static go seg pc (some n) ps =
      let (found, ps') = go n ps in
      elim found [ some h ↦ (some h, ps') | none ↦ try_param go seg pc ps' ]

  pub descend : Walk H → Bytes → Node H → Params → Option H × Params
  descend go seg (node st pc hs) ps = try_static go seg pc (get_static seg st) ps

  pub endpoint : Bytes → Node H → Option H
  endpoint method (node st pc hs) = handler_for method hs

  -- `walk`, on fuel: one segment of the path is taken off for each unit.
  pub walk : ℕ → Bytes → Node H → Bytes → Params → Option H × Params
  walk zero method n path ps = (none, ps)
  walk (suc fuel) method n path ps =
      let rest = (cut (trim_slashes path)).1 in
      let go = λ (m : Node H) (qs : Params). walk fuel method m rest qs in
      if is_empty (trim_slashes path)
      then (endpoint method n, ps)
      else descend go (cut (trim_slashes path)).0 n ps

  -- `Router::find`; a path has fewer segments than bytes.
  pub find : Bytes → Bytes → Node H → Option (H × Params)
  find method path root =
      let (found, ps) = walk (length path + 1) method root path [] in
      elim found [ none ↦ none | some h ↦ some (h, ps) ]
