-- ===== src/Server/Router/Search.antt =====
-- crates/kernway-server/src/router.rs: which handler the walk along a path's segments finds, apart from
-- the parameters, and what adding a route does to it.
use kernway.Prelude.{
  ◌≡◌, refl, Bool, true, false, Option, none, some, List, [], ◌∷◌, ◌++◌, arith, ◌&&◌, if◌then◌else◌,
  Bytes, bytes_eq, same, same_iff, eq_ignore_case, insert,
}
use kernway.Server.Router.{
  Node, node, Statics, nil, child, ParamChild, no_param, param, Params, Walk, placeholder,
  empty_node, at_static, handler_for, get_static, try_param, try_static, descend, endpoint,
}
use kernway.Server.Router.Peeling.{walk_segments}

abbrev pub fits_one : Option Bytes → Bytes → Bytes → Bool
fits_one none p s = same p s
fits_one (some name) p s = true

-- The path segments fit the pattern segments: equal, or at a placeholder.
abbrev pub fits : List Bytes → List Bytes → Bool
fits [] [] = true
fits (p ∷ ps) (s ∷ ss) = fits_one (placeholder p) p s && fits ps ss
fits _ _ = false

module _ {H : Type 0} where
  -- The first of two searches that finds something.
  abbrev pub or_else : Option H → Option H → Option H
  or_else none b = b
  or_else (some a) b = some a

  -- The walk without its parameters.
  abbrev pub in_static : (Node H → Option H) → Option (Node H) → Option H
  in_static go none = none
  in_static go (some n) = go n

  abbrev pub in_param : (Node H → Option H) → ParamChild H → Option H
  in_param go no_param = none
  in_param go (param name n) = go n

  unfoldable pub search_handler : Bytes → List Bytes → Node H → Option H
  search_handler method [] n = endpoint method n
  search_handler method (seg ∷ segs) (node st pc hs) =
      or_else (in_static (search_handler method segs) (get_static seg st))
        (in_param (search_handler method segs) pc)

  try_param-found :
      (go : Walk H) (find : Node H → Option H) (seg : Bytes) (pc : ParamChild H) (ps : Params)
      → ((n : Node H) (qs : Params) → (go n qs).0 ≡ find n)
      → (try_param go seg pc ps).0 ≡ in_param find pc
  unfolding try_param
  try_param-found go find seg no_param ps h = refl
  try_param-found go find seg (param name n) ps h = ground (arith, h n (insert name seg ps))

  try_static-found :
      (go : Walk H) (find : Node H → Option H) (seg : Bytes) (pc : ParamChild H)
      (got : Option (Node H)) (ps : Params)
      → ((n : Node H) (qs : Params) → (go n qs).0 ≡ find n)
      → (try_static go seg pc got ps).0 ≡ or_else (in_static find got) (in_param find pc)
  unfolding try_static
  try_static-found go find seg pc none ps h = try_param-found go find seg pc ps h
  try_static-found go find seg pc (some n) ps h =
      ground (arith, h n ps, try_param-found go find seg pc (go n ps).1 h)

  pub walk-search :
      (method : Bytes) (segs : List Bytes) (n : Node H) (ps : Params)
      → (walk_segments method n segs ps).0 ≡ search_handler method segs n
  unfolding walk_segments search_handler descend
  walk-search method [] n ps = refl
  walk-search method (seg ∷ segs) (node st pc hs) ps =
      try_static-found (λ m qs. walk_segments method m segs qs) (search_handler method segs) seg pc
        (get_static seg st) ps (walk-search method segs)

  -- What adding an endpoint does to the handlers of a node.
  pub handler_for-append :
      (method m : Bytes) (h : H) (hs : List (Bytes × H))
      → handler_for method (hs ++ (m, h) ∷ [])
        ≡ or_else (handler_for method hs) (if eq_ignore_case m method then some h else none)
  unfolding handler_for
  handler_for-append method m h [] = refl
  handler_for-append method m h ((k, x) ∷ hs) = ground (arith, handler_for-append method m h hs)

  pub get_static-at_static :
      (seg key : Bytes) (f : Node H → Node H) (st : Statics H)
      → get_static seg (at_static key f st) ≡ (
          if same key seg
          then some (f (elim (get_static key st) [ none ↦ empty_node | some n ↦ n ]))
          else get_static seg st)
  unfolding get_static at_static
  get_static-at_static seg key f nil = ground (arith)
  get_static-at_static seg key f (child s n rest) =
      ground (
        arith,
        same_iff s seg,
        same_iff s key,
        same_iff key seg,
        get_static-at_static seg key f rest,
      )

  pub search-empty :
      (method : Bytes) (segs : List Bytes) → search_handler method segs empty_node ≡ none
  unfolding search_handler endpoint handler_for get_static
  search-empty method [] = refl
  search-empty method (seg ∷ segs) = refl
