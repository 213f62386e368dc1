-- ===== src/Server/Router/Routes.antt =====
-- crates/kernway-server/src/router.rs: the trie against the list of the routes added to it.
use kernway.Prelude.{
  ◌≡◌, ◌∙◌, Bool, true, false, ◌⊎◌, inl, inr, Option, none, some, List, [], ◌∷◌, arith, ◌&&◌, ◌||◌,
  Bool-cases, Option-cases, Bytes, bytes_eq, same, same_refl, same_iff, eq_ignore_case,
}
use kernway.Server.Router.{
  Node, node, Statics, ParamChild, no_param, param, placeholder, empty_node, at_static, at_param,
  place, add_at, get_static, endpoint,
}
use kernway.Server.Router.Search.{
  fits, in_static, in_param, search_handler, handler_for-append, get_static-at_static, search-empty,
}

abbrev pub is_some {ℓ} : {A : Type ℓ} → Option A → Bool
is_some none = false
is_some (some a) = true

module _ {H : Type 0} where
  -- Adding a route adds exactly the requests that fit it to those that are answered.
  module _ (to_uppercase : Bytes → Bytes) (method m : Bytes)
      (same_letters : eq_ignore_case (to_uppercase m) method ≡ eq_ignore_case m method)
      (h : H) where
    abbrev pub Answers : List Bytes → Type 0
    Answers ps =
        (segs : List Bytes) (n : Node H)
        → is_some (search_handler method segs (add_at to_uppercase ps m h n))
          ≡ is_some (search_handler method segs n) || (fits ps segs && eq_ignore_case m method)

    param-Answers :
        (name : Bytes) (ps segs : List Bytes) (pc : ParamChild H)
        → Answers ps
        → is_some
            (in_param (search_handler method segs) (at_param name (add_at to_uppercase ps m h) pc))
          ≡ is_some (in_param (search_handler method segs) pc)
            || (fits ps segs && eq_ignore_case m method)
    unfolding at_param
    param-Answers name ps segs no_param ih =
        ih segs empty_node ∙ ground (arith, search-empty {H = H} method segs)
    param-Answers name ps segs (param first n) ih = ih segs n

    static-Answers :
        (key seg : Bytes) (ps segs : List Bytes) (st : Statics H)
        → Answers ps
        → is_some (
            in_static
              (search_handler method segs)
              (get_static seg (at_static key (add_at to_uppercase ps m h) st)))
          ≡ is_some (in_static (search_handler method segs) (get_static seg st))
            || (same key seg && fits ps segs && eq_ignore_case m method)
    static-Answers key seg ps segs st ih = elim (Bool-cases (same key seg)) [
      | inr e ↦ rw (get_static-at_static seg key (add_at to_uppercase ps m h) st, e) (ground arith)
      | inl e ↦
          rw
            (
              get_static-at_static seg key (add_at to_uppercase ps m h) st,
              e,
              (same_iff key seg).0 e,
            )
            (elim (Option-cases (get_static seg st)) [
              | inl gone ↦
                  rw gone (ih segs empty_node ∙ ground (arith, search-empty {H = H} method segs))
              | inr (n, there) ↦ rw there (ih segs n)
            ])
    ]

    pub add-Answers : (ps : List Bytes) → Answers ps
    unfolding add_at place search_handler endpoint
    add-Answers [] [] (node st pc hs) =
        rw (handler_for-append method (to_uppercase m) h hs, same_letters) (ground arith)
    add-Answers [] (seg ∷ segs) (node st pc hs) = ground arith
    add-Answers (p ∷ ps) [] (node st pc hs) = elim (Option-cases (placeholder p)) [
      | inl e ↦ rw (e, place) (ground arith)
      | inr (name, e) ↦ rw (e, place) (ground arith)
    ]
    add-Answers (p ∷ ps) (seg ∷ segs) (node st pc hs) = elim (Option-cases (placeholder p)) [
      | inl e ↦ rw (e, place) (ground (arith, static-Answers p seg ps segs st (add-Answers ps)))
      | inr (name, e) ↦
          rw (e, place) (ground (arith, param-Answers name ps segs pc (add-Answers ps)))
    ]

    -- What a search finds after a route was added, it found before, or it is the route's handler
    -- and the request fits the route.
    abbrev pub Sound : List Bytes → Type 0
    Sound ps =
        (segs : List Bytes) (n : Node H) (x : H)
        → search_handler method segs (add_at to_uppercase ps m h n) ≡ some x
        → (search_handler method segs n ≡ some x)
          ⊎ ((h ≡ x) × (fits ps segs ≡ true) × (eq_ignore_case m method ≡ true))

    param-Sound :
        (name : Bytes) (ps segs : List Bytes) (pc : ParamChild H) (x : H)
        → Sound ps
        → in_param (search_handler method segs) (at_param name (add_at to_uppercase ps m h) pc)
          ≡ some x
        → (in_param (search_handler method segs) pc ≡ some x)
          ⊎ ((h ≡ x) × (fits ps segs ≡ true) × (eq_ignore_case m method ≡ true))
    unfolding at_param
    param-Sound name ps segs no_param x ih found =
        ground (arith, ih segs empty_node x found, search-empty {H = H} method segs)
    param-Sound name ps segs (param first n) x ih found = ih segs n x found

    static-Sound :
        (key seg : Bytes) (ps segs : List Bytes) (st : Statics H) (x : H)
        → Sound ps
        → in_static
            (search_handler method segs)
            (get_static seg (at_static key (add_at to_uppercase ps m h) st))
          ≡ some x
        → (in_static (search_handler method segs) (get_static seg st) ≡ some x)
          ⊎ ((h ≡ x) × ((same key seg && fits ps segs) ≡ true) × (eq_ignore_case m method ≡ true))
    static-Sound key seg ps segs st x ih = elim (Bool-cases (same key seg)) [
      | inr e ↦
          rw (get_static-at_static seg key (add_at to_uppercase ps m h) st, e) (λ found. inl found)
      | inl e ↦
          rw
            (
              get_static-at_static seg key (add_at to_uppercase ps m h) st,
              e,
              (same_iff key seg).0 e,
            )
            (elim (Option-cases (get_static seg st)) [
              | inl gone ↦ rw gone (λ found. ground (
                arith,
                same_refl seg,
                ih segs empty_node x found,
                search-empty {H = H} method segs,
              ))
              | inr (n, there) ↦
                  rw there (λ found. ground (arith, same_refl seg, ih segs n x found))
            ])
    ]

    pub add-Sound : (ps : List Bytes) → Sound ps
    unfolding add_at place search_handler endpoint
    add-Sound [] [] (node st pc hs) x =
        rw (handler_for-append method (to_uppercase m) h hs, same_letters) (λ found. ground arith)
    add-Sound [] (seg ∷ segs) (node st pc hs) x = λ found. inl found
    add-Sound (p ∷ ps) [] (node st pc hs) x = elim (Option-cases (placeholder p)) [
      | inl e ↦ rw (e, place) (λ found. inl found)
      | inr (name, e) ↦ rw (e, place) (λ found. inl found)
    ]
    add-Sound (p ∷ ps) (seg ∷ segs) (node st pc hs) x = elim (Option-cases (placeholder p)) [
      | inl e ↦
          rw (e, place)
            (λ found. ground (
              arith,
              found,
              static-Sound p seg ps segs st x (add-Sound ps),
              static-Answers p seg ps segs st (add-Answers ps),
            ))
      | inr (name, e) ↦
          rw (e, place)
            (λ found. ground (arith, found, param-Sound name ps segs pc x (add-Sound ps)))
    ]
