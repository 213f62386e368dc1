-- ===== src/Server/Router/Table.antt =====
-- crates/kernway-server/src/router.rs: a router as the table of its routes, in the order in which they
-- were added, and what `find` answers by it.
use kernway.Prelude.{
  ◌+◌, ◌≡◌, refl, sym, ap, ◌∙◌, Bool, true, ◌⊎◌, inl, inr, Option, some, List, [], ◌∷◌, arith, ◌&&◌,
  ◌||◌, any, Bytes, eq_ignore_case, length, All, ◌<◌, uppercase, lowercase-uppercase,
}
use kernway.Server.Router.{Node, Params, segments, empty_node, add, walk, find}
use kernway.Server.Router.Peeling.{walk-segments}
use kernway.Server.Router.Search.{fits, search_handler, walk-search, search-empty}
use kernway.Server.Router.Routes.{is_some, add-Answers, add-Sound}

pub record Route (H : Type 0) : Type 0 where
  pub method : Bytes
  pub path : Bytes
  pub handler : H

module _ {H : Type 0} where
  -- The route's method is ASCII text.
  abbrev pub HasAsciiMethod : Route H → Type 0
  HasAsciiMethod r = All (λ b. b < 0x80) r.method

  -- The route is one for the request: its method up to case, and its pattern segment by segment.
  abbrev pub serves : Bytes → Bytes → Route H → Bool
  serves method path r = fits (segments r.path) (segments path) && eq_ignore_case r.method method

  abbrev pub Some : (Route H → Type 0) → List (Route H) → Type 0
  Some P [] = ⊥
  Some P (r ∷ rs) = P r ⊎ Some P rs

  found-search :
      (method path : Bytes) (root : Node H) (ps : Params)
      → (walk (length path + 1) method root path ps).0 ≡ search_handler method (segments path) root
  found-search method path root ps =
      ap (λ (r : Option H × Params). r.0)
        (walk-segments (length path + 1) method root path ps (omega arith))
      ∙ walk-search method (segments path) root ps

module _ {H : Type 0} (to_uppercase : Bytes → Bytes) where
  unfoldable pub add_all : List (Route H) → Node H → Node H
  add_all [] n = n
  add_all (r ∷ rs) n = add_all rs (add to_uppercase r.method r.path r.handler n)

  -- The router after the routes were added in order.
  abbrev pub router : List (Route H) → Node H
  router rs = add_all rs empty_node

same_letters :
    (to_uppercase : Bytes → Bytes)
    → ((s : Bytes) → All (λ b. b < 0x80) s → to_uppercase s ≡ uppercase s)
    → (method m : Bytes) → All (λ b. b < 0x80) m
    → eq_ignore_case (to_uppercase m) method ≡ eq_ignore_case m method
same_letters to_uppercase ascii method m h = rw (ascii m h, lowercase-uppercase m) refl

module _ {H : Type 0} (to_uppercase : Bytes → Bytes)
    (to_uppercase_ascii : (s : Bytes) → All (λ b. b < 0x80) s → to_uppercase s ≡ uppercase s) where
  all-answers :
      (method path : Bytes) (rs : List (Route H)) (n : Node H)
      → All HasAsciiMethod rs
      → is_some (search_handler method (segments path) (add_all to_uppercase rs n))
        ≡ is_some (search_handler method (segments path) n) || any (serves method path) rs
  unfolding add_all add
  all-answers method path [] n a = ground arith
  all-answers method path (r ∷ rs) n (m, a) = ground (
    arith,
    all-answers method path rs (add to_uppercase r.method r.path r.handler n) a,
    add-Answers to_uppercase method r.method
        (same_letters to_uppercase to_uppercase_ascii method r.method m) r.handler (segments r.path)
        (segments path) n,
  )

  all_sound :
      (method path : Bytes) (rs : List (Route H)) (n : Node H)
      → All HasAsciiMethod rs
      → (x : H) → search_handler method (segments path) (add_all to_uppercase rs n) ≡ some x
      → (search_handler method (segments path) n ≡ some x)
        ⊎ Some (λ r. (r.handler ≡ x) × (serves method path r ≡ true)) rs
  unfolding add_all add
  all_sound method path [] n a x found = inl found
  all_sound method path (r ∷ rs) n (m, a) x found =
      elim (all_sound method path rs (add to_uppercase r.method r.path r.handler n) a x found) [
        | inr later ↦ inr (inr later)
        | inl here ↦ ground (
          arith,
          add-Sound to_uppercase method r.method
              (same_letters to_uppercase to_uppercase_ascii method r.method m) r.handler
              (segments r.path) (segments path) n x here,
        )
      ]

  -- `find` answers a request exactly when some route of the table serves it, whatever the order of
  -- the routes, if the methods of the routes are ASCII text, on which `to_uppercase` is `to_ascii_uppercase`.
  pub find-answers :
      (method path : Bytes) (rs : List (Route H))
      → All HasAsciiMethod rs
      → is_some (find method path (router to_uppercase rs)) ≡ any (serves method path) rs
  unfolding find
  find-answers method path rs a = ground (
    arith,
    found-search method path (router to_uppercase rs) [],
    all-answers method path rs empty_node a,
    search-empty {H = H} method (segments path),
  )

  -- The handler that `find` returns is that of a route of the table that serves the request, if the methods of
  -- the routes are ASCII text.
  pub find_sound :
      (method path : Bytes) (rs : List (Route H)) (x : H) (ps : Params)
      → All HasAsciiMethod rs
      → find method path (router to_uppercase rs) ≡ some (x, ps)
      → Some (λ r. (r.handler ≡ x) × (serves method path r ≡ true)) rs
  unfolding find
  find_sound method path rs x ps a h =
      let found : search_handler method (segments path) (router to_uppercase rs) ≡ some x =
        sym (found-search method path (router to_uppercase rs) []) ∙ ground arith in
      elim (all_sound method path rs empty_node a x found) [
        | inl early ↦ absurd (ground (arith, early, search-empty {H = H} method (segments path)))
        | inr listed ↦ listed
      ]
