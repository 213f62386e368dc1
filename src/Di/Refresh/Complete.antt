-- ===== src/Di/Refresh/Complete.antt =====
-- crates/di-core/src/context.rs: `refresh` builds everything when some order of the components is
-- admissible, and its passes end.
use mathlib.Core.List.{Perm}
use mathlib.Core.List.Perm
use kernway.Prelude.{ℕ, ◌≡◌, Bool, not, ◌||◌, List, all, nat_eq}
use kernway.Di.Beans.{Instance, Outcome, ok, Component, ComponentDef, AppContext}
use kernway.Di.Refresh.{contains, Wiring, ready, start, wire, refresh}
use kernway.Di.Refresh.Order.{Built}
use kernway.Di.Refresh.Progress.{Linked}

module _ (create : Component → AppContext → Outcome Instance)
    (bind : Component → Instance → AppContext → Outcome (Unit {0}) × AppContext)
    (post_construct : Component → Instance → AppContext → Outcome (Unit {0})) where
  -- A component that is not ready is left, and one that is left is not ready.
  abbrev settled : Wiring → ComponentDef → Bool
  settled w d = not (ready w d) || all (contains w.available) d.provides

  record Wired (c : AppContext) : Type 0 where
    end_ : Wiring
    runs : wire create bind post_construct c ≡ (ok tt, end_)
    linked : Linked create bind post_construct end_

  -- What a `refresh` that builds everything leaves behind.
  pub record Completed (fuel : ℕ) (c : AppContext) : Type 0 where
    pub built : List ComponentDef
    pub end_ : Wiring
    pub all_queued : Perm built c.pending
    pub in_turn : Built create bind post_construct (start c c.pending) built end_
    pub result : refresh create bind post_construct fuel c ≡ (ok tt, end_.context)
