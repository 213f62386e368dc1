-- ===== src/Di/Beans/Tests.antt =====
-- A container with a default of the framework, and a bean of the user that replaces it.
use kernway.Prelude.{ℕ, ◌≡◌, refl, [], ◌∷◌, inl, lookup, insert, codes}
use kernway.Di.Beans.{
  framework_default, user, BeanEntry, Instance, type_mismatch, ambiguous, ok, err, AppContext,
  empty, is_default, entry, filed, beans, register_with_entry, register_instance,
  register_qualified, downcast, only, get_from, with_list, get, has_qualifier, get_qualified,
  get_all, bean_count,
}
use kernway.Di.Beans.Lookup.{IsValid, register_with_entry-IsValid, get-register_user}

container : Unit {0}
unfolding lookup insert is_default entry filed beans register_with_entry register_instance
    register_qualified downcast only get_from with_list get has_qualifier get_qualified get_all
    bean_count
container = tt

abbrev bean : ℕ → Instance
bean a = record { concrete = 7; address = a }

abbrev default : BeanEntry
default = entry 7 (codes "Mailer") framework_default

abbrev mine : BeanEntry
mine = entry 7 (codes "Mailer") user

abbrev one : AppContext
one = (register_with_entry empty default (bean 1)).1

empty-IsValid : IsValid empty
unfolding container
empty-IsValid k = record { typed = tt; layered = inl tt }

one-IsValid : IsValid one
one-IsValid = register_with_entry-IsValid empty default (bean 1) empty-IsValid

lookups :
    let two =
      (register_instance
        (register_instance one 7 (codes "Mailer") (bean 2)).1
        7
        (codes "Mailer")
        (bean 3)).1 in
    (get one 7 (codes "Mailer") ≡ ok (bean 1))
    × (get two 7 (codes "Mailer") ≡ err (ambiguous (codes "Mailer")))
    × (get_all two 7 ≡ bean 2 ∷ bean 3 ∷ [])
    × (bean_count two.instances ≡ 2)
    × (get_qualified
          (register_qualified two 7 (codes "Mailer") (codes "q") (bean 4)).1
          7
          (codes "Mailer")
          (codes "q")
        ≡ ok (bean 4))
    × ((register_instance one 8 (codes "Other") (bean 5)).0 ≡ err (type_mismatch (codes "Other")))
unfolding container
lookups = (refl, refl, refl, refl, refl, refl)

get-register_user_example :
    (get (register_with_entry one mine (bean 2)).1 7 (codes "Mailer") ≡ ok (bean 2))
    × (get
          (register_with_entry (register_with_entry one mine (bean 2)).1 default (bean 3)).1
          7
          (codes "Mailer")
        ≡ ok (bean 2))
unfolding container
get-register_user_example =
    get-register_user one mine default (bean 2) (bean 3) (codes "Mailer") refl refl refl refl refl
      (refl, tt)
