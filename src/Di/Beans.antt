-- ===== src/Di/Beans.antt =====
-- crates/di-core/src/bean.rs and the registration and lookup of crates/di-core/src/context.rs. A `TypeId` is a
-- number; an instance behind `Arc<dyn Any>` is the type of what it holds and which object it is. The
-- trait bindings are kept in the same map, under the type of `Arc<dyn Trait>`.
pub mod Lookup
mod Tests
use kernway.Prelude.{
  ℕ, Bool, true, false, not, ◌&&◌, Option, none, some, List, [], ◌∷◌, ◌++◌, map, ◌==◌,
  if◌then◌else◌, ◌+◌, unwrap_or, length, any, keep, Bytes, bytes_eq, nat_eq, same, Map, lookup,
  insert,
}

pub data BeanOrigin : Type 0 where
  framework_default builder : BeanOrigin
  user : BeanOrigin

pub record BeanEntry : Type 0 where
  pub type_id : ℕ
  pub type_name : Bytes
  pub origin : BeanOrigin
  pub is_primary : Bool
  pub qualifier : Option Bytes

pub record Instance : Type 0 where
  pub concrete : ℕ
  pub address : ℕ

-- `DiError`
pub data DiError : Type 0 where
  not_found : Bytes → DiError
  ambiguous : Bytes → DiError
  circular_dependency : Bytes → DiError
  missing_dependency : Bytes → DiError
  type_mismatch : Bytes → DiError

-- A result, or a panic. `out_of_fuel` is that of the model alone.
pub data Outcome (A : Type 0) : Type 0 where
  ok : A → Outcome A
  err : DiError → Outcome A
  panic : Outcome A
  out_of_fuel : Outcome A

-- What a component type declares: the associated functions of `RegistersComponent`.
pub record Component : Type 0 where
  pub type_id : ℕ
  pub type_name : Bytes
  pub bean_origin : BeanOrigin
  pub is_primary : Bool
  pub qualifier : Option Bytes
  pub dependencies : List ℕ
  pub optional_dependencies : List ℕ
  pub provides : List ℕ

-- The closure `build` of a definition is that of its component.
pub record ComponentDef : Type 0 where
  pub type_name : Bytes
  pub deps : List ℕ
  pub opt_deps : List ℕ
  pub provides : List ℕ
  pub component : Component

abbrev pub Filed : Type 0
Filed = BeanEntry × Instance

pub record AppContext : Type 0 where
  pub instances : Map ℕ (List Filed)
  pub pending : List ComponentDef

abbrev pub empty : AppContext
empty = record { instances = []; pending = [] }

unfoldable pub is_default : BeanEntry → Bool
is_default e = elim e.origin [ framework_default ↦ true | builder ↦ false | user ↦ false ]

-- `BeanEntry::new`
unfoldable pub entry : ℕ → Bytes → BeanOrigin → BeanEntry
entry type_id name origin = record {
  type_id = type_id;
  type_name = name;
  origin = origin;
  is_primary = false;
  qualifier = none;
}

-- The list of a type after a bean is filed: defaults give way to a bean of the user.
unfoldable pub filed : BeanEntry → Instance → List Filed → List Filed
filed e i list =
    if is_default e
    then (if any (λ f. not (is_default f.0)) list then list else list ++ (e, i) ∷ [])
    else keep (λ f. not (is_default f.0)) list ++ (e, i) ∷ []

unfoldable pub beans : AppContext → ℕ → List Filed
beans c type_id = unwrap_or (lookup type_id c.instances) []

unfoldable pub register_with_entry :
    AppContext → BeanEntry → Instance → Outcome (Unit {0}) × AppContext
register_with_entry c e i =
    if i.concrete == e.type_id
    then (
      ok tt,
      record c { instances = insert e.type_id (filed e i (beans c e.type_id)) c.instances },
    )
    else (err (type_mismatch e.type_name), c)

pub register_instance : AppContext → ℕ → Bytes → Instance → Outcome (Unit {0}) × AppContext
register_instance c type_id name i = register_with_entry c (entry type_id name user) i

pub register_qualified : AppContext → ℕ → Bytes → Bytes → Instance → Outcome (Unit {0}) × AppContext
register_qualified c type_id name q i =
    register_with_entry c (record (entry type_id name user) { qualifier = some q }) i

-- `downcast::<T>().expect(..)`
unfoldable pub downcast : ℕ → Instance → Outcome Instance
downcast type_id i = if i.concrete == type_id then ok i else panic

-- The only bean of a list, or what it is to have none or several.
only : ℕ → DiError → DiError → List Filed → Outcome Instance
only type_id nothing several [] = err nothing
only type_id nothing several (f ∷ []) = downcast type_id f.1
only type_id nothing several (f ∷ g ∷ fs) = err several

get_from : ℕ → Bytes → List Filed → Outcome Instance
get_from type_id name (f ∷ []) = downcast type_id f.1
get_from type_id name list =
    only type_id (ambiguous name) (ambiguous name) (keep (λ f. f.0.is_primary) list)

with_list : Bytes → (List Filed → Outcome Instance) → Option (List Filed) → Outcome Instance
with_list name f none = err (not_found name)
with_list name f (some list) = f list

pub get : AppContext → ℕ → Bytes → Outcome Instance
get c type_id name = with_list name (get_from type_id name) (lookup type_id c.instances)

pub has_qualifier : Bytes → Filed → Bool
has_qualifier q f = elim f.0.qualifier [ none ↦ false | some p ↦ same p q ]

pub get_qualified : AppContext → ℕ → Bytes → Bytes → Outcome Instance
get_qualified c type_id name q =
    with_list name
      (λ list. only type_id (not_found name) (ambiguous name) (keep (has_qualifier q) list))
      (lookup type_id c.instances)

-- `get_all`, which leaves out what does not downcast.
pub get_all : AppContext → ℕ → List Instance
get_all c type_id = keep (λ i. i.concrete == type_id) (map (λ f. f.1) (beans c type_id))

pub bean_count : Map ℕ (List Filed) → ℕ
bean_count [] = 0
bean_count ((k, list) ∷ m) = length list + bean_count m

unfoldable pub component_entry : Component → ℕ → Bytes → BeanEntry
component_entry t type_id name = record (entry type_id name t.bean_origin) {
  is_primary = t.is_primary;
  qualifier = t.qualifier;
}

unfoldable pub register_component : AppContext → Component → AppContext
register_component c t = record c {
  pending =
      c.pending
      ++ record {
        type_name = t.type_name;
        deps = t.dependencies;
        opt_deps = t.optional_dependencies;
        provides = t.provides;
        component = t;
      }
        ∷ [];
}

-- `AppContext::build`; how the type is built from the container is a parameter.
build_bean :
    (AppContext → Outcome Instance) → AppContext → ℕ → Bytes → Outcome Instance × AppContext
build_bean create c type_id name = elim (create c) [
  | err e ↦ (err e, c)
  | panic ↦ (panic, c)
  | out_of_fuel ↦ (out_of_fuel, c)
  | ok i ↦
      let (result, c1) = register_instance c type_id name i in
      elim result [
        | ok _ ↦ (ok i, c1)
        | err e ↦ (err e, c1)
        | panic ↦ (panic, c1)
        | out_of_fuel ↦ (out_of_fuel, c1)
      ]
]

-- A binding of a trait is filed under the type of `Arc<dyn Trait>`, which is what it holds.
abbrev binding : ℕ → ℕ → Instance
binding arc_type address = record { concrete = arc_type; address = address }

register_as : AppContext → ℕ → Bytes → ℕ → Outcome (Unit {0}) × AppContext
register_as c arc_type name address =
    register_with_entry c (entry arc_type name user) (binding arc_type address)

register_as_component : AppContext → Component → ℕ → Bytes → ℕ → Outcome (Unit {0}) × AppContext
register_as_component c t arc_type name address =
    register_with_entry c (component_entry t arc_type name) (binding arc_type address)

pub get_as : AppContext → ℕ → Bytes → Outcome ℕ
get_as c arc_type name = elim (get c arc_type name) [
  | ok i ↦ ok i.address
  | err e ↦ err e
  | panic ↦ panic
  | out_of_fuel ↦ out_of_fuel
]

pub get_all_as : AppContext → ℕ → List ℕ
get_all_as c arc_type = map (λ i. i.address) (get_all c arc_type)
