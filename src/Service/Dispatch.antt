-- ===== src/Service/Dispatch.antt =====
-- cocaine12/dispatch.go: the methods of a service and the protocol trees of their streams. A map
-- is iterated in the order of its list; Go leaves the order open.
use cocaine_framework_go.Prelude.{
  ℕ, ◌==◌, if◌then◌else◌, Bytes, bytes_eq, List, [], ◌∷◌, Option, none, some,
}
use cocaine_framework_go.Errors.{Result, ok, err, no_method}
use cocaine_framework_go.Effects.{Outcome, done, panic, nil_dereference}

pub data DispatchType : Type 0 where
  recursive_dispatch empty_dispatch other_dispatch : DispatchType

-- A *streamDescription: nil, or a map from method numbers to a name and a description.
mutual
  pub data StreamDescription : Type 0 where
    nil : StreamDescription
    tree : StreamItems → StreamDescription

  pub data StreamItems : Type 0 where
    end : StreamItems
    item : ℕ → Bytes → StreamDescription → StreamItems → StreamItems

pub record DispatchItem : Type 0 where
  pub name : Bytes
  pub downstream : StreamDescription
  pub upstream : StreamDescription

-- streamDescription.Type
unfoldable pub dispatch_type : StreamDescription → DispatchType
dispatch_type nil = recursive_dispatch
dispatch_type (tree end) = empty_dispatch
dispatch_type (tree (item n name d rest)) = other_dispatch

-- The entry of a method in the map, `none` if there is none.
unfoldable pub find_item : ℕ → StreamItems → Option (Bytes × StreamDescription)
find_item method end = none
find_item method (item n name d rest) =
    if n == method then some (name, d) else find_item method rest

-- (*streamDescription).MethodByName: nil has no map to iterate.
unfoldable pub items_method : Bytes → StreamItems → Result ℕ
items_method name end = err (no_method name)
items_method name (item n label d rest) =
    if bytes_eq label name then ok n else items_method name rest

unfoldable pub method_by_name : Bytes → StreamDescription → Outcome (Result ℕ)
unfolding items_method
method_by_name name nil = panic nil_dereference
method_by_name name (tree items) = done (items_method name items)

-- (*dispatchMap).MethodByName
unfoldable pub api_method : Bytes → List (ℕ × DispatchItem) → Result ℕ
api_method name [] = err (no_method name)
api_method name ((n, v) ∷ api) = if bytes_eq v.name name then ok n else api_method name api
