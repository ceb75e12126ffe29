-- ===== src/Route/Examples.antt =====
-- A table and routes on which the theorems apply.
use omphalos.Base.{arith, [], ◌∷◌, none, some}
use omphalos.Route.{Route, get_route}
use omphalos.Route.Table.{Added, Longest, add_route-Ordered, get_route-Longest}

-- 10.1.0.0/16, and the default route.
abbrev net : Route
net = record { iface = 1; dst = 0x0a010000 ∷ []; src = none; gw = none; maskbits = 16 }

abbrev default_route : Route
default_route = record {
  iface = 1;
  dst = 0 ∷ [];
  src = none;
  gw = some (0x0a010001 ∷ []);
  maskbits = 0;
}

-- 10.0.0.0/8, with a source.
abbrev wide : Route
wide = record {
  iface = 2;
  dst = 0x0a000000 ∷ [];
  src = some (0x0a000007 ∷ []);
  gw = none;
  maskbits = 8;
}

add_route-Ordered_example : Added (net ∷ default_route ∷ []) wide
add_route-Ordered_example =
    add_route-Ordered (net ∷ default_route ∷ []) wide ((omega arith, tt), (tt, tt))

-- 10.1.2.3 is in the network.
get_route-Longest_example :
    Longest
      (0x0a010203 ∷ [])
      (net ∷ default_route ∷ [])
      (get_route (net ∷ default_route ∷ []) (0x0a010203 ∷ []))
get_route-Longest_example =
    get_route-Longest (net ∷ default_route ∷ []) (0x0a010203 ∷ []) ((omega arith, tt), (tt, tt))
