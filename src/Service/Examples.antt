-- ===== src/Service/Examples.antt =====
-- A host on which the theorems about services apply.
use omphalos.Base.{◌≡◌, refl, List, [], ◌∷◌, Option, none, some, true, false, ℕ}
use omphalos.Service.{
  L4Srv, L3Host, observe_service, walk, keep, store, l3_setservices, l3_getservices, new_service,
}
use omphalos.Service.Order.{key}
use omphalos.Service.Sorted.{lookup}
use omphalos.Service.Observe.{lookup-observe_service}

-- DNS over UDP and SSH over TCP.
abbrev ssh : L4Srv
ssh = record { proto = 6; port = 22; srv = 115 ∷ 115 ∷ 104 ∷ []; srvver = none }

abbrev dns : L4Srv
dns = record { proto = 17; port = 53; srv = 100 ∷ 110 ∷ 115 ∷ []; srvver = none }

abbrev host : L3Host
host = record { services = ssh ∷ dns ∷ []; nosrvs = false }

abbrev http : List ℕ
http = 104 ∷ 116 ∷ []

abbrev host_with_http : L3Host × Option L4Srv
host_with_http = observe_service true host 6 80 http none

-- The new service stands between the two.
observed_in_order :
    host_with_http.0.services
    ≡ ssh ∷ (record { proto = 6; port = 80; srv = http; srvver = none }) ∷ dns ∷ []
unfolding observe_service walk keep store l3_setservices l3_getservices new_service
observed_in_order = refl

lookup-observe_service_example : lookup (key dns) host_with_http.0.services ≡ some dns
lookup-observe_service_example =
    lookup-observe_service true host 6 80 http none (key dns) (refl, (tt, tt))
