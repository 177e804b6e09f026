-- ===== src/Parsing/Clients/Tests.antt =====
-- Two nodes that are connected to, and the fields of their file.
use sim_ln.Prelude.{
  ℕ, ◌≡◌, refl, arith, none, some, List, [], ◌∷◌, Result, ok, HashMap, subst, ok_injective,
}
use sim_ln.Simulation.Types.{NodeInfo, LightningError, value, range}
use sim_ln.Simulation.Tests.{alice, bob, controlled}
use sim_ln.Simulation.Validation.{test}
use sim_ln.Simulation.Defined.{value_of}
use sim_ln.Bindings.Types.{Connected}
use sim_ln.Parsing.Options.{public_key, ActivityParser}
use sim_ln.Parsing.Validated.{IsIndexed}
use sim_ln.Parsing.Serializers.{
  deserialize_range, deserialize_address, base_url, IsDrawn, value_of-deserialize_range,
  base_url-deserialize_address,
}
use sim_ln.Parsing.Clients.{
  NewAnswer, CreatePromise, create_simulation, create_simulation-CreatePromise,
}

abbrev connected : NodeInfo → NewAnswer
connected info = some (ok (record { info = info; network = test 2 }))

abbrev connections : List NewAnswer
connections = connected alice ∷ connected bob ∷ []

abbrev graph_of : Connected → Result (HashMap NodeInfo) LightningError
graph_of c = ok controlled

graph_of-IsIndexed : (c : Connected) (g : HashMap NodeInfo) → graph_of c ≡ ok g → IsIndexed g
graph_of-IsIndexed c g e = subst IsIndexed (ok_injective e) (λ pk n h. ground arith)

-- Alice pays Bob.
abbrev to_bob : ActivityParser
to_bob = record {
  source = public_key 1;
  destination = public_key 2;
  start_secs = none;
  count = none;
  interval_secs = value 1;
  amount_msat = value 1000;
}

create_simulation-CreatePromise_example :
    CreatePromise connections (to_bob ∷ []) (create_simulation graph_of connections (to_bob ∷ []))
create_simulation-CreatePromise_example =
    create_simulation-CreatePromise graph_of graph_of-IsIndexed connections (to_bob ∷ [])

read_range : deserialize_range (range 3 9) ≡ ok (range 3 9)
unfolding deserialize_range
read_range = refl

value_of-deserialize_range_example : IsDrawn (range 3 9) (value_of (range 3 9) 100)
value_of-deserialize_range_example =
    value_of-deserialize_range (range 3 9) (range 3 9) 100 read_range

-- "ab/" without its scheme.
abbrev address : List ℕ
address = 97 ∷ 98 ∷ 47 ∷ []

base_url_read : base_url (deserialize_address address) ≡ 97 ∷ 98 ∷ []
unfolding base_url deserialize_address
base_url_read = refl

base_url-deserialize_address_example :
    (deserialize_address (deserialize_address address) ≡ deserialize_address address)
    × (base_url (deserialize_address address) ≡ base_url address)
base_url-deserialize_address_example = base_url-deserialize_address address
