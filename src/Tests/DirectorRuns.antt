-- ===== src/Tests/DirectorRuns.antt =====
-- Tests of src/traffic_director.rs.
use mpconn.Base.{◌≡◌, refl, [], ◌∷◌, arith}
use mathlib.Core.Option
use mpconn.Base.HashMap
use mpconn.Net.{v4, MacAddr, MacAddr-discrete}
use mpconn.TrafficDirector.{
  peer, new_layer2, new_layer3, extract_ether_src, extract_ether_dst, learn_path, get_path,
  insert_route, get_route, extract_destination_address,
}
use mpconn.TrafficDirector.Learning.{first_learnt, get_path-learn_path}
use mpconn.TrafficDirector.Routing.{get_route-insert_route}
use mpconn.Tests.Values.{slicer}

abbrev mac2 : MacAddr
mac2 = 2 ∷ 2 ∷ 2 ∷ 2 ∷ 2 ∷ 2 ∷ []

get_path-learn_path_example :
    get_path slicer (2 ∷ 1 ∷ []) (learn_path slicer 7 (1 ∷ 2 ∷ []) new_layer2)
    ≡ Option.map peer (first_learnt 7 (HashMap.get MacAddr-discrete mac2 new_layer2.mac_table))
unfolding extract_ether_src extract_ether_dst
get_path-learn_path_example =
    get_path-learn_path slicer 7 (1 ∷ 2 ∷ []) new_layer2 (2 ∷ 1 ∷ []) mac2 refl refl
      (λ e. ground (arith, e))

get_route-insert_route_example :
    get_route slicer (9 ∷ []) (insert_route 7 (v4 9) new_layer3).0
    ≡ first_learnt 7 (get_route slicer (9 ∷ []) new_layer3)
unfolding extract_destination_address
get_route-insert_route_example = get_route-insert_route slicer 7 (v4 9) new_layer3 (9 ∷ []) refl
