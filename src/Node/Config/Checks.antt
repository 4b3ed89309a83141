-- ===== src/Node/Config/Checks.antt =====
-- Which tests a configuration that was constructed passed.
use rfmesh_workspace.Base.{
  ◌<◌, ◌≤◌, ◌≡◌, refl, Bool, true, false, not, ◌&&◌, ◌==◌, ltb, length, arith, ==→eq, opposite,
}
use rfmesh_workspace.Base.Results.{ok, refuse-eq-ok}
use rfmesh_workspace.Node.Config.{
  ArrayConfig, NodeConfig, is_set, declares_l2, is_heading, is_oriented, capabilities_consistency,
  make_node_config, make_array, geometry_consistency, by_geometry, is_parametric, count_of,
}

-- An array is described in one way: by its spacing, or by the place of each of its elements.
pub IsDescribed : ArrayConfig → Type 0
IsDescribed a =
    (2 ≤ a.n_elements)
    × (is_set a.element_spacing ≡ is_parametric a.geometry)
    × (is_set a.element_positions ≡ not (is_parametric a.geometry))
    × (is_set a.element_positions ≡ true → count_of a.element_positions ≡ a.n_elements)

-- What the constructor of a node's configuration promises its users.
pub record IsChecked {P : Type 0} (c : NodeConfig P) : Type 0 where
  pub names_node : 0 < length c.node_id
  pub declares : 0 < length c.capabilities
  pub has_heading : is_heading c.heading ≡ true
  pub array_for_l2 : is_set c.array ≡ declares_l2 c.capabilities
  pub heading_if_oriented : is_oriented c ≡ true → is_set c.heading ≡ true

agree : (x y : Bool) → (x && not y) ≡ false → (not x && y) ≡ false → y ≡ x
agree true true h k = refl
agree true false h k = cc
agree false true h k = cc
agree false false h k = refl

apart : (x y : Bool) → y ≡ x → (x && not y) ≡ false × (not x && y) ≡ false
apart true y h = (rw (h) refl, refl)
apart false y h = (refl, h)

implies : (x y : Bool) → (x && not y) ≡ false → x ≡ true → y ≡ true
implies true true h t = refl
implies true false h t = cc
implies false y h t = cc

guarded : (x y : Bool) → (x ≡ true → y ≡ true) → (x && not y) ≡ false
guarded true y h = rw (h refl) refl
guarded false y h = refl

module _ {P : Type 0} where
  -- A constructed configuration is the given one and passed all tests.
  pub make_node_config-IsChecked :
      (c d : NodeConfig P) → make_node_config c ≡ ok d → (d ≡ c) × IsChecked c
  unfolding make_node_config capabilities_consistency
  make_node_config-IsChecked c d h =
      let named = refuse-eq-ok (length c.node_id == 0) _ _ h in
      let headed = refuse-eq-ok (not (is_heading c.heading)) _ _ named.1 in
      let declared = refuse-eq-ok (length c.capabilities == 0) _ _ headed.1 in
      let l2 = refuse-eq-ok (declares_l2 c.capabilities && not (is_set c.array)) _ _ declared.1 in
      let plain = refuse-eq-ok (not (declares_l2 c.capabilities) && is_set c.array) _ _ l2.1 in
      let oriented = refuse-eq-ok (is_oriented c && not (is_set c.heading)) _ _ plain.1 in
      (
        cc,
        record {
          names_node = ground (arith, named.0);
          declares = ground (arith, declared.0);
          has_heading = opposite (is_heading c.heading) headed.0;
          array_for_l2 = agree (declares_l2 c.capabilities) (is_set c.array) l2.0 plain.0;
          heading_if_oriented = implies (is_oriented c) (is_set c.heading) oriented.0;
        },
      )

  -- Conversely, each such configuration is constructed.
  pub make_node_config_accepts : (c : NodeConfig P) → IsChecked c → make_node_config c ≡ ok c
  unfolding make_node_config capabilities_consistency
  make_node_config_accepts c v =
      let array = apart (declares_l2 c.capabilities) (is_set c.array) v.array_for_l2 in
      let named : (length c.node_id == 0) ≡ false = ground (arith, v.names_node) in
      let declared : (length c.capabilities == 0) ≡ false = ground (arith, v.declares) in
      let oriented = guarded (is_oriented c) (is_set c.heading) v.heading_if_oriented in
      rw (named, v.has_heading, declared, array.0, array.1, oriented) refl

by_geometry_described :
    (parametric : Bool) (a b : ArrayConfig)
    → by_geometry parametric a ≡ ok b
    → (b ≡ a)
      × (is_set a.element_spacing ≡ parametric)
      × (is_set a.element_positions ≡ not parametric)
      × (is_set a.element_positions ≡ true → count_of a.element_positions ≡ a.n_elements)
by_geometry_described true a b h =
    let spaced = refuse-eq-ok (not (is_set a.element_spacing)) _ _ h in
    let bare = refuse-eq-ok (is_set a.element_positions) _ _ spaced.1 in
    (cc, opposite _ spaced.0, bare.0, λ placed. absurd (cc))
by_geometry_described false a b h =
    let placed = refuse-eq-ok (not (is_set a.element_positions)) _ _ h in
    let bare = refuse-eq-ok (is_set a.element_spacing) _ _ placed.1 in
    let counted = refuse-eq-ok (not (count_of a.element_positions == a.n_elements)) _ _ bare.1 in
    (cc, bare.0, opposite _ placed.0, λ _. ==→eq _ _ (opposite _ counted.0))

-- A constructed array has two elements or more, and its description fits its geometry.
pub make_array-IsDescribed : (a b : ArrayConfig) → make_array a ≡ ok b → (b ≡ a) × IsDescribed a
unfolding make_array geometry_consistency IsDescribed
make_array-IsDescribed a b h =
    let enough = refuse-eq-ok (ltb a.n_elements 2) _ _ h in
    let described = by_geometry_described (is_parametric a.geometry) a b enough.1 in
    (described.0, (ground (arith, enough.0), described.1, described.2, described.3))
