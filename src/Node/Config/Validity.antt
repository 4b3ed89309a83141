-- ===== src/Node/Config/Validity.antt =====
-- Which configurations of a node are constructed.
use mathlib.Core.Path.{subst}
use rfmesh_workspace.Base.{
  ℕ, ◌<◌, ◌≡◌, ◌⊎◌, ◌↔◌, inl, inr, refl, sym, ap, ◌∙◌, List, [], ◌∷◌, Option, none, some, Bool,
  true, false, ◌&&◌, ◌||◌, length, arith, Bool-cases, ltb→lt,
}
use rfmesh_workspace.Base.Dict.Members.{IsAmong}
use rfmesh_workspace.Base.Results.{ok}
use rfmesh_workspace.Fusion.Bearings.{
  Capability, l1_rssi, l2_music, l2_capon, l2_mvdr_null, l3_classify, l1_refused_prominence,
  comms_dsss,
}
use rfmesh_workspace.Node.Config.{
  ArrayGeometry, ula, uca, custom, ArrayConfig, NodeConfig, is_set, is_l2, is_l1_rssi, any,
  declares_l2, is_line, is_ula, is_heading, is_oriented, make_node_config,
}
use rfmesh_workspace.Node.Config.Checks.{
  IsChecked, make_node_config-IsChecked, make_node_config_accepts,
}

-- One of the capabilities that need a phase-coherent array.
abbrev pub IsL2 : Capability → Type 0
IsL2 k = (k ≡ l2_music) ⊎ ((k ≡ l2_capon) ⊎ (k ≡ l2_mvdr_null))

abbrev pub DeclaresL2 : List Capability → Type 0
DeclaresL2 ks = (k : Capability) × IsAmong k ks × IsL2 k

abbrev pub IsGiven : {A : Type 0} → Option A → Type 0
IsGiven {A} o = (a : A) × (o ≡ some a)

-- What the configuration of a node promises its users, an angle being in microdegrees.
pub record IsValid {P : Type 0} (c : NodeConfig P) : Type 0 where
  pub names_node : 0 < length c.node_id
  pub declares : 0 < length c.capabilities
  pub has_bearing : (h : ℕ) → c.heading ≡ some h → h < 360000000
  pub array_for_l2 : DeclaresL2 c.capabilities → IsGiven c.array
  pub l2_for_array : IsGiven c.array → DeclaresL2 c.capabilities
  pub heading_for_l1 : IsAmong l1_rssi c.capabilities → IsGiven c.heading
  pub heading_for_line : (a : ArrayConfig) → c.array ≡ some a → a.geometry ≡ ula → IsGiven c.heading

is_l2-IsL2 : (k : Capability) → is_l2 k ≡ true → IsL2 k
is_l2-IsL2 l2_music h = inl refl
is_l2-IsL2 l2_capon h = inr (inl refl)
is_l2-IsL2 l2_mvdr_null h = inr (inr refl)
is_l2-IsL2 l1_rssi h = cc
is_l2-IsL2 l3_classify h = cc
is_l2-IsL2 l1_refused_prominence h = cc
is_l2-IsL2 comms_dsss h = cc

IsL2-is_l2 : (k : Capability) → IsL2 k → is_l2 k ≡ true
IsL2-is_l2 k (inl same) = ap is_l2 same
IsL2-is_l2 k (inr (inl same)) = ap is_l2 same
IsL2-is_l2 k (inr (inr same)) = ap is_l2 same

is_l1_rssi-eq : (k : Capability) → is_l1_rssi k ≡ true → k ≡ l1_rssi
is_l1_rssi-eq l1_rssi h = refl
is_l1_rssi-eq l2_music h = cc
is_l1_rssi-eq l2_capon h = cc
is_l1_rssi-eq l2_mvdr_null h = cc
is_l1_rssi-eq l3_classify h = cc
is_l1_rssi-eq l1_refused_prominence h = cc
is_l1_rssi-eq comms_dsss h = cc

any-IsAmong :
    (test : Capability → Bool) (ks : List Capability)
    → any test ks ≡ true
    → (k : Capability) × IsAmong k ks × (test k ≡ true)
any-IsAmong test [] h = cc
any-IsAmong test (k ∷ ks) h = elim (Bool-cases (test k)) [
  | inl here ↦ (k, inl refl, here)
  | inr absent ↦
      let (found, among, there) = any-IsAmong test ks (sym (rw (absent) refl) ∙ h) in
      (found, inr among, there)
]

IsAmong-any :
    (test : Capability → Bool) (k : Capability) (ks : List Capability)
    → IsAmong k ks
    → test k ≡ true
    → any test ks ≡ true
IsAmong-any test k [] among h = elim among [ ]
IsAmong-any test k (j ∷ ks) (inl same) h = rw (ap test same ∙ h) refl
IsAmong-any test k (j ∷ ks) (inr among) h = elim (Bool-cases (test j)) [
  | inl here ↦ rw (here) refl
  | inr absent ↦ rw (absent) (IsAmong-any test k ks among h)
]

declares_l2-DeclaresL2 : (ks : List Capability) → declares_l2 ks ≡ true → DeclaresL2 ks
declares_l2-DeclaresL2 ks h =
    let (k, among, l2) = any-IsAmong is_l2 ks h in (k, among, is_l2-IsL2 k l2)

DeclaresL2-declares_l2 : (ks : List Capability) → DeclaresL2 ks → declares_l2 ks ≡ true
DeclaresL2-declares_l2 ks (k, among, l2) = IsAmong-any is_l2 k ks among (IsL2-is_l2 k l2)

given-is_set : {A : Type 0} (o : Option A) → IsGiven o → is_set o ≡ true
given-is_set o (a, same) = ap is_set same

set-IsGiven : {A : Type 0} (o : Option A) → is_set o ≡ true → IsGiven o
set-IsGiven none h = cc
set-IsGiven (some a) h = (a, refl)

is_line-eq : (g : ArrayGeometry) → is_line g ≡ true → g ≡ ula
is_line-eq ula h = refl
is_line-eq uca h = cc
is_line-eq custom h = cc

is_ula-line :
    (o : Option ArrayConfig)
    → is_ula o ≡ true
    → (a : ArrayConfig) × (o ≡ some a) × (a.geometry ≡ ula)
is_ula-line none h = cc
is_ula-line (some a) h = (a, refl, is_line-eq a.geometry h)

heading-lt : (o : Option ℕ) → is_heading o ≡ true → (h : ℕ) → o ≡ some h → h < 360000000
heading-lt none t h same = cc
heading-lt (some x) t h same = let equal : x ≡ h = cc in omega (arith, ltb→lt x 360000000 t)

lt-heading : (o : Option ℕ) → ((h : ℕ) → o ≡ some h → h < 360000000) → is_heading o ≡ true
lt-heading none small = refl
lt-heading (some x) small = ground (arith, small x refl)

same_test : (x y : Bool) → (x ≡ true → y ≡ true) → (y ≡ true → x ≡ true) → x ≡ y
same_test true y f g = sym (f refl)
same_test false true f g = g refl
same_test false false f g = refl

-- The test for a heading, on the values that it reads.
either_right : (x y z : Bool) → y ≡ true → z ≡ true → (x || (y && z)) ≡ true
either_right true y z h k = refl
either_right false y z h k = rw (h, k) refl

either_cases : (x y z : Bool) → (x || (y && z)) ≡ true → (x ≡ true) ⊎ ((y ≡ true) × (z ≡ true))
either_cases true y z h = inl refl
either_cases false true z h = inr (refl, h)
either_cases false false z h = cc

module _ {P : Type 0} where
  -- An array stands in a valid configuration just when an L2 capability is declared.
  pub IsValid-is_set : (c : NodeConfig P) → IsValid c → is_set c.array ≡ declares_l2 c.capabilities
  IsValid-is_set c v =
      same_test (is_set c.array) (declares_l2 c.capabilities)
        (λ h. DeclaresL2-declares_l2 c.capabilities (v.l2_for_array (set-IsGiven c.array h)))
        (λ h. given-is_set c.array (v.array_for_l2 (declares_l2-DeclaresL2 c.capabilities h)))

  IsChecked-IsValid : (c : NodeConfig P) → IsChecked c → IsValid c
  unfolding is_oriented
  IsChecked-IsValid c t = record {
    names_node = t.names_node;
    declares = t.declares;
    has_bearing = heading-lt c.heading t.has_heading;
    array_for_l2 =
        λ h. set-IsGiven c.array (t.array_for_l2 ∙ DeclaresL2-declares_l2 c.capabilities h);
    l2_for_array =
        λ h. declares_l2-DeclaresL2 c.capabilities (sym t.array_for_l2 ∙ given-is_set c.array h);
    heading_for_l1 = λ among. set-IsGiven c.heading (
        t.heading_if_oriented (rw (IsAmong-any is_l1_rssi l1_rssi c.capabilities among refl) refl));
    heading_for_line = λ a same line. set-IsGiven c.heading (
        t.heading_if_oriented (
          either_right (any is_l1_rssi c.capabilities) (declares_l2 c.capabilities) (is_ula c.array)
            (sym t.array_for_l2 ∙ given-is_set c.array (a, same))
            (ap is_ula same ∙ ap is_line line)));
  }

  oriented_given : (c : NodeConfig P) → IsValid c → is_oriented c ≡ true → is_set c.heading ≡ true
  unfolding is_oriented
  oriented_given c v h =
      elim (either_cases (any is_l1_rssi c.capabilities) (declares_l2 c.capabilities)
        (is_ula c.array) h) [
          | inl l1 ↦
              let (k, among, test) = any-IsAmong is_l1_rssi c.capabilities l1 in
              given-is_set c.heading (
                v.heading_for_l1
                  (subst (λ j. IsAmong j c.capabilities) (is_l1_rssi-eq k test) among))
          | inr (l2, line) ↦
              let (a, same, ula_line) = is_ula-line c.array line in
              given-is_set c.heading (v.heading_for_line a same ula_line)
        ]

  IsValid-IsChecked : (c : NodeConfig P) → IsValid c → IsChecked c
  IsValid-IsChecked c v = record {
    names_node = v.names_node;
    declares = v.declares;
    has_heading = lt-heading c.heading v.has_bearing;
    array_for_l2 = IsValid-is_set c v;
    heading_if_oriented = oriented_given c v;
  }

  -- The constructor yields a configuration just when it is the given one, and that has a name, at least
  -- one capability, a heading below 360 degrees if any, an array just when one of the three L2 capabilities
  -- is declared, and a heading when the L1 sweep is declared or the array is a line.
  pub make_node_config-IsValid :
      (c d : NodeConfig P) → (make_node_config c ≡ ok d) ↔ ((d ≡ c) × IsValid c)
  make_node_config-IsValid c d = (
    λ h.
        let (same, checked) = make_node_config-IsChecked c d h in
        (same, IsChecked-IsValid c checked),
    λ h. make_node_config_accepts c (IsValid-IsChecked c h.1) ∙ ap ok (sym h.0),
  )
